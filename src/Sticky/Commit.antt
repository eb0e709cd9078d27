-- ===== src/Sticky/Commit.antt =====
-- What a commit does to the reads: pkg/kthena-router/sessionsticky/store.go
use kthena.Common.{
  ℕ, ◌+◌, ◌<◌, ◌≡◌, ◌≢◌, refl, true, false, Option, none, some, ◌==◌, ==-refl, if◌then◌else◌, Text,
  arith, Bool-cases, inl, inr, text_eq, text_beq_iff, ◌↔◌,
}
use kthena.Common.Int.{ℤ}
use kthena.Common.Dict.{lookup, insert, lookup-insert}
use kthena.Sticky.{
  Binding, valid, equal, MemoryEntry, Store, live, usable, get, effective_ttl, commit_over, commit,
}

-- The binding that wins: a usable one that the key has, else the new one.
abbrev pub winner : Option Binding → Binding → Binding
winner none b = b
winner (some c) b = c

pub equal_iff : (a b : Binding) → (equal a b ≡ true) ↔ (a ≡ b)
unfolding equal
equal_iff a b = ground (
  arith,
  text_beq_iff a.model_server b.model_server,
  text_beq_iff a.pod b.pod,
  text_beq_iff a.prefill_pod b.prefill_pod,
)

-- The store after a commit: as it was if another binding holds the key, and else with the binding
-- until the new end.
abbrev pub stored : Option Binding → Store → Text → Binding → ℕ → Store
stored none s key b until = insert key (record { binding = b; until = until }) s
stored (some c) s key b until =
    if equal c b then insert key (record { binding = b; until = until }) s else s

commit_over_lem :
    (o : Option MemoryEntry) (s : Store) (key : Text) (b : Binding) (now until : ℕ)
    → commit_over o s key b now until
      ≡ (stored (usable now o) s key b until, winner (usable now o) b)
unfolding commit_over usable
commit_over_lem none s key b now until = refl
commit_over_lem (some e) s key b now until = ground (arith, equal_iff e.binding b)

pub commit-valid :
    (s : Store) (key : Text) (b : Binding) (ttl : ℤ) (now : ℕ)
    → valid b ≡ true
    → commit s key b ttl now
      ≡ (stored (get s key now) s key b (now + effective_ttl ttl), some (winner (get s key now) b))
unfolding commit get
commit-valid s key b ttl now h =
    rw (h, commit_over_lem (lookup key s) s key b now (now + effective_ttl ttl)) refl

pub commit-invalid :
    (s : Store) (key : Text) (b : Binding) (ttl : ℤ) (now : ℕ)
    → valid b ≡ false
    → commit s key b ttl now ≡ (s, none)
unfolding commit
commit-invalid s key b ttl now h = rw h refl

get-insert :
    (s : Store) (key j : Text) (e : MemoryEntry) (t : ℕ)
    → get (insert key e s) j t ≡ (if key == j then usable t (some e) else get s j t)
unfolding get
get-insert s key j e t = rw (lookup-insert key j e s) (ground arith)

usable-new :
    (b : Binding) (until t : ℕ)
    → valid b ≡ true
    → t < until
    → usable t (some (record { binding = b; until = until })) ≡ some b
unfolding usable live
usable-new b until t v h = ground arith

get-stored_other :
    (o : Option Binding) (s : Store) (key j : Text) (b : Binding) (until t : ℕ)
    → key ≢ j
    → get (stored o s key b until) j t ≡ get s j t
get-stored_other none s key j b until t ne =
    rw (get-insert s key j (record { binding = b; until = until }) t)
      (ground (arith, text_beq_iff key j))
get-stored_other (some c) s key j b until t ne = elim (Bool-cases (equal c b)) [
  | inl same ↦
      rw (same, get-insert s key j (record { binding = b; until = until }) t)
        (ground (arith, text_beq_iff key j))
  | inr other ↦ rw other refl
]

-- A commit of a valid binding returns the usable binding that the key has, or else its own. Where
-- it returns its own, each read of the key before the new end returns it; where it returns
-- another, the store is unchanged. Reads of other keys are unchanged. A commit of an invalid
-- binding is an error and leaves the store unchanged.
pub commit_lem :
    (s : Store) (key : Text) (b : Binding) (ttl : ℤ) (now : ℕ)
    → (valid b ≡ true
        → ((commit s key b ttl now).1 ≡ some (winner (get s key now) b))
          × (winner (get s key now) b ≡ b
              → (t : ℕ) → t < now + effective_ttl ttl
              → get (commit s key b ttl now).0 key t ≡ some b)
          × (winner (get s key now) b ≢ b → (commit s key b ttl now).0 ≡ s)
          × ((j : Text) (t : ℕ) → key ≢ j → get (commit s key b ttl now).0 j t ≡ get s j t))
      × (valid b ≡ false → commit s key b ttl now ≡ (s, none))
commit_lem s key b ttl now = (
  λ v. rw (commit-valid s key b ttl now v) (
    refl,
    mine v (get s key now),
    unchanged (get s key now),
    λ j t ne. get-stored_other (get s key now) s key j b _ t ne,
  ),
  λ v. refused v,
)
  where
    mine :
        valid b ≡ true
        → (o : Option Binding) → winner o b ≡ b
        → (t : ℕ) → t < now + effective_ttl ttl
        → get (stored o s key b (now + effective_ttl ttl)) key t ≡ some b
    mine v none w t h = rw (get-insert s key key _ t, ==-refl key) (usable-new b _ t v h)
    mine v (some c) w t h =
        rw ((equal_iff c b).1 w, get-insert s key key _ t, ==-refl key) (usable-new b _ t v h)

    unchanged :
        (o : Option Binding) → winner o b ≢ b → stored o s key b (now + effective_ttl ttl) ≡ s
    unchanged none ne = absurd (ne refl)
    unchanged (some c) ne = ground (arith, equal_iff c b)

    refused : valid b ≡ false → commit s key b ttl now ≡ (s, none)
    refused v = commit-invalid s key b ttl now v
