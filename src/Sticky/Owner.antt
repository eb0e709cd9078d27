-- ===== src/Sticky/Owner.antt =====
-- The owner of a session over a run of the store: pkg/kthena-router/sessionsticky/store.go
use kthena.Common.{
  ℕ, ◌+◌, ◌≤◌, ◌<◌, ◌≡◌, ◌≢◌, refl, sym, ap, ◌∙◌, true, false, Option, none, some, List, [], ◌∷◌,
  ◌==◌, if◌then◌else◌, Text, text_eq, text_beq_iff, arith, Bool-cases, inl, inr, All,
}
use mathlib.Core.Path.{subst}
use kthena.Common.Int.{ℤ}
use kthena.Common.Dict.{
  lookup, insert, lookup-insert, lookup-insert_self, lookup-delete, Distinct, insert-Distinct,
  delete-Distinct,
}
use kthena.Sticky.{
  Binding, valid, equal, MemoryEntry, Store, new_memory_store, live, usable, get, sweep_expired,
  delete_binding, effective_ttl, commit,
}
use kthena.Sticky.Commit.{equal_iff, stored, winner, commit-valid, commit-invalid}

pub data Op : Type 0 where
  sweep : ℕ → Op
  remove : Text → Op
  bind : Text → Binding → ℤ → ℕ → Op

unfoldable pub step : Store → Op → Store
step s (sweep now) = sweep_expired s now
step s (remove key) = delete_binding s key
step s (bind key b ttl now) = (commit s key b ttl now).0

unfoldable pub run : Store → List Op → Store
unfolding step
run s [] = s
run s (op ∷ ops) = run (step s op) ops

lookup-sweep :
    (s : Store) (key : Text) (now : ℕ)
    → Distinct s
    → lookup key (sweep_expired s now)
      ≡ (elim (lookup key s) [ none ↦ none | some e ↦ if live e now then some e else none ])
unfolding sweep_expired lookup live
lookup-sweep [] key now d = refl
lookup-sweep ((k, e) ∷ m) key now d = elim (Bool-cases (k == key)) [
  | inl same ↦
      let key_eq : k ≡ key = (text_beq_iff k key).0 same in
      let gone : lookup key m ≡ none = ground (arith, d.0) in
      ground (arith, lookup-sweep m key now d.1)
  | inr other ↦ ground (arith, lookup-sweep m key now d.1)
]

sweep-Distinct : (s : Store) (now : ℕ) → Distinct s → Distinct (sweep_expired s now)
unfolding sweep_expired
sweep-Distinct [] now d = tt
sweep-Distinct ((k, e) ∷ m) now d = elim (Bool-cases (live e now)) [
  | inl kept ↦ rw kept (rw (lookup-sweep m k now d.1, d.0) refl, sweep-Distinct m now d.1)
  | inr gone ↦ rw gone (sweep-Distinct m now d.1)
]

stored-Distinct :
    (o : Option Binding) (s : Store) (key : Text) (b : Binding) (until : ℕ)
    → Distinct s
    → Distinct (stored o s key b until)
stored-Distinct none s key b until d = insert-Distinct key _ s d
stored-Distinct (some c) s key b until d = elim (Bool-cases (equal c b)) [
  | inl same ↦ rw same (insert-Distinct key _ s d)
  | inr other ↦ rw other d
]

-- What holds of the store, and of the store with the commit carried out, holds after the commit.
after-bind :
    (P : Store → Type 0) (s : Store) (key : Text) (b : Binding) (ttl : ℤ) (now : ℕ)
    → P s
    → (valid b ≡ true → P (stored (get s key now) s key b (now + effective_ttl ttl)))
    → P (step s (bind key b ttl now))
unfolding step
after-bind P s key b ttl now h k = elim (Bool-cases (valid b)) [
  | inl v ↦ subst P (sym (ap (λ p. p.0) (commit-valid s key b ttl now v))) (k v)
  | inr v ↦ subst P (sym (ap (λ p. p.0) (commit-invalid s key b ttl now v))) h
]

step-Distinct : (s : Store) (op : Op) → Distinct s → Distinct (step s op)
unfolding step delete_binding
step-Distinct s (sweep now) d = sweep-Distinct s now d
step-Distinct s (remove key) d = delete-Distinct key s d
step-Distinct s (bind key b ttl now) d =
    after-bind Distinct s key b ttl now d (λ v. stored-Distinct (get s key now) s key b _ d)

-- The key has the binding until `until` at least.
abbrev Holds : Text → Binding → ℕ → Store → Type 0
Holds key b until s =
    (e : MemoryEntry) × (lookup key s ≡ some e) × (e.binding ≡ b) × (until ≤ e.until)

-- An operation that leaves the binding in force: before its end, no Delete of its key, and no
-- refresh of the binding itself with an earlier end.
abbrev pub Leaves : Text → Binding → ℕ → Op → Type 0
Leaves key b until (sweep now) = now < until
Leaves key b until (remove j) = j ≢ key
Leaves key b until (bind j c ttl now) =
    (now < until) × (j ≡ key → c ≡ b → until ≤ now + effective_ttl ttl)

usable-live :
    (e : MemoryEntry) (b : Binding) (t : ℕ)
    → valid b ≡ true
    → e.binding ≡ b
    → t < e.until
    → usable t (some e) ≡ some b
unfolding usable live
usable-live e b t v binding h =
    let v' : valid e.binding ≡ true = subst (λ c. valid c ≡ true) (sym binding) v in
    ground (arith, v', binding, h)

get-Holds :
    (key : Text) (b : Binding) (until : ℕ) (s : Store) (t : ℕ)
    → valid b ≡ true
    → Holds key b until s
    → t < until
    → get s key t ≡ some b
unfolding get
get-Holds key b until s t v (e, found, binding, later) h =
    rw found (usable-live e b t v binding (omega (arith, later, h)))

stored-Holds :
    (key j : Text) (b c : Binding) (until until' : ℕ) (o : Option Binding) (s : Store)
    → (key ≡ j → o ≡ some b)
    → (j ≡ key → c ≡ b → until ≤ until')
    → Holds key b until s
    → Holds key b until (stored o s j c until')
stored-Holds key j b c until until' o s own later h = elim (Bool-cases (j == key)) [
  | inl same ↦
      let j_key : j ≡ key = (text_beq_iff j key).0 same in
      subst (λ o. Holds key b until (stored o s j c until')) (sym (own (sym j_key)))
        (elim (Bool-cases (equal b c)) [
          | inl e ↦
              let b_c : b ≡ c = (equal_iff b c).0 e in
              rw e (
                record { binding = c; until = until' },
                rw (lookup-insert j key (record { binding = c; until = until' }) s, same) refl,
                sym b_c,
                later j_key (sym b_c),
              )
          | inr e ↦ rw e h
        ])
  | inr other ↦ other_key o other
]
  where
    inserted :
        (j == key) ≡ false → Holds key b until (insert j (record { binding = c; until = until' }) s)
    inserted other = (
      h.0,
      rw (lookup-insert j key (record { binding = c; until = until' }) s, other) h.1,
      h.2,
      h.3,
    )

    other_key :
        (o : Option Binding) → (j == key) ≡ false → Holds key b until (stored o s j c until')
    other_key none other = inserted other
    other_key (some d) other = elim (Bool-cases (equal d c)) [
      | inl e ↦ rw e (inserted other)
      | inr e ↦ rw e h
    ]

step-Holds :
    (key : Text) (b : Binding) (until : ℕ) (s : Store) (op : Op)
    → valid b ≡ true
    → Distinct s
    → Leaves key b until op
    → Holds key b until s
    → Holds key b until (step s op)
unfolding step delete_binding live
step-Holds key b until s (sweep now) v d l (e, found, binding, later) =
    (e, rw (lookup-sweep s key now d, found) (ground (arith, later, l)), binding, later)
step-Holds key b until s (remove j) v d l (e, found, binding, later) =
    (e, rw (lookup-delete j key s) (ground (arith, text_beq_iff j key, found)), binding, later)
step-Holds key b until s (bind j c ttl now) v d l h =
    after-bind (Holds key b until) s j c ttl now h (λ w.
      stored-Holds key j b c until (now + effective_ttl ttl) (get s j now) s
        (λ same. subst (λ k. get s k now ≡ some b) same (get-Holds key b until s now v h l.0)) l.1
        h)

run-Holds :
    (key : Text) (b : Binding) (until : ℕ) (s : Store) (ops : List Op)
    → valid b ≡ true
    → Distinct s
    → All (Leaves key b until) ops
    → Holds key b until s
    → Holds key b until (run s ops)
unfolding run
run-Holds key b until s [] v d l h = h
run-Holds key b until s (op ∷ ops) v d l h =
    run-Holds key b until (step s op) ops v (step-Distinct s op d) l.1
      (step-Holds key b until s op v d l.0 h)

pub run-Distinct : (s : Store) (ops : List Op) → Distinct s → Distinct (run s ops)
unfolding run
run-Distinct s [] d = d
run-Distinct s (op ∷ ops) d = run-Distinct (step s op) ops (step-Distinct s op d)

committed-Holds :
    (key : Text) (b : Binding) (ttl : ℤ) (now : ℕ) (s : Store)
    → valid b ≡ true
    → (commit s key b ttl now).1 ≡ some b
    → Holds key b (now + effective_ttl ttl) (step s (bind key b ttl now))
unfolding step
committed-Holds key b ttl now s v won =
    subst (Holds key b _) (sym (ap (λ p. p.0) (commit-valid s key b ttl now v)))
      (fresh (get s key now) (ap-won))
  where
    until : ℕ
    until = now + effective_ttl ttl

    ap-won : some (winner (get s key now) b) ≡ some b
    ap-won = sym (ap (λ p. p.1) (commit-valid s key b ttl now v)) ∙ won

    inserted : Holds key b until (insert key (record { binding = b; until = until }) s)
    inserted =
        (record { binding = b; until = until }, lookup-insert_self key _ s, refl, omega arith)

    fresh :
        (o : Option Binding)
        → some (winner o b) ≡ some b
        → Holds key b until (stored o s key b until)
    fresh none w = inserted
    fresh (some c) w = let same : equal c b ≡ true = (equal_iff c b).1 (cc w) in rw same inserted

new-Distinct : Distinct new_memory_store
unfolding new_memory_store
new-Distinct = tt

run-bind-Holds :
    (key : Text) (b : Binding) (ttl : ℤ) (now : ℕ) (s : Store) (ops : List Op)
    → valid b ≡ true
    → Distinct s
    → (commit s key b ttl now).1 ≡ some b
    → All (Leaves key b (now + effective_ttl ttl)) ops
    → Holds key b (now + effective_ttl ttl) (run s (bind key b ttl now ∷ ops))
unfolding run
run-bind-Holds key b ttl now s ops v d won l =
    run-Holds key b _ (step s (bind key b ttl now)) ops v (step-Distinct s (bind key b ttl now) d) l
      (committed-Holds key b ttl now s v won)

-- A session that a commit binds, after any earlier operations, keeps its binding until the end of
-- the commit's lifetime: whatever sweeps, deletes of other sessions and commits come in between
-- (before that end, and none of the binding itself with an earlier end), a read before the end
-- returns the binding, and so does a commit of any valid binding for the session.
pub owner_lem :
    (before : List Op) (key : Text) (b : Binding) (ttl : ℤ) (now : ℕ) (ops : List Op) (t : ℕ)
    → valid b ≡ true
    → (commit (run new_memory_store before) key b ttl now).1 ≡ some b
    → All (Leaves key b (now + effective_ttl ttl)) ops
    → t < now + effective_ttl ttl
    → (get (run (run new_memory_store before) (bind key b ttl now ∷ ops)) key t ≡ some b)
      × ((c : Binding) (ttl' : ℤ)
          → valid c ≡ true
          → (commit (run (run new_memory_store before) (bind key b ttl now ∷ ops)) key c ttl' t).1
            ≡ some b)
owner_lem before key b ttl now ops t v won l h =
    (read, λ c ttl' w. rw (commit-valid after key c ttl' t w, read) refl)
  where
    start : Store
    start = run new_memory_store before

    after : Store
    after = run start (bind key b ttl now ∷ ops)

    distinct : Distinct start
    distinct = run-Distinct new_memory_store before new-Distinct

    read : get after key t ≡ some b
    read = get-Holds key b _ after t v (run-bind-Holds key b ttl now start ops v distinct won l) h
