-- ===== src/Sticky.antt =====
-- pkg/kthena-router/sessionsticky: the bindings of sessions to pods that the router keeps in memory
-- (store.go, binding.go, ttl.go). An operation holds the store's mutex, so it is a function of the
-- map; `time.Now()` is its argument, in nanoseconds.
pub mod Tests
pub mod Commit
pub mod Owner
pub mod Lifetime
use kthena.Common.{
  ℕ, zero, suc, ◌+◌, ◌*◌, ◌^◌, Bool, true, false, not, ◌&&◌, Option, none, some, List, [], ◌∷◌,
  ◌==◌, ltb, if◌then◌else◌, Text, text_eq,
}
use kthena.Common.Int.{ℤ, pos, negsuc, ltb_ℤ, ◌*ℤ◌}
use kthena.Common.Dict.{Dict, lookup, insert, delete}

pub record Binding : Type 0 where
  pub model_server : Text
  pub pod : Text
  pub prefill_pod : Text

unfoldable pub valid : Binding → Bool
valid b = not (b.model_server == []) && not (b.pod == [])

unfoldable pub valid_pd : Binding → Bool
unfolding valid
valid_pd b = valid b && not (b.prefill_pod == [])

unfoldable pub equal : Binding → Binding → Bool
equal b other =
    b.model_server == other.model_server && b.pod == other.pod && b.prefill_pod == other.prefill_pod

pub record MemoryEntry : Type 0 where
  pub binding : Binding
  pub until : ℕ

-- The map of a MemoryStore.
abbrev pub Store : Type 0
Store = Dict Text MemoryEntry

unfoldable pub new_memory_store : Store
new_memory_store = []

-- `e.until.After(now)`
unfoldable pub live : MemoryEntry → ℕ → Bool
live e now = ltb now e.until

unfoldable pub sweep_expired : Store → ℕ → Store
unfolding live
sweep_expired [] now = []
sweep_expired ((k, e) ∷ m) now =
    let rest = sweep_expired m now in if not (live e now) then rest else (k, e) ∷ rest

-- What Get does with an entry of the map.
unfoldable pub usable : ℕ → Option MemoryEntry → Option Binding
unfolding live valid
usable now none = none
usable now (some e) =
    if not (live e now) then none else if not (valid e.binding) then none else some e.binding

unfoldable pub get : Store → Text → ℕ → Option Binding
unfolding usable
get s key now = usable now (lookup key s)

unfoldable pub delete_binding : Store → Text → Store
delete_binding s key = delete key s

-- `if ttl <= 0 { ttl = time.Second }`
unfoldable pub effective_ttl : ℤ → ℕ
effective_ttl (pos zero) = 10 ^ 9
effective_ttl (pos (suc n)) = suc n
effective_ttl (negsuc n) = 10 ^ 9

-- The branch of Commit for a valid binding, by the entry that the map has.
unfoldable pub commit_over : Option MemoryEntry → Store → Text → Binding → ℕ → ℕ → Store × Binding
unfolding live valid equal
commit_over none s key b now until = (insert key (record { binding = b; until = until }) s, b)
commit_over (some cur) s key b now until =
    if live cur now && valid cur.binding
    then if not (equal cur.binding b)
      then (s, cur.binding)
      else (insert key (record { binding = b; until = until }) s, b)
    else (insert key (record { binding = b; until = until }) s, b)

-- The store and the canonical binding; `none` is the error of an invalid binding.
unfoldable pub commit : Store → Text → Binding → ℤ → ℕ → Store × Option Binding
unfolding valid effective_ttl commit_over
commit s key b ttl now =
    if not (valid b)
    then (s, none)
    else let (s', canonical) = commit_over (lookup key s) s key b now (now + effective_ttl ttl) in
      (s', some canonical)

-- ttl.go: `none` is a nil pointer, first of the spec, then of its field.
unfoldable pub ttl : Option (Option ℤ) → ℤ
ttl none = pos (300 * 10 ^ 9)
ttl (some none) = pos (300 * 10 ^ 9)
ttl (some (some seconds)) =
    if ltb_ℤ seconds (pos 1) then pos (300 * 10 ^ 9) else seconds *ℤ pos (10 ^ 9)
