-- ===== src/Sticky/Tests.antt =====
-- Concrete runs of the memory store: pkg/kthena-router/sessionsticky/store.go
use kthena.Sticky.{ttl}
use kthena.Sticky.Lifetime.{ttl_lem}
use kthena.Common.{
  ◌^◌, ◌≤◌, List, [], ◌∷◌, some, none, ◌≡◌, ◌≢◌, ap, text_beq, true, false, refl, arith, Text,
  text_eq, codes, ◌<◌, ℕ, ◌+◌,
}
use kthena.Common.Int.{ℤ, pos}
use kthena.Sticky.{Binding, valid, new_memory_store, get, effective_ttl, commit, commit_over}
use kthena.Common.Dict.{lookup, insert}
use kthena.Sticky.Commit.{winner, commit_lem}
use kthena.Sticky.Owner.{Op, sweep, bind, run, owner_lem}

abbrev session : Text
session = codes "s1"

abbrev first : Binding
first = record { model_server = codes "ms"; pod = codes "pod-a"; prefill_pod = [] }

abbrev second : Binding
second = record { model_server = codes "ms"; pod = codes "pod-b"; prefill_pod = [] }

first-valid : valid first ≡ true
unfolding valid
first-valid = refl

second-valid : valid second ≡ true
unfolding valid
second-valid = refl

abbrev later : List Op
later = bind session second (pos 500) 20 ∷ sweep 50 ∷ []

first-won : (commit (run new_memory_store []) session first (pos 100) 10).1 ≡ some first
unfolding commit valid effective_ttl commit_over lookup new_memory_store run insert
first-won = refl

ttl-100 : effective_ttl (pos 100) ≡ 100
unfolding effective_ttl
ttl-100 = refl

second-ne-first : second ≢ first
second-ne-first e = cc (ap (λ b. text_beq b.pod (codes "pod-b")) e)

owner_lem_example :
    (get (run (run new_memory_store []) (bind session first (pos 100) 10 ∷ later)) session 60
      ≡ some first)
    × ((c : Binding) (ttl' : ℤ)
        → valid c ≡ true
        → (commit
            (run (run new_memory_store []) (bind session first (pos 100) 10 ∷ later))
            session
            c
            ttl'
            60).1
          ≡ some first)
owner_lem_example =
    owner_lem [] session first (pos 100) 10 later 60 first-valid first-won
      ((omega (arith, ttl-100), λ same e. absurd (second-ne-first e)), (omega (arith, ttl-100), tt))
      (omega (arith, ttl-100))

commit_lem_example :
    (valid second ≡ true
      → ((commit new_memory_store session second (pos 100) 10).1
          ≡ some (winner (get new_memory_store session 10) second))
        × (winner (get new_memory_store session 10) second ≡ second
            → (t : ℕ) → t < 10 + effective_ttl (pos 100)
            → get (commit new_memory_store session second (pos 100) 10).0 session t ≡ some second)
        × (winner (get new_memory_store session 10) second ≢ second
            → (commit new_memory_store session second (pos 100) 10).0 ≡ new_memory_store)
        × ((j : Text) (t : ℕ)
            → session ≢ j
            → get (commit new_memory_store session second (pos 100) 10).0 j t
              ≡ get new_memory_store j t))
    × (valid second ≡ false
        → commit new_memory_store session second (pos 100) 10 ≡ (new_memory_store, none))
commit_lem_example = commit_lem new_memory_store session second (pos 100) 10

ttl_lem_example :
    (n : ℕ) × (ttl (some (some (pos 60))) ≡ pos n)
    × (effective_ttl (ttl (some (some (pos 60)))) ≡ n)
    × (10 ^ 9 ≤ n)
ttl_lem_example = ttl_lem (some (some (pos 60)))
