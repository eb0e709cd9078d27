-- ===== src/FairnessQueue/Dequeue/Kept.antt =====
-- popWhenAvailable loses no request: pkg/kthena-router/datastore/fairness_queue.go
use kthena.Common.{
  ℕ, zero, suc, ◌+◌, ◌≡◌, refl, Bool, false, not, ◌&&◌, List, [], ◌∷◌, ◌++◌, leb, nat_beq,
  if◌then◌else◌, Text, arith, Bool-cases, Option-cases, inl, inr, count, count-append, ap, sym, ◌∙◌,
}
use mathlib.Core.Path.{subst}
use kthena.FairnessQueue.Dequeue.{
  Waiting, Popped, got, waiting, out_of_fuel, Next, take_it, again, Config, with_priority, pop,
  should_rebuild, refresh_one, rebuild_heap, push_back, refreshed, after_pop, pop_when_available,
}
use kthena.FairnessQueue.Dequeue.Popping.{Next-cases, pop-nil, count-pop}

-- A request that is neither cancelled nor abandoned, and that a test of its user and its time picks.
abbrev pub wanted : {F : Type 0} → (Text → ℕ → Bool) → Waiting F → Bool
wanted test r = not r.cancelled && (not r.abandoned && test r.item.user_id r.item.request_time)

module _ {F : Type 0} (config : Config F) where
  count-rebuild :
      (test : Text → ℕ → Bool) (heap : List (Waiting F))
      → count (wanted test) (rebuild_heap config heap) ≡ count (wanted test) heap
  unfolding rebuild_heap refresh_one
  count-rebuild test [] = refl
  count-rebuild test (r ∷ rs) = ground (arith, count-rebuild test rs)

  -- What a round keeps: the requests that are wanted, and that what it returns is not cancelled.
  abbrev Keeps : (Text → ℕ → Bool) → ℕ → Next F → Type 0
  Keeps test n (take_it r rest) =
      (r.cancelled ≡ false) × ((if wanted test r then 1 else 0) + count (wanted test) rest ≡ n)
  Keeps test n (again heap retries) = count (wanted test) heap ≡ n

  push_back-Keeps :
      (test : Text → ℕ → Bool) (r : Waiting F) (rest : List (Waiting F)) (retries : ℕ)
      → Keeps test
          ((if wanted test r then 1 else 0) + count (wanted test) rest)
          (push_back config r rest retries)
  unfolding push_back
  push_back-Keeps test r rest retries =
      let counted = count-append (wanted test) rest (r ∷ []) in
      let rebuilt = count-rebuild test (rest ++ (r ∷ [])) in
      elim (Bool-cases (leb config.max_priority_refresh_retries (retries + 1))) [
        | inr more ↦ rw more (omega (arith, counted))
        | inl enough ↦ elim (Bool-cases (should_rebuild config (rest ++ (r ∷ [])))) [
          | inl small ↦ rw (enough, small) (omega (arith, counted, rebuilt))
          | inr large ↦ rw (enough, large) (omega (arith, counted))
        ]
      ]

  refreshed-Keeps :
      (test : Text → ℕ → Bool) (r : Waiting F) (rest : List (Waiting F)) (retries : ℕ) (p : F)
      → r.cancelled ≡ false
      → Keeps test
          ((if wanted test r then 1 else 0) + count (wanted test) rest)
          (refreshed config r rest retries p)
  unfolding refreshed
  refreshed-Keeps test r rest retries p live =
      elim (Bool-cases (config.floats.eq p r.item.priority)) [
        | inl same ↦ rw same (live, refl)
        | inr new ↦ elim (Option-cases (pop config rest)) [
          | inl empty ↦ rw (new, empty) (live, refl)
          | inr ((root, others), found) ↦
              elim (Bool-cases (config.floats.gt p root.item.priority)) [
                | inl above ↦
                    rw (new, found, above) (push_back-Keeps test (with_priority r p) rest retries)
                | inr below ↦ rw (new, found, below) (live, refl)
              ]
        ]
      ]

  after_pop-Keeps :
      (test : Text → ℕ → Bool) (r : Waiting F) (rest : List (Waiting F)) (retries : ℕ)
      → Keeps test
          ((if wanted test r then 1 else 0) + count (wanted test) rest)
          (after_pop config r rest retries)
  unfolding after_pop
  after_pop-Keeps test r rest retries =
      let kept = Keeps test ((if wanted test r then 1 else 0) + count (wanted test) rest) in
      elim (Bool-cases r.cancelled) [
        | inl gone ↦
            let result : after_pop config r rest retries ≡ again rest retries =
              ground (arith, gone) in
            subst kept (sym result) (ground (arith, gone))
        | inr live ↦
            let taken : kept (take_it r rest) = (live, refl) in
            elim (Bool-cases (nat_beq config.max_priority_refresh_retries 0)) [
              | inl off ↦
                  let result : after_pop config r rest retries ≡ take_it r rest =
                    ground (arith, live, off) in
                  subst kept (sym result) taken
              | inr on ↦ elim (Option-cases (config.new_priority r.item.user_id)) [
                | inl silent ↦
                    let result : after_pop config r rest retries ≡ take_it r rest =
                      ground (arith, live, on, silent) in
                    subst kept (sym result) taken
                | inr (p, answer) ↦
                    let result : after_pop config r rest retries
                        ≡ refreshed config r rest retries p =
                      ground (arith, live, on, answer) in
                    subst kept (sym result) (refreshed-Keeps test r rest retries p live)
              ]
            ]
      ]

  -- A call that returns a request returns one that is not cancelled and keeps every other one that is
  -- wanted; a call that waits has met none that is.
  abbrev pub PoppedKeeps : (Text → ℕ → Bool) → ℕ → Popped F → Type 0
  PoppedKeeps test n (got r rest) =
      (r.cancelled ≡ false) × ((if wanted test r then 1 else 0) + count (wanted test) rest ≡ n)
  PoppedKeeps test n waiting = n ≡ 0
  PoppedKeeps test n out_of_fuel = Unit

  pub pop_when_available-Keeps :
      (test : Text → ℕ → Bool) (fuel : ℕ) (heap : List (Waiting F)) (retries : ℕ)
      → PoppedKeeps test (count (wanted test) heap) (pop_when_available config fuel heap retries)
  unfolding pop_when_available
  pop_when_available-Keeps test zero heap retries = tt
  pop_when_available-Keeps test (suc fuel) heap retries =
      let kept = PoppedKeeps test (count (wanted test) heap) in
      let call = pop_when_available config (suc fuel) heap retries in
      elim (Option-cases (pop config heap)) [
        | inl nothing ↦
            let result : call ≡ waiting = ground (arith, nothing) in
            subst kept (sym result) (ap (count (wanted test)) (pop-nil config heap nothing))
        | inr ((r, rest), found) ↦
            let popped = count-pop config (wanted test) heap rest r found in
            let round = after_pop-Keeps test r rest retries in
            elim (Next-cases (after_pop config r rest retries)) [
              | inl (r', rest', stop) ↦
                  let result : call ≡ got r' rest' = ground (arith, found, stop) in
                  let (live, same) = rw stop at round in
                  subst kept (sym result) (live, same ∙ sym popped)
              | inr (heap', retries', on) ↦
                  let result : call ≡ pop_when_available config fuel heap' retries' =
                    ground (arith, found, on) in
                  let same : count (wanted test) heap' ≡ count (wanted test) heap =
                    (rw on at round) ∙ sym popped in
                  subst kept (sym result) (
                    subst (λ n. PoppedKeeps test n (pop_when_available config fuel heap' retries'))
                      same (pop_when_available-Keeps test fuel heap' retries'))
            ]
      ]
