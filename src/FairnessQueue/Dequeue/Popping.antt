-- ===== src/FairnessQueue/Dequeue/Popping.antt =====
-- popWhenAvailable ends: pkg/kthena-router/datastore/fairness_queue.go
use kthena.Common.{
  ℕ, zero, suc, ◌+◌, ◌≤◌, ◌<◌, ◌≡◌, ◌≢◌, refl, Bool, true, false, not, none, some, List, [], ◌∷◌,
  ◌++◌, if◌then◌else◌, length, arith, Bool-cases, Option-cases, inl, inr, ◌⊎◌, count, count-append,
  length-append, length-count,
}
use kthena.FairnessQueue.Dequeue.{
  Waiting, got, out_of_fuel, Next, take_it, again, Config, with_priority, pop, refresh_one,
  rebuild_heap, push_back, refreshed, after_pop, pop_when_available,
}

pub Next-cases :
    {F : Type 0} (n : Next F)
    → ((r : Waiting F) × (rest : List (Waiting F)) × (n ≡ take_it r rest))
      ⊎ ((heap : List (Waiting F)) × (retries : ℕ) × (n ≡ again heap retries))
Next-cases (take_it r rest) = inl (r, rest, refl)
Next-cases (again heap retries) = inr (heap, retries, refl)

module _ {F : Type 0} (config : Config F) where
  -- The tracker's answer is another priority than the request has.
  abbrev pub stale : Waiting F → Bool
  stale r = elim (config.new_priority r.item.user_id) [
    | none ↦ false
    | some p ↦ not (config.floats.eq p r.item.priority)
  ]

  -- Each round takes a request off the heap or settles a priority.
  abbrev pub rounds_left : List (Waiting F) → ℕ
  rounds_left heap = length heap + count stale heap

  pub pop-nil : (heap : List (Waiting F)) → pop config heap ≡ none → heap ≡ []
  unfolding pop
  pop-nil [] e = refl
  pop-nil (x ∷ xs) e = elim (Option-cases (pop config xs)) [
    | inl nothing ↦ ground (arith, nothing, e)
    | inr ((least, others), found) ↦ ground (arith, found, e)
  ]

  -- What is popped and what is left are the heap.
  pub count-pop :
      (test : Waiting F → Bool) (heap rest : List (Waiting F)) (r : Waiting F)
      → pop config heap ≡ some (r, rest)
      → count test heap ≡ (if test r then 1 else 0) + count test rest
  unfolding pop
  count-pop test [] rest r e = cc
  count-pop test (x ∷ xs) rest r e = elim (Option-cases (pop config xs)) [
    | inl nothing ↦
        let alone : pop config (x ∷ xs) ≡ some (x, []) = ground (arith, nothing) in
        let key : x ≡ r = cc in
        let left : [] ≡ rest = cc in rw (pop-nil xs nothing) (rw (← key, ← left) refl)
    | inr ((least, others), found) ↦
        let ih = count-pop test xs others least found in
        elim (Bool-cases (config.less least.item x.item)) [
          | inl before ↦
              let step : pop config (x ∷ xs) ≡ some (least, x ∷ others) =
                ground (arith, found, before) in
              let key : least ≡ r = cc in
              let left : x ∷ others ≡ rest = cc in rw (← key, ← left) (omega (arith, ih))
          | inr behind ↦
              let step : pop config (x ∷ xs) ≡ some (x, xs) = ground (arith, found, behind) in
              let key : x ≡ r = cc in let left : xs ≡ rest = cc in rw (← key, ← left) refl
        ]
  ]

  pub length-pop :
      (heap rest : List (Waiting F)) (r : Waiting F)
      → pop config heap ≡ some (r, rest)
      → length heap ≡ length rest + 1
  length-pop heap rest r e =
      omega (arith, count-pop (λ _. true) heap rest r e, length-count heap, length-count rest)

  refresh_settles : (r : Waiting F) → stale (refresh_one config r) ≡ true → stale r ≡ true
  unfolding refresh_one
  refresh_settles r h = elim (Option-cases (config.new_priority r.item.user_id)) [
    | inl e ↦ ground (arith, h, e)
    | inr (p, e) ↦ ground (arith, h, e, config.floats.eq_of_eq p r.item.priority)
  ]

  rebuild_settles :
      (heap : List (Waiting F)) → rounds_left (rebuild_heap config heap) ≤ rounds_left heap
  unfolding rebuild_heap
  rebuild_settles [] = omega arith
  rebuild_settles (r ∷ rs) = ground (arith, rebuild_settles rs, refresh_settles r)

  -- A round that goes on leaves fewer rounds.
  push_back-rounds_left :
      (r : Waiting F) (rest heap : List (Waiting F)) (retries retries' : ℕ)
      → push_back config r rest retries ≡ again heap retries'
      → rounds_left heap ≤ rounds_left (rest ++ (r ∷ []))
  unfolding push_back
  push_back-rounds_left r rest heap retries retries' e =
      ground (arith, e, rebuild_settles (rest ++ (r ∷ [])))

  after_pop-rounds_left :
      (r : Waiting F) (rest heap : List (Waiting F)) (retries retries' : ℕ)
      → after_pop config r rest retries ≡ again heap retries'
      → rounds_left heap < rounds_left rest + 1 + (if stale r then 1 else 0)
  unfolding after_pop refreshed
  after_pop-rounds_left r rest heap retries retries' e = elim (Bool-cases r.cancelled) [
    | inl gone ↦ ground (arith, e, gone)
    | inr live ↦ elim (Option-cases (config.new_priority r.item.user_id)) [
      | inl same ↦ ground (arith, e, live, same)
      | inr (p, new) ↦ elim (Option-cases (pop config rest)) [
        | inl empty ↦ ground (arith, e, live, new, empty)
        | inr ((root, others), found) ↦
            let r' = with_priority r p in
            let pushed = push_back-rounds_left r' rest heap retries retries' in
            let longer = length-append rest (r' ∷ []) in
            let counted = count-append stale rest (r' ∷ []) in
            ground (
              arith,
              e,
              live,
              new,
              found,
              pushed,
              longer,
              counted,
              config.floats.eq_of_gt p root.item.priority,
            )
      ]
    ]
  ]

  -- With fuel for every request and every priority that is not the tracker's, popWhenAvailable returns
  -- a request or waits.
  pub pop_when_available-total :
      (fuel : ℕ) (heap : List (Waiting F)) (retries : ℕ)
      → rounds_left heap < fuel
      → pop_when_available config fuel heap retries ≢ out_of_fuel
  unfolding pop_when_available
  pop_when_available-total zero heap retries enough e = elim enough [ ]
  pop_when_available-total (suc fuel) heap retries enough e =
      elim (Option-cases (pop config heap)) [
        | inl nothing ↦ ground (arith, e, nothing)
        | inr ((r, rest), found) ↦ elim (Next-cases (after_pop config r rest retries)) [
          | inl (r', rest', stop) ↦ ground (arith, e, found, stop)
          | inr (heap', retries', on) ↦
              let fewer = after_pop-rounds_left r rest heap' retries retries' on in
              let popped = count-pop stale heap rest r found in
              let shorter = length-pop heap rest r found in
              pop_when_available-total fuel heap' retries'
                (ground (arith, fewer, popped, shorter, enough)) (ground (arith, e, found, on))
        ]
      ]

  length-rebuild : (heap : List (Waiting F)) → length (rebuild_heap config heap) ≡ length heap
  unfolding rebuild_heap
  length-rebuild [] = refl
  length-rebuild (r ∷ rs) = omega (arith, length-rebuild rs)

  push_back-length :
      (r : Waiting F) (rest heap : List (Waiting F)) (retries retries' : ℕ)
      → push_back config r rest retries ≡ again heap retries'
      → length heap ≡ length rest + 1
  unfolding push_back
  push_back-length r rest heap retries retries' e =
      ground (arith, e, length-rebuild (rest ++ (r ∷ [])), length-append rest (r ∷ []))

  refreshed-length :
      (r r' : Waiting F) (rest rest' heap : List (Waiting F)) (retries retries' : ℕ) (p : F)
      → (refreshed config r rest retries p ≡ take_it r' rest' → rest' ≡ rest)
        × (refreshed config r rest retries p ≡ again heap retries' → length heap ≡ length rest + 1)
  unfolding refreshed push_back
  refreshed-length r r' rest rest' heap retries retries' p = (
    λ e. ground (arith, e),
    λ e. ground (arith, e, push_back-length (with_priority r p) rest heap retries retries'),
  )

  after_pop-length :
      (r r' : Waiting F) (rest rest' heap : List (Waiting F)) (retries retries' : ℕ)
      → (after_pop config r rest retries ≡ take_it r' rest' → rest' ≡ rest)
        × (after_pop config r rest retries ≡ again heap retries' → length heap ≤ length rest + 1)
  unfolding after_pop
  after_pop-length r r' rest rest' heap retries retries' =
      elim (Option-cases (config.new_priority r.item.user_id)) [
        | inl silent ↦ (λ e. ground (arith, e, silent), λ e. ground (arith, e, silent))
        | inr (p, answer) ↦
            let (taken, on) = refreshed-length r r' rest rest' heap retries retries' p in
            (λ e. ground (arith, e, answer, taken), λ e. ground (arith, e, answer, on))
      ]

  -- A request that is returned has left the heap.
  pub pop_when_available-length :
      (fuel : ℕ) (heap rest : List (Waiting F)) (r : Waiting F) (retries : ℕ)
      → pop_when_available config fuel heap retries ≡ got r rest
      → length rest < length heap
  unfolding pop_when_available
  pop_when_available-length zero heap rest r retries e = cc
  pop_when_available-length (suc fuel) heap rest r retries e =
      elim (Option-cases (pop config heap)) [
        | inl nothing ↦ ground (arith, e, nothing)
        | inr ((x, others), found) ↦
            let shorter = length-pop heap others x found in
            elim (Next-cases (after_pop config x others retries)) [
              | inl (r', rest', stop) ↦
                  let same : rest' ≡ others =
                    (after_pop-length x r' others rest' [] retries 0).0 stop in
                  ground (arith, e, found, stop, same, shorter)
              | inr (heap', retries', on) ↦
                  let grown = (after_pop-length x x others [] heap' retries retries').1 on in
                  let later : pop_when_available config fuel heap' retries' ≡ got r rest =
                    ground (arith, e, found, on) in
                  omega (
                    arith,
                    pop_when_available-length fuel heap' rest r retries' later,
                    grown,
                    shorter,
                  )
            ]
      ]
