-- ===== src/FairnessQueue/Boost/Endings.antt =====
-- What a pass admits and keeps: pkg/kthena-router/datastore/session_boost_queue.go
use kthena.Common.{
  ℕ, ◌+◌, ◌-◌, ◌≡◌, refl, Bool, true, false, List, [], ◌∷◌, ◌++◌, if◌then◌else◌, Text, length,
  arith, inl, inr, ◌⊎◌, count, count-append, All,
}
use kthena.Common.Int.{ℤ, pos, ◌≤ℤ◌}
use kthena.FairnessQueue.Dequeue.{Waiting, got, Config}
use kthena.FairnessQueue.Dequeue.Kept.{wanted, pop_when_available-Keeps}
use kthena.FairnessQueue.Boost.{Round, Pass, drain_cancelled, try_dequeue}
use kthena.FairnessQueue.Boost.Passes.{call_in, turn}

drain-wanted :
    {F : Type 0} (test : Text → ℕ → Bool) (heap : List (Waiting F))
    → count (wanted test) (drain_cancelled heap) ≡ count (wanted test) heap
unfolding drain_cancelled
drain-wanted test [] = refl
drain-wanted test (r ∷ rs) = ground (arith, drain-wanted test rs)

-- Neither cancelled nor abandoned.
abbrev pub IsLive : {F : Type 0} → Waiting F → Type 0
IsLive r = (r.cancelled ≡ false) × (r.abandoned ≡ false)

-- The requests that are wanted before a pass and arrive in it are those it admits and keeps.
abbrev pub Accounts : {F : Type 0} → List (Waiting F) → Pass F → Type 0
Accounts heap pass =
    (test : Text → ℕ → Bool)
    → count (wanted test) pass.admitted + count (wanted test) pass.heap
      ≡ count (wanted test) heap + count (wanted test) pass.arrived

All-unless :
    {F : Type 0} (P : Waiting F → Type 0) (b : Bool) (r : Waiting F) (l : List (Waiting F))
    → (b ≡ false → P r)
    → All P l
    → All P (if b then l else r ∷ l)
All-unless P true r l h k = k
All-unless P false r l h k = (h refl, k)

count-unless :
    {F : Type 0} (test : Waiting F → Bool) (b : Bool) (r : Waiting F) (l : List (Waiting F))
    → count test (if b then l else r ∷ l)
      ≡ (if b then 0 else if test r then 1 else 0) + count test l
count-unless test true r l = omega arith
count-unless test false r l = refl

module _ {F : Type 0} (config : Config F) (max : ℤ) where
  below_limit :
      (rounds : List (Round F)) (inflight : ℕ) (heap : List (Waiting F))
      → pos inflight ≤ℤ max
      → pos (try_dequeue config max rounds inflight heap).inflight ≤ℤ max
  unfolding try_dequeue
  below_limit [] inflight heap h = h
  below_limit (round ∷ rounds) inflight heap h =
      turn config max (λ pass. pos pass.inflight ≤ℤ max) round rounds inflight heap
        (λ full. omega arith) (omega arith) (λ none'. omega arith) (λ none'. omega arith)
        (λ r rest e room.
          below_limit rounds
            (if r.abandoned then inflight - round.released else inflight - round.released + 1) rest
            (ground (arith, room)))

  admitted-limit :
      (rounds : List (Round F)) (inflight : ℕ) (heap : List (Waiting F))
      → ((try_dequeue config max rounds inflight heap).admitted ≡ [])
        ⊎ (pos (try_dequeue config max rounds inflight heap).inflight ≤ℤ max)
  unfolding try_dequeue
  admitted-limit [] inflight heap = inl refl
  admitted-limit (round ∷ rounds) inflight heap =
      turn config max (λ pass. (pass.admitted ≡ []) ⊎ (pos pass.inflight ≤ℤ max)) round rounds
        inflight heap (λ full. inl refl) (inl refl) (λ none'. inl refl) (λ none'. inl refl)
        (λ r rest e room. inr (
          below_limit rounds
            (if r.abandoned then inflight - round.released else inflight - round.released + 1) rest
            (ground (arith, room))))

  got-live :
      (queue rest : List (Waiting F)) (r : Waiting F)
      → call_in config max queue ≡ got r rest
      → r.cancelled ≡ false
  got-live queue rest r e =
      let kept =
        pop_when_available-Keeps config (λ u t. true) (length queue + length queue + 1) queue 0 in
      (rw e at kept).0

  admitted-IsLive :
      (rounds : List (Round F)) (inflight : ℕ) (heap : List (Waiting F))
      → All IsLive (try_dequeue config max rounds inflight heap).admitted
  unfolding try_dequeue
  admitted-IsLive [] inflight heap = tt
  admitted-IsLive (round ∷ rounds) inflight heap =
      turn config max (λ pass. All IsLive pass.admitted) round rounds inflight heap (λ full. tt) tt
        (λ none'. tt) (λ none'. tt)
        (λ r rest e room.
          All-unless IsLive r.abandoned r _
            (λ here. (got-live (heap ++ round.arrivals) rest r e, here))
            (admitted-IsLive rounds
              (if r.abandoned then inflight - round.released else inflight - round.released + 1)
              rest))

  pass-Accounts :
      (rounds : List (Round F)) (inflight : ℕ) (heap : List (Waiting F))
      → Accounts heap (try_dequeue config max rounds inflight heap)
  unfolding try_dequeue
  pass-Accounts [] inflight heap test = omega arith
  pass-Accounts (round ∷ rounds) inflight heap test =
      let queue = heap ++ round.arrivals in
      let joined = count-append (wanted test) heap round.arrivals in
      let drained = drain-wanted test queue in
      turn config max
        (λ pass.
          count (wanted test) pass.admitted + count (wanted test) pass.heap
          ≡ count (wanted test) heap + count (wanted test) pass.arrived)
        round rounds inflight heap (λ full. omega (arith, joined, drained))
        (omega (arith, joined, drained)) (λ none'. omega (arith, joined))
        (λ e.
          let kept =
            pop_when_available-Keeps config test (length queue + length queue + 1) queue 0 in
          let nothing : count (wanted test) queue ≡ 0 = rw e at kept in
          omega (arith, joined, nothing))
        (λ r rest e room.
          let kept =
            pop_when_available-Keeps config test (length queue + length queue + 1) queue 0 in
          let same = (rw e at kept).1 in
          let next =
            if r.abandoned then inflight - round.released else inflight - round.released + 1 in
          let later = pass-Accounts rounds next rest test in
          let pass = try_dequeue config max rounds next rest in
          let first = count-unless (wanted test) r.abandoned r pass.admitted in
          let arrived = count-append (wanted test) round.arrivals pass.arrived in
          ground (arith, joined, same, later, first, arrived))

  -- Whatever is released, arrives and answers in between: a pass that admits a request ends with no
  -- more in flight than the limit, it admits only requests that are neither cancelled nor abandoned,
  -- and each such request that was queued or arrived is admitted once or still queued.
  pub try_dequeue_lem :
      (rounds : List (Round F)) (inflight : ℕ) (heap : List (Waiting F))
      → let pass = try_dequeue config max rounds inflight heap in
        ((pass.admitted ≡ []) ⊎ (pos pass.inflight ≤ℤ max))
        × All IsLive pass.admitted
        × Accounts heap pass
  try_dequeue_lem rounds inflight heap = (
    admitted-limit rounds inflight heap,
    admitted-IsLive rounds inflight heap,
    pass-Accounts rounds inflight heap,
  )
