-- ===== src/FairnessQueue/Boost/Passes.antt =====
-- One turn of the loop, and what a pass admits and keeps:
-- pkg/kthena-router/datastore/session_boost_queue.go
use kthena.Common.{
  ℕ, ◌+◌, ◌-◌, ◌≡◌, ◌≢◌, refl, List, [], ◌∷◌, ◌++◌, nat_beq, if◌then◌else◌, length, arith,
  Bool-cases, inl, inr, ◌⊎◌, count-le-length, sym,
}
use mathlib.Core.Path.{subst}
use kthena.Common.Int.{ℤ, pos, ◌≤ℤ◌, ◌<ℤ◌, ltb_ℤ}
use kthena.FairnessQueue.Dequeue.{
  Waiting, Popped, got, waiting, out_of_fuel, Config, pop_when_available,
}
use kthena.FairnessQueue.Dequeue.Popping.{stale, pop_when_available-total}
use kthena.FairnessQueue.Boost.{
  Round, inflight_limit, backends_busy, queue_empty, blocked, Pass, drain_cancelled, stopped,
  admit_first, try_dequeue,
}

Popped-cases :
    {F : Type 0} (p : Popped F)
    → ((r : Waiting F) × (rest : List (Waiting F)) × (p ≡ got r rest))
      ⊎ (p ≡ waiting)
      ⊎ (p ≡ out_of_fuel)
Popped-cases (got r rest) = inl (r, rest, refl)
Popped-cases waiting = inr (inl refl)
Popped-cases out_of_fuel = inr (inr refl)

module _ {F : Type 0} (config : Config F) (max : ℤ) where
  abbrev pub call_in : List (Waiting F) → Popped F
  call_in queue = pop_when_available config (length queue + length queue + 1) queue 0

  -- The fuel of the call is enough.
  call-total : (queue : List (Waiting F)) → call_in queue ≢ out_of_fuel
  call-total queue =
      pop_when_available-total config (length queue + length queue + 1) queue 0
        (omega (arith, count-le-length (stale config) queue))

  -- What holds of each outcome of a turn holds of the pass.
  pub turn {κ} :
      (P : Pass F → Type κ) (round : Round F) (rounds : List (Round F)) (inflight : ℕ)
      (heap : List (Waiting F))
      → let current = inflight - round.released in
        let queue = heap ++ round.arrivals in
        (max ≤ℤ pos current
          → P (stopped current (drain_cancelled queue) round.arrivals inflight_limit))
        → P (stopped current (drain_cancelled queue) round.arrivals backends_busy)
        → (length queue ≡ 0 → P (stopped current queue round.arrivals queue_empty))
        → (call_in queue ≡ waiting → P (stopped current [] round.arrivals blocked))
        → ((r : Waiting F) (rest : List (Waiting F))
            → call_in queue ≡ got r rest
            → pos current <ℤ max
            → P (
                admit_first r round.arrivals (
                  try_dequeue config max rounds
                    (if r.abandoned then current else current + 1)
                    rest)))
        → P (try_dequeue config max (round ∷ rounds) inflight heap)
  unfolding try_dequeue
  turn P round rounds inflight heap limit busy empty block next =
      let current = inflight - round.released in
      let queue = heap ++ round.arrivals in
      let pass = try_dequeue config max (round ∷ rounds) inflight heap in
      elim (Bool-cases (ltb_ℤ (pos current) max)) [
        | inr full ↦
            let result : pass
                ≡ stopped current (drain_cancelled queue) round.arrivals inflight_limit =
              ground (arith, full) in
            subst P (sym result) (limit (ground (arith, full)))
        | inl room ↦ elim (Bool-cases round.backend_ok) [
          | inr full ↦
              let result : pass
                  ≡ stopped current (drain_cancelled queue) round.arrivals backends_busy =
                ground (arith, room, full) in
              subst P (sym result) busy
          | inl fine ↦ elim (Bool-cases (nat_beq (length queue) 0)) [
            | inl nothing ↦
                let result : pass ≡ stopped current queue round.arrivals queue_empty =
                  ground (arith, room, fine, nothing) in
                subst P (sym result) (empty (ground (arith, nothing)))
            | inr something ↦ elim (Popped-cases (call_in queue)) [
              | inl (r, rest, e) ↦
                  let result : pass
                      ≡ admit_first r round.arrivals (
                          try_dequeue config max rounds
                            (if r.abandoned then current else current + 1) rest) =
                    ground (arith, room, fine, something, e) in
                  subst P (sym result) (next r rest e (ground (arith, room)))
              | inr (inl e) ↦
                  let result : pass ≡ stopped current [] round.arrivals blocked =
                    ground (arith, room, fine, something, e) in
                  subst P (sym result) (block e)
              | inr (inr e) ↦ absurd (call-total queue e)
            ]
          ]
        ]
      ]
