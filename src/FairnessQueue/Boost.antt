-- ===== src/FairnessQueue/Boost.antt =====
-- pkg/kthena-router/datastore/session_boost_queue.go: a pass of tryBackpressureDequeue. What other
-- goroutines do meanwhile is a list of rounds: before each turn of the loop some requests are
-- released, some arrive, and the backend checker has its answer. A wait in popWhenAvailable ends the
-- pass here; what it is woken by is left out.
pub mod Passes
pub mod Endings
use kthena.Common.{
  ℕ, zero, suc, ◌+◌, ◌-◌, ◌≡◌, Bool, true, false, not, Option, none, some, List, [], ◌∷◌, ◌++◌,
  nat_beq, if◌then◌else◌, length, select,
}
use kthena.Common.Int.{ℤ, pos, ltb_ℤ, ◌*ℤ◌, wrap64}
use kthena.FairnessQueue.{Item, less_session_boost}
use kthena.FairnessQueue.Dequeue.{
  Waiting, Popped, got, waiting, out_of_fuel, Config, pop_when_available,
}

pub record Round (F : Type 0) : Type 0 where
  pub released : ℕ
  pub backend_ok : Bool
  pub arrivals : List (Waiting F)

-- Why a pass ends: the limit is reached, the backends are busy, the queue is empty, or the pass waits
-- in popWhenAvailable. `unfinished` is a pass that has no more rounds.
pub data Stop : Type 0 where
  inflight_limit backends_busy queue_empty blocked unfinished : Stop

pub record Pass (F : Type 0) : Type 0 where
  pub inflight : ℕ
  pub heap : List (Waiting F)
  pub admitted : List (Waiting F)
  pub arrived : List (Waiting F)
  pub stop : Stop

-- The limit of requests in flight: the limit per pod, or its default, times the number of pods.
unfoldable pub max_inflight : ℤ → Option ℤ → ℤ
max_inflight inflight_per_pod pod_counter =
    let per_pod = if ltb_ℤ (pos 0) inflight_per_pod then inflight_per_pod else pos 16 in
    elim pod_counter [
      | none ↦ per_pod
      | some pod_count ↦ if ltb_ℤ (pos 0) pod_count then wrap64 (pod_count *ℤ per_pod) else per_pod
    ]

-- The requests that are not cancelled.
unfoldable pub drain_cancelled : {F : Type 0} → List (Waiting F) → List (Waiting F)
drain_cancelled heap = select (λ r. not r.cancelled) heap

abbrev pub stopped : {F : Type 0} → ℕ → List (Waiting F) → List (Waiting F) → Stop → Pass F
stopped inflight heap arrived stop = record {
  inflight = inflight;
  heap = heap;
  admitted = [];
  arrived = arrived;
  stop = stop;
}

-- The pass after a request that was popped: it is admitted unless its caller has abandoned it.
abbrev pub admit_first : {F : Type 0} → Waiting F → List (Waiting F) → Pass F → Pass F
admit_first r arrived pass = record pass {
  admitted = if r.abandoned then pass.admitted else r ∷ pass.admitted;
  arrived = arrived ++ pass.arrived;
}

module _ {F : Type 0} (config : Config F) (max : ℤ) where
  unfoldable pub try_dequeue : List (Round F) → ℕ → List (Waiting F) → Pass F
  try_dequeue [] inflight heap = stopped inflight heap [] unfinished
  try_dequeue (round ∷ rounds) inflight heap =
      let current = inflight - round.released in
      let queue = heap ++ round.arrivals in
      if not (ltb_ℤ (pos current) max)
      then stopped current (drain_cancelled queue) round.arrivals inflight_limit
      else if not round.backend_ok
      then stopped current (drain_cancelled queue) round.arrivals backends_busy
      else if nat_beq (length queue) 0
      then stopped current queue round.arrivals queue_empty
      else elim (pop_when_available config (length queue + length queue + 1) queue 0) [
        | waiting ↦ stopped current [] round.arrivals blocked
        | out_of_fuel ↦ stopped current queue round.arrivals unfinished
        | got r rest ↦
            admit_first r round.arrivals
              (try_dequeue rounds (if r.abandoned then current else current + 1) rest)
      ]
