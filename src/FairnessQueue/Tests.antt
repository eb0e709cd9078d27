-- ===== src/FairnessQueue/Tests.antt =====
-- Concrete requests: pkg/kthena-router/datastore/fairness_queue.go
use kthena.Common.{
  ℕ, ◌≡◌, ◌≢◌, ◌⊎◌, Bool, List, All, some, refl, [], ◌∷◌, ◌++◌, Text, codes, arith, ap, true, false,
  text_beq, ltb, nat_beq,
}
use kthena.FairnessQueue.{
  Item, less_session_boost, less_fairness, new_request, at_stage, popped, permitted, QueueState,
  state, Reachable, start, next, push, pop, acquire,
}
use kthena.FairnessQueue.Dequeue.{Waiting, Floats, out_of_fuel, Config, pop_when_available}
use kthena.FairnessQueue.Dequeue.Popping.{pop_when_available-total}
use kthena.FairnessQueue.Boost.{Round, try_dequeue}
use kthena.FairnessQueue.Boost.Endings.{IsLive, Accounts, try_dequeue_lem}
use kthena.Common.Int.{pos, ◌≤ℤ◌}
use kthena.FairnessQueue.Less.{session_boost_order, fairness_cycle}
use kthena.FairnessQueue.Admission.{IsValid, admission_lem}

abbrev item : Text → ℕ → ℕ → Item ℕ
item user priority time = record {
  user_id = user;
  priority = priority;
  session_boost = true;
  last_turn_completed_at = priority;
  request_time = time;
}

abbrev a : Item ℕ
a = item (codes "u") 9 1

abbrev b : Item ℕ
b = item (codes "u") 1 2

abbrev c : Item ℕ
c = item (codes "v") 5 3

other-user : codes "u" ≢ codes "v"
other-user e = cc (ap (λ t. text_beq t (codes "u")) e)

session_boost_order_example :
    (less_session_boost a a ≡ false)
    × (less_session_boost a b ≡ true
        → less_session_boost b c ≡ true
        → less_session_boost a c ≡ true)
    × (less_session_boost a b ≡ false
        → less_session_boost b c ≡ false
        → less_session_boost a c ≡ false)
session_boost_order_example = session_boost_order a b c

fairness_cycle_example :
    (less_fairness ltb nat_beq a b ≡ true)
    × (less_fairness ltb nat_beq b c ≡ true)
    × (less_fairness ltb nat_beq c a ≡ true)
fairness_cycle_example =
    fairness_cycle ltb nat_beq a b c refl other-user (omega arith) refl refl refl refl

abbrev queued_one : QueueState
queued_one = state 0 ([] ++ (new_request ∷ []))

abbrev holding : QueueState
holding = state 1 (at_stage permitted (at_stage popped new_request) ∷ [])

reachable-holding : Reachable 1 holding
unfolding new_request
reachable-holding =
    next _ holding
      (next _ (state 0 (at_stage popped new_request ∷ []))
        (next (state 0 []) queued_one start (push 0 [])) (pop 0 [] [] new_request refl))
      (acquire 0 [] [] (at_stage popped new_request) refl (omega arith))

admission_lem_example : IsValid 1 holding
admission_lem_example = admission_lem 1 holding reachable-holding

eq_of_above : (p q : ℕ) → ltb q p ≡ true → nat_beq p p ≡ true
eq_of_above p q h = ground arith

eq_of_same : (p q : ℕ) → nat_beq p q ≡ true → nat_beq p p ≡ true
eq_of_same p q h = ground arith

floats : Floats ℕ
floats = record { gt = λ p q. ltb q p; eq = nat_beq; eq_of_gt = eq_of_above; eq_of_eq = eq_of_same }

abbrev config : Config ℕ
config = record {
  floats = floats;
  less = less_session_boost;
  new_priority = λ user. some 7;
  max_priority_refresh_retries = 2;
  rebuild_threshold = 0;
}

abbrev waits : Bool → Item ℕ → Waiting ℕ
waits cancelled item = record { item = item; cancelled = cancelled; abandoned = false }

abbrev rounds : List (Round ℕ)
rounds =
    record { released = 1; backend_ok = true; arrivals = waits false c ∷ [] }
    ∷ record { released = 0; backend_ok = true; arrivals = [] }
    ∷ record { released = 0; backend_ok = true; arrivals = [] }
    ∷ record { released = 0; backend_ok = true; arrivals = [] }
    ∷ []

abbrev heap : List (Waiting ℕ)
heap = waits true a ∷ waits false b ∷ []

pop_when_available-total_example : pop_when_available config 5 heap 0 ≢ out_of_fuel
unfolding floats
pop_when_available-total_example = pop_when_available-total config 5 heap 0 (omega arith)

try_dequeue_lem_example :
    (((try_dequeue config (pos 2) rounds 1 heap).admitted ≡ [])
      ⊎ (pos (try_dequeue config (pos 2) rounds 1 heap).inflight ≤ℤ pos 2))
    × All IsLive (try_dequeue config (pos 2) rounds 1 heap).admitted
    × Accounts heap (try_dequeue config (pos 2) rounds 1 heap)
try_dequeue_lem_example = try_dequeue_lem config (pos 2) rounds 1 heap
