-- ===== src/FairnessQueue.antt =====
-- pkg/kthena-router/datastore/fairness_queue.go: the order of the queue's requests, and their
-- admission against a semaphore. A priority is a `float64`, whose comparisons are parameters.
pub mod Tests
pub mod Less
pub mod Admission
pub mod Dequeue
pub mod Boost
use kthena.Common.{
  ℕ, suc, ◌<◌, ◌≡◌, Bool, true, false, not, List, [], ◌∷◌, ◌++◌, ◌==◌, ltb, nat_beq, if◌then◌else◌,
  Text, text_eq,
}

-- The fields of a Request that the order reads, with times in nanoseconds.
pub record Item (F : Type 0) : Type 0 where
  pub user_id : Text
  pub priority : F
  pub session_boost : Bool
  pub last_turn_completed_at : ℕ
  pub request_time : ℕ

abbrev bool_beq : Bool → Bool → Bool
bool_beq true b = b
bool_beq false b = not b

-- Less in session-boost mode
unfoldable pub less_session_boost : {F : Type 0} → Item F → Item F → Bool
less_session_boost a b =
    if not (bool_beq a.session_boost b.session_boost)
    then a.session_boost
    else if a.session_boost
    then if not (nat_beq a.last_turn_completed_at b.last_turn_completed_at)
      then ltb b.last_turn_completed_at a.last_turn_completed_at
      else ltb a.request_time b.request_time
    else ltb a.request_time b.request_time

-- Less between users
unfoldable pub less_fairness :
    {F : Type 0} → (F → F → Bool) → (F → F → Bool) → Item F → Item F → Bool
less_fairness priority_lt priority_eq a b =
    if a.user_id == b.user_id
    then ltb a.request_time b.request_time
    else if not (priority_eq a.priority b.priority)
    then priority_lt a.priority b.priority
    else ltb a.request_time b.request_time

-- Where a request is: in the heap, in the hands of the dequeue loop before and after it has a
-- permit, or through the loop.
pub data Stage : Type 0 where
  queued popped permitted finished : Stage

-- The fields of a Request that admission and abandonment share. `released` is the state of its
-- `releaseOnce`.
pub record Request : Type 0 where
  pub stage : Stage
  pub admitted : Bool
  pub abandoned : Bool
  pub released : Bool

unfoldable pub new_request : Request
new_request = record { stage = queued; admitted = false; abandoned = false; released = false }

abbrev pub at_stage : Stage → Request → Request
at_stage stage r = record r { stage = stage }

-- The request after the call, and whether it is admitted.
unfoldable pub commit_admission : Request → Request × Bool
commit_admission r = if r.abandoned then (r, false) else (record r { admitted = true }, true)

-- The request after the critical section, and whether the caller goes on to call Release.
unfoldable pub abandon : Request → Request × Bool
abandon r = if not r.admitted then (record r { abandoned = true }, false) else (r, true)

-- `releaseOnce.Do`: the request, and whether a permit is taken out of the semaphore.
unfoldable pub release : Request → Request × Bool
release r = if r.released then (r, false) else (record r { released = true }, true)

-- The permits in the semaphore's channel, and the requests.
pub record QueueState : Type 0 where
  pub sem : ℕ
  pub requests : List Request

abbrev pub state : ℕ → List Request → QueueState
state sem requests = record { sem = sem; requests = requests }

-- The atomic steps of the dequeue loop (runSemaphoreMode) and of the callers, in any order. A send
-- into the semaphore waits for room, and a receive waits for a permit. A request that is cancelled,
-- has no channel or meets a closed queue is dropped.
pub data Step (max_concurrent : ℕ) : QueueState → QueueState → Type 0 where
  push :
      (sem : ℕ) (rs : List Request)
      → Step max_concurrent (state sem rs) (state sem (rs ++ (new_request ∷ [])))
  pop :
      (sem : ℕ) (xs ys : List Request) (r : Request)
      → r.stage ≡ queued
      → Step max_concurrent
          (state sem (xs ++ (r ∷ ys)))
          (state sem (xs ++ (at_stage popped r ∷ ys)))
  drop_cancelled :
      (sem : ℕ) (xs ys : List Request) (r : Request)
      → r.stage ≡ popped
      → Step max_concurrent
          (state sem (xs ++ (r ∷ ys)))
          (state sem (xs ++ (at_stage finished r ∷ ys)))
  requeue :
      (sem : ℕ) (xs ys : List Request) (r : Request)
      → r.stage ≡ popped
      → Step max_concurrent
          (state sem (xs ++ (r ∷ ys)))
          (state sem (xs ++ (at_stage queued r ∷ ys)))
  acquire :
      (sem : ℕ) (xs ys : List Request) (r : Request)
      → r.stage ≡ popped
      → sem < max_concurrent
      → Step max_concurrent
          (state sem (xs ++ (r ∷ ys)))
          (state (suc sem) (xs ++ (at_stage permitted r ∷ ys)))
  admit :
      (sem : ℕ) (xs ys : List Request) (r : Request)
      → r.stage ≡ permitted
      → (commit_admission r).1 ≡ true
      → Step max_concurrent
          (state sem (xs ++ (r ∷ ys)))
          (state sem (xs ++ (at_stage finished (commit_admission r).0 ∷ ys)))
  refuse :
      (sem : ℕ) (xs ys : List Request) (r : Request)
      → r.stage ≡ permitted
      → (commit_admission r).1 ≡ false
      → Step max_concurrent
          (state (suc sem) (xs ++ (r ∷ ys)))
          (state sem (xs ++ (at_stage finished (commit_admission r).0 ∷ ys)))
  give_up :
      (sem : ℕ) (xs ys : List Request) (r : Request)
      → Step max_concurrent (state sem (xs ++ (r ∷ ys))) (state sem (xs ++ ((abandon r).0 ∷ ys)))
  release_permit :
      (sem : ℕ) (xs ys : List Request) (r : Request)
      → r.admitted ≡ true
      → (release r).1 ≡ true
      → Step max_concurrent
          (state (suc sem) (xs ++ (r ∷ ys)))
          (state sem (xs ++ ((release r).0 ∷ ys)))
  release_again :
      (sem : ℕ) (xs ys : List Request) (r : Request)
      → r.admitted ≡ true
      → (release r).1 ≡ false
      → Step max_concurrent (state sem (xs ++ (r ∷ ys))) (state sem (xs ++ ((release r).0 ∷ ys)))

-- The states that the steps lead to from the empty queue.
pub data Reachable (max_concurrent : ℕ) : QueueState → Type 0 where
  start : Reachable max_concurrent (state 0 [])
  next :
      (s t : QueueState)
      → Reachable max_concurrent s
      → Step max_concurrent s t
      → Reachable max_concurrent t
