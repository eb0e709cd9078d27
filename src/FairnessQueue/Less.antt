-- ===== src/FairnessQueue/Less.antt =====
-- The order of the queue's requests: pkg/kthena-router/datastore/fairness_queue.go
use kthena.Common.{◌<◌, ◌≡◌, ◌≢◌, Bool, true, false, text_eq, text_beq_iff, arith}
use kthena.FairnessQueue.{Item, less_session_boost, less_fairness}

module _ {F : Type 0} where
  -- The order of session-boost mode is a strict weak order, which the heap needs: no request is
  -- before itself, the order is transitive, and so is being before neither way.
  pub session_boost_order :
      (a b c : Item F)
      → (less_session_boost a a ≡ false)
        × (less_session_boost a b ≡ true
            → less_session_boost b c ≡ true
            → less_session_boost a c ≡ true)
        × (less_session_boost a b ≡ false
            → less_session_boost b c ≡ false
            → less_session_boost a c ≡ false)
  unfolding less_session_boost
  session_boost_order a b c = (ground arith, λ h k. ground arith, λ h k. ground arith)

  -- The order between users goes around in a circle where two requests of one user have
  -- priorities on both sides of another user's: the earlier of the two is before the later, the
  -- later before the other user's, and that before the earlier.
  pub fairness_cycle :
      (priority_lt priority_eq : F → F → Bool) (a b c : Item F)
      → a.user_id ≡ b.user_id
      → a.user_id ≢ c.user_id
      → a.request_time < b.request_time
      → priority_lt b.priority c.priority ≡ true
      → priority_eq b.priority c.priority ≡ false
      → priority_lt c.priority a.priority ≡ true
      → priority_eq c.priority a.priority ≡ false
      → (less_fairness priority_lt priority_eq a b ≡ true)
        × (less_fairness priority_lt priority_eq b c ≡ true)
        × (less_fairness priority_lt priority_eq c a ≡ true)
  unfolding less_fairness
  fairness_cycle lt eq a b c same other earlier bc bc' ca ca' = (
    ground (arith, text_beq_iff a.user_id b.user_id),
    ground (arith, text_beq_iff b.user_id c.user_id),
    ground (arith, text_beq_iff c.user_id a.user_id),
  )
