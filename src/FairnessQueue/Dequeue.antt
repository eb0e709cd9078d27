-- ===== src/FairnessQueue/Dequeue.antt =====
-- popWhenAvailable of pkg/kthena-router/datastore/fairness_queue.go and the dequeue pass of
-- session_boost_queue.go. The heap is a list, of which a least entry is taken. The comparisons of
-- `float64` and the token tracker's answers are parameters.
pub mod Popping
pub mod Kept
use kthena.Common.{
  ℕ, zero, suc, ◌+◌, ◌-◌, ◌*◌, ◌≡◌, Bool, true, false, not, ◌&&◌, ◌||◌, Option, none, some, List,
  [], ◌∷◌, ◌++◌, ltb, leb, nat_beq, if◌then◌else◌, Text, length, select, map,
}
use kthena.FairnessQueue.{Item}

-- A waiting request, with what the loop meets: whether the request is cancelled when it is popped,
-- and whether its caller has abandoned it when it would be admitted.
pub record Waiting (F : Type 0) : Type 0 where
  pub item : Item F
  pub cancelled : Bool
  pub abandoned : Bool

-- `>` and `==` of `float64`. A number equal to another or above one is not NaN, so equals itself.
pub record Floats (F : Type 0) : Type 0 where
  pub gt : F → F → Bool
  pub eq : F → F → Bool
  pub eq_of_gt : (p q : F) → gt p q ≡ true → eq p p ≡ true
  pub eq_of_eq : (p q : F) → eq p q ≡ true → eq p p ≡ true

-- The outcome of a call of popWhenAvailable: a request and the heap that is left, a wait on an empty
-- heap, or fuel that ran out.
pub data Popped (F : Type 0) : Type 0 where
  got : Waiting F → List (Waiting F) → Popped F
  waiting : Popped F
  out_of_fuel : Popped F

-- What a popped request leads to: it is returned, or the loop goes on.
pub data Next (F : Type 0) : Type 0 where
  take_it : Waiting F → List (Waiting F) → Next F
  again : List (Waiting F) → ℕ → Next F

-- What the loops read of the queue. `new_priority` gives the answer of CalculateFairnessPriority for
-- a user, `none` for an error and where there is no tracker.
pub record Config (F : Type 0) : Type 0 where
  pub floats : Floats F
  pub less : Item F → Item F → Bool
  pub new_priority : Text → Option F
  pub max_priority_refresh_retries : ℕ
  pub rebuild_threshold : ℕ

abbrev pub with_priority : {F : Type 0} → Waiting F → F → Waiting F
with_priority r p = record r { item = record (r.item) { priority = p } }

module _ {F : Type 0} (config : Config F) where
  -- `heap.Pop`
  unfoldable pub pop : List (Waiting F) → Option (Waiting F × List (Waiting F))
  pop [] = none
  pop (r ∷ rs) = elim (pop rs) [
    | none ↦ some (r, [])
    | some (least, rest) ↦
        if config.less least.item r.item then some (least, r ∷ rest) else some (r, rs)
  ]

  unfoldable pub should_rebuild : List (Waiting F) → Bool
  should_rebuild heap =
      nat_beq config.rebuild_threshold 0 || leb (length heap) config.rebuild_threshold

  unfoldable pub refresh_one : Waiting F → Waiting F
  refresh_one r = elim (config.new_priority r.item.user_id) [
    | none ↦ r
    | some p ↦ with_priority r p
  ]

  unfoldable pub rebuild_heap : List (Waiting F) → List (Waiting F)
  rebuild_heap [] = []
  rebuild_heap (r ∷ rs) = refresh_one r ∷ rebuild_heap rs

  -- `heap.Push`, and the rebuild once the retries are used up.
  unfoldable pub push_back : Waiting F → List (Waiting F) → ℕ → Next F
  push_back r rest retries =
      let heap = rest ++ (r ∷ []) in
      if leb config.max_priority_refresh_retries (retries + 1)
      then again (if should_rebuild heap then rebuild_heap heap else heap) 0
      else again heap (retries + 1)

  unfoldable pub refreshed : Waiting F → List (Waiting F) → ℕ → F → Next F
  refreshed r rest retries p =
      if config.floats.eq p r.item.priority then take_it r rest else elim (pop rest) [
        | none ↦ take_it (with_priority r p) rest
        | some (root, _) ↦
            if config.floats.gt p root.item.priority
            then push_back (with_priority r p) rest retries
            else take_it (with_priority r p) rest
      ]

  unfoldable pub after_pop : Waiting F → List (Waiting F) → ℕ → Next F
  after_pop r rest retries =
      if r.cancelled
      then again rest retries
      else if nat_beq config.max_priority_refresh_retries 0
      then take_it r rest
      else elim (config.new_priority r.item.user_id) [
        | none ↦ take_it r rest
        | some p ↦ refreshed r rest retries p
      ]

  unfoldable pub pop_when_available : ℕ → List (Waiting F) → ℕ → Popped F
  pop_when_available zero heap retries = out_of_fuel
  pop_when_available (suc fuel) heap retries = elim (pop heap) [
    | none ↦ waiting
    | some (r, rest) ↦ elim (after_pop r rest retries) [
      | take_it r' rest' ↦ got r' rest'
      | again heap' retries' ↦ pop_when_available fuel heap' retries'
    ]
  ]
