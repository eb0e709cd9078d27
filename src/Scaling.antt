-- ===== src/Scaling.antt =====
-- pkg/model-serving-controller/controller: the replicas that a reconcile adds and removes. Here the
-- missing ordinals of model_serving_controller.go and the scores of binpack_scaledown.go; the
-- children have the scale up and the scale down.
pub mod Tests
pub mod Missing
pub mod Scores
pub mod Spec
pub mod Deleting
pub mod Down
pub mod Up
use kthena.Common.{
  ℕ, zero, suc, ◌+◌, ◌≡◌, Bool, true, false, not, ◌||◌, ◌&&◌, Option, none, some, List, [], ◌∷◌,
  ltb, leb, nat_beq, if◌then◌else◌, Text, text_eq, ◌==◌,
}
use kthena.Common.Int.{ℤ, pos, negsuc}

-- The set of the ordinals in range.
unfoldable pub in_range : ℕ → List ℤ → List ℕ
in_range expected_count [] = []
in_range expected_count (negsuc n ∷ ordinals) = in_range expected_count ordinals
in_range expected_count (pos n ∷ ordinals) =
    let rest = in_range expected_count ordinals in if ltb n expected_count then n ∷ rest else rest

unfoldable pub found : ℕ → List ℕ → Bool
found ordinal [] = false
found ordinal (n ∷ existing) = nat_beq n ordinal || found ordinal existing

module _ {S : Type 0} (handler : S → ℕ → S × Bool) (existing : List ℕ) (limit : ℕ) where
  -- The loop, with the rounds that are left. The handler changes the state `s` and says whether to
  -- go on.
  unfoldable pub visit : ℕ → ℕ → ℕ → S → S
  visit zero ordinal visited s = s
  visit (suc left) ordinal visited s =
      let skip = visit left (ordinal + 1) visited s in
      let next = visit left (ordinal + 1) (visited + 1) (handler s ordinal).0 in
      if not (ltb visited limit)
      then s
      else if found ordinal existing
      then skip
      else if not (handler s ordinal).1
      then (handler s ordinal).0
      else next

-- A limit that is not positive visits nothing, as the limit 0 does.
unfoldable pub for_each_missing_ordinal : {S : Type 0} → ℕ → List ℤ → ℕ → (S → ℕ → S × Bool) → S → S
for_each_missing_ordinal expected_count existing_ordinals limit handler s =
    visit handler (in_range expected_count existing_ordinals) limit expected_count 0 0 s
