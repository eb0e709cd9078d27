-- ===== src/ModelRoutes/Uniform.antt =====
-- Which weights of targets are accepted: pkg/kthena-router/datastore/store.go
use kthena.Common.{
  ℕ, ◌≡◌, ◌≢◌, refl, true, false, none, some, List, [], ◌∷◌, arith, Option-cases, inl, inr, ◌⊎◌,
  All, Any, map,
}
use kthena.GroupStore.{get_or}
use kthena.ModelRoutes.{TargetModel, weights_of, to_weighted_slice, is_given}

abbrev pub Given : TargetModel → Type 0
Given target = (w : ℕ) × (target.weight ≡ some w)

abbrev pub Left : TargetModel → Type 0
Left target = target.weight ≡ none

-- There is a target, and all of the targets have a weight or none has.
abbrev pub Uniform : List TargetModel → Type 0
Uniform targets = (targets ≢ []) × (All Given targets ⊎ All Left targets)

-- There is no target, or some have a weight and some have not.
abbrev pub Mixed : List TargetModel → Type 0
Mixed targets = (targets ≡ []) ⊎ (Any Given targets × Any Left targets)

-- The share of a target, 1 where no weight is given.
abbrev pub shares : List TargetModel → List ℕ
shares targets = map (λ (t : TargetModel). get_or t.weight 1) targets

weights-Given :
    (targets : List TargetModel)
    → ((weights_of true targets ≡ none) × Any Left targets)
      ⊎ ((weights_of true targets ≡ some (shares targets)) × All Given targets)
unfolding weights_of
weights-Given [] = inr (refl, tt)
weights-Given (t ∷ ts) = elim (weights-Given ts) [
  | inl (bad, left) ↦ inl (ground (arith, bad), inr left)
  | inr (good, given) ↦ elim (Option-cases t.weight) [
    | inl here ↦ inl (ground (arith, good, here), inl here)
    | inr (w, here) ↦ inr (ground (arith, good, here), ((w, here), given))
  ]
]

weights-Left :
    (targets : List TargetModel)
    → ((weights_of false targets ≡ none) × Any Given targets)
      ⊎ ((weights_of false targets ≡ some (shares targets)) × All Left targets)
unfolding weights_of
weights-Left [] = inr (refl, tt)
weights-Left (t ∷ ts) = elim (weights-Left ts) [
  | inl (bad, given) ↦ inl (ground (arith, bad), inr given)
  | inr (good, left) ↦ elim (Option-cases t.weight) [
    | inr (w, here) ↦ inl (ground (arith, good, here), inl (w, here))
    | inl here ↦ inr (ground (arith, good, here), (here, left))
  ]
]

-- The weights are accepted, and are the shares, exactly when they are uniform.
pub slice-cases :
    (targets : List TargetModel)
    → ((to_weighted_slice targets ≡ none) × Mixed targets)
      ⊎ ((to_weighted_slice targets ≡ some (shares targets)) × Uniform targets)
unfolding to_weighted_slice is_given
slice-cases [] = inl (refl, inl refl)
slice-cases (t ∷ ts) = elim (Option-cases t.weight) [
  | inl here ↦ elim (weights-Left (t ∷ ts)) [
    | inl (bad, given) ↦ inl (ground (arith, here, bad), inr (given, inl here))
    | inr (good, left) ↦ inr (ground (arith, here, good), ((λ e. cc), inr left))
  ]
  | inr (w, here) ↦ elim (weights-Given (t ∷ ts)) [
    | inl (bad, left) ↦ inl (ground (arith, here, bad), inr (inl (w, here), left))
    | inr (good, given) ↦ inr (ground (arith, here, good), ((λ e. cc), inl given))
  ]
]
