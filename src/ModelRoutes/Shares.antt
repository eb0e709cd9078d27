-- ===== src/ModelRoutes/Shares.antt =====
-- The share of a target: pkg/kthena-router/datastore/store.go
use kthena.Common.{
  ℕ, zero, suc, ◌+◌, ◌-◌, ◌≤◌, ◌<◌, ◌≡◌, refl, Bool, none, some, List, [], ◌∷◌, nat_beq, ltb,
  text_eq, length, take, arith, Bool-cases, Option-cases, inl, inr, ◌⊎◌,
}
use kthena.ModelRoutes.Uniform.{Mixed, Uniform, shares, slice-cases}
use kthena.ModelRoutes.{
  TargetModel, weights_of, to_weighted_slice, total_weight, scan_weights,
  select_from_weighted_slice, nth, select_destination,
}

-- The number falls to the place `i` of the weights: behind those before it and not behind its own.
abbrev pub FallsTo : List ℕ → ℕ → ℕ → Type 0
FallsTo weights random i =
    (total_weight (take i weights) ≤ random) × (random < total_weight (take (suc i) weights))

scan-FallsTo :
    (weights : List ℕ) (i random : ℕ)
    → random < total_weight weights
    → (j : ℕ) × (scan_weights i random weights ≡ i + j)
      × (j < length weights)
      × FallsTo weights random j
unfolding scan_weights total_weight
scan-FallsTo [] i random h = absurd (omega arith)
scan-FallsTo (w ∷ ws) i random h = elim (Bool-cases (ltb random w)) [
  | inl here ↦ (0, ground (arith, here), omega arith, (omega arith, ground (arith, here)))
  | inr later ↦
      let (j, found, inside, falls) =
        scan-FallsTo ws (i + 1) (random - w) (ground (arith, later)) in
      (
        suc j,
        ground (arith, later, found),
        omega (arith, inside),
        (ground (arith, later, falls.0), ground (arith, later, falls.1)),
      )
]

length-weights_of :
    (weighted : Bool) (targets : List TargetModel) (ws : List ℕ)
    → weights_of weighted targets ≡ some ws
    → length ws ≡ length targets
unfolding weights_of
length-weights_of weighted [] ws e = ground (arith, e)
length-weights_of weighted (target ∷ targets) ws e =
    elim (Option-cases (weights_of weighted targets)) [
      | inl bad ↦ ground (arith, e, bad)
      | inr (rest, good) ↦ ground (arith, e, good, length-weights_of weighted targets rest good)
    ]

length-to_weighted_slice :
    (targets : List TargetModel) (ws : List ℕ)
    → to_weighted_slice targets ≡ some ws
    → length ws ≡ length targets
unfolding to_weighted_slice
length-to_weighted_slice [] ws e = cc
length-to_weighted_slice (target ∷ targets) ws e = length-weights_of _ (target ∷ targets) ws e

nth-some : {A : Type 0} (xs : List A) (i : ℕ) → i < length xs → (x : A) × (nth xs i ≡ some x)
unfolding nth
nth-some [] i h = absurd (omega arith)
nth-some (x ∷ xs) zero h = (x, refl)
nth-some (x ∷ xs) (suc i) h = nth-some xs i (omega arith)

-- With random numbers below their bound: a choice fails exactly when there is no target, only some
-- targets have a weight, or the shares sum to zero. Otherwise all targets have a weight or none has, the
-- shares are the weights or 1 each, and the choice is the target that the number falls to: the shares
-- before it sum to at most the number, and with its own to more.
pub select_destination_lem :
    (random : ℕ → ℕ) (targets : List TargetModel)
    → ((n : ℕ) → 0 < n → random n < n)
    → (Mixed targets × (select_destination random targets ≡ none))
      ⊎ (Uniform targets
          × (((total_weight (shares targets) ≡ 0) × (select_destination random targets ≡ none))
              ⊎ ((i : ℕ) × (target : TargetModel) × (select_destination random targets
                    ≡ some target)
                  × (nth targets i ≡ some target)
                  × FallsTo (shares targets) (random (total_weight (shares targets))) i)))
unfolding select_destination select_from_weighted_slice
select_destination_lem random targets below = elim (slice-cases targets) [
  | inl (bad, mixed) ↦ inl (mixed, ground (arith, bad))
  | inr (good, uniform) ↦
      let ws = shares targets in
      inr (
        uniform,
        elim (Bool-cases (nat_beq (total_weight ws) 0)) [
          | inl empty ↦ inl (ground (arith, empty), ground (arith, good, empty))
          | inr some' ↦
              let (i, found, inside, falls) =
                scan-FallsTo ws 0 (random (total_weight ws))
                  (below (total_weight ws) (ground (arith, some'))) in
              let (target, there) =
                nth-some targets i
                  (omega (arith, inside, length-to_weighted_slice targets ws good)) in
              let index : scan_weights 0 (random (total_weight ws)) ws ≡ i = omega (arith, found) in
              inr (i, target, ground (arith, good, some', index, there), there, falls)
        ],
      )
]
