-- ===== src/Autoscaler/Bounds.antt =====
-- The range and the direction of the correction: pkg/autoscaler/algorithm/revision.go
use kthena.Common.{ℕ, ◌≡◌, true, false, arith}
use kthena.Common.Int.{ℤ, ◌≤ℤ◌, ◌<ℤ◌, ltb_ℤ, min_ℤ, max_ℤ, min_le_right, le_max_right}
use kthena.Autoscaler.{
  CorrectedInstances, corrected_for_stable_scale_down, corrected_for_stable_scale_up,
  corrected_for_stable, corrected_for_panic, get_corrected_instances,
}

-- The last step of GetCorrectedInstances.
abbrev pub clamp : ℤ → ℤ → ℤ → ℤ
clamp lo hi x = min_ℤ (max_ℤ x lo) hi

pub clamp_mono : (lo hi a b : ℤ) → a ≤ℤ b → clamp lo hi a ≤ℤ clamp lo hi b
unfolding min_ℤ max_ℤ
clamp_mono lo hi a b h = ground arith

pub clamp_inside : (lo hi a : ℤ) → lo ≤ℤ a → a ≤ℤ hi → clamp lo hi a ≡ a
unfolding min_ℤ max_ℤ
clamp_inside lo hi a h k = ground arith

pub le-clamp : (lo hi c x : ℤ) → lo ≤ℤ c → c ≤ℤ hi → c ≤ℤ x → c ≤ℤ clamp lo hi x
unfolding min_ℤ max_ℤ
le-clamp lo hi c x h k l = ground arith

pub clamp-le : (lo hi c x : ℤ) → lo ≤ℤ c → c ≤ℤ hi → x ≤ℤ c → clamp lo hi x ≤ℤ c
unfolding min_ℤ max_ℤ
clamp-le lo hi c x h k l = ground arith

pub clamp_bounds : (lo hi a : ℤ) → lo ≤ℤ hi → (lo ≤ℤ clamp lo hi a) × (clamp lo hi a ≤ℤ hi)
unfolding min_ℤ max_ℤ
clamp_bounds lo hi a h = (ground arith, ground arith)

pub eq_of_not_lt : (a b : ℤ) → ltb_ℤ a b ≡ false → ltb_ℤ b a ≡ false → a ≡ b
eq_of_not_lt a b h k = ground arith

module _ (float_percent : ℤ → ℤ → ℤ) (alg : CorrectedInstances) (now : ℕ) where
  pub scale_down-le-current : (corrected_for_stable_scale_down alg now).1 ≤ℤ alg.current_instances
  unfolding corrected_for_stable_scale_down
  scale_down-le-current = min_le_right _ alg.current_instances

  pub current-le-scale_up : alg.current_instances ≤ℤ (corrected_for_stable_scale_up alg now).1
  unfolding corrected_for_stable_scale_up
  current-le-scale_up = le_max_right _ alg.current_instances

  pub current-le-panic : alg.current_instances ≤ℤ (corrected_for_panic float_percent alg now).1
  unfolding corrected_for_panic
  current-le-panic = le_max_right _ alg.current_instances

  abbrev result : ℤ
  result = (get_corrected_instances float_percent alg now).1

  abbrev in_range : ℤ → ℤ
  in_range = clamp alg.min_instances alg.max_instances

  result-panic :
      alg.is_panic ≡ true → result ≡ in_range (corrected_for_panic float_percent alg now).1
  unfolding get_corrected_instances
  result-panic h = ground arith

  pub result-stable : alg.is_panic ≡ false → result ≡ in_range (corrected_for_stable alg now).1
  unfolding get_corrected_instances
  result-stable h = ground arith

  pub stable-down :
      alg.recommended_instances <ℤ alg.current_instances
      → corrected_for_stable alg now ≡ corrected_for_stable_scale_down alg now
  unfolding corrected_for_stable
  stable-down h = ground arith

  pub stable-up :
      alg.current_instances <ℤ alg.recommended_instances
      → corrected_for_stable alg now ≡ corrected_for_stable_scale_up alg now
  unfolding corrected_for_stable
  stable-up h = ground arith

  stable-same :
      alg.current_instances ≡ alg.recommended_instances
      → (corrected_for_stable alg now).1 ≡ alg.current_instances
  unfolding corrected_for_stable
  stable-same h = ground arith

  result-range :
      alg.min_instances ≤ℤ alg.current_instances
      → alg.current_instances ≤ℤ alg.max_instances
      → (alg.min_instances ≤ℤ result) × (result ≤ℤ alg.max_instances)
  unfolding get_corrected_instances
  result-range h k = clamp_bounds alg.min_instances alg.max_instances _ (omega (arith, h, k))

  -- The direction of the correction, by the mode and the recommendation.
  abbrev pub Directed : Type 0
  Directed =
      (alg.is_panic ≡ true → alg.current_instances ≤ℤ result)
      × (alg.is_panic ≡ false
          → alg.recommended_instances <ℤ alg.current_instances
          → result ≤ℤ alg.current_instances)
      × (alg.is_panic ≡ false
          → alg.current_instances <ℤ alg.recommended_instances
          → alg.current_instances ≤ℤ result)
      × (alg.is_panic ≡ false
          → alg.current_instances ≡ alg.recommended_instances
          → result ≡ alg.current_instances)

  -- With the current number inside the configured range, the corrected number is inside it too. In
  -- panic mode it is never below the current number. Otherwise a lower recommendation never
  -- raises it above the current number, a higher one never lowers it below, and an equal one
  -- leaves the current number.
  pub get_corrected_lem :
      alg.min_instances ≤ℤ alg.current_instances
      → alg.current_instances ≤ℤ alg.max_instances
      → (alg.min_instances ≤ℤ result) × (result ≤ℤ alg.max_instances) × Directed
  get_corrected_lem h k = (
    (result-range h k).0,
    (result-range h k).1,
    (
      λ panic. rw (result-panic panic) (le-clamp lo hi cur _ h k current-le-panic),
      λ stable lt.
          rw (result-stable stable, stable-down lt)
            (clamp-le lo hi cur _ h k scale_down-le-current),
      λ stable lt.
          rw (result-stable stable, stable-up lt) (le-clamp lo hi cur _ h k current-le-scale_up),
      λ stable same. rw (result-stable stable, stable-same same) (clamp_inside lo hi cur h k),
    ),
  )
    where
      open alg use {min_instances as lo, max_instances as hi, current_instances as cur}
