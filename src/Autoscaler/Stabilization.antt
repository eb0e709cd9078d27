-- ===== src/Autoscaler/Stabilization.antt =====
-- The stabilization windows of the correction: pkg/autoscaler/algorithm/revision.go, over
-- pkg/autoscaler/datastructure/sliding_window.go
use kthena.Common.{ℕ, ◌<◌, ◌≡◌, sym, true, false, Option, none, some, arith, All, All-map, List}
use kthena.Common.Int.{
  ℤ, ◌≤ℤ◌, ◌<ℤ◌, min_ℤ, max_ℤ, min_le_left, min_le_right, le_max_left, le_max_right,
}
use kthena.SlidingWindow.{
  SnapshotRecord, is_fresh, better_maximum, better_minimum, new_maximum_record, new_minimum_record,
  get_best_record, get_best_line_chart,
}
use kthena.SlidingWindow.Record.{BestOf}
use kthena.SlidingWindow.Runs.{Call, run, samples, Ascending, get_best_lem}
use kthena.Autoscaler.{
  CorrectedInstances, corrected_for_stable_scale_down, corrected_for_stable_scale_up,
  get_corrected_instances, with_sample, scale_down_bound, scale_up_bound,
}
use kthena.Autoscaler.Bounds.{clamp, result-stable, stable-down, stable-up}
use mathlib.Core.Path.{subst}

abbrev pub FreshAll : ℕ → ℕ → (ℤ → Type 0) → List SnapshotRecord → Type 0
FreshAll fresh now P h = All (λ x. is_fresh fresh now x.timestamp ≡ true → P x.value) h

-- The greatest fresh value is at least every fresh value.
max-above :
    (fresh now : ℕ) (h : List SnapshotRecord) (best : Option ℤ) (r : ℤ)
    → BestOf better_maximum fresh now h best
    → FreshAll fresh now (λ v. v ≤ℤ with_sample best max_ℤ r) h
unfolding with_sample
max-above fresh now h none r b = All-map h (λ x stale f. cc (stale, f)) b
max-above fresh now h (some v) r b =
    All-map h
      (λ x c f. let le : x.value ≤ℤ v = ground (arith, c f) in omega (arith, le_max_right r v)) b.1

min-below :
    (fresh now : ℕ) (h : List SnapshotRecord) (best : Option ℤ) (r : ℤ)
    → BestOf better_minimum fresh now h best
    → FreshAll fresh now (λ v. with_sample best min_ℤ r ≤ℤ v) h
unfolding with_sample
min-below fresh now h none r b = All-map h (λ x stale f. cc (stale, f)) b
min-below fresh now h (some v) r b =
    All-map h
      (λ x c f. let le : v ≤ℤ x.value = ground (arith, c f) in omega (arith, min_le_right r v)) b.1

-- The bound of the policy only raises (lowers) the value.
le-with_max : (past : Option ℤ) (g : ℤ → ℤ) (c : ℤ) → c ≤ℤ with_sample past (λ c p. max_ℤ c (g p)) c
unfolding with_sample
le-with_max none g c = omega arith
le-with_max (some p) g c = le_max_left c (g p)

with_min-le : (past : Option ℤ) (g : ℤ → ℤ) (c : ℤ) → with_sample past (λ c p. min_ℤ c (g p)) c ≤ℤ c
unfolding with_sample
with_min-le none g c = omega arith
with_min-le (some p) g c = min_le_left c (g p)

min_mono : (a b c : ℤ) → a ≤ℤ b → min_ℤ a c ≤ℤ min_ℤ b c
unfolding min_ℤ
min_mono a b c h = ground arith

max_mono : (a b c : ℤ) → a ≤ℤ b → max_ℤ a c ≤ℤ max_ℤ b c
unfolding max_ℤ
max_mono a b c h = ground arith

le_trans : (a b c : ℤ) → a ≤ℤ b → b ≤ℤ c → a ≤ℤ c
le_trans a b c h k = omega (arith, h, k)

-- The configured range does not cut what is bounded by the current number.
le-clamp-capped :
    (lo hi c v x : ℤ) → lo ≤ℤ c → c ≤ℤ hi → min_ℤ v c ≤ℤ x → min_ℤ v c ≤ℤ clamp lo hi x
unfolding min_ℤ max_ℤ
le-clamp-capped lo hi c v x h k l = ground arith

clamp-le-floored :
    (lo hi c v x : ℤ) → lo ≤ℤ c → c ≤ℤ hi → x ≤ℤ max_ℤ v c → clamp lo hi x ≤ℤ max_ℤ v c
unfolding min_ℤ max_ℤ
clamp-le-floored lo hi c v x h k l = ground arith

-- What a call of GetBest leaves in the two branches.
down-above-better :
    (alg : CorrectedInstances) (now : ℕ) (v : ℤ)
    → v
      ≤ℤ with_sample
          (get_best_record alg.history.max_recommendation now).1
          max_ℤ
          alg.recommended_instances
    → min_ℤ v alg.current_instances ≤ℤ (corrected_for_stable_scale_down alg now).1
unfolding corrected_for_stable_scale_down
down-above-better alg now v h =
    let past = (get_best_line_chart alg.history.max_corrected now alg.current_instances).1 in
    let better =
      with_sample (get_best_record alg.history.max_recommendation now).1 max_ℤ
        alg.recommended_instances in
    min_mono v _ alg.current_instances (
      le_trans v better _ h
        (le-with_max past (λ p. scale_down_bound alg.behavior.scale_down p) better))

up-below-better :
    (alg : CorrectedInstances) (now : ℕ) (v : ℤ)
    → with_sample
        (get_best_record alg.history.min_recommendation now).1
        min_ℤ
        alg.recommended_instances
      ≤ℤ v
    → (corrected_for_stable_scale_up alg now).1 ≤ℤ max_ℤ v alg.current_instances
unfolding corrected_for_stable_scale_up
up-below-better alg now v h =
    let past =
      (get_best_line_chart alg.history.min_corrected_for_stable now alg.current_instances).1 in
    let better =
      with_sample (get_best_record alg.history.min_recommendation now).1 min_ℤ
        alg.recommended_instances in
    max_mono _ v alg.current_instances (
      le_trans _ better v
        (with_min-le past (λ p. scale_up_bound alg.behavior.scale_up_stable p) better) h)

module _ (float_percent : ℤ → ℤ → ℤ) (alg : CorrectedInstances) (fresh : ℕ) (calls : List Call)
    (now : ℕ) (positive : 0 < fresh) (ascending : Ascending 0 calls now)
    (stable : alg.is_panic ≡ false) (above : alg.min_instances ≤ℤ alg.current_instances)
    (below : alg.current_instances ≤ℤ alg.max_instances) where
  abbrev corrected : ℤ
  corrected = (get_corrected_instances float_percent alg now).1

  -- Outside panic mode, a scale down never goes below a recommendation that was appended to the
  -- scale-down window and is still inside its duration, except that it stays at or below the
  -- current number.
  pub scale_down_stabilized :
      alg.recommended_instances <ℤ alg.current_instances
      → alg.history.max_recommendation ≡ run (new_maximum_record fresh) calls
      → FreshAll fresh now (λ v. min_ℤ v alg.current_instances ≤ℤ corrected) (samples calls)
  scale_down_stabilized lt e =
      rw (result-stable float_percent alg now stable, stable-down float_percent alg now lt)
        (All-map (samples calls)
          (λ x f fresh_x.
            le-clamp-capped lo hi cur x.value _ above below
              (down-above-better alg now x.value (f fresh_x)))
          (max-above fresh now (samples calls) _ alg.recommended_instances (
            subst (λ w. BestOf better_maximum fresh now (samples calls) (get_best_record w now).1)
              (sym e) (get_best_lem fresh calls now positive ascending).0)))
    where
      open alg use {min_instances as lo, max_instances as hi, current_instances as cur}

  -- Outside panic mode, a scale up never goes above a recommendation that was appended to the
  -- scale-up window and is still inside its duration, except that it stays at or above the
  -- current number.
  pub scale_up_stabilized :
      alg.current_instances <ℤ alg.recommended_instances
      → alg.history.min_recommendation ≡ run (new_minimum_record fresh) calls
      → FreshAll fresh now (λ v. corrected ≤ℤ max_ℤ v alg.current_instances) (samples calls)
  scale_up_stabilized lt e =
      rw (result-stable float_percent alg now stable, stable-up float_percent alg now lt)
        (All-map (samples calls)
          (λ x f fresh_x.
            clamp-le-floored lo hi cur x.value _ above below
              (up-below-better alg now x.value (f fresh_x)))
          (min-below fresh now (samples calls) _ alg.recommended_instances (
            subst (λ w. BestOf better_minimum fresh now (samples calls) (get_best_record w now).1)
              (sym e) (get_best_lem fresh calls now positive ascending).1)))
    where
      open alg use {min_instances as lo, max_instances as hi, current_instances as cur}
