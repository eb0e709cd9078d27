-- ===== src/Autoscaler.antt =====
-- pkg/autoscaler: the correction of a recommended number of instances, with its history.
-- algorithm/revision.go, autoscaler/status.go and the policy types of
-- pkg/apis/workload/v1alpha1/autoscalingpolicy_types.go. Counts are `int32` values, so each sum and
-- product wraps. A window's GetBest pops what has expired, so the history is part of the result.
pub mod Tests
pub mod Bounds
pub mod Stabilization
use kthena.Common.{
  ℕ, ◌+◌, Bool, true, false, Option, none, some, ltb, leb, nat_beq, ◌&&◌, if◌then◌else◌,
}
use kthena.Common.Int.{
  ℤ, pos, ◌+ℤ◌, ◌-ℤ◌, ◌*ℤ◌, ltb_ℤ, min_ℤ, max_ℤ, quot_ℤ, wrap32, min_int32, max_int32,
}
use kthena.SlidingWindow.{
  RecordWindow, LineChartWindow, new_maximum_record, new_minimum_record, append_record,
  get_best_record, new_maximum_line_chart, new_minimum_line_chart, append_line_chart,
  get_best_line_chart,
}

-- SelectPolicyType: a string, of which two values have a meaning.
pub data SelectPolicy : Type 0 where
  or_policy and_policy other : SelectPolicy

-- AutoscalingPolicyStablePolicy, with its durations in milliseconds. The pointers to numbers are
-- taken as set, as the defaults of the API make them.
pub record StablePolicy : Type 0 where
  pub instances : ℤ
  pub percent : ℤ
  pub period : ℕ
  pub select_policy : SelectPolicy
  pub stabilization_window : ℕ

pub record PanicPolicy : Type 0 where
  pub percent : ℤ
  pub period : ℕ
  pub panic_mode_hold : ℕ

-- AutoscalingPolicyBehavior
pub record Behavior : Type 0 where
  pub scale_up_stable : StablePolicy
  pub scale_up_panic : PanicPolicy
  pub scale_down : StablePolicy

pub record History : Type 0 where
  pub max_recommendation : RecordWindow
  pub min_recommendation : RecordWindow
  pub max_corrected : LineChartWindow
  pub min_corrected_for_stable : LineChartWindow
  pub min_corrected_for_panic : LineChartWindow

pub record CorrectedInstances : Type 0 where
  pub is_panic : Bool
  pub history : History
  pub behavior : Behavior
  pub min_instances : ℤ
  pub max_instances : ℤ
  pub current_instances : ℤ
  pub recommended_instances : ℤ

-- The switch on the scale-down policy: the larger change is the smaller bound.
unfoldable pub scale_down_constraint : SelectPolicy → ℤ → ℤ → ℤ
scale_down_constraint or_policy absolute relative = min_ℤ absolute relative
scale_down_constraint and_policy absolute relative = max_ℤ absolute relative
scale_down_constraint other absolute relative = min_int32

unfoldable pub scale_up_constraint : SelectPolicy → ℤ → ℤ → ℤ
scale_up_constraint or_policy absolute relative = max_ℤ absolute relative
scale_up_constraint and_policy absolute relative = min_ℤ absolute relative
scale_up_constraint other absolute relative = max_int32

-- `x * percent / 100` in `int32`.
unfoldable pub percent_of : ℤ → ℤ → ℤ
percent_of x percent = wrap32 (quot_ℤ (wrap32 (x *ℤ percent)) 100)

-- A value is combined with a sample of the history if there is one.
unfoldable pub with_sample : Option ℤ → (ℤ → ℤ → ℤ) → ℤ → ℤ
with_sample none f corrected = corrected
with_sample (some sample) f corrected = f corrected sample

-- The two bounds from the past sample of the scale down.
unfoldable pub scale_down_bound : StablePolicy → ℤ → ℤ
scale_down_bound policy past =
    scale_down_constraint policy.select_policy (wrap32 (past -ℤ policy.instances))
      (wrap32 (past -ℤ percent_of past policy.percent))

unfoldable pub scale_up_bound : StablePolicy → ℤ → ℤ
scale_up_bound policy past =
    scale_up_constraint policy.select_policy (wrap32 (past +ℤ policy.instances))
      (wrap32 (past +ℤ percent_of past policy.percent))

unfoldable pub corrected_for_stable_scale_down : CorrectedInstances → ℕ → History × ℤ
corrected_for_stable_scale_down alg now =
    let (recommendations, better) = get_best_record alg.history.max_recommendation now in
    let (charts, past) = get_best_line_chart alg.history.max_corrected now alg.current_instances in
    let corrected = with_sample better max_ℤ alg.recommended_instances in
    let bounded =
      with_sample past (λ c p. max_ℤ c (scale_down_bound alg.behavior.scale_down p)) corrected in
    let h = alg.history in
    (
      record h { max_recommendation = recommendations; max_corrected = charts },
      min_ℤ bounded alg.current_instances,
    )

unfoldable pub corrected_for_stable_scale_up : CorrectedInstances → ℕ → History × ℤ
corrected_for_stable_scale_up alg now =
    let (recommendations, better) = get_best_record alg.history.min_recommendation now in
    let (charts, past) =
      get_best_line_chart alg.history.min_corrected_for_stable now alg.current_instances in
    let corrected = with_sample better min_ℤ alg.recommended_instances in
    let bounded =
      with_sample past (λ c p. min_ℤ c (scale_up_bound alg.behavior.scale_up_stable p)) corrected in
    let h = alg.history in
    (
      record h { min_recommendation = recommendations; min_corrected_for_stable = charts },
      max_ℤ bounded alg.current_instances,
    )

unfoldable pub corrected_for_stable : CorrectedInstances → ℕ → History × ℤ
corrected_for_stable alg now =
    if ltb_ℤ alg.recommended_instances alg.current_instances
    then corrected_for_stable_scale_down alg now
    else if ltb_ℤ alg.current_instances alg.recommended_instances
    then corrected_for_stable_scale_up alg now
    else (alg.history, alg.recommended_instances)

-- `int32(float64(p) * float64(percent) / 100.0)` is floating point arithmetic: a parameter.
module _ (float_percent : ℤ → ℤ → ℤ) where
  -- A past sample that is not positive sets no bound.
  unfoldable pub panic_bound : CorrectedInstances → ℤ → ℤ → ℤ
  panic_bound alg corrected past =
      if ltb_ℤ (pos 0) past
      then min_ℤ corrected (wrap32 (past +ℤ float_percent past alg.behavior.scale_up_panic.percent))
      else corrected

  unfoldable pub corrected_for_panic : CorrectedInstances → ℕ → History × ℤ
  corrected_for_panic alg now =
      let (charts, past) =
        get_best_line_chart alg.history.min_corrected_for_panic now alg.current_instances in
      let corrected = with_sample past (panic_bound alg) alg.recommended_instances in
      let h = alg.history in
      (record h { min_corrected_for_panic = charts }, max_ℤ corrected alg.current_instances)

  -- GetCorrectedInstances, at the time `now`.
  unfoldable pub get_corrected_instances : CorrectedInstances → ℕ → History × ℤ
  get_corrected_instances alg now =
      let (h, corrected) =
        if alg.is_panic then corrected_for_panic alg now else corrected_for_stable alg now in
      (h, min_ℤ (max_ℤ corrected alg.min_instances) alg.max_instances)

-- Status, whose history is as above. The end of the panic mode is 0 when there is none.
pub record Status : Type 0 where
  pub panic_mode_ends_at : ℕ
  pub panic_mode_hold_milliseconds : ℕ
  pub history : History

unfoldable pub new_status : Behavior → Status
new_status b = record {
  panic_mode_ends_at = 0;
  panic_mode_hold_milliseconds = b.scale_up_panic.panic_mode_hold;
  history = record {
    max_recommendation = new_maximum_record b.scale_down.stabilization_window;
    min_recommendation = new_minimum_record b.scale_up_stable.stabilization_window;
    max_corrected = new_maximum_line_chart b.scale_down.period;
    min_corrected_for_stable = new_minimum_line_chart b.scale_up_stable.period;
    min_corrected_for_panic = new_minimum_line_chart b.scale_up_panic.period;
  };
}

unfoldable pub append_recommendation : Status → ℕ → ℤ → Status
append_recommendation s now v =
    let h = s.history in
    record s {
      history = record h {
        max_recommendation = append_record h.max_recommendation now v;
        min_recommendation = append_record h.min_recommendation now v;
      };
    }

unfoldable pub append_corrected : Status → ℕ → ℤ → Status
append_corrected s now v =
    let h = s.history in
    record s {
      history = record h {
        max_corrected = append_line_chart h.max_corrected now v;
        min_corrected_for_stable = append_line_chart h.min_corrected_for_stable now v;
        min_corrected_for_panic = append_line_chart h.min_corrected_for_panic now v;
      };
    }

unfoldable pub refresh_panic_mode : Status → ℕ → Status
refresh_panic_mode s now =
    if nat_beq s.panic_mode_hold_milliseconds 0
    then record s { panic_mode_ends_at = 0 }
    else record s { panic_mode_ends_at = now + s.panic_mode_hold_milliseconds }

unfoldable pub is_panic_mode : Status → ℕ → Bool
is_panic_mode s now = ltb 0 s.panic_mode_hold_milliseconds && leb now s.panic_mode_ends_at
