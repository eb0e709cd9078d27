-- ===== src/Autoscaler/Tests.antt =====
-- Concrete corrections: pkg/autoscaler/algorithm/revision.go
use kthena.Common.{List, [], ◌∷◌, false, refl, arith}
use kthena.Common.Int.{ℤ, pos, ◌≤ℤ◌, min_ℤ, max_ℤ}
use kthena.SlidingWindow.{
  new_maximum_record, new_minimum_record, new_maximum_line_chart, new_minimum_line_chart,
}
use kthena.SlidingWindow.Runs.{Call, append, run, samples, Ascending}
use kthena.Autoscaler.{or_policy, StablePolicy, CorrectedInstances, get_corrected_instances}
use kthena.Autoscaler.Bounds.{Directed, get_corrected_lem}
use kthena.Autoscaler.Stabilization.{FreshAll, scale_down_stabilized, scale_up_stabilized}

abbrev calls : List Call
calls = append 100 (pos 5) ∷ append 200 (pos 7) ∷ []

abbrev ascending : Ascending 0 calls 300
ascending = (omega arith, (omega arith, omega arith))

abbrev stable : StablePolicy
stable = record {
  instances = pos 4;
  percent = pos 100;
  period = 1000;
  select_policy = or_policy;
  stabilization_window = 1000;
}

abbrev float_percent : ℤ → ℤ → ℤ
float_percent p percent = p

abbrev correction : ℤ → CorrectedInstances
correction recommended = record {
  is_panic = false;
  history = record {
    max_recommendation = run (new_maximum_record 1000) calls;
    min_recommendation = run (new_minimum_record 1000) calls;
    max_corrected = new_maximum_line_chart 1000;
    min_corrected_for_stable = new_minimum_line_chart 1000;
    min_corrected_for_panic = new_minimum_line_chart 1000;
  };
  behavior = record {
    scale_up_stable = stable;
    scale_up_panic = record { percent = pos 1000; period = 1000; panic_mode_hold = 0 };
    scale_down = stable;
  };
  min_instances = pos 1;
  max_instances = pos 10;
  current_instances = pos 6;
  recommended_instances = recommended;
}

get_corrected_lem_example :
    (pos 1 ≤ℤ (get_corrected_instances float_percent (correction (pos 2)) 300).1)
    × ((get_corrected_instances float_percent (correction (pos 2)) 300).1 ≤ℤ pos 10)
    × Directed float_percent (correction (pos 2)) 300
get_corrected_lem_example =
    get_corrected_lem float_percent (correction (pos 2)) 300 (omega arith) (omega arith)

scale_down_stabilized_example :
    FreshAll 1000 300
      (λ v. min_ℤ v (pos 6) ≤ℤ (get_corrected_instances float_percent (correction (pos 2)) 300).1)
      (samples calls)
scale_down_stabilized_example =
    scale_down_stabilized float_percent (correction (pos 2)) 1000 calls 300 (omega arith) ascending
      refl (omega arith) (omega arith) (omega arith) refl

scale_up_stabilized_example :
    FreshAll 1000 300
      (λ v. (get_corrected_instances float_percent (correction (pos 9)) 300).1 ≤ℤ max_ℤ v (pos 6))
      (samples calls)
scale_up_stabilized_example =
    scale_up_stabilized float_percent (correction (pos 9)) 1000 calls 300 (omega arith) ascending
      refl (omega arith) (omega arith) (omega arith) refl
