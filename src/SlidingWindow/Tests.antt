-- ===== src/SlidingWindow/Tests.antt =====
-- Concrete runs of the sliding windows: pkg/autoscaler/datastructure/sliding_window.go
use kthena.Common.{List, [], ◌∷◌, arith}
use kthena.Common.Int.{pos}
use kthena.SlidingWindow.{
  better_maximum, better_minimum, new_maximum_record, new_minimum_record, get_best_record,
}
use kthena.SlidingWindow.Record.{BestOf}
use kthena.SlidingWindow.Runs.{Call, append, get_best, run, samples, get_best_lem}

-- 5 at 10, 3 at 12, a read at 14, 4 at 15.
abbrev calls : List Call
calls = append 10 (pos 5) ∷ append 12 (pos 3) ∷ get_best 14 ∷ append 15 (pos 4) ∷ []

get_best_lem_example :
    BestOf better_maximum 4 18
      (samples calls)
      (get_best_record (run (new_maximum_record 4) calls) 18).1
    × BestOf better_minimum 4 18
        (samples calls)
        (get_best_record (run (new_minimum_record 4) calls) 18).1
get_best_lem_example =
    get_best_lem 4 calls 18 (omega arith)
      (omega arith, (omega arith, (omega arith, (omega arith, omega arith))))
