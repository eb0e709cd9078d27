-- ===== src/SlidingWindow.antt =====
-- pkg/autoscaler/datastructure/sliding_window.go: the three sliding windows. The deque is a list
-- with its front first. The clock is the argument `now` of each operation: milliseconds since the
-- epoch, a number, since they are far from the bound of `int64`. The values are integers, as the
-- `int32` values of the autoscaler's history are.
pub mod Tests
pub mod Pool
pub mod Record
pub mod Runs
use kthena.Common.{
  ℕ, ◌+◌, ◌*◌, Bool, true, false, Option, none, some, List, [], ◌∷◌, ◌++◌, leb, ltb, nat_beq,
  if◌then◌else◌,
}
use kthena.Common.Int.{ℤ, pos, ltb_ℤ}

-- snapshotRecord
pub record SnapshotRecord : Type 0 where
  pub timestamp : ℕ
  pub value : ℤ

unfoldable pub is_fresh : ℕ → ℕ → ℕ → Bool
is_fresh fresh_milliseconds current_timestamp snapshot_timestamp =
    leb current_timestamp (snapshot_timestamp + fresh_milliseconds)

-- The comparisons of the two kinds of window.
abbrev pub better_maximum : ℤ → ℤ → Bool
better_maximum me other = ltb_ℤ other me

abbrev pub better_minimum : ℤ → ℤ → Bool
better_minimum me other = ltb_ℤ me other

-- The first loop of `expire`: PopFront while the front is not fresh.
unfoldable pub expire_pool : ℕ → ℕ → List SnapshotRecord → List SnapshotRecord
expire_pool fresh now [] = []
expire_pool fresh now (r ∷ pool) =
    if is_fresh fresh now r.timestamp then r ∷ pool else expire_pool fresh now pool

-- A record that stands in front of what the loop has left: it is popped if it is the back and not
-- better than the value.
unfoldable pub pop_back_unless :
    (ℤ → ℤ → Bool) → ℤ → SnapshotRecord → List SnapshotRecord → List SnapshotRecord
pop_back_unless better v r [] = if better r.value v then r ∷ [] else []
pop_back_unless better v r (q ∷ kept) = r ∷ q ∷ kept

-- The loop of `Append`: PopBack while the back is not better than the value.
unfoldable pub pop_back_loop : (ℤ → ℤ → Bool) → ℤ → List SnapshotRecord → List SnapshotRecord
pop_back_loop better v [] = []
pop_back_loop better v (r ∷ pool) = pop_back_unless better v r (pop_back_loop better v pool)

-- The records that the loop leaves, and the new one at the back.
unfoldable pub push_sample : (ℤ → ℤ → Bool) → List SnapshotRecord → ℕ → ℤ → List SnapshotRecord
push_sample better pool now v =
    pop_back_loop better v pool ++ (record { timestamp = now; value = v } ∷ [])

-- RmqRecordSlidingWindow
pub record RecordWindow : Type 0 where
  pub pool : List SnapshotRecord
  pub fresh_milliseconds : ℕ
  pub is_better : ℤ → ℤ → Bool

unfoldable pub new_maximum_record : ℕ → RecordWindow
new_maximum_record fresh = record {
  pool = [];
  fresh_milliseconds = fresh;
  is_better = better_maximum;
}

unfoldable pub new_minimum_record : ℕ → RecordWindow
new_minimum_record fresh = record {
  pool = [];
  fresh_milliseconds = fresh;
  is_better = better_minimum;
}

unfoldable pub expire_record : RecordWindow → ℕ → RecordWindow
expire_record w now = record w { pool = expire_pool w.fresh_milliseconds now w.pool }

unfoldable pub append_record : RecordWindow → ℕ → ℤ → RecordWindow
append_record w now v =
    let w' = expire_record w now in record w' { pool = push_sample w'.is_better w'.pool now v }

-- The value of the front, if there is one.
unfoldable pub front_value : List SnapshotRecord → Option ℤ
front_value [] = none
front_value (r ∷ pool) = some r.value

-- The window after the call, and the result: `none` where `ok` is false.
unfoldable pub get_best_record : RecordWindow → ℕ → RecordWindow × Option ℤ
get_best_record w now =
    let w' = expire_record w now in
    (w', if nat_beq w'.fresh_milliseconds 0 then none else front_value w'.pool)

-- RmqLineChartSlidingWindow
pub record LineChartWindow : Type 0 where
  pub pool : List SnapshotRecord
  pub fresh_milliseconds : ℕ
  pub drifting_value : ℤ
  pub drift_timestamp : ℕ
  pub max_drifting_milliseconds : ℕ
  pub is_better : ℤ → ℤ → Bool

new_line_chart : (ℤ → ℤ → Bool) → ℕ → LineChartWindow
new_line_chart better fresh = record {
  pool = [];
  fresh_milliseconds = fresh;
  drifting_value = pos 0;
  drift_timestamp = 0;
  max_drifting_milliseconds = fresh * 2;
  is_better = better;
}

unfoldable pub new_maximum_line_chart : ℕ → LineChartWindow
unfolding new_line_chart
new_maximum_line_chart = new_line_chart better_maximum

unfoldable pub new_minimum_line_chart : ℕ → LineChartWindow
unfolding new_line_chart
new_minimum_line_chart = new_line_chart better_minimum

unfoldable pub expire_line_chart : LineChartWindow → ℕ → LineChartWindow
expire_line_chart w now =
    let pool = expire_pool w.fresh_milliseconds now w.pool in
    if is_fresh w.max_drifting_milliseconds now w.drift_timestamp
    then record w { pool = pool }
    else record w { pool = pool; drift_timestamp = 0 }

unfoldable pub append_line_chart : LineChartWindow → ℕ → ℤ → LineChartWindow
append_line_chart w now v =
    let w' = expire_line_chart w now in
    let pool =
      if ltb 0 w'.drift_timestamp
      then push_sample w'.is_better w'.pool now w'.drifting_value
      else w'.pool in
    record w' { pool = pool; drifting_value = v; drift_timestamp = now }

-- The better of the two values, the second if they are equal.
abbrev better_of : (ℤ → ℤ → Bool) → ℤ → ℤ → ℤ
better_of better candidate value = if better candidate value then candidate else value

abbrev best_with_front : (ℤ → ℤ → Bool) → Option ℤ → ℤ → ℤ
best_with_front better none value = value
best_with_front better (some front) value = better_of better front value

unfoldable pub get_best_line_chart : LineChartWindow → ℕ → ℤ → LineChartWindow × Option ℤ
get_best_line_chart w now current =
    let w' = expire_line_chart w now in
    let drifted =
      if ltb 0 w'.drift_timestamp
      then better_of w'.is_better w'.drifting_value current
      else current in
    let best = best_with_front w'.is_better (front_value w'.pool) drifted in
    if nat_beq w.fresh_milliseconds 0 then (w, none) else (w', some best)
