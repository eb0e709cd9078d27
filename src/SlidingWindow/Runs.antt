-- ===== src/SlidingWindow/Runs.antt =====
-- Runs of calls on RmqRecordSlidingWindow: pkg/autoscaler/datastructure/sliding_window.go
use kthena.Common.{ℕ, ◌≤◌, ◌<◌, Bool, List, [], ◌∷◌, ◌++◌}
use kthena.Common.Int.{ℤ}
use mathlib.Core.List.{append-nil, append_assoc}
use mathlib.Core.Path.{subst}
use kthena.SlidingWindow.{
  SnapshotRecord, better_maximum, better_minimum, expire_pool, push_sample, RecordWindow,
  new_maximum_record, new_minimum_record, expire_record, append_record, get_best_record,
}
use kthena.SlidingWindow.Pool.{IsOrder, maximum-IsOrder, minimum-IsOrder}
use kthena.SlidingWindow.Record.{Tracks, Tracks-expire, Tracks-push, BestOf, get_best-BestOf}

pub data Call : Type 0 where
  append : ℕ → ℤ → Call
  get_best : ℕ → Call

abbrev pub time : Call → ℕ
time (append now v) = now
time (get_best now) = now

-- The clock does not run backwards, from `t` on.
abbrev pub Ascending : ℕ → List Call → ℕ → Type 0
Ascending t [] now = t ≤ now
Ascending t (c ∷ calls) now = (t ≤ time c) × Ascending (time c) calls now

unfoldable pub run : RecordWindow → List Call → RecordWindow
run w [] = w
run w (append now v ∷ calls) = run (append_record w now v) calls
run w (get_best now ∷ calls) = run (get_best_record w now).0 calls

-- The samples that the calls append.
unfoldable pub samples : List Call → List SnapshotRecord
samples [] = []
samples (append now v ∷ calls) = record { timestamp = now; value = v } ∷ samples calls
samples (get_best now ∷ calls) = samples calls

abbrev window : (ℤ → ℤ → Bool) → ℕ → List SnapshotRecord → RecordWindow
window better fresh pool = record { pool = pool; fresh_milliseconds = fresh; is_better = better }

run-BestOf :
    (better : ℤ → ℤ → Bool) (fresh : ℕ) (calls : List Call) (pool h : List SnapshotRecord)
    (t now : ℕ)
    → 0 < fresh
    → Ascending t calls now
    → Tracks better fresh pool h t
    → BestOf better fresh now
        (h ++ samples calls)
        (get_best_record (run (window better fresh pool) calls) now).1
unfolding run samples append_record get_best_record expire_record
run-BestOf better fresh [] pool h t now p a k =
    rw (append-nil h) (get_best-BestOf better (window better fresh pool) h t now p a k)
run-BestOf better fresh (append m v ∷ calls) pool h t now p a k =
    let sample : SnapshotRecord = record { timestamp = m; value = v } in
    let expired = expire_pool fresh m pool in
    let pushed =
      Tracks-push better fresh expired h m v (Tracks-expire better fresh pool h t m a.0 k) in
    let result =
      (get_best_record (run (window better fresh (push_sample better expired m v)) calls) now).1 in
    subst (λ l. BestOf better fresh now l result) (append_assoc h (sample ∷ []) (samples calls))
      (run-BestOf better fresh calls _ (h ++ (sample ∷ [])) m now p a.1 pushed)
run-BestOf better fresh (get_best m ∷ calls) pool h t now p a k =
    run-BestOf better fresh calls (expire_pool fresh m pool) h m now p a.1
      (Tracks-expire better fresh pool h t m a.0 k)

-- After any calls at times that do not decrease, GetBest of a maximum window (a minimum window)
-- with a positive duration reports no value exactly when no appended sample is fresh; otherwise it
-- returns the value of a fresh sample, and no fresh sample is greater (smaller).
pub get_best_lem :
    (fresh : ℕ) (calls : List Call) (now : ℕ)
    → 0 < fresh
    → Ascending 0 calls now
    → BestOf better_maximum fresh now
        (samples calls)
        (get_best_record (run (new_maximum_record fresh) calls) now).1
      × BestOf better_minimum fresh now
          (samples calls)
          (get_best_record (run (new_minimum_record fresh) calls) now).1
unfolding new_maximum_record new_minimum_record
get_best_lem fresh calls now p a = (
  run-BestOf better_maximum fresh calls [] [] 0 now p a (empty better_maximum maximum-IsOrder),
  run-BestOf better_minimum fresh calls [] [] 0 now p a (empty better_minimum minimum-IsOrder),
)
  where
    empty : (better : ℤ → ℤ → Bool) → IsOrder better → Tracks better fresh [] [] 0
    empty better o = record {
      order = o;
      monotone = tt;
      sound = tt;
      complete = tt;
      past = tt;
      history_past = tt;
    }
