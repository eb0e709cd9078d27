-- ===== src/SlidingWindow/Record.antt =====
-- RmqRecordSlidingWindow of pkg/autoscaler/datastructure/sliding_window.go: its result against the
-- list of all the samples that were ever appended.
use kthena.Common.{
  ℕ, ◌≤◌, ◌<◌, Bool, true, false, Option, none, some, List, [], ◌∷◌, ◌++◌, ◌≡◌, refl, inl, inr,
  arith, Bool-cases, nat_beq, All, Any, All-append, All-map, Any-map, Any-append_left,
  Any-append_right,
}
use kthena.Common.Int.{ℤ}
use kthena.SlidingWindow.{
  SnapshotRecord, is_fresh, expire_pool, push_sample, pop_back_loop, front_value, RecordWindow,
  expire_record, get_best_record,
}
use kthena.SlidingWindow.Pool.{
  IsOrder, Covers, IsMonotone, All-expire, Monotone-expire, Covers-expire, Monotone-push,
  Covers-push, All-push,
}

-- The pool holds the best of the samples `h` that are fresh at the time `t` of the last call.
pub record Tracks (better : ℤ → ℤ → Bool) (fresh : ℕ) (pool : List SnapshotRecord)
    (h : List SnapshotRecord) (t : ℕ) : Type 0 where
  pub order : IsOrder better
  pub monotone : IsMonotone better pool
  pub sound : All (λ r. Any (λ x. x ≡ r) h) pool
  pub complete : All (λ x. is_fresh fresh t x.timestamp ≡ true → Any (Covers better x) pool) h
  pub past : All (λ r. r.timestamp ≤ t) pool
  pub history_past : All (λ x. x.timestamp ≤ t) h

module _ (better : ℤ → ℤ → Bool) (fresh : ℕ) where
  fresh_before :
      (t now ts : ℕ) → t ≤ now → is_fresh fresh now ts ≡ true → is_fresh fresh t ts ≡ true
  unfolding is_fresh
  fresh_before t now ts h f = ground arith

  pub Tracks-expire :
      (pool h : List SnapshotRecord) (t now : ℕ)
      → t ≤ now
      → Tracks better fresh pool h t
      → Tracks better fresh (expire_pool fresh now pool) h now
  Tracks-expire pool h t now le k = record {
    order = k.order;
    monotone = Monotone-expire fresh now better pool k.monotone;
    sound = All-expire fresh now (λ r. Any (λ x. x ≡ r) h) pool k.sound;
    complete =
        All-map h
          (λ x c f.
            Covers-expire fresh now better x pool f (c (fresh_before t now x.timestamp le f)))
          k.complete;
    past =
        All-expire fresh now (λ r. r.timestamp ≤ now) pool
          (All-map pool (λ r p. omega arith) k.past);
    history_past = All-map h (λ x p. omega arith) k.history_past;
  }

  pub Tracks-push :
      (pool h : List SnapshotRecord) (now : ℕ) (v : ℤ)
      → Tracks better fresh pool h now
      → Tracks better fresh
          (push_sample better pool now v)
          (h ++ (record { timestamp = now; value = v } ∷ []))
          now
  unfolding push_sample
  Tracks-push pool h now v k = record {
    order = k.order;
    monotone = Monotone-push better v now pool k.order k.monotone;
    sound =
        All-push better v (λ r. Any (λ x. x ≡ r) (h ++ (sample ∷ []))) now pool
          (All-map pool (λ r a. Any-append_left (λ x. x ≡ r) h (sample ∷ []) a) k.sound)
          (Any-append_right (λ x. x ≡ sample) h (sample ∷ []) (inl refl));
    complete =
        All-append Complete h (sample ∷ [])
          (All-map h (λ x c f. Covers-push better v k.order now x pool k.past (c f)) k.complete)
          ((λ f. covered), tt);
    past = All-push better v (λ r. r.timestamp ≤ now) now pool k.past (omega arith);
    history_past =
        All-append (λ x. x.timestamp ≤ now) h (sample ∷ []) k.history_past (omega arith, tt);
  }
    where
      sample : SnapshotRecord
      sample = record { timestamp = now; value = v }

      Complete : SnapshotRecord → Type 0
      Complete x =
          is_fresh fresh now x.timestamp ≡ true
          → Any (Covers better x) (push_sample better pool now v)

      covered : Any (Covers better sample) (push_sample better pool now v)
      covered =
          Any-append_right (Covers better sample) (pop_back_loop better v pool) (sample ∷ [])
            (inl (omega arith, k.order.irrefl v))

  -- Fresh in the history, and not beaten by any fresh sample there.
  abbrev pub IsBest : ℕ → List SnapshotRecord → ℤ → Type 0
  IsBest now h v =
      Any (λ x. (is_fresh fresh now x.timestamp ≡ true) × (x.value ≡ v)) h
      × All (λ x. is_fresh fresh now x.timestamp ≡ true → better x.value v ≡ false) h

  -- No value if there is no fresh sample, and the best one otherwise.
  abbrev pub BestOf : ℕ → List SnapshotRecord → Option ℤ → Type 0
  BestOf now h none = All (λ x. is_fresh fresh now x.timestamp ≡ false) h
  BestOf now h (some v) = IsBest now h v

  abbrev HeadFresh : ℕ → List SnapshotRecord → Type 0
  HeadFresh now [] = Unit
  HeadFresh now (r ∷ pool) = is_fresh fresh now r.timestamp ≡ true

  expire-HeadFresh :
      (now : ℕ) (pool : List SnapshotRecord) → HeadFresh now (expire_pool fresh now pool)
  unfolding expire_pool
  expire-HeadFresh now [] = tt
  expire-HeadFresh now (r ∷ pool) = elim (Bool-cases (is_fresh fresh now r.timestamp)) [
    | inl here ↦ rw here here
    | inr gone ↦ rw gone (expire-HeadFresh now pool)
  ]

  -- In a monotone pool the front beats all that the pool covers.
  front-best :
      IsOrder better
      → (x r : SnapshotRecord) (pool : List SnapshotRecord)
      → All (λ q. better r.value q.value ≡ true) pool
      → Any (Covers better x) (r ∷ pool)
      → better x.value r.value ≡ false
  front-best o x r pool m (inl c) = c.1
  front-best o x r [] m (inr h) = elim h [ ]
  front-best o x r (q ∷ pool) m (inr (inl c)) = elim (Bool-cases (better x.value r.value)) [
    | inl beats ↦ cc (o.trans x.value r.value q.value beats m.0, c.1)
    | inr not ↦ not
  ]
  front-best o x r (q ∷ pool) m (inr (inr h)) = front-best o x r pool m.1 (inr h)

  front_value-BestOf :
      (pool h : List SnapshotRecord) (now : ℕ)
      → HeadFresh now pool
      → Tracks better fresh pool h now
      → BestOf now h (front_value pool)
  unfolding front_value
  front_value-BestOf [] h now f k =
      All-map h
        (λ x c. elim (Bool-cases (is_fresh fresh now x.timestamp)) [
          | inl fresh ↦ absurd (c fresh)
          | inr stale ↦ stale
        ])
        k.complete
  front_value-BestOf (r ∷ pool) h now f k = (
    Any-map h (λ x e. (rw e f, rw e)) k.sound.0,
    All-map h (λ x c fresh. front-best k.order x r pool k.monotone.0 (c fresh)) k.complete,
  )

pub get_best-BestOf :
    (better : ℤ → ℤ → Bool) (w : RecordWindow) (h : List SnapshotRecord) (t now : ℕ)
    → 0 < w.fresh_milliseconds
    → t ≤ now
    → Tracks better w.fresh_milliseconds w.pool h t
    → BestOf better w.fresh_milliseconds now h (get_best_record w now).1
unfolding get_best_record expire_record
get_best-BestOf better w h t now p le k =
    let pool = expire_pool w.fresh_milliseconds now w.pool in
    let positive : nat_beq w.fresh_milliseconds 0 ≡ false = ground arith in
    rw positive (
      front_value-BestOf better w.fresh_milliseconds pool h now
        (expire-HeadFresh better w.fresh_milliseconds now w.pool)
        (Tracks-expire better w.fresh_milliseconds w.pool h t now le k))
