-- ===== src/SlidingWindow/Pool.antt =====
-- The pool of a window, as the best of the samples behind it:
-- pkg/autoscaler/datastructure/sliding_window.go
use kthena.Common.{
  ℕ, ◌≤◌, Bool, true, false, List, [], ◌∷◌, ◌++◌, ◌≡◌, ◌⊎◌, inl, inr, arith, Bool-cases, All, Any,
  All-append, Any-append_left, Any-append_right,
}
use kthena.Common.Int.{ℤ}
use kthena.SlidingWindow.{
  SnapshotRecord, is_fresh, better_maximum, better_minimum, expire_pool, pop_back_unless,
  pop_back_loop, push_sample,
}

-- A strict order in which "not better" is transitive, as on numbers.
pub record IsOrder (better : ℤ → ℤ → Bool) : Type 0 where
  pub trans : (a b c : ℤ) → better a b ≡ true → better b c ≡ true → better a c ≡ true
  pub not_trans : (a b c : ℤ) → better a b ≡ false → better b c ≡ false → better a c ≡ false
  pub irrefl : (a : ℤ) → better a a ≡ false

pub maximum-IsOrder : IsOrder better_maximum
maximum-IsOrder = record {
  trans = λ a b c h k. ground arith;
  not_trans = λ a b c h k. ground arith;
  irrefl = λ a. ground arith;
}

pub minimum-IsOrder : IsOrder better_minimum
minimum-IsOrder = record {
  trans = λ a b c h k. ground arith;
  not_trans = λ a b c h k. ground arith;
  irrefl = λ a. ground arith;
}

-- A sample that is at least as new and at least as good as `x`.
abbrev pub Covers : (ℤ → ℤ → Bool) → SnapshotRecord → SnapshotRecord → Type 0
Covers better x y = (x.timestamp ≤ y.timestamp) × (better x.value y.value ≡ false)

-- Each record is better than those behind it.
abbrev pub IsMonotone : (ℤ → ℤ → Bool) → List SnapshotRecord → Type 0
IsMonotone better [] = Unit
IsMonotone better (r ∷ pool) =
    All (λ q. better r.value q.value ≡ true) pool × IsMonotone better pool

module _ (fresh now : ℕ) where
  pub All-expire {κ} :
      (P : SnapshotRecord → Type κ) (pool : List SnapshotRecord)
      → All P pool
      → All P (expire_pool fresh now pool)
  unfolding expire_pool
  All-expire P [] h = tt
  All-expire P (r ∷ pool) h = elim (Bool-cases (is_fresh fresh now r.timestamp)) [
    | inl here ↦ rw here h
    | inr gone ↦ rw gone (All-expire P pool h.1)
  ]

  pub Monotone-expire :
      (better : ℤ → ℤ → Bool) (pool : List SnapshotRecord)
      → IsMonotone better pool
      → IsMonotone better (expire_pool fresh now pool)
  unfolding expire_pool
  Monotone-expire better [] h = tt
  Monotone-expire better (r ∷ pool) h = elim (Bool-cases (is_fresh fresh now r.timestamp)) [
    | inl here ↦ rw here h
    | inr gone ↦ rw gone (Monotone-expire better pool h.1)
  ]

  -- A record that covers a fresh sample is fresh, so it is not popped.
  pub Covers-expire :
      (better : ℤ → ℤ → Bool) (x : SnapshotRecord) (pool : List SnapshotRecord)
      → is_fresh fresh now x.timestamp ≡ true
      → Any (Covers better x) pool
      → Any (Covers better x) (expire_pool fresh now pool)
  unfolding expire_pool is_fresh
  Covers-expire better x [] f h = h
  Covers-expire better x (r ∷ pool) f h = elim (Bool-cases (is_fresh fresh now r.timestamp)) [
    | inl here ↦ rw here h
    | inr gone ↦
        rw gone (
          Covers-expire better x pool f
            (elim h [ inl c ↦ absurd (ground arith) | inr rest ↦ rest ]))
  ]

module _ (better : ℤ → ℤ → Bool) (v : ℤ) where
  All-unless {κ} :
      (P : SnapshotRecord → Type κ) (r : SnapshotRecord) (kept : List SnapshotRecord)
      → P r
      → All P kept
      → All P (pop_back_unless better v r kept)
  unfolding pop_back_unless
  All-unless P r [] h k = elim (Bool-cases (better r.value v)) [
    | inl stays ↦ rw stays (h, tt)
    | inr popped ↦ rw popped tt
  ]
  All-unless P r (q ∷ kept) h k = (h, k)

  pub All-pop_back {κ} :
      (P : SnapshotRecord → Type κ) (pool : List SnapshotRecord)
      → All P pool
      → All P (pop_back_loop better v pool)
  unfolding pop_back_loop
  All-pop_back P [] h = tt
  All-pop_back P (r ∷ pool) h = All-unless P r _ h.0 (All-pop_back P pool h.1)

  Monotone-unless :
      (r : SnapshotRecord) (kept : List SnapshotRecord)
      → All (λ q. better r.value q.value ≡ true) kept
      → IsMonotone better kept
      → IsMonotone better (pop_back_unless better v r kept)
  unfolding pop_back_unless
  Monotone-unless r [] h k = elim (Bool-cases (better r.value v)) [
    | inl stays ↦ rw stays (tt, tt)
    | inr popped ↦ rw popped tt
  ]
  Monotone-unless r (q ∷ kept) h k = (h, k)

  Monotone-pop_back :
      (pool : List SnapshotRecord)
      → IsMonotone better pool
      → IsMonotone better (pop_back_loop better v pool)
  unfolding pop_back_loop
  Monotone-pop_back [] h = tt
  Monotone-pop_back (r ∷ pool) h =
      Monotone-unless r _ (All-pop_back (λ q. better r.value q.value ≡ true) pool h.0)
        (Monotone-pop_back pool h.1)

  better-unless :
      IsOrder better
      → (r : SnapshotRecord) (kept : List SnapshotRecord)
      → All (λ q. better r.value q.value ≡ true) kept
      → All (λ q. better q.value v ≡ true) kept
      → All (λ q. better q.value v ≡ true) (pop_back_unless better v r kept)
  unfolding pop_back_unless
  better-unless o r [] h k = elim (Bool-cases (better r.value v)) [
    | inl stays ↦ rw stays (stays, tt)
    | inr popped ↦ rw popped tt
  ]
  better-unless o r (q ∷ kept) h k = (o.trans r.value q.value v h.0 k.0, k)

  -- The records that the loop leaves are better than the value.
  better-pop_back :
      IsOrder better
      → (pool : List SnapshotRecord) → IsMonotone better pool
      → All (λ q. better q.value v ≡ true) (pop_back_loop better v pool)
  unfolding pop_back_loop
  better-pop_back o [] h = tt
  better-pop_back o (r ∷ pool) h =
      better-unless o r _ (All-pop_back (λ q. better r.value q.value ≡ true) pool h.0)
        (better-pop_back o pool h.1)

  Monotone-snoc :
      (pool : List SnapshotRecord) (now : ℕ)
      → IsMonotone better pool
      → All (λ q. better q.value v ≡ true) pool
      → IsMonotone better (pool ++ (record { timestamp = now; value = v } ∷ []))
  Monotone-snoc [] now h k = (tt, tt)
  Monotone-snoc (r ∷ pool) now h k = (
    All-append (λ q. better r.value q.value ≡ true) pool _ h.0 (k.0, tt),
    Monotone-snoc pool now h.1 k.1,
  )

  pub Monotone-push :
      (now : ℕ) (pool : List SnapshotRecord)
      → IsOrder better
      → IsMonotone better pool
      → IsMonotone better (push_sample better pool now v)
  unfolding push_sample
  Monotone-push now pool o h =
      Monotone-snoc _ now (Monotone-pop_back pool h) (better-pop_back o pool h)

  module _ (o : IsOrder better) (now : ℕ) (x : SnapshotRecord) where
    abbrev sample : SnapshotRecord
    sample = record { timestamp = now; value = v }

    Covers-unless :
        (r : SnapshotRecord) (kept : List SnapshotRecord)
        → r.timestamp ≤ now
        → Covers better x r ⊎ (Any (Covers better x) kept ⊎ Covers better x sample)
        → Any (Covers better x) (pop_back_unless better v r kept) ⊎ Covers better x sample
    unfolding pop_back_unless
    Covers-unless r [] t (inl c) = elim (Bool-cases (better r.value v)) [
      | inl stays ↦ rw stays (inl (inl c))
      | inr popped ↦ inr (omega arith, o.not_trans x.value r.value v c.1 popped)
    ]
    Covers-unless r [] t (inr (inl k)) = elim k [ ]
    Covers-unless r (q ∷ kept) t (inl c) = inl (inl c)
    Covers-unless r (q ∷ kept) t (inr (inl k)) = inl (inr k)
    Covers-unless r kept t (inr (inr k)) = inr k

    -- A record that the loop pops is covered by the new sample.
    Covers-pop_back :
        (pool : List SnapshotRecord)
        → All (λ r. r.timestamp ≤ now) pool
        → Any (Covers better x) pool
        → Any (Covers better x) (pop_back_loop better v pool) ⊎ Covers better x sample
    unfolding pop_back_loop
    Covers-pop_back [] t h = elim h [ ]
    Covers-pop_back (r ∷ pool) t (inl c) = Covers-unless r _ t.0 (inl c)
    Covers-pop_back (r ∷ pool) t (inr h) = Covers-unless r _ t.0 (inr (Covers-pop_back pool t.1 h))

    pub Covers-push :
        (pool : List SnapshotRecord)
        → All (λ r. r.timestamp ≤ now) pool
        → Any (Covers better x) pool
        → Any (Covers better x) (push_sample better pool now v)
    unfolding push_sample
    Covers-push pool t h = elim (Covers-pop_back pool t h) [
      | inl kept ↦ Any-append_left (Covers better x) _ _ kept
      | inr new ↦
          Any-append_right (Covers better x) (pop_back_loop better v pool) (sample ∷ []) (inl new)
    ]

  pub All-push {κ} :
      (P : SnapshotRecord → Type κ) (now : ℕ) (pool : List SnapshotRecord)
      → All P pool
      → P (record { timestamp = now; value = v })
      → All P (push_sample better pool now v)
  unfolding push_sample
  All-push P now pool h k = All-append P _ _ (All-pop_back P pool h) (k, tt)
