-- ===== src/TokenTracker/Recording.antt =====
-- A request is recorded in the last bucket or in a new one:
-- pkg/kthena-router/datastore/token_tracker.go
use kthena.Common.{
  ℕ, zero, suc, ◌≤◌, ◌≡◌, refl, Bool, true, false, List, [], ◌∷◌, leb, nat_beq, if◌then◌else◌,
  arith, Bool-cases, inl, inr,
}
use kthena.Common.Int.{ℤ, pos, ◌+ℤ◌, int_laws}
use kthena.TokenTracker.{FloatOps, BucketNode, record_request}
use kthena.TokenTracker.Buckets.{Sums, Sorted, Skipped, window}

module _ {F : Type 0} (ops : FloatOps F) where
  record-Sums_cons :
      (prev : ℤ) (now : ℕ) (tokens : F) (b : BucketNode F) (bs : List (BucketNode F))
      → Sums prev (b ∷ bs)
      → Sums prev (record_request ops now tokens (b ∷ bs))
  unfolding record_request
  record-Sums_cons prev now tokens b [] s = elim (Bool-cases (nat_beq b.timestamp now)) [
    | inl same ↦ rw same (add_one b.req_cum_sum prev b.req_count s.0, tt)
    | inr other ↦ rw other (s.0, (swap b.req_cum_sum, tt))
  ]
    where
      add_one : (x p n : ℤ) → x ≡ p +ℤ n → x +ℤ pos 1 ≡ p +ℤ (n +ℤ pos 1)
      add_one x p n e = grind (int_laws, e)

      swap : (x : ℤ) → pos 1 +ℤ x ≡ x +ℤ pos 1
      swap x = grind int_laws
  record-Sums_cons prev now tokens b (d ∷ bs) s =
      (s.0, record-Sums_cons b.req_cum_sum now tokens d bs s.1)

  pub record-Sums :
      (now : ℕ) (tokens : F) (bs : List (BucketNode F))
      → Sums (pos 0) bs
      → Sums (pos 0) (record_request ops now tokens bs)
  unfolding record_request ◌+ℤ◌
  record-Sums now tokens [] s = (refl, tt)
  record-Sums now tokens (b ∷ bs) s = record-Sums_cons (pos 0) now tokens b bs s

  pub record-Sorted :
      (t last now : ℕ) (tokens : F) (bs : List (BucketNode F))
      → last ≤ now
      → Sorted t bs last
      → Sorted t (record_request ops now tokens bs) now
  unfolding record_request
  record-Sorted t last now tokens [] h s = (omega (arith, h, s), omega arith)
  record-Sorted t last now tokens (b ∷ []) h s = elim (Bool-cases (nat_beq b.timestamp now)) [
    | inl same ↦ rw same (s.0, ground (arith, same))
    | inr other ↦ rw other (s.0, (omega (arith, h, s.1), omega arith))
  ]
  record-Sorted t last now tokens (b ∷ c ∷ bs) h s =
      (s.0, record-Sorted b.timestamp last now tokens (c ∷ bs) h s.1)

  pub record-Skipped :
      (c k now : ℕ) (tokens : F) (bs : List (BucketNode F))
      → Skipped c k bs
      → Skipped c k (record_request ops now tokens bs)
  unfolding record_request
  record-Skipped c zero now tokens bs h = tt
  record-Skipped c (suc k) now tokens [] h = elim h [ ]
  record-Skipped c (suc zero) now tokens (b ∷ []) h = elim (Bool-cases (nat_beq b.timestamp now)) [
    | inl same ↦ rw same (h.0, tt)
    | inr other ↦ rw other (h.0, tt)
  ]
  record-Skipped c (suc (suc k)) now tokens (b ∷ []) h = elim h.1 [ ]
  record-Skipped c (suc k) now tokens (b ∷ d ∷ bs) h =
      (h.0, record-Skipped c k now tokens (d ∷ bs) h.1)

  -- A recorded request is in the window if its time is.
  pub window-record :
      (c now : ℕ) (tokens : F) (bs : List (BucketNode F))
      → window c (record_request ops now tokens bs)
        ≡ window c bs +ℤ (if leb c now then pos 1 else pos 0)
  unfolding record_request
  window-record c now tokens [] = first (leb c now)
    where
      first :
          (i : Bool) → (if i then pos 1 +ℤ pos 0 else pos 0) ≡ pos 0 +ℤ (if i then pos 1 else pos 0)
      first true = grind int_laws
      first false = grind int_laws
  window-record c now tokens (b ∷ []) = elim (Bool-cases (nat_beq b.timestamp now)) [
    | inl same ↦
        let same_test : leb c b.timestamp ≡ leb c now = ground (arith, same) in
        rw (same, same_test) (one_more b.req_count (leb c now))
    | inr other ↦ rw other (put_after b.req_count (leb c b.timestamp) (leb c now))
  ]
    where
      one_more :
          (n : ℤ) (i : Bool)
          → (if i then (n +ℤ pos 1) +ℤ pos 0 else pos 0)
            ≡ (if i then n +ℤ pos 0 else pos 0) +ℤ (if i then pos 1 else pos 0)
      one_more n true = grind int_laws
      one_more n false = grind int_laws

      put_after :
          (n : ℤ) (i j : Bool)
          → (if i
              then n +ℤ (if j then pos 1 +ℤ pos 0 else pos 0)
              else (if j then pos 1 +ℤ pos 0 else pos 0))
            ≡ (if i then n +ℤ pos 0 else pos 0) +ℤ (if j then pos 1 else pos 0)
      put_after n true true = grind int_laws
      put_after n true false = grind int_laws
      put_after n false true = grind int_laws
      put_after n false false = grind int_laws
  window-record c now tokens (b ∷ d ∷ bs) = rw (window-record c now tokens (d ∷ bs)) (
      assoc b.req_count (window c (d ∷ bs)) (if leb c now then pos 1 else pos 0)
        (leb c b.timestamp))
    where
      assoc :
          (n w x : ℤ) (i : Bool)
          → (if i then n +ℤ (w +ℤ x) else w +ℤ x) ≡ (if i then n +ℤ w else w) +ℤ x
      assoc n w x true = grind int_laws
      assoc n w x false = grind int_laws
