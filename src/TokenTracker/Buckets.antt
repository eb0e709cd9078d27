-- ===== src/TokenTracker/Buckets.antt =====
-- The cumulative sums of the buckets: pkg/kthena-router/datastore/token_tracker.go
use kthena.Common.{
  ℕ, zero, suc, ◌+◌, ◌≤◌, ◌<◌, ◌≡◌, refl, sym, ap, ◌∙◌, true, false, List, [], ◌∷◌, ltb, leb,
  if◌then◌else◌, length, arith, Bool-cases, inl, inr,
}
use mathlib.Core.Path.{subst}
use kthena.Common.Int.{ℤ, pos, ◌+ℤ◌, ◌-ℤ◌, int_laws}
use kthena.TokenTracker.{FloatOps, BucketNode, drop, count_expired, req_before, rebase}

module _ {F : Type 0} where
  -- Each cumulative sum is the one before it, and the requests of its bucket.
  abbrev pub Sums : ℤ → List (BucketNode F) → Type 0
  Sums prev [] = Unit
  Sums prev (b ∷ bs) = (b.req_cum_sum ≡ prev +ℤ b.req_count) × Sums b.req_cum_sum bs

  -- The timestamps go up, from `t` on, and stay at or before `last`.
  abbrev pub Sorted : ℕ → List (BucketNode F) → ℕ → Type 0
  Sorted t [] last = t ≤ last
  Sorted t (b ∷ bs) last = (t ≤ b.timestamp) × Sorted b.timestamp bs last

  -- The requests of all buckets, and of those at or after the cutoff.
  abbrev pub sum : List (BucketNode F) → ℤ
  sum [] = pos 0
  sum (b ∷ bs) = b.req_count +ℤ sum bs

  abbrev pub window : ℕ → List (BucketNode F) → ℤ
  window cutoff [] = pos 0
  window cutoff (b ∷ bs) =
      let rest = window cutoff bs in if leb cutoff b.timestamp then b.req_count +ℤ rest else rest

  -- There are `k` buckets at least, and the first `k` are before the cutoff.
  abbrev pub Skipped : ℕ → ℕ → List (BucketNode F) → Type 0
  Skipped cutoff zero bs = Unit
  Skipped cutoff (suc k) [] = ⊥
  Skipped cutoff (suc k) (b ∷ bs) = (b.timestamp < cutoff) × Skipped cutoff k bs

module _ {F : Type 0} (ops : FloatOps F) where
  pub req_before_end :
      (prev : ℤ) (bs : List (BucketNode F))
      → Sums prev bs
      → req_before ops prev (length bs) bs ≡ prev +ℤ sum bs
  unfolding req_before
  req_before_end prev [] s = grind int_laws
  req_before_end prev (b ∷ bs) s =
      let rest = req_before_end b.req_cum_sum bs s.1 in grind (int_laws, rest, s.0)

  pub total-req_before :
      (prev : ℤ) (k : ℕ) (bs : List (BucketNode F))
      → Sums prev bs
      → req_before ops prev (length bs) bs -ℤ req_before ops prev k bs ≡ sum (drop k bs)
  unfolding req_before
  total-req_before prev zero bs s = let all = req_before_end prev bs s in grind (int_laws, all)
  total-req_before prev (suc k) [] s = grind int_laws
  total-req_before prev (suc k) (b ∷ bs) s = total-req_before b.req_cum_sum k bs s.1

  window-sum :
      (cutoff t last : ℕ) (bs : List (BucketNode F))
      → cutoff ≤ t
      → Sorted t bs last
      → window cutoff bs ≡ sum bs
  window-sum cutoff t last [] h s = refl
  window-sum cutoff t last (b ∷ bs) h s =
      let rest = window-sum cutoff b.timestamp last bs (omega (arith, h, s.0)) s.1 in
      ground (arith, rest, h, s.0)

  zero_suc : (n : ℕ) → 0 + suc n ≡ suc (0 + n)
  zero_suc n = omega arith

  suc_add : (k n : ℕ) → suc k + n ≡ suc (k + n)
  suc_add k n = omega arith

  -- What the scan leaves is the window.
  pub sum-scan :
      (cutoff t last k : ℕ) (bs : List (BucketNode F))
      → Sorted t bs last
      → Skipped cutoff k bs
      → sum (drop (k + count_expired ops cutoff (drop k bs)) bs) ≡ window cutoff bs
  unfolding count_expired
  sum-scan cutoff t last zero [] s h = refl
  sum-scan cutoff t last zero (b ∷ bs) s h = elim (Bool-cases (ltb b.timestamp cutoff)) [
    | inl old ↦
        let young : leb cutoff b.timestamp ≡ false = ground (arith, old) in
        let n = count_expired ops cutoff bs in
        rw (old, young)
          (ap (λ m. sum (drop m (b ∷ bs))) (zero_suc n)
            ∙ sum-scan cutoff b.timestamp last zero bs s.1 tt)
    | inr new ↦
        let young : leb cutoff b.timestamp ≡ true = ground (arith, new) in
        rw (new, young)
          (ap (λ x. b.req_count +ℤ x)
            (sym (window-sum cutoff b.timestamp last bs (ground (arith, young)) s.1)))
  ]
  sum-scan cutoff t last (suc k) [] s h = elim h [ ]
  sum-scan cutoff t last (suc k) (b ∷ bs) s h =
      let young : leb cutoff b.timestamp ≡ false = ground (arith, h.0) in
      let n = count_expired ops cutoff (drop k bs) in
      rw young (
        ap (λ m. sum (drop m (b ∷ bs))) (suc_add k n)
        ∙ sum-scan cutoff b.timestamp last k bs s.1 h.1)

  pub scan-Skipped :
      (cutoff k : ℕ) (bs : List (BucketNode F))
      → Skipped cutoff k bs
      → Skipped cutoff (k + count_expired ops cutoff (drop k bs)) bs
  unfolding count_expired
  scan-Skipped cutoff zero [] h = tt
  scan-Skipped cutoff zero (b ∷ bs) h = elim (Bool-cases (ltb b.timestamp cutoff)) [
    | inl old ↦
        let n = count_expired ops cutoff bs in
        let rest : Skipped cutoff (suc (0 + n)) (b ∷ bs) =
          (ground (arith, old), scan-Skipped cutoff zero bs tt) in
        rw old (subst (λ m. Skipped cutoff m (b ∷ bs)) (sym (zero_suc n)) rest)
    | inr new ↦ rw new tt
  ]
  scan-Skipped cutoff (suc k) [] h = elim h [ ]
  scan-Skipped cutoff (suc k) (b ∷ bs) h =
      let n = count_expired ops cutoff (drop k bs) in
      let rest : Skipped cutoff (suc (k + n)) (b ∷ bs) = (h.0, scan-Skipped cutoff k bs h.1) in
      subst (λ m. Skipped cutoff m (b ∷ bs)) (sym (suc_add k n)) rest

  pub Skipped-mono :
      (c c' k : ℕ) (bs : List (BucketNode F)) → c ≤ c' → Skipped c k bs → Skipped c' k bs
  Skipped-mono c c' zero bs h s = tt
  Skipped-mono c c' (suc k) [] h s = s
  Skipped-mono c c' (suc k) (b ∷ bs) h s = (omega (arith, h, s.0), Skipped-mono c c' k bs h s.1)

  pub window-drop :
      (c c' k : ℕ) (bs : List (BucketNode F))
      → c ≤ c'
      → Skipped c k bs
      → window c' (drop k bs) ≡ window c' bs
  window-drop c c' zero bs h s = refl
  window-drop c c' (suc k) [] h s = refl
  window-drop c c' (suc k) (b ∷ bs) h s =
      let old : leb c' b.timestamp ≡ false = ground (arith, h, s.0) in
      rw old (window-drop c c' k bs h s.1)

  pub drop-Sums :
      (prev : ℤ) (k : ℕ) (bs : List (BucketNode F))
      → Sums prev bs
      → Sums (req_before ops prev k bs) (drop k bs)
  unfolding req_before
  drop-Sums prev zero bs s = s
  drop-Sums prev (suc k) [] s = tt
  drop-Sums prev (suc k) (b ∷ bs) s = drop-Sums b.req_cum_sum k bs s.1

  pub drop-Sorted :
      (t last k : ℕ) (bs : List (BucketNode F)) → Sorted t bs last → Sorted t (drop k bs) last
  drop-Sorted t last zero bs s = s
  drop-Sorted t last (suc k) [] s = s
  drop-Sorted t last (suc k) (b ∷ bs) s =
      drop-Sorted t last k bs (Sorted_below t b.timestamp last bs s.0 s.1)
    where
      Sorted_below :
          (t t' last : ℕ) (bs : List (BucketNode F)) → t ≤ t' → Sorted t' bs last → Sorted t bs last
      Sorted_below t t' last [] h s = omega (arith, h, s)
      Sorted_below t t' last (b ∷ bs) h s = (omega (arith, h, s.0), s.1)

  rebase-Sums :
      (token_base : F) (base prev : ℤ) (bs : List (BucketNode F))
      → Sums prev bs
      → Sums (prev -ℤ base) (rebase ops token_base base bs)
  unfolding rebase
  rebase-Sums token_base base prev [] s = tt
  rebase-Sums token_base base prev (b ∷ bs) s = (
    sub_step b.req_cum_sum prev b.req_count base s.0,
    rebase-Sums token_base base b.req_cum_sum bs s.1,
  )
    where
      sub_step : (x p n base : ℤ) → x ≡ p +ℤ n → x -ℤ base ≡ (p -ℤ base) +ℤ n
      sub_step x p n base e = grind (int_laws, e)

  -- Compaction makes the sums start from zero.
  pub compact-Sums :
      (token_base : F) (k : ℕ) (bs : List (BucketNode F))
      → Sums (pos 0) bs
      → Sums (pos 0) (rebase ops token_base (req_before ops (pos 0) k bs) (drop k bs))
  compact-Sums token_base k bs s =
      subst (λ z. Sums z (rebase ops token_base (req_before ops (pos 0) k bs) (drop k bs)))
        (minus_self (req_before ops (pos 0) k bs))
        (rebase-Sums token_base _ (req_before ops (pos 0) k bs) (drop k bs)
          (drop-Sums (pos 0) k bs s))
    where
      minus_self : (x : ℤ) → x -ℤ x ≡ pos 0
      minus_self x = grind int_laws

  pub rebase-Sorted :
      (token_base : F) (base : ℤ) (t last : ℕ) (bs : List (BucketNode F))
      → Sorted t bs last
      → Sorted t (rebase ops token_base base bs) last
  unfolding rebase
  rebase-Sorted token_base base t last [] s = s
  rebase-Sorted token_base base t last (b ∷ bs) s =
      (s.0, rebase-Sorted token_base base b.timestamp last bs s.1)

  pub window-rebase :
      (token_base : F) (base : ℤ) (c : ℕ) (bs : List (BucketNode F))
      → window c (rebase ops token_base base bs) ≡ window c bs
  unfolding rebase
  window-rebase token_base base c [] = refl
  window-rebase token_base base c (b ∷ bs) =
      let rest = window-rebase token_base base c bs in ground (arith, rest)
