-- ===== src/Sticky/Lifetime.antt =====
-- The lifetime of a binding: pkg/kthena-router/sessionsticky/ttl.go and store.go
use kthena.Common.{ℕ, zero, suc, ◌*◌, ◌^◌, ◌≤◌, ◌≡◌, refl, Option, none, some, arith, false, true}
use kthena.Common.Int.{ℤ, pos, negsuc, ◌*ℤ◌, ltb_ℤ}
use kthena.Sticky.{effective_ttl, ttl}

effective_ttl-pos : (n : ℕ) → 1 ≤ n → effective_ttl (pos n) ≡ n
unfolding effective_ttl
effective_ttl-pos zero h = absurd (omega (arith, h))
effective_ttl-pos (suc n) h = refl

times_second : (k : ℕ) → pos k *ℤ pos (10 ^ 9) ≡ pos (k * 10 ^ 9)
unfolding ◌*ℤ◌
times_second k = ground arith

-- The lifetime that the configuration gives a session is at least one second, and Commit uses it as
-- it is: the fallback for a lifetime that is not positive is never taken.
pub ttl_lem :
    (spec : Option (Option ℤ))
    → (n : ℕ) × (ttl spec ≡ pos n) × (effective_ttl (ttl spec) ≡ n) × (10 ^ 9 ≤ n)
unfolding ttl
ttl_lem none = (300 * 10 ^ 9, refl, effective_ttl-pos (300 * 10 ^ 9) (omega arith), omega arith)
ttl_lem (some none) =
    (300 * 10 ^ 9, refl, effective_ttl-pos (300 * 10 ^ 9) (omega arith), omega arith)
ttl_lem (some (some (negsuc k))) =
    let low : ltb_ℤ (negsuc k) (pos 1) ≡ true = ground arith in
    rw low (300 * 10 ^ 9, refl, effective_ttl-pos (300 * 10 ^ 9) (omega arith), omega arith)
ttl_lem (some (some (pos zero))) =
    (300 * 10 ^ 9, refl, effective_ttl-pos (300 * 10 ^ 9) (omega arith), omega arith)
ttl_lem (some (some (pos (suc k)))) =
    let positive : ltb_ℤ (pos (suc k)) (pos 1) ≡ false = ground arith in
    rw (positive, times_second (suc k))
      (suc k * 10 ^ 9, refl, effective_ttl-pos (suc k * 10 ^ 9) (omega arith), omega arith)
