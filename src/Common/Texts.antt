-- ===== src/Common/Texts.antt =====
-- Go strings as their bytes, and decimal text (`strconv.Itoa`, and `strconv.ParseInt` in base 10
-- and 32 bits on a text of digits).
use Prim.Native.Nat.{ℕ, zero, suc, ◌+◌, ◌-◌, ◌*◌, ◌/◌, ◌%◌, ◌^◌, ◌≤◌, ◌<◌}
use Prim.Native.Char.{code}
use Prim.Native.String.{String}
use mathlib.Core.Path.{◌≡◌, refl, ap, ◌∙◌}
use mathlib.Core.Logic.{◌↔◌, inl, inr}
use mathlib.Core.Bool.{Bool, true, false, ◌&&◌}
use mathlib.Core.Option.{Option, none, some}
use mathlib.Core.List.{List, [], ◌∷◌, ◌++◌}
use native.Mathlib.Omega.{arith}
use kthena.Common.Tests.{Eq, nat_eq, nat_beq, ltb, leb, if◌then◌else◌, Bool-cases, ltb-false→le}

abbrev pub Text : Type 0
Text = List ℕ

-- The bytes of an ASCII literal.
abbrev pub codes : String → Text
codes String.[] = []
codes (String.◌∷◌ c s) = code c ∷ codes s

abbrev pub text_beq : Text → Text → Bool
text_beq [] [] = true
text_beq [] (d ∷ t) = false
text_beq (c ∷ s) [] = false
text_beq (c ∷ s) (d ∷ t) = nat_beq c d && text_beq s t

pub text_beq_iff : (s t : Text) → (text_beq s t ≡ true) ↔ (s ≡ t)
text_beq_iff [] [] = ground arith
text_beq_iff [] (d ∷ t) = ground arith
text_beq_iff (c ∷ s) [] = ground arith
text_beq_iff (c ∷ s) (d ∷ t) = ground (arith, text_beq_iff s t)

instance abbrev pub text_eq : Eq Text
text_eq = record { same = text_beq; same_iff = text_beq_iff }

-- `strings.HasPrefix`
unfoldable pub has_prefix : Text → Text → Bool
has_prefix s [] = true
has_prefix [] (d ∷ t) = false
has_prefix (c ∷ s) (d ∷ t) = nat_beq c d && has_prefix s t

pub has_prefix-append : (s t : Text) → has_prefix (t ++ s) t ≡ true
unfolding has_prefix
has_prefix-append s [] = refl
has_prefix-append s (d ∷ t) = ground (arith, has_prefix-append s t)

pub has_prefix_rest : (s t : Text) → has_prefix s t ≡ true → (r : Text) × (s ≡ t ++ r)
unfolding has_prefix
has_prefix_rest s [] h = (s, refl)
has_prefix_rest [] (d ∷ t) h = cc
has_prefix_rest (c ∷ s) (d ∷ t) h =
    let (r, e) = has_prefix_rest s t (ground arith) in (r, ground arith)

unfoldable pub is_digit : ℕ → Bool
is_digit c = leb b'0' c && leb c b'9'

unfoldable pub all_digits : Text → Bool
unfolding is_digit
all_digits [] = true
all_digits (c ∷ s) = is_digit c && all_digits s

-- Each round puts the last digit in front of the output.
digits : ℕ → ℕ → Text → Text
digits zero n out = out
digits (suc k) n out =
    let rest = digits k (n / 10) ((b'0' + n % 10) ∷ out) in
    if ltb n 10 then (b'0' + n) ∷ out else rest

unfoldable pub itoa : ℕ → Text
unfolding digits
itoa n = digits (suc n) n []

-- The number that a text of digits stands for, after `acc`.
unfoldable pub decimal : ℕ → Text → ℕ
decimal acc [] = acc
decimal acc (c ∷ s) = decimal (acc * 10 + (c - b'0')) s

abbrev pub max_int32 : ℕ
max_int32 = 2 ^ 31 - 1

-- A value that does not fit is an error.
unfoldable pub parse_int32 : Text → Option ℕ
parse_int32 s = if leb (decimal 0 s) max_int32 then some (decimal 0 s) else none

decimal-digits : (k n : ℕ) (out : Text) → n < k → decimal 0 (digits k n out) ≡ decimal n out
unfolding digits decimal
decimal-digits zero n out h = absurd (omega arith)
decimal-digits (suc k) n out h = elim (Bool-cases (ltb n 10)) [
  | inl last ↦ rw last (ap (λ m. decimal m out) (omega arith))
  | inr more ↦
      let h' : n / 10 < k = omega (arith, ltb-false→le n 10 more) in
      rw more (
        decimal-digits k (n / 10) ((b'0' + n % 10) ∷ out) h'
        ∙ ap (λ m. decimal m out) (omega arith))
]

pub decimal-itoa : (n : ℕ) → decimal 0 (itoa n) ≡ n
unfolding itoa decimal
decimal-itoa n = decimal-digits (suc n) n [] (omega arith)

pub parse_int32-itoa : (n : ℕ) → n ≤ max_int32 → parse_int32 (itoa n) ≡ some n
unfolding parse_int32
parse_int32-itoa n h = rw (decimal-itoa n) (ground arith)

all_digits-digits :
    (k n : ℕ) (out : Text) → all_digits out ≡ true → all_digits (digits k n out) ≡ true
unfolding digits all_digits
all_digits-digits zero n out h = h
all_digits-digits (suc k) n out h = elim (Bool-cases (ltb n 10)) [
  | inl last ↦ rw last (ground arith)
  | inr more ↦ rw more (all_digits-digits k (n / 10) ((b'0' + n % 10) ∷ out) (ground arith))
]

pub all_digits-itoa : (n : ℕ) → all_digits (itoa n) ≡ true
unfolding itoa all_digits
all_digits-itoa n = all_digits-digits (suc n) n [] refl

digits-ne-nil :
    (k n : ℕ) (c : ℕ) (out : Text) → (d : ℕ) × (s : Text) × (digits k n (c ∷ out) ≡ d ∷ s)
unfolding digits
digits-ne-nil zero n c out = (c, out, refl)
digits-ne-nil (suc k) n c out = elim (Bool-cases (ltb n 10)) [
  | inl last ↦ rw last (b'0' + n, c ∷ out, refl)
  | inr more ↦ rw more (digits-ne-nil k (n / 10) (b'0' + n % 10) (c ∷ out))
]

pub itoa-ne-nil : (n : ℕ) → (d : ℕ) × (s : Text) × (itoa n ≡ d ∷ s)
unfolding itoa digits
itoa-ne-nil n = elim (Bool-cases (ltb n 10)) [
  | inl last ↦ rw last (b'0' + n, [], refl)
  | inr more ↦ rw more (digits-ne-nil n (n / 10) (b'0' + n % 10) [])
]
