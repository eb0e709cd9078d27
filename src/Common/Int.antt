-- ===== src/Common/Int.antt =====
-- Signed integers over the native numbers, and the wrap-around of Go's `int32`.
use Prim.Native.Nat.{ℕ, suc, ◌+◌, ◌-◌, ◌*◌, ◌/◌, ◌%◌, ◌^◌, ◌≤◌, ◌<◌}
use mathlib.Core.Path.{◌≡◌}
use mathlib.Core.Bool.{Bool}
use native.Mathlib.Omega.{arith}
use kthena.Common.Tests.{ltb, leb, nat_beq, if◌then◌else◌}

-- `negsuc n` is -(n + 1).
pub data ℤ : Type 0 where
  pos : ℕ → ℤ
  negsuc : ℕ → ℤ

abbrev pub pos_part : ℤ → ℕ
pos_part (pos n) = n
pos_part (negsuc n) = 0

abbrev pub neg_part : ℤ → ℕ
neg_part (pos n) = 0
neg_part (negsuc n) = suc n

-- a - b, as an integer.
abbrev pub sub_ℕ : ℕ → ℕ → ℤ
sub_ℕ a b = if leb b a then pos (a - b) else negsuc (b - a - 1)

infixl 65 ◌+ℤ◌ ◌-ℤ◌
infixl 70 ◌*ℤ◌
infix 50 ◌≤ℤ◌ ◌<ℤ◌
unfoldable pub ◌+ℤ◌ : ℤ → ℤ → ℤ
a +ℤ b = sub_ℕ (pos_part a + pos_part b) (neg_part a + neg_part b)

unfoldable pub ◌-ℤ◌ : ℤ → ℤ → ℤ
a -ℤ b = sub_ℕ (pos_part a + neg_part b) (neg_part a + pos_part b)

unfoldable pub ◌*ℤ◌ : ℤ → ℤ → ℤ
a *ℤ b =
    sub_ℕ (pos_part a * pos_part b + neg_part a * neg_part b)
      (pos_part a * neg_part b + neg_part a * pos_part b)

abbrev pub ◌≤ℤ◌ : ℤ → ℤ → Type 0
a ≤ℤ b = pos_part a + neg_part b ≤ pos_part b + neg_part a

abbrev pub ◌<ℤ◌ : ℤ → ℤ → Type 0
a <ℤ b = pos_part a + neg_part b < pos_part b + neg_part a

abbrev pub ltb_ℤ : ℤ → ℤ → Bool
ltb_ℤ a b = ltb (pos_part a + neg_part b) (pos_part b + neg_part a)

abbrev pub eqb_ℤ : ℤ → ℤ → Bool
eqb_ℤ a b = nat_beq (pos_part a + neg_part b) (pos_part b + neg_part a)

-- Go's `min` and `max`.
unfoldable pub min_ℤ : ℤ → ℤ → ℤ
min_ℤ a b = if ltb_ℤ b a then b else a

unfoldable pub max_ℤ : ℤ → ℤ → ℤ
max_ℤ a b = if ltb_ℤ a b then b else a

-- Go's `/`, which rounds towards zero, by a positive number.
unfoldable pub quot_ℤ : ℤ → ℕ → ℤ
quot_ℤ (pos n) d = pos (n / d)
quot_ℤ (negsuc n) d = sub_ℕ 0 (suc n / d)

-- The `int32` with the low 32 bits of a value: r stands for the bits.
abbrev pub signed32 : ℕ → ℤ
signed32 r = if ltb r (2 ^ 31) then pos r else negsuc (2 ^ 32 - 1 - r)

unfoldable pub wrap32 : ℤ → ℤ
wrap32 (pos n) = signed32 (n % 2 ^ 32)
wrap32 (negsuc n) = signed32 (2 ^ 32 - 1 - n % 2 ^ 32)

abbrev pub min_int32 : ℤ
min_int32 = negsuc (2 ^ 31 - 1)

abbrev pub max_int32 : ℤ
max_int32 = pos (2 ^ 31 - 1)

abbrev pub IsInt32 : ℤ → Type 0
IsInt32 a = (min_int32 ≤ℤ a) × (a ≤ℤ max_int32)

pub wrap32_of_IsInt32 : (a : ℤ) → IsInt32 a → wrap32 a ≡ a
unfolding wrap32
wrap32_of_IsInt32 (pos n) h = ground arith
wrap32_of_IsInt32 (negsuc n) h = ground arith

pub wrap32-IsInt32 : (a : ℤ) → IsInt32 (wrap32 a)
unfolding wrap32
wrap32-IsInt32 (pos n) = (ground arith, ground arith)
wrap32-IsInt32 (negsuc n) = (ground arith, ground arith)

pub +ℤ_parts :
    (a b : ℤ)
    → pos_part (a +ℤ b) + neg_part a + neg_part b ≡ neg_part (a +ℤ b) + pos_part a + pos_part b
unfolding ◌+ℤ◌
+ℤ_parts a b = ground arith

pub -ℤ_parts :
    (a b : ℤ)
    → pos_part (a -ℤ b) + neg_part a + pos_part b ≡ neg_part (a -ℤ b) + pos_part a + neg_part b
unfolding ◌-ℤ◌
-ℤ_parts a b = ground arith

pub eq_of_parts : (a b : ℤ) → pos_part a + neg_part b ≡ pos_part b + neg_part a → a ≡ b
eq_of_parts a b h = ground arith

pub min_le_left : (a b : ℤ) → min_ℤ a b ≤ℤ a
unfolding min_ℤ
min_le_left a b = ground arith

pub min_le_right : (a b : ℤ) → min_ℤ a b ≤ℤ b
unfolding min_ℤ
min_le_right a b = ground arith

pub min-greatest : (a b c : ℤ) → c ≤ℤ a → c ≤ℤ b → c ≤ℤ min_ℤ a b
unfolding min_ℤ
min-greatest a b c h k = ground arith

pub le_max_left : (a b : ℤ) → a ≤ℤ max_ℤ a b
unfolding max_ℤ
le_max_left a b = ground arith

pub le_max_right : (a b : ℤ) → b ≤ℤ max_ℤ a b
unfolding max_ℤ
le_max_right a b = ground arith

pub max-least : (a b c : ℤ) → a ≤ℤ c → b ≤ℤ c → max_ℤ a b ≤ℤ c
unfolding max_ℤ
max-least a b c h k = ground arith

pub ruleset int_laws = (arith, +ℤ_parts, -ℤ_parts, eq_of_parts)

-- The `int` with the low 64 bits of a value.
abbrev signed64 : ℕ → ℤ
signed64 r = if ltb r (2 ^ 63) then pos r else negsuc (2 ^ 64 - 1 - r)

unfoldable pub wrap64 : ℤ → ℤ
wrap64 (pos n) = signed64 (n % 2 ^ 64)
wrap64 (negsuc n) = signed64 (2 ^ 64 - 1 - n % 2 ^ 64)

-- Go's `cmp.Compare`.
unfoldable pub compare_ℤ : ℤ → ℤ → ℤ
compare_ℤ a b = if ltb_ℤ a b then negsuc 0 else if ltb_ℤ b a then pos 1 else pos 0
