-- ===== src/Common/Lists.antt =====
-- Lists measured by native numbers, and predicates on lists by recursion.
use Prim.Native.Nat.{ℕ, zero, suc, ◌+◌, ◌≤◌}
use mathlib.Core.Path.{◌≡◌, refl}
use mathlib.Core.Logic.{◌⊎◌, inl, inr}
use mathlib.Core.Bool.{Bool, true, false, not}
use kthena.Common.Tests.{if◌then◌else◌}
use mathlib.Core.List.{List, [], ◌∷◌, ◌++◌}
use native.Mathlib.Omega.{arith}

module _ {ℓ} {A : Type ℓ} where
  abbrev pub length : List A → ℕ
  length [] = 0
  length (x ∷ xs) = suc (length xs)

  pub length-append : (xs ys : List A) → length (xs ++ ys) ≡ length xs + length ys
  length-append [] ys = omega arith
  length-append (x ∷ xs) ys = omega (arith, length-append xs ys)

abbrev pub All {ℓ κ} : {A : Type ℓ} → (A → Type κ) → List A → Type κ
All P [] = Unit
All P (x ∷ xs) = P x × All P xs

pub All-append {ℓ κ} :
    {A : Type ℓ} (P : A → Type κ) (front back : List A)
    → All P front
    → All P back
    → All P (front ++ back)
All-append P [] back first second = second
All-append P (x ∷ front) back first second = (first.0, All-append P front back first.1 second)

pub All-map {ℓ κ κ'} :
    {A : Type ℓ} {P : A → Type κ} {Q : A → Type κ'} (xs : List A)
    → ((x : A) → P x → Q x)
    → All P xs
    → All Q xs
All-map [] f h = tt
All-map (x ∷ xs) f h = (f x h.0, All-map xs f h.1)

pub All-and {ℓ κ κ'} :
    {A : Type ℓ} (P : A → Type κ) (Q : A → Type κ') (xs : List A)
    → All P xs
    → All Q xs
    → All (λ x. P x × Q x) xs
All-and P Q [] h k = tt
All-and P Q (x ∷ xs) h k = ((h.0, k.0), All-and P Q xs h.1 k.1)

-- Some entry of the list satisfies the predicate.
abbrev pub Any {ℓ} : {A : Type ℓ} → (A → Type 0) → List A → Type 0
Any P [] = ⊥
Any P (x ∷ xs) = P x ⊎ Any P xs

pub Any-map {ℓ} :
    {A : Type ℓ} {P : A → Type 0} {Q : A → Type 0} (xs : List A)
    → ((x : A) → P x → Q x)
    → Any P xs
    → Any Q xs
Any-map [] f h = h
Any-map (x ∷ xs) f (inl h) = inl (f x h)
Any-map (x ∷ xs) f (inr h) = inr (Any-map xs f h)

pub Any-append_left {ℓ} :
    {A : Type ℓ} (P : A → Type 0) (xs ys : List A) → Any P xs → Any P (xs ++ ys)
Any-append_left P [] ys h = elim h [ ]
Any-append_left P (x ∷ xs) ys (inl h) = inl h
Any-append_left P (x ∷ xs) ys (inr h) = inr (Any-append_left P xs ys h)

pub Any-append_right {ℓ} :
    {A : Type ℓ} (P : A → Type 0) (xs ys : List A) → Any P ys → Any P (xs ++ ys)
Any-append_right P [] ys h = h
Any-append_right P (x ∷ xs) ys h = inr (Any-append_right P xs ys h)

pub Any-append-cases {ℓ} :
    {A : Type ℓ} (P : A → Type 0) (front back : List A)
    → Any P (front ++ back)
    → Any P front ⊎ Any P back
Any-append-cases P [] back h = inr h
Any-append-cases P (x ∷ front) back (inl h) = inl (inl h)
Any-append-cases P (x ∷ front) back (inr h) = elim (Any-append-cases P front back h) [
  | inl first ↦ inl (inr first)
  | inr second ↦ inr second
]

-- An entry that is somewhere, beside what holds of every entry.
pub Any-with-All {ℓ} :
    {A : Type ℓ} (P Q : A → Type 0) (xs : List A) → Any P xs → All Q xs → Any (λ x. P x × Q x) xs
Any-with-All P Q [] h k = elim h [ ]
Any-with-All P Q (x ∷ xs) (inl h) k = inl (h, k.0)
Any-with-All P Q (x ∷ xs) (inr h) k = inr (Any-with-All P Q xs h k.1)

module _ {ℓ} {A : Type ℓ} where
  abbrev pub take : ℕ → List A → List A
  take zero xs = []
  take (suc n) [] = []
  take (suc n) (x ∷ xs) = x ∷ take n xs

  abbrev pub drop : ℕ → List A → List A
  drop zero xs = xs
  drop (suc n) [] = []
  drop (suc n) (x ∷ xs) = drop n xs

  -- How many entries pass a test, and the list of them.
  abbrev pub count : (A → Bool) → List A → ℕ
  count test [] = 0
  count test (x ∷ xs) = (if test x then 1 else 0) + count test xs

  abbrev pub select : (A → Bool) → List A → List A
  select test [] = []
  select test (x ∷ xs) = let rest = select test xs in if test x then x ∷ rest else rest

  -- Every entry of the one list is related to every entry of the other.
  abbrev pub Pairs {κ} : (A → A → Type κ) → List A → List A → Type κ
  Pairs R xs ys = All (λ x. All (R x) ys) xs

  -- Every entry is related to those behind it.
  abbrev pub Ordered {κ} : (A → A → Type κ) → List A → Type κ
  Ordered R [] = Unit
  Ordered R (x ∷ xs) = All (R x) xs × Ordered R xs

  pub length-count : (xs : List A) → length xs ≡ count (λ _. true) xs
  length-count [] = refl
  length-count (x ∷ xs) = omega (arith, length-count xs)

  pub count-append :
      (test : A → Bool) (xs ys : List A) → count test (xs ++ ys) ≡ count test xs + count test ys
  count-append test [] ys = omega arith
  count-append test (x ∷ xs) ys = omega (arith, count-append test xs ys)

  pub count-select :
      (test chosen : A → Bool) (xs : List A)
      → count test (select chosen xs) + count test (select (λ x. not (chosen x)) xs) ≡ count test xs
  count-select test chosen [] = refl
  count-select test chosen (x ∷ xs) = ground (arith, count-select test chosen xs)

  pub count-take-drop :
      (test : A → Bool) (n : ℕ) (xs : List A)
      → count test (take n xs) + count test (drop n xs) ≡ count test xs
  count-take-drop test zero xs = omega arith
  count-take-drop test (suc n) [] = refl
  count-take-drop test (suc n) (x ∷ xs) = omega (arith, count-take-drop test n xs)

  pub All-of_count :
      (test : A → Bool) (xs : List A) → count test xs ≡ 0 → All (λ x. test x ≡ false) xs
  All-of_count test [] h = tt
  All-of_count test (x ∷ xs) h = (ground (arith, h), All-of_count test xs (ground (arith, h)))

  pub count-select_self :
      (chosen : A → Bool) (xs : List A) → count (λ x. not (chosen x)) (select chosen xs) ≡ 0
  count-select_self chosen [] = refl
  count-select_self chosen (x ∷ xs) = ground (arith, count-select_self chosen xs)

  pub count-select-not :
      (chosen : A → Bool) (xs : List A) → count chosen (select (λ x. not (chosen x)) xs) ≡ 0
  count-select-not chosen [] = refl
  count-select-not chosen (x ∷ xs) = ground (arith, count-select-not chosen xs)

  pub length-select :
      (chosen : A → Bool) (xs : List A) → length (select chosen xs) ≡ count chosen xs
  length-select chosen [] = refl
  length-select chosen (x ∷ xs) = ground (arith, length-select chosen xs)

  pub All-take {κ} : (P : A → Type κ) (n : ℕ) (xs : List A) → All P xs → All P (take n xs)
  All-take P zero xs h = tt
  All-take P (suc n) [] h = tt
  All-take P (suc n) (x ∷ xs) h = (h.0, All-take P n xs h.1)

  pub All-drop {κ} : (P : A → Type κ) (n : ℕ) (xs : List A) → All P xs → All P (drop n xs)
  All-drop P zero xs h = h
  All-drop P (suc n) [] h = tt
  All-drop P (suc n) (x ∷ xs) h = All-drop P n xs h.1

  pub Pairs-of_Ordered {κ} :
      (R : A → A → Type κ) (n : ℕ) (xs : List A) → Ordered R xs → Pairs R (take n xs) (drop n xs)
  Pairs-of_Ordered R zero xs h = tt
  Pairs-of_Ordered R (suc n) [] h = tt
  Pairs-of_Ordered R (suc n) (x ∷ xs) h = (All-drop (R x) n xs h.0, Pairs-of_Ordered R n xs h.1)

  pub length-take : (n : ℕ) (xs : List A) → n ≤ length xs → length (take n xs) ≡ n
  length-take zero xs h = refl
  length-take (suc n) [] h = absurd (omega arith)
  length-take (suc n) (x ∷ xs) h = omega (arith, length-take n xs (omega arith))

  pub drop-length : (n : ℕ) (xs : List A) → length xs ≤ n → drop n xs ≡ []
  drop-length zero [] h = refl
  drop-length zero (x ∷ xs) h = absurd (omega arith)
  drop-length (suc n) [] h = refl
  drop-length (suc n) (x ∷ xs) h = drop-length n xs (omega arith)

  pub count-le-length : (test : A → Bool) (xs : List A) → count test xs ≤ length xs
  count-le-length test [] = omega arith
  count-le-length test (x ∷ xs) = ground (arith, count-le-length test xs)
