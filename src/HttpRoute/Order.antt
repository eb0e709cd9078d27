-- ===== src/HttpRoute/Order.antt =====
-- The comparisons of matches are strict orders: pkg/kthena-router/router/httproute_match.go
use kthena.Common.{
  ℕ, ◌≡◌, inl, inr, refl, sym, ◌∙◌, Bool, true, false, not, [], ◌∷◌, ◌==◌, if◌then◌else◌, Text,
  text_eq, text_beq_iff, arith, Bool-cases,
}
use mathlib.Core.Path.{subst}
use kthena.Common.Int.{ℤ, pos, negsuc, ltb_ℤ}
use kthena.HttpRoute.{
  HostnamePrecedence, PathPrecedence, MatchResult, compare_path_specificity,
  compare_path_precedence, compare_hostname_precedence, text_ltb, text_first,
  compare_match_precedence, smaller_first, greater_first, or_else,
}
use kthena.HttpRoute.Matching.{compare_paths}

-- The first argument wins.
abbrev pub beats {ℓ} : {A : Type ℓ} → (A → A → ℤ) → A → A → Bool
beats compare a b = ltb_ℤ (compare a b) (pos 0)

pub record IsPrecedence {ℓ} {A : Type ℓ} (compare : A → A → ℤ) : Type ℓ where
  pub irreflexive : (a : A) → beats compare a a ≡ false
  pub transitive :
      (a b c : A) → beats compare a b ≡ true → beats compare b c ≡ true → beats compare a c ≡ true

-- The three answers of a comparison: negative, zero, positive.
record IsThreeWay {ℓ} {A : Type ℓ} (compare : A → A → ℤ) : Type ℓ where
  zero_self : (a : A) → compare a a ≡ pos 0
  lt-lt :
      (a b c : A) → beats compare a b ≡ true → beats compare b c ≡ true → beats compare a c ≡ true
  lt-eq : (a b c : A) → beats compare a b ≡ true → compare b c ≡ pos 0 → beats compare a c ≡ true
  eq-lt : (a b c : A) → compare a b ≡ pos 0 → beats compare b c ≡ true → beats compare a c ≡ true
  eq-eq : (a b c : A) → compare a b ≡ pos 0 → compare b c ≡ pos 0 → compare a c ≡ pos 0

three_way-IsPrecedence {ℓ} :
    {A : Type ℓ} (compare : A → A → ℤ) → IsThreeWay compare → IsPrecedence compare
three_way-IsPrecedence compare w = record {
  irreflexive = λ a. rw (w.zero_self a) refl;
  transitive = w.lt-lt;
}

ext-IsThreeWay {ℓ} :
    {A : Type ℓ} (c d : A → A → ℤ) → ((a b : A) → d a b ≡ c a b) → IsThreeWay c → IsThreeWay d
ext-IsThreeWay c d e w = record {
  zero_self = λ x. e x x ∙ w.zero_self x;
  lt-lt = λ x y z. rw (e x y, e y z, e x z) (w.lt-lt x y z);
  lt-eq = λ x y z. rw (e x y, e y z, e x z) (w.lt-eq x y z);
  eq-lt = λ x y z. rw (e x y, e y z, e x z) (w.eq-lt x y z);
  eq-eq = λ x y z. rw (e x y, e y z, e x z) (w.eq-eq x y z);
}

or_else-IsThreeWay {ℓ} :
    {A : Type ℓ} (c d : A → A → ℤ)
    → IsThreeWay c
    → IsThreeWay d
    → IsThreeWay (λ a b. or_else (c a b) (d a b))
or_else-IsThreeWay c d v w = record {
  zero_self = λ x. ground (arith, v.zero_self x, w.zero_self x);
  lt-lt = λ x y z h k.
      ground (arith, v.lt-lt x y z, v.lt-eq x y z, v.eq-lt x y z, v.eq-eq x y z, w.lt-lt x y z);
  lt-eq = λ x y z h k. ground (arith, v.lt-eq x y z, v.eq-eq x y z, w.lt-eq x y z);
  eq-lt = λ x y z h k. ground (arith, v.eq-lt x y z, v.eq-eq x y z, w.eq-lt x y z);
  eq-eq = λ x y z h k. ground (arith, v.eq-eq x y z, w.eq-eq x y z);
}

smaller-IsThreeWay {ℓ} :
    {A : Type ℓ} (f : A → ℕ) → IsThreeWay (λ a b. smaller_first (f a) (f b) (pos 0))
smaller-IsThreeWay f = record {
  zero_self = λ x. ground arith;
  lt-lt = λ x y z h k. ground arith;
  lt-eq = λ x y z h k. ground arith;
  eq-lt = λ x y z h k. ground arith;
  eq-eq = λ x y z h k. ground arith;
}

greater-IsThreeWay {ℓ} :
    {A : Type ℓ} (f : A → ℕ) → IsThreeWay (λ a b. greater_first (f a) (f b) (pos 0))
greater-IsThreeWay f = record {
  zero_self = λ x. ground arith;
  lt-lt = λ x y z h k. ground arith;
  lt-eq = λ x y z h k. ground arith;
  eq-lt = λ x y z h k. ground arith;
  eq-eq = λ x y z h k. ground arith;
}

pub text_ltb_self : (s : Text) → text_ltb s s ≡ false
unfolding text_ltb
text_ltb_self [] = refl
text_ltb_self (c ∷ s) = ground (arith, text_ltb_self s)

text_ltb_trans : (s t u : Text) → text_ltb s t ≡ true → text_ltb t u ≡ true → text_ltb s u ≡ true
unfolding text_ltb
text_ltb_trans s [] u h k = cc
text_ltb_trans s (d ∷ t) [] h k = cc
text_ltb_trans [] (d ∷ t) (e ∷ u) h k = refl
text_ltb_trans (c ∷ s) (d ∷ t) (e ∷ u) h k = ground (arith, text_ltb_trans s t u)

-- Two texts of which neither is below the other are equal.
text_ltb_total : (s t : Text) → text_ltb s t ≡ false → text_ltb t s ≡ false → s ≡ t
unfolding text_ltb
text_ltb_total [] [] h k = refl
text_ltb_total [] (d ∷ t) h k = cc
text_ltb_total (c ∷ s) [] h k = cc
text_ltb_total (c ∷ s) (d ∷ t) h k = ground (arith, text_ltb_total s t)

abbrev text_order : Text → Text → ℤ
text_order s t = text_first s t (pos 0)

text_order_eq : (s t : Text) → text_order s t ≡ pos 0 → s ≡ t
unfolding text_first
text_order_eq s t h = text_ltb_total s t (ground arith) (ground arith)

text_order_lt : (s t : Text) → beats text_order s t ≡ true → text_ltb s t ≡ true
unfolding text_first
text_order_lt s t h = ground arith

text_order_of_lt : (s t : Text) → text_ltb s t ≡ true → beats text_order s t ≡ true
unfolding text_first
text_order_of_lt s t h = ground arith

text_order_self : (s : Text) → text_order s s ≡ pos 0
unfolding text_first
text_order_self s = ground (arith, text_ltb_self s)

text-IsThreeWay {ℓ} : {A : Type ℓ} (f : A → Text) → IsThreeWay (λ a b. text_order (f a) (f b))
text-IsThreeWay f = record {
  zero_self = λ x. text_order_self (f x);
  lt-lt = λ x y z h k. text_order_of_lt (f x) (f z) (
      text_ltb_trans (f x) (f y) (f z) (text_order_lt (f x) (f y) h) (text_order_lt (f y) (f z) k));
  lt-eq = λ x y z h k. subst (λ t. beats text_order (f x) t ≡ true) (text_order_eq (f y) (f z) k) h;
  eq-lt = λ x y z h k.
      subst (λ t. beats text_order t (f z) ≡ true) (sym (text_order_eq (f x) (f y) h)) k;
  eq-eq = λ x y z h k. subst (λ t. text_order (f x) t ≡ pos 0) (text_order_eq (f y) (f z) k) h;
}

specificity-IsThreeWay {ℓ} :
    {A : Type ℓ} (f : A → PathPrecedence) → IsThreeWay (λ a b. compare_path_specificity (f a) (f b))
unfolding compare_path_specificity
specificity-IsThreeWay f =
    ext-IsThreeWay _ _ (λ a b. ground arith)
      (or_else-IsThreeWay _ _ (greater-IsThreeWay (λ a. (f a).match_type))
        (greater-IsThreeWay (λ a. (f a).characters)))

hostname-IsThreeWay {ℓ} :
    {A : Type ℓ} (f : A → HostnamePrecedence)
    → IsThreeWay (λ a b. compare_hostname_precedence (f a) (f b))
unfolding compare_hostname_precedence
hostname-IsThreeWay f =
    ext-IsThreeWay _ _ (λ a b. ground arith)
      (or_else-IsThreeWay _ _ (greater-IsThreeWay (λ a. (f a).match_type))
        (greater-IsThreeWay (λ a. (f a).characters)))

pub paths-IsPrecedence : IsPrecedence compare_paths
unfolding compare_path_precedence
paths-IsPrecedence = three_way-IsPrecedence compare_paths (
    or_else-IsThreeWay _ _ (specificity-IsThreeWay (λ a. a.path)) (
      ext-IsThreeWay _ _ (λ a b. ground arith)
        (or_else-IsThreeWay _ _ (smaller-IsThreeWay (λ a. a.path.rule_index))
          (smaller-IsThreeWay (λ a. a.path.match_index)))))

age_and_name-IsThreeWay : IsThreeWay {A = MatchResult} (λ a b.
    or_else (smaller_first a.route.creation_timestamp b.route.creation_timestamp (pos 0)) (
      or_else
        (text_order a.route.namespace b.route.namespace)
        (text_order a.route.name b.route.name)))
age_and_name-IsThreeWay =
    or_else-IsThreeWay _ _ (smaller-IsThreeWay (λ (a : MatchResult). a.route.creation_timestamp)) (
      or_else-IsThreeWay _ _ (text-IsThreeWay (λ a. a.route.namespace))
        (text-IsThreeWay (λ a. a.route.name)))

text_order-else :
    (s t : Text) (rest : ℤ)
    → (if not (s == t) then if text_ltb s t then negsuc 0 else pos 1 else rest)
      ≡ or_else (text_order s t) rest
unfolding text_first
text_order-else s t rest = elim (Bool-cases (s == t)) [
  | inl same ↦
      let e : text_order s t ≡ pos 0 =
        subst (λ u. text_order s u ≡ pos 0) ((text_beq_iff s t).0 same) (text_order_self s) in
      rw (same, e) refl
  | inr other ↦ ground (arith, text_beq_iff s t, text_ltb_total s t)
]

age_and_name_eq :
    (a b : MatchResult)
    → smaller_first a.route.creation_timestamp b.route.creation_timestamp (
        if not (a.route.namespace == b.route.namespace)
        then if text_ltb a.route.namespace b.route.namespace then negsuc 0 else pos 1
        else text_order a.route.name b.route.name)
      ≡ or_else (smaller_first a.route.creation_timestamp b.route.creation_timestamp (pos 0)) (
          or_else
            (text_order a.route.namespace b.route.namespace)
            (text_order a.route.name b.route.name))
age_and_name_eq a b =
    rw (text_order-else a.route.namespace b.route.namespace (text_order a.route.name b.route.name))
      (ground arith)

pub match-IsPrecedence : IsPrecedence compare_match_precedence
unfolding compare_match_precedence
match-IsPrecedence = three_way-IsPrecedence compare_match_precedence (
    or_else-IsThreeWay _ _ (hostname-IsThreeWay (λ a. a.hostname)) (
      or_else-IsThreeWay _ _ (specificity-IsThreeWay (λ a. a.path))
        (ext-IsThreeWay _ _ age_and_name_eq age_and_name-IsThreeWay)))
