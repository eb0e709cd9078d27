-- ===== src/GroupStore/Ordinal.antt =====
-- pkg/model-serving-controller/utils/utils.go: the names of ServingGroups and Roles, and the
-- ordinals that are read back from them.
use kthena.Common.{
  ℕ, ◌≤◌, ◌≡◌, refl, true, false, All, ◌&&◌, Option, none, some, [], ◌∷◌, ◌++◌, arith, Text,
  nat_beq, if◌then◌else◌, itoa, all_digits, is_digit, parse_int32, max_int32, parse_int32-itoa,
  all_digits-itoa, itoa-ne-nil,
}
use kthena.Common.Int.{ℤ, pos, negsuc}

unfoldable pub generate_serving_group_name : Text → ℕ → Text
generate_serving_group_name mi_name idx = mi_name ++ (b'-' ∷ itoa idx)

unfoldable pub generate_role_id : Text → ℕ → Text
generate_role_id role_name idx = role_name ++ (b'-' ∷ itoa idx)

-- The second part of the expression: `-([0-9]+)$`.
dash_digits : Text → Option Text
dash_digits [] = none
dash_digits (c ∷ []) = none
dash_digits (c ∷ d ∷ s) = if nat_beq c b'-' && all_digits (d ∷ s) then some (d ∷ s) else none

abbrev submatches : Option Text → Option (Text × Text)
submatches (some ds) = some ([], ds)
submatches none = none

-- All of the text before the last dash, and the digits behind it.
last_dash : Text → Option (Text × Text)
unfolding dash_digits
last_dash [] = none
last_dash (c ∷ s) =
    let here = submatches (dash_digits (c ∷ s)) in
    elim (last_dash s) [ some (p, ds) ↦ some (c ∷ p, ds) | none ↦ here ]

newline : ℕ
newline = 10

-- The text behind the last newline, if there is one.
after_newline : Text → Option Text
unfolding newline
after_newline [] = none
after_newline (c ∷ s) =
    let here = if nat_beq c newline then some s else none in
    elim (after_newline s) [ some r ↦ some r | none ↦ here ]

-- The submatches of `(.*)-([0-9]+)$`: the first part takes as much as it can, and no newline.
unfoldable pub find_string_submatch : Text → Option (Text × Text)
unfolding last_dash after_newline
find_string_submatch s = elim (last_dash s) [
  | none ↦ none
  | some (p, ds) ↦ some ((elim (after_newline p) [ none ↦ p | some r ↦ r ]), ds)
]

ordinal_of : Option ℕ → ℤ
ordinal_of (some i) = pos i
ordinal_of none = negsuc 0

unfoldable pub get_parent_name_and_ordinal : Text → Text × ℤ
unfolding find_string_submatch ordinal_of
get_parent_name_and_ordinal group_name = elim (find_string_submatch group_name) [
  | none ↦ ([], negsuc 0)
  | some (parent, ds) ↦ (parent, ordinal_of (parse_int32 ds))
]

dash_digits-digit : (c : ℕ) (s : Text) → is_digit c ≡ true → dash_digits (c ∷ s) ≡ none
unfolding dash_digits is_digit
dash_digits-digit c [] h = refl
dash_digits-digit c (d ∷ s) h = ground arith

dash-here :
    (c : ℕ) (s : Text) → last_dash s ≡ none → last_dash (c ∷ s) ≡ submatches (dash_digits (c ∷ s))
unfolding last_dash
dash-here c s h = rw h

dash-all_digits : (s : Text) → all_digits s ≡ true → last_dash s ≡ none
unfolding last_dash all_digits
dash-all_digits [] h = refl
dash-all_digits (c ∷ s) h =
    rw (dash-here c s (dash-all_digits s (ground arith)), dash_digits-digit c s (ground arith))

dash_found :
    (d : ℕ) (s : Text)
    → all_digits (d ∷ s) ≡ true
    → submatches (dash_digits (b'-' ∷ d ∷ s)) ≡ some ([], d ∷ s)
unfolding dash_digits
dash_found d s h = rw h

dash-append :
    (p : Text) (d : ℕ) (s : Text)
    → all_digits (d ∷ s) ≡ true
    → last_dash (p ++ (b'-' ∷ d ∷ s)) ≡ some (p, d ∷ s)
unfolding last_dash
dash-append [] d s h = rw (dash-here b'-' (d ∷ s) (dash-all_digits (d ∷ s) h)) (dash_found d s h)
dash-append (c ∷ p) d s h = rw (dash-append p d s h)

after_newline-none : (s : Text) → All (λ c. nat_beq c 10 ≡ false) s → after_newline s ≡ none
unfolding after_newline newline
after_newline-none [] h = refl
after_newline-none (c ∷ s) h = ground (arith, h.0, after_newline-none s h.1)

find-generated :
    (name : Text) (d : ℕ) (s : Text)
    → All (λ c. nat_beq c 10 ≡ false) name
    → all_digits (d ∷ s) ≡ true
    → find_string_submatch (name ++ (b'-' ∷ d ∷ s)) ≡ some (name, d ∷ s)
unfolding find_string_submatch
find-generated name d s h digits =
    ground (arith, dash-append name d s digits, after_newline-none name h)

-- The parent and the ordinal that a generated ServingGroup name was made from are read back from
-- it, for every parent name without a newline and every index that fits an int32.
pub ordinal-generate :
    (name : Text) (idx : ℕ)
    → All (λ c. nat_beq c 10 ≡ false) name
    → idx ≤ max_int32
    → get_parent_name_and_ordinal (generate_serving_group_name name idx) ≡ (name, pos idx)
unfolding get_parent_name_and_ordinal generate_serving_group_name
ordinal-generate name idx line h =
    let (d, s, e) = itoa-ne-nil idx in
    let digits = rw e at (all_digits-itoa idx) in
    let fits = rw e at (parse_int32-itoa idx h) in
    rw (e, find-generated name d s line digits, get_parent_name_and_ordinal, fits)
