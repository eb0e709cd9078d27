-- ===== src/Scaling/Missing.antt =====
-- The ordinals that are visited: forEachMissingOrdinal of
-- pkg/model-serving-controller/controller/model_serving_controller.go
use kthena.Common.{
  ℕ, zero, suc, ◌+◌, ◌<◌, ◌≡◌, refl, Bool, false, not, ◌||◌, List, [], ◌∷◌, nat_beq, if◌then◌else◌,
  arith, take, select,
}
use kthena.Common.Int.{ℤ, pos, negsuc}
use kthena.Scaling.{in_range, found, visit, for_each_missing_ordinal}

-- The numbers from `first` on, `n` of them.
abbrev pub range_from : ℕ → ℕ → List ℕ
range_from zero first = []
range_from (suc n) first = first ∷ range_from n (first + 1)

abbrev pub is_ordinal : ℕ → List ℤ → Bool
is_ordinal i [] = false
is_ordinal i (negsuc n ∷ ordinals) = is_ordinal i ordinals
is_ordinal i (pos n ∷ ordinals) = nat_beq n i || is_ordinal i ordinals

-- The ordinals below the expected count that do not exist, in ascending order.
abbrev pub missing : ℕ → List ℤ → List ℕ
missing expected_count ordinals =
    select (λ i. not (is_ordinal i ordinals)) (range_from expected_count 0)

-- A handler over a list of ordinals, until it says to stop.
abbrev pub fold_until : {S : Type 0} → (S → ℕ → S × Bool) → List ℕ → S → S
fold_until handler [] s = s
fold_until handler (i ∷ ordinals) s =
    let rest = fold_until handler ordinals (handler s i).0 in
    if (handler s i).1 then rest else (handler s i).0

found-in_range :
    (i expected_count : ℕ) (ordinals : List ℤ)
    → i < expected_count
    → found i (in_range expected_count ordinals) ≡ is_ordinal i ordinals
unfolding found in_range
found-in_range i expected_count [] h = refl
found-in_range i expected_count (negsuc n ∷ ordinals) h = found-in_range i expected_count ordinals h
found-in_range i expected_count (pos n ∷ ordinals) h =
    ground (arith, found-in_range i expected_count ordinals h)

module _ {S : Type 0} (handler : S → ℕ → S × Bool) (expected_count limit : ℕ)
    (ordinals : List ℤ) where
  visit-fold_until :
      (left ordinal visited room : ℕ) (s : S)
      → ordinal + left ≡ expected_count
      → visited + room ≡ limit
      → visit handler (in_range expected_count ordinals) limit left ordinal visited s
        ≡ fold_until handler
            (take room (select (λ i. not (is_ordinal i ordinals)) (range_from left ordinal)))
            s
  unfolding visit
  visit-fold_until zero ordinal visited zero s e f = refl
  visit-fold_until zero ordinal visited (suc room) s e f = refl
  visit-fold_until (suc left) ordinal visited zero s e f = ground arith
  visit-fold_until (suc left) ordinal visited (suc room) s e f =
      let there = found-in_range ordinal expected_count ordinals (omega arith) in
      let skip = visit-fold_until left (ordinal + 1) visited (suc room) s (omega arith) f in
      let next =
        visit-fold_until left (ordinal + 1) (visited + 1) room (handler s ordinal).0 (omega arith)
          (omega arith) in
      ground (arith, there, skip, next)

-- The handler meets exactly the first missing ordinals, `limit` of them at most, in ascending order,
-- until it says to stop. Ordinals out of range, repeated or in any order change nothing.
pub for_each_missing_ordinal_lem :
    {S : Type 0} (handler : S → ℕ → S × Bool) (expected_count limit : ℕ) (ordinals : List ℤ) (s : S)
    → for_each_missing_ordinal expected_count ordinals limit handler s
      ≡ fold_until handler (take limit (missing expected_count ordinals)) s
unfolding for_each_missing_ordinal
for_each_missing_ordinal_lem handler expected_count limit ordinals s =
    visit-fold_until handler expected_count limit ordinals expected_count 0 0 limit s (omega arith)
      (omega arith)
