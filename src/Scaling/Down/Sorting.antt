-- ===== src/Scaling/Down/Sorting.antt =====
-- A sort that fulfils the contract of `slices.SortFunc`, for concrete scale downs.
use kthena.Common.{
  ◌≡◌, refl, Bool, List, [], ◌∷◌, if◌then◌else◌, arith, Bool-cases, inl, inr, All, All-map, count,
  Ordered,
}
use kthena.Common.Int.{ℤ, pos, ltb_ℤ}
use kthena.Scaling.Scores.{Score, NotBehind, IsOrder}
use kthena.Scaling.Down.{SortScores}

module _ (cmp : Score → Score → ℤ) where
  place : Score → List Score → List Score
  place x [] = x ∷ []
  place x (y ∷ ys) =
      let rest = place x ys in if ltb_ℤ (pos 0) (cmp x y) then y ∷ rest else x ∷ y ∷ ys

  unfoldable pub sort_scores : List Score → List Score
  unfolding place
  sort_scores [] = []
  sort_scores (x ∷ xs) = place x (sort_scores xs)

  count-place :
      (x : Score) (l : List Score) (test : Score → Bool)
      → count test (place x l) ≡ count test (x ∷ l)
  unfolding place
  count-place x [] test = refl
  count-place x (y ∷ ys) test = ground (arith, count-place x ys test)

  pub count-sort_scores :
      (l : List Score) (test : Score → Bool) → count test (sort_scores l) ≡ count test l
  unfolding sort_scores
  count-sort_scores [] test = refl
  count-sort_scores (x ∷ xs) test =
      omega (arith, count-place x (sort_scores xs) test, count-sort_scores xs test)

  All-place : (P : Score → Type 0) (x : Score) (l : List Score) → P x → All P l → All P (place x l)
  unfolding place
  All-place P x [] h a = (h, tt)
  All-place P x (y ∷ ys) h a = elim (Bool-cases (ltb_ℤ (pos 0) (cmp x y))) [
    | inl later ↦ rw later (a.0, All-place P x ys h a.1)
    | inr here ↦ rw here (h, a)
  ]

  place-Ordered :
      IsOrder cmp
      → (x : Score) (l : List Score) → Ordered (NotBehind cmp) l
      → Ordered (NotBehind cmp) (place x l)
  unfolding place
  place-Ordered order x [] o = (tt, tt)
  place-Ordered order x (y ∷ ys) o = elim (Bool-cases (ltb_ℤ (pos 0) (cmp x y))) [
    | inl later ↦
        let front : NotBehind cmp y x = elim (order.total y x) [
          | inl fine ↦ fine
          | inr other ↦ cc
        ] in
        rw later (All-place (NotBehind cmp y) x ys front o.0, place-Ordered order x ys o.1)
    | inr here ↦ rw here ((here, All-map ys (λ z h. order.transitive x y z here h) o.0), o)
  ]

  pub sort_scores-Ordered : IsOrder cmp → (l : List Score) → Ordered (NotBehind cmp) (sort_scores l)
  unfolding sort_scores
  sort_scores-Ordered order [] = tt
  sort_scores-Ordered order (x ∷ xs) =
      place-Ordered order x (sort_scores xs) (sort_scores-Ordered order xs)

abbrev pub insertion : SortScores
insertion = record {
  sort = sort_scores;
  count-sort = count-sort_scores;
  sort-Ordered = λ cmp l order. sort_scores-Ordered cmp order l;
}
