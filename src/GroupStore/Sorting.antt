-- ===== src/GroupStore/Sorting.antt =====
-- A sorting function that fulfils the contract of `slices.SortFunc`, for concrete listings:
-- pkg/model-serving-controller/datastore/store.go
use mathlib.Core.List.{not-mem-nil, Perm, Pairwise, mem-cons}
use mathlib.Core.List.Perm
use mathlib.Core.Logic.Or
use kthena.Common.{true, false, List, [], ◌∷◌, ◌≡◌, inl, inr, arith, Bool-cases, if◌then◌else◌, sym}
use kthena.Common.Int.{ℤ, pos, ◌≤ℤ◌, ◌-ℤ◌, ltb_ℤ, -ℤ_parts}
use mathlib.Core.Path.{subst}
use native.Mathlib.Bridge.{le_prop}
use kthena.GroupStore.Ops.{SortFunc}

not_later : (a b : ℤ) → ltb_ℤ (pos 0) (a -ℤ b) ≡ false → a ≤ℤ b
not_later a b h = let parts = -ℤ_parts a b in ground (arith, h, parts)

is_later : (a b : ℤ) → ltb_ℤ (pos 0) (a -ℤ b) ≡ true → b ≤ℤ a
is_later a b h = let parts = -ℤ_parts a b in ground (arith, h, parts)

le-prop : (a b : ℤ) → IsProp (a ≤ℤ b)
le-prop a b = le_prop

module _ {A : Type 0} where
  insert_by : (A → A → ℤ) → A → List A → List A
  insert_by cmp x [] = x ∷ []
  insert_by cmp x (y ∷ ys) =
      let rest = insert_by cmp x ys in if ltb_ℤ (pos 0) (cmp x y) then y ∷ rest else x ∷ y ∷ ys

  pub sort_by : (A → A → ℤ) → List A → List A
  unfolding insert_by
  sort_by cmp [] = []
  sort_by cmp (x ∷ xs) = insert_by cmp x (sort_by cmp xs)

  insert_by-perm : (cmp : A → A → ℤ) (x : A) (l : List A) → Perm (insert_by cmp x l) (x ∷ l)
  unfolding insert_by
  insert_by-perm cmp x [] = Perm.refl (x ∷ [])
  insert_by-perm cmp x (y ∷ ys) = elim (Bool-cases (ltb_ℤ (pos 0) (cmp x y))) [
    | inl later ↦ rw later (Perm.trans (Perm.cons y (insert_by-perm cmp x ys)) (Perm.swap x y ys))
    | inr here ↦ rw here (Perm.refl (x ∷ y ∷ ys))
  ]

  pub sort_by-perm : (cmp : A → A → ℤ) (l : List A) → Perm (sort_by cmp l) l
  unfolding sort_by
  sort_by-perm cmp [] = Perm.refl []
  sort_by-perm cmp (x ∷ xs) =
      Perm.trans (insert_by-perm cmp x (sort_by cmp xs)) (Perm.cons x (sort_by-perm cmp xs))

  abbrev pub Ordered : (A → ℤ) → List A → Type 0
  Ordered key l = Pairwise (λ a b. key a ≤ℤ key b) l

  insert_by-Ordered :
      (key : A → ℤ) (x : A) (l : List A)
      → Ordered key l
      → Ordered key (insert_by (λ a b. key a -ℤ key b) x l)
  unfolding insert_by
  insert_by-Ordered key x [] p = Pairwise.cons (λ a m. absurd (not-mem-nil m)) Pairwise.nil
  insert_by-Ordered key x (y ∷ ys) (Pairwise.cons h p) =
      elim (Bool-cases (ltb_ℤ (pos 0) (key x -ℤ key y))) [
        | inl later ↦ rw later (
            Pairwise.cons
              (λ a m.
                Or.elim (le-prop (key y) (key a))
                  (mem-cons.0 ((Perm.mem_iff (insert_by-perm (λ a b. key a -ℤ key b) x ys)).0 m))
                  (λ same. subst (λ z. key y ≤ℤ key z) (sym same) (is_later (key x) (key y) later))
                  (λ inside. h a inside))
              (insert_by-Ordered key x ys p))
        | inr here ↦
            let le = not_later (key x) (key y) here in
            rw here (
              Pairwise.cons
                (λ a m.
                  Or.elim (le-prop (key x) (key a)) (mem-cons.0 m)
                    (λ same. subst (λ z. key x ≤ℤ key z) (sym same) le)
                    (λ inside. let up = h a inside in omega (arith, le, up)))
                (Pairwise.cons h p))
      ]

  pub sort_by-Ordered : (key : A → ℤ) (l : List A) → Ordered key (sort_by (λ a b. key a -ℤ key b) l)
  unfolding sort_by
  sort_by-Ordered key [] = Pairwise.nil
  sort_by-Ordered key (x ∷ xs) = insert_by-Ordered key x _ (sort_by-Ordered key xs)

abbrev pub insertion_sort : SortFunc
insertion_sort = record {
  sort = λ cmp l. sort_by cmp l;
  sort-perm = λ cmp l. sort_by-perm cmp l;
  sort-sorted = λ key l. sort_by-Ordered key l;
}
