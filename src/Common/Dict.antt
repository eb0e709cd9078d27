-- ===== src/Common/Dict.antt =====
-- Go maps as association lists: a key is written in place, a new key is put at the end.
use kthena.Common.Tests.{Eq, ◌==◌, ==-refl, ==-iff, Bool-cases, if◌then◌else◌}
use kthena.Common.Lists.{length, All}
use Prim.Native.Nat.{◌+◌}
use mathlib.Core.Path.{◌≡◌, refl, sym, subst, subst₂}
use mathlib.Core.Logic.{inl, inr}
use mathlib.Core.Bool.{Bool, true, false}
use mathlib.Core.Option.{Option, none, some}
use mathlib.Core.List.{List, [], ◌∷◌}
use native.Mathlib.Omega.{arith}

abbrev pub Dict {ℓ} : Type ℓ → Type ℓ → Type ℓ
Dict K V = List (K × V)

module _ {ℓ} {K V : Type ℓ} ⦃e : Eq K⦄ where
  -- `m[k]`
  unfoldable pub lookup : K → Dict K V → Option V
  lookup k [] = none
  lookup k ((j, v) ∷ m) = if j == k then some v else lookup k m

  -- `m[k] = v`
  unfoldable pub insert : K → V → Dict K V → Dict K V
  insert k v [] = (k, v) ∷ []
  insert k v ((j, w) ∷ m) = if j == k then (j, v) ∷ m else (j, w) ∷ insert k v m

  -- `delete(m, k)`
  unfoldable pub delete : K → Dict K V → Dict K V
  delete k [] = []
  delete k ((j, w) ∷ m) = let rest = delete k m in if j == k then rest else (j, w) ∷ rest

  -- `_, ok := m[k]`
  unfoldable pub has : K → Dict K V → Bool
  has k [] = false
  has k ((j, v) ∷ m) = if j == k then true else has k m

  -- A read after a write of the key `put`.
  pub lookup-insert :
      (put read : K) (value : V) (m : Dict K V)
      → lookup read (insert put value m) ≡ (if put == read then some value else lookup read m)
  unfolding insert lookup
  lookup-insert put read value [] = refl
  lookup-insert put read value ((key, old) ∷ m) =
      let rest = lookup-insert put read value m in
      ground (arith, rest, ==-iff put read, ==-iff key put, ==-iff key read)

  pub lookup-insert_self : (k : K) (v : V) (m : Dict K V) → lookup k (insert k v m) ≡ some v
  lookup-insert_self k v m = rw (lookup-insert k k v m, ==-refl k)

  pub lookup-delete :
      (k j : K) (m : Dict K V) → lookup j (delete k m) ≡ (if k == j then none else lookup j m)
  unfolding lookup delete
  lookup-delete k j [] = ground arith
  lookup-delete k j ((i, w) ∷ m) =
      ground (arith, ==-iff k j, ==-iff i k, ==-iff i j, lookup-delete k j m)

  pub has-lookup :
      (k : K) (m : Dict K V) → has k m ≡ (elim (lookup k m) [ some _ ↦ true | none ↦ false ])
  unfolding lookup has
  has-lookup k [] = refl
  has-lookup k ((i, w) ∷ m) = ground (arith, has-lookup k m)

  -- No key stands twice.
  abbrev pub Distinct : Dict K V → Type ℓ
  Distinct [] = Unit
  Distinct ((k, v) ∷ m) = (lookup k m ≡ none) × Distinct m

  pub insert-Distinct : (k : K) (v : V) (m : Dict K V) → Distinct m → Distinct (insert k v m)
  unfolding lookup insert
  insert-Distinct k v [] d = (refl, tt)
  insert-Distinct k v ((i, w) ∷ m) d = elim (Bool-cases (i == k)) [
    | inl same ↦ rw same d
    | inr other ↦
        rw other
          (ground (arith, lookup-insert k i v m, ==-iff i k, ==-iff k i), insert-Distinct k v m d.1)
  ]

  pub delete-Distinct : (k : K) (m : Dict K V) → Distinct m → Distinct (delete k m)
  unfolding lookup delete
  delete-Distinct k [] d = tt
  delete-Distinct k ((i, w) ∷ m) d = elim (Bool-cases (i == k)) [
    | inl same ↦ rw same (delete-Distinct k m d.1)
    | inr other ↦ rw other (ground (arith, lookup-delete k i m), delete-Distinct k m d.1)
  ]

  pub length-insert :
      (k : K) (v : V) (m : Dict K V)
      → length (insert k v m) ≡ (if has k m then length m else length m + 1)
  unfolding insert has
  length-insert k v [] = refl
  length-insert k v ((i, w) ∷ m) = ground (arith, length-insert k v m)

  -- Every entry satisfies `P`.
  abbrev pub Every {κ} : (K → V → Type κ) → Dict K V → Type κ
  Every P m = All (λ kv. P kv.0 kv.1) m

  pub Every-lookup {κ} :
      (P : K → V → Type κ) (k : K) (v : V) (m : Dict K V) → Every P m → lookup k m ≡ some v → P k v
  unfolding lookup
  Every-lookup P k v [] h found = cc
  Every-lookup P k v ((i, w) ∷ m) h found = elim (Bool-cases (i == k)) [
    | inl same ↦
        let key : i ≡ k = (==-iff i k).0 same in
        let value : w ≡ v = ground arith in subst₂ P key value h.0
    | inr other ↦ Every-lookup P k v m h.1 (ground arith)
  ]

  pub Every-insert {κ} :
      (P : K → V → Type κ) (k : K) (v : V) (m : Dict K V)
      → P k v
      → Every P m
      → Every P (insert k v m)
  unfolding insert
  Every-insert P k v [] h a = (h, tt)
  Every-insert P k v ((i, w) ∷ m) h a = elim (Bool-cases (i == k)) [
    | inl same ↦ rw same (subst (λ x. P x v) (sym ((==-iff i k).0 same)) h, a.1)
    | inr other ↦ rw other (a.0, Every-insert P k v m h a.1)
  ]

  pub Every-delete {κ} :
      (P : K → V → Type κ) (k : K) (m : Dict K V) → Every P m → Every P (delete k m)
  unfolding delete
  Every-delete P k [] a = tt
  Every-delete P k ((i, w) ∷ m) a = elim (Bool-cases (i == k)) [
    | inl same ↦ rw same (Every-delete P k m a.1)
    | inr other ↦ rw other (a.0, Every-delete P k m a.1)
  ]
