-- ===== src/GroupStore/Listing.antt =====
-- The sorted listing of the ServingGroups: GetServingGroupByModelServing of
-- pkg/model-serving-controller/datastore/store.go
use mathlib.Core.List.{Mem, Pairwise, mem-cons, not-mem-nil, mem-cons_of_mem}
use mathlib.Core.List.Perm
use mathlib.Core.Logic.Or
use kthena.Common.{
  Option, none, some, List, [], ◌∷◌, Text, text_eq, ◌==◌, ◌≡◌, ◌∙◌, sym, ◌⊎◌, ◌↔◌, inl, inr, arith,
  ap, Option-cases, Bool-cases, ==-iff,
}
use kthena.Common.Int.{◌≤ℤ◌, ◌-ℤ◌}
use kthena.Common.Dict.{Dict, lookup}
use kthena.GroupStore.{
  NamespacedName, name_eq, ServingGroup, Store, serving_group_not_found, ok, err, find_group,
}
use kthena.GroupStore.Ops.{SortFunc, values, ordinal, get_serving_group_by_model_serving}
use kthena.GroupStore.Valid.{GroupsValid, IsValid, GroupsValid-at}

ServingGroup-set : IsSet (Option ServingGroup)
ServingGroup-set = hlevel

mem→lookup :
    (group : ServingGroup) (groups : Dict Text ServingGroup)
    → GroupsValid groups
    → Mem group (values groups)
    → lookup group.name groups ≡ some group
unfolding lookup
mem→lookup group [] v m = absurd (not-mem-nil m)
mem→lookup group ((k, w) ∷ groups) v m =
    Or.elim (ServingGroup-set _ _) (mem-cons.0 m)
      (λ here.
        let key : k ≡ group.name = sym v.1.0.0 ∙ ap (λ g. g.name) (sym here) in
        rw ((==-iff k group.name).1 key) (ap some (sym here)))
      (λ there.
        let ih = mem→lookup group groups (v.0.1, v.1.1) there in
        ground (arith, ih, v.0.0, ==-iff k group.name))

lookup→mem :
    (name : Text) (group : ServingGroup) (groups : Dict Text ServingGroup)
    → lookup name groups ≡ some group
    → Mem group (values groups)
unfolding lookup
lookup→mem name group [] e = cc
lookup→mem name group ((k, w) ∷ groups) e = elim (Bool-cases (k == name)) [
  | inl same ↦ let here : group ≡ w = ground arith in mem-cons.1 (Or.inl here)
  | inr other ↦ mem-cons_of_mem w (lookup→mem name group groups (rw other at e))
]

-- In a store that keeps its invariant, GetServingGroupByModelServing fails exactly when the
-- ModelServing has no entry; otherwise it returns the groups in ascending order of the ordinals
-- in their names, and a group is in the list exactly when it is stored under its name.
pub listing_lem :
    (slices : SortFunc) (s : Store) (m : NamespacedName)
    → IsValid s
    → ((lookup m s.serving_group ≡ none)
        × (get_serving_group_by_model_serving slices s m ≡ err serving_group_not_found))
      ⊎ ((l : List ServingGroup) × (get_serving_group_by_model_serving slices s m ≡ ok l)
          × Pairwise (λ a b. ordinal a.name ≤ℤ ordinal b.name) l
          × ((group : ServingGroup) → Mem group l ↔ (find_group s m group.name ≡ some group)))
unfolding get_serving_group_by_model_serving find_group
listing_lem slices s m v = elim (Option-cases (lookup m s.serving_group)) [
  | inl e ↦ inl (e, rw e)
  | inr (groups, e) ↦
      let vg : GroupsValid groups = rw e at (GroupsValid-at s m v) in
      let same = slices.sort-perm (λ a b. ordinal a.name -ℤ ordinal b.name) (values groups) in
      inr (
        slices.sort (λ a b. ordinal a.name -ℤ ordinal b.name) (values groups),
        rw e,
        slices.sort-sorted (λ a. ordinal a.name) (values groups),
        λ group.
            rw (e, find_group)
              (
                λ inside. mem→lookup group groups vg ((Perm.mem_iff same).0 inside),
                λ found. (Perm.mem_iff same).1 (lookup→mem group.name group groups found),
              ),
      )
]
