-- ===== src/Scaling/Up/Growth.antt =====
-- What AddRole and AddServingGroup leave of the groups' revisions and status, for the scale up of
-- pkg/model-serving-controller/controller/model_serving_controller.go
use kthena.Common.{
  ℕ, ◌≡◌, refl, Bool, true, false, Option, none, some, Text, text_eq, ◌==◌, ==-iff, ==-refl, arith,
  Bool-cases, Option-cases, inl, inr, ◌∙◌, sym, ap,
}
use kthena.Common.Dict.{lookup, lookup-insert}
use kthena.GroupStore.{
  NamespacedName, name_eq, ServingGroupStatus, ServingGroup, Store, get_or, find_group, put_group,
  put_role,
}
use kthena.GroupStore.Ops.{add_serving_group, add_role, fresh_group, ensure_role}
use kthena.GroupStore.Reads.{groups_of, find-groups_of, find-put_group}
use kthena.GroupStore.Ordinal.{generate_serving_group_name}

-- The revision and the status of a ServingGroup.
abbrev pub Brief : Type 0
Brief = Text × ServingGroupStatus

abbrev pub brief_of : Option ServingGroup → Option Brief
brief_of none = none
brief_of (some group) = some (group.revision, group.status)

abbrev pub find_brief : Store → NamespacedName → Text → Option Brief
find_brief s m name = brief_of (find_group s m name)

-- A ServingGroup that is created if it is missing.
abbrev pub or_else : Option Brief → Option Brief → Option Brief
or_else (some b) other = some b
or_else none other = other

abbrev pub fresh_if : Bool → Text → Option Brief
fresh_if true revision = some (revision, ServingGroupStatus.creating)
fresh_if false revision = none

pub or_else-none : (o : Option Brief) → or_else o none ≡ o
or_else-none none = refl
or_else-none (some b) = refl

module _ (m : NamespacedName) (revision : Text) where
  -- A role that is added leaves the group's revision and status.
  base_brief :
      (o : Option ServingGroup) (g r i hash : Text)
      → brief_of (some (ensure_role (get_or o (fresh_group g revision)) r i revision hash))
        ≡ or_else (brief_of o) (some (revision, ServingGroupStatus.creating))
  unfolding ensure_role put_role
  base_brief none g r i hash = refl
  base_brief (some group) g r i hash = refl

  present_case :
      (s : Store) (ordinal : ℕ) (name : Text) (group : ServingGroup)
      → lookup (generate_serving_group_name m.name ordinal) (groups_of s m) ≡ some group
      → find_brief (add_serving_group s m ordinal revision) m name
        ≡ or_else
            (find_brief s m name)
            (fresh_if (generate_serving_group_name m.name ordinal == name) revision)
  unfolding add_serving_group
  present_case s ordinal name group present =
      let g = generate_serving_group_name m.name ordinal in
      let s' = add_serving_group s m ordinal revision in
      let kept : find_group s' m name ≡ find_group s m name = ground (
        arith,
        present,
        find-groups_of s m name,
        find-groups_of s' m name,
        lookup-insert m m (groups_of s m) s.serving_group,
        ==-refl m,
      ) in
      elim (Bool-cases (g == name)) [
        | inl same ↦
            let there : find_group s m name ≡ some group =
              find-groups_of s m name
              ∙ ap (λ k. lookup k (groups_of s m)) (sym ((==-iff g name).0 same))
              ∙ present in
            rw (same, kept, there) refl
        | inr other ↦ rw (other, kept) (sym (or_else-none (find_brief s m name)))
      ]

  put_group-brief :
      (s : Store) (g name : Text) (group : ServingGroup)
      → brief_of (some group)
        ≡ or_else
            (brief_of (lookup g (groups_of s m)))
            (some (revision, ServingGroupStatus.creating))
      → find_brief (put_group s m (groups_of s m) g group) m name
        ≡ or_else (find_brief s m name) (fresh_if (g == name) revision)
  put_group-brief s g name group e = elim (Bool-cases (g == name)) [
    | inl same ↦
        let key = (==-iff g name).0 same in
        let written : find_group (put_group s m (groups_of s m) g group) m name ≡ some group =
          ground (arith, find-put_group s m m g name group, ==-refl m, same) in
        let before : lookup g (groups_of s m) ≡ find_group s m name =
          ap (λ k. lookup k (groups_of s m)) key ∙ sym (find-groups_of s m name) in
        rw (same, written)
          (e ∙ ap (λ o. or_else (brief_of o) (some (revision, ServingGroupStatus.creating))) before)
    | inr other ↦
        let kept : find_group (put_group s m (groups_of s m) g group) m name ≡ find_group s m name =
          ground (arith, find-put_group s m m g name group, other) in
        rw (other, kept) (sym (or_else-none (find_brief s m name)))
  ]

  pub add_group-brief :
      (s : Store) (ordinal : ℕ) (name : Text)
      → find_brief (add_serving_group s m ordinal revision) m name
        ≡ or_else
            (find_brief s m name)
            (fresh_if (generate_serving_group_name m.name ordinal == name) revision)
  unfolding add_serving_group
  add_group-brief s ordinal name =
      let g = generate_serving_group_name m.name ordinal in
      elim (Option-cases (lookup g (groups_of s m))) [
        | inl absent ↦
            let added : add_serving_group s m ordinal revision
                ≡ put_group s m (groups_of s m) g (fresh_group g revision) =
              ground (arith, absent) in
            rw added (put_group-brief s g name (fresh_group g revision) (rw absent refl))
        | inr (group, present) ↦ present_case s ordinal name group present
      ]

  pub add_role-brief :
      (s : Store) (g r i hash name : Text)
      → find_brief (add_role s m g r i revision hash) m name
        ≡ or_else (find_brief s m name) (fresh_if (g == name) revision)
  unfolding add_role
  add_role-brief s g r i hash name =
      put_group-brief s g name _ (base_brief (lookup g (groups_of s m)) g r i hash)
