-- ===== src/GroupStore/Roles.antt =====
-- The role entries: what each write of the store leaves for every later read.
-- pkg/model-serving-controller/datastore/store.go
use kthena.Common.{
  none, some, Bool, true, Text, text_eq, ◌==◌, ◌≡◌, ◌&&◌, ◌⊎◌, inl, inr, ◌∙◌, sym, arith,
  Option-cases, if◌then◌else◌,
}
use kthena.Common.Dict.{lookup, insert, delete}
use kthena.GroupStore.{
  NamespacedName, name_eq, RoleStatus, Role, ServingGroup, Store, ok, is_err, get_or, find_group,
  find_in_roles, put_group, put_role,
}
use kthena.GroupStore.Ops.{
  update_role_status, delete_role, fresh_group, fresh_role, ensure_role, add_role,
  add_running_pod_to_serving_group, add_serving_group_and_role, update_role_revision,
}
use kthena.GroupStore.Reads.{
  groups_of, ids_of, roles_of, find_role, find_role-put, find_role-delete, find_role_absent,
  find-groups_of, find-ids_of,
}

-- The two keys name one role entry.
abbrev pub same_role :
    NamespacedName → NamespacedName → Text → Text → Text → Text → Text → Text → Bool
same_role m m' g g' r r' i i' = (m == m' && g == g') && (r == r' && i == i')

module _ (s : Store) (m : NamespacedName) (g r i : Text) where
  found_parts :
      {role : Role}
      → find_role s m g r i ≡ some role
      → (group : ServingGroup) × (lookup m s.serving_group ≡ some (groups_of s m))
        × (lookup g (groups_of s m) ≡ some group)
        × (lookup r group.roles ≡ some (ids_of group.roles r))
        × (lookup i (ids_of group.roles r) ≡ some role)
        × (find_group s m g ≡ some group)
  unfolding find_role find_group find_in_roles lookup
  found_parts h = ground arith

  -- A write of an entry that is there, with the other entries as they were.
  abbrev pub Writes : Store → Role → Type 0
  Writes s' role' =
      (m' : NamespacedName) (g' r' i' : Text)
      → find_role s' m' g' r' i'
        ≡ (if same_role m m' g g' r r' i i' then some role' else find_role s m' g' r' i')

  -- The store with the entry written.
  abbrev written : ServingGroup → Role → Store
  written group role =
      put_group s m (groups_of s m) g (put_role group r (ids_of group.roles r) i role)

  written-Writes :
      (group : ServingGroup) (role : Role)
      → group.roles ≡ roles_of (find_group s m g)
      → Writes (written group role) role
  written-Writes group role h m' g' r' i' = find_role-put s m m' g g' r r' i i' group role h

  update_role_status-none :
      (st : RoleStatus)
      → find_role s m g r i ≡ none
      → is_err (update_role_status s m g r i st) ≡ true
  unfolding find_role update_role_status find_group find_in_roles
  update_role_status-none st h = ground arith

  update_role_status-some :
      (st : RoleStatus) (group : ServingGroup) (role : Role)
      → lookup m s.serving_group ≡ some (groups_of s m)
      → lookup g (groups_of s m) ≡ some group
      → lookup r group.roles ≡ some (ids_of group.roles r)
      → lookup i (ids_of group.roles r) ≡ some role
      → update_role_status s m g r i st ≡ ok (written group (record role { status = st }))
  unfolding update_role_status
  update_role_status-some st group role a b c d = ground arith

  -- UpdateRoleStatus fails exactly when the role is not in the store; otherwise it sets the
  -- status of that role, and no later read of a role sees another change.
  pub update_role_status_lem :
      (st : RoleStatus)
      → ((find_role s m g r i ≡ none) × (is_err (update_role_status s m g r i st) ≡ true))
        ⊎ ((role : Role) × (find_role s m g r i ≡ some role)
            × (s' : Store) × (update_role_status s m g r i st ≡ ok s')
            × Writes s' (record role { status = st }))
  update_role_status_lem st = elim (Option-cases (find_role s m g r i)) [
    | inl missing ↦ inl (missing, update_role_status-none st missing)
    | inr (role, found) ↦
        let (group, a, b, c, d, e) = found_parts found in
        inr (
          role,
          found,
          written group (record role { status = st }),
          update_role_status-some st group role a b c d,
          written-Writes group _ (rw e),
        )
  ]

  update_role_revision-none :
      (revision hash : Text)
      → find_role s m g r i ≡ none
      → is_err (update_role_revision s m g r i revision hash) ≡ true
  unfolding find_role update_role_revision find_group find_in_roles
  update_role_revision-none revision hash h = ground arith

  update_role_revision-some :
      (revision hash : Text) (group : ServingGroup) (role : Role)
      → lookup m s.serving_group ≡ some (groups_of s m)
      → lookup g (groups_of s m) ≡ some group
      → lookup r group.roles ≡ some (ids_of group.roles r)
      → lookup i (ids_of group.roles r) ≡ some role
      → update_role_revision s m g r i revision hash
        ≡ ok (written group (record role { revision = revision; role_template_hash = hash }))
  unfolding update_role_revision
  update_role_revision-some revision hash group role a b c d = ground arith

  -- UpdateRoleRevision fails exactly when the role is not in the store; otherwise it sets the
  -- revision and the template hash of that role, and no later read of a role sees another change.
  pub update_role_revision_lem :
      (revision hash : Text)
      → ((find_role s m g r i ≡ none)
          × (is_err (update_role_revision s m g r i revision hash) ≡ true))
        ⊎ ((role : Role) × (find_role s m g r i ≡ some role)
            × (s' : Store) × (update_role_revision s m g r i revision hash ≡ ok s')
            × Writes s' (record role { revision = revision; role_template_hash = hash }))
  update_role_revision_lem revision hash = elim (Option-cases (find_role s m g r i)) [
    | inl missing ↦ inl (missing, update_role_revision-none revision hash missing)
    | inr (role, found) ↦
        let (group, a, b, c, d, e) = found_parts found in
        inr (
          role,
          found,
          written group (record role { revision = revision; role_template_hash = hash }),
          update_role_revision-some revision hash group role a b c d,
          written-Writes group _ (rw e),
        )
  ]

  -- The entry that a creating method leaves: the old one, or a new one.
  abbrev kept : Text → Text → Role
  kept revision hash = get_or (find_role s m g r i) (fresh_role i revision hash)

  ensured :
      (revision hash : Text) (group : ServingGroup)
      → group.roles ≡ roles_of (find_group s m g)
      → ensure_role group r i revision hash
        ≡ put_role group r (ids_of group.roles r) i (kept revision hash)
  unfolding ensure_role find_role
  ensured revision hash group h = cc (h, find-ids_of group.roles r i)

  -- The group that a creating method starts from.
  abbrev base : Text → ServingGroup
  base revision = get_or (lookup g (groups_of s m)) (fresh_group g revision)

  base-roles : (revision : Text) → (base revision).roles ≡ roles_of (find_group s m g)
  base-roles revision = ground (arith, find-groups_of s m g)

  ensured-Writes :
      (revision hash : Text) (group : ServingGroup)
      → group.roles ≡ roles_of (find_group s m g)
      → Writes
          (put_group s m (groups_of s m) g (ensure_role group r i revision hash))
          (kept revision hash)
  ensured-Writes revision hash group h =
      rw (ensured revision hash group h) (written-Writes group (kept revision hash) h)

  -- AddRole creates the role if it is not in the store, and keeps the entry as it is if it is;
  -- no later read of a role sees another change.
  pub add_role_lem :
      (revision hash : Text) → Writes (add_role s m g r i revision hash) (kept revision hash)
  unfolding add_role
  add_role_lem revision hash = ensured-Writes revision hash (base revision) (base-roles revision)

  -- AddRunningPodToServingGroup and AddServingGroupAndRole leave the role entries that AddRole
  -- leaves.
  pub find_role-add_running_pod :
      (pod revision hash : Text) (m' : NamespacedName) (g' r' i' : Text)
      → (find_role (add_running_pod_to_serving_group s m g pod revision hash r i) m' g' r' i'
          ≡ find_role (add_role s m g r i revision hash) m' g' r' i')
        × (find_role (add_serving_group_and_role s m g revision hash r i) m' g' r' i'
            ≡ find_role (add_role s m g r i revision hash) m' g' r' i')
  unfolding add_running_pod_to_serving_group add_serving_group_and_role
  find_role-add_running_pod pod revision hash m' g' r' i' =
      let added = add_role_lem revision hash m' g' r' i' in
      let h = base-roles revision in
      let with_pod = record (base revision) {
        running_pods = insert pod tt (base revision).running_pods;
      } in
      (
        ensured-Writes revision hash with_pod h m' g' r' i' ∙ sym added,
        ensured-Writes revision hash (base revision) h m' g' r' i' ∙ sym added,
      )

  -- What DeleteRole does, by the group and the ids that it finds.
  delete_role_parts :
      ((find_role s m g r i ≡ none) × (delete_role s m g r i ≡ s))
      ⊎ ((group : ServingGroup) × (group.roles ≡ roles_of (find_group s m g))
          × (delete_role s m g r i
              ≡ put_group s m (groups_of s m) g (record group {
                roles = insert r (delete i (ids_of group.roles r)) group.roles;
              })))
  unfolding delete_role find_role find_group find_in_roles lookup
  delete_role_parts = elim (Option-cases (lookup m s.serving_group)) [
    | inl e ↦ inl (ground arith, ground arith)
    | inr (groups, e) ↦ elim (Option-cases (lookup g groups)) [
      | inl e' ↦ inl (ground arith, ground arith)
      | inr (group, e') ↦ elim (Option-cases (lookup r group.roles)) [
        | inl e'' ↦ inl (ground arith, ground arith)
        | inr (ids, e'') ↦ inr (group, ground arith, ground arith)
      ]
    ]
  ]

  -- DeleteRole removes the one role entry that it names, and nothing if there is none.
  pub delete_role_lem :
      (m' : NamespacedName) (g' r' i' : Text)
      → find_role (delete_role s m g r i) m' g' r' i'
        ≡ (if same_role m m' g g' r r' i i' then none else find_role s m' g' r' i')
  delete_role_lem m' g' r' i' = elim delete_role_parts [
    | inl (absent, same) ↦ rw same (find_role_absent s m m' g g' r r' i i' absent)
    | inr (group, h, e) ↦ rw e (find_role-delete s m m' g g' r r' i i' group h)
  ]
