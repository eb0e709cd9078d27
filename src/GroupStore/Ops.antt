-- ===== src/GroupStore/Ops.antt =====
-- pkg/model-serving-controller/datastore/store.go: the methods of the store. A method that writes
-- returns the new store; one that can fail returns an error and leaves the store as it was.
use mathlib.Core.List.{Perm, Pairwise}
use kthena.Common.{ℕ, Option, none, some, List, [], map, Text, text_eq, length}
use kthena.Common.Int.{ℤ, ◌-ℤ◌, ◌≤ℤ◌}
use kthena.Common.Dict.{Dict, lookup, insert, delete}
use kthena.GroupStore.{
  NamespacedName, name_eq, ServingGroupStatus, RoleStatus, Role, ServingGroup, Store,
  model_serving_not_found, serving_group_not_found, role_name_not_found, role_not_found, Result, ok,
  ◌>>=◌, or_err, get_or, find_group, find_in_roles, put_group, put_role,
}
use kthena.GroupStore.Ordinal.{generate_serving_group_name, get_parent_name_and_ordinal}

-- The values of a map, in the order of the iteration.
abbrev pub values {ℓ} : {K V : Type ℓ} → Dict K V → List V
values = map (λ kv. kv.1)

-- `slices.SortFunc`: a permutation in ascending order of the comparison. The order is stated for
-- comparisons that subtract keys, which the store uses.
pub record SortFunc : Type 1 where
  pub sort : {A : Type 0} → (A → A → ℤ) → List A → List A
  pub sort-perm : {A : Type 0} (cmp : A → A → ℤ) (l : List A) → Perm (sort cmp l) l
  pub sort-sorted :
      {A : Type 0} (key : A → ℤ) (l : List A)
      → Pairwise (λ a b. key a ≤ℤ key b) (sort (λ a b. key a -ℤ key b) l)

abbrev pub ordinal : Text → ℤ
ordinal name = (get_parent_name_and_ordinal name).1

module _ (slices : SortFunc) where
  unfoldable pub get_serving_group_by_model_serving :
      Store → NamespacedName → Result (List ServingGroup)
  get_serving_group_by_model_serving s m = do
    groups ← or_err (lookup m s.serving_group) serving_group_not_found
    ok (slices.sort (λ a b. ordinal a.name -ℤ ordinal b.name) (values groups))

  unfoldable pub get_role_list : Store → NamespacedName → Text → Text → Result (List Role)
  get_role_list s m group_name role_name = do
    groups ← or_err (lookup m s.serving_group) model_serving_not_found
    group ← or_err (lookup group_name groups) serving_group_not_found
    let ids = get_or (lookup role_name group.roles) []
    ok (slices.sort (λ a b. ordinal a.name -ℤ ordinal b.name) (values ids))

unfoldable pub get_roles_by_group :
    Store → NamespacedName → Text → Result (Dict Text (Dict Text Role))
get_roles_by_group s m group_name = do
  groups ← or_err (lookup m s.serving_group) model_serving_not_found
  group ← or_err (lookup group_name groups) serving_group_not_found
  ok group.roles

unfoldable pub update_role_status :
    Store → NamespacedName → Text → Text → Text → RoleStatus → Result Store
update_role_status s m group_name role_name role_id status = do
  groups ← or_err (lookup m s.serving_group) model_serving_not_found
  group ← or_err (lookup group_name groups) serving_group_not_found
  ids ← or_err (lookup role_name group.roles) role_name_not_found
  role ← or_err (lookup role_id ids) role_not_found
  let role' = record role { status = status }
  ok (put_group s m groups group_name (put_role group role_name ids role_id role'))

unfoldable pub get_role_status : Store → NamespacedName → Text → Text → Text → RoleStatus
get_role_status s m group_name role_name role_id = elim (find_group s m group_name) [
  | none ↦ RoleStatus.not_found
  | some group ↦ elim (find_in_roles group.roles role_name role_id) [
    | none ↦ RoleStatus.not_found
    | some role ↦ role.status
  ]
]

unfoldable pub get_running_pod_num_by_serving_group : Store → NamespacedName → Text → Result ℕ
get_running_pod_num_by_serving_group s m group_name = do
  groups ← or_err (lookup m s.serving_group) model_serving_not_found
  elim (lookup group_name groups) [ none ↦ ok 0 | some group ↦ ok (length group.running_pods) ]

unfoldable pub get_serving_group_revision : Store → NamespacedName → Text → Option Text
get_serving_group_revision s m group_name = elim (find_group s m group_name) [
  | none ↦ none
  | some group ↦ some group.revision
]

unfoldable pub get_serving_group_status : Store → NamespacedName → Text → ServingGroupStatus
get_serving_group_status s m group_name = elim (find_group s m group_name) [
  | none ↦ ServingGroupStatus.not_found
  | some group ↦ group.status
]

unfoldable pub delete_model_serving : Store → NamespacedName → Store
delete_model_serving s m = record s { serving_group = delete m s.serving_group }

unfoldable pub delete_serving_group : Store → NamespacedName → Text → Store
delete_serving_group s m group_name = elim (lookup m s.serving_group) [
  | none ↦ s
  | some groups ↦ record s { serving_group = insert m (delete group_name groups) s.serving_group }
]

unfoldable pub delete_role : Store → NamespacedName → Text → Text → Text → Store
delete_role s m group_name role_name role_id = elim (lookup m s.serving_group) [
  | none ↦ s
  | some groups ↦ elim (lookup group_name groups) [
    | none ↦ s
    | some group ↦ elim (lookup role_name group.roles) [
      | none ↦ s
      | some ids ↦
          put_group s m groups group_name
            (record group { roles = insert role_name (delete role_id ids) group.roles })
    ]
  ]
]

-- The ServingGroup that the methods create.
abbrev pub fresh_group : Text → Text → ServingGroup
fresh_group name revision = record {
  name = name;
  running_pods = [];
  revision = revision;
  status = ServingGroupStatus.creating;
  roles = [];
}

unfoldable pub add_serving_group : Store → NamespacedName → ℕ → Text → Store
add_serving_group s m idx revision =
    let name = generate_serving_group_name m.name idx in
    let groups = get_or (lookup m s.serving_group) [] in
    elim (lookup name groups) [
      | some _ ↦ record s { serving_group = insert m groups s.serving_group }
      | none ↦ put_group s m groups name (fresh_group name revision)
    ]

-- The role that the methods create under its id.
abbrev pub fresh_role : Text → Text → Text → Role
fresh_role role_id revision hash = record {
  name = role_id;
  revision = revision;
  role_template_hash = hash;
  status = RoleStatus.creating;
}

-- The entry of the role is made if it is not there; an old entry is kept as it is.
unfoldable pub ensure_role : ServingGroup → Text → Text → Text → Text → ServingGroup
ensure_role group role_name role_id revision hash =
    let ids = get_or (lookup role_name group.roles) [] in
    put_role group role_name ids role_id
      (get_or (lookup role_id ids) (fresh_role role_id revision hash))

unfoldable pub add_role : Store → NamespacedName → Text → Text → Text → Text → Text → Store
unfolding ensure_role
add_role s m group_name role_name role_id revision hash =
    let groups = get_or (lookup m s.serving_group) [] in
    let group = get_or (lookup group_name groups) (fresh_group group_name revision) in
    put_group s m groups group_name (ensure_role group role_name role_id revision hash)

unfoldable pub add_running_pod_to_serving_group :
    Store → NamespacedName → Text → Text → Text → Text → Text → Text → Store
unfolding ensure_role
add_running_pod_to_serving_group s m group_name pod revision hash role_name role_id =
    let groups = get_or (lookup m s.serving_group) [] in
    let group = get_or (lookup group_name groups) (fresh_group group_name revision) in
    let group' = record group { running_pods = insert pod tt group.running_pods } in
    put_group s m groups group_name (ensure_role group' role_name role_id revision hash)

unfoldable pub add_serving_group_and_role :
    Store → NamespacedName → Text → Text → Text → Text → Text → Store
unfolding ensure_role
add_serving_group_and_role s m group_name revision hash role_name role_id =
    let groups = get_or (lookup m s.serving_group) [] in
    let group = get_or (lookup group_name groups) (fresh_group group_name revision) in
    put_group s m groups group_name (ensure_role group role_name role_id revision hash)

unfoldable pub delete_running_pod_from_serving_group : Store → NamespacedName → Text → Text → Store
delete_running_pod_from_serving_group s m group_name pod = elim (lookup m s.serving_group) [
  | none ↦ s
  | some groups ↦ elim (lookup group_name groups) [
    | none ↦ s
    | some group ↦
        put_group s m groups group_name
          (record group { running_pods = delete pod group.running_pods })
  ]
]

unfoldable pub update_serving_group_status :
    Store → NamespacedName → Text → ServingGroupStatus → Result Store
update_serving_group_status s m group_name status = do
  groups ← or_err (lookup m s.serving_group) model_serving_not_found
  group ← or_err (lookup group_name groups) serving_group_not_found
  ok (put_group s m groups group_name (record group { status = status }))

unfoldable pub update_role_revision :
    Store → NamespacedName → Text → Text → Text → Text → Text → Result Store
update_role_revision s m group_name role_name role_id revision hash = do
  groups ← or_err (lookup m s.serving_group) serving_group_not_found
  group ← or_err (lookup group_name groups) serving_group_not_found
  ids ← or_err (lookup role_name group.roles) role_not_found
  role ← or_err (lookup role_id ids) role_not_found
  let role' = record role { revision = revision; role_template_hash = hash }
  ok (put_group s m groups group_name (put_role group role_name ids role_id role'))

unfoldable pub update_serving_group_revision : Store → NamespacedName → Text → Text → Result Store
update_serving_group_revision s m group_name revision = do
  groups ← or_err (lookup m s.serving_group) model_serving_not_found
  group ← or_err (lookup group_name groups) serving_group_not_found
  ok (put_group s m groups group_name (record group { revision = revision }))
