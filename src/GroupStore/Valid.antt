-- ===== src/GroupStore/Valid.antt =====
-- The invariant of the store, over every run of its methods:
-- pkg/model-serving-controller/datastore/store.go
use kthena.Common.{ℕ, some, [], Text, text_eq, ◌≡◌, refl, inl, inr, Option-cases}
use kthena.Common.Dict.{
  Dict, lookup, insert, Distinct, Every, insert-Distinct, Every-lookup, Every-insert,
}
use kthena.GroupStore.{
  NamespacedName, name_eq, ServingGroupStatus, RoleStatus, Role, ServingGroup, Store, Result, ok,
  err, get_or, put_group, put_role,
}
use kthena.GroupStore.Ops
use kthena.GroupStore.Ops.{fresh_group, fresh_role, ensure_role}

-- Each role is stored under its name.
abbrev pub RolesValid : Dict Text Role → Type 0
RolesValid ids = Distinct ids × Every (λ i role. role.name ≡ i) ids

abbrev pub GroupValid : Text → ServingGroup → Type 0
GroupValid g group =
    (group.name ≡ g)
    × Distinct group.running_pods
    × Distinct group.roles
    × Every (λ r ids. RolesValid ids) group.roles

abbrev pub GroupsValid : Dict Text ServingGroup → Type 0
GroupsValid groups = Distinct groups × Every GroupValid groups

pub record IsValid (s : Store) : Type 0 where
  pub distinct : Distinct s.serving_group
  pub groups : Every (λ m groups. GroupsValid groups) s.serving_group

-- The methods that write.
pub data Op : Type 0 where
  update_role_status : NamespacedName → Text → Text → Text → RoleStatus → Op
  update_role_revision : NamespacedName → Text → Text → Text → Text → Text → Op
  update_serving_group_status : NamespacedName → Text → ServingGroupStatus → Op
  update_serving_group_revision : NamespacedName → Text → Text → Op
  delete_model_serving : NamespacedName → Op
  delete_serving_group : NamespacedName → Text → Op
  delete_role : NamespacedName → Text → Text → Text → Op
  delete_running_pod : NamespacedName → Text → Text → Op
  add_serving_group : NamespacedName → ℕ → Text → Op
  add_role : NamespacedName → Text → Text → Text → Text → Text → Op
  add_running_pod : NamespacedName → Text → Text → Text → Text → Text → Text → Op
  add_serving_group_and_role : NamespacedName → Text → Text → Text → Text → Text → Op

-- An error leaves the store as it is.
abbrev pub or_same : Store → Result Store → Store
or_same s (ok s') = s'
or_same s (err e) = s

unfoldable pub apply : Store → Op → Store
apply s (Op.update_role_status m g r i st) = or_same s (Ops.update_role_status s m g r i st)
apply s (Op.update_role_revision m g r i v h) = or_same s (Ops.update_role_revision s m g r i v h)
apply s (Op.update_serving_group_status m g st) =
    or_same s (Ops.update_serving_group_status s m g st)
apply s (Op.update_serving_group_revision m g v) =
    or_same s (Ops.update_serving_group_revision s m g v)
apply s (Op.delete_model_serving m) = Ops.delete_model_serving s m
apply s (Op.delete_serving_group m g) = Ops.delete_serving_group s m g
apply s (Op.delete_role m g r i) = Ops.delete_role s m g r i
apply s (Op.delete_running_pod m g pod) = Ops.delete_running_pod_from_serving_group s m g pod
apply s (Op.add_serving_group m idx v) = Ops.add_serving_group s m idx v
apply s (Op.add_role m g r i v h) = Ops.add_role s m g r i v h
apply s (Op.add_running_pod m g pod v h r i) =
    Ops.add_running_pod_to_serving_group s m g pod v h r i
apply s (Op.add_serving_group_and_role m g v h r i) = Ops.add_serving_group_and_role s m g v h r i

pub GroupsValid-at :
    (s : Store) (m : NamespacedName)
    → IsValid s
    → GroupsValid (get_or (lookup m s.serving_group) [])
GroupsValid-at s m v = elim (Option-cases (lookup m s.serving_group)) [
  | inl e ↦ rw e (tt, tt)
  | inr (groups, e) ↦
      rw e (Every-lookup (λ m groups. GroupsValid groups) m groups s.serving_group v.groups e)
]

pub GroupValid-at :
    (g : Text) (groups : Dict Text ServingGroup) (group : ServingGroup)
    → GroupsValid groups
    → lookup g groups ≡ some group
    → GroupValid g group
GroupValid-at g groups group v e = Every-lookup GroupValid g group groups v.1 e

pub base_valid :
    (g revision : Text) (groups : Dict Text ServingGroup)
    → GroupsValid groups
    → GroupValid g (get_or (lookup g groups) (fresh_group g revision))
base_valid g revision groups v = elim (Option-cases (lookup g groups)) [
  | inl e ↦ rw e (refl, tt, tt, tt)
  | inr (group, e) ↦ rw e (GroupValid-at g groups group v e)
]

pub ids_valid :
    (r : Text) (roles : Dict Text (Dict Text Role))
    → Every (λ r ids. RolesValid ids) roles
    → RolesValid (get_or (lookup r roles) [])
ids_valid r roles v = elim (Option-cases (lookup r roles)) [
  | inl e ↦ rw e (tt, tt)
  | inr (ids, e) ↦ rw e (Every-lookup (λ r ids. RolesValid ids) r ids roles v e)
]

pub put_group-IsValid :
    (s : Store) (m : NamespacedName) (groups : Dict Text ServingGroup) (g : Text)
    (group : ServingGroup)
    → IsValid s
    → GroupsValid groups
    → GroupValid g group
    → IsValid (put_group s m groups g group)
unfolding put_group
put_group-IsValid s m groups g group v vs vg = record {
  distinct = insert-Distinct m (insert g group groups) s.serving_group v.distinct;
  groups =
      Every-insert (λ m groups. GroupsValid groups) m (insert g group groups) s.serving_group
        (insert-Distinct g group groups vs.0, Every-insert GroupValid g group groups vg vs.1)
        v.groups;
}

pub put_role-GroupValid :
    (g : Text) (group : ServingGroup) (r : Text) (ids : Dict Text Role) (i : Text) (role : Role)
    → GroupValid g group
    → RolesValid ids
    → role.name ≡ i
    → GroupValid g (put_role group r ids i role)
unfolding put_role
put_role-GroupValid g group r ids i role v vi n = (
  v.0,
  v.1,
  insert-Distinct r (insert i role ids) group.roles v.2,
  Every-insert (λ r ids. RolesValid ids) r (insert i role ids) group.roles
      (insert-Distinct i role ids vi.0, Every-insert (λ i role. role.name ≡ i) i role ids n vi.1)
      v.3,
)
