-- ===== src/GroupStore/GroupSteps.antt =====
-- The methods on whole ServingGroups keep the invariant:
-- pkg/model-serving-controller/datastore/store.go
use kthena.Common.{some, Text, text_eq, ◌≡◌, inl, inr, Option-cases}
use kthena.Common.Dict.{
  Dict, lookup, delete, insert-Distinct, delete-Distinct, Every-insert, Every-delete,
}
use kthena.GroupStore.{NamespacedName, name_eq, ServingGroupStatus, ServingGroup, Store}
use kthena.GroupStore.Ops
use kthena.GroupStore.Ops.{fresh_group, fresh_role, ensure_role}
use kthena.GroupStore.Valid.{
  GroupValid, GroupsValid, IsValid, or_same, GroupsValid-at, GroupValid-at, put_group-IsValid,
}

module _ (s : Store) (v : IsValid s) (m : NamespacedName) (g : Text) where
  pub groups_found :
      {groups : Dict Text ServingGroup}
      → lookup m s.serving_group ≡ some groups
      → GroupsValid groups
  groups_found e = rw e at (GroupsValid-at s m v)

  pub update_serving_group_status-IsValid :
      (st : ServingGroupStatus) → IsValid (or_same s (Ops.update_serving_group_status s m g st))
  unfolding Ops.update_serving_group_status
  update_serving_group_status-IsValid st = elim (Option-cases (lookup m s.serving_group)) [
    | inl e ↦ rw e v
    | inr (groups, e) ↦ elim (Option-cases (lookup g groups)) [
      | inl e' ↦ rw (e, e') v
      | inr (group, e') ↦
          let vg = groups_found e in
          rw (e, e') (put_group-IsValid s m groups g _ v vg (GroupValid-at g groups group vg e'))
    ]
  ]

  pub update_serving_group_revision-IsValid :
      (revision : Text) → IsValid (or_same s (Ops.update_serving_group_revision s m g revision))
  unfolding Ops.update_serving_group_revision
  update_serving_group_revision-IsValid revision = elim (Option-cases (lookup m s.serving_group)) [
    | inl e ↦ rw e v
    | inr (groups, e) ↦ elim (Option-cases (lookup g groups)) [
      | inl e' ↦ rw (e, e') v
      | inr (group, e') ↦
          let vg = groups_found e in
          rw (e, e') (put_group-IsValid s m groups g _ v vg (GroupValid-at g groups group vg e'))
    ]
  ]

  pub delete_running_pod-IsValid :
      (pod : Text) → IsValid (Ops.delete_running_pod_from_serving_group s m g pod)
  unfolding Ops.delete_running_pod_from_serving_group
  delete_running_pod-IsValid pod = elim (Option-cases (lookup m s.serving_group)) [
    | inl e ↦ rw (e, Ops.delete_running_pod_from_serving_group) v
    | inr (groups, e) ↦ elim (Option-cases (lookup g groups)) [
      | inl e' ↦ rw (e, e', Ops.delete_running_pod_from_serving_group) v
      | inr (group, e') ↦
          let vg = groups_found e in
          let (named, pods, roles, each) = GroupValid-at g groups group vg e' in
          rw (e, e', Ops.delete_running_pod_from_serving_group)
            (put_group-IsValid s m groups g _ v vg
              (named, delete-Distinct pod group.running_pods pods, roles, each))
    ]
  ]

  pub delete_serving_group-IsValid : IsValid (Ops.delete_serving_group s m g)
  unfolding Ops.delete_serving_group
  delete_serving_group-IsValid = elim (Option-cases (lookup m s.serving_group)) [
    | inl e ↦ rw (e, Ops.delete_serving_group) v
    | inr (groups, e) ↦
        let vg = groups_found e in
        rw (e, Ops.delete_serving_group)
          (record {
            distinct = insert-Distinct m (delete g groups) s.serving_group v.distinct;
            groups =
                Every-insert (λ m groups. GroupsValid groups) m (delete g groups) s.serving_group
                  (delete-Distinct g groups vg.0, Every-delete GroupValid g groups vg.1) v.groups;
          })
  ]

  pub delete_model_serving-IsValid : IsValid (Ops.delete_model_serving s m)
  unfolding Ops.delete_model_serving
  delete_model_serving-IsValid = record {
    distinct = delete-Distinct m s.serving_group v.distinct;
    groups = Every-delete (λ m groups. GroupsValid groups) m s.serving_group v.groups;
  }
