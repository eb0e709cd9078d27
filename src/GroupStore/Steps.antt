-- ===== src/GroupStore/Steps.antt =====
-- Every method of the store keeps the invariant: pkg/model-serving-controller/datastore/store.go
use kthena.Common.{
  ℕ, some, List, [], ◌∷◌, Text, text_eq, ◌≡◌, refl, ◌∙◌, inl, inr, foldl, Option-cases,
}
use kthena.Common.Dict.{
  Dict, lookup, insert, delete, insert-Distinct, delete-Distinct, Every-lookup, Every-insert,
  Every-delete,
}
use kthena.GroupStore.{
  NamespacedName, name_eq, RoleStatus, Role, ServingGroup, Store, get_or, new, put_group, put_role,
}
use kthena.GroupStore.Ordinal.{generate_serving_group_name}
use kthena.GroupStore.Ops
use kthena.GroupStore.Ops.{fresh_group, fresh_role, ensure_role}
use kthena.GroupStore.Valid.{
  RolesValid, GroupValid, GroupsValid, IsValid, Op, or_same, apply, GroupsValid-at, GroupValid-at,
  base_valid, ids_valid, put_group-IsValid, put_role-GroupValid,
}
use kthena.GroupStore.GroupSteps.{
  groups_found, update_serving_group_status-IsValid, update_serving_group_revision-IsValid,
  delete_running_pod-IsValid, delete_serving_group-IsValid, delete_model_serving-IsValid,
}

module _ (s : Store) (v : IsValid s) (m : NamespacedName) (g : Text) where
  -- The group that a creating method starts from.
  abbrev start : Text → ServingGroup
  start revision = get_or (lookup g (get_or (lookup m s.serving_group) [])) (fresh_group g revision)

  start_valid : (revision : Text) → GroupValid g (start revision)
  start_valid revision = base_valid g revision _ (GroupsValid-at s m v)

  module _ (r i : Text) where
    -- A role that is there may be given other fields than its name.
    role_change-IsValid :
        {groups : Dict Text ServingGroup} {group : ServingGroup} {ids : Dict Text Role}
        {role : Role} (role' : Role)
        → lookup m s.serving_group ≡ some groups
        → lookup g groups ≡ some group
        → lookup r group.roles ≡ some ids
        → lookup i ids ≡ some role
        → role'.name ≡ role.name
        → IsValid (put_group s m groups g (put_role group r ids i role'))
    role_change-IsValid {groups} {group} {ids} {role} role' e e' e'' e''' n =
        let vg = groups_found s v m g e in
        let v' = GroupValid-at g groups group vg e' in
        let vi = Every-lookup (λ r ids. RolesValid ids) r ids group.roles v'.3 e'' in
        let named = Every-lookup (λ i role. role.name ≡ i) i role ids vi.1 e''' in
        put_group-IsValid s m groups g _ v vg
          (put_role-GroupValid g group r ids i role' v' vi (n ∙ named))

    update_role_status-IsValid :
        (st : RoleStatus) → IsValid (or_same s (Ops.update_role_status s m g r i st))
    unfolding Ops.update_role_status
    update_role_status-IsValid st = elim (Option-cases (lookup m s.serving_group)) [
      | inl e ↦ rw e v
      | inr (groups, e) ↦ elim (Option-cases (lookup g groups)) [
        | inl e' ↦ rw (e, e') v
        | inr (group, e') ↦ elim (Option-cases (lookup r group.roles)) [
          | inl e'' ↦ rw (e, e', e'') v
          | inr (ids, e'') ↦ elim (Option-cases (lookup i ids)) [
            | inl e''' ↦ rw (e, e', e'', e''') v
            | inr (role, e''') ↦
                rw (e, e', e'', e''')
                  (role_change-IsValid (record role { status = st }) e e' e'' e''' refl)
          ]
        ]
      ]
    ]

    update_role_revision-IsValid :
        (revision hash : Text)
        → IsValid (or_same s (Ops.update_role_revision s m g r i revision hash))
    unfolding Ops.update_role_revision
    update_role_revision-IsValid revision hash = elim (Option-cases (lookup m s.serving_group)) [
      | inl e ↦ rw e v
      | inr (groups, e) ↦ elim (Option-cases (lookup g groups)) [
        | inl e' ↦ rw (e, e') v
        | inr (group, e') ↦ elim (Option-cases (lookup r group.roles)) [
          | inl e'' ↦ rw (e, e', e'') v
          | inr (ids, e'') ↦ elim (Option-cases (lookup i ids)) [
            | inl e''' ↦ rw (e, e', e'', e''') v
            | inr (role, e''') ↦
                rw (e, e', e'', e''')
                  (role_change-IsValid
                    (record role { revision = revision; role_template_hash = hash }) e e' e'' e'''
                    refl)
          ]
        ]
      ]
    ]

    delete_role-IsValid : IsValid (Ops.delete_role s m g r i)
    unfolding Ops.delete_role
    delete_role-IsValid = elim (Option-cases (lookup m s.serving_group)) [
      | inl e ↦ rw (e, Ops.delete_role) v
      | inr (groups, e) ↦ elim (Option-cases (lookup g groups)) [
        | inl e' ↦ rw (e, e', Ops.delete_role) v
        | inr (group, e') ↦ elim (Option-cases (lookup r group.roles)) [
          | inl e'' ↦ rw (e, e', e'', Ops.delete_role) v
          | inr (ids, e'') ↦
              let vg = groups_found s v m g e in
              let v' = GroupValid-at g groups group vg e' in
              let vi = Every-lookup (λ r ids. RolesValid ids) r ids group.roles v'.3 e'' in
              let vi' : RolesValid (delete i ids) =
                (delete-Distinct i ids vi.0, Every-delete (λ i role. role.name ≡ i) i ids vi.1) in
              rw (e, e', e'', Ops.delete_role)
                (put_group-IsValid s m groups g _ v vg (
                  v'.0,
                  v'.1,
                  insert-Distinct r (delete i ids) group.roles v'.2,
                  Every-insert (λ r ids. RolesValid ids) r (delete i ids) group.roles vi' v'.3,
                ))
        ]
      ]
    ]

    ensure_role-GroupValid :
        (group : ServingGroup) (revision hash : Text)
        → GroupValid g group
        → GroupValid g (ensure_role group r i revision hash)
    unfolding ensure_role
    ensure_role-GroupValid group revision hash v' =
        let vi = ids_valid r group.roles v'.3 in
        put_role-GroupValid g group r _ i _ v' vi
          (elim (Option-cases (lookup i (get_or (lookup r group.roles) []))) [
            | inl e ↦ rw e
            | inr (role, e) ↦ rw e (Every-lookup (λ i role. role.name ≡ i) i role _ vi.1 e)
          ])

    add_role-IsValid : (revision hash : Text) → IsValid (Ops.add_role s m g r i revision hash)
    unfolding Ops.add_role
    add_role-IsValid revision hash =
        put_group-IsValid s m _ g _ v (GroupsValid-at s m v)
          (ensure_role-GroupValid (start revision) revision hash (start_valid revision))

    add_serving_group_and_role-IsValid :
        (revision hash : Text) → IsValid (Ops.add_serving_group_and_role s m g revision hash r i)
    unfolding Ops.add_serving_group_and_role
    add_serving_group_and_role-IsValid revision hash =
        put_group-IsValid s m _ g _ v (GroupsValid-at s m v)
          (ensure_role-GroupValid (start revision) revision hash (start_valid revision))

    add_running_pod-IsValid :
        (pod revision hash : Text)
        → IsValid (Ops.add_running_pod_to_serving_group s m g pod revision hash r i)
    unfolding Ops.add_running_pod_to_serving_group
    add_running_pod-IsValid pod revision hash =
        let group = start revision in
        let (named, pods, roles, each) = start_valid revision in
        put_group-IsValid s m _ g _ v (GroupsValid-at s m v) (
          ensure_role-GroupValid (record group { running_pods = insert pod tt group.running_pods })
            revision hash (named, insert-Distinct pod tt group.running_pods pods, roles, each))

add_serving_group-IsValid :
    (s : Store)
    → IsValid s
    → (m : NamespacedName) (idx : ℕ) (revision : Text)
    → IsValid (Ops.add_serving_group s m idx revision)
unfolding Ops.add_serving_group
add_serving_group-IsValid s v m idx revision =
    let name = generate_serving_group_name m.name idx in
    let groups = get_or (lookup m s.serving_group) [] in
    let vg = GroupsValid-at s m v in
    elim (Option-cases (lookup name groups)) [
      | inl e ↦
          rw (e, Ops.add_serving_group)
            (put_group-IsValid s m groups name _ v vg (refl, tt, tt, tt))
      | inr (group, e) ↦
          rw (e, Ops.add_serving_group)
            (record {
              distinct = insert-Distinct m groups s.serving_group v.distinct;
              groups =
                  Every-insert (λ m groups. GroupsValid groups) m groups s.serving_group vg
                    v.groups;
            })
    ]

-- A method keeps the invariant, whether it succeeds or fails.
apply-IsValid : (s : Store) (op : Op) → IsValid s → IsValid (apply s op)
unfolding apply
apply-IsValid s (Op.update_role_status m g r i st) v = update_role_status-IsValid s v m g r i st
apply-IsValid s (Op.update_role_revision m g r i n h) v =
    update_role_revision-IsValid s v m g r i n h
apply-IsValid s (Op.update_serving_group_status m g st) v =
    update_serving_group_status-IsValid s v m g st
apply-IsValid s (Op.update_serving_group_revision m g n) v =
    update_serving_group_revision-IsValid s v m g n
apply-IsValid s (Op.delete_model_serving m) v = delete_model_serving-IsValid s v m []
apply-IsValid s (Op.delete_serving_group m g) v = delete_serving_group-IsValid s v m g
apply-IsValid s (Op.delete_role m g r i) v = delete_role-IsValid s v m g r i
apply-IsValid s (Op.delete_running_pod m g pod) v = delete_running_pod-IsValid s v m g pod
apply-IsValid s (Op.add_serving_group m idx n) v = add_serving_group-IsValid s v m idx n
apply-IsValid s (Op.add_role m g r i n h) v = add_role-IsValid s v m g r i n h
apply-IsValid s (Op.add_running_pod m g pod n h r i) v = add_running_pod-IsValid s v m g r i pod n h
apply-IsValid s (Op.add_serving_group_and_role m g n h r i) v =
    add_serving_group_and_role-IsValid s v m g r i n h

run_from : (ops : List Op) (s : Store) → IsValid s → IsValid (foldl apply s ops)
run_from [] s v = v
run_from (op ∷ ops) s v = run_from ops (apply s op) (apply-IsValid s op v)

-- Whatever methods are called on a new store, in whatever order and with whatever arguments, no
-- key stands twice in a map, each ServingGroup is stored under its name and each role under its id.
pub run-IsValid : (ops : List Op) → IsValid (foldl apply new ops)
unfolding new
run-IsValid ops = run_from ops new (record { distinct = tt; groups = tt })
