-- ===== src/Scaling/Up.antt =====
-- Which replicas a scale up creates: scaleUpServingGroups of
-- pkg/model-serving-controller/controller/model_serving_controller.go
pub mod Growth
pub mod Created
pub mod Filled
use kthena.Common.{
  ℕ, zero, suc, ◌+◌, ◌-◌, ◌≤◌, ◌<◌, ◌≡◌, ◌≢◌, refl, Bool, true, false, not, ◌&&◌, Option, none,
  some, List, [], ◌∷◌, ltb, if◌then◌else◌, Text, text_eq, ◌==◌, ==-iff, arith, Bool-cases,
  Option-cases, inl, inr, length, take, select, Any, All, ap, ◌∙◌, sym, max_int32, nat_beq, ◌||◌,
}
use kthena.Common.Int.{ℤ, pos, negsuc, ltb_ℤ}
use kthena.Common.Dict.{Dict, lookup, insert, lookup-insert}
use kthena.GroupStore.{NamespacedName, name_eq, ServingGroup, Store, get_or, find_group, put_group}
use kthena.GroupStore.Ops.{add_serving_group, add_role}
use kthena.GroupStore.Ordinal.{
  get_parent_name_and_ordinal, generate_serving_group_name, generate_role_id,
}
use kthena.Scaling.{for_each_missing_ordinal}
use kthena.Scaling.Spec.{
  ModelServing, Partition, get_partition, model_serving_partition, model_serving_replicas,
}

pub data Outcome (E : Type 0) : Type 0 where
  done : Text → Outcome E
  failed : E → Outcome E

-- The calls of the API server and of the revision history, each with the error that it may fail
-- with: the snapshot of a revision, the pod group of a ServingGroup, the hash of a role's template,
-- its rendering at a revision, and the entry pod and the worker pods of a replica of the role.
pub record Cluster (E : Type 0) : Type 0 where
  pub workload : Text → Option E
  pub create_or_update_pod_group : Text → Text → Option E
  pub role_revision_hash : Text → Option E
  pub render_role : Text → ℕ → ℕ → Text → Outcome E
  pub create_entry_pod : Text → ℕ → ℕ → Text → Option E
  pub create_worker_pods : Text → ℕ → ℕ → Text → Option E
  pub role_coordination : Bool

pub data UpError (E : Type 0) : Type 0 where
  partition_error : UpError E
  step_error : E → UpError E

-- The parts of a role that the creation of its pods reads.
pub record RoleTemplate : Type 0 where
  pub name : Text
  pub replicas : ℕ

unfoldable pub existing_ordinals : List ServingGroup → List ℤ
existing_ordinals [] = []
existing_ordinals (group ∷ groups) =
    let ordinal = (get_parent_name_and_ordinal group.name).1 in
    let rest = existing_ordinals groups in
    if not (ltb_ℤ ordinal (pos 0)) then ordinal ∷ rest else rest

-- Missing ordinals below the partition use the current revision, if there is one.
unfoldable pub revision_for : Text → ℤ → Text → ℕ → Text
revision_for current_revision partition new_revision ordinal =
    if ltb_ℤ (pos ordinal) partition && not (current_revision == [])
    then current_revision
    else new_revision

module _ {E : Type 0} (cluster : Cluster E) (m : NamespacedName) (ordinal : ℕ)
    (revision : Text) where
  -- createPodsByRole with createPodsByRoleWithContext, and the AddRole that follows it
  unfoldable pub create_pods_by_role : Store → Text → ℕ → Store × Option E
  create_pods_by_role s role_name role_index =
      let group_name = generate_serving_group_name m.name ordinal in
      let role_id = generate_role_id role_name role_index in
      elim (cluster.render_role role_name role_index ordinal revision) [
        | failed e ↦ (s, some e)
        | done hash ↦ elim (cluster.create_entry_pod role_name role_index ordinal revision) [
          | some e ↦ (s, some e)
          | none ↦
              let started =
                if cluster.role_coordination
                then add_role s m group_name role_name role_id revision hash
                else s in
              elim (cluster.create_worker_pods role_name role_index ordinal revision) [
                | some e ↦ (started, some e)
                | none ↦ (add_role started m group_name role_name role_id revision hash, none)
              ]
        ]
      ]

  -- The replicas of a role, from `role_index` on.
  unfoldable pub create_replicas : ℕ → Text → ℕ → Store → Store × Option E
  create_replicas zero role_name role_index s = (s, none)
  create_replicas (suc left) role_name role_index s =
      let (s', error) = create_pods_by_role s role_name role_index in
      elim error [
        | some e ↦ (s', some e)
        | none ↦ create_replicas left role_name (role_index + 1) s'
      ]

  unfoldable pub create_pods_for_serving_group : List RoleTemplate → Store → Store × Option E
  create_pods_for_serving_group [] s = (s, none)
  create_pods_for_serving_group (role ∷ roles) s = elim (cluster.role_revision_hash role.name) [
    | some e ↦ (s, some e)
    | none ↦
        let (s', error) = create_replicas role.replicas role.name 0 s in
        elim error [ some e ↦ (s', some e) | none ↦ create_pods_for_serving_group roles s' ]
  ]

module _ {E : Type 0} (cluster : Cluster E) (m : NamespacedName) (revision_of : ℕ → Text)
    (roles_at : Text → List RoleTemplate) where
  -- The handler of a missing ordinal. `roles_at` gives the roles of a revision's snapshot.
  unfoldable pub create_serving_group :
      Store × Option (UpError E) → ℕ → (Store × Option (UpError E)) × Bool
  create_serving_group (s, error) ordinal =
      let revision = revision_of ordinal in
      elim (cluster.workload revision) [
        | some e ↦ ((s, some (step_error e)), false)
        | none ↦
            elim (cluster.create_or_update_pod_group revision
              (generate_serving_group_name m.name ordinal)) [
                | some e ↦ ((s, some (step_error e)), false)
                | none ↦
                    let (s', pods_error) =
                      create_pods_for_serving_group cluster m ordinal revision (roles_at revision)
                        s in
                    elim pods_error [
                      | some e ↦ ((s', some (step_error e)), false)
                      | none ↦ ((add_serving_group s' m ordinal revision, error), true)
                    ]
              ]
      ]

unfoldable pub scale_up_serving_groups :
    {P E : Type 0}
    → (P → ℤ → Option ℤ)
    → Cluster E
    → (Text → List RoleTemplate)
    → Store
    → ModelServing P
    → List ServingGroup
    → ℕ
    → Text
    → Store × Option (UpError E)
scale_up_serving_groups scaled cluster roles_at s ms groups expected_count new_revision =
    let partition = get_partition scaled (model_serving_partition ms) (model_serving_replicas ms) in
    if partition.failed
    then (s, some partition_error)
    else for_each_missing_ordinal expected_count (existing_ordinals groups)
        (expected_count - length groups)
        (create_serving_group cluster ms.namespaced_name
          (revision_for ms.current_revision partition.value new_revision) roles_at)
        (s, none)
