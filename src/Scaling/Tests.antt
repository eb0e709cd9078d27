-- ===== src/Scaling/Tests.antt =====
-- Concrete ServingGroups and Roles:
-- pkg/model-serving-controller/controller/model_serving_controller.go
use kthena.Common.{
  ℕ, ◌-◌, ◌≤◌, ◌<◌, ◌≡◌, true, false, Option, none, some, List, [], ◌∷◌, Text, codes, length, take,
  map, ◌⊎◌, Bool,
}
use kthena.Common.Int.{ℤ, pos, negsuc}
use kthena.GroupStore.{
  ServingGroupStatus, RoleStatus, Role, ServingGroup, Store, Error, err, ok, new,
}
use kthena.GroupStore.Ops.{fresh_group, update_serving_group_status}
use kthena.Scaling.{for_each_missing_ordinal}
use kthena.Scaling.Missing.{missing, for_each_missing_ordinal_lem}
use kthena.Scaling.Scores.{Score, PodIndex}
use kthena.Scaling.Spec.{
  ModelServing, RoleSpec, get_partition, model_serving_partition, model_serving_replicas,
  role_partition, role_replicas,
}
use kthena.Scaling.Deleting.{Cleared, gone, Failure, delete_serving_group, delete_role}
use kthena.Scaling.Down.{
  group_scores, role_scores, scale_down_serving_groups, scale_down_roles, not_needed, status_error,
  deletions,
}
use kthena.Scaling.Down.Plans.{
  Chooses, Stops, protects, deleting, scale_down_serving_groups_lem, scale_down_roles_lem,
}
use kthena.Scaling.Down.Sorting.{insertion}
use kthena.Scaling.Up.{
  done, Cluster, RoleTemplate, partition_error, existing_ordinals, revision_for,
  scale_up_serving_groups,
}
use kthena.Scaling.Up.Filled.{Fills, scale_up_serving_groups_lem}

-- Visits two of the missing ordinals 0, 3, 4.
abbrev collect : List ℕ → ℕ → List ℕ × Bool
collect seen i = (i ∷ seen, true)

abbrev ordinals : List ℤ
ordinals = pos 2 ∷ negsuc 0 ∷ pos 1 ∷ pos 9 ∷ pos 1 ∷ []

for_each_missing_ordinal_lem_example : for_each_missing_ordinal 5 ordinals 2 collect [] ≡ 3 ∷ 0 ∷ []
for_each_missing_ordinal_lem_example = for_each_missing_ordinal_lem collect 5 2 ordinals []

abbrev serving : ModelServing ℕ
serving = record {
  namespaced_name = record { namespace = codes "ns"; name = codes "m" };
  replicas = some (pos 1);
  rollout_strategy = none;
  current_revision = codes "old";
}

abbrev scaled : ℕ → ℤ → Option ℤ
scaled p replicas = some (pos p)

abbrev pods : PodIndex
pods name = some []

abbrev names : List ServingGroup
names = fresh_group (codes "m-0") (codes "r") ∷ fresh_group (codes "m-1") (codes "r") ∷ []

abbrev clears : Text → Cleared ℕ
clears name = gone

scale_down_serving_groups_lem_example :
    (chosen stay : List Score) × ((scale_down_serving_groups insertion scaled pods clears new
        serving names 1).0
      ≡ map (λ (t : Score). t.name) chosen)
    × ((scale_down_serving_groups insertion scaled pods clears new serving names 1).1
        ≡ deleting
            (delete_serving_group clears serving.namespaced_name)
            new
            (scale_down_serving_groups insertion scaled pods clears new serving names 1).0)
    × Chooses
        (protects (λ (g : ServingGroup). g.name) (pos 0) names)
        (group_scores pods new serving.namespaced_name names)
        1
        chosen
        stay
unfolding get_partition model_serving_partition
scale_down_serving_groups_lem_example =
    scale_down_serving_groups_lem insertion scaled pods clears new serving names 1

abbrev role : RoleSpec ℕ
role = record { name = codes "prefill"; replicas = none; partition = none }

abbrev roles : List Role
roles =
    record {
      name = codes "prefill-0";
      revision = codes "r";
      role_template_hash = [];
      status = RoleStatus.running;
    }
    ∷ []

abbrev RolesResult : Type 0
RolesResult =
    let scores = role_scores pods new serving.namespaced_name (codes "m-0") role.name roles in
    let outcome =
      scale_down_roles insertion scaled pods clears new serving (codes "m-0") role roles 1 in
    ((length scores ≤ 1) × (outcome ≡ not_needed))
    ⊎ ((e : Error) × (1 < length scores)
        × (update_serving_group_status new serving.namespaced_name (codes "m-0")
              ServingGroupStatus.scaling
            ≡ err e)
        × (outcome ≡ status_error e))
    ⊎ ((s' : Store) × (chosen stay : List Score) × (after : Store) × (deleted : List Text)
        × (failure : Option (Failure ℕ)) × (1 < length scores)
        × (update_serving_group_status new serving.namespaced_name (codes "m-0")
              ServingGroupStatus.scaling
            ≡ ok s')
        × (outcome ≡ deletions after deleted failure)
        × (after
            ≡ deleting (delete_role clears serving.namespaced_name (codes "m-0") role.name) s'
                deleted)
        × Chooses
            (protects (λ (r : Role). r.name)
              (get_partition scaled (role_partition serving role) (role_replicas role)).value roles)
            scores (length scores - 1) chosen stay
        × Stops chosen deleted failure)

scale_down_roles_lem_example : RolesResult
scale_down_roles_lem_example =
    scale_down_roles_lem insertion scaled pods clears new serving (codes "m-0") role roles 1

abbrev cluster : Cluster ℕ
cluster = record {
  workload = λ revision. none;
  create_or_update_pod_group = λ revision name. none;
  role_revision_hash = λ role. none;
  render_role = λ role i ordinal revision. done (codes "h");
  create_entry_pod = λ role i ordinal revision. none;
  create_worker_pods = λ role i ordinal revision. none;
  role_coordination = true;
}

abbrev templates : Text → List RoleTemplate
templates revision = record { name = codes "prefill"; replicas = 2 } ∷ []

abbrev UpResult : Type 0
UpResult =
    let partition =
      get_partition scaled (model_serving_partition serving) (model_serving_replicas serving) in
    let result = scale_up_serving_groups scaled cluster templates new serving [] 2 (codes "r") in
    ((partition.failed ≡ true) × (result ≡ (new, some partition_error)))
    ⊎ ((partition.failed ≡ false)
        × Fills serving.namespaced_name
            (revision_for serving.current_revision partition.value (codes "r")) new
            (take 2 (missing 2 (existing_ordinals []))) result)

scale_up_serving_groups_lem_example : UpResult
scale_up_serving_groups_lem_example =
    scale_up_serving_groups_lem scaled cluster templates new serving [] 2 (codes "r")
