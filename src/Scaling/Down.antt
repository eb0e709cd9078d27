-- ===== src/Scaling/Down.antt =====
-- Which replicas a scale down deletes: scaleDownServingGroups and scaleDownRoles of
-- pkg/model-serving-controller/controller/model_serving_controller.go
pub mod Choice
pub mod Plans
pub mod Sorting
use kthena.Common.{
  ℕ, zero, suc, ◌+◌, ◌-◌, ◌≤◌, ◌<◌, ◌≡◌, Bool, true, false, not, ◌&&◌, ◌||◌, Option, none, some,
  List, [], ◌∷◌, ◌++◌, ltb, if◌then◌else◌, Text, text_eq, ◌==◌, length, take, select, count,
  Ordered,
}
use kthena.Common.Int.{ℤ, pos, negsuc, pos_part, ltb_ℤ}
use kthena.GroupStore.{
  NamespacedName, name_eq, ServingGroupStatus, RoleStatus, Role, ServingGroup, Store, Result, ok,
  err, Error,
}
use kthena.GroupStore.Ops.{update_serving_group_status}
use kthena.Scaling.Deleting.{Cleared, Failure, delete_serving_group, delete_role}
use kthena.Scaling.Scores.{
  Score, PodIndex, calculate_serving_group_score, calculate_role_score, sort_groups, NotBehind,
  IsOrder,
}
use kthena.Scaling.Spec.{
  ModelServing, RoleSpec, Partition, get_partition, model_serving_partition, model_serving_replicas,
  role_partition, role_replicas,
}

-- `slices.SortFunc`: a permutation of the list (every test counts the same) in the order of the
-- comparison. Scores that the comparison does not tell apart may stand in any order.
pub record SortScores : Type 0 where
  pub sort : (Score → Score → ℤ) → List Score → List Score
  pub count-sort :
      (cmp : Score → Score → ℤ) (l : List Score) (test : Score → Bool)
      → count test (sort cmp l) ≡ count test l
  pub sort-Ordered :
      (cmp : Score → Score → ℤ) (l : List Score)
      → IsOrder cmp
      → Ordered (NotBehind cmp) (sort cmp l)

unfoldable pub has_name : Text → List Text → Bool
has_name name [] = false
has_name name (n ∷ names) = n == name || has_name name names

-- The names of the first records, as many as there are rounds.
unfoldable pub protected_names : {A : Type 0} → (A → Text) → ℕ → List A → List Text
protected_names name_of zero records = []
protected_names name_of (suc n) [] = []
protected_names name_of (suc n) (r ∷ records) = name_of r ∷ protected_names name_of n records

abbrev pub min_ℕ : ℕ → ℕ → ℕ
min_ℕ a b = if ltb b a then b else a

module _ (slices : SortScores) (protected : Score → Bool) (partition : ℤ)
    (all_scores : List Score) where
  unfoldable pub non_protected_scores : List Score
  non_protected_scores = slices.sort sort_groups (select (λ s. not (protected s)) all_scores)

  -- Sorted where they are needed only, which makes no difference.
  unfoldable pub protected_scores : List Score
  protected_scores = slices.sort sort_groups (select protected all_scores)

  unfoldable pub num_protected_to_delete : ℕ → ℕ
  unfolding non_protected_scores protected_scores
  num_protected_to_delete total_to_delete =
      let remaining = total_to_delete - min_ℕ total_to_delete (length non_protected_scores) in
      if ltb 0 remaining && ltb_ℤ (pos 0) partition
      then min_ℕ remaining (length protected_scores)
      else 0

  -- The scores whose replicas are deleted, in the order of their deletion.
  unfoldable pub targets : ℕ → List Score
  unfolding num_protected_to_delete non_protected_scores protected_scores
  targets total_to_delete =
      take (min_ℕ total_to_delete (length non_protected_scores)) non_protected_scores
      ++ take (num_protected_to_delete total_to_delete) protected_scores

-- The names that are deleted, the store after that, and the errors of the deletions.
unfoldable pub delete_all :
    {F : Type 0}
    → (Store → Text → Store × Option F)
    → Store
    → List Score
    → List Text × Store × List F
delete_all delete s [] = ([], s, [])
delete_all delete s (t ∷ ts) =
    let rest = delete_all delete (delete s t.name).0 ts in
    (t.name ∷ rest.0, rest.1, elim (delete s t.name).1 [ none ↦ rest.2 | some e ↦ e ∷ rest.2 ])

unfoldable pub group_scores : PodIndex → Store → NamespacedName → List ServingGroup → List Score
group_scores get_pods_by_index s m [] = []
group_scores get_pods_by_index s m (group ∷ groups) =
    calculate_serving_group_score get_pods_by_index s m group.name
    ∷ group_scores get_pods_by_index s m groups

unfoldable pub group_targets :
    {P : Type 0}
    → SortScores
    → (P → ℤ → Option ℤ)
    → PodIndex
    → Store
    → ModelServing P
    → List ServingGroup
    → ℕ
    → List Score
group_targets slices scaled get_pods_by_index s ms groups expected_count =
    let partition =
      (get_partition scaled (model_serving_partition ms) (model_serving_replicas ms)).value in
    let names = protected_names (λ (g : ServingGroup). g.name) (pos_part partition) groups in
    targets slices (λ score. has_name score.name names) partition
      (group_scores get_pods_by_index s ms.namespaced_name groups) (length groups - expected_count)

unfoldable pub scale_down_serving_groups :
    {P E : Type 0}
    → SortScores
    → (P → ℤ → Option ℤ)
    → PodIndex
    → (Text → Cleared E)
    → Store
    → ModelServing P
    → List ServingGroup
    → ℕ
    → List Text × Store × List (Failure E)
scale_down_serving_groups slices scaled get_pods_by_index clear s ms groups expected_count =
    delete_all (delete_serving_group clear ms.namespaced_name) s
      (group_targets slices scaled get_pods_by_index s ms groups expected_count)

is_deleting : RoleStatus → Bool
is_deleting RoleStatus.deleting = true
is_deleting RoleStatus.creating = false
is_deleting RoleStatus.running = false
is_deleting RoleStatus.not_found = false

-- The roles that are being deleted are left out.
unfoldable pub role_scores :
    PodIndex → Store → NamespacedName → Text → Text → List Role → List Score
unfolding is_deleting
role_scores get_pods_by_index s m group_name role_name [] = []
role_scores get_pods_by_index s m group_name role_name (role ∷ roles) =
    let rest = role_scores get_pods_by_index s m group_name role_name roles in
    if is_deleting role.status
    then rest
    else calculate_role_score get_pods_by_index s m group_name role_name role.name ∷ rest

-- The deletions, until one fails.
unfoldable pub delete_until :
    {F : Type 0}
    → (Store → Text → Store × Option F)
    → Store
    → List Score
    → List Text × Store × Option F
delete_until delete s [] = ([], s, none)
delete_until delete s (t ∷ ts) =
    let rest = delete_until delete (delete s t.name).0 ts in
    elim (delete s t.name).1 [
      | none ↦ (t.name ∷ rest.0, rest.1, rest.2)
      | some e ↦ (t.name ∷ [], (delete s t.name).0, some e)
    ]

-- How a scale down of roles ends.
pub data RolesOutcome (E : Type 0) : Type 0 where
  not_needed : RolesOutcome E
  status_error : Error → RolesOutcome E
  deletions : Store → List Text → Option (Failure E) → RolesOutcome E

-- A failed partition counts as 0.
unfoldable pub role_targets :
    {P : Type 0}
    → SortScores
    → (P → ℤ → Option ℤ)
    → PodIndex
    → Store
    → ModelServing P
    → Text
    → RoleSpec P
    → List Role
    → ℕ
    → List Score
role_targets slices scaled get_pods_by_index s ms group_name role roles expected_count =
    let partition = (get_partition scaled (role_partition ms role) (role_replicas role)).value in
    let names = protected_names (λ (r : Role). r.name) (pos_part partition) roles in
    let scores = role_scores get_pods_by_index s ms.namespaced_name group_name role.name roles in
    targets slices (λ score. has_name score.name names) partition scores
      (length scores - expected_count)

unfoldable pub scale_down_roles :
    {P E : Type 0}
    → SortScores
    → (P → ℤ → Option ℤ)
    → PodIndex
    → (Text → Cleared E)
    → Store
    → ModelServing P
    → Text
    → RoleSpec P
    → List Role
    → ℕ
    → RolesOutcome E
scale_down_roles slices scaled get_pods_by_index clear s ms group_name role roles expected_count =
    let scores = role_scores get_pods_by_index s ms.namespaced_name group_name role.name roles in
    if not (ltb expected_count (length scores))
    then not_needed
    else elim (update_serving_group_status s ms.namespaced_name group_name
        ServingGroupStatus.scaling) [
          | err e ↦ status_error e
          | ok s' ↦
              let done =
                delete_until (delete_role clear ms.namespaced_name group_name role.name) s' (
                  role_targets slices scaled get_pods_by_index s ms group_name role roles
                    expected_count) in
              deletions done.1 done.0 done.2
        ]
