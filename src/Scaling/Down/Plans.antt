-- ===== src/Scaling/Down/Plans.antt =====
-- What a scale down deletes: scaleDownServingGroups and scaleDownRoles of
-- pkg/model-serving-controller/controller/model_serving_controller.go
use mathlib.Core.Path.{subst}
use kthena.Common.{
  sym, Option-cases, ℕ, zero, suc, ◌+◌, ◌-◌, ◌≤◌, ◌<◌, ◌≡◌, refl, Bool, Option, none, some, List,
  [], ◌∷◌, ltb, Text, arith, Bool-cases, ◌⊎◌, inl, inr, length, count, take, Pairs, map, ap,
}
use kthena.Common.Int.{ℤ, pos, negsuc, pos_part}
use kthena.GroupStore.{
  NamespacedName, ServingGroupStatus, Role, ServingGroup, Store, Result, ok, err, Error,
}
use kthena.GroupStore.Ops.{update_serving_group_status}
use kthena.Scaling.Scores.{Score, PodIndex}
use kthena.Scaling.Spec.{
  ModelServing, RoleSpec, get_partition, model_serving_partition, model_serving_replicas,
  role_partition, role_replicas,
}
use kthena.Scaling.Deleting.{Cleared, Failure, delete_serving_group, delete_role}
use kthena.Scaling.Down.{
  SortScores, has_name, protected_names, targets, delete_all, delete_until, group_scores,
  group_targets, scale_down_serving_groups, role_scores, role_targets, scale_down_roles, not_needed,
  status_error, deletions,
}
use kthena.Scaling.Down.Choice.{GoesFirst, Unguarded, kept, choice_lem}

-- A deletion of `total` replicas out of those that the scores describe: as many are chosen, each
-- replica is chosen or stays, and each chosen one goes before each that stays.
abbrev pub Chooses : (Score → Bool) → List Score → ℕ → List Score → List Score → Type 0
Chooses protected scores total chosen stay =
    (length chosen ≡ total)
    × ((test : Score → Bool) → count test chosen + count test stay ≡ count test scores)
    × Pairs (GoesFirst protected) chosen stay

-- The replicas among the first records, as many as the partition says.
abbrev pub protects : {A : Type 0} → (A → Text) → ℤ → List A → Score → Bool
protects name_of partition records score =
    has_name score.name (protected_names name_of (pos_part partition) records)

none_named : (scores : List Score) → count (λ score. has_name score.name []) scores ≡ 0
unfolding has_name
none_named [] = refl
none_named (score ∷ scores) = omega (arith, none_named scores)

protects-Unguarded :
    {A : Type 0} (slices : SortScores) (name_of : A → Text) (partition : ℤ) (records : List A)
    (scores : List Score)
    → Unguarded slices (protects name_of partition records) partition scores
unfolding protected_names
protects-Unguarded slices name_of (pos zero) records scores off = none_named scores
protects-Unguarded slices name_of (pos (suc n)) records scores off = absurd (ground (arith, off))
protects-Unguarded slices name_of (negsuc n) records scores off = none_named scores

length-group_scores :
    (get_pods_by_index : PodIndex) (s : Store) (m : NamespacedName) (groups : List ServingGroup)
    → length (group_scores get_pods_by_index s m groups) ≡ length groups
unfolding group_scores
length-group_scores get_pods_by_index s m [] = refl
length-group_scores get_pods_by_index s m (group ∷ groups) =
    omega (arith, length-group_scores get_pods_by_index s m groups)

delete_all-names :
    {F : Type 0} (delete : Store → Text → Store × Option F) (s : Store) (ts : List Score)
    → (delete_all delete s ts).0 ≡ map (λ (t : Score). t.name) ts
unfolding delete_all
delete_all-names delete s [] = refl
delete_all-names delete s (t ∷ ts) =
    ap (λ names. t.name ∷ names) (delete_all-names delete (delete s t.name).0 ts)

-- The store after the deletions of the names, one after the other.
abbrev pub deleting : {F : Type 0} → (Store → Text → Store × Option F) → Store → List Text → Store
deleting delete s [] = s
deleting delete s (name ∷ names) = deleting delete (delete s name).0 names

delete_all-store :
    {F : Type 0} (delete : Store → Text → Store × Option F) (s : Store) (ts : List Score)
    → (delete_all delete s ts).1 ≡ deleting delete s (delete_all delete s ts).0
unfolding delete_all
delete_all-store delete s [] = refl
delete_all-store delete s (t ∷ ts) = delete_all-store delete (delete s t.name).0 ts

-- A scale down deletes the surplus of ServingGroups: no more and no fewer, those outside the partition
-- first, and among equals by status, deletion cost and falling ordinal. An error of a deletion stops
-- none of the others, and the store is that after the deletions.
pub scale_down_serving_groups_lem :
    {P E : Type 0} (slices : SortScores) (scaled : P → ℤ → Option ℤ) (get_pods_by_index : PodIndex)
    (clear : Text → Cleared E) (s : Store) (ms : ModelServing P) (groups : List ServingGroup)
    (expected_count : ℕ)
    → let partition =
        (get_partition scaled (model_serving_partition ms) (model_serving_replicas ms)).value in
      let result =
        scale_down_serving_groups slices scaled get_pods_by_index clear s ms groups
          expected_count in
      (chosen stay : List Score) × (result.0 ≡ map (λ (t : Score). t.name) chosen)
      × (result.1 ≡ deleting (delete_serving_group clear ms.namespaced_name) s result.0)
      × Chooses
          (protects (λ (g : ServingGroup). g.name) partition groups)
          (group_scores get_pods_by_index s ms.namespaced_name groups)
          (length groups - expected_count)
          chosen
          stay
unfolding scale_down_serving_groups group_targets
scale_down_serving_groups_lem slices scaled get_pods_by_index clear s ms groups expected_count =
    let partition =
      (get_partition scaled (model_serving_partition ms) (model_serving_replicas ms)).value in
    let protected = protects (λ (g : ServingGroup). g.name) partition groups in
    let scores = group_scores get_pods_by_index s ms.namespaced_name groups in
    let total = length groups - expected_count in
    (
      targets slices protected partition scores total,
      kept slices protected partition scores total,
      delete_all-names _ s _,
      delete_all-store _ s _,
      choice_lem slices protected partition scores total
          (omega (arith, length-group_scores get_pods_by_index s ms.namespaced_name groups))
          (protects-Unguarded slices (λ (g : ServingGroup). g.name) partition groups scores),
    )

Result-cases : {A : Type 0} (r : Result A) → ((a : A) × (r ≡ ok a)) ⊎ ((e : Error) × (r ≡ err e))
Result-cases (ok a) = inl (a, refl)
Result-cases (err e) = inr (e, refl)

-- The deletions are the first of the list, and all of it if none failed.
abbrev pub Stops : {E : Type 0} → List Score → List Text → Option E → Type 0
Stops chosen names e =
    (names ≡ map (λ (t : Score). t.name) (take (length names) chosen))
    × (e ≡ none → length names ≡ length chosen)

delete_until-Stops :
    {F : Type 0} (delete : Store → Text → Store × Option F) (s : Store) (ts : List Score)
    → let done = delete_until delete s ts in
      Stops ts done.0 done.2 × (done.1 ≡ deleting delete s done.0)
unfolding delete_until
delete_until-Stops delete s [] = ((refl, λ _. refl), refl)
delete_until-Stops {F} delete s (t ∷ ts) =
    let rest = delete_until delete (delete s t.name).0 ts in
    let ((names, whole), after) = delete_until-Stops delete (delete s t.name).0 ts in
    elim (Option-cases (delete s t.name).1) [
      | inl fine ↦
          let now : delete_until delete s (t ∷ ts) ≡ (t.name ∷ rest.0, rest.1, rest.2) =
            ground (arith, fine) in
          subst
            (λ (d : List Text × Store × Option F).
              Stops (t ∷ ts) d.0 d.2 × (d.1 ≡ deleting delete s d.0))
            (sym now) ((ap (λ l. t.name ∷ l) names, λ e. omega (arith, whole e)), after)
      | inr (e, bad) ↦
          let now : delete_until delete s (t ∷ ts) ≡ (t.name ∷ [], (delete s t.name).0, some e) =
            ground (arith, bad) in
          subst
            (λ (d : List Text × Store × Option F).
              Stops (t ∷ ts) d.0 d.2 × (d.1 ≡ deleting delete s d.0))
            (sym now) ((refl, λ absent. cc), refl)
    ]

-- A scale down of a role's replicas: nothing is done where no more than the expected number are not
-- yet being deleted. Where there are more, an error of the group's status ends it; otherwise the
-- surplus is chosen as for ServingGroups, and deleted up to the first error; the store is that after
-- these deletions.
pub scale_down_roles_lem :
    {P E : Type 0} (slices : SortScores) (scaled : P → ℤ → Option ℤ) (get_pods_by_index : PodIndex)
    (clear : Text → Cleared E) (s : Store) (ms : ModelServing P) (group_name : Text)
    (role : RoleSpec P) (roles : List Role) (expected_count : ℕ)
    → let partition = (get_partition scaled (role_partition ms role) (role_replicas role)).value in
      let scores = role_scores get_pods_by_index s ms.namespaced_name group_name role.name roles in
      let outcome =
        scale_down_roles slices scaled get_pods_by_index clear s ms group_name role roles
          expected_count in
      ((length scores ≤ expected_count) × (outcome ≡ not_needed))
      ⊎ ((e : Error) × (expected_count < length scores)
          × (update_serving_group_status s ms.namespaced_name group_name ServingGroupStatus.scaling
              ≡ err e)
          × (outcome ≡ status_error e))
      ⊎ ((s' : Store) × (chosen stay : List Score) × (after : Store) × (names : List Text)
          × (failure : Option (Failure E)) × (expected_count < length scores)
          × (update_serving_group_status s ms.namespaced_name group_name ServingGroupStatus.scaling
              ≡ ok s')
          × (outcome ≡ deletions after names failure)
          × (after ≡ deleting (delete_role clear ms.namespaced_name group_name role.name) s' names)
          × Chooses
              (protects (λ (r : Role). r.name) partition roles)
              scores
              (length scores - expected_count)
              chosen
              stay
          × Stops chosen names failure)
unfolding scale_down_roles role_targets
scale_down_roles_lem slices scaled get_pods_by_index clear s ms group_name role roles
      expected_count =
    let partition = (get_partition scaled (role_partition ms role) (role_replicas role)).value in
    let protected = protects (λ (r : Role). r.name) partition roles in
    let scores = role_scores get_pods_by_index s ms.namespaced_name group_name role.name roles in
    let total = length scores - expected_count in
    let chosen = targets slices protected partition scores total in
    elim (Bool-cases (ltb expected_count (length scores))) [
      | inr enough ↦ inl (ground (arith, enough), ground (arith, enough))
      | inl surplus ↦
          inr
            (elim (Result-cases (
              update_serving_group_status s ms.namespaced_name group_name
                ServingGroupStatus.scaling)) [
                  | inr (e, failed) ↦
                      inl (e, ground (arith, surplus), failed, ground (arith, surplus, failed))
                  | inl (s', fine) ↦
                      let delete = delete_role clear ms.namespaced_name group_name role.name in
                      let done = delete_until delete s' chosen in
                      let stops = delete_until-Stops delete s' chosen in
                      inr (
                        s',
                        chosen,
                        kept slices protected partition scores total,
                        done.1,
                        done.0,
                        done.2,
                        ground (arith, surplus),
                        fine,
                        ground (arith, surplus, fine),
                        stops.1,
                        choice_lem slices protected partition scores total (omega arith) (
                            protects-Unguarded slices (λ (r : Role). r.name) partition roles
                              scores),
                        stops.0,
                      )
                ])
    ]
