-- ===== src/Scaling/Up/Filled.antt =====
-- What a scale up has done, with or without an error: scaleUpServingGroups of
-- pkg/model-serving-controller/controller/model_serving_controller.go
use kthena.Common.{
  ℕ, suc, ◌-◌, ◌≡◌, refl, Bool, true, false, Option, none, some, List, [], ◌∷◌, ◌⊎◌, Text, text_eq,
  ◌==◌, arith, Bool-cases, Option-cases, inl, inr, length, take, ◌∙◌, sym, ap,
}
use kthena.Common.Int.{ℤ}
use kthena.GroupStore.{NamespacedName, name_eq, ServingGroup, Store}
use kthena.GroupStore.Ops.{add_serving_group}
use kthena.GroupStore.Ordinal.{generate_serving_group_name}
use kthena.Scaling.Missing.{missing, fold_until, for_each_missing_ordinal_lem}
use kthena.Scaling.Spec.{
  ModelServing, get_partition, model_serving_partition, model_serving_replicas,
}
use kthena.Scaling.Up.{
  Cluster, RoleTemplate, UpError, partition_error, step_error, existing_ordinals, revision_for,
  create_pods_for_serving_group, create_serving_group, scale_up_serving_groups,
}
use kthena.Scaling.Up.Growth.{Brief, find_brief, or_else, fresh_if, or_else-none, add_group-brief}
use kthena.Scaling.Up.Created.{Touched, Grown, Touched-then, pods-Grown}

module _ (m : NamespacedName) (revision_of : ℕ → Text) where
  -- The ServingGroup of that name among those created for the ordinals.
  abbrev pub created : Text → List ℕ → Option Brief
  created name [] = none
  created name (i ∷ is) =
      or_else (fresh_if (generate_serving_group_name m.name i == name) (revision_of i))
        (created name is)

  or_else_assoc : (a b c : Option Brief) → or_else (or_else a b) c ≡ or_else a (or_else b c)
  or_else_assoc none b c = refl
  or_else_assoc (some x) b c = refl

  -- The groups of a prefix of the ordinals were created, of all of them if there is no error.
  abbrev pub Fills : {E : Type 0} → Store → List ℕ → Store × Option (UpError E) → Type 0
  Fills s is (s', error) =
      (n : ℕ) × ((name : Text)
        → find_brief s' m name ≡ or_else (find_brief s m name) (created name (take n is)))
      × (error ≡ none → take n is ≡ is)

  stopped-Fills :
      {E : Type 0} (s s' : Store) (i : ℕ) (is : List ℕ) (e : UpError E)
      → Grown m (generate_serving_group_name m.name i) (revision_of i) s s'
      → Fills s (i ∷ is) (s', some e)
  stopped-Fills s s' i is e (inl same) =
      (0, λ name. same name ∙ sym (or_else-none (find_brief s m name)), λ absent. cc)
  stopped-Fills s s' i is e (inr touched) = (
    1,
    λ name.
        touched name
        ∙ ap (or_else (find_brief s m name)) (
            sym (
              or_else-none
                (fresh_if (generate_serving_group_name m.name i == name) (revision_of i)))),
    λ absent. cc,
  )

  next-Fills :
      {E : Type 0} (s s' : Store) (i : ℕ) (is : List ℕ) (result : Store × Option (UpError E))
      → Touched m (generate_serving_group_name m.name i) (revision_of i) s s'
      → Fills s' is result
      → Fills s (i ∷ is) result
  next-Fills s s' i is result touched (n, fills, whole) = (
    suc n,
    λ name.
        fills name
        ∙ ap (λ o. or_else o (created name (take n is))) (touched name)
        ∙ or_else_assoc (find_brief s m name)
            (fresh_if (generate_serving_group_name m.name i == name) (revision_of i))
            (created name (take n is)),
    λ absent. ap (λ l. i ∷ l) (whole absent),
  )

  module _ {E : Type 0} (cluster : Cluster E) (roles_at : Text → List RoleTemplate) where
    abbrev handler : Store × Option (UpError E) → ℕ → (Store × Option (UpError E)) × Bool
    handler = create_serving_group cluster m revision_of roles_at

    abbrev Stops : Store → ℕ → Type 0
    Stops s i =
        (s' : Store) × (e : UpError E) × (handler (s, none) i ≡ ((s', some e), false))
        × Grown m (generate_serving_group_name m.name i) (revision_of i) s s'

    abbrev GoesOn : Store → ℕ → Type 0
    GoesOn s i =
        (s' : Store) × (handler (s, none) i ≡ ((s', none), true))
        × Touched m (generate_serving_group_name m.name i) (revision_of i) s s'

    handler_cases : (s : Store) (i : ℕ) → Stops s i ⊎ GoesOn s i
    unfolding create_serving_group
    handler_cases s i =
        let g = generate_serving_group_name m.name i in
        let revision = revision_of i in
        let pods = create_pods_for_serving_group cluster m i revision (roles_at revision) s in
        elim (Option-cases (cluster.workload revision)) [
          | inr (e, broken) ↦ inl (s, step_error e, ground (arith, broken), inl (λ name. refl))
          | inl found ↦ elim (Option-cases (cluster.create_or_update_pod_group revision g)) [
            | inr (e, broken) ↦
                inl (s, step_error e, ground (arith, found, broken), inl (λ name. refl))
            | inl grouped ↦ elim (Option-cases pods.1) [
              | inr (e, broken) ↦ inl (
                pods.0,
                step_error e,
                ground (arith, found, grouped, broken),
                pods-Grown m cluster i revision (roles_at revision) s,
              )
              | inl fine ↦ inr (
                add_serving_group pods.0 m i revision,
                ground (arith, found, grouped, fine),
                Touched-then m g revision s pods.0 _
                    (pods-Grown m cluster i revision (roles_at revision) s)
                    (λ name. add_group-brief m revision pods.0 i name),
              )
            ]
          ]
        ]

    pub fold-Fills : (is : List ℕ) (s : Store) → Fills s is (fold_until handler is (s, none))
    fold-Fills [] s = (0, λ name. sym (or_else-none (find_brief s m name)), λ e. refl)
    fold-Fills (i ∷ is) s = elim (handler_cases s i) [
      | inl (s', e, stops, grown) ↦ rw stops (stopped-Fills s s' i is e grown)
      | inr (s', goes_on, touched) ↦ rw goes_on (next-Fills s s' i is _ touched (fold-Fills is s'))
    ]

-- A scale up fails when the partition does, and changes nothing. Otherwise it creates ServingGroups of
-- a prefix of the missing ordinals, the lowest first and no more than the number that is short, each
-- at the current revision below the partition and at the new one from there on. Without an error it
-- creates all of them. The revision and the status of every group that was there stay.
pub scale_up_serving_groups_lem :
    {P E : Type 0} (scaled : P → ℤ → Option ℤ) (cluster : Cluster E)
    (roles_at : Text → List RoleTemplate) (s : Store) (ms : ModelServing P)
    (groups : List ServingGroup) (expected_count : ℕ) (new_revision : Text)
    → let partition =
        get_partition scaled (model_serving_partition ms) (model_serving_replicas ms) in
      let result =
        scale_up_serving_groups scaled cluster roles_at s ms groups expected_count new_revision in
      ((partition.failed ≡ true) × (result ≡ (s, some partition_error)))
      ⊎ ((partition.failed ≡ false)
          × Fills ms.namespaced_name
              (revision_for ms.current_revision partition.value new_revision)
              s
              (take
                (expected_count - length groups)
                (missing expected_count (existing_ordinals groups)))
              result)
unfolding scale_up_serving_groups
scale_up_serving_groups_lem scaled cluster roles_at s ms groups expected_count new_revision =
    let partition = get_partition scaled (model_serving_partition ms) (model_serving_replicas ms) in
    let revision_of = revision_for ms.current_revision partition.value new_revision in
    let run = create_serving_group cluster ms.namespaced_name revision_of roles_at in
    elim (Bool-cases partition.failed) [
      | inl off ↦ inl (off, ground (arith, off))
      | inr on ↦ inr (
        on,
        rw
            (
              on,
              for_each_missing_ordinal_lem run expected_count (expected_count - length groups)
                  (existing_ordinals groups) (s, none),
            )
            (fold-Fills ms.namespaced_name revision_of cluster roles_at _ s),
      )
    ]
