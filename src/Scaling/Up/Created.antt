-- ===== src/Scaling/Up/Created.antt =====
-- The ServingGroups that a scale up leaves in the store: scaleUpServingGroups of
-- pkg/model-serving-controller/controller/model_serving_controller.go
use kthena.Common.{
  ℕ, zero, suc, ◌+◌, ◌≡◌, refl, Option, none, some, List, [], ◌∷◌, if◌then◌else◌, ◌⊎◌, Text,
  text_eq, ◌==◌, arith, Bool-cases, Option-cases, inl, inr, ◌∙◌, sym, ap,
}
use mathlib.Core.Path.{subst}
use kthena.GroupStore.{NamespacedName, name_eq, Store}
use kthena.GroupStore.Ops.{add_role}
use kthena.GroupStore.Ordinal.{generate_serving_group_name, generate_role_id}
use kthena.Scaling.Up.{
  Outcome, done, failed, Cluster, RoleTemplate, create_pods_by_role, create_replicas,
  create_pods_for_serving_group,
}
use kthena.Scaling.Up.Growth.{Brief, find_brief, or_else, fresh_if, add_role-brief}

module _ (m : NamespacedName) where
  abbrev pub Same : Store → Store → Type 0
  Same s s' = (name : Text) → find_brief s' m name ≡ find_brief s m name

  -- The group `g` is there, created at the revision if it was missing.
  abbrev pub Touched : Text → Text → Store → Store → Type 0
  Touched g revision s s' =
      (name : Text)
      → find_brief s' m name ≡ or_else (find_brief s m name) (fresh_if (g == name) revision)

  abbrev pub Grown : Text → Text → Store → Store → Type 0
  Grown g revision s s' = Same s s' ⊎ Touched g revision s s'

  or_else_twice : (o p : Option Brief) → or_else (or_else o p) p ≡ or_else o p
  or_else_twice none none = refl
  or_else_twice none (some b) = refl
  or_else_twice (some b) p = refl

  Grown-then :
      (g revision : Text) (s s' s'' : Store)
      → Grown g revision s s'
      → Grown g revision s' s''
      → Grown g revision s s''
  Grown-then g revision s s' s'' (inl same) (inl same') = inl (λ name. same' name ∙ same name)
  Grown-then g revision s s' s'' (inl same) (inr touched) =
      inr (λ name. touched name ∙ ap (λ o. or_else o (fresh_if (g == name) revision)) (same name))
  Grown-then g revision s s' s'' (inr touched) (inl same') = inr (λ name. same' name ∙ touched name)
  Grown-then g revision s s' s'' (inr touched) (inr touched') = inr (λ name.
      touched' name
      ∙ ap (λ o. or_else o (fresh_if (g == name) revision)) (touched name)
      ∙ or_else_twice (find_brief s m name) (fresh_if (g == name) revision))

  pub Touched-then :
      (g revision : Text) (s s' s'' : Store)
      → Grown g revision s s'
      → Touched g revision s' s''
      → Touched g revision s s''
  Touched-then g revision s s' s'' grown touched name = elim grown [
    | inl same ↦ touched name ∙ ap (λ o. or_else o (fresh_if (g == name) revision)) (same name)
    | inr before ↦
        touched name
        ∙ ap (λ o. or_else o (fresh_if (g == name) revision)) (before name)
        ∙ or_else_twice (find_brief s m name) (fresh_if (g == name) revision)
  ]

  module _ {E : Type 0} (cluster : Cluster E) (ordinal : ℕ) (revision : Text) where
    abbrev pub Grows : Store → Store → Type 0
    Grows = Grown (generate_serving_group_name m.name ordinal) revision

    Outcome-cases : (o : Outcome E) → ((e : E) × (o ≡ failed e)) ⊎ ((hash : Text) × (o ≡ done hash))
    Outcome-cases (done hash) = inr (hash, refl)
    Outcome-cases (failed e) = inl (e, refl)

    started-Grown :
        (s : Store) (r i hash : Text)
        → Grows s (
            if cluster.role_coordination
            then add_role s m (generate_serving_group_name m.name ordinal) r i revision hash
            else s)
    started-Grown s r i hash = elim (Bool-cases cluster.role_coordination) [
      | inl on ↦ rw on (
          inr (λ name.
            add_role-brief m revision s (generate_serving_group_name m.name ordinal) r i hash name))
      | inr off ↦ rw off (inl (λ name. refl))
    ]

    role-Grown :
        (s : Store) (role_name : Text) (role_index : ℕ)
        → Grows s (create_pods_by_role cluster m ordinal revision s role_name role_index).0
    unfolding create_pods_by_role
    role-Grown s role_name role_index =
        let g = generate_serving_group_name m.name ordinal in
        let role_id = generate_role_id role_name role_index in
        let after = (create_pods_by_role cluster m ordinal revision s role_name role_index).0 in
        elim (Outcome-cases (cluster.render_role role_name role_index ordinal revision)) [
          | inl (e, broken) ↦
              let result : after ≡ s = ground (arith, broken) in
              subst (Grows s) (sym result) (inl (λ name. refl))
          | inr (hash, rendered) ↦
              elim (Option-cases (cluster.create_entry_pod role_name role_index ordinal revision)) [
                | inr (e, broken) ↦
                    let result : after ≡ s = ground (arith, rendered, broken) in
                    subst (Grows s) (sym result) (inl (λ name. refl))
                | inl entry ↦
                    let started : Store =
                      if cluster.role_coordination
                      then add_role s m g role_name role_id revision hash
                      else s in
                    let begun : Grows s started = started-Grown s role_name role_id hash in
                    elim (Option-cases
                      (cluster.create_worker_pods role_name role_index ordinal revision)) [
                        | inr (e, broken) ↦
                            let result : after ≡ started =
                              ground (arith, rendered, entry, broken) in
                            subst (Grows s) (sym result) begun
                        | inl workers ↦
                            let result : after
                                ≡ add_role started m g role_name role_id revision hash =
                              ground (arith, rendered, entry, workers) in
                            subst (Grows s) (sym result) (
                              Grown-then g revision s started
                                (add_role started m g role_name role_id revision hash) begun
                                (inr (λ name.
                                  add_role-brief m revision started g role_name role_id hash name)))
                      ]
              ]
        ]

    replicas-Grown :
        (left : ℕ) (role_name : Text) (role_index : ℕ) (s : Store)
        → Grows s (create_replicas cluster m ordinal revision left role_name role_index s).0
    unfolding create_replicas
    replicas-Grown zero role_name role_index s = inl (λ name. refl)
    replicas-Grown (suc left) role_name role_index s =
        let g = generate_serving_group_name m.name ordinal in
        let one = create_pods_by_role cluster m ordinal revision s role_name role_index in
        let after =
          (create_replicas cluster m ordinal revision (suc left) role_name role_index s).0 in
        let first : Grows s one.0 = role-Grown s role_name role_index in
        elim (Option-cases one.1) [
          | inr (e, broken) ↦
              let result : after ≡ one.0 = ground (arith, broken) in
              subst (Grows s) (sym result) first
          | inl fine ↦
              let result : after
                  ≡ (create_replicas cluster m ordinal revision left role_name (role_index + 1)
                      one.0).0 =
                ground (arith, fine) in
              subst (Grows s) (sym result) (
                Grown-then g revision s one.0 _ first
                  (replicas-Grown left role_name (role_index + 1) one.0))
        ]

    pub pods-Grown :
        (roles : List RoleTemplate) (s : Store)
        → Grows s (create_pods_for_serving_group cluster m ordinal revision roles s).0
    unfolding create_pods_for_serving_group
    pods-Grown [] s = inl (λ name. refl)
    pods-Grown (role ∷ roles) s =
        let g = generate_serving_group_name m.name ordinal in
        let one = create_replicas cluster m ordinal revision role.replicas role.name 0 s in
        let after = (create_pods_for_serving_group cluster m ordinal revision (role ∷ roles) s).0 in
        let first : Grows s one.0 = replicas-Grown role.replicas role.name 0 s in
        elim (Option-cases (cluster.role_revision_hash role.name)) [
          | inr (e, broken) ↦
              let result : after ≡ s = ground (arith, broken) in
              subst (Grows s) (sym result) (inl (λ name. refl))
          | inl hashed ↦ elim (Option-cases one.1) [
            | inr (e, broken) ↦
                let result : after ≡ one.0 = ground (arith, hashed, broken) in
                subst (Grows s) (sym result) first
            | inl fine ↦
                let result : after
                    ≡ (create_pods_for_serving_group cluster m ordinal revision roles one.0).0 =
                  ground (arith, hashed, fine) in
                subst (Grows s) (sym result)
                  (Grown-then g revision s one.0 _ first (pods-Grown roles one.0))
          ]
        ]
