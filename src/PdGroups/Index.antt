-- ===== src/PdGroups/Index.antt =====
-- The groups of a ModelServer against their reverse indexes:
-- pkg/kthena-router/datastore/model_server.go
use kthena.Common.{
  ◌≡◌, refl, Bool, true, false, ◌&&◌, Option, none, some, ◌==◌, ==-iff, if◌then◌else◌, arith, Text,
  text_eq, inl, inr, Bool-cases, Option-cases,
}
use mathlib.Core.Path.{subst, sym, ◌∙◌}
use kthena.Common.Dict.{
  Dict, lookup, insert, delete, lookup-insert, lookup-delete, Distinct, insert-Distinct,
  delete-Distinct,
}
use kthena.GroupStore.{NamespacedName, name_eq}
use kthena.PdGroups.{
  PodSets, PdGroupPods, ModelServer, remove_pod, is_empty, shrink_group, pd_group_name_of,
  remove_pod_from_pd_groups_locked,
}

-- What a reverse index says of a pod and a group.
abbrev pub indexed : Dict NamespacedName Text → Text → NamespacedName → Bool
indexed index g p = elim (lookup p index) [ none ↦ false | some h ↦ h == g ]

abbrev pub is_some : Option Text → Bool
is_some none = false
is_some (some g) = true

pub indexed-some :
    (index : Dict NamespacedName Text) (g : Text) (p : NamespacedName)
    → indexed index g p ≡ true
    → lookup p index ≡ some g
indexed-some index g p h = elim (Option-cases (lookup p index)) [
  | inl e ↦ ground (arith, e)
  | inr (k, e) ↦ ground (arith, e, ==-iff k g)
]

module _ {S : Type 0} (sets : PodSets S) where
  -- What the groups say: on a side of them.
  abbrev pub in_group :
      (PdGroupPods S → S) → Dict Text (PdGroupPods S) → Text → NamespacedName → Bool
  in_group side groups g p = elim (lookup g groups) [
    | none ↦ false
    | some group ↦ sets.contains p (side group)
  ]

  abbrev pub decode_side : PdGroupPods S → S
  decode_side group = group.decode_pods

  abbrev pub prefill_side : PdGroupPods S → S
  prefill_side group = group.prefill_pods

  -- No group is empty.
  abbrev pub NonEmpty : Dict Text (PdGroupPods S) → Type 0
  NonEmpty groups =
      (g : Text) (group : PdGroupPods S)
      → lookup g groups ≡ some group
      → is_empty sets group ≡ false

  pub record IsValid (m : ModelServer S) : Type 0 where
    pub distinct : Distinct m.pd_groups
    pub non_empty : NonEmpty m.pd_groups
    pub decode_indexed :
        (g : Text) (p : NamespacedName)
        → in_group decode_side m.pd_groups g p ≡ indexed m.decode_pod_groups g p
    pub prefill_indexed :
        (g : Text) (p : NamespacedName)
        → in_group prefill_side m.pd_groups g p ≡ indexed m.prefill_pod_groups g p
    pub exclusive :
        (p : NamespacedName)
        → (is_some (lookup p m.decode_pod_groups) && is_some (lookup p m.prefill_pod_groups))
          ≡ false

  -- A group with a pod put in.
  pub in_group-insert :
      (side : PdGroupPods S → S) (groups : Dict Text (PdGroupPods S)) (g h : Text)
      (group : PdGroupPods S) (p : NamespacedName)
      → in_group side (insert g group groups) h p
        ≡ (if g == h then sets.contains p (side group) else in_group side groups h p)
  in_group-insert side groups g h group p = ground (arith, lookup-insert g h group groups)

  in_group-delete :
      (side : PdGroupPods S → S) (groups : Dict Text (PdGroupPods S)) (g h : Text)
      (p : NamespacedName)
      → in_group side (delete g groups) h p ≡ (if g == h then false else in_group side groups h p)
  in_group-delete side groups g h p = ground (arith, lookup-delete g h groups)

  -- What the two sides of a group have in common.
  abbrev pub IsSide : (PdGroupPods S → S) → Type 0
  IsSide side =
      (group : PdGroupPods S) (p : NamespacedName)
      → (side (remove_pod sets p group) ≡ sets.remove p (side group))
        × (is_empty sets group ≡ true → sets.contains p (side group) ≡ false)

  pub decode-IsSide : IsSide decode_side
  unfolding remove_pod is_empty
  decode-IsSide group p = (refl, λ e. sets.contains_none p group.decode_pods (ground arith))

  pub prefill-IsSide : IsSide prefill_side
  unfolding remove_pod is_empty
  prefill-IsSide group p = (refl, λ e. sets.contains_none p group.prefill_pods (ground arith))

  in_group-remove :
      (side : PdGroupPods S → S) (group : PdGroupPods S) (p q : NamespacedName)
      → IsSide side
      → sets.contains q (side (remove_pod sets p group))
        ≡ (if p == q then false else sets.contains q (side group))
  in_group-remove side group p q h = rw (h group p).0 (sets.contains_remove p q (side group))

  in_group-shrink :
      (side : PdGroupPods S → S) (groups : Dict Text (PdGroupPods S)) (g h : Text)
      (p q : NamespacedName)
      → IsSide side
      → in_group side (shrink_group sets groups g p) h q
        ≡ (if (g == h) && (p == q) then false else in_group side groups h q)
  unfolding shrink_group
  in_group-shrink side groups g h p q is_side = elim (Option-cases (lookup g groups)) [
    | inl e ↦ ground (arith, ==-iff g h, e)
    | inr (group, e) ↦
        let left = in_group-remove side group p q is_side in
        let gone = (is_side (remove_pod sets p group) q).1 in
        let deleted = in_group-delete side groups g h q in
        let inserted = in_group-insert side groups g h (remove_pod sets p group) q in
        ground (arith, left, gone, deleted, inserted, ==-iff g h, e)
  ]

  shrink_cases {κ} :
      (P : Dict Text (PdGroupPods S) → Type κ) (groups : Dict Text (PdGroupPods S)) (g : Text)
      (p : NamespacedName)
      → P groups
      → P (delete g groups)
      → ((group : PdGroupPods S) → P (insert g group groups))
      → P (shrink_group sets groups g p)
  unfolding shrink_group
  shrink_cases P groups g p same deleted inserted = elim (Option-cases (lookup g groups)) [
    | inl e ↦
        let unchanged : shrink_group sets groups g p ≡ groups = ground (arith, e) in
        subst P (sym unchanged) same
    | inr (group, e) ↦ elim (Bool-cases (is_empty sets (remove_pod sets p group))) [
      | inl gone ↦
          let without : shrink_group sets groups g p ≡ delete g groups = ground (arith, e, gone) in
          subst P (sym without) deleted
      | inr left ↦
          let smaller : shrink_group sets groups g p ≡ insert g (remove_pod sets p group) groups =
            ground (arith, e, left) in
          subst P (sym smaller) (inserted (remove_pod sets p group))
    ]
  ]

  pub shrink-Distinct :
      (groups : Dict Text (PdGroupPods S)) (g : Text) (p : NamespacedName)
      → Distinct groups
      → Distinct (shrink_group sets groups g p)
  shrink-Distinct groups g p d =
      shrink_cases Distinct groups g p d (delete-Distinct g groups d)
        (λ group. insert-Distinct g group groups d)

  pub shrink-NonEmpty :
      (groups : Dict Text (PdGroupPods S)) (g : Text) (p : NamespacedName)
      → NonEmpty groups
      → NonEmpty (shrink_group sets groups g p)
  unfolding shrink_group
  shrink-NonEmpty groups g p n h kept found = elim (Option-cases (lookup g groups)) [
    | inl e ↦ n h kept (ground (arith, e, found))
    | inr (group, e) ↦ ground (
      arith,
      e,
      found,
      n h kept,
      lookup-delete g h groups,
      lookup-insert g h (remove_pod sets p group) groups,
    )
  ]

  -- A removal takes the pod out of the groups and of both indexes.
  pub lookup_decode-remove :
      (m : ModelServer S) (p q : NamespacedName)
      → lookup q (remove_pod_from_pd_groups_locked sets m p).decode_pod_groups
        ≡ (if p == q then none else lookup q m.decode_pod_groups)
  unfolding remove_pod_from_pd_groups_locked pd_group_name_of
  lookup_decode-remove m p q = ground (arith, lookup-delete p q m.decode_pod_groups, ==-iff p q)

  pub lookup_prefill-remove :
      (m : ModelServer S) (p q : NamespacedName)
      → IsValid m
      → lookup q (remove_pod_from_pd_groups_locked sets m p).prefill_pod_groups
        ≡ (if p == q then none else lookup q m.prefill_pod_groups)
  unfolding remove_pod_from_pd_groups_locked pd_group_name_of
  lookup_prefill-remove m p q v = ground (arith, lookup-delete p q m.prefill_pod_groups, ==-iff p q)

  remove_cases {κ} :
      (P : Dict Text (PdGroupPods S) → Type κ) (m : ModelServer S) (p : NamespacedName)
      → P m.pd_groups
      → ((g : Text) → P (shrink_group sets m.pd_groups g p))
      → P (remove_pod_from_pd_groups_locked sets m p).pd_groups
  unfolding remove_pod_from_pd_groups_locked
  remove_cases P m p same smaller =
      elim (pd_group_name_of m p)
        as (λ name.
          P
            (elim name as (λ _. ModelServer S) [
              | none ↦ m
              | some g ↦ record m {
                pd_groups = shrink_group sets m.pd_groups g p;
                decode_pod_groups = delete p m.decode_pod_groups;
                prefill_pod_groups = delete p m.prefill_pod_groups;
              }
            ]).pd_groups) [ none ↦ same | some g ↦ smaller g ]

  -- The group that the removal shrinks is the only one that the pod is in.
  pub remove-in_group :
      (side : PdGroupPods S → S) (m : ModelServer S) (p q : NamespacedName) (h : Text)
      → IsSide side
      → (in_group side m.pd_groups h p ≡ true → pd_group_name_of m p ≡ some h)
      → in_group side (remove_pod_from_pd_groups_locked sets m p).pd_groups h q
        ≡ (if p == q then false else in_group side m.pd_groups h q)
  unfolding remove_pod_from_pd_groups_locked
  remove-in_group side m p q h is_side only = elim (Option-cases (pd_group_name_of m p)) [
    | inl e ↦ ground (arith, e, only, ==-iff p q)
    | inr (g, e) ↦
        ground
          (arith, e, only, ==-iff p q, ==-iff g h, in_group-shrink side m.pd_groups g h p q is_side)
  ]

  decode_only :
      (m : ModelServer S) (p : NamespacedName) (h : Text)
      → IsValid m
      → in_group decode_side m.pd_groups h p ≡ true
      → pd_group_name_of m p ≡ some h
  unfolding pd_group_name_of
  decode_only m p h v inside =
      let found : lookup p m.decode_pod_groups ≡ some h =
        indexed-some m.decode_pod_groups h p (sym (v.decode_indexed h p) ∙ inside) in
      ground (arith, found)

  prefill_only :
      (m : ModelServer S) (p : NamespacedName) (h : Text)
      → IsValid m
      → in_group prefill_side m.pd_groups h p ≡ true
      → pd_group_name_of m p ≡ some h
  unfolding pd_group_name_of
  prefill_only m p h v inside =
      let found : lookup p m.prefill_pod_groups ≡ some h =
        indexed-some m.prefill_pod_groups h p (sym (v.prefill_indexed h p) ∙ inside) in
      ground (arith, found, v.exclusive p)

  pub remove-IsValid :
      (m : ModelServer S) (p : NamespacedName)
      → IsValid m
      → IsValid (remove_pod_from_pd_groups_locked sets m p)
  remove-IsValid m p v = record {
    distinct =
        remove_cases Distinct m p v.distinct (λ g. shrink-Distinct m.pd_groups g p v.distinct);
    non_empty =
        remove_cases NonEmpty m p v.non_empty (λ g. shrink-NonEmpty m.pd_groups g p v.non_empty);
    decode_indexed = λ h q.
        let groups =
          remove-in_group decode_side m p q h decode-IsSide
            (λ inside. decode_only m p h v inside) in
        ground (arith, groups, lookup_decode-remove m p q, v.decode_indexed h q);
    prefill_indexed = λ h q.
        let groups =
          remove-in_group prefill_side m p q h prefill-IsSide
            (λ inside. prefill_only m p h v inside) in
        ground (arith, groups, lookup_prefill-remove m p q v, v.prefill_indexed h q);
    exclusive = λ q.
        ground (arith, lookup_decode-remove m p q, lookup_prefill-remove m p q v, v.exclusive q);
  }
