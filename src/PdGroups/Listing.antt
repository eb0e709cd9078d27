-- ===== src/PdGroups/Listing.antt =====
-- What the lists of pods hold: pkg/kthena-router/datastore/model_server.go
use kthena.Common.{
  ◌≡◌, ◌↔◌, ◌≢◌, Any, Any-append_left, Any-append-cases, Any-append_right, true, false, none, some,
  [], ◌∷◌, ◌==◌, ==-iff, ==-refl, arith, Text, text_eq, inl, inr, Bool-cases, Option-cases, sym,
  ◌∙◌,
}
use kthena.Common.Dict.{Dict, lookup, Distinct}
use kthena.GroupStore.{NamespacedName, name_eq}
use kthena.PdGroups.{
  PodSets, PdGroupPods, ModelServer, pd_group_of, all_pods, get_all_decode_pods,
  get_all_prefill_pods, get_prefill_pods_for_decode_group,
}
use kthena.PdGroups.Index.{IsValid, in_group, prefill_side, decode_side}
use kthena.PdGroups.Classes.{decode, prefill, classified}

module _ {S : Type 0} (sets : PodSets S) where
  decode_of :
      (m : ModelServer S) (p : NamespacedName) (g : Text)
      → classified m p ≡ some (decode g)
      → lookup p m.decode_pod_groups ≡ some g
  unfolding classified
  decode_of m p g e = ground (arith, e)

  in_prefill :
      (m : ModelServer S) (q : NamespacedName) (g : Text)
      → IsValid sets m
      → (in_group sets (prefill_side sets) m.pd_groups g q ≡ true)
        ↔ (classified m q ≡ some (prefill g))
  unfolding classified
  in_prefill m q g v = elim (Option-cases (lookup q m.prefill_pod_groups)) [
    | inl e ↦ ground (arith, v.prefill_indexed g q, v.exclusive q, e)
    | inr (h, e) ↦ ground (arith, v.prefill_indexed g q, v.exclusive q, e, ==-iff h g)
  ]

  pods_for_group :
      (m : ModelServer S) (p q : NamespacedName) (g : Text)
      → pd_group_of m ≢ none
      → lookup p m.decode_pod_groups ≡ some g
      → Any (λ x. q ≡ x) (get_prefill_pods_for_decode_group sets m p)
        ↔ (in_group sets (prefill_side sets) m.pd_groups g q ≡ true)
  unfolding get_prefill_pods_for_decode_group
  pods_for_group m p q g configured e = elim (Option-cases (pd_group_of m)) [
    | inl none' ↦ absurd (configured none')
    | inr (pd_group, c) ↦ elim (Option-cases (lookup g m.pd_groups)) [
      | inl missing ↦
          let empty : get_prefill_pods_for_decode_group sets m p ≡ [] =
            ground (arith, c, e, missing) in
          let outside : in_group sets (prefill_side sets) m.pd_groups g q ≡ false =
            ground (arith, missing) in
          rw empty (λ h. elim h [ ], λ inside. ground (arith, inside, outside))
      | inr (group, found) ↦
          let listed : get_prefill_pods_for_decode_group sets m p
              ≡ sets.unsorted_list group.prefill_pods =
            ground (arith, c, e, found) in
          let inside : in_group sets (prefill_side sets) m.pd_groups g q
              ≡ sets.contains q group.prefill_pods =
            ground (arith, found) in
          let (to, from) = sets.listed q group.prefill_pods in
          rw listed (λ h. inside ∙ to h, λ h. from (sym inside ∙ h))
    ]
  ]

  -- With a PD group configured, the pods listed for a decode pod are the prefill pods of its group.
  pub get_prefill_pods_for_decode_group_lem :
      (m : ModelServer S) (p q : NamespacedName) (g : Text)
      → IsValid sets m
      → pd_group_of m ≢ none
      → classified m p ≡ some (decode g)
      → Any (λ x. q ≡ x) (get_prefill_pods_for_decode_group sets m p)
        ↔ (classified m q ≡ some (prefill g))
  get_prefill_pods_for_decode_group_lem m p q g v configured e =
      let (to, from) = pods_for_group m p q g configured (decode_of m p g e) in
      let (classed, inside) = in_prefill m q g v in (λ h. classed (to h), λ h. from (inside h))

  listed→in_group :
      (side : PdGroupPods S → S) (groups : Dict Text (PdGroupPods S)) (q : NamespacedName)
      → Distinct groups
      → Any (λ x. q ≡ x) (all_pods sets side groups)
      → (g : Text) × (in_group sets side groups g q ≡ true)
  unfolding all_pods lookup
  listed→in_group side [] q d h = elim h [ ]
  listed→in_group side ((k, group) ∷ groups) q d h =
      elim (Any-append-cases (λ x. q ≡ x) (sets.unsorted_list (side group))
        (all_pods sets side groups) h) [
          | inl first ↦ (k, ground (arith, ==-refl k, (sets.listed q (side group)).0 first))
          | inr later ↦
              let (g, inside) = listed→in_group side groups q d.1 later in
              (g, ground (arith, ==-iff k g, inside, d.0))
        ]

  in_group→listed :
      (side : PdGroupPods S → S) (groups : Dict Text (PdGroupPods S)) (q : NamespacedName)
      (g : Text)
      → in_group sets side groups g q ≡ true
      → Any (λ x. q ≡ x) (all_pods sets side groups)
  unfolding all_pods lookup
  in_group→listed side [] q g inside = cc
  in_group→listed side ((k, group) ∷ groups) q g inside = elim (Bool-cases (k == g)) [
    | inl same ↦
        Any-append_left (λ x. q ≡ x) (sets.unsorted_list (side group)) (all_pods sets side groups)
          ((sets.listed q (side group)).1 (ground (arith, inside, same)))
    | inr other ↦
        Any-append_right (λ x. q ≡ x) (sets.unsorted_list (side group)) (all_pods sets side groups)
          (in_group→listed side groups q g (ground (arith, inside, other)))
  ]

  in_decode :
      (m : ModelServer S) (q : NamespacedName) (g : Text)
      → IsValid sets m
      → (in_group sets (decode_side sets) m.pd_groups g q ≡ true)
        ↔ (classified m q ≡ some (decode g))
  unfolding classified
  in_decode m q g v = elim (Option-cases (lookup q m.decode_pod_groups)) [
    | inl e ↦ ground (arith, v.decode_indexed g q, e)
    | inr (h, e) ↦ ground (arith, v.decode_indexed g q, e, ==-iff h g)
  ]

  -- The pods listed on a side of all groups are the pods classified on it.
  pub get_all_pods_lem :
      (m : ModelServer S) (q : NamespacedName)
      → IsValid sets m
      → (Any (λ x. q ≡ x) (get_all_decode_pods sets m)
          ↔ ((g : Text) × (classified m q ≡ some (decode g))))
        × (Any (λ x. q ≡ x) (get_all_prefill_pods sets m)
            ↔ ((g : Text) × (classified m q ≡ some (prefill g))))
  unfolding get_all_decode_pods get_all_prefill_pods
  get_all_pods_lem m q v = (
    (
      λ h.
          let (g, inside) = listed→in_group (decode_side sets) m.pd_groups q v.distinct h in
          (g, (in_decode m q g v).0 inside),
      λ (g, e). in_group→listed (decode_side sets) m.pd_groups q g ((in_decode m q g v).1 e),
    ),
    (
      λ h.
          let (g, inside) = listed→in_group (prefill_side sets) m.pd_groups q v.distinct h in
          (g, (in_prefill m q g v).0 inside),
      λ (g, e). in_group→listed (prefill_side sets) m.pd_groups q g ((in_prefill m q g v).1 e),
    ),
  )
