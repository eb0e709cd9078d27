-- ===== src/PdGroups/Assign.antt =====
-- A pod is put into a group: pkg/kthena-router/datastore/model_server.go
use kthena.Common.{
  ◌≡◌, ◌⊎◌, true, false, ◌&&◌, none, some, ◌==◌, ==-iff, ==-refl, if◌then◌else◌, arith, Text,
  text_eq, ◌∙◌,
}
use kthena.Common.Dict.{Dict, lookup, insert, lookup-insert, insert-Distinct}
use kthena.GroupStore.{NamespacedName, name_eq, get_or}
use kthena.PdGroups.{
  PodSets, PdGroupPods, ModelServer, new_pd_group_pods, add_decode_pod, add_prefill_pod, is_empty,
  with_decode_pod, with_prefill_pod,
}
use kthena.PdGroups.Index.{in_group, decode_side, prefill_side, IsValid, NonEmpty}
use kthena.PdGroups.Classes.{decode, prefill, classified}

module _ {S : Type 0} (sets : PodSets S) where
  decode-put :
      (groups : Dict Text (PdGroupPods S)) (g h : Text) (p q : NamespacedName)
      → in_group sets
          (decode_side sets)
          (insert g
            (add_decode_pod sets p (get_or (lookup g groups) (new_pd_group_pods sets)))
            groups)
          h
          q
        ≡ (if (g == h) && (p == q) then true else in_group sets (decode_side sets) groups h q)
  unfolding add_decode_pod new_pd_group_pods
  decode-put groups g h p q = ground (
    arith,
    lookup-insert g h (add_decode_pod sets p (get_or (lookup g groups) (new_pd_group_pods sets)))
        groups,
    ==-iff g h,
    sets.contains_put p q (get_or (lookup g groups) (new_pd_group_pods sets)).decode_pods,
    sets.contains_new q,
  )

  prefill-put-decode :
      (groups : Dict Text (PdGroupPods S)) (g h : Text) (p q : NamespacedName)
      → in_group sets
          (prefill_side sets)
          (insert g
            (add_decode_pod sets p (get_or (lookup g groups) (new_pd_group_pods sets)))
            groups)
          h
          q
        ≡ in_group sets (prefill_side sets) groups h q
  unfolding add_decode_pod new_pd_group_pods
  prefill-put-decode groups g h p q = ground (
    arith,
    lookup-insert g h (add_decode_pod sets p (get_or (lookup g groups) (new_pd_group_pods sets)))
        groups,
    ==-iff g h,
    sets.contains_new q,
  )

  decode-non_empty :
      (p : NamespacedName) (group : PdGroupPods S)
      → is_empty sets (add_decode_pod sets p group) ≡ false
  unfolding is_empty add_decode_pod
  decode-non_empty p group = ground (
    arith,
    sets.contains_put p p group.decode_pods,
    ==-refl p,
    sets.contains_none p (sets.put p group.decode_pods),
  )

  prefill-put :
      (groups : Dict Text (PdGroupPods S)) (g h : Text) (p q : NamespacedName)
      → in_group sets
          (prefill_side sets)
          (insert g
            (add_prefill_pod sets p (get_or (lookup g groups) (new_pd_group_pods sets)))
            groups)
          h
          q
        ≡ (if (g == h) && (p == q) then true else in_group sets (prefill_side sets) groups h q)
  unfolding add_prefill_pod new_pd_group_pods
  prefill-put groups g h p q = ground (
    arith,
    lookup-insert g h (add_prefill_pod sets p (get_or (lookup g groups) (new_pd_group_pods sets)))
        groups,
    ==-iff g h,
    sets.contains_put p q (get_or (lookup g groups) (new_pd_group_pods sets)).prefill_pods,
    sets.contains_new q,
  )

  decode-put-prefill :
      (groups : Dict Text (PdGroupPods S)) (g h : Text) (p q : NamespacedName)
      → in_group sets
          (decode_side sets)
          (insert g
            (add_prefill_pod sets p (get_or (lookup g groups) (new_pd_group_pods sets)))
            groups)
          h
          q
        ≡ in_group sets (decode_side sets) groups h q
  unfolding add_prefill_pod new_pd_group_pods
  decode-put-prefill groups g h p q = ground (
    arith,
    lookup-insert g h (add_prefill_pod sets p (get_or (lookup g groups) (new_pd_group_pods sets)))
        groups,
    ==-iff g h,
    sets.contains_new q,
  )

  prefill-non_empty :
      (p : NamespacedName) (group : PdGroupPods S)
      → is_empty sets (add_prefill_pod sets p group) ≡ false
  unfolding is_empty add_prefill_pod
  prefill-non_empty p group = ground (
    arith,
    sets.contains_put p p group.prefill_pods,
    ==-refl p,
    sets.contains_none p (sets.put p group.prefill_pods),
  )

  insert-NonEmpty :
      (groups : Dict Text (PdGroupPods S)) (g : Text) (group : PdGroupPods S)
      → is_empty sets group ≡ false
      → NonEmpty sets groups
      → NonEmpty sets (insert g group groups)
  insert-NonEmpty groups g group e n h kept found =
      ground (arith, e, n h kept, found, lookup-insert g h group groups)

  pub with_decode_pod-IsValid :
      (m : ModelServer S) (g : Text) (p : NamespacedName)
      → (classified m p ≡ none) ⊎ (classified m p ≡ some (decode g))
      → IsValid sets m
      → IsValid sets (with_decode_pod sets m g p)
  unfolding with_decode_pod classified
  with_decode_pod-IsValid m g p free v = record {
    distinct = insert-Distinct g _ m.pd_groups v.distinct;
    non_empty = insert-NonEmpty m.pd_groups g _ (decode-non_empty p _) v.non_empty;
    decode_indexed = λ h q. ground (
      arith,
      decode-put m.pd_groups g h p q,
      lookup-insert p q g m.decode_pod_groups,
      v.decode_indexed h q,
      ==-iff g h,
      ==-iff p q,
      free,
    );
    prefill_indexed = λ h q. prefill-put-decode m.pd_groups g h p q ∙ v.prefill_indexed h q;
    exclusive = λ q.
        ground (arith, lookup-insert p q g m.decode_pod_groups, v.exclusive q, ==-iff p q, free);
  }

  pub with_prefill_pod-IsValid :
      (m : ModelServer S) (g : Text) (p : NamespacedName)
      → (classified m p ≡ none) ⊎ (classified m p ≡ some (prefill g))
      → IsValid sets m
      → IsValid sets (with_prefill_pod sets m g p)
  unfolding with_prefill_pod classified
  with_prefill_pod-IsValid m g p free v = record {
    distinct = insert-Distinct g _ m.pd_groups v.distinct;
    non_empty = insert-NonEmpty m.pd_groups g _ (prefill-non_empty p _) v.non_empty;
    prefill_indexed = λ h q. ground (
      arith,
      prefill-put m.pd_groups g h p q,
      lookup-insert p q g m.prefill_pod_groups,
      v.prefill_indexed h q,
      ==-iff g h,
      ==-iff p q,
      free,
    );
    decode_indexed = λ h q. decode-put-prefill m.pd_groups g h p q ∙ v.decode_indexed h q;
    exclusive = λ q.
        ground (arith, lookup-insert p q g m.prefill_pod_groups, v.exclusive q, ==-iff p q, free);
  }
