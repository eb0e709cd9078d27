-- ===== src/PdGroups/Steps.antt =====
-- The classification after each method: pkg/kthena-router/datastore/model_server.go
use kthena.Common.{
  ◌≡◌, refl, ◌⊎◌, Option, none, some, ◌==◌, ==-iff, ==-refl, if◌then◌else◌, arith, Text, text_eq,
  inl,
}
use kthena.Common.Dict.{Dict, lookup-insert}
use kthena.GroupStore.{NamespacedName, name_eq}
use kthena.PdGroups.{
  PodSets, ModelServer, get_pd_group_name, with_decode_pod, with_prefill_pod,
  remove_pod_from_pd_groups_locked, categorize_pod_for_pd_group_locked, categorize_pod_for_pd_group,
}
use kthena.PdGroups.Index.{IsValid, remove-IsValid}
use kthena.PdGroups.Classes.{Class, decode, prefill, classify, classified, classified-remove}
use kthena.PdGroups.Assign.{with_decode_pod-IsValid, with_prefill_pod-IsValid}

module _ {S : Type 0} (sets : PodSets S) where
  -- The pod goes where its class says.
  unfoldable pub assign : ModelServer S → NamespacedName → Option Class → ModelServer S
  assign m p none = m
  assign m p (some (decode g)) = with_decode_pod sets m g p
  assign m p (some (prefill g)) = with_prefill_pod sets m g p

  pub categorize_locked-assign :
      (m : ModelServer S) (p : NamespacedName) (labels : Dict Text Text)
      → categorize_pod_for_pd_group_locked sets m p labels
        ≡ assign m p (classify m.workload_selector labels)
  unfolding categorize_pod_for_pd_group_locked classify assign get_pd_group_name
  categorize_locked-assign m p labels = ground arith

  pub assign-IsValid :
      (m : ModelServer S) (p : NamespacedName) (class : Option Class)
      → (classified m p ≡ none) ⊎ (classified m p ≡ class)
      → IsValid sets m
      → IsValid sets (assign m p class)
  unfolding assign
  assign-IsValid m p none free v = v
  assign-IsValid m p (some (decode g)) free v = with_decode_pod-IsValid sets m g p free v
  assign-IsValid m p (some (prefill g)) free v = with_prefill_pod-IsValid sets m g p free v

  pub classified-assign :
      (m : ModelServer S) (p q : NamespacedName) (class : Option Class)
      → (classified m p ≡ none) ⊎ (classified m p ≡ class)
      → classified (assign m p class) q ≡ (if p == q then class else classified m q)
  unfolding assign classified with_decode_pod with_prefill_pod
  classified-assign m p q none free = ground (arith, ==-iff p q, free)
  classified-assign m p q (some (decode g)) free =
      ground (arith, ==-iff p q, free, lookup-insert p q g m.decode_pod_groups)
  classified-assign m p q (some (prefill g)) free =
      ground (arith, ==-iff p q, free, lookup-insert p q g m.prefill_pod_groups)

  -- categorizePodForPDGroupLocked does not touch the selector.
  pub selector-assign :
      (m : ModelServer S) (p : NamespacedName) (class : Option Class)
      → (assign m p class).workload_selector ≡ m.workload_selector
  unfolding assign with_decode_pod with_prefill_pod
  selector-assign m p none = refl
  selector-assign m p (some (decode g)) = refl
  selector-assign m p (some (prefill g)) = refl

  selector-remove :
      (m : ModelServer S) (p : NamespacedName)
      → (remove_pod_from_pd_groups_locked sets m p).workload_selector ≡ m.workload_selector
  unfolding remove_pod_from_pd_groups_locked
  selector-remove m p = ground arith

  removed_free :
      (m : ModelServer S) (p : NamespacedName)
      → IsValid sets m
      → classified (remove_pod_from_pd_groups_locked sets m p) p ≡ none
  removed_free m p v = ground (arith, classified-remove sets m p p v, ==-refl p)

  pub categorize-IsValid :
      (m : ModelServer S) (p : NamespacedName) (labels : Dict Text Text)
      → IsValid sets m
      → IsValid sets (categorize_pod_for_pd_group sets m p labels)
  unfolding categorize_pod_for_pd_group
  categorize-IsValid m p labels v =
      let m' = remove_pod_from_pd_groups_locked sets m p in
      rw (categorize_locked-assign m' p labels)
        (assign-IsValid m' p _ (inl (removed_free m p v)) (remove-IsValid sets m p v))

  -- A pod is classified as its labels and the selector say, whatever its class was, and the class of
  -- every other pod stays.
  pub categorize_lem :
      (m : ModelServer S) (p q : NamespacedName) (labels : Dict Text Text)
      → IsValid sets m
      → classified (categorize_pod_for_pd_group sets m p labels) q
        ≡ (if p == q then classify m.workload_selector labels else classified m q)
  unfolding categorize_pod_for_pd_group
  categorize_lem m p q labels v =
      let m' = remove_pod_from_pd_groups_locked sets m p in
      let locked = categorize_locked-assign m' p labels in
      let result =
        classified-assign m' p q (classify m'.workload_selector labels)
          (inl (removed_free m p v)) in
      ground (arith, locked, result, selector-remove m p, classified-remove sets m p q v)
