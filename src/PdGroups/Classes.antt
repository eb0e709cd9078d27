-- ===== src/PdGroups/Classes.antt =====
-- How a ModelServer classifies its pods: pkg/kthena-router/datastore/model_server.go
use kthena.Common.{◌≡◌, Option, none, some, [], ◌==◌, if◌then◌else◌, arith, Text, text_eq}
use kthena.Common.Dict.{Dict, lookup}
use kthena.GroupStore.{NamespacedName, name_eq}
use kthena.PdGroups.{
  PodSets, WorkloadSelector, ModelServer, label, matches_labels, remove_pod_from_pd_groups_locked,
}
use kthena.PdGroups.Index.{IsValid, lookup_decode-remove, lookup_prefill-remove}

-- The side and the group that a pod is on.
pub data Class : Type 0 where
  decode prefill : Text → Class

-- What the labels of a pod say.
unfoldable pub classify : Option WorkloadSelector → Dict Text Text → Option Class
classify selector labels = elim selector [
  | none ↦ none
  | some chosen ↦ elim chosen.pd_group [
    | none ↦ none
    | some pd_group ↦
        let g = label labels pd_group.group_key in
        if g == []
        then none
        else if matches_labels labels pd_group.decode_labels
        then some (decode g)
        else if matches_labels labels pd_group.prefill_labels
        then some (prefill g)
        else none
  ]
]

module _ {S : Type 0} where
  -- What the ModelServer has recorded of it.
  unfoldable pub classified : ModelServer S → NamespacedName → Option Class
  classified m p = elim (lookup p m.decode_pod_groups) [
    | some g ↦ some (decode g)
    | none ↦ elim (lookup p m.prefill_pod_groups) [ none ↦ none | some g ↦ some (prefill g) ]
  ]

module _ {S : Type 0} (sets : PodSets S) where
  pub classified-remove :
      (m : ModelServer S) (p q : NamespacedName)
      → IsValid sets m
      → classified (remove_pod_from_pd_groups_locked sets m p) q
        ≡ (if p == q then none else classified m q)
  unfolding classified
  classified-remove m p q v =
      ground (arith, lookup_decode-remove sets m p q, lookup_prefill-remove sets m p q v)
