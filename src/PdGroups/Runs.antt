-- ===== src/PdGroups/Runs.antt =====
-- Every run of the methods of a ModelServer: pkg/kthena-router/datastore/model_server.go and the
-- part of store.go that adds and changes it
use kthena.Common.{
  ◌≡◌, refl, Option, Bool-cases, inl, inr, none, List, [], ◌∷◌, if◌then◌else◌, Text, text_eq,
}
use kthena.Common.Dict.{Dict}
use kthena.GroupStore.{NamespacedName, name_eq, get_or}
use kthena.PdGroups.{
  PodSets, WorkloadSelector, ModelServer, add_pod, delete_pod, remove_pod_from_pd_groups_locked,
  categorize_pod_for_pd_group, add_model_server, update_model_server, new_model_server,
  option_equal, selector_equal,
}
use kthena.PdGroups.Index.{IsValid, remove-IsValid}
use kthena.PdGroups.Classes.{classified}
use kthena.PdGroups.Steps.{categorize-IsValid}
use kthena.PdGroups.Loop.{
  wanted, cleared-IsValid, cleared-Ready, all-IsValid, add-IsValid, classified-cleared,
}

-- The methods that change a ModelServer that the store has.
pub data Op (S : Type 0) : Type 0 where
  add : NamespacedName → Op S
  drop : NamespacedName → Op S
  categorize : NamespacedName → Dict Text Text → Op S
  uncategorize : NamespacedName → Op S
  update : Dict NamespacedName (Dict Text Text) → Option WorkloadSelector → Option S → Op S

module _ {S : Type 0} (sets : PodSets S) where
  unfoldable pub apply : ModelServer S → Op S → ModelServer S
  apply m (Op.add p) = add_pod sets m p
  apply m (Op.drop p) = delete_pod sets m p
  apply m (Op.categorize p labels) = categorize_pod_for_pd_group sets m p labels
  apply m (Op.uncategorize p) = remove_pod_from_pd_groups_locked sets m p
  apply m (Op.update labels_of selector pods) = update_model_server sets labels_of selector pods m

  unfoldable pub run_ops : ModelServer S → List (Op S) → ModelServer S
  unfolding apply
  run_ops m [] = m
  run_ops m (op ∷ ops) = run_ops (apply m op) ops

  update-IsValid :
      (labels_of : Dict NamespacedName (Dict Text Text)) (selector : Option WorkloadSelector)
      (pods : Option S) (m : ModelServer S)
      → IsValid sets m
      → IsValid sets (update_model_server sets labels_of selector pods m)
  unfolding update_model_server
  update-IsValid labels_of selector pods m v =
      let kept : IsValid sets
          (record m { workload_selector = selector; pods = get_or pods m.pods }) =
        record {
          distinct = v.distinct;
          non_empty = v.non_empty;
          decode_indexed = v.decode_indexed;
          prefill_indexed = v.prefill_indexed;
          exclusive = v.exclusive;
        } in
      elim (Bool-cases (option_equal selector_equal m.workload_selector selector)) [
        | inl same ↦ rw same kept
        | inr changed ↦ rw changed (
            all-IsValid sets labels_of _ _
              (cleared-Ready sets labels_of selector (get_or pods m.pods))
              (cleared-IsValid sets selector (get_or pods m.pods)))
      ]

  apply-IsValid : (m : ModelServer S) (op : Op S) → IsValid sets m → IsValid sets (apply m op)
  unfolding apply add_pod delete_pod
  apply-IsValid m (Op.add p) v = record {
    distinct = v.distinct;
    non_empty = v.non_empty;
    decode_indexed = v.decode_indexed;
    prefill_indexed = v.prefill_indexed;
    exclusive = v.exclusive;
  }
  apply-IsValid m (Op.drop p) v = record {
    distinct = v.distinct;
    non_empty = v.non_empty;
    decode_indexed = v.decode_indexed;
    prefill_indexed = v.prefill_indexed;
    exclusive = v.exclusive;
  }
  apply-IsValid m (Op.categorize p labels) v = categorize-IsValid sets m p labels v
  apply-IsValid m (Op.uncategorize p) v = remove-IsValid sets m p v
  apply-IsValid m (Op.update labels_of selector pods) v = update-IsValid labels_of selector pods m v

  run_from-IsValid :
      (ops : List (Op S)) (m : ModelServer S) → IsValid sets m → IsValid sets (run_ops m ops)
  unfolding run_ops
  run_from-IsValid [] m v = v
  run_from-IsValid (op ∷ ops) m v = run_from-IsValid ops (apply m op) (apply-IsValid m op v)

  -- After any calls on a ModelServer that was added with any pods: a pod is on a side of a group
  -- exactly when the reverse index of the side says so, no pod is on both sides, no group is empty and
  -- no name of a group stands twice.
  pub run_ops-IsValid :
      (labels_of : Dict NamespacedName (Dict Text Text)) (selector : Option WorkloadSelector)
      (pods : Option S) (ops : List (Op S))
      → IsValid sets (run_ops (add_model_server sets labels_of selector pods) ops)
  run_ops-IsValid labels_of selector pods ops =
      run_from-IsValid ops _ (add-IsValid sets labels_of selector pods)

  -- Adding a ModelServer, or updating it with a selector that is not deeply equal to the one it has,
  -- leaves exactly its pods of known labels classified, each as its labels and the new selector say.
  -- An update with an equal selector changes no pod's class.
  pub add_or_update_lem :
      (labels_of : Dict NamespacedName (Dict Text Text)) (selector : Option WorkloadSelector)
      (pods : Option S) (m : ModelServer S) (q : NamespacedName)
      → (classified (add_model_server sets labels_of selector pods) q ≡ (
          if sets.contains q (get_or pods sets.new_set)
          then wanted sets selector labels_of q
          else none))
        × (classified (update_model_server sets labels_of selector pods m) q ≡ (
            if option_equal selector_equal m.workload_selector selector
            then classified m q
            else if sets.contains q (get_or pods m.pods)
            then wanted sets selector labels_of q
            else none))
  unfolding add_model_server update_model_server new_model_server classified
  add_or_update_lem labels_of selector pods m q = (
    classified-cleared sets labels_of selector (get_or pods sets.new_set) q,
    elim (Bool-cases (option_equal selector_equal m.workload_selector selector)) [
      | inl same ↦ rw same refl
      | inr changed ↦ rw changed (classified-cleared sets labels_of selector (get_or pods m.pods) q)
    ],
  )
