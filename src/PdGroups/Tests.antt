-- ===== src/PdGroups/Tests.antt =====
-- Concrete pods and labels: pkg/kthena-router/datastore/model_server.go
use kthena.Common.{◌≡◌, ◌≢◌, ◌↔◌, Any, Option, none, some, List, [], ◌∷◌, Text, text_eq, codes}
use kthena.Common.Dict.{Dict, lookup}
use kthena.GroupStore.{NamespacedName, name_eq}
use kthena.PdGroups.{
  pd_group_of, categorize_all, categorize_one, categorize_pod_for_pd_group_locked,
  get_pd_group_name, with_decode_pod, with_prefill_pod, PdGroup, WorkloadSelector, ModelServer,
  categorize_pod_for_pd_group, add_model_server, update_model_server,
  get_prefill_pods_for_decode_group, get_all_decode_pods, get_all_prefill_pods, matches_labels,
  option_equal, selector_equal, pd_group_equal, map_equal,
}
use kthena.PdGroups.Sets.{list_sets}
use kthena.PdGroups.Index.{IsValid}
use kthena.PdGroups.Classes.{decode, prefill, classify, classified}
use kthena.PdGroups.Steps.{categorize_lem}
use kthena.PdGroups.Runs.{Op, run_ops, run_ops-IsValid, add_or_update_lem}
use kthena.PdGroups.Listing.{get_prefill_pods_for_decode_group_lem, get_all_pods_lem}

abbrev pd : PdGroup
pd = record {
  group_key = codes "group";
  decode_labels = (codes "role", codes "decode") ∷ [];
  prefill_labels = (codes "role", codes "prefill") ∷ [];
}

abbrev selector : Option WorkloadSelector
selector = some (record { match_labels = none; pd_group = some pd })

abbrev pod : Text → NamespacedName
pod name = record { namespace = codes "ns"; name = name }

abbrev labels : Text → Text → Dict Text Text
labels group role = (codes "group", group) ∷ (codes "role", role) ∷ []

abbrev known : Dict NamespacedName (Dict Text Text)
known =
    (pod (codes "d"), labels (codes "a") (codes "decode"))
    ∷ (pod (codes "p"), labels (codes "a") (codes "prefill"))
    ∷ []

abbrev server_pods : List NamespacedName
server_pods = pod (codes "d") ∷ pod (codes "p") ∷ []

abbrev server : ModelServer (List NamespacedName)
server = add_model_server list_sets known selector (some server_pods)

server-IsValid : IsValid list_sets server
unfolding run_ops
server-IsValid = run_ops-IsValid list_sets known selector (some server_pods) []

server-configured : pd_group_of server ≢ none
unfolding add_model_server categorize_all categorize_one categorize_pod_for_pd_group_locked
    get_pd_group_name with_decode_pod with_prefill_pod matches_labels lookup
server-configured e = cc

server-decode : classified server (pod (codes "d")) ≡ some (decode (codes "a"))
unfolding classify lookup matches_labels
server-decode =
    (add_or_update_lem list_sets known selector (some server_pods) server (pod (codes "d"))).0

abbrev ops : List (Op (List NamespacedName))
ops =
    Op.categorize (pod (codes "d")) (labels (codes "b") (codes "decode"))
    ∷ Op.uncategorize (pod (codes "p"))
    ∷ []

run_ops-IsValid_example : IsValid list_sets (run_ops list_sets server ops)
run_ops-IsValid_example = run_ops-IsValid list_sets known selector (some server_pods) ops

categorize_lem_example :
    classified
      (categorize_pod_for_pd_group list_sets server
        (pod (codes "d"))
        (labels (codes "b") (codes "decode")))
      (pod (codes "d"))
    ≡ some (decode (codes "b"))
unfolding classify lookup matches_labels add_model_server categorize_all categorize_one
    categorize_pod_for_pd_group_locked get_pd_group_name with_decode_pod with_prefill_pod
categorize_lem_example =
    categorize_lem list_sets server (pod (codes "d")) (pod (codes "d"))
      (labels (codes "b") (codes "decode")) server-IsValid

abbrev swapped : Option WorkloadSelector
swapped = some (record {
  match_labels = none;
  pd_group =
      some (record pd { decode_labels = pd.prefill_labels; prefill_labels = pd.decode_labels });
})

-- With the sides swapped in the selector, the pod changes its side.
add_or_update_lem_example :
    (classified (add_model_server list_sets known swapped (some server_pods)) (pod (codes "p"))
      ≡ some (decode (codes "a")))
    × (classified
          (update_model_server list_sets known swapped (some server_pods) server)
          (pod (codes "p"))
        ≡ some (decode (codes "a")))
unfolding classify lookup matches_labels option_equal selector_equal pd_group_equal map_equal
    add_model_server categorize_all categorize_one categorize_pod_for_pd_group_locked
    get_pd_group_name with_decode_pod with_prefill_pod
add_or_update_lem_example =
    add_or_update_lem list_sets known swapped (some server_pods) server (pod (codes "p"))

get_prefill_pods_for_decode_group_lem_example :
    Any
      (λ x. pod (codes "p") ≡ x)
      (get_prefill_pods_for_decode_group list_sets server (pod (codes "d")))
    ↔ (classified server (pod (codes "p")) ≡ some (prefill (codes "a")))
get_prefill_pods_for_decode_group_lem_example =
    get_prefill_pods_for_decode_group_lem list_sets server (pod (codes "d")) (pod (codes "p"))
      (codes "a") server-IsValid server-configured server-decode

get_all_pods_lem_example :
    (Any (λ x. pod (codes "p") ≡ x) (get_all_decode_pods list_sets server)
      ↔ ((g : Text) × (classified server (pod (codes "p")) ≡ some (decode g))))
    × (Any (λ x. pod (codes "p") ≡ x) (get_all_prefill_pods list_sets server)
        ↔ ((g : Text) × (classified server (pod (codes "p")) ≡ some (prefill g))))
get_all_pods_lem_example = get_all_pods_lem list_sets server (pod (codes "p")) server-IsValid
