-- ===== src/PdGroups.antt =====
-- pkg/kthena-router/datastore/model_server.go and pdgroup_pods.go: the pods of a ModelServer by the
-- group and the side (decode or prefill) that their labels say. The sets of pods are those of a
-- library, and so a parameter with the laws that the code relies on.
pub mod Tests
pub mod Sets
pub mod Index
pub mod Classes
pub mod Assign
pub mod Steps
pub mod Loop
pub mod Runs
pub mod Listing
use kthena.Common.{
  ℕ, ◌≡◌, ◌↔◌, Bool, true, false, not, ◌&&◌, Option, none, some, List, [], ◌∷◌, ◌++◌, ◌==◌, nat_beq,
  if◌then◌else◌, Text, text_eq, Any, length,
}
use kthena.Common.Dict.{Dict, lookup, insert, delete, has}
use kthena.GroupStore.{NamespacedName, name_eq, get_or}

-- k8s.io/apimachinery/pkg/util/sets at `types.NamespacedName`.
pub record PodSets (S : Type 0) : Type 0 where
  pub new_set : S
  pub put : NamespacedName → S → S
  pub remove : NamespacedName → S → S
  pub contains : NamespacedName → S → Bool
  pub len : S → ℕ
  pub unsorted_list : S → List NamespacedName
  pub contains_new : (p : NamespacedName) → contains p new_set ≡ false
  pub contains_put :
      (p q : NamespacedName) (s : S)
      → contains q (put p s) ≡ (if p == q then true else contains q s)
  pub contains_remove :
      (p q : NamespacedName) (s : S)
      → contains q (remove p s) ≡ (if p == q then false else contains q s)
  pub contains_none : (p : NamespacedName) (s : S) → len s ≡ 0 → contains p s ≡ false
  pub listed :
      (p : NamespacedName) (s : S) → Any (λ q. p ≡ q) (unsorted_list s) ↔ (contains p s ≡ true)

pub record PdGroupPods (S : Type 0) : Type 0 where
  pub decode_pods : S
  pub prefill_pods : S

-- PDGroup of the ModelServer's workload selector
pub record PdGroup : Type 0 where
  pub group_key : Text
  pub decode_labels : Dict Text Text
  pub prefill_labels : Dict Text Text

-- `match_labels` is `none` for a nil map, which is not deeply equal to an empty one. The labels of a
-- PDGroup are required, and never nil.
pub record WorkloadSelector : Type 0 where
  pub match_labels : Option (Dict Text Text)
  pub pd_group : Option PdGroup

pub record ModelServer (S : Type 0) : Type 0 where
  pub workload_selector : Option WorkloadSelector
  pub pods : S
  pub pd_groups : Dict Text (PdGroupPods S)
  pub decode_pod_groups : Dict NamespacedName Text
  pub prefill_pod_groups : Dict NamespacedName Text

-- `reflect.DeepEqual` of two maps: as many keys, and each key with the same value in both.
includes : Dict Text Text → Dict Text Text → Bool
includes b [] = true
includes b ((key, value) ∷ a) =
    (elim (lookup key b) [ none ↦ false | some v ↦ v == value ]) && includes b a

unfoldable pub map_equal : Dict Text Text → Dict Text Text → Bool
unfolding includes
map_equal a b = nat_beq (length a) (length b) && includes b a

-- `reflect.DeepEqual` behind pointers, or for maps that may be nil.
unfoldable pub option_equal : {A : Type 0} → (A → A → Bool) → Option A → Option A → Bool
option_equal equal none none = true
option_equal equal none (some b) = false
option_equal equal (some a) none = false
option_equal equal (some a) (some b) = equal a b

unfoldable pub pd_group_equal : PdGroup → PdGroup → Bool
pd_group_equal a b =
    a.group_key == b.group_key
    && (map_equal a.prefill_labels b.prefill_labels && map_equal a.decode_labels b.decode_labels)

unfoldable pub selector_equal : WorkloadSelector → WorkloadSelector → Bool
selector_equal a b =
    option_equal map_equal a.match_labels b.match_labels
    && option_equal pd_group_equal a.pd_group b.pd_group

-- A missing label reads as the empty text.
abbrev pub label : Dict Text Text → Text → Text
label labels key = get_or (lookup key labels) []

all_match : Dict Text Text → Dict Text Text → Bool
all_match labels [] = true
all_match labels ((key, value) ∷ required) = label labels key == value && all_match labels required

unfoldable pub matches_labels : Dict Text Text → Dict Text Text → Bool
unfolding all_match
matches_labels labels [] = false
matches_labels labels (kv ∷ required) = all_match labels (kv ∷ required)

module _ {S : Type 0} where
  abbrev pub pd_group_of : ModelServer S → Option PdGroup
  pd_group_of m = elim m.workload_selector [ none ↦ none | some selector ↦ selector.pd_group ]

  unfoldable pub get_pd_group_name : ModelServer S → Dict Text Text → Text
  get_pd_group_name m labels = elim (pd_group_of m) [
    | none ↦ []
    | some pd_group ↦ label labels pd_group.group_key
  ]

  unfoldable pub pd_group_name_of : ModelServer S → NamespacedName → Option Text
  pd_group_name_of m p = elim (lookup p m.decode_pod_groups) [
    | none ↦ lookup p m.prefill_pod_groups
    | some g ↦ some g
  ]

module _ {S : Type 0} (sets : PodSets S) where
  unfoldable pub new_pd_group_pods : PdGroupPods S
  new_pd_group_pods = record { decode_pods = sets.new_set; prefill_pods = sets.new_set }

  unfoldable pub add_decode_pod : NamespacedName → PdGroupPods S → PdGroupPods S
  add_decode_pod p g = record g { decode_pods = sets.put p g.decode_pods }

  unfoldable pub add_prefill_pod : NamespacedName → PdGroupPods S → PdGroupPods S
  add_prefill_pod p g = record g { prefill_pods = sets.put p g.prefill_pods }

  unfoldable pub remove_pod : NamespacedName → PdGroupPods S → PdGroupPods S
  remove_pod p g = record g {
    decode_pods = sets.remove p g.decode_pods;
    prefill_pods = sets.remove p g.prefill_pods;
  }

  unfoldable pub is_empty : PdGroupPods S → Bool
  is_empty g = nat_beq (sets.len g.decode_pods) 0 && nat_beq (sets.len g.prefill_pods) 0

  unfoldable pub new_model_server : Option WorkloadSelector → ModelServer S
  new_model_server selector = record {
    workload_selector = selector;
    pods = sets.new_set;
    pd_groups = [];
    decode_pod_groups = [];
    prefill_pod_groups = [];
  }

  unfoldable pub get_pods : ModelServer S → List NamespacedName
  get_pods m = sets.unsorted_list m.pods

  unfoldable pub add_pod : ModelServer S → NamespacedName → ModelServer S
  add_pod m p = record m { pods = sets.put p m.pods }

  unfoldable pub delete_pod : ModelServer S → NamespacedName → ModelServer S
  delete_pod m p = record m { pods = sets.remove p m.pods }

  -- The group of that name is created if it is missing.
  unfoldable pub with_decode_pod : ModelServer S → Text → NamespacedName → ModelServer S
  with_decode_pod m g p = record m {
    pd_groups =
        insert g (add_decode_pod p (get_or (lookup g m.pd_groups) new_pd_group_pods)) m.pd_groups;
    decode_pod_groups = insert p g m.decode_pod_groups;
  }

  unfoldable pub with_prefill_pod : ModelServer S → Text → NamespacedName → ModelServer S
  with_prefill_pod m g p = record m {
    pd_groups =
        insert g (add_prefill_pod p (get_or (lookup g m.pd_groups) new_pd_group_pods)) m.pd_groups;
    prefill_pod_groups = insert p g m.prefill_pod_groups;
  }

  unfoldable pub categorize_pod_for_pd_group_locked :
      ModelServer S → NamespacedName → Dict Text Text → ModelServer S
  categorize_pod_for_pd_group_locked m p labels =
      let g = get_pd_group_name m labels in
      if g == [] then m else elim (pd_group_of m) [
        | none ↦ m
        | some pd_group ↦
            let is_decode_pod = matches_labels labels pd_group.decode_labels in
            if not is_decode_pod && not (matches_labels labels pd_group.prefill_labels)
            then m
            else if is_decode_pod
            then with_decode_pod m g p
            else with_prefill_pod m g p
      ]

  -- The group without the pod, and no entry for it once it is empty.
  unfoldable pub shrink_group :
      Dict Text (PdGroupPods S) → Text → NamespacedName → Dict Text (PdGroupPods S)
  shrink_group groups g p = elim (lookup g groups) [
    | none ↦ groups
    | some group ↦
        if is_empty (remove_pod p group)
        then delete g groups
        else insert g (remove_pod p group) groups
  ]

  unfoldable pub remove_pod_from_pd_groups_locked : ModelServer S → NamespacedName → ModelServer S
  remove_pod_from_pd_groups_locked m p = elim (pd_group_name_of m p) [
    | none ↦ m
    | some g ↦ record m {
      pd_groups = shrink_group m.pd_groups g p;
      decode_pod_groups = delete p m.decode_pod_groups;
      prefill_pod_groups = delete p m.prefill_pod_groups;
    }
  ]

  unfoldable pub categorize_pod_for_pd_group :
      ModelServer S → NamespacedName → Dict Text Text → ModelServer S
  categorize_pod_for_pd_group m p labels =
      categorize_pod_for_pd_group_locked (remove_pod_from_pd_groups_locked m p) p labels

  -- A pod whose labels are not known is left out.
  unfoldable pub categorize_one :
      Dict NamespacedName (Dict Text Text) → ModelServer S → NamespacedName → ModelServer S
  categorize_one labels_of m p = elim (lookup p labels_of) [
    | none ↦ m
    | some labels ↦ categorize_pod_for_pd_group_locked m p labels
  ]

  unfoldable pub categorize_all :
      Dict NamespacedName (Dict Text Text) → List NamespacedName → ModelServer S → ModelServer S
  categorize_all labels_of [] m = m
  categorize_all labels_of (p ∷ ps) m = categorize_all labels_of ps (categorize_one labels_of m p)

  -- The part of `AddOrUpdateModelServer` for a name that the store does not have yet.
  unfoldable pub add_model_server :
      Dict NamespacedName (Dict Text Text) → Option WorkloadSelector → Option S → ModelServer S
  unfolding new_model_server
  add_model_server labels_of selector pods =
      let m = record (new_model_server selector) { pods = get_or pods sets.new_set } in
      categorize_all labels_of (sets.unsorted_list m.pods) m

  -- The part for a name that it has. The selectors are compared before the new one is stored.
  unfoldable pub update_model_server :
      Dict NamespacedName (Dict Text Text)
      → Option WorkloadSelector
      → Option S
      → ModelServer S
      → ModelServer S
  update_model_server labels_of selector pods old =
      let changed = not (option_equal selector_equal old.workload_selector selector) in
      let m = record old { workload_selector = selector; pods = get_or pods old.pods } in
      if changed
      then categorize_all labels_of (sets.unsorted_list m.pods)
          (record m { pd_groups = []; decode_pod_groups = []; prefill_pod_groups = [] })
      else m

  all_pods : (PdGroupPods S → S) → Dict Text (PdGroupPods S) → List NamespacedName
  all_pods side [] = []
  all_pods side ((g, group) ∷ groups) = sets.unsorted_list (side group) ++ all_pods side groups

  unfoldable pub get_all_decode_pods : ModelServer S → List NamespacedName
  unfolding all_pods
  get_all_decode_pods m = all_pods (λ group. group.decode_pods) m.pd_groups

  unfoldable pub get_all_prefill_pods : ModelServer S → List NamespacedName
  unfolding all_pods
  get_all_prefill_pods m = all_pods (λ group. group.prefill_pods) m.pd_groups

  unfoldable pub get_prefill_pods_for_decode_group :
      ModelServer S → NamespacedName → List NamespacedName
  get_prefill_pods_for_decode_group m p = elim (pd_group_of m) [
    | none ↦ []
    | some _ ↦ elim (lookup p m.decode_pod_groups) [
      | none ↦ []
      | some g ↦ elim (lookup g m.pd_groups) [
        | none ↦ []
        | some group ↦ sets.unsorted_list group.prefill_pods
      ]
    ]
  ]
