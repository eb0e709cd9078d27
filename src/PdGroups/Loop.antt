-- ===== src/PdGroups/Loop.antt =====
-- The loop over the pods of a ModelServer that is added or changed:
-- pkg/kthena-router/datastore/store.go, AddOrUpdateModelServer
use kthena.Common.{
  ◌≡◌, refl, ◌⊎◌, Option, none, some, List, [], ◌∷◌, ◌==◌, ==-iff, if◌then◌else◌, arith, Text,
  text_eq, inl, inr, Bool-cases, Option-cases, sym, ap, ◌∙◌,
}
use kthena.Common.Dict.{Dict, lookup}
use kthena.GroupStore.{NamespacedName, name_eq, get_or}
use kthena.PdGroups.{
  PodSets, WorkloadSelector, ModelServer, new_model_server, categorize_one, categorize_all,
  add_model_server,
}
use kthena.PdGroups.Index.{IsValid}
use kthena.PdGroups.Classes.{Class, classify, classified}
use kthena.PdGroups.Steps.{
  assign, categorize_locked-assign, assign-IsValid, classified-assign, selector-assign,
}
use kthena.PdGroups.Sets.{member, member→Any, Any→member}

module _ {S : Type 0} (sets : PodSets S) where
  -- The class of a pod whose labels are known.
  abbrev pub wanted :
      Option WorkloadSelector → Dict NamespacedName (Dict Text Text) → NamespacedName → Option Class
  wanted selector labels_of p = elim (lookup p labels_of) [
    | none ↦ none
    | some labels ↦ classify selector labels
  ]

  -- Each pod is unclassified, or already classified as wanted.
  abbrev pub Ready : Dict NamespacedName (Dict Text Text) → ModelServer S → Type 0
  Ready labels_of m =
      (q : NamespacedName)
      → (classified m q ≡ none) ⊎ (classified m q ≡ wanted m.workload_selector labels_of q)

  one-assign :
      (labels_of : Dict NamespacedName (Dict Text Text)) (m : ModelServer S) (p : NamespacedName)
      → categorize_one sets labels_of m p ≡ assign sets m p (wanted m.workload_selector labels_of p)
  unfolding categorize_one assign
  one-assign labels_of m p = elim (Option-cases (lookup p labels_of)) [
    | inl e ↦ ground (arith, e)
    | inr (labels, e) ↦ ground (arith, e, categorize_locked-assign sets m p labels)
  ]

  Ready-assign :
      (labels_of : Dict NamespacedName (Dict Text Text)) (m : ModelServer S) (p : NamespacedName)
      → Ready labels_of m
      → Ready labels_of (assign sets m p (wanted m.workload_selector labels_of p))
  Ready-assign labels_of m p ready q =
      let class = wanted m.workload_selector labels_of p in
      rw (classified-assign sets m p q class (ready p)) (
        rw (selector-assign sets m p class) (elim (Bool-cases (p == q)) [
          | inl same ↦
              rw same (inr (ap (wanted m.workload_selector labels_of) ((==-iff p q).0 same)))
          | inr other ↦ rw other (ready q)
        ]))

  pub all-IsValid :
      (labels_of : Dict NamespacedName (Dict Text Text)) (ps : List NamespacedName)
      (m : ModelServer S)
      → Ready labels_of m
      → IsValid sets m
      → IsValid sets (categorize_all sets labels_of ps m)
  unfolding categorize_all
  all-IsValid labels_of [] m ready v = v
  all-IsValid labels_of (p ∷ ps) m ready v = rw (one-assign labels_of m p) (
      all-IsValid labels_of ps (assign sets m p (wanted m.workload_selector labels_of p))
        (Ready-assign labels_of m p ready) (assign-IsValid sets m p _ (ready p) v))

  classified-all :
      (labels_of : Dict NamespacedName (Dict Text Text)) (ps : List NamespacedName)
      (m : ModelServer S) (q : NamespacedName)
      → Ready labels_of m
      → classified (categorize_all sets labels_of ps m) q
        ≡ (if member q ps then wanted m.workload_selector labels_of q else classified m q)
  unfolding categorize_all
  classified-all labels_of [] m q ready = refl
  classified-all labels_of (p ∷ ps) m q ready =
      let class = wanted m.workload_selector labels_of p in
      let m' = assign sets m p class in
      let rest = classified-all labels_of ps m' q (Ready-assign labels_of m p ready) in
      let one = classified-assign sets m p q class (ready p) in
      let same : p ≡ q → class ≡ wanted m.workload_selector labels_of q =
        λ e. ap (wanted m.workload_selector labels_of) e in
      elim (Bool-cases (p == q)) [
        | inl here ↦ ground (
          arith,
          one-assign labels_of m p,
          selector-assign sets m p class,
          rest,
          one,
          same ((==-iff p q).0 here),
          here,
        )
        | inr there ↦
            ground
              (arith, one-assign labels_of m p, selector-assign sets m p class, rest, one, there)
      ]

  member-contains :
      (q : NamespacedName) (s : S) → member q (sets.unsorted_list s) ≡ sets.contains q s
  member-contains q s = elim (Bool-cases (member q (sets.unsorted_list s))) [
    | inl inside ↦ inside ∙ sym ((sets.listed q s).0 (member→Any q (sets.unsorted_list s) inside))
    | inr outside ↦ elim (Bool-cases (sets.contains q s)) [
      | inl inside ↦
          let found = Any→member q (sets.unsorted_list s) ((sets.listed q s).1 inside) in
          ground (arith, found, outside)
      | inr out ↦ outside ∙ sym out
    ]
  ]

  -- A ModelServer with nothing classified.
  abbrev pub cleared : Option WorkloadSelector → S → ModelServer S
  cleared selector pods = record {
    workload_selector = selector;
    pods = pods;
    pd_groups = [];
    decode_pod_groups = [];
    prefill_pod_groups = [];
  }

  pub cleared-IsValid :
      (selector : Option WorkloadSelector) (pods : S) → IsValid sets (cleared selector pods)
  unfolding lookup
  cleared-IsValid selector pods = record {
    distinct = tt;
    non_empty = λ g group e. cc;
    decode_indexed = λ g p. refl;
    prefill_indexed = λ g p. refl;
    exclusive = λ p. refl;
  }

  pub cleared-Ready :
      (labels_of : Dict NamespacedName (Dict Text Text)) (selector : Option WorkloadSelector)
      (pods : S)
      → Ready labels_of (cleared selector pods)
  unfolding classified lookup
  cleared-Ready labels_of selector pods q = inl refl

  pub add-IsValid :
      (labels_of : Dict NamespacedName (Dict Text Text)) (selector : Option WorkloadSelector)
      (pods : Option S)
      → IsValid sets (add_model_server sets labels_of selector pods)
  unfolding add_model_server new_model_server
  add-IsValid labels_of selector pods =
      all-IsValid labels_of _ _ (cleared-Ready labels_of selector (get_or pods sets.new_set))
        (cleared-IsValid selector (get_or pods sets.new_set))

  pub classified-cleared :
      (labels_of : Dict NamespacedName (Dict Text Text)) (selector : Option WorkloadSelector)
      (pods : S) (q : NamespacedName)
      → classified
          (categorize_all sets labels_of (sets.unsorted_list pods) (cleared selector pods))
          q
        ≡ (if sets.contains q pods then wanted selector labels_of q else none)
  unfolding classified lookup
  classified-cleared labels_of selector pods q = ground (
    arith,
    classified-all labels_of (sets.unsorted_list pods) (cleared selector pods) q
        (cleared-Ready labels_of selector pods),
    member-contains q pods,
  )
