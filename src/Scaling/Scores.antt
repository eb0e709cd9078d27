-- ===== src/Scaling/Scores.antt =====
-- pkg/model-serving-controller/controller/binpack_scaledown.go: what decides which replica goes
-- first, and the comparison that model_serving_controller.go sorts by.
use kthena.Common.{
  ℕ, zero, suc, ◌<◌, ◌≡◌, false, not, ◌&&◌, Option, none, some, List, [], ◌∷◌, leb, nat_beq,
  if◌then◌else◌, arith, Text, text_eq, codes, all_digits, decimal, ◌++◌, ◌⊎◌, inl, inr, Bool-cases,
}
use kthena.Common.Int.{
  ℤ, pos, negsuc, ◌+ℤ◌, wrap64, compare_ℤ, ltb_ℤ, eqb_ℤ, eq_of_parts, ◌<ℤ◌, ◌≤ℤ◌,
}
use kthena.Common.Dict.{Dict, lookup}
use kthena.GroupStore.{NamespacedName, name_eq, ServingGroupStatus, RoleStatus, Store}
use kthena.GroupStore.Ops.{get_role_status, get_serving_group_status}
use kthena.GroupStore.Ordinal.{get_parent_name_and_ordinal}

-- ServingGroupWithScore and RoleWithScore, which have the same fields
pub record Score : Type 0 where
  pub name : Text
  pub priority : ℕ
  pub deletion_cost : ℤ
  pub index : ℤ

unfoldable pub get_serving_group_status_priority : ServingGroupStatus → ℕ
get_serving_group_status_priority ServingGroupStatus.running = 1
get_serving_group_status_priority ServingGroupStatus.creating = 0
get_serving_group_status_priority ServingGroupStatus.deleting = 0
get_serving_group_status_priority ServingGroupStatus.scaling = 0
get_serving_group_status_priority ServingGroupStatus.not_found = 0

unfoldable pub get_role_status_priority : RoleStatus → ℕ
get_role_status_priority RoleStatus.running = 1
get_role_status_priority RoleStatus.creating = 0
get_role_status_priority RoleStatus.deleting = 0
get_role_status_priority RoleStatus.not_found = 0

-- `strconv.Atoi`: an optional sign and at least one digit, within 64 bits.
magnitude : Text → ℕ → Option ℕ
magnitude [] limit = none
magnitude (c ∷ s) limit =
    if all_digits (c ∷ s) && leb (decimal 0 (c ∷ s)) limit then some (decimal 0 (c ∷ s)) else none

negative : ℕ → ℤ
negative zero = pos 0
negative (suc n) = negsuc n

unfoldable pub atoi : Text → Option ℤ
unfolding magnitude negative
atoi [] = none
atoi (c ∷ s) =
    if nat_beq c b'-'
    then (elim (magnitude s 0x8000000000000000) [ none ↦ none | some n ↦ some (negative n) ])
    else if nat_beq c b'+'
    then (elim (magnitude s 0x7fffffffffffffff) [ none ↦ none | some n ↦ some (pos n) ])
    else (elim (magnitude (c ∷ s) 0x7fffffffffffffff) [ none ↦ none | some n ↦ some (pos n) ])

-- The annotations of a pod are what its deletion cost is read from.
abbrev pub pod_deletion_cost_annotation : Text
pod_deletion_cost_annotation = codes "controller.kubernetes.io/pod-deletion-cost"

unfoldable pub get_pod_deletion_cost : Dict Text Text → ℤ
get_pod_deletion_cost annotations = elim (lookup pod_deletion_cost_annotation annotations) [
  | none ↦ pos 0
  | some cost ↦ elim (atoi cost) [ none ↦ pos 0 | some n ↦ n ]
]

unfoldable pub total_cost : ℤ → List (Dict Text Text) → ℤ
total_cost sum [] = sum
total_cost sum (pod ∷ pods) = total_cost (wrap64 (sum +ℤ get_pod_deletion_cost pod)) pods

-- The pods of an informer's index, by their annotations; `none` is a failure of the index.
abbrev pub PodIndex : Type 0
PodIndex = Text → Option (List (Dict Text Text))

cost_of : Option (List (Dict Text Text)) → ℤ
cost_of none = pos 0
cost_of (some pods) = total_cost (pos 0) pods

unfoldable pub calculate_role_score : PodIndex → Store → NamespacedName → Text → Text → Text → Score
unfolding cost_of
calculate_role_score get_pods_by_index s m group_name role_name role_id = record {
  name = role_id;
  priority = get_role_status_priority (get_role_status s m group_name role_name role_id);
  deletion_cost = cost_of (
      get_pods_by_index
        (m.namespace ++ (b'/' ∷ group_name ++ (b'/' ∷ role_name ++ (b'/' ∷ role_id)))));
  index = (get_parent_name_and_ordinal role_id).1;
}

unfoldable pub calculate_serving_group_score : PodIndex → Store → NamespacedName → Text → Score
unfolding cost_of
calculate_serving_group_score get_pods_by_index s m group_name = record {
  name = group_name;
  priority = get_serving_group_status_priority (get_serving_group_status s m group_name);
  deletion_cost = cost_of (get_pods_by_index (m.namespace ++ (b'/' ∷ group_name)));
  index = (get_parent_name_and_ordinal group_name).1;
}

-- sortGroups and sortRoles
unfoldable pub sort_groups : Score → Score → ℤ
sort_groups a b =
    if not (nat_beq a.priority b.priority)
    then compare_ℤ (pos a.priority) (pos b.priority)
    else if not (eqb_ℤ a.deletion_cost b.deletion_cost)
    then compare_ℤ a.deletion_cost b.deletion_cost
    else compare_ℤ b.index a.index

-- An order by a comparison: `a` need not stand behind `b`.
abbrev pub NotBehind : (Score → Score → ℤ) → Score → Score → Type 0
NotBehind cmp a b = ltb_ℤ (pos 0) (cmp a b) ≡ false

-- What `slices.SortFunc` asks of a comparison.
pub record IsOrder (cmp : Score → Score → ℤ) : Type 0 where
  pub total : (a b : Score) → NotBehind cmp a b ⊎ NotBehind cmp b a
  pub transitive : (a b c : Score) → NotBehind cmp a b → NotBehind cmp b c → NotBehind cmp a c

sort_groups-total : (a b : Score) → NotBehind sort_groups a b ⊎ NotBehind sort_groups b a
unfolding sort_groups compare_ℤ
sort_groups-total a b = elim (Bool-cases (ltb_ℤ (pos 0) (sort_groups a b))) [
  | inl behind ↦ inr (ground (arith, behind))
  | inr fine ↦ inl fine
]

-- The order that the comparison stands for: by status, then by deletion cost, then by falling index.
abbrev pub Ahead : Score → Score → Type 0
Ahead a b =
    (a.priority < b.priority)
    ⊎ ((a.priority ≡ b.priority)
        × ((a.deletion_cost <ℤ b.deletion_cost)
            ⊎ ((a.deletion_cost ≡ b.deletion_cost) × (b.index ≤ℤ a.index))))

compare_zero : (a b : ℤ) → ltb_ℤ (pos 0) (compare_ℤ a b) ≡ ltb_ℤ b a
unfolding compare_ℤ
compare_zero a b = ground arith

pub NotBehind→Ahead : (a b : Score) → NotBehind sort_groups a b → Ahead a b
unfolding sort_groups
NotBehind→Ahead a b h = elim (Bool-cases (nat_beq a.priority b.priority)) [
  | inr apart ↦
      let order = compare_zero (pos a.priority) (pos b.priority) in
      inl (ground (arith, h, order, apart))
  | inl level ↦ elim (Bool-cases (eqb_ℤ a.deletion_cost b.deletion_cost)) [
    | inr apart ↦
        let order = compare_zero a.deletion_cost b.deletion_cost in
        inr (ground (arith, level), inl (ground (arith, h, order, apart, level)))
    | inl same ↦
        let order = compare_zero b.index a.index in
        inr (
          ground (arith, level),
          inr (
            eq_of_parts a.deletion_cost b.deletion_cost (ground (arith, same)),
            ground (arith, h, order, same, level),
          ),
        )
  ]
]

Ahead→NotBehind : (a b : Score) → Ahead a b → NotBehind sort_groups a b
unfolding sort_groups
Ahead→NotBehind a b (inl first) =
    ground (arith, compare_zero (pos a.priority) (pos b.priority), first)
Ahead→NotBehind a b (inr (level, inl first)) =
    ground (arith, compare_zero a.deletion_cost b.deletion_cost, level, first)
Ahead→NotBehind a b (inr (level, inr (same, last))) =
    ground (arith, compare_zero b.index a.index, level, same, last)

Ahead-transitive : (a b c : Score) → Ahead a b → Ahead b c → Ahead a c
Ahead-transitive a b c h k = ground arith

sort_groups-transitive :
    (a b c : Score)
    → NotBehind sort_groups a b
    → NotBehind sort_groups b c
    → NotBehind sort_groups a c
sort_groups-transitive a b c h k =
    Ahead→NotBehind a c (Ahead-transitive a b c (NotBehind→Ahead a b h) (NotBehind→Ahead b c k))

pub sort_groups-IsOrder : IsOrder sort_groups
sort_groups-IsOrder = record { total = sort_groups-total; transitive = sort_groups-transitive }
