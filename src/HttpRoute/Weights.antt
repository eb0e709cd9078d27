-- ===== src/HttpRoute/Weights.antt =====
-- The choice of an InferencePool by weight: pkg/kthena-router/router/httproute_match.go
use kthena.Common.{
  ℕ, zero, suc, ◌+◌, ◌-◌, ◌≤◌, ◌<◌, ◌≡◌, ◌⊎◌, inl, inr, refl, sym, ap, ◌∙◌, Bool, true, false, ◌&&◌,
  Option, none, some, List, [], ◌∷◌, ◌++◌, ◌==◌, ltb, nat_beq, if◌then◌else◌, Text, text_eq, codes,
  arith, Bool-cases, All, All-map, Any, Any-map,
}
use mathlib.Core.Path.{subst}
use kthena.Common.Int.{ℤ, pos, negsuc, ◌≤ℤ◌}
use kthena.HttpRoute.{BackendRef, HttpRouteRule, HttpRoute}
use kthena.HttpRoute.Matching.{namespace_or}

abbrev pub PoolName : Type 0
PoolName = Text × Text

-- weightedInferencePool: its weight is positive.
pub record WeightedPool : Type 0 where
  pub name : PoolName
  pub weight : ℕ

-- `selection -= weight; if selection < 0` on a selection that is not negative.
unfoldable pub select_weighted : List WeightedPool → ℕ → Option PoolName
select_weighted [] selection = none
select_weighted (pool ∷ pools) selection =
    let rest = select_weighted pools (selection - pool.weight) in
    if ltb selection pool.weight then some pool.name else rest

unfoldable pub weight_of : BackendRef → ℤ
weight_of ref = elim ref.weight [ none ↦ pos 1 | some w ↦ w ]

unfoldable pub total_weight : List WeightedPool → ℕ
total_weight [] = 0
total_weight (p ∷ pools) = p.weight + total_weight pools

abbrev equals : Option Text → Text → Bool
equals none t = false
equals (some s) t = s == t

abbrev pool_group : Text
pool_group = codes "inference.networking.k8s.io"

abbrev pool_kind : Text
pool_kind = codes "InferencePool"

unfoldable pub is_pool : BackendRef → Bool
is_pool ref = equals ref.group pool_group && equals ref.kind pool_kind

abbrev pool_if_positive : ℤ → PoolName → List WeightedPool → List WeightedPool
pool_if_positive (pos zero) name pools = pools
pool_if_positive (pos (suc n)) name pools = record { name = name; weight = suc n } ∷ pools
pool_if_positive (negsuc n) name pools = pools

unfoldable pub weighted_pools : HttpRoute → List BackendRef → List WeightedPool
unfolding is_pool weight_of
weighted_pools route [] = []
weighted_pools route (ref ∷ refs) =
    let pools = weighted_pools route refs in
    if is_pool ref
    then pool_if_positive (weight_of ref) (namespace_or ref.namespace route.namespace, ref.name)
        pools
    else pools

-- inferencePoolFromHTTPRouteRule, with `rand.Intn`
unfoldable pub pool_of_rule : (ℕ → ℕ) → HttpRoute → HttpRouteRule → Option PoolName
unfolding weighted_pools total_weight
pool_of_rule intn route rule =
    let pools = weighted_pools route rule.backend_refs in
    if nat_beq (total_weight pools) 0
    then none
    else select_weighted pools (intn (total_weight pools))

-- A pool is chosen by as many selections as its weight says: those from the weights before it
-- up to, but not including, its own weight more.
pub select_share :
    (before after : List WeightedPool) (p : WeightedPool) (selection : ℕ)
    → total_weight before ≤ selection
    → selection < total_weight before + p.weight
    → select_weighted (before ++ (p ∷ after)) selection ≡ some p.name
unfolding select_weighted total_weight
select_share [] after p selection h k = ground arith
select_share (q ∷ before) after p selection h k =
    ground (arith, select_share before after p (selection - q.weight))

select_beyond :
    (pools : List WeightedPool) (selection : ℕ)
    → total_weight pools ≤ selection
    → select_weighted pools selection ≡ none
unfolding select_weighted total_weight
select_beyond [] selection h = refl
select_beyond (q ∷ pools) selection h = ground (arith, select_beyond pools (selection - q.weight))

select-some :
    (pools : List WeightedPool) (selection : ℕ)
    → selection < total_weight pools
    → Any (λ p. select_weighted pools selection ≡ some p.name) pools
unfolding select_weighted total_weight
select-some [] selection h = absurd (omega (arith, h))
select-some (q ∷ pools) selection h = elim (Bool-cases (ltb selection q.weight)) [
  | inl now ↦ inl (ground (arith, now))
  | inr later ↦ inr (
      Any-map pools (λ p e. ground (arith, later, e))
        (select-some pools (selection - q.weight) (ground (arith, later, h))))
]

-- A backend that is an InferencePool and has a positive weight.
abbrev pub Eligible : BackendRef → Type 0
Eligible ref = (is_pool ref ≡ true) × (pos 1 ≤ℤ weight_of ref)

abbrev pub pool_name : HttpRoute → BackendRef → PoolName
pool_name route ref = (namespace_or ref.namespace route.namespace, ref.name)

abbrev FromEligible : HttpRoute → List BackendRef → WeightedPool → Type 0
FromEligible route refs p = Any (λ ref. Eligible ref × (p.name ≡ pool_name route ref)) refs

-- The two cases of a backend: it is eligible and has a pool, or its pool is left out.
pools-cases :
    (route : HttpRoute) (ref : BackendRef) (refs : List BackendRef)
    → (Eligible ref
        × (n : ℕ) × (weighted_pools route (ref ∷ refs)
            ≡ record { name = pool_name route ref; weight = suc n } ∷ weighted_pools route refs))
      ⊎ ((Eligible ref → ⊥) × (weighted_pools route (ref ∷ refs) ≡ weighted_pools route refs))
unfolding weighted_pools
pools-cases route ref refs = elim (Bool-cases (is_pool ref)) [
  | inl pool ↦ by_weight pool (weight_of ref) refl
  | inr other ↦ inr (λ e. cc (e.0, other), rw other refl)
]
  where
    below : (w : ℤ) → weight_of ref ≡ w → ((pos 1 ≤ℤ w) → ⊥) → (pos 1 ≤ℤ weight_of ref) → ⊥
    below w e small h = small (subst (λ w. pos 1 ≤ℤ w) e h)

    by_weight :
        is_pool ref ≡ true
        → (w : ℤ) → weight_of ref ≡ w
        → (Eligible ref
            × (n : ℕ) × (weighted_pools route (ref ∷ refs)
                ≡ record { name = pool_name route ref; weight = suc n }
                  ∷ weighted_pools route refs))
          ⊎ ((Eligible ref → ⊥) × (weighted_pools route (ref ∷ refs) ≡ weighted_pools route refs))
    by_weight pool (pos zero) e =
        inr (λ h. below (pos zero) e (λ k. omega (arith, k)) h.1, rw (pool, e) refl)
    by_weight pool (pos (suc n)) e =
        inl ((pool, subst (λ w. pos 1 ≤ℤ w) (sym e) (omega arith)), n, rw (pool, e) refl)
    by_weight pool (negsuc n) e =
        inr (λ h. below (negsuc n) e (λ k. omega (arith, k)) h.1, rw (pool, e) refl)

pools-FromEligible :
    (route : HttpRoute) (refs : List BackendRef)
    → All (FromEligible route refs) (weighted_pools route refs)
unfolding weighted_pools
pools-FromEligible route [] = tt
pools-FromEligible route (ref ∷ refs) =
    let tail = All-map (weighted_pools route refs) (λ p h. inr h) (pools-FromEligible route refs) in
    elim (pools-cases route ref refs) [
      | inl (e, n, eq) ↦
          subst (All (FromEligible route (ref ∷ refs))) (sym eq) (inl (e, refl), tail)
      | inr (out, eq) ↦ subst (All (FromEligible route (ref ∷ refs))) (sym eq) tail
    ]

total-positive :
    (route : HttpRoute) (refs : List BackendRef)
    → Any Eligible refs
    → 0 < total_weight (weighted_pools route refs)
unfolding total_weight
total-positive route [] h = elim h [ ]
total-positive route (ref ∷ refs) h = elim (pools-cases route ref refs) [
  | inl (e, n, eq) ↦ subst (λ pools. 0 < total_weight pools) (sym eq) (omega arith)
  | inr (out, eq) ↦
      subst (λ pools. 0 < total_weight pools) (sym eq)
        (elim h [ inl e ↦ absurd (out e) | inr rest ↦ total-positive route refs rest ])
]

total-zero :
    (route : HttpRoute) (refs : List BackendRef)
    → All (λ ref. Eligible ref → ⊥) refs
    → total_weight (weighted_pools route refs) ≡ 0
unfolding total_weight weighted_pools
total-zero route [] h = refl
total-zero route (ref ∷ refs) h = elim (pools-cases route ref refs) [
  | inl (e, n, eq) ↦ absurd (h.0 e)
  | inr (out, eq) ↦ ap total_weight eq ∙ total-zero route refs h.1
]

-- The pool of an entry that is chosen comes from an eligible backend.
chosen-Eligible :
    (route : HttpRoute) (refs : List BackendRef) (chosen : Option PoolName)
    (pools : List WeightedPool)
    → All (FromEligible route refs) pools
    → Any (λ p. chosen ≡ some p.name) pools
    → Any (λ ref. Eligible ref × (chosen ≡ some (pool_name route ref))) refs
chosen-Eligible route refs chosen [] a h = elim h [ ]
chosen-Eligible route refs chosen (p ∷ pools) a (inl h) =
    Any-map refs (λ ref x. (x.0, h ∙ ap some x.1)) a.0
chosen-Eligible route refs chosen (p ∷ pools) a (inr h) =
    chosen-Eligible route refs chosen pools a.1 h

pool-none :
    (intn : ℕ → ℕ) (route : HttpRoute) (rule : HttpRouteRule)
    → total_weight (weighted_pools route rule.backend_refs) ≡ 0
    → pool_of_rule intn route rule ≡ none
unfolding pool_of_rule
pool-none intn route rule h = ground (arith, h)

pool-select :
    (intn : ℕ → ℕ) (route : HttpRoute) (rule : HttpRouteRule)
    → 0 < total_weight (weighted_pools route rule.backend_refs)
    → pool_of_rule intn route rule
      ≡ select_weighted
          (weighted_pools route rule.backend_refs)
          (intn (total_weight (weighted_pools route rule.backend_refs)))
unfolding pool_of_rule
pool-select intn route rule h = ground (arith, h)

-- With a random number below its bound, the pool of a rule is that of a backend of the rule that
-- is an InferencePool and has a positive weight, where there is such a backend; and where there
-- is none, the rule has no pool.
pub pool_of_rule_lem :
    (intn : ℕ → ℕ) (route : HttpRoute) (rule : HttpRouteRule)
    → ((n : ℕ) → 0 < n → intn n < n)
    → (Any Eligible rule.backend_refs
        → Any
            (λ ref. Eligible ref × (pool_of_rule intn route rule ≡ some (pool_name route ref)))
            rule.backend_refs)
      × (All (λ ref. Eligible ref → ⊥) rule.backend_refs → pool_of_rule intn route rule ≡ none)
pool_of_rule_lem intn route rule bounded = (
  λ some_eligible.
      let refs = rule.backend_refs in
      let pools = weighted_pools route refs in
      let positive = total-positive route refs some_eligible in
      subst (λ o. Any (λ ref. Eligible ref × (o ≡ some (pool_name route ref))) refs)
        (sym (pool-select intn route rule positive))
        (chosen-Eligible route refs _ pools (pools-FromEligible route refs)
          (select-some pools (intn (total_weight pools)) (bounded (total_weight pools) positive))),
  λ none_eligible. pool-none intn route rule (total-zero route rule.backend_refs none_eligible),
)
