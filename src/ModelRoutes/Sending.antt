-- ===== src/ModelRoutes/Sending.antt =====
-- The target that a request is sent to: pkg/kthena-router/datastore/store.go
use kthena.Common.{
  ℕ, zero, suc, ◌<◌, ◌≡◌, refl, Bool, true, false, some, List, [], ◌∷◌, Text, text_eq, ◌==◌, take,
  arith, Bool-cases, Option-cases, inl, inr, ap, sym, ◌∙◌,
}
use mathlib.Core.Path.{subst}
use kthena.GroupStore.{get_or}
use kthena.ModelRoutes.{
  TargetModel, Rule, ModelRoute, Request, Store, Target, model_server, external_provider,
  total_weight, nth, select_destination, match_model_route, model_target_from_destination,
  match_model_target,
}
use kthena.ModelRoutes.Uniform.{shares}
use kthena.ModelRoutes.Shares.{select_destination_lem}

-- The backend that a target names, of the two kinds, where the other name is empty.
abbrev pub Names : Text → TargetModel → Target → Type 0
Names namespace dst (model_server ns name) =
    (ns ≡ namespace)
    × (name ≡ dst.model_server_name)
    × ((name == []) ≡ false)
    × ((dst.external_model_provider_name == []) ≡ true)
Names namespace dst (external_provider ns name) =
    (ns ≡ namespace)
    × (name ≡ dst.external_model_provider_name)
    × ((name == []) ≡ false)
    × ((dst.model_server_name == []) ≡ true)

-- A place where the sum of the weights grows has a positive weight.
growing-positive :
    (ws : List ℕ) (i : ℕ)
    → total_weight (take i ws) < total_weight (take (suc i) ws)
    → (w : ℕ) × (nth ws i ≡ some w) × (0 < w)
unfolding total_weight nth
growing-positive [] zero h = absurd (omega arith)
growing-positive [] (suc i) h = absurd (omega arith)
growing-positive (w ∷ ws) zero h = (w, refl, omega arith)
growing-positive (w ∷ ws) (suc i) h = growing-positive ws i (omega arith)

model_target-Names :
    (namespace : Text) (dst : TargetModel) (t : Target)
    → model_target_from_destination namespace dst ≡ some t
    → Names namespace dst t
unfolding model_target_from_destination
model_target-Names namespace dst t e = elim (Bool-cases (dst.model_server_name == [])) [
  | inl no_server ↦ elim (Bool-cases (dst.external_model_provider_name == [])) [
    | inl no_provider ↦ absurd (ground (arith, e, no_server, no_provider))
    | inr provider ↦
        let same : external_provider namespace dst.external_model_provider_name ≡ t =
          ground (arith, e, no_server, provider) in
        subst (Names namespace dst) same (refl, refl, provider, no_server)
  ]
  | inr server ↦ elim (Bool-cases (dst.external_model_provider_name == [])) [
    | inl no_provider ↦
        let same : model_server namespace dst.model_server_name ≡ t =
          ground (arith, e, server, no_provider) in
        subst (Names namespace dst) same (refl, refl, server, no_provider)
    | inr provider ↦ absurd (ground (arith, e, server, provider))
  ]
]

nth-shares :
    (targets : List TargetModel) (i : ℕ) (dst : TargetModel)
    → nth targets i ≡ some dst
    → nth (shares targets) i ≡ some (get_or dst.weight 1)
unfolding nth
nth-shares [] i dst k = cc
nth-shares (t ∷ targets) zero dst k =
    let same : t ≡ dst = ground (arith, k) in
    ap (λ (x : TargetModel). some (get_or x.weight 1)) same
nth-shares (t ∷ targets) (suc i) dst k = nth-shares targets i dst k

chosen-positive :
    (random : ℕ → ℕ) (targets : List TargetModel) (dst : TargetModel)
    → ((n : ℕ) → 0 < n → random n < n)
    → select_destination random targets ≡ some dst
    → (i : ℕ) × (nth targets i ≡ some dst) × (0 < get_or dst.weight 1)
chosen-positive random targets dst below e = elim (select_destination_lem random targets below) [
  | inl (mixed, nothing) ↦ absurd (ground (arith, e, nothing))
  | inr (uniform, inl (empty, nothing)) ↦ absurd (ground (arith, e, nothing))
  | inr (uniform, inr (i, t, found, there, falls)) ↦
      let same : t ≡ dst = ground (arith, e, found) in
      let here : nth targets i ≡ some dst = there ∙ ap some same in
      let (w, weight, positive) =
        growing-positive (shares targets) i (omega (arith, falls.0, falls.1)) in
      let equal : w ≡ get_or dst.weight 1 = ground (arith, weight, nth-shares targets i dst here) in
      (i, here, omega (arith, positive, equal))
]

-- With random numbers below their bound, a request that is matched is sent to a backend that a target of
-- the matched rule names, in the namespace of the matched route; the target's weight is not 0, and it
-- names a backend of this kind only.
pub match_model_target_lem :
    (random : ℕ → ℕ) (s : Store) (model : Text) (req : Request) (gateway_key : Text) (t : Target)
    (is_lora : Bool) (mr : ModelRoute) (rule : Rule)
    → ((n : ℕ) → 0 < n → random n < n)
    → match_model_target random s model req gateway_key ≡ some (t, is_lora, mr, rule)
    → (match_model_route s model req gateway_key ≡ some (mr, rule, is_lora))
      × ((i : ℕ) × (dst : TargetModel) × (nth rule.target_models i ≡ some dst)
          × (0 < get_or dst.weight 1)
          × Names mr.namespace dst t)
unfolding match_model_target
match_model_target_lem random s model req gateway_key t is_lora mr rule below e =
    elim (Option-cases (match_model_route s model req gateway_key)) [
      | inl nothing ↦ absurd (ground (arith, e, nothing))
      | inr ((mr', rule', lora'), found) ↦
          elim (Option-cases (select_destination random rule'.target_models)) [
            | inl nothing ↦ absurd (ground (arith, e, found, nothing))
            | inr (dst, chosen) ↦
                elim (Option-cases (model_target_from_destination mr'.namespace dst)) [
                  | inl nothing ↦ absurd (ground (arith, e, found, chosen, nothing))
                  | inr (t', named) ↦
                      let same_target : t' ≡ t = ground (arith, e, found, chosen, named) in
                      let same_route : mr' ≡ mr = ground (arith, e, found, chosen, named) in
                      let same_rule : rule' ≡ rule = ground (arith, e, found, chosen, named) in
                      let same_lora : lora' ≡ is_lora = ground (arith, e, found, chosen, named) in
                      let result : match_model_route s model req gateway_key
                          ≡ some (mr, rule, is_lora) =
                        ground (arith, found, same_route, same_rule, same_lora) in
                      let (i, here, positive) =
                        chosen-positive random rule'.target_models dst below chosen in
                      (
                        result,
                        (
                          i,
                          dst,
                          ap (λ (r : Rule). nth r.target_models i) (sym same_rule) ∙ here,
                          positive,
                          subst (λ (r : ModelRoute). Names r.namespace dst t) same_route
                              (model_target-Names mr'.namespace dst t
                                (named ∙ ap some same_target)),
                        ),
                      )
                ]
          ]
    ]
