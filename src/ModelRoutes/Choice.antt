-- ===== src/ModelRoutes/Choice.antt =====
-- The first route and rule that fit: pkg/kthena-router/datastore/store.go
use mathlib.Core.Path.{refl}
use kthena.Common.{
  ◌≡◌, Bool, true, false, Option, none, some, List, [], ◌∷◌, ◌++◌, Text, text_eq, arith, Bool-cases,
  Option-cases, inl, inr, ◌⊎◌, ap, ◌∙◌, All,
}
use kthena.Common.Dict.{lookup}
use kthena.Common.Decides.{refuted}
use kthena.ModelRoutes.Rules.{Fits, Allowed, rule_matches-decides, gateway_allows-decides}
use kthena.ModelRoutes.Uniform.{Uniform, Mixed, slice-cases}
use kthena.ModelRoutes.{
  Rule, ModelRoute, Request, Store, rule_matches, select_rule, gateway_allows, usable_rule,
  first_route, match_model_route,
}

-- The routes of the model, or else those of the LoRA adapter of that name.
abbrev pub candidates : Store → Text → Option (List ModelRoute × Bool)
candidates s model = elim (lookup model s.routes) [
  | some routes ↦ some (routes, false)
  | none ↦ elim (lookup model s.lora_routes) [ none ↦ none | some routes ↦ some (routes, true) ]
]

-- The rule is the first of the list that the request fits.
abbrev pub FirstRule : Text → Request → List Rule → Rule → Type 0
FirstRule model req rules rule =
    (before after : List Rule) × (rules ≡ before ++ (rule ∷ after))
    × All (λ r. Fits model req r → ⊥) before
    × Fits model req rule

-- The request fits no rule, or the first one it fits has no targets or only some with a weight.
abbrev pub NoRule : Text → Request → List Rule → Type 0
NoRule model req rules =
    All (λ r. Fits model req r → ⊥) rules
    ⊎ ((rule : Rule) × FirstRule model req rules rule × Mixed rule.target_models)

abbrev pub Unusable : Store → Text → Request → Text → ModelRoute → Type 0
Unusable s model req gateway_key mr = (Allowed s gateway_key mr → ⊥) ⊎ NoRule model req mr.rules

select_rule-cases :
    (model : Text) (req : Request) (rules : List Rule)
    → ((select_rule model req rules ≡ none) × All (λ r. Fits model req r → ⊥) rules)
      ⊎ ((rule : Rule) × (select_rule model req rules ≡ some rule) × FirstRule model req rules rule)
unfolding select_rule
select_rule-cases model req [] = inl (refl, tt)
select_rule-cases model req (r ∷ rules) = elim (Bool-cases (rule_matches model req r)) [
  | inl hit ↦
      inr (r, ground (arith, hit), ([], rules, refl, tt, (rule_matches-decides model req r).0 hit))
  | inr miss ↦
      let unfit : Fits model req r → ⊥ =
        refuted _ (Fits model req r) (rule_matches-decides model req r) miss in
      elim (select_rule-cases model req rules) [
        | inl (nothing, misses) ↦ inl (ground (arith, miss, nothing), (unfit, misses))
        | inr (rule, found, (before, after, split, misses, hit)) ↦ inr (
          rule,
          ground (arith, miss, found),
          (r ∷ before, after, ap (λ l. r ∷ l) split, (unfit, misses), hit),
        )
      ]
]

usable-cases :
    (model : Text) (req : Request) (mr : ModelRoute)
    → ((usable_rule model req mr ≡ none) × NoRule model req mr.rules)
      ⊎ ((rule : Rule) × (usable_rule model req mr ≡ some rule)
          × (FirstRule model req mr.rules rule × Uniform rule.target_models))
unfolding usable_rule
usable-cases model req mr = elim (select_rule-cases model req mr.rules) [
  | inl (nothing, misses) ↦ inl (ground (arith, nothing), inl misses)
  | inr (rule, found, first) ↦ elim (slice-cases rule.target_models) [
    | inl (bad, mixed) ↦ inl (ground (arith, found, bad), inr (rule, first, mixed))
    | inr (good, uniform) ↦ inr (rule, ground (arith, found, good), (first, uniform))
  ]
]

module _ (s : Store) (model : Text) (req : Request) (gateway_key : Text) where
  -- The route is the first of the list that is usable, and the rule its first that the request fits.
  abbrev pub Chosen : List ModelRoute → ModelRoute → Rule → Type 0
  Chosen routes mr rule =
      (before after : List ModelRoute) × (routes ≡ before ++ (mr ∷ after))
      × All (Unusable s model req gateway_key) before
      × Allowed s gateway_key mr
      × (FirstRule model req mr.rules rule × Uniform rule.target_models)

  -- A route that is passed over.
  skip :
      (x : ModelRoute) (routes : List ModelRoute)
      → Unusable s model req gateway_key x
      → first_route s model req gateway_key (x ∷ routes)
        ≡ first_route s model req gateway_key routes
      → ((first_route s model req gateway_key routes ≡ none)
          × All (Unusable s model req gateway_key) routes)
        ⊎ ((mr : ModelRoute) × (rule : Rule) × (first_route s model req gateway_key routes
              ≡ some (mr, rule))
            × Chosen routes mr rule)
      → ((first_route s model req gateway_key (x ∷ routes) ≡ none)
          × All (Unusable s model req gateway_key) (x ∷ routes))
        ⊎ ((mr : ModelRoute) × (rule : Rule) × (first_route s model req gateway_key (x ∷ routes)
              ≡ some (mr, rule))
            × Chosen (x ∷ routes) mr rule)
  skip x routes bad same (inl (nothing, all)) = inl (same ∙ nothing, (bad, all))
  skip x routes bad same (inr (mr, rule, found, (before, after, split, misses, allowed, usable))) =
      inr (
        mr,
        rule,
        same ∙ found,
        (x ∷ before, after, ap (λ l. x ∷ l) split, (bad, misses), allowed, usable),
      )

  first_route-cases :
      (routes : List ModelRoute)
      → ((first_route s model req gateway_key routes ≡ none)
          × All (Unusable s model req gateway_key) routes)
        ⊎ ((mr : ModelRoute) × (rule : Rule) × (first_route s model req gateway_key routes
              ≡ some (mr, rule))
            × Chosen routes mr rule)
  unfolding first_route
  first_route-cases [] = inl (refl, tt)
  first_route-cases (x ∷ routes) = elim (Bool-cases (gateway_allows s gateway_key x)) [
    | inr off ↦
        skip x routes
          (inl (refuted _ (Allowed s gateway_key x) (gateway_allows-decides s gateway_key x) off))
          (ground (arith, off)) (first_route-cases routes)
    | inl on ↦ elim (usable-cases model req x) [
      | inl (nothing, no_rule) ↦
          skip x routes (inr no_rule) (ground (arith, on, nothing)) (first_route-cases routes)
      | inr (rule, found, usable) ↦ inr (
        x,
        rule,
        ground (arith, on, found),
        ([], routes, refl, tt, (gateway_allows-decides s gateway_key x).0 on, usable),
      )
    ]
  ]

  -- A request is matched to the first route of its model, or else of the LoRA adapter of that name, that
  -- the gateway allows and whose first rule that the request fits is usable: it has targets, and weights
  -- for all of them or none. The rule is that one. There is no match exactly when the name has no
  -- routes or no route is so.
  pub match_model_route_lem :
      ((match_model_route s model req gateway_key ≡ none)
        × ((candidates s model ≡ none)
            ⊎ ((routes : List ModelRoute) × (is_lora : Bool) × (candidates s model
                  ≡ some (routes, is_lora))
                × All (Unusable s model req gateway_key) routes)))
      ⊎ ((mr : ModelRoute) × (rule : Rule) × (is_lora : Bool) × (routes : List ModelRoute)
          × (match_model_route s model req gateway_key ≡ some (mr, rule, is_lora))
          × (candidates s model ≡ some (routes, is_lora))
          × Chosen routes mr rule)
  unfolding match_model_route
  match_model_route_lem = elim (Option-cases (candidates s model)) [
    | inl nothing ↦ inl (ground (arith, nothing), inl nothing)
    | inr ((routes, is_lora), e) ↦ elim (first_route-cases routes) [
      | inl (nothing, all) ↦ inl (ground (arith, e, nothing), inr (routes, is_lora, e, all))
      | inr (mr, rule, found, chosen) ↦
          inr (mr, rule, is_lora, routes, ground (arith, e, found), e, chosen)
    ]
  ]
