-- ===== src/ModelRoutes/Tests.antt =====
-- A concrete route with two weighted targets: pkg/kthena-router/datastore/store.go
use kthena.Common.{
  refl, ℕ, refl, ◌-◌, ◌<◌, ◌≡◌, ◌⊎◌, arith, Bool, false, none, some, List, [], ◌∷◌, Text, codes,
  All,
}
use kthena.GroupStore.{get_or}
use kthena.ModelRoutes.Sending.{Names, match_model_target_lem}
use kthena.ModelRoutes.{
  StringMatch, TargetModel, Rule, ModelRoute, Request, Store, match_model_route, select_destination,
  to_weighted_slice, total_weight, nth, match_model_target, first_route, usable_rule, select_rule,
  rule_matches, headers_matched, match_string, gateway_allows, weights_of,
  select_from_weighted_slice, scan_weights, model_target_from_destination, model_server,
}
use kthena.ModelRoutes.Choice.{candidates, Unusable, Chosen, match_model_route_lem}
use kthena.ModelRoutes.Uniform.{Mixed, Uniform, shares}
use kthena.ModelRoutes.Shares.{FallsTo, select_destination_lem}

abbrev target : Text → ℕ → TargetModel
target name w = record {
  model_server_name = name;
  external_model_provider_name = [];
  weight = some w;
}

abbrev targets : List TargetModel
targets = target (codes "a") 3 ∷ target (codes "b") 0 ∷ target (codes "c") 2 ∷ []

abbrev under_v1 : StringMatch
under_v1 = record { exact = none; prefix = some (codes "/v1/"); regex = none }

abbrev rule : Rule
rule = record {
  model_match = some (record { body_model = none; headers = []; uri = some under_v1 });
  target_models = targets;
}

abbrev attached : ModelRoute
attached = record {
  namespace = codes "ns";
  name = codes "attached";
  parent_refs =
      record { group = none; kind = none; namespace = none; name = codes "gw"; section_name = none }
      ∷ [];
  rules = rule ∷ [];
}

abbrev plain : ModelRoute
plain = record { namespace = codes "ns"; name = codes "plain"; parent_refs = []; rules = rule ∷ [] }

abbrev store : Store
store = record {
  routes = (codes "m", attached ∷ plain ∷ []) ∷ [];
  lora_routes = (codes "l", plain ∷ []) ∷ [];
  gateways = [];
}

abbrev request : Request
request = record {
  header = λ key. [];
  path = codes "/v1/chat";
  match_regex = λ pattern value. false;
}

last_below : (n : ℕ) → 0 < n → n - 1 < n
last_below n h = omega arith

match_model_route_lem_example :
    ((match_model_route store (codes "m") request [] ≡ none)
      × ((candidates store (codes "m") ≡ none)
          ⊎ ((routes : List ModelRoute) × (is_lora : Bool) × (candidates store (codes "m")
                ≡ some (routes, is_lora))
              × All (Unusable store (codes "m") request []) routes)))
    ⊎ ((mr : ModelRoute) × (r : Rule) × (is_lora : Bool) × (routes : List ModelRoute)
        × (match_model_route store (codes "m") request [] ≡ some (mr, r, is_lora))
        × (candidates store (codes "m") ≡ some (routes, is_lora))
        × Chosen store (codes "m") request [] routes mr r)
match_model_route_lem_example = match_model_route_lem store (codes "m") request []

select_destination_lem_example :
    (Mixed targets × (select_destination (λ n. n - 1) targets ≡ none))
    ⊎ (Uniform targets
        × (((total_weight (shares targets) ≡ 0) × (select_destination (λ n. n - 1) targets ≡ none))
            ⊎ ((i : ℕ) × (t : TargetModel) × (select_destination (λ n. n - 1) targets ≡ some t)
                × (nth targets i ≡ some t)
                × FallsTo (shares targets) (total_weight (shares targets) - 1) i)))
select_destination_lem_example = select_destination_lem (λ n. n - 1) targets last_below

sent_to_c :
    match_model_target (λ n. n - 1) store (codes "m") request []
    ≡ some (model_server (codes "ns") (codes "c"), false, plain, rule)
unfolding match_model_target match_model_route first_route usable_rule select_rule rule_matches
    headers_matched match_string gateway_allows to_weighted_slice weights_of select_destination
    select_from_weighted_slice total_weight scan_weights nth model_target_from_destination
    kthena.Common.Dict.lookup kthena.Common.has_prefix
sent_to_c = refl

match_model_target_lem_example :
    (match_model_route store (codes "m") request [] ≡ some (plain, rule, false))
    × ((i : ℕ) × (dst : TargetModel) × (nth targets i ≡ some dst)
        × (0 < get_or dst.weight 1)
        × Names (codes "ns") dst (model_server (codes "ns") (codes "c")))
match_model_target_lem_example =
    match_model_target_lem (λ n. n - 1) store (codes "m") request []
      (model_server (codes "ns") (codes "c")) false plain rule last_below sent_to_c
