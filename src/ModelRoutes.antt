-- ===== src/ModelRoutes.antt =====
-- The choice of a ModelRoute, its rule and its target: pkg/kthena-router/datastore/store.go. The
-- headers of a request, compiled regular expressions and the random number are parameters.
pub mod Tests
pub mod Uniform
pub mod Rules
pub mod Choice
pub mod Shares
pub mod Sending
use kthena.Common.{
  ℕ, zero, suc, ◌+◌, ◌-◌, ◌≡◌, Bool, true, false, not, ◌&&◌, ◌||◌, Option, none, some, List, [],
  ◌∷◌, ◌++◌, ◌==◌, ltb, nat_beq, if◌then◌else◌, Text, text_eq, has_prefix, codes,
}
use kthena.Common.Dict.{Dict, lookup}
use kthena.GroupStore.{NamespacedName, get_or}

pub record StringMatch : Type 0 where
  pub exact : Option Text
  pub prefix : Option Text
  pub regex : Option Text

pub record ModelMatch : Type 0 where
  pub body_model : Option Text
  pub headers : Dict Text StringMatch
  pub uri : Option StringMatch

-- A weight is a `uint32`.
pub record TargetModel : Type 0 where
  pub model_server_name : Text
  pub external_model_provider_name : Text
  pub weight : Option ℕ

pub record Rule : Type 0 where
  pub model_match : Option ModelMatch
  pub target_models : List TargetModel

pub record ParentRef : Type 0 where
  pub group : Option Text
  pub kind : Option Text
  pub namespace : Option Text
  pub name : Text
  pub section_name : Option Text

pub record ModelRoute : Type 0 where
  pub namespace : Text
  pub name : Text
  pub parent_refs : List ParentRef
  pub rules : List Rule

-- The request: its headers by `Header.Get`, its path, and which patterns match which texts (one that
-- does not compile matches none).
pub record Request : Type 0 where
  pub header : Text → Text
  pub path : Text
  pub match_regex : Text → Text → Bool

pub record Store : Type 0 where
  pub routes : Dict Text (List ModelRoute)
  pub lora_routes : Dict Text (List ModelRoute)
  pub gateways : Dict Text (List Text)

pub data Target : Type 0 where
  model_server external_provider : Text → Text → Target

unfoldable pub match_string : Request → StringMatch → Text → Bool
match_string req sm value = elim sm.exact [
  | some text ↦ value == text
  | none ↦ elim sm.prefix [
    | some start ↦ has_prefix value start
    | none ↦ elim sm.regex [ some pattern ↦ req.match_regex pattern value | none ↦ true ]
  ]
]

unfoldable pub headers_matched : Request → Dict Text StringMatch → Bool
headers_matched req [] = true
headers_matched req ((key, sm) ∷ headers) =
    match_string req sm (req.header key) && headers_matched req headers

unfoldable pub rule_matches : Text → Request → Rule → Bool
rule_matches model_name req rule = elim rule.model_match [
  | none ↦ true
  | some m ↦
      (elim m.body_model [ none ↦ true | some name ↦ model_name == name ])
      && (headers_matched req m.headers
          && (elim m.uri [ none ↦ true | some sm ↦ match_string req sm req.path ]))
]

unfoldable pub select_rule : Text → Request → List Rule → Option Rule
select_rule model_name req [] = none
select_rule model_name req (rule ∷ rules) =
    let rest = select_rule model_name req rules in
    if rule_matches model_name req rule then some rule else rest

-- The names of a Gateway's listeners.
unfoldable pub has_listener : Text → List Text → Bool
has_listener section [] = false
has_listener section (listener ∷ listeners) = listener == section || has_listener section listeners

-- `GroupName` of the Gateway API.
abbrev pub gateway_group : Text
gateway_group = codes "gateway.networking.k8s.io"

unfoldable pub is_gateway_parent_ref : ParentRef → Bool
is_gateway_parent_ref ref =
    (elim ref.group [ none ↦ true | some group ↦ group == gateway_group ])
    && (elim ref.kind [ none ↦ true | some kind ↦ kind == codes "Gateway" ])

unfoldable pub attaches : Text → Text → List Text → ParentRef → Bool
attaches route_namespace gateway_key listeners ref =
    is_gateway_parent_ref ref
    && ((get_or ref.namespace route_namespace ++ (b'/' ∷ ref.name)) == gateway_key
        && (elim ref.section_name [ none ↦ true | some section ↦ has_listener section listeners ]))

unfoldable pub any_attaches : Text → Text → List Text → List ParentRef → Bool
any_attaches route_namespace gateway_key listeners [] = false
any_attaches route_namespace gateway_key listeners (ref ∷ refs) =
    attaches route_namespace gateway_key listeners ref
    || any_attaches route_namespace gateway_key listeners refs

unfoldable pub matches_specific_gateway : Store → ModelRoute → Text → Bool
matches_specific_gateway s mr gateway_key = elim (lookup gateway_key s.gateways) [
  | none ↦ false
  | some listeners ↦ any_attaches mr.namespace gateway_key listeners mr.parent_refs
]

-- The weights, where all of the targets have one or none has: `weighted` is whether the first has.
unfoldable pub weights_of : Bool → List TargetModel → Option (List ℕ)
weights_of weighted [] = some []
weights_of weighted (target ∷ targets) = elim (weights_of weighted targets) [
  | none ↦ none
  | some rest ↦ elim target.weight [
    | none ↦ if weighted then none else some (1 ∷ rest)
    | some w ↦ if weighted then some (w ∷ rest) else none
  ]
]

unfoldable pub is_given : Option ℕ → Bool
is_given none = false
is_given (some w) = true

unfoldable pub to_weighted_slice : List TargetModel → Option (List ℕ)
unfolding is_given
to_weighted_slice [] = none
to_weighted_slice (target ∷ targets) = weights_of (is_given target.weight) (target ∷ targets)

-- Whether a route may serve requests of the gateway.
unfoldable pub gateway_allows : Store → Text → ModelRoute → Bool
gateway_allows s gateway_key mr = elim mr.parent_refs [
  | _ ∷ _ ↦ not (gateway_key == []) && matches_specific_gateway s mr gateway_key
  | [] ↦ gateway_key == [] || has_prefix gateway_key (mr.namespace ++ (b'/' ∷ []))
]

unfoldable pub usable_rule : Text → Request → ModelRoute → Option Rule
usable_rule model req mr = elim (select_rule model req mr.rules) [
  | none ↦ none
  | some rule ↦ elim (to_weighted_slice rule.target_models) [ none ↦ none | some _ ↦ some rule ]
]

unfoldable pub first_route :
    Store → Text → Request → Text → List ModelRoute → Option (ModelRoute × Rule)
first_route s model req gateway_key [] = none
first_route s model req gateway_key (mr ∷ routes) =
    let rest = first_route s model req gateway_key routes in
    if not (gateway_allows s gateway_key mr)
    then rest
    else elim (usable_rule model req mr) [ none ↦ rest | some rule ↦ some (mr, rule) ]

-- The route, the rule and whether the model is a LoRA adapter; `none` is an error.
unfoldable pub match_model_route : Store → Text → Request → Text → Option (ModelRoute × Rule × Bool)
match_model_route s model req gateway_key = elim (lookup model s.routes) [
  | some routes ↦ elim (first_route s model req gateway_key routes) [
    | none ↦ none
    | some (mr, rule) ↦ some (mr, rule, false)
  ]
  | none ↦ elim (lookup model s.lora_routes) [
    | none ↦ none
    | some routes ↦ elim (first_route s model req gateway_key routes) [
      | none ↦ none
      | some (mr, rule) ↦ some (mr, rule, true)
    ]
  ]
]

unfoldable pub total_weight : List ℕ → ℕ
total_weight [] = 0
total_weight (w ∷ ws) = w + total_weight ws

-- The index that a random number falls to, counting from `i`. The number may not go below 0, so the
-- subtraction is behind the test; off the end the index is 0.
unfoldable pub scan_weights : ℕ → ℕ → List ℕ → ℕ
scan_weights i random [] = 0
scan_weights i random (w ∷ ws) =
    let rest = scan_weights (i + 1) (random - w) ws in if ltb random w then i else rest

-- `random` gives `rand.Intn` of a bound.
unfoldable pub select_from_weighted_slice : (ℕ → ℕ) → List ℕ → Option ℕ
select_from_weighted_slice random weights =
    if nat_beq (total_weight weights) 0
    then none
    else some (scan_weights 0 (random (total_weight weights)) weights)

unfoldable pub nth : {A : Type 0} → List A → ℕ → Option A
nth [] i = none
nth (x ∷ xs) zero = some x
nth (x ∷ xs) (suc i) = nth xs i

unfoldable pub select_destination : (ℕ → ℕ) → List TargetModel → Option TargetModel
select_destination random targets = elim (to_weighted_slice targets) [
  | none ↦ none
  | some weights ↦ elim (select_from_weighted_slice random weights) [
    | none ↦ none
    | some i ↦ nth targets i
  ]
]

unfoldable pub model_target_from_destination : Text → TargetModel → Option Target
model_target_from_destination namespace target =
    let no_server = target.model_server_name == [] in
    let no_provider = target.external_model_provider_name == [] in
    if no_server && no_provider || not no_server && not no_provider
    then none
    else if not no_provider
    then some (external_provider namespace target.external_model_provider_name)
    else some (model_server namespace target.model_server_name)

unfoldable pub match_model_target :
    (ℕ → ℕ) → Store → Text → Request → Text → Option (Target × Bool × ModelRoute × Rule)
match_model_target random s model req gateway_key =
    elim (match_model_route s model req gateway_key) [
      | none ↦ none
      | some (mr, rule, is_lora) ↦ elim (select_destination random rule.target_models) [
        | none ↦ none
        | some dst ↦ elim (model_target_from_destination mr.namespace dst) [
          | none ↦ none
          | some target ↦ some (target, is_lora, mr, rule)
        ]
      ]
    ]
