-- ===== src/HttpRoute/Matching.antt =====
-- The search for the best match of a request: pkg/kthena-router/router/httproute_match.go
use kthena.Common.{
  ℕ, ◌+◌, Bool, true, false, not, ◌&&◌, ◌||◌, Option, none, some, List, [], ◌∷◌, ◌++◌, ◌==◌,
  nat_beq, if◌then◌else◌, Text, text_eq, codes, length,
}
use kthena.Common.Int.{ℤ, pos, ltb_ℤ}
use kthena.HttpRoute.{
  PathMatchType, exact, path_prefix, regular_expression, other_type, HttpPathMatch, HttpRouteMatch,
  HttpRouteRule, ParentReference, HttpRoute, PathPrecedence, MatchResult, no_hostname,
  compare_path_precedence, compare_match_precedence, match_path_prefix, path_match_type,
  path_match_value, matched_template, has_unsupported_predicates, precedence, slash,
}
use kthena.HttpRoute.Hostnames.{match_hostname_precedence}

-- The namespace of a reference, by default the route's.
abbrev pub namespace_or : Option Text → Text → Text
namespace_or none namespace = namespace
namespace_or (some n) namespace = n

-- The request, of which the code reads the listener, the host and the path.
pub record Request : Type 0 where
  pub listener_name : Text
  pub listener_port : ℕ
  pub host : Text
  pub path : Text

-- `gatewayv1.GroupName` is not code of the repository.
module _ (group_name : Text) where
  unfoldable pub is_gateway_parent_ref : ParentReference → Bool
  is_gateway_parent_ref ref =
      (elim ref.group [ none ↦ true | some g ↦ g == group_name ])
      && (elim ref.kind [ none ↦ true | some k ↦ k == codes "Gateway" ])

  -- One round of the loop: does the reference attach the route to the listener?
  unfoldable pub attaches : HttpRoute → Text → Text → ℕ → ParentReference → Bool
  attaches route gateway_key listener_name listener_port ref =
      let namespace = namespace_or ref.namespace route.namespace in
      if not (is_gateway_parent_ref ref)
      then false
      else if not (namespace ++ (slash ∷ ref.name) == gateway_key)
      then false
      else if (listener_name == []) && nat_beq listener_port 0
      then (elim ref.section_name [ none ↦ true | some s ↦ false ])
        && (elim ref.port [ none ↦ true | some p ↦ false ])
      else (elim ref.section_name [ none ↦ true | some s ↦ s == listener_name ])
        && (elim ref.port [ none ↦ true | some p ↦ nat_beq p listener_port ])

  unfoldable pub any_attaches : HttpRoute → Text → Text → ℕ → List ParentReference → Bool
  any_attaches route gateway_key listener_name listener_port [] = false
  any_attaches route gateway_key listener_name listener_port (ref ∷ refs) =
      attaches route gateway_key listener_name listener_port ref
      || any_attaches route gateway_key listener_name listener_port refs

  unfoldable pub matches_gateway_listener : HttpRoute → Text → Text → ℕ → Bool
  unfolding any_attaches
  matches_gateway_listener route gateway_key listener_name listener_port =
      any_attaches route gateway_key listener_name listener_port route.parent_refs

-- `if !found || compare(result, best) < 0 { best = result; found = true }`
abbrev pub keep {ℓ} : {A : Type ℓ} → (A → A → ℤ) → Option A → A → Option A
keep compare none result = some result
keep compare (some best) result =
    if ltb_ℤ (compare result best) (pos 0) then some result else some best

abbrev pub keep_if :
    (MatchResult → MatchResult → ℤ) → Option MatchResult → Option MatchResult → Option MatchResult
keep_if compare best none = best
keep_if compare best (some result) = keep compare best result

-- What the comparison of two matches of one route looks at.
abbrev pub compare_paths : MatchResult → MatchResult → ℤ
compare_paths a b = compare_path_precedence a.path b.path

-- The default match of a rule without matches.
unfoldable pub default_result : HttpRoute → HttpRouteRule → ℕ → MatchResult
default_result route rule i = record {
  route = route;
  rule = rule;
  matched_prefix = slash ∷ [];
  matched_path_template = slash ∷ [];
  path = record { match_type = 2; characters = 1; rule_index = i; match_index = 0 };
  hostname = no_hostname;
}

abbrev pub matched_if : Bool → Text → PathPrecedence → Option (Text × PathPrecedence)
matched_if true prefix p = some (prefix, p)
matched_if false prefix p = none

-- `regexp_match pattern path`: `none` if the pattern does not compile.
module _ (regexp_match : Text → Text → Option Bool) where
  -- matchHTTPRoutePath: the matched prefix and the precedence, `none` where it is not matched.
  unfoldable pub match_typed : PathMatchType → Text → Text → Option (Text × PathPrecedence)
  match_typed exact value request_path =
      matched_if (request_path == value) [] (precedence 3 (length value))
  match_typed path_prefix value request_path =
      let (matched, prefix) = match_path_prefix request_path value in
      matched_if matched prefix (precedence 2 (length prefix))
  match_typed regular_expression value request_path = elim (regexp_match value request_path) [
    | none ↦ none
    | some matched ↦ matched_if matched [] (precedence 1 0)
  ]
  match_typed other_type value request_path = none

  unfoldable pub match_path : Option HttpPathMatch → Text → Option (Text × PathPrecedence)
  match_path none request_path = some (slash ∷ [], precedence 2 1)
  match_path (some path) request_path =
      match_typed (path_match_type path) (path_match_value path) request_path

  -- The result of one match of a rule, if the match accepts the request.
  unfoldable pub result_of_match :
      HttpRoute → HttpRouteRule → Text → ℕ → ℕ → HttpRouteMatch → Option MatchResult
  result_of_match route rule request_path i j m =
      if has_unsupported_predicates m then none else elim (match_path m.path request_path) [
        | none ↦ none
        | some (prefix, p) ↦ some (record {
          route = route;
          rule = rule;
          matched_prefix = prefix;
          matched_path_template = matched_template m.path prefix;
          path = record p { rule_index = i; match_index = j };
          hostname = no_hostname;
        })
      ]

  -- The inner loop, from the match `j` on.
  unfoldable pub best_of_matches :
      HttpRoute
      → HttpRouteRule
      → Text
      → ℕ
      → ℕ
      → List HttpRouteMatch
      → Option MatchResult
      → Option MatchResult
  best_of_matches route rule request_path i j [] best = best
  best_of_matches route rule request_path i j (m ∷ matches) best =
      best_of_matches route rule request_path i (j + 1) matches
        (keep_if compare_paths best (result_of_match route rule request_path i j m))

  abbrev pub best_of_rule :
      HttpRoute
      → Text
      → ℕ
      → HttpRouteRule
      → List HttpRouteMatch
      → Option MatchResult
      → Option MatchResult
  best_of_rule route request_path i rule [] best =
      keep compare_paths best (default_result route rule i)
  best_of_rule route request_path i rule (m ∷ ms) best =
      best_of_matches route rule request_path i 0 (m ∷ ms) best

  -- The outer loop, from the rule `i` on.
  unfoldable pub best_of_rules :
      HttpRoute → Text → ℕ → List HttpRouteRule → Option MatchResult → Option MatchResult
  best_of_rules route request_path i [] best = best
  best_of_rules route request_path i (rule ∷ rules) best =
      best_of_rules route request_path (i + 1) rules
        (best_of_rule route request_path i rule rule.matches best)

  -- findBestHTTPRouteRuleMatch
  unfoldable pub find_best_rule_match : HttpRoute → Text → Option MatchResult
  find_best_rule_match route request_path = best_of_rules route request_path 0 route.rules none

  module _ (group_name : Text) (split_host_port : Text → Option Text) where
    -- The result of one route, with its hostname's precedence.
    unfoldable pub result_of_route : Text → Request → HttpRoute → Option MatchResult
    result_of_route gateway_key request route =
        if not (
          matches_gateway_listener group_name route gateway_key request.listener_name
            request.listener_port)
        then none
        else elim (match_hostname_precedence split_host_port route.hostnames request.host) [
          | none ↦ none
          | some hostname ↦ elim (find_best_rule_match route request.path) [
            | none ↦ none
            | some result ↦ some (record result { hostname = hostname })
          ]
        ]

    unfoldable pub best_of_routes :
        Text → Request → List HttpRoute → Option MatchResult → Option MatchResult
    best_of_routes gateway_key request [] best = best
    best_of_routes gateway_key request (route ∷ routes) best =
        best_of_routes gateway_key request routes
          (keep_if compare_match_precedence best (result_of_route gateway_key request route))

    -- findHTTPRouteMatch, over the routes that the store has for the gateway
    unfoldable pub find_match : Text → Request → List HttpRoute → Option MatchResult
    unfolding best_of_routes
    find_match gateway_key request routes = best_of_routes gateway_key request routes none
