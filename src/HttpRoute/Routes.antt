-- ===== src/HttpRoute/Routes.antt =====
-- The route of a gateway that a request is matched to: pkg/kthena-router/router/httproute_match.go
use mathlib.Core.Path.{refl, subst}
use kthena.Common.{
  ◌<◌, ◌≡◌, Bool, true, false, Option, none, some, List, [], ◌∷◌, inl, inr, ◌⊎◌, nat_eq, Text,
  text_eq, text_beq_iff, arith, sym, ◌∙◌, All, All-map, Any, Any-with-All, Option-cases, Bool-cases,
}
use kthena.Common.Decides.{refuted}
use kthena.HttpRoute.{
  HttpRoute, MatchResult, compare_match_precedence, compare_hostname_precedence,
  compare_path_specificity, text_ltb, text_first,
}
use kthena.HttpRoute.Matching.{
  Request, any_attaches, matches_gateway_listener, find_best_rule_match, result_of_route,
  find_match,
}
use kthena.HttpRoute.Attachment.{Attached, any_attaches-decides}
use kthena.HttpRoute.Hostnames.{match_hostname_precedence}
use kthena.HttpRoute.Order.{beats, text_ltb_self}
use kthena.HttpRoute.Places.{from_any}
use kthena.HttpRoute.Best.{BestOf, route_results, find_match-BestOf}

-- The hostname first (its kind, then its length), then the path (its kind, then its length), then the
-- older route, then the namespace and the name.
abbrev pub Precedes : MatchResult → MatchResult → Type 0
Precedes a b =
    (b.hostname.match_type < a.hostname.match_type)
    ⊎ ((a.hostname.match_type ≡ b.hostname.match_type)
        × ((b.hostname.characters < a.hostname.characters)
            ⊎ ((a.hostname.characters ≡ b.hostname.characters)
                × ((b.path.match_type < a.path.match_type)
                    ⊎ ((a.path.match_type ≡ b.path.match_type)
                        × ((b.path.characters < a.path.characters)
                            ⊎ ((a.path.characters ≡ b.path.characters)
                                × ((a.route.creation_timestamp < b.route.creation_timestamp)
                                    ⊎ ((a.route.creation_timestamp ≡ b.route.creation_timestamp)
                                        × ((text_ltb a.route.namespace b.route.namespace ≡ true)
                                            ⊎ ((a.route.namespace ≡ b.route.namespace)
                                                × (text_ltb a.route.name b.route.name
                                                    ≡ true))))))))))))

unbeaten : (c r : MatchResult) → beats compare_match_precedence c r ≡ false → Precedes c r → ⊥
unfolding compare_match_precedence compare_hostname_precedence compare_path_specificity text_first
unbeaten c r loses wins =
    ground
      (arith, text_beq_iff c.route.namespace r.route.namespace, text_ltb_self c.route.namespace)

module _ (regexp_match : Text → Text → Option Bool) (group_name : Text)
    (split_host_port : Text → Option Text) (key : Text) (request : Request) where
  -- The route is attached to the listener, its hostnames take the host, and the result is its best match
  -- with the precedence of the hostname.
  abbrev pub IsResult : HttpRoute → MatchResult → Type 0
  IsResult route r =
      Any (Attached group_name route.namespace key request) route.parent_refs
      × ((match_hostname_precedence split_host_port route.hostnames request.host ≡ some r.hostname)
          × ((best : MatchResult) × ((find_best_rule_match regexp_match route request.path
                  ≡ some best)
                × (r ≡ record best { hostname = r.hostname }))))

  route-cases :
      (route : HttpRoute)
      → ((result_of_route regexp_match group_name split_host_port key request route ≡ none)
          × ((r : MatchResult) → IsResult route r → ⊥))
        ⊎ ((r : MatchResult) × (result_of_route regexp_match group_name split_host_port key request
                route
              ≡ some r)
            × IsResult route r
            × ((c : MatchResult) → IsResult route c → r ≡ c))
  unfolding result_of_route matches_gateway_listener
  route-cases route =
      let law = any_attaches-decides group_name key route request route.parent_refs in
      elim (Bool-cases (
        any_attaches group_name route key request.listener_name request.listener_port
          route.parent_refs)) [
            | inr off ↦ inl (
              ground (arith, off),
              λ r h.
                  refuted _
                    (Any (Attached group_name route.namespace key request) route.parent_refs) law
                    off h.0,
            )
            | inl on ↦
                elim (Option-cases
                  (match_hostname_precedence split_host_port route.hostnames request.host)) [
                    | inl nothing ↦
                        inl (ground (arith, on, nothing), λ r h. ground (arith, nothing, h.1.0))
                    | inr (hostname, host) ↦
                        elim (Option-cases (find_best_rule_match regexp_match route request.path)) [
                          | inl nothing ↦ inl (
                            ground (arith, on, host, nothing),
                            λ r h. ground (arith, nothing, h.1.1.1.0),
                          )
                          | inr (best, found) ↦ inr (
                            record best { hostname = hostname },
                            ground (arith, on, host, found),
                            (law.0 on, (host, (best, (found, refl)))),
                            λ c h.
                                let same : hostname ≡ c.hostname = ground (arith, host, h.1.0) in
                                let one : best ≡ h.1.1.0 = ground (arith, found, h.1.1.1.0) in
                                (λ i. record (one i) { hostname = same i }) ∙ sym h.1.1.1.1,
                          )
                        ]
                  ]
          ]

  results_sound :
      (routes : List HttpRoute)
      → All
          (λ c. Any (λ route. IsResult route c) routes)
          (route_results regexp_match group_name split_host_port key request routes)
  results_sound [] = tt
  results_sound (x ∷ xs) =
      let rest : All (λ c. Any (λ route. IsResult route c) (x ∷ xs))
          (route_results regexp_match group_name split_host_port key request xs) =
        All-map _ (λ c h. inr h) (results_sound xs) in
      elim (route-cases x) [
        | inl (nothing, _) ↦ rw nothing rest
        | inr (r, found, here, only) ↦ rw found (inl here, rest)
      ]

  results_complete :
      (routes : List HttpRoute) (c : MatchResult)
      → Any (λ route. IsResult route c) routes
      → Any (λ d. d ≡ c) (route_results regexp_match group_name split_host_port key request routes)
  results_complete [] c a = elim a [ ]
  results_complete (x ∷ xs) c a = elim (route-cases x) [
    | inl (nothing, refused) ↦
        rw nothing
          (elim a [ inl here ↦ absurd (refused c here) | inr later ↦ results_complete xs c later ])
    | inr (r, found, _, only) ↦
        rw found
          (elim a [ inl here ↦ inl (only c here) | inr later ↦ inr (results_complete xs c later) ])
  ]

  -- findHTTPRouteMatch finds a match exactly when one of the routes is attached to the listener by a
  -- parent reference, matchHTTPRouteHostnamePrecedence takes the host, and
  -- findBestHTTPRouteRuleMatch has a match for the path. It is the best match of such a route, and
  -- that of none of them precedes it: by hostname, path, age, namespace and name.
  pub find_match_lem :
      (routes : List HttpRoute)
      → ((find_match regexp_match group_name split_host_port key request routes ≡ none)
          × ((c : MatchResult) → Any (λ route. IsResult route c) routes → ⊥))
        ⊎ ((r : MatchResult) × (find_match regexp_match group_name split_host_port key request
                routes
              ≡ some r)
            × Any (λ route. IsResult route r) routes
            × ((c : MatchResult) → Any (λ route. IsResult route c) routes → Precedes c r → ⊥))
  find_match_lem routes =
      let all = route_results regexp_match group_name split_host_port key request routes in
      let best = find_match-BestOf regexp_match group_name split_host_port key request routes in
      elim (Option-cases (find_match regexp_match group_name split_host_port key request routes)) [
        | inl nothing ↦
            let empty : all ≡ [] = rw nothing at best in
            inl (nothing, λ c a. subst (Any (λ d. d ≡ c)) empty (results_complete routes c a))
        | inr (r, found) ↦
            let chosen : BestOf compare_match_precedence all (some r) = rw found at best in
            inr (
              r,
              found,
              from_any _ _ (Any (λ route. IsResult route r) routes)
                  (Any-with-All (λ c. c ≡ r) _ all chosen.0 (results_sound routes))
                  (λ c h. subst (λ x. Any (λ route. IsResult route x) routes) h.0 h.1),
              λ c a wins.
                  from_any _ _ ⊥
                    (Any-with-All (λ d. d ≡ c) _ all (results_complete routes c a) chosen.1)
                    (λ d h.
                      unbeaten c r (subst (λ x. beats compare_match_precedence x r ≡ false) h.0 h.1)
                        wins),
            )
      ]
