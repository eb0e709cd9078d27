-- ===== src/HttpRoute/Tests.antt =====
-- Concrete routes: pkg/kthena-router/router/httproute_match.go
use kthena.Common.{
  ℕ, ◌-◌, ◌<◌, ◌≡◌, ◌≢◌, ◌↔◌, ◌⊎◌, [], ◌∷◌, ◌++◌, Option, some, none, Bool, true, Text, codes,
  arith, Any, All,
}
use kthena.Common.Int.{pos}
use kthena.HttpRoute.{
  HttpRouteMatch, BackendRef, HttpRouteRule, HttpRoute, MatchResult, PathPrecedence,
  trim_right_slash, match_path_prefix, slash,
}
use kthena.HttpRoute.Matching.{Request, find_best_rule_match, find_match}
use kthena.HttpRoute.Routes.{IsResult, Precedes, find_match_lem}
use kthena.HttpRoute.Places.{RuleAt, Outranks, find_best_rule_match_lem}
use kthena.HttpRoute.Paths.{segments, under, match_path_prefix_lem}
use kthena.HttpRoute.Weights.{
  WeightedPool, select_weighted, total_weight, Eligible, pool_name, pool_of_rule, select_share,
  pool_of_rule_lem,
}

abbrev regexp_match : Text → Text → Option Bool
regexp_match pattern path = none

abbrev split_host_port : Text → Option Text
split_host_port host = none

abbrev prefix_match : Text → HttpRouteMatch
prefix_match value = record {
  path = some (record { match_type = none; value = some value });
  method = none;
  headers = [];
  query_params = [];
}

abbrev pool_ref : BackendRef
pool_ref = record {
  group = some (codes "inference.networking.k8s.io");
  kind = some (codes "InferencePool");
  namespace = none;
  name = codes "pool";
  weight = some (pos 3);
}

abbrev rule_of : Text → HttpRouteRule
rule_of value = record { matches = prefix_match value ∷ []; backend_refs = pool_ref ∷ [] }

abbrev route : HttpRoute
route = record {
  namespace = codes "ns";
  name = codes "route";
  creation_timestamp = 5;
  parent_refs =
      record {
        group = none;
        kind = none;
        namespace = none;
        name = codes "gw";
        section_name = none;
        port = none;
      }
      ∷ [];
  hostnames = codes "*.example.com" ∷ [];
  rules = rule_of (codes "/") ∷ rule_of (codes "/chat") ∷ [];
}

abbrev request : Request
request = record {
  listener_name = codes "http";
  listener_port = 80;
  host = codes "api.example.com:80";
  path = codes "/chat/x";
}

find_best_rule_match_lem_example :
    ((find_best_rule_match regexp_match route (codes "/chat/x") ≡ none)
      × ((rule : HttpRouteRule) (p : PathPrecedence)
          → RuleAt regexp_match (codes "/chat/x") 0 route.rules rule p
          → ⊥))
    ⊎ ((r : MatchResult) × (find_best_rule_match regexp_match route (codes "/chat/x") ≡ some r)
        × (r.route ≡ route)
        × RuleAt regexp_match (codes "/chat/x") 0 route.rules r.rule r.path
        × ((rule : HttpRouteRule) (p : PathPrecedence)
            → RuleAt regexp_match (codes "/chat/x") 0 route.rules rule p
            → Outranks p r.path
            → ⊥))
find_best_rule_match_lem_example = find_best_rule_match_lem regexp_match (codes "/chat/x") route

find_match_lem_example :
    ((find_match regexp_match (codes "g") split_host_port (codes "ns/gw") request (route ∷ [])
        ≡ none)
      × ((c : MatchResult)
          → Any
              (λ x. IsResult regexp_match (codes "g") split_host_port (codes "ns/gw") request x c)
              (route ∷ [])
          → ⊥))
    ⊎ ((r : MatchResult) × (find_match regexp_match
            (codes "g")
            split_host_port
            (codes "ns/gw")
            request
            (route ∷ [])
          ≡ some r)
        × Any
            (λ x. IsResult regexp_match (codes "g") split_host_port (codes "ns/gw") request x r)
            (route ∷ [])
        × ((c : MatchResult)
            → Any
                (λ x. IsResult regexp_match (codes "g") split_host_port (codes "ns/gw") request x c)
                (route ∷ [])
            → Precedes c r
            → ⊥))
find_match_lem_example =
    find_match_lem regexp_match (codes "g") split_host_port (codes "ns/gw") request (route ∷ [])

match_path_prefix_lem_example :
    (trim_right_slash (codes "/chat/") ≢ []
      → (match_path_prefix (codes "/chat/x") (codes "/chat/")).0
        ≡ under (segments (codes "/chat/x")) (segments (trim_right_slash (codes "/chat/"))))
    × (trim_right_slash (codes "/chat/") ≡ []
        → ((match_path_prefix (codes "/chat/x") (codes "/chat/")).0 ≡ true)
          ↔ ((rest : Text) × (codes "/chat/x" ≡ slash ∷ rest)))
match_path_prefix_lem_example = match_path_prefix_lem (codes "/chat/x") (codes "/chat/")

abbrev pool : ℕ → WeightedPool
pool weight = record { name = (codes "ns", codes "p"); weight = weight }

select_share_example :
    select_weighted ((pool 2 ∷ []) ++ (pool 3 ∷ pool 1 ∷ [])) 4 ≡ some (codes "ns", codes "p")
unfolding total_weight
select_share_example =
    select_share (pool 2 ∷ []) (pool 1 ∷ []) (pool 3) 4 (omega arith) (omega arith)

abbrev intn : ℕ → ℕ
intn n = n - 1

intn_below : (n : ℕ) → 0 < n → intn n < n
intn_below n h = omega (arith, h)

pool_of_rule_lem_example :
    (Any Eligible (pool_ref ∷ [])
      → Any
          (λ ref.
            Eligible ref
            × (pool_of_rule intn route (rule_of (codes "/")) ≡ some (pool_name route ref)))
          (pool_ref ∷ []))
    × (All (λ ref. Eligible ref → ⊥) (pool_ref ∷ [])
        → pool_of_rule intn route (rule_of (codes "/")) ≡ none)
pool_of_rule_lem_example = pool_of_rule_lem intn route (rule_of (codes "/")) intn_below
