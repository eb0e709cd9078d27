-- ===== src/HttpRoute/Best.antt =====
-- The match that the search chooses: pkg/kthena-router/router/httproute_match.go
use kthena.Common.{
  ℕ, ◌+◌, ◌≡◌, ◌⊎◌, inl, inr, refl, sym, ap, ◌∙◌, Bool, false, Option, none, some, List, [], ◌∷◌,
  ◌++◌, Text, arith, Bool-cases, All, Any,
}
use mathlib.Core.Path.{subst}
use kthena.Common.Int.{ℤ}
use kthena.HttpRoute.{
  HttpRoute, HttpRouteMatch, HttpRouteRule, MatchResult, compare_match_precedence,
}
use kthena.HttpRoute.Matching.{
  Request, keep, keep_if, compare_paths, default_result, result_of_match, best_of_matches,
  best_of_rule, best_of_rules, find_best_rule_match, result_of_route, best_of_routes, find_match,
}
use kthena.HttpRoute.Order.{beats, IsPrecedence, paths-IsPrecedence, match-IsPrecedence}

-- The best of the candidates: there is one unless the list is empty, it is a candidate, and no
-- candidate beats it.
abbrev pub BestOf : (MatchResult → MatchResult → ℤ) → List MatchResult → Option MatchResult → Type 0
BestOf compare candidates none = candidates ≡ []
BestOf compare candidates (some r) =
    Any (λ c. c ≡ r) candidates × All (λ c. beats compare c r ≡ false) candidates

abbrev pub keep_all :
    (MatchResult → MatchResult → ℤ) → Option MatchResult → List MatchResult → Option MatchResult
keep_all compare best [] = best
keep_all compare best (c ∷ cs) = keep_all compare (keep compare best c) cs

keep_all-append :
    (compare : MatchResult → MatchResult → ℤ) (best : Option MatchResult) (cs ds : List MatchResult)
    → keep_all compare best (cs ++ ds) ≡ keep_all compare (keep_all compare best cs) ds
keep_all-append compare best [] ds = refl
keep_all-append compare best (c ∷ cs) ds = keep_all-append compare (keep compare best c) cs ds

-- From a best `b` on, the result is `b` or a candidate, and neither `b` nor a candidate beats it.
keep_all-some :
    (compare : MatchResult → MatchResult → ℤ) (b : MatchResult) (cs : List MatchResult)
    → IsPrecedence compare
    → (r : MatchResult) × (keep_all compare (some b) cs ≡ some r)
      × ((b ≡ r) ⊎ Any (λ c. c ≡ r) cs)
      × (beats compare b r ≡ false)
      × All (λ c. beats compare c r ≡ false) cs
      × ((c : MatchResult) → beats compare c b ≡ false → beats compare c r ≡ false)
keep_all-some compare b [] p = (b, refl, inl refl, p.irreflexive b, tt, λ c h. h)
keep_all-some compare b (x ∷ cs) p = elim (Bool-cases (beats compare x b)) [
  | inl wins ↦
      let (r, e, one, best, all, rest) = keep_all-some compare x cs p in
      let up : (c : MatchResult) → beats compare c b ≡ false → beats compare c x ≡ false =
        λ c h. ground (arith, p.transitive c x b) in
      let asym : beats compare b x ≡ false = ground (arith, p.transitive b x b, p.irreflexive b) in
      (r, rw wins e, inr one, rest b asym, (best, all), λ c h. rest c (up c h))
  | inr loses ↦
      let (r, e, one, best, all, rest) = keep_all-some compare b cs p in
      (
        r,
        rw loses e,
        elim one [ inl y ↦ inl y | inr y ↦ inr (inr y) ],
        best,
        (rest x loses, all),
        rest,
      )
]

pub keep_all-BestOf :
    (compare : MatchResult → MatchResult → ℤ) (cs : List MatchResult)
    → IsPrecedence compare
    → BestOf compare cs (keep_all compare none cs)
keep_all-BestOf compare [] p = refl
keep_all-BestOf compare (c ∷ cs) p =
    let (r, e, one, best, all, rest) = keep_all-some compare c cs p in
    subst (BestOf compare (c ∷ cs)) (sym e) (one, (best, all))

-- A result that may be missing, in front of a list.
abbrev pub with_result : Option MatchResult → List MatchResult → List MatchResult
with_result none cs = cs
with_result (some c) cs = c ∷ cs

keep_if-with_result :
    (compare : MatchResult → MatchResult → ℤ) (best o : Option MatchResult) (cs : List MatchResult)
    → keep_all compare best (with_result o cs) ≡ keep_all compare (keep_if compare best o) cs
keep_if-with_result compare best none cs = refl
keep_if-with_result compare best (some c) cs = refl

module _ (regexp_match : Text → Text → Option Bool) where
  -- Every match of a rule, from the match `j` on, that accepts the path.
  abbrev pub match_results :
      HttpRoute → HttpRouteRule → Text → ℕ → ℕ → List HttpRouteMatch → List MatchResult
  match_results route rule path i j [] = []
  match_results route rule path i j (m ∷ ms) =
      with_result (result_of_match regexp_match route rule path i j m)
        (match_results route rule path i (j + 1) ms)

  abbrev pub rule_results :
      HttpRoute → Text → ℕ → HttpRouteRule → List HttpRouteMatch → List MatchResult
  rule_results route path i rule [] = default_result route rule i ∷ []
  rule_results route path i rule (m ∷ ms) = match_results route rule path i 0 (m ∷ ms)

  -- Every match of the rules, from the rule `i` on, that accepts the path.
  abbrev pub all_results : HttpRoute → Text → ℕ → List HttpRouteRule → List MatchResult
  all_results route path i [] = []
  all_results route path i (rule ∷ rules) =
      rule_results route path i rule rule.matches ++ all_results route path (i + 1) rules

  best_of_matches_eq :
      (route : HttpRoute) (rule : HttpRouteRule) (path : Text) (i j : ℕ) (ms : List HttpRouteMatch)
      (best : Option MatchResult)
      → best_of_matches regexp_match route rule path i j ms best
        ≡ keep_all compare_paths best (match_results route rule path i j ms)
  unfolding best_of_matches
  best_of_matches_eq route rule path i j [] best = refl
  best_of_matches_eq route rule path i j (m ∷ ms) best =
      best_of_matches_eq route rule path i (j + 1) ms _
      ∙ sym (
          keep_if-with_result compare_paths best
            (result_of_match regexp_match route rule path i j m)
            (match_results route rule path i (j + 1) ms))

  best_of_rules_eq :
      (route : HttpRoute) (path : Text) (i : ℕ) (rules : List HttpRouteRule)
      (best : Option MatchResult)
      → best_of_rules regexp_match route path i rules best
        ≡ keep_all compare_paths best (all_results route path i rules)
  unfolding best_of_rules
  best_of_rules_eq route path i [] best = refl
  best_of_rules_eq route path i (rule ∷ rules) best =
      best_of_rules_eq route path (i + 1) rules _
      ∙ ap (λ b. keep_all compare_paths b (all_results route path (i + 1) rules)) (one rule.matches)
      ∙ sym (
          keep_all-append compare_paths best (rule_results route path i rule rule.matches)
            (all_results route path (i + 1) rules))
    where
      one :
          (ms : List HttpRouteMatch)
          → best_of_rule regexp_match route path i rule ms best
            ≡ keep_all compare_paths best (rule_results route path i rule ms)
      one [] = refl
      one (m ∷ ms) = best_of_matches_eq route rule path i 0 (m ∷ ms) best

  -- The match that findBestHTTPRouteRuleMatch chooses is one of the matches of the route's rules
  -- that accept the path, and none of them has precedence over it: a more specific path, or as
  -- specific a path with an earlier place in the route. It finds none exactly when no match accepts the
  -- path.
  pub find_best-BestOf :
      (route : HttpRoute) (path : Text)
      → BestOf compare_paths
          (all_results route path 0 route.rules)
          (find_best_rule_match regexp_match route path)
  unfolding find_best_rule_match
  find_best-BestOf route path =
      rw (best_of_rules_eq route path 0 route.rules none)
        (keep_all-BestOf compare_paths (all_results route path 0 route.rules) paths-IsPrecedence)

  module _ (group_name : Text) (split_host_port : Text → Option Text) where
    -- The results of the routes that have one.
    abbrev pub route_results : Text → Request → List HttpRoute → List MatchResult
    route_results key request [] = []
    route_results key request (route ∷ routes) =
        with_result (result_of_route regexp_match group_name split_host_port key request route)
          (route_results key request routes)

    best_of_routes_eq :
        (key : Text) (request : Request) (routes : List HttpRoute) (best : Option MatchResult)
        → best_of_routes regexp_match group_name split_host_port key request routes best
          ≡ keep_all compare_match_precedence best (route_results key request routes)
    unfolding best_of_routes
    best_of_routes_eq key request [] best = refl
    best_of_routes_eq key request (route ∷ routes) best =
        best_of_routes_eq key request routes _
        ∙ sym (
            keep_if-with_result compare_match_precedence best
              (result_of_route regexp_match group_name split_host_port key request route)
              (route_results key request routes))

    -- The match that findHTTPRouteMatch chooses is the best match of one of the routes that are
    -- attached to the listener and accept the host and the path, and no such route's match has
    -- precedence over it. It finds none exactly when there is no such route.
    pub find_match-BestOf :
        (key : Text) (request : Request) (routes : List HttpRoute)
        → BestOf compare_match_precedence
            (route_results key request routes)
            (find_match regexp_match group_name split_host_port key request routes)
    unfolding find_match
    find_match-BestOf key request routes = rw (best_of_routes_eq key request routes none) (
        keep_all-BestOf compare_match_precedence (route_results key request routes)
          match-IsPrecedence)
