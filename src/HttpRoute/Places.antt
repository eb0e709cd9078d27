-- ===== src/HttpRoute/Places.antt =====
-- The places of a route that accept a path, in the order of their precedence:
-- pkg/kthena-router/router/httproute_match.go
use mathlib.Core.Path.{refl, subst}
use kthena.Common.{
  ℕ, ◌+◌, ◌<◌, ◌≡◌, Bool, false, Option, none, some, List, [], ◌∷◌, inl, inr, ◌⊎◌, Text, arith, sym,
  All, All-map, All-append, Any, Any-with-All, Option-cases, Any-append_left, Any-append_right,
}
use kthena.HttpRoute.{
  HttpRoute, HttpRouteMatch, HttpRouteRule, MatchResult, PathPrecedence, compare_path_precedence,
  compare_path_specificity,
}
use kthena.HttpRoute.Matching.{compare_paths, default_result, find_best_rule_match}
use kthena.HttpRoute.Order.{beats}
use kthena.HttpRoute.Accepts.{Accepts, result-cases}
use kthena.HttpRoute.Best.{BestOf, match_results, rule_results, all_results, find_best-BestOf}

-- A higher rank goes first, then a longer path, then an earlier rule, then an earlier match.
abbrev pub Outranks : PathPrecedence → PathPrecedence → Type 0
Outranks a b =
    (b.match_type < a.match_type)
    ⊎ ((a.match_type ≡ b.match_type)
        × ((b.characters < a.characters)
            ⊎ ((a.characters ≡ b.characters)
                × ((a.rule_index < b.rule_index)
                    ⊎ ((a.rule_index ≡ b.rule_index) × (a.match_index < b.match_index))))))

abbrev Same : PathPrecedence → PathPrecedence → Type 0
Same a b =
    ((a.match_type ≡ b.match_type) × (a.characters ≡ b.characters))
    × ((a.rule_index ≡ b.rule_index) × (a.match_index ≡ b.match_index))

unbeaten :
    (p : PathPrecedence) (c r : MatchResult)
    → Same c.path p
    → beats compare_paths c r ≡ false
    → Outranks p r.path
    → ⊥
unfolding compare_path_precedence compare_path_specificity
unbeaten p c r same loses wins = ground arith

pub from_any :
    {A : Type 0} (P : A → Type 0) (xs : List A) (R : Type 0) → Any P xs → ((x : A) → P x → R) → R
from_any P [] R a f = elim a [ ]
from_any P (x ∷ xs) R (inl h) f = f x h
from_any P (x ∷ xs) R (inr h) f = from_any P xs R h f

module _ (regexp_match : Text → Text → Option Bool) (path : Text) where
  -- One of the matches, from the place `j` on, accepts the path.
  abbrev pub MatchAt : ℕ → List HttpRouteMatch → PathPrecedence → Type 0
  MatchAt j [] p = ⊥
  MatchAt j (m ∷ ms) p =
      ((p.match_index ≡ j) × Accepts regexp_match m path p.match_type p.characters)
      ⊎ MatchAt (j + 1) ms p

  -- A rule without matches accepts every path, like the prefix "/".
  abbrev pub InRule : List HttpRouteMatch → PathPrecedence → Type 0
  InRule [] p = (p.match_type ≡ 2) × ((p.characters ≡ 1) × (p.match_index ≡ 0))
  InRule (m ∷ ms) p = MatchAt 0 (m ∷ ms) p

  -- The rule is one of the rules, from the place `i` on, and accepts the path.
  abbrev pub RuleAt : ℕ → List HttpRouteRule → HttpRouteRule → PathPrecedence → Type 0
  RuleAt i [] rule p = ⊥
  RuleAt i (x ∷ xs) rule p =
      ((x ≡ rule) × ((p.rule_index ≡ i) × InRule x.matches p)) ⊎ RuleAt (i + 1) xs rule p

  module _ (route : HttpRoute) where
    abbrev Sound : HttpRouteRule → ℕ → ℕ → List HttpRouteMatch → MatchResult → Type 0
    Sound rule i j ms c =
        ((c.route ≡ route) × (c.rule ≡ rule)) × ((c.path.rule_index ≡ i) × MatchAt j ms c.path)

    matches-Sound :
        (rule : HttpRouteRule) (i j : ℕ) (ms : List HttpRouteMatch)
        → All (Sound rule i j ms) (match_results regexp_match route rule path i j ms)
    matches-Sound rule i j [] = tt
    matches-Sound rule i j (m ∷ ms) =
        let rest : All (Sound rule i j (m ∷ ms))
            (match_results regexp_match route rule path i (j + 1) ms) =
          All-map _ (λ c h. (h.0, (h.1.0, inr h.1.1))) (matches-Sound rule i (j + 1) ms) in
        elim (result-cases regexp_match route rule path i j m) [
          | inl (nothing, _) ↦ rw nothing rest
          | inr (prefix, rank, len, found, accepted, only) ↦
              rw found (((refl, refl), (refl, inl (refl, accepted))), rest)
        ]

    matches_complete :
        (rule : HttpRouteRule) (i j : ℕ) (ms : List HttpRouteMatch) (p : PathPrecedence)
        → p.rule_index ≡ i
        → MatchAt j ms p
        → Any (λ c. Same c.path p) (match_results regexp_match route rule path i j ms)
    matches_complete rule i j [] p e a = elim a [ ]
    matches_complete rule i j (m ∷ ms) p e a =
        elim (result-cases regexp_match route rule path i j m) [
          | inl (nothing, refused) ↦ rw nothing (elim a [
            | inl (q, accepted) ↦ absurd (refused _ _ accepted)
            | inr later ↦ matches_complete rule i (j + 1) ms p e later
          ])
          | inr (prefix, rank, len, found, _, only) ↦ rw found (elim a [
            | inl (q, accepted) ↦
                let (x, y) = only _ _ accepted in inl ((sym x, sym y), (sym e, sym q))
            | inr later ↦ inr (matches_complete rule i (j + 1) ms p e later)
          ])
        ]

    rule_sound :
        (rule : HttpRouteRule) (i : ℕ) (ms : List HttpRouteMatch)
        → All
            (λ c.
              ((c.route ≡ route) × (c.rule ≡ rule)) × ((c.path.rule_index ≡ i) × InRule ms c.path))
            (rule_results regexp_match route path i rule ms)
    unfolding default_result
    rule_sound rule i [] = (((refl, refl), (refl, (refl, (refl, refl)))), tt)
    rule_sound rule i (m ∷ ms) = matches-Sound rule i 0 (m ∷ ms)

    rule_complete :
        (rule : HttpRouteRule) (i : ℕ) (ms : List HttpRouteMatch) (p : PathPrecedence)
        → p.rule_index ≡ i
        → InRule ms p
        → Any (λ c. Same c.path p) (rule_results regexp_match route path i rule ms)
    unfolding default_result
    rule_complete rule i [] p e a = inl ((sym a.0, sym a.1.0), (sym e, sym a.1.1))
    rule_complete rule i (m ∷ ms) p e a = matches_complete rule i 0 (m ∷ ms) p e a

    rules_sound :
        (i : ℕ) (rules : List HttpRouteRule)
        → All
            (λ c. (c.route ≡ route) × RuleAt i rules c.rule c.path)
            (all_results regexp_match route path i rules)
    rules_sound i [] = tt
    rules_sound i (x ∷ xs) =
        All-append (λ c. (c.route ≡ route) × RuleAt i (x ∷ xs) c.rule c.path) _ _
          (All-map _ (λ c h. (h.0.0, inl (sym h.0.1, h.1))) (rule_sound x i x.matches))
          (All-map _ (λ c h. (h.0, inr h.1)) (rules_sound (i + 1) xs))

    rules_complete :
        (i : ℕ) (rules : List HttpRouteRule) (rule : HttpRouteRule) (p : PathPrecedence)
        → RuleAt i rules rule p
        → Any (λ c. Same c.path p) (all_results regexp_match route path i rules)
    rules_complete i [] rule p a = elim a [ ]
    rules_complete i (x ∷ xs) rule p (inl (_, (e, inside))) =
        Any-append_left (λ c. Same c.path p) _ _ (rule_complete x i x.matches p e inside)
    rules_complete i (x ∷ xs) rule p (inr later) =
        Any-append_right (λ c. Same c.path p) (rule_results regexp_match route path i x x.matches) _
          (rules_complete (i + 1) xs rule p later)

    -- findBestHTTPRouteRuleMatch finds a match exactly when a place of the route accepts the path: a
    -- supported match whose exact text, prefix of segments or pattern fits, or a rule without matches. It
    -- is at such a place, and none of them outranks it by kind, length and place.
    pub find_best_rule_match_lem :
        ((find_best_rule_match regexp_match route path ≡ none)
          × ((rule : HttpRouteRule) (p : PathPrecedence) → RuleAt 0 route.rules rule p → ⊥))
        ⊎ ((r : MatchResult) × (find_best_rule_match regexp_match route path ≡ some r)
            × (r.route ≡ route)
            × RuleAt 0 route.rules r.rule r.path
            × ((rule : HttpRouteRule) (p : PathPrecedence)
                → RuleAt 0 route.rules rule p
                → Outranks p r.path
                → ⊥))
    find_best_rule_match_lem =
        let all = all_results regexp_match route path 0 route.rules in
        let best = find_best-BestOf regexp_match route path in
        let sound = rules_sound 0 route.rules in
        elim (Option-cases (find_best_rule_match regexp_match route path)) [
          | inl nothing ↦
              let empty : all ≡ [] = rw nothing at best in
              inl (
                nothing,
                λ rule p a.
                    subst (Any (λ c. Same c.path p)) empty (rules_complete 0 route.rules rule p a),
              )
          | inr (r, found) ↦
              let chosen : BestOf compare_paths all (some r) = rw found at best in
              let there =
                from_any _ _ ((r.route ≡ route) × RuleAt 0 route.rules r.rule r.path)
                  (Any-with-All (λ c. c ≡ r) _ all chosen.0 sound)
                  (λ c h.
                    subst
                      (λ (x : MatchResult). (x.route ≡ route) × RuleAt 0 route.rules x.rule x.path)
                      h.0 h.1) in
              inr (
                r,
                found,
                there.0,
                there.1,
                λ rule p a wins.
                    from_any _ _ ⊥
                      (Any-with-All (λ c. Same c.path p) _ all
                        (rules_complete 0 route.rules rule p a) chosen.1)
                      (λ c h. unbeaten p c r h.0 h.1 wins),
              )
        ]
