-- ===== src/HttpRoute.antt =====
-- pkg/kthena-router/router/httproute_match.go: the choice of an HTTPRoute's rule for a request. The
-- Gateway API's types are the fields that the code reads. Texts are bytes: TrimSpace and ToLower
-- are those of ASCII. `net.SplitHostPort` and the matching of regular expressions are parameters.
pub mod Tests
pub mod Matching
pub mod Hostnames
pub mod Paths
pub mod Order
pub mod Accepts
pub mod Places
pub mod Attachment
pub mod Routes
pub mod Best
pub mod Weights
use kthena.Common.{
  ℕ, ◌+◌, Bool, true, false, not, ◌&&◌, ◌||◌, Option, none, some, List, [], ◌∷◌, ◌++◌, ◌==◌, ltb,
  leb, nat_beq, if◌then◌else◌, Text, text_eq, codes, has_prefix, length,
}
use kthena.Common.Int.{ℤ, pos, negsuc, ltb_ℤ, eqb_ℤ}

pub data PathMatchType : Type 0 where
  exact path_prefix regular_expression other_type : PathMatchType

pub record HttpPathMatch : Type 0 where
  pub match_type : Option PathMatchType
  pub value : Option Text

pub record HttpRouteMatch : Type 0 where
  pub path : Option HttpPathMatch
  pub method : Option Text
  pub headers : List (Text × Text)
  pub query_params : List (Text × Text)

pub record BackendRef : Type 0 where
  pub group : Option Text
  pub kind : Option Text
  pub namespace : Option Text
  pub name : Text
  pub weight : Option ℤ

pub record HttpRouteRule : Type 0 where
  pub matches : List HttpRouteMatch
  pub backend_refs : List BackendRef

pub record ParentReference : Type 0 where
  pub group : Option Text
  pub kind : Option Text
  pub namespace : Option Text
  pub name : Text
  pub section_name : Option Text
  pub port : Option ℕ

pub record HttpRoute : Type 0 where
  pub namespace : Text
  pub name : Text
  pub creation_timestamp : ℕ
  pub parent_refs : List ParentReference
  pub hostnames : List Text
  pub rules : List HttpRouteRule

-- httpRouteHostnamePrecedence, with matchType 0 for any, 1 for a wildcard, 2 for an exact name
pub record HostnamePrecedence : Type 0 where
  pub match_type : ℕ
  pub characters : ℕ

-- httpRoutePathPrecedence, with matchType 1 for a regular expression, 2 for a prefix, 3 for exact
pub record PathPrecedence : Type 0 where
  pub match_type : ℕ
  pub characters : ℕ
  pub rule_index : ℕ
  pub match_index : ℕ

pub record MatchResult : Type 0 where
  pub route : HttpRoute
  pub rule : HttpRouteRule
  pub matched_prefix : Text
  pub matched_path_template : Text
  pub path : PathPrecedence
  pub hostname : HostnamePrecedence

abbrev no_hostname : HostnamePrecedence
no_hostname = record { match_type = 0; characters = 0 }

abbrev no_path : PathPrecedence
no_path = record { match_type = 0; characters = 0; rule_index = 0; match_index = 0 }

-- The smaller key first: -1, 1, or else the rest of the comparison.
abbrev pub smaller_first : ℕ → ℕ → ℤ → ℤ
smaller_first a b rest = if nat_beq a b then rest else if ltb a b then negsuc 0 else pos 1

abbrev pub greater_first : ℕ → ℕ → ℤ → ℤ
greater_first a b rest = if nat_beq a b then rest else if ltb b a then negsuc 0 else pos 1

abbrev or_else : ℤ → ℤ → ℤ
or_else result rest = if eqb_ℤ result (pos 0) then rest else result

unfoldable pub compare_path_specificity : PathPrecedence → PathPrecedence → ℤ
compare_path_specificity a b =
    greater_first a.match_type b.match_type (greater_first a.characters b.characters (pos 0))

unfoldable pub compare_path_precedence : PathPrecedence → PathPrecedence → ℤ
compare_path_precedence a b =
    or_else (compare_path_specificity a b)
      (smaller_first a.rule_index b.rule_index (smaller_first a.match_index b.match_index (pos 0)))

unfoldable pub compare_hostname_precedence : HostnamePrecedence → HostnamePrecedence → ℤ
compare_hostname_precedence a b =
    greater_first a.match_type b.match_type (greater_first a.characters b.characters (pos 0))

-- Go's `<` on strings.
unfoldable pub text_ltb : Text → Text → Bool
text_ltb s [] = false
text_ltb [] (d ∷ t) = true
text_ltb (c ∷ s) (d ∷ t) = if ltb c d then true else if ltb d c then false else text_ltb s t

unfoldable pub text_first : Text → Text → ℤ → ℤ
unfolding text_ltb
text_first s t rest = if text_ltb s t then negsuc 0 else if text_ltb t s then pos 1 else rest

unfoldable pub compare_match_precedence : MatchResult → MatchResult → ℤ
compare_match_precedence a b = or_else (compare_hostname_precedence a.hostname b.hostname) (
    or_else (compare_path_specificity a.path b.path) (
      smaller_first a.route.creation_timestamp b.route.creation_timestamp (
        if not (a.route.namespace == b.route.namespace)
        then if text_ltb a.route.namespace b.route.namespace then negsuc 0 else pos 1
        else text_first a.route.name b.route.name (pos 0))))

abbrev slash : ℕ
slash = b'/'

-- `strings.TrimRight(s, "/")`
unfoldable pub trim_right_slash : Text → Text
trim_right_slash [] = []
trim_right_slash (c ∷ s) =
    let rest = trim_right_slash s in if nat_beq c slash && (rest == []) then [] else c ∷ rest

-- matchHTTPPathPrefix
unfoldable pub match_path_prefix : Text → Text → Bool × Text
match_path_prefix path prefix =
    let normalized = trim_right_slash prefix in
    if normalized == []
    then (has_prefix path (slash ∷ []), slash ∷ [])
    else ((path == normalized) || has_prefix path (normalized ++ (slash ∷ [])), normalized)

unfoldable pub path_match_type : HttpPathMatch → PathMatchType
path_match_type path = elim path.match_type [ none ↦ path_prefix | some t ↦ t ]

unfoldable pub path_match_value : HttpPathMatch → Text
path_match_value path = elim path.value [ none ↦ slash ∷ [] | some v ↦ v ]

unfoldable pub matched_template : Option HttpPathMatch → Text → Text
unfolding path_match_value
matched_template path matched_prefix =
    if not (matched_prefix == [])
    then matched_prefix
    else elim path [ none ↦ slash ∷ [] | some p ↦ path_match_value p ]

unfoldable pub has_unsupported_predicates : HttpRouteMatch → Bool
has_unsupported_predicates m =
    (elim m.method [ none ↦ false | some x ↦ true ])
    || ltb 0 (length m.headers)
    || ltb 0 (length m.query_params)

abbrev precedence : ℕ → ℕ → PathPrecedence
precedence match_type characters = record {
  match_type = match_type;
  characters = characters;
  rule_index = 0;
  match_index = 0;
}
