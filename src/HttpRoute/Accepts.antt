-- ===== src/HttpRoute/Accepts.antt =====
-- Which requests a match of a rule accepts: pkg/kthena-router/router/httproute_match.go
use mathlib.Core.Path.{refl, subst}
use kthena.Common.{
  ℕ, ◌≡◌, ◌≢◌, Bool, true, false, Option, none, some, List, [], ◌∷◌, ◌==◌, ==-iff, inl, inr, ◌⊎◌,
  nat_beq, if◌then◌else◌, Text, text_eq, length, arith, Option-cases, Bool-cases, sym, ap, ◌∙◌,
}
use kthena.Common.Decides.{Decides}
use kthena.GroupStore.{get_or}
use kthena.HttpRoute.{
  PathMatchType, exact, path_prefix, regular_expression, other_type, HttpPathMatch, HttpRouteMatch,
  HttpRoute, HttpRouteRule, MatchResult, PathPrecedence, slash, trim_right_slash, match_path_prefix,
  path_match_type, path_match_value, has_unsupported_predicates, precedence, matched_template,
  no_hostname,
}
use kthena.HttpRoute.Matching.{matched_if, match_typed, match_path, result_of_match}
use kthena.HttpRoute.Paths.{segments, under, match_path_prefix_lem}

-- The first segments of the path are those of the prefix without its last slashes; a prefix of slashes
-- only has every path that starts with one under it.
abbrev pub IsUnder : Text → Text → Type 0
IsUnder path prefix =
    ((trim_right_slash prefix ≢ [])
      × (under (segments path) (segments (trim_right_slash prefix)) ≡ true))
    ⊎ ((trim_right_slash prefix ≡ []) × ((rest : Text) × (path ≡ slash ∷ rest)))

-- The length of a prefix without its last slashes, or 1 for "/".
abbrev pub prefix_length : Text → ℕ
prefix_length prefix =
    if nat_beq (length (trim_right_slash prefix)) 0 then 1 else length (trim_right_slash prefix)

-- The match has no condition that is not supported.
abbrev pub Supported : HttpRouteMatch → Type 0
Supported m = (m.method ≡ none) × ((m.headers ≡ []) × (m.query_params ≡ []))

List-cases : {A : Type 0} (l : List A) → (l ≡ []) ⊎ ((x : A) × (xs : List A) × (l ≡ x ∷ xs))
List-cases [] = inl refl
List-cases (x ∷ xs) = inr (x, xs, refl)

IsUnder-decides :
    (path prefix : Text) → Decides (match_path_prefix path prefix).0 (IsUnder path prefix)
IsUnder-decides path prefix =
    let law = match_path_prefix_lem path prefix in
    elim (Bool-cases (trim_right_slash prefix == [])) [
      | inl e ↦
          let nil = (==-iff (trim_right_slash prefix) []).0 e in
          (
            λ h. inr (nil, ((law.1 nil).0 h)),
            λ h. elim h [ inl (ne, _) ↦ absurd (ne nil) | inr (_, rest) ↦ (law.1 nil).1 rest ],
          )
      | inr e ↦
          let ne : trim_right_slash prefix ≢ [] =
            λ nil. cc ((==-iff (trim_right_slash prefix) []).1 nil) in
          (
            λ h. inl (ne, sym (law.0 ne) ∙ h),
            λ h. elim h [ inl (_, u) ↦ law.0 ne ∙ u | inr (nil, _) ↦ absurd (ne nil) ],
          )
    ]

prefix-length :
    (path prefix : Text) → length (match_path_prefix path prefix).1 ≡ prefix_length prefix
unfolding match_path_prefix
prefix-length path prefix = elim (Bool-cases (trim_right_slash prefix == [])) [
  | inl e ↦
      let nil = ap (λ t. length t) ((==-iff (trim_right_slash prefix) []).0 e) in
      ground (arith, e, nil)
  | inr e ↦ elim (List-cases (trim_right_slash prefix)) [
    | inl nil ↦ absurd (ground (arith, e, nil))
    | inr (c, t, f) ↦ ground (arith, e, f)
  ]
]

Supported-cases :
    (m : HttpRouteMatch)
    → ((has_unsupported_predicates m ≡ true) × (Supported m → ⊥))
      ⊎ ((has_unsupported_predicates m ≡ false) × Supported m)
unfolding has_unsupported_predicates
Supported-cases m = elim (Option-cases m.method) [
  | inr (x, e) ↦ inl (ground (arith, e), λ p. cc)
  | inl e ↦ elim (List-cases m.headers) [
    | inr (x, xs, f) ↦ inl (ground (arith, e, f), λ p. cc)
    | inl f ↦ elim (List-cases m.query_params) [
      | inr (x, xs, g) ↦ inl (ground (arith, e, f, g), λ p. cc)
      | inl g ↦ inr (ground (arith, e, f, g), (e, (f, g)))
    ]
  ]
]

-- A search that answers with the rank and the length of what is accepted, if anything is.
abbrev pub Answers : (ℕ → ℕ → Type 0) → Option (Text × PathPrecedence) → Type 0
Answers P o =
    ((o ≡ none) × ((r l : ℕ) → P r l → ⊥))
    ⊎ ((prefix : Text) × (rank len : ℕ) × (o ≡ some (prefix, precedence rank len))
        × P rank len
        × ((r l : ℕ) → P r l → (r ≡ rank) × (l ≡ len)))

Answers-if :
    (b : Bool) (Q : Type 0) (prefix : Text) (rank len : ℕ)
    → Decides b Q
    → Answers (λ r l. Q × (r ≡ rank) × (l ≡ len)) (matched_if b prefix (precedence rank len))
Answers-if true Q prefix rank len q =
    inr (prefix, rank, len, refl, (q.0 refl, refl, refl), λ r l p. (p.1, p.2))
Answers-if false Q prefix rank len q = inl (refl, λ r l p. cc (q.1 p.0))

module _ (regexp_match : Text → Text → Option Bool) where
  abbrev pub TypeAccepts : PathMatchType → Text → Text → ℕ → ℕ → Type 0
  TypeAccepts exact value path rank len = (path ≡ value) × (rank ≡ 3) × (len ≡ length value)
  TypeAccepts path_prefix value path rank len =
      IsUnder path value × (rank ≡ 2) × (len ≡ prefix_length value)
  TypeAccepts regular_expression value path rank len =
      (regexp_match value path ≡ some true) × (rank ≡ 1) × (len ≡ 0)
  TypeAccepts other_type value path rank len = ⊥

  -- By default a path is a prefix, and its value is "/".
  abbrev pub PathAccepts : Option HttpPathMatch → Text → ℕ → ℕ → Type 0
  PathAccepts none path rank len = (rank ≡ 2) × (len ≡ 1)
  PathAccepts (some p) path rank len =
      TypeAccepts (get_or p.match_type path_prefix) (get_or p.value (slash ∷ [])) path rank len

  -- The match accepts the path, with the rank of its kind and the length that it compares by.
  abbrev pub Accepts : HttpRouteMatch → Text → ℕ → ℕ → Type 0
  Accepts m path rank len = Supported m × PathAccepts m.path path rank len

  typed-Answers :
      (t : PathMatchType) (value path : Text)
      → Answers (TypeAccepts t value path) (match_typed regexp_match t value path)
  unfolding match_typed
  typed-Answers exact value path = Answers-if _ _ _ _ _ (==-iff path value)
  typed-Answers path_prefix value path =
      subst
        (λ n.
          Answers (λ r l. IsUnder path value × (r ≡ 2) × (l ≡ n))
            (matched_if (match_path_prefix path value).0 (match_path_prefix path value).1
              (precedence 2 (length (match_path_prefix path value).1))))
        (prefix-length path value) (Answers-if _ _ _ _ _ (IsUnder-decides path value))
  typed-Answers regular_expression value path = elim (Option-cases (regexp_match value path)) [
    | inl e ↦ inl (ground (arith, e), λ r l p. cc)
    | inr (true, e) ↦ inr ([], 1, 0, ground (arith, e), (e, refl, refl), λ r l p. (p.1, p.2))
    | inr (false, e) ↦ inl (ground (arith, e), λ r l p. cc)
  ]
  typed-Answers other_type value path = inl (refl, λ r l p. p)

  path-Answers :
      (o : Option HttpPathMatch) (path : Text)
      → Answers (PathAccepts o path) (match_path regexp_match o path)
  unfolding match_path path_match_type path_match_value
  path-Answers none path = inr (slash ∷ [], 2, 1, refl, (refl, refl), λ r l p. p)
  path-Answers (some p) path =
      let t : path_match_type p ≡ get_or p.match_type path_prefix = ground arith in
      let v : path_match_value p ≡ get_or p.value (slash ∷ []) = ground arith in
      let o = match_typed regexp_match (path_match_type p) (path_match_value p) path in
      subst (λ v'. Answers (TypeAccepts (get_or p.match_type path_prefix) v' path) o) v
        (subst (λ t'. Answers (TypeAccepts t' (path_match_value p) path) o) t
          (typed-Answers (path_match_type p) (path_match_value p) path))

  -- The result that the code makes of an accepted match.
  abbrev pub result :
      HttpRoute → HttpRouteRule → ℕ → ℕ → HttpRouteMatch → Text → ℕ → ℕ → MatchResult
  result route rule i j m prefix rank len = record {
    route = route;
    rule = rule;
    matched_prefix = prefix;
    matched_path_template = matched_template m.path prefix;
    path = record { match_type = rank; characters = len; rule_index = i; match_index = j };
    hostname = no_hostname;
  }

  pub result-cases :
      (route : HttpRoute) (rule : HttpRouteRule) (path : Text) (i j : ℕ) (m : HttpRouteMatch)
      → ((result_of_match regexp_match route rule path i j m ≡ none)
          × ((r l : ℕ) → Accepts m path r l → ⊥))
        ⊎ ((prefix : Text) × (rank len : ℕ) × (result_of_match regexp_match route rule path i j m
              ≡ some (result route rule i j m prefix rank len))
            × Accepts m path rank len
            × ((r l : ℕ) → Accepts m path r l → (r ≡ rank) × (l ≡ len)))
  unfolding result_of_match
  result-cases route rule path i j m = elim (Supported-cases m) [
    | inl (bad, unfit) ↦ inl (ground (arith, bad), λ r l a. unfit a.0)
    | inr (fine, yes') ↦ elim (path-Answers m.path path) [
      | inl (nothing, none') ↦ inl (ground (arith, fine, nothing), λ r l a. none' r l a.1)
      | inr (prefix, rank, len, found, accepted, only) ↦
          inr (
            prefix,
            rank,
            len,
            ground (arith, fine, found),
            (yes', accepted),
            λ r l a. only r l a.1,
          )
    ]
  ]
