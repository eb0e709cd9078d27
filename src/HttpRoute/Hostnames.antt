-- ===== src/HttpRoute/Hostnames.antt =====
-- The hostnames of an HTTPRoute: pkg/kthena-router/router/httproute_match.go
use kthena.Common.{
  ℕ, ◌+◌, Bool, false, not, ◌&&◌, ◌||◌, Option, none, some, List, [], ◌∷◌, ◌==◌, leb, nat_beq,
  if◌then◌else◌, Text, text_eq, has_prefix, length,
}
use kthena.Common.Int.{pos, ltb_ℤ}
use kthena.HttpRoute.{HostnamePrecedence, no_hostname, compare_hostname_precedence}

-- `strings.ToLower`
unfoldable pub to_lower : Text → Text
to_lower [] = []
to_lower (c ∷ s) = (if leb b'A' c && leb c b'Z' then c + 32 else c) ∷ to_lower s

is_space : ℕ → Bool
is_space c = nat_beq c 32 || (leb 9 c && leb c 13)

trim_left : Text → Text
unfolding is_space
trim_left [] = []
trim_left (c ∷ s) = let rest = trim_left s in if is_space c then rest else c ∷ s

trim_right : Text → Text
unfolding is_space
trim_right [] = []
trim_right (c ∷ s) = let rest = trim_right s in if is_space c && (rest == []) then [] else c ∷ rest

unfoldable pub trim_space : Text → Text
unfolding trim_left trim_right
trim_space s = trim_right (trim_left s)

-- `strings.TrimPrefix(s, p)` for a `p` of one byte.
unfoldable pub trim_prefix_byte : ℕ → Text → Text
trim_prefix_byte p [] = []
trim_prefix_byte p (c ∷ s) = if nat_beq c p then s else c ∷ s

-- `strings.TrimSuffix(s, p)` for a `p` of one byte.
unfoldable pub trim_suffix_byte : ℕ → Text → Text
trim_suffix_byte p [] = []
trim_suffix_byte p (c ∷ []) = if nat_beq c p then [] else c ∷ []
trim_suffix_byte p (c ∷ d ∷ s) = c ∷ trim_suffix_byte p (d ∷ s)

unfoldable pub contains_byte : ℕ → Text → Bool
contains_byte p [] = false
contains_byte p (c ∷ s) = nat_beq c p || contains_byte p s

-- The text before the last `p`: `s[:strings.LastIndex(s, p)]`, `none` for the index -1.
unfoldable pub before_last : ℕ → Text → Option Text
before_last p [] = none
before_last p (c ∷ s) = elim (before_last p s) [
  | some t ↦ some (c ∷ t)
  | none ↦ if nat_beq c p then some [] else none
]

-- The text before the suffix `t`: `strings.TrimSuffix`, where `strings.HasSuffix` is true.
unfoldable pub cut_suffix : Text → Text → Option Text
cut_suffix t [] = if t == [] then some [] else none
cut_suffix t (c ∷ s) =
    let rest = cut_suffix t s in
    if (c ∷ s) == t then some [] else elim rest [ none ↦ none | some r ↦ some (c ∷ r) ]

-- matchHTTPRouteHostnamePattern: `none` where the pattern does not match.
unfoldable pub match_hostname_pattern : Text → Text → Option HostnamePrecedence
match_hostname_pattern pattern host =
    let pattern = to_lower (trim_suffix_byte b'.' pattern) in
    let suffix = trim_prefix_byte b'*' pattern in
    if pattern == host
    then some (record { match_type = 2; characters = length pattern })
    else if not (has_prefix pattern (b'*' ∷ b'.' ∷ []))
    then none
    else elim (cut_suffix suffix host) [
      | none ↦ none
      | some prefix ↦
          if prefix == []
          then none
          else some (record { match_type = 1; characters = length suffix })
    ]

-- `host`, with its port cut off where there is no other colon.
cut_port : Text → Text
cut_port host = elim (before_last b':' host) [
  | none ↦ host
  | some front ↦ if not (contains_byte b':' front) then front else host
]

host_or : Option Text → Text → Text
host_or none host = host
host_or (some host_only) host = host_only

-- The host of `net.SplitHostPort`, or `none` for its error.
module _ (split_host_port : Text → Option Text) where
  unfoldable pub normalize_host : Text → Text
  unfolding cut_port host_or
  normalize_host host =
      let host = trim_space host in
      let host_only = host_or (split_host_port host) (cut_port host) in
      if host == []
      then []
      else to_lower
          (trim_suffix_byte b'.' (trim_suffix_byte b']' (trim_prefix_byte b'[' host_only)))

  -- One round of the loop.
  abbrev keep_hostname :
      Option HostnamePrecedence → Option HostnamePrecedence → Option HostnamePrecedence
  keep_hostname none best = best
  keep_hostname (some p) none = some p
  keep_hostname (some p) (some best) =
      if ltb_ℤ (compare_hostname_precedence p best) (pos 0) then some p else some best

  unfoldable pub best_hostname :
      List Text → Text → Option HostnamePrecedence → Option HostnamePrecedence
  best_hostname [] host best = best
  best_hostname (h ∷ hostnames) host best =
      best_hostname hostnames host (keep_hostname (match_hostname_pattern h host) best)

  -- matchHTTPRouteHostnamePrecedence
  unfoldable pub match_hostname_precedence : List Text → Text → Option HostnamePrecedence
  match_hostname_precedence [] request_host = some no_hostname
  match_hostname_precedence (h ∷ hostnames) request_host =
      let host = normalize_host request_host in
      if host == [] then none else best_hostname (h ∷ hostnames) host none
