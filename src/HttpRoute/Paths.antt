-- ===== src/HttpRoute/Paths.antt =====
-- Prefixes of paths are matched by segments: pkg/kthena-router/router/httproute_match.go
use kthena.Common.{
  ℕ, ◌≡◌, ◌≢◌, ◌↔◌, inl, inr, refl, sym, ap, ◌∙◌, Bool, true, false, ◌&&◌, ◌||◌, List, [], ◌∷◌,
  ◌++◌, ◌==◌, nat_beq, if◌then◌else◌, Text, text_eq, text_beq, has_prefix, has_prefix-append,
  has_prefix_rest, arith, Bool-cases,
}
use mathlib.Core.Path.{subst}
use kthena.HttpRoute.{slash, trim_right_slash, match_path_prefix}

-- The first segment of a path, and the others.
abbrev pub add_byte : ℕ → Text × List Text → Text × List Text
add_byte c (h, t) = if nat_beq c slash then ([], h ∷ t) else (c ∷ h, t)

abbrev pub segments : Text → Text × List Text
segments [] = ([], [])
segments (c ∷ s) = add_byte c (segments s)

abbrev pub starts_with : List Text → List Text → Bool
starts_with xs [] = true
starts_with [] (y ∷ ys) = false
starts_with (x ∷ xs) (y ∷ ys) = (x == y) && starts_with xs ys

-- The segments of `p` are the first segments of `s`.
abbrev pub under : Text × List Text → Text × List Text → Bool
under (h, t) (h', t') = (h == h') && starts_with t t'

under-add_byte : (c : ℕ) (s p : Text × List Text) → under (add_byte c s) (add_byte c p) ≡ under s p
under-add_byte c (h, t) (h', t') = ground arith

under-nil : (s : Text) → under (segments s) ([], []) ≡ (text_beq s [] || has_prefix s (slash ∷ []))
unfolding has_prefix
under-nil [] = refl
under-nil (c ∷ s) = ground arith

under-empty : (d : ℕ) (p : Text × List Text) → under ([], []) (add_byte d p) ≡ false
under-empty d (h, t) = ground arith

under-add_byte_other :
    (c d : ℕ) (s p : Text × List Text)
    → nat_beq c d ≡ false
    → under (add_byte c s) (add_byte d p) ≡ false
under-add_byte_other c d (h, t) (h', t') ne = ground arith

-- A path is a prefix, or goes on after it with a slash, exactly when its first segments are those
-- of the prefix.
under-segments :
    (s p : Text) → ((s == p) || has_prefix s (p ++ (slash ∷ []))) ≡ under (segments s) (segments p)
unfolding has_prefix
under-segments s [] = sym (under-nil s)
under-segments [] (d ∷ p) = sym (under-empty d (segments p))
under-segments (c ∷ s) (d ∷ p) = elim (Bool-cases (nat_beq c d)) [
  | inl same ↦
      let c_d : c ≡ d = ground arith in
      let e : under (add_byte c (segments s)) (add_byte d (segments p))
          ≡ under (segments s) (segments p) =
        subst
          (λ x.
            under (add_byte c (segments s)) (add_byte x (segments p))
            ≡ under (segments s) (segments p))
          c_d (under-add_byte c (segments s) (segments p)) in
      let below = under-segments s p in ground (arith, e, below)
  | inr other ↦
      let e = under-add_byte_other c d (segments s) (segments p) other in ground (arith, e)
]

-- A path prefix is matched by segments: with the slashes at its end cut off, the request's path is
-- matched exactly when its first segments are the segments of the prefix. A prefix of slashes
-- only, or an empty one, matches exactly the paths that start with a slash, and stands for "/".
pub match_path_prefix_lem :
    (path prefix : Text)
    → (trim_right_slash prefix ≢ []
        → (match_path_prefix path prefix).0
          ≡ under (segments path) (segments (trim_right_slash prefix)))
      × (trim_right_slash prefix ≡ []
          → ((match_path_prefix path prefix).0 ≡ true) ↔ ((rest : Text) × (path ≡ slash ∷ rest)))
unfolding match_path_prefix
match_path_prefix_lem path prefix = (
  λ ne. ground (arith, under-segments path (trim_right_slash prefix)),
  λ e.
      let eq : (match_path_prefix path prefix).0 ≡ has_prefix path (slash ∷ []) = rw e refl in
      (
        λ h. has_prefix_rest path (slash ∷ []) (sym eq ∙ h),
        λ (rest, p).
            eq ∙ ap (λ q. has_prefix q (slash ∷ [])) p ∙ has_prefix-append rest (slash ∷ []),
      ),
)
