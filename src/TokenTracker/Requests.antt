-- ===== src/TokenTracker/Requests.antt =====
-- The request counts over a run of the tracker: pkg/kthena-router/datastore/token_tracker.go
use kthena.Common.{
  ℕ, ◌≤◌, ◌≡◌, ◌≢◌, refl, sym, ap, ◌∙◌, Bool, true, false, Option, none, some, List, [], ◌∷◌, leb,
  if◌then◌else◌, arith, Text, text_eq,
}
use kthena.Common.Int.{ℤ, pos, ◌+ℤ◌, int_laws}
use kthena.Common.Dict.{lookup}
use mathlib.Core.Path.{subst}
use kthena.TokenTracker.{
  FloatOps, BucketNode, UserBucketData, Store, update_data, active_request_count, data_or_new, find,
  get_request_count,
}
use kthena.TokenTracker.Buckets.{Sorted, Skipped-mono, window}
use kthena.TokenTracker.Counts.{IsValid, active-window, update-IsValid}
use kthena.TokenTracker.Finds.{Update, step, run, is_for, tokens_of, find-step, not_empty}

module _ {F : Type 0} (ops : FloatOps F) (input_weight output_weight : F) where
  -- The clock does not run backwards, nor do the cutoffs.
  abbrev pub Ascending : ℕ → ℕ → List (Update F) → ℕ → Type 0
  Ascending last c0 [] cutoff = c0 ≤ cutoff
  Ascending last c0 (u ∷ us) cutoff =
      (last ≤ u.now) × (c0 ≤ u.cutoff) × Ascending u.now u.cutoff us cutoff

  -- The calls for the user and the model at or after the cutoff.
  unfoldable pub requests : Text → Text → ℕ → List (Update F) → ℤ
  requests user model cutoff [] = pos 0
  requests user model cutoff (u ∷ us) =
      (if (is_for ops input_weight output_weight) user model u
        then if leb cutoff u.now then pos 1 else pos 0
        else pos 0)
      +ℤ requests user model cutoff us

  -- The data of a user and a model, if there is any, is valid.
  abbrev IsValidIfAny : Option (UserBucketData F) → ℕ → ℕ → Type 0
  IsValidIfAny none last c0 = Unit
  IsValidIfAny (some d) last c0 = IsValid ops d last c0

  abbrev window_of : ℕ → Option (UserBucketData F) → ℤ
  window_of c none = pos 0
  window_of c (some d) = window c d.buckets

  Sorted-mono :
      (t last last' : ℕ) (bs : List (BucketNode F))
      → last ≤ last'
      → Sorted t bs last
      → Sorted t bs last'
  Sorted-mono t last last' [] h s = omega (arith, h, s)
  Sorted-mono t last last' (b ∷ bs) h s = (s.0, Sorted-mono b.timestamp last last' bs h s.1)

  abbrev hit : Bool → ℕ → ℕ → ℤ
  hit for c now = if for then if leb c now then pos 1 else pos 0 else pos 0

  -- The data after a call, which may be for another user or model, and its window.
  abbrev After : Update F → Bool → Option (UserBucketData F) → Option (UserBucketData F) → Type 0
  After u for o o' =
      IsValidIfAny o' u.now u.cutoff
      × ((c : ℕ) → u.cutoff ≤ c → window_of c o' ≡ window_of c o +ℤ hit for c u.now)

  plus_zero : (x : ℤ) → x ≡ x +ℤ pos 0
  plus_zero x = grind int_laws

  After-step :
      (u : Update F) (last c0 : ℕ) (o : Option (UserBucketData F)) (for : Bool)
      → last ≤ u.now
      → c0 ≤ u.cutoff
      → IsValidIfAny o last c0
      → After u for o (
          if for
          then some (
              update_data ops
                (data_or_new ops o)
                u.now
                u.cutoff
                ((tokens_of ops input_weight output_weight) u))
          else o)
  After-step u last c0 none true h k v =
      update-IsValid ops _ last c0 u.now u.cutoff ((tokens_of ops input_weight output_weight) u)
        (tt, omega arith, tt) k h
  After-step u last c0 (some d) true h k v =
      update-IsValid ops d last c0 u.now u.cutoff ((tokens_of ops input_weight output_weight) u) v k
        h
  After-step u last c0 none false h k v = (tt, λ c l. plus_zero (pos 0))
  After-step u last c0 (some d) false h k v = (
    (
      v.0,
      Sorted-mono 0 last u.now d.buckets h v.1,
      Skipped-mono ops c0 u.cutoff d.start d.buckets k v.2,
    ),
    λ c l. plus_zero (window c d.buckets),
  )

  cutoff-le :
      (last c0 : ℕ) (us : List (Update F)) (cutoff : ℕ) → Ascending last c0 us cutoff → c0 ≤ cutoff
  cutoff-le last c0 [] cutoff h = h
  cutoff-le last c0 (u ∷ us) cutoff h =
      let rest = cutoff-le u.now u.cutoff us cutoff h.2 in omega (arith, rest, h.1)

  abbrev Counted :
      Text
      → Text
      → ℕ
      → List (Update F)
      → Option (UserBucketData F)
      → Option (UserBucketData F)
      → Type 0
  Counted user model cutoff us o o' =
      ((last : ℕ) × (c0 : ℕ) × (c0 ≤ cutoff) × IsValidIfAny o' last c0)
      × (window_of cutoff o' ≡ window_of cutoff o +ℤ requests user model cutoff us)

  run-Counted :
      (s : Store F) (us : List (Update F)) (user model : Text) (last c0 cutoff : ℕ)
      → user ≢ []
      → model ≢ []
      → Ascending last c0 us cutoff
      → IsValidIfAny (find ops s user model) last c0
      → Counted user model cutoff us
          (find ops s user model)
          (find ops ((run ops input_weight output_weight) s us) user model)
  unfolding run requests
  run-Counted s [] user model last c0 cutoff n m a v =
      ((last, c0, a, v), plus_zero (window_of cutoff (find ops s user model)))
  run-Counted s (u ∷ us) user model last c0 cutoff n m a v =
      let o = find ops s user model in
      let after : After u ((is_for ops input_weight output_weight) user model u) o
          (find ops ((step ops input_weight output_weight) s u) user model) =
        subst (After u ((is_for ops input_weight output_weight) user model u) o)
          (sym ((find-step ops input_weight output_weight) s u user model n m))
          (After-step u last c0 o ((is_for ops input_weight output_weight) user model u) a.0 a.1
            v) in
      let (valid, count) =
        run-Counted ((step ops input_weight output_weight) s u) us user model u.now u.cutoff cutoff
          n m a.2 after.0 in
      (
        valid,
        count
            ∙ assoc _ _ (hit ((is_for ops input_weight output_weight) user model u) cutoff u.now)
                (requests user model cutoff us)
                (after.1 cutoff (cutoff-le u.now u.cutoff us cutoff a.2)),
      )
    where
      assoc : (w x y z : ℤ) → w ≡ x +ℤ y → w +ℤ z ≡ x +ℤ (y +ℤ z)
      assoc w x y z e = grind (int_laws, e)

  get-window :
      (s : Store F) (user model : Text) (last c0 cutoff : ℕ)
      → user ≢ []
      → model ≢ []
      → c0 ≤ cutoff
      → IsValidIfAny (find ops s user model) last c0
      → get_request_count ops s user model cutoff ≡ window_of cutoff (find ops s user model)
  unfolding get_request_count
  get-window s user model last c0 cutoff n m h v =
      rw
        (
          (not_empty ops input_weight output_weight) user n,
          (not_empty ops input_weight output_weight) model m,
        )
        (by_data (find ops s user model) v)
    where
      by_data :
          (o : Option (UserBucketData F))
          → IsValidIfAny o last c0
          → (elim o [ none ↦ pos 0 | some d ↦ active_request_count ops d cutoff ])
            ≡ window_of cutoff o
      by_data none v = refl
      by_data (some d) v = active-window ops d last c0 cutoff v h

  empty-find : (user model : Text) → find ops [] user model ≡ none
  unfolding lookup
  empty-find user model = refl

  -- After any calls of UpdateTokenCount on a new tracker, with times and cutoffs that do not
  -- decrease, the request count of a user and a model at a cutoff that is not before those of the
  -- calls is the number of calls for that user and model at or after the cutoff, whatever pruning,
  -- compaction and merging of buckets took place.
  pub request_count_lem :
      (us : List (Update F)) (user model : Text) (cutoff : ℕ)
      → user ≢ []
      → model ≢ []
      → Ascending 0 0 us cutoff
      → get_request_count ops ((run ops input_weight output_weight) [] us) user model cutoff
        ≡ requests user model cutoff us
  request_count_lem us user model cutoff n m a =
      let start : IsValidIfAny (find ops [] user model) 0 0 =
        subst (λ o. IsValidIfAny o 0 0) (sym (empty-find user model)) tt in
      let ((last, c0, h, v), count) = run-Counted [] us user model 0 0 cutoff n m a start in
      get-window ((run ops input_weight output_weight) [] us) user model last c0 cutoff n m h v
      ∙ count
      ∙ ap (λ o. window_of cutoff o +ℤ requests user model cutoff us) (empty-find user model)
      ∙ zero_plus (requests user model cutoff us)
    where
      zero_plus : (x : ℤ) → pos 0 +ℤ x ≡ x
      zero_plus x = grind int_laws
