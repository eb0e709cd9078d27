-- ===== src/TokenTracker/Finds.antt =====
-- The data of a user and a model over the calls of the tracker: pkg/kthena-router/datastore/token_tracker.go
use kthena.Common.{
  ℕ, ◌≡◌, ◌≢◌, refl, ap, ◌∙◌, Bool, true, false, ◌&&◌, ◌||◌, Option, none, some, List, [], ◌∷◌,
  ◌==◌, if◌then◌else◌, arith, Bool-cases, ◌⊎◌, inl, inr, Text, text_eq, text_beq, text_beq_iff,
}
use kthena.Common.Dict.{Dict, lookup, insert, lookup-insert}
use kthena.TokenTracker.{
  FloatOps, UserBucketData, Store, update_data, data_or_new, models_or_new, clamp_tokens,
  update_token_count, find,
}

-- A call of UpdateTokenCount, with its time and its cutoff.
pub record Update (F : Type 0) : Type 0 where
  pub user : Text
  pub model : Text
  pub input_tokens : F
  pub output_tokens : F
  pub now : ℕ
  pub cutoff : ℕ

module _ {F : Type 0} (ops : FloatOps F) (input_weight output_weight : F) where
  abbrev store_or : Option (Store F) → Store F → Store F
  store_or none s = s
  store_or (some t) s = t

  -- An error leaves the store as it was.
  unfoldable pub step : Store F → Update F → Store F
  step s u =
      store_or
        (update_token_count ops input_weight output_weight s u.user u.model u.input_tokens
          u.output_tokens u.now u.cutoff)
        s

  unfoldable pub run : Store F → List (Update F) → Store F
  unfolding step
  run s [] = s
  run s (u ∷ us) = run (step s u) us

  abbrev pub is_for : Text → Text → Update F → Bool
  is_for user model u = (u.user == user) && (u.model == model)

  abbrev pub tokens_of : Update F → F
  tokens_of u =
      ops.add (ops.mul (clamp_tokens ops u.input_tokens) input_weight)
        (ops.mul (clamp_tokens ops u.output_tokens) output_weight)

  -- The data of a user and a model put in place.
  abbrev put : Store F → Text → Text → UserBucketData F → Store F
  put s user model d = insert user (insert model d (models_or_new ops (lookup user s))) s

  lookup-models_or_new :
      (s : Store F) (user model : Text)
      → lookup model (models_or_new ops (lookup user s)) ≡ find ops s user model
  unfolding lookup
  lookup-models_or_new s user model = by_models (lookup user s)
    where
      by_models :
          (o : Option (Dict Text (UserBucketData F)))
          → lookup model (models_or_new ops o)
            ≡ (elim o [ none ↦ none | some models ↦ lookup model models ])
      by_models none = refl
      by_models (some models) = refl

  abbrev find_in : Option (Dict Text (UserBucketData F)) → Text → Option (UserBucketData F)
  find_in o model = elim o [ none ↦ none | some models ↦ lookup model models ]

  find-put :
      (s : Store F) (user' model' : Text) (d : UserBucketData F) (user model : Text)
      → find ops (put s user' model' d) user model
        ≡ (if (user' == user) && (model' == model) then some d else find ops s user model)
  find-put s user' model' d user model =
      let models = insert model' d (models_or_new ops (lookup user' s)) in
      ap (λ o. find_in o model) (lookup-insert user' user models s)
      ∙ elim (Bool-cases (user' == user)) [
        | inl same ↦
            let e : user' ≡ user = (text_beq_iff user' user).0 same in
            rw same (
              lookup-insert model' model d (models_or_new ops (lookup user' s))
              ∙ ap (λ o. if model' == model then some d else o)
                  (lookup-models_or_new s user' model ∙ ap (λ u. find ops s u model) e))
        | inr other ↦ rw other refl
      ]

  pub not_empty : (t : Text) → t ≢ [] → text_beq t [] ≡ false
  not_empty [] n = absurd (n refl)
  not_empty (c ∷ t) n = refl

  -- A call with an empty name is an error, and else it updates the data.
  step-cases :
      (s : Store F) (u : Update F)
      → ((((u.user == []) || (u.model == [])) ≡ true) × (step s u ≡ s))
        ⊎ ((step s u
            ≡ put s u.user u.model (
                update_data ops
                  (data_or_new ops (find ops s u.user u.model))
                  u.now
                  u.cutoff
                  (tokens_of u))))
  unfolding step update_token_count
  step-cases s u = elim (Bool-cases ((u.user == []) || (u.model == []))) [
    | inl empty ↦ inl (empty, rw empty refl)
    | inr named ↦ inr (
        rw named (
          ap
            (λ o.
              put s u.user u.model
                (update_data ops (data_or_new ops o) u.now u.cutoff (tokens_of u)))
            (lookup-models_or_new s u.user u.model)))
  ]

  pub find-step :
      (s : Store F) (u : Update F) (user model : Text)
      → user ≢ []
      → model ≢ []
      → find ops (step s u) user model ≡ (
          if is_for user model u
          then some (
              update_data ops
                (data_or_new ops (find ops s user model))
                u.now
                u.cutoff
                (tokens_of u))
          else find ops s user model)
  find-step s u user model n m = elim (step-cases s u) [
    | inl (empty, same) ↦
        let other : is_for user model u ≡ false = ground (
          arith,
          empty,
          text_beq_iff u.user [],
          text_beq_iff u.model [],
          text_beq_iff u.user user,
          text_beq_iff u.model model,
          n,
          m,
        ) in
        ap (λ t. find ops t user model) same ∙ rw other refl
    | inr put_eq ↦
        ap (λ t. find ops t user model) put_eq
        ∙ find-put s u.user u.model _ user model
        ∙ elim (Bool-cases (is_for user model u)) [
          | inl for ↦
              let eu : u.user ≡ user = ground (arith, for, text_beq_iff u.user user) in
              let em : u.model ≡ model = ground (arith, for, text_beq_iff u.model model) in
              rw for (
                ap (λ o. some (update_data ops (data_or_new ops o) u.now u.cutoff (tokens_of u)))
                  (ap (λ x. find ops s x u.model) eu ∙ ap (λ x. find ops s user x) em))
          | inr other ↦ rw other refl
        ]
  ]
