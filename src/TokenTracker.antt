-- ===== src/TokenTracker.antt =====
-- pkg/kthena-router/datastore/token_tracker.go: the sliding window of each user's tokens and
-- requests. Token counts are `float64` values, whose arithmetic is a parameter. The methods hold
-- the tracker's mutex; times are Unix seconds, and the time and the cutoff of a call are its
-- arguments.
pub mod Tests
pub mod Buckets
pub mod Recording
pub mod Counts
pub mod Finds
pub mod Requests
use kthena.Common.{
  ℕ, zero, suc, ◌+◌, ◌/◌, Bool, true, false, not, ◌&&◌, ◌||◌, Option, none, some, List, [], ◌∷◌,
  ◌==◌, ltb, leb, nat_beq, if◌then◌else◌, Text, text_eq, length, map,
}
use kthena.Common.Int.{ℤ, pos, ◌+ℤ◌, ◌-ℤ◌}
use kthena.Common.Dict.{Dict, lookup, insert}

-- The operations of `float64` that the tracker uses.
pub record FloatOps (F : Type 0) : Type 0 where
  pub zero_f : F
  pub add : F → F → F
  pub sub : F → F → F
  pub mul : F → F → F
  pub is_negative : F → Bool

pub record BucketNode (F : Type 0) : Type 0 where
  pub timestamp : ℕ
  pub tokens : F
  pub cum_sum : F
  pub req_count : ℤ
  pub req_cum_sum : ℤ

pub record UserBucketData (F : Type 0) : Type 0 where
  pub buckets : List (BucketNode F)
  pub start : ℕ

abbrev pub Store : Type 0 → Type 0
Store F = Dict Text (Dict Text (UserBucketData F))

abbrev pub drop {ℓ} : {A : Type ℓ} → ℕ → List A → List A
drop zero xs = xs
drop (suc k) [] = []
drop (suc k) (x ∷ xs) = drop k xs

module _ {F : Type 0} (ops : FloatOps F) where
  -- The rounds of the scan: how many buckets from here on are before the cutoff.
  unfoldable pub count_expired : ℕ → List (BucketNode F) → ℕ
  count_expired cutoff [] = 0
  count_expired cutoff (b ∷ bs) =
      let rest = count_expired cutoff bs in if ltb b.timestamp cutoff then suc rest else 0

  -- `buckets[k-1].reqCumSum`, or what came before where k is 0.
  unfoldable pub req_before : ℤ → ℕ → List (BucketNode F) → ℤ
  req_before prev zero bs = prev
  req_before prev (suc k) [] = prev
  req_before prev (suc k) (b ∷ bs) = req_before b.req_cum_sum k bs

  unfoldable pub tokens_before : F → ℕ → List (BucketNode F) → F
  tokens_before prev zero bs = prev
  tokens_before prev (suc k) [] = prev
  tokens_before prev (suc k) (b ∷ bs) = tokens_before b.cum_sum k bs

  -- The buckets that compaction keeps, less the sums before them.
  unfoldable pub rebase : F → ℤ → List (BucketNode F) → List (BucketNode F)
  rebase token_base request_base [] = []
  rebase token_base request_base (b ∷ bs) =
      record b {
        cum_sum = ops.sub b.cum_sum token_base;
        req_cum_sum = b.req_cum_sum -ℤ request_base;
      }
      ∷ rebase token_base request_base bs

  -- pruneExpiredBuckets, on the data of a user and a model
  unfoldable pub prune : UserBucketData F → ℕ → UserBucketData F
  prune d cutoff =
      let new_start = d.start + count_expired cutoff (drop d.start d.buckets) in
      if leb (length d.buckets) d.start
      then d
      else if ltb 0 new_start && leb (length d.buckets / 2) new_start
      then record {
        buckets =
            rebase (tokens_before ops.zero_f new_start d.buckets)
              (req_before (pos 0) new_start d.buckets) (drop new_start d.buckets);
        start = 0;
      }
      else record d { start = new_start }

  -- getActiveRequestCount. The last cumulative sum is the one before the end.
  unfoldable pub active_request_count : UserBucketData F → ℕ → ℤ
  active_request_count d cutoff =
      let start_idx = d.start + count_expired cutoff (drop d.start d.buckets) in
      let total = req_before (pos 0) (length d.buckets) d.buckets in
      if leb (length d.buckets) d.start
      then pos 0
      else if leb (length d.buckets) start_idx
      then pos 0
      else if ltb 0 start_idx
      then total -ℤ req_before (pos 0) start_idx d.buckets
      else total

  -- getActiveTotal
  unfoldable pub active_total : UserBucketData F → ℕ → F
  active_total d cutoff =
      let start_idx = d.start + count_expired cutoff (drop d.start d.buckets) in
      let total = tokens_before ops.zero_f (length d.buckets) d.buckets in
      if leb (length d.buckets) d.start
      then ops.zero_f
      else if leb (length d.buckets) start_idx
      then ops.zero_f
      else if ltb 0 start_idx
      then ops.sub total (tokens_before ops.zero_f start_idx d.buckets)
      else total

  -- The last bucket is updated, or a new one is appended after it.
  unfoldable pub record_request : ℕ → F → List (BucketNode F) → List (BucketNode F)
  record_request now new_tokens [] =
      record {
        timestamp = now;
        tokens = new_tokens;
        cum_sum = new_tokens;
        req_count = pos 1;
        req_cum_sum = pos 1;
      }
      ∷ []
  record_request now new_tokens (b ∷ []) =
      if nat_beq b.timestamp now
      then record b {
        tokens = ops.add b.tokens new_tokens;
        cum_sum = ops.add b.cum_sum new_tokens;
        req_count = b.req_count +ℤ pos 1;
        req_cum_sum = b.req_cum_sum +ℤ pos 1;
      }
        ∷ []
      else b
        ∷ (record {
          timestamp = now;
          tokens = new_tokens;
          cum_sum = ops.add new_tokens b.cum_sum;
          req_count = pos 1;
          req_cum_sum = pos 1 +ℤ b.req_cum_sum;
        })
        ∷ []
  record_request now new_tokens (b ∷ c ∷ bs) = b ∷ record_request now new_tokens (c ∷ bs)

  unfoldable pub update_data : UserBucketData F → ℕ → ℕ → F → UserBucketData F
  update_data d now cutoff new_tokens =
      let d' = prune d cutoff in record d' { buckets = record_request now new_tokens d'.buckets }

  abbrev pub data_or_new : Option (UserBucketData F) → UserBucketData F
  data_or_new none = record { buckets = []; start = 0 }
  data_or_new (some d) = d

  abbrev pub models_or_new : Option (Dict Text (UserBucketData F)) → Dict Text (UserBucketData F)
  models_or_new none = []
  models_or_new (some m) = m

  -- Negative counts are taken as zero; the tokens are weighted.
  unfoldable pub clamp_tokens : F → F
  clamp_tokens x = if ops.is_negative x then ops.zero_f else x

  -- UpdateTokenCount, with the weights of the tracker: `none` is its error.
  unfoldable pub update_token_count :
      F → F → Store F → Text → Text → F → F → ℕ → ℕ → Option (Store F)
  unfolding clamp_tokens
  update_token_count input_weight output_weight store user model input output now cutoff =
      let models = models_or_new (lookup user store) in
      let new_tokens =
        ops.add (ops.mul (clamp_tokens input) input_weight)
          (ops.mul (clamp_tokens output) output_weight) in
      if (user == []) || (model == [])
      then none
      else some (
          insert user
            (insert model (update_data (data_or_new (lookup model models)) now cutoff new_tokens)
              models)
            store)

  abbrev pub find : Store F → Text → Text → Option (UserBucketData F)
  find store user model = elim (lookup user store) [
    | none ↦ none
    | some models ↦ lookup model models
  ]

  -- GetRequestCount
  unfoldable pub get_request_count : Store F → Text → Text → ℕ → ℤ
  get_request_count store user model cutoff =
      if (user == []) || (model == [])
      then pos 0
      else elim (find store user model) [ none ↦ pos 0 | some d ↦ active_request_count d cutoff ]

  -- GetTokenCount
  unfoldable pub get_token_count : Store F → Text → Text → ℕ → F
  get_token_count store user model cutoff =
      if (user == []) || (model == [])
      then ops.zero_f
      else elim (find store user model) [ none ↦ ops.zero_f | some d ↦ active_total d cutoff ]
