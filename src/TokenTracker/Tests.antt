-- ===== src/TokenTracker/Tests.antt =====
-- Concrete runs of the tracker: pkg/kthena-router/datastore/token_tracker.go
use kthena.Common.{ℕ, ◌≡◌, ◌≢◌, List, [], ◌∷◌, Text, codes, arith, false, ◌+◌, ◌-◌, ◌*◌}
use kthena.TokenTracker.{FloatOps, get_request_count}
use kthena.TokenTracker.Finds.{Update, run}
use kthena.TokenTracker.Requests.{requests, request_count_lem}

-- Numbers in the place of the floating point values.
abbrev number_ops : FloatOps ℕ
number_ops = record {
  zero_f = 0;
  add = λ a b. a + b;
  sub = λ a b. a - b;
  mul = λ a b. a * b;
  is_negative = λ a. false;
}

abbrev user : Text
user = codes "u"

abbrev model : Text
model = codes "m"

abbrev call : Text → ℕ → Update ℕ
call name now = record {
  user = name;
  model = model;
  input_tokens = 3;
  output_tokens = 4;
  now = now;
  cutoff = now - 10;
}

abbrev calls : List (Update ℕ)
calls = call user 10 ∷ call user 10 ∷ call model 11 ∷ call user 15 ∷ call user 23 ∷ []

user-named : user ≢ []
user-named e = cc e

model-named : model ≢ []
model-named e = cc e

request_count_lem_example :
    get_request_count number_ops (run number_ops 1 2 [] calls) user model 14
    ≡ requests number_ops 1 2 user model 14 calls
request_count_lem_example =
    request_count_lem number_ops 1 2 calls user model 14 user-named model-named (
      omega arith,
      omega arith,
      (
        omega arith,
        omega arith,
        (
          omega arith,
          omega arith,
          (omega arith, omega arith, (omega arith, omega arith, omega arith)),
        ),
      ),
    )
