-- ===== src/Client.antt =====
-- postgre-setup/go/cmd/stress: the client of the API that sends deposits, withdrawals and grants and
-- counts what becomes of them. The HTTP connection is a parameter: what it answers.
pub mod Replies
pub mod Reporter
pub mod Seeding
pub mod Pages
pub mod Rates
pub mod Decimals
pub mod Verify
pub mod Server
use playground_ledger.Prelude.{
  ℕ, ◌==◌, ◌||◌, Bool, true, false, Option, none, some, String, str_eq, if◌then◌else◌,
}
use text.Mathlib.Text.{find?}

-- What `http.Client.Do` returns: an error, or a status and the field `error` of the body.
pub data Answer : Type 0 where
  lost : Answer
  replied : ℕ → String → Answer

-- The fields of StressResult but the latency and the message.
pub record StressResult : Type 0 where
  pub success : Bool
  pub error_type : String

abbrev is_found : Option ℕ → Bool
is_found none = false
is_found (some n) = true

-- strings.Contains
abbrev pub contains : String → String → Bool
contains s part = is_found (find? s part)

unfoldable pub classify_error : ℕ → String → String
classify_error status msg =
    if contains msg "insufficient grant"
    then "insufficient_grants"
    else if contains msg "insufficient funds"
    then "insufficient_funds"
    else if status == 409
    then "contention"
    else if (status == 408) || (status == 504)
    then "timeout"
    else "other"

unfoldable pub classify_batch_error : String → String
classify_batch_error msg =
    if contains msg "insufficient grant"
    then "insufficient_grants"
    else if contains msg "insufficient funds"
    then "insufficient_funds"
    else if contains msg "contention" || contains msg "deadlock" || contains msg "lock timeout"
    then "contention"
    else "other"

-- From the answer to the result: every status but 200 is a failure.
unfoldable pub do_txn : Answer → StressResult
unfolding classify_error
do_txn lost = record { success = false; error_type = "timeout" }
do_txn (replied status msg) =
    if status == 200
    then record { success = true; error_type = "" }
    else record { success = false; error_type = classify_error status msg }
