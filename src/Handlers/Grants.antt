-- ===== src/Handlers/Grants.antt =====
-- postgre-setup/go/internal/api/handlers/grants.go
use playground_ledger.Prelude.{ℕ, ◌||◌, not, Bool, Option, List, map, String, str_eq, ℤ, ltb}
use playground_ledger.Db.{CreditGrant, GrantStatus, Metadata}
use playground_ledger.Store.{Env, Error, GrantsError, of_grants}
use playground_ledger.Middleware.{Bytes}
use playground_ledger.Grants.{
  DrawdownResult, WaterfallResult, issue_grant, draw_down, waterfall_debit, expire_grants,
  get_available_balance, get_grants,
}
use playground_ledger.Handlers.{Handler, Request, or_fail, fail_when, answer, Printers, Parsers}
use playground_ledger.Handlers.Input.{page_limit, page_offset}

pub record IssueGrantBody : Type 0 where
  pub amount : Bytes
  pub grant_type : String
  pub expires_at : Bytes
  pub metadata : Metadata
  pub priority : ℤ

pub record DrawdownBody : Type 0 where
  pub amount : Bytes

pub record WaterfallBody : Type 0 where
  pub amount : Bytes
  pub description : String

pub record GrantResponse : Type 0 where
  pub id : Bytes
  pub account_id : Bytes
  pub grant_type : String
  pub initial_amount : Bytes
  pub remaining_amount : Bytes
  pub expires_at : Bytes
  pub status : GrantStatus
  pub created_at : Bytes
  pub priority : ℤ

-- The answer of Drawdown; the total is the amount that was asked for.
pub record DrawdownResponse : Type 0 where
  pub drawdowns : List DrawdownResult
  pub total_consumed : Bytes

-- The answer of GetBalance.
pub record GrantBalanceResponse : Type 0 where
  pub account_id : Bytes
  pub available_balance : Bytes

abbrev pub issue_errors : Error → ℕ × String
issue_errors (of_grants GrantsError.account_not_found) = (404, "account not found")
issue_errors (of_grants GrantsError.invalid_amount) = (400, "invalid amount")
issue_errors _ = (500, "failed to issue grant")

abbrev pub drawdown_errors : Error → ℕ × String
drawdown_errors (of_grants GrantsError.insufficient_grants) = (400, "insufficient grant balance")
drawdown_errors (of_grants GrantsError.invalid_amount) = (400, "invalid amount")
drawdown_errors _ = (500, "failed to process drawdown")

abbrev pub waterfall_errors : Error → ℕ × String
waterfall_errors (of_grants GrantsError.account_not_found) = (404, "account not found")
waterfall_errors (of_grants GrantsError.invalid_amount) = (400, "invalid amount")
waterfall_errors (of_grants GrantsError.insufficient_funds) = (400, "insufficient funds")
waterfall_errors _ = (500, "failed to process payment")

abbrev failed : String → Error → ℕ × String
failed message e = (500, message)

unfoldable pub valid_type : String → Bool
valid_type t = str_eq t "SIGNUP_BONUS" || str_eq t "PROMOTION" || str_eq t "MANUAL"

module _ (print : Printers) where
  unfoldable pub grant_to_response : CreditGrant → GrantResponse
  grant_to_response g = record {
    id = print.uuid_text g.id;
    account_id = print.uuid_text g.account_id;
    grant_type = g.grant_type;
    initial_amount = print.decimal_text g.initial_amount;
    remaining_amount = print.decimal_text g.remaining_amount;
    expires_at = print.time_text g.expires_at;
    status = g.status;
    created_at = print.time_text g.created_at;
    priority = g.priority;
  }

-- `now` is the clock of the program, by the number of statements sent so far.
module _ (env : Env) (now : ℕ → ℕ) (parse : Parsers) (print : Printers) where
  -- From `expiresAt.Before(time.Now())` to the answer.
  unfoldable pub issue_until : Request → ℕ → IssueGrantBody → ℤ → ℕ → Handler GrantResponse
  issue_until r account_id req amount expires_at w =
      fail_when (ltb expires_at (now w.tick)) 400 "expires_at must be in the future"
        (or_fail r.idempotency_key 400 "missing idempotency key" λ key.
          answer 201 issue_errors (grant_to_response print) (
            issue_grant env (record {
              account_id = account_id;
              amount = amount;
              grant_type = req.grant_type;
              expires_at = expires_at;
              idempotency_key = key;
              metadata = req.metadata;
              priority = req.priority;
            })))
        w

  unfoldable pub issue_grant_handler :
      (Bytes → Option IssueGrantBody) → Request → Handler GrantResponse
  issue_grant_handler decode_issue r =
      or_fail (parse.parse_uuid r.account_id) 400 "invalid account_id" λ account_id.
        or_fail (decode_issue r.body) 400 "invalid request body" λ req.
          or_fail (parse.parse_decimal req.amount) 400 "invalid amount" λ amount.
            fail_when (not (valid_type req.grant_type)) 400
              "invalid grant_type: must be SIGNUP_BONUS, PROMOTION, or MANUAL"
              (or_fail (parse.parse_time req.expires_at) 400
                "invalid expires_at: must be RFC3339 format"
                λ expires_at. issue_until r account_id req amount expires_at)

module _ (env : Env) (parse : Parsers) (print : Printers) where
  unfoldable pub drawdown_handler :
      (Bytes → Option DrawdownBody) → Request → Handler DrawdownResponse
  drawdown_handler decode_drawdown r =
      or_fail (parse.parse_uuid r.account_id) 400 "invalid account_id" λ account_id.
        or_fail (decode_drawdown r.body) 400 "invalid request body" λ req.
          or_fail (parse.parse_decimal req.amount) 400 "invalid amount" λ amount.
            or_fail r.idempotency_key 400 "missing idempotency key" λ key.
              answer 200 drawdown_errors
                (λ results. record {
                  drawdowns = results;
                  total_consumed = print.decimal_text amount;
                })
                (draw_down env account_id amount key)

  unfoldable pub list_grants : Request → Handler (List GrantResponse)
  list_grants r = or_fail (parse.parse_uuid r.account_id) 400 "invalid account_id" λ account_id.
      answer 200 (failed "failed to get grants") (map (grant_to_response print))
        (get_grants env account_id (page_limit 50 100 r.limit) (page_offset r.offset))

  unfoldable pub get_grant_balance_handler : Request → Handler GrantBalanceResponse
  get_grant_balance_handler r =
      or_fail (parse.parse_uuid r.account_id) 400 "invalid account_id" λ account_id.
        answer 200 (failed "failed to get grant balance")
          (λ balance. record {
            account_id = print.uuid_text account_id;
            available_balance = print.decimal_text balance;
          })
          (get_available_balance env account_id)

  unfoldable pub waterfall_handler :
      (Bytes → Option WaterfallBody) → Request → Handler WaterfallResult
  waterfall_handler decode_waterfall r =
      or_fail (parse.parse_uuid r.account_id) 400 "invalid account_id" λ account_id.
        or_fail (decode_waterfall r.body) 400 "invalid request body" λ req.
          or_fail (parse.parse_decimal req.amount) 400 "invalid amount" λ amount.
            or_fail r.idempotency_key 400 "missing idempotency key" λ key.
              answer 200 waterfall_errors (λ (x : WaterfallResult). x)
                (waterfall_debit env account_id amount key req.description)

unfoldable pub expire_grants_handler : Env → Handler ℕ
expire_grants_handler env =
    answer 200 (failed "failed to expire grants") (λ count. count) (expire_grants env)
