-- ===== src/Handlers/Wallet.antt =====
-- postgre-setup/go/internal/api/handlers/wallet.go, all but the batch handler.
use playground_ledger.Prelude.{ℕ, Bool, Option, none, some, List, map, String}
use playground_ledger.Db.{User, Account, Transaction, TransactionType, TransactionStatus}
use playground_ledger.Store.{Env, World, Error, LedgerError, of_ledger}
use playground_ledger.Middleware.{Bytes}
use playground_ledger.Queries.Accounts.{GetAllAccountsRow}
use playground_ledger.Wallet.{
  get_or_create_user, list_accounts, list_all_accounts, wallet_deposit, wallet_withdraw,
  wallet_transfer,
}
use playground_ledger.Ledger.{get_balance, get_account_transactions}
use playground_ledger.Handlers.{
  Reply, failure, success, Handler, Request, or_fail, answer, Printers, Parsers,
}
use playground_ledger.Handlers.Input.{page_limit, page_offset}

pub record DepositBody : Type 0 where
  pub amount : Bytes
  pub currency : Bytes

pub record WithdrawBody : Type 0 where
  pub amount : Bytes

pub record TransferBody : Type 0 where
  pub to_account_id : Bytes
  pub amount : Bytes

pub record AccountResponse : Type 0 where
  pub id : Bytes
  pub user_id : Bytes
  pub currency : String
  pub balance : Bytes
  pub created_at : Bytes

pub record TransactionResponse : Type 0 where
  pub id : Bytes
  pub transaction_type : TransactionType
  pub status : TransactionStatus
  pub source_account_id : Option Bytes
  pub destination_account_id : Option Bytes
  pub amount : Bytes
  pub currency : String
  pub created_at : Bytes

pub record UserAccountResponse : Type 0 where
  pub id : Bytes
  pub user_id : String
  pub currency : String
  pub balance : Bytes

-- The answer of GetAccount.
pub record BalanceResponse : Type 0 where
  pub account_id : Bytes
  pub balance : Bytes

-- Each handler compares the error of the service with those it knows.
abbrev pub balance_errors : Error → ℕ × String
balance_errors (of_ledger LedgerError.account_not_found) = (404, "account not found")
balance_errors _ = (500, "failed to get balance")

abbrev pub deposit_errors : Error → ℕ × String
deposit_errors (of_ledger LedgerError.account_not_found) = (404, "account not found")
deposit_errors (of_ledger LedgerError.invalid_amount) = (400, "invalid amount")
deposit_errors (of_ledger LedgerError.contention) = (409, "contention")
deposit_errors _ = (500, "failed to process deposit")

abbrev pub withdraw_errors : Error → ℕ × String
withdraw_errors (of_ledger LedgerError.account_not_found) = (404, "account not found")
withdraw_errors (of_ledger LedgerError.insufficient_funds) = (400, "insufficient funds")
withdraw_errors (of_ledger LedgerError.invalid_amount) = (400, "invalid amount")
withdraw_errors (of_ledger LedgerError.contention) = (409, "contention")
withdraw_errors _ = (500, "failed to process withdrawal")

abbrev pub transfer_errors : Error → ℕ × String
transfer_errors (of_ledger LedgerError.account_not_found) = (404, "account not found")
transfer_errors (of_ledger LedgerError.insufficient_funds) = (400, "insufficient funds")
transfer_errors (of_ledger LedgerError.same_account) = (400, "cannot transfer to same account")
transfer_errors (of_ledger LedgerError.currency_mismatch) = (400, "currency mismatch")
transfer_errors _ = (500, "failed to process transfer")

-- `writeError(w, http.StatusInternalServerError, …)`, whatever the error.
abbrev pub internal : String → Error → ℕ × String
internal message e = (500, message)

module _ (print : Printers) where
  abbrev option_text : Option ℕ → Option Bytes
  option_text none = none
  option_text (some id) = some (print.uuid_text id)

  unfoldable pub transaction_to_response : Transaction → TransactionResponse
  transaction_to_response txn = record {
    id = print.uuid_text txn.id;
    transaction_type = txn.transaction_type;
    status = txn.status;
    source_account_id = option_text txn.source_account_id;
    destination_account_id = option_text txn.destination_account_id;
    amount = print.decimal_text txn.amount;
    currency = txn.currency;
    created_at = print.time_text txn.created_at;
  }

  abbrev pub account_response : Account → AccountResponse
  account_response acc = record {
    id = print.uuid_text acc.id;
    user_id = print.uuid_text acc.user_id;
    currency = acc.currency;
    balance = print.decimal_text acc.balance;
    created_at = print.time_text acc.created_at;
  }

  abbrev pub user_account_response : GetAllAccountsRow → UserAccountResponse
  user_account_response row = record {
    id = print.uuid_text row.account.id;
    user_id = row.user_external_id;
    currency = row.account.currency;
    balance = print.decimal_text row.account.balance;
  }

-- GetOrCreateUser and then GetAccountsByUser, each with its own message.
module _ (env : Env) (signup_key : String → ℕ) (collate : String → String → Bool)
    (print : Printers) where
  abbrev accounts_of : User → Handler (List AccountResponse)
  accounts_of user =
      answer 200 (internal "failed to get accounts") (map (account_response print))
        (list_accounts env collate user.id)

  abbrev go_on : {A B : Type 0} → (A → Handler B) → Reply A × World → Reply B × World
  go_on k (failure s m, w) = (failure s m, w)
  go_on k (success s a, w) = k a w

  unfoldable pub get_accounts : String → String → Handler (List AccountResponse)
  get_accounts user_id email w = go_on accounts_of (
      answer 200 (internal "failed to get user") (λ (u : User). u)
        (get_or_create_user env signup_key user_id email) w)

-- `decode_…` is the JSON decoder of encoding/json at the type of a body.
module _ (env : Env) (parse : Parsers) (print : Printers) where
  unfoldable pub get_account : Request → Handler BalanceResponse
  get_account r = or_fail (parse.parse_uuid r.account_id) 400 "invalid account_id" λ account_id.
      answer 200 balance_errors
        (λ balance. record {
          account_id = print.uuid_text account_id;
          balance = print.decimal_text balance;
        })
        (get_balance env account_id)

  unfoldable pub deposit_handler :
      (Bytes → Option DepositBody) → Request → Handler TransactionResponse
  deposit_handler decode_deposit r =
      or_fail (parse.parse_uuid r.account_id) 400 "invalid account_id" λ account_id.
        or_fail (decode_deposit r.body) 400 "invalid request body" λ req.
          or_fail (parse.parse_decimal req.amount) 400 "invalid amount" λ amount.
            or_fail r.idempotency_key 400 "missing idempotency key" λ key.
              answer 200 deposit_errors (transaction_to_response print)
                (wallet_deposit env account_id amount key "Deposit")

  unfoldable pub withdraw_handler :
      (Bytes → Option WithdrawBody) → Request → Handler TransactionResponse
  withdraw_handler decode_withdraw r =
      or_fail (parse.parse_uuid r.account_id) 400 "invalid account_id" λ account_id.
        or_fail (decode_withdraw r.body) 400 "invalid request body" λ req.
          or_fail (parse.parse_decimal req.amount) 400 "invalid amount" λ amount.
            or_fail r.idempotency_key 400 "missing idempotency key" λ key.
              answer 200 withdraw_errors (transaction_to_response print)
                (wallet_withdraw env account_id amount key "Withdrawal")

  unfoldable pub transfer_handler :
      (Bytes → Option TransferBody) → Request → Handler TransactionResponse
  transfer_handler decode_transfer r =
      or_fail (parse.parse_uuid r.account_id) 400 "invalid account_id" λ from_account_id.
        or_fail (decode_transfer r.body) 400 "invalid request body" λ req.
          or_fail (parse.parse_uuid req.to_account_id) 400 "invalid to_account_id" λ to_account_id.
            or_fail (parse.parse_decimal req.amount) 400 "invalid amount" λ amount.
              or_fail r.idempotency_key 400 "missing idempotency key" λ key.
                answer 200 transfer_errors (transaction_to_response print)
                  (wallet_transfer env from_account_id to_account_id amount key "Transfer")

  unfoldable pub get_transactions : Request → Handler (List TransactionResponse)
  get_transactions r =
      or_fail (parse.parse_uuid r.account_id) 400 "invalid account_id" λ account_id.
        answer 200 (internal "failed to get transactions") (map (transaction_to_response print)) (
          get_account_transactions env account_id (page_limit 50 100 r.limit)
            (page_offset r.offset))

  unfoldable pub get_all_users : Request → Handler (List UserAccountResponse)
  get_all_users r =
      answer 200 (internal "failed to get users") (map (user_account_response print))
        (list_all_accounts env (page_limit 1000 10000 r.limit) (page_offset r.offset))
