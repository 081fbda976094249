-- ===== src/Wallet.antt =====
-- postgre-setup/go/internal/wallet/service.go: users with their first account, and what the wallet
-- passes on to the ledger.
pub mod Opening
pub mod Drift
pub mod Signup
pub mod Registered
use playground_ledger.Prelude.{ℕ, ◌*◌, ◌^◌, Bool, Option, none, some, List, [], String, ℤ, pos}
use playground_ledger.Db.{
  User, Account, Transaction, LedgerEntry, TransactionType, completed, credit,
}
use playground_ledger.Store.{
  Env, World, Tx, Result, ok, err, ◌>>=◌, ◌>>◌, bind_of, pure, optional, exec, commit, with_tx,
  auto,
}
use playground_ledger.Queries.Users.{create_user, get_user_by_external_id}
use playground_ledger.Queries.Accounts.{
  create_account, credit_account, get_or_create_account, get_accounts_by_user, GetAllAccountsRow,
  get_all_accounts,
}
use playground_ledger.Queries.Transactions.{CreateTransactionParams, create_transaction}
use playground_ledger.Queries.Entries.{CreateLedgerEntryParams, create_ledger_entry}
use playground_ledger.Ledger.{
  TransferRequest, MoneyRequest, deposit, withdraw, transfer, get_balance, get_account_transactions,
  get_ledger_entries,
}

-- 100 units of twelve decimal places, as the columns have.
abbrev pub signup_bonus_amount : ℤ
signup_bonus_amount = pos (100 * 10 ^ 12)

abbrev pub bonus_params : ℕ → ℕ → CreateTransactionParams
bonus_params account_id key = record {
  transaction_type = TransactionType.deposit;
  status = completed;
  source_account_id = none;
  destination_account_id = some account_id;
  amount = signup_bonus_amount;
  currency = "USD";
  fee_amount = none;
  fee_account_id = none;
  idempotency_key = key;
  metadata = [];
}

abbrev pub bonus_entry : ℕ → ℕ → ℕ → CreateLedgerEntryParams
bonus_entry account_id txn_id key = record {
  account_id = account_id;
  entry_type = credit;
  amount = signup_bonus_amount;
  balance_after = signup_bonus_amount;
  transaction_id = some txn_id;
  description = some "Welcome bonus - $100 signup credit";
  metadata = [];
  idempotency_key = some key;
}

abbrev pub money_request : ℕ → ℤ → ℕ → String → MoneyRequest
money_request account_id amount key description = record {
  account_id = account_id;
  amount = amount;
  description = description;
  idempotency_key = key;
  metadata = [];
}

-- `signup_key` is the SHA-1 UUID of "signup_bonus_" and the external identifier.
module _ (env : Env) (signup_key : String → ℕ) where
  -- The default account with its bonus, its transaction and its entry, and the commit.
  unfoldable pub open_default_account : String → User → Tx User
  open_default_account external_id user = do
    account ← exec env (create_account user.id "USD")
    exec env (credit_account account.id signup_bonus_amount)
    txn ← exec env (create_transaction (bonus_params account.id (signup_key external_id)))
    exec env (create_ledger_entry (bonus_entry account.id txn.id (signup_key external_id)))
    commit env
    pure user

  unfoldable pub create_user_tx : String → String → Tx User
  create_user_tx external_id email = do
    user ← exec env (create_user external_id email)
    open_default_account external_id user

  unfoldable pub register_user : String → String → Tx User
  register_user external_id email = with_tx env (create_user_tx external_id email)

  -- The user that is there, or a new one.
  unfoldable pub user_or_new : String → String → Option User → Tx User
  user_or_new external_id email (some user) = pure user
  user_or_new external_id email none = register_user external_id email

  unfoldable pub get_or_create_user : String → String → Tx User
  get_or_create_user external_id email = do
    known ← optional (auto env (get_user_by_external_id external_id))
    user_or_new external_id email known

module _ (env : Env) where
  unfoldable pub get_user : String → Tx User
  get_user external_id = auto env (get_user_by_external_id external_id)

  unfoldable pub open_account : ℕ → String → Tx Account
  open_account user_id currency = auto env (get_or_create_account user_id currency)

  unfoldable pub list_accounts : (String → String → Bool) → ℕ → Tx (List Account)
  list_accounts collate user_id = auto env (get_accounts_by_user collate user_id)

  unfoldable pub list_all_accounts : ℤ → ℤ → Tx (List GetAllAccountsRow)
  list_all_accounts limit offset w = auto env (get_all_accounts (env.plan w.tick) limit offset) w

  unfoldable pub wallet_deposit : ℕ → ℤ → ℕ → String → Tx Transaction
  wallet_deposit account_id amount key description =
      deposit env (money_request account_id amount key description)

  unfoldable pub wallet_withdraw : ℕ → ℤ → ℕ → String → Tx Transaction
  wallet_withdraw account_id amount key description =
      withdraw env (money_request account_id amount key description)

  unfoldable pub wallet_transfer : ℕ → ℕ → ℤ → ℕ → String → Tx Transaction
  wallet_transfer source destination amount key description = transfer env (record {
    source_account_id = source;
    destination_account_id = destination;
    amount = amount;
    description = description;
    idempotency_key = key;
    metadata = [];
  })
