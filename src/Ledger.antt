-- ===== src/Ledger.antt =====
-- postgre-setup/go/internal/ledger/service.go: transfers, deposits, withdrawals and the queries of
-- the ledger service.
pub mod Drift
pub mod Conservation
pub mod Totals
pub mod Atomic
pub mod Balances
pub mod Report
pub mod Replay
pub mod Invariants
pub mod Batch
pub mod Counting
pub mod Moving
pub mod Succeeding
use playground_ledger.Prelude.{
  ℕ, ◌==◌, ◌^◌, ◌-◌, not, Option, none, some, List, String, str_eq, ℤ, pos, leb_ℤ, ltb_ℤ, ltb,
  if◌then◌else◌,
}
use playground_ledger.Db.{
  Account, Transaction, TransactionType, TransactionStatus, completed, LedgerEntry, debit, credit,
  Metadata,
}
use playground_ledger.Stats.{OpStats, Phases, ServiceStats, add64, record_op, record_idempotent}
use playground_ledger.Store.{
  Env, World, Tx, Result, ok, err, Error, LedgerError, of_ledger, no_rows, ◌>>=◌, ◌>>◌, bind_of,
  pure, fail, fail_if, on_error, on_no_rows, optional, mark, update_stats, exec, commit, with_tx,
  auto, ms, draw_uuid, is_contention,
}
use playground_ledger.Queries.Accounts.{get_account_by_id, debit_account, credit_account}
use playground_ledger.Queries.Transactions.{
  CreateTransactionParams, create_transaction, AtomicParams, AtomicRow, deposit_atomic,
  withdraw_atomic, get_transaction_by_idempotency_key, get_transactions_by_account,
}
use playground_ledger.Queries.Entries.{
  CreateLedgerEntryParams, create_ledger_entry, get_ledger_entries_by_account,
}

pub record TransferRequest : Type 0 where
  pub source_account_id : ℕ
  pub destination_account_id : ℕ
  pub amount : ℤ
  pub description : String
  pub idempotency_key : ℕ
  pub metadata : Metadata

-- DepositRequest and WithdrawRequest have the same fields.
pub record MoneyRequest : Type 0 where
  pub account_id : ℕ
  pub amount : ℤ
  pub description : String
  pub idempotency_key : ℕ
  pub metadata : Metadata

-- An empty text is stored as NULL.
unfoldable pub to_pg_text : String → Option String
to_pg_text s = if str_eq s "" then none else some s

abbrev pub record_transfer : ℕ → Phases → ServiceStats → ServiceStats
record_transfer total p s = record s { transfers = record_op s.transfers total p }

abbrev pub record_deposit : ℕ → Phases → ServiceStats → ServiceStats
record_deposit total p s = record s { deposits = record_op s.deposits total p }

abbrev pub record_withdrawal : ℕ → Phases → ServiceStats → ServiceStats
record_withdrawal total p s = record s { withdrawals = record_op s.withdrawals total p }

abbrev pub record_replay : ServiceStats → ServiceStats
record_replay s = record s { transfers = record_idempotent s.transfers }

abbrev pub add_in_flight : ℕ → ServiceStats → ServiceStats
add_in_flight n s = record s { in_flight = add64 s.in_flight n }

abbrev pub leave : {A : Type 0} → Result A × World → Result A × World
leave (r, w) = (r, record w { stats = add_in_flight (2 ^ 64 - 1) w.stats })

-- `s.inFlight.Add(1); defer s.inFlight.Add(-1)`
unfoldable pub in_flight : {A : Type 0} → Tx A → Tx A
in_flight m w = leave (m (record w { stats = add_in_flight 1 w.stats }))

abbrev pub transfer_params : TransferRequest → String → CreateTransactionParams
transfer_params req currency = record {
  transaction_type = TransactionType.transfer;
  status = completed;
  source_account_id = some req.source_account_id;
  destination_account_id = some req.destination_account_id;
  amount = req.amount;
  currency = currency;
  fee_amount = none;
  fee_account_id = none;
  idempotency_key = req.idempotency_key;
  metadata = req.metadata;
}

abbrev pub debit_entry : TransferRequest → ℤ → ℕ → ℕ → CreateLedgerEntryParams
debit_entry req balance_after txn_id key = record {
  account_id = req.source_account_id;
  entry_type = debit;
  amount = req.amount;
  balance_after = balance_after;
  transaction_id = some txn_id;
  description = to_pg_text req.description;
  metadata = req.metadata;
  idempotency_key = some key;
}

abbrev pub credit_entry : TransferRequest → ℤ → ℕ → ℕ → CreateLedgerEntryParams
credit_entry req balance_after txn_id key = record {
  account_id = req.destination_account_id;
  entry_type = credit;
  amount = req.amount;
  balance_after = balance_after;
  transaction_id = some txn_id;
  description = to_pg_text req.description;
  metadata = req.metadata;
  idempotency_key = some key;
}

abbrev pub atomic_params : MoneyRequest → AtomicParams
atomic_params req = record {
  amount = req.amount;
  account_id = req.account_id;
  description = to_pg_text req.description;
  metadata = req.metadata;
}

-- No row: the account is missing; a deadlock or a lock timeout: contention.
abbrev pub atomic_error : {A : Type 0} → Result A × World → Result A × World
atomic_error (ok a, w) = (ok a, w)
atomic_error (err no_rows, w) = (err (of_ledger LedgerError.account_not_found), w)
atomic_error (err e, w) = (err (if is_contention e then of_ledger LedgerError.contention else e), w)

abbrev pub atomic_errors : {A : Type 0} → Tx A → Tx A
atomic_errors m w = atomic_error (m w)

abbrev pub writes_phase : ℕ → Phases
writes_phase d = record { idp_ms = 0; lock_ms = 0; writes_ms = d; commit_ms = 0 }

abbrev pub deposit_txn : MoneyRequest → AtomicRow → ℕ → Transaction
deposit_txn req row id = record {
  id = id;
  transaction_type = TransactionType.deposit;
  status = completed;
  source_account_id = none;
  destination_account_id = some req.account_id;
  amount = req.amount;
  currency = row.currency;
  fee_amount = none;
  fee_account_id = none;
  idempotency_key = req.idempotency_key;
  metadata = req.metadata;
  created_at = row.created_at;
}

abbrev pub withdrawal_txn : MoneyRequest → AtomicRow → ℕ → Transaction
withdrawal_txn req row id = record {
  id = id;
  transaction_type = TransactionType.withdrawal;
  status = completed;
  source_account_id = some req.account_id;
  destination_account_id = none;
  amount = req.amount;
  currency = row.currency;
  fee_amount = none;
  fee_account_id = none;
  idempotency_key = req.idempotency_key;
  metadata = req.metadata;
  created_at = row.created_at;
}

module _ (env : Env) where
  -- The two updates, in the order of the account identifiers. The row of the source.
  unfoldable pub move_money : TransferRequest → Tx Account
  move_money req =
      if ltb req.source_account_id req.destination_account_id
      then (do
        source ←
            on_no_rows (of_ledger LedgerError.insufficient_funds)
              (exec env (debit_account req.source_account_id req.amount))
        exec env (credit_account req.destination_account_id req.amount)
        pure source)
      else (do
        exec env (credit_account req.destination_account_id req.amount)
        on_no_rows (of_ledger LedgerError.insufficient_funds)
            (exec env (debit_account req.source_account_id req.amount)))

  -- From the balances that were read to the two entries: all that the transaction writes.
  unfoldable pub write_transfer : TransferRequest → String → Tx Transaction
  write_transfer req currency = do
    source ← move_money req
    dest ← exec env (get_account_by_id req.destination_account_id)
    txn ← exec env (create_transaction (transfer_params req currency))
    debit_key ← draw_uuid env
    exec env (create_ledger_entry (debit_entry req source.balance txn.id debit_key))
    credit_key ← draw_uuid env
    exec env (create_ledger_entry (credit_entry req dest.balance txn.id credit_key))
    pure txn

  -- The body of the transaction once the idempotency key is known to be new.
  unfoldable pub fresh_transfer : ℕ → ℕ → TransferRequest → Tx Transaction
  fresh_transfer t0 d_idp req = do
    t_lock ← mark
    source ←
        on_error (of_ledger LedgerError.account_not_found)
          (exec env (get_account_by_id req.source_account_id))
    dest ←
        on_error (of_ledger LedgerError.account_not_found)
          (exec env (get_account_by_id req.destination_account_id))
    d_lock ← ms env t_lock
    fail_if (not (str_eq source.currency dest.currency)) (of_ledger LedgerError.currency_mismatch)
    fail_if (ltb_ℤ source.balance req.amount) (of_ledger LedgerError.insufficient_funds)
    t_writes ← mark
    txn ← write_transfer req source.currency
    d_writes ← ms env t_writes
    t_commit ← mark
    commit env
    d_commit ← ms env t_commit
    total ← ms env t0
    update_stats (
        record_transfer total
          (record { idp_ms = d_idp; lock_ms = d_lock; writes_ms = d_writes; commit_ms = d_commit }))
    pure txn

  -- A key that is known already: the transaction that it named is returned.
  unfoldable pub replay_transfer : ℕ → ℕ → TransferRequest → Option Transaction → Tx Transaction
  replay_transfer t0 d_idp req (some existing) = do update_stats record_replay; pure existing
  replay_transfer t0 d_idp req none = fresh_transfer t0 d_idp req

  unfoldable pub transfer_tx : ℕ → TransferRequest → Tx Transaction
  transfer_tx t0 req = do
    t_idp ← mark
    existing ← optional (exec env (get_transaction_by_idempotency_key req.idempotency_key))
    d_idp ← ms env t_idp
    replay_transfer t0 d_idp req existing

  unfoldable pub transfer : TransferRequest → Tx Transaction
  transfer req = in_flight (do
    t0 ← mark
    fail_if (leb_ℤ req.amount (pos 0)) (of_ledger LedgerError.invalid_amount)
    fail_if (req.source_account_id == req.destination_account_id)
        (of_ledger LedgerError.same_account)
    with_tx env (transfer_tx t0 req))

  unfoldable pub deposit : MoneyRequest → Tx Transaction
  deposit req = in_flight (do
    t0 ← mark
    fail_if (leb_ℤ req.amount (pos 0)) (of_ledger LedgerError.invalid_amount)
    t_writes ← mark
    row ← atomic_errors (auto env (deposit_atomic (atomic_params req)))
    d_writes ← ms env t_writes
    total ← ms env t0
    update_stats (record_deposit total (writes_phase d_writes))
    id ← draw_uuid env
    pure (deposit_txn req row id))

  unfoldable pub withdraw : MoneyRequest → Tx Transaction
  withdraw req = in_flight (do
    t0 ← mark
    fail_if (leb_ℤ req.amount (pos 0)) (of_ledger LedgerError.invalid_amount)
    t_writes ← mark
    row ← atomic_errors (auto env (withdraw_atomic (atomic_params req)))
    d_writes ← ms env t_writes
    total ← ms env t0
    update_stats (record_withdrawal total (writes_phase d_writes))
    id ← draw_uuid env
    pure (withdrawal_txn req row id))

  unfoldable pub get_balance : ℕ → Tx ℤ
  get_balance account_id = do
    account ←
        on_error (of_ledger LedgerError.account_not_found) (auto env (get_account_by_id account_id))
    pure account.balance

  unfoldable pub get_account_transactions : ℕ → ℤ → ℤ → Tx (List Transaction)
  get_account_transactions account_id limit offset =
      auto env (get_transactions_by_account account_id limit offset)

  unfoldable pub get_ledger_entries : ℕ → ℤ → ℤ → Tx (List LedgerEntry)
  get_ledger_entries account_id limit offset =
      auto env (get_ledger_entries_by_account account_id limit offset)
