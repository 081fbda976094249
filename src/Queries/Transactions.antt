-- ===== src/Queries/Transactions.antt =====
-- postgre-setup/go/internal/db/generated/transactions.sql.go
use playground_ledger.Prelude.{
  ℕ, ◌==◌, Bool, ◌||◌, not, Option, none, some, List, ◌∷◌, String, ℤ, ◌+ℤ◌, ◌-ℤ◌, leb, keep,
}
use playground_ledger.Prelude.Table.{any, find, replace}
use playground_ledger.Prelude.Sort.{sort_by}
use playground_ledger.Db.{
  Db, Account, Transaction, TransactionType, TransactionStatus, LedgerEntry, EntryType, debit,
  credit, Metadata,
}
use playground_ledger.Store.{Query, ok, err, no_rows, PgError}
use playground_ledger.Queries.Rows.{
  Answer, one_row, reject_if, windowed, account_with_id, txn_with_id, refers, option_eq,
}
use playground_ledger.Queries.Accounts.{with_balance}

pub record CreateTransactionParams : Type 0 where
  pub transaction_type : TransactionType
  pub status : TransactionStatus
  pub source_account_id : Option ℕ
  pub destination_account_id : Option ℕ
  pub amount : ℤ
  pub currency : String
  pub fee_amount : Option ℤ
  pub fee_account_id : Option ℕ
  pub idempotency_key : ℕ
  pub metadata : Metadata

abbrev pub new_transaction : ℕ → ℕ → CreateTransactionParams → Transaction
new_transaction new_id now p = record {
  id = new_id;
  transaction_type = p.transaction_type;
  status = p.status;
  source_account_id = p.source_account_id;
  destination_account_id = p.destination_account_id;
  amount = p.amount;
  currency = p.currency;
  fee_amount = p.fee_amount;
  fee_account_id = p.fee_account_id;
  idempotency_key = p.idempotency_key;
  metadata = p.metadata;
  created_at = now;
}

abbrev pub txn_with_key : ℕ → Transaction → Bool
txn_with_key k t = t.idempotency_key == k

-- idempotency_key is UNIQUE, and the three accounts are references.
unfoldable pub create_transaction : CreateTransactionParams → Query Transaction
create_transaction p new_id now db =
    let t = new_transaction new_id now p in
    reject_if (any (txn_with_key p.idempotency_key) db.transactions) PgError.unique_violation (
      reject_if
        (not (refers p.source_account_id db.accounts)
          || not (refers p.destination_account_id db.accounts)
          || not (refers p.fee_account_id db.accounts))
        PgError.foreign_key_violation (ok (t, record db { transactions = t ∷ db.transactions })))

pub record AtomicParams : Type 0 where
  pub amount : ℤ
  pub account_id : ℕ
  pub description : Option String
  pub metadata : Metadata

pub record AtomicRow : Type 0 where
  pub currency : String
  pub created_at : ℕ

abbrev pub atomic_entry : EntryType → ℕ → ℕ → AtomicParams → ℤ → LedgerEntry
atomic_entry entry_type new_id now p balance_after = record {
  id = new_id;
  account_id = p.account_id;
  entry_type = entry_type;
  amount = p.amount;
  balance_after = balance_after;
  transaction_id = none;
  description = p.description;
  metadata = p.metadata;
  idempotency_key = none;
  created_at = now;
}

-- Both parts of the statement take effect, or neither: the row is updated, the entry appended.
abbrev pub atomic_write : EntryType → ℤ → ℕ → ℕ → AtomicParams → Account → Db → Answer AtomicRow
atomic_write entry_type balance new_id now p a db = ok (
  record { currency = a.currency; created_at = now },
  record db {
    accounts = replace (account_with_id p.account_id) (with_balance a balance now) db.accounts;
    entries = atomic_entry entry_type new_id now p balance ∷ db.entries;
  },
)

abbrev pub deposited : ℕ → ℕ → AtomicParams → Db → Option Account → Answer AtomicRow
deposited new_id now p db none = err no_rows
deposited new_id now p db (some a) = atomic_write credit (a.balance +ℤ p.amount) new_id now p a db

unfoldable pub deposit_atomic : AtomicParams → Query AtomicRow
deposit_atomic p new_id now db =
    deposited new_id now p db (find (account_with_id p.account_id) db.accounts)

abbrev pub withdrawn : ℕ → ℕ → AtomicParams → Db → Option Account → Answer AtomicRow
withdrawn new_id now p db none = err no_rows
withdrawn new_id now p db (some a) = atomic_write debit (a.balance -ℤ p.amount) new_id now p a db

unfoldable pub withdraw_atomic : AtomicParams → Query AtomicRow
withdraw_atomic p new_id now db =
    withdrawn new_id now p db (find (account_with_id p.account_id) db.accounts)

unfoldable pub get_transaction_by_id : ℕ → Query Transaction
get_transaction_by_id id new_id now db = one_row (find (txn_with_id id) db.transactions) db

unfoldable pub get_transaction_by_idempotency_key : ℕ → Query Transaction
get_transaction_by_idempotency_key key new_id now db =
    one_row (find (txn_with_key key) db.transactions) db

abbrev pub involves : ℕ → Transaction → Bool
involves k t = option_eq t.source_account_id k || option_eq t.destination_account_id k

-- ORDER BY t.created_at DESC LIMIT $2 OFFSET $3
unfoldable pub get_transactions_by_account : ℕ → ℤ → ℤ → Query (List Transaction)
get_transactions_by_account account_id limit offset new_id now db =
    windowed limit offset
      (sort_by (λ s t. leb t.created_at s.created_at) (keep (involves account_id) db.transactions))
      db

abbrev restated : TransactionStatus → Db → Option Transaction → Answer Transaction
restated status db none = err no_rows
restated status db (some t) =
    let t' = record t { status = status } in
    ok (t', record db { transactions = replace (txn_with_id t.id) t' db.transactions })

unfoldable pub update_transaction_status : ℕ → TransactionStatus → Query Transaction
update_transaction_status id status new_id now db =
    restated status db (find (txn_with_id id) db.transactions)
