-- ===== src/Queries/Entries.antt =====
-- postgre-setup/go/internal/db/generated/ledger.sql.go
use playground_ledger.Prelude.{
  ℕ, ◌==◌, Bool, not, Option, none, some, List, [], ◌∷◌, String, ℤ, leb, keep,
}
use playground_ledger.Prelude.Table.{any, find}
use playground_ledger.Prelude.Sort.{sort_by}
use playground_ledger.Db.{LedgerEntry, EntryType, Metadata}
use playground_ledger.Store.{Query, ok, PgError}
use playground_ledger.Queries.Rows.{one_row, reject_if, windowed, account_with_id, option_eq}

pub record CreateLedgerEntryParams : Type 0 where
  pub account_id : ℕ
  pub entry_type : EntryType
  pub amount : ℤ
  pub balance_after : ℤ
  pub transaction_id : Option ℕ
  pub description : Option String
  pub metadata : Metadata
  pub idempotency_key : Option ℕ

abbrev pub new_entry : ℕ → ℕ → CreateLedgerEntryParams → LedgerEntry
new_entry new_id now p = record {
  id = new_id;
  account_id = p.account_id;
  entry_type = p.entry_type;
  amount = p.amount;
  balance_after = p.balance_after;
  transaction_id = p.transaction_id;
  description = p.description;
  metadata = p.metadata;
  idempotency_key = p.idempotency_key;
  created_at = now;
}

-- The account is a reference; the other constraints were dropped by migration 004.
unfoldable pub create_ledger_entry : CreateLedgerEntryParams → Query LedgerEntry
create_ledger_entry p new_id now db =
    let e = new_entry new_id now p in
    reject_if (not (any (account_with_id p.account_id) db.accounts)) PgError.foreign_key_violation
      (ok (e, record db { entries = e ∷ db.entries }))

abbrev pub newest_first : LedgerEntry → LedgerEntry → Bool
newest_first d e = leb e.created_at d.created_at

abbrev head_of : List LedgerEntry → Option LedgerEntry
head_of [] = none
head_of (e ∷ es) = some e

unfoldable pub get_latest_ledger_entry : ℕ → Query LedgerEntry
get_latest_ledger_entry account_id new_id now db =
    one_row (head_of (sort_by newest_first (keep (λ e. e.account_id == account_id) db.entries))) db

unfoldable pub get_ledger_entries_by_account : ℕ → ℤ → ℤ → Query (List LedgerEntry)
get_ledger_entries_by_account account_id limit offset new_id now db =
    windowed limit offset (sort_by newest_first (keep (λ e. e.account_id == account_id) db.entries))
      db

unfoldable pub get_ledger_entries_by_transaction : ℕ → Query (List LedgerEntry)
get_ledger_entries_by_transaction transaction_id new_id now db = ok (
  sort_by (λ d e. leb d.created_at e.created_at)
      (keep (λ e. option_eq e.transaction_id transaction_id) db.entries),
  db,
)

unfoldable pub get_ledger_entry_by_id : ℕ → Query LedgerEntry
get_ledger_entry_by_id id new_id now db = one_row (find (λ e. e.id == id) db.entries) db
