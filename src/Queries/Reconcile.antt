-- ===== src/Queries/Reconcile.antt =====
-- postgre-setup/go/internal/api/handlers/admin.go, Reconcile: the query that compares every
-- account's balance with its ledger entries.
use playground_ledger.Prelude.{
  ℕ, ◌==◌, Bool, not, List, ℤ, pos, ◌-ℤ◌, ltb_ℤ, leb_ℤ, ◌&&◌, keep, map, length, if◌then◌else◌,
}
use playground_ledger.Prelude.Table.{sum}
use playground_ledger.Prelude.Sort.{sort_by}
use playground_ledger.Db.{Account, LedgerEntry, EntryType, debit, credit}
use playground_ledger.Store.{Query}
use playground_ledger.Queries.Rows.{windowed}

-- CASE WHEN le.entry_type = 'CREDIT' THEN le.amount ELSE -le.amount END
abbrev pub signed_of : EntryType → ℤ → ℤ
signed_of credit amount = amount
signed_of debit amount = pos 0 -ℤ amount

abbrev pub signed : LedgerEntry → ℤ
signed e = signed_of e.entry_type e.amount

abbrev pub entry_of : ℕ → LedgerEntry → Bool
entry_of account_id e = e.account_id == account_id

-- The sum over the entries of an account; an account with none has 0.
unfoldable pub ledger_balance : ℕ → List LedgerEntry → ℤ
ledger_balance account_id entries = sum signed (keep (entry_of account_id) entries)

pub record ReconcileRow : Type 0 where
  pub account_id : ℕ
  pub account_balance : ℤ
  pub ledger_balance : ℤ
  pub discrepancy : ℤ
  pub entry_count : ℕ

unfoldable pub reconcile_row : List LedgerEntry → Account → ReconcileRow
reconcile_row entries a = record {
  account_id = a.id;
  account_balance = a.balance;
  ledger_balance = ledger_balance a.id entries;
  discrepancy = a.balance -ℤ ledger_balance a.id entries;
  entry_count = length (keep (entry_of a.id) entries);
}

abbrev pub is_zero : ℤ → Bool
is_zero x = leb_ℤ x (pos 0) && leb_ℤ (pos 0) x

abbrev pub abs : ℤ → ℤ
abs x = if ltb_ℤ x (pos 0) then pos 0 -ℤ x else x

-- HAVING a.balance != …, ORDER BY ABS(…) DESC LIMIT $1
unfoldable pub reconcile : ℤ → Query (List ReconcileRow)
reconcile limit new_id now db =
    windowed limit (pos 0)
      (sort_by (λ r s. leb_ℤ (abs s.discrepancy) (abs r.discrepancy))
        (keep (λ r. not (is_zero r.discrepancy)) (map (reconcile_row db.entries) db.accounts)))
      db
