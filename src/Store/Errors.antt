-- ===== src/Store/Errors.antt =====
-- The error values: postgre-setup/go/internal/ledger/errors.go, internal/grants/errors.go, what
-- pgx returns, and ledger.isContention.
use playground_ledger.Prelude.{ℕ, Bool, true, false}

pub data LedgerError : Type 0 where
  insufficient_funds account_not_found user_not_found duplicate_transaction : LedgerError
  invalid_amount same_account currency_mismatch contention : LedgerError

pub data GrantsError : Type 0 where
  insufficient_grants grant_not_found grant_expired invalid_amount account_not_found : GrantsError
  duplicate_grant insufficient_funds : GrantsError

-- An error of the server or of the connection; `other` carries any further code.
pub data PgError : Type 0 where
  deadlock_detected lock_not_available : PgError
  unique_violation foreign_key_violation check_violation : PgError
  other : ℕ → PgError

pub data Error : Type 0 where
  of_ledger : LedgerError → Error
  of_grants : GrantsError → Error
  no_rows : Error
  pg : PgError → Error

pub data Result (A : Type 0) : Type 0 where
  ok : A → Result A
  err : Error → Result A

-- Deadlock (40P01) or lock timeout (55P03).
unfoldable pub is_contention : Error → Bool
is_contention (pg deadlock_detected) = true
is_contention (pg lock_not_available) = true
is_contention _ = false
