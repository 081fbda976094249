-- ===== src/Queries/Rows.antt =====
-- What the statements share: a row by its key, an answer of one row, references between tables.
use playground_ledger.Prelude.{ℕ, ◌==◌, Bool, true, false, Option, none, some, List, ℤ}
use playground_ledger.Prelude.Table.{any}
use playground_ledger.Prelude.Sort.{window}
use playground_ledger.Db.{Db, Account, CreditGrant, User, Transaction}
use playground_ledger.Store.{Result, ok, err, PgError, no_rows, pg}

abbrev pub Answer : Type 0 → Type 0
Answer A = Result (A × Db)

-- `:one`: the row, or pgx.ErrNoRows.
abbrev pub one_row : {A : Type 0} → Option A → Db → Answer A
one_row none db = err no_rows
one_row (some a) db = ok (a, db)

-- An INSERT with its constraints: the first that is broken is reported.
abbrev pub reject_if : {A : Type 0} → Bool → PgError → Answer A → Answer A
reject_if true e k = err (pg e)
reject_if false e k = k

abbrev pub windowed_of : {A : Type 0} → Option (List A) → Db → Answer (List A)
windowed_of (some rows) db = ok (rows, db)
windowed_of none db = err (pg (PgError.other 0))

-- The rows that LIMIT and OFFSET leave; a negative bound is an error of the server.
abbrev pub windowed : {A : Type 0} → ℤ → ℤ → List A → Db → Answer (List A)
windowed limit offset rows db = windowed_of (window limit offset rows) db

abbrev pub account_with_id : ℕ → Account → Bool
account_with_id k a = a.id == k

abbrev pub grant_with_id : ℕ → CreditGrant → Bool
grant_with_id k g = g.id == k

abbrev pub user_with_id : ℕ → User → Bool
user_with_id k u = u.id == k

abbrev pub txn_with_id : ℕ → Transaction → Bool
txn_with_id k t = t.id == k

-- A nullable reference to an account: NULL refers to nothing.
abbrev pub refers : Option ℕ → List Account → Bool
refers none accounts = true
refers (some k) accounts = any (account_with_id k) accounts

abbrev pub option_eq : Option ℕ → ℕ → Bool
option_eq none k = false
option_eq (some j) k = j == k
