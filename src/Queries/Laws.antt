-- ===== src/Queries/Laws.antt =====
-- What holds of every statement's answer: a broken constraint writes nothing, a lookup only reads.
use playground_ledger.Prelude.{
  ℕ, ==_iff, ◌≡◌, refl, sym, subst, List, Bool, true, false, Option, none, some,
}
use playground_ledger.Prelude.Table.{find, find-holds}
use playground_ledger.Db.{Db, Account}
use playground_ledger.Store.{PgError}
use playground_ledger.Store.Hoare.{Answers}
use playground_ledger.Store.Rules.{Reads}
use playground_ledger.Queries.Rows.{Answer, one_row, reject_if, account_with_id}
use playground_ledger.Queries.Accounts.{get_account_by_id}
use playground_ledger.Queries.Transactions.{get_transaction_by_idempotency_key}

pub reject_if-Answers :
    {A : Type 0} (post : A → Db → Type 0) (b : Bool) (e : PgError) (k : Answer A)
    → Answers post k
    → Answers post (reject_if b e k)
reject_if-Answers post true e k h = tt
reject_if-Answers post false e k h = h

pub one_row-Reads : {A : Type 0} (o : Option A) (db : Db) → Reads db (one_row o db)
one_row-Reads none db = tt
one_row-Reads (some a) db = refl

pub get_account_by_id-Reads : (id n t : ℕ) (db : Db) → Reads db (get_account_by_id id n t db)
unfolding get_account_by_id
get_account_by_id-Reads id n t db = one_row-Reads _ db

pub get_transaction_by_idempotency_key-Reads :
    (key n t : ℕ) (db : Db) → Reads db (get_transaction_by_idempotency_key key n t db)
unfolding get_transaction_by_idempotency_key
get_transaction_by_idempotency_key-Reads key n t db = one_row-Reads _ db

-- The row that a key finds has that key.
pub found_id :
    (id : ℕ) (a : Account) (accounts : List Account)
    → find (account_with_id id) accounts ≡ some a
    → a.id ≡ id
found_id id a accounts h = (==_iff a.id id).0 (find-holds (account_with_id id) accounts a h)

pub found_row :
    (id : ℕ) (a : Account) (accounts : List Account)
    → find (account_with_id id) accounts ≡ some a
    → find (account_with_id a.id) accounts ≡ some a
found_row id a accounts h =
    subst (λ (i : ℕ). find (account_with_id i) accounts ≡ some a) (sym (found_id id a accounts h)) h
