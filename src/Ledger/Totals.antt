-- ===== src/Ledger/Totals.antt =====
-- The sum of all balances, and what each statement of the ledger does to it.
use playground_ledger.Prelude.{
  ℕ, ◌≡◌, refl, ◌∙◌, Bool-cases, inl, inr, Option, none, some, ℤ, ◌+ℤ◌, ◌-ℤ◌, int_laws, leb_ℤ,
}
use playground_ledger.Prelude.Table.{find, replace, sum, sum-replace}
use playground_ledger.Db.{Db, Account}
use playground_ledger.Store.Hoare.{Answers}
use playground_ledger.Queries.Rows.{account_with_id}
use playground_ledger.Queries.Laws.{reject_if-Answers, found_row}
use playground_ledger.Queries.Accounts.{
  credited, debited, credit_account, debit_account, with_balance,
}
use playground_ledger.Queries.Transactions.{
  CreateTransactionParams, create_transaction, AtomicParams, deposit_atomic, withdraw_atomic,
  deposited, withdrawn,
}
use playground_ledger.Queries.Entries.{CreateLedgerEntryParams, create_ledger_entry}

-- The money in all accounts.
unfoldable pub total : Db → ℤ
total db = sum (λ (a : Account). a.balance) db.accounts

total-replace :
    (id : ℕ) (a : Account) (balance : ℤ) (now : ℕ) (db : Db)
    → find (account_with_id id) db.accounts ≡ some a
    → total (record db {
      accounts = replace (account_with_id id) (with_balance a balance now) db.accounts;
    })
      ≡ total db +ℤ (balance -ℤ a.balance)
unfolding total
total-replace id a balance now db h = grind (
  int_laws,
  sum-replace (λ (x : Account). x.balance) (account_with_id id) (with_balance a balance now)
      db.accounts a h,
)

credited-total :
    (id : ℕ) (amount : ℤ) (now : ℕ) (db : Db) (o : Option Account)
    → find (account_with_id id) db.accounts ≡ o
    → Answers (λ _ db'. total db' ≡ total db +ℤ amount) (credited amount now db o)
credited-total id amount now db none h = tt
credited-total id amount now db (some a) h =
    rw (total-replace a.id a (a.balance +ℤ amount) now db (found_row id a db.accounts h))
      (omega int_laws)

debited-total :
    (id : ℕ) (amount : ℤ) (now : ℕ) (db : Db) (o : Option Account)
    → find (account_with_id id) db.accounts ≡ o
    → Answers (λ _ db'. total db' ≡ total db -ℤ amount) (debited amount now db o)
debited-total id amount now db none h = tt
debited-total id amount now db (some a) h = elim (Bool-cases (leb_ℤ amount a.balance)) [
  | inl covered ↦ rw covered (
      rw (total-replace a.id a (a.balance -ℤ amount) now db (found_row id a db.accounts h))
        (omega int_laws))
  | inr short ↦ rw short tt
]

pub credit_account-total :
    (id : ℕ) (amount : ℤ) (n t : ℕ) (db : Db)
    → Answers (λ _ db'. total db' ≡ total db +ℤ amount) (credit_account id amount n t db)
unfolding credit_account
credit_account-total id amount n t db =
    credited-total id amount t db (find (account_with_id id) db.accounts) refl

pub debit_account-total :
    (id : ℕ) (amount : ℤ) (n t : ℕ) (db : Db)
    → Answers (λ _ db'. total db' ≡ total db -ℤ amount) (debit_account id amount n t db)
unfolding debit_account
debit_account-total id amount n t db =
    debited-total id amount t db (find (account_with_id id) db.accounts) refl

pub create_transaction-total :
    (p : CreateTransactionParams) (n t : ℕ) (db : Db)
    → Answers (λ _ db'. total db' ≡ total db) (create_transaction p n t db)
unfolding create_transaction total
create_transaction-total p n t db = search reject_if-Answers

pub create_ledger_entry-total :
    (p : CreateLedgerEntryParams) (n t : ℕ) (db : Db)
    → Answers (λ _ db'. total db' ≡ total db) (create_ledger_entry p n t db)
unfolding create_ledger_entry total
create_ledger_entry-total p n t db = search reject_if-Answers

deposited-total :
    (p : AtomicParams) (n t : ℕ) (db : Db) (o : Option Account)
    → find (account_with_id p.account_id) db.accounts ≡ o
    → Answers (λ _ db'. total db' ≡ total db +ℤ p.amount) (deposited n t p db o)
unfolding total
deposited-total p n t db none h = tt
deposited-total p n t db (some a) h =
    total-replace p.account_id a (a.balance +ℤ p.amount) t db h ∙ omega int_laws

withdrawn-total :
    (p : AtomicParams) (n t : ℕ) (db : Db) (o : Option Account)
    → find (account_with_id p.account_id) db.accounts ≡ o
    → Answers (λ _ db'. total db' ≡ total db -ℤ p.amount) (withdrawn n t p db o)
unfolding total
withdrawn-total p n t db none h = tt
withdrawn-total p n t db (some a) h =
    total-replace p.account_id a (a.balance -ℤ p.amount) t db h ∙ omega int_laws

pub deposit_atomic-total :
    (p : AtomicParams) (n t : ℕ) (db : Db)
    → Answers (λ _ db'. total db' ≡ total db +ℤ p.amount) (deposit_atomic p n t db)
unfolding deposit_atomic
deposit_atomic-total p n t db =
    deposited-total p n t db (find (account_with_id p.account_id) db.accounts) refl

pub withdraw_atomic-total :
    (p : AtomicParams) (n t : ℕ) (db : Db)
    → Answers (λ _ db'. total db' ≡ total db -ℤ p.amount) (withdraw_atomic p n t db)
unfolding withdraw_atomic
withdraw_atomic-total p n t db =
    withdrawn-total p n t db (find (account_with_id p.account_id) db.accounts) refl
