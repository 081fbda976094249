-- ===== src/Ledger/Drift.antt =====
-- The drift of an account: its balance less what its ledger entries add up to. Admin's Reconcile
-- reports the accounts whose drift is not 0. Here: what each statement does to it.
use playground_ledger.Prelude.{
  ℕ, ◌==◌, ==_iff, ◌≡◌, refl, ap, subst, ◌∙◌, Bool, true, false, Option, none, some, Bool-cases,
  inl, inr, List, ◌∷◌, ℤ, pos, ◌+ℤ◌, ◌-ℤ◌, int_laws, arith, leb_ℤ, if◌then◌else◌,
}
use playground_ledger.Prelude.Table.{any, find, replace, sum, find-replace_key}
use playground_ledger.Db.{Db, Account, LedgerEntry, debit, credit}
use playground_ledger.Store.Hoare.{Answers}
use playground_ledger.Queries.Rows.{account_with_id}
use playground_ledger.Queries.Laws.{reject_if-Answers, found_id, found_row}
use playground_ledger.Queries.Reconcile.{signed_of, signed, ledger_balance}
use playground_ledger.Queries.Accounts.{
  credited, debited, credit_account, debit_account, with_balance,
}
use playground_ledger.Queries.Transactions.{
  CreateTransactionParams, create_transaction, AtomicParams, deposit_atomic, withdraw_atomic,
  deposited, withdrawn, atomic_entry,
}
use playground_ledger.Queries.Entries.{CreateLedgerEntryParams, new_entry, create_ledger_entry}

abbrev pub balance_in : Option Account → ℤ
balance_in none = pos 0
balance_in (some a) = a.balance

-- The balance of an account, 0 if there is none.
unfoldable pub balance_of : ℕ → Db → ℤ
balance_of k db = balance_in (find (account_with_id k) db.accounts)

unfoldable pub drift : ℕ → Db → ℤ
drift k db = balance_of k db -ℤ ledger_balance k db.entries

-- The amount, if the statement is about this account.
abbrev pub at : ℕ → ℕ → ℤ → ℤ
at k id amount = if id == k then amount else pos 0

module _ (k : ℕ) where
  balance_in_if :
      (t : Bool) (b : Account) (o : Option Account)
      → balance_in (if t then some b else o) ≡ (if t then b.balance else balance_in o)
  balance_in_if true b o = refl
  balance_in_if false b o = refl

  -- One row is written anew with another balance.
  pub balance_of-replace :
      (id : ℕ) (a b : Account) (accounts : List Account)
      → find (account_with_id id) accounts ≡ some a
      → b.id ≡ id
      → balance_in (find (account_with_id k) (replace (account_with_id id) b accounts))
        ≡ (if id == k then b.balance else balance_in (find (account_with_id k) accounts))
  balance_of-replace id a b accounts h e =
      ap balance_in (find-replace_key (λ (x : Account). x.id) k id b accounts a h e)
      ∙ balance_in_if (id == k) b (find (account_with_id k) accounts)

  pub balance_of-found :
      (id : ℕ) (a : Account) (accounts : List Account)
      → find (account_with_id id) accounts ≡ some a
      → (id == k) ≡ true
      → balance_in (find (account_with_id k) accounts) ≡ a.balance
  balance_of-found id a accounts h hit =
      ap balance_in
        (subst (λ (i : ℕ). find (account_with_id i) accounts ≡ some a) ((==_iff id k).0 hit) h)

  ledger_balance-cons :
      (e : LedgerEntry) (es : List LedgerEntry)
      → ledger_balance k (e ∷ es) ≡ at k e.account_id (signed e) +ℤ ledger_balance k es
  unfolding ledger_balance sum
  ledger_balance-cons e es = elim (Bool-cases (e.account_id == k)) [
    | inl hit ↦ ground arith
    | inr miss ↦ grind int_laws
  ]

  -- Another balance in a row that is there: the drift moves by the difference.
  pub drift-replace :
      (a : Account) (balance : ℤ) (now : ℕ) (db : Db)
      → find (account_with_id a.id) db.accounts ≡ some a
      → drift k (record db {
        accounts = replace (account_with_id a.id) (with_balance a balance now) db.accounts;
      })
        ≡ drift k db +ℤ at k a.id (balance -ℤ a.balance)
  unfolding drift balance_of
  drift-replace a balance now db h = elim (Bool-cases (a.id == k)) [
    | inl hit ↦
        rw
          (
            balance_of-replace a.id a (with_balance a balance now) db.accounts h refl,
            hit,
            balance_of-found a.id a db.accounts h hit,
          )
          (omega int_laws)
    | inr miss ↦
        rw (balance_of-replace a.id a (with_balance a balance now) db.accounts h refl, miss)
          (omega int_laws)
  ]

  credited-drift :
      (id : ℕ) (amount : ℤ) (now : ℕ) (db : Db) (o : Option Account)
      → find (account_with_id id) db.accounts ≡ o
      → Answers (λ _ db'. drift k db' ≡ drift k db +ℤ at k id amount) (credited amount now db o)
  credited-drift id amount now db none h = tt
  credited-drift id amount now db (some a) h =
      rw
        (
          drift-replace a (a.balance +ℤ amount) now db (found_row id a db.accounts h),
          found_id id a db.accounts h,
        )
        (ap (λ (x : ℤ). drift k db +ℤ at k id x) (omega int_laws))

  debited-drift :
      (id : ℕ) (amount : ℤ) (now : ℕ) (db : Db) (o : Option Account)
      → find (account_with_id id) db.accounts ≡ o
      → Answers (λ _ db'. drift k db' ≡ drift k db -ℤ at k id amount) (debited amount now db o)
  debited-drift id amount now db none h = tt
  debited-drift id amount now db (some a) h = elim (Bool-cases (leb_ℤ amount a.balance)) [
    | inl covered ↦ rw covered (
        rw
          (
            drift-replace a (a.balance -ℤ amount) now db (found_row id a db.accounts h),
            found_id id a db.accounts h,
          )
          (elim (Bool-cases (id == k)) [
            | inl hit ↦ rw hit (omega int_laws)
            | inr miss ↦ rw miss (omega int_laws)
          ]))
    | inr short ↦ rw short tt
  ]

  pub credit_account-drift :
      (id : ℕ) (amount : ℤ) (n t : ℕ) (db : Db)
      → Answers
          (λ _ db'. drift k db' ≡ drift k db +ℤ at k id amount)
          (credit_account id amount n t db)
  unfolding credit_account
  credit_account-drift id amount n t db =
      credited-drift id amount t db (find (account_with_id id) db.accounts) refl

  pub debit_account-drift :
      (id : ℕ) (amount : ℤ) (n t : ℕ) (db : Db)
      → Answers
          (λ _ db'. drift k db' ≡ drift k db -ℤ at k id amount)
          (debit_account id amount n t db)
  unfolding debit_account
  debit_account-drift id amount n t db =
      debited-drift id amount t db (find (account_with_id id) db.accounts) refl

  pub create_transaction-drift :
      (p : CreateTransactionParams) (n t : ℕ) (db : Db)
      → Answers (λ _ db'. drift k db' ≡ drift k db) (create_transaction p n t db)
  unfolding create_transaction drift balance_of
  create_transaction-drift p n t db = search reject_if-Answers

  pub create_ledger_entry-drift :
      (p : CreateLedgerEntryParams) (n t : ℕ) (db : Db)
      → Answers
          (λ _ db'. drift k db' ≡ drift k db -ℤ at k p.account_id (signed_of p.entry_type p.amount))
          (create_ledger_entry p n t db)
  unfolding create_ledger_entry drift balance_of
  create_ledger_entry-drift p n t db =
      elim (Bool-cases (any (account_with_id p.account_id) db.accounts)) [
        | inl known ↦
            rw known (rw (ledger_balance-cons (new_entry n t p) db.entries) (omega int_laws))
        | inr unknown ↦ rw unknown tt
      ]

  -- Balance and entry move together, by one statement.
  drift-atomic :
      (a : Account) (balance : ℤ) (now : ℕ) (e : LedgerEntry) (db : Db)
      → find (account_with_id e.account_id) db.accounts ≡ some a
      → balance ≡ a.balance +ℤ signed e
      → drift k (record db {
        accounts = replace (account_with_id e.account_id) (with_balance a balance now) db.accounts;
        entries = e ∷ db.entries;
      })
        ≡ drift k db
  unfolding drift balance_of
  drift-atomic a balance now e db h eq = elim (Bool-cases (e.account_id == k)) [
    | inl hit ↦
        rw
          (
            balance_of-replace e.account_id a (with_balance a balance now) db.accounts h
                (found_id e.account_id a db.accounts h),
            ledger_balance-cons e db.entries,
            hit,
            balance_of-found e.account_id a db.accounts h hit,
            eq,
          )
          (omega int_laws)
    | inr miss ↦
        rw
          (
            balance_of-replace e.account_id a (with_balance a balance now) db.accounts h
                (found_id e.account_id a db.accounts h),
            ledger_balance-cons e db.entries,
            miss,
          )
          (omega int_laws)
  ]

  deposited-drift :
      (p : AtomicParams) (n t : ℕ) (db : Db) (o : Option Account)
      → find (account_with_id p.account_id) db.accounts ≡ o
      → Answers (λ _ db'. drift k db' ≡ drift k db) (deposited n t p db o)
  deposited-drift p n t db none h = tt
  deposited-drift p n t db (some a) h =
      drift-atomic a (a.balance +ℤ p.amount) t (atomic_entry credit n t p (a.balance +ℤ p.amount))
        db h refl

  withdrawn-drift :
      (p : AtomicParams) (n t : ℕ) (db : Db) (o : Option Account)
      → find (account_with_id p.account_id) db.accounts ≡ o
      → Answers (λ _ db'. drift k db' ≡ drift k db) (withdrawn n t p db o)
  withdrawn-drift p n t db none h = tt
  withdrawn-drift p n t db (some a) h =
      drift-atomic a (a.balance -ℤ p.amount) t (atomic_entry debit n t p (a.balance -ℤ p.amount)) db
        h (omega int_laws)

  pub deposit_atomic-drift :
      (p : AtomicParams) (n t : ℕ) (db : Db)
      → Answers (λ _ db'. drift k db' ≡ drift k db) (deposit_atomic p n t db)
  unfolding deposit_atomic
  deposit_atomic-drift p n t db =
      deposited-drift p n t db (find (account_with_id p.account_id) db.accounts) refl

  pub withdraw_atomic-drift :
      (p : AtomicParams) (n t : ℕ) (db : Db)
      → Answers (λ _ db'. drift k db' ≡ drift k db) (withdraw_atomic p n t db)
  unfolding withdraw_atomic
  withdraw_atomic-drift p n t db =
      withdrawn-drift p n t db (find (account_with_id p.account_id) db.accounts) refl
