-- ===== src/Ledger/Balances.antt =====
-- The balances of all accounts, and what the operations of
-- postgre-setup/go/internal/ledger/service.go do to them.
use playground_ledger.Prelude.{
  ℕ, ◌==◌, ◌≡◌, ◌⊎◌, refl, ap, ◌∙◌, fun_ext, Bool-cases, inl, inr, Option, none, some, ℤ, pos, ◌+ℤ◌,
  ◌-ℤ◌, int_laws, leb_ℤ, List,
}
use playground_ledger.Prelude.Table.{find, replace}
use playground_ledger.Db.{Db, Account}
use playground_ledger.Store.{Env, World, Result, ok, err}
use playground_ledger.Store.Hoare.{Ends, ends_ok, ends_err, Answers}
use playground_ledger.Queries.Rows.{account_with_id}
use playground_ledger.Queries.Laws.{reject_if-Answers, found_id, found_row}
use playground_ledger.Queries.Accounts.{
  credited, debited, credit_account, debit_account, with_balance,
}
use playground_ledger.Queries.Transactions.{
  CreateTransactionParams, create_transaction, AtomicParams, deposit_atomic, withdraw_atomic,
  deposited, withdrawn,
}
use playground_ledger.Queries.Entries.{CreateLedgerEntryParams, create_ledger_entry}
use playground_ledger.Ledger.{
  TransferRequest, MoneyRequest, debit_entry, credit_entry, atomic_params, transfer, deposit,
  withdraw,
}
use playground_ledger.Ledger.Drift.{
  balance_in, balance_of, at, balance_of-replace, balance_of-found,
}
use playground_ledger.Ledger.Conservation.{Effects, transfer-Ends}
use playground_ledger.Ledger.Atomic.{deposit-Ends, withdraw-Ends}

-- The balances by account.
abbrev pub balances : Db → ℕ → ℤ
balances db = λ k. balance_of k db

-- One account's balance moves.
abbrev pub moved : ℕ → ℤ → (ℕ → ℤ) → ℕ → ℤ
moved id amount b k = b k +ℤ at k id amount

-- A row with another balance.
balance_in-moved :
    (k id : ℕ) (a : Account) (balance amount : ℤ) (now : ℕ) (accounts : List Account)
    → find (account_with_id id) accounts ≡ some a
    → a.id ≡ id
    → balance ≡ a.balance +ℤ amount
    → balance_in (
        find
          (account_with_id k)
          (replace (account_with_id id) (with_balance a balance now) accounts))
      ≡ balance_in (find (account_with_id k) accounts) +ℤ at k id amount
balance_in-moved k id a balance amount now accounts h e eq = elim (Bool-cases (id == k)) [
  | inl hit ↦
      rw
        (
          balance_of-replace k id a (with_balance a balance now) accounts h e,
          hit,
          balance_of-found k id a accounts h hit,
        )
        eq
  | inr miss ↦
      rw (balance_of-replace k id a (with_balance a balance now) accounts h e, miss)
        (omega int_laws)
]

credited-balances :
    (id : ℕ) (amount : ℤ) (now : ℕ) (db : Db) (o : Option Account)
    → find (account_with_id id) db.accounts ≡ o
    → Answers (λ _ db'. balances db' ≡ moved id amount (balances db)) (credited amount now db o)
unfolding balance_of
credited-balances id amount now db none h = tt
credited-balances id amount now db (some a) h =
    fun_ext (λ k.
      balance_in-moved k a.id a (a.balance +ℤ amount) amount now db.accounts
        (found_row id a db.accounts h) refl refl)
    ∙ ap (λ (i : ℕ). moved i amount (balances db)) (found_id id a db.accounts h)

debited-balances :
    (id : ℕ) (amount : ℤ) (now : ℕ) (db : Db) (o : Option Account)
    → find (account_with_id id) db.accounts ≡ o
    → Answers
        (λ _ db'. balances db' ≡ moved id (pos 0 -ℤ amount) (balances db))
        (debited amount now db o)
unfolding balance_of
debited-balances id amount now db none h = tt
debited-balances id amount now db (some a) h = elim (Bool-cases (leb_ℤ amount a.balance)) [
  | inl covered ↦ rw covered (
      fun_ext (λ k.
        balance_in-moved k a.id a (a.balance -ℤ amount) (pos 0 -ℤ amount) now db.accounts
          (found_row id a db.accounts h) refl (omega int_laws))
      ∙ ap (λ (i : ℕ). moved i (pos 0 -ℤ amount) (balances db)) (found_id id a db.accounts h))
  | inr short ↦ rw short tt
]

pub credit_account-balances :
    (id : ℕ) (amount : ℤ) (n t : ℕ) (db : Db)
    → Answers
        (λ _ db'. balances db' ≡ moved id amount (balances db))
        (credit_account id amount n t db)
unfolding credit_account
credit_account-balances id amount n t db =
    credited-balances id amount t db (find (account_with_id id) db.accounts) refl

pub debit_account-balances :
    (id : ℕ) (amount : ℤ) (n t : ℕ) (db : Db)
    → Answers
        (λ _ db'. balances db' ≡ moved id (pos 0 -ℤ amount) (balances db))
        (debit_account id amount n t db)
unfolding debit_account
debit_account-balances id amount n t db =
    debited-balances id amount t db (find (account_with_id id) db.accounts) refl

pub create_transaction-balances :
    (p : CreateTransactionParams) (n t : ℕ) (db : Db)
    → Answers (λ _ db'. balances db' ≡ balances db) (create_transaction p n t db)
unfolding create_transaction balance_of
create_transaction-balances p n t db = search reject_if-Answers

pub create_ledger_entry-balances :
    (p : CreateLedgerEntryParams) (n t : ℕ) (db : Db)
    → Answers (λ _ db'. balances db' ≡ balances db) (create_ledger_entry p n t db)
unfolding create_ledger_entry balance_of
create_ledger_entry-balances p n t db = search reject_if-Answers

deposited-balances :
    (p : AtomicParams) (n t : ℕ) (db : Db) (o : Option Account)
    → find (account_with_id p.account_id) db.accounts ≡ o
    → Answers
        (λ _ db'. balances db' ≡ moved p.account_id p.amount (balances db))
        (deposited n t p db o)
unfolding balance_of
deposited-balances p n t db none h = tt
deposited-balances p n t db (some a) h = fun_ext λ k.
    balance_in-moved k p.account_id a (a.balance +ℤ p.amount) p.amount t db.accounts h
      (found_id p.account_id a db.accounts h) refl

withdrawn-balances :
    (p : AtomicParams) (n t : ℕ) (db : Db) (o : Option Account)
    → find (account_with_id p.account_id) db.accounts ≡ o
    → Answers
        (λ _ db'. balances db' ≡ moved p.account_id (pos 0 -ℤ p.amount) (balances db))
        (withdrawn n t p db o)
unfolding balance_of
withdrawn-balances p n t db none h = tt
withdrawn-balances p n t db (some a) h = fun_ext λ k.
    balance_in-moved k p.account_id a (a.balance -ℤ p.amount) (pos 0 -ℤ p.amount) t db.accounts h
      (found_id p.account_id a db.accounts h) (omega int_laws)

-- All balances after a transfer.
abbrev pub transferred : TransferRequest → (ℕ → ℤ) → ℕ → ℤ
transferred req b =
    moved req.destination_account_id req.amount
      (moved req.source_account_id (pos 0 -ℤ req.amount) b)

balances-Effects : (req : TransferRequest) → Effects balances (transferred req) req
balances-Effects req = record {
  out = moved req.source_account_id (pos 0 -ℤ req.amount);
  inn = moved req.destination_account_id req.amount;
  note_out = λ b. b;
  note_inn = λ b. b;
  debits = debit_account-balances req.source_account_id req.amount;
  credits = credit_account-balances req.destination_account_id req.amount;
  records = create_transaction-balances;
  notes_debit = λ b txn key n t db. create_ledger_entry-balances (debit_entry req b txn key) n t db;
  notes_credit =
      λ b txn key n t db. create_ledger_entry-balances (credit_entry req b txn key) n t db;
  reorder = λ b. fun_ext λ k. swaps (b k) _ _;
  settles = λ b. refl;
}
  where
    swaps : (d x y : ℤ) → d +ℤ y +ℤ x ≡ d +ℤ x +ℤ y
    swaps d x y = omega int_laws

-- The balances that a result stands for.
abbrev pub Moves : {A : Type 0} → Db → ((ℕ → ℤ) → Type 0) → Result A × World → Type 0
Moves db Q (ok _, w) = Q (balances w.committed)
Moves db Q (err _, w) = balances w.committed ≡ balances db

Commits-Moves :
    {A : Type 0} (db : Db) (Q : (ℕ → ℤ) → Type 0) (r : Result A × World)
    → Ends (λ _ w. Q (balances w.committed)) (λ w. balances w.committed ≡ balances db) r
    → Moves db Q r
Commits-Moves db Q r (ends_ok h) = h
Commits-Moves db Q r (ends_err h) = h

-- Let other sessions keep all balances. Then a transfer that succeeds has taken its amount from
-- the source and given it to the destination, every other balance being as before, or has left
-- all balances alone; a deposit or a withdrawal that succeeds has added or taken its amount at
-- its account only; and one that fails has changed no balance.
pub operations-balances :
    (env : Env) (w : World) (t : TransferRequest) (d : MoneyRequest)
    → ((n : ℕ) (db : Db) → balances (env.others n db) ≡ balances db)
    → Moves w.committed
        (λ b. (b ≡ transferred t (balances w.committed)) ⊎ (b ≡ balances w.committed))
        (transfer env t w)
      × Moves w.committed
          (λ b. b ≡ moved d.account_id d.amount (balances w.committed))
          (deposit env d w)
      × Moves w.committed
          (λ b. b ≡ moved d.account_id (pos 0 -ℤ d.amount) (balances w.committed))
          (withdraw env d w)
unfolding deposit_atomic withdraw_atomic
operations-balances env w t d keeps = (
  Commits-Moves w.committed
      (λ b. (b ≡ transferred t (balances w.committed)) ⊎ (b ≡ balances w.committed)) _
      (transfer-Ends env balances (transferred t) t (balances-Effects t) (balances w.committed)
        keeps w refl),
  Commits-Moves w.committed (λ b. b ≡ moved d.account_id d.amount (balances w.committed)) _
      (deposit-Ends env balances d (moved d.account_id d.amount) (balances w.committed) keeps
        (λ n t db.
          deposited-balances (atomic_params d) n t db
            (find (account_with_id d.account_id) db.accounts) refl)
        w refl),
  Commits-Moves w.committed (λ b. b ≡ moved d.account_id (pos 0 -ℤ d.amount) (balances w.committed))
      _
      (withdraw-Ends env balances d (moved d.account_id (pos 0 -ℤ d.amount)) (balances w.committed)
        keeps
        (λ n t db.
          withdrawn-balances (atomic_params d) n t db
            (find (account_with_id d.account_id) db.accounts) refl)
        w refl),
)
