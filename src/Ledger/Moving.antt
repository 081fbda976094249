-- ===== src/Ledger/Moving.antt =====
-- The statements of a transfer of postgre-setup/go/internal/ledger/service.go that find the rows they
-- need: both accounts, enough money at the source, and no transaction with the key.
use playground_ledger.Prelude.{
  ℕ, ◌==◌, ==_iff, ◌≡◌, refl, ap, ◌∙◌, Bool-cases, inl, inr, true, false, none, some, ℤ, pos, ◌-ℤ◌,
  leb_ℤ, String, if◌then◌else◌,
}
use playground_ledger.Prelude.Table.{find, replace, find-replace_key, any_of_find, any_of_none}
use playground_ledger.Db.{Db, Account, Transaction}
use playground_ledger.Store.{Result}
use playground_ledger.Store.Hoare.{Answers}
use playground_ledger.Store.Live.{Replies, replies}
use playground_ledger.Queries.Rows.{account_with_id}
use playground_ledger.Queries.Laws.{found_id, found_row}
use playground_ledger.Queries.Accounts.{
  credit_account, debit_account, get_account_by_id, with_balance,
}
use playground_ledger.Queries.Transactions.{create_transaction, txn_with_key}
use playground_ledger.Queries.Entries.{CreateLedgerEntryParams, create_ledger_entry}
use playground_ledger.Ledger.{TransferRequest, transfer_params}
use playground_ledger.Ledger.Balances.{
  balances, moved, credit_account-balances, debit_account-balances, create_transaction-balances,
  create_ledger_entry-balances,
}

-- The table has an account with the identifier.
abbrev pub Finds : ℕ → Db → Type 0
Finds k db = (a : Account) × (find (account_with_id k) db.accounts ≡ some a)

-- Nothing bears the key.
abbrev pub IsFree : ℕ → Db → Type 0
IsFree key db = find (txn_with_key key) db.transactions ≡ none

abbrev put : Account → Db → Db
put a db = record db { accounts = replace (account_with_id a.id) a db.accounts }

-- What an answer is, with what becomes of the balances.
and_balances :
    {A : Type 0} {P : A → Db → Type 0} {r : Result (A × Db)} (f : (ℕ → ℤ) → ℕ → ℤ) (b : ℕ → ℤ)
    (db : Db)
    → Answers (λ _ db'. balances db' ≡ f (balances db)) r
    → balances db ≡ b
    → Replies P r
    → Replies (λ a db'. P a db' × (balances db' ≡ f b)) r
and_balances f b db says eq (replies p) = replies (p, says ∙ ap f eq)

-- A row that is there is read.
pub get_account_by_id-Replies :
    {P : Account → Db → Type 0} (id n t : ℕ) (db : Db) (a : Account)
    → find (account_with_id id) db.accounts ≡ some a
    → P a db
    → Replies P (get_account_by_id id n t db)
unfolding get_account_by_id
get_account_by_id-Replies id n t db a is_a p = rw is_a (replies p)

-- The row of a has another balance.
module _ (a : Account) (balance : ℤ) (now : ℕ) (db : Db)
    (h : find (account_with_id a.id) db.accounts ≡ some a) where
  put-found :
      (j : ℕ)
      → find (account_with_id j) (put (with_balance a balance now) db).accounts ≡ (
          if a.id == j
          then some (with_balance a balance now)
          else find (account_with_id j) db.accounts)
  put-found j = find-replace_key (λ (y : Account). y.id) j a.id _ db.accounts a h refl

  put-Finds : (j : ℕ) → Finds j db → Finds j (put (with_balance a balance now) db)
  put-Finds j (x, e) = elim (Bool-cases (a.id == j)) [
    | inl hit ↦ (with_balance a balance now, put-found j ∙ rw hit refl)
    | inr miss ↦ (x, put-found j ∙ rw miss e)
  ]

  put-keeps :
      (j : ℕ) (x : Account)
      → (a.id == j) ≡ false
      → find (account_with_id j) db.accounts ≡ some x
      → find (account_with_id j) (put (with_balance a balance now) db).accounts ≡ some x
  put-keeps j x miss e = put-found j ∙ rw miss e

-- The statements of one transfer.
module _ (req : TransferRequest) where
  abbrev pub OwnsBoth : Db → Type 0
  OwnsBoth db =
      Finds req.source_account_id db
      × Finds req.destination_account_id db
      × IsFree req.idempotency_key db

  -- Before the source's row is updated: the row s that was read stands.
  abbrev pub Stands : Account → Db → Type 0
  Stands s db = (find (account_with_id req.source_account_id) db.accounts ≡ some s) × OwnsBoth db

  -- Once the transaction is written.
  abbrev pub IsWritten : Transaction → Db → Type 0
  IsWritten txn db =
      Finds req.source_account_id db
      × Finds req.destination_account_id db
      × (find (txn_with_key req.idempotency_key) db.transactions ≡ some txn)

  -- Both accounts as they are read, before anything is written.
  abbrev pub Waits : Account → Account → (ℕ → ℤ) → Db → Type 0
  Waits s d b db =
      (find (account_with_id req.destination_account_id) db.accounts ≡ some d)
      × Stands s db
      × (balances db ≡ b)

  -- What a transfer leaves behind.
  abbrev pub IsMade : (ℕ → ℤ) → Transaction → Db → Type 0
  IsMade b txn db =
      (find (txn_with_key req.idempotency_key) db.transactions ≡ some txn) × (balances db ≡ b)

  abbrev pub given : (ℕ → ℤ) → ℕ → ℤ
  given b = moved req.destination_account_id req.amount b

  abbrev pub taken : (ℕ → ℤ) → ℕ → ℤ
  taken b = moved req.source_account_id (pos 0 -ℤ req.amount) b

  module _ (b : ℕ → ℤ) (n t : ℕ) (db : Db) (eq : balances db ≡ b) where
    pub credit_account-OwnsBoth :
        OwnsBoth db
        → Replies
            (λ _ db'. OwnsBoth db' × (balances db' ≡ given b))
            (credit_account req.destination_account_id req.amount n t db)
    unfolding credit_account
    credit_account-OwnsBoth (src, (d, is_d), free) =
        let id = req.destination_account_id in
        let at_d = found_row id d db.accounts is_d in
        and_balances given b db (credit_account-balances id req.amount n t db) eq (
          rw is_d
            (replies (put-Finds d _ t db at_d _ src, put-Finds d _ t db at_d _ (d, is_d), free)))

    -- The row that is written is found by its key.
    pub create_transaction-IsWritten :
        (currency : String)
        → OwnsBoth db
        → Replies
            (λ txn db'. IsWritten txn db' × (balances db' ≡ b))
            (create_transaction (transfer_params req currency) n t db)
    unfolding create_transaction find
    create_transaction-IsWritten currency ((x, src), (d, dst), free) =
        and_balances (λ c. c) b db
          (create_transaction-balances (transfer_params req currency) n t db) eq
          (rw
            (
              any_of_none (txn_with_key req.idempotency_key) db.transactions free,
              any_of_find (λ (y : Account). y.id) req.source_account_id db.accounts x src,
              any_of_find (λ (y : Account). y.id) req.destination_account_id db.accounts d dst,
            )
            (replies (
              (x, src),
              (d, dst),
              rw ((==_iff req.idempotency_key req.idempotency_key).1 refl) refl,
            )))

    pub create_ledger_entry-IsWritten :
        (p : CreateLedgerEntryParams) (txn : Transaction)
        → Finds p.account_id db
        → IsWritten txn db
        → Replies (λ _ db'. IsWritten txn db' × (balances db' ≡ b)) (create_ledger_entry p n t db)
    unfolding create_ledger_entry
    create_ledger_entry-IsWritten p txn (x, is_x) written =
        and_balances (λ c. c) b db (create_ledger_entry-balances p n t db) eq
          (rw (any_of_find (λ (y : Account). y.id) p.account_id db.accounts x is_x)
            (replies written))

    module _ (s : Account) where
      pub credit_account-Stands :
          (req.destination_account_id == req.source_account_id) ≡ false
          → Stands s db
          → Replies
              (λ _ db'. Stands s db' × (balances db' ≡ given b))
              (credit_account req.destination_account_id req.amount n t db)
      unfolding credit_account
      credit_account-Stands other (is_s, (src, (d, is_d), free)) =
          let id = req.destination_account_id in
          let at_d = found_row id d db.accounts is_d in
          and_balances given b db (credit_account-balances id req.amount n t db) eq (
            rw is_d (
              replies (
                put-keeps d _ t db at_d _ s (rw (found_id id d db.accounts is_d) other) is_s,
                (put-Finds d _ t db at_d _ src, put-Finds d _ t db at_d _ (d, is_d), free),
              )))

      pub debit_account-OwnsBoth :
          leb_ℤ req.amount s.balance ≡ true
          → Stands s db
          → Replies
              (λ _ db'. OwnsBoth db' × (balances db' ≡ taken b))
              (debit_account req.source_account_id req.amount n t db)
      unfolding debit_account
      debit_account-OwnsBoth covered (is_s, (src, dst, free)) =
          let id = req.source_account_id in
          let at_s = found_row id s db.accounts is_s in
          and_balances taken b db (debit_account-balances id req.amount n t db) eq (
            rw (is_s, covered)
              (replies (put-Finds s _ t db at_s _ src, put-Finds s _ t db at_s _ dst, free)))
