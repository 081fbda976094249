-- ===== src/Wallet/Registered.antt =====
-- GetOrCreateUser of postgre-setup/go/internal/wallet/service.go: the user that it returns is
-- registered.
use playground_ledger.Prelude.{ℕ, ◌≡◌, refl, Option, none, some, ◌∷◌, String, eq_iff, ℤ}
use playground_ledger.Prelude.Table.{find}
use playground_ledger.Db.{Db, User, Account}
use playground_ledger.Store.{Env, World, Query, Result, no_rows, Error, pg, exec, optional_of}
use playground_ledger.Store.Hoare.{
  Ends, ends_ok, ends_err, bind-Ends, Answers, exec-Ends, OnSuccess, on_success,
}
use playground_ledger.Store.Rules.{Commits, commit-Commits, with_tx-Commits, auto-Commits}
use playground_ledger.Queries.Rows.{one_row, account_with_id}
use playground_ledger.Queries.Laws.{reject_if-Answers}
use playground_ledger.Queries.Users.{
  create_user, new_user, get_user_by_external_id, user_with_external_id,
}
use playground_ledger.Queries.Accounts.{create_account, credit_account, credited}
use playground_ledger.Queries.Transactions.{CreateTransactionParams, create_transaction}
use playground_ledger.Queries.Entries.{CreateLedgerEntryParams, create_ledger_entry}
use playground_ledger.Wallet.{
  signup_bonus_amount, open_default_account, create_user_tx, register_user, user_or_new,
  get_or_create_user,
}

-- The row that the external identifier finds.
abbrev pub IsRegistered : String → User → Db → Type 0
IsRegistered external_id u db = find (user_with_external_id external_id) db.users ≡ some u

create_user-IsRegistered :
    (external_id email : String) (n t : ℕ) (db : Db)
    → Answers (IsRegistered external_id) (create_user external_id email n t db)
unfolding create_user find
create_user-IsRegistered external_id email n t db =
    created (rw ((eq_iff external_id external_id).1 refl) refl)
  where
    created :
        IsRegistered external_id
          (new_user n t external_id email)
          (record db { users = new_user n t external_id email ∷ db.users })
        → Answers (IsRegistered external_id) (create_user external_id email n t db)
    created h = search reject_if-Answers

module _ (external_id : String) (u : User) (n t : ℕ) (db : Db)
    (h : IsRegistered external_id u db) where
  create_account-IsRegistered :
      (user_id : ℕ) (currency : String)
      → Answers (λ _. IsRegistered external_id u) (create_account user_id currency n t db)
  unfolding create_account
  create_account-IsRegistered user_id currency = search reject_if-Answers

  credit_account-IsRegistered :
      (id : ℕ) (amount : ℤ)
      → Answers (λ _. IsRegistered external_id u) (credit_account id amount n t db)
  unfolding credit_account
  credit_account-IsRegistered id amount = kept (find (account_with_id id) db.accounts)
    where
      kept :
          (o : Option Account) → Answers (λ _. IsRegistered external_id u) (credited amount t db o)
      kept none = tt
      kept (some a) = h

  create_transaction-IsRegistered :
      (p : CreateTransactionParams)
      → Answers (λ _. IsRegistered external_id u) (create_transaction p n t db)
  unfolding create_transaction
  create_transaction-IsRegistered p = search reject_if-Answers

  create_ledger_entry-IsRegistered :
      (p : CreateLedgerEntryParams)
      → Answers (λ _. IsRegistered external_id u) (create_ledger_entry p n t db)
  unfolding create_ledger_entry
  create_ledger_entry-IsRegistered p = search reject_if-Answers

module _ (env : Env) (signup_key : String → ℕ) (external_id : String)
    (keeps : (n : ℕ) (db : Db) (u : User)
      → IsRegistered external_id u db
      → IsRegistered external_id u (env.others n db)) where
  abbrev Nothing : Db → Type 0
  Nothing db = Unit {0}

  abbrev Mid : User → World → Type 0
  Mid u w = IsRegistered external_id u w.working × Nothing w.committed

  abbrev Anything : World → Type 0
  Anything w = Nothing w.committed

  runs :
      {A : Type 0} (q : Query A) (u : User)
      → ((n t : ℕ) (db : Db)
          → IsRegistered external_id u db
          → Answers (λ _. IsRegistered external_id u) (q n t db))
      → (w : World) → Mid u w
      → Ends (λ _. Mid u) Anything (exec env q w)
  runs q u post w h =
      exec-Ends env (IsRegistered external_id u) Nothing (λ _. IsRegistered external_id u)
        (λ n db. keeps n db u) (λ _ _ x. x) q post w h.0 h.1

  open_default_account-Ends :
      (u : User) (w : World)
      → Mid u w
      → Commits
          (IsRegistered external_id)
          Nothing
          (open_default_account env signup_key external_id u w)
  unfolding open_default_account
  open_default_account-Ends u w h =
      bind-Ends _
        (runs (create_account u.id "USD") u
          (λ n t db r. create_account-IsRegistered external_id u n t db r u.id "USD") w h)
        λ a w1 h1.
          bind-Ends _
            (runs (credit_account a.id signup_bonus_amount) u
              (λ n t db r.
                credit_account-IsRegistered external_id u n t db r a.id signup_bonus_amount)
              w1 h1)
            λ _ w2 h2.
              bind-Ends _
                (runs (create_transaction _) u
                  (λ n t db r. create_transaction-IsRegistered external_id u n t db r _) w2 h2)
                λ txn w3 h3.
                  bind-Ends _
                    (runs (create_ledger_entry _) u
                      (λ n t db r. create_ledger_entry-IsRegistered external_id u n t db r _) w3 h3)
                    λ _ w4 h4.
                      bind-Ends _
                        (commit-Commits env (IsRegistered external_id u) Nothing
                          (λ n db. keeps n db u) (λ _ _ x. x) w4 h4)
                        λ _ w5 h5. ends_ok h5

  register_user-Ends :
      (email : String) (w : World)
      → Commits
          (IsRegistered external_id)
          Nothing
          (register_user env signup_key external_id email w)
  unfolding register_user create_user_tx
  register_user-Ends email w =
      with_tx-Commits env Nothing (IsRegistered external_id) Nothing (λ _ _ x. x)
        (create_user_tx env signup_key external_id email) (λ _ x. x)
        (λ w' a b.
          bind-Ends _
            (exec-Ends env Nothing Nothing (IsRegistered external_id) (λ _ _ x. x) (λ _ _ x. x)
              (create_user external_id email)
              (λ n t db _. create_user-IsRegistered external_id email n t db) w' tt tt)
            (λ u w1 h1. open_default_account-Ends u w1 h1))
        w tt

  abbrev IsKnown : Option User → Db → Type 0
  IsKnown none db = Unit {0}
  IsKnown (some u) db = IsRegistered external_id u db

  optional-IsKnown :
      {r : Result User × World}
      → Commits (IsRegistered external_id) Nothing r
      → Commits IsKnown Nothing (optional_of r)
  optional-IsKnown (ends_ok h) = ends_ok h
  optional-IsKnown (ends_err {e = Error.of_ledger x} h) = ends_err h
  optional-IsKnown (ends_err {e = Error.of_grants x} h) = ends_err h
  optional-IsKnown (ends_err {e = no_rows} h) = ends_ok tt
  optional-IsKnown (ends_err {e = pg x} h) = ends_err h

  found-IsRegistered :
      (o : Option User) (db : Db)
      → find (user_with_external_id external_id) db.users ≡ o
      → Answers (IsRegistered external_id) (one_row o db)
  found-IsRegistered none db e = tt
  found-IsRegistered (some u) db e = e

  user_or_new-Ends :
      (email : String) (known : Option User) (w : World)
      → IsKnown known w.committed
      → Commits
          (IsRegistered external_id)
          Nothing
          (user_or_new env signup_key external_id email known w)
  unfolding user_or_new
  user_or_new-Ends email none w h = register_user-Ends email w
  user_or_new-Ends email (some u) w h = ends_ok h

  get_or_create_user-Ends :
      (email : String) (w : World)
      → Commits
          (IsRegistered external_id)
          Nothing
          (get_or_create_user env signup_key external_id email w)
  unfolding get_or_create_user get_user_by_external_id
  get_or_create_user-Ends email w =
      bind-Ends _
        (optional-IsKnown (
          auto-Commits env Nothing (IsRegistered external_id) Nothing (λ _ _ x. x)
            (get_user_by_external_id external_id) (λ _ x. x)
            (λ n t db _. found-IsRegistered _ db refl) w tt))
        λ known w1 h1. user_or_new-Ends email known w1 h1

-- Let other sessions leave the row of a registered external identifier alone. Then a user that
-- GetOrCreateUser or CreateUser returns is, in what is committed, the row of the external
-- identifier that was asked for.
pub get_or_create_user-IsRegistered :
    (env : Env) (signup_key : String → ℕ) (external_id email : String) (w : World)
    → ((n : ℕ) (db : Db) (u : User)
        → IsRegistered external_id u db
        → IsRegistered external_id u (env.others n db))
    → OnSuccess
        (λ u w'. IsRegistered external_id u w'.committed)
        (get_or_create_user env signup_key external_id email w)
      × OnSuccess
          (λ u w'. IsRegistered external_id u w'.committed)
          (register_user env signup_key external_id email w)
get_or_create_user-IsRegistered env signup_key external_id email w keeps = (
  on_success (λ u w'. IsRegistered external_id u w'.committed) _
      (get_or_create_user-Ends env signup_key external_id keeps email w),
  on_success (λ u w'. IsRegistered external_id u w'.committed) _
      (register_user-Ends env signup_key external_id keeps email w),
)
