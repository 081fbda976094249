-- ===== src/Wallet/Drift.antt =====
-- CreateUser and GetOrCreateUser of postgre-setup/go/internal/wallet/service.go: the new account is
-- reconciled with its entries.
use playground_ledger.Prelude.{
  ℕ, ◌==◌, ==_iff, ◌≡◌, ◌⊎◌, refl, ap, subst, Bool-cases, inl, inr, false, not, none, List, ◌∷◌,
  sym, String, ℤ, pos, ◌+ℤ◌, ◌-ℤ◌, int_laws,
}
use playground_ledger.Prelude.Table.{any, find, none_of_any}
use playground_ledger.Db.{Db, Account}
use playground_ledger.Store.{Env, World, Result, ok, PgError}
use playground_ledger.Store.Hoare.{ends_ok, ends_err, Answers}
use playground_ledger.Store.Rules.{Commits}
use playground_ledger.Queries.Rows.{account_with_id, user_with_id, reject_if}
use playground_ledger.Queries.Laws.{reject_if-Answers}
use playground_ledger.Queries.Users.{create_user}
use playground_ledger.Queries.Accounts.{create_account, new_account, owned}
use playground_ledger.Queries.Reconcile.{ledger_balance}
use playground_ledger.Ledger.Drift.{
  drift, balance_of, at, balance_in, credit_account-drift, create_transaction-drift,
  create_ledger_entry-drift,
}
use playground_ledger.Wallet.{signup_bonus_amount, bonus_entry, get_or_create_user}
use playground_ledger.Wallet.Opening.{SignupEffects, get_or_create_user-Ends}

module _ (k : ℕ) where
  create_user-drift :
      (external_id email : String) (n t : ℕ) (db : Db)
      → Answers (λ _ db'. drift k db' ≡ drift k db) (create_user external_id email n t db)
  unfolding create_user drift balance_of
  create_user-drift external_id email n t db = search reject_if-Answers

  -- An empty account in front, where there was none.
  balance_in-empty :
      (a : Account) (accounts : List Account)
      → a.balance ≡ pos 0
      → any (account_with_id a.id) accounts ≡ false
      → balance_in (find (account_with_id k) (a ∷ accounts))
        ≡ balance_in (find (account_with_id k) accounts)
  unfolding find
  balance_in-empty a accounts empty free = elim (Bool-cases (a.id == k)) [
    | inl hit ↦
        rw (hit, empty)
          (sym (
            ap balance_in (
              subst (λ (i : ℕ). find (account_with_id i) accounts ≡ none) ((==_iff a.id k).0 hit)
                (none_of_any (account_with_id a.id) accounts free))))
    | inr miss ↦ rw miss refl
  ]

  -- A new account is empty, and its identifier had no account before.
  create_account-drift :
      (user_id : ℕ) (currency : String) (n t : ℕ) (db : Db)
      → Answers (λ _ db'. drift k db' ≡ drift k db) (create_account user_id currency n t db)
  unfolding create_account drift balance_of
  create_account-drift user_id currency n t db =
      elim (Bool-cases (any (account_with_id n) db.accounts)) [
        | inl taken ↦ rw taken tt
        | inr free ↦
            let a = new_account n t user_id currency in
            rw free (
              opened (
                ap (λ b. b -ℤ ledger_balance k db.entries)
                  (balance_in-empty a db.accounts refl free)))
      ]
    where
      opened :
          drift k (record db { accounts = new_account n t user_id currency ∷ db.accounts })
            ≡ drift k db
          → Answers
              (λ _ db'. drift k db' ≡ drift k db)
              (reject_if (any (owned user_id currency) db.accounts) PgError.unique_violation (
                reject_if
                  (not (any (user_with_id user_id) db.users))
                  PgError.foreign_key_violation
                  (ok (
                    new_account n t user_id currency,
                    record db { accounts = new_account n t user_id currency ∷ db.accounts },
                  ))))
      opened h = search reject_if-Answers

  signup-drift : SignupEffects (drift k) (λ d. d)
  signup-drift = record {
    gain = λ id d. d +ℤ at k id signup_bonus_amount;
    note = λ id d. d -ℤ at k id signup_bonus_amount;
    users = create_user-drift;
    opens = λ user_id. create_account-drift user_id "USD";
    credits = λ id. credit_account-drift k id signup_bonus_amount;
    records = create_transaction-drift k;
    notes = λ id txn key. create_ledger_entry-drift k (bonus_entry id txn key);
    settles = λ id v. omega int_laws;
  }

  pub get_or_create_user-drift :
      (env : Env) (signup_key : String → ℕ) (external_id email : String) (w : World)
      → ((n : ℕ) (db : Db) → drift k (env.others n db) ≡ drift k db)
      → drift k (get_or_create_user env signup_key external_id email w).1.committed
        ≡ drift k w.committed
  get_or_create_user-drift env signup_key external_id email w keeps = unmoved (
      get_or_create_user-Ends env signup_key (drift k) (λ d. d) signup-drift (drift k w.committed)
        keeps external_id email w refl)
    where
      unmoved :
          {A : Type 0} {r : Result A × World} {c : ℤ}
          → Commits (λ _ db. (drift k db ≡ c) ⊎ (drift k db ≡ c)) (λ db. drift k db ≡ c) r
          → drift k r.1.committed ≡ c
      unmoved (ends_ok (inl h)) = h
      unmoved (ends_ok (inr h)) = h
      unmoved (ends_err h) = h
