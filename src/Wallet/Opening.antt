-- ===== src/Wallet/Opening.antt =====
-- CreateUser and GetOrCreateUser of postgre-setup/go/internal/wallet/service.go: what they do to a
-- measure of the tables, from what their statements do to it.
use playground_ledger.Prelude.{ℕ, ◌≡◌, ◌⊎◌, inl, inr, subst, ◌∙◌, none, some, Option, String}
use playground_ledger.Db.{Db, User}
use playground_ledger.Store.{Env, World, Query, Result, exec}
use playground_ledger.Store.Hoare.{
  Ends, ends_ok, ends_err, bind-Ends, Answers, exec-Ends, optional-Ends,
}
use playground_ledger.Store.Rules.{
  Commits, Reads-Answers, commit-Commits, with_tx-Commits, auto-Commits,
}
use playground_ledger.Queries.Laws.{one_row-Reads}
use playground_ledger.Queries.Users.{create_user, get_user_by_external_id}
use playground_ledger.Queries.Accounts.{create_account, credit_account}
use playground_ledger.Queries.Transactions.{CreateTransactionParams, create_transaction}
use playground_ledger.Queries.Entries.{create_ledger_entry}
use playground_ledger.Wallet.{
  signup_bonus_amount, bonus_entry, open_default_account, create_user_tx, register_user,
  user_or_new, get_or_create_user,
}

-- What the statements of a signup do to a measure, and what comes of it, with the account that is
-- opened.
pub record SignupEffects {V : Type 0} (m : Db → V) (after : V → V) : Type 0 where
  pub gain : ℕ → V → V
  pub note : ℕ → V → V
  pub users :
      (external_id email : String) (n t : ℕ) (db : Db)
      → Answers (λ _ db'. m db' ≡ m db) (create_user external_id email n t db)
  pub opens :
      (user_id n t : ℕ) (db : Db)
      → Answers (λ _ db'. m db' ≡ m db) (create_account user_id "USD" n t db)
  pub credits :
      (id n t : ℕ) (db : Db)
      → Answers (λ _ db'. m db' ≡ gain id (m db)) (credit_account id signup_bonus_amount n t db)
  pub records :
      (p : CreateTransactionParams) (n t : ℕ) (db : Db)
      → Answers (λ _ db'. m db' ≡ m db) (create_transaction p n t db)
  pub notes :
      (id txn key n t : ℕ) (db : Db)
      → Answers
          (λ _ db'. m db' ≡ note id (m db))
          (create_ledger_entry (bonus_entry id txn key) n t db)
  pub settles : (id : ℕ) (v : V) → note id (gain id v) ≡ after v

module _ (env : Env) (signup_key : String → ℕ) {V : Type 0} (m : Db → V) (after : V → V)
    (eff : SignupEffects m after) (c : V)
    (keeps : (n : ℕ) (db : Db) → m (env.others n db) ≡ m db) where
  open eff use {gain, note}

  abbrev Is : V → Db → Type 0
  Is d db = m db ≡ d

  abbrev Mid : V → World → Type 0
  Mid d w = Is d w.working × Is c w.committed

  keeps_Is : (d : V) (n : ℕ) (db : Db) → Is d db → Is d (env.others n db)
  keeps_Is d n db h = keeps n db ∙ h

  adds :
      {A : Type 0} (q : Query A) (f : V → V) (d : V)
      → ((n t : ℕ) (db : Db) → Answers (λ _ db'. m db' ≡ f (m db)) (q n t db))
      → (w : World) → Mid d w
      → Ends (λ _. Mid (f d)) (λ w. Is c w.committed) (exec env q w)
  adds q f d post w h =
      exec-Ends env (Is d) (Is c) (λ _. Is (f d)) (keeps_Is d) (keeps_Is c) q
        (λ n t db e. subst (λ (x : V). Answers (λ _ db'. m db' ≡ f x) (q n t db)) e (post n t db)) w
        h.0 h.1

  open_default_account-Ends :
      (external_id : String) (user : User) (w : World)
      → Mid c w
      → Commits (λ _. Is (after c)) (Is c) (open_default_account env signup_key external_id user w)
  unfolding open_default_account
  open_default_account-Ends external_id user w h =
      bind-Ends _ (adds _ (λ x. x) c (eff.opens user.id) w h) λ a w1 h1.
        bind-Ends _ (adds _ (gain a.id) c (eff.credits a.id) w1 h1) λ _ w2 h2.
          bind-Ends _ (adds _ (λ x. x) (gain a.id c) (eff.records _) w2 h2) λ txn w3 h3.
            bind-Ends _ (adds _ (note a.id) (gain a.id c) (eff.notes a.id txn.id _) w3 h3)
              λ _ w4 h4.
                bind-Ends _
                  (commit-Commits env (Is (after c)) (Is c) (keeps_Is (after c)) (keeps_Is c) w4
                    (h4.0 ∙ eff.settles a.id c, h4.1))
                  λ _ w5 h5. ends_ok h5

  pub register_user-Ends :
      (external_id email : String) (w : World)
      → Is c w.committed
      → Commits (λ _. Is (after c)) (Is c) (register_user env signup_key external_id email w)
  unfolding register_user create_user_tx
  register_user-Ends external_id email w h =
      with_tx-Commits env (Is c) (λ _. Is (after c)) (Is c) (keeps_Is c)
        (create_user_tx env signup_key external_id email) (λ db e. e)
        (λ w' a b.
          bind-Ends _ (adds _ (λ x. x) c (eff.users external_id email) w' (a, b))
            (λ user w1 h1. open_default_account-Ends external_id user w1 h1))
        w h

  either :
      {A : Type 0} {r : Result A × World}
      → Commits (λ _. Is (after c)) (Is c) r
      → Commits (λ _ db. Is (after c) db ⊎ Is c db) (Is c) r
  either (ends_ok h) = ends_ok (inl h)
  either (ends_err h) = ends_err h

  user_or_new-Ends :
      (external_id email : String) (known : Option User) (w : World)
      → Is c w.committed
      → Commits
          (λ _ db. Is (after c) db ⊎ Is c db)
          (Is c)
          (user_or_new env signup_key external_id email known w)
  unfolding user_or_new
  user_or_new-Ends external_id email none w h = either (register_user-Ends external_id email w h)
  user_or_new-Ends external_id email (some u) w h = ends_ok (inr h)

  -- A user is made, or was there.
  pub get_or_create_user-Ends :
      (external_id email : String) (w : World)
      → Is c w.committed
      → Commits
          (λ _ db. Is (after c) db ⊎ Is c db)
          (Is c)
          (get_or_create_user env signup_key external_id email w)
  unfolding get_or_create_user get_user_by_external_id
  get_or_create_user-Ends external_id email w h =
      bind-Ends _
        (optional-Ends {S = λ w'. Is c w'.committed} (
          auto-Commits env (Is c) (λ _. Is c) (Is c) (keeps_Is c)
            (get_user_by_external_id external_id) (λ _ e. e)
            (λ n t db e. Reads-Answers (Is c) _ db e (one_row-Reads _ db)) w h))
        λ known w1 h1. user_or_new-Ends external_id email known w1 h1
