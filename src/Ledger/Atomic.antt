-- ===== src/Ledger/Atomic.antt =====
-- Deposit and Withdraw of postgre-setup/go/internal/ledger/service.go: each is one statement, so
-- a measure of the tables moves as that statement moves it, or not at all.
use playground_ledger.Prelude.{ℕ, ◌≡◌, ◌∙◌, subst}
use playground_ledger.Db.{Db, Transaction}
use playground_ledger.Store.{Env, World, Query, Result, of_ledger, of_grants, no_rows, pg, auto}
use playground_ledger.Store.Hoare.{Ends, ends_ok, ends_err, bind-Ends, Answers}
use playground_ledger.Store.Rules.{Commits, auto-Commits, fail_if-Ends}
use playground_ledger.Queries.Transactions.{AtomicRow, deposit_atomic, withdraw_atomic}
use playground_ledger.Ledger.{
  MoneyRequest, atomic_params, atomic_error, deposit, withdraw, in_flight, leave,
}

atomic_error-Ends :
    {A : Type 0} {Q : A → World → Type 0} {E : World → Type 0} {r : Result A × World}
    → Ends Q E r
    → Ends Q E (atomic_error r)
atomic_error-Ends (ends_ok h) = ends_ok h
atomic_error-Ends (ends_err {e = no_rows} h) = ends_err h
atomic_error-Ends (ends_err {e = of_ledger x} h) = ends_err h
atomic_error-Ends (ends_err {e = of_grants x} h) = ends_err h
atomic_error-Ends (ends_err {e = pg x} h) = ends_err h

module _ (env : Env) {V : Type 0} (m : Db → V) (req : MoneyRequest) (f : V → V) (c : V)
    (keeps : (n : ℕ) (db : Db) → m (env.others n db) ≡ m db) where
  abbrev Is : V → Db → Type 0
  Is d db = m db ≡ d

  moves :
      (q : Query AtomicRow)
      → ((n t : ℕ) (db : Db) → Answers (λ _ db'. m db' ≡ f (m db)) (q n t db))
      → (w : World) → m w.committed ≡ c
      → Commits (λ _. Is (f c)) (Is c) (auto env q w)
  moves q post w h =
      auto-Commits env (Is c) (λ _. Is (f c)) (Is c) (λ n db e. keeps n db ∙ e) q (λ db e. e)
        (λ n t db e. subst (λ (x : V). Answers (λ _ db'. m db' ≡ f x) (q n t db)) e (post n t db)) w
        h

  leave-Ends :
      (r : Result Transaction × World)
      → Commits (λ _. Is (f c)) (Is c) r
      → Commits (λ _. Is (f c)) (Is c) (leave r)
  leave-Ends r (ends_ok h) = ends_ok h
  leave-Ends r (ends_err h) = ends_err h

  pub deposit-Ends :
      ((n t : ℕ) (db : Db)
        → Answers (λ _ db'. m db' ≡ f (m db)) (deposit_atomic (atomic_params req) n t db))
      → (w : World) → m w.committed ≡ c
      → Commits (λ _. Is (f c)) (Is c) (deposit env req w)
  unfolding deposit in_flight
  deposit-Ends post w h = leave-Ends _ (
      bind-Ends _ (fail_if-Ends {P = λ w. Is c w.committed} _ _ _ h) λ _ w1 h1.
        bind-Ends _ (atomic_error-Ends (moves (deposit_atomic (atomic_params req)) post w1 h1))
          λ row w2 h2. ends_ok h2)

  pub withdraw-Ends :
      ((n t : ℕ) (db : Db)
        → Answers (λ _ db'. m db' ≡ f (m db)) (withdraw_atomic (atomic_params req) n t db))
      → (w : World) → m w.committed ≡ c
      → Commits (λ _. Is (f c)) (Is c) (withdraw env req w)
  unfolding withdraw in_flight
  withdraw-Ends post w h = leave-Ends _ (
      bind-Ends _ (fail_if-Ends {P = λ w. Is c w.committed} _ _ _ h) λ _ w1 h1.
        bind-Ends _ (atomic_error-Ends (moves (withdraw_atomic (atomic_params req)) post w1 h1))
          λ row w2 h2. ends_ok h2)
