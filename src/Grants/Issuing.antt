-- ===== src/Grants/Issuing.antt =====
-- IssueGrant of postgre-setup/go/internal/grants/service.go, and single statements, keep every grant
-- within its bounds.
use playground_ledger.Prelude.{ℕ, Option, none, some}
use playground_ledger.Db.{Db, CreditGrant}
use playground_ledger.Store.{Env, World, Query, auto}
use playground_ledger.Store.Hoare.{Ends, ends_ok, bind-Ends, on_error-Ends, optional-Ends, Answers}
use playground_ledger.Store.Rules.{auto-Commits, fail_if-Ends, Reads-Answers}
use playground_ledger.Queries.Laws.{one_row-Reads}
use playground_ledger.Queries.Accounts.{get_account_by_id}
use playground_ledger.Queries.Grants.{create_grant, get_grant_by_idempotency_key}
use playground_ledger.Grants.{IssueGrantRequest, grant_params, issue_new, issue_grant}
use playground_ledger.Grants.Bounds.{IsSound, create_grant-IsSound}

module _ (env : Env) (keeps : (n : ℕ) (db : Db) → IsSound db → IsSound (env.others n db)) where
  abbrev Safe : World → Type 0
  Safe w = IsSound w.committed

  pub alone :
      {A : Type 0} (q : Query A)
      → ((n t : ℕ) (db : Db) → IsSound db → Answers (λ _. IsSound) (q n t db))
      → (w : World) → Safe w
      → Ends (λ _. Safe) Safe (auto env q w)
  alone q post w h = auto-Commits env IsSound (λ _. IsSound) IsSound keeps q (λ db s. s) post w h

  pub issue_grant-Ends :
      (req : IssueGrantRequest) (w : World) → Safe w → Ends (λ _. Safe) Safe (issue_grant env req w)
  unfolding issue_grant get_grant_by_idempotency_key issue_new get_account_by_id
  issue_grant-Ends req w h = bind-Ends _ (fail_if-Ends {P = Safe} _ _ w h) λ _ w1 h1.
      bind-Ends _
        (optional-Ends (
          alone (get_grant_by_idempotency_key req.idempotency_key)
            (λ n t db s. Reads-Answers IsSound _ db s (one_row-Reads _ db)) w1 h1))
        λ known w2 h2. new known w2 h2
    where
      new :
          (known : Option CreditGrant) (w : World)
          → Safe w
          → Ends (λ _. Safe) Safe (issue_new env req known w)
      new (some g) w h = ends_ok h
      new none w h =
          bind-Ends _
            (on_error-Ends _ (
              alone (get_account_by_id req.account_id)
                (λ n t db s. Reads-Answers IsSound _ db s (one_row-Reads _ db)) w h))
            λ _ w1 h1.
              alone (create_grant (grant_params req)) (create_grant-IsSound (grant_params req)) w1
                h1
