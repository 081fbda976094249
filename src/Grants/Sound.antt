-- ===== src/Grants/Sound.antt =====
-- The operations of postgre-setup/go/internal/grants/service.go keep every grant within its bounds,
-- and a drawdown takes no more than was asked for.
use playground_ledger.Prelude.{ℕ, ◌≡◌, sym, subst, All, List, String, ℤ, ◌-ℤ◌, ◌≤ℤ◌}
use playground_ledger.Db.{Db, CreditGrant}
use playground_ledger.Store.{Env, World, Result, ok, err}
use playground_ledger.Store.Hoare.{Ends, ends_ok, ends_err, OnSuccess, on_success}
use playground_ledger.Store.Rules.{Commits, committed_of}
use playground_ledger.Queries.Grants.{expire_active_grants}
use playground_ledger.Grants.{
  DrawdownResult, IssueGrantRequest, draw_down, waterfall_debit, issue_grant, expire_grants,
}
use playground_ledger.Grants.Bounds.{IsWithin, IsSound, expire_active_grants-IsSound}
use playground_ledger.Grants.Held.{held}
use playground_ledger.Grants.Drawn.{drawn_of, draw_down-Drawn}
use playground_ledger.Grants.Drawing.{drawn_sum, draw_down-Ends}
use playground_ledger.Grants.Spending.{waterfall_debit-Ends}
use playground_ledger.Grants.Issuing.{issue_grant-Ends, alone}

-- Let other sessions keep every grant's remaining amount between 0 and what it was issued with.
-- Then what IssueGrant, Drawdown, WaterfallDebit and ExpireGrants leave committed does so too,
-- whatever the request, the errors that the server reports and the interleaving.
pub operations-IsSound :
    (env : Env) (w : World) (req : IssueGrantRequest) (account_id : ℕ) (amount : ℤ) (key : ℕ)
    (description : String)
    → ((n : ℕ) (db : Db) → IsSound db → IsSound (env.others n db))
    → IsSound w.committed
    → IsSound (issue_grant env req w).1.committed
      × IsSound (draw_down env account_id amount key w).1.committed
      × IsSound (waterfall_debit env account_id amount key description w).1.committed
      × IsSound (expire_grants env w).1.committed
unfolding expire_grants
operations-IsSound env w req account_id amount key description keeps h = (
  committed_of IsSound _ (issue_grant-Ends env keeps req w h),
  committed_of IsSound _ (forget (draw_down-Ends env keeps account_id amount key w h)),
  committed_of IsSound _ (waterfall_debit-Ends env keeps account_id amount key description w h),
  committed_of IsSound _ (alone env keeps expire_active_grants expire_active_grants-IsSound w h),
)
  where
    forget :
        {A : Type 0} {P : A → Type 0} {r : Result A × World}
        → Commits (λ a db. P a × IsSound db) IsSound r
        → Commits (λ _. IsSound) IsSound r
    forget (ends_ok p) = ends_ok p.1
    forget (ends_err e) = ends_err e

-- Let grants be within their bounds and other sessions leave the grants alone. Then a drawdown that
-- succeeds reports at most the amount that was asked for, and each grant, whatever its state, has
-- lost in what is committed exactly what is reported of it: nothing, if nothing is.
pub draw_down-within :
    (env : Env) (w : World) (account_id : ℕ) (amount : ℤ) (key : ℕ)
    → ((n : ℕ) (db : Db) → (env.others n db).grants ≡ db.grants)
    → IsSound w.committed
    → OnSuccess
        (λ rs w'.
          (drawn_sum rs ≤ℤ amount)
          × ((k : ℕ) → held k w'.committed.grants ≡ held k w.committed.grants -ℤ drawn_of k rs))
        (draw_down env account_id amount key w)
draw_down-within env w account_id amount key same h =
    both (λ rs _. drawn_sum rs ≤ℤ amount)
      (λ k rs w'. held k w'.committed.grants ≡ held k w.committed.grants -ℤ drawn_of k rs) _
      (on_success (λ rs _. drawn_sum rs ≤ℤ amount) _
        (value_of (
          draw_down-Ends env
            (λ n db s. subst (λ (gs : List CreditGrant). All IsWithin gs) (sym (same n db)) s)
            account_id amount key w h)))
      (λ k. draw_down-Drawn env same k account_id amount key w)
  where
    value_of :
        {r : Result (List DrawdownResult) × World}
        → Commits (λ rs db. (drawn_sum rs ≤ℤ amount) × IsSound db) IsSound r
        → Ends (λ rs _. drawn_sum rs ≤ℤ amount) (λ w. IsSound w.committed) r
    value_of (ends_ok p) = ends_ok p.0
    value_of (ends_err e) = ends_err e

    both :
        (P : List DrawdownResult → World → Type 0) (Q : ℕ → List DrawdownResult → World → Type 0)
        (r : Result (List DrawdownResult) × World)
        → OnSuccess P r
        → ((k : ℕ) → OnSuccess (Q k) r)
        → OnSuccess (λ rs w'. P rs w' × ((k : ℕ) → Q k rs w')) r
    both P Q (ok rs, w') p q = (p, q)
    both P Q (err e, w') p q = tt
