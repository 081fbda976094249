-- ===== src/Client/Server/Report.antt =====
-- scenario3 of postgre-setup/go/cmd/stress/verify.go over Reconcile of
-- postgre-setup/go/internal/api/handlers/admin.go.
use playground_ledger.Prelude.{
  ℕ, suc, ◌==◌, ◌≡◌, ◌↔◌, refl, sym, ◌∙◌, arith, Bool, true, false, none, some, List, [], ◌∷◌, All,
  length, pos,
}
use playground_ledger.Prelude.Sort.{window}
use playground_ledger.Prelude.Table.{find}
use playground_ledger.Db.{Db}
use playground_ledger.Store.{Env, World, ok, err, auto, arrive, settle, publish}
use playground_ledger.Store.Rules.{exec-settle}
use playground_ledger.Queries.Rows.{Answer, account_with_id}
use playground_ledger.Queries.Reconcile.{ReconcileRow, reconcile}
use playground_ledger.Ledger.Drift.{drift}
use playground_ledger.Ledger.Report.{reconcile-drift}
use playground_ledger.Handlers.{Printers, Parsers, answer_of}
use playground_ledger.Handlers.Wallet.{internal}
use playground_ledger.Handlers.Admin.{
  reconcile_handler, reconcile_query, reconcile_reply, positive_or,
}
use playground_ledger.Handlers.Input.{atoi}
use playground_ledger.Client.Verify.{scenario3, judge_reconcile}
use playground_ledger.Client.Server.{Codec, server, fetched_report}

-- Whether an answer has no rows.
abbrev is_clean : Answer (List ReconcileRow) → Bool
is_clean (ok (rows, db)) = length rows == 0
is_clean (err e) = false

report_verdict :
    (env : Env) (print : Printers) (w : World) (r : Answer (List ReconcileRow))
    → (judge_reconcile (
        fetched_report (
          answer_of 200
            (internal "query failed")
            (reconcile_reply print)
            (publish env (settle env w r))))).0.passed
      ≡ is_clean r
report_verdict env print w (ok (rows, db)) = refl
report_verdict env print w (err e) = refl

no_rows_left :
    (rows : List ReconcileRow) (db : Db)
    → ((length rows == 0) ≡ true)
      ↔ ◌≡◌ {A = Answer (List ReconcileRow)} (ok (rows, db)) (ok ([], db))
no_rows_left [] db = (λ _. refl, λ _. refl)
no_rows_left (x ∷ rows) db = (λ h. ground arith, λ h. cc)

clean_reconcile :
    (n t : ℕ) (db : Db)
    → (is_clean (reconcile (pos 100) n t db) ≡ true) ↔ (reconcile (pos 100) n t db ≡ ok ([], db))
unfolding reconcile window
clean_reconcile n t db = no_rows_left _ db

-- The scenario sends one statement, over all accounts, for at most a hundred rows.
scenario3_clean :
    (env : Env) (parse : Parsers) (print : Printers) (codec : Codec) (fresh : ℕ → ℕ) (w : World)
    → env.fault w.tick ≡ none
    → ((n : ℕ) (db : Db) → env.others n db ≡ db)
    → (scenario3 (server env parse print codec fresh) w).0.passed
      ≡ is_clean (reconcile (pos 100) (env.new_uuid w.tick) (env.now w.tick) w.committed)
unfolding scenario3 reconcile_handler reconcile_query positive_or atoi auto arrive
scenario3_clean env parse print codec fresh w healthy alone =
    rw
      (
        exec-settle env (reconcile_query none (pos 100)) (record w { working = w.committed })
            healthy,
        alone w.tick w.committed,
      )
      (report_verdict env print (record w { working = w.committed; tick = suc w.tick })
        (reconcile (pos 100) (env.new_uuid w.tick) (env.now w.tick) w.committed))

-- Let no statement fail, no other session be at work, and each account be the first with its
-- identifier. Then scenario 3 passes exactly if every account's balance is the sum of its ledger
-- entries.
pub scenario3-drift :
    (env : Env) (parse : Parsers) (print : Printers) (codec : Codec) (fresh : ℕ → ℕ) (w : World)
    → ((n : ℕ) → env.fault n ≡ none)
    → ((n : ℕ) (db : Db) → env.others n db ≡ db)
    → All (λ a. find (account_with_id a.id) w.committed.accounts ≡ some a) w.committed.accounts
    → ((scenario3 (server env parse print codec fresh) w).0.passed ≡ true)
      ↔ All (λ a. drift a.id w.committed ≡ pos 0) w.committed.accounts
scenario3-drift env parse print codec fresh w healthy alone unique =
    let clean = scenario3_clean env parse print codec fresh w (healthy w.tick) alone in
    let n = env.new_uuid w.tick in
    let t = env.now w.tick in
    let drifts = reconcile-drift n t 100 w.committed (omega arith) unique in
    (
      λ h. drifts.0 ((clean_reconcile n t w.committed).0 (sym clean ∙ h)),
      λ h. clean ∙ (clean_reconcile n t w.committed).1 (drifts.1 h),
    )
