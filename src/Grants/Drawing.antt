-- ===== src/Grants/Drawing.antt =====
-- Drawdown of postgre-setup/go/internal/grants/service.go keeps every grant within its bounds.
use playground_ledger.Prelude.{
  ℕ, Bool-cases, inl, inr, not, List, [], ◌∷◌, ℤ, pos, ◌-ℤ◌, ◌≤ℤ◌, leb_ℤ, leb_ℤ→≤ℤ, int_laws, arith,
}
use playground_ledger.Prelude.Table.{sum}
use playground_ledger.Db.{Db, CreditGrant}
use playground_ledger.Store.{Env, World, Tx, exec}
use playground_ledger.Store.Hoare.{Ends, ends_ok, bind-Ends, weaken-Ends}
use playground_ledger.Store.Rules.{Commits, commit-Commits, with_tx-Commits, fail_if-Ends}
use playground_ledger.Queries.Grants.{
  create_grant_ledger_entry, deplete_grant, drawdown_grant, get_active_grants_by_account,
  get_grant_for_update, is_active,
}
use playground_ledger.Grants.{
  DrawdownResult, is_zero, take_from, draw_locked, draw_all, drawdown_tx, draw_down,
}
use playground_ledger.Grants.Bounds.{
  IsWithin, IsSound, deplete_grant-IsSound, drawdown_grant-IsSound,
  create_grant_ledger_entry-IsSound, get_grant_for_update-IsWithin,
}
use playground_ledger.Grants.Frame.{Both, runs, writes, guard_amount}

-- What a drawdown reports to have taken.
abbrev pub drawn_sum : List DrawdownResult → ℤ
drawn_sum rs = sum (λ (r : DrawdownResult). r.consumed) rs

module _ (env : Env) (keeps : (n : ℕ) (db : Db) → IsSound db → IsSound (env.others n db)) where
  take_from-Ends :
      (grant_id : ℕ) (locked : CreditGrant) (remaining : ℤ)
      → pos 0 ≤ℤ remaining
      → (w : World) → Both w
      → Ends (λ v w'. (v ≤ℤ remaining) × Both w') Both (take_from env grant_id locked remaining w)
  unfolding take_from
  take_from-Ends grant_id locked remaining nonneg w h =
      elim (Bool-cases (leb_ℤ locked.remaining_amount remaining)) [
        | inl whole ↦ rw whole (
            bind-Ends _
              (writes env keeps (deplete_grant grant_id) (deplete_grant-IsSound grant_id) w h)
              λ _ w1 h1. ends_ok (leb_ℤ→≤ℤ locked.remaining_amount remaining whole, h1))
        | inr part ↦ rw part (
            bind-Ends _
              (writes env keeps (drawdown_grant grant_id remaining)
                (λ n t db. drawdown_grant-IsSound grant_id remaining n t db nonneg) w h)
              λ _ w1 h1. ends_ok (omega arith, h1))
      ]

  abbrev Takes : ℤ → List DrawdownResult → World → Type 0
  Takes remaining rs w = (drawn_sum rs ≤ℤ remaining) × Both w

  draw_locked-Ends :
      (grant_id : ℕ) (locked : CreditGrant) (remaining : ℤ) (rest : ℤ → Tx (List DrawdownResult))
      → pos 0 ≤ℤ remaining
      → ((r : ℤ) (w : World) → pos 0 ≤ℤ r → Both w → Ends (Takes r) Both (rest r w))
      → (w : World) → Both w
      → Ends (Takes remaining) Both (draw_locked env grant_id locked remaining rest w)
  unfolding draw_locked sum
  draw_locked-Ends grant_id locked remaining rest nonneg ih w h =
      elim (Bool-cases (not (is_active locked.status))) [
        | inl gone ↦ rw gone (ih remaining w nonneg h)
        | inr live ↦ rw live (
            bind-Ends _ (take_from-Ends grant_id locked remaining nonneg w h) λ v w1 h1.
              bind-Ends _
                (writes env keeps (create_grant_ledger_entry _)
                  (create_grant_ledger_entry-IsSound _) w1 h1.1)
                λ _ w2 h2.
                  bind-Ends _ (ih (remaining -ℤ v) w2 (omega (int_laws, h1.0)) h2)
                    λ rs w3 h3. ends_ok (omega (int_laws, h3.0), h3.1))
      ]

  draw_all-Ends :
      (gs : List CreditGrant) (remaining : ℤ) (w : World)
      → pos 0 ≤ℤ remaining
      → Both w
      → Ends (Takes remaining) Both (draw_all env gs remaining w)
  unfolding draw_all sum
  draw_all-Ends [] remaining w nonneg h = ends_ok (nonneg, h)
  draw_all-Ends (g ∷ gs) remaining w nonneg h = elim (Bool-cases (is_zero remaining)) [
    | inl done ↦ rw done (ends_ok (nonneg, h))
    | inr more ↦ rw more (
        bind-Ends _
          (runs env keeps IsWithin (get_grant_for_update g.id) (get_grant_for_update-IsWithin g.id)
            w h)
          λ locked w1 h1.
            draw_locked-Ends g.id locked remaining (draw_all env gs) nonneg (draw_all-Ends gs) w1
              (h1.0.1, h1.1))
  ]

  reads_active :
      (account_id : ℕ) (w : World)
      → Both w
      → Ends (λ _. Both) Both (exec env (get_active_grants_by_account account_id) w)
  unfolding get_active_grants_by_account
  reads_active account_id w h =
      writes env keeps (get_active_grants_by_account account_id) (λ n t db s. s) w h

  drawdown_tx-Ends :
      (account_id : ℕ) (amount : ℤ) (w : World)
      → pos 0 ≤ℤ amount
      → Both w
      → Commits
          (λ rs db. (drawn_sum rs ≤ℤ amount) × IsSound db)
          IsSound
          (drawdown_tx env account_id amount w)
  unfolding drawdown_tx
  drawdown_tx-Ends account_id amount w nonneg h =
      bind-Ends _ (weaken-Ends (λ _ e. e.1) (reads_active account_id w h)) λ active w1 h1.
        bind-Ends _ (weaken-Ends (λ _ e. e.1) (fail_if-Ends {P = Both} _ _ w1 h1)) λ _ w2 h2.
          bind-Ends _ (weaken-Ends (λ _ e. e.1) (draw_all-Ends active amount w2 nonneg h2))
            λ rs w3 h3.
              bind-Ends _ (commit-Commits env IsSound IsSound keeps keeps w3 h3.1)
                λ _ w4 h4. ends_ok (h3.0, h4)

  -- What Drawdown commits, and what it reports.
  pub draw_down-Ends :
      (account_id : ℕ) (amount : ℤ) (key : ℕ) (w : World)
      → IsSound w.committed
      → Commits
          (λ rs db. (drawn_sum rs ≤ℤ amount) × IsSound db)
          IsSound
          (draw_down env account_id amount key w)
  unfolding draw_down
  draw_down-Ends account_id amount key w h =
      bind-Ends _ (guard_amount env keeps amount w h) λ _ w1 p.
        with_tx-Commits env IsSound (λ rs db. (drawn_sum rs ≤ℤ amount) × IsSound db) IsSound keeps
          (drawdown_tx env account_id amount) (λ db s. s)
          (λ w' a b. drawdown_tx-Ends account_id amount w' p.0 (a, b)) w1 p.1
