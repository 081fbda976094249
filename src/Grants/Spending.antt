-- ===== src/Grants/Spending.antt =====
-- WaterfallDebit of postgre-setup/go/internal/grants/service.go keeps every grant within its bounds.
use playground_ledger.Prelude.{
  ℕ, Bool-cases, inl, inr, List, [], ◌∷◌, All, String, ℤ, pos, ◌-ℤ◌, ◌≤ℤ◌, ltb_ℤ, int_laws, arith,
}
use playground_ledger.Db.{Db, CreditGrant, Account}
use playground_ledger.Store.{Env, World, Tx}
use playground_ledger.Store.Hoare.{Ends, ends_ok, bind-Ends, on_no_rows-Ends, weaken-Ends}
use playground_ledger.Store.Rules.{
  Commits, exec-Reads, commit-Commits, with_tx-Commits, fail_if-Ends,
}
use playground_ledger.Queries.Laws.{one_row-Reads}
use playground_ledger.Queries.Accounts.{get_account_for_update, charge_account}
use playground_ledger.Queries.Entries.{create_ledger_entry}
use playground_ledger.Queries.Grants.{
  create_grant_ledger_entry, deplete_grant, drawdown_grant, lock_spendable_grants,
}
use playground_ledger.Grants.{
  GrantDrawdown, is_zero, min_ℤ, spend_grant, spend_round, spend_grants, take_cash, charge_cash,
  pay, waterfall_tx, waterfall_debit,
}
use playground_ledger.Grants.Spec.{IsFunded}
use playground_ledger.Grants.Bounds.{
  IsSound, deplete_grant-IsSound, drawdown_grant-IsSound, create_grant_ledger_entry-IsSound,
  create_ledger_entry-IsSound, charge_account-IsSound, lock_spendable_grants-IsFunded,
}
use playground_ledger.Grants.Frame.{Both, runs, writes, guard_amount}

module _ (env : Env) (keeps : (n : ℕ) (db : Db) → IsSound db → IsSound (env.others n db)) where
  spend_grant-Ends :
      (g : CreditGrant) (consumed left : ℤ) (w : World)
      → pos 0 ≤ℤ consumed
      → Both w
      → Ends (λ _. Both) Both (spend_grant env g consumed left w)
  unfolding spend_grant
  spend_grant-Ends g consumed left w nonneg h = elim (Bool-cases (is_zero left)) [
    | inl empty ↦ rw empty (writes env keeps (deplete_grant g.id) (deplete_grant-IsSound g.id) w h)
    | inr some_left ↦ rw some_left (
        bind-Ends _
          (writes env keeps (drawdown_grant g.id consumed)
            (λ n t db. drawdown_grant-IsSound g.id consumed n t db nonneg) w h)
          λ _ w1 h1. ends_ok h1)
  ]

  spend_round-Ends :
      (description : String) (g : CreditGrant) (remaining : ℤ)
      (rest : ℤ → Tx (List GrantDrawdown × ℤ))
      → IsFunded g
      → pos 0 ≤ℤ remaining
      → ((r : ℤ) (w : World) → pos 0 ≤ℤ r → Both w → Ends (λ _. Both) Both (rest r w))
      → (w : World) → Both w
      → Ends (λ _. Both) Both (spend_round env description g remaining rest w)
  unfolding spend_round
  spend_round-Ends description g remaining rest funded nonneg ih w h =
      bind-Ends _ (spend_grant-Ends g (min_ℤ g.remaining_amount remaining) _ w (least.0) h)
        λ _ w1 h1.
          bind-Ends _
            (writes env keeps (create_grant_ledger_entry _) (create_grant_ledger_entry-IsSound _) w1
              h1)
            λ _ w2 h2.
              bind-Ends _
                (ih (remaining -ℤ min_ℤ g.remaining_amount remaining) w2 (omega (int_laws, least.1))
                  h2)
                λ v w3 h3. ends_ok h3
    where
      least :
          (pos 0 ≤ℤ min_ℤ g.remaining_amount remaining)
          × (min_ℤ g.remaining_amount remaining ≤ℤ remaining)
      least = ground arith

  spend_grants-Ends :
      (description : String) (gs : List CreditGrant) (remaining : ℤ) (w : World)
      → All IsFunded gs
      → pos 0 ≤ℤ remaining
      → Both w
      → Ends (λ _. Both) Both (spend_grants env description gs remaining w)
  unfolding spend_grants
  spend_grants-Ends description [] remaining w fs nonneg h = ends_ok h
  spend_grants-Ends description (g ∷ gs) remaining w fs nonneg h =
      elim (Bool-cases (is_zero remaining)) [
        | inl done ↦ rw done (ends_ok h)
        | inr more ↦ rw more (
            spend_round-Ends description g remaining (spend_grants env description gs) fs.0 nonneg
              (λ r w' n. spend_grants-Ends description gs r w' fs.1 n) w h)
      ]

  charge_cash-Ends :
      (account_id : ℕ) (cash remaining : ℤ) (description : String) (w : World)
      → Both w
      → Ends (λ _. Both) Both (charge_cash env account_id cash remaining description w)
  unfolding charge_cash take_cash
  charge_cash-Ends account_id cash remaining description w h =
      elim (Bool-cases (ltb_ℤ (pos 0) remaining)) [
        | inl some_left ↦ rw some_left (
            bind-Ends _
              (writes env keeps (charge_account account_id remaining)
                (charge_account-IsSound account_id remaining) w h)
              λ _ w1 h1.
                bind-Ends _
                  (writes env keeps (create_ledger_entry _) (create_ledger_entry-IsSound _) w1 h1)
                  λ _ w2 h2. ends_ok h2)
        | inr none_left ↦ rw none_left (ends_ok h)
      ]

  pay-Ends :
      (account_id : ℕ) (amount : ℤ) (description : String) (a : Account) (gs : List CreditGrant)
      (w : World)
      → All IsFunded gs
      → pos 0 ≤ℤ amount
      → Both w
      → Commits (λ _. IsSound) IsSound (pay env account_id amount description a gs w)
  unfolding pay
  pay-Ends account_id amount description a gs w fs nonneg h =
      bind-Ends _ (weaken-Ends (λ _ e. e.1) (fail_if-Ends {P = Both} _ _ w h)) λ _ w1 h1.
        bind-Ends _
          (weaken-Ends (λ _ e. e.1) (spend_grants-Ends description gs amount w1 fs nonneg h1))
          λ v w2 h2.
            bind-Ends _
              (weaken-Ends (λ _ e. e.1)
                (charge_cash-Ends account_id a.balance v.1 description w2 h2))
              λ c w3 h3.
                bind-Ends _ (commit-Commits env IsSound IsSound keeps keeps w3 h3)
                  λ _ w4 h4. ends_ok h4

  waterfall_tx-Ends :
      (account_id : ℕ) (amount : ℤ) (description : String) (w : World)
      → pos 0 ≤ℤ amount
      → Both w
      → Commits (λ _. IsSound) IsSound (waterfall_tx env account_id amount description w)
  unfolding waterfall_tx get_account_for_update
  waterfall_tx-Ends account_id amount description w nonneg h =
      bind-Ends _
        (on_no_rows-Ends _ (
          weaken-Ends (λ _ e. e.1)
            (exec-Reads env IsSound IsSound keeps keeps (get_account_for_update account_id)
              (λ n t db. one_row-Reads _ db) w h)))
        λ a w1 h1.
          bind-Ends _
            (weaken-Ends (λ _ e. e.1)
              (runs env keeps (All IsFunded) (lock_spendable_grants account_id)
                (lock_spendable_grants-IsFunded account_id) w1 h1))
            λ gs w2 h2. pay-Ends account_id amount description a gs w2 h2.0.0 nonneg (h2.0.1, h2.1)

  pub waterfall_debit-Ends :
      (account_id : ℕ) (amount : ℤ) (key : ℕ) (description : String) (w : World)
      → IsSound w.committed
      → Commits (λ _. IsSound) IsSound (waterfall_debit env account_id amount key description w)
  unfolding waterfall_debit
  waterfall_debit-Ends account_id amount key description w h =
      bind-Ends _ (guard_amount env keeps amount w h) λ _ w1 p.
        with_tx-Commits env IsSound (λ _. IsSound) IsSound keeps
          (waterfall_tx env account_id amount description) (λ db s. s)
          (λ w' a b. waterfall_tx-Ends account_id amount description w' p.0 (a, b)) w1 p.1
