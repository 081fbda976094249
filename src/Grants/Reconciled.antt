-- ===== src/Grants/Reconciled.antt =====
-- WaterfallDebit of postgre-setup/go/internal/grants/service.go against the ledger: the cash that it
-- takes gets its entry.
use playground_ledger.Prelude.{
  ℕ, ◌==◌, ==_iff, ◌≡◌, ◌∙◌, refl, subst, Bool-cases, inl, inr, ◌&&◌, Option, none, some, List, [],
  ◌∷◌, String, ℤ, pos, ◌+ℤ◌, ◌-ℤ◌, leb_ℤ, ltb_ℤ, int_laws,
}
use playground_ledger.Prelude.Table.{find, replace, find-replace_self}
use playground_ledger.Db.{Db, Account, CreditGrant}
use playground_ledger.Store.{Env, World, Tx, Query, exec}
use playground_ledger.Store.Hoare.{
  Ends, ends_ok, bind-Ends, on_no_rows-Ends, weaken-Ends, Answers, value-Answers, exec-Ends,
}
use playground_ledger.Store.Rules.{commit-Commits, with_tx-Commits, fail_if-Ends, committed_of}
use playground_ledger.Queries.Rows.{account_with_id, grant_with_id, one_row}
use playground_ledger.Queries.Laws.{reject_if-Answers, found_id, found_row}
use playground_ledger.Queries.Accounts.{get_account_for_update, charge_account, with_balance}
use playground_ledger.Queries.Entries.{create_ledger_entry}
use playground_ledger.Queries.Grants.{
  CreateGrantLedgerEntryParams, create_grant_ledger_entry, deplete_grant, emptied, drawdown_grant,
  drawn, is_active, lock_spendable_grants,
}
use playground_ledger.Ledger.Drift.{balance_of, drift, at, drift-replace, create_ledger_entry-drift}
use playground_ledger.Ledger.Invariants.{sub_at_neg}
use playground_ledger.Grants.{
  GrantDrawdown, is_zero, cash_entry, spend_grant, spend_round, spend_grants, take_cash,
  charge_cash, pay, waterfall_tx, waterfall_debit,
}

abbrev pub Exists : ℕ → Db → Type 0
Exists id db = (a : Account) × (find (account_with_id id) db.accounts ≡ some a)

-- A drift of account k, and an account that is there.
abbrev pub HasDrift : ℕ → ℕ → ℤ → Db → Type 0
HasDrift k id d db = (drift k db ≡ d) × Exists id db

module _ (k id : ℕ) (d : ℤ) (n t : ℕ) (db : Db) (h : HasDrift k id d db) where
  deplete_grant-HasDrift :
      (grant_id : ℕ) → Answers (λ _. HasDrift k id d) (deplete_grant grant_id n t db)
  unfolding deplete_grant drift balance_of
  deplete_grant-HasDrift grant_id = kept (find (grant_with_id grant_id) db.grants)
    where
      kept : (o : Option CreditGrant) → Answers (λ _. HasDrift k id d) (emptied db o)
      kept none = h
      kept (some g) = h

  drawdown_grant-HasDrift :
      (grant_id : ℕ) (amount : ℤ)
      → Answers (λ _. HasDrift k id d) (drawdown_grant grant_id amount n t db)
  unfolding drawdown_grant drift balance_of
  drawdown_grant-HasDrift grant_id amount = kept (find (grant_with_id grant_id) db.grants)
    where
      kept : (o : Option CreditGrant) → Answers (λ _. HasDrift k id d) (drawn amount db o)
      kept none = tt
      kept (some g) = elim (Bool-cases (leb_ℤ amount g.remaining_amount && is_active g.status)) [
        | inl covered ↦ rw covered h
        | inr short ↦ rw short tt
      ]

  create_grant_ledger_entry-HasDrift :
      (p : CreateGrantLedgerEntryParams)
      → Answers (λ _. HasDrift k id d) (create_grant_ledger_entry p n t db)
  unfolding create_grant_ledger_entry drift balance_of
  create_grant_ledger_entry-HasDrift p = search reject_if-Answers

  charge_account-HasDrift :
      (amount : ℤ)
      → Answers (λ _. HasDrift k id (d -ℤ at k id amount)) (charge_account id amount n t db)
  unfolding charge_account
  charge_account-HasDrift amount =
      rw h.1.1 (charged_drift h.1.0 h.1.1, (_, still_there h.1.0 h.1.1))
    where
      still_there :
          (a : Account)
          → find (account_with_id id) db.accounts ≡ some a
          → find
              (account_with_id id)
              (replace (account_with_id a.id) (with_balance a (a.balance -ℤ amount) t) db.accounts)
            ≡ some (with_balance a (a.balance -ℤ amount) t)
      still_there a e =
          subst
            (λ (i : ℕ).
              find (account_with_id i) (
                replace (account_with_id a.id) (with_balance a (a.balance -ℤ amount) t) db.accounts)
              ≡ some (with_balance a (a.balance -ℤ amount) t))
            (found_id id a db.accounts e)
            (find-replace_self (account_with_id a.id) (with_balance a (a.balance -ℤ amount) t)
              db.accounts a (found_row id a db.accounts e) ((==_iff a.id a.id).1 refl))

      less : (x : ℤ) → d +ℤ at k id (x -ℤ amount -ℤ x) ≡ d -ℤ at k id amount
      less x = elim (Bool-cases (id == k)) [
        | inl hit ↦ rw hit (omega int_laws)
        | inr miss ↦ rw miss (omega int_laws)
      ]

      charged_drift :
          (a : Account)
          → find (account_with_id id) db.accounts ≡ some a
          → drift k (record db {
            accounts =
                replace (account_with_id a.id) (with_balance a (a.balance -ℤ amount) t) db.accounts;
          })
            ≡ d -ℤ at k id amount
      charged_drift a e =
          rw
            (
              drift-replace k a (a.balance -ℤ amount) t db (found_row id a db.accounts e),
              found_id id a db.accounts e,
              h.0,
            )
            (less a.balance)

  create_ledger_entry-HasDrift :
      (amount balance : ℤ) (description : String)
      → Answers
          (λ _ db'. drift k db' ≡ d +ℤ at k id amount)
          (create_ledger_entry (cash_entry id amount balance description) n t db)
  create_ledger_entry-HasDrift amount balance description =
      value-Answers (drift k) _ _ _ (rw h.0 (sub_at_neg k id amount d))
        (create_ledger_entry-drift k (cash_entry id amount balance description) n t db)

module _ (env : Env) (k id : ℕ) (c : ℤ)
    (keeps : (n : ℕ) (db : Db) → drift k (env.others n db) ≡ drift k db)
    (spares : (n : ℕ) (db : Db) → Exists id db → Exists id (env.others n db)) where
  abbrev Is : Db → Type 0
  Is db = drift k db ≡ c

  abbrev Mid : ℤ → World → Type 0
  Mid d w = HasDrift k id d w.working × Is w.committed

  abbrev End : World → Type 0
  End w = Is w.committed

  keeps_Is : (d : ℤ) (n : ℕ) (db : Db) → drift k db ≡ d → drift k (env.others n db) ≡ d
  keeps_Is d n db h = keeps n db ∙ h

  runs :
      {A : Type 0} (q : Query A) (d d' : ℤ)
      → ((n t : ℕ) (db : Db) → HasDrift k id d db → Answers (λ _. HasDrift k id d') (q n t db))
      → (w : World) → Mid d w
      → Ends (λ _. Mid d') End (exec env q w)
  runs q d d' post w h =
      exec-Ends env (HasDrift k id d) Is (λ _. HasDrift k id d')
        (λ n db g. (keeps_Is d n db g.0, spares n db g.1)) (keeps_Is c) q post w h.0 h.1

  spend_grant-Ends :
      (g : CreditGrant) (consumed left : ℤ) (w : World)
      → Mid c w
      → Ends (λ _. Mid c) End (spend_grant env g consumed left w)
  unfolding spend_grant
  spend_grant-Ends g consumed left w h = elim (Bool-cases (is_zero left)) [
    | inl empty ↦ rw empty (
        runs (deplete_grant g.id) c c (λ n t db e. deplete_grant-HasDrift k id c n t db e g.id) w h)
    | inr some_left ↦ rw some_left (
        bind-Ends _
          (runs (drawdown_grant g.id consumed) c c
            (λ n t db e. drawdown_grant-HasDrift k id c n t db e g.id consumed) w h)
          λ _ w1 h1. ends_ok h1)
  ]

  spend_round-Ends :
      (description : String) (g : CreditGrant) (remaining : ℤ)
      (rest : ℤ → Tx (List GrantDrawdown × ℤ))
      → ((r : ℤ) (w : World) → Mid c w → Ends (λ _. Mid c) End (rest r w))
      → (w : World) → Mid c w
      → Ends (λ _. Mid c) End (spend_round env description g remaining rest w)
  unfolding spend_round
  spend_round-Ends description g remaining rest ih w h =
      bind-Ends _ (spend_grant-Ends g _ _ w h) λ _ w1 h1.
        bind-Ends _
          (runs (create_grant_ledger_entry _) c c
            (λ n t db e. create_grant_ledger_entry-HasDrift k id c n t db e _) w1 h1)
          λ _ w2 h2. bind-Ends _ (ih _ w2 h2) λ v w3 h3. ends_ok h3

  spend_grants-Ends :
      (description : String) (gs : List CreditGrant) (remaining : ℤ) (w : World)
      → Mid c w
      → Ends (λ _. Mid c) End (spend_grants env description gs remaining w)
  unfolding spend_grants
  spend_grants-Ends description [] remaining w h = ends_ok h
  spend_grants-Ends description (g ∷ gs) remaining w h = elim (Bool-cases (is_zero remaining)) [
    | inl done ↦ rw done (ends_ok h)
    | inr more ↦ rw more (
        spend_round-Ends description g remaining (spend_grants env description gs)
          (spend_grants-Ends description gs) w h)
  ]

  abbrev Back : World → Type 0
  Back w = Is w.working × Is w.committed

  take_cash-Ends :
      (cash remaining : ℤ) (description : String) (w : World)
      → Mid c w
      → Ends (λ _. Back) End (take_cash env id cash remaining description w)
  unfolding take_cash
  take_cash-Ends cash remaining description w h =
      bind-Ends _
        (runs (charge_account id remaining) c (c -ℤ at k id remaining)
          (λ n t db e. charge_account-HasDrift k id c n t db e remaining) w h)
        λ _ w1 h1.
          bind-Ends _
            (exec-Ends env (HasDrift k id (c -ℤ at k id remaining)) Is
              (λ _ db. drift k db ≡ c -ℤ at k id remaining +ℤ at k id remaining)
              (λ n db g. (keeps_Is _ n db g.0, spares n db g.1)) (keeps_Is c)
              (create_ledger_entry (cash_entry id remaining cash description))
              (λ n t db e.
                create_ledger_entry-HasDrift k id (c -ℤ at k id remaining) n t db e remaining cash
                  description)
              w1 h1.0 h1.1)
            λ _ w2 h2. ends_ok (h2.0 ∙ omega int_laws, h2.1)

  charge_cash-Ends :
      (cash remaining : ℤ) (description : String) (w : World)
      → Mid c w
      → Ends (λ _. Back) End (charge_cash env id cash remaining description w)
  unfolding charge_cash
  charge_cash-Ends cash remaining description w h = elim (Bool-cases (ltb_ℤ (pos 0) remaining)) [
    | inl some_left ↦ rw some_left (take_cash-Ends (cash -ℤ remaining) remaining description w h)
    | inr none_left ↦ rw none_left (ends_ok (h.0.0, h.1))
  ]

  pay-Ends :
      (amount : ℤ) (description : String) (a : Account) (gs : List CreditGrant) (w : World)
      → Mid c w
      → Ends (λ _. End) End (pay env id amount description a gs w)
  unfolding pay
  pay-Ends amount description a gs w h =
      bind-Ends _ (weaken-Ends (λ _ e. e.1) (fail_if-Ends {P = Mid c} _ _ w h)) λ _ w1 h1.
        bind-Ends _ (spend_grants-Ends description gs amount w1 h1) λ v w2 h2.
          bind-Ends _ (charge_cash-Ends a.balance v.1 description w2 h2) λ cash w3 h3.
            bind-Ends _ (commit-Commits env Is Is (keeps_Is c) (keeps_Is c) w3 h3)
              λ _ w4 h4. ends_ok h4

  find_account :
      (w : World) → Back w → Ends (λ _. Mid c) End (exec env (get_account_for_update id) w)
  unfolding get_account_for_update
  find_account w h =
      exec-Ends env Is Is (λ _. HasDrift k id c) (keeps_Is c) (keeps_Is c)
        (get_account_for_update id)
        (λ n t db e. row (find (account_with_id id) db.accounts) db refl e) w h.0 h.1
    where
      row :
          (o : Option Account) (db : Db)
          → find (account_with_id id) db.accounts ≡ o
          → Is db
          → Answers {A = Account} (λ _. HasDrift k id c) (one_row o db)
      row none db e h = tt
      row (some a) db e h = (h, (a, e))

  waterfall_tx-Ends :
      (amount : ℤ) (description : String) (w : World)
      → Back w
      → Ends (λ _. End) End (waterfall_tx env id amount description w)
  unfolding waterfall_tx lock_spendable_grants
  waterfall_tx-Ends amount description w h =
      bind-Ends _ (on_no_rows-Ends _ (find_account w h)) λ a w1 h1.
        bind-Ends _ (runs (lock_spendable_grants id) c c (λ n t db e. e) w1 h1)
          λ gs w2 h2. pay-Ends amount description a gs w2 h2

-- Let other sessions keep the difference between the balance of account k and the sum of its
-- ledger entries, and not remove the account that is charged. Then WaterfallDebit does not change
-- that difference in what is committed, whatever the request, the errors that the server reports
-- and the interleaving.
pub waterfall_debit-drift :
    (env : Env) (k account_id : ℕ) (amount : ℤ) (key : ℕ) (description : String) (w : World)
    → ((n : ℕ) (db : Db) → drift k (env.others n db) ≡ drift k db)
    → ((n : ℕ) (db : Db) → Exists account_id db → Exists account_id (env.others n db))
    → drift k (waterfall_debit env account_id amount key description w).1.committed
      ≡ drift k w.committed
unfolding waterfall_debit
waterfall_debit-drift env k account_id amount key description w keeps spares =
    committed_of (λ db. drift k db ≡ drift k w.committed) _
      (bind-Ends _
        (fail_if-Ends {P = End env k account_id (drift k w.committed) keeps spares} _ _ w refl)
        λ _ w1 h1.
          with_tx-Commits env (λ db. drift k db ≡ drift k w.committed)
            (λ _ db. drift k db ≡ drift k w.committed) (λ db. drift k db ≡ drift k w.committed)
            (λ n db h. keeps n db ∙ h) (waterfall_tx env account_id amount description) (λ db h. h)
            (λ w' a b.
              waterfall_tx-Ends env k account_id (drift k w.committed) keeps spares amount
                description w' (a, b))
            w1 h1)
