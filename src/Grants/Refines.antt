-- ===== src/Grants/Refines.antt =====
-- WaterfallDebit of postgre-setup/go/internal/grants/service.go answers what Grants/Spec says, and
-- takes what it answers.
use playground_ledger.Prelude.{
  ℕ, suc, ◌≡◌, refl, ap, sym, ◌∙◌, subst, Option, none, some, All, keep, String, ℤ, pos, ◌+ℤ◌, ◌-ℤ◌,
  ◌≤ℤ◌, leb_ℤ, ltb_ℤ, int_laws, arith, ltb_ℤ-false, leb_ℤ-false,
}
use playground_ledger.Prelude.Table.{find}
use playground_ledger.Prelude.Sort.{All-sort_by}
use playground_ledger.Db.{Db, Account}
use playground_ledger.Store.{Env, World, exec, commit, of_grants, GrantsError}
use playground_ledger.Store.Hoare.{
  Ends, ends_ok, any-Ends, bind-Ends, on_no_rows-Ends, Answers, Next, exec-Next, OnSuccess,
  on_success,
}
use playground_ledger.Store.Rules.{with_tx-Next, fail_if-passes, fail_if-Stays}
use playground_ledger.Queries.Rows.{account_with_id, one_row}
use playground_ledger.Queries.Accounts.{get_account_for_update}
use playground_ledger.Queries.Grants.{consumed_before, spendable, lock_spendable_grants}
use playground_ledger.Grants.{WaterfallResult, available, pay, waterfall_tx, waterfall_debit}
use playground_ledger.Grants.Spec.{fifo, left_over, fifo-shares, left_over-closed, left_over_nonneg}
use playground_ledger.Grants.Fifo.{
  usable, usable-IsFunded, IsSettled, spend_grants-fifo, charge_cash-value,
}
use playground_ledger.Grants.Paid.{
  IsPaid, IsKeyed, IsFirst, All-pass, keep-IsKeyed, sort_by-IsKeyed, IsKeyed-IsFirst, both-Ends,
  pay-IsPaid,
}

-- What an answer means: it is what the specification says of the tables at the time, and the
-- tables have changed by it.
abbrev pub Settles : Db → ℕ → ℤ → ℕ → WaterfallResult → Db → Type 0
Settles db account_id amount now r db' =
    IsSettled db account_id amount now r × IsPaid db account_id r db'

module _ (env : Env) (alone : (n : ℕ) (db : Db) → env.others n db ≡ db) (account_id : ℕ)
    (amount : ℤ) (description : String) (positive : pos 1 ≤ℤ amount) (db0 : Db)
    (keyed : IsKeyed db0.grants) where
  find_account :
      (w : World)
      → w.working ≡ db0
      → Ends
          (Next env
            (λ a db. (db ≡ db0) × (find (account_with_id account_id) db0.accounts ≡ some a))
            w)
          (λ _. Unit {0})
          (exec env (get_account_for_update account_id) w)
  unfolding get_account_for_update
  find_account w e =
      exec-Next env (λ a db. (db ≡ db0) × (find (account_with_id account_id) db0.accounts ≡ some a))
        (get_account_for_update account_id) w
        (row _ _ (alone w.tick w.working ∙ e) (
          ap (λ (d : Db). find (account_with_id account_id) d.accounts)
            (alone w.tick w.working ∙ e)))
    where
      row :
          (o : Option Account) (db : Db)
          → db ≡ db0
          → o ≡ find (account_with_id account_id) db0.accounts
          → Answers
              (λ a db'. (db' ≡ db0) × (find (account_with_id account_id) db0.accounts ≡ some a))
              (one_row o db)
      row none db e same = tt
      row (some a) db e same = (e, sym same)

  select_grants :
      (w : World)
      → w.working ≡ db0
      → Ends
          (Next env (λ gs db. (db ≡ db0) × (gs ≡ usable account_id (env.now w.tick) db0)) w)
          (λ _. Unit {0})
          (exec env (lock_spendable_grants account_id) w)
  unfolding lock_spendable_grants
  select_grants w e =
      exec-Next env (λ gs db. (db ≡ db0) × (gs ≡ usable account_id (env.now w.tick) db0))
        (lock_spendable_grants account_id) w
        (
          alone w.tick w.working ∙ e,
          ap (usable account_id (env.now w.tick)) (alone w.tick w.working ∙ e),
        )

  settled :
      (a : Account) (now : ℕ)
      → find (account_with_id account_id) db0.accounts ≡ some a
      → amount ≤ℤ available (usable account_id now db0) +ℤ a.balance
      → IsSettled db0 account_id amount now (record {
        grants_consumed = fifo (usable account_id now db0) amount;
        cash_consumed = left_over (usable account_id now db0) amount;
        new_cash_balance = a.balance -ℤ left_over (usable account_id now db0) amount;
      })
  settled a now h f = record {
    account = a;
    found = h;
    funded = f;
    by_share =
        ap (fifo (usable account_id now db0)) (omega int_laws)
        ∙ fifo-shares (usable account_id now db0) (pos 0) amount
            (usable-IsFunded account_id now db0) (omega arith);
    shortfall =
        left_over-closed (usable account_id now db0) amount (usable-IsFunded account_id now db0)
          (omega arith);
    charged = refl;
  }

  -- What remains of the transaction, once account and grants are locked.
  pay-IsSettled :
      (a : Account) (now : ℕ)
      → find (account_with_id account_id) db0.accounts ≡ some a
      → (w : World)
      → Ends
          (λ r _. IsSettled db0 account_id amount now r)
          (λ _. Unit {0})
          (pay env account_id amount description a (usable account_id now db0) w)
  unfolding pay
  pay-IsSettled a now found w =
      let gs = usable account_id now db0 in
      bind-Ends _
        (fail_if-passes (ltb_ℤ (available gs +ℤ a.balance) amount)
          (of_grants GrantsError.insufficient_funds) w)
        λ _ w1 enough. bind-Ends _ (spend_grants-fifo env description gs amount w1) λ v w2 spent.
          bind-Ends _
            (charge_cash-value env account_id a.balance v.1 description w2 (
              rw spent
                (left_over_nonneg gs amount (usable-IsFunded account_id now db0) (omega arith))))
            λ c w3 charged. bind-Ends _ (any-Ends (commit env w3)) λ _ w4 _. ends_ok (
              rw (charged, spent)
                (settled a now found (ltb_ℤ-false (available gs +ℤ a.balance) amount enough)))

  usable-IsFirst : (now : ℕ) → All (IsFirst db0.grants) (usable account_id now db0)
  usable-IsFirst now =
      All-sort_by consumed_before (IsFirst db0.grants) (keep (spendable account_id now) db0.grants)
        (All-pass (IsFirst db0.grants) (spendable account_id now) db0.grants
          (IsKeyed-IsFirst db0.grants keyed))

  usable-IsKeyed : (now : ℕ) → IsKeyed (usable account_id now db0)
  usable-IsKeyed now =
      sort_by-IsKeyed consumed_before (keep (spendable account_id now) db0.grants)
        (keep-IsKeyed (spendable account_id now) db0.grants keyed)

  pay-Settles :
      (a : Account) (now : ℕ)
      → find (account_with_id account_id) db0.accounts ≡ some a
      → (w : World) → w.working ≡ db0
      → Ends
          (λ r w'. Settles db0 account_id amount now r w'.committed)
          (λ _. Unit {0})
          (pay env account_id amount description a (usable account_id now db0) w)
  pay-Settles a now found w start =
      both-Ends (λ r _. IsSettled db0 account_id amount now r)
        (λ r w'. IsPaid db0 account_id r w'.committed) _
        (on_success _ _ (pay-IsSettled a now found w))
        (on_success _ _ (
          pay-IsPaid env alone account_id amount description a (usable account_id now db0) db0 found
            (usable-IsKeyed now) (usable-IsFirst now) (usable-IsFunded account_id now db0)
            (omega arith) w start))

  waterfall_tx-Settles :
      (w : World)
      → w.working ≡ db0
      → Ends
          (λ r w'. Settles db0 account_id amount (env.now (suc w.tick)) r w'.committed)
          (λ _. Unit {0})
          (waterfall_tx env account_id amount description w)
  unfolding waterfall_tx
  waterfall_tx-Settles w start =
      bind-Ends _ (on_no_rows-Ends (of_grants GrantsError.account_not_found) (find_account w start))
        λ a w1 p.
          bind-Ends _ (select_grants w1 p.0.0)
            λ gs w2 q. rw (q.0.1, p.1) (pay-Settles a (env.now (suc w.tick)) p.0.1 w2 q.0.0)

-- Let no other session be at work and no two grants have the same identifier. Where a waterfall
-- debit answers, whatever statements fail, the account was there with grants and cash for the
-- amount; the grants that were usable when their rows were locked, the third statement that is
-- sent, each gave its share by place, and cash paid the shortfall. In what is committed each grant
-- and each account has lost exactly what the answer says of it: nothing, if it says nothing.
pub waterfall_debit-Settles :
    (env : Env)
    → ((n : ℕ) (db : Db) → env.others n db ≡ db)
    → (account_id : ℕ) (amount : ℤ) (idempotency_key : ℕ) (description : String) (w : World)
    → IsKeyed w.committed.grants
    → OnSuccess
        (λ r w'. Settles w.committed account_id amount (env.now (suc (suc w.tick))) r w'.committed)
        (waterfall_debit env account_id amount idempotency_key description w)
unfolding waterfall_debit
waterfall_debit-Settles env alone account_id amount idempotency_key description w keyed =
    let now = env.now (suc (suc w.tick)) in
    on_success (λ r w'. Settles w.committed account_id amount now r w'.committed) _
      (bind-Ends _ (fail_if-Stays (leb_ℤ amount (pos 0)) (of_grants GrantsError.invalid_amount) w)
        λ _ w1 p.
          with_tx-Next env (λ r db. Settles w.committed account_id amount now r db)
            (waterfall_tx env account_id amount description) w1
            (λ w2 tick start.
              subst
                (λ i.
                  Ends
                    (λ r w'. Settles w.committed account_id amount (env.now (suc i)) r w'.committed)
                    (λ _. Unit {0}) (waterfall_tx env account_id amount description w2))
                (tick ∙ ap (λ (x : World). suc x.tick) p.1)
                (waterfall_tx-Settles env alone account_id amount description
                  (omega (int_laws, leb_ℤ-false amount (pos 0) p.0)) w.committed keyed w2
                  (start ∙ alone w1.tick w1.committed ∙ ap (λ (x : World). x.committed) p.1))))
