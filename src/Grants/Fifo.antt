-- ===== src/Grants/Fifo.antt =====
-- The loop of WaterfallDebit in postgre-setup/go/internal/grants/service.go computes what Grants/Spec
-- says.
use playground_ledger.Prelude.{
  ℕ, ◌≡◌, refl, ap, Bool-cases, inl, inr, some, List, [], ◌∷◌, All, All-keep, keep, String, ℤ, pos,
  ◌+ℤ◌, ◌-ℤ◌, ◌≤ℤ◌, leb_ℤ, ltb_ℤ, int_laws, arith, if◌then◌else◌, ltb_ℤ-false,
}
use playground_ledger.Prelude.Table.{find}
use playground_ledger.Prelude.Sort.{sort_by, All-sort_by}
use playground_ledger.Db.{Db, Account, CreditGrant}
use playground_ledger.Store.{Env, World, Tx, exec}
use playground_ledger.Store.Hoare.{Ends, ends_ok, any-Ends, bind-Ends}
use playground_ledger.Queries.Rows.{account_with_id}
use playground_ledger.Queries.Accounts.{charge_account}
use playground_ledger.Queries.Entries.{create_ledger_entry}
use playground_ledger.Ledger.{to_pg_text}
use playground_ledger.Queries.Grants.{consumed_before, spendable, create_grant_ledger_entry}
use playground_ledger.Grants.{
  GrantDrawdown, WaterfallResult, is_zero, min_ℤ, available, spend_grant, drawdown_entry,
  cash_entry, spend_round, spend_grants, take_cash, charge_cash,
}
use playground_ledger.Grants.Spec.{fifo, left_over, shares, IsFunded}

-- The grants that a waterfall at time `now` may use, in the order of use.
abbrev pub usable : ℕ → ℕ → Db → List CreditGrant
usable account_id now db = sort_by consumed_before (keep (spendable account_id now) db.grants)

pub usable-IsFunded : (account_id now : ℕ) (db : Db) → All IsFunded (usable account_id now db)
usable-IsFunded account_id now db =
    All-sort_by consumed_before IsFunded (keep (spendable account_id now) db.grants)
      (All-keep IsFunded (spendable account_id now) db.grants (λ g h. ground arith))

-- What a waterfall of `amount` on the tables `db` answers: each grant its share by place, cash the
-- shortfall, out of an account that has it.
pub record IsSettled (db : Db) (account_id : ℕ) (amount : ℤ) (now : ℕ) (r : WaterfallResult)
    : Type 0 where
  pub account : Account
  pub found : find (account_with_id account_id) db.accounts ≡ some account
  pub funded : amount ≤ℤ available (usable account_id now db) +ℤ account.balance
  pub by_share : r.grants_consumed ≡ shares (pos 0) (usable account_id now db) amount
  pub shortfall : r.cash_consumed ≡ (
      if leb_ℤ amount (available (usable account_id now db))
      then pos 0
      else amount -ℤ available (usable account_id now db))
  pub charged : r.new_cash_balance ≡ account.balance -ℤ r.cash_consumed

module _ (env : Env) where
  spend_round-fifo :
      (description : String) (g : CreditGrant) (remaining : ℤ)
      (rest : ℤ → Tx (List GrantDrawdown × ℤ)) (ds : List GrantDrawdown) (left : ℤ)
      → ((w : World)
          → Ends
              (λ v _. v ≡ (ds, left))
              (λ _. Unit {0})
              (rest (remaining -ℤ min_ℤ g.remaining_amount remaining) w))
      → (w : World)
      → Ends
          (λ v _. v ≡ (
            record { grant_id = g.id; consumed = min_ℤ g.remaining_amount remaining } ∷ ds,
            left,
          ))
          (λ _. Unit {0})
          (spend_round env description g remaining rest w)
  unfolding spend_round
  spend_round-fifo description g remaining rest ds left ih w =
      bind-Ends _
        (any-Ends (
          spend_grant env g (min_ℤ g.remaining_amount remaining)
            (g.remaining_amount -ℤ min_ℤ g.remaining_amount remaining) w))
        λ _ w1 _.
          bind-Ends _
            (any-Ends (
              exec env
                (create_grant_ledger_entry (
                  drawdown_entry g.id (min_ℤ g.remaining_amount remaining)
                    (g.remaining_amount -ℤ min_ℤ g.remaining_amount remaining)
                    (to_pg_text description) (env.client_uuid w1.tick)))
                w1))
            λ _ w2 _. bind-Ends _ (ih w2) λ v w3 e. ends_ok (
              ap
                (λ (p : List GrantDrawdown × ℤ). (
                  record { grant_id = g.id; consumed = min_ℤ g.remaining_amount remaining } ∷ p.0,
                  p.1,
                ))
                e)

  pub spend_grants-fifo :
      (description : String) (gs : List CreditGrant) (remaining : ℤ) (w : World)
      → Ends
          (λ v _. v ≡ (fifo gs remaining, left_over gs remaining))
          (λ _. Unit {0})
          (spend_grants env description gs remaining w)
  unfolding spend_grants fifo left_over
  spend_grants-fifo description [] remaining w = ends_ok refl
  spend_grants-fifo description (g ∷ gs) remaining w = elim (Bool-cases (is_zero remaining)) [
    | inl done ↦ rw done (ends_ok refl)
    | inr more ↦ rw more (
        spend_round-fifo description g remaining (spend_grants env description gs) _ _
          (spend_grants-fifo description gs (remaining -ℤ min_ℤ g.remaining_amount remaining)) w)
  ]

  take_cash-value :
      (account_id : ℕ) (cash remaining : ℤ) (description : String) (w : World)
      → Ends
          (λ v _. v ≡ cash)
          (λ _. Unit {0})
          (take_cash env account_id cash remaining description w)
  unfolding take_cash
  take_cash-value account_id cash remaining description w =
      bind-Ends _ (any-Ends (exec env (charge_account account_id remaining) w)) λ _ w1 _.
        bind-Ends _
          (any-Ends
            (exec env (create_ledger_entry (cash_entry account_id remaining cash description)) w1))
          λ _ w2 _. ends_ok refl

  pub charge_cash-value :
      (account_id : ℕ) (cash remaining : ℤ) (description : String) (w : World)
      → pos 0 ≤ℤ remaining
      → Ends
          (λ v _. v ≡ cash -ℤ remaining)
          (λ _. Unit {0})
          (charge_cash env account_id cash remaining description w)
  unfolding charge_cash
  charge_cash-value account_id cash remaining description w nonneg =
      elim (Bool-cases (ltb_ℤ (pos 0) remaining)) [
        | inl some_left ↦
            rw some_left (take_cash-value account_id (cash -ℤ remaining) remaining description w)
        | inr none_left ↦
            rw none_left (ends_ok (omega (int_laws, ltb_ℤ-false (pos 0) remaining none_left)))
      ]
