-- ===== src/Runs.antt =====
-- Runs of postgre-setup/go/internal/{ledger,grants}/service.go on the database of Tests.
use playground_ledger.Prelude.{◌≡◌, refl, List, [], ◌∷◌, ℤ, pos, ◌+ℤ◌, ◌-ℤ◌, map}
use playground_ledger.Prelude.Table.{find, sum, any, replace}
use playground_ledger.Prelude.Sort.{sort_by, insert_by}
use playground_ledger.Db.{Account, CreditGrant}
use playground_ledger.Store.{World, ok, fail_if, with_tx, exec, arrive, begin, commit, rollback}
use playground_ledger.Queries.Accounts.{
  get_account_for_update, charge_account, get_account_by_id, debit_account, credit_account,
}
use playground_ledger.Queries.Transactions.{create_transaction, get_transaction_by_idempotency_key}
use playground_ledger.Queries.Entries.{create_ledger_entry}
use playground_ledger.Queries.Grants.{
  lock_spendable_grants, deplete_grant, drawdown_grant, create_grant_ledger_entry,
}
use playground_ledger.Ledger.{
  to_pg_text, transfer, transfer_tx, replay_transfer, fresh_transfer, write_transfer, move_money,
  in_flight,
}
use playground_ledger.Grants.{
  waterfall_debit, waterfall_tx, pay, spend_grants, spend_round, spend_grant, charge_cash,
  take_cash,
}
use playground_ledger.Stats.{record_op, bucket, bucket_from, bump}
use playground_ledger.Prelude.{Bool, true, false, negsuc}
use playground_ledger.Store.{Result, err, auto}
use playground_ledger.Queries.Transactions.{withdraw_atomic}
use playground_ledger.Ledger.{MoneyRequest, withdraw}
use playground_ledger.Tests.{calm, world, transfer_request}

abbrev balances_of : World → List ℤ
balances_of w = map (λ (a : Account). a.balance) w.committed.accounts

abbrev grants_of : World → List ℤ
grants_of w = map (λ (g : CreditGrant). g.remaining_amount) w.committed.grants

abbrev overdraft : MoneyRequest
overdraft = record {
  account_id = 11;
  amount = pos 30;
  description = "";
  idempotency_key = 8;
  metadata = [];
}

abbrev is_answer : {A : Type 0} → Result A → Bool
is_answer (ok a) = true
is_answer (err e) = false

-- 30 and 25 of the grants, by priority, and 25 of the cash.
waterfall_debit-runs :
    let (r, w) = waterfall_debit calm 10 (pos 80) 9 "usage" world in
    (r
      ≡ ok (record {
        grants_consumed =
            record { grant_id = 31; consumed = pos 30 }
            ∷ record { grant_id = 30; consumed = pos 25 }
            ∷ [];
        cash_consumed = pos 25;
        new_cash_balance = pos 75;
      }))
    × (balances_of w ≡ pos 75 ∷ pos 20 ∷ [])
    × (grants_of w ≡ pos 0 ∷ pos 0 ∷ [])
unfolding waterfall_debit waterfall_tx pay spend_grants spend_round spend_grant charge_cash
    take_cash fail_if with_tx exec arrive begin commit rollback get_account_for_update
    lock_spendable_grants deplete_grant drawdown_grant create_grant_ledger_entry charge_account
    create_ledger_entry to_pg_text find sum any replace sort_by insert_by ◌+ℤ◌ ◌-ℤ◌
waterfall_debit-runs = (refl, refl, refl)

transfer-runs : balances_of (transfer calm transfer_request world).1 ≡ pos 70 ∷ pos 50 ∷ []
unfolding transfer transfer_tx replay_transfer fresh_transfer write_transfer move_money in_flight
    fail_if with_tx exec arrive begin commit rollback get_account_by_id debit_account credit_account
    create_transaction get_transaction_by_idempotency_key create_ledger_entry to_pg_text find sum
    any replace ◌+ℤ◌ ◌-ℤ◌ record_op bucket bucket_from bump
transfer-runs = refl

-- A withdrawal of 30 from an account that holds 20 succeeds and leaves a balance of -10.
withdraw-overdraws :
    let (r, w) = withdraw calm overdraft world in
    (is_answer r ≡ true) × (balances_of w ≡ pos 100 ∷ negsuc 9 ∷ [])
unfolding withdraw withdraw_atomic in_flight fail_if auto exec arrive to_pg_text find replace ◌-ℤ◌
    record_op bucket bucket_from bump
withdraw-overdraws = (refl, refl)
