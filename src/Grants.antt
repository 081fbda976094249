-- ===== src/Grants.antt =====
-- postgre-setup/go/internal/grants/service.go: credit grants, their drawdown, and the waterfall
-- from grants to cash.
pub mod Spec
pub mod Refines
pub mod Fifo
pub mod Bounds
pub mod Frame
pub mod Drawing
pub mod Spending
pub mod Issuing
pub mod Sound
pub mod Reconciled
pub mod Held
pub mod Drawn
pub mod Paid
use playground_ledger.Prelude.{
  ℕ, not, Bool, Option, none, some, List, [], ◌∷◌, String, ℤ, pos, ◌+ℤ◌, ◌-ℤ◌, leb_ℤ, ltb_ℤ, ◌&&◌,
  if◌then◌else◌,
}
use playground_ledger.Prelude.Table.{sum}
use playground_ledger.Db.{
  Account, CreditGrant, GrantEntryType, drawdown, debit, Metadata, LedgerEntry,
}
use playground_ledger.Store.{
  Env, World, Tx, Result, ok, err, Error, GrantsError, of_grants, ◌>>=◌, ◌>>◌, pure, fail_if,
  on_error, on_no_rows, optional, exec, commit, with_tx, auto, draw_uuid,
}
use playground_ledger.Queries.Accounts.{get_account_by_id, get_account_for_update, charge_account}
use playground_ledger.Queries.Entries.{CreateLedgerEntryParams, create_ledger_entry}
use playground_ledger.Queries.Grants.{
  CreateGrantParams, create_grant, CreateGrantLedgerEntryParams, create_grant_ledger_entry,
  is_active, deplete_grant, drawdown_grant, expire_active_grants, get_active_grants_by_account,
  lock_spendable_grants, get_grant_balance, get_grant_by_idempotency_key, get_grant_for_update,
  get_grants_by_account,
}
use playground_ledger.Ledger.{to_pg_text}

pub record IssueGrantRequest : Type 0 where
  pub account_id : ℕ
  pub amount : ℤ
  pub grant_type : String
  pub expires_at : ℕ
  pub idempotency_key : ℕ
  pub metadata : Metadata
  pub priority : ℤ

pub record DrawdownResult : Type 0 where
  pub grant_id : ℕ
  pub amount : ℤ
  pub consumed : ℤ

pub record GrantDrawdown : Type 0 where
  pub grant_id : ℕ
  pub consumed : ℤ

pub record WaterfallResult : Type 0 where
  pub grants_consumed : List GrantDrawdown
  pub cash_consumed : ℤ
  pub new_cash_balance : ℤ

abbrev pub is_zero : ℤ → Bool
is_zero x = leb_ℤ x (pos 0) && leb_ℤ (pos 0) x

-- `decimal.Min`
abbrev pub min_ℤ : ℤ → ℤ → ℤ
min_ℤ a b = if leb_ℤ a b then a else b

-- The loops that add up `RemainingAmount`.
abbrev pub available : List CreditGrant → ℤ
available gs = sum (λ (g : CreditGrant). g.remaining_amount) gs

abbrev pub grant_params : IssueGrantRequest → CreateGrantParams
grant_params req = record {
  account_id = req.account_id;
  grant_type = req.grant_type;
  initial_amount = req.amount;
  expires_at = req.expires_at;
  idempotency_key = req.idempotency_key;
  metadata = req.metadata;
  priority = req.priority;
}

abbrev pub drawdown_entry : ℕ → ℤ → ℤ → Option String → ℕ → CreateGrantLedgerEntryParams
drawdown_entry grant_id consumed remaining_after description key = record {
  grant_id = grant_id;
  entry_type = drawdown;
  amount = consumed;
  remaining_after = remaining_after;
  description = description;
  idempotency_key = some key;
}

abbrev pub cash_entry : ℕ → ℤ → ℤ → String → CreateLedgerEntryParams
cash_entry account_id amount balance_after description = record {
  account_id = account_id;
  entry_type = debit;
  amount = amount;
  balance_after = balance_after;
  transaction_id = none;
  description = to_pg_text description;
  metadata = [];
  idempotency_key = none;
}

module _ (env : Env) where
  -- A key that is known already: the grant that it named is returned.
  unfoldable pub issue_new : IssueGrantRequest → Option CreditGrant → Tx CreditGrant
  issue_new req (some existing) = pure existing
  issue_new req none = do
    on_error (of_grants GrantsError.account_not_found) (auto env (get_account_by_id req.account_id))
    auto env (create_grant (grant_params req))

  unfoldable pub issue_grant : IssueGrantRequest → Tx CreditGrant
  issue_grant req = do
    fail_if (leb_ℤ req.amount (pos 0)) (of_grants GrantsError.invalid_amount)
    existing ← optional (auto env (get_grant_by_idempotency_key req.idempotency_key))
    issue_new req existing

  -- Consume the whole of a grant, or a part of it.
  unfoldable pub take_from : ℕ → CreditGrant → ℤ → Tx ℤ
  take_from grant_id locked remaining =
      if leb_ℤ locked.remaining_amount remaining
      then (do exec env (deplete_grant grant_id); pure locked.remaining_amount)
      else (do exec env (drawdown_grant grant_id remaining); pure remaining)

  -- One round of the loop on a locked grant; `rest` is the remaining rounds.
  unfoldable pub draw_locked :
      ℕ → CreditGrant → ℤ → (ℤ → Tx (List DrawdownResult)) → Tx (List DrawdownResult)
  draw_locked grant_id locked remaining rest =
      if not (is_active locked.status) then rest remaining else (do
        consumed ← take_from grant_id locked remaining
        key ← draw_uuid env
        exec env (
            create_grant_ledger_entry (
              drawdown_entry grant_id consumed (locked.remaining_amount -ℤ consumed)
                (to_pg_text "Credit drawdown") key))
        results ← rest (remaining -ℤ consumed)
        pure (record { grant_id = grant_id; amount = consumed; consumed = consumed } ∷ results))

  unfoldable pub draw_all : List CreditGrant → ℤ → Tx (List DrawdownResult)
  draw_all [] remaining = pure []
  draw_all (g ∷ gs) remaining =
      let rest = draw_all gs in
      if is_zero remaining then pure [] else (do
        locked ← exec env (get_grant_for_update g.id)
        draw_locked g.id locked remaining rest)

  -- The body of the transaction. The idempotency key of the call is not used.
  unfoldable pub drawdown_tx : ℕ → ℤ → Tx (List DrawdownResult)
  drawdown_tx account_id amount = do
    active ← exec env (get_active_grants_by_account account_id)
    fail_if (ltb_ℤ (available active) amount) (of_grants GrantsError.insufficient_grants)
    results ← draw_all active amount
    commit env
    pure results

  unfoldable pub draw_down : ℕ → ℤ → ℕ → Tx (List DrawdownResult)
  draw_down account_id amount idempotency_key = do
    fail_if (leb_ℤ amount (pos 0)) (of_grants GrantsError.invalid_amount)
    with_tx env (drawdown_tx account_id amount)

  -- A grant that is emptied is depleted; any other is drawn down.
  unfoldable pub spend_grant : CreditGrant → ℤ → ℤ → Tx (Unit {0})
  spend_grant g consumed new_remaining =
      if is_zero new_remaining
      then exec env (deplete_grant g.id)
      else (do exec env (drawdown_grant g.id consumed); pure tt)

  -- One round of the loop over the locked grants; `rest` is the remaining rounds.
  unfoldable pub spend_round :
      String → CreditGrant → ℤ → (ℤ → Tx (List GrantDrawdown × ℤ)) → Tx (List GrantDrawdown × ℤ)
  spend_round description g remaining rest = do
    let consumed = min_ℤ g.remaining_amount remaining
    let new_remaining = g.remaining_amount -ℤ consumed
    spend_grant g consumed new_remaining
    key ← draw_uuid env
    exec env (
        create_grant_ledger_entry
          (drawdown_entry g.id consumed new_remaining (to_pg_text description) key))
    (results, left) ← rest (remaining -ℤ consumed)
    pure (record { grant_id = g.id; consumed = consumed } ∷ results, left)

  -- The loop: what each grant gave, and what is left to pay.
  unfoldable pub spend_grants : String → List CreditGrant → ℤ → Tx (List GrantDrawdown × ℤ)
  spend_grants description [] remaining = pure ([], remaining)
  spend_grants description (g ∷ gs) remaining =
      let rest = spend_grants description gs in
      if is_zero remaining then pure ([], remaining) else spend_round description g remaining rest

  -- The balance goes down and gets its entry.
  unfoldable pub take_cash : ℕ → ℤ → ℤ → String → Tx ℤ
  take_cash account_id new_cash_balance remaining description = do
    exec env (charge_account account_id remaining)
    exec env (create_ledger_entry (cash_entry account_id remaining new_cash_balance description))
    pure new_cash_balance

  -- The remainder comes from cash: the new balance.
  unfoldable pub charge_cash : ℕ → ℤ → ℤ → String → Tx ℤ
  charge_cash account_id cash_balance remaining description =
      if ltb_ℤ (pos 0) remaining
      then take_cash account_id (cash_balance -ℤ remaining) remaining description
      else pure cash_balance

  -- The rest of the transaction, once the account and its grants are locked.
  unfoldable pub pay : ℕ → ℤ → String → Account → List CreditGrant → Tx WaterfallResult
  pay account_id amount description account grants = do
    fail_if (ltb_ℤ (available grants +ℤ account.balance) amount)
        (of_grants GrantsError.insufficient_funds)
    (results, remaining) ← spend_grants description grants amount
    new_cash ← charge_cash account_id account.balance remaining description
    commit env
    pure (record {
      grants_consumed = results;
      cash_consumed = remaining;
      new_cash_balance = new_cash;
    })

  unfoldable pub waterfall_tx : ℕ → ℤ → String → Tx WaterfallResult
  waterfall_tx account_id amount description = do
    account ←
        on_no_rows (of_grants GrantsError.account_not_found)
          (exec env (get_account_for_update account_id))
    grants ← exec env (lock_spendable_grants account_id)
    pay account_id amount description account grants

  -- The idempotency key of the call is not used.
  unfoldable pub waterfall_debit : ℕ → ℤ → ℕ → String → Tx WaterfallResult
  waterfall_debit account_id amount idempotency_key description = do
    fail_if (leb_ℤ amount (pos 0)) (of_grants GrantsError.invalid_amount)
    with_tx env (waterfall_tx account_id amount description)

  unfoldable pub expire_grants : Tx ℕ
  expire_grants = auto env expire_active_grants

  unfoldable pub get_available_balance : ℕ → Tx ℤ
  get_available_balance account_id = auto env (get_grant_balance account_id)

  unfoldable pub get_grants : ℕ → ℤ → ℤ → Tx (List CreditGrant)
  get_grants account_id limit offset = auto env (get_grants_by_account account_id limit offset)
