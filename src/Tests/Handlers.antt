-- ===== src/Tests/Handlers.antt =====
-- The theorems on the handlers of postgre-setup/go/internal/api/handlers and on the batches of
-- postgre-setup/go/internal/ledger/service.go at work.
use playground_ledger.Prelude.{
  ◌≤◌, ℕ, ◌≡◌, refl, true, false, List, [], ◌∷◌, map, take, drop, keep, not, length, leb, Option,
  none, some, String, ℤ, pos, arith,
}
use playground_ledger.Tests.{calm, world}
use playground_ledger.Store.{Error, pg, PgError}
use playground_ledger.Middleware.{Bytes}
use playground_ledger.Handlers.{Request, Printers, Parsers, status, failure, success}
use playground_ledger.Handlers.Input.{show}
use playground_ledger.Handlers.Wallet.{
  DepositBody, WithdrawBody, TransferBody, deposit_handler, withdraw_handler, transfer_handler,
  get_all_users, user_account_response,
}
use playground_ledger.Handlers.Grants.{
  DrawdownBody, IssueGrantBody, WaterfallBody, drawdown_handler, issue_grant_handler,
  waterfall_handler,
}
use playground_ledger.Handlers.Payments.{Says, Deposits, Withdraws, Transfers, handlers-balances}
use playground_ledger.Handlers.Status.{asked_status, money_status, handlers-status}
use playground_ledger.Handlers.Refusals.{transfer_handler-refuses}
use playground_ledger.Handlers.Settling.{Answers, SettlesRequest, waterfall_handler-Settles}
use playground_ledger.Handlers.Paging.{scanned, get_all_users-page}
use playground_ledger.Handlers.Batch.{Checked, refused, accepted, batch_results}
use playground_ledger.Handlers.Batch.Places.{merged, passed, batch_results-merge}
use playground_ledger.Handlers.Batch.Panics.{is_answer, working, hanging, batch_results-answers}
use playground_ledger.Ledger.Batch.{
  BatchOp, BatchOpType, query_of, send, Event, row, synced, exec_batch, failed_with, unset,
}
use playground_ledger.Ledger.Batch.Results.{answers, fill, exec_batch-fill}
use playground_ledger.Ledger.Batch.Commands.{is_sync, grouped, send-grouped}
use playground_ledger.Client.{do_txn}
use playground_ledger.Client.Replies.{sent, is_success, do_txn-success}

-- Identifiers and amounts of one byte.
abbrev first : Bytes → Option ℕ
first [] = none
first (c ∷ cs) = some c

abbrev amount_of : Option ℕ → Option ℤ
amount_of none = none
amount_of (some n) = some (pos n)

abbrev pub parsers : Parsers
parsers = record {
  parse_uuid = first;
  parse_decimal = λ text. amount_of (first text);
  parse_time = first;
}

abbrev pub printers : Printers
printers = record { uuid_text = show; decimal_text = λ amount. []; time_text = show }

abbrev request : Request
request = record {
  account_id = 10 ∷ [];
  body = 5 ∷ [];
  idempotency_key = some 8;
  limit = show 50;
  offset = show 1;
}

abbrev decode_deposit : Bytes → Option DepositBody
decode_deposit text = some (record { amount = text; currency = [] })

abbrev decode_withdraw : Bytes → Option WithdrawBody
decode_withdraw text = some (record { amount = text })

abbrev decode_transfer : Bytes → Option TransferBody
decode_transfer text = some (record { to_account_id = 11 ∷ []; amount = text })

abbrev decode_free_transfer : Bytes → Option TransferBody
decode_free_transfer text = some (record { to_account_id = 11 ∷ []; amount = 0 ∷ [] })

abbrev decode_drawdown : Bytes → Option DrawdownBody
decode_drawdown text = some (record { amount = text })

abbrev decode_issue : Bytes → Option IssueGrantBody
decode_issue text = some (record {
  amount = text;
  grant_type = "MANUAL";
  expires_at = 200 ∷ [];
  metadata = [];
  priority = pos 0;
})

abbrev decode_waterfall : Bytes → Option WaterfallBody
decode_waterfall text = some (record { amount = text; description = "usage" })

handlers-balances_example :
    Says world.committed
      (Deposits calm parsers printers request world (λ n db. refl) decode_deposit)
      (deposit_handler calm parsers printers decode_deposit request world)
    × Says world.committed
        (Withdraws calm parsers printers request world (λ n db. refl) decode_withdraw)
        (withdraw_handler calm parsers printers decode_withdraw request world)
    × Says world.committed
        (Transfers calm parsers printers request world (λ n db. refl) decode_transfer)
        (transfer_handler calm parsers printers decode_transfer request world)
handlers-balances_example =
    handlers-balances calm parsers printers request world (λ n db. refl) decode_deposit
      decode_withdraw decode_transfer

handlers-status_example :
    (status (deposit_handler calm parsers printers decode_deposit request world).0
      ≡ asked_status
          (some 10)
          (some (pos 5))
          (some 8)
          (λ id amount. money_status calm id amount world))
    × (status (withdraw_handler calm parsers printers decode_withdraw request world).0
        ≡ asked_status
            (some 10)
            (some (pos 5))
            (some 8)
            (λ id amount. money_status calm id amount world))
handlers-status_example =
    handlers-status calm parsers printers request world decode_deposit decode_withdraw

transfer_handler-refuses_example :
    transfer_handler calm parsers printers decode_free_transfer request world
    ≡ (failure 500 "failed to process transfer", world)
transfer_handler-refuses_example =
    transfer_handler-refuses calm parsers printers request world decode_free_transfer
      (record { to_account_id = 11 ∷ []; amount = 0 ∷ [] }) 10 11 (pos 0) 8 (omega arith) refl refl
      refl refl refl refl

waterfall_handler-Settles_example :
    Answers
      (SettlesRequest calm parsers request decode_waterfall world)
      (waterfall_handler calm parsers printers decode_waterfall request world)
waterfall_handler-Settles_example =
    waterfall_handler-Settles calm parsers printers request world decode_waterfall (λ n db. refl)
      ((refl, tt), (tt, tt))

get_all_users-page_example :
    (get_all_users calm parsers printers request world).0
    ≡ success 200 (
        map
          (user_account_response printers)
          (take 50 (drop 1 (scanned (λ accounts. accounts) world.committed))))
get_all_users-page_example =
    get_all_users-page calm parsers printers request world 50 1 (omega arith) (omega arith)
      (omega arith) refl refl refl

abbrev op : BatchOp
op = record { op_type = BatchOpType.deposit; account_id = 10; amount = pos 5 }

abbrev ops : List BatchOp
ops = op ∷ op ∷ []

abbrev events : List Event
events = row ∷ synced ∷ []

abbrev fault : Error
fault = pg (PgError.other 0)

exec_batch-fill_example :
    (exec_batch
        (record { acquire_error = none; flush_error = none; stuck = none; events = events })
        ops
      ≡ some (fill (map (λ o. unset) ops) (answers events)))
    × (exec_batch
          (record { acquire_error = some fault; flush_error = none; stuck = none; events = events })
          ops
        ≡ some (map (λ o. failed_with fault) ops))
    × (exec_batch
          (record { acquire_error = none; flush_error = some fault; stuck = none; events = events })
          ops
        ≡ some (map (λ o. failed_with fault) ops))
    × ((o : BatchOp)
        → exec_batch
            (record {
              acquire_error = none;
              flush_error = none;
              stuck = some fault;
              events = events;
            })
            (o ∷ ops)
          ≡ none)
exec_batch-fill_example = exec_batch-fill ops events fault none none

send-grouped_example :
    (keep (λ c. not (is_sync c)) (send ops)
      ≡ map (λ (o : BatchOp). query_of o.op_type o.account_id o.amount) ops)
    × (grouped 0 (send ops) ≡ true)
send-grouped_example = send-grouped ops

abbrev error_text : Error → String
error_text e = "failed"

abbrev checked : List Checked
checked = accepted op ∷ refused "unknown op" ∷ accepted op ∷ []

batch_results-merge_example :
    batch_results error_text (working events) checked
    ≡ merged error_text checked (exec_batch (working events) (passed checked))
batch_results-merge_example = batch_results-merge error_text (working events) checked

batch_results-answers_example :
    (is_answer (batch_results error_text (working events) checked)
      ≡ leb (length (passed checked)) (length (answers events)))
    × (1 ≤ length (passed checked)
        → is_answer (batch_results error_text (hanging fault events) checked) ≡ false)
batch_results-answers_example = batch_results-answers error_text checked events fault

abbrev clock : ℕ → ℕ
clock n = n

do_txn-success_example :
    ((do_txn (sent (deposit_handler calm parsers printers decode_deposit request world).0)).success
      ≡ is_success (deposit_handler calm parsers printers decode_deposit request world).0)
    × ((do_txn
          (sent (withdraw_handler calm parsers printers decode_withdraw request world).0)).success
        ≡ is_success (withdraw_handler calm parsers printers decode_withdraw request world).0)
    × ((do_txn
          (sent (transfer_handler calm parsers printers decode_transfer request world).0)).success
        ≡ is_success (transfer_handler calm parsers printers decode_transfer request world).0)
    × ((do_txn
          (sent (drawdown_handler calm parsers printers decode_drawdown request world).0)).success
        ≡ is_success (drawdown_handler calm parsers printers decode_drawdown request world).0)
    × ((do_txn (
          sent
            (issue_grant_handler calm clock parsers printers decode_issue request world).0)).success
        ≡ false)
do_txn-success_example =
    do_txn-success calm clock parsers printers request world decode_deposit decode_withdraw
      decode_transfer decode_drawdown decode_issue
