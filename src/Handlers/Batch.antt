-- ===== src/Handlers/Batch.antt =====
-- Batch of postgre-setup/go/internal/api/handlers/wallet.go: the operations of a request are checked
-- one by one, those that pass go to ExecBatch, and the results return to their places.
pub mod Places
pub mod Panics
use playground_ledger.Prelude.{
  ℕ, zero, suc, Bool, true, false, Option, none, some, List, [], ◌∷◌, map, String, str_eq, ℤ,
  if◌then◌else◌,
}
use playground_ledger.Store.{Error}
use playground_ledger.Middleware.{Bytes}
use playground_ledger.Ledger.Batch.{
  BatchOpType, BatchOp, BatchResult, Connection, exec_batch, set_at,
}
use playground_ledger.Handlers.{Reply, failure, success, Parsers}

-- BatchOp and BatchResult of the handlers.
pub record BatchRequest : Type 0 where
  pub op : String
  pub account_id : Bytes
  pub amount : Bytes

pub record BatchReply : Type 0 where
  pub success : Bool
  pub error : String

abbrev pub error_reply : String → BatchReply
error_reply message = record { success = false; error = message }

abbrev pub success_reply : BatchReply
success_reply = record { success = true; error = "" }

pub data Checked : Type 0 where
  refused : String → Checked
  accepted : BatchOp → Checked

abbrev pub op_type_of : String → Option BatchOpType
op_type_of op =
    if str_eq op "deposit"
    then some BatchOpType.deposit
    else if str_eq op "withdraw"
    then some BatchOpType.withdraw
    else none

abbrev pub check_type : ℕ → ℤ → Option BatchOpType → Checked
check_type account_id amount none = refused "unknown op"
check_type account_id amount (some t) =
    accepted (record { op_type = t; account_id = account_id; amount = amount })

abbrev pub check_amount : String → ℕ → Option ℤ → Checked
check_amount op account_id none = refused "invalid amount"
check_amount op account_id (some amount) = check_type account_id amount (op_type_of op)

abbrev pub check_account : String → Option ℤ → Option ℕ → Checked
check_account op amount none = refused "invalid account_id"
check_account op amount (some account_id) = check_amount op account_id amount

-- One round of the loop over the operations.
unfoldable pub check : Parsers → BatchRequest → Checked
check parse r = check_account r.op (parse.parse_decimal r.amount) (parse.parse_uuid r.account_id)

-- results, batchOps and indices.
pub record Collected : Type 0 where
  pub results : List BatchReply
  pub batch_ops : List BatchOp
  pub indices : List ℕ

abbrev pub collect_one : ℕ → Checked → Collected → Collected
collect_one i (refused message) c = record c { results = error_reply message ∷ c.results }
collect_one i (accepted op) c = record {
  results = error_reply "" ∷ c.results;
  batch_ops = op ∷ c.batch_ops;
  indices = i ∷ c.indices;
}

-- The rounds from the i-th on.
unfoldable pub collect : ℕ → List Checked → Collected
collect i [] = record { results = []; batch_ops = []; indices = [] }
collect i (x ∷ checked) = collect_one i x (collect (suc i) checked)

-- `error_text` is the method Error. `none` is no answer: a panic, here of a nil error, or a call
-- that does not return.
module _ (error_text : Error → String) where
  abbrev pub reply_of_error : Option Error → Option BatchReply
  reply_of_error none = none
  reply_of_error (some e) = some (error_reply (error_text e))

  abbrev pub reply_of : BatchResult → Option BatchReply
  reply_of r = if r.success then some success_reply else reply_of_error r.err

  -- `results[indices[j]] = …`
  abbrev pub put_reply :
      Option BatchReply
      → ℕ
      → List BatchReply
      → (List BatchReply → Option (List BatchReply))
      → Option (List BatchReply)
  put_reply none i results rest = none
  put_reply (some r) i results rest = rest (set_at i r results)

  unfoldable pub scatter : List BatchResult → List ℕ → List BatchReply → Option (List BatchReply)
  scatter [] indices results = some results
  scatter (r ∷ rs) [] results = none
  scatter (r ∷ rs) (i ∷ indices) results = put_reply (reply_of r) i results (scatter rs indices)

  -- Where ExecBatch does not return there is no answer.
  abbrev pub scatter_results :
      Option (List BatchResult) → List ℕ → List BatchReply → Option (List BatchReply)
  scatter_results none indices results = none
  scatter_results (some rs) indices results = scatter rs indices results

  -- Where no operation has passed, the service is not called.
  abbrev pub run_batch : Connection → Collected → Option (List BatchReply)
  run_batch connection c = scatter_results (exec_batch connection c.batch_ops) c.indices c.results

  unfoldable pub batch_results : Connection → List Checked → Option (List BatchReply)
  unfolding collect scatter
  batch_results connection checked = run_batch connection (collect 0 checked)

  abbrev answered : Option (List BatchReply) → Option (Reply (List BatchReply))
  answered none = none
  answered (some results) = some (success 200 results)

  abbrev batch_body :
      Parsers → Connection → Option (List BatchRequest) → Option (Reply (List BatchReply))
  batch_body parse connection none = some (failure 400 "invalid request body")
  batch_body parse connection (some ops) =
      answered (batch_results connection (map (check parse) ops))

  -- Without operations the answer is empty, as that of the general case.
  unfoldable pub batch_handler :
      Parsers
      → (Bytes → Option (List BatchRequest))
      → Connection
      → Bytes
      → Option (Reply (List BatchReply))
  batch_handler parse decode connection body = batch_body parse connection (decode body)
