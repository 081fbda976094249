-- ===== src/Ledger/Batch.antt =====
-- ExecBatch of postgre-setup/go/internal/ledger/service.go: the commands that it sends over one
-- connection, and the loop that gives each operation its result. What the connection does is a
-- parameter: whether it can be had, whether it can be flushed, and what GetResults returns.
pub mod Results
pub mod Commands
use playground_ledger.Prelude.{
  ℕ, zero, suc, ◌+◌, ◌-◌, ◌%◌, ◌==◌, ◌||◌, Bool, true, false, Option, none, some, List, [], ◌∷◌,
  map, length, ltb, ℤ, if◌then◌else◌,
}
use playground_ledger.Store.{Error, no_rows}

pub data BatchOpType : Type 0 where
  deposit withdraw : BatchOpType

pub record BatchOp : Type 0 where
  pub op_type : BatchOpType
  pub account_id : ℕ
  pub amount : ℤ

-- `err` is nil in a result that no answer has reached, and in a success.
pub record BatchResult : Type 0 where
  pub success : Bool
  pub err : Option Error

abbrev pub succeeded : BatchResult
succeeded = record { success = true; err = none }

abbrev pub failed_with : Error → BatchResult
failed_with e = record { success = false; err = some e }

-- `make([]BatchResult, len(ops))`
abbrev pub unset : BatchResult
unset = record { success = false; err = none }

-- depositAtomicSQL or withdrawAtomicSQL with its parameters, or a Sync.
pub data Command : Type 0 where
  deposit_sql withdraw_sql : ℕ → ℤ → Command
  sync : Command

abbrev pub query_of : BatchOpType → ℕ → ℤ → Command
query_of BatchOpType.deposit id amount = deposit_sql id amount
query_of BatchOpType.withdraw id amount = withdraw_sql id amount

abbrev pub batch_sync_group : ℕ
batch_sync_group = 10

-- The operations from the i-th on, of n.
unfoldable pub send_from : ℕ → ℕ → List BatchOp → List Command
send_from n i [] = []
send_from n i (op ∷ ops) =
    let rest = send_from n (suc i) ops in
    query_of op.op_type op.account_id op.amount
    ∷ (if ((i + 1) % batch_sync_group == 0) || (i == n - 1) then sync ∷ rest else rest)

unfoldable pub send : List BatchOp → List Command
unfolding send_from
send ops = send_from (length ops) 0 ops

-- What GetResults returns before it returns (nil, nil): a result with a row, one without a row and
-- the error of closing it, a failure, or the end of a group.
pub data Event : Type 0 where
  row : Event
  no_row : Option Error → Event
  failure : Error → Event
  synced : Event

abbrev pub closed : Option Error → BatchResult
closed none = failed_with no_rows
closed (some e) = failed_with e

-- `results[i] = r`
unfoldable pub set_at : {A : Type 0} → ℕ → A → List A → List A
set_at i r [] = []
set_at zero r (x ∷ xs) = r ∷ xs
set_at (suc i) r (x ∷ xs) = x ∷ set_at i r xs

-- The loop, at the i-th operation.
unfoldable pub read_results : ℕ → List BatchResult → List Event → List BatchResult
read_results i results [] = results
read_results i results (row ∷ events) =
    let rest = read_results (suc i) (set_at i succeeded results) events in
    if ltb i (length results) then rest else results
read_results i results (no_row close_err ∷ events) =
    let rest = read_results (suc i) (set_at i (closed close_err) results) events in
    if ltb i (length results) then rest else results
read_results i results (failure e ∷ events) =
    let rest = read_results (suc i) (set_at i (failed_with e) results) events in
    if ltb i (length results) then rest else results
read_results i results (synced ∷ events) =
    let rest = read_results i results events in if ltb i (length results) then rest else results

-- The errors of Acquire and of Flush, and the events of the pipeline. After the events GetResults
-- returns (nil, nil), or an error each time it is called (`stuck`), as a pipeline does that has
-- failed.
pub record Connection : Type 0 where
  pub stuck : Option Error
  pub acquire_error : Option Error
  pub flush_error : Option Error
  pub events : List Event

abbrev pub all_failed : Error → List BatchOp → List BatchResult
all_failed e ops = map (λ op. failed_with e) ops

abbrev pub flushed : Option Error → List Event → List BatchOp → List BatchResult
flushed none events ops = read_results 0 (map (λ op. unset) ops) events
flushed (some e) events ops = all_failed e ops

abbrev pub acquired : Option Error → Option Error → List Event → List BatchOp → List BatchResult
acquired none f events ops = flushed f events ops
acquired (some e) f events ops = all_failed e ops

-- The results once their loop has ended. Without operations nothing is sent, and there is none.
unfoldable pub results_of : Connection → List BatchOp → List BatchResult
unfolding read_results
results_of c [] = []
results_of c (op ∷ ops) = acquired c.acquire_error c.flush_error c.events (op ∷ ops)

-- The loop that drains the pipeline ends with (nil, nil) alone: `none` if that never comes.
abbrev pub drained :
    Option Error → Option Error → Option Error → List BatchResult → Option (List BatchResult)
drained (some acquire_error) flush_error stuck results = some results
drained none (some flush_error) stuck results = some results
drained none none none results = some results
drained none none (some e) results = none

unfoldable pub exec_batch : Connection → List BatchOp → Option (List BatchResult)
unfolding results_of
exec_batch c [] = some []
exec_batch c (op ∷ ops) = drained c.acquire_error c.flush_error c.stuck (results_of c (op ∷ ops))
