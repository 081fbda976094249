-- ===== src/Client/Verify.antt =====
-- The scenarios of postgre-setup/go/cmd/stress/verify.go: deposits, withdrawals and transfers over
-- the API, and what the balances must be afterwards. An amount is read as the bit pattern of an
-- int64 by `parse_amount`, which stands for parse_decimal over the float64 at hand; nothing is
-- assumed of it. The requests of a chunk take effect one at a time, in the order of the list.
pub mod Draws
pub mod Chunks
use playground_ledger.Prelude.{
  ℕ, zero, suc, ◌+◌, ◌-◌, ◌*◌, ◌%◌, ◌^◌, ◌==◌, Bool, true, false, not, Option, none, some, List, [],
  ◌∷◌, ◌++◌, length, take, drop, leb, ltb, if◌then◌else◌,
}
use playground_ledger.Stats.{add64}
use playground_ledger.Middleware.{Bytes, same_bytes}
use playground_ledger.Client.{StressResult}
use playground_ledger.Client.Decimals.{decimal_scale}

pub record AccountInfo : Type 0 where
  pub id : Bytes
  pub user_id : Bytes
  pub currency : Bytes
  pub balance : Bytes

-- ReconcileResponse, less the rows that are printed.
pub record ReconcileResponse : Type 0 where
  pub ok : Bool
  pub discrepancy_count : ℕ

-- The methods of LedgerClient, over what the server is: an account, an amount and a user for a
-- deposit and for a withdrawal, two accounts, an amount and a user for a transfer.
pub record LedgerApi (S : Type 0) : Type 0 where
  pub deposit : Bytes → Bytes → Bytes → S → StressResult × S
  pub withdraw : Bytes → Bytes → Bytes → S → StressResult × S
  pub transfer : Bytes → Bytes → Bytes → Bytes → S → StressResult × S
  pub get_all_users : ℕ → S → Option (List AccountInfo) × S
  pub reconcile : ℕ → S → Option ReconcileResponse × S

-- parseDecimal, over strconv.ParseFloat, the product of float64 and math.Round with the conversion
-- to int64.
abbrev pub parse_decimal : {F : Type 0} → (Bytes → F) → (F → ℕ → F) → (F → ℕ) → Bytes → ℕ
parse_decimal parse_float times round text = round (times (parse_float text) decimal_scale)

abbrev pub sub64 : ℕ → ℕ → ℕ
sub64 a b = (a + 2 ^ 64 - b) % 2 ^ 64

abbrev pub mul64 : ℕ → ℕ → ℕ
mul64 a b = a * b % 2 ^ 64

abbrev pub verify_limit : ℕ
verify_limit = 2000

abbrev pub concurrency : ℕ
concurrency = 50

pub data IndOp : Type 0 where
  deposit_op withdraw_op : AccountInfo → IndOp

-- A deposit and a withdrawal for each account.
unfoldable pub both_ops : List AccountInfo → List IndOp
both_ops [] = []
both_ops (a ∷ accounts) = deposit_op a ∷ withdraw_op a ∷ both_ops accounts

unfoldable pub all_ops : ℕ → List AccountInfo → List IndOp
unfolding both_ops
all_ops zero accounts = []
all_ops (suc n) accounts = both_ops accounts ++ all_ops n accounts

pub data Kind : Type 0 where
  a_deposit a_withdrawal : Kind

-- `res`: what became of one operation.
pub record OpResult : Type 0 where
  pub kind : Kind
  pub account_id : Bytes
  pub success : Bool

-- `netOps`, a map whose missing keys are 0, and the counters.
pub record NetTally : Type 0 where
  pub net : Bytes → ℕ
  pub deposit_ok : ℕ
  pub withdraw_ok : ℕ
  pub errors : ℕ

abbrev pub no_ops_yet : NetTally
no_ops_yet = record { net = λ j. 0; deposit_ok = 0; withdraw_ok = 0; errors = 0 }

abbrev pub at_key : Bytes → (ℕ → ℕ) → (Bytes → ℕ) → Bytes → ℕ
at_key id f net j = if same_bytes id j then f (net j) else net j

unfoldable pub count_result : OpResult → NetTally → NetTally
count_result r t = elim r.success [
  | false ↦ record t { errors = t.errors + 1 }
  | true ↦ elim r.kind [
    | a_deposit ↦ record t {
      net = at_key r.account_id (λ n. add64 n 1) t.net;
      deposit_ok = t.deposit_ok + 1;
    }
    | a_withdrawal ↦ record t {
      net = at_key r.account_id (λ n. sub64 n 1) t.net;
      withdraw_ok = t.withdraw_ok + 1;
    }
  ]
]

unfoldable pub count_results : List OpResult → NetTally → NetTally
unfolding count_result
count_results [] t = t
count_results (r ∷ rs) t = count_results rs (count_result r t)

-- `finalBal[a.ID] = …` for each account in turn: the last one counts.
unfoldable pub last_balance : (Bytes → ℕ) → List AccountInfo → Bytes → Option ℕ
last_balance parse_amount [] id = none
last_balance parse_amount (a ∷ accounts) id =
    let rest = last_balance parse_amount accounts id in
    elim rest [
      | some n ↦ some n
      | none ↦ if same_bytes a.id id then some (parse_amount a.balance) else none
    ]

abbrev pub or_else : Option ℕ → ℕ → ℕ
or_else none n = n
or_else (some m) n = m

-- The wanted balance against the one that was found, an account that is missing having its first.
abbrev pub is_off : (Bytes → ℕ) → ℕ → NetTally → List AccountInfo → AccountInfo → Bool
is_off parse_amount amount t after a =
    let init = parse_amount a.balance in
    not (
      add64 init (mul64 (t.net a.id) amount) == or_else (last_balance parse_amount after a.id) init)

unfoldable pub balance_failures :
    (Bytes → ℕ) → ℕ → NetTally → List AccountInfo → List AccountInfo → ℕ
balance_failures parse_amount amount t after [] = 0
balance_failures parse_amount amount t after (a ∷ accounts) =
    let rest = balance_failures parse_amount amount t after accounts in
    if is_off parse_amount amount t after a then rest + 1 else rest

-- The answers of a scenario: whether it passed, with its counters.
pub record Verdict : Type 0 where
  pub passed : Bool
  pub done : ℕ
  pub failed : ℕ

abbrev pub not_fetched : Verdict
not_fetched = record { passed = false; done = 0; failed = 0 }

-- The pairs of accounts that rand.Intn draws: an index out of range panics.
abbrev pub at_index : List AccountInfo → ℕ → Option AccountInfo
at_index [] i = none
at_index (a ∷ accounts) zero = some a
at_index (a ∷ accounts) (suc i) = at_index accounts i

abbrev pub destination_index : ℕ → ℕ → ℕ
destination_index src dst = if leb src dst then dst + 1 else dst

abbrev pub pair_of :
    Option AccountInfo
    → Option AccountInfo
    → Option (List (AccountInfo × AccountInfo))
    → Option (List (AccountInfo × AccountInfo))
pair_of (some src) (some dst) (some rest) = some ((src, dst) ∷ rest)
pair_of _ _ _ = none

unfoldable pub random_transfers :
    List AccountInfo → List (ℕ × ℕ) → Option (List (AccountInfo × AccountInfo))
random_transfers accounts [] = some []
random_transfers accounts ((src, dst) ∷ draws) =
    pair_of (at_index accounts src) (at_index accounts (destination_index src dst))
      (random_transfers accounts draws)

unfoldable pub count_successes : List Bool → ℕ × ℕ → ℕ × ℕ
count_successes [] t = t
count_successes (b ∷ bs) (done, failed) =
    count_successes bs (if b then (done + 1, failed) else (done, failed + 1))

unfoldable pub sum_balances : (Bytes → ℕ) → List AccountInfo → ℕ
sum_balances parse_amount [] = 0
sum_balances parse_amount (a ∷ accounts) =
    add64 (parse_amount a.balance) (sum_balances parse_amount accounts)

unfoldable pub sum_after : (Bytes → ℕ) → List AccountInfo → List AccountInfo → ℕ
unfolding last_balance
sum_after parse_amount after [] = 0
sum_after parse_amount after (a ∷ accounts) =
    add64 (or_else (last_balance parse_amount after a.id) (parse_amount a.balance))
      (sum_after parse_amount after accounts)

module _ {S : Type 0} (api : LedgerApi S) (parse_amount : Bytes → ℕ) (amount : Bytes) where
  abbrev token : AccountInfo → Bytes
  token a = b'd' ∷ b'e' ∷ b'v' ∷ b'_' ∷ a.user_id

  abbrev pub result_of : Kind → AccountInfo → StressResult × S → OpResult × S
  result_of k a (r, s) = (record { kind = k; account_id = a.id; success = r.success }, s)

  unfoldable pub run_op : IndOp → S → OpResult × S
  run_op (deposit_op a) s = result_of a_deposit a (api.deposit a.id amount (token a) s)
  run_op (withdraw_op a) s = result_of a_withdrawal a (api.withdraw a.id amount (token a) s)

  -- `results`, in the places of their operations.
  unfoldable pub run_ops : List IndOp → S → List OpResult × S
  unfolding run_op
  run_ops [] s = ([], s)
  run_ops (op ∷ ops) s = let (r, s1) = run_op op s in let (rs, s2) = run_ops ops s1 in (r ∷ rs, s2)

  abbrev pub count_chunk : List OpResult × S → NetTally → NetTally × S
  count_chunk (rs, s) t = (count_results rs t, s)

  -- Chunk by chunk; a chunk more than the operations is never needed.
  unfoldable pub run_chunks : ℕ → List IndOp → NetTally → S → NetTally × S
  unfolding run_ops count_results
  run_chunks fuel [] t s = (t, s)
  run_chunks zero (op ∷ ops) t s = (t, s)
  run_chunks (suc fuel) (op ∷ ops) t s =
      let (t1, s1) = count_chunk (run_ops (take concurrency (op ∷ ops)) s) t in
      run_chunks fuel (drop concurrency (op ∷ ops)) t1 s1

  abbrev pub judge : List AccountInfo → NetTally → Option (List AccountInfo) × S → Verdict × S
  judge accounts t (none, s) = (not_fetched, s)
  judge accounts t (some after, s) = (
    record {
      passed = balance_failures parse_amount (parse_amount amount) t after accounts == 0;
      done = t.deposit_ok + t.withdraw_ok;
      failed = t.errors;
    },
    s,
  )

  unfoldable pub scenario1 : (List IndOp → List IndOp) → List AccountInfo → ℕ → S → Verdict × S
  unfolding run_chunks all_ops balance_failures
  scenario1 shuffle accounts ops_per_account s =
      let ops = shuffle (all_ops ops_per_account accounts) in
      let (t, s1) = run_chunks (length ops) ops no_ops_yet s in
      judge accounts t (api.get_all_users verify_limit s1)

  abbrev pub success_of : StressResult × S → Bool × S
  success_of (r, s) = (r.success, s)

  unfoldable pub run_transfers : List (AccountInfo × AccountInfo) → S → List Bool × S
  run_transfers [] s = ([], s)
  run_transfers ((src, dst) ∷ transfers) s =
      let (b, s1) = success_of (api.transfer src.id dst.id amount (token src) s) in
      let (bs, s2) = run_transfers transfers s1 in (b ∷ bs, s2)

  abbrev pub count_transfers : List Bool × S → ℕ × ℕ → (ℕ × ℕ) × S
  count_transfers (bs, s) t = (count_successes bs t, s)

  unfoldable pub transfer_chunks : ℕ → List (AccountInfo × AccountInfo) → ℕ × ℕ → S → (ℕ × ℕ) × S
  unfolding run_transfers count_successes
  transfer_chunks fuel [] t s = (t, s)
  transfer_chunks zero (x ∷ xs) t s = (t, s)
  transfer_chunks (suc fuel) (x ∷ xs) t s =
      let (t1, s1) = count_transfers (run_transfers (take concurrency (x ∷ xs)) s) t in
      transfer_chunks fuel (drop concurrency (x ∷ xs)) t1 s1

  abbrev pub judge_sum : List AccountInfo → ℕ × ℕ → Option (List AccountInfo) × S → Verdict × S
  judge_sum accounts t (none, s) = (not_fetched, s)
  judge_sum accounts (ok, failed) (some after, s) = (
    record {
      passed =
          sub64 (sum_after parse_amount after accounts) (sum_balances parse_amount accounts) == 0;
      done = ok;
      failed = failed;
    },
    s,
  )

  abbrev run_drawn :
      List AccountInfo → Option (List (AccountInfo × AccountInfo)) → S → Option (Verdict × S)
  run_drawn accounts none s = none
  run_drawn accounts (some transfers) s =
      let (t, s1) = transfer_chunks (length transfers) transfers (0, 0) s in
      some (judge_sum accounts t (api.get_all_users verify_limit s1))

  -- `none` is a panic.
  unfoldable pub scenario2 : List AccountInfo → List (ℕ × ℕ) → S → Option (Verdict × S)
  unfolding random_transfers transfer_chunks sum_balances sum_after
  scenario2 accounts draws s = run_drawn accounts (random_transfers accounts draws) s

abbrev pub judge_reconcile : {S : Type 0} → Option ReconcileResponse × S → Verdict × S
judge_reconcile (none, s) = (not_fetched, s)
judge_reconcile (some rec, s) =
    (record { passed = rec.ok; done = 0; failed = rec.discrepancy_count }, s)

-- No sample: every account.
unfoldable pub scenario3 : {S : Type 0} → LedgerApi S → S → Verdict × S
scenario3 api s = judge_reconcile (api.reconcile 0 s)
