-- ===== src/Tests.antt =====
-- A small database, and the theorems at work on it: postgre-setup/go/internal/{ledger,grants}.
pub mod Handlers
pub mod Client
pub mod TigerBeetle
pub mod Ledger
pub mod Verify
pub mod Seeding
use playground_ledger.Prelude.{ℕ, suc, ◌+◌, ◌-◌, ◌<◌, ◌≤◌, ◌≡◌, refl, none, [], ◌∷◌, ℤ, pos, ◌-ℤ◌}
use playground_ledger.Db.{Db, Account, CreditGrant, active}
use playground_ledger.Stats.{Phases, no_ops, bucket, record_op, record_idempotent, snapshot}
use playground_ledger.Stats.Totals.{IsBalanced, bucket_bounds, record_op-IsBalanced}
use playground_ledger.Db.{Transaction, TransactionType, completed}
use playground_ledger.Prelude.{some}
use playground_ledger.Ledger.Replay.{transfer_replays}
use playground_ledger.Grants.Reconciled.{waterfall_debit-drift}
use playground_ledger.Prelude.{Option, ◌++◌, false}
use playground_ledger.Middleware.{
  Bytes, bearer, dev, dev_local, identity, post, mutates, same_bytes, protect, reached,
  protect-reached,
}
use playground_ledger.Wallet.{signup_bonus_amount, register_user, get_or_create_user}
use playground_ledger.Wallet.Signup.{register_user-total}
use playground_ledger.Wallet.Registered.{IsRegistered, get_or_create_user-IsRegistered}
use playground_ledger.Prelude.{String, All, ◌↔◌, ◌⊎◌, ◌≤ℤ◌, arith}
use playground_ledger.Prelude.Table.{find}
use playground_ledger.Store.{Env, World, ok}
use playground_ledger.Ledger.Balances.{balances, moved, transferred, Moves, operations-balances}
use playground_ledger.Ledger.Report.{reconcile-drift}
use playground_ledger.Queries.Reconcile.{reconcile}
use playground_ledger.Grants.{IssueGrantRequest, issue_grant, draw_down, expire_grants}
use playground_ledger.Grants.Bounds.{IsSound}
use playground_ledger.Grants.Drawing.{drawn_sum}
use playground_ledger.Grants.Held.{held}
use playground_ledger.Grants.Drawn.{drawn_of}
use playground_ledger.Grants.Sound.{operations-IsSound, draw_down-within}
use playground_ledger.Store.Hoare.{OnSuccess}
use playground_ledger.Ledger.{TransferRequest, MoneyRequest, transfer, deposit, withdraw}
use playground_ledger.Ledger.Drift.{drift}
use playground_ledger.Ledger.Totals.{total}
use playground_ledger.Ledger.Invariants.{operations-drift, Gains, operations-total}
use playground_ledger.Grants.{waterfall_debit}
use playground_ledger.Grants.Refines.{Settles, waterfall_debit-Settles}

-- No statement fails, and no other session is at work.
abbrev pub calm : Env
calm = record {
  fault = λ n. none;
  others = λ n db. db;
  new_uuid = λ n. n + 1000;
  client_uuid = λ n. n + 2000;
  now = λ n. n;
  elapsed = λ i j. j - i;
  plan = λ n accounts. accounts;
}

abbrev pub account : ℕ → ℤ → Account
account id balance = record {
  id = id;
  user_id = 1;
  currency = "USD";
  balance = balance;
  pending_balance = pos 0;
  created_at = 0;
  updated_at = 0;
}

abbrev grant : ℕ → ℤ → ℕ → ℤ → CreditGrant
grant id remaining expires_at priority = record {
  id = id;
  account_id = 10;
  grant_type = "PROMOTION";
  initial_amount = pos 50;
  remaining_amount = remaining;
  expires_at = expires_at;
  status = active;
  idempotency_key = id;
  metadata = [];
  created_at = 0;
  priority = priority;
}

abbrev db : Db
db = record {
  users = record { id = 1; external_id = "a"; email = "b"; created_at = 0; updated_at = 0 } ∷ [];
  accounts = account 10 (pos 100) ∷ account 11 (pos 20) ∷ [];
  transactions = [];
  entries = [];
  grants = grant 30 (pos 25) 900 (pos 2) ∷ grant 31 (pos 30) 800 (pos 1) ∷ [];
  grant_entries = [];
}

abbrev pub world : World
world = record {
  committed = db;
  working = db;
  tick = 0;
  stats = record { in_flight = 0; deposits = no_ops; withdrawals = no_ops; transfers = no_ops };
}

abbrev pub transfer_request : TransferRequest
transfer_request = record {
  source_account_id = 10;
  destination_account_id = 11;
  amount = pos 30;
  description = "rent";
  idempotency_key = 7;
  metadata = [];
}

abbrev pub money_request : MoneyRequest
money_request = record {
  account_id = 10;
  amount = pos 5;
  description = "";
  idempotency_key = 8;
  metadata = [];
}

abbrev phases : Phases
phases = record { idp_ms = 1; lock_ms = 2; writes_ms = 3; commit_ms = 4 }

operations-drift_example :
    (drift 10 (transfer calm transfer_request world).1.committed ≡ drift 10 world.committed)
    × (drift 10 (deposit calm money_request world).1.committed ≡ drift 10 world.committed)
    × (drift 10 (withdraw calm money_request world).1.committed ≡ drift 10 world.committed)
operations-drift_example =
    operations-drift calm 10 world transfer_request money_request (λ n db. refl)

operations-total_example :
    Gains (total world.committed) (pos 0) (transfer calm transfer_request world)
    × Gains (total world.committed) (pos 5) (deposit calm money_request world)
    × Gains (total world.committed) (pos 0 -ℤ pos 5) (withdraw calm money_request world)
operations-total_example = operations-total calm world transfer_request money_request (λ n db. refl)

waterfall_debit-Settles_example :
    OnSuccess
      (λ r w'. Settles world.committed 10 (pos 80) (calm.now (suc (suc world.tick))) r w'.committed)
      (waterfall_debit calm 10 (pos 80) 9 "usage" world)
waterfall_debit-Settles_example =
    waterfall_debit-Settles calm (λ n db. refl) 10 (pos 80) 9 "usage" world ((refl, tt), (tt, tt))

bucket_bounds_example :
    (bucket 20 ≡ 0 → 20 < 5)
    × (bucket 20 ≡ 1 → (5 ≤ 20) × (20 < 15))
    × (bucket 20 ≡ 2 → (15 ≤ 20) × (20 < 30))
    × (bucket 20 ≡ 3 → (30 ≤ 20) × (20 < 60))
    × (bucket 20 ≡ 4 → (60 ≤ 20) × (20 < 120))
    × (bucket 20 ≡ 5 → 120 ≤ 20)
    × (bucket 20 < 6)
bucket_bounds_example = bucket_bounds 20

record_op-IsBalanced_example :
    IsBalanced (record_op no_ops 20 phases)
    × IsBalanced (record_idempotent no_ops)
    × IsBalanced (snapshot (λ i t. t) no_ops).0
    × IsBalanced (snapshot (λ i t. t) no_ops).1
record_op-IsBalanced_example =
    record_op-IsBalanced no_ops 20 phases (record { six = refl; counted = refl })

operations-balances_example :
    Moves world.committed
      (λ b. (b ≡ transferred transfer_request (balances db)) ⊎ (b ≡ balances db))
      (transfer calm transfer_request world)
    × Moves world.committed
        (λ b. b ≡ moved 10 (pos 5) (balances db))
        (deposit calm money_request world)
    × Moves world.committed
        (λ b. b ≡ moved 10 (pos 0 -ℤ pos 5) (balances db))
        (withdraw calm money_request world)
operations-balances_example =
    operations-balances calm world transfer_request money_request (λ n db. refl)

reconcile-drift_example :
    (reconcile (pos 50) 0 0 db ≡ ok ([], db)) ↔ All (λ a. drift a.id db ≡ pos 0) db.accounts
unfolding find
reconcile-drift_example = reconcile-drift 0 0 50 db (ground arith) (refl, (refl, tt))

db-IsSound : IsSound db
db-IsSound = ground arith

abbrev grant_request : IssueGrantRequest
grant_request = record {
  account_id = 11;
  amount = pos 40;
  grant_type = "MANUAL";
  expires_at = 700;
  idempotency_key = 40;
  metadata = [];
  priority = pos 3;
}

operations-IsSound_example :
    IsSound (issue_grant calm grant_request world).1.committed
    × IsSound (draw_down calm 10 (pos 40) 9 world).1.committed
    × IsSound (waterfall_debit calm 10 (pos 40) 9 "usage" world).1.committed
    × IsSound (expire_grants calm world).1.committed
operations-IsSound_example =
    operations-IsSound calm world grant_request 10 (pos 40) 9 "usage" (λ n db h. h) db-IsSound

draw_down-within_example :
    OnSuccess
      (λ rs w'.
        (drawn_sum rs ≤ℤ pos 40)
        × ((k : ℕ) → held k w'.committed.grants ≡ held k world.committed.grants -ℤ drawn_of k rs))
      (draw_down calm 10 (pos 40) 9 world)
draw_down-within_example = draw_down-within calm world 10 (pos 40) 9 (λ n db. refl) db-IsSound

-- The key of a signup, whatever the identifier.
abbrev pub signup_key : String → ℕ
signup_key external_id = 99

register_user-total_example :
    Gains
      (total world.committed)
      signup_bonus_amount
      (register_user calm signup_key "new" "mail" world)
register_user-total_example = register_user-total calm signup_key "new" "mail" world (λ n db. refl)

get_or_create_user-IsRegistered_example :
    OnSuccess
      (λ u w'. IsRegistered "new" u w'.committed)
      (get_or_create_user calm signup_key "new" "mail" world)
    × OnSuccess
        (λ u w'. IsRegistered "new" u w'.committed)
        (register_user calm signup_key "new" "mail" world)
get_or_create_user-IsRegistered_example =
    get_or_create_user-IsRegistered calm signup_key "new" "mail" world (λ n db u h. h)

-- The transfer that was made under the key of the request.
abbrev made : Transaction
made = record {
  id = 70;
  transaction_type = TransactionType.transfer;
  status = completed;
  source_account_id = some 10;
  destination_account_id = some 11;
  amount = pos 30;
  currency = "USD";
  fee_amount = none;
  fee_account_id = none;
  idempotency_key = 7;
  metadata = [];
  created_at = 0;
}

abbrev later : World
later = record world { committed = record db { transactions = made ∷ [] } }

transfer_replays_example :
    (total (transfer calm transfer_request later).1.committed ≡ total later.committed)
    × OnSuccess (λ r _. r ≡ made) (transfer calm transfer_request later)
unfolding find
transfer_replays_example =
    transfer_replays calm total transfer_request made later (λ n db. refl) (λ n db h. h) refl

waterfall_debit-drift_example :
    drift 10 (waterfall_debit calm 10 (pos 80) 9 "usage" world).1.committed
    ≡ drift 10 world.committed
waterfall_debit-drift_example =
    waterfall_debit-drift calm 10 10 (pos 80) 9 "usage" world (λ n db. refl) (λ n db h. h)

-- Any text that is not empty is the key 5.
abbrev parse_key : Bytes → Option ℕ
parse_key [] = none
parse_key (c ∷ cs) = some 5

abbrev alice : Bytes
alice = 97 ∷ []

protect-reached_example :
    (protect parse_key post (bearer ++ dev ++ alice) (49 ∷ []) ≡ reached (identity alice) (some 5))
    ↔ (((bearer ++ dev ++ alice ≡ bearer ++ dev ++ alice)
          × (alice ++ dev_local ≡ alice ++ dev_local))
        × ((some 5 ≡ parse_key (49 ∷ []))
            × (¬ (parse_key (49 ∷ []) ≡ none))
            × (same_bytes (49 ∷ []) [] ≡ false)))
unfolding mutates
protect-reached_example =
    protect-reached parse_key post (bearer ++ dev ++ alice) (49 ∷ []) (identity alice) (some 5) refl
