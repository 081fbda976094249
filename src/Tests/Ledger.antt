-- ===== src/Tests/Ledger.antt =====
-- The theorems on the statistics and on the success of transfers of postgre-setup/go/internal/ledger/service.go at work.
use playground_ledger.Prelude.{◌<◌, ◌^◌, ◌≡◌, refl, some, pos, arith}
use playground_ledger.Tests.{calm, world, account, transfer_request, money_request}
use playground_ledger.Prelude.Table.{find}
use playground_ledger.Store.Live.{Succeeds}
use playground_ledger.Queries.Transactions.{txn_with_key}
use playground_ledger.Ledger.Balances.{balances, transferred}
use playground_ledger.Ledger.Succeeding.{transfer-Succeeds}
use playground_ledger.Ledger.{transfer, deposit, withdraw}
use playground_ledger.Ledger.Counting.{
  Tallies, Transferred, Deposited, Withdrawn, operations-Tallies,
}

none_in_flight : world.stats.in_flight < 2 ^ 64
none_in_flight = omega arith

operations-Tallies_example :
    Tallies world.stats
      (Transferred calm world none_in_flight)
      (transfer calm transfer_request world)
    × Tallies world.stats (Deposited calm world none_in_flight) (deposit calm money_request world)
    × Tallies world.stats (Withdrawn calm world none_in_flight) (withdraw calm money_request world)
operations-Tallies_example =
    operations-Tallies calm world none_in_flight transfer_request money_request

transfer-Succeeds_example :
    Succeeds
      (λ txn v.
        (find (txn_with_key 7) v.committed.transactions ≡ some txn)
        × (balances v.committed ≡ transferred transfer_request (balances world.committed)))
      (transfer calm transfer_request world)
unfolding find
transfer-Succeeds_example =
    transfer-Succeeds calm transfer_request world (account 10 (pos 100)) (account 11 (pos 20))
      (λ n. refl) (λ n db. refl) (omega arith) (omega arith) (omega arith) refl refl refl refl
