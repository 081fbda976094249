-- ===== src/Client/Verify/Chunks.antt =====
-- The chunks of fifty in scenario1 and scenario2 of postgre-setup/go/cmd/stress/verify.go: nothing is
-- lost, and nothing is done or counted twice.
use playground_ledger.Prelude.{ℕ, List}
use playground_ledger.Middleware.{Bytes}
use playground_ledger.Client.Verify.{
  AccountInfo, LedgerApi, Verdict, IndOp, NetTally, run_ops, count_chunk, run_transfers,
  count_transfers, judge_sum, verify_limit,
}

module _ {S : Type 0} (api : LedgerApi S) (parse_amount : Bytes → ℕ) (amount : Bytes) where
  -- Run and counted, from the operations that are left.
  abbrev pub counted : List IndOp → NetTally → S → NetTally × S
  counted ops t s = count_chunk api parse_amount amount (run_ops api parse_amount amount ops s) t

  after_more : List IndOp → NetTally × S → NetTally × S
  after_more ops (t, s) = counted ops t s

  abbrev pub tried : List (AccountInfo × AccountInfo) → ℕ × ℕ → S → (ℕ × ℕ) × S
  tried xs t s =
      count_transfers api parse_amount amount (run_transfers api parse_amount amount xs s) t

  after_trying : List (AccountInfo × AccountInfo) → (ℕ × ℕ) × S → (ℕ × ℕ) × S
  after_trying xs (t, s) = tried xs t s

  -- What scenario 2 comes to with these transfers, all at once.
  abbrev pub verdict_of : List AccountInfo → List (AccountInfo × AccountInfo) → S → Verdict × S
  verdict_of accounts xs s =
      let (t, s1) = tried xs (0, 0) s in
      judge_sum api parse_amount amount accounts t (api.get_all_users verify_limit s1)
