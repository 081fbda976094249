-- ===== src/Tests/TigerBeetle.antt =====
-- The theorems on the transfers of tigerbeetle-setup, at the numbers of its own checks.
use playground_ledger.Prelude.{
  ℕ, ◌+◌, ◌<◌, ◌≡◌, refl, Bool, true, List, [], ◌∷◌, some, All, leb, arith, if◌then◌else◌,
}
use playground_ledger.TigerBeetle.{TbAccount, Transfer, build_waterfall_transfers}
use playground_ledger.TigerBeetle.Waterfall.{
  Drains, IsChain, drawn, total_funds, build_waterfall_transfers-Drains,
}
use playground_ledger.TigerBeetle.Chunks.{send_chunks, flatten, Fits, send_chunks-flatten}
use playground_ledger.TigerBeetle.Worker.{
  WaterfallWorker, TbReply, results, top_up_every, append_chains, maybe_top_up, do_hardcoded,
}
use playground_ledger.TigerBeetle.Worker.Batches.{Chained, Counts, do_hardcoded-Counts}

abbrev source : ℕ → ℕ → TbAccount
source id credits = record {
  id = id;
  debits_pending = 0;
  debits_posted = 0;
  credits_posted = credits;
}

abbrev sources : List TbAccount
sources = source 1 300 ∷ source 2 500 ∷ source 3 700 ∷ []

abbrev new_id : ℕ → ℕ
new_id n = n + 100

build_waterfall_transfers-Drains_example :
    (ts : List Transfer) × (build_waterfall_transfers new_id 9 sources 1200 ≡ some ts)
    × Drains 9 sources 1200 ts
    × IsChain ts
    × (drawn ts ≡ (if leb 1200 (total_funds sources) then 1200 else total_funds sources))
build_waterfall_transfers-Drains_example =
    build_waterfall_transfers-Drains new_id 9 sources 1200
      ((omega arith, omega arith), ((omega arith, omega arith), ((omega arith, omega arith), tt)))

abbrev every : List ℕ → Bool
every chunk = true

send_chunks-flatten_example :
    (flatten (send_chunks every (1 ∷ 2 ∷ [])).chunks ≡ 1 ∷ 2 ∷ [])
    × ((send_chunks every (1 ∷ 2 ∷ [])).complete ≡ true)
    × All (Fits every) (send_chunks every (1 ∷ 2 ∷ [])).chunks
send_chunks-flatten_example = send_chunks-flatten every (1 ∷ 2 ∷ []) (λ chunk. refl)

abbrev worker : WaterfallWorker
worker = record {
  chains =
      record {
        source_a = 1;
        source_b = 2;
        source_c = 3;
        source_d = 4;
        dest = 5;
        setup = 6;
        limit = 7;
      }
      ∷ [];
  draws_cnt = 150;
}

-- The server refuses the first transfer of every batch.
abbrev refusing : List Transfer → TbReply
refusing batch = results (0 ∷ [])

do_hardcoded-Counts_example :
    Chained 1 (append_chains new_id 0 [] worker.chains)
    × ((maybe_top_up new_id refusing 0 worker).1.draws_cnt < top_up_every)
    × Counts new_id refusing worker (do_hardcoded new_id refusing 0 worker)
do_hardcoded-Counts_example = do_hardcoded-Counts new_id refusing 0 worker
