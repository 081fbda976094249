-- ===== src/TigerBeetle/Worker.antt =====
-- The waterfall worker of tigerbeetle-setup/bench/tb.go: chains of seven transfers, and the funds that
-- are topped up. `create` is what TigerBeetle answers to a batch.
pub mod Batches
use playground_ledger.Prelude.{
  ℕ, suc, ◌+◌, ◌^◌, Bool, true, false, Option, none, some, List, [], ◌∷◌, ◌++◌, length, ltb,
  if◌then◌else◌,
}
use playground_ledger.TigerBeetle.{Transfer, TransferFlags, no_flags, linked_flags}
use playground_ledger.TigerBeetle.Chunks.{send_chunks, Sent}

-- The error of the client, or the transfers that failed, by their index.
pub data TbReply : Type 0 where
  lost : TbReply
  results : List ℕ → TbReply

abbrev pub taken : TbReply → Bool
taken lost = false
taken (results []) = true
taken (results (i ∷ is)) = false

-- The sources in the order of their priority, X, SETUP and LIMIT.
pub record WaterfallChain : Type 0 where
  pub source_a : ℕ
  pub source_b : ℕ
  pub source_c : ℕ
  pub source_d : ℕ
  pub dest : ℕ
  pub setup : ℕ
  pub limit : ℕ

pub record WaterfallWorker : Type 0 where
  pub chains : List WaterfallChain
  pub draws_cnt : ℕ

abbrev pub waterfall_target : ℕ
waterfall_target = 1

abbrev pub waterfall_amount_max : ℕ
waterfall_amount_max = 10 ^ 12

abbrev pub top_up_every : ℕ
top_up_every = 150

abbrev pub global_bank : ℕ
global_bank = 50000000

abbrev pub balancing_flags : TransferFlags
balancing_flags = record { linked = true; balancing_debit = true; balancing_credit = true }

abbrev pub terminator_flags : TransferFlags
terminator_flags = record { linked = false; balancing_debit = false; balancing_credit = true }

abbrev pub transfer_of : ℕ → ℕ → ℕ → ℕ → TransferFlags → Transfer
transfer_of id debit credit amount flags = record {
  id = id;
  debit_account_id = debit;
  credit_account_id = credit;
  amount = amount;
  flags = flags;
}

-- `new_id` is types.ID, by the number of those drawn before.
module _ (new_id : ℕ → ℕ) where
  abbrev pub chain_transfers : ℕ → WaterfallChain → List Transfer
  chain_transfers n ch =
      transfer_of (new_id n) ch.setup ch.limit waterfall_target linked_flags
      ∷ transfer_of (new_id (n + 1)) ch.source_a ch.setup waterfall_target balancing_flags
      ∷ transfer_of (new_id (n + 2)) ch.source_b ch.setup waterfall_target balancing_flags
      ∷ transfer_of (new_id (n + 3)) ch.source_c ch.setup waterfall_target balancing_flags
      ∷ transfer_of (new_id (n + 4)) ch.source_d ch.setup waterfall_target balancing_flags
      ∷ transfer_of (new_id (n + 5)) ch.setup ch.dest waterfall_target linked_flags
      ∷ transfer_of (new_id (n + 6)) ch.limit ch.setup waterfall_amount_max terminator_flags
      ∷ []

  unfoldable pub append_chain : ℕ → List Transfer → WaterfallChain → List Transfer
  append_chain n batch ch = batch ++ chain_transfers n ch

  -- The loop of doHardcoded over the chains.
  unfoldable pub append_chains : ℕ → List Transfer → List WaterfallChain → List Transfer
  append_chains n batch [] = batch
  append_chains n batch (ch ∷ chains) = append_chains (n + 7) (append_chain n batch ch) chains

  abbrev top_up : ℕ → ℕ → Transfer
  top_up n source = transfer_of (new_id n) global_bank source 50 no_flags

  -- The three first sources of every chain.
  unfoldable pub top_ups : ℕ → List WaterfallChain → List Transfer
  top_ups n [] = []
  top_ups n (ch ∷ chains) =
      top_up n ch.source_a
      ∷ top_up (n + 1) ch.source_b
      ∷ top_up (n + 2) ch.source_c
      ∷ top_ups (n + 3) chains

  module _ (create : List Transfer → TbReply) where
    unfoldable pub tb_submit : List Transfer → Bool
    tb_submit batch = taken (create batch)

    -- Whether there was no error, and the worker. The counter starts again before the transfers are
    -- sent.
    unfoldable pub maybe_top_up : ℕ → WaterfallWorker → Bool × WaterfallWorker
    maybe_top_up n w = if ltb w.draws_cnt top_up_every then (true, w) else (
      (send_chunks (λ chunk. taken (create chunk)) (top_ups n w.chains)).complete,
      record w { draws_cnt = 0 },
    )

    abbrev pub submit_draws : List Transfer → ℕ → WaterfallWorker → Bool × WaterfallWorker
    submit_draws batch draws w =
        if tb_submit batch then (true, record w { draws_cnt = w.draws_cnt + draws }) else (false, w)

    abbrev pub after_top_up :
        (WaterfallWorker → Bool × WaterfallWorker) → Bool × WaterfallWorker → Bool × WaterfallWorker
    after_top_up k (true, w) = k w
    after_top_up k (false, w) = (false, w)

    unfoldable pub do_hardcoded : ℕ → WaterfallWorker → Bool × WaterfallWorker
    unfolding maybe_top_up tb_submit append_chains
    do_hardcoded n w =
        after_top_up (λ v. submit_draws (append_chains n [] v.chains) (length v.chains) v)
          (maybe_top_up n w)

    abbrev fast_path : TbReply → List Transfer → WaterfallWorker → Bool × WaterfallWorker
    fast_path lost chain w = (false, w)
    fast_path (results []) chain w = (true, record w { draws_cnt = w.draws_cnt + 1 })
    fast_path (results (i ∷ is)) chain w =
        (tb_submit chain, record w { draws_cnt = w.draws_cnt + 1 })

    -- A draw on the first source, or else the whole chain. Without a chain the index is out of
    -- range: `none`.
    abbrev optimistic : ℕ → List WaterfallChain → WaterfallWorker → Option (Bool × WaterfallWorker)
    optimistic n [] w = none
    optimistic n (ch ∷ chains) w = some (
        fast_path
          (create (transfer_of (new_id n) ch.source_a ch.dest waterfall_target no_flags ∷ []))
          (append_chain (n + 1) [] ch) w)

    abbrev optimistic_after : ℕ → Bool × WaterfallWorker → Option (Bool × WaterfallWorker)
    optimistic_after n (true, w) = optimistic n w.chains w
    optimistic_after n (false, w) = some (false, w)

    unfoldable pub do_optimistic : ℕ → WaterfallWorker → Option (Bool × WaterfallWorker)
    unfolding maybe_top_up tb_submit append_chain
    do_optimistic n w = optimistic_after n (maybe_top_up n w)
