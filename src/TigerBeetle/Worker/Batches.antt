-- ===== src/TigerBeetle/Worker/Batches.antt =====
-- What the waterfall worker of tigerbeetle-setup/bench/tb.go sends, and how it counts its draws.
use playground_ledger.Prelude.{
  ℕ, suc, ◌+◌, ◌<◌, ◌≡◌, refl, arith, Bool, Bool-cases, true, false, inl, inr, List, [], ◌∷◌, ◌++◌,
  length, map, subst, ltb,
}
use playground_ledger.TigerBeetle.{Transfer}
use playground_ledger.TigerBeetle.Worker.{
  TbReply, taken, WaterfallChain, WaterfallWorker, top_up_every, chain_transfers, append_chain,
  append_chains, maybe_top_up, do_hardcoded, tb_submit, submit_draws, after_top_up,
}

abbrev linked_in : Transfer → Bool
linked_in t = t.flags.linked

-- So many chains, one after the other, each of six linked transfers and one that is not.
pub data Chained : ℕ → List Transfer → Type 0 where
  no_chain : Chained 0 []
  and_chain :
      {k : ℕ} {ts : List Transfer} (chain : List Transfer)
      → Chained k ts
      → map linked_in chain ≡ true ∷ true ∷ true ∷ true ∷ true ∷ true ∷ false ∷ []
      → Chained (suc k) (ts ++ chain)

less : (n : ℕ) → ltb n top_up_every ≡ true → n < top_up_every
less n h = ground arith

module _ (new_id : ℕ → ℕ) where
  append_chains-Chained :
      (n k : ℕ) (batch : List Transfer) (chains : List WaterfallChain)
      → Chained k batch
      → Chained (length chains + k) (append_chains new_id n batch chains)
  unfolding append_chains append_chain
  append_chains-Chained n k batch [] h = subst (λ (m : ℕ). Chained m batch) (omega arith) h
  append_chains-Chained n k batch (ch ∷ chains) h =
      subst (λ (m : ℕ). Chained m (append_chains new_id n batch (ch ∷ chains)))
        (suc_right (length chains) k)
        (append_chains-Chained (n + 7) (suc k) (append_chain new_id n batch ch) chains
          (and_chain (chain_transfers new_id n ch) h refl))
    where
      suc_right : (m k : ℕ) → m + suc k ≡ suc m + k
      suc_right m k = omega arith

  module _ (create : List Transfer → TbReply) where
    topped_up :
        (n : ℕ) (w : WaterfallWorker)
        → ((maybe_top_up new_id create n w).1.chains ≡ w.chains)
          × ((maybe_top_up new_id create n w).1.draws_cnt < top_up_every)
    unfolding maybe_top_up
    topped_up n w = elim (Bool-cases (ltb w.draws_cnt top_up_every)) [
      | inl few ↦ rw few (refl, less w.draws_cnt few)
      | inr many ↦ rw many (refl, omega arith)
    ]

    -- The chains are kept, and the count of draws is below a bound.
    abbrev pub Counts : WaterfallWorker → Bool × WaterfallWorker → Type 0
    Counts w r = (r.1.chains ≡ w.chains) × (r.1.draws_cnt < top_up_every + length w.chains)

    submit_draws-Counts :
        (batch : List Transfer) (v : WaterfallWorker)
        → v.draws_cnt < top_up_every
        → Counts v (submit_draws new_id create batch (length v.chains) v)
    unfolding tb_submit
    submit_draws-Counts batch v h = elim (Bool-cases (taken (create batch))) [
      | inl accepted ↦ rw accepted (refl, omega arith)
      | inr refused ↦ rw refused (refl, omega arith)
    ]

    after_top_up-Counts :
        (n : ℕ) (ok : Bool) (v : WaterfallWorker)
        → v.draws_cnt < top_up_every
        → Counts v (
            after_top_up new_id create
              (λ u.
                submit_draws new_id create (append_chains new_id n [] u.chains) (length u.chains) u)
              (ok, v))
    after_top_up-Counts n true v h = submit_draws-Counts (append_chains new_id n [] v.chains) v h
    after_top_up-Counts n false v h = (refl, omega arith)

    -- A batch of doHardcoded is as many chains of seven transfers, six of them linked to the next,
    -- as the worker has, in one piece each. Whatever the server answers, the worker keeps its
    -- chains, the count of its draws starts again below 150 before it draws, also when the server
    -- has refused to top up, and stays below 150 and the number of its chains.
    pub do_hardcoded-Counts :
        (n : ℕ) (w : WaterfallWorker)
        → Chained (length w.chains) (append_chains new_id n [] w.chains)
          × ((maybe_top_up new_id create n w).1.draws_cnt < top_up_every)
          × Counts w (do_hardcoded new_id create n w)
    unfolding do_hardcoded
    do_hardcoded-Counts n w =
        let (same, few) = topped_up n w in
        (
          subst (λ (m : ℕ). Chained m (append_chains new_id n [] w.chains)) (omega arith)
              (append_chains-Chained n 0 [] w.chains no_chain),
          few,
          subst
              (λ (chains : List WaterfallChain).
                ((do_hardcoded new_id create n w).1.chains ≡ chains)
                × ((do_hardcoded new_id create n w).1.draws_cnt < top_up_every + length chains))
              same
              (after_top_up-Counts n (maybe_top_up new_id create n w).0
                (maybe_top_up new_id create n w).1 few),
        )
