-- ===== src/Ledger/Counting.antt =====
-- The statistics of postgre-setup/go/internal/ledger/service.go: what Transfer, Deposit and Withdraw
-- do to the counter of operations in flight and to the counts.
use playground_ledger.Prelude.{
  ℕ, ◌≡◌, ◌<◌, ◌^◌, ◌-◌, ◌⊎◌, refl, ap, ◌∙◌, inl, inr, Bool-cases, Option, none, some, String, ltb,
  arith,
}
use playground_ledger.Db.{Db, Transaction}
use playground_ledger.Stats.{OpStats, ServiceStats, Phases, add64, record_op, record_idempotent}
use playground_ledger.Store.{
  Env, World, Query, Result, ok, err, pg, no_rows, of_ledger, of_grants, exec, settle, arrive,
  begin, commit, with_tx, finish, rollback, auto, publish,
}
use playground_ledger.Store.Hoare.{
  Ends, ends_ok, ends_err, bind-Ends, on_error-Ends, on_no_rows-Ends, optional-Ends,
}
use playground_ledger.Store.Rules.{fail_if-Ends}
use playground_ledger.Ledger.{
  TransferRequest, MoneyRequest, atomic_error, transfer, deposit, withdraw, in_flight, leave,
  add_in_flight, record_transfer, record_replay, move_money, write_transfer, fresh_transfer,
  replay_transfer, transfer_tx,
}

module _ (env : Env) (s : ServiceStats) where
  abbrev Has : World → Type 0
  Has w = w.stats ≡ s

  -- A statement leaves the statistics alone.
  settle-Stays :
      {A : Type 0} (w : World) (r : Result (A × Db)) → Has w → Ends (λ _. Has) Has (settle env w r)
  settle-Stays w (ok (a, db)) h = ends_ok h
  settle-Stays w (err e) h = ends_err h

  exec-Stays : {A : Type 0} (q : Query A) (w : World) → Has w → Ends (λ _. Has) Has (exec env q w)
  unfolding exec arrive
  exec-Stays {A} q w h =
      elim (env.fault w.tick)
        as (λ f.
          Ends {A = A} (λ _. Has) Has
            (elim f [
              | some e ↦ (err (pg e), arrive env w)
              | none ↦
                  settle env (arrive env w)
                    (q (env.new_uuid w.tick) (env.now w.tick) (arrive env w).working)
            ])) [ some e ↦ ends_err h | none ↦ settle-Stays (arrive env w) _ h ]

  commit-Stays : (w : World) → Has w → Ends (λ _. Has) Has (commit env w)
  unfolding commit arrive
  commit-Stays w h =
      elim (env.fault w.tick)
        as (λ f.
          Ends {A = Unit {0}} (λ _. Has) Has
            (elim f [
              | some e ↦ (err (pg e), arrive env w)
              | none ↦ (ok tt, record (arrive env w) { committed = (arrive env w).working })
            ])) [ some e ↦ ends_err h | none ↦ ends_ok h ]

  begin-Stays : (w : World) → Has w → Ends (λ _. Has) Has (begin env w)
  unfolding begin arrive
  begin-Stays w h =
      elim (env.fault w.tick)
        as (λ f.
          Ends {A = Unit {0}} (λ _. Has) Has
            (elim f [
              | some e ↦ (err (pg e), arrive env w)
              | none ↦ (ok tt, record (arrive env w) { working = (arrive env w).committed })
            ])) [ some e ↦ ends_err h | none ↦ ends_ok h ]

  move_money-Stays :
      (req : TransferRequest) (w : World) → Has w → Ends (λ _. Has) Has (move_money env req w)
  unfolding move_money
  move_money-Stays req w h =
      elim (Bool-cases (ltb req.source_account_id req.destination_account_id)) [
        | inl debit_first ↦ rw debit_first (
            bind-Ends _ (on_no_rows-Ends _ (exec-Stays _ w h))
              λ a w1 h1. bind-Ends _ (exec-Stays _ w1 h1) λ b w2 h2. ends_ok h2)
        | inr credit_first ↦
            rw credit_first
              (bind-Ends _ (exec-Stays _ w h) λ b w1 h1. on_no_rows-Ends _ (exec-Stays _ w1 h1))
      ]

  write_transfer-Stays :
      (req : TransferRequest) (currency : String) (w : World)
      → Has w
      → Ends (λ _. Has) Has (write_transfer env req currency w)
  unfolding write_transfer
  write_transfer-Stays req currency w h = bind-Ends _ (move_money-Stays req w h) λ a w1 h1.
      bind-Ends _ (exec-Stays _ w1 h1) λ b w2 h2. bind-Ends _ (exec-Stays _ w2 h2) λ c w3 h3.
        bind-Ends _ (exec-Stays _ w3 h3)
          λ d w4 h4. bind-Ends _ (exec-Stays _ w4 h4) λ e w5 h5. ends_ok h5

  -- One operation is recorded: a call of `record_op` or of `record_idempotent` for transfers.
  abbrev Recorded : World → Type 0
  Recorded w =
      ((n : ℕ) × (p : Phases) × (w.stats ≡ record_transfer n p s)) ⊎ (w.stats ≡ record_replay s)

  fresh_transfer-Recorded :
      (t0 d_idp : ℕ) (req : TransferRequest) (w : World)
      → Has w
      → Ends (λ _. Recorded) Has (fresh_transfer env t0 d_idp req w)
  unfolding fresh_transfer
  fresh_transfer-Recorded t0 d_idp req w h =
      bind-Ends _ (on_error-Ends _ (exec-Stays _ w h)) λ a w1 h1.
        bind-Ends _ (on_error-Ends _ (exec-Stays _ w1 h1)) λ b w2 h2.
          bind-Ends _ (fail_if-Ends {P = Has} _ _ w2 h2) λ _ w3 h3.
            bind-Ends _ (fail_if-Ends {P = Has} _ _ w3 h3) λ _ w4 h4.
              bind-Ends _ (write_transfer-Stays req _ w4 h4) λ txn w5 h5.
                bind-Ends _ (commit-Stays w5 h5)
                  λ _ w6 h6. ends_ok (inl (_, _, ap (record_transfer _ _) h6))

  replay_transfer-Recorded :
      (t0 d_idp : ℕ) (req : TransferRequest) (known : Option Transaction) (w : World)
      → Has w
      → Ends (λ _. Recorded) Has (replay_transfer env t0 d_idp req known w)
  unfolding replay_transfer
  replay_transfer-Recorded t0 d_idp req none w h = fresh_transfer-Recorded t0 d_idp req w h
  replay_transfer-Recorded t0 d_idp req (some existing) w h = ends_ok (inr (ap record_replay h))

  finish-Recorded :
      {A : Type 0} (r : Result A × World)
      → Ends (λ _. Recorded) Has r
      → Ends (λ _. Recorded) Has (finish env r)
  unfolding rollback
  finish-Recorded r (ends_ok h) = ends_ok h
  finish-Recorded r (ends_err h) = ends_err h

  with_tx-Recorded :
      (t0 : ℕ) (req : TransferRequest) (w : World)
      → Has w
      → Ends (λ _. Recorded) Has (with_tx env (transfer_tx env t0 req) w)
  unfolding with_tx transfer_tx
  with_tx-Recorded t0 req w h = bind-Ends _ (begin-Stays w h) λ _ w1 h1. finish-Recorded _ (
      bind-Ends _ (optional-Ends (exec-Stays _ w1 h1))
        λ known w2 h2. replay_transfer-Recorded t0 _ req known w2 h2)

  publish-Stays :
      {A : Type 0} (r : Result A × World)
      → Ends (λ _. Has) Has r
      → Ends (λ _. Has) Has (publish env r)
  publish-Stays r (ends_ok h) = ends_ok h
  publish-Stays r (ends_err h) = ends_err h

  auto-Stays : {A : Type 0} (q : Query A) (w : World) → Has w → Ends (λ _. Has) Has (auto env q w)
  unfolding auto
  auto-Stays q w h = publish-Stays _ (exec-Stays q (record w { working = w.committed }) h)

  atomic_error-Stays :
      {A : Type 0} {r : Result A × World}
      → Ends (λ _. Has) Has r
      → Ends (λ _. Has) Has (atomic_error r)
  atomic_error-Stays (ends_ok h) = ends_ok h
  atomic_error-Stays (ends_err {e = no_rows} h) = ends_err h
  atomic_error-Stays (ends_err {e = of_ledger x} h) = ends_err h
  atomic_error-Stays (ends_err {e = of_grants x} h) = ends_err h
  atomic_error-Stays (ends_err {e = pg x} h) = ends_err h

-- With a value the counter of operations in flight is as before and Q holds of the statistics; with
-- an error they are as before.
abbrev pub Tallies :
    {A : Type 0} → ServiceStats → (ServiceStats → Type 0) → Result A × World → Type 0
Tallies before Q (ok a, w) = (w.stats.in_flight ≡ before.in_flight) × Q w.stats
Tallies before Q (err e, w) = w.stats ≡ before

-- One more call is counted, and no call more that repeats a key.
abbrev pub OneMore : OpStats → OpStats → Type 0
OneMore before after = (after.count ≡ add64 before.count 1) × (after.idempotent ≡ before.idempotent)

abbrev pub OneRepeated : OpStats → OpStats → Type 0
OneRepeated before after =
    (after.count ≡ before.count) × (after.idempotent ≡ add64 before.idempotent 1)

restored : (n : ℕ) → n < 2 ^ 64 → add64 (add64 n 1) (2 ^ 64 - 1) ≡ n
restored n h = omega arith

module _ (env : Env) (w : World) (small : w.stats.in_flight < 2 ^ 64) where
  abbrev entered : ServiceStats
  entered = add_in_flight 1 w.stats

  -- What the statistics are when the call is left.
  leave-Tallies :
      {A : Type 0} (Q : ServiceStats → Type 0) (r : Result A × World)
      → Ends
          (λ _ w'.
            (w'.stats.in_flight ≡ entered.in_flight) × Q (add_in_flight (2 ^ 64 - 1) w'.stats))
          (Has env entered)
          r
      → Tallies w.stats Q (leave r)
  leave-Tallies Q _ (ends_ok h) =
      (ap (λ n. add64 n (2 ^ 64 - 1)) h.0 ∙ restored w.stats.in_flight small, h.1)
  leave-Tallies Q _ (ends_err h) =
      ap (add_in_flight (2 ^ 64 - 1)) h
      ∙ ap (λ n. record w.stats { in_flight = n }) (restored w.stats.in_flight small)

  abbrev pub Transferred : ServiceStats → Type 0
  Transferred s =
      (s.deposits ≡ w.stats.deposits)
      × (s.withdrawals ≡ w.stats.withdrawals)
      × (OneMore w.stats.transfers s.transfers ⊎ OneRepeated w.stats.transfers s.transfers)

  transferred :
      (v : World)
      → Recorded env entered v
      → (v.stats.in_flight ≡ entered.in_flight) × Transferred (add_in_flight (2 ^ 64 - 1) v.stats)
  unfolding record_op record_idempotent
  transferred v (inl (n, p, e)) = (
    ap (λ s. s.in_flight) e,
    (
      ap (λ s. s.deposits) e,
      ap (λ s. s.withdrawals) e,
      inl (ap (λ s. s.transfers.count) e, ap (λ s. s.transfers.idempotent) e),
    ),
  )
  transferred v (inr e) = (
    ap (λ s. s.in_flight) e,
    (
      ap (λ s. s.deposits) e,
      ap (λ s. s.withdrawals) e,
      inr (ap (λ s. s.transfers.count) e, ap (λ s. s.transfers.idempotent) e),
    ),
  )

  Recorded-Ends :
      {A : Type 0} (r : Result A × World)
      → Ends (λ _. Recorded env entered) (Has env entered) r
      → Ends
          (λ _ v.
            (v.stats.in_flight ≡ entered.in_flight)
            × Transferred (add_in_flight (2 ^ 64 - 1) v.stats))
          (Has env entered)
          r
  Recorded-Ends _ (ends_ok {w = v} h) = ends_ok (transferred v h)
  Recorded-Ends _ (ends_err h) = ends_err h

  transfer-Tallies : (t : TransferRequest) → Tallies w.stats Transferred (transfer env t w)
  unfolding transfer in_flight
  transfer-Tallies t = leave-Tallies Transferred _ (
      bind-Ends _ (fail_if-Ends {P = Has env entered} _ _ _ refl) λ _ w1 h1.
        bind-Ends _ (fail_if-Ends {P = Has env entered} _ _ w1 h1)
          λ _ w2 h2. Recorded-Ends _ (with_tx-Recorded env entered _ t w2 h2))

  abbrev pub Deposited : ServiceStats → Type 0
  Deposited s =
      (s.transfers ≡ w.stats.transfers)
      × (s.withdrawals ≡ w.stats.withdrawals)
      × OneMore w.stats.deposits s.deposits

  abbrev pub Withdrawn : ServiceStats → Type 0
  Withdrawn s =
      (s.transfers ≡ w.stats.transfers)
      × (s.deposits ≡ w.stats.deposits)
      × OneMore w.stats.withdrawals s.withdrawals

  deposit-Tallies : (d : MoneyRequest) → Tallies w.stats Deposited (deposit env d w)
  unfolding deposit in_flight record_op
  deposit-Tallies d = leave-Tallies Deposited _ (
      bind-Ends _ (fail_if-Ends {P = Has env entered} _ _ _ refl) λ _ w1 h1.
        bind-Ends _ (atomic_error-Stays env entered (auto-Stays env entered _ w1 h1)) λ row w2 h2.
          ends_ok (
            ap (λ s. s.in_flight) h2,
            (
              ap (λ s. s.transfers) h2,
              ap (λ s. s.withdrawals) h2,
              (ap (λ s. add64 s.deposits.count 1) h2, ap (λ s. s.deposits.idempotent) h2),
            ),
          ))

  withdraw-Tallies : (d : MoneyRequest) → Tallies w.stats Withdrawn (withdraw env d w)
  unfolding withdraw in_flight record_op
  withdraw-Tallies d = leave-Tallies Withdrawn _ (
      bind-Ends _ (fail_if-Ends {P = Has env entered} _ _ _ refl) λ _ w1 h1.
        bind-Ends _ (atomic_error-Stays env entered (auto-Stays env entered _ w1 h1)) λ row w2 h2.
          ends_ok (
            ap (λ s. s.in_flight) h2,
            (
              ap (λ s. s.transfers) h2,
              ap (λ s. s.deposits) h2,
              (ap (λ s. add64 s.withdrawals.count 1) h2, ap (λ s. s.withdrawals.idempotent) h2),
            ),
          ))

  -- Let the counter of operations in flight be a number of 64 bits. A transfer, a deposit or a
  -- withdrawal that fails leaves all statistics as they were. One that succeeds leaves that counter
  -- and the statistics of the other two operations as they were, and is counted once among its own:
  -- a transfer as a new one or as one that repeats a key, the others as new.
  pub operations-Tallies :
      (t : TransferRequest) (d : MoneyRequest)
      → Tallies w.stats Transferred (transfer env t w)
        × Tallies w.stats Deposited (deposit env d w)
        × Tallies w.stats Withdrawn (withdraw env d w)
  operations-Tallies t d = (transfer-Tallies t, deposit-Tallies d, withdraw-Tallies d)
