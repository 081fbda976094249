-- ===== src/Ledger/Replay.antt =====
-- Transfer of postgre-setup/go/internal/ledger/service.go under a key that is known already.
use playground_ledger.Prelude.{ℕ, ◌≡◌, ◌∙◌, refl, Option, none, some, Bool}
use playground_ledger.Prelude.Table.{find}
use playground_ledger.Db.{Db, Transaction}
use playground_ledger.Store.{
  Env, World, Result, err, pg, exec, settle, arrive, optional, optional_of, fail_if, Error,
}
use playground_ledger.Store.Hoare.{Ends, ends_ok, ends_err, bind-Ends, weaken-Ends, OnSuccess}
use playground_ledger.Store.Rules.{Commits, with_tx-Commits, fail_if-Ends}
use playground_ledger.Queries.Rows.{one_row}
use playground_ledger.Queries.Transactions.{txn_with_key, get_transaction_by_idempotency_key}
use playground_ledger.Ledger.{
  TransferRequest, transfer, transfer_tx, replay_transfer, in_flight, leave,
}

-- The transaction that a key names.
abbrev pub IsNamed : ℕ → Transaction → Db → Type 0
IsNamed key t db = find (txn_with_key key) db.transactions ≡ some t

module _ (env : Env) {V : Type 0} (m : Db → V) (req : TransferRequest) (t : Transaction) (c : V)
    (keeps : (n : ℕ) (db : Db) → m (env.others n db) ≡ m db)
    (remembers : (n : ℕ) (db : Db)
      → IsNamed req.idempotency_key t db
      → IsNamed req.idempotency_key t (env.others n db)) where
  abbrev Is : Db → Type 0
  Is db = m db ≡ c

  abbrev Start : Db → Type 0
  Start db = Is db × IsNamed req.idempotency_key t db

  keeps_Start : (n : ℕ) (db : Db) → Start db → Start (env.others n db)
  keeps_Start n db h = (keeps n db ∙ h.0, remembers n db h.1)

  -- The read answers with the transaction, or fails for a reason of the server's.
  read_known :
      (w : World)
      → Start w.working
      → Is w.committed
      → Ends
          (λ o w'. (o ≡ some t) × Is w'.committed)
          (λ w'. Is w'.committed)
          (optional (exec env (get_transaction_by_idempotency_key req.idempotency_key)) w)
  unfolding exec arrive get_transaction_by_idempotency_key
  read_known w h hc =
      elim (env.fault w.tick)
        as (λ f.
          Ends (λ o w'. (o ≡ some t) × Is w'.committed) (λ w'. Is w'.committed)
            (optional_of (elim f [
              | some e ↦ (err (pg e), arrive env w)
              | none ↦ settle env (arrive env w) (
                  one_row
                    (find (txn_with_key req.idempotency_key) (arrive env w).working.transactions)
                    (arrive env w).working)
            ]))) [
              | some e ↦ ends_err (keeps w.tick w.committed ∙ hc)
              | none ↦
                  rw (remembers w.tick w.working h.1)
                    (ends_ok (refl, keeps w.tick w.committed ∙ hc))
            ]

  abbrev Same : Result Transaction × World → Type 0
  Same = Commits (λ r db. (r ≡ t) × Is db) Is

  answers_known :
      (t0 d_idp : ℕ) (known : Option Transaction) (w : World)
      → known ≡ some t
      → Is w.committed
      → Same (replay_transfer env t0 d_idp req known w)
  unfolding replay_transfer
  answers_known t0 d_idp known w e h = rw e (ends_ok (refl, h))

  transfer_tx-Same :
      (t0 : ℕ) (w : World) → Start w.working → Is w.committed → Same (transfer_tx env t0 req w)
  unfolding transfer_tx
  transfer_tx-Same t0 w h hc =
      bind-Ends _ (read_known w h hc) λ known w1 p. answers_known t0 _ known w1 p.0 p.1

  leave-Same : (r : Result Transaction × World) → Same r → Same (leave r)
  leave-Same r (ends_ok h) = ends_ok h
  leave-Same r (ends_err h) = ends_err h

  transfer-Same : (w : World) → Start w.committed → Same (transfer env req w)
  unfolding transfer in_flight
  transfer-Same w h = leave-Same _ (
      bind-Ends _ (guarded _ _ _ h) λ _ w1 h1. bind-Ends _ (guarded _ _ w1 h1) λ _ w2 h2.
        with_tx-Commits env Start (λ r db. (r ≡ t) × Is db) Is keeps_Start (transfer_tx env _ req)
          (λ db s. s.0) (λ w' a b. transfer_tx-Same _ w' a b.0) w2 h2)
    where
      guarded :
          (b : Bool) (e : Error) (w : World)
          → Start w.committed
          → Ends {A = Unit {0}} (λ _ w'. Start w'.committed) (λ w'. Is w'.committed) (fail_if b e w)
      guarded b e w h =
          weaken-Ends (λ w' s. s.0) (fail_if-Ends {P = λ w'. Start w'.committed} b e w h)

-- Let the key of a transfer name a transaction that is committed, other sessions keep it, and m be
-- any view of the tables that other sessions leave alone. Then the transfer leaves m of the
-- committed tables as it was, and where it succeeds it returns that transaction.
pub transfer_replays :
    (env : Env) {V : Type 0} (m : Db → V) (req : TransferRequest) (t : Transaction) (w : World)
    → ((n : ℕ) (db : Db) → m (env.others n db) ≡ m db)
    → ((n : ℕ) (db : Db)
        → IsNamed req.idempotency_key t db
        → IsNamed req.idempotency_key t (env.others n db))
    → IsNamed req.idempotency_key t w.committed
    → (m (transfer env req w).1.committed ≡ m w.committed)
      × OnSuccess (λ r _. r ≡ t) (transfer env req w)
transfer_replays env m req t w keeps remembers known =
    parts _ (transfer-Same env m req t (m w.committed) keeps remembers w (refl, known))
  where
    parts :
        (r : Result Transaction × World)
        → Commits (λ r db. (r ≡ t) × (m db ≡ m w.committed)) (λ db. m db ≡ m w.committed) r
        → (m r.1.committed ≡ m w.committed) × OnSuccess (λ r _. r ≡ t) r
    parts r (ends_ok h) = (h.1, h.0)
    parts r (ends_err h) = (h, tt)
