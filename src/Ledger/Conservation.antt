-- ===== src/Ledger/Conservation.antt =====
-- Transfer of postgre-setup/go/internal/ledger/service.go: any measure of the tables that its five
-- statements change is, in what is committed, changed by all five or by none.
use playground_ledger.Prelude.{
  ℕ, ◌≡◌, ◌⊎◌, ◌∙◌, subst, Bool-cases, inl, inr, Bool, Option, none, some, String, ℤ, ltb,
}
use playground_ledger.Db.{Db, Transaction}
use playground_ledger.Store.{Env, World, Query, Result, Error, exec, fail_if}
use playground_ledger.Store.Hoare.{
  Ends, ends_ok, ends_err, bind-Ends, on_error-Ends, on_no_rows-Ends, weaken-Ends, optional-Ends,
  Answers, exec-Ends,
}
use playground_ledger.Store.Rules.{Reads, exec-Reads, commit-Commits, with_tx-Commits, fail_if-Ends}
use playground_ledger.Queries.Laws.{
  get_account_by_id-Reads, get_transaction_by_idempotency_key-Reads,
}
use playground_ledger.Queries.Accounts.{get_account_by_id, debit_account, credit_account}
use playground_ledger.Queries.Transactions.{CreateTransactionParams, create_transaction}
use playground_ledger.Queries.Entries.{create_ledger_entry}
use playground_ledger.Ledger.{
  TransferRequest, transfer_params, debit_entry, credit_entry, move_money, write_transfer,
  fresh_transfer, replay_transfer, transfer_tx, transfer, in_flight, leave,
}

-- What the statements of a transfer do to a measure.
pub record Effects {V : Type 0} (m : Db → V) (after : V → V) (req : TransferRequest) : Type 0 where
  pub out : V → V
  pub inn : V → V
  pub note_out : V → V
  pub note_inn : V → V
  pub debits :
      (n t : ℕ) (db : Db)
      → Answers
          (λ _ db'. m db' ≡ out (m db))
          (debit_account req.source_account_id req.amount n t db)
  pub credits :
      (n t : ℕ) (db : Db)
      → Answers
          (λ _ db'. m db' ≡ inn (m db))
          (credit_account req.destination_account_id req.amount n t db)
  pub records :
      (p : CreateTransactionParams) (n t : ℕ) (db : Db)
      → Answers (λ _ db'. m db' ≡ m db) (create_transaction p n t db)
  pub notes_debit :
      (b : ℤ) (txn key n t : ℕ) (db : Db)
      → Answers
          (λ _ db'. m db' ≡ note_out (m db))
          (create_ledger_entry (debit_entry req b txn key) n t db)
  pub notes_credit :
      (b : ℤ) (txn key n t : ℕ) (db : Db)
      → Answers
          (λ _ db'. m db' ≡ note_inn (m db))
          (create_ledger_entry (credit_entry req b txn key) n t db)
  pub reorder : (v : V) → out (inn v) ≡ inn (out v)
  pub settles : (v : V) → note_inn (note_out (inn (out v))) ≡ after v

module _ (env : Env) {V : Type 0} (m : Db → V) (after : V → V) (req : TransferRequest)
    (eff : Effects m after req) (c : V)
    (keeps : (n : ℕ) (db : Db) → m (env.others n db) ≡ m db) where
  open eff use {out, inn, note_out, note_inn}

  abbrev Is : V → Db → Type 0
  Is d db = m db ≡ d

  abbrev Mid : V → World → Type 0
  Mid d w = (m w.working ≡ d) × (m w.committed ≡ c)

  abbrev End : World → Type 0
  End w = m w.committed ≡ c

  -- The transfer is made, or its key was known and nothing changes.
  abbrev Done : World → Type 0
  Done w = (m w.committed ≡ after c) ⊎ End w

  keeps_Is : (d : V) (n : ℕ) (db : Db) → Is d db → Is d (env.others n db)
  keeps_Is d n db h = keeps n db ∙ h

  -- A statement that changes the measure by `f`.
  adds :
      {A : Type 0} (q : Query A) (f : V → V) (d : V)
      → ((n t : ℕ) (db : Db) → Answers (λ _ db'. m db' ≡ f (m db)) (q n t db))
      → (w : World) → Mid d w
      → Ends (λ _. Mid (f d)) End (exec env q w)
  adds q f d post w h =
      exec-Ends env (Is d) (Is c) (λ _. Is (f d)) (keeps_Is d) (keeps_Is c) q
        (λ n t db e. subst (λ (x : V). Answers (λ _ db'. m db' ≡ f x) (q n t db)) e (post n t db)) w
        h.0 h.1

  reads :
      {A : Type 0} (q : Query A) (d : V)
      → ((n t : ℕ) (db : Db) → Reads db (q n t db))
      → (w : World) → Mid d w
      → Ends (λ _. Mid d) (Mid d) (exec env q w)
  reads q d same w h = exec-Reads env (Is d) (Is c) (keeps_Is d) (keeps_Is c) q same w h

  at_value :
      {A : Type 0} {r : Result A × World} (d d' : V)
      → d ≡ d'
      → Ends (λ _. Mid d) End r
      → Ends (λ _. Mid d') End r
  at_value d d' e (ends_ok h) = ends_ok (h.0 ∙ e, h.1)
  at_value d d' e (ends_err h) = ends_err h

  move_money-Ends :
      (d : V) (w : World) → Mid d w → Ends (λ _. Mid (inn (out d))) End (move_money env req w)
  unfolding move_money
  move_money-Ends d w h = elim (Bool-cases (ltb req.source_account_id req.destination_account_id)) [
    | inl debit_first ↦ rw debit_first (
        bind-Ends _ (on_no_rows-Ends _ (adds _ out d eff.debits w h))
          λ a w1 h1. bind-Ends _ (adds _ inn (out d) eff.credits w1 h1) λ b w2 h2. ends_ok h2)
    | inr credit_first ↦ rw credit_first (
        bind-Ends _ (adds _ inn d eff.credits w h) λ b w1 h1.
          at_value (out (inn d)) _ (eff.reorder d)
            (on_no_rows-Ends _ (adds _ out (inn d) eff.debits w1 h1)))
  ]

  write_transfer-Ends :
      (currency : String) (w : World)
      → Mid c w
      → Ends (λ _. Mid (after c)) End (write_transfer env req currency w)
  unfolding write_transfer
  write_transfer-Ends currency w h = bind-Ends _ (move_money-Ends c w h) λ source w1 h1.
      bind-Ends _
        (weaken-Ends (λ w' e. e.1)
          (reads _ moved (get_account_by_id-Reads req.destination_account_id) w1 h1))
        λ dest w2 h2.
          bind-Ends _ (adds _ (λ x. x) moved (eff.records (transfer_params req currency)) w2 h2)
            λ txn w3 h3.
              bind-Ends _ (adds _ note_out moved (eff.notes_debit source.balance txn.id _) w3 h3)
                λ e w4 h4.
                  bind-Ends _
                    (adds _ note_inn (note_out moved) (eff.notes_credit dest.balance txn.id _) w4
                      h4)
                    λ e' w5 h5. ends_ok (h5.0 ∙ eff.settles c, h5.1)
    where
      moved : V
      moved = inn (out c)

  fresh_transfer-Ends :
      (t0 d_idp : ℕ) (w : World)
      → Mid c w
      → Ends (λ _. Done) End (fresh_transfer env t0 d_idp req w)
  unfolding fresh_transfer
  fresh_transfer-Ends t0 d_idp w h =
      bind-Ends _ (on_error-Ends _ (lookup req.source_account_id w h)) λ source w1 h1.
        bind-Ends _ (on_error-Ends _ (lookup req.destination_account_id w1 h1)) λ dest w2 h2.
          bind-Ends _ (guarded _ _ w2 h2) λ _ w3 h3. bind-Ends _ (guarded _ _ w3 h3) λ _ w4 h4.
            bind-Ends _ (write_transfer-Ends source.currency w4 h4) λ txn w5 h5.
              bind-Ends _
                (commit-Commits env (Is (after c)) (Is c) (keeps_Is (after c)) (keeps_Is c) w5 h5)
                λ _ w6 h6. ends_ok (inl h6)
    where
      lookup :
          (id : ℕ) (w : World) → Mid c w → Ends (λ _. Mid c) End (exec env (get_account_by_id id) w)
      lookup id w h = weaken-Ends (λ w' e. e.1) (reads _ c (get_account_by_id-Reads id) w h)

      guarded :
          (b : Bool) (e : Error) (w : World)
          → Mid c w
          → Ends {A = Unit {0}} (λ _. Mid c) End (fail_if b e w)
      guarded b e w h = weaken-Ends (λ w' e. e.1) (fail_if-Ends {P = Mid c} b e w h)

  replay_transfer-Ends :
      (t0 d_idp : ℕ) (known : Option Transaction) (w : World)
      → Mid c w
      → Ends (λ _. Done) End (replay_transfer env t0 d_idp req known w)
  unfolding replay_transfer
  replay_transfer-Ends t0 d_idp none w h = fresh_transfer-Ends t0 d_idp w h
  replay_transfer-Ends t0 d_idp (some existing) w h = ends_ok (inr h.1)

  transfer_tx-Ends :
      (t0 : ℕ) (w : World) → Mid c w → Ends (λ _. Done) End (transfer_tx env t0 req w)
  unfolding transfer_tx
  transfer_tx-Ends t0 w h =
      bind-Ends _
        (weaken-Ends (λ w' e. e.1)
          (optional-Ends
            (reads _ c (get_transaction_by_idempotency_key-Reads req.idempotency_key) w h)))
        λ known w1 h1. replay_transfer-Ends t0 _ known w1 h1

  leave-Ends :
      {A : Type 0} (r : Result A × World) → Ends (λ _. Done) End r → Ends (λ _. Done) End (leave r)
  leave-Ends r (ends_ok h) = ends_ok h
  leave-Ends r (ends_err h) = ends_err h

  pub transfer-Ends : (w : World) → m w.committed ≡ c → Ends (λ _. Done) End (transfer env req w)
  unfolding transfer in_flight
  transfer-Ends w h = leave-Ends _ (
      bind-Ends _ (fail_if-Ends {P = End} _ _ _ h) λ _ w1 h1.
        bind-Ends _ (fail_if-Ends {P = End} _ _ w1 h1) λ _ w2 h2.
          with_tx-Commits env (Is c) (λ _ db. Is (after c) db ⊎ Is c db) (Is c) (keeps_Is c)
            (transfer_tx env _ req) (λ db e. e) (λ w' a b. transfer_tx-Ends _ w' (a, b)) w2 h2)
