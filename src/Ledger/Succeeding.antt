-- ===== src/Ledger/Succeeding.antt =====
-- Transfer of postgre-setup/go/internal/ledger/service.go, when nothing stands in its way.
use playground_ledger.Prelude.{
  ℕ, ◌==◌, ◌≡◌, refl, sym, Bool-cases, inl, inr, true, false, none, some, ℤ, pos, leb_ℤ, ltb_ℤ, ltb,
  ◌≤ℤ◌, arith, fun_ext, int_laws, String, subst, str_eq, ◌+ℤ◌,
}
use playground_ledger.Prelude.Table.{find}
use playground_ledger.Db.{Db, Account}
use playground_ledger.Store.{
  Env, World, Result, err, no_rows, with_tx, begin, LedgerError, of_ledger,
}
use playground_ledger.Store.Live.{
  Succeeds, succeeds, Replies, bind-Succeeds, on_error-Succeeds, on_no_rows-Succeeds,
  fail_if-Succeeds, optional-Succeeds, exec-Succeeds, begin-Succeeds, commit-Succeeds,
  finish-Succeeds,
}
use playground_ledger.Queries.Rows.{account_with_id}
use playground_ledger.Queries.Accounts.{get_account_by_id, debit_account, credit_account}
use playground_ledger.Queries.Transactions.{
  txn_with_key, create_transaction, get_transaction_by_idempotency_key,
}
use playground_ledger.Queries.Entries.{create_ledger_entry}
use playground_ledger.Ledger.{
  TransferRequest, debit_entry, credit_entry, transfer_params, move_money, write_transfer,
  replay_transfer, fresh_transfer, transfer_tx, transfer, leave, in_flight,
}
use playground_ledger.Ledger.Balances.{balances, transferred}
use playground_ledger.Ledger.Moving.{
  OwnsBoth, Stands, Waits, IsMade, IsWritten, given, taken, credit_account-OwnsBoth,
  credit_account-Stands, debit_account-OwnsBoth, create_transaction-IsWritten,
  create_ledger_entry-IsWritten, get_account_by_id-Replies,
}

module _ (env : Env) (healthy : (n : ℕ) → env.fault n ≡ none)
    (alone : (n : ℕ) (db : Db) → env.others n db ≡ db) (req : TransferRequest) (s : Account)
    (covered : leb_ℤ req.amount s.balance ≡ true)
    (other : (req.destination_account_id == req.source_account_id) ≡ false) (b : ℕ → ℤ) where
  -- The balances after both updates, in either order.
  abbrev Moved : Db → Type 0
  Moved db = OwnsBoth req db × (balances db ≡ transferred req b)

  taken-given : taken req (given req b) ≡ transferred req b
  taken-given = fun_ext λ k. swaps (b k) _ _
    where
      swaps : (d x y : ℤ) → d +ℤ y +ℤ x ≡ d +ℤ x +ℤ y
      swaps d x y = omega int_laws

  move_money-Succeeds :
      (w : World)
      → Stands req s w.working
      → balances w.working ≡ b
      → Succeeds (λ _ v. Moved v.working) (move_money env req w)
  unfolding move_money
  move_money-Succeeds w h eq =
      elim (Bool-cases (ltb req.source_account_id req.destination_account_id)) [
        | inl first ↦ rw first (
            bind-Succeeds _
              (on_no_rows-Succeeds (of_ledger LedgerError.insufficient_funds) (
                exec-Succeeds env healthy alone (debit_account req.source_account_id req.amount) w
                  (debit_account-OwnsBoth req b _ _ w.working eq s covered h)))
              λ a v p.
                bind-Succeeds _
                  (exec-Succeeds env healthy alone
                    (credit_account req.destination_account_id req.amount) v
                    (credit_account-OwnsBoth req (taken req b) _ _ v.working p.1 p.0))
                  λ _ u q. succeeds q)
        | inr second ↦ rw second (
            bind-Succeeds _
              (exec-Succeeds env healthy alone
                (credit_account req.destination_account_id req.amount) w
                (credit_account-Stands req b _ _ w.working eq s other h))
              λ a v p. on_no_rows-Succeeds (of_ledger LedgerError.insufficient_funds) (
                exec-Succeeds env healthy alone (debit_account req.source_account_id req.amount) v (
                  subst
                    (λ c.
                      Replies (λ _ db. OwnsBoth req db × (balances db ≡ c))
                        (debit_account req.source_account_id req.amount (env.new_uuid v.tick)
                          (env.now v.tick) v.working))
                    taken-given
                    (debit_account-OwnsBoth req (given req b) _ _ v.working p.1 s covered p.0))))
      ]

  write_transfer-Succeeds :
      (currency : String) (w : World)
      → Stands req s w.working
      → balances w.working ≡ b
      → Succeeds
          (λ t v. IsWritten req t v.working × (balances v.working ≡ transferred req b))
          (write_transfer env req currency w)
  unfolding write_transfer
  write_transfer-Succeeds currency w h eq =
      bind-Succeeds _ (move_money-Succeeds w h eq) λ source w1 h1.
        bind-Succeeds _
          (exec-Succeeds env healthy alone (get_account_by_id req.destination_account_id) w1 (
            get_account_by_id-Replies {P = λ _ db. Moved db} _ _ _ w1.working h1.0.1.0 h1.0.1.1 h1))
          λ dest w2 h2.
            bind-Succeeds _
              (exec-Succeeds env healthy alone (create_transaction (transfer_params req currency))
                w2
                (create_transaction-IsWritten req (transferred req b) _ _ w2.working h2.1 currency
                  h2.0))
              λ txn w3 h3.
                bind-Succeeds _
                  (exec-Succeeds env healthy alone
                    (create_ledger_entry (debit_entry req source.balance txn.id _)) w3
                    (create_ledger_entry-IsWritten req (transferred req b) _ _ w3.working h3.1 _ txn
                      h3.0.0 h3.0))
                  λ _ w4 h4.
                    bind-Succeeds _
                      (exec-Succeeds env healthy alone
                        (create_ledger_entry (credit_entry req dest.balance txn.id _)) w4
                        (create_ledger_entry-IsWritten req (transferred req b) _ _ w4.working h4.1 _
                          txn h4.0.1 h4.0))
                      λ _ w5 h5. succeeds h5

  funded : (a : Account) → leb_ℤ req.amount a.balance ≡ true → ltb_ℤ a.balance req.amount ≡ false
  funded a h = ground arith

  module _ (d : Account) (same : str_eq s.currency d.currency ≡ true) where
    fresh_transfer-Succeeds :
        (t0 d_idp : ℕ) (w : World)
        → Waits req s d b w.working
        → Succeeds
            (λ t v. IsMade req (transferred req b) t v.committed)
            (fresh_transfer env t0 d_idp req w)
    unfolding fresh_transfer
    fresh_transfer-Succeeds t0 d_idp w h =
        bind-Succeeds _
          (on_error-Succeeds (of_ledger LedgerError.account_not_found) (
            exec-Succeeds env healthy alone (get_account_by_id req.source_account_id) w (
              get_account_by_id-Replies {P = λ a db. (a ≡ s) × Waits req s d b db} _ _ _ w.working s
                h.1.0 (refl, h))))
          λ source w1 h1.
            bind-Succeeds _
              (on_error-Succeeds (of_ledger LedgerError.account_not_found) (
                exec-Succeeds env healthy alone (get_account_by_id req.destination_account_id) w1 (
                  get_account_by_id-Replies {P = λ a db. (a ≡ d) × Waits req s d b db} _ _ _
                    w1.working d h1.1.0 (refl, h1.1))))
              λ dest w2 h2.
                bind-Succeeds _
                  (fail_if-Succeeds (λ v. Waits req s d b v.working) _
                    (of_ledger LedgerError.currency_mismatch) w2 (rw (h1.0, h2.0, same) refl) h2.1)
                  λ _ w3 h3.
                    bind-Succeeds _
                      (fail_if-Succeeds (λ v. Waits req s d b v.working) _
                        (of_ledger LedgerError.insufficient_funds) w3 (rw h1.0 (funded s covered))
                        h3)
                      λ _ w4 h4.
                        bind-Succeeds _ (write_transfer-Succeeds source.currency w4 h4.1 h4.2)
                          λ txn w5 h5.
                            bind-Succeeds _
                              (commit-Succeeds env healthy alone
                                (IsMade req (transferred req b) txn) w5 (h5.0.2, h5.1))
                              λ _ w6 h6. succeeds h6

    no_transaction :
        (n t : ℕ) (db : Db)
        → Waits req s d b db
        → get_transaction_by_idempotency_key req.idempotency_key n t db ≡ err no_rows
    unfolding get_transaction_by_idempotency_key
    no_transaction n t db h = rw h.1.1.2 refl

    transfer_tx-Succeeds :
        (t0 : ℕ) (w : World)
        → Waits req s d b w.working
        → Succeeds (λ t v. IsMade req (transferred req b) t v.committed) (transfer_tx env t0 req w)
    unfolding transfer_tx replay_transfer
    transfer_tx-Succeeds t0 w h =
        bind-Succeeds _
          (optional-Succeeds env healthy alone (Waits req s d b)
            (get_transaction_by_idempotency_key req.idempotency_key) w
            (no_transaction _ _ w.working h) h)
          λ o v p. rw p.0 (fresh_transfer-Succeeds t0 _ v p.1)

leave-Succeeds :
    {A : Type 0} (P : A → Db → Type 0) {r : Result A × World}
    → Succeeds (λ a v. P a v.committed) r
    → Succeeds (λ a v. P a v.committed) (leave r)
leave-Succeeds P (succeeds p) = succeeds p

-- Let no statement fail, no other session be at work, and no transaction have the key of a request
-- for a positive amount, from an account that holds it to another account in the same currency. Then
-- the transfer succeeds; the transaction that it returns is committed and found by the key, the
-- source has lost the amount, the destination has gained it, and all other balances are as before.
pub transfer-Succeeds :
    (env : Env) (req : TransferRequest) (w : World) (s d : Account)
    → ((n : ℕ) → env.fault n ≡ none)
    → ((n : ℕ) (db : Db) → env.others n db ≡ db)
    → pos 1 ≤ℤ req.amount
    → req.amount ≤ℤ s.balance
    → ¬ (req.source_account_id ≡ req.destination_account_id)
    → find (account_with_id req.source_account_id) w.committed.accounts ≡ some s
    → find (account_with_id req.destination_account_id) w.committed.accounts ≡ some d
    → str_eq s.currency d.currency ≡ true
    → find (txn_with_key req.idempotency_key) w.committed.transactions ≡ none
    → Succeeds
        (λ txn v.
          (find (txn_with_key req.idempotency_key) v.committed.transactions ≡ some txn)
          × (balances v.committed ≡ transferred req (balances w.committed)))
        (transfer env req w)
unfolding transfer in_flight with_tx begin
transfer-Succeeds env req w s d healthy alone positive covers other is_s is_d same free =
    let b = balances w.committed in
    let Open = λ (v : World). Waits req s d b v.committed in
    leave-Succeeds (IsMade req (transferred req b)) (
      bind-Succeeds _
        (fail_if-Succeeds Open _ _ _ (some_amount positive)
          (is_d, (is_s, ((s, is_s), (d, is_d), free)), refl))
        λ _ w1 h1. bind-Succeeds _ (fail_if-Succeeds Open _ _ w1 (apart other) h1) λ _ w2 h2.
          bind-Succeeds _ (begin-Succeeds env healthy alone (Waits req s d b) w2 h2) λ _ w3 h3.
            finish-Succeeds env healthy alone (IsMade req (transferred req b)) (
              transfer_tx-Succeeds env healthy alone req s (enough covers)
                (apart (λ e. other (sym e))) b d same _ w3 h3))
  where
    some_amount : pos 1 ≤ℤ req.amount → leb_ℤ req.amount (pos 0) ≡ false
    some_amount h = ground arith

    enough : req.amount ≤ℤ s.balance → leb_ℤ req.amount s.balance ≡ true
    enough h = ground arith

    apart : {i j : ℕ} → ¬ (i ≡ j) → (i == j) ≡ false
    apart h = ground arith
