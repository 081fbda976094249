-- ===== src/Ledger/Invariants.antt =====
-- The invariants of the ledger service, postgre-setup/go/internal/ledger/service.go: every account
-- stays reconciled with its entries, and money is neither made nor lost.
use playground_ledger.Prelude.{
  ℕ, ◌==◌, Bool-cases, inl, inr, ◌≡◌, ◌⊎◌, refl, ◌∙◌, ℤ, pos, ◌+ℤ◌, ◌-ℤ◌, int_laws,
}
use playground_ledger.Db.{Db}
use playground_ledger.Store.{Env, World, Result, ok, err}
use playground_ledger.Store.Hoare.{Ends, ends_ok, ends_err, value-Answers}
use playground_ledger.Store.Rules.{Commits, committed_of}
use playground_ledger.Ledger.{
  TransferRequest, MoneyRequest, debit_entry, credit_entry, atomic_params, transfer, deposit,
  withdraw,
}
use playground_ledger.Ledger.Drift.{
  drift, at, credit_account-drift, debit_account-drift, create_transaction-drift,
  create_ledger_entry-drift, deposit_atomic-drift, withdraw_atomic-drift,
}
use playground_ledger.Ledger.Totals.{
  total, credit_account-total, debit_account-total, create_transaction-total,
  create_ledger_entry-total, deposit_atomic-total, withdraw_atomic-total,
}
use playground_ledger.Ledger.Conservation.{Effects, transfer-Ends}
use playground_ledger.Ledger.Atomic.{deposit-Ends, withdraw-Ends}

pub sub_at_neg : (k id : ℕ) (x d : ℤ) → d -ℤ at k id (pos 0 -ℤ x) ≡ d +ℤ at k id x
sub_at_neg k id x d = elim (Bool-cases (id == k)) [
  | inl hit ↦ rw hit (omega int_laws)
  | inr miss ↦ rw miss (omega int_laws)
]

cancels : (d x y : ℤ) → d -ℤ x +ℤ y +ℤ x -ℤ y ≡ d
cancels d x y = omega int_laws

swaps : (d x y : ℤ) → d +ℤ y -ℤ x ≡ d -ℤ x +ℤ y
swaps d x y = omega int_laws

drift-Effects : (k : ℕ) (req : TransferRequest) → Effects (drift k) (λ d. d) req
drift-Effects k req = record {
  out = λ d. d -ℤ at k req.source_account_id req.amount;
  inn = λ d. d +ℤ at k req.destination_account_id req.amount;
  note_out = λ d. d +ℤ at k req.source_account_id req.amount;
  note_inn = λ d. d -ℤ at k req.destination_account_id req.amount;
  debits = debit_account-drift k req.source_account_id req.amount;
  credits = credit_account-drift k req.destination_account_id req.amount;
  records = create_transaction-drift k;
  notes_debit = λ b txn key n t db.
      value-Answers (drift k) _ _ _ (sub_at_neg k req.source_account_id req.amount (drift k db))
        (create_ledger_entry-drift k (debit_entry req b txn key) n t db);
  notes_credit = λ b txn key n t db. create_ledger_entry-drift k _ n t db;
  reorder = λ d. swaps d _ _;
  settles = λ d. cancels d _ _;
}

total-Effects : (req : TransferRequest) → Effects total (λ d. d) req
total-Effects req = record {
  out = λ d. d -ℤ req.amount;
  inn = λ d. d +ℤ req.amount;
  note_out = λ d. d;
  note_inn = λ d. d;
  debits = debit_account-total req.source_account_id req.amount;
  credits = credit_account-total req.destination_account_id req.amount;
  records = create_transaction-total;
  notes_debit = λ b txn key n t db. create_ledger_entry-total (debit_entry req b txn key) n t db;
  notes_credit = λ b txn key n t db. create_ledger_entry-total (credit_entry req b txn key) n t db;
  reorder = λ d. swaps d _ _;
  settles = λ d. omega int_laws;
}

-- Where the measure ends as it began, success and failure leave it alone.
unmoved :
    {A : Type 0} (m : Db → ℤ) (c : ℤ) {r : Result A × World}
    → Ends (λ _ w. (m w.committed ≡ c) ⊎ (m w.committed ≡ c)) (λ w. m w.committed ≡ c) r
    → Commits (λ _ db. m db ≡ c) (λ db. m db ≡ c) r
unmoved m c (ends_ok (inl h)) = ends_ok h
unmoved m c (ends_ok (inr h)) = ends_ok h
unmoved m c (ends_err h) = ends_err h

-- Let other sessions keep the difference between the balance of account k and the sum of its
-- ledger entries. Then no transfer, deposit or withdrawal changes that difference in what is
-- committed, whatever the request, the errors that the server reports and the interleaving.
pub operations-drift :
    (env : Env) (k : ℕ) (w : World) (t : TransferRequest) (d : MoneyRequest)
    → ((n : ℕ) (db : Db) → drift k (env.others n db) ≡ drift k db)
    → (drift k (transfer env t w).1.committed ≡ drift k w.committed)
      × (drift k (deposit env d w).1.committed ≡ drift k w.committed)
      × (drift k (withdraw env d w).1.committed ≡ drift k w.committed)
operations-drift env k w t d keeps = (
  committed_of (λ db. drift k db ≡ drift k w.committed) _
      (unmoved (drift k) _ (
        transfer-Ends env (drift k) (λ d. d) t (drift-Effects k t) (drift k w.committed) keeps w
          refl)),
  committed_of (λ db. drift k db ≡ drift k w.committed) _
      (deposit-Ends env (drift k) d (λ x. x) (drift k w.committed) keeps
        (deposit_atomic-drift k (atomic_params d)) w refl),
  committed_of (λ db. drift k db ≡ drift k w.committed) _
      (withdraw-Ends env (drift k) d (λ x. x) (drift k w.committed) keeps
        (withdraw_atomic-drift k (atomic_params d)) w refl),
)

-- The change of the sum of all balances that a result stands for.
abbrev pub Gains : {A : Type 0} → ℤ → ℤ → Result A × World → Type 0
Gains before gain (ok _, w) = total w.committed ≡ before +ℤ gain
Gains before gain (err _, w) = total w.committed ≡ before

pub Commits-Gains :
    {A : Type 0} (before gain after : ℤ) (r : Result A × World)
    → after ≡ before +ℤ gain
    → Commits (λ _ db. total db ≡ after) (λ db. total db ≡ before) r
    → Gains before gain r
Commits-Gains before gain after r e (ends_ok h) = h ∙ e
Commits-Gains before gain after r e (ends_err h) = h

-- Let other sessions keep the sum of all balances. Then a transfer, successful or not, leaves the
-- committed sum as it was; a deposit that succeeds raises it by its amount and a withdrawal that
-- succeeds lowers it by its amount, and one that fails leaves it as it was.
pub operations-total :
    (env : Env) (w : World) (t : TransferRequest) (d : MoneyRequest)
    → ((n : ℕ) (db : Db) → total (env.others n db) ≡ total db)
    → Gains (total w.committed) (pos 0) (transfer env t w)
      × Gains (total w.committed) d.amount (deposit env d w)
      × Gains (total w.committed) (pos 0 -ℤ d.amount) (withdraw env d w)
operations-total env w t d keeps =
    let before : ℤ = total w.committed in
    (
      Commits-Gains before (pos 0) before _ (omega int_laws) (
          unmoved total _
            (transfer-Ends env total (λ d. d) t (total-Effects t) before keeps w refl)),
      Commits-Gains before d.amount _ _ refl (
          deposit-Ends env total d (λ x. x +ℤ d.amount) before keeps
            (deposit_atomic-total (atomic_params d)) w refl),
      Commits-Gains before (pos 0 -ℤ d.amount) (before -ℤ d.amount) _ (omega int_laws) (
          withdraw-Ends env total d (λ x. x -ℤ d.amount) before keeps
            (withdraw_atomic-total (atomic_params d)) w refl),
    )
