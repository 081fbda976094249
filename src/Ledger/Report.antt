-- ===== src/Ledger/Report.antt =====
-- Reconcile of postgre-setup/go/internal/api/handlers/admin.go against the drift of the accounts.
use playground_ledger.Prelude.{
  ℕ, zero, suc, ◌≡◌, ◌↔◌, ◌≤◌, refl, sym, ap, ◌∙◌, Bool, true, false, not, Bool-cases, inl, inr,
  some, List, [], ◌∷◌, All, keep, map, take, ℤ, pos, ◌-ℤ◌, arith,
}
use playground_ledger.Prelude.Table.{find}
use playground_ledger.Prelude.Sort.{sort_by, insert_by, window}
use playground_ledger.Db.{Db, Account}
use playground_ledger.Store.{Result, ok, err}
use playground_ledger.Queries.Rows.{account_with_id}
use playground_ledger.Queries.Reconcile.{
  ReconcileRow, reconcile_row, reconcile, ledger_balance, is_zero,
}
use playground_ledger.Ledger.Drift.{balance_in, balance_of, drift}

insert_by_full : {A : Type 0} (le : A → A → Bool) (x : A) (xs : List A) → ¬ (insert_by le x xs ≡ [])
unfolding insert_by
insert_by_full le x [] h = cc
insert_by_full le x (y ∷ ys) h = ground arith

sort_by_empty : {A : Type 0} (le : A → A → Bool) (xs : List A) → sort_by le xs ≡ [] → xs ≡ []
unfolding sort_by
sort_by_empty le [] h = refl
sort_by_empty le (x ∷ xs) h = absurd (insert_by_full le x (sort_by le xs) h)

take_empty : {A : Type 0} (n : ℕ) (xs : List A) → 1 ≤ n → take n xs ≡ [] → xs ≡ []
take_empty n [] le h = refl
take_empty zero (x ∷ xs) le h = absurd (omega arith)
take_empty (suc n) (x ∷ xs) le h = cc

take_nothing : {A : Type 0} (n : ℕ) → take {A = A} n [] ≡ []
take_nothing zero = refl
take_nothing (suc n) = refl

-- An account is reconciled.
abbrev pub IsReconciled : Db → Account → Type 0
IsReconciled db a = a.balance -ℤ ledger_balance a.id db.entries ≡ pos 0

module _ (db : Db) where
  abbrev differs : ReconcileRow → Bool
  differs r = not (is_zero r.discrepancy)

  abbrev reported : List Account → List ReconcileRow
  reported accounts = keep differs (map (reconcile_row db.entries) accounts)

  zero_of : (x : ℤ) → is_zero x ≡ true → x ≡ pos 0
  zero_of x h = ground arith

  of_zero : (x : ℤ) → x ≡ pos 0 → is_zero x ≡ true
  of_zero x h = rw h refl

  clash : {b : Bool} → b ≡ true → b ≡ false → ⊥
  clash h e = cc

  reported_empty :
      (accounts : List Account) → (reported accounts ≡ []) ↔ All (IsReconciled db) accounts
  unfolding reconcile_row
  reported_empty [] = (λ _. tt, λ _. refl)
  reported_empty (a ∷ accounts) =
      elim (Bool-cases (is_zero (a.balance -ℤ ledger_balance a.id db.entries))) [
        | inl settled ↦ rw settled (
          λ h. (zero_of _ settled, (reported_empty accounts).0 h),
          λ h. (reported_empty accounts).1 h.1,
        )
        | inr differs ↦ rw differs (
          λ h. cc,
          λ h. absurd (clash (of_zero (a.balance -ℤ ledger_balance a.id db.entries) h.0) differs),
        )
      ]

  rows_of : Result (List ReconcileRow × Db) → List ReconcileRow
  rows_of (ok (rows, _)) = rows
  rows_of (err _) = []

  -- Any limit of at least one row shows whether there is one.
  reconcile_none :
      (n t limit : ℕ)
      → 1 ≤ limit
      → (reconcile (pos limit) n t db ≡ ok ([], db)) ↔ (reported db.accounts ≡ [])
  unfolding reconcile window rows_of sort_by
  reconcile_none n t limit le = (
    λ h. sort_by_empty _ (reported db.accounts) (take_empty limit _ le (ap rows_of h)),
    λ h. rw h (ap (λ rows. ok (rows, db)) (take_nothing limit)),
  )

module _ {A : Type 0} (P Q R : A → Type 0) (h : (a : A) → P a → Q a → R a) where
  All-zip : (xs : List A) → All P xs → All Q xs → All R xs
  All-zip [] p q = tt
  All-zip (x ∷ xs) p q = (h x p.0 q.0, All-zip xs p.1 q.1)

-- Let each account be the first with its identifier. Then Reconcile, asked for one row or more,
-- answers with none exactly if the drift of every account is 0.
pub reconcile-drift :
    (n t limit : ℕ) (db : Db)
    → 1 ≤ limit
    → All (λ a. find (account_with_id a.id) db.accounts ≡ some a) db.accounts
    → (reconcile (pos limit) n t db ≡ ok ([], db)) ↔ All (λ a. drift a.id db ≡ pos 0) db.accounts
unfolding drift balance_of
reconcile-drift n t limit db le unique = (
  λ h.
      All-zip (λ (a : Account). find (account_with_id a.id) db.accounts ≡ some a) (IsReconciled db)
        (λ a. drift a.id db ≡ pos 0) (λ a u r. rw u r) db.accounts unique
        ((reported_empty db db.accounts).0 ((reconcile_none db n t limit le).0 h)),
  λ h. (reconcile_none db n t limit le).1 (
      (reported_empty db db.accounts).1 (
        All-zip (λ (a : Account). find (account_with_id a.id) db.accounts ≡ some a)
          (λ a. drift a.id db ≡ pos 0) (IsReconciled db)
          (λ a u r. sym (ap (λ o. balance_in o -ℤ ledger_balance a.id db.entries) u) ∙ r)
          db.accounts unique h)),
)
