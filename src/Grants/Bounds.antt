-- ===== src/Grants/Bounds.antt =====
-- postgre-setup/go/internal/grants/service.go never overdraws a grant: what each statement does to
-- the bounds of the remaining amounts.
use playground_ledger.Prelude.{
  ℕ, ◌≡◌, refl, true, false, Bool-cases, inl, inr, ◌&&◌, ◌||◌, not, Option, none, some, All,
  All-map, All-keep, ℤ, pos, ◌≤ℤ◌, leb_ℤ, int_laws, arith,
}
use playground_ledger.Prelude.Table.{find, All-find, All-replace}
use playground_ledger.Prelude.Sort.{All-sort_by}
use playground_ledger.Db.{Db, Account, CreditGrant}
use playground_ledger.Store.Hoare.{Answers}
use playground_ledger.Queries.Rows.{account_with_id, grant_with_id, one_row}
use playground_ledger.Queries.Laws.{reject_if-Answers}
use playground_ledger.Queries.Accounts.{charge_account, charged}
use playground_ledger.Queries.Entries.{CreateLedgerEntryParams, create_ledger_entry}
use playground_ledger.Queries.Grants.{
  CreateGrantParams, new_grant, create_grant, CreateGrantLedgerEntryParams,
  create_grant_ledger_entry, deplete_grant, emptied, drawdown_grant, drawn, expire_active_grants,
  expire, is_due, is_active, valid_grant_type, lock_spendable_grants, spendable, consumed_before,
  get_grant_for_update,
}
use playground_ledger.Grants.Spec.{IsFunded}

-- A grant holds between nothing and what it was issued with.
abbrev pub IsWithin : CreditGrant → Type 0
IsWithin g = (pos 0 ≤ℤ g.remaining_amount) × (g.remaining_amount ≤ℤ g.initial_amount)

abbrev pub IsSound : Db → Type 0
IsSound db = All IsWithin db.grants

pub create_grant-IsSound :
    (p : CreateGrantParams) (n t : ℕ) (db : Db)
    → IsSound db
    → Answers (λ _. IsSound) (create_grant p n t db)
unfolding create_grant
create_grant-IsSound p n t db h =
    let refused = leb_ℤ p.initial_amount (pos 0) || not (valid_grant_type p.grant_type) in
    elim (Bool-cases refused) [
      | inl e ↦ rw e tt
      | inr e ↦ issued (omega (arith, positive e), omega arith)
    ]
  where
    positive :
        leb_ℤ p.initial_amount (pos 0) || not (valid_grant_type p.grant_type) ≡ false
        → pos 0 ≤ℤ p.initial_amount
    positive e = ground arith

    issued : IsWithin (new_grant n t p) → Answers (λ _. IsSound) (create_grant p n t db)
    issued new = search reject_if-Answers

emptied-IsSound :
    (id : ℕ) (db : Db) (o : Option CreditGrant)
    → find (grant_with_id id) db.grants ≡ o
    → IsSound db
    → Answers (λ _. IsSound) (emptied db o)
emptied-IsSound id db none e h = h
emptied-IsSound id db (some g) e h =
    All-replace IsWithin (grant_with_id g.id) db.grants _
      (omega (arith, All-find IsWithin (grant_with_id id) db.grants g e h)) h

pub deplete_grant-IsSound :
    (id n t : ℕ) (db : Db) → IsSound db → Answers (λ _. IsSound) (deplete_grant id n t db)
unfolding deplete_grant
deplete_grant-IsSound id n t db h = emptied-IsSound id db (find (grant_with_id id) db.grants) refl h

drawn-IsSound :
    (id : ℕ) (amount : ℤ) (db : Db) (o : Option CreditGrant)
    → pos 0 ≤ℤ amount
    → find (grant_with_id id) db.grants ≡ o
    → IsSound db
    → Answers (λ _. IsSound) (drawn amount db o)
drawn-IsSound id amount db none nonneg e h = tt
drawn-IsSound id amount db (some g) nonneg e h =
    elim (Bool-cases (leb_ℤ amount g.remaining_amount && is_active g.status)) [
      | inl covered ↦ rw covered (
          All-replace IsWithin (grant_with_id g.id) db.grants _
            (omega (int_laws, fits covered, All-find IsWithin (grant_with_id id) db.grants g e h))
            h)
      | inr short ↦ rw short tt
    ]
  where
    fits :
        leb_ℤ amount g.remaining_amount && is_active g.status ≡ true → amount ≤ℤ g.remaining_amount
    fits covered = ground arith

pub drawdown_grant-IsSound :
    (id : ℕ) (amount : ℤ) (n t : ℕ) (db : Db)
    → pos 0 ≤ℤ amount
    → IsSound db
    → Answers (λ _. IsSound) (drawdown_grant id amount n t db)
unfolding drawdown_grant
drawdown_grant-IsSound id amount n t db nonneg h =
    drawn-IsSound id amount db (find (grant_with_id id) db.grants) nonneg refl h

pub expire_active_grants-IsSound :
    (n t : ℕ) (db : Db) → IsSound db → Answers (λ _. IsSound) (expire_active_grants n t db)
unfolding expire_active_grants
expire_active_grants-IsSound n t db h = All-map IsWithin (expire t) db.grants (kept t) h
  where
    kept : (t : ℕ) (g : CreditGrant) → IsWithin g → IsWithin (expire t g)
    kept t g h = elim (Bool-cases (is_due t g)) [ inl due ↦ rw due h | inr fresh ↦ rw fresh h ]

pub create_grant_ledger_entry-IsSound :
    (p : CreateGrantLedgerEntryParams) (n t : ℕ) (db : Db)
    → IsSound db
    → Answers (λ _. IsSound) (create_grant_ledger_entry p n t db)
unfolding create_grant_ledger_entry
create_grant_ledger_entry-IsSound p n t db h = search reject_if-Answers

pub create_ledger_entry-IsSound :
    (p : CreateLedgerEntryParams) (n t : ℕ) (db : Db)
    → IsSound db
    → Answers (λ _. IsSound) (create_ledger_entry p n t db)
unfolding create_ledger_entry
create_ledger_entry-IsSound p n t db h = search reject_if-Answers

pub charge_account-IsSound :
    (id : ℕ) (amount : ℤ) (n t : ℕ) (db : Db)
    → IsSound db
    → Answers (λ _. IsSound) (charge_account id amount n t db)
unfolding charge_account
charge_account-IsSound id amount n t db h = kept (find (account_with_id id) db.accounts)
  where
    kept : (o : Option Account) → Answers (λ _. IsSound) (charged amount t db o)
    kept none = h
    kept (some a) = h

pub get_grant_for_update-IsWithin :
    (id n t : ℕ) (db : Db)
    → IsSound db
    → Answers (λ g db'. IsWithin g × IsSound db') (get_grant_for_update id n t db)
unfolding get_grant_for_update
get_grant_for_update-IsWithin id n t db h = found (find (grant_with_id id) db.grants) refl
  where
    found :
        (o : Option CreditGrant)
        → find (grant_with_id id) db.grants ≡ o
        → Answers (λ g db'. IsWithin g × IsSound db') (one_row o db)
    found none e = tt
    found (some g) e = (All-find IsWithin (grant_with_id id) db.grants g e h, h)

pub lock_spendable_grants-IsFunded :
    (account_id n t : ℕ) (db : Db)
    → IsSound db
    → Answers (λ gs db'. All IsFunded gs × IsSound db') (lock_spendable_grants account_id n t db)
unfolding lock_spendable_grants
lock_spendable_grants-IsFunded account_id n t db h = (
  All-sort_by consumed_before IsFunded _
      (All-keep IsFunded (spendable account_id t) db.grants (λ g e. ground arith)),
  h,
)
