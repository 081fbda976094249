-- ===== src/Grants/Held.antt =====
-- What the grants hold, and what the statements of postgre-setup/go/internal/grants/service.go that
-- spend them take from each.
use playground_ledger.Prelude.{
  ℕ, ◌==◌, ==_iff, ◌≡◌, refl, sym, subst, Bool-cases, inl, inr, true, false, Option, none, some,
  List, ℤ, pos, ◌-ℤ◌, leb_ℤ, int_laws, ◌&&◌,
}
use playground_ledger.Prelude.Table.{find, replace, find-replace_key, find-holds}
use playground_ledger.Db.{Db, CreditGrant, depleted}
use playground_ledger.Store.Hoare.{Answers}
use playground_ledger.Queries.Rows.{grant_with_id}
use playground_ledger.Queries.Laws.{reject_if-Answers}
use playground_ledger.Queries.Grants.{
  CreateGrantLedgerEntryParams, create_grant_ledger_entry, deplete_grant, drawdown_grant, is_active,
}
use playground_ledger.Ledger.Drift.{at}

abbrev pub held_in : Option CreditGrant → ℤ
held_in none = pos 0
held_in (some g) = g.remaining_amount

-- The remaining amount of grant k, 0 if there is none.
unfoldable pub held : ℕ → List CreditGrant → ℤ
held k grants = held_in (find (grant_with_id k) grants)

pub found_grant_id :
    (id : ℕ) (g : CreditGrant) (grants : List CreditGrant)
    → find (grant_with_id id) grants ≡ some g
    → g.id ≡ id
found_grant_id id g grants h = (==_iff g.id id).0 (find-holds (grant_with_id id) grants g h)

pub found_grant :
    (id : ℕ) (g : CreditGrant) (grants : List CreditGrant)
    → find (grant_with_id id) grants ≡ some g
    → find (grant_with_id g.id) grants ≡ some g
found_grant id g grants h =
    subst (λ (i : ℕ). find (grant_with_id i) grants ≡ some g) (sym (found_grant_id id g grants h)) h

-- One row has been written anew, with so much less, and no account.
abbrev pub Draws : CreditGrant → ℤ → Db → Db → Type 0
Draws g consumed db db' =
    (g' : CreditGrant) × (g'.id ≡ g.id)
    × (g.remaining_amount -ℤ g'.remaining_amount ≡ consumed)
    × (db'.accounts ≡ db.accounts)
    × (db'.grants ≡ replace (grant_with_id g.id) g' db.grants)

pub Draws-held :
    (k : ℕ) (g : CreditGrant) (consumed : ℤ) (db db' : Db)
    → find (grant_with_id g.id) db.grants ≡ some g
    → Draws g consumed db db'
    → held k db'.grants ≡ held k db.grants -ℤ at k g.id consumed
unfolding held
Draws-held k g consumed db db' row (g', same_id, less, _, e) =
    rw (e, find-replace_key (λ (x : CreditGrant). x.id) k g.id g' db.grants g row same_id)
      (elim (Bool-cases (g.id == k)) [
        | inl hit ↦ rw (hit, held_row hit, ← less) (omega int_laws)
        | inr miss ↦ rw miss (omega int_laws)
      ])
  where
    held_row : (g.id == k) ≡ true → find (grant_with_id k) db.grants ≡ some g
    held_row hit =
        subst (λ (i : ℕ). find (grant_with_id i) db.grants ≡ some g) ((==_iff g.id k).0 hit) row

-- A row with another identifier is as before.
pub Draws-other :
    (g x : CreditGrant) (consumed : ℤ) (db db' : Db)
    → find (grant_with_id g.id) db.grants ≡ some g
    → (g.id == x.id) ≡ false
    → find (grant_with_id x.id) db.grants ≡ some x
    → Draws g consumed db db'
    → find (grant_with_id x.id) db'.grants ≡ some x
Draws-other g x consumed db db' row apart other (g', same_id, less, _, e) =
    rw (e, find-replace_key (λ (y : CreditGrant). y.id) x.id g.id g' db.grants g row same_id, apart)
      other

pub deplete_grant-Draws :
    (id : ℕ) (g : CreditGrant) (n t : ℕ) (db : Db)
    → find (grant_with_id id) db.grants ≡ some g
    → Answers (λ _ db'. Draws g g.remaining_amount db db') (deplete_grant id n t db)
unfolding deplete_grant
deplete_grant-Draws id g n t db row =
    rw row
      (record g { remaining_amount = pos 0; status = depleted }, refl, omega int_laws, refl, refl)

pub drawdown_grant-Draws :
    (id : ℕ) (amount : ℤ) (g : CreditGrant) (n t : ℕ) (db : Db)
    → find (grant_with_id id) db.grants ≡ some g
    → Answers (λ _ db'. Draws g amount db db') (drawdown_grant id amount n t db)
unfolding drawdown_grant
drawdown_grant-Draws id amount g n t db row =
    rw row (elim (Bool-cases (leb_ℤ amount g.remaining_amount && is_active g.status)) [
      | inl covered ↦ rw covered (
        record g { remaining_amount = g.remaining_amount -ℤ amount },
        refl,
        omega int_laws,
        refl,
        refl,
      )
      | inr short ↦ rw short tt
    ])

-- An entry leaves grants and accounts alone.
pub create_grant_ledger_entry-Same :
    (p : CreateGrantLedgerEntryParams) (n t : ℕ) (db : Db)
    → Answers
        (λ _ db'. (db'.grants ≡ db.grants) × (db'.accounts ≡ db.accounts))
        (create_grant_ledger_entry p n t db)
unfolding create_grant_ledger_entry
create_grant_ledger_entry-Same p n t db = opened (refl, refl)
  where
    opened :
        (db.grants ≡ db.grants) × (db.accounts ≡ db.accounts)
        → Answers
            (λ _ db'. (db'.grants ≡ db.grants) × (db'.accounts ≡ db.accounts))
            (create_grant_ledger_entry p n t db)
    opened h = search reject_if-Answers
