-- ===== src/Queries/Grants.antt =====
-- postgre-setup/go/internal/db/generated/grants.sql.go, and the inline statement of WaterfallDebit
-- in postgre-setup/go/internal/grants/service.go.
use playground_ledger.Prelude.{
  ℕ, ◌==◌, Bool, true, false, ◌&&◌, ◌||◌, not, Option, none, some, List, ◌∷◌, map, String, str_eq,
  ℤ, pos, ◌-ℤ◌, leb_ℤ, ltb_ℤ, leb, ltb, keep, length, if◌then◌else◌,
}
use playground_ledger.Prelude.Table.{any, find, replace, sum}
use playground_ledger.Prelude.Sort.{sort_by}
use playground_ledger.Db.{
  Db, CreditGrant, GrantStatus, active, expired, depleted, revoked, GrantLedgerEntry,
  GrantEntryType, Metadata,
}
use playground_ledger.Store.{Query, ok, err, no_rows, PgError}
use playground_ledger.Queries.Rows.{
  Answer, one_row, reject_if, windowed, account_with_id, grant_with_id,
}

pub record CreateGrantParams : Type 0 where
  pub account_id : ℕ
  pub grant_type : String
  pub initial_amount : ℤ
  pub expires_at : ℕ
  pub idempotency_key : ℕ
  pub metadata : Metadata
  pub priority : ℤ

abbrev pub new_grant : ℕ → ℕ → CreateGrantParams → CreditGrant
new_grant new_id now p = record {
  id = new_id;
  account_id = p.account_id;
  grant_type = p.grant_type;
  initial_amount = p.initial_amount;
  remaining_amount = p.initial_amount;
  expires_at = p.expires_at;
  status = active;
  idempotency_key = p.idempotency_key;
  metadata = p.metadata;
  created_at = now;
  priority = p.priority;
}

abbrev pub grant_with_key : ℕ → CreditGrant → Bool
grant_with_key k g = g.idempotency_key == k

-- The constraint valid_grant_type.
unfoldable pub valid_grant_type : String → Bool
valid_grant_type t = str_eq t "SIGNUP_BONUS" || str_eq t "PROMOTION" || str_eq t "MANUAL"

unfoldable pub create_grant : CreateGrantParams → Query CreditGrant
create_grant p new_id now db =
    let g = new_grant new_id now p in
    reject_if (leb_ℤ p.initial_amount (pos 0) || not (valid_grant_type p.grant_type))
      PgError.check_violation
      (reject_if (any (grant_with_key p.idempotency_key) db.grants) PgError.unique_violation (
        reject_if (not (any (account_with_id p.account_id) db.accounts))
          PgError.foreign_key_violation (ok (g, record db { grants = g ∷ db.grants }))))

pub record CreateGrantLedgerEntryParams : Type 0 where
  pub grant_id : ℕ
  pub entry_type : GrantEntryType
  pub amount : ℤ
  pub remaining_after : ℤ
  pub description : Option String
  pub idempotency_key : Option ℕ

abbrev pub new_grant_entry : ℕ → ℕ → CreateGrantLedgerEntryParams → GrantLedgerEntry
new_grant_entry new_id now p = record {
  id = new_id;
  grant_id = p.grant_id;
  entry_type = p.entry_type;
  amount = p.amount;
  remaining_after = p.remaining_after;
  description = p.description;
  idempotency_key = p.idempotency_key;
  created_at = now;
}

unfoldable pub create_grant_ledger_entry : CreateGrantLedgerEntryParams → Query GrantLedgerEntry
create_grant_ledger_entry p new_id now db =
    let e = new_grant_entry new_id now p in
    reject_if (not (any (grant_with_id p.grant_id) db.grants)) PgError.foreign_key_violation
      (ok (e, record db { grant_entries = e ∷ db.grant_entries }))

abbrev pub is_active : GrantStatus → Bool
is_active active = true
is_active expired = false
is_active depleted = false
is_active revoked = false

abbrev pub emptied : Db → Option CreditGrant → Answer (Unit {0})
emptied db none = ok (tt, db)
emptied db (some g) =
    let g' = record g { remaining_amount = pos 0; status = depleted } in
    ok (tt, record db { grants = replace (grant_with_id g.id) g' db.grants })

-- `:exec`: no row is no error.
unfoldable pub deplete_grant : ℕ → Query (Unit {0})
deplete_grant id new_id now db = emptied db (find (grant_with_id id) db.grants)

abbrev pub drawn : ℤ → Db → Option CreditGrant → Answer CreditGrant
drawn amount db none = err no_rows
drawn amount db (some g) =
    let g' = record g { remaining_amount = g.remaining_amount -ℤ amount } in
    if leb_ℤ amount g.remaining_amount && is_active g.status
    then ok (g', record db { grants = replace (grant_with_id g.id) g' db.grants })
    else err no_rows

-- WHERE id = $1 AND remaining_amount >= $2 AND status = 'ACTIVE'
unfoldable pub drawdown_grant : ℕ → ℤ → Query CreditGrant
drawdown_grant id amount new_id now db = drawn amount db (find (grant_with_id id) db.grants)

abbrev pub is_due : ℕ → CreditGrant → Bool
is_due now g = ltb g.expires_at now && is_active g.status

abbrev pub expire : ℕ → CreditGrant → CreditGrant
expire now g = if is_due now g then record g { status = expired } else g

-- The number of rows affected.
unfoldable pub expire_active_grants : Query ℕ
expire_active_grants new_id now db =
    ok (length (keep (is_due now) db.grants), record db { grants = map (expire now) db.grants })

abbrev pub active_of : ℕ → CreditGrant → Bool
active_of account_id g = (g.account_id == account_id) && is_active g.status

-- ORDER BY priority ASC, expires_at ASC
abbrev pub consumed_before : CreditGrant → CreditGrant → Bool
consumed_before g h =
    ltb_ℤ g.priority h.priority || (leb_ℤ g.priority h.priority && leb g.expires_at h.expires_at)

unfoldable pub get_active_grants_by_account : ℕ → Query (List CreditGrant)
get_active_grants_by_account account_id new_id now db =
    ok (sort_by consumed_before (keep (active_of account_id) db.grants), db)

abbrev pub spendable : ℕ → ℕ → CreditGrant → Bool
spendable account_id now g =
    active_of account_id g && ltb_ℤ (pos 0) g.remaining_amount && ltb now g.expires_at

-- WaterfallDebit: AND remaining_amount > 0 AND expires_at > now() … FOR UPDATE
unfoldable pub lock_spendable_grants : ℕ → Query (List CreditGrant)
lock_spendable_grants account_id new_id now db =
    ok (sort_by consumed_before (keep (spendable account_id now) db.grants), db)

-- COALESCE(SUM(remaining_amount), 0)
unfoldable pub get_grant_balance : ℕ → Query ℤ
get_grant_balance account_id new_id now db =
    ok (sum (λ g. g.remaining_amount) (keep (active_of account_id) db.grants), db)

unfoldable pub get_grant_by_id : ℕ → Query CreditGrant
get_grant_by_id id new_id now db = one_row (find (grant_with_id id) db.grants) db

unfoldable pub get_grant_by_idempotency_key : ℕ → Query CreditGrant
get_grant_by_idempotency_key key new_id now db = one_row (find (grant_with_key key) db.grants) db

-- FOR UPDATE locks the row, and reads it as it stands.
unfoldable pub get_grant_for_update : ℕ → Query CreditGrant
get_grant_for_update id new_id now db = one_row (find (grant_with_id id) db.grants) db

-- ORDER BY created_at DESC LIMIT $2 OFFSET $3
unfoldable pub get_grant_ledger_entries : ℕ → ℤ → ℤ → Query (List GrantLedgerEntry)
get_grant_ledger_entries grant_id limit offset new_id now db =
    windowed limit offset
      (sort_by (λ d e. leb e.created_at d.created_at)
        (keep (λ e. e.grant_id == grant_id) db.grant_entries))
      db

unfoldable pub get_grants_by_account : ℕ → ℤ → ℤ → Query (List CreditGrant)
get_grants_by_account account_id limit offset new_id now db =
    windowed limit offset
      (sort_by (λ g h. leb h.created_at g.created_at)
        (keep (λ g. g.account_id == account_id) db.grants))
      db
