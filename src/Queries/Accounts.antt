-- ===== src/Queries/Accounts.antt =====
-- postgre-setup/go/internal/db/generated/accounts.sql.go
use playground_ledger.Prelude.{
  ℕ, ◌==◌, Bool, ◌&&◌, not, Option, none, some, List, [], ◌∷◌, String, str_eq, ℤ, pos, ◌+ℤ◌, ◌-ℤ◌,
  leb_ℤ, leb, keep, if◌then◌else◌,
}
use playground_ledger.Prelude.Table.{any, find, replace}
use playground_ledger.Prelude.Sort.{sort_by}
use playground_ledger.Db.{Db, Account, User}
use playground_ledger.Store.{Query, ok, err, no_rows, PgError}
use playground_ledger.Queries.Rows.{
  Answer, one_row, reject_if, windowed, account_with_id, user_with_id,
}

-- The updated row takes the place of the old one, and is returned.
abbrev pub put_account : Account → Db → Answer Account
put_account a db = ok (a, record db { accounts = replace (account_with_id a.id) a db.accounts })

abbrev pub with_balance : Account → ℤ → ℕ → Account
with_balance a balance now = record {
  id = a.id;
  user_id = a.user_id;
  currency = a.currency;
  balance = balance;
  pending_balance = a.pending_balance;
  created_at = a.created_at;
  updated_at = now;
}

abbrev pub new_account : ℕ → ℕ → ℕ → String → Account
new_account new_id now user_id currency = record {
  id = new_id;
  user_id = user_id;
  currency = currency;
  balance = pos 0;
  pending_balance = pos 0;
  created_at = now;
  updated_at = now;
}

abbrev pub owned : ℕ → String → Account → Bool
owned user_id currency a = (a.user_id == user_id) && str_eq a.currency currency

unfoldable pub get_account_by_id : ℕ → Query Account
get_account_by_id id new_id now db = one_row (find (account_with_id id) db.accounts) db

-- FOR UPDATE locks the row, and reads it as it stands.
unfoldable pub get_account_for_update : ℕ → Query Account
get_account_for_update id new_id now db = one_row (find (account_with_id id) db.accounts) db

unfoldable pub get_account_by_user_and_currency : ℕ → String → Query Account
get_account_by_user_and_currency user_id currency new_id now db =
    one_row (find (owned user_id currency) db.accounts) db

unfoldable pub get_account_by_user_and_currency_for_update : ℕ → String → Query Account
get_account_by_user_and_currency_for_update user_id currency new_id now db =
    one_row (find (owned user_id currency) db.accounts) db

-- PRIMARY KEY (id), UNIQUE (user_id, currency), and user_id refers to a user.
unfoldable pub create_account : ℕ → String → Query Account
create_account user_id currency new_id now db =
    let a = new_account new_id now user_id currency in
    reject_if (any (account_with_id new_id) db.accounts) PgError.unique_violation (
      reject_if (any (owned user_id currency) db.accounts) PgError.unique_violation (
        reject_if (not (any (user_with_id user_id) db.users)) PgError.foreign_key_violation
          (ok (a, record db { accounts = a ∷ db.accounts }))))

abbrev pub credited : ℤ → ℕ → Db → Option Account → Answer Account
credited amount now db none = err no_rows
credited amount now db (some a) = put_account (with_balance a (a.balance +ℤ amount) now) db

unfoldable pub credit_account : ℕ → ℤ → Query Account
credit_account id amount new_id now db =
    credited amount now db (find (account_with_id id) db.accounts)

abbrev pub debited : ℤ → ℕ → Db → Option Account → Answer Account
debited amount now db none = err no_rows
debited amount now db (some a) =
    if leb_ℤ amount a.balance
    then put_account (with_balance a (a.balance -ℤ amount) now) db
    else err no_rows

-- WHERE id = $1 AND balance >= $2
unfoldable pub debit_account : ℕ → ℤ → Query Account
debit_account id amount new_id now db =
    debited amount now db (find (account_with_id id) db.accounts)

abbrev pub updated : ℤ → ℕ → Db → Option Account → Answer Account
updated balance now db none = err no_rows
updated balance now db (some a) = put_account (with_balance a balance now) db

unfoldable pub update_account_balance : ℕ → ℤ → Query Account
update_account_balance id balance new_id now db =
    updated balance now db (find (account_with_id id) db.accounts)

abbrev pub touched : ℕ → String → ℕ → ℕ → Db → Option Account → Answer Account
touched user_id currency new_id now db (some a) = put_account (with_balance a a.balance now) db
touched user_id currency new_id now db none = create_account user_id currency new_id now db

-- ON CONFLICT (user_id, currency) DO UPDATE
unfoldable pub get_or_create_account : ℕ → String → Query Account
unfolding create_account
get_or_create_account user_id currency new_id now db =
    touched user_id currency new_id now db (find (owned user_id currency) db.accounts)

abbrev pub charged : ℤ → ℕ → Db → Option Account → Answer (Unit {0})
charged amount now db none = ok (tt, db)
charged amount now db (some a) = ok (
  tt,
  record db {
    accounts =
        replace (account_with_id a.id) (with_balance a (a.balance -ℤ amount) now) db.accounts;
  },
)

-- The inline UPDATE of WaterfallDebit (grants/service.go): no condition on the balance, and no row
-- is no error.
unfoldable pub charge_account : ℕ → ℤ → Query (Unit {0})
charge_account id amount new_id now db =
    charged amount now db (find (account_with_id id) db.accounts)

-- ORDER BY currency, by the collation of the database.
unfoldable pub get_accounts_by_user : (String → String → Bool) → ℕ → Query (List Account)
get_accounts_by_user collate user_id new_id now db = ok (
  sort_by (λ a b. collate a.currency b.currency) (keep (λ a. a.user_id == user_id) db.accounts),
  db,
)

pub record GetAllAccountsRow : Type 0 where
  pub account : Account
  pub user_external_id : String

abbrev pub joined : Account → Option User → List GetAllAccountsRow → List GetAllAccountsRow
joined a none rows = rows
joined a (some u) rows = record { account = a; user_external_id = u.external_id } ∷ rows

-- accounts a JOIN users u ON a.user_id = u.id
unfoldable pub join_users : List User → List Account → List GetAllAccountsRow
join_users users [] = []
join_users users (a ∷ accounts) =
    joined a (find (user_with_id a.user_id) users) (join_users users accounts)

-- ORDER BY a.created_at DESC LIMIT $1 OFFSET $2. Nothing orders accounts of one time: they come as
-- the server happens to scan them for this statement.
unfoldable pub get_all_accounts :
    (List Account → List Account) → ℤ → ℤ → Query (List GetAllAccountsRow)
get_all_accounts scan limit offset new_id now db =
    windowed limit offset
      (sort_by (λ a b. leb b.account.created_at a.account.created_at)
        (join_users db.users (scan db.accounts)))
      db
