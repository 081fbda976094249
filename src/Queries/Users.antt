-- ===== src/Queries/Users.antt =====
-- postgre-setup/go/internal/db/generated/users.sql.go
use playground_ledger.Prelude.{ℕ, Bool, Option, none, some, ◌∷◌, String, str_eq}
use playground_ledger.Prelude.Table.{any, find, replace}
use playground_ledger.Db.{Db, User}
use playground_ledger.Store.{Query, ok, err, no_rows, PgError}
use playground_ledger.Queries.Rows.{Answer, one_row, reject_if, user_with_id}

abbrev pub user_with_external_id : String → User → Bool
user_with_external_id external_id u = str_eq u.external_id external_id

abbrev pub new_user : ℕ → ℕ → String → String → User
new_user new_id now external_id email = record {
  id = new_id;
  external_id = external_id;
  email = email;
  created_at = now;
  updated_at = now;
}

-- external_id is UNIQUE.
unfoldable pub create_user : String → String → Query User
create_user external_id email new_id now db =
    let u = new_user new_id now external_id email in
    reject_if (any (user_with_external_id external_id) db.users) PgError.unique_violation
      (ok (u, record db { users = u ∷ db.users }))

unfoldable pub get_user_by_external_id : String → Query User
get_user_by_external_id external_id new_id now db =
    one_row (find (user_with_external_id external_id) db.users) db

unfoldable pub get_user_by_id : ℕ → Query User
get_user_by_id id new_id now db = one_row (find (user_with_id id) db.users) db

abbrev renamed : String → ℕ → Db → Option User → Answer User
renamed email now db none = err no_rows
renamed email now db (some u) =
    let u' = record u { email = email; updated_at = now } in
    ok (u', record db { users = replace (user_with_id u.id) u' db.users })

unfoldable pub update_user : ℕ → String → Query User
update_user id email new_id now db = renamed email now db (find (user_with_id id) db.users)
