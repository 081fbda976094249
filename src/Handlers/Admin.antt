-- ===== src/Handlers/Admin.antt =====
-- Reconcile of postgre-setup/go/internal/api/handlers/admin.go: its query and its reply. The casts to
-- text of the query are what PostgreSQL prints.
use playground_ledger.Prelude.{ℕ, suc, ◌==◌, Bool, Option, none, some, List, map, length, ℤ, pos}
use playground_ledger.Store.{Env, Query, err, pg, PgError, auto}
use playground_ledger.Middleware.{Bytes}
use playground_ledger.Queries.Reconcile.{ReconcileRow, reconcile}
use playground_ledger.Handlers.{Handler, answer, Printers}
use playground_ledger.Handlers.Wallet.{internal}
use playground_ledger.Handlers.Input.{atoi}

abbrev or_positive : Option ℤ → Option ℕ → Option ℕ
or_positive (some (pos (suc n))) default = some (suc n)
or_positive _ default = default

-- strconv.ParseInt(text, 10, 64), kept if it is positive.
unfoldable pub positive_or : Option ℕ → Bytes → Option ℕ
positive_or default text = or_positive (atoi text) default

abbrev pub reconcile_limit : Bytes → Option ℕ
reconcile_limit text = positive_or (some 100) text

-- The row as it is printed.
pub record ReconcileText : Type 0 where
  pub account_id : Bytes
  pub account_balance : Bytes
  pub ledger_balance : Bytes
  pub discrepancy : Bytes
  pub entry_count : ℕ

pub record ReconcileReply : Type 0 where
  pub discrepancy_count : ℕ
  pub discrepancies : List ReconcileText
  pub ok : Bool

abbrev pub limit_value : Option ℕ → ℤ
limit_value none = pos 0
limit_value (some n) = pos n

-- A sample puts WHERE before LEFT JOIN, which the server refuses.
unfoldable pub reconcile_query : Option ℕ → ℤ → Query (List ReconcileRow)
reconcile_query none limit new_id now db = reconcile limit new_id now db
reconcile_query (some n) limit new_id now db = err (pg (PgError.other 42601))

abbrev pub reconcile_text : Printers → ReconcileRow → ReconcileText
reconcile_text print row = record {
  account_id = print.uuid_text row.account_id;
  account_balance = print.decimal_text row.account_balance;
  ledger_balance = print.decimal_text row.ledger_balance;
  discrepancy = print.decimal_text row.discrepancy;
  entry_count = row.entry_count;
}

abbrev pub reconcile_reply : Printers → List ReconcileRow → ReconcileReply
reconcile_reply print rows = record {
  discrepancy_count = length rows;
  discrepancies = map (reconcile_text print) rows;
  ok = length rows == 0;
}

module _ (env : Env) (print : Printers) where
  unfoldable pub reconcile_handler : Bytes → Bytes → Handler ReconcileReply
  unfolding reconcile_query positive_or
  reconcile_handler limit sample =
      answer 200 (internal "query failed") (reconcile_reply print)
        (auto env (reconcile_query (positive_or none sample) (limit_value (reconcile_limit limit))))
