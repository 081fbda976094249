-- ===== src/Client/Server.antt =====
-- The methods of LedgerClient of postgre-setup/go/cmd/stress/client.go over the handlers of
-- postgre-setup/go/internal/api/handlers. A request of a known user passes the middleware; the codec
-- of JSON, the texts of PostgreSQL and the UUIDs of the client are parameters.
pub mod Report
pub mod Seeding
use playground_ledger.Prelude.{
  ℕ, ◌==◌, Option, none, some, List, [], ◌∷◌, map, String, if◌then◌else◌,
}
use playground_ledger.Store.{Env, World}
use playground_ledger.Middleware.{Bytes}
use playground_ledger.Handlers.{Reply, failure, success, Request, Printers, Parsers}
use playground_ledger.Handlers.Input.{show}
use playground_ledger.Handlers.Wallet.{
  DepositBody, WithdrawBody, TransferBody, TransactionResponse, UserAccountResponse,
  deposit_handler, withdraw_handler, transfer_handler, get_all_users,
}
use playground_ledger.Handlers.Admin.{ReconcileReply, reconcile_handler}
use playground_ledger.Client.{StressResult, do_txn}
use playground_ledger.Client.Replies.{sent}
use playground_ledger.Client.Pages.{users_request}
use playground_ledger.Client.Verify.{AccountInfo, ReconcileResponse, LedgerApi}

-- encoding/json at the types of the bodies, and the bytes of a text.
pub record Codec : Type 0 where
  pub encode_deposit : DepositBody → Bytes
  pub decode_deposit : Bytes → Option DepositBody
  pub encode_withdraw : WithdrawBody → Bytes
  pub decode_withdraw : Bytes → Option WithdrawBody
  pub encode_transfer : TransferBody → Bytes
  pub decode_transfer : Bytes → Option TransferBody
  pub bytes_of : String → Bytes

abbrev pub usd : Bytes
usd = b'U' ∷ b'S' ∷ b'D' ∷ []

-- `doTxn`: the body, the account of the path and a new key.
abbrev pub txn_request : Bytes → Bytes → ℕ → Request
txn_request account_id body key = record {
  account_id = account_id;
  body = body;
  idempotency_key = some key;
  limit = [];
  offset = [];
}

abbrev pub stress_result : {A : Type 0} → Reply A × World → StressResult × World
stress_result (reply, w) = (do_txn (sent reply), w)

abbrev pub account_info : (String → Bytes) → UserAccountResponse → AccountInfo
account_info bytes_of row = record {
  id = row.id;
  user_id = bytes_of row.user_id;
  currency = bytes_of row.currency;
  balance = row.balance;
}

abbrev pub fetched_users :
    (String → Bytes) → Reply (List UserAccountResponse) × World → Option (List AccountInfo) × World
fetched_users bytes_of (failure s m, w) = (none, w)
fetched_users bytes_of (success s rows, w) =
    (if s == 200 then some (map (account_info bytes_of) rows) else none, w)

abbrev pub fetched_report : Reply ReconcileReply × World → Option ReconcileResponse × World
fetched_report (failure s m, w) = (none, w)
fetched_report (success s r, w) = (
  if s == 200 then some (record { ok = r.ok; discrepancy_count = r.discrepancy_count }) else none,
  w,
)

module _ (env : Env) (parse : Parsers) (print : Printers) (codec : Codec) (fresh : ℕ → ℕ) where
  abbrev pub client_deposit : Bytes → Bytes → Bytes → World → StressResult × World
  client_deposit account_id amount user w = stress_result (
      deposit_handler env parse print codec.decode_deposit
        (txn_request account_id (codec.encode_deposit (record { amount = amount; currency = usd }))
          (fresh w.tick))
        w)

  abbrev pub client_withdraw : Bytes → Bytes → Bytes → World → StressResult × World
  client_withdraw account_id amount user w = stress_result (
      withdraw_handler env parse print codec.decode_withdraw
        (txn_request account_id (codec.encode_withdraw (record { amount = amount })) (fresh w.tick))
        w)

  abbrev pub client_transfer : Bytes → Bytes → Bytes → Bytes → World → StressResult × World
  client_transfer from_id to_id amount user w = stress_result (
      transfer_handler env parse print codec.decode_transfer
        (txn_request from_id
          (codec.encode_transfer (record { to_account_id = to_id; amount = amount }))
          (fresh w.tick))
        w)

  abbrev pub client_users : ℕ → World → Option (List AccountInfo) × World
  client_users limit w =
      fetched_users codec.bytes_of (get_all_users env parse print (users_request limit 0) w)

  abbrev sample_text : ℕ → Bytes
  sample_text sample = if sample == 0 then [] else show sample

  abbrev pub client_reconcile : ℕ → World → Option ReconcileResponse × World
  client_reconcile sample w = fetched_report (reconcile_handler env print [] (sample_text sample) w)

  abbrev pub server : LedgerApi World
  server = record {
    deposit = client_deposit;
    withdraw = client_withdraw;
    transfer = client_transfer;
    get_all_users = client_users;
    reconcile = client_reconcile;
  }
