-- ===== src/Handlers/Seed.antt =====
-- Seed of postgre-setup/go/internal/api/handlers/admin.go: users with a first balance. The goroutines
-- run one after another, in an order that is a parameter; what else happens between two statements
-- is in Env.others.
use Prim.Native.String.{String, ◌++◌}
use playground_ledger.Prelude.{
  ℕ, ◌*◌, ◌^◌, Bool, ◌||◌, Option, some, List, [], ◌∷◌, length, ℤ, pos, negsuc, ◌+ℤ◌, ◌-ℤ◌, leb_ℤ,
  ltb_ℤ, str_eq, if◌then◌else◌,
}
use playground_ledger.Db.{User, Account, Transaction}
use playground_ledger.Store.{Env, World, Result, ok, err, Error}
use playground_ledger.Middleware.{Bytes}
use playground_ledger.Ledger.{get_balance}
use playground_ledger.Wallet.{get_or_create_user, list_accounts, wallet_deposit}
use playground_ledger.Handlers.{Reply, success, Handler, or_fail, fail_when, Printers, Parsers}

pub record SeedRequest : Type 0 where
  pub count : ℤ
  pub prefix : String
  pub initial_balance : Bytes
  pub start_index : ℤ

pub record SeedResult : Type 0 where
  pub external_id : String
  pub email : String
  pub account_id : Bytes
  pub balance : Bytes

-- The texts of an error, by the user's index.
pub data SeedError : Type 0 where
  user_error : ℕ → Error → SeedError
  no_accounts : ℕ → SeedError
  deposit_error : ℕ → Error → SeedError

pub data IndexedResult : Type 0 where
  indexed_error : SeedError → IndexedResult
  indexed_result : SeedResult → IndexedResult

pub record SeedReply : Type 0 where
  pub created : ℕ
  pub users : List SeedResult
  pub errors : List SeedError

-- `for r := range ch`
unfoldable pub collect_results : List IndexedResult → List SeedResult × List SeedError
collect_results [] = ([], [])
collect_results (indexed_error e ∷ rest) =
    let (results, errors) = collect_results rest in (results, e ∷ errors)
collect_results (indexed_result r ∷ rest) =
    let (results, errors) = collect_results rest in (r ∷ results, errors)

-- 10000 units of twelve decimal places.
abbrev pub default_balance : ℤ
default_balance = pos (10000 * 10 ^ 12)

abbrev pub initial_of : Parsers → Bytes → Option ℤ
initial_of parse [] = some default_balance
initial_of parse (c ∷ text) = parse.parse_decimal (c ∷ text)

abbrev pub prefix_of : String → String
prefix_of prefix = if str_eq prefix "" then "stress" else prefix

-- An int has 64 bits.
abbrev pub index_of : ℤ → ℕ → ℤ
index_of start i = let n = start +ℤ pos i in if leb_ℤ (pos (2 ^ 63)) n then n -ℤ pos (2 ^ 64) else n

abbrev pub count_of : ℤ → ℕ
count_of (pos n) = n
count_of (negsuc n) = 0

abbrev pub out_of_bounds : ℤ → Bool
out_of_bounds count = leb_ℤ count (pos 0) || ltb_ℤ (pos 10000) count

abbrev pub or_zero : Result ℤ → ℤ
or_zero (ok x) = x
or_zero (err e) = pos 0

-- `signup_key` and `seed_key` are the SHA-1 UUIDs of CreateUser and of SeedIdempotencyKey, `collate`
-- is the order of the database, `show_int` is %d of fmt.
module _ (env : Env) (print : Printers) (signup_key : String → ℕ) (seed_key : String → ℤ → ℕ)
    (collate : String → String → Bool) (show_int : ℤ → String) where
  abbrev pub external_id_of : String → ℤ → String
  external_id_of prefix index = prefix ++ ("_user_" ++ show_int index)

  module _ (i : ℕ) (external_id email : String) (initial : ℤ) where
    abbrev pub with_balance_of : Account → Result ℤ × World → IndexedResult × World
    with_balance_of acc (bal, w) = (
      indexed_result (record {
        external_id = external_id;
        email = email;
        account_id = print.uuid_text acc.id;
        balance = print.decimal_text (or_zero bal);
      }),
      w,
    )

    abbrev pub filled_up : Account → Result Transaction × World → IndexedResult × World
    filled_up acc (ok _, w) = with_balance_of acc (get_balance env acc.id w)
    filled_up acc (err e, w) = (indexed_error (deposit_error i e), w)

    -- The first account is filled up to the wanted balance.
    unfoldable pub with_account : Account → World → IndexedResult × World
    with_account acc w =
        if ltb_ℤ acc.balance initial
        then filled_up acc (
            wallet_deposit env acc.id (initial -ℤ acc.balance) (seed_key external_id initial)
              "Seed top-up" w)
        else with_balance_of acc (get_balance env acc.id w)

    abbrev pub with_accounts : Result (List Account) × World → IndexedResult × World
    with_accounts (err e, w) = (indexed_error (no_accounts i), w)
    with_accounts (ok [], w) = (indexed_error (no_accounts i), w)
    with_accounts (ok (acc ∷ rest), w) = with_account acc w

    abbrev pub with_user : Result User × World → IndexedResult × World
    with_user (err e, w) = (indexed_error (user_error i e), w)
    with_user (ok user, w) = with_accounts (list_accounts env collate user.id w)

    unfoldable pub seed_named : World → IndexedResult × World
    unfolding with_account
    seed_named w = with_user (get_or_create_user env signup_key external_id email w)

  unfoldable pub seed_user : String → ℤ → ℤ → ℕ → World → IndexedResult × World
  unfolding seed_named
  seed_user prefix initial start i w =
      let external_id = external_id_of prefix (index_of start i) in
      seed_named i external_id (external_id ++ "@stress.local") initial w

  -- What the users come to, in the order in which they are done.
  unfoldable pub seed_users : String → ℤ → ℤ → List ℕ → World → List IndexedResult × World
  unfolding seed_user
  seed_users prefix initial start [] w = ([], w)
  seed_users prefix initial start (i ∷ is) w =
      let (r, w1) = seed_user prefix initial start i w in
      let (rs, w2) = seed_users prefix initial start is w1 in (r ∷ rs, w2)

  abbrev pub seed_reply : List IndexedResult × World → Reply SeedReply × World
  seed_reply (rs, w) =
      let (results, errors) = collect_results rs in
      (success 200 (record { created = length results; users = results; errors = errors }), w)

  -- `order n` is the order in which the goroutines of n users are done.
  unfoldable pub seed_handler :
      Parsers → (Bytes → Option SeedRequest) → (ℕ → List ℕ) → Bytes → Handler SeedReply
  unfolding seed_users collect_results
  seed_handler parse decode order body = or_fail (decode body) 400 "invalid request body" λ req.
      fail_when (out_of_bounds req.count) 400 "count must be between 1 and 10000" (
        or_fail (initial_of parse req.initial_balance) 400 "invalid initial_balance" λ initial w.
          seed_reply (
            seed_users (prefix_of req.prefix) initial req.start_index (order (count_of req.count))
              w))
