-- ===== src/Handlers/Seeding.antt =====
-- Seed of postgre-setup/go/internal/api/handlers/admin.go: its counts, and what it leaves of the
-- accounts.
use playground_ledger.Prelude.{
  ℕ, suc, ◌+◌, ◌≤◌, ◌≡◌, refl, ap, ◌∙◌, inl, inr, arith, Bool-cases, Bool, true, false, Option,
  some, List, [], ◌∷◌, length, String, ℤ, pos, negsuc, ltb_ℤ,
}
use playground_ledger.Db.{Db, User, Account, Transaction}
use playground_ledger.Store.{Env, World, Query, Result, ok, err, auto}
use playground_ledger.Store.Hoare.{ends_ok, bind-Ends, on_error-Ends}
use playground_ledger.Store.Rules.{Commits, Reads, Reads-Answers, committed_of, auto-Commits}
use playground_ledger.Queries.Laws.{get_account_by_id-Reads}
use playground_ledger.Queries.Accounts.{get_accounts_by_user, get_account_by_id}
use playground_ledger.Middleware.{Bytes}
use playground_ledger.Ledger.{TransferRequest, get_balance}
use playground_ledger.Ledger.Drift.{drift}
use playground_ledger.Ledger.Invariants.{operations-drift}
use playground_ledger.Wallet.{money_request, list_accounts, wallet_deposit}
use playground_ledger.Wallet.Drift.{get_or_create_user-drift}
use playground_ledger.Handlers.{Reply, failure, success, Handler, fail_when, Printers, Parsers}
use playground_ledger.Handlers.Payments.{or_fail_lem}
use playground_ledger.Handlers.Seed.{
  SeedRequest, IndexedResult, indexed_error, indexed_result, SeedReply, collect_results, initial_of,
  prefix_of, count_of, out_of_bounds, with_account, with_accounts, filled_up, with_user, seed_named,
  seed_user, seed_users, seed_handler,
}

-- The answer to a request of so many users.
abbrev pub Counts : SeedRequest → Reply SeedReply → Type 0
Counts req (failure s m) = s ≡ 400
Counts req (success s r) =
    (s ≡ 200)
    × (1 ≤ count_of req.count)
    × (count_of req.count ≤ 10000)
    × (r.created ≡ length r.users)
    × (r.created + length r.errors ≡ count_of req.count)

within : (count : ℤ) → out_of_bounds count ≡ false → (1 ≤ count_of count) × (count_of count ≤ 10000)
within (pos n) inside = (ground arith, ground arith)
within (negsuc n) inside = (ground arith, ground arith)

pub collect_results-length :
    (rs : List IndexedResult)
    → length (collect_results rs).0 + length (collect_results rs).1 ≡ length rs
unfolding collect_results
collect_results-length [] = refl
collect_results-length (indexed_error e ∷ rs) = omega (arith, collect_results-length rs)
collect_results-length (indexed_result r ∷ rs) = omega (arith, collect_results-length rs)

-- To split on a test of the request.
fail_when_lem :
    {B : Type 0} (P : Reply B × World → Type 0) (b : Bool) (s : ℕ) (m : String) (k : Handler B)
    (w : World)
    → P (failure s m, w)
    → (b ≡ false → P (k w))
    → P (fail_when b s m k w)
fail_when_lem P true s m k w fails passes = fails
fail_when_lem P false s m k w fails passes = passes refl

abbrev no_transfer : TransferRequest
no_transfer = record {
  source_account_id = 0;
  destination_account_id = 0;
  amount = pos 0;
  description = "";
  idempotency_key = 0;
  metadata = [];
}

module _ (env : Env) (print : Printers) (signup_key : String → ℕ) (seed_key : String → ℤ → ℕ)
    (collate : String → String → Bool) (show_int : ℤ → String) where
  pub seed_users-length :
      (prefix : String) (initial start : ℤ) (is : List ℕ) (w : World)
      → length
          (seed_users env print signup_key seed_key collate show_int prefix initial start is w).0
        ≡ length is
  unfolding seed_users
  seed_users-length prefix initial start [] w = refl
  seed_users-length prefix initial start (i ∷ is) w =
      ap suc (seed_users-length prefix initial start is _)

  module _ (k : ℕ) (c : ℤ)
      (keeps : (n : ℕ) (db : Db) → drift k (env.others n db) ≡ drift k db) where
    abbrev Is : Db → Type 0
    Is db = drift k db ≡ c

    reads :
        {A : Type 0} (q : Query A)
        → ((n t : ℕ) (db : Db) → Reads db (q n t db))
        → (w : World) → Is w.committed
        → Commits (λ _. Is) Is (auto env q w)
    reads q same w h =
        auto-Commits env Is (λ _. Is) Is (λ n db e. keeps n db ∙ e) q (λ _ e. e)
          (λ n t db e. Reads-Answers Is _ db e (same n t db)) w h

    seen : (id : ℕ) (w : World) → Is w.committed → Is (get_balance env id w).1.committed
    unfolding get_balance
    seen id w h = committed_of Is _ (
        bind-Ends _
          (on_error-Ends _ (reads (get_account_by_id id) (get_account_by_id-Reads id) w h))
          λ a w1 h1. ends_ok h1)

    listed :
        (user_id : ℕ) (w : World)
        → Is w.committed
        → Is (list_accounts env collate user_id w).1.committed
    unfolding list_accounts get_accounts_by_user
    listed user_id w h =
        committed_of Is _ (reads (get_accounts_by_user collate user_id) (λ n t db. refl) w h)

    deposit_keeps :
        (id key : ℕ) (amount : ℤ) (text : String) (w : World)
        → Is w.committed
        → Is (wallet_deposit env id amount key text w).1.committed
    unfolding wallet_deposit
    deposit_keeps id key amount text w h =
        (operations-drift env k w no_transfer (money_request id amount key text) keeps).1 ∙ h

    module _ (i : ℕ) (external_id email : String) (initial : ℤ) where
      filled_up-drift :
          (acc : Account) (r : Result Transaction × World)
          → Is r.1.committed
          → Is
              (filled_up env print signup_key seed_key collate show_int i external_id email initial
                acc r).1.committed
      filled_up-drift acc (ok txn, w) h = seen acc.id w h
      filled_up-drift acc (err e, w) h = h

      with_account-drift :
          (acc : Account) (w : World)
          → Is w.committed
          → Is
              (with_account env print signup_key seed_key collate show_int i external_id email
                initial acc w).1.committed
      unfolding with_account
      with_account-drift acc w h = elim (Bool-cases (ltb_ℤ acc.balance initial)) [
        | inl low ↦ rw low (filled_up-drift acc _ (deposit_keeps _ _ _ _ w h))
        | inr enough ↦ rw enough (seen acc.id w h)
      ]

      with_accounts-drift :
          (r : Result (List Account) × World)
          → Is r.1.committed
          → Is
              (with_accounts env print signup_key seed_key collate show_int i external_id email
                initial r).1.committed
      with_accounts-drift (err e, w) h = h
      with_accounts-drift (ok [], w) h = h
      with_accounts-drift (ok (acc ∷ rest), w) h = with_account-drift acc w h

      with_user-drift :
          (r : Result User × World)
          → Is r.1.committed
          → Is
              (with_user env print signup_key seed_key collate show_int i external_id email initial
                r).1.committed
      with_user-drift (err e, w) h = h
      with_user-drift (ok user, w) h = with_accounts-drift _ (listed user.id w h)

      seed_named-drift :
          (w : World)
          → Is w.committed
          → Is
              (seed_named env print signup_key seed_key collate show_int i external_id email initial
                w).1.committed
      unfolding seed_named
      seed_named-drift w h =
          with_user-drift _
            (get_or_create_user-drift k env signup_key external_id email w keeps ∙ h)

    seed_users-drift :
        (prefix : String) (initial start : ℤ) (is : List ℕ) (w : World)
        → Is w.committed
        → Is
            (seed_users env print signup_key seed_key collate show_int prefix initial start is
              w).1.committed
    unfolding seed_users seed_user
    seed_users-drift prefix initial start [] w h = h
    seed_users-drift prefix initial start (i ∷ is) w h =
        seed_users-drift prefix initial start is _ (seed_named-drift i _ _ initial w h)

  module _ (parse : Parsers) (decode : Bytes → Option SeedRequest) (order : ℕ → List ℕ)
      (body : Bytes) (w : World) where
    abbrev replied : Reply SeedReply × World
    replied = seed_handler env print signup_key seed_key collate show_int parse decode order body w

    -- Let other sessions keep the difference between the balance of account k and the sum of its
    -- ledger entries. Then seeding does, whatever the request, the errors that the server reports,
    -- the order of the users and the interleaving: accounts that were reconciled are, and so are
    -- those that it opens.
    pub seed_handler-drift :
        (k : ℕ)
        → ((n : ℕ) (db : Db) → drift k (env.others n db) ≡ drift k db)
        → drift k replied.1.committed ≡ drift k w.committed
    unfolding seed_handler
    seed_handler-drift k keeps = or_fail_lem Kept (decode body) _ _ _ w refl λ req _.
        fail_when_lem Kept (out_of_bounds req.count) _ _ _ w refl λ _.
          or_fail_lem Kept (initial_of parse req.initial_balance) _ _ _ w refl λ initial _.
            seed_users-drift k (drift k w.committed) keeps (prefix_of req.prefix) initial
              req.start_index (order (count_of req.count)) w refl
      where
        Kept : Reply SeedReply × World → Type 0
        Kept (reply, v) = drift k v.committed ≡ drift k w.committed

    -- Let the order be one of as many goroutines as there are users. Then a request that is read is
    -- refused with 400, or it is for 1 to 10000 users and is answered 200, each of them being
    -- counted once, as one that was seeded or as an error.
    pub seed_handler-Counts :
        (req : SeedRequest)
        → decode body ≡ some req
        → ((n : ℕ) → length (order n) ≡ n)
        → Counts req replied.0
    unfolding seed_handler
    seed_handler-Counts req is_req complete = rw is_req (
        fail_when_lem Counted (out_of_bounds req.count) _ _ _ w refl λ inside.
          or_fail_lem Counted (initial_of parse req.initial_balance) _ _ _ w refl λ initial _. (
            refl,
            (within req.count inside).0,
            (within req.count inside).1,
            refl,
            collect_results-length _
                ∙ seed_users-length _ initial req.start_index _ w
                ∙ complete (count_of req.count),
          ))
      where
        Counted : Reply SeedReply × World → Type 0
        Counted (reply, v) = Counts req reply
