-- ===== src/Client/Server/Seeding.antt =====
-- Seed of LedgerClient, postgre-setup/go/cmd/stress/client.go, over the handler of
-- postgre-setup/go/internal/api/handlers/admin.go, and the loop of autoSeed over both.
use playground_ledger.Prelude.{
  ℕ, ◌==◌, ◌≡◌, refl, ◌∙◌, arith, Bool, Option, none, some, List, length, String, ℤ, pos,
  if◌then◌else◌,
}
use playground_ledger.Db.{Db}
use playground_ledger.Store.{Env, World}
use playground_ledger.Middleware.{Bytes}
use playground_ledger.Ledger.Drift.{drift}
use playground_ledger.Handlers.{Reply, failure, success, Printers, Parsers}
use playground_ledger.Handlers.Seed.{SeedRequest, SeedReply, seed_handler}
use playground_ledger.Handlers.Seeding.{Counts, seed_handler-drift, seed_handler-Counts}
use playground_ledger.Client.Seeding.{AtMost, Makes, auto_seed, auto_seed-ends}

abbrev pub seed_created : Reply SeedReply × World → Option ℕ × World
seed_created (failure s m, w) = (none, w)
seed_created (success s r, w) = (if s == 200 then some r.created else none, w)

abbrev pub seed_request : String → Bytes → ℕ → ℕ → SeedRequest
seed_request prefix initial_balance n start = record {
  count = pos n;
  prefix = prefix;
  initial_balance = initial_balance;
  start_index = pos start;
}

module _ (env : Env) (print : Printers) (signup_key : String → ℕ) (seed_key : String → ℤ → ℕ)
    (collate : String → String → Bool) (show_int : ℤ → String) (parse : Parsers)
    (encode : SeedRequest → Bytes) (decode : Bytes → Option SeedRequest) (order : ℕ → List ℕ)
    (prefix : String) (initial_balance : Bytes) where
  unfoldable pub client_seed : ℕ → ℕ → World → Option ℕ × World
  client_seed n start w = seed_created (
      seed_handler env print signup_key seed_key collate show_int parse decode order
        (encode (seed_request prefix initial_balance n start)) w)

  module _ (k : ℕ) (keeps : (n : ℕ) (db : Db) → drift k (env.others n db) ≡ drift k db)
      (round : (n start : ℕ)
        → decode (encode (seed_request prefix initial_balance n start))
          ≡ some (seed_request prefix initial_balance n start))
      (complete : (n : ℕ) → length (order n) ≡ n) (w0 : World) where
    abbrev Inv : World → Type 0
    Inv w = drift k w.committed ≡ drift k w0.committed

    created-Makes :
        (n start : ℕ) (w : World) (r : Reply SeedReply × World)
        → Counts (seed_request prefix initial_balance n start) r.0
        → Inv r.1
        → Makes Inv n (seed_created r)
    created-Makes n start w (failure s m, v) counts inv = inv
    created-Makes n start w (success s r, v) (is_ok, _, _, _, sum) inv =
        rw is_ok (inv, omega (arith, sum))

    client_seed-Makes : (n start : ℕ) (w : World) → Inv w → Makes Inv n (client_seed n start w)
    unfolding client_seed
    client_seed-Makes n start w inv =
        created-Makes n start w _
          (seed_handler-Counts env print signup_key seed_key collate show_int parse decode order
            (encode (seed_request prefix initial_balance n start)) w
            (seed_request prefix initial_balance n start) (round n start) complete)
          (seed_handler-drift env print signup_key seed_key collate show_int parse decode order
              (encode (seed_request prefix initial_balance n start)) w k keeps
            ∙ inv)

    -- Let other sessions keep the difference between the balance of account k and the sum of its
    -- ledger entries, let a request be read as it was written, and let each request run as many
    -- goroutines as it has users. Then autoSeed over the handler ends, whatever the errors of the
    -- server, with an error or with at most as many users as are wanted, and keeps that difference.
    pub auto_seed-drift :
        (count : ℕ)
        → AtMost count (auto_seed client_seed count w0).0
          × (drift k (auto_seed client_seed count w0).1.committed ≡ drift k w0.committed)
    auto_seed-drift count =
        auto_seed-ends client_seed Inv (λ n start w least most inv. client_seed-Makes n start w inv)
          count w0 refl
