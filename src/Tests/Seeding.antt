-- ===== src/Tests/Seeding.antt =====
-- The theorems on Seed of postgre-setup/go/internal/api/handlers/admin.go at work.
use playground_ledger.Prelude.{
  ℕ, zero, suc, ◌≡◌, refl, ap, Bool, true, Option, none, some, List, [], ◌∷◌, length, String, ℤ,
  pos,
}
use playground_ledger.Store.{World}
use playground_ledger.Middleware.{Bytes}
use playground_ledger.Ledger.Drift.{drift}
use playground_ledger.Handlers.{Reply, Printers, Parsers}
use playground_ledger.Handlers.Seed.{SeedRequest, SeedReply, count_of, seed_handler}
use playground_ledger.Handlers.Seeding.{Counts, seed_handler-drift, seed_handler-Counts}
use playground_ledger.Client.Seeding.{AtMost, Asked, auto_seed, logged, auto_seed-Asked}
use playground_ledger.Client.Server.Seeding.{seed_request, client_seed, auto_seed-drift}
use playground_ledger.Tests.{calm, world, signup_key}

abbrev first : Bytes → Option ℕ
first [] = none
first (c ∷ cs) = some c

abbrev amount_of : Bytes → Option ℤ
amount_of text = some (pos 50)

abbrev parsers : Parsers
parsers = record { parse_uuid = first; parse_decimal = amount_of; parse_time = first }

abbrev printers : Printers
printers = record { uuid_text = λ k. k ∷ []; decimal_text = λ x. []; time_text = λ t. t ∷ [] }

-- A request is its count and where it starts.
abbrev encode : SeedRequest → Bytes
encode b = count_of b.count ∷ count_of b.start_index ∷ []

abbrev decode : Bytes → Option SeedRequest
decode (n ∷ start ∷ []) = some (seed_request "load" (5 ∷ []) n start)
decode _ = none

-- The last goroutine is done first.
countdown : ℕ → List ℕ
countdown zero = []
countdown (suc n) = n ∷ countdown n

length-countdown : (n : ℕ) → length (countdown n) ≡ n
unfolding countdown
length-countdown zero = refl
length-countdown (suc n) = ap suc (length-countdown n)

abbrev seed_key : String → ℤ → ℕ
seed_key external_id balance = 98

abbrev same_order : String → String → Bool
same_order s t = true

abbrev show_int : ℤ → String
show_int n = "7"

abbrev reply : Reply SeedReply × World
reply =
    seed_handler calm printers signup_key seed_key same_order show_int parsers decode countdown
      (3 ∷ 0 ∷ []) world

seed_handler-drift_example : drift 10 reply.1.committed ≡ drift 10 world.committed
seed_handler-drift_example =
    seed_handler-drift calm printers signup_key seed_key same_order show_int parsers decode
      countdown (3 ∷ 0 ∷ []) world 10 (λ n db. refl)

seed_handler-Counts_example : Counts (seed_request "load" (5 ∷ []) 3 0) reply.0
seed_handler-Counts_example =
    seed_handler-Counts calm printers signup_key seed_key same_order show_int parsers decode
      countdown (3 ∷ 0 ∷ []) world (seed_request "load" (5 ∷ []) 3 0) refl length-countdown

abbrev seed : ℕ → ℕ → World → Option ℕ × World
seed =
    client_seed calm printers signup_key seed_key same_order show_int parsers encode decode
      countdown "load" (5 ∷ [])

auto_seed-drift_example :
    AtMost 25000 (auto_seed seed 25000 world).0
    × (drift 10 (auto_seed seed 25000 world).1.committed ≡ drift 10 world.committed)
auto_seed-drift_example =
    auto_seed-drift calm printers signup_key seed_key same_order show_int parsers encode decode
      countdown "load" (5 ∷ []) 10 (λ n db. refl) (λ n start. refl) length-countdown world 25000

auto_seed-Asked_example :
    Asked 25000
      (auto_seed (logged seed) 25000 (world, [])).0
      (auto_seed (logged seed) 25000 (world, [])).1.1
auto_seed-Asked_example = auto_seed-Asked seed 25000 world
