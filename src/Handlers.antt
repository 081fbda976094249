-- ===== src/Handlers.antt =====
-- What the handlers of postgre-setup/go/internal/api/handlers share: replies, requests and the texts
-- that other packages read and write.
pub mod Input
pub mod Wallet
pub mod Grants
pub mod Paging
pub mod Status
pub mod Refusals
pub mod Settling
pub mod Batch
pub mod Payments
pub mod Admin
pub mod Seed
pub mod Seeding
use playground_ledger.Prelude.{ℕ, Bool, true, false, Option, none, some, List, String, ℤ}
use playground_ledger.Store.{World, Tx, Result, ok, err, Error}
use playground_ledger.Middleware.{Bytes}

-- `writeError`, with its status and message, and `writeJSON`.
pub data Reply (A : Type 0) : Type 0 where
  failure : ℕ → String → Reply A
  success : ℕ → A → Reply A

abbrev pub status : {A : Type 0} → Reply A → ℕ
status (failure s m) = s
status (success s a) = s

abbrev pub Handler : Type 0 → Type 0
Handler A = World → Reply A × World

-- The parts of a request: the path's account, the body, the key that the middleware has left, and
-- the query's limit and offset, empty where they are missing.
pub record Request : Type 0 where
  pub account_id : Bytes
  pub body : Bytes
  pub idempotency_key : Option ℕ
  pub limit : Bytes
  pub offset : Bytes

-- `if err != nil { writeError(…); return }`
abbrev pub or_fail : {A B : Type 0} → Option A → ℕ → String → (A → Handler B) → Handler B
or_fail none s m k w = (failure s m, w)
or_fail (some a) s m k w = k a w

abbrev pub fail_when : {A : Type 0} → Bool → ℕ → String → Handler A → Handler A
fail_when true s m k w = (failure s m, w)
fail_when false s m k w = k w

abbrev pub answer_of :
    {A B : Type 0} → ℕ → (Error → ℕ × String) → (A → B) → Result A × World → Reply B × World
answer_of s errors f (ok a, w) = (success s (f a), w)
answer_of s errors f (err e, w) = (failure (errors e).0 (errors e).1, w)

-- The call of a service, its errors by status and message, and its answer.
abbrev pub answer : {A B : Type 0} → ℕ → (Error → ℕ × String) → (A → B) → Tx A → Handler B
answer s errors f m w = answer_of s errors f (m w)

-- What github.com/google/uuid, github.com/shopspring/decimal and time print.
pub record Printers : Type 0 where
  pub uuid_text : ℕ → Bytes
  pub decimal_text : ℤ → Bytes
  pub time_text : ℕ → Bytes

-- What github.com/google/uuid, github.com/shopspring/decimal and time read.
pub record Parsers : Type 0 where
  pub parse_uuid : Bytes → Option ℕ
  pub parse_decimal : Bytes → Option ℤ
  pub parse_time : Bytes → Option ℕ
