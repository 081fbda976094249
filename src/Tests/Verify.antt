-- ===== src/Tests/Verify.antt =====
-- The theorems on the scenarios of postgre-setup/go/cmd/stress/verify.go at work, over the handlers.
use playground_ledger.Prelude.{
  ℕ, ◌+◌, ◌*◌, ◌%◌, ◌^◌, ◌≡◌, ◌↔◌, refl, true, Option, none, some, List, [], ◌∷◌, ◌++◌, length,
  take, drop, All, ℤ, pos, negsuc,
}
use playground_ledger.Prelude.Table.{find}
use playground_ledger.Store.{World}
use playground_ledger.Middleware.{Bytes}
use playground_ledger.Ledger.Drift.{drift}
use playground_ledger.Handlers.{Printers, Parsers}
use playground_ledger.Handlers.Wallet.{DepositBody, TransferBody}
use playground_ledger.Client.Verify.{AccountInfo, LedgerApi, parse_decimal, scenario3}
use playground_ledger.Client.Server.{Codec, server}
use playground_ledger.Client.Server.Report.{scenario3-drift}
use playground_ledger.Tests.{calm, world}

-- Identifiers and amounts of one byte, a sign being a byte before.
abbrev first : Bytes → Option ℕ
first [] = none
first (c ∷ cs) = some c

abbrev amount_of : Bytes → Option ℤ
amount_of (n ∷ []) = some (pos n)
amount_of _ = none

abbrev parsers : Parsers
parsers = record { parse_uuid = first; parse_decimal = amount_of; parse_time = first }

abbrev amount_text : ℤ → Bytes
amount_text (pos n) = n ∷ []
amount_text (negsuc n) = 0 ∷ n ∷ []

abbrev printers : Printers
printers = record { uuid_text = λ k. k ∷ []; decimal_text = amount_text; time_text = λ t. t ∷ [] }

abbrev whole_amount : Bytes → ℕ
whole_amount (n ∷ []) = n
whole_amount _ = 0

-- A float64 that is a whole number.
abbrev parse_amount : Bytes → ℕ
parse_amount = parse_decimal whole_amount (λ x y. x * y) (λ x. x % 2 ^ 64)

-- Two texts as one: the length of the first, the first, the second.
abbrev pack : Bytes → Bytes → Bytes
pack xs ys = length xs ∷ (xs ++ ys)

abbrev decode_deposit : Bytes → Option DepositBody
decode_deposit [] = none
decode_deposit (n ∷ text) = some (record { amount = take n text; currency = drop n text })

abbrev decode_transfer : Bytes → Option TransferBody
decode_transfer [] = none
decode_transfer (n ∷ text) = some (record { to_account_id = take n text; amount = drop n text })

abbrev codec : Codec
codec = record {
  encode_deposit = λ b. pack b.amount b.currency;
  decode_deposit = decode_deposit;
  encode_withdraw = λ b. b.amount;
  decode_withdraw = λ text. some (record { amount = text });
  encode_transfer = λ b. pack b.to_account_id b.amount;
  decode_transfer = decode_transfer;
  bytes_of = λ text. [];
}

abbrev fresh : ℕ → ℕ
fresh n = n + 5000

abbrev api : LedgerApi World
api = server calm parsers printers codec fresh

abbrev five : Bytes
five = 5 ∷ []

abbrev accounts : List AccountInfo
accounts =
    record { id = 10 ∷ []; user_id = []; currency = []; balance = 100 ∷ [] }
    ∷ record { id = 11 ∷ []; user_id = []; currency = []; balance = 20 ∷ [] }
    ∷ []

abbrev draws : List (ℕ × ℕ)
draws = (0, 0) ∷ (1, 0) ∷ []

scenario3-drift_example :
    ((scenario3 api world).0.passed ≡ true)
    ↔ All (λ a. drift a.id world.committed ≡ pos 0) world.committed.accounts
unfolding find
scenario3-drift_example =
    scenario3-drift calm parsers printers codec fresh world (λ n. refl) (λ n db. refl)
      (refl, (refl, tt))
