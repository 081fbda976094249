-- ===== src/Tests/Client.antt =====
-- The theorems on the client of postgre-setup/go/cmd/stress at work.
use playground_ledger.Prelude.{
  ℕ, ◌+◌, ◌≤◌, ◌≡◌, refl, false, [], map, length, Option, some, ℤ, pos, negsuc, arith,
}
use playground_ledger.Prelude.Sort.{sort_by}
use playground_ledger.Prelude.Table.{find}
use playground_ledger.Queries.Accounts.{join_users}
use playground_ledger.Tests.{calm, world}
use playground_ledger.Tests.Handlers.{parsers, printers}
use playground_ledger.Handlers.Wallet.{get_all_users, user_account_response}
use playground_ledger.Handlers.Paging.{directory}
use playground_ledger.Client.Reporter.{
  counted, new_reporter, record_http, record_txn, IsTallied, record_txn-IsTallied,
}
use playground_ledger.Client.Decimals.{read_decimal, format_decimal, read_decimal-format_decimal}
use playground_ledger.Client.Pages.{fetch_all_accounts, fetched, users_request}
use playground_ledger.Client.Pages.Directory.{fetch_all_accounts-directory}

none_counted : counted [] ≤ 0
unfolding counted
none_counted = omega arith

record_txn-IsTallied_example :
    IsTallied (new_reporter {L = ℕ})
    × IsTallied (record_http (new_reporter {L = ℕ}))
    × IsTallied {L = ℕ} (record_txn false 7 "contention" new_reporter)
record_txn-IsTallied_example =
    record_txn-IsTallied false 7 "contention" new_reporter
      (record { split = refl; timed = refl; typed = none_counted })

-- The rank of p in n, less one.
abbrev rank : ℕ → ℕ → ℤ
rank p n = pos 1

-- A server that counts its requests.
abbrev seed : ℕ → ℕ → ℕ → Option ℕ × ℕ
seed n start requests = (some n, requests + 1)

read_decimal-format_decimal_example :
    read_decimal (format_decimal (negsuc 1500000)) ≡ some (negsuc 1500000)
read_decimal-format_decimal_example = read_decimal-format_decimal (negsuc 1500000) (omega arith)

two_accounts : length (directory world.committed) ≡ 2
unfolding sort_by join_users find
two_accounts = refl

fetch_all_accounts-directory_example :
    fetch_all_accounts
      (λ limit offset. get_all_users calm parsers printers (users_request limit offset))
      1
      world
    ≡ fetched (map (user_account_response printers) (directory world.committed))
fetch_all_accounts-directory_example =
    fetch_all_accounts-directory calm parsers printers world (λ n. refl) (λ n db. refl)
      (λ n db e. refl) (omega (arith, two_accounts)) 1 (omega (arith, two_accounts))
