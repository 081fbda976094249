-- ===== src/Lib.antt =====
-- The playground ledger: a wallet of accounts with balances, a ledger of entries, and credit
-- grants that are spent before cash, over PostgreSQL; its stress test; and the same payments over
-- TigerBeetle.
--
-- The program. A handler (postgre-setup/go/internal/api/handlers) calls a service
-- (internal/ledger, internal/grants, internal/wallet). A service sends statements, generated by
-- sqlc (internal/db/generated), to PostgreSQL, on their own or in a transaction that a deferred
-- rollback ends.
--
-- The files.
--   Prelude      integers, Boolean tests, tables as lists, ORDER BY, LIMIT and OFFSET.
--   Db           the rows of generated/models.go, and the database as its tables.
--   Store        what a program of the services is: a function from a world (the committed tables,
--                the transaction's view of them, the statistics) to a result and a world. `exec` is
--                a statement in a transaction, `auto` one outside, `with_tx` is pool.Begin with the
--                deferred tx.Rollback. `Env` holds what the program does not decide: which
--                statement fails and how, what other sessions commit before it, the UUIDs drawn,
--                the clocks, and in which order a statement scans the accounts, which decides
--                between those that its ORDER BY does not order. Store.Hoare, Store.Rules and Store.Live are the rules of proof.
--   Queries      the statements of generated/*.sql.go, a module a file: functions by their names in
--                snake case, from the tables to an answer and the tables. Queries.Reconcile is the
--                query of handlers/admin.go.
--   Stats        opStats of ledger/service.go. Counters are int64 bit patterns and wrap at 2 ^ 64.
--                snapshot takes them one by one, with what others record in between as a
--                parameter.
--   Ledger       ledger/service.go: transfer, deposit, withdraw and the queries. Below it, the
--                modules of the proofs: what statements do to a balance, a sum or a drift, and
--                Ledger.Conservation and Ledger.Atomic, which carry that to the operations;
--                Ledger.Counting is about the statistics, Ledger.Moving and Ledger.Succeeding about
--                transfers that nothing stands in the way of.
--   Grants       grants/service.go: issue_grant, draw_down, waterfall_debit, expire_grants.
--                Grants.Spec is a specification of the loops, Grants.Fifo what they answer,
--                Grants.Held, Grants.Paid and Grants.Refines what a waterfall debit answers and
--                leaves in the tables; Grants.Bounds to Grants.Sound, and Grants.Drawn, are about
--                the amounts that grants hold, Grants.Reconciled about the accounts.
--   Wallet       wallet/service.go: users with their first account (CreateUser is register_user),
--                and the calls that it passes on. The SHA-1 UUIDs of a signup and of a top-up are
--                parameters. Wallet.Opening carries what the statements of a signup do to a measure
--                over to the whole.
--   Middleware   middleware/auth.go and idempotency.go: which requests reach a protected handler.
--                uuid.Parse is a parameter.
--   Handlers     the handlers of internal/api/handlers: a handler is a function from a world to a
--                reply (a status with a message, or with a body) and a world. Handlers.Wallet and
--                Handlers.Grants are wallet.go and grants.go, Handlers.Input is strconv.Atoi and
--                the page of a query, Handlers.Batch is the batch handler, Handlers.Admin and
--                Handlers.Seed are Reconcile and Seed of admin.go. The decoders of JSON, and what
--                uuid, decimal and time read and print, are parameters. Payments, Settling, Status,
--                Refusals, Paging and Seeding are about their replies. The goroutines of Seed run one
--                after another, in any order.
--   Ledger.Batch ExecBatch of ledger/service.go, between the commands it sends and the events that
--                GetResults returns, which are a parameter. The loop that drains the pipeline may
--                never end, which is none.
--   Client       cmd/stress: how a reply is counted (client.go), the counters (reporter.go), the
--                loops over pages and over batches of new users and the rates (stress.go),
--                formatDecimal (verify.go). Client.Pages is composed with the handler that it
--                calls. Client.Verify is the scenarios of verify.go over what the methods of
--                LedgerClient do (LedgerApi), with any reading of decimals: parseDecimal is
--                parse_decimal over what float64 does, which is a parameter. Client.Verify.Chunks
--                is about their chunks of fifty requests. Client.Server is those methods over the
--                handlers; Client.Server.Seeding is the loop over batches of new users over the
--                handler.
--   TigerBeetle  tigerbeetle-setup: the waterfall transfers of main.go (a fatal exit is none), the
--                waterfall worker of bench/tb.go, and the chunks of a batch. The server is a
--                parameter.
--   Tests, Runs  a small database, at which the theorems are applied and the services run.
--
-- Choices. A decimal amount is an integer of the smallest unit, so its range and scale
-- (DECIMAL(28, 12)) are not modelled: an overflow is one of the errors that `Env.fault` may
-- report. A UUID is a number, a timestamp is a number. Most loops are over a list and need no
-- fuel. Some have fuel: the paging loop of the client, for which one page in a thousand accounts
-- and one more are enough; its seeding loop, with as many rounds as users; and the sending of
-- chunks and the two loops over chunks of verify.go, with as many as elements. The theorems on
-- them show it is enough. What other sessions do is one function per statement sent, applied to
-- the committed tables and to the view of the transaction; the locks that a transaction holds
-- restrict it only through the hypotheses of a theorem.
--
-- Not modelled: the bytes of JSON, the table of routes, CORS, the export of metrics, process
-- start, configuration, the migrations, what a batch does to the tables, the log of stress events,
-- goroutines and printing in the clients under cmd, the benchmarks against PostgreSQL, and of the
-- TigerBeetle variant the self-checks of main.go, the set-up of accounts and the workers of the
-- hot account and the fan-out.
pub mod Prelude
pub mod Db
pub mod Stats
pub mod Store
pub mod Queries
pub mod Ledger
pub mod Grants
pub mod Wallet
pub mod Middleware
pub mod Handlers
pub mod Client
pub mod TigerBeetle
pub mod Tests
pub mod Runs
