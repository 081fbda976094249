-- ===== src/Handlers/Settling.antt =====
-- WaterfallDebit of postgre-setup/go/internal/api/handlers/grants.go: what a reply says of the grants
-- and of the cash, and what they lose.
use playground_ledger.Prelude.{ℕ, suc, ◌≡◌, refl, Option, some, ℤ, String}
use playground_ledger.Db.{Db}
use playground_ledger.Store.{Env, World, Result, ok, err, Error}
use playground_ledger.Store.Hoare.{OnSuccess}
use playground_ledger.Middleware.{Bytes}
use playground_ledger.Grants.{WaterfallResult}
use playground_ledger.Grants.Paid.{IsKeyed}
use playground_ledger.Grants.Refines.{Settles, waterfall_debit-Settles}
use playground_ledger.Handlers.{Reply, failure, success, Request, answer_of, Printers, Parsers}
use playground_ledger.Handlers.Grants.{WaterfallBody, waterfall_handler}
use playground_ledger.Handlers.Payments.{or_fail_lem, Asks}

-- A success has the status 200, and Q holds of its body and of what is committed.
abbrev pub Answers : {A : Type 0} → (A → Db → Type 0) → Reply A × World → Type 0
Answers Q (success s a, w) = (s ≡ 200) × Q a w.committed
Answers Q (failure s m, w) = Unit {0}

answer_of-Answers :
    {A : Type 0} (P : A → World → Type 0) (Q : A → Db → Type 0) (errors : Error → ℕ × String)
    (r : Result A × World)
    → ((a : A) (w : World) → P a w → Q a w.committed)
    → OnSuccess P r
    → Answers Q (answer_of 200 errors (λ (a : A). a) r)
answer_of-Answers P Q errors (ok a, w) weaken h = (refl, weaken a w h)
answer_of-Answers P Q errors (err e, w) weaken h = tt

-- The body of the reply is the settlement of what the request asks for, and the tables have changed
-- by it.
abbrev pub SettlesRequest :
    Env → Parsers → Request → (Bytes → Option WaterfallBody) → World → WaterfallResult → Db → Type 0
SettlesRequest env parse r decode w result db' =
    (id : ℕ) × (body : WaterfallBody) × (amount : ℤ) × (decode r.body ≡ some body)
    × Asks parse r.account_id body.amount id amount
    × Settles w.committed id amount (env.now (suc (suc w.tick))) result db'

-- Let no other session be at work and no two grants have the same identifier. A waterfall debit that
-- is answered with success is answered with what the specification of the waterfall says of the
-- account of the path, the amount of the body, the tables as they were committed and the time of the
-- lock; and in what is committed then each grant and each account has lost what the reply says.
pub waterfall_handler-Settles :
    (env : Env) (parse : Parsers) (print : Printers) (r : Request) (w : World)
    (decode : Bytes → Option WaterfallBody)
    → ((n : ℕ) (db : Db) → env.others n db ≡ db)
    → IsKeyed w.committed.grants
    → Answers (SettlesRequest env parse r decode w) (waterfall_handler env parse print decode r w)
unfolding waterfall_handler
waterfall_handler-Settles env parse print r w decode alone keyed =
    let Q = SettlesRequest env parse r decode w in
    let S = Answers Q in
    or_fail_lem S (parse.parse_uuid r.account_id) _ _ _ w tt λ id is_id.
      or_fail_lem S (decode r.body) _ _ _ w tt λ body is_body.
        or_fail_lem S (parse.parse_decimal body.amount) _ _ _ w tt λ amount is_amount.
          or_fail_lem S r.idempotency_key _ _ _ w tt λ key is_key.
            answer_of-Answers
              (λ result w'.
                Settles w.committed id amount (env.now (suc (suc w.tick))) result w'.committed)
              Q _ _ (λ result w' settled. (id, body, amount, is_body, (is_id, is_amount), settled))
              (waterfall_debit-Settles env alone id amount key body.description w keyed)
