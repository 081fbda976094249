-- ===== src/Handlers/Status.antt =====
-- postgre-setup/go/internal/api/handlers/wallet.go: the status of every reply to a deposit and to
-- a withdrawal, from the request, the fault of the one statement and the accounts that it finds.
use playground_ledger.Prelude.{
  ℕ, ◌≡◌, refl, inl, inr, Bool-cases, Option, none, some, String, ℤ, pos, ◌+ℤ◌, ◌-ℤ◌, leb_ℤ,
  if◌then◌else◌,
}
use playground_ledger.Prelude.Table.{find}
use playground_ledger.Db.{Db, Account, Transaction, EntryType, credit, debit}
use playground_ledger.Store.{
  Env, World, Tx, ok, err, Error, of_ledger, LedgerError, no_rows, pg, bind_of, publish, settle,
  PgError, auto, exec, arrive, fail_if, is_contention,
}
use playground_ledger.Queries.Rows.{Answer, account_with_id}
use playground_ledger.Queries.Transactions.{
  AtomicParams, AtomicRow, atomic_write, deposit_atomic, withdraw_atomic,
}
use playground_ledger.Middleware.{Bytes}
use playground_ledger.Ledger.{atomic_params, leave, atomic_error, deposit, withdraw, in_flight}
use playground_ledger.Handlers.{
  status, Handler, or_fail, answer, answer_of, Request, Printers, Parsers,
}
use playground_ledger.Handlers.Wallet.{
  TransactionResponse, DepositBody, WithdrawBody, deposit_handler, withdraw_handler, deposit_errors,
  withdraw_errors, transaction_to_response,
}
use playground_ledger.Wallet.{money_request, wallet_deposit, wallet_withdraw}

-- A deadlock or a lock timeout, another fault, a missing account, or none of these.
abbrev pub statement_status : Option PgError → Option Account → ℕ
statement_status (some PgError.deadlock_detected) a = 409
statement_status (some PgError.lock_not_available) a = 409
statement_status (some _) a = 500
statement_status none none = 404
statement_status none (some a) = 200

abbrev pub money_status : Env → ℕ → ℤ → World → ℕ
money_status env id amount w =
    if leb_ℤ amount (pos 0)
    then 400
    else statement_status (env.fault w.tick)
        (find (account_with_id id) (env.others w.tick w.committed).accounts)

-- What becomes of the reply once the statement has met its fault and its account.
module _ (env : Env) (errors : Error → ℕ × String) (entry : EntryType) (p : AtomicParams)
    (balance : Account → ℤ) (g : Transaction → TransactionResponse) (k : AtomicRow → Tx Transaction)
    (succeeds : (row : AtomicRow) (w : World)
      → (t : Transaction) × (w' : World) × (k row w ≡ (ok t, w')))
    (missing : (errors (of_ledger LedgerError.account_not_found)).0 ≡ 404)
    (busy : (errors (of_ledger LedgerError.contention)).0 ≡ 409)
    (any : (e : PgError) → (errors (pg e)).0 ≡ 500) where
  abbrev written : ℕ → ℕ → Db → Option Account → Answer AtomicRow
  written n t db none = err no_rows
  written n t db (some a) = atomic_write entry (balance a) n t p a db

  statement-status :
      (w : World) (n t : ℕ) (f : Option PgError) (o : Option Account)
      → status
          (answer_of 200 errors g (
            leave (
              bind_of k (
                atomic_error (
                  publish env (elim f [
                    | some e ↦ (err (pg e), w)
                    | none ↦ settle env w (written n t w.working o)
                  ])))))).0
        ≡ statement_status f o
  unfolding is_contention
  statement-status w n t (some PgError.deadlock_detected) o = busy
  statement-status w n t (some PgError.lock_not_available) o = busy
  statement-status w n t (some PgError.unique_violation) o = any _
  statement-status w n t (some PgError.foreign_key_violation) o = any _
  statement-status w n t (some PgError.check_violation) o = any _
  statement-status w n t (some (PgError.other c)) o = any _
  statement-status w n t none none = missing
  statement-status w n t none (some a) = rw (succeeds _ _).2 refl

-- 400 unless all that is asked for can be read.
abbrev pub asked_status : Option ℕ → Option ℤ → Option ℕ → (ℕ → ℤ → ℕ) → ℕ
asked_status (some id) (some amount) (some key) f = f id amount
asked_status _ _ _ f = 400

abbrev pub and_then : {A B : Type 0} → Option A → (A → Option B) → Option B
and_then none f = none
and_then (some a) f = f a

module _ {B : Type 0} (w : World) (f : ℕ → ℤ → ℕ) (m1 m2 m3 m4 : String) (k : ℕ → ℤ → ℕ → Handler B)
    (answers : (id : ℕ) (amount : ℤ) (key : ℕ) → status (k id amount key w).0 ≡ f id amount) where
  amount-status :
      (id : ℕ) (amount : Option ℤ) (key : Option ℕ)
      → status (or_fail amount 400 m3 (λ a. or_fail key 400 m4 (λ c. k id a c)) w).0
        ≡ asked_status (some id) amount key f
  amount-status id none none = refl
  amount-status id none (some c) = refl
  amount-status id (some a) none = refl
  amount-status id (some a) (some c) = answers id a c

  request-status :
      {Body : Type 0} (read : Body → Option ℤ) (id : Option ℕ) (body : Option Body) (key : Option ℕ)
      → status
          (or_fail id 400 m1
            (λ i.
              or_fail body 400 m2
                (λ b. or_fail (read b) 400 m3 (λ a. or_fail key 400 m4 (λ c. k i a c))))
            w).0
        ≡ asked_status id (and_then body read) key f
  request-status read none body key = refl
  request-status read (some i) none key = refl
  request-status read (some i) (some b) key = amount-status i (read b) key

module _ (env : Env) (print : Printers) (w : World) where
  deposit-status :
      (id : ℕ) (amount : ℤ) (key : ℕ)
      → status
          (answer 200 deposit_errors
            (transaction_to_response print)
            (wallet_deposit env id amount key "Deposit")
            w).0
        ≡ money_status env id amount w
  unfolding wallet_deposit deposit in_flight fail_if auto exec arrive deposit_atomic
  deposit-status id amount key = elim (Bool-cases (leb_ℤ amount (pos 0))) [
    | inl e ↦ rw e refl
    | inr e ↦ rw e (
        statement-status env deposit_errors credit
          (atomic_params (money_request id amount key "Deposit")) (λ a. a.balance +ℤ amount)
          (transaction_to_response print) _ (λ row w. (_, _, refl)) refl refl (λ e. refl) _ _ _
          (env.fault w.tick) (find (account_with_id id) (env.others w.tick w.committed).accounts))
  ]

  withdraw-status :
      (id : ℕ) (amount : ℤ) (key : ℕ)
      → status
          (answer 200 withdraw_errors
            (transaction_to_response print)
            (wallet_withdraw env id amount key "Withdrawal")
            w).0
        ≡ money_status env id amount w
  unfolding wallet_withdraw withdraw in_flight fail_if auto exec arrive withdraw_atomic
  withdraw-status id amount key = elim (Bool-cases (leb_ℤ amount (pos 0))) [
    | inl e ↦ rw e refl
    | inr e ↦ rw e (
        statement-status env withdraw_errors debit
          (atomic_params (money_request id amount key "Withdrawal")) (λ a. a.balance -ℤ amount)
          (transaction_to_response print) _ (λ row w. (_, _, refl)) refl refl (λ e. refl) _ _ _
          (env.fault w.tick) (find (account_with_id id) (env.others w.tick w.committed).accounts))
  ]

-- The status of a deposit and of a withdrawal is 400 if the account, the body, its amount or the key
-- cannot be read, or the amount is not positive; otherwise that of the one statement: 409 on a
-- deadlock or a lock timeout, 500 on any other fault, 404 if no account is found among those that
-- are committed when it arrives, and 200 in all other cases.
pub handlers-status :
    (env : Env) (parse : Parsers) (print : Printers) (r : Request) (w : World)
    (decode_deposit : Bytes → Option DepositBody) (decode_withdraw : Bytes → Option WithdrawBody)
    → (status (deposit_handler env parse print decode_deposit r w).0
        ≡ asked_status
            (parse.parse_uuid r.account_id)
            (and_then (decode_deposit r.body) (λ b. parse.parse_decimal b.amount))
            r.idempotency_key
            (λ id amount. money_status env id amount w))
      × (status (withdraw_handler env parse print decode_withdraw r w).0
          ≡ asked_status
              (parse.parse_uuid r.account_id)
              (and_then (decode_withdraw r.body) (λ b. parse.parse_decimal b.amount))
              r.idempotency_key
              (λ id amount. money_status env id amount w))
unfolding deposit_handler withdraw_handler
handlers-status env parse print r w decode_deposit decode_withdraw = (
  request-status w _ _ _ _ _ _ (deposit-status env print w)
      (λ (b : DepositBody). parse.parse_decimal b.amount) _ _ _,
  request-status w _ _ _ _ _ _ (withdraw-status env print w)
      (λ (b : WithdrawBody). parse.parse_decimal b.amount) _ _ _,
)
