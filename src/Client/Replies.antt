-- ===== src/Client/Replies.antt =====
-- How the client of postgre-setup/go/cmd/stress/client.go reads the replies of
-- postgre-setup/go/internal/api/handlers.
use playground_ledger.Prelude.{
  ℕ, ◌==◌, ◌≡◌, refl, arith, Bool, true, false, Option, none, some, String,
}
use playground_ledger.Store.{Env, World, Result, ok, err, Error}
use playground_ledger.Middleware.{Bytes}
use playground_ledger.Handlers.{
  Reply, failure, success, Handler, Request, or_fail, fail_when, answer_of, Printers, Parsers,
}
use playground_ledger.Handlers.Wallet.{
  DepositBody, WithdrawBody, TransferBody, deposit_handler, withdraw_handler, transfer_handler,
  deposit_errors, withdraw_errors, transfer_errors,
}
use playground_ledger.Handlers.Grants.{
  IssueGrantBody, DrawdownBody, issue_grant_handler, issue_until, drawdown_handler, issue_errors,
  drawdown_errors,
}
use playground_ledger.Client.{Answer, replied, do_txn}

-- The reply as the client gets it.
abbrev pub sent : {A : Type 0} → Reply A → Answer
sent (failure s m) = replied s m
sent (success s a) = replied s ""

abbrev pub is_success : {A : Type 0} → Reply A → Bool
is_success (failure s m) = false
is_success (success s a) = true

-- Successes have the status `s`, failures another than 200.
data Has {A : Type 0} (s : ℕ) : Reply A × World → Type 0 where
  has_failure : {n : ℕ} {m : String} {w : World} → (n == 200) ≡ false → Has s (failure n m, w)
  has_success : {a : A} {w : World} → Has s (success s a, w)

or_fail-Has :
    {A B : Type 0} {s : ℕ} (o : Option A) (m : String) (k : A → Handler B) (w : World)
    → ((a : A) → Has s (k a w))
    → Has s (or_fail o 400 m k w)
or_fail-Has none m k w h = has_failure refl
or_fail-Has (some a) m k w h = h a

fail_when-Has :
    {B : Type 0} {s : ℕ} (b : Bool) (m : String) (k : Handler B) (w : World)
    → Has s (k w)
    → Has s (fail_when b 400 m k w)
fail_when-Has true m k w h = has_failure refl
fail_when-Has false m k w h = h

answer_of-Has :
    {A B : Type 0} {s : ℕ} (errors : Error → ℕ × String) (f : A → B) (r : Result A × World)
    → ((e : Error) → ((errors e).0 == 200) ≡ false)
    → Has s (answer_of s errors f r)
answer_of-Has errors f (ok a, w) h = has_success
answer_of-Has errors f (err e, w) h = has_failure (h e)

deposit_errors-Has : (e : Error) → ((deposit_errors e).0 == 200) ≡ false
deposit_errors-Has e = ground arith

withdraw_errors-Has : (e : Error) → ((withdraw_errors e).0 == 200) ≡ false
withdraw_errors-Has e = ground arith

transfer_errors-Has : (e : Error) → ((transfer_errors e).0 == 200) ≡ false
transfer_errors-Has e = ground arith

issue_errors-Has : (e : Error) → ((issue_errors e).0 == 200) ≡ false
issue_errors-Has e = ground arith

drawdown_errors-Has : (e : Error) → ((drawdown_errors e).0 == 200) ≡ false
drawdown_errors-Has e = ground arith

read_success :
    {A : Type 0} (r : Reply A × World) → Has 200 r → (do_txn (sent r.0)).success ≡ is_success r.0
unfolding do_txn
read_success _ (has_failure h) = rw h refl
read_success _ has_success = refl

misread : {A : Type 0} (r : Reply A × World) → Has 201 r → (do_txn (sent r.0)).success ≡ false
unfolding do_txn
misread _ (has_failure h) = rw h refl
misread _ has_success = refl

module _ (env : Env) (now : ℕ → ℕ) (parse : Parsers) (print : Printers) (r : Request)
    (w : World) where
  deposit_handler-Has :
      (decode : Bytes → Option DepositBody) → Has 200 (deposit_handler env parse print decode r w)
  unfolding deposit_handler
  deposit_handler-Has decode = search (or_fail-Has, answer_of-Has, deposit_errors-Has) depth 12

  withdraw_handler-Has :
      (decode : Bytes → Option WithdrawBody) → Has 200 (withdraw_handler env parse print decode r w)
  unfolding withdraw_handler
  withdraw_handler-Has decode = search (or_fail-Has, answer_of-Has, withdraw_errors-Has) depth 12

  transfer_handler-Has :
      (decode : Bytes → Option TransferBody) → Has 200 (transfer_handler env parse print decode r w)
  unfolding transfer_handler
  transfer_handler-Has decode = search (or_fail-Has, answer_of-Has, transfer_errors-Has) depth 12

  drawdown_handler-Has :
      (decode : Bytes → Option DrawdownBody) → Has 200 (drawdown_handler env parse print decode r w)
  unfolding drawdown_handler
  drawdown_handler-Has decode = search (or_fail-Has, answer_of-Has, drawdown_errors-Has) depth 12

  issue_grant_handler-Has :
      (decode : Bytes → Option IssueGrantBody)
      → Has 201 (issue_grant_handler env now parse print decode r w)
  unfolding issue_grant_handler issue_until
  issue_grant_handler-Has decode =
      search (or_fail-Has, fail_when-Has, answer_of-Has, issue_errors-Has) depth 12

  -- For a deposit, a withdrawal, a transfer and a drawdown, the client records a success exactly if
  -- the handler has answered with one. It records every issue of a grant as a failure, also when
  -- the grant is issued.
  pub do_txn-success :
      (decode_deposit : Bytes → Option DepositBody) (decode_withdraw : Bytes → Option WithdrawBody)
      (decode_transfer : Bytes → Option TransferBody)
      (decode_drawdown : Bytes → Option DrawdownBody) (decode_issue : Bytes → Option IssueGrantBody)
      → ((do_txn (sent (deposit_handler env parse print decode_deposit r w).0)).success
          ≡ is_success (deposit_handler env parse print decode_deposit r w).0)
        × ((do_txn (sent (withdraw_handler env parse print decode_withdraw r w).0)).success
            ≡ is_success (withdraw_handler env parse print decode_withdraw r w).0)
        × ((do_txn (sent (transfer_handler env parse print decode_transfer r w).0)).success
            ≡ is_success (transfer_handler env parse print decode_transfer r w).0)
        × ((do_txn (sent (drawdown_handler env parse print decode_drawdown r w).0)).success
            ≡ is_success (drawdown_handler env parse print decode_drawdown r w).0)
        × ((do_txn (sent (issue_grant_handler env now parse print decode_issue r w).0)).success
            ≡ false)
  do_txn-success decode_deposit decode_withdraw decode_transfer decode_drawdown decode_issue = (
    read_success _ (deposit_handler-Has decode_deposit),
    read_success _ (withdraw_handler-Has decode_withdraw),
    read_success _ (transfer_handler-Has decode_transfer),
    read_success _ (drawdown_handler-Has decode_drawdown),
    misread _ (issue_grant_handler-Has decode_issue),
  )
