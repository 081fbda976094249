-- ===== src/Handlers/Payments.antt =====
-- postgre-setup/go/internal/api/handlers/wallet.go: what the replies of Deposit, Withdraw and
-- Transfer say of the balances.
use playground_ledger.Prelude.{ℕ, ◌≡◌, ◌⊎◌, refl, Option, none, some, [], String, ℤ, pos, ◌-ℤ◌}
use playground_ledger.Db.{Db}
use playground_ledger.Store.{Env, World, Result, ok, err, Error}
use playground_ledger.Middleware.{Bytes}
use playground_ledger.Ledger.{TransferRequest}
use playground_ledger.Ledger.Balances.{balances, moved, transferred, Moves, operations-balances}
use playground_ledger.Handlers.{
  Reply, failure, success, Handler, Request, or_fail, answer_of, Printers, Parsers,
}
use playground_ledger.Handlers.Wallet.{
  DepositBody, WithdrawBody, TransferBody, deposit_handler, withdraw_handler, transfer_handler,
}
use playground_ledger.Wallet.{money_request, wallet_deposit, wallet_withdraw, wallet_transfer}

-- To split on what is read from the request.
pub or_fail_lem :
    {A B : Type 0} (P : Reply B × World → Type 0) (o : Option A) (s : ℕ) (m : String)
    (k : A → Handler B) (w : World)
    → P (failure s m, w)
    → ((a : A) → o ≡ some a → P (k a w))
    → P (or_fail o s m k w)
or_fail_lem P none s m k w none_read read = none_read
or_fail_lem P (some a) s m k w none_read read = read a refl

-- A success says that Q holds of the balances, a failure that they are as before.
abbrev pub Says : {A : Type 0} → Db → ((ℕ → ℤ) → Type 0) → Reply A × World → Type 0
Says db Q (success s a, w) = Q (balances w.committed)
Says db Q (failure s m, w) = balances w.committed ≡ balances db

answer_of-Says :
    {A B : Type 0} (db : Db) (P Q : (ℕ → ℤ) → Type 0) (s : ℕ) (errors : Error → ℕ × String)
    (f : A → B) (r : Result A × World)
    → ((b : ℕ → ℤ) → P b → Q b)
    → Moves db P r
    → Says db Q (answer_of s errors f r)
answer_of-Says db P Q s errors f (ok a, w) weaken h = weaken _ h
answer_of-Says db P Q s errors f (err e, w) weaken h = h

-- An amount that is read from a request for an account.
abbrev pub Asks : Parsers → Bytes → Bytes → ℕ → ℤ → Type 0
Asks parse account_text amount_text id amount =
    (parse.parse_uuid account_text ≡ some id) × (parse.parse_decimal amount_text ≡ some amount)

-- What a transfer's effect on the balances depends on.
abbrev pub transfer_of : ℕ → ℕ → ℤ → ℕ → TransferRequest
transfer_of source destination amount key = record {
  source_account_id = source;
  destination_account_id = destination;
  amount = amount;
  description = "Transfer";
  idempotency_key = key;
  metadata = [];
}

abbrev dummy : TransferRequest
dummy = transfer_of 0 0 (pos 0) 0

module _ (env : Env) (parse : Parsers) (print : Printers) (r : Request) (w : World)
    (keeps : (n : ℕ) (db : Db) → balances (env.others n db) ≡ balances db) where
  -- The balances when money has moved as the request asks.
  abbrev pub Deposits : (Bytes → Option DepositBody) → (ℕ → ℤ) → Type 0
  Deposits decode b =
      (id : ℕ) × (body : DepositBody) × (amount : ℤ) × (decode r.body ≡ some body)
      × Asks parse r.account_id body.amount id amount
      × (b ≡ moved id amount (balances w.committed))

  abbrev pub Withdraws : (Bytes → Option WithdrawBody) → (ℕ → ℤ) → Type 0
  Withdraws decode b =
      (id : ℕ) × (body : WithdrawBody) × (amount : ℤ) × (decode r.body ≡ some body)
      × Asks parse r.account_id body.amount id amount
      × (b ≡ moved id (pos 0 -ℤ amount) (balances w.committed))

  abbrev pub Transfers : (Bytes → Option TransferBody) → (ℕ → ℤ) → Type 0
  Transfers decode b =
      (source destination : ℕ) × (body : TransferBody) × (amount : ℤ) × (decode r.body ≡ some body)
      × (parse.parse_uuid body.to_account_id ≡ some destination)
      × Asks parse r.account_id body.amount source amount
      × ((b ≡ transferred (transfer_of source destination amount 0) (balances w.committed))
          ⊎ (b ≡ balances w.committed))

  deposit_handler-Says :
      (decode : Bytes → Option DepositBody)
      → Says w.committed (Deposits decode) (deposit_handler env parse print decode r w)
  unfolding deposit_handler wallet_deposit
  deposit_handler-Says decode =
      let S = Says w.committed (Deposits decode) in
      or_fail_lem S (parse.parse_uuid r.account_id) _ _ _ w refl λ id is_id.
        or_fail_lem S (decode r.body) _ _ _ w refl λ body is_body.
          or_fail_lem S (parse.parse_decimal body.amount) _ _ _ w refl λ amount is_amount.
            or_fail_lem S r.idempotency_key _ _ _ w refl λ key is_key.
              answer_of-Says w.committed _ (Deposits decode) _ _ _ _
                (λ b e. (id, body, amount, is_body, (is_id, is_amount), e))
                (operations-balances env w dummy (money_request id amount key "Deposit") keeps).1

  withdraw_handler-Says :
      (decode : Bytes → Option WithdrawBody)
      → Says w.committed (Withdraws decode) (withdraw_handler env parse print decode r w)
  unfolding withdraw_handler wallet_withdraw
  withdraw_handler-Says decode =
      let S = Says w.committed (Withdraws decode) in
      or_fail_lem S (parse.parse_uuid r.account_id) _ _ _ w refl λ id is_id.
        or_fail_lem S (decode r.body) _ _ _ w refl λ body is_body.
          or_fail_lem S (parse.parse_decimal body.amount) _ _ _ w refl λ amount is_amount.
            or_fail_lem S r.idempotency_key _ _ _ w refl λ key is_key.
              answer_of-Says w.committed _ (Withdraws decode) _ _ _ _
                (λ b e. (id, body, amount, is_body, (is_id, is_amount), e))
                (operations-balances env w dummy (money_request id amount key "Withdrawal") keeps).2

  transfer_handler-Says :
      (decode : Bytes → Option TransferBody)
      → Says w.committed (Transfers decode) (transfer_handler env parse print decode r w)
  unfolding transfer_handler wallet_transfer
  transfer_handler-Says decode =
      let S = Says w.committed (Transfers decode) in
      or_fail_lem S (parse.parse_uuid r.account_id) _ _ _ w refl λ id is_id.
        or_fail_lem S (decode r.body) _ _ _ w refl λ body is_body.
          or_fail_lem S (parse.parse_uuid body.to_account_id) _ _ _ w refl λ to is_to.
            or_fail_lem S (parse.parse_decimal body.amount) _ _ _ w refl λ amount is_amount.
              or_fail_lem S r.idempotency_key _ _ _ w refl λ key is_key.
                answer_of-Says w.committed _ (Transfers decode) _ _ _ _
                  (λ b e. (id, to, body, amount, is_body, is_to, (is_id, is_amount), e))
                  (operations-balances env w (transfer_of id to amount key)
                    (money_request 0 (pos 0) 0 "") keeps).0

  -- Let other sessions keep all balances. A deposit, a withdrawal or a transfer that the handler
  -- answers with success has moved the amount that its body asks for, at the accounts that its path
  -- and body name and at no other, except that a transfer may have found all done before; one that
  -- is answered with an error has changed no balance.
  pub handlers-balances :
      (decode_deposit : Bytes → Option DepositBody) (decode_withdraw : Bytes → Option WithdrawBody)
      (decode_transfer : Bytes → Option TransferBody)
      → Says w.committed
          (Deposits decode_deposit)
          (deposit_handler env parse print decode_deposit r w)
        × Says w.committed
            (Withdraws decode_withdraw)
            (withdraw_handler env parse print decode_withdraw r w)
        × Says w.committed
            (Transfers decode_transfer)
            (transfer_handler env parse print decode_transfer r w)
  handlers-balances decode_deposit decode_withdraw decode_transfer = (
    deposit_handler-Says decode_deposit,
    withdraw_handler-Says decode_withdraw,
    transfer_handler-Says decode_transfer,
  )
