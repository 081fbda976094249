-- ===== src/Handlers/Refusals.antt =====
-- postgre-setup/go/internal/api/handlers/wallet.go: transfers that the service refuses at once.
use playground_ledger.Prelude.{
  ℕ, ◌≡◌, ap, inl, inr, Bool-cases, ◌<◌, ◌^◌, ◌-◌, Option, some, ℤ, pos, leb_ℤ, ◌==◌, ◌||◌, true,
  false, arith, if◌then◌else◌,
}
use playground_ledger.Stats.{add64}
use playground_ledger.Store.{Env, World, fail_if}
use playground_ledger.Middleware.{Bytes}
use playground_ledger.Ledger.{transfer, in_flight, add_in_flight}
use playground_ledger.Wallet.{wallet_transfer}
use playground_ledger.Handlers.{failure, Request, Printers, Parsers}
use playground_ledger.Handlers.Wallet.{TransferBody, transfer_handler}

-- The counter of requests in flight is as before once a request is done.
left_entered :
    (w : World)
    → w.stats.in_flight < 2 ^ 64
    → record w { stats = add_in_flight (2 ^ 64 - 1) (add_in_flight 1 w.stats) } ≡ w
left_entered w h =
    ap (λ n. record w { stats = record w.stats { in_flight = n } }) (back w.stats.in_flight h)
  where
    back : (n : ℕ) → n < 2 ^ 64 → add64 (add64 n 1) (2 ^ 64 - 1) ≡ n
    back n h = omega arith

module _ (env : Env) (parse : Parsers) (print : Printers) (r : Request) (w : World) where
  -- A transfer whose amount is not positive is answered 500, as a failure of the server, and one
  -- with a positive amount between an account and itself is answered 400; both leave the tables,
  -- the statistics and the counter of statements as they were, if the counter of requests in
  -- flight is a number of 64 bits.
  pub transfer_handler-refuses :
      (decode : Bytes → Option TransferBody) (body : TransferBody) (source destination : ℕ)
      (amount : ℤ) (key : ℕ)
      → w.stats.in_flight < 2 ^ 64
      → parse.parse_uuid r.account_id ≡ some source
      → decode r.body ≡ some body
      → parse.parse_uuid body.to_account_id ≡ some destination
      → parse.parse_decimal body.amount ≡ some amount
      → r.idempotency_key ≡ some key
      → (leb_ℤ amount (pos 0) || (source == destination)) ≡ true
      → transfer_handler env parse print decode r w ≡ (
        if leb_ℤ amount (pos 0)
            then failure 500 "failed to process transfer"
            else failure 400 "cannot transfer to same account",
        w,
      )
  unfolding transfer_handler wallet_transfer transfer in_flight fail_if
  transfer_handler-refuses decode body source destination amount key h h1 h2 h3 h4 h5 refused =
      elim (Bool-cases (leb_ℤ amount (pos 0))) [
        | inl e ↦
            rw (h1, h2, h3, h4, h5, e)
              (ap (λ v. (failure 500 "failed to process transfer", v)) (left_entered w h))
        | inr e ↦ elim (Bool-cases (source == destination)) [
          | inl same ↦
              rw (h1, h2, h3, h4, h5, e, same)
                (ap (λ v. (failure 400 "cannot transfer to same account", v)) (left_entered w h))
          | inr differ ↦ absurd (accepted e differ)
        ]
      ]
    where
      accepted : leb_ℤ amount (pos 0) ≡ false → (source == destination) ≡ false → ⊥
      accepted e differ = ground arith
