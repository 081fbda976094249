-- ===== src/Store.antt =====
-- How the services meet PostgreSQL: one connection's view of the database, the statements that it
-- sends, and a transaction with its deferred rollback (pgxpool.Pool.Begin, tx.Commit and
-- tx.Rollback in postgre-setup/go/internal/{ledger,grants,wallet}/service.go).
pub mod Errors
pub mod Hoare
pub mod Live
pub mod Rules
unfoldable pub use Errors.*
use playground_ledger.Prelude.{ℕ, suc, Bool, true, false, Option, none, some, List, if◌then◌else◌}
use playground_ledger.Db.{Db, Account}
use playground_ledger.Stats.{ServiceStats}

-- What the program does not decide, indexed by the number of statements sent so far: the error
-- with which PostgreSQL answers a statement (a lock timeout, a deadlock, a numeric overflow, a
-- lost connection), what other sessions have committed before it, the UUIDs that the server
-- (`new_uuid`) and the program (`client_uuid`) draw, clocks, and the order in which a statement
-- scans the accounts (`plan`), on which the order of rows depends that ORDER BY does not tell apart.
pub record Env : Type 0 where
  pub fault : ℕ → Option PgError
  pub others : ℕ → Db → Db
  pub new_uuid : ℕ → ℕ
  pub client_uuid : ℕ → ℕ
  pub now : ℕ → ℕ
  pub elapsed : ℕ → ℕ → ℕ
  pub plan : ℕ → List Account → List Account

-- `committed` is what every session sees, `working` what this transaction sees.
pub record World : Type 0 where
  pub committed : Db
  pub working : Db
  pub tick : ℕ
  pub stats : ServiceStats

abbrev pub Tx : Type 0 → Type 0
Tx A = World → Result A × World

-- A statement's text: from the row identifier and the time that it may use, and the tables.
abbrev pub Query : Type 0 → Type 0
Query A = ℕ → ℕ → Db → Result (A × Db)

infixl 5 ◌>>=◌ ◌>>◌
abbrev pub bind_of : {A B : Type 0} → (A → Tx B) → Result A × World → Result B × World
bind_of f (ok a, w) = f a w
bind_of f (err e, w) = (err e, w)

abbrev pub ◌>>=◌ : {A B : Type 0} → Tx A → (A → Tx B) → Tx B
◌>>=◌ m f w = bind_of f (m w)

abbrev pub ◌>>◌ : {A B : Type 0} → Tx A → Tx B → Tx B
◌>>◌ m k w = bind_of (λ _. k) (m w)

abbrev pub pure : {A : Type 0} → A → Tx A
pure a w = (ok a, w)

abbrev pub fail : {A : Type 0} → Error → Tx A
fail e w = (err e, w)

-- `if test { return nil, e }`
unfoldable pub fail_if : Bool → Error → Tx (Unit {0})
fail_if b e w = (if b then err e else ok tt, w)

-- `if err != nil { return nil, e }`
abbrev pub on_error_of : {A : Type 0} → Error → Result A × World → Result A × World
on_error_of e (ok a, w) = (ok a, w)
on_error_of e (err _, w) = (err e, w)

abbrev pub on_error : {A : Type 0} → Error → Tx A → Tx A
on_error e m w = on_error_of e (m w)

-- `if err == pgx.ErrNoRows { return nil, e }; return nil, err`
abbrev pub on_no_rows_of : {A : Type 0} → Error → Result A × World → Result A × World
on_no_rows_of e (err no_rows, w) = (err e, w)
on_no_rows_of e (r, w) = (r, w)

abbrev pub on_no_rows : {A : Type 0} → Error → Tx A → Tx A
on_no_rows e m w = on_no_rows_of e (m w)

-- `if err == nil { … }; if err != pgx.ErrNoRows { return nil, err }; …`
abbrev pub optional_of : {A : Type 0} → Result A × World → Result (Option A) × World
optional_of (ok a, w) = (ok (some a), w)
optional_of (err no_rows, w) = (ok none, w)
optional_of (err e, w) = (err e, w)

abbrev pub optional : {A : Type 0} → Tx A → Tx (Option A)
optional m w = optional_of (m w)

abbrev pub mark : Tx ℕ
mark w = (ok w.tick, w)

abbrev pub update_stats : (ServiceStats → ServiceStats) → Tx (Unit {0})
update_stats f w = (ok tt, record w { stats = f w.stats })

module _ (env : Env) where
  -- The next statement reaches the server: other sessions have gone on.
  unfoldable pub arrive : World → World
  arrive w = record w {
    committed = env.others w.tick w.committed;
    working = env.others w.tick w.working;
    tick = suc w.tick;
  }

  abbrev pub settle : {A : Type 0} → World → Result (A × Db) → Result A × World
  settle w (ok (a, db)) = (ok a, record w { working = db })
  settle w (err e) = (err e, w)

  -- A statement inside a transaction: it fails and changes nothing, or takes effect in the
  -- transaction's view.
  unfoldable pub exec : {A : Type 0} → Query A → Tx A
  exec q w = elim (env.fault w.tick) [
    | some e ↦ (err (pg e), arrive w)
    | none ↦ settle (arrive w) (q (env.new_uuid w.tick) (env.now w.tick) (arrive w).working)
  ]

  -- `pool.Begin`
  unfoldable pub begin : Tx (Unit {0})
  begin w = elim (env.fault w.tick) [
    | some e ↦ (err (pg e), arrive w)
    | none ↦ (ok tt, record (arrive w) { working = (arrive w).committed })
  ]

  -- `tx.Commit`
  unfoldable pub commit : Tx (Unit {0})
  commit w = elim (env.fault w.tick) [
    | some e ↦ (err (pg e), arrive w)
    | none ↦ (ok tt, record (arrive w) { committed = (arrive w).working })
  ]

  -- `tx.Rollback`, which does nothing after a commit.
  unfoldable pub rollback : World → World
  rollback w = record w { working = w.committed }

  abbrev pub finish : {A : Type 0} → Result A × World → Result A × World
  finish (r, w) = (r, rollback w)

  -- `tx, err := pool.Begin(ctx); if err != nil { return nil, err }; defer tx.Rollback(ctx); …`
  unfoldable pub with_tx : {A : Type 0} → Tx A → Tx A
  unfolding begin
  with_tx body = begin >>= λ _ w. finish (body w)

  abbrev pub publish : {A : Type 0} → Result A × World → Result A × World
  publish (r, w) = (r, record w { committed = w.working })

  -- A statement sent to the pool outside any transaction: it is a transaction of its own.
  unfoldable pub auto : {A : Type 0} → Query A → Tx A
  unfolding exec
  auto q w = publish (exec q (record w { working = w.committed }))

  -- `ms(t)`
  abbrev pub ms : ℕ → Tx ℕ
  ms t w = (ok (env.elapsed t w.tick), w)

  -- `uuid.New()`
  abbrev pub draw_uuid : Tx ℕ
  draw_uuid w = (ok (env.client_uuid w.tick), w)
