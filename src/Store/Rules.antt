-- ===== src/Store/Rules.antt =====
-- Rules for transactions and for statements outside them, by what they leave committed.
use playground_ledger.Prelude.{ℕ, suc, ◌≡◌, refl, sym, subst, Bool, true, false, none, some}
use playground_ledger.Db.{Db}
use playground_ledger.Store.{
  Env, World, Tx, Query, Result, ok, err, pg, arrive, settle, exec, begin, commit, rollback, finish,
  with_tx, publish, auto, bind_of, fail_if, Error,
}
use playground_ledger.Store.Hoare.{Ends, ends_ok, ends_err, bind-Ends, Answers, exec-Both}

-- With a value, Q holds of what is committed; with an error, E does.
abbrev pub Commits : {A : Type 0} → (A → Db → Type 0) → (Db → Type 0) → Result A × World → Type 0
Commits Q E = Ends (λ a w. Q a w.committed) (λ w. E w.committed)

-- A query that reads: the tables are as before.
abbrev pub Reads : {A : Type 0} → Db → Result (A × Db) → Type 0
Reads db (ok (a, db')) = db' ≡ db
Reads db (err e) = Unit

pub Reads-Answers :
    {A : Type 0} (W : Db → Type 0) (r : Result (A × Db)) (db : Db)
    → W db
    → Reads db r
    → Answers {A = A} (λ _. W) r
Reads-Answers W (ok (a, db')) db h same = subst W (sym same) h
Reads-Answers W (err e) db h same = tt

module _ (env : Env) (W C : Db → Type 0) (keeps_W : (n : ℕ) (db : Db) → W db → W (env.others n db))
    (keeps_C : (n : ℕ) (db : Db) → C db → C (env.others n db)) where
  abbrev pub Both : World → Type 0
  Both w = W w.working × C w.committed

  -- A read keeps both properties, also when it fails.
  pub exec-Reads :
      {A : Type 0} (q : Query A)
      → ((n t : ℕ) (db : Db) → Reads db (q n t db))
      → (w : World) → Both w
      → Ends (λ _. Both) Both (exec env q w)
  exec-Reads {A} q reads w h =
      exec-Both env W C (λ _. W) keeps_W keeps_C q
        (λ n t db hw. Reads-Answers W _ db hw (reads n t db)) w h.0 h.1

  -- A commit makes the transaction's view the committed one, or fails and leaves that alone.
  pub commit-Commits : (w : World) → Both w → Commits (λ _. W) C (commit env w)
  unfolding commit arrive
  commit-Commits w h =
      elim (env.fault w.tick)
        as (λ f.
          Commits {A = Unit {0}} (λ _. W) C
            (elim f [
              | some e ↦ (err (pg e), arrive env w)
              | none ↦ (ok tt, record (arrive env w) { committed = (arrive env w).working })
            ])) [
              | some e ↦ ends_err (keeps_C w.tick w.committed h.1)
              | none ↦ ends_ok (keeps_W w.tick w.working h.0)
            ]

module _ (env : Env) {A : Type 0} (C : Db → Type 0) (Q : A → Db → Type 0) (E : Db → Type 0)
    (keeps_C : (n : ℕ) (db : Db) → C db → C (env.others n db)) where
  finish-Commits : (r : Result A × World) → Commits Q E r → Commits Q E (finish env r)
  unfolding rollback
  finish-Commits r (ends_ok q) = ends_ok q
  finish-Commits r (ends_err e) = ends_err e

  -- A transaction starts from what is committed; what its body leaves committed, it leaves.
  pub with_tx-Commits :
      (body : Tx A)
      → ((db : Db) → C db → E db)
      → ((w : World) → C w.working → C w.committed → Commits Q E (body w))
      → (w : World) → C w.committed
      → Commits Q E (with_tx env body w)
  unfolding with_tx begin arrive
  with_tx-Commits body weaken h w c =
      bind-Ends {P = λ _ w'. C w'.working × C w'.committed} (λ _ w'. finish env (body w')) begun
        (λ _ w' p. finish-Commits _ (h w' p.0 p.1))
    where
      begun :
          Ends {A = Unit {0}}
            (λ _ w'. C w'.working × C w'.committed)
            (λ w'. E w'.committed)
            (begin env w)
      begun =
          elim (env.fault w.tick)
            as (λ f.
              Ends {A = Unit {0}} (λ _ w'. C w'.working × C w'.committed) (λ w'. E w'.committed)
                (elim f [
                  | some e ↦ (err (pg e), arrive env w)
                  | none ↦ (ok tt, record (arrive env w) { working = (arrive env w).committed })
                ])) [
                  | some e ↦ ends_err (weaken _ (keeps_C w.tick w.committed c))
                  | none ↦ ends_ok (keeps_C w.tick w.committed c, keeps_C w.tick w.committed c)
                ]

  publish-Commits :
      (r : Result A × World)
      → ((db : Db) → C db → E db)
      → Ends (λ a w. Q a w.working × C w.committed) (λ w. C w.working × C w.committed) r
      → Commits Q E (publish env r)
  publish-Commits r weaken (ends_ok q) = ends_ok q.0
  publish-Commits r weaken (ends_err {w} e) = ends_err (weaken w.working e.0)

  -- A statement on its own is a transaction of its own.
  pub auto-Commits :
      (q : Query A)
      → ((db : Db) → C db → E db)
      → ((n t : ℕ) (db : Db) → C db → Answers Q (q n t db))
      → (w : World) → C w.committed
      → Commits Q E (auto env q w)
  unfolding auto
  auto-Commits q weaken post w c =
      publish-Commits _ weaken
        (exec-Both env C C Q keeps_C keeps_C q post (record w { working = w.committed }) c c)

-- A transaction starts with the next statement, from what is committed then.
module _ (env : Env) {A : Type 0} (Q : A → Db → Type 0) where
  finish-Next :
      (r : Result A × World)
      → Ends (λ a w'. Q a w'.committed) (λ _. Unit {0}) r
      → Ends (λ a w'. Q a w'.committed) (λ _. Unit {0}) (finish env r)
  unfolding rollback
  finish-Next r (ends_ok q) = ends_ok q
  finish-Next r (ends_err e) = ends_err e

  pub with_tx-Next :
      (body : Tx A) (w : World)
      → ((w' : World)
          → w'.tick ≡ suc w.tick
          → w'.working ≡ env.others w.tick w.committed
          → Ends (λ a w'. Q a w'.committed) (λ _. Unit {0}) (body w'))
      → Ends (λ a w'. Q a w'.committed) (λ _. Unit {0}) (with_tx env body w)
  unfolding with_tx begin arrive
  with_tx-Next body w h =
      elim (env.fault w.tick)
        as (λ f.
          Ends (λ a w'. Q a w'.committed) (λ _. Unit {0})
            (bind_of {A = Unit {0}} (λ _ w'. finish env (body w'))
              (elim f [
                | some e ↦ (err (pg e), arrive env w)
                | none ↦ (ok tt, record (arrive env w) { working = (arrive env w).committed })
              ]))) [ some e ↦ ends_err tt | none ↦ finish-Next _ (h _ refl refl) ]

-- What holds of the committed tables however the program ends.
pub committed_of :
    {A : Type 0} (P : Db → Type 0) (r : Result A × World) → Commits (λ _. P) P r → P r.1.committed
committed_of P r (ends_ok q) = q
committed_of P r (ends_err e) = e

-- A test that stops the program or leaves the world alone.
pub fail_if-Ends :
    {P : World → Type 0} (b : Bool) (e : Error) (w : World)
    → P w
    → Ends {A = Unit {0}} (λ _. P) P (fail_if b e w)
unfolding fail_if
fail_if-Ends true e w h = ends_err h
fail_if-Ends false e w h = ends_ok h

-- A test that is passed was false, and the world is as before.
pub fail_if-Stays :
    (b : Bool) (e : Error) (w : World)
    → Ends {A = Unit {0}} (λ _ w'. (b ≡ false) × (w' ≡ w)) (λ _. Unit {0}) (fail_if b e w)
unfolding fail_if
fail_if-Stays true e w = ends_err tt
fail_if-Stays false e w = ends_ok (refl, refl)

pub fail_if-passes :
    (b : Bool) (e : Error) (w : World)
    → Ends {A = Unit {0}} (λ _ _. b ≡ false) (λ _. Unit {0}) (fail_if b e w)
unfolding fail_if
fail_if-passes true e w = ends_err tt
fail_if-passes false e w = ends_ok refl

-- A statement that meets no fault.
pub exec-settle :
    {A : Type 0} (env : Env) (q : Query A) (w : World)
    → env.fault w.tick ≡ none
    → exec env q w
      ≡ settle env (arrive env w) (q (env.new_uuid w.tick) (env.now w.tick) (arrive env w).working)
unfolding exec
exec-settle env q w h = rw (h, exec) refl
