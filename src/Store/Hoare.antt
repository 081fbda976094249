-- ===== src/Store/Hoare.antt =====
-- Rules for what a program of the store ends in: a postcondition of its value and its world, or
-- one of the world that an error leaves.
use playground_ledger.Prelude.{ℕ, suc, ◌∙◌, ◌≡◌, refl, none, some}
use playground_ledger.Db.{Db}
use playground_ledger.Store.{
  Env, World, Tx, Query, Result, ok, err, Error, no_rows, pg, bind_of, on_error_of, on_no_rows_of,
  optional_of, arrive, settle, exec,
}

pub data Ends {A : Type 0} (Q : A → World → Type 0) (E : World → Type 0)
    : Result A × World → Type 0 where
  ends_ok : {a : A} {w : World} → Q a w → Ends Q E (ok a, w)
  ends_err : {e : Error} {w : World} → E w → Ends Q E (err e, w)

module _ {A B : Type 0} {P : A → World → Type 0} {Q : B → World → Type 0} {E : World → Type 0} where
  pub bind-Ends :
      (f : A → Tx B) {r : Result A × World}
      → Ends P E r
      → ((a : A) (w : World) → P a w → Ends Q E (f a w))
      → Ends Q E (bind_of f r)
  bind-Ends f (ends_ok {a} {w} p) k = k a w p
  bind-Ends f (ends_err e) k = ends_err e

module _ {A : Type 0} {Q : A → World → Type 0} {E : World → Type 0} where
  -- The error and its renaming leave one world.
  pub on_error-Ends : (e : Error) {r : Result A × World} → Ends Q E r → Ends Q E (on_error_of e r)
  on_error-Ends e (ends_ok q) = ends_ok q
  on_error-Ends e (ends_err h) = ends_err h

  pub on_no_rows-Ends :
      (e : Error) {r : Result A × World} → Ends Q E r → Ends Q E (on_no_rows_of e r)
  on_no_rows-Ends e (ends_ok q) = ends_ok q
  on_no_rows-Ends e (ends_err {e = Error.of_ledger x} h) = ends_err h
  on_no_rows-Ends e (ends_err {e = Error.of_grants x} h) = ends_err h
  on_no_rows-Ends e (ends_err {e = no_rows} h) = ends_err h
  on_no_rows-Ends e (ends_err {e = pg x} h) = ends_err h

  pub weaken-Ends :
      {E' : World → Type 0} {r : Result A × World}
      → ((w : World) → E w → E' w)
      → Ends Q E r
      → Ends Q E' r
  weaken-Ends h (ends_ok q) = ends_ok q
  weaken-Ends h (ends_err {w} e) = ends_err (h w e)

-- Any program ends.
pub any-Ends : {A : Type 0} (r : Result A × World) → Ends (λ _ _. Unit {0}) (λ _. Unit {0}) r
any-Ends (ok a, w) = ends_ok tt
any-Ends (err e, w) = ends_err tt

-- What an answer meets is met where a program ends with one.
abbrev pub OnSuccess : {A : Type 0} → (A → World → Type 0) → Result A × World → Type 0
OnSuccess P (ok a, w) = P a w
OnSuccess P (err e, w) = Unit {0}

pub on_success :
    {A : Type 0} (P : A → World → Type 0) {E : World → Type 0} (r : Result A × World)
    → Ends P E r
    → OnSuccess P r
on_success P r (ends_ok h) = h
on_success P r (ends_err h) = tt

-- A read that finds nothing leaves the world as a read does.
pub optional-Ends :
    {A : Type 0} {S : World → Type 0} {r : Result A × World}
    → Ends (λ _. S) S r
    → Ends (λ _. S) S (optional_of r)
optional-Ends (ends_ok q) = ends_ok q
optional-Ends (ends_err {e = Error.of_ledger x} h) = ends_err h
optional-Ends (ends_err {e = Error.of_grants x} h) = ends_err h
optional-Ends (ends_err {e = no_rows} h) = ends_ok h
optional-Ends (ends_err {e = pg x} h) = ends_err h

-- What a statement does to the tables: with an answer `post` holds of it, with an error nothing
-- is claimed, since nothing was written.
abbrev pub Answers : {A : Type 0} → (A → Db → Type 0) → Result (A × Db) → Type 0
Answers post (ok (a, db)) = post a db
Answers post (err e) = Unit

pub value-Answers :
    {A V : Type 0} (m : Db → V) (d d' : V) (r : Result (A × Db))
    → d ≡ d'
    → Answers (λ _ db. m db ≡ d) r
    → Answers (λ _ db. m db ≡ d') r
value-Answers m d d' (ok (a, db)) e h = h ∙ e
value-Answers m d d' (err x) e h = tt

module _ (env : Env) where
  -- Both views satisfy a property each, which other sessions keep.
  module _ {A : Type 0} (W C : Db → Type 0) (W' : A → Db → Type 0)
      (keeps_W : (n : ℕ) (db : Db) → W db → W (env.others n db))
      (keeps_C : (n : ℕ) (db : Db) → C db → C (env.others n db)) where
    settle-Both :
        (w : World) (r : Result (A × Db))
        → W w.working
        → C w.committed
        → Answers W' r
        → Ends
            (λ a w'. W' a w'.working × C w'.committed)
            (λ w'. W w'.working × C w'.committed)
            (settle env w r)
    settle-Both w (ok (a, db)) h c post = ends_ok (post, c)
    settle-Both w (err e) h c post = ends_err (h, c)

    pub exec-Both :
        (q : Query A)
        → ((n t : ℕ) (db : Db) → W db → Answers W' (q n t db))
        → (w : World) → W w.working
        → C w.committed
        → Ends
            (λ a w'. W' a w'.working × C w'.committed)
            (λ w'. W w'.working × C w'.committed)
            (exec env q w)
    unfolding exec arrive
    exec-Both q post w hw hc =
        elim (env.fault w.tick)
          as (λ f.
            Ends (λ a w'. W' a w'.working × C w'.committed) (λ w'. W w'.working × C w'.committed)
              (elim f [
                | some e ↦ (err (pg e), arrive env w)
                | none ↦
                    settle env (arrive env w)
                      (q (env.new_uuid w.tick) (env.now w.tick) (arrive env w).working)
              ])) [
                | some e ↦ ends_err (keeps_W w.tick w.working hw, keeps_C w.tick w.committed hc)
                | none ↦
                    settle-Both (arrive env w) _ (keeps_W w.tick w.working hw)
                      (keeps_C w.tick w.committed hc) (post _ _ _ (keeps_W w.tick w.working hw))
              ]

    pub exec-Ends :
        (q : Query A)
        → ((n t : ℕ) (db : Db) → W db → Answers W' (q n t db))
        → (w : World) → W w.working
        → C w.committed
        → Ends (λ a w'. W' a w'.working × C w'.committed) (λ w'. C w'.committed) (exec env q w)
    exec-Ends q post w hw hc = weaken-Ends (λ w' h. h.1) (exec-Both q post w hw hc)

  -- A statement at the time at which it is sent.
  module _ {A : Type 0} (W' : A → Db → Type 0) where
    abbrev pub Next : World → A → World → Type 0
    Next w a w' = W' a w'.working × (w'.tick ≡ suc w.tick)

    settle-Next :
        (w : World) (r : Result (A × Db))
        → Answers W' r
        → Ends (Next w) (λ _. Unit {0}) (settle env (arrive env w) r)
    unfolding arrive
    settle-Next w (ok (a, db)) post = ends_ok (post, refl)
    settle-Next w (err e) post = ends_err tt

    pub exec-Next :
        (q : Query A) (w : World)
        → Answers W' (q (env.new_uuid w.tick) (env.now w.tick) (env.others w.tick w.working))
        → Ends (Next w) (λ _. Unit {0}) (exec env q w)
    unfolding exec arrive
    exec-Next q w post =
        elim (env.fault w.tick)
          as (λ f.
            Ends (Next w) (λ _. Unit {0})
              (elim f [
                | some e ↦ (err (pg e), arrive env w)
                | none ↦
                    settle env (arrive env w)
                      (q (env.new_uuid w.tick) (env.now w.tick) (arrive env w).working)
              ])) [ some e ↦ ends_err tt | none ↦ settle-Next w _ post ]
