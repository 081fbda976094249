-- ===== src/Store/Live.antt =====
-- Rules for success: a program of postgre-setup/go/internal/{ledger,grants}/service.go whose
-- statements meet no fault, while no other session is at work.
use playground_ledger.Prelude.{ℕ, ◌≡◌, refl, sym, subst, Bool, false, none}
use playground_ledger.Db.{Db}
use playground_ledger.Store.{
  Env, World, Tx, Query, Result, ok, err, Error, bind_of, on_error_of, on_no_rows_of, optional_of,
  no_rows, fail_if, exec, arrive, settle, begin, commit, finish, rollback,
}

pub data Succeeds {A : Type 0} (Q : A → World → Type 0) : Result A × World → Type 0 where
  succeeds : {a : A} {w : World} → Q a w → Succeeds Q (ok a, w)

-- A statement that answers.
pub data Replies {A : Type 0} (P : A → Db → Type 0) : Result (A × Db) → Type 0 where
  replies : {a : A} {db : Db} → P a db → Replies P (ok (a, db))

module _ {A B : Type 0} {P : A → World → Type 0} {Q : B → World → Type 0} where
  pub bind-Succeeds :
      (f : A → Tx B) {r : Result A × World}
      → Succeeds P r
      → ((a : A) (w : World) → P a w → Succeeds Q (f a w))
      → Succeeds Q (bind_of f r)
  bind-Succeeds f (succeeds {a} {w} p) k = k a w p

module _ {A : Type 0} {Q : A → World → Type 0} where
  pub on_error-Succeeds :
      (e : Error) {r : Result A × World} → Succeeds Q r → Succeeds Q (on_error_of e r)
  on_error-Succeeds e (succeeds q) = succeeds q

  pub on_no_rows-Succeeds :
      (e : Error) {r : Result A × World} → Succeeds Q r → Succeeds Q (on_no_rows_of e r)
  on_no_rows-Succeeds e (succeeds q) = succeeds q

module _ (Q : World → Type 0) where
  pub fail_if-Succeeds :
      (b : Bool) (e : Error) (w : World) → b ≡ false → Q w → Succeeds (λ _ v. Q v) (fail_if b e w)
  unfolding fail_if
  fail_if-Succeeds b e w passes q = rw passes (succeeds q)

module _ (env : Env) (healthy : (n : ℕ) → env.fault n ≡ none)
    (alone : (n : ℕ) (db : Db) → env.others n db ≡ db) where
  settle-Succeeds :
      {A : Type 0} {P : A → Db → Type 0} (w : World) {r : Result (A × Db)}
      → Replies P r
      → Succeeds (λ a v. P a v.working) (settle env w r)
  settle-Succeeds w (replies p) = succeeds p

  pub exec-Succeeds :
      {A : Type 0} {P : A → Db → Type 0} (q : Query A) (w : World)
      → Replies P (q (env.new_uuid w.tick) (env.now w.tick) w.working)
      → Succeeds (λ a v. P a v.working) (exec env q w)
  unfolding exec arrive
  exec-Succeeds q w p = rw (exec, healthy w.tick, alone w.tick w.working) (settle-Succeeds _ p)

  -- A lookup that finds nothing.
  pub optional-Succeeds :
      {A : Type 0} (P : Db → Type 0) (q : Query A) (w : World)
      → q (env.new_uuid w.tick) (env.now w.tick) w.working ≡ err no_rows
      → P w.working
      → Succeeds (λ o v. (o ≡ none) × P v.working) (optional_of (exec env q w))
  unfolding exec arrive
  optional-Succeeds P q w h p =
      rw (exec, healthy w.tick, alone w.tick w.working, h) (succeeds (refl, p))

  pub begin-Succeeds :
      (P : Db → Type 0) (w : World) → P w.committed → Succeeds (λ _ v. P v.working) (begin env w)
  unfolding begin arrive
  begin-Succeeds P w p =
      rw (begin, healthy w.tick) (succeeds (subst P (sym (alone w.tick w.committed)) p))

  pub commit-Succeeds :
      (P : Db → Type 0) (w : World) → P w.working → Succeeds (λ _ v. P v.committed) (commit env w)
  unfolding commit arrive
  commit-Succeeds P w p =
      rw (commit, healthy w.tick) (succeeds (subst P (sym (alone w.tick w.working)) p))

  -- The rollback after a commit.
  pub finish-Succeeds :
      {A : Type 0} (P : A → Db → Type 0) {r : Result A × World}
      → Succeeds (λ a v. P a v.committed) r
      → Succeeds (λ a v. P a v.committed) (finish env r)
  unfolding rollback
  finish-Succeeds P (succeeds p) = succeeds p
