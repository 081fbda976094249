-- ===== src/Grants/Frame.antt =====
-- The statements of postgre-setup/go/internal/grants/service.go, run where grants are within their
-- bounds.
use playground_ledger.Prelude.{ℕ, Bool-cases, inl, inr, ℤ, pos, ◌≤ℤ◌, leb_ℤ, leb_ℤ-false, int_laws}
use playground_ledger.Db.{Db}
use playground_ledger.Store.{Env, World, Query, exec, fail_if, of_grants, GrantsError}
use playground_ledger.Store.Hoare.{Ends, ends_ok, ends_err, Answers, exec-Both}
use playground_ledger.Grants.Bounds.{IsSound}

-- Both views are within bounds.
abbrev pub Both : World → Type 0
Both w = IsSound w.working × IsSound w.committed

module _ (env : Env) (keeps : (n : ℕ) (db : Db) → IsSound db → IsSound (env.others n db)) where
  pub runs :
      {A : Type 0} (P : A → Type 0) (q : Query A)
      → ((n t : ℕ) (db : Db) → IsSound db → Answers (λ a db'. P a × IsSound db') (q n t db))
      → (w : World) → Both w
      → Ends (λ a w'. (P a × IsSound w'.working) × IsSound w'.committed) Both (exec env q w)
  runs P q post w h =
      exec-Both env IsSound IsSound (λ a db. P a × IsSound db) keeps keeps q post w h.0 h.1

  pub writes :
      {A : Type 0} (q : Query A)
      → ((n t : ℕ) (db : Db) → IsSound db → Answers (λ _. IsSound) (q n t db))
      → (w : World) → Both w
      → Ends (λ _. Both) Both (exec env q w)
  writes q post w h = exec-Both env IsSound IsSound (λ _. IsSound) keeps keeps q post w h.0 h.1

  -- Only a positive amount goes on.
  pub guard_amount :
      (amount : ℤ) (w : World)
      → IsSound w.committed
      → Ends {A = Unit {0}}
          (λ _ w'. (pos 0 ≤ℤ amount) × IsSound w'.committed)
          (λ w'. IsSound w'.committed)
          (fail_if (leb_ℤ amount (pos 0)) (of_grants GrantsError.invalid_amount) w)
  unfolding fail_if
  guard_amount amount w h = elim (Bool-cases (leb_ℤ amount (pos 0))) [
    | inl refused ↦ rw refused (ends_err h)
    | inr positive ↦
        rw positive (ends_ok (omega (int_laws, leb_ℤ-false amount (pos 0) positive), h))
  ]
