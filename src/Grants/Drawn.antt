-- ===== src/Grants/Drawn.antt =====
-- Drawdown of postgre-setup/go/internal/grants/service.go: what it reports of a grant is what the
-- grant has lost.
use playground_ledger.Prelude.{
  ℕ, ◌≡◌, refl, ap, ◌∙◌, Bool-cases, inl, inr, not, Option, none, some, List, [], ◌∷◌, ℤ, pos, ◌+ℤ◌,
  ◌-ℤ◌, leb_ℤ, int_laws,
}
use playground_ledger.Prelude.Table.{find}
use playground_ledger.Db.{Db, CreditGrant}
use playground_ledger.Store.{Env, World, Tx, Query, Result, ok, err, exec}
use playground_ledger.Store.Hoare.{
  Ends, ends_ok, bind-Ends, weaken-Ends, Answers, exec-Ends, OnSuccess, on_success,
}
use playground_ledger.Store.Rules.{commit-Commits, with_tx-Commits, fail_if-Stays, fail_if-Ends}
use playground_ledger.Queries.Rows.{grant_with_id, one_row}
use playground_ledger.Queries.Grants.{
  create_grant_ledger_entry, deplete_grant, drawdown_grant, get_active_grants_by_account,
  get_grant_for_update, is_active,
}
use playground_ledger.Ledger.Drift.{at}
use playground_ledger.Grants.{
  DrawdownResult, is_zero, take_from, draw_locked, draw_all, drawdown_tx, draw_down,
}
use playground_ledger.Grants.Held.{
  held, found_grant_id, found_grant, Draws, Draws-held, deplete_grant-Draws, drawdown_grant-Draws,
  create_grant_ledger_entry-Same,
}

-- What the results report of grant k.
unfoldable pub drawn_of : ℕ → List DrawdownResult → ℤ
drawn_of k [] = pos 0
drawn_of k (r ∷ rs) = at k r.grant_id r.consumed +ℤ drawn_of k rs

module _ (env : Env) (same : (n : ℕ) (db : Db) → (env.others n db).grants ≡ db.grants) (k : ℕ) where
  abbrev Holds : ℤ → Db → Type 0
  Holds h db = held k db.grants ≡ h

  abbrev Nothing : Db → Type 0
  Nothing db = Unit {0}

  abbrev Mid : ℤ → World → Type 0
  Mid h w = Holds h w.working × Nothing w.committed

  abbrev Anything : World → Type 0
  Anything w = Nothing w.committed

  keeps : (h : ℤ) (n : ℕ) (db : Db) → Holds h db → Holds h (env.others n db)
  keeps h n db e = ap (held k) (same n db) ∙ e

  stays :
      {A : Type 0} (q : Query A) (h : ℤ)
      → ((n t : ℕ) (db : Db) → Answers (λ _ db'. db'.grants ≡ db.grants) (q n t db))
      → (w : World) → Mid h w
      → Ends (λ _. Mid h) Anything (exec env q w)
  stays q h post w m =
      exec-Ends env (Holds h) Nothing (λ _. Holds h) (keeps h) (λ _ _ x. x) q
        (λ n t db e. carried _ db e (post n t db)) w m.0 m.1
    where
      carried :
          {A : Type 0} (r : Result (A × Db)) (db : Db)
          → Holds h db
          → Answers (λ _ db'. db'.grants ≡ db.grants) r
          → Answers {A = A} (λ _. Holds h) r
      carried (ok (a, db')) db e s = ap (held k) s ∙ e
      carried (err x) db e s = tt

  -- The row that is locked is there.
  abbrev Row : ℕ → CreditGrant → Db → Type 0
  Row id g db = find (grant_with_id id) db.grants ≡ some g

  abbrev Locked : ℤ → ℕ → CreditGrant → World → Type 0
  Locked h id g w = (Holds h w.working × Row id g w.working) × Nothing w.committed

  locks :
      (h : ℤ) (id : ℕ) (w : World)
      → Mid h w
      → Ends (Locked h id) Anything (exec env (get_grant_for_update id) w)
  unfolding get_grant_for_update
  locks h id w m =
      exec-Ends env (Holds h) Nothing (λ g db. Holds h db × Row id g db) (keeps h) (λ _ _ x. x)
        (get_grant_for_update id) (λ n t db e. row (find (grant_with_id id) db.grants) db e refl) w
        m.0 m.1
    where
      row :
          (o : Option CreditGrant) (db : Db)
          → Holds h db
          → find (grant_with_id id) db.grants ≡ o
          → Answers (λ g db'. Holds h db' × Row id g db') (one_row o db)
      row none db e r = tt
      row (some g) db e r = (e, r)

  draws :
      {A : Type 0} (q : Query A) (h consumed : ℤ) (id : ℕ) (g : CreditGrant)
      → ((n t : ℕ) (db : Db) → Row id g db → Answers (λ _ db'. Draws g consumed db db') (q n t db))
      → (w : World) → Locked h id g w
      → Ends (λ _. Mid (h -ℤ at k id consumed)) Anything (exec env q w)
  draws q h consumed id g post w m =
      exec-Ends env (λ db. Holds h db × Row id g db) Nothing (λ _. Holds (h -ℤ at k id consumed))
        (λ n db e. (keeps h n db e.0, ap (find (grant_with_id id)) (same n db) ∙ e.1)) (λ _ _ x. x)
        q (λ n t db e. drawn _ db e (post n t db e.1)) w m.0 m.1
    where
      drawn :
          {A : Type 0} (r : Result (A × Db)) (db : Db)
          → Holds h db × Row id g db
          → Answers (λ _ db'. Draws g consumed db db') r
          → Answers {A = A} (λ _. Holds (h -ℤ at k id consumed)) r
      drawn (ok (a, db')) db e d =
          Draws-held k g consumed db db' (found_grant id g db.grants e.1) d
          ∙ ap (λ x. x -ℤ at k g.id consumed) e.0
          ∙ ap (λ i. h -ℤ at k i consumed) (found_grant_id id g db.grants e.1)
      drawn (err x) db e d = tt

  take_from-Drawn :
      (h : ℤ) (id : ℕ) (g : CreditGrant) (remaining : ℤ) (w : World)
      → Locked h id g w
      → Ends (λ v. Mid (h -ℤ at k id v)) Anything (take_from env id g remaining w)
  unfolding take_from
  take_from-Drawn h id g remaining w m = elim (Bool-cases (leb_ℤ g.remaining_amount remaining)) [
    | inl whole ↦ rw whole (
        bind-Ends _
          (draws (deplete_grant id) h g.remaining_amount id g (deplete_grant-Draws id g) w m)
          λ _ w1 m1. ends_ok m1)
    | inr part ↦ rw part (
        bind-Ends _
          (draws (drawdown_grant id remaining) h remaining id g
            (drawdown_grant-Draws id remaining g) w m)
          λ _ w1 m1. ends_ok m1)
  ]

  abbrev Reports : ℤ → List DrawdownResult → World → Type 0
  Reports h rs w = Mid (h -ℤ drawn_of k rs) w

  regroup : (h x y : ℤ) → h -ℤ x -ℤ y ≡ h -ℤ (x +ℤ y)
  regroup h x y = omega int_laws

  draw_locked-Drawn :
      (h : ℤ) (id : ℕ) (g : CreditGrant) (remaining : ℤ) (rest : ℤ → Tx (List DrawdownResult))
      → ((h r : ℤ) (w : World) → Mid h w → Ends (Reports h) Anything (rest r w))
      → (w : World) → Locked h id g w
      → Ends (Reports h) Anything (draw_locked env id g remaining rest w)
  unfolding draw_locked drawn_of
  draw_locked-Drawn h id g remaining rest ih w m = elim (Bool-cases (not (is_active g.status))) [
    | inl gone ↦ rw gone (ih h remaining w (m.0.0, m.1))
    | inr live ↦ rw live (
        bind-Ends _ (take_from-Drawn h id g remaining w m) λ v w1 m1.
          bind-Ends _
            (stays (create_grant_ledger_entry _) (h -ℤ at k id v)
              (λ n t db. first _ db (create_grant_ledger_entry-Same _ n t db)) w1 m1)
            λ _ w2 m2.
              bind-Ends _ (ih (h -ℤ at k id v) (remaining -ℤ v) w2 m2)
                λ rs w3 m3. ends_ok (m3.0 ∙ regroup h (at k id v) (drawn_of k rs), m3.1))
  ]
    where
      first :
          {A : Type 0} (r : Result (A × Db)) (db : Db)
          → Answers (λ _ db'. (db'.grants ≡ db.grants) × (db'.accounts ≡ db.accounts)) r
          → Answers {A = A} (λ _ db'. db'.grants ≡ db.grants) r
      first (ok (a, db')) db e = e.0
      first (err x) db e = tt

  nothing_yet : (h : ℤ) → h ≡ h -ℤ pos 0
  nothing_yet h = omega int_laws

  draw_all-Drawn :
      (gs : List CreditGrant) (h remaining : ℤ) (w : World)
      → Mid h w
      → Ends (Reports h) Anything (draw_all env gs remaining w)
  unfolding draw_all drawn_of
  draw_all-Drawn [] h remaining w m = ends_ok (m.0 ∙ nothing_yet h, m.1)
  draw_all-Drawn (g ∷ gs) h remaining w m = elim (Bool-cases (is_zero remaining)) [
    | inl done ↦ rw done (ends_ok (m.0 ∙ nothing_yet h, m.1))
    | inr more ↦ rw more (
        bind-Ends _ (locks h g.id w m) λ locked w1 m1.
          draw_locked-Drawn h g.id locked remaining (draw_all env gs)
            (λ h' r w' m'. draw_all-Drawn gs h' r w' m') w1 m1)
  ]

  pub draw_down-Drawn :
      (account_id : ℕ) (amount : ℤ) (key : ℕ) (w : World)
      → OnSuccess
          (λ rs w'. held k w'.committed.grants ≡ held k w.committed.grants -ℤ drawn_of k rs)
          (draw_down env account_id amount key w)
  unfolding draw_down drawdown_tx get_active_grants_by_account
  draw_down-Drawn account_id amount key w =
      let h = held k w.committed.grants in
      on_success (λ rs w'. Holds (h -ℤ drawn_of k rs) w'.committed) _
        (bind-Ends _ (fail_if-Stays _ _ w) λ _ w1 p.
          with_tx-Commits env (Holds h) (λ rs. Holds (h -ℤ drawn_of k rs)) Nothing (keeps h)
            (drawdown_tx env account_id amount) (λ _ _. tt)
            (λ w' a b.
              bind-Ends _
                (stays (get_active_grants_by_account account_id) h (λ n t db. refl) w' (a, tt))
                λ active w2 m2.
                  bind-Ends _ (weaken-Ends (λ _ _. tt) (fail_if-Ends {P = Mid h} _ _ w2 m2))
                    λ _ w3 m3. bind-Ends _ (draw_all-Drawn active h amount w3 m3) λ rs w4 m4.
                      bind-Ends _
                        (commit-Commits env (Holds (h -ℤ drawn_of k rs)) Nothing
                          (keeps (h -ℤ drawn_of k rs)) (λ _ _ x. x) w4 m4)
                        λ _ w5 m5. ends_ok m5)
            w1 (ap (λ (x : World). held k x.committed.grants) p.1))
