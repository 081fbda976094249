-- ===== src/Grants/Paid.antt =====
-- WaterfallDebit of postgre-setup/go/internal/grants/service.go: what it reports of a grant and of
-- cash is what they have lost.
use playground_ledger.Prelude.{
  ℕ, ◌==◌, ◌≡◌, refl, sym, ap, ◌∙◌, subst, Bool-cases, inl, inr, true, false, Bool, some, List, [],
  ◌∷◌, All, keep, String, ℤ, pos, ◌+ℤ◌, ◌-ℤ◌, ◌≤ℤ◌, ltb_ℤ, ltb_ℤ-false, int_laws, arith, ==_iff,
}
use playground_ledger.Prelude.Table.{find, replace}
use playground_ledger.Prelude.Sort.{sort_by, insert_by, All-insert_by, All-sort_by}
use playground_ledger.Db.{Db, Account, CreditGrant}
use playground_ledger.Store.{Env, World, Tx, Query, Result, ok, err, exec}
use playground_ledger.Store.Hoare.{
  Ends, ends_ok, ends_err, bind-Ends, weaken-Ends, Answers, exec-Ends, OnSuccess, on_success,
}
use playground_ledger.Store.Rules.{commit-Commits, fail_if-Ends}
use playground_ledger.Queries.Rows.{account_with_id, grant_with_id}
use playground_ledger.Queries.Laws.{reject_if-Answers, found_id, found_row}
use playground_ledger.Queries.Accounts.{charge_account, with_balance}
use playground_ledger.Queries.Entries.{CreateLedgerEntryParams, create_ledger_entry}
use playground_ledger.Queries.Grants.{create_grant_ledger_entry, deplete_grant, drawdown_grant}
use playground_ledger.Ledger.Drift.{at, balance_in, balance_of-replace, balance_of-found}
use playground_ledger.Grants.{
  GrantDrawdown, WaterfallResult, is_zero, min_ℤ, spend_grant, spend_round, spend_grants, take_cash,
  charge_cash, pay,
}
use playground_ledger.Grants.Spec.{IsFunded, fifo, left_over, left_over_nonneg}
use playground_ledger.Grants.Fifo.{spend_grants-fifo}
use playground_ledger.Grants.Held.{
  held, Draws, Draws-held, Draws-other, deplete_grant-Draws, drawdown_grant-Draws,
  create_grant_ledger_entry-Same,
}

-- What the results report of grant k.
unfoldable pub given : ℕ → List GrantDrawdown → ℤ
given k [] = pos 0
given k (d ∷ ds) = at k d.grant_id d.consumed +ℤ given k ds

-- The balance of account k, 0 if there is none.
abbrev pub cash : ℕ → List Account → ℤ
cash k accounts = balance_in (find (account_with_id k) accounts)

-- What a result says has been paid has been taken, and no more.
pub record IsPaid (db : Db) (account_id : ℕ) (r : WaterfallResult) (db' : Db) : Type 0 where
  pub by_grants : (k : ℕ) → held k db'.grants ≡ held k db.grants -ℤ given k r.grants_consumed
  pub by_cash :
      (k : ℕ) → cash k db'.accounts ≡ cash k db.accounts -ℤ at k account_id r.cash_consumed

-- No two grants have the same identifier.
abbrev pub IsKeyed : List CreditGrant → Type 0
IsKeyed [] = Unit {0}
IsKeyed (g ∷ gs) = All (λ x. (g.id == x.id) ≡ false) gs × IsKeyed gs

swap : (m n : ℕ) → (m == n) ≡ false → (n == m) ≡ false
swap m n h = ground arith

each_swap :
    (k : ℕ) (gs : List CreditGrant)
    → All (λ x. (k == x.id) ≡ false) gs
    → All (λ x. (x.id == k) ≡ false) gs
each_swap k [] h = tt
each_swap k (g ∷ gs) h = (swap k g.id h.0, each_swap k gs h.1)

pub All-pass :
    (P : CreditGrant → Type 0) (p : CreditGrant → Bool) (gs : List CreditGrant)
    → All P gs
    → All P (keep p gs)
All-pass P p [] h = tt
All-pass P p (g ∷ gs) h = elim (Bool-cases (p g)) [
  | inl kept ↦ rw kept (h.0, All-pass P p gs h.1)
  | inr gone ↦ rw gone (All-pass P p gs h.1)
]

pub keep-IsKeyed :
    (p : CreditGrant → Bool) (gs : List CreditGrant) → IsKeyed gs → IsKeyed (keep p gs)
keep-IsKeyed p [] h = tt
keep-IsKeyed p (g ∷ gs) h = elim (Bool-cases (p g)) [
  | inl kept ↦ rw kept (All-pass _ p gs h.0, keep-IsKeyed p gs h.1)
  | inr gone ↦ rw gone (keep-IsKeyed p gs h.1)
]

module _ (le : CreditGrant → CreditGrant → Bool) where
  insert_by-IsKeyed :
      (g : CreditGrant) (gs : List CreditGrant)
      → All (λ x. (g.id == x.id) ≡ false) gs
      → IsKeyed gs
      → IsKeyed (insert_by le g gs)
  unfolding insert_by
  insert_by-IsKeyed g [] apart h = (tt, tt)
  insert_by-IsKeyed g (x ∷ gs) apart h = elim (Bool-cases (le g x)) [
    | inl first ↦ rw first (apart, h)
    | inr later ↦
        rw later
          (All-insert_by le _ g gs (swap g.id x.id apart.0) h.0, insert_by-IsKeyed g gs apart.1 h.1)
  ]

  pub sort_by-IsKeyed : (gs : List CreditGrant) → IsKeyed gs → IsKeyed (sort_by le gs)
  unfolding sort_by
  sort_by-IsKeyed [] h = tt
  sort_by-IsKeyed (g ∷ gs) h =
      insert_by-IsKeyed g (sort_by le gs) (All-sort_by le _ gs h.0) (sort_by-IsKeyed gs h.1)

-- The row that the identifier finds.
abbrev pub IsFirst : List CreditGrant → CreditGrant → Type 0
IsFirst grants g = find (grant_with_id g.id) grants ≡ some g

later-IsFirst :
    (g : CreditGrant) (xs grants : List CreditGrant)
    → All (λ x. (g.id == x.id) ≡ false) xs
    → All (IsFirst grants) xs
    → All (IsFirst (g ∷ grants)) xs
unfolding find
later-IsFirst g [] grants h k = tt
later-IsFirst g (x ∷ xs) grants h k = (rw h.0 k.0, later-IsFirst g xs grants h.1 k.1)

pub IsKeyed-IsFirst : (grants : List CreditGrant) → IsKeyed grants → All (IsFirst grants) grants
unfolding find
IsKeyed-IsFirst [] h = tt
IsKeyed-IsFirst (g ∷ gs) h =
    (rw ((==_iff g.id g.id).1 refl) refl, later-IsFirst g gs gs h.0 (IsKeyed-IsFirst gs h.1))

zero_bounds : (x : ℤ) → is_zero x ≡ true → (x ≤ℤ pos 0) × (pos 0 ≤ℤ x)
zero_bounds x h = (ground arith, ground arith)

zero_diff : (a b : ℤ) → is_zero (a -ℤ b) ≡ true → a ≡ b
zero_diff a b h = omega (int_laws, (zero_bounds (a -ℤ b) h).0, (zero_bounds (a -ℤ b) h).1)

charged-cash :
    (k id : ℕ) (amount : ℤ) (a : Account) (now : ℕ) (accounts : List Account)
    → find (account_with_id id) accounts ≡ some a
    → cash k (replace (account_with_id a.id) (with_balance a (a.balance -ℤ amount) now) accounts)
      ≡ cash k accounts -ℤ at k id amount
charged-cash k id amount a now accounts row =
    rw
      (
        ← found_id id a accounts row,
        balance_of-replace k a.id a (with_balance a (a.balance -ℤ amount) now) accounts
            (found_row id a accounts row) refl,
      )
      (elim (Bool-cases (a.id == k)) [
        | inl hit ↦
            rw (hit, balance_of-found k a.id a accounts (found_row id a accounts row) hit)
              (omega int_laws)
        | inr miss ↦ rw miss (omega int_laws)
      ])

-- The account is charged; the grants are left alone.
abbrev Charges : ℕ → ℤ → Db → Db → Type 0
Charges id amount db db' =
    (db'.grants ≡ db.grants)
    × ((k : ℕ) → cash k db'.accounts ≡ cash k db.accounts -ℤ at k id amount)

charge_account-Charges :
    (id : ℕ) (amount : ℤ) (a : Account) (n t : ℕ) (db : Db)
    → find (account_with_id id) db.accounts ≡ some a
    → Answers (λ _ db'. Charges id amount db db') (charge_account id amount n t db)
unfolding charge_account
charge_account-Charges id amount a n t db row =
    rw row (refl, λ k. charged-cash k id amount a t db.accounts row)

create_ledger_entry-Same :
    (p : CreateLedgerEntryParams) (n t : ℕ) (db : Db)
    → Answers
        (λ _ db'. (db'.grants ≡ db.grants) × (db'.accounts ≡ db.accounts))
        (create_ledger_entry p n t db)
unfolding create_ledger_entry
create_ledger_entry-Same p n t db = opened (refl, refl)
  where
    opened :
        (db.grants ≡ db.grants) × (db.accounts ≡ db.accounts)
        → Answers
            (λ _ db'. (db'.grants ≡ db.grants) × (db'.accounts ≡ db.accounts))
            (create_ledger_entry p n t db)
    opened h = search reject_if-Answers

map_post :
    {A : Type 0} (P Q : Db → Type 0) (r : Result (A × Db))
    → ((db : Db) → P db → Q db)
    → Answers (λ _. P) r
    → Answers {A = A} (λ _. Q) r
map_post P Q (ok (a, db)) f h = f db h
map_post P Q (err e) f h = tt

pub both-Ends :
    {A : Type 0} (P Q : A → World → Type 0) (r : Result A × World)
    → OnSuccess P r
    → OnSuccess Q r
    → Ends (λ a w. P a w × Q a w) (λ _. Unit {0}) r
both-Ends P Q (ok a, w) p q = ends_ok (p, q)
both-Ends P Q (err e, w) p q = ends_err tt

module _ (env : Env) (alone : (n : ℕ) (db : Db) → env.others n db ≡ db) where
  abbrev Anything : World → Type 0
  Anything w = Unit {0}

  -- A statement, from a view with one property to a view with another.
  runs :
      {A : Type 0} (P Q : Db → Type 0) (q : Query A)
      → ((n t : ℕ) (db : Db) → P db → Answers (λ _. Q) (q n t db))
      → (w : World) → P w.working
      → Ends (λ _ w'. Q w'.working) Anything (exec env q w)
  runs {A} P Q q post w p = forget (
      exec-Ends env P (λ _. Unit {0}) (λ _. Q) (λ n db h. subst P (sym (alone n db)) h) (λ _ _ x. x)
        q post w p tt)
    where
      forget :
          {r : Result A × World}
          → Ends (λ _ w'. Q w'.working × Unit {0}) (λ _. Unit {0}) r
          → Ends {A = A} (λ _ w'. Q w'.working) Anything r
      forget (ends_ok h) = ends_ok h.0
      forget (ends_err h) = ends_err tt

  -- The grants that are still to be used stand as they were locked; what each grant holds; the
  -- accounts.
  abbrev Stage : List CreditGrant → (ℕ → ℤ) → List Account → Db → Type 0
  Stage gs held_now accounts db =
      All (IsFirst db.grants) gs
      × ((k : ℕ) → held k db.grants ≡ held_now k)
      × (db.accounts ≡ accounts)

  abbrev less : (ℕ → ℤ) → ℕ → ℤ → ℕ → ℤ
  less held_now id consumed k = held_now k -ℤ at k id consumed

  others-IsFirst :
      (g : CreditGrant) (consumed : ℤ) (gs : List CreditGrant) (db db' : Db)
      → IsFirst db.grants g
      → All (λ x. (g.id == x.id) ≡ false) gs
      → All (IsFirst db.grants) gs
      → Draws g consumed db db'
      → All (IsFirst db'.grants) gs
  others-IsFirst g consumed [] db db' first apart rows d = tt
  others-IsFirst g consumed (x ∷ gs) db db' first apart rows d = (
    Draws-other g x consumed db db' first apart.0 rows.0 d,
    others-IsFirst g consumed gs db db' first apart.1 rows.1 d,
  )

  drawn-Stage :
      {A : Type 0} (g : CreditGrant) (gs : List CreditGrant) (held_now : ℕ → ℤ)
      (accounts : List Account) (consumed : ℤ) (q : Query A)
      → All (λ x. (g.id == x.id) ≡ false) gs
      → ((n t : ℕ) (db : Db)
          → IsFirst db.grants g
          → Answers (λ _ db'. Draws g consumed db db') (q n t db))
      → (w : World) → Stage (g ∷ gs) held_now accounts w.working
      → Ends
          (λ _ w'. Stage gs (less held_now g.id consumed) accounts w'.working)
          Anything
          (exec env q w)
  drawn-Stage g gs held_now accounts consumed q apart post w stage =
      runs (Stage (g ∷ gs) held_now accounts) (Stage gs (less held_now g.id consumed) accounts) q
        (λ n t db s.
          map_post (Draws g consumed db) (Stage gs (less held_now g.id consumed) accounts) _
            (λ db' d. (
              others-IsFirst g consumed gs db db' s.0.0 apart s.0.1 d,
              λ k.
                  Draws-held k g consumed db db' s.0.0 d
                  ∙ ap (λ x. x -ℤ at k g.id consumed) (s.1 k),
              d.3 ∙ s.2,
            ))
            (post n t db s.0.0))
        w stage

  spend_grant-Stage :
      (g : CreditGrant) (gs : List CreditGrant) (held_now : ℕ → ℤ) (accounts : List Account)
      (consumed : ℤ) (w : World)
      → All (λ x. (g.id == x.id) ≡ false) gs
      → Stage (g ∷ gs) held_now accounts w.working
      → Ends
          (λ _ w'. Stage gs (less held_now g.id consumed) accounts w'.working)
          Anything
          (spend_grant env g consumed (g.remaining_amount -ℤ consumed) w)
  unfolding spend_grant
  spend_grant-Stage g gs held_now accounts consumed w apart stage =
      elim (Bool-cases (is_zero (g.remaining_amount -ℤ consumed))) [
        | inl whole ↦ rw whole (
            drawn-Stage g gs held_now accounts consumed (deplete_grant g.id) apart
              (λ n t db first.
                subst (λ x. Answers (λ _ db'. Draws g x db db') (deplete_grant g.id n t db))
                  (zero_diff g.remaining_amount consumed whole)
                  (deplete_grant-Draws g.id g n t db first))
              w stage)
        | inr part ↦ rw part (
            bind-Ends _
              (drawn-Stage g gs held_now accounts consumed (drawdown_grant g.id consumed) apart
                (drawdown_grant-Draws g.id consumed g) w stage)
              λ _ w1 s1. ends_ok s1)
      ]

  -- What the loop leaves, from what the grants held.
  abbrev Spent : (ℕ → ℤ) → List Account → List GrantDrawdown × ℤ → World → Type 0
  Spent held_now accounts v w' =
      ((k : ℕ) → held k w'.working.grants ≡ held_now k -ℤ given k v.0)
      × (w'.working.accounts ≡ accounts)

  regroup : (h x y : ℤ) → h -ℤ x -ℤ y ≡ h -ℤ (x +ℤ y)
  regroup h x y = omega int_laws

  nothing_yet : (h : ℤ) → h ≡ h -ℤ pos 0
  nothing_yet h = omega int_laws

  spend_round-Spent :
      (description : String) (g : CreditGrant) (gs : List CreditGrant) (remaining : ℤ)
      (rest : ℤ → Tx (List GrantDrawdown × ℤ)) (held_now : ℕ → ℤ) (accounts : List Account)
      → ((held' : ℕ → ℤ) (left : ℤ) (w : World)
          → Stage gs held' accounts w.working
          → Ends (Spent held' accounts) Anything (rest left w))
      → (w : World) → All (λ x. (g.id == x.id) ≡ false) gs
      → Stage (g ∷ gs) held_now accounts w.working
      → Ends (Spent held_now accounts) Anything (spend_round env description g remaining rest w)
  unfolding spend_round given
  spend_round-Spent description g gs remaining rest held_now accounts ih w apart stage =
      let consumed = min_ℤ g.remaining_amount remaining in
      let held' = less held_now g.id consumed in
      bind-Ends _ (spend_grant-Stage g gs held_now accounts consumed w apart stage) λ _ w1 s1.
        bind-Ends _
          (runs (Stage gs held' accounts) (Stage gs held' accounts) (create_grant_ledger_entry _)
            (λ n t db s.
              map_post (λ db'. (db'.grants ≡ db.grants) × (db'.accounts ≡ db.accounts))
                (Stage gs held' accounts) _
                (λ db' e. (
                  subst (λ rows. All (IsFirst rows) gs) (sym e.0) s.0,
                  λ k. ap (held k) e.0 ∙ s.1 k,
                  e.1 ∙ s.2,
                ))
                (create_grant_ledger_entry-Same _ n t db))
            w1 s1)
          λ _ w2 s2. bind-Ends _ (ih held' (remaining -ℤ consumed) w2 s2) λ v w3 s3.
            ends_ok ((λ k. s3.0 k ∙ regroup (held_now k) (at k g.id consumed) (given k v.0)), s3.1)

  spend_grants-Spent :
      (description : String) (gs : List CreditGrant) (remaining : ℤ) (held_now : ℕ → ℤ)
      (accounts : List Account) (w : World)
      → IsKeyed gs
      → Stage gs held_now accounts w.working
      → Ends (Spent held_now accounts) Anything (spend_grants env description gs remaining w)
  unfolding spend_grants given
  spend_grants-Spent description [] remaining held_now accounts w keyed stage =
      ends_ok ((λ k. stage.1 k ∙ nothing_yet (held_now k)), stage.2)
  spend_grants-Spent description (g ∷ gs) remaining held_now accounts w keyed stage =
      elim (Bool-cases (is_zero remaining)) [
        | inl done ↦ rw done (ends_ok ((λ k. stage.1 k ∙ nothing_yet (held_now k)), stage.2))
        | inr more ↦ rw more (
            spend_round-Spent description g gs remaining (spend_grants env description gs) held_now
              accounts
              (λ held' left w' s.
                spend_grants-Spent description gs left held' accounts w' keyed.1 s)
              w keyed.0 stage)
      ]

  -- What each grant holds and what is in each account.
  abbrev Amounts : (ℕ → ℤ) → (ℕ → ℤ) → Db → Type 0
  Amounts held_now cash_now db =
      ((k : ℕ) → held k db.grants ≡ held_now k) × ((k : ℕ) → cash k db.accounts ≡ cash_now k)

  ltb_zero : (x : ℤ) → ltb_ℤ (pos 0) x ≡ false → pos 0 ≤ℤ x → x ≡ pos 0
  ltb_zero x h nonneg = omega (int_laws, ltb_ℤ-false (pos 0) x h)

  take_cash-Amounts :
      (account_id : ℕ) (new_cash left : ℤ) (description : String) (held_now : ℕ → ℤ)
      (accounts : List Account) (a : Account)
      → find (account_with_id account_id) accounts ≡ some a
      → (w : World) → ((k : ℕ) → held k w.working.grants ≡ held_now k)
      → w.working.accounts ≡ accounts
      → Ends
          (λ _ w'. Amounts held_now (λ k. cash k accounts -ℤ at k account_id left) w'.working)
          Anything
          (take_cash env account_id new_cash left description w)
  unfolding take_cash
  take_cash-Amounts account_id new_cash left description held_now accounts a row w holds same =
      let Before =
        λ (db : Db). ((k : ℕ) → held k db.grants ≡ held_now k) × (db.accounts ≡ accounts) in
      let After = Amounts held_now (λ k. cash k accounts -ℤ at k account_id left) in
      bind-Ends _
        (runs Before After (charge_account account_id left)
          (λ n t db b.
            map_post (Charges account_id left db) After _
              (λ db' c. (
                λ k. ap (held k) c.0 ∙ b.0 k,
                λ k. c.1 k ∙ ap (λ rows. cash k rows -ℤ at k account_id left) b.1,
              ))
              (charge_account-Charges account_id left a n t db
                (ap (find (account_with_id account_id)) b.1 ∙ row)))
          w (holds, same))
        λ _ w1 after.
          bind-Ends _
            (runs After After (create_ledger_entry _)
              (λ n t db b.
                map_post (λ db'. (db'.grants ≡ db.grants) × (db'.accounts ≡ db.accounts)) After _
                  (λ db' e. ((λ k. ap (held k) e.0 ∙ b.0 k), λ k. ap (cash k) e.1 ∙ b.1 k))
                  (create_ledger_entry-Same _ n t db))
              w1 after)
            λ _ w2 after2. ends_ok after2

  charge_cash-Amounts :
      (account_id : ℕ) (balance left : ℤ) (description : String) (held_now : ℕ → ℤ)
      (accounts : List Account) (a : Account)
      → find (account_with_id account_id) accounts ≡ some a
      → pos 0 ≤ℤ left
      → (w : World) → ((k : ℕ) → held k w.working.grants ≡ held_now k)
      → w.working.accounts ≡ accounts
      → Ends
          (λ _ w'. Amounts held_now (λ k. cash k accounts -ℤ at k account_id left) w'.working)
          Anything
          (charge_cash env account_id balance left description w)
  unfolding charge_cash
  charge_cash-Amounts account_id balance left description held_now accounts a row nonneg w holds
        same =
      elim (Bool-cases (ltb_ℤ (pos 0) left)) [
        | inl some_left ↦ rw some_left (
            take_cash-Amounts account_id (balance -ℤ left) left description held_now accounts a row
              w holds same)
        | inr none_left ↦ rw none_left (
            ends_ok (
              holds,
              λ k.
                  ap (cash k) same
                  ∙ unchanged (cash k accounts) k account_id left (ltb_zero left none_left nonneg),
            ))
      ]
    where
      unchanged : (c : ℤ) (k id : ℕ) (x : ℤ) → x ≡ pos 0 → c ≡ c -ℤ at k id x
      unchanged c k id x h = elim (Bool-cases (id == k)) [
        | inl hit ↦ rw (hit, h) (omega int_laws)
        | inr miss ↦ rw miss (omega int_laws)
      ]

  -- What remains of the transaction, once the account and its grants are locked.
  pub pay-IsPaid :
      (account_id : ℕ) (amount : ℤ) (description : String) (a : Account) (gs : List CreditGrant)
      (db0 : Db)
      → find (account_with_id account_id) db0.accounts ≡ some a
      → IsKeyed gs
      → All (IsFirst db0.grants) gs
      → All IsFunded gs
      → pos 0 ≤ℤ amount
      → (w : World) → w.working ≡ db0
      → Ends
          (λ r w'. IsPaid db0 account_id r w'.committed)
          Anything
          (pay env account_id amount description a gs w)
  unfolding pay
  pay-IsPaid account_id amount description a gs db0 row keyed first funded nonneg w start =
      let AtStart = λ (v : World). v.working ≡ db0 in
      bind-Ends _ (weaken-Ends (λ _ _. tt) (fail_if-Ends {P = AtStart} _ _ w start)) λ _ w1 s1.
        bind-Ends _
          (both-Ends (Spent (λ k. held k db0.grants) db0.accounts)
            (λ v _. v ≡ (fifo gs amount, left_over gs amount))
            (spend_grants env description gs amount w1)
            (on_success _ _ (
              spend_grants-Spent description gs amount (λ k. held k db0.grants) db0.accounts w1
                keyed (starts w1.working s1)))
            (on_success _ _ (spend_grants-fifo env description gs amount w1)))
          λ v w2 spent.
            let Done = λ (db : Db). IsPaid db0 account_id (result_of v (pos 0)) db in
            bind-Ends _
              (charge_cash-Amounts account_id a.balance v.1 description
                (λ k. held k db0.grants -ℤ given k v.0) db0.accounts a row
                (rw spent.1 (left_over_nonneg gs amount funded nonneg)) w2 spent.0.0 spent.0.1)
              λ c w3 amounts.
                bind-Ends _
                  (commit-Commits env Done (λ _. Unit {0})
                    (λ n db d. subst Done (sym (alone n db)) d) (λ _ _ x. x) w3
                    (record { by_grants = amounts.0; by_cash = amounts.1 }, tt))
                  λ _ w4 d. ends_ok (record { by_grants = d.by_grants; by_cash = d.by_cash })
    where
      result_of : List GrantDrawdown × ℤ → ℤ → WaterfallResult
      result_of v c = record { grants_consumed = v.0; cash_consumed = v.1; new_cash_balance = c }

      starts : (db : Db) → db ≡ db0 → Stage gs (λ k. held k db0.grants) db0.accounts db
      starts db e =
          subst (λ d. Stage gs (λ k. held k db0.grants) db0.accounts d) (sym e)
            (first, (λ k. refl), refl)
