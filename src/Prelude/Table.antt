-- ===== src/Prelude/Table.antt =====
-- A table is the list of its rows. A statement that names a row by its primary key acts on the
-- first row with that key, which is the only one.
use Prim.Native.Nat.{ℕ}
use mathlib.Core.Path.{◌≡◌, refl, subst}
use mathlib.Core.Option.{Option, none, some}
use mathlib.Core.List.{List, [], ◌∷◌}
use mathlib.Core.Logic.{inl, inr}
use mathlib.Core.Bool.{Bool, true, false}
use native.Mathlib.Omega.{arith}
use playground_ledger.Prelude.Tests.{◌==◌, Bool-cases, if◌then◌else◌}
use playground_ledger.Prelude.Int.{ℤ, pos, ◌+ℤ◌, int_laws}
use playground_ledger.Prelude.Lists.{All}

module _ {A : Type 0} where
  -- SELECT … WHERE p, for a condition that at most one row meets.
  unfoldable pub find : (A → Bool) → List A → Option A
  find p [] = none
  find p (r ∷ rows) = if p r then some r else find p rows

  -- The row that meets p is written anew.
  unfoldable pub replace : (A → Bool) → A → List A → List A
  replace p r' [] = []
  replace p r' (r ∷ rows) = if p r then r' ∷ rows else r ∷ replace p r' rows

  -- Any row that passes the test.
  unfoldable pub any : (A → Bool) → List A → Bool
  any p [] = false
  any p (r ∷ rows) = if p r then true else any p rows

  -- The sum of a column.
  unfoldable pub sum : (A → ℤ) → List A → ℤ
  sum v [] = pos 0
  sum v (r ∷ rows) = v r +ℤ sum v rows

  pub find-holds : (p : A → Bool) (rows : List A) (r : A) → find p rows ≡ some r → p r ≡ true
  unfolding find
  find-holds p [] r h = cc
  find-holds p (x ∷ rows) r h = ground (arith, find-holds p rows r)

  pub find-replace_self :
      (p : A → Bool) (r' : A) (rows : List A) (r : A)
      → find p rows ≡ some r
      → p r' ≡ true
      → find p (replace p r' rows) ≡ some r'
  unfolding find replace
  find-replace_self p r' [] r h e = cc
  find-replace_self p r' (x ∷ rows) r h e = ground (arith, find-replace_self p r' rows r)

  pub sum-replace :
      (v : A → ℤ) (p : A → Bool) (r' : A) (rows : List A) (r : A)
      → find p rows ≡ some r
      → sum v (replace p r' rows) +ℤ v r ≡ sum v rows +ℤ v r'
  unfolding find replace sum
  sum-replace v p r' [] r h = cc
  sum-replace v p r' (x ∷ rows) r h = elim (Bool-cases (p x)) [
    | inl hit ↦ grind int_laws
    | inr miss ↦ grind (int_laws, sum-replace v p r' rows r)
  ]

  -- No row is found: none passes the test.
  pub any_of_none : (p : A → Bool) (rows : List A) → find p rows ≡ none → any p rows ≡ false
  unfolding find any
  any_of_none p [] h = refl
  any_of_none p (x ∷ rows) h = ground (arith, any_of_none p rows)

  pub none_of_any : (p : A → Bool) (rows : List A) → any p rows ≡ false → find p rows ≡ none
  unfolding find any
  none_of_any p [] h = refl
  none_of_any p (x ∷ rows) h = ground (arith, none_of_any p rows)

module _ {A : Type 0} (key : A → ℕ) where
  -- A row found by its key, once one row is written anew under its old key.
  pub find-replace_key :
      (j k : ℕ) (r' : A) (rows : List A) (r : A)
      → find (λ x. key x == k) rows ≡ some r
      → key r' ≡ k
      → find (λ x. key x == j) (replace (λ x. key x == k) r' rows)
        ≡ (if k == j then some r' else find (λ x. key x == j) rows)
  unfolding find replace
  find-replace_key j k r' [] r h e = cc
  find-replace_key j k r' (x ∷ rows) r h e = ground (arith, find-replace_key j k r' rows r)

  -- A row that is found still is.
  pub any_of_find :
      (k : ℕ) (rows : List A) (r : A)
      → find (λ x. key x == k) rows ≡ some r
      → any (λ x. key x == k) rows ≡ true
  unfolding find any
  any_of_find k [] r h = cc
  any_of_find k (x ∷ rows) r h = ground (arith, any_of_find k rows r)

module _ {A : Type 0} (P : A → Type 0) (p : A → Bool) where
  pub All-find : (rows : List A) (r : A) → find p rows ≡ some r → All P rows → P r
  unfolding find
  All-find [] r h hs = cc
  All-find (x ∷ rows) r h hs = elim (Bool-cases (p x)) [
    | inl hit ↦ subst P (row_of (found hit h)) hs.0
    | inr miss ↦ All-find rows r (later miss h) hs.1
  ]
    where
      found : p x ≡ true → find p (x ∷ rows) ≡ some r → some x ≡ some r
      found hit h = grind arith

      later : p x ≡ false → find p (x ∷ rows) ≡ some r → find p rows ≡ some r
      later miss h = grind arith

      row_of : some x ≡ some r → x ≡ r
      row_of e = cc

  pub All-replace : (rows : List A) (r' : A) → P r' → All P rows → All P (replace p r' rows)
  unfolding replace
  All-replace [] r' h hs = tt
  All-replace (x ∷ rows) r' h hs = elim (Bool-cases (p x)) [
    | inl hit ↦ rw hit (h, hs.1)
    | inr miss ↦ rw miss (hs.0, All-replace rows r' h hs.1)
  ]
