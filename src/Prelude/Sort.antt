-- ===== src/Prelude/Sort.antt =====
-- ORDER BY: a stable insertion sort by a Boolean order, and LIMIT and OFFSET.
use Prim.Native.Nat.{suc}
use mathlib.Core.Path.{◌≡◌, refl, ap, ◌∙◌}
use mathlib.Core.Logic.{inl, inr}
use mathlib.Core.List.{List, [], ◌∷◌}
use mathlib.Core.Bool.{Bool}
use mathlib.Core.Option.{Option, none, some}
use playground_ledger.Prelude.Tests.{Bool-cases, if◌then◌else◌}
use playground_ledger.Prelude.Lists.{All, length, take, drop}
use playground_ledger.Prelude.Int.{ℤ, pos, ◌+ℤ◌, int_laws}
use playground_ledger.Prelude.Table.{sum}

module _ {A : Type 0} (le : A → A → Bool) where
  unfoldable pub insert_by : A → List A → List A
  insert_by x [] = x ∷ []
  insert_by x (y ∷ ys) = if le x y then x ∷ y ∷ ys else y ∷ insert_by x ys

  unfoldable pub sort_by : List A → List A
  unfolding insert_by
  sort_by [] = []
  sort_by (x ∷ xs) = insert_by x (sort_by xs)

  length-insert_by : (x : A) (xs : List A) → length (insert_by x xs) ≡ suc (length xs)
  unfolding insert_by
  length-insert_by x [] = refl
  length-insert_by x (y ∷ ys) = elim (Bool-cases (le x y)) [
    | inl first ↦ rw first refl
    | inr later ↦ rw later (ap (λ n. suc n) (length-insert_by x ys))
  ]

  pub length-sort_by : (xs : List A) → length (sort_by xs) ≡ length xs
  unfolding sort_by
  length-sort_by [] = refl
  length-sort_by (x ∷ xs) = length-insert_by x (sort_by xs) ∙ ap (λ n. suc n) (length-sort_by xs)

  pub sum-insert_by : (v : A → ℤ) (x : A) (xs : List A) → sum v (insert_by x xs) ≡ v x +ℤ sum v xs
  unfolding insert_by sum
  sum-insert_by v x [] = refl
  sum-insert_by v x (y ∷ ys) = elim (Bool-cases (le x y)) [
    | inl first ↦ grind int_laws
    | inr later ↦ grind (int_laws, sum-insert_by v x ys)
  ]

  pub sum-sort_by : (v : A → ℤ) (xs : List A) → sum v (sort_by xs) ≡ sum v xs
  unfolding sort_by sum
  sum-sort_by v [] = refl
  sum-sort_by v (x ∷ xs) = rw (sum-insert_by v x (sort_by xs), sum-sort_by v xs) refl

  pub All-insert_by :
      (P : A → Type 0) (x : A) (xs : List A) → P x → All P xs → All P (insert_by x xs)
  unfolding insert_by
  All-insert_by P x [] px h = (px, tt)
  All-insert_by P x (y ∷ ys) px h = elim (Bool-cases (le x y)) [
    | inl first ↦ rw first (px, h)
    | inr later ↦ rw later (h.0, All-insert_by P x ys px h.1)
  ]

  pub All-sort_by : (P : A → Type 0) (xs : List A) → All P xs → All P (sort_by xs)
  unfolding sort_by
  All-sort_by P [] h = h
  All-sort_by P (x ∷ xs) h = All-insert_by P x (sort_by xs) h.0 (All-sort_by P xs h.1)

-- LIMIT and OFFSET, which PostgreSQL refuses if negative.
unfoldable pub window : {A : Type 0} → ℤ → ℤ → List A → Option (List A)
window (pos limit) (pos offset) rows = some (take limit (drop offset rows))
window _ _ rows = none
