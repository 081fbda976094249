-- ===== src/Grants/Spec.antt =====
-- What the two loops of postgre-setup/go/internal/grants/service.go compute, as functions of the
-- grants' remaining amounts, and their closed form.
use playground_ledger.Prelude.{
  ◌≡◌, refl, ap, ◌∙◌, true, false, Bool-cases, inl, inr, List, [], ◌∷◌, All, ℤ, pos, ◌+ℤ◌, ◌-ℤ◌,
  ◌≤ℤ◌, leb_ℤ, leb_ℤ→≤ℤ, leb_ℤ-false, -ℤ_parts, +ℤ_parts, int_laws, arith, if◌then◌else◌,
}
use playground_ledger.Prelude.Table.{sum}
use playground_ledger.Db.{CreditGrant}
use playground_ledger.Grants.{GrantDrawdown, is_zero, min_ℤ, available}

-- First come, first consumed: what each grant gives, until nothing remains to be paid.
unfoldable pub fifo : List CreditGrant → ℤ → List GrantDrawdown
fifo [] remaining = []
fifo (g ∷ gs) remaining =
    let consumed = min_ℤ g.remaining_amount remaining in
    let rest = fifo gs (remaining -ℤ consumed) in
    if is_zero remaining then [] else record { grant_id = g.id; consumed = consumed } ∷ rest

-- What the grants leave to be paid.
unfoldable pub left_over : List CreditGrant → ℤ → ℤ
left_over [] remaining = remaining
left_over (g ∷ gs) remaining =
    let rest = left_over gs (remaining -ℤ min_ℤ g.remaining_amount remaining) in
    if is_zero remaining then remaining else rest

abbrev pub consumed_sum : List GrantDrawdown → ℤ
consumed_sum ds = sum (λ (d : GrantDrawdown). d.consumed) ds

abbrev pub IsFunded : CreditGrant → Type 0
IsFunded g = pos 1 ≤ℤ g.remaining_amount

is_zero-le : (x : ℤ) → is_zero x ≡ true → x ≤ℤ pos 0
is_zero-le x h = ground arith

pub available_nonneg : (gs : List CreditGrant) → All IsFunded gs → pos 0 ≤ℤ available gs
unfolding sum
available_nonneg [] h = omega arith
available_nonneg (g ∷ gs) h = omega (int_laws, available_nonneg gs h.1)

-- Grants and remainder make up the amount.
pub fifo-sum :
    (gs : List CreditGrant) (remaining : ℤ)
    → consumed_sum (fifo gs remaining) +ℤ left_over gs remaining ≡ remaining
unfolding fifo left_over sum
fifo-sum [] remaining = omega int_laws
fifo-sum (g ∷ gs) remaining = elim (Bool-cases (is_zero remaining)) [
  | inl done ↦ grind int_laws
  | inr more ↦ grind (int_laws, fifo-sum gs (remaining -ℤ min_ℤ g.remaining_amount remaining))
]

-- Grants that suffice leave nothing.
left_over-covered :
    (gs : List CreditGrant) (remaining : ℤ)
    → All IsFunded gs
    → pos 0 ≤ℤ remaining
    → remaining ≤ℤ available gs
    → left_over gs remaining ≡ pos 0
unfolding left_over sum
left_over-covered [] remaining h nonneg le = omega int_laws
left_over-covered (g ∷ gs) remaining h nonneg le = elim (Bool-cases (is_zero remaining)) [
  | inl done ↦ rw done (ground arith)
  | inr more ↦ rw more (elim (Bool-cases (leb_ℤ g.remaining_amount remaining)) [
    | inl whole ↦ rw whole (
        left_over-covered gs (remaining -ℤ g.remaining_amount) h.1
          (omega (int_laws, leb_ℤ→≤ℤ g.remaining_amount remaining whole)) (omega int_laws))
    | inr part ↦ rw part (
        left_over-covered gs (remaining -ℤ remaining) h.1 (omega int_laws)
          (omega (int_laws, available_nonneg gs h.1)))
  ])
]

-- Grants that fall short leave the shortfall.
left_over-short :
    (gs : List CreditGrant) (remaining : ℤ)
    → All IsFunded gs
    → available gs ≤ℤ remaining
    → left_over gs remaining ≡ remaining -ℤ available gs
unfolding left_over sum
left_over-short [] remaining h le = omega int_laws
left_over-short (g ∷ gs) remaining h le = elim (Bool-cases (is_zero remaining)) [
  | inl done ↦ absurd (omega (int_laws, is_zero-le remaining done, available_nonneg gs h.1))
  | inr more ↦ rw more (elim (Bool-cases (leb_ℤ g.remaining_amount remaining)) [
    | inl whole ↦ rw whole (
        rw (left_over-short gs (remaining -ℤ g.remaining_amount) h.1 (omega int_laws))
          (omega int_laws))
    | inr part ↦
        absurd
          (omega (int_laws, leb_ℤ-false g.remaining_amount remaining part, available_nonneg gs h.1))
  ])
]

-- Cash pays what all grants together do not: nothing, or the shortfall.
pub left_over-closed :
    (gs : List CreditGrant) (remaining : ℤ)
    → All IsFunded gs
    → pos 0 ≤ℤ remaining
    → left_over gs remaining
      ≡ (if leb_ℤ remaining (available gs) then pos 0 else remaining -ℤ available gs)
left_over-closed gs remaining h nonneg = elim (Bool-cases (leb_ℤ remaining (available gs))) [
  | inl covered ↦
      rw covered
        (left_over-covered gs remaining h nonneg (leb_ℤ→≤ℤ remaining (available gs) covered))
  | inr short ↦ rw short (
      left_over-short gs remaining h (omega (int_laws, leb_ℤ-false remaining (available gs) short)))
]

pub left_over_nonneg :
    (gs : List CreditGrant) (remaining : ℤ)
    → All IsFunded gs
    → pos 0 ≤ℤ remaining
    → pos 0 ≤ℤ left_over gs remaining
left_over_nonneg gs remaining h nonneg =
    rw (left_over-closed gs remaining h nonneg)
      (elim (Bool-cases (leb_ℤ remaining (available gs))) [
        | inl covered ↦ rw covered (omega arith)
        | inr short ↦ rw short (omega (int_laws, leb_ℤ-false remaining (available gs) short))
      ])

-- What each grant owes by its place in the order: of the amount that the grants before it do not
-- cover, as much as it holds; nothing once the amount is covered.
unfoldable pub shares : ℤ → List CreditGrant → ℤ → List GrantDrawdown
shares before [] amount = []
shares before (g ∷ gs) amount =
    let rest = shares (before +ℤ g.remaining_amount) gs amount in
    if leb_ℤ amount before
    then []
    else record { grant_id = g.id; consumed = min_ℤ g.remaining_amount (amount -ℤ before) } ∷ rest

fifo-nothing : (gs : List CreditGrant) (x : ℤ) → is_zero x ≡ true → fifo gs x ≡ []
unfolding fifo
fifo-nothing [] x h = refl
fifo-nothing (g ∷ gs) x h = rw h refl

shares-covered :
    (before : ℤ) (gs : List CreditGrant) (amount : ℤ)
    → leb_ℤ amount before ≡ true
    → shares before gs amount ≡ []
unfolding shares
shares-covered before [] amount h = refl
shares-covered before (g ∷ gs) amount h = rw h refl

diff_zero : (a b : ℤ) → leb_ℤ a b ≡ true → b ≤ℤ a → is_zero (a -ℤ b) ≡ true
diff_zero a b h le = ground (arith, -ℤ_parts a b)

self_zero : (a : ℤ) → is_zero (a -ℤ a) ≡ true
self_zero a = ground (arith, -ℤ_parts a a)

beyond :
    (x before amount : ℤ) → leb_ℤ x (amount -ℤ before) ≡ false → leb_ℤ amount (before +ℤ x) ≡ true
beyond x before amount h = ground (arith, -ℤ_parts amount before, +ℤ_parts before x)

diff_pos : (a b : ℤ) → leb_ℤ a b ≡ false → is_zero (a -ℤ b) ≡ false
diff_pos a b h = ground (arith, -ℤ_parts a b)

-- The rest of the list, after a grant that is used up and after one that is not.
fifo_step :
    (gs : List CreditGrant) (x before amount : ℤ)
    → (x ≤ℤ amount -ℤ before → fifo gs (amount -ℤ (before +ℤ x)) ≡ shares (before +ℤ x) gs amount)
    → fifo gs (amount -ℤ before -ℤ min_ℤ x (amount -ℤ before)) ≡ shares (before +ℤ x) gs amount
fifo_step gs x before amount ih = elim (Bool-cases (leb_ℤ x (amount -ℤ before))) [
  | inl whole ↦
      rw whole (ap (fifo gs) (regroup amount before x) ∙ ih (leb_ℤ→≤ℤ x (amount -ℤ before) whole))
  | inr part ↦
      rw
        (
          part,
          fifo-nothing gs (amount -ℤ before -ℤ (amount -ℤ before)) (self_zero (amount -ℤ before)),
          shares-covered (before +ℤ x) gs amount (beyond x before amount part),
        )
        refl
]
  where
    regroup : (a b c : ℤ) → a -ℤ b -ℤ c ≡ a -ℤ (b +ℤ c)
    regroup a b c = omega int_laws

pub fifo-shares :
    (gs : List CreditGrant) (before amount : ℤ)
    → All IsFunded gs
    → before ≤ℤ amount
    → fifo gs (amount -ℤ before) ≡ shares before gs amount
unfolding fifo shares
fifo-shares [] before amount h le = refl
fifo-shares (g ∷ gs) before amount h le = elim (Bool-cases (leb_ℤ amount before)) [
  | inl done ↦ rw (done, diff_zero amount before done le) refl
  | inr more ↦
      rw (more, diff_pos amount before more)
        (ap
          (λ (ds : List GrantDrawdown).
            record { grant_id = g.id; consumed = min_ℤ g.remaining_amount (amount -ℤ before) } ∷ ds)
          (fifo_step gs g.remaining_amount before amount
            (λ fits. fifo-shares gs (before +ℤ g.remaining_amount) amount h.1 (omega int_laws))))
]
