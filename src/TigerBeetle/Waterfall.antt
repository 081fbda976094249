-- ===== src/TigerBeetle/Waterfall.antt =====
-- buildWaterfallTransfers of tigerbeetle-setup/main.go: what is drawn, from which sources.
use playground_ledger.Prelude.{
  ℕ, zero, suc, ◌+◌, ◌-◌, ◌^◌, ◌==◌, ◌≤◌, ◌<◌, ◌≡◌, ◌⊎◌, refl, ap, ◌∙◌, arith, Bool-cases, true,
  false, inl, inr, Option, some, List, [], ◌∷◌, All, ltb, leb, if◌then◌else◌,
}
use playground_ledger.TigerBeetle.{
  TbAccount, Transfer, available, to_uint64, draw_loop, link, build_waterfall_transfers,
  draw_transfer, add_draw, linked_of,
}

-- What an account may give, by the numbers themselves.
abbrev pub funds : TbAccount → ℕ
funds a = a.credits_posted - (a.debits_posted + a.debits_pending)

-- All counts have 64 bits, also the sum of the debits.
abbrev pub IsSmall : TbAccount → Type 0
IsSmall a = (a.credits_posted < 2 ^ 64) × (a.debits_posted + a.debits_pending < 2 ^ 64)

unfoldable pub total_funds : List TbAccount → ℕ
total_funds [] = 0
total_funds (a ∷ accounts) = funds a + total_funds accounts

unfoldable pub drawn : List Transfer → ℕ
drawn [] = 0
drawn (t ∷ ts) = t.amount + drawn ts

available-funds : (a : TbAccount) → IsSmall a → available a ≡ some (funds a)
unfolding available to_uint64
available-funds a h = ground arith

nonzero : (n : ℕ) → (suc n == 0) ≡ false
nonzero n = ground arith

is_zero : (n : ℕ) → (n == 0) ≡ true → n ≡ 0
is_zero n h = ground arith

is_positive : (n : ℕ) → (n == 0) ≡ false → 1 ≤ n
is_positive n h = ground arith

less : (m n : ℕ) → ltb m n ≡ true → m < n
less m n h = ground arith

not_less : (m n : ℕ) → ltb m n ≡ false → n ≤ m
not_less m n h = ground arith

-- The transfers draw on the accounts in their order, at most one on each: none more than the account
-- has, and less only if it is the last.
pub data Drains (dest : ℕ) : List TbAccount → ℕ → List Transfer → Type 0 where
  paid : {accounts : List TbAccount} → Drains dest accounts 0 []
  exhausted : {target : ℕ} → Drains dest [] target []
  skipped :
      {a : TbAccount} {accounts : List TbAccount} {target : ℕ} {ts : List Transfer}
      → funds a ≡ 0
      → Drains dest accounts target ts
      → Drains dest (a ∷ accounts) target ts
  emptied :
      {a : TbAccount} {accounts : List TbAccount} {target : ℕ} {t : Transfer} {ts : List Transfer}
      → 1 ≤ t.amount
      → t.amount ≡ funds a
      → t.amount ≤ target
      → t.debit_account_id ≡ a.id
      → t.credit_account_id ≡ dest
      → Drains dest accounts (target - t.amount) ts
      → Drains dest (a ∷ accounts) target (t ∷ ts)
  last :
      {a : TbAccount} {accounts : List TbAccount} {target : ℕ} {t : Transfer}
      → 1 ≤ target
      → t.amount ≡ target
      → target < funds a
      → t.debit_account_id ≡ a.id
      → t.credit_account_id ≡ dest
      → Drains dest (a ∷ accounts) target (t ∷ [])

abbrev Unlinked : Transfer → Type 0
Unlinked t = t.flags.linked ≡ false

-- Exactly the last transfer is not linked, so that all are one chain.
abbrev pub IsChain : List Transfer → Type 0
IsChain [] = Unit
IsChain (t ∷ []) = t.flags.linked ≡ false
IsChain (t ∷ u ∷ ts) = (t.flags.linked ≡ true) × IsChain (u ∷ ts)

link-IsChain : (ts : List Transfer) → All Unlinked ts → IsChain (link ts)
unfolding link
link-IsChain [] h = tt
link-IsChain (t ∷ []) h = h.0
link-IsChain (t ∷ u ∷ []) h = (refl, h.1.0)
link-IsChain (t ∷ u ∷ v ∷ ts) h = (refl, link-IsChain (u ∷ v ∷ ts) h.1)

drawn-link : (ts : List Transfer) → drawn (link ts) ≡ drawn ts
unfolding link drawn
drawn-link [] = refl
drawn-link (t ∷ []) = refl
drawn-link (t ∷ u ∷ ts) = ap (λ n. t.amount + n) (drawn-link (u ∷ ts))

module _ (dest : ℕ) where
  drawn-Drains :
      {accounts : List TbAccount} {target : ℕ} {ts : List Transfer}
      → Drains dest accounts target ts
      → (drawn ts ≤ target)
        × (drawn ts ≤ total_funds accounts)
        × ((drawn ts ≡ target) ⊎ (drawn ts ≡ total_funds accounts))
  unfolding drawn total_funds
  drawn-Drains paid = (omega arith, omega arith, inl refl)
  drawn-Drains exhausted = (omega arith, omega arith, inr refl)
  drawn-Drains (skipped {a} none_there d) =
      let (within, covered, which) = drawn-Drains d in
      (within, omega arith, elim which [ inl e ↦ inl e | inr e ↦ inr (omega arith) ])
  drawn-Drains (emptied some_there e within_target by to d) =
      let (within, covered, which) = drawn-Drains d in
      (
        omega arith,
        omega arith,
        elim which [ inl f ↦ inl (omega arith) | inr f ↦ inr (omega arith) ],
      )
  drawn-Drains (last positive e more by to) = (omega arith, omega arith, inl (omega arith))

  module _ (new_id : ℕ → ℕ) where
    abbrev Drawn : List TbAccount → ℕ → Option (List Transfer) → Type 0
    Drawn accounts target o =
        (ts : List Transfer) × (o ≡ some ts) × Drains dest accounts target ts × All Unlinked ts

    stops :
        (accounts : List TbAccount) (n target : ℕ)
        → target ≡ 0
        → draw_loop new_id dest accounts n target ≡ some []
    unfolding draw_loop
    stops [] n target h = refl
    stops (a ∷ accounts) n target h = rw h refl

    draw_loop-Drains :
        (accounts : List TbAccount) (n target : ℕ)
        → All IsSmall accounts
        → Drawn accounts target (draw_loop new_id dest accounts n target)
    unfolding draw_loop
    draw_loop-Drains [] n target small = ([], refl, exhausted, tt)
    draw_loop-Drains (a ∷ accounts) n zero small = ([], refl, paid, tt)
    draw_loop-Drains (a ∷ accounts) n (suc target) small = elim (Bool-cases (funds a == 0)) [
      | inl empty ↦
          let (ts, e, d, u) = draw_loop-Drains accounts n (suc target) small.1 in
          (
            ts,
            rw (nonzero target, available-funds a small.0, empty) e,
            skipped (is_zero (funds a) empty) d,
            u,
          )
      | inr some_there ↦ elim (Bool-cases (ltb (suc target) (funds a))) [
        | inl more ↦ (
          draw_transfer (new_id n) a.id dest (suc target) ∷ [],
          rw (nonzero target, available-funds a small.0, some_there, more)
              (ap (add_draw (draw_transfer (new_id n) a.id dest (suc target)))
                (stops accounts (suc n) (suc target - suc target) (omega arith))),
          last (omega arith) refl (less _ _ more) refl refl,
          (refl, tt),
        )
        | inr all_of_it ↦
            let (ts, e, d, u) = draw_loop-Drains accounts (suc n) (suc target - funds a) small.1 in
            (
              draw_transfer (new_id n) a.id dest (funds a) ∷ ts,
              rw (nonzero target, available-funds a small.0, some_there, all_of_it)
                  (ap (add_draw (draw_transfer (new_id n) a.id dest (funds a))) e),
              emptied (is_positive (funds a) some_there) refl (not_less _ _ all_of_it) refl refl d,
              (refl, u),
            )
      ]
    ]

  Drains-link :
      {accounts : List TbAccount} {target : ℕ} {ts : List Transfer}
      → Drains dest accounts target ts
      → Drains dest accounts target (link ts)
  unfolding link
  Drains-link paid = paid
  Drains-link exhausted = exhausted
  Drains-link (skipped e d) = skipped e (Drains-link d)
  Drains-link (emptied {ts = []} some_there e within by to d) = emptied some_there e within by to d
  Drains-link (emptied {ts = u ∷ ts} some_there e within by to d) =
      emptied some_there e within by to (Drains-link d)
  Drains-link (last positive e more by to) = last positive e more by to

-- If all counts of the accounts have 64 bits, the sum of the debits as well, the transfers that are
-- built draw on the accounts in their order, empty each before the next, and form one linked chain;
-- together they come to the target, or to all funds if these are less.
pub build_waterfall_transfers-Drains :
    (new_id : ℕ → ℕ) (dest : ℕ) (accounts : List TbAccount) (target : ℕ)
    → All IsSmall accounts
    → (ts : List Transfer) × (build_waterfall_transfers new_id dest accounts target ≡ some ts)
      × Drains dest accounts target ts
      × IsChain ts
      × (drawn ts ≡ (if leb target (total_funds accounts) then target else total_funds accounts))
unfolding build_waterfall_transfers
build_waterfall_transfers-Drains new_id dest accounts target small =
    let (ts, e, d, u) = draw_loop-Drains dest new_id accounts 0 target small in
    let (within, covered, which) = drawn-Drains dest d in
    (
      link ts,
      ap linked_of e,
      Drains-link dest d,
      link-IsChain ts u,
      drawn-link ts ∙ least (drawn ts) target (total_funds accounts) within covered which,
    )
  where
    least : (n a b : ℕ) → n ≤ a → n ≤ b → (n ≡ a) ⊎ (n ≡ b) → n ≡ (if leb a b then a else b)
    least n a b h k (inl e) = ground arith
    least n a b h k (inr e) = ground arith
