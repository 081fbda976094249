-- ===== src/Client/Seeding.antt =====
-- autoSeed of postgre-setup/go/cmd/stress/stress.go: users are made in batches. `seed n start` is
-- what the request for `n` users from `start` on does: the number of those made, or an error.
use playground_ledger.Prelude.{
  ℕ, zero, suc, ◌+◌, ◌-◌, ◌≤◌, ◌≡◌, refl, ap, inl, inr, arith, Bool-cases, true, false, Option,
  List, [], ◌∷◌, subst, none, some, ltb, if◌then◌else◌,
}

-- The answer of the loop, or that its fuel is spent.
pub data Seeded : Type 0 where
  out_of_fuel : Seeded
  failed : Seeded
  done : ℕ → Seeded

abbrev pub seed_batch_size : ℕ
seed_batch_size = 10000

abbrev pub batch_of : ℕ → ℕ
batch_of remaining = if ltb seed_batch_size remaining then seed_batch_size else remaining

-- What the loop may answer where the server makes no more users than it is asked for.
abbrev pub AtMost : ℕ → Seeded → Type 0
AtMost most out_of_fuel = ⊥
AtMost most failed = Unit {0}
AtMost most (done total) = total ≤ most

-- A request for so many users keeps what holds of the server, and makes at most as many.
abbrev pub Makes : {S : Type 0} → (S → Type 0) → ℕ → Option ℕ × S → Type 0
Makes Inv n (none, s) = Inv s
Makes Inv n (some created, s) = Inv s × (created ≤ n)

module _ {S : Type 0} (seed : ℕ → ℕ → S → Option ℕ × S) where
  abbrev next_batch : ℕ → (ℕ → S → Seeded × S) → Option ℕ × S → Seeded × S
  next_batch total rest (none, s) = (failed, s)
  next_batch total rest (some created, s) = rest (total + created) s

  -- remaining, startIndex and totalCreated.
  unfoldable pub seed_loop : ℕ → ℕ → ℕ → ℕ → S → Seeded × S
  seed_loop zero remaining start total s = (if ltb 0 remaining then out_of_fuel else done total, s)
  seed_loop (suc fuel) remaining start total s =
      let batch = batch_of remaining in
      let rest = seed_loop fuel (remaining - batch) (start + batch) in
      if ltb 0 remaining then next_batch total rest (seed batch start s) else (done total, s)

  -- Every round makes a user or more, so that `count` rounds are enough.
  unfoldable pub auto_seed : ℕ → S → Seeded × S
  unfolding seed_loop
  auto_seed count s = seed_loop count count 0 0 s

  shrinks :
      (fuel remaining : ℕ)
      → ltb 0 remaining ≡ true
      → remaining ≤ suc fuel
      → remaining - batch_of remaining ≤ fuel
  shrinks fuel remaining more h = ground arith

  batch_of-bounds :
      (remaining : ℕ)
      → ltb 0 remaining ≡ true
      → (1 ≤ batch_of remaining)
        × (batch_of remaining ≤ 10000)
        × (batch_of remaining + (remaining - batch_of remaining) ≡ remaining)
  batch_of-bounds remaining more = (ground arith, ground arith, ground arith)

  zero_left : (n : ℕ) → n ≤ 0 → ltb 0 n ≡ false
  zero_left n h = ground arith

  nothing_left : (n total : ℕ) → ltb 0 n ≡ false → done total ≡ done (total + n)
  nothing_left n total h = ap done (ground arith)

  module _ (Inv : S → Type 0)
      (makes : (n start : ℕ) (s : S)
        → 1 ≤ n
        → n ≤ 10000
        → Inv s
        → Makes Inv n (seed n start s)) where
    abbrev Seeds : ℕ → Seeded × S → Type 0
    Seeds most (r, s) = AtMost most r × Inv s

    next_batch-Seeds :
        (n total most : ℕ) (rest : ℕ → S → Seeded × S) (r : Option ℕ × S)
        → Makes Inv n r
        → ((created : ℕ) (s : S) → created ≤ n → Inv s → Seeds most (rest (total + created) s))
        → Seeds most (next_batch total rest r)
    next_batch-Seeds n total most rest (none, s) made go_on = (tt, made)
    next_batch-Seeds n total most rest (some created, s) made go_on = go_on created s made.1 made.0

    seed_loop-Seeds :
        (fuel remaining start total most : ℕ) (s : S)
        → remaining ≤ fuel
        → total + remaining ≤ most
        → Inv s
        → Seeds most (seed_loop fuel remaining start total s)
    unfolding seed_loop
    seed_loop-Seeds zero remaining start total most s h room inv =
        rw (zero_left remaining h) (omega (arith, room), inv)
    seed_loop-Seeds (suc fuel) remaining start total most s h room inv =
        elim (Bool-cases (ltb 0 remaining)) [
          | inl more ↦
              let (least, largest, rest) = batch_of-bounds remaining more in
              rw more (
                next_batch-Seeds (batch_of remaining) total most
                  (seed_loop fuel (remaining - batch_of remaining) (start + batch_of remaining)) _
                  (makes (batch_of remaining) start s least largest inv)
                  (λ created s1 at_most inv1.
                    seed_loop-Seeds fuel (remaining - batch_of remaining)
                      (start + batch_of remaining) (total + created) most s1
                      (shrinks fuel remaining more h) (omega (arith, rest, at_most, room)) inv1))
          | inr none_left ↦ rw none_left (omega (arith, room), inv)
        ]

    -- Let a request for 1 to 10000 users keep what holds of the server and make no more users than
    -- it asks for. Then autoSeed ends, with an error or with at most as many users as are wanted,
    -- and what held of the server still does.
    pub auto_seed-ends :
        (count : ℕ) (s : S) → Inv s → AtMost count (auto_seed count s).0 × Inv (auto_seed count s).1
    unfolding auto_seed
    auto_seed-ends count s inv =
        seed_loop-Seeds count count 0 0 count s (omega arith) (omega arith) inv

-- A server that keeps the requests, the last one first: how many users, and from where on.
abbrev pub logged :
    {S : Type 0}
    → (ℕ → ℕ → S → Option ℕ × S)
    → ℕ
    → ℕ
    → S × List (ℕ × ℕ)
    → Option ℕ × (S × List (ℕ × ℕ))
logged seed n start (s, log) =
    let (created, s') = seed n start s in (created, (s', (n, start) ∷ log))

-- The requests, the last one first, ask for the users from 0 up to this one, each of them once, and
-- for 1 to 10000 at a time.
unfoldable pub Covers : List (ℕ × ℕ) → ℕ → Type 0
Covers [] upto = upto ≡ 0
Covers ((n, start) ∷ log) upto = (1 ≤ n) × (n ≤ 10000) × (start + n ≡ upto) × Covers log start

-- All users have been asked for once the loop is done; a loop that fails has asked for some.
abbrev pub Asked : ℕ → Seeded → List (ℕ × ℕ) → Type 0
Asked count out_of_fuel log = ⊥
Asked count failed log = (upto : ℕ) × (upto ≤ count) × Covers log upto
Asked count (done total) log = Covers log count

module _ {S : Type 0} (seed : ℕ → ℕ → S → Option ℕ × S) where
  abbrev AskedBy : ℕ → Seeded × (S × List (ℕ × ℕ)) → Type 0
  AskedBy count (r, (s, log)) = Asked count r log

  next_batch-Asked :
      (count total n start : ℕ) (rest : ℕ → S × List (ℕ × ℕ) → Seeded × (S × List (ℕ × ℕ)))
      (r : Option ℕ × S) (log : List (ℕ × ℕ))
      → start + n ≤ count
      → Covers ((n, start) ∷ log) (start + n)
      → ((total : ℕ) (s : S) → AskedBy count (rest total (s, (n, start) ∷ log)))
      → AskedBy count (next_batch (logged seed) total rest (r.0, (r.1, (n, start) ∷ log)))
  next_batch-Asked count total n start rest (none, s) log within covers go_on =
      (start + n, within, covers)
  next_batch-Asked count total n start rest (some created, s) log within covers go_on =
      go_on (total + created) s

  seed_loop-Asked :
      (fuel remaining start total count : ℕ) (s : S) (log : List (ℕ × ℕ))
      → remaining ≤ fuel
      → start + remaining ≡ count
      → Covers log start
      → AskedBy count (seed_loop (logged seed) fuel remaining start total (s, log))
  unfolding seed_loop Covers
  seed_loop-Asked zero remaining start total count s log h sum covers =
      rw (zero_left (logged seed) remaining h) (subst (Covers log) (omega (arith, sum, h)) covers)
  seed_loop-Asked (suc fuel) remaining start total count s log h sum covers =
      let batch = batch_of remaining in
      elim (Bool-cases (ltb 0 remaining)) [
        | inl more ↦
            let (least, most, rest) = batch_of-bounds (logged seed) remaining more in
            let asked = one_more log batch start least most covers in
            rw more (
              next_batch-Asked count total batch start
                (seed_loop (logged seed) fuel (remaining - batch) (start + batch))
                (seed batch start s) log (omega (arith, sum, rest)) asked
                (λ total' s'.
                  seed_loop-Asked fuel (remaining - batch) (start + batch) total' count s'
                    ((batch, start) ∷ log) (shrinks (logged seed) fuel remaining more h)
                    (omega (arith, sum, rest)) asked))
        | inr none_left ↦
            rw none_left
              (subst (Covers log) (nothing_more remaining start count none_left sum) covers)
      ]
    where
      one_more :
          (log : List (ℕ × ℕ)) (n start : ℕ)
          → 1 ≤ n
          → n ≤ 10000
          → Covers log start
          → Covers ((n, start) ∷ log) (start + n)
      one_more log n start least most covers = (least, most, refl, covers)

      nothing_more :
          (remaining start count : ℕ)
          → ltb 0 remaining ≡ false
          → start + remaining ≡ count
          → start ≡ count
      nothing_more remaining start count e sum = ground arith

  -- Whatever the server answers, autoSeed asks for the users from 0 on, one batch after the other:
  -- each of them in one request and no other, 1 to 10000 in a request. Once it is done it has asked
  -- for all that are wanted; if it fails, for no more than those.
  pub auto_seed-Asked :
      (count : ℕ) (s : S)
      → Asked count
          (auto_seed (logged seed) count (s, [])).0
          (auto_seed (logged seed) count (s, [])).1.1
  unfolding auto_seed Covers
  auto_seed-Asked count s =
      seed_loop-Asked count count 0 0 count s [] (omega arith) (omega arith) (omega arith)
