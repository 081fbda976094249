-- ===== src/Client/Verify/Draws.antt =====
-- The accounts that scenario2 of postgre-setup/go/cmd/stress/verify.go draws for its transfers.
use playground_ledger.Prelude.{
  ℕ, zero, suc, ◌+◌, ◌<◌, ◌≡◌, refl, ap, arith, some, List, [], ◌∷◌, All, length,
}
use playground_ledger.Client.Verify.{AccountInfo, at_index, destination_index, random_transfers}

-- The source and the destination are two of the accounts.
abbrev pub IsDrawn : List AccountInfo → AccountInfo × AccountInfo → Type 0
IsDrawn accounts (src, dst) =
    (i j : ℕ) × (at_index accounts i ≡ some src) × (at_index accounts j ≡ some dst) × ¬ (i ≡ j)

-- What rand.Intn(n) and rand.Intn(n - 1) give.
abbrev pub InRange : ℕ → ℕ × ℕ → Type 0
InRange n (src, dst) = (src < n) × (dst + 1 < n)

at_index_within :
    (accounts : List AccountInfo) (i : ℕ)
    → i < length accounts
    → (a : AccountInfo) × (at_index accounts i ≡ some a)
at_index_within [] i h = absurd (omega arith)
at_index_within (a ∷ accounts) zero h = (a, refl)
at_index_within (a ∷ accounts) (suc i) h = at_index_within accounts i (omega arith)

pub random_transfers-IsDrawn :
    (accounts : List AccountInfo) (draws : List (ℕ × ℕ))
    → All (InRange (length accounts)) draws
    → (xs : List (AccountInfo × AccountInfo)) × (random_transfers accounts draws ≡ some xs)
      × All (IsDrawn accounts) xs
      × (length xs ≡ length draws)
unfolding random_transfers
random_transfers-IsDrawn accounts [] h = ([], refl, tt, refl)
random_transfers-IsDrawn accounts ((i, d) ∷ draws) h =
    let j = destination_index i d in
    let (src, is_src) = at_index_within accounts i h.0.0 in
    let (dst, is_dst) = at_index_within accounts j (within d h.0.1) in
    let (xs, is_xs, drawn, len) = random_transfers-IsDrawn accounts draws h.1 in
    (
      (src, dst) ∷ xs,
      rw (is_src, is_dst, is_xs) refl,
      ((i, j, is_src, is_dst, apart), drawn),
      ap (λ n. suc n) len,
    )
  where
    within : (d : ℕ) → d + 1 < length accounts → destination_index i d < length accounts
    within d h = ground arith

    apart : ¬ (i ≡ destination_index i d)
    apart e = ground arith
