-- ===== src/TigerBeetle/Chunks.antt =====
-- The loops of tigerbeetle-setup/bench/tb.go that send accounts and transfers in chunks of at most
-- 8189, the limit of a batch. `accepts` is whether the server takes a chunk; the loop ends at the
-- first that it does not take.
use playground_ledger.Prelude.{
  ℕ, zero, suc, ◌-◌, ◌≤◌, ◌≡◌, refl, ap, ◌∙◌, arith, Bool, Bool-cases, true, false, inl, inr, List,
  [], ◌∷◌, ◌++◌, length, take, drop, All, ltb, if◌then◌else◌,
}

abbrev pub batch_limit : ℕ
batch_limit = 8189

-- The chunks that were sent, and whether all of them were taken.
pub record Sent (A : Type 0) : Type 0 where
  pub chunks : List (List A)
  pub complete : Bool

abbrev pub spent : {A : Type 0} → Sent A
spent = record { chunks = []; complete = false }

unfoldable pub flatten : {A : Type 0} → List (List A) → List A
flatten [] = []
flatten (xs ∷ xss) = xs ++ flatten xss

module _ {A : Type 0} (accepts : List A → Bool) where
  abbrev send_chunk : List A → Sent A → Sent A
  send_chunk chunk rest =
      if accepts chunk
      then record rest { chunks = chunk ∷ rest.chunks }
      else record { chunks = chunk ∷ []; complete = false }

  abbrev chunk_size : List A → ℕ
  chunk_size xs = if ltb (length xs) batch_limit then length xs else batch_limit

  unfoldable pub send_loop : ℕ → List A → Sent A
  send_loop fuel [] = record { chunks = []; complete = true }
  send_loop zero (x ∷ xs) = spent
  send_loop (suc fuel) (x ∷ xs) =
      send_chunk (take (chunk_size (x ∷ xs)) (x ∷ xs))
        (send_loop fuel (drop (chunk_size (x ∷ xs)) (x ∷ xs)))

  unfoldable pub send_chunks : List A → Sent A
  unfolding send_loop
  send_chunks xs = send_loop (length xs) xs

  abbrev pub Fits : List A → Type 0
  Fits chunk = (1 ≤ length chunk) × (length chunk ≤ batch_limit)

  length-take : (n : ℕ) (xs : List A) → n ≤ length xs → length (take n xs) ≡ n
  length-take zero xs h = refl
  length-take (suc n) [] h = absurd (omega arith)
  length-take (suc n) (x ∷ xs) h = omega (arith, length-take n xs (omega arith))

  chunk_size-bounds :
      (x : A) (xs : List A)
      → (1 ≤ chunk_size (x ∷ xs))
        × (chunk_size (x ∷ xs) ≤ batch_limit)
        × (chunk_size (x ∷ xs) ≤ length (x ∷ xs))
  chunk_size-bounds x xs = (ground arith, ground arith, ground arith)

  take-Fits : (x : A) (xs : List A) → Fits (take (chunk_size (x ∷ xs)) (x ∷ xs))
  take-Fits x xs =
      let (least, most, within) = chunk_size-bounds x xs in
      let e = length-take (chunk_size (x ∷ xs)) (x ∷ xs) within in
      (omega (arith, e, least), omega (arith, e, most))

  send_chunk-Fits :
      (chunk : List A) (rest : Sent A)
      → Fits chunk
      → All Fits rest.chunks
      → All Fits (send_chunk chunk rest).chunks
  send_chunk-Fits chunk rest h hs = elim (Bool-cases (accepts chunk)) [
    | inl taken ↦ rw taken (h, hs)
    | inr refused ↦ rw refused (h, tt)
  ]

  send_loop-Fits : (fuel : ℕ) (xs : List A) → All Fits (send_loop fuel xs).chunks
  unfolding send_loop
  send_loop-Fits fuel [] = tt
  send_loop-Fits zero (x ∷ xs) = tt
  send_loop-Fits (suc fuel) (x ∷ xs) =
      send_chunk-Fits (take (chunk_size (x ∷ xs)) (x ∷ xs))
        (send_loop fuel (drop (chunk_size (x ∷ xs)) (x ∷ xs))) (take-Fits x xs)
        (send_loop-Fits fuel (drop (chunk_size (x ∷ xs)) (x ∷ xs)))

  take-drop : (n : ℕ) (xs : List A) → take n xs ++ drop n xs ≡ xs
  take-drop zero xs = refl
  take-drop (suc n) [] = refl
  take-drop (suc n) (x ∷ xs) = ap (λ ys. x ∷ ys) (take-drop n xs)

  length-drop : (n : ℕ) (xs : List A) → length (drop n xs) ≡ length xs - n
  length-drop zero xs = omega arith
  length-drop (suc n) [] = omega arith
  length-drop (suc n) (x ∷ xs) = omega (arith, length-drop n xs)

  shrinks :
      (fuel : ℕ) (x : A) (xs : List A)
      → length (x ∷ xs) ≤ suc fuel
      → length (drop (chunk_size (x ∷ xs)) (x ∷ xs)) ≤ fuel
  shrinks fuel x xs h =
      omega (arith, length-drop (chunk_size (x ∷ xs)) (x ∷ xs), (chunk_size-bounds x xs).0)

  module _ (all : (chunk : List A) → accepts chunk ≡ true) where
    send_loop-flatten :
        (fuel : ℕ) (xs : List A)
        → length xs ≤ fuel
        → (flatten (send_loop fuel xs).chunks ≡ xs) × ((send_loop fuel xs).complete ≡ true)
    unfolding send_loop flatten
    send_loop-flatten fuel [] h = (refl, refl)
    send_loop-flatten zero (x ∷ xs) h = absurd (omega arith)
    send_loop-flatten (suc fuel) (x ∷ xs) h =
        let n = chunk_size (x ∷ xs) in
        let (same, complete) = send_loop-flatten fuel (drop n (x ∷ xs)) (shrinks fuel x xs h) in
        (
          rw (all (take n (x ∷ xs))) (ap (λ ys. take n (x ∷ xs) ++ ys) same ∙ take-drop n (x ∷ xs)),
          rw (all (take n (x ∷ xs))) complete,
        )

  -- Let the server take every chunk. Then the loop ends, the chunks are, one after the other, all that
  -- was to be sent, and each has from 1 to 8189 elements.
  pub send_chunks-flatten :
      (xs : List A)
      → ((chunk : List A) → accepts chunk ≡ true)
      → (flatten (send_chunks xs).chunks ≡ xs)
        × ((send_chunks xs).complete ≡ true)
        × All Fits (send_chunks xs).chunks
  unfolding send_chunks
  send_chunks-flatten xs all =
      let (same, complete) = send_loop-flatten all (length xs) xs (omega arith) in
      (same, complete, send_loop-Fits (length xs) xs)
