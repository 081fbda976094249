-- ===== src/Client/Pages.antt =====
-- fetchAllAccounts of postgre-setup/go/cmd/stress/stress.go, page by page, from GetAllUsers of
-- postgre-setup/go/internal/api/handlers/wallet.go.
pub mod Directory
use playground_ledger.Prelude.{
  ℕ, zero, suc, ◌+◌, ◌*◌, ◌==◌, ◌≤◌, ◌<◌, ◌≡◌, refl, sym, ap, ◌∙◌, subst, arith, Bool-cases, inl,
  inr, true, false, Option, none, some, List, [], ◌∷◌, ◌++◌, length, take, drop, ltb, String,
  if◌then◌else◌,
}
use playground_ledger.Store.{World}
use playground_ledger.Handlers.{Reply, failure, success, Handler, Request}
use playground_ledger.Handlers.Input.{show}

-- The accounts, or an error, or that the fuel is spent.
pub data Fetched (A : Type 0) : Type 0 where
  out_of_fuel : Fetched A
  failed : Fetched A
  fetched : List A → Fetched A

abbrev pub page_size : ℕ
page_size = 1000

-- The query of GetUsers.
abbrev pub users_request : ℕ → ℕ → Request
users_request limit offset = record {
  account_id = [];
  body = [];
  idempotency_key = none;
  limit = show limit;
  offset = show offset;
}

module _ {A : Type 0} (get_users : ℕ → ℕ → Handler (List A)) where
  -- A status but 200 is an error; a page that is not full is the last.
  abbrev next_page : List A → (List A → World → Fetched A) → Reply (List A) × World → Fetched A
  next_page all rest (failure s m, w) = failed
  next_page all rest (success s page, w) =
      if s == 200
      then (if ltb (length page) page_size then fetched (all ++ page) else rest (all ++ page) w)
      else failed

  unfoldable pub fetch_pages : ℕ → ℕ → List A → World → Fetched A
  fetch_pages zero offset all w = out_of_fuel
  fetch_pages (suc fuel) offset all w =
      next_page all (fetch_pages fuel (offset + page_size)) (get_users page_size offset w)

  unfoldable pub fetch_all_accounts : ℕ → World → Fetched A
  unfolding fetch_pages
  fetch_all_accounts fuel w = fetch_pages fuel 0 [] w

of_ltb : (m n : ℕ) → ltb m n ≡ true → m < n
of_ltb m n h = ground arith

not_ltb : (m n : ℕ) → ltb m n ≡ false → n ≤ m
not_ltb m n h = ground arith

module _ {A : Type 0} where
  take_none : (k : ℕ) → take {A = A} k [] ≡ []
  take_none zero = refl
  take_none (suc k) = refl

  -- The same number of elements.
  take_same : (m n : ℕ) (xs : List A) → m ≡ n → take m xs ≡ take n xs
  take_same m n xs h = ap (λ k. take k xs) h

  take-append : (m n : ℕ) (xs : List A) → take m xs ++ take n (drop m xs) ≡ take (m + n) xs
  take-append zero n xs = take_same n (0 + n) xs (omega arith)
  take-append (suc m) n [] = take_none n ∙ sym (take_none (suc m + n))
  take-append (suc m) n (x ∷ xs) =
      ap (λ ys. x ∷ ys) (take-append m n xs)
      ∙ take_same (suc (m + n)) (suc m + n) (x ∷ xs) (omega arith)

  take_short : (n : ℕ) (xs : List A) → length (take n xs) < n → take n xs ≡ xs
  take_short zero xs h = absurd (omega arith)
  take_short (suc n) [] h = refl
  take_short (suc n) (x ∷ xs) h = ap (λ ys. x ∷ ys) (take_short n xs (omega arith))

  short_page :
      (m n : ℕ) (xs : List A)
      → length (take n (drop m xs)) < n
      → take m xs ++ take n (drop m xs) ≡ xs
  short_page zero n xs h = take_short n xs h
  short_page (suc m) n [] h = take_none n
  short_page (suc m) n (x ∷ xs) h = ap (λ ys. x ∷ ys) (short_page m n xs h)

  full_take : (n : ℕ) (xs : List A) → n ≤ length (take n xs) → n ≤ length xs
  full_take zero xs h = omega arith
  full_take (suc n) [] h = h
  full_take (suc n) (x ∷ xs) h = omega (arith, full_take n xs (omega arith))

  full_page : (m n : ℕ) (xs : List A) → 0 < n → n ≤ length (take n (drop m xs)) → m + n ≤ length xs
  full_page zero n xs p h = omega (arith, full_take n xs h)
  full_page (suc m) zero [] p h = absurd (omega arith)
  full_page (suc m) (suc n) [] p h = absurd (omega arith)
  full_page (suc m) n (x ∷ xs) p h = omega (arith, full_page m n xs p h)

  -- What a query of a page answers, in all worlds with a property that it keeps: that page.
  module _ (get_users : ℕ → ℕ → Handler (List A)) (rows : List A) (Inv : World → Type 0)
      (pages : (offset : ℕ) (w : World)
        → offset ≤ length rows
        → Inv w
        → ((get_users page_size offset w).0 ≡ success 200 (take page_size (drop offset rows)))
          × Inv (get_users page_size offset w).1) where
    abbrev Fetches : ℕ → ℕ → Type 0
    Fetches fuel offset =
        (w : World)
        → offset ≤ length rows
        → length rows < offset + page_size * fuel
        → Inv w
        → fetch_pages get_users fuel offset (take offset rows) w ≡ fetched rows

    after_page :
        (fuel offset : ℕ) (reply : Reply (List A)) (w : World)
        → ((offset : ℕ) → Fetches fuel offset)
        → length rows < offset + page_size * suc fuel
        → reply ≡ success 200 (take page_size (drop offset rows))
        → Inv w
        → next_page get_users
            (take offset rows)
            (fetch_pages get_users fuel (offset + page_size))
            (reply, w)
          ≡ fetched rows
    after_page fuel offset reply w rest h e inv =
        let page = take page_size (drop offset rows) in
        elim (Bool-cases (ltb (length page) page_size)) [
          | inl short ↦
              rw (e, short) (ap fetched (short_page offset page_size rows (of_ltb _ _ short)))
          | inr full ↦
              rw (e, full)
                (ap (λ all. fetch_pages get_users fuel (offset + page_size) all w)
                    (take-append offset page_size rows)
                  ∙ rest (offset + page_size) w
                      (full_page offset page_size rows (omega arith) (not_ltb _ _ full))
                      (omega arith) inv)
        ]

    fetch_pages-fetched : (fuel offset : ℕ) → Fetches fuel offset
    unfolding fetch_pages
    fetch_pages-fetched zero offset w within enough inv = absurd (omega arith)
    fetch_pages-fetched (suc fuel) offset w within enough inv =
        let (answer, kept) = pages offset w within inv in
        after_page fuel offset (get_users page_size offset w).0 (get_users page_size offset w).1
          (fetch_pages-fetched fuel) enough answer kept

    -- Let every page that is asked for, from within the rows, be answered with that page. Then the
    -- loop gets all rows, if it has fuel for one page in a thousand rows and one more.
    pub fetch_all_accounts-fetched :
        (fuel : ℕ) (w : World)
        → length rows < page_size * fuel
        → Inv w
        → fetch_all_accounts get_users fuel w ≡ fetched rows
    unfolding fetch_all_accounts
    fetch_all_accounts-fetched fuel w enough inv =
        fetch_pages-fetched fuel 0 w (omega arith) (omega arith) inv
