-- ===== src/Handlers/Paging.antt =====
-- The pages of postgre-setup/go/internal/api/handlers: what the client of
-- postgre-setup/go/cmd/stress/client.go writes into a query is what a handler reads.
use playground_ledger.Prelude.{
  ℕ, zero, suc, ◌+◌, ◌/◌, ◌%◌, ◌^◌, ◌==◌, ◌≤◌, ◌<◌, ◌≡◌, refl, sym, ap, ◌∙◌, inl, inr, Bool-cases,
  none, some, map, take, drop, String, List, [], ◌∷◌, ltb, leb, ◌&&◌, ℤ, pos, negsuc, true, false,
  arith, if◌then◌else◌,
}
use playground_ledger.Middleware.{Bytes}
use playground_ledger.Prelude.Sort.{sort_by, window}
use playground_ledger.Db.{Db, Account}
use playground_ledger.Store.{Env, World, Result, ok, err, Error, auto, arrive, settle, publish}
use playground_ledger.Store.Rules.{exec-settle, Reads, Reads-Answers, auto-Commits, committed_of}
use playground_ledger.Queries.Rows.{windowed}
use playground_ledger.Queries.Accounts.{GetAllAccountsRow, join_users, get_all_accounts}
use playground_ledger.Wallet.{list_all_accounts}
use playground_ledger.Handlers.{failure, success, Request, Printers, Parsers, answer_of}
use playground_ledger.Handlers.Wallet.{user_account_response, get_all_users, internal}
use playground_ledger.Handlers.Input.{
  show, show_from, digits, atoi, page_limit, page_offset, to_int32, positive_int,
}

digits-show_from :
    (fuel n : ℕ) (text : Bytes) → n ≤ fuel → digits 0 (show_from fuel n text) ≡ digits n text
unfolding digits show_from
digits-show_from zero n text h = ground arith
digits-show_from (suc fuel) n text h = elim (Bool-cases (ltb n 10)) [
  | inl small ↦ ground arith
  | inr large ↦ ground (arith, digits-show_from fuel (n / 10) ((n % 10 + b'0') ∷ text))
]

-- A number is written with a digit in front.
pub show_from-starts :
    (fuel n : ℕ) (text : Bytes)
    → (c : ℕ) × (cs : Bytes) × (show_from fuel n text ≡ c ∷ cs) × (b'0' ≤ c)
unfolding show_from
show_from-starts zero n text = (n % 10 + b'0', text, refl, omega arith)
show_from-starts (suc fuel) n text = elim (Bool-cases (ltb n 10)) [
  | inl small ↦ (n + b'0', text, rw small refl, omega arith)
  | inr large ↦ rw large (show_from-starts fuel (n / 10) ((n % 10 + b'0') ∷ text))
]

no_sign : (c : ℕ) → b'0' ≤ c → ((c == b'-') ≡ false) × ((c == b'+') ≡ false)
no_sign c h = (ground arith, ground arith)

in_int : (n : ℕ) → n < 2 ^ 63 → positive_int (some n) ≡ some (pos n)
in_int n h = ground arith

unsigned :
    (c n : ℕ) (cs : Bytes)
    → b'0' ≤ c
    → digits 0 (c ∷ cs) ≡ some n
    → n < 2 ^ 63
    → atoi (c ∷ cs) ≡ some (pos n)
unfolding atoi
unsigned c n cs h e small =
    rw ((no_sign c h).0, (no_sign c h).1) (ap positive_int e ∙ in_int n small)

-- What `%d` prints, strconv.Atoi reads, up to the greatest int.
pub atoi-show : (n : ℕ) → n < 2 ^ 63 → atoi (show n) ≡ some (pos n)
unfolding show digits
atoi-show n h =
    let (c, cs, e, d) = show_from-starts n n [] in
    rw e (unsigned c n cs d (ap (digits 0) (sym e) ∙ digits-show_from n n [] (omega arith)) h)

pub page_limit-show :
    (default most n : ℕ)
    → n < 2 ^ 63
    → page_limit default most (show n) ≡ (if ltb 0 n && leb n most then pos n else pos default)
unfolding page_limit
page_limit-show default most n h = rw (atoi-show n h) refl

pub page_offset-show : (n : ℕ) → n < 2 ^ 63 → page_offset (show n) ≡ to_int32 n
unfolding page_offset
page_offset-show n h = rw (atoi-show n h) refl

-- The accounts of the tables, newest first, those of one time in the order of the scan.
abbrev pub scanned : (List Account → List Account) → Db → List GetAllAccountsRow
scanned scan db =
    sort_by (λ a b. leb b.account.created_at a.account.created_at)
      (join_users db.users (scan db.accounts))

-- Those of one time in the order of the table.
abbrev pub directory : Db → List GetAllAccountsRow
directory = scanned (λ accounts. accounts)

page_reply :
    (print : Printers) (w : World) (n m : ℕ) (rows : List GetAllAccountsRow) (env : Env)
    → (answer_of 200
        (internal "failed to get users")
        (map (user_account_response print))
        (publish env (settle env w (windowed (pos n) (to_int32 m) rows w.working)))).0
      ≡ (if ltb (m % 2 ^ 32) (2 ^ 31)
          then success 200 (map (user_account_response print) (take n (drop (m % 2 ^ 32) rows)))
          else failure 500 "failed to get users")
unfolding to_int32 window
page_reply print w n m rows env = elim (Bool-cases (ltb (m % 2 ^ 32) (2 ^ 31))) [
  | inl e ↦ rw e refl
  | inr e ↦ rw e refl
]

-- A client writes the limit, from 1 to 10000, and the offset, of at most 63 bits, in decimal digits.
-- If the statement meets no fault, GetAllUsers answers that page of the accounts, newest first and
-- those of one time as this statement scans them, the offset being cut to 32 bits; if that is no
-- number of 31 bits, it answers 500.
pub get_all_users-page :
    (env : Env) (parse : Parsers) (print : Printers) (r : Request) (w : World) (limit offset : ℕ)
    → 1 ≤ limit
    → limit ≤ 10000
    → offset < 2 ^ 63
    → r.limit ≡ show limit
    → r.offset ≡ show offset
    → env.fault w.tick ≡ none
    → (get_all_users env parse print r w).0 ≡ (
        if ltb (offset % 2 ^ 32) (2 ^ 31)
        then success 200 (
            map (user_account_response print) (
              take limit (
                drop
                  (offset % 2 ^ 32)
                  (scanned (env.plan w.tick) (env.others w.tick w.committed)))))
        else failure 500 "failed to get users")
unfolding get_all_users list_all_accounts auto arrive get_all_accounts
get_all_users-page env parse print r w limit offset h1 h2 h3 e1 e2 calm =
    rw
      (
        e1,
        e2,
        page_limit-show 1000 10000 limit (omega arith),
        page_offset-show offset h3,
        in_bounds,
        exec-settle env (get_all_accounts (env.plan w.tick) (pos limit) (to_int32 offset))
            (record w { working = w.committed }) calm,
      )
      (page_reply print _ limit offset _ env)
  where
    in_bounds : (ltb 0 limit && leb limit 10000) ≡ true
    in_bounds = ground arith

pub answered_world :
    {A B : Type 0} (P : World → Type 0) (s : ℕ) (errors : Error → ℕ × String) (f : A → B)
    (r : Result A × World)
    → P r.1
    → P (answer_of s errors f r).1
answered_world P s errors f (ok a, w) h = h
answered_world P s errors f (err e, w) h = h

windowed-Reads :
    (limit offset : ℤ) (rows : List GetAllAccountsRow) (db : Db)
    → Reads db (windowed limit offset rows db)
unfolding window
windowed-Reads (pos n) (pos m) rows db = refl
windowed-Reads (pos n) (negsuc m) rows db = tt
windowed-Reads (negsuc n) (pos m) rows db = tt
windowed-Reads (negsuc n) (negsuc m) rows db = tt

-- The handler leaves the directory as other sessions leave it.
pub get_all_users-directory :
    (env : Env) (parse : Parsers) (print : Printers) (r : Request) (w : World)
    (rows : List GetAllAccountsRow)
    → ((n : ℕ) (db : Db) → directory (env.others n db) ≡ directory db)
    → directory w.committed ≡ rows
    → directory (get_all_users env parse print r w).1.committed ≡ rows
unfolding get_all_users list_all_accounts get_all_accounts
get_all_users-directory env parse print r w rows keeps h =
    let Same = λ (db : Db). directory db ≡ rows in
    answered_world (λ w'. Same w'.committed) _ _ _ _
      (committed_of Same _ (
        auto-Commits env Same (λ _. Same) Same (λ n db e. keeps n db ∙ e)
          (get_all_accounts (env.plan w.tick) (page_limit 1000 10000 r.limit)
            (page_offset r.offset))
          (λ db e. e) (λ n t db e. Reads-Answers Same _ db e (windowed-Reads _ _ _ db)) w h))
