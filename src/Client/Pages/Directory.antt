-- ===== src/Client/Pages/Directory.antt =====
-- fetchAllAccounts of postgre-setup/go/cmd/stress/stress.go over the handler GetAllUsers of
-- postgre-setup/go/internal/api/handlers/wallet.go.
use playground_ledger.Prelude.{
  ℕ, ◌*◌, ◌%◌, ◌^◌, ◌<◌, ◌≡◌, refl, sym, ap, ◌∙◌, arith, true, none, List, map, length, length-map,
  take-map, drop-map, take, drop, ltb,
}
use playground_ledger.Db.{Db}
use playground_ledger.Store.{Env, World}
use playground_ledger.Handlers.{success, Handler, Printers, Parsers}
use playground_ledger.Handlers.Wallet.{get_all_users, user_account_response, UserAccountResponse}
use playground_ledger.Handlers.Paging.{
  directory, scanned, get_all_users-page, get_all_users-directory,
}
use playground_ledger.Client.Pages.{
  fetch_all_accounts, fetched, users_request, page_size, fetch_all_accounts-fetched,
}

module _ (env : Env) (parse : Parsers) (print : Printers) (w : World)
    (calm : (n : ℕ) → env.fault n ≡ none)
    (keeps : (n : ℕ) (db : Db) → directory (env.others n db) ≡ directory db)
    (steady : (n : ℕ) (db : Db)
      → directory db ≡ directory w.committed
      → scanned (env.plan n) db ≡ directory db)
    (small : length (directory w.committed) < 2 ^ 31) where
  abbrev get_users : ℕ → ℕ → Handler (List UserAccountResponse)
  get_users limit offset = get_all_users env parse print (users_request limit offset)

  abbrev rows : List UserAccountResponse
  rows = map (user_account_response print) (directory w.committed)

  fits :
      (offset : ℕ)
      → offset < 2 ^ 31
      → (ltb (offset % 2 ^ 32) (2 ^ 31) ≡ true) × (offset % 2 ^ 32 ≡ offset)
  fits offset h = (ground arith, omega arith)

  -- The page that the client asks for.
  page_of_directory :
      (offset : ℕ) (w' : World)
      → offset < 2 ^ 31
      → directory w'.committed ≡ directory w.committed
      → (get_users page_size offset w').0 ≡ success 200 (take page_size (drop offset rows))
  page_of_directory offset w' h same =
      get_all_users-page env parse print (users_request page_size offset) w' page_size offset
        (omega arith) (omega arith) (omega arith) refl refl (calm w'.tick)
      ∙ rw
          (
            (fits offset h).0,
            (fits offset h).1,
            steady w'.tick (env.others w'.tick w'.committed) (keeps w'.tick w'.committed ∙ same),
            keeps w'.tick w'.committed,
            same,
          )
          (ap (success 200) (
            sym (
              ap (take page_size)
                (drop-map (user_account_response print) offset (directory w.committed))
              ∙ take-map (user_account_response print) page_size
                  (drop offset (directory w.committed)))))

  -- Let no statement fail, let other sessions leave the directory alone, and let every statement list
  -- it in one order, also accounts of one time, whatever scan it uses; and let its length have 31
  -- bits. Then the client gets the whole directory as the handler prints it, page by page, and asks
  -- for no more pages than one in a thousand accounts and one more.
  pub fetch_all_accounts-directory :
      (fuel : ℕ)
      → length (directory w.committed) < page_size * fuel
      → fetch_all_accounts get_users fuel w ≡ fetched rows
  fetch_all_accounts-directory fuel enough =
      fetch_all_accounts-fetched get_users rows
        (λ w'. directory w'.committed ≡ directory w.committed)
        (λ offset w' within same. (
          page_of_directory offset w' (omega (arith, length-rows)) same,
          get_all_users-directory env parse print (users_request page_size offset) w' _ keeps same,
        ))
        fuel w (omega (arith, length-rows)) refl
    where
      length-rows : length rows ≡ length (directory w.committed)
      length-rows = length-map (user_account_response print) (directory w.committed)
