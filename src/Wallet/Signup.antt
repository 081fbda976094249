-- ===== src/Wallet/Signup.antt =====
-- CreateUser and GetOrCreateUser of postgre-setup/go/internal/wallet/service.go: who is registered,
-- and the money that a signup brings.
use playground_ledger.Prelude.{ℕ, ◌≡◌, refl, String, pos, ◌+ℤ◌, int_laws}
use playground_ledger.Prelude.Table.{sum}
use playground_ledger.Db.{Db}
use playground_ledger.Store.{Env, World}
use playground_ledger.Store.Hoare.{Answers}
use playground_ledger.Queries.Laws.{reject_if-Answers}
use playground_ledger.Queries.Users.{create_user}
use playground_ledger.Queries.Accounts.{create_account}
use playground_ledger.Ledger.Totals.{
  total, credit_account-total, create_transaction-total, create_ledger_entry-total,
}
use playground_ledger.Ledger.Invariants.{Gains, Commits-Gains}
use playground_ledger.Wallet.{signup_bonus_amount, bonus_entry, register_user}
use playground_ledger.Wallet.Opening.{SignupEffects, register_user-Ends}

create_user-total :
    (external_id email : String) (n t : ℕ) (db : Db)
    → Answers (λ _ db'. total db' ≡ total db) (create_user external_id email n t db)
unfolding create_user total
create_user-total external_id email n t db = search reject_if-Answers

-- A new account is empty.
create_account-total :
    (user_id : ℕ) (currency : String) (n t : ℕ) (db : Db)
    → Answers (λ _ db'. total db' ≡ total db) (create_account user_id currency n t db)
unfolding create_account total sum
create_account-total user_id currency n t db = opened (omega int_laws)
  where
    opened :
        pos 0 +ℤ total db ≡ total db
        → Answers (λ _ db'. total db' ≡ total db) (create_account user_id currency n t db)
    opened empty = search reject_if-Answers

signup-total : SignupEffects total (λ c. c +ℤ signup_bonus_amount)
signup-total = record {
  gain = λ id d. d +ℤ signup_bonus_amount;
  note = λ id d. d;
  users = create_user-total;
  opens = λ user_id. create_account-total user_id "USD";
  credits = λ id. credit_account-total id signup_bonus_amount;
  records = create_transaction-total;
  notes = λ id txn key. create_ledger_entry-total (bonus_entry id txn key);
  settles = λ id v. refl;
}

-- Let other sessions keep the sum of all balances. Then creating a user raises it by the signup
-- bonus if it succeeds, and leaves it as it was if it fails.
pub register_user-total :
    (env : Env) (signup_key : String → ℕ) (external_id email : String) (w : World)
    → ((n : ℕ) (db : Db) → total (env.others n db) ≡ total db)
    → Gains
        (total w.committed)
        signup_bonus_amount
        (register_user env signup_key external_id email w)
register_user-total env signup_key external_id email w keeps =
    Commits-Gains (total w.committed) signup_bonus_amount _ _ refl (
      register_user-Ends env signup_key total _ signup-total (total w.committed) keeps external_id
        email w refl)
