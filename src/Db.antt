-- ===== src/Db.antt =====
-- postgre-setup/go/internal/db/generated/models.go: the rows, and the database as its tables.
-- A UUID is the number of its 128 bits, whose order is that of its printed form; a nullable
-- column is an Option. The texts that the source takes from a fixed set are data types.
use playground_ledger.Prelude.{ℕ, ℤ, String, Option, List}

pub data EntryType : Type 0 where
  debit credit : EntryType

pub data TransactionType : Type 0 where
  transfer deposit withdrawal : TransactionType

pub data TransactionStatus : Type 0 where
  completed : TransactionStatus

-- The values that the constraint valid_grant_status admits.
pub data GrantStatus : Type 0 where
  active expired depleted revoked : GrantStatus

-- The values that the constraint valid_entry_type of grant_ledger_entries admits.
pub data GrantEntryType : Type 0 where
  drawdown expiration revocation : GrantEntryType

-- JSON bytes; nil is the empty list.
abbrev pub Metadata : Type 0
Metadata = List ℕ

pub record User : Type 0 where
  pub id : ℕ
  pub external_id : String
  pub email : String
  pub created_at : ℕ
  pub updated_at : ℕ

pub record Account : Type 0 where
  pub id : ℕ
  pub user_id : ℕ
  pub currency : String
  pub balance : ℤ
  pub pending_balance : ℤ
  pub created_at : ℕ
  pub updated_at : ℕ

pub record Transaction : Type 0 where
  pub id : ℕ
  pub transaction_type : TransactionType
  pub status : TransactionStatus
  pub source_account_id : Option ℕ
  pub destination_account_id : Option ℕ
  pub amount : ℤ
  pub currency : String
  pub fee_amount : Option ℤ
  pub fee_account_id : Option ℕ
  pub idempotency_key : ℕ
  pub metadata : Metadata
  pub created_at : ℕ

pub record LedgerEntry : Type 0 where
  pub id : ℕ
  pub account_id : ℕ
  pub entry_type : EntryType
  pub amount : ℤ
  pub balance_after : ℤ
  pub transaction_id : Option ℕ
  pub description : Option String
  pub metadata : Metadata
  pub idempotency_key : Option ℕ
  pub created_at : ℕ

pub record CreditGrant : Type 0 where
  pub id : ℕ
  pub account_id : ℕ
  pub grant_type : String
  pub initial_amount : ℤ
  pub remaining_amount : ℤ
  pub expires_at : ℕ
  pub status : GrantStatus
  pub idempotency_key : ℕ
  pub metadata : Metadata
  pub created_at : ℕ
  pub priority : ℤ

pub record GrantLedgerEntry : Type 0 where
  pub id : ℕ
  pub grant_id : ℕ
  pub entry_type : GrantEntryType
  pub amount : ℤ
  pub remaining_after : ℤ
  pub description : Option String
  pub idempotency_key : Option ℕ
  pub created_at : ℕ

-- The tables, the newest row first.
pub record Db : Type 0 where
  pub users : List User
  pub accounts : List Account
  pub transactions : List Transaction
  pub entries : List LedgerEntry
  pub grants : List CreditGrant
  pub grant_entries : List GrantLedgerEntry
