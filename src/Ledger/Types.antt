-- ===== src/Ledger/Types.antt =====
-- src/core/ledger/ledger.types.ts. Ids and currency codes are only compared, so they are numbers;
-- a date is its day's number. A posting key keeps its template's shape instead of its text.
use Prim.Native.String.{String}
use project_task_cashbook_ba.Base.{ℕ, Bool, Option, none, List}

pub data SystemLedgerKey : Type 0 where
  ar ap inventory inventory_on_rent tax_payable deferred_revenue deferred_expense : SystemLedgerKey
  opening_balance_equity retained_earnings owner_drawings sales_revenue : SystemLedgerKey
  rental_income other_income cogs general_expenses transaction_fees : SystemLedgerKey
  inventory_adjustment suspense : SystemLedgerKey

pub data LedgerRef : Type 0 where
  system : SystemLedgerKey → LedgerRef
  wallet : ℕ → LedgerRef
  book_cash : ℕ → LedgerRef
  category : Option ℕ → SystemLedgerKey → LedgerRef
  explicit : ℕ → LedgerRef

pub record LegDimensions : Type 0 where
  pub contact_id : Option ℕ
  pub category_id : Option ℕ
  pub obligation_id : Option ℕ
  pub inventory_item_id : Option ℕ
  pub entry_id : Option ℕ

-- `{}`
abbrev pub no_dims : LegDimensions
no_dims = record {
  contact_id = none;
  category_id = none;
  obligation_id = none;
  inventory_item_id = none;
  entry_id = none;
}

pub record LegDraft (D : Type 0) : Type 0 where
  pub ref : LedgerRef
  pub debit : Option D
  pub credit : Option D
  pub memo : Option String
  pub dims : LegDimensions

pub data JournalSourceType : Type 0 where
  cashbook_entry account_transaction account_transfer account_opening : JournalSourceType
  obligation inventory manual : JournalSourceType

-- `entry:ID:vN`, `wallet-tx:ID:vN`, `account-open:ID`, `transfer:ID`, `obligation:ID:vN`,
-- `obligation:ID:writeoff`, and `KEY:rev`.
pub data PostingKey : Type 0 where
  entry : ℕ → ℕ → PostingKey
  wallet_tx : ℕ → ℕ → PostingKey
  account_open : ℕ → PostingKey
  transfer : ℕ → PostingKey
  obligation : ℕ → ℕ → PostingKey
  write_off : ℕ → PostingKey
  reversal : PostingKey → PostingKey

pub record JournalDraft (D : Type 0) : Type 0 where
  pub workspace_id : ℕ
  pub cashbook_id : Option ℕ
  pub currency : ℕ
  pub entry_date : ℕ
  pub description : String
  pub source_type : JournalSourceType
  pub source_id : Option ℕ
  pub posting_key : PostingKey
  pub created_by_id : ℕ
  pub legs : List (LegDraft D)

pub record ResolvedLine (D : Type 0) : Type 0 where
  pub line_number : ℕ
  pub ledger_account_id : ℕ
  pub debit : D
  pub credit : D
  pub memo : Option String
  pub dims : LegDimensions

pub record PostedJournal (D : Type 0) : Type 0 where
  pub id : ℕ
  pub posting_key : PostingKey
  pub total_debit : D
  pub total_credit : D
  pub line_count : ℕ
  pub replayed : Bool

pub data LedgerAccountClass : Type 0 where
  asset liability equity income expense : LedgerAccountClass

pub data LedgerAccountOrigin : Type 0 where
  system_origin wallet_origin book_cash_origin user_origin : LedgerAccountOrigin

pub record LedgerAccountMeta : Type 0 where
  pub id : ℕ
  pub class : LedgerAccountClass
  pub origin : LedgerAccountOrigin
  pub currency : ℕ
  pub wallet_account_id : Option ℕ
  pub cashbook_id : Option ℕ
