-- ===== src/Ledger/Rules/Obligation.antt =====
-- src/core/ledger/rules/obligation.rules.ts: receivables and payables, and their write-off.
use Prim.Native.String.{String, ◌++◌}
use project_task_cashbook_ba.Base.{ℕ, Option, none, some, List, [], ◌∷◌}
use project_task_cashbook_ba.Ledger.Types.{
  SystemLedgerKey, LedgerRef, LegDimensions, LegDraft, JournalSourceType, PostingKey, JournalDraft,
}
use project_task_cashbook_ba.Ledger.Rules.Entry.{ObligationType, debit_leg, credit_leg}

pub record ObligationPostingInput (D : Type 0) : Type 0 where
  pub workspace_id : ℕ
  pub cashbook_id : ℕ
  pub obligation_id : ℕ
  pub version : ℕ
  pub type : ObligationType
  pub total_amount : D
  pub title : String
  pub entry_date : ℕ
  pub currency : ℕ
  pub created_by_id : ℕ
  pub contact_id : Option ℕ

pub record ObligationWriteOffInput (D : Type 0) : Type 0 where
  pub workspace_id : ℕ
  pub cashbook_id : ℕ
  pub obligation_id : ℕ
  pub type : ObligationType
  pub outstanding_amount : D
  pub title : String
  pub entry_date : ℕ
  pub currency : ℕ
  pub created_by_id : ℕ
  pub contact_id : Option ℕ
  pub reason : String

abbrev pub obligation_posting_key : ℕ → ℕ → PostingKey
obligation_posting_key obligation_id version = PostingKey.obligation obligation_id version

abbrev pub obligation_write_off_posting_key : ℕ → PostingKey
obligation_write_off_posting_key obligation_id = PostingKey.write_off obligation_id

abbrev obligation_dims : ℕ → Option ℕ → LegDimensions
obligation_dims obligation_id contact_id = record {
  contact_id = contact_id;
  category_id = none;
  obligation_id = some obligation_id;
  inventory_item_id = none;
  entry_id = none;
}

abbrev type_name : ObligationType → String
type_name ObligationType.receivable = "Receivable"
type_name ObligationType.payable = "Payable"

abbrev cancelled_name : ObligationType → String
cancelled_name ObligationType.receivable = "receivable"
cancelled_name ObligationType.payable = "payable"

module _ {D : Type 0} where
  abbrev pub opening_legs : ObligationType → D → String → LegDimensions → List (LegDraft D)
  opening_legs ObligationType.receivable total title dims =
      debit_leg (LedgerRef.system SystemLedgerKey.ar) total title dims
      ∷ credit_leg (LedgerRef.system SystemLedgerKey.deferred_revenue) total
          "Cash-basis offset; recognized as revenue on payment" dims
      ∷ []
  opening_legs ObligationType.payable total title dims =
      debit_leg (LedgerRef.system SystemLedgerKey.deferred_expense) total
        "Cash-basis offset; recognized as expense on payment" dims
      ∷ credit_leg (LedgerRef.system SystemLedgerKey.ap) total title dims
      ∷ []

  unfoldable pub build_obligation_journal : ObligationPostingInput D → JournalDraft D
  build_obligation_journal input = record {
    workspace_id = input.workspace_id;
    cashbook_id = some input.cashbook_id;
    currency = input.currency;
    entry_date = input.entry_date;
    description = type_name input.type ++ ": " ++ input.title;
    source_type = JournalSourceType.obligation;
    source_id = some input.obligation_id;
    posting_key = obligation_posting_key input.obligation_id input.version;
    created_by_id = input.created_by_id;
    legs =
        opening_legs input.type input.total_amount input.title
          (obligation_dims input.obligation_id input.contact_id);
  }

  abbrev pub write_off_legs :
      ObligationType → D → String → String → LegDimensions → List (LegDraft D)
  write_off_legs ObligationType.receivable outstanding title reason dims =
      debit_leg (LedgerRef.system SystemLedgerKey.deferred_revenue) outstanding
        ("Cancelled: " ++ reason) dims
      ∷ credit_leg (LedgerRef.system SystemLedgerKey.ar) outstanding ("Written off: " ++ title) dims
      ∷ []
  write_off_legs ObligationType.payable outstanding title reason dims =
      debit_leg (LedgerRef.system SystemLedgerKey.ap) outstanding ("Written off: " ++ title) dims
      ∷ credit_leg (LedgerRef.system SystemLedgerKey.deferred_expense) outstanding
          ("Cancelled: " ++ reason) dims
      ∷ []

  unfoldable pub build_obligation_write_off_journal : ObligationWriteOffInput D → JournalDraft D
  build_obligation_write_off_journal input = record {
    workspace_id = input.workspace_id;
    cashbook_id = some input.cashbook_id;
    currency = input.currency;
    entry_date = input.entry_date;
    description = "Cancelled " ++ cancelled_name input.type ++ ": " ++ input.title;
    source_type = JournalSourceType.obligation;
    source_id = some input.obligation_id;
    posting_key = obligation_write_off_posting_key input.obligation_id;
    created_by_id = input.created_by_id;
    legs =
        write_off_legs input.type input.outstanding_amount input.title input.reason
          (obligation_dims input.obligation_id input.contact_id);
  }
