-- ===== src/Ledger/Rules/Entry.antt =====
-- src/core/ledger/rules/entry.rules.ts: the journal of one cashbook entry.
use Prim.Native.String.{String}
use project_task_cashbook_ba.Base.{ℕ, Option, none, some, List, [], ◌∷◌, ◌++◌}
use project_task_cashbook_ba.Decimal.{Arithmetic}
use project_task_cashbook_ba.Finance.Money.{MoneyType, to_decimal}
use project_task_cashbook_ba.Ledger.Types.{
  SystemLedgerKey, LedgerRef, LegDimensions, LegDraft, JournalSourceType, PostingKey, JournalDraft,
}

pub data ObligationType : Type 0 where
  receivable payable : ObligationType

pub record EntryPostingInput (D : Type 0) : Type 0 where
  pub workspace_id : ℕ
  pub cashbook_id : ℕ
  pub entry_id : ℕ
  pub version : ℕ
  pub type : MoneyType
  pub amount : D
  pub charge_amount : Option D
  pub description : String
  pub entry_date : ℕ
  pub currency : ℕ
  pub created_by_id : ℕ
  pub account_id : Option ℕ
  pub category_id : Option ℕ
  pub contact_id : Option ℕ
  pub obligation : Option (ℕ × ObligationType)

abbrev pub entry_posting_key : ℕ → ℕ → PostingKey
entry_posting_key entry_id version = PostingKey.entry entry_id version

-- `input.obligation?.type === 'RECEIVABLE'` with the id, and the same for PAYABLE.
abbrev pub settled_receivable : Option (ℕ × ObligationType) → Option ℕ
settled_receivable (some (id, ObligationType.receivable)) = some id
settled_receivable (some (id, ObligationType.payable)) = none
settled_receivable none = none

abbrev pub settled_payable : Option (ℕ × ObligationType) → Option ℕ
settled_payable (some (id, ObligationType.payable)) = some id
settled_payable (some (id, ObligationType.receivable)) = none
settled_payable none = none

-- A wallet when the user linked one, else the book's own cash.
abbrev pub cash_ref : Option ℕ → ℕ → LedgerRef
cash_ref (some account_id) cashbook_id = LedgerRef.wallet account_id
cash_ref none cashbook_id = LedgerRef.book_cash cashbook_id

module _ {D : Type 0} where
  abbrev pub debit_leg : LedgerRef → D → String → LegDimensions → LegDraft D
  debit_leg ref amount memo dims = record {
    ref = ref;
    debit = some amount;
    credit = none;
    memo = some memo;
    dims = dims;
  }

  abbrev pub credit_leg : LedgerRef → D → String → LegDimensions → LegDraft D
  credit_leg ref amount memo dims = record {
    ref = ref;
    debit = none;
    credit = some amount;
    memo = some memo;
    dims = dims;
  }

module _ {D : Type 0} ⦃d : Arithmetic D⦄ where
  open d use {add, sub}

  abbrev pub revenue_legs : EntryPostingInput D → D → LegDimensions → Option ℕ → List (LegDraft D)
  revenue_legs input amount dims (some id) =
      let settled = record dims { obligation_id = some id } in
      credit_leg (LedgerRef.system SystemLedgerKey.ar) amount "Receivable settled" settled
      ∷ debit_leg (LedgerRef.system SystemLedgerKey.deferred_revenue) amount
          "Revenue recognized on cash receipt" settled
      ∷ credit_leg (LedgerRef.category input.category_id SystemLedgerKey.sales_revenue) amount
          input.description dims
      ∷ []
  revenue_legs input amount dims none =
      credit_leg (LedgerRef.category input.category_id SystemLedgerKey.sales_revenue) amount
        input.description dims
      ∷ []

  unfoldable pub build_income_legs :
      EntryPostingInput D → D → D → LedgerRef → LegDimensions → List (LegDraft D)
  build_income_legs input amount charge cash dims =
      debit_leg cash (sub amount charge) input.description dims
      ∷ debit_leg (LedgerRef.system SystemLedgerKey.transaction_fees) charge "Transaction charge"
          dims
      ∷ revenue_legs input amount dims (settled_receivable input.obligation)

  abbrev pub cost_legs : EntryPostingInput D → D → LegDimensions → Option ℕ → List (LegDraft D)
  cost_legs input amount dims (some id) =
      let settled = record dims { obligation_id = some id } in
      debit_leg (LedgerRef.system SystemLedgerKey.ap) amount "Payable settled" settled
      ∷ debit_leg (LedgerRef.category input.category_id SystemLedgerKey.general_expenses) amount
          input.description dims
      ∷ credit_leg (LedgerRef.system SystemLedgerKey.deferred_expense) amount
          "Expense recognized on cash payment" settled
      ∷ []
  cost_legs input amount dims none =
      debit_leg (LedgerRef.category input.category_id SystemLedgerKey.general_expenses) amount
        input.description dims
      ∷ []

  unfoldable pub build_expense_legs :
      EntryPostingInput D → D → D → LedgerRef → LegDimensions → List (LegDraft D)
  build_expense_legs input amount charge cash dims =
      cost_legs input amount dims (settled_payable input.obligation)
      ++ (debit_leg (LedgerRef.system SystemLedgerKey.transaction_fees) charge "Transaction charge"
            dims
          ∷ credit_leg cash (add amount charge) input.description dims
          ∷ [])

  abbrev pub legs_of_type :
      MoneyType → EntryPostingInput D → D → D → LedgerRef → LegDimensions → List (LegDraft D)
  legs_of_type MoneyType.income = build_income_legs
  legs_of_type MoneyType.expense = build_expense_legs

  unfoldable pub build_entry_journal : EntryPostingInput D → JournalDraft D
  unfolding build_income_legs build_expense_legs to_decimal
  build_entry_journal input =
      let dims : LegDimensions = record {
        contact_id = input.contact_id;
        category_id = input.category_id;
        obligation_id = none;
        inventory_item_id = none;
        entry_id = some input.entry_id;
      } in
      record {
        workspace_id = input.workspace_id;
        cashbook_id = some input.cashbook_id;
        currency = input.currency;
        entry_date = input.entry_date;
        description = input.description;
        source_type = JournalSourceType.cashbook_entry;
        source_id = some input.entry_id;
        posting_key = entry_posting_key input.entry_id input.version;
        created_by_id = input.created_by_id;
        legs =
            legs_of_type input.type input input.amount (to_decimal input.charge_amount)
              (cash_ref input.account_id input.cashbook_id) dims;
      }
