-- ===== src/Ledger/Rules/Wallet.antt =====
-- src/core/ledger/rules/wallet.rules.ts: direct wallet transactions, opening balances, transfers.
-- These journals carry no cashbook.
use Prim.Native.String.{String, ◌++◌}
use project_task_cashbook_ba.Base.{ℕ, Option, none, some, List, [], ◌∷◌, if◌then◌else◌}
use project_task_cashbook_ba.Decimal.{Arithmetic}
use project_task_cashbook_ba.Finance.Money.{MoneyType, to_decimal}
use project_task_cashbook_ba.Ledger.Types.{
  SystemLedgerKey, LedgerRef, LegDraft, JournalSourceType, PostingKey, JournalDraft, no_dims,
}
use project_task_cashbook_ba.Ledger.Rules.Entry.{debit_leg, credit_leg}

pub record DirectWalletPostingInput (D : Type 0) : Type 0 where
  pub workspace_id : ℕ
  pub account_id : ℕ
  pub transaction_id : ℕ
  pub version : ℕ
  pub type : MoneyType
  pub amount : D
  pub charge_amount : Option D
  pub description : String
  pub transaction_date : ℕ
  pub currency : ℕ
  pub created_by_id : ℕ

pub record OpeningBalancePostingInput (D : Type 0) : Type 0 where
  pub workspace_id : ℕ
  pub account_id : ℕ
  pub amount : D
  pub account_name : String
  pub opened_at : ℕ
  pub currency : ℕ
  pub created_by_id : ℕ

pub record TransferPostingInput (D : Type 0) : Type 0 where
  pub workspace_id : ℕ
  pub transfer_id : ℕ
  pub from_account_id : ℕ
  pub to_account_id : ℕ
  pub amount : D
  pub fee_amount : Option D
  pub description : String
  pub transferred_at : ℕ
  pub currency : ℕ
  pub created_by_id : ℕ

abbrev pub wallet_tx_posting_key : ℕ → ℕ → PostingKey
wallet_tx_posting_key transaction_id version = PostingKey.wallet_tx transaction_id version

abbrev pub opening_balance_posting_key : ℕ → PostingKey
opening_balance_posting_key account_id = PostingKey.account_open account_id

abbrev pub transfer_posting_key : ℕ → PostingKey
transfer_posting_key transfer_id = PostingKey.transfer transfer_id

module _ {D : Type 0} ⦃d : Arithmetic D⦄ where
  open d use {add, sub, abs, is_negative}

  abbrev pub direct_legs : MoneyType → ℕ → D → D → String → List (LegDraft D)
  direct_legs MoneyType.income account amount charge description =
      debit_leg (LedgerRef.wallet account) (sub amount charge) description no_dims
      ∷ debit_leg (LedgerRef.system SystemLedgerKey.transaction_fees) charge "Transaction charge"
          no_dims
      ∷ credit_leg (LedgerRef.system SystemLedgerKey.other_income) amount description no_dims
      ∷ []
  direct_legs MoneyType.expense account amount charge description =
      debit_leg (LedgerRef.system SystemLedgerKey.general_expenses) amount description no_dims
      ∷ debit_leg (LedgerRef.system SystemLedgerKey.transaction_fees) charge "Transaction charge"
          no_dims
      ∷ credit_leg (LedgerRef.wallet account) (add amount charge) description no_dims
      ∷ []

  unfoldable pub build_direct_wallet_journal : DirectWalletPostingInput D → JournalDraft D
  unfolding to_decimal
  build_direct_wallet_journal input = record {
    workspace_id = input.workspace_id;
    cashbook_id = none;
    currency = input.currency;
    entry_date = input.transaction_date;
    description = input.description;
    source_type = JournalSourceType.account_transaction;
    source_id = some input.transaction_id;
    posting_key = wallet_tx_posting_key input.transaction_id input.version;
    created_by_id = input.created_by_id;
    legs =
        direct_legs input.type input.account_id input.amount (to_decimal input.charge_amount)
          input.description;
  }

  unfoldable pub build_opening_balance_journal : OpeningBalancePostingInput D → JournalDraft D
  build_opening_balance_journal input =
      let magnitude = abs input.amount in
      let wallet = LedgerRef.wallet input.account_id in
      let equity = LedgerRef.system SystemLedgerKey.opening_balance_equity in
      record {
        workspace_id = input.workspace_id;
        cashbook_id = none;
        currency = input.currency;
        entry_date = input.opened_at;
        description = "Opening balance: " ++ input.account_name;
        source_type = JournalSourceType.account_opening;
        source_id = some input.account_id;
        posting_key = opening_balance_posting_key input.account_id;
        created_by_id = input.created_by_id;
        legs =
            if is_negative input.amount
            then debit_leg equity magnitude "Opening balance" no_dims
              ∷ credit_leg wallet magnitude "Opening balance" no_dims
              ∷ []
            else debit_leg wallet magnitude "Opening balance" no_dims
              ∷ credit_leg equity magnitude "Opening balance" no_dims
              ∷ [];
      }

  unfoldable pub build_transfer_journal : TransferPostingInput D → JournalDraft D
  unfolding to_decimal
  build_transfer_journal input =
      let fee = to_decimal input.fee_amount in
      record {
        workspace_id = input.workspace_id;
        cashbook_id = none;
        currency = input.currency;
        entry_date = input.transferred_at;
        description = input.description;
        source_type = JournalSourceType.account_transfer;
        source_id = some input.transfer_id;
        posting_key = transfer_posting_key input.transfer_id;
        created_by_id = input.created_by_id;
        legs =
            debit_leg (LedgerRef.wallet input.to_account_id) input.amount input.description no_dims
            ∷ debit_leg (LedgerRef.system SystemLedgerKey.transaction_fees) fee "Transfer fee"
                no_dims
            ∷ credit_leg (LedgerRef.wallet input.from_account_id) (add input.amount fee)
                input.description no_dims
            ∷ [];
      }
