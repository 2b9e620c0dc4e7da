-- ===== src/Ledger/Balance.antt =====
-- The events with a posting rule, and the sums of their legs.
pub mod Even
pub mod Totals
use project_task_cashbook_ba.Base.{List, [], ◌∷◌}
use project_task_cashbook_ba.Decimal.{Arithmetic}
use project_task_cashbook_ba.Finance.Money.{zero_amount, to_decimal}
use project_task_cashbook_ba.Ledger.Types.{LegDraft, JournalDraft}
use project_task_cashbook_ba.Ledger.Rules.Entry.{EntryPostingInput, build_entry_journal}
use project_task_cashbook_ba.Ledger.Rules.Wallet.{
  DirectWalletPostingInput, OpeningBalancePostingInput, TransferPostingInput,
  build_direct_wallet_journal, build_opening_balance_journal, build_transfer_journal,
}
use project_task_cashbook_ba.Ledger.Rules.Obligation.{
  ObligationPostingInput, ObligationWriteOffInput, build_obligation_journal,
  build_obligation_write_off_journal,
}

-- The events with a posting rule, and their journals.
pub data Event (D : Type 0) : Type 0 where
  entry : EntryPostingInput D → Event D
  direct : DirectWalletPostingInput D → Event D
  opening : OpeningBalancePostingInput D → Event D
  transfer : TransferPostingInput D → Event D
  obligation : ObligationPostingInput D → Event D
  write_off : ObligationWriteOffInput D → Event D

module _ {D : Type 0} ⦃d : Arithmetic D⦄ where
  abbrev pub event_journal : Event D → JournalDraft D
  event_journal (Event.entry input) = build_entry_journal input
  event_journal (Event.direct input) = build_direct_wallet_journal input
  event_journal (Event.opening input) = build_opening_balance_journal input
  event_journal (Event.transfer input) = build_transfer_journal input
  event_journal (Event.obligation input) = build_obligation_journal input
  event_journal (Event.write_off input) = build_obligation_write_off_journal input

  abbrev pub leg_debits : List (LegDraft D) → D
  leg_debits [] = zero_amount
  leg_debits (leg ∷ legs) = d.add (to_decimal leg.debit) (leg_debits legs)

  abbrev pub leg_credits : List (LegDraft D) → D
  leg_credits [] = zero_amount
  leg_credits (leg ∷ legs) = d.add (to_decimal leg.credit) (leg_credits legs)
