-- ===== src/Ledger/Balance/Even.antt =====
-- The debits and the credits of the legs of every rule.
use Prim.Native.String.{String}
use project_task_cashbook_ba.Base.{ℕ, ◌≡◌, Option, none, some, List, ◌++◌, inl, inr, Bool-cases}
use project_task_cashbook_ba.Decimal.{Arithmetic, IsExact}
use project_task_cashbook_ba.Decimal.Laws.{eq_of_units, decimal_laws}
use project_task_cashbook_ba.Finance.Money.{MoneyType, zero_amount, to_decimal}
use project_task_cashbook_ba.Ledger.Types.{LedgerRef, LegDimensions, LegDraft}
use project_task_cashbook_ba.Ledger.Rules.Entry.{
  EntryPostingInput, ObligationType, settled_receivable, settled_payable, revenue_legs, cost_legs,
  legs_of_type, build_income_legs, build_expense_legs, build_entry_journal,
}
use project_task_cashbook_ba.Ledger.Rules.Wallet.{
  direct_legs, build_direct_wallet_journal, build_opening_balance_journal, build_transfer_journal,
}
use project_task_cashbook_ba.Ledger.Rules.Obligation.{
  opening_legs, write_off_legs, build_obligation_journal, build_obligation_write_off_journal,
}
use project_task_cashbook_ba.Ledger.Balance.{Event, event_journal, leg_debits, leg_credits}

module _ {D : Type 0} ⦃d : Arithmetic D⦄ (x : IsExact D) where
  income_legs_even :
      (input : EntryPostingInput D) (a c : D) (cash : LedgerRef) (dims : LegDimensions)
      (o : Option ℕ)
      → d.add (d.sub a c) (d.add c (leg_debits (revenue_legs input a dims o)))
        ≡ d.add zero_amount (d.add zero_amount (leg_credits (revenue_legs input a dims o)))
  unfolding to_decimal
  income_legs_even input a c cash dims none = omega (decimal_laws, eq_of_units x)
  income_legs_even input a c cash dims (some id) = omega (decimal_laws, eq_of_units x)

  cost_legs_even :
      (input : EntryPostingInput D) (a c : D) (cash : LedgerRef) (dims : LegDimensions)
      (o : Option ℕ) (rest : List (LegDraft D))
      → leg_debits rest ≡ c
      → leg_credits rest ≡ d.add a c
      → leg_debits (cost_legs input a dims o ++ rest)
        ≡ leg_credits (cost_legs input a dims o ++ rest)
  unfolding to_decimal
  cost_legs_even input a c cash dims none rest h g =
      rw (leg_debits, leg_credits, h, g) (omega (decimal_laws, eq_of_units x))
  cost_legs_even input a c cash dims (some id) rest h g =
      rw (leg_debits, leg_credits, h, g) (omega (decimal_laws, eq_of_units x))

  entry_even :
      (type : MoneyType) (input : EntryPostingInput D) (a c : D) (cash : LedgerRef)
      (dims : LegDimensions)
      → leg_debits (legs_of_type type input a c cash dims)
        ≡ leg_credits (legs_of_type type input a c cash dims)
  unfolding build_income_legs build_expense_legs to_decimal
  entry_even MoneyType.income input a c cash dims =
      income_legs_even input a c cash dims (settled_receivable input.obligation)
  entry_even MoneyType.expense input a c cash dims =
      cost_legs_even input a c cash dims (settled_payable input.obligation) _
        (omega (decimal_laws, eq_of_units x)) (omega (decimal_laws, eq_of_units x))

  direct_even :
      (type : MoneyType) (account : ℕ) (a c : D) (text : String)
      → leg_debits (direct_legs type account a c text)
        ≡ leg_credits (direct_legs type account a c text)
  unfolding to_decimal
  direct_even MoneyType.income account a c text = omega (decimal_laws, eq_of_units x)
  direct_even MoneyType.expense account a c text = omega (decimal_laws, eq_of_units x)

  opening_even :
      (type : ObligationType) (a : D) (text : String) (dims : LegDimensions)
      → leg_debits (opening_legs type a text dims) ≡ leg_credits (opening_legs type a text dims)
  unfolding to_decimal
  opening_even ObligationType.receivable a text dims = omega (decimal_laws, eq_of_units x)
  opening_even ObligationType.payable a text dims = omega (decimal_laws, eq_of_units x)

  write_off_even :
      (type : ObligationType) (a : D) (text reason : String) (dims : LegDimensions)
      → leg_debits (write_off_legs type a text reason dims)
        ≡ leg_credits (write_off_legs type a text reason dims)
  unfolding to_decimal
  write_off_even ObligationType.receivable a text reason dims = omega (decimal_laws, eq_of_units x)
  write_off_even ObligationType.payable a text reason dims = omega (decimal_laws, eq_of_units x)

  pub event_even :
      (e : Event D) → leg_debits (event_journal e).legs ≡ leg_credits (event_journal e).legs
  unfolding build_entry_journal build_direct_wallet_journal build_opening_balance_journal
      build_transfer_journal build_obligation_journal build_obligation_write_off_journal to_decimal
  event_even (Event.entry input) = entry_even input.type input _ _ _ _
  event_even (Event.direct input) = direct_even input.type input.account_id _ _ _
  event_even (Event.opening input) = elim (Bool-cases (d.is_negative input.amount)) [
    | inl e ↦ rw e (omega (decimal_laws, eq_of_units x))
    | inr e ↦ rw e (omega (decimal_laws, eq_of_units x))
  ]
  event_even (Event.transfer input) = omega (decimal_laws, eq_of_units x)
  event_even (Event.obligation input) = opening_even input.type _ _ _
  event_even (Event.write_off input) = write_off_even input.type _ _ _ _
