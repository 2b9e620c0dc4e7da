-- ===== src/Ledger/Effect/Entry.antt =====
-- What the legs of an entry are worth, and the deltas of src/core/finance/money.ts.
use project_task_cashbook_ba.Base.{
  ℕ, ◌≡◌, refl, ◌==◌, Bool, Option, none, some, List, ◌++◌, inl, inr, Bool-cases, if◌then◌else◌,
  arith,
}
use project_task_cashbook_ba.Decimal.{Arithmetic, IsExact}
use project_task_cashbook_ba.Decimal.Laws.{IsNonneg, decimal_laws, number_zero_parts, eq_of_units}
use project_task_cashbook_ba.Finance.Money.{
  MoneyType, zero_amount, to_decimal, effective_cash_amount, income_expense_deltas,
  cashbook_balance_delta,
}
use project_task_cashbook_ba.Ledger.Types.{LedgerRef, SystemLedgerKey, LegDimensions, LegDraft}
use project_task_cashbook_ba.Ledger.Rules.Entry.{
  EntryPostingInput, cash_ref, revenue_legs, cost_legs,
}
use project_task_cashbook_ba.Ledger.Posting.{CashbookField, same_id, is_some}
use project_task_cashbook_ba.Ledger.Effect.Worth.{Kind, kind_of_ref, leg_worth, legs_sum}

module _ {D : Type 0} ⦃d : Arithmetic D⦄ where
  -- The change of a column that money.ts derives for an entry.
  abbrev pub entry_delta : CashbookField → MoneyType → D → Option D → Bool → D
  entry_delta CashbookField.balance type amount charge has_wallet_link =
      cashbook_balance_delta type amount charge has_wallet_link
  entry_delta CashbookField.total_income type amount charge has_wallet_link =
      (income_expense_deltas type amount charge).total_income_delta
  entry_delta CashbookField.total_expense type amount charge has_wallet_link =
      (income_expense_deltas type amount charge).total_expense_delta

  module _ (x : IsExact D) where
    nonneg_fee :
        (c : D) → IsNonneg x c → (if d.greater_than c zero_amount then c else zero_amount) ≡ c
    nonneg_fee c h = elim (Bool-cases (d.greater_than c zero_amount)) [
      | inl g ↦ rw g
      | inr g ↦
          let test = x.greater_than-units c zero_amount in
          let zero_parts = number_zero_parts x in rw g (eq_of_units x zero_amount c (ground arith))
    ]

    cash_ref-kind :
        (account : Option ℕ) (book : ℕ) → kind_of_ref (cash_ref account book) ≡ Kind.neither
    cash_ref-kind none book = refl
    cash_ref-kind (some _) book = refl

    pub revenue_worth :
        (f : CashbookField) (k : ℕ) (book : Option ℕ) (input : EntryPostingInput D) (a : D)
        (dims : LegDimensions) (o : Option ℕ)
        → legs_sum (leg_worth f k book) (revenue_legs input a dims o)
          ≡ leg_worth f k book
              (LedgerRef.category input.category_id SystemLedgerKey.sales_revenue)
              zero_amount
              a
    unfolding to_decimal
    revenue_worth CashbookField.balance k book input a dims none =
        omega (decimal_laws, eq_of_units x)
    revenue_worth CashbookField.balance k book input a dims (some id) =
        omega (decimal_laws, eq_of_units x)
    revenue_worth CashbookField.total_income k book input a dims none =
        elim (Bool-cases (same_id book k)) [
          | inl e ↦ rw e (omega (decimal_laws, eq_of_units x))
          | inr e ↦ rw e (omega (decimal_laws, eq_of_units x))
        ]
    revenue_worth CashbookField.total_income k book input a dims (some id) =
        elim (Bool-cases (same_id book k)) [
          | inl e ↦ rw e (omega (decimal_laws, eq_of_units x))
          | inr e ↦ rw e (omega (decimal_laws, eq_of_units x))
        ]
    revenue_worth CashbookField.total_expense k book input a dims none =
        elim (Bool-cases (same_id book k)) [
          | inl e ↦ rw e (omega (decimal_laws, eq_of_units x))
          | inr e ↦ rw e (omega (decimal_laws, eq_of_units x))
        ]
    revenue_worth CashbookField.total_expense k book input a dims (some id) =
        elim (Bool-cases (same_id book k)) [
          | inl e ↦ rw e (omega (decimal_laws, eq_of_units x))
          | inr e ↦ rw e (omega (decimal_laws, eq_of_units x))
        ]

    pub income_worth :
        (f : CashbookField) (k book : ℕ) (category account : Option ℕ) (a : D) (charge : Option D)
        → IsNonneg x (to_decimal charge)
        → d.add
            (leg_worth f k
              (some book)
              (cash_ref account book)
              (d.sub a (to_decimal charge))
              zero_amount)
            (d.add
              (leg_worth f k
                (some book)
                (LedgerRef.system SystemLedgerKey.transaction_fees)
                (to_decimal charge)
                zero_amount)
              (leg_worth f k
                (some book)
                (LedgerRef.category category SystemLedgerKey.sales_revenue)
                zero_amount
                a))
          ≡ (if book == k
              then entry_delta f MoneyType.income a charge (is_some account)
              else zero_amount)
    unfolding income_expense_deltas cashbook_balance_delta effective_cash_amount
    income_worth CashbookField.balance k book category none a charge h =
        elim (Bool-cases (book == k)) [
          | inl e ↦ rw e (omega (decimal_laws, eq_of_units x))
          | inr e ↦ rw e (omega (decimal_laws, eq_of_units x))
        ]
    income_worth CashbookField.balance k book category (some _) a charge h =
        elim (Bool-cases (book == k)) [
          | inl e ↦ rw e (omega (decimal_laws, eq_of_units x))
          | inr e ↦ rw e (omega (decimal_laws, eq_of_units x))
        ]
    income_worth CashbookField.total_income k book category account a charge h =
        elim (Bool-cases (book == k)) [
          | inl e ↦ rw (e, cash_ref-kind account book) (omega (decimal_laws, eq_of_units x))
          | inr e ↦ rw e (omega (decimal_laws, eq_of_units x))
        ]
    income_worth CashbookField.total_expense k book category account a charge h =
        elim (Bool-cases (book == k)) [
          | inl e ↦
              rw (e, cash_ref-kind account book, nonneg_fee (to_decimal charge) h)
                (omega (decimal_laws, eq_of_units x))
          | inr e ↦ rw e (omega (decimal_laws, eq_of_units x))
        ]

    pub cost_worth :
        (f : CashbookField) (k : ℕ) (book : Option ℕ) (input : EntryPostingInput D) (a : D)
        (dims : LegDimensions) (o : Option ℕ) (rest : List (LegDraft D))
        → legs_sum (leg_worth f k book) (cost_legs input a dims o ++ rest)
          ≡ d.add
              (leg_worth f k book
                (LedgerRef.category input.category_id SystemLedgerKey.general_expenses)
                a
                zero_amount)
              (legs_sum (leg_worth f k book) rest)
    unfolding to_decimal
    cost_worth CashbookField.balance k book input a dims none rest =
        omega (decimal_laws, eq_of_units x)
    cost_worth CashbookField.balance k book input a dims (some id) rest =
        omega (decimal_laws, eq_of_units x)
    cost_worth CashbookField.total_income k book input a dims none rest =
        elim (Bool-cases (same_id book k)) [
          | inl e ↦ rw e (omega (decimal_laws, eq_of_units x))
          | inr e ↦ rw e (omega (decimal_laws, eq_of_units x))
        ]
    cost_worth CashbookField.total_income k book input a dims (some id) rest =
        elim (Bool-cases (same_id book k)) [
          | inl e ↦ rw e (omega (decimal_laws, eq_of_units x))
          | inr e ↦ rw e (omega (decimal_laws, eq_of_units x))
        ]
    cost_worth CashbookField.total_expense k book input a dims none rest =
        elim (Bool-cases (same_id book k)) [
          | inl e ↦ rw e (omega (decimal_laws, eq_of_units x))
          | inr e ↦ rw e (omega (decimal_laws, eq_of_units x))
        ]
    cost_worth CashbookField.total_expense k book input a dims (some id) rest =
        elim (Bool-cases (same_id book k)) [
          | inl e ↦ rw e (omega (decimal_laws, eq_of_units x))
          | inr e ↦ rw e (omega (decimal_laws, eq_of_units x))
        ]

    pub expense_worth :
        (f : CashbookField) (k book : ℕ) (category account : Option ℕ) (a : D) (charge : Option D)
        → IsNonneg x (to_decimal charge)
        → d.add
            (leg_worth f k
              (some book)
              (LedgerRef.category category SystemLedgerKey.general_expenses)
              a
              zero_amount)
            (d.add
              (leg_worth f k
                (some book)
                (LedgerRef.system SystemLedgerKey.transaction_fees)
                (to_decimal charge)
                zero_amount)
              (d.add
                (leg_worth f k
                  (some book)
                  (cash_ref account book)
                  zero_amount
                  (d.add a (to_decimal charge)))
                zero_amount))
          ≡ (if book == k
              then entry_delta f MoneyType.expense a charge (is_some account)
              else zero_amount)
    unfolding income_expense_deltas cashbook_balance_delta effective_cash_amount
    expense_worth CashbookField.balance k book category none a charge h =
        elim (Bool-cases (book == k)) [
          | inl e ↦ rw e (omega (decimal_laws, eq_of_units x))
          | inr e ↦ rw e (omega (decimal_laws, eq_of_units x))
        ]
    expense_worth CashbookField.balance k book category (some _) a charge h =
        elim (Bool-cases (book == k)) [
          | inl e ↦ rw e (omega (decimal_laws, eq_of_units x))
          | inr e ↦ rw e (omega (decimal_laws, eq_of_units x))
        ]
    expense_worth CashbookField.total_income k book category account a charge h =
        elim (Bool-cases (book == k)) [
          | inl e ↦ rw (e, cash_ref-kind account book) (omega (decimal_laws, eq_of_units x))
          | inr e ↦ rw e (omega (decimal_laws, eq_of_units x))
        ]
    expense_worth CashbookField.total_expense k book category account a charge h =
        elim (Bool-cases (book == k)) [
          | inl e ↦ rw (e, cash_ref-kind account book) (omega (decimal_laws, eq_of_units x))
          | inr e ↦ rw e (omega (decimal_laws, eq_of_units x))
        ]
