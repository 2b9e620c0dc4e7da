-- ===== src/Finance/Money.antt =====
-- src/core/finance/money.ts over a `Decimal`. Amounts are `Decimal` values: the string and number
-- forms that `toDecimal` also takes are converted by the library. A type that is not INCOME is
-- treated as EXPENSE by every function there, so two cases are enough.
pub mod Books
pub mod Status
use project_task_cashbook_ba.Base.{
  ℕ, ◌+◌, Bool, true, false, not, Option, none, some, List, [], ◌∷◌, if◌then◌else◌,
}
use project_task_cashbook_ba.Base.Int.{pos, negsuc}
use project_task_cashbook_ba.Decimal.{Arithmetic}

pub data MoneyType : Type 0 where
  income : MoneyType
  expense : MoneyType

pub data ObligationStatus : Type 0 where
  open_ partial paid cancelled : ObligationStatus

pub data InvoiceStatus : Type 0 where
  draft sent partially_paid paid overdue void : InvoiceStatus

pub data Mode : Type 0 where
  apply reverse : Mode

pub record Deltas (D : Type 0) : Type 0 where
  pub total_income_delta : D
  pub total_expense_delta : D

pub record EntryLike (D : Type 0) : Type 0 where
  pub type : MoneyType
  pub amount : D
  pub charge_amount : Option D
  pub has_wallet_link : Bool

pub record Recomputed (D : Type 0) : Type 0 where
  pub balance : D
  pub total_income : D
  pub total_expense : D
  pub book_income : D
  pub book_expense : D
  pub wallet_linked_count : ℕ
  pub unallocated_count : ℕ

pub record WalletTx (D : Type 0) : Type 0 where
  pub type : MoneyType
  pub amount : D
  pub charge_amount : Option D

pub data Direction : Type 0 where
  in_ out : Direction

pub record WalletTransfer (D : Type 0) : Type 0 where
  pub direction : Direction
  pub amount : D
  pub fee_amount : Option D

-- A field that the payload leaves out is `none`.
pub record IncrementPayload (D : Type 0) : Type 0 where
  pub balance : Option D
  pub total_income : Option D
  pub total_expense : Option D

abbrev pub should_affect_cashbook_balance : Bool → Bool
should_affect_cashbook_balance has_wallet_link = not has_wallet_link

-- The last two lines of `invoiceStatusFromOutstanding`.
abbrev unpaid_status : InvoiceStatus → InvoiceStatus
unpaid_status InvoiceStatus.overdue = InvoiceStatus.overdue
unpaid_status _ = InvoiceStatus.sent

module _ {D : Type 0} ⦃d : Arithmetic D⦄ where
  open d use {number, add, sub, mul, negated, less_than_or_equal_to, greater_than, equals}

  abbrev pub zero_amount : D
  zero_amount = number (pos 0)

  -- `null` and `undefined` are zero.
  unfoldable pub to_decimal : Option D → D
  to_decimal none = zero_amount
  to_decimal (some a) = a

  unfoldable pub effective_cash_amount : MoneyType → D → Option D → D
  unfolding to_decimal
  effective_cash_amount MoneyType.income amount charge = sub amount (to_decimal charge)
  effective_cash_amount MoneyType.expense amount charge = add amount (to_decimal charge)

  unfoldable pub income_expense_deltas : MoneyType → D → Option D → Deltas D
  unfolding to_decimal
  income_expense_deltas MoneyType.income amount charge =
      let c = to_decimal charge in
      record {
        total_income_delta = amount;
        total_expense_delta = if greater_than c (number (pos 0)) then c else zero_amount;
      }
  income_expense_deltas MoneyType.expense amount charge = record {
    total_income_delta = zero_amount;
    total_expense_delta = add amount (to_decimal charge);
  }

  unfoldable pub wallet_balance_delta : MoneyType → D → Option D → D
  unfolding effective_cash_amount
  wallet_balance_delta MoneyType.income amount charge =
      effective_cash_amount MoneyType.income amount charge
  wallet_balance_delta MoneyType.expense amount charge =
      negated (effective_cash_amount MoneyType.expense amount charge)

  abbrev pub signed : MoneyType → D → D
  signed MoneyType.income effective = effective
  signed MoneyType.expense effective = negated effective

  unfoldable pub cashbook_balance_delta : MoneyType → D → Option D → Bool → D
  unfolding effective_cash_amount
  cashbook_balance_delta type amount charge has_wallet_link =
      if not (should_affect_cashbook_balance has_wallet_link)
      then zero_amount
      else signed type (effective_cash_amount type amount charge)

  -- `obligationStatusFromAmounts` after its test for CANCELLED.
  unfoldable pub live_status : D → D → ObligationStatus
  live_status total outstanding =
      if less_than_or_equal_to outstanding (number (pos 0))
      then ObligationStatus.paid
      else if equals outstanding total
      then ObligationStatus.open_
      else if greater_than outstanding total
      then ObligationStatus.open_
      else ObligationStatus.partial

  unfoldable pub obligation_status_from_amounts : D → D → Option ObligationStatus → ObligationStatus
  unfolding live_status
  obligation_status_from_amounts total outstanding (some ObligationStatus.cancelled) =
      ObligationStatus.cancelled
  obligation_status_from_amounts total outstanding _ = live_status total outstanding

  -- `invoiceStatusFromOutstanding` after its test for VOID and DRAFT.
  unfoldable pub sent_status : D → D → InvoiceStatus → InvoiceStatus
  sent_status total outstanding previous =
      if less_than_or_equal_to outstanding (number (pos 0))
      then InvoiceStatus.paid
      else if greater_than (sub total outstanding) (number (pos 0))
      then InvoiceStatus.partially_paid
      else unpaid_status previous

  unfoldable pub invoice_status_from_outstanding : D → D → InvoiceStatus → InvoiceStatus
  unfolding sent_status
  invoice_status_from_outstanding total outstanding InvoiceStatus.void = InvoiceStatus.void
  invoice_status_from_outstanding total outstanding InvoiceStatus.draft = InvoiceStatus.draft
  invoice_status_from_outstanding total outstanding previous =
      sent_status total outstanding previous

  -- The loop body of `recomputeCashbookFromEntries`.
  unfoldable pub recompute_entry : Recomputed D → EntryLike D → Recomputed D
  unfolding income_expense_deltas cashbook_balance_delta
  recompute_entry acc e =
      let deltas = income_expense_deltas e.type e.amount e.charge_amount in
      let acc' = record acc {
        total_income = add acc.total_income deltas.total_income_delta;
        total_expense = add acc.total_expense deltas.total_expense_delta;
      } in
      if e.has_wallet_link
      then record acc' { wallet_linked_count = acc.wallet_linked_count + 1 }
      else record acc' {
        unallocated_count = acc.unallocated_count + 1;
        book_income = add acc.book_income deltas.total_income_delta;
        book_expense = add acc.book_expense deltas.total_expense_delta;
        balance = add acc.balance (cashbook_balance_delta e.type e.amount e.charge_amount false);
      }

  unfoldable pub recompute_from : Recomputed D → List (EntryLike D) → Recomputed D
  unfolding recompute_entry
  recompute_from acc [] = acc
  recompute_from acc (e ∷ es) = recompute_from (recompute_entry acc e) es

  abbrev pub nothing_yet : Recomputed D
  nothing_yet = record {
    balance = zero_amount;
    total_income = zero_amount;
    total_expense = zero_amount;
    book_income = zero_amount;
    book_expense = zero_amount;
    wallet_linked_count = 0;
    unallocated_count = 0;
  }

  unfoldable pub recompute_cashbook_from_entries : List (EntryLike D) → Recomputed D
  unfolding recompute_from
  recompute_cashbook_from_entries es = recompute_from nothing_yet es

  unfoldable pub add_transactions : D → List (WalletTx D) → D
  unfolding wallet_balance_delta
  add_transactions balance [] = balance
  add_transactions balance (t ∷ ts) =
      add_transactions (add balance (wallet_balance_delta t.type t.amount t.charge_amount)) ts

  abbrev pub transfer_balance : D → Direction → D → D → D
  transfer_balance balance Direction.in_ amount fee = add balance amount
  transfer_balance balance Direction.out amount fee = sub (sub balance amount) fee

  unfoldable pub add_transfers : D → List (WalletTransfer D) → D
  unfolding to_decimal
  add_transfers balance [] = balance
  add_transfers balance (t ∷ ts) =
      add_transfers (transfer_balance balance t.direction t.amount (to_decimal t.fee_amount)) ts

  unfoldable pub recompute_wallet_balance : List (WalletTx D) → List (WalletTransfer D) → D
  unfolding add_transactions add_transfers
  recompute_wallet_balance ts transfers = add_transfers (add_transactions zero_amount ts) transfers

  abbrev pub sign : Mode → D
  sign Mode.apply = number (pos 1)
  sign Mode.reverse = number (negsuc 0)

  -- `if (!value.equals(0)) payload.field = { increment: value.mul(sign) }`
  abbrev pub increment_by : D → Mode → Option D
  increment_by value mode =
      if not (equals value (number (pos 0))) then some (mul value (sign mode)) else none

  unfoldable pub cashbook_increment_payload :
      MoneyType → D → Option D → Bool → Mode → IncrementPayload D
  unfolding income_expense_deltas cashbook_balance_delta
  cashbook_increment_payload type amount charge has_wallet_link mode =
      let deltas = income_expense_deltas type amount charge in
      let bal = cashbook_balance_delta type amount charge has_wallet_link in
      record {
        balance = increment_by bal mode;
        total_income = increment_by deltas.total_income_delta mode;
        total_expense = increment_by deltas.total_expense_delta mode;
      }
