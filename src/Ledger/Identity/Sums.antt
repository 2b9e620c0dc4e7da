-- ===== src/Ledger/Identity/Sums.antt =====
-- What the cached columns mean: the signed sums over journal lines.
use project_task_cashbook_ba.Base.{ℕ, ◌≡◌, Option, List, [], ◌∷◌, All, if◌then◌else◌}
use project_task_cashbook_ba.Base.Result.{Result, ok, err}
use project_task_cashbook_ba.Decimal.{Arithmetic}
use project_task_cashbook_ba.Finance.Money.{zero_amount}
use project_task_cashbook_ba.Finance.Money.Books.{BookCaches}
use project_task_cashbook_ba.Ledger.Types.{ResolvedLine, LedgerAccountMeta, LedgerAccountClass}
use project_task_cashbook_ba.Ledger.Posting.{
  CashbookField, Journal, same_id, book_cash_of, wallet_of, counted_book,
  counts_toward_cashbook_totals,
}
use project_task_cashbook_ba.Ledger.Posting.Resolver.{LedgerError, Resolver}

-- The cashbook whose totals a journal counts toward.
abbrev pub book_of : {D : Type 0} → Journal D → Option ℕ
book_of j = counted_book (counts_toward_cashbook_totals j.source_type) j.cashbook_id

module _ {D : Type 0} ⦃d : Arithmetic D⦄ where
  open d use {add, sub}

  abbrev pub pick : CashbookField → BookCaches D → D
  pick CashbookField.balance v = v.balance
  pick CashbookField.total_income v = v.total_income
  pick CashbookField.total_expense v = v.total_expense

  abbrev pub income_part : LedgerAccountClass → ResolvedLine D → D
  income_part LedgerAccountClass.income l = sub l.credit l.debit
  income_part _ l = zero_amount

  abbrev pub expense_part : LedgerAccountClass → ResolvedLine D → D
  expense_part LedgerAccountClass.expense l = sub l.debit l.credit
  expense_part _ l = zero_amount

  -- What one line on an account with this metadata is worth in a column of cashbook k; `book` is the
  -- cashbook whose totals its journal counts toward.
  abbrev pub book_worth : CashbookField → ℕ → Option ℕ → LedgerAccountMeta → ResolvedLine D → D
  book_worth CashbookField.balance k book m l =
      if same_id (book_cash_of m.origin m.cashbook_id) k then sub l.debit l.credit else zero_amount
  book_worth CashbookField.total_income k book m l =
      if same_id book k then income_part m.class l else zero_amount
  book_worth CashbookField.total_expense k book m l =
      if same_id book k then expense_part m.class l else zero_amount

  abbrev pub wallet_worth : ℕ → LedgerAccountMeta → ResolvedLine D → D
  wallet_worth k m l =
      if same_id (wallet_of m.origin m.wallet_account_id) k
      then sub l.debit l.credit
      else zero_amount

  abbrev pub worth_if : (LedgerAccountMeta → D) → Result LedgerError LedgerAccountMeta → D
  worth_if f (ok m) = f m
  worth_if f (err _) = zero_amount

  module _ {C : Type 0} ⦃r : Resolver C⦄ where
    -- Sums over lines, and over the lines of journals.
    abbrev pub lines_sum : C → (LedgerAccountMeta → ResolvedLine D → D) → List (ResolvedLine D) → D
    lines_sum c f [] = zero_amount
    lines_sum c f (l ∷ ls) =
        add (worth_if (λ m. f m l) (r.meta_for c l.ledger_account_id)) (lines_sum c f ls)

    abbrev pub books_sum : C → CashbookField → ℕ → List (Journal D) → D
    books_sum c f k [] = zero_amount
    books_sum c f k (j ∷ js) =
        add (lines_sum c (book_worth f k (book_of j)) j.lines) (books_sum c f k js)

    abbrev pub wallets_sum : C → ℕ → List (Journal D) → D
    wallets_sum c k [] = zero_amount
    wallets_sum c k (j ∷ js) = add (lines_sum c (wallet_worth k) j.lines) (wallets_sum c k js)

    -- The account of every line is in the chart.
    abbrev pub Known : C → List (ResolvedLine D) → Type 0
    Known c = All (λ l. (m : LedgerAccountMeta) × (r.meta_for c l.ledger_account_id ≡ ok m))
