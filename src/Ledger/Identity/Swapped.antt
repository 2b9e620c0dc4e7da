-- ===== src/Ledger/Identity/Swapped.antt =====
-- The lines that reversing a journal adds up: swapped, and without their dimensions.
use project_task_cashbook_ba.Base.{
  ℕ, ◌≡◌, refl, ap, ap₂, subst, Option, List, [], ◌∷◌, map, if◌then◌else◌,
}
use project_task_cashbook_ba.Base.Result.{ok}
use project_task_cashbook_ba.Decimal.{Arithmetic}
use project_task_cashbook_ba.Finance.Money.{zero_amount}
use project_task_cashbook_ba.Ledger.Types.{
  ResolvedLine, LedgerAccountMeta, LedgerAccountClass, no_dims,
}
use project_task_cashbook_ba.Ledger.Posting.{CashbookField, swap_line, same_id}
use project_task_cashbook_ba.Ledger.Posting.Resolver.{Resolver}
use project_task_cashbook_ba.Ledger.Identity.Sums.{
  book_worth, lines_sum, Known, worth_if, income_part, expense_part,
}

module _ {D : Type 0} ⦃d : Arithmetic D⦄ where
  income_no_dims :
      (class : LedgerAccountClass) (l : ResolvedLine D)
      → income_part class (record (swap_line l) { dims = no_dims })
        ≡ income_part class (swap_line l)
  income_no_dims LedgerAccountClass.income l = refl
  income_no_dims _ l = refl

  expense_no_dims :
      (class : LedgerAccountClass) (l : ResolvedLine D)
      → expense_part class (record (swap_line l) { dims = no_dims })
        ≡ expense_part class (swap_line l)
  expense_no_dims LedgerAccountClass.expense l = refl
  expense_no_dims _ l = refl

  pub worth_no_dims :
      (f : CashbookField) (k : ℕ) (book : Option ℕ) (m : LedgerAccountMeta) (l : ResolvedLine D)
      → book_worth f k book m (record (swap_line l) { dims = no_dims })
        ≡ book_worth f k book m (swap_line l)
  worth_no_dims CashbookField.balance k book m l = refl
  worth_no_dims CashbookField.total_income k book m l =
      ap (λ t. if same_id book k then t else zero_amount) (income_no_dims m.class l)
  worth_no_dims CashbookField.total_expense k book m l =
      ap (λ t. if same_id book k then t else zero_amount) (expense_no_dims m.class l)

module _ {C : Type 0} {D : Type 0} ⦃r : Resolver C⦄ ⦃d : Arithmetic D⦄ where
  -- The lines without their dimensions are worth what the lines are.
  pub lines_sum-no_dims :
      (c : C) (g : LedgerAccountMeta → ResolvedLine D → D) (ls : List (ResolvedLine D))
      → ((m : LedgerAccountMeta) (l : ResolvedLine D)
          → g m (record (swap_line l) { dims = no_dims }) ≡ g m (swap_line l))
      → lines_sum c g (map (λ l. record (swap_line l) { dims = no_dims }) ls)
        ≡ lines_sum c g (map swap_line ls)
  lines_sum-no_dims c g [] e = refl
  lines_sum-no_dims c g (l ∷ ls) e =
      ap₂ d.add (ap (λ k. worth_if k (r.meta_for c l.ledger_account_id)) (λ i m. e m l i))
        (lines_sum-no_dims c g ls e)

  pub Known-map :
      (c : C) (g : ResolvedLine D → ResolvedLine D) (ls : List (ResolvedLine D))
      → ((l : ResolvedLine D) → (g l).ledger_account_id ≡ l.ledger_account_id)
      → Known c (map g ls)
      → Known c ls
  Known-map c g [] e h = tt
  Known-map c g (l ∷ ls) e ((m, p), hs) =
      ((m, subst (λ a. r.meta_for c a ≡ ok m) (e l) p), Known-map c g ls e hs)

  pub Known-swap_line :
      (c : C) (ls : List (ResolvedLine D)) → Known c ls → Known c (map swap_line ls)
  Known-swap_line c [] h = tt
  Known-swap_line c (l ∷ ls) (h, hs) = (h, Known-swap_line c ls hs)
