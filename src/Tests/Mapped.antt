-- ===== src/Tests/Mapped.antt =====
-- An entry whose category is mapped to an income account, posted through the program's resolver.
use native.Mathlib.Decide.{ℕ_discrete}
use project_task_cashbook_ba.Base.{
  ℕ, ◌≡◌, refl, ◌==◌, Bool, true, false, none, some, [], ◌∷◌, arith, if◌then◌else◌,
}
use project_task_cashbook_ba.Base.Int.{ℤ, pos, negsuc, ◌+ℤ◌, ◌-ℤ◌}
use project_task_cashbook_ba.Base.Result.{Result, ok, err, Result-cases}
use project_task_cashbook_ba.Decimal.Cents.{cents, exact}
use project_task_cashbook_ba.Finance.Money.{
  MoneyType, to_decimal, wallet_balance_delta, income_expense_deltas,
}
use project_task_cashbook_ba.Ledger.{
  SystemLedgerKey, LedgerAccountClass, LedgerAccountOrigin, PostedJournal,
}
use project_task_cashbook_ba.Ledger.Rules.Entry.{
  EntryPostingInput, build_entry_journal, build_income_legs, build_expense_legs,
}
use project_task_cashbook_ba.Ledger.Posting.{
  CashbookField, Db, OnDuplicate, post, post_new, apply_cache_deltas, apply_cashbook_deltas,
  apply_wallet_deltas, resolve_draft, resolve_legs, deltas_from_lines, add_lines, add_line,
  bump_cashbook, bump_wallet, assert_balanced, same_id, no_caches,
}
use project_task_cashbook_ba.Ledger.Posting.Resolver.{LedgerError}
use project_task_cashbook_ba.Ledger.Identity.{pick}
use project_task_cashbook_ba.Ledger.Effect.Entry.{entry_delta}
use project_task_cashbook_ba.Ledger.Effect.Posted.{post_entry_moves}
use project_task_cashbook_ba.Ledger.Coa.Template.{NormalBalance}
use project_task_cashbook_ba.Ledger.Coa.Rows.{
  Code, LedgerAccount, Chart, find, fresh_id, owner, same_code, is_key, Code-discrete,
  SystemLedgerKey-discrete, link, wallet_holder, cashbook_holder,
}
use project_task_cashbook_ba.Ledger.Coa.Seed.{
  create_account, upsert_account, seed_rows, code_to_id, system_map,
  ensure_workspace_chart_of_accounts, highest_child, next_child_code,
  ensure_cashbook_ledger_account,
}
use project_task_cashbook_ba.Ledger.Coa.Resolve.{
  resolve, resolve_system, resolve_wallet, resolve_book_cash, resolve_category, meta_for,
}
use project_task_cashbook_ba.Ledger.Coa.Valid.{IsValid}
use project_task_cashbook_ba.Ledger.Coa.Store.{
  ValidChart, Mapped, chart_resolver, chart_IsStable, chart_IsTyped, chart_category,
}
use project_task_cashbook_ba.Tests.Coa.{unused}
use project_task_cashbook_ba.Tests.Ledger.{sale, nothing_posted}

-- Tour income, an account of the workspace's own.
abbrev tours : LedgerAccount
tours = record {
  id = 1;
  workspace_id = 1;
  code = Code.other 0;
  class = LedgerAccountClass.income;
  normal_balance = NormalBalance.credit_normal;
  origin = LedgerAccountOrigin.user_origin;
  system_key = none;
  parent_id = none;
  currency = 7;
  is_cash_equivalent = false;
  is_postable = true;
  is_protected = false;
  is_active = true;
}

abbrev with_tours : Chart
with_tours = record unused {
  accounts = tours ∷ [];
  categories = record { id = 2; gl_account_id = some 1 } ∷ [];
}

with_tours-IsValid : IsValid with_tours
unfolding find
with_tours-IsValid = record {
  rows = ((refl, λ key e. cc), tt);
  wallets = (λ a e. cc, tt);
  cashbooks = (λ a e. cc, tt);
}

abbrev Books : Type 0
Books = Db ValidChart ℤ

abbrev at_first : Books
at_first = record {
  chart = (with_tours, with_tours-IsValid);
  next_id = 1;
  journals = [];
  cashbooks = λ _. no_caches;
  wallets = λ _. pos 0;
}

abbrev tour : EntryPostingInput ℤ
tour = record sale { workspace_id = 1; currency = 7; category_id = some 2 }

abbrev touring : Result LedgerError (Books × PostedJournal ℤ)
touring = post at_first (build_entry_journal tour) OnDuplicate.throw true

abbrev is_ok {ℓ} : {A : Type ℓ} → Result LedgerError A → Bool
is_ok (ok _) = true
is_ok (err _) = false

abbrev books_of : Result LedgerError (Books × PostedJournal ℤ) → Books
books_of (ok (db, _)) = db
books_of (err _) = at_first

abbrev summary_of : Result LedgerError (Books × PostedJournal ℤ) → PostedJournal ℤ
summary_of (ok (_, pj)) = pj
summary_of (err _) = nothing_posted

ok_of :
    (r : Result LedgerError (Books × PostedJournal ℤ))
    → is_ok r ≡ true
    → r ≡ ok (books_of r, summary_of r)
ok_of (ok _) h = refl
ok_of (err _) h = cc

toured : is_ok touring ≡ true
unfolding post post_new resolve_draft resolve_legs deltas_from_lines add_lines add_line
    bump_cashbook bump_wallet assert_balanced build_entry_journal build_income_legs
    build_expense_legs to_decimal resolve resolve_system resolve_wallet resolve_book_cash
    resolve_category ensure_cashbook_ledger_account next_child_code highest_child link owner
    meta_for ensure_workspace_chart_of_accounts seed_rows upsert_account create_account find
    fresh_id same_code is_key Code-discrete SystemLedgerKey-discrete system_map code_to_id
    ℕ_discrete Result-cases ◌+ℤ◌ ◌-ℤ◌
toured = refl

tour-Mapped : Mapped (some 2) SystemLedgerKey.sales_revenue at_first.chart
unfolding find
tour-Mapped = (tours, refl, refl, λ o. (refl, refl))

post_entry_moves_example :
    ((f : CashbookField) (k : ℕ)
      → pick f ((books_of touring).cashbooks k)
        ≡ pick f (at_first.cashbooks k)
          +ℤ (if 3 == k
              then entry_delta f MoneyType.income (pos 1000000) (some (pos 15000)) false
              else pos 0))
    × ((k : ℕ)
        → (books_of touring).wallets k
          ≡ at_first.wallets k
            +ℤ (if same_id none k
                then wallet_balance_delta MoneyType.income (pos 1000000) (some (pos 15000))
                else pos 0))
unfolding to_decimal
post_entry_moves_example =
    post_entry_moves exact at_first tour (books_of touring) (summary_of touring)
      (Mapped (some 2) SystemLedgerKey.sales_revenue) chart_IsStable chart_IsTyped
      (chart_category (some 2) SystemLedgerKey.sales_revenue).0
      (chart_category (some 2) SystemLedgerKey.sales_revenue).1 tour-Mapped (omega arith)
      (ok_of touring toured)

-- An expense whose category is mapped to the income account lowers the book's total income by its
-- amount and raises its total expense by the fee alone, where the older arithmetic raises total
-- expense by both.
abbrev refund : EntryPostingInput ℤ
refund = record tour { type = MoneyType.expense }

abbrev refunding : Result LedgerError (Books × PostedJournal ℤ)
refunding = post at_first (build_entry_journal refund) OnDuplicate.throw true

mapped_astray :
    (((books_of refunding).cashbooks 3).total_income ≡ negsuc 999999)
    × (((books_of refunding).cashbooks 3).total_expense ≡ pos 15000)
    × (entry_delta CashbookField.total_expense MoneyType.expense
          (pos 1000000)
          (some (pos 15000))
          false
        ≡ pos 1015000)
unfolding post post_new apply_cache_deltas apply_cashbook_deltas apply_wallet_deltas
    income_expense_deltas resolve_draft resolve_legs deltas_from_lines add_lines add_line
    bump_cashbook bump_wallet assert_balanced build_entry_journal build_income_legs
    build_expense_legs to_decimal resolve resolve_system resolve_wallet resolve_book_cash
    resolve_category ensure_cashbook_ledger_account next_child_code highest_child link owner
    meta_for ensure_workspace_chart_of_accounts seed_rows upsert_account create_account find
    fresh_id same_code is_key Code-discrete SystemLedgerKey-discrete system_map code_to_id
    ℕ_discrete Result-cases ◌+ℤ◌ ◌-ℤ◌
mapped_astray = (refl, refl, refl)
