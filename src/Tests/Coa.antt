-- ===== src/Tests/Coa.antt =====
-- A chart of accounts before its workspace has posted anything.
use native.Mathlib.Decide.{ℕ_discrete}
use project_task_cashbook_ba.Base.{ℕ, ◌≡◌, refl, Option, none, some, List, [], ◌∷◌}
use project_task_cashbook_ba.Base.Result.{Result, ok, err}
use project_task_cashbook_ba.Ledger.{
  LedgerRef, SystemLedgerKey, LedgerAccountClass, LedgerAccountOrigin, LedgerAccountMeta,
}
use project_task_cashbook_ba.Ledger.Posting.Resolver.{LedgerError}
use project_task_cashbook_ba.Ledger.Effect.{Keeps, DescribesIn}
use project_task_cashbook_ba.Ledger.Coa.Rows.{
  LedgerAccount, Chart, Wallet, Cashbook, AccountClassification, find_holder, find, fresh_id, owner,
  same_code, is_key, Code-discrete, SystemLedgerKey-discrete, link, wallet_holder, cashbook_holder,
}
use project_task_cashbook_ba.Ledger.Coa.Seed.{
  create_account, upsert_account, seed_rows, code_to_id, system_map,
  ensure_workspace_chart_of_accounts, highest_child, next_child_code, ensure_wallet_ledger_account,
}
use project_task_cashbook_ba.Ledger.Coa.Resolve.{resolve, resolve_system, resolve_wallet, meta_for}
use project_task_cashbook_ba.Ledger.Coa.Provision.{
  AccountType, upsert_types, ensure_default_account_types, provision_workspace_accounting,
  provision_again,
}
use project_task_cashbook_ba.Ledger.Coa.Valid.{IsValid}
use project_task_cashbook_ba.Ledger.Coa.Kept.{resolve-IsValid, resolve-meta_for}
use project_task_cashbook_ba.Ledger.Coa.Owned.{IsAccountOf, resolve-IsAccountOf}
use project_task_cashbook_ba.Ledger.Coa.Store.{ValidChart, Mapped, chart_resolver, chart_category}
use project_task_cashbook_ba.Ledger.Coa.Fresh.{resolve_holder_total}

-- Workspace 1 keeps its books in currency 7; wallet 5 is a credit card, book 3 a cashbook.
abbrev pub card : Wallet
card = record {
  id = 5;
  workspace_id = 1;
  currency = 7;
  classification = AccountClassification.liability_wallet;
  ledger_account_id = none;
}

abbrev pub till : Cashbook
till = record { id = 3; workspace_id = 1; currency = 7; cash_ledger_account_id = none }

abbrev pub unused : Chart
unused = record {
  accounts = [];
  wallets = card ∷ [];
  cashbooks = till ∷ [];
  categories = [];
  workspaces = record { id = 1; default_currency = 7 } ∷ [];
}

unused-IsValid : IsValid unused
unused-IsValid = record { rows = tt; wallets = (λ a e. cc, tt); cashbooks = (λ a e. cc, tt) }

abbrev outcome : Result LedgerError (Chart × ℕ) → Chart × ℕ
outcome (ok r) = r
outcome (err _) = (unused, 0)

abbrev sales : LedgerRef
sales = LedgerRef.system SystemLedgerKey.sales_revenue

abbrev seeded_once : Chart × ℕ
seeded_once = outcome (resolve unused 1 7 sales)

seeds : resolve unused 1 7 sales ≡ ok seeded_once
unfolding resolve resolve_system ensure_workspace_chart_of_accounts seed_rows upsert_account
    create_account find fresh_id same_code is_key Code-discrete SystemLedgerKey-discrete system_map
    code_to_id ℕ_discrete
seeds = refl

sales_account : seeded_once.1 ≡ 19
unfolding resolve resolve_system ensure_workspace_chart_of_accounts seed_rows upsert_account
    create_account find fresh_id same_code is_key Code-discrete SystemLedgerKey-discrete system_map
    code_to_id ℕ_discrete
sales_account = refl

resolve-IsValid_example : IsValid seeded_once.0
resolve-IsValid_example =
    resolve-IsValid unused seeded_once.0 1 7 sales seeded_once.1 unused-IsValid seeds

resolve-IsAccountOf_example : IsAccountOf unused seeded_once.0 7 sales seeded_once.1
resolve-IsAccountOf_example =
    resolve-IsAccountOf unused seeded_once.0 1 7 sales seeded_once.1 unused-IsValid seeds

chart_category_example :
    Keeps ValidChart (Mapped (some 2) SystemLedgerKey.sales_revenue)
    × DescribesIn ValidChart
        (Mapped (some 2) SystemLedgerKey.sales_revenue)
        (LedgerRef.category (some 2) SystemLedgerKey.sales_revenue)
chart_category_example = chart_category (some 2) SystemLedgerKey.sales_revenue

abbrev sales_meta : LedgerAccountMeta
sales_meta = record {
  id = 19;
  class = LedgerAccountClass.income;
  origin = LedgerAccountOrigin.system_origin;
  currency = 7;
  wallet_account_id = none;
  cashbook_id = none;
}

abbrev with_card : Chart × ℕ
with_card = outcome (resolve seeded_once.0 1 7 (LedgerRef.wallet 5))

links_card : resolve seeded_once.0 1 7 (LedgerRef.wallet 5) ≡ ok with_card
unfolding resolve resolve_system resolve_wallet ensure_wallet_ledger_account next_child_code
    highest_child link owner meta_for ensure_workspace_chart_of_accounts seed_rows upsert_account
    create_account find fresh_id same_code is_key Code-discrete SystemLedgerKey-discrete system_map
    code_to_id ℕ_discrete
links_card = refl

card_account : with_card.1 ≡ 27
unfolding resolve resolve_system resolve_wallet ensure_wallet_ledger_account next_child_code
    highest_child link owner meta_for ensure_workspace_chart_of_accounts seed_rows upsert_account
    create_account find fresh_id same_code is_key Code-discrete SystemLedgerKey-discrete system_map
    code_to_id ℕ_discrete
card_account = refl

sales_known : meta_for seeded_once.0 19 ≡ ok sales_meta
unfolding resolve resolve_system resolve_wallet ensure_wallet_ledger_account next_child_code
    highest_child link owner meta_for ensure_workspace_chart_of_accounts seed_rows upsert_account
    create_account find fresh_id same_code is_key Code-discrete SystemLedgerKey-discrete system_map
    code_to_id ℕ_discrete
sales_known = refl

resolve-meta_for_example : meta_for with_card.0 19 ≡ ok sales_meta
resolve-meta_for_example =
    resolve-meta_for seeded_once.0 with_card.0 1 7 (LedgerRef.wallet 5) with_card.1 19 sales_meta
      links_card sales_known

resolve_holder_total_example :
    ((id : ℕ) (x : Wallet)
      → find_holder id unused.wallets ≡ some x
      → x.workspace_id ≡ 1
      → (c' : Chart) × (a : ℕ) × (resolve unused 1 7 (LedgerRef.wallet id) ≡ ok (c', a)))
    × ((id : ℕ) (x : Cashbook)
        → find_holder id unused.cashbooks ≡ some x
        → (c' : Chart) × (a : ℕ) × (resolve unused 1 7 (LedgerRef.book_cash id) ≡ ok (c', a)))
resolve_holder_total_example = resolve_holder_total unused 1 7

abbrev Provisioned : Type 0
Provisioned = (List LedgerAccount × List AccountType) × List (SystemLedgerKey × Option ℕ)

abbrev given : Result LedgerError Provisioned → Provisioned
given (ok r) = r
given (err _) = (([], []), [])

abbrev provisioned : Provisioned
provisioned = given (provision_workspace_accounting 1 7 ([], []))

provisions :
    provision_workspace_accounting 1 7 ([], [])
    ≡ ok ((provisioned.0.0, provisioned.0.1), provisioned.1)
unfolding provision_workspace_accounting ensure_default_account_types upsert_types
    ensure_workspace_chart_of_accounts seed_rows upsert_account create_account find fresh_id
    same_code is_key Code-discrete SystemLedgerKey-discrete system_map code_to_id ℕ_discrete
provisions = refl

provision_again_example :
    provision_workspace_accounting 1 7 (provisioned.0.0, provisioned.0.1)
    ≡ ok ((provisioned.0.0, provisioned.0.1), provisioned.1)
provision_again_example =
    provision_again 1 7 [] provisioned.0.0 [] provisioned.0.1 provisioned.1 provisions
