-- ===== src/Ledger/Coa/Template.antt =====
-- src/core/ledger/coa.template.ts. A code of the template is a number; names are left out, since
-- they are only shown. A field that a row does not set is `none`.
use project_task_cashbook_ba.Base.{ℕ, Bool, false, Option, none, some, List, [], ◌∷◌}
use project_task_cashbook_ba.Ledger.Types.{SystemLedgerKey, LedgerAccountClass}

pub record CoaTemplateRow : Type 0 where
  pub code : ℕ
  pub class : LedgerAccountClass
  pub system_key : Option SystemLedgerKey
  pub parent_code : Option ℕ
  pub is_cash_equivalent : Option Bool
  pub is_postable : Option Bool

pub data NormalBalance : Type 0 where
  debit_normal credit_normal : NormalBalance

abbrev pub normal_balance_for : LedgerAccountClass → NormalBalance
normal_balance_for LedgerAccountClass.asset = NormalBalance.debit_normal
normal_balance_for LedgerAccountClass.expense = NormalBalance.debit_normal
normal_balance_for _ = NormalBalance.credit_normal

-- A section of the chart, and a row that nothing posts to.
abbrev top : ℕ → LedgerAccountClass → CoaTemplateRow
top code class = record {
  code = code;
  class = class;
  system_key = none;
  parent_code = none;
  is_cash_equivalent = none;
  is_postable = some false;
}

abbrev group : ℕ → LedgerAccountClass → ℕ → CoaTemplateRow
group code class parent = record (top code class) { parent_code = some parent }

-- A row that rules refer to by its key.
abbrev keyed : ℕ → LedgerAccountClass → ℕ → SystemLedgerKey → CoaTemplateRow
keyed code class parent key = record {
  code = code;
  class = class;
  system_key = some key;
  parent_code = some parent;
  is_cash_equivalent = none;
  is_postable = none;
}

abbrev pub chart_of_accounts : List CoaTemplateRow
chart_of_accounts =
    let asset = LedgerAccountClass.asset in
    let liability = LedgerAccountClass.liability in
    let equity = LedgerAccountClass.equity in
    let income = LedgerAccountClass.income in
    let expense = LedgerAccountClass.expense in
    top 1000 asset
    ∷ group 1010 asset 1000
    ∷ group 1100 asset 1000
    ∷ keyed 1200 asset 1000 SystemLedgerKey.ar
    ∷ keyed 1300 asset 1000 SystemLedgerKey.inventory
    ∷ keyed 1310 asset 1000 SystemLedgerKey.inventory_on_rent
    ∷ keyed 1900 asset 1000 SystemLedgerKey.suspense
    ∷ top 2000 liability
    ∷ keyed 2100 liability 2000 SystemLedgerKey.ap
    ∷ keyed 2200 liability 2000 SystemLedgerKey.tax_payable
    ∷ keyed 2400 liability 2000 SystemLedgerKey.deferred_revenue
    ∷ keyed 2450 liability 2000 SystemLedgerKey.deferred_expense
    ∷ group 2900 liability 2000
    ∷ top 3000 equity
    ∷ keyed 3100 equity 3000 SystemLedgerKey.opening_balance_equity
    ∷ keyed 3200 equity 3000 SystemLedgerKey.retained_earnings
    ∷ keyed 3900 equity 3000 SystemLedgerKey.owner_drawings
    ∷ top 4000 income
    ∷ keyed 4100 income 4000 SystemLedgerKey.sales_revenue
    ∷ keyed 4200 income 4000 SystemLedgerKey.rental_income
    ∷ keyed 4900 income 4000 SystemLedgerKey.other_income
    ∷ top 5000 expense
    ∷ keyed 5100 expense 5000 SystemLedgerKey.cogs
    ∷ keyed 5200 expense 5000 SystemLedgerKey.general_expenses
    ∷ keyed 5300 expense 5000 SystemLedgerKey.transaction_fees
    ∷ keyed 5400 expense 5000 SystemLedgerKey.inventory_adjustment
    ∷ []

abbrev pub book_cash_parent_code : ℕ
book_cash_parent_code = 1010

abbrev pub wallet_asset_parent_code : ℕ
wallet_asset_parent_code = 1100

abbrev pub wallet_liability_parent_code : ℕ
wallet_liability_parent_code = 2900
