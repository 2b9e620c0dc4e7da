-- ===== src/Ledger/Coa/Resolve.antt =====
-- src/core/ledger/account-resolver.ts. The two maps and the flag that a resolver keeps during one
-- transaction are left out: a row of the chart stays as it is when a reference is resolved.
use project_task_cashbook_ba.Base.{ℕ, ◌==◌, ◌&&◌, not, Option, none, some, List, if◌then◌else◌}
use project_task_cashbook_ba.Base.Result.{Result, ok, err, ◌>>=◌}
use project_task_cashbook_ba.Ledger.Types.{LedgerRef, SystemLedgerKey, LedgerAccountMeta}
use project_task_cashbook_ba.Ledger.Posting.Resolver.{
  LedgerError, account_missing, account_not_found, invalid_account, cashbook_not_found,
}
use project_task_cashbook_ba.Ledger.Coa.Rows.{
  LedgerAccount, Category, Workspace, Chart, find, by_id, by_system_key, owner, find_holder,
  wallet_holder, cashbook_holder,
}
use project_task_cashbook_ba.Ledger.Coa.Seed.{
  option_or, ensure_workspace_chart_of_accounts, ensure_wallet_ledger_account,
  ensure_cashbook_ledger_account,
}

abbrev default_currency : Option Workspace → Option ℕ
default_currency (some w) = some w.default_currency
default_currency none = none

-- The currency whose accounts have bare codes: `workspace?.defaultCurrency ?? this.currency`.
abbrev pub base_currency : ℕ → ℕ → List Workspace → ℕ
base_currency workspace currency rows =
    option_or (default_currency (find (λ (w : Workspace). w.id == workspace) rows)) currency

abbrev pub lookup_system : ℕ → ℕ → SystemLedgerKey → List LedgerAccount → Option LedgerAccount
lookup_system workspace currency key rows = find (by_system_key workspace key currency) rows

abbrev pub found_again : Chart → Option LedgerAccount → Result LedgerError (Chart × ℕ)
found_again c (some row) = ok (c, row.id)
found_again c none = err account_missing

unfoldable pub resolve_system : Chart → ℕ → ℕ → SystemLedgerKey → Result LedgerError (Chart × ℕ)
resolve_system c workspace currency key = elim (lookup_system workspace currency key c.accounts) [
  | some row ↦ ok (c, row.id)
  | none ↦
      ensure_workspace_chart_of_accounts workspace currency
        (base_currency workspace currency c.workspaces) c.accounts
      >>= λ (rows, _).
          found_again (record c { accounts = rows }) (lookup_system workspace currency key rows)
]

unfoldable pub resolve_wallet : Chart → ℕ → ℕ → Result LedgerError (Chart × ℕ)
resolve_wallet c workspace id = elim (find_holder id c.wallets) [
  | some w ↦
      if not (w.workspace_id == workspace)
      then err invalid_account
      else ensure_wallet_ledger_account w c
  | none ↦ err account_not_found
]

unfoldable pub resolve_book_cash : Chart → ℕ → Result LedgerError (Chart × ℕ)
resolve_book_cash c id = elim (find_holder id c.cashbooks) [
  | some b ↦ ensure_cashbook_ledger_account b c
  | none ↦ err cashbook_not_found
]

abbrev pub gl_account : Option Category → List LedgerAccount → Option LedgerAccount
gl_account (some k) rows = elim k.gl_account_id [ some a ↦ find (by_id a) rows | none ↦ none ]
gl_account none rows = none

-- The account that a category is mapped to, if it can be posted to.
abbrev pub mapped_account : Option LedgerAccount → Option ℕ
mapped_account (some row) = if row.is_postable && row.is_active then some row.id else none
mapped_account none = none

unfoldable pub resolve_category :
    Chart → ℕ → ℕ → Option ℕ → SystemLedgerKey → Result LedgerError (Chart × ℕ)
unfolding find
resolve_category c workspace currency none fallback = resolve_system c workspace currency fallback
resolve_category c workspace currency (some id) fallback =
    elim (mapped_account
      (gl_account (find (λ (k : Category). k.id == id) c.categories) c.accounts)) [
        | some a ↦ ok (c, a)
        | none ↦ resolve_system c workspace currency fallback
      ]

unfoldable pub resolve : Chart → ℕ → ℕ → LedgerRef → Result LedgerError (Chart × ℕ)
resolve c workspace currency (LedgerRef.explicit id) = ok (c, id)
resolve c workspace currency (LedgerRef.system key) = resolve_system c workspace currency key
resolve c workspace currency (LedgerRef.wallet id) = resolve_wallet c workspace id
resolve c workspace currency (LedgerRef.book_cash id) = resolve_book_cash c id
resolve c workspace currency (LedgerRef.category id fallback) =
    resolve_category c workspace currency id fallback

abbrev pub meta_of_row : Chart → LedgerAccount → LedgerAccountMeta
meta_of_row c row = record {
  id = row.id;
  class = row.class;
  origin = row.origin;
  currency = row.currency;
  wallet_account_id = owner row.id c.wallets;
  cashbook_id = owner row.id c.cashbooks;
}

unfoldable pub meta_for : Chart → ℕ → Result LedgerError LedgerAccountMeta
meta_for c id = elim (find (by_id id) c.accounts) [
  | some row ↦ ok (meta_of_row c row)
  | none ↦ err account_missing
]
