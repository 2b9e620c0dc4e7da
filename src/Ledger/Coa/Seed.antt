-- ===== src/Ledger/Coa/Seed.antt =====
-- src/core/ledger/coa.seed.ts: provisioning of the chart and of the accounts of wallets and books.
use project_task_cashbook_ba.Base.{
  ℕ, ◌+◌, Bool, true, false, ◌==◌, Option, none, some, List, [], ◌∷◌, ◌++◌, ltb, if◌then◌else◌,
}
use project_task_cashbook_ba.Base.Result.{Result, ok, err, ◌>>=◌}
use project_task_cashbook_ba.Ledger.Types.{SystemLedgerKey, LedgerAccountClass, LedgerAccountOrigin}
use project_task_cashbook_ba.Ledger.Posting.Resolver.{LedgerError, unique_violation}
use project_task_cashbook_ba.Ledger.Coa.Template.{
  CoaTemplateRow, normal_balance_for, chart_of_accounts, book_cash_parent_code,
  wallet_asset_parent_code, wallet_liability_parent_code,
}
use project_task_cashbook_ba.Ledger.Coa.Rows.{
  Code, LedgerAccount, AccountClassification, Wallet, Cashbook, Chart, find, same_code, by_code,
  by_system_key, fresh_id, find_holder, held, link, wallet_holder, cashbook_holder,
}

abbrev pub scoped_code : ℕ → ℕ → ℕ → Code
scoped_code code currency base_currency =
    if currency == base_currency then Code.bare code else Code.scoped code currency

abbrev pub option_or {ℓ} : {A : Type ℓ} → Option A → A → A
option_or (some a) _ = a
option_or none a = a

abbrev pub id_of_row : Option LedgerAccount → Option ℕ
id_of_row (some row) = some row.id
id_of_row none = none

abbrev pub key_taken :
    LedgerAccount → Option SystemLedgerKey → List LedgerAccount → Option LedgerAccount
key_taken row (some key) rows = find (by_system_key row.workspace_id key row.currency) rows
key_taken row none rows = none

-- `ledgerAccount.create`: the row gets an id of its own, and the two unique keys are checked.
unfoldable pub create_account :
    LedgerAccount → List LedgerAccount → Result LedgerError (List LedgerAccount × ℕ)
create_account row rows =
    let created = record row { id = fresh_id rows } in
    elim (find (by_code row.workspace_id row.code) rows) [
      | some _ ↦ err unique_violation
      | none ↦ elim (key_taken row row.system_key rows) [
        | some _ ↦ err unique_violation
        | none ↦ ok (rows ++ created ∷ [], created.id)
      ]
    ]

-- `codeToId`: what was set last is found first.
unfoldable pub code_to_id : Code → List (Code × ℕ) → Option ℕ
code_to_id code [] = none
code_to_id code ((c, id) ∷ rest) = if same_code c code then some id else code_to_id code rest

abbrev pub parent_of : ℕ → ℕ → Option ℕ → List (Code × ℕ) → Option ℕ
parent_of currency base (some parent) ids = code_to_id (scoped_code parent currency base) ids
parent_of currency base none ids = none

abbrev pub seeded_account : ℕ → ℕ → ℕ → CoaTemplateRow → List (Code × ℕ) → LedgerAccount
seeded_account workspace currency base row ids = record {
  id = 0;
  workspace_id = workspace;
  code = scoped_code row.code currency base;
  class = row.class;
  normal_balance = normal_balance_for row.class;
  origin = LedgerAccountOrigin.system_origin;
  system_key = row.system_key;
  parent_id = parent_of currency base row.parent_code ids;
  currency = currency;
  is_cash_equivalent = option_or row.is_cash_equivalent false;
  is_postable = option_or row.is_postable true;
  is_protected = true;
  is_active = true;
}

-- `upsert` with an empty update.
unfoldable pub upsert_account :
    LedgerAccount → List LedgerAccount → Result LedgerError (List LedgerAccount × ℕ)
upsert_account row rows = elim (find (by_code row.workspace_id row.code) rows) [
  | some present ↦ ok (rows, present.id)
  | none ↦ create_account row rows
]

-- The first loop of `ensureWorkspaceChartOfAccounts`.
unfoldable pub seed_rows :
    ℕ
    → ℕ
    → ℕ
    → List CoaTemplateRow
    → List LedgerAccount
    → List (Code × ℕ)
    → Result LedgerError (List LedgerAccount × List (Code × ℕ))
seed_rows workspace currency base [] rows ids = ok (rows, ids)
seed_rows workspace currency base (t ∷ template) rows ids =
    upsert_account (seeded_account workspace currency base t ids) rows >>= λ (rows', id).
    seed_rows workspace currency base template rows' ((scoped_code t.code currency base, id) ∷ ids)

abbrev keyed_id : Option SystemLedgerKey → Option ℕ → List (SystemLedgerKey × Option ℕ)
keyed_id (some key) id = (key, id) ∷ []
keyed_id none id = []

-- The second loop.
unfoldable pub system_map :
    ℕ → ℕ → List CoaTemplateRow → List (Code × ℕ) → List (SystemLedgerKey × Option ℕ)
system_map currency base [] ids = []
system_map currency base (t ∷ template) ids =
    keyed_id t.system_key (code_to_id (scoped_code t.code currency base) ids)
    ++ system_map currency base template ids

unfoldable pub ensure_workspace_chart_of_accounts :
    ℕ
    → ℕ
    → ℕ
    → List LedgerAccount
    → Result LedgerError (List LedgerAccount × List (SystemLedgerKey × Option ℕ))
ensure_workspace_chart_of_accounts workspace currency base rows =
    seed_rows workspace currency base chart_of_accounts rows [] >>= λ (rows', ids).
    ok (rows', system_map currency base chart_of_accounts ids)

-- The number that a code continues `PARENT-` with, if it does.
abbrev pub child_number : ℕ → Code → Option ℕ
child_number parent (Code.child p n) = if p == parent then some n else none
child_number parent (Code.extended p n _) = if p == parent then some n else none
child_number parent _ = none

abbrev pub raise : ℕ → Option ℕ → ℕ
raise highest (some n) = if ltb highest n then n else highest
raise highest none = highest

unfoldable pub highest_child : ℕ → ℕ → ℕ → List LedgerAccount → ℕ
highest_child workspace parent highest [] = highest
highest_child workspace parent highest (row ∷ rows) =
    highest_child workspace parent
      (if row.workspace_id == workspace
        then raise highest (child_number parent row.code)
        else highest)
      rows

unfoldable pub next_child_code : ℕ → ℕ → List LedgerAccount → Code
next_child_code workspace parent rows =
    Code.child parent (highest_child workspace parent 0 rows + 1)

abbrev pub wallet_parent : AccountClassification → ℕ
wallet_parent AccountClassification.asset_wallet = wallet_asset_parent_code
wallet_parent AccountClassification.liability_wallet = wallet_liability_parent_code

abbrev pub is_asset : AccountClassification → Bool
is_asset AccountClassification.asset_wallet = true
is_asset AccountClassification.liability_wallet = false

abbrev pub wallet_class : AccountClassification → LedgerAccountClass
wallet_class AccountClassification.asset_wallet = LedgerAccountClass.asset
wallet_class AccountClassification.liability_wallet = LedgerAccountClass.liability

-- The account that hangs from a parent code.
abbrev pub child_account :
    ℕ → ℕ → ℕ → LedgerAccountClass → LedgerAccountOrigin → Bool → List LedgerAccount → LedgerAccount
child_account workspace currency parent class origin cash rows = record {
  id = 0;
  workspace_id = workspace;
  code = next_child_code workspace parent rows;
  class = class;
  normal_balance = normal_balance_for class;
  origin = origin;
  system_key = none;
  parent_id = id_of_row (find (by_code workspace (Code.bare parent)) rows);
  currency = currency;
  is_cash_equivalent = cash;
  is_postable = true;
  is_protected = true;
  is_active = true;
}

unfoldable pub ensure_wallet_ledger_account : Wallet → Chart → Result LedgerError (Chart × ℕ)
ensure_wallet_ledger_account w c = elim w.ledger_account_id [
  | some id ↦ ok (c, id)
  | none ↦ elim (held (find_holder w.id c.wallets)) [
    | some id ↦ ok (c, id)
    | none ↦
        create_account
          (child_account w.workspace_id w.currency (wallet_parent w.classification)
            (wallet_class w.classification) LedgerAccountOrigin.wallet_origin
            (is_asset w.classification) c.accounts)
          c.accounts
        >>= λ (rows, id). ok (record c { accounts = rows; wallets = link w.id id c.wallets }, id)
  ]
]

unfoldable pub ensure_cashbook_ledger_account : Cashbook → Chart → Result LedgerError (Chart × ℕ)
ensure_cashbook_ledger_account b c = elim b.cash_ledger_account_id [
  | some id ↦ ok (c, id)
  | none ↦ elim (held (find_holder b.id c.cashbooks)) [
    | some id ↦ ok (c, id)
    | none ↦
        create_account
          (child_account b.workspace_id b.currency book_cash_parent_code LedgerAccountClass.asset
            LedgerAccountOrigin.book_cash_origin true c.accounts)
          c.accounts
        >>= λ (rows, id).
            ok (record c { accounts = rows; cashbooks = link b.id id c.cashbooks }, id)
  ]
]
