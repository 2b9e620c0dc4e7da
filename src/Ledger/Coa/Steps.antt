-- ===== src/Ledger/Coa/Steps.antt =====
-- What a successful step of the seeding does to the accounts.
use project_task_cashbook_ba.Base.{
  ℕ, ◌≡◌, refl, sym, ap, none, some, List, [], ◌∷◌, ◌++◌, inl, inr, ◌⊎◌, subst, All, Option-cases,
}
use project_task_cashbook_ba.Base.Result.{ok, err, >>=-eq-ok, ok_pair}
use project_task_cashbook_ba.Ledger.Types.{SystemLedgerKey, LedgerAccountClass, LedgerAccountOrigin}
use project_task_cashbook_ba.Ledger.Posting.Resolver.{unique_violation, account_missing}
use project_task_cashbook_ba.Ledger.Effect.{class_of_key}
use project_task_cashbook_ba.Ledger.Coa.Template.{CoaTemplateRow, chart_of_accounts}
use project_task_cashbook_ba.Ledger.Coa.Rows.{Code, Chart, LedgerAccount, find, by_code, fresh_id}
use project_task_cashbook_ba.Ledger.Coa.Seed.{
  scoped_code, key_taken, create_account, upsert_account, seeded_account, seed_rows,
  ensure_workspace_chart_of_accounts,
}
use project_task_cashbook_ba.Ledger.Coa.Resolve.{base_currency, lookup_system, resolve_system}

-- The rows after one was created.
abbrev pub with_created : LedgerAccount → List LedgerAccount → List LedgerAccount
with_created row rows = rows ++ record row { id = fresh_id rows } ∷ []

pub create_account-ok :
    (row : LedgerAccount) (rows rows' : List LedgerAccount) (id : ℕ)
    → create_account row rows ≡ ok (rows', id)
    → (with_created row rows ≡ rows') × (fresh_id rows ≡ id)
unfolding create_account
create_account-ok row rows rows' id h =
    elim (Option-cases (find (by_code row.workspace_id row.code) rows)) [
      | inr (r, e) ↦
          let failed : err unique_violation ≡ ok (rows', id) = rw (e, create_account) at h in cc
      | inl e ↦ elim (Option-cases (key_taken row row.system_key rows)) [
        | inr (r, k) ↦
            let failed : err unique_violation ≡ ok (rows', id) = rw (e, create_account, k) at h in
            cc
        | inl k ↦ ok_pair _ rows' _ id (rw (e, create_account, k) at h)
      ]
    ]

pub upsert_account-ok :
    (row : LedgerAccount) (rows rows' : List LedgerAccount) (id : ℕ)
    → upsert_account row rows ≡ ok (rows', id)
    → (rows ≡ rows') ⊎ (with_created row rows ≡ rows')
unfolding upsert_account
upsert_account-ok row rows rows' id h =
    elim (Option-cases (find (by_code row.workspace_id row.code) rows)) [
      | inr (r, e) ↦ inl (ok_pair rows rows' _ id (rw (e, upsert_account) at h)).0
      | inl e ↦ inr (create_account-ok row rows rows' id (rw (e, upsert_account) at h)).0
    ]

-- An account with a system key has the class of the key, and the origin SYSTEM.
abbrev pub Keyed : LedgerAccount → Type 0
Keyed row =
    (key : SystemLedgerKey)
    → row.system_key ≡ some key
    → (class_of_key key ≡ row.class) × (row.origin ≡ LedgerAccountOrigin.system_origin)

-- What creating keyed accounts keeps.
abbrev pub Closed : (List LedgerAccount → Type 0) → Type 0
Closed P =
    (row : LedgerAccount) (rows : List LedgerAccount)
    → Keyed row
    → P rows
    → P (with_created row rows)

abbrev pub HasClass : CoaTemplateRow → Type 0
HasClass t = (key : SystemLedgerKey) → t.system_key ≡ some key → class_of_key key ≡ t.class

unkeyed :
    {class : LedgerAccountClass} (key : SystemLedgerKey)
    → none ≡ some key
    → class_of_key key ≡ class
unkeyed key h = cc

keyed_as :
    (key key' : SystemLedgerKey) → some key ≡ some key' → class_of_key key' ≡ class_of_key key
keyed_as key key' h = let same : key' ≡ key = cc in ap class_of_key same

-- The template's classes are those of its keys.
pub chart_of_accounts-HasClass : All HasClass chart_of_accounts
chart_of_accounts-HasClass = (
  unkeyed,
  (
    unkeyed,
    (
      unkeyed,
      (
        keyed_as SystemLedgerKey.ar,
        (
          keyed_as SystemLedgerKey.inventory,
          (
            keyed_as SystemLedgerKey.inventory_on_rent,
            (
              keyed_as SystemLedgerKey.suspense,
              (
                unkeyed,
                (
                  keyed_as SystemLedgerKey.ap,
                  (
                    keyed_as SystemLedgerKey.tax_payable,
                    (
                      keyed_as SystemLedgerKey.deferred_revenue,
                      (
                        keyed_as SystemLedgerKey.deferred_expense,
                        (
                          unkeyed,
                          (
                            unkeyed,
                            (
                              keyed_as SystemLedgerKey.opening_balance_equity,
                              (
                                keyed_as SystemLedgerKey.retained_earnings,
                                (
                                  keyed_as SystemLedgerKey.owner_drawings,
                                  (
                                    unkeyed,
                                    (
                                      keyed_as SystemLedgerKey.sales_revenue,
                                      (
                                        keyed_as SystemLedgerKey.rental_income,
                                        (
                                          keyed_as SystemLedgerKey.other_income,
                                          (
                                            unkeyed,
                                            (
                                              keyed_as SystemLedgerKey.cogs,
                                              (
                                                keyed_as SystemLedgerKey.general_expenses,
                                                (
                                                  keyed_as SystemLedgerKey.transaction_fees,
                                                  (
                                                    keyed_as SystemLedgerKey.inventory_adjustment,
                                                    tt,
                                                  ),
                                                ),
                                              ),
                                            ),
                                          ),
                                        ),
                                      ),
                                    ),
                                  ),
                                ),
                              ),
                            ),
                          ),
                        ),
                      ),
                    ),
                  ),
                ),
              ),
            ),
          ),
        ),
      ),
    ),
  ),
)

pub seed_rows-closed :
    (P : List LedgerAccount → Type 0)
    → Closed P
    → (workspace currency base : ℕ) (template : List CoaTemplateRow)
      (rows rows' : List LedgerAccount) (ids ids' : List (Code × ℕ))
    → All HasClass template
    → seed_rows workspace currency base template rows ids ≡ ok (rows', ids')
    → P rows
    → P rows'
unfolding seed_rows
seed_rows-closed P closed w y b [] rows rows' ids ids' q h p =
    subst P (ok_pair rows rows' ids ids' h).0 p
seed_rows-closed P closed w y b (t ∷ template) rows rows' ids ids' (q, qs) h p =
    let ((rows1, id), e, next) = >>=-eq-ok (upsert_account (seeded_account w y b t ids) rows) _ h in
    let rest =
      seed_rows-closed P closed w y b template rows1 rows' ((scoped_code t.code y b, id) ∷ ids) ids'
        qs next in
    elim (upsert_account-ok (seeded_account w y b t ids) rows rows1 id e) [
      | inl same ↦ rest (subst P same p)
      | inr more ↦
          rest
            (subst P more (closed (seeded_account w y b t ids) rows (λ key k. (q key k, refl)) p))
    ]

-- What a system reference resolves to: the rows afterwards, and the account found in them.
pub resolve_system-ok :
    (c c' : Chart) (workspace currency : ℕ) (key : SystemLedgerKey) (a : ℕ)
    → resolve_system c workspace currency key ≡ ok (c', a)
    → (rows : List LedgerAccount) × (row : LedgerAccount) × (c' ≡ record c { accounts = rows })
      × (lookup_system workspace currency key rows ≡ some row)
      × (a ≡ row.id)
      × ((P : List LedgerAccount → Type 0) → Closed P → P c.accounts → P rows)
unfolding resolve_system ensure_workspace_chart_of_accounts
resolve_system-ok c c' w y key a h = elim (Option-cases (lookup_system w y key c.accounts)) [
  | inr (row, e) ↦
      let (same, id) = ok_pair c c' row.id a (rw (e, resolve_system) at h) in
      (c.accounts, row, sym same, e, sym id, λ P closed p. p)
  | inl e ↦
      let base = base_currency w y c.workspaces in
      let ((rows, map), p, q) =
        >>=-eq-ok (ensure_workspace_chart_of_accounts w y base c.accounts) _
          (rw (e, resolve_system) at h) in
      let ((rows', ids), p', q') =
        >>=-eq-ok (seed_rows w y base chart_of_accounts c.accounts []) _ p in
      let same : rows' ≡ rows = (ok_pair rows' rows _ map q').0 in
      elim (Option-cases (lookup_system w y key rows)) [
        | inl n ↦ let failed : err account_missing ≡ ok (c', a) = rw n at q in cc
        | inr (row, f) ↦
            let (same', id) = ok_pair (record c { accounts = rows }) c' row.id a (rw f at q) in
            (
              rows,
              row,
              sym same',
              f,
              sym id,
              λ P closed p0. subst P same (
                  seed_rows-closed P closed w y base chart_of_accounts c.accounts rows' [] ids
                    chart_of_accounts-HasClass p' p0),
            )
      ]
]
