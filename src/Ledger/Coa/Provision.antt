-- ===== src/Ledger/Coa/Provision.antt =====
-- `ensureDefaultAccountTypes` and `provisionWorkspaceAccounting` of src/core/ledger/coa.seed.ts, and
-- what calling the seeding a second time does.
use text.Mathlib.Text.{◌==◌ as str_eq}
use text.Mathlib.TextEquality.{eq_iff}
use Prim.Native.String.{String}
use project_task_cashbook_ba.Base.{
  ℕ, ◌≡◌, refl, sym, ap, ap₂, ◌∙◌, subst, ◌==◌, ==_refl, Bool, true, false, ◌&&◌, Option, none,
  some, List, [], ◌∷◌, ◌++◌, All, inl, inr, Option-cases,
}
use project_task_cashbook_ba.Base.Result.{Result, ok, ◌>>=◌, >>=-eq-ok, ok_pair}
use project_task_cashbook_ba.Ledger.Types.{SystemLedgerKey}
use project_task_cashbook_ba.Ledger.Posting.Resolver.{LedgerError}
use project_task_cashbook_ba.Ledger.Coa.Template.{CoaTemplateRow, chart_of_accounts}
use project_task_cashbook_ba.Ledger.Coa.Rows.{
  Code, LedgerAccount, AccountClassification, find, by_code, fresh_id, same_code, Code-discrete,
}
use project_task_cashbook_ba.Ledger.Coa.Seed.{
  scoped_code, upsert_account, seeded_account, seed_rows, ensure_workspace_chart_of_accounts,
}
use project_task_cashbook_ba.Ledger.Coa.Found.{find-append_some, find-append_none, find_single}
use project_task_cashbook_ba.Ledger.Coa.Steps.{
  create_account-ok, seed_rows-closed, HasClass, chart_of_accounts-HasClass,
}

pub record AccountType : Type 0 where
  pub workspace_id : ℕ
  pub name : String
  pub classification : AccountClassification

abbrev pub default_account_types : List (String × AccountClassification)
default_account_types =
    let asset = AccountClassification.asset_wallet in
    let liability = AccountClassification.liability_wallet in
    ("Bank", asset)
    ∷ ("Cash", asset)
    ∷ ("Mobile Money", asset)
    ∷ ("Credit Card", liability)
    ∷ ("Loan", liability)
    ∷ []

-- The unique key `name_workspaceId`.
abbrev pub by_name : ℕ → String → AccountType → Bool
by_name workspace name row = str_eq row.name name && row.workspace_id == workspace

unfoldable pub upsert_types :
    ℕ → List (String × AccountClassification) → List AccountType → List AccountType
upsert_types workspace [] rows = rows
upsert_types workspace ((name, class) ∷ types) rows =
    upsert_types workspace types (elim (find (by_name workspace name) rows) [
      | some _ ↦ rows
      | none ↦ rows ++ record { workspace_id = workspace; name = name; classification = class } ∷ []
    ])

unfoldable pub ensure_default_account_types : ℕ → List AccountType → List AccountType
ensure_default_account_types workspace rows = upsert_types workspace default_account_types rows

unfoldable pub provision_workspace_accounting :
    ℕ
    → ℕ
    → List LedgerAccount × List AccountType
    → Result LedgerError
        ((List LedgerAccount × List AccountType) × List (SystemLedgerKey × Option ℕ))
provision_workspace_accounting workspace currency (rows, types) =
    ensure_workspace_chart_of_accounts workspace currency currency rows >>= λ (rows', map).
    ok ((rows', ensure_default_account_types workspace types), map)

eq_refl : (s : String) → str_eq s s ≡ true
eq_refl s = (eq_iff s s).1 refl

-- What is found in the one is found in the other.
abbrev Within {ℓ} : {A : Type ℓ} → List A → List A → Type ℓ
Within {A} xs ys = (p : A → Bool) (x : A) → find p xs ≡ some x → find p ys ≡ some x

same_code_refl : (c : Code) → same_code c c ≡ true
unfolding same_code
same_code_refl c =
    elim (Code-discrete c c) as (λ d. elim d [ yes _ ↦ true | no _ ↦ false ] ≡ true) [
      | yes e ↦ refl
      | no n ↦ absurd (n refl)
    ]

upsert_account-found :
    (row : LedgerAccount) (rows rows' : List LedgerAccount) (id : ℕ)
    → upsert_account row rows ≡ ok (rows', id)
    → (r : LedgerAccount) × (find (by_code row.workspace_id row.code) rows' ≡ some r) × (r.id ≡ id)
unfolding upsert_account
upsert_account-found row rows rows' id h =
    elim (Option-cases (find (by_code row.workspace_id row.code) rows)) [
      | inr (r, e) ↦
          let (same, same_id) = ok_pair rows rows' r.id id (rw (e, upsert_account) at h) in
          (r, ap (find _) (sym same) ∙ e, same_id)
      | inl e ↦
          let (same, same_id) = create_account-ok row rows rows' id (rw (e, upsert_account) at h) in
          (
            record row { id = fresh_id rows },
            ap (find _) (sym same)
                ∙ find-append_none _ rows _ e
                ∙ find_single _ _ (rw (==_refl row.workspace_id, same_code_refl row.code) refl),
            same_id,
          )
    ]

upsert_account-present :
    (row : LedgerAccount) (rows : List LedgerAccount) (r : LedgerAccount)
    → find (by_code row.workspace_id row.code) rows ≡ some r
    → upsert_account row rows ≡ ok (rows, r.id)
unfolding upsert_account
upsert_account-present row rows r e = rw (e, upsert_account) refl

-- Seeding again, when the accounts may have grown since, finds every account that the first run
-- found or made.
seed_rows_again :
    (w y b : ℕ) (template : List CoaTemplateRow) (rows rows' more : List LedgerAccount)
    (ids ids' : List (Code × ℕ))
    → All HasClass template
    → seed_rows w y b template rows ids ≡ ok (rows', ids')
    → Within rows' more
    → seed_rows w y b template more ids ≡ ok (more, ids')
unfolding seed_rows
seed_rows_again w y b [] rows rows' more ids ids' q h within =
    ap (λ k. ok (more, k)) (ok_pair rows rows' ids ids' h).1
seed_rows_again w y b (t ∷ template) rows rows' more ids ids' (q, qs) h within =
    let account = seeded_account w y b t ids in
    let ((rows1, id), e, next) = >>=-eq-ok (upsert_account account rows) _ h in
    let ids1 = (scoped_code t.code y b, id) ∷ ids in
    let (r, found, same) = upsert_account-found account rows rows1 id e in
    let grown : find (by_code w (scoped_code t.code y b)) rows' ≡ some r =
      seed_rows-closed (λ rs. find (by_code w (scoped_code t.code y b)) rs ≡ some r)
        (λ row rs k. find-append_some _ rs _ r) w y b template rows1 rows' ids1 ids' qs next
        found in
    let again : upsert_account account more ≡ ok (more, id) =
      upsert_account-present account more r (within _ r grown) ∙ ap (λ k. ok (more, k)) same in
    rw again (seed_rows_again w y b template rows1 rows' more ids1 ids' qs next within)

upsert_types-grow :
    (w : ℕ) (types : List (String × AccountClassification)) (rows : List AccountType)
    → Within rows (upsert_types w types rows)
unfolding upsert_types
upsert_types-grow w [] rows p x h = h
upsert_types-grow w ((name, class) ∷ types) rows p x h =
    elim (Option-cases (find (by_name w name) rows)) [
      | inr (r, e) ↦ rw e (upsert_types-grow w types rows p x h)
      | inl e ↦ rw e (upsert_types-grow w types _ p x (find-append_some p rows _ x h))
    ]

upsert_types_again :
    (w : ℕ) (types : List (String × AccountClassification)) (rows more : List AccountType)
    → Within (upsert_types w types rows) more
    → upsert_types w types more ≡ more
unfolding upsert_types
upsert_types_again w [] rows more within = refl
upsert_types_again w ((name, class) ∷ types) rows more within =
    elim (Option-cases (find (by_name w name) rows)) [
      | inr (r, e) ↦
          let within' : Within (upsert_types w types rows) more = rw e at within in
          let found = within' _ r (upsert_types-grow w types rows _ r e) in
          rw found (upsert_types_again w types rows more within')
      | inl e ↦
          let row : AccountType = record {
            workspace_id = w;
            name = name;
            classification = class;
          } in
          let within' : Within (upsert_types w types (rows ++ row ∷ [])) more = rw e at within in
          let made =
            find-append_none (by_name w name) rows (row ∷ []) e
            ∙ find_single (by_name w name) row (rw (eq_refl name, ==_refl w) refl) in
          let found = within' _ row (upsert_types-grow w types _ _ row made) in
          rw found (upsert_types_again w types (rows ++ row ∷ []) more within')
    ]

ensure_chart_again :
    (w y b : ℕ) (rows rows' : List LedgerAccount) (map : List (SystemLedgerKey × Option ℕ))
    → ensure_workspace_chart_of_accounts w y b rows ≡ ok (rows', map)
    → ensure_workspace_chart_of_accounts w y b rows' ≡ ok (rows', map)
unfolding ensure_workspace_chart_of_accounts
ensure_chart_again w y b rows rows' map h =
    let ((seeded, ids), p, q) = >>=-eq-ok (seed_rows w y b chart_of_accounts rows []) _ h in
    let (same, same_map) = ok_pair seeded rows' _ map q in
    let again =
      seed_rows_again w y b chart_of_accounts rows seeded seeded [] ids chart_of_accounts-HasClass p
        (λ test x found. found) in
    subst (λ k. ensure_workspace_chart_of_accounts w y b k ≡ ok (k, map)) same
      (rw again (ap (λ m. ok (seeded, m)) same_map))

-- Provisioning a workspace a second time, when the first run succeeded, changes nothing
-- and gives the same map from system keys to accounts.
pub provision_again :
    (workspace currency : ℕ) (rows rows' : List LedgerAccount) (types types' : List AccountType)
    (map : List (SystemLedgerKey × Option ℕ))
    → provision_workspace_accounting workspace currency (rows, types) ≡ ok ((rows', types'), map)
    → provision_workspace_accounting workspace currency (rows', types') ≡ ok ((rows', types'), map)
unfolding provision_workspace_accounting ensure_default_account_types
provision_again w y rows rows' types types' map h =
    let ((seeded, map1), p, q) = >>=-eq-ok (ensure_workspace_chart_of_accounts w y y rows) _ h in
    let types1 = ensure_default_account_types w types in
    let (same, same_map) = ok_pair (seeded, types1) (rows', types') map1 map q in
    let again = upsert_types_again w default_account_types types types1 (λ test x found. found) in
    subst (λ k. provision_workspace_accounting w y k ≡ ok (k, map)) same
      (rw (provision_workspace_accounting, ensure_chart_again w y y rows seeded map1 p)
        (ap₂ (λ t m. ok ((seeded, t), m)) again same_map))
