-- ===== src/Ledger/Coa/Kept.antt =====
-- Resolving a reference, whatever it is.
use project_task_cashbook_ba.Base.{
  ℕ, ◌≡◌, refl, sym, ap, ap₂, ◌∙◌, subst, Option, none, some, List, inl, inr, ◌==◌, ==_iff,
  Option-cases,
}
use project_task_cashbook_ba.Base.Result.{ok, err, ok_pair}
use project_task_cashbook_ba.Ledger.Types.{LedgerRef, SystemLedgerKey, LedgerAccountMeta}
use project_task_cashbook_ba.Ledger.Posting.Resolver.{account_missing}
use project_task_cashbook_ba.Ledger.Effect.{Kind, kind_of_class}
use project_task_cashbook_ba.Ledger.Coa.Seed.{wallet_class}
use project_task_cashbook_ba.Ledger.Coa.Rows.{
  Chart, AccountClassification, LedgerAccount, Wallet, Cashbook, Category, find, by_id, owner,
  find_holder, held, wallet_holder, cashbook_holder,
}
use project_task_cashbook_ba.Ledger.Coa.Resolve.{
  resolve, resolve_category, gl_account, mapped_account, meta_for, meta_of_row, resolve_system,
}
use project_task_cashbook_ba.Ledger.Coa.Found.{
  find-append_some, find-passes, find-lt-fresh_id, owner-link_other,
}
use project_task_cashbook_ba.Ledger.Coa.Steps.{Closed, resolve_system-ok}
use project_task_cashbook_ba.Ledger.Coa.Holders.{
  wallet_account, wallet_linked, book_account, book_linked, resolve_wallet-ok, resolve_book_cash-ok,
}
use project_task_cashbook_ba.Ledger.Coa.Valid.{
  IsValid, GoodRows-with_created, Linked-with_created, Linked-link,
}

pub data Change (c : Chart) (c' : Chart) : Type 1 where
  seeded :
      (rows : List LedgerAccount)
      → record c { accounts = rows } ≡ c'
      → ((P : List LedgerAccount → Type 0) → Closed P → P c.accounts → P rows)
      → Change c c'
  wallet_added :
      (x : Wallet)
      → find_holder x.id c.wallets ≡ some x
      → x.ledger_account_id ≡ none
      → wallet_linked x c ≡ c'
      → Change c c'
  book_added :
      (x : Cashbook)
      → find_holder x.id c.cashbooks ≡ some x
      → x.cash_ledger_account_id ≡ none
      → book_linked x c ≡ c'
      → Change c c'

unchanged : (c c' : Chart) → c ≡ c' → Change c c'
unchanged c c' e = seeded c.accounts e (λ P closed p. p)

system-Change :
    (c c' : Chart) (w y : ℕ) (key : SystemLedgerKey) (a : ℕ)
    → resolve_system c w y key ≡ ok (c', a)
    → Change c c'
system-Change c c' w y key a h =
    let (rows, row, e, _, _, closed) = resolve_system-ok c c' w y key a h in
    seeded rows (sym e) closed

-- What resolving may do to the chart.
pub resolve-Change :
    (c c' : Chart) (workspace currency : ℕ) (ref : LedgerRef) (a : ℕ)
    → resolve c workspace currency ref ≡ ok (c', a)
    → Change c c'
unfolding resolve resolve_category
resolve-Change c c' w y (LedgerRef.explicit id) a h = unchanged c c' (ok_pair c c' id a h).0
resolve-Change c c' w y (LedgerRef.system key) a h = system-Change c c' w y key a h
resolve-Change c c' w y (LedgerRef.category none key) a h = system-Change c c' w y key a h
resolve-Change c c' w y (LedgerRef.category (some id) key) a h =
    elim (Option-cases
      (mapped_account (gl_account (find (λ (k : Category). k.id == id) c.categories) c.accounts))) [
        | inl e ↦ system-Change c c' w y key a (rw (e, resolve_category) at h)
        | inr (b, e) ↦ unchanged c c' (ok_pair c c' b a (rw (e, resolve_category) at h)).0
      ]
resolve-Change c c' w y (LedgerRef.wallet id) a h =
    let (x, found, cases) = resolve_wallet-ok c c' w id a h in
    let same : x.id ≡ id = (==_iff _ _).0 (find-passes _ c.wallets x found) in
    elim cases [
      | inl (_, e) ↦ unchanged c c' e
      | inr (n, _, e) ↦
          wallet_added x (subst (λ k. find_holder k c.wallets ≡ some x) (sym same) found) n e
    ]
resolve-Change c c' w y (LedgerRef.book_cash id) a h =
    let (x, found, cases) = resolve_book_cash-ok c c' id a h in
    let same : x.id ≡ id = (==_iff _ _).0 (find-passes _ c.cashbooks x found) in
    elim cases [
      | inl (_, e) ↦ unchanged c c' e
      | inr (n, _, e) ↦
          book_added x (subst (λ k. find_holder k c.cashbooks ≡ some x) (sym same) found) n e
    ]

wallet_kind : (k : AccountClassification) → kind_of_class (wallet_class k) ≡ Kind.neither
wallet_kind AccountClassification.asset_wallet = refl
wallet_kind AccountClassification.liability_wallet = refl

Change-IsValid : (c c' : Chart) → Change c c' → IsValid c → IsValid c'
Change-IsValid c c' (seeded rows e closed) v = subst IsValid e (
    closed (λ rs. IsValid (record c { accounts = rs }))
      (λ row rs keyed k. record {
        rows = GoodRows-with_created row rs keyed k.rows;
        wallets = Linked-with_created _ row rs c.wallets c.wallets k.wallets;
        cashbooks = Linked-with_created _ row rs c.cashbooks c.cashbooks k.cashbooks;
      })
      v)
Change-IsValid c c' (wallet_added x found n e) v = subst IsValid e (record {
  rows = GoodRows-with_created (wallet_account x c.accounts) c.accounts (λ key h. cc) v.rows;
  wallets =
      Linked-link _ (wallet_account x c.accounts) c.accounts x.id c.wallets x refl
        (wallet_kind x.classification) found n v.wallets;
  cashbooks =
      Linked-with_created _ (wallet_account x c.accounts) c.accounts c.cashbooks c.cashbooks
        v.cashbooks;
})
Change-IsValid c c' (book_added x found n e) v = subst IsValid e (record {
  rows = GoodRows-with_created (book_account x c.accounts) c.accounts (λ key h. cc) v.rows;
  wallets =
      Linked-with_created _ (book_account x c.accounts) c.accounts c.wallets c.wallets v.wallets;
  cashbooks =
      Linked-link _ (book_account x c.accounts) c.accounts x.id c.cashbooks x refl refl found n
        v.cashbooks;
})

-- Resolving any reference keeps the chart well-formed: every account is found by its id, an account
-- with a system key has the template's class and the origin SYSTEM, and a linked wallet or cashbook
-- has an account of its own, of its origin, that is neither income nor expense.
pub resolve-IsValid :
    (c c' : Chart) (workspace currency : ℕ) (ref : LedgerRef) (a : ℕ)
    → IsValid c
    → resolve c workspace currency ref ≡ ok (c', a)
    → IsValid c'
resolve-IsValid c c' w y ref a v h = Change-IsValid c c' (resolve-Change c c' w y ref a h) v

pub meta_for-ok :
    (c : Chart) (a : ℕ) (m : LedgerAccountMeta)
    → meta_for c a ≡ ok m
    → (row : LedgerAccount) × (find (by_id a) c.accounts ≡ some row) × (meta_of_row c row ≡ m)
unfolding meta_for
meta_for-ok c a m h = elim (Option-cases (find (by_id a) c.accounts)) [
  | inl n ↦ let failed : err account_missing ≡ ok m = rw (n, meta_for) at h in cc
  | inr (row, e) ↦ let found : ok (meta_of_row c row) ≡ ok m = rw (e, meta_for) at h in (row, e, cc)
]

pub meta_for-eq :
    (c : Chart) (a : ℕ) (row : LedgerAccount)
    → find (by_id a) c.accounts ≡ some row
    → meta_for c a ≡ ok (meta_of_row c row)
unfolding meta_for
meta_for-eq c a row e = rw (e, meta_for)

-- A row that is there stays, with its holders.
abbrev Stays : Chart → ℕ → LedgerAccount → Chart → Type 0
Stays c a row c' =
    (find (by_id a) c'.accounts ≡ some row)
    × (owner a c'.wallets ≡ owner a c.wallets)
    × (owner a c'.cashbooks ≡ owner a c.cashbooks)

Change-Stays :
    (c c' : Chart) (a : ℕ) (row : LedgerAccount)
    → find (by_id a) c.accounts ≡ some row
    → Change c c'
    → Stays c a row c'
Change-Stays c c' a row there (seeded rows e closed) = subst (Stays c a row) e (
  closed (λ rs. find (by_id a) rs ≡ some row) (λ r rs keyed. find-append_some _ rs _ row) there,
  refl,
  refl,
)
Change-Stays c c' a row there (wallet_added x found n e) = subst (Stays c a row) e (
  find-append_some _ c.accounts _ row there,
  owner-link_other x.id _ a c.wallets (ap held found ∙ n) (find-lt-fresh_id a _ row there),
  refl,
)
Change-Stays c c' a row there (book_added x found n e) = subst (Stays c a row) e (
  find-append_some _ c.accounts _ row there,
  refl,
  owner-link_other x.id _ a c.cashbooks (ap held found ∙ n) (find-lt-fresh_id a _ row there),
)

-- Resolving any reference leaves the metadata of every account as it is.
pub resolve-meta_for :
    (c c' : Chart) (workspace currency : ℕ) (ref : LedgerRef) (b a : ℕ) (m : LedgerAccountMeta)
    → resolve c workspace currency ref ≡ ok (c', b)
    → meta_for c a ≡ ok m
    → meta_for c' a ≡ ok m
resolve-meta_for c c' w y ref b a m h q =
    let (row, there, e) = meta_for-ok c a m q in
    let same : row.id ≡ a = (==_iff _ _).0 (find-passes _ c.accounts row there) in
    let (stays, wallets, books) = Change-Stays c c' a row there (resolve-Change c c' w y ref b h) in
    let wallet = subst (λ k. owner k c'.wallets ≡ owner k c.wallets) (sym same) wallets in
    let book = subst (λ k. owner k c'.cashbooks ≡ owner k c.cashbooks) (sym same) books in
    let with_owners =
      λ (x y' : Option ℕ). record (meta_of_row c row) { wallet_account_id = x; cashbook_id = y' } in
    meta_for-eq c' a row stays ∙ ap (λ k. ok k) (ap₂ with_owners wallet book ∙ e)

pub resolve-find-by_id :
    (c c' : Chart) (workspace currency : ℕ) (ref : LedgerRef) (b a : ℕ) (row : LedgerAccount)
    → resolve c workspace currency ref ≡ ok (c', b)
    → find (by_id a) c.accounts ≡ some row
    → find (by_id a) c'.accounts ≡ some row
resolve-find-by_id c c' w y ref b a row h there =
    (Change-Stays c c' a row there (resolve-Change c c' w y ref b h)).0

Change-categories : (c c' : Chart) → Change c c' → c'.categories ≡ c.categories
Change-categories c c' (seeded rows e closed) = ap (λ k. k.categories) (sym e)
Change-categories c c' (wallet_added x found n e) = ap (λ k. k.categories) (sym e)
Change-categories c c' (book_added x found n e) = ap (λ k. k.categories) (sym e)

pub resolve-categories :
    (c c' : Chart) (workspace currency : ℕ) (ref : LedgerRef) (b : ℕ)
    → resolve c workspace currency ref ≡ ok (c', b)
    → c'.categories ≡ c.categories
resolve-categories c c' w y ref b h = Change-categories c c' (resolve-Change c c' w y ref b h)
