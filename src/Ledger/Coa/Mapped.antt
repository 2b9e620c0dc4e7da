-- ===== src/Ledger/Coa/Mapped.antt =====
-- Categories that are mapped to an account of their own.
use project_task_cashbook_ba.Base.{
  ℕ, ◌≡◌, refl, sym, ap, ◌∙◌, subst, ◌==◌, ==_iff, ◌&&◌, Option, none, some, List, inl, inr,
  Bool-cases, Option-cases,
}
use project_task_cashbook_ba.Base.Result.{ok}
use project_task_cashbook_ba.Ledger.Types.{
  LedgerRef, SystemLedgerKey, LedgerAccountOrigin, LedgerAccountMeta,
}
use project_task_cashbook_ba.Ledger.Posting.{book_cash_of, wallet_of}
use project_task_cashbook_ba.Ledger.Effect.{kind_of_class, class_of_key, Fits}
use project_task_cashbook_ba.Ledger.Coa.Rows.{
  Chart, Category, LedgerAccount, find, by_id, wallet_holder, cashbook_holder,
}
use project_task_cashbook_ba.Ledger.Coa.Found.{find-passes}
use project_task_cashbook_ba.Ledger.Coa.Resolve.{
  resolve, gl_account, mapped_account, meta_for, meta_of_row,
}
use project_task_cashbook_ba.Ledger.Coa.Valid.{IsValid}
use project_task_cashbook_ba.Ledger.Coa.Kept.{meta_for-eq, resolve-find-by_id, resolve-categories}
use project_task_cashbook_ba.Ledger.Coa.Owned.{
  SystemAccount, WalletAccount, BookAccount, CategoryAccount, mapping, resolve-IsAccountOf,
}

-- The link of a category to its account.
abbrev link_of_row : Option Category → Option ℕ
link_of_row none = none
link_of_row (some k) = k.gl_account_id

abbrev category_link : Chart → Option ℕ → Option ℕ
category_link c none = none
category_link c (some id) = link_of_row (find (λ (k : Category). k.id == id) c.categories)

-- No origin of a wallet's or a book's account.
abbrev pub IsPlain : LedgerAccountOrigin → Type 0
IsPlain origin = (o : Option ℕ) → (book_cash_of origin o ≡ none) × (wallet_of origin o ≡ none)

-- The linked account, if any, is there, and counts as the key's own account does.
abbrev pub LinkFits : Chart → SystemLedgerKey → Option ℕ → Type 0
LinkFits c key none = Unit
LinkFits c key (some a) =
    (row : LedgerAccount) × (find (by_id a) c.accounts ≡ some row)
    × (kind_of_class row.class ≡ kind_of_class (class_of_key key))
    × IsPlain row.origin

abbrev pub CategoryFits : Option ℕ → SystemLedgerKey → Chart → Type 0
CategoryFits id key c = LinkFits c key (category_link c id)

LinkFits-resolve :
    (c c' : Chart) (w y : ℕ) (ref : LedgerRef) (b : ℕ) (key : SystemLedgerKey) (l : Option ℕ)
    → resolve c w y ref ≡ ok (c', b)
    → LinkFits c key l
    → LinkFits c' key l
LinkFits-resolve c c' w y ref b key none h q = tt
LinkFits-resolve c c' w y ref b key (some a) h (row, there, kind, plain) =
    (row, resolve-find-by_id c c' w y ref b a row h there, kind, plain)

category_link-eq :
    (c c' : Chart) (id : Option ℕ)
    → c'.categories ≡ c.categories
    → category_link c' id ≡ category_link c id
category_link-eq c c' none e = refl
category_link-eq c c' (some id) e = ap (λ k. link_of_row (find (λ (x : Category). x.id == id) k)) e

pub CategoryFits-resolve :
    (c c' : Chart) (workspace currency : ℕ) (ref : LedgerRef) (b : ℕ) (id : Option ℕ)
    (key : SystemLedgerKey)
    → resolve c workspace currency ref ≡ ok (c', b)
    → CategoryFits id key c
    → CategoryFits id key c'
CategoryFits-resolve c c' w y ref b id key h q =
    subst (LinkFits c' key) (sym (category_link-eq c c' id (resolve-categories c c' w y ref b h)))
      (LinkFits-resolve c c' w y ref b key (category_link c id) h q)

mapped_account-id :
    (o : Option LedgerAccount) (b : ℕ)
    → mapped_account o ≡ some b
    → (row : LedgerAccount) × (o ≡ some row) × (row.id ≡ b)
mapped_account-id none b h = cc
mapped_account-id (some row) b h = elim (Bool-cases (row.is_postable && row.is_active)) [
  | inl t ↦ let same : some row.id ≡ some b = rw t at h in (row, refl, cc)
  | inr t ↦ let failed : none ≡ some b = rw t at h in cc
]

gl_account-link :
    (o : Option Category) (rows : List LedgerAccount) (b : ℕ)
    → mapped_account (gl_account o rows) ≡ some b
    → link_of_row o ≡ some b
gl_account-link none rows b h = cc
gl_account-link (some k) rows b h = elim (Option-cases k.gl_account_id) [
  | inl n ↦ let failed : none ≡ some b = rw n at h in cc
  | inr (a, e) ↦
      let at_link : mapped_account (find (by_id a) rows) ≡ some b = rw e at h in
      let (row, there, is_b) = mapped_account-id (find (by_id a) rows) b at_link in
      let is_a : row.id ≡ a = (==_iff _ _).0 (find-passes _ rows row there) in
      e ∙ ap (λ t. some t) (sym is_a ∙ is_b)
]

-- A category that resolves to its own account is linked to it.
mapping-link :
    (c : Chart) (id : Option ℕ) (b : ℕ) → mapping c id ≡ some b → category_link c id ≡ some b
mapping-link c none b h = cc
mapping-link c (some id) b h =
    gl_account-link (find (λ (k : Category). k.id == id) c.categories) c.accounts b h

pub SystemAccount-Fits :
    (c : Chart) (currency a : ℕ) (key : SystemLedgerKey)
    → SystemAccount c currency key a
    → (m : LedgerAccountMeta) × (meta_for c a ≡ ok m) × Fits (LedgerRef.system key) m
SystemAccount-Fits c y a key (m, known, class, origin, _) = (
  m,
  known,
  record { kind = ap kind_of_class class; book = rw origin refl; wallet = rw origin refl },
)

pub WalletAccount-Fits :
    (c : Chart) (id a : ℕ)
    → WalletAccount c id a
    → (m : LedgerAccountMeta) × (meta_for c a ≡ ok m) × Fits (LedgerRef.wallet id) m
WalletAccount-Fits c id a (m, known, origin, own, kind) =
    (m, known, record { kind = kind; book = rw origin refl; wallet = rw origin own })

pub BookAccount-Fits :
    (c : Chart) (id a : ℕ)
    → BookAccount c id a
    → (m : LedgerAccountMeta) × (meta_for c a ≡ ok m) × Fits (LedgerRef.book_cash id) m
BookAccount-Fits c id a (m, known, origin, own, kind) =
    (m, known, record { kind = kind; book = rw origin own; wallet = rw origin refl })

CategoryAccount-Fits :
    (c c' : Chart) (currency a : ℕ) (id : Option ℕ) (key : SystemLedgerKey) (l : Option ℕ)
    → mapping c id ≡ l
    → CategoryFits id key c
    → CategoryAccount c c' currency key a l
    → (m : LedgerAccountMeta) × (meta_for c' a ≡ ok m) × Fits (LedgerRef.category id key) m
CategoryAccount-Fits c c' y a id key none e q h =
    let (m, known, f) = SystemAccount-Fits c' y a key h in
    (m, known, record { kind = f.kind; book = f.book; wallet = f.wallet })
CategoryAccount-Fits c c' y a id key (some b) e q (is_b, same) =
    let (row, there, kind, plain) : LinkFits c key (some b) =
      subst (LinkFits c key) (mapping-link c id b e) q in
    (
      meta_of_row c row,
      subst (λ k. meta_for k a ≡ ok (meta_of_row c row)) (sym same)
          (subst (λ k. meta_for c k ≡ ok (meta_of_row c row)) (sym is_b)
            (meta_for-eq c b row there)),
      record { kind = kind; book = (plain _).0; wallet = (plain _).1 },
    )

-- In a well-formed chart that fits it, a category resolves to an account that counts as its
-- fallback's does.
pub resolve_category-Fits :
    (c c' : Chart) (workspace currency : ℕ) (id : Option ℕ) (key : SystemLedgerKey) (a : ℕ)
    → IsValid c
    → CategoryFits id key c
    → resolve c workspace currency (LedgerRef.category id key) ≡ ok (c', a)
    → (m : LedgerAccountMeta) × (meta_for c' a ≡ ok m) × Fits (LedgerRef.category id key) m
resolve_category-Fits c c' w y id key a v q h =
    CategoryAccount-Fits c c' y a id key (mapping c id) refl q
      (resolve-IsAccountOf c c' w y (LedgerRef.category id key) a v h)
