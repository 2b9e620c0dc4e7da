-- ===== src/Ledger/Coa/Owned.antt =====
-- Which account a reference resolves to.
use project_task_cashbook_ba.Base.{
  ℕ, ◌≡◌, sym, ap, ◌∙◌, subst, Option, none, some, List, [], ◌∷◌, inl, inr, ◌==◌, ==_iff, true,
  false, Bool-cases, Option-cases,
}
use project_task_cashbook_ba.Base.Result.{ok, ok_pair}
use project_task_cashbook_ba.Ledger.Types.{
  LedgerRef, SystemLedgerKey, LedgerAccountOrigin, LedgerAccountMeta,
}
use project_task_cashbook_ba.Ledger.Effect.{Kind, kind_of_class, class_of_key, both_true}
use project_task_cashbook_ba.Ledger.Coa.Rows.{
  Chart, Wallet, Cashbook, Category, Holder, find, by_system_key, is_key, SystemLedgerKey-discrete,
  find_holder, link, fresh_id, wallet_holder, cashbook_holder,
}
use project_task_cashbook_ba.Ledger.Coa.Resolve.{
  resolve, resolve_category, resolve_wallet, resolve_book_cash, gl_account, mapped_account,
  meta_for, meta_of_row,
}
use project_task_cashbook_ba.Ledger.Coa.Found.{find-passes}
use project_task_cashbook_ba.Ledger.Coa.Steps.{resolve_system-ok}
use project_task_cashbook_ba.Ledger.Coa.Holders.{resolve_wallet-ok, resolve_book_cash-ok}
use project_task_cashbook_ba.Ledger.Coa.Valid.{IsValid, GoodRow, LinkedTo, All-find}
use project_task_cashbook_ba.Ledger.Coa.Kept.{resolve-IsValid, meta_for-eq}

is_key-eq :
    (key : SystemLedgerKey) (o : Option SystemLedgerKey) → is_key key o ≡ true → o ≡ some key
unfolding is_key
is_key-eq key none h = cc
is_key-eq key (some j) h =
    elim (SystemLedgerKey-discrete key j)
        as (λ d. elim d [ yes _ ↦ true | no _ ↦ false ] ≡ true → some j ≡ some key) [
          | yes e ↦ λ q. ap (λ t. some t) (sym e)
          | no _ ↦ λ q. cc
        ]
      h

-- The account of a system key: of the key's class and the currency, no wallet's and no book's.
abbrev pub SystemAccount : Chart → ℕ → SystemLedgerKey → ℕ → Type 0
SystemAccount c currency key a =
    (m : LedgerAccountMeta) × (meta_for c a ≡ ok m)
    × (m.class ≡ class_of_key key)
    × (m.origin ≡ LedgerAccountOrigin.system_origin)
    × (m.currency ≡ currency)

-- The account of a wallet and the cash account of a book, which count as neither income nor expense.
abbrev pub WalletAccount : Chart → ℕ → ℕ → Type 0
WalletAccount c id a =
    (m : LedgerAccountMeta) × (meta_for c a ≡ ok m)
    × (m.origin ≡ LedgerAccountOrigin.wallet_origin)
    × (m.wallet_account_id ≡ some id)
    × (kind_of_class m.class ≡ Kind.neither)

abbrev pub BookAccount : Chart → ℕ → ℕ → Type 0
BookAccount c id a =
    (m : LedgerAccountMeta) × (meta_for c a ≡ ok m)
    × (m.origin ≡ LedgerAccountOrigin.book_cash_origin)
    × (m.cashbook_id ≡ some id)
    × (kind_of_class m.class ≡ Kind.neither)

system_account :
    (c c' : Chart) (w y : ℕ) (key : SystemLedgerKey) (a : ℕ)
    → IsValid c
    → resolve c w y (LedgerRef.system key) ≡ ok (c', a)
    → SystemAccount c' y key a
unfolding resolve
system_account c c' w y key a v h =
    let (rows, row, e, found, id, _) = resolve_system-ok c c' w y key a h in
    let v' : IsValid c' = resolve-IsValid c c' w y (LedgerRef.system key) a v h in
    let found' : find (by_system_key w key y) c'.accounts ≡ some row = rw e found in
    let (there, keyed) = All-find (GoodRow c'.accounts) _ c'.accounts row v'.rows found' in
    let passed = both_true _ _ (find-passes _ c'.accounts row found') in
    let has_key = is_key-eq key row.system_key (both_true _ _ passed.0).1 in
    let (class, origin) = keyed key has_key in
    (
      meta_of_row c' row,
      subst (λ k. meta_for c' k ≡ ok (meta_of_row c' row)) (sym id)
          (meta_for-eq c' row.id row there),
      sym class,
      origin,
      (==_iff _ _).0 passed.1,
    )

-- The account of a linked wallet or book is the holder's.
module _ (c : Chart) (id a : ℕ) where
  linked_wallet :
      (x : Wallet)
      → x.id ≡ id
      → LinkedTo LedgerAccountOrigin.wallet_origin c.accounts c.wallets x a
      → WalletAccount c id a
  linked_wallet x e (row, there, origin, kind, own) =
      let same : row.id ≡ a = (==_iff _ _).0 (find-passes _ c.accounts row there) in
      (
        meta_of_row c row,
        meta_for-eq c a row there,
        origin,
        rw same (own ∙ ap (λ k. some k) e),
        kind,
      )

  linked_book :
      (x : Cashbook)
      → x.id ≡ id
      → LinkedTo LedgerAccountOrigin.book_cash_origin c.accounts c.cashbooks x a
      → BookAccount c id a
  linked_book x e (row, there, origin, kind, own) =
      let same : row.id ≡ a = (==_iff _ _).0 (find-passes _ c.accounts row there) in
      (
        meta_of_row c row,
        meta_for-eq c a row there,
        origin,
        rw same (own ∙ ap (λ k. some k) e),
        kind,
      )

-- Linking leaves the holder there, with its link.
find_holder-link :
    {H : Type 0} ⦃h : Holder H⦄ (id n : ℕ) (xs : List H) (x : H)
    → find_holder id xs ≡ some x
    → find_holder id (link id n xs) ≡ some (h.set_link n x)
unfolding find link
find_holder-link ⦃h⦄ id n [] x e = cc
find_holder-link ⦃h⦄ id n (y ∷ ys) x e = elim (Bool-cases (h.id_of y == id)) [
  | inl t ↦
      let same : some y ≡ some x = rw t at e in
      let same' : y ≡ x = cc in
      rw (t, find, h.id_of-set_link n y, t) (ap (λ z. some (h.set_link n z)) same')
  | inr t ↦ rw (t, find, t) (find_holder-link id n ys x (rw t at e))
]

wallet_after :
    (c c' : Chart) (w id a : ℕ)
    → resolve_wallet c w id ≡ ok (c', a)
    → (x : Wallet) × (find_holder id c'.wallets ≡ some x) × (x.ledger_account_id ≡ some a)
wallet_after c c' w id a h =
    let (x, found, cases) = resolve_wallet-ok c c' w id a h in
    let same : x.id ≡ id = (==_iff _ _).0 (find-passes _ c.wallets x found) in
    let After : Chart → Type 0 =
      λ k. (z : Wallet) × (find_holder id k.wallets ≡ some z) × (z.ledger_account_id ≡ some a) in
    elim cases [
      | inl (linked, e) ↦ subst After e (x, found, linked)
      | inr (n, fresh, e) ↦ subst After e (
        record x { ledger_account_id = some (fresh_id c.accounts) },
        subst
            (λ k.
              find_holder id (link k (fresh_id c.accounts) c.wallets)
              ≡ some (record x { ledger_account_id = some (fresh_id c.accounts) }))
            (sym same) (find_holder-link id (fresh_id c.accounts) c.wallets x found),
        ap (λ k. some k) fresh,
      )
    ]

book_after :
    (c c' : Chart) (id a : ℕ)
    → resolve_book_cash c id ≡ ok (c', a)
    → (x : Cashbook) × (find_holder id c'.cashbooks ≡ some x) × (x.cash_ledger_account_id ≡ some a)
book_after c c' id a h =
    let (x, found, cases) = resolve_book_cash-ok c c' id a h in
    let same : x.id ≡ id = (==_iff _ _).0 (find-passes _ c.cashbooks x found) in
    let After : Chart → Type 0 = λ k.
      (z : Cashbook) × (find_holder id k.cashbooks ≡ some z)
      × (z.cash_ledger_account_id ≡ some a) in
    elim cases [
      | inl (linked, e) ↦ subst After e (x, found, linked)
      | inr (n, fresh, e) ↦ subst After e (
        record x { cash_ledger_account_id = some (fresh_id c.accounts) },
        subst
            (λ k.
              find_holder id (link k (fresh_id c.accounts) c.cashbooks)
              ≡ some (record x { cash_ledger_account_id = some (fresh_id c.accounts) }))
            (sym same) (find_holder-link id (fresh_id c.accounts) c.cashbooks x found),
        ap (λ k. some k) fresh,
      )
    ]

-- The account that a category is mapped to, if it can be posted to.
abbrev pub mapping : Chart → Option ℕ → Option ℕ
mapping c none = none
mapping c (some id) =
    mapped_account (gl_account (find (λ (k : Category). k.id == id) c.categories) c.accounts)

abbrev pub CategoryAccount : Chart → Chart → ℕ → SystemLedgerKey → ℕ → Option ℕ → Type 0
CategoryAccount c c' currency key a none = SystemAccount c' currency key a
CategoryAccount c c' currency key a (some b) = (a ≡ b) × (c' ≡ c)

-- What each reference asks of its account, in the chart before and after.
abbrev pub IsAccountOf : Chart → Chart → ℕ → LedgerRef → ℕ → Type 0
IsAccountOf c c' currency (LedgerRef.explicit id) a = (a ≡ id) × (c' ≡ c)
IsAccountOf c c' currency (LedgerRef.system key) a = SystemAccount c' currency key a
IsAccountOf c c' currency (LedgerRef.wallet id) a = WalletAccount c' id a
IsAccountOf c c' currency (LedgerRef.book_cash id) a = BookAccount c' id a
IsAccountOf c c' currency (LedgerRef.category id key) a =
    CategoryAccount c c' currency key a (mapping c id)

category_account :
    (c c' : Chart) (w y : ℕ) (id : Option ℕ) (key : SystemLedgerKey) (a : ℕ)
    → IsValid c
    → resolve c w y (LedgerRef.category id key) ≡ ok (c', a)
    → CategoryAccount c c' y key a (mapping c id)
unfolding resolve resolve_category
category_account c c' w y none key a v h = system_account c c' w y key a v h
category_account c c' w y (some id) key a v h = elim (Option-cases (mapping c (some id))) [
  | inl e ↦ rw e (system_account c c' w y key a v (rw (e, resolve_category) at h))
  | inr (b, e) ↦
      let (same, is_b) = ok_pair c c' b a (rw (e, resolve_category) at h) in
      rw e (sym is_b, sym same)
]

-- In a well-formed chart a system key resolves to an account of the template's class for the key, of
-- origin SYSTEM and in the currency asked for; a wallet to the account with origin WALLET that it
-- owns, and a book to the cash account with origin BOOK_CASH that it owns, neither of them income or
-- expense. A category that is mapped to an account that can be posted to resolves to that account,
-- any other to its fallback's as a system key does, and an explicit id to itself; a mapped category
-- and an explicit id leave the chart as it is.
pub resolve-IsAccountOf :
    (c c' : Chart) (workspace currency : ℕ) (ref : LedgerRef) (a : ℕ)
    → IsValid c
    → resolve c workspace currency ref ≡ ok (c', a)
    → IsAccountOf c c' currency ref a
unfolding resolve
resolve-IsAccountOf c c' w y (LedgerRef.explicit id) a v h =
    let (same, is_id) = ok_pair c c' id a h in (sym is_id, sym same)
resolve-IsAccountOf c c' w y (LedgerRef.system key) a v h = system_account c c' w y key a v h
resolve-IsAccountOf c c' w y (LedgerRef.category id key) a v h =
    category_account c c' w y id key a v h
resolve-IsAccountOf c c' w y (LedgerRef.wallet id) a v h =
    let v' : IsValid c' = resolve-IsValid c c' w y (LedgerRef.wallet id) a v h in
    let (x, found, linked) = wallet_after c c' w id a h in
    linked_wallet c' id a x ((==_iff _ _).0 (find-passes _ c'.wallets x found))
      (All-find _ _ c'.wallets x v'.wallets found a linked)
resolve-IsAccountOf c c' w y (LedgerRef.book_cash id) a v h =
    let v' : IsValid c' = resolve-IsValid c c' w y (LedgerRef.book_cash id) a v h in
    let (x, found, linked) = book_after c c' id a h in
    linked_book c' id a x ((==_iff _ _).0 (find-passes _ c'.cashbooks x found))
      (All-find _ _ c'.cashbooks x v'.cashbooks found a linked)
