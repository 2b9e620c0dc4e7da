-- ===== src/Ledger/Coa/Valid.antt =====
-- What a chart keeps, and the charts of which it holds as the store of the posting service.
use project_task_cashbook_ba.Base.{
  ℕ, ◌≡◌, refl, sym, ap, ◌∙◌, subst, Option, none, some, List, [], ◌∷◌, All, All-imp, All-append,
  inl, inr, ◌==◌, ==_refl, ==_iff, ◌<◌, Bool, false, arith, Option-cases, Bool-cases,
}
use project_task_cashbook_ba.Ledger.Types.{LedgerAccountOrigin}
use project_task_cashbook_ba.Ledger.Effect.{Kind, kind_of_class}
use project_task_cashbook_ba.Ledger.Coa.Rows.{
  Chart, LedgerAccount, Holder, find, by_id, owner, find_holder, held, link, links_to, fresh_id,
  wallet_holder, cashbook_holder,
}
use project_task_cashbook_ba.Ledger.Coa.Found.{
  find-append_some, find-append_none, find-lt-fresh_id, owner-link_other,
}
use project_task_cashbook_ba.Ledger.Coa.Steps.{with_created, Keyed}

-- An account is found by its id, and a seeded one has its key's class.
abbrev pub GoodRow : List LedgerAccount → LedgerAccount → Type 0
GoodRow rows row = (find (by_id row.id) rows ≡ some row) × Keyed row

module _ {H : Type 0} ⦃h : Holder H⦄ where
  -- The account is there, has the origin and neither kind, and belongs to the holder alone.
  abbrev pub LinkedTo : LedgerAccountOrigin → List LedgerAccount → List H → H → ℕ → Type 0
  LinkedTo origin rows all x a =
      (row : LedgerAccount) × (find (by_id a) rows ≡ some row)
      × (row.origin ≡ origin)
      × (kind_of_class row.class ≡ Kind.neither)
      × (owner a all ≡ some (h.id_of x))

  abbrev pub Linked : LedgerAccountOrigin → List LedgerAccount → List H → H → Type 0
  Linked origin rows all x = (a : ℕ) → h.link_of x ≡ some a → LinkedTo origin rows all x a

pub record IsValid (c : Chart) : Type 0 where
  pub rows : All (GoodRow c.accounts) c.accounts
  pub wallets : All (Linked LedgerAccountOrigin.wallet_origin c.accounts c.wallets) c.wallets
  pub cashbooks :
      All (Linked LedgerAccountOrigin.book_cash_origin c.accounts c.cashbooks) c.cashbooks

pub All-find {ℓ κ} :
    {A : Type ℓ} (P : A → Type κ) (p : A → Bool) (xs : List A) (x : A)
    → All P xs
    → find p xs ≡ some x
    → P x
unfolding find
All-find P p [] x h e = cc
All-find P p (y ∷ xs) x (h, hs) e = elim (Bool-cases (p y)) [
  | inl t ↦ let same : some y ≡ some x = rw t at e in let same' : y ≡ x = cc in subst P same' h
  | inr t ↦ All-find P p xs x hs (rw t at e)
]

-- No account has the next id.
find-fresh_id : (rows : List LedgerAccount) → find (by_id (fresh_id rows)) rows ≡ none
find-fresh_id rows = elim (Option-cases (find (by_id (fresh_id rows)) rows)) [
  | inl e ↦ e
  | inr (row, e) ↦ let below = find-lt-fresh_id (fresh_id rows) rows row e in absurd (omega arith)
]

pub find-with_created :
    (row : LedgerAccount) (rows : List LedgerAccount)
    → find (by_id (fresh_id rows)) (with_created row rows)
      ≡ some (record row { id = fresh_id rows })
unfolding find
find-with_created row rows =
    find-append_none _ rows _ (find-fresh_id rows) ∙ rw (==_refl (fresh_id rows)) refl

pub GoodRows-with_created :
    (row : LedgerAccount) (rows : List LedgerAccount)
    → Keyed row
    → All (GoodRow rows) rows
    → All (GoodRow (with_created row rows)) (with_created row rows)
GoodRows-with_created row rows k h =
    All-append (GoodRow (with_created row rows)) rows (record row { id = fresh_id rows } ∷ [])
      (All-imp rows (λ r (found, keyed). (find-append_some _ rows _ r found, keyed)) h)
      ((find-with_created row rows, k), tt)

links_to-below : (n : ℕ) (l : Option ℕ) → ((a : ℕ) → l ≡ some a → a < n) → links_to n l ≡ false
links_to-below n none q = refl
links_to-below n (some a) q = let below = q a refl in ground arith

module _ {H : Type 0} ⦃h : Holder H⦄ where
  pub Linked-with_created :
      (origin : LedgerAccountOrigin) (row : LedgerAccount) (rows : List LedgerAccount)
      (all xs : List H)
      → All (Linked origin rows all) xs
      → All (Linked origin (with_created row rows) all) xs
  Linked-with_created origin row rows all xs = All-imp xs λ x linked a e.
      let (r, found, from, kind, own) = linked a e in
      (r, find-append_some _ rows _ r found, from, kind, own)

  All-link {κ ι} :
      (P : H → Type κ) (Q : H → Type ι) (id n : ℕ) (xs : List H)
      → ((x : H) → P x → Q x)
      → ((x : H) → h.id_of x ≡ id → Q (h.set_link n x))
      → All P xs
      → All Q (link id n xs)
  unfolding link
  All-link P Q id n [] f g q = tt
  All-link P Q id n (x ∷ xs) f g (q, qs) = elim (Bool-cases (h.id_of x == id)) [
    | inl e ↦ rw e (g x ((==_iff _ _).0 e), All-imp xs f qs)
    | inr e ↦ rw e (f x q, All-link P Q id n xs f g qs)
  ]

  -- The holder that was linked is the owner, when no other has the account.
  owner-link_same :
      (id n : ℕ) (xs : List H) (x : H)
      → find_holder id xs ≡ some x
      → All (λ y. (a : ℕ) → h.link_of y ≡ some a → a < n) xs
      → owner n (link id n xs) ≡ some id
  unfolding find link owner
  owner-link_same id n [] x e q = cc
  owner-link_same id n (y ∷ ys) x e (q, qs) = elim (Bool-cases (h.id_of y == id)) [
    | inl t ↦
        rw (t, owner, h.link_of-set_link n y, ==_refl n, h.id_of-set_link n y)
          (ap (λ k. some k) ((==_iff _ _).0 t))
    | inr t ↦
        rw (t, owner, links_to-below n (h.link_of y) q) (owner-link_same id n ys x (rw t at e) qs)
  ]

  pub Linked-link :
      (origin : LedgerAccountOrigin) (row : LedgerAccount) (rows : List LedgerAccount) (id : ℕ)
      (xs : List H) (x : H)
      → row.origin ≡ origin
      → kind_of_class row.class ≡ Kind.neither
      → find_holder id xs ≡ some x
      → h.link_of x ≡ none
      → All (Linked origin rows xs) xs
      → All
          (Linked origin (with_created row rows) (link id (fresh_id rows) xs))
          (link id (fresh_id rows) xs)
  Linked-link origin row rows id xs x from kind found unlinked q =
      let n = fresh_id rows in
      let below : All (λ y. (a : ℕ) → h.link_of y ≡ some a → a < n) xs =
        All-imp xs
          (λ y linked a e. let (r, there, _, _, _) = linked a e in find-lt-fresh_id a rows r there)
          q in
      All-link (Linked origin rows xs) (Linked origin (with_created row rows) (link id n xs)) id n
        xs
        (λ z linked a e.
          let (r, there, o, k, own) = linked a e in
          (
            r,
            find-append_some _ rows _ r there,
            o,
            k,
            owner-link_other id n a xs (ap held found ∙ unlinked) (find-lt-fresh_id a rows r there)
                ∙ own,
          ))
        (λ z same a e.
          let linked : some n ≡ some a = sym (h.link_of-set_link n z) ∙ e in
          let here : n ≡ a = cc in
          subst (LinkedTo origin (with_created row rows) (link id n xs) (h.set_link n z)) here (
            record row { id = n },
            find-with_created row rows,
            from,
            kind,
            owner-link_same id n xs x found below
                ∙ ap (λ k. some k) (sym (h.id_of-set_link n z ∙ same)),
          ))
        q
