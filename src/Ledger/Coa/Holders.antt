-- ===== src/Ledger/Coa/Holders.antt =====
-- What a reference to a wallet or to a book's cash resolves to.
use project_task_cashbook_ba.Base.{
  ℕ, ◌≡◌, sym, ap, ap₂, ◌∙◌, ◌==◌, ==_iff, true, not, none, some, List, inl, inr, ◌⊎◌, subst,
  Option-cases, Bool-cases,
}
use project_task_cashbook_ba.Base.Result.{ok, err, >>=-eq-ok, ok_pair}
use project_task_cashbook_ba.Ledger.Types.{LedgerAccountClass, LedgerAccountOrigin}
use project_task_cashbook_ba.Ledger.Posting.Resolver.{
  account_not_found, invalid_account, cashbook_not_found,
}
use project_task_cashbook_ba.Ledger.Coa.Template.{book_cash_parent_code}
use project_task_cashbook_ba.Ledger.Coa.Rows.{
  Chart, LedgerAccount, Wallet, Cashbook, find_holder, held, link, fresh_id, wallet_holder,
  cashbook_holder,
}
use project_task_cashbook_ba.Ledger.Coa.Seed.{
  create_account, child_account, wallet_parent, wallet_class, is_asset,
  ensure_wallet_ledger_account, ensure_cashbook_ledger_account,
}
use project_task_cashbook_ba.Ledger.Coa.Resolve.{resolve_wallet, resolve_book_cash}
use project_task_cashbook_ba.Ledger.Coa.Found.{find-passes}
use project_task_cashbook_ba.Ledger.Coa.Steps.{with_created, create_account-ok}

abbrev pub wallet_account : Wallet → List LedgerAccount → LedgerAccount
wallet_account x rows =
    child_account x.workspace_id x.currency (wallet_parent x.classification)
      (wallet_class x.classification) LedgerAccountOrigin.wallet_origin (is_asset x.classification)
      rows

abbrev pub wallet_linked : Wallet → Chart → Chart
wallet_linked x c = record c {
  accounts = with_created (wallet_account x c.accounts) c.accounts;
  wallets = link x.id (fresh_id c.accounts) c.wallets;
}

ensure_wallet-ok :
    (x : Wallet) (c c' : Chart) (a : ℕ)
    → held (find_holder x.id c.wallets) ≡ x.ledger_account_id
    → ensure_wallet_ledger_account x c ≡ ok (c', a)
    → ((x.ledger_account_id ≡ some a) × (c ≡ c'))
      ⊎ (x.ledger_account_id ≡ none) × (fresh_id c.accounts ≡ a) × (wallet_linked x c ≡ c')
unfolding ensure_wallet_ledger_account
ensure_wallet-ok x c c' a same h = elim (Option-cases x.ledger_account_id) [
  | inr (b, e) ↦ let (p, q) = ok_pair c c' b a (rw e at h) in inl (e ∙ ap (λ t. some t) q, p)
  | inl e ↦
      let ((rows, id), p, q) =
        >>=-eq-ok (create_account (wallet_account x c.accounts) c.accounts) _
          (rw (e, ensure_wallet_ledger_account, same ∙ e) at h) in
      let (grown, fresh) = create_account-ok (wallet_account x c.accounts) c.accounts rows id p in
      let (made, ids) = ok_pair _ c' id a q in
      inr (
        e,
        fresh ∙ ids,
        ap₂ (λ rs i. record c { accounts = rs; wallets = link x.id i c.wallets }) grown fresh
            ∙ made,
      )
]

pub resolve_wallet-ok :
    (c c' : Chart) (workspace id a : ℕ)
    → resolve_wallet c workspace id ≡ ok (c', a)
    → (x : Wallet) × (find_holder id c.wallets ≡ some x)
      × (((x.ledger_account_id ≡ some a) × (c ≡ c'))
          ⊎ (x.ledger_account_id ≡ none) × (fresh_id c.accounts ≡ a) × (wallet_linked x c ≡ c'))
unfolding resolve_wallet
resolve_wallet-ok c c' w id a h = elim (Option-cases (find_holder id c.wallets)) [
  | inl n ↦ let failed : err account_not_found ≡ ok (c', a) = rw (n, resolve_wallet) at h in cc
  | inr (x, f) ↦ elim (Bool-cases (not (x.workspace_id == w))) [
    | inl e ↦ let failed : err invalid_account ≡ ok (c', a) = rw (f, resolve_wallet, e) at h in cc
    | inr e ↦
        let same : x.id ≡ id = (==_iff _ _).0 (find-passes _ c.wallets x f) in
        (
          x,
          f,
          ensure_wallet-ok x c c' a
              (subst (λ k. held {H = Wallet} (find_holder k c.wallets) ≡ x.ledger_account_id)
                (sym same) (ap (held {H = Wallet}) f))
              (rw (f, resolve_wallet, e) at h),
        )
  ]
]

abbrev pub book_account : Cashbook → List LedgerAccount → LedgerAccount
book_account x rows =
    child_account x.workspace_id x.currency book_cash_parent_code LedgerAccountClass.asset
      LedgerAccountOrigin.book_cash_origin true rows

abbrev pub book_linked : Cashbook → Chart → Chart
book_linked x c = record c {
  accounts = with_created (book_account x c.accounts) c.accounts;
  cashbooks = link x.id (fresh_id c.accounts) c.cashbooks;
}

ensure_book-ok :
    (x : Cashbook) (c c' : Chart) (a : ℕ)
    → held (find_holder x.id c.cashbooks) ≡ x.cash_ledger_account_id
    → ensure_cashbook_ledger_account x c ≡ ok (c', a)
    → ((x.cash_ledger_account_id ≡ some a) × (c ≡ c'))
      ⊎ (x.cash_ledger_account_id ≡ none) × (fresh_id c.accounts ≡ a) × (book_linked x c ≡ c')
unfolding ensure_cashbook_ledger_account
ensure_book-ok x c c' a same h = elim (Option-cases x.cash_ledger_account_id) [
  | inr (b, e) ↦ let (p, q) = ok_pair c c' b a (rw e at h) in inl (e ∙ ap (λ t. some t) q, p)
  | inl e ↦
      let ((rows, id), p, q) =
        >>=-eq-ok (create_account (book_account x c.accounts) c.accounts) _
          (rw (e, ensure_cashbook_ledger_account, same ∙ e) at h) in
      let (grown, fresh) = create_account-ok (book_account x c.accounts) c.accounts rows id p in
      let (made, ids) = ok_pair _ c' id a q in
      inr (
        e,
        fresh ∙ ids,
        ap₂ (λ rs i. record c { accounts = rs; cashbooks = link x.id i c.cashbooks }) grown fresh
            ∙ made,
      )
]

pub resolve_book_cash-ok :
    (c c' : Chart) (id a : ℕ)
    → resolve_book_cash c id ≡ ok (c', a)
    → (x : Cashbook) × (find_holder id c.cashbooks ≡ some x)
      × (((x.cash_ledger_account_id ≡ some a) × (c ≡ c'))
          ⊎ (x.cash_ledger_account_id ≡ none) × (fresh_id c.accounts ≡ a) × (book_linked x c ≡ c'))
unfolding resolve_book_cash
resolve_book_cash-ok c c' id a h = elim (Option-cases (find_holder id c.cashbooks)) [
  | inl n ↦ let failed : err cashbook_not_found ≡ ok (c', a) = rw (n, resolve_book_cash) at h in cc
  | inr (x, f) ↦
      let same : x.id ≡ id = (==_iff _ _).0 (find-passes _ c.cashbooks x f) in
      (
        x,
        f,
        ensure_book-ok x c c' a
            (subst (λ k. held {H = Cashbook} (find_holder k c.cashbooks) ≡ x.cash_ledger_account_id)
              (sym same) (ap (held {H = Cashbook}) f))
            (rw (f, resolve_book_cash) at h),
      )
]
