-- ===== src/Ledger/Coa/Fresh.antt =====
-- The accounts of wallets and books can always be made.
use project_task_cashbook_ba.Base.{
  ℕ, ◌≤◌, ◌<◌, ◌≡◌, refl, ◌==◌, ==_iff, ==_refl, true, false, Option, none, some, List, [], ◌∷◌,
  inl, inr, Bool-cases, Option-cases, arith,
}
use project_task_cashbook_ba.Base.Result.{ok}
use project_task_cashbook_ba.Ledger.Effect.{both_true}
use project_task_cashbook_ba.Ledger.Coa.Rows.{
  Code, Code-discrete, Chart, LedgerAccount, Wallet, find, by_code, same_code, fresh_id,
  find_holder, held, Cashbook, wallet_holder, cashbook_holder,
}
use project_task_cashbook_ba.Ledger.Coa.Seed.{
  child_number, raise, highest_child, next_child_code, create_account, key_taken, wallet_parent,
  ensure_wallet_ledger_account, ensure_cashbook_ledger_account,
}
use project_task_cashbook_ba.Ledger.Coa.Steps.{with_created}
use project_task_cashbook_ba.Ledger.Coa.Holders.{
  wallet_account, wallet_linked, book_account, book_linked,
}
use project_task_cashbook_ba.Ledger.Coa.Template.{book_cash_parent_code}
use project_task_cashbook_ba.Ledger.Types.{LedgerRef}
use project_task_cashbook_ba.Ledger.Coa.Resolve.{resolve, resolve_wallet, resolve_book_cash}

same_code-eq : (a b : Code) → same_code a b ≡ true → a ≡ b
unfolding same_code
same_code-eq a b =
    elim (Code-discrete a b) as (λ d. elim d [ yes _ ↦ true | no _ ↦ false ] ≡ true → a ≡ b) [
      | yes e ↦ λ q. e
      | no _ ↦ λ q. cc
    ]

le-raise : (highest : ℕ) (n : Option ℕ) → highest ≤ raise highest n
le-raise highest none = omega arith
le-raise highest (some n) = ground arith

raise-ge : (highest n : ℕ) → n ≤ raise highest (some n)
raise-ge highest n = ground arith

le-highest_child :
    (w p : ℕ) (rows : List LedgerAccount) (highest : ℕ) → highest ≤ highest_child w p highest rows
unfolding highest_child
le-highest_child w p [] highest = omega arith
le-highest_child w p (row ∷ rows) highest = elim (Bool-cases (row.workspace_id == w)) [
  | inl e ↦ rw e (
      omega (
        arith,
        le-raise highest (child_number p row.code),
        le-highest_child w p rows (raise highest (child_number p row.code)),
      ))
  | inr e ↦ rw e (le-highest_child w p rows highest)
]

find-highest_child :
    (w p n : ℕ) (rows : List LedgerAccount) (highest : ℕ)
    → highest_child w p highest rows < n
    → find (by_code w (Code.child p n)) rows ≡ none
unfolding highest_child find
find-highest_child w p n [] highest l = refl
find-highest_child w p n (row ∷ rows) highest l =
    elim (Bool-cases (by_code w (Code.child p n) row)) [
      | inl e ↦
          let (here, code) =
            both_true (row.workspace_id == w) (same_code row.code (Code.child p n)) e in
          let same = same_code-eq row.code (Code.child p n) code in
          let numbered : child_number p row.code ≡ some n = rw (same, ==_refl p) refl in
          let l' : highest_child w p (raise highest (some n)) rows < n = rw (here, numbered) at l in
          absurd
            (omega (arith, raise-ge highest n, le-highest_child w p rows (raise highest (some n))))
      | inr e ↦ rw e (find-highest_child w p n rows _ l)
    ]

-- No account of the workspace has the code that `nextChildCode` gives.
pub find-next_child_code :
    (workspace parent : ℕ) (rows : List LedgerAccount)
    → find (by_code workspace (next_child_code workspace parent rows)) rows ≡ none
unfolding next_child_code
find-next_child_code w p rows = find-highest_child w p _ rows 0 (omega arith)

create_account_total :
    (row : LedgerAccount) (rows : List LedgerAccount)
    → find (by_code row.workspace_id row.code) rows ≡ none
    → key_taken row row.system_key rows ≡ none
    → create_account row rows ≡ ok (with_created row rows, fresh_id rows)
unfolding create_account
create_account_total row rows e k = rw (e, create_account, k) refl

ensure_wallet_total :
    (x : Wallet) (c : Chart)
    → (c' : Chart) × (a : ℕ) × (ensure_wallet_ledger_account x c ≡ ok (c', a))
unfolding ensure_wallet_ledger_account
ensure_wallet_total x c = elim (Option-cases x.ledger_account_id) [
  | inr (b, e) ↦ (c, b, rw (e, ensure_wallet_ledger_account) refl)
  | inl e ↦ elim (Option-cases (held (find_holder x.id c.wallets))) [
    | inr (b, f) ↦ (c, b, rw (e, ensure_wallet_ledger_account, f) refl)
    | inl f ↦ (
      wallet_linked x c,
      fresh_id c.accounts,
      rw
          (
            e,
            ensure_wallet_ledger_account,
            f,
            create_account_total (wallet_account x c.accounts) c.accounts
                (find-next_child_code x.workspace_id (wallet_parent x.classification) c.accounts)
                refl,
          )
          refl,
    )
  ]
]

ensure_book_total :
    (x : Cashbook) (c : Chart)
    → (c' : Chart) × (a : ℕ) × (ensure_cashbook_ledger_account x c ≡ ok (c', a))
unfolding ensure_cashbook_ledger_account
ensure_book_total x c = elim (Option-cases x.cash_ledger_account_id) [
  | inr (b, e) ↦ (c, b, rw (e, ensure_cashbook_ledger_account) refl)
  | inl e ↦ elim (Option-cases (held (find_holder x.id c.cashbooks))) [
    | inr (b, f) ↦ (c, b, rw (e, ensure_cashbook_ledger_account, f) refl)
    | inl f ↦ (
      book_linked x c,
      fresh_id c.accounts,
      rw
          (
            e,
            ensure_cashbook_ledger_account,
            f,
            create_account_total (book_account x c.accounts) c.accounts
                (find-next_child_code x.workspace_id book_cash_parent_code c.accounts) refl,
          )
          refl,
    )
  ]
]

-- A wallet of the workspace always resolves, and so does every book: the code of an
-- account that has to be made is never taken.
pub resolve_holder_total :
    (c : Chart) (workspace currency : ℕ)
    → ((id : ℕ) (x : Wallet)
        → find_holder id c.wallets ≡ some x
        → x.workspace_id ≡ workspace
        → (c' : Chart) × (a : ℕ) × (resolve c workspace currency (LedgerRef.wallet id)
            ≡ ok (c', a)))
      × ((id : ℕ) (x : Cashbook)
          → find_holder id c.cashbooks ≡ some x
          → (c' : Chart) × (a : ℕ) × (resolve c workspace currency (LedgerRef.book_cash id)
              ≡ ok (c', a)))
unfolding resolve resolve_wallet resolve_book_cash
resolve_holder_total c w y = (
  λ id x found here.
      let (c', a, p) = ensure_wallet_total x c in
      let there : (x.workspace_id == w) ≡ true = (==_iff _ _).1 here in
      (c', a, rw (found, resolve_wallet, there) p),
  λ id x found. let (c', a, p) = ensure_book_total x c in (c', a, rw (found, resolve_book_cash) p),
)
