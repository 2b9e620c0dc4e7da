-- ===== src/Ledger/Identity/Applied.antt =====
-- The cache identities, and a journal that is written with its deltas.
use project_task_cashbook_ba.Base.{ℕ, ◌≡◌, sym, ap₂, ◌∙◌, List, [], ◌∷◌}
use project_task_cashbook_ba.Base.Result.{ok}
use project_task_cashbook_ba.Decimal.{Arithmetic, IsExact}
use project_task_cashbook_ba.Finance.Money.{zero_amount}
use project_task_cashbook_ba.Ledger.Types.{ResolvedLine}
use project_task_cashbook_ba.Ledger.Posting.{
  CashbookField, Db, Journal, ResolvedDraft, add_lines, apply_cache_deltas,
}
use project_task_cashbook_ba.Ledger.Posting.Resolver.{Resolver}
use project_task_cashbook_ba.Ledger.Identity.Sums.{
  pick, book_worth, wallet_worth, lines_sum, books_sum, wallets_sum, Known, book_of,
}
use project_task_cashbook_ba.Ledger.Identity.Books.{
  zero_add, add_comm, delta_at-add_lines, delta_at-sort_keys, apply_cashbook_deltas_lem,
}
use project_task_cashbook_ba.Ledger.Identity.Wallets.{
  wallet_at-add_lines, wallet_at-sort_keys, apply_wallet_deltas_lem,
}
use project_task_cashbook_ba.Ledger.Identity.Chart.{
  Extends, KnownAll, KnownAll-grow, books_sum-grow, wallets_sum-grow,
}

module _ {C : Type 0} {D : Type 0} ⦃r : Resolver C⦄ ⦃d : Arithmetic D⦄ where
  -- Every line's account is known, and each cached column is the sum over all journal lines.
  pub record IsConsistent (db : Db C D) : Type 0 where
    pub known : KnownAll db.chart db.journals
    pub books :
        (f : CashbookField) (k : ℕ) → pick f (db.cashbooks k) ≡ books_sum db.chart f k db.journals
    pub wallets : (k : ℕ) → db.wallets k ≡ wallets_sum db.chart k db.journals

  -- Lines `ls` stand for the lines of journal j: they are worth the same everywhere.
  abbrev pub SameWorth : C → Journal D → List (ResolvedLine D) → Type 0
  SameWorth c j ls =
      ((f : CashbookField) (k : ℕ)
        → lines_sum c (book_worth f k (book_of j)) ls
          ≡ lines_sum c (book_worth f k (book_of j)) j.lines)
      × ((k : ℕ) → lines_sum c (wallet_worth k) ls ≡ lines_sum c (wallet_worth k) j.lines)

  -- Journals `js` stand for the journals of db.
  pub record IsSame (db : Db C D) (js : List (Journal D)) : Type 0 where
    pub same_known : KnownAll db.chart js
    pub same_books :
        (f : CashbookField) (k : ℕ) → books_sum db.chart f k js ≡ books_sum db.chart f k db.journals
    pub same_wallets : (k : ℕ) → wallets_sum db.chart k js ≡ wallets_sum db.chart k db.journals

  module _ (x : IsExact D) where
    -- Adding a journal and its deltas keeps the identities.
    pub applied-IsConsistent :
        (db : Db C D) (c : C) (next : ℕ) (j : Journal D) (js : List (Journal D))
        (ls : List (ResolvedLine D)) (res : ResolvedDraft D)
        → IsConsistent db
        → IsSame db js
        → Extends db.chart c
        → Known c j.lines
        → SameWorth c j ls
        → add_lines c (book_of j) ls (record {
          lines = ls;
          total_debit = zero_amount;
          total_credit = zero_amount;
          cashbook_deltas = [];
          wallet_deltas = [];
        })
          ≡ ok res
        → IsConsistent (
            apply_cache_deltas
              (record {
                chart = c;
                next_id = next;
                journals = j ∷ js;
                cashbooks = db.cashbooks;
                wallets = db.wallets;
              })
              res)
    unfolding apply_cache_deltas
    applied-IsConsistent db c next j js ls res h s ext kn (same, same') p = record {
      known = (kn, KnownAll-grow db.chart c js ext s.same_known);
      books = λ f k.
          apply_cashbook_deltas_lem x f k _ db.cashbooks
          ∙ ap₂ d.add
              (h.books f k
                ∙ sym (s.same_books f k)
                ∙ sym (books_sum-grow db.chart c f k js ext s.same_known))
              (delta_at-sort_keys x f k res.cashbook_deltas
                ∙ delta_at-add_lines x c f k (book_of j) ls _ res p
                ∙ zero_add x _
                ∙ same f k)
          ∙ add_comm x _ _;
      wallets = λ k.
          apply_wallet_deltas_lem x k _ db.wallets
          ∙ ap₂ d.add
              (h.wallets k
                ∙ sym (s.same_wallets k)
                ∙ sym (wallets_sum-grow db.chart c k js ext s.same_known))
              (wallet_at-sort_keys x k res.wallet_deltas
                ∙ wallet_at-add_lines x c k (book_of j) ls _ res p
                ∙ zero_add x _
                ∙ same' k)
          ∙ add_comm x _ _;
    }
