-- ===== src/Ledger/Coa/Store.antt =====
-- The charts of accounts as the store behind the posting service.
use project_task_cashbook_ba.Base.{ℕ, Option, ◌≡◌, ap₂, ◌∙◌, inl, inr, ◌⊎◌}
use project_task_cashbook_ba.Base.Result.{Result, ok, err, Result-cases, ok_pair}
use project_task_cashbook_ba.Ledger.Types.{LedgerRef, SystemLedgerKey}
use project_task_cashbook_ba.Ledger.Posting.Resolver.{LedgerError, Resolver, IsStable}
use project_task_cashbook_ba.Ledger.Effect.{IsTyped, Keeps, DescribesIn}
use project_task_cashbook_ba.Ledger.Coa.Rows.{Chart, wallet_holder, cashbook_holder}
use project_task_cashbook_ba.Ledger.Coa.Resolve.{resolve, meta_for}
use project_task_cashbook_ba.Ledger.Coa.Valid.{IsValid}
use project_task_cashbook_ba.Ledger.Coa.Owned.{resolve-IsAccountOf}
use project_task_cashbook_ba.Ledger.Coa.Mapped.{
  CategoryFits, CategoryFits-resolve, SystemAccount-Fits, WalletAccount-Fits, BookAccount-Fits,
  resolve_category-Fits,
}
use project_task_cashbook_ba.Ledger.Coa.Kept.{resolve-IsValid, resolve-meta_for}

-- A chart that is well-formed.
abbrev pub ValidChart : Type 0
ValidChart = (c : Chart) × IsValid c

abbrev pub keep :
    (c : Chart) (workspace currency : ℕ) (ref : LedgerRef)
    → IsValid c
    → ((r : Chart × ℕ) × (resolve c workspace currency ref ≡ ok r))
      ⊎ ((e : LedgerError) × (resolve c workspace currency ref ≡ err e))
    → Result LedgerError (ValidChart × ℕ)
keep c w y ref v (inl ((c', a), e)) = ok ((c', resolve-IsValid c c' w y ref a v e), a)
keep c w y ref v (inr (e, _)) = err e

keep-ok :
    (c : Chart) (w y : ℕ) (ref : LedgerRef) (v : IsValid c)
    (k : ((r : Chart × ℕ) × (resolve c w y ref ≡ ok r))
      ⊎ ((e : LedgerError) × (resolve c w y ref ≡ err e)))
    (c' : ValidChart) (a : ℕ)
    → keep c w y ref v k ≡ ok (c', a)
    → resolve c w y ref ≡ ok (c'.0, a)
keep-ok c w y ref v (inl ((c1, a1), e)) c' a h =
    let (p, q) = ok_pair _ c' a1 a h in e ∙ ap₂ (λ (k : ValidChart) (b : ℕ). ok (k.0, b)) p q
keep-ok c w y ref v (inr (e, q)) c' a h = cc

-- The resolver on well-formed charts.
instance abbrev pub chart_resolver : Resolver ValidChart
chart_resolver = record {
  resolve = λ (c, v) w y ref. keep c w y ref v (Result-cases (resolve c w y ref));
  meta_for = λ (c, v) a. meta_for c a;
}

pub chart_IsStable : IsStable ValidChart
chart_IsStable = record {
  meta_for-resolve = λ (c, v) c' w y ref a b m p q.
      resolve-meta_for c c'.0 w y ref b a m (keep-ok c w y ref v _ c' b p) q;
}

pub chart_IsTyped : IsTyped ValidChart
chart_IsTyped = record {
  system-Describes = λ key (c, v) c' w y a p.
      SystemAccount-Fits c'.0 y a key
        (resolve-IsAccountOf c c'.0 w y (LedgerRef.system key) a v (keep-ok c w y _ v _ c' a p));
  wallet-Describes = λ id (c, v) c' w y a p.
      WalletAccount-Fits c'.0 id a
        (resolve-IsAccountOf c c'.0 w y (LedgerRef.wallet id) a v (keep-ok c w y _ v _ c' a p));
  book_cash-Describes = λ id (c, v) c' w y a p.
      BookAccount-Fits c'.0 id a
        (resolve-IsAccountOf c c'.0 w y (LedgerRef.book_cash id) a v (keep-ok c w y _ v _ c' a p));
}

-- The resolver on well-formed charts keeps what the posting service asks of its resolver: resolving
-- a reference leaves the metadata of every account as it is, and a system key, a wallet or a
-- book resolves to an account that is in the chart afterwards and fits the reference.
pub chart_refines : IsStable ValidChart × IsTyped ValidChart
chart_refines = (chart_IsStable, chart_IsTyped)

-- Whether a category fits, in a well-formed chart.
abbrev pub Mapped : Option ℕ → SystemLedgerKey → ValidChart → Type 0
Mapped id key (c, v) = CategoryFits id key c

-- A category fits a well-formed chart when it is not linked to an account, or to one that is there,
-- counts as its fallback's account does, and is no wallet's or book's. Resolving any reference
-- keeps it so, and in such charts the category resolves to an account that is in the chart
-- afterwards, counts as its fallback's does, and is no wallet's and no book's.
pub chart_category :
    (id : Option ℕ) (key : SystemLedgerKey)
    → Keeps ValidChart (Mapped id key)
      × DescribesIn ValidChart (Mapped id key) (LedgerRef.category id key)
chart_category id key = (
  λ (c, v) c' w y ref a q p.
      CategoryFits-resolve c c'.0 w y ref a id key (keep-ok c w y ref v _ c' a p) q,
  record {
    described = λ (c, v) c' w y a q p.
        resolve_category-Fits c c'.0 w y id key a v q (keep-ok c w y _ v _ c' a p);
  },
)
