-- ===== src/Ledger/Effect/Worth.antt =====
-- What a leg is worth in each cached column, and what resolving a reference promises about the
-- account: a named account of the chart, a book's cash, or a wallet.
use project_task_cashbook_ba.Base.{
  ℕ, ◌+◌, ◌≡◌, refl, sym, ap, ap₂, ◌∙◌, Bool, true, false, ◌&&◌, Option, none, some, List, [], ◌∷◌,
  inl, inr, All, if◌then◌else◌,
}
use project_task_cashbook_ba.Base.Result.{ok}
use project_task_cashbook_ba.Decimal.{Arithmetic, IsExact}
use project_task_cashbook_ba.Finance.Money.{zero_amount, to_decimal}
use project_task_cashbook_ba.Ledger.Types.{
  SystemLedgerKey, LedgerRef, LegDraft, ResolvedLine, LedgerAccountMeta, LedgerAccountClass,
}
use project_task_cashbook_ba.Ledger.Posting.{
  CashbookField, same_id, book_cash_of, wallet_of, resolve_legs,
}
use project_task_cashbook_ba.Ledger.Posting.Resolver.{Resolver, IsStable}
use project_task_cashbook_ba.Ledger.Identity.{
  book_worth, wallet_worth, lines_sum, worth_if, income_part, expense_part,
}
use project_task_cashbook_ba.Ledger.Identity.Books.{zero_of_is_zero, zero_add}
use project_task_cashbook_ba.Ledger.Identity.Chart.{resolve_legs-cons, resolve_legs-Extends}

-- How an account counts toward a cashbook's totals.
pub data Kind : Type 0 where
  revenue cost neither : Kind

abbrev pub kind_of_class : LedgerAccountClass → Kind
kind_of_class LedgerAccountClass.income = Kind.revenue
kind_of_class LedgerAccountClass.expense = Kind.cost
kind_of_class _ = Kind.neither

-- The class column of the chart template.
abbrev pub class_of_key : SystemLedgerKey → LedgerAccountClass
class_of_key SystemLedgerKey.ar = LedgerAccountClass.asset
class_of_key SystemLedgerKey.inventory = LedgerAccountClass.asset
class_of_key SystemLedgerKey.inventory_on_rent = LedgerAccountClass.asset
class_of_key SystemLedgerKey.suspense = LedgerAccountClass.asset
class_of_key SystemLedgerKey.ap = LedgerAccountClass.liability
class_of_key SystemLedgerKey.tax_payable = LedgerAccountClass.liability
class_of_key SystemLedgerKey.deferred_revenue = LedgerAccountClass.liability
class_of_key SystemLedgerKey.deferred_expense = LedgerAccountClass.liability
class_of_key SystemLedgerKey.opening_balance_equity = LedgerAccountClass.equity
class_of_key SystemLedgerKey.retained_earnings = LedgerAccountClass.equity
class_of_key SystemLedgerKey.owner_drawings = LedgerAccountClass.equity
class_of_key SystemLedgerKey.sales_revenue = LedgerAccountClass.income
class_of_key SystemLedgerKey.rental_income = LedgerAccountClass.income
class_of_key SystemLedgerKey.other_income = LedgerAccountClass.income
class_of_key SystemLedgerKey.cogs = LedgerAccountClass.expense
class_of_key SystemLedgerKey.general_expenses = LedgerAccountClass.expense
class_of_key SystemLedgerKey.transaction_fees = LedgerAccountClass.expense
class_of_key SystemLedgerKey.inventory_adjustment = LedgerAccountClass.expense

abbrev pub kind_of_ref : LedgerRef → Kind
kind_of_ref (LedgerRef.system key) = kind_of_class (class_of_key key)
kind_of_ref (LedgerRef.category _ key) = kind_of_class (class_of_key key)
kind_of_ref _ = Kind.neither

abbrev pub book_of_ref : LedgerRef → Option ℕ
book_of_ref (LedgerRef.book_cash id) = some id
book_of_ref _ = none

abbrev pub wallet_of_ref : LedgerRef → Option ℕ
wallet_of_ref (LedgerRef.wallet id) = some id
wallet_of_ref _ = none

-- The account has the reference's kind and owner.
pub record Fits (ref : LedgerRef) (m : LedgerAccountMeta) : Type 0 where
  pub kind : kind_of_class m.class ≡ kind_of_ref ref
  pub book : book_cash_of m.origin m.cashbook_id ≡ book_of_ref ref
  pub wallet : wallet_of m.origin m.wallet_account_id ≡ wallet_of_ref ref

-- Whenever the reference resolves, its account is known and fits it.
abbrev pub Describes : (C : Type 0) ⦃r : Resolver C⦄ → LedgerRef → Type 0
Describes C ⦃r⦄ ref =
    (c c' : C) (workspace currency a : ℕ)
    → r.resolve c workspace currency ref ≡ ok (c', a)
    → (m : LedgerAccountMeta) × (r.meta_for c' a ≡ ok m) × Fits ref m

-- The same in the charts of which P holds, and that resolving keeps P.
pub record DescribesIn (C : Type 0) ⦃r : Resolver C⦄ (P : C → Type 0) (ref : LedgerRef)
    : Type 0 where
  pub described :
      (c c' : C) (workspace currency a : ℕ)
      → P c
      → r.resolve c workspace currency ref ≡ ok (c', a)
      → (m : LedgerAccountMeta) × (r.meta_for c' a ≡ ok m) × Fits ref m

abbrev pub Keeps : (C : Type 0) ⦃r : Resolver C⦄ → (C → Type 0) → Type 0
Keeps C ⦃r⦄ P =
    (c c' : C) (workspace currency : ℕ) (ref : LedgerRef) (a : ℕ)
    → P c
    → r.resolve c workspace currency ref ≡ ok (c', a)
    → P c'

pub Describes-DescribesIn :
    {C : Type 0} ⦃r : Resolver C⦄ (P : C → Type 0) (ref : LedgerRef)
    → Describes C ref
    → DescribesIn C P ref
Describes-DescribesIn P ref h = record { described = λ c c' w y a p q. h c c' w y a q }

-- System accounts have the kind of the template's class; a wallet's account and a book's cash account belong to
-- the wallet and the book.
pub record IsTyped (C : Type 0) ⦃r : Resolver C⦄ : Type 0 where
  pub system-Describes : (key : SystemLedgerKey) → Describes C (LedgerRef.system key)
  pub wallet-Describes : (id : ℕ) → Describes C (LedgerRef.wallet id)
  pub book_cash-Describes : (id : ℕ) → Describes C (LedgerRef.book_cash id)

pub both_true : (a b : Bool) → a && b ≡ true → (a ≡ true) × (b ≡ true)
both_true true true h = (refl, refl)
both_true true false h = cc
both_true false b h = cc

module _ {D : Type 0} ⦃d : Arithmetic D⦄ where
  abbrev pub income_of : Kind → D → D → D
  income_of Kind.revenue debit credit = d.sub credit debit
  income_of _ debit credit = zero_amount

  abbrev pub expense_of : Kind → D → D → D
  expense_of Kind.cost debit credit = d.sub debit credit
  expense_of _ debit credit = zero_amount

  -- What a leg is worth in a column of cashbook k, if its journal counts toward `book`.
  abbrev pub leg_worth : CashbookField → ℕ → Option ℕ → LedgerRef → D → D → D
  leg_worth CashbookField.balance k book ref debit credit =
      if same_id (book_of_ref ref) k then d.sub debit credit else zero_amount
  leg_worth CashbookField.total_income k book ref debit credit =
      if same_id book k then income_of (kind_of_ref ref) debit credit else zero_amount
  leg_worth CashbookField.total_expense k book ref debit credit =
      if same_id book k then expense_of (kind_of_ref ref) debit credit else zero_amount

  abbrev pub wallet_leg_worth : ℕ → LedgerRef → D → D → D
  wallet_leg_worth k ref debit credit =
      if same_id (wallet_of_ref ref) k then d.sub debit credit else zero_amount

  abbrev pub legs_sum : (LedgerRef → D → D → D) → List (LegDraft D) → D
  legs_sum h [] = zero_amount
  legs_sum h (leg ∷ legs) =
      d.add (h leg.ref (to_decimal leg.debit) (to_decimal leg.credit)) (legs_sum h legs)

  income_part-kind :
      (class : LedgerAccountClass) (l : ResolvedLine D)
      → income_part class l ≡ income_of (kind_of_class class) l.debit l.credit
  income_part-kind LedgerAccountClass.income l = refl
  income_part-kind _ l = refl

  expense_part-kind :
      (class : LedgerAccountClass) (l : ResolvedLine D)
      → expense_part class l ≡ expense_of (kind_of_class class) l.debit l.credit
  expense_part-kind LedgerAccountClass.expense l = refl
  expense_part-kind _ l = refl

  pub book_worth-Fits :
      (f : CashbookField) (k : ℕ) (book : Option ℕ) (ref : LedgerRef) (m : LedgerAccountMeta)
      (l : ResolvedLine D)
      → Fits ref m
      → book_worth f k book m l ≡ leg_worth f k book ref l.debit l.credit
  book_worth-Fits CashbookField.balance k book ref m l h = rw h.book
  book_worth-Fits CashbookField.total_income k book ref m l h =
      rw (income_part-kind m.class l, h.kind)
  book_worth-Fits CashbookField.total_expense k book ref m l h =
      rw (expense_part-kind m.class l, h.kind)

  pub wallet_worth-Fits :
      (k : ℕ) (ref : LedgerRef) (m : LedgerAccountMeta) (l : ResolvedLine D)
      → Fits ref m
      → wallet_worth k m l ≡ wallet_leg_worth k ref l.debit l.credit
  wallet_worth-Fits k ref m l h = rw h.wallet

  module _ {C : Type 0} ⦃r : Resolver C⦄ (x : IsExact D) where
    -- The lines that legs resolve to are worth what the legs are.
    pub lines_sum-resolve_legs :
        (g : LedgerAccountMeta → ResolvedLine D → D) (h : LedgerRef → D → D → D) (c : C)
        (workspace currency n : ℕ) (legs : List (LegDraft D)) (c' : C) (ls : List (ResolvedLine D))
        (P : C → Type 0)
        → IsStable C
        → Keeps C P
        → ((ref : LedgerRef) (m : LedgerAccountMeta) (l : ResolvedLine D)
            → Fits ref m
            → g m l ≡ h ref l.debit l.credit)
        → ((ref : LedgerRef) → h ref zero_amount zero_amount ≡ zero_amount)
        → All (λ leg. DescribesIn C P leg.ref) legs
        → P c
        → resolve_legs c workspace currency n legs ≡ ok (c', ls)
        → lines_sum c' g ls ≡ legs_sum h legs
    unfolding resolve_legs
    lines_sum-resolve_legs g h c w y n [] c' ls P s keep fit zero_worth ds here p =
        let e : ls ≡ [] = cc in rw e
    lines_sum-resolve_legs g h c w y n (leg ∷ legs) c' ls P s keep fit zero_worth (dl, ds) here p =
        elim (resolve_legs-cons c w y n leg legs c' ls p) [
          | inl (z, q) ↦
              lines_sum-resolve_legs g h c w y n legs c' ls P s keep fit zero_worth ds here q
              ∙ sym (
                  ap (λ t. d.add t (legs_sum h legs))
                    (ap₂ (h leg.ref) (zero_of_is_zero x _ (both_true _ _ z).0)
                        (zero_of_is_zero x _ (both_true _ _ z).1)
                      ∙ zero_worth leg.ref)
                  ∙ zero_add x _)
          | inr (_, _, c1, account, ls', q, q', e) ↦
              let (m, known, f) = dl.described c c1 w y account here q in
              let still = resolve_legs-Extends s c1 w y (n + 1) legs c' ls' q' account m known in
              ap (lines_sum c' g) e
              ∙ ap₂ d.add (ap (worth_if (λ m'. g m' _)) still ∙ fit leg.ref m _ f) (
                  lines_sum-resolve_legs g h c1 w y (n + 1) legs c' ls' P s keep fit zero_worth ds
                    (keep c c1 w y leg.ref account here q) q')
        ]
