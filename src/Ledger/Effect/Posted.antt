-- ===== src/Ledger/Effect/Posted.antt =====
-- The journal of an entry, posted: its columns beside those of src/core/finance/money.ts.
use project_task_cashbook_ba.Base.{
  ℕ, ◌≡◌, refl, ap, ◌∙◌, ◌==◌, true, Option, none, some, List, ◌++◌, All, All-append, inl, inr,
  Bool-cases, if◌then◌else◌,
}
use project_task_cashbook_ba.Base.Result.{ok}
use project_task_cashbook_ba.Decimal.{Arithmetic, IsExact}
use project_task_cashbook_ba.Decimal.Laws.{IsNonneg, eq_of_units, decimal_laws}
use project_task_cashbook_ba.Finance.Money.{
  MoneyType, zero_amount, to_decimal, wallet_balance_delta, effective_cash_amount,
}
use project_task_cashbook_ba.Ledger.Types.{
  LedgerRef, SystemLedgerKey, LegDimensions, LegDraft, PostedJournal,
}
use project_task_cashbook_ba.Ledger.Rules.Entry.{
  EntryPostingInput, cash_ref, settled_receivable, settled_payable, revenue_legs, cost_legs,
  legs_of_type, build_income_legs, build_expense_legs, build_entry_journal,
}
use project_task_cashbook_ba.Ledger.Posting.{CashbookField, Db, OnDuplicate, post, same_id, is_some}
use project_task_cashbook_ba.Ledger.Posting.Resolver.{Resolver, IsStable}
use project_task_cashbook_ba.Ledger.Identity.{pick}
use project_task_cashbook_ba.Ledger.Effect.Worth.{
  Describes, DescribesIn, Keeps, Describes-DescribesIn, IsTyped, leg_worth, wallet_leg_worth,
  legs_sum,
}
use project_task_cashbook_ba.Ledger.Effect.Moves.{post_moves_in}
use project_task_cashbook_ba.Ledger.Effect.Entry.{
  entry_delta, income_worth, expense_worth, revenue_worth, cost_worth,
}

-- The account of an entry whose category is not mapped.
abbrev pub fallback_of : MoneyType → SystemLedgerKey
fallback_of MoneyType.income = SystemLedgerKey.sales_revenue
fallback_of MoneyType.expense = SystemLedgerKey.general_expenses

module _ {D : Type 0} ⦃d : Arithmetic D⦄ (x : IsExact D) where
  entry_worth :
      (f : CashbookField) (k : ℕ) (type : MoneyType) (input : EntryPostingInput D)
      (dims : LegDimensions)
      → IsNonneg x (to_decimal input.charge_amount)
      → legs_sum (leg_worth f k (some input.cashbook_id)) (
          legs_of_type type input input.amount
            (to_decimal input.charge_amount)
            (cash_ref input.account_id input.cashbook_id)
            dims)
        ≡ (if input.cashbook_id == k
            then entry_delta f type input.amount input.charge_amount (is_some input.account_id)
            else zero_amount)
  unfolding build_income_legs build_expense_legs to_decimal
  entry_worth f k MoneyType.income input dims h =
      rw
        (revenue_worth x f k (some input.cashbook_id) input input.amount dims
          (settled_receivable input.obligation))
        (income_worth x f k input.cashbook_id input.category_id input.account_id input.amount
          input.charge_amount h)
  entry_worth f k MoneyType.expense input dims h =
      cost_worth x f k (some input.cashbook_id) input input.amount dims
        (settled_payable input.obligation) _
      ∙ expense_worth x f k input.cashbook_id input.category_id input.account_id input.amount
          input.charge_amount h

  -- The legs beside the cash leg touch no wallet.
  revenue_wallets :
      (k : ℕ) (input : EntryPostingInput D) (a : D) (dims : LegDimensions) (o : Option ℕ)
      → legs_sum (wallet_leg_worth k) (revenue_legs input a dims o) ≡ zero_amount
  revenue_wallets k input a dims none = omega (decimal_laws, eq_of_units x)
  revenue_wallets k input a dims (some id) = omega (decimal_laws, eq_of_units x)

  cost_wallets :
      (k : ℕ) (input : EntryPostingInput D) (a : D) (dims : LegDimensions) (o : Option ℕ)
      (rest : List (LegDraft D))
      → legs_sum (wallet_leg_worth k) (cost_legs input a dims o ++ rest)
        ≡ legs_sum (wallet_leg_worth k) rest
  cost_wallets k input a dims none rest = omega (decimal_laws, eq_of_units x)
  cost_wallets k input a dims (some id) rest = omega (decimal_laws, eq_of_units x)

  cash_wallet :
      (k book : ℕ) (account : Option ℕ) (a b : D)
      → wallet_leg_worth k (cash_ref account book) a b
        ≡ (if same_id account k then d.sub a b else zero_amount)
  cash_wallet k book none a b = refl
  cash_wallet k book (some id) a b = refl

  entry_wallet_worth :
      (k : ℕ) (type : MoneyType) (input : EntryPostingInput D) (dims : LegDimensions)
      → legs_sum (wallet_leg_worth k) (
          legs_of_type type input input.amount
            (to_decimal input.charge_amount)
            (cash_ref input.account_id input.cashbook_id)
            dims)
        ≡ (if same_id input.account_id k
            then wallet_balance_delta type input.amount input.charge_amount
            else zero_amount)
  unfolding build_income_legs build_expense_legs to_decimal wallet_balance_delta
      effective_cash_amount
  entry_wallet_worth k MoneyType.income input dims =
      rw
        (
          revenue_wallets k input input.amount dims (settled_receivable input.obligation),
          cash_wallet k input.cashbook_id input.account_id
              (d.sub input.amount (to_decimal input.charge_amount)) zero_amount,
        )
        (elim (Bool-cases (same_id input.account_id k)) [
          | inl e ↦ rw e (omega (decimal_laws, eq_of_units x))
          | inr e ↦ rw e (omega (decimal_laws, eq_of_units x))
        ])
  entry_wallet_worth k MoneyType.expense input dims =
      cost_wallets k input input.amount dims (settled_payable input.obligation) _
      ∙ rw
          (
            legs_sum,
            cash_wallet k input.cashbook_id input.account_id zero_amount
                (d.add input.amount (to_decimal input.charge_amount)),
          )
          (elim (Bool-cases (same_id input.account_id k)) [
            | inl e ↦ rw e (omega (decimal_laws, eq_of_units x))
            | inr e ↦ rw e (omega (decimal_laws, eq_of_units x))
          ])

  module _ {C : Type 0} ⦃r : Resolver C⦄ where
    cash_ref-Describes :
        (t : IsTyped C) (account : Option ℕ) (book : ℕ) → Describes C (cash_ref account book)
    cash_ref-Describes t none book = t.book_cash-Describes book
    cash_ref-Describes t (some id) book = t.wallet-Describes id

    revenue_legs-Describes :
        (t : IsTyped C) (P : C → Type 0) (input : EntryPostingInput D) (a : D)
        (dims : LegDimensions) (o : Option ℕ)
        → DescribesIn C P (LedgerRef.category input.category_id SystemLedgerKey.sales_revenue)
        → All (λ leg. DescribesIn C P leg.ref) (revenue_legs input a dims o)
    revenue_legs-Describes t P input a dims none h = (h, tt)
    revenue_legs-Describes t P input a dims (some id) h = (
      Describes-DescribesIn P _ (t.system-Describes SystemLedgerKey.ar),
      (Describes-DescribesIn P _ (t.system-Describes SystemLedgerKey.deferred_revenue), (h, tt)),
    )

    cost_legs-Describes :
        (t : IsTyped C) (P : C → Type 0) (input : EntryPostingInput D) (a : D)
        (dims : LegDimensions) (o : Option ℕ)
        → DescribesIn C P (LedgerRef.category input.category_id SystemLedgerKey.general_expenses)
        → All (λ leg. DescribesIn C P leg.ref) (cost_legs input a dims o)
    cost_legs-Describes t P input a dims none h = (h, tt)
    cost_legs-Describes t P input a dims (some id) h = (
      Describes-DescribesIn P _ (t.system-Describes SystemLedgerKey.ap),
      (h, (Describes-DescribesIn P _ (t.system-Describes SystemLedgerKey.deferred_expense), tt)),
    )

    entry_legs-Describes :
        (t : IsTyped C) (P : C → Type 0) (type : MoneyType) (input : EntryPostingInput D)
        (dims : LegDimensions)
        → DescribesIn C P (LedgerRef.category input.category_id (fallback_of type))
        → All
            (λ leg. DescribesIn C P leg.ref)
            (legs_of_type type input input.amount
              (to_decimal input.charge_amount)
              (cash_ref input.account_id input.cashbook_id)
              dims)
    unfolding build_income_legs build_expense_legs
    entry_legs-Describes t P MoneyType.income input dims h = (
      Describes-DescribesIn P _ (cash_ref-Describes t input.account_id input.cashbook_id),
      (
        Describes-DescribesIn P _ (t.system-Describes SystemLedgerKey.transaction_fees),
        revenue_legs-Describes t P input _ dims (settled_receivable input.obligation) h,
      ),
    )
    entry_legs-Describes t P MoneyType.expense input dims h =
        All-append _ _ _ (cost_legs-Describes t P input _ dims (settled_payable input.obligation) h)
          (
            Describes-DescribesIn P _ (t.system-Describes SystemLedgerKey.transaction_fees),
            (
              Describes-DescribesIn P _ (cash_ref-Describes t input.account_id input.cashbook_id),
              tt,
            ),
          )

    -- Posting the journal of an entry anew, its fee zero or more, moves the cached columns as the
    -- older arithmetic does: the entry's own cashbook by its balance, income and expense deltas,
    -- the wallet that it is linked to, if any, by its wallet delta, and no other cashbook or
    -- wallet. The resolver only adds accounts and types system, wallet and cash accounts as the
    -- chart template does; and the chart is one of those, kept by resolving, in which the entry's
    -- category leads to an account of its fallback's kind that is no wallet's and no book's.
    pub post_entry_moves :
        (db : Db C D) (input : EntryPostingInput D) (db' : Db C D) (pj : PostedJournal D)
        (P : C → Type 0)
        → IsStable C
        → IsTyped C
        → Keeps C P
        → DescribesIn C P (LedgerRef.category input.category_id (fallback_of input.type))
        → P db.chart
        → IsNonneg x (to_decimal input.charge_amount)
        → post db (build_entry_journal input) OnDuplicate.throw true ≡ ok (db', pj)
        → ((f : CashbookField) (k : ℕ)
            → pick f (db'.cashbooks k)
              ≡ d.add (pick f (db.cashbooks k)) (
                  if input.cashbook_id == k
                  then entry_delta f input.type input.amount input.charge_amount
                      (is_some input.account_id)
                  else zero_amount))
          × ((k : ℕ)
              → db'.wallets k
                ≡ d.add (db.wallets k) (
                    if same_id input.account_id k
                    then wallet_balance_delta input.type input.amount input.charge_amount
                    else zero_amount))
    unfolding build_entry_journal
    post_entry_moves db input db' pj P s t keep h here fee p =
        let (books, wallets) =
          post_moves_in x db (build_entry_journal input) db' pj P s keep
            (entry_legs-Describes t P input.type input _ h) here p in
        (
          λ f k.
              books f k
              ∙ ap (d.add (pick f (db.cashbooks k))) (entry_worth f k input.type input _ fee),
          λ k. wallets k ∙ ap (d.add (db.wallets k)) (entry_wallet_worth k input.type input _),
        )
