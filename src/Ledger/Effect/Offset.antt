-- ===== src/Ledger/Effect/Offset.antt =====
-- Posting obligations and their write-offs (src/core/ledger/rules/obligation.rules.ts).
use project_task_cashbook_ba.Base.{ℕ, ◌≡◌, ◌∙◌, ap, true, none, All}
use Prim.Native.String.{String}
use project_task_cashbook_ba.Base.Result.{ok}
use project_task_cashbook_ba.Decimal.{Arithmetic, IsExact}
use project_task_cashbook_ba.Decimal.Laws.{eq_of_units, decimal_laws}
use project_task_cashbook_ba.Finance.Money.{zero_amount, to_decimal}
use project_task_cashbook_ba.Ledger.Types.{SystemLedgerKey, LegDimensions, PostedJournal}
use project_task_cashbook_ba.Ledger.Rules.Entry.{ObligationType}
use project_task_cashbook_ba.Ledger.Rules.Obligation.{
  ObligationPostingInput, ObligationWriteOffInput, opening_legs, write_off_legs,
  build_obligation_journal, build_obligation_write_off_journal,
}
use project_task_cashbook_ba.Ledger.Posting.{CashbookField, Db, OnDuplicate, post}
use project_task_cashbook_ba.Ledger.Posting.Resolver.{Resolver, IsStable}
use project_task_cashbook_ba.Ledger.Identity.{pick}
use project_task_cashbook_ba.Ledger.Identity.Books.{add_zero}
use project_task_cashbook_ba.Ledger.Effect.Worth.{
  Describes, IsTyped, leg_worth, wallet_leg_worth, legs_sum,
}
use project_task_cashbook_ba.Ledger.Effect.Moves.{post_moves}

module _ {D : Type 0} ⦃d : Arithmetic D⦄ (x : IsExact D) where
  opening_books :
      (f : CashbookField) (k : ℕ) (type : ObligationType) (a : D) (text : String)
      (dims : LegDimensions)
      → legs_sum (leg_worth f k none) (opening_legs type a text dims) ≡ zero_amount
  unfolding to_decimal
  opening_books CashbookField.balance k ObligationType.receivable a text dims =
      omega (decimal_laws, eq_of_units x)
  opening_books CashbookField.balance k ObligationType.payable a text dims =
      omega (decimal_laws, eq_of_units x)
  opening_books CashbookField.total_income k ObligationType.receivable a text dims =
      omega (decimal_laws, eq_of_units x)
  opening_books CashbookField.total_income k ObligationType.payable a text dims =
      omega (decimal_laws, eq_of_units x)
  opening_books CashbookField.total_expense k ObligationType.receivable a text dims =
      omega (decimal_laws, eq_of_units x)
  opening_books CashbookField.total_expense k ObligationType.payable a text dims =
      omega (decimal_laws, eq_of_units x)

  opening_wallets :
      (k : ℕ) (type : ObligationType) (a : D) (text : String) (dims : LegDimensions)
      → legs_sum (wallet_leg_worth k) (opening_legs type a text dims) ≡ zero_amount
  unfolding to_decimal
  opening_wallets k ObligationType.receivable a text dims = omega (decimal_laws, eq_of_units x)
  opening_wallets k ObligationType.payable a text dims = omega (decimal_laws, eq_of_units x)

  write_off_books :
      (f : CashbookField) (k : ℕ) (type : ObligationType) (a : D) (text reason : String)
      (dims : LegDimensions)
      → legs_sum (leg_worth f k none) (write_off_legs type a text reason dims) ≡ zero_amount
  unfolding to_decimal
  write_off_books CashbookField.balance k ObligationType.receivable a text reason dims =
      omega (decimal_laws, eq_of_units x)
  write_off_books CashbookField.balance k ObligationType.payable a text reason dims =
      omega (decimal_laws, eq_of_units x)
  write_off_books CashbookField.total_income k ObligationType.receivable a text reason dims =
      omega (decimal_laws, eq_of_units x)
  write_off_books CashbookField.total_income k ObligationType.payable a text reason dims =
      omega (decimal_laws, eq_of_units x)
  write_off_books CashbookField.total_expense k ObligationType.receivable a text reason dims =
      omega (decimal_laws, eq_of_units x)
  write_off_books CashbookField.total_expense k ObligationType.payable a text reason dims =
      omega (decimal_laws, eq_of_units x)

  write_off_wallets :
      (k : ℕ) (type : ObligationType) (a : D) (text reason : String) (dims : LegDimensions)
      → legs_sum (wallet_leg_worth k) (write_off_legs type a text reason dims) ≡ zero_amount
  unfolding to_decimal
  write_off_wallets k ObligationType.receivable a text reason dims =
      omega (decimal_laws, eq_of_units x)
  write_off_wallets k ObligationType.payable a text reason dims =
      omega (decimal_laws, eq_of_units x)

  module _ {C : Type 0} ⦃r : Resolver C⦄ where
    opening_legs-Describes :
        (t : IsTyped C) (type : ObligationType) (a : D) (text : String) (dims : LegDimensions)
        → All (λ leg. Describes C leg.ref) (opening_legs type a text dims)
    opening_legs-Describes t ObligationType.receivable a text dims = (
      t.system-Describes SystemLedgerKey.ar,
      (t.system-Describes SystemLedgerKey.deferred_revenue, tt),
    )
    opening_legs-Describes t ObligationType.payable a text dims = (
      t.system-Describes SystemLedgerKey.deferred_expense,
      (t.system-Describes SystemLedgerKey.ap, tt),
    )

    write_off_legs-Describes :
        (t : IsTyped C) (type : ObligationType) (a : D) (text reason : String)
        (dims : LegDimensions)
        → All (λ leg. Describes C leg.ref) (write_off_legs type a text reason dims)
    write_off_legs-Describes t ObligationType.receivable a text reason dims = (
      t.system-Describes SystemLedgerKey.deferred_revenue,
      (t.system-Describes SystemLedgerKey.ar, tt),
    )
    write_off_legs-Describes t ObligationType.payable a text reason dims = (
      t.system-Describes SystemLedgerKey.ap,
      (t.system-Describes SystemLedgerKey.deferred_expense, tt),
    )

    -- Neither posting an obligation nor posting a write-off moves any cached column of any
    -- cashbook or wallet, if the resolver only adds accounts and types system, wallet and cash
    -- accounts as the chart template does.
    pub post_obligation_moves_nothing :
        (db : Db C D) (input : ObligationPostingInput D) (off : ObligationWriteOffInput D)
        (db' db'' : Db C D) (pj pj' : PostedJournal D)
        → IsStable C
        → IsTyped C
        → post db (build_obligation_journal input) OnDuplicate.throw true ≡ ok (db', pj)
        → post db (build_obligation_write_off_journal off) OnDuplicate.throw true ≡ ok (db'', pj')
        → ((f : CashbookField) (k : ℕ)
            → (pick f (db'.cashbooks k) ≡ pick f (db.cashbooks k))
              × (pick f (db''.cashbooks k) ≡ pick f (db.cashbooks k)))
          × ((k : ℕ) → (db'.wallets k ≡ db.wallets k) × (db''.wallets k ≡ db.wallets k))
    unfolding build_obligation_journal build_obligation_write_off_journal
    post_obligation_moves_nothing db input off db' db'' pj pj' s t p q =
        let (books, wallets) =
          post_moves x db (build_obligation_journal input) db' pj s
            (opening_legs-Describes t input.type _ _ _) p in
        let (books', wallets') =
          post_moves x db (build_obligation_write_off_journal off) db'' pj' s
            (write_off_legs-Describes t off.type _ _ _ _) q in
        (
          λ f k. (
            books f k
                ∙ ap (d.add (pick f (db.cashbooks k))) (opening_books f k input.type _ _ _)
                ∙ add_zero x _,
            books' f k
                ∙ ap (d.add (pick f (db.cashbooks k))) (write_off_books f k off.type _ _ _ _)
                ∙ add_zero x _,
          ),
          λ k. (
            wallets k
                ∙ ap (d.add (db.wallets k)) (opening_wallets k input.type _ _ _)
                ∙ add_zero x _,
            wallets' k
                ∙ ap (d.add (db.wallets k)) (write_off_wallets k off.type _ _ _ _)
                ∙ add_zero x _,
          ),
        )
