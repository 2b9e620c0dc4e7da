-- ===== src/Ledger/Effect/Wallet.antt =====
-- Posting wallet transactions and transfers (src/core/ledger/rules/wallet.rules.ts).
use project_task_cashbook_ba.Base.{
  ℕ, ◌≡◌, ap, ◌∙◌, ◌==◌, true, Option, none, All, inl, inr, Bool-cases, if◌then◌else◌,
}
use Prim.Native.String.{String}
use project_task_cashbook_ba.Base.Result.{ok}
use project_task_cashbook_ba.Decimal.{Arithmetic, IsExact}
use project_task_cashbook_ba.Decimal.Laws.{eq_of_units, decimal_laws}
use project_task_cashbook_ba.Finance.Money.{
  MoneyType, zero_amount, to_decimal, wallet_balance_delta, effective_cash_amount,
}
use project_task_cashbook_ba.Ledger.Types.{LedgerRef, SystemLedgerKey, PostedJournal}
use project_task_cashbook_ba.Ledger.Rules.Wallet.{
  DirectWalletPostingInput, TransferPostingInput, direct_legs, build_direct_wallet_journal,
  build_transfer_journal,
}
use project_task_cashbook_ba.Ledger.Posting.{CashbookField, Db, OnDuplicate, post}
use project_task_cashbook_ba.Ledger.Posting.Resolver.{Resolver, IsStable}
use project_task_cashbook_ba.Ledger.Identity.{pick}
use project_task_cashbook_ba.Ledger.Identity.Books.{add_zero}
use project_task_cashbook_ba.Ledger.Effect.Worth.{
  Describes, IsTyped, leg_worth, wallet_leg_worth, legs_sum,
}
use project_task_cashbook_ba.Ledger.Effect.Moves.{post_moves}

module _ {D : Type 0} ⦃d : Arithmetic D⦄ (x : IsExact D) where
  direct_books :
      (f : CashbookField) (k : ℕ) (type : MoneyType) (account : ℕ) (a c : D) (text : String)
      → legs_sum (leg_worth f k none) (direct_legs type account a c text) ≡ zero_amount
  unfolding to_decimal
  direct_books CashbookField.balance k MoneyType.income account a c text =
      omega (decimal_laws, eq_of_units x)
  direct_books CashbookField.balance k MoneyType.expense account a c text =
      omega (decimal_laws, eq_of_units x)
  direct_books CashbookField.total_income k MoneyType.income account a c text =
      omega (decimal_laws, eq_of_units x)
  direct_books CashbookField.total_income k MoneyType.expense account a c text =
      omega (decimal_laws, eq_of_units x)
  direct_books CashbookField.total_expense k MoneyType.income account a c text =
      omega (decimal_laws, eq_of_units x)
  direct_books CashbookField.total_expense k MoneyType.expense account a c text =
      omega (decimal_laws, eq_of_units x)

  direct_wallets :
      (k : ℕ) (type : MoneyType) (account : ℕ) (a : D) (charge : Option D) (text : String)
      → legs_sum (wallet_leg_worth k) (direct_legs type account a (to_decimal charge) text)
        ≡ (if account == k then wallet_balance_delta type a charge else zero_amount)
  unfolding to_decimal wallet_balance_delta effective_cash_amount
  direct_wallets k MoneyType.income account a charge text = elim (Bool-cases (account == k)) [
    | inl e ↦ rw e (omega (decimal_laws, eq_of_units x))
    | inr e ↦ rw e (omega (decimal_laws, eq_of_units x))
  ]
  direct_wallets k MoneyType.expense account a charge text = elim (Bool-cases (account == k)) [
    | inl e ↦ rw e (omega (decimal_laws, eq_of_units x))
    | inr e ↦ rw e (omega (decimal_laws, eq_of_units x))
  ]

  transfer_books :
      (f : CashbookField) (k from to : ℕ) (key : SystemLedgerKey) (a b c e a' b' old : D)
      → d.add old (
          d.add (leg_worth f k none (LedgerRef.wallet to) a b) (
            d.add
              (leg_worth f k none (LedgerRef.system key) c e)
              (d.add (leg_worth f k none (LedgerRef.wallet from) a' b') zero_amount)))
        ≡ old
  transfer_books CashbookField.balance k from to key a b c e a' b' old =
      omega (decimal_laws, eq_of_units x)
  transfer_books CashbookField.total_income k from to key a b c e a' b' old =
      omega (decimal_laws, eq_of_units x)
  transfer_books CashbookField.total_expense k from to key a b c e a' b' old =
      omega (decimal_laws, eq_of_units x)

  transfer_wallets :
      (k from to : ℕ) (key : SystemLedgerKey) (a c old : D)
      → d.add old (
          d.add (wallet_leg_worth k (LedgerRef.wallet to) a zero_amount) (
            d.add (wallet_leg_worth k (LedgerRef.system key) c zero_amount) (
              d.add
                (wallet_leg_worth k (LedgerRef.wallet from) zero_amount (d.add a c))
                zero_amount)))
        ≡ d.sub
            (d.add old (if to == k then a else zero_amount))
            (if from == k then d.add a c else zero_amount)
  transfer_wallets k from to key a c old = elim (Bool-cases (to == k)) [
    | inl e ↦ elim (Bool-cases (from == k)) [
      | inl g ↦ rw (e, g) (omega (decimal_laws, eq_of_units x))
      | inr g ↦ rw (e, g) (omega (decimal_laws, eq_of_units x))
    ]
    | inr e ↦ elim (Bool-cases (from == k)) [
      | inl g ↦ rw (e, g) (omega (decimal_laws, eq_of_units x))
      | inr g ↦ rw (e, g) (omega (decimal_laws, eq_of_units x))
    ]
  ]

  module _ {C : Type 0} ⦃r : Resolver C⦄ where
    direct_legs-Describes :
        (t : IsTyped C) (type : MoneyType) (account : ℕ) (a c : D) (text : String)
        → All (λ leg. Describes C leg.ref) (direct_legs type account a c text)
    direct_legs-Describes t MoneyType.income account a c text = (
      t.wallet-Describes account,
      (
        t.system-Describes SystemLedgerKey.transaction_fees,
        (t.system-Describes SystemLedgerKey.other_income, tt),
      ),
    )
    direct_legs-Describes t MoneyType.expense account a c text = (
      t.system-Describes SystemLedgerKey.general_expenses,
      (t.system-Describes SystemLedgerKey.transaction_fees, (t.wallet-Describes account, tt)),
    )

    -- Posting a direct wallet transaction anew moves its wallet by the wallet delta of money.ts,
    -- and no other wallet and no cashbook, if the resolver only adds accounts and types system,
    -- wallet and cash accounts as the chart template does.
    pub post_direct_moves :
        (db : Db C D) (input : DirectWalletPostingInput D) (db' : Db C D) (pj : PostedJournal D)
        → IsStable C
        → IsTyped C
        → post db (build_direct_wallet_journal input) OnDuplicate.throw true ≡ ok (db', pj)
        → ((f : CashbookField) (k : ℕ) → pick f (db'.cashbooks k) ≡ pick f (db.cashbooks k))
          × ((k : ℕ)
              → db'.wallets k
                ≡ d.add (db.wallets k) (
                    if input.account_id == k
                    then wallet_balance_delta input.type input.amount input.charge_amount
                    else zero_amount))
    unfolding build_direct_wallet_journal
    post_direct_moves db input db' pj s t p =
        let (books, wallets) =
          post_moves x db (build_direct_wallet_journal input) db' pj s
            (direct_legs-Describes t input.type input.account_id _ _ _) p in
        (
          λ f k.
              books f k
              ∙ ap (d.add (pick f (db.cashbooks k)))
                  (direct_books f k input.type input.account_id _ _ _)
              ∙ add_zero x _,
          λ k.
              wallets k
              ∙ ap (d.add (db.wallets k))
                  (direct_wallets k input.type input.account_id input.amount input.charge_amount _),
        )

    -- Posting a transfer anew adds the amount to the one wallet and takes the amount and the fee
    -- from the other, which may be the same one; no other wallet and no cashbook moves. The
    -- resolver only adds accounts and types system, wallet and cash accounts as the chart
    -- template does.
    pub post_transfer_moves :
        (db : Db C D) (input : TransferPostingInput D) (db' : Db C D) (pj : PostedJournal D)
        → IsStable C
        → IsTyped C
        → post db (build_transfer_journal input) OnDuplicate.throw true ≡ ok (db', pj)
        → ((f : CashbookField) (k : ℕ) → pick f (db'.cashbooks k) ≡ pick f (db.cashbooks k))
          × ((k : ℕ)
              → db'.wallets k
                ≡ d.sub
                    (d.add
                      (db.wallets k)
                      (if input.to_account_id == k then input.amount else zero_amount))
                    (if input.from_account_id == k
                      then d.add input.amount (to_decimal input.fee_amount)
                      else zero_amount))
    unfolding build_transfer_journal to_decimal
    post_transfer_moves db input db' pj s t p =
        let (books, wallets) =
          post_moves x db (build_transfer_journal input) db' pj s
            (
              t.wallet-Describes input.to_account_id,
              (
                t.system-Describes SystemLedgerKey.transaction_fees,
                (t.wallet-Describes input.from_account_id, tt),
              ),
            )
            p in
        (
          λ f k. books f k ∙ transfer_books f k _ _ _ _ _ _ _ _ _ _,
          λ k. wallets k ∙ transfer_wallets k _ _ SystemLedgerKey.transaction_fees _ _ _,
        )
