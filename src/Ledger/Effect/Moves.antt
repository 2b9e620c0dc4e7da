-- ===== src/Ledger/Effect/Moves.antt =====
-- What posting a draft moves, for any draft whose references are described.
use project_task_cashbook_ba.Base.{
  ℕ, ◌≡◌, refl, sym, ap, ◌∙◌, subst, true, Option, List, inl, inr, All, All-imp, arith,
  Option-cases,
}
use project_task_cashbook_ba.Base.Result.{ok, err, >>=-eq-ok, ok_pair}
use project_task_cashbook_ba.Decimal.{Arithmetic, IsExact}
use project_task_cashbook_ba.Decimal.Laws.{sub_parts, number_zero_parts, eq_of_units}
use project_task_cashbook_ba.Finance.Money.{zero_amount}
use project_task_cashbook_ba.Ledger.Types.{LedgerRef, ResolvedLine, JournalDraft, PostedJournal}
use project_task_cashbook_ba.Ledger.Posting.{
  CashbookField, Db, OnDuplicate, ResolvedDraft, counted_book, counts_toward_cashbook_totals,
  resolve_legs, resolve_draft, deltas_from_lines, assert_balanced, apply_cache_deltas, find_key,
  post, post_new,
}
use project_task_cashbook_ba.Ledger.Posting.Resolver.{Resolver, IsStable, posting_key_conflict}
use project_task_cashbook_ba.Ledger.Identity.{pick, book_worth, wallet_worth}
use project_task_cashbook_ba.Ledger.Identity.Books.{
  zero_add, delta_at-add_lines, delta_at-sort_keys, apply_cashbook_deltas_lem,
}
use project_task_cashbook_ba.Ledger.Identity.Wallets.{
  wallet_at-add_lines, wallet_at-sort_keys, apply_wallet_deltas_lem,
}
use project_task_cashbook_ba.Ledger.Effect.Worth.{
  Kind, Describes, DescribesIn, Keeps, Describes-DescribesIn, leg_worth, wallet_leg_worth, legs_sum,
  income_of, expense_of, kind_of_ref, book_worth-Fits, wallet_worth-Fits, lines_sum-resolve_legs,
}

-- The cashbook whose totals a draft counts toward.
abbrev pub draft_book : {D : Type 0} → JournalDraft D → Option ℕ
draft_book draft = counted_book (counts_toward_cashbook_totals draft.source_type) draft.cashbook_id

module _ {D : Type 0} ⦃d : Arithmetic D⦄ (x : IsExact D) where
  sub_zero_zero : d.sub zero_amount zero_amount ≡ zero_amount
  sub_zero_zero = omega (arith, eq_of_units x, sub_parts x, number_zero_parts x)

  income_of-zero : (kind : Kind) → income_of kind (zero_amount {D = D}) zero_amount ≡ zero_amount
  income_of-zero Kind.revenue = sub_zero_zero
  income_of-zero _ = refl

  expense_of-zero : (kind : Kind) → expense_of kind (zero_amount {D = D}) zero_amount ≡ zero_amount
  expense_of-zero Kind.cost = sub_zero_zero
  expense_of-zero _ = refl

  leg_worth-zero :
      (f : CashbookField) (k : ℕ) (book : Option ℕ) (ref : LedgerRef)
      → leg_worth f k book ref (zero_amount {D = D}) zero_amount ≡ zero_amount
  leg_worth-zero CashbookField.balance k book ref = ground (arith, sub_zero_zero)
  leg_worth-zero CashbookField.total_income k book ref =
      rw (income_of-zero (kind_of_ref ref)) (ground arith)
  leg_worth-zero CashbookField.total_expense k book ref =
      rw (expense_of-zero (kind_of_ref ref)) (ground arith)

  wallet_leg_worth-zero :
      (k : ℕ) (ref : LedgerRef)
      → wallet_leg_worth k ref (zero_amount {D = D}) zero_amount ≡ zero_amount
  wallet_leg_worth-zero k ref = ground (arith, sub_zero_zero)

  module _ {C : Type 0} ⦃r : Resolver C⦄ where
    pub resolve_draft-legs :
        (db : Db C D) (draft : JournalDraft D) (c : C) (res : ResolvedDraft D)
        → resolve_draft db.chart draft ≡ ok (c, res)
        → (ls : List (ResolvedLine D)) × (resolve_legs db.chart draft.workspace_id draft.currency 1
              draft.legs
            ≡ ok (c, ls))
          × (deltas_from_lines c ls draft.cashbook_id draft.source_type ≡ ok res)
    unfolding resolve_draft
    resolve_draft-legs db draft c res h =
        let ((c', ls), p, q) = >>=-eq-ok _ _ h in
        let (res', p', q') =
          >>=-eq-ok (deltas_from_lines c' ls draft.cashbook_id draft.source_type) _ q in
        let (e, f) = ok_pair c' c res' res q' in
        (
          ls,
          subst
              (λ k.
                resolve_legs db.chart draft.workspace_id draft.currency 1 draft.legs ≡ ok (k, ls))
              e p,
          subst (λ k. deltas_from_lines k ls draft.cashbook_id draft.source_type ≡ ok res) e
              (p' ∙ ap (λ t. ok t) f),
        )

    post_new-throw :
        (db : Db C D) (draft : JournalDraft D) (db' : Db C D) (pj : PostedJournal D)
        → post db draft OnDuplicate.throw true ≡ ok (db', pj)
        → post_new db draft true ≡ ok (db', pj)
    unfolding post
    post_new-throw db draft db' pj p =
        elim (Option-cases (find_key draft.workspace_id draft.posting_key db.journals)) [
          | inl n ↦ rw (n, post) at p
          | inr (j, e) ↦
              let failed : err posting_key_conflict ≡ ok (db', pj) = rw (e, post) at p in cc
        ]

    -- Posting moves each cashbook column and each wallet by what the draft's legs are worth there.
    pub post_moves_in :
        (db : Db C D) (draft : JournalDraft D) (db' : Db C D) (pj : PostedJournal D)
        (P : C → Type 0)
        → IsStable C
        → Keeps C P
        → All (λ leg. DescribesIn C P leg.ref) draft.legs
        → P db.chart
        → post db draft OnDuplicate.throw true ≡ ok (db', pj)
        → ((f : CashbookField) (k : ℕ)
            → pick f (db'.cashbooks k)
              ≡ d.add
                  (pick f (db.cashbooks k))
                  (legs_sum (leg_worth f k (draft_book draft)) draft.legs))
          × ((k : ℕ)
              → db'.wallets k ≡ d.add (db.wallets k) (legs_sum (wallet_leg_worth k) draft.legs))
    unfolding post_new deltas_from_lines apply_cache_deltas
    post_moves_in db draft db' pj P s keep ds here p =
        let ((c, res), a, b) =
          >>=-eq-ok (resolve_draft db.chart draft) _ (post_new-throw db draft db' pj p) in
        let (u, b', q) = >>=-eq-ok (assert_balanced res) _ b in
        let (ls, legs, del) = resolve_draft-legs db draft c res a in
        let eq = (ok_pair _ db' _ pj q).0 in
        (
          λ f k.
              ap (λ t. pick f (t.cashbooks k)) (sym eq)
              ∙ apply_cashbook_deltas_lem x f k _ db.cashbooks
              ∙ ap (d.add (pick f (db.cashbooks k))) (
                  delta_at-sort_keys x f k res.cashbook_deltas
                  ∙ delta_at-add_lines x c f k (draft_book draft) ls _ res del
                  ∙ zero_add x _
                  ∙ lines_sum-resolve_legs x (book_worth f k (draft_book draft))
                      (leg_worth f k (draft_book draft)) db.chart draft.workspace_id draft.currency
                      1 draft.legs c ls P s keep (book_worth-Fits f k (draft_book draft))
                      (leg_worth-zero f k (draft_book draft)) ds here legs),
          λ k.
              ap (λ t. t.wallets k) (sym eq)
              ∙ apply_wallet_deltas_lem x k _ db.wallets
              ∙ ap (d.add (db.wallets k)) (
                  wallet_at-sort_keys x k res.wallet_deltas
                  ∙ wallet_at-add_lines x c k (draft_book draft) ls _ res del
                  ∙ zero_add x _
                  ∙ lines_sum-resolve_legs x (wallet_worth k) (wallet_leg_worth k) db.chart
                      draft.workspace_id draft.currency 1 draft.legs c ls P s keep
                      (wallet_worth-Fits k) (wallet_leg_worth-zero k) ds here legs),
        )

    -- The same for references that are described in every chart.
    pub post_moves :
        (db : Db C D) (draft : JournalDraft D) (db' : Db C D) (pj : PostedJournal D)
        → IsStable C
        → All (λ leg. Describes C leg.ref) draft.legs
        → post db draft OnDuplicate.throw true ≡ ok (db', pj)
        → ((f : CashbookField) (k : ℕ)
            → pick f (db'.cashbooks k)
              ≡ d.add
                  (pick f (db.cashbooks k))
                  (legs_sum (leg_worth f k (draft_book draft)) draft.legs))
          × ((k : ℕ)
              → db'.wallets k ≡ d.add (db.wallets k) (legs_sum (wallet_leg_worth k) draft.legs))
    post_moves db draft db' pj s ds p =
        post_moves_in db draft db' pj (λ _. Unit {0}) s (λ c c1 w y ref a h q. tt)
          (All-imp draft.legs (λ leg h. Describes-DescribesIn (λ _. Unit {0}) leg.ref h) ds) tt p
