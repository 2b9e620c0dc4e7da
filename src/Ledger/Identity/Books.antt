-- ===== src/Ledger/Identity/Books.antt =====
-- The deltas of `deltasFromLines` and what `applyCacheDeltas` writes, for the cashbook columns.
use project_task_cashbook_ba.Base.{
  ℕ, ◌≡◌, ◌≢◌, refl, sym, ap, ◌∙◌, ◌==◌, Bool, true, false, ◌&&◌, Option, none, some, List, [], ◌∷◌,
  inl, inr, arith, Bool-cases, subst, ==_refl, if◌then◌else◌,
}
use native.Mathlib.Decide.{ℕ_discrete}
use project_task_cashbook_ba.Base.Result.{ok, err, Result-cases}
use project_task_cashbook_ba.Decimal.{Arithmetic, IsExact}
use project_task_cashbook_ba.Decimal.Laws.{add_parts, number_zero_parts, eq_of_units}
use project_task_cashbook_ba.Finance.Money.{zero_amount}
use project_task_cashbook_ba.Finance.Money.Books.{BookCaches}
use project_task_cashbook_ba.Ledger.Types.{ResolvedLine, LedgerAccountMeta, LedgerAccountClass}
use project_task_cashbook_ba.Ledger.Posting.{
  CashbookField, ResolvedDraft, same_id, add_to, no_caches, put_delta, bump_cashbook, bump_if,
  bump_class, add_line, add_lines, increment_nonzero, incremented, update_at, apply_cashbook_deltas,
  sort_keys, insert_key, book_cash_of,
}
use project_task_cashbook_ba.Ledger.Posting.Resolver.{Resolver}
use project_task_cashbook_ba.Ledger.Identity.Sums.{
  pick, income_part, expense_part, book_worth, lines_sum,
}

abbrev same_field : CashbookField → CashbookField → Bool
same_field CashbookField.balance CashbookField.balance = true
same_field CashbookField.total_income CashbookField.total_income = true
same_field CashbookField.total_expense CashbookField.total_expense = true
same_field _ _ = false

module _ {D : Type 0} ⦃d : Arithmetic D⦄ where
  -- The column f of cashbook k in a map of deltas.
  abbrev pub delta_at : CashbookField → ℕ → List (ℕ × BookCaches D) → D
  delta_at f k [] = zero_amount
  delta_at f k ((j, v) ∷ m) = d.add (if j == k then pick f v else zero_amount) (delta_at f k m)

  module _ (x : IsExact D) where
    pub add_zero : (a : D) → d.add a zero_amount ≡ a
    add_zero a = omega (arith, eq_of_units x, add_parts x, number_zero_parts x)

    pub zero_add : (a : D) → d.add zero_amount a ≡ a
    zero_add a = omega (arith, eq_of_units x, add_parts x, number_zero_parts x)

    pub add_assoc : (a b c : D) → d.add (d.add a b) c ≡ d.add a (d.add b c)
    add_assoc a b c = omega (arith, eq_of_units x, add_parts x)

    pub add_left_comm : (a b c : D) → d.add a (d.add b c) ≡ d.add b (d.add a c)
    add_left_comm a b c = omega (arith, eq_of_units x, add_parts x)

    pub add_comm : (a b : D) → d.add a b ≡ d.add b a
    add_comm a b = omega (arith, eq_of_units x, add_parts x)

    pub add_right_comm : (a b c : D) → d.add (d.add a b) c ≡ d.add (d.add a c) b
    add_right_comm a b c = omega (arith, eq_of_units x, add_parts x)

    pub zero_of_is_zero : (a : D) → d.is_zero a ≡ true → a ≡ zero_amount
    zero_of_is_zero a h =
        let test = x.is_zero-units a in
        let zero_parts = number_zero_parts x in eq_of_units x a zero_amount (ground arith)

    pick-add_to :
        (f g : CashbookField) (v : BookCaches D) (a : D)
        → pick f (add_to g v a) ≡ d.add (pick f v) (if same_field f g then a else zero_amount)
    pick-add_to CashbookField.balance CashbookField.balance v a = refl
    pick-add_to CashbookField.total_income CashbookField.total_income v a = refl
    pick-add_to CashbookField.total_expense CashbookField.total_expense v a = refl
    pick-add_to f g v a = sym (add_zero (pick f v))

    pick-no_caches : (f : CashbookField) → pick f (no_caches {D = D}) ≡ zero_amount
    pick-no_caches CashbookField.balance = refl
    pick-no_caches _ = refl

    delta_at-put_delta :
        (f g : CashbookField) (k id : ℕ) (a : D) (m : List (ℕ × BookCaches D))
        → delta_at f k (put_delta m id g a)
          ≡ d.add (delta_at f k m) (if (id == k) && same_field f g then a else zero_amount)
    delta_at-put_delta f g k id a [] = ground (
      arith,
      pick-add_to f g no_caches a,
      pick-no_caches f,
      add_zero (d.add zero_amount (if same_field f g then a else zero_amount)),
    )
    delta_at-put_delta f g k id a ((j, v) ∷ m) =
        let w = if same_field f g then a else zero_amount in
        let p = if j == k then pick f v else zero_amount in
        ground (
          arith,
          pick-add_to f g v a,
          add_right_comm p w (delta_at f k m),
          add_zero (d.add p (delta_at f k m)),
          add_assoc p (delta_at f k m) (if (id == k) && same_field f g then a else zero_amount),
          delta_at-put_delta f g k id a m,
        )

    delta_at-bump_cashbook :
        (f g : CashbookField) (k id : ℕ) (a : D) (m : List (ℕ × BookCaches D))
        → delta_at f k (bump_cashbook m id g a)
          ≡ d.add (delta_at f k m) (if (id == k) && same_field f g then a else zero_amount)
    unfolding bump_cashbook
    delta_at-bump_cashbook f g k id a m = elim (Bool-cases (d.is_zero a)) [
      | inl z ↦ rw z (ground (arith, zero_of_is_zero a z, add_zero (delta_at f k m)))
      | inr nz ↦ rw nz (delta_at-put_delta f g k id a m)
    ]

    delta_at-bump_if :
        (f g : CashbookField) (k : ℕ) (id : Option ℕ) (a : D) (m : List (ℕ × BookCaches D))
        → delta_at f k (bump_if m id g a)
          ≡ d.add (delta_at f k m) (if same_id id k && same_field f g then a else zero_amount)
    delta_at-bump_if f g k none a m = sym (add_zero _)
    delta_at-bump_if f g k (some id) a m = delta_at-bump_cashbook f g k id a m

    abbrev class_worth : CashbookField → ℕ → Option ℕ → LedgerAccountClass → ResolvedLine D → D
    class_worth CashbookField.balance k book class l = zero_amount
    class_worth CashbookField.total_income k book class l =
        if same_id book k then income_part class l else zero_amount
    class_worth CashbookField.total_expense k book class l =
        if same_id book k then expense_part class l else zero_amount

    no_class_worth :
        (f : CashbookField) (k : ℕ) (book : Option ℕ) (class : LedgerAccountClass)
        (l : ResolvedLine D)
        → class ≢ LedgerAccountClass.income
        → class ≢ LedgerAccountClass.expense
        → class_worth f k book class l ≡ zero_amount
    no_class_worth CashbookField.balance k book class l h g = refl
    no_class_worth CashbookField.total_income k book class l h g = ground arith
    no_class_worth CashbookField.total_expense k book class l h g = ground arith

    delta_at-bump_class :
        (f : CashbookField) (k : ℕ) (book : Option ℕ) (class : LedgerAccountClass)
        (l : ResolvedLine D) (m : List (ℕ × BookCaches D))
        → delta_at f k (bump_class m book class l)
          ≡ d.add (delta_at f k m) (class_worth f k book class l)
    delta_at-bump_class CashbookField.balance k book LedgerAccountClass.income l m = ground (
      arith,
      delta_at-bump_if CashbookField.balance CashbookField.total_income k book
          (d.sub l.credit l.debit) m,
    )
    delta_at-bump_class CashbookField.total_income k book LedgerAccountClass.income l m = ground (
      arith,
      delta_at-bump_if CashbookField.total_income CashbookField.total_income k book
          (d.sub l.credit l.debit) m,
    )
    delta_at-bump_class CashbookField.total_expense k book LedgerAccountClass.income l m = ground (
      arith,
      delta_at-bump_if CashbookField.total_expense CashbookField.total_income k book
          (d.sub l.credit l.debit) m,
    )
    delta_at-bump_class CashbookField.balance k book LedgerAccountClass.expense l m = ground (
      arith,
      delta_at-bump_if CashbookField.balance CashbookField.total_expense k book
          (d.sub l.debit l.credit) m,
    )
    delta_at-bump_class CashbookField.total_income k book LedgerAccountClass.expense l m = ground (
      arith,
      delta_at-bump_if CashbookField.total_income CashbookField.total_expense k book
          (d.sub l.debit l.credit) m,
    )
    delta_at-bump_class CashbookField.total_expense k book LedgerAccountClass.expense l m = ground (
      arith,
      delta_at-bump_if CashbookField.total_expense CashbookField.total_expense k book
          (d.sub l.debit l.credit) m,
    )
    delta_at-bump_class f k book LedgerAccountClass.asset l m =
        rw (no_class_worth f k book LedgerAccountClass.asset l (λ e. cc) (λ e. cc))
          (sym (add_zero _))
    delta_at-bump_class f k book LedgerAccountClass.liability l m =
        rw (no_class_worth f k book LedgerAccountClass.liability l (λ e. cc) (λ e. cc))
          (sym (add_zero _))
    delta_at-bump_class f k book LedgerAccountClass.equity l m =
        rw (no_class_worth f k book LedgerAccountClass.equity l (λ e. cc) (λ e. cc))
          (sym (add_zero _))

    regroup :
        (f : CashbookField) (k : ℕ) (book : Option ℕ) (meta : LedgerAccountMeta)
        (l : ResolvedLine D) (t : D)
        → d.add
            (d.add t (
              if same_id (book_cash_of meta.origin meta.cashbook_id) k
                && same_field f CashbookField.balance
              then d.sub l.debit l.credit
              else zero_amount))
            (class_worth f k book meta.class l)
          ≡ d.add t (book_worth f k book meta l)
    regroup CashbookField.balance k book meta l t =
        ground (arith, add_zero (d.add t zero_amount), add_zero (d.add t (d.sub l.debit l.credit)))
    regroup CashbookField.total_income k book meta l t = ground (arith, add_zero t)
    regroup CashbookField.total_expense k book meta l t = ground (arith, add_zero t)

    -- One line moves each column by what the line is worth there.
    delta_at-add_line :
        (f : CashbookField) (k : ℕ) (book : Option ℕ) (meta : LedgerAccountMeta)
        (l : ResolvedLine D) (acc : ResolvedDraft D)
        → delta_at f k (add_line book meta l acc).cashbook_deltas
          ≡ d.add (delta_at f k acc.cashbook_deltas) (book_worth f k book meta l)
    unfolding add_line
    delta_at-add_line f k book meta l acc =
        let own = book_cash_of meta.origin meta.cashbook_id in
        let s = d.sub l.debit l.credit in
        let cash = bump_if acc.cashbook_deltas own CashbookField.balance s in
        delta_at-bump_class f k book meta.class l cash
        ∙ ap (λ t. d.add t (class_worth f k book meta.class l))
            (delta_at-bump_if f CashbookField.balance k own s acc.cashbook_deltas)
        ∙ regroup f k book meta l (delta_at f k acc.cashbook_deltas)

    -- The deltas of all lines are the sum of their worths.
    pub delta_at-add_lines :
        {C : Type 0} ⦃r : Resolver C⦄ (c : C) (f : CashbookField) (k : ℕ) (book : Option ℕ)
        (ls : List (ResolvedLine D)) (acc res : ResolvedDraft D)
        → add_lines c book ls acc ≡ ok res
        → delta_at f k res.cashbook_deltas
          ≡ d.add (delta_at f k acc.cashbook_deltas) (lines_sum c (book_worth f k book) ls)
    unfolding add_lines
    delta_at-add_lines c f k book [] acc res h =
        ground (arith, add_zero (delta_at f k acc.cashbook_deltas))
    delta_at-add_lines ⦃r⦄ c f k book (l ∷ ls) acc res h =
        elim (Result-cases (r.meta_for c l.ledger_account_id)) [
          | inr (e, p) ↦ let failed : err e ≡ ok res = rw p at h in cc
          | inl (meta, p) ↦
              rw (p, lines_sum)
                (delta_at-add_lines c f k book ls (add_line book meta l acc) res (rw p at h)
                  ∙ ap (λ t. d.add t (lines_sum c (book_worth f k book) ls))
                      (delta_at-add_line f k book meta l acc)
                  ∙ add_assoc _ _ _)
        ]

    delta_at-insert_key :
        (f : CashbookField) (k : ℕ) (e : ℕ × BookCaches D) (m : List (ℕ × BookCaches D))
        → delta_at f k (insert_key e m) ≡ delta_at f k (e ∷ m)
    delta_at-insert_key f k e [] = refl
    delta_at-insert_key f k e (g ∷ m) = ground (
      arith,
      delta_at-insert_key f k e m,
      add_left_comm (if g.0 == k then pick f g.1 else zero_amount)
          (if e.0 == k then pick f e.1 else zero_amount) (delta_at f k m),
    )

    pub delta_at-sort_keys :
        (f : CashbookField) (k : ℕ) (m : List (ℕ × BookCaches D))
        → delta_at f k (sort_keys m) ≡ delta_at f k m
    delta_at-sort_keys f k [] = refl
    delta_at-sort_keys f k (e ∷ m) =
        delta_at-insert_key f k e (sort_keys m)
        ∙ ap (d.add (if e.0 == k then pick f e.1 else zero_amount)) (delta_at-sort_keys f k m)

    pub increment_nonzero_lem : (a b : D) → increment_nonzero a b ≡ d.add a b
    increment_nonzero_lem a b = elim (Bool-cases (d.is_zero b)) [
      | inl z ↦ rw z (ground (arith, zero_of_is_zero b z, add_zero a))
      | inr nz ↦ rw nz
    ]

    pick-incremented :
        (f : CashbookField) (b v : BookCaches D)
        → pick f (incremented b v) ≡ d.add (pick f b) (pick f v)
    pick-incremented CashbookField.balance b v = increment_nonzero_lem b.balance v.balance
    pick-incremented CashbookField.total_income b v =
        increment_nonzero_lem b.total_income v.total_income
    pick-incremented CashbookField.total_expense b v =
        increment_nonzero_lem b.total_expense v.total_expense

    pick-update :
        (f : CashbookField) (k id : ℕ) (v : BookCaches D) (books : ℕ → BookCaches D)
        → pick f (update_at books id (incremented (books id) v) k)
          ≡ d.add (pick f (books k)) (if id == k then pick f v else zero_amount)
    pick-update f k id v books = elim (ℕ_discrete id k) [
      | yes e ↦
          subst
            (λ j.
              pick f (update_at books id (incremented (books id) v) j)
              ≡ d.add (pick f (books j)) (if id == j then pick f v else zero_amount))
            e (rw (==_refl id) (pick-incremented f (books id) v))
      | no ne ↦ ground (arith, add_zero (pick f (books k)))
    ]

    pub apply_cashbook_deltas_lem :
        (f : CashbookField) (k : ℕ) (m : List (ℕ × BookCaches D)) (books : ℕ → BookCaches D)
        → pick f (apply_cashbook_deltas books m k) ≡ d.add (pick f (books k)) (delta_at f k m)
    unfolding apply_cashbook_deltas
    apply_cashbook_deltas_lem f k [] books = sym (add_zero _)
    apply_cashbook_deltas_lem f k ((id, v) ∷ m) books =
        apply_cashbook_deltas_lem f k m _
        ∙ ap (λ t. d.add t (delta_at f k m)) (pick-update f k id v books)
        ∙ add_assoc _ _ _
