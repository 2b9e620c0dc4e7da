-- ===== src/Finance/Money/Books.antt =====
-- The caches of a cashbook against its entries: the increments that the services write, beside
-- the full recomputation (`recomputeCashbookFromEntries`).
use project_task_cashbook_ba.Base.{
  ◌≡◌, refl, ◌+◌, true, Option, none, some, List, [], ◌∷◌, arith, All, Bool-cases, inl, inr, sym,
  ap, ℕ, suc, length, if◌then◌else◌,
}
use native.Mathlib.Nat.{add-zero, add-suc, suc-add}
use project_task_cashbook_ba.Decimal.{Arithmetic, IsExact}
use project_task_cashbook_ba.Decimal.Laws.{
  IsNonneg, up, down, add_parts, sub_parts, negated_parts, number_zero_parts, eq_of_units,
  decimal_laws,
}
use project_task_cashbook_ba.Finance.Money.{
  MoneyType, EntryLike, Recomputed, Mode, IncrementPayload, WalletTx, WalletTransfer, Direction,
  zero_amount, to_decimal, effective_cash_amount, wallet_balance_delta, cashbook_increment_payload,
  recompute_entry, recompute_from, nothing_yet, recompute_cashbook_from_entries, increment_by,
  transfer_balance, add_transactions, add_transfers, recompute_wallet_balance,
}

-- The three cached columns of a cashbook row.
pub record BookCaches (D : Type 0) : Type 0 where
  pub balance : D
  pub total_income : D
  pub total_expense : D

module _ {D : Type 0} ⦃d : Arithmetic D⦄ where
  open d use {add}

  -- What the database does with `{ increment: v }`, and with a field that is left out.
  abbrev pub increment_field : D → Option D → D
  increment_field v none = v
  increment_field v (some by) = add v by

  abbrev pub increment : BookCaches D → IncrementPayload D → BookCaches D
  increment c p = record {
    balance = increment_field c.balance p.balance;
    total_income = increment_field c.total_income p.total_income;
    total_expense = increment_field c.total_expense p.total_expense;
  }

  abbrev pub payload_of : Mode → EntryLike D → IncrementPayload D
  payload_of mode e =
      cashbook_increment_payload e.type e.amount e.charge_amount e.has_wallet_link mode

  abbrev pub apply_all : BookCaches D → List (EntryLike D) → BookCaches D
  apply_all c [] = c
  apply_all c (e ∷ es) = apply_all (increment c (payload_of Mode.apply e)) es

  abbrev pub caches_of : Recomputed D → BookCaches D
  caches_of r = record {
    balance = r.balance;
    total_income = r.total_income;
    total_expense = r.total_expense;
  }

  abbrev if_income : MoneyType → D → D
  if_income MoneyType.income amount = amount
  if_income MoneyType.expense amount = zero_amount

  abbrev if_expense : MoneyType → D → D
  if_expense MoneyType.income amount = zero_amount
  if_expense MoneyType.expense amount = amount

  abbrev if_in : Direction → D → D
  if_in Direction.in_ amount = amount
  if_in Direction.out amount = zero_amount

  abbrev if_out : Direction → D → D
  if_out Direction.in_ amount = zero_amount
  if_out Direction.out amount = amount

  -- Received and earned, spent and sent, and what both cost in charges and fees.
  abbrev pub came_in : List (WalletTx D) → List (WalletTransfer D) → D
  came_in [] [] = zero_amount
  came_in [] (t ∷ ts) = add (if_in t.direction t.amount) (came_in [] ts)
  came_in (t ∷ ts) transfers = add (if_income t.type t.amount) (came_in ts transfers)

  abbrev pub went_out : List (WalletTx D) → List (WalletTransfer D) → D
  went_out [] [] = zero_amount
  went_out [] (t ∷ ts) = add (if_out t.direction t.amount) (went_out [] ts)
  went_out (t ∷ ts) transfers = add (if_expense t.type t.amount) (went_out ts transfers)

  abbrev pub cost : List (WalletTx D) → List (WalletTransfer D) → D
  cost [] [] = zero_amount
  cost [] (t ∷ ts) = add (if_out t.direction (to_decimal t.fee_amount)) (cost [] ts)
  cost (t ∷ ts) transfers = add (to_decimal t.charge_amount) (cost ts transfers)

  module _ (x : IsExact D) where
    open x use {mul-one, mul-minus_one, equals-units}

    add-zero_amount : (a : D) → add a zero_amount ≡ a
    add-zero_amount a = omega (arith, eq_of_units x, add_parts x a zero_amount, number_zero_parts x)

    zero_of_equals : (a : D) → d.equals a zero_amount ≡ true → a ≡ zero_amount
    zero_of_equals a h =
        ground (arith, equals-units a zero_amount, number_zero_parts x, eq_of_units x a zero_amount)

    increment_field-apply : (v w : D) → increment_field v (increment_by w Mode.apply) ≡ add v w
    increment_field-apply v w = elim (Bool-cases (d.equals w zero_amount)) [
      | inl e ↦ rw (e, zero_of_equals w e) (sym (add-zero_amount v))
      | inr e ↦ rw (e, mul-one w)
    ]

    increment_field-reverse :
        (v w : D) → increment_field (add v w) (increment_by w Mode.reverse) ≡ v
    increment_field-reverse v w = elim (Bool-cases (d.equals w zero_amount)) [
      | inl e ↦ rw (e, zero_of_equals w e) (add-zero_amount v)
      | inr e ↦
          rw (e, mul-minus_one w)
            (omega (
              arith,
              eq_of_units x,
              add_parts x (add v w) (d.negated w),
              add_parts x v w,
              negated_parts x w,
            ))
    ]

    -- One entry: the increments move the caches as the body of the recomputation does.
    apply_entry :
        (e : EntryLike D) (acc : Recomputed D)
        → increment (caches_of acc) (payload_of Mode.apply e) ≡ caches_of (recompute_entry acc e)
    unfolding cashbook_increment_payload recompute_entry
    apply_entry e acc = simp increment_field-apply (ground (arith, add-zero_amount acc.balance))

    apply_all-recompute_from :
        (es : List (EntryLike D)) (acc : Recomputed D)
        → apply_all (caches_of acc) es ≡ caches_of (recompute_from acc es)
    unfolding recompute_from
    apply_all-recompute_from [] acc = refl
    apply_all-recompute_from (e ∷ es) acc =
        rw (apply_entry e acc) (apply_all-recompute_from es (recompute_entry acc e))

    -- Writing the increments of every entry in turn to a fresh cashbook leaves the three cached
    -- columns at the values that the full recomputation from those entries derives.
    pub apply_all-recompute :
        (es : List (EntryLike D))
        → apply_all (caches_of nothing_yet) es ≡ caches_of (recompute_cashbook_from_entries es)
    unfolding recompute_cashbook_from_entries
    apply_all-recompute es = apply_all-recompute_from es nothing_yet

    -- Reversing an entry right after applying it restores all three columns, whatever they were.
    pub reverse-apply :
        (c : BookCaches D) (e : EntryLike D)
        → increment (increment c (payload_of Mode.apply e)) (payload_of Mode.reverse e) ≡ c
    unfolding cashbook_increment_payload
    reverse-apply c e = simp (increment_field-apply, increment_field-reverse)

    abbrev pub HasFees : EntryLike D → Type 0
    HasFees e = IsNonneg x (to_decimal e.charge_amount)

    -- Book cash is book income less book expense; every entry is counted once.
    record IsBookCash (n : ℕ) (r : Recomputed D) : Type 0 where
      cash : r.balance ≡ d.sub r.book_income r.book_expense
      counted : r.wallet_linked_count + r.unallocated_count ≡ n

    fee_expense :
        (c : D) → IsNonneg x c → (if d.greater_than c zero_amount then c else zero_amount) ≡ c
    fee_expense c h = ground (
      arith,
      x.greater_than-units c zero_amount,
      number_zero_parts x,
      eq_of_units x c zero_amount,
    )

    cash_income : (i e a c : D) → d.add (d.sub i e) (d.sub a c) ≡ d.sub (d.add i a) (d.add e c)
    cash_income i e a c = omega (arith, eq_of_units x, add_parts x, sub_parts x)

    cash_expense :
        (i e t : D) → d.add (d.sub i e) (d.negated t) ≡ d.sub (d.add i zero_amount) (d.add e t)
    cash_expense i e t = omega (decimal_laws, eq_of_units x)

    recompute_entry-IsBookCash :
        (n : ℕ) (acc : Recomputed D) (e : EntryLike D)
        → HasFees e
        → IsBookCash n acc
        → IsBookCash (suc n) (recompute_entry acc e)
    unfolding recompute_entry
    recompute_entry-IsBookCash n acc e h v =
        let c = to_decimal e.charge_amount in
        ground (
          arith,
          fee_expense c h,
          cash_income acc.book_income acc.book_expense e.amount c,
          cash_expense acc.book_income acc.book_expense (d.add e.amount c),
        )

    nothing_in : zero_amount ≡ d.sub zero_amount zero_amount
    nothing_in = omega (arith, eq_of_units x, sub_parts x, number_zero_parts x)

    recompute_from-IsBookCash :
        (es : List (EntryLike D)) (n : ℕ) (acc : Recomputed D)
        → All HasFees es
        → IsBookCash n acc
        → IsBookCash (n + length es) (recompute_from acc es)
    unfolding recompute_from
    recompute_from-IsBookCash [] n acc h v = rw add-zero v
    recompute_from-IsBookCash (e ∷ es) n acc (h, hs) v =
        rw (add-suc n (length es), ← suc-add n (length es))
          (recompute_from-IsBookCash es (suc n) (recompute_entry acc e) hs
            (recompute_entry-IsBookCash n acc e h v))

    -- With fees of zero or more, the recomputed balance is book income less book expense, and each
    -- entry is counted exactly once, as linked to a wallet or as unallocated.
    pub recompute_book_cash :
        (es : List (EntryLike D))
        → All HasFees es
        → let r = recompute_cashbook_from_entries es in
          (r.balance ≡ d.sub r.book_income r.book_expense)
          × (r.wallet_linked_count + r.unallocated_count ≡ length es)
    unfolding recompute_cashbook_from_entries
    recompute_book_cash es h =
        let v =
          recompute_from-IsBookCash es 0 nothing_yet h
            (record { cash = nothing_in; counted = omega arith }) in
        (v.cash, omega arith)

    abbrev Balanced : D → D → List (WalletTx D) → List (WalletTransfer D) → Type 0
    Balanced after before ts transfers =
        d.add (d.add after (cost ts transfers)) (went_out ts transfers)
        ≡ d.add before (came_in ts transfers)

    -- One step and the rest, added up.
    balance_sum :
        (b b' r c w i f o a : D)
        → d.add (d.add r c) w ≡ d.add b' i
        → d.add (d.add b' f) o ≡ d.add b a
        → d.add (d.add r (d.add f c)) (d.add o w) ≡ d.add b (d.add a i)
    balance_sum b b' r c w i f o a h k =
        omega (
          arith,
          eq_of_units x,
          add_parts x,
          ap (up x) h,
          ap (down x) h,
          ap (up x) k,
          ap (down x) k,
        )

    transfer_step :
        (g : Direction) (b a f : D)
        → d.add (d.add (transfer_balance b g a f) (if_out g f)) (if_out g a) ≡ d.add b (if_in g a)
    transfer_step Direction.in_ b a f = omega (decimal_laws, eq_of_units x)
    transfer_step Direction.out b a f = omega (decimal_laws, eq_of_units x)

    transaction_step :
        (type : MoneyType) (b a : D) (charge : Option D)
        → d.add
            (d.add (d.add b (wallet_balance_delta type a charge)) (to_decimal charge))
            (if_expense type a)
          ≡ d.add b (if_income type a)
    unfolding wallet_balance_delta effective_cash_amount
    transaction_step MoneyType.income b a charge = omega (decimal_laws, eq_of_units x)
    transaction_step MoneyType.expense b a charge = omega (decimal_laws, eq_of_units x)

    add_transfers-Balanced :
        (ts : List (WalletTransfer D)) (b : D) → Balanced (add_transfers b ts) b [] ts
    unfolding add_transfers
    add_transfers-Balanced [] b = omega (decimal_laws, eq_of_units x)
    add_transfers-Balanced (t ∷ ts) b =
        balance_sum b (transfer_balance b t.direction t.amount (to_decimal t.fee_amount)) _ _ _ _ _
          _ _ (add_transfers-Balanced ts _)
          (transfer_step t.direction b t.amount (to_decimal t.fee_amount))

    add_transactions-Balanced :
        (ts : List (WalletTx D)) (transfers : List (WalletTransfer D)) (b : D)
        → Balanced (add_transfers (add_transactions b ts) transfers) b ts transfers
    unfolding add_transactions
    add_transactions-Balanced [] transfers b = add_transfers-Balanced transfers b
    add_transactions-Balanced (t ∷ ts) transfers b =
        balance_sum b (d.add b (wallet_balance_delta t.type t.amount t.charge_amount)) _ _ _ _ _ _ _
          (add_transactions-Balanced ts transfers _)
          (transaction_step t.type b t.amount t.charge_amount)

    -- The recomputed balance of a wallet is what came in (incomes and transfers received) less what
    -- went out (expenses and transfers sent), less the charges of its transactions and the fees of
    -- the transfers that it sent.
    pub recompute_wallet_balance_flows :
        (ts : List (WalletTx D)) (transfers : List (WalletTransfer D))
        → recompute_wallet_balance ts transfers
          ≡ d.sub (d.sub (came_in ts transfers) (went_out ts transfers)) (cost ts transfers)
    unfolding recompute_wallet_balance
    recompute_wallet_balance_flows ts transfers =
        let flows = add_transactions-Balanced ts transfers zero_amount in
        omega (decimal_laws, eq_of_units x, ap (up x) flows, ap (down x) flows)
