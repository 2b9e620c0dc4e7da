-- ===== src/Tests/Finance.antt =====
-- Money and obligation interest on whole ten-thousandths.
use project_task_cashbook_ba.Base.{
  ◌≡◌, ◌≢◌, ◌↔◌, ◌⊎◌, refl, ◌+◌, true, false, none, some, List, [], ◌∷◌, arith,
}
use project_task_cashbook_ba.Base.Int.{ℤ, pos, negsuc, ◌+ℤ◌, ◌-ℤ◌}
use project_task_cashbook_ba.Decimal.Cents.{cents, exact}
use project_task_cashbook_ba.Decimal.Laws.{Le}
use project_task_cashbook_ba.Finance.Money.{
  MoneyType, Mode, EntryLike, WalletTx, WalletTransfer, Direction, ObligationStatus, InvoiceStatus,
  obligation_status_from_amounts, invoice_status_from_outstanding, recompute_cashbook_from_entries,
  nothing_yet, recompute_wallet_balance, to_decimal,
}
use project_task_cashbook_ba.Finance.Money.Books.{
  BookCaches, apply_all, caches_of, increment, payload_of, apply_all-recompute, reverse-apply,
  recompute_book_cash, came_in, went_out, cost, recompute_wallet_balance_flows,
}
use project_task_cashbook_ba.Finance.Money.Status.{Lt, obligation_status_iff, invoice_status_iff}
use project_task_cashbook_ba.Finance.Interest.{
  ObligationAmounts, InterestInput, obligation_breakdown, resolve_interest, clamp,
}
use project_task_cashbook_ba.Finance.Interest.Split.{
  IsStored, obligation_breakdown_splits, obligation_breakdown_cost_recovery,
}

abbrev sale : EntryLike ℤ
sale = record {
  type = MoneyType.income;
  amount = pos 1000000;
  charge_amount = some (pos 15000);
  has_wallet_link = false;
}

abbrev rent : EntryLike ℤ
rent = record {
  type = MoneyType.expense;
  amount = pos 400000;
  charge_amount = none;
  has_wallet_link = true;
}

abbrev entries : List (EntryLike ℤ)
entries = sale ∷ rent ∷ sale ∷ []

-- Two sales of 100 with a fee of 1.50 leave 197 of book cash; the rent was paid from a wallet.
balance-entries : (recompute_cashbook_from_entries entries).balance ≡ pos 1970000
unfolding recompute_cashbook_from_entries ◌+ℤ◌ ◌-ℤ◌
balance-entries = refl

apply_all-recompute_example :
    apply_all (caches_of nothing_yet) entries ≡ caches_of (recompute_cashbook_from_entries entries)
apply_all-recompute_example = apply_all-recompute exact entries

abbrev caches : BookCaches ℤ
caches = record { balance = negsuc 4; total_income = pos 10; total_expense = pos 15 }

reverse-apply_example :
    increment (increment caches (payload_of Mode.apply sale)) (payload_of Mode.reverse sale)
    ≡ caches
reverse-apply_example = reverse-apply exact caches sale

recompute_book_cash_example :
    let r = recompute_cashbook_from_entries entries in
    (r.balance ≡ r.book_income -ℤ r.book_expense)
    × (r.wallet_linked_count + r.unallocated_count ≡ 3)
unfolding ◌-ℤ◌ to_decimal
recompute_book_cash_example =
    recompute_book_cash exact entries (omega arith, (omega arith, (omega arith, tt)))

abbrev deposit : WalletTx ℤ
deposit = record { type = MoneyType.income; amount = pos 500000; charge_amount = some (pos 100) }

abbrev sent : WalletTransfer ℤ
sent = record { direction = Direction.out; amount = pos 70000; fee_amount = some (pos 5) }

recompute_wallet_balance_flows_example :
    recompute_wallet_balance (deposit ∷ deposit ∷ []) (sent ∷ [])
    ≡ (came_in (deposit ∷ deposit ∷ []) (sent ∷ [])
        -ℤ went_out (deposit ∷ deposit ∷ []) (sent ∷ []))
      -ℤ cost (deposit ∷ deposit ∷ []) (sent ∷ [])
recompute_wallet_balance_flows_example =
    recompute_wallet_balance_flows exact (deposit ∷ deposit ∷ []) (sent ∷ [])

abbrev stored : ObligationAmounts ℤ
stored = record {
  principal_amount = pos 1000000;
  interest_amount = pos 200000;
  total_amount = pos 1200000;
  outstanding_amount = pos 100000;
}

-- 110 of 120 are settled: the 100 of principal first, then 10 of the 20 of interest.
realized-stored :
    let b = obligation_breakdown stored in
    (b.principal_recovered ≡ pos 1000000)
    × (b.interest_realized ≡ pos 100000)
    × (b.is_capital_recovered ≡ true)
unfolding obligation_breakdown clamp ◌-ℤ◌
realized-stored = (refl, refl, refl)

abbrev stored-IsStored : IsStored exact stored
unfolding ◌+ℤ◌
stored-IsStored = record {
  sums = refl;
  principal_nonneg = omega arith;
  interest_nonneg = omega arith;
}

obligation_breakdown_splits_example :
    let b = obligation_breakdown stored in
    (b.principal_recovered +ℤ b.principal_at_risk ≡ pos 1000000)
    × (b.interest_realized +ℤ b.interest_pending ≡ pos 200000)
    × (b.principal_recovered +ℤ b.interest_realized ≡ b.amount_settled)
    × Le exact (pos 0) b.principal_recovered
    × Le exact b.principal_recovered (pos 1000000)
    × Le exact (pos 0) b.interest_realized
    × Le exact b.interest_realized (pos 200000)
obligation_breakdown_splits_example = obligation_breakdown_splits exact stored stored-IsStored

obligation_breakdown_cost_recovery_example :
    let b = obligation_breakdown stored in
    (b.is_capital_recovered ≡ true ↔ b.principal_recovered ≡ pos 1000000)
    × (cents.greater_than b.interest_realized (pos 0) ≡ true → b.is_capital_recovered ≡ true)
obligation_breakdown_cost_recovery_example =
    obligation_breakdown_cost_recovery exact stored stored-IsStored

-- A tenth of interest on 100.
abbrev at_ten_percent : InterestInput ℤ
at_ten_percent = record {
  principal_amount = pos 1000000;
  interest_rate = some (pos 100000);
  interest_amount = none;
}

-- The principal and the interest are stored, and the total is their sum.
interest_at_ten_percent :
    let r = resolve_interest at_ten_percent in
    (r.interest_amount ≡ pos 100000) × (r.total_amount ≡ pos 1100000)
unfolding resolve_interest ◌+ℤ◌
interest_at_ten_percent = (refl, refl)

obligation_status_iff_example :
    let s = obligation_status_from_amounts (pos 100) (pos 40) (some ObligationStatus.open_) in
    (some ObligationStatus.open_ ≡ some ObligationStatus.cancelled → s ≡ ObligationStatus.cancelled)
    × (some ObligationStatus.open_ ≢ some ObligationStatus.cancelled
        → ((s ≡ ObligationStatus.paid) ↔ Le exact (pos 40) (pos 0))
          × ((s ≡ ObligationStatus.open_) ↔ Le exact (pos 100) (pos 40))
          × ((s ≡ ObligationStatus.partial)
              ↔ (Lt exact (pos 0) (pos 40) × Lt exact (pos 40) (pos 100))))
obligation_status_iff_example =
    obligation_status_iff exact (pos 100) (pos 40) (some ObligationStatus.open_) (omega arith)

invoice_status_iff_example :
    let s = invoice_status_from_outstanding (pos 100) (pos 40) InvoiceStatus.overdue in
    ((InvoiceStatus.overdue ≡ InvoiceStatus.draft) ⊎ (InvoiceStatus.overdue ≡ InvoiceStatus.void)
      → s ≡ InvoiceStatus.overdue)
    × (InvoiceStatus.overdue ≢ InvoiceStatus.draft
        → InvoiceStatus.overdue ≢ InvoiceStatus.void
        → ((s ≡ InvoiceStatus.paid) ↔ Le exact (pos 40) (pos 0))
          × ((s ≡ InvoiceStatus.partially_paid)
              ↔ (Lt exact (pos 0) (pos 40) × Lt exact (pos 40) (pos 100)))
          × ((s ≡ InvoiceStatus.overdue) ↔ (
              Lt exact (pos 0) (pos 40)
              × Le exact (pos 100) (pos 40)
              × (InvoiceStatus.overdue ≡ InvoiceStatus.overdue))))
invoice_status_iff_example = invoice_status_iff exact (pos 100) (pos 40) InvoiceStatus.overdue
