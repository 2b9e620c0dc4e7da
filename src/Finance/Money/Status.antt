-- ===== src/Finance/Money/Status.antt =====
-- The statuses derived from amounts: `obligationStatusFromAmounts` and
-- `invoiceStatusFromOutstanding`.
use project_task_cashbook_ba.Base.{◌≡◌, refl, ◌⊎◌, ◌≢◌, ◌↔◌, ◌<◌, ◌+◌, Option, none, some, arith}
use project_task_cashbook_ba.Decimal.{Arithmetic, IsExact}
use project_task_cashbook_ba.Decimal.Laws.{up, down, Le, sub_parts, number_zero_parts}
use project_task_cashbook_ba.Finance.Money.{
  ObligationStatus, InvoiceStatus, zero_amount, obligation_status_from_amounts,
  invoice_status_from_outstanding, live_status, sent_status,
}

module _ {D : Type 0} ⦃d : Arithmetic D⦄ (x : IsExact D) where
  -- Strictly less, as values.
  abbrev pub Lt : D → D → Type 0
  Lt a b = up x a + down x b < up x b + down x a

  -- What an obligation that is not cancelled owes, told from its status.
  abbrev IsTold : D → D → ObligationStatus → Type 0
  IsTold total outstanding s =
      ((s ≡ ObligationStatus.paid) ↔ Le x outstanding zero_amount)
      × ((s ≡ ObligationStatus.open_) ↔ Le x total outstanding)
      × ((s ≡ ObligationStatus.partial) ↔ (Lt zero_amount outstanding × Lt outstanding total))

  live_status-IsTold :
      (total outstanding : D)
      → Lt zero_amount total
      → IsTold total outstanding (live_status total outstanding)
  unfolding live_status
  live_status-IsTold total outstanding h =
      let zero_parts = number_zero_parts x in
      let le_test = x.less_than_or_equal_to-units outstanding zero_amount in
      let eq_test = x.equals-units outstanding total in
      let gt_test = x.greater_than-units outstanding total in
      (
        (λ e. ground arith, λ p. ground arith),
        (λ e. ground arith, λ p. ground arith),
        (λ e. ground arith, λ p. ground arith),
      )

  -- An obligation that is not cancelled and owes a positive total is PAID exactly when nothing (or
  -- less) is outstanding, OPEN exactly when the whole total (or more) is, and PARTIAL exactly in
  -- between; a cancelled one stays CANCELLED.
  pub obligation_status_iff :
      (total outstanding : D) (current : Option ObligationStatus)
      → Lt zero_amount total
      → let s = obligation_status_from_amounts total outstanding current in
        (current ≡ some ObligationStatus.cancelled → s ≡ ObligationStatus.cancelled)
        × (current ≢ some ObligationStatus.cancelled
            → ((s ≡ ObligationStatus.paid) ↔ Le x outstanding zero_amount)
              × ((s ≡ ObligationStatus.open_) ↔ Le x total outstanding)
              × ((s ≡ ObligationStatus.partial)
                  ↔ (Lt zero_amount outstanding × Lt outstanding total)))
  unfolding obligation_status_from_amounts
  obligation_status_iff t o none h = (λ e. cc, λ _. live_status-IsTold t o h)
  obligation_status_iff t o (some ObligationStatus.cancelled) h =
      (λ e. refl, λ ne. absurd (ne refl))
  obligation_status_iff t o (some ObligationStatus.open_) h =
      (λ e. cc, λ _. live_status-IsTold t o h)
  obligation_status_iff t o (some ObligationStatus.partial) h =
      (λ e. cc, λ _. live_status-IsTold t o h)
  obligation_status_iff t o (some ObligationStatus.paid) h =
      (λ e. cc, λ _. live_status-IsTold t o h)

  sent_status_iff :
      (total outstanding : D) (previous : InvoiceStatus)
      → let s = sent_status total outstanding previous in
        ((s ≡ InvoiceStatus.paid) ↔ Le x outstanding zero_amount)
        × ((s ≡ InvoiceStatus.partially_paid) ↔ (Lt zero_amount outstanding × Lt outstanding total))
        × ((s ≡ InvoiceStatus.overdue) ↔ (
            Lt zero_amount outstanding
            × Le x total outstanding
            × (previous ≡ InvoiceStatus.overdue)))
  unfolding sent_status
  sent_status_iff t o previous =
      let zero_parts = number_zero_parts x in
      let le_test = x.less_than_or_equal_to-units o zero_amount in
      let gt_test = x.greater_than-units (d.sub t o) zero_amount in
      let difference = sub_parts x t o in
      (
        (λ e. ground arith, λ p. ground arith),
        (λ e. ground arith, λ p. ground arith),
        (λ e. ground arith, λ p. ground arith),
      )

  -- A sent invoice is PAID exactly when nothing (or less) is outstanding, and PARTIALLY_PAID exactly
  -- when something is and something has been paid; otherwise it is OVERDUE exactly if it was
  -- before. A DRAFT or VOID invoice keeps its status whatever the amounts are.
  pub invoice_status_iff :
      (total outstanding : D) (previous : InvoiceStatus)
      → let s = invoice_status_from_outstanding total outstanding previous in
        ((previous ≡ InvoiceStatus.draft) ⊎ (previous ≡ InvoiceStatus.void) → s ≡ previous)
        × (previous ≢ InvoiceStatus.draft
            → previous ≢ InvoiceStatus.void
            → ((s ≡ InvoiceStatus.paid) ↔ Le x outstanding zero_amount)
              × ((s ≡ InvoiceStatus.partially_paid)
                  ↔ (Lt zero_amount outstanding × Lt outstanding total))
              × ((s ≡ InvoiceStatus.overdue) ↔ (
                  Lt zero_amount outstanding
                  × Le x total outstanding
                  × (previous ≡ InvoiceStatus.overdue))))
  unfolding invoice_status_from_outstanding
  invoice_status_iff t o InvoiceStatus.draft = (λ _. refl, λ nd nv. absurd (nd refl))
  invoice_status_iff t o InvoiceStatus.void = (λ _. refl, λ nd nv. absurd (nv refl))
  invoice_status_iff t o previous = (λ e. ground arith, λ nd nv. sent_status_iff t o previous)
