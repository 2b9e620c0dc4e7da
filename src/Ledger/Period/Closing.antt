-- ===== src/Ledger/Period/Closing.antt =====
-- Which dates are locked.
use project_task_cashbook_ba.Base.{
  ℕ, ◌≤◌, ◌≡◌, refl, sym, ap, ◌∙◌, Bool, true, false, ◌&&◌, ◌||◌, ◌==◌, leb, ltb, none, some, List,
  [], ◌∷◌, ◌++◌, All, any, any-append, or_last, or_assoc, or_false, inl, inr, Bool-cases,
  Option-cases, arith,
}
use project_task_cashbook_ba.Base.Result.{ok, err, ok_eq}
use project_task_cashbook_ba.Ledger.Coa.Rows.{find}
use project_task_cashbook_ba.Ledger.Period.{
  FiscalPeriod, invalid_period, overlapping_period, ClosePeriodDto, is_closed, locks, meets, found,
  is_period_closed, starts, fresh_period_id, update_row, dates, closed_period, close_period,
}

found-find {ℓ} : {A : Type ℓ} (p : A → Bool) (xs : List A) → found (find p xs) ≡ any p xs
unfolding find
found-find p [] = refl
found-find p (x ∷ xs) = elim (Bool-cases (p x)) [
  | inl e ↦ rw e refl
  | inr e ↦ rw e (found-find p xs)
]

-- Periods end no earlier than they start.
abbrev pub IsOrdered : List FiscalPeriod → Type 0
IsOrdered = All (λ (p : FiscalPeriod). p.start_date ≤ p.end_date)

-- Dates of the workspace in the range.
abbrev pub in_range : ℕ → ClosePeriodDto → ℕ → ℕ → Bool
in_range workspace dto w date =
    workspace == w && (true && (leb dto.start_date date && leb date dto.end_date))

pub any-update_row :
    (workspace user now : ℕ) (dto : ClosePeriodDto) (w date : ℕ) (rows : List FiscalPeriod)
    (p : FiscalPeriod)
    → dto.start_date ≤ dto.end_date
    → IsOrdered rows
    → any (meets workspace dto.start_date dto.end_date) rows ≡ false
    → find (starts workspace dto.start_date) rows ≡ some p
    → any (locks w date) (
        update_row
          (starts workspace dto.start_date)
          (λ q. closed_period workspace user now dto q.id)
          rows)
      ≡ (any (locks w date) rows || in_range workspace dto w date)
unfolding update_row find
any-update_row workspace user now dto w date [] p o h free e = cc
any-update_row workspace user now dto w date (r ∷ rows) p o (h, hs) free e =
    elim (Bool-cases (starts workspace dto.start_date r)) [
      | inl s ↦
          let open_row : is_closed r.status ≡ false = ground arith in
          rw (s, open_row)
            (or_last (locks w date (closed_period workspace user now dto r.id))
              (any (locks w date) rows) (r.workspace_id == w))
      | inr s ↦
          let rest =
            any-update_row workspace user now dto w date rows p o hs (ground arith) (rw s at e) in
          rw (s, rest)
            (or_assoc (locks w date r) (any (locks w date) rows) (in_range workspace dto w date))
    ]

update_row-IsOrdered :
    (workspace user now : ℕ) (dto : ClosePeriodDto) (test : FiscalPeriod → Bool)
    (rows : List FiscalPeriod)
    → dto.start_date ≤ dto.end_date
    → IsOrdered rows
    → IsOrdered (update_row test (λ q. closed_period workspace user now dto q.id) rows)
unfolding update_row
update_row-IsOrdered workspace user now dto test [] o h = tt
update_row-IsOrdered workspace user now dto test (r ∷ rows) o (h, hs) = elim (Bool-cases (test r)) [
  | inl e ↦ rw e (o, hs)
  | inr e ↦ rw e (h, update_row-IsOrdered workspace user now dto test rows o hs)
]

append-IsOrdered :
    (rows : List FiscalPeriod) (p : FiscalPeriod)
    → IsOrdered rows
    → p.start_date ≤ p.end_date
    → IsOrdered (rows ++ p ∷ [])
append-IsOrdered [] p h o = (o, tt)
append-IsOrdered (r ∷ rows) p (h, hs) o = (h, append-IsOrdered rows p hs o)

dates-Le :
    (dto : ClosePeriodDto)
    → ltb dto.end_date dto.start_date ≡ false
    → (dates dto).start_date ≤ (dates dto).end_date
dates-Le dto h = let earlier : dto.start_date ≤ dto.end_date = ground arith in omega arith

pub is_period_closed-any :
    (rows : List FiscalPeriod) (w date : ℕ) → is_period_closed rows w date ≡ any (locks w date) rows
unfolding is_period_closed
is_period_closed-any rows w date = found-find (locks w date) rows

-- The rows after a close of a range that meets no closed row.
abbrev pub closed_rows : ℕ → ℕ → ℕ → ClosePeriodDto → List FiscalPeriod → List FiscalPeriod
closed_rows workspace user now dto rows = elim (find (starts workspace dto.start_date) rows) [
  | some p ↦
      update_row (starts workspace dto.start_date) (λ q. closed_period workspace user now dto q.id)
        rows
  | none ↦ rows ++ closed_period workspace user now dto (fresh_period_id rows) ∷ []
]

closing :
    (workspace user now : ℕ) (dto : ClosePeriodDto) (rows rows' : List FiscalPeriod)
    → IsOrdered rows
    → dto.start_date ≤ dto.end_date
    → any (meets workspace dto.start_date dto.end_date) rows ≡ false
    → closed_rows workspace user now dto rows ≡ rows'
    → IsOrdered rows'
      × ((w date : ℕ)
          → any (locks w date) rows' ≡ (any (locks w date) rows || in_range workspace dto w date))
closing workspace user now dto rows rows' h o free e =
    elim (Option-cases (find (starts workspace dto.start_date) rows)) [
      | inl new ↦
          let p : FiscalPeriod = closed_period workspace user now dto (fresh_period_id rows) in
          let same : rows ++ p ∷ [] ≡ rows' = rw (new, closed_rows) at e in
          rw (sym same) (
            append-IsOrdered rows p h o,
            λ w date.
                any-append (locks w date) rows (p ∷ [])
                ∙ ap (λ b. any (locks w date) rows || b) (or_false (locks w date p)),
          )
      | inr (p, old) ↦
          let same : update_row (starts workspace dto.start_date)
                (λ q. closed_period workspace user now dto q.id) rows
              ≡ rows' =
            rw (old, closed_rows) at e in
          rw (sym same) (
            update_row-IsOrdered workspace user now dto (starts workspace dto.start_date) rows o h,
            λ w date. any-update_row workspace user now dto w date rows p o h free old,
          )
    ]

-- A close that is accepted is of a range in order that meets no closed row.
pub close_period-ok :
    (workspace user now : ℕ) (dto : ClosePeriodDto) (rows rows' : List FiscalPeriod)
    → close_period workspace user now dto rows ≡ ok rows'
    → ((dates dto).start_date ≤ (dates dto).end_date)
      × (any (meets workspace (dates dto).start_date (dates dto).end_date) rows ≡ false)
      × (closed_rows workspace user now (dates dto) rows ≡ rows')
unfolding close_period
close_period-ok workspace user now dto rows rows' e =
    let meeting : FiscalPeriod → Bool =
      meets workspace (dates dto).start_date (dates dto).end_date in
    elim (Bool-cases (ltb dto.end_date dto.start_date)) [
      | inl bad ↦ let failed : err invalid_period ≡ ok rows' = rw bad at e in cc
      | inr good ↦ elim (Bool-cases (found (find meeting rows))) [
        | inl over ↦ let failed : err overlapping_period ≡ ok rows' = rw (good, over) at e in cc
        | inr free ↦ (
          dates-Le dto good,
          sym (found-find meeting rows) ∙ free,
          ok_eq _ _ (rw (good, free) at e),
        )
      ]
    ]

-- Where every period ends no earlier than it starts, a close that is accepted keeps that so, and the
-- dates that are closed afterwards are, in every workspace, those closed before and, in this
-- workspace, those from the day of the first instant asked for to the day of the last.
pub close_period-is_period_closed :
    (workspace user now : ℕ) (dto : ClosePeriodDto) (rows rows' : List FiscalPeriod)
    → IsOrdered rows
    → close_period workspace user now dto rows ≡ ok rows'
    → IsOrdered rows'
      × ((w date : ℕ)
          → is_period_closed rows' w date
            ≡ (is_period_closed rows w date || in_range workspace (dates dto) w date))
close_period-is_period_closed workspace user now dto rows rows' h e =
    let (o, free, same) = close_period-ok workspace user now dto rows rows' e in
    let after = closing workspace user now (dates dto) rows rows' h o free same in
    (
      after.0,
      λ w date.
          rw (is_period_closed-any rows' w date, is_period_closed-any rows w date) (after.1 w date),
    )
