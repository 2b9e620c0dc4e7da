-- ===== src/Ledger/Period/History.antt =====
-- What closing and reopening periods keep, from a workspace without periods on.
use Prim.Native.String.{String}
use project_task_cashbook_ba.Base.{
  ℕ, ◌<◌, ◌≤◌, ◌≡◌, ◌≢◌, refl, sym, ◌∙◌, subst, Bool, true, false, ◌==◌, some, List, [], ◌∷◌, ◌++◌,
  All, All-imp, any, any-append, inl, inr, Bool-cases, Option-cases, arith,
}
use project_task_cashbook_ba.Base.Result.{ok, err, ok_eq}
use project_task_cashbook_ba.Ledger.Coa.Rows.{find}
use project_task_cashbook_ba.Ledger.Period.{
  FiscalPeriod, period_not_found, ClosePeriodDto, locks, meets, starts, fresh_period_id, update_row,
  dates, closed_period, close_period, is_row, reopened, reopen_period,
}
use project_task_cashbook_ba.Ledger.Period.Closing.{
  IsOrdered, in_range, any-update_row, closed_rows, close_period-ok, close_period-is_period_closed,
}
use project_task_cashbook_ba.Ledger.Period.Reopening.{IdsApart, LocksApart}

-- The rows of a workspace's periods: each ends no earlier than it starts, no two have the same id,
-- and no date is locked by two of them.
pub record IsSound (rows : List FiscalPeriod) : Type 0 where
  pub ordered : IsOrdered rows
  pub ids : IdsApart rows
  pub apart : LocksApart rows

-- A change that keeps ids keeps them apart.
update_row-Away :
    (test : FiscalPeriod → Bool) (change : FiscalPeriod → FiscalPeriod) (id : ℕ)
    (rows : List FiscalPeriod)
    → ((q : FiscalPeriod) → (change q).id ≡ q.id)
    → All (λ (q : FiscalPeriod). q.id ≢ id) rows
    → All (λ (q : FiscalPeriod). q.id ≢ id) (update_row test change rows)
unfolding update_row
update_row-Away test change id [] e h = tt
update_row-Away test change id (r ∷ rows) e (h, hs) = elim (Bool-cases (test r)) [
  | inl t ↦ rw t (λ same. h (sym (e r) ∙ same), hs)
  | inr t ↦ rw t (h, update_row-Away test change id rows e hs)
]

update_row-IdsApart :
    (test : FiscalPeriod → Bool) (change : FiscalPeriod → FiscalPeriod) (rows : List FiscalPeriod)
    → ((q : FiscalPeriod) → (change q).id ≡ q.id)
    → IdsApart rows
    → IdsApart (update_row test change rows)
unfolding update_row
update_row-IdsApart test change [] e h = tt
update_row-IdsApart test change (r ∷ rows) e (h, hs) = elim (Bool-cases (test r)) [
  | inl t ↦ rw t (subst (λ k. All (λ (q : FiscalPeriod). q.id ≢ k) rows) (sym (e r)) h, hs)
  | inr t ↦
      rw t (update_row-Away test change r.id rows e h, update_row-IdsApart test change rows e hs)
]

next_above :
    (r : FiscalPeriod) (rows : List FiscalPeriod)
    → (fresh_period_id rows ≤ fresh_period_id (r ∷ rows)) × (r.id < fresh_period_id (r ∷ rows))
unfolding fresh_period_id
next_above r rows = (ground arith, ground arith)

-- Every id is below the next one.
ids_below :
    (rows : List FiscalPeriod) → All (λ (q : FiscalPeriod). q.id < fresh_period_id rows) rows
ids_below [] = tt
ids_below (r ∷ rows) =
    let above = next_above r rows in
    (above.1, All-imp rows (λ q below. omega (arith, above)) (ids_below rows))

append-Away :
    (id : ℕ) (rows : List FiscalPeriod) (p : FiscalPeriod)
    → All (λ (q : FiscalPeriod). q.id ≢ id) rows
    → p.id ≢ id
    → All (λ (q : FiscalPeriod). q.id ≢ id) (rows ++ p ∷ [])
append-Away id [] p h away = (away, tt)
append-Away id (r ∷ rows) p (h, hs) away = (h, append-Away id rows p hs away)

append-IdsApart :
    (rows : List FiscalPeriod) (p : FiscalPeriod)
    → IdsApart rows
    → All (λ (q : FiscalPeriod). q.id < p.id) rows
    → IdsApart (rows ++ p ∷ [])
append-IdsApart [] p h below = (tt, tt)
append-IdsApart (r ∷ rows) p (h, hs) (b, bs) =
    (append-Away r.id rows p h (λ e. omega arith), append-IdsApart rows p hs bs)

-- No row locks a date of a range that no closed row meets.
unlocked :
    (workspace : ℕ) (dto : ClosePeriodDto) (w date : ℕ) (rows : List FiscalPeriod)
    → any (meets workspace dto.start_date dto.end_date) rows ≡ false
    → in_range workspace dto w date ≡ true
    → any (locks w date) rows ≡ false
unlocked workspace dto w date [] free h = refl
unlocked workspace dto w date (r ∷ rows) free h =
    let rest = unlocked workspace dto w date rows (ground arith) h in ground arith

append-LocksApart :
    (workspace : ℕ) (dto : ClosePeriodDto) (rows : List FiscalPeriod) (p : FiscalPeriod)
    → ((w date : ℕ) → locks w date p ≡ in_range workspace dto w date)
    → any (meets workspace dto.start_date dto.end_date) rows ≡ false
    → LocksApart rows
    → LocksApart (rows ++ p ∷ [])
append-LocksApart workspace dto [] p same free h = (λ w date e. refl, tt)
append-LocksApart workspace dto (r ∷ rows) p same free (h, hs) = (
  λ w date e.
      let range = same w date in
      let none_else = h w date e in
      let free_of = unlocked workspace dto w date (r ∷ rows) free in
      any-append (locks w date) rows (p ∷ []) ∙ ground arith,
  append-LocksApart workspace dto rows p same (ground arith) hs,
)

update_row-LocksApart :
    (workspace user now : ℕ) (dto : ClosePeriodDto) (rows : List FiscalPeriod) (p : FiscalPeriod)
    → dto.start_date ≤ dto.end_date
    → IsOrdered rows
    → any (meets workspace dto.start_date dto.end_date) rows ≡ false
    → find (starts workspace dto.start_date) rows ≡ some p
    → LocksApart rows
    → LocksApart (
        update_row
          (starts workspace dto.start_date)
          (λ q. closed_period workspace user now dto q.id)
          rows)
unfolding update_row find
update_row-LocksApart workspace user now dto [] p o order free e h = tt
update_row-LocksApart workspace user now dto (r ∷ rows) p o (order, orders) free e (h, hs) =
    elim (Bool-cases (starts workspace dto.start_date r)) [
      | inl s ↦
          rw s
            (λ w date locked. unlocked workspace dto w date rows (ground arith) (ground arith), hs)
      | inr s ↦
          let found : find (starts workspace dto.start_date) rows ≡ some p = rw s at e in
          rw s (
            λ w date locked.
                let none_else = h w date locked in
                let free_of = unlocked workspace dto w date (r ∷ rows) free in
                any-update_row workspace user now dto w date rows p o orders (ground arith) found
                ∙ ground arith,
            update_row-LocksApart workspace user now dto rows p o orders (ground arith) found hs,
          )
    ]

-- A reopening locks nothing.
reopened-unlocked :
    (id : ℕ) (reason : String) (w date : ℕ) (rows : List FiscalPeriod)
    → any (locks w date) rows ≡ false
    → any (locks w date) (update_row (λ q. q.id == id) (reopened reason) rows) ≡ false
unfolding update_row
reopened-unlocked id reason w date [] h = refl
reopened-unlocked id reason w date (r ∷ rows) h = elim (Bool-cases (r.id == id)) [
  | inl s ↦ rw s (ground arith)
  | inr s ↦ let rest = reopened-unlocked id reason w date rows (ground arith) in rw s (ground arith)
]

reopened-LocksApart :
    (id : ℕ) (reason : String) (rows : List FiscalPeriod)
    → LocksApart rows
    → LocksApart (update_row (λ q. q.id == id) (reopened reason) rows)
unfolding update_row
reopened-LocksApart id reason [] h = tt
reopened-LocksApart id reason (r ∷ rows) (h, hs) = elim (Bool-cases (r.id == id)) [
  | inl s ↦ rw s (λ w date locked. absurd (ground arith), hs)
  | inr s ↦ rw s (
    λ w date locked. reopened-unlocked id reason w date rows (h w date locked),
    reopened-LocksApart id reason rows hs,
  )
]

reopened-IsOrdered :
    (id : ℕ) (reason : String) (rows : List FiscalPeriod)
    → IsOrdered rows
    → IsOrdered (update_row (λ q. q.id == id) (reopened reason) rows)
unfolding update_row
reopened-IsOrdered id reason [] h = tt
reopened-IsOrdered id reason (r ∷ rows) (h, hs) = elim (Bool-cases (r.id == id)) [
  | inl s ↦ rw s (h, hs)
  | inr s ↦ rw s (h, reopened-IsOrdered id reason rows hs)
]

closed_rows-Apart :
    (workspace user now : ℕ) (dto : ClosePeriodDto) (rows : List FiscalPeriod)
    → dto.start_date ≤ dto.end_date
    → any (meets workspace dto.start_date dto.end_date) rows ≡ false
    → IsSound rows
    → IdsApart (closed_rows workspace user now dto rows)
      × LocksApart (closed_rows workspace user now dto rows)
closed_rows-Apart workspace user now dto rows o free v =
    elim (Option-cases (find (starts workspace dto.start_date) rows)) [
      | inl new ↦
          let p : FiscalPeriod = closed_period workspace user now dto (fresh_period_id rows) in
          rw (closed_rows, new)
            (
              append-IdsApart rows p v.ids (ids_below rows),
              append-LocksApart workspace dto rows p (λ w date. refl) free v.apart,
            )
      | inr (p, old) ↦
          rw (closed_rows, old)
            (
              update_row-IdsApart _ _ rows (λ q. refl) v.ids,
              update_row-LocksApart workspace user now dto rows p o v.ordered free old v.apart,
            )
    ]

-- Closing a period, and reopening one.
pub data Step (rows : List FiscalPeriod) (rows' : List FiscalPeriod) : Type 0 where
  closes :
      (workspace user now : ℕ) (dto : ClosePeriodDto)
      → close_period workspace user now dto rows ≡ ok rows'
      → Step rows rows'
  reopens :
      (workspace id : ℕ) (reason : String)
      → reopen_period workspace id reason rows ≡ ok rows'
      → Step rows rows'

-- The rows that such steps lead to when there are none at first.
pub data History : List FiscalPeriod → Type 0 where
  no_periods : History []
  next : {rows rows' : List FiscalPeriod} → History rows → Step rows rows' → History rows'

Step-IsSound : (rows rows' : List FiscalPeriod) → Step rows rows' → IsSound rows → IsSound rows'
unfolding reopen_period
Step-IsSound rows rows' (closes workspace user now dto e) v =
    let (o, free, same) = close_period-ok workspace user now dto rows rows' e in
    let (ids, apart) = closed_rows-Apart workspace user now (dates dto) rows o free v in
    record {
      ordered = (close_period-is_period_closed workspace user now dto rows rows' v.ordered e).0;
      ids = subst IdsApart same ids;
      apart = subst LocksApart same apart;
    }
Step-IsSound rows rows' (reopens workspace id reason e) v =
    elim (Option-cases (find (is_row workspace id) rows)) [
      | inl gone ↦
          let failed : err period_not_found ≡ ok rows' = rw (gone, reopen_period) at e in cc
      | inr (p, there) ↦
          let same : update_row (λ q. q.id == id) (reopened reason) rows ≡ rows' =
            ok_eq _ _ (rw (there, reopen_period) at e) in
          subst IsSound same (record {
            ordered = reopened-IsOrdered id reason rows v.ordered;
            ids = update_row-IdsApart _ _ rows (λ q. refl) v.ids;
            apart = reopened-LocksApart id reason rows v.apart;
          })
    ]

-- Whatever periods are closed and reopened, in any workspaces, from no periods on: each period ends
-- no earlier than it starts, no two have the same id, and no date of a workspace is closed by two
-- of them.
pub History-IsSound : (rows : List FiscalPeriod) → History rows → IsSound rows
History-IsSound rows no_periods = record { ordered = tt; ids = tt; apart = tt }
History-IsSound rows' (next {rows} h step) = Step-IsSound rows rows' step (History-IsSound rows h)
