-- ===== src/Tests/Period.antt =====
-- A year with a closed January, an open February, and another workspace's closed year.
use project_task_cashbook_ba.Base.{ℕ, ◌≡◌, refl, none, some, List, [], ◌∷◌, arith, ◌&&◌, ◌||◌, not}
use project_task_cashbook_ba.Base.Result.{ok, err}
use project_task_cashbook_ba.Ledger.Coa.Rows.{find}
use project_task_cashbook_ba.Ledger.Period.{
  FiscalPeriod, FiscalPeriodStatus, period_closed, overlapping_period, ClosePeriodDto, locks,
  assert_period_open, resolve_reversal_date, is_period_closed, dates, close_period, reopen_period,
  update_row, is_row, fresh_period_id,
}
use project_task_cashbook_ba.Ledger.Period.Closing.{
  IsOrdered, in_range, close_period-is_period_closed,
}
use project_task_cashbook_ba.Ledger.Period.Reopening.{
  IdsApart, LocksApart, reopen_period-is_period_closed,
}
use project_task_cashbook_ba.Ledger.Period.History.{
  IsSound, no_periods, next, closes, History-IsSound,
}

abbrev january : FiscalPeriod
january = record {
  id = 1;
  workspace_id = 7;
  start_date = 1;
  end_date = 31;
  status = FiscalPeriodStatus.closed;
  closed_by_id = some 3;
  closed_at = some 40;
  note = none;
}

abbrev february : FiscalPeriod
february = record {
  id = 2;
  workspace_id = 7;
  start_date = 32;
  end_date = 59;
  status = FiscalPeriodStatus.open_;
  closed_by_id = none;
  closed_at = none;
  note = none;
}

abbrev elsewhere : FiscalPeriod
elsewhere = record {
  id = 3;
  workspace_id = 8;
  start_date = 1;
  end_date = 365;
  status = FiscalPeriodStatus.closed;
  closed_by_id = some 4;
  closed_at = some 400;
  note = none;
}

abbrev rows : List FiscalPeriod
rows = january ∷ february ∷ elsewhere ∷ []

abbrev close_february : ClosePeriodDto
close_february = record { start_date = 2800000000; end_date = 5184000000; note = none }

abbrev closed_february : List FiscalPeriod
closed_february =
    january
    ∷ record february {
      end_date = 60;
      status = FiscalPeriodStatus.closed;
      closed_by_id = some 3;
      closed_at = some 70;
    }
    ∷ elsewhere
    ∷ []

close_again :
    close_period 7 3 70
      (record { start_date = 2678400000; end_date = 5184000000; note = none })
      rows
    ≡ err overlapping_period
unfolding close_period find
close_again = refl

-- An original of January is reversed today, and refused while today is closed too.
reversed_today :
    (resolve_reversal_date rows 7 80 12 ≡ 80)
    × (resolve_reversal_date rows 7 80 40 ≡ 40)
    × (assert_period_open rows 7 80 ≡ ok tt)
    × (assert_period_open rows 7 12 ≡ err period_closed)
unfolding resolve_reversal_date assert_period_open find
reversed_today = (refl, refl, refl, refl)

rows-IsOrdered : IsOrdered rows
rows-IsOrdered = (omega arith, (omega arith, (omega arith, tt)))

rows-IdsApart : IdsApart rows
rows-IdsApart = ((λ e. omega arith, (λ e. omega arith, tt)), ((λ e. omega arith, tt), (tt, tt)))

rows-LocksApart : LocksApart rows
rows-LocksApart = (λ w date e. ground arith, (λ w date e. ground arith, (λ w date e. refl, tt)))

closes_february : close_period 7 3 70 close_february rows ≡ ok closed_february
unfolding close_period find update_row
closes_february = refl

close_period-is_period_closed_example :
    IsOrdered closed_february
    × ((w date : ℕ)
        → is_period_closed closed_february w date
          ≡ (is_period_closed rows w date || in_range 7 (dates close_february) w date))
close_period-is_period_closed_example =
    close_period-is_period_closed 7 3 70 close_february rows closed_february rows-IsOrdered
      closes_february

finds : find (is_row 7 1) rows ≡ some january
unfolding find
finds = refl

reopen_period-is_period_closed_example :
    (rows' : List FiscalPeriod) × (reopen_period 7 1 "late invoice" rows ≡ ok rows')
    × ((w date : ℕ)
        → is_period_closed rows' w date
          ≡ is_period_closed rows w date && not (locks w date january))
reopen_period-is_period_closed_example =
    reopen_period-is_period_closed 7 1 "late invoice" rows january rows-IdsApart rows-LocksApart
      finds

abbrev first_close : List FiscalPeriod
first_close =
    record february {
      id = 1;
      end_date = 60;
      status = FiscalPeriodStatus.closed;
      closed_by_id = some 3;
      closed_at = some 70;
    }
    ∷ []

closes_first : close_period 7 3 70 close_february [] ≡ ok first_close
unfolding close_period find fresh_period_id
closes_first = refl

History-IsSound_example : IsSound first_close
History-IsSound_example =
    History-IsSound first_close (next no_periods (closes 7 3 70 close_february closes_first))
