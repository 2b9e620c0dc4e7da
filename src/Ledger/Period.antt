-- ===== src/Ledger/Period.antt =====
-- src/core/ledger/period.ts, with `closePeriod` and `reopenPeriod` of
-- src/modules/chart-of-accounts/chart-of-accounts.service.ts. A date of a row is its day's number,
-- as the columns are dates, and so is a date that the queries look for. What a request brings is an
-- instant in milliseconds. Audit rows are left out.
pub mod Closing
pub mod History
pub mod Reopening
use Prim.Native.String.{String}
use project_task_cashbook_ba.Base.{
  ℕ, ◌+◌, ◌/◌, Bool, true, false, ◌&&◌, ◌==◌, leb, ltb, Option, none, some, List, [], ◌∷◌, ◌++◌,
  if◌then◌else◌,
}
use project_task_cashbook_ba.Base.Result.{Result, ok, err}
use project_task_cashbook_ba.Ledger.Coa.Rows.{find}

pub data FiscalPeriodStatus : Type 0 where
  open_ closed : FiscalPeriodStatus

pub record FiscalPeriod : Type 0 where
  pub id : ℕ
  pub workspace_id : ℕ
  pub start_date : ℕ
  pub end_date : ℕ
  pub status : FiscalPeriodStatus
  pub closed_by_id : Option ℕ
  pub closed_at : Option ℕ
  pub note : Option String

pub data PeriodError : Type 0 where
  period_closed invalid_period overlapping_period period_not_found : PeriodError

abbrev pub is_closed : FiscalPeriodStatus → Bool
is_closed FiscalPeriodStatus.closed = true
is_closed FiscalPeriodStatus.open_ = false

-- A closed period of the workspace that holds the date, and one that meets a range.
abbrev pub locks : ℕ → ℕ → FiscalPeriod → Bool
locks workspace date p =
    p.workspace_id == workspace
    && (is_closed p.status && (leb p.start_date date && leb date p.end_date))

abbrev pub meets : ℕ → ℕ → ℕ → FiscalPeriod → Bool
meets workspace start end p =
    p.workspace_id == workspace
    && (is_closed p.status && (leb p.start_date end && leb start p.end_date))

abbrev pub found {ℓ} : {A : Type ℓ} → Option A → Bool
found (some _) = true
found none = false

unfoldable pub assert_period_open : List FiscalPeriod → ℕ → ℕ → Result PeriodError (Unit {0})
unfolding find
assert_period_open rows workspace entry_date =
    if found (find (locks workspace entry_date) rows) then err period_closed else ok tt

unfoldable pub resolve_reversal_date : List FiscalPeriod → ℕ → ℕ → ℕ → ℕ
unfolding find
resolve_reversal_date rows workspace today original_date =
    if found (find (locks workspace original_date) rows) then today else original_date

unfoldable pub is_period_closed : List FiscalPeriod → ℕ → ℕ → Bool
unfolding find
is_period_closed rows workspace date = found (find (locks workspace date) rows)

-- The unique key `workspaceId_startDate`.
abbrev pub starts : ℕ → ℕ → FiscalPeriod → Bool
starts workspace start p = p.workspace_id == workspace && p.start_date == start

unfoldable pub fresh_period_id : List FiscalPeriod → ℕ
fresh_period_id [] = 1
fresh_period_id (p ∷ ps) = let rest = fresh_period_id ps in if ltb p.id rest then rest else p.id + 1

-- The row that passes a test, changed.
unfoldable pub update_row :
    (FiscalPeriod → Bool) → (FiscalPeriod → FiscalPeriod) → List FiscalPeriod → List FiscalPeriod
update_row test change [] = []
update_row test change (p ∷ ps) =
    let rest = update_row test change ps in if test p then change p ∷ ps else p ∷ rest

pub record ClosePeriodDto : Type 0 where
  pub start_date : ℕ
  pub end_date : ℕ
  pub note : Option String

-- What the date columns keep of the instants.
abbrev pub dates : ClosePeriodDto → ClosePeriodDto
dates dto = record dto {
  start_date = dto.start_date / 86400000;
  end_date = dto.end_date / 86400000;
}

abbrev pub closed_period : ℕ → ℕ → ℕ → ClosePeriodDto → ℕ → FiscalPeriod
closed_period workspace user now dto id = record {
  id = id;
  workspace_id = workspace;
  start_date = dto.start_date;
  end_date = dto.end_date;
  status = FiscalPeriodStatus.closed;
  closed_by_id = some user;
  closed_at = some now;
  note = dto.note;
}

unfoldable pub close_period :
    ℕ → ℕ → ℕ → ClosePeriodDto → List FiscalPeriod → Result PeriodError (List FiscalPeriod)
unfolding find
close_period workspace user now dto rows =
    let kept = dates dto in
    if ltb dto.end_date dto.start_date
    then err invalid_period
    else if found (find (meets workspace kept.start_date kept.end_date) rows)
    then err overlapping_period
    else ok (elim (find (starts workspace kept.start_date) rows) [
      | some p ↦
          update_row (starts workspace kept.start_date)
            (λ q. closed_period workspace user now kept q.id) rows
      | none ↦ rows ++ closed_period workspace user now kept (fresh_period_id rows) ∷ []
    ])

abbrev pub is_row : ℕ → ℕ → FiscalPeriod → Bool
is_row workspace id p = p.id == id && p.workspace_id == workspace

abbrev pub reopened : String → FiscalPeriod → FiscalPeriod
reopened reason p = record p {
  status = FiscalPeriodStatus.open_;
  closed_by_id = none;
  closed_at = none;
  note = some reason;
}

unfoldable pub reopen_period :
    ℕ → ℕ → String → List FiscalPeriod → Result PeriodError (List FiscalPeriod)
unfolding find
reopen_period workspace id reason rows = elim (find (is_row workspace id) rows) [
  | some _ ↦ ok (update_row (λ p. p.id == id) (reopened reason) rows)
  | none ↦ err period_not_found
]
