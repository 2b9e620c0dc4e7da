-- ===== src/Ledger/Period/Reopening.antt =====
-- Which dates a reopened period gives back.
use Prim.Native.String.{String}
use project_task_cashbook_ba.Base.{
  ℕ, ◌≡◌, ◌≢◌, refl, sym, ◌∙◌, subst, Bool, true, false, not, ◌&&◌, ◌||◌, ◌==◌, none, some, List,
  [], ◌∷◌, All, All-imp, any, inl, inr, Bool-cases, arith,
}
use project_task_cashbook_ba.Base.Result.{ok}
use project_task_cashbook_ba.Ledger.Coa.Rows.{find}
use project_task_cashbook_ba.Ledger.Period.{
  FiscalPeriod, locks, is_period_closed, update_row, is_row, reopened, reopen_period,
}
use project_task_cashbook_ba.Ledger.Period.Closing.{is_period_closed-any}

-- No two rows have the same id.
abbrev pub IdsApart : List FiscalPeriod → Type 0
IdsApart [] = Unit
IdsApart (p ∷ ps) = All (λ (q : FiscalPeriod). q.id ≢ p.id) ps × IdsApart ps

find-Absent :
    (workspace id : ℕ) (rows : List FiscalPeriod)
    → All (λ (q : FiscalPeriod). q.id ≢ id) rows
    → find (is_row workspace id) rows ≡ none
unfolding find
find-Absent workspace id [] h = refl
find-Absent workspace id (r ∷ rows) (h, hs) = elim (Bool-cases (is_row workspace id r)) [
  | inl e ↦ ground arith
  | inr e ↦ rw e (find-Absent workspace id rows hs)
]

-- No date is locked by two rows.
abbrev pub LocksApart : List FiscalPeriod → Type 0
LocksApart [] = Unit
LocksApart (p ∷ ps) =
    ((w date : ℕ) → locks w date p ≡ true → any (locks w date) ps ≡ false) × LocksApart ps

-- A row that is found locks what it locks.
any-find :
    (test q : FiscalPeriod → Bool) (rows : List FiscalPeriod) (p : FiscalPeriod)
    → find test rows ≡ some p
    → q p ≡ true
    → any q rows ≡ true
unfolding find
any-find test q [] p e h = cc
any-find test q (r ∷ rows) p e h = elim (Bool-cases (test r)) [
  | inl t ↦
      let same : some r ≡ some p = rw t at e in
      let row : r ≡ p = cc in
      let locked : q r ≡ true = subst (λ k. q k ≡ true) (sym row) h in ground arith
  | inr t ↦ let rest = any-find test q rows p (rw t at e) h in ground arith
]

given_back : (k a b : Bool) → (a ≡ true → b ≡ false) → (k && false) || b ≡ (a || b) && not a
given_back k a b h = ground arith

kept_locked :
    (a b c : Bool)
    → (a ≡ true → b ≡ false)
    → (c ≡ true → b ≡ true)
    → a || (b && not c) ≡ (a || b) && not c
kept_locked a b c h k = ground arith

any-reopened :
    (workspace id : ℕ) (reason : String) (w date : ℕ) (rows : List FiscalPeriod) (p : FiscalPeriod)
    → IdsApart rows
    → LocksApart rows
    → find (is_row workspace id) rows ≡ some p
    → any (locks w date) (update_row (λ q. q.id == id) (reopened reason) rows)
      ≡ any (locks w date) rows && not (locks w date p)
unfolding update_row find
any-reopened workspace id reason w date [] p h l e = cc
any-reopened workspace id reason w date (r ∷ rows) p (h, hs) (l, ls) e =
    elim (Bool-cases (r.id == id)) [
      | inl s ↦ elim (Bool-cases (r.workspace_id == workspace)) [
        | inl t ↦
            let same : some r ≡ some p = rw (s, t) at e in
            let row : r ≡ p = cc in
            rw (s, sym row)
              (given_back (r.workspace_id == w) (locks w date r) (any (locks w date) rows)
                (l w date))
        | inr t ↦
            let gone : find (is_row workspace id) rows ≡ some p = rw (s, t) at e in
            let ids : r.id ≡ id = ground arith in
            let absent : find (is_row workspace id) rows ≡ none =
              find-Absent workspace id rows
                (All-imp rows (λ q away same. away (same ∙ sym ids)) h) in
            let failed : none ≡ some p = sym absent ∙ gone in cc
      ]
      | inr s ↦
          let found : find (is_row workspace id) rows ≡ some p = rw s at e in
          rw (s, any-reopened workspace id reason w date rows p hs ls found)
            (kept_locked (locks w date r) (any (locks w date) rows) (locks w date p) (l w date)
              (any-find (is_row workspace id) (locks w date) rows p found))
    ]

-- Where no two rows have the same id and no date is locked by two rows, reopening a period that is
-- found in the workspace is accepted, and the dates that are closed afterwards are, in every
-- workspace, those that were closed before except the dates that the period closed.
pub reopen_period-is_period_closed :
    (workspace id : ℕ) (reason : String) (rows : List FiscalPeriod) (p : FiscalPeriod)
    → IdsApart rows
    → LocksApart rows
    → find (is_row workspace id) rows ≡ some p
    → (rows' : List FiscalPeriod) × (reopen_period workspace id reason rows ≡ ok rows')
      × ((w date : ℕ)
          → is_period_closed rows' w date ≡ is_period_closed rows w date && not (locks w date p))
unfolding reopen_period
reopen_period-is_period_closed workspace id reason rows p h l e =
    let rows' : List FiscalPeriod = update_row (λ q. q.id == id) (reopened reason) rows in
    (
      rows',
      rw (e, reopen_period) refl,
      λ w date.
          rw (is_period_closed-any rows' w date, is_period_closed-any rows w date)
            (any-reopened workspace id reason w date rows p h l e),
    )
