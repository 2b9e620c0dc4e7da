-- ===== src/Tests/Balance.antt =====
-- The journal of a sale on the small chart is balanced.
use project_task_cashbook_ba.Base.{◌≡◌, ◌⊎◌, refl, List, []}
use project_task_cashbook_ba.Base.Int.{ℤ, pos, ◌+ℤ◌, ◌-ℤ◌}
use project_task_cashbook_ba.Base.Result.{Result, ok, err}
use project_task_cashbook_ba.Decimal.Cents.{cents, exact}
use project_task_cashbook_ba.Finance.Money.{to_decimal}
use project_task_cashbook_ba.Ledger.{LedgerRef}
use project_task_cashbook_ba.Ledger.Rules.Entry.{
  build_entry_journal, build_income_legs, build_expense_legs,
}
use project_task_cashbook_ba.Ledger.Posting.{
  ResolvedDraft, resolve_draft, resolve_legs, deltas_from_lines, add_lines, add_line, bump_cashbook,
  bump_wallet, assert_balanced,
}
use project_task_cashbook_ba.Ledger.Posting.Resolver.{LedgerError, empty_journal}
use project_task_cashbook_ba.Ledger.Balance.{Event, event_journal}
use project_task_cashbook_ba.Ledger.Balance.Totals.{AllZero, event_balanced}
use project_task_cashbook_ba.Tests.Chart.{small_chart, index_of, ledger_ref_discrete}
use project_task_cashbook_ba.Tests.Ledger.{fresh, sale}

abbrev Resolved : Type 0
Resolved = List LedgerRef × ResolvedDraft ℤ

abbrev resolving : Result LedgerError Resolved
resolving = resolve_draft fresh.chart (build_entry_journal sale)

abbrev the_draft : Result LedgerError Resolved → Resolved
the_draft (ok r) = r
the_draft (err _) = (
  [],
  record {
    lines = [];
    total_debit = pos 0;
    total_credit = pos 0;
    cashbook_deltas = [];
    wallet_deltas = [];
  },
)

resolving-ok : resolving ≡ ok ((the_draft resolving).0, (the_draft resolving).1)
unfolding resolve_draft resolve_legs deltas_from_lines add_lines add_line bump_cashbook bump_wallet
    build_entry_journal build_income_legs build_expense_legs to_decimal index_of ledger_ref_discrete
    ◌+ℤ◌ ◌-ℤ◌
resolving-ok = refl

event_balanced_example :
    ((the_draft resolving).1.total_debit ≡ (the_draft resolving).1.total_credit)
    × ((assert_balanced (the_draft resolving).1 ≡ ok tt)
        ⊎ (AllZero (event_journal (Event.entry sale)).legs
            × (assert_balanced (the_draft resolving).1 ≡ err empty_journal)))
event_balanced_example =
    event_balanced exact fresh (Event.entry sale) (the_draft resolving).0 (the_draft resolving).1
      resolving-ok
