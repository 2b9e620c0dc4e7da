-- ===== src/Tests/Offset.antt =====
-- A receivable, and its write-off, on the small chart.
use native.Mathlib.Decide.{ℕ_discrete}
use project_task_cashbook_ba.Base.{ℕ, ◌≡◌, refl, true, none}
use project_task_cashbook_ba.Base.Int.{ℤ, pos, ◌+ℤ◌, ◌-ℤ◌}
use project_task_cashbook_ba.Base.Result.{Result, ok}
use project_task_cashbook_ba.Decimal.Cents.{cents, exact}
use project_task_cashbook_ba.Finance.Money.{to_decimal}
use project_task_cashbook_ba.Ledger.{PostedJournal}
use project_task_cashbook_ba.Ledger.Rules.Entry.{ObligationType}
use project_task_cashbook_ba.Ledger.Rules.Obligation.{
  ObligationPostingInput, ObligationWriteOffInput, build_obligation_journal,
  build_obligation_write_off_journal,
}
use project_task_cashbook_ba.Ledger.Posting.{
  CashbookField, OnDuplicate, post, post_new, apply_cache_deltas, apply_cashbook_deltas,
  apply_wallet_deltas, resolve_draft, resolve_legs, deltas_from_lines, add_lines, add_line,
  bump_cashbook, bump_wallet, assert_balanced,
}
use project_task_cashbook_ba.Ledger.Posting.Resolver.{LedgerError}
use project_task_cashbook_ba.Ledger.Identity.{pick}
use project_task_cashbook_ba.Ledger.Effect.Offset.{post_obligation_moves_nothing}
use project_task_cashbook_ba.Tests.Chart.{small_chart, stable, typed, index_of, ledger_ref_discrete}
use project_task_cashbook_ba.Tests.Ledger.{Small, fresh, the_state, the_summary, nothing_posted}

abbrev loan : ObligationPostingInput ℤ
loan = record {
  workspace_id = 7;
  cashbook_id = 3;
  obligation_id = 41;
  version = 1;
  type = ObligationType.receivable;
  total_amount = pos 500000;
  title = "Loan";
  entry_date = 100;
  currency = 0;
  created_by_id = 5;
  contact_id = none;
}

abbrev forgiven : ObligationWriteOffInput ℤ
forgiven = record {
  workspace_id = 7;
  cashbook_id = 3;
  obligation_id = 41;
  type = ObligationType.payable;
  outstanding_amount = pos 200000;
  title = "Loan";
  entry_date = 120;
  currency = 0;
  created_by_id = 5;
  contact_id = none;
  reason = "Settled in kind";
}

abbrev lending : Result LedgerError (Small × PostedJournal ℤ)
lending = post fresh (build_obligation_journal loan) OnDuplicate.throw true

lending-ok : lending ≡ ok (the_state lending, the_summary nothing_posted lending)
unfolding post post_new apply_cache_deltas apply_cashbook_deltas apply_wallet_deltas resolve_draft
    resolve_legs deltas_from_lines add_lines add_line bump_cashbook bump_wallet assert_balanced
    to_decimal index_of ledger_ref_discrete ◌+ℤ◌ ◌-ℤ◌ ℕ_discrete build_obligation_journal
    build_obligation_write_off_journal
lending-ok = refl

abbrev forgiving : Result LedgerError (Small × PostedJournal ℤ)
forgiving = post fresh (build_obligation_write_off_journal forgiven) OnDuplicate.throw true

forgiving-ok : forgiving ≡ ok (the_state forgiving, the_summary nothing_posted forgiving)
unfolding post post_new apply_cache_deltas apply_cashbook_deltas apply_wallet_deltas resolve_draft
    resolve_legs deltas_from_lines add_lines add_line bump_cashbook bump_wallet assert_balanced
    to_decimal index_of ledger_ref_discrete ◌+ℤ◌ ◌-ℤ◌ ℕ_discrete build_obligation_journal
    build_obligation_write_off_journal
forgiving-ok = refl

post_obligation_moves_nothing_example :
    ((f : CashbookField) (k : ℕ)
      → (pick f ((the_state lending).cashbooks k) ≡ pick f (fresh.cashbooks k))
        × (pick f ((the_state forgiving).cashbooks k) ≡ pick f (fresh.cashbooks k)))
    × ((k : ℕ)
        → ((the_state lending).wallets k ≡ fresh.wallets k)
          × ((the_state forgiving).wallets k ≡ fresh.wallets k))
post_obligation_moves_nothing_example =
    post_obligation_moves_nothing exact fresh loan forgiven (the_state lending)
      (the_state forgiving) (the_summary nothing_posted lending)
      (the_summary nothing_posted forgiving) stable typed lending-ok forgiving-ok
