-- ===== src/Tests/Replay.antt =====
-- Posting and reversing twice.
use native.Mathlib.Decide.{ℕ_discrete}
use project_task_cashbook_ba.Base.{◌≡◌, refl, true, false, Option, none, some}
use project_task_cashbook_ba.Base.Int.{ℤ, ◌+ℤ◌, ◌-ℤ◌}
use project_task_cashbook_ba.Base.Result.{ok, err}
use project_task_cashbook_ba.Decimal.Cents.{cents}
use project_task_cashbook_ba.Finance.Money.{to_decimal}
use project_task_cashbook_ba.Ledger.{PostedJournal}
use project_task_cashbook_ba.Ledger.Rules.Entry.{
  build_entry_journal, build_income_legs, build_expense_legs,
}
use project_task_cashbook_ba.Ledger.Posting.{
  OnDuplicate, post, post_new, reverse, reverse_new, repost, apply_cache_deltas,
  apply_cashbook_deltas, apply_wallet_deltas, resolve_draft, resolve_legs, deltas_from_lines,
  add_lines, add_line, bump_cashbook, bump_wallet, assert_balanced, same_key, posting_key_discrete,
}
use project_task_cashbook_ba.Ledger.Posting.Resolver.{posting_key_conflict}
use project_task_cashbook_ba.Ledger.Replay.{post_again}
use project_task_cashbook_ba.Ledger.Replay.Reversal.{second_call, reverse_again}
use project_task_cashbook_ba.Tests.Chart.{small_chart, index_of, ledger_ref_discrete}
use project_task_cashbook_ba.Tests.Ledger.{
  fresh, sale, posting, posted, posting-ok, the_summary, nothing_posted, cancellation, reversing,
  reversed,
}

post_again_example :
    (post posted (build_entry_journal sale) OnDuplicate.return_existing true
      ≡ ok (posted, record (the_summary nothing_posted posting) { replayed = true }))
    × (post posted (build_entry_journal sale) OnDuplicate.throw true ≡ err posting_key_conflict)
post_again_example =
    post_again fresh (build_entry_journal sale) OnDuplicate.throw true true posted
      (the_summary nothing_posted posting) posting-ok

abbrev or_nothing : Option (PostedJournal ℤ) → PostedJournal ℤ
or_nothing (some p) = p
or_nothing none = nothing_posted

reversing-some : reversing ≡ ok (reversed, some (or_nothing (the_summary none reversing)))
unfolding post reverse reverse_new same_key posting_key_discrete repost post_new apply_cache_deltas
    apply_cashbook_deltas apply_wallet_deltas resolve_draft resolve_legs deltas_from_lines add_lines
    add_line bump_cashbook bump_wallet assert_balanced build_entry_journal build_income_legs
    build_expense_legs to_decimal index_of ledger_ref_discrete ◌+ℤ◌ ◌-ℤ◌ ℕ_discrete
reversing-some = refl

reverse_again_example :
    reverse reversed (second_call cancellation false)
    ≡ ok (reversed, some (record (or_nothing (the_summary none reversing)) { replayed = true }))
reverse_again_example =
    reverse_again posted cancellation false reversed (or_nothing (the_summary none reversing))
      reversing-some
