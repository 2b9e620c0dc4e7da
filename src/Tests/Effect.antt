-- ===== src/Tests/Effect.antt =====
-- What posting moved, on the small chart.
use native.Mathlib.Decide.{ℕ_discrete}
use project_task_cashbook_ba.Base.{ℕ, ◌≡◌, refl, ◌==◌, true, none, some, if◌then◌else◌}
use project_task_cashbook_ba.Base.Int.{ℤ, pos, ◌+ℤ◌, ◌-ℤ◌}
use project_task_cashbook_ba.Base.Result.{Result, ok}
use project_task_cashbook_ba.Decimal.Cents.{cents, exact}
use project_task_cashbook_ba.Finance.Money.{MoneyType, to_decimal, wallet_balance_delta}
use project_task_cashbook_ba.Ledger.{PostedJournal}
use project_task_cashbook_ba.Ledger.Rules.Wallet.{
  DirectWalletPostingInput, TransferPostingInput, build_direct_wallet_journal,
  build_transfer_journal,
}
use project_task_cashbook_ba.Ledger.Posting.{
  CashbookField, OnDuplicate, post, post_new, apply_cache_deltas, apply_cashbook_deltas,
  apply_wallet_deltas, resolve_draft, resolve_legs, deltas_from_lines, add_lines, add_line,
  bump_cashbook, bump_wallet, assert_balanced,
}
use project_task_cashbook_ba.Ledger.Posting.Resolver.{LedgerError}
use project_task_cashbook_ba.Ledger.Identity.{pick}
use project_task_cashbook_ba.Ledger.Effect.Wallet.{post_direct_moves, post_transfer_moves}
use project_task_cashbook_ba.Tests.Chart.{small_chart, stable, typed, index_of, ledger_ref_discrete}
use project_task_cashbook_ba.Tests.Ledger.{Small, fresh, the_state, the_summary, nothing_posted}

-- 20 and a fee of 0.25 from wallet 4 to wallet 9.
abbrev sending : TransferPostingInput ℤ
sending = record {
  workspace_id = 7;
  transfer_id = 21;
  from_account_id = 4;
  to_account_id = 9;
  amount = pos 200000;
  fee_amount = some (pos 2500);
  description = "Move";
  transferred_at = 100;
  currency = 0;
  created_by_id = 5;
}

abbrev transferring : Result LedgerError (Small × PostedJournal ℤ)
transferring = post fresh (build_transfer_journal sending) OnDuplicate.throw true

abbrev sent : Small
sent = the_state transferring

transferring-ok : transferring ≡ ok (sent, the_summary nothing_posted transferring)
unfolding post post_new apply_cache_deltas apply_cashbook_deltas apply_wallet_deltas resolve_draft
    resolve_legs deltas_from_lines add_lines add_line bump_cashbook bump_wallet assert_balanced
    to_decimal index_of ledger_ref_discrete ◌+ℤ◌ ◌-ℤ◌ ℕ_discrete build_transfer_journal
transferring-ok = refl

post_transfer_moves_example :
    ((f : CashbookField) (k : ℕ) → pick f (sent.cashbooks k) ≡ pick f (fresh.cashbooks k))
    × ((k : ℕ)
        → sent.wallets k
          ≡ (fresh.wallets k +ℤ (if 9 == k then pos 200000 else pos 0))
            -ℤ (if 4 == k then pos 200000 +ℤ to_decimal (some (pos 2500)) else pos 0))
post_transfer_moves_example =
    post_transfer_moves exact fresh sending sent (the_summary nothing_posted transferring) stable
      typed transferring-ok

-- Bank charges of 3 out of wallet 4.
abbrev charging : DirectWalletPostingInput ℤ
charging = record {
  workspace_id = 7;
  account_id = 4;
  transaction_id = 31;
  version = 1;
  type = MoneyType.expense;
  amount = pos 30000;
  charge_amount = none;
  description = "Bank charges";
  transaction_date = 100;
  currency = 0;
  created_by_id = 5;
}

abbrev paying : Result LedgerError (Small × PostedJournal ℤ)
paying = post fresh (build_direct_wallet_journal charging) OnDuplicate.throw true

abbrev paid : Small
paid = the_state paying

paying-ok : paying ≡ ok (paid, the_summary nothing_posted paying)
unfolding post post_new apply_cache_deltas apply_cashbook_deltas apply_wallet_deltas resolve_draft
    resolve_legs deltas_from_lines add_lines add_line bump_cashbook bump_wallet assert_balanced
    to_decimal index_of ledger_ref_discrete ◌+ℤ◌ ◌-ℤ◌ ℕ_discrete build_direct_wallet_journal
paying-ok = refl

post_direct_moves_example :
    ((f : CashbookField) (k : ℕ) → pick f (paid.cashbooks k) ≡ pick f (fresh.cashbooks k))
    × ((k : ℕ)
        → paid.wallets k
          ≡ fresh.wallets k
            +ℤ (if 4 == k then wallet_balance_delta MoneyType.expense (pos 30000) none else pos 0))
post_direct_moves_example =
    post_direct_moves exact fresh charging paid (the_summary nothing_posted paying) stable typed
      paying-ok
