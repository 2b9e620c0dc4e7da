-- ===== src/Tests/Ledger.antt =====
-- Posting on the small chart.
use native.Mathlib.Decide.{ℕ_discrete}
use project_task_cashbook_ba.Base.{◌≡◌, refl, true, false, Option, none, some, List, []}
use project_task_cashbook_ba.Base.Int.{ℤ, pos, ◌+ℤ◌, ◌-ℤ◌}
use project_task_cashbook_ba.Base.Result.{Result, ok, err}
use project_task_cashbook_ba.Decimal.Cents.{cents, exact}
use project_task_cashbook_ba.Finance.Money.{MoneyType, to_decimal}
use project_task_cashbook_ba.Ledger.{LedgerRef, PostedJournal, PostingKey}
use project_task_cashbook_ba.Ledger.Rules.Entry.{
  EntryPostingInput, build_entry_journal, build_income_legs, build_expense_legs,
}
use project_task_cashbook_ba.Ledger.Posting.{
  CashbookField, Db, OnDuplicate, ReverseArgs, post, post_new, reverse, reverse_new, repost,
  apply_cache_deltas, apply_cashbook_deltas, apply_wallet_deltas, resolve_draft, resolve_legs,
  deltas_from_lines, add_lines, add_line, bump_cashbook, bump_wallet, assert_balanced, same_key,
  posting_key_discrete, no_caches,
}
use project_task_cashbook_ba.Ledger.Posting.Resolver.{LedgerError}
use project_task_cashbook_ba.Ledger.Identity.{pick}
use project_task_cashbook_ba.Ledger.Identity.Applied.{IsConsistent}
use project_task_cashbook_ba.Ledger.Identity.Preserved.{
  post-IsConsistent, reverse-IsConsistent, repost-IsConsistent,
}
use project_task_cashbook_ba.Tests.Chart.{small_chart, stable, index_of, ledger_ref_discrete}

abbrev pub Small : Type 0
Small = Db (List LedgerRef) ℤ

abbrev pub fresh : Small
fresh = record {
  chart = [];
  next_id = 1;
  journals = [];
  cashbooks = λ _. no_caches;
  wallets = λ _. pos 0;
}

no_money : (f : CashbookField) → pick f (no_caches {D = ℤ}) ≡ pos 0
no_money CashbookField.balance = refl
no_money _ = refl

abbrev fresh-IsConsistent : IsConsistent fresh
fresh-IsConsistent = record { known = tt; books = λ f k. no_money f; wallets = λ k. refl }

-- An income entry of 100 with a fee of 1.50, paid into the book's cash.
abbrev pub sale : EntryPostingInput ℤ
sale = record {
  workspace_id = 7;
  cashbook_id = 3;
  entry_id = 11;
  version = 1;
  type = MoneyType.income;
  amount = pos 1000000;
  charge_amount = some (pos 15000);
  description = "Sale";
  entry_date = 100;
  currency = 0;
  created_by_id = 5;
  account_id = none;
  category_id = none;
  contact_id = none;
  obligation = none;
}

abbrev pub posting : Result LedgerError (Small × PostedJournal ℤ)
posting = post fresh (build_entry_journal sale) OnDuplicate.throw true

abbrev pub the_state {ℓ} : {A : Type ℓ} → Result LedgerError (Small × A) → Small
the_state (ok (db, _)) = db
the_state (err _) = fresh

abbrev pub the_summary {ℓ} : {A : Type ℓ} → A → Result LedgerError (Small × A) → A
the_summary a (ok (_, b)) = b
the_summary a (err _) = a

abbrev pub nothing_posted : PostedJournal ℤ
nothing_posted = record {
  id = 0;
  posting_key = PostingKey.transfer 0;
  total_debit = pos 0;
  total_credit = pos 0;
  line_count = 0;
  replayed = false;
}

abbrev pub posted : Small
posted = the_state posting

balance-posted : (posted.cashbooks 3).balance ≡ pos 985000
unfolding post post_new apply_cache_deltas apply_cashbook_deltas apply_wallet_deltas resolve_draft
    resolve_legs deltas_from_lines add_lines add_line bump_cashbook bump_wallet assert_balanced
    build_entry_journal build_income_legs build_expense_legs to_decimal index_of ledger_ref_discrete
    ◌+ℤ◌ ◌-ℤ◌
balance-posted = refl

pub posting-ok : posting ≡ ok (posted, the_summary nothing_posted posting)
unfolding post post_new apply_cache_deltas apply_cashbook_deltas apply_wallet_deltas resolve_draft
    resolve_legs deltas_from_lines add_lines add_line bump_cashbook bump_wallet assert_balanced
    build_entry_journal build_income_legs build_expense_legs to_decimal index_of ledger_ref_discrete
    ◌+ℤ◌ ◌-ℤ◌
posting-ok = refl

posted-IsConsistent : IsConsistent posted
posted-IsConsistent =
    post-IsConsistent exact fresh (build_entry_journal sale) OnDuplicate.throw posted
      (the_summary nothing_posted posting) stable fresh-IsConsistent posting-ok

post-IsConsistent_example : IsConsistent posted
post-IsConsistent_example =
    post-IsConsistent exact fresh (build_entry_journal sale) OnDuplicate.throw posted
      (the_summary nothing_posted posting) stable fresh-IsConsistent posting-ok

abbrev pub cancellation : ReverseArgs
cancellation = record {
  workspace_id = 7;
  original_posting_key = PostingKey.entry 11 1;
  reason = "Wrong book";
  created_by_id = 5;
  reversal_date = none;
  apply_caches = true;
}

abbrev pub reversing : Result LedgerError (Small × Option (PostedJournal ℤ))
reversing = reverse posted cancellation

abbrev pub reversed : Small
reversed = the_state reversing

balance-reversed : (reversed.cashbooks 3).balance ≡ pos 0
unfolding post reverse reverse_new same_key posting_key_discrete repost post_new apply_cache_deltas
    apply_cashbook_deltas apply_wallet_deltas resolve_draft resolve_legs deltas_from_lines add_lines
    add_line bump_cashbook bump_wallet assert_balanced build_entry_journal build_income_legs
    build_expense_legs to_decimal index_of ledger_ref_discrete ◌+ℤ◌ ◌-ℤ◌ ℕ_discrete
balance-reversed = refl

reversing-ok : reversing ≡ ok (reversed, the_summary none reversing)
unfolding post reverse reverse_new same_key posting_key_discrete repost post_new apply_cache_deltas
    apply_cashbook_deltas apply_wallet_deltas resolve_draft resolve_legs deltas_from_lines add_lines
    add_line bump_cashbook bump_wallet assert_balanced build_entry_journal build_income_legs
    build_expense_legs to_decimal index_of ledger_ref_discrete ◌+ℤ◌ ◌-ℤ◌ ℕ_discrete
reversing-ok = refl

reverse-IsConsistent_example : IsConsistent reversed
reverse-IsConsistent_example =
    reverse-IsConsistent exact posted cancellation reversed (the_summary none reversing) refl
      posted-IsConsistent reversing-ok

-- The entry is corrected to 90.
abbrev corrected : EntryPostingInput ℤ
corrected = record sale { amount = pos 900000; version = 2 }

abbrev reposting : Result LedgerError (Small × Option (PostedJournal ℤ) × PostedJournal ℤ)
reposting = repost posted (PostingKey.entry 11 1) (build_entry_journal corrected) "Amount" 5 true

abbrev reposted :
    Result LedgerError (Small × Option (PostedJournal ℤ) × PostedJournal ℤ)
    → Small × Option (PostedJournal ℤ) × PostedJournal ℤ
reposted (ok r) = r
reposted (err _) = (fresh, none, nothing_posted)

balance-reposted : ((reposted reposting).0.cashbooks 3).balance ≡ pos 885000
unfolding post reverse reverse_new same_key posting_key_discrete repost post_new apply_cache_deltas
    apply_cashbook_deltas apply_wallet_deltas resolve_draft resolve_legs deltas_from_lines add_lines
    add_line bump_cashbook bump_wallet assert_balanced build_entry_journal build_income_legs
    build_expense_legs to_decimal index_of ledger_ref_discrete ◌+ℤ◌ ◌-ℤ◌ ℕ_discrete
balance-reposted = refl

reposting-ok :
    reposting ≡ ok ((reposted reposting).0, (reposted reposting).1, (reposted reposting).2)
unfolding post reverse reverse_new same_key posting_key_discrete repost post_new apply_cache_deltas
    apply_cashbook_deltas apply_wallet_deltas resolve_draft resolve_legs deltas_from_lines add_lines
    add_line bump_cashbook bump_wallet assert_balanced build_entry_journal build_income_legs
    build_expense_legs to_decimal index_of ledger_ref_discrete ◌+ℤ◌ ◌-ℤ◌ ℕ_discrete
reposting-ok = refl

repost-IsConsistent_example : IsConsistent (reposted reposting).0
repost-IsConsistent_example =
    repost-IsConsistent exact posted (PostingKey.entry 11 1) (build_entry_journal corrected)
      "Amount" 5 (reposted reposting).0 (reposted reposting).1 (reposted reposting).2 stable
      posted-IsConsistent reposting-ok
