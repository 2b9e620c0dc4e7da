-- ===== src/Ledger/Posting/Deltas.antt =====
-- `resolveDraft`, `deltasFromLines` and `assertBalanced`: from the legs of a draft to lines,
-- totals and the deltas of the cached columns.
use project_task_cashbook_ba.Base.{
  ℕ, ◌+◌, ◌==◌, Bool, true, false, not, ◌&&◌, ◌||◌, Option, none, some, List, [], ◌∷◌,
  if◌then◌else◌,
}
use project_task_cashbook_ba.Base.Result.{Result, ok, err, ◌>>=◌}
use project_task_cashbook_ba.Decimal.{Arithmetic}
use project_task_cashbook_ba.Finance.Money.{zero_amount, to_decimal}
use project_task_cashbook_ba.Finance.Money.Books.{BookCaches}
use project_task_cashbook_ba.Ledger.Types.{
  JournalSourceType, LegDraft, JournalDraft, ResolvedLine, LedgerAccountMeta, LedgerAccountClass,
  LedgerAccountOrigin,
}
use project_task_cashbook_ba.Ledger.Posting.Resolver.{
  LedgerError, Resolver, invalid_leg, empty_journal, unbalanced,
}

-- The two maps, in insertion order, and the totals.
pub record ResolvedDraft (D : Type 0) : Type 0 where
  pub lines : List (ResolvedLine D)
  pub total_debit : D
  pub total_credit : D
  pub cashbook_deltas : List (ℕ × BookCaches D)
  pub wallet_deltas : List (ℕ × D)

pub data CashbookField : Type 0 where
  balance total_income total_expense : CashbookField

-- `sourceType === 'CASHBOOK_ENTRY'`
abbrev pub counts_toward_cashbook_totals : JournalSourceType → Bool
counts_toward_cashbook_totals JournalSourceType.cashbook_entry = true
counts_toward_cashbook_totals _ = false

-- `meta.origin === 'BOOK_CASH' && meta.cashbookId`, with the id; the same for WALLET.
abbrev pub book_cash_of : LedgerAccountOrigin → Option ℕ → Option ℕ
book_cash_of LedgerAccountOrigin.book_cash_origin id = id
book_cash_of _ id = none

abbrev pub wallet_of : LedgerAccountOrigin → Option ℕ → Option ℕ
wallet_of LedgerAccountOrigin.wallet_origin id = id
wallet_of _ id = none

-- `countsTowardCashbookTotals && cashbookId`, with the id.
abbrev pub counted_book : Bool → Option ℕ → Option ℕ
counted_book true id = id
counted_book false id = none

abbrev is_empty {ℓ} : {A : Type ℓ} → List A → Bool
is_empty [] = true
is_empty (_ ∷ _) = false

module _ {D : Type 0} ⦃d : Arithmetic D⦄ where
  open d use {add, sub, equals, is_zero, is_negative}

  abbrev pub no_caches : BookCaches D
  no_caches = record {
    balance = zero_amount;
    total_income = zero_amount;
    total_expense = zero_amount;
  }

  abbrev pub add_to : CashbookField → BookCaches D → D → BookCaches D
  add_to CashbookField.balance v amount = record v { balance = add v.balance amount }
  add_to CashbookField.total_income v amount = record v { total_income = add v.total_income amount }
  add_to CashbookField.total_expense v amount = record v {
    total_expense = add v.total_expense amount;
  }

  abbrev pub put_delta : List (ℕ × BookCaches D) → ℕ → CashbookField → D → List (ℕ × BookCaches D)
  put_delta [] id field amount = (id, add_to field no_caches amount) ∷ []
  put_delta ((j, v) ∷ m) id field amount =
      if j == id then (j, add_to field v amount) ∷ m else (j, v) ∷ put_delta m id field amount

  unfoldable pub bump_cashbook :
      List (ℕ × BookCaches D) → ℕ → CashbookField → D → List (ℕ × BookCaches D)
  bump_cashbook m id field amount = if is_zero amount then m else put_delta m id field amount

  unfoldable pub bump_wallet : List (ℕ × D) → ℕ → D → List (ℕ × D)
  bump_wallet [] id amount = (id, add zero_amount amount) ∷ []
  bump_wallet ((j, v) ∷ m) id amount =
      if j == id then (j, add v amount) ∷ m else (j, v) ∷ bump_wallet m id amount

  abbrev pub bump_if :
      List (ℕ × BookCaches D) → Option ℕ → CashbookField → D → List (ℕ × BookCaches D)
  bump_if m none field amount = m
  bump_if m (some id) field amount = bump_cashbook m id field amount

  abbrev pub bump_wallet_if : List (ℕ × D) → Option ℕ → D → List (ℕ × D)
  bump_wallet_if m none amount = m
  bump_wallet_if m (some id) amount = bump_wallet m id amount

  -- The branches on `meta.class`, for the book that counts, if any.
  abbrev pub bump_class :
      List (ℕ × BookCaches D)
      → Option ℕ
      → LedgerAccountClass
      → ResolvedLine D
      → List (ℕ × BookCaches D)
  bump_class m book LedgerAccountClass.income line =
      bump_if m book CashbookField.total_income (sub line.credit line.debit)
  bump_class m book LedgerAccountClass.expense line =
      bump_if m book CashbookField.total_expense (sub line.debit line.credit)
  bump_class m book _ line = m

  -- The loop body of `deltasFromLines`.
  unfoldable pub add_line :
      Option ℕ → LedgerAccountMeta → ResolvedLine D → ResolvedDraft D → ResolvedDraft D
  unfolding bump_cashbook bump_wallet
  add_line book meta line acc =
      let signed_debit = sub line.debit line.credit in
      let cash =
        bump_if acc.cashbook_deltas (book_cash_of meta.origin meta.cashbook_id)
          CashbookField.balance signed_debit in
      record acc {
        total_debit = add acc.total_debit line.debit;
        total_credit = add acc.total_credit line.credit;
        cashbook_deltas = bump_class cash book meta.class line;
        wallet_deltas =
            bump_wallet_if acc.wallet_deltas (wallet_of meta.origin meta.wallet_account_id)
              signed_debit;
      }

  abbrev pub line_of : ℕ → ℕ → D → D → LegDraft D → ResolvedLine D
  line_of line_number account debit credit leg = record {
    line_number = line_number;
    ledger_account_id = account;
    debit = debit;
    credit = credit;
    memo = leg.memo;
    dims = leg.dims;
  }

  module _ {C : Type 0} ⦃r : Resolver C⦄ where
    unfoldable pub add_lines :
        C
        → Option ℕ
        → List (ResolvedLine D)
        → ResolvedDraft D
        → Result LedgerError (ResolvedDraft D)
    unfolding add_line
    add_lines c book [] acc = ok acc
    add_lines c book (line ∷ lines) acc = r.meta_for c line.ledger_account_id >>= λ meta.
        add_lines c book lines (add_line book meta line acc)

    unfoldable pub deltas_from_lines :
        C
        → List (ResolvedLine D)
        → Option ℕ
        → JournalSourceType
        → Result LedgerError (ResolvedDraft D)
    unfolding add_lines
    deltas_from_lines c lines cashbook_id source_type =
        add_lines c (counted_book (counts_toward_cashbook_totals source_type) cashbook_id) lines
          (record {
            lines = lines;
            total_debit = zero_amount;
            total_credit = zero_amount;
            cashbook_deltas = [];
            wallet_deltas = [];
          })

    -- The loop of `resolveDraft`, from a line number on.
    unfoldable pub resolve_legs :
        C → ℕ → ℕ → ℕ → List (LegDraft D) → Result LedgerError (C × List (ResolvedLine D))
    unfolding to_decimal
    resolve_legs c workspace currency line_number [] = ok (c, [])
    resolve_legs c workspace currency line_number (leg ∷ legs) =
        let debit = to_decimal leg.debit in
        let credit = to_decimal leg.credit in
        let skipped = resolve_legs c workspace currency line_number legs in
        let pushed = r.resolve c workspace currency leg.ref >>= λ (c', account).
        resolve_legs c' workspace currency (line_number + 1) legs >>= λ (c'', lines).
        ok (c'', line_of line_number account debit credit leg ∷ lines) in
        if is_zero debit && is_zero credit
        then skipped
        else if not (is_zero debit) && not (is_zero credit)
        then err invalid_leg
        else if is_negative debit || is_negative credit
        then err invalid_leg
        else pushed

    unfoldable pub resolve_draft : C → JournalDraft D → Result LedgerError (C × ResolvedDraft D)
    unfolding resolve_legs deltas_from_lines
    resolve_draft c draft =
        resolve_legs c draft.workspace_id draft.currency 1 draft.legs >>= λ (c', lines).
        deltas_from_lines c' lines draft.cashbook_id draft.source_type >>= λ resolved.
        ok (c', resolved)

  unfoldable pub assert_balanced : ResolvedDraft D → Result LedgerError (Unit {0})
  assert_balanced resolved =
      if is_empty resolved.lines
      then err empty_journal
      else if not (equals resolved.total_debit resolved.total_credit)
      then err unbalanced
      else ok tt
