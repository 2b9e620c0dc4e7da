-- ===== src/Ledger/Posting/Rows.antt =====
-- The rows that posting reads and writes, and how they are looked up and updated.
use Prim.Native.String.{String, ◌++◌}
use native.Mathlib.Decide.{ℕ_discrete}
use project_task_cashbook_ba.Base.{
  ℕ, ◌==◌, leb, Bool, true, false, ◌&&◌, Option, none, some, List, [], ◌∷◌, map, length,
  if◌then◌else◌,
}
use project_task_cashbook_ba.Decimal.{Arithmetic}
use project_task_cashbook_ba.Finance.Money.Books.{BookCaches}
use project_task_cashbook_ba.Ledger.Types.{
  JournalSourceType, PostingKey, JournalDraft, ResolvedLine, PostedJournal,
}
use project_task_cashbook_ba.Ledger.Posting.Deltas.{ResolvedDraft}

pub data JournalStatus : Type 0 where
  posted reversed reversing : JournalStatus

pub record Journal (D : Type 0) : Type 0 where
  pub id : ℕ
  pub workspace_id : ℕ
  pub cashbook_id : Option ℕ
  pub entry_date : ℕ
  pub currency : ℕ
  pub description : String
  pub source_type : JournalSourceType
  pub source_id : Option ℕ
  pub posting_key : PostingKey
  pub total_debit : D
  pub total_credit : D
  pub created_by_id : ℕ
  pub status : JournalStatus
  pub reverses : Option ℕ
  pub lines : List (ResolvedLine D)

-- The rows that posting touches: the chart of accounts, the journals with their lines, newest
-- first, and the cached columns by cashbook and by wallet. `next_id` is the next fresh id.
pub record Db (C : Type 0) (D : Type 0) : Type 0 where
  pub chart : C
  pub next_id : ℕ
  pub journals : List (Journal D)
  pub cashbooks : ℕ → BookCaches D
  pub wallets : ℕ → D

pub data OnDuplicate : Type 0 where
  throw return_existing : OnDuplicate

unfoldable pub posting_key_discrete : Discrete PostingKey
posting_key_discrete = hlevel ℕ_discrete

abbrev pub is_yes : {A : Type 0} → Dec A → Bool
is_yes (yes _) = true
is_yes (no _) = false

unfoldable pub same_key : PostingKey → PostingKey → Bool
same_key a b = is_yes (posting_key_discrete a b)

abbrev pub same_id : Option ℕ → ℕ → Bool
same_id none b = false
same_id (some a) b = a == b

abbrev pub update_at {ℓ} : {A : Type ℓ} → (ℕ → A) → ℕ → A → ℕ → A
update_at f k a j = if j == k then a else f j

-- `Array.prototype.sort` on the keys of a map.
abbrev pub insert_key {ℓ} : {V : Type ℓ} → ℕ × V → List (ℕ × V) → List (ℕ × V)
insert_key e [] = e ∷ []
insert_key e (f ∷ m) = if leb e.0 f.0 then e ∷ f ∷ m else f ∷ insert_key e m

abbrev pub sort_keys {ℓ} : {V : Type ℓ} → List (ℕ × V) → List (ℕ × V)
sort_keys [] = []
sort_keys (e ∷ m) = insert_key e (sort_keys m)

pub record ReverseArgs : Type 0 where
  pub workspace_id : ℕ
  pub original_posting_key : PostingKey
  pub reason : String
  pub created_by_id : ℕ
  pub reversal_date : Option ℕ
  pub apply_caches : Bool

-- `args.reversalDate ?? original.entryDate`
abbrev pub date_or : Option ℕ → ℕ → ℕ
date_or none date = date
date_or (some date) _ = date

abbrev pub is_reversed : JournalStatus → Bool
is_reversed JournalStatus.reversed = true
is_reversed _ = false

abbrev pub is_some {ℓ} : {A : Type ℓ} → Option A → Bool
is_some none = false
is_some (some _) = true

module _ {D : Type 0} ⦃d : Arithmetic D⦄ where
  open d use {add, is_zero}

  -- `if (!value.isZero()) data.field = { increment: value }`
  abbrev pub increment_nonzero : D → D → D
  increment_nonzero old by = if is_zero by then old else add old by

  abbrev pub incremented : BookCaches D → BookCaches D → BookCaches D
  incremented row delta = record {
    balance = increment_nonzero row.balance delta.balance;
    total_income = increment_nonzero row.total_income delta.total_income;
    total_expense = increment_nonzero row.total_expense delta.total_expense;
  }

  unfoldable pub apply_cashbook_deltas :
      (ℕ → BookCaches D) → List (ℕ × BookCaches D) → ℕ → BookCaches D
  apply_cashbook_deltas books [] = books
  apply_cashbook_deltas books ((id, delta) ∷ m) =
      apply_cashbook_deltas (update_at books id (incremented (books id) delta)) m

  unfoldable pub apply_wallet_deltas : (ℕ → D) → List (ℕ × D) → ℕ → D
  apply_wallet_deltas wallets [] = wallets
  apply_wallet_deltas wallets ((id, delta) ∷ m) =
      apply_wallet_deltas (update_at wallets id (increment_nonzero (wallets id) delta)) m

  -- `findUnique` by workspace and posting key, and by the journal that is reversed.
  abbrev pub find_key : ℕ → PostingKey → List (Journal D) → Option (Journal D)
  find_key workspace key [] = none
  find_key workspace key (j ∷ js) =
      if (j.workspace_id == workspace) && same_key j.posting_key key
      then some j
      else find_key workspace key js

  abbrev pub find_reversal : ℕ → List (Journal D) → Option (Journal D)
  find_reversal id [] = none
  find_reversal id (j ∷ js) = if same_id j.reverses id then some j else find_reversal id js

  abbrev pub mark_reversed : ℕ → List (Journal D) → List (Journal D)
  mark_reversed id [] = []
  mark_reversed id (j ∷ js) =
      (if j.id == id then record j { status = JournalStatus.reversed } else j) ∷ mark_reversed id js

  -- The swap.
  abbrev pub swap_line : ResolvedLine D → ResolvedLine D
  swap_line l = record l { debit = l.credit; credit = l.debit }

  abbrev pub summary : Bool → Journal D → PostedJournal D
  summary replayed j = record {
    id = j.id;
    posting_key = j.posting_key;
    total_debit = j.total_debit;
    total_credit = j.total_credit;
    line_count = length j.lines;
    replayed = replayed;
  }

  abbrev pub journal_of : ℕ → JournalDraft D → ResolvedDraft D → Journal D
  journal_of id draft resolved = record {
    id = id;
    workspace_id = draft.workspace_id;
    cashbook_id = draft.cashbook_id;
    entry_date = draft.entry_date;
    currency = draft.currency;
    description = draft.description;
    source_type = draft.source_type;
    source_id = draft.source_id;
    posting_key = draft.posting_key;
    total_debit = resolved.total_debit;
    total_credit = resolved.total_credit;
    created_by_id = draft.created_by_id;
    status = JournalStatus.posted;
    reverses = none;
    lines = resolved.lines;
  }

  abbrev pub reversal_of : ℕ → Journal D → ReverseArgs → Journal D
  reversal_of id original args = record {
    id = id;
    workspace_id = original.workspace_id;
    cashbook_id = original.cashbook_id;
    entry_date = date_or args.reversal_date original.entry_date;
    currency = original.currency;
    description = "Reversal: " ++ original.description ++ " — " ++ args.reason;
    source_type = original.source_type;
    source_id = original.source_id;
    posting_key = PostingKey.reversal args.original_posting_key;
    total_debit = original.total_credit;
    total_credit = original.total_debit;
    created_by_id = args.created_by_id;
    status = JournalStatus.reversing;
    reverses = some original.id;
    lines = map swap_line original.lines;
  }
