-- ===== src/Ledger/Posting/Store.antt =====
-- `post`, `reverse`, `repost` and `applyCacheDeltas` over the rows that they read and write.
use Prim.Native.String.{String}
use project_task_cashbook_ba.Base.{
  ℕ, ◌+◌, Bool, true, false, ◌||◌, Option, none, some, ◌∷◌, map, if◌then◌else◌,
}
use project_task_cashbook_ba.Base.Result.{Result, ok, err, ◌>>=◌, ◌>>◌}
use project_task_cashbook_ba.Decimal.{Arithmetic}
use project_task_cashbook_ba.Ledger.Types.{PostingKey, JournalDraft, PostedJournal, no_dims}
use project_task_cashbook_ba.Ledger.Posting.Resolver.{
  LedgerError, Resolver, posting_key_conflict, unique_violation,
}
use project_task_cashbook_ba.Ledger.Posting.Deltas.{
  ResolvedDraft, resolve_draft, deltas_from_lines, assert_balanced,
}
use project_task_cashbook_ba.Ledger.Posting.Rows.{
  Journal, Db, OnDuplicate, is_some, is_reversed, ReverseArgs, apply_cashbook_deltas,
  apply_wallet_deltas, find_key, find_reversal, mark_reversed, swap_line, summary, journal_of,
  reversal_of, sort_keys,
}

module _ {C : Type 0} {D : Type 0} ⦃r : Resolver C⦄ ⦃d : Arithmetic D⦄ where
  unfoldable pub apply_cache_deltas : Db C D → ResolvedDraft D → Db C D
  unfolding apply_cashbook_deltas apply_wallet_deltas
  apply_cache_deltas db resolved = record db {
    cashbooks = apply_cashbook_deltas db.cashbooks (sort_keys resolved.cashbook_deltas);
    wallets = apply_wallet_deltas db.wallets (sort_keys resolved.wallet_deltas);
  }

  abbrev pub apply_if : Bool → Db C D → ResolvedDraft D → Db C D
  apply_if apply_caches db resolved = if apply_caches then apply_cache_deltas db resolved else db

  -- `journalEntry.create` and `journalLine.createMany`; the table is unique in the workspace and
  -- posting key, and in the journal that is reversed.
  abbrev pub create_journal : Db C D → Journal D → Db C D
  create_journal db j = record db { next_id = db.next_id + 1; journals = j ∷ db.journals }

  -- `post` once no journal has the key.
  unfoldable pub post_new :
      Db C D → JournalDraft D → Bool → Result LedgerError (Db C D × PostedJournal D)
  unfolding apply_cache_deltas resolve_draft assert_balanced
  post_new db draft apply_caches = resolve_draft db.chart draft >>= λ (chart, resolved).
      assert_balanced resolved
      >> (let journal = journal_of db.next_id draft resolved in
          let db' = create_journal (record db { chart = chart }) journal in
          ok (apply_if apply_caches db' resolved, summary false journal))

  abbrev pub post_existing :
      Db C D → OnDuplicate → Journal D → Result LedgerError (Db C D × PostedJournal D)
  post_existing db OnDuplicate.return_existing j = ok (db, summary true j)
  post_existing db OnDuplicate.throw j = err posting_key_conflict

  unfoldable pub post :
      Db C D → JournalDraft D → OnDuplicate → Bool → Result LedgerError (Db C D × PostedJournal D)
  unfolding post_new
  post db draft on_duplicate apply_caches =
      elim (find_key draft.workspace_id draft.posting_key db.journals) [
        | some j ↦ post_existing db on_duplicate j
        | none ↦ post_new db draft apply_caches
      ]

  -- `reverse` of a journal that has no reversal yet. The insertion fails if the reversal's key
  -- is taken or another row already reverses the journal.
  unfoldable pub reverse_new :
      Db C D → ReverseArgs → Journal D → Result LedgerError (Db C D × Option (PostedJournal D))
  unfolding apply_cache_deltas deltas_from_lines
  reverse_new db args original =
      let reversal = reversal_of db.next_id original args in
      let created = create_journal db reversal in
      let marked = record created { journals = reversal ∷ mark_reversed original.id db.journals } in
      let applied =
        deltas_from_lines db.chart
          (map (λ l. record (swap_line l) { dims = no_dims }) original.lines) original.cashbook_id
          original.source_type
        >>= λ negated.
            ok (apply_if args.apply_caches marked negated, some (summary false reversal)) in
      if is_some (find_key original.workspace_id reversal.posting_key db.journals)
        || is_some (find_reversal original.id db.journals)
      then err unique_violation
      else applied

  abbrev pub reverse_found :
      Db C D → ReverseArgs → Journal D → Result LedgerError (Db C D × Option (PostedJournal D))
  reverse_found db args original =
      let fresh = reverse_new db args original in
      if is_reversed original.status
      then elim (find_reversal original.id db.journals) [
        | some already ↦ ok (db, some (summary true already))
        | none ↦ fresh
      ]
      else fresh

  unfoldable pub reverse :
      Db C D → ReverseArgs → Result LedgerError (Db C D × Option (PostedJournal D))
  unfolding reverse_new
  reverse db args = elim (find_key args.workspace_id args.original_posting_key db.journals) [
    | some original ↦ reverse_found db args original
    | none ↦ ok (db, none)
  ]

  -- Reverse the previous version of an event and post its new one.
  unfoldable pub repost :
      Db C D
      → PostingKey
      → JournalDraft D
      → String
      → ℕ
      → Bool
      → Result LedgerError (Db C D × Option (PostedJournal D) × PostedJournal D)
  unfolding reverse post
  repost db original_key next reason created_by apply_caches =
      reverse db (record {
        workspace_id = next.workspace_id;
        original_posting_key = original_key;
        reason = reason;
        created_by_id = created_by;
        reversal_date = none;
        apply_caches = apply_caches;
      })
      >>= λ (db', reversal). post db' next OnDuplicate.throw apply_caches >>= λ (db'', replacement).
          ok (db'', reversal, replacement)
