-- ===== src/Ledger/Identity/Preserved.antt =====
-- The cache identities across `post`, `reverse` and `repost`.
use project_task_cashbook_ba.Base.{
  ℕ, ◌+◌, ◌≡◌, refl, sym, ap, ◌∙◌, subst, true, ◌||◌, Option, none, List, map, inl, inr, Bool-cases,
  Option-cases,
}
use project_task_cashbook_ba.Base.Result.{ok, err, >>=-eq-ok, ok_pair, ok_triple}
use project_task_cashbook_ba.Decimal.{Arithmetic, IsExact}
use project_task_cashbook_ba.Ledger.Types.{
  ResolvedLine, JournalDraft, PostingKey, PostedJournal, no_dims,
}
use Prim.Native.String.{String}
use project_task_cashbook_ba.Ledger.Posting.{
  Db, Journal, ResolvedDraft, ReverseArgs, OnDuplicate, deltas_from_lines, resolve_draft,
  assert_balanced, mark_reversed, swap_line, post_new, post, post_existing, reverse_new,
  reverse_found, reverse, repost, reversal_of, find_key, find_reversal, is_some, is_reversed,
  journal_of,
}
use project_task_cashbook_ba.Ledger.Posting.Resolver.{Resolver, IsStable, unique_violation}
use project_task_cashbook_ba.Ledger.Identity.Sums.{
  book_worth, wallet_worth, lines_sum, Known, book_of,
}
use project_task_cashbook_ba.Ledger.Identity.Swapped.{
  worth_no_dims, lines_sum-no_dims, Known-map, Known-swap_line,
}
use project_task_cashbook_ba.Ledger.Identity.Chart.{
  Extends, add_lines-Known, resolve_legs-Extends, KnownAll-mark_reversed, books_sum-mark_reversed,
  wallets_sum-mark_reversed,
}
use project_task_cashbook_ba.Ledger.Identity.Applied.{IsConsistent, applied-IsConsistent}

module _ {C : Type 0} {D : Type 0} ⦃r : Resolver C⦄ ⦃d : Arithmetic D⦄ (x : IsExact D) where
  -- What a resolved draft is: its legs resolved in a larger chart, and their deltas.
  resolve_draft-inv :
      (db : Db C D) (draft : JournalDraft D) (c : C) (res : ResolvedDraft D)
      → IsStable C
      → resolve_draft db.chart draft ≡ ok (c, res)
      → Extends db.chart c
        × (ls : List (ResolvedLine D)) × (deltas_from_lines c ls draft.cashbook_id draft.source_type
            ≡ ok res)
  unfolding resolve_draft
  resolve_draft-inv db draft c res s h =
      let ((c', ls), p, q) = >>=-eq-ok _ _ h in
      let (res', p', q') =
        >>=-eq-ok (deltas_from_lines c' ls draft.cashbook_id draft.source_type) _ q in
      let (e, f) = ok_pair c' c res' res q' in
      let ext =
        resolve_legs-Extends s db.chart draft.workspace_id draft.currency 1 draft.legs c' ls p in
      (
        subst (Extends db.chart) e ext,
        ls,
        subst (λ k. deltas_from_lines k ls draft.cashbook_id draft.source_type ≡ ok res) e
            (p' ∙ ap (λ t. ok t) f),
      )

  post_new-IsConsistent :
      (db : Db C D) (draft : JournalDraft D) (db' : Db C D) (pj : PostedJournal D)
      → IsStable C
      → IsConsistent db
      → post_new db draft true ≡ ok (db', pj)
      → IsConsistent db'
  unfolding post_new deltas_from_lines
  post_new-IsConsistent db draft db' pj s h p =
      let ((c, res), a, b) = >>=-eq-ok (resolve_draft db.chart draft) _ p in
      let (u, b', q) = >>=-eq-ok (assert_balanced res) _ b in
      let (ext, ls, del) = resolve_draft-inv db draft c res s a in
      let (kn, same) = add_lines-Known c _ ls _ res del in
      let j = journal_of db.next_id draft res in
      let eq = ok_pair _ db' _ pj q in
      subst IsConsistent eq.0 (
        applied-IsConsistent x db c (db.next_id + 1) j db.journals ls res h
          (record { same_known = h.known; same_books = λ f k. refl; same_wallets = λ k. refl }) ext
          (subst (Known c) (sym same) kn)
          (
            λ f k. ap (lines_sum c (book_worth f k (book_of j))) (sym same),
            λ k. ap (lines_sum c (wallet_worth k)) (sym same),
          )
          del)

  post_existing-same :
      (db : Db C D) (on_duplicate : OnDuplicate) (j : Journal D) (db' : Db C D)
      (pj : PostedJournal D)
      → post_existing db on_duplicate j ≡ ok (db', pj)
      → db ≡ db'
  post_existing-same db OnDuplicate.return_existing j db' pj p = (ok_pair db db' _ pj p).0
  post_existing-same db OnDuplicate.throw j db' pj p = cc

  -- Every successful outcome of `post` with caches, a replay included, keeps the cache
  -- identities, if the resolver only adds accounts and keeps those that are there: each cached
  -- column of each cashbook is the signed sum over all journal lines, each wallet's too, and
  -- every line's account is known.
  pub post-IsConsistent :
      (db : Db C D) (draft : JournalDraft D) (on_duplicate : OnDuplicate) (db' : Db C D)
      (pj : PostedJournal D)
      → IsStable C
      → IsConsistent db
      → post db draft on_duplicate true ≡ ok (db', pj)
      → IsConsistent db'
  unfolding post
  post-IsConsistent db draft od db' pj s h p =
      elim (Option-cases (find_key draft.workspace_id draft.posting_key db.journals)) [
        | inl n ↦ post_new-IsConsistent db draft db' pj s h (rw (n, post) at p)
        | inr (j, e) ↦ subst IsConsistent (post_existing-same db od j db' pj (rw (e, post) at p)) h
      ]

  reverse_new-IsConsistent :
      (db : Db C D) (args : ReverseArgs) (original : Journal D) (db' : Db C D)
      (pj : Option (PostedJournal D))
      → args.apply_caches ≡ true
      → IsConsistent db
      → reverse_new db args original ≡ ok (db', pj)
      → IsConsistent db'
  unfolding reverse_new deltas_from_lines
  reverse_new-IsConsistent db args original db' pj t h p =
      let reversal = reversal_of db.next_id original args in
      let taken =
        is_some (find_key original.workspace_id reversal.posting_key db.journals)
        || is_some (find_reversal original.id db.journals) in
      elim (Bool-cases taken) [
        | inl e ↦ let failed : err unique_violation ≡ ok (db', pj) = rw (e, reverse_new) at p in cc
        | inr e ↦
            let negated = map (λ l. record (swap_line l) { dims = no_dims }) original.lines in
            let (res, del, q) =
              >>=-eq-ok
                (deltas_from_lines db.chart negated original.cashbook_id original.source_type) _
                (rw (e, reverse_new) at p) in
            let (kn, _) = add_lines-Known db.chart _ negated _ res del in
            let eq = ok_pair _ db' _ pj (rw t at q) in
            subst IsConsistent eq.0 (
              applied-IsConsistent x db db.chart (db.next_id + 1) reversal
                (mark_reversed original.id db.journals) negated res h
                (record {
                  same_known = KnownAll-mark_reversed db.chart original.id db.journals h.known;
                  same_books = λ f k. books_sum-mark_reversed db.chart f k original.id db.journals;
                  same_wallets = λ k. wallets_sum-mark_reversed db.chart k original.id db.journals;
                })
                (λ a m b. b)
                (Known-swap_line db.chart original.lines
                  (Known-map db.chart _ original.lines (λ l. refl) kn))
                (
                  λ f k.
                      lines_sum-no_dims db.chart (book_worth f k (book_of original)) original.lines
                        (λ m l. worth_no_dims f k (book_of original) m l),
                  λ k. lines_sum-no_dims db.chart (wallet_worth k) original.lines (λ m l. refl),
                )
                del)
      ]

  reverse_found-IsConsistent :
      (db : Db C D) (args : ReverseArgs) (original : Journal D) (db' : Db C D)
      (pj : Option (PostedJournal D))
      → args.apply_caches ≡ true
      → IsConsistent db
      → reverse_found db args original ≡ ok (db', pj)
      → IsConsistent db'
  reverse_found-IsConsistent db args original db' pj t h p =
      elim (Bool-cases (is_reversed original.status)) [
        | inr e ↦ reverse_new-IsConsistent db args original db' pj t h (rw e at p)
        | inl e ↦ elim (Option-cases (find_reversal original.id db.journals)) [
          | inl n ↦ reverse_new-IsConsistent db args original db' pj t h (rw (e, n) at p)
          | inr (j, f) ↦ subst IsConsistent (ok_pair db db' _ pj (rw (e, f) at p)).0 h
        ]
      ]

  -- Every successful outcome of `reverse` with caches keeps the cache identities: each cached
  -- column of each cashbook is the signed sum over all journal lines, each wallet's too, and
  -- every line's account is known.
  pub reverse-IsConsistent :
      (db : Db C D) (args : ReverseArgs) (db' : Db C D) (pj : Option (PostedJournal D))
      → args.apply_caches ≡ true
      → IsConsistent db
      → reverse db args ≡ ok (db', pj)
      → IsConsistent db'
  unfolding reverse
  reverse-IsConsistent db args db' pj t h p =
      elim (Option-cases (find_key args.workspace_id args.original_posting_key db.journals)) [
        | inl n ↦ subst IsConsistent (ok_pair db db' none pj (rw (n, reverse) at p)).0 h
        | inr (original, e) ↦
            reverse_found-IsConsistent db args original db' pj t h (rw (e, reverse) at p)
      ]

  -- Every successful outcome of `repost` with caches keeps the cache identities, if the resolver
  -- only adds accounts and keeps those that are there: each cached column of each cashbook is the
  -- signed sum over all journal lines, each wallet's too, and every line's account is known.
  pub repost-IsConsistent :
      (db : Db C D) (original_key : PostingKey) (next : JournalDraft D) (reason : String)
      (created_by : ℕ) (db' : Db C D) (reversal : Option (PostedJournal D)) (pj : PostedJournal D)
      → IsStable C
      → IsConsistent db
      → repost db original_key next reason created_by true ≡ ok (db', reversal, pj)
      → IsConsistent db'
  unfolding repost
  repost-IsConsistent db key next reason by db' rev pj s h p =
      let args : ReverseArgs = record {
        workspace_id = next.workspace_id;
        original_posting_key = key;
        reason = reason;
        created_by_id = by;
        reversal_date = none;
        apply_caches = true;
      } in
      let ((db1, rev'), a, q) = >>=-eq-ok (reverse db args) _ p in
      let ((db2, pj'), b, q') = >>=-eq-ok (post db1 next OnDuplicate.throw true) _ q in
      let eq = ok_triple db2 db' rev' rev pj' pj q' in
      subst IsConsistent eq.0 (
        post-IsConsistent db1 next OnDuplicate.throw db2 pj' s
          (reverse-IsConsistent db args db1 rev' refl h a) b)
