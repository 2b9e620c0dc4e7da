-- ===== src/Ledger/Replay.antt =====
-- Calling `post` a second time.
pub mod Reversal
use project_task_cashbook_ba.Base.{
  ℕ, suc, ◌+◌, ◌≡◌, ◌≢◌, refl, sym, ap, ap₂, ◌∙◌, subst, ◌==◌, ==_refl, Bool, true, false, ◌&&◌,
  ◌||◌, Option, none, some, List, [], ◌∷◌, inl, inr, arith, Bool-cases, Option-cases, if◌then◌else◌,
}
use project_task_cashbook_ba.Base.Result.{Result, ok, err, >>=-eq-ok, ok_pair}
use project_task_cashbook_ba.Decimal.{Arithmetic}
use project_task_cashbook_ba.Ledger.Types.{JournalDraft, PostedJournal, PostingKey}
use project_task_cashbook_ba.Ledger.Posting.{
  Db, Journal, JournalStatus, OnDuplicate, ReverseArgs, posting_key_discrete, same_key, find_key,
  find_reversal, mark_reversed, summary, journal_of, create_journal, apply_if, apply_cache_deltas,
  resolve_draft, assert_balanced, post_new, post_existing, post, reverse, reverse_new,
  reverse_found, reversal_of, is_some, is_reversed, deltas_from_lines, same_id, is_yes,
  ResolvedDraft,
}
use project_task_cashbook_ba.Ledger.Posting.Resolver.{
  Resolver, posting_key_conflict, unique_violation,
}

pub same_key_refl : (k : PostingKey) → same_key k k ≡ true
unfolding same_key
same_key_refl k = elim (posting_key_discrete k k) as (λ e. is_yes e ≡ true) [
  | yes _ ↦ refl
  | no ne ↦ absurd (ne refl)
]

module _ {D : Type 0} ⦃d : Arithmetic D⦄ where
  find_key-head :
      (j : Journal D) (js : List (Journal D))
      → find_key j.workspace_id j.posting_key (j ∷ js) ≡ some j
  find_key-head j js = rw (==_refl j.workspace_id, same_key_refl j.posting_key)

module _ {C : Type 0} {D : Type 0} ⦃r : Resolver C⦄ ⦃d : Arithmetic D⦄ where
  journals-apply_if :
      (b : Bool) (db : Db C D) (res : ResolvedDraft D) → (apply_if b db res).journals ≡ db.journals
  unfolding apply_cache_deltas
  journals-apply_if true db res = refl
  journals-apply_if false db res = refl

  found_again :
      (db : Db C D) (on_duplicate : OnDuplicate) (j : Journal D) (db' : Db C D)
      (pj : PostedJournal D) (draft : JournalDraft D)
      → find_key draft.workspace_id draft.posting_key db.journals ≡ some j
      → post_existing db on_duplicate j ≡ ok (db', pj)
      → (i : Journal D) × (find_key draft.workspace_id draft.posting_key db'.journals ≡ some i)
        × (summary true i ≡ record pj { replayed = true })
  found_again db OnDuplicate.return_existing j db' pj draft e p =
      let (same, f) = ok_pair db db' _ pj p in
      (
        j,
        subst (λ t. find_key draft.workspace_id draft.posting_key t.journals ≡ some j) same e,
        ap (λ (t : PostedJournal D). record t { replayed = true }) f,
      )
  found_again db OnDuplicate.throw j db' pj draft e p = cc

  -- What a call of `post` leaves: the journal that it returns is found under the draft's key.
  post-finds :
      (db : Db C D) (draft : JournalDraft D) (on_duplicate : OnDuplicate) (apply_caches : Bool)
      (db' : Db C D) (pj : PostedJournal D)
      → post db draft on_duplicate apply_caches ≡ ok (db', pj)
      → (j : Journal D) × (find_key draft.workspace_id draft.posting_key db'.journals ≡ some j)
        × (summary true j ≡ record pj { replayed = true })
  unfolding post post_new
  post-finds db draft od b db' pj p =
      elim (Option-cases (find_key draft.workspace_id draft.posting_key db.journals)) [
        | inr (j, e) ↦ found_again db od j db' pj draft e (rw (e, post) at p)
        | inl n ↦
            let ((c, res), q, q1) =
              >>=-eq-ok (resolve_draft db.chart draft) _ (rw (n, post) at p) in
            let (u, q2, q3) = >>=-eq-ok (assert_balanced res) _ q1 in
            let (e, f) = ok_pair _ db' _ pj q3 in
            let j = journal_of db.next_id draft res in
            (
              j,
              ap (λ t. find_key draft.workspace_id draft.posting_key t.journals) (sym e)
                  ∙ ap (find_key draft.workspace_id draft.posting_key) (journals-apply_if b _ res)
                  ∙ find_key-head j db.journals,
              ap (λ (t : PostedJournal D). record t { replayed = true }) f,
            )
      ]

  -- Posting a draft again, after any successful post of it, changes nothing: asked to return the
  -- existing journal it gives the same summary, marked as replayed, and else it is a conflict.
  pub post_again :
      (db : Db C D) (draft : JournalDraft D) (on_duplicate : OnDuplicate)
      (apply_caches apply_again : Bool) (db' : Db C D) (pj : PostedJournal D)
      → post db draft on_duplicate apply_caches ≡ ok (db', pj)
      → (post db' draft OnDuplicate.return_existing apply_again
          ≡ ok (db', record pj { replayed = true }))
        × (post db' draft OnDuplicate.throw apply_again ≡ err posting_key_conflict)
  unfolding post
  post_again db draft od b b' db' pj p =
      let (j, e, f) = post-finds db draft od b db' pj p in
      (rw (e, post) (ap (λ t. ok (db', t)) f), rw (e, post))
