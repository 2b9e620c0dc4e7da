-- ===== src/Ledger/Replay/Reversal.antt =====
-- Calling `reverse` a second time.
use project_task_cashbook_ba.Base.{
  ℕ, suc, ◌≡◌, refl, sym, ap, ◌∙◌, subst, ◌==◌, ==_refl, Bool, true, false, ◌&&◌, ◌||◌, Option,
  none, some, List, [], map, ◌∷◌, inl, inr, arith, Bool-cases, Option-cases, if◌then◌else◌,
}
use project_task_cashbook_ba.Base.Result.{ok, err, >>=-eq-ok, ok_pair}
use project_task_cashbook_ba.Decimal.{Arithmetic}
use project_task_cashbook_ba.Ledger.Types.{PostedJournal, PostingKey, no_dims}
use project_task_cashbook_ba.Ledger.Posting.{
  Journal, JournalStatus, ReverseArgs, posting_key_discrete, same_key, is_yes, find_key,
  find_reversal, mark_reversed, summary, Db, ResolvedDraft, apply_cache_deltas, apply_if, swap_line,
  reverse, reverse_new, reverse_found, reversal_of, is_some, is_reversed, deltas_from_lines,
}
use project_task_cashbook_ba.Ledger.Posting.Resolver.{Resolver, unique_violation}

abbrev size : PostingKey → ℕ
size (PostingKey.reversal k) = suc (size k)
size _ = 0

not_own_reversal : (k : PostingKey) → same_key (PostingKey.reversal k) k ≡ false
unfolding same_key
not_own_reversal k =
    elim (posting_key_discrete (PostingKey.reversal k) k) as (λ e. is_yes e ≡ false) [
      | yes e ↦ let sizes = ap size e in absurd (ground arith)
      | no _ ↦ refl
    ]

module _ {D : Type 0} ⦃d : Arithmetic D⦄ where
  abbrev marked : ℕ → Journal D → Journal D
  marked id j = if j.id == id then record j { status = JournalStatus.reversed } else j

  find_key-marked :
      (w id : ℕ) (k : PostingKey) (j : Journal D) (js : List (Journal D))
      → find_key w k (marked id j ∷ js) ≡ (
          if (j.workspace_id == w) && same_key j.posting_key k
          then some (marked id j)
          else find_key w k js)
  find_key-marked w id k j js = elim (Bool-cases (j.id == id)) [ inl e ↦ rw e | inr e ↦ rw e ]

  find_key-mark_reversed :
      (w id : ℕ) (k : PostingKey) (js : List (Journal D)) (j : Journal D)
      → find_key w k js ≡ some j
      → find_key w k (mark_reversed id js) ≡ some (marked id j)
  find_key-mark_reversed w id k [] j h = cc
  find_key-mark_reversed w id k (i ∷ js) j h =
      find_key-marked w id k i (mark_reversed id js)
      ∙ elim (Bool-cases ((i.workspace_id == w) && same_key i.posting_key k)) [
        | inl e ↦
            let same : some i ≡ some j = rw e at h in
            let equal : i ≡ j = cc in rw e (ap (λ t. some (marked id t)) equal)
        | inr e ↦ rw e (find_key-mark_reversed w id k js j (rw e at h))
      ]

abbrev pub second_call : ReverseArgs → Bool → ReverseArgs
second_call args apply_again = record args { apply_caches = apply_again }

and_false : (b : Bool) → b && false ≡ false
and_false true = refl
and_false false = refl

module _ {C : Type 0} {D : Type 0} ⦃r : Resolver C⦄ ⦃d : Arithmetic D⦄ where
  -- A journal that is marked reversed and has its reversal is replayed.
  reverse-replays :
      (db : Db C D) (args : ReverseArgs) (original already : Journal D)
      → find_key args.workspace_id args.original_posting_key db.journals ≡ some original
      → is_reversed original.status ≡ true
      → find_reversal original.id db.journals ≡ some already
      → reverse db args ≡ ok (db, some (summary true already))
  unfolding reverse
  reverse-replays db args original already e s f = rw (e, reverse) (rw (s, f))

  journals-apply_if :
      (b : Bool) (db : Db C D) (res : ResolvedDraft D) → (apply_if b db res).journals ≡ db.journals
  unfolding apply_cache_deltas
  journals-apply_if true db res = refl
  journals-apply_if false db res = refl

  -- The journals after a reversal is written.
  reverse_new-journals :
      (db : Db C D) (args : ReverseArgs) (original : Journal D) (db' : Db C D)
      (pj : Option (PostedJournal D))
      → reverse_new db args original ≡ ok (db', pj)
      → let reversal = reversal_of db.next_id original args in
        (db'.journals ≡ reversal ∷ mark_reversed original.id db.journals)
        × (pj ≡ some (summary false reversal))
  unfolding reverse_new apply_cache_deltas
  reverse_new-journals db args original db' pj p =
      let reversal = reversal_of db.next_id original args in
      let taken =
        is_some (find_key original.workspace_id reversal.posting_key db.journals)
        || is_some (find_reversal original.id db.journals) in
      elim (Bool-cases taken) [
        | inl e ↦ let failed : err unique_violation ≡ ok (db', pj) = rw (e, reverse_new) at p in cc
        | inr e ↦
            let (res, del, q) =
              >>=-eq-ok
                (deltas_from_lines db.chart
                  (map (λ l. record (swap_line l) { dims = no_dims }) original.lines)
                  original.cashbook_id original.source_type)
                _ (rw (e, reverse_new) at p) in
            let (same, f) = ok_pair _ db' _ pj q in
            (
              ap (λ (t : Db C D). t.journals) (sym same)
                  ∙ journals-apply_if args.apply_caches _ res,
              sym f,
            )
      ]

  after_new :
      (db : Db C D) (args : ReverseArgs) (original : Journal D) (apply_again : Bool) (db' : Db C D)
      (pj : PostedJournal D)
      → find_key args.workspace_id args.original_posting_key db.journals ≡ some original
      → reverse_new db args original ≡ ok (db', some pj)
      → reverse db' (second_call args apply_again) ≡ ok (db', some (record pj { replayed = true }))
  after_new db args original b db' pj e p =
      let (js, f) = reverse_new-journals db args original db' (some pj) p in
      let reversal = reversal_of db.next_id original args in
      let same : pj ≡ summary false reversal = cc in
      reverse-replays db' (second_call args b) (marked original.id original) reversal
        (ap (find_key args.workspace_id args.original_posting_key) js
          ∙ rw
              (
                not_own_reversal args.original_posting_key,
                and_false (original.workspace_id == args.workspace_id),
              )
              (find_key-mark_reversed args.workspace_id original.id args.original_posting_key
                db.journals original e))
        (rw (==_refl original.id))
        (ap (find_reversal (marked original.id original).id) js
          ∙ rw (==_refl original.id) (rw (==_refl original.id)))
      ∙ ap (λ (t : PostedJournal D). ok (db', some (record t { replayed = true }))) (sym same)

  after_found :
      (db : Db C D) (args : ReverseArgs) (original : Journal D) (apply_again : Bool) (db' : Db C D)
      (pj : PostedJournal D)
      → find_key args.workspace_id args.original_posting_key db.journals ≡ some original
      → reverse_found db args original ≡ ok (db', some pj)
      → reverse db' (second_call args apply_again) ≡ ok (db', some (record pj { replayed = true }))
  after_found db args original b db' pj e p = elim (Bool-cases (is_reversed original.status)) [
    | inr s ↦ after_new db args original b db' pj e (rw s at p)
    | inl s ↦ elim (Option-cases (find_reversal original.id db.journals)) [
      | inl n ↦ after_new db args original b db' pj e (rw (s, n) at p)
      | inr (already, f) ↦
          let (same, g) = ok_pair db db' (some (summary true already)) (some pj) (rw (s, f) at p) in
          let equal : summary true already ≡ pj = cc in
          subst (λ t. reverse t (second_call args b) ≡ ok (t, some (record pj { replayed = true })))
            same
            (reverse-replays db (second_call args b) original already e s f
              ∙ ap (λ (t : PostedJournal D). ok (db, some (record t { replayed = true }))) equal)
    ]
  ]

  -- Reversing again, after a call of `reverse` that gave a journal, changes nothing and gives the
  -- same reversal, marked as replayed.
  pub reverse_again :
      (db : Db C D) (args : ReverseArgs) (apply_again : Bool) (db' : Db C D) (pj : PostedJournal D)
      → reverse db args ≡ ok (db', some pj)
      → reverse db' (second_call args apply_again) ≡ ok (db', some (record pj { replayed = true }))
  unfolding reverse
  reverse_again db args b db' pj p =
      elim (Option-cases (find_key args.workspace_id args.original_posting_key db.journals)) [
        | inl n ↦ let (_, f) = ok_pair db db' none (some pj) (rw (n, reverse) at p) in cc
        | inr (original, e) ↦ after_found db args original b db' pj e (rw (e, reverse) at p)
      ]
