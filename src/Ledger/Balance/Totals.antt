-- ===== src/Ledger/Balance/Totals.antt =====
-- The totals of a resolved draft, and `assertBalanced` on the journal of an event.
use project_task_cashbook_ba.Base.{
  ℕ, ◌+◌, ◌≡◌, refl, sym, ap, ◌∙◌, ==_refl, true, Option, List, [], ◌∷◌, All, inl, inr, ◌⊎◌,
}
use project_task_cashbook_ba.Base.Result.{ok, err, >>=-eq-ok}
use project_task_cashbook_ba.Decimal.{Arithmetic, IsExact}
use project_task_cashbook_ba.Finance.Money.{zero_amount, to_decimal}
use project_task_cashbook_ba.Ledger.Types.{LegDraft, JournalDraft, ResolvedLine}
use project_task_cashbook_ba.Ledger.Posting.{
  Db, ResolvedDraft, line_of, add_line, add_lines, resolve_legs, resolve_draft, deltas_from_lines,
  assert_balanced,
}
use project_task_cashbook_ba.Ledger.Posting.Resolver.{Resolver, empty_journal}
use project_task_cashbook_ba.Ledger.Identity.Books.{zero_add, add_zero, add_assoc, zero_of_is_zero}
use project_task_cashbook_ba.Ledger.Identity.Chart.{resolve_legs-cons}
use project_task_cashbook_ba.Ledger.Effect.Moves.{resolve_draft-legs}
use project_task_cashbook_ba.Ledger.Effect.{both_true}
use project_task_cashbook_ba.Ledger.Balance.{Event, event_journal, leg_debits, leg_credits}
use project_task_cashbook_ba.Ledger.Balance.Even.{event_even}

module _ {D : Type 0} ⦃d : Arithmetic D⦄ where
  abbrev line_debits : List (ResolvedLine D) → D
  line_debits [] = zero_amount
  line_debits (l ∷ ls) = d.add l.debit (line_debits ls)

  abbrev line_credits : List (ResolvedLine D) → D
  line_credits [] = zero_amount
  line_credits (l ∷ ls) = d.add l.credit (line_credits ls)

  -- Legs with nothing on either side.
  abbrev pub AllZero : List (LegDraft D) → Type 0
  AllZero = All λ leg. (to_decimal leg.debit ≡ zero_amount) × (to_decimal leg.credit ≡ zero_amount)

  lines_cases :
      (ls : List (ResolvedLine D))
      → (ls ≡ []) ⊎ ((l : ResolvedLine D) × (ls' : List (ResolvedLine D)) × (ls ≡ l ∷ ls'))
  lines_cases [] = inl refl
  lines_cases (l ∷ ls) = inr (l, ls, refl)

  module _ (x : IsExact D) where
    equal_totals : (a b : D) → a ≡ b → d.equals a b ≡ true
    equal_totals a b e = x.equals-units a b ∙ rw e (==_refl _)

    checked :
        (res : ResolvedDraft D)
        → res.total_debit ≡ res.total_credit
        → (assert_balanced res ≡ ok tt)
          ⊎ ((res.lines ≡ []) × (assert_balanced res ≡ err empty_journal))
    unfolding assert_balanced
    checked res even =
        let pass = equal_totals res.total_debit res.total_credit even in
        elim (lines_cases res.lines) [
          | inl e ↦ inr (e, rw (e, assert_balanced))
          | inr (l, ls, e) ↦ inl (rw (e, pass, assert_balanced))
        ]

    module _ {C : Type 0} ⦃r : Resolver C⦄ where
      add_lines-totals :
          (c : C) (book : Option ℕ) (ls : List (ResolvedLine D)) (acc res : ResolvedDraft D)
          → add_lines c book ls acc ≡ ok res
          → (res.total_debit ≡ d.add acc.total_debit (line_debits ls))
            × (res.total_credit ≡ d.add acc.total_credit (line_credits ls))
      unfolding add_lines add_line
      add_lines-totals c book [] acc res h =
          let same : acc ≡ res = cc in
          (
            ap (λ t. t.total_debit) (sym same) ∙ sym (add_zero x _),
            ap (λ t. t.total_credit) (sym same) ∙ sym (add_zero x _),
          )
      add_lines-totals c book (l ∷ ls) acc res h =
          let (m, p, q) = >>=-eq-ok (r.meta_for c l.ledger_account_id) _ h in
          let (e, f) = add_lines-totals c book ls (add_line book m l acc) res q in
          (e ∙ add_assoc x _ _ _, f ∙ add_assoc x _ _ _)

      resolve_legs-totals :
          (c : C) (w y n : ℕ) (legs : List (LegDraft D)) (c' : C) (ls : List (ResolvedLine D))
          → resolve_legs c w y n legs ≡ ok (c', ls)
          → (line_debits ls ≡ leg_debits legs) × (line_credits ls ≡ leg_credits legs)
      unfolding resolve_legs
      resolve_legs-totals c w y n [] c' ls h = let e : ls ≡ [] = cc in (rw e, rw e)
      resolve_legs-totals c w y n (leg ∷ legs) c' ls h =
          elim (resolve_legs-cons c w y n leg legs c' ls h) [
            | inl (z, q) ↦
                let (zd, zc) = both_true _ _ z in
                let (e, f) = resolve_legs-totals c w y n legs c' ls q in
                (
                  e
                      ∙ sym (
                          ap (λ t. d.add t (leg_debits legs)) (zero_of_is_zero x _ zd)
                          ∙ zero_add x _),
                  f
                      ∙ sym (
                          ap (λ t. d.add t (leg_credits legs)) (zero_of_is_zero x _ zc)
                          ∙ zero_add x _),
                )
            | inr (_, _, c1, account, ls', q, q', e) ↦
                let (f, g) = resolve_legs-totals c1 w y (n + 1) legs c' ls' q' in
                (ap line_debits e ∙ ap (d.add _) f, ap line_credits e ∙ ap (d.add _) g)
          ]

      -- A leg is left out only when it is zero on both sides.
      resolve_legs-AllZero :
          (c : C) (w y n : ℕ) (legs : List (LegDraft D)) (c' : C) (ls : List (ResolvedLine D))
          → resolve_legs c w y n legs ≡ ok (c', ls)
          → ls ≡ []
          → AllZero legs
      resolve_legs-AllZero c w y n [] c' ls h e = tt
      resolve_legs-AllZero c w y n (leg ∷ legs) c' ls h e =
          elim (resolve_legs-cons c w y n leg legs c' ls h) [
            | inl (z, q) ↦
                let (zd, zc) = both_true _ _ z in
                (
                  (zero_of_is_zero x _ zd, zero_of_is_zero x _ zc),
                  resolve_legs-AllZero c w y n legs c' ls q e,
                )
            | inr (_, _, c1, account, ls', q, q', f) ↦
                let line = line_of n account (to_decimal leg.debit) (to_decimal leg.credit) leg in
                let none_there : [] ≡ line ∷ ls' = sym e ∙ f in cc
          ]

      add_lines-lines :
          (c : C) (book : Option ℕ) (ls : List (ResolvedLine D)) (acc res : ResolvedDraft D)
          → add_lines c book ls acc ≡ ok res
          → res.lines ≡ acc.lines
      unfolding add_lines add_line
      add_lines-lines c book [] acc res h =
          let same : acc ≡ res = cc in ap (λ t. t.lines) (sym same)
      add_lines-lines c book (l ∷ ls) acc res h =
          let (m, p, q) = >>=-eq-ok (r.meta_for c l.ledger_account_id) _ h in
          add_lines-lines c book ls (add_line book m l acc) res q

      resolve_draft-AllZero :
          (db : Db C D) (draft : JournalDraft D) (c : C) (res : ResolvedDraft D)
          → resolve_draft db.chart draft ≡ ok (c, res)
          → res.lines ≡ []
          → AllZero draft.legs
      unfolding deltas_from_lines
      resolve_draft-AllZero db draft c res h e =
          let (ls, p, q) = resolve_draft-legs x db draft c res h in
          resolve_legs-AllZero db.chart _ _ 1 draft.legs c ls p
            (sym (add_lines-lines c _ ls _ res q) ∙ e)

      -- The totals of a resolved draft are those of its legs.
      resolve_draft-totals :
          (db : Db C D) (draft : JournalDraft D) (c : C) (res : ResolvedDraft D)
          → resolve_draft db.chart draft ≡ ok (c, res)
          → (res.total_debit ≡ leg_debits draft.legs) × (res.total_credit ≡ leg_credits draft.legs)
      unfolding deltas_from_lines
      resolve_draft-totals db draft c res h =
          let (ls, p, q) = resolve_draft-legs x db draft c res h in
          let (e, f) = add_lines-totals c _ ls _ res q in
          let (g, k) = resolve_legs-totals db.chart _ _ 1 draft.legs c ls p in
          (e ∙ zero_add x _ ∙ g, f ∙ zero_add x _ ∙ k)

      -- Whatever the amounts are, if the journal of an event resolves then its total debits and
      -- credits are equal, and `assertBalanced` passes it, or all its legs are zero on both sides
      -- and it is refused as empty.
      pub event_balanced :
          (db : Db C D) (event : Event D) (c : C) (res : ResolvedDraft D)
          → resolve_draft db.chart (event_journal event) ≡ ok (c, res)
          → (res.total_debit ≡ res.total_credit)
            × ((assert_balanced res ≡ ok tt)
                ⊎ (AllZero (event_journal event).legs × (assert_balanced res ≡ err empty_journal)))
      unfolding assert_balanced
      event_balanced db event c res h =
          let (e, f) = resolve_draft-totals db (event_journal event) c res h in
          let even = e ∙ event_even x event ∙ sym f in
          (
            even,
            elim (checked res even) [
              | inl pass ↦ inl pass
              | inr (empty, refused) ↦
                  inr (resolve_draft-AllZero db (event_journal event) c res h empty, refused)
            ],
          )
