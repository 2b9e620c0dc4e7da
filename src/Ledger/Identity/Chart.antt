-- ===== src/Ledger/Identity/Chart.antt =====
-- How the sums over journal lines depend on the chart of accounts.
use project_task_cashbook_ba.Base.{
  ℕ, ◌+◌, ◌≡◌, refl, sym, ap, ap₂, ◌∙◌, ◌==◌, true, false, not, ◌&&◌, ◌||◌, Option, List, [], ◌∷◌,
  inl, inr, ◌⊎◌, subst, arith, Bool-cases, All,
}
use project_task_cashbook_ba.Base.Result.{ok, err, >>=-eq-ok, ok_pair}
use project_task_cashbook_ba.Decimal.{Arithmetic}
use project_task_cashbook_ba.Finance.Money.{to_decimal}
use project_task_cashbook_ba.Ledger.Types.{ResolvedLine, LedgerAccountMeta, LegDraft}
use project_task_cashbook_ba.Ledger.Posting.{
  CashbookField, Journal, ResolvedDraft, add_line, add_lines, resolve_legs, mark_reversed, line_of,
}
use project_task_cashbook_ba.Ledger.Posting.Resolver.{Resolver, IsStable, invalid_leg}
use project_task_cashbook_ba.Ledger.Identity.Sums.{
  lines_sum, books_sum, wallets_sum, Known, worth_if,
}

module _ {C : Type 0} ⦃r : Resolver C⦄ where
  -- The accounts of one chart are in the other, with their metadata.
  abbrev pub Extends : C → C → Type 0
  Extends c c' = (a : ℕ) (m : LedgerAccountMeta) → r.meta_for c a ≡ ok m → r.meta_for c' a ≡ ok m

module _ {C : Type 0} {D : Type 0} ⦃r : Resolver C⦄ ⦃d : Arithmetic D⦄ where
  pub lines_sum-grow :
      (c c' : C) (g : LedgerAccountMeta → ResolvedLine D → D) (ls : List (ResolvedLine D))
      → Extends c c'
      → Known c ls
      → lines_sum c' g ls ≡ lines_sum c g ls
  lines_sum-grow c c' g [] ext h = refl
  lines_sum-grow c c' g (l ∷ ls) ext ((m, p), hs) =
      ap₂ d.add (ap (worth_if (λ n. g n l)) (ext _ m p ∙ sym p)) (lines_sum-grow c c' g ls ext hs)

  pub Known-grow : (c c' : C) (ls : List (ResolvedLine D)) → Extends c c' → Known c ls → Known c' ls
  Known-grow c c' [] ext h = tt
  Known-grow c c' (l ∷ ls) ext ((m, p), hs) = ((m, ext _ m p), Known-grow c c' ls ext hs)

  abbrev pub KnownAll : C → List (Journal D) → Type 0
  KnownAll c = All (λ j. Known c j.lines)

  pub KnownAll-grow :
      (c c' : C) (js : List (Journal D)) → Extends c c' → KnownAll c js → KnownAll c' js
  KnownAll-grow c c' [] ext h = tt
  KnownAll-grow c c' (j ∷ js) ext (h, hs) =
      (Known-grow c c' j.lines ext h, KnownAll-grow c c' js ext hs)

  pub books_sum-grow :
      (c c' : C) (f : CashbookField) (k : ℕ) (js : List (Journal D))
      → Extends c c'
      → KnownAll c js
      → books_sum c' f k js ≡ books_sum c f k js
  books_sum-grow c c' f k [] ext h = refl
  books_sum-grow c c' f k (j ∷ js) ext (h, hs) =
      ap₂ d.add (lines_sum-grow c c' _ j.lines ext h) (books_sum-grow c c' f k js ext hs)

  pub wallets_sum-grow :
      (c c' : C) (k : ℕ) (js : List (Journal D))
      → Extends c c'
      → KnownAll c js
      → wallets_sum c' k js ≡ wallets_sum c k js
  wallets_sum-grow c c' k [] ext h = refl
  wallets_sum-grow c c' k (j ∷ js) ext (h, hs) =
      ap₂ d.add (lines_sum-grow c c' _ j.lines ext h) (wallets_sum-grow c c' k js ext hs)

  -- Deriving the deltas looks every account up.
  pub add_lines-Known :
      (c : C) (book : Option ℕ) (ls : List (ResolvedLine D)) (acc res : ResolvedDraft D)
      → add_lines c book ls acc ≡ ok res
      → Known c ls × (res.lines ≡ acc.lines)
  unfolding add_lines
  add_lines-Known c book [] acc res h = (tt, ground arith)
  add_lines-Known c book (l ∷ ls) acc res h =
      let (m, p, q) = >>=-eq-ok (r.meta_for c l.ledger_account_id) _ h in
      let (hs, e) = add_lines-Known c book ls (add_line book m l acc) res q in (((m, p), hs), e)

  -- Resolving the first leg of a list: it is skipped, or it is one-sided and becomes a line.
  pub resolve_legs-cons :
      (c : C) (workspace currency n : ℕ) (leg : LegDraft D) (legs : List (LegDraft D)) (c' : C)
      (ls : List (ResolvedLine D))
      → resolve_legs c workspace currency n (leg ∷ legs) ≡ ok (c', ls)
      → ((d.is_zero (to_decimal leg.debit) && d.is_zero (to_decimal leg.credit) ≡ true)
          × (resolve_legs c workspace currency n legs ≡ ok (c', ls)))
        ⊎ (not (d.is_zero (to_decimal leg.debit)) && not (d.is_zero (to_decimal leg.credit))
            ≡ false)
          × (d.is_negative (to_decimal leg.debit) || d.is_negative (to_decimal leg.credit) ≡ false)
          × (c1 : C) × (account : ℕ) × (ls' : List (ResolvedLine D)) × (r.resolve c workspace
                currency leg.ref
              ≡ ok (c1, account))
          × (resolve_legs c1 workspace currency (n + 1) legs ≡ ok (c', ls'))
          × (ls ≡ line_of n account (to_decimal leg.debit) (to_decimal leg.credit) leg ∷ ls')
  unfolding resolve_legs
  resolve_legs-cons c w y n leg legs c' ls h =
      let debit = to_decimal leg.debit in
      let credit = to_decimal leg.credit in
      elim (Bool-cases (d.is_zero debit && d.is_zero credit)) [
        | inl z ↦ inl (z, rw z at h)
        | inr z ↦ elim (Bool-cases (not (d.is_zero debit) && not (d.is_zero credit))) [
          | inl b ↦ let failed : err invalid_leg ≡ ok (c', ls) = rw (z, b) at h in cc
          | inr b ↦ elim (Bool-cases (d.is_negative debit || d.is_negative credit)) [
            | inl g ↦ let failed : err invalid_leg ≡ ok (c', ls) = rw (z, b, g) at h in cc
            | inr g ↦
                let ((c1, account), p, q) =
                  >>=-eq-ok (r.resolve c w y leg.ref) _ (rw (z, b, g) at h) in
                let ((c2, ls'), p', q') = >>=-eq-ok (resolve_legs c1 w y (n + 1) legs) _ q in
                let (e, f) = ok_pair c2 c' _ ls q' in
                inr (
                  b,
                  g,
                  c1,
                  account,
                  ls',
                  p,
                  subst (λ k. resolve_legs c1 w y (n + 1) legs ≡ ok (k, ls')) e p',
                  sym f,
                )
          ]
        ]
      ]

  -- Resolving the legs only adds accounts.
  pub resolve_legs-Extends :
      (s : IsStable C) (c : C) (workspace currency n : ℕ) (legs : List (LegDraft D)) (c' : C)
      (ls : List (ResolvedLine D))
      → resolve_legs c workspace currency n legs ≡ ok (c', ls)
      → Extends c c'
  unfolding resolve_legs
  resolve_legs-Extends s c w y n [] c' ls h a m p =
      let e : c ≡ c' = cc in subst (λ k. r.meta_for k a ≡ ok m) e p
  resolve_legs-Extends s c w y n (leg ∷ legs) c' ls h a m p =
      elim (resolve_legs-cons c w y n leg legs c' ls h) [
        | inl (_, q) ↦ resolve_legs-Extends s c w y n legs c' ls q a m p
        | inr (_, _, c1, account, ls', q, q', _) ↦
            resolve_legs-Extends s c1 w y (n + 1) legs c' ls' q' a m
              (s.meta_for-resolve c c1 w y leg.ref a account m q p)
      ]

  pub KnownAll-mark_reversed :
      (c : C) (id : ℕ) (js : List (Journal D)) → KnownAll c js → KnownAll c (mark_reversed id js)
  KnownAll-mark_reversed c id [] h = tt
  KnownAll-mark_reversed c id (j ∷ js) (h, hs) = elim (Bool-cases (j.id == id)) [
    | inl e ↦ rw e (h, KnownAll-mark_reversed c id js hs)
    | inr e ↦ rw e (h, KnownAll-mark_reversed c id js hs)
  ]

  pub books_sum-mark_reversed :
      (c : C) (f : CashbookField) (k id : ℕ) (js : List (Journal D))
      → books_sum c f k (mark_reversed id js) ≡ books_sum c f k js
  books_sum-mark_reversed c f k id [] = refl
  books_sum-mark_reversed c f k id (j ∷ js) = elim (Bool-cases (j.id == id)) [
    | inl e ↦ rw e (ap (d.add _) (books_sum-mark_reversed c f k id js))
    | inr e ↦ rw e (ap (d.add _) (books_sum-mark_reversed c f k id js))
  ]

  pub wallets_sum-mark_reversed :
      (c : C) (k id : ℕ) (js : List (Journal D))
      → wallets_sum c k (mark_reversed id js) ≡ wallets_sum c k js
  wallets_sum-mark_reversed c k id [] = refl
  wallets_sum-mark_reversed c k id (j ∷ js) = elim (Bool-cases (j.id == id)) [
    | inl e ↦ rw e (ap (d.add _) (wallets_sum-mark_reversed c k id js))
    | inr e ↦ rw e (ap (d.add _) (wallets_sum-mark_reversed c k id js))
  ]
