-- ===== src/Ticketing/Pricing/Sums.antt =====
-- A quote adds up.
use project_task_cashbook_ba.Base.{
  ℕ, suc, ◌<◌, ◌≡◌, refl, sym, ap, ap₂, ◌∙◌, false, ◌==◌, List, [], ◌∷◌, length, All, All-imp, inl,
  inr, Bool-cases, arith,
}
use project_task_cashbook_ba.Base.Result.{ok, >>=-eq-ok, ok_eq}
use project_task_cashbook_ba.Decimal.{Arithmetic, IsExact}
use project_task_cashbook_ba.Decimal.Laws.{
  Le, IsNonneg, add_parts, sub_parts, number_zero_parts, eq_of_units,
}
use project_task_cashbook_ba.Finance.Money.{zero_amount}
use project_task_cashbook_ba.Ticketing.Pricing.{
  DiscountRuleSnapshot, WorkingTicket, raw_discount, discount_for,
}
use project_task_cashbook_ba.Ticketing.Pricing.Basket.{QuoteInput, expand, ordered_rules}
use project_task_cashbook_ba.Ticketing.Pricing.Quote.{
  Priced, AppliedRuleSummary, SaleQuote, put, add_summary, apply_rules, offered, roll_up,
  quote_sale,
}
use project_task_cashbook_ba.Ticketing.Pricing.Kept.{All-apply_rules}
use project_task_cashbook_ba.Ticketing.Pricing.Distinct.{apply_rules-keeps}
use project_task_cashbook_ba.Ticketing.Pricing.Filled.{Known, quantities, expand-ok}
use project_task_cashbook_ba.Ticketing.Pricing.Totals.{total, total-put}

module _ {D : Type 0} ⦃d : Arithmetic D⦄ (x : IsExact D) where
  -- Something that is taken off is above zero and leaves the price at zero or more.
  discount_for-Le :
      (rule : DiscountRuleSnapshot D) (gross taken : D)
      → d.less_than_or_equal_to (discount_for rule gross taken) zero_amount ≡ false
      → Le x zero_amount (discount_for rule gross taken)
        × Le x (d.add taken (discount_for rule gross taken)) gross
  unfolding discount_for
  discount_for-Le rule gross taken h =
      let remaining = d.sub gross taken in
      let capped = d.round (raw_discount rule.value_type gross rule.value) in
      ground (
        arith,
        x.less_than_or_equal_to-units remaining zero_amount,
        x.less_than_or_equal_to-units zero_amount zero_amount,
        x.less_than_or_equal_to-units capped zero_amount,
        x.greater_than-units capped remaining,
        sub_parts x gross taken,
        add_parts x taken remaining,
        add_parts x taken capped,
        add_parts x taken zero_amount,
        number_zero_parts x,
      )

  -- The discount is between zero and the price, and the line is one of the first n.
  abbrev pub Good : ℕ → WorkingTicket D → Type 0
  Good n t = Le x zero_amount t.discount × Le x t.discount t.gross × (t.line_index < n)

  Good-offered :
      (n : ℕ) (rule : DiscountRuleSnapshot D) (t : WorkingTicket D)
      → d.less_than_or_equal_to (discount_for rule t.gross t.discount) zero_amount ≡ false
      → Good n t
      → Good n (offered rule (discount_for rule t.gross t.discount) t)
  Good-offered n rule t h (lo, hi, line) =
      let amount = discount_for rule t.gross t.discount in
      let (some_off, rest) = discount_for-Le rule t.gross t.discount h in
      (omega (arith, add_parts x t.discount amount, number_zero_parts x), rest, line)

  length-put : (t : WorkingTicket D) (ts : List (WorkingTicket D)) → length (put t ts) ≡ length ts
  unfolding put
  length-put t [] = refl
  length-put t (u ∷ us) = elim (Bool-cases (u.index == t.index)) [
    | inl e ↦ rw e refl
    | inr e ↦ rw e (ap suc (length-put t us))
  ]

  total-add_summary :
      (rule : DiscountRuleSnapshot D) (a : D) (ss : List (AppliedRuleSummary D))
      → total (λ s. s.discount_amount) (add_summary rule a ss)
        ≡ d.add (total (λ s. s.discount_amount) ss) a
  unfolding add_summary
  total-add_summary rule a [] = eq_of_units x _ _ (
      omega (
        arith,
        add_parts x (d.add zero_amount a) zero_amount,
        add_parts x zero_amount a,
        number_zero_parts x,
      ))
  total-add_summary rule a (s ∷ ss) =
      let rest = total (λ (r : AppliedRuleSummary D). r.discount_amount) ss in
      elim (Bool-cases (s.rule_id == rule.id)) [
        | inl e ↦ rw e (
            eq_of_units x _ _ (
              omega (
                arith,
                add_parts x (d.add s.discount_amount a) rest,
                add_parts x s.discount_amount a,
                add_parts x (d.add s.discount_amount rest) a,
                add_parts x s.discount_amount rest,
              )))
        | inr e ↦
            rw (e, total-add_summary rule a ss)
              (eq_of_units x _ _ (
                omega (
                  arith,
                  add_parts x s.discount_amount (d.add rest a),
                  add_parts x rest a,
                  add_parts x (d.add s.discount_amount rest) a,
                  add_parts x s.discount_amount rest,
                )))
      ]

  total-zero {ℓ} :
      {A : Type ℓ} (f : A → D) (xs : List A)
      → All (λ a. f a ≡ zero_amount) xs
      → total f xs ≡ zero_amount
  total-zero f [] h = refl
  total-zero f (a ∷ bs) (h, hs) =
      ap₂ d.add h (total-zero f bs hs)
      ∙ (eq_of_units x _ _
          (omega (arith, add_parts x zero_amount zero_amount, number_zero_parts x)))

  -- What the tickets and the summaries of a quote are made of.
  pub record IsPriced (input : QuoteInput D) (p : Priced D) : Type 0 where
    pub known : Known input.types input.lines
    pub good : All (Good (length input.lines)) p.0
    pub count : length p.0 ≡ quantities input.lines
    pub explained : total (λ t. t.discount) p.0 ≡ total (λ s. s.discount_amount) p.1

  pub quote_sale-ok :
      (input : QuoteInput D) (q : SaleQuote D)
      → All (λ t. IsNonneg x t.price) input.types
      → quote_sale input ≡ ok q
      → (p : Priced D) × (roll_up input p ≡ q) × IsPriced input p
  unfolding quote_sale
  quote_sale-ok input q prices h =
      let (tickets, e, r) = >>=-eq-ok (expand input.types input.lines 0 []) _ h in
      let n = length input.lines in
      let (known, numbered, good, count) =
        expand-ok (λ t. IsNonneg x t.price) (λ t. Good n t × (t.discount ≡ zero_amount)) n
          (λ type line i nonneg l.
            ((omega (arith, number_zero_parts x), omega (arith, number_zero_parts x), l), refl))
          input.types input.lines 0 [] tickets prices (omega arith) (tt, tt) tt e in
      let rules = ordered_rules input.manual_rule_ids input.rules in
      let p = apply_rules input.membership rules (tickets, []) in
      let (same_count, explained) =
        apply_rules-keeps
          (λ q.
            (length q.0 ≡ length tickets)
            × (total (λ t. t.discount) q.0 ≡ total (λ s. s.discount_amount) q.1))
          input.membership
          (λ rule t q c a (i, j).
            let amount = discount_for rule t.gross t.discount in
            (
              length-put (offered rule amount t) q.0 ∙ i,
              total-put x (λ u. u.discount) t (offered rule amount t) amount q.0 refl refl c
                  ∙ ap (λ k. d.add k amount) j
                  ∙ sym (total-add_summary rule amount q.1),
            ))
          rules (tickets, []) numbered.0
          (refl, total-zero (λ t. t.discount) tickets (All-imp tickets (λ t g. g.1) good)) in
      (
        p,
        ok_eq (roll_up input p) q r,
        record {
          known = known;
          good =
              All-apply_rules (Good n) (Good-offered n) input.membership rules (tickets, [])
                (All-imp tickets (λ t g. g.0) good);
          count = omega (arith, same_count, count);
          explained = explained;
        },
      )
