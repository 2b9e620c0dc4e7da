-- ===== src/Ticketing/Pricing/Cap.antt =====
-- How many tickets a membership card discounts.
use project_task_cashbook_ba.Base.{
  ℕ, zero, suc, ◌+◌, ◌-◌, ◌*◌, ◌≤◌, ◌≡◌, refl, sym, subst, Bool, true, false, ◌==◌, leb, Option,
  none, some, List, [], ◌∷◌, length, filter, take, All, All-imp₂, inl, inr, Bool-cases,
  if◌then◌else◌, arith,
}
use project_task_cashbook_ba.Base.Result.{ok, >>=-eq-ok, ok_eq}
use project_task_cashbook_ba.Decimal.{Arithmetic}
use project_task_cashbook_ba.Ticketing.Pricing.{
  DiscountType, DiscountRuleSnapshot, MembershipSnapshot, WorkingTicket, discount_for,
  eligible_tickets, tickets_of_type, other_tier, allowance, by_value,
}
use project_task_cashbook_ba.Ticketing.Pricing.Basket.{
  QuoteInput, expand, ordered_rules, sort_rules, insert_rule, rule_before, allowed,
}
use project_task_cashbook_ba.Ticketing.Pricing.Quote.{
  Priced, SaleQuote, is_membership, put, add_summary, apply_each, apply_rules, offered, quote_sale,
}
use project_task_cashbook_ba.Ticketing.Pricing.Kept.{apply_to-cases, All-eligible_tickets}
use project_task_cashbook_ba.Ticketing.Pricing.Distinct.{
  Distinct, Current, Distinct-put, Current-put, Distinct-eligible_tickets, All-Current,
  apply_each-keeps,
}
use project_task_cashbook_ba.Ticketing.Pricing.Filled.{expand-ok}

length-take {ℓ} : {A : Type ℓ} (n : ℕ) (xs : List A) → length (take n xs) ≤ n
length-take zero xs = omega arith
length-take (suc n) [] = omega arith
length-take (suc n) (x ∷ xs) = omega (arith, length-take n xs)

suc_times : (c q a b k r : ℕ) → a ≤ q → b ≤ k + a → r ≤ b + c * q → r ≤ k + suc c * q
suc_times c q a b k r h g l = grind arith

at_most_one : (c k : ℕ) → c ≤ 1 → c * k ≤ k
at_most_one zero k h = omega arith
at_most_one (suc zero) k h = omega arith
at_most_one (suc (suc c)) k h = absurd (omega arith)

All-any {ℓ} : {A : Type ℓ} (xs : List A) → All (λ x. Unit {0}) xs
All-any [] = tt
All-any (x ∷ xs) = (tt, All-any xs)

abbrev one : Bool → ℕ
one b = if b then 1 else 0

module _ {D : Type 0} ⦃d : Arithmetic D⦄ where
  abbrev pub members : List (WorkingTicket D) → ℕ
  members ts = length (filter (λ t. t.from_membership) ts)

  abbrev pub membership_rules : List (DiscountRuleSnapshot D) → ℕ
  membership_rules rules = length (filter (λ r. is_membership r.type) rules)

  members-put :
      (t t' : WorkingTicket D) (ts : List (WorkingTicket D))
      → t'.index ≡ t.index
      → Current t ts
      → members (put t' ts) + one t.from_membership ≡ members ts + one t'.from_membership
  unfolding put
  members-put t t' [] i c = absurd c
  members-put t t' (u ∷ us) i c = elim c [
    | inl same ↦
        let here : (u.index == t'.index) ≡ true = rw (same, i) (ground arith) in
        rw (here, same) (ground arith)
    | inr (ne, k) ↦
        let there : (u.index == t'.index) ≡ false = rw i ne in
        let rest = members-put t t' us i k in rw there (ground arith)
  ]

  members-apply_each :
      (rule : DiscountRuleSnapshot D) (ts : List (WorkingTicket D)) (p : Priced D)
      → Distinct ts
      → All (λ t. Current t p.0) ts
      → members (apply_each rule ts p).0 ≤ members p.0 + length ts
  unfolding apply_each
  members-apply_each rule [] p h c = omega arith
  members-apply_each rule (t ∷ ts) p (h, hs) (c, cs) =
      let Bounded : Priced D → Type 0 =
        λ q. members (apply_each rule ts q).0 ≤ members p.0 + suc (length ts) in
      elim (apply_to-cases rule t p) [
        | inl e ↦ subst Bounded (sym e) (omega (arith, members-apply_each rule ts p hs cs))
        | inr (e, f) ↦
            let t' = offered rule (discount_for rule t.gross t.discount) t in
            let changed = members-put t t' p.0 refl c in
            let rest =
              members-apply_each rule ts
                (put t' p.0, add_summary rule (discount_for rule t.gross t.discount) p.1) hs
                (All-imp₂ ts (λ u apart k. Current-put t' u p.0 apart k) h cs) in
            subst Bounded (sym f) (ground arith)
      ]

  members-apply_each_other :
      (rule : DiscountRuleSnapshot D) (ts : List (WorkingTicket D)) (p : Priced D)
      → is_membership rule.type ≡ false
      → Distinct ts
      → All (λ t. Current t p.0) ts
      → members (apply_each rule ts p).0 ≡ members p.0
  members-apply_each_other rule ts p other h c =
      apply_each-keeps (λ q. members q.0 ≡ members p.0) rule
        (λ t q k a same.
          let t' = offered rule (discount_for rule t.gross t.discount) t in
          let changed = members-put t t' q.0 refl k in
          let kept : t'.from_membership ≡ t.from_membership = rw other refl in ground arith)
        ts p h c refl

  length-allowance :
      (o : Option ℕ) (most : ℕ) (ts : List (WorkingTicket D)) (used : ℕ)
      → o ≡ some most
      → length (allowance o ts used) ≤ most - used
  length-allowance none most ts used h = cc
  length-allowance (some k) most ts used h =
      let same : k ≡ most = cc in
      elim (Bool-cases (leb k used)) [
        | inl e ↦ rw e (omega arith)
        | inr e ↦ rw e (omega (arith, length-take (k - used) (by_value ts)))
      ]

  length-tickets_of_type :
      (type : DiscountType) (rule : DiscountRuleSnapshot D) (ts : List (WorkingTicket D))
      (m : MembershipSnapshot) (most : ℕ)
      → is_membership type ≡ true
      → m.max_uses_per_day ≡ some most
      → length (tickets_of_type type rule ts (some m)) ≤ most - m.used_today
  length-tickets_of_type DiscountType.membership rule ts m most is limit =
      elim (Bool-cases (other_tier rule.membership_tier_id m.tier_id)) [
        | inl e ↦ rw e (omega arith)
        | inr e ↦ rw e (length-allowance m.max_uses_per_day most _ m.used_today limit)
      ]
  length-tickets_of_type _ rule ts m most is limit = cc

  length-eligible_tickets :
      (rule : DiscountRuleSnapshot D) (ts : List (WorkingTicket D)) (m : MembershipSnapshot)
      (most : ℕ)
      → is_membership rule.type ≡ true
      → m.max_uses_per_day ≡ some most
      → length (eligible_tickets rule ts (some m)) ≤ most - m.used_today
  unfolding eligible_tickets
  length-eligible_tickets rule ts m most is limit =
      length-tickets_of_type rule.type rule ts m most is limit

  members-apply_rules :
      (m : MembershipSnapshot) (most : ℕ) (rules : List (DiscountRuleSnapshot D)) (p : Priced D)
      → m.max_uses_per_day ≡ some most
      → Distinct p.0
      → members (apply_rules (some m) rules p).0
        ≤ members p.0 + membership_rules rules * (most - m.used_today)
  unfolding apply_rules
  members-apply_rules m most [] p limit h = omega arith
  members-apply_rules m most (rule ∷ rules) p limit h =
      let ts = eligible_tickets rule p.0 (some m) in
      let distinct = Distinct-eligible_tickets rule p.0 (some m) h in
      let current =
        All-eligible_tickets (λ t. Current t p.0) rule p.0 (some m) (All-Current p.0 h) in
      let after =
        apply_each-keeps (λ q. Distinct q.0) rule (λ t q c a k. Distinct-put _ q.0 k) ts p distinct
          current h in
      let rest = members-apply_rules m most rules (apply_each rule ts p) limit after in
      elim (Bool-cases (is_membership rule.type)) [
        | inl e ↦
            let few = length-eligible_tickets rule p.0 m most e limit in
            let more = members-apply_each rule ts p distinct current in
            rw e (
              suc_times (membership_rules rules) (most - m.used_today) _ _ (members p.0) _ few more
                rest)
        | inr e ↦
            let same = members-apply_each_other rule ts p e distinct current in
            rw e (omega (arith, same, rest))
      ]

  members-none :
      (ts : List (WorkingTicket D)) → All (λ t. t.from_membership ≡ false) ts → members ts ≡ 0
  members-none [] h = refl
  members-none (t ∷ ts) (h, hs) = rw h (members-none ts hs)

  membership_rules-insert_rule :
      (r : DiscountRuleSnapshot D) (rs : List (DiscountRuleSnapshot D))
      → membership_rules (insert_rule r rs) ≡ membership_rules (r ∷ rs)
  unfolding insert_rule
  membership_rules-insert_rule r [] = refl
  membership_rules-insert_rule r (s ∷ ss) =
      let rest = membership_rules-insert_rule r ss in
      elim (Bool-cases (rule_before r s)) [ inl e ↦ rw e refl | inr e ↦ rw e (ground arith) ]

  membership_rules-sort_rules :
      (rs : List (DiscountRuleSnapshot D)) → membership_rules (sort_rules rs) ≡ membership_rules rs
  unfolding sort_rules
  membership_rules-sort_rules [] = refl
  membership_rules-sort_rules (r ∷ rs) =
      let one_in = membership_rules-insert_rule r (sort_rules rs) in
      let rest = membership_rules-sort_rules rs in ground arith

  membership_rules-filter :
      (p : DiscountRuleSnapshot D → Bool) (rs : List (DiscountRuleSnapshot D))
      → membership_rules (filter p rs) ≤ membership_rules rs
  membership_rules-filter p [] = omega arith
  membership_rules-filter p (r ∷ rs) = let rest = membership_rules-filter p rs in ground arith

  -- With one MEMBERSHIP rule at most, a sale discounts no more tickets through a card than its daily
  -- limit leaves for the day.
  pub quote_sale_cap :
      (input : QuoteInput D) (q : SaleQuote D) (m : MembershipSnapshot) (most : ℕ)
      → membership_rules input.rules ≤ 1
      → input.membership ≡ some m
      → m.max_uses_per_day ≡ some most
      → quote_sale input ≡ ok q
      → q.membership_ticket_count ≤ most - m.used_today
  unfolding quote_sale
  quote_sale_cap input q m most single card limit h =
      let (tickets, e, r) = >>=-eq-ok (expand input.types input.lines 0 []) _ h in
      let (known, numbered, fresh, count) =
        expand-ok (λ t. Unit {0}) (λ t. t.from_membership ≡ false) (length input.lines)
          (λ type line i u l. refl) input.types input.lines 0 [] tickets (All-any input.types)
          (omega arith) (tt, tt) tt e in
      let rules = ordered_rules input.manual_rule_ids input.rules in
      let same = ok_eq _ q r in
      subst (λ (k : SaleQuote D). k.membership_ticket_count ≤ most - m.used_today) same
        (subst (λ k. members (apply_rules k rules (tickets, [])).0 ≤ most - m.used_today) (sym card)
          (omega (
            arith,
            members-apply_rules m most rules (tickets, []) limit numbered.0,
            members-none tickets fresh,
            at_most_one (membership_rules rules) (most - m.used_today) (
                omega (
                  arith,
                  membership_rules-sort_rules (filter (allowed input.manual_rule_ids) input.rules),
                  membership_rules-filter (allowed input.manual_rule_ids) input.rules,
                )),
          )))
