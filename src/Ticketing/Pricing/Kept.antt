-- ===== src/Ticketing/Pricing/Kept.antt =====
-- What holds of every ticket, and how many there are, while offers are applied.
use project_task_cashbook_ba.Base.{
  ℕ, zero, suc, ◌≡◌, refl, Bool, false, ◌==◌, Option, none, some, List, [], ◌∷◌, length, filter,
  take, All, inl, inr, ◌⊎◌, Bool-cases, leb,
}
use project_task_cashbook_ba.Base.Int.{pos, ltb_ℤ}
use project_task_cashbook_ba.Decimal.{Arithmetic}
use project_task_cashbook_ba.Finance.Money.{zero_amount}
use project_task_cashbook_ba.Ticketing.Pricing.{
  DiscountType, DiscountRuleSnapshot, MembershipSnapshot, WorkingTicket, discount_for, not_after,
  insert_by_value, by_value, eligible_tickets, allowance, tickets_of_type, num, other_tier,
  is_minor, covers,
}
use project_task_cashbook_ba.Ticketing.Pricing.Quote.{
  Priced, offered, put, add_summary, apply_to, apply_each, apply_rules,
}

module _ {ℓ κ} {A : Type ℓ} (P : A → Type κ) where
  pub All-filter : (p : A → Bool) (xs : List A) → All P xs → All P (filter p xs)
  All-filter p [] h = tt
  All-filter p (x ∷ xs) (h, hs) = elim (Bool-cases (p x)) [
    | inl e ↦ rw e (h, All-filter p xs hs)
    | inr e ↦ rw e (All-filter p xs hs)
  ]

  pub All-take : (n : ℕ) (xs : List A) → All P xs → All P (take n xs)
  All-take zero xs h = tt
  All-take (suc n) [] h = tt
  All-take (suc n) (x ∷ xs) (h, hs) = (h, All-take n xs hs)

module _ {D : Type 0} ⦃d : Arithmetic D⦄ where
  -- A ticket that an offer is applied to keeps its price, or the offer changes it and is counted.
  pub apply_to-cases :
      (rule : DiscountRuleSnapshot D) (t : WorkingTicket D) (p : Priced D)
      → let amount = discount_for rule t.gross t.discount in
        (apply_to rule t p ≡ p)
        ⊎ (d.less_than_or_equal_to amount zero_amount ≡ false)
          × (apply_to rule t p ≡ (put (offered rule amount t) p.0, add_summary rule amount p.1))
  unfolding apply_to
  apply_to-cases rule t (tickets, ss) =
      elim (Bool-cases
        (d.less_than_or_equal_to (discount_for rule t.gross t.discount) zero_amount)) [
          | inl e ↦ inl (rw e refl)
          | inr e ↦ inr (e, rw e refl)
        ]

module _ {κ} {D : Type 0} ⦃d : Arithmetic D⦄ (P : WorkingTicket D → Type κ) where
  pub All-insert_by_value :
      (t : WorkingTicket D) (ts : List (WorkingTicket D))
      → P t
      → All P ts
      → All P (insert_by_value t ts)
  unfolding insert_by_value
  All-insert_by_value t [] h hs = (h, tt)
  All-insert_by_value t (u ∷ us) h (k, ks) = elim (Bool-cases (not_after t u)) [
    | inl e ↦ rw e (h, (k, ks))
    | inr e ↦ rw e (k, All-insert_by_value t us h ks)
  ]

  pub All-by_value : (ts : List (WorkingTicket D)) → All P ts → All P (by_value ts)
  unfolding by_value
  All-by_value [] h = tt
  All-by_value (t ∷ ts) (h, hs) = All-insert_by_value t (by_value ts) h (All-by_value ts hs)

  All-allowance :
      (most : Option ℕ) (ts : List (WorkingTicket D)) (used : ℕ)
      → All P ts
      → All P (allowance most ts used)
  All-allowance none ts used h = All-by_value ts h
  All-allowance (some most) ts used h = elim (Bool-cases (leb most used)) [
    | inl e ↦ rw e tt
    | inr e ↦ rw e (All-take P _ _ (All-by_value ts h))
  ]

  All-tickets_of_type :
      (type : DiscountType) (rule : DiscountRuleSnapshot D) (ts : List (WorkingTicket D))
      (m : Option MembershipSnapshot)
      → All P ts
      → All P (tickets_of_type type rule ts m)
  All-tickets_of_type DiscountType.guardian_comp rule ts m h =
      elim (Bool-cases
        (ltb_ℤ (pos (length (filter is_minor ts))) (num rule.config.min_minors (pos 2)))) [
          | inl e ↦ rw e tt
          | inr e ↦ rw e (All-take P _ _ (All-by_value _ (All-filter P _ ts h)))
        ]
  All-tickets_of_type DiscountType.membership rule ts none h = tt
  All-tickets_of_type DiscountType.membership rule ts (some m) h =
      elim (Bool-cases (other_tier rule.membership_tier_id m.tier_id)) [
        | inl e ↦ rw e tt
        | inr e ↦ rw e (All-allowance m.max_uses_per_day _ m.used_today (All-filter P _ ts h))
      ]
  All-tickets_of_type DiscountType.group rule ts m h =
      elim (Bool-cases (
        ltb_ℤ
          (pos (
            length
              (filter (λ (t : WorkingTicket D). covers rule.config.ticket_type_ids t.type.id) ts)))
          (num rule.config.min_quantity (pos 2)))) [
            | inl e ↦ rw e tt
            | inr e ↦ rw e (All-by_value _ (All-filter P _ _ (All-filter P _ ts h)))
          ]
  All-tickets_of_type DiscountType.manual rule ts m h = All-by_value _ (All-filter P _ ts h)

  pub All-eligible_tickets :
      (rule : DiscountRuleSnapshot D) (ts : List (WorkingTicket D)) (m : Option MembershipSnapshot)
      → All P ts
      → All P (eligible_tickets rule ts m)
  unfolding eligible_tickets
  All-eligible_tickets rule ts m h = All-tickets_of_type rule.type rule ts m h

  pub All-put :
      (t : WorkingTicket D) (ts : List (WorkingTicket D)) → P t → All P ts → All P (put t ts)
  unfolding put
  All-put t [] h hs = tt
  All-put t (u ∷ us) h (k, ks) = elim (Bool-cases (u.index == t.index)) [
    | inl e ↦ rw e (h, ks)
    | inr e ↦ rw e (k, All-put t us h ks)
  ]

  -- An offer that takes something off a ticket keeps what holds of it.
  abbrev pub KeptByOffers : Type κ
  KeptByOffers =
      (rule : DiscountRuleSnapshot D) (t : WorkingTicket D)
      → d.less_than_or_equal_to (discount_for rule t.gross t.discount) zero_amount ≡ false
      → P t
      → P (offered rule (discount_for rule t.gross t.discount) t)

  All-apply_each :
      KeptByOffers
      → (rule : DiscountRuleSnapshot D) (ts : List (WorkingTicket D)) (p : Priced D) → All P ts
      → All P p.0
      → All P (apply_each rule ts p).0
  unfolding apply_each
  All-apply_each keep rule [] p h hs = hs
  All-apply_each keep rule (t ∷ ts) p (h, hs) q =
      All-apply_each keep rule ts (apply_to rule t p) hs (elim (apply_to-cases rule t p) [
        | inl e ↦ rw e q
        | inr (e, f) ↦ rw f (All-put _ p.0 (keep rule t e h) q)
      ])

  pub All-apply_rules :
      KeptByOffers
      → (m : Option MembershipSnapshot) (rules : List (DiscountRuleSnapshot D)) (p : Priced D)
      → All P p.0
      → All P (apply_rules m rules p).0
  unfolding apply_rules
  All-apply_rules keep m [] p h = h
  All-apply_rules keep m (rule ∷ rules) p h = All-apply_rules keep m rules _ (
      All-apply_each keep rule (eligible_tickets rule p.0 m) p (All-eligible_tickets rule p.0 m h)
        h)
