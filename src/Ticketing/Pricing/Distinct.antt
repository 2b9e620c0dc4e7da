-- ===== src/Ticketing/Pricing/Distinct.antt =====
-- Tickets are told apart by their index.
use project_task_cashbook_ba.Base.{
  ℕ, zero, suc, ◌≡◌, refl, subst, Bool, true, false, ◌==◌, ==_iff, Option, none, some, List, [],
  ◌∷◌, length, filter, take, All, All-imp₂, inl, inr, ◌⊎◌, Bool-cases, leb, arith,
}
use project_task_cashbook_ba.Base.Int.{pos, ltb_ℤ}
use project_task_cashbook_ba.Decimal.{Arithmetic}
use project_task_cashbook_ba.Finance.Money.{zero_amount}
use project_task_cashbook_ba.Ticketing.Pricing.{
  DiscountType, discount_for, DiscountRuleSnapshot, MembershipSnapshot, WorkingTicket, not_after,
  insert_by_value, by_value, eligible_tickets, tickets_of_type, allowance, num, other_tier,
  is_minor, covers,
}
use project_task_cashbook_ba.Ticketing.Pricing.Quote.{
  Priced, offered, put, add_summary, apply_each, apply_rules,
}
use project_task_cashbook_ba.Ticketing.Pricing.Kept.{
  All-filter, All-take, All-insert_by_value, All-by_value, All-put, apply_to-cases,
  All-eligible_tickets,
}

not_same_sym : (a b : ℕ) → (a == b) ≡ false → (b == a) ≡ false
not_same_sym a b h = ground arith

module _ {D : Type 0} ⦃d : Arithmetic D⦄ where
  abbrev pub Apart : WorkingTicket D → WorkingTicket D → Type 0
  Apart t u = (u.index == t.index) ≡ false

  abbrev pub Distinct : List (WorkingTicket D) → Type 0
  Distinct [] = Unit
  Distinct (t ∷ ts) = All (Apart t) ts × Distinct ts

  -- The first ticket with the index is this one.
  abbrev pub Current : WorkingTicket D → List (WorkingTicket D) → Type 0
  Current t [] = ⊥
  Current t (u ∷ us) = (u ≡ t) ⊎ ((u.index == t.index) ≡ false) × Current t us

  Distinct-filter :
      (p : WorkingTicket D → Bool) (ts : List (WorkingTicket D))
      → Distinct ts
      → Distinct (filter p ts)
  Distinct-filter p [] h = tt
  Distinct-filter p (t ∷ ts) (h, hs) = elim (Bool-cases (p t)) [
    | inl e ↦ rw e (All-filter _ p ts h, Distinct-filter p ts hs)
    | inr e ↦ rw e (Distinct-filter p ts hs)
  ]

  Distinct-take : (n : ℕ) (ts : List (WorkingTicket D)) → Distinct ts → Distinct (take n ts)
  Distinct-take zero ts h = tt
  Distinct-take (suc n) [] h = tt
  Distinct-take (suc n) (t ∷ ts) (h, hs) = (All-take _ n ts h, Distinct-take n ts hs)

  Apart-sym : (t u : WorkingTicket D) → Apart t u → Apart u t
  Apart-sym t u h = not_same_sym u.index t.index h

  Distinct-insert_by_value :
      (t : WorkingTicket D) (ts : List (WorkingTicket D))
      → All (Apart t) ts
      → Distinct ts
      → Distinct (insert_by_value t ts)
  unfolding insert_by_value
  Distinct-insert_by_value t [] h hs = (tt, tt)
  Distinct-insert_by_value t (u ∷ us) (h, hs) (k, ks) = elim (Bool-cases (not_after t u)) [
    | inl e ↦ rw e ((h, hs), (k, ks))
    | inr e ↦ rw e (
      All-insert_by_value (Apart u) t us (Apart-sym t u h) k,
      Distinct-insert_by_value t us hs ks,
    )
  ]

  Distinct-by_value : (ts : List (WorkingTicket D)) → Distinct ts → Distinct (by_value ts)
  unfolding by_value
  Distinct-by_value [] h = tt
  Distinct-by_value (t ∷ ts) (h, hs) =
      Distinct-insert_by_value t (by_value ts) (All-by_value (Apart t) ts h)
        (Distinct-by_value ts hs)

  Distinct-allowance :
      (most : Option ℕ) (ts : List (WorkingTicket D)) (used : ℕ)
      → Distinct ts
      → Distinct (allowance most ts used)
  Distinct-allowance none ts used h = Distinct-by_value ts h
  Distinct-allowance (some most) ts used h = elim (Bool-cases (leb most used)) [
    | inl e ↦ rw e tt
    | inr e ↦ rw e (Distinct-take _ _ (Distinct-by_value ts h))
  ]

  Distinct-tickets_of_type :
      (type : DiscountType) (rule : DiscountRuleSnapshot D) (ts : List (WorkingTicket D))
      (m : Option MembershipSnapshot)
      → Distinct ts
      → Distinct (tickets_of_type type rule ts m)
  Distinct-tickets_of_type DiscountType.guardian_comp rule ts m h =
      elim (Bool-cases
        (ltb_ℤ (pos (length (filter is_minor ts))) (num rule.config.min_minors (pos 2)))) [
          | inl e ↦ rw e tt
          | inr e ↦ rw e (Distinct-take _ _ (Distinct-by_value _ (Distinct-filter _ ts h)))
        ]
  Distinct-tickets_of_type DiscountType.membership rule ts none h = tt
  Distinct-tickets_of_type DiscountType.membership rule ts (some m) h =
      elim (Bool-cases (other_tier rule.membership_tier_id m.tier_id)) [
        | inl e ↦ rw e tt
        | inr e ↦
            rw e (Distinct-allowance m.max_uses_per_day _ m.used_today (Distinct-filter _ ts h))
      ]
  Distinct-tickets_of_type DiscountType.group rule ts m h =
      elim (Bool-cases (
        ltb_ℤ
          (pos (
            length
              (filter (λ (t : WorkingTicket D). covers rule.config.ticket_type_ids t.type.id) ts)))
          (num rule.config.min_quantity (pos 2)))) [
            | inl e ↦ rw e tt
            | inr e ↦ rw e (Distinct-by_value _ (Distinct-filter _ _ (Distinct-filter _ ts h)))
          ]
  Distinct-tickets_of_type DiscountType.manual rule ts m h =
      Distinct-by_value _ (Distinct-filter _ ts h)

  -- No ticket is eligible twice.
  pub Distinct-eligible_tickets :
      (rule : DiscountRuleSnapshot D) (ts : List (WorkingTicket D)) (m : Option MembershipSnapshot)
      → Distinct ts
      → Distinct (eligible_tickets rule ts m)
  unfolding eligible_tickets
  Distinct-eligible_tickets rule ts m h = Distinct-tickets_of_type rule.type rule ts m h

  pub Distinct-put :
      (t : WorkingTicket D) (ts : List (WorkingTicket D)) → Distinct ts → Distinct (put t ts)
  unfolding put
  Distinct-put t [] h = tt
  Distinct-put t (u ∷ us) (h, hs) = elim (Bool-cases (u.index == t.index)) [
    | inl e ↦
        let same : u.index ≡ t.index = (==_iff _ _).0 e in
        rw e (subst (λ i. All (λ (x : WorkingTicket D). (x.index == i) ≡ false) us) same h, hs)
    | inr e ↦ rw e (All-put (Apart u) t us (Apart-sym t u e) h, Distinct-put t us hs)
  ]

  -- Another ticket stays as it is.
  pub Current-put :
      (t u : WorkingTicket D) (ts : List (WorkingTicket D))
      → Apart t u
      → Current u ts
      → Current u (put t ts)
  unfolding put
  Current-put t u [] h c = c
  Current-put t u (v ∷ vs) h c = elim (Bool-cases (v.index == t.index)) [
    | inl e ↦ elim c [
      | inl same ↦
          let failed : (u.index == t.index) ≡ true =
            subst (λ (x : WorkingTicket D). (x.index == t.index) ≡ true) same e in
          cc
      | inr (_, k) ↦ rw e (inr (not_same_sym _ _ h, k))
    ]
    | inr e ↦ elim c [
      | inl same ↦ rw e (inl same)
      | inr (ne, k) ↦ rw e (inr (ne, Current-put t u vs h k))
    ]
  ]

  pub All-Current : (ts : List (WorkingTicket D)) → Distinct ts → All (λ t. Current t ts) ts
  All-Current [] h = tt
  All-Current (t ∷ ts) (h, hs) =
      (inl refl, All-imp₂ ts (λ x apart c. inr (Apart-sym t x apart, c)) h (All-Current ts hs))

  -- Applying an offer to tickets that are as they stood, one after the other.
  pub apply_each-keeps {κ} :
      (I : Priced D → Type κ) (rule : DiscountRuleSnapshot D)
      → ((t : WorkingTicket D) (p : Priced D)
          → let amount = discount_for rule t.gross t.discount in
            Current t p.0
            → d.less_than_or_equal_to amount zero_amount ≡ false
            → I p
            → I (put (offered rule amount t) p.0, add_summary rule amount p.1))
      → (ts : List (WorkingTicket D)) (p : Priced D) → Distinct ts
      → All (λ t. Current t p.0) ts
      → I p
      → I (apply_each rule ts p)
  unfolding apply_each
  apply_each-keeps I rule step [] p h c i = i
  apply_each-keeps I rule step (t ∷ ts) p (h, hs) (c, cs) i = elim (apply_to-cases rule t p) [
    | inl e ↦ rw e (apply_each-keeps I rule step ts p hs cs i)
    | inr (e, f) ↦ rw f (
        apply_each-keeps I rule step ts _ hs
          (All-imp₂ ts (λ u apart k. Current-put _ u p.0 apart k) h cs) (step t p c e i))
  ]

  -- The same for all rules.
  pub apply_rules-keeps {κ} :
      (I : Priced D → Type κ) (m : Option MembershipSnapshot)
      → ((rule : DiscountRuleSnapshot D) (t : WorkingTicket D) (p : Priced D)
          → let amount = discount_for rule t.gross t.discount in
            Current t p.0
            → d.less_than_or_equal_to amount zero_amount ≡ false
            → I p
            → I (put (offered rule amount t) p.0, add_summary rule amount p.1))
      → (rules : List (DiscountRuleSnapshot D)) (p : Priced D) → Distinct p.0
      → I p
      → I (apply_rules m rules p)
  unfolding apply_rules
  apply_rules-keeps I m step [] p h i = i
  apply_rules-keeps I m step (rule ∷ rules) p h i =
      let (h', i') =
        apply_each-keeps (λ q. Distinct q.0 × I q) rule
          (λ t q c e (k, j). (Distinct-put _ q.0 k, step rule t q c e j))
          (eligible_tickets rule p.0 m) p (Distinct-eligible_tickets rule p.0 m h)
          (All-eligible_tickets (λ t. Current t p.0) rule p.0 m (All-Current p.0 h)) (h, i) in
      apply_rules-keeps I m step rules _ h' i'
