-- ===== src/Ticketing/Pricing/Basket.antt =====
-- What `quoteSale` of src/modules/ticketing/pricing.ts starts from: the basket, and the rules in order.
use project_task_cashbook_ba.Base.{
  ℕ, zero, suc, ◌+◌, Bool, true, false, not, ◌&&◌, ◌||◌, ◌==◌, ltb, leb, Option, none, some, List,
  [], ◌∷◌, ◌++◌, length, any, filter, if◌then◌else◌,
}
use project_task_cashbook_ba.Base.Result.{Result, ok, err}
use project_task_cashbook_ba.Decimal.{Arithmetic}
use project_task_cashbook_ba.Finance.Money.{zero_amount}
use project_task_cashbook_ba.Ticketing.Pricing.{
  DiscountType, TicketTypeSnapshot, DiscountRuleSnapshot, MembershipSnapshot, WorkingTicket,
}

pub record SaleLineRequest : Type 0 where
  pub ticket_type_id : ℕ
  pub quantity : ℕ

pub record QuoteInput (D : Type 0) : Type 0 where
  pub types : List (TicketTypeSnapshot D)
  pub lines : List SaleLineRequest
  pub rules : List (DiscountRuleSnapshot D)
  pub membership : Option MembershipSnapshot
  pub manual_rule_ids : List ℕ

pub data QuoteError : Type 0 where
  unknown_ticket_type : ℕ → QuoteError

abbrev pub is_manual : DiscountType → Bool
is_manual DiscountType.manual = true
is_manual _ = false

module _ {D : Type 0} ⦃d : Arithmetic D⦄ where
  open d use {add, sub, less_than_or_equal_to}

  -- `typeById`: of two types with one id, the later.
  unfoldable pub type_by_id : ℕ → List (TicketTypeSnapshot D) → Option (TicketTypeSnapshot D)
  type_by_id id [] = none
  type_by_id id (t ∷ ts) = elim (type_by_id id ts) [
    | some later ↦ some later
    | none ↦ if t.id == id then some t else none
  ]

  abbrev pub head : TicketTypeSnapshot D → ℕ → ℕ → WorkingTicket D
  head type line_index index = record {
    index = index;
    type = type;
    gross = type.price;
    discount = zero_amount;
    rule_id = none;
    rule_name = none;
    line_index = line_index;
    from_membership = false;
  }

  unfoldable pub add_heads :
      TicketTypeSnapshot D → ℕ → ℕ → List (WorkingTicket D) → List (WorkingTicket D)
  add_heads type line_index zero tickets = tickets
  add_heads type line_index (suc n) tickets =
      add_heads type line_index n (tickets ++ head type line_index (length tickets) ∷ [])

  unfoldable pub expand :
      List (TicketTypeSnapshot D)
      → List SaleLineRequest
      → ℕ
      → List (WorkingTicket D)
      → Result QuoteError (List (WorkingTicket D))
  expand types [] line_index tickets = ok tickets
  expand types (line ∷ lines) line_index tickets = elim (type_by_id line.ticket_type_id types) [
    | some type ↦
        expand types lines (line_index + 1) (add_heads type line_index line.quantity tickets)
    | none ↦ err (unknown_ticket_type line.ticket_type_id)
  ]

  -- Lowest priority first; ids break ties.
  abbrev pub rule_before : DiscountRuleSnapshot D → DiscountRuleSnapshot D → Bool
  rule_before a b = ltb a.priority b.priority || (a.priority == b.priority && leb a.id b.id)

  unfoldable pub insert_rule :
      DiscountRuleSnapshot D → List (DiscountRuleSnapshot D) → List (DiscountRuleSnapshot D)
  insert_rule r [] = r ∷ []
  insert_rule r (s ∷ ss) =
      let rest = insert_rule r ss in if rule_before r s then r ∷ s ∷ ss else s ∷ rest

  unfoldable pub sort_rules : List (DiscountRuleSnapshot D) → List (DiscountRuleSnapshot D)
  sort_rules [] = []
  sort_rules (r ∷ rs) = insert_rule r (sort_rules rs)

  abbrev pub allowed : List ℕ → DiscountRuleSnapshot D → Bool
  allowed manual_ids r = not (is_manual r.type) || any (λ k. k == r.id) manual_ids

  abbrev pub ordered_rules : List ℕ → List (DiscountRuleSnapshot D) → List (DiscountRuleSnapshot D)
  ordered_rules manual_ids rules = sort_rules (filter (allowed manual_ids) rules)
