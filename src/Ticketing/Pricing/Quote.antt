-- ===== src/Ticketing/Pricing/Quote.antt =====
-- `quoteSale` of src/modules/ticketing/pricing.ts. The tickets are objects that `ticket.discount = …`
-- changes in place: the list is updated at the ticket's index, which no other has. A rule's eligible
-- tickets are different tickets, so each is met as it stood when the rule began.
use Prim.Native.String.{String}
use project_task_cashbook_ba.Base.{
  ℕ, ◌+◌, Bool, true, false, ◌||◌, ◌==◌, Option, none, some, List, [], ◌∷◌, map, length, filter,
  if◌then◌else◌,
}
use project_task_cashbook_ba.Base.Result.{Result, ok, ◌>>=◌}
use project_task_cashbook_ba.Decimal.{Arithmetic}
use project_task_cashbook_ba.Finance.Money.{zero_amount}
use project_task_cashbook_ba.Ticketing.Pricing.{
  PatronClass, DiscountType, TicketTypeSnapshot, DiscountRuleSnapshot, MembershipSnapshot,
  WorkingTicket, discount_for, eligible_tickets,
}
use project_task_cashbook_ba.Ticketing.Pricing.Basket.{
  SaleLineRequest, QuoteInput, QuoteError, type_by_id, expand, ordered_rules,
}

pub record QuotedTicket (D : Type 0) : Type 0 where
  pub ticket_type_id : ℕ
  pub ticket_type_name : String
  pub patron_class : PatronClass
  pub gross_price : D
  pub discount_amount : D
  pub net_price : D
  pub applied_rule_id : Option ℕ
  pub applied_rule_name : Option String

pub record QuotedLine (D : Type 0) : Type 0 where
  pub ticket_type_id : ℕ
  pub ticket_type_name : String
  pub quantity : ℕ
  pub unit_price : D
  pub line_gross : D
  pub line_discount : D
  pub line_net : D

pub record AppliedRuleSummary (D : Type 0) : Type 0 where
  pub rule_id : ℕ
  pub rule_name : String
  pub ticket_count : ℕ
  pub discount_amount : D

pub record SaleQuote (D : Type 0) : Type 0 where
  pub tickets : List (QuotedTicket D)
  pub lines : List (QuotedLine D)
  pub gross_amount : D
  pub discount_amount : D
  pub net_amount : D
  pub ticket_count : ℕ
  pub membership_discount : D
  pub membership_ticket_count : ℕ
  pub applied_rules : List (AppliedRuleSummary D)

abbrev pub is_membership : DiscountType → Bool
is_membership DiscountType.membership = true
is_membership _ = false

-- The tickets and the summaries.
abbrev pub Priced : Type 0 → Type 0
Priced D = List (WorkingTicket D) × List (AppliedRuleSummary D)

module _ {D : Type 0} ⦃d : Arithmetic D⦄ where
  open d use {add, sub, less_than_or_equal_to}

  abbrev pub offered : DiscountRuleSnapshot D → D → WorkingTicket D → WorkingTicket D
  offered rule amount t = record t {
    discount = add t.discount amount;
    rule_id = some rule.id;
    rule_name = some rule.name;
    from_membership = is_membership rule.type || t.from_membership;
  }

  unfoldable pub put : WorkingTicket D → List (WorkingTicket D) → List (WorkingTicket D)
  put t [] = []
  put t (u ∷ us) = let rest = put t us in if u.index == t.index then t ∷ us else u ∷ rest

  unfoldable pub add_summary :
      DiscountRuleSnapshot D → D → List (AppliedRuleSummary D) → List (AppliedRuleSummary D)
  add_summary rule amount [] =
      record {
        rule_id = rule.id;
        rule_name = rule.name;
        ticket_count = 1;
        discount_amount = add zero_amount amount;
      }
      ∷ []
  add_summary rule amount (s ∷ ss) =
      let rest = add_summary rule amount ss in
      if s.rule_id == rule.id
      then record s {
        ticket_count = s.ticket_count + 1;
        discount_amount = add s.discount_amount amount;
      }
        ∷ ss
      else s ∷ rest

  unfoldable pub apply_to : DiscountRuleSnapshot D → WorkingTicket D → Priced D → Priced D
  apply_to rule t (tickets, summaries) =
      let amount = discount_for rule t.gross t.discount in
      if less_than_or_equal_to amount zero_amount
      then (tickets, summaries)
      else (put (offered rule amount t) tickets, add_summary rule amount summaries)

  unfoldable pub apply_each : DiscountRuleSnapshot D → List (WorkingTicket D) → Priced D → Priced D
  apply_each rule [] p = p
  apply_each rule (t ∷ ts) p = apply_each rule ts (apply_to rule t p)

  unfoldable pub apply_rules :
      Option MembershipSnapshot → List (DiscountRuleSnapshot D) → Priced D → Priced D
  apply_rules m [] p = p
  apply_rules m (rule ∷ rules) p =
      apply_rules m rules (apply_each rule (eligible_tickets rule p.0 m) p)

  abbrev pub sum_by {ℓ} : {A : Type ℓ} → (A → D) → D → List A → D
  sum_by f acc [] = acc
  sum_by f acc (x ∷ xs) = sum_by f (add acc (f x)) xs

  abbrev pub quoted_ticket : WorkingTicket D → QuotedTicket D
  quoted_ticket t = record {
    ticket_type_id = t.type.id;
    ticket_type_name = t.type.name;
    patron_class = t.type.patron_class;
    gross_price = t.gross;
    discount_amount = t.discount;
    net_price = sub t.gross t.discount;
    applied_rule_id = t.rule_id;
    applied_rule_name = t.rule_name;
  }

  abbrev pub quoted_line :
      SaleLineRequest → TicketTypeSnapshot D → List (WorkingTicket D) → QuotedLine D
  quoted_line line type mine =
      let gross = sum_by (λ t. t.gross) zero_amount mine in
      let discount = sum_by (λ t. t.discount) zero_amount mine in
      record {
        ticket_type_id = type.id;
        ticket_type_name = type.name;
        quantity = line.quantity;
        unit_price = type.price;
        line_gross = gross;
        line_discount = discount;
        line_net = sub gross discount;
      }

  -- Every line has its type: `expand` has failed otherwise.
  unfoldable pub quoted_lines :
      List (TicketTypeSnapshot D)
      → List SaleLineRequest
      → ℕ
      → List (WorkingTicket D)
      → List (QuotedLine D)
  quoted_lines types [] line_index tickets = []
  quoted_lines types (line ∷ lines) line_index tickets =
      let rest = quoted_lines types lines (line_index + 1) tickets in
      elim (type_by_id line.ticket_type_id types) [
        | some type ↦
            quoted_line line type (filter (λ t. t.line_index == line_index) tickets) ∷ rest
        | none ↦ rest
      ]

  abbrev pub roll_up : QuoteInput D → Priced D → SaleQuote D
  roll_up input (tickets, summaries) =
      let lines = quoted_lines input.types input.lines 0 tickets in
      let gross = sum_by (λ l. l.line_gross) zero_amount lines in
      let discount = sum_by (λ l. l.line_discount) zero_amount lines in
      let members = filter (λ t. t.from_membership) tickets in
      record {
        tickets = map quoted_ticket tickets;
        lines = lines;
        gross_amount = gross;
        discount_amount = discount;
        net_amount = sub gross discount;
        ticket_count = length tickets;
        membership_discount = sum_by (λ t. t.discount) zero_amount members;
        membership_ticket_count = length members;
        applied_rules = summaries;
      }

  unfoldable pub quote_sale : QuoteInput D → Result QuoteError (SaleQuote D)
  quote_sale input = expand input.types input.lines 0 [] >>= λ tickets. ok (
      roll_up input (
        apply_rules input.membership (ordered_rules input.manual_rule_ids input.rules)
          (tickets, [])))
