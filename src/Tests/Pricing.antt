-- ===== src/Tests/Pricing.antt =====
-- Baskets of tickets, priced.
use project_task_cashbook_ba.Base.{◌≡◌, refl, ◌≤◌, true, false, none, some, [], ◌∷◌, arith}
use project_task_cashbook_ba.Base.Int.{ℤ, pos, ◌+ℤ◌, ◌-ℤ◌}
use project_task_cashbook_ba.Base.Result.{Result, ok, err}
use project_task_cashbook_ba.Decimal.Cents.{cents, exact}
use project_task_cashbook_ba.Ticketing.Pricing.{
  PatronClass, DiscountType, DiscountValueType, TicketTypeSnapshot, DiscountConfig,
  DiscountRuleSnapshot, MembershipSnapshot, discount_for, eligible_tickets, by_value,
  insert_by_value,
}
use project_task_cashbook_ba.Ticketing.Pricing.Basket.{
  QuoteInput, QuoteError, type_by_id, add_heads, expand, insert_rule, sort_rules,
}
use project_task_cashbook_ba.Ticketing.Pricing.Quote.{
  SaleQuote, AppliedRuleSummary, put, add_summary, apply_to, apply_each, apply_rules, quoted_lines,
  quote_sale,
}
use project_task_cashbook_ba.Ticketing.Pricing.Totals.{total}
use project_task_cashbook_ba.Ticketing.Pricing.Reconciled.{
  AddsUp, quote_sale-AddsUp, quote_sale_explained,
}
use project_task_cashbook_ba.Ticketing.Pricing.Cap.{quote_sale_cap}

abbrev grown : TicketTypeSnapshot ℤ
grown = record { id = 1; name = "Adult"; patron_class = PatronClass.adult; price = pos 100000 }

abbrev child : TicketTypeSnapshot ℤ
child = record { id = 2; name = "Child"; patron_class = PatronClass.minor; price = pos 50000 }

abbrev plain : DiscountConfig
plain = record {
  min_minors = none;
  comp_patron_class = none;
  max_comp_per_sale = none;
  min_quantity = none;
  ticket_type_ids = [];
}

-- Half off for card holders of tier 7.
abbrev half : DiscountRuleSnapshot ℤ
half = record {
  id = 11;
  name = "Members";
  type = DiscountType.membership;
  value_type = DiscountValueType.percent;
  value = pos 500000;
  config = plain;
  membership_tier_id = some 7;
  priority = 100;
  stackable = false;
}

-- An adult free with two children.
abbrev guardian : DiscountRuleSnapshot ℤ
guardian = record half {
  id = 12;
  name = "Guardian";
  type = DiscountType.guardian_comp;
  value = pos 1000000;
  membership_tier_id = none;
  priority = 10;
}

-- One unit of currency off each ticket of a group, on top of any other offer.
abbrev group_off : DiscountRuleSnapshot ℤ
group_off = record half {
  id = 13;
  name = "Group";
  type = DiscountType.group;
  value_type = DiscountValueType.amount;
  value = pos 10000;
  membership_tier_id = none;
  priority = 200;
  stackable = true;
}

abbrev card : MembershipSnapshot
card = record { id = 1; tier_id = 7; max_uses_per_day = some 2; used_today = 1 }

-- Two adults and two children; the card has one use left.
abbrev family : QuoteInput ℤ
family = record {
  types = grown ∷ child ∷ [];
  lines =
      record { ticket_type_id = 1; quantity = 2 }
      ∷ record { ticket_type_id = 2; quantity = 2 }
      ∷ [];
  rules = half ∷ guardian ∷ [];
  membership = some card;
  manual_rule_ids = [];
}

abbrev no_quote : SaleQuote ℤ
no_quote = record {
  tickets = [];
  lines = [];
  gross_amount = pos 0;
  discount_amount = pos 0;
  net_amount = pos 0;
  ticket_count = 0;
  membership_discount = pos 0;
  membership_ticket_count = 0;
  applied_rules = [];
}

abbrev quote_of : Result QuoteError (SaleQuote ℤ) → SaleQuote ℤ
quote_of (ok q) = q
quote_of (err _) = no_quote

abbrev family_quote : SaleQuote ℤ
family_quote = quote_of (quote_sale family)

family_quoted : quote_sale family ≡ ok family_quote
unfolding quote_sale expand add_heads type_by_id sort_rules insert_rule apply_rules apply_each
    apply_to put add_summary quoted_lines eligible_tickets by_value insert_by_value discount_for
    ◌+ℤ◌ ◌-ℤ◌
family_quoted = refl

-- One adult goes in free, the other at half price.
family_discount : family_quote.discount_amount ≡ pos 150000
unfolding quote_sale expand add_heads type_by_id sort_rules insert_rule apply_rules apply_each
    apply_to put add_summary quoted_lines eligible_tickets by_value insert_by_value discount_for
    ◌+ℤ◌ ◌-ℤ◌
family_discount = refl

quote_sale-AddsUp_example : AddsUp exact family family_quote
quote_sale-AddsUp_example = quote_sale-AddsUp exact family family_quote (omega arith) family_quoted

quote_sale_explained_example :
    total (λ (s : AppliedRuleSummary ℤ). s.discount_amount) family_quote.applied_rules
    ≡ family_quote.discount_amount
quote_sale_explained_example =
    quote_sale_explained exact family family_quote (omega arith) family_quoted

quote_sale_cap_example : family_quote.membership_ticket_count ≤ 1
quote_sale_cap_example =
    quote_sale_cap family family_quote card 2 (omega arith) refl refl family_quoted

-- With a second MEMBERSHIP rule for the tier the card discounts two tickets of its one.
abbrev doubled : QuoteInput ℤ
doubled = record family { rules = half ∷ record half { id = 14 } ∷ [] }

past_the_limit : (quote_of (quote_sale doubled)).membership_ticket_count ≡ 2
unfolding quote_sale expand add_heads type_by_id sort_rules insert_rule apply_rules apply_each
    apply_to put add_summary quoted_lines eligible_tickets by_value insert_by_value discount_for
    ◌+ℤ◌ ◌-ℤ◌
past_the_limit = refl

-- What another offer takes off a member's ticket counts as the membership's.
abbrev stacked : QuoteInput ℤ
stacked = record family { rules = half ∷ group_off ∷ [] }

not_earned : (quote_of (quote_sale stacked)).membership_discount ≡ pos 60000
unfolding quote_sale expand add_heads type_by_id sort_rules insert_rule apply_rules apply_each
    apply_to put add_summary quoted_lines eligible_tickets by_value insert_by_value discount_for
    ◌+ℤ◌ ◌-ℤ◌
not_earned = refl
