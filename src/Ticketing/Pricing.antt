-- ===== src/Ticketing/Pricing.antt =====
-- src/modules/ticketing/pricing.ts: what a basket of tickets costs. Ids are numbers in the order
-- of their text. Of a rule's `config` there is what `num` and `idList` read from it: none for a value
-- that is missing or of another type; numbers in it are whole.
pub mod Basket
pub mod Quote
pub mod Kept
pub mod Distinct
pub mod Filled
pub mod Totals
pub mod Sums
pub mod Reconciled
pub mod Cap
use Prim.Native.String.{String}
use project_task_cashbook_ba.Base.{
  ℕ, ◌-◌, Bool, true, false, not, ◌&&◌, ◌||◌, ◌==◌, leb, Option, none, some, List, [], ◌∷◌, length,
  any, filter, take, if◌then◌else◌,
}
use project_task_cashbook_ba.Base.Int.{ℤ, pos, pos_part, ltb_ℤ}
use project_task_cashbook_ba.Decimal.{Arithmetic}
use project_task_cashbook_ba.Finance.Money.{zero_amount}

pub data PatronClass : Type 0 where
  adult minor other : PatronClass

pub data DiscountType : Type 0 where
  guardian_comp membership group manual : DiscountType

pub data DiscountValueType : Type 0 where
  percent amount : DiscountValueType

pub record TicketTypeSnapshot (D : Type 0) : Type 0 where
  pub id : ℕ
  pub name : String
  pub patron_class : PatronClass
  pub price : D

pub record DiscountConfig : Type 0 where
  pub min_minors : Option ℤ
  pub comp_patron_class : Option PatronClass
  pub max_comp_per_sale : Option ℤ
  pub min_quantity : Option ℤ
  pub ticket_type_ids : List ℕ

pub record DiscountRuleSnapshot (D : Type 0) : Type 0 where
  pub id : ℕ
  pub name : String
  pub type : DiscountType
  pub value_type : DiscountValueType
  pub value : D
  pub config : DiscountConfig
  pub membership_tier_id : Option ℕ
  pub priority : ℕ
  pub stackable : Bool

pub record MembershipSnapshot : Type 0 where
  pub id : ℕ
  pub tier_id : ℕ
  pub max_uses_per_day : Option ℕ
  pub used_today : ℕ

pub record WorkingTicket (D : Type 0) : Type 0 where
  pub index : ℕ
  pub type : TicketTypeSnapshot D
  pub gross : D
  pub discount : D
  pub rule_id : Option ℕ
  pub rule_name : Option String
  pub line_index : ℕ
  pub from_membership : Bool

abbrev pub num : Option ℤ → ℤ → ℤ
num (some n) _ = n
num none fallback = fallback

abbrev pub same_class : PatronClass → PatronClass → Bool
same_class PatronClass.adult PatronClass.adult = true
same_class PatronClass.minor PatronClass.minor = true
same_class PatronClass.other PatronClass.other = true
same_class _ _ = false

abbrev pub comp_class : Option PatronClass → PatronClass
comp_class (some class) = class
comp_class none = PatronClass.adult

abbrev pub is_none {ℓ} : {A : Type ℓ} → Option A → Bool
is_none none = true
is_none (some _) = false

-- `only.length === 0 || only.includes(id)`
abbrev pub covers : List ℕ → ℕ → Bool
covers [] id = true
covers only id = any (λ k. k == id) only

-- `rule.membershipTierId && rule.membershipTierId !== membership.tierId`
abbrev pub other_tier : Option ℕ → ℕ → Bool
other_tier (some tier) id = not (tier == id)
other_tier none id = false

module _ {D : Type 0} ⦃d : Arithmetic D⦄ where
  open d use {number, sub, mul, div, round, less_than_or_equal_to, greater_than, equals}

  abbrev pub raw_discount : DiscountValueType → D → D → D
  raw_discount DiscountValueType.percent gross value = div (mul gross value) (number (pos 100))
  raw_discount DiscountValueType.amount gross value = value

  unfoldable pub discount_for : DiscountRuleSnapshot D → D → D → D
  discount_for rule gross already_taken =
      let remaining = sub gross already_taken in
      let capped = round (raw_discount rule.value_type gross rule.value) in
      if less_than_or_equal_to remaining zero_amount
      then zero_amount
      else if greater_than capped remaining
      then remaining
      else capped

  -- The comparator of `byValue`: dearest first, then by index.
  abbrev pub not_after : WorkingTicket D → WorkingTicket D → Bool
  not_after a b = greater_than a.gross b.gross || (equals b.gross a.gross && leb a.index b.index)

  unfoldable pub insert_by_value : WorkingTicket D → List (WorkingTicket D) → List (WorkingTicket D)
  insert_by_value t [] = t ∷ []
  insert_by_value t (u ∷ us) =
      let rest = insert_by_value t us in if not_after t u then t ∷ u ∷ us else u ∷ rest

  unfoldable pub by_value : List (WorkingTicket D) → List (WorkingTicket D)
  by_value [] = []
  by_value (t ∷ ts) = insert_by_value t (by_value ts)

  abbrev pub untouched : DiscountRuleSnapshot D → WorkingTicket D → Bool
  untouched rule t = rule.stackable || is_none t.rule_id

  abbrev pub open_to : DiscountRuleSnapshot D → WorkingTicket D → Bool
  open_to rule t = untouched rule t && covers rule.config.ticket_type_ids t.type.id

  abbrev pub is_minor : WorkingTicket D → Bool
  is_minor t = same_class t.type.patron_class PatronClass.minor

  abbrev pub guardian_tickets :
      DiscountRuleSnapshot D → List (WorkingTicket D) → List (WorkingTicket D)
  guardian_tickets rule tickets =
      let class = comp_class rule.config.comp_patron_class in
      if ltb_ℤ (pos (length (filter is_minor tickets))) (num rule.config.min_minors (pos 2))
      then []
      else take (pos_part (num rule.config.max_comp_per_sale (pos 1))) (
          by_value (filter (λ t. same_class t.type.patron_class class && untouched rule t) tickets))

  -- With the uses left today, or none for no limit.
  abbrev pub allowance : Option ℕ → List (WorkingTicket D) → ℕ → List (WorkingTicket D)
  allowance none candidates used = by_value candidates
  allowance (some most) candidates used =
      if leb most used then [] else take (most - used) (by_value candidates)

  abbrev pub member_tickets :
      DiscountRuleSnapshot D
      → List (WorkingTicket D)
      → Option MembershipSnapshot
      → List (WorkingTicket D)
  member_tickets rule tickets none = []
  member_tickets rule tickets (some m) =
      if other_tier rule.membership_tier_id m.tier_id
      then []
      else allowance m.max_uses_per_day (filter (open_to rule) tickets) m.used_today

  abbrev pub group_tickets :
      DiscountRuleSnapshot D → List (WorkingTicket D) → List (WorkingTicket D)
  group_tickets rule tickets =
      let candidates = filter (λ t. covers rule.config.ticket_type_ids t.type.id) tickets in
      if ltb_ℤ (pos (length candidates)) (num rule.config.min_quantity (pos 2))
      then []
      else by_value (filter (untouched rule) candidates)

  abbrev pub tickets_of_type :
      DiscountType
      → DiscountRuleSnapshot D
      → List (WorkingTicket D)
      → Option MembershipSnapshot
      → List (WorkingTicket D)
  tickets_of_type DiscountType.guardian_comp rule tickets m = guardian_tickets rule tickets
  tickets_of_type DiscountType.membership rule tickets m = member_tickets rule tickets m
  tickets_of_type DiscountType.group rule tickets m = group_tickets rule tickets
  tickets_of_type DiscountType.manual rule tickets m = by_value (filter (open_to rule) tickets)

  unfoldable pub eligible_tickets :
      DiscountRuleSnapshot D
      → List (WorkingTicket D)
      → Option MembershipSnapshot
      → List (WorkingTicket D)
  eligible_tickets rule tickets m = tickets_of_type rule.type rule tickets m
