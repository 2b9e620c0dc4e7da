-- ===== src/Finance/Interest.antt =====
-- src/core/finance/obligation-interest.ts: what has been repaid, split into capital recovered
-- first and profit after it; and the figures that are stored for a new obligation.
pub mod Split
use project_task_cashbook_ba.Base.{
  ℕ, ◌+◌, Bool, true, false, not, Option, none, some, List, [], ◌∷◌, if◌then◌else◌,
}
use project_task_cashbook_ba.Base.Int.{pos}
use project_task_cashbook_ba.Decimal.{Arithmetic}
use project_task_cashbook_ba.Finance.Money.{zero_amount}

pub record ObligationAmounts (D : Type 0) : Type 0 where
  pub total_amount : D
  pub principal_amount : D
  pub interest_amount : D
  pub outstanding_amount : D

pub record ObligationBreakdown (D : Type 0) : Type 0 where
  pub amount_settled : D
  pub principal_recovered : D
  pub principal_at_risk : D
  pub interest_realized : D
  pub interest_pending : D
  pub is_capital_recovered : Bool
  pub has_interest : Bool

pub record InterestInput (D : Type 0) : Type 0 where
  pub principal_amount : D
  pub interest_rate : Option D
  pub interest_amount : Option D

pub record ResolvedInterest (D : Type 0) : Type 0 where
  pub principal_amount : D
  pub interest_amount : D
  pub interest_rate : Option D
  pub total_amount : D

pub record InterestPosition (D : Type 0) : Type 0 where
  pub count : ℕ
  pub principal_outstanding : D
  pub principal_recovered : D
  pub interest_realized : D
  pub interest_pending : D

module _ {D : Type 0} ⦃d : Arithmetic D⦄ where
  open d use {number, add, sub, mul, div, round, less_than, greater_than, is_zero}

  unfoldable pub clamp : D → D → D → D
  clamp value min max =
      if less_than value min then min else if greater_than value max then max else value

  unfoldable pub obligation_breakdown : ObligationAmounts D → ObligationBreakdown D
  obligation_breakdown amounts =
      let total = amounts.total_amount in
      let principal = amounts.principal_amount in
      let interest = amounts.interest_amount in
      let amount_settled = clamp (sub total amounts.outstanding_amount) zero_amount total in
      let principal_recovered = clamp amount_settled zero_amount principal in
      let principal_at_risk = sub principal principal_recovered in
      let interest_realized = clamp (sub amount_settled principal) zero_amount interest in
      record {
        amount_settled = amount_settled;
        principal_recovered = principal_recovered;
        principal_at_risk = principal_at_risk;
        interest_realized = interest_realized;
        interest_pending = sub interest interest_realized;
        is_capital_recovered = is_zero principal_at_risk;
        has_interest = greater_than interest (number (pos 0));
      }

  -- The two branches of `resolveInterest`, and neither: the amount and the rate.
  abbrev pub interest_figures : D → Option D → Option D → D × Option D
  interest_figures principal (some rate) _ =
      (round (div (mul principal rate) (number (pos 100))), some rate)
  interest_figures principal none (some amount) =
      let interest = round amount in
      (
        interest,
        if greater_than principal (number (pos 0))
            then some (round (mul (div interest principal) (number (pos 100))))
            else none,
      )
  interest_figures principal none none = (zero_amount, none)

  unfoldable pub resolve_interest : InterestInput D → ResolvedInterest D
  resolve_interest input =
      let principal = input.principal_amount in
      let (interest, rate) = interest_figures principal input.interest_rate input.interest_amount in
      record {
        principal_amount = round principal;
        interest_amount = interest;
        interest_rate = rate;
        total_amount = add (round principal) interest;
      }

  abbrev pub empty_position : InterestPosition D
  empty_position = record {
    count = 0;
    principal_outstanding = zero_amount;
    principal_recovered = zero_amount;
    interest_realized = zero_amount;
    interest_pending = zero_amount;
  }

  unfoldable pub accumulate : InterestPosition D → ObligationBreakdown D → InterestPosition D
  accumulate position breakdown = record {
    count = position.count + 1;
    principal_outstanding = add position.principal_outstanding breakdown.principal_at_risk;
    principal_recovered = add position.principal_recovered breakdown.principal_recovered;
    interest_realized = add position.interest_realized breakdown.interest_realized;
    interest_pending = add position.interest_pending breakdown.interest_pending;
  }
