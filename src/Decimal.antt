-- ===== src/Decimal.antt =====
-- The interface of decimal.js' `Decimal`, which the program takes from the Prisma runtime. The
-- operations are a parameter of every module that computes with money; what the code relies on
-- is the record `IsExact`.
pub mod Laws
pub mod Cents
use project_task_cashbook_ba.Base.{ℕ, ◌≡◌, Bool, not, if◌then◌else◌}
use project_task_cashbook_ba.Base.Int.{ℤ, pos, negsuc, ◌+ℤ◌, ◌-ℤ◌, ltb_ℤ, eqb_ℤ}

-- The methods that the source calls, by their names there. `number` is `new Decimal(n)` for a
-- whole n, and the coercion of such a number argument; `round` is
-- `toDecimalPlaces(4, ROUND_HALF_UP)`.
pub record Arithmetic (D : Type 0) : Type 0 where
  pub number : ℤ → D
  pub add : D → D → D
  pub sub : D → D → D
  pub mul : D → D → D
  pub div : D → D → D
  pub negated : D → D
  pub abs : D → D
  pub round : D → D
  pub less_than : D → D → Bool
  pub less_than_or_equal_to : D → D → Bool
  pub greater_than : D → D → Bool
  pub equals : D → D → Bool
  pub is_zero : D → Bool
  pub is_negative : D → Bool

-- Finite values within the working precision: sums and differences are exact, comparisons are
-- those of the values, and rounding twice is rounding once. `units` is the value as a whole
-- number of the smallest unit in use. A negative zero is the value zero.
pub record IsExact (D : Type 0) ⦃d : Arithmetic D⦄ : Type 0 where
  pub units : D → ℤ
  pub units_injective : (a b : D) → units a ≡ units b → a ≡ b
  pub units-number_zero : units (d.number (pos 0)) ≡ pos 0
  pub units-add : (a b : D) → units (d.add a b) ≡ units a +ℤ units b
  pub units-sub : (a b : D) → units (d.sub a b) ≡ units a -ℤ units b
  pub units-negated : (a : D) → units (d.negated a) ≡ pos 0 -ℤ units a
  pub units-abs :
      (a : D) → units (d.abs a) ≡ (if ltb_ℤ (units a) (pos 0) then pos 0 -ℤ units a else units a)
  pub mul-one : (a : D) → d.mul a (d.number (pos 1)) ≡ a
  pub mul-minus_one : (a : D) → d.mul a (d.number (negsuc 0)) ≡ d.negated a
  pub round-round : (a : D) → d.round (d.round a) ≡ d.round a
  pub round-number : (n : ℤ) → d.round (d.number n) ≡ d.number n
  pub less_than-units : (a b : D) → d.less_than a b ≡ ltb_ℤ (units a) (units b)
  pub less_than_or_equal_to-units :
      (a b : D) → d.less_than_or_equal_to a b ≡ not (ltb_ℤ (units b) (units a))
  pub greater_than-units : (a b : D) → d.greater_than a b ≡ ltb_ℤ (units b) (units a)
  pub equals-units : (a b : D) → d.equals a b ≡ eqb_ℤ (units a) (units b)
  pub is_zero-units : (a : D) → d.is_zero a ≡ eqb_ℤ (units a) (pos 0)
  pub is_negative-units : (a : D) → d.is_negative a ≡ ltb_ℤ (units a) (pos 0)
