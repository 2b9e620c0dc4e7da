-- ===== src/Decimal/Laws.antt =====
-- The laws of `Decimal` in the form that the arithmetic tactics read: every value through the two
-- parts of its units, one of which is zero.
use project_task_cashbook_ba.Base.{ℕ, ◌+◌, ◌≤◌, ◌≡◌, arith}
use project_task_cashbook_ba.Base.Int.{pos, pos_part, neg_part, +ℤ_parts, -ℤ_parts, eq_of_parts}
use project_task_cashbook_ba.Decimal.{Arithmetic, IsExact}

module _ {D : Type 0} ⦃d : Arithmetic D⦄ (x : IsExact D) where
  open d use {number, add, sub, negated}
  open x use {units, units_injective, units-number_zero, units-add, units-sub, units-negated}

  -- The value is `up a - down a` units.
  abbrev pub up : D → ℕ
  up a = pos_part (units a)

  abbrev pub down : D → ℕ
  down a = neg_part (units a)

  -- The order of the values, and being zero or more.
  abbrev pub Le : D → D → Type 0
  Le a b = up a + down b ≤ up b + down a

  abbrev pub IsNonneg : D → Type 0
  IsNonneg a = down a ≤ up a

  pub add_parts : (a b : D) → up (add a b) + down a + down b ≡ down (add a b) + up a + up b
  add_parts a b = rw (units-add a b) (+ℤ_parts (units a) (units b))

  pub sub_parts : (a b : D) → up (sub a b) + down a + up b ≡ down (sub a b) + up a + down b
  sub_parts a b = rw (units-sub a b) (-ℤ_parts (units a) (units b))

  pub negated_parts : (a : D) → up (negated a) + up a ≡ down (negated a) + down a
  negated_parts a = rw (units-negated a) (omega (arith, -ℤ_parts (pos 0) (units a)))

  pub number_zero_parts : (up (number (pos 0)) ≡ 0) × (down (number (pos 0)) ≡ 0)
  number_zero_parts = rw units-number_zero (omega arith)

  pub eq_of_units : (a b : D) → up a + down b ≡ up b + down a → a ≡ b
  eq_of_units a b h = units_injective a b (eq_of_parts (units a) (units b) h)

-- With `eq_of_units x` beside it, what omega needs of exact sums.
pub ruleset decimal_laws = (arith, add_parts, sub_parts, negated_parts, number_zero_parts)
