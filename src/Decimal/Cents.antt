-- ===== src/Decimal/Cents.antt =====
-- A concrete arithmetic: whole ten-thousandths of a currency unit.
use project_task_cashbook_ba.Base.{◌≡◌, refl, arith, not, leb, if◌then◌else◌, ◌/◌, ◌+◌, ◌*◌}
use project_task_cashbook_ba.Base.Int.{
  ℤ, pos, negsuc, ◌+ℤ◌, ◌-ℤ◌, ltb_ℤ, eqb_ℤ, pos_part, neg_part, sub_ℕ,
}
use project_task_cashbook_ba.Decimal.{Arithmetic, IsExact}

-- The product and quotient of two counts of ten-thousandths, cut off there.
abbrev scaled_mul : ℤ → ℤ → ℤ
scaled_mul a b =
    sub_ℕ ((pos_part a * pos_part b + neg_part a * neg_part b) / 10000)
      ((pos_part a * neg_part b + neg_part a * pos_part b) / 10000)

abbrev scaled_div : ℤ → ℤ → ℤ
scaled_div a b =
    if leb (neg_part b) 0
    then sub_ℕ (pos_part a * 10000 / pos_part b) (neg_part a * 10000 / pos_part b)
    else sub_ℕ (neg_part a * 10000 / neg_part b) (pos_part a * 10000 / neg_part b)

instance abbrev pub cents : Arithmetic ℤ
cents = record {
  number = λ n. sub_ℕ (pos_part n * 10000) (neg_part n * 10000);
  add = λ a b. a +ℤ b;
  sub = λ a b. a -ℤ b;
  mul = scaled_mul;
  div = scaled_div;
  negated = λ a. pos 0 -ℤ a;
  abs = λ a. if ltb_ℤ a (pos 0) then pos 0 -ℤ a else a;
  round = λ a. a;
  less_than = ltb_ℤ;
  less_than_or_equal_to = λ a b. not (ltb_ℤ b a);
  greater_than = λ a b. ltb_ℤ b a;
  equals = eqb_ℤ;
  is_zero = λ a. eqb_ℤ a (pos 0);
  is_negative = λ a. ltb_ℤ a (pos 0);
}

pub scaled_mul-one : (a : ℤ) → scaled_mul a (pos 10000) ≡ a
scaled_mul-one a = ground arith

pub scaled_mul-minus_one : (a : ℤ) → scaled_mul a (negsuc 9999) ≡ pos 0 -ℤ a
unfolding ◌-ℤ◌
scaled_mul-minus_one a = ground arith

abbrev pub exact : IsExact ℤ
exact = record {
  units = λ a. a;
  units_injective = λ a b e. e;
  units-number_zero = refl;
  units-add = λ a b. refl;
  units-sub = λ a b. refl;
  units-negated = λ a. refl;
  units-abs = λ a. refl;
  mul-one = scaled_mul-one;
  mul-minus_one = scaled_mul-minus_one;
  round-round = λ a. refl;
  round-number = λ n. refl;
  less_than-units = λ a b. refl;
  less_than_or_equal_to-units = λ a b. refl;
  greater_than-units = λ a b. refl;
  equals-units = λ a b. refl;
  is_zero-units = λ a. refl;
  is_negative-units = λ a. refl;
}
