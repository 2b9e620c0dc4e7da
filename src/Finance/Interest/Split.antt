-- ===== src/Finance/Interest/Split.antt =====
-- Cost recovery: the split of what has been settled, and of whole positions.
use project_task_cashbook_ba.Base.{◌+◌, ◌≡◌, true, arith, ◌↔◌, subst, sym}
use native.Mathlib.Decide.{dec_le}
use project_task_cashbook_ba.Decimal.{Arithmetic, IsExact}
use project_task_cashbook_ba.Decimal.Laws.{
  up, down, Le, add_parts, sub_parts, number_zero_parts, eq_of_units,
}
use project_task_cashbook_ba.Finance.Money.{zero_amount}
use project_task_cashbook_ba.Finance.Interest.{ObligationAmounts, clamp, obligation_breakdown}

module _ {D : Type 0} ⦃d : Arithmetic D⦄ (x : IsExact D) where
  -- Equal values.
  abbrev Same : D → D → Type 0
  Same a b = up x a + down x b ≡ up x b + down x a

  -- Within its bounds a clamp is the value, cut off at either end.
  clamp_lem :
      (v lo hi : D)
      → Le x lo hi
      → Le x lo (clamp v lo hi)
        × Le x (clamp v lo hi) hi
        × (Le x lo v → Le x v hi → Same (clamp v lo hi) v)
        × (Le x v lo → Same (clamp v lo hi) lo)
        × (Le x hi v → Same (clamp v lo hi) hi)
  unfolding clamp
  clamp_lem v lo hi h =
      let below = x.less_than-units v lo in
      let above = x.greater_than-units v hi in
      (ground arith, ground arith, λ p q. ground arith, λ p. ground arith, λ p. ground arith)

  -- Of an amount of at most p + i, the first p and the rest add up to it.
  split_sum :
      (s p i : D)
      → Le x zero_amount s
      → Le x s (d.add p i)
      → Le x zero_amount p
      → Le x zero_amount i
      → d.add (clamp s zero_amount p) (clamp (d.sub s p) zero_amount i) ≡ s
  split_sum s p i hs hsi hp hi =
      let (a, b, c, e, f) = clamp_lem s zero_amount p hp in
      let (a', b', c', e', f') = clamp_lem (d.sub s p) zero_amount i hi in
      let r = clamp s zero_amount p in
      let q = clamp (d.sub s p) zero_amount i in
      let zero_parts = number_zero_parts x in
      let rest = sub_parts x s p in
      let whole = add_parts x p i in
      let sum = add_parts x r q in
      eq_of_units x (d.add r q) s (elim (dec_le (up x s + down x p) (up x p + down x s)) [
        | yes h ↦ omega (arith, c hs h, e' (omega arith))
        | no h ↦ omega (arith, f (omega arith), c' (omega arith) (omega arith))
      ])

  add_nonneg : (p i : D) → Le x zero_amount p → Le x zero_amount i → Le x zero_amount (d.add p i)
  add_nonneg p i hp hi = omega (arith, add_parts x p i, number_zero_parts x)

  add_sub_cancel : (r p : D) → d.add r (d.sub p r) ≡ p
  add_sub_cancel r p = omega (arith, eq_of_units x, add_parts x, sub_parts x)

  is_zero_sub : (p r : D) → (d.is_zero (d.sub p r) ≡ true) ↔ (r ≡ p)
  is_zero_sub p r =
      let test = x.is_zero-units (d.sub p r) in
      let parts = sub_parts x p r in (λ e. eq_of_units x r p (ground arith), λ e. ground arith)

  recovery :
      (s p i : D)
      → Le x zero_amount p
      → Le x zero_amount i
      → let r = clamp s zero_amount p in
        let q = clamp (d.sub s p) zero_amount i in
        (d.is_zero (d.sub p r) ≡ true ↔ r ≡ p)
        × (d.greater_than q zero_amount ≡ true → d.is_zero (d.sub p r) ≡ true)
  recovery s p i hp hi =
      let (_, _, _, _, whole) = clamp_lem s zero_amount p hp in
      let (_, _, _, nothing, _) = clamp_lem (d.sub s p) zero_amount i hi in
      let r = clamp s zero_amount p in
      let q = clamp (d.sub s p) zero_amount i in
      let rest = sub_parts x s p in
      let zero_parts = number_zero_parts x in
      let test = x.greater_than-units q zero_amount in
      (
        is_zero_sub p r,
        λ e. (is_zero_sub p r).1 (
            eq_of_units x r p (elim (dec_le (up x s + down x p) (up x p + down x s)) [
              | yes h ↦ let none_yet = nothing (omega arith) in absurd (ground arith)
              | no h ↦ whole (omega arith)
            ])),
      )

  -- The stored figures of an obligation: the database's CHECK constraints.
  pub record IsStored (a : ObligationAmounts D) : Type 0 where
    pub sums : a.total_amount ≡ d.add a.principal_amount a.interest_amount
    pub principal_nonneg : Le x zero_amount a.principal_amount
    pub interest_nonneg : Le x zero_amount a.interest_amount

  -- For stored figures (a total of principal and interest, both zero or more), whatever is
  -- outstanding, the two splits are exact and every figure lies between zero and its ceiling.
  pub obligation_breakdown_splits :
      (a : ObligationAmounts D)
      → IsStored a
      → let b = obligation_breakdown a in
        (d.add b.principal_recovered b.principal_at_risk ≡ a.principal_amount)
        × (d.add b.interest_realized b.interest_pending ≡ a.interest_amount)
        × (d.add b.principal_recovered b.interest_realized ≡ b.amount_settled)
        × Le x zero_amount b.principal_recovered
        × Le x b.principal_recovered a.principal_amount
        × Le x zero_amount b.interest_realized
        × Le x b.interest_realized a.interest_amount
  unfolding obligation_breakdown
  obligation_breakdown_splits a v =
      let p = a.principal_amount in
      let i = a.interest_amount in
      let t = a.total_amount in
      let nonneg : Le x zero_amount t =
        subst (Le x zero_amount) (sym v.sums)
          (add_nonneg p i v.principal_nonneg v.interest_nonneg) in
      let s = clamp (d.sub t a.outstanding_amount) zero_amount t in
      let (s_lo, s_hi, _, _, _) = clamp_lem (d.sub t a.outstanding_amount) zero_amount t nonneg in
      let (r_lo, r_hi, _, _, _) = clamp_lem s zero_amount p v.principal_nonneg in
      let (q_lo, q_hi, _, _, _) = clamp_lem (d.sub s p) zero_amount i v.interest_nonneg in
      (
        add_sub_cancel _ _,
        add_sub_cancel _ _,
        split_sum s p i s_lo (subst (Le x s) v.sums s_hi) v.principal_nonneg v.interest_nonneg,
        r_lo,
        r_hi,
        q_lo,
        q_hi,
      )

  -- For stored figures (a total of principal and interest, both zero or more), profit is realized
  -- only once the whole principal is back, and the flag `isCapitalRecovered` says exactly that
  -- the whole principal is back.
  pub obligation_breakdown_cost_recovery :
      (a : ObligationAmounts D)
      → IsStored a
      → let b = obligation_breakdown a in
        (b.is_capital_recovered ≡ true ↔ b.principal_recovered ≡ a.principal_amount)
        × (d.greater_than b.interest_realized zero_amount ≡ true → b.is_capital_recovered ≡ true)
  unfolding obligation_breakdown
  obligation_breakdown_cost_recovery a v =
      let p = a.principal_amount in
      let s = clamp (d.sub a.total_amount a.outstanding_amount) zero_amount a.total_amount in
      let (zero_iff, realized) =
        recovery s p a.interest_amount v.principal_nonneg v.interest_nonneg in
      (zero_iff, realized)
