-- ===== src/Ticketing/Pricing/Totals.antt =====
-- Sums over tickets and over the lines that they come from.
use project_task_cashbook_ba.Base.{
  ℕ, ◌+◌, ◌<◌, ◌≡◌, refl, sym, ap, ap₂, ◌∙◌, Bool, true, false, ◌==◌, leb, List, [], ◌∷◌, length,
  filter, All, All-imp, inl, inr, Bool-cases, arith,
}
use project_task_cashbook_ba.Decimal.{Arithmetic, IsExact}
use project_task_cashbook_ba.Decimal.Laws.{add_parts, number_zero_parts, eq_of_units}
use project_task_cashbook_ba.Finance.Money.{zero_amount}
use project_task_cashbook_ba.Ticketing.Pricing.{TicketTypeSnapshot, WorkingTicket}
use project_task_cashbook_ba.Ticketing.Pricing.Basket.{SaleLineRequest}
use project_task_cashbook_ba.Ticketing.Pricing.Quote.{
  put, sum_by, QuotedLine, quoted_line, quoted_lines,
}
use project_task_cashbook_ba.Ticketing.Pricing.Distinct.{Current}
use project_task_cashbook_ba.Ticketing.Pricing.Filled.{Known}

module _ {D : Type 0} ⦃d : Arithmetic D⦄ where
  abbrev pub total {ℓ} : {A : Type ℓ} → (A → D) → List A → D
  total f [] = zero_amount
  total f (x ∷ xs) = d.add (f x) (total f xs)

module _ {D : Type 0} ⦃d : Arithmetic D⦄ (x : IsExact D) where
  sum_by-add {ℓ} :
      {A : Type ℓ} (f : A → D) (acc : D) (xs : List A) → sum_by f acc xs ≡ d.add acc (total f xs)
  sum_by-add f acc [] =
      eq_of_units x _ _ (omega (arith, add_parts x acc zero_amount, number_zero_parts x))
  sum_by-add f acc (a ∷ bs) =
      sum_by-add f (d.add acc (f a)) bs
      ∙ eq_of_units x _ _ (
          omega (
            arith,
            add_parts x (d.add acc (f a)) (total f bs),
            add_parts x acc (f a),
            add_parts x acc (d.add (f a) (total f bs)),
            add_parts x (f a) (total f bs),
          ))

  pub sum_by-total {ℓ} :
      {A : Type ℓ} (f : A → D) (xs : List A) → sum_by f zero_amount xs ≡ total f xs
  sum_by-total f xs =
      sum_by-add f zero_amount xs
      ∙ eq_of_units x _ _ (omega (arith, add_parts x zero_amount (total f xs), number_zero_parts x))

  -- Replacing a ticket changes the total by what it adds.
  pub total-put :
      (f : WorkingTicket D → D) (t t' : WorkingTicket D) (a : D) (ts : List (WorkingTicket D))
      → t'.index ≡ t.index
      → f t' ≡ d.add (f t) a
      → Current t ts
      → total f (put t' ts) ≡ d.add (total f ts) a
  unfolding put
  total-put f t t' a [] i e c = absurd c
  total-put f t t' a (u ∷ us) i e c = elim c [
    | inl same ↦
        let here : (u.index == t'.index) ≡ true = rw (same, i) (ground arith) in
        rw (here, same, e)
          (eq_of_units x _ _ (
            omega (
              arith,
              add_parts x (d.add (f t) a) (total f us),
              add_parts x (f t) a,
              add_parts x (d.add (f t) (total f us)) a,
              add_parts x (f t) (total f us),
            )))
    | inr (ne, k) ↦
        let there : (u.index == t'.index) ≡ false = rw i ne in
        rw (there, total-put f t t' a us i e k)
          (eq_of_units x _ _ (
            omega (
              arith,
              add_parts x (f u) (d.add (total f us) a),
              add_parts x (total f us) a,
              add_parts x (d.add (f u) (total f us)) a,
              add_parts x (f u) (total f us),
            )))
  ]

  abbrev of_line : ℕ → WorkingTicket D → Bool
  of_line k t = t.line_index == k

  abbrev from_line : ℕ → WorkingTicket D → Bool
  from_line k t = leb k t.line_index

  total-split :
      (f : WorkingTicket D → D) (k : ℕ) (ts : List (WorkingTicket D))
      → total f (filter (from_line k) ts)
        ≡ d.add (total f (filter (of_line k) ts)) (total f (filter (from_line (k + 1)) ts))
  total-split f k [] =
      eq_of_units x _ _ (omega (arith, add_parts x zero_amount zero_amount, number_zero_parts x))
  total-split f k (t ∷ ts) = elim (Bool-cases (from_line k t)) [
    | inl e ↦ elim (Bool-cases (of_line k t)) [
      | inl g ↦
          let after : from_line (k + 1) t ≡ false = ground arith in
          rw (e, g, after, total-split f k ts)
            (eq_of_units x _ _ (
              omega (
                arith,
                add_parts x (f t) (
                    d.add (total f (filter (of_line k) ts))
                      (total f (filter (from_line (k + 1)) ts))),
                add_parts x (total f (filter (of_line k) ts))
                    (total f (filter (from_line (k + 1)) ts)),
                add_parts x (d.add (f t) (total f (filter (of_line k) ts)))
                    (total f (filter (from_line (k + 1)) ts)),
                add_parts x (f t) (total f (filter (of_line k) ts)),
              )))
      | inr g ↦
          let after : from_line (k + 1) t ≡ true = ground arith in
          rw (e, g, after, total-split f k ts)
            (eq_of_units x _ _ (
              omega (
                arith,
                add_parts x (f t) (
                    d.add (total f (filter (of_line k) ts))
                      (total f (filter (from_line (k + 1)) ts))),
                add_parts x (total f (filter (of_line k) ts))
                    (total f (filter (from_line (k + 1)) ts)),
                add_parts x (total f (filter (of_line k) ts))
                    (d.add (f t) (total f (filter (from_line (k + 1)) ts))),
                add_parts x (f t) (total f (filter (from_line (k + 1)) ts)),
              )))
    ]
    | inr e ↦
        let other : of_line k t ≡ false = ground arith in
        let after : from_line (k + 1) t ≡ false = ground arith in
        rw (e, other, after) (total-split f k ts)
  ]

  total-none :
      (f : WorkingTicket D → D) (k : ℕ) (ts : List (WorkingTicket D))
      → All (λ (t : WorkingTicket D). t.line_index < k) ts
      → total f (filter (from_line k) ts) ≡ zero_amount
  total-none f k [] h = refl
  total-none f k (t ∷ ts) (h, hs) =
      let before : leb k t.line_index ≡ false = ground arith in rw before (total-none f k ts hs)

  pub total-all :
      (f : WorkingTicket D → D) (ts : List (WorkingTicket D))
      → total f (filter (from_line 0) ts) ≡ total f ts
  total-all f [] = refl
  total-all f (t ∷ ts) =
      let after : leb 0 t.line_index ≡ true = ground arith in
      rw after (ap (d.add (f t)) (total-all f ts))

  -- The lines share the tickets out.
  pub total-quoted_lines :
      (f : WorkingTicket D → D) (g : QuotedLine D → D)
      → ((line : SaleLineRequest) (type : TicketTypeSnapshot D) (mine : List (WorkingTicket D))
          → g (quoted_line line type mine) ≡ total f mine)
      → (types : List (TicketTypeSnapshot D)) (lines : List SaleLineRequest) (k : ℕ)
        (ts : List (WorkingTicket D))
      → Known types lines
      → All (λ t. t.line_index < k + length lines) ts
      → total g (quoted_lines types lines k ts) ≡ total f (filter (from_line k) ts)
  unfolding quoted_lines
  total-quoted_lines f g e types [] k ts known h =
      sym (total-none f k ts (All-imp ts (λ t l. omega arith) h))
  total-quoted_lines f g e types (line ∷ lines) k ts ((type, found), known) h =
      rw (quoted_lines, found)
        (ap₂ d.add (e line type (filter (of_line k) ts)) (
            total-quoted_lines f g e types lines (k + 1) ts known
              (All-imp ts (λ t l. omega arith) h))
          ∙ sym (total-split f k ts))
