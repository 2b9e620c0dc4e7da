-- ===== src/Ticketing/Pricing/Reconciled.antt =====
-- The three levels of a quote, and its summaries, agree.
use project_task_cashbook_ba.Base.{
  ℕ, ◌+◌, ◌≡◌, refl, sym, ap, ap₂, suc, ◌∙◌, subst, ◌==◌, List, [], ◌∷◌, map, length, filter, All,
  All-imp, inl, inr, Option-cases, arith,
}
use project_task_cashbook_ba.Base.Result.{ok}
use project_task_cashbook_ba.Decimal.{Arithmetic, IsExact}
use project_task_cashbook_ba.Decimal.Laws.{Le, IsNonneg, add_parts, number_zero_parts}
use project_task_cashbook_ba.Finance.Money.{zero_amount}
use project_task_cashbook_ba.Ticketing.Pricing.{TicketTypeSnapshot, WorkingTicket}
use project_task_cashbook_ba.Ticketing.Pricing.Basket.{SaleLineRequest, QuoteInput, type_by_id}
use project_task_cashbook_ba.Ticketing.Pricing.Quote.{
  Priced, QuotedTicket, QuotedLine, SaleQuote, sum_by, quoted_ticket, quoted_line, quoted_lines,
  roll_up, quote_sale,
}
use project_task_cashbook_ba.Ticketing.Pricing.Kept.{All-filter}
use project_task_cashbook_ba.Ticketing.Pricing.Filled.{quantities}
use project_task_cashbook_ba.Ticketing.Pricing.Totals.{
  total, sum_by-total, total-quoted_lines, total-all,
}
use project_task_cashbook_ba.Ticketing.Pricing.Sums.{Good, IsPriced, quote_sale-ok}

module _ {D : Type 0} ⦃d : Arithmetic D⦄ (x : IsExact D) where
  -- The discount is between zero and the gross amount, and the net amount is what it leaves.
  abbrev pub Nets : D → D → D → Type 0
  Nets gross discount net =
      Le x zero_amount discount × Le x discount gross × (net ≡ d.sub gross discount)

  total-Le :
      (n : ℕ) (ts : List (WorkingTicket D))
      → All (Good x n) ts
      → Le x zero_amount (total (λ t. t.discount) ts)
        × Le x (total (λ t. t.discount) ts) (total (λ t. t.gross) ts)
  total-Le n [] h = (omega arith, omega arith)
  total-Le n (t ∷ ts) ((lo, hi, _), hs) =
      let (lo', hi') = total-Le n ts hs in
      let discounts = add_parts x t.discount (total (λ u. u.discount) ts) in
      let prices = add_parts x t.gross (total (λ u. u.gross) ts) in
      (omega (arith, discounts, number_zero_parts x), omega (arith, discounts, prices))

  Nets-quoted_tickets :
      (n : ℕ) (ts : List (WorkingTicket D))
      → All (Good x n) ts
      → All
          (λ (t : QuotedTicket D). Nets t.gross_price t.discount_amount t.net_price)
          (map quoted_ticket ts)
  Nets-quoted_tickets n [] h = tt
  Nets-quoted_tickets n (t ∷ ts) ((lo, hi, _), hs) = ((lo, hi, refl), Nets-quoted_tickets n ts hs)

  Nets-sums :
      (n : ℕ) (ts : List (WorkingTicket D))
      → All (Good x n) ts
      → Nets
          (sum_by (λ t. t.gross) zero_amount ts)
          (sum_by (λ t. t.discount) zero_amount ts)
          (d.sub (sum_by (λ t. t.gross) zero_amount ts) (sum_by (λ t. t.discount) zero_amount ts))
  Nets-sums n ts h =
      let (lo, hi) = total-Le n ts h in
      rw
        (
          sum_by-total x (λ (t : WorkingTicket D). t.gross) ts,
          sum_by-total x (λ (t : WorkingTicket D). t.discount) ts,
        )
        (lo, hi, refl)

  Nets-quoted_lines :
      (n : ℕ) (types : List (TicketTypeSnapshot D)) (lines : List SaleLineRequest) (k : ℕ)
      (ts : List (WorkingTicket D))
      → All (Good x n) ts
      → All
          (λ (l : QuotedLine D). Nets l.line_gross l.line_discount l.line_net)
          (quoted_lines types lines k ts)
  unfolding quoted_lines
  Nets-quoted_lines n types [] k ts h = tt
  Nets-quoted_lines n types (line ∷ lines) k ts h =
      elim (Option-cases (type_by_id line.ticket_type_id types)) [
        | inl e ↦ rw (quoted_lines, e) (Nets-quoted_lines n types lines (k + 1) ts h)
        | inr (type, e) ↦
            rw (quoted_lines, e)
              (
                Nets-sums n (filter (λ (t : WorkingTicket D). t.line_index == k) ts)
                    (All-filter (Good x n) _ ts h),
                Nets-quoted_lines n types lines (k + 1) ts h,
              )
      ]

  total-lines :
      (f : WorkingTicket D → D) (g : QuotedLine D → D)
      → ((line : SaleLineRequest) (type : TicketTypeSnapshot D) (mine : List (WorkingTicket D))
          → g (quoted_line line type mine) ≡ total f mine)
      → (input : QuoteInput D) (p : Priced D) → IsPriced x input p
      → total g (quoted_lines input.types input.lines 0 p.0) ≡ total f p.0
  total-lines f g e input p v =
      total-quoted_lines x f g e input.types input.lines 0 p.0 v.known
        (All-imp p.0 (λ t good. omega (arith, good.2)) v.good)
      ∙ total-all x f p.0

  total-quoted_tickets :
      (f : WorkingTicket D → D) (g : QuotedTicket D → D)
      → ((t : WorkingTicket D) → g (quoted_ticket t) ≡ f t)
      → (ts : List (WorkingTicket D)) → total g (map quoted_ticket ts) ≡ total f ts
  total-quoted_tickets f g e [] = refl
  total-quoted_tickets f g e (t ∷ ts) = ap₂ d.add (e t) (total-quoted_tickets f g e ts)

  length-quoted_tickets : (ts : List (WorkingTicket D)) → length (map quoted_ticket ts) ≡ length ts
  length-quoted_tickets [] = refl
  length-quoted_tickets (t ∷ ts) = ap suc (length-quoted_tickets ts)

  -- Each ticket, each line and the sale have a discount between zero and their gross amount, and the
  -- net amount is what it leaves; the gross amount and the discount of the sale are the sums
  -- over its lines and the sums over its tickets; there are as many tickets as the quantities.
  abbrev pub AddsUp : QuoteInput D → SaleQuote D → Type 0
  AddsUp input q =
      All (λ (t : QuotedTicket D). Nets t.gross_price t.discount_amount t.net_price) q.tickets
      × All (λ (l : QuotedLine D). Nets l.line_gross l.line_discount l.line_net) q.lines
      × Nets q.gross_amount q.discount_amount q.net_amount
      × (q.gross_amount ≡ total (λ l. l.line_gross) q.lines)
      × (q.gross_amount ≡ total (λ t. t.gross_price) q.tickets)
      × (q.discount_amount ≡ total (λ l. l.line_discount) q.lines)
      × (q.discount_amount ≡ total (λ t. t.discount_amount) q.tickets)
      × (q.ticket_count ≡ quantities input.lines)
      × (length q.tickets ≡ quantities input.lines)

  roll_up-AddsUp :
      (input : QuoteInput D) (p : Priced D) → IsPriced x input p → AddsUp input (roll_up input p)
  roll_up-AddsUp input p v =
      let n = length input.lines in
      let lines = quoted_lines input.types input.lines 0 p.0 in
      let gross = sum_by-total x (λ (l : QuotedLine D). l.line_gross) lines in
      let discount = sum_by-total x (λ (l : QuotedLine D). l.line_discount) lines in
      let gross_tickets : total (λ (l : QuotedLine D). l.line_gross) lines
          ≡ total (λ t. t.gross) p.0 =
        total-lines (λ t. t.gross) (λ l. l.line_gross)
          (λ line type mine. sum_by-total x (λ t. t.gross) mine) input p v in
      let discount_tickets : total (λ (l : QuotedLine D). l.line_discount) lines
          ≡ total (λ t. t.discount) p.0 =
        total-lines (λ t. t.discount) (λ l. l.line_discount)
          (λ line type mine. sum_by-total x (λ t. t.discount) mine) input p v in
      let (lo, hi) = total-Le n p.0 v.good in
      (
        Nets-quoted_tickets n p.0 v.good,
        Nets-quoted_lines n input.types input.lines 0 p.0 v.good,
        (
          rw (discount, discount_tickets) lo,
          rw (gross, gross_tickets, discount, discount_tickets) hi,
          refl,
        ),
        gross,
        gross
            ∙ gross_tickets
            ∙ sym (total-quoted_tickets (λ t. t.gross) (λ t. t.gross_price) (λ t. refl) p.0),
        discount,
        discount
            ∙ discount_tickets
            ∙ sym (total-quoted_tickets (λ t. t.discount) (λ t. t.discount_amount) (λ t. refl) p.0),
        v.count,
        length-quoted_tickets p.0 ∙ v.count,
      )

  -- A quote for types with prices of zero or more adds up: each ticket, each line and the sale have
  -- a discount between zero and their gross amount, and the net amount is what it leaves; the gross
  -- amount and the discount of the sale are the sums over its lines and the sums over its tickets;
  -- and there are as many tickets as the quantities of the request.
  pub quote_sale-AddsUp :
      (input : QuoteInput D) (q : SaleQuote D)
      → All (λ t. IsNonneg x t.price) input.types
      → quote_sale input ≡ ok q
      → AddsUp input q
  quote_sale-AddsUp input q prices h =
      let (p, e, v) = quote_sale-ok x input q prices h in
      subst (AddsUp input) e (roll_up-AddsUp input p v)

  -- The summaries of a quote for types with prices of zero or more explain its discount: what they
  -- say that each rule took off sums to the discount of the sale.
  pub quote_sale_explained :
      (input : QuoteInput D) (q : SaleQuote D)
      → All (λ t. IsNonneg x t.price) input.types
      → quote_sale input ≡ ok q
      → total (λ s. s.discount_amount) q.applied_rules ≡ q.discount_amount
  quote_sale_explained input q prices h =
      let (p, e, v) = quote_sale-ok x input q prices h in
      subst
        (λ (k : SaleQuote D). total (λ s. s.discount_amount) k.applied_rules ≡ k.discount_amount) e
        (sym v.explained
          ∙ sym (
              sum_by-total x (λ (l : QuotedLine D). l.line_discount)
                (quoted_lines input.types input.lines 0 p.0)
              ∙ total-lines (λ t. t.discount) (λ l. l.line_discount)
                  (λ line type mine. sum_by-total x (λ t. t.discount) mine) input p v))
