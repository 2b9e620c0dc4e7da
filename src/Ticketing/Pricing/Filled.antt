-- ===== src/Ticketing/Pricing/Filled.antt =====
-- The tickets that a basket is expanded into.
use project_task_cashbook_ba.Base.{
  ℕ, zero, suc, ◌+◌, ◌<◌, ◌≤◌, ◌≡◌, subst, ◌∙◌, ◌==◌, none, some, List, [], ◌∷◌, ◌++◌, length,
  length-append, All, All-imp, All-append, inl, inr, Option-cases, Bool-cases, arith,
}
use project_task_cashbook_ba.Base.Result.{ok, err}
use project_task_cashbook_ba.Decimal.{Arithmetic}
use project_task_cashbook_ba.Ticketing.Pricing.{TicketTypeSnapshot, WorkingTicket}
use project_task_cashbook_ba.Ticketing.Pricing.Basket.{
  SaleLineRequest, unknown_ticket_type, type_by_id, head, add_heads, expand,
}
use project_task_cashbook_ba.Ticketing.Pricing.Distinct.{Apart, Distinct}

abbrev pub quantities : List SaleLineRequest → ℕ
quantities [] = 0
quantities (l ∷ ls) = l.quantity + quantities ls

module _ {D : Type 0} ⦃d : Arithmetic D⦄ where
  abbrev pub Numbered : List (WorkingTicket D) → Type 0
  Numbered ts = Distinct ts × All (λ t. t.index < length ts) ts

  Distinct-append_one :
      (ts : List (WorkingTicket D)) (x : WorkingTicket D)
      → All (λ t. t.index < x.index) ts
      → Distinct ts
      → Distinct (ts ++ x ∷ [])
  Distinct-append_one [] x h k = (tt, tt)
  Distinct-append_one (t ∷ ts) x (h, hs) (k, ks) =
      (All-append (Apart t) ts (x ∷ []) k (ground arith, tt), Distinct-append_one ts x hs ks)

  Numbered-add_heads :
      (type : TicketTypeSnapshot D) (line n : ℕ) (ts : List (WorkingTicket D))
      → Numbered ts
      → Numbered (add_heads type line n ts)
  unfolding add_heads
  Numbered-add_heads type line zero ts h = h
  Numbered-add_heads type line (suc n) ts (h, hs) =
      let one = length-append ts (head type line (length ts) ∷ []) in
      Numbered-add_heads type line n (ts ++ head type line (length ts) ∷ []) (
        Distinct-append_one ts (head type line (length ts)) hs h,
        All-append _ ts (head type line (length ts) ∷ [])
            (All-imp ts (λ t l. omega (arith, one)) hs) (omega (arith, one), tt),
      )

  All-add_heads {κ} :
      (P : WorkingTicket D → Type κ) (type : TicketTypeSnapshot D) (line n : ℕ)
      (ts : List (WorkingTicket D))
      → ((i : ℕ) → P (head type line i))
      → All P ts
      → All P (add_heads type line n ts)
  unfolding add_heads
  All-add_heads P type line zero ts f h = h
  All-add_heads P type line (suc n) ts f h =
      All-add_heads P type line n _ f (All-append P ts _ h (f (length ts), tt))

  length-add_heads :
      (type : TicketTypeSnapshot D) (line n : ℕ) (ts : List (WorkingTicket D))
      → length (add_heads type line n ts) ≡ length ts + n
  unfolding add_heads
  length-add_heads type line zero ts = omega arith
  length-add_heads type line (suc n) ts = omega (
    arith,
    length-add_heads type line n (ts ++ head type line (length ts) ∷ []),
    length-append ts (head type line (length ts) ∷ []),
  )

  All-type_by_id {κ} :
      (Q : TicketTypeSnapshot D → Type κ) (id : ℕ) (types : List (TicketTypeSnapshot D))
      (type : TicketTypeSnapshot D)
      → All Q types
      → type_by_id id types ≡ some type
      → Q type
  unfolding type_by_id
  All-type_by_id Q id [] type h e = cc
  All-type_by_id Q id (t ∷ ts) type (h, hs) e = elim (Option-cases (type_by_id id ts)) [
    | inr (u, f) ↦ All-type_by_id Q id ts type hs (f ∙ (rw f at e))
    | inl f ↦ elim (Bool-cases (t.id == id)) [
      | inl g ↦
          let same : some t ≡ some type = rw (f, g) at e in
          let same' : t ≡ type = cc in subst Q same' h
      | inr g ↦ let failed : none ≡ some type = rw (f, g) at e in cc
    ]
  ]

  abbrev pub Known : List (TicketTypeSnapshot D) → List SaleLineRequest → Type 0
  Known types = All (λ (l : SaleLineRequest).
      (t : TicketTypeSnapshot D) × (type_by_id l.ticket_type_id types ≡ some t))

  -- Every line has its type; the tickets are numbered, as many as the quantities say, and
  -- each is a fresh head of its line.
  pub expand-ok {κ} :
      (Q : TicketTypeSnapshot D → Type 0) (P : WorkingTicket D → Type κ) (n : ℕ)
      → ((type : TicketTypeSnapshot D) (line i : ℕ) → Q type → line < n → P (head type line i))
      → (types : List (TicketTypeSnapshot D)) (lines : List SaleLineRequest) (k : ℕ)
        (ts ts' : List (WorkingTicket D))
      → All Q types
      → k + length lines ≤ n
      → Numbered ts
      → All P ts
      → expand types lines k ts ≡ ok ts'
      → Known types lines × Numbered ts' × All P ts' × (length ts' ≡ length ts + quantities lines)
  unfolding expand
  expand-ok Q P n f types [] k ts ts' q l h p e =
      let same : ts ≡ ts' = cc in rw (← same) (tt, h, p, omega arith)
  expand-ok Q P n f types (line ∷ lines) k ts ts' q l h p e =
      elim (Option-cases (type_by_id line.ticket_type_id types)) [
        | inl none_found ↦
            let failed : err (unknown_ticket_type line.ticket_type_id) ≡ ok ts' =
              rw (none_found, expand) at e in
            cc
        | inr (type, found) ↦
            let (known, numbered, all, count) =
              expand-ok Q P n f types lines (k + 1) (add_heads type k line.quantity ts) ts' q
                (omega arith) (Numbered-add_heads type k line.quantity ts h)
                (All-add_heads P type k line.quantity ts
                  (λ i.
                    f type k i (All-type_by_id Q line.ticket_type_id types type q found)
                      (omega arith))
                  p)
                (rw (found, expand) at e) in
            (
              ((type, found), known),
              numbered,
              all,
              omega (arith, count, length-add_heads type k line.quantity ts),
            )
      ]
