-- ===== src/Ledger/Identity/Wallets.antt =====
-- The same for the wallets: deltas, their order, and what is written.
use native.Mathlib.Decide.{ℕ_discrete}
use project_task_cashbook_ba.Base.{
  ℕ, ◌≡◌, refl, sym, ap, ◌∙◌, subst, ◌==◌, Option, none, some, List, [], ◌∷◌, inl, inr, arith,
  ==_refl, if◌then◌else◌,
}
use project_task_cashbook_ba.Base.Result.{ok, err, Result-cases}
use project_task_cashbook_ba.Decimal.{Arithmetic, IsExact}
use project_task_cashbook_ba.Finance.Money.{zero_amount}
use project_task_cashbook_ba.Ledger.Types.{ResolvedLine}
use project_task_cashbook_ba.Ledger.Posting.{
  ResolvedDraft, same_id, wallet_of, bump_wallet, bump_wallet_if, add_line, add_lines,
  increment_nonzero, update_at, apply_wallet_deltas, sort_keys, insert_key,
}
use project_task_cashbook_ba.Ledger.Posting.Resolver.{Resolver}
use project_task_cashbook_ba.Ledger.Identity.Sums.{wallet_worth, lines_sum}
use project_task_cashbook_ba.Ledger.Identity.Books.{
  add_zero, add_assoc, add_left_comm, add_right_comm, increment_nonzero_lem,
}

module _ {D : Type 0} ⦃d : Arithmetic D⦄ where
  -- The delta of wallet k.
  abbrev pub wallet_at : ℕ → List (ℕ × D) → D
  wallet_at k [] = zero_amount
  wallet_at k ((j, v) ∷ m) = d.add (if j == k then v else zero_amount) (wallet_at k m)

  module _ (x : IsExact D) where
    wallet_at-bump_wallet :
        (k id : ℕ) (a : D) (m : List (ℕ × D))
        → wallet_at k (bump_wallet m id a)
          ≡ d.add (wallet_at k m) (if id == k then a else zero_amount)
    unfolding bump_wallet
    wallet_at-bump_wallet k id a [] =
        ground (arith, add_zero x zero_amount, add_zero x (d.add zero_amount a))
    wallet_at-bump_wallet k id a ((j, v) ∷ m) =
        let w = if id == k then a else zero_amount in
        let p = if j == k then v else zero_amount in
        ground (
          arith,
          add_right_comm x v a (wallet_at k m),
          add_zero x (d.add p (wallet_at k m)),
          add_assoc x p (wallet_at k m) w,
          wallet_at-bump_wallet k id a m,
        )

    wallet_at-bump_wallet_if :
        (k : ℕ) (id : Option ℕ) (a : D) (m : List (ℕ × D))
        → wallet_at k (bump_wallet_if m id a)
          ≡ d.add (wallet_at k m) (if same_id id k then a else zero_amount)
    wallet_at-bump_wallet_if k none a m = sym (add_zero x _)
    wallet_at-bump_wallet_if k (some id) a m = wallet_at-bump_wallet k id a m

    pub wallet_at-add_lines :
        {C : Type 0} ⦃r : Resolver C⦄ (c : C) (k : ℕ) (book : Option ℕ) (ls : List (ResolvedLine D))
        (acc res : ResolvedDraft D)
        → add_lines c book ls acc ≡ ok res
        → wallet_at k res.wallet_deltas
          ≡ d.add (wallet_at k acc.wallet_deltas) (lines_sum c (wallet_worth k) ls)
    unfolding add_lines
    wallet_at-add_lines c k book [] acc res h =
        ground (arith, add_zero x (wallet_at k acc.wallet_deltas))
    wallet_at-add_lines ⦃r⦄ c k book (l ∷ ls) acc res h =
        elim (Result-cases (r.meta_for c l.ledger_account_id)) [
          | inr (e, p) ↦ let failed : err e ≡ ok res = rw p at h in cc
          | inl (meta, p) ↦
              rw (p, lines_sum)
                (wallet_at-add_lines c k book ls (add_line book meta l acc) res (rw p at h)
                  ∙ ap (λ t. d.add t (lines_sum c (wallet_worth k) ls))
                      (wallet_at-bump_wallet_if k (wallet_of meta.origin meta.wallet_account_id)
                        (d.sub l.debit l.credit) acc.wallet_deltas)
                  ∙ add_assoc x _ _ _)
        ]

    wallet_at-insert_key :
        (k : ℕ) (e : ℕ × D) (m : List (ℕ × D)) → wallet_at k (insert_key e m) ≡ wallet_at k (e ∷ m)
    wallet_at-insert_key k e [] = refl
    wallet_at-insert_key k e (g ∷ m) = ground (
      arith,
      wallet_at-insert_key k e m,
      add_left_comm x (if g.0 == k then g.1 else zero_amount)
          (if e.0 == k then e.1 else zero_amount) (wallet_at k m),
    )

    pub wallet_at-sort_keys : (k : ℕ) (m : List (ℕ × D)) → wallet_at k (sort_keys m) ≡ wallet_at k m
    wallet_at-sort_keys k [] = refl
    wallet_at-sort_keys k (e ∷ m) =
        wallet_at-insert_key k e (sort_keys m)
        ∙ ap (d.add (if e.0 == k then e.1 else zero_amount)) (wallet_at-sort_keys k m)

    wallet-update :
        (k id : ℕ) (v : D) (wallets : ℕ → D)
        → update_at wallets id (increment_nonzero (wallets id) v) k
          ≡ d.add (wallets k) (if id == k then v else zero_amount)
    wallet-update k id v wallets = elim (ℕ_discrete id k) [
      | yes e ↦
          subst
            (λ j.
              update_at wallets id (increment_nonzero (wallets id) v) j
              ≡ d.add (wallets j) (if id == j then v else zero_amount))
            e (rw (==_refl id) (increment_nonzero_lem x (wallets id) v))
      | no ne ↦ ground (arith, add_zero x (wallets k))
    ]

    pub apply_wallet_deltas_lem :
        (k : ℕ) (m : List (ℕ × D)) (wallets : ℕ → D)
        → apply_wallet_deltas wallets m k ≡ d.add (wallets k) (wallet_at k m)
    unfolding apply_wallet_deltas
    apply_wallet_deltas_lem k [] wallets = sym (add_zero x _)
    apply_wallet_deltas_lem k ((id, v) ∷ m) wallets =
        apply_wallet_deltas_lem k m _
        ∙ ap (λ t. d.add t (wallet_at k m)) (wallet-update k id v wallets)
        ∙ add_assoc x _ _ _
