-- ===== src/Tests/Chart.antt =====
-- A small chart of accounts: one account for each reference, in the order of first use.
use native.Mathlib.Decide.{ℕ_discrete}
use project_task_cashbook_ba.Base.{
  ℕ, zero, suc, ◌≡◌, refl, sym, ap, subst, Option, none, some, List, [], ◌∷◌, ◌++◌, inl, inr,
  length, Option-cases,
}
use project_task_cashbook_ba.Base.Result.{Result, ok, err, ok_pair}
use project_task_cashbook_ba.Ledger.{
  LedgerRef, LedgerAccountMeta, LedgerAccountClass, LedgerAccountOrigin,
}
use project_task_cashbook_ba.Ledger.Posting.Resolver.{
  LedgerError, account_missing, Resolver, IsStable,
}
use project_task_cashbook_ba.Ledger.Effect.{Describes, IsTyped, Fits, class_of_key}

unfoldable pub ledger_ref_discrete : Discrete LedgerRef
ledger_ref_discrete = hlevel ℕ_discrete

unfoldable pub index_of : LedgerRef → List LedgerRef → Option ℕ
unfolding ledger_ref_discrete
index_of r [] = none
index_of r (s ∷ c) =
    let rest = index_of r c in
    elim (ledger_ref_discrete r s) [
      | yes _ ↦ some 0
      | no _ ↦ elim rest [ some i ↦ some (suc i) | none ↦ none ]
    ]

abbrev pub nth : List LedgerRef → ℕ → Option LedgerRef
nth [] n = none
nth (s ∷ c) zero = some s
nth (s ∷ c) (suc n) = nth c n

abbrev pub meta_of : ℕ → LedgerRef → LedgerAccountMeta
meta_of a (LedgerRef.system key) = record {
  id = a;
  class = class_of_key key;
  origin = LedgerAccountOrigin.system_origin;
  currency = 0;
  wallet_account_id = none;
  cashbook_id = none;
}
meta_of a (LedgerRef.category _ key) = record {
  id = a;
  class = class_of_key key;
  origin = LedgerAccountOrigin.system_origin;
  currency = 0;
  wallet_account_id = none;
  cashbook_id = none;
}
meta_of a (LedgerRef.wallet id) = record {
  id = a;
  class = LedgerAccountClass.asset;
  origin = LedgerAccountOrigin.wallet_origin;
  currency = 0;
  wallet_account_id = some id;
  cashbook_id = none;
}
meta_of a (LedgerRef.book_cash id) = record {
  id = a;
  class = LedgerAccountClass.asset;
  origin = LedgerAccountOrigin.book_cash_origin;
  currency = 0;
  wallet_account_id = none;
  cashbook_id = some id;
}
meta_of a (LedgerRef.explicit id) = record {
  id = a;
  class = LedgerAccountClass.equity;
  origin = LedgerAccountOrigin.user_origin;
  currency = 0;
  wallet_account_id = none;
  cashbook_id = none;
}

abbrev found : ℕ → Option LedgerRef → Result LedgerError LedgerAccountMeta
found a (some ref) = ok (meta_of a ref)
found a none = err account_missing

instance abbrev pub small_chart : Resolver (List LedgerRef)
small_chart = record {
  resolve = λ c workspace currency ref. elim (index_of ref c) [
    | some i ↦ ok (c, i)
    | none ↦ ok (c ++ (ref ∷ []), length c)
  ];
  meta_for = λ c a. found a (nth c a);
}

nth-append :
    (c : List LedgerRef) (a : ℕ) (r s : LedgerRef)
    → nth c a ≡ some s
    → nth (c ++ (r ∷ [])) a ≡ some s
nth-append [] a r s h = cc
nth-append (t ∷ c) zero r s h = h
nth-append (t ∷ c) (suc a) r s h = nth-append c a r s h

pub found-append :
    (c : List LedgerRef) (a : ℕ) (r : LedgerRef) (m : LedgerAccountMeta)
    → found a (nth c a) ≡ ok m
    → found a (nth (c ++ (r ∷ [])) a) ≡ ok m
found-append c a r m h = elim (Option-cases (nth c a)) [
  | inl n ↦ let failed : err account_missing ≡ ok m = rw n at h in cc
  | inr (s, e) ↦ rw (nth-append c a r s e) (rw e at h)
]

abbrev pub stable : IsStable (List LedgerRef)
stable = record {
  meta_for-resolve = λ c c' w y ref a b m p h. elim (Option-cases (index_of ref c)) [
    | inl n ↦
        subst (λ k. found a (nth k a) ≡ ok m) (ok_pair _ c' _ b (rw (n, small_chart) at p)).0
          (found-append c a ref m h)
    | inr (i, e) ↦
        subst (λ k. found a (nth k a) ≡ ok m) (ok_pair _ c' _ b (rw (e, small_chart) at p)).0 h
  ];
}

found-index_of :
    (ref : LedgerRef) (c : List LedgerRef) (i : ℕ) → index_of ref c ≡ some i → nth c i ≡ some ref
unfolding index_of
found-index_of ref [] i h = cc
found-index_of ref (s ∷ c) i h =
    elim (ledger_ref_discrete ref s)
        as (λ e.
          (elim e [
            | yes _ ↦ some 0
            | no _ ↦ elim (index_of ref c) [ some j ↦ some (suc j) | none ↦ none ]
          ])
            ≡ some i
          → nth (s ∷ c) i ≡ some ref) [
            | yes e ↦ λ q.
                let zero_eq : 0 ≡ i = cc in
                subst (λ j. nth (s ∷ c) j ≡ some ref) zero_eq (ap (λ t. some t) (sym e))
            | no _ ↦ λ q. elim (Option-cases (index_of ref c)) [
              | inl n ↦ let failed : none ≡ some i = rw n at q in cc
              | inr (j, e) ↦
                  let q' : some (suc j) ≡ some i = rw e at q in
                  let suc_eq : suc j ≡ i = cc in
                  subst (λ k. nth (s ∷ c) k ≡ some ref) suc_eq (found-index_of ref c j e)
            ]
          ]
      h

nth-last : (c : List LedgerRef) (ref : LedgerRef) → nth (c ++ (ref ∷ [])) (length c) ≡ some ref
nth-last [] ref = refl
nth-last (s ∷ c) ref = nth-last c ref

-- The account that a reference resolves to is the reference's.
nth-resolve :
    (ref : LedgerRef) (c c' : List LedgerRef) (w y a : ℕ)
    → small_chart.resolve c w y ref ≡ ok (c', a)
    → nth c' a ≡ some ref
nth-resolve ref c c' w y a h = elim (Option-cases (index_of ref c)) [
  | inl n ↦
      let (e, f) = ok_pair (c ++ (ref ∷ [])) c' (length c) a (rw (n, small_chart) at h) in
      subst (λ k. nth k a ≡ some ref) e
        (subst (λ k. nth (c ++ (ref ∷ [])) k ≡ some ref) f (nth-last c ref))
  | inr (i, q) ↦
      let (e, f) = ok_pair c c' i a (rw (q, small_chart) at h) in
      subst (λ k. nth k a ≡ some ref) e
        (subst (λ k. nth c k ≡ some ref) f (found-index_of ref c i q))
]

pub fitting :
    (ref : LedgerRef) → ((a : ℕ) → Fits ref (meta_of a ref)) → Describes (List LedgerRef) ref
fitting ref h c c' w y a p = (meta_of a ref, ap (found a) (nth-resolve ref c c' w y a p), h a)

abbrev pub typed : IsTyped (List LedgerRef)
typed = record {
  system-Describes = λ key.
      fitting (LedgerRef.system key) (λ a. record { kind = refl; book = refl; wallet = refl });
  wallet-Describes =
      λ id. fitting (LedgerRef.wallet id) (λ a. record { kind = refl; book = refl; wallet = refl });
  book_cash-Describes = λ id.
      fitting (LedgerRef.book_cash id) (λ a. record { kind = refl; book = refl; wallet = refl });
}
