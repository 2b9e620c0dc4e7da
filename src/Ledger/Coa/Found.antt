-- ===== src/Ledger/Coa/Found.antt =====
-- Lookups in rows that were added to or linked.
use project_task_cashbook_ba.Base.{
  ℕ, ◌<◌, ◌≡◌, refl, ◌==◌, Bool, true, false, none, some, List, [], ◌∷◌, ◌++◌, inl, inr, Bool-cases,
  arith,
}
use project_task_cashbook_ba.Ledger.Coa.Rows.{
  LedgerAccount, find, by_id, fresh_id, Holder, find_holder, held, owner, link,
}

pub find-append_some {ℓ} :
    {A : Type ℓ} (p : A → Bool) (xs ys : List A) (x : A)
    → find p xs ≡ some x
    → find p (xs ++ ys) ≡ some x
unfolding find
find-append_some p [] ys x h = cc
find-append_some p (y ∷ xs) ys x h = elim (Bool-cases (p y)) [
  | inl e ↦ rw e (rw e at h)
  | inr e ↦ rw e (find-append_some p xs ys x (rw e at h))
]

pub find-append_none {ℓ} :
    {A : Type ℓ} (p : A → Bool) (xs ys : List A) → find p xs ≡ none → find p (xs ++ ys) ≡ find p ys
unfolding find
find-append_none p [] ys h = refl
find-append_none p (y ∷ xs) ys h = elim (Bool-cases (p y)) [
  | inl e ↦ let found : some y ≡ none = rw e at h in cc
  | inr e ↦ rw e (find-append_none p xs ys (rw e at h))
]

pub find_single {ℓ} : {A : Type ℓ} (p : A → Bool) (x : A) → p x ≡ true → find p (x ∷ []) ≡ some x
unfolding find
find_single p x e = rw e refl

-- What is found passes the test.
pub find-passes {ℓ} :
    {A : Type ℓ} (p : A → Bool) (xs : List A) (x : A) → find p xs ≡ some x → p x ≡ true
unfolding find
find-passes p [] x h = cc
find-passes p (y ∷ xs) x h = elim (Bool-cases (p y)) [
  | inl e ↦ let same : some y ≡ some x = rw e at h in let same' : y ≡ x = cc in rw (← same') e
  | inr e ↦ find-passes p xs x (rw e at h)
]

-- An account that is there has another id than the next one.
pub find-lt-fresh_id :
    (a : ℕ) (rows : List LedgerAccount) (row : LedgerAccount)
    → find (by_id a) rows ≡ some row
    → a < fresh_id rows
unfolding find fresh_id
find-lt-fresh_id a [] row h = cc
find-lt-fresh_id a (r ∷ rows) row h = elim (Bool-cases (r.id == a)) [
  | inl e ↦ ground arith
  | inr e ↦ let below = find-lt-fresh_id a rows row (rw e at h) in ground arith
]

module _ {H : Type 0} ⦃h : Holder H⦄ where
  pub owner-link_other :
      (id n a : ℕ) (xs : List H)
      → held (find_holder id xs) ≡ none
      → a < n
      → owner a (link id n xs) ≡ owner a xs
  unfolding find owner link
  owner-link_other id n a [] q l = refl
  owner-link_other id n a (x ∷ xs) q l = elim (Bool-cases (h.id_of x == id)) [
    | inl e ↦
        let unlinked : h.link_of x ≡ none = rw e at q in
        let other : (n == a) ≡ false = ground arith in
        rw (e, owner, h.link_of-set_link n x, unlinked, other)
    | inr e ↦ rw (e, owner, owner-link_other id n a xs (rw e at q) l)
  ]
