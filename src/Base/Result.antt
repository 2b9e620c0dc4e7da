-- ===== src/Base/Result.antt =====
-- Fallible code: `throw` is `err`, over an error type of the caller's choice.
use mathlib.Core.Path.{◌≡◌, refl}
use mathlib.Core.Logic.{◌⊎◌, inl, inr}

pub data Result {ℓ} (E : Type 0) (A : Type ℓ) : Type ℓ where
  ok : A → Result E A
  err : E → Result E A

unfoldable pub Result-cases {ℓ} :
    {E : Type 0} {A : Type ℓ} (r : Result E A) → ((a : A) × (r ≡ ok a)) ⊎ ((e : E) × (r ≡ err e))
Result-cases (ok a) = inl (a, refl)
Result-cases (err e) = inr (e, refl)

infixl 5 ◌>>=◌
abbrev pub ◌>>=◌ {ℓ κ} :
    {E : Type 0} {A : Type ℓ} {B : Type κ} → Result E A → (A → Result E B) → Result E B
err failure >>= next = err failure
ok value >>= next = next value

-- Inversion of a successful bind.
pub >>=-eq-ok {ℓ κ} :
    {E : Type 0} {A : Type ℓ} {B : Type κ} (m : Result E A) (f : A → Result E B) {b : B}
    → (m >>= f) ≡ ok b
    → (a : A) × (m ≡ ok a) × (f a ≡ ok b)
>>=-eq-ok (err failure) next h = cc
>>=-eq-ok (ok value) next h = (value, refl, h)

pub ok_eq {ℓ} :
    {E : Type 0} {A : Type ℓ} (a a' : A) → (λ (r : Result E A). r ≡ ok a') (ok a) → a ≡ a'
ok_eq a a' h = cc

pub ok_pair {ℓ κ} :
    {E : Type 0} {A : Type ℓ} {B : Type κ} (a a' : A) (b b' : B)
    → (λ (r : Result E (A × B)). r ≡ ok (a', b')) (ok (a, b))
    → (a ≡ a') × (b ≡ b')
ok_pair a a' b b' h = (cc, cc)

pub ok_triple {ℓ κ ι} :
    {E : Type 0} {A : Type ℓ} {B : Type κ} {C : Type ι} (a a' : A) (b b' : B) (c c' : C)
    → (λ (r : Result E (A × B × C)). r ≡ ok (a', b', c')) (ok (a, b, c))
    → (a ≡ a') × (b ≡ b') × (c ≡ c')
ok_triple a a' b b' c c' h = (cc, cc, cc)

-- A check and then the rest.
infixl 5 ◌>>◌
abbrev pub ◌>>◌ {ℓ} : {E : Type 0} {B : Type ℓ} → Result E (Unit {0}) → Result E B → Result E B
check >> next = check >>= λ _. next
