-- ===== src/Go/Outcome.antt =====
-- The ways in which a Go call ends: it returns a value, it returns an error with its message, or
-- it panics (an index or a slice bound out of range).
use interlock_old.Prelude.{◌≡◌, refl, ◌⊎◌, inl, inr, String}

pub data Outcome {ℓ} (A : Type ℓ) : Type ℓ where
  ok : A → Outcome A
  err : String → Outcome A
  panic : Outcome A

-- The next call is made when this one returned; it is open everywhere, for do blocks to compute.
infixl 5 ◌>>=◌
abbrev pub ◌>>=◌ {ℓ κ} : {R : Type ℓ} {S : Type κ} → Outcome R → (R → Outcome S) → Outcome S
panic >>= next = panic
err e >>= next = err e
ok r >>= next = next r

-- Inversion of a bind that returned a value.
pub >>=-eq-ok {ℓ κ} :
    {R : Type ℓ} {S : Type κ} (first : Outcome R) (next : R → Outcome S) {end : S}
    → (first >>= next) ≡ ok end
    → (r : R) × (first ≡ ok r) × (next r ≡ ok end)
>>=-eq-ok panic next returned = cc
>>=-eq-ok (err e) next returned = cc
>>=-eq-ok (ok r) next returned = (r, refl, returned)

pub Outcome-cases {ℓ} :
    {A : Type ℓ} (m : Outcome A)
    → ((a : A) × (m ≡ ok a)) ⊎ ((e : String) × (m ≡ err e)) ⊎ (m ≡ panic)
Outcome-cases (ok a) = inl (a, refl)
Outcome-cases (err e) = inr (inl (e, refl))
Outcome-cases panic = inr (inr refl)

pub ok-injective {ℓ} : {A : Type ℓ} {a b : A} → ok a ≡ ok b → a ≡ b
ok-injective h = cc
