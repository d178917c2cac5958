-- ===== src/Prelude/Results.antt =====
-- A Go function's `(T, error)` result as one value, over the error type of each component.
use mathlib.Core.Path.{◌≡◌, refl}
use mathlib.Core.Logic.{◌⊎◌, inl, inr}
use mathlib.Core.Bool.{Bool, true, false}

pub data Outcome {ℓ} (E A : Type ℓ) : Type ℓ where
  ok : A → Outcome E A
  err : E → Outcome E A

infixl 10 ◌>>=◌ ◌>>◌
abbrev pub ◌>>=◌ {ℓ} : {E A B : Type ℓ} → Outcome E A → (A → Outcome E B) → Outcome E B
err refused >>= next = err refused
ok value >>= next = next value

abbrev pub ◌>>◌ {ℓ} : {E A B : Type ℓ} → Outcome E A → Outcome E B → Outcome E B
first >> second = first >>= λ _. second

-- `if bad { return err }`
abbrev pub refuse_if : {E : Type 0} → Bool → E → Outcome E (Unit {0})
refuse_if false _ = ok tt
refuse_if true why = err why

-- both steps of a chain that succeeds have succeeded
pub >>=-eq-ok {ℓ} :
    {E A B : Type ℓ} (first : Outcome E A) (next : A → Outcome E B) {last : B}
    → (first >>= next) ≡ ok last
    → (value : A) × (first ≡ ok value) × (next value ≡ ok last)
>>=-eq-ok (err refused) next went = cc
>>=-eq-ok (ok value) next went = (value, refl, went)

pub Outcome-cases {ℓ} :
    {E A : Type ℓ} (m : Outcome E A) → ((e : E) × (m ≡ err e)) ⊎ ((a : A) × (m ≡ ok a))
Outcome-cases (err e) = inl (e, refl)
Outcome-cases (ok a) = inr (a, refl)

pub ok-injective {ℓ} : {E A : Type ℓ} {a b : A} → ◌≡◌ {A = Outcome E A} (ok a) (ok b) → a ≡ b
ok-injective h = cc
