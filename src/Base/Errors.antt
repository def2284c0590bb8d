-- ===== src/Base/Errors.antt =====
-- Exceptions as values: what the driver library throws, and the functions that may throw.
use Prim.Native.Nat.{ℕ}
use Prim.Native.String.{String}
use mathlib.Core.Path.{◌≡◌, refl}
use mathlib.Core.Logic.{◌⊎◌, inl, inr}
use mathlib.Core.Bool.{Bool, true, false}

-- One constructor for each `throw` of process_image.cpp and mgate_driver.cpp. The messages are
-- left out; what they are made of is kept. `undefined_access` is none of them: it stands for the
-- undefined behaviour of an access outside its area.
pub data Error : Type 0 where
  out_of_area : ℕ → ℕ → ℕ → Error
  bad_bit_index : Error
  no_integer : String → Error
  zero_size : String → Error
  outside_area : String → Error
  duplicate_tag : String → Error
  unknown_tag : String → Error
  wrong_area : String → Error
  wrong_length : String → Error
  undefined_access : Error

pub data Outcome {ℓ} (A : Type ℓ) : Type ℓ where
  err : Error → Outcome A
  ok : A → Outcome A

-- The `throw` of a test, in front of what it guards.
abbrev pub throw_if : Bool → Error → Outcome (Unit {0})
throw_if thrown e = elim thrown [ true ↦ err e | false ↦ ok tt ]

-- What follows runs only where nothing was thrown.
infixl 5 ◌>>=◌ ◌>>◌
abbrev pub ◌>>=◌ {ℓA ℓB} : {A : Type ℓA} {B : Type ℓB} → Outcome A → (A → Outcome B) → Outcome B
err thrown >>= next = err thrown
ok value >>= next = next value

abbrev pub ◌>>◌ {ℓB} : {B : Type ℓB} → Outcome (Unit {0}) → Outcome B → Outcome B
first >> next = first >>= (λ _. next)

pub >>=-eq-ok {ℓA ℓB} :
    {A : Type ℓA} {B : Type ℓB} (first : Outcome A) (next : A → Outcome B) {final : B}
    → (first >>= next) ≡ ok final
    → (value : A) × (first ≡ ok value) × (next value ≡ ok final)
>>=-eq-ok (err thrown) next returns = cc
>>=-eq-ok (ok value) next returns = (value, refl, returns)

pub ok-injective {ℓ} : {A : Type ℓ} {a b : A} → ok a ≡ ok b → a ≡ b
ok-injective h = cc

pub Outcome-cases {ℓ} :
    {A : Type ℓ} (o : Outcome A) → ((e : Error) × (o ≡ err e)) ⊎ ((a : A) × (o ≡ ok a))
Outcome-cases (err e) = inl (e, refl)
Outcome-cases (ok a) = inr (a, refl)
