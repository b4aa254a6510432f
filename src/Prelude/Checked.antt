-- ===== src/Prelude/Checked.antt =====
-- Computations that end in a value or in a ValueError with its text.
use Prim.Native.String.{String}
use mathlib.Core.Path.{◌≡◌, refl}

pub data Checked {ℓ} (A : Type ℓ) : Type ℓ where
  valid : A → Checked A
  value_error : String → Checked A

infixl 20 ◌>>=◌
abbrev pub ◌>>=◌ {ℓ₁ ℓ₂} : {A : Type ℓ₁} {B : Type ℓ₂} → Checked A → (A → Checked B) → Checked B
valid a >>= f = f a
value_error message >>= f = value_error message

-- What a computation that ends in a value went through.
pub >>=-eq-valid {ℓ₁ ℓ₂} :
    {A : Type ℓ₁} {B : Type ℓ₂} (m : Checked A) (f : A → Checked B) (b : B)
    → (m >>= f) ≡ valid b
    → (a : A) × ((m ≡ valid a) × (f a ≡ valid b))
>>=-eq-valid (valid a) f b h = (a, (refl, h))
>>=-eq-valid (value_error message) f b h = cc
