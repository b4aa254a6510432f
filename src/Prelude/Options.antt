-- ===== src/Prelude/Options.antt =====
-- Computations that end in a value or in a lookup error, as options.
use mathlib.Core.Option.{Option, none, some}
use mathlib.Core.Bool.{true, not}
use repository_quality_guard.Prelude.Tests.{is_some}
use mathlib.Core.Path.{◌≡◌, refl}
use mathlib.Core.Logic.{◌⊎◌, inl, inr}

infixl 20 ◌>>=◌
abbrev pub ◌>>=◌ {ℓ₁ ℓ₂} : {A : Type ℓ₁} {B : Type ℓ₂} → Option A → (A → Option B) → Option B
none >>= f = none
some a >>= f = f a

pub Option-cases {ℓ} : {A : Type ℓ} (o : Option A) → (o ≡ none) ⊎ ((a : A) × (o ≡ some a))
Option-cases none = inl refl
Option-cases (some a) = inr (a, refl)

pub none_of_not_some {ℓ} : {A : Type ℓ} (o : Option A) → not (is_some o) ≡ true → o ≡ none
none_of_not_some none h = refl
none_of_not_some (some a) h = cc

-- What a computation that ends in a value went through.
pub >>=-eq-some {ℓ₁ ℓ₂} :
    {A : Type ℓ₁} {B : Type ℓ₂} (m : Option A) (f : A → Option B) (b : B)
    → (m >>= f) ≡ some b
    → (a : A) × ((m ≡ some a) × (f a ≡ some b))
>>=-eq-some none f b h = cc
>>=-eq-some (some a) f b h = (a, (refl, h))
