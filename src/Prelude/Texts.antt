-- ===== src/Prelude/Texts.antt =====
-- Texts: formatting, decimal numerals, and the tests of `str` that the code uses.
use Prim.Native.Nat.{ℕ, zero, suc, ◌/◌, ◌%◌, Ordering}
use Prim.Native.String
use Prim.Native.String.{String}
use mathlib.Core.Bool.{Bool, true, false, ◌||◌}
use mathlib.Core.List.{List, [], ◌∷◌}
use mathlib.Core.Path.{◌≡◌, refl}
use native.Mathlib.Omega.{arith}
use text.Mathlib.Text.{◌==◌, starts_with}
use repository_quality_guard.Prelude.Tests.{if◌then◌else◌, ltb}
use repository_quality_guard.Prelude.Lists.{any, nonempty}

-- An f-string: its parts in order.
unfoldable pub format : List String → String
format [] = ""
format (s ∷ rest) = String.◌++◌ s (format rest)

-- `sep.join(parts)`
unfoldable pub join : String → List String → String
join sep [] = ""
join sep (s ∷ []) = s
join sep (s ∷ t ∷ rest) = String.◌++◌ s (String.◌++◌ sep (join sep (t ∷ rest)))

digit : ℕ → String
digit zero = "0"
digit (suc zero) = "1"
digit (suc (suc zero)) = "2"
digit (suc (suc (suc zero))) = "3"
digit (suc (suc (suc (suc zero)))) = "4"
digit (suc (suc (suc (suc (suc zero))))) = "5"
digit (suc (suc (suc (suc (suc (suc zero)))))) = "6"
digit (suc (suc (suc (suc (suc (suc (suc zero))))))) = "7"
digit (suc (suc (suc (suc (suc (suc (suc (suc zero)))))))) = "8"
digit _ = "9"

digits : ℕ → ℕ → String
digits zero n = ""
digits (suc fuel) n =
    let before = digits fuel (n / 10) in
    if ltb n 10 then digit n else String.◌++◌ before (digit (n % 10))

-- `str(n)`. A number has at most as many digits as its successor.
unfoldable pub decimal : ℕ → String
unfolding digit digits
decimal n = digits (suc n) n

-- `x in texts`
abbrev pub contains : String → List String → Bool
contains x texts = any (λ t. t == x) texts

-- `s.startswith(prefixes)` for a tuple of prefixes
abbrev pub starts_with_any : String → List String → Bool
starts_with_any s prefixes = any (λ p. starts_with s p) prefixes

-- `s.endswith(t)`: `t` is one of the tails of `s`
unfoldable pub ends_with : String → String → Bool
ends_with String.[] t = "" == t
ends_with (String.◌∷◌ c s) t = String.◌∷◌ c s == t || ends_with s t

-- `t in s` for two texts: one of the tails of `s` starts with `t`
unfoldable pub has_infix : String → String → Bool
has_infix t String.[] = starts_with String.[] t
has_infix t (String.◌∷◌ c s) = starts_with (String.◌∷◌ c s) t || has_infix t s

abbrev pub text_leb : String → String → Bool
text_leb s t = elim (String.compare s t) [ Ordering.gt ↦ false | _ ↦ true ]

unfoldable pub text_insert : String → List String → List String
text_insert x [] = x ∷ []
text_insert x (y ∷ ys) = if text_leb x y then x ∷ y ∷ ys else y ∷ text_insert x ys

-- `sorted(texts)`
unfoldable pub text_sorted : List String → List String
unfolding text_insert
text_sorted [] = []
text_sorted (x ∷ xs) = text_insert x (text_sorted xs)

pub nonempty-text_insert : (x : String) (ys : List String) → nonempty (text_insert x ys) ≡ true
unfolding text_insert
nonempty-text_insert x [] = refl
nonempty-text_insert x (y ∷ ys) = ground arith

-- `s < t`
abbrev pub text_ltb : String → String → Bool
text_ltb s t = elim (String.compare s t) [ Ordering.lt ↦ true | _ ↦ false ]

-- The elements of a set of texts that is built from a list.
unfoldable pub distinct : List String → List String
distinct [] = []
distinct (s ∷ ss) = let rest = distinct ss in if contains s rest then rest else s ∷ rest
