-- ===== src/Prelude/Lists.antt =====
-- Lists measured by native numbers, Boolean quantifiers over lists, and their laws.
use Prim.Native.Nat.{ℕ, zero, suc, ◌+◌, ◌≤◌}
use mathlib.Core.Path.{◌≡◌, refl, sym, subst}
use mathlib.Core.Bool.{Bool, true, false, ◌&&◌, ◌||◌}
use mathlib.Core.List.{List, [], ◌∷◌, ◌++◌}
use mathlib.Core.Option.{Option, none, some}
use native.Mathlib.Omega.{arith}
use mathlib.Core.Logic.{◌↔◌, ◌⊎◌, inl, inr}
use repository_quality_guard.Prelude.Tests.{if◌then◌else◌, Bool-cases}

module _ {ℓ} {A : Type ℓ} where
  abbrev pub length : List A → ℕ
  length [] = 0
  length (x ∷ xs) = suc (length xs)

  abbrev pub get_elem? : List A → ℕ → Option A
  get_elem? [] i = none
  get_elem? (x ∷ xs) zero = some x
  get_elem? (x ∷ xs) (suc i) = get_elem? xs i

  abbrev pub take : ℕ → List A → List A
  take zero xs = []
  take (suc n) [] = []
  take (suc n) (x ∷ xs) = x ∷ take n xs

  -- Python's `any(p(x) for x in xs)` and `all(...)`.
  abbrev pub any : (A → Bool) → List A → Bool
  any p [] = false
  any p (x ∷ xs) = p x || any p xs

  abbrev pub all : (A → Bool) → List A → Bool
  all p [] = true
  all p (x ∷ xs) = p x && all p xs

  -- `[x for x in xs if p(x)]`
  abbrev pub select : (A → Bool) → List A → List A
  select p [] = []
  select p (x ∷ xs) = if p x then x ∷ select p xs else select p xs

  -- `sum(p(x) for x in xs)`
  abbrev pub count_true : (A → Bool) → List A → ℕ
  count_true p [] = 0
  count_true p (x ∷ xs) = (if p x then 1 else 0) + count_true p xs

  -- `bool(xs)`
  abbrev pub nonempty : List A → Bool
  nonempty [] = false
  nonempty (x ∷ xs) = true

module _ {ℓ} {A : Type ℓ} where
  pub length-append : (xs ys : List A) → length (xs ++ ys) ≡ length xs + length ys
  length-append [] ys = omega arith
  length-append (x ∷ xs) ys = omega (arith, length-append xs ys)

  pub count_true-le : (p : A → Bool) (xs : List A) → count_true p xs ≤ length xs
  count_true-le p [] = omega arith
  count_true-le p (x ∷ xs) = ground (arith, count_true-le p xs)

  pub all-append : (p : A → Bool) (xs ys : List A) → all p (xs ++ ys) ≡ (all p xs && all p ys)
  all-append p [] ys = refl
  all-append p (x ∷ xs) ys = ground (arith, all-append p xs ys)

  pub any-append : (p : A → Bool) (xs ys : List A) → any p (xs ++ ys) ≡ (any p xs || any p ys)
  any-append p [] ys = refl
  any-append p (x ∷ xs) ys = ground (arith, any-append p xs ys)

  -- All pass exactly when the number that passes is the length.
  pub all_of_count_true :
      (p : A → Bool) (xs : List A) → count_true p xs ≡ length xs → all p xs ≡ true
  all_of_count_true p [] h = refl
  all_of_count_true p (x ∷ xs) h = ground (arith, count_true-le p xs, all_of_count_true p xs)

  pub count_true_of_all :
      (p : A → Bool) (xs : List A) → all p xs ≡ true → count_true p xs ≡ length xs
  count_true_of_all p [] h = refl
  count_true_of_all p (x ∷ xs) h = ground (arith, count_true_of_all p xs)

-- The element stands in the list.
pub data Member {ℓ} {A : Type ℓ} : A → List A → Type ℓ where
  here : {x : A} {xs : List A} → Member x (x ∷ xs)
  there : {x y : A} {xs : List A} → Member x xs → Member x (y ∷ xs)

pub Member_cases {ℓ} :
    {A : Type ℓ} {x y : A} {xs : List A} → Member x (y ∷ xs) → (x ≡ y) ⊎ Member x xs
Member_cases here = inl refl
Member_cases (there m) = inr m

module _ {ℓ} {A : Type ℓ} where
  pub any_of_Member :
      (p : A → Bool) (x : A) (xs : List A) → Member x xs → p x ≡ true → any p xs ≡ true
  any_of_Member p x xs here h = rw h refl
  any_of_Member p x xs (there {xs = ys} m) h = ground (arith, any_of_Member p x ys m h)

  Member-of_any :
      (p : A → Bool) (xs : List A) → any p xs ≡ true → (x : A) × (Member x xs × (p x ≡ true))
  Member-of_any p [] h = cc
  Member-of_any p (x ∷ xs) h = elim (Bool-cases (p x)) [
    | inl passed ↦ (x, (here, passed))
    | inr failed ↦
        let (y, (m, passed)) = Member-of_any p xs (ground (arith, h, failed)) in
        (y, (there m, passed))
  ]

  -- `any` is true exactly when one element of the list passes.
  pub any_iff :
      (p : A → Bool) (xs : List A) → (any p xs ≡ true) ↔ ((x : A) × (Member x xs × (p x ≡ true)))
  any_iff p xs = (Member-of_any p xs, λ w. any_of_Member p w.0 xs w.1.0 w.1.1)

  pub all_mono :
      (p q : A → Bool) (xs : List A)
      → ((x : A) → p x ≡ true → q x ≡ true)
      → all p xs ≡ true
      → all q xs ≡ true
  all_mono p q [] imp h = refl
  all_mono p q (x ∷ xs) imp h = ground (arith, h, imp x, all_mono p q xs imp)

module _ {ℓ} {A : Type ℓ} where
  pub count_true-ext :
      (f g : A → Bool) (xs : List A)
      → ((x : A) → Member x xs → f x ≡ g x)
      → count_true f xs ≡ count_true g xs
  count_true-ext f g [] same = refl
  count_true-ext f g (x ∷ xs) same =
      let rest = count_true-ext f g xs (λ y m. same y (there m)) in rw (same x here, rest) refl

  -- A test that is one of two that exclude each other.
  pub count_true-or :
      (f g h : A → Bool) (xs : List A)
      → ((x : A) → Member x xs → f x ≡ (g x || h x))
      → ((x : A) → Member x xs → (g x && h x) ≡ false)
      → count_true f xs ≡ count_true g xs + count_true h xs
  count_true-or f g h [] either apart = omega arith
  count_true-or f g h (x ∷ xs) either apart =
      let rest = count_true-or f g h xs (λ y m. either y (there m)) (λ y m. apart y (there m)) in
      ground (arith, rest, either x here, apart x here)

module _ {ℓ} {A : Type ℓ} where
  pub Member-cons : {x y : A} {xs : List A} → Member x (y ∷ xs) ↔ ((x ≡ y) ⊎ Member x xs)
  Member-cons {x} {y} {xs} = (
    λ m. Member_cases m,
    λ s. elim s [ inl at ↦ subst (λ z. Member z (y ∷ xs)) (sym at) here | inr later ↦ there later ],
  )

  pub Member-append : (x : A) (xs ys : List A) → Member x (xs ++ ys) ↔ (Member x xs ⊎ Member x ys)
  Member-append x [] ys = (λ m. inr m, λ s. elim s [ inl m ↦ elim m [ ] | inr m ↦ m ])
  Member-append x (z ∷ xs) ys =
      let rest = Member-append x xs ys in
      (
        λ m. elim (Member_cases m) [
          | inl at ↦ inl (Member-cons.1 (inl at))
          | inr later ↦ elim (rest.0 later) [ inl k ↦ inl (there k) | inr k ↦ inr k ]
        ],
        λ s. elim s [
          | inl m ↦ elim (Member_cases m) [
            | inl at ↦ Member-cons.1 (inl at)
            | inr later ↦ there (rest.1 (inl later))
          ]
          | inr m ↦ there (rest.1 (inr m))
        ],
      )

  pub Member-select :
      (p : A → Bool) (x : A) (xs : List A) → Member x (select p xs) ↔ (Member x xs × (p x ≡ true))
  Member-select p x [] = (λ m. elim m [ ], λ h. elim h.0 [ ])
  Member-select p x (y ∷ xs) =
      let rest = Member-select p x xs in
      elim (Bool-cases (p y)) [
        | inl passed ↦ rw passed (
          λ m. elim (Member_cases m) [
            | inl at ↦ (Member-cons.1 (inl at), rw at passed)
            | inr later ↦ (there (rest.0 later).0, (rest.0 later).1)
          ],
          λ (m, h). elim (Member_cases m) [
            | inl at ↦ Member-cons.1 (inl at)
            | inr later ↦ there (rest.1 (later, h))
          ],
        )
        | inr failed ↦ rw failed (
          λ m. (there (rest.0 m).0, (rest.0 m).1),
          λ (m, h). elim (Member_cases m) [
            | inl at ↦ let off : p x ≡ false = rw at failed in ground (arith, off, h)
            | inr later ↦ rest.1 (later, h)
          ],
        )
      ]
