-- ===== src/Prelude/Sort.antt =====
-- `sorted(xs, key=...)`: a stable insertion sort by a numeric key.
use repository_quality_guard.Prelude.{
  ℕ, ◌<◌, ◌≡◌, ◌≢◌, ◌∙◌, ap, refl, Bool, ◌||◌, any, List, [], ◌∷◌, ◌++◌, arith, leb, if◌then◌else◌,
}

-- The third list interleaves the first two.
pub data Shuffle {ℓ} {A : Type ℓ} : List A → List A → List A → Type ℓ where
  done : Shuffle [] [] []
  left : (x : A) {xs ys zs : List A} → Shuffle xs ys zs → Shuffle (x ∷ xs) ys (x ∷ zs)
  right : (x : A) {xs ys zs : List A} → Shuffle xs ys zs → Shuffle xs (x ∷ ys) (x ∷ zs)

module _ {ℓ} {A : Type ℓ} (key : A → ℕ) where
  -- before the first element with a larger key
  unfoldable pub insert : A → List A → List A
  insert x [] = x ∷ []
  insert x (y ∷ ys) = if leb (key x) (key y) then x ∷ y ∷ ys else y ∷ insert x ys

  unfoldable pub sorted : List A → List A
  unfolding insert
  sorted [] = []
  sorted (x ∷ xs) = insert x (sorted xs)

  insert_comm :
      (x y : A) (l : List A) → key x ≢ key y → insert x (insert y l) ≡ insert y (insert x l)
  unfolding insert
  insert_comm x y [] h = ground arith
  insert_comm x y (z ∷ l) h = ground (arith, insert_comm x y l)

  abbrev pub Above : ℕ → List A → Type 0
  Above n [] = Unit
  Above n (x ∷ xs) = (n < key x) × Above n xs

  -- The keys grow along the list.
  abbrev pub IsIncreasing : List A → Type 0
  IsIncreasing [] = Unit
  IsIncreasing (x ∷ xs) = Above (key x) xs × IsIncreasing xs

  insert_front : (x : A) (l : List A) → Above (key x) l → insert x l ≡ x ∷ l
  unfolding insert
  insert_front x [] h = refl
  insert_front x (y ∷ l) h = ground arith

  sorted_middle :
      (x : A) (xs ys : List A)
      → Above (key x) xs
      → sorted (xs ++ x ∷ ys) ≡ insert x (sorted (xs ++ ys))
  unfolding sorted
  sorted_middle x [] ys h = refl
  sorted_middle x (y ∷ xs) ys h =
      rw (sorted_middle x xs ys h.1) (insert_comm y x (sorted (xs ++ ys)) (omega arith))

  Above-left : (n : ℕ) (xs ys zs : List A) → Shuffle xs ys zs → Above n zs → Above n xs
  Above-left n xs ys zs done h = tt
  Above-left n xs ys zs (left x s) h = (h.0, Above-left n _ _ _ s h.1)
  Above-left n xs ys zs (right x s) h = Above-left n _ _ _ s h.1

  -- Two lists interleaved to one with growing keys: to sort the one behind the other restores it.
  pub sorted-append :
      (xs ys zs : List A) → Shuffle xs ys zs → IsIncreasing zs → sorted (xs ++ ys) ≡ zs
  unfolding sorted
  sorted-append xs ys zs done h = refl
  sorted-append xs ys zs (left x {xs = xs'} {ys = ys'} {zs = zs'} s) h =
      rw (sorted-append xs' ys' zs' s h.1) (insert_front x zs' h.0)
  sorted-append xs ys zs (right x {xs = xs'} {ys = ys'} {zs = zs'} s) h =
      rw
        (
          sorted_middle x xs' ys' (Above-left (key x) xs' ys' zs' s h.0),
          sorted-append xs' ys' zs' s h.1,
        )
        (insert_front x zs' h.0)

module _ {ℓ} {A : Type ℓ} (before : A → A → Bool) where
  unfoldable pub insert_by : A → List A → List A
  insert_by x [] = x ∷ []
  insert_by x (y ∷ ys) = if before x y then x ∷ y ∷ ys else y ∷ insert_by x ys

  -- A stable sort by an order given as a Boolean test.
  unfoldable pub sorted_by : List A → List A
  unfolding insert_by
  sorted_by [] = []
  sorted_by (x ∷ xs) = insert_by x (sorted_by xs)

  any-insert_by : (p : A → Bool) (x : A) (ys : List A) → any p (insert_by x ys) ≡ (p x || any p ys)
  unfolding insert_by
  any-insert_by p x [] = refl
  any-insert_by p x (y ∷ ys) = ground (arith, any-insert_by p x ys)

  -- A sort keeps the elements.
  pub any-sorted_by : (p : A → Bool) (xs : List A) → any p (sorted_by xs) ≡ any p xs
  unfolding sorted_by
  any-sorted_by p [] = refl
  any-sorted_by p (x ∷ xs) =
      any-insert_by p x (sorted_by xs) ∙ ap (λ b. p x || b) (any-sorted_by p xs)
