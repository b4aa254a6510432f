-- ===== src/Connectivity/Classes.antt =====
-- The representatives that `measure` collects: one for each component, and the largest size.
use repository_quality_guard.Prelude.{
  String, ℕ, ◌≤◌, ◌≡◌, ◌⊎◌, refl, sym, ap, ◌∙◌, subst, true, false, List, [], ◌∷◌, some, ◌==◌,
  eq_iff, eq_refl, arith, Bool-cases, inl, inr, length, ltb, map, contains, distinct, any_iff,
  any_of_Member, Member, here, there, Member_cases, count_true, count_true-ext,
}
use repository_quality_guard.Connectivity.{Parents, roots_of, maximum, alone}
use repository_quality_guard.Connectivity.Climb.{climb_root, Keeps, root-eq-climb}
use repository_quality_guard.Connectivity.Connected.{Linked, forth, back, same}
use repository_quality_guard.Connectivity.Invariant.{end_of, Inv}

contains_of_Member : (x : String) (xs : List String) → Member x xs → contains x xs ≡ true
contains_of_Member x xs m = any_of_Member (λ t. t == x) x xs m (eq_refl x)

pub Member_of_contains : (x : String) (xs : List String) → contains x xs ≡ true → Member x xs
Member_of_contains x xs h =
    let (y, (m, e)) = (any_iff (λ t. t == x) xs).0 h in
    subst (λ z. Member z xs) ((eq_iff y x).0 e) m

pub Member-distinct : (x : String) (xs : List String) → Member x xs → Member x (distinct xs)
unfolding distinct
Member-distinct x [] m = m
Member-distinct x (y ∷ xs) m = elim (Bool-cases (contains y (distinct xs))) [
  | inl old ↦ rw old (elim (Member_cases m) [
    | inl at ↦ Member_of_contains x (distinct xs) (rw at old)
    | inr later ↦ Member-distinct x xs later
  ])
  | inr fresh ↦ rw fresh (elim (Member_cases m) [
    | inl at ↦ subst (λ z. Member z (y ∷ distinct xs)) (sym at) here
    | inr later ↦ there (Member-distinct x xs later)
  ])
]

-- No element stands twice.
abbrev pub IsUnique : List String → Type 0
IsUnique [] = Unit
IsUnique (x ∷ xs) = (contains x xs ≡ false) × IsUnique xs

pub distinct-IsUnique : (xs : List String) → IsUnique (distinct xs)
unfolding distinct
distinct-IsUnique [] = tt
distinct-IsUnique (x ∷ xs) = elim (Bool-cases (contains x (distinct xs))) [
  | inl old ↦ rw old (distinct-IsUnique xs)
  | inr fresh ↦ rw fresh (fresh, distinct-IsUnique xs)
]

pub Member_of_distinct : (x : String) (xs : List String) → Member x (distinct xs) → Member x xs
unfolding distinct
Member_of_distinct x [] m = m
Member_of_distinct x (y ∷ xs) m = elim (Bool-cases (contains y (distinct xs))) [
  | inl old ↦ there (Member_of_distinct x xs (rw old at m))
  | inr fresh ↦
      let m' : Member x (y ∷ distinct xs) = rw fresh at m in
      elim (Member_cases m') [
        | inl at ↦ subst (λ z. Member z (y ∷ xs)) (sym at) here
        | inr later ↦ there (Member_of_distinct x xs later)
      ]
]

pub Member_of_map :
    (f : String → String) (r : String) (xs : List String)
    → Member r (map f xs)
    → (x : String) × (Member x xs × (r ≡ f x))
Member_of_map f r [] m = elim m [ ]
Member_of_map f r (x ∷ xs) m = elim (Member_cases m) [
  | inl at ↦ (x, (here, at))
  | inr later ↦ let (y, (k, e)) = Member_of_map f r xs later in (y, (there k, e))
]

pub Member-map {ℓ} :
    {B : Type ℓ} (f : String → B) {x : String} {xs : List String}
    → Member x xs
    → Member (f x) (map f xs)
Member-map f here = here
Member-map f (there m) = there (Member-map f m)

pub maximum-le : (n : ℕ) (ns : List ℕ) → Member n ns → n ≤ maximum ns
unfolding maximum
maximum-le n [] m = elim m [ ]
maximum-le n (k ∷ ns) m = elim (Member_cases m) [
  | inl at ↦ ground (arith, at)
  | inr later ↦ ground (arith, maximum-le n ns later)
]

pub maximum_attained :
    (f : String → ℕ) (xs : List String)
    → ((xs ≡ []) × (maximum (map f xs) ≡ 0))
      ⊎ ((x : String) × (Member x xs × (maximum (map f xs) ≡ f x)))
unfolding maximum
maximum_attained f [] = inl (refl, refl)
maximum_attained f (x ∷ xs) = elim (Bool-cases (ltb (maximum (map f xs)) (f x))) [
  | inl more ↦ inr (x, (here, rw more refl))
  | inr less ↦ elim (maximum_attained f xs) [
    | inl (empty, none) ↦ inr (x, (here, ground (arith, less, none)))
    | inr (y, (m, e)) ↦ inr (y, (there m, rw less e))
  ]
]

count_absent :
    (r : String) (xs : List String) → contains r xs ≡ false → count_true (λ z. z == r) xs ≡ 0
count_absent r [] h = refl
count_absent r (x ∷ xs) h = ground (arith, h, count_absent r xs)

count_unique :
    (r : String) (xs : List String) → IsUnique xs → Member r xs → count_true (λ z. z == r) xs ≡ 1
count_unique r [] unique m = elim m [ ]
count_unique r (x ∷ xs) (fresh, unique) m = elim (Member_cases m) [
  | inl at ↦
      let absent = count_absent r xs (rw at fresh) in
      ground (arith, absent, (eq_iff x r).1 (sym at))
  | inr later ↦
      let rest = count_unique r xs unique later in
      let held = contains_of_Member r xs later in ground (arith, rest, held, fresh, eq_iff x r)
]

map-ext :
    (f g : String → String) (xs : List String)
    → ((x : String) → Member x xs → f x ≡ g x)
    → map f xs ≡ map g xs
map-ext f g [] agree = refl
map-ext f g (x ∷ xs) agree = rw (agree x here, map-ext f g xs (λ z m. agree z (there m))) refl

no_Linked : {x y : String} → Linked [] x y → ⊥
no_Linked (forth e m s t) = elim m [ ]
no_Linked (back e m s t) = elim m [ ]

module _ (symbols : List String) where
  -- Each callable is by itself before any edge.
  pub Inv-alone : IsUnique symbols → Inv symbols [] alone
  Inv-alone unique = record {
    depth = λ z m. (0, (sym (climb_root (λ x. x) (length symbols) z refl), omega arith));
    rooted = λ z m. refl;
    inside = λ z m. rw (climb_root (λ x. x) (length symbols) z refl) m;
    sized = λ r m h. sym (
        count_true-ext (λ z. end_of symbols (λ t. t) z == r) (λ z. z == r) symbols
          (λ z k. ap (λ t. t == r) (climb_root (λ t. t) (length symbols) z refl))
        ∙ count_unique r symbols unique m);
    sound = λ x y m n e. same (
        sym (climb_root (λ t. t) (length symbols) x refl)
        ∙ (e ∙ climb_root (λ t. t) (length symbols) y refl));
    complete = λ x y l. absurd (no_Linked l);
  }

  pub roots_of-eq-map :
      (p : Parents) (zs : List String)
      → ((z : String) → Member z zs → p (end_of symbols p z) ≡ end_of symbols p z)
      → (q : Parents) × ((roots_of (length symbols) p zs ≡ some (q, map (end_of symbols p) zs))
          × Keeps p q)
  unfolding roots_of
  roots_of-eq-map p [] rooted = (p, (refl, λ z r d e k. (e, k)))
  roots_of-eq-map p (x ∷ xs) rooted =
      let n = length symbols in
      let (p', (found, keeps)) = root-eq-climb n p x (rooted x here) in
      let kept : (z : String)
          → Member z xs
          → (end_of symbols p' z ≡ end_of symbols p z)
            × (p' (end_of symbols p z) ≡ end_of symbols p z) =
        λ z m. keeps z (end_of symbols p z) n refl (rooted z (there m)) in
      let (q, (rest, keeps')) =
        roots_of-eq-map p' xs (λ z m. let (e, k) = kept z m in ap p' e ∙ (k ∙ sym e)) in
      (
        q,
        (
          rw (found, rest)
              (ap (λ rs. some (q, end_of symbols p x ∷ rs))
                (map-ext (end_of symbols p') (end_of symbols p) xs (λ z m. (kept z m).0))),
          λ z r d e k. let (e', k') = keeps z r d e k in keeps' z r d e' k',
        ),
      )
