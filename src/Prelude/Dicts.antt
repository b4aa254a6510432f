-- ===== src/Prelude/Dicts.antt =====
-- Python dictionaries with text keys, as lists of entries in the order of insertion.
use Prim.Native.String.{String}
use text.Mathlib.Text.{◌==◌}
use text.Mathlib.TextEquality.{eq_iff}
use text.Mathlib.TextPositions.{eq_refl}
use mathlib.Core.Path.{◌≡◌, refl}
use mathlib.Core.Logic.{◌↔◌, inl, inr}
use mathlib.Core.Bool.{Bool, true, false}
use mathlib.Core.Option
use mathlib.Core.Option.{Option, none, some}
use mathlib.Core.List.{List, [], ◌∷◌, map}
use native.Mathlib.Omega.{arith}
use repository_quality_guard.Prelude.Tests.{if◌then◌else◌, is_some, Bool-cases}
use repository_quality_guard.Prelude.Lists.{any}

pub eqb_comm : (s t : String) → (s == t) ≡ false → (t == s) ≡ false
eqb_comm s t h = elim (Bool-cases (t == s)) [
  | inl same ↦
      let e : t ≡ s = (eq_iff t s).0 same in
      let off : (s == s) ≡ false = rw e at h in let on = eq_refl s in cc
  | inr apart ↦ apart
]

pub some_inj {ℓ} : {A : Type ℓ} {x y : A} → some x ≡ some y → x ≡ y
some_inj h = cc

abbrev pub Dict {ℓ} : Type ℓ → Type ℓ
Dict A = List (String × A)

module _ {ℓ} {A : Type ℓ} where
  -- `d.get(key)`
  abbrev pub find : String → Dict A → Option A
  find key [] = none
  find key ((k, v) ∷ d) = if k == key then some v else find key d

  -- `d[key] = value`: in place, or behind the last entry.
  abbrev pub put : String → A → Dict A → Dict A
  put key value [] = (key, value) ∷ []
  put key value ((k, v) ∷ d) = if k == key then (k, value) ∷ d else (k, v) ∷ put key value d

  -- Each key stands once.
  abbrev pub IsDict : Dict A → Type 0
  IsDict [] = Unit
  IsDict ((k, v) ∷ d) = (is_some (find k d) ≡ false) × IsDict d

  pub find-put : (key : String) (value : A) (d : Dict A) → find key (put key value d) ≡ some value
  find-put key value [] = rw (eq_refl key) refl
  find-put key value ((k, v) ∷ d) = ground (arith, find-put key value d)

  pub find-put_other :
      (key other : String) (value : A) (d : Dict A)
      → (key == other) ≡ false
      → find other (put key value d) ≡ find other d
  find-put_other key other value [] h = rw h refl
  find-put_other key other value ((k, v) ∷ d) h = elim (Bool-cases (k == key)) [
    | inl same ↦
        let here : k ≡ key = (eq_iff k key).0 same in
        let away : (k == other) ≡ false = rw here h in rw (same, away) refl
    | inr apart ↦ rw (apart, find-put_other key other value d h) refl
  ]

  pub put-IsDict : (key : String) (value : A) (d : Dict A) → IsDict d → IsDict (put key value d)
  put-IsDict key value [] h = (refl, tt)
  put-IsDict key value ((k, v) ∷ d) h = elim (Bool-cases (k == key)) [
    | inl same ↦ rw same h
    | inr apart ↦
        let away : (key == k) ≡ false = eqb_comm k key apart in
        rw apart (rw (find-put_other key k value d away) h.0, put-IsDict key value d h.1)
  ]

  find_other :
      (k : String) (d : Dict A) (x : String) (u : A)
      → is_some (find k d) ≡ false
      → find x d ≡ some u
      → (k == x) ≡ false
  find_other k d x u gone found = elim (Bool-cases (k == x)) [
    | inl same ↦
        let e : k ≡ x = (eq_iff k x).0 same in
        let off : is_some (find x d) ≡ false = rw e at gone in ground (arith, found, off)
    | inr away ↦ away
  ]

  -- An entry that passes a test is what its key is found with.
  pub any-find :
      (p : String × A → Bool) (d : Dict A)
      → IsDict d
      → (any p d ≡ true) ↔ ((k : String) × ((v : A) × ((find k d ≡ some v) × (p (k, v) ≡ true))))
  any-find p [] h = ((λ e. cc), λ w. let e = w.1.1.0 in cc)
  any-find p ((k, v) ∷ d) h = (
    λ e. elim (Bool-cases (p (k, v))) [
      | inl here ↦ (k, (v, (rw (eq_refl k) refl, here)))
      | inr failed ↦
          let (x, (u, (found, passed))) = (any-find p d h.1).0 (ground (arith, e, failed)) in
          (x, (u, (rw (find_other k d x u h.0 found) found, passed)))
    ],
    λ w. elim (Bool-cases (k == w.0)) [
      | inl same ↦
          let found : some v ≡ some w.1.0 = rw same at w.1.1.0 in
          let e : k ≡ w.0 = (eq_iff k w.0).0 same in
          let ran : p (k, v) ≡ true = rw (e, some_inj found) w.1.1.1 in rw ran refl
      | inr away ↦
          let found : find w.0 d ≡ some w.1.0 = rw away at w.1.1.0 in
          ground (arith, (any-find p d h.1).1 (w.0, (w.1.0, (found, w.1.1.1))))
    ],
  )

-- The values of a dictionary, mapped.
pub find-map {ℓ₁ ℓ₂} :
    {A : Type ℓ₁} {B : Type ℓ₂} (g : A → B) (k : String) (d : Dict A)
    → find k (map (λ (e : String × A). (e.0, g e.1)) d) ≡ Option.map g (find k d)
find-map g k [] = refl
find-map g k ((l, v) ∷ d) = ground (arith, find-map g k d)

module _ {ℓ} {A : Type ℓ} where
  -- `d.pop(key, None)`
  abbrev pub remove : String → Dict A → Dict A
  remove key [] = []
  remove key ((k, v) ∷ d) = if k == key then remove key d else (k, v) ∷ remove key d

  pub find-remove : (key : String) (d : Dict A) → find key (remove key d) ≡ none
  find-remove key [] = refl
  find-remove key ((k, v) ∷ d) = elim (Bool-cases (k == key)) [
    | inl same ↦ rw same (find-remove key d)
    | inr apart ↦ rw (apart, apart) (find-remove key d)
  ]

  pub find-remove_other :
      (key other : String) (d : Dict A)
      → (key == other) ≡ false
      → find other (remove key d) ≡ find other d
  find-remove_other key other [] h = refl
  find-remove_other key other ((k, v) ∷ d) h = elim (Bool-cases (k == key)) [
    | inl same ↦
        let here : k ≡ key = (eq_iff k key).0 same in
        let away : (k == other) ≡ false = rw here h in
        rw (same, away) (find-remove_other key other d h)
    | inr apart ↦ let rest = find-remove_other key other d h in ground (arith, rest, apart)
  ]
