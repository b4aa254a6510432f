-- ===== src/Commit/Fields.antt =====
-- The fields of a mapping that `values.update(raw)` leaves.
use repository_quality_guard.Prelude.{
  String, true, false, ◌≡◌, refl, ap, ◌∙◌, List, [], ◌∷◌, ◌==◌, contains, distinct, nonempty, put,
  Bool-cases, inl, inr, arith, text_sorted, nonempty-text_insert,
}
use repository_quality_guard.Gate.Evidence.{Datum, Entries, end, entry}
use repository_quality_guard.Commit.{allowed_keys, fields, update_values, unknown_keys}

put_allowed :
    (key : String) (a b c d value : Datum)
    → contains key allowed_keys ≡ true
    → (a' : Datum) × ((b' : Datum) × ((c' : Datum) × ((d' : Datum) × (put key value (fields a b c d)
              ≡ fields a' b' c' d'))))
put_allowed key a b c d value h = elim (Bool-cases ("subject_regex" == key)) [
  | inl at ↦ (value, (b, (c, (d, rw at refl))))
  | inr off ↦ elim (Bool-cases ("subject_example" == key)) [
    | inl at ↦ (a, (value, (c, (d, rw (off, at) refl))))
    | inr off_example ↦ elim (Bool-cases ("min_body_bullets" == key)) [
      | inl at ↦ (a, (b, (value, (d, rw (off, off_example, at) refl))))
      | inr off_minimum ↦
          let at : ("body_bullet_regex" == key) ≡ true =
            ground (arith, h, off, off_example, off_minimum) in
          (a, (b, (c, (value, rw (off, off_example, off_minimum, at) refl))))
    ]
  ]
]

-- With no unknown key, the mapping keeps its four fields.
pub update_values-fields :
    (raw : Entries) (a b c d : Datum)
    → nonempty (unknown_keys raw) ≡ false
    → (a' : Datum) × ((b' : Datum) × ((c' : Datum) × ((d' : Datum) × (update_values
                (fields a b c d)
                raw
              ≡ fields a' b' c' d'))))
unfolding update_values unknown_keys
update_values-fields end a b c d h = (a, (b, (c, (d, refl))))
update_values-fields (entry key value raw) a b c d h =
    elim (Bool-cases (contains key allowed_keys)) [
      | inl known ↦
          let (a', (b', (c', (d', e)))) = put_allowed key a b c d value known in
          let (w, (x, (y, (z, rest)))) = update_values-fields raw a' b' c' d' (rw known at h) in
          (w, (x, (y, (z, ap (λ values. update_values values raw) e ∙ rest))))
      | inr strange ↦ let bad : true ≡ false = rw strange at h in cc
    ]

nonempty_of_contains : (s : String) (ts : List String) → contains s ts ≡ true → nonempty ts ≡ true
nonempty_of_contains s [] h = cc
nonempty_of_contains s (t ∷ ts) h = refl

nonempty-distinct : (ss : List String) → nonempty (distinct ss) ≡ nonempty ss
unfolding distinct
nonempty-distinct [] = refl
nonempty-distinct (s ∷ ss) = elim (Bool-cases (contains s (distinct ss))) [
  | inl seen ↦ rw seen (nonempty_of_contains s (distinct ss) seen)
  | inr fresh ↦ rw fresh refl
]

nonempty-sorted : (ss : List String) → nonempty (text_sorted ss) ≡ nonempty ss
unfolding text_sorted
nonempty-sorted [] = refl
nonempty-sorted (s ∷ ss) = nonempty-text_insert s (text_sorted ss)

pub unknown-none :
    (raw : Entries)
    → nonempty (text_sorted (distinct (unknown_keys raw))) ≡ nonempty (unknown_keys raw)
unknown-none raw =
    nonempty-sorted (distinct (unknown_keys raw)) ∙ nonempty-distinct (unknown_keys raw)
