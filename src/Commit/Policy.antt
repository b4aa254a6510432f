-- ===== src/Commit/Policy.antt =====
-- What `parse_commit_policy` accepts: complete policies, which it accepts again as they are.
use repository_quality_guard.Prelude.{
  String, ℕ, ◌≤◌, Bool, true, false, not, ◌||◌, ◌≡◌, refl, sym, ap, ◌∙◌, subst, Option, some, ◌==◌,
  distinct, leb, leb→le, nonempty, Dict, find, is_some, Bool-cases, inl, inr, arith, text_sorted,
}
use repository_quality_guard.Prelude.Options.{Option-cases}
use repository_quality_guard.Prelude.Integers.{pos, negsuc}
use repository_quality_guard.Prelude.Checked.{valid, >>=-eq-valid}
use repository_quality_guard.Gate.Evidence.{
  Datum, nothing, boolean, integer, text, array, object, object_of,
}
use repository_quality_guard.Commit.Fields.{update_values-fields, unknown-none}
use repository_quality_guard.Commit.{
  fields, default_commit_policy, update_values, unknown_keys, check_text, check_minimum,
  check_pattern, check_values, parse_commit_policy,
}

-- No pattern, or one that compiles.
abbrev pub compiles : (String → Option String) → String → Bool
compiles compile pattern = pattern == "" || not (is_some (compile pattern))

-- A complete policy: four fields of their types, at most 20 bullets, and patterns that compile.
abbrev pub IsPolicy : (String → Option String) → Dict Datum → Type 0
IsPolicy compile policy =
    (subject : String) × ((example : String) × ((n : ℕ) × ((bullet : String) × ((policy
              ≡ fields (text subject) (text example) (integer (pos n)) (text bullet))
            × (n ≤ 20)
            × (compiles compile subject ≡ true)
            × (compiles compile bullet ≡ true)))))

check_pattern-compiles :
    (compile : String → Option String) (field pattern found : String)
    → check_pattern compile field pattern ≡ valid found
    → compiles compile pattern ≡ true
unfolding check_pattern
check_pattern-compiles compile field pattern found h = elim (Bool-cases (pattern == "")) [
  | inl absent ↦ rw absent refl
  | inr given ↦ elim (Option-cases (compile pattern)) [
    | inl fine ↦ rw (given, fine) refl
    | inr (error, raised) ↦ let bad = rw (given, raised) at h in cc
  ]
]

compiles-check_pattern :
    (compile : String → Option String) (field pattern : String)
    → compiles compile pattern ≡ true
    → check_pattern compile field pattern ≡ valid pattern
unfolding check_pattern
compiles-check_pattern compile field pattern h = elim (Bool-cases (pattern == "")) [
  | inl absent ↦ rw absent refl
  | inr given ↦ elim (Option-cases (compile pattern)) [
    | inl fine ↦ rw (given, fine) refl
    | inr (error, raised) ↦ let bad : false ≡ true = rw (given, raised) at h in cc
  ]
]

-- The value of a field that has passed its check.
checked_text :
    (field found : String) (values : Dict Datum) (x : Datum)
    → find field values ≡ some x
    → check_text field values ≡ valid found
    → x ≡ text found
unfolding check_text
checked_text field found values nothing at h = let bad = rw (check_text, at) at h in cc
checked_text field found values (boolean b) at h = let bad = rw (check_text, at) at h in cc
checked_text field found values (integer n) at h = let bad = rw (check_text, at) at h in cc
checked_text field found values (text s) at h =
    let same : valid s ≡ valid found = rw (check_text, at) at h in
    let e : s ≡ found = cc in ap text e
checked_text field found values (array d) at h = let bad = rw (check_text, at) at h in cc
checked_text field found values (object d) at h = let bad = rw (check_text, at) at h in cc

checked_minimum :
    (n : ℕ) (values : Dict Datum) (x : Datum)
    → find "min_body_bullets" values ≡ some x
    → check_minimum values ≡ valid n
    → (x ≡ integer (pos n)) × (n ≤ 20)
unfolding check_minimum
checked_minimum n values nothing at h = let bad = rw (check_minimum, at) at h in cc
checked_minimum n values (boolean b) at h = let bad = rw (check_minimum, at) at h in cc
checked_minimum n values (integer (pos m)) at h = elim (Bool-cases (leb m 20)) [
  | inl few ↦
      let same : valid m ≡ valid n = rw (check_minimum, at, few) at h in
      let e : m ≡ n = cc in (ap (λ k. integer (pos k)) e, subst (λ k. k ≤ 20) e (leb→le m 20 few))
  | inr many ↦ let bad = rw (check_minimum, at, many) at h in cc
]
checked_minimum n values (integer (negsuc m)) at h = let bad = rw (check_minimum, at) at h in cc
checked_minimum n values (text s) at h = let bad = rw (check_minimum, at) at h in cc
checked_minimum n values (array d) at h = let bad = rw (check_minimum, at) at h in cc
checked_minimum n values (object d) at h = let bad = rw (check_minimum, at) at h in cc

valid_inj : {A : Type 0} {x y : A} → valid x ≡ valid y → x ≡ y
valid_inj h = cc

fields-ap :
    {a b c d a' b' c' d' : Datum}
    → a ≡ a'
    → b ≡ b'
    → c ≡ c'
    → d ≡ d'
    → fields a b c d ≡ fields a' b' c' d'
fields-ap p q r s = cc

check_values-IsPolicy :
    (compile : String → Option String) (a b c d : Datum) (policy : Dict Datum)
    → check_values compile (fields a b c d) ≡ valid policy
    → IsPolicy compile policy
unfolding check_values
check_values-IsPolicy compile a b c d policy h =
    let values = fields a b c d in
    let (s, (checked_s, h_s)) = >>=-eq-valid (check_text "subject_regex" values) _ policy h in
    let (e, (checked_e, h_e)) = >>=-eq-valid (check_text "subject_example" values) _ policy h_s in
    let (n, (checked_n, h_n)) = >>=-eq-valid (check_minimum values) _ policy h_e in
    let (t, (checked_t, h_t)) = >>=-eq-valid (check_text "body_bullet_regex" values) _ policy h_n in
    let (p, (fine_s, h_p)) = >>=-eq-valid (check_pattern compile "subject_regex" s) _ policy h_t in
    let (q, (fine_t, h_q)) =
      >>=-eq-valid (check_pattern compile "body_bullet_regex" t) _ policy h_p in
    let same : values ≡ policy = valid_inj h_q in
    let at_s = checked_text "subject_regex" s values a refl checked_s in
    let at_e = checked_text "subject_example" e values b refl checked_e in
    let (at_n, few) = checked_minimum n values c refl checked_n in
    let at_t = checked_text "body_bullet_regex" t values d refl checked_t in
    let at : policy ≡ fields (text s) (text e) (integer (pos n)) (text t) =
      sym same ∙ fields-ap at_s at_e at_n at_t in
    (
      s,
      (
        e,
        (
          n,
          (
            t,
            (
              at,
              few,
              check_pattern-compiles compile "subject_regex" s p fine_s,
              check_pattern-compiles compile "body_bullet_regex" t q fine_t,
            ),
          ),
        ),
      ),
    )

check_fields :
    (compile : String → Option String) (s e t : String) (n : ℕ)
    → n ≤ 20
    → compiles compile s ≡ true
    → compiles compile t ≡ true
    → check_values compile (fields (text s) (text e) (integer (pos n)) (text t))
      ≡ valid (fields (text s) (text e) (integer (pos n)) (text t))
unfolding check_values check_text check_minimum
check_fields compile s e t n few fine_s fine_t =
    let within : leb n 20 ≡ true = ground (arith, few) in
    let first = compiles-check_pattern compile "subject_regex" s fine_s in
    let last = compiles-check_pattern compile "body_bullet_regex" t fine_t in
    rw (within, first, last) refl

accepted-fields :
    (compile : String → Option String) (s e t : String) (n : ℕ)
    → n ≤ 20
    → compiles compile s ≡ true
    → compiles compile t ≡ true
    → parse_commit_policy compile (object_of (fields (text s) (text e) (integer (pos n)) (text t)))
      ≡ valid (fields (text s) (text e) (integer (pos n)) (text t))
unfolding parse_commit_policy update_values unknown_keys distinct text_sorted
accepted-fields compile s e t n few fine_s fine_t = check_fields compile s e t n few fine_s fine_t

default-IsPolicy : (compile : String → Option String) → IsPolicy compile default_commit_policy
default-IsPolicy compile = ("", ("", (0, ("", (refl, omega arith, refl, refl)))))

parsed-IsPolicy :
    (compile : String → Option String) (raw : Datum) (policy : Dict Datum)
    → parse_commit_policy compile raw ≡ valid policy
    → IsPolicy compile policy
unfolding parse_commit_policy
parsed-IsPolicy compile nothing policy h =
    subst (IsPolicy compile) (valid_inj h) (default-IsPolicy compile)
parsed-IsPolicy compile (object raw) policy h = elim (Bool-cases (nonempty (unknown_keys raw))) [
  | inl strange ↦ let bad = rw (unknown-none raw ∙ strange) at h in cc
  | inr known ↦
      let (a, (b, (c, (d, e)))) =
        update_values-fields raw (text "") (text "") (integer (pos 0)) (text "") known in
      let checked : check_values compile (update_values default_commit_policy raw) ≡ valid policy =
        rw (unknown-none raw ∙ known) at h in
      check_values-IsPolicy compile a b c d policy (rw e at checked)
]
parsed-IsPolicy compile (boolean b) policy h = cc
parsed-IsPolicy compile (integer n) policy h = cc
parsed-IsPolicy compile (text s) policy h = cc
parsed-IsPolicy compile (array d) policy h = cc

-- A policy that `parse_commit_policy` returns has the four fields and no other: three texts and a number
-- of at most 20, with patterns that are empty or compile; and parsed again it is returned as it is.
pub parse_commit_policy-IsPolicy :
    (compile : String → Option String) (raw : Datum) (policy : Dict Datum)
    → parse_commit_policy compile raw ≡ valid policy
    → IsPolicy compile policy × (parse_commit_policy compile (object_of policy) ≡ valid policy)
parse_commit_policy-IsPolicy compile raw policy h =
    let whole = parsed-IsPolicy compile raw policy h in
    let (s, (e, (n, (t, (at, few, fine_s, fine_t))))) = whole in
    (
      whole,
      subst (λ p. parse_commit_policy compile (object_of p) ≡ valid p) (sym at)
          (accepted-fields compile s e t n few fine_s fine_t),
    )
