-- ===== src/Scoped/Entries/Wellformed.antt =====
-- What the entries of an accepted profile are like.
use repository_quality_guard.Prelude.{
  String, ◌≡◌, refl, sym, Bool, true, not, ◌&&◌, ◌||◌, ◌==◌, eq_iff, contains, has_infix,
  starts_with, ends_with, List, [], ◌∷◌, Option, none, some, all, select, arith, Bool-cases, inl,
  inr,
}
use repository_quality_guard.Prelude.Checked.{Checked, valid, value_error, >>=-eq-valid}
use repository_quality_guard.Gate.Evidence.{
  Datum, Data, nil, cons, array, object, text, nothing, boolean, integer,
}
use repository_quality_guard.Scoped.Syntax.{is_exact_path, path_parts, split, is_identifier_chain}
use repository_quality_guard.Scoped.Entries.{
  ScopedRuleDisable, is_suppressible, is_symbol, same_entry, symbol_of, parse_texts, parse_fields,
  parse_entry, parse_all, from_keys, parse_scoped_disables, symbol_error, is_shape, check_code,
  check_path, text_of, value_of,
}

-- No part of the path leads upwards, it does not start or end with a slash, and no character of it is a
-- backslash or belongs to a pattern.
abbrev pub is_plain_path : String → Bool
is_plain_path path =
    not (path == "")
    && not (path == ".")
    && not (starts_with path "/")
    && not (ends_with path "/")
    && not (contains ".." (split "/" path))
    && not (has_infix "\\" path)
    && not (has_infix "*" path)
    && not (has_infix "?" path)
    && not (has_infix "[" path)
    && not (has_infix "]" path)

-- An entry for a rule of no `QG98` or `QG99` family, in a plain path, and for the whole of it or a dotted
-- name in a Python file.
abbrev pub is_wellformed : ScopedRuleDisable → Bool
is_wellformed e =
    not (starts_with e.code "QG98")
    && not (starts_with e.code "QG99")
    && is_plain_path e.path
    && (e.symbol == "" || ends_with e.path ".py" && is_identifier_chain e.symbol)

-- Each entry stands once.
abbrev pub IsUnique : List ScopedRuleDisable → Type 0
IsUnique [] = Unit
IsUnique (e ∷ es) = (all (λ e'. not (same_entry e e')) es ≡ true) × IsUnique es

contains-select :
    (q : String → Bool) (x : String) (xs : List String)
    → q x ≡ true
    → contains x (select q xs) ≡ contains x xs
contains-select q x [] h = refl
contains-select q x (y ∷ ys) h =
    let rest = contains-select q x ys h in
    elim (Bool-cases (y == x)) [
      | inl same ↦
          let e : y ≡ x = (eq_iff y x).0 same in
          let passed : q y ≡ true = rw e h in rw (passed, same) refl
      | inr off ↦ elim (Bool-cases (q y)) [
        | inl passed ↦ rw (passed, off) rest
        | inr failed ↦ rw (failed, off) rest
      ]
    ]

is_exact_path-plain : (path : String) → is_exact_path path ≡ true → is_plain_path path ≡ true
unfolding is_exact_path path_parts
is_exact_path-plain path h =
    let same = contains-select (λ p. not (p == "") && not (p == ".")) ".." (split "/" path) refl in
    ground (arith, h, same)

check_code_valid :
    (code c : String)
    → check_code code ≡ valid c
    → not (starts_with c "QG98") && not (starts_with c "QG99") ≡ true
unfolding check_code
check_code_valid code c h = elim (Bool-cases (is_suppressible code)) [
  | inl passed ↦
      let is : valid code ≡ valid c = rw passed at h in
      let same : code ≡ c = cc in rw (sym same) (ground (arith, passed))
  | inr failed ↦ let off : value_error _ ≡ valid c = rw failed at h in cc
]

check_path_valid :
    (repr : String → String) (path p : String)
    → check_path repr path ≡ valid p
    → is_plain_path p ≡ true
unfolding check_path
check_path_valid repr path p h = elim (Bool-cases (is_exact_path path)) [
  | inl passed ↦
      let is : valid path ≡ valid p = rw passed at h in
      let same : path ≡ p = cc in is_exact_path-plain p (rw (sym same) passed)
  | inr failed ↦ let off : value_error _ ≡ valid p = rw failed at h in cc
]

symbol_of_valid :
    (path : String) (raw : Option Datum) (symbol : String)
    → symbol_of path raw ≡ valid symbol
    → is_symbol path symbol ≡ true
unfolding symbol_of
symbol_of_valid path none symbol h = let same : "" ≡ symbol = cc in rw (sym same) refl
symbol_of_valid path (some (text given)) symbol h = elim (Bool-cases (is_symbol path given)) [
  | inl passed ↦
      let is : valid given ≡ valid symbol = rw passed at h in
      let same : given ≡ symbol = cc in rw (sym same) passed
  | inr failed ↦ let off : value_error symbol_error ≡ valid symbol = rw failed at h in cc
]
symbol_of_valid path (some nothing) symbol h = cc
symbol_of_valid path (some (boolean b)) symbol h = cc
symbol_of_valid path (some (integer n)) symbol h = cc
symbol_of_valid path (some (array d)) symbol h = cc
symbol_of_valid path (some (object d)) symbol h = cc

module _ (validate_code : String → Checked String) (repr : String → String) where
  parse_texts_valid :
      (raw_code path : String) (raw_symbol : Option Datum) (e : ScopedRuleDisable)
      → parse_texts validate_code repr raw_code path raw_symbol ≡ valid e
      → is_wellformed e ≡ true
  unfolding parse_texts
  parse_texts_valid raw_code path raw_symbol e h =
      let (code, (_, h1)) = >>=-eq-valid (validate_code raw_code) _ e h in
      let (known, (k, h2)) = >>=-eq-valid (check_code code) _ e h1 in
      let (exact, (p, h3)) = >>=-eq-valid (check_path repr path) _ e h2 in
      let (symbol, (s, h4)) = >>=-eq-valid (symbol_of exact raw_symbol) _ e h3 in
      let same : record { code = known; path = exact; symbol = symbol } ≡ e = cc in
      let c = check_code_valid code known k in
      let p' = check_path_valid repr path exact p in
      let s' = symbol_of_valid exact raw_symbol symbol s in
      rw (sym same) (ground (arith, c, p', s'))

  parse_fields_valid :
      (code path symbol : Option Datum) (e : ScopedRuleDisable)
      → parse_fields validate_code repr code path symbol ≡ valid e
      → is_wellformed e ≡ true
  unfolding parse_fields
  parse_fields_valid code path symbol e h =
      let (c, (_, h1)) = >>=-eq-valid (text_of code) _ e h in
      let (p, (_, h2)) = >>=-eq-valid (text_of path) _ e h1 in parse_texts_valid c p symbol e h2

  parse_entry_valid :
      (raw : Datum) (e : ScopedRuleDisable)
      → parse_entry validate_code repr raw ≡ valid e
      → is_wellformed e ≡ true
  unfolding parse_entry
  parse_entry_valid (object raw) e h = elim (Bool-cases (is_shape raw)) [
    | inl shaped ↦
        parse_fields_valid (value_of "code" raw) (value_of "path" raw) (value_of "symbol" raw) e
          (rw shaped at h)
    | inr shapeless ↦ let off : value_error _ ≡ valid e = rw shapeless at h in cc
  ]
  parse_entry_valid nothing e h = cc
  parse_entry_valid (boolean b) e h = cc
  parse_entry_valid (integer n) e h = cc
  parse_entry_valid (text s) e h = cc
  parse_entry_valid (array d) e h = cc

  parse_all_valid :
      (raws : Data) (es : List ScopedRuleDisable)
      → parse_all validate_code repr raws ≡ valid es
      → all is_wellformed es ≡ true
  unfolding parse_all
  parse_all_valid nil es h = let same : [] ≡ es = cc in rw (sym same) refl
  parse_all_valid (cons raw rest) es h =
      let (e, (first, h1)) = >>=-eq-valid (parse_entry validate_code repr raw) _ es h in
      let (others, (more, h2)) = >>=-eq-valid (parse_all validate_code repr rest) _ es h1 in
      let same : e ∷ others ≡ es = cc in
      rw (sym same, parse_entry_valid raw e first, parse_all_valid rest others more) refl

all-select :
    (p q : ScopedRuleDisable → Bool) (es : List ScopedRuleDisable)
    → all p es ≡ true
    → all p (select q es) ≡ true
all-select p q [] h = refl
all-select p q (e ∷ es) h = ground (arith, h, all-select p q es)

IsUnique-select :
    (q : ScopedRuleDisable → Bool) (es : List ScopedRuleDisable)
    → IsUnique es
    → IsUnique (select q es)
IsUnique-select q [] h = tt
IsUnique-select q (e ∷ es) (apart, h) = elim (Bool-cases (q e)) [
  | inl passed ↦
      rw passed (all-select (λ e'. not (same_entry e e')) q es apart, IsUnique-select q es h)
  | inr failed ↦ rw failed (IsUnique-select q es h)
]

select_passes :
    (q : ScopedRuleDisable → Bool) (es : List ScopedRuleDisable) → all q (select q es) ≡ true
select_passes q [] = refl
select_passes q (e ∷ es) = ground (arith, select_passes q es)

from_keys_laws :
    (es : List ScopedRuleDisable)
    → all is_wellformed es ≡ true
    → (all is_wellformed (from_keys es) ≡ true) × IsUnique (from_keys es)
unfolding from_keys
from_keys_laws [] h = (refl, tt)
from_keys_laws (e ∷ es) h =
    let (kept, apart) = from_keys_laws es (ground (arith, h)) in
    let kept_too = all-select is_wellformed (λ e'. not (same_entry e e')) (from_keys es) kept in
    (
      ground (arith, h, kept_too),
      (
        select_passes (λ e'. not (same_entry e e')) (from_keys es),
        IsUnique-select (λ e'. not (same_entry e e')) (from_keys es) apart,
      ),
    )

-- Each entry of an accepted value is for a rule whose code does not start with QG98 or QG99; for a path
-- that is not empty, `.` or absolute, does not end with a slash, has no `..` among its parts and no
-- backslash, star, question mark or bracket; for the whole of it, or for a dotted name if the path ends
-- with .py. And no entry stands twice.
pub parse_scoped_disables_wellformed :
    (validate_code : String → Checked String) (repr : String → String) (value : Datum)
    (es : List ScopedRuleDisable)
    → parse_scoped_disables validate_code repr value ≡ valid es
    → (all is_wellformed es ≡ true) × IsUnique es
unfolding parse_scoped_disables
parse_scoped_disables_wellformed validate_code repr (array raws) es h =
    let (entries, (parsed, h1)) = >>=-eq-valid (parse_all validate_code repr raws) _ es h in
    let same : from_keys entries ≡ es = cc in
    rw (sym same) (from_keys_laws entries (parse_all_valid validate_code repr raws entries parsed))
parse_scoped_disables_wellformed validate_code repr nothing es h = cc
parse_scoped_disables_wellformed validate_code repr (boolean b) es h = cc
parse_scoped_disables_wellformed validate_code repr (integer n) es h = cc
parse_scoped_disables_wellformed validate_code repr (text s) es h = cc
parse_scoped_disables_wellformed validate_code repr (object o) es h = cc
