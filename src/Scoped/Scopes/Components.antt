-- ===== src/Scoped/Scopes/Components.antt =====
-- A dotted name, its components, and the names of the definitions around it.
use Prim.Native.String.append
use Prim.Native.String.{◌++◌}
use repository_quality_guard.Prelude.{
  String, ◌≡◌, refl, sym, ap, ◌∙◌, subst, Bool, true, false, List, [], ◌∷◌, ◌==◌, eq_iff, eq_refl,
  join, Bool-cases, inl, inr, Member, Member_cases, here, there,
}
use mathlib.Core.List
use repository_quality_guard.Scoped.Syntax.{split, split_from, letter}
use repository_quality_guard.Scoped.Scopes.{owners, enclosing}

text_append_assoc : (s t u : String) → (s ++ t) ++ u ≡ s ++ (t ++ u)
text_append_assoc String.[] t u = ap (λ v. v ++ u) (append.nil t) ∙ sym (append.nil (t ++ u))
text_append_assoc (String.◌∷◌ c s) t u =
    ap (λ v. v ++ u) (append.cons c s t)
    ∙ append.cons c (s ++ t) u
    ∙ ap (λ v. String.◌∷◌ c v) (text_append_assoc s t u)
    ∙ sym (append.cons c s (t ++ u))

letter-append : (c : _) (s : String) → letter c ++ s ≡ String.◌∷◌ c s
letter-append c s = append.cons c "" s ∙ ap (λ v. String.◌∷◌ c v) (append.nil s)

append_nil : (s : String) → s ++ "" ≡ s
append_nil String.[] = append.nil ""
append_nil (String.◌∷◌ c s) = append.cons c s "" ∙ ap (λ v. String.◌∷◌ c v) (append_nil s)

-- The separator between two texts separates their parts.
split_from-append :
    (separator part a : String) (d : _) (b : String)
    → (letter d == separator) ≡ true
    → split_from separator part (a ++ String.◌∷◌ d b)
      ≡ List.◌++◌ (split_from separator part a) (split separator b)
unfolding split_from split
split_from-append separator part String.[] d b h =
    ap (split_from separator part) (append.nil (String.◌∷◌ d b)) ∙ rw h refl
split_from-append separator part (String.◌∷◌ c a) d b h =
    ap (split_from separator part) (append.cons c a (String.◌∷◌ d b))
    ∙ elim (Bool-cases (letter c == separator)) [
      | inl same ↦ rw same (ap (λ ps. part ∷ ps) (split_from-append separator "" a d b h))
      | inr off ↦ rw off (split_from-append separator (part ++ letter c) a d b h)
    ]

split_from-cons :
    (separator part s : String)
    → (p : String) × ((ps : List String) × (split_from separator part s ≡ p ∷ ps))
unfolding split_from
split_from-cons separator part String.[] = (part, ([], refl))
split_from-cons separator part (String.◌∷◌ d s) = elim (Bool-cases (letter d == separator)) [
  | inl same ↦ (part, (split_from separator "" s, rw same refl))
  | inr off ↦
      let (p, (ps, eq)) = split_from-cons separator (part ++ letter d) s in (p, (ps, rw off eq))
]

join_more :
    (separator part p : String) (ps qs : List String)
    → qs ≡ p ∷ ps
    → join separator (part ∷ qs) ≡ part ++ (separator ++ join separator qs)
unfolding join
join_more separator part p ps qs h = rw h refl

join-split_from :
    (separator part s : String) → join separator (split_from separator part s) ≡ part ++ s
unfolding split_from join
join-split_from separator part String.[] = sym (append_nil part)
join-split_from separator part (String.◌∷◌ d s) = elim (Bool-cases (letter d == separator)) [
  | inl same ↦
      let (p, (ps, eq)) = split_from-cons separator "" s in
      let e : letter d ≡ separator = (eq_iff (letter d) separator).0 same in
      let rest = join-split_from separator "" s ∙ append.nil s in
      let whole : separator ++ s ≡ String.◌∷◌ d s =
        subst (λ t. t ++ s ≡ String.◌∷◌ d s) e (letter-append d s) in
      rw same (
        join_more separator part p ps (split_from separator "" s) eq
        ∙ ap (λ t. part ++ (separator ++ t)) rest
        ∙ ap (λ t. part ++ t) whole)
  | inr off ↦ rw off (
      join-split_from separator (part ++ letter d) s
      ∙ text_append_assoc part (letter d) s
      ∙ ap (λ t. part ++ t) (letter-append d s))
]

is_letter : String → Bool
is_letter String.[] = false
is_letter (String.◌∷◌ c String.[]) = true
is_letter (String.◌∷◌ c (String.◌∷◌ d s)) = false

split-append :
    (separator a b : String)
    → is_letter separator ≡ true
    → split separator (a ++ (separator ++ b)) ≡ List.◌++◌ (split separator a) (split separator b)
unfolding split is_letter
split-append String.[] a b h = cc
split-append (String.◌∷◌ c String.[]) a b h =
    ap (λ t. split_from (letter c) "" (a ++ t)) (letter-append c b)
    ∙ split_from-append (letter c) "" a c b (eq_refl (letter c))
split-append (String.◌∷◌ c (String.◌∷◌ d s)) a b h = cc

enclosing-Member :
    (before : List String) (x : String) (xs : List String) (y : String) (ys : List String)
    → Member (join "." (List.◌++◌ before (x ∷ xs))) (enclosing before (x ∷ List.◌++◌ xs (y ∷ ys)))
unfolding enclosing
enclosing-Member before x [] y ys = here
enclosing-Member before x (z ∷ xs) y ys = there (
    subst
      (λ zs.
        Member (join "." zs) (enclosing (List.◌++◌ before (x ∷ [])) (z ∷ List.◌++◌ xs (y ∷ ys))))
      (List.append_assoc before (x ∷ []) (z ∷ xs))
      (enclosing-Member (List.◌++◌ before (x ∷ [])) z xs y ys))

-- What stands in front of a dot of a name is among the names of the definitions around it.
pub owners-Member : (a b : String) → Member a (owners (a ++ ("." ++ b)))
unfolding owners is_letter split
owners-Member a b =
    let (x, (xs, ex)) = split_from-cons "." "" a in
    let (y, (ys, ey)) = split_from-cons "." "" b in
    let whole = split-append "." a b refl in
    let joined : join "." (x ∷ xs) ≡ a =
      ap (join ".") (sym ex) ∙ join-split_from "." "" a ∙ append.nil a in
    let found = enclosing-Member [] x xs y ys in
    let parts : split "." (a ++ ("." ++ b)) ≡ x ∷ List.◌++◌ xs (y ∷ ys) =
      whole ∙ ap (λ l. List.◌++◌ l (split "." b)) ex ∙ ap (λ l. x ∷ List.◌++◌ xs l) ey in
    subst (λ l. Member a (enclosing [] l)) (sym parts)
      (subst (λ t. Member t (enclosing [] (x ∷ List.◌++◌ xs (y ∷ ys)))) joined found)

join-append :
    (x : String) (xs : List String) (y : String) (ys : List String)
    → join "." (x ∷ List.◌++◌ xs (y ∷ ys)) ≡ join "." (x ∷ xs) ++ ("." ++ join "." (y ∷ ys))
unfolding join
join-append x [] y ys = refl
join-append x (z ∷ xs) y ys =
    ap (λ t. x ++ ("." ++ t)) (join-append z xs y ys)
    ∙ ap (λ t. x ++ t) (sym (text_append_assoc "." (join "." (z ∷ xs)) ("." ++ join "." (y ∷ ys))))
    ∙ sym (text_append_assoc x ("." ++ join "." (z ∷ xs)) ("." ++ join "." (y ∷ ys)))

enclosing-rest :
    (owner x : String) (before cs : List String)
    → Member owner (enclosing (x ∷ before) cs)
    → (rest : String) × (owner ++ ("." ++ rest) ≡ join "." (x ∷ List.◌++◌ before cs))
unfolding enclosing
enclosing-rest owner x before [] m = elim m [ ]
enclosing-rest owner x before (c ∷ []) m = elim m [ ]
enclosing-rest owner x before (c ∷ d ∷ cs) m = elim (Member_cases m) [
  | inl first ↦ (
    join "." (d ∷ cs),
    ap (λ t. t ++ ("." ++ join "." (d ∷ cs))) first
        ∙ sym (join-append x (List.◌++◌ before (c ∷ [])) d cs)
        ∙ ap (λ l. join "." (x ∷ l)) (List.append_assoc before (c ∷ []) (d ∷ cs)),
  )
  | inr later ↦
      let (rest, eq) = enclosing-rest owner x (List.◌++◌ before (c ∷ [])) (d ∷ cs) later in
      (rest, eq ∙ ap (λ l. join "." (x ∷ l)) (List.append_assoc before (c ∷ []) (d ∷ cs)))
]

first_enclosing-rest :
    (owner : String) (cs : List String)
    → Member owner (enclosing [] cs)
    → (rest : String) × (owner ++ ("." ++ rest) ≡ join "." cs)
unfolding enclosing join
first_enclosing-rest owner [] m = elim m [ ]
first_enclosing-rest owner (c ∷ []) m = elim m [ ]
first_enclosing-rest owner (c ∷ d ∷ cs) m = elim (Member_cases m) [
  | inl first ↦ (join "." (d ∷ cs), ap (λ t. t ++ ("." ++ join "." (d ∷ cs))) first)
  | inr later ↦ enclosing-rest owner c [] (d ∷ cs) later
]

-- The name of a definition around a name stands in front of a dot of it.
pub owners-rest :
    (owner name : String)
    → Member owner (owners name)
    → (rest : String) × (owner ++ ("." ++ rest) ≡ name)
unfolding owners split
owners-rest owner name m =
    let (rest, eq) = first_enclosing-rest owner (split_from "." "" name) m in
    (rest, eq ∙ join-split_from "." "" name ∙ append.nil name)
