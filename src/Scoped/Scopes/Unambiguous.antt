-- ===== src/Scoped/Scopes/Unambiguous.antt =====
-- The scopes of a file leave out what has no unique definition.
use repository_quality_guard.Prelude.{
  String, ℕ, suc, ◌≡◌, ◌≤◌, refl, sym, ap, subst, ◌∙◌, Member, any_of_Member, any_iff, ◌↔◌, Bool,
  false, not, ◌||◌, List, [], ◌∷◌, none, some, ◌==◌, eq_iff, eq_refl, arith, Bool-cases, inl, inr,
  any, Dict, find, length, eqb, if◌then◌else◌,
}
use repository_quality_guard.Scoped.Scopes.{
  Span, Nodes, tree, visit, or_empty, is_ambiguous, owners, unique_of, parse_scopes,
}
use repository_quality_guard.Scoped.Scopes.Components.{owners-Member, owners-rest}
use repository_quality_guard.Scoped.Scopes.Defined.{defined, spans_of, find-visit, visit-IsFilled}
use repository_quality_guard.Prelude.Options.{Option-cases}
use Prim.Native.String

-- A name that is defined more than once, or that stands in such a definition.
abbrev pub is_left_out : Dict (List Span) → String → Bool
is_left_out found name = is_ambiguous found name || any (is_ambiguous found) (owners name)

fails_of_any :
    (p : String → Bool) (x : String) (xs : List String)
    → Member x xs
    → any p xs ≡ false
    → p x ≡ false
fails_of_any p x xs m h = elim (Bool-cases (p x)) [
  | inl hit ↦ let all_hit = any_of_Member p x xs m hit in cc
  | inr off ↦ off
]

find-unique_of :
    (found d : Dict (List Span)) (name : String)
    → find name (unique_of found d) ≡ (if is_left_out found name then none else find name d)
unfolding unique_of
find-unique_of found [] name = ground arith
find-unique_of found ((n, spans) ∷ d) name = elim (Bool-cases (n == name)) [
  | inl same ↦
      let e : n ≡ name = (eq_iff n name).0 same in
      let rest = find-unique_of found d name in
      elim (Bool-cases (is_left_out found name)) [
        | inl left ↦
            let gone : find name (unique_of found d) ≡ none = rw left at rest in
            rw (e, left, gone) refl
        | inr kept ↦ rw (e, kept, eq_refl name) refl
      ]
  | inr away ↦
      let rest = find-unique_of found d name in
      elim (Bool-cases (is_left_out found n)) [
        | inl left ↦ rw (left, away) rest
        | inr kept ↦ rw (kept, away) rest
      ]
]

length_of_unambiguous :
    (found : Dict (List Span)) (name : String) (spans : List Span)
    → is_ambiguous found name ≡ false
    → find name found ≡ some spans
    → length spans ≡ 1
unfolding is_ambiguous
length_of_unambiguous found name spans h e =
    let one : not (eqb (length spans) 1) ≡ false = rw (is_ambiguous, e) at h in ground (arith, one)

at_most_once :
    (found : Dict (List Span)) (name : String)
    → is_ambiguous found name ≡ false
    → length (or_empty (find name found)) ≤ 1
unfolding is_ambiguous
at_most_once found name h = elim (Option-cases (find name found)) [
  | inl gone ↦ rw gone (omega arith)
  | inr (spans, there) ↦
      let one = length_of_unambiguous found name spans h there in rw there (omega (arith, one))
]

-- The spans are those of the one definition with the full name, and what stands in front of a dot of the
-- name is the full name of at most one definition.
abbrev pub IsOnce : Nodes → String → List Span → Type 0
IsOnce nodes name spans =
    (spans_of name (defined nodes []) ≡ spans)
    × (length spans ≡ 1)
    × ((owner rest : String)
        → String.◌++◌ owner (String.◌++◌ "." rest) ≡ name
        → length (spans_of owner (defined nodes [])) ≤ 1)

kept_once :
    (nodes : Nodes) (name : String) (spans : List Span)
    → find name (parse_scopes (tree nodes)) ≡ some spans
    → (spans_of name (defined nodes []) ≡ spans)
      × (length spans ≡ 1)
      × ((owner rest : String)
          → String.◌++◌ owner (String.◌++◌ "." rest) ≡ name
          → length (spans_of owner (defined nodes [])) ≤ 1)
unfolding parse_scopes
kept_once nodes name spans h =
    let found = visit nodes [] [] in
    let read : (if is_left_out found name then none else find name found) ≡ some spans =
      sym (find-unique_of found found name) ∙ h in
    elim (Bool-cases (is_left_out found name)) [
      | inl left ↦ let off : none ≡ some spans = rw left at read in cc
      | inr kept ↦
          let there : find name found ≡ some spans = rw kept at read in
          let plain : any (is_ambiguous found) (owners name) ≡ false = ground (arith, kept) in
          (
            sym (find-visit nodes [] [] name) ∙ ap or_empty there,
            length_of_unambiguous found name spans (ground (arith, kept)) there,
            λ owner rest eq.
                let around : Member owner (owners name) =
                  subst (λ n. Member owner (owners n)) eq (owners-Member owner rest) in
                subst (λ l. length l ≤ 1) (find-visit nodes [] [] owner)
                  (at_most_once found owner
                    (fails_of_any (is_ambiguous found) owner (owners name) around plain)),
          )
    ]

too_many : (n : ℕ) → suc (suc n) ≤ 1 → ⊥
too_many n h = omega (arith, h)

unambiguous :
    (found : Dict (List Span)) (name : String)
    → (find name found ≡ some [] → ⊥)
    → length (or_empty (find name found)) ≤ 1
    → is_ambiguous found name ≡ false
unfolding is_ambiguous
unambiguous found name filled few = elim (Option-cases (find name found)) [
  | inl gone ↦ rw (is_ambiguous, gone) refl
  | inr ([], there) ↦ elim (filled there) [ ]
  | inr (s ∷ [], there) ↦ rw (is_ambiguous, there) refl
  | inr (s ∷ t ∷ more, there) ↦
      let many : suc (suc (length more)) ≤ 1 = rw there at few in
      elim (too_many (length more) many) [ ]
]

once_kept :
    (nodes : Nodes) (name : String) (spans : List Span)
    → IsOnce nodes name spans
    → find name (parse_scopes (tree nodes)) ≡ some spans
unfolding parse_scopes
once_kept nodes name spans (all_spans, one, around) =
    let found = visit nodes [] [] in
    let filled = visit-IsFilled nodes [] [] (λ n e. cc) in
    let same : or_empty (find name found) ≡ spans = find-visit nodes [] [] name ∙ all_spans in
    let single : length (or_empty (find name found)) ≡ 1 = ap length same ∙ one in
    let plain : is_ambiguous found name ≡ false =
      unambiguous found name (filled name) (omega (arith, single)) in
    let clear : any (is_ambiguous found) (owners name) ≡ false =
      elim (Bool-cases (any (is_ambiguous found) (owners name))) [
        | inl hit ↦
            let (owner, (m, unclear)) = (any_iff (is_ambiguous found) (owners name)).0 hit in
            let (rest, eq) = owners-rest owner name m in
            let few =
              subst (λ l. length l ≤ 1) (sym (find-visit nodes [] [] owner))
                (around owner rest eq) in
            let fine = unambiguous found owner (filled owner) few in cc
        | inr off ↦ off
      ] in
    let there : find name found ≡ some spans = elim (Option-cases (find name found)) [
      | inl gone ↦ let none_there : 0 ≡ 1 = rw gone at single in cc
      | inr (given, eq) ↦ let given_spans : given ≡ spans = rw eq at same in cc
    ] in
    find-unique_of found found name ∙ rw (plain, clear) there

-- The scopes of a file have a name, with spans, exactly where these are the one span of the only
-- definition of the tree with that full name, and what stands in front of any dot of the name is the full
-- name of at most one definition.
pub find-parse_scopes_iff :
    (nodes : Nodes) (name : String) (spans : List Span)
    → (find name (parse_scopes (tree nodes)) ≡ some spans) ↔ IsOnce nodes name spans
find-parse_scopes_iff nodes name spans = (kept_once nodes name spans, once_kept nodes name spans)
