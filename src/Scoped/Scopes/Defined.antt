-- ===== src/Scoped/Scopes/Defined.antt =====
-- The definitions of a tree in order, and what the dictionary of `visit` says of them.
use repository_quality_guard.Prelude.{
  String, ◌≡◌, refl, sym, ap, ◌∙◌, List, [], ◌∷◌, ◌++◌, ◌==◌, eq_iff, eq_refl, Bool-cases, inl, inr,
  join, Dict, find, find-put, find-put_other, if◌then◌else◌, some, put, subst,
}
use mathlib.Core.List.{append_assoc, append-nil}
use repository_quality_guard.Scoped.Scopes.{
  Span, first_line, or_empty, record_span, Node, Nodes, definition, child, leaf, other, visit,
  visit_child,
}

abbrev mutual
  -- All definitions with their full names and their spans, in the order of the file.
  pub defined : Nodes → List String → List (String × Span)
  defined leaf prefix = []
  defined (child node rest) prefix = defined_child node prefix ++ defined rest prefix

  pub defined_child : Node → List String → List (String × Span)
  defined_child (definition name lineno decorators end_lineno body) prefix =
      (join "." (prefix ++ name ∷ []), (first_line lineno decorators, end_lineno))
      ∷ defined body (prefix ++ name ∷ [])
  defined_child (other body) prefix = defined body prefix

-- The spans of the definitions with a full name.
abbrev pub spans_of : String → List (String × Span) → List Span
spans_of name [] = []
spans_of name ((n, span) ∷ ds) =
    let rest = spans_of name ds in if n == name then span ∷ rest else rest

spans_of-append :
    (name : String) (ds es : List (String × Span))
    → spans_of name (ds ++ es) ≡ spans_of name ds ++ spans_of name es
spans_of-append name [] es = refl
spans_of-append name ((n, span) ∷ ds) es = elim (Bool-cases (n == name)) [
  | inl same ↦ rw same (ap (λ l. span ∷ l) (spans_of-append name ds es))
  | inr off ↦ rw off (spans_of-append name ds es)
]

find-record_span :
    (name n : String) (span : Span) (found : Dict (List Span))
    → or_empty (find name (record_span n span found))
      ≡ or_empty (find name found) ++ spans_of name ((n, span) ∷ [])
unfolding record_span
find-record_span name n span found = elim (Bool-cases (n == name)) [
  | inl same ↦
      let e : n ≡ name = (eq_iff n name).0 same in
      let got = find-put name (or_empty (find name found) ++ span ∷ []) found in
      rw (e, eq_refl name, got) refl
  | inr off ↦
      let kept = find-put_other n name (or_empty (find n found) ++ span ∷ []) found off in
      rw (off, kept) (sym (append-nil (or_empty (find name found))))
]

mutual
  unfolding visit

  pub find-visit :
      (nodes : Nodes) (prefix : List String) (found : Dict (List Span)) (name : String)
      → or_empty (find name (visit nodes prefix found))
        ≡ or_empty (find name found) ++ spans_of name (defined nodes prefix)
  find-visit leaf prefix found name = sym (append-nil (or_empty (find name found)))
  find-visit (child node rest) prefix found name =
      find-visit rest prefix (visit_child node prefix found) name
      ∙ ap (λ l. l ++ spans_of name (defined rest prefix)) (find-visit_child node prefix found name)
      ∙ append_assoc (or_empty (find name found)) (spans_of name (defined_child node prefix))
          (spans_of name (defined rest prefix))
      ∙ ap (λ l. or_empty (find name found) ++ l)
          (sym (spans_of-append name (defined_child node prefix) (defined rest prefix)))

  find-visit_child :
      (node : Node) (prefix : List String) (found : Dict (List Span)) (name : String)
      → or_empty (find name (visit_child node prefix found))
        ≡ or_empty (find name found) ++ spans_of name (defined_child node prefix)
  find-visit_child (definition n lineno decorators end_lineno body) prefix found name =
      let full = join "." (prefix ++ n ∷ []) in
      let span : Span = (first_line lineno decorators, end_lineno) in
      let inner = defined body (prefix ++ n ∷ []) in
      find-visit body (prefix ++ n ∷ []) (record_span full span found) name
      ∙ ap (λ l. l ++ spans_of name inner) (find-record_span name full span found)
      ∙ append_assoc (or_empty (find name found)) (spans_of name ((full, span) ∷ []))
          (spans_of name inner)
      ∙ ap (λ l. or_empty (find name found) ++ l)
          (sym (spans_of-append name ((full, span) ∷ []) inner))
  find-visit_child (other body) prefix found name = find-visit body prefix found name

-- No name has an empty list.
abbrev pub IsFilled : Dict (List Span) → Type 0
IsFilled found = (name : String) → find name found ≡ some [] → ⊥

filled_after : (spans : List Span) (span : Span) → spans ++ span ∷ [] ≡ [] → ⊥
filled_after [] span h = cc
filled_after (s ∷ spans) span h = cc

record_span-IsFilled :
    (n : String) (span : Span) (found : Dict (List Span))
    → IsFilled found
    → IsFilled (record_span n span found)
unfolding record_span
record_span-IsFilled n span found filled name empty = elim (Bool-cases (n == name)) [
  | inl same ↦
      let e : n ≡ name = (eq_iff n name).0 same in
      let got = find-put n (or_empty (find n found) ++ span ∷ []) found in
      let given : find n (put n (or_empty (find n found) ++ span ∷ []) found) ≡ some [] =
        subst (λ m. find m (put n (or_empty (find n found) ++ span ∷ []) found) ≡ some []) (sym e)
          empty in
      let whole : some (or_empty (find n found) ++ span ∷ []) ≡ some [] = sym got ∙ given in
      filled_after (or_empty (find n found)) span (cc)
  | inr off ↦
      let kept = find-put_other n name (or_empty (find n found) ++ span ∷ []) found off in
      filled name (sym kept ∙ empty)
]

mutual
  unfolding visit

  pub visit-IsFilled :
      (nodes : Nodes) (prefix : List String) (found : Dict (List Span))
      → IsFilled found
      → IsFilled (visit nodes prefix found)
  visit-IsFilled leaf prefix found filled = filled
  visit-IsFilled (child node rest) prefix found filled =
      visit-IsFilled rest prefix (visit_child node prefix found)
        (visit_child-IsFilled node prefix found filled)

  visit_child-IsFilled :
      (node : Node) (prefix : List String) (found : Dict (List Span))
      → IsFilled found
      → IsFilled (visit_child node prefix found)
  visit_child-IsFilled (definition n lineno decorators end_lineno body) prefix found filled =
      let full = join "." (prefix ++ n ∷ []) in
      let span : Span = (first_line lineno decorators, end_lineno) in
      visit-IsFilled body (prefix ++ n ∷ []) (record_span full span found)
        (record_span-IsFilled full span found filled)
  visit_child-IsFilled (other body) prefix found filled = visit-IsFilled body prefix found filled
