-- ===== src/Scoped/Tests.antt =====
-- The theorems on scoped suppressions at a concrete profile and file.
use repository_quality_guard.Prelude.{
  String, ℕ, ◌≡◌, ◌↔◌, refl, true, List, [], ◌∷◌, map, some, all, any, find, join, has_infix,
  ends_with,
}
use repository_quality_guard.Prelude.Checked.{valid}
use repository_quality_guard.Gate.Evidence.{Datum, array, object, text, cons, nil, entry, end}
use repository_quality_guard.Scoped.Syntax.{split, is_exact_path, is_identifier_chain}
use repository_quality_guard.Scoped.Entries.{ScopedRuleDisable, parse_scoped_disables}
use repository_quality_guard.Scoped.Entries.Wellformed.{
  is_wellformed, IsUnique, parse_scoped_disables_wellformed,
}
use repository_quality_guard.Scoped.Scopes.{
  Span, record_span, first_line, Nodes, definition, child, leaf, tree, is_ambiguous, owners,
  parse_scopes,
}
use repository_quality_guard.Scoped.Scopes.Unambiguous.{IsOnce, find-parse_scopes_iff}
use repository_quality_guard.Scoped.Matcher.{new_matcher}
use repository_quality_guard.Scoped.Matcher.Reference.{
  matches_all, permits, matches_all-new_matcher,
}

abbrev whole_file : ScopedRuleDisable
whole_file = record { code = "QG010"; path = "a.py"; symbol = "" }

abbrev one_function : ScopedRuleDisable
one_function = record { code = "QG011"; path = "a.py"; symbol = "f" }

abbrev once : List Span
once = (1, 4) ∷ []

-- `f` is defined once, `g` twice.
abbrev nodes : Nodes
nodes =
    child (definition "f" 2 (1 ∷ []) 4 leaf)
      (child (definition "g" 5 [] 6 leaf) (child (definition "g" 7 [] 8 leaf) leaf))

matches_all-new_matcher_example :
    matches_all
      (λ path. tree nodes)
      (("QG011", "a.py", 3) ∷ ("QG011", "a.py", 5) ∷ [])
      (new_matcher (whole_file ∷ one_function ∷ []))
    ≡ map
        (λ (q : String × String × ℕ).
          any (permits (λ path. tree nodes) q.0 q.1 q.2) (whole_file ∷ one_function ∷ []))
        (("QG011", "a.py", 3) ∷ ("QG011", "a.py", 5) ∷ [])
matches_all-new_matcher_example =
    matches_all-new_matcher (λ path. tree nodes) (whole_file ∷ one_function ∷ [])
      (("QG011", "a.py", 3) ∷ ("QG011", "a.py", 5) ∷ [])

-- `m` stands in `C`.
abbrev nested : Nodes
nested = child (definition "C" 1 [] 4 (child (definition "m" 2 (1 ∷ []) 4 leaf) leaf)) nodes

found_once : find "C.m" (parse_scopes (tree nested)) ≡ some once
unfolding parse_scopes record_span join is_ambiguous owners split first_line
found_once = refl

find-parse_scopes_iff_example :
    (find "C.m" (parse_scopes (tree nested)) ≡ some once) ↔ IsOnce nested "C.m" once
find-parse_scopes_iff_example = find-parse_scopes_iff nested "C.m" once

abbrev profile : Datum
profile = array (
    cons
      (object
        (entry "code" (text "QG011") (entry "path" (text "a.py") (entry "symbol" (text "f") end))))
      nil)

accepted : parse_scoped_disables valid (λ s. s) profile ≡ valid (one_function ∷ [])
unfolding parse_scoped_disables is_exact_path is_identifier_chain join has_infix ends_with
accepted = refl

parse_scoped_disables_wellformed_example :
    (all is_wellformed (one_function ∷ []) ≡ true) × IsUnique (one_function ∷ [])
parse_scoped_disables_wellformed_example =
    parse_scoped_disables_wellformed valid (λ s. s) profile (one_function ∷ []) accepted
