-- ===== src/Scoped/Scopes.antt =====
-- scoped_rule_policy.py: `ScopedRuleMatcher._parse_scopes`, on the syntax tree of a file.
pub mod Components
pub mod Defined
pub mod Unambiguous
use repository_quality_guard.Prelude.{
  String, ℕ, Bool, true, false, not, ◌&&◌, ◌||◌, List, [], ◌∷◌, ◌++◌, map, Option, none, some, ◌==◌,
  any, all, select, contains, join, Dict, find, put, length, eqb, min, if◌then◌else◌,
}
use repository_quality_guard.Scoped.Syntax.{split}

-- The nodes of a syntax tree that matter: a class or a function with its name, its line, the lines of
-- its decorators and its last line; and any other node.
mutual
  pub data Node : Type 0 where
    definition : String → ℕ → List ℕ → ℕ → Nodes → Node
    other : Nodes → Node

  pub data Nodes : Type 0 where
    leaf : Nodes
    child : Node → Nodes → Nodes

-- The first and the last line of a definition.
abbrev pub Span : Type 0
Span = ℕ × ℕ

-- `min((item.lineno for item in decorator_list), default=lineno)`
least : ℕ → List ℕ → ℕ
least n [] = n
least n (m ∷ ms) = least (min n m) ms

unfoldable pub first_line : ℕ → List ℕ → ℕ
unfolding least
first_line lineno [] = lineno
first_line lineno (d ∷ ds) = least d ds

abbrev pub or_empty : Option (List Span) → List Span
or_empty none = []
or_empty (some spans) = spans

-- `found.setdefault(name, []).append(span)`
unfoldable pub record_span : String → Span → Dict (List Span) → Dict (List Span)
record_span name span found = put name (or_empty (find name found) ++ span ∷ []) found

-- `visit`, on the children of a node, and on a child.
mutual
  pub visit : Nodes → List String → Dict (List Span) → Dict (List Span)
  visit leaf prefix found = found
  visit (child node rest) prefix found = visit rest prefix (visit_child node prefix found)

  pub visit_child : Node → List String → Dict (List Span) → Dict (List Span)
  visit_child (definition name lineno decorators end_lineno body) prefix found =
      visit body (prefix ++ name ∷ []) (
        record_span (join "." (prefix ++ name ∷ [])) (first_line lineno decorators, end_lineno)
          found)
  visit_child (other body) prefix found = visit body prefix found

-- What reading a file gives: no path inside the root, no file, no syntax, or a tree.
pub data Source : Type 0 where
  outside missing syntax_error : Source
  tree : Nodes → Source

-- `{name for name, spans in found.items() if len(spans) != 1}`
unfoldable pub is_ambiguous : Dict (List Span) → String → Bool
is_ambiguous found name = elim (find name found) [
  | none ↦ false
  | some spans ↦ not (eqb (length spans) 1)
]

-- The names of the enclosing definitions of a dotted name.
unfoldable pub enclosing : List String → List String → List String
enclosing before [] = []
enclosing before (component ∷ []) = []
enclosing before (component ∷ next ∷ rest) =
    join "." (before ++ component ∷ []) ∷ enclosing (before ++ component ∷ []) (next ∷ rest)

unfoldable pub owners : String → List String
unfolding enclosing
owners name = enclosing [] (split "." name)

-- The second loop: the entries that are unique and stand in unique definitions.
unfoldable pub unique_of : Dict (List Span) → Dict (List Span) → Dict (List Span)
unique_of found [] = []
unique_of found ((name, spans) ∷ rest) =
    let others = unique_of found rest in
    if is_ambiguous found name || any (is_ambiguous found) (owners name)
    then others
    else (name, spans) ∷ others

unfoldable pub parse_scopes : Source → Dict (List Span)
unfolding visit unique_of
parse_scopes outside = []
parse_scopes missing = []
parse_scopes syntax_error = []
parse_scopes (tree nodes) = let found = visit nodes [] [] in unique_of found found
