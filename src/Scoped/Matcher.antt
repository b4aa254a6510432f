-- ===== src/Scoped/Matcher.antt =====
-- scoped_rule_policy.py: `ScopedRuleMatcher`. `source path` is what reading the file gives; it does not
-- change while the matcher is used.
pub mod Keyed
pub mod Reference
use repository_quality_guard.Prelude.{
  String, ℕ, Bool, true, false, not, ◌&&◌, ◌||◌, List, [], ◌∷◌, ◌++◌, Option, none, some, ◌==◌, any,
  contains, Dict, find, put, leb, eqb, if◌then◌else◌,
}
use repository_quality_guard.Scoped.Entries.{ScopedRuleDisable}
use repository_quality_guard.Scoped.Scopes.{Span, Source, parse_scopes}

-- `by_key`: the symbols for each code and path.
abbrev pub Keys : Type 0
Keys = List ((String × String) × List String)

abbrev pub same_key : String × String → String → String → Bool
same_key (c, p) code path = c == code && p == path

abbrev pub get_key : String → String → Keys → Option (List String)
get_key code path [] = none
get_key code path ((key, symbols) ∷ keys) =
    if same_key key code path then some symbols else get_key code path keys

-- `grouped.setdefault((code, path), []).append(symbol)`
unfoldable pub add_symbol : String → String → String → Keys → Keys
add_symbol code path symbol [] = ((code, path), symbol ∷ []) ∷ []
add_symbol code path symbol ((key, symbols) ∷ keys) =
    if same_key key code path
    then (key, symbols ++ symbol ∷ []) ∷ keys
    else (key, symbols) ∷ add_symbol code path symbol keys

unfoldable pub group : List ScopedRuleDisable → Keys → Keys
unfolding add_symbol
group [] keys = keys
group (e ∷ es) keys = group es (add_symbol e.code e.path e.symbol keys)

pub record Matcher : Type 0 where
  pub by_key : Keys
  pub scopes : Dict (Dict (List Span))

-- `__init__`
unfoldable pub new_matcher : List ScopedRuleDisable → Matcher
unfolding group
new_matcher entries = record { by_key = group entries []; scopes = [] }

abbrev pub holds_line : ℕ → Span → Bool
holds_line line (start, end) = leb start line && leb line end

abbrev pub or_none : Option (List Span) → List Span
or_none none = []
or_none (some spans) = spans

-- The generator of the last `any`.
unfoldable pub any_span : List String → Dict (List Span) → ℕ → Bool
any_span symbols spans line =
    any (λ symbol. any (holds_line line) (or_none (find symbol spans))) symbols

module _ (source : String → Source) where
  -- The spans of a file, from the cache or read into it.
  unfoldable pub cached :
      String → Dict (Dict (List Span)) → Dict (List Span) × Dict (Dict (List Span))
  cached path scopes = elim (find path scopes) [
    | some spans ↦ (spans, scopes)
    | none ↦ (parse_scopes (source path), put path (parse_scopes (source path)) scopes)
  ]

  -- `matches`, for a key that has symbols
  unfoldable pub matches_symbols : String → ℕ → List String → Matcher → Bool × Matcher
  unfolding cached
  matches_symbols path line symbols m =
      let (spans, scopes) = cached path m.scopes in
      if contains "" symbols
      then (true, m)
      else if eqb line 0
      then (false, m)
      else (any_span symbols spans line, record m { scopes = scopes })

  unfoldable pub matches : String → String → ℕ → Matcher → Bool × Matcher
  unfolding matches_symbols
  matches code path line m = elim (get_key code path m.by_key) [
    | none ↦ (false, m)
    | some symbols ↦ matches_symbols path line symbols m
  ]
