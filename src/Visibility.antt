-- ===== src/Visibility.antt =====
-- interface_visibility.py: the symbols that a report on interfaces shows, and why. The references to
-- private names from other modules are an argument, the pairs of `_collect_external_private_symbols`.
pub mod Names
pub mod Reasons
pub mod Exposed
pub mod Tests
use repository_quality_guard.Prelude.{
  String, ℕ, Bool, true, false, not, ◌&&◌, ◌||◌, List, [], ◌∷◌, Option, none, some, ◌==◌, any,
  contains, starts_with, ends_with, format, leb, Dict, find, put, if◌then◌else◌,
}
use repository_quality_guard.Gate.Interface.{
  InterfaceKind, file, class, function, global_variable, method, member_variable, InterfaceSymbol,
}
use repository_quality_guard.Visibility.Names.{top_of, leaf_of, before_call, without_at, is_dunder}

abbrev pub Pairs : Type 0
Pairs = List (String × String)

-- `(path, name) in pairs`
abbrev pub has_pair : String → String → Pairs → Bool
has_pair path name pairs = any (λ p. p.0 == path && p.1 == name) pairs

abbrev pub benign : List String
benign = "abstractmethod" ∷ "classmethod" ∷ "override" ∷ "property" ∷ "staticmethod" ∷ []

-- The decorator registers a method: the loop of `_private_method_exposure` ends with it.
unfoldable pub registers : String → Bool
registers decorator =
    let normalized = before_call (without_at decorator) in
    not (ends_with normalized ".setter" || ends_with normalized ".deleter")
    && not (contains (leaf_of normalized) benign)

unfoldable pub private_method_exposure : List String → ℕ → ℕ → String
unfolding registers
private_method_exposure [] code_lines least =
    if leb least code_lines then "significant_private" else ""
private_method_exposure (decorator ∷ decorators) code_lines least =
    if registers decorator
    then "registered_private"
    else private_method_exposure decorators code_lines least

abbrev is_method_kind : InterfaceKind → Bool
is_method_kind method = true
is_method_kind _ = false

abbrev is_function_kind : InterfaceKind → Bool
is_function_kind function = true
is_function_kind _ = false

-- The name of the first candidate that is active.
unfoldable pub first_active : List (String × Bool) → String
first_active [] = ""
first_active ((name, active) ∷ candidates) = if active then name else first_active candidates

unfoldable pub member_symbol_exposure : InterfaceSymbol → String → Bool → Pairs → ℕ → String
unfolding first_active private_method_exposure
member_symbol_exposure symbol leaf forced external_private_symbols least =
    let exposure = first_active (
      ("forced", forced)
      ∷ ("protocol", is_dunder leaf)
      ∷ ("public", not (starts_with leaf "_"))
      ∷ ("external_private", has_pair symbol.path leaf external_private_symbols)
      ∷ []) in
    if not (exposure == "") || not (is_method_kind symbol.kind)
    then exposure
    else private_method_exposure symbol.declaration.decorators symbol.code_lines least

unfoldable pub module_symbol_exposure : InterfaceSymbol → String → Bool → Bool → Pairs → ℕ → String
module_symbol_exposure symbol leaf forced explicit_export external_private_symbols least =
    if forced
    then "forced"
    else if explicit_export
    then "explicit_export"
    else if not (starts_with leaf "_") || leaf == "__all__"
    then "public"
    else if has_pair symbol.path leaf external_private_symbols
    then "external_private"
    else if is_function_kind symbol.kind && leb least symbol.code_lines
    then "significant_private"
    else ""

-- `exports_by_path[path] if path in exports_by_path else set()`
abbrev pub exports_at : String → Dict (List String) → List String
exports_at path exports = elim (find path exports) [ none ↦ [] | some names ↦ names ]

abbrev pub is_module_level : InterfaceKind → Bool
is_module_level class = true
is_module_level function = true
is_module_level global_variable = true
is_module_level _ = false

abbrev is_variable : InterfaceKind → Bool
is_variable global_variable = true
is_variable _ = false

abbrev pub is_file_kind : InterfaceKind → Bool
is_file_kind file = true
is_file_kind _ = false

-- The first `return ""` of `_symbol_exposure`.
abbrev pub is_hidden : String → Bool → Bool → Bool → Bool
is_hidden top explicit_export forced external_private =
    starts_with top "_"
    && not (top == "__all__")
    && not explicit_export
    && not forced
    && not external_private

module _ (exports_by_path : Dict (List String)) (external_private_symbols : Pairs)
    (forced_symbols : List String) (private_min_lines : ℕ) where
  abbrev pub is_forced : InterfaceSymbol → Bool
  is_forced symbol = contains (format (symbol.path ∷ ":" ∷ symbol.qualname ∷ [])) forced_symbols

  abbrev pub is_exported : InterfaceSymbol → Bool
  is_exported symbol = contains (top_of symbol.qualname) (exports_at symbol.path exports_by_path)

  unfoldable pub symbol_exposure : InterfaceSymbol → String
  unfolding module_symbol_exposure member_symbol_exposure
  symbol_exposure symbol =
      let leaf = leaf_of symbol.qualname in
      let top = top_of symbol.qualname in
      let forced = is_forced symbol in
      let explicit_export = is_exported symbol in
      let external_private = has_pair symbol.path top external_private_symbols in
      if is_file_kind symbol.kind
      then "file"
      else if is_hidden top explicit_export forced external_private
      then ""
      else if is_module_level symbol.kind
      then module_symbol_exposure symbol leaf forced explicit_export external_private_symbols
          private_min_lines
      else member_symbol_exposure symbol leaf forced external_private_symbols private_min_lines

  -- The last loop of `filter_interface_symbols`, behind the entries of `result`.
  unfoldable pub keep_exposed : Dict InterfaceSymbol → Dict InterfaceSymbol → Dict InterfaceSymbol
  unfolding symbol_exposure
  keep_exposed [] result = result
  keep_exposed ((key, symbol) ∷ symbols) result =
      let exposure = symbol_exposure symbol in
      keep_exposed symbols
        (if exposure == "" then result else put key (record symbol { exposure = exposure }) result)

-- The lists of the `__all__` of each path; of several, the last one.
unfoldable pub exports_of : Dict InterfaceSymbol → Dict (List String) → Dict (List String)
exports_of [] exports = exports
exports_of ((key, symbol) ∷ symbols) exports = exports_of symbols (
    if is_variable symbol.kind && symbol.qualname == "__all__"
    then put symbol.path symbol.declaration.exports exports
    else exports)

abbrev expose_all : Dict InterfaceSymbol → Dict InterfaceSymbol
expose_all [] = []
expose_all ((key, symbol) ∷ symbols) =
    (key, record symbol { exposure = "all" }) ∷ expose_all symbols

unfoldable pub filter_interface_symbols :
    Dict InterfaceSymbol → Pairs → List String → Bool → ℕ → Dict InterfaceSymbol
unfolding keep_exposed exports_of
filter_interface_symbols symbols external_private_symbols forced_symbols include_private least =
    if include_private
    then expose_all symbols
    else keep_exposed (exports_of symbols []) external_private_symbols forced_symbols least symbols
        []
