-- ===== src/Scoped/Entries.antt =====
-- scoped_rule_policy.py: `ScopedRuleDisable` and `parse_scoped_disables`. `validate_code` is the argument
-- of that name, the check of a rule's code; `repr` is Python's function on a text.
pub mod Wellformed
use repository_quality_guard.Prelude.{
  String, Bool, true, false, not, ◌&&◌, ◌||◌, List, [], ◌∷◌, Option, none, some, ◌==◌, any, all,
  select, contains, starts_with_any, ends_with, format, nonempty, if◌then◌else◌,
}
use repository_quality_guard.Prelude.Checked.{Checked, valid, value_error, ◌>>=◌}
use repository_quality_guard.Gate.Evidence.{
  Datum, Data, Entries, nil, cons, end, entry, array, object, text,
}
use repository_quality_guard.Scoped.Syntax.{is_exact_path, is_identifier_chain}

pub record ScopedRuleDisable : Type 0 where
  pub code : String
  pub path : String
  pub symbol : String

abbrev pub same_entry : ScopedRuleDisable → ScopedRuleDisable → Bool
same_entry a b = a.code == b.code && a.path == b.path && a.symbol == b.symbol

-- `UNSUPPRESSIBLE_RULE_PREFIXES`
abbrev pub unsuppressible_rule_prefixes : List String
unsuppressible_rule_prefixes = "QG98" ∷ "QG99" ∷ []

abbrev keys_of : Entries → List String
keys_of end = []
keys_of (entry k v rest) = k ∷ keys_of rest

abbrev pub value_of : String → Entries → Option Datum
value_of key end = none
value_of key (entry k v rest) = if k == key then some v else value_of key rest

-- `set(raw)` is `{"code", "path"}` or `{"code", "path", "symbol"}`.
is_shape : Entries → Bool
is_shape raw =
    contains "code" (keys_of raw)
    && contains "path" (keys_of raw)
    && all (λ k. contains k ("code" ∷ "path" ∷ "symbol" ∷ [])) (keys_of raw)

abbrev pub is_suppressible : String → Bool
is_suppressible code = not (starts_with_any code unsuppressible_rule_prefixes)

-- An empty symbol, or a dotted name in a Python file.
abbrev pub is_symbol : String → String → Bool
is_symbol path symbol = symbol == "" || ends_with path ".py" && is_identifier_chain symbol

abbrev shape_error : String
shape_error = "scoped_disable entries require code, path and optional symbol"

abbrev text_error : String
text_error = "scoped_disable code and path must be strings"

abbrev symbol_error : String
symbol_error = "scoped_disable symbol must be a Python qualified definition"

-- The symbol of a raw entry, which may be left out.
symbol_of : String → Option Datum → Checked String
symbol_of path none = valid ""
symbol_of path (some (text symbol)) =
    if is_symbol path symbol then valid symbol else value_error symbol_error
symbol_of path (some _) = value_error symbol_error

-- A value that has to be a text.
text_of : Option Datum → Checked String
text_of (some (text s)) = valid s
text_of _ = value_error text_error

check_code : String → Checked String
check_code code =
    if is_suppressible code
    then valid code
    else value_error (format ("rule " ∷ code ∷ " belongs to the guard trust boundary" ∷ []))

check_path : (String → String) → String → Checked String
check_path repr path =
    if is_exact_path path
    then valid path
    else value_error
        (format ("scoped_disable path must be an exact relative POSIX file: " ∷ repr path ∷ []))

-- `dict.fromkeys(entries)`: the first of equal entries stays.
unfoldable pub from_keys : List ScopedRuleDisable → List ScopedRuleDisable
from_keys [] = []
from_keys (e ∷ es) = e ∷ select (λ e'. not (same_entry e e')) (from_keys es)

module _ (validate_code : String → Checked String) (repr : String → String) where
  -- The checks of an entry whose code and path are texts.
  unfoldable pub parse_texts : String → String → Option Datum → Checked ScopedRuleDisable
  unfolding symbol_of check_code check_path
  parse_texts raw_code path raw_symbol = do
    code ← validate_code raw_code
    known ← check_code code
    exact ← check_path repr path
    symbol ← symbol_of exact raw_symbol
    valid (record { code = known; path = exact; symbol = symbol })

  parse_fields : Option Datum → Option Datum → Option Datum → Checked ScopedRuleDisable
  unfolding parse_texts text_of
  parse_fields raw_code raw_path raw_symbol = do
    code ← text_of raw_code
    path ← text_of raw_path
    parse_texts code path raw_symbol

  -- One round of the loop.
  unfoldable pub parse_entry : Datum → Checked ScopedRuleDisable
  unfolding parse_fields is_shape
  parse_entry (object raw) =
      if is_shape raw
      then parse_fields (value_of "code" raw) (value_of "path" raw) (value_of "symbol" raw)
      else value_error shape_error
  parse_entry _ = value_error shape_error

  unfoldable pub parse_all : Data → Checked (List ScopedRuleDisable)
  unfolding parse_entry
  parse_all nil = valid []
  parse_all (cons raw rest) = do e ← parse_entry raw; es ← parse_all rest; valid (e ∷ es)

  unfoldable pub parse_scoped_disables : Datum → Checked (List ScopedRuleDisable)
  unfolding parse_all from_keys
  parse_scoped_disables (array value) = do entries ← parse_all value; valid (from_keys entries)
  parse_scoped_disables _ = value_error "profile rules.scoped_disable must be an array"
