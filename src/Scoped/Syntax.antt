-- ===== src/Scoped/Syntax.antt =====
-- scoped_rule_policy.py: the texts that an entry may hold. A POSIX path and a dotted name are split at
-- their separators.
use repository_quality_guard.Prelude.{
  String, Bool, true, false, not, ◌&&◌, List, [], ◌∷◌, ◌==◌, any, all, select, contains, join,
  starts_with, has_infix, nonempty, ends_with, if◌then◌else◌,
}
use Prim.Native.String.{◌++◌}
use Prim.Native.Char.{Char}

-- One character as a text.
abbrev pub letter : Char → String
letter c = String.◌∷◌ c ""

-- `text.split(separator)` for a separator of one character, with the part read so far.
unfoldable pub split_from : String → String → String → List String
split_from separator part String.[] = part ∷ []
split_from separator part (String.◌∷◌ c s) =
    let rest = split_from separator "" s in
    let longer = split_from separator (part ++ letter c) s in
    if letter c == separator then part ∷ rest else longer

unfoldable pub split : String → String → List String
unfolding split_from
split separator s = split_from separator "" s

-- The parts of a relative `PurePosixPath`: empty ones and `.` are dropped.
unfoldable pub path_parts : String → List String
unfolding split
path_parts path = select (λ p. not (p == "") && not (p == ".")) (split "/" path)

-- `PurePosixPath(path).as_posix()` of a path that does not start with a slash
unfoldable pub as_posix : String → String
unfolding path_parts
as_posix path = if nonempty (path_parts path) then join "/" (path_parts path) else "."

-- The tests of a path, which let an exact relative POSIX file pass. A path that starts with a slash is
-- refused whatever its normal form is.
unfoldable pub is_exact_path : String → Bool
unfolding as_posix
is_exact_path path =
    not (path == "")
    && not (starts_with path "/")
    && path == as_posix path
    && not (has_infix "\\" path)
    && not (contains ".." (path_parts path))
    && not (any (λ c. has_infix c path) ("*" ∷ "?" ∷ "[" ∷ "]" ∷ []))
    && not (ends_with path "/")
    && not (path == ".")

abbrev first_letters : String
first_letters = "ABCDEFGHIJKLMNOPQRSTUVWXYZabcdefghijklmnopqrstuvwxyz_"

abbrev digits : String
digits = "0123456789"

-- All characters are among those of `alphabet`.
is_over : String → String → Bool
is_over alphabet String.[] = true
is_over alphabet (String.◌∷◌ c s) = has_infix (letter c) alphabet && is_over alphabet s

is_identifier : String → Bool
unfolding is_over
is_identifier String.[] = false
is_identifier (String.◌∷◌ c s) =
    has_infix (letter c) first_letters && is_over (first_letters ++ digits) s

-- `_IDENTIFIER_CHAIN.fullmatch(symbol)`
unfoldable pub is_identifier_chain : String → Bool
unfolding split is_identifier
is_identifier_chain symbol = all is_identifier (split "." symbol)
