-- ===== src/Commit/Lines.antt =====
-- The methods of `str` that commit_policy.py uses on a command: `splitlines`, `strip` and a slice.
use Prim.Native.Char.{Char, code}
use Prim.Native.String
use repository_quality_guard.Prelude.{
  String, ℕ, zero, suc, Bool, true, false, ◌&&◌, ◌||◌, List, [], ◌∷◌, ◌==◌, any, eqb, leb,
  if◌then◌else◌,
}

-- The characters that end a line, and those that `isspace` holds of.
is_break : Char → Bool
is_break c = any (λ n. eqb n (code c)) (10 ∷ 11 ∷ 12 ∷ 13 ∷ 28 ∷ 29 ∷ 30 ∷ 133 ∷ 8232 ∷ 8233 ∷ [])

is_space : Char → Bool
is_space c =
    leb 9 (code c) && leb (code c) 13
    || leb 28 (code c) && leb (code c) 32
    || leb 8192 (code c) && leb (code c) 8202
    || any (λ n. eqb n (code c)) (133 ∷ 160 ∷ 5760 ∷ 8232 ∷ 8233 ∷ 8239 ∷ 8287 ∷ 12288 ∷ [])

-- The lines of a text behind the part of a line that has been read. A line feed right behind a
-- carriage return ends no line.
lines_from : Bool → String → String → List String
unfolding is_break
lines_from returned line String.[] = if line == "" then [] else line ∷ []
lines_from returned line (String.◌∷◌ c s) = elim (returned && eqb (code c) 10) [
  | true ↦ lines_from false line s
  | false ↦ elim (is_break c) [
    | true ↦ line ∷ lines_from (eqb (code c) 13) "" s
    | false ↦ lines_from false (String.◌++◌ line (String.◌∷◌ c "")) s
  ]
]

unfoldable pub split_lines : String → List String
unfolding lines_from
split_lines s = lines_from false "" s

strip_left : String → String
unfolding is_space
strip_left String.[] = ""
strip_left (String.◌∷◌ c s) = elim (is_space c) [ true ↦ strip_left s | false ↦ String.◌∷◌ c s ]

strip_right : String → String
unfolding is_space
strip_right String.[] = ""
strip_right (String.◌∷◌ c s) =
    let rest = strip_right s in if rest == "" && is_space c then "" else String.◌∷◌ c rest

-- `s.strip()`
unfoldable pub strip_spaces : String → String
unfolding strip_left strip_right
strip_spaces s = strip_right (strip_left s)

-- `s[n:]`
unfoldable pub slice_from : ℕ → String → String
slice_from zero s = s
slice_from (suc n) String.[] = ""
slice_from (suc n) (String.◌∷◌ c s) = slice_from n s
