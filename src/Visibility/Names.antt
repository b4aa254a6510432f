-- ===== src/Visibility/Names.antt =====
-- The methods of `str` that interface_visibility.py uses on dotted names and decorators.
use Prim.Native.Char.{code}
use Prim.Native.String
use repository_quality_guard.Prelude.{
  String, ℕ, Bool, true, false, ◌&&◌, List, [], ◌∷◌, eqb, starts_with, ends_with,
}

-- The parts of a text behind the part that has been read.
parts_from : ℕ → String → String → List String
parts_from mark part String.[] = part ∷ []
parts_from mark part (String.◌∷◌ c s) = elim (eqb (code c) mark) [
  | true ↦ part ∷ parts_from mark "" s
  | false ↦ parts_from mark (String.◌++◌ part (String.◌∷◌ c "")) s
]

first_part : List String → String
first_part [] = ""
first_part (part ∷ parts) = part

last_part : List String → String
last_part [] = ""
last_part (part ∷ []) = part
last_part (part ∷ other ∷ parts) = last_part (other ∷ parts)

-- `name.split(".")[0]` and `name.split(".")[-1]`, which is also `name.rsplit(".", 1)[-1]`
unfoldable pub top_of : String → String
unfolding parts_from first_part
top_of name = first_part (parts_from 46 "" name)

unfoldable pub leaf_of : String → String
unfolding parts_from last_part
leaf_of name = last_part (parts_from 46 "" name)

-- `text.split("(", 1)[0]`
unfoldable pub before_call : String → String
unfolding parts_from first_part
before_call text = first_part (parts_from 40 "" text)

-- `text.removeprefix("@")`
unfoldable pub without_at : String → String
without_at String.[] = ""
without_at (String.◌∷◌ c s) = elim (eqb (code c) 64) [ true ↦ s | false ↦ String.◌∷◌ c s ]

unfoldable pub is_dunder : String → Bool
is_dunder name = starts_with name "__" && ends_with name "__"
