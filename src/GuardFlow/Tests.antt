-- ===== src/GuardFlow/Tests.antt =====
-- A guarded read, and the theorems on typed_guard_flow.py at it.
use repository_quality_guard.Prelude.{ℕ, true, List, [], ◌∷◌, none}
use repository_quality_guard.GuardFlow.{
  Expr, name, text, subscript, compare, load, store, is_in, Location, branch, return_value, assign,
  Stmts, end, next,
}
use repository_quality_guard.GuardFlow.Analysis.{Observed, one}
use repository_quality_guard.GuardFlow.Semantics.{Keys}
use repository_quality_guard.GuardFlow.Execution.{Event}

-- if "k" in d:
--     x = d["k"]
-- else:
--     return
-- y = d["k"]
abbrev read : ℕ → Expr
read line = subscript (name "d" load) (text "k") load line 4

abbrev guarded : Stmts
guarded =
    next
      (branch 1 (compare (text "k") (is_in ∷ []) (one (name "d" load)))
        (next (assign (one (name "x" store)) (read 2)) end) (next (return_value none) end))
      (next (assign (one (name "y" store)) (read 5)) end)

abbrev place : ℕ → Location
place line = record { line = line; column = 4; receiver = "d"; key = "k" }

abbrev witnesses : Observed
witnesses = (place 5, 1) ∷ (place 2, 1) ∷ []

abbrev keys : Keys
keys r k = true

abbrev seen : ℕ → Event
seen line = record { location = place line; present = true }

abbrev both : List Event
both = seen 2 ∷ seen 5 ∷ []
