-- ===== src/GuardFlow/Analysis.antt =====
-- `presence_witnesses`: the state, the transfer of each statement and the join_presence of branches. `none` as a
-- result is the AttributeError that `ast.walk(None)` raises.
use repository_quality_guard.Prelude.{
  String, ℕ, Bool, true, false, ◌&&◌, ◌||◌, List, [], ◌∷◌, Option, none, some, ◌==◌, eqb,
  if◌then◌else◌,
}
use repository_quality_guard.Prelude.Options.{◌>>=◌}
use repository_quality_guard.GuardFlow.{
  Expr, Exprs, nil, cons, Location, Stmt, branch, return_value, raise_exc, assign, ann_assign,
  aug_assign, expression, pass, unsupported, Stmts, end, next, literal_membership, reads_all,
  unknown_effect, unknown_all, escapes,
}

-- `Presence`: the lines of the tests for a receiver and a key, as an association list
abbrev pub Presence : Type 0
Presence = List ((String × String) × ℕ)

abbrev pub same_key : String × String → String × String → Bool
same_key (r, k) (r', k') = r == r' && k == k'

unfoldable pub get : String × String → Presence → Option ℕ
get key [] = none
get key ((k, line) ∷ state) = if same_key k key then some line else get key state

-- `state.pop(key, None)`
unfoldable pub drop : String × String → Presence → Presence
drop key [] = []
drop key ((k, line) ∷ state) = if same_key k key then drop key state else (k, line) ∷ drop key state

-- `state[key] = line`
unfoldable pub assign_key : String × String → ℕ → Presence → Presence
unfolding drop
assign_key key line state = (key, line) ∷ drop key state

abbrev pub same_line : Option ℕ → ℕ → Bool
same_line none line = false
same_line (some l) line = eqb l line

-- `{key: a[key] for key in a.keys() & b.keys() if a[key] == b[key]}`
unfoldable pub intersect : Presence → Presence → Presence
unfolding get
intersect [] b = []
intersect ((k, line) ∷ a) b =
    if same_line (get k b) line then (k, line) ∷ intersect a b else intersect a b

-- `_join`
unfoldable pub join_presence : Option Presence → Option Presence → Option Presence
unfolding intersect
join_presence none b = b
join_presence (some a) none = some a
join_presence (some a) (some b) = some (intersect a b)

-- `observed`
abbrev pub Observed : Type 0
Observed = List (Location × ℕ)

abbrev pub same_location : Location → Location → Bool
same_location a b =
    eqb a.line b.line && (eqb a.column b.column && (a.receiver == b.receiver && a.key == b.key))

unfoldable pub find_location : Location → Observed → Option ℕ
find_location l [] = none
find_location l ((m, line) ∷ observed) =
    if same_location m l then some line else find_location l observed

-- A later entry for the same place hides the earlier one.
abbrev pub note : Option ℕ → Location → Observed → Observed
note none l observed = observed
note (some line) l observed = (l, line) ∷ observed

unfoldable pub note_all : Presence → List Location → Observed → Observed
unfolding get
note_all available [] observed = observed
note_all available (l ∷ ls) observed =
    note_all available ls (note (get (l.receiver, l.key) available) l observed)

-- `record`
unfoldable pub record_reads : List String → Exprs → Presence → Observed → Observed
unfolding note_all
record_reads receivers node state observed =
    note_all (if unknown_all receivers node then [] else state) (reads_all receivers node) observed

abbrev pub one : Expr → Exprs
one e = cons e nil

-- The expressions of a `return` or `raise`, of which there may be none.
abbrev pub optional : Option Expr → Exprs
optional none = nil
optional (some e) = one e

-- The state in the branch where the test was true, and where it was false.
unfoldable pub assume : Option (String × String × Bool) → ℕ → Bool → Presence → Presence
unfolding assign_key drop
assume none line taken state = state
assume (some (receiver, key, positive)) line true state =
    if positive then assign_key (receiver, key) line state else drop (receiver, key) state
assume (some (receiver, key, positive)) line false state =
    if positive then drop (receiver, key) state else assign_key (receiver, key) line state

unfoldable pub branch_state : List String → Expr → ℕ → Bool → Presence → Presence
unfolding assume
branch_state receivers test line taken state =
    if unknown_effect receivers test
    then []
    else assume (literal_membership receivers test) line taken state

-- The transfer of an assignment or an expression statement; `escaping` is what `_receiver_escapes` says.
unfoldable pub transfer : List String → Exprs → Bool → Presence → Presence
transfer receivers node escaping state =
    if unknown_all receivers node || escaping then [] else state

abbrev pub Walked : Type 0
Walked = Option (Option Presence × Observed)

unfoldable pub annotate : List String → Expr → Expr → Option Expr → Presence → Observed → Walked
annotate receivers target annotation (some value) state observed =
    let node = cons target (cons annotation (one value)) in
    some (
      some (transfer receivers node (escapes receivers value) state),
      record_reads receivers node state observed,
    )
annotate receivers target annotation none state observed =
    let node = cons target (one annotation) in
    -- `_receiver_escapes` walks the value, which is None, unless the effect is unknown.
    if unknown_all receivers node
    then some (some [], record_reads receivers node state observed)
    else none

unfoldable mutual
  pub walk_stmt : List String → Stmt → Presence → Observed → Walked
  walk_stmt receivers (branch line test body orelse) state observed = do
    (yes', observed') ←
        walk receivers body (some (branch_state receivers test line true state))
          (record_reads receivers (one test) state observed)
    (no', observed'') ←
        walk receivers orelse (some (branch_state receivers test line false state)) observed'
    some (join_presence yes' no', observed'')
  walk_stmt receivers (return_value value) state observed =
      some (none, record_reads receivers (optional value) state observed)
  walk_stmt receivers (raise_exc exc) state observed =
      some (none, record_reads receivers (optional exc) state observed)
  walk_stmt receivers (assign targets value) state observed = some (
    some (transfer receivers (cons value targets) (escapes receivers value) state),
    record_reads receivers (cons value targets) state observed,
  )
  walk_stmt receivers (ann_assign target annotation value) state observed =
      annotate receivers target annotation value state observed
  walk_stmt receivers (aug_assign target value) state observed = some (
    some (transfer receivers (cons target (one value)) false state),
    record_reads receivers (cons target (one value)) state observed,
  )
  walk_stmt receivers (expression value) state observed = some (
    some (transfer receivers (one value) false state),
    record_reads receivers (one value) state observed,
  )
  walk_stmt receivers pass state observed = some (some state, observed)
  walk_stmt receivers (unsupported locations) state observed = some (some [], observed)

  -- `walk`: no statement behind one without a normal successor
  pub walk : List String → Stmts → Option Presence → Observed → Walked
  walk receivers end state observed = some (state, observed)
  walk receivers (next s ss) none observed = some (none, observed)
  walk receivers (next s ss) (some state) observed = do
    (state', observed') ← walk_stmt receivers s state observed
    walk receivers ss state' observed'

-- `presence_witnesses`
unfoldable pub presence_witnesses : List String → Stmts → Option Observed
presence_witnesses receivers body = do
  (state, observed) ← walk receivers body (some []) []
  some observed
