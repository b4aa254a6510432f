-- ===== src/GuardFlow/Execution.antt =====
-- How a body may run, as far as the keys of the receivers go. An evaluation in which some node may take a
-- key away may change the keys in any way, and so may an unsupported statement; it is assumed that any
-- other evaluation removes no key of a receiver, so that operators, properties, subscripts and
-- generators run no code that does. An evaluation may raise at any point.
use repository_quality_guard.Prelude.{
  String, ℕ, ◌≡◌, Bool, true, false, List, [], ◌++◌, none, some, Member, if◌then◌else◌,
}
use repository_quality_guard.GuardFlow.{
  Expr, Exprs, nil, cons, Location, Stmt, branch, return_value, raise_exc, assign, ann_assign,
  aug_assign, expression, pass, unsupported, Stmts, end, next, reads_all,
}
use repository_quality_guard.GuardFlow.Semantics.{Keys, IsQuiet, Decides}
use repository_quality_guard.GuardFlow.Analysis.{one, optional}

-- A read of a key, and whether the receiver had it then.
pub record Event : Type 0 where
  pub location : Location
  pub present : Bool

pub data Ending : Type 0 where
  falls : Keys → Ending
  leaves : Ending

abbrev pub Grows : Keys → Keys → Type 0
Grows σ σ' = (r k : String) → σ r k ≡ true → σ' r k ≡ true

-- The reads that happened are reads of the expressions. Where no node may take a key away, a key that
-- was there is there at each read and afterwards.
pub record Evaluates (receivers : List String) (node : Exprs) (σ : Keys) (events : List Event)
    (σ' : Keys) : Type 0 where
  pub within : (e : Event) → Member e events → Member e.location (reads_all receivers node)
  pub seen :
      (e : Event)
      → IsQuiet receivers node
      → Member e events
      → σ e.location.receiver e.location.key ≡ true
      → e.present ≡ true
  pub grows : IsQuiet receivers node → Grows σ σ'

-- The expressions that a statement evaluates first.
abbrev pub node_of : Stmt → Exprs
node_of (branch line test body orelse) = one test
node_of (return_value value) = optional value
node_of (raise_exc exc) = optional exc
node_of (assign targets value) = cons value targets
node_of (ann_assign target annotation (some value)) = cons target (cons annotation (one value))
node_of (ann_assign target annotation none) = cons target (one annotation)
node_of (aug_assign target value) = cons target (one value)
node_of (expression value) = one value
node_of pass = nil
node_of (unsupported locations) = nil

-- The statement goes on to the next one once it has evaluated.
abbrev pub is_simple : Stmt → Bool
is_simple (branch line test body orelse) = false
is_simple (return_value value) = false
is_simple (raise_exc exc) = false
is_simple (assign targets value) = true
is_simple (ann_assign target annotation value) = true
is_simple (aug_assign target value) = true
is_simple (expression value) = true
is_simple pass = true
is_simple (unsupported locations) = false

mutual
  pub data Step (receivers : List String) : Stmt → Keys → List Event → Ending → Type 0 where
    goes_on :
        {s : Stmt} {σ σ' : Keys} {events : List Event}
        → is_simple s ≡ true
        → Evaluates receivers (node_of s) σ events σ'
        → Step receivers s σ events (falls σ')
    -- A `return`, a `raise`, or an exception in an evaluation.
    ends :
        {s : Stmt} {σ σ' : Keys} {events : List Event}
        → Evaluates receivers (node_of s) σ events σ'
        → Step receivers s σ events leaves
    chooses :
        {line : ℕ} {test : Expr} {body orelse : Stmts} {σ σ' : Keys}
        {events events' all : List Event} {out : Ending} (taken : Bool)
        → Evaluates receivers (one test) σ events σ'
        → Decides receivers test σ' taken
        → Run receivers (if taken then body else orelse) σ' events' out
        → all ≡ events ++ events'
        → Step receivers (branch line test body orelse) σ all out
    any_way :
        {locations : List Location} {σ : Keys} {events : List Event} {out : Ending}
        → ((e : Event) → Member e events → Member e.location locations)
        → Step receivers (unsupported locations) σ events out

  pub data Run (receivers : List String) : Stmts → Keys → List Event → Ending → Type 0 where
    done : {σ : Keys} → Run receivers end σ [] (falls σ)
    stops :
        {s : Stmt} {ss : Stmts} {σ : Keys} {events : List Event}
        → Step receivers s σ events leaves
        → Run receivers (next s ss) σ events leaves
    continues :
        {s : Stmt} {ss : Stmts} {σ σ' : Keys} {events events' all : List Event} {out : Ending}
        → Step receivers s σ events (falls σ')
        → Run receivers ss σ' events' out
        → all ≡ events ++ events'
        → Run receivers (next s ss) σ all out

abbrev mutual
  -- The places of all reads within a statement.
  pub places : List String → Stmt → List Location
  places receivers (branch line test body orelse) =
      reads_all receivers (one test) ++ (places_all receivers body ++ places_all receivers orelse)
  places receivers (return_value value) = reads_all receivers (optional value)
  places receivers (raise_exc exc) = reads_all receivers (optional exc)
  places receivers (assign targets value) = reads_all receivers (cons value targets)
  places receivers (ann_assign target annotation value) =
      reads_all receivers (node_of (ann_assign target annotation value))
  places receivers (aug_assign target value) = reads_all receivers (cons target (one value))
  places receivers (expression value) = reads_all receivers (one value)
  places receivers pass = []
  places receivers (unsupported locations) = locations

  pub places_all : List String → Stmts → List Location
  places_all receivers end = []
  places_all receivers (next s ss) = places receivers s ++ places_all receivers ss

abbrev pub IsApart : List Location → List Location → Type 0
IsApart ls ms = (l : Location) → Member l ls → Member l ms → ⊥

abbrev mutual
  -- No two parts of the code have a read in one place.
  pub IsLocated : List String → Stmt → Type 0
  IsLocated receivers (branch line test body orelse) =
      IsApart (reads_all receivers (one test)) (places_all receivers body)
      × IsApart (reads_all receivers (one test)) (places_all receivers orelse)
      × IsApart (places_all receivers body) (places_all receivers orelse)
      × AreLocated receivers body
      × AreLocated receivers orelse
  IsLocated receivers _ = Unit

  pub AreLocated : List String → Stmts → Type 0
  AreLocated receivers end = Unit
  AreLocated receivers (next s ss) =
      IsLocated receivers s
      × IsApart (places receivers s) (places_all receivers ss)
      × AreLocated receivers ss
