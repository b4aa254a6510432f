-- ===== src/GuardFlow.antt =====
-- typed_guard_flow.py: which reads of a key a membership test guards. The syntax has a constructor for
-- each kind of node that the analysis tells apart; the others keep their children.
pub mod Analysis
pub mod Semantics
pub mod Guards
pub mod Execution
pub mod Observed
pub mod Flow
pub mod Steps
pub mod Frame
pub mod Sound
pub mod Total
pub mod Tests
use repository_quality_guard.Prelude.{
  String, ℕ, Bool, true, false, not, ◌&&◌, ◌||◌, List, [], ◌∷◌, ◌++◌, Option, none, some, ◌==◌, eqb,
  contains, any, nonempty, if◌then◌else◌,
}

-- `ctx` of a name, a subscript or an attribute
pub data Context : Type 0 where
  load store del : Context

-- `ops` of a comparison
pub data Operator : Type 0 where
  is_in not_in other_operator : Operator

mutual
  pub data Expr : Type 0 where
    name : String → Context → Expr
    text : String → Expr
    constant : Expr
    subscript : Expr → Expr → Context → ℕ → ℕ → Expr
    attribute : Expr → Context → Expr
    negation : Expr → Expr
    compare : Expr → List Operator → Exprs → Expr
    -- a call, `await`, `yield` or `yield from`
    effect : Exprs → Expr
    other : Exprs → Expr

  pub data Exprs : Type 0 where
    nil : Exprs
    cons : Expr → Exprs → Exprs

-- `ReadLocation`: line, column, receiver and key
pub record Location : Type 0 where
  pub line : ℕ
  pub column : ℕ
  pub receiver : String
  pub key : String

mutual
  pub data Stmt : Type 0 where
    -- the line, the test, the body and the branch for `else`
    branch : ℕ → Expr → Stmts → Stmts → Stmt
    return_value : Option Expr → Stmt
    raise_exc : Option Expr → Stmt
    assign : Exprs → Expr → Stmt
    -- the target, the annotation and the value, if there is one
    ann_assign : Expr → Expr → Option Expr → Stmt
    aug_assign : Expr → Expr → Stmt
    expression : Expr → Stmt
    pass : Stmt
    -- any other statement, with the places of the reads within it
    unsupported : List Location → Stmt

  pub data Stmts : Type 0 where
    end : Stmts
    next : Stmt → Stmts → Stmts

abbrev pub is_load : Context → Bool
is_load load = true
is_load store = false
is_load del = false

-- The node is a name among the receivers.
abbrev pub is_receiver : List String → Expr → Bool
is_receiver receivers (name id ctx) = contains id receivers
is_receiver receivers _ = false

unfoldable pub membership :
    List String → String → List Operator → Exprs → Option (String × String × Bool)
membership receivers key (is_in ∷ []) (cons (name id ctx) nil) =
    if contains id receivers then some (id, key, true) else none
membership receivers key (not_in ∷ []) (cons (name id ctx) nil) =
    if contains id receivers then some (id, key, false) else none
membership receivers key _ _ = none

abbrev pub negated : Option (String × String × Bool) → Option (String × String × Bool)
negated none = none
negated (some (receiver, key, positive)) = some (receiver, key, not positive)

-- `_literal_membership`
unfoldable pub literal_membership : List String → Expr → Option (String × String × Bool)
unfolding membership
literal_membership receivers (negation e) = negated (literal_membership receivers e)
literal_membership receivers (compare (text key) ops comparators) =
    membership receivers key ops comparators
literal_membership receivers _ = none

-- What a subscript by itself adds to `_reads`.
abbrev pub read_at : List String → Expr → Expr → Context → ℕ → ℕ → List Location
read_at receivers (name id c) (text key) load line column =
    if contains id receivers
    then record { line = line; column = column; receiver = id; key = key } ∷ []
    else []
read_at receivers _ _ _ line column = []

unfoldable mutual
  -- `_reads`
  pub reads : List String → Expr → List Location
  reads receivers (name id ctx) = []
  reads receivers (text t) = []
  reads receivers constant = []
  reads receivers (subscript value key ctx line column) =
      read_at receivers value key ctx line column ++ (reads receivers value ++ reads receivers key)
  reads receivers (attribute value ctx) = reads receivers value
  reads receivers (negation e) = reads receivers e
  reads receivers (compare left ops comparators) =
      reads receivers left ++ reads_all receivers comparators
  reads receivers (effect es) = reads_all receivers es
  reads receivers (other es) = reads_all receivers es

  pub reads_all : List String → Exprs → List Location
  reads_all receivers nil = []
  reads_all receivers (cons e es) = reads receivers e ++ reads_all receivers es

unfoldable mutual
  -- `_unknown_effect`
  pub unknown_effect : List String → Expr → Bool
  unknown_effect receivers (name id ctx) = contains id receivers && not (is_load ctx)
  unknown_effect receivers (text t) = false
  unknown_effect receivers constant = false
  unknown_effect receivers (subscript value key ctx line column) =
      (not (is_load ctx) && is_receiver receivers value)
      || (unknown_effect receivers value || unknown_effect receivers key)
  unknown_effect receivers (attribute value ctx) =
      (not (is_load ctx) && is_receiver receivers value) || unknown_effect receivers value
  unknown_effect receivers (negation e) = unknown_effect receivers e
  unknown_effect receivers (compare left ops comparators) =
      unknown_effect receivers left || unknown_all receivers comparators
  unknown_effect receivers (effect es) = true
  unknown_effect receivers (other es) = unknown_all receivers es

  pub unknown_all : List String → Exprs → Bool
  unknown_all receivers nil = false
  unknown_all receivers (cons e es) = unknown_effect receivers e || unknown_all receivers es

unfoldable mutual
  -- The walk of `_receiver_escapes` over the value: a name that is a receiver, except directly below a
  -- subscript.
  pub escapes : List String → Expr → Bool
  escapes receivers (name id ctx) = contains id receivers && is_load ctx
  escapes receivers (text t) = false
  escapes receivers constant = false
  escapes receivers (subscript (name id c) key ctx line column) = escapes receivers key
  escapes receivers (subscript value key ctx line column) =
      escapes receivers value || escapes receivers key
  escapes receivers (attribute value ctx) = escapes receivers value
  escapes receivers (negation e) = escapes receivers e
  escapes receivers (compare left ops comparators) =
      escapes receivers left || escapes_any receivers comparators
  escapes receivers (effect es) = escapes_any receivers es
  escapes receivers (other es) = escapes_any receivers es

  pub escapes_any : List String → Exprs → Bool
  escapes_any receivers nil = false
  escapes_any receivers (cons e es) = escapes receivers e || escapes_any receivers es
