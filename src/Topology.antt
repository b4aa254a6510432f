-- ===== src/Topology.antt =====
-- topology_facts.py: the symbols, the usage edges and the two indices of `RepositoryTopology`.
pub mod Helpers
pub mod Chain
pub mod Indexed
pub mod Tests
use repository_quality_guard.Prelude.{
  String, ℕ, Bool, true, false, List, [], ◌∷◌, ◌++◌, Option, none, some, ◌==◌, any, select, Dict,
  find, eqb, if◌then◌else◌,
}

pub data Visibility : Type 0 where
  public protected private internal unknown : Visibility

pub data UsageKind : Type 0 where
  direct_call may_dispatch callable_reference callback_registration may_callback : UsageKind
  protocol_hook override static_polymorphic_dispatch field_access dependency : UsageKind
  closure_capture inheritance : UsageKind

-- The value of a member, which a `StrEnum` compares by.
abbrev pub kind_value : UsageKind → String
kind_value direct_call = "direct_call"
kind_value may_dispatch = "may_dispatch"
kind_value callable_reference = "callable_reference"
kind_value callback_registration = "callback_registration"
kind_value may_callback = "may_callback"
kind_value protocol_hook = "protocol_hook"
kind_value override = "override"
kind_value static_polymorphic_dispatch = "static_polymorphic_dispatch"
kind_value field_access = "field_access"
kind_value dependency = "dependency"
kind_value closure_capture = "closure_capture"
kind_value inheritance = "inheritance"

pub record UsageEdge : Type 0 where
  pub source_id : String
  pub target_id : String
  pub kind : UsageKind
  pub path : String
  pub line : ℕ
  pub confidence : String

abbrev pub Index : Type 0
Index = Dict (List UsageEdge)

-- `index.setdefault(key, []).append(edge)`
unfoldable pub add_row : String → UsageEdge → Index → Index
add_row key edge [] = (key, edge ∷ []) ∷ []
add_row key edge ((k, rows) ∷ index) =
    if k == key then (k, rows ++ edge ∷ []) ∷ index else (k, rows) ∷ add_row key edge index

-- The loop of `__post_init__`, with the key of an edge for each of the two indices.
unfoldable pub add_rows : (UsageEdge → String) → List UsageEdge → Index → Index
unfolding add_row
add_rows key [] index = index
add_rows key (edge ∷ edges) index = add_rows key edges (add_row (key edge) edge index)

-- The fields of a `SymbolFact` that the modelled rules read.
pub record SymbolFact : Type 0 where
  pub symbol_id : String
  pub kind : String
  pub owner_id : String
  pub visibility : Visibility
  pub path : String
  pub line : ℕ
  pub lines : ℕ
  pub name : String
  pub qualname : String
  pub decorators : List String
  pub exported : Bool
  pub nested : Bool
  pub generated : Bool
  pub foreign : Bool

-- The symbols, the edges and the indices; the other facts that a topology carries do not enter these.
pub record RepositoryTopology : Type 0 where
  pub symbols : List SymbolFact
  pub edges : List UsageEdge
  pub incoming_index : Index
  pub outgoing_index : Index

unfoldable pub new_topology : List SymbolFact → List UsageEdge → RepositoryTopology
unfolding add_rows
new_topology symbols edges = record {
  symbols = symbols;
  edges = edges;
  incoming_index = add_rows (λ e. e.target_id) edges [];
  outgoing_index = add_rows (λ e. e.source_id) edges [];
}

-- `index.get(key, ())`
abbrev pub rows_at : String → Index → List UsageEdge
rows_at key [] = []
rows_at key ((k, rows) ∷ index) = if k == key then rows else rows_at key index

-- `edge.kind in accepted`
abbrev pub is_accepted : List UsageKind → UsageEdge → Bool
is_accepted kinds edge = any (λ kind. kind_value kind == kind_value edge.kind) kinds

abbrev pub filter_kinds : List UsageKind → List UsageEdge → List UsageEdge
filter_kinds [] rows = rows
filter_kinds (kind ∷ kinds) rows = select (is_accepted (kind ∷ kinds)) rows

unfoldable pub incoming : RepositoryTopology → String → List UsageKind → List UsageEdge
incoming topology target_id kinds = filter_kinds kinds (rows_at target_id topology.incoming_index)

unfoldable pub outgoing : RepositoryTopology → String → List UsageKind → List UsageEdge
outgoing topology source_id kinds = filter_kinds kinds (rows_at source_id topology.outgoing_index)
