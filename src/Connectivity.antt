-- ===== src/Connectivity.antt =====
-- evidence_statistics.py: the union-find over the callables of a graph, and the numbers of the report.
-- The dictionaries `parent` and `sizes` are functions. They are read at callables alone, since an edge
-- counts only if both of its ends are callables.
pub mod Climb
pub mod Connected
pub mod Attach
pub mod Invariant
pub mod Unite
pub mod Recorded
pub mod Steps
pub mod Classes
pub mod Measure
pub mod Report
pub mod Tests
use repository_quality_guard.Prelude.{
  String, ℕ, zero, suc, ◌+◌, Bool, true, false, not, ◌&&◌, ◌||◌, List, [], ◌∷◌, ◌++◌, Option, none,
  some, ◌==◌, contains, distinct, select, length, map, any, ltb, if◌then◌else◌,
}
use repository_quality_guard.Prelude.Options.{◌>>=◌}

pub record Symbol : Type 0 where
  pub id : String
  pub kind : String

pub record Edge : Type 0 where
  pub kind : String
  pub source : String
  pub target : String

-- `table[key] = value`
abbrev pub update {ℓ} : {A : Type ℓ} → String → A → (String → A) → String → A
update key value table k = if k == key then value else table k

abbrev pub Parents : Type 0
Parents = String → String

-- `parent[node] = parent[parent[node]]`
abbrev pub halve : Parents → String → Parents
halve parent node = update node (parent (parent node)) parent

-- The loop of `root`, with the parents that it leaves; `none` when the fuel runs out.
unfoldable pub root : ℕ → Parents → String → Option (Parents × String)
root zero parent node = if parent node == node then some (parent, node) else none
root (suc fuel) parent node =
    let rest = root fuel (halve parent node) (halve parent node node) in
    if parent node == node then some (parent, node) else rest

pub record Forest : Type 0 where
  pub parent : Parents
  pub sizes : String → ℕ

-- `parent[b] = a; sizes[a] += sizes[b]`
abbrev pub attach : String → String → Forest → Forest
attach a b s = record {
  parent = update b a s.parent;
  sizes = update a (s.sizes a + s.sizes b) s.sizes;
}

unfoldable pub link : String → String → Forest → Forest
link a b s =
    if a == b then s else if ltb (s.sizes a) (s.sizes b) then attach b a s else attach a b s

unfoldable pub unite : ℕ → Edge → Forest → Option Forest
unite fuel edge s = do
  (left, a) ← root fuel s.parent edge.source
  (right, b) ← root fuel left edge.target
  some (link a b (record s { parent = right }))

unfoldable pub unite_all : ℕ → List Edge → Forest → Option Forest
unite_all fuel [] s = some s
unite_all fuel (edge ∷ edges) s = do s' ← unite fuel edge s; unite_all fuel edges s'

pub record Graph : Type 0 where
  pub symbols : List Symbol
  pub edges : List Edge

unfoldable pub callables : Graph → List String
callables g = distinct (
    map (λ s. s.id) (select (λ s. contains s.kind ("function" ∷ "method" ∷ "test" ∷ [])) g.symbols))

-- `edges_of_kind[name]`
unfoldable pub edges_of_kind : Graph → String → List Edge
edges_of_kind g name =
    select
      (λ e. e.kind == name && (contains e.source (callables g) && contains e.target (callables g)))
      g.edges

unfoldable pub call_edges : Graph → List Edge
call_edges g =
    edges_of_kind g "direct_call"
    ++ (edges_of_kind g "may_dispatch" ++ edges_of_kind g "may_callback")

abbrev pub alone : Forest
alone = record { parent = λ z. z; sizes = λ z. 1 }

-- `{root(symbol) for symbol in callables}`, as a list with repetitions
unfoldable pub roots_of : ℕ → Parents → List String → Option (Parents × List String)
roots_of fuel p [] = some (p, [])
roots_of fuel p (symbol ∷ symbols) = do
  (p', r) ← root fuel p symbol
  (p'', rs) ← roots_of fuel p' symbols
  some (p'', r ∷ rs)

-- `max(numbers, default=0)`
unfoldable pub maximum : List ℕ → ℕ
maximum [] = 0
maximum (n ∷ ns) = let rest = maximum ns in if ltb rest n then n else rest

pub record Components : Type 0 where
  pub count : ℕ
  pub largest : ℕ

-- The components and the size of the largest, with the parents that the calls of `root` leave.
unfoldable pub measure : ℕ → Forest → List String → Option (Parents × Components)
measure fuel s symbols = do
  (p, rs) ← roots_of fuel s.parent symbols
  some (p, record { count = length (distinct rs); largest = maximum (map s.sizes (distinct rs)) })

-- `linked`: the ends of the edges
abbrev pub ends_of : List Edge → List String
ends_of [] = []
ends_of (e ∷ es) = e.source ∷ e.target ∷ ends_of es

-- `len(callables - linked)`
unfoldable pub unlinked : List String → List Edge → ℕ
unlinked symbols edges = length (select (λ z. not (contains z (ends_of edges))) symbols)

-- The numbers of the report; its text is not modelled.
pub record Statistics : Type 0 where
  pub size : ℕ
  pub direct : ℕ
  pub possible : ℕ
  pub scheduled : ℕ
  pub registrations : ℕ
  pub calls : Components
  pub calls_unlinked : ℕ
  pub augmented : Components
  pub augmented_unlinked : ℕ

abbrev pub report_of : Graph → Components → Components → Statistics
report_of g calls augmented = record {
  size = length (callables g);
  direct = length (edges_of_kind g "direct_call");
  possible = length (edges_of_kind g "may_dispatch");
  scheduled = length (edges_of_kind g "may_callback");
  registrations = length (edges_of_kind g "callback_registration");
  calls = calls;
  calls_unlinked = unlinked (callables g) (call_edges g);
  augmented = augmented;
  augmented_unlinked =
      unlinked (callables g) (call_edges g ++ edges_of_kind g "callback_registration");
}

unfoldable pub graph_statistics : Graph → Option Statistics
graph_statistics g =
    let symbols = callables g in
    let fuel = length symbols in
    do
      s ← unite_all fuel (call_edges g) alone
      (p, calls) ← measure fuel s symbols
      s' ← unite_all fuel (edges_of_kind g "callback_registration") (record s { parent = p })
      (p', augmented) ← measure fuel s' symbols
      some (report_of g calls augmented)
