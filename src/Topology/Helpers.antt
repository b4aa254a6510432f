-- ===== src/Topology/Helpers.antt =====
-- topology_policy.py: the usage evidence of a symbol and the test for a short one-shot helper.
pub mod Reuse
use repository_quality_guard.Prelude.{
  String, ℕ, Bool, true, false, not, ◌&&◌, ◌||◌, List, [], ◌∷◌, ◌==◌, contains, distinct, length,
  map, leb, eqb, starts_with, ends_with, if◌then◌else◌,
}
use repository_quality_guard.Topology.{
  Visibility, public, protected, private, internal, unknown, UsageKind, direct_call,
  callable_reference, callback_registration, protocol_hook, override, UsageEdge, RepositoryTopology,
  SymbolFact, incoming, outgoing,
}

pub record HelperUsageEvidence : Type 0 where
  pub direct_callers : ℕ
  pub direct_call_sites : ℕ
  pub callable_consumers : ℕ
  pub protocol_edges : ℕ
  pub visibility : String
  pub exported : Bool
  pub owner_id : String
  pub nested : Bool
  pub topology_resolution : String

-- The thresholds of `GuardConfig` that the test and the rule on chains read.
pub record GuardConfig : Type 0 where
  pub short_max_lines : ℕ
  pub low_use_max_calls : ℕ
  pub ignored_names : List String
  pub single_use_chain_min_helpers : ℕ

abbrev pub visibility_value : Visibility → String
visibility_value public = "public"
visibility_value protected = "protected"
visibility_value private = "private"
visibility_value internal = "internal"
visibility_value unknown = "unknown"

-- `len({edge.source_id for edge in edges})`
abbrev pub count_sources : List UsageEdge → ℕ
count_sources edges = length (distinct (map (λ e. e.source_id) edges))

unfoldable pub symbol_usage_evidence : SymbolFact → RepositoryTopology → HelperUsageEvidence
symbol_usage_evidence symbol topology =
    let direct = incoming topology symbol.symbol_id (direct_call ∷ []) in
    let callable_edges =
      incoming topology symbol.symbol_id (callable_reference ∷ callback_registration ∷ []) in
    let protocol = outgoing topology symbol.symbol_id (protocol_hook ∷ override ∷ []) in
    record {
      direct_callers = count_sources direct;
      direct_call_sites = length direct;
      callable_consumers = count_sources callable_edges;
      protocol_edges = length protocol;
      visibility = visibility_value symbol.visibility;
      exported = symbol.exported;
      owner_id = symbol.owner_id;
      nested = symbol.nested;
      topology_resolution = "normalized";
    }

unfoldable pub is_internal : HelperUsageEvidence → Bool
is_internal evidence = evidence.nested || contains evidence.visibility ("internal" ∷ "private" ∷ [])

unfoldable pub ephemeral_helper_candidate :
    String → String → ℕ → HelperUsageEvidence → GuardConfig → Bool → Bool
ephemeral_helper_candidate kind name lines evidence config externally_invoked =
    contains kind ("function" ∷ "method" ∷ [])
    && not (contains name config.ignored_names)
    && not (starts_with name "__" && ends_with name "__")
    && leb lines config.short_max_lines
    && is_internal evidence
    && not evidence.exported
    && leb evidence.direct_callers config.low_use_max_calls
    && leb evidence.direct_call_sites config.low_use_max_calls
    && eqb evidence.callable_consumers 0
    && eqb evidence.protocol_edges 0
    && not externally_invoked
