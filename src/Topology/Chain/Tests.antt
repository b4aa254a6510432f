-- ===== src/Topology/Chain/Tests.antt =====
-- A chain of three helpers, and the theorems on call_chain_rules.py at it.
use repository_quality_guard.Prelude.{
  distinct, String, true, List, [], ◌∷◌, ◌≡◌, ◌≤◌, ◌⊎◌, refl, map, some, none, ends_with,
  text_insert, text_sorted, false,
}
use repository_quality_guard.Topology.{
  internal, direct_call, UsageEdge, SymbolFact, RepositoryTopology, add_row, add_rows, new_topology,
  incoming, outgoing,
}
use repository_quality_guard.Topology.Helpers.{
  GuardConfig, symbol_usage_evidence, is_internal, ephemeral_helper_candidate,
}
use repository_quality_guard.Topology.Chain.{
  Eligible, incoming_direct_edges, is_eligible, collect_eligible, eligible_helpers, sole_caller,
  next_ids, chain_step, chain_loop, maximal_chain, chain_reports, evaluate_chains,
}
use repository_quality_guard.Topology.Chain.Walk.{root_caller, IsMaximal, maximal_chain_lem}
use repository_quality_guard.Topology.Chain.Reports.{long_chains, count_chains, evaluate_chains_lem}

abbrev call : String → String → String → UsageEdge
call source target confidence = record {
  source_id = source;
  target_id = target;
  kind = direct_call;
  path = "b.py";
  line = 3;
  confidence = confidence;
}

abbrev function : String → SymbolFact
function id = record {
  symbol_id = id;
  kind = "function";
  owner_id = "b";
  visibility = internal;
  path = "b.py";
  line = 9;
  lines = 4;
  name = id;
  qualname = id;
  decorators = [];
  exported = false;
  nested = false;
  generated = false;
  foreign = false;
}

-- `entry` is long and calls `load`, which calls `parse`, which calls `check` and, perhaps, `entry`.
abbrev topology : RepositoryTopology
topology =
    new_topology
      (record {
        symbol_id = "entry";
        kind = "function";
        owner_id = "b";
        visibility = internal;
        path = "b.py";
        line = 1;
        lines = 40;
        name = "entry";
        qualname = "entry";
        decorators = [];
        exported = false;
        nested = false;
        generated = false;
        foreign = false;
      }
        ∷ function "check"
        ∷ function "load"
        ∷ function "parse"
        ∷ [])
      (call "entry" "load" "high"
        ∷ call "load" "parse" "high"
        ∷ call "parse" "check" "high"
        ∷ call "parse" "entry" "low"
        ∷ [])

abbrev config : GuardConfig
config = record {
  short_max_lines = 10;
  low_use_max_calls = 1;
  ignored_names = [];
  single_use_chain_min_helpers = 3;
}

abbrev eligible : Eligible
eligible = eligible_helpers (λ s. true) topology config

chain_is_reported :
    evaluate_chains (λ s. true) topology config
    ≡ some (("entry", "load" ∷ "parse" ∷ "check" ∷ []) ∷ [])
unfolding evaluate_chains eligible_helpers collect_eligible is_eligible chain_reports maximal_chain
    chain_loop chain_step next_ids sole_caller incoming_direct_edges ephemeral_helper_candidate
    symbol_usage_evidence is_internal distinct incoming outgoing new_topology add_rows add_row
    ends_with text_insert text_sorted
chain_is_reported = refl

middle_is_no_root : maximal_chain "parse" eligible topology ≡ some none
unfolding eligible_helpers collect_eligible is_eligible maximal_chain chain_loop chain_step next_ids
    sole_caller incoming_direct_edges ephemeral_helper_candidate symbol_usage_evidence is_internal
    distinct incoming outgoing new_topology add_rows add_row ends_with
middle_is_no_root = refl

maximal_chain_lem_example :
    ((root_caller topology eligible "load" ≡ none)
      × (maximal_chain "load" eligible topology ≡ some none))
    ⊎ ((caller : String) × ((rest : List String) × ((root_caller topology eligible "load"
              ≡ some caller)
            × (maximal_chain "load" eligible topology ≡ some (some (caller, "load" ∷ rest)))
            × IsMaximal topology eligible "load" rest)))
unfolding eligible_helpers collect_eligible is_eligible ephemeral_helper_candidate
    symbol_usage_evidence is_internal distinct incoming outgoing new_topology add_rows add_row
    ends_with
maximal_chain_lem_example = maximal_chain_lem topology eligible "load" refl

evaluate_chains_lem_example :
    (evaluate_chains (λ s. true) topology config
      ≡ some (long_chains topology eligible 3 (text_sorted (map (λ e. e.0) eligible))))
    × (count_chains "parse"
          (long_chains topology eligible 3 (text_sorted (map (λ e. e.0) eligible)))
        ≤ 1)
evaluate_chains_lem_example = evaluate_chains_lem (λ s. true) topology config "parse"
