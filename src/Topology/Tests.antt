-- ===== src/Topology/Tests.antt =====
-- A topology of three edges, and the theorems on topology_facts.py and topology_policy.py at it.
use repository_quality_guard.Prelude.{
  distinct, String, true, false, List, [], ◌∷◌, ◌≡◌, ◌≤◌, ◌↔◌, refl, ◌==◌, ◌&&◌, any, select,
  count_true, ends_with,
}
use repository_quality_guard.Topology.{
  internal, UsageKind, direct_call, callable_reference, callback_registration, protocol_hook,
  override, field_access, UsageEdge, SymbolFact, add_row, add_rows, new_topology, incoming,
  outgoing,
}
use repository_quality_guard.Topology.Indexed.{accepts, incoming-outgoing-eq-select}
use repository_quality_guard.Topology.Helpers.{
  GuardConfig, symbol_usage_evidence, is_internal, ephemeral_helper_candidate,
}
use repository_quality_guard.Topology.Helpers.Reuse.{
  is_short_internal, enters, leaves, ephemeral_helper_candidate_iff,
}

abbrev edge : String → String → UsageKind → UsageEdge
edge source target kind = record {
  source_id = source;
  target_id = target;
  kind = kind;
  path = "a.py";
  line = 3;
  confidence = "high";
}

abbrev edges : List UsageEdge
edges =
    edge "a.run" "a.helper" direct_call
    ∷ edge "a.stop" "a.run" callback_registration
    ∷ edge "a.helper" "a.state" field_access
    ∷ edge "a.stop" "a.helper" direct_call
    ∷ []

abbrev helper : SymbolFact
helper = record {
  symbol_id = "a.helper";
  kind = "function";
  owner_id = "a";
  visibility = internal;
  path = "a.py";
  line = 9;
  lines = 4;
  name = "helper";
  qualname = "a.helper";
  decorators = [];
  exported = false;
  nested = false;
  generated = false;
  foreign = false;
}

abbrev symbols : List SymbolFact
symbols = helper ∷ []

incoming_keeps_order :
    incoming (new_topology symbols edges) "a.helper" []
    ≡ edge "a.run" "a.helper" direct_call ∷ edge "a.stop" "a.helper" direct_call ∷ []
unfolding incoming new_topology add_rows add_row
incoming_keeps_order = refl

incoming-outgoing-eq-select_example :
    (incoming (new_topology symbols edges) "a.helper" (direct_call ∷ [])
      ≡ select (λ e. e.target_id == "a.helper" && accepts (direct_call ∷ []) e) edges)
    × (outgoing (new_topology symbols edges) "a.helper" (direct_call ∷ [])
        ≡ select (λ e. e.source_id == "a.helper" && accepts (direct_call ∷ []) e) edges)
incoming-outgoing-eq-select_example =
    incoming-outgoing-eq-select symbols edges "a.helper" (direct_call ∷ [])

abbrev lenient : GuardConfig
lenient = record {
  short_max_lines = 10;
  low_use_max_calls = 2;
  ignored_names = "main" ∷ [];
  single_use_chain_min_helpers = 3;
}

helper_is_candidate :
    ephemeral_helper_candidate "function" "helper" 4
      (symbol_usage_evidence helper (new_topology symbols edges))
      lenient
      false
    ≡ true
unfolding ephemeral_helper_candidate symbol_usage_evidence is_internal distinct incoming outgoing
    new_topology add_rows add_row ends_with
helper_is_candidate = refl

ephemeral_helper_candidate_iff_example :
    (ephemeral_helper_candidate "function" "helper" 4
        (symbol_usage_evidence helper (new_topology symbols edges))
        lenient
        false
      ≡ true)
    ↔ ((is_short_internal "function" "helper" 4 helper lenient ≡ true)
        × (false ≡ false)
        × (count_true (enters "a.helper" (direct_call ∷ [])) edges ≤ 2)
        × (any (enters "a.helper" (callable_reference ∷ callback_registration ∷ [])) edges ≡ false)
        × (any (leaves "a.helper" (protocol_hook ∷ override ∷ [])) edges ≡ false))
ephemeral_helper_candidate_iff_example =
    ephemeral_helper_candidate_iff "function" "helper" 4 helper symbols edges lenient false
