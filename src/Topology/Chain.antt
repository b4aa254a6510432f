-- ===== src/Topology/Chain.antt =====
-- call_chain_rules.py: the helpers of the rule QG168, its maximal chains and its reports.
pub mod Links
pub mod Walk
pub mod Apart
pub mod Reports
pub mod Sorting
pub mod Tests
use repository_quality_guard.Prelude.{
  String, ℕ, zero, suc, Bool, true, false, not, ◌&&◌, ◌||◌, List, [], ◌∷◌, ◌++◌, Option, none, some,
  ◌==◌, any, select, map, contains, distinct, length, eqb, ltb, nonempty, Dict, find, put, is_some,
  if◌then◌else◌, text_sorted,
}
use repository_quality_guard.Prelude.Options.{◌>>=◌}
use repository_quality_guard.Topology.{
  UsageKind, direct_call, UsageEdge, SymbolFact, RepositoryTopology, incoming, outgoing,
}
use repository_quality_guard.Topology.Helpers.{
  HelperUsageEvidence, GuardConfig, symbol_usage_evidence, ephemeral_helper_candidate,
}

abbrev pub Eligible : Type 0
Eligible = Dict (SymbolFact × HelperUsageEvidence)

-- `edge.confidence == "high"`
abbrev pub is_certain : UsageEdge → Bool
is_certain edge = edge.confidence == "high"

-- `_incoming_direct_edges`
unfoldable pub incoming_direct_edges : RepositoryTopology → String → List UsageEdge
incoming_direct_edges topology symbol_id =
    select is_certain (incoming topology symbol_id (direct_call ∷ []))

-- The body of the loop of `_eligible_helpers` up to the last `continue`.
unfoldable pub is_eligible :
    (SymbolFact → Bool) → RepositoryTopology → GuardConfig → SymbolFact → Bool
is_eligible in_scope topology config symbol =
    let evidence = symbol_usage_evidence symbol topology in
    let direct_edges = incoming topology symbol.symbol_id (direct_call ∷ []) in
    let externally_invoked =
      nonempty symbol.decorators
      || not (eqb evidence.protocol_edges 0)
      || not (eqb evidence.callable_consumers 0) in
    in_scope symbol
    && not (any (λ edge. not (is_certain edge)) direct_edges)
    && ephemeral_helper_candidate symbol.kind symbol.name symbol.lines evidence config
        externally_invoked

unfoldable pub collect_eligible :
    (SymbolFact → Bool) → RepositoryTopology → GuardConfig → List SymbolFact → Eligible → Eligible
unfolding is_eligible
collect_eligible in_scope topology config [] eligible = eligible
collect_eligible in_scope topology config (symbol ∷ symbols) eligible =
    let entry : SymbolFact × HelperUsageEvidence =
      (symbol, symbol_usage_evidence symbol topology) in
    collect_eligible in_scope topology config symbols (
      if is_eligible in_scope topology config symbol
      then put symbol.symbol_id entry eligible
      else eligible)

-- `_eligible_helpers`, for any test of a symbol in the place of `_in_scope`.
unfoldable pub eligible_helpers : (SymbolFact → Bool) → RepositoryTopology → GuardConfig → Eligible
unfolding collect_eligible
eligible_helpers in_scope topology config =
    collect_eligible in_scope topology config topology.symbols []

-- The one element, where `len(xs) != 1` is false.
abbrev pub sole : {A : Type 0} → List A → Option A
sole [] = none
sole (x ∷ []) = some x
sole (x ∷ y ∷ xs) = none

-- `incoming[0].source_id` where there is one incoming edge
unfoldable pub sole_caller : RepositoryTopology → String → Option String
unfolding incoming_direct_edges
sole_caller topology symbol_id =
    sole (incoming_direct_edges topology symbol_id) >>= λ edge. some edge.source_id

-- `id in eligible and eligible[id][0].owner_id == owner_id`
abbrev pub is_owned : Eligible → String → String → Bool
is_owned eligible owner_id id = elim (find id eligible) [
  | none ↦ false
  | some entry ↦ entry.0.owner_id == owner_id
]

unfoldable pub next_ids : RepositoryTopology → Eligible → String → String → List String
next_ids topology eligible current_id owner_id = distinct (
    map (λ edge. edge.target_id)
      (select (λ edge. is_certain edge && is_owned eligible owner_id edge.target_id)
        (outgoing topology current_id (direct_call ∷ []))))

abbrev pub last_of : String → List String → String
last_of x [] = x
last_of x (y ∷ ys) = last_of y ys

abbrev pub is_caller : Option String → String → Bool
is_caller none t = false
is_caller (some s) t = s == t

-- One round of the `while` of `_maximal_chain`: the helper to append, or none at a `break`. The
-- outer none is the KeyError of `eligible[current_id]`.
unfoldable pub chain_step :
    RepositoryTopology → Eligible → List String → String → Option (Option String)
unfolding next_ids sole_caller
chain_step topology eligible chain current_id = find current_id eligible >>= λ current.
    elim (sole (next_ids topology eligible current_id current.0.owner_id)) [
      | none ↦ some none
      | some next_id ↦
          if contains next_id chain
          then some none
          else if is_caller (sole_caller topology next_id) current_id
          then some (some next_id)
          else some none
    ]

-- The `while` loop on the chain `start ∷ rest`. None is a KeyError, or fuel that ran out.
unfoldable pub chain_loop :
    ℕ → RepositoryTopology → Eligible → String → List String → Option (List String)
unfolding chain_step
chain_loop zero topology eligible start rest = none
chain_loop (suc fuel) topology eligible start rest =
    chain_step topology eligible (start ∷ rest) (last_of start rest) >>= λ next. elim next [
      | none ↦ some (start ∷ rest)
      | some next_id ↦ chain_loop fuel topology eligible start (rest ++ next_id ∷ [])
    ]

-- `_maximal_chain`: the inner none is the one that the code returns.
unfoldable pub maximal_chain :
    String → Eligible → RepositoryTopology → Option (Option (String × List String))
unfolding sole_caller chain_loop
maximal_chain start_id eligible topology = elim (sole_caller topology start_id) [
  | none ↦ some none
  | some caller_id ↦ elim (is_some (find caller_id eligible)) [
    | true ↦ some none
    | false ↦ chain_loop (suc (length eligible)) topology eligible start_id [] >>= λ chain.
        some (some (caller_id, chain))
  ]
]

abbrev pub equal_chains : List String → List String → Bool
equal_chains [] [] = true
equal_chains [] (y ∷ ys) = false
equal_chains (x ∷ xs) [] = false
equal_chains (x ∷ xs) (y ∷ ys) = x == y && equal_chains xs ys

-- The loop of `evaluate`: the callers and the chains that `_chain_finding` is called with, in order,
-- behind those of `findings`. `emitted` is the set of their chains.
unfoldable pub chain_reports :
    RepositoryTopology
    → Eligible
    → ℕ
    → List String
    → List (List String)
    → List (String × List String)
    → Option (List (String × List String))
unfolding maximal_chain
chain_reports topology eligible least [] emitted findings = some findings
chain_reports topology eligible least (symbol_id ∷ ids) emitted findings =
    maximal_chain symbol_id eligible topology >>= λ result. elim result [
      | none ↦ chain_reports topology eligible least ids emitted findings
      | some (caller_id, chain) ↦
          elim (ltb (length chain) least || any (equal_chains chain) emitted) [
            | true ↦ chain_reports topology eligible least ids emitted findings
            | false ↦
                chain_reports topology eligible least ids (chain ∷ emitted)
                  (findings ++ (caller_id, chain) ∷ [])
          ]
    ]

-- `SingleUseChainRule.evaluate`, up to the texts of its findings.
unfoldable pub evaluate_chains :
    (SymbolFact → Bool) → RepositoryTopology → GuardConfig → Option (List (String × List String))
unfolding eligible_helpers chain_reports
evaluate_chains in_scope topology config =
    let eligible = eligible_helpers in_scope topology config in
    chain_reports topology eligible config.single_use_chain_min_helpers
      (text_sorted (map (λ entry. entry.0) eligible)) [] []
