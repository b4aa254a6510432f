-- ===== src/Topology/Helpers/Reuse.antt =====
-- A helper candidate told by the edges of the topology alone.
use repository_quality_guard.Prelude.{
  distinct, String, ℕ, Bool, true, false, not, ◌&&◌, ◌||◌, List, [], ◌∷◌, ◌≡◌, ◌≤◌, ◌↔◌, suc, refl,
  sym, ap, ◌∙◌, ◌==◌, any, select, arith, Bool-cases, inl, inr, contains, length, map, leb, eqb,
  starts_with, ends_with, count_true,
}
use repository_quality_guard.Topology.{
  Visibility, public, protected, private, internal, unknown, UsageKind, direct_call,
  callable_reference, callback_registration, protocol_hook, override, UsageEdge, SymbolFact,
  new_topology,
}
use repository_quality_guard.Topology.Indexed.{accepts, incoming-outgoing-eq-select}
use repository_quality_guard.Topology.Helpers.{
  visibility_value, GuardConfig, count_sources, symbol_usage_evidence, is_internal,
  ephemeral_helper_candidate,
}

length-distinct-le : (ss : List String) → length (distinct ss) ≤ length ss
unfolding distinct
length-distinct-le [] = omega arith
length-distinct-le (s ∷ ss) =
    let rest = length-distinct-le ss in
    elim (Bool-cases (contains s (distinct ss))) [
      | inl seen ↦ rw seen (omega (arith, rest))
      | inr fresh ↦ rw fresh (omega (arith, rest))
    ]

suc-ne-zero : (n : ℕ) → eqb (suc n) 0 ≡ false
suc-ne-zero n = ground arith

length_of_contains :
    (s : String) (ts : List String) → contains s ts ≡ true → eqb (length ts) 0 ≡ false
length_of_contains s [] h = cc
length_of_contains s (t ∷ ts) h = ground arith

length-distinct : (s : String) (ss : List String) → eqb (length (distinct (s ∷ ss))) 0 ≡ false
unfolding distinct
length-distinct s ss = elim (Bool-cases (contains s (distinct ss))) [
  | inl seen ↦ rw seen (length_of_contains s (distinct ss) seen)
  | inr fresh ↦ rw fresh (suc-ne-zero (length (distinct ss)))
]

-- There is no source exactly where there is no edge.
count_sources-zero : (es : List UsageEdge) → eqb (count_sources es) 0 ≡ eqb (length es) 0
unfolding distinct
count_sources-zero [] = refl
count_sources-zero (e ∷ es) =
    length-distinct e.source_id (map (λ e'. e'.source_id) es) ∙ sym (suc-ne-zero (length es))

length-map-source : (es : List UsageEdge) → length (map (λ e. e.source_id) es) ≡ length es
length-map-source [] = refl
length-map-source (e ∷ es) = ap suc (length-map-source es)

count_sources-le : (es : List UsageEdge) → count_sources es ≤ length es
count_sources-le es =
    omega (arith, length-distinct-le (map (λ e. e.source_id) es), length-map-source es)

length-select :
    (p : UsageEdge → Bool) (es : List UsageEdge) → length (select p es) ≡ count_true p es
length-select p [] = refl
length-select p (e ∷ es) = ground (arith, length-select p es)

any-select :
    (p : UsageEdge → Bool) (es : List UsageEdge) → eqb (length (select p es)) 0 ≡ not (any p es)
any-select p [] = refl
any-select p (e ∷ es) = ground (arith, any-select p es)

abbrev pub is_hidden : Visibility → Bool
is_hidden public = false
is_hidden protected = false
is_hidden private = true
is_hidden internal = true
is_hidden unknown = false

contains-visibility_value :
    (v : Visibility) → contains (visibility_value v) ("internal" ∷ "private" ∷ []) ≡ is_hidden v
contains-visibility_value public = refl
contains-visibility_value protected = refl
contains-visibility_value private = refl
contains-visibility_value internal = refl
contains-visibility_value unknown = refl

-- What the test asks of the symbol itself.
abbrev pub is_short_internal : String → String → ℕ → SymbolFact → GuardConfig → Bool
is_short_internal kind name lines symbol config =
    contains kind ("function" ∷ "method" ∷ [])
    && not (contains name config.ignored_names)
    && not (starts_with name "__" && ends_with name "__")
    && leb lines config.short_max_lines
    && (symbol.nested || is_hidden symbol.visibility)
    && not symbol.exported

-- The edge goes into the symbol, or out of it, and has one of the kinds.
abbrev pub enters : String → List UsageKind → UsageEdge → Bool
enters symbol kinds e = e.target_id == symbol && accepts kinds e

abbrev pub leaves : String → List UsageKind → UsageEdge → Bool
leaves symbol kinds e = e.source_id == symbol && accepts kinds e

combine :
    (kind named dunder short hidden exported invoked taken hooked : Bool) (callers sites low : ℕ)
    → callers ≤ sites
    → ((kind
          && named
          && dunder
          && short
          && hidden
          && exported
          && leb callers low
          && leb sites low
          && not taken
          && not hooked
          && not invoked)
        ≡ true)
      ↔ (((kind && named && dunder && short && hidden && exported) ≡ true)
          × (invoked ≡ false)
          × (sites ≤ low)
          × (taken ≡ false)
          × (hooked ≡ false))
combine kind named dunder short hidden exported invoked taken hooked callers sites low le =
    (λ h. ground (arith, le, h), λ h. ground (arith, le, h))

-- A symbol is a candidate by its evidence from a topology exactly when it is short and internal,
-- nothing outside invokes it, at most `low_use_max_calls` edges of the topology call it directly, none
-- takes it as a value or registers it as a callback, and none out of it is a hook or an override.
pub ephemeral_helper_candidate_iff :
    (kind name : String) (lines : ℕ) (symbol : SymbolFact) (symbols : List SymbolFact)
    (edges : List UsageEdge) (config : GuardConfig) (externally_invoked : Bool)
    → (ephemeral_helper_candidate kind name lines
          (symbol_usage_evidence symbol (new_topology symbols edges))
          config
          externally_invoked
        ≡ true)
      ↔ ((is_short_internal kind name lines symbol config ≡ true)
          × (externally_invoked ≡ false)
          × (count_true (enters symbol.symbol_id (direct_call ∷ [])) edges
              ≤ config.low_use_max_calls)
          × (any (enters symbol.symbol_id (callable_reference ∷ callback_registration ∷ [])) edges
              ≡ false)
          × (any (leaves symbol.symbol_id (protocol_hook ∷ override ∷ [])) edges ≡ false))
unfolding ephemeral_helper_candidate symbol_usage_evidence is_internal
ephemeral_helper_candidate_iff kind name lines symbol symbols edges config externally_invoked =
    let id = symbol.symbol_id in
    let direct = (incoming-outgoing-eq-select symbols edges id (direct_call ∷ [])).0 in
    let taken =
      (incoming-outgoing-eq-select symbols edges id
        (callable_reference ∷ callback_registration ∷ [])).0 in
    let hooks = (incoming-outgoing-eq-select symbols edges id (protocol_hook ∷ override ∷ [])).1 in
    let enter = enters id (direct_call ∷ []) in
    let take = enters id (callable_reference ∷ callback_registration ∷ []) in
    let hook = leaves id (protocol_hook ∷ override ∷ []) in
    let sites = length-select enter edges in
    let callers = count_sources-le (select enter edges) in
    let untaken = count_sources-zero (select take edges) ∙ any-select take edges in
    let unhooked = any-select hook edges in
    rw
      (
        direct,
        taken,
        hooks,
        contains-visibility_value symbol.visibility,
        untaken,
        unhooked,
        sym sites,
      )
      (combine (contains kind ("function" ∷ "method" ∷ []))
        (not (contains name config.ignored_names))
        (not (starts_with name "__" && ends_with name "__")) (leb lines config.short_max_lines)
        (symbol.nested || is_hidden symbol.visibility) (not symbol.exported) externally_invoked
        (any take edges) (any hook edges) (count_sources (select enter edges))
        (length (select enter edges)) config.low_use_max_calls callers)
