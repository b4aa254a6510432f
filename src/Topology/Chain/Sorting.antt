-- ===== src/Topology/Chain/Sorting.antt =====
-- The ids that `evaluate` goes through: each helper of the rule once.
use repository_quality_guard.Prelude.{
  String, Bool, false, ◌||◌, ◌≡◌, refl, ap, ◌∙◌, List, [], ◌∷◌, ◌==◌, contains, find, is_some, map,
  Bool-cases, inl, inr, arith, eqb_comm, IsDict, put-IsDict, text_insert, text_sorted, text_leb,
}
use repository_quality_guard.Topology.{SymbolFact, RepositoryTopology}
use repository_quality_guard.Topology.Helpers.{GuardConfig}
use repository_quality_guard.Topology.Chain.{
  Eligible, is_eligible, collect_eligible, eligible_helpers,
}
use repository_quality_guard.Topology.Chain.Links.{IsDistinct}

contains-text_insert :
    (x y : String) (ys : List String) → contains x (text_insert y ys) ≡ (y == x || contains x ys)
unfolding text_insert
contains-text_insert x y [] = refl
contains-text_insert x y (z ∷ zs) = ground (arith, contains-text_insert x y zs)

pub contains-text_sorted :
    (x : String) (xs : List String) → contains x (text_sorted xs) ≡ contains x xs
unfolding text_sorted
contains-text_sorted x [] = refl
contains-text_sorted x (y ∷ ys) =
    contains-text_insert x y (text_sorted ys) ∙ ap (λ b. y == x || b) (contains-text_sorted x ys)

text_insert-IsDistinct :
    (x : String) (xs : List String)
    → contains x xs ≡ false
    → IsDistinct xs
    → IsDistinct (text_insert x xs)
unfolding text_insert
text_insert-IsDistinct x [] out h = (refl, tt)
text_insert-IsDistinct x (y ∷ ys) out h = elim (Bool-cases (text_leb x y)) [
  | inl before ↦ rw before (out, h)
  | inr behind ↦
      let away : (x == y) ≡ false = eqb_comm y x (ground (arith, out)) in
      let more = contains-text_insert y x ys in
      rw behind
        (more ∙ ground (arith, away, h.0), text_insert-IsDistinct x ys (ground (arith, out)) h.1)
]

pub text_sorted-IsDistinct : (xs : List String) → IsDistinct xs → IsDistinct (text_sorted xs)
unfolding text_sorted
text_sorted-IsDistinct [] h = tt
text_sorted-IsDistinct (x ∷ xs) h =
    text_insert-IsDistinct x (text_sorted xs) (contains-text_sorted x xs ∙ h.0)
      (text_sorted-IsDistinct xs h.1)

pub contains-keys : (x : String) (d : Eligible) → contains x (map (λ e. e.0) d) ≡ is_some (find x d)
contains-keys x [] = refl
contains-keys x ((k, v) ∷ d) = ground (arith, contains-keys x d)

pub keys-IsDistinct : (d : Eligible) → IsDict d → IsDistinct (map (λ e. e.0) d)
keys-IsDistinct [] h = tt
keys-IsDistinct ((k, v) ∷ d) h = (contains-keys k d ∙ h.0, keys-IsDistinct d h.1)

collect_eligible-IsDict :
    (in_scope : SymbolFact → Bool) (topology : RepositoryTopology) (config : GuardConfig)
    (symbols : List SymbolFact) (eligible : Eligible)
    → IsDict eligible
    → IsDict (collect_eligible in_scope topology config symbols eligible)
unfolding collect_eligible
collect_eligible-IsDict in_scope topology config [] eligible h = h
collect_eligible-IsDict in_scope topology config (symbol ∷ symbols) eligible h =
    elim (Bool-cases (is_eligible in_scope topology config symbol)) [
      | inl passed ↦ rw passed (
          collect_eligible-IsDict in_scope topology config symbols _
            (put-IsDict symbol.symbol_id _ eligible h))
      | inr failed ↦ rw failed (collect_eligible-IsDict in_scope topology config symbols eligible h)
    ]

pub eligible_helpers-IsDict :
    (in_scope : SymbolFact → Bool) (topology : RepositoryTopology) (config : GuardConfig)
    → IsDict (eligible_helpers in_scope topology config)
unfolding eligible_helpers
eligible_helpers-IsDict in_scope topology config =
    collect_eligible-IsDict in_scope topology config topology.symbols [] tt
