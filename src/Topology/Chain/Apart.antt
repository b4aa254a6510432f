-- ===== src/Topology/Chain/Apart.antt =====
-- Chains from different roots have no helper in common, so `evaluate` reports each helper once.
use repository_quality_guard.Prelude.{
  String, true, false, ◌≡◌, ◌⊎◌, refl, sym, ◌∙◌, subst, List, [], ◌∷◌, none, some, ◌==◌, eq_iff,
  eq_refl, contains, find, is_some, Bool-cases, inl, inr, arith, some_inj,
}
use repository_quality_guard.Prelude.Options.{>>=-eq-some}
use repository_quality_guard.Topology.{RepositoryTopology}
use repository_quality_guard.Topology.Chain.{Eligible, sole_caller}
use repository_quality_guard.Topology.Chain.Links.{next_helper, IsLinked, next_helper-caller}
use repository_quality_guard.Topology.Chain.Walk.{root_caller, no_restart}

-- What links lead to from a helper.
pub data Reach (topology : RepositoryTopology) (eligible : Eligible) (start : String)
    : String → Type 0 where
  first : Reach topology eligible start start
  onward :
      {x y : String}
      → Reach topology eligible start x
      → next_helper topology eligible x ≡ some y
      → Reach topology eligible start y

Reach_cases :
    (topology : RepositoryTopology) (eligible : Eligible) (start y : String)
    → Reach topology eligible start y
    → (start ≡ y)
      ⊎ ((x : String) × (Reach topology eligible start x
            × (next_helper topology eligible x ≡ some y)))
Reach_cases topology eligible start y first = inl refl
Reach_cases topology eligible start y (onward {x} r l) = inr (x, (r, l))

root_caller-eq-some :
    (topology : RepositoryTopology) (eligible : Eligible) (id caller : String)
    → root_caller topology eligible id ≡ some caller
    → (sole_caller topology id ≡ some caller) × (is_some (find caller eligible) ≡ false)
unfolding root_caller
root_caller-eq-some topology eligible id caller h =
    let (who, (called, tested)) = >>=-eq-some (sole_caller topology id) _ caller h in
    elim (Bool-cases (is_some (find who eligible))) [
      | inl inside ↦ let bad : none ≡ some caller = rw inside at tested in cc
      | inr outside ↦
          let same : some who ≡ some caller = rw outside at tested in
          let e : who ≡ caller = some_inj same in
          (called ∙ same, subst (λ z. is_some (find z eligible) ≡ false) e outside)
    ]

root_unlinked :
    (topology : RepositoryTopology) (eligible : Eligible) (id caller x : String)
    → root_caller topology eligible id ≡ some caller
    → next_helper topology eligible x ≡ some id
    → false ≡ true
root_unlinked topology eligible id caller x root behind =
    let (called, outside) = root_caller-eq-some topology eligible id caller root in
    let away = no_restart topology eligible caller id x called outside id behind in
    let same = eq_refl id in cc

-- A helper is reached from one root at most.
pub root_unique :
    (topology : RepositoryTopology) (eligible : Eligible) (s t : String) (c d : String)
    → root_caller topology eligible s ≡ some c
    → root_caller topology eligible t ≡ some d
    → (x : String) → Reach topology eligible s x
    → Reach topology eligible t x
    → s ≡ t
root_unique topology eligible s t c d root other x first r =
    elim (Reach_cases topology eligible t s r) [
      | inl same ↦ sym same
      | inr (y, (_, l)) ↦ let bad = root_unlinked topology eligible s c y root l in cc
    ]
root_unique topology eligible s t c d root other x (onward {x = y} r l) q =
    elim (Reach_cases topology eligible t x q) [
      | inl same ↦
          let into : next_helper topology eligible y ≡ some t = rw (sym same) at l in
          let bad = root_unlinked topology eligible t d y other into in cc
      | inr (z, (p, m)) ↦
          let one = (next_helper-caller topology eligible y x l).0 in
          let two = (next_helper-caller topology eligible z x m).0 in
          let e : z ≡ y = some_inj (sym two ∙ one) in
          root_unique topology eligible s t c d root other y r
            (subst (Reach topology eligible t) e p)
    ]

-- Every helper of a chain is reached from its first.
pub Reach-chain :
    (topology : RepositoryTopology) (eligible : Eligible) (start x : String) (xs : List String)
    (helper : String)
    → Reach topology eligible start x
    → IsLinked topology eligible x xs
    → contains helper (x ∷ xs) ≡ true
    → Reach topology eligible start helper
Reach-chain topology eligible start x [] helper r linked h =
    subst (Reach topology eligible start) ((eq_iff x helper).0 (ground (arith, h))) r
Reach-chain topology eligible start x (y ∷ ys) helper r linked h = elim (Bool-cases (x == helper)) [
  | inl same ↦ subst (Reach topology eligible start) ((eq_iff x helper).0 same) r
  | inr away ↦
      Reach-chain topology eligible start y ys helper (onward r linked.0) linked.1
        (ground (arith, h, away))
]
