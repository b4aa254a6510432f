-- ===== src/Topology/Chain/Walk.antt =====
-- The loop of `_maximal_chain` ends, in a chain that it cannot extend.
use repository_quality_guard.Prelude.{
  String, ℕ, zero, suc, ◌+◌, ◌<◌, Bool, true, false, ◌≡◌, ◌≢◌, ◌⊎◌, refl, sym, ap, ◌∙◌, subst, List,
  [], ◌∷◌, ◌++◌, Option, none, some, ◌==◌, eq_iff, eq_refl, contains, length, find, is_some, all,
  Bool-cases, inl, inr, arith, some_inj, all-append, length-append,
}
use repository_quality_guard.Prelude.Options.{◌>>=◌, Option-cases}
use repository_quality_guard.Topology.{RepositoryTopology}
use repository_quality_guard.Topology.Chain.{
  Eligible, sole_caller, last_of, chain_loop, maximal_chain,
}
use repository_quality_guard.Topology.Chain.Links.{
  next_helper, IsLinked, IsDistinct, chain_step-next_helper, next_helper-caller, IsLinked-append,
  IsDistinct-append, length-keys,
}

contains-last_of : (x : String) (xs : List String) → contains (last_of x xs) (x ∷ xs) ≡ true
contains-last_of x [] = rw (eq_refl x) refl
contains-last_of x (y ∷ ys) = let rest = contains-last_of y ys in ground (arith, rest)

all-last_of :
    (p : String → Bool) (x : String) (xs : List String)
    → all p (x ∷ xs) ≡ true
    → p (last_of x xs) ≡ true
all-last_of p x [] h = ground (arith, h)
all-last_of p x (y ∷ ys) h = all-last_of p y ys (ground (arith, h))

-- The helper behind the last one is none of those that another helper of the chain is linked to.
no_return :
    (topology : RepositoryTopology) (eligible : Eligible) (x : String) (xs : List String)
    (n : String)
    → IsLinked topology eligible x xs
    → IsDistinct (x ∷ xs)
    → next_helper topology eligible (last_of x xs) ≡ some n
    → contains n xs ≡ false
no_return topology eligible x [] n linked apart behind = refl
no_return topology eligible x (y ∷ ys) n linked apart behind =
    let rest = no_return topology eligible y ys n linked.1 apart.1 behind in
    elim (Bool-cases (y == n)) [
      | inl same ↦
          let e : y ≡ n = (eq_iff y n).0 same in
          let one = (next_helper-caller topology eligible x y linked.0).0 in
          let other = (next_helper-caller topology eligible (last_of y ys) n behind).0 in
          let at : x ≡ last_of y ys = some_inj (sym one ∙ (ap (sole_caller topology) e ∙ other)) in
          let off = subst (λ z. contains z (y ∷ ys) ≡ false) at apart.0 in
          let on = contains-last_of y ys in cc
      | inr away ↦ rw (away, rest) refl
    ]

-- Neither is it the first of a chain that is entered from outside the helpers.
pub no_restart :
    (topology : RepositoryTopology) (eligible : Eligible) (caller x last : String)
    → sole_caller topology x ≡ some caller
    → is_some (find caller eligible) ≡ false
    → (n : String) → next_helper topology eligible last ≡ some n
    → (x == n) ≡ false
no_restart topology eligible caller x last called outside n behind = elim (Bool-cases (x == n)) [
  | inl same ↦
      let e : x ≡ n = (eq_iff x n).0 same in
      let (other, known, beyond) = next_helper-caller topology eligible last n behind in
      let at : caller ≡ last = some_inj (sym called ∙ (ap (sole_caller topology) e ∙ other)) in
      let on : is_some (find caller eligible) ≡ true = rw at known in cc
  | inr away ↦ away
]

-- The chain that the loop ends with.
abbrev pub IsMaximal : RepositoryTopology → Eligible → String → List String → Type 0
IsMaximal topology eligible x xs =
    IsLinked topology eligible x xs
    × IsDistinct (x ∷ xs)
    × (all (λ id. is_some (find id eligible)) (x ∷ xs) ≡ true)
    × (next_helper topology eligible (last_of x xs) ≡ none)

chain_loop_lem :
    (fuel : ℕ) (topology : RepositoryTopology) (eligible : Eligible) (caller x : String)
    (xs : List String)
    → sole_caller topology x ≡ some caller
    → is_some (find caller eligible) ≡ false
    → IsLinked topology eligible x xs
    → IsDistinct (x ∷ xs)
    → all (λ id. is_some (find id eligible)) (x ∷ xs) ≡ true
    → length eligible < fuel + length (x ∷ xs)
    → (ys : List String) × ((chain_loop fuel topology eligible x xs ≡ some (x ∷ ys))
        × IsMaximal topology eligible x ys)
unfolding chain_loop
chain_loop_lem zero topology eligible caller x xs called outside linked apart known enough =
    let few = length-keys (x ∷ xs) eligible apart known in
    let bad : length xs ≢ length xs = omega (arith, few, enough) in elim (bad refl) [ ]
chain_loop_lem (suc fuel) topology eligible caller x xs called outside linked apart known enough =
    let p : String → Bool = λ id. is_some (find id eligible) in
    let last = last_of x xs in
    let step = chain_step-next_helper topology eligible (x ∷ xs) last (all-last_of p x xs known) in
    elim (Option-cases (next_helper topology eligible last)) [
      | inl ended ↦ (xs, (rw (step, ended) refl, (linked, apart, known, ended)))
      | inr (n, behind) ↦
          let front = no_restart topology eligible caller x last called outside n behind in
          let fresh : contains n (x ∷ xs) ≡ false =
            rw (front, no_return topology eligible x xs n linked apart behind) refl in
          let next = (next_helper-caller topology eligible last n behind).2 in
          let more : all p ((x ∷ xs) ++ n ∷ []) ≡ true =
            all-append p (x ∷ xs) (n ∷ []) ∙ ground (arith, known, next) in
          let size = length-append xs (n ∷ []) in
          let (ys, (ran, rest)) =
            chain_loop_lem fuel topology eligible caller x (xs ++ n ∷ []) called outside
              (IsLinked-append topology eligible x xs n linked behind)
              (IsDistinct-append (x ∷ xs) n apart fresh) more (omega (arith, size, enough)) in
          (ys, (rw (step, behind, fresh) ran, rest))
    ]

-- A root of `_maximal_chain`: the one that calls the helper, where it is no helper itself.
unfoldable pub root_caller : RepositoryTopology → Eligible → String → Option String
root_caller topology eligible id = sole_caller topology id >>= λ caller.
    elim (is_some (find caller eligible)) [ true ↦ none | false ↦ some caller ]

maximal_chain-loop :
    (topology : RepositoryTopology) (eligible : Eligible) (caller start : String)
    → sole_caller topology start ≡ some caller
    → is_some (find caller eligible) ≡ false
    → maximal_chain start eligible topology ≡ (
        chain_loop (suc (length eligible)) topology eligible start [] >>= λ chain.
        some (some (caller, chain)))
unfolding maximal_chain
maximal_chain-loop topology eligible caller start called outside =
    rw (maximal_chain, called, outside) refl

-- `_maximal_chain` returns for every helper of the rule. Without a sole certain call of the helper, or
-- with one that comes from a helper of the rule, it returns None. Else it returns the caller, and a
-- chain that starts at the helper: helpers of the rule that differ, each the only one of its owner that
-- the one in front of it certainly calls, by the one certain call that it has; and no helper stands in
-- this way behind the last one.
pub maximal_chain_lem :
    (topology : RepositoryTopology) (eligible : Eligible) (start : String)
    → is_some (find start eligible) ≡ true
    → ((root_caller topology eligible start ≡ none)
        × (maximal_chain start eligible topology ≡ some none))
      ⊎ ((caller : String) × ((rest : List String) × ((root_caller topology eligible start
                ≡ some caller)
              × (maximal_chain start eligible topology ≡ some (some (caller, start ∷ rest)))
              × IsMaximal topology eligible start rest)))
unfolding maximal_chain root_caller
maximal_chain_lem topology eligible start known = elim (Option-cases (sole_caller topology start)) [
  | inl no_one ↦ inl (rw no_one refl, rw (maximal_chain, no_one) refl)
  | inr (caller, called) ↦ elim (Bool-cases (is_some (find caller eligible))) [
    | inl inside ↦ inl (rw (called, ◌>>=◌, inside) refl, rw (maximal_chain, called, inside) refl)
    | inr outside ↦
        let (rest, (ran, best)) =
          chain_loop_lem (suc (length eligible)) topology eligible caller start [] called outside tt
            (refl, tt) (ground (arith, known)) (omega arith) in
        inr (
          caller,
          (
            rest,
            (
              rw (called, ◌>>=◌, outside) refl,
              maximal_chain-loop topology eligible caller start called outside
                  ∙ ap (λ o. o >>= λ chain. some (some (caller, chain))) ran,
              best,
            ),
          ),
        )
  ]
]
