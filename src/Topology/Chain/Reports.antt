-- ===== src/Topology/Chain/Reports.antt =====
-- What `SingleUseChainRule.evaluate` reports: every maximal chain that is long enough.
use repository_quality_guard.Prelude.{
  String, ℕ, suc, ◌≤◌, Bool, true, false, not, ◌≡◌, ◌⊎◌, refl, sym, ap, ◌∙◌, List, [], ◌∷◌, ◌++◌,
  none, some, eq_refl, any, all, map, contains, length, ltb, count_true, find, is_some,
  if◌then◌else◌, Bool-cases, inl, inr, arith, text_sorted,
}
use repository_quality_guard.Prelude.Options.{◌>>=◌}
use repository_quality_guard.Topology.{RepositoryTopology, SymbolFact}
use repository_quality_guard.Topology.Helpers.{GuardConfig}
use repository_quality_guard.Topology.Chain.{
  Eligible, eligible_helpers, maximal_chain, equal_chains, chain_reports, evaluate_chains,
}
use repository_quality_guard.Topology.Chain.Links.{IsDistinct}
use repository_quality_guard.Topology.Chain.Walk.{root_caller, maximal_chain_lem}
use repository_quality_guard.Topology.Chain.Apart.{Reach, first, root_unique, Reach-chain}
use repository_quality_guard.Topology.Chain.Sorting.{
  contains-text_sorted, text_sorted-IsDistinct, contains-keys, keys-IsDistinct,
  eligible_helpers-IsDict,
}

-- The maximal chains of at least `least` helpers, by their first helper.
unfoldable pub long_chains :
    RepositoryTopology → Eligible → ℕ → List String → List (String × List String)
long_chains topology eligible least [] = []
long_chains topology eligible least (id ∷ ids) =
    let rest = long_chains topology eligible least ids in
    elim (maximal_chain id eligible topology) [
      | some (some (caller, chain)) ↦
          if ltb (length chain) least then rest else (caller, chain) ∷ rest
      | _ ↦ rest
    ]

-- The chain starts at one of the ids.
abbrev starts_in : List String → List String → Bool
starts_in ids [] = false
starts_in ids (x ∷ xs) = contains x ids

-- No emitted chain starts at an id that is still to come.
abbrev IsPast : List (List String) → List String → Type 0
IsPast emitted ids = all (λ chain. not (starts_in ids chain)) emitted ≡ true

emitted_apart :
    (emitted : List (List String)) (id : String) (rest ids : List String)
    → IsPast emitted (id ∷ ids)
    → any (equal_chains (id ∷ rest)) emitted ≡ false
emitted_apart [] id rest ids h = refl
emitted_apart ([] ∷ more) id rest ids h = emitted_apart more id rest ids (ground (arith, h))
emitted_apart ((x ∷ xs) ∷ more) id rest ids h =
    let later = emitted_apart more id rest ids (ground (arith, h)) in ground (arith, later, h)

IsPast-tail :
    (emitted : List (List String)) (id : String) (ids : List String)
    → IsPast emitted (id ∷ ids)
    → IsPast emitted ids
IsPast-tail [] id ids h = refl
IsPast-tail ([] ∷ more) id ids h = IsPast-tail more id ids h
IsPast-tail ((x ∷ xs) ∷ more) id ids h =
    let later = IsPast-tail more id ids (ground (arith, h)) in ground (arith, later, h)

append_assoc : (xs ys zs : List (String × List String)) → (xs ++ ys) ++ zs ≡ xs ++ (ys ++ zs)
append_assoc [] ys zs = refl
append_assoc (x ∷ xs) ys zs = ap (λ l. x ∷ l) (append_assoc xs ys zs)

append-nil : (xs : List (String × List String)) → xs ++ [] ≡ xs
append-nil [] = refl
append-nil (x ∷ xs) = ap (λ l. x ∷ l) (append-nil xs)

module _ (topology : RepositoryTopology) (eligible : Eligible) (least : ℕ) (id : String) where
  next_without :
      (ids : List String) (emitted : List (List String)) (findings : List (String × List String))
      → maximal_chain id eligible topology ≡ some none
      → (chain_reports topology eligible least (id ∷ ids) emitted findings
          ≡ chain_reports topology eligible least ids emitted findings)
        × (long_chains topology eligible least (id ∷ ids) ≡ long_chains topology eligible least ids)
  unfolding chain_reports long_chains
  next_without ids emitted findings ran = (rw (chain_reports, ran) refl, rw (long_chains, ran) refl)

  next_short :
      (ids : List String) (emitted : List (List String)) (findings : List (String × List String))
      (caller : String) (chain : List String)
      → maximal_chain id eligible topology ≡ some (some (caller, chain))
      → ltb (length chain) least ≡ true
      → (chain_reports topology eligible least (id ∷ ids) emitted findings
          ≡ chain_reports topology eligible least ids emitted findings)
        × (long_chains topology eligible least (id ∷ ids) ≡ long_chains topology eligible least ids)
  unfolding chain_reports long_chains
  next_short ids emitted findings caller chain ran short =
      (rw (chain_reports, ran, ◌>>=◌, short) refl, rw (long_chains, ran, short) refl)

  next_long :
      (ids : List String) (emitted : List (List String)) (findings : List (String × List String))
      (caller : String) (chain : List String)
      → maximal_chain id eligible topology ≡ some (some (caller, chain))
      → ltb (length chain) least ≡ false
      → any (equal_chains chain) emitted ≡ false
      → (chain_reports topology eligible least (id ∷ ids) emitted findings
          ≡ chain_reports topology eligible least ids
              (chain ∷ emitted)
              (findings ++ (caller, chain) ∷ []))
        × (long_chains topology eligible least (id ∷ ids)
            ≡ (caller, chain) ∷ long_chains topology eligible least ids)
  unfolding chain_reports long_chains
  next_long ids emitted findings caller chain ran long new =
      (rw (chain_reports, ran, ◌>>=◌, long, new) refl, rw (long_chains, ran, long) refl)

chain_reports-long :
    (topology : RepositoryTopology) (eligible : Eligible) (least : ℕ) (ids : List String)
    (emitted : List (List String)) (findings : List (String × List String))
    → IsDistinct ids
    → all (λ id. is_some (find id eligible)) ids ≡ true
    → IsPast emitted ids
    → chain_reports topology eligible least ids emitted findings
      ≡ some (findings ++ long_chains topology eligible least ids)
unfolding chain_reports long_chains
chain_reports-long topology eligible least [] emitted findings apart known past =
    ap some (sym (append-nil findings))
chain_reports-long topology eligible least (id ∷ ids) emitted findings apart known past =
    let later = IsPast-tail emitted id ids past in
    let known_rest : all (λ x. is_some (find x eligible)) ids ≡ true = ground (arith, known) in
    let skip =
      chain_reports-long topology eligible least ids emitted findings apart.1 known_rest later in
    elim (maximal_chain_lem topology eligible id (ground (arith, known))) [
      | inl (_, ran) ↦
          let (code, spec) = next_without topology eligible least id ids emitted findings ran in
          code ∙ (skip ∙ ap (λ l. some (findings ++ l)) (sym spec))
      | inr (caller, (rest, (_, ran, _))) ↦ elim (Bool-cases (ltb (length (id ∷ rest)) least)) [
        | inl short ↦
            let (code, spec) =
              next_short topology eligible least id ids emitted findings caller (id ∷ rest) ran
                short in
            code ∙ (skip ∙ ap (λ l. some (findings ++ l)) (sym spec))
        | inr long ↦
            let new = emitted_apart emitted id rest ids past in
            let past_now : IsPast ((id ∷ rest) ∷ emitted) ids = ground (arith, apart.0, later) in
            let (code, spec) =
              next_long topology eligible least id ids emitted findings caller (id ∷ rest) ran long
                new in
            let found : List (String × List String) = (caller, id ∷ rest) ∷ [] in
            let more =
              chain_reports-long topology eligible least ids ((id ∷ rest) ∷ emitted)
                (findings ++ found) apart.1 known_rest past_now in
            let tail = long_chains topology eligible least ids in
            code
            ∙ (more
                ∙ ap some (append_assoc findings found tail ∙ ap (λ l. findings ++ l) (sym spec)))
      ]
    ]

-- The helper is reached from a root among the ids.
abbrev IsRooted : RepositoryTopology → Eligible → List String → String → Type 0
IsRooted topology eligible ids helper =
    (s : String) × ((c : String) × ((contains s ids ≡ true)
        × (root_caller topology eligible s ≡ some c)
        × Reach topology eligible s helper))

-- The number of chains that a helper stands in.
abbrev pub count_chains : String → List (String × List String) → ℕ
count_chains helper found = count_true (λ r. contains helper r.1) found

-- A helper stands in no chain, or in one that starts at a root among the ids.
abbrev IsOnce : RepositoryTopology → Eligible → ℕ → String → List String → Type 0
IsOnce topology eligible least helper ids =
    (count_chains helper (long_chains topology eligible least ids) ≡ 0)
    ⊎ ((count_chains helper (long_chains topology eligible least ids) ≡ 1)
        × IsRooted topology eligible ids helper)

module _ (topology : RepositoryTopology) (eligible : Eligible) (least : ℕ) (helper id : String)
    (ids : List String) (rest : IsOnce topology eligible least helper ids) where
  later-IsRooted :
      IsRooted topology eligible ids helper → IsRooted topology eligible (id ∷ ids) helper
  later-IsRooted (s, (c, (at, root, reached))) = (s, (c, (ground (arith, at), root, reached)))

  -- The id adds no chain with the helper.
  IsOnce-kept :
      count_chains helper (long_chains topology eligible least (id ∷ ids))
        ≡ count_chains helper (long_chains topology eligible least ids)
      → IsOnce topology eligible least helper (id ∷ ids)
  IsOnce-kept same = elim rest [
    | inl no_chain ↦ inl (same ∙ no_chain)
    | inr (one, root) ↦ inr (same ∙ one, later-IsRooted root)
  ]

  -- The id adds one, and is the root of the helper.
  IsOnce-added :
      (caller : String)
      → count_chains helper (long_chains topology eligible least (id ∷ ids))
        ≡ suc (count_chains helper (long_chains topology eligible least ids))
      → contains id ids ≡ false
      → root_caller topology eligible id ≡ some caller
      → Reach topology eligible id helper
      → IsOnce topology eligible least helper (id ∷ ids)
  IsOnce-added caller more fresh root reached = elim rest [
    | inl no_chain ↦
        inr (more ∙ ap suc no_chain, (id, (caller, (rw (eq_refl id) refl, root, reached))))
    | inr (one, (s, (c, (at, other, again)))) ↦
        let e = root_unique topology eligible s id c caller other root helper again reached in
        let on : contains id ids ≡ true = rw e at at in cc
  ]

long_chains-IsOnce :
    (topology : RepositoryTopology) (eligible : Eligible) (least : ℕ) (helper : String)
    (ids : List String)
    → IsDistinct ids
    → all (λ id. is_some (find id eligible)) ids ≡ true
    → IsOnce topology eligible least helper ids
unfolding long_chains
long_chains-IsOnce topology eligible least helper [] apart known = inl refl
long_chains-IsOnce topology eligible least helper (id ∷ ids) apart known =
    let rest =
      long_chains-IsOnce topology eligible least helper ids apart.1 (ground (arith, known)) in
    let kept = IsOnce-kept topology eligible least helper id ids rest in
    let count = count_chains helper in
    elim (maximal_chain_lem topology eligible id (ground (arith, known))) [
      | inl (_, ran) ↦ kept (ap count (next_without topology eligible least id ids [] [] ran).1)
      | inr (caller, (chain, (root, ran, best))) ↦
          elim (Bool-cases (ltb (length (id ∷ chain)) least)) [
            | inl short ↦
                let same =
                  next_short topology eligible least id ids [] [] caller (id ∷ chain) ran short in
                kept (ap count same.1)
            | inr long ↦
                let more =
                  next_long topology eligible least id ids [] [] caller (id ∷ chain) ran long
                    refl in
                elim (Bool-cases (contains helper (id ∷ chain))) [
                  | inl inside ↦
                      let r =
                        Reach-chain topology eligible id id chain helper first best.0 inside in
                      IsOnce-added topology eligible least helper id ids rest caller
                        (ap count more.1 ∙ rw inside (omega arith)) apart.0 root r
                  | inr outside ↦ kept (ap count more.1 ∙ rw outside (omega arith))
                ]
          ]
    ]

all-contains :
    (p : String → Bool) (xs : List String)
    → ((x : String) → contains x xs ≡ true → p x ≡ true)
    → all p xs ≡ true
all-contains p [] h = refl
all-contains p (x ∷ xs) h =
    let rest = all-contains p xs (λ y m. h y (ground (arith, m))) in
    rw (h x (rw (eq_refl x) refl), rest) refl

-- For any test of a symbol in the place of `_in_scope`, `evaluate` ends without a KeyError. It reports,
-- by the ids of the helpers of the rule in order, every chain of `_maximal_chain` with at least
-- `single_use_chain_min_helpers` helpers, so the test for an emitted chain holds none back; and a
-- helper stands in at most one of the reported chains.
pub evaluate_chains_lem :
    (in_scope : SymbolFact → Bool) (topology : RepositoryTopology) (config : GuardConfig)
    (helper : String)
    → (evaluate_chains in_scope topology config
        ≡ some (
            long_chains topology
              (eligible_helpers in_scope topology config)
              config.single_use_chain_min_helpers
              (text_sorted (map (λ e. e.0) (eligible_helpers in_scope topology config)))))
      × (count_chains helper (
            long_chains topology
              (eligible_helpers in_scope topology config)
              config.single_use_chain_min_helpers
              (text_sorted (map (λ e. e.0) (eligible_helpers in_scope topology config))))
          ≤ 1)
unfolding evaluate_chains
evaluate_chains_lem in_scope topology config helper =
    let eligible = eligible_helpers in_scope topology config in
    let least = config.single_use_chain_min_helpers in
    let keys = map (λ e. e.0) eligible in
    let apart =
      text_sorted-IsDistinct keys
        (keys-IsDistinct eligible (eligible_helpers-IsDict in_scope topology config)) in
    let known =
      all-contains (λ id. is_some (find id eligible)) (text_sorted keys)
        (λ x m. sym (contains-keys x eligible) ∙ (sym (contains-text_sorted x keys) ∙ m)) in
    (
      chain_reports-long topology eligible least (text_sorted keys) [] [] apart known refl,
      elim (long_chains-IsOnce topology eligible least helper (text_sorted keys) apart known) [
        | inl no_chain ↦ omega (arith, no_chain)
        | inr (one, _) ↦ omega (arith, one)
      ],
    )
