-- ===== src/GuardFlow/Steps.antt =====
-- The walk over one statement, taken apart, and what it leaves alone.
use repository_quality_guard.Prelude.{
  String, ℕ, ◌≡◌, ◌⊎◌, refl, sym, ap, ◌∙◌, subst, Bool, true, false, List, ◌++◌, Option, none, some,
  Bool-cases, inl, inr, Member, Member-append,
}
use repository_quality_guard.Prelude.Options.{>>=-eq-some}
use repository_quality_guard.GuardFlow.{
  Expr, nil, cons, Location, Stmt, branch, return_value, raise_exc, assign, ann_assign, aug_assign,
  expression, pass, unsupported, Stmts, end, next, reads_all, unknown_all, escapes,
}
use repository_quality_guard.GuardFlow.Analysis.{
  Presence, Observed, find_location, note_all, record_reads, one, join_presence, branch_state,
  annotate, walk_stmt, walk,
}
use repository_quality_guard.GuardFlow.Semantics.{Keys, unknown_all-IsQuiet}
use repository_quality_guard.GuardFlow.Execution.{
  Event, falls, Evaluates, node_of, is_simple, places, places_all,
}
use repository_quality_guard.GuardFlow.Observed.{Holds, Holds-Grows, find-record_reads_other}
use repository_quality_guard.GuardFlow.Flow.{Holds-transfer, HoldsAt}

pub pair_inj {ℓ₁ ℓ₂} :
    {A : Type ℓ₁} {B : Type ℓ₂} {a c : A} {b d : B}
    → ◌≡◌ {A = Option (A × B)} (some (a, b)) (some (c, d))
    → (a ≡ c) × (b ≡ d)
pair_inj h = (cc, cc)

abbrev pub is_branch : Stmt → Bool
is_branch (branch line test body orelse) = true
is_branch (return_value value) = false
is_branch (raise_exc exc) = false
is_branch (assign targets value) = false
is_branch (ann_assign target annotation value) = false
is_branch (aug_assign target value) = false
is_branch (expression value) = false
is_branch pass = false
is_branch (unsupported locations) = false

module _ (receivers : List String) where
  pub node-places :
      (s : Stmt) (l : Location)
      → Member l (reads_all receivers (node_of s))
      → Member l (places receivers s)
  unfolding reads_all
  node-places (branch line test body orelse) l m =
      (Member-append l (reads_all receivers (one test))
          (places_all receivers body ++ places_all receivers orelse)).1
        (inl m)
  node-places (return_value value) l m = m
  node-places (raise_exc exc) l m = m
  node-places (assign targets value) l m = m
  node-places (ann_assign target annotation value) l m = m
  node-places (aug_assign target value) l m = m
  node-places (expression value) l m = m
  node-places pass l m = elim m [ ]
  node-places (unsupported locations) l m = elim m [ ]

  record_reads-nil :
      (state : Presence) (observed : Observed)
      → record_reads receivers nil state observed ≡ observed
  unfolding record_reads note_all reads_all
  record_reads-nil state observed = refl

  -- A statement without branches records the reads of its expressions.
  pub walk_flat :
      (s : Stmt) (state : Presence) (observed observed' : Observed) (state' : Option Presence)
      → is_branch s ≡ false
      → walk_stmt receivers s state observed ≡ some (state', observed')
      → observed' ≡ record_reads receivers (node_of s) state observed
  unfolding walk_stmt annotate
  walk_flat (branch line test body orelse) state observed observed' state' flat h = cc
  walk_flat (return_value value) state observed observed' state' flat h = sym (pair_inj h).1
  walk_flat (raise_exc exc) state observed observed' state' flat h = sym (pair_inj h).1
  walk_flat (assign targets value) state observed observed' state' flat h = sym (pair_inj h).1
  walk_flat (ann_assign target annotation (some value)) state observed observed' state' flat h =
      sym (pair_inj h).1
  walk_flat (ann_assign target annotation none) state observed observed' state' flat h =
      elim (Bool-cases (unknown_all receivers (cons target (one annotation)))) [
        | inl unknown ↦ sym (pair_inj (rw unknown at h)).1
        | inr known ↦ let bad = rw known at h in cc
      ]
  walk_flat (aug_assign target value) state observed observed' state' flat h = sym (pair_inj h).1
  walk_flat (expression value) state observed observed' state' flat h = sym (pair_inj h).1
  walk_flat pass state observed observed' state' flat h =
      sym (record_reads-nil state observed ∙ (pair_inj h).1)
  walk_flat (unsupported locations) state observed observed' state' flat h =
      sym (record_reads-nil state observed ∙ (pair_inj h).1)

  -- And a simple one transfers the state.
  pub walk_simple :
      (s : Stmt) (state : Presence) (observed observed' : Observed) (state' : Option Presence)
      (σ σ' : Keys) {events : List Event}
      → is_simple s ≡ true
      → walk_stmt receivers s state observed ≡ some (state', observed')
      → Holds state σ
      → Evaluates receivers (node_of s) σ events σ'
      → HoldsAt state' (falls σ')
  unfolding walk_stmt annotate unknown_all
  walk_simple (branch line test body orelse) state observed observed' state' σ σ' simple h hs run =
      cc
  walk_simple (return_value value) state observed observed' state' σ σ' simple h hs run = cc
  walk_simple (raise_exc exc) state observed observed' state' σ σ' simple h hs run = cc
  walk_simple (assign targets value) state observed observed' state' σ σ' simple h hs run =
      let next' =
        Holds-transfer receivers (cons value targets) (escapes receivers value) state σ σ' hs
          run.grows in
      subst (λ t. HoldsAt t (falls σ')) (pair_inj h).0 next'
  walk_simple (ann_assign target annotation (some value)) state observed observed' state' σ σ'
        simple h hs run =
      let next' =
        Holds-transfer receivers (cons target (cons annotation (one value)))
          (escapes receivers value) state σ σ' hs run.grows in
      subst (λ t. HoldsAt t (falls σ')) (pair_inj h).0 next'
  walk_simple (ann_assign target annotation none) state observed observed' state' σ σ' simple h hs
        run =
      elim (Bool-cases (unknown_all receivers (cons target (one annotation)))) [
        | inl unknown ↦ subst (λ t. HoldsAt t (falls σ')) (pair_inj (rw unknown at h)).0 tt
        | inr known ↦ let bad = rw known at h in cc
      ]
  walk_simple (aug_assign target value) state observed observed' state' σ σ' simple h hs run =
      let next' =
        Holds-transfer receivers (cons target (one value)) false state σ σ' hs run.grows in
      subst (λ t. HoldsAt t (falls σ')) (pair_inj h).0 next'
  walk_simple (expression value) state observed observed' state' σ σ' simple h hs run =
      let next' = Holds-transfer receivers (one value) false state σ σ' hs run.grows in
      subst (λ t. HoldsAt t (falls σ')) (pair_inj h).0 next'
  walk_simple pass state observed observed' state' σ σ' simple h hs run =
      subst (λ t. HoldsAt t (falls σ')) (pair_inj h).0
        (Holds-Grows state hs (run.grows (unknown_all-IsQuiet receivers nil refl)))
  walk_simple (unsupported locations) state observed observed' state' σ σ' simple h hs run = cc

  -- The walk of a branching statement, taken apart.
  pub walk_branch :
      (line : ℕ) (test : Expr) (body orelse : Stmts) (state : Presence)
      (observed observed' : Observed) (state' : Option Presence)
      → walk_stmt receivers (branch line test body orelse) state observed ≡ some (state', observed')
      → (a : Option Presence × Observed) × (walk receivers body
            (some (branch_state receivers test line true state))
            (record_reads receivers (one test) state observed)
          ≡ some a)
        × ((b : Option Presence × Observed) × (walk receivers orelse
                (some (branch_state receivers test line false state))
                a.1
              ≡ some b)
            × (join_presence a.0 b.0 ≡ state')
            × (b.1 ≡ observed'))
  unfolding walk_stmt
  walk_branch line test body orelse state observed observed' state' h =
      let (a, (first, h')) =
        >>=-eq-some
          (walk receivers body (some (branch_state receivers test line true state))
            (record_reads receivers (one test) state observed))
          _ (state', observed') h in
      let (b, (second, h'')) =
        >>=-eq-some
          (walk receivers orelse (some (branch_state receivers test line false state)) a.1) _
          (state', observed') h' in
      (a, first, (b, second, (pair_inj h'').0, (pair_inj h'').1))

  pub walk_next :
      (s : Stmt) (ss : Stmts) (state : Presence) (observed observed' : Observed)
      (state' : Option Presence)
      → walk receivers (next s ss) (some state) observed ≡ some (state', observed')
      → (a : Option Presence × Observed) × (walk_stmt receivers s state observed ≡ some a)
        × (walk receivers ss a.0 a.1 ≡ some (state', observed'))
  unfolding walk
  walk_next s ss state observed observed' state' h =
      let (a, (first, rest)) =
        >>=-eq-some (walk_stmt receivers s state observed) _ (state', observed') h in
      (a, first, rest)

  pub walk-end :
      (ss : Stmts) (state state' : Option Presence) (observed observed' : Observed)
      → (ss ≡ end) ⊎ (state ≡ none)
      → walk receivers ss state observed ≡ some (state', observed')
      → (state ≡ state') × (observed ≡ observed')
  unfolding walk
  walk-end end state state' observed observed' over h = pair_inj h
  walk-end (next s ss) none state' observed observed' over h = pair_inj h
  walk-end (next s ss) (some state) state' observed observed' over h = elim over [
    | inl e ↦ cc
    | inr e ↦ cc
  ]

  pub walk_flat_other :
      (s : Stmt) (state : Presence) (observed observed' : Observed) (state' : Option Presence)
      (l : Location)
      → is_branch s ≡ false
      → walk_stmt receivers s state observed ≡ some (state', observed')
      → (Member l (places receivers s) → ⊥)
      → find_location l observed' ≡ find_location l observed
  walk_flat_other s state observed observed' state' l flat h away =
      ap (find_location l) (walk_flat s state observed observed' state' flat h)
      ∙ find-record_reads_other receivers (node_of s) state observed l
          (λ m. away (node-places s l m))
