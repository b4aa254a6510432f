-- ===== src/GuardFlow/Sound.antt =====
-- A run never reads a key that `presence_witnesses` vouches for and that is not there.
use repository_quality_guard.Prelude.{
  String, ℕ, ◌≡◌, refl, sym, ap, ◌∙◌, subst, true, false, List, [], ◌++◌, Option, none, some, inl,
  inr, is_some, Member, Member-append,
}
use repository_quality_guard.GuardFlow.{
  Expr, Location, Stmt, branch, unsupported, Stmts, end, unknown_all, unknown_effect,
}
use repository_quality_guard.GuardFlow.Analysis.{
  Presence, Observed, find_location, record_reads, one, branch_state, walk_stmt, walk,
}
use repository_quality_guard.GuardFlow.Semantics.{Keys, unknown_all-IsQuiet}
use repository_quality_guard.GuardFlow.Execution.{
  Event, Ending, falls, leaves, Grows, Evaluates, node_of, Step, goes_on, ends, chooses, any_way,
  Run, done, stops, continues, places_all, IsLocated, AreLocated,
}
use repository_quality_guard.GuardFlow.Observed.{
  Holds, Explained, record_reads-Explained, find-record_reads_other,
}
use repository_quality_guard.GuardFlow.Flow.{
  Holds-branch_state, HoldsAt, HoldsAt-join_left, HoldsAt-join_right,
}
use repository_quality_guard.GuardFlow.Steps.{
  pair_inj, walk_flat, walk_simple, walk_branch, walk_next, walk-end,
}
use repository_quality_guard.GuardFlow.Frame.{walk_stmt_other, walk_other, Step-within, Run-within}

-- Reads that were explained stay so while nothing is recorded in their places.
Explained-later :
    (events : List Event) (observed observed' later : Observed)
    → Explained events observed observed'
    → ((e : Event)
        → Member e events
        → find_location e.location later ≡ find_location e.location observed')
    → Explained events observed later
Explained-later events observed observed' later ex same e m found =
    ex e m (ap is_some (sym (same e m)) ∙ found)

Explained-earlier :
    (events : List Event) (before observed observed' : Observed)
    → Explained events observed observed'
    → ((e : Event)
        → Member e events
        → find_location e.location observed ≡ find_location e.location before)
    → Explained events before observed'
Explained-earlier events before observed observed' ex same e m found = elim (ex e m found) [
  | inl present ↦ inl present
  | inr old ↦ inr (ap is_some (sym (same e m)) ∙ old)
]

Explained-append :
    (events events' all : List Event) (observed observed' : Observed)
    → all ≡ events ++ events'
    → Explained events observed observed'
    → Explained events' observed observed'
    → Explained all observed observed'
Explained-append events events' all observed observed' eq ex ex' e m found =
    elim ((Member-append e events events').0 (subst (Member e) eq m)) [
      | inl k ↦ ex e k found
      | inr k ↦ ex' e k found
    ]

module _ (receivers : List String) where
  -- The reads of the test of a branching statement.
  test_Explained :
      (line : ℕ) (test : Expr) (body orelse : Stmts) (state : Presence)
      (observed observed' : Observed) (state' : Option Presence) {σ σ' : Keys} {events : List Event}
      → walk_stmt receivers (branch line test body orelse) state observed ≡ some (state', observed')
      → Holds state σ
      → IsLocated receivers (branch line test body orelse)
      → Evaluates receivers (one test) σ events σ'
      → Explained events observed observed'
  test_Explained line test body orelse state observed observed' state' {events} h hs located run =
      let (a, first, (b, second, j, at)) =
        walk_branch receivers line test body orelse state observed observed' state' h in
      let tested = record_reads receivers (one test) state observed in
      Explained-later events observed tested observed'
        (record_reads-Explained receivers (one test) state observed hs run)
        (λ e m.
          let l = e.location in
          ap (find_location l) (sym at)
          ∙ (walk_other receivers orelse (some (branch_state receivers test line false state)) a.1
                b.1 b.0 l second (located.1 l (run.within e m))
              ∙ walk_other receivers body (some (branch_state receivers test line true state))
                  tested a.1 a.0 l first (located.0 l (run.within e m))))

  node_Explained :
      (s : Stmt) (state : Presence) (observed observed' : Observed) (state' : Option Presence)
      {σ σ' : Keys} {events : List Event}
      → walk_stmt receivers s state observed ≡ some (state', observed')
      → Holds state σ
      → IsLocated receivers s
      → Evaluates receivers (node_of s) σ events σ'
      → Explained events observed observed'
  node_Explained (branch line test body orelse) state observed observed' state' h hs located run =
      test_Explained line test body orelse state observed observed' state' h hs located run
  node_Explained s state observed observed' state' {events} h hs located run =
      subst (Explained events observed)
        (sym (walk_flat receivers s state observed observed' state' refl h))
        (record_reads-Explained receivers (node_of s) state observed hs run)

HoldsAt-nil : (out : Ending) → HoldsAt (some []) out
HoldsAt-nil leaves = tt
HoldsAt-nil (falls σ) = tt

unsupported_lem :
    (receivers : List String) (locations : List Location) (state : Presence)
    (observed observed' : Observed) (state' : Option Presence)
    → walk_stmt receivers (unsupported locations) state observed ≡ some (state', observed')
    → (some [] ≡ state') × (observed ≡ observed')
unfolding walk_stmt
unsupported_lem receivers locations state observed observed' state' h = pair_inj h

test-Grows :
    (receivers : List String) (test : Expr) {σ σ' : Keys} {events : List Event}
    → Evaluates receivers (one test) σ events σ'
    → unknown_effect receivers test ≡ false
    → Grows σ σ'
unfolding unknown_all
test-Grows receivers test run known =
    run.grows (unknown_all-IsQuiet receivers (one test) (rw known refl))

mutual
  Step-sound :
      (receivers : List String) {s : Stmt} {σ : Keys} {events : List Event} {out : Ending}
      → Step receivers s σ events out
      → (state : Presence) (observed observed' : Observed) (state' : Option Presence)
      → walk_stmt receivers s state observed ≡ some (state', observed')
      → Holds state σ
      → IsLocated receivers s
      → HoldsAt state' out × Explained events observed observed'
  Step-sound receivers {s} {σ} (goes_on {σ'} simple run) state observed observed' state' h hs
        located =
      (
        walk_simple receivers s state observed observed' state' σ σ' simple h hs run,
        node_Explained receivers s state observed observed' state' h hs located run,
      )
  Step-sound receivers {s} (ends run) state observed observed' state' h hs located =
      (tt, node_Explained receivers s state observed observed' state' h hs located run)
  Step-sound receivers {σ} {out}
        (chooses {line} {test} {body} {orelse} {σ'} {events} {events'} {all} true run agrees rest
          eq)
        state observed observed' state' h hs located =
      let (a, first, (b, second, j, at)) =
        walk_branch receivers line test body orelse state observed observed' state' h in
      let tested = record_reads receivers (one test) state observed in
      let entered =
        Holds-branch_state receivers test line true state σ σ' hs (test-Grows receivers test run)
          agrees in
      let (after, ex) =
        Run-sound receivers rest (some (branch_state receivers test line true state)) tested a.1 a.0
          first entered located.3 in
      let inside : (e : Event) → Member e events' → Member e.location (places_all receivers body) =
        λ e m. Run-within receivers e rest m in
      (
        subst (λ t. HoldsAt t out) j (HoldsAt-join_left a.0 b.0 out after),
        Explained-append events events' all observed observed' eq
            (test_Explained receivers line test body orelse state observed observed' state' h hs
              located run)
            (Explained-earlier events' observed tested observed'
              (Explained-later events' tested a.1 observed' ex (λ e m.
                ap (find_location e.location) (sym at)
                ∙ walk_other receivers orelse (some (branch_state receivers test line false state))
                    a.1 b.1 b.0 e.location second (located.2 e.location (inside e m))))
              (λ e m.
                find-record_reads_other receivers (one test) state observed e.location
                  (λ k. located.0 e.location k (inside e m)))),
      )
  Step-sound receivers {σ} {out}
        (chooses {line} {test} {body} {orelse} {σ'} {events} {events'} {all} false run agrees rest
          eq)
        state observed observed' state' h hs located =
      let (a, first, (b, second, j, at)) =
        walk_branch receivers line test body orelse state observed observed' state' h in
      let tested = record_reads receivers (one test) state observed in
      let entered =
        Holds-branch_state receivers test line false state σ σ' hs (test-Grows receivers test run)
          agrees in
      let (after, ex) =
        Run-sound receivers rest (some (branch_state receivers test line false state)) a.1 b.1 b.0
          second entered located.4 in
      let inside : (e : Event)
          → Member e events'
          → Member e.location (places_all receivers orelse) =
        λ e m. Run-within receivers e rest m in
      (
        subst (λ t. HoldsAt t out) j (HoldsAt-join_right a.0 b.0 out after),
        Explained-append events events' all observed observed' eq
            (test_Explained receivers line test body orelse state observed observed' state' h hs
              located run)
            (Explained-earlier events' observed a.1 observed'
              (Explained-later events' a.1 b.1 observed' ex
                (λ e m. ap (find_location e.location) (sym at)))
              (λ e m.
                walk_other receivers body (some (branch_state receivers test line true state))
                  tested a.1 a.0 e.location first (λ k. located.2 e.location k (inside e m))
                ∙ find-record_reads_other receivers (one test) state observed e.location
                    (λ k. located.1 e.location k (inside e m)))),
      )
  Step-sound receivers {out} (any_way {locations} within) state observed observed' state' h hs
        located =
      let (e, e') = unsupported_lem receivers locations state observed observed' state' h in
      (
        subst (λ t. HoldsAt t out) e (HoldsAt-nil out),
        λ ev m found. inr (ap (λ o. is_some (find_location ev.location o)) e' ∙ found),
      )

  Run-sound :
      (receivers : List String) {ss : Stmts} {σ : Keys} {events : List Event} {out : Ending}
      → Run receivers ss σ events out
      → (state : Option Presence) (observed observed' : Observed) (state' : Option Presence)
      → walk receivers ss state observed ≡ some (state', observed')
      → HoldsAt state (falls σ)
      → AreLocated receivers ss
      → HoldsAt state' out × Explained events observed observed'
  Run-sound receivers (done {σ}) state observed observed' state' h hs located =
      let (e, e') = walk-end receivers end state state' observed observed' (inl refl) h in
      (subst (λ t. HoldsAt t (falls σ)) e hs, λ ev m found. elim m [ ])
  Run-sound receivers (stops step) none observed observed' state' h hs located = elim hs [ ]
  Run-sound receivers (stops {s} {ss} {events} step) (some state) observed observed' state' h hs
        located =
      let (a, first, rest) = walk_next receivers s ss state observed observed' state' h in
      let (after, ex) = Step-sound receivers step state observed a.1 a.0 first hs located.0 in
      (
        tt,
        Explained-later events observed a.1 observed' ex (λ e m.
            walk_other receivers ss a.0 a.1 observed' state' e.location rest
              (located.1 e.location (Step-within receivers e step m))),
      )
  Run-sound receivers (continues step rest eq) none observed observed' state' h hs located =
      elim hs [ ]
  Run-sound receivers (continues {s} {ss} {events} {events'} {all} step run eq) (some state)
        observed observed' state' h hs located =
      let (a, first, rest) = walk_next receivers s ss state observed observed' state' h in
      let (after, ex) = Step-sound receivers step state observed a.1 a.0 first hs located.0 in
      let (after', ex') = Run-sound receivers run a.0 a.1 observed' state' rest after located.2 in
      (
        after',
        Explained-append events events' all observed observed' eq
            (Explained-later events observed a.1 observed' ex (λ e m.
              walk_other receivers ss a.0 a.1 observed' state' e.location rest
                (located.1 e.location (Step-within receivers e step m))))
            (Explained-earlier events' observed a.1 observed' ex' (λ e m.
              walk_stmt_other receivers s state observed a.1 a.0 e.location first
                (λ k. located.1 e.location k (Run-within receivers e run m)))),
      )
