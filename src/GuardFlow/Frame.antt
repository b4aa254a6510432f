-- ===== src/GuardFlow/Frame.antt =====
-- What a walk leaves alone, and that a run reads within its code.
use repository_quality_guard.Prelude.{
  String, ◌≡◌, refl, sym, ap, ◌∙◌, subst, true, false, List, ◌++◌, Option, none, some, inl, inr,
  Member, Member-append,
}
use repository_quality_guard.GuardFlow.{Location, Stmt, branch, Stmts, end, next, reads_all}
use repository_quality_guard.GuardFlow.Analysis.{
  Presence, Observed, find_location, record_reads, one, branch_state, walk_stmt, walk,
}
use repository_quality_guard.GuardFlow.Semantics.{Keys}
use repository_quality_guard.GuardFlow.Execution.{
  Event, Ending, Step, goes_on, ends, chooses, any_way, Run, done, stops, continues, places,
  places_all,
}
use repository_quality_guard.GuardFlow.Observed.{find-record_reads_other}
use repository_quality_guard.GuardFlow.Steps.{
  node-places, walk_branch, walk_next, walk-end, walk_flat_other,
}

mutual
  -- What a statement does not read stays as it was in `observed`.
  pub walk_stmt_other :
      (receivers : List String) (s : Stmt) (state : Presence) (observed observed' : Observed)
      (state' : Option Presence) (l : Location)
      → walk_stmt receivers s state observed ≡ some (state', observed')
      → (Member l (places receivers s) → ⊥)
      → find_location l observed' ≡ find_location l observed
  walk_stmt_other receivers (branch line test body orelse) state observed observed' state' l h
        away =
      let (a, first, (b, second, j, e)) =
        walk_branch receivers line test body orelse state observed observed' state' h in
      let tests = reads_all receivers (one test) in
      let inner = Member-append l (places_all receivers body) (places_all receivers orelse) in
      let whole =
        Member-append l tests (places_all receivers body ++ places_all receivers orelse) in
      ap (find_location l) (sym e)
      ∙ (walk_other receivers orelse (some (branch_state receivers test line false state)) a.1 b.1
            b.0 l second (λ m. away (whole.1 (inr (inner.1 (inr m)))))
          ∙ (walk_other receivers body (some (branch_state receivers test line true state))
                (record_reads receivers (one test) state observed) a.1 a.0 l first
                (λ m. away (whole.1 (inr (inner.1 (inl m)))))
              ∙ find-record_reads_other receivers (one test) state observed l
                  (λ m. away (whole.1 (inl m)))))
  walk_stmt_other receivers s state observed observed' state' l h away =
      walk_flat_other receivers s state observed observed' state' l refl h away

  pub walk_other :
      (receivers : List String) (ss : Stmts) (state : Option Presence)
      (observed observed' : Observed) (state' : Option Presence) (l : Location)
      → walk receivers ss state observed ≡ some (state', observed')
      → (Member l (places_all receivers ss) → ⊥)
      → find_location l observed' ≡ find_location l observed
  walk_other receivers end state observed observed' state' l h away =
      ap (find_location l)
        (sym (walk-end receivers end state state' observed observed' (inl refl) h).1)
  walk_other receivers (next s ss) none observed observed' state' l h away =
      ap (find_location l)
        (sym (walk-end receivers (next s ss) none state' observed observed' (inr refl) h).1)
  walk_other receivers (next s ss) (some state) observed observed' state' l h away =
      let (a, first, rest) = walk_next receivers s ss state observed observed' state' h in
      let both = Member-append l (places receivers s) (places_all receivers ss) in
      walk_other receivers ss a.0 a.1 observed' state' l rest (λ m. away (both.1 (inr m)))
      ∙ walk_stmt_other receivers s state observed a.1 a.0 l first (λ m. away (both.1 (inl m)))

mutual
  -- A run reads within its code.
  pub Step-within :
      (receivers : List String) {s : Stmt} {σ : Keys} {events : List Event} {out : Ending}
      (e : Event)
      → Step receivers s σ events out
      → Member e events
      → Member e.location (places receivers s)
  Step-within receivers {s} e (goes_on simple run) m =
      node-places receivers s e.location (run.within e m)
  Step-within receivers {s} e (ends run) m = node-places receivers s e.location (run.within e m)
  Step-within receivers e
        (chooses {test} {body} {orelse} {events} {events'} true run agrees rest eq) m =
      let tests = reads_all receivers (one test) in
      let inner =
        Member-append e.location (places_all receivers body) (places_all receivers orelse) in
      let whole =
        Member-append e.location tests (places_all receivers body ++ places_all receivers orelse) in
      elim ((Member-append e events events').0 (subst (Member e) eq m)) [
        | inl k ↦ whole.1 (inl (run.within e k))
        | inr k ↦ whole.1 (inr (inner.1 (inl (Run-within receivers e rest k))))
      ]
  Step-within receivers e
        (chooses {test} {body} {orelse} {events} {events'} false run agrees rest eq) m =
      let tests = reads_all receivers (one test) in
      let inner =
        Member-append e.location (places_all receivers body) (places_all receivers orelse) in
      let whole =
        Member-append e.location tests (places_all receivers body ++ places_all receivers orelse) in
      elim ((Member-append e events events').0 (subst (Member e) eq m)) [
        | inl k ↦ whole.1 (inl (run.within e k))
        | inr k ↦ whole.1 (inr (inner.1 (inr (Run-within receivers e rest k))))
      ]
  Step-within receivers e (any_way within) m = within e m

  pub Run-within :
      (receivers : List String) {ss : Stmts} {σ : Keys} {events : List Event} {out : Ending}
      (e : Event)
      → Run receivers ss σ events out
      → Member e events
      → Member e.location (places_all receivers ss)
  Run-within receivers e done m = elim m [ ]
  Run-within receivers e (stops {s} {ss} step) m =
      (Member-append e.location (places receivers s) (places_all receivers ss)).1
        (inl (Step-within receivers e step m))
  Run-within receivers e (continues {s} {ss} {events} {events'} step rest eq) m =
      let both = Member-append e.location (places receivers s) (places_all receivers ss) in
      elim ((Member-append e events events').0 (subst (Member e) eq m)) [
        | inl k ↦ both.1 (inl (Step-within receivers e step k))
        | inr k ↦ both.1 (inr (Run-within receivers e rest k))
      ]
