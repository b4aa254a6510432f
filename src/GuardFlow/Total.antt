-- ===== src/GuardFlow/Total.antt =====
-- typed_guard_flow.py: `presence_witnesses` returns for code without an annotation of a name that gets no
-- value.
use repository_quality_guard.Prelude.{
  String, ◌≡◌, refl, Bool, true, false, ◌||◌, List, [], Option, none, some, arith,
}
use repository_quality_guard.GuardFlow.{
  Stmt, branch, return_value, raise_exc, assign, ann_assign, aug_assign, expression, pass,
  unsupported, Stmts, end, next,
}
use repository_quality_guard.GuardFlow.Analysis.{
  Presence, Observed, record_reads, one, join_presence, branch_state, annotate, walk_stmt, walk,
  presence_witnesses,
}

abbrev mutual
  -- The statement, or one within it, is an annotation without a value.
  pub annotates : Stmt → Bool
  annotates (branch line test body orelse) = annotates_any body || annotates_any orelse
  annotates (return_value value) = false
  annotates (raise_exc exc) = false
  annotates (assign targets value) = false
  annotates (ann_assign target annotation (some value)) = false
  annotates (ann_assign target annotation none) = true
  annotates (aug_assign target value) = false
  annotates (expression value) = false
  annotates pass = false
  annotates (unsupported locations) = false

  pub annotates_any : Stmts → Bool
  annotates_any end = false
  annotates_any (next s ss) = annotates s || annotates_any ss

mutual
  unfolding walk_stmt walk annotate

  walk_stmt_total :
      (receivers : List String) (s : Stmt) (state : Presence) (observed : Observed)
      → annotates s ≡ false
      → (r : Option Presence × Observed) × (walk_stmt receivers s state observed ≡ some r)
  walk_stmt_total receivers (branch line test body orelse) state observed h =
      let (a, first) =
        walk_total receivers body (some (branch_state receivers test line true state))
          (record_reads receivers (one test) state observed) (ground (arith, h)) in
      let (b, second) =
        walk_total receivers orelse (some (branch_state receivers test line false state)) a.1
          (ground (arith, h)) in
      ((join_presence a.0 b.0, b.1), rw (first, second) refl)
  walk_stmt_total receivers (return_value value) state observed h = (_, refl)
  walk_stmt_total receivers (raise_exc exc) state observed h = (_, refl)
  walk_stmt_total receivers (assign targets value) state observed h = (_, refl)
  walk_stmt_total receivers (ann_assign target annotation (some value)) state observed h = (_, refl)
  walk_stmt_total receivers (ann_assign target annotation none) state observed h = cc
  walk_stmt_total receivers (aug_assign target value) state observed h = (_, refl)
  walk_stmt_total receivers (expression value) state observed h = (_, refl)
  walk_stmt_total receivers pass state observed h = (_, refl)
  walk_stmt_total receivers (unsupported locations) state observed h = (_, refl)

  walk_total :
      (receivers : List String) (ss : Stmts) (state : Option Presence) (observed : Observed)
      → annotates_any ss ≡ false
      → (r : Option Presence × Observed) × (walk receivers ss state observed ≡ some r)
  walk_total receivers end state observed h = ((state, observed), refl)
  walk_total receivers (next s ss) none observed h = ((none, observed), refl)
  walk_total receivers (next s ss) (some state) observed h =
      let (a, first) = walk_stmt_total receivers s state observed (ground (arith, h)) in
      let (b, rest) = walk_total receivers ss a.0 a.1 (ground (arith, h)) in
      (b, rw (first, rest) refl)

-- Where every annotation has a value, `presence_witnesses` returns.
pub presence_witnesses_total :
    (receivers : List String) (body : Stmts)
    → annotates_any body ≡ false
    → (observed : Observed) × (presence_witnesses receivers body ≡ some observed)
unfolding presence_witnesses
presence_witnesses_total receivers body h =
    let (a, walked) = walk_total receivers body (some []) [] h in (a.1, rw walked refl)
