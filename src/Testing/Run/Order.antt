-- ===== src/Testing/Run/Order.antt =====
-- The ledger does not depend on where a case was run: its executions stand in the order of the cases.
use repository_quality_guard.Prelude.{
  String, ℕ, ◌+◌, ◌≡◌, refl, true, false, List, [], ◌∷◌, arith, ◌<◌, if◌then◌else◌, Bool-cases, inl,
  inr, ap,
}
use repository_quality_guard.Prelude.Sort.{
  Shuffle, done, left, right, Above, IsIncreasing, sorted-append,
}
use repository_quality_guard.Testing.Ledger.{SampleResult}
use repository_quality_guard.Testing.Runtime.{
  Error, Runtime, Result, ok, err, Exec, pure, ◌>>=◌, bind_returns,
}
use repository_quality_guard.Testing.Case.{Case}
use repository_quality_guard.Testing.TestUnit.Multi.{run}
use repository_quality_guard.Testing.Run.{
  Execution, Future, is_main, execute, run_main, run_pool, completed, read_future, settle,
  collected,
}

module _ {W : Type 0} (rt : Runtime W) (max_samples : ℕ) (future : ℕ → Future) where
  -- One case: run by the coordinator or read from the pool.
  abbrev pub one : ℕ → String → Case W → Exec W Execution
  one i name case =
      if is_main case.config.process
      then execute rt max_samples future i name case
      else read_future rt max_samples future i name

  -- The reference: one case after the other, in their order.
  unfoldable pub in_order : ℕ → List (String × Case W) → Exec W (List Execution)
  in_order i [] = pure []
  in_order i ((name, case) ∷ cases) = do
    e ← one i name case
    es ← in_order (i + 1) cases
    pure (e ∷ es)

  abbrev index : Execution → ℕ
  index e = e.index

  settle-index :
      (i : ℕ) (name : String) (r : Result (List SampleResult)) (e : Execution)
      → settle i name r ≡ ok e
      → e.index ≡ i
  unfolding settle
  settle-index i name (ok samples) e h = ground arith
  settle-index i name (err (Error.partial samples detail)) e h = ground arith
  settle-index i name (err (Error.raised x)) e h = ground arith

  collected-index :
      (i : ℕ) (name : String) (f : Future) (e : Execution) → collected i name f ≡ ok e → e.index ≡ i
  unfolding collected
  collected-index i name (Future.done samples error) e h = ground arith
  collected-index i name (Future.broken x) e h = ground arith

  -- What one list of executions is made of.
  record Parts (i : ℕ) (cases : List (String × Case W)) (w w' : W) (es : List Execution)
      : Type 0 where
    coordinated : List Execution
    pooled : List Execution
    ran : run_main rt max_samples future i cases w ≡ (ok coordinated, w')
    read : (v : W) → run_pool rt max_samples future i cases v ≡ (ok pooled, v)
    shuffled : Shuffle coordinated pooled es
    increasing : IsIncreasing index es
    from : (j : ℕ) → j < i → Above index j es

  Parts-main :
      (i : ℕ) (name : String) (case : Case W) (cases : List (String × Case W)) (w v w' : W)
      (e : Execution) (es : List Execution)
      → is_main case.config.process ≡ true
      → execute rt max_samples future i name case w ≡ (ok e, v)
      → e.index ≡ i
      → Parts (i + 1) cases v w' es
      → Parts i ((name, case) ∷ cases) w w' (e ∷ es)
  unfolding run_main run_pool
  Parts-main i name case cases w v w' e es m x at p = record {
    coordinated = e ∷ p.coordinated;
    pooled = p.pooled;
    ran = rw (m, x, p.ran);
    read = λ u. rw m (p.read u);
    shuffled = left e p.shuffled;
    increasing = (p.from e.index (omega arith), p.increasing);
    from = λ j h. (omega arith, p.from j (omega arith));
  }

  Parts-pool :
      (i : ℕ) (name : String) (case : Case W) (cases : List (String × Case W)) (w w' : W)
      (e : Execution) (es : List Execution)
      → is_main case.config.process ≡ false
      → collected i name (future i) ≡ ok e
      → e.index ≡ i
      → Parts (i + 1) cases w w' es
      → Parts i ((name, case) ∷ cases) w w' (e ∷ es)
  unfolding run_main run_pool
  Parts-pool i name case cases w w' e es m x at p = record {
    coordinated = p.coordinated;
    pooled = e ∷ p.pooled;
    ran = rw m p.ran;
    read = λ u. rw (m, x, p.read u);
    shuffled = right e p.shuffled;
    increasing = (p.from e.index (omega arith), p.increasing);
    from = λ j h. (omega arith, p.from j (omega arith));
  }

  Parts-cons :
      (i : ℕ) (name : String) (case : Case W) (cases : List (String × Case W)) (w v w' : W)
      (e : Execution) (es : List Execution)
      → one i name case w ≡ (ok e, v)
      → Parts (i + 1) cases v w' es
      → Parts i ((name, case) ∷ cases) w w' (e ∷ es)
  unfolding execute
  Parts-cons i name case cases w v w' e es x p = elim (Bool-cases (is_main case.config.process)) [
    | inl m ↦
        let run_here : execute rt max_samples future i name case w ≡ (ok e, v) = rw m at x in
        Parts-main i name case cases w v w' e es m run_here
          (settle-index i name (run rt case name max_samples w).0 e (ap (λ q. q.0) run_here)) p
    | inr m ↦
        let read_here : read_future rt max_samples future i name w ≡ (ok e, v) = rw m at x in
        let unmoved : v ≡ w = cc in
        Parts-pool i name case cases w w' e es m (ap (λ q. q.0) read_here)
          (collected-index i name (future i) e (ap (λ q. q.0) read_here)) (rw unmoved at p)
  ]

  in_order-Parts :
      (i : ℕ) (cases : List (String × Case W)) (w w' : W) (es : List Execution)
      → in_order i cases w ≡ (ok es, w')
      → Parts i cases w w' es
  unfolding in_order
  in_order-Parts i [] w w' es h =
      let none_left : es ≡ [] = cc in
      let unmoved : w' ≡ w = cc in
      rw (none_left, unmoved)
        (record {
          coordinated = [];
          pooled = [];
          ran = unfold run_main in refl;
          read = λ v. unfold run_pool in refl;
          shuffled = done;
          increasing = tt;
          from = λ j lt. tt;
        })
  in_order-Parts i ((name, case) ∷ cases) w w' es h =
      let (e, v, x, h1) = bind_returns (one i name case) _ w w' h in
      let (rest, u, y, h2) = bind_returns (in_order (i + 1) cases) _ v w' h1 in
      let made : es ≡ e ∷ rest = cc in
      let ends : u ≡ w' = cc in
      let parts = in_order-Parts (i + 1) cases v w' rest (rw ends at y) in
      rw made (Parts-cons i name case cases w v w' e rest x parts)

  -- Where the cases, run one after the other, give the executions `es`, `main` ends up with the same
  -- list: the coordinator runs its cases first, and the sort by index restores the order.
  pub completed-eq-in_order :
      (cases : List (String × Case W)) (w w' : W) (es : List Execution)
      → in_order 0 cases w ≡ (ok es, w')
      → completed rt max_samples future cases w ≡ (ok es, w')
  unfolding completed
  completed-eq-in_order cases w w' es h =
      let p = in_order-Parts 0 cases w w' es h in
      rw (p.ran, p.read w', sorted-append index p.coordinated p.pooled es p.shuffled p.increasing)
