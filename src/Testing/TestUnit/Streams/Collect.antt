-- ===== src/Testing/TestUnit/Streams/Collect.antt =====
-- The loop from its start, with the fuel that it is proved never to use up.
use repository_quality_guard.Prelude.{
  ℕ, ◌+◌, ◌≤◌, ◌<◌, ◌≡◌, ◌≢◌, List, [], ◌∷◌, ◌++◌, length, length-append, arith, min,
}
use repository_quality_guard.Testing.Value.{Value, value_error}
use repository_quality_guard.Testing.Runtime.{
  Runtime, ok, Exec, throw, complete, complete-pure, complete-throw, complete-eq-ok, ◌>>=◌,
  >>=-eq-ok,
}
use repository_quality_guard.Testing.Ledger.{SampleResult}
use repository_quality_guard.Testing.TestUnit.Streams.{
  Stream, values, Body, loop, partial_case_error,
}
use repository_quality_guard.Testing.TestUnit.Streams.Bounds.{loop_ends, length-loop-le}
use repository_quality_guard.Testing.TestUnit.Streams.Rows.{
  of_list, rows, loop-eq-rows, loop-mismatch,
}

module _ {W : Type 0} (rt : Runtime W) (body : Body W) where
  -- The whole `while True` loop over two fresh iterators.
  unfoldable pub collect : Stream → Stream → Exec W (List SampleResult)
  collect inputs oracles =
      complete
        (loop rt body (body.limit + 1)
          (record { inputs = inputs; oracles = oracles; count = 0; results = [] }))
        (loop_ends rt body inputs oracles)

  pub collect-eq-rows :
      (xs ys : List Value) (w : W)
      → length xs ≡ length ys
      → length xs ≤ body.limit
      → collect (values (of_list xs)) (values (of_list ys)) w ≡ rows rt body 0 [] xs ys w
  unfolding collect
  collect-eq-rows xs ys w e le =
      complete-pure _ _ (rows rt body 0 [] xs ys) w
        (loop-eq-rows rt body xs ys (body.limit + 1) 0 [] w e (omega arith) (omega arith))

  pub collect-mismatch :
      (xs ys : List Value) (w : W)
      → length xs ≢ length ys
      → min (length xs) (length ys) < body.limit
      → collect (values (of_list xs)) (values (of_list ys)) w
        ≡ (rows rt body 0 [] xs ys >>= λ rs. throw (
              partial_case_error body.label "paired sample"
                (value_error (body.mismatch_text (0 + min (length xs) (length ys) + 1)))
                rs))
            w
  unfolding collect
  collect-mismatch xs ys w e lt =
      complete-throw _ _ (rows rt body 0 [] xs ys) _ w
        (loop-mismatch rt body xs ys (body.limit + 1) 0 [] w e (omega arith) (omega arith))

  pub length-collect-le :
      (inputs oracles : Stream) (w : W) (rs : List SampleResult)
      → (collect inputs oracles w).0 ≡ ok rs
      → length rs ≤ body.limit
  unfolding collect
  length-collect-le inputs oracles w rs h =
      length-loop-le rt body (body.limit + 1) _ w rs (omega arith) (complete-eq-ok _ _ w rs h)

  -- The reference has a sample for each row.
  pub length-rows :
      (xs ys : List Value) (count : ℕ) (results rs : List SampleResult) (w : W)
      → length xs ≡ length ys
      → (rows rt body count results xs ys w).0 ≡ ok rs
      → length rs ≡ length results + length xs
  unfolding rows
  length-rows [] [] count results rs w e h = let same : rs ≡ results = cc in rw same (omega arith)
  length-rows [] (y ∷ ys) count results rs w e h = absurd (omega arith)
  length-rows (x ∷ xs) [] count results rs w e h = absurd (omega arith)
  length-rows (x ∷ xs) (y ∷ ys) count results rs w e h =
      let (s, ran, h') = >>=-eq-ok (body.act (count + 1) x y) _ w h in
      omega (
        arith,
        length-rows xs ys (count + 1) (results ++ s ∷ []) rs _ (omega arith) h',
        length-append results (s ∷ []),
      )
