-- ===== src/Testing/TestUnit/Streams/Rows.antt =====
-- The loop over finite streams against a reference: the rows in order, each paired with the oracle
-- that stands at its place.
use repository_quality_guard.Prelude.{
  ℕ, zero, suc, ◌+◌, ◌≤◌, ◌<◌, ◌≡◌, ◌≢◌, refl, List, [], ◌∷◌, ◌++◌, some, length, arith, ltb, false,
  min,
}
use repository_quality_guard.Testing.Value.{Value, Values, nil, cons, value_error}
use repository_quality_guard.Testing.Runtime.{Runtime, Exec, pure, throw, ◌>>=◌, bind_cong}
use repository_quality_guard.Testing.Ledger.{SampleResult}
use repository_quality_guard.Testing.TestUnit.Streams.{
  values, Round, going, Body, pair, round, loop, partial_case_error,
}

abbrev pub of_list : List Value → Values
of_list [] = nil
of_list (v ∷ vs) = cons v (of_list vs)

abbrev pub at_start : List Value → List Value → ℕ → List SampleResult → Round
at_start xs ys count results = record {
  inputs = values (of_list xs);
  oracles = values (of_list ys);
  count = count;
  results = results;
}

ltb-eq-false : (a b : ℕ) → b ≤ a → ltb a b ≡ false
ltb-eq-false a b h = ground arith

module _ {W : Type 0} (rt : Runtime W) (body : Body W) where
  open body use {label, limit, limit_text, mismatch_text, act}

  -- Row `count + 1` and those after it; the rows stop where one of the lists ends.
  unfoldable pub rows : ℕ → List SampleResult → List Value → List Value → Exec W (List SampleResult)
  rows count results (x ∷ xs) (y ∷ ys) = do
    sample ← act (count + 1) x y
    rows (count + 1) (results ++ sample ∷ []) xs ys
  rows count results _ _ = pure results

  round-row :
      (x y : Value) (xs ys : List Value) (count : ℕ) (results : List SampleResult) (w : W)
      → count + 1 ≤ limit
      → round rt body (at_start (x ∷ xs) (y ∷ ys) count results) w
        ≡ (act (count + 1) x y >>= λ s.
              pure (going (at_start xs ys (count + 1) (results ++ s ∷ []))))
            w
  unfolding round pair
  round-row x y xs ys count results w h = rw (ltb-eq-false limit (count + 1) h)

  -- Streams of one length within the limit give exactly the rows.
  pub loop-eq-rows :
      (xs ys : List Value) (fuel count : ℕ) (results : List SampleResult) (w : W)
      → length xs ≡ length ys
      → count + length xs ≤ limit
      → length xs < fuel
      → loop rt body fuel (at_start xs ys count results) w
        ≡ (rows count results xs ys >>= λ rs. pure (some rs)) w
  unfolding loop rows
  loop-eq-rows xs ys zero count results w e h f = absurd (omega arith)
  loop-eq-rows [] [] (suc fuel) count results w e h f = unfold round pair in refl
  loop-eq-rows [] (y ∷ ys) (suc fuel) count results w e h f = absurd (omega arith)
  loop-eq-rows (x ∷ xs) [] (suc fuel) count results w e h f = absurd (omega arith)
  loop-eq-rows (x ∷ xs) (y ∷ ys) (suc fuel) count results w e h f =
      rw (round-row x y xs ys count results w (omega arith)) (
        bind_cong (act (count + 1) x y) _ _ _ _ w λ s w'.
          loop-eq-rows xs ys fuel (count + 1) (results ++ s ∷ []) w' (omega arith) (omega arith)
            (omega arith))

  -- Streams of two lengths give the rows that both have, and then the error that names the row where
  -- one ends; the error carries the samples of those rows.
  pub loop-mismatch :
      (xs ys : List Value) (fuel count : ℕ) (results : List SampleResult) (w : W)
      → length xs ≢ length ys
      → count + min (length xs) (length ys) < limit
      → min (length xs) (length ys) < fuel
      → loop rt body fuel (at_start xs ys count results) w
        ≡ (rows count results xs ys >>= λ rs. throw (
              partial_case_error label "paired sample"
                (value_error (mismatch_text (count + min (length xs) (length ys) + 1)))
                rs))
            w
  unfolding loop rows
  loop-mismatch xs ys zero count results w e h f = absurd (omega arith)
  loop-mismatch [] [] (suc fuel) count results w e h f = absurd (omega arith)
  loop-mismatch [] (y ∷ ys) (suc fuel) count results w e h f =
      let here : count + min 0 (length (y ∷ ys)) + 1 ≡ count + 1 = omega arith in
      rw here (unfold round pair in rw (ltb-eq-false limit (count + 1) (omega arith)))
  loop-mismatch (x ∷ xs) [] (suc fuel) count results w e h f =
      let here : count + min (length (x ∷ xs)) 0 + 1 ≡ count + 1 = omega arith in
      rw here (unfold round pair in rw (ltb-eq-false limit (count + 1) (omega arith)))
  loop-mismatch (x ∷ xs) (y ∷ ys) (suc fuel) count results w e h f =
      let there : count + min (length (x ∷ xs)) (length (y ∷ ys)) + 1
          ≡ count + 1 + min (length xs) (length ys) + 1 =
        omega arith in
      rw (there, round-row x y xs ys count results w (omega arith))
        (bind_cong (act (count + 1) x y) _ _ _ _ w λ s w'.
          loop-mismatch xs ys fuel (count + 1) (results ++ s ∷ []) w' (λ q. omega arith)
            (omega arith) (omega arith))
