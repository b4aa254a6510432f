-- ===== src/Testing/TestUnit/Samples.antt =====
-- What `TestUnit.run` returns for independent inputs, and what its errors keep.
use repository_quality_guard.Prelude.{
  String, ℕ, ◌+◌, ◌≤◌, ◌<◌, ◌≡◌, ◌≢◌, refl, true, List, [], ◌∷◌, length, nonempty, arith, min,
  format, decimal,
}
use repository_quality_guard.Testing.Value.{Value, tuple, is_stream, type_error, value_error}
use repository_quality_guard.Testing.Runtime
use repository_quality_guard.Testing.Runtime.{
  Runtime, ok, Exec, pure, throw, require, require_passes, throw_absorbs, ◌>>=◌, ◌>>◌, >>=-eq-ok,
}
use repository_quality_guard.Testing.Ledger.{SampleResult}
use repository_quality_guard.Testing.Case.{Case}
use repository_quality_guard.Testing.TestUnit.Streams.{open_stream, partial_case_error}
use repository_quality_guard.Testing.TestUnit.Streams.Rows.{of_list, rows}
use repository_quality_guard.Testing.TestUnit.Streams.Collect.{
  collect, collect-eq-rows, collect-mismatch, length-collect-le, length-rows,
}
use repository_quality_guard.Testing.TestUnit.Multi.{body, multi}

pub nonempty_of_length : {A : Type 0} (xs : List A) → 0 < length xs → nonempty xs ≡ true
nonempty_of_length [] h = absurd (omega arith)
nonempty_of_length (x ∷ xs) h = refl

-- The test behind the loop lets nonempty samples through as they are.
kept :
    {W : Type 0} (found rs : List SampleResult) (x : Runtime.Error) (w : W)
    → ((require (nonempty found) x >> pure found) w).0 ≡ ok rs
    → (0 < length rs) × (rs ≡ found)
kept [] rs x w h = absurd (cc)
kept (s ∷ found) rs x w h = let same : rs ≡ s ∷ found = cc in (rw same (omega arith), same)

module _ {W : Type 0} (rt : Runtime W) (case : Case W) (name : String) (max_samples : ℕ)
    (entry : Value) where
  -- The reference: the k-th invocation runs on the k-th row with the k-th oracle, in order.
  abbrev pub paired_rows : List Value → List Value → Exec W (List SampleResult)
  paired_rows xs ys = rows rt (body rt case name max_samples entry) 0 [] xs ys

  -- Tuples of inputs and oracles of one length, within `max_samples`: the run is the paired rows, in
  -- its samples, in its errors and in what it does to the outside state.
  pub multi-eq-rows :
      (xs ys : List Value) (w : W)
      → length xs ≡ length ys
      → 0 < length xs
      → length xs ≤ max_samples
      → multi rt case name max_samples entry (tuple (of_list xs)) (tuple (of_list ys)) w
        ≡ paired_rows xs ys w
  unfolding multi open_stream
  multi-eq-rows xs ys w e pos le =
      rw (collect-eq-rows rt (body rt case name max_samples entry) xs ys w e le) (
        require_passes (paired_rows xs ys w) nonempty _ λ rs h.
          nonempty_of_length rs (
            omega
              (arith, length-rows rt (body rt case name max_samples entry) xs ys 0 [] rs w e h)))

  -- Inputs and oracles of two lengths: the rows that both have are run, and then the run raises an
  -- error that names the row where one of them ends and carries the samples of all rows before.
  pub multi_mismatch :
      (xs ys : List Value) (w : W)
      → length xs ≢ length ys
      → min (length xs) (length ys) < max_samples
      → multi rt case name max_samples entry (tuple (of_list xs)) (tuple (of_list ys)) w
        ≡ (paired_rows xs ys >>= λ rs. throw (
              partial_case_error name "paired sample"
                (value_error (
                  format (
                    "Input/output stream lengths differ at row "
                    ∷ decimal (0 + min (length xs) (length ys) + 1)
                    ∷ [])))
                rs))
            w
  unfolding multi open_stream
  multi_mismatch xs ys w e lt =
      rw (collect-mismatch rt (body rt case name max_samples entry) xs ys w e lt)
        (throw_absorbs (paired_rows xs ys w) _ _)

  -- A run that returns has at least one sample and at most `max_samples`, whatever the iterators
  -- yield, finite or not.
  pub length-multi-le :
      (inputs oracles : Value) (w : W) (rs : List SampleResult)
      → (multi rt case name max_samples entry inputs oracles w).0 ≡ ok rs
      → (0 < length rs) × (length rs ≤ max_samples)
  unfolding multi
  length-multi-le inputs oracles w rs h =
      let (_, _, h1) =
        >>=-eq-ok
          (require (is_stream inputs) (
            Runtime.Error.raised
              (type_error "Multi input must be iterable of (args,kwargs) tuples")))
          _ w h in
      let (_, _, h2) =
        >>=-eq-ok
          (require (is_stream oracles) (
            Runtime.Error.raised
              (type_error "Multi input requires an iterable of independent expected values")))
          _ _ h1 in
      let (i, _, h3) = >>=-eq-ok (open_stream rt inputs) _ _ h2 in
      let (o, _, h4) = >>=-eq-ok (open_stream rt oracles) _ _ h3 in
      let (found, gathered, h5) =
        >>=-eq-ok (collect rt (body rt case name max_samples entry) i o) _ _ h4 in
      let within =
        length-collect-le rt (body rt case name max_samples entry) i o _ found gathered in
      let (some_sample, same) = kept found rs _ _ h5 in (some_sample, rw same within)
