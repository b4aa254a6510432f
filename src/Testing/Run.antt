-- ===== src/Testing/Run.antt =====
-- packages/rqgtest/src/rqgtest/run.py: the execution of the selected cases, the ledger and the exit
-- status of the command line runner.
pub mod Order
pub mod Status
pub mod Accepted
use repository_quality_guard.Prelude.{
  String, ℕ, ◌+◌, ◌==◌, ◌≢◌, Bool, true, false, not, ◌&&◌, List, [], ◌∷◌, ◌++◌, map, Option, none,
  some, format, all, length, nonempty, eqb, if◌then◌else◌,
}
use repository_quality_guard.Prelude.Sort.{sorted}
use repository_quality_guard.Testing.Value.{Exc, is_caught, is_ordinary}
use repository_quality_guard.Testing.Runtime
use repository_quality_guard.Testing.Runtime.{Runtime, Result, ok, err, Exec, pure, throw, ◌>>=◌}
use repository_quality_guard.Testing.Ledger.{SampleResult, invalid, BatchResult, passed, has_text}
use repository_quality_guard.Testing.Case.{Case, Process, pool, main}
use repository_quality_guard.Testing.TestUnit.Multi.{run}

-- What `_execute` returns: the index, the samples, and the error text.
pub record Execution : Type 0 where
  pub index : ℕ
  pub samples : List SampleResult
  pub error : Option String

-- How a future of the process pool ends.
pub data Future : Type 0 where
  done : List SampleResult → Option String → Future
  broken : Exc → Future

abbrev invalid_sample : String → String → SampleResult
invalid_sample name detail = record { name = name; status = invalid; detail = detail }

-- The `except` clauses of `_execute`; an exception that none takes is passed on.
unfoldable pub settle : ℕ → String → Result (List SampleResult) → Result Execution
settle index name (ok samples) = ok (record { index = index; samples = samples; error = none })
settle index name (err (Runtime.Error.partial samples detail)) = ok (record {
  index = index;
  samples = samples ++ invalid_sample name detail ∷ [];
  error = some detail;
})
settle index name (err (Runtime.Error.raised e)) =
    let detail = format (name ∷ ": " ∷ e.kind ∷ ": " ∷ e.text ∷ []) in
    if is_caught e
    then ok
        (record { index = index; samples = invalid_sample name detail ∷ []; error = some detail })
    else err (Runtime.Error.raised e)

-- The part of `main` that reads a future's result.
unfoldable pub collected : ℕ → String → Future → Result Execution
collected index name (done samples error) =
    ok (record { index = index; samples = samples; error = error })
collected index name (broken e) =
    let detail = format (name ∷ ": worker " ∷ e.kind ∷ ": " ∷ e.text ∷ []) in
    if is_ordinary e
    then ok
        (record { index = index; samples = invalid_sample name detail ∷ []; error = some detail })
    else err (Runtime.Error.raised e)

abbrev pub is_main : Process → Bool
is_main main = true
is_main pool = false

module _ {W : Type 0} (rt : Runtime W) (max_samples : ℕ) (future : ℕ → Future) where
  -- `_execute`
  unfoldable pub execute : ℕ → String → Case W → Exec W Execution
  execute index name case w =
      let (r, w') = run rt case name max_samples w in (settle index name r, w')

  -- `[_execute(index, ...) for index in main_indices]`, from case number `i` on
  unfoldable pub run_main : ℕ → List (String × Case W) → Exec W (List Execution)
  run_main i [] = pure []
  run_main i ((name, case) ∷ cases) =
      let rest = run_main (i + 1) cases in
      if is_main case.config.process
      then (do e ← execute i name case; es ← rest; pure (e ∷ es))
      else rest

  abbrev pub read_future : ℕ → String → Exec W Execution
  read_future i name w = (collected i name (future i), w)

  -- The results of the futures, in the order of `pool_indices`.
  unfoldable pub run_pool : ℕ → List (String × Case W) → Exec W (List Execution)
  run_pool i [] = pure []
  run_pool i ((name, case) ∷ cases) =
      let rest = run_pool (i + 1) cases in
      if is_main case.config.process
      then rest
      else (do e ← read_future i name; es ← rest; pure (e ∷ es))

  -- `sorted(completed, key=lambda item: item[0])`
  unfoldable pub completed : List (String × Case W) → Exec W (List Execution)
  completed cases = do
    coordinated ← run_main 0 cases
    pooled ← run_pool 0 cases
    pure (sorted (λ (e : Execution). e.index) (coordinated ++ pooled))

-- `results.extend(samples)` over all cases
unfoldable pub all_samples : List Execution → List SampleResult
all_samples [] = []
all_samples (e ∷ rest) = e.samples ++ all_samples rest

-- `if error: invalid = error if invalid is None else invalid + "; " + error`
unfoldable pub add_error : Option String → Option String → Option String
add_error none before = before
add_error (some error) none = if error == "" then none else some error
add_error (some error) (some before) =
    if error == "" then some before else some (format (before ∷ "; " ∷ error ∷ []))

unfoldable pub add_errors : Option String → List Execution → Option String
unfolding add_error
add_errors before [] = before
add_errors before (e ∷ rest) = add_errors (add_error e.error before) rest

-- `before != after` of two dictionaries of path and hash, given in the order of the listing.
abbrev pub same_snapshot : List (String × String) → List (String × String) → Bool
same_snapshot [] [] = true
same_snapshot ((p, h) ∷ xs) ((q, k) ∷ ys) = p == q && h == k && same_snapshot xs ys
same_snapshot _ _ = false

-- The tests of `main` between the last result and the ledger.
unfoldable pub final_invalid : Bool → List SampleResult → Option String → Option String
final_invalid unchanged results errors =
    if unchanged
    then if not (has_text errors) && not (nonempty results)
      then some "No samples executed"
      else errors
    else some "Project source changed while TestUnit was running"

-- The ledger of a run whose executions are at hand.
unfoldable pub ledger : Bool → List Execution → BatchResult
ledger unchanged executions = record {
  samples = all_samples executions;
  invalid = final_invalid unchanged (all_samples executions) (add_errors none executions);
}

-- The exit status of `main`.
unfoldable pub exit_status : BatchResult → ℕ
exit_status report =
    if has_text report.invalid
    then 2
    else if eqb (passed report) (length report.samples) && nonempty report.samples
    then 0
    else 1

-- What `main` reports: an exception of the run is its invalidity message, and then no sample is
-- reported, since the results are gathered behind the last case.
unfoldable pub main_ledger : Bool → Result (List Execution) → Result BatchResult
main_ledger unchanged (ok executions) = ok (ledger unchanged executions)
main_ledger unchanged (err (Runtime.Error.partial samples detail)) =
    ok (record { samples = []; invalid = some (format ("_PartialCaseError: " ∷ detail ∷ [])) })
main_ledger unchanged (err (Runtime.Error.raised e)) =
    if is_ordinary e
    then ok (record { samples = []; invalid = some (format (e.kind ∷ ": " ∷ e.text ∷ [])) })
    else err (Runtime.Error.raised e)
