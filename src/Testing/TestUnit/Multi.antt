-- ===== src/Testing/TestUnit/Multi.antt =====
-- `TestUnit.run` of unit.py, for a Case of independent inputs.
use repository_quality_guard.Prelude.{
  String, ℕ, Bool, false, not, List, [], ◌∷◌, none, format, decimal, nonempty, eqb, if◌then◌else◌,
}
use repository_quality_guard.Testing.Value.{
  Value, tuple, nil, cons, is_tuple, is_dict, is_callable, is_stream, is_iterator_or_loader,
  type_error, value_error,
}
use repository_quality_guard.Testing.Runtime
use repository_quality_guard.Testing.Runtime.{
  Runtime, Result, ok, err, Exec, pure, throw, require, propagate, ◌>>=◌, ◌>>◌,
}
use repository_quality_guard.Testing.Ledger.{SampleResult}
use repository_quality_guard.Testing.Case.{Case}
use repository_quality_guard.Testing.TestUnit.Invoke.{invocation, invoke}
use repository_quality_guard.Testing.TestUnit.Streams.{Body, open_stream}
use repository_quality_guard.Testing.TestUnit.Streams.Collect.{collect}
use repository_quality_guard.Testing.TestUnit.Stateful.{stateful}

-- The shape of one single invocation: ((...),) or (..., {...}).
unfoldable pub is_single : Value → Bool
is_single (tuple (cons args nil)) = is_tuple args
is_single (tuple (cons args (cons kwargs nil))) = is_dict kwargs
is_single _ = false

module _ {W : Type 0} (rt : Runtime W) (case : Case W) (name : String) where
  abbrev checked : Bool → String → Exec W Unit
  checked test message = require test (Runtime.Error.raised (type_error message))

  single : Value → Value → Value → Exec W (List SampleResult)
  single entry inputs expected = do
    call ← (λ w. (invocation inputs, w))
    checked (not (is_iterator_or_loader expected))
        "Single input requires one scalar oracle, not an iterator or DataLoader"
    sample ← invoke rt case entry call.0 call.1 expected name none
    pure (sample ∷ [])

  -- The loop over the rows: each is one invocation with its own oracle.
  abbrev pub body : ℕ → Value → Body W
  body max_samples entry = record {
    label = name;
    limit = max_samples;
    limit_text = format (
        "max_samples exceeded (limit=" ∷ decimal max_samples ∷ "); refusing unbounded stream" ∷ []);
    mismatch_text = λ i. format ("Input/output stream lengths differ at row " ∷ decimal i ∷ []);
    act = λ i inputs_row expected_row. do
      call ← (λ w. (invocation inputs_row, w))
      invoke rt case entry call.0 call.1 expected_row (format (name ∷ "[" ∷ decimal i ∷ "]" ∷ []))
          none;
  }

  unfoldable pub multi : ℕ → Value → Value → Value → Exec W (List SampleResult)
  multi max_samples entry inputs expected = do
    checked (is_stream inputs) "Multi input must be iterable of (args,kwargs) tuples"
    checked (is_stream expected) "Multi input requires an iterable of independent expected values"
    input_iterator ← open_stream rt inputs
    oracle_iterator ← open_stream rt expected
    results ← collect rt (body max_samples entry) input_iterator oracle_iterator
    require (nonempty results)
        (Runtime.Error.raised (value_error (format ("Empty input/output stream for " ∷ name ∷ []))))
    pure results

  independent : ℕ → Value → Exec W (List SampleResult)
  unfolding single multi is_single
  independent max_samples entry = do
    inputs ← propagate case.get_input_data
    expected ← propagate case.get_output_data
    if is_single inputs
        then single entry inputs expected
        else multi max_samples entry inputs expected

  -- `TestUnit.run`; a `max_samples` that is no positive int is 0 here.
  unfoldable pub run : ℕ → Exec W (List SampleResult)
  unfolding independent stateful
  run max_samples = do
    checked case.is_case "Expected a concrete TestCase or StatefulTestCase"
    require (not (eqb max_samples 0))
        (Runtime.Error.raised (value_error "max_samples must be positive"))
    entry ← propagate case.get_enterpoint
    checked (is_callable entry) "get_enterpoint() must return a callable"
    if case.is_stateful
        then stateful rt case entry name max_samples
        else independent max_samples entry
