-- ===== src/Testing/TestUnit/Stateful.antt =====
-- `_stateful_loop`, `TestUnit._stateful` and `TestUnit._stateful_sequence` of unit.py: an ordered
-- sequence of calls on one target.
use repository_quality_guard.Prelude.{
  String, ℕ, ◌==◌, Bool, true, false, not, ◌||◌, List, [], ◌∷◌, Option, none, some, format, decimal,
  nonempty, if◌then◌else◌,
}
use repository_quality_guard.Testing.Value.{
  Value, Values, Fields, tuple, dict, text, none_value, nil, cons, end, is_text, is_none, is_class,
  is_callable, is_exception_class, is_stream, is_dict, is_caught, type_error, value_error,
}
use repository_quality_guard.Testing.Runtime
use repository_quality_guard.Testing.Runtime.{
  Runtime, Reply, returned, Result, ok, err, Exec, pure, throw, require, propagate, ◌>>=◌, ◌>>◌,
}
use repository_quality_guard.Testing.Ledger.{SampleResult, fail}
use repository_quality_guard.Testing.Case
use repository_quality_guard.Testing.Case.{Case, Outcome}
use repository_quality_guard.Testing.TestUnit.Invoke.{invocation, observe, invoke}
use repository_quality_guard.Testing.TestUnit.Streams.{
  Stream, chained, Body, open_stream, safe_next,
}
use repository_quality_guard.Testing.TestUnit.Streams.Collect.{collect}

-- How an operation row is read.
pub data Row : Type 0 where
  receiver_row : Value → Values → Fields → Row
  method_row : Value → Value → Value → Row
  malformed : Row

three : Value → Value → Value → Row
three r (tuple args) (dict kwargs) =
    if is_text r || is_none r
    then method_row r (tuple args) (dict kwargs)
    else receiver_row r args kwargs
three r args kwargs = method_row r args kwargs

-- (receiver, args[, kwargs]), or (method_or_None, args, kwargs)
unfoldable pub classify : Value → Row
unfolding three
classify (tuple (cons r (cons (tuple args) nil))) =
    if is_text r || is_none r then malformed else receiver_row r args end
classify (tuple (cons r (cons args (cons kwargs nil)))) = three r args kwargs
classify _ = malformed

-- `len(inputs) == 2 and isinstance(inputs[1], dict)` of a tuple
abbrev pub is_bare_invocation : Value → Bool
is_bare_invocation (tuple (cons a (cons b nil))) = is_dict b
is_bare_invocation _ = false

-- A leading (args, kwargs) row.
unfoldable pub constructor_row : Value → Option (Values × Fields)
constructor_row (tuple (cons (tuple args) (cons (dict kwargs) nil))) = some (args, kwargs)
constructor_row _ = none

abbrev type_error! : {A W : Type 0} → String → Exec W A
type_error! message = throw (Runtime.Error.raised (type_error message))

module _ {W : Type 0} (rt : Runtime W) (case : Case W) (entry : Value) (name : String) where
  abbrev numbered : ℕ → String → String
  numbered i rest = format (name ∷ "[" ∷ decimal i ∷ "]" ∷ rest ∷ [])

  abbrev operation_error : ℕ → String → Runtime.Error
  operation_error i rest =
      Runtime.Error.raised (type_error (format ("Stateful operation " ∷ decimal i ∷ rest ∷ [])))

  -- An exception class as the oracle says that this transition has to throw.
  abbrev transition_type : Value → Option Outcome
  transition_type oracle = if is_exception_class oracle then some Case.exception else case.type

  -- The common end of a row: the call of `operation`, under `label`.
  perform : ℕ → Value → Values → Fields → Value → String → Exec W SampleResult
  perform i operation args kwargs oracle label =
      if is_callable operation
      then invoke rt case operation args kwargs oracle (numbered i (format ("." ∷ label ∷ [])))
          (transition_type oracle)
      else type_error! (format ("Stateful operation target is not callable: " ∷ numbered i "" ∷ []))

  -- `target if method is None else getattr(target, method)`, and the label of the row
  operation_of : ℕ → Value → Value → Exec W (Value × String)
  operation_of i target none_value = pure (target, "call")
  operation_of i target (text method) = do
    operation ← propagate (rt.getattr target method)
    pure (operation, method)
  operation_of i target _ = throw (operation_error i " has an invalid method name")

  -- `method is None or a nonempty str`
  abbrev is_method : Value → Bool
  is_method none_value = true
  is_method (text method) = not (method == "")
  is_method _ = false

  pub act_row : ℕ → Value → Row → Value → Exec W SampleResult
  unfolding perform operation_of
  act_row i target (receiver_row receiver args kwargs) oracle =
      if is_class entry
      then type_error! "Receiver operations require a method entrypoint"
      else perform i entry (cons receiver args) kwargs oracle "call"
  act_row i target (method_row method raw_args raw_kwargs) oracle = do
    require (is_method method) (operation_error i " has an invalid method name")
    call ← (λ w. (invocation (tuple (cons raw_args (cons raw_kwargs nil))), w))
    found ← operation_of i target method
    perform i found.0 call.0 call.1 oracle found.1
  act_row i target malformed oracle =
      throw
        (operation_error i " must be (receiver, args[, kwargs]) or (method_or_None, args, kwargs)")

  -- The loop of `_stateful_sequence` over the operations that follow `target`.
  abbrev pub body : ℕ → Value → Body W
  body max_samples target = record {
    label = name;
    limit = max_samples;
    limit_text = "max_samples exceeded";
    mismatch_text = λ i. format ("Stateful input/output lengths differ at row " ∷ decimal i ∷ []);
    act = λ i call oracle. act_row i target (classify call) oracle;
  }

  -- From the target on: the oracle stream, and the operations one by one.
  unfoldable pub operate : ℕ → Value → Stream → Exec W (List SampleResult)
  unfolding act_row
  operate max_samples target operations = do
    expected ← propagate case.get_output_data
    require (is_stream expected) (
        Runtime.Error.raised
          (type_error "Stateful get_output_data() must provide an iterable oracle stream"))
    oracles ← open_stream rt expected
    results ← collect rt (body max_samples target) operations oracles
    require (nonempty results)
        (Runtime.Error.raised (value_error (format ("No stateful operations for " ∷ name ∷ []))))
    pure results

  -- The construction of the target, whose failure is the one sample of the case.
  unfoldable pub construct : ℕ → Values → Fields → Stream → Exec W (List SampleResult)
  unfolding operate
  construct max_samples args kwargs operations w =
      let (r, w') = observe rt entry args kwargs w in
      elim r [
        | returned target ↦ operate max_samples target operations w'
        | Reply.raised e ↦
            if is_caught e
            then (
              ok (
                  record {
                    name = name;
                    status = fail;
                    detail = format ("Initialization " ∷ e.kind ∷ ": " ∷ e.text ∷ []);
                  }
                  ∷ []),
              w',
            )
            else (err (Runtime.Error.raised e), w')
      ]

  -- What the first row is: a constructor call, or the first operation on the entry itself.
  unfoldable pub start : ℕ → Option Value → Stream → Exec W (List SampleResult)
  unfolding construct operate
  start max_samples none rest =
      throw (
        Runtime.Error.raised
          (value_error (format ("Empty stateful input stream for " ∷ name ∷ []))))
  start max_samples (some first) rest = elim (constructor_row first) [
    | some (args, kwargs) ↦ construct max_samples args kwargs rest
    | none ↦
        if is_class entry
        then type_error! "Class entry requires a leading constructor (args, kwargs) row"
        else operate max_samples entry (chained first rest)
  ]

  -- `TestUnit._stateful_sequence`
  unfoldable pub stateful_sequence : ℕ → Exec W (List SampleResult)
  unfolding start
  stateful_sequence max_samples = do
    inputs ← propagate case.get_input_data
    require (is_stream inputs)
        (Runtime.Error.raised (type_error "Stateful get_input_data() must be an ordered iterable"))
    require (not (is_bare_invocation inputs)) (
        Runtime.Error.raised (
          type_error
            "Stateful get_input_data() must yield the initialization and operations, not return a bare invocation"))
    iterator ← open_stream rt inputs
    first ← safe_next rt iterator name "input" []
    start max_samples first.0 first.1

  -- `TestUnit._stateful`: one event loop around the whole sequence, closed however it ends.
  unfoldable pub stateful : ℕ → Exec W (List SampleResult)
  unfolding stateful_sequence
  stateful max_samples w =
      let (r, w') = stateful_sequence max_samples (rt.open_loop w) in (r, rt.close_loop w')
