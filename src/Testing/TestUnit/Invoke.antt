-- ===== src/Testing/TestUnit/Invoke.antt =====
-- `_await_observation`, `_invocation` and `TestUnit._invoke` of unit.py.
pub mod Laws
use repository_quality_guard.Prelude.{
  String, ◌==◌, Bool, true, false, List, [], ◌∷◌, Option, none, some, format, if◌then◌else◌,
}
use repository_quality_guard.Testing.Value.{
  Exc, Value, Values, Fields, tuple, dict, nil, cons, end, boolean, exception, is_awaitable,
  is_caught, is_ordinary, type_error, awaitable,
}
use repository_quality_guard.Testing.Runtime.{
  Runtime, Reply, returned, Result, ok, err, Exec, pure, throw, ◌>>=◌, Shown, described,
  undescribed,
}
use repository_quality_guard.Testing.Runtime
use repository_quality_guard.Testing.Ledger.{SampleResult, Status, pass, fail, invalid}
use repository_quality_guard.Testing.Case
use repository_quality_guard.Testing.Case.{Case, Outcome}

-- `_invocation`: (args,) or (args, kwargs).
unfoldable pub invocation : Value → Result (Values × Fields)
invocation (tuple (cons (tuple args) nil)) = ok (args, end)
invocation (tuple (cons (tuple args) (cons (dict kwargs) nil))) = ok (args, kwargs)
invocation _ =
    err (Runtime.Error.raised (type_error "Each invocation must be (args,) or (args, kwargs)"))

abbrev sample : String → Status → String → SampleResult
sample name status detail = record { name = name; status = status; detail = detail }

module _ {W : Type 0} where
  -- `case.type if outcome is None else outcome`
  abbrev pub expected_type : Case W → Option Outcome → Option Outcome
  expected_type case none = case.type
  expected_type case (some outcome) = some outcome

abbrev pub text_of_shown : Shown → Result String
text_of_shown (described t) = ok t
text_of_shown (undescribed e) = err (Runtime.Error.raised e)

module _ {W : Type 0} (rt : Runtime W) where
  -- `_await_observation`; the event loop of the case is part of the outside state.
  unfoldable pub await_observation : Value → W → Reply × W
  await_observation (awaitable n) w = rt.await n w
  await_observation v w = (returned v, w)

  -- `entry(*args, **kwargs)`, then the await
  unfoldable pub observe : Value → Values → Fields → W → Reply × W
  unfolding await_observation
  observe entry args kwargs w =
      let (r, w') = rt.call entry args kwargs w in
      elim r [ returned v ↦ await_observation v w' | Reply.raised e ↦ (Reply.raised e, w') ]

  -- A text of an f-string; an exception of it is not caught.
  abbrev pub text_from : (W → Shown × W) → Exec W String
  text_from show w = let (s, w') = show w in (text_of_shown s, w')

  -- `f"{type(exc).__name__}: {exc}"` behind a word
  abbrev told : String → Status → String → Exc → Exec W SampleResult
  told name status word e = text_from (rt.str e) >>= λ t.
      pure (sample name status (format (word ∷ " " ∷ e.kind ∷ ": " ∷ t ∷ [])))

  -- The comparison by `case.equals`, and the status that its answer gives.
  compare_answer : String → Value → Value → Reply → Exec W SampleResult
  compare_answer name expected actual (returned (boolean true)) = pure (sample name pass "")
  compare_answer name expected actual (returned (boolean false)) =
      text_from (rt.repr expected) >>= λ wanted.
      (text_from (rt.repr actual) >>= λ got.
      pure (sample name fail (format ("expected " ∷ wanted ∷ ", got " ∷ got ∷ []))))
  compare_answer name expected actual (returned _) =
      pure (sample name invalid "equals must return bool")
  compare_answer name expected actual (Reply.raised e) =
      if is_ordinary e then told name invalid "Oracle" e else throw (Runtime.Error.raised e)

  compare : Case W → String → Value → Value → Exec W SampleResult
  unfolding compare_answer
  compare case name expected actual w =
      let (r, w') = case.equals expected actual w in compare_answer name expected actual r w'

  -- What follows the observation, by the outcome that the Case expects.
  judge : Case W → String → Value → Outcome → Reply → Exec W SampleResult
  unfolding compare
  judge case name expected Case.return (returned actual) = compare case name expected actual
  judge case name expected Case.return (Reply.raised e) =
      if is_caught e then told name fail "Unexpected" e else throw (Runtime.Error.raised e)
  judge case name expected Case.exception (returned actual) = text_from (rt.repr actual) >>= λ t.
      pure (sample name fail (format ("Expected exception, returned " ∷ t ∷ [])))
  judge case name expected Case.exception (Reply.raised e) =
      if is_caught e
      then compare case name expected (exception e)
      else throw (Runtime.Error.raised e)

  run_expected :
      Case W → Value → Values → Fields → Value → String → Option Outcome → Exec W SampleResult
  unfolding observe judge
  run_expected case entry args kwargs expected name none w =
      (ok (sample name invalid "Unrecognized expected outcome"), w)
  run_expected case entry args kwargs expected name (some t) w =
      let (r, w') = observe entry args kwargs w in judge case name expected t r w'

  -- `TestUnit._invoke`
  unfoldable pub invoke :
      Case W → Value → Values → Fields → Value → String → Option Outcome → Exec W SampleResult
  unfolding run_expected
  invoke case entry args kwargs expected name outcome =
      run_expected case entry args kwargs expected name (expected_type case outcome)
