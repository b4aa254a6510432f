-- ===== src/Testing/TestUnit/Streams.antt =====
-- The iterators of unit.py (`_safe_next`, `chain`) and the loop that pairs inputs with oracles, which
-- `TestUnit.run` and `TestUnit._stateful_sequence` write out each with its own row and messages.
pub mod Steps
pub mod Bounds
pub mod Samples
pub mod Rows
pub mod Collect
use repository_quality_guard.Prelude.{
  String, ℕ, zero, suc, ◌+◌, Bool, List, [], ◌∷◌, ◌++◌, Option, none, some, format, ltb,
  if◌then◌else◌,
}
use repository_quality_guard.Testing.Value.{
  Exc, Value, Values, tuple, nil, cons, is_ordinary, value_error,
}
use repository_quality_guard.Testing.Runtime.{
  Runtime, Next, item, missing, broken, Opened, opened, refused, Error, raised, partial, Result, ok,
  err, Exec, pure, throw, ◌>>=◌,
}
use repository_quality_guard.Testing.Ledger.{SampleResult}

-- An iterator: of a tuple, of user code, or `chain((first,), rest)`.
pub data Stream : Type 0 where
  values : Values → Stream
  handle : ℕ → Stream
  chained : Value → Stream → Stream

-- `_PartialCaseError(label, source, cause, samples)`
abbrev pub partial_case_error : String → String → Exc → List SampleResult → Error
partial_case_error label source cause samples =
    partial samples
      (format (label ∷ ": " ∷ source ∷ " iterator " ∷ cause.kind ∷ ": " ∷ cause.text ∷ []))

module _ {W : Type 0} (rt : Runtime W) where
  unfoldable pub open_stream : Value → Exec W Stream
  open_stream (tuple vs) w = (ok (values vs), w)
  open_stream v w =
      let (o, w') = rt.iter v w in
      (elim o [ opened n ↦ ok (handle n) | refused e ↦ err (raised e) ], w')

  -- `next(iterator, _MISSING)`: the answer, and the iterator after it.
  next : Stream → W → Next × Stream × W
  next (values nil) w = (missing, values nil, w)
  next (values (cons v vs)) w = (item v, values vs, w)
  next (handle n) w = let (a, w') = rt.next n w in (a, handle n, w')
  next (chained v s) w = (item v, s, w)

  answer : String → String → List SampleResult → Next → Stream → Result (Option Value × Stream)
  answer label source samples (item v) s = ok (some v, s)
  answer label source samples missing s = ok (none, s)
  answer label source samples (broken e) s =
      if is_ordinary e then err (partial_case_error label source e samples) else err (raised e)

  -- `_safe_next`
  unfoldable pub safe_next :
      Stream → String → String → List SampleResult → Exec W (Option Value × Stream)
  unfolding next answer
  safe_next s label source samples w =
      let (a, s', w') = next s w in (answer label source samples a s', w')

-- The variables of the loop.
pub record Round : Type 0 where
  pub inputs : Stream
  pub oracles : Stream
  pub count : ℕ
  pub results : List SampleResult

pub data Progress : Type 0 where
  finished : List SampleResult → Progress
  going : Round → Progress

-- What differs between the two loops: the texts, and what is done with a row of number `i`.
pub record Body (W : Type 0) : Type 0 where
  pub label : String
  pub limit : ℕ
  pub limit_text : String
  pub mismatch_text : ℕ → String
  pub act : ℕ → Value → Value → Exec W SampleResult

module _ {W : Type 0} where
  abbrev pub proceed :
      (Round → Exec W (Option (List SampleResult))) → Progress → Exec W (Option (List SampleResult))
  proceed again (finished results) = pure (some results)
  proceed again (going r) = again r

module _ {W : Type 0} (rt : Runtime W) (body : Body W) where
  open body use {label, limit, limit_text, mismatch_text, act}

  -- The tests behind the two calls of `next`, in their order.
  pair : Option Value → Option Value → Round → Exec W Progress
  pair none none r = pure (finished r.results)
  pair (some input) (some oracle) r =
      if ltb limit (r.count + 1)
      then throw (partial_case_error label "input" (value_error limit_text) r.results)
      else do
        sample ← act (r.count + 1) input oracle
        pure (going (record r { count = r.count + 1; results = r.results ++ sample ∷ [] }))
  pair _ _ r =
      if ltb limit (r.count + 1)
      then throw (partial_case_error label "input" (value_error limit_text) r.results)
      else throw (
          partial_case_error label "paired sample" (value_error (mismatch_text (r.count + 1)))
            r.results)

  -- One round of `while True`.
  unfoldable pub round : Round → Exec W Progress
  unfolding safe_next pair
  round r = do
    (input, inputs') ← safe_next rt r.inputs label "input" r.results
    (oracle, oracles') ← safe_next rt r.oracles label "oracle" r.results
    pair input oracle (record r { inputs = inputs'; oracles = oracles' })

  -- The loop, on fuel: `none` says that the fuel ran out.
  unfoldable pub loop : ℕ → Round → Exec W (Option (List SampleResult))
  loop zero r = pure none
  loop (suc fuel) r = round r >>= proceed (loop fuel)
