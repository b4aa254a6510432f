-- ===== src/Testing/TestUnit/Sequence.antt =====
-- A stateful case: one target, constructed once, and the operations on it in their order.
use repository_quality_guard.Prelude.{
  String, ℕ, ◌≤◌, ◌<◌, ◌≡◌, ap, false, List, [], length, nonempty, arith,
}
use repository_quality_guard.Testing.Value.{Value, Values, Fields, tuple, dict, nil, cons}
use repository_quality_guard.Testing.Runtime.{Runtime, returned, require_passes}
use repository_quality_guard.Testing.Case.{Case}
use repository_quality_guard.Testing.TestUnit.Invoke.{observe}
use repository_quality_guard.Testing.TestUnit.Streams.{Stream, values, open_stream, safe_next}
use repository_quality_guard.Testing.TestUnit.Streams.Rows.{of_list, rows}
use repository_quality_guard.Testing.TestUnit.Streams.Collect.{collect-eq-rows, length-rows}
use repository_quality_guard.Testing.TestUnit.Stateful.{
  body, operate, construct, start, stateful_sequence, stateful, constructor_row, is_bare_invocation,
}
use repository_quality_guard.Testing.TestUnit.Samples.{nonempty_of_length}

-- The row that constructs the target.
abbrev pub constructor_of : Values → Fields → Value
constructor_of args kwargs = tuple (cons (tuple args) (cons (dict kwargs) nil))

module _ {W : Type 0} (rt : Runtime W) (case : Case W) (entry : Value) (name : String)
    (max_samples : ℕ) where
  operate-eq-rows :
      (target : Value) (ops ys : List Value) (w w' : W)
      → case.get_output_data w ≡ (returned (tuple (of_list ys)), w')
      → length ops ≡ length ys
      → 0 < length ops
      → length ops ≤ max_samples
      → operate rt case entry name max_samples target (values (of_list ops)) w
        ≡ rows rt (body rt case entry name max_samples target) 0 [] ops ys w'
  unfolding operate open_stream
  operate-eq-rows target ops ys w w' given e pos le =
      rw (given, collect-eq-rows rt (body rt case entry name max_samples target) ops ys w' e le)
        (require_passes (rows rt (body rt case entry name max_samples target) 0 [] ops ys w')
          nonempty _
          λ rs h. nonempty_of_length rs (
            omega (
              arith,
              length-rows rt (body rt case entry name max_samples target) ops ys 0 [] rs w' e h,
            )))

  construct-eq-operate :
      (args : Values) (kwargs : Fields) (target : Value) (operations : Stream) (w w' : W)
      → observe rt entry args kwargs w ≡ (returned target, w')
      → construct rt case entry name max_samples args kwargs operations w
        ≡ operate rt case entry name max_samples target operations w'
  unfolding construct
  construct-eq-operate args kwargs target operations w w' made =
      rw (made, construct)
        (ap (operate rt case entry name max_samples target operations) (ap (λ q. q.1) made))

  sequence-eq-operate :
      (args : Values) (kwargs : Fields) (target : Value) (ops : List Value) (w w1 w2 : W)
      → case.get_input_data w
        ≡ (returned (tuple (cons (constructor_of args kwargs) (of_list ops))), w1)
      → is_bare_invocation (tuple (cons (constructor_of args kwargs) (of_list ops))) ≡ false
      → observe rt entry args kwargs w1 ≡ (returned target, w2)
      → stateful_sequence rt case entry name max_samples w
        ≡ operate rt case entry name max_samples target (values (of_list ops)) w2
  unfolding stateful_sequence start construct open_stream safe_next constructor_row
  sequence-eq-operate args kwargs target ops w w1 w2 input plain made =
      rw (input, plain) (construct-eq-operate args kwargs target (values (of_list ops)) w1 w2 made)

  -- With a leading constructor row and as many oracles as operations, within `max_samples`: the target
  -- is constructed once, before the oracles are read; then each operation runs on that target in the
  -- state that the one before left, with its own oracle; and the event loop is closed behind it all.
  pub stateful-eq-rows :
      (args : Values) (kwargs : Fields) (target : Value) (ops ys : List Value) (w w1 w2 w3 : W)
      → case.get_input_data (rt.open_loop w)
        ≡ (returned (tuple (cons (constructor_of args kwargs) (of_list ops))), w1)
      → is_bare_invocation (tuple (cons (constructor_of args kwargs) (of_list ops))) ≡ false
      → observe rt entry args kwargs w1 ≡ (returned target, w2)
      → case.get_output_data w2 ≡ (returned (tuple (of_list ys)), w3)
      → length ops ≡ length ys
      → 0 < length ops
      → length ops ≤ max_samples
      → stateful rt case entry name max_samples w ≡ (
          let (r, v) = rows rt (body rt case entry name max_samples target) 0 [] ops ys w3 in
          (r, rt.close_loop v))
  unfolding stateful
  stateful-eq-rows args kwargs target ops ys w w1 w2 w3 input plain made given e pos le = rw (
    sequence-eq-operate args kwargs target ops (rt.open_loop w) w1 w2 input plain made,
    operate-eq-rows target ops ys w2 w3 given e pos le,
  )
