-- ===== src/Testing/Tests.antt =====
-- A small code under test and the theorems on packages/rqgtest at concrete inputs.
use repository_quality_guard.Prelude.{
  String, ℕ, suc, ◌+◌, ◌≡◌, ◌≢◌, ◌≤◌, ◌<◌, ◌↔◌, refl, true, false, List, [], ◌∷◌, none, some, arith,
  eqb, nonempty, all, any, format, decimal,
}
use repository_quality_guard.Testing.Value.{
  Value, tuple, dict, nil, cons, end, number, boolean, none_value, function, class_object, text,
  value_error,
}
use repository_quality_guard.Testing.Runtime.{
  Runtime, Reply, returned, item, opened, ok, throw, described, ◌>>=◌, complete,
}
use repository_quality_guard.Testing.Ledger.{SampleResult, pass, BatchResult, is_pass}
use repository_quality_guard.Testing.Case
use repository_quality_guard.Testing.Case.{Case, CaseConfig, Outcome, pool, main}
use repository_quality_guard.Testing.TestUnit.Invoke.{observe, invoke, invocation, expected_type}
use repository_quality_guard.Testing.TestUnit.Invoke.Laws.{IsPassed, invoke-pass_iff, observation}
use repository_quality_guard.Testing.TestUnit.Streams.{
  values, handle, Round, loop, partial_case_error, open_stream, round,
}
use repository_quality_guard.Testing.TestUnit.Streams.Rows.{of_list, rows}
use repository_quality_guard.Testing.TestUnit.Streams.Collect.{collect}
use repository_quality_guard.Testing.TestUnit.Streams.Bounds.{loop-ne-none}
use repository_quality_guard.Testing.TestUnit.Stateful
use repository_quality_guard.Testing.TestUnit.Stateful.{stateful}
use repository_quality_guard.Testing.TestUnit.Multi.{body, multi, run}
use repository_quality_guard.Testing.TestUnit.Samples.{
  paired_rows, multi-eq-rows, multi_mismatch, length-multi-le,
}
use repository_quality_guard.Testing.TestUnit.Sequence.{stateful-eq-rows, constructor_of}
use repository_quality_guard.Testing.Run.{
  Execution, Future, done, completed, exit_status, execute, settle, collected, ledger, all_samples,
}
use repository_quality_guard.Testing.Loader.{Loader, Store, writes}
use repository_quality_guard.Testing.Run.Order.{in_order, completed-eq-in_order}
use repository_quality_guard.Testing.Run.Accepted.{is_broken, exit_status-ledger_iff}

-- A counter: each call adds one and returns the new count.
abbrev counter : Runtime ℕ
counter = record {
  call = λ f args kwargs w. (returned (number (suc w)), suc w);
  await = λ n w. (returned (number n), w);
  getattr = λ target method w. (returned (function 1), w);
  iter = λ v w. (opened 0, w);
  next = λ n w. (item (tuple (cons (tuple nil) nil)), w);
  repr = λ v w. (described "value", w);
  str = λ e w. (described e.text, w);
  open_loop = λ w. w;
  close_loop = λ w. w;
}

abbrev same_number : Value → Value → ℕ → Reply × ℕ
same_number (number a) (number b) w = (returned (boolean (eqb a b)), w)
same_number _ _ w = (returned none_value, w)

abbrev call_row : Value
call_row = tuple (cons (tuple nil) nil)

abbrev inputs : List Value
inputs = call_row ∷ call_row ∷ []

abbrev oracles : List Value
oracles = number 1 ∷ number 2 ∷ []

abbrev counting : Case ℕ
counting = record {
  is_case = true;
  is_stateful = false;
  type = some Case.return;
  config = record { process = pool };
  get_enterpoint = λ w. (returned (function 0), w);
  get_input_data = λ w. (returned (tuple (of_list inputs)), w);
  get_output_data = λ w. (returned (tuple (of_list oracles)), w);
  equals = same_number;
}

program : Unit {0}
unfolding run multi stateful collect complete loop rows invoke observe format decimal open_stream
    round invocation
program = tt

abbrev sample : String → SampleResult
sample name = record { name = name; status = pass; detail = "" }

-- The executor on the counter: both calls pass, in order.
run_counts : run counter counting "c" 5 0 ≡ (ok (sample "c[1]" ∷ sample "c[2]" ∷ []), 2)
unfolding program in_order execute settle collected
run_counts = refl

multi-eq-rows_example :
    multi counter counting "c" 5 (function 0) (tuple (of_list inputs)) (tuple (of_list oracles)) 0
    ≡ paired_rows counter counting "c" 5 (function 0) inputs oracles 0
multi-eq-rows_example =
    multi-eq-rows counter counting "c" 5 (function 0) inputs oracles 0 refl (omega arith)
      (omega arith)

multi_mismatch_example :
    multi counter counting "c" 5
      (function 0)
      (tuple (of_list inputs))
      (tuple (of_list (number 1 ∷ [])))
      0
    ≡ (paired_rows counter counting "c" 5 (function 0) inputs (number 1 ∷ []) >>= λ rs. throw (
          partial_case_error "c" "paired sample"
            (value_error
              (format ("Input/output stream lengths differ at row " ∷ decimal (0 + 1 + 1) ∷ [])))
            rs))
        0
multi_mismatch_example =
    multi_mismatch counter counting "c" 5 (function 0) inputs (number 1 ∷ []) 0 (λ e. omega arith)
      (omega arith)

multi_counts :
    (multi counter counting "c" 5
      (function 0)
      (tuple (of_list inputs))
      (tuple (of_list oracles))
      0).0
    ≡ ok (sample "c[1]" ∷ sample "c[2]" ∷ [])
unfolding program in_order execute settle collected
multi_counts = refl

length-multi-le_example : (0 < 2) × (2 ≤ 5)
length-multi-le_example =
    length-multi-le counter counting "c" 5 (function 0) (tuple (of_list inputs))
      (tuple (of_list oracles)) 0 (sample "c[1]" ∷ sample "c[2]" ∷ []) multi_counts

abbrev half_way : Round
half_way = record {
  inputs = handle 0;
  oracles = values nil;
  count = 1;
  results = sample "c[1]" ∷ [];
}

invoke-pass_iff_example :
    IsPassed (invoke counter counting (function 0) nil end (number 1) "c" none 0).0 ↔ (
      (t : Outcome) × (expected_type counting none ≡ some t)
      × ((actual : Value) × (observation t (observe counter (function 0) nil end 0).0 ≡ some actual)
          × ((counting.equals (number 1) actual (observe counter (function 0) nil end 0).1).0
              ≡ returned (boolean true))))
invoke-pass_iff_example =
    invoke-pass_iff counter counting "c" (number 1) (function 0) nil end none 0

-- A class whose objects count.
abbrev ops : List Value
ops =
    tuple (cons none_value (cons (tuple nil) (cons (dict end) nil)))
    ∷ tuple (cons (text "add") (cons (tuple nil) (cons (dict end) nil)))
    ∷ []

abbrev stepping : Case ℕ
stepping = record counting {
  is_stateful = true;
  get_input_data = λ w. (returned (tuple (cons (constructor_of nil end) (of_list ops))), w);
  get_output_data = λ w. (returned (tuple (of_list (number 2 ∷ number 3 ∷ []))), w);
}

observe-counter : observe counter (class_object false 0) nil end 0 ≡ (returned (number 1), 1)
unfolding program in_order execute settle collected
observe-counter = refl

stateful-eq-rows_example : stateful counter stepping (class_object false 0) "s" 5 0 ≡ (
    let (r, v) =
      rows counter
        (Stateful.body counter stepping (class_object false 0) "s" 5 (number 1))
        0
        []
        ops
        (number 2 ∷ number 3 ∷ [])
        1 in
    (r, counter.close_loop v))
stateful-eq-rows_example =
    stateful-eq-rows counter stepping (class_object false 0) "s" 5 nil end (number 1) ops
      (number 2 ∷ number 3 ∷ []) 0 0 1 1 refl refl observe-counter refl refl (omega arith)
      (omega arith)

abbrev report : BatchResult
report = record { samples = sample "c" ∷ []; invalid = none }

abbrev coordinated : Case ℕ
coordinated = record counting { config = record { process = main } }

abbrev pooled : ℕ → Future
pooled i = done (sample "p[1]" ∷ []) none

abbrev both : List Execution
both =
    record { index = 0; samples = sample "p[1]" ∷ []; error = none }
    ∷ record { index = 1; samples = sample "c[1]" ∷ sample "c[2]" ∷ []; error = none }
    ∷ []

exit_status-ledger_iff_example : (exit_status (ledger true both) ≡ 0) ↔ (
    (true ≡ true)
    × (any is_broken both ≡ false)
    × (nonempty (all_samples both) ≡ true)
    × (all is_pass (all_samples both) ≡ true))
exit_status-ledger_iff_example = exit_status-ledger_iff true both

in_order_runs :
    in_order counter 5 pooled 0 (("p", counting) ∷ ("c", coordinated) ∷ []) 0 ≡ (ok both, 2)
unfolding program in_order execute settle collected
in_order_runs = refl

completed-eq-in_order_example :
    completed counter 5 pooled (("p", counting) ∷ ("c", coordinated) ∷ []) 0 ≡ (ok both, 2)
completed-eq-in_order_example =
    completed-eq-in_order counter 5 pooled (("p", counting) ∷ ("c", coordinated) ∷ []) 0 2 both
      in_order_runs

loop-ne-none_example :
    (loop counter
      (body counter counting "c" 5 (function 0))
      6
      (record { inputs = handle 0; oracles = handle 0; count = 0; results = [] })
      0).0
    ≢ ok none
loop-ne-none_example =
    loop-ne-none counter (body counter counting "c" 5 (function 0)) 6
      (record { inputs = handle 0; oracles = handle 0; count = 0; results = [] }) 0 (omega arith)
      (omega arith)

-- A loader that turns "a" into its cache.
abbrev upper : Loader
upper = record {
  source = "d/a.txt";
  target = "d/.cache/a.txt.m.Upper.txt";
  has_preprocessing = true;
  has_suffix = true;
  preprocessing = λ content. writes "A";
}

abbrev files : Store
files = ("d/a.txt", "a") ∷ []
