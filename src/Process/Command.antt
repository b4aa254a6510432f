-- ===== src/Process/Command.antt =====
-- process_lifecycle.py: `run_bounded_command`, on the sequence of what it observes.
pub mod Deadline
use repository_quality_guard.Prelude.{
  String, ℕ, zero, ◌+◌, ◌-◌, Bool, true, false, ◌&&◌, ◌||◌, List, [], ◌∷◌, Option, none, some, eqb,
  ltb, leb, min, is_some, if◌then◌else◌,
}
use repository_quality_guard.Prelude.Integers.{ℤ, pos}
use repository_quality_guard.Process.Watch.{is_more, or_previous}
use repository_quality_guard.Process.Tree.{Action, Run, returns, raises}

-- What a round of the loop observes behind the call of `communicate`.
pub record Pending : Type 0 where
  pub now : ℕ
  pub cpu : Option ℕ
  pub partial_bytes : ℕ

-- How a round ends: with the output and the return code of `communicate`, with its timeout, or with
-- another exception (an interrupt, say), of `communicate` or of what observes the process.
pub data Answer : Type 0 where
  finished : String → String → ℤ → Answer
  pending : Pending → Answer
  interrupted : Answer

-- A round: the clock in front of `communicate`, and how that ends.
pub record Round : Type 0 where
  pub now : ℕ
  pub answer : Answer

-- The settings of a call: `timeout`, `stall_timeout` and `heartbeat_interval`.
pub record Limits : Type 0 where
  pub timeout : Option ℕ
  pub stall_timeout : Option ℕ
  pub heartbeat_interval : ℕ

pub record State : Type 0 where
  pub last_progress : ℕ
  pub previous_cpu : Option ℕ
  pub previous_bytes : ℕ
  pub first_input : Option String

-- `remaining`, for a clock that does not go back; `some 0` stands for all values up to 0.
unfoldable pub remaining : Limits → ℕ → ℕ → Option ℕ
remaining limits started now = elim limits.timeout [
  | none ↦ none
  | some timeout ↦ some (timeout - (now - started))
]

abbrev pub is_expired : Option ℕ → Bool
is_expired (some zero) = true
is_expired _ = false

-- The timeout that `communicate` is called with.
unfoldable pub interval : Limits → Option ℕ → ℕ
interval limits none = limits.heartbeat_interval
interval limits (some left) = min limits.heartbeat_interval left

unfoldable pub is_active : State → Pending → Bool
is_active s p = ltb s.previous_bytes p.partial_bytes || is_more p.cpu s.previous_cpu

abbrev max : ℕ → ℕ → ℕ
max a b = if leb a b then b else a

-- The assignments of the `except` clause.
unfoldable pub observe_process : State → Pending → State
unfolding is_active
observe_process s p = record {
  last_progress = if is_active s p then p.now else s.last_progress;
  previous_cpu = or_previous p.cpu s.previous_cpu;
  previous_bytes = max s.previous_bytes p.partial_bytes;
  first_input = none;
}

-- The test behind it, on the variables that it has set.
unfoldable pub is_stalled : Limits → State → Pending → Bool
is_stalled limits s p = elim limits.stall_timeout [
  | none ↦ false
  | some stall ↦ is_some p.cpu && leb stall (p.now - s.last_progress)
]

-- How the loop ends; `unfinished` says that it goes on.
pub data Ended : Type 0 where
  output : String → String → ℤ → Ended
  timeout_expired : Ended
  no_progress : ℕ → Ended
  passed_on : Ended
  termination_error : Ended
  unfinished : State → Ended

unfoldable pub communicate_loop : Limits → ℕ → State → List Round → Ended
unfolding remaining observe_process is_stalled
communicate_loop limits started s [] = unfinished s
communicate_loop limits started s (r ∷ rounds) =
    if is_expired (remaining limits started r.now) then timeout_expired else elim r.answer [
      | finished out errors code ↦ output out errors code
      | interrupted ↦ passed_on
      | pending p ↦
          let s' = observe_process s p in
          let rest = communicate_loop limits started s' rounds in
          if is_stalled limits s' p then no_progress (p.now - s'.last_progress) else rest
    ]

-- What the call returns or raises, and what it has done to the process tree.
pub record Call : Type 0 where
  pub ended : Ended
  pub actions : List Action

abbrev pub is_zero : ℤ → Bool
is_zero (pos zero) = true
is_zero _ = false

-- `terminate_process_tree` behind an end of the loop; an exception of it takes the place of that end.
unfoldable pub terminate_behind : Run → Ended → Call
terminate_behind (actions, returns) e = record { ended = e; actions = actions }
terminate_behind (actions, raises) e = record { ended = termination_error; actions = actions }

-- The `except BaseException` clause and the test of the return code.
unfoldable pub clean_up : Run → Ended → Call
unfolding terminate_behind
clean_up termination (output out errors code) =
    if is_zero code
    then record { ended = output out errors code; actions = [] }
    else terminate_behind termination (output out errors code)
clean_up termination (unfinished s) = record { ended = unfinished s; actions = [] }
clean_up termination e = terminate_behind termination e

-- What happens in front of the `try`: `Popen` raises; it starts the process, and the clock or the
-- reading of the CPU time raises; or all three return.
pub data Launch : Type 0 where
  not_started unguarded_error : Launch
  launched : ℕ → Option ℕ → Launch

abbrev pub is_invalid : Option ℕ → Bool
is_invalid (some zero) = true
is_invalid _ = false

-- The call, with what `terminate_process_tree` would do: `none` is the ValueError of its settings,
-- before a process is started.
unfoldable pub run_bounded_command :
    Limits → Launch → Option String → List Round → Run → Option Call
unfolding communicate_loop clean_up
run_bounded_command limits launch input_text rounds termination =
    if is_invalid limits.timeout
      || is_invalid limits.stall_timeout
      || eqb limits.heartbeat_interval 0
    then none
    else some (elim launch [
      | not_started ↦ record { ended = passed_on; actions = [] }
      | unguarded_error ↦ record { ended = passed_on; actions = [] }
      | launched started cpu ↦ clean_up termination (
          communicate_loop limits started
            (record {
              last_progress = started;
              previous_cpu = cpu;
              previous_bytes = 0;
              first_input = input_text;
            })
            rounds)
    ])
