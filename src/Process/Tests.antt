-- ===== src/Process/Tests.antt =====
-- The theorems on the supervision of subprocesses at concrete observations.
use repository_quality_guard.Prelude.{
  ℕ, ◌+◌, ◌≡◌, ◌≢◌, ◌⊎◌, refl, [], ◌∷◌, map, Option, none, some, arith, false,
}
use repository_quality_guard.Prelude.Integers.{pos}
use repository_quality_guard.Process.Tree
use repository_quality_guard.Process.Tree.{
  posix, sent, reaped, timeout_expired, returns, terminate_process_tree, Run, killpg_term,
  killpg_kill, wait, kill_error, killed, ◌then_run◌, reap,
}
use repository_quality_guard.Process.Tree.Reaped.{IsGone}
use repository_quality_guard.Process.Watch.{Beat, running, no_progress, wait_for_active_process}
use repository_quality_guard.Process.Watch.Liveness.{wait_for_active_process-ne-no_progress}
use repository_quality_guard.Process.Command
use repository_quality_guard.Process.Command.{
  is_expired, Limits, State, Round, Call, output, passed_on, launched, unguarded_error, clean_up,
  terminate_behind, pending, remaining, interval, communicate_loop, run_bounded_command,
}
use repository_quality_guard.Process.Command.Deadline.{
  communicate_loop_ends, run_bounded_command-IsGone,
}

abbrev beat : ℕ → Option ℕ → Beat
beat now cpu = record { now = now; cpu = cpu; log = none }

wait_for_active_process-ne-no_progress_example :
    wait_for_active_process 60 5 0
      (some 0)
      none
      (map running (beat 50 (some 1) ∷ beat 100 (some 2) ∷ []))
    ≢ no_progress 100
wait_for_active_process-ne-no_progress_example =
    wait_for_active_process-ne-no_progress 60 5 0 0 100 none
      (beat 50 (some 1) ∷ beat 100 (some 2) ∷ [])
      (1, (refl, (omega arith, (2, (refl, (omega arith, tt))))))

-- A kill that is refused ends the termination, though the group has had its signals.
refused_kill :
    (terminate_process_tree (posix sent timeout_expired sent) timeout_expired kill_error reaped).1
    ≡ Tree.raises
unfolding terminate_process_tree ◌then_run◌ reap
refused_kill = refl

abbrev limits : Limits
limits = record { timeout = some 10; stall_timeout = none; heartbeat_interval = 5 }

left_at_seven : is_expired (remaining limits 0 7) ≡ false
unfolding remaining
left_at_seven = refl

abbrev begun : State
begun = record { last_progress = 0; previous_cpu = none; previous_bytes = 0; first_input = none }

abbrev waiting_at : ℕ → Round
waiting_at now = record {
  now = now;
  answer = pending (record { now = now + 5; cpu = none; partial_bytes = 0 });
}

communicate_loop_ends_example :
    (communicate_loop limits 0 begun (waiting_at 0 ∷ waiting_at 11 ∷ []) ≡ Command.timeout_expired)
    ⊎ ((idle : ℕ) × (communicate_loop limits 0 begun (waiting_at 0 ∷ waiting_at 11 ∷ [])
          ≡ Command.no_progress idle))
communicate_loop_ends_example =
    communicate_loop_ends limits 0 10 begun (waiting_at 0 ∷ waiting_at 11 ∷ []) refl refl refl

abbrev failing : Round
failing = record { now = 1; answer = Command.finished "" "error" (pos 2) }

abbrev ending : Run
ending = (killpg_term ∷ wait 3 ∷ killpg_kill ∷ wait 5 ∷ [], returns)

abbrev failed : Call
failed = record { ended = output "" "error" (pos 2); actions = ending.0 }

-- An interrupt between the start of the process and the loop leaves the process alone.
unguarded :
    run_bounded_command limits unguarded_error none [] ending
    ≡ some (record { ended = passed_on; actions = [] })
unfolding run_bounded_command
unguarded = refl

failing_run :
    run_bounded_command limits
      (launched 0 none)
      none
      (failing ∷ [])
      (terminate_process_tree (posix sent timeout_expired sent) reaped killed reaped)
    ≡ some failed
unfolding run_bounded_command communicate_loop clean_up terminate_behind terminate_process_tree
    ◌then_run◌ reap
failing_run = refl

run_bounded_command-IsGone_example : IsGone (failed.actions, returns) reaped reaped
run_bounded_command-IsGone_example =
    run_bounded_command-IsGone limits 0 none none (failing ∷ []) sent sent timeout_expired reaped
      killed reaped failed failing_run tt
