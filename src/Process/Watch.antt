-- ===== src/Process/Watch.antt =====
-- process_lifecycle.py: `wait_for_active_process`, on the sequence of what it observes.
pub mod Liveness
use repository_quality_guard.Prelude.{
  ℕ, ◌+◌, ◌-◌, Bool, true, false, not, ◌&&◌, ◌||◌, List, [], ◌∷◌, Option, none, some, eqb, ltb, leb,
  is_some, if◌then◌else◌,
}
use repository_quality_guard.Prelude.Integers.{ℤ}

-- The size and the time of the last change of the log.
abbrev pub LogStat : Type 0
LogStat = ℕ × ℕ

-- What one round of the loop observes of a process that is still running behind the wait.
pub record Beat : Type 0 where
  pub now : ℕ
  pub cpu : Option ℕ
  pub log : Option LogStat

-- One round: the process has exited, before or during the wait, or it goes on.
pub data Probe : Type 0 where
  exited : Probe
  running : Beat → Probe

-- The variables of the loop.
pub record Watch : Type 0 where
  pub last_progress : ℕ
  pub previous_cpu : Option ℕ
  pub previous_log : Option LogStat

-- `cpu is not None and previous_cpu is not None and cpu > previous_cpu`
abbrev pub is_more : Option ℕ → Option ℕ → Bool
is_more (some cpu) (some previous) = ltb previous cpu
is_more _ _ = false

-- `log is not None and previous_log is not None and log != previous_log`
abbrev pub is_changed : Option LogStat → Option LogStat → Bool
is_changed (some (size, time)) (some (size', time')) = not (eqb size size' && eqb time time')
is_changed _ _ = false

abbrev pub or_previous {ℓ} : {A : Type ℓ} → Option A → Option A → Option A
or_previous (some a) previous = some a
or_previous none previous = previous

unfoldable pub is_active : Watch → Beat → Bool
is_active s b = is_more b.cpu s.previous_cpu || is_changed b.log s.previous_log

unfoldable pub observe_beat : Watch → Beat → Watch
unfolding is_active
observe_beat s b = record {
  last_progress = if is_active s b then b.now else s.last_progress;
  previous_cpu = or_previous b.cpu s.previous_cpu;
  previous_log = or_previous b.log s.previous_log;
}

-- `cpu is not None and now - last_progress >= stall_timeout`, on the variables behind the round
unfoldable pub is_stalled : ℕ → Watch → Beat → Bool
is_stalled stall_timeout s b = is_some b.cpu && leb stall_timeout (b.now - s.last_progress)

-- How far the loop comes on a sequence of rounds.
pub data Progress : Type 0 where
  ended : Progress
  stalled : ℕ → Progress
  watching : Watch → Progress

unfoldable pub watch : ℕ → Watch → List Probe → Progress
unfolding observe_beat is_stalled
watch stall_timeout s [] = watching s
watch stall_timeout s (exited ∷ probes) = ended
watch stall_timeout s (running b ∷ probes) =
    let s' = observe_beat s b in
    let rest = watch stall_timeout s' probes in
    if is_stalled stall_timeout s' b then stalled (b.now - s'.last_progress) else rest

-- How `wait_for_active_process` ends on a sequence of rounds; `waiting` says that it goes on.
pub data Waited : Type 0 where
  value_error : Waited
  no_progress : ℕ → Waited
  no_exit_status : Waited
  exit_status : ℤ → Waited
  waiting : Watch → Waited

-- Behind the loop: the return code, if there is one.
abbrev pub conclude : Option ℤ → Progress → Waited
conclude (some code) ended = exit_status code
conclude none ended = no_exit_status
conclude code (stalled idle) = no_progress idle
conclude code (watching s) = waiting s

-- The variables in front of the loop.
abbrev pub at_start : ℕ → Option ℕ → Watch
at_start started cpu = record { last_progress = started; previous_cpu = cpu; previous_log = none }

-- `started` and `cpu` are the first readings of the clock and of the CPU time.
unfoldable pub wait_for_active_process : ℕ → ℕ → ℕ → Option ℕ → Option ℤ → List Probe → Waited
unfolding watch
wait_for_active_process stall_timeout heartbeat_interval started cpu code probes =
    if eqb stall_timeout 0 || eqb heartbeat_interval 0
    then value_error
    else conclude code (watch stall_timeout (at_start started cpu) probes)
