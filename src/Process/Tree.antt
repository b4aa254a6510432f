-- ===== src/Process/Tree.antt =====
-- process_lifecycle.py: `terminate_process_tree`, as the actions that it takes on the answers that it
-- gets. Each call may also end in an exception that is not caught.
pub mod Reaped
use repository_quality_guard.Prelude.{ℕ, Bool, true, false, List, [], ◌∷◌, ◌++◌, if◌then◌else◌}

pub data Action : Type 0 where
  taskkill : Action
  kill : Action
  killpg_term : Action
  killpg_kill : Action
  wait : ℕ → Action

-- How `os.killpg` ends; `refused` is an exception that is no ProcessLookupError.
pub data GroupAnswer : Type 0 where
  sent gone refused : GroupAnswer

-- How a `wait` with a timeout ends: in time, at the timeout, or in another exception.
pub data WaitAnswer : Type 0 where
  reaped timeout_expired broken : WaitAnswer

-- How `process.kill` ends.
pub data KillSent : Type 0 where
  killed kill_error : KillSent

-- How `taskkill` ends: it ran; it failed with an OSError or a timeout, while the process was over, or was
-- alive and `kill` was called; or in another exception.
pub data TaskkillAnswer : Type 0 where
  ran over : TaskkillAnswer
  alive : KillSent → TaskkillAnswer
  taskkill_error : TaskkillAnswer

pub data Platform : Type 0 where
  nt : TaskkillAnswer → Platform
  posix : GroupAnswer → WaitAnswer → GroupAnswer → Platform

-- How the function ends: it returns, or an exception leaves it.
pub data Ending : Type 0 where
  returns raises : Ending

-- The actions taken so far, and whether the function goes on.
abbrev pub Run : Type 0
Run = List Action × Ending

infixr 5 ◌then_run◌
unfoldable pub ◌then_run◌ : Run → Run → Run
(actions, returns) then_run (more, ending) = (actions ++ more, ending)
(actions, raises) then_run rest = (actions, raises)

abbrev pub signals : Action → GroupAnswer → Run
signals action refused = (action ∷ [], raises)
signals action sent = (action ∷ [], returns)
signals action gone = (action ∷ [], returns)

abbrev pub kills : KillSent → Run
kills killed = (kill ∷ [], returns)
kills kill_error = (kill ∷ [], raises)

-- The first wait, whose timeout is caught.
abbrev pub waits_gently : WaitAnswer → Run
waits_gently broken = (wait 3 ∷ [], raises)
waits_gently reaped = (wait 3 ∷ [], returns)
waits_gently timeout_expired = (wait 3 ∷ [], returns)

abbrev pub waits_last : WaitAnswer → Run
waits_last reaped = (wait 5 ∷ [], returns)
waits_last timeout_expired = (wait 5 ∷ [], raises)
waits_last broken = (wait 5 ∷ [], raises)

-- The two waits behind the signals.
unfoldable pub reap : WaitAnswer → KillSent → WaitAnswer → Run
unfolding ◌then_run◌
reap reaped hard last = (wait 5 ∷ [], returns)
reap broken hard last = (wait 5 ∷ [], raises)
reap timeout_expired hard last = (wait 5 ∷ [], returns) then_run kills hard then_run waits_last last

abbrev pub kills_tree : TaskkillAnswer → Run
kills_tree ran = (taskkill ∷ [], returns)
kills_tree over = (taskkill ∷ [], returns)
kills_tree (alive killed) = (taskkill ∷ kill ∷ [], returns)
kills_tree (alive kill_error) = (taskkill ∷ kill ∷ [], raises)
kills_tree taskkill_error = (taskkill ∷ [], raises)

unfoldable pub terminate_process_tree : Platform → WaitAnswer → KillSent → WaitAnswer → Run
unfolding reap ◌then_run◌
terminate_process_tree (nt answer) first hard last = kills_tree answer then_run reap first hard last
terminate_process_tree (posix term gentle kill_group) first hard last =
    signals killpg_term term
    then_run waits_gently gentle
    then_run signals killpg_kill kill_group
    then_run reap first hard last
