-- ===== src/Process/Command/Deadline.antt =====
-- The deadline of a bounded command, and when its process tree is terminated.
use repository_quality_guard.Prelude.{
  sym, String, ℕ, zero, suc, subst, some_inj, ◌||◌, eqb, ◌+◌, ◌-◌, ◌≤◌, ◌<◌, ◌≡◌, ◌⊎◌, inl, inr,
  refl, Bool, true, false, List, [], ◌∷◌, Option, none, some, all, any, arith, leb, Bool-cases,
}
use repository_quality_guard.Prelude.Integers.{pos, negsuc}
use repository_quality_guard.Process.Tree.{
  Run, GroupAnswer, WaitAnswer, KillSent, posix, returns, raises, terminate_process_tree,
}
use repository_quality_guard.Process.Tree.Reaped.{IsGone, terminate_process_tree-IsGone}
use repository_quality_guard.Process.Command.{
  termination_error, terminate_behind, launched, Round, Answer, Pending, pending, finished,
  interrupted, passed_on, is_invalid, Limits, State, Ended, output, timeout_expired, no_progress,
  unfinished, Call, remaining, is_expired, interval, communicate_loop, observe_process, is_stalled,
  clean_up, run_bounded_command,
}

-- The wait of a round never goes beyond the deadline, and it waits for some time, unless the deadline
-- has passed. The clock must not stand before the start.
pub interval-le :
    (limits : Limits) (started now timeout : ℕ)
    → limits.timeout ≡ some timeout
    → started ≤ now
    → 0 < limits.heartbeat_interval
    → is_expired (remaining limits started now) ≡ false
    → (0 < interval limits (remaining limits started now))
      × (now + interval limits (remaining limits started now) ≤ started + timeout)
unfolding interval remaining
interval-le limits started now timeout given le beat left = rw given (grind (arith, le, beat, left))

abbrev is_pending_answer : Answer → Bool
is_pending_answer (pending p) = true
is_pending_answer _ = false

abbrev pub is_pending : Round → Bool
is_pending r = is_pending_answer r.answer

pending-eq : (a : Answer) → is_pending_answer a ≡ true → (p : Pending) × (a ≡ pending p)
pending-eq (pending p) h = (p, refl)
pending-eq (finished out errors code) h = cc
pending-eq interrupted h = cc

expired_of_late :
    (limits : Limits) (started now timeout : ℕ)
    → limits.timeout ≡ some timeout
    → started + timeout ≤ now
    → is_expired (remaining limits started now) ≡ true
unfolding remaining
expired_of_late limits started now timeout given late = rw given (grind (arith, late))

-- Once the clock shows the deadline, a command that goes on and on has ended: by the deadline, or by
-- a stall before it.
pub communicate_loop_ends :
    (limits : Limits) (started timeout : ℕ) (s : State) (rounds : List Round)
    → limits.timeout ≡ some timeout
    → all is_pending rounds ≡ true
    → any (λ (r : Round). leb (started + timeout) r.now) rounds ≡ true
    → (communicate_loop limits started s rounds ≡ timeout_expired)
      ⊎ ((idle : ℕ) × (communicate_loop limits started s rounds ≡ no_progress idle))
unfolding communicate_loop
communicate_loop_ends limits started timeout s [] given h late = cc
communicate_loop_ends limits started timeout s (r ∷ rounds) given h late =
    elim (Bool-cases (is_expired (remaining limits started r.now))) [
      | inl expired ↦ rw expired (inl refl)
      | inr left ↦
          let (p, at) = pending-eq r.answer (ground (arith, h)) in
          let early : leb (started + timeout) r.now ≡ false =
            grind (arith, left, expired_of_late limits started r.now timeout given) in
          elim (Bool-cases (is_stalled limits (observe_process s p) p)) [
            | inl stalls ↦
                rw (left, at, stalls) (inr (p.now - (observe_process s p).last_progress, refl))
            | inr calm ↦
                rw (left, at, calm)
                  (communicate_loop_ends limits started timeout (observe_process s p) rounds given
                    (ground (arith, h)) (ground (arith, late, early)))
          ]
    ]

abbrev IsSuccess : Ended → Type 0
IsSuccess e = (out : String) × ((errors : String) × (e ≡ output out errors (pos 0)))

-- The call has an end, other than a success or an error of the termination.
abbrev pub IsFailure : Ended → Type 0
IsFailure (output out errors (pos zero)) = ⊥
IsFailure (unfinished s) = ⊥
IsFailure termination_error = ⊥
IsFailure _ = Unit

terminate_behind-failed :
    (run : Run) (e : Ended)
    → IsFailure (terminate_behind run e).ended
    → (run.1 ≡ returns) × ((terminate_behind run e).actions ≡ run.0)
unfolding terminate_behind
terminate_behind-failed (actions, returns) e h = (refl, refl)
terminate_behind-failed (actions, raises) e h = absurd h

clean_up-failed :
    (run : Run) (e : Ended)
    → IsFailure (clean_up run e).ended
    → (run.1 ≡ returns) × ((clean_up run e).actions ≡ run.0)
unfolding clean_up
clean_up-failed run (output out errors (pos zero)) h = absurd h
clean_up-failed run (output out errors (pos (suc n))) h = terminate_behind-failed run _ h
clean_up-failed run (output out errors (negsuc n)) h = terminate_behind-failed run _ h
clean_up-failed run timeout_expired h = terminate_behind-failed run _ h
clean_up-failed run (no_progress idle) h = terminate_behind-failed run _ h
clean_up-failed run passed_on h = terminate_behind-failed run _ h
clean_up-failed run termination_error h = terminate_behind-failed run _ h
clean_up-failed run (unfinished s) h = absurd h

-- On POSIX, a bounded command whose process has been started and that has got to its loop leaves no
-- process behind where it fails: if the call has ended, not with exit status 0 and not with an error of
-- the termination itself, then SIGTERM and SIGKILL have gone to the group of the process, and one of the
-- two waits for the process has ended in time.
pub run_bounded_command-IsGone :
    (limits : Limits) (started : ℕ) (cpu : Option ℕ) (input_text : Option String)
    (rounds : List Round) (term kill_group : GroupAnswer) (gentle first : WaitAnswer)
    (hard : KillSent) (last : WaitAnswer) (call : Call)
    → run_bounded_command limits
        (launched started cpu)
        input_text
        rounds
        (terminate_process_tree (posix term gentle kill_group) first hard last)
      ≡ some call
    → IsFailure call.ended
    → IsGone (call.actions, returns) first last
unfolding run_bounded_command
run_bounded_command-IsGone limits started cpu input_text rounds term kill_group gentle first hard
      last call ran failed =
    let run = terminate_process_tree (posix term gentle kill_group) first hard last in
    elim (Bool-cases (
      is_invalid limits.timeout
      || is_invalid limits.stall_timeout
      || eqb limits.heartbeat_interval 0)) [
        | inl bad ↦ let off : none ≡ some call = rw bad at ran in cc
        | inr good ↦
            let is : some (clean_up run _) ≡ some call = rw good at ran in
            subst (λ (c : Call). IsFailure c.ended → IsGone (c.actions, returns) first last)
              (some_inj is)
              (λ f.
                let (back, did) = clean_up-failed run _ f in
                subst (λ actions. IsGone (actions, returns) first last) (sym did)
                  (terminate_process_tree-IsGone term kill_group gentle first hard last back))
              failed
      ]
