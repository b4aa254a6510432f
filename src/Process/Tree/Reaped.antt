-- ===== src/Process/Tree/Reaped.antt =====
-- What the termination of a process tree has done once it returns.
use repository_quality_guard.Prelude.{◌≡◌, ◌⊎◌, inl, inr, refl, Member, here, there}
use repository_quality_guard.Process.Tree.{
  killpg_term, killpg_kill, GroupAnswer, sent, gone, refused, WaitAnswer, reaped, timeout_expired,
  broken, KillSent, killed, kill_error, posix, returns, terminate_process_tree, reap, ◌then_run◌,
  Run,
}

reap-reaped :
    (first : WaitAnswer) (hard : KillSent) (last : WaitAnswer)
    → (reap first hard last).1 ≡ returns
    → (first ≡ reaped) ⊎ (last ≡ reaped)
unfolding reap ◌then_run◌
reap-reaped reaped hard last h = inl refl
reap-reaped broken hard last h = cc
reap-reaped timeout_expired kill_error last h = cc
reap-reaped timeout_expired killed reaped h = inr refl
reap-reaped timeout_expired killed timeout_expired h = cc
reap-reaped timeout_expired killed broken h = cc

-- The calls to the group that a run has made, and a wait that has ended in time.
abbrev pub IsGone : Run → WaitAnswer → WaitAnswer → Type 0
IsGone run first last =
    Member killpg_term run.0 × Member killpg_kill run.0 × ((first ≡ reaped) ⊎ (last ≡ reaped))

-- Whenever it returns on POSIX, SIGTERM and SIGKILL have gone to the group and the leader is reaped.
pub terminate_process_tree-IsGone :
    (term kill_group : GroupAnswer) (gentle first : WaitAnswer) (hard : KillSent)
    (last : WaitAnswer)
    → (terminate_process_tree (posix term gentle kill_group) first hard last).1 ≡ returns
    → IsGone (terminate_process_tree (posix term gentle kill_group) first hard last) first last
unfolding terminate_process_tree ◌then_run◌
terminate_process_tree-IsGone refused kill_group gentle first hard last h = cc
terminate_process_tree-IsGone sent kill_group broken first hard last h = cc
terminate_process_tree-IsGone gone kill_group broken first hard last h = cc
terminate_process_tree-IsGone sent refused reaped first hard last h = cc
terminate_process_tree-IsGone sent refused timeout_expired first hard last h = cc
terminate_process_tree-IsGone gone refused reaped first hard last h = cc
terminate_process_tree-IsGone gone refused timeout_expired first hard last h = cc
terminate_process_tree-IsGone sent sent reaped first hard last h =
    (here, there (there here), reap-reaped first hard last h)
terminate_process_tree-IsGone sent sent timeout_expired first hard last h =
    (here, there (there here), reap-reaped first hard last h)
terminate_process_tree-IsGone sent gone reaped first hard last h =
    (here, there (there here), reap-reaped first hard last h)
terminate_process_tree-IsGone sent gone timeout_expired first hard last h =
    (here, there (there here), reap-reaped first hard last h)
terminate_process_tree-IsGone gone sent reaped first hard last h =
    (here, there (there here), reap-reaped first hard last h)
terminate_process_tree-IsGone gone sent timeout_expired first hard last h =
    (here, there (there here), reap-reaped first hard last h)
terminate_process_tree-IsGone gone gone reaped first hard last h =
    (here, there (there here), reap-reaped first hard last h)
terminate_process_tree-IsGone gone gone timeout_expired first hard last h =
    (here, there (there here), reap-reaped first hard last h)
