-- ===== src/Process/Watch/Liveness.antt =====
-- Which processes the wait gives up, and which not.
use repository_quality_guard.Prelude.{
  ℕ, ◌+◌, ◌<◌, ◌≤◌, ◌≡◌, ◌≢◌, ◌∙◌, ap, refl, Bool, true, false, not, ◌&&◌, ◌||◌, List, [], ◌∷◌, map,
  Option, none, some, all, any, ◌-◌, arith, leb, eqb, Bool-cases, inl, inr, is_some,
}
use repository_quality_guard.Prelude.Options.{Option-cases, none_of_not_some}
use repository_quality_guard.Prelude.Integers.{ℤ}
use repository_quality_guard.Process.Watch.{
  Beat, Probe, running, Watch, Progress, stalled, watch, observe_beat, is_stalled, is_active,
  no_progress, value_error, conclude, at_start, wait_for_active_process,
}

-- A beat with progress is no stall.
active_beat :
    (stall_timeout : ℕ) (s : Watch) (b : Beat)
    → 0 < stall_timeout
    → is_active s b ≡ true
    → is_stalled stall_timeout (observe_beat s b) b ≡ false
unfolding observe_beat is_stalled
active_beat stall_timeout s b pos active = rw active (ground (arith, pos))

is_active_of_more :
    (s : Watch) (b : Beat) (c c' : ℕ)
    → s.previous_cpu ≡ some c
    → b.cpu ≡ some c'
    → c < c'
    → is_active s b ≡ true
unfolding is_active
is_active_of_more s b c c' now reads more = rw (now, reads) (ground (arith, more))

observe_beat-cpu :
    (s : Watch) (b : Beat) (c : ℕ) → b.cpu ≡ some c → (observe_beat s b).previous_cpu ≡ some c
unfolding observe_beat
observe_beat-cpu s b c reads = rw reads refl

-- The CPU time grows from beat to beat, the first from `c` on.
abbrev pub Grows : ℕ → List Beat → Type 0
Grows c [] = Unit
Grows c (b ∷ bs) = (c' : ℕ) × ((b.cpu ≡ some c') × ((c < c') × Grows c' bs))

Grows-watch :
    (stall_timeout c : ℕ) (s : Watch) (beats : List Beat) (idle : ℕ)
    → 0 < stall_timeout
    → s.previous_cpu ≡ some c
    → Grows c beats
    → watch stall_timeout s (map running beats) ≢ stalled idle
unfolding watch
Grows-watch stall_timeout c s [] idle pos now h e = cc
Grows-watch stall_timeout c s (b ∷ bs) idle pos now (c', (reads, (more, rest))) e =
    let quiet = active_beat stall_timeout s b pos (is_active_of_more s b c c' now reads more) in
    Grows-watch stall_timeout c' (observe_beat s b) bs idle pos (observe_beat-cpu s b c' reads) rest
      (rw quiet at e)

-- The CPU time cannot be read.
silent-watch :
    (stall_timeout : ℕ) (s : Watch) (beats : List Beat) (idle : ℕ)
    → all (λ (b : Beat). not (is_some b.cpu)) beats ≡ true
    → watch stall_timeout s (map running beats) ≢ stalled idle
unfolding watch is_stalled
silent-watch stall_timeout s [] idle h e = cc
silent-watch stall_timeout s (b ∷ bs) idle h e =
    let blind : is_some b.cpu ≡ false = ground (arith, h) in
    silent-watch stall_timeout (observe_beat s b) bs idle (ground (arith, h)) (rw blind at e)

-- A beat with the CPU time `c` and no log.
abbrev pub is_idle : ℕ → Beat → Bool
is_idle c b = elim b.cpu [ some c' ↦ eqb c' c | none ↦ false ] && not (is_some b.log)

idle-reads : (c : ℕ) (b : Beat) → is_idle c b ≡ true → (b.cpu ≡ some c) × (b.log ≡ none)
idle-reads c b h = elim (Option-cases b.cpu) [
  | inl blind ↦ let off : (false && not (is_some b.log)) ≡ true = rw blind at h in cc
  | inr (c', reads) ↦
      let both : (eqb c' c && not (is_some b.log)) ≡ true = rw reads at h in
      let same : c' ≡ c = ground (arith, both) in
      (reads ∙ ap some same, none_of_not_some b.log (ground (arith, both)))
]

idle_beat :
    (s : Watch) (b : Beat) (c : ℕ)
    → s.previous_cpu ≡ some c
    → b.cpu ≡ some c
    → b.log ≡ none
    → (observe_beat s b).last_progress ≡ s.last_progress
unfolding observe_beat is_active
idle_beat s b c now reads quiet = rw (now, reads, quiet) (ground arith)

idle_stalls :
    (stall_timeout : ℕ) (s : Watch) (b : Beat) (c : ℕ)
    → b.cpu ≡ some c
    → is_stalled stall_timeout s b ≡ leb stall_timeout (b.now - s.last_progress)
unfolding is_stalled
idle_stalls stall_timeout s b c reads = rw reads refl

idle-watch :
    (stall_timeout c : ℕ) (s : Watch) (beats : List Beat)
    → 0 < stall_timeout
    → s.previous_cpu ≡ some c
    → all (is_idle c) beats ≡ true
    → any (λ (b : Beat). leb (s.last_progress + stall_timeout) b.now) beats ≡ true
    → (idle : ℕ) × ((stall_timeout ≤ idle)
        × (watch stall_timeout s (map running beats) ≡ stalled idle))
unfolding watch
idle-watch stall_timeout c s [] pos now h late = cc
idle-watch stall_timeout c s (b ∷ bs) pos now h late =
    let (reads, quiet) = idle-reads c b (ground (arith, h)) in
    let same = idle_beat s b c now reads quiet in
    elim (Bool-cases (leb (s.last_progress + stall_timeout) b.now)) [
      | inl here ↦
          let long : stall_timeout ≤ b.now - (observe_beat s b).last_progress =
            ground (arith, here, same) in
          let stalls : is_stalled stall_timeout (observe_beat s b) b ≡ true =
            idle_stalls stall_timeout (observe_beat s b) b c reads ∙ ground (arith, long) in
          (b.now - (observe_beat s b).last_progress, (long, rw stalls refl))
      | inr not_here ↦
          let calm : is_stalled stall_timeout (observe_beat s b) b ≡ false =
            idle_stalls stall_timeout (observe_beat s b) b c reads
            ∙ ground (arith, not_here, same, pos) in
          let (idle, (le, gives_up)) =
            idle-watch stall_timeout c (observe_beat s b) bs pos (observe_beat-cpu s b c reads)
              (ground (arith, h)) (rw same (ground (arith, late, not_here))) in
          (idle, (le, rw calm gives_up))
    ]

conclude-no_progress :
    (code : Option ℤ) (p : Progress) (idle : ℕ)
    → conclude code p ≡ no_progress idle
    → p ≡ stalled idle
conclude-no_progress none Progress.ended idle h = cc
conclude-no_progress (some n) Progress.ended idle h = cc
conclude-no_progress none (stalled i) idle h = cc
conclude-no_progress (some n) (stalled i) idle h = cc
conclude-no_progress none (Progress.watching s) idle h = cc
conclude-no_progress (some n) (Progress.watching s) idle h = cc

conclude-stalled : (code : Option ℤ) (idle : ℕ) → conclude code (stalled idle) ≡ no_progress idle
conclude-stalled none idle = refl
conclude-stalled (some n) idle = refl

-- What it takes to give a process up: valid times, and a stalled loop.
gives_up :
    (stall_timeout heartbeat_interval started : ℕ) (cpu : Option ℕ) (code : Option ℤ)
    (probes : List Probe) (idle : ℕ)
    → wait_for_active_process stall_timeout heartbeat_interval started cpu code probes
      ≡ no_progress idle
    → (0 < stall_timeout) × (watch stall_timeout (at_start started cpu) probes ≡ stalled idle)
unfolding wait_for_active_process
gives_up stall_timeout heartbeat_interval started cpu code probes idle h =
    elim (Bool-cases (eqb stall_timeout 0 || eqb heartbeat_interval 0)) [
      | inl bad ↦ let refused : value_error ≡ no_progress idle = rw bad at h in cc
      | inr good ↦ (ground (arith, good), conclude-no_progress code _ idle (rw good at h))
    ]

-- A process whose CPU time grows from one round to the next is never given up, however long it runs.
pub wait_for_active_process-ne-no_progress :
    (stall_timeout heartbeat_interval started c idle : ℕ) (code : Option ℤ) (beats : List Beat)
    → Grows c beats
    → wait_for_active_process stall_timeout heartbeat_interval started
        (some c)
        code
        (map running beats)
      ≢ no_progress idle
wait_for_active_process-ne-no_progress stall_timeout heartbeat_interval started c idle code beats
      grows e =
    let (pos, stalls) =
      gives_up stall_timeout heartbeat_interval started (some c) code (map running beats) idle e in
    Grows-watch stall_timeout c _ beats idle pos refl grows stalls

-- A process whose CPU time cannot be read is never given up.
pub wait_of_unobservable :
    (stall_timeout heartbeat_interval started idle : ℕ) (cpu : Option ℕ) (code : Option ℤ)
    (beats : List Beat)
    → all (λ (b : Beat). not (is_some b.cpu)) beats ≡ true
    → wait_for_active_process stall_timeout heartbeat_interval started cpu code (map running beats)
      ≢ no_progress idle
wait_of_unobservable stall_timeout heartbeat_interval started idle cpu code beats blind e =
    let (_, stalls) =
      gives_up stall_timeout heartbeat_interval started cpu code (map running beats) idle e in
    silent-watch stall_timeout _ beats idle blind stalls

-- A process that runs on with one CPU time and no log is given up by the first round at which the
-- clock shows the stall timeout since the start, and the reported idle time is at least that.
pub wait_of_idle :
    (stall_timeout heartbeat_interval started c : ℕ) (code : Option ℤ) (beats : List Beat)
    → 0 < stall_timeout
    → 0 < heartbeat_interval
    → all (is_idle c) beats ≡ true
    → any (λ (b : Beat). leb (started + stall_timeout) b.now) beats ≡ true
    → (idle : ℕ) × ((stall_timeout ≤ idle)
        × (wait_for_active_process stall_timeout heartbeat_interval started
              (some c)
              code
              (map running beats)
            ≡ no_progress idle))
unfolding wait_for_active_process
wait_of_idle stall_timeout heartbeat_interval started c code beats pos beat idle late =
    let (time, (le, stalls)) =
      idle-watch stall_timeout c (at_start started (some c)) beats pos refl idle late in
    let good : (eqb stall_timeout 0 || eqb heartbeat_interval 0) ≡ false =
      ground (arith, pos, beat) in
    (time, (le, rw (good, stalls) (conclude-stalled code time)))
