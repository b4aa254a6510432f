-- ===== src/Process/Alive.antt =====
-- process_lifecycle.py: `process_alive` and `_process_cpu_ticks`.
use repository_quality_guard.Prelude.{
  ℕ, zero, suc, ◌+◌, Bool, true, false, List, [], ◌∷◌, Option, none, some, eqb, if◌then◌else◌,
}
use repository_quality_guard.Prelude.Integers.{ℤ, pos, negsuc}

-- How `os.kill(pid, 0)` ends.
pub data KillAnswer : Type 0 where
  delivered process_lookup_error permission_error : KillAnswer

-- What the Windows calls answer: no handle, or a handle and the exit code, if that is told.
pub data HandleAnswer : Type 0 where
  no_handle : HandleAnswer
  exit_code : Option ℕ → HandleAnswer

pub data Host : Type 0 where
  nt : HandleAnswer → Host
  posix : KillAnswer → Host

abbrev pub is_still_active : Option ℕ → Bool
is_still_active none = false
is_still_active (some code) = eqb code 259

unfoldable pub process_alive : Host → ℤ → Bool
process_alive host (negsuc n) = false
process_alive host (pos zero) = false
process_alive (nt no_handle) (pos (suc n)) = false
process_alive (nt (exit_code code)) (pos (suc n)) = is_still_active code
process_alive (posix delivered) (pos (suc n)) = true
process_alive (posix process_lookup_error) (pos (suc n)) = false
process_alive (posix permission_error) (pos (suc n)) = true

-- An entry of `/proc` whose name is a number, if its `stat` can be read: the process group, and the
-- user and the system time.
pub record Stat : Type 0 where
  pub group : ℕ
  pub user : ℕ
  pub system : ℕ

-- The loop over the entries, with `total` and `observed`.
unfoldable pub sum_ticks : ℕ → List (Option Stat) → ℕ → Bool → Option ℕ
sum_ticks pid [] total observed = if observed then some total else none
sum_ticks pid (none ∷ entries) total observed = sum_ticks pid entries total observed
sum_ticks pid (some s ∷ entries) total observed =
    if eqb s.group pid
    then sum_ticks pid entries (total + (s.user + s.system)) true
    else sum_ticks pid entries total observed

-- `_process_cpu_ticks` on Linux
unfoldable pub process_cpu_ticks : ℕ → List (Option Stat) → Option ℕ
unfolding sum_ticks
process_cpu_ticks pid entries = sum_ticks pid entries 0 false
