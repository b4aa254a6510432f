-- ===== src/Snapshot/Flight.antt =====
-- `scan_target_cached` and `_acquire_single_flight` as steps of processes that share the cache and the
-- lock directory of one repository. A process id names one process for ever. Removing a directory is one
-- step.
use repository_quality_guard.Prelude.{
  String, ℕ, ◌≡◌, Bool, true, false, List, ◌∷◌, Option, none, some, eqb, is_some, if◌then◌else◌,
}
use repository_quality_guard.Snapshot.{
  SnapshotKey, SnapshotStore, Loaded, hit, miss, load_error, load_snapshot, save_snapshot, File,
  put_file, temporary_path,
}

-- What a process returns, or `none` for an exception.
abbrev pub Returned : Type 0 → Type 0
Returned R = Option (R × String)

-- Where a process stands.
pub data Phase (R : Type 0) : Type 0 where
  -- before the first load
  starts : Phase R
  -- before `lock.mkdir`
  tries : Phase R
  -- behind a `mkdir` that failed
  occupied : Phase R
  -- with the owner that it has read
  sees : Option ℕ → Phase R
  -- with a directory that has no owner yet
  made : Phase R
  -- before the second load
  owns : Phase R
  -- in `_run_worker`
  scans : Phase R
  -- before `_save_snapshot`
  saves : R → String → Phase R
  -- in the `finally` of an owner
  leaves : Returned R → Phase R
  ends : Returned R → Phase R
  dead : Phase R

-- The scans that workers have completed, with their keys.
abbrev pub Scanned : Type 0 → Type 0
Scanned R = List (SnapshotKey × R × String)

pub record FlightWorld (R : Type 0) : Type 0 where
  pub store : SnapshotStore R
  -- whether the directory is there, and the process id in it, if it has one
  pub lock : Option (Option ℕ)
  pub phase : ℕ → Phase R
  pub running : ℕ → Bool
  pub scanned : Scanned R

abbrev pub set_at : {A : Type 0} → ℕ → A → (ℕ → A) → ℕ → A
set_at p a f q = if eqb q p then a else f q

abbrev pub move : {R : Type 0} → ℕ → Phase R → FlightWorld R → FlightWorld R
move p phase w = record w { phase = set_at p phase w.phase }

-- The owner in the directory, if both are there.
abbrev pub owner_of : Option (Option ℕ) → Option ℕ
owner_of none = none
owner_of (some owner) = owner

-- Nothing says that the lock is abandoned.
abbrev pub is_held : Option ℕ → (ℕ → Bool) → Bool
is_held none running = true
is_held (some owner) running = running owner

-- A report without an interface difference is refused.
abbrev pub with_diff : {R : Type 0} → (R → Bool) → R → String → Returned R
with_diff has_diff r revision = if has_diff r then some (r, revision) else none

module _ {R : Type 0} (digest : String → String) (separator root : String)
    (key_of : ℕ → SnapshotKey) (has_diff : R → Bool) where
  -- `_load_snapshot` for the key of a process
  abbrev pub load : ℕ → FlightWorld R → Loaded R
  load p w = load_snapshot digest separator root (key_of p) w.store

  pub data FlightStep : FlightWorld R → FlightWorld R → Type 0 where
    first_hit :
        {w : FlightWorld R} (p : ℕ) (r : R) (revision : String)
        → w.phase p ≡ starts
        → load p w ≡ hit r revision
        → FlightStep w (move p (ends (with_diff has_diff r revision)) w)
    first_miss :
        {w : FlightWorld R} (p : ℕ)
        → w.phase p ≡ starts
        → load p w ≡ miss
        → FlightStep w (move p tries w)
    first_error :
        {w : FlightWorld R} (p : ℕ)
        → w.phase p ≡ starts
        → load p w ≡ load_error
        → FlightStep w (move p (ends none) w)
    makes :
        {w : FlightWorld R} (p : ℕ)
        → w.phase p ≡ tries
        → w.lock ≡ none
        → FlightStep w (move p made (record w { lock = some none }))
    finds :
        {w : FlightWorld R} (p : ℕ)
        → w.phase p ≡ tries
        → is_some w.lock ≡ true
        → FlightStep w (move p occupied w)
    reads :
        {w : FlightWorld R} (p : ℕ)
        → w.phase p ≡ occupied
        → FlightStep w (move p (sees (owner_of w.lock)) w)
    gone :
        {w : FlightWorld R} (p : ℕ)
        → w.phase p ≡ sees none
        → w.lock ≡ none
        → FlightStep w (move p tries w)
    waits :
        {w : FlightWorld R} (p : ℕ) (owner : Option ℕ)
        → w.phase p ≡ sees owner
        → is_held owner w.running ≡ true
        → load p w ≡ miss
        → FlightStep w (move p tries w)
    reuses :
        {w : FlightWorld R} (p : ℕ) (owner : Option ℕ) (r : R) (revision : String)
        → w.phase p ≡ sees owner
        → is_held owner w.running ≡ true
        → load p w ≡ hit r revision
        → FlightStep w (move p (ends (with_diff has_diff r revision)) w)
    wait_error :
        {w : FlightWorld R} (p : ℕ) (owner : Option ℕ)
        → w.phase p ≡ sees owner
        → is_held owner w.running ≡ true
        → load p w ≡ load_error
        → FlightStep w (move p (ends none) w)
    writes_owner :
        {w : FlightWorld R} (p : ℕ)
        → w.phase p ≡ made
        → is_some w.lock ≡ true
        → FlightStep w (move p owns (record w { lock = some (some p) }))
    -- The directory has been taken away.
    loses :
        {w : FlightWorld R} (p : ℕ)
        → w.phase p ≡ made
        → w.lock ≡ none
        → FlightStep w (move p (ends none) w)
    second_hit :
        {w : FlightWorld R} (p : ℕ) (r : R) (revision : String)
        → w.phase p ≡ owns
        → load p w ≡ hit r revision
        → FlightStep w (move p (leaves (some (r, revision))) w)
    second_miss :
        {w : FlightWorld R} (p : ℕ)
        → w.phase p ≡ owns
        → load p w ≡ miss
        → FlightStep w (move p scans w)
    second_error :
        {w : FlightWorld R} (p : ℕ)
        → w.phase p ≡ owns
        → load p w ≡ load_error
        → FlightStep w (move p (leaves none) w)
    completes :
        {w : FlightWorld R} (p : ℕ) (r : R) (revision : String)
        → w.phase p ≡ scans
        → has_diff r ≡ true
        → FlightStep w
            (move p (saves r revision) (record w { scanned = (key_of p, r, revision) ∷ w.scanned }))
    scan_fails :
        {w : FlightWorld R} (p : ℕ) → w.phase p ≡ scans → FlightStep w (move p (leaves none) w)
    stores :
        {w : FlightWorld R} (p : ℕ) (r : R) (revision : String)
        → w.phase p ≡ saves r revision
        → FlightStep w (
            move p (leaves (some (r, revision))) (record w {
              store = save_snapshot digest separator root r revision (key_of p) p w.store;
            }))
    store_fails :
        {w : FlightWorld R} (p : ℕ) (r : R) (revision : String)
        → w.phase p ≡ saves r revision
        → FlightStep w (
            move p (leaves none) (record w {
              store = put_file (temporary_path digest separator root (key_of p) p) none w.store;
            }))
    -- `shutil.rmtree(lock)`, whether the directory is there or not
    releases :
        {w : FlightWorld R} (p : ℕ) (result : Returned R)
        → w.phase p ≡ leaves result
        → FlightStep w (move p (ends result) (record w { lock = none }))
    exits :
        {w : FlightWorld R} (p : ℕ) (result : Returned R)
        → w.phase p ≡ ends result
        → FlightStep w (record w { running = set_at p false w.running })
    -- What has been written of the temporary file stays.
    dies_writing :
        {w : FlightWorld R} (p : ℕ) (r : R) (revision : String) (left : Option (File R))
        → w.phase p ≡ saves r revision
        → FlightStep w (
            move p dead (record w {
              store = put_file (temporary_path digest separator root (key_of p) p) left w.store;
              running = set_at p false w.running;
            }))
    dies :
        {w : FlightWorld R} (p : ℕ)
        → FlightStep w (move p dead (record w { running = set_at p false w.running }))

  -- The lock is taken away as an abandoned one: its owner does not run, or the directory has had no
  -- owner for more than five seconds.
  pub data Removes : FlightWorld R → FlightWorld R → Type 0 where
    removes_dead :
        {w : FlightWorld R} (p owner : ℕ)
        → w.phase p ≡ sees (some owner)
        → w.running owner ≡ false
        → Removes w (move p tries (record w { lock = none }))
    removes_ownerless :
        {w : FlightWorld R} (p : ℕ)
        → w.phase p ≡ sees none
        → is_some w.lock ≡ true
        → Removes w (move p tries (record w { lock = none }))

  -- What the processes may do, with and without such removals.
  pub data Reach (w : FlightWorld R) : FlightWorld R → Type 0 where
    here : Reach w w
    next : {v u : FlightWorld R} → Reach w v → FlightStep v u → Reach w u
    removed : {v u : FlightWorld R} → Reach w v → Removes v u → Reach w u

  pub data Calm (w : FlightWorld R) : FlightWorld R → Type 0 where
    here : Calm w w
    next : {v u : FlightWorld R} → Calm w v → FlightStep v u → Calm w u
