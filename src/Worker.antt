-- ===== src/Worker.antt =====
-- The background scan of a Git baseline: runtime/src/baseline_parallel.py, `GitBaselineTask`, with the
-- processes and the directories that it has allocated. `A` is the pair of baselines.
pub mod Resources
mod Tests
use repository_quality_guard.Prelude.{
  String, ℕ, Bool, true, false, not, List, [], ◌∷◌, Option, none, some, ◌==◌, select, eqb, is_some,
  if◌then◌else◌,
}

-- The task's own fields.
pub record Task (A : Type 0) : Type 0 where
  pub revision : Option String
  pub cached : Option A
  pub directory : Option ℕ
  pub process : Option ℕ

-- What is alive outside: process groups and temporary directories, by their numbers.
pub record World : Type 0 where
  pub processes : List ℕ
  pub directories : List ℕ

-- How the allocations of `start` go: the directory cannot be made, the request cannot be written or
-- the worker not be started in it, or all of it works.
pub data StartAnswer : Type 0 where
  no_directory : StartAnswer
  no_worker : ℕ → StartAnswer
  worker : ℕ → ℕ → StartAnswer

-- How the wait for the worker and the reading of its files go: the wait raises, or the worker has
-- exited and its log or its result is read, or cannot be.
pub data ResultAnswer (A : Type 0) : Type 0 where
  gave_up : ResultAnswer A
  failed_with : ℕ → ResultAnswer A
  unreadable : ResultAnswer A
  baselines : A → ResultAnswer A

-- How `close` goes: whether `terminate_process_tree` and the removal of the directory return, where
-- they are called.
pub record CloseAnswer : Type 0 where
  pub terminates : Bool
  pub removes : Bool

pub data Outcome (A : Type 0) : Type 0 where
  raises : Outcome A
  returns : Outcome A
  returns_pair : A → Outcome A

abbrev without : ℕ → List ℕ → List ℕ
without n ns = select (λ m. not (eqb m n)) ns

-- Giving up what one field holds: whether it goes well, the field, and what is alive then.
unfoldable pub release : Bool → Option ℕ → List ℕ → Bool × Option ℕ × List ℕ
release ok none ns = (true, none, ns)
release true (some n) ns = (true, none, without n ns)
release false (some n) ns = (false, some n, ns)

abbrev pub is_revision : String → Option String → Bool
is_revision revision none = false
is_revision revision (some r) = revision == r

module _ {A : Type 0} where
  -- `__init__`
  abbrev pub new_task : Task A
  new_task = record { revision = none; cached = none; directory = none; process = none }

  -- `close`: the process first, then the directory.
  unfoldable pub close : CloseAnswer → Task A → World → Outcome A × Task A × World
  unfolding release
  close answer t w =
      let (ended, process, processes) = release answer.terminates t.process w.processes in
      let (cleaned, directory, directories) = release answer.removes t.directory w.directories in
      if ended
      then (
        if cleaned then returns else raises,
        record t { process = process; directory = directory },
        record w { processes = processes; directories = directories },
      )
      else (raises, t, w)

  -- The allocations of `start`, behind its tests.
  launch : StartAnswer → Task A → World → Outcome A × Task A × World
  launch no_directory t w = (raises, t, w)
  launch (no_worker d) t w =
      (raises, record t { directory = some d }, record w { directories = d ∷ w.directories })
  launch (worker d p) t w = (
    returns,
    record t { directory = some d; process = some p },
    record w { directories = d ∷ w.directories; processes = p ∷ w.processes },
  )

  -- `start`; `label` is `snapshot.label`.
  unfoldable pub start :
      String → String → Option A → StartAnswer → Task A → World → Outcome A × Task A × World
  unfolding launch
  start label revision cached answer t w =
      if is_some t.revision
      then (raises, t, w)
      else if not (label == revision)
      then (raises, t, w)
      else let t' = record t { revision = some revision; cached = cached } in
        if is_some cached then (returns, t', w) else launch answer t' w

  -- What the `try` block of `result` returns or raises.
  abbrev pub awaited : ResultAnswer A → Outcome A
  awaited (baselines a) = returns_pair a
  awaited _ = raises

  -- The `finally` clause: an error of `close` replaces what the block gave.
  abbrev finally : Outcome A → Outcome A → Outcome A
  finally outcome raises = raises
  finally outcome _ = outcome

  -- The part of `result` behind its tests.
  await : ResultAnswer A → CloseAnswer → Task A → World → Outcome A × Task A × World
  await answer closing t w =
      let (ended, t', w') = close closing t w in (finally (awaited answer) ended, t', w')

  unfoldable pub result :
      String → ResultAnswer A → CloseAnswer → Task A → World → Outcome A × Task A × World
  unfolding await
  result revision answer closing t w =
      if not (is_revision revision t.revision) then (raises, t, w) else elim t.cached [
        | some pair ↦ (returns_pair pair, t, w)
        | none ↦
            if is_some t.process
            then if is_some t.directory then await answer closing t w else (raises, t, w)
            else (raises, t, w)
      ]
