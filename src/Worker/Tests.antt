-- ===== src/Worker/Tests.antt =====
-- The theorem on the baseline task for a run whose worker fails.
use repository_quality_guard.Prelude.{ℕ, ◌≡◌, refl, true, [], none}
use repository_quality_guard.Worker.{
  Task, World, CloseAnswer, StartAnswer, new_task, start, close, returns,
}
use repository_quality_guard.Worker.Resources.{created, started, close-empty}

abbrev well : CloseAnswer
well = record { terminates = true; removes = true }

abbrev nothing : World
nothing = record { processes = []; directories = [] }

-- The task behind a `start` that made a directory and a worker.
abbrev running : Task ℕ
running = (start "HEAD" "HEAD" none (StartAnswer.worker 1 2) new_task nothing).1

abbrev alive : World
alive = (start {A = ℕ} "HEAD" "HEAD" none (StartAnswer.worker 1 2) new_task nothing).2

closes : (close well running alive).0 ≡ returns
unfolding close start
closes = refl

close-empty_example :
    ((close well running alive).2.processes ≡ []) × ((close well running alive).2.directories ≡ [])
close-empty_example =
    close-empty running alive well (started "HEAD" "HEAD" none (StartAnswer.worker 1 2) created)
      closes
