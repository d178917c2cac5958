-- ===== src/Maintenance/Tests.antt =====
-- Runs of the registry, the state rows and the runner on concrete jobs.
use anchorix.Prelude.Sort.{sort_stable}
use anchorix.Prelude.{
  ℕ, ◌≡◌, ◌↔◌, refl, ◌+◌, ◌-◌, ◌*◌, ◌^◌, min, Option, none, some, true, false, List, [], ◌∷◌, ok,
  err, arith, ◌==◌, length,
}
use anchorix.Prelude.Text.{Text, codes, is_empty, text_eq}
use anchorix.Prelude.Int.{pos}
use mathlib.Core.List.{Memᴰ}
use anchorix.Maintenance.State.{
  SchedulerJob, SchedulerJobStatus, find_job, list_due_jobs, due_less, exec_mark,
  mark_job_completed, mark_job_started, update_row, is_due, set_partial, mark_job_partial,
}
use anchorix.Maintenance.State.Due.{Selected, list_due_jobs-Selected, mark_job_partial-behind}
use anchorix.Maintenance.Registry.{
  PageResult, Job, JobRegistry, new_job_registry, find_in, lookup_job,
}
use anchorix.Maintenance.Registry.Laws.{lookup_job-resolves}
use anchorix.Maintenance.Backoff.{signed_lt, backoff_for, backoff_for-eq, backoff_for_overflows}
use anchorix.Maintenance.Runner.{
  Runner, RunnerConfig, World, run_due_job, RunOutcome, finish_completed, handle_page, page_loop,
  page_round, persist, run_locked, run_pages,
}
use anchorix.Maintenance.Runner.Bounds.{Within}
use anchorix.Maintenance.Runner.Due.{Runs, run_due_job-Runs, run_due_job-Within}

-- a job that is drained by its second page
abbrev page_of : ℕ → PageResult
page_of k = record { next_cursor = codes "c"; done = k == 1; items_scanned = 10; items_changed = 3 }

abbrev sweep : Job
sweep = record { name = codes "sweep"; run_page = λ k org cursor limits. ok (page_of k) }

abbrev prune : Job
prune = record { name = codes "prune"; run_page = λ k org cursor limits. err (codes "down") }

abbrev both : JobRegistry
both = record { jobs = (codes "prune", prune) ∷ (codes "sweep", sweep) ∷ [] }

abbrev jobs : List (Option Job)
jobs = some sweep ∷ some prune ∷ []

lookup_job-resolves_example :
    (lookup_job both (codes "sweep") ≡ some sweep)
    ↔ ((sweep.name ≡ codes "sweep") × Memᴰ (some sweep) jobs)
unfolding new_job_registry is_empty find_in text_eq
lookup_job-resolves_example = lookup_job-resolves jobs both refl (codes "sweep") sweep

backoff_for-eq_example : backoff_for 1000 60000 4 ≡ min 60000 (1000 * 2 ^ (4 - 1))
backoff_for-eq_example = backoff_for-eq 1000 60000 4 (omega arith) (omega arith)

backoff_for_overflows_example : signed_lt (backoff_for (2 ^ 62) (2 ^ 62 + 1) 2) 0 ≡ true
backoff_for_overflows_example = backoff_for_overflows (2 ^ 62 + 1) (omega arith) (omega arith)

abbrev config : RunnerConfig
config = record {
  max_pages_per_run = 5;
  max_run_duration = 1000;
  page_size = 100;
  partial_requeue_delay = 50;
  job_interval = 600;
  retry_base = 10;
  retry_max = 80;
}

abbrev runner : Runner
runner = record {
  registry = both;
  cfg = config;
  clock = λ k. 2000 + k;
  cancelled = λ k. false;
  lock_key = λ org job. length org + length job;
}

abbrev state_of : Text → ℕ → SchedulerJob
state_of job due = record {
  organization_id = codes "org";
  job_name = job;
  enabled = true;
  cursor = [];
  next_due_at = due;
  last_started_at = none;
  last_finished_at = none;
  last_status = SchedulerJobStatus.pending;
  last_error = [];
  consecutive_failures = 1;
}

abbrev world : World
world = record {
  rows = state_of (codes "prune") 1900 ∷ state_of (codes "sweep") 1800 ∷ [];
  locks = 1 ∷ [];
  clock_reads = 0;
  ctx_looks = 0;
  page_calls = 0;
}

run_due_job-Runs_example :
    Runs runner sweep
      (state_of (codes "sweep") 1800)
      world
      (run_due_job runner (state_of (codes "sweep") 1800) world)
unfolding lookup_job find_job text_eq is_empty
run_due_job-Runs_example =
    run_due_job-Runs runner (state_of (codes "sweep") 1800) world sweep
      (state_of (codes "sweep") 1800) refl refl refl refl

run_due_job-Within_example :
    Within 5 0 (1 ∷ []) 0 (run_due_job runner (state_of (codes "prune") 1900) world)
run_due_job-Within_example = run_due_job-Within runner (state_of (codes "prune") 1900) world

-- the row that is due longest comes first
due_rows : list_due_jobs 2000 (pos 1) world.rows ≡ ok (state_of (codes "sweep") 1800 ∷ [])
unfolding list_due_jobs sort_stable due_less
due_rows = refl

list_due_jobs-Selected_example : Selected 2000 1 world.rows (state_of (codes "sweep") 1800 ∷ [])
unfolding list_due_jobs
list_due_jobs-Selected_example =
    list_due_jobs-Selected 2000 0 world.rows (state_of (codes "sweep") 1800 ∷ []) due_rows

-- the rows behind a partial run of the first job
abbrev rearmed : List SchedulerJob
rearmed =
    set_partial (codes "c") 2000 2050 (state_of (codes "prune") 1900)
    ∷ state_of (codes "sweep") 1800
    ∷ []

mark_job_partial-behind_example :
    (row : SchedulerJob) × (find_job (codes "org") (codes "prune") rearmed ≡ some row)
    × (is_due 2000 row ≡ false)
    × ((other : SchedulerJob) → is_due 2000 other ≡ true → due_less other row ≡ true)
unfolding mark_job_partial exec_mark find_job text_eq update_row
mark_job_partial-behind_example =
    mark_job_partial-behind (codes "org") (codes "prune") (codes "c") 2000 50 world.rows rearmed
      (omega arith) refl

-- two pages drain the job
drained_report : (run_due_job runner (state_of (codes "sweep") 1800) world).report ≡ record {
  outcome = RunOutcome.completed;
  pages_run = 2;
  items_scanned = 20;
  items_changed = 6;
}
unfolding run_due_job lookup_job text_eq is_empty run_locked mark_job_started exec_mark find_job
    run_pages page_loop page_round handle_page finish_completed persist mark_job_completed
    update_row
drained_report = refl
