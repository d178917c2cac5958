-- ===== src/Maintenance/State.antt =====
-- backend/internal/governance/scheduler.go and
-- backend/internal/storage/postgres/governance_scheduler_repository.go: the scheduler-state rows
-- and the statements on them. A row's `updated_at`, which no code reads, is left out.
pub mod Laws
pub mod Due
use anchorix.Prelude.{
  ℕ, zero, suc, ◌+◌, Option, none, some, Bool, true, false, ◌&&◌, ◌||◌, List, [], ◌∷◌, leb, ltb,
  ◌==◌, if◌then◌else◌, Outcome, ok, err, take, filter,
}
use anchorix.Prelude.Int.{ℤ, pos, negsuc}
use anchorix.Prelude.Sort.{sort_stable}
use anchorix.Prelude.Text.{Text, text_eq, text_lt, is_empty}

pub data SchedulerJobStatus : Type 0 where
  pending running completed partial error : SchedulerJobStatus

pub record SchedulerJob : Type 0 where
  pub organization_id : Text
  pub job_name : Text
  pub enabled : Bool
  pub cursor : Text
  pub next_due_at : ℕ
  pub last_started_at : Option ℕ
  pub last_finished_at : Option ℕ
  pub last_status : SchedulerJobStatus
  pub last_error : Text
  pub consecutive_failures : ℕ

abbrev pub scheduler_cursor_start : Text
scheduler_cursor_start = []

pub data StateError : Type 0 where
  scheduler_job_not_found : StateError
  empty_organization_id : StateError
  empty_job_name : StateError
  limit_not_positive : StateError

abbrev pub Rows : Type 0
Rows = List SchedulerJob

-- the primary key of the table
abbrev pub is_row : Text → Text → SchedulerJob → Bool
is_row org job r = text_eq r.organization_id org && text_eq r.job_name job

unfoldable pub find_job : Text → Text → Rows → Option SchedulerJob
find_job org job [] = none
find_job org job (r ∷ rs) =
    let rest = find_job org job rs in if is_row org job r then some r else rest

unfoldable pub load_job_state : Text → Text → Rows → Outcome StateError SchedulerJob
load_job_state org job rows = elim (find_job org job rows) [
  | none ↦ err StateError.scheduler_job_not_found
  | some r ↦ ok r
]

-- a new row is seeded disabled; an existing one is left alone
unfoldable pub upsert_job : Text → Text → ℕ → Rows → Outcome StateError Rows
upsert_job org job initial_next_due_at rows =
    if is_empty org
    then err StateError.empty_organization_id
    else if is_empty job
    then err StateError.empty_job_name
    else elim (find_job org job rows) [
      | some _ ↦ ok rows
      | none ↦ ok (
          record {
            organization_id = org;
            job_name = job;
            enabled = false;
            cursor = scheduler_cursor_start;
            next_due_at = initial_next_due_at;
            last_started_at = none;
            last_finished_at = none;
            last_status = SchedulerJobStatus.pending;
            last_error = [];
            consecutive_failures = 0;
          }
          ∷ rows)
    ]

-- the order of the due selection
unfoldable pub due_less : SchedulerJob → SchedulerJob → Bool
due_less a b =
    if ltb a.next_due_at b.next_due_at
    then true
    else if ltb b.next_due_at a.next_due_at
    then false
    else if text_lt a.organization_id b.organization_id
    then true
    else if text_lt b.organization_id a.organization_id
    then false
    else text_lt a.job_name b.job_name

abbrev pub is_due : ℕ → SchedulerJob → Bool
is_due now r = r.enabled && leb r.next_due_at now

unfoldable pub list_due_jobs : ℕ → ℤ → Rows → Outcome StateError Rows
list_due_jobs now (negsuc _) rows = err StateError.limit_not_positive
list_due_jobs now (pos zero) rows = err StateError.limit_not_positive
list_due_jobs now (pos (suc n)) rows =
    ok (take (suc n) (sort_stable due_less (filter (is_due now) rows)))

-- a single-row UPDATE; no row matched is an error
unfoldable pub update_row : Text → Text → (SchedulerJob → SchedulerJob) → Rows → Rows
update_row org job f [] = []
update_row org job f (r ∷ rs) =
    let rest = update_row org job f rs in if is_row org job r then f r ∷ rs else r ∷ rest

unfoldable pub exec_mark :
    Text → Text → (SchedulerJob → SchedulerJob) → Rows → Outcome StateError Rows
exec_mark org job f rows = elim (find_job org job rows) [
  | none ↦ err StateError.scheduler_job_not_found
  | some _ ↦ ok (update_row org job f rows)
]

abbrev pub set_started : ℕ → SchedulerJob → SchedulerJob
set_started at r = record r { last_status = SchedulerJobStatus.running; last_started_at = some at }

abbrev pub set_completed : Text → ℕ → ℕ → SchedulerJob → SchedulerJob
set_completed cursor finished next_due r = record r {
  last_status = SchedulerJobStatus.completed;
  cursor = cursor;
  last_finished_at = some finished;
  next_due_at = next_due;
  consecutive_failures = 0;
  last_error = [];
}

abbrev pub set_partial : Text → ℕ → ℕ → SchedulerJob → SchedulerJob
set_partial cursor finished next_due r = record r {
  last_status = SchedulerJobStatus.partial;
  cursor = cursor;
  last_finished_at = some finished;
  next_due_at = next_due;
  consecutive_failures = 0;
  last_error = [];
}

-- the cursor is left where it was
abbrev pub set_failed : Text → ℕ → ℕ → SchedulerJob → SchedulerJob
set_failed redacted finished next_due r = record r {
  last_status = SchedulerJobStatus.error;
  last_finished_at = some finished;
  next_due_at = next_due;
  consecutive_failures = r.consecutive_failures + 1;
  last_error = redacted;
}

unfoldable pub mark_job_started : Text → Text → ℕ → Rows → Outcome StateError Rows
mark_job_started org job at rows = exec_mark org job (set_started at) rows

unfoldable pub mark_job_completed : Text → Text → Text → ℕ → ℕ → Rows → Outcome StateError Rows
mark_job_completed org job cursor finished next_due rows =
    exec_mark org job (set_completed cursor finished next_due) rows

unfoldable pub mark_job_partial : Text → Text → Text → ℕ → ℕ → Rows → Outcome StateError Rows
mark_job_partial org job cursor finished next_due rows =
    exec_mark org job (set_partial cursor finished next_due) rows

unfoldable pub mark_job_failed : Text → Text → Text → ℕ → ℕ → Rows → Outcome StateError Rows
mark_job_failed org job redacted finished next_due rows =
    exec_mark org job (set_failed redacted finished next_due) rows
