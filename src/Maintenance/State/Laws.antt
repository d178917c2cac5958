-- ===== src/Maintenance/State/Laws.antt =====
-- What a read of the state rows returns after a state transition, and the fairness of selection.
use anchorix.Prelude.{
  ℕ, ◌+◌, ◌≡◌, ◌≢◌, refl, ap, ◌∙◌, Option-cases, ◌⊎◌, inl, inr, Option, none, some, true, false, [],
  ◌∷◌, arith, ok,
}
use anchorix.Prelude.Text.{Text, text_eq_iff}
use anchorix.Prelude.Text.{text_lt_irrefl, text_lt_trans, text_lt_cotrans, text_lt_connex}
use anchorix.Maintenance.State.{
  SchedulerJob, SchedulerJobStatus, Rows, find_job, update_row, exec_mark, due_less, set_started,
  set_completed, set_partial, set_failed,
}

-- an update that keeps the primary key
abbrev pub KeepsKey : (SchedulerJob → SchedulerJob) → Type 0
KeepsKey f =
    (r : SchedulerJob) → ((f r).organization_id ≡ r.organization_id) × ((f r).job_name ≡ r.job_name)

abbrev pub map_some : (SchedulerJob → SchedulerJob) → Option SchedulerJob → Option SchedulerJob
map_some f none = none
map_some f (some r) = some (f r)

find-update :
    (org job : Text) (f : SchedulerJob → SchedulerJob)
    → KeepsKey f
    → (rows : Rows)
    → find_job org job (update_row org job f rows) ≡ map_some f (find_job org job rows)
unfolding find_job update_row
find-update org job f keeps [] = refl
find-update org job f keeps (r ∷ rs) = ground (arith, keeps r, find-update org job f keeps rs)

find-update_ne :
    (org job org' job' : Text) (f : SchedulerJob → SchedulerJob)
    → KeepsKey f
    → (org ≢ org') ⊎ (job ≢ job')
    → (rows : Rows) → find_job org' job' (update_row org job f rows) ≡ find_job org' job' rows
unfolding find_job update_row
find-update_ne org job org' job' f keeps ne [] = refl
find-update_ne org job org' job' f keeps ne (r ∷ rs) = ground (
  arith,
  keeps r,
  text_eq_iff r.organization_id org,
  text_eq_iff r.job_name job,
  text_eq_iff r.organization_id org',
  text_eq_iff r.job_name job',
  find-update_ne org job org' job' f keeps ne rs,
)

-- A state transition of one job changes the row of that job, which exists, and no other.
pub record MarkedBy (org job : Text) (f : SchedulerJob → SchedulerJob) (before after : Rows)
    : Type 0 where
  pub row : SchedulerJob
  pub was : find_job org job before ≡ some row
  pub becomes : find_job org job after ≡ some (f row)
  pub others :
      (org' job' : Text)
      → (org ≢ org') ⊎ (job ≢ job')
      → find_job org' job' after ≡ find_job org' job' before

pub exec_mark-MarkedBy :
    (org job : Text) (f : SchedulerJob → SchedulerJob)
    → KeepsKey f
    → (rows : Rows) {rows' : Rows} → exec_mark org job f rows ≡ ok rows'
    → MarkedBy org job f rows rows'
unfolding exec_mark
exec_mark-MarkedBy org job f keeps rows {rows'} e = elim (Option-cases (find_job org job rows)) [
  | inl missing ↦ absurd (ground arith)
  | inr (row, found) ↦ record {
    row = row;
    was = found;
    becomes = rw (updated row found) (find-update org job f keeps rows ∙ ap (map_some f) found);
    others =
        λ org' job' ne. rw (updated row found) (find-update_ne org job org' job' f keeps ne rows);
  }
]
  where
    updated :
        (row : SchedulerJob) → find_job org job rows ≡ some row → rows' ≡ update_row org job f rows
    updated row found = ground arith

pub due_less_irrefl : (a : SchedulerJob) → due_less a a ≡ false
unfolding due_less
due_less_irrefl a = ground (arith, text_lt_irrefl a.organization_id, text_lt_irrefl a.job_name)

pub due_less_trans :
    (a b c : SchedulerJob) → due_less a b ≡ true → due_less b c ≡ true → due_less a c ≡ true
unfolding due_less
due_less_trans a b c p q = ground (
  arith,
  text_lt_trans a.organization_id b.organization_id c.organization_id,
  text_lt_trans a.job_name b.job_name c.job_name,
  text_lt_cotrans a.organization_id c.organization_id b.organization_id,
  text_lt_cotrans b.organization_id a.organization_id c.organization_id,
  text_lt_connex a.organization_id b.organization_id,
  text_lt_connex b.organization_id c.organization_id,
)

pub exec_mark-found :
    (org job : Text) (f : SchedulerJob → SchedulerJob) (rows : Rows) {row : SchedulerJob}
    → find_job org job rows ≡ some row
    → exec_mark org job f rows ≡ ok (update_row org job f rows)
unfolding exec_mark
exec_mark-found org job f rows e = ground arith

-- A state transition of one job, which exists, leaves its row as `P` says, and no other changed.
pub record Changed (org job : Text) (P : SchedulerJob → SchedulerJob → Type 0) (before after : Rows)
    : Type 0 where
  pub row : SchedulerJob
  pub row' : SchedulerJob
  pub was : find_job org job before ≡ some row
  pub becomes : find_job org job after ≡ some row'
  pub shows : P row row'
  pub others :
      (org' job' : Text)
      → (org ≢ org') ⊎ (job ≢ job')
      → find_job org' job' after ≡ find_job org' job' before

pub MarkedBy-Changed :
    (org job : Text) (f : SchedulerJob → SchedulerJob) (P : SchedulerJob → SchedulerJob → Type 0)
    (before after : Rows)
    → ((r : SchedulerJob) → P r (f r))
    → MarkedBy org job f before after
    → Changed org job P before after
MarkedBy-Changed org job f P before after h m = record {
  row = m.row;
  row' = f m.row;
  was = m.was;
  becomes = m.becomes;
  shows = h m.row;
  others = m.others;
}

-- the columns that no transition sets
pub record SameJob (r r' : SchedulerJob) : Type 0 where
  pub organization : r'.organization_id ≡ r.organization_id
  pub job : r'.job_name ≡ r.job_name
  pub enabled : r'.enabled ≡ r.enabled

-- the row of a run that starts at `at`
pub record IsStarted (at : ℕ) (r r' : SchedulerJob) : Type 0 where
  pub same : SameJob r r'
  pub status : r'.last_status ≡ SchedulerJobStatus.running
  pub started : r'.last_started_at ≡ some at
  pub finished : r'.last_finished_at ≡ r.last_finished_at
  pub cursor : r'.cursor ≡ r.cursor
  pub due : r'.next_due_at ≡ r.next_due_at
  pub error : r'.last_error ≡ r.last_error
  pub failures : r'.consecutive_failures ≡ r.consecutive_failures

-- the row of a run that ends at `at`: its status and cursor, when it is due again, the error text,
-- and the failures in a row
pub record IsEnded (status : SchedulerJobStatus) (cursor : Text) (at due : ℕ) (error : Text)
    (failures : ℕ) (r r' : SchedulerJob) : Type 0 where
  pub same : SameJob r r'
  pub ended : r'.last_status ≡ status
  pub started : r'.last_started_at ≡ r.last_started_at
  pub finished : r'.last_finished_at ≡ some at
  pub resumes : r'.cursor ≡ cursor
  pub due_again : r'.next_due_at ≡ due
  pub said : r'.last_error ≡ error
  pub failed : r'.consecutive_failures ≡ failures

pub set_started-IsStarted : (at : ℕ) (r : SchedulerJob) → IsStarted at r (set_started at r)
set_started-IsStarted at r = ground arith

pub set_completed-IsEnded :
    (cursor : Text) (at due : ℕ) (r : SchedulerJob)
    → IsEnded SchedulerJobStatus.completed cursor at due [] 0 r (set_completed cursor at due r)
set_completed-IsEnded cursor at due r = ground arith

pub set_partial-IsEnded :
    (cursor : Text) (at due : ℕ) (r : SchedulerJob)
    → IsEnded SchedulerJobStatus.partial cursor at due [] 0 r (set_partial cursor at due r)
set_partial-IsEnded cursor at due r = ground arith

-- a failed run keeps the cursor and counts one failure more
pub set_failed-IsEnded :
    (e : Text) (at due : ℕ) (r : SchedulerJob)
    → IsEnded SchedulerJobStatus.error r.cursor at due e
        (r.consecutive_failures + 1)
        r
        (set_failed e at due r)
set_failed-IsEnded e at due r = ground arith
