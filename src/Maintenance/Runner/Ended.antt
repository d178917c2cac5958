-- ===== src/Maintenance/Runner/Ended.antt =====
-- maintenance/runner.go: the ways in which a run's page loop may end.
use anchorix.Prelude.{
  ℕ, ◌+◌, ◌≤◌, ◌<◌, ◌≡◌, none, true, false, List, [], ◌∷◌, Outcome, ok, err, length,
}
use anchorix.Prelude.Text.{Text}
use anchorix.Maintenance.State.{SchedulerJob, SchedulerJobStatus, Rows}
use anchorix.Maintenance.State.Laws.{Changed, IsEnded}
use anchorix.Maintenance.Registry.{PageResult, Job}
use anchorix.Maintenance.Backoff.{backoff_for, add_duration}
use anchorix.Maintenance.Runner.{Runner, RunReport, RunOutcome, World, Ran}

-- the sum of a count over pages
abbrev pub total : (PageResult → ℕ) → List PageResult → ℕ
total f [] = 0
total f (p ∷ ps) = f p + total f ps

-- the report of a run with the outcome `o` that adds the pages `ps` to `report`
pub record IsReport (o : RunOutcome) (report : RunReport) (ps : List PageResult) (out : RunReport)
    : Type 0 where
  pub outcome : out.outcome ≡ o
  pub pages : out.pages_run ≡ report.pages_run + length ps
  pub scanned : out.items_scanned ≡ report.items_scanned + total (λ p. p.items_scanned) ps
  pub changed : out.items_changed ≡ report.items_changed + total (λ p. p.items_changed) ps

module _ (r : Runner) where
  module _ (job : Job) (state : SchedulerJob) (deadline : ℕ) where
    abbrev pub call : ℕ → Text → Outcome Text PageResult
    call k cursor =
        job.run_page k state.organization_id cursor (record { page_size = r.cfg.page_size })

    -- at the `n`-th reading of the clock the deadline is to come, and at the `l`-th look at the
    -- context it is not cancelled
    abbrev pub IsLive : ℕ → ℕ → Type 0
    IsLive n l = (r.clock n < deadline) × (r.cancelled l ≡ false)

    -- Successful pages that are not the last, each made while the run was live and called with the
    -- cursor that the one before gave; `n`, `l` and `k` number the clock readings, the looks at the
    -- context and the page calls.
    pub data Chain : Text → ℕ → ℕ → ℕ → List PageResult → Text → ℕ → ℕ → ℕ → Type 0 where
      here : {c : Text} {n l k : ℕ} → Chain c n l k [] c n l k
      page :
          {c : Text} {n l k : ℕ} (p : PageResult) {ps : List PageResult} {c' : Text} {n' l' k' : ℕ}
          → IsLive n l
          → call k c ≡ ok p
          → p.done ≡ false
          → Chain p.next_cursor (n + 1) (l + 1) (k + 1) ps c' n' l' k'
          → Chain c n l k (p ∷ ps) c' n' l' k'

    -- the bound that is met after `pages` of `left` pages, and the clock reading `t` of the write
    pub data Stops (pages left n l t : ℕ) : Type 0 where
      all_pages : pages ≡ left → t ≡ r.clock n → Stops pages left n l t
      late : deadline ≤ r.clock n → t ≡ r.clock (n + 1) → Stops pages left n l t
      cancelled :
          r.clock n < deadline → r.cancelled l ≡ true → t ≡ r.clock (n + 1) → Stops pages left n l t

    abbrev Leaves : (SchedulerJob → SchedulerJob → Type 0) → Rows → Rows → Type 0
    Leaves P rows after = Changed state.organization_id state.job_name P rows after

    -- The three ways in which the loop ends, from the cursor `c` with `left` pages to go; the next
    -- clock reading, look at the context and page call are the `n`-th, `l`-th and `k`-th.
    pub data Ended (c : Text) (left : ℕ) (report : RunReport) (rows : Rows) (n l k : ℕ)
        (out : RunReport) (after : Rows) : Type 0 where
      -- a bound was met: the cursor of the last page is kept, and the job is due after the delay
      stopped :
          (ps : List PageResult) (c' : Text) (n' l' k' t : ℕ)
          → Chain c n l k ps c' n' l' k'
          → length ps ≤ left
          → Stops (length ps) left n' l' t
          → IsReport RunOutcome.partial report ps out
          → Leaves
              (IsEnded SchedulerJobStatus.partial c' t (t + r.cfg.partial_requeue_delay) [] 0)
              rows
              after
          → Ended c left report rows n l k out after
      -- the job is drained: the cursor goes back to the start, and the job is due after the interval
      drained :
          (ps : List PageResult) (c' : Text) (n' l' k' t : ℕ) (p : PageResult)
          → Chain c n l k ps c' n' l' k'
          → IsLive n' l'
          → call k' c' ≡ ok p
          → p.done ≡ true
          → length ps + 1 ≤ left
          → IsReport RunOutcome.completed report (p ∷ ps) out
          → t ≡ r.clock (n' + 1)
          → Leaves
              (IsEnded SchedulerJobStatus.completed [] t (t + r.cfg.job_interval) [] 0)
              rows
              after
          → Ended c left report rows n l k out after
      -- a page failed: the stored cursor stays, and the job is due after the backoff
      broke :
          (ps : List PageResult) (c' : Text) (n' l' k' t : ℕ) (e : Text)
          → Chain c n l k ps c' n' l' k'
          → IsLive n' l'
          → call k' c' ≡ err e
          → length ps + 1 ≤ left
          → IsReport RunOutcome.error report ps out
          → t ≡ r.clock (n' + 1)
          → Leaves
              (λ row row'.
                IsEnded SchedulerJobStatus.error row.cursor t
                  (add_duration t
                    (backoff_for r.cfg.retry_base r.cfg.retry_max (state.consecutive_failures + 1)))
                  e
                  (row.consecutive_failures + 1)
                  row
                  row')
              rows
              after
          → Ended c left report rows n l k out after

    pub record LoopEnds (c : Text) (left : ℕ) (report : RunReport) (w : World) (ran : Ran)
        : Type 0 where
      pub how :
          Ended c left report w.rows w.clock_reads w.ctx_looks w.page_calls ran.report
            ran.world.rows
      pub no_error : ran.failure ≡ none
      pub locks_kept : ran.world.locks ≡ w.locks
