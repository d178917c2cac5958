-- ===== src/Maintenance/Runner.antt =====
-- maintenance/runner.go: one bounded pass of a due (organization, job) row.
pub mod Ended
pub mod Page
pub mod Bounds
pub mod Due
use anchorix.Prelude.{
  ℕ, zero, suc, ◌+◌, ◌-◌, Option, none, some, Bool, true, false, not, ◌&&◌, ◌||◌, List, [], ◌∷◌,
  ltb, leb, ◌==◌, if◌then◌else◌, Outcome, ok, err, any,
}
use anchorix.Prelude.Text.{Text, is_empty}
use anchorix.Maintenance.State.{
  SchedulerJob, scheduler_cursor_start, StateError, Rows, mark_job_started, mark_job_completed,
  mark_job_partial, mark_job_failed,
}
use anchorix.Maintenance.Registry.{PageLimits, PageResult, Job, JobRegistry, lookup_job}
use anchorix.Maintenance.Backoff.{backoff_for, add_duration}

-- Durations are nanoseconds. A negative field, which `validate` refuses as it refuses 0, is not
-- represented.
pub record RunnerConfig : Type 0 where
  pub max_pages_per_run : ℕ
  pub max_run_duration : ℕ
  pub page_size : ℕ
  pub partial_requeue_delay : ℕ
  pub job_interval : ℕ
  pub retry_base : ℕ
  pub retry_max : ℕ

pub data ConfigError : Type 0 where
  max_pages_per_run_too_low max_run_duration_not_positive page_size_too_low : ConfigError
  partial_requeue_delay_not_positive job_interval_not_positive : ConfigError
  retry_base_not_positive retry_max_below_base : ConfigError

unfoldable pub validate : RunnerConfig → Option ConfigError
validate c =
    if ltb c.max_pages_per_run 1
    then some ConfigError.max_pages_per_run_too_low
    else if leb c.max_run_duration 0
    then some ConfigError.max_run_duration_not_positive
    else if ltb c.page_size 1
    then some ConfigError.page_size_too_low
    else if leb c.partial_requeue_delay 0
    then some ConfigError.partial_requeue_delay_not_positive
    else if leb c.job_interval 0
    then some ConfigError.job_interval_not_positive
    else if leb c.retry_base 0
    then some ConfigError.retry_base_not_positive
    else if ltb c.retry_max c.retry_base
    then some ConfigError.retry_max_below_base
    else none

pub data RunOutcome : Type 0 where
  skipped_locked completed partial error : RunOutcome

pub record RunReport : Type 0 where
  pub outcome : RunOutcome
  pub pages_run : ℕ
  pub items_scanned : ℕ
  pub items_changed : ℕ

pub data RunError : Type 0 where
  unknown_job : Text → RunError
  acquire_lock : RunError
  mark_started : StateError → RunError
  mark_completed : StateError → RunError
  mark_partial : StateError → RunError
  mark_failed : StateError → RunError

-- What the runner is built with. `clock k` is the k-th reading of the clock, `cancelled k` the
-- answer of the k-th look at the context, and `lock_key` the hash that keys the advisory locks.
pub record Runner : Type 0 where
  pub registry : JobRegistry
  pub cfg : RunnerConfig
  pub clock : ℕ → ℕ
  pub cancelled : ℕ → Bool
  pub lock_key : Text → Text → ℕ

-- the state rows, the advisory locks that are held, and how often clock, context and job were asked
pub record World : Type 0 where
  pub rows : Rows
  pub locks : List ℕ
  pub clock_reads : ℕ
  pub ctx_looks : ℕ
  pub page_calls : ℕ

-- what `RunDueJob` returns, and the world behind it
pub record Ran : Type 0 where
  pub report : RunReport
  pub failure : Option RunError
  pub world : World

abbrev pub empty_report : RunOutcome → RunReport
empty_report o = record { outcome = o; pages_run = 0; items_scanned = 0; items_changed = 0 }

abbrev pub failed_run : RunError → World → Ran
failed_run e w = record { report = empty_report RunOutcome.error; failure = some e; world = w }

abbrev pub holds : ℕ → World → Bool
holds key w = any (λ k. k == key) w.locks

unfoldable pub release_key : ℕ → List ℕ → List ℕ
release_key key [] = []
release_key key (k ∷ ks) = let rest = release_key key ks in if k == key then ks else k ∷ rest

unfoldable pub release : ℕ → World → World
unfolding release_key
release key w = record w { locks = release_key key w.locks }

module _ (r : Runner) where
  abbrev pub now : World → ℕ
  now w = r.clock w.clock_reads

  abbrev pub tick : World → World
  tick w = record w { clock_reads = w.clock_reads + 1 }

  -- a terminal write, and the report with its outcome
  unfoldable pub persist :
      Outcome StateError Rows → (StateError → RunError) → RunOutcome → RunReport → World → Ran
  persist (err e) wrap o report w = failed_run (wrap e) w
  persist (ok rows) wrap o report w = record {
    report = record report { outcome = o };
    failure = none;
    world = record w { rows = rows };
  }

  unfoldable pub finish_completed : Text → Text → RunReport → World → Ran
  finish_completed org job report w =
      persist
        (mark_job_completed org job scheduler_cursor_start (now w) (now w + r.cfg.job_interval)
          w.rows)
        RunError.mark_completed RunOutcome.completed report (tick w)

  unfoldable pub finish_partial : Text → Text → Text → RunReport → World → Ran
  finish_partial org job cursor report w =
      persist (mark_job_partial org job cursor (now w) (now w + r.cfg.partial_requeue_delay) w.rows)
        RunError.mark_partial RunOutcome.partial report (tick w)

  unfoldable pub finish_failed : Text → Text → ℕ → Text → RunReport → World → Ran
  finish_failed org job prior_failures run_err report w =
      persist
        (mark_job_failed org job run_err (now w)
          (add_duration (now w) (backoff_for r.cfg.retry_base r.cfg.retry_max (prior_failures + 1)))
          w.rows)
        RunError.mark_failed RunOutcome.error report (tick w)

  abbrev pub add_page : PageResult → RunReport → RunReport
  add_page p report = record report {
    pages_run = report.pages_run + 1;
    items_scanned = report.items_scanned + p.items_scanned;
    items_changed = report.items_changed + p.items_changed;
  }

  module _ (job : Job) (state : SchedulerJob) (deadline : ℕ) where
    -- behind the call of `RunPage`; `rest` is the next round of the loop
    unfoldable pub handle_page :
        (Text → RunReport → World → Ran) → Text → RunReport → World → Outcome Text PageResult → Ran
    handle_page rest cursor report w (err e) =
        finish_failed state.organization_id state.job_name state.consecutive_failures e report w
    handle_page rest cursor report w (ok p) =
        if p.done
        then finish_completed state.organization_id state.job_name (add_page p report) w
        else rest p.next_cursor (add_page p report) w

    -- the round of the loop behind the test of MaxPagesPerRun
    unfoldable pub page_round : (Text → RunReport → World → Ran) → Text → RunReport → World → Ran
    page_round rest cursor report w =
        let w1 = tick w in
        let w2 = record w1 { ctx_looks = w1.ctx_looks + 1 } in
        if not (ltb (now w) deadline)
        then finish_partial state.organization_id state.job_name cursor report w1
        else if r.cancelled w1.ctx_looks
        then finish_partial state.organization_id state.job_name cursor report w2
        else handle_page rest cursor report (record w2 { page_calls = w2.page_calls + 1 })
            (job.run_page w2.page_calls state.organization_id cursor
              (record { page_size = r.cfg.page_size }))

    -- the loop of `runPages`, over the pages that are left of MaxPagesPerRun
    unfoldable pub page_loop : ℕ → Text → RunReport → World → Ran
    page_loop zero cursor report w =
        finish_partial state.organization_id state.job_name cursor report w
    page_loop (suc left) cursor report w = page_round (page_loop left) cursor report w

  unfoldable pub run_pages : Job → SchedulerJob → World → Ran
  run_pages job state w =
      page_loop job state (now w + r.cfg.max_run_duration) r.cfg.max_pages_per_run state.cursor
        (empty_report RunOutcome.error) (tick w)

  -- from `MarkJobStarted` on, with the lock held
  unfoldable pub run_locked : Job → SchedulerJob → World → Ran
  run_locked job state w =
      elim (mark_job_started state.organization_id state.job_name (now w) w.rows) [
        | err e ↦ failed_run (RunError.mark_started e) (tick w)
        | ok rows ↦ run_pages job state (record (tick w) { rows = rows })
      ]

  -- the deferred release runs on every path behind the acquisition
  unfoldable pub run_due_job : SchedulerJob → World → Ran
  run_due_job state w =
      let key = r.lock_key state.organization_id state.job_name in
      elim (lookup_job r.registry state.job_name) [
        | none ↦ failed_run (RunError.unknown_job state.job_name) w
        | some job ↦
            if is_empty state.organization_id || is_empty state.job_name
            then failed_run RunError.acquire_lock w
            else if holds key w
            then record {
              report = empty_report RunOutcome.skipped_locked;
              failure = none;
              world = w;
            }
            else let ran = run_locked job state (record w { locks = key ∷ w.locks }) in
              record ran { world = release key ran.world }
      ]
