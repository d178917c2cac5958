-- ===== src/Maintenance/Runner/Due.antt =====
-- What `RunDueJob` does as a whole: its bounds on every path, and how a run that got its lock ends.
use anchorix.Prelude.{
  ℕ, ◌+◌, ◌≡◌, refl, some, false, List, ◌∷◌, arith, Bool-cases, Option-cases, inl, inr, ◌||◌,
  Option, Outcome-cases, ap, ◌∙◌,
}
use anchorix.Prelude.Text.{is_empty}
use anchorix.Maintenance.State.{
  SchedulerJob, Rows, find_job, mark_job_started, set_started, update_row,
}
use anchorix.Maintenance.State.Laws.{
  exec_mark-MarkedBy, exec_mark-found, Changed, MarkedBy-Changed, IsStarted, set_started-IsStarted,
}
use anchorix.Maintenance.Registry.{Job, lookup_job}
use anchorix.Maintenance.Runner.{
  Runner, RunOutcome, RunError, World, Ran, run_pages, run_locked, run_due_job, release,
  release_key, holds, now, empty_report,
}
use anchorix.Maintenance.Runner.Bounds.{Within, page_loop-Within}
use anchorix.Maintenance.Runner.Page.{page_loop-Ends}
use anchorix.Maintenance.Runner.Ended.{LoopEnds}

-- the lock that was added is the one that is given back
release-held : (key : ℕ) (ks : List ℕ) → release_key key (key ∷ ks) ≡ ks
unfolding release_key
release-held key ks = ground arith

untouched :
    {left : ℕ} {e : Option RunError} {o : RunOutcome} (w : World)
    → Within left 0 w.locks w.page_calls
        (record { report = empty_report o; failure = e; world = w })
untouched w = record { locks = refl; pages = omega arith; page_calls = omega arith }

module _ (r : Runner) where
  run_locked-Within :
      (job : Job) (state : SchedulerJob) (w : World)
      → Within r.cfg.max_pages_per_run 0 w.locks w.page_calls (run_locked r job state w)
  unfolding run_locked run_pages
  run_locked-Within job state w =
      elim (Outcome-cases
        (mark_job_started state.organization_id state.job_name (now r w) w.rows)) [
          | inl (e, h) ↦
              rw (h, run_locked)
                (record { locks = refl; pages = omega arith; page_calls = omega arith })
          | inr (rows, h) ↦
              rw (h, run_locked)
                (page_loop-Within r job state _ r.cfg.max_pages_per_run state.cursor
                  (empty_report RunOutcome.error) _)
        ]

  -- On every path, errors included, a run of a due job leaves the advisory locks as it found
  -- them, reports at most `max_pages_per_run` pages, and makes at most as many page calls.
  pub run_due_job-Within :
      (state : SchedulerJob) (w : World)
      → Within r.cfg.max_pages_per_run 0 w.locks w.page_calls (run_due_job r state w)
  unfolding run_due_job release
  run_due_job-Within state w = elim (Option-cases (lookup_job r.registry state.job_name)) [
    | inl unknown ↦ rw (unknown, run_due_job) (untouched w)
    | inr (job, known) ↦
        rw (known, run_due_job)
          (elim (Bool-cases (is_empty state.organization_id || is_empty state.job_name)) [
            | inl blank ↦ rw blank (untouched w)
            | inr named ↦
                rw named
                  (elim (Bool-cases (holds (r.lock_key state.organization_id state.job_name) w)) [
                    | inl held ↦ rw held (untouched w)
                    | inr free ↦
                        let h = run_locked-Within job state (record w {
                          locks = r.lock_key state.organization_id state.job_name ∷ w.locks;
                        }) in
                        rw free (record {
                          locks = ap (release_key _) h.locks ∙ release-held _ w.locks;
                          pages = h.pages;
                          page_calls = h.page_calls;
                        })
                  ])
          ])
  ]

  -- `state` is due, known and free: what a run of it does to the rows
  pub record Runs (job : Job) (state : SchedulerJob) (w : World) (ran : Ran) : Type 0 where
    pub started_rows : Rows
    pub started :
        Changed state.organization_id state.job_name
          (IsStarted (r.clock w.clock_reads))
          w.rows
          started_rows
    pub ended :
        LoopEnds r job state
          (r.clock (w.clock_reads + 1) + r.cfg.max_run_duration)
          state.cursor
          r.cfg.max_pages_per_run
          (empty_report RunOutcome.error)
          (record w { rows = started_rows; clock_reads = w.clock_reads + 1 + 1 })
          ran

  run_locked-Runs :
      (job : Job) (state row : SchedulerJob) (w : World)
      → find_job state.organization_id state.job_name w.rows ≡ some row
      → Runs job state w (run_locked r job state w)
  unfolding run_locked mark_job_started run_pages
  run_locked-Runs job state row w found =
      let done =
        exec_mark-found state.organization_id state.job_name (set_started (now r w)) w.rows found in
      let marked =
        exec_mark-MarkedBy state.organization_id state.job_name (set_started (now r w))
          (λ _. (refl, refl)) w.rows done in
      rw (done, run_locked)
        (record {
          started_rows =
              update_row state.organization_id state.job_name (set_started (now r w)) w.rows;
          started = MarkedBy-Changed _ _ _ _ _ _ (set_started-IsStarted (now r w)) marked;
          ended =
              page_loop-Ends r job state _ r.cfg.max_pages_per_run state.cursor
                (empty_report RunOutcome.error) _
                (set_started (now r w) marked.row, marked.becomes);
        })

  -- If the job is registered, neither of its names is empty, its lock is free and its row is there,
  -- then the run succeeds, marks the row running, and calls pages one after the other, each with the
  -- cursor of the page before, and each after a clock reading before the deadline and a look at the
  -- context that finds it not cancelled. It ends in one of three ways, in each of which the row gets
  -- the time of the next clock reading. Either a bound was met, which is the number of pages, the
  -- deadline or the cancellation: the row is partial with the last cursor, without failures, and due
  -- after the delay. Or a page was the last one: the row is completed with the empty cursor, without
  -- failures, and due after the interval. Or a page failed: the row keeps its cursor, has the
  -- error's text, counts one more failure and is due after the backoff. The report counts the
  -- successful pages and their items. The locks are as before, and every other row is untouched by
  -- each of the two updates.
  pub run_due_job-Runs :
      (state : SchedulerJob) (w : World) (job : Job) (row : SchedulerJob)
      → lookup_job r.registry state.job_name ≡ some job
      → (is_empty state.organization_id || is_empty state.job_name) ≡ false
      → holds (r.lock_key state.organization_id state.job_name) w ≡ false
      → find_job state.organization_id state.job_name w.rows ≡ some row
      → Runs job state w (run_due_job r state w)
  unfolding run_due_job release
  run_due_job-Runs state w job row known named free found =
      let key = r.lock_key state.organization_id state.job_name in
      let h = run_locked-Runs job state row (record w { locks = key ∷ w.locks }) found in
      rw (known, named, free, run_due_job)
        (record {
          started_rows = h.started_rows;
          started = h.started;
          ended = record {
            how = h.ended.how;
            no_error = h.ended.no_error;
            locks_kept = ap (release_key key) h.ended.locks_kept ∙ release-held key w.locks;
          };
        })
