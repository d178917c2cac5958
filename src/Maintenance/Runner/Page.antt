-- ===== src/Maintenance/Runner/Page.antt =====
-- How a run's page loop ends: the pages that it made, the report, and the row that it leaves.
use anchorix.Prelude.{
  ℕ, zero, suc, ◌+◌, ◌≡◌, refl, sym, ap, ◌∙◌, none, some, false, List, [], ◌∷◌, ltb, Outcome, ok,
  err, arith, Bool-cases, inl, inr,
}
use anchorix.Prelude.Text.{Text}
use anchorix.Maintenance.State.{
  SchedulerJob, StateError, Rows, find_job, exec_mark, set_completed, set_partial, set_failed,
  scheduler_cursor_start, mark_job_completed, mark_job_partial, mark_job_failed,
}
use anchorix.Maintenance.State.Laws.{
  KeepsKey, MarkedBy, exec_mark-MarkedBy, exec_mark-found, MarkedBy-Changed, set_completed-IsEnded,
  set_partial-IsEnded, set_failed-IsEnded,
}
use anchorix.Maintenance.Registry.{PageResult, Job}
use anchorix.Maintenance.Backoff.{backoff_for, add_duration}
use anchorix.Maintenance.Runner.{
  Runner, RunReport, RunOutcome, RunError, World, Ran, finish_completed, finish_partial,
  finish_failed, add_page, page_loop, page_round, handle_page, persist, now, tick,
}
use anchorix.Maintenance.Runner.Ended.{IsReport, call, IsLive, Chain, Stops, Ended, LoopEnds}

module _ (r : Runner) where
  module _ (job : Job) (state : SchedulerJob) (deadline : ℕ) where
    -- the row of the job is there
    abbrev pub HasRow : World → Type 0
    HasRow w =
        (row : SchedulerJob) × (find_job state.organization_id state.job_name w.rows ≡ some row)

    -- a terminal write that succeeded
    record Persisted (f : SchedulerJob → SchedulerJob) (o : RunOutcome) (report : RunReport)
        (w : World) (ran : Ran) : Type 0 where
      reported :
          (ps : List PageResult) (before : RunReport)
          → IsReport report.outcome before ps report
          → IsReport o before ps ran.report
      marks : MarkedBy state.organization_id state.job_name f w.rows ran.world.rows
      no_failure : ran.failure ≡ none
      locks : ran.world.locks ≡ w.locks

    persist-Persisted :
        (f : SchedulerJob → SchedulerJob) (wrap : StateError → RunError) (o : RunOutcome)
        (report : RunReport) (w : World)
        → KeepsKey f
        → HasRow w
        → Persisted f o report w
            (persist r (exec_mark state.organization_id state.job_name f w.rows) wrap o report w)
    unfolding persist
    persist-Persisted f wrap o report w keeps (row, found) =
        let done = exec_mark-found state.organization_id state.job_name f w.rows found in
        rw done (record {
          reported = λ ps before h. record {
            outcome = refl;
            pages = h.pages;
            scanned = h.scanned;
            changed = h.changed;
          };
          marks = exec_mark-MarkedBy state.organization_id state.job_name f keeps w.rows done;
          no_failure = refl;
          locks = refl;
        })

    -- no page more
    no_page : (report : RunReport) → IsReport report.outcome report [] report
    no_page report = record {
      outcome = refl;
      pages = omega arith;
      scanned = omega arith;
      changed = omega arith;
    }

    one_page :
        (p : PageResult) (report : RunReport)
        → IsReport report.outcome report (p ∷ []) (add_page r p report)
    one_page p report = record {
      outcome = refl;
      pages = omega arith;
      scanned = omega arith;
      changed = omega arith;
    }

    more_page :
        (p : PageResult) {o : RunOutcome} {report out : RunReport} {ps : List PageResult}
        → IsReport o (add_page r p report) ps out
        → IsReport o report (p ∷ ps) out
    more_page p h = record {
      outcome = h.outcome;
      pages = omega (arith, h.pages);
      scanned = omega (arith, h.scanned);
      changed = omega (arith, h.changed);
    }

    swap_pages :
        {p q : PageResult} {o : RunOutcome} {report out : RunReport} {ps : List PageResult}
        → IsReport o report (p ∷ q ∷ ps) out
        → IsReport o report (q ∷ p ∷ ps) out
    swap_pages h = record {
      outcome = h.outcome;
      pages = h.pages;
      scanned = omega (arith, h.scanned);
      changed = omega (arith, h.changed);
    }

    -- the partial write at the clock reading `w.clock_reads`, behind the round's own readings
    stop_here :
        (c : Text) (left : ℕ) (report : RunReport) (start w : World)
        → start.rows ≡ w.rows
        → start.locks ≡ w.locks
        → HasRow w
        → Stops r job state deadline 0 left start.clock_reads start.ctx_looks (now r w)
        → LoopEnds r job state deadline c left report start
            (finish_partial r state.organization_id state.job_name c report w)
    unfolding finish_partial mark_job_partial
    stop_here c left report start w same locks row stops =
        let t = now r w in
        let done =
          persist-Persisted (set_partial c t (t + r.cfg.partial_requeue_delay))
            RunError.mark_partial RunOutcome.partial report (tick r w) (λ _. (refl, refl)) row in
        record {
          how =
              Ended.stopped [] c start.clock_reads start.ctx_looks start.page_calls t Chain.here
                (omega arith) stops (done.reported [] report (no_page report))
                (rw same (MarkedBy-Changed _ _ _ _ _ _ (set_partial-IsEnded c t _) done.marks));
          no_error = done.no_failure;
          locks_kept = done.locks ∙ sym locks;
        }

    abbrev Ends : ℕ → (Text → RunReport → World → Ran) → Type 0
    Ends left rest =
        (c : Text) (report : RunReport) (w : World)
        → HasRow w
        → LoopEnds r job state deadline c left report w (rest c report w)

    -- one more successful page in front
    prepend :
        {c : Text} {left : ℕ} {report : RunReport} {rows : Rows} {n l k : ℕ} {p : PageResult}
        {out : RunReport} {after : Rows}
        → IsLive r job state deadline n l
        → call r job state deadline k c ≡ ok p
        → p.done ≡ false
        → Ended r job state deadline p.next_cursor left
            (add_page r p report)
            rows
            (n + 1)
            (l + 1)
            (k + 1)
            out
            after
        → Ended r job state deadline c (suc left) report rows n l k out after
    prepend {p = p} live e d (Ended.stopped ps c' n' l' k' t chain bound stops rep marks) =
        Ended.stopped (p ∷ ps) c' n' l' k' t (Chain.page p live e d chain) (omega (arith, bound))
          (more_stops stops) (more_page p rep) marks
      where
        more_stops :
            {pages left n l t : ℕ}
            → Stops r job state deadline pages left n l t
            → Stops r job state deadline (suc pages) (suc left) n l t
        more_stops (Stops.all_pages e at) = Stops.all_pages (ap (λ x. suc x) e) at
        more_stops (Stops.late h at) = Stops.late h at
        more_stops (Stops.cancelled h g at) = Stops.cancelled h g at
    prepend {p = p} live e d
          (Ended.drained ps c' n' l' k' t q chain on last done bound rep at marks) =
        Ended.drained (p ∷ ps) c' n' l' k' t q (Chain.page p live e d chain) on last done
          (omega (arith, bound)) (swap_pages (more_page p rep)) at marks
    prepend {p = p} live e d (Ended.broke ps c' n' l' k' t x chain on last bound rep at marks) =
        Ended.broke (p ∷ ps) c' n' l' k' t x (Chain.page p live e d chain) on last
          (omega (arith, bound)) (more_page p rep) at marks

    -- the world of a page call
    abbrev calling : World → World
    calling w = record w {
      clock_reads = w.clock_reads + 1;
      ctx_looks = w.ctx_looks + 1;
      page_calls = w.page_calls + 1;
    }

    handle_page-Ends :
        (left : ℕ) (rest : Text → RunReport → World → Ran)
        → Ends left rest
        → (c : Text) (report : RunReport) (w : World)
        → IsLive r job state deadline w.clock_reads w.ctx_looks
        → HasRow w
        → (out : Outcome Text PageResult) → call r job state deadline w.page_calls c ≡ out
        → LoopEnds r job state deadline c
            (suc left)
            report
            w
            (handle_page r job state deadline rest c report (calling w) out)
    unfolding handle_page finish_failed finish_completed mark_job_failed mark_job_completed
    handle_page-Ends left rest ih c report w live row (err x) e =
        let t = now r (calling w) in
        let due =
          add_duration t
            (backoff_for r.cfg.retry_base r.cfg.retry_max (state.consecutive_failures + 1)) in
        let done =
          persist-Persisted (set_failed x t due) RunError.mark_failed RunOutcome.error report
            (tick r (calling w)) (λ _. (refl, refl)) row in
        record {
          how =
              Ended.broke [] c _ _ _ t x Chain.here live e (omega arith)
                (done.reported [] report (no_page report)) refl
                (MarkedBy-Changed _ _ _ _ _ _ (set_failed-IsEnded x t due) done.marks);
          no_error = done.no_failure;
          locks_kept = done.locks;
        }
    handle_page-Ends left rest ih c report w live row (ok p) e = elim (Bool-cases p.done) [
      | inl d ↦
          let t = now r (calling w) in
          let done =
            persist-Persisted (set_completed scheduler_cursor_start t (t + r.cfg.job_interval))
              RunError.mark_completed RunOutcome.completed (add_page r p report)
              (tick r (calling w)) (λ _. (refl, refl)) row in
          rw d (record {
            how =
                Ended.drained [] c _ _ _ t p Chain.here live e d (omega arith)
                  (done.reported (p ∷ []) report (one_page p report)) refl
                  (MarkedBy-Changed _ _ _ _ _ _ (set_completed-IsEnded [] t _) done.marks);
            no_error = done.no_failure;
            locks_kept = done.locks;
          })
      | inr d ↦
          let h = ih p.next_cursor (add_page r p report) (calling w) row in
          rw d (record {
            how = prepend live e d h.how;
            no_error = h.no_error;
            locks_kept = h.locks_kept;
          })
    ]

    page_round-Ends :
        (left : ℕ) (rest : Text → RunReport → World → Ran)
        → Ends left rest
        → Ends (suc left) (page_round r job state deadline rest)
    unfolding page_round
    page_round-Ends left rest ih c report w row = elim (Bool-cases (ltb (now r w) deadline)) [
      | inr over ↦ rw over (
          stop_here c (suc left) report w (tick r w) refl refl row (Stops.late (ground arith) refl))
      | inl early ↦ rw early (elim (Bool-cases (r.cancelled w.ctx_looks)) [
        | inl gone ↦ rw gone (
            stop_here c (suc left) report w _ refl refl row
              (Stops.cancelled (ground arith) gone refl))
        | inr on ↦ rw on (handle_page-Ends left rest ih c report w (ground arith, on) row _ refl)
      ])
    ]

    pub page_loop-Ends : (left : ℕ) → Ends left (page_loop r job state deadline left)
    unfolding page_loop
    page_loop-Ends zero c report w row =
        stop_here c zero report w w refl refl row (Stops.all_pages refl refl)
    page_loop-Ends (suc left) c report w row =
        page_round-Ends left (page_loop r job state deadline left) (page_loop-Ends left) c report w
          row
