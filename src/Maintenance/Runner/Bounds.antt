-- ===== src/Maintenance/Runner/Bounds.antt =====
-- What holds of a run whatever the clock, the context and the job answer: the locks that it
-- leaves and the pages that it makes.
use anchorix.Prelude.{
  ℕ, zero, suc, ◌+◌, ◌≤◌, ◌≡◌, refl, List, ltb, Outcome, ok, err, arith, Bool-cases, inl, inr,
}
use anchorix.Prelude.Text.{Text}
use anchorix.Maintenance.State.{SchedulerJob, StateError, Rows}
use anchorix.Maintenance.Registry.{PageResult, Job}
use anchorix.Maintenance.Runner.{
  Runner, RunReport, RunOutcome, RunError, World, Ran, finish_completed, finish_partial,
  finish_failed, page_loop, page_round, handle_page, persist,
}

-- From the locks `held` and `calls` page calls, the run keeps the locks and makes at most `left`
-- pages behind the `before` ones of its report.
pub record Within (left before : ℕ) (held : List ℕ) (calls : ℕ) (ran : Ran) : Type 0 where
  pub locks : ran.world.locks ≡ held
  pub pages : ran.report.pages_run ≤ before + left
  pub page_calls : ran.world.page_calls ≤ calls + left

module _ (r : Runner) where
  persist-Within :
      (left : ℕ) (done : Outcome StateError Rows) (wrap : StateError → RunError) (o : RunOutcome)
      (report : RunReport) (w : World)
      → Within left report.pages_run w.locks w.page_calls (persist r done wrap o report w)
  unfolding persist
  persist-Within left (err e) wrap o report w = record {
    locks = refl;
    pages = omega arith;
    page_calls = omega arith;
  }
  persist-Within left (ok rows) wrap o report w = record {
    locks = refl;
    pages = omega arith;
    page_calls = omega arith;
  }

  more :
      {left before calls : ℕ} {held : List ℕ} {ran : Ran}
      → Within left before held calls ran
      → Within (suc left) before held calls ran
  more h = record {
    locks = h.locks;
    pages = omega (arith, h.pages);
    page_calls = omega (arith, h.page_calls);
  }

  module _ (job : Job) (state : SchedulerJob) (deadline : ℕ) where
    abbrev pub KeepsWithin : ℕ → (Text → RunReport → World → Ran) → Type 0
    KeepsWithin left rest =
        (c : Text) (report : RunReport) (w : World)
        → Within left report.pages_run w.locks w.page_calls (rest c report w)

    finish_partial-Within :
        (left : ℕ) → KeepsWithin left (λ c. finish_partial r state.organization_id state.job_name c)
    unfolding finish_partial
    finish_partial-Within left c report w = persist-Within left _ _ _ report _

    finish_completed-Within :
        (left : ℕ) → KeepsWithin left (λ _. finish_completed r state.organization_id state.job_name)
    unfolding finish_completed
    finish_completed-Within left c report w = persist-Within left _ _ _ report _

    finish_failed-Within :
        (left prior : ℕ) (e : Text)
        → KeepsWithin left (λ _. finish_failed r state.organization_id state.job_name prior e)
    unfolding finish_failed
    finish_failed-Within left prior e c report w = persist-Within left _ _ _ report _

    -- the page call that went before counts
    after_page :
        {left before pages calls now : ℕ} {held : List ℕ} {ran : Ran}
        → pages ≤ before + 1
        → now ≡ calls + 1
        → Within left pages held now ran
        → Within (suc left) before held calls ran
    after_page p e h = record {
      locks = h.locks;
      pages = omega (arith, h.pages, p);
      page_calls = omega (arith, h.page_calls, e);
    }

    handle_page-Within :
        (left : ℕ) (rest : Text → RunReport → World → Ran)
        → KeepsWithin left rest
        → (c : Text) (report : RunReport) (w : World) (calls : ℕ) (out : Outcome Text PageResult)
        → w.page_calls ≡ calls + 1
        → Within
            (suc left)
            report.pages_run
            w.locks
            calls
            (handle_page r job state deadline rest c report w out)
    unfolding handle_page
    handle_page-Within left rest ih c report w calls (err e) ek =
        after_page {pages = report.pages_run} (omega arith) ek
          (finish_failed-Within left _ e c report w)
    handle_page-Within left rest ih c report w calls (ok p) ek = elim (Bool-cases p.done) [
      | inl d ↦ rw d (after_page (omega arith) ek (finish_completed-Within left c _ w))
      | inr d ↦ rw d (after_page (omega arith) ek (ih p.next_cursor _ w))
    ]

    pub page_loop-Within : (left : ℕ) → KeepsWithin left (page_loop r job state deadline left)
    unfolding page_loop page_round
    page_loop-Within zero c report w = finish_partial-Within 0 c report w
    page_loop-Within (suc left) c report w =
        elim (Bool-cases (ltb (r.clock w.clock_reads) deadline)) [
          | inr late ↦ rw late (finish_partial-Within (suc left) c report _)
          | inl early ↦ rw early (elim (Bool-cases (r.cancelled w.ctx_looks)) [
            | inl gone ↦ rw gone (finish_partial-Within (suc left) c report _)
            | inr live ↦ rw live (
                handle_page-Within left (page_loop r job state deadline left)
                  (page_loop-Within left) c report _ w.page_calls _ refl)
          ])
        ]
