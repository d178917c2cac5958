-- ===== src/Findings/Service/Atomic.antt =====
-- findings/service.go: what stands of a recompute behind its transaction.
use anchorix.Prelude.{
  ℕ, ◌<◌, ◌≡◌, refl, some, Option, Option-cases, Bool-cases, inl, inr, subst, Outcome, Bool, true,
  false, [], ◌∷◌, ◌++◌, length, ok, err, arith,
}
use anchorix.Prelude.Text.{Text, codes, trim_space, is_empty}
use anchorix.Findings.Table.{RecomputeError, Table, find_row, rows_of}
use anchorix.Findings.Recompute.{
  Inputs, DiffSummary, run_diff_streaming, RecomputeResult, effective_streaming_page_size,
  to_recompute_result,
}
use anchorix.Findings.Recompute.Spec.{recomputed}
use anchorix.Findings.Recompute.Phases.{IsSetting}
use anchorix.Findings.Recompute.Refines.{run_diff_streaming-recomputed}
use anchorix.Findings.Service.{
  Store, AuditEvent, RecomputeInput, recompute_event, audited_diff, recompute_with_actor, recompute,
  inputs_of, actor_of, actor_type_of,
}

page_size_pos : (override : ℕ) → 0 < effective_streaming_page_size override
unfolding effective_streaming_page_size
page_size_pos override = ground arith

-- what the audit row says
pub record Records (organization actor actor_type : Text) (now : ℕ) (result : RecomputeResult)
    (event : AuditEvent) : Type 0 where
  pub of_organization : event.organization_id ≡ organization
  pub at : event.occurred_at ≡ now
  pub by_actor : event.actor ≡ actor
  pub by_type : event.actor_type ≡ actor_type
  pub action : event.action ≡ codes "findings.recomputed"
  pub target : (event.target_type ≡ codes "organization") × (event.target_id ≡ organization)
  pub answered : event.metadata ≡ result

event-Records :
    (organization actor actor_type : Text) (now : ℕ) (result : RecomputeResult)
    → Records organization actor actor_type now result
        (recompute_event organization actor actor_type result now)
unfolding recompute_event
event-Records organization actor actor_type now result = record {
  of_organization = refl;
  at = refl;
  by_actor = refl;
  by_type = refl;
  action = refl;
  target = (refl, refl);
  answered = refl;
}

-- the answer has the counts of the diff
pub record Counts (rules : ℕ) (d : DiffSummary) (result : RecomputeResult) : Type 0 where
  pub evaluated : result.evaluated_certificates ≡ d.evaluated_certificates
  pub opened : result.opened ≡ d.counters.opened
  pub updated : result.updated ≡ d.counters.updated
  pub resolved : result.resolved ≡ d.counters.resolved
  pub unchanged : result.unchanged ≡ d.counters.unchanged
  pub loaded : result.loaded_certificates ≡ d.loaded_certificates
  pub findings : result.loaded_findings ≡ d.loaded_findings
  pub of_rules : result.rule_count ≡ rules

to_recompute_result-Counts :
    (d : DiffSummary) (rules : ℕ) → Counts rules d (to_recompute_result d rules)
unfolding to_recompute_result
to_recompute_result-Counts d rules = record {
  evaluated = refl;
  opened = refl;
  updated = refl;
  resolved = refl;
  unchanged = refl;
  loaded = refl;
  findings = refl;
  of_rules = refl;
}

-- the two ways in which a recompute returns
pub data Together (inp : Inputs) (size : ℕ) (audited : Bool) (actor actor_type : Text)
    (store : Store) (outcome : Outcome RecomputeError RecomputeResult) (store' : Store)
    : Type 0 where
  neither :
      (e : RecomputeError)
      → outcome ≡ err e
      → store' ≡ store
      → Together inp size audited actor actor_type store outcome store'
  together :
      (result : RecomputeResult) (d : DiffSummary) (event : AuditEvent)
      → outcome ≡ ok result
      → audited ≡ true
      → run_diff_streaming inp size store.table ≡ some (ok (store'.table, d))
      → Counts (length inp.rules) d result
      → store'.audit ≡ store.audit ++ event ∷ []
      → Records inp.organization_id actor actor_type inp.now result event
      → Together inp size audited actor actor_type store outcome store'

module _ (inp : Inputs) (size : ℕ) (actor actor_type : Text) (store : Store) where
  audited_diff-Together :
      (audited : Bool) (diff : Outcome RecomputeError (Table × DiffSummary))
      → run_diff_streaming inp size store.table ≡ some diff
      → Together inp size audited actor actor_type store
          (audited_diff inp audited actor actor_type store diff).0
          (audited_diff inp audited actor actor_type store diff).1
  unfolding audited_diff
  audited_diff-Together audited (err e) went = Together.neither e refl refl
  audited_diff-Together false (ok (table, d)) went =
      Together.neither RecomputeError.internal_audit refl refl
  audited_diff-Together true (ok (table, d)) went =
      Together.together (to_recompute_result d (length inp.rules)) d
        (recompute_event inp.organization_id actor actor_type
          (to_recompute_result d (length inp.rules)) inp.now)
        refl refl went (to_recompute_result-Counts d (length inp.rules)) refl
        (event-Records inp.organization_id actor actor_type inp.now
          (to_recompute_result d (length inp.rules)))

recompute_with_actor-Together :
    (inp : Inputs) (override : ℕ) (audited : Bool) (actor actor_type : Text) (store : Store)
    (outcome : Outcome RecomputeError RecomputeResult) (store' : Store)
    → recompute_with_actor inp override audited actor actor_type store ≡ some (outcome, store')
    → Together inp
        (effective_streaming_page_size override)
        audited
        actor
        actor_type
        store
        outcome
        store'
unfolding recompute_with_actor
recompute_with_actor-Together inp override audited actor actor_type store outcome store' e =
    let size = effective_streaming_page_size override in
    elim (Option-cases (run_diff_streaming inp size store.table)) [
      | inl lost ↦ absurd (ground arith)
      | inr (diff, went) ↦
          let same : audited_diff inp audited actor actor_type store diff ≡ (outcome, store') =
            ground arith in
          subst
            (λ (x : Outcome RecomputeError RecomputeResult × Store).
              Together inp size audited actor actor_type store x.0 x.1)
            same (audited_diff-Together inp size actor actor_type store audited diff went)
    ]

-- Whenever a recompute returns, the findings and the audit log changed together or neither did.
-- With an error, both are as they were. With a result, the audit log took the row, the findings are
-- what the diff left of them, the answer has the counts of the diff, and the log has one row more,
-- of the organization and the time, under the request's user or else under the system, whose
-- metadata are the answer.
pub recompute_atomic :
    (inputs : Text → Inputs) (override : ℕ) (audited : Bool) (req : RecomputeInput) (store : Store)
    (outcome : Outcome RecomputeError RecomputeResult) (store' : Store)
    → recompute inputs override audited req store ≡ some (outcome, store')
    → Together
        (inputs_of inputs req.organization_id)
        (effective_streaming_page_size override)
        audited
        (actor_of req)
        (actor_type_of req)
        store
        outcome
        store'
unfolding recompute
recompute_atomic inputs override audited req store outcome store' e =
    elim (Bool-cases (is_empty (trim_space req.organization_id))) [
      | inl blank ↦
          let same : ◌≡◌ {A = Option (Outcome RecomputeError RecomputeResult × Store)}
              (some (err RecomputeError.invalid_recompute_input, store)) (some (outcome, store')) =
            (rw blank at e) in
          Together.neither RecomputeError.invalid_recompute_input (ground arith) (ground arith)
      | inr named ↦
          recompute_with_actor-Together (inputs_of inputs req.organization_id) override audited
            (actor_of req) (actor_type_of req) store outcome store' (rw named at e)
    ]

-- the rows and the log of one audited recompute
pub record Recorded (inp : Inputs) (actor actor_type : Text) (store : Store)
    (result : RecomputeResult) (store' : Store) : Type 0 where
  pub rows : (o c r : Text) → find_row o c r store'.table ≡ recomputed inp store.table o c r
  pub event : AuditEvent
  pub log : store'.audit ≡ store.audit ++ event ∷ []
  pub recorded : Records inp.organization_id actor actor_type inp.now result event
  pub certificates : result.loaded_certificates ≡ length inp.certs
  pub findings : result.loaded_findings ≡ length (rows_of inp.organization_id store.table)
  pub rules : result.rule_count ≡ length inp.rules

module _ (inp : Inputs) (override : ℕ) (actor actor_type : Text) (store : Store)
    (setting : IsSetting inp store.table) where
  recompute_with_actor_audited :
      (result : RecomputeResult) × (store' : Store) × (recompute_with_actor inp override true actor
          actor_type store
        ≡ some (ok result, store'))
      × Recorded inp actor actor_type store result store'
  unfolding recompute_with_actor audited_diff to_recompute_result
  recompute_with_actor_audited =
      let (table', d, went, constraints, found, certs, findings) =
        run_diff_streaming-recomputed inp (effective_streaming_page_size override) store.table
          (page_size_pos override) setting in
      (
        to_recompute_result d (length inp.rules),
        record {
          table = table';
          audit =
              store.audit
              ++ recompute_event inp.organization_id actor actor_type
                  (to_recompute_result d (length inp.rules)) inp.now
                ∷ [];
        },
        rw (went, recompute_with_actor) refl,
        record {
          rows = found;
          event = _;
          log = refl;
          recorded = event-Records inp.organization_id actor actor_type inp.now _;
          certificates = certs;
          findings = findings;
          rules = refl;
        },
      )

  recompute_with_actor_refused :
      recompute_with_actor inp override false actor actor_type store
      ≡ some (err RecomputeError.internal_audit, store)
  unfolding recompute_with_actor audited_diff
  recompute_with_actor_refused =
      let (table', d, went, _, _, _, _) =
        run_diff_streaming-recomputed inp (effective_streaming_page_size override) store.table
          (page_size_pos override) setting in
      rw (went, recompute_with_actor) refl

-- For an organization that is not blank, in a database whose constraints hold, whose statuses the
-- code knows, whose ids are not empty and are not repeated by a new id, with certificates and rules
-- of different ids and where a range over the match map visits each entry once: where the audit log
-- takes the row, the recompute succeeds, leaves at every pair the row of the specification, and adds
-- one audit row, under the request's user or else under the system, whose metadata are the answered
-- result; where the log refuses the row, the answer is ErrInternalAudit and findings and log are as
-- they were.
pub recompute-Recorded :
    (inputs : Text → Inputs) (override : ℕ) (req : RecomputeInput) (store : Store)
    → is_empty (trim_space req.organization_id) ≡ false
    → IsSetting (inputs_of inputs req.organization_id) store.table
    → ((result : RecomputeResult) × (store' : Store) × (recompute inputs override true req store
          ≡ some (ok result, store'))
        × Recorded
            (inputs_of inputs req.organization_id)
            (actor_of req)
            (actor_type_of req)
            store
            result
            store')
      × (recompute inputs override false req store
          ≡ some (err RecomputeError.internal_audit, store))
unfolding recompute
recompute-Recorded inputs override req store named setting = rw named (
  recompute_with_actor_audited (inputs_of inputs req.organization_id) override (actor_of req)
      (actor_type_of req) store setting,
  recompute_with_actor_refused (inputs_of inputs req.organization_id) override (actor_of req)
      (actor_type_of req) store setting,
)
