-- ===== src/Findings/Service.antt =====
-- findings/service.go: the entry points of a recompute, with the transaction around the diff and
-- its audit row. `audited` says whether the audit log takes the row; the advisory lock of the
-- organization makes a recompute one step for the others.
pub mod Atomic
use anchorix.Prelude.{
  ℕ, Option, none, some, Bool, List, [], ◌∷◌, ◌++◌, length, if◌then◌else◌, Outcome, ok, err,
}
use anchorix.Prelude.Text.{Text, codes, trim_space, is_empty}
use anchorix.Findings.Table.{RecomputeError, Table}
use anchorix.Findings.Recompute.{
  Inputs, DiffSummary, RecomputeResult, to_recompute_result, run_diff_streaming,
  effective_streaming_page_size,
}

pub record AuditEvent : Type 0 where
  pub organization_id : Text
  pub occurred_at : ℕ
  pub actor : Text
  pub actor_type : Text
  pub action : Text
  pub target_type : Text
  pub target_id : Text
  pub metadata : RecomputeResult

-- what the transaction reads and writes
pub record Store : Type 0 where
  pub table : Table
  pub audit : List AuditEvent

pub record RecomputeInput : Type 0 where
  pub organization_id : Text
  pub actor_user_id : Text

abbrev pub user : Text
user = codes "user"

abbrev pub system : Text
system = codes "system"

abbrev pub scheduler_actor_id : Text
scheduler_actor_id = codes "scheduler"

-- the metadata are the organization and the fields of the result
unfoldable pub recompute_event : Text → Text → Text → RecomputeResult → ℕ → AuditEvent
recompute_event organization actor actor_type r now = record {
  organization_id = organization;
  occurred_at = now;
  actor = actor;
  actor_type = actor_type;
  action = codes "findings.recomputed";
  target_type = codes "organization";
  target_id = organization;
  metadata = r;
}

unfoldable pub record_recompute_audit :
    Bool → AuditEvent → List AuditEvent → Outcome RecomputeError (List AuditEvent)
record_recompute_audit audited event log =
    if audited then ok (log ++ event ∷ []) else err RecomputeError.internal_audit

-- `WithTxLockedFindingsRepeatableRead`: what the body wrote stands only if it returned no error
abbrev pub commit :
    Store
    → Outcome RecomputeError (Store × RecomputeResult)
    → Outcome RecomputeError RecomputeResult × Store
commit store (err e) = (err e, store)
commit store (ok (store', result)) = (ok result, store')

-- the body of the transaction, after the diff
unfoldable pub audited_diff :
    Inputs
    → Bool
    → Text
    → Text
    → Store
    → Outcome RecomputeError (Table × DiffSummary)
    → Outcome RecomputeError RecomputeResult × Store
unfolding record_recompute_audit to_recompute_result recompute_event
audited_diff inp audited actor actor_type store (err e) = commit store (err e)
audited_diff inp audited actor actor_type store (ok (table, summary)) =
    let result = to_recompute_result summary (length inp.rules) in
    let event = recompute_event inp.organization_id actor actor_type result inp.now in
    elim (record_recompute_audit audited event store.audit) [
      | err e ↦ commit store (err e)
      | ok log ↦ commit store (ok (record { table = table; audit = log }, result))
    ]

-- `none` where the diff ran out of its rounds
unfoldable pub recompute_with_actor :
    Inputs
    → ℕ
    → Bool
    → Text
    → Text
    → Store
    → Option (Outcome RecomputeError RecomputeResult × Store)
unfolding run_diff_streaming effective_streaming_page_size audited_diff
recompute_with_actor inp override audited actor actor_type store =
    elim (run_diff_streaming inp (effective_streaming_page_size override) store.table) [
      | none ↦ none
      | some diffed ↦ some (audited_diff inp audited actor actor_type store diffed)
    ]

-- an empty actor is the system
abbrev pub actor_of : RecomputeInput → Text
actor_of req = let actor = trim_space req.actor_user_id in if is_empty actor then system else actor

abbrev pub actor_type_of : RecomputeInput → Text
actor_type_of req = if is_empty (trim_space req.actor_user_id) then system else user

-- what the service reads for an organization
abbrev pub inputs_of : (Text → Inputs) → Text → Inputs
inputs_of inputs organization = record (inputs organization) { organization_id = organization }

unfoldable pub recompute :
    (Text → Inputs)
    → ℕ
    → Bool
    → RecomputeInput
    → Store
    → Option (Outcome RecomputeError RecomputeResult × Store)
unfolding recompute_with_actor
recompute inputs override audited req store =
    if is_empty (trim_space req.organization_id)
    then some (err RecomputeError.invalid_recompute_input, store)
    else recompute_with_actor (inputs_of inputs req.organization_id) override audited (actor_of req)
        (actor_type_of req) store

unfoldable pub recompute_scheduled :
    (Text → Inputs)
    → ℕ
    → Bool
    → Text
    → Store
    → Option (Outcome RecomputeError RecomputeResult × Store)
unfolding recompute_with_actor
recompute_scheduled inputs override audited organization store =
    if is_empty (trim_space organization)
    then some (err RecomputeError.invalid_recompute_input, store)
    else recompute_with_actor (inputs_of inputs organization) override audited scheduler_actor_id
        system store
