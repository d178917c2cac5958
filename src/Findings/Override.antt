-- ===== src/Findings/Override.antt =====
-- findings/service.go: the operator's overrides of a finding. `get` answers `GetFinding` of the
-- transaction that holds the organization's lock; the audit row, whose failure rolls the
-- transaction back, is `audited`.
pub mod Keeps
use anchorix.Prelude.{
  ℕ, Option, none, some, Bool, true, false, not, ltb, if◌then◌else◌, Outcome, ok, err, ◌>>=◌, ◌>>◌,
  refuse_if,
}
use anchorix.Prelude.Text.{Text, trim_space, is_empty, byte_len}
use anchorix.Findings.{Status, Finding}

pub record AcknowledgeInput : Type 0 where
  pub organization_id : Text
  pub finding_id : Text
  pub actor_user_id : Text
  pub reason : Text

pub record SuppressInput : Type 0 where
  pub organization_id : Text
  pub finding_id : Text
  pub actor_user_id : Text
  pub reason : Text
  pub expires_at : Option ℕ

pub data OverrideError : Type 0 where
  organization_id_required finding_id_required actor_user_id_required : OverrideError
  reason_required reason_too_long expires_at_not_in_future : OverrideError
  finding_not_found internal_audit : OverrideError

abbrev pub max_override_reason_length : ℕ
max_override_reason_length = 1000

unfoldable pub validate_reason : Text → Outcome OverrideError (Unit {0})
validate_reason reason =
    if is_empty (trim_space reason)
    then err OverrideError.reason_required
    else if ltb max_override_reason_length (byte_len (trim_space reason))
    then err OverrideError.reason_too_long
    else ok tt

unfoldable pub validate_acknowledge_input : AcknowledgeInput → Outcome OverrideError (Unit {0})
validate_acknowledge_input inp =
    refuse_if (is_empty (trim_space inp.organization_id)) OverrideError.organization_id_required
    >> refuse_if (is_empty (trim_space inp.finding_id)) OverrideError.finding_id_required
    >> refuse_if (is_empty (trim_space inp.actor_user_id)) OverrideError.actor_user_id_required
    >> validate_reason inp.reason

-- `ExpiresAt != nil && !ExpiresAt.After(now)`
abbrev pub not_in_future : Option ℕ → ℕ → Bool
not_in_future none now = false
not_in_future (some at) now = not (ltb now at)

unfoldable pub validate_suppress_input : SuppressInput → ℕ → Outcome OverrideError (Unit {0})
validate_suppress_input inp now =
    refuse_if (is_empty (trim_space inp.organization_id)) OverrideError.organization_id_required
    >> refuse_if (is_empty (trim_space inp.finding_id)) OverrideError.finding_id_required
    >> refuse_if (is_empty (trim_space inp.actor_user_id)) OverrideError.actor_user_id_required
    >> validate_reason inp.reason
    >> refuse_if (not_in_future inp.expires_at now) OverrideError.expires_at_not_in_future

pub record OverrideRequest : Type 0 where
  pub organization_id : Text
  pub finding_id : Text
  pub actor_user_id : Text
  pub reason : Text
  pub new_status : Status
  pub suppress_expires_at : Option ℕ

-- what the transaction writes over the row that it read
abbrev pub overridden : OverrideRequest → ℕ → Finding → Finding
overridden req now prior = record prior {
  status = req.new_status;
  status_reason = req.reason;
  status_actor = req.actor_user_id;
  status_changed_at = some now;
  suppress_expires_at = req.suppress_expires_at;
  updated_at = now;
  resolved_at = none;
}

unfoldable pub apply_override :
    OverrideRequest → ℕ → Option Finding → Bool → Outcome OverrideError Finding
apply_override req now none audited = err OverrideError.finding_not_found
apply_override req now (some prior) audited =
    if audited then ok (overridden req now prior) else err OverrideError.internal_audit

abbrev pub acknowledge_request : AcknowledgeInput → OverrideRequest
acknowledge_request inp = record {
  organization_id = inp.organization_id;
  finding_id = inp.finding_id;
  actor_user_id = inp.actor_user_id;
  reason = trim_space inp.reason;
  new_status = Status.acknowledged;
  suppress_expires_at = none;
}

abbrev pub suppress_request : SuppressInput → OverrideRequest
suppress_request inp = record {
  organization_id = inp.organization_id;
  finding_id = inp.finding_id;
  actor_user_id = inp.actor_user_id;
  reason = trim_space inp.reason;
  new_status = Status.suppressed;
  suppress_expires_at = inp.expires_at;
}

-- `later` is the clock reading of the write
unfoldable pub acknowledge_finding :
    (Text → Text → Option Finding) → Bool → AcknowledgeInput → ℕ → Outcome OverrideError Finding
unfolding validate_acknowledge_input apply_override
acknowledge_finding get audited inp later =
    validate_acknowledge_input inp
    >> apply_override (acknowledge_request inp) later (get inp.organization_id inp.finding_id)
        audited

-- `now` is the clock reading of the validation
unfoldable pub suppress_finding :
    (Text → Text → Option Finding) → Bool → SuppressInput → ℕ → ℕ → Outcome OverrideError Finding
unfolding validate_suppress_input apply_override
suppress_finding get audited inp now later =
    validate_suppress_input inp now
    >> apply_override (suppress_request inp) later (get inp.organization_id inp.finding_id) audited
