-- ===== src/Ownership/Mutations.antt =====
-- ownership/override_mutations.go: pinning a certificate to a service. `signals` and
-- `active_service` are what the reads of the certificate and of the service answer, `raw` the rules
-- of the organization; `audited` is whether the audit row, whose failure rolls everything back, is
-- written.
pub mod Pinned
use anchorix.Prelude.{
  ℕ, ◌+◌, Option, none, some, Bool, true, false, not, ◌&&◌, List, ◌∷◌, ltb, if◌then◌else◌, Outcome,
  ok, err, ◌>>=◌, ◌>>◌, refuse_if, any,
}
use anchorix.Prelude.Text.{Text, text_eq, trim_space, is_empty, byte_len}
use anchorix.Governance.{OwnershipRule, CertificateOwnershipOverride, CertificateSignals}
use anchorix.Ownership.Store.{Store}
use anchorix.Ownership.Recompute.{Env}
use anchorix.Ownership.Rederive.{RederiveResult, RederiveError, rederive_certificate}

abbrev pub max_override_reason_len : ℕ
max_override_reason_len = 1000

pub record CreateOverrideInput : Type 0 where
  pub organization_id : Text
  pub actor_user_id : Text
  pub certificate_id : Text
  pub service_id : Text
  pub reason : Text
  pub expires_at : Option ℕ

pub data OverrideMutationError : Type 0 where
  organization_id_required actor_user_id_required certificate_id_required : OverrideMutationError
  service_id_required reason_required reason_too_long : OverrideMutationError
  expiry_in_past cert_not_found service_not_found conflict audit_failed : OverrideMutationError
  override_not_found : OverrideMutationError
  rederive_failed : RederiveError → OverrideMutationError

abbrev pub require_override_org_actor : Text → Text → Outcome OverrideMutationError (Unit {0})
require_override_org_actor org actor =
    refuse_if (is_empty (trim_space org)) OverrideMutationError.organization_id_required
    >> refuse_if (is_empty (trim_space actor)) OverrideMutationError.actor_user_id_required

-- `in.ExpiresAt != nil && !in.ExpiresAt.After(now)`
abbrev pub in_past : Option ℕ → ℕ → Bool
in_past none now = false
in_past (some at) now = not (ltb now at)

unfoldable pub validate_create_override :
    CreateOverrideInput → ℕ → Outcome OverrideMutationError (Unit {0})
validate_create_override inp now =
    require_override_org_actor inp.organization_id inp.actor_user_id
    >> refuse_if (is_empty (trim_space inp.certificate_id))
        OverrideMutationError.certificate_id_required
    >> refuse_if (is_empty (trim_space inp.service_id)) OverrideMutationError.service_id_required
    >> refuse_if (is_empty (trim_space inp.reason)) OverrideMutationError.reason_required
    >> refuse_if (ltb max_override_reason_len (byte_len (trim_space inp.reason)))
        OverrideMutationError.reason_too_long
    >> refuse_if (in_past inp.expires_at now) OverrideMutationError.expiry_in_past

abbrev pub new_override : Text → CreateOverrideInput → ℕ → CertificateOwnershipOverride
new_override id inp now = record {
  id = id;
  organization_id = inp.organization_id;
  certificate_id = trim_space inp.certificate_id;
  service_id = trim_space inp.service_id;
  reason = trim_space inp.reason;
  set_by = inp.actor_user_id;
  set_at = now;
  expires_at = inp.expires_at;
  cleared_at = none;
  cleared_by = none;
  cleared_reason = none;
}

abbrev is_active_for : CertificateOwnershipOverride → CertificateOwnershipOverride → Bool
is_active_for o p =
    text_eq p.organization_id o.organization_id
    && text_eq p.certificate_id o.certificate_id
    && elim p.cleared_at [ none ↦ true | some _ ↦ false ]

-- the insertion, under the unique index on the active overrides of a certificate
unfoldable pub create_ownership_override :
    CertificateOwnershipOverride → Store → Outcome OverrideMutationError Store
create_ownership_override o s =
    if any (is_active_for o) s.overrides
    then err OverrideMutationError.conflict
    else ok (record s { overrides = o ∷ s.overrides })

abbrev rederived : {A : Type 0} → Outcome RederiveError A → Outcome OverrideMutationError A
rederived (ok a) = ok a
rederived (err e) = err (OverrideMutationError.rederive_failed e)

module _ (env : Env) (signals : Text → Text → Option CertificateSignals)
    (active_service : Text → Text → Bool) (raw : List OwnershipRule) (audited : Bool) where
  -- the transaction behind the checks
  unfoldable pub pin :
      CertificateOwnershipOverride → ℕ → Store → Outcome OverrideMutationError Store
  unfolding create_ownership_override
  pin o now s = create_ownership_override o s >>= λ inserted.
      rederived (
        rederive_certificate env o.organization_id now o.certificate_id
          (signals o.organization_id o.certificate_id) raw (some o) inserted)
      >>= λ done. refuse_if (not audited) OverrideMutationError.audit_failed >> ok done.1

  unfoldable pub create_override :
      CreateOverrideInput → ℕ → Store → Outcome OverrideMutationError Store
  unfolding validate_create_override pin
  create_override inp now s =
      validate_create_override inp now
      >> elim (signals inp.organization_id (trim_space inp.certificate_id)) [
        | none ↦ err OverrideMutationError.cert_not_found
        | some _ ↦
            refuse_if (not (active_service inp.organization_id (trim_space inp.service_id)))
              OverrideMutationError.service_not_found
            >> pin (new_override (env.new_id s.next_id) inp now) now
                (record s { next_id = s.next_id + 1 })
      ]
