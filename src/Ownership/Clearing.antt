-- ===== src/Ownership/Clearing.antt =====
-- ownership/override_mutations.go: ClearOverride. The active override is read before the
-- transaction, whose rows another writer may have changed since: `seen` are the rows of the read, `s`
-- those of the transaction. `signals`, `raw` and `audited` are as for CreateOverride.
pub mod Rules
use anchorix.Prelude.{
  ℕ, Option, none, some, Bool, not, ◌&&◌, List, [], ◌∷◌, ltb, if◌then◌else◌, Outcome, ok, err,
  ◌>>=◌, ◌>>◌, refuse_if, true, false,
}
use anchorix.Prelude.Text.{Text, text_eq, trim_space, is_empty, byte_len}
use anchorix.Governance.{OwnershipRule, CertificateOwnershipOverride, CertificateSignals}
use anchorix.Ownership.Store.{Store, clear_ownership_override, first_override, has_id}
use anchorix.Ownership.Recompute.{Env}
use anchorix.Ownership.Rederive.{RederiveResult, RederiveError, rederive_certificate}
use anchorix.Ownership.Mutations.{
  OverrideMutationError, max_override_reason_len, require_override_org_actor,
}

pub record ClearOverrideInput : Type 0 where
  pub organization_id : Text
  pub actor_user_id : Text
  pub certificate_id : Text
  pub reason : Text

unfoldable pub validate_clear_override :
    ClearOverrideInput → Outcome OverrideMutationError (Unit {0})
validate_clear_override inp =
    require_override_org_actor inp.organization_id inp.actor_user_id
    >> refuse_if (is_empty (trim_space inp.certificate_id))
        OverrideMutationError.certificate_id_required
    >> refuse_if (is_empty (trim_space inp.reason)) OverrideMutationError.reason_required
    >> refuse_if (ltb max_override_reason_len (byte_len (trim_space inp.reason)))
        OverrideMutationError.reason_too_long

-- the WHERE clause: this organization, this certificate, not yet cleared
abbrev pub is_active_on : Text → Text → CertificateOwnershipOverride → Bool
is_active_on org cert o =
    text_eq o.organization_id org
    && (text_eq o.certificate_id cert && elim o.cleared_at [ none ↦ true | some _ ↦ false ])

-- `none` is "no active override", which is not an error
unfoldable pub get_active_ownership_override :
    Text → Text → Store → Option CertificateOwnershipOverride
unfolding first_override
get_active_ownership_override org cert s = first_override (is_active_on org cert) s.overrides

-- `none` is `ErrOwnershipOverrideNotFound`
unfoldable pub get_ownership_override : Text → Text → Store → Option CertificateOwnershipOverride
unfolding first_override
get_ownership_override org id s = first_override (has_id org id) s.overrides

abbrev pub found_or :
    {A : Type 0} → OverrideMutationError → Option A → Outcome OverrideMutationError A
found_or e none = err e
found_or e (some a) = ok a

abbrev pub rederived_or : {A : Type 0} → Outcome RederiveError A → Outcome OverrideMutationError A
rederived_or (ok a) = ok a
rederived_or (err e) = err (OverrideMutationError.rederive_failed e)

module _ (env : Env) (signals : Text → Text → Option CertificateSignals) (raw : List OwnershipRule)
    (audited : Bool) where
  -- the transaction, for the override of this id
  unfoldable pub clear :
      ClearOverrideInput
      → Text
      → ℕ
      → Store
      → Outcome OverrideMutationError (CertificateOwnershipOverride × Store)
  unfolding get_ownership_override
  clear inp id now s = do
    cleared ← found_or OverrideMutationError.cert_not_found (
        clear_ownership_override inp.organization_id id inp.actor_user_id (trim_space inp.reason)
          now s)
    done ← rederived_or (
        rederive_certificate env inp.organization_id now (trim_space inp.certificate_id)
          (signals inp.organization_id (trim_space inp.certificate_id)) raw none cleared)
    got ←
        found_or OverrideMutationError.override_not_found
          (get_ownership_override inp.organization_id id done.1)
    recorded ← refuse_if (not audited) OverrideMutationError.audit_failed
    ok (got, done.1)

  unfoldable pub clear_override :
      ClearOverrideInput
      → ℕ
      → Store
      → Store
      → Outcome OverrideMutationError (CertificateOwnershipOverride × Store)
  unfolding validate_clear_override get_active_ownership_override clear
  clear_override inp now seen s = do
    valid ← validate_clear_override inp
    active ←
        found_or OverrideMutationError.cert_not_found
          (get_active_ownership_override inp.organization_id (trim_space inp.certificate_id) seen)
    clear inp active.id now s
