-- ===== src/Ownership/Recompute.antt =====
-- ownership/recompute.go: deciding one certificate against its prior row, and the streaming pass.
pub mod Groups
pub mod Counters
pub mod Row
use anchorix.Prelude.{
  ℕ, zero, suc, ◌+◌, Option, none, some, Bool, true, false, not, ◌&&◌, ◌||◌, List, [], ◌∷◌, ◌++◌,
  ltb, leb, ◌==◌, if◌then◌else◌, Outcome, ok, err, ◌>>=◌, is_some,
}
use anchorix.Prelude.Text.{Text, codes, text_eq}
use anchorix.Governance.{
  Decision, Confidence, decision_eq, confidence_eq, CertificateOwnership,
  CertificateOwnershipOverride, CertificateSignals,
}
use anchorix.Ownership.Pattern.{Regexp}
use anchorix.Ownership.Engine.{CompiledRule, RuleCompileFailure}
use anchorix.Ownership.Decision.{OwnershipDecision, decide_ownership}
use anchorix.Ownership.Store.{
  Store, upsert_certificate_ownership, clear_ownership_override, write_explanation, build_ownership,
  same_ptr,
}
use anchorix.Ownership.Recompute.Groups.{AuditAction, AuditGroups, add_audit}

pub record ExpiredOverrideInfo : Type 0 where
  pub cert_id : Text
  pub override_id : Text
  pub service_id : Text

pub record RecomputeOutcome : Type 0 where
  pub first_run : Bool
  pub evaluated : ℕ
  pub changed : ℕ
  pub unchanged : ℕ
  pub reclassified : ℕ
  pub became_owned : ℕ
  pub became_unowned : ℕ
  pub flipped_owner : ℕ
  pub created_unowned : ℕ
  pub compile_failures : List RuleCompileFailure
  pub expired_overrides : List ExpiredOverrideInfo
  pub audit_groups : AuditGroups

pub data TxError : Type 0 where
  override_not_found : Text → TxError

-- what the service is built with: regular expressions, fresh ids, the rollup threshold
pub record Env : Type 0 where
  pub rx : Regexp
  pub new_id : ℕ → Text
  pub bulk_audit_threshold : ℕ

-- the state of the pass: its counters, and the rows of the transaction
pub record Pass : Type 0 where
  pub out : RecomputeOutcome
  pub store : Store

-- the audit action of a transition; `none` where no row is written
unfoldable pub classify : Decision → OwnershipDecision → Bool → Bool → Option AuditAction
classify from d svc_changed prior_ambiguous =
    let from_owned = not (decision_eq from Decision.unowned) in
    let now_owned = is_some d.service_id in
    let to_ambiguous = decision_eq d.decision Decision.ambiguous in
    if not from_owned && now_owned
    then if to_ambiguous then some AuditAction.ambiguous_match else some AuditAction.assigned
    else if from_owned && not now_owned
    then some AuditAction.cleared
    else if from_owned && now_owned && svc_changed
    then if to_ambiguous then some AuditAction.ambiguous_match else some AuditAction.flipped
    else if from_owned && now_owned && not svc_changed
    then if to_ambiguous && not prior_ambiguous then some AuditAction.ambiguous_match else none
    else none

abbrev or_empty : Option Text → Text
or_empty none = []
or_empty (some t) = t

unfoldable pub accum_audit :
    Env → Text → Decision → OwnershipDecision → Bool → Bool → RecomputeOutcome → RecomputeOutcome
unfolding classify
accum_audit env cert from d svc_changed prior_ambiguous out =
    elim (classify from d svc_changed prior_ambiguous) [
      | none ↦ out
      | some action ↦ record out {
        audit_groups =
            add_audit action from d.decision (or_empty d.winning_rule_id) cert
              env.bulk_audit_threshold out.audit_groups;
      }
    ]

-- an override whose expiry has passed
unfoldable pub override_expired : Option CertificateOwnershipOverride → ℕ → Bool
override_expired none now = false
override_expired (some o) now = elim o.expires_at [ none ↦ false | some t ↦ not (ltb now t) ]

-- a new explanation and the ownership row that points at it
unfoldable pub write_decided :
    Env → Text → Text → CertificateSignals → OwnershipDecision → ℕ → ℕ → ℕ → Store → Store
write_decided env org cert sig d now first_assigned last_changed s =
    let exp_id = env.new_id s.next_id in
    upsert_certificate_ownership (build_ownership org cert d exp_id first_assigned now last_changed)
      (write_explanation org sig d exp_id now (record s { next_id = s.next_id + 1 }))

unfoldable pub owner_changed : CertificateOwnership → OwnershipDecision → Bool
owner_changed prior d =
    not (decision_eq prior.decision d.decision) || not (same_ptr prior.service_id d.service_id)

unfoldable pub basis_changed : CertificateOwnership → OwnershipDecision → Bool
basis_changed prior d =
    not (same_ptr prior.winning_rule_id d.winning_rule_id)
    || not (same_ptr prior.override_id d.override_id)
    || not (confidence_eq prior.confidence d.confidence)

-- the `switch` over the owner before and after
unfoldable pub count_transition : Bool → Bool → Bool → RecomputeOutcome → RecomputeOutcome
count_transition prior_owned now_owned svc_changed out =
    if not prior_owned && now_owned
    then record out { became_owned = out.became_owned + 1 }
    else if prior_owned && not now_owned
    then record out { became_unowned = out.became_unowned + 1 }
    else if svc_changed
    then record out { flipped_owner = out.flipped_owner + 1 }
    else out

module _ (env : Env) (org : Text) (sig : CertificateSignals) (now : ℕ) where
  unfoldable pub process_new : OwnershipDecision → Pass → Pass
  process_new d p =
      let s = write_decided env org sig.certificate_id sig d now now now p.store in
      if decision_eq d.decision Decision.unowned
      then record {
        out = record (p.out) {
          unchanged = p.out.unchanged + 1;
          created_unowned = p.out.created_unowned + 1;
        };
        store = s;
      }
      else record {
        out =
            accum_audit env sig.certificate_id Decision.unowned d false false (record (p.out) {
              changed = p.out.changed + 1;
              became_owned = p.out.became_owned + 1;
            });
        store = s;
      }

  unfoldable pub process_prior : CertificateOwnership → OwnershipDecision → Pass → Pass
  process_prior prior d p =
      let prior_owned = is_some prior.service_id in
      let now_owned = is_some d.service_id in
      let svc_changed = prior_owned && now_owned && not (same_ptr prior.service_id d.service_id) in
      if not (owner_changed prior d)
      then if not (basis_changed prior d)
        then record {
          out = record (p.out) { unchanged = p.out.unchanged + 1 };
          store = upsert_certificate_ownership (record prior { last_evaluated_at = now }) p.store;
        }
        else record {
          out = record (p.out) {
            changed = p.out.changed + 1;
            reclassified = p.out.reclassified + 1;
          };
          store =
              write_decided env org sig.certificate_id sig d now prior.first_assigned_at
                prior.last_changed_at p.store;
        }
      else record {
        out =
            accum_audit env sig.certificate_id prior.decision d svc_changed
              (decision_eq prior.decision Decision.ambiguous)
              (count_transition prior_owned now_owned svc_changed
                (record (p.out) { changed = p.out.changed + 1 }));
        store =
            write_decided env org sig.certificate_id sig d now
              (if not prior_owned && now_owned then now else prior.first_assigned_at) now p.store;
      }

  unfoldable pub process_decided : Option CertificateOwnership → OwnershipDecision → Pass → Pass
  unfolding process_new process_prior
  process_decided none d p = process_new d p
  process_decided (some prior) d p = process_prior prior d p

  -- clear an override that has expired; what is left of it decides
  unfoldable pub expire_override :
      Option CertificateOwnershipOverride
      → Pass
      → Outcome TxError (Option CertificateOwnershipOverride × Pass)
  expire_override none p = ok (none, p)
  expire_override (some o) p =
      if override_expired (some o) now
      then elim (clear_ownership_override org o.id (codes "system") (codes "auto-expired") now
          p.store) [
            | none ↦ err (TxError.override_not_found o.id)
            | some s ↦ ok (
              none,
              record {
                out = record (p.out) {
                  expired_overrides =
                      p.out.expired_overrides
                      ++ record {
                        cert_id = sig.certificate_id;
                        override_id = o.id;
                        service_id = o.service_id;
                      }
                        ∷ [];
                };
                store = s;
              },
            )
          ]
      else ok (some o, p)

  unfoldable pub process_cert :
      List CompiledRule
      → Option CertificateOwnership
      → Option CertificateOwnershipOverride
      → Pass
      → Outcome TxError Pass
  process_cert rules prior override p = do
    expired ←
        expire_override override
          (record { out = record (p.out) { evaluated = p.out.evaluated + 1 }; store = p.store })
    ok (process_decided prior (decide_ownership env.rx sig expired.0 rules now) expired.1)
