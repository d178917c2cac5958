-- ===== src/Ownership/Rederive.antt =====
-- ownership/rederive.go: recomputing the ownership of one certificate in a mutation's transaction.
pub mod Agrees
pub mod Again
use anchorix.Prelude.{
  ℕ, ◌+◌, Option, none, some, Bool, true, false, not, ◌&&◌, List, if◌then◌else◌, Outcome, ok, err,
  ◌>>=◌, is_some,
}
use anchorix.Prelude.Text.{Text}
use anchorix.Governance.{
  Decision, OwnershipRule, CertificateOwnership, CertificateOwnershipOverride, CertificateSignals,
}
use anchorix.Ownership.Engine.{EngineError, compile_rules}
use anchorix.Ownership.Decision.{OwnershipDecision, decide_ownership}
use anchorix.Ownership.Store.{Store, upsert_certificate_ownership, get_certificate_ownership}
use anchorix.Ownership.Recompute.{Env, write_decided, owner_changed, basis_changed}

pub record RederiveResult : Type 0 where
  pub from_decision : Decision
  pub to_decision : Decision
  pub from_service : Option Text
  pub to_service : Option Text
  pub winning_rule : Option Text
  pub changed : Bool

pub data RederiveError : Type 0 where
  override_cert_not_found : RederiveError
  engine : EngineError → RederiveError

abbrev engine_result : {A : Type 0} → Outcome EngineError A → Outcome RederiveError A
engine_result (ok a) = ok a
engine_result (err e) = err (RederiveError.engine e)

module _ (env : Env) (org : Text) (now : ℕ) where
  -- the branches behind `decideOwnership`, on the prior row
  unfoldable pub rederive_decided :
      Text
      → CertificateSignals
      → Option CertificateOwnership
      → OwnershipDecision
      → Store
      → RederiveResult × Store
  rederive_decided cert sig none d s = (
    record {
      from_decision = Decision.unowned;
      to_decision = d.decision;
      from_service = none;
      to_service = d.service_id;
      winning_rule = d.winning_rule_id;
      changed = is_some d.service_id;
    },
    write_decided env org cert sig d now now now s,
  )
  rederive_decided cert sig (some prior) d s =
      let res : RederiveResult = record {
        from_decision = prior.decision;
        to_decision = d.decision;
        from_service = prior.service_id;
        to_service = d.service_id;
        winning_rule = d.winning_rule_id;
        changed = true;
      } in
      if not (owner_changed prior d)
      then if not (basis_changed prior d)
        then (
          record res { changed = false },
          upsert_certificate_ownership (record prior { last_evaluated_at = now }) s,
        )
        else (
          record res { changed = false },
          write_decided env org cert sig d now prior.first_assigned_at prior.last_changed_at s,
        )
      else (
        res,
        write_decided env org cert sig d now
            (if not (is_some prior.service_id) && is_some d.service_id
              then now
              else prior.first_assigned_at)
            now s,
      )

  -- `sig` and `raw` are what the reads of the certificate's signals and of the rules return.
  unfoldable pub rederive_certificate :
      Text
      → Option CertificateSignals
      → List OwnershipRule
      → Option CertificateOwnershipOverride
      → Store
      → Outcome RederiveError (RederiveResult × Store)
  unfolding rederive_decided
  rederive_certificate cert none raw override s = err RederiveError.override_cert_not_found
  rederive_certificate cert (some sig) raw override s = do
    rules ← engine_result (compile_rules env.rx raw)
    ok (
        rederive_decided cert sig (get_certificate_ownership org cert s)
          (decide_ownership env.rx sig override rules.0 now) s)
