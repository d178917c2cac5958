-- ===== src/Ownership/Store.antt =====
-- The rows that the engine reads and writes inside one transaction: the statements of
-- backend/internal/storage/postgres/governance_ownership_repository.go as functions on tables, and
-- the explanation builders of ownership/explanation.go and ownership/recompute.go.
pub mod Laws
pub mod Clears
use anchorix.Prelude.{
  ℕ, zero, suc, ◌+◌, Option, none, some, Bool, true, false, not, ◌&&◌, List, [], ◌∷◌, ◌++◌, ◌==◌,
  if◌then◌else◌, Outcome, ok, err,
}
use anchorix.Prelude.Text.{Text, codes, text_eq}
use anchorix.Governance.{
  Decision, Confidence, CertificateOwnership, CertificateOwnershipOverride, TagPair,
  CertificateSignals,
}
use anchorix.Ownership.Pattern.{parse_cn}
use anchorix.Ownership.Decision.{LosingRuleInfo, OwnershipDecision}

-- the JSON object that `buildSignalsSeenJSON` marshals
pub record SignalsSeen : Type 0 where
  pub subject_cn : Text
  pub sans : List Text
  pub issuer : Text
  pub store_locations : List Text
  pub agent_ids : List Text
  pub agent_group_ids : List Text
  pub cert_tags : List TagPair
  pub agent_tags : List TagPair

pub record OwnershipMatchExplanation : Type 0 where
  pub id : Text
  pub organization_id : Text
  pub certificate_id : Text
  pub decided_at : ℕ
  pub decided_decision : Decision
  pub decided_service_id : Option Text
  pub winning_rule_id : Option Text
  pub losing_rules : List LosingRuleInfo
  pub signals_seen : SignalsSeen
  pub engine_version : ℕ

abbrev pub engine_version : ℕ
engine_version = 1

-- `next_id` counts the calls of `ids.New`, whose results are a parameter of the model.
pub record Store : Type 0 where
  pub ownerships : List CertificateOwnership
  pub overrides : List CertificateOwnershipOverride
  pub explanations : List OwnershipMatchExplanation
  pub next_id : ℕ

-- the composite primary key of `certificate_ownership`
abbrev pub owns_key : Text → Text → CertificateOwnership → Bool
owns_key org cert o = text_eq o.organization_id org && text_eq o.certificate_id cert

upsert_row : CertificateOwnership → List CertificateOwnership → List CertificateOwnership
upsert_row o [] = o ∷ []
upsert_row o (r ∷ rs) =
    let rest = upsert_row o rs in
    if owns_key o.organization_id o.certificate_id r then o ∷ rs else r ∷ rest

unfoldable pub upsert_certificate_ownership : CertificateOwnership → Store → Store
unfolding upsert_row
upsert_certificate_ownership o s = record s { ownerships = upsert_row o s.ownerships }

find_row : Text → Text → List CertificateOwnership → Option CertificateOwnership
find_row org cert [] = none
find_row org cert (r ∷ rs) =
    let rest = find_row org cert rs in if owns_key org cert r then some r else rest

-- `none` is `ErrCertificateOwnershipNotFound`
unfoldable pub get_certificate_ownership : Text → Text → Store → Option CertificateOwnership
unfolding find_row
get_certificate_ownership org cert s = find_row org cert s.ownerships

-- the WHERE clause of the UPDATE: this organization, this id, not yet cleared
abbrev pub is_active_override : Text → Text → CertificateOwnershipOverride → Bool
is_active_override org id o =
    text_eq o.organization_id org
    && text_eq o.id id
    && elim o.cleared_at [ none ↦ true | some _ ↦ false ]

clear_rows :
    Text
    → Text
    → Text
    → Text
    → ℕ
    → List CertificateOwnershipOverride
    → Option (List CertificateOwnershipOverride)
clear_rows org id by reason at [] = none
clear_rows org id by reason at (o ∷ os) =
    let rest = clear_rows org id by reason at os in
    if is_active_override org id o
    then some
        (record o { cleared_at = some at; cleared_by = some by; cleared_reason = some reason } ∷ os)
    else elim rest [ none ↦ none | some os' ↦ some (o ∷ os') ]

-- `none` is `ErrOwnershipOverrideNotFound`: no row was affected
unfoldable pub clear_ownership_override : Text → Text → Text → Text → ℕ → Store → Option Store
unfolding clear_rows
clear_ownership_override org id by reason at s = elim (clear_rows org id by reason at s.overrides) [
  | none ↦ none
  | some os ↦ some (record s { overrides = os })
]

unfoldable pub build_signals_seen : CertificateSignals → SignalsSeen
build_signals_seen sig = record {
  subject_cn = parse_cn sig.subject;
  sans = sig.sans;
  issuer = sig.issuer;
  store_locations = sig.store_locations;
  agent_ids = sig.observing_agent_ids;
  agent_group_ids = sig.observing_agent_group_ids;
  cert_tags = sig.cert_tags;
  agent_tags = sig.agent_tags;
}

unfoldable pub write_explanation :
    Text → CertificateSignals → OwnershipDecision → Text → ℕ → Store → Store
unfolding build_signals_seen
write_explanation org sig d exp_id now s = record s {
  explanations =
      record {
        id = exp_id;
        organization_id = org;
        certificate_id = sig.certificate_id;
        decided_at = now;
        decided_decision = d.decision;
        decided_service_id = d.service_id;
        winning_rule_id = d.winning_rule_id;
        losing_rules = d.losing;
        signals_seen = build_signals_seen sig;
        engine_version = engine_version;
      }
      ∷ s.explanations;
}

unfoldable pub build_ownership :
    Text → Text → OwnershipDecision → Text → ℕ → ℕ → ℕ → CertificateOwnership
build_ownership org cert d exp_id first_assigned last_evaluated last_changed = record {
  organization_id = org;
  certificate_id = cert;
  service_id = d.service_id;
  decision = d.decision;
  winning_rule_id = d.winning_rule_id;
  override_id = d.override_id;
  explanation_id = exp_id;
  confidence = d.confidence;
  first_assigned_at = first_assigned;
  last_evaluated_at = last_evaluated;
  last_changed_at = last_changed;
}

unfoldable pub same_ptr : Option Text → Option Text → Bool
same_ptr none none = true
same_ptr none (some _) = false
same_ptr (some _) none = false
same_ptr (some a) (some b) = text_eq a b

-- the first override of this id
abbrev pub has_id : Text → Text → CertificateOwnershipOverride → Bool
has_id org id o = text_eq o.organization_id org && text_eq o.id id

unfoldable pub first_override :
    (CertificateOwnershipOverride → Bool)
    → List CertificateOwnershipOverride
    → Option CertificateOwnershipOverride
first_override p [] = none
first_override p (o ∷ os) = let rest = first_override p os in if p o then some o else rest
