-- ===== src/Governance.antt =====
-- backend/internal/governance/types.go: the values that the ownership engine works on.
-- The string enums of the source are data types; a value outside the listed constants, which a
-- drifted database could hold, is the last constructor. Times are nanosecond counts.
use anchorix.Prelude.{ℕ, Option, Bool, true, false, List, ◌≡◌, ◌↔◌, arith}
use anchorix.Prelude.Int.{ℤ}
use anchorix.Prelude.Text.{Text, text_eq, text_eq_refl, eq_of_text_eq}

pub data PrecedenceTier : Type 0 where
  explicit service_member agent_group san_pattern : PrecedenceTier
  subject_pattern tag issuer_store fallback : PrecedenceTier
  other_tier : Text → PrecedenceTier

pub data MatchKind : Type 0 where
  san_glob san_regex subject_cn_glob agent_group : MatchKind
  issuer_dn store_location tag fallback : MatchKind
  other_kind : Text → MatchKind

pub data Decision : Type 0 where
  matched overridden unowned ambiguous : Decision

pub data Confidence : Type 0 where
  high medium low : Confidence

unfoldable pub tier_eq : PrecedenceTier → PrecedenceTier → Bool
tier_eq PrecedenceTier.explicit PrecedenceTier.explicit = true
tier_eq PrecedenceTier.service_member PrecedenceTier.service_member = true
tier_eq PrecedenceTier.agent_group PrecedenceTier.agent_group = true
tier_eq PrecedenceTier.san_pattern PrecedenceTier.san_pattern = true
tier_eq PrecedenceTier.subject_pattern PrecedenceTier.subject_pattern = true
tier_eq PrecedenceTier.tag PrecedenceTier.tag = true
tier_eq PrecedenceTier.issuer_store PrecedenceTier.issuer_store = true
tier_eq PrecedenceTier.fallback PrecedenceTier.fallback = true
tier_eq (PrecedenceTier.other_tier s) (PrecedenceTier.other_tier t) = text_eq s t
tier_eq _ _ = false

pub tier_eq_iff : (s t : PrecedenceTier) → (tier_eq s t ≡ true) ↔ (s ≡ t)
unfolding tier_eq
tier_eq_iff (PrecedenceTier.other_tier s) (PrecedenceTier.other_tier t) =
    ground (arith, eq_of_text_eq s t, text_eq_refl s)
tier_eq_iff _ _ = ground arith

unfoldable pub decision_eq : Decision → Decision → Bool
decision_eq Decision.matched Decision.matched = true
decision_eq Decision.overridden Decision.overridden = true
decision_eq Decision.unowned Decision.unowned = true
decision_eq Decision.ambiguous Decision.ambiguous = true
decision_eq _ _ = false

unfoldable pub confidence_eq : Confidence → Confidence → Bool
confidence_eq Confidence.high Confidence.high = true
confidence_eq Confidence.medium Confidence.medium = true
confidence_eq Confidence.low Confidence.low = true
confidence_eq _ _ = false

pub record OwnershipRule : Type 0 where
  pub id : Text
  pub organization_id : Text
  pub name : Text
  pub description : Text
  pub service_id : Text
  pub precedence_tier : PrecedenceTier
  pub priority : ℤ
  pub match_kind : MatchKind
  pub match_value : Text
  pub enabled : Bool
  pub created_at : ℕ
  pub updated_at : ℕ
  pub created_by : Text
  pub disabled_at : Option ℕ

pub record CertificateOwnership : Type 0 where
  pub organization_id : Text
  pub certificate_id : Text
  pub service_id : Option Text
  pub decision : Decision
  pub winning_rule_id : Option Text
  pub override_id : Option Text
  pub explanation_id : Text
  pub confidence : Confidence
  pub first_assigned_at : ℕ
  pub last_evaluated_at : ℕ
  pub last_changed_at : ℕ

pub record CertificateOwnershipOverride : Type 0 where
  pub id : Text
  pub organization_id : Text
  pub certificate_id : Text
  pub service_id : Text
  pub reason : Text
  pub set_by : Text
  pub set_at : ℕ
  pub expires_at : Option ℕ
  pub cleared_at : Option ℕ
  pub cleared_by : Option Text
  pub cleared_reason : Option Text

pub record TagPair : Type 0 where
  pub key : Text
  pub value : Text

pub record CertificateSignals : Type 0 where
  pub certificate_id : Text
  pub subject : Text
  pub issuer : Text
  pub sans : List Text
  pub store_locations : List Text
  pub observing_agent_ids : List Text
  pub observing_agent_group_ids : List Text
  pub cert_tags : List TagPair
  pub agent_tags : List TagPair
