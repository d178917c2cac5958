-- ===== src/Findings.antt =====
-- backend/internal/findings/types.go and rules.go, and the fields of inventory/list.go's
-- CertificateSummary that the rules read. Times are nanoseconds.
pub mod Rules
pub mod Diff
pub mod Override
pub mod Pairs
pub mod Table
pub mod Recompute
pub mod Service
pub mod Listing
pub mod LoadAll
mod Tests
use anchorix.Prelude.{ℕ, Option, Bool, List}
use anchorix.Prelude.Text.{Text}

pub data Severity : Type 0 where
  info low medium high critical : Severity

-- A status column holds a string: `other` is one that is none of the four constants.
pub data Status : Type 0 where
  «open» resolved acknowledged suppressed : Status
  other : Text → Status

-- the evidence structs, before they are encoded; a duration that the code prints is in nanoseconds
pub data Evidence : Type 0 where
  expired_evidence : (not_after expired_for : ℕ) → Evidence
  expiring_soon_evidence : (not_after expires_in window_days : ℕ) → Evidence
  weak_sig_evidence : (signature_algorithm weak_hash : Text) → Evidence
  weak_rsa_evidence : (public_key_algorithm : Text) (public_key_bits threshold_bits : ℕ) → Evidence
  self_signed_leaf_evidence : (subject : Text) → Evidence
  long_lived_evidence : (not_before not_after validity_days threshold_days : ℕ) → Evidence

-- the fields that listing queries join in are left out
pub record Finding : Type 0 where
  pub id : Text
  pub organization_id : Text
  pub certificate_id : Text
  pub rule_id : Text
  pub rule_version : ℕ
  pub severity : Severity
  pub status : Status
  pub title : Text
  pub evidence : Evidence
  pub first_seen_at : ℕ
  pub last_seen_at : ℕ
  pub resolved_at : Option ℕ
  pub updated_at : ℕ
  pub status_reason : Text
  pub status_actor : Text
  pub status_changed_at : Option ℕ
  pub suppress_expires_at : Option ℕ

pub record CertificateSummary : Type 0 where
  pub id : Text
  pub subject : Text
  pub signature_alg : Text
  pub public_key_alg : Text
  pub public_key_bits : ℕ
  pub not_before : ℕ
  pub not_after : ℕ
  pub is_self_signed : Bool
  pub is_ca : Bool

pub record Rule : Type 0 where
  pub id : Text
  pub version : ℕ
  pub severity : Severity
  pub title : Text
  pub evaluate : CertificateSummary → ℕ → Option Evidence
