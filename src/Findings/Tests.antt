-- ===== src/Findings/Tests.antt =====
-- Transitions, overrides and rules on concrete findings and certificates.
use anchorix.Prelude.{
  ◌≡◌, ◌↔◌, ◌⊎◌, refl, ◌+◌, ◌≤◌, ◌<◌, Option, none, some, true, false, [], ◌∷◌, map, ok, is_some,
}
use anchorix.Prelude.Text.{Text, codes, byte_len, is_empty, text_eq, trim_space}
use anchorix.Findings.{Severity, Status, Evidence, Finding, CertificateSummary, Rule}
use anchorix.Findings.Rules.{
  expiring_soon_window, long_lived_threshold, upper_rune, evaluate_expired, evaluate_expiring_soon,
  evaluate_long_lived, evaluate_weak_signature, evaluate_self_signed_leaf, default_rules,
  evaluate_weak_rsa,
}
use anchorix.Findings.Rules.Laws.{
  Occurs, validity_rules-fire, expiry_rules-boundary, evaluate_weak_signature-fires,
}
use anchorix.Findings.Diff.{
  Transition, DiffOp, CounterBucket, decide_match_transition, decide_no_match_transition,
  new_finding, reconfirm, clear_override, resolve,
}
use anchorix.Findings.Diff.Machine.{WellFormed, Reconfirmed, decide_match_transition-Reconfirmed}
use anchorix.Findings.Diff.Resolving.{LeftAlone, Resolves, decide_no_match_transition-Ends}
use anchorix.Findings.Diff.Again.{
  failed, confirms, decide_transition-failed, decide_match_transition-again,
}
use anchorix.Findings.Override.{
  AcknowledgeInput, SuppressInput, acknowledge_finding, suppress_finding, acknowledge_request,
  suppress_request, overridden, validate_reason,
}
use anchorix.Findings.Override.Keeps.{
  Accepted, Settles, acknowledge_finding-Accepted, suppress_finding-Accepted,
  suppress_finding-Settles,
}

abbrev cert : CertificateSummary
cert = record {
  id = codes "cert";
  subject = codes "CN=a";
  signature_alg = codes "Sha1-RSA";
  public_key_alg = codes "RSA";
  public_key_bits = 2048;
  not_before = 1000;
  not_after = 5000;
  is_self_signed = true;
  is_ca = false;
}

abbrev self_signed : Rule
self_signed = record {
  id = codes "self_signed_leaf";
  version = 1;
  severity = Severity.medium;
  title = codes "Self-signed leaf certificate";
  evaluate = evaluate_self_signed_leaf;
}

abbrev evidence : Evidence
evidence = Evidence.self_signed_leaf_evidence (codes "CN=a")

abbrev opened : Finding
opened = new_finding (codes "f") (codes "org") (codes "cert") self_signed evidence 100

opened-WellFormed : WellFormed opened
opened-WellFormed = record {
  resolution = refl;
  reason = λ _. refl;
  actor = λ _. refl;
  changed = λ _. refl;
  expiry = λ _. refl;
}

-- a suppressed finding that expires at 300
abbrev suppress_input : SuppressInput
suppress_input = record {
  organization_id = codes "org";
  finding_id = codes "f";
  actor_user_id = codes "u";
  reason = codes " why ";
  expires_at = some 300;
}

abbrev suppressed : Finding
suppressed = overridden (suppress_request suppress_input) 151 opened

abbrev get : Text → Text → Option Finding
get org id = some opened

abbrev reopened : Finding
reopened = clear_override (record (reconfirm self_signed evidence 300 suppressed) {
  status = Status.«open»;
  resolved_at = none;
})

abbrev reopening : Transition
reopening = record { next = some reopened; op = DiffOp.update; bucket = CounterBucket.opened }

abbrev resolving : Transition
resolving = record {
  next = some (resolve 200 opened);
  op = DiffOp.update;
  bucket = CounterBucket.resolved;
}

decide_match_transition-Reconfirmed_example :
    (f : Finding) × Reconfirmed opened self_signed 200
      (record {
        next = some (reconfirm self_signed evidence 200 opened);
        op = DiffOp.update;
        bucket = CounterBucket.updated;
      })
      f
unfolding decide_match_transition
decide_match_transition-Reconfirmed_example =
    decide_match_transition-Reconfirmed (codes "g") (codes "org") (codes "cert") opened self_signed
      evidence 200
      (record {
        next = some (reconfirm self_signed evidence 200 opened);
        op = DiffOp.update;
        bucket = CounterBucket.updated;
      })
      opened-WellFormed refl

decide_no_match_transition-Ends_example :
    LeftAlone opened resolving ⊎ ((f : Finding) × Resolves opened 200 resolving f)
unfolding decide_no_match_transition
decide_no_match_transition-Ends_example =
    decide_no_match_transition-Ends opened 200 resolving opened-WellFormed refl

abbrev unknown : Finding
unknown = record opened { status = Status.other (codes "closed") }

decide_transition-failed_example :
    (failed (
        decide_match_transition
          (codes "g")
          (some unknown)
          (codes "org")
          (codes "cert")
          self_signed
          evidence
          200)
      ≡ true)
    × (failed (decide_no_match_transition (some unknown) 200) ≡ true)
decide_transition-failed_example =
    decide_transition-failed (codes "g") (codes "org") (codes "cert") unknown self_signed evidence
      200

decide_match_transition-again_example :
    decide_match_transition
      (codes "g")
      (some reopened)
      (codes "org")
      (codes "cert")
      self_signed
      evidence
      300
    ≡ ok (confirms reopened)
unfolding decide_match_transition
decide_match_transition-again_example =
    decide_match_transition-again (codes "g") (codes "org") (codes "cert") (some suppressed)
      self_signed evidence 300 reopening reopened refl refl

abbrev acknowledge_input : AcknowledgeInput
acknowledge_input = record {
  organization_id = codes "org";
  finding_id = codes "f";
  actor_user_id = codes "u";
  reason = codes " why ";
}

acknowledge_finding-Accepted_example :
    Accepted Status.acknowledged none 150
      (some opened)
      (overridden (acknowledge_request acknowledge_input) 150 opened)
unfolding acknowledge_finding is_empty trim_space validate_reason byte_len
acknowledge_finding-Accepted_example =
    acknowledge_finding-Accepted get true acknowledge_input 150
      (overridden (acknowledge_request acknowledge_input) 150 opened) refl

suppress_finding-Accepted_example :
    Accepted Status.suppressed (some 300) 151 (some opened) suppressed × (150 < 300)
unfolding suppress_finding is_empty trim_space validate_reason byte_len
suppress_finding-Accepted_example =
    suppress_finding-Accepted get true suppress_input 150 151 suppressed refl

suppress_finding-Settles_example : Settles (some 300) 300 (
    decide_match_transition
      (codes "g")
      (some suppressed)
      (codes "org")
      (codes "cert")
      self_signed
      evidence
      300)
unfolding suppress_finding is_empty trim_space validate_reason byte_len
suppress_finding-Settles_example =
    suppress_finding-Settles get true suppress_input 150 151 suppressed refl (codes "g")
      (codes "org") (codes "cert") self_signed evidence 300

validity_rules-fire_example :
    ((is_some (evaluate_expired cert 6000) ≡ true) ↔ (5000 < 6000))
    × ((is_some (evaluate_expiring_soon cert 6000) ≡ true)
        ↔ ((6000 < 5000) × (5000 ≤ 6000 + expiring_soon_window)))
    × ((is_some (evaluate_long_lived cert 6000) ≡ true)
        ↔ ((false ≡ false) × (1000 + long_lived_threshold < 5000)))
validity_rules-fire_example = validity_rules-fire cert 6000

expiry_rules-boundary_example :
    (evaluate_expired cert 5000 ≡ none) × (evaluate_expiring_soon cert 5000 ≡ none)
expiry_rules-boundary_example = expiry_rules-boundary cert 5000 refl

evaluate_weak_signature-fires_example : (is_some (evaluate_weak_signature cert 0) ≡ true) ↔ (
    Occurs (codes "MD5") (map upper_rune (codes "Sha1-RSA"))
    ⊎ Occurs (codes "SHA1") (map upper_rune (codes "Sha1-RSA")))
evaluate_weak_signature-fires_example = evaluate_weak_signature-fires cert 0

-- the rules that fire on the certificate at 6000
fired :
    map (λ (r : Rule). is_some (r.evaluate cert 6000)) default_rules
    ≡ true ∷ false ∷ true ∷ false ∷ true ∷ false ∷ []
unfolding default_rules evaluate_expired evaluate_expiring_soon evaluate_weak_signature
    evaluate_weak_rsa evaluate_self_signed_leaf evaluate_long_lived text_eq
fired = refl
