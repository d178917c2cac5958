-- ===== src/Findings/Rules.antt =====
-- findings/rules_certificate.go: the six certificate rules.
pub mod Laws
use anchorix.Prelude.{
  ℕ, zero, suc, ◌+◌, ◌-◌, ◌*◌, ◌/◌, min, Option, none, some, Bool, true, false, not, ◌&&◌, ◌||◌,
  List, [], ◌∷◌, map, ltb, leb, ◌==◌, if◌then◌else◌,
}
use anchorix.Prelude.Text.{Text, codes, text_eq}
use anchorix.Findings.{Severity, Evidence, CertificateSummary, Rule}

abbrev pub second : ℕ
second = 1000000000

abbrev pub day : ℕ
day = 86400 * second

abbrev pub expiring_soon_window : ℕ
expiring_soon_window = 30 * day

abbrev pub weak_rsa_threshold_bits : ℕ
weak_rsa_threshold_bits = 2048

abbrev pub long_lived_threshold : ℕ
long_lived_threshold = 398 * day

-- `t.Sub(u)` for `u` up to `t`: a Duration saturates at 2^63 - 1
unfoldable pub sub : ℕ → ℕ → ℕ
sub t u = min (t - u) 9223372036854775807

-- `d.Truncate(time.Second)`
abbrev pub truncate : ℕ → ℕ
truncate d = d / second * second

-- `strings.ToUpper` of one code point, as far as the letters of MD5, SHA1 and RSA can result: the
-- ASCII letters and U+017F, whose capital is S
unfoldable pub upper_rune : ℕ → ℕ
upper_rune c = if leb 0x61 c && leb c 0x7a then c - 0x20 else if c == 0x17f then 0x53 else c

unfoldable pub is_prefix : Text → Text → Bool
is_prefix [] s = true
is_prefix (p ∷ ps) [] = false
is_prefix (p ∷ ps) (c ∷ s) = (p == c) && is_prefix ps s

-- `strings.Contains(s, p)`
unfoldable pub contains : Text → Text → Bool
unfolding is_prefix
contains [] p = is_prefix p []
contains (c ∷ s) p = is_prefix p (c ∷ s) || contains s p

-- `strings.EqualFold(s, p)` for the capital `p` of the rules
abbrev pub equal_fold : Text → Text → Bool
equal_fold s p = text_eq (map upper_rune s) p

unfoldable pub evaluate_expired : CertificateSummary → ℕ → Option Evidence
unfolding sub
evaluate_expired cert now =
    if not (ltb cert.not_after now)
    then none
    else some (Evidence.expired_evidence cert.not_after (truncate (sub now cert.not_after)))

unfoldable pub evaluate_expiring_soon : CertificateSummary → ℕ → Option Evidence
unfolding sub
evaluate_expiring_soon cert now =
    if not (ltb now cert.not_after)
    then none
    else if ltb expiring_soon_window (sub cert.not_after now)
    then none
    else some (
        Evidence.expiring_soon_evidence cert.not_after (truncate (sub cert.not_after now))
          (expiring_soon_window / day))

unfoldable pub evaluate_weak_signature : CertificateSummary → ℕ → Option Evidence
unfolding upper_rune contains
evaluate_weak_signature cert now =
    let upper = map upper_rune cert.signature_alg in
    if contains upper (codes "MD5")
    then some (Evidence.weak_sig_evidence cert.signature_alg (codes "MD5"))
    else if contains upper (codes "SHA1")
    then some (Evidence.weak_sig_evidence cert.signature_alg (codes "SHA1"))
    else none

unfoldable pub evaluate_weak_rsa : CertificateSummary → ℕ → Option Evidence
unfolding upper_rune
evaluate_weak_rsa cert now =
    if not (equal_fold cert.public_key_alg (codes "RSA"))
    then none
    else if leb weak_rsa_threshold_bits cert.public_key_bits
    then none
    else some (
        Evidence.weak_rsa_evidence cert.public_key_alg cert.public_key_bits weak_rsa_threshold_bits)

unfoldable pub evaluate_self_signed_leaf : CertificateSummary → ℕ → Option Evidence
evaluate_self_signed_leaf cert now =
    if not cert.is_self_signed
    then none
    else if cert.is_ca
    then none
    else some (Evidence.self_signed_leaf_evidence cert.subject)

-- a validity below zero, which never exceeds the threshold, is 0
unfoldable pub evaluate_long_lived : CertificateSummary → ℕ → Option Evidence
unfolding sub
evaluate_long_lived cert now =
    let validity = sub cert.not_after cert.not_before in
    if cert.is_ca
    then none
    else if leb validity long_lived_threshold
    then none
    else some (
        Evidence.long_lived_evidence cert.not_before cert.not_after (validity / day)
          (long_lived_threshold / day))

abbrev rule : Text → Severity → Text → (CertificateSummary → ℕ → Option Evidence) → Rule
rule id severity title evaluate = record {
  id = id;
  version = 1;
  severity = severity;
  title = title;
  evaluate = evaluate;
}

unfoldable pub default_rules : List Rule
default_rules =
    rule (codes "certificate_expired") Severity.high (codes "Certificate has expired")
      evaluate_expired
    ∷ rule (codes "certificate_expiring_soon") Severity.medium
        (codes "Certificate is expiring soon") evaluate_expiring_soon
    ∷ rule (codes "weak_signature_algorithm") Severity.high
        (codes "Certificate uses a weak signature algorithm") evaluate_weak_signature
    ∷ rule (codes "weak_rsa_key") Severity.high (codes "RSA key below 2048 bits") evaluate_weak_rsa
    ∷ rule (codes "self_signed_leaf") Severity.medium (codes "Self-signed leaf certificate")
        evaluate_self_signed_leaf
    ∷ rule (codes "long_lived_certificate") Severity.low (codes "Long-lived leaf certificate")
        evaluate_long_lived
    ∷ []
