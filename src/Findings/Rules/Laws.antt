-- ===== src/Findings/Rules/Laws.antt =====
-- When the certificate rules fire.
use anchorix.Prelude.{
  ap₂, map, none, [], ◌∷◌, ◌++◌, ==_iff, ap, sym, Bool-cases, ℕ, ◌+◌, ◌≤◌, ◌<◌, ◌≡◌, ◌↔◌, refl,
  true, false, arith, is_some, ◌⊎◌, inl, inr,
}
use anchorix.Prelude.Text.{Text, codes}
use anchorix.Findings.{CertificateSummary}
use anchorix.Findings.Rules.{
  evaluate_expired, evaluate_expiring_soon, evaluate_long_lived, expiring_soon_window,
  long_lived_threshold, sub, is_prefix, contains, evaluate_weak_signature, upper_rune,
}

evaluate_expired-fires :
    (cert : CertificateSummary) (now : ℕ)
    → (is_some (evaluate_expired cert now) ≡ true) ↔ (cert.not_after < now)
unfolding evaluate_expired
evaluate_expired-fires cert now = ground arith

evaluate_expiring_soon-fires :
    (cert : CertificateSummary) (now : ℕ)
    → (is_some (evaluate_expiring_soon cert now) ≡ true)
      ↔ ((now < cert.not_after) × (cert.not_after ≤ now + expiring_soon_window))
unfolding evaluate_expiring_soon sub
evaluate_expiring_soon-fires cert now = ground arith

evaluate_long_lived-fires :
    (cert : CertificateSummary) (now : ℕ)
    → (is_some (evaluate_long_lived cert now) ≡ true)
      ↔ ((cert.is_ca ≡ false) × (cert.not_before + long_lived_threshold < cert.not_after))
unfolding evaluate_long_lived sub
evaluate_long_lived-fires cert now = ground arith

-- At the moment `not_after` itself neither of the two expiry rules fires.
pub expiry_rules-boundary :
    (cert : CertificateSummary) (now : ℕ)
    → cert.not_after ≡ now
    → (evaluate_expired cert now ≡ none) × (evaluate_expiring_soon cert now ≡ none)
unfolding evaluate_expired evaluate_expiring_soon
expiry_rules-boundary cert now e = ground arith

-- The expiry rule fires exactly behind `not_after`, the expiring-soon rule exactly strictly
-- before it and at most thirty days ahead of it, and the long-lived rule exactly for a leaf
-- whose validity exceeds 398 days.
pub validity_rules-fire :
    (cert : CertificateSummary) (now : ℕ)
    → ((is_some (evaluate_expired cert now) ≡ true) ↔ (cert.not_after < now))
      × ((is_some (evaluate_expiring_soon cert now) ≡ true)
          ↔ ((now < cert.not_after) × (cert.not_after ≤ now + expiring_soon_window)))
      × ((is_some (evaluate_long_lived cert now) ≡ true)
          ↔ ((cert.is_ca ≡ false) × (cert.not_before + long_lived_threshold < cert.not_after)))
validity_rules-fire cert now = (
  evaluate_expired-fires cert now,
  evaluate_expiring_soon-fires cert now,
  evaluate_long_lived-fires cert now,
)

-- `p` stands somewhere in `s`
abbrev pub Occurs : Text → Text → Type 0
Occurs p s = (before : Text) × (after : Text) × (s ≡ before ++ p ++ after)

cons-injective :
    {a b : ℕ} {s t : Text} → ◌≡◌ {A = Text} (a ∷ s) (b ∷ t) → (a ≡ b) × ◌≡◌ {A = Text} s t
cons-injective e = (cc, cc)

is_prefix-before :
    (p s : Text) → is_prefix p s ≡ true → (after : Text) × ◌≡◌ {A = Text} s (p ++ after)
unfolding is_prefix
is_prefix-before [] s h = (s, refl)
is_prefix-before (p ∷ ps) [] h = absurd (ground arith)
is_prefix-before (p ∷ ps) (c ∷ s) h =
    let (after, e) = is_prefix-before ps s (ground arith) in
    (after, ap₂ (λ x (y : Text). x ∷ y) (sym ((==_iff p c).0 (ground arith))) e)

is_prefix-append : (p s after : Text) → ◌≡◌ {A = Text} s (p ++ after) → is_prefix p s ≡ true
unfolding is_prefix
is_prefix-append [] s after e = refl
is_prefix-append (p ∷ ps) [] after e = absurd (ground arith)
is_prefix-append (p ∷ ps) (c ∷ s) after e =
    let (same, rest) = cons-injective e in ground (arith, same, is_prefix-append ps s after rest)

contains-prefix : (s p : Text) → is_prefix p s ≡ true → contains s p ≡ true
unfolding contains
contains-prefix [] p h = h
contains-prefix (c ∷ s) p h = rw h refl

contains-Occurs : (s p : Text) → contains s p ≡ true → Occurs p s
unfolding contains
contains-Occurs [] p h = let (after, e) = is_prefix-before p [] h in ([], after, e)
contains-Occurs (c ∷ s) p h = elim (Bool-cases (is_prefix p (c ∷ s))) [
  | inl here ↦ let (after, e) = is_prefix-before p (c ∷ s) here in ([], after, e)
  | inr later ↦
      let (before, after, e) = contains-Occurs s p (ground arith) in
      (c ∷ before, after, ap (λ (y : Text). c ∷ y) e)
]

Occurs-contains :
    (before s p after : Text) → ◌≡◌ {A = Text} s (before ++ p ++ after) → contains s p ≡ true
unfolding contains
Occurs-contains [] s p after e = contains-prefix s p (is_prefix-append p s after e)
Occurs-contains (b ∷ before) [] p after e = absurd (ground arith)
Occurs-contains (b ∷ before) (c ∷ s) p after e =
    ground (arith, Occurs-contains before s p after (cons-injective e).1)

contains_iff : (s p : Text) → (contains s p ≡ true) ↔ Occurs p s
contains_iff s p = (contains-Occurs s p, λ (before, after, e). Occurs-contains before s p after e)

-- The weak-signature rule fires exactly if MD5 or SHA1 occurs in the capitalized name of the
-- signature algorithm.
pub evaluate_weak_signature-fires :
    (cert : CertificateSummary) (now : ℕ)
    → (is_some (evaluate_weak_signature cert now) ≡ true) ↔ (
        Occurs (codes "MD5") (map upper_rune cert.signature_alg)
        ⊎ Occurs (codes "SHA1") (map upper_rune cert.signature_alg))
unfolding evaluate_weak_signature
evaluate_weak_signature-fires cert now =
    let upper = map upper_rune cert.signature_alg in
    let md5 = contains_iff upper (codes "MD5") in
    let sha1 = contains_iff upper (codes "SHA1") in
    (
      λ h. elim (Bool-cases (contains upper (codes "MD5"))) [
        | inl found ↦ inl (md5.0 found)
        | inr missing ↦ inr (sha1.0 (ground arith))
      ],
      λ occurs. elim occurs [
        | inl found ↦ weak (inl (md5.1 found))
        | inr found ↦ weak (inr (sha1.1 found))
      ],
    )
  where
    weak :
        (contains (map upper_rune cert.signature_alg) (codes "MD5") ≡ true)
          ⊎ (contains (map upper_rune cert.signature_alg) (codes "SHA1") ≡ true)
        → is_some (evaluate_weak_signature cert now) ≡ true
    weak h = ground arith
