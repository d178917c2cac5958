-- ===== src/Ownership/Recompute/Counters.antt =====
-- The counters of a pass, and what a processed certificate's row says.
use anchorix.Prelude.{
  ℕ, ◌+◌, ◌≤◌, ◌≡◌, Option, none, some, List, arith, ok, >>=-eq-ok, ok-injective, subst,
}
use anchorix.Prelude.Text.{Text}
use anchorix.Governance.{CertificateOwnership, CertificateOwnershipOverride, CertificateSignals}
use anchorix.Ownership.Engine.{CompiledRule}
use anchorix.Ownership.Decision.{OwnershipDecision, decide_ownership}
use anchorix.Ownership.Recompute.{
  Env, Pass, RecomputeOutcome, process_cert, process_decided, expire_override, accum_audit,
  count_transition,
}

-- every certificate is counted as changed or unchanged, and every change has one cause at most
pub record IsBalanced (out : RecomputeOutcome) : Type 0 where
  pub total : out.evaluated ≡ out.changed + out.unchanged
  pub causes :
      out.became_owned + out.became_unowned + out.flipped_owner + out.reclassified ≤ out.changed
  pub created : out.created_unowned ≤ out.unchanged

-- the certificate in hand is counted as evaluated, and not yet as changed or unchanged
record IsCounting (out : RecomputeOutcome) : Type 0 where
  total : out.evaluated ≡ out.changed + out.unchanged + 1
  causes :
      out.became_owned + out.became_unowned + out.flipped_owner + out.reclassified ≤ out.changed
  created : out.created_unowned ≤ out.unchanged

module _ (env : Env) (org : Text) (sig : CertificateSignals) (now : ℕ) where
  process_decided-IsBalanced :
      (prior : Option CertificateOwnership) (d : OwnershipDecision) (p : Pass)
      → IsCounting p.out
      → IsBalanced (process_decided env org sig now prior d p).out
  unfolding process_decided accum_audit count_transition
  process_decided-IsBalanced none d p h = ground arith
  process_decided-IsBalanced (some prior) d p h = ground arith

  expire_override-IsCounting :
      (o : Option CertificateOwnershipOverride) (p : Pass)
      → IsCounting p.out
      → (r : Option CertificateOwnershipOverride × Pass)
      → expire_override env org sig now o p ≡ ok r
      → IsCounting r.1.out
  unfolding expire_override
  expire_override-IsCounting none p h r e = ground arith
  expire_override-IsCounting (some o) p h r e = ground arith

  -- Processing a certificate keeps the counters of the pass balanced: every evaluated certificate
  -- is counted as changed or unchanged, and the causes of change add up to no more than the changes.
  pub process_cert-IsBalanced :
      (rules : List CompiledRule) (prior : Option CertificateOwnership)
      (o : Option CertificateOwnershipOverride) (p : Pass) {p' : Pass}
      → IsBalanced p.out
      → process_cert env org sig now rules prior o p ≡ ok p'
      → IsBalanced p'.out
  unfolding process_cert
  process_cert-IsBalanced rules prior o p h e =
      let (r, expired, decided) =
        >>=-eq-ok {A = Option CertificateOwnershipOverride × Pass} _ _ e in
      subst (λ (q : Pass). IsBalanced q.out) (ok-injective decided)
        (process_decided-IsBalanced prior (decide_ownership env.rx sig r.0 rules now) r.1
          (expire_override-IsCounting o _ (ground arith) r expired))
