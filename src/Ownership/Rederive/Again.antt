-- ===== src/Ownership/Rederive/Again.antt =====
-- A second pass over unchanged inputs writes no explanation and reports no change.
use anchorix.Prelude.{ℕ, ◌+◌, ◌≡◌, refl, ap, ◌∙◌, Option, none, some, false, List, arith, ok}
use anchorix.Prelude.Text.{Text}
use anchorix.Governance.{CertificateOwnership, CertificateOwnershipOverride, CertificateSignals}
use anchorix.Ownership.Engine.{CompiledRule}
use anchorix.Ownership.Decision.{OwnershipDecision, decide_ownership, override_active}
use anchorix.Ownership.Store.{get_certificate_ownership, upsert_certificate_ownership}
use anchorix.Ownership.Recompute.{
  Env, Pass, process_cert, process_decided, override_expired, owner_changed, basis_changed,
}
use anchorix.Ownership.Recompute.Row.{
  Shows, same_ptr_refl, decision_eq_refl, confidence_eq_refl, process_cert-Written,
}
use anchorix.Ownership.Rederive.Agrees.{process_cert-live, counted}

-- nothing but the evaluation is recorded
pub record OnlyEvaluated (before after : Pass) : Type 0 where
  pub explanations : after.store.explanations ≡ before.store.explanations
  pub ids : after.store.next_id ≡ before.store.next_id
  pub audit : after.out.audit_groups ≡ before.out.audit_groups
  pub changed : after.out.changed ≡ before.out.changed
  pub unchanged : after.out.unchanged ≡ before.out.unchanged + 1

Shows-stable :
    (row : CertificateOwnership) (d : OwnershipDecision) (now : ℕ)
    → Shows row d now
    → (owner_changed row d ≡ false) × (basis_changed row d ≡ false)
unfolding owner_changed basis_changed
Shows-stable row d now h = (
  rw (h.decision, h.service)
      (ground (arith, decision_eq_refl d.decision, same_ptr_refl d.service_id)),
  rw (h.rule, h.override, h.confidence)
      (ground (
        arith,
        same_ptr_refl d.winning_rule_id,
        same_ptr_refl d.override_id,
        confidence_eq_refl d.confidence,
      )),
)

module _ (env : Env) (org : Text) (sig : CertificateSignals) where
  process_decided-OnlyEvaluated :
      (row : CertificateOwnership) (d : OwnershipDecision) (now : ℕ) (p : Pass)
      → owner_changed row d ≡ false
      → basis_changed row d ≡ false
      → OnlyEvaluated p (process_decided env org sig now (some row) d (counted p))
  unfolding process_decided upsert_certificate_ownership
  process_decided-OnlyEvaluated row d now p o b = ground arith

  decide-live :
      (rules : List CompiledRule) (o : Option CertificateOwnershipOverride) (now later : ℕ)
      → override_expired o now ≡ false
      → override_expired o later ≡ false
      → decide_ownership env.rx sig o rules later ≡ decide_ownership env.rx sig o rules now
  unfolding decide_ownership override_expired override_active
  decide-live rules none now later p q = refl
  decide-live rules (some o) now later p q = ground arith

  -- If a certificate is processed twice with the same signals and rules, and its override has not
  -- expired at either time, the second time succeeds, writes no explanation, uses no id, adds no
  -- audit intent, and counts the certificate as unchanged.
  pub process_cert_again :
      (rules : List CompiledRule) (o : Option CertificateOwnershipOverride) (now later : ℕ)
      (p : Pass) {p' : Pass}
      → override_expired o now ≡ false
      → override_expired o later ≡ false
      → process_cert env org sig now rules
          (get_certificate_ownership org sig.certificate_id p.store)
          o
          p
        ≡ ok p'
      → (p'' : Pass) × (process_cert env org sig later rules
            (get_certificate_ownership org sig.certificate_id p'.store)
            o
            p'
          ≡ ok p'')
        × OnlyEvaluated p' p''
  process_cert_again rules o now later p {p'} live still e =
      let w = process_cert-Written env org sig now rules o p e in
      let d = decide_ownership env.rx sig o rules now in
      let stable = Shows-stable w.row d now w.shows in
      (
        process_decided env org sig later (some w.row) d (counted p'),
        rw w.found (
            process_cert-live env org sig later rules (some w.row) o p' still
            ∙ ap (λ x. ok (process_decided env org sig later (some w.row) x (counted p')))
                (decide-live rules o now later live still)),
        process_decided-OnlyEvaluated w.row d later p' stable.0 stable.1,
      )
