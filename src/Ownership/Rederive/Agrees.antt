-- ===== src/Ownership/Rederive/Agrees.antt =====
-- Re-deriving one certificate writes what the streaming pass writes for it.
use anchorix.Prelude.{
  ℕ, ◌≡◌, refl, ap, Option, none, some, false, List, arith, ok, ok-injective, sym, ◌∙◌, ◌+◌,
}
use anchorix.Prelude.Text.{Text}
use anchorix.Governance.{
  OwnershipRule, CertificateOwnership, CertificateOwnershipOverride, CertificateSignals,
}
use anchorix.Ownership.Engine.{Compiled, CompiledRule, compile_rules}
use anchorix.Ownership.Decision.{OwnershipDecision, decide_ownership}
use anchorix.Ownership.Store.{Store, get_certificate_ownership}
use anchorix.Ownership.Recompute.{
  Env, Pass, process_cert, process_decided, expire_override, override_expired,
}
use anchorix.Ownership.Rederive.{RederiveResult, rederive_decided, rederive_certificate}

-- the certificate in hand is counted as evaluated
abbrev pub counted : Pass → Pass
counted p = record { out = record (p.out) { evaluated = p.out.evaluated + 1 }; store = p.store }

module _ (env : Env) (org : Text) (sig : CertificateSignals) (now : ℕ) where
  pub store-process_decided :
      (prior : Option CertificateOwnership) (d : OwnershipDecision) (p : Pass)
      → (process_decided env org sig now prior d p).store
        ≡ (rederive_decided env org now sig.certificate_id sig prior d p.store).1
  unfolding process_decided rederive_decided
  store-process_decided none d p = ground arith
  store-process_decided (some prior) d p = ground arith

  expire_override-live :
      (o : Option CertificateOwnershipOverride) (p : Pass)
      → override_expired o now ≡ false
      → expire_override env org sig now o p ≡ ok (o, p)
  unfolding expire_override
  expire_override-live none p h = refl
  expire_override-live (some o) p h = rw h

  -- with no expired override, processing a certificate succeeds
  pub process_cert-live :
      (rules : List CompiledRule) (prior : Option CertificateOwnership)
      (o : Option CertificateOwnershipOverride) (p : Pass)
      → override_expired o now ≡ false
      → process_cert env org sig now rules prior o p
        ≡ ok (
            process_decided env org sig now prior
              (decide_ownership env.rx sig o rules now)
              (counted p))
  unfolding process_cert
  process_cert-live rules prior o p h = rw (expire_override-live o (counted p) h)

  -- For the same signals, rules, prior row and an override that has not expired, re-deriving the
  -- certificate succeeds and leaves exactly the rows, explanations included, that the streaming
  -- pass leaves when it processes the certificate.
  pub rederive-agrees :
      (raw : List OwnershipRule) (c : Compiled) (o : Option CertificateOwnershipOverride) (p : Pass)
      {p' : Pass}
      → compile_rules env.rx raw ≡ ok c
      → override_expired o now ≡ false
      → process_cert env org sig now c.0
          (get_certificate_ownership org sig.certificate_id p.store)
          o
          p
        ≡ ok p'
      → (res : RederiveResult) × (rederive_certificate env org now sig.certificate_id
            (some sig)
            raw
            o
            p.store
          ≡ ok (res, p'.store))
  unfolding rederive_certificate
  rederive-agrees raw c o p {p'} compiles live e =
      let prior = get_certificate_ownership org sig.certificate_id p.store in
      let d = decide_ownership env.rx sig o c.0 now in
      let same : process_decided env org sig now prior d (counted p) ≡ p' =
        ok-injective (sym (process_cert-live c.0 prior o p live) ∙ e) in
      (
        (rederive_decided env org now sig.certificate_id sig prior d p.store).0,
        rw compiles (
            ap
              (λ (s : Store).
                ok ((rederive_decided env org now sig.certificate_id sig prior d p.store).0, s))
              (sym (store-process_decided prior d (counted p)) ∙ ap (λ (q : Pass). q.store) same)),
      )
