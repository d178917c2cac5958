-- ===== src/Ownership/Mutations/Pinned.antt =====
-- A created override takes effect at once.
use anchorix.Prelude.{
  ℕ, ◌+◌, ◌≡◌, refl, sym, ap, ◌∙◌, subst, Option, none, some, Bool, true, false, List, [], ltb, ok,
  >>=-eq-ok, Outcome-cases, refuse_if, arith, Option-cases, inl, inr,
}
use anchorix.Prelude.Text.{Text, trim_space}
use anchorix.Governance.{
  Decision, OwnershipRule, CertificateOwnership, CertificateOwnershipOverride, CertificateSignals,
}
use anchorix.Ownership.Engine.{Compiled, compile_rules}
use anchorix.Ownership.Decision.{override_active, decide_ownership, decide_overridden}
use anchorix.Ownership.Store.{Store, get_certificate_ownership}
use anchorix.Ownership.Recompute.{Env, Pass}
use anchorix.Ownership.Recompute.Row.{process_decided-Written, IsRowOf-get}
use anchorix.Ownership.Rederive.{RederiveResult, rederive_decided, rederive_certificate}
use anchorix.Ownership.Rederive.Agrees.{store-process_decided}
use anchorix.Ownership.Mutations.{
  CreateOverrideInput, OverrideMutationError, in_past, new_override, create_ownership_override, pin,
  create_override, validate_create_override,
}

-- the row of the certificate is pinned by the override
pub record IsPinned (o : CertificateOwnershipOverride) (s : Store) : Type 0 where
  pub row : CertificateOwnership
  pub found : get_certificate_ownership o.organization_id o.certificate_id s ≡ some row
  pub decision : row.decision ≡ Decision.overridden
  pub service : row.service_id ≡ some o.service_id
  pub override : row.override_id ≡ some o.id

abbrev pub pass_of : Store → Pass
pass_of s = record {
  out = record {
    first_run = true;
    evaluated = 0;
    changed = 0;
    unchanged = 0;
    reclassified = 0;
    became_owned = 0;
    became_unowned = 0;
    flipped_owner = 0;
    created_unowned = 0;
    compile_failures = [];
    expired_overrides = [];
    audit_groups = [];
  };
  store = s;
}

decide-active :
    (env : Env) (sig : CertificateSignals) (o : CertificateOwnershipOverride) (c : Compiled)
    (now : ℕ)
    → override_active (some o) now ≡ true
    → decide_ownership env.rx sig (some o) c.0 now ≡ decide_overridden o
unfolding decide_ownership
decide-active env sig o c now h = rw h refl

rederive_decided-IsPinned :
    (env : Env) (sig : CertificateSignals) (o : CertificateOwnershipOverride) (now : ℕ) (s : Store)
    → sig.certificate_id ≡ o.certificate_id
    → IsPinned o
        (rederive_decided env o.organization_id now sig.certificate_id sig
          (get_certificate_ownership o.organization_id sig.certificate_id s)
          (decide_overridden o)
          s).1
unfolding decide_overridden
rederive_decided-IsPinned env sig o now s key =
    let org = o.organization_id in
    let prior = get_certificate_ownership org sig.certificate_id s in
    let w =
      process_decided-Written env org sig now prior (decide_overridden o) (pass_of s)
        (IsRowOf-get env org sig now s) in
    record {
      row = w.row;
      found =
          subst
            (λ cert.
              get_certificate_ownership org cert
                (rederive_decided env org now sig.certificate_id sig prior (decide_overridden o)
                  s).1
              ≡ some w.row)
            key
            (subst (λ x. get_certificate_ownership org sig.certificate_id x ≡ some w.row)
              (store-process_decided env org sig now prior (decide_overridden o) (pass_of s))
              w.found);
      decision = w.shows.decision;
      service = w.shows.service;
      override = w.shows.override;
    }

-- a read of a certificate's signals answers for that certificate
abbrev pub Answers : (Text → Text → Option CertificateSignals) → Type 0
Answers signals =
    (org cert : Text) (sig : CertificateSignals)
    → signals org cert ≡ some sig
    → sig.certificate_id ≡ cert

module _ (env : Env) (raw : List OwnershipRule) where
  rederive_certificate-IsPinned :
      (read : Option CertificateSignals) (o : CertificateOwnershipOverride) (now : ℕ) (s s' : Store)
      (res : RederiveResult)
      → ((sig : CertificateSignals) → read ≡ some sig → sig.certificate_id ≡ o.certificate_id)
      → override_active (some o) now ≡ true
      → rederive_certificate env o.organization_id now o.certificate_id read raw (some o) s
        ≡ ok (res, s')
      → IsPinned o s'
  unfolding rederive_certificate
  rederive_certificate-IsPinned none o now s s' res key live e = absurd (ground arith)
  rederive_certificate-IsPinned (some sig) o now s s' res key live e =
      elim (Outcome-cases (compile_rules env.rx raw)) [
        | inl (x, refused) ↦ absurd (ground arith)
        | inr (c, compiled) ↦
            let org = o.organization_id in
            let result : rederive_decided env org now o.certificate_id sig
                  (get_certificate_ownership org o.certificate_id s)
                  (decide_ownership env.rx sig (some o) c.0 now) s
                ≡ (res, s') =
              ground arith in
            let cert = key sig refl in
            subst (IsPinned o)
              (ap
                  (λ x.
                    (rederive_decided env org now x sig (get_certificate_ownership org x s)
                      (decide_overridden o) s).1)
                  cert
                ∙ ap
                    (λ d.
                      (rederive_decided env org now o.certificate_id sig
                        (get_certificate_ownership org o.certificate_id s) d s).1)
                    (sym (decide-active env sig o c now live))
                ∙ ap (λ (x : RederiveResult × Store). x.1) result)
              (rederive_decided-IsPinned env sig o now s cert)
      ]

module _ (env : Env) (signals : Text → Text → Option CertificateSignals)
    (active_service : Text → Text → Bool) (raw : List OwnershipRule) (audited : Bool) where
  pin-IsPinned :
      (o : CertificateOwnershipOverride) (now : ℕ) (s s' : Store)
      → Answers signals
      → override_active (some o) now ≡ true
      → pin env signals active_service raw audited o now s ≡ ok s'
      → IsPinned o s'
  unfolding pin
  pin-IsPinned o now s s' answers live e =
      let read = signals o.organization_id o.certificate_id in
      let (inserted, created, rest) = >>=-eq-ok {A = Store} (create_ownership_override o s) _ e in
      elim (Outcome-cases (
        rederive_certificate env o.organization_id now o.certificate_id read raw (some o)
          inserted)) [
            | inl (x, refused) ↦ absurd (ground arith)
            | inr ((res, after), done) ↦ subst (IsPinned o) (ground arith) (
                rederive_certificate-IsPinned env raw read o now inserted after res
                  (answers o.organization_id o.certificate_id) live done)
          ]

  validate_create_override-future :
      (inp : CreateOverrideInput) (now : ℕ)
      → validate_create_override inp now ≡ ok tt
      → in_past inp.expires_at now ≡ false
  unfolding validate_create_override
  validate_create_override-future inp now e =
      let (u, first, last) =
        >>=-eq-ok {A = Unit {0}} _
          (λ _. refuse_if (in_past inp.expires_at now) OverrideMutationError.expiry_in_past) e in
      ground arith

  new_override-active :
      (id : Text) (inp : CreateOverrideInput) (now : ℕ)
      → in_past inp.expires_at now ≡ false
      → override_active (some (new_override id inp now)) now ≡ true
  unfolding override_active
  new_override-active id inp now h = go inp.expires_at h
    where
      go :
          (at : Option ℕ)
          → in_past at now ≡ false
          → (elim at [ none ↦ true | some t ↦ ltb now t ]) ≡ true
      go none h = refl
      go (some t) h = ground arith

  -- If an override is created, and the read of a certificate answers for that certificate, then the
  -- ownership row of the certificate is pinned before the call returns: its decision is overridden,
  -- its service the one that was asked for, and it names the new override.
  pub create_override-IsPinned :
      (inp : CreateOverrideInput) (now : ℕ) (s s' : Store)
      → Answers signals
      → create_override env signals active_service raw audited inp now s ≡ ok s'
      → IsPinned (new_override (env.new_id s.next_id) inp now) s'
  unfolding create_override
  create_override-IsPinned inp now s s' answers e =
      let (u, valid, rest) = >>=-eq-ok {A = Unit {0}} (validate_create_override inp now) _ e in
      elim (Option-cases (signals inp.organization_id (trim_space inp.certificate_id))) [
        | inl missing ↦ absurd (ground arith)
        | inr (sig, there) ↦
            pin-IsPinned (new_override (env.new_id s.next_id) inp now) now
              (record s { next_id = s.next_id + 1 }) s' answers
              (new_override-active (env.new_id s.next_id) inp now
                (validate_create_override-future inp now valid))
              (ground arith)
      ]
