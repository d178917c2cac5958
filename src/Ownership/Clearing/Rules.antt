-- ===== src/Ownership/Clearing/Rules.antt =====
-- Once an override is cleared, the rules decide.
use anchorix.Prelude.{
  ℕ, ◌≡◌, refl, sym, ap, ◌∙◌, subst, Option, none, some, Bool, List, ok, Outcome-cases, Bool-cases,
  arith, Option-cases, inl, inr,
}
use anchorix.Prelude.Text.{Text, trim_space}
use anchorix.Governance.{
  OwnershipRule, CertificateOwnership, CertificateOwnershipOverride, CertificateSignals,
}
use anchorix.Ownership.Engine.{Compiled, compile_rules}
use anchorix.Ownership.Decision.{decide_ownership, OwnershipDecision}
use anchorix.Ownership.Store.{
  Store, get_certificate_ownership, clear_ownership_override, has_id, first_override,
  upsert_certificate_ownership, write_explanation,
}
use anchorix.Ownership.Store.Clears.{IsCleared, clear_ownership_override-IsCleared}
use anchorix.Prelude.Paging.Ascending.{Differ}
use anchorix.Ownership.Recompute.{Env, owner_changed, basis_changed, write_decided}
use anchorix.Ownership.Recompute.Row.{process_decided-Written, IsRowOf-get, Shows}
use anchorix.Ownership.Rederive.{RederiveResult, rederive_decided, rederive_certificate}
use anchorix.Ownership.Rederive.Agrees.{store-process_decided}
use anchorix.Ownership.Mutations.Pinned.{Answers, pass_of}
use anchorix.Ownership.Clearing.{
  ClearOverrideInput, get_active_ownership_override, get_ownership_override, clear, clear_override,
}

-- the row of the certificate is what the rules decide, no override in force
pub record IsRuled (env : Env) (read : Option CertificateSignals) (raw : List OwnershipRule)
    (org cert : Text) (now : ℕ) (s : Store) : Type 0 where
  pub signals : CertificateSignals
  pub signals_read : read ≡ some signals
  pub rules : Compiled
  pub compiled : compile_rules env.rx raw ≡ ok rules
  pub row : CertificateOwnership
  pub found : get_certificate_ownership org cert s ≡ some row
  pub shows : Shows row (decide_ownership env.rx signals none rules.0 now) now

module _ (env : Env) (raw : List OwnershipRule) (org cert : Text) where
  rederive_decided-Shows :
      (sig : CertificateSignals) (d : OwnershipDecision) (now : ℕ) (s : Store)
      → sig.certificate_id ≡ cert
      → (row : CertificateOwnership) × (get_certificate_ownership org cert
            (rederive_decided env org now cert sig (get_certificate_ownership org cert s) d s).1
          ≡ some row)
        × Shows row d now
  rederive_decided-Shows sig d now s key =
      let prior = get_certificate_ownership org sig.certificate_id s in
      let w =
        process_decided-Written env org sig now prior d (pass_of s)
          (IsRowOf-get env org sig now s) in
      (
        w.row,
        subst
            (λ x.
              get_certificate_ownership org x
                (rederive_decided env org now x sig (get_certificate_ownership org x s) d s).1
              ≡ some w.row)
            key
            (subst (λ x. get_certificate_ownership org sig.certificate_id x ≡ some w.row)
              (store-process_decided env org sig now prior d (pass_of s)) w.found),
        w.shows,
      )

  rederive_certificate-IsRuled :
      (read : Option CertificateSignals) (now : ℕ) (s s' : Store) (res : RederiveResult)
      → ((sig : CertificateSignals) → read ≡ some sig → sig.certificate_id ≡ cert)
      → rederive_certificate env org now cert read raw none s ≡ ok (res, s')
      → IsRuled env read raw org cert now s'
  unfolding rederive_certificate
  rederive_certificate-IsRuled none now s s' res key e = absurd (ground arith)
  rederive_certificate-IsRuled (some sig) now s s' res key e =
      elim (Outcome-cases (compile_rules env.rx raw)) [
        | inl (x, refused) ↦ absurd (ground arith)
        | inr (c, compiled) ↦
            let d = decide_ownership env.rx sig none c.0 now in
            let result : rederive_decided env org now cert sig
                  (get_certificate_ownership org cert s) d s
                ≡ (res, s') =
              ground arith in
            let (row, found, shows) = rederive_decided-Shows sig d now s (key sig refl) in
            record {
              signals = sig;
              signals_read = refl;
              rules = c;
              compiled = compiled;
              row = row;
              found =
                  ap (λ (x : RederiveResult × Store). get_certificate_ownership org cert x.1)
                    (sym result)
                  ∙ found;
              shows = shows;
            }
      ]

  rederive_decided-overrides :
      (sig : CertificateSignals) (prior : Option CertificateOwnership) (d : OwnershipDecision)
      (now : ℕ) (s : Store)
      → (rederive_decided env org now cert sig prior d s).1.overrides ≡ s.overrides
  unfolding rederive_decided write_decided upsert_certificate_ownership write_explanation
  rederive_decided-overrides sig none d now s = refl
  rederive_decided-overrides sig (some prior) d now s = elim (Bool-cases (owner_changed prior d)) [
    | inl moved ↦ rw moved refl
    | inr stayed ↦ elim (Bool-cases (basis_changed prior d)) [
      | inl other ↦ rw (stayed, other) refl
      | inr same ↦ rw (stayed, same) refl
    ]
  ]

  -- a re-derivation leaves the overrides alone
  rederive_certificate-overrides :
      (read : Option CertificateSignals) (now : ℕ) (s s' : Store) (res : RederiveResult)
      → rederive_certificate env org now cert read raw none s ≡ ok (res, s')
      → s'.overrides ≡ s.overrides
  unfolding rederive_certificate
  rederive_certificate-overrides none now s s' res e = absurd (ground arith)
  rederive_certificate-overrides (some sig) now s s' res e =
      elim (Outcome-cases (compile_rules env.rx raw)) [
        | inl (x, refused) ↦ absurd (ground arith)
        | inr (c, compiled) ↦
            let d = decide_ownership env.rx sig none c.0 now in
            let prior = get_certificate_ownership org cert s in
            let result : rederive_decided env org now cert sig prior d s ≡ (res, s') =
              ground arith in
            ap (λ (x : RederiveResult × Store). x.1.overrides) (sym result)
            ∙ rederive_decided-overrides sig prior d now s
      ]

-- what the four steps of the transaction returned
module _ (env : Env) (signals : Text → Text → Option CertificateSignals) (raw : List OwnershipRule)
    (audited : Bool) where
  record Went (inp : ClearOverrideInput) (id : Text) (now : ℕ) (s s' : Store)
      (o : CertificateOwnershipOverride) : Type 0 where
    pub cleared : Store
    pub res : RederiveResult
    pub clearing :
        clear_ownership_override inp.organization_id id inp.actor_user_id
          (trim_space inp.reason)
          now
          s
        ≡ some cleared
    pub rederived :
        rederive_certificate env inp.organization_id now
          (trim_space inp.certificate_id)
          (signals inp.organization_id (trim_space inp.certificate_id))
          raw
          none
          cleared
        ≡ ok (res, s')
    pub found : get_ownership_override inp.organization_id id s' ≡ some o

  clear-Went :
      (inp : ClearOverrideInput) (id : Text) (now : ℕ) (s s' : Store)
      (o : CertificateOwnershipOverride)
      → clear env signals raw audited inp id now s ≡ ok (o, s')
      → Went inp id now s s' o
  unfolding clear
  clear-Went inp id now s s' o e =
      elim (Option-cases (
        clear_ownership_override inp.organization_id id inp.actor_user_id (trim_space inp.reason)
          now s)) [
            | inl missing ↦ absurd (ground arith)
            | inr (cleared, clearing) ↦
                elim (Outcome-cases (
                  rederive_certificate env inp.organization_id now (trim_space inp.certificate_id)
                    (signals inp.organization_id (trim_space inp.certificate_id)) raw none
                    cleared)) [
                      | inl (x, refused) ↦ absurd (ground arith)
                      | inr ((res, after), rederived) ↦
                          elim (Option-cases
                            (get_ownership_override inp.organization_id id after)) [
                              | inl missing ↦ absurd (ground arith)
                              | inr (got, found) ↦
                                  let one : ◌≡◌ {A = CertificateOwnershipOverride} got o =
                                    ground arith in
                                  let two : ◌≡◌ {A = Store} after s' = ground arith in
                                  subst (λ x. Went inp id now s x o) two
                                    (subst (Went inp id now s after) one (record {
                                      cleared = cleared;
                                      res = res;
                                      clearing = clearing;
                                      rederived = rederived;
                                      found = found;
                                    }))
                            ]
                    ]
          ]

module _ (env : Env) (signals : Text → Text → Option CertificateSignals) (raw : List OwnershipRule)
    (audited : Bool) where
  -- If an override is cleared, the ids of the overrides differ and the read of a certificate
  -- answers for that certificate, then before the call returns the ownership row of the certificate
  -- shows what the compiled rules decide with no override on the signals that were read of it,
  -- evaluated at this moment, and the answer is the override that was active, with the time, the
  -- user and the trimmed reason of the clearing.
  pub clear_override-IsRuled :
      (inp : ClearOverrideInput) (now : ℕ) (seen s s' : Store) (o : CertificateOwnershipOverride)
      → Answers signals
      → Differ (λ x. x.id) s.overrides
      → clear_override env signals raw audited inp now seen s ≡ ok (o, s')
      → IsRuled env
          (signals inp.organization_id (trim_space inp.certificate_id))
          raw
          inp.organization_id
          (trim_space inp.certificate_id)
          now
          s'
        × IsCleared o inp.actor_user_id (trim_space inp.reason) now
        × ((active : CertificateOwnershipOverride) × (get_active_ownership_override
                inp.organization_id
                (trim_space inp.certificate_id)
                seen
              ≡ some active)
            × (get_ownership_override inp.organization_id active.id s' ≡ some o))
  unfolding clear_override get_ownership_override
  clear_override-IsRuled inp now seen s s' o answers d e =
      let org = inp.organization_id in
      let cert = trim_space inp.certificate_id in
      elim (Option-cases (get_active_ownership_override org cert seen)) [
        | inl missing ↦ absurd (ground arith)
        | inr (active, there) ↦
            let run : clear env signals raw audited inp active.id now s ≡ ok (o, s') =
              ground arith in
            let w = clear-Went env signals raw audited inp active.id now s s' o run in
            let kept =
              rederive_certificate-overrides env raw org cert (signals org cert) now w.cleared s'
                w.res w.rederived in
            (
              rederive_certificate-IsRuled env raw org cert (signals org cert) now w.cleared s'
                  w.res (answers org cert) w.rederived,
              clear_ownership_override-IsCleared org active.id inp.actor_user_id
                  (trim_space inp.reason) now s w.cleared o d w.clearing
                  (ap (first_override (has_id org active.id)) (sym kept) ∙ w.found),
              (active, there, w.found),
            )
      ]
