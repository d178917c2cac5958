-- ===== src/Ownership/Recompute/Row.antt =====
-- The row that processing a certificate leaves, and what a second pass does to it.
use anchorix.Prelude.{
  ℕ, ◌≡◌, ◌≢◌, ◌⊎◌, refl, sym, ap, subst, Option, none, some, true, false, not, ◌&&◌, List, arith,
  if◌then◌else◌, is_some, ok, >>=-eq-ok, ok-injective, Bool-cases, inl, inr,
}
use anchorix.Prelude.Text.{Text, text_eq_iff, text_eq_refl}
use anchorix.Governance.{
  Decision, Confidence, decision_eq, confidence_eq, CertificateOwnership,
  CertificateOwnershipOverride, CertificateSignals,
}
use anchorix.Ownership.Engine.{CompiledRule}
use anchorix.Ownership.Decision.{OwnershipDecision, decide_ownership, override_active}
use anchorix.Ownership.Store.{
  Store, get_certificate_ownership, upsert_certificate_ownership, same_ptr, build_ownership,
}
use anchorix.Ownership.Store.Laws.{get-upsert, get_certificate_ownership_key}
use anchorix.Ownership.Recompute.{
  Env, Pass, process_cert, process_decided, expire_override, override_expired, write_decided,
  owner_changed, basis_changed,
}

pub eq_of_same_ptr : (a b : Option Text) → same_ptr a b ≡ true → a ≡ b
unfolding same_ptr
eq_of_same_ptr none none h = refl
eq_of_same_ptr none (some b) h = cc
eq_of_same_ptr (some a) none h = cc
eq_of_same_ptr (some a) (some b) h = ap some ((text_eq_iff a b).0 h)

pub same_ptr_refl : (a : Option Text) → same_ptr a a ≡ true
unfolding same_ptr
same_ptr_refl none = refl
same_ptr_refl (some a) = text_eq_refl a

-- the time at which the owner last changed: now, unless decision and service stay as they were
unfoldable pub changed_at : Option CertificateOwnership → OwnershipDecision → ℕ → ℕ
changed_at none d now = now
changed_at (some prior) d now = if owner_changed prior d then now else prior.last_changed_at

-- the row shows the decision, and was evaluated at `now`
pub record Shows (row : CertificateOwnership) (d : OwnershipDecision) (now : ℕ) : Type 0 where
  pub decision : row.decision ≡ d.decision
  pub service : row.service_id ≡ d.service_id
  pub rule : row.winning_rule_id ≡ d.winning_rule_id
  pub override : row.override_id ≡ d.override_id
  pub confidence : row.confidence ≡ d.confidence
  pub evaluated : row.last_evaluated_at ≡ now

eq_of_decision_eq : (a b : Decision) → decision_eq a b ≡ true → a ≡ b
unfolding decision_eq
eq_of_decision_eq a b h = ground arith

pub decision_eq_refl : (a : Decision) → decision_eq a a ≡ true
unfolding decision_eq
decision_eq_refl a = ground arith

eq_of_confidence_eq : (a b : Confidence) → confidence_eq a b ≡ true → a ≡ b
unfolding confidence_eq
eq_of_confidence_eq a b h = ground arith

pub confidence_eq_refl : (a : Confidence) → confidence_eq a a ≡ true
unfolding confidence_eq
confidence_eq_refl a = ground arith

-- `at` is the time at which the owner last changed, told by the decision and the service themselves
pub data Moved (prior : Option CertificateOwnership) (d : OwnershipDecision) (now at : ℕ)
    : Type 0 where
  fresh : prior ≡ none → at ≡ now → Moved prior d now at
  moved :
      (p : CertificateOwnership)
      → prior ≡ some p
      → (p.decision ≢ d.decision) ⊎ (p.service_id ≢ d.service_id)
      → at ≡ now
      → Moved prior d now at
  stayed :
      (p : CertificateOwnership)
      → prior ≡ some p
      → p.decision ≡ d.decision
      → p.service_id ≡ d.service_id
      → at ≡ p.last_changed_at
      → Moved prior d now at

changed_at-Moved :
    (prior : Option CertificateOwnership) (d : OwnershipDecision) (now : ℕ)
    → Moved prior d now (changed_at prior d now)
unfolding changed_at owner_changed
changed_at-Moved none d now = Moved.fresh refl refl
changed_at-Moved (some p) d now = elim (Bool-cases (decision_eq p.decision d.decision)) [
  | inr other ↦ rw other (
      Moved.moved p refl
        (inl (λ e.
          let same = ap (decision_eq p.decision) e in let own = decision_eq_refl p.decision in cc))
        refl)
  | inl decision ↦ rw decision (elim (Bool-cases (same_ptr p.service_id d.service_id)) [
    | inr other ↦ rw other (
        Moved.moved p refl
          (inr (λ e.
            let same = ap (same_ptr p.service_id) e in let own = same_ptr_refl p.service_id in cc))
          refl)
    | inl service ↦ rw service (
        Moved.stayed p refl (eq_of_decision_eq p.decision d.decision decision)
          (eq_of_same_ptr p.service_id d.service_id service) refl)
  ])
]

module _ (env : Env) (org : Text) (sig : CertificateSignals) (now : ℕ) where
  -- the row of this certificate that a processed pass holds
  pub record Written (prior : Option CertificateOwnership) (d : OwnershipDecision) (p' : Pass)
      : Type 0 where
    pub row : CertificateOwnership
    pub found : get_certificate_ownership org sig.certificate_id p'.store ≡ some row
    pub shows : Shows row d now
    pub changed : row.last_changed_at ≡ changed_at prior d now
    pub owner : Moved prior d now row.last_changed_at

  get-write_decided :
      (d : OwnershipDecision) (first changed : ℕ) (s : Store)
      → get_certificate_ownership org sig.certificate_id
          (write_decided env org sig.certificate_id sig d now first changed s)
        ≡ some (build_ownership org sig.certificate_id d (env.new_id s.next_id) first now changed)
  unfolding write_decided build_ownership
  get-write_decided d first changed s =
      rw get-upsert (ground (arith, text_eq_refl org, text_eq_refl sig.certificate_id))

  get-touch :
      (prior : CertificateOwnership) (s : Store)
      → prior.organization_id ≡ org
      → prior.certificate_id ≡ sig.certificate_id
      → get_certificate_ownership org sig.certificate_id
          (upsert_certificate_ownership (record prior { last_evaluated_at = now }) s)
        ≡ some (record prior { last_evaluated_at = now })
  get-touch prior s p q = rw get-upsert (
      ground (
        arith,
        text_eq_iff prior.organization_id org,
        text_eq_iff prior.certificate_id sig.certificate_id,
      ))

  -- the row shows the decision where nothing but the evaluation time is written
  Shows-touch :
      (prior : CertificateOwnership) (d : OwnershipDecision)
      → owner_changed prior d ≡ false
      → basis_changed prior d ≡ false
      → Shows (record prior { last_evaluated_at = now }) d now
  unfolding owner_changed basis_changed
  Shows-touch prior d p q = record {
    decision = ground (arith, eq_of_decision_eq prior.decision d.decision);
    service = ground (arith, eq_of_same_ptr prior.service_id d.service_id);
    rule = ground (arith, eq_of_same_ptr prior.winning_rule_id d.winning_rule_id);
    override = ground (arith, eq_of_same_ptr prior.override_id d.override_id);
    confidence = ground (arith, eq_of_confidence_eq prior.confidence d.confidence);
    evaluated = refl;
  }

  Written-build :
      (prior : Option CertificateOwnership) (d : OwnershipDecision) (first changed : ℕ) (s : Store)
      (p' : Pass)
      → p'.store ≡ write_decided env org sig.certificate_id sig d now first changed s
      → changed ≡ changed_at prior d now
      → Written prior d p'
  unfolding build_ownership
  Written-build prior d first changed s p' e c = record {
    row = build_ownership org sig.certificate_id d (env.new_id s.next_id) first now changed;
    found = rw e (get-write_decided d first changed s);
    shows = record {
      decision = refl;
      service = refl;
      rule = refl;
      override = refl;
      confidence = refl;
      evaluated = refl;
    };
    changed = c;
    owner = subst (Moved prior d now) (sym c) (changed_at-Moved prior d now);
  }

  abbrev pub IsRowOf : Option CertificateOwnership → Type 0
  IsRowOf none = Unit
  IsRowOf (some r) = (r.organization_id ≡ org) × (r.certificate_id ≡ sig.certificate_id)

  pub process_decided-Written :
      (prior : Option CertificateOwnership) (d : OwnershipDecision) (p : Pass)
      → IsRowOf prior
      → Written prior d (process_decided env org sig now prior d p)
  unfolding process_decided changed_at
  process_decided-Written none d p key = Written-build none d now now p.store _ (ground arith) refl
  process_decided-Written (some prior) d p key = elim (Bool-cases (owner_changed prior d)) [
    | inl other ↦
        Written-build (some prior) d
          (if not (is_some prior.service_id) && is_some d.service_id
            then now
            else prior.first_assigned_at)
          now p.store _ (ground arith) (ground arith)
    | inr stays ↦ elim (Bool-cases (basis_changed prior d)) [
      | inl new_basis ↦
          Written-build (some prior) d prior.first_assigned_at prior.last_changed_at p.store _
            (ground arith) (ground arith)
      | inr same ↦ record {
        row = record prior { last_evaluated_at = now };
        found = rw (stays, same) (get-touch prior p.store key.0 key.1);
        shows = Shows-touch prior d stays same;
        changed = ground arith;
        owner =
            subst (Moved (some prior) d now) (ground arith) (changed_at-Moved (some prior) d now);
      }
    ]
  ]

  decide-expire_override :
      (rules : List CompiledRule) (o : Option CertificateOwnershipOverride) (p : Pass)
      (r : Option CertificateOwnershipOverride × Pass)
      → expire_override env org sig now o p ≡ ok r
      → decide_ownership env.rx sig r.0 rules now ≡ decide_ownership env.rx sig o rules now
  unfolding expire_override decide_ownership override_expired override_active
  decide-expire_override rules none p r e = ground arith
  decide-expire_override rules (some o) p r e = ground arith

  pub IsRowOf-get : (s : Store) → IsRowOf (get_certificate_ownership org sig.certificate_id s)
  IsRowOf-get s = row_of _ refl
    where
      row_of :
          (r : Option CertificateOwnership)
          → get_certificate_ownership org sig.certificate_id s ≡ r
          → IsRowOf r
      row_of none e = tt
      row_of (some r) e = get_certificate_ownership_key org sig.certificate_id s r e

  -- Whatever the prior row was and whether or not the override has expired, once a certificate is
  -- processed its row shows the engine's decision and the time of the pass, and its owner counts as
  -- changed at that time exactly if the decision or the service differs from the prior row's.
  pub process_cert-Written :
      (rules : List CompiledRule) (o : Option CertificateOwnershipOverride) (p : Pass) {p' : Pass}
      → process_cert env org sig now rules
          (get_certificate_ownership org sig.certificate_id p.store)
          o
          p
        ≡ ok p'
      → Written
          (get_certificate_ownership org sig.certificate_id p.store)
          (decide_ownership env.rx sig o rules now)
          p'
  unfolding process_cert
  process_cert-Written rules o p {p'} e =
      let prior = get_certificate_ownership org sig.certificate_id p.store in
      let (r, expired, decided) =
        >>=-eq-ok {A = Option CertificateOwnershipOverride × Pass} _ _ e in
      subst (λ d. Written prior d p') (decide-expire_override rules o _ r expired)
        (subst (λ q. Written prior (decide_ownership env.rx sig r.0 rules now) q)
          (ok-injective decided) (process_decided-Written prior _ r.1 (IsRowOf-get p.store)))
