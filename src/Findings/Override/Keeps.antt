-- ===== src/Findings/Override/Keeps.antt =====
-- What an override that is accepted leaves, and how a later recompute treats it.
use anchorix.Prelude.{
  ℕ, ◌≡◌, ◌<◌, ◌≤◌, ◌↔◌, Outcome, Bool-cases, inl, inr, refl, sym, Option, none, some, Bool, true,
  false, ok, >>=-eq-ok, refuse_if, arith, ok-injective, subst,
}
use anchorix.Prelude.Text.{Text, trim_space, is_empty}
use anchorix.Findings.{Status, Evidence, Finding, Rule}
use anchorix.Findings.Diff.Machine.{
  WellFormed, SameFinding, is_suppressed, is_overridden, is_resolved,
}
use anchorix.Findings.Diff.{
  FindingsError, Transition, match_existing, decide_match_transition, suppression_expired,
}
use anchorix.Findings.Override.{
  acknowledge_request, suppress_request, AcknowledgeInput, SuppressInput, OverrideError,
  OverrideRequest, overridden, apply_override, acknowledge_finding, suppress_finding,
  validate_acknowledge_input, validate_suppress_input, validate_reason, not_in_future,
}

-- The row `f` that an accepted override of status `s` and expiry `expires` writes over `prior`.
pub record Overrides (s : Status) (expires : Option ℕ) (now : ℕ) (prior f : Finding) : Type 0 where
  status : f.status ≡ s
  expiry : f.suppress_expires_at ≡ expires
  same : SameFinding prior f
  unresolved : f.resolved_at ≡ none
  changed : f.status_changed_at ≡ some now
  given : is_empty f.status_reason ≡ false
  seen : f.last_seen_at ≡ prior.last_seen_at

apply_override-ok :
    (req : OverrideRequest) (now : ℕ) (found : Option Finding) (audited : Bool) (f : Finding)
    → apply_override req now found audited ≡ ok f
    → (prior : Finding) × (found ≡ some prior) × (audited ≡ true) × (overridden req now prior ≡ f)
unfolding apply_override
apply_override-ok req now none audited f h = absurd (ground arith)
apply_override-ok req now (some prior) true f h = (prior, refl, refl, ok-injective h)
apply_override-ok req now (some prior) false f h = absurd (ground arith)

validate_reason-given :
    (reason : Text) → validate_reason reason ≡ ok tt → is_empty (trim_space reason) ≡ false
unfolding validate_reason
validate_reason-given reason h = ground arith

validate_acknowledge_input-given :
    (inp : AcknowledgeInput)
    → validate_acknowledge_input inp ≡ ok tt
    → is_empty (trim_space inp.reason) ≡ false
unfolding validate_acknowledge_input
validate_acknowledge_input-given inp h =
    let (u, _, valid) = >>=-eq-ok {A = Unit {0}} _ (λ _. validate_reason inp.reason) h in
    validate_reason-given inp.reason valid

validate_suppress_input-given :
    (inp : SuppressInput) (now : ℕ)
    → validate_suppress_input inp now ≡ ok tt
    → (is_empty (trim_space inp.reason) ≡ false) × (not_in_future inp.expires_at now ≡ false)
unfolding validate_suppress_input
validate_suppress_input-given inp now h =
    let (u, first, future) =
      >>=-eq-ok {A = Unit {0}} _
        (λ _. refuse_if (not_in_future inp.expires_at now) OverrideError.expires_at_not_in_future)
        h in
    let (v, _, valid) = >>=-eq-ok {A = Unit {0}} _ (λ _. validate_reason inp.reason) first in
    (validate_reason-given inp.reason valid, ground arith)

module _ (req : OverrideRequest) (now : ℕ) (prior : Finding)
    (given : is_empty req.reason ≡ false) where
  overridden-Overrides :
      Overrides req.new_status req.suppress_expires_at now prior (overridden req now prior)
  overridden-Overrides = record {
    status = refl;
    expiry = refl;
    same = record {
      id = refl;
      organization = refl;
      certificate = refl;
      rule = refl;
      first_seen = refl;
    };
    unresolved = refl;
    changed = refl;
    given = given;
    seen = refl;
  }

  overridden-WellFormed :
      is_overridden req.new_status ≡ true
      → (is_suppressed req.new_status ≡ false → req.suppress_expires_at ≡ none)
      → WellFormed (overridden req now prior)
  overridden-WellFormed on ex = record {
    resolution = unresolved req.new_status on;
    reason = λ off. absurd (ground arith);
    actor = λ off. absurd (ground arith);
    changed = λ off. absurd (ground arith);
    expiry = ex;
  }
    where
      unresolved : (s : Status) → is_overridden s ≡ true → false ≡ is_resolved s
      unresolved Status.acknowledged h = refl
      unresolved Status.suppressed h = refl
      unresolved Status.«open» h = refl
      unresolved Status.resolved h = absurd (ground arith)
      unresolved (Status.other x) h = refl

abbrev pub Accepted : Status → Option ℕ → ℕ → Option Finding → Finding → Type 0
Accepted s expires now found f =
    (prior : Finding) × (found ≡ some prior) × Overrides s expires now prior f × WellFormed f

apply_override-Accepted :
    (req : OverrideRequest) (now : ℕ) (found : Option Finding) (audited : Bool) (f : Finding)
    → is_empty req.reason ≡ false
    → is_overridden req.new_status ≡ true
    → (is_suppressed req.new_status ≡ false → req.suppress_expires_at ≡ none)
    → apply_override req now found audited ≡ ok f
    → Accepted req.new_status req.suppress_expires_at now found f
apply_override-Accepted req now found audited f given on ex h =
    let (prior, there, recorded, e) = apply_override-ok req now found audited f h in
    (
      prior,
      there,
      subst (Overrides req.new_status req.suppress_expires_at now prior) e
          (overridden-Overrides req now prior given),
      subst WellFormed e (overridden-WellFormed req now prior given on ex),
    )

-- If an acknowledgement succeeds, the finding was found, and the row that is written is well-
-- formed, acknowledged without expiry and not resolved, changed now, with a reason that is not
-- empty, the identity and first-seen time of the finding, and its last-seen time.
pub acknowledge_finding-Accepted :
    (get : Text → Text → Option Finding) (audited : Bool) (inp : AcknowledgeInput) (later : ℕ)
    (f : Finding)
    → acknowledge_finding get audited inp later ≡ ok f
    → Accepted Status.acknowledged none later (get inp.organization_id inp.finding_id) f
unfolding acknowledge_finding
acknowledge_finding-Accepted get audited inp later f h =
    let (u, valid, applied) = >>=-eq-ok {A = Unit {0}} (validate_acknowledge_input inp) _ h in
    apply_override-Accepted (acknowledge_request inp) later _ audited f
      (validate_acknowledge_input-given inp valid) refl (λ _. refl) applied

-- an expiry, if there is one, is later than `now`
abbrev pub IsAhead : Option ℕ → ℕ → Type 0
IsAhead none now = Unit
IsAhead (some at) now = now < at

not_in_future-IsAhead :
    (expires : Option ℕ) (now : ℕ) → not_in_future expires now ≡ false → IsAhead expires now
not_in_future-IsAhead none now h = tt
not_in_future-IsAhead (some at) now h = ground arith

-- If a suppression succeeds, the finding was found, the row that is written is well-formed,
-- suppressed with the expiry that was asked for and not resolved, changed at the time of the write,
-- with a reason that is not empty, the identity and first-seen time of the finding, and its
-- last-seen time; and the expiry, if there is one, is later than the time of the request.
pub suppress_finding-Accepted :
    (get : Text → Text → Option Finding) (audited : Bool) (inp : SuppressInput) (now later : ℕ)
    (f : Finding)
    → suppress_finding get audited inp now later ≡ ok f
    → Accepted Status.suppressed inp.expires_at later (get inp.organization_id inp.finding_id) f
      × IsAhead inp.expires_at now
unfolding suppress_finding
suppress_finding-Accepted get audited inp now later f h =
    let (u, valid, applied) = >>=-eq-ok {A = Unit {0}} (validate_suppress_input inp now) _ h in
    let (given, future) = validate_suppress_input-given inp now valid in
    (
      apply_override-Accepted (suppress_request inp) later _ audited f given refl
          (λ h. absurd (ground arith)) applied,
      not_in_future-IsAhead inp.expires_at now future,
    )

-- there is an expiry, and it is not later than `now`
abbrev pub HasCome : Option ℕ → ℕ → Type 0
HasCome none now = ⊥
HasCome (some at) now = at ≤ now

suppression_expired-HasCome :
    (expires : Option ℕ) (now : ℕ) → (suppression_expired expires now ≡ true) ↔ HasCome expires now
suppression_expired-HasCome none now = (λ h. absurd (ground arith), λ h. absurd h)
suppression_expired-HasCome (some at) now = ground arith

-- the transition `d` writes a row, which is open if the expiry has come and suppressed if not
pub record Settles (expires : Option ℕ) (now : ℕ) (d : Outcome FindingsError Transition)
    : Type 0 where
  pub transition : Transition
  pub succeeds : d ≡ ok transition
  pub row : Finding
  pub written : transition.next ≡ some row
  pub opens : (row.status ≡ Status.«open») ↔ HasCome expires now
  pub lasts : (row.status ≡ Status.suppressed) ↔ (¬ HasCome expires now)

match_suppressed-Settles :
    (prior : Finding) (rule : Rule) (evidence : Evidence) (now : ℕ)
    → prior.status ≡ Status.suppressed
    → Settles prior.suppress_expires_at now
        (match_existing Status.suppressed prior rule evidence now)
unfolding match_existing
match_suppressed-Settles prior rule evidence now e =
    let expired = suppression_expired-HasCome prior.suppress_expires_at now in
    elim (Bool-cases (suppression_expired prior.suppress_expires_at now)) [
      | inl over ↦ rw over (record {
        transition = _;
        succeeds = refl;
        row = _;
        written = refl;
        opens = (λ _. expired.0 over, λ _. refl);
        lasts = (λ h. cc, λ h. absurd (h (expired.0 over)));
      })
      | inr live ↦
          let lasting : ¬ HasCome prior.suppress_expires_at now =
            (λ h. let over = expired.1 h in cc) in
          rw live (record {
            transition = _;
            succeeds = refl;
            row = _;
            written = refl;
            opens = (λ h. cc, λ h. absurd (lasting h));
            lasts = (λ _. lasting, λ _. e);
          })
    ]

-- If a suppression succeeds, a later recompute whose rule still matches writes a row for it. That row
-- is open exactly if the suppression has an expiry and the recompute is not before it, and
-- suppressed exactly if not.
pub suppress_finding-Settles :
    (get : Text → Text → Option Finding) (audited : Bool) (inp : SuppressInput) (now later : ℕ)
    (f : Finding)
    → suppress_finding get audited inp now later ≡ ok f
    → (new_id organization certificate : Text) (rule : Rule) (evidence : Evidence) (at : ℕ)
    → Settles inp.expires_at at
        (decide_match_transition new_id (some f) organization certificate rule evidence at)
unfolding decide_match_transition
suppress_finding-Settles get audited inp now later f h new_id organization certificate rule evidence
      at =
    let o = (suppress_finding-Accepted get audited inp now later f h).0.2 in
    subst (λ x. Settles x at (match_existing f.status f rule evidence at)) o.expiry
      (subst (λ s. Settles f.suppress_expires_at at (match_existing s f rule evidence at))
        (sym o.status) (match_suppressed-Settles f rule evidence at o.status))
