-- ===== src/Findings/Diff/Machine.antt =====
-- The well-formed findings, and what a recompute leaves of one whose rule still matches.
use anchorix.Prelude.{
  ℕ, ◌≡◌, ◌≢◌, refl, none, some, Bool, true, false, [], if◌then◌else◌, Outcome, ok, arith, is_some,
  ok-injective, subst, ◌↔◌,
}
use anchorix.Prelude.Text.{Text}
use anchorix.Findings.{Status, Evidence, Finding, Rule}
use anchorix.Findings.Diff.{
  DiffOp, CounterBucket, FindingsError, Transition, match_existing, decide_match_transition,
  reconfirm, clear_override, suppression_expired,
}

abbrev pub is_resolved : Status → Bool
is_resolved Status.resolved = true
is_resolved _ = false

abbrev pub is_suppressed : Status → Bool
is_suppressed Status.suppressed = true
is_suppressed _ = false

abbrev pub is_overridden : Status → Bool
is_overridden Status.acknowledged = true
is_overridden Status.suppressed = true
is_overridden _ = false

abbrev pub is_supported : Status → Bool
is_supported (Status.other s) = false
is_supported _ = true

-- `resolved_at` is set just when the finding is resolved, and the columns of an override hold
-- something only while there is one.
pub record WellFormed (f : Finding) : Type 0 where
  pub resolution : is_some f.resolved_at ≡ is_resolved f.status
  pub reason : is_overridden f.status ≡ false → f.status_reason ≡ []
  pub actor : is_overridden f.status ≡ false → f.status_actor ≡ []
  pub changed : is_overridden f.status ≡ false → f.status_changed_at ≡ none
  pub expiry : is_suppressed f.status ≡ false → f.suppress_expires_at ≡ none

-- what no transition of a finding touches
pub record SameFinding (f g : Finding) : Type 0 where
  pub id : g.id ≡ f.id
  pub organization : g.organization_id ≡ f.organization_id
  pub certificate : g.certificate_id ≡ f.certificate_id
  pub rule : g.rule_id ≡ f.rule_id
  pub first_seen : g.first_seen_at ≡ f.first_seen_at

-- the row `f` that a match leaves
pub record Reconfirmed (prior : Finding) (rule : Rule) (now : ℕ) (t : Transition) (f : Finding)
    : Type 0 where
  row : t.next ≡ some f
  op : t.op ≡ DiffOp.update
  well_formed : WellFormed f
  same : SameFinding prior f
  unresolved : is_resolved f.status ≡ false
  seen : f.last_seen_at ≡ now
  fresh : (f.severity ≡ rule.severity) × (f.rule_version ≡ rule.version)
  reopened :
      (t.bucket ≡ CounterBucket.opened)
      ↔ ((prior.status ≢ Status.«open») × (f.status ≡ Status.«open»))

pub either :
    (P : Transition → Type 0) (b : Bool) {x y t : Transition}
    → ◌≡◌ {A = Outcome FindingsError Transition} (if b then ok x else ok y) (ok t)
    → (b ≡ true → P x)
    → (b ≡ false → P y)
    → P t
either P true h px py = subst P (ok-injective h) (px refl)
either P false h px py = subst P (ok-injective h) (py refl)

module _ (prior : Finding) (rule : Rule) (evidence : Evidence) (now : ℕ)
    (wf : WellFormed prior) where
  abbrev Confirms : Transition → Type 0
  Confirms t = (f : Finding) × Reconfirmed prior rule now t f

  stays :
      is_resolved prior.status ≡ false
      → Confirms (record {
        next = some (reconfirm rule evidence now prior);
        op = DiffOp.update;
        bucket = CounterBucket.updated;
      })
  stays unresolved = (
    reconfirm rule evidence now prior,
    record {
      row = refl;
      op = refl;
      well_formed = record {
        resolution = wf.resolution;
        reason = wf.reason;
        actor = wf.actor;
        changed = wf.changed;
        expiry = wf.expiry;
      };
      same = record {
        id = refl;
        organization = refl;
        certificate = refl;
        rule = refl;
        first_seen = refl;
      };
      unresolved = unresolved;
      seen = refl;
      fresh = (refl, refl);
      reopened = ground arith;
    },
  )

  reopens :
      prior.status ≡ Status.resolved
      → Confirms (record {
        next = some (record (reconfirm rule evidence now prior) {
          status = Status.«open»;
          resolved_at = none;
        });
        op = DiffOp.update;
        bucket = CounterBucket.opened;
      })
  reopens e = (
    record (reconfirm rule evidence now prior) { status = Status.«open»; resolved_at = none },
    record {
      row = refl;
      op = refl;
      well_formed = record {
        resolution = refl;
        reason = λ _. wf.reason (rw e refl);
        actor = λ _. wf.actor (rw e refl);
        changed = λ _. wf.changed (rw e refl);
        expiry = λ _. wf.expiry (rw e refl);
      };
      same = record {
        id = refl;
        organization = refl;
        certificate = refl;
        rule = refl;
        first_seen = refl;
      };
      unresolved = refl;
      seen = refl;
      fresh = (refl, refl);
      reopened = ground (arith, e);
    },
  )

  unsuppresses :
      prior.status ≡ Status.suppressed
      → Confirms (record {
        next = some (
            clear_override (record (reconfirm rule evidence now prior) {
              status = Status.«open»;
              resolved_at = none;
            }));
        op = DiffOp.update;
        bucket = CounterBucket.opened;
      })
  unsuppresses e = (
    _,
    record {
      row = refl;
      op = refl;
      well_formed = record {
        resolution = refl;
        reason = λ _. refl;
        actor = λ _. refl;
        changed = λ _. refl;
        expiry = λ _. refl;
      };
      same = record {
        id = refl;
        organization = refl;
        certificate = refl;
        rule = refl;
        first_seen = refl;
      };
      unresolved = refl;
      seen = refl;
      fresh = (refl, refl);
      reopened = ground (arith, e);
    },
  )

  match_existing-Reconfirmed :
      (s : Status) {t : Transition}
      → prior.status ≡ s
      → match_existing s prior rule evidence now ≡ ok t
      → Confirms t
  unfolding match_existing
  match_existing-Reconfirmed Status.«open» e h = rw (← ok-injective h) (stays (rw e refl))
  match_existing-Reconfirmed Status.resolved e h = rw (← ok-injective h) (reopens e)
  match_existing-Reconfirmed Status.acknowledged e h = rw (← ok-injective h) (stays (rw e refl))
  match_existing-Reconfirmed Status.suppressed {t} e h =
      either Confirms (suppression_expired prior.suppress_expires_at now) h (λ _. unsuppresses e)
        (λ _. stays (rw e refl))
  match_existing-Reconfirmed (Status.other s) e h = absurd (ground arith)

-- If a recompute's decision for a well-formed finding whose rule still matches is no error, it
-- is an update to a well-formed finding with the same identity and first-seen time, that is
-- not resolved, was last seen now, and has the rule's severity and version; it counts as
-- opened exactly if the finding was not open and now is.
pub decide_match_transition-Reconfirmed :
    (new_id organization certificate : Text) (prior : Finding) (rule : Rule) (evidence : Evidence)
    (now : ℕ) (t : Transition)
    → WellFormed prior
    → decide_match_transition new_id (some prior) organization certificate rule evidence now ≡ ok t
    → (f : Finding) × Reconfirmed prior rule now t f
unfolding decide_match_transition
decide_match_transition-Reconfirmed new_id organization certificate prior rule evidence now t wf h =
    match_existing-Reconfirmed prior rule evidence now wf prior.status refl h
