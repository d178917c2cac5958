-- ===== src/Findings/Diff/Resolving.antt =====
-- What a recompute leaves of a finding whose rule no longer matches.
use anchorix.Prelude.{
  ℕ, ◌≡◌, refl, none, some, false, ok, arith, ok-injective, subst, inl, inr, ◌⊎◌,
}
use anchorix.Findings.{Status, Finding}
use anchorix.Findings.Diff.{
  DiffOp, CounterBucket, Transition, no_match_existing, decide_no_match_transition, resolve,
  clear_override,
}
use anchorix.Findings.Diff.Machine.{is_suppressed, is_overridden, WellFormed, SameFinding}

-- the row `f` that is resolved because its rule no longer matches
pub record Resolves (prior : Finding) (now : ℕ) (t : Transition) (f : Finding) : Type 0 where
  row : t.next ≡ some f
  op : t.op ≡ DiffOp.update
  counted : t.bucket ≡ CounterBucket.resolved
  well_formed : WellFormed f
  same : SameFinding prior f
  status : f.status ≡ Status.resolved
  at : f.resolved_at ≡ some now
  seen : f.last_seen_at ≡ prior.last_seen_at

-- a finding that was resolved before is left alone
pub record LeftAlone (prior : Finding) (t : Transition) : Type 0 where
  was : prior.status ≡ Status.resolved
  nothing : t.next ≡ none
  op : t.op ≡ DiffOp.no_change
  counted : t.bucket ≡ CounterBucket.unchanged

module _ (prior : Finding) (now : ℕ) (wf : WellFormed prior) where
  abbrev Ends : Transition → Type 0
  Ends t = LeftAlone prior t ⊎ ((f : Finding) × Resolves prior now t f)

  resolves :
      is_overridden prior.status ≡ false
      → is_suppressed prior.status ≡ false
      → Ends (record {
        next = some (resolve now prior);
        op = DiffOp.update;
        bucket = CounterBucket.resolved;
      })
  resolves plain plain' = inr (
    resolve now prior,
    record {
      row = refl;
      op = refl;
      counted = refl;
      well_formed = record {
        resolution = refl;
        reason = λ _. wf.reason plain;
        actor = λ _. wf.actor plain;
        changed = λ _. wf.changed plain;
        expiry = λ _. wf.expiry plain';
      };
      same = record {
        id = refl;
        organization = refl;
        certificate = refl;
        rule = refl;
        first_seen = refl;
      };
      status = refl;
      at = refl;
      seen = refl;
    },
  )

  resolves_and_clears : Ends (record {
    next = some (clear_override (resolve now prior));
    op = DiffOp.update;
    bucket = CounterBucket.resolved;
  })
  resolves_and_clears = inr (
    clear_override (resolve now prior),
    record {
      row = refl;
      op = refl;
      counted = refl;
      well_formed = record {
        resolution = refl;
        reason = λ _. refl;
        actor = λ _. refl;
        changed = λ _. refl;
        expiry = λ _. refl;
      };
      same = record {
        id = refl;
        organization = refl;
        certificate = refl;
        rule = refl;
        first_seen = refl;
      };
      status = refl;
      at = refl;
      seen = refl;
    },
  )

  no_match_existing-Ends :
      (s : Status) {t : Transition}
      → prior.status ≡ s
      → no_match_existing s prior now ≡ ok t
      → Ends t
  unfolding no_match_existing
  no_match_existing-Ends Status.«open» e h =
      subst Ends (ok-injective h) (resolves (rw e refl) (rw e refl))
  no_match_existing-Ends Status.resolved e h =
      subst Ends (ok-injective h)
        (inl (record { was = e; nothing = refl; op = refl; counted = refl }))
  no_match_existing-Ends Status.acknowledged e h = subst Ends (ok-injective h) resolves_and_clears
  no_match_existing-Ends Status.suppressed e h = subst Ends (ok-injective h) resolves_and_clears
  no_match_existing-Ends (Status.other s) e h = absurd (ground arith)

-- If a recompute's decision for a well-formed finding whose rule no longer matches is no
-- error, then either the finding was resolved before and nothing is written, or it is updated
-- to a well-formed finding that is resolved now, with the same identity, first-seen and last-
-- seen times.
pub decide_no_match_transition-Ends :
    (prior : Finding) (now : ℕ) (t : Transition)
    → WellFormed prior
    → decide_no_match_transition (some prior) now ≡ ok t
    → LeftAlone prior t ⊎ ((f : Finding) × Resolves prior now t f)
unfolding decide_no_match_transition
decide_no_match_transition-Ends prior now t wf h =
    no_match_existing-Ends prior now wf prior.status refl h
