-- ===== src/Findings/Diff/Again.antt =====
-- When a transition fails, and that a second recompute at the same moment changes nothing.
use anchorix.Prelude.{
  ℕ, ◌≡◌, refl, sym, ap, ◌∙◌, Option, none, some, Bool, true, false, not, Outcome, ok, err, arith,
  ok-injective, subst,
}
use anchorix.Prelude.Text.{Text}
use anchorix.Findings.{Status, Evidence, Finding, Rule}
use anchorix.Findings.Diff.{
  DiffOp, CounterBucket, FindingsError, Transition, match_existing, no_match_existing,
  decide_match_transition, decide_no_match_transition, suppression_expired,
}
use anchorix.Findings.Diff.Machine.{is_supported, either}

abbrev pub failed : Outcome FindingsError Transition → Bool
failed (ok t) = false
failed (err e) = true

match_existing-failed :
    (s : Status) (prior : Finding) (rule : Rule) (evidence : Evidence) (now : ℕ)
    → failed (match_existing s prior rule evidence now) ≡ not (is_supported s)
unfolding match_existing
match_existing-failed Status.«open» prior rule evidence now = refl
match_existing-failed Status.resolved prior rule evidence now = refl
match_existing-failed Status.acknowledged prior rule evidence now = refl
match_existing-failed Status.suppressed prior rule evidence now = ground arith
match_existing-failed (Status.other s) prior rule evidence now = refl

no_match_existing-failed :
    (s : Status) (prior : Finding) (now : ℕ)
    → failed (no_match_existing s prior now) ≡ not (is_supported s)
unfolding no_match_existing
no_match_existing-failed Status.«open» prior now = refl
no_match_existing-failed Status.resolved prior now = refl
no_match_existing-failed Status.acknowledged prior now = refl
no_match_existing-failed Status.suppressed prior now = refl
no_match_existing-failed (Status.other s) prior now = refl

-- The two decisions for an existing finding fail exactly if its status is none of the four
-- that the lifecycle knows.
pub decide_transition-failed :
    (new_id organization certificate : Text) (prior : Finding) (rule : Rule) (evidence : Evidence)
    (now : ℕ)
    → (failed
          (decide_match_transition new_id (some prior) organization certificate rule evidence now)
        ≡ not (is_supported prior.status))
      × (failed (decide_no_match_transition (some prior) now) ≡ not (is_supported prior.status))
unfolding decide_match_transition decide_no_match_transition
decide_transition-failed new_id organization certificate prior rule evidence now = (
  match_existing-failed prior.status prior rule evidence now,
  no_match_existing-failed prior.status prior now,
)

-- the row that a successful transition writes
written :
    {x t : Transition} {f : Finding}
    → ◌≡◌ {A = Outcome FindingsError Transition} (ok x) (ok t)
    → t.next ≡ some f
    → x.next ≡ some f
written h n = ap (λ (y : Transition). y.next) (ok-injective h) ∙ n

some-injective : {f g : Finding} → ◌≡◌ {A = Option Finding} (some f) (some g) → f ≡ g
some-injective e = cc

-- the transition that confirms the row it finds
abbrev pub confirms : Finding → Transition
confirms f = record { next = some f; op = DiffOp.update; bucket = CounterBucket.updated }

module _ (rule : Rule) (evidence : Evidence) (now : ℕ) where
  abbrev IsSettled : Finding → Type 0
  IsSettled f = match_existing f.status f rule evidence now ≡ ok (confirms f)

  settled :
      {x t : Transition} {g f : Finding}
      → ◌≡◌ {A = Outcome FindingsError Transition} (ok x) (ok t)
      → t.next ≡ some f
      → x.next ≡ some g
      → IsSettled g
      → IsSettled f
  settled h n x is = subst IsSettled (some-injective (sym x ∙ written h n)) is

  match_existing-again :
      (s : Status) (prior f : Finding) (t : Transition)
      → prior.status ≡ s
      → match_existing s prior rule evidence now ≡ ok t
      → t.next ≡ some f
      → IsSettled f
  unfolding match_existing
  match_existing-again Status.«open» prior f t e h n = settled h n refl (rw e refl)
  match_existing-again Status.resolved prior f t e h n = settled h n refl refl
  match_existing-again Status.acknowledged prior f t e h n = settled h n refl (rw e refl)
  match_existing-again Status.suppressed prior f t e h n =
      either (λ t. t.next ≡ some f → IsSettled f)
        (suppression_expired prior.suppress_expires_at now) h
        (λ _ n. subst IsSettled (some-injective n) refl)
        (λ live n. subst IsSettled (some-injective n) (rw (e, live) refl)) n
  match_existing-again (Status.other s) prior f t e h n = absurd (ground arith)

-- If a recompute writes a row for a matching rule, whether by inserting, updating or
-- reopening, then deciding for that row again at the same moment confirms the row as it is.
pub decide_match_transition-again :
    (new_id organization certificate : Text) (prior : Option Finding) (rule : Rule)
    (evidence : Evidence) (now : ℕ) (t : Transition) (f : Finding)
    → decide_match_transition new_id prior organization certificate rule evidence now ≡ ok t
    → t.next ≡ some f
    → decide_match_transition new_id (some f) organization certificate rule evidence now
      ≡ ok (confirms f)
unfolding decide_match_transition match_existing
decide_match_transition-again new_id organization certificate none rule evidence now t f h n =
    settled rule evidence now h n refl refl
decide_match_transition-again new_id organization certificate (some prior) rule evidence now t f h
      n =
    match_existing-again rule evidence now prior.status prior f t refl h n
