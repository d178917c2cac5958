-- ===== src/Findings/Recompute/Steps.antt =====
-- findings/service.go and service_diff.go: one decision and its statement.
use anchorix.Prelude.{
  ℕ, ◌≡◌, refl, sym, ap, ◌∙◌, none, some, Bool, true, false, any, filter, if◌then◌else◌, Outcome,
  ok, err, arith, Bool-cases, inl, inr, ok-injective,
}
use anchorix.Prelude.Text.{Text, text_lt}
use anchorix.Findings.{Status, Evidence, Finding, Rule}
use anchorix.Findings.Diff.{
  DiffOp, CounterBucket, FindingsError, Transition, match_existing, no_match_existing,
  decide_match_transition, decide_no_match_transition, suppression_expired,
}
use anchorix.Findings.Diff.Machine.{SameFinding, is_supported}
use anchorix.Findings.Table.{
  RecomputeError, apply_decision, update_finding, write_rows, rows_of, is_row_of,
}
use anchorix.Findings.Table.Laws.{IsTable, Holds}
use anchorix.Findings.Table.Writes.{
  Wrote, update-Wrote, nothing-Wrote, update_finding-ok, filter-write_rows,
}
use anchorix.Findings.Recompute.{DiffState, count_bucket, settle}

-- what the switches can answer for the row `f`
pub data Decided (f : Finding) : Outcome FindingsError Transition → Type 0 where
  refused : (e : FindingsError) → Decided f (err e)
  left :
      Decided f
        (ok (record { next = none; op = DiffOp.no_change; bucket = CounterBucket.unchanged }))
  moved :
      (n : Finding) (b : CounterBucket)
      → SameFinding f n
      → Decided f (ok (record { next = some n; op = DiffOp.update; bucket = b }))

Decided_if :
    (f : Finding) (t : Bool) (x y : Outcome FindingsError Transition)
    → Decided f x
    → Decided f y
    → Decided f (if t then x else y)
Decided_if f true x y dx dy = dx
Decided_if f false x y dx dy = dy

match_existing-Decided :
    (s : Status) (f : Finding) (rule : Rule) (evidence : Evidence) (now : ℕ)
    → Decided f (match_existing s f rule evidence now)
unfolding match_existing
match_existing-Decided Status.«open» f rule evidence now = moved _ _ (ground arith)
match_existing-Decided Status.resolved f rule evidence now = moved _ _ (ground arith)
match_existing-Decided Status.acknowledged f rule evidence now = moved _ _ (ground arith)
match_existing-Decided Status.suppressed f rule evidence now =
    Decided_if f (suppression_expired f.suppress_expires_at now) _ _ (moved _ _ (ground arith))
      (moved _ _ (ground arith))
match_existing-Decided (Status.other s) f rule evidence now = refused _

pub decide_match_transition-Decided :
    (id : Text) (f : Finding) (o c : Text) (rule : Rule) (evidence : Evidence) (now : ℕ)
    → Decided f (decide_match_transition id (some f) o c rule evidence now)
unfolding decide_match_transition
decide_match_transition-Decided id f o c rule evidence now =
    match_existing-Decided f.status f rule evidence now

no_match_existing-Decided :
    (s : Status) (f : Finding) (now : ℕ) → Decided f (no_match_existing s f now)
unfolding no_match_existing
no_match_existing-Decided Status.«open» f now = moved _ _ (ground arith)
no_match_existing-Decided Status.acknowledged f now = moved _ _ (ground arith)
no_match_existing-Decided Status.suppressed f now = moved _ _ (ground arith)
no_match_existing-Decided Status.resolved f now = left
no_match_existing-Decided (Status.other s) f now = refused _

pub decide_no_match_transition-Decided :
    (f : Finding) (now : ℕ) → Decided f (decide_no_match_transition (some f) now)
unfolding decide_no_match_transition
decide_no_match_transition-Decided f now = no_match_existing-Decided f.status f now

-- the row that a decision leaves where the row `f` was
abbrev pub next_row : Finding → Outcome FindingsError Transition → Finding
next_row f (err e) = f
next_row f (ok t) = elim t.next [ none ↦ f | some n ↦ n ]

abbrev pub succeeds : {E A : Type 0} → Outcome E A → Bool
succeeds (err e) = false
succeeds (ok a) = true

match_existing_supported :
    (s : Status) (f : Finding) (rule : Rule) (evidence : Evidence) (now : ℕ)
    → is_supported s ≡ true
    → succeeds (match_existing s f rule evidence now) ≡ true
unfolding match_existing
match_existing_supported Status.«open» f rule evidence now h = refl
match_existing_supported Status.resolved f rule evidence now h = refl
match_existing_supported Status.acknowledged f rule evidence now h = refl
match_existing_supported Status.suppressed f rule evidence now h =
    elim (Bool-cases (suppression_expired f.suppress_expires_at now)) [
      | inl expired ↦ rw expired refl
      | inr lasting ↦ rw lasting refl
    ]
match_existing_supported (Status.other s) f rule evidence now h = cc

pub match_supported :
    (id : Text) (f : Finding) (o c : Text) (rule : Rule) (evidence : Evidence) (now : ℕ)
    → is_supported f.status ≡ true
    → succeeds (decide_match_transition id (some f) o c rule evidence now) ≡ true
unfolding decide_match_transition
match_supported id f o c rule evidence now h =
    match_existing_supported f.status f rule evidence now h

no_match_existing_supported :
    (s : Status) (f : Finding) (now : ℕ)
    → is_supported s ≡ true
    → succeeds (no_match_existing s f now) ≡ true
unfolding no_match_existing
no_match_existing_supported Status.«open» f now h = refl
no_match_existing_supported Status.acknowledged f now h = refl
no_match_existing_supported Status.suppressed f now h = refl
no_match_existing_supported Status.resolved f now h = refl
no_match_existing_supported (Status.other s) f now h = cc

pub no_match_supported :
    (f : Finding) (now : ℕ)
    → is_supported f.status ≡ true
    → succeeds (decide_no_match_transition (some f) now) ≡ true
unfolding decide_no_match_transition
no_match_supported f now h = no_match_existing_supported f.status f now h

-- what settling a decision about the row `f` leaves
pub record Settled (f n : Finding) (st st' : DiffState) : Type 0 where
  pub wrote : Wrote f n st.table st'.table
  pub matches : st'.matches ≡ st.matches

pub settle-Settled :
    (f : Finding) (d : Outcome FindingsError Transition) (st : DiffState)
    → Decided f d
    → succeeds d ≡ true
    → IsTable st.table
    → Holds st.table f
    → (st' : DiffState) × (settle d st ≡ ok st') × Settled f (next_row f d) st st'
unfolding settle apply_decision
settle-Settled f d st (refused e) h t holds = cc
settle-Settled f d st left h t holds =
    (_, refl, record { wrote = nothing-Wrote f st.table t holds; matches = refl })
settle-Settled f d st (moved n b same) h t holds = (
  record st { table = write_rows n st.table; counters = count_bucket b st.counters },
  rw (update_finding-ok f n same st.table holds) refl,
  record { wrote = update-Wrote f n st.table same t holds; matches = refl },
)

-- whatever the table holds, the rows behind a cursor that has passed `f` are as they were
pub settle_keeps :
    (f : Finding) (d : Outcome FindingsError Transition) (st st' : DiffState) (o cursor : Text)
    → Decided f d
    → settle d st ≡ ok st'
    → text_lt cursor f.id ≡ false
    → filter (λ r. text_lt cursor r.id) (rows_of o st'.table)
      ≡ filter (λ r. text_lt cursor r.id) (rows_of o st.table)
unfolding settle apply_decision update_finding
settle_keeps f d st st' o cursor (refused e) h le = cc
settle_keeps f d st st' o cursor left h le =
    ap (λ (s : DiffState). filter (λ r. text_lt cursor r.id) (rows_of o s.table))
      (sym (ok-injective h))
settle_keeps f d st st' o cursor (moved n b same) h le =
    elim (Bool-cases (any (is_row_of n) st.table)) [
      | inl hit ↦
          ap (λ (s : DiffState). filter (λ r. text_lt cursor r.id) (rows_of o s.table))
            (sym (ok-injective (rw hit at h)))
          ∙ filter-write_rows n o cursor st.table (ap (text_lt cursor) same.id ∙ le)
      | inr miss ↦
          (let refused : ◌≡◌ {A = Outcome RecomputeError DiffState}
                (err RecomputeError.finding_not_found) (ok st') =
              (rw miss at h) in
            cc)
    ]
