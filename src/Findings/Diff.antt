-- ===== src/Findings/Diff.antt =====
-- findings/service_diff.go: what a recompute does to the finding of one (certificate, rule) pair.
pub mod Machine
pub mod Resolving
pub mod Again
use anchorix.Prelude.{
  ℕ, Option, none, some, Bool, true, false, not, ◌&&◌, List, [], ltb, if◌then◌else◌, Outcome, ok,
  err,
}
use anchorix.Prelude.Text.{Text}
use anchorix.Findings.{Status, Evidence, Finding, Rule}

pub data DiffOp : Type 0 where
  no_change insert update : DiffOp

pub data CounterBucket : Type 0 where
  opened updated resolved unchanged : CounterBucket

-- the finding's id and its status, and whether the rule still matches
pub data FindingsError : Type 0 where
  unsupported_finding_status : (id : Text) (status : Status) (matches : Bool) → FindingsError

-- a nil row is `none`
pub record Transition : Type 0 where
  pub next : Option Finding
  pub op : DiffOp
  pub bucket : CounterBucket

-- the rule-derived fields, which every update of a matching finding writes
abbrev pub reconfirm : Rule → Evidence → ℕ → Finding → Finding
reconfirm rule evidence now f = record f {
  last_seen_at = now;
  updated_at = now;
  severity = rule.severity;
  title = rule.title;
  rule_version = rule.version;
  evidence = evidence;
}

abbrev pub clear_override : Finding → Finding
clear_override f = record f {
  status_reason = [];
  status_actor = [];
  status_changed_at = none;
  suppress_expires_at = none;
}

-- `prior.SuppressExpiresAt != nil && !now.Before(*prior.SuppressExpiresAt)`
abbrev pub suppression_expired : Option ℕ → ℕ → Bool
suppression_expired none now = false
suppression_expired (some at) now = not (ltb now at)

abbrev pub updating : Finding → CounterBucket → Outcome FindingsError Transition
updating next bucket = ok (record { next = some next; op = DiffOp.update; bucket = bucket })

abbrev pub new_finding : Text → Text → Text → Rule → Evidence → ℕ → Finding
new_finding id organization certificate rule evidence now = record {
  id = id;
  organization_id = organization;
  certificate_id = certificate;
  rule_id = rule.id;
  rule_version = rule.version;
  severity = rule.severity;
  status = Status.«open»;
  title = rule.title;
  evidence = evidence;
  first_seen_at = now;
  last_seen_at = now;
  resolved_at = none;
  updated_at = now;
  status_reason = [];
  status_actor = [];
  status_changed_at = none;
  suppress_expires_at = none;
}

-- the switch on the status of an existing finding
unfoldable pub match_existing :
    Status → Finding → Rule → Evidence → ℕ → Outcome FindingsError Transition
match_existing Status.«open» prior rule evidence now =
    updating (reconfirm rule evidence now prior) CounterBucket.updated
match_existing Status.resolved prior rule evidence now =
    updating
      (record (reconfirm rule evidence now prior) { status = Status.«open»; resolved_at = none })
      CounterBucket.opened
match_existing Status.acknowledged prior rule evidence now =
    updating (reconfirm rule evidence now prior) CounterBucket.updated
match_existing Status.suppressed prior rule evidence now =
    if suppression_expired prior.suppress_expires_at now
    then updating
        (clear_override (record (reconfirm rule evidence now prior) {
          status = Status.«open»;
          resolved_at = none;
        }))
        CounterBucket.opened
    else updating (reconfirm rule evidence now prior) CounterBucket.updated
match_existing (Status.other s) prior rule evidence now =
    err (FindingsError.unsupported_finding_status prior.id prior.status true)

-- `new_id` is what `ids.New` answers
unfoldable pub decide_match_transition :
    Text → Option Finding → Text → Text → Rule → Evidence → ℕ → Outcome FindingsError Transition
unfolding match_existing
decide_match_transition new_id none organization certificate rule evidence now = ok (record {
  next = some (new_finding new_id organization certificate rule evidence now);
  op = DiffOp.insert;
  bucket = CounterBucket.opened;
})
decide_match_transition new_id (some prior) organization certificate rule evidence now =
    match_existing prior.status prior rule evidence now

abbrev pub unchanged_transition : Outcome FindingsError Transition
unchanged_transition =
    ok (record { next = none; op = DiffOp.no_change; bucket = CounterBucket.unchanged })

abbrev pub resolve : ℕ → Finding → Finding
resolve now f = record f { status = Status.resolved; resolved_at = some now; updated_at = now }

unfoldable pub no_match_existing : Status → Finding → ℕ → Outcome FindingsError Transition
no_match_existing Status.«open» prior now = updating (resolve now prior) CounterBucket.resolved
no_match_existing Status.acknowledged prior now =
    updating (clear_override (resolve now prior)) CounterBucket.resolved
no_match_existing Status.suppressed prior now =
    updating (clear_override (resolve now prior)) CounterBucket.resolved
no_match_existing Status.resolved prior now = unchanged_transition
no_match_existing (Status.other s) prior now =
    err (FindingsError.unsupported_finding_status prior.id prior.status false)

unfoldable pub decide_no_match_transition : Option Finding → ℕ → Outcome FindingsError Transition
unfolding no_match_existing
decide_no_match_transition none now = unchanged_transition
decide_no_match_transition (some prior) now = no_match_existing prior.status prior now
