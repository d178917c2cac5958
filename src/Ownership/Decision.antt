-- ===== src/Ownership/Decision.antt =====
-- ownership/decision.go: the ownership of one certificate.
pub mod Winner
pub mod Losing
use anchorix.Prelude.{
  ℕ, zero, suc, Option, none, some, Bool, true, false, not, ◌&&◌, List, [], ◌∷◌, ltb, ◌==◌,
  if◌then◌else◌, length, filter,
}
use anchorix.Prelude.Int.{ℤ, eq_int}
use anchorix.Prelude.Text.{Text}
use anchorix.Governance.{
  PrecedenceTier, Decision, Confidence, tier_eq, OwnershipRule, CertificateOwnershipOverride,
  CertificateSignals,
}
use anchorix.Ownership.Precedence.{confidence_for_tier}
use anchorix.Ownership.Pattern.{Regexp}
use anchorix.Ownership.Engine.{CompiledRule, matches}

abbrev pub max_losing_rules : ℕ
max_losing_rules = 8

-- the closed set of texts of `reasonNotChosen`
pub data Reason : Type 0 where
  lower_precedence_than : PrecedenceTier → Reason
  lower_priority : Reason
  later_created_at : Reason
  tiebreaker_on_id : Reason

pub record LosingRuleInfo : Type 0 where
  pub rule_id : Text
  pub name : Text
  pub tier : PrecedenceTier
  pub priority : ℤ
  pub reason : Reason

pub record OwnershipDecision : Type 0 where
  pub decision : Decision
  pub service_id : Option Text
  pub winning_rule_id : Option Text
  pub override_id : Option Text
  pub confidence : Confidence
  pub losing : List LosingRuleInfo

unfoldable pub override_active : Option CertificateOwnershipOverride → ℕ → Bool
override_active none now = false
override_active (some o) now = elim o.expires_at [ none ↦ true | some t ↦ ltb now t ]

unfoldable pub reason_not_chosen : OwnershipRule → OwnershipRule → Reason
reason_not_chosen l w =
    if not (tier_eq l.precedence_tier w.precedence_tier)
    then Reason.lower_precedence_than w.precedence_tier
    else if not (eq_int l.priority w.priority)
    then Reason.lower_priority
    else if not (l.created_at == w.created_at)
    then Reason.later_created_at
    else Reason.tiebreaker_on_id

abbrev pub losing_info : CompiledRule → CompiledRule → LosingRuleInfo
losing_info winner m = record {
  rule_id = m.rule.id;
  name = m.rule.name;
  tier = m.rule.precedence_tier;
  priority = m.rule.priority;
  reason = reason_not_chosen m.rule winner.rule;
}

-- the loop of `buildLosing`, which breaks when `room` more entries have been appended
unfoldable pub losing_from : ℕ → CompiledRule → List CompiledRule → List LosingRuleInfo
losing_from zero winner ms = []
losing_from (suc room) winner [] = []
losing_from (suc room) winner (m ∷ ms) = losing_info winner m ∷ losing_from room winner ms

unfoldable pub build_losing : List CompiledRule → CompiledRule → List LosingRuleInfo
unfolding losing_from
build_losing [] winner = []
build_losing (_ ∷ rest) winner = losing_from max_losing_rules winner rest

-- equal on the (tier, priority, created_at) prefix of the walk order
unfoldable pub ties : CompiledRule → CompiledRule → Bool
ties winner m =
    tier_eq m.rule.precedence_tier winner.rule.precedence_tier
    && eq_int m.rule.priority winner.rule.priority
    && m.rule.created_at == winner.rule.created_at

unfoldable pub decide_matched : List CompiledRule → OwnershipDecision
decide_matched [] = record {
  decision = Decision.unowned;
  service_id = none;
  winning_rule_id = none;
  override_id = none;
  confidence = Confidence.low;
  losing = [];
}
decide_matched (winner ∷ rest) =
    let tied = length (filter (ties winner) (winner ∷ rest)) in
    record {
      decision = if ltb 1 tied then Decision.ambiguous else Decision.matched;
      service_id = some winner.rule.service_id;
      winning_rule_id = some winner.rule.id;
      override_id = none;
      confidence = confidence_for_tier winner.rule.precedence_tier;
      losing = build_losing (winner ∷ rest) winner;
    }

unfoldable pub decide_overridden : CertificateOwnershipOverride → OwnershipDecision
decide_overridden o = record {
  decision = Decision.overridden;
  service_id = some o.service_id;
  winning_rule_id = none;
  override_id = some o.id;
  confidence = Confidence.high;
  losing = [];
}

unfoldable pub decide_ownership :
    Regexp
    → CertificateSignals
    → Option CertificateOwnershipOverride
    → List CompiledRule
    → ℕ
    → OwnershipDecision
unfolding decide_matched decide_overridden
decide_ownership rx sig none rules now = decide_matched (filter (λ cr. matches rx cr sig) rules)
decide_ownership rx sig (some o) rules now =
    if override_active (some o) now
    then decide_overridden o
    else decide_matched (filter (λ cr. matches rx cr sig) rules)
