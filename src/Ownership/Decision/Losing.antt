-- ===== src/Ownership/Decision/Losing.antt =====
-- The losing rules of a decision, and how they explain an ambiguous one.
use anchorix.Prelude.{
  ℕ, ◌≡◌, refl, ◌↔◌, Option, none, some, true, false, List, [], ◌∷◌, arith, ok, filter, All, take,
  All-filter,
}
use anchorix.Prelude.{◌≢◌}
use anchorix.Prelude.Sort.{IsOrdered, IsOrdered-filter}
use anchorix.Governance.{
  PrecedenceTier, Decision, tier_eq_iff, CertificateSignals, OwnershipRule,
  CertificateOwnershipOverride,
}
use anchorix.Ownership.Precedence.{ordinal_of}
use anchorix.Ownership.Pattern.{Regexp}
use anchorix.Ownership.Engine.{Compiled, CompiledRule, matches, rule_less, compile_rules}
use anchorix.Ownership.Engine.Ranked.{IsRanked, compile_rules-IsRanked}
use anchorix.Ownership.Decision.Winner.{compile_rules-IsOrdered, decide_ownership-by_rules}
use anchorix.Ownership.Decision.{
  override_active, Reason, OwnershipDecision, LosingRuleInfo, losing_from, build_losing, ties,
  decide_matched, decide_ownership, reason_not_chosen,
}

ordinal_of-injective :
    (s t : PrecedenceTier) (n : ℕ) → ordinal_of s ≡ some n → ordinal_of t ≡ some n → s ≡ t
unfolding ordinal_of
ordinal_of-injective s t n p q = ground arith

-- of three rules in walk order, the middle one has the prefix that the outer two share
ties_between :
    (w m x : CompiledRule)
    → IsRanked w
    → IsRanked m
    → IsRanked x
    → rule_less m w ≡ false
    → rule_less x m ≡ false
    → ties w x ≡ true
    → ties w m ≡ true
unfolding ties rule_less
ties_between w m x kw km kx p q t = ground (
  arith,
  tier_eq_iff x.rule.precedence_tier w.rule.precedence_tier,
  tier_eq_iff m.rule.precedence_tier w.rule.precedence_tier,
  ordinal_of-injective m.rule.precedence_tier w.rule.precedence_tier w.ordinal,
)

-- if some rule behind the winner ties with it, the first one does
ties_head :
    (w m : CompiledRule) (ms : List CompiledRule)
    → All IsRanked (w ∷ m ∷ ms)
    → IsOrdered rule_less (w ∷ m ∷ ms)
    → ties w m ≡ false
    → filter (ties w) ms ≡ []
ties_head w m [] k o n = refl
ties_head w m (x ∷ xs) (kw, (km, (kx, ks))) ((pm, (px, ps)), ((qx, qs), o)) n = ground (
  arith,
  ties_between w m x kw km kx pm qx,
  ties_head w m xs (kw, (km, ks)) ((pm, ps), (qs, o.1)) n,
)

abbrev pub first_reason : List LosingRuleInfo → Option Reason
first_reason [] = none
first_reason (l ∷ _) = some l.reason

ties_iff_tiebreaker :
    (w m : CompiledRule)
    → (ties w m ≡ true) ↔ (reason_not_chosen m.rule w.rule ≡ Reason.tiebreaker_on_id)
unfolding ties reason_not_chosen
ties_iff_tiebreaker w m = ground arith

ties_refl : (w : CompiledRule) → ties w w ≡ true
unfolding ties
ties_refl w = ground (arith, tier_eq_iff w.rule.precedence_tier w.rule.precedence_tier)

abbrev IsExplained : OwnershipDecision → Type 0
IsExplained d =
    (d.decision ≡ Decision.ambiguous) ↔ (first_reason d.losing ≡ some Reason.tiebreaker_on_id)

decide_matched-IsExplained :
    (ms : List CompiledRule)
    → All IsRanked ms
    → IsOrdered rule_less ms
    → IsExplained (decide_matched ms)
unfolding decide_matched build_losing losing_from
decide_matched-IsExplained [] k o = (λ h. cc, λ h. cc)
decide_matched-IsExplained (w ∷ []) k o = ground (arith, ties_refl w)
decide_matched-IsExplained (w ∷ m ∷ ms) k o =
    ground (arith, ties_refl w, ties_iff_tiebreaker w m, ties_head w m ms k o)

-- what a reason says of the rule `m` that lost against `w`: the first difference
abbrev pub Explains : Reason → OwnershipRule → OwnershipRule → Type 0
Explains (Reason.lower_precedence_than t) m w =
    (t ≡ w.precedence_tier) × (m.precedence_tier ≢ w.precedence_tier)
Explains Reason.lower_priority m w =
    (m.precedence_tier ≡ w.precedence_tier) × (m.priority ≢ w.priority)
Explains Reason.later_created_at m w =
    (m.precedence_tier ≡ w.precedence_tier)
    × (m.priority ≡ w.priority)
    × (m.created_at ≢ w.created_at)
Explains Reason.tiebreaker_on_id m w =
    (m.precedence_tier ≡ w.precedence_tier)
    × (m.priority ≡ w.priority)
    × (m.created_at ≡ w.created_at)

-- what the entries say of the rules that they are about, which lost against `w`
abbrev pub Describe : OwnershipRule → List LosingRuleInfo → List CompiledRule → Type 0
Describe w [] [] = Unit
Describe w [] (m ∷ ms) = ⊥
Describe w (l ∷ ls) [] = ⊥
Describe w (l ∷ ls) (m ∷ ms) =
    (l.rule_id ≡ m.rule.id)
    × (l.name ≡ m.rule.name)
    × (l.tier ≡ m.rule.precedence_tier)
    × (l.priority ≡ m.rule.priority)
    × Explains l.reason m.rule w
    × Describe w ls ms

-- the decision over the rules that match: the first one wins, the next ones are listed
abbrev pub Describes : OwnershipDecision → List CompiledRule → Type 0
Describes d [] = (d.winning_rule_id ≡ none) × (d.losing ≡ [])
Describes d (w ∷ rest) =
    (d.winning_rule_id ≡ some w.rule.id) × Describe w.rule d.losing (take 8 rest)

module _ (rx : Regexp) (sig : CertificateSignals) where
  abbrev matched : List CompiledRule → List CompiledRule
  matched cs = filter (λ cr. matches rx cr sig) cs

  -- With no override in force, the decision is ambiguous exactly when its explanation lists, as
  -- the first losing rule, one that lost on the id tiebreak alone.
  pub ambiguous-iff-tiebreaker :
      (rs : List OwnershipRule) (c : Compiled) (o : Option CertificateOwnershipOverride) (now : ℕ)
      → compile_rules rx rs ≡ ok c
      → override_active o now ≡ false
      → ((decide_ownership rx sig o c.0 now).decision ≡ Decision.ambiguous)
        ↔ (first_reason (decide_ownership rx sig o c.0 now).losing ≡ some Reason.tiebreaker_on_id)
  ambiguous-iff-tiebreaker rs c o now e h = rw (decide_ownership-by_rules rx sig o c.0 now h) (
      decide_matched-IsExplained (matched c.0)
        (All-filter IsRanked _ c.0 (compile_rules-IsRanked rx rs e))
        (IsOrdered-filter rule_less _ c.0 (compile_rules-IsOrdered rx rs e)))
