-- ===== src/Ownership/Engine/Ranked.antt =====
-- Every compiled rule carries the rank of its tier, and none is of the reserved tier.
use anchorix.Prelude.{◌≡◌, ◌≢◌, sym, subst, some, List, [], ◌∷◌, ok, arith, All, All-append}
use anchorix.Prelude.Text.{Text}
use anchorix.Prelude.Sort.{All-sort_stable}
use anchorix.Governance.{PrecedenceTier, MatchKind, OwnershipRule}
use anchorix.Ownership.Precedence.{ordinal_of}
use anchorix.Ownership.Pattern.{Regexp}
use anchorix.Ownership.Engine.{
  Compiled, CompiledRule, compile_rule, compile_kind, compile_each, compile_rules, rule_less,
}
use anchorix.Ownership.Engine.Deterministic.{compile_rules-sorted, compile_each-Parts, nil_compiled}

pub record IsRanked (cr : CompiledRule) : Type 0 where
  pub ranked : ordinal_of cr.rule.precedence_tier ≡ some cr.ordinal
  pub not_reserved : cr.rule.precedence_tier ≢ PrecedenceTier.service_member
  pub known_kind : (k : Text) → cr.rule.match_kind ≢ MatchKind.other_kind k

module _ (rx : Regexp) where
  compile_rule-IsRanked :
      (r : OwnershipRule) (c : Compiled) → compile_rule rx r ≡ ok c → All IsRanked c.0
  unfolding compile_rule compile_kind
  compile_rule-IsRanked r ([], fs) e = tt
  compile_rule-IsRanked r (cr ∷ [], fs) e = (
    record {
      ranked = ground arith;
      not_reserved = λ h. ground arith;
      known_kind = λ k h. ground arith;
    },
    tt,
  )
  compile_rule-IsRanked r (cr ∷ cr' ∷ crs, fs) e = absurd (ground arith)

  compile_each-IsRanked :
      (rs : List OwnershipRule) (c : Compiled) → compile_each rx rs ≡ ok c → All IsRanked c.0
  compile_each-IsRanked [] c e = unfold compile_each in rw (nil_compiled rx c e) tt
  compile_each-IsRanked (r ∷ rs) c e =
      let parts = compile_each-Parts rx r rs e in
      subst (λ (d : Compiled). All IsRanked d.0) (sym parts.joined)
        (All-append IsRanked parts.h.0 parts.t.0 (compile_rule-IsRanked r parts.h parts.head_ok)
          (compile_each-IsRanked rs parts.t parts.tail_ok))

  -- Every rule that compiles has the rank of its own tier, is not of the reserved tier
  -- `service_member`, and is of a known kind.
  pub compile_rules-IsRanked :
      (rs : List OwnershipRule) {c : Compiled} → compile_rules rx rs ≡ ok c → All IsRanked c.0
  compile_rules-IsRanked rs {c} e =
      let (d, each, sorted) = compile_rules-sorted rx rs c e in
      subst (λ (x : Compiled). All IsRanked x.0) (sym sorted)
        (All-sort_stable IsRanked rule_less d.0 (compile_each-IsRanked rs d each))
