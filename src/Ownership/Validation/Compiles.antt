-- ===== src/Ownership/Validation/Compiles.antt =====
-- A rule that the validator accepts is one that the engine can evaluate.
use anchorix.Prelude.{◌≡◌, refl, Option, some, Bool, false, [], ◌∷◌, arith, Outcome, ok, err}
use anchorix.Governance.{PrecedenceTier, OwnershipRule}
use anchorix.Ownership.Precedence.{ordinal_of}
use anchorix.Ownership.Pattern.{Regexp}
use anchorix.Ownership.Engine.{Compiled, CompiledRule, EngineError, compile_rule, compile_kind}
use anchorix.Ownership.Validation.{tier_for_kind, validate_rule_kind_and_tier, validate_match_value}

-- the rule compiles, without a failure, to one rule that is not inert and keeps the rule
pub record CompilesLive (rx : Regexp) (r : OwnershipRule) : Type 0 where
  pub live : CompiledRule
  pub compiles : compile_rule rx r ≡ ok (live ∷ [], [])
  pub keeps : live.rule ≡ r
  pub not_inert : live.compile_err ≡ false
  pub ranked : ordinal_of r.precedence_tier ≡ some live.ordinal

module _ (rx : Regexp) where
  ranked_tier :
      (r : OwnershipRule) (supplied : Option PrecedenceTier)
      → validate_rule_kind_and_tier r.match_kind supplied ≡ ok r.precedence_tier
      → tier_for_kind r.match_kind ≡ some r.precedence_tier
  unfolding validate_rule_kind_and_tier
  ranked_tier r supplied e = ground arith

  live_compiled :
      (r : OwnershipRule) (b : Bool) (o : Outcome EngineError Compiled)
      → compile_rule rx r ≡ o
      → tier_for_kind r.match_kind ≡ some r.precedence_tier
      → validate_match_value rx r.match_kind r.match_value ≡ ok b
      → CompilesLive rx r
  unfolding compile_rule compile_kind validate_match_value tier_for_kind ordinal_of
  live_compiled r b (ok (cr ∷ [], [])) e t v = record {
    live = cr;
    compiles = e;
    keeps = ground arith;
    not_inert = ground arith;
    ranked = ground arith;
  }
  live_compiled r b (ok ([], fs)) e t v = absurd (ground arith)
  live_compiled r b (ok (cr ∷ cr' ∷ crs, fs)) e t v = absurd (ground arith)
  live_compiled r b (ok (cr ∷ [], f ∷ fs)) e t v = absurd (ground arith)
  live_compiled r b (err x) e t v = absurd (ground arith)

  -- A rule whose kind, tier and match value pass the validator compiles without aborting the pass
  -- and without a compile failure, to one live rule with the rank of its tier.
  pub validated-CompilesLive :
      (r : OwnershipRule) (supplied : Option PrecedenceTier) (b : Bool)
      → validate_rule_kind_and_tier r.match_kind supplied ≡ ok r.precedence_tier
      → validate_match_value rx r.match_kind r.match_value ≡ ok b
      → CompilesLive rx r
  validated-CompilesLive r supplied b t v =
      live_compiled r b (compile_rule rx r) refl (ranked_tier r supplied t) v
