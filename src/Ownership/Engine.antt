-- ===== src/Ownership/Engine.antt =====
-- ownership/engine.go: compiling the rules of an organization, and matching one rule.
pub mod Order
pub mod Deterministic
pub mod Ranked
use anchorix.Prelude.{
  ℕ, Option, none, some, Bool, true, false, not, ◌&&◌, ◌||◌, List, [], ◌∷◌, ◌++◌, ltb, ◌==◌,
  if◌then◌else◌, inl, inr, Outcome, ok, err, ◌>>=◌, any,
}
use anchorix.Prelude.Int.{ltb_int, eq_int}
use anchorix.Prelude.Text.{Text, text_eq, text_lt, is_empty}
use anchorix.Prelude.Sort.{sort_stable}
use anchorix.Governance.{PrecedenceTier, MatchKind, OwnershipRule, TagPair, CertificateSignals}
use anchorix.Ownership.Precedence.{ordinal_of}
use anchorix.Ownership.Pattern.{
  Regexp, CompileReason, compile_glob, compile_regex, TagMatch, parse_tag_match, parse_cn,
}

pub record RuleCompileFailure : Type 0 where
  pub rule_id : Text
  pub reason : CompileReason

pub record CompiledRule : Type 0 where
  pub rule : OwnershipRule
  pub ordinal : ℕ
  pub re : Option Text
  pub tag_key : Text
  pub tag_value : Text
  pub tag_has_val : Bool
  pub compile_err : Bool

-- structural drift: the rule and the value that is not recognized
pub data EngineError : Type 0 where
  unknown_precedence_tier : Text → PrecedenceTier → EngineError
  unknown_match_kind : Text → MatchKind → EngineError

abbrev pub Compiled : Type 0
Compiled = List CompiledRule × List RuleCompileFailure

abbrev bare : OwnershipRule → ℕ → CompiledRule
bare r ord = record {
  rule = r;
  ordinal = ord;
  re = none;
  tag_key = [];
  tag_value = [];
  tag_has_val = false;
  compile_err = false;
}

module _ (rx : Regexp) where
  -- the `switch r.MatchKind` of the loop, over the rule's rank
  unfoldable pub compile_kind : MatchKind → OwnershipRule → ℕ → Outcome EngineError Compiled
  compile_kind MatchKind.fallback r ord = ok (bare r ord ∷ [], [])
  compile_kind MatchKind.agent_group r ord = ok (bare r ord ∷ [], [])
  compile_kind MatchKind.issuer_dn r ord = ok (bare r ord ∷ [], [])
  compile_kind MatchKind.store_location r ord = ok (bare r ord ∷ [], [])
  compile_kind MatchKind.san_glob r ord =
      ok (record (bare r ord) { re = some (compile_glob r.match_value) } ∷ [], [])
  compile_kind MatchKind.subject_cn_glob r ord =
      ok (record (bare r ord) { re = some (compile_glob r.match_value) } ∷ [], [])
  compile_kind MatchKind.san_regex r ord = elim (compile_regex rx r.match_value) [
    | inl why ↦ ok (
      record (bare r ord) { compile_err = true } ∷ [],
      record { rule_id = r.id; reason = why } ∷ [],
    )
    | inr re ↦ ok (record (bare r ord) { re = some re } ∷ [], [])
  ]
  compile_kind MatchKind.tag r ord =
      let m = parse_tag_match r.match_value in
      ok (
        record (bare r ord) { tag_key = m.key; tag_value = m.value; tag_has_val = m.has_value }
            ∷ [],
        [],
      )
  compile_kind (MatchKind.other_kind k) r ord =
      err (EngineError.unknown_match_kind r.id (MatchKind.other_kind k))

  compile_ranked : Option ℕ → OwnershipRule → Outcome EngineError Compiled
  compile_ranked none r = err (EngineError.unknown_precedence_tier r.id r.precedence_tier)
  compile_ranked (some ord) r = compile_kind r.match_kind r ord

  abbrev is_service_member : PrecedenceTier → Bool
  is_service_member PrecedenceTier.service_member = true
  is_service_member _ = false

  -- one round of the loop; the reserved tier is skipped
  unfoldable pub compile_rule : OwnershipRule → Outcome EngineError Compiled
  unfolding compile_ranked
  compile_rule r =
      if is_service_member r.precedence_tier
      then ok ([], [])
      else compile_ranked (ordinal_of r.precedence_tier) r

  unfoldable pub compile_each : List OwnershipRule → Outcome EngineError Compiled
  compile_each [] = ok ([], [])
  compile_each (r ∷ rs) = do
    head ← compile_rule r
    tail ← compile_each rs
    ok (head.0 ++ tail.0, head.1 ++ tail.1)

-- the comparison of the engine walk: (tier rank, priority, created_at, id)
unfoldable pub rule_less : CompiledRule → CompiledRule → Bool
rule_less x y =
    let a = x.rule in
    let b = y.rule in
    if not (x.ordinal == y.ordinal)
    then ltb x.ordinal y.ordinal
    else if not (eq_int a.priority b.priority)
    then ltb_int a.priority b.priority
    else if not (a.created_at == b.created_at)
    then ltb a.created_at b.created_at
    else text_lt a.id b.id

unfoldable pub compile_rules : Regexp → List OwnershipRule → Outcome EngineError Compiled
compile_rules rx rules = do
  compiled ← compile_each rx rules
  ok (sort_stable rule_less compiled.0, compiled.1)

unfoldable pub contains_string : List Text → Text → Bool
contains_string set want = any (λ s. text_eq s want) set

unfoldable pub matches_tag : List TagPair → CompiledRule → Bool
matches_tag tags cr =
    any (λ t. text_eq t.key cr.tag_key && (not cr.tag_has_val || text_eq t.value cr.tag_value)) tags

module _ (rx : Regexp) where
  -- `cr.re.MatchString`; the kinds that call it have an expression unless `compile_err` is set
  re_matches : Option Text → Text → Bool
  re_matches none s = false
  re_matches (some re) s = rx.match_string re s

  unfoldable pub matches_kind : MatchKind → CompiledRule → CertificateSignals → Bool
  unfolding re_matches contains_string matches_tag
  matches_kind MatchKind.fallback cr sig = true
  matches_kind MatchKind.san_glob cr sig = any (re_matches cr.re) sig.sans
  matches_kind MatchKind.san_regex cr sig = any (re_matches cr.re) sig.sans
  matches_kind MatchKind.subject_cn_glob cr sig =
      let cn = parse_cn sig.subject in not (is_empty cn) && re_matches cr.re cn
  matches_kind MatchKind.agent_group cr sig =
      contains_string sig.observing_agent_group_ids cr.rule.match_value
  matches_kind MatchKind.issuer_dn cr sig = text_eq sig.issuer cr.rule.match_value
  matches_kind MatchKind.store_location cr sig =
      contains_string sig.store_locations cr.rule.match_value
  matches_kind MatchKind.tag cr sig = matches_tag sig.cert_tags cr || matches_tag sig.agent_tags cr
  matches_kind (MatchKind.other_kind _) cr sig = false

  unfoldable pub matches : CompiledRule → CertificateSignals → Bool
  unfolding matches_kind
  matches cr sig = if cr.compile_err then false else matches_kind cr.rule.match_kind cr sig
