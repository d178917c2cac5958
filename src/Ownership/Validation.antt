-- ===== src/Ownership/Validation.antt =====
-- ownership/rule_validation.go: what a new rule may look like.
pub mod Compiles
use anchorix.Prelude.{
  ℕ, Option, none, some, Bool, true, false, not, ◌||◌, ◌&&◌, List, [], ◌∷◌, ltb, if◌then◌else◌, inl,
  inr, Outcome, ok, err,
}
use anchorix.Prelude.Int.{ℤ, pos, ltb_int}
use anchorix.Prelude.Text.{Text, byte_len, trim_space, is_empty}
use anchorix.Governance.{PrecedenceTier, MatchKind, tier_eq}
use anchorix.Ownership.Pattern.{Regexp, CompileReason, compile_regex}

abbrev pub max_rule_name_len : ℕ
max_rule_name_len = 200

abbrev pub max_rule_description_len : ℕ
max_rule_description_len = 1000

abbrev pub max_rule_match_value_len : ℕ
max_rule_match_value_len = 1024

abbrev pub min_rule_priority : ℤ
min_rule_priority = pos 0

abbrev pub max_rule_priority : ℤ
max_rule_priority = pos 1000000

-- `ErrServiceMemberReserved`, and `ErrInvalidRule` with what its text says
pub data RuleError : Type 0 where
  service_member_reserved : RuleError
  unknown_match_kind : MatchKind → RuleError
  tier_mismatch : PrecedenceTier → MatchKind → PrecedenceTier → RuleError
  fallback_value_not_empty : RuleError
  match_value_required : MatchKind → RuleError
  match_value_too_long : ℕ → RuleError
  bad_regex : CompileReason → RuleError
  name_required : RuleError
  name_too_long : ℕ → RuleError
  description_too_long : ℕ → RuleError
  priority_out_of_range : ℤ → RuleError

-- the map `tierForKind`
unfoldable pub tier_for_kind : MatchKind → Option PrecedenceTier
tier_for_kind MatchKind.agent_group = some PrecedenceTier.agent_group
tier_for_kind MatchKind.san_glob = some PrecedenceTier.san_pattern
tier_for_kind MatchKind.san_regex = some PrecedenceTier.san_pattern
tier_for_kind MatchKind.subject_cn_glob = some PrecedenceTier.subject_pattern
tier_for_kind MatchKind.tag = some PrecedenceTier.tag
tier_for_kind MatchKind.issuer_dn = some PrecedenceTier.issuer_store
tier_for_kind MatchKind.store_location = some PrecedenceTier.issuer_store
tier_for_kind MatchKind.fallback = some PrecedenceTier.fallback
tier_for_kind (MatchKind.other_kind _) = none

-- The supplied tier, `none` where the request leaves it out (the empty string).
abbrev is_reserved : Option PrecedenceTier → Bool
is_reserved (some PrecedenceTier.service_member) = true
is_reserved _ = false

abbrev disagrees : Option PrecedenceTier → PrecedenceTier → Bool
disagrees none canonical = false
disagrees (some t) canonical = not (tier_eq t canonical)

supplied_or : Option PrecedenceTier → PrecedenceTier → PrecedenceTier
supplied_or none d = d
supplied_or (some t) d = t

unfoldable pub validate_rule_kind_and_tier :
    MatchKind → Option PrecedenceTier → Outcome RuleError PrecedenceTier
unfolding supplied_or
validate_rule_kind_and_tier kind supplied =
    if is_reserved supplied
    then err RuleError.service_member_reserved
    else elim (tier_for_kind kind) [
      | none ↦ err (RuleError.unknown_match_kind kind)
      | some canonical ↦
          if disagrees supplied canonical
          then err (RuleError.tier_mismatch (supplied_or supplied canonical) kind canonical)
          else ok canonical
    ]

abbrev is_fallback : MatchKind → Bool
is_fallback MatchKind.fallback = true
is_fallback _ = false

abbrev is_san_regex : MatchKind → Bool
is_san_regex MatchKind.san_regex = true
is_san_regex _ = false

abbrev is_agent_group : MatchKind → Bool
is_agent_group MatchKind.agent_group = true
is_agent_group _ = false

abbrev regex_refusal : Regexp → MatchKind → Text → Option CompileReason
regex_refusal rx kind value =
    if is_san_regex kind
    then elim (compile_regex rx value) [ inl why ↦ some why | inr _ ↦ none ]
    else none

-- returns whether the value names an agent group
unfoldable pub validate_match_value : Regexp → MatchKind → Text → Outcome RuleError Bool
validate_match_value rx kind value =
    if is_fallback kind
    then if not (is_empty value) then err RuleError.fallback_value_not_empty else ok false
    else if is_empty (trim_space value)
    then err (RuleError.match_value_required kind)
    else if ltb max_rule_match_value_len (byte_len value)
    then err (RuleError.match_value_too_long (byte_len value))
    else elim (regex_refusal rx kind value) [
      | some why ↦ err (RuleError.bad_regex why)
      | none ↦ ok (is_agent_group kind)
    ]

unfoldable pub validate_rule_name : Text → Outcome RuleError Unit
validate_rule_name name =
    if is_empty (trim_space name)
    then err RuleError.name_required
    else if ltb max_rule_name_len (byte_len name)
    then err (RuleError.name_too_long (byte_len name))
    else ok tt

unfoldable pub validate_rule_description : Text → Outcome RuleError Unit
validate_rule_description desc =
    if ltb max_rule_description_len (byte_len desc)
    then err (RuleError.description_too_long (byte_len desc))
    else ok tt

unfoldable pub validate_rule_priority : ℤ → Outcome RuleError Unit
validate_rule_priority priority =
    if ltb_int priority min_rule_priority || ltb_int max_rule_priority priority
    then err (RuleError.priority_out_of_range priority)
    else ok tt
