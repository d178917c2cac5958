-- ===== src/Ownership/Precedence.antt =====
-- ownership/precedence.go: the precedence ladder.
use anchorix.Prelude.{ℕ, Option, none, some}
use anchorix.Governance.{PrecedenceTier, Confidence}

-- the map `tierOrdinal`; `none` for a tier that is not in it
unfoldable pub ordinal_of : PrecedenceTier → Option ℕ
ordinal_of PrecedenceTier.explicit = some 1
ordinal_of PrecedenceTier.service_member = some 2
ordinal_of PrecedenceTier.agent_group = some 3
ordinal_of PrecedenceTier.san_pattern = some 4
ordinal_of PrecedenceTier.subject_pattern = some 5
ordinal_of PrecedenceTier.tag = some 6
ordinal_of PrecedenceTier.issuer_store = some 7
ordinal_of PrecedenceTier.fallback = some 8
ordinal_of (PrecedenceTier.other_tier _) = none

unfoldable pub confidence_for_tier : PrecedenceTier → Confidence
confidence_for_tier PrecedenceTier.explicit = Confidence.high
confidence_for_tier PrecedenceTier.service_member = Confidence.high
confidence_for_tier PrecedenceTier.agent_group = Confidence.medium
confidence_for_tier PrecedenceTier.san_pattern = Confidence.medium
confidence_for_tier PrecedenceTier.subject_pattern = Confidence.medium
confidence_for_tier PrecedenceTier.tag = Confidence.medium
confidence_for_tier _ = Confidence.low
