-- ===== src/Findings/Recompute/Spec.antt =====
-- What a recompute is to leave, pair by pair, with no loop and no statement in it.
use anchorix.Prelude.{ℕ, Option, none, some, List, [], ◌∷◌, if◌then◌else◌, ok, err}
use anchorix.Prelude.Text.{Text, text_eq}
use anchorix.Findings.{Finding, CertificateSummary, Rule}
use anchorix.Findings.Diff.{decide_match_transition, decide_no_match_transition}
use anchorix.Findings.Pairs.{MatchKey}
use anchorix.Findings.Table.{Table, find_row}
use anchorix.Findings.Recompute.{Inputs, MatchEntry}
use anchorix.Findings.Recompute.Steps.{next_row}

-- the row of a match
unfoldable pub matched_row : Inputs → MatchKey → MatchEntry → Option Finding → Option Finding
matched_row inp k m none =
    elim (decide_match_transition (inp.new_id k) none inp.organization_id k.cert_id m.rule
      m.evidence inp.now) [ err e ↦ none | ok t ↦ t.next ]
matched_row inp k m (some f) = some (
    next_row f (
      decide_match_transition (inp.new_id k) (some f) inp.organization_id k.cert_id m.rule
        m.evidence inp.now))

-- the row of a pair, from its match and its row so far
unfoldable pub recomputed_row :
    Inputs → MatchKey → Option MatchEntry → Option Finding → Option Finding
unfolding matched_row
recomputed_row inp k (some m) prior = matched_row inp k m prior
recomputed_row inp k none none = none
recomputed_row inp k none (some f) = some (next_row f (decide_no_match_transition (some f) inp.now))

-- the match of a certificate and a rule: the rule of that id, evaluated for the certificate
unfoldable pub rule_match : List Rule → ℕ → CertificateSummary → Text → Option MatchEntry
rule_match [] now cert rule_id = none
rule_match (rule ∷ rules) now cert rule_id =
    if text_eq rule_id rule.id
    then elim (rule.evaluate cert now) [
      | none ↦ none
      | some m ↦ some (record { rule = rule; evidence = m })
    ]
    else rule_match rules now cert rule_id

unfoldable pub pair_match : List CertificateSummary → List Rule → ℕ → MatchKey → Option MatchEntry
unfolding rule_match
pair_match [] rules now k = none
pair_match (cert ∷ certs) rules now k =
    if text_eq k.cert_id cert.id
    then rule_match rules now cert k.rule_id
    else pair_match certs rules now k

-- Only the rows of the organization change.
unfoldable pub recomputed : Inputs → Table → (organization certificate rule : Text) → Option Finding
unfolding recomputed_row pair_match
recomputed inp table organization certificate rule =
    let k : MatchKey = record { cert_id = certificate; rule_id = rule } in
    let prior = find_row organization certificate rule table in
    if text_eq inp.organization_id organization
    then recomputed_row inp k (pair_match inp.certs inp.rules inp.now k) prior
    else prior
