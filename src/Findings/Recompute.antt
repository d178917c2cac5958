-- ===== src/Findings/Recompute.antt =====
-- findings/service.go: a recompute of an organization's findings. Queries fail for no other reason
-- than the ones written out; the certificates of an organization are those that the inventory has
-- of it, and a certificate's row stands as long as the transaction reads it.
pub mod Steps
pub mod Spec
pub mod Matching
pub mod Streaming
pub mod Visits
pub mod Inserts
pub mod Phases
pub mod Refines
mod Tests
use anchorix.Prelude.{
  ℕ, suc, ◌+◌, Option, none, some, Bool, true, false, not, ◌&&◌, List, [], ◌∷◌, length, ltb,
  if◌then◌else◌, Outcome, ok, err, ◌>>=◌, is_some,
}
use anchorix.Prelude.Text.{Text, text_eq, trim_space, is_empty, codes}
use anchorix.Prelude.Paging.{each, rows_after, walk_pages}
use anchorix.Findings.{Evidence, Finding, CertificateSummary, Rule}
use anchorix.Findings.Diff.{
  CounterBucket, FindingsError, Transition, decide_match_transition, decide_no_match_transition,
}
use anchorix.Findings.Pairs.{MatchKey, PairMap, get, put, delete}
use anchorix.Findings.Table.{RecomputeError, Table, apply_decision, rows_of}

-- a rule, and what its `Evaluate` answered
pub record MatchEntry : Type 0 where
  pub rule : Rule
  pub evidence : Evidence

abbrev pub Matches : Type 0
Matches = PairMap MatchEntry

-- `evaluateRulesForCert`, and the same loop in `runDiffLoadAll`
unfoldable pub evaluate_rules_for_cert : List Rule → ℕ → CertificateSummary → Matches → Matches
unfolding put
evaluate_rules_for_cert [] now cert matches = matches
evaluate_rules_for_cert (rule ∷ rules) now cert matches =
    evaluate_rules_for_cert rules now cert (elim (rule.evaluate cert now) [
      | none ↦ matches
      | some m ↦
          put (record { cert_id = cert.id; rule_id = rule.id })
            (record { rule = rule; evidence = m }) matches
    ])

pub record Counters : Type 0 where
  pub opened : ℕ
  pub updated : ℕ
  pub resolved : ℕ
  pub unchanged : ℕ

abbrev pub no_counts : Counters
no_counts = record { opened = 0; updated = 0; resolved = 0; unchanged = 0 }

-- `counters[bucket]++`
abbrev pub count_bucket : CounterBucket → Counters → Counters
count_bucket CounterBucket.opened c = record c { opened = c.opened + 1 }
count_bucket CounterBucket.updated c = record c { updated = c.updated + 1 }
count_bucket CounterBucket.resolved c = record c { resolved = c.resolved + 1 }
count_bucket CounterBucket.unchanged c = record c { unchanged = c.unchanged + 1 }

pub record DiffSummary : Type 0 where
  pub evaluated_certificates : ℕ
  pub loaded_certificates : ℕ
  pub loaded_findings : ℕ
  pub counters : Counters

pub record RecomputeResult : Type 0 where
  pub evaluated_certificates : ℕ
  pub opened : ℕ
  pub updated : ℕ
  pub resolved : ℕ
  pub unchanged : ℕ
  pub rule_count : ℕ
  pub loaded_certificates : ℕ
  pub loaded_findings : ℕ

unfoldable pub to_recompute_result : DiffSummary → ℕ → RecomputeResult
to_recompute_result d rule_count = record {
  evaluated_certificates = d.evaluated_certificates;
  opened = d.counters.opened;
  updated = d.counters.updated;
  resolved = d.counters.resolved;
  unchanged = d.counters.unchanged;
  rule_count = rule_count;
  loaded_certificates = d.loaded_certificates;
  loaded_findings = d.loaded_findings;
}

-- the table within the transaction, and the variables of the diff
pub record DiffState : Type 0 where
  pub table : Table
  pub matches : Matches
  pub counters : Counters

-- `if err != nil { return err }; if err := applyDecision(…); err != nil { … }; counters[bucket]++`
unfoldable pub settle :
    Outcome FindingsError Transition → DiffState → Outcome RecomputeError DiffState
unfolding apply_decision
settle (err e) st = err (RecomputeError.diff e)
settle (ok t) st = apply_decision t.next t.op st.table >>= λ table.
    ok (record st { table = table; counters = count_bucket t.bucket st.counters })

unfoldable pub key_of : Finding → MatchKey
key_of f = record { cert_id = f.certificate_id; rule_id = f.rule_id }

-- What a recompute is given: the rules, the organization, the time, the certificates of the
-- organization, and what `ids.New` answers when the finding of a pair is new.
pub record Inputs : Type 0 where
  pub rules : List Rule
  pub organization_id : Text
  pub now : ℕ
  pub certs : List CertificateSummary
  pub new_id : MatchKey → Text
  -- a `range` over the map: its entries, each once, in an order of its own
  pub range : Matches → Matches

-- a match, with the row that the pair has
unfoldable pub apply_match :
    Inputs → Option Finding → MatchKey → MatchEntry → DiffState → Outcome RecomputeError DiffState
unfolding settle
apply_match inp prior k m st =
    settle
      (decide_match_transition (inp.new_id k) prior inp.organization_id k.cert_id m.rule m.evidence
        inp.now)
      st

-- one finding of phase 2
unfoldable pub stream_finding : Inputs → Finding → DiffState → Outcome RecomputeError DiffState
unfolding apply_match settle key_of get delete
stream_finding inp prior st = elim (get (key_of prior) st.matches) [
  | some m ↦ apply_match inp (some prior) (key_of prior) m st >>= λ st'.
      ok (record st' { matches = delete (key_of prior) st'.matches })
  | none ↦ settle (decide_no_match_transition (some prior) inp.now) st
]

-- one entry of phase 3
unfoldable pub stream_insert :
    Inputs → MatchKey × MatchEntry → DiffState → Outcome RecomputeError DiffState
unfolding apply_match
stream_insert inp (k, m) st = apply_match inp none k m st

abbrev pub recompute_streaming_page_size : ℕ
recompute_streaming_page_size = 500

unfoldable pub effective_streaming_page_size : ℕ → ℕ
effective_streaming_page_size override =
    if ltb 0 override then override else recompute_streaming_page_size

-- phase 1: the loop over the pages of the certificates
unfoldable pub collect_matches : Inputs → ℕ → Option (Outcome RecomputeError (ℕ × Matches))
unfolding evaluate_rules_for_cert
collect_matches inp size =
    walk_pages (λ c. c.id) (λ _. inp.certs)
      (λ cert matches. ok (evaluate_rules_for_cert inp.rules inp.now cert matches))
      (suc (length inp.certs)) size [] 0 []

-- phase 2: the loop over the pages of the findings
unfoldable pub stream_findings :
    Inputs → ℕ → DiffState → Option (Outcome RecomputeError (ℕ × DiffState))
unfolding stream_finding rows_of
stream_findings inp size st =
    walk_pages (λ f. f.id) (λ st'. rows_of inp.organization_id st'.table) (stream_finding inp)
      (suc (length (rows_of inp.organization_id st.table))) size [] 0 st

abbrev pub diffed : ℕ → ℕ → DiffState → Outcome RecomputeError (Table × DiffSummary)
diffed certs findings st = ok (
  st.table,
  record {
    evaluated_certificates = certs;
    loaded_certificates = certs;
    loaded_findings = findings;
    counters = st.counters;
  },
)

-- phase 3
unfoldable pub insert_remaining :
    Inputs → ℕ → ℕ → DiffState → Outcome RecomputeError (Table × DiffSummary)
unfolding stream_insert each
insert_remaining inp certs findings st =
    each (stream_insert inp) (inp.range st.matches) st >>= diffed certs findings

-- `none` where a loop ran out of the rounds that it is given
unfoldable pub run_diff_streaming :
    Inputs → ℕ → Table → Option (Outcome RecomputeError (Table × DiffSummary))
unfolding collect_matches stream_findings insert_remaining
run_diff_streaming inp size table = elim (collect_matches inp size) [
  | none ↦ none
  | some (err e) ↦ some (err e)
  | some (ok (certs, matches)) ↦
      elim (stream_findings inp size
        (record { table = table; matches = matches; counters = no_counts })) [
          | none ↦ none
          | some (err e) ↦ some (err e)
          | some (ok (findings, st)) ↦ some (insert_remaining inp certs findings st)
        ]
]
