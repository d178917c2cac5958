-- ===== src/Findings/LoadAll.antt =====
-- findings/service.go, runDiffLoadAll: the recompute that reads all findings of the organization at
-- once. `range_rows` is a range over the map of the findings.
pub mod Passes
pub mod Existing
pub mod Puts
pub mod Loops
pub mod Agrees
use anchorix.Prelude.{ℕ, none, some, List, [], ◌∷◌, length, Outcome, ok, ◌>>=◌}
use anchorix.Prelude.Text.{Text}
use anchorix.Prelude.Sort.{sort_stable}
use anchorix.Prelude.Paging.{each, key_lt}
use anchorix.Findings.{Finding, CertificateSummary, Rule}
use anchorix.Findings.Diff.{decide_no_match_transition}
use anchorix.Findings.Pairs.{MatchKey, PairMap, get, put}
use anchorix.Findings.Table.{RecomputeError, Table, rows_of}
use anchorix.Findings.Recompute.{
  Inputs, MatchEntry, Matches, DiffState, DiffSummary, no_counts, key_of, settle, apply_match,
  evaluate_rules_for_cert, diffed,
}

-- `ORDER BY id ASC`
unfoldable pub list_all_for_org : Text → Table → List Finding
unfolding rows_of
list_all_for_org organization table = sort_stable (key_lt (λ f. f.id)) (rows_of organization table)

unfoldable pub match_all : List Rule → ℕ → List CertificateSummary → Matches → Matches
unfolding evaluate_rules_for_cert
match_all rules now [] matches = matches
match_all rules now (cert ∷ certs) matches =
    match_all rules now certs (evaluate_rules_for_cert rules now cert matches)

-- `existingByKey`
unfoldable pub by_key : List Finding → PairMap Finding → PairMap Finding
unfolding put key_of
by_key [] m = m
by_key (f ∷ fs) m = by_key fs (put (key_of f) f m)

-- one entry of the loop over the matches
unfoldable pub apply_prior :
    Inputs → PairMap Finding → MatchKey × MatchEntry → DiffState → Outcome RecomputeError DiffState
unfolding apply_match get
apply_prior inp existing (k, m) st = apply_match inp (get k existing) k m st

-- one entry of the loop over the findings
unfoldable pub apply_unmatched :
    Inputs → Matches → MatchKey × Finding → DiffState → Outcome RecomputeError DiffState
unfolding settle get
apply_unmatched inp matches (k, f) st = elim (get k matches) [
  | some _ ↦ ok st
  | none ↦ settle (decide_no_match_transition (some f) inp.now) st
]

unfoldable pub run_diff_load_all :
    Inputs
    → (PairMap Finding → PairMap Finding)
    → Table
    → Outcome RecomputeError (Table × DiffSummary)
unfolding list_all_for_org match_all by_key apply_prior apply_unmatched each
run_diff_load_all inp range_rows table =
    let matches = match_all inp.rules inp.now inp.certs [] in
    let existing = list_all_for_org inp.organization_id table in
    let existing_by_key = by_key existing [] in
    each (apply_prior inp existing_by_key) (inp.range matches)
      (record { table = table; matches = matches; counters = no_counts })
    >>= λ applied.
        each (apply_unmatched inp matches) (range_rows existing_by_key) applied
        >>= diffed (length inp.certs) (length existing)
