-- ===== src/Findings/LoadAll/Agrees.antt =====
-- findings/service.go: the load-all recompute against the streaming recompute.
use anchorix.Prelude.{ℕ, ◌<◌, ◌≡◌, sym, ◌∙◌, some, ok}
use anchorix.Prelude.Text.{Text}
use anchorix.Findings.{Finding}
use anchorix.Findings.Pairs.{PairMap}
use anchorix.Findings.Table.{Table, find_row}
use anchorix.Findings.Recompute.{Inputs, DiffSummary, run_diff_streaming}
use anchorix.Findings.Recompute.Phases.{IsSetting}
use anchorix.Findings.Recompute.Refines.{run_diff_streaming-recomputed}
use anchorix.Findings.LoadAll.{run_diff_load_all}
use anchorix.Findings.LoadAll.Loops.{IsRange, run_diff_load_all-recomputed}

-- In a database whose constraints hold, whose statuses the code knows, whose ids are not empty and
-- are not repeated by a new id, with certificates and rules of different ids and where a range over
-- a map visits each entry once, the load-all recompute and the streaming recompute, for every page
-- size above 0, both end without an error, leave the same row at every organization, certificate
-- and rule, and have loaded as many certificates and as many findings as the other.
pub run_diff_load_all-streaming :
    (inp : Inputs) (size : ℕ) (range_rows : PairMap Finding → PairMap Finding) (table : Table)
    → 0 < size
    → IsRange range_rows
    → IsSetting inp table
    → (a b : Table) × (d e : DiffSummary) × (run_diff_load_all inp range_rows table ≡ ok (a, d))
      × (run_diff_streaming inp size table ≡ some (ok (b, e)))
      × ((o c r : Text) → find_row o c r a ≡ find_row o c r b)
      × (d.loaded_certificates ≡ e.loaded_certificates)
      × (d.loaded_findings ≡ e.loaded_findings)
run_diff_load_all-streaming inp size range_rows table pos ranged setting =
    let (a, d, went, found, certs, findings) =
      run_diff_load_all-recomputed inp range_rows table ranged setting in
    let (b, e, streamed, t, found', certs', findings') =
      run_diff_streaming-recomputed inp size table pos setting in
    (
      a,
      b,
      d,
      e,
      went,
      streamed,
      λ o c r. found o c r ∙ sym (found' o c r),
      certs ∙ sym certs',
      findings ∙ sym findings',
    )
