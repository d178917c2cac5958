-- ===== src/Findings/Recompute/Refines.antt =====
-- findings/service.go, runDiffStreaming: the three phases leave what the specification says.
use anchorix.Prelude.{
  ℕ, ◌+◌, ◌<◌, ◌≡◌, refl, ap, ◌∙◌, Option, none, some, length, ok, Bool-cases, Option-cases, inl,
  inr, subst,
}
use anchorix.Prelude.Text.{Text, text_eq, text_eq_iff, text_eq_refl}
use anchorix.Prelude.Paging.{each}
use anchorix.Findings.{Finding}
use anchorix.Findings.Pairs.{MatchKey, get}
use anchorix.Findings.Pairs.Laws.{UniqueKeys}
use anchorix.Findings.Table.{Table, find_row, rows_of}
use anchorix.Findings.Table.Laws.{IsTable}
use anchorix.Findings.Table.Listing.{length-listing}
use anchorix.Findings.Recompute.{
  Inputs, MatchEntry, Matches, DiffState, DiffSummary, no_counts, key_of, stream_findings,
  collect_matches, stream_insert, insert_remaining, run_diff_streaming,
}
use anchorix.Findings.Recompute.Spec.{pair_match, recomputed, recomputed_row, matched_row}
use anchorix.Findings.Recompute.Matching.{collect_matches_lem}
use anchorix.Findings.Recompute.Streaming.{row_after}
use anchorix.Findings.Recompute.Visits.{StreamedAll}
use anchorix.Findings.Recompute.Inserts.{each_insert, after_insert}
use anchorix.Findings.Recompute.Phases.{
  IsSetting, found_key, start, rows, stream_findings_lem, own_listing, foreign_listing, remaining,
  insertable,
}

module _ (inp : Inputs) (table : Table) (setting : IsSetting inp table) (m : Matches)
    (st : DiffState) (um : UniqueKeys m)
    (from_pairs : (k : MatchKey) → get k m ≡ pair_match inp.certs inp.rules inp.now k)
    (all : StreamedAll inp (rows inp table setting) (start inp table setting m) st) where
  abbrev key : Text → Text → MatchKey
  key c r = record { cert_id = c; rule_id = r }

  left_of :
      (c r : Text)
      → get (key c r) (inp.range st.matches) ≡ (elim (find_row inp.organization_id c r table) [
        | none ↦ pair_match inp.certs inp.rules inp.now (key c r)
        | some f ↦ none
      ])
  left_of c r =
      remaining inp table setting m st um from_pairs all (key c r)
      ∙ all.matches (key c r)
      ∙ elim (Option-cases (find_row inp.organization_id c r table)) [
        | inl absent ↦ rw absent (
            rw (own_listing inp table setting m st um from_pairs all c r ∙ absent)
              (from_pairs (key c r)))
        | inr (f, present) ↦
            rw present
              (rw (own_listing inp table setting m st um from_pairs all c r ∙ present) refl)
      ]

  row_after-recomputed_row :
      (e : Option MatchEntry) (f : Finding)
      → some (row_after inp e f) ≡ recomputed_row inp (key_of f) e (some f)
  unfolding recomputed_row key_of
  row_after-recomputed_row none f = refl
  row_after-recomputed_row (some e) f = refl

  present_row :
      (c r : Text) (f : Finding)
      → find_row inp.organization_id c r table ≡ some f
      → some (row_after inp (get (key_of f) m) f)
        ≡ recomputed_row inp (key c r) (pair_match inp.certs inp.rules inp.now (key c r)) (some f)
  present_row c r f present =
      ap (λ e. some (row_after inp e f)) (from_pairs (key_of f))
      ∙ row_after-recomputed_row _ f
      ∙ ap (λ k. recomputed_row inp k (pair_match inp.certs inp.rules inp.now k) (some f))
          (found_key inp.organization_id c r table f present)

  own_row :
      (c r : Text)
      → (elim (get (key c r) (inp.range st.matches)) [
        | none ↦ find_row inp.organization_id c r st.table
        | some e ↦ matched_row inp (key c r) e none
      ])
        ≡ recomputed_row inp
            (key c r)
            (pair_match inp.certs inp.rules inp.now (key c r))
            (find_row inp.organization_id c r table)
  unfolding recomputed_row
  own_row c r = rw (left_of c r) (elim (Option-cases (find_row inp.organization_id c r table)) [
    | inl absent ↦
        rw absent (elim (Option-cases (pair_match inp.certs inp.rules inp.now (key c r))) [
          | inl unmatched ↦ rw unmatched (
              all.found inp.organization_id c r
              ∙ rw (own_listing inp table setting m st um from_pairs all c r ∙ absent) absent)
          | inr (e, matched) ↦ rw matched refl
        ])
    | inr (f, present) ↦ rw present (
        all.found inp.organization_id c r
        ∙ rw (own_listing inp table setting m st um from_pairs all c r ∙ present)
            (present_row c r f present))
  ])

  all_rows :
      (o c r : Text)
      → after_insert inp setting.new_ids (inp.range st.matches) st.table o c r
        ≡ recomputed inp table o c r
  unfolding recomputed
  all_rows o c r = elim (Bool-cases (text_eq inp.organization_id o)) [
    | inl own ↦
        let e : inp.organization_id ≡ o = (text_eq_iff inp.organization_id o).0 own in
        subst
          (λ o'.
            after_insert inp setting.new_ids (inp.range st.matches) st.table o' c r
            ≡ recomputed inp table o' c r)
          e (rw (text_eq_refl inp.organization_id) (own_row c r))
    | inr foreign ↦ rw foreign (
        all.found o c r
        ∙ rw (foreign_listing inp table setting m st um from_pairs all o c r foreign) refl)
  ]

run_of :
    (inp : Inputs) (size : ℕ) (table : Table) (m : Matches) {certs findings : ℕ}
    (st st' : DiffState)
    → collect_matches inp size ≡ some (ok (certs, m))
    → stream_findings inp size (record { table = table; matches = m; counters = no_counts })
      ≡ some (ok (findings, st))
    → each (stream_insert inp) (inp.range st.matches) st ≡ ok st'
    → run_diff_streaming inp size table
      ≡ some (
          ok (
            st'.table,
            record {
              evaluated_certificates = certs;
              loaded_certificates = certs;
              loaded_findings = findings;
              counters = st'.counters;
            },
          ))
unfolding run_diff_streaming insert_remaining
run_of inp size table m st st' e1 e2 e3 = rw (e1, run_diff_streaming) (rw e2 (rw e3 refl))

-- In a database whose constraints hold, whose statuses the code knows, whose ids are not empty and
-- are not repeated by a new id, with certificates and rules of different ids and where a range over
-- the match map visits each entry once, the streaming recompute of an organization ends for every
-- page size above 0 without an error, has read each certificate and each finding of the
-- organization, and leaves at every organization, certificate and rule the row of the
-- specification: the row of the match where the rule matches the certificate, the row of the
-- non-match where it does not, and the row as it was in the other organizations.
pub run_diff_streaming-recomputed :
    (inp : Inputs) (size : ℕ) (table : Table)
    → 0 < size
    → IsSetting inp table
    → (table' : Table) × (d : DiffSummary) × (run_diff_streaming inp size table
        ≡ some (ok (table', d)))
      × IsTable table'
      × ((o c r : Text) → find_row o c r table' ≡ recomputed inp table o c r)
      × (d.loaded_certificates ≡ length inp.certs)
      × (d.loaded_findings ≡ length (rows_of inp.organization_id table))
run_diff_streaming-recomputed inp size table pos setting =
    let (m, e1, um, from_pairs) =
      collect_matches_lem inp size pos setting.rules setting.certs setting.cert_ids in
    let (st, e2, all) = stream_findings_lem inp table setting size m pos um in
    let (st', e3, t', found) =
      each_insert inp setting.new_ids (inp.range st.matches) st
        (setting.range_once st.matches all.unique) all.table
        (insertable inp table setting m st um from_pairs all) in
    (
      st'.table,
      record {
        evaluated_certificates = length inp.certs;
        loaded_certificates = length inp.certs;
        loaded_findings = 0 + length (rows inp table setting);
        counters = st'.counters;
      },
      run_of inp size table m st st' e1 e2 e3,
      t',
      λ o c r. found o c r ∙ all_rows inp table setting m st um from_pairs all o c r,
      refl,
      length-listing inp.organization_id table setting.row_ids,
    )
