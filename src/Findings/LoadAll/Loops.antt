-- ===== src/Findings/LoadAll/Loops.antt =====
-- findings/service.go, runDiffLoadAll: the two loops, over the matches and over the findings, leave
-- what the specification says.
use anchorix.Prelude.{
  ◌≡◌, refl, sym, ap, ◌∙◌, none, some, true, [], length, if◌then◌else◌, ok, All, Bool-cases,
  Option-cases, inl, inr, subst,
}
use anchorix.Prelude.Text.{Text, text_eq, text_eq_iff, text_eq_refl}
use anchorix.Prelude.Paging.{each}
use anchorix.Findings.{Finding}
use anchorix.Findings.Diff.Machine.{is_supported}
use anchorix.Findings.Pairs.{MatchKey, PairMap, get}
use anchorix.Findings.Pairs.Laws.{UniqueKeys, UniqueKeys-All}
use anchorix.Findings.Table.{Table, find_row, rows_of}
use anchorix.Findings.Table.Laws.{IsTable}
use anchorix.Findings.Recompute.{Inputs, Matches, DiffState, DiffSummary, no_counts, diffed}
use anchorix.Findings.Recompute.Spec.{pair_match, recomputed, recomputed_row, matched_row}
use anchorix.Findings.Recompute.Streaming.{find_row-All}
use anchorix.Findings.Recompute.Phases.{IsSetting, pair_match_id}
use anchorix.Findings.LoadAll.{
  list_all_for_org, match_all, apply_prior, apply_unmatched, run_diff_load_all,
}
use anchorix.Findings.LoadAll.Passes.{key, each_pass}
use anchorix.Findings.LoadAll.Existing.{
  match_all_lem, existing, existing-UniqueKeys, existing_rows, length-list_all_for_org,
}
use anchorix.Findings.LoadAll.Puts.{
  Matchable, match_target, apply_prior-Put, still-Matchable, Walkable, row_target,
  apply_unmatched-Put, still-Walkable, before_second,
}

-- a range over the map of the findings visits each entry once
pub record IsRange (range : PairMap Finding → PairMap Finding) : Type 0 where
  pub once : (m : PairMap Finding) → UniqueKeys m → UniqueKeys (range m)
  pub all : (m : PairMap Finding) (k : MatchKey) → UniqueKeys m → get k (range m) ≡ get k m

module _ (inp : Inputs) (range_rows : PairMap Finding → PairMap Finding) (table : Table)
    (ranged : IsRange range_rows) (setting : IsSetting inp table) where
  abbrev org : Text
  org = inp.organization_id

  abbrev m : Matches
  m = match_all inp.rules inp.now inp.certs []

  abbrev rows : PairMap Finding
  rows = existing inp table

  m-UniqueKeys : UniqueKeys m
  m-UniqueKeys = (match_all_lem inp setting.rules setting.certs).0

  m-pair_match : (k : MatchKey) → get k m ≡ pair_match inp.certs inp.rules inp.now k
  m-pair_match = (match_all_lem inp setting.rules setting.certs).1

  get-rows : (k : MatchKey) → get k rows ≡ find_row org k.cert_id k.rule_id table
  get-rows k = existing_rows inp k table setting.constraints

  row_supported : (k : MatchKey) (f : Finding) → get k rows ≡ some f → is_supported f.status ≡ true
  row_supported k f e =
      find_row-All (λ x. is_supported x.status ≡ true) org k.cert_id k.rule_id table
        (sym (get-rows k) ∙ e) setting.supported

  matchable : All (λ e. Matchable inp rows e table) (inp.range m)
  matchable =
      UniqueKeys-All (λ k e. Matchable inp rows (k, e) table) (inp.range m)
        (setting.range_once m m-UniqueKeys)
        λ k e left. record {
          rule =
              pair_match_id inp.certs inp.rules inp.now k e
                (sym (m-pair_match k) ∙ sym (setting.range_all m k m-UniqueKeys) ∙ left);
          prior = sym (get-rows k);
          fresh = setting.fresh k;
          supported = row_supported k;
        }

  first_pass :
      (st : DiffState) × (each
          (apply_prior inp rows)
          (inp.range m)
          (record { table = table; matches = m; counters = no_counts })
        ≡ ok st)
      × IsTable st.table
      × ((o c r : Text)
          → find_row o c r st.table ≡ (
              if text_eq org o
              then elim (get (key c r) (inp.range m)) [
                | none ↦ find_row o c r table
                | some e ↦ match_target inp rows (key c r) e
              ]
              else find_row o c r table))
  first_pass =
      each_pass inp (apply_prior inp rows) (match_target inp rows) (Matchable inp rows)
        (apply_prior-Put inp rows) (still-Matchable inp rows setting.new_ids) (inp.range m)
        (record { table = table; matches = m; counters = no_counts })
        (setting.range_once m m-UniqueKeys) setting.constraints matchable

  -- the table between the loops
  abbrev IsBetween : Table → Type 0
  IsBetween t =
      (o c r : Text)
      → find_row o c r t ≡ (
          if text_eq org o
          then elim (get (key c r) m) [
            | none ↦ find_row o c r table
            | some e ↦ match_target inp rows (key c r) e
          ]
          else find_row o c r table)

  walkable : (t : Table) → IsBetween t → All (λ e. Walkable inp m e t) (range_rows rows)
  walkable t between =
      UniqueKeys-All (λ k f. Walkable inp m (k, f) t) (range_rows rows)
        (ranged.once rows (existing-UniqueKeys inp table))
        λ k f left.
          let there : get k rows ≡ some f =
            sym (ranged.all rows k (existing-UniqueKeys inp table)) ∙ left in
          record {
            there = between org k.cert_id k.rule_id ∙ rw (text_eq_refl org) (own k f there);
            supported = row_supported k f there;
          }
    where
      own :
          (k : MatchKey) (f : Finding)
          → get k rows ≡ some f
          → (elim (get k m) [
            | none ↦ find_row org k.cert_id k.rule_id table
            | some e ↦ match_target inp rows k e
          ])
            ≡ before_second inp m k f
      own k f there = elim (Option-cases (get k m)) [
        | inl unmatched ↦ rw (unmatched, before_second) (sym (get-rows k) ∙ there)
        | inr (e, matched) ↦ rw (matched, before_second) (ap (matched_row inp k e) there)
      ]

  -- the table after the loops
  abbrev IsAfter : Table → Table → Type 0
  IsAfter t t' =
      (o c r : Text)
      → find_row o c r t' ≡ (
          if text_eq org o
          then elim (get (key c r) (range_rows rows)) [
            | none ↦ find_row o c r t
            | some f ↦ row_target inp m (key c r) f
          ]
          else find_row o c r t)

  own_row :
      (t t' : Table) (c r : Text)
      → IsBetween t
      → IsAfter t t'
      → find_row org c r t'
        ≡ recomputed_row inp
            (key c r)
            (pair_match inp.certs inp.rules inp.now (key c r))
            (find_row org c r table)
  unfolding recomputed_row
  own_row t t' c r between after =
      after org c r
      ∙ rw (text_eq_refl org) (
          rw (ranged.all rows (key c r) (existing-UniqueKeys inp table) ∙ get-rows (key c r))
            (elim (Option-cases (find_row org c r table)) [
              | inl absent ↦ rw absent (
                  between org c r
                  ∙ rw (text_eq_refl org) (elim (Option-cases (get (key c r) m)) [
                    | inl unmatched ↦ rw unmatched absent
                    | inr (e, matched) ↦
                        rw matched (ap (matched_row inp (key c r) e) (get-rows (key c r) ∙ absent))
                  ]))
              | inr (f, present) ↦ rw present refl
            ]))
      ∙ ap (λ e. recomputed_row inp (key c r) e (find_row org c r table)) (m-pair_match (key c r))

  all_rows :
      (t t' : Table)
      → IsBetween t
      → IsAfter t t'
      → (o c r : Text) → find_row o c r t' ≡ recomputed inp table o c r
  unfolding recomputed
  all_rows t t' between after o c r = elim (Bool-cases (text_eq org o)) [
    | inr foreign ↦ rw foreign (after o c r ∙ rw foreign (between o c r ∙ rw foreign refl))
    | inl own ↦
        subst (λ x. find_row x c r t' ≡ recomputed inp table x c r) ((text_eq_iff org o).0 own)
          (rw (text_eq_refl org) (own_row t t' c r between after))
  ]

  run_of :
      (st st' : DiffState)
      → each
          (apply_prior inp rows)
          (inp.range m)
          (record { table = table; matches = m; counters = no_counts })
        ≡ ok st
      → each (apply_unmatched inp m) (range_rows rows) st ≡ ok st'
      → run_diff_load_all inp range_rows table
        ≡ diffed (length inp.certs) (length (list_all_for_org org table)) st'
  unfolding run_diff_load_all
  run_of st st' e1 e2 = rw (e1, run_diff_load_all) (rw e2 refl)

  -- the load-all recompute against the specification
  pub run_diff_load_all-recomputed :
      (table' : Table) × (d : DiffSummary) × (run_diff_load_all inp range_rows table
        ≡ ok (table', d))
      × ((o c r : Text) → find_row o c r table' ≡ recomputed inp table o c r)
      × (d.loaded_certificates ≡ length inp.certs)
      × (d.loaded_findings ≡ length (rows_of org table))
  run_diff_load_all-recomputed =
      let (st, e1, t1, found1) = first_pass in
      let between : IsBetween st.table =
        λ o c r. found1 o c r ∙ rw (setting.range_all m (key c r) m-UniqueKeys) refl in
      let (st', e2, t2, found2) =
        each_pass inp (apply_unmatched inp m) (row_target inp m) (Walkable inp m)
          (apply_unmatched-Put inp m) (still-Walkable inp m) (range_rows rows) st
          (ranged.once rows (existing-UniqueKeys inp table)) t1 (walkable st.table between) in
      (
        st'.table,
        record {
          evaluated_certificates = length inp.certs;
          loaded_certificates = length inp.certs;
          loaded_findings = length (list_all_for_org org table);
          counters = st'.counters;
        },
        run_of st st' e1 e2,
        all_rows st.table st'.table between found2,
        refl,
        length-list_all_for_org inp table,
      )
