-- ===== src/Findings/Recompute/Phases.antt =====
-- findings/service.go, runDiffStreaming: phase 2 in its setting, and the entries that it leaves for phase 3.
use anchorix.Prelude.{
  ℕ, ◌+◌, ◌<◌, ◌≡◌, refl, sym, ap, ◌∙◌, Option, none, some, true, false, List, [], ◌∷◌, length,
  filter, ok, All, arith, Bool-cases, Option-cases, inl, inr, >>=-eq-ok, ok-injective,
}
use anchorix.Prelude.Text.{Text, text_eq, text_eq_iff, text_eq_refl, text_lt}
use anchorix.Prelude.Paging.{rows_after, key_lt}
use anchorix.Prelude.Paging.Ascending.{Differ, Differ-IsAscending, length-rows_after}
use anchorix.Prelude.Paging.Walk.{walk_pages-walked}
use anchorix.Prelude.Sort.{sort_stable}
use anchorix.Findings.{CertificateSummary, Finding, Rule}
use anchorix.Findings.Diff.Machine.{is_supported}
use anchorix.Findings.Pairs.{MatchKey, key_eq, get}
use anchorix.Findings.Pairs.Laws.{UniqueKeys, UniqueKeys-All}
use anchorix.Findings.Table.{Table, same_pair, find_row, rows_of}
use anchorix.Findings.Table.Laws.{IsTable, Holds}
use anchorix.Findings.Table.Listing.{
  HasIds, listing, find_row-listing, Holds-listing, listing_org, IsTable-listing, All-listing,
  Differ-rows_of,
}
use anchorix.Findings.Recompute.{
  Inputs, MatchEntry, Matches, DiffState, no_counts, key_of, settle, apply_match, stream_finding,
  stream_findings,
}
use anchorix.Findings.Recompute.Steps.{settle_keeps}
use anchorix.Findings.Recompute.Spec.{rule_match, pair_match}
use anchorix.Findings.Recompute.Matching.{UniqueRules}
use anchorix.Findings.Recompute.Streaming.{decision, decision-Decided}
use anchorix.Findings.Recompute.Visits.{StreamedAll, Visitable, each_stream}
use anchorix.Findings.Recompute.Inserts.{Insertable}

-- What the database and the rules are to be: ids and rule ids differ, the constraints of the table
-- hold, a range visits each entry once, and the ids of new findings are new.
pub record IsSetting (inp : Inputs) (table : Table) : Type 0 where
  pub rules : UniqueRules inp.rules
  pub certs : Differ (λ c. c.id) inp.certs
  pub cert_ids : All (λ c. text_lt [] c.id ≡ true) inp.certs
  pub constraints : IsTable table
  pub row_ids : HasIds table
  pub supported : All (λ f. is_supported f.status ≡ true) table
  pub range_once : (m : Matches) → UniqueKeys m → UniqueKeys (inp.range m)
  pub range_all : (m : Matches) (k : MatchKey) → UniqueKeys m → get k (inp.range m) ≡ get k m
  pub fresh : (k : MatchKey) → All (λ x. text_eq (inp.new_id k) x.id ≡ false) table
  pub new_ids :
      (j k : MatchKey) → key_eq j k ≡ false → text_eq (inp.new_id j) (inp.new_id k) ≡ false

-- the match of a pair is of the pair's rule
rule_match_id :
    (rules : List Rule) (now : ℕ) (cert : CertificateSummary) (id : Text) (m : MatchEntry)
    → rule_match rules now cert id ≡ some m
    → id ≡ m.rule.id
unfolding rule_match
rule_match_id [] now cert id m e = cc
rule_match_id (rule ∷ rules) now cert id m e = elim (Bool-cases (text_eq id rule.id)) [
  | inl same ↦ elim (Option-cases (rule.evaluate cert now)) [
    | inl unmatched ↦
        (let e1 = (rw same at e) in
          let e2 : ◌≡◌ {A = Option MatchEntry} none (some m) = (rw unmatched at e1) in cc)
    | inr (ev, matched) ↦
        let e1 = (rw same at e) in
        let e2 : ◌≡◌ {A = Option MatchEntry} (some (record { rule = rule; evidence = ev }))
            (some m) =
          (rw matched at e1) in
        (text_eq_iff id rule.id).0 same
        ∙ ap (λ o. elim o [ none ↦ rule.id | some x ↦ x.rule.id ]) e2
  ]
  | inr other ↦ rule_match_id rules now cert id m (rw other at e)
]

pub pair_match_id :
    (certs : List CertificateSummary) (rules : List Rule) (now : ℕ) (k : MatchKey) (m : MatchEntry)
    → pair_match certs rules now k ≡ some m
    → k.rule_id ≡ m.rule.id
unfolding pair_match
pair_match_id [] rules now k m e = cc
pair_match_id (cert ∷ certs) rules now k m e = elim (Bool-cases (text_eq k.cert_id cert.id)) [
  | inl same ↦ rule_match_id rules now cert k.rule_id m (rw same at e)
  | inr other ↦ pair_match_id certs rules now k m (rw other at e)
]

-- a step of phase 2 leaves the rows behind a cursor that has passed its row
stream_finding_keeps :
    (inp : Inputs) (f : Finding) (st st' : DiffState) (cursor : Text)
    → stream_finding inp f st ≡ ok st'
    → text_lt cursor f.id ≡ false
    → rows_after (λ g. g.id) cursor (rows_of inp.organization_id st'.table)
      ≡ rows_after (λ g. g.id) cursor (rows_of inp.organization_id st.table)
unfolding stream_finding apply_match rows_after
stream_finding_keeps inp f st st' cursor went le =
    ap (sort_stable (key_lt (λ g. g.id))) (elim (Option-cases (get (key_of f) st.matches)) [
      | inl unmatched ↦
          settle_keeps f (decision inp none f) st st' inp.organization_id cursor
            (decision-Decided inp none f) (rw (unmatched, stream_finding) at went) le
      | inr (m, matched) ↦
          let (t, settled, same) =
            >>=-eq-ok {A = DiffState} (settle (decision inp (some m) f) st) _
              (rw (matched, stream_finding) at went) in
          ap
            (λ (s : DiffState).
              filter (λ r. text_lt cursor r.id) (rows_of inp.organization_id s.table))
            (sym (ok-injective same))
          ∙ settle_keeps f (decision inp (some m) f) st t inp.organization_id cursor
              (decision-Decided inp (some m) f) settled le
    ])

pub found_pair :
    (o c r : Text) (rows : Table) (f : Finding)
    → find_row o c r rows ≡ some f
    → same_pair o c r f ≡ true
unfolding find_row
found_pair o c r [] f e = cc
found_pair o c r (x ∷ rows) f e = elim (Bool-cases (same_pair o c r x)) [
  | inl here ↦
      let there : ◌≡◌ {A = Option Finding} (some x) (some f) = (rw here at e) in
      ap (λ g. elim g [ none ↦ true | some y ↦ same_pair o c r y ]) (sym there) ∙ here
  | inr later ↦ found_pair o c r rows f (rw later at e)
]

pub found_key :
    (o c r : Text) (rows : Table) (f : Finding)
    → find_row o c r rows ≡ some f
    → key_of f ≡ record { cert_id = c; rule_id = r }
unfolding key_of same_pair
found_key o c r rows f e =
    let pair = found_pair o c r rows f e in
    ground (arith, text_eq_iff c f.certificate_id, text_eq_iff r f.rule_id)

module _ (inp : Inputs) (table : Table) (setting : IsSetting inp table) where
  abbrev pub start : Matches → DiffState
  start m = record { table = table; matches = m; counters = no_counts }

  abbrev pub rows : List Finding
  rows = listing inp.organization_id table

  visitable : All (Visitable inp table) rows
  visitable =
      all_of rows (Holds-listing inp.organization_id table setting.constraints setting.row_ids)
        (All-listing (λ f. is_supported f.status ≡ true) inp.organization_id table
          setting.supported)
        (listing_org inp.organization_id table)
    where
      all_of :
          (fs : List Finding)
          → All (Holds table) fs
          → All (λ f. is_supported f.status ≡ true) fs
          → All (λ f. text_eq inp.organization_id f.organization_id ≡ true) fs
          → All (Visitable inp table) fs
      all_of [] h s o = tt
      all_of (f ∷ fs) h s o =
          (record { holds = h.0; supported = s.0; organization = o.0 }, all_of fs h.1 s.1 o.1)

  -- phase 2 ends, and visits the rows of the organization in the order of their ids
  pub stream_findings_lem :
      (size : ℕ) (m : Matches)
      → 0 < size
      → UniqueKeys m
      → (st : DiffState) × (stream_findings inp size (start m) ≡ some (ok (0 + length rows, st)))
        × StreamedAll inp rows (start m) st
  unfolding stream_findings
  stream_findings_lem size m pos u =
      let (st, went, all) =
        each_stream inp rows (start m)
          (IsTable-listing inp.organization_id table setting.constraints) visitable
          setting.constraints u in
      (
        st,
        walk_pages-walked (λ f. f.id) (λ s. rows_of inp.organization_id s.table)
              (stream_finding inp) (stream_finding_keeps inp) _ size [] 0 (start m) pos
              (Differ-IsAscending (λ f. f.id) [] _
                (Differ-rows_of inp.organization_id table setting.constraints))
              (omega (
                arith,
                length-rows_after (λ (f : Finding). f.id) [] (rows_of inp.organization_id table),
              ))
            ∙ ap some (rw went refl),
        all,
      )

  module _ (m : Matches) (st : DiffState) (um : UniqueKeys m)
      (from_pairs : (k : MatchKey) → get k m ≡ pair_match inp.certs inp.rules inp.now k)
      (all : StreamedAll inp rows (start m) st) where
    abbrev pub org : Text
    org = inp.organization_id

    pub own_listing : (c r : Text) → find_row org c r rows ≡ find_row org c r table
    own_listing c r =
        find_row-listing org org c r table setting.constraints setting.row_ids
        ∙ rw (text_eq_refl org) refl

    pub foreign_listing : (o c r : Text) → text_eq org o ≡ false → find_row o c r rows ≡ none
    foreign_listing o c r e =
        find_row-listing org o c r table setting.constraints setting.row_ids ∙ rw e refl

    pub remaining : (k : MatchKey) → get k (inp.range st.matches) ≡ get k st.matches
    remaining k = setting.range_all st.matches k all.unique

    remaining_new :
        (k : MatchKey) (e : MatchEntry)
        → get k (inp.range st.matches) ≡ some e
        → (find_row org k.cert_id k.rule_id table ≡ none)
          × (pair_match inp.certs inp.rules inp.now k ≡ some e)
    remaining_new k e left = elim (Option-cases (find_row org k.cert_id k.rule_id rows)) [
      | inl absent ↦ (
        sym (own_listing k.cert_id k.rule_id) ∙ absent,
        sym (from_pairs k) ∙ sym (all.matches k ∙ rw absent refl) ∙ sym (remaining k) ∙ left,
      )
      | inr (f, present) ↦
          let gone : get k st.matches ≡ none = all.matches k ∙ rw present refl in
          let clash : ◌≡◌ {A = Option MatchEntry} none (some e) =
            sym gone ∙ sym (remaining k) ∙ left in
          absurd (cc)
    ]

    pub insertable : All (Insertable inp st.table) (inp.range st.matches)
    insertable =
        UniqueKeys-All (λ k e. Insertable inp st.table (k, e)) (inp.range st.matches)
          (setting.range_once st.matches all.unique)
          λ k e left.
            let (absent, matched) = remaining_new k e left in
            record {
              rule = pair_match_id inp.certs inp.rules inp.now k e matched;
              absent =
                  all.found org k.cert_id k.rule_id
                  ∙ rw (own_listing k.cert_id k.rule_id ∙ absent) absent;
              fresh =
                  all.ids (inp.new_id k)
                    (All-listing (λ x. text_eq (inp.new_id k) x.id ≡ false) org table
                      (setting.fresh k))
                    (setting.fresh k);
            }
