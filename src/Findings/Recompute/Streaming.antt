-- ===== src/Findings/Recompute/Streaming.antt =====
-- findings/service.go, runDiffStreaming: what phase 2 leaves, one finding after the other.
use anchorix.Prelude.{
  ◌≡◌, refl, sym, ap, ◌∙◌, Option, none, some, true, [], ◌∷◌, if◌then◌else◌, Outcome, ok, All,
  Bool-cases, Option-cases, inl, inr, subst,
}
use anchorix.Prelude.Text.{Text}
use anchorix.Findings.{Finding}
use anchorix.Findings.Diff.{
  FindingsError, Transition, decide_match_transition, decide_no_match_transition,
}
use anchorix.Findings.Diff.Machine.{is_supported}
use anchorix.Findings.Pairs.{MatchKey, key_eq, get, delete}
use anchorix.Findings.Pairs.Laws.{UniqueKeys, key_eq_iff, get-delete, delete-UniqueKeys}
use anchorix.Findings.Table.{Table, same_pair, find_row}
use anchorix.Findings.Table.Laws.{IsTable, Holds}
use anchorix.Findings.Table.Writes.{Wrote}
use anchorix.Findings.Recompute.{Inputs, MatchEntry, DiffState, key_of, apply_match, stream_finding}
use anchorix.Findings.Recompute.Steps.{
  Decided, decide_match_transition-Decided, decide_no_match_transition-Decided, next_row, succeeds,
  match_supported, no_match_supported, settle-Settled,
}

-- a row that is found is a row of the table
pub find_row-All :
    (P : Finding → Type 0) (o c r : Text) (rows : Table) {f : Finding}
    → find_row o c r rows ≡ some f
    → All P rows
    → P f
unfolding find_row
find_row-All P o c r [] e h = cc
find_row-All P o c r (x ∷ rows) {f} e h = elim (Bool-cases (same_pair o c r x)) [
  | inl here ↦ let same : x ≡ f = (let there = (rw here at e) in cc) in subst P same h.0
  | inr later ↦ find_row-All P o c r rows (rw later at e) h.1
]

module _ (inp : Inputs) where
  -- what the code decides about a row
  abbrev pub decision : Option MatchEntry → Finding → Outcome FindingsError Transition
  decision none f = decide_no_match_transition (some f) inp.now
  decision (some m) f =
      decide_match_transition (inp.new_id (key_of f)) (some f) inp.organization_id f.certificate_id
        m.rule m.evidence inp.now

  pub decision-Decided : (e : Option MatchEntry) (f : Finding) → Decided f (decision e f)
  decision-Decided none f = decide_no_match_transition-Decided f inp.now
  decision-Decided (some m) f =
      decide_match_transition-Decided (inp.new_id (key_of f)) f inp.organization_id f.certificate_id
        m.rule m.evidence inp.now

  pub decision_supported :
      (e : Option MatchEntry) (f : Finding)
      → is_supported f.status ≡ true
      → succeeds (decision e f) ≡ true
  decision_supported none f h = no_match_supported f inp.now h
  decision_supported (some m) f h =
      match_supported (inp.new_id (key_of f)) f inp.organization_id f.certificate_id m.rule
        m.evidence inp.now h

  abbrev pub row_after : Option MatchEntry → Finding → Finding
  row_after e f = next_row f (decision e f)

  pub row_after_id : (e : Option MatchEntry) (f : Finding) → (row_after e f).id ≡ f.id
  row_after_id e f = id_of (decision e f) (decision-Decided e f)
    where
      id_of : (d : Outcome FindingsError Transition) → Decided f d → (next_row f d).id ≡ f.id
      id_of d (Decided.refused e) = refl
      id_of d Decided.left = refl
      id_of d (Decided.moved n b same) = same.id

  -- one finding: its row is written, and its match is used up
  pub record Streamed (f : Finding) (st st' : DiffState) : Type 0 where
    pub wrote : Wrote f (row_after (get (key_of f) st.matches) f) st.table st'.table
    pub matches :
        (k : MatchKey)
        → get k st'.matches ≡ (if key_eq k (key_of f) then none else get k st.matches)
    pub unique : UniqueKeys st.matches → UniqueKeys st'.matches

  used_up :
      (k j : MatchKey) (st : DiffState)
      → get j st.matches ≡ none
      → get k st.matches ≡ (if key_eq k j then none else get k st.matches)
  used_up k j st e = elim (Bool-cases (key_eq k j)) [
    | inl same ↦ rw same (ap (λ i. get i st.matches) ((key_eq_iff k j).0 same) ∙ e)
    | inr other ↦ rw other refl
  ]

  pub stream_finding-Streamed :
      (f : Finding) (st : DiffState)
      → is_supported f.status ≡ true
      → IsTable st.table
      → Holds st.table f
      → (st' : DiffState) × (stream_finding inp f st ≡ ok st') × Streamed f st st'
  unfolding stream_finding apply_match
  stream_finding-Streamed f st sup t holds = elim (Option-cases (get (key_of f) st.matches)) [
    | inl unmatched ↦
        let (st', went, s) =
          settle-Settled f (decision none f) st (decision-Decided none f)
            (decision_supported none f sup) t holds in
        (
          st',
          rw (unmatched, stream_finding) went,
          record {
            wrote = subst (λ e. Wrote f (row_after e f) st.table st'.table) (sym unmatched) s.wrote;
            matches = λ k. ap (get k) s.matches ∙ used_up k (key_of f) st unmatched;
            unique = λ u. subst UniqueKeys (sym s.matches) u;
          },
        )
    | inr (m, matched) ↦
        let (st', went, s) =
          settle-Settled f (decision (some m) f) st (decision-Decided (some m) f)
            (decision_supported (some m) f sup) t holds in
        (
          record st' { matches = delete (key_of f) st'.matches },
          rw (matched, stream_finding) (rw went refl),
          record {
            wrote = subst (λ e. Wrote f (row_after e f) st.table st'.table) (sym matched) s.wrote;
            matches = λ k.
                get-delete k (key_of f) st'.matches
                ∙ ap (λ m'. if key_eq k (key_of f) then none else get k m') s.matches;
            unique =
                λ u. delete-UniqueKeys (key_of f) st'.matches (subst UniqueKeys (sym s.matches) u);
          },
        )
  ]
