-- ===== src/Findings/Recompute/Inserts.antt =====
-- findings/service.go, runDiffStreaming: phase 3 inserts the findings of the pairs that had none.
use anchorix.Prelude.{
  ◌≡◌, refl, sym, ap, ◌∙◌, Option, none, some, true, false, [], ◌∷◌, ◌++◌, if◌then◌else◌, ok, All,
  arith, Bool-cases, Option-cases, inl, inr,
}
use anchorix.Prelude.Text.{Text, text_eq, text_eq_iff, text_eq_refl}
use anchorix.Prelude.Paging.{each}
use anchorix.Findings.{Finding}
use anchorix.Findings.Diff.{new_finding, decide_match_transition, CounterBucket}
use anchorix.Findings.Pairs.{MatchKey, key_eq, get}
use anchorix.Findings.Pairs.Laws.{UniqueKeys, key_eq_iff, key_eq_comm}
use anchorix.Findings.Table.{Table, same_pair, apply_decision, find_row}
use anchorix.Findings.Table.Laws.{IsTable}
use anchorix.Findings.Table.Writes.{Wrote, insert-Wrote, insert_finding-ok}
use anchorix.Findings.Recompute.{
  Inputs, MatchEntry, Matches, DiffState, settle, apply_match, stream_insert, count_bucket,
}
use anchorix.Findings.Recompute.Spec.{matched_row}

module _ (inp : Inputs) where
  abbrev pub inserted_row : MatchKey → MatchEntry → Finding
  inserted_row k m =
      new_finding (inp.new_id k) inp.organization_id k.cert_id m.rule m.evidence inp.now

  -- what phase 3 asks of an entry
  pub record Insertable (table : Table) (e : MatchKey × MatchEntry) : Type 0 where
    pub rule : e.0.rule_id ≡ e.1.rule.id
    pub absent : find_row inp.organization_id e.0.cert_id e.0.rule_id table ≡ none
    pub fresh : All (λ x. text_eq (inp.new_id e.0) x.id ≡ false) table

  pub record Inserted (st st' : DiffState) (k : MatchKey) (m : MatchEntry) : Type 0 where
    pub wrote : Wrote (inserted_row k m) (inserted_row k m) st.table st'.table

  pub stream_insert-Inserted :
      (k : MatchKey) (m : MatchEntry) (st : DiffState)
      → IsTable st.table
      → Insertable st.table (k, m)
      → (st' : DiffState) × (stream_insert inp (k, m) st ≡ ok st') × Inserted st st' k m
  unfolding stream_insert apply_match settle decide_match_transition apply_decision
  stream_insert-Inserted k m st t h =
      let new : find_row inp.organization_id k.cert_id m.rule.id st.table ≡ none =
        (ap (λ r. find_row inp.organization_id k.cert_id r st.table) (sym h.rule) ∙ h.absent) in
      (
        record st {
          table = st.table ++ inserted_row k m ∷ [];
          counters = count_bucket CounterBucket.opened st.counters;
        },
        rw (insert_finding-ok (inserted_row k m) st.table new h.fresh) refl,
        record { wrote = insert-Wrote (inserted_row k m) st.table t new h.fresh },
      )

  module _
      (new_ids : (j k : MatchKey)
        → key_eq j k ≡ false
        → text_eq (inp.new_id j) (inp.new_id k) ≡ false) where
    still-Insertable :
        (k : MatchKey) (m : MatchEntry) (es : Matches) (st st1 : DiffState)
        → k.rule_id ≡ m.rule.id
        → Inserted st st1 k m
        → All (λ (e : MatchKey × MatchEntry). key_eq e.0 k ≡ false) es
        → All (Insertable st.table) es
        → All (Insertable st1.table) es
    unfolding key_eq same_pair
    still-Insertable k m [] st st1 rule one apart h = tt
    still-Insertable k m ((j, e) ∷ es) st st1 rule one apart h = (
      record {
        rule = h.0.rule;
        absent =
            one.wrote.found inp.organization_id j.cert_id j.rule_id
            ∙ ground (
              arith,
              h.0.absent,
              text_eq_refl inp.organization_id,
              ap (text_eq j.rule_id) rule,
              apart.0,
            );
        fresh = one.wrote.ids (inp.new_id j) (new_ids j k apart.0) h.0.fresh;
      },
      still-Insertable k m es st st1 rule one apart.1 h.1,
    )

    -- the row of a pair after phase 3
    abbrev pub after_insert : Matches → Table → Text → Text → Text → Option Finding
    after_insert es table o c r =
        if text_eq inp.organization_id o
        then elim (get (record { cert_id = c; rule_id = r }) es) [
          | none ↦ find_row o c r table
          | some m ↦ matched_row inp (record { cert_id = c; rule_id = r }) m none
        ]
        else find_row o c r table

    others_apart :
        (k : MatchKey) (es : Matches)
        → get k es ≡ none
        → All (λ (e : MatchKey × MatchEntry). key_eq e.0 k ≡ false) es
    unfolding get
    others_apart k [] absent = tt
    others_apart k ((j, e) ∷ es) absent = elim (Bool-cases (key_eq k j)) [
      | inl same ↦ absurd (ground arith)
      | inr other ↦ (key_eq_comm j k ∙ other, others_apart k es (rw other at absent))
    ]

    own_pair :
        (k : MatchKey) (m : MatchEntry) (o c r : Text)
        → k.rule_id ≡ m.rule.id
        → text_eq inp.organization_id o ≡ true
        → same_pair o c r (inserted_row k m) ≡ key_eq (record { cert_id = c; rule_id = r }) k
    unfolding same_pair key_eq
    own_pair k m o c r rule own = ground (
      arith,
      text_eq_iff inp.organization_id o,
      text_eq_iff o inp.organization_id,
      ap (text_eq r) rule,
    )

    foreign_pair :
        (k : MatchKey) (m : MatchEntry) (o c r : Text)
        → text_eq inp.organization_id o ≡ false
        → same_pair o c r (inserted_row k m) ≡ false
    unfolding same_pair
    foreign_pair k m o c r foreign =
        ground (arith, text_eq_iff inp.organization_id o, text_eq_iff o inp.organization_id)

    row_step :
        (k : MatchKey) (m : MatchEntry) (es : Matches) (st st1 : DiffState) (o c r : Text)
        → k.rule_id ≡ m.rule.id
        → get k es ≡ none
        → Inserted st st1 k m
        → after_insert es st1.table o c r ≡ after_insert ((k, m) ∷ es) st.table o c r
    unfolding get matched_row decide_match_transition
    row_step k m es st st1 o c r rule absent one =
        elim (Bool-cases (text_eq inp.organization_id o)) [
          | inr foreign ↦
              rw foreign (one.wrote.found o c r ∙ rw (foreign_pair k m o c r foreign) refl)
          | inl own ↦ rw own (elim (Bool-cases (key_eq (record { cert_id = c; rule_id = r }) k)) [
            | inl same ↦
                let e : ◌≡◌ {A = MatchKey} (record { cert_id = c; rule_id = r }) k =
                  (key_eq_iff _ k).0 same in
                rw same (
                  rw (ap (λ j. get j es) e ∙ absent) (
                    one.wrote.found o c r
                    ∙ rw (own_pair k m o c r rule own ∙ same)
                        (ap (λ j. matched_row inp j m none) (sym e))))
            | inr other ↦
                rw other (elim (Option-cases (get (record { cert_id = c; rule_id = r }) es)) [
                  | inl none_left ↦
                      rw none_left
                        (one.wrote.found o c r ∙ rw (own_pair k m o c r rule own ∙ other) refl)
                  | inr (x, left) ↦ rw left refl
                ])
          ])
        ]

    pub each_insert :
        (es : Matches) (st : DiffState)
        → UniqueKeys es
        → IsTable st.table
        → All (Insertable st.table) es
        → (st' : DiffState) × (each (stream_insert inp) es st ≡ ok st')
          × IsTable st'.table
          × ((o c r : Text) → find_row o c r st'.table ≡ after_insert es st.table o c r)
    unfolding each get
    each_insert [] st u t h = (st, refl, t, λ o c r. ground arith)
    each_insert ((k, m) ∷ es) st u t h =
        let (st1, went, one) = stream_insert-Inserted k m st t h.0 in
        let (st', rest, t', found) =
          each_insert es st1 u.1 one.wrote.table
            (still-Insertable k m es st st1 h.0.rule one (others_apart k es u.0) h.1) in
        (
          st',
          rw went rest,
          t',
          λ o c r. found o c r ∙ row_step k m es st st1 o c r h.0.rule u.0 one,
        )
