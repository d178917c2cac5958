-- ===== src/Findings/Recompute/Visits.antt =====
-- findings/service.go, runDiffStreaming: what phase 2 leaves once it has visited the findings.
use anchorix.Prelude.{
  ◌≡◌, refl, ap, ◌∙◌, none, some, true, false, List, [], ◌∷◌, ok, All, arith, Bool-cases,
  Option-cases, inl, inr,
}
use anchorix.Prelude.Text.{Text, text_eq, text_eq_iff}
use anchorix.Prelude.Paging.{each}
use anchorix.Findings.{Finding}
use anchorix.Findings.Diff.Machine.{is_supported}
use anchorix.Findings.Pairs.{MatchKey, key_eq, get}
use anchorix.Findings.Pairs.Laws.{UniqueKeys}
use anchorix.Findings.Table.{Table, same_pair, clashes, find_row}
use anchorix.Findings.Table.Laws.{IsTable, Holds, same_pair_refl, clashes_pair, find_row-none}
use anchorix.Findings.Recompute.{Inputs, DiffState, key_of, stream_finding}
use anchorix.Findings.Recompute.Streaming.{
  find_row-All, row_after, row_after_id, Streamed, stream_finding-Streamed,
}

module _ (inp : Inputs) where
  -- phase 2 over the findings `rs`
  pub record StreamedAll (rs : List Finding) (st st' : DiffState) : Type 0 where
    pub table : IsTable st'.table
    pub unique : UniqueKeys st'.matches
    pub found :
        (o c r : Text)
        → find_row o c r st'.table ≡ (elim (find_row o c r rs) [
          | none ↦ find_row o c r st.table
          | some f ↦ some (row_after inp (get (key_of f) st.matches) f)
        ])
    pub matches :
        (k : MatchKey)
        → get k st'.matches ≡ (elim (find_row inp.organization_id k.cert_id k.rule_id rs) [
          | none ↦ get k st.matches
          | some _ ↦ none
        ])
    pub ids :
        (id : Text)
        → All (λ f. text_eq id f.id ≡ false) rs
        → All (λ x. text_eq id x.id ≡ false) st.table
        → All (λ x. text_eq id x.id ≡ false) st'.table

  -- what phase 2 asks of a row that it is to visit
  pub record Visitable (table : Table) (f : Finding) : Type 0 where
    pub holds : Holds table f
    pub supported : is_supported f.status ≡ true
    pub organization : text_eq inp.organization_id f.organization_id ≡ true

  pub key_eq_pair :
      (k : MatchKey) (f : Finding)
      → text_eq inp.organization_id f.organization_id ≡ true
      → key_eq k (key_of f) ≡ same_pair inp.organization_id k.cert_id k.rule_id f
  unfolding key_eq key_of same_pair
  key_eq_pair k f h = rw h refl

  found_first :
      (f : Finding) (rs : List Finding) (st st1 st' : DiffState) (o c r : Text)
      → All (λ x. clashes f x ≡ false) rs
      → All (λ g. get (key_of g) st1.matches ≡ get (key_of g) st.matches) rs
      → Streamed inp f st st1
      → StreamedAll rs st1 st'
      → find_row o c r st'.table ≡ (elim (find_row o c r (f ∷ rs)) [
        | none ↦ find_row o c r st.table
        | some g ↦ some (row_after inp (get (key_of g) st.matches) g)
      ])
  unfolding find_row
  found_first f rs st st1 st' o c r d kept one all = elim (Bool-cases (same_pair o c r f)) [
    | inl here ↦ rw here (
        all.found o c r
        ∙ rw (find_row-none o c r f rs here d) (one.wrote.found o c r ∙ rw here refl))
    | inr later ↦ rw later (elim (Option-cases (find_row o c r rs)) [
      | inl absent ↦ rw absent (all.found o c r ∙ rw absent (one.wrote.found o c r ∙ rw later refl))
      | inr (g, present) ↦ rw present (
          all.found o c r
          ∙ rw present (
              ap (λ e. some (row_after inp e g))
                (find_row-All (λ x. get (key_of x) st1.matches ≡ get (key_of x) st.matches) o c r rs
                  present kept)))
    ])
  ]

  matches_first :
      (f : Finding) (rs : List Finding) (st st1 st' : DiffState) (k : MatchKey)
      → text_eq inp.organization_id f.organization_id ≡ true
      → All (λ x. clashes f x ≡ false) rs
      → Streamed inp f st st1
      → StreamedAll rs st1 st'
      → get k st'.matches ≡ (elim (find_row inp.organization_id k.cert_id k.rule_id (f ∷ rs)) [
        | none ↦ get k st.matches
        | some _ ↦ none
      ])
  unfolding find_row
  matches_first f rs st st1 st' k org d one all =
      elim (Bool-cases (same_pair inp.organization_id k.cert_id k.rule_id f)) [
        | inl here ↦ rw here (
            all.matches k
            ∙ rw (find_row-none inp.organization_id k.cert_id k.rule_id f rs here d)
                (one.matches k ∙ rw (key_eq_pair k f org ∙ here) refl))
        | inr later ↦
            rw later (elim (Option-cases (find_row inp.organization_id k.cert_id k.rule_id rs)) [
              | inl absent ↦ rw absent (
                  all.matches k ∙ rw absent (one.matches k ∙ rw (key_eq_pair k f org ∙ later) refl))
              | inr (g, present) ↦ rw present (all.matches k ∙ rw present refl)
            ])
      ]

  -- a row that is still to come, after `f`
  other_pair :
      (f g : Finding) (table : Table)
      → clashes f g ≡ false
      → Visitable table g
      → same_pair g.organization_id g.certificate_id g.rule_id f ≡ false
  other_pair f g table d v =
      ground
        (arith, same_pair_refl g, clashes_pair g.organization_id g.certificate_id g.rule_id f g)

  still-Visitable :
      (f : Finding) (rs : List Finding) (st st1 : DiffState)
      → All (λ x. clashes f x ≡ false) rs
      → All (Visitable st.table) rs
      → Streamed inp f st st1
      → All (Visitable st1.table) rs
  still-Visitable f [] st st1 d vs one = tt
  still-Visitable f (g ∷ rs) st st1 d vs one = (
    record {
      holds =
          one.wrote.found g.organization_id g.certificate_id g.rule_id
          ∙ rw (other_pair f g st.table d.0 vs.0) vs.0.holds;
      supported = vs.0.supported;
      organization = vs.0.organization;
    },
    still-Visitable f rs st st1 d.1 vs.1 one,
  )

  key_apart :
      (f g : Finding) (table : Table)
      → text_eq inp.organization_id f.organization_id ≡ true
      → clashes f g ≡ false
      → Visitable table g
      → key_eq (key_of g) (key_of f) ≡ false
  unfolding key_of same_pair key_eq
  key_apart f g table org d v = ground (
    arith,
    other_pair f g table d v,
    text_eq_iff inp.organization_id f.organization_id,
    text_eq_iff inp.organization_id g.organization_id,
    text_eq_iff g.organization_id f.organization_id,
    v.organization,
  )

  kept_matches :
      (f : Finding) (rs : List Finding) (st st1 : DiffState)
      → text_eq inp.organization_id f.organization_id ≡ true
      → All (λ x. clashes f x ≡ false) rs
      → All (Visitable st.table) rs
      → Streamed inp f st st1
      → All (λ g. get (key_of g) st1.matches ≡ get (key_of g) st.matches) rs
  kept_matches f [] st st1 org d vs one = tt
  kept_matches f (g ∷ rs) st st1 org d vs one = (
    one.matches (key_of g) ∙ rw (key_apart f g st.table org d.0 vs.0) refl,
    kept_matches f rs st st1 org d.1 vs.1 one,
  )

  pub each_stream :
      (rs : List Finding) (st : DiffState)
      → IsTable rs
      → All (Visitable st.table) rs
      → IsTable st.table
      → UniqueKeys st.matches
      → (st' : DiffState) × (each (stream_finding inp) rs st ≡ ok st') × StreamedAll rs st st'
  unfolding each find_row
  each_stream [] st d vs t u = (
    st,
    refl,
    record {
      table = t;
      unique = u;
      found = λ o c r. refl;
      matches = λ k. refl;
      ids = λ id h h'. h';
    },
  )
  each_stream (f ∷ rs) st d vs t u =
      let (st1, went, one) = stream_finding-Streamed inp f st vs.0.supported t vs.0.holds in
      let (st', rest, all) =
        each_stream rs st1 d.1 (still-Visitable f rs st st1 d.0 vs.1 one) one.wrote.table
          (one.unique u) in
      (
        st',
        rw went rest,
        record {
          table = all.table;
          unique = all.unique;
          found = λ o c r.
              found_first f rs st st1 st' o c r d.0
                (kept_matches f rs st st1 vs.0.organization d.0 vs.1 one) one all;
          matches = λ k. matches_first f rs st st1 st' k vs.0.organization d.0 one all;
          ids = λ id h h'. all.ids id h.1 (
              one.wrote.ids id
                (ap (text_eq id) (row_after_id inp (get (key_of f) st.matches) f) ∙ h.0) h');
        },
      )
