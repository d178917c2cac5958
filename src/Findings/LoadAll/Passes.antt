-- ===== src/Findings/LoadAll/Passes.antt =====
-- A loop over a map that writes, for each entry, the row of the entry's pair.
use anchorix.Prelude.{
  ◌≡◌, refl, sym, ap, ◌∙◌, Option, none, some, false, [], ◌∷◌, if◌then◌else◌, ok, Outcome, All,
  arith, Bool-cases, Option-cases, inl, inr,
}
use anchorix.Prelude.Text.{Text, text_eq}
use anchorix.Prelude.Paging.{each}
use anchorix.Findings.{Finding}
use anchorix.Findings.Pairs.{MatchKey, PairMap, key_eq, get}
use anchorix.Findings.Pairs.Laws.{UniqueKeys, key_eq_iff, key_eq_comm}
use anchorix.Findings.Table.{RecomputeError, Table, find_row}
use anchorix.Findings.Table.Laws.{IsTable}
use anchorix.Findings.Recompute.{Inputs, DiffState}

abbrev pub key : Text → Text → MatchKey
key c r = record { cert_id = c; rule_id = r }

-- the row of the pair is `row` now, and no other pair's row changed
pub record Put (inp : Inputs) (k : MatchKey) (row : Option Finding) (before after : Table)
    : Type 0 where
  pub table : IsTable after
  pub found :
      (o c r : Text)
      → find_row o c r after ≡ (
          if text_eq inp.organization_id o
          then if key_eq (key c r) k then row else find_row o c r before
          else find_row o c r before)
  pub ids :
      (id : Text)
      → text_eq id (inp.new_id k) ≡ false
      → All (λ x. text_eq id x.id ≡ false) before
      → All (λ x. text_eq id x.id ≡ false) after

module _ (inp : Inputs) {V : Type 0}
    (step : MatchKey × V → DiffState → Outcome RecomputeError DiffState)
    (row : MatchKey → V → Option Finding) (Ready : MatchKey × V → Table → Type 0)
    (run : (k : MatchKey) (v : V) (st : DiffState)
      → IsTable st.table
      → Ready (k, v) st.table
      → (st' : DiffState) × (step (k, v) st ≡ ok st') × Put inp k (row k v) st.table st'.table)
    (still : (k j : MatchKey) (v w : V) (before after : Table)
      → key_eq j k ≡ false
      → Put inp k (row k v) before after
      → Ready (j, w) before
      → Ready (j, w) after) where
  -- the row of a pair after the loop
  abbrev pub after_pass : PairMap V → Table → Text → Text → Text → Option Finding
  after_pass es table o c r =
      if text_eq inp.organization_id o
      then elim (get (key c r) es) [ none ↦ find_row o c r table | some v ↦ row (key c r) v ]
      else find_row o c r table

  all_still :
      (k : MatchKey) (v : V) (es : PairMap V) (before after : Table)
      → get k es ≡ none
      → Put inp k (row k v) before after
      → All (λ e. Ready e before) es
      → All (λ e. Ready e after) es
  unfolding get
  all_still k v [] before after absent one h = tt
  all_still k v ((j, w) ∷ es) before after absent one h = elim (Bool-cases (key_eq k j)) [
    | inl same ↦ absurd (ground arith)
    | inr other ↦ (
      still k j v w before after (key_eq_comm j k ∙ other) one h.0,
      all_still k v es before after (rw other at absent) one h.1,
    )
  ]

  pass_step :
      (k : MatchKey) (v : V) (es : PairMap V) (before after : Table) (o c r : Text)
      → get k es ≡ none
      → Put inp k (row k v) before after
      → after_pass es after o c r ≡ after_pass ((k, v) ∷ es) before o c r
  unfolding get
  pass_step k v es before after o c r absent one =
      elim (Bool-cases (text_eq inp.organization_id o)) [
        | inr foreign ↦ rw foreign (one.found o c r ∙ rw foreign refl)
        | inl own ↦ rw own (elim (Bool-cases (key_eq (key c r) k)) [
          | inl same ↦
              let e : key c r ≡ k = (key_eq_iff (key c r) k).0 same in
              rw same (
                rw (ap (λ j. get j es) e ∙ absent)
                  (one.found o c r ∙ rw own (rw same (ap (λ j. row j v) (sym e)))))
          | inr other ↦ rw other (elim (Option-cases (get (key c r) es)) [
            | inl absent_too ↦ rw absent_too (one.found o c r ∙ rw own (rw other refl))
            | inr (w, there) ↦ rw there refl
          ])
        ])
      ]

  pub each_pass :
      (es : PairMap V) (st : DiffState)
      → UniqueKeys es
      → IsTable st.table
      → All (λ e. Ready e st.table) es
      → (st' : DiffState) × (each step es st ≡ ok st')
        × IsTable st'.table
        × ((o c r : Text) → find_row o c r st'.table ≡ after_pass es st.table o c r)
  unfolding each get
  each_pass [] st u t h = (st, refl, t, λ o c r. ground arith)
  each_pass ((k, v) ∷ es) st u t h =
      let (st1, went, one) = run k v st t h.0 in
      let (st', rest, t', found) =
        each_pass es st1 u.1 one.table (all_still k v es st.table st1.table u.0 one h.1) in
      (
        st',
        rw went rest,
        t',
        λ o c r. found o c r ∙ pass_step k v es st.table st1.table o c r u.0 one,
      )
