-- ===== src/Findings/LoadAll/Puts.antt =====
-- One entry of the two loops writes the row that the specification has for its pair.
use anchorix.Prelude.{
  ◌≡◌, refl, sym, ap, ◌∙◌, Option, none, some, true, false, ◌&&◌, if◌then◌else◌, ok, Outcome, All,
  arith, Bool, Bool-cases, Option-cases, inl, inr,
}
use anchorix.Prelude.Text.{Text, text_eq, text_eq_iff, text_eq_refl}
use anchorix.Findings.{Finding}
use anchorix.Findings.Diff.{FindingsError, Transition, decide_match_transition}
use anchorix.Findings.Diff.Machine.{is_supported}
use anchorix.Findings.Pairs.{MatchKey, PairMap, key_eq, get}
use anchorix.Findings.Pairs.Laws.{key_eq_iff}
use anchorix.Findings.Table.{Table, same_pair, find_row}
use anchorix.Findings.Table.Laws.{IsTable, Holds, find_row_pair}
use anchorix.Findings.Table.Writes.{Wrote}
use anchorix.Findings.Recompute.{
  Inputs, MatchEntry, Matches, DiffState, settle, apply_match, stream_insert,
}
use anchorix.Findings.Recompute.Steps.{
  Decided, decide_match_transition-Decided, decide_no_match_transition-Decided, next_row, succeeds,
  match_supported, no_match_supported, settle-Settled,
}
use anchorix.Findings.Recompute.Spec.{matched_row, recomputed_row}
use anchorix.Findings.Recompute.Streaming.{find_row-All}
use anchorix.Findings.Recompute.Inserts.{inserted_row, Insertable, stream_insert-Inserted}
use anchorix.Findings.Recompute.Phases.{found_pair}
use anchorix.Findings.LoadAll.{apply_prior, apply_unmatched}
use anchorix.Findings.LoadAll.Passes.{key, Put}

next_row_id :
    (f : Finding) (d : Outcome FindingsError Transition) → Decided f d → (next_row f d).id ≡ f.id
next_row_id f d (Decided.refused e) = refl
next_row_id f d Decided.left = refl
next_row_id f d (Decided.moved n b same) = same.id

module _ (inp : Inputs) where
  pair_of_key :
      (k : MatchKey) (f : Finding) (o c r : Text)
      → same_pair inp.organization_id k.cert_id k.rule_id f ≡ true
      → same_pair o c r f ≡ (text_eq inp.organization_id o && key_eq (key c r) k)
  unfolding same_pair key_eq
  pair_of_key k f o c r e = ground (
    arith,
    text_eq_iff inp.organization_id f.organization_id,
    text_eq_iff k.cert_id f.certificate_id,
    text_eq_iff k.rule_id f.rule_id,
    text_eq_iff inp.organization_id o,
    text_eq_iff o inp.organization_id,
  )

  if-and :
      {A : Type 0} (b c : Bool) (x y : A)
      → (if b && c then x else y) ≡ (if b then if c then x else y else y)
  if-and true c x y = refl
  if-and false c x y = refl

  -- a write at the pair of the key
  Wrote-Put :
      (k : MatchKey) (f n : Finding) (before after : Table)
      → same_pair inp.organization_id k.cert_id k.rule_id f ≡ true
      → ((id : Text)
          → text_eq id (inp.new_id k) ≡ false
          → All (λ x. text_eq id x.id ≡ false) before
          → text_eq id n.id ≡ false)
      → Wrote f n before after
      → Put inp k (some n) before after
  Wrote-Put k f n before after e apart w = record {
    table = w.table;
    found = λ o c r.
        w.found o c r
        ∙ ap (λ b. if b then some n else find_row o c r before) (pair_of_key k f o c r e)
        ∙ if-and (text_eq inp.organization_id o) (key_eq (key c r) k) (some n)
            (find_row o c r before);
    ids = λ id new h. w.ids id (apart id new h) h;
  }

  settle-Put :
      (k : MatchKey) (f : Finding) (d : Outcome FindingsError Transition) (st : DiffState)
      → Decided f d
      → succeeds d ≡ true
      → IsTable st.table
      → find_row inp.organization_id k.cert_id k.rule_id st.table ≡ some f
      → (st' : DiffState) × (settle d st ≡ ok st')
        × Put inp k (some (next_row f d)) st.table st'.table
  settle-Put k f d st decided h t there =
      let org = inp.organization_id in
      let same = found_pair org k.cert_id k.rule_id st.table f there in
      let holds : Holds st.table f =
        sym (find_row_pair org k.cert_id k.rule_id f st.table same) ∙ there in
      let (st', went, s) = settle-Settled f d st decided h t holds in
      (
        st',
        went,
        Wrote-Put k f (next_row f d) st.table st'.table same
            (λ id new hs.
              ap (text_eq id) (next_row_id f d decided)
              ∙ find_row-All (λ x. text_eq id x.id ≡ false) org k.cert_id k.rule_id st.table there
                  hs)
            s.wrote,
      )

  -- what the loop over the matches asks of an entry
  pub record Matchable (existing : PairMap Finding) (e : MatchKey × MatchEntry) (table : Table)
      : Type 0 where
    pub rule : e.0.rule_id ≡ e.1.rule.id
    pub prior : find_row inp.organization_id e.0.cert_id e.0.rule_id table ≡ get e.0 existing
    pub fresh : All (λ x. text_eq (inp.new_id e.0) x.id ≡ false) table
    pub supported : (f : Finding) → get e.0 existing ≡ some f → is_supported f.status ≡ true

  abbrev pub match_target : PairMap Finding → MatchKey → MatchEntry → Option Finding
  match_target existing k m = matched_row inp k m (get k existing)

  inserted_pair :
      (k : MatchKey) (m : MatchEntry)
      → k.rule_id ≡ m.rule.id
      → same_pair inp.organization_id k.cert_id k.rule_id (inserted_row inp k m) ≡ true
  unfolding same_pair
  inserted_pair k m rule = ground (
    arith,
    text_eq_refl inp.organization_id,
    text_eq_refl k.cert_id,
    ap (text_eq k.rule_id) rule,
    text_eq_refl k.rule_id,
  )

  insert-Put :
      (k : MatchKey) (m : MatchEntry) (st : DiffState)
      → IsTable st.table
      → Insertable inp st.table (k, m)
      → (st' : DiffState) × (apply_match inp none k m st ≡ ok st')
        × Put inp k (matched_row inp k m none) st.table st'.table
  unfolding matched_row decide_match_transition stream_insert
  insert-Put k m st t h =
      let (st', went, one) = stream_insert-Inserted inp k m st t h in
      (
        st',
        went,
        Wrote-Put k (inserted_row inp k m) (inserted_row inp k m) st.table st'.table
            (inserted_pair k m h.rule) (λ id new hs. new) one.wrote,
      )

  pub apply_prior-Put :
      (existing : PairMap Finding) (k : MatchKey) (m : MatchEntry) (st : DiffState)
      → IsTable st.table
      → Matchable existing (k, m) st.table
      → (st' : DiffState) × (apply_prior inp existing (k, m) st ≡ ok st')
        × Put inp k (match_target existing k m) st.table st'.table
  unfolding apply_prior apply_match matched_row
  apply_prior-Put existing k m st t h = elim (Option-cases (get k existing)) [
    | inl absent ↦
        rw absent (
          insert-Put k m st t
            (record { rule = h.rule; absent = h.prior ∙ absent; fresh = h.fresh }))
    | inr (f, there) ↦ rw there (
        settle-Put k f _ st
          (decide_match_transition-Decided (inp.new_id k) f inp.organization_id k.cert_id m.rule
            m.evidence inp.now)
          (match_supported (inp.new_id k) f inp.organization_id k.cert_id m.rule m.evidence inp.now
            (h.supported f there))
          t (h.prior ∙ there))
  ]

  pub still-Matchable :
      (existing : PairMap Finding)
      → ((j k : MatchKey) → key_eq j k ≡ false → text_eq (inp.new_id j) (inp.new_id k) ≡ false)
      → (k j : MatchKey) (m e : MatchEntry) (before after : Table) → key_eq j k ≡ false
      → Put inp k (match_target existing k m) before after
      → Matchable existing (j, e) before
      → Matchable existing (j, e) after
  still-Matchable existing new_ids k j m e before after apart one h = record {
    rule = h.rule;
    prior =
        one.found inp.organization_id j.cert_id j.rule_id
        ∙ rw (text_eq_refl inp.organization_id) (rw apart h.prior);
    fresh = one.ids (inp.new_id j) (new_ids j k apart) h.fresh;
    supported = h.supported;
  }

  -- the row of a finding between the loops
  abbrev pub before_second : Matches → MatchKey → Finding → Option Finding
  before_second m k f = elim (get k m) [ none ↦ some f | some e ↦ matched_row inp k e (some f) ]

  abbrev pub row_target : Matches → MatchKey → Finding → Option Finding
  row_target m k f = recomputed_row inp k (get k m) (some f)

  -- what the loop over the findings asks of an entry
  pub record Walkable (m : Matches) (e : MatchKey × Finding) (table : Table) : Type 0 where
    pub there : find_row inp.organization_id e.0.cert_id e.0.rule_id table ≡ before_second m e.0 e.1
    pub supported : is_supported e.1.status ≡ true

  nothing-Put :
      (k : MatchKey) (row : Option Finding) (table : Table)
      → IsTable table
      → find_row inp.organization_id k.cert_id k.rule_id table ≡ row
      → Put inp k row table table
  nothing-Put k row table t there = record {
    table = t;
    found = λ o c r. elim (Bool-cases (text_eq inp.organization_id o)) [
      | inr foreign ↦ rw foreign refl
      | inl own ↦ rw own (elim (Bool-cases (key_eq (key c r) k)) [
        | inr other ↦ rw other refl
        | inl same ↦ rw same (
            ap (λ x. find_row x c r table) (sym ((text_eq_iff inp.organization_id o).0 own))
            ∙ ap (λ (j : MatchKey). find_row inp.organization_id j.cert_id j.rule_id table)
                ((key_eq_iff (key c r) k).0 same)
            ∙ there)
      ])
    ];
    ids = λ id new h. h;
  }

  pub apply_unmatched-Put :
      (m : Matches) (k : MatchKey) (f : Finding) (st : DiffState)
      → IsTable st.table
      → Walkable m (k, f) st.table
      → (st' : DiffState) × (apply_unmatched inp m (k, f) st ≡ ok st')
        × Put inp k (row_target m k f) st.table st'.table
  unfolding apply_unmatched recomputed_row
  apply_unmatched-Put m k f st t h = elim (Option-cases (get k m)) [
    | inl unmatched ↦
        rw (unmatched, apply_unmatched)
          (settle-Put k f _ st (decide_no_match_transition-Decided f inp.now)
            (no_match_supported f inp.now h.supported) t
            (h.there ∙ rw (unmatched, before_second) refl))
    | inr (e, matched) ↦
        rw (matched, apply_unmatched)
          (st, refl, nothing-Put k _ st.table t (h.there ∙ rw (matched, before_second) refl))
  ]

  pub still-Walkable :
      (m : Matches) (k j : MatchKey) (f g : Finding) (before after : Table)
      → key_eq j k ≡ false
      → Put inp k (row_target m k f) before after
      → Walkable m (j, g) before
      → Walkable m (j, g) after
  still-Walkable m k j f g before after apart one h = record {
    there =
        one.found inp.organization_id j.cert_id j.rule_id
        ∙ rw (text_eq_refl inp.organization_id) (rw apart h.there);
    supported = h.supported;
  }
