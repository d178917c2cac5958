-- ===== src/Findings/Table/Writes.antt =====
-- The table after an update of one of its rows, and after an insertion.
use anchorix.Prelude.{
  ◌≡◌, refl, sym, ap, ◌∙◌, none, some, true, false, ◌||◌, [], ◌∷◌, ◌++◌, any, filter, if◌then◌else◌,
  ok, All, All-append, arith, Bool-cases, inl, inr, subst,
}
use anchorix.Prelude.Text.{Text, text_eq, text_eq_iff, text_lt}
use anchorix.Findings.{Finding}
use anchorix.Findings.Diff.Machine.{SameFinding}
use anchorix.Findings.Table.{
  Table, same_pair, clashes, insert_finding, is_row_of, set_columns, write_rows, update_finding,
  rows_of, find_row,
}
use anchorix.Findings.Table.Laws.{
  IsTable, find_pair, Holds, same_pair_pair, clashes_pair, clashes_comm, Holds-All, find_row_pair,
  set_columns_lem, is_row_of_self, is_row_of_other, write_rows_other,
}

module _ (prior n : Finding) (same : SameFinding prior n) where
  same_pair_next : (o c r : Text) → same_pair o c r n ≡ same_pair o c r prior
  unfolding same_pair
  same_pair_next o c r = ground (
    arith,
    ap (text_eq o) same.organization,
    ap (text_eq c) same.certificate,
    ap (text_eq r) same.rule,
  )

  found_here :
      (o c r : Text) (rows : Table)
      → All (λ x. clashes prior x ≡ false) rows
      → find_row o c r (write_rows n (prior ∷ rows))
        ≡ (if same_pair o c r prior then some n else find_row o c r (prior ∷ rows))
  unfolding find_row write_rows
  found_here o c r rows d = rw (is_row_of_self prior n same) (
      rw (set_columns_lem prior n same)
        (rw (write_rows_other prior n rows same d) (ground (arith, same_pair_next o c r))))

  -- the row of the pair is the new one, and every other pair keeps its row
  pub find_row-write_rows :
      (o c r : Text) (table : Table)
      → IsTable table
      → Holds table prior
      → find_row o c r (write_rows n table)
        ≡ (if same_pair o c r prior then some n else find_row o c r table)
  unfolding find_row write_rows
  find_row-write_rows o c r [] d holds = cc
  find_row-write_rows o c r (x ∷ rows) d holds =
      elim (Bool-cases (same_pair prior.organization_id prior.certificate_id prior.rule_id x)) [
        | inl here ↦
            let e : prior ≡ x = (let there = (rw here at holds) in cc) in
            subst
              (λ (y : Finding).
                find_row o c r (write_rows n (y ∷ rows))
                ≡ (if same_pair o c r prior then some n else find_row o c r (y ∷ rows)))
              e
              (found_here o c r rows
                (subst (λ (y : Finding). All (λ z. clashes y z ≡ false) rows) (sym e) d.0))
        | inr later ↦
            found_later x rows d (rw later at holds)
              (find_row-write_rows o c r rows d.1 (rw later at holds))
      ]
    where
      found_later :
          (x : Finding) (rows : Table)
          → IsTable (x ∷ rows)
          → Holds rows prior
          → find_row o c r (write_rows n rows)
            ≡ (if same_pair o c r prior then some n else find_row o c r rows)
          → find_row o c r (write_rows n (x ∷ rows))
            ≡ (if same_pair o c r prior then some n else find_row o c r (x ∷ rows))
      found_later x rows d holds ih =
          let apart : clashes x prior ≡ false =
            Holds-All (λ y. clashes x y ≡ false) rows prior d.0 holds in
          rw (is_row_of_other prior n x same (clashes_comm prior x ∙ apart))
            (ground (arith, ih, clashes_pair o c r x prior))

  any_row : (table : Table) → Holds table prior → any (is_row_of n) table ≡ true
  unfolding find_row
  any_row [] holds = cc
  any_row (x ∷ rows) holds =
      elim (Bool-cases (same_pair prior.organization_id prior.certificate_id prior.rule_id x)) [
        | inl here ↦
            let e : x ≡ prior = (let there = (rw here at holds) in cc) in
            subst (λ y. (is_row_of n y || any (is_row_of n) rows) ≡ true) (sym e)
              (rw (is_row_of_self prior n same) refl)
        | inr later ↦ ground (arith, any_row rows (rw later at holds))
      ]

  pub update_finding-ok :
      (table : Table) → Holds table prior → update_finding (some n) table ≡ ok (write_rows n table)
  unfolding update_finding
  update_finding-ok table holds = rw (any_row table holds) refl

module _ (n : Finding) where
  -- an update leaves what the constraints read
  pub All-write_rows :
      (P : Finding → Type 0)
      → ((r : Finding) → P r → P (set_columns n r))
      → (table : Table) → All P table
      → All P (write_rows n table)
  unfolding write_rows
  All-write_rows P keep [] h = tt
  All-write_rows P keep (x ∷ rows) h = elim (Bool-cases (is_row_of n x)) [
    | inl hit ↦ rw hit (keep x h.0, All-write_rows P keep rows h.1)
    | inr miss ↦ rw miss (h.0, All-write_rows P keep rows h.1)
  ]

  pub IsTable-write_rows : (table : Table) → IsTable table → IsTable (write_rows n table)
  unfolding write_rows clashes
  IsTable-write_rows [] d = tt
  IsTable-write_rows (x ∷ rows) d = elim (Bool-cases (is_row_of n x)) [
    | inl hit ↦
        rw hit (
          All-write_rows (λ y. clashes x y ≡ false) (λ y h. h) rows d.0,
          IsTable-write_rows rows d.1,
        )
    | inr miss ↦
        rw miss (
          All-write_rows (λ y. clashes x y ≡ false) (λ y h. h) rows d.0,
          IsTable-write_rows rows d.1,
        )
  ]

  -- the rows behind a cursor that has passed the row are as they were
  pub filter-write_rows :
      (o cursor : Text) (table : Table)
      → text_lt cursor n.id ≡ false
      → filter (λ r. text_lt cursor r.id) (rows_of o (write_rows n table))
        ≡ filter (λ r. text_lt cursor r.id) (rows_of o table)
  unfolding write_rows rows_of is_row_of
  filter-write_rows o cursor [] le = refl
  filter-write_rows o cursor (x ∷ rows) le =
      ground (arith, filter-write_rows o cursor rows le, text_eq_iff n.id x.id)

module _ (f : Finding) where
  any_clash :
      (table : Table)
      → find_pair f table ≡ none
      → All (λ r. text_eq f.id r.id ≡ false) table
      → any (clashes f) table ≡ false
  unfolding find_row clashes
  any_clash [] new fresh = refl
  any_clash (x ∷ rows) new fresh = ground (arith, any_clash rows)

  pub insert_finding-ok :
      (table : Table)
      → find_pair f table ≡ none
      → All (λ r. text_eq f.id r.id ≡ false) table
      → insert_finding (some f) table ≡ ok (table ++ f ∷ [])
  unfolding insert_finding
  insert_finding-ok table new fresh = rw (any_clash table new fresh) refl

  -- a new pair has the row that was inserted, and every other pair keeps its row
  pub find_row-insert :
      (o c r : Text) (table : Table)
      → find_pair f table ≡ none
      → find_row o c r (table ++ f ∷ [])
        ≡ (if same_pair o c r f then some f else find_row o c r table)
  unfolding find_row
  find_row-insert o c r [] new = refl
  find_row-insert o c r (x ∷ rows) new =
      ground (arith, find_row-insert o c r rows, same_pair_pair o c r f x)

  All-snoc : (P : Finding → Type 0) (table : Table) → All P table → P f → All P (table ++ f ∷ [])
  All-snoc P table h p = All-append P table (f ∷ []) h (p, tt)

  pub IsTable-insert :
      (table : Table)
      → IsTable table
      → find_pair f table ≡ none
      → All (λ r. text_eq f.id r.id ≡ false) table
      → IsTable (table ++ f ∷ [])
  unfolding find_row
  IsTable-insert [] d new fresh = (tt, tt)
  IsTable-insert (x ∷ rows) d new fresh = (
    All-snoc (λ y. clashes x y ≡ false) rows d.0 (clashes_comm x f ∙ apart),
    IsTable-insert rows d.1 (ground arith) fresh.1,
  )
    where
      apart : clashes f x ≡ false
      apart = unfold clashes in ground arith

-- The pair of `f` has the row `n`, and all else is as it was.
pub record Wrote (f n : Finding) (before after : Table) : Type 0 where
  pub table : IsTable after
  pub found :
      (o c r : Text)
      → find_row o c r after ≡ (if same_pair o c r f then some n else find_row o c r before)
  pub ids :
      (id : Text)
      → text_eq id n.id ≡ false
      → All (λ x. text_eq id x.id ≡ false) before
      → All (λ x. text_eq id x.id ≡ false) after

pub update-Wrote :
    (prior n : Finding) (table : Table)
    → SameFinding prior n
    → IsTable table
    → Holds table prior
    → Wrote prior n table (write_rows n table)
update-Wrote prior n table same d holds = record {
  table = IsTable-write_rows n table d;
  found = λ o c r. find_row-write_rows prior n same o c r table d holds;
  ids = λ id apart h. All-write_rows n (λ x. text_eq id x.id ≡ false) (λ x k. k) table h;
}

pub nothing-Wrote :
    (prior : Finding) (table : Table)
    → IsTable table
    → Holds table prior
    → Wrote prior prior table table
nothing-Wrote prior table d holds = record {
  table = d;
  found = λ o c r. elim (Bool-cases (same_pair o c r prior)) [
    | inl same ↦ rw same (found_self o c r same)
    | inr other ↦ rw other refl
  ];
  ids = λ id apart h. h;
}
  where
    found_self : (o c r : Text) → same_pair o c r prior ≡ true → find_row o c r table ≡ some prior
    found_self o c r same = find_row_pair o c r prior table same ∙ holds

pub insert-Wrote :
    (f : Finding) (table : Table)
    → IsTable table
    → find_pair f table ≡ none
    → All (λ r. text_eq f.id r.id ≡ false) table
    → Wrote f f table (table ++ f ∷ [])
insert-Wrote f table d new fresh = record {
  table = IsTable-insert f table d new fresh;
  found = λ o c r. find_row-insert f o c r table new;
  ids = λ id apart h. All-append (λ x. text_eq id x.id ≡ false) table (f ∷ []) h (apart, tt);
}
