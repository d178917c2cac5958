-- ===== src/Findings/Table/Listing.antt =====
-- The rows of an organization in the order of their ids, as the pages deliver them.
use anchorix.Prelude.{
  ◌≡◌, refl, ap, ◌∙◌, Option, none, some, Bool, true, false, List, [], ◌∷◌, filter, if◌then◌else◌,
  All, arith, Bool-cases, inl, inr, All-filter, length, ◌+◌,
}
use anchorix.Prelude.Text.{Text, text_eq, text_eq_iff, text_lt}
use anchorix.Prelude.Sort.{insert_by, sort_stable, All-sort_stable, length-sort_stable}
use anchorix.Prelude.Paging.{rows_after, key_lt}
use anchorix.Prelude.Paging.Ascending.{Differ}
use anchorix.Findings.{Finding}
use anchorix.Findings.Table.{Table, same_pair, clashes, rows_of, find_row}
use anchorix.Findings.Table.Laws.{
  IsTable, Holds, same_pair_refl, clashes_pair, clashes_comm, clashes_id,
}

-- every row has an id, which an empty cursor is before
abbrev pub HasIds : Table → Type 0
HasIds table = All (λ r. text_lt [] r.id ≡ true) table

abbrev pub listing : Text → Table → List Finding
listing o table = rows_after (λ f. f.id) [] (rows_of o table)

module _ (less : Finding → Finding → Bool) where
  find_row-insert_by :
      (o c r : Text) (x : Finding) (ys : Table)
      → All (λ y. clashes x y ≡ false) ys
      → find_row o c r (insert_by less x ys) ≡ find_row o c r (x ∷ ys)
  unfolding find_row insert_by
  find_row-insert_by o c r x [] d = refl
  find_row-insert_by o c r x (y ∷ ys) d = elim (Bool-cases (less y x)) [
    | inl lt ↦ rw lt (ground (arith, find_row-insert_by o c r x ys d.1, clashes_pair o c r x y))
    | inr ge ↦ rw ge refl
  ]

  IsTable-insert_by :
      (x : Finding) (ys : Table)
      → All (λ y. clashes x y ≡ false) ys
      → IsTable ys
      → IsTable (insert_by less x ys)
  unfolding insert_by
  IsTable-insert_by x [] h d = (tt, tt)
  IsTable-insert_by x (y ∷ ys) h d = elim (Bool-cases (less y x)) [
    | inl lt ↦ rw lt (
      All-insert_one (λ z. clashes y z ≡ false) x ys (clashes_comm y x ∙ h.0) d.0,
      IsTable-insert_by x ys h.1 d.1,
    )
    | inr ge ↦ rw ge (h, d)
  ]
    where
      All-insert_one :
          (P : Finding → Type 0) (x : Finding) (ys : Table)
          → P x
          → All P ys
          → All P (insert_by less x ys)
      All-insert_one P x [] h hs = (h, tt)
      All-insert_one P x (y ∷ ys) h hs = elim (Bool-cases (less y x)) [
        | inl lt ↦ rw lt (hs.0, All-insert_one P x ys h hs.1)
        | inr ge ↦ rw ge (h, hs)
      ]

  pub IsTable-sort_stable : (xs : Table) → IsTable xs → IsTable (sort_stable less xs)
  unfolding sort_stable
  IsTable-sort_stable [] d = tt
  IsTable-sort_stable (x ∷ xs) d =
      IsTable-insert_by x (sort_stable less xs)
        (All-sort_stable (λ y. clashes x y ≡ false) less xs d.0) (IsTable-sort_stable xs d.1)

  pub find_row-sort_stable :
      (o c r : Text) (xs : Table)
      → IsTable xs
      → find_row o c r (sort_stable less xs) ≡ find_row o c r xs
  unfolding sort_stable find_row
  find_row-sort_stable o c r [] d = refl
  find_row-sort_stable o c r (x ∷ xs) d =
      find_row-insert_by o c r x (sort_stable less xs)
        (All-sort_stable (λ y. clashes x y ≡ false) less xs d.0)
      ∙ ap (λ (t : Option Finding). if same_pair o c r x then some x else t)
          (find_row-sort_stable o c r xs d.1)

pub IsTable-filter : (p : Finding → Bool) (xs : Table) → IsTable xs → IsTable (filter p xs)
IsTable-filter p [] d = tt
IsTable-filter p (x ∷ xs) d = elim (Bool-cases (p x)) [
  | inl kept ↦ rw kept (All-filter (λ y. clashes x y ≡ false) p xs d.0, IsTable-filter p xs d.1)
  | inr left ↦ rw left (IsTable-filter p xs d.1)
]

pub find_row-rows_of :
    (o o' c r : Text) (xs : Table)
    → find_row o' c r (rows_of o xs) ≡ (if text_eq o o' then find_row o' c r xs else none)
unfolding rows_of find_row same_pair
find_row-rows_of o o' c r [] = ground arith
find_row-rows_of o o' c r (x ∷ xs) = ground (
  arith,
  find_row-rows_of o o' c r xs,
  text_eq_iff o x.organization_id,
  text_eq_iff o' x.organization_id,
  text_eq_iff o o',
)

filter_ids : (xs : Table) → HasIds xs → filter (λ r. text_lt [] r.id) xs ≡ xs
filter_ids [] h = refl
filter_ids (x ∷ xs) h = ground (arith, filter_ids xs h.1)

-- a listing reads every row of the organization
pub length-listing :
    (o : Text) (table : Table)
    → HasIds table
    → 0 + length (listing o table) ≡ length (rows_of o table)
unfolding rows_after rows_of
length-listing o table ids = omega (
  arith,
  length-sort_stable (key_lt (λ (f : Finding). f.id))
      (filter (λ r. text_lt [] r.id) (rows_of o table)),
  ap (λ l. length l)
      (filter_ids (rows_of o table)
        (All-filter (λ r. text_lt [] r.id ≡ true) (λ r. text_eq o r.organization_id) table ids)),
)

pub All-listing :
    (P : Finding → Type 0) (o : Text) (table : Table) → All P table → All P (listing o table)
unfolding rows_after rows_of
All-listing P o table h =
    All-sort_stable P _ _
      (All-filter P _ _ (All-filter P (λ r. text_eq o r.organization_id) table h))

pub IsTable-listing : (o : Text) (table : Table) → IsTable table → IsTable (listing o table)
unfolding rows_after rows_of
IsTable-listing o table d = IsTable-sort_stable _ _ (IsTable-filter _ _ (IsTable-filter _ table d))

-- The listing has the rows of the organization, and no other.
pub find_row-listing :
    (o o' c r : Text) (table : Table)
    → IsTable table
    → HasIds table
    → find_row o' c r (listing o table) ≡ (if text_eq o o' then find_row o' c r table else none)
unfolding rows_after rows_of
find_row-listing o o' c r table d ids =
    find_row-sort_stable _ o' c r _ (IsTable-filter _ _ (IsTable-filter _ table d))
    ∙ ap (find_row o' c r) (filter_ids _ (All-filter (λ r. text_lt [] r.id ≡ true) _ table ids))
    ∙ find_row-rows_of o o' c r table

Holds_later :
    (x : Finding) (all rows : Table)
    → All (λ y. clashes x y ≡ false) rows
    → All (Holds all) rows
    → All (Holds (x ∷ all)) rows
unfolding find_row
Holds_later x all [] d h = tt
Holds_later x all (y ∷ rows) d h = (
  ground (arith, same_pair_refl y, clashes_pair y.organization_id y.certificate_id y.rule_id x y),
  Holds_later x all rows d.1 h.1,
)

-- the rows of a table hold in it
IsTable-Holds : (rows : Table) → IsTable rows → All (Holds rows) rows
unfolding find_row
IsTable-Holds [] d = tt
IsTable-Holds (x ∷ rows) d =
    (rw (same_pair_refl x) refl, Holds_later x rows rows d.0 (IsTable-Holds rows d.1))

pub Holds-listing :
    (o : Text) (table : Table) → IsTable table → HasIds table → All (Holds table) (listing o table)
Holds-listing o table d ids =
    from (listing o table) (IsTable-Holds (listing o table) (IsTable-listing o table d))
  where
    from : (rows : List Finding) → All (Holds (listing o table)) rows → All (Holds table) rows
    from [] h = tt
    from (f ∷ rows) h = (
      ground (arith, find_row-listing o f.organization_id f.certificate_id f.rule_id table d ids),
      from rows h.1,
    )

pub org_of :
    (o : Text) (rows : Table) → All (λ f. text_eq o f.organization_id ≡ true) (rows_of o rows)
unfolding rows_of
org_of o [] = tt
org_of o (f ∷ rows) = ground (arith, org_of o rows)

pub listing_org :
    (o : Text) (table : Table) → All (λ f. text_eq o f.organization_id ≡ true) (listing o table)
unfolding rows_after
listing_org o table =
    All-sort_stable (λ f. text_eq o f.organization_id ≡ true) _ _
      (All-filter (λ f. text_eq o f.organization_id ≡ true) _ _ (org_of o table))

pub Differ-rows_of :
    (o : Text) (table : Table) → IsTable table → Differ (λ f. f.id) (rows_of o table)
unfolding rows_of
Differ-rows_of o table d = Differ_of _ (IsTable-filter _ table d)
  where
    apart :
        (f : Finding) (rows : Table)
        → All (λ y. clashes f y ≡ false) rows
        → All (λ y. text_eq f.id y.id ≡ false) rows
    apart f [] h = tt
    apart f (y ∷ rows) h = (clashes_id f y h.0, apart f rows h.1)

    Differ_of : (rows : Table) → IsTable rows → Differ (λ f. f.id) rows
    Differ_of [] d = tt
    Differ_of (x ∷ rows) d = (apart x rows d.0, Differ_of rows d.1)
