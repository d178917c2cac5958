-- ===== src/Findings/Table/Laws.antt =====
-- What a statement of a recompute leaves in the table, by organization, certificate and rule.
use anchorix.Prelude.{
  ◌≡◌, refl, ap, Option, none, some, true, false, [], ◌∷◌, All, arith, Bool-cases, inl, inr, subst,
}
use anchorix.Prelude.Text.{Text, text_eq, text_eq_iff, text_eq_refl}
use anchorix.Findings.{Finding}
use anchorix.Findings.Diff.Machine.{SameFinding}
use anchorix.Findings.Table.{
  Table, same_pair, clashes, is_row_of, set_columns, write_rows, find_row,
}

-- the primary key and the unique constraint of migrations/0001
abbrev pub IsTable : Table → Type 0
IsTable [] = Unit
IsTable (r ∷ rows) = All (λ x. clashes r x ≡ false) rows × IsTable rows

-- the row that the table has at the pair of `f`
abbrev pub find_pair : Finding → Table → Option Finding
find_pair f table = find_row f.organization_id f.certificate_id f.rule_id table

abbrev pub Holds : Table → Finding → Type 0
Holds table f = find_pair f table ≡ some f

pub same_pair_refl : (f : Finding) → same_pair f.organization_id f.certificate_id f.rule_id f ≡ true
unfolding same_pair
same_pair_refl f =
    ground
      (arith, text_eq_refl f.organization_id, text_eq_refl f.certificate_id, text_eq_refl f.rule_id)

pub same_pair_pair :
    (o c r : Text) (f g : Finding)
    → same_pair o c r f ≡ true
    → same_pair o c r g ≡ same_pair f.organization_id f.certificate_id f.rule_id g
unfolding same_pair
same_pair_pair o c r f g p = ground (
  arith,
  text_eq_iff o f.organization_id,
  text_eq_iff c f.certificate_id,
  text_eq_iff r f.rule_id,
)

-- two rows of one pair clash
pub clashes_pair :
    (o c r : Text) (f g : Finding)
    → same_pair o c r f ≡ true
    → same_pair o c r g ≡ true
    → clashes f g ≡ true
unfolding same_pair clashes
clashes_pair o c r f g p q = ground (
  arith,
  text_eq_iff o f.organization_id,
  text_eq_iff c f.certificate_id,
  text_eq_iff r f.rule_id,
  text_eq_iff o g.organization_id,
  text_eq_iff c g.certificate_id,
  text_eq_iff r g.rule_id,
  text_eq_refl o,
  text_eq_refl c,
  text_eq_refl r,
)

text_eq_comm : (s t : Text) → text_eq s t ≡ text_eq t s
text_eq_comm s t = ground (arith, text_eq_iff s t, text_eq_iff t s)

pub clashes_comm : (f g : Finding) → clashes f g ≡ clashes g f
unfolding clashes same_pair
clashes_comm f g = ground (
  arith,
  text_eq_comm f.id g.id,
  text_eq_comm f.organization_id g.organization_id,
  text_eq_comm f.certificate_id g.certificate_id,
  text_eq_comm f.rule_id g.rule_id,
)

pub clashes_id : (f g : Finding) → clashes f g ≡ false → text_eq f.id g.id ≡ false
unfolding clashes
clashes_id f g h = ground arith

pub Holds-All :
    (P : Finding → Type 0) (table : Table) (f : Finding) → All P table → Holds table f → P f
unfolding find_row
Holds-All P [] f h holds = cc
Holds-All P (r ∷ rows) f h holds =
    elim (Bool-cases (same_pair f.organization_id f.certificate_id f.rule_id r)) [
      | inl here ↦ let e : r ≡ f = (let there = (rw here at holds) in cc) in subst P e h.0
      | inr later ↦ Holds-All P rows f h.1 (rw later at holds)
    ]

pub find_row_pair :
    (o c r : Text) (f : Finding) (rows : Table)
    → same_pair o c r f ≡ true
    → find_row o c r rows ≡ find_pair f rows
unfolding find_row
find_row_pair o c r f [] h = refl
find_row_pair o c r f (x ∷ rows) h =
    ground (arith, find_row_pair o c r f rows, same_pair_pair o c r f x)

pub find_row-none :
    (o c r : Text) (f : Finding) (rows : Table)
    → same_pair o c r f ≡ true
    → All (λ x. clashes f x ≡ false) rows
    → find_row o c r rows ≡ none
unfolding find_row
find_row-none o c r f [] h d = refl
find_row-none o c r f (x ∷ rows) h d =
    ground (arith, clashes_pair o c r f x, find_row-none o c r f rows)

-- the columns that the `SET` list leaves are those that no transition touches
pub set_columns_lem : (prior n : Finding) → SameFinding prior n → set_columns n prior ≡ n
set_columns_lem prior n same = ground arith

pub is_row_of_self : (prior n : Finding) → SameFinding prior n → is_row_of n prior ≡ true
unfolding is_row_of
is_row_of_self prior n same = ground (
  arith,
  text_eq_iff n.id prior.id,
  text_eq_iff n.organization_id prior.organization_id,
  same.id,
  same.organization,
)

pub is_row_of_other :
    (prior n x : Finding) → SameFinding prior n → clashes prior x ≡ false → is_row_of n x ≡ false
unfolding is_row_of
is_row_of_other prior n x same d =
    ground (arith, clashes_id prior x, ap (λ t. text_eq t x.id) same.id)

pub write_rows_other :
    (prior n : Finding) (rows : Table)
    → SameFinding prior n
    → All (λ x. clashes prior x ≡ false) rows
    → write_rows n rows ≡ rows
unfolding write_rows
write_rows_other prior n [] same d = refl
write_rows_other prior n (x ∷ rows) same d =
    rw (is_row_of_other prior n x same d.0)
      (ap (λ l. x ∷ l) (write_rows_other prior n rows same d.1))
