-- ===== src/Prelude/Paging.antt =====
-- Reading a table in pages: `WHERE id > $cursor ORDER BY id ASC LIMIT $n`, and the loop
-- `for { page := read(cursor); if len(page) == 0 { break }; …; cursor = page[len(page)-1].ID;
-- if len(page) < n { break } }` around it, which the recomputes share.
pub mod Ascending
pub mod Walk
use anchorix.Prelude.{
  ℕ, zero, suc, ◌+◌, Option, none, some, Bool, true, false, List, [], ◌∷◌, length, take, filter,
  ltb, if◌then◌else◌, Outcome, ok, err, ◌>>=◌,
}
use anchorix.Prelude.Sort.{sort_stable}
use anchorix.Prelude.Text.{Text, text_lt}

module _ {R : Type 0} (key : R → Text) where
  abbrev pub key_lt : R → R → Bool
  key_lt a b = text_lt (key a) (key b)

  -- every row behind the cursor, in the order of the ids
  unfoldable pub rows_after : Text → List R → List R
  rows_after cursor rows = sort_stable key_lt (filter (λ r. text_lt cursor (key r)) rows)

  unfoldable pub read_page : Text → ℕ → List R → List R
  unfolding rows_after
  read_page cursor size rows = take size (rows_after cursor rows)

  -- the id of the last row; the cursor stays where there is none
  abbrev pub last_key : Text → List R → Text
  last_key cursor [] = cursor
  last_key cursor (r ∷ rs) = last_key (key r) rs

-- `for i := range page { if err := step(&page[i]); err != nil { return err } }`
unfoldable pub each : {E R S : Type 0} → (R → S → Outcome E S) → List R → S → Outcome E S
each step [] s = ok s
each step (r ∷ rs) s = step r s >>= each step rs

-- The loop over the pages of the table `rows s`, which counts the rows that it has read; `none`
-- where the fuel ran out.
unfoldable pub walk_pages :
    {E R S : Type 0}
    → (R → Text)
    → (S → List R)
    → (R → S → Outcome E S)
    → ℕ
    → ℕ
    → Text
    → ℕ
    → S
    → Option (Outcome E (ℕ × S))
unfolding each
walk_pages key rows step zero size cursor total s = none
walk_pages key rows step (suc fuel) size cursor total s =
    elim (read_page key cursor size (rows s)) [
      | [] ↦ some (ok (total, s))
      | r ∷ rs ↦ elim (each step (r ∷ rs) s) [
        | err e ↦ some (err e)
        | ok s' ↦ elim (ltb (length (r ∷ rs)) size) [
          | true ↦ some (ok (total + length (r ∷ rs), s'))
          | false ↦
              walk_pages key rows step fuel size (last_key key cursor (r ∷ rs))
                (total + length (r ∷ rs)) s'
        ]
      ]
    ]
