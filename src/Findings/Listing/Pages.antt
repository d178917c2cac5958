-- ===== src/Findings/Listing/Pages.antt =====
-- findings/service.go: a client that follows the cursors of ListFindings reads the whole list.
use anchorix.Prelude.{
  ℕ, zero, suc, ◌≡◌, refl, Option, none, some, Bool, true, false, ◌&&◌, List, [], ◌∷◌, ◌++◌, filter,
  Outcome, ok, err, All, arith, subst,
}
use anchorix.Prelude.Text.{Text, text_lt_irrefl, text_lt_trans, text_lt_cotrans, is_empty}
use anchorix.Prelude.Sort.{sort_stable, IsStrictOrder}
use anchorix.Prelude.Paging.Ascending.{filter_all}
use anchorix.Findings.{Finding}
use anchorix.Findings.Listing.{
  ListError, Codec, ListQuery, RowQuery, comes_after, passes, newest_first, list_findings,
}

-- The client: it asks for the first page, and for the next one as long as there is a cursor; `none`
-- where it has made all the requests that it is given.
unfoldable pub follow :
    Codec → List Finding → ListQuery → ℕ → Text → Option (Outcome ListError (List Finding))
unfolding list_findings
follow codec table q zero cursor = none
follow codec table q (suc requests) cursor =
    elim (list_findings codec table (record q { cursor = cursor })) [
      | err e ↦ some (err e)
      | ok page ↦ elim (is_empty page.next_cursor) [
        | true ↦ some (ok page.items)
        | false ↦ elim (follow codec table q requests page.next_cursor) [
          | none ↦ none
          | some (err e) ↦ some (err e)
          | some (ok later) ↦ some (ok (page.items ++ later))
        ]
      ]
    ]

pub follow-suc :
    (codec : Codec) (table : List Finding) (q : ListQuery) (requests : ℕ) (cursor : Text)
    → follow codec table q (suc requests) cursor
      ≡ (elim (list_findings codec table (record q { cursor = cursor })) [
        | err e ↦ some (err e)
        | ok page ↦ elim (is_empty page.next_cursor) [
          | true ↦ some (ok page.items)
          | false ↦ elim (follow codec table q requests page.next_cursor) [
            | none ↦ none
            | some (err e) ↦ some (err e)
            | some (ok later) ↦ some (ok (page.items ++ later))
          ]
        ]
      ])
unfolding follow
follow-suc codec table q requests cursor = refl

-- the rows that pass the filters, the newest first
abbrev pub matching : RowQuery → List Finding → List Finding
matching q table = sort_stable newest_first (filter (passes q) table)

pub newest_order : IsStrictOrder newest_first
unfolding newest_first comes_after
newest_order = record {
  irrefl = λ f. ground (arith, text_lt_irrefl f.id);
  trans = λ f g h. ground (arith, text_lt_trans f.id g.id h.id);
  cotrans = λ f g h. ground (arith, text_lt_cotrans f.id g.id h.id);
}

-- every row comes before all later ones
abbrev pub Chain : List Finding → Type 0
Chain [] = Unit
Chain (f ∷ fs) = All (λ g. newest_first f g ≡ true) fs × Chain fs

pub newest_asymm : (f g : Finding) → newest_first f g ≡ true → newest_first g f ≡ false
newest_asymm f g h = ground (arith, newest_order.irrefl f, newest_order.trans f g f)

abbrev pub last_row : List Finding → Option Finding
last_row [] = none
last_row (f ∷ []) = some f
last_row (f ∷ g ∷ fs) = last_row (g ∷ fs)

pub last_row-All :
    (P : Finding → Type 0) (b l : List Finding) {y : Finding}
    → All P (b ++ l)
    → last_row b ≡ some y
    → P y
last_row-All P [] l h e = cc
last_row-All P (f ∷ []) l {y} h e = let same : f ≡ y = cc in subst P same h.0
last_row-All P (f ∷ g ∷ b) l h e = last_row-All P (g ∷ b) l h.1 e

-- behind the last row of a first part lies the rest
pub filter_behind :
    (b l : List Finding) {y : Finding}
    → Chain (b ++ l)
    → last_row b ≡ some y
    → filter (newest_first y) (b ++ l) ≡ l
filter_behind [] l h e = cc
filter_behind (f ∷ []) l {y} h e =
    let same : f ≡ y = cc in
    subst (λ z. filter (newest_first z) (f ∷ l) ≡ l) same
      (rw (newest_order.irrefl f) (filter_all (newest_first f) l h.0))
filter_behind (f ∷ g ∷ b) l {y} h e =
    rw (newest_asymm f y (last_row-All (λ x. newest_first f x ≡ true) (g ∷ b) l h.0 e))
      (filter_behind (g ∷ b) l h.1 e)

pub filter_both :
    (p q : Finding → Bool) (xs : List Finding)
    → filter (λ x. p x && q x) xs ≡ filter q (filter p xs)
filter_both p q [] = refl
filter_both p q (x ∷ xs) = ground (arith, filter_both p q xs)
