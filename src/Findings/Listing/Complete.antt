-- ===== src/Findings/Listing/Complete.antt =====
-- findings/service.go: a client that follows the cursors of ListFindings reads the whole list.
use anchorix.Prelude.{
  ℕ, zero, suc, ◌+◌, ◌-◌, ◌≤◌, ◌<◌, ◌≡◌, refl, sym, ap, ◌∙◌, some, true, false, List, [], ◌∷◌, ◌++◌,
  length, length-take, length-append, min, take, filter, ltb, ok, All, arith, Bool-cases, inl, inr,
  subst, All-filter,
}
use anchorix.Prelude.Text.{Text, is_empty}
use anchorix.Prelude.Sort.{All-sort_stable}
use anchorix.Prelude.Paging.Ascending.{Differ}
use anchorix.Findings.{Finding}
use anchorix.Findings.Listing.{
  Codec, ListQuery, RowQuery, decode_finding_cursor, encode_finding_cursor, normalize_list_query,
  passes, newest_first, last_cursor, page_of, ListResult, list_findings,
}
use anchorix.Findings.Listing.Cursor.{decode-encode_finding_cursor, encode_finding_cursor_empty}
use anchorix.Findings.Listing.Pages.{
  follow, follow-suc, matching, Chain, last_row, last_row-All, filter_behind,
}
use anchorix.Findings.Listing.Follows.{
  sort_stable-Chain, Differ-filter, HasCursor, drop, take-append-drop, normalized, limit_bounds,
  list_rows_behind, list_rows_first,
}

last_cursor-row :
    (codec : Codec) (b : List Finding) {y : Finding}
    → last_row b ≡ some y
    → last_cursor codec b ≡ encode_finding_cursor codec y.last_seen_at y.id
last_cursor-row codec [] e = cc
last_cursor-row codec (f ∷ []) {y} e =
    let same : f ≡ y = cc in
    ap (λ (g : Finding). encode_finding_cursor codec g.last_seen_at g.id) same
last_cursor-row codec (f ∷ g ∷ b) e = last_cursor-row codec (g ∷ b) e

last_row-cons : (f : Finding) (b : List Finding) → (y : Finding) × (last_row (f ∷ b) ≡ some y)
last_row-cons f [] = (f, refl)
last_row-cons f (g ∷ b) = last_row-cons g b

last_cursor-append :
    (codec : Codec) (a : List Finding) (f : Finding) (b : List Finding)
    → last_cursor codec (a ++ f ∷ b) ≡ last_cursor codec (f ∷ b)
last_cursor-append codec [] f b = refl
last_cursor-append codec (g ∷ []) f b = refl
last_cursor-append codec (g ∷ h ∷ a) f b = last_cursor-append codec (h ∷ a) f b

append_assoc : (a b c : List Finding) → (a ++ b) ++ c ≡ a ++ (b ++ c)
append_assoc [] b c = refl
append_assoc (f ∷ a) b c = ap (λ l. f ∷ l) (append_assoc a b c)

start_cursor : (codec : Codec) → decode_finding_cursor codec [] ≡ ok (0, [])
unfolding decode_finding_cursor is_empty
start_cursor codec = refl

page_short :
    (codec : Codec) (want : ℕ) (rows : List Finding)
    → ltb want (length rows) ≡ false
    → page_of codec want rows ≡ record { items = rows; next_cursor = [] }
unfolding page_of
page_short codec want rows h = rw h refl

page_full :
    (codec : Codec) (want : ℕ) (rows : List Finding)
    → ltb want (length rows) ≡ true
    → page_of codec want rows
      ≡ record { items = take want rows; next_cursor = last_cursor codec (take want rows) }
unfolding page_of
page_full codec want rows h = rw h refl

follow_last :
    (codec : Codec) (table : List Finding) (q : ListQuery) (n : ℕ) (cursor : Text)
    (page : ListResult)
    → list_findings codec table (record q { cursor = cursor }) ≡ ok page
    → is_empty page.next_cursor ≡ true
    → follow codec table q (suc n) cursor ≡ some (ok page.items)
unfolding follow
follow_last codec table q n cursor page e last = rw (e, follow) (rw last refl)

follow_next :
    (codec : Codec) (table : List Finding) (q : ListQuery) (n : ℕ) (cursor : Text)
    (page : ListResult) (later : List Finding)
    → list_findings codec table (record q { cursor = cursor }) ≡ ok page
    → is_empty page.next_cursor ≡ false
    → follow codec table q n page.next_cursor ≡ some (ok later)
    → follow codec table q (suc n) cursor ≡ some (ok (page.items ++ later))
follow_next codec table q n cursor page later e more rest =
    follow-suc codec table q n cursor ∙ rw e (rw more (rw rest refl))

take-take : (n m : ℕ) (l : List Finding) → n ≤ m → take n (take m l) ≡ take n l
take-take zero m l h = refl
take-take (suc n) zero l h = absurd (omega arith)
take-take (suc n) (suc m) [] h = refl
take-take (suc n) (suc m) (f ∷ l) h = ap (λ t. f ∷ t) (take-take n m l (omega arith))

take_all : (n : ℕ) (l : List Finding) → length l ≤ n → take n l ≡ l
take_all zero [] h = refl
take_all zero (f ∷ l) h = absurd (omega arith)
take_all (suc n) [] h = refl
take_all (suc n) (f ∷ l) h = ap (λ t. f ∷ t) (take_all n l (omega arith))

module _ (codec : Codec) (table : List Finding) (q : ListQuery) (r : RowQuery)
    (accepted : normalize_list_query codec (record q { cursor = [] }) ≡ ok r)
    (distinct : Differ (λ f. f.id) table) (cursors : All HasCursor table) where
  abbrev whole : List Finding
  whole = matching r table

  whole-Chain : Chain whole
  whole-Chain = sort_stable-Chain _ (Differ-filter (passes r) table distinct)

  whole_cursors : All HasCursor whole
  whole_cursors =
      All-sort_stable HasCursor newest_first _ (All-filter HasCursor (passes r) table cursors)

  -- the page at the cursor behind the rows `before`
  page_at :
      (before l : List Finding)
      → whole ≡ before ++ l
      → list_findings codec table (record q { cursor = last_cursor codec before })
        ≡ ok (page_of codec (r.limit - 1) (take r.limit l))
  unfolding list_findings
  page_at [] l e = rw (normalized codec q r accepted [] 0 [] (start_cursor codec)) (
      ap (λ rows. ok (page_of codec (r.limit - 1) rows))
        (list_rows_first r table ∙ ap (take r.limit) e))
  page_at (f ∷ b) l e =
      let (y, last) = last_row-cons f b in
      let chain : Chain ((f ∷ b) ++ l) = subst Chain e whole-Chain in
      let all : All HasCursor ((f ∷ b) ++ l) = subst (All HasCursor) e whole_cursors in
      let hy : HasCursor y = last_row-All HasCursor (f ∷ b) l all last in
      rw (last_cursor-row codec (f ∷ b) last) (
        rw
          (normalized codec q r accepted _ y.last_seen_at y.id
            (decode-encode_finding_cursor codec y.last_seen_at y.id hy.1))
          (ap (λ rows. ok (page_of codec (r.limit - 1) rows))
            (list_rows_behind r table y hy
              ∙ ap (take r.limit)
                  (ap (filter (newest_first y)) e ∙ filter_behind (f ∷ b) l chain last))))

  -- the client at the cursor behind the rows `before` reads the rows that are left
  module _ (requests : ℕ)
      (later : (before l : List Finding)
        → whole ≡ before ++ l
        → length l < requests
        → follow codec table q requests (last_cursor codec before) ≡ some (ok l)) where
    last_page :
        (before l : List Finding)
        → whole ≡ before ++ l
        → ltb (r.limit - 1) (length (take r.limit l)) ≡ false
        → follow codec table q (suc requests) (last_cursor codec before) ≡ some (ok l)
    unfolding is_empty
    last_page before l e short =
        follow_last codec table q requests (last_cursor codec before)
          (record { items = take r.limit l; next_cursor = [] })
          (page_at before l e ∙ ap (λ p. ok p) (page_short codec _ _ short)) refl
        ∙ ap (λ p. some (ok p))
            (take_all r.limit l
              (ground (arith, length-take r.limit l, limit_bounds codec q r accepted)))

    next_page :
        (before l : List Finding)
        → whole ≡ before ++ l
        → length l < suc requests
        → ltb (r.limit - 1) (length (take r.limit l)) ≡ true
        → (f : Finding) (b : List Finding) → take (r.limit - 1) l ≡ f ∷ b
        → follow codec table q (suc requests) (last_cursor codec before) ≡ some (ok l)
    next_page before l e enough full f b page =
        follow_next codec table q requests (last_cursor codec before)
          (record { items = f ∷ b; next_cursor = last_cursor codec (f ∷ b) }) (drop (r.limit - 1) l)
          (page_at before l e
            ∙ ap (λ p. ok p) (page_full codec _ _ full)
            ∙ ap
                (λ (p : List Finding). ok (record { items = p; next_cursor = last_cursor codec p }))
                items)
          named rest
        ∙ ap (λ p. some (ok p)) (sym split)
      where
        items : take (r.limit - 1) (take r.limit l) ≡ f ∷ b
        items =
            take-take (r.limit - 1) r.limit l (omega (arith, (limit_bounds codec q r accepted).1))
            ∙ page

        split : l ≡ (f ∷ b) ++ drop (r.limit - 1) l
        split = take-append-drop (r.limit - 1) l ∙ ap (λ p. p ++ drop (r.limit - 1) l) page

        named : is_empty (last_cursor codec (f ∷ b)) ≡ false
        named =
            let (y, last) = last_row-cons f b in
            ap is_empty (last_cursor-row codec (f ∷ b) last)
            ∙ encode_finding_cursor_empty codec y.last_seen_at y.id

        count : length l ≡ length (f ∷ b) + length (drop (r.limit - 1) l)
        count = ap (λ p. length p) split ∙ length-append (f ∷ b) _

        rest :
            follow codec table q requests (last_cursor codec (f ∷ b))
            ≡ some (ok (drop (r.limit - 1) l))
        rest =
            ap (follow codec table q requests) (sym (last_cursor-append codec before f b))
            ∙ later (before ++ f ∷ b) (drop (r.limit - 1) l)
                (e ∙ ap (λ t. before ++ t) split ∙ sym (append_assoc before (f ∷ b) _))
                (omega (arith, count))

    page_of_client :
        (before l : List Finding)
        → whole ≡ before ++ l
        → length l < suc requests
        → (items : List Finding) → take (r.limit - 1) l ≡ items
        → follow codec table q (suc requests) (last_cursor codec before) ≡ some (ok l)
    page_of_client before l e enough [] page = last_page before l e (
        let count : min (r.limit - 1) (length l) ≡ 0 =
          sym (length-take (r.limit - 1) l) ∙ ap (λ p. length p) page in
        ground (arith, length-take r.limit l, limit_bounds codec q r accepted))
    page_of_client before l e enough (f ∷ b) page =
        elim (Bool-cases (ltb (r.limit - 1) (length (take r.limit l)))) [
          | inl full ↦ next_page before l e enough full f b page
          | inr short ↦ last_page before l e short
        ]

  follow_from :
      (requests : ℕ) (before l : List Finding)
      → whole ≡ before ++ l
      → length l < requests
      → follow codec table q requests (last_cursor codec before) ≡ some (ok l)
  follow_from zero before l e enough = absurd (omega arith)
  follow_from (suc requests) before l e enough =
      page_of_client requests (λ b l'. follow_from requests b l') before l e enough _ refl

  -- For a query that is accepted without a cursor, over rows with different ids, none of which is
  -- empty, that were seen after the zero time and do not change meanwhile, a client that follows
  -- the cursors from the first page meets no error and comes to a page without a cursor, at the
  -- latest with one request more than there are matching rows. The pages together are the rows
  -- that pass the filters, the newest first, each once.
  pub follow-matching :
      (requests : ℕ)
      → length (matching r table) < requests
      → follow codec table q requests [] ≡ some (ok (matching r table))
  follow-matching requests enough = follow_from requests [] (matching r table) refl enough
