-- ===== src/Findings/Listing/Follows.antt =====
-- findings/service.go: the page at a cursor, and the pages that a client reads.
use anchorix.Prelude.{
  ℕ, zero, suc, ◌+◌, ◌-◌, ◌≤◌, ◌<◌, ◌≡◌, refl, sym, ap, ◌∙◌, Bool, true, false, List, [], ◌∷◌, ◌++◌,
  take, filter, if◌then◌else◌, ok, All, arith, Bool-cases, inl, inr, All-filter, >>=-eq-ok,
  ok-injective,
}
use anchorix.Prelude.Int.{ℤ, pos, negsuc}
use anchorix.Prelude.Text.{Text, text_eq, text_eq_iff, text_lt_connex, is_empty}
use anchorix.Prelude.Sort.{insert_by, sort_stable, All-sort_stable}
use anchorix.Prelude.Paging.Ascending.{filter-sort_stable, Differ}
use anchorix.Findings.{Finding}
use anchorix.Findings.Listing.{
  Codec, ListQuery, RowQuery, normalize_limit, decode_finding_cursor, normalize_list_query,
  list_limit, max_list_limit, comes_after, passes, behind_cursor, newest_first, list_rows,
}
use anchorix.Findings.Listing.Pages.{matching, newest_order, Chain, filter_both}

newest_connex :
    (f g : Finding) → text_eq f.id g.id ≡ false → newest_first g f ≡ false → newest_first f g ≡ true
unfolding newest_first comes_after
newest_connex f g d h = ground (arith, text_lt_connex f.id g.id, text_eq_iff f.id g.id)

All-insert :
    (P : Finding → Type 0) (x : Finding) (ys : List Finding)
    → P x
    → All P ys
    → All P (insert_by newest_first x ys)
unfolding insert_by
All-insert P x [] h hs = (h, tt)
All-insert P x (y ∷ ys) h hs = elim (Bool-cases (newest_first y x)) [
  | inl before ↦ rw before (hs.0, All-insert P x ys h hs.1)
  | inr other ↦ rw other (h, hs)
]

All-newest_trans :
    (x y : Finding) (ys : List Finding)
    → newest_first x y ≡ true
    → All (λ g. newest_first y g ≡ true) ys
    → All (λ g. newest_first x g ≡ true) ys
All-newest_trans x y [] h hs = tt
All-newest_trans x y (z ∷ ys) h hs =
    (newest_order.trans x y z h hs.0, All-newest_trans x y ys h hs.1)

insert_by-Chain :
    (x : Finding) (ys : List Finding)
    → All (λ y. text_eq x.id y.id ≡ false) ys
    → Chain ys
    → Chain (insert_by newest_first x ys)
unfolding insert_by
insert_by-Chain x [] d c = (tt, tt)
insert_by-Chain x (y ∷ ys) d c = elim (Bool-cases (newest_first y x)) [
  | inl before ↦
      rw before
        (All-insert (λ g. newest_first y g ≡ true) x ys before c.0, insert_by-Chain x ys d.1 c.1)
  | inr other ↦
      let first : newest_first x y ≡ true = newest_connex x y d.0 other in
      rw other ((first, All-newest_trans x y ys first c.0), c)
]

pub sort_stable-Chain :
    (xs : List Finding) → Differ (λ f. f.id) xs → Chain (sort_stable newest_first xs)
unfolding sort_stable
sort_stable-Chain [] d = tt
sort_stable-Chain (x ∷ xs) d =
    insert_by-Chain x (sort_stable newest_first xs)
      (All-sort_stable (λ y. text_eq x.id y.id ≡ false) newest_first xs d.0)
      (sort_stable-Chain xs d.1)

pub Differ-filter :
    (p : Finding → Bool) (xs : List Finding)
    → Differ (λ f. f.id) xs
    → Differ (λ f. f.id) (filter p xs)
Differ-filter p [] d = tt
Differ-filter p (x ∷ xs) d = elim (Bool-cases (p x)) [
  | inl kept ↦
      rw kept (All-filter (λ y. text_eq x.id y.id ≡ false) p xs d.0, Differ-filter p xs d.1)
  | inr left ↦ rw left (Differ-filter p xs d.1)
]

-- a row that a cursor can name
abbrev pub HasCursor : Finding → Type 0
HasCursor f = (0 < f.last_seen_at) × (is_empty f.id ≡ false)

normalize_limit_bounds :
    (raw : ℤ) (n : ℕ) → normalize_limit raw ≡ ok n → (0 < n) × (n ≤ max_list_limit)
unfolding normalize_limit
normalize_limit_bounds (negsuc m) n h = cc
normalize_limit_bounds (pos m) n h = ground arith

list_limit_bounds :
    (o st sv : Text) (raw : ℤ) (n : ℕ)
    → list_limit o st sv raw ≡ ok n
    → (0 < n) × (n ≤ max_list_limit)
unfolding list_limit
list_limit_bounds o st sv raw n h =
    let (_, _, e) = >>=-eq-ok {A = Unit {0}} _ (λ _. normalize_limit raw) h in
    normalize_limit_bounds raw n e

pub drop : ℕ → List Finding → List Finding
drop zero fs = fs
drop (suc n) [] = []
drop (suc n) (f ∷ fs) = drop n fs

pub take-append-drop : (n : ℕ) (fs : List Finding) → fs ≡ take n fs ++ drop n fs
unfolding drop
take-append-drop zero fs = refl
take-append-drop (suc n) [] = refl
take-append-drop (suc n) (f ∷ fs) = ap (λ l. f ∷ l) (take-append-drop n fs)

module _ (codec : Codec) (q : ListQuery) (r : RowQuery)
    (accepted : normalize_list_query codec (record q { cursor = [] }) ≡ ok r) where
  -- another cursor changes nothing else of the query
  pub normalized :
      (cursor : Text) (at : ℕ) (id : Text)
      → decode_finding_cursor codec cursor ≡ ok (at, id)
      → normalize_list_query codec (record q { cursor = cursor })
        ≡ ok (record r { cursor_last_seen_at = at; cursor_id = id })
  unfolding normalize_list_query
  normalized cursor at id d =
      let (limit, checked, rest) =
        >>=-eq-ok {A = ℕ} (list_limit q.organization_id q.status q.severity q.limit) _ accepted in
      let (first, none_yet, made) =
        >>=-eq-ok {A = ℕ × Text} (decode_finding_cursor codec []) _ rest in
      rw checked (
        rw d (
          ap (λ (x : RowQuery). ok (record x { cursor_last_seen_at = at; cursor_id = id }))
            (ok-injective made)))

  -- the limit of an accepted query
  pub limit_bounds : (0 < r.limit - 1) × (r.limit ≡ (r.limit - 1) + 1)
  unfolding normalize_list_query
  limit_bounds =
      let (limit, checked, rest) =
        >>=-eq-ok {A = ℕ} (list_limit q.organization_id q.status q.severity q.limit) _ accepted in
      let (first, none_yet, made) =
        >>=-eq-ok {A = ℕ × Text} (decode_finding_cursor codec []) _ rest in
      let same : limit + 1 ≡ r.limit = ap (λ (x : RowQuery). x.limit) (ok-injective made) in
      let (low, high) =
        list_limit_bounds q.organization_id q.status q.severity q.limit limit checked in
      omega arith

filter_ext :
    (p p' : Finding → Bool) (xs : List Finding)
    → ((x : Finding) → p x ≡ p' x)
    → filter p xs ≡ filter p' xs
filter_ext p p' [] same = refl
filter_ext p p' (x ∷ xs) same =
    rw (same x) (ap (λ l. if p' x then x ∷ l else l) (filter_ext p p' xs same))

behind_row :
    (r : RowQuery) (y : Finding)
    → HasCursor y
    → (x : Finding)
    → behind_cursor (record r { cursor_last_seen_at = y.last_seen_at; cursor_id = y.id }) x
      ≡ newest_first y x
unfolding behind_cursor newest_first
behind_row r y h x = ground arith

-- the rows of a query behind a row
pub list_rows_behind :
    (r : RowQuery) (table : List Finding) (y : Finding)
    → HasCursor y
    → list_rows (record r { cursor_last_seen_at = y.last_seen_at; cursor_id = y.id }) table
      ≡ take r.limit (filter (newest_first y) (matching r table))
unfolding list_rows passes
list_rows_behind r table y h = ap (take r.limit) (
    ap (sort_stable newest_first)
      (filter_both (passes r) _ table ∙ filter_ext _ (newest_first y) _ (behind_row r y h))
    ∙ sym (filter-sort_stable newest_first newest_order (newest_first y) (filter (passes r) table)))

pub list_rows_first :
    (r : RowQuery) (table : List Finding)
    → list_rows (record r { cursor_last_seen_at = 0; cursor_id = [] }) table
      ≡ take r.limit (matching r table)
unfolding list_rows behind_cursor passes
list_rows_first r table =
    ap (λ l. take r.limit (sort_stable newest_first l))
      (filter_ext _ (passes r) table λ x. ground arith)
