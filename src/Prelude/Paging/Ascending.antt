-- ===== src/Prelude/Paging/Ascending.antt =====
-- The rows behind a cursor are the page that is read next and the rows behind the page's last id.
use anchorix.Prelude.{
  ℕ, zero, suc, ◌≡◌, refl, sym, ap, ◌∙◌, Bool, true, false, List, [], ◌∷◌, ◌++◌, take, filter, All,
  Bool-cases, inl, inr, arith, if◌then◌else◌, length, ◌≤◌, All-filter, length-filter_le,
}
use anchorix.Prelude.Sort.{
  insert_by, sort_stable, IsOrdered, IsStrictOrder, IsOrdered-sort_stable, All-sort_stable,
  length-sort_stable,
}
use anchorix.Prelude.Text.{
  Text, text_lt, text_lt_irrefl, text_lt_trans, text_lt_cotrans, text_eq, text_lt_connex,
  text_eq_iff,
}
use anchorix.Prelude.Paging.{key_lt, rows_after, last_key}

module _ {A : Type 0} where
  pub filter-filter :
      (p q : A → Bool)
      → ((a : A) → q a ≡ true → p a ≡ true)
      → (xs : List A) → filter q (filter p xs) ≡ filter q xs
  filter-filter p q sub [] = refl
  filter-filter p q sub (x ∷ xs) = ground (arith, sub x, filter-filter p q sub xs)

  pub filter_all : (p : A → Bool) (xs : List A) → All (λ x. p x ≡ true) xs → filter p xs ≡ xs
  filter_all p [] h = refl
  filter_all p (x ∷ xs) h = ground (arith, filter_all p xs h.1)

module _ {A : Type 0} (less : A → A → Bool) (order : IsStrictOrder less) where
  insert_before :
      (x : A) (ys : List A) → All (λ y. less y x ≡ false) ys → insert_by less x ys ≡ x ∷ ys
  unfolding insert_by
  insert_before x [] h = refl
  insert_before x (y ∷ ys) h = ground arith

  All-filter_lt :
      (p : A → Bool) (x : A) (ys : List A)
      → All (λ y. less y x ≡ false) ys
      → All (λ y. less y x ≡ false) (filter p ys)
  All-filter_lt p x [] h = tt
  All-filter_lt p x (y ∷ ys) h = ground (arith, All-filter_lt p x ys h.1)

  behind :
      (x y : A) (ys : List A)
      → less y x ≡ false
      → All (λ z. less z y ≡ false) ys
      → All (λ z. less z x ≡ false) ys
  behind x y [] h hs = tt
  behind x y (z ∷ ys) h hs = (order.cotrans z y x hs.0 h, behind x y ys h hs.1)

  filter-insert_by :
      (p : A → Bool) (x : A) (ys : List A)
      → IsOrdered less ys
      → filter p (insert_by less x ys)
        ≡ (if p x then insert_by less x (filter p ys) else filter p ys)
  unfolding insert_by
  filter-insert_by p x [] h = ground arith
  filter-insert_by p x (y ∷ ys) h = elim (Bool-cases (less y x)) [
    | inl lt ↦ ground (arith, filter-insert_by p x ys h.1)
    | inr ge ↦
        ground (arith, insert_before x (filter p ys) (All-filter_lt p x ys (behind x y ys ge h.0)))
  ]

  pub filter-sort_stable :
      (p : A → Bool) (xs : List A) → filter p (sort_stable less xs) ≡ sort_stable less (filter p xs)
  unfolding sort_stable
  filter-sort_stable p [] = refl
  filter-sort_stable p (x ∷ xs) = ground (
    arith,
    filter-insert_by p x (sort_stable less xs) (IsOrdered-sort_stable less order xs),
    filter-sort_stable p xs,
  )

text_lt-ne : (s t : Text) → text_lt s t ≡ true → text_eq s t ≡ false
text_lt-ne s t lt = elim (Bool-cases (text_eq s t)) [
  | inl same ↦
      let e : text_lt s s ≡ text_lt s t = ap (text_lt s) ((text_eq_iff s t).0 same) in
      absurd (ground (arith, text_lt_irrefl s))
  | inr other ↦ other
]

module _ {R : Type 0} (key : R → Text) where
  pub key_order : IsStrictOrder (key_lt key)
  key_order = record {
    irrefl = λ a. text_lt_irrefl (key a);
    trans = λ a b c. text_lt_trans (key a) (key b) (key c);
    cotrans = λ a b c. text_lt_cotrans (key a) (key b) (key c);
  }

  -- strictly ascending, from behind the cursor
  abbrev pub IsAscending : Text → List R → Type 0
  IsAscending cursor [] = Unit
  IsAscending cursor (r ∷ rs) = (text_lt cursor (key r) ≡ true) × IsAscending (key r) rs

  IsAscending-from :
      (low high : Text) (rs : List R)
      → text_lt low high ≡ true
      → IsAscending high rs
      → IsAscending low rs
  IsAscending-from low high [] lt h = tt
  IsAscending-from low high (r ∷ rs) lt h = (text_lt_trans low high (key r) lt h.0, h.1)

  IsAscending-All :
      (cursor : Text) (rs : List R)
      → IsAscending cursor rs
      → All (λ r. text_lt cursor (key r) ≡ true) rs
  IsAscending-All cursor [] h = tt
  IsAscending-All cursor (r ∷ rs) h =
      (h.0, IsAscending-All cursor rs (IsAscending-from cursor (key r) rs h.0 h.1))

  -- a page does not end before it begins
  pub last_key_behind :
      (size : ℕ) (cursor : Text) (rs : List R)
      → IsAscending cursor rs
      → text_lt (last_key key cursor (take size rs)) cursor ≡ false
  last_key_behind zero cursor rs h = text_lt_irrefl cursor
  last_key_behind (suc size) cursor [] h = text_lt_irrefl cursor
  last_key_behind (suc size) cursor (r ∷ rs) h =
      text_lt_cotrans (last_key key (key r) (take size rs)) (key r) cursor
        (last_key_behind size (key r) rs h.1)
        (ground (arith, text_lt_trans cursor (key r) cursor, text_lt_irrefl cursor))

  take-split :
      (size : ℕ) (cursor : Text) (rs : List R)
      → IsAscending cursor rs
      → rs ≡ take size rs ++ filter (λ r. text_lt (last_key key cursor (take size rs)) (key r)) rs
  take-split zero cursor rs h = sym (filter_all _ rs (IsAscending-All cursor rs h))
  take-split (suc size) cursor [] h = refl
  take-split (suc size) cursor (r ∷ rs) h =
      rw (last_key_behind size (key r) rs h.1) (ap (λ l. r ∷ l) (take-split size (key r) rs h.1))

  rows_after_later :
      (low high : Text) (rows : List R)
      → text_lt high low ≡ false
      → rows_after key high rows ≡ filter (λ r. text_lt high (key r)) (rows_after key low rows)
  unfolding rows_after
  rows_after_later low high rows le =
      ap (sort_stable (key_lt key)) (sym (filter-filter _ _ later rows))
      ∙ sym (filter-sort_stable (key_lt key) key_order _ _)
    where
      later : (r : R) → text_lt high (key r) ≡ true → text_lt low (key r) ≡ true
      later r lt = ground (arith, text_lt_cotrans high low (key r))

  -- The page and what lies behind it make up what lies behind the cursor.
  pub rows_after-split :
      (size : ℕ) (cursor : Text) (rows : List R)
      → IsAscending cursor (rows_after key cursor rows)
      → let page = take size (rows_after key cursor rows) in
        rows_after key cursor rows ≡ page ++ rows_after key (last_key key cursor page) rows
  rows_after-split size cursor rows h =
      take-split size cursor (rows_after key cursor rows) h
      ∙ ap (λ l. take size (rows_after key cursor rows) ++ l)
          (sym (
            rows_after_later cursor _ rows
              (last_key_behind size cursor (rows_after key cursor rows) h)))

  pub take-IsAscending :
      (size : ℕ) (cursor : Text) (rs : List R)
      → IsAscending cursor rs
      → IsAscending cursor (take size rs)
  take-IsAscending zero cursor rs h = tt
  take-IsAscending (suc size) cursor [] h = tt
  take-IsAscending (suc size) cursor (r ∷ rs) h = (h.0, take-IsAscending size (key r) rs h.1)

  filter-IsAscending :
      (p : R → Bool) (cursor : Text) (rs : List R)
      → IsAscending cursor rs
      → IsAscending cursor (filter p rs)
  filter-IsAscending p cursor [] h = tt
  filter-IsAscending p cursor (r ∷ rs) h = elim (Bool-cases (p r)) [
    | inl kept ↦ rw kept (h.0, filter-IsAscending p (key r) rs h.1)
    | inr left ↦
        rw left (filter-IsAscending p cursor rs (IsAscending-from cursor (key r) rs h.0 h.1))
  ]

  filter_lt-IsAscending :
      (low high : Text) (rs : List R)
      → IsAscending low rs
      → IsAscending high (filter (λ r. text_lt high (key r)) rs)
  filter_lt-IsAscending low high [] h = tt
  filter_lt-IsAscending low high (r ∷ rs) h = elim (Bool-cases (text_lt high (key r))) [
    | inl lt ↦ rw lt (lt, filter-IsAscending _ (key r) rs h.1)
    | inr ge ↦ rw ge (filter_lt-IsAscending (key r) high rs h.1)
  ]

  pub rows_after-IsAscending :
      (low high : Text) (rows : List R)
      → text_lt high low ≡ false
      → IsAscending low (rows_after key low rows)
      → IsAscending high (rows_after key high rows)
  rows_after-IsAscending low high rows le h =
      rw (rows_after_later low high rows le) (filter_lt-IsAscending low high _ h)

  -- no row of a page lies behind the page's last id
  pub last_key_bounds :
      (cursor : Text) (rs : List R)
      → IsAscending cursor rs
      → All (λ r. text_lt (last_key key cursor rs) (key r) ≡ false) rs
  last_key_bounds cursor [] h = tt
  last_key_bounds cursor (r ∷ rs) h = (last_key_of (key r) rs h.1, last_key_bounds (key r) rs h.1)
    where
      last_key_of :
          (low : Text) (rs : List R)
          → IsAscending low rs
          → text_lt (last_key key low rs) low ≡ false
      last_key_of low [] h = text_lt_irrefl low
      last_key_of low (x ∷ xs) h =
          text_lt_cotrans (last_key key (key x) xs) (key x) low (last_key_of (key x) xs h.1)
            (ground (arith, text_lt_trans low (key x) low, text_lt_irrefl low))

  -- Rows whose ids differ ascend once they are sorted.
  abbrev pub Differ : List R → Type 0
  Differ [] = Unit
  Differ (r ∷ rs) = All (λ x. text_eq (key r) (key x) ≡ false) rs × Differ rs

  Differ-All :
      (p : R → Bool) (r : R) (rs : List R)
      → All (λ x. text_eq (key r) (key x) ≡ false) rs
      → All (λ x. text_eq (key r) (key x) ≡ false) (sort_stable (key_lt key) (filter p rs))
  Differ-All p r rs h =
      All-sort_stable (λ x. text_eq (key r) (key x) ≡ false) (key_lt key) (filter p rs)
        (All-filter (λ x. text_eq (key r) (key x) ≡ false) p rs h)

  insert_by-IsAscending :
      (cursor : Text) (x : R) (ys : List R)
      → text_lt cursor (key x) ≡ true
      → All (λ y. text_eq (key x) (key y) ≡ false) ys
      → IsAscending cursor ys
      → IsAscending cursor (insert_by (key_lt key) x ys)
  unfolding insert_by
  insert_by-IsAscending cursor x [] lt h up = (lt, tt)
  insert_by-IsAscending cursor x (y ∷ ys) lt h up = elim (Bool-cases (text_lt (key y) (key x))) [
    | inl before ↦ rw before (up.0, insert_by-IsAscending (key y) x ys before h.1 up.1)
    | inr ge ↦ rw ge (lt, (above ge, up.1))
  ]
    where
      above : text_lt (key y) (key x) ≡ false → text_lt (key x) (key y) ≡ true
      above ge = ground (arith, text_lt_connex (key x) (key y), text_eq_iff (key x) (key y), h.0)

  pub Differ-IsAscending :
      (cursor : Text) (rows : List R)
      → Differ rows
      → IsAscending cursor (rows_after key cursor rows)
  unfolding rows_after sort_stable
  Differ-IsAscending cursor [] d = tt
  Differ-IsAscending cursor (r ∷ rs) d = elim (Bool-cases (text_lt cursor (key r))) [
    | inl lt ↦ rw lt (
        insert_by-IsAscending cursor r _ lt (Differ-All (λ x. text_lt cursor (key x)) r rs d.0)
          (Differ-IsAscending cursor rs d.1))
    | inr le ↦ rw le (Differ-IsAscending cursor rs d.1)
  ]

  pub length-rows_after :
      (cursor : Text) (rows : List R) → length (rows_after key cursor rows) ≤ length rows
  unfolding rows_after
  length-rows_after cursor rows = omega (
    arith,
    length-sort_stable (key_lt key) (filter (λ r. text_lt cursor (key r)) rows),
    length-filter_le (λ r. text_lt cursor (key r)) rows,
  )

  pub IsAscending-Differ : (cursor : Text) (rs : List R) → IsAscending cursor rs → Differ rs
  IsAscending-Differ cursor [] up = tt
  IsAscending-Differ cursor (r ∷ rs) up =
      (apart (key r) rs (IsAscending-All (key r) rs up.1), IsAscending-Differ (key r) rs up.1)
    where
      apart :
          (low : Text) (rs : List R)
          → All (λ x. text_lt low (key x) ≡ true) rs
          → All (λ x. text_eq low (key x) ≡ false) rs
      apart low [] h = tt
      apart low (x ∷ rs) h = (text_lt-ne low (key x) h.0, apart low rs h.1)
