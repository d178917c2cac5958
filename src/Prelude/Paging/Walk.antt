-- ===== src/Prelude/Paging/Walk.antt =====
-- The loop over pages visits the rows behind the cursor, in their order, each once, and it ends.
use anchorix.Prelude.{
  ℕ, zero, suc, ◌+◌, ◌<◌, ◌≡◌, refl, sym, ap, ◌∙◌, some, true, false, List, [], ◌∷◌, ◌++◌, take,
  All, Bool-cases, inl, inr, arith, Outcome, ok, err, ◌>>=◌, length, length-append, length-take,
  min, ltb, Outcome-cases, subst,
}
use anchorix.Prelude.Text.{Text, text_lt}
use anchorix.Prelude.Paging.{rows_after, read_page, last_key, each, walk_pages}
use anchorix.Prelude.Paging.Ascending.{
  IsAscending, take-IsAscending, rows_after-IsAscending, last_key_bounds, last_key_behind,
  rows_after-split,
}

module _ {E R S : Type 0} (step : R → S → Outcome E S) where
  pub each-append :
      (xs ys : List R) (s : S) → each step (xs ++ ys) s ≡ (each step xs s >>= each step ys)
  unfolding each
  each-append [] ys s = refl
  each-append (x ∷ xs) ys s = elim (Outcome-cases (step x s)) [
    | inl (e, refused) ↦ rw refused
    | inr (s', went) ↦ rw went (each-append xs ys s')
  ]

module _ {E R S : Type 0} (key : R → Text) (rows : S → List R) (step : R → S → Outcome E S)
    (keeps : (r : R) (s s' : S) (cursor : Text)
      → step r s ≡ ok s'
      → text_lt cursor (key r) ≡ false
      → rows_after key cursor (rows s') ≡ rows_after key cursor (rows s)) where
  each_keeps :
      (cursor : Text) (rs : List R) (s s' : S)
      → each step rs s ≡ ok s'
      → All (λ r. text_lt cursor (key r) ≡ false) rs
      → rows_after key cursor (rows s') ≡ rows_after key cursor (rows s)
  unfolding each
  each_keeps cursor [] s s' went h = let e : s ≡ s' = cc in rw e refl
  each_keeps cursor (r ∷ rs) s s' went h = elim (Outcome-cases (step r s)) [
    | inl (e, refused) ↦
        let no_way : ◌≡◌ {A = Outcome E S} (err e) (ok s') = (rw refused at went) in cc
    | inr (t, first) ↦
        each_keeps cursor rs t s' (rw first at went) h.1 ∙ keeps r s t cursor first h.0
  ]

  abbrev pub counted : ℕ → S → Outcome E (ℕ × S)
  counted n s = ok (n, s)

  -- what the whole walk does: the rows behind the cursor, one after the other
  abbrev pub walked : Text → ℕ → S → Outcome E (ℕ × S)
  walked cursor total s =
      each step (rows_after key cursor (rows s)) s
      >>= counted (total + length (rows_after key cursor (rows s)))

  nil_of_length : {A : Type 0} (xs : List A) → length xs ≡ 0 → xs ≡ []
  nil_of_length [] h = refl
  nil_of_length (x ∷ xs) h = absurd (omega arith)

  -- the walk from the rows that the first page leaves, after that page's steps
  walked-page :
      (cursor : Text) (total : ℕ) (s s' : S) (page rest : List R)
      → rows_after key cursor (rows s) ≡ page ++ rest
      → each step page s ≡ ok s'
      → walked cursor total s ≡ (each step rest s' >>= counted (total + length page + length rest))
  walked-page cursor total s s' page rest split went =
      let count : total + length (page ++ rest) ≡ total + length page + length rest =
        omega (arith, length-append page rest) in
      rw split (rw count (rw (each-append step page rest s) (rw went refl)))

  each_end : (n : ℕ) (s : S) → (each step [] s >>= counted (n + 0)) ≡ counted n s
  unfolding each
  each_end n s = let same : n + 0 ≡ n = omega arith in rw same refl

  module _ (fuel size : ℕ) (pos : 0 < size)
      (later : (cursor : Text) (total : ℕ) (s : S)
        → IsAscending key cursor (rows_after key cursor (rows s))
        → length (rows_after key cursor (rows s)) < fuel
        → walk_pages key rows step fuel size cursor total s ≡ some (walked cursor total s)) where
    walk_from :
        (cursor : Text) (total : ℕ) (s : S)
        → IsAscending key cursor (rows_after key cursor (rows s))
        → length (rows_after key cursor (rows s)) < suc fuel
        → (page : List R) → take size (rows_after key cursor (rows s)) ≡ page
        → walk_pages key rows step (suc fuel) size cursor total s ≡ some (walked cursor total s)
    unfolding walk_pages read_page each
    walk_from cursor total s up enough [] e =
        let nothing : rows_after key cursor (rows s) ≡ [] = nil_of_length _ (
          ground
            (arith, length-take size (rows_after key cursor (rows s)), ap (λ l. length l) e)) in
        let count : total + 0 ≡ total = omega arith in
        rw (e, walk_pages) (rw nothing (rw count refl))
    walk_from cursor total s up enough (r ∷ rs) e = elim (Outcome-cases (each step (r ∷ rs) s)) [
      | inl (why, refused) ↦ rw (e, walk_pages) (rw refused (rw (walked_refused why refused) refl))
      | inr (s', went) ↦ elim (Bool-cases (ltb (length (r ∷ rs)) size)) [
        | inl short ↦
            rw (e, walk_pages) (rw went (rw short (ap some (sym (walked_short s' went short)))))
        | inr full ↦
            rw (e, walk_pages)
              (rw went (
                rw full (
                  later next (total + length (r ∷ rs)) s' (later_up s' went)
                    (rw (same_rest s' went) (full_page full))
                  ∙ ap some (walked_on s' went))))
      ]
    ]
      where
        next : Text
        next = last_key key cursor (r ∷ rs)

        rest : List R
        rest = rows_after key next (rows s)

        split : rows_after key cursor (rows s) ≡ (r ∷ rs) ++ rest
        split = let whole = rows_after-split key size cursor (rows s) up in (rw e at whole)

        page_up : IsAscending key cursor (r ∷ rs)
        page_up = subst (IsAscending key cursor) e (take-IsAscending key size cursor _ up)

        next_behind : text_lt next cursor ≡ false
        next_behind =
            subst (λ (l : List R). text_lt (last_key key cursor l) cursor ≡ false) e
              (last_key_behind key size cursor _ up)

        count : length (rows_after key cursor (rows s)) ≡ length (r ∷ rs) + length rest
        count = ap (λ l. length l) split ∙ length-append (r ∷ rs) rest

        walked_refused :
            (why : E) → each step (r ∷ rs) s ≡ err why → walked cursor total s ≡ err why
        walked_refused why refused =
            rw split (rw (each-append step (r ∷ rs) rest s) (rw refused refl))

        same_rest : (s' : S) → each step (r ∷ rs) s ≡ ok s' → rows_after key next (rows s') ≡ rest
        same_rest s' went =
            each_keeps next (r ∷ rs) s s' went (last_key_bounds key cursor (r ∷ rs) page_up)

        full_page : ltb (length (r ∷ rs)) size ≡ false → length rest < fuel
        full_page full = omega (arith, count)

        short_page : ltb (length (r ∷ rs)) size ≡ true → rest ≡ []
        short_page short = nil_of_length rest (
            let shorter : min size (length (rows_after key cursor (rows s))) ≡ length (r ∷ rs) =
              sym (length-take size _) ∙ ap (λ l. length l) e in
            ground (arith, count))

        walked_short :
            (s' : S)
            → each step (r ∷ rs) s ≡ ok s'
            → ltb (length (r ∷ rs)) size ≡ true
            → walked cursor total s ≡ counted (total + length (r ∷ rs)) s'
        walked_short s' went short =
            walked-page cursor total s s' (r ∷ rs) rest split went
            ∙ ap (λ (l : List R). each step l s' >>= counted (total + length (r ∷ rs) + length l))
                (short_page short)
            ∙ each_end (total + length (r ∷ rs)) s'

        walked_on :
            (s' : S)
            → each step (r ∷ rs) s ≡ ok s'
            → walked next (total + length (r ∷ rs)) s' ≡ walked cursor total s
        walked_on s' went =
            ap (λ (l : List R). each step l s' >>= counted (total + length (r ∷ rs) + length l))
              (same_rest s' went)
            ∙ sym (walked-page cursor total s s' (r ∷ rs) rest split went)

        later_up :
            (s' : S)
            → each step (r ∷ rs) s ≡ ok s'
            → IsAscending key next (rows_after key next (rows s'))
        later_up s' went =
            subst (IsAscending key next) (sym (same_rest s' went))
              (rows_after-IsAscending key cursor next (rows s) next_behind up)

  pub walk_pages-walked :
      (fuel size : ℕ) (cursor : Text) (total : ℕ) (s : S)
      → 0 < size
      → IsAscending key cursor (rows_after key cursor (rows s))
      → length (rows_after key cursor (rows s)) < fuel
      → walk_pages key rows step fuel size cursor total s ≡ some (walked cursor total s)
  walk_pages-walked zero size cursor total s pos up enough = absurd (omega arith)
  walk_pages-walked (suc fuel) size cursor total s pos up enough =
      walk_from fuel size pos (λ c t s'. walk_pages-walked fuel size c t s' pos) cursor total s up
        enough _ refl
