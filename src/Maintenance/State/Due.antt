-- ===== src/Maintenance/State/Due.antt =====
-- The due selection: what it returns, in which order, and where a re-armed row stands in it.
use anchorix.Prelude.{
  ℕ, zero, suc, ◌+◌, ◌<◌, ◌++◌, leb, ltb, not, ◌==◌, ◌||◌, ◌&&◌, if◌then◌else◌, sym, ◌≡◌, refl, ap,
  ◌∙◌, subst, some, Bool, true, false, List, [], ◌∷◌, ok, arith, ok-injective, take, filter, length,
  All, min, length-take,
}
use anchorix.Prelude.Int.{pos}
use anchorix.Prelude.Sort.{
  IsStrictOrder, IsOrdered, sort_stable, IsOrdered-sort_stable, sort_stable-perm,
  length-sort_stable,
}
use mathlib.Core.List.{Permᴰ}
use anchorix.Prelude.Text.{
  Text, text_lt, text_eq, text_eq_iff, text_lt_irrefl, text_lt_cotrans, text_lt_trans,
  text_lt_connex,
}
use anchorix.Maintenance.State.{
  SchedulerJob, Rows, find_job, list_due_jobs, is_due, due_less, mark_job_partial, set_partial,
}
use anchorix.Maintenance.State.Laws.{due_less_irrefl, due_less_trans, exec_mark-MarkedBy}

due_less_cotrans :
    (a b c : SchedulerJob) → due_less a b ≡ false → due_less b c ≡ false → due_less a c ≡ false
unfolding due_less
due_less_cotrans a b c p q = ground (
  arith,
  text_lt_cotrans a.organization_id b.organization_id c.organization_id,
  text_lt_cotrans a.job_name b.job_name c.job_name,
  text_lt_trans c.organization_id b.organization_id a.organization_id,
  text_lt_trans c.organization_id a.organization_id b.organization_id,
  text_lt_trans a.organization_id c.organization_id b.organization_id,
  text_lt_irrefl a.organization_id,
  text_lt_irrefl b.organization_id,
  text_lt_connex a.organization_id b.organization_id,
  text_lt_connex b.organization_id c.organization_id,
  text_lt_connex a.organization_id c.organization_id,
)

due_less-IsStrictOrder : IsStrictOrder due_less
due_less-IsStrictOrder = record {
  irrefl = due_less_irrefl;
  trans = due_less_trans;
  cotrans = due_less_cotrans;
}

-- what is taken, and what is left behind it
abbrev past {ℓ} : {A : Type ℓ} → ℕ → List A → List A
past zero xs = xs
past (suc n) [] = []
past (suc n) (x ∷ xs) = past n xs

take-past {ℓ} : {A : Type ℓ} (n : ℕ) (xs : List A) → take n xs ++ past n xs ≡ xs
take-past zero xs = refl
take-past (suc n) [] = refl
take-past (suc n) (x ∷ xs) = ap (λ l. x ∷ l) (take-past n xs)

-- the earlier due time, or at one time the lesser organization, or in one organization the job that
-- is not greater
abbrev pub stands_before : SchedulerJob → SchedulerJob → Bool
stands_before r x =
    ltb r.next_due_at x.next_due_at
    || ((r.next_due_at == x.next_due_at)
        && (text_lt r.organization_id x.organization_id
            || (text_eq r.organization_id x.organization_id
                && not (text_lt x.job_name r.job_name))))

-- each row stands before all that follow
abbrev pub IsByDueTime : Rows → Type 0
IsByDueTime [] = Unit
IsByDueTime (r ∷ rs) = All (λ x. stands_before r x ≡ true) rs × IsByDueTime rs

IsOrdered-IsByDueTime : (rs : Rows) → IsOrdered due_less rs → IsByDueTime rs
IsOrdered-IsByDueTime [] h = tt
IsOrdered-IsByDueTime (r ∷ rs) h = (all_later r rs h.0, IsOrdered-IsByDueTime rs h.1)
  where
    later : (r x : SchedulerJob) → due_less x r ≡ false → stands_before r x ≡ true
    later r x h =
        unfold due_less in
        ground (
          arith,
          text_lt_connex r.organization_id x.organization_id,
          text_eq_iff r.organization_id x.organization_id,
        )

    all_later :
        (r : SchedulerJob) (rs : Rows)
        → All (λ x. due_less x r ≡ false) rs
        → All (λ x. stands_before r x ≡ true) rs
    all_later r [] h = tt
    all_later r (x ∷ rs) h = (later r x h.0, all_later r rs h.1)

-- the enabled rows whose time has come
abbrev pub enabled_rows : ℕ → Rows → Rows
enabled_rows now [] = []
enabled_rows now (r ∷ rs) =
    let rest = enabled_rows now rs in
    if r.enabled then if leb r.next_due_at now then r ∷ rest else rest else rest

filter-is_due : (now : ℕ) (rows : Rows) → filter (is_due now) rows ≡ enabled_rows now rows
filter-is_due now [] = refl
filter-is_due now (r ∷ rows) = ground (arith, filter-is_due now rows)

-- what a due selection of `limit` rows returns
pub record Selected (now limit : ℕ) (rows out : Rows) : Type 0 where
  pub left : Rows
  pub from_table : Permᴰ (out ++ left) (enabled_rows now rows)
  pub ordered : IsByDueTime (out ++ left)
  pub bounded : length out ≡ min limit (length (enabled_rows now rows))

-- A due selection with a positive limit returns rows of the table that are enabled and due, each as
-- often as the table has it, in the order of due time, organization and job; as many of them as
-- there are up to the limit; and those that it leaves stand behind them in that order.
pub list_due_jobs-Selected :
    (now n : ℕ) (rows out : Rows)
    → list_due_jobs now (pos (suc n)) rows ≡ ok out
    → Selected now (suc n) rows out
unfolding list_due_jobs
list_due_jobs-Selected now n rows out e =
    let due = sort_stable due_less (filter (is_due now) rows) in
    let whole = take-past (suc n) due in
    let sorted = IsOrdered-sort_stable due_less due_less-IsStrictOrder (filter (is_due now) rows) in
    subst (Selected now (suc n) rows) (ok-injective e) (record {
      left = past (suc n) due;
      from_table =
          subst (λ l. Permᴰ l (enabled_rows now rows)) (sym whole)
            (subst (Permᴰ due) (filter-is_due now rows)
              (sort_stable-perm due_less (filter (is_due now) rows)));
      ordered = subst IsByDueTime (sym whole) (IsOrdered-IsByDueTime due sorted);
      bounded =
          length-take (suc n) due
          ∙ ap (min (suc n)) (
              length-sort_stable due_less (filter (is_due now) rows)
              ∙ ap (λ l. length l) (filter-is_due now rows));
    })

-- If a partial run is recorded with a positive delay, the row of its job is not due at the time of
-- the record, and every row that is due then comes before it in the selection order.
pub mark_job_partial-behind :
    (org job cursor : Text) (finished delay : ℕ) (rows rows' : Rows)
    → 0 < delay
    → mark_job_partial org job cursor finished (finished + delay) rows ≡ ok rows'
    → (row : SchedulerJob) × (find_job org job rows' ≡ some row)
      × (is_due finished row ≡ false)
      × ((other : SchedulerJob) → is_due finished other ≡ true → due_less other row ≡ true)
unfolding mark_job_partial due_less
mark_job_partial-behind org job cursor finished delay rows rows' positive e =
    let m =
      exec_mark-MarkedBy org job (set_partial cursor finished (finished + delay))
        (λ _. (refl, refl)) rows e in
    (
      set_partial cursor finished (finished + delay) m.row,
      m.becomes,
      ground arith,
      λ other due. ground arith,
    )
