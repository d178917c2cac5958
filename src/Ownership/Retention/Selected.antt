-- ===== src/Ownership/Retention/Selected.antt =====
-- Exactly which rows the selection of explanations takes.
use anchorix.Prelude.{
  ℕ, zero, suc, ◌+◌, ◌≤◌, ◌<◌, ◌≡◌, ◌≢◌, inl, inr, refl, sym, ap, ◌∙◌, Bool, true, false, not, ◌&&◌,
  ◌||◌, ltb, ◌==◌, List, [], ◌∷◌, length, filter, length-filter_le, All, Bool-cases, arith, subst,
}
use anchorix.Prelude.Text.{Text, text_eq_iff, text_lt}
use anchorix.Prelude.Sort.{
  IsOrdered, sort_stable, insert_by, IsOrdered-sort_stable, length-sort_stable, All-sort_stable,
}
use anchorix.Prelude.Paging.Ascending.{filter-sort_stable}
use mathlib.Core.List.{Memᴰ}
use anchorix.Ownership.Retention.{
  RetentionPolicy, ExplanationRecord, newer, prunable, pruned_from, select_explanations_to_prune,
}
use anchorix.Ownership.Retention.Laws.{newer-IsStrictOrder}

-- decided later, or at the same time under a lesser id
abbrev pub ahead : ExplanationRecord → ExplanationRecord → Bool
ahead a b = ltb b.decided_at a.decided_at || ((a.decided_at == b.decided_at) && text_lt a.id b.id)

newer-eq-ahead : (a b : ExplanationRecord) → newer a b ≡ ahead a b
unfolding newer
newer-eq-ahead a b = ground arith

newer_irrefl : (a : ExplanationRecord) → newer a a ≡ false
newer_irrefl a = newer-IsStrictOrder.irrefl a

module _ {ℓ} {A : Type ℓ} where
  All-weaken {κ ι} :
      {P : A → Type κ} {Q : A → Type ι}
      → ((x : A) → P x → Q x)
      → (xs : List A) → All P xs
      → All Q xs
  All-weaken f [] h = tt
  All-weaken f (x ∷ xs) h = (f x h.0, All-weaken f xs h.1)

  All-member : (xs : List A) → All (λ x. Memᴰ x xs) xs
  All-member [] = tt
  All-member (x ∷ xs) = (Memᴰ.head refl, All-weaken (λ y m. Memᴰ.tail m) xs (All-member xs))

  member-All {κ} : (P : A → Type κ) {x : A} (xs : List A) → Memᴰ x xs → All P xs → P x
  member-All P [] m h = elim m [ ]
  member-All P (y ∷ ys) (Memᴰ.head e) h = subst P (sym e) h.0
  member-All P (y ∷ ys) (Memᴰ.tail m) h = member-All P ys m h.1

  member-insert_by :
      (less : A → A → Bool) (x : A) {y : A} (ys : List A)
      → Memᴰ y (x ∷ ys)
      → Memᴰ y (insert_by less x ys)
  unfolding insert_by
  member-insert_by less x [] m = m
  member-insert_by less x (z ∷ zs) m = elim (Bool-cases (less z x)) [
    | inr ge ↦ rw ge m
    | inl lt ↦ rw lt (elim m [
      | Memᴰ.head e ↦ Memᴰ.tail (member-insert_by less x zs (Memᴰ.head e))
      | Memᴰ.tail n ↦ elim n [
        | Memᴰ.head e ↦ Memᴰ.head e
        | Memᴰ.tail k ↦ Memᴰ.tail (member-insert_by less x zs (Memᴰ.tail k))
      ]
    ])
  ]

  member-sort_stable :
      (less : A → A → Bool) {y : A} (xs : List A) → Memᴰ y xs → Memᴰ y (sort_stable less xs)
  unfolding sort_stable
  member-sort_stable less [] m = elim m [ ]
  member-sort_stable less (x ∷ xs) (Memᴰ.head e) =
      member-insert_by less x (sort_stable less xs) (Memᴰ.head e)
  member-sort_stable less (x ∷ xs) (Memᴰ.tail m) =
      member-insert_by less x (sort_stable less xs) (Memᴰ.tail (member-sort_stable less xs m))

length-filter-sort_stable :
    (p : ExplanationRecord → Bool) (xs : List ExplanationRecord)
    → length (filter p (sort_stable newer xs)) ≡ length (filter p xs)
length-filter-sort_stable p xs =
    ap (λ l. length l) (filter-sort_stable newer newer-IsStrictOrder p xs)
    ∙ length-sort_stable newer (filter p xs)

module _ (current : Text) (policy : RetentionPolicy) (now : ℕ) where
  -- A row that may go, with its id: it is not current, it is older than the maximal age, and besides
  -- it there are at least `kept` rows of which it is not ahead.
  pub record Expired (timeline : List ExplanationRecord) (kept : ℕ) (id : Text) : Type 0 where
    pub row : ExplanationRecord
    pub member : Memᴰ row timeline
    pub named : row.id ≡ id
    pub not_current : id ≢ current
    pub old : row.decided_at + policy.max_age < now
    pub behind : kept < length (filter (λ x. not (ahead row x)) timeline)

  prunable_row :
      (r : ExplanationRecord)
      → prunable current policy now r ≡ true
      → (r.id ≢ current) × (r.decided_at + policy.max_age < now)
  unfolding prunable
  prunable_row r h = (λ e. ground (arith, text_eq_iff r.id current), ground arith)

  one_more :
      (r : ExplanationRecord) (rs : List ExplanationRecord) (n : ℕ) (id : Text)
      → All (λ y. newer y r ≡ false) rs
      → Expired rs n id
      → Expired (r ∷ rs) (suc n) id
  one_more r rs n id first x = record {
    row = x.row;
    member = Memᴰ.tail x.member;
    named = x.named;
    not_current = x.not_current;
    old = x.old;
    behind = ground (
      arith,
      x.behind,
      newer-eq-ahead x.row r,
      member-All (λ y. newer y r ≡ false) rs x.member first,
    );
  }

  later_row :
      (r : ExplanationRecord) (rs : List ExplanationRecord) (id : Text)
      → Expired rs 0 id
      → Expired (r ∷ rs) 0 id
  later_row r rs id x = record {
    row = x.row;
    member = Memᴰ.tail x.member;
    named = x.named;
    not_current = x.not_current;
    old = x.old;
    behind = ground (arith, x.behind);
  }

  this_row :
      (r : ExplanationRecord) (rs : List ExplanationRecord)
      → prunable current policy now r ≡ true
      → Expired (r ∷ rs) 0 r.id
  this_row r rs h = record {
    row = r;
    member = Memᴰ.head refl;
    named = refl;
    not_current = (prunable_row r h).0;
    old = (prunable_row r h).1;
    behind = ground (arith, newer-eq-ahead r r, newer_irrefl r);
  }

  pruned_from-Expired :
      (n : ℕ) (rs : List ExplanationRecord)
      → IsOrdered newer rs
      → All (Expired rs n) (pruned_from n current policy now rs)
  unfolding pruned_from
  pruned_from-Expired zero [] o = tt
  pruned_from-Expired (suc n) [] o = tt
  pruned_from-Expired (suc n) (r ∷ rs) o =
      All-weaken (λ id x. one_more r rs n id o.0 x) _ (pruned_from-Expired n rs o.1)
  pruned_from-Expired zero (r ∷ rs) o =
      let rest = All-weaken (later_row r rs) _ (pruned_from-Expired zero rs o.1) in
      elim (Bool-cases (prunable current policy now r)) [
        | inl y ↦ rw y (this_row r rs y, rest)
        | inr k ↦ rw k rest
      ]

  unsorted :
      (timeline : List ExplanationRecord) (n : ℕ) (id : Text)
      → Expired (sort_stable newer timeline) n id
      → Expired timeline n id
  unsorted timeline n id x = record {
    row = x.row;
    member =
        member-All (λ r. Memᴰ r timeline) (sort_stable newer timeline) x.member
          (All-sort_stable (λ r. Memᴰ r timeline) newer timeline (All-member timeline));
    named = x.named;
    not_current = x.not_current;
    old = x.old;
    behind =
        subst (λ k. n < k) (length-filter-sort_stable (λ y. not (ahead x.row y)) timeline) x.behind;
  }

  -- Whatever is selected is the id of a row of the timeline that is not the current one, is older
  -- than the maximal age, and stands behind the latest `keep_n`: besides it there are at least
  -- `keep_n` rows of which it is not ahead, by time and then by id.
  pub select-Expired :
      (timeline : List ExplanationRecord)
      → All
          (Expired timeline policy.keep_n)
          (select_explanations_to_prune timeline current policy now)
  unfolding select_explanations_to_prune
  select-Expired timeline =
      let selected : All (Expired timeline policy.keep_n)
          (pruned_from policy.keep_n current policy now (sort_stable newer timeline)) =
        All-weaken (unsorted timeline policy.keep_n) _ (
          pruned_from-Expired policy.keep_n (sort_stable newer timeline)
            (IsOrdered-sort_stable newer newer-IsStrictOrder timeline)) in
      ground (arith, selected)

  none_ahead :
      (r : ExplanationRecord) (rs : List ExplanationRecord)
      → All (λ y. newer y r ≡ false) rs
      → length (filter (λ x. ahead x r) rs) ≡ 0
  none_ahead r [] h = refl
  none_ahead r (x ∷ rs) h = ground (arith, newer-eq-ahead x r, none_ahead r rs h.1)

  pruned_from_all :
      (n : ℕ) (r : ExplanationRecord) (rs : List ExplanationRecord)
      → IsOrdered newer rs
      → Memᴰ r rs
      → prunable current policy now r ≡ true
      → n ≤ length (filter (λ x. ahead x r) rs)
      → Memᴰ r.id (pruned_from n current policy now rs)
  unfolding pruned_from
  pruned_from_all zero r [] o m h le = elim m [ ]
  pruned_from_all (suc n) r [] o m h le = elim m [ ]
  pruned_from_all zero r (x ∷ rs) o (Memᴰ.head e) h le =
      let gone : prunable current policy now x ≡ true =
        (ap (prunable current policy now) (sym e) ∙ h) in
      rw gone (Memᴰ.head (ap (λ (y : ExplanationRecord). y.id) e))
  pruned_from_all zero r (x ∷ rs) o (Memᴰ.tail m) h le =
      let rest = pruned_from_all zero r rs o.1 m h (omega arith) in
      elim (Bool-cases (prunable current policy now x)) [
        | inl y ↦ rw y (Memᴰ.tail rest)
        | inr k ↦ rw k rest
      ]
  pruned_from_all (suc n) r (x ∷ rs) o (Memᴰ.head e) h le =
      let first = subst (λ z. All (λ y. newer y z ≡ false) rs) (sym e) o.0 in
      let self : newer x r ≡ false = (ap (λ z. newer z r) (sym e) ∙ newer_irrefl r) in
      absurd (ground (arith, none_ahead r (x ∷ rs) (self, first)))
  pruned_from_all (suc n) r (x ∷ rs) o (Memᴰ.tail m) h le =
      pruned_from_all n r rs o.1 m h (ground (arith, le))

  not_all_ahead :
      (r : ExplanationRecord) (rs : List ExplanationRecord)
      → Memᴰ r rs
      → length (filter (λ x. ahead x r) rs) < length rs
  not_all_ahead r [] m = elim m [ ]
  not_all_ahead r (x ∷ rs) (Memᴰ.head e) =
      let self : ahead x r ≡ false =
        (sym (newer-eq-ahead x r) ∙ ap (λ z. newer z r) (sym e) ∙ newer_irrefl r) in
      ground (arith, length-filter_le (λ y. ahead y r) rs)
  not_all_ahead r (x ∷ rs) (Memᴰ.tail m) = ground (arith, not_all_ahead r rs m)

  -- With a keep count and a maximal age of at least 1, every row of the timeline that is not the
  -- current one, is older than the maximal age, and has at least `keep_n` rows ahead of it, by time
  -- and then by id, is selected.
  pub select_all :
      (timeline : List ExplanationRecord) (r : ExplanationRecord)
      → 1 ≤ policy.keep_n
      → 1 ≤ policy.max_age
      → Memᴰ r timeline
      → r.id ≢ current
      → r.decided_at + policy.max_age < now
      → policy.keep_n ≤ length (filter (λ x. ahead x r) timeline)
      → Memᴰ r.id (select_explanations_to_prune timeline current policy now)
  unfolding select_explanations_to_prune prunable
  select_all timeline r keep age m other old behind =
      let gone : prunable current policy now r ≡ true = ground (arith, text_eq_iff r.id current) in
      let selected =
        pruned_from_all policy.keep_n r (sort_stable newer timeline)
          (IsOrdered-sort_stable newer newer-IsStrictOrder timeline)
          (member-sort_stable newer timeline m) gone
          (subst (λ k. policy.keep_n ≤ k)
            (sym (length-filter-sort_stable (λ x. ahead x r) timeline)) behind) in
      ground (arith, selected, not_all_ahead r timeline m)
