-- ===== src/Ownership/Retention.antt =====
-- ownership/retention.go: which explanations of a certificate may be deleted. A keep count or a
-- maximal age below 1, which the code refuses alike, is 0 here. `sort.Slice` need not be stable,
-- which rows with distinct ids do not show.
pub mod Laws
pub mod Selected
use anchorix.Prelude.{
  ℕ, zero, suc, ◌+◌, Bool, true, false, not, ◌&&◌, ◌||◌, List, [], ◌∷◌, map, ltb, leb, ◌==◌,
  if◌then◌else◌, length, filter,
}
use anchorix.Prelude.Text.{Text, text_eq, text_lt}
use anchorix.Prelude.Sort.{sort_stable}

pub record RetentionPolicy : Type 0 where
  pub keep_n : ℕ
  pub max_age : ℕ

pub record ExplanationRecord : Type 0 where
  pub id : Text
  pub decided_at : ℕ

-- newest first, then by id
unfoldable pub newer : ExplanationRecord → ExplanationRecord → Bool
newer a b =
    if not (a.decided_at == b.decided_at) then ltb b.decided_at a.decided_at else text_lt a.id b.id

-- behind the latest `keep_n` a row goes if it is not the current one and is older than the cutoff
unfoldable pub prunable : Text → RetentionPolicy → ℕ → ExplanationRecord → Bool
prunable current policy now r =
    not (text_eq r.id current) && ltb (r.decided_at + policy.max_age) now

-- the loop over the ordered rows, with the number of latest rows that are still protected
unfoldable pub pruned_from : ℕ → Text → RetentionPolicy → ℕ → List ExplanationRecord → List Text
pruned_from kept current policy now [] = []
pruned_from (suc kept) current policy now (r ∷ rs) = pruned_from kept current policy now rs
pruned_from zero current policy now (r ∷ rs) =
    let rest = pruned_from zero current policy now rs in
    if prunable current policy now r then r.id ∷ rest else rest

unfoldable pub select_explanations_to_prune :
    List ExplanationRecord → Text → RetentionPolicy → ℕ → List Text
select_explanations_to_prune timeline current policy now =
    if ltb policy.keep_n 1 || leb policy.max_age 0
    then []
    else if leb (length timeline) policy.keep_n
    then []
    else pruned_from policy.keep_n current policy now (sort_stable newer timeline)
