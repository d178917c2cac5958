-- ===== src/Findings/Pairs.antt =====
-- findings/service.go: `map[matchKey]V`, as a list of entries with one for each key.
pub mod Laws
use anchorix.Prelude.{Option, none, some, Bool, ◌&&◌, List, [], ◌∷◌, if◌then◌else◌}
use anchorix.Prelude.Text.{Text, text_eq}

pub record MatchKey : Type 0 where
  pub cert_id : Text
  pub rule_id : Text

unfoldable pub key_eq : MatchKey → MatchKey → Bool
key_eq a b = text_eq a.cert_id b.cert_id && text_eq a.rule_id b.rule_id

abbrev pub PairMap : Type 0 → Type 0
PairMap V = List (MatchKey × V)

module _ {V : Type 0} where
  -- `v, ok := m[k]`
  unfoldable pub get : MatchKey → PairMap V → Option V
  unfolding key_eq
  get k [] = none
  get k ((j, v) ∷ m) = if key_eq k j then some v else get k m

  -- `m[k] = v`
  unfoldable pub put : MatchKey → V → PairMap V → PairMap V
  unfolding key_eq
  put k v [] = (k, v) ∷ []
  put k v ((j, w) ∷ m) = if key_eq k j then (k, v) ∷ m else (j, w) ∷ put k v m

  -- `delete(m, k)`
  unfoldable pub delete : MatchKey → PairMap V → PairMap V
  unfolding key_eq
  delete k [] = []
  delete k ((j, v) ∷ m) = let rest = delete k m in if key_eq k j then rest else (j, v) ∷ rest
