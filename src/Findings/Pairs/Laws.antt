-- ===== src/Findings/Pairs/Laws.antt =====
-- What a map holds at each key after a write.
use anchorix.Prelude.{
  ◌≡◌, ◌↔◌, refl, none, some, true, [], ◌∷◌, if◌then◌else◌, All, arith, Bool-cases, inl, inr, ap,
}
use anchorix.Prelude.Text.{text_eq_iff}
use anchorix.Findings.Pairs.{MatchKey, key_eq, PairMap, get, put, delete}

pub key_eq_iff : (j k : MatchKey) → (key_eq j k ≡ true) ↔ (j ≡ k)
unfolding key_eq
key_eq_iff j k = ground (arith, text_eq_iff j.cert_id k.cert_id, text_eq_iff j.rule_id k.rule_id)

pub key_eq_refl : (k : MatchKey) → key_eq k k ≡ true
key_eq_refl k = (key_eq_iff k k).1 refl

pub key_eq_comm : (j k : MatchKey) → key_eq j k ≡ key_eq k j
key_eq_comm j k = ground (arith, key_eq_iff j k, key_eq_iff k j)

module _ {V : Type 0} where
  -- one entry for each key
  abbrev pub UniqueKeys : PairMap V → Type 0
  UniqueKeys [] = Unit
  UniqueKeys ((k, v) ∷ m) = (get k m ≡ none) × UniqueKeys m

  pub get-put :
      (j k : MatchKey) (v : V) (m : PairMap V)
      → get j (put k v m) ≡ (if key_eq j k then some v else get j m)
  unfolding get put
  get-put j k v [] = refl
  get-put j k v ((i, w) ∷ m) =
      ground (arith, get-put j k v m, key_eq_iff k i, key_eq_iff j i, key_eq_iff j k)

  pub put-UniqueKeys :
      (k : MatchKey) (v : V) (m : PairMap V) → UniqueKeys m → UniqueKeys (put k v m)
  unfolding put get
  put-UniqueKeys k v [] u = (refl, tt)
  put-UniqueKeys k v ((i, w) ∷ m) u = elim (Bool-cases (key_eq k i)) [
    | inl same ↦ rw same (ground (arith, key_eq_iff k i), u.1)
    | inr other ↦
        rw other (ground (arith, get-put i k v m, key_eq_comm i k), put-UniqueKeys k v m u.1)
  ]

  pub get-delete :
      (j k : MatchKey) (m : PairMap V) → get j (delete k m) ≡ (if key_eq j k then none else get j m)
  unfolding get delete
  get-delete j k [] = ground arith
  get-delete j k ((i, w) ∷ m) =
      ground (arith, get-delete j k m, key_eq_iff k i, key_eq_iff j i, key_eq_iff j k)

  pub delete-UniqueKeys : (k : MatchKey) (m : PairMap V) → UniqueKeys m → UniqueKeys (delete k m)
  unfolding delete get
  delete-UniqueKeys k [] u = tt
  delete-UniqueKeys k ((i, w) ∷ m) u = elim (Bool-cases (key_eq k i)) [
    | inl same ↦ rw same (delete-UniqueKeys k m u.1)
    | inr other ↦
        rw other (ground (arith, get-delete i k m, key_eq_comm i k), delete-UniqueKeys k m u.1)
  ]

  -- What holds of what the map holds at each key, holds of every entry.
  pub UniqueKeys-All :
      (P : MatchKey → V → Type 0) (m : PairMap V)
      → UniqueKeys m
      → ((k : MatchKey) (v : V) → get k m ≡ some v → P k v)
      → All (λ (e : MatchKey × V). P e.0 e.1) m
  unfolding get
  UniqueKeys-All P [] u h = tt
  UniqueKeys-All P ((k, v) ∷ m) u h = (h k v (rw (key_eq_refl k) refl), UniqueKeys-All P m u.1 rest)
    where
      rest : (j : MatchKey) (w : V) → get j m ≡ some w → P j w
      rest j w e = h j w (elim (Bool-cases (key_eq j k)) [
        | inl same ↦
            let eq : j ≡ k = (key_eq_iff j k).0 same in
            absurd (ground (arith, ap (λ i. get i m) eq))
        | inr other ↦ rw other e
      ])
