-- ===== src/Prelude/Sort.antt =====
-- `sort.SliceStable` as a stable insertion sort, and what a strict order gives of it.
use Prim.Native.Nat.{suc}
use mathlib.Core.Path.{◌≡◌, refl, sym, ap, ap₂, ◌∙◌}
use mathlib.Core.Logic.{◌≢◌, ◌⊎◌, inl, inr}
use mathlib.Core.Bool.{Bool, true, false}
use mathlib.Core.List.{List, [], ◌∷◌, map, Nodup, Nodup-cons, mem-cons_self}
use mathlib.Core.List.Perm
use mathlib.Core.List.Permᴰ
use mathlib.Core.List.{Permᴰ}
use native.Mathlib.Omega.{arith}
use anchorix.Prelude.Tests.{if◌then◌else◌, Bool-cases}
use anchorix.Prelude.Lists.{All, filter, All-filter, length}

module _ {ℓ} {A : Type ℓ} where
  -- an element goes before the first one that is not less than it
  unfoldable pub insert_by : (A → A → Bool) → A → List A → List A
  insert_by less x [] = x ∷ []
  insert_by less x (y ∷ ys) =
      let rest = insert_by less x ys in if less y x then y ∷ rest else x ∷ y ∷ ys

  unfoldable pub sort_stable : (A → A → Bool) → List A → List A
  unfolding insert_by
  sort_stable less [] = []
  sort_stable less (x ∷ xs) = insert_by less x (sort_stable less xs)

  -- no later element is less than an earlier one
  abbrev pub IsOrdered : (A → A → Bool) → List A → Type 0
  IsOrdered less [] = Unit
  IsOrdered less (x ∷ xs) = All (λ y. less y x ≡ false) xs × IsOrdered less xs

pub record IsStrictOrder {ℓ} {A : Type ℓ} (less : A → A → Bool) : Type ℓ where
  pub irrefl : (a : A) → less a a ≡ false
  pub trans : (a b c : A) → less a b ≡ true → less b c ≡ true → less a c ≡ true
  pub cotrans : (a b c : A) → less a b ≡ false → less b c ≡ false → less a c ≡ false

module _ {ℓ} {A : Type ℓ} (less : A → A → Bool) (order : IsStrictOrder less) where
  asymm : (a b : A) → less a b ≡ true → less b a ≡ false
  asymm a b h = ground (arith, order.irrefl a, order.trans a b a)

  All-insert_by :
      (z x : A) (ys : List A)
      → less x z ≡ false
      → All (λ y. less y z ≡ false) ys
      → All (λ y. less y z ≡ false) (insert_by less x ys)
  unfolding insert_by
  All-insert_by z x [] h hs = (h, tt)
  All-insert_by z x (y ∷ ys) h hs = ground (arith, All-insert_by z x ys)

  All-not_less_mono :
      (x y : A) (ys : List A)
      → less y x ≡ false
      → All (λ z. less z y ≡ false) ys
      → All (λ z. less z x ≡ false) ys
  All-not_less_mono x y [] h hs = tt
  All-not_less_mono x y (z ∷ ys) h hs =
      (order.cotrans z y x hs.0 h, All-not_less_mono x y ys h hs.1)

  IsOrdered-insert_by :
      (x : A) (ys : List A) → IsOrdered less ys → IsOrdered less (insert_by less x ys)
  unfolding insert_by
  IsOrdered-insert_by x [] h = (tt, tt)
  IsOrdered-insert_by x (y ∷ ys) h = elim (Bool-cases (less y x)) [
    | inl lt ↦ rw lt (All-insert_by y x ys (asymm y x lt) h.0, IsOrdered-insert_by x ys h.1)
    | inr ge ↦ rw ge ((ge, All-not_less_mono x y ys ge h.0), h)
  ]

  pub IsOrdered-sort_stable : (xs : List A) → IsOrdered less (sort_stable less xs)
  unfolding sort_stable
  IsOrdered-sort_stable [] = tt
  IsOrdered-sort_stable (x ∷ xs) = IsOrdered-insert_by x _ (IsOrdered-sort_stable xs)

  -- two comparable elements may be inserted in either order
  insert_by_comm :
      (x y : A) (l : List A)
      → less x y ≡ true
      → insert_by less x (insert_by less y l) ≡ insert_by less y (insert_by less x l)
  unfolding insert_by
  insert_by_comm x y [] h = ground (arith, asymm x y h)
  insert_by_comm x y (z ∷ l) h =
      ground (arith, asymm x y h, order.trans z x y, insert_by_comm x y l h)

module _ {ℓ} {A : Type ℓ} (less : A → A → Bool) where
  length-insert_by : (x : A) (ys : List A) → length (insert_by less x ys) ≡ suc (length ys)
  unfolding insert_by
  length-insert_by x [] = refl
  length-insert_by x (y ∷ ys) = ground (arith, length-insert_by x ys)

  pub length-sort_stable : (xs : List A) → length (sort_stable less xs) ≡ length xs
  unfolding sort_stable
  length-sort_stable [] = refl
  length-sort_stable (x ∷ xs) =
      length-insert_by x (sort_stable less xs) ∙ ap (λ n. suc n) (length-sort_stable xs)

  insert_by-perm : (x : A) (ys : List A) → Permᴰ (insert_by less x ys) (x ∷ ys)
  unfolding insert_by
  insert_by-perm x [] = Permᴰ.refl (x ∷ [])
  insert_by-perm x (y ∷ ys) = elim (Bool-cases (less y x)) [
    | inl lt ↦ rw lt (Permᴰ.trans (Permᴰ.cons refl (insert_by-perm x ys)) (Permᴰ.swap refl refl))
    | inr ge ↦ rw ge (Permᴰ.refl (x ∷ y ∷ ys))
  ]

  pub sort_stable-perm : (xs : List A) → Permᴰ (sort_stable less xs) xs
  unfolding sort_stable
  sort_stable-perm [] = Permᴰ.nil
  sort_stable-perm (x ∷ xs) =
      Permᴰ.trans (insert_by-perm x (sort_stable less xs)) (Permᴰ.cons refl (sort_stable-perm xs))

  pub IsOrdered-filter :
      (p : A → Bool) (xs : List A) → IsOrdered less xs → IsOrdered less (filter p xs)
  IsOrdered-filter p [] h = tt
  IsOrdered-filter p (x ∷ xs) h =
      ground (arith, IsOrdered-filter p xs, All-filter (λ y. less y x ≡ false) p xs)

-- Where distinct keys are comparable, a list with distinct keys sorts to the same list however it
-- was ordered before.
module _ {ℓ κ} {A : Type ℓ} {K : Type κ} (less : A → A → Bool) (key : A → K)
    (order : IsStrictOrder less)
    (connex : (a b : A) → key a ≢ key b → (less a b ≡ true) ⊎ (less b a ≡ true)) where
  insert_by_swap :
      (a b : A) (l : List A)
      → key a ≢ key b
      → insert_by less a (insert_by less b l) ≡ insert_by less b (insert_by less a l)
  insert_by_swap a b l h = elim (connex a b h) [
    | inl ab ↦ insert_by_comm less order a b l ab
    | inr ba ↦ sym (insert_by_comm less order b a l ba)
  ]

  heads_differ : (a b : A) (l : List A) → Nodup (map key (a ∷ b ∷ l)) → key a ≢ key b
  heads_differ a b l h e = (Nodup-cons.0 h).0 (rw e mem-cons_self)

  pub sort_stable-Permᴰ :
      {xs ys : List A}
      → Permᴰ xs ys
      → Nodup (map key xs)
      → sort_stable less xs ≡ sort_stable less ys
  unfolding sort_stable
  sort_stable-Permᴰ Permᴰ.nil h = refl
  sort_stable-Permᴰ (Permᴰ.cons {a = a} {l₁ = l} e p) h =
      ap₂ (insert_by less) e (sort_stable-Permᴰ p (Nodup-cons.0 h).1)
  sort_stable-Permᴰ (Permᴰ.swap {a = a} {b = b} {l = l} p q) h =
      insert_by_swap a b (sort_stable less l) (heads_differ a b l h)
      ∙ ap₂ (λ x y. insert_by less x (insert_by less y (sort_stable less l))) q p
  sort_stable-Permᴰ (Permᴰ.trans p q) h =
      sort_stable-Permᴰ p h ∙ sort_stable-Permᴰ q (Perm.nodup (Perm.map key ∣ p ∣₁) h)

module _ {ℓ κ} {A : Type ℓ} (P : A → Type κ) (less : A → A → Bool) where
  All-insert : (x : A) (ys : List A) → P x → All P ys → All P (insert_by less x ys)
  unfolding insert_by
  All-insert x [] h hs = (h, tt)
  All-insert x (y ∷ ys) h hs = elim (Bool-cases (less y x)) [
    | inl lt ↦ rw lt (hs.0, All-insert x ys h hs.1)
    | inr ge ↦ rw ge (h, hs)
  ]

  pub All-sort_stable : (xs : List A) → All P xs → All P (sort_stable less xs)
  unfolding sort_stable
  All-sort_stable [] h = tt
  All-sort_stable (x ∷ xs) h = All-insert x (sort_stable less xs) h.0 (All-sort_stable xs h.1)
