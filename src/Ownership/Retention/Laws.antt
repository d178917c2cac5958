-- ===== src/Ownership/Retention/Laws.antt =====
-- The order of the rows, and that the selection does not depend on the order of the timeline.
use anchorix.Prelude.{
  ℕ, suc, ◌≡◌, ◌≢◌, ◌⊎◌, inl, inr, refl, ap, ◌∙◌, true, false, List, map, length, Bool-cases, arith,
}
use anchorix.Prelude.Text.{Text, text_lt_irrefl, text_lt_trans, text_lt_cotrans, text_lt_connex}
use anchorix.Prelude.Sort.{IsStrictOrder, sort_stable-Permᴰ}
use mathlib.Core.List.{Permᴰ, Nodup}
use anchorix.Ownership.Retention.{
  RetentionPolicy, ExplanationRecord, newer, select_explanations_to_prune,
}

pub newer-IsStrictOrder : IsStrictOrder newer
unfolding newer
newer-IsStrictOrder = record {
  irrefl = λ a. ground (arith, text_lt_irrefl a.id);
  trans = λ a b c p q. ground (arith, text_lt_trans a.id b.id c.id);
  cotrans = λ a b c p q. ground (arith, text_lt_cotrans a.id b.id c.id);
}

newer_connex : (a b : ExplanationRecord) → a.id ≢ b.id → (newer a b ≡ true) ⊎ (newer b a ≡ true)
newer_connex a b h = elim (Bool-cases (newer a b)) [
  | inl ab ↦ inl ab
  | inr not_ab ↦ elim (Bool-cases (newer b a)) [
    | inl ba ↦ inr ba
    | inr not_ba ↦ absurd (h (same not_ab not_ba))
  ]
]
  where
    same : newer a b ≡ false → newer b a ≡ false → a.id ≡ b.id
    same p q = unfold newer in ground (arith, text_lt_connex a.id b.id)

abbrev pub record_id : ExplanationRecord → Text
record_id r = r.id

perm_length : {xs ys : List ExplanationRecord} → Permᴰ xs ys → length xs ≡ length ys
perm_length Permᴰ.nil = refl
perm_length (Permᴰ.cons e p) = ap (λ n. suc n) (perm_length p)
perm_length (Permᴰ.swap p q) = refl
perm_length (Permᴰ.trans p q) = perm_length p ∙ perm_length q

-- The selection does not depend on the order in which the rows of the timeline, whose ids are
-- distinct, were read.
pub select_any_order :
    (current : Text) (policy : RetentionPolicy) (now : ℕ) {xs ys : List ExplanationRecord}
    → Permᴰ xs ys
    → Nodup (map record_id xs)
    → select_explanations_to_prune xs current policy now
      ≡ select_explanations_to_prune ys current policy now
unfolding select_explanations_to_prune
select_any_order current policy now {xs} {ys} p distinct =
    rw
      (perm_length p, sort_stable-Permᴰ newer record_id newer-IsStrictOrder newer_connex p distinct)
      refl
