-- ===== src/Ownership/Engine/Deterministic.antt =====
-- The compiled rules do not depend on the order in which the database returned the rules.
use anchorix.Prelude.{
  ◌≡◌, refl, ap, sym, ◌∙◌, List, [], ◌∷◌, ◌++◌, map, Outcome, ok, err, ◌>>=◌, >>=-eq-ok, arith,
  subst,
}
use mathlib.Core.List.{Permᴰ, Sublistᴰ, Nodup, append_assoc}
use mathlib.Core.List.Permᴰ
use mathlib.Core.List.Nodup as NodupLemmas
use anchorix.Prelude.Text.{Text}
use anchorix.Prelude.Sort.{sort_stable, sort_stable-Permᴰ}
use anchorix.Governance.{OwnershipRule}
use anchorix.Ownership.Pattern.{Regexp}
use anchorix.Ownership.Engine.{
  Compiled, CompiledRule, EngineError, compile_kind, compile_rule, compile_each, compile_rules,
  rule_less,
}
use anchorix.Ownership.Engine.Order.{rule_less-IsStrictOrder, rule_less_connex}

abbrev id_of : CompiledRule → Text
id_of cr = cr.rule.id

abbrev pub rule_id_of : OwnershipRule → Text
rule_id_of r = r.id

-- the two compiled parts of a successful loop over `r ∷ rs`
pub record Parts (head tail : Outcome EngineError Compiled) (c : Compiled) : Type 0 where
  pub h : Compiled
  pub t : Compiled
  pub head_ok : head ≡ ok h
  pub tail_ok : tail ≡ ok t
  pub joined : c ≡ (h.0 ++ t.0, h.1 ++ t.1)

Parts-of :
    (head tail : Outcome EngineError Compiled) {c : Compiled}
    → (head >>= λ h. tail >>= λ t. ok (h.0 ++ t.0, h.1 ++ t.1)) ≡ ok c
    → Parts head tail c
Parts-of (ok h) (ok t) e = record { h = h; t = t; head_ok = refl; tail_ok = refl; joined = (cc) }
Parts-of (ok h) (err _) e = cc
Parts-of (err _) tail e = cc

module _ (rx : Regexp) where
  pub compile_each-Parts :
      (r : OwnershipRule) (rs : List OwnershipRule) {c : Compiled}
      → compile_each rx (r ∷ rs) ≡ ok c
      → Parts (compile_rule rx r) (compile_each rx rs) c
  unfolding compile_each
  compile_each-Parts r rs e = Parts-of (compile_rule rx r) (compile_each rx rs) e

  compile_each-cons :
      (r : OwnershipRule) (rs : List OwnershipRule) {h t : Compiled}
      → compile_rule rx r ≡ ok h
      → compile_each rx rs ≡ ok t
      → compile_each rx (r ∷ rs) ≡ ok (h.0 ++ t.0, h.1 ++ t.1)
  unfolding compile_each
  compile_each-cons r rs p q = rw (p, q)

  -- what a reordered input compiles to
  record Reordered (c : Compiled) (rs : List OwnershipRule) : Type 0 where
    c' : Compiled
    ok' : compile_each rx rs ≡ ok c'
    perm : Permᴰ c.0 c'.0

  swap_heads : (a b c : List CompiledRule) → Permᴰ (a ++ (b ++ c)) (b ++ (a ++ c))
  swap_heads a b c =
      subst (λ l. Permᴰ l (b ++ (a ++ c))) (append_assoc a b c)
        (subst (λ l. Permᴰ ((a ++ b) ++ c) l) (append_assoc b a c)
          (Permᴰ.append_right c (Permᴰ.append_comm a b)))

  compile_each_any_order :
      {rs rs' : List OwnershipRule}
      → Permᴰ rs rs'
      → (c : Compiled) → compile_each rx rs ≡ ok c
      → Reordered c rs'
  compile_each_any_order Permᴰ.nil c e = record { c' = c; ok' = e; perm = Permᴰ.refl c.0 }
  compile_each_any_order (Permᴰ.cons {a = a} {b = b} {l₁ = l} {l₂ = l'} p q) c e =
      let parts = compile_each-Parts a l e in
      let rest = compile_each_any_order q parts.t parts.tail_ok in
      record {
        c' = (parts.h.0 ++ rest.c'.0, parts.h.1 ++ rest.c'.1);
        ok' =
            compile_each-cons b l' (subst (λ r. compile_rule rx r ≡ ok parts.h) p parts.head_ok)
              rest.ok';
        perm =
            subst (λ d. Permᴰ d.0 (parts.h.0 ++ rest.c'.0)) (sym parts.joined)
              (Permᴰ.append_left parts.h.0 rest.perm);
      }
  compile_each_any_order (Permᴰ.swap {a = a} {b = b} {a' = a'} {b' = b'} {l = l} p q) c e =
      let one = compile_each-Parts a (b ∷ l) e in
      let two = compile_each-Parts b l one.tail_ok in
      record {
        c' = (two.h.0 ++ (one.h.0 ++ two.t.0), two.h.1 ++ (one.h.1 ++ two.t.1));
        ok' =
            compile_each-cons a' (b' ∷ l) (subst (λ r. compile_rule rx r ≡ ok two.h) q two.head_ok)
              (compile_each-cons b' l (subst (λ r. compile_rule rx r ≡ ok one.h) p one.head_ok)
                two.tail_ok);
        perm =
            subst (λ d. Permᴰ d.0 (two.h.0 ++ (one.h.0 ++ two.t.0))) (sym one.joined)
              (subst (λ d. Permᴰ (one.h.0 ++ d.0) (two.h.0 ++ (one.h.0 ++ two.t.0)))
                (sym two.joined) (swap_heads one.h.0 two.h.0 two.t.0));
      }
  compile_each_any_order (Permᴰ.trans p q) c e =
      let one = compile_each_any_order p c e in
      let two = compile_each_any_order q one.c' one.ok' in
      record { c' = two.c'; ok' = two.ok'; perm = Permᴰ.trans one.perm two.perm }

  -- a rule compiles to nothing, or to itself
  abbrev KeepsRule : OwnershipRule → List CompiledRule → Type 0
  KeepsRule r [] = Unit
  KeepsRule r (cr ∷ crs) = (cr.rule ≡ r) × (crs ≡ [])

  pub compile_rule-KeepsRule :
      (r : OwnershipRule) (c : Compiled) → compile_rule rx r ≡ ok c → KeepsRule r c.0
  unfolding compile_rule compile_kind
  compile_rule-KeepsRule r ([], fs) e = tt
  compile_rule-KeepsRule r (cr ∷ crs, fs) e = ground arith

  ids_cons :
      (r : OwnershipRule) (cs ds : List CompiledRule) (rs : List OwnershipRule)
      → KeepsRule r cs
      → Sublistᴰ (map id_of ds) (map rule_id_of rs)
      → Sublistᴰ (map id_of (cs ++ ds)) (map rule_id_of (r ∷ rs))
  ids_cons r [] ds rs k s = Sublistᴰ.cons s
  ids_cons r (cr ∷ crs) ds rs k s =
      rw (k.1) (Sublistᴰ.cons-cons (ap (λ (x : OwnershipRule). x.id) k.0) s)

  pub nil_compiled : (c : Compiled) → compile_each rx [] ≡ ok c → c.0 ≡ []
  unfolding compile_each
  nil_compiled c e = ground arith

  compile_each-ids :
      (rs : List OwnershipRule) (c : Compiled)
      → compile_each rx rs ≡ ok c
      → Sublistᴰ (map id_of c.0) (map rule_id_of rs)
  compile_each-ids [] c e = unfold compile_each in rw (nil_compiled c e) Sublistᴰ.slnil
  compile_each-ids (r ∷ rs) c e =
      let parts = compile_each-Parts r rs e in
      subst (λ d. Sublistᴰ (map id_of d.0) (map rule_id_of (r ∷ rs))) (sym parts.joined)
        (ids_cons r parts.h.0 parts.t.0 rs (compile_rule-KeepsRule r parts.h parts.head_ok)
          (compile_each-ids rs parts.t parts.tail_ok))

  pub compile_rules-sorted :
      (rs : List OwnershipRule) (c : Compiled)
      → compile_rules rx rs ≡ ok c
      → (d : Compiled) × (compile_each rx rs ≡ ok d) × (c ≡ (sort_stable rule_less d.0, d.1))
  unfolding compile_rules
  compile_rules-sorted rs c e = let (d, p, q) = >>=-eq-ok (compile_each rx rs) _ e in (d, p, cc)

  -- Whatever order the rules of an organization are read in, if their ids are distinct and they
  -- compile, then every other order of them compiles too, to the same rules in the same walk order.
  pub compile_rules_any_order :
      {rs rs' : List OwnershipRule} {c : Compiled}
      → Permᴰ rs rs'
      → Nodup (map rule_id_of rs)
      → compile_rules rx rs ≡ ok c
      → (c' : Compiled) × (compile_rules rx rs' ≡ ok c') × (c.0 ≡ c'.0)
  compile_rules_any_order {rs} {rs'} {c} perm distinct e =
      let (d, each, sorted) = compile_rules-sorted rs c e in
      let r = compile_each_any_order perm d each in
      let ids = NodupLemmas.sublist ∣ compile_each-ids rs d each ∣₁ distinct in
      (
        (sort_stable rule_less r.c'.0, r.c'.1),
        (unfold compile_rules in rw r.ok' refl),
        ap (λ (x : Compiled). x.0) sorted
            ∙ sort_stable-Permᴰ rule_less id_of rule_less-IsStrictOrder rule_less_connex r.perm ids,
      )
