-- ===== src/Ownership/Engine/Order.antt =====
-- The walk order is a strict order, total on rules with distinct ids.
use anchorix.Prelude.{◌≡◌, ◌≢◌, true, false, ◌⊎◌, arith}
use anchorix.Prelude.Text.{text_lt_irrefl, text_lt_trans, text_lt_cotrans, text_lt_connex}
use anchorix.Prelude.Sort.{IsStrictOrder}
use anchorix.Ownership.Engine.{CompiledRule, rule_less}

rule_less_irrefl : (a : CompiledRule) → rule_less a a ≡ false
unfolding rule_less
rule_less_irrefl a = ground (arith, text_lt_irrefl a.rule.id)

rule_less_trans :
    (a b c : CompiledRule) → rule_less a b ≡ true → rule_less b c ≡ true → rule_less a c ≡ true
unfolding rule_less
rule_less_trans a b c p q = ground (arith, text_lt_trans a.rule.id b.rule.id c.rule.id)

rule_less_cotrans :
    (a b c : CompiledRule) → rule_less a b ≡ false → rule_less b c ≡ false → rule_less a c ≡ false
unfolding rule_less
rule_less_cotrans a b c p q = ground (arith, text_lt_cotrans a.rule.id b.rule.id c.rule.id)

pub rule_less-IsStrictOrder : IsStrictOrder rule_less
rule_less-IsStrictOrder = record {
  irrefl = rule_less_irrefl;
  trans = rule_less_trans;
  cotrans = rule_less_cotrans;
}

rule_less_total :
    (a b : CompiledRule) → rule_less a b ≡ false → rule_less b a ≡ false → a.rule.id ≡ b.rule.id
unfolding rule_less
rule_less_total a b p q = ground (arith, text_lt_connex a.rule.id b.rule.id)

pub rule_less_connex :
    (a b : CompiledRule) → a.rule.id ≢ b.rule.id → (rule_less a b ≡ true) ⊎ (rule_less b a ≡ true)
rule_less_connex a b h = ground (arith, rule_less_total a b)
