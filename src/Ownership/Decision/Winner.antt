-- ===== src/Ownership/Decision/Winner.antt =====
-- Which rule wins, when a decision is ambiguous, and which rules are listed as losing.
use anchorix.Prelude.{
  ℕ, ◌≡◌, ◌≢◌, refl, sym, subst, Option, none, some, Bool, true, false, List, [], ◌∷◌, arith,
  Bool-cases, inl, inr, ◌⊎◌, ok, filter, All,
}
use mathlib.Core.List.{Memᴰ}
use anchorix.Prelude.Sort.{IsOrdered, IsOrdered-sort_stable, IsStrictOrder}
use anchorix.Governance.{Decision, CertificateOwnershipOverride, CertificateSignals, OwnershipRule}
use anchorix.Ownership.Precedence.{confidence_for_tier}
use anchorix.Ownership.Pattern.{Regexp}
use anchorix.Ownership.Engine.{Compiled, CompiledRule, matches, rule_less, compile_rules}
use anchorix.Ownership.Engine.Order.{rule_less-IsStrictOrder}
use anchorix.Ownership.Engine.Deterministic.{compile_rules-sorted}
use anchorix.Ownership.Decision.{
  OwnershipDecision, decide_matched, decide_ownership, override_active,
}

pub compile_rules-IsOrdered :
    (rx : Regexp) (rs : List OwnershipRule) {c : Compiled}
    → compile_rules rx rs ≡ ok c
    → IsOrdered rule_less c.0
compile_rules-IsOrdered rx rs {c} e =
    let (d, p, q) = compile_rules-sorted rx rs c e in
    subst (λ (x : Compiled). IsOrdered rule_less x.0) (sym q)
      (IsOrdered-sort_stable rule_less rule_less-IsStrictOrder d.0)

module _ {ℓ} {A : Type ℓ} (less : A → A → Bool) (p : A → Bool) where
  -- `w` passes the test, and no element that passes it is less than `w`
  pub record IsFirst (w : A) (xs : List A) : Type ℓ where
    pub member : Memᴰ w xs
    pub passes : p w ≡ true
    pub least : All (λ m. p m ≡ true → less m w ≡ false) xs

  pub none_pass : (xs : List A) → filter p xs ≡ [] → All (λ m. p m ≡ false) xs
  none_pass [] e = tt
  none_pass (x ∷ xs) e = elim (Bool-cases (p x)) [
    | inl y ↦ absurd (ground arith)
    | inr n ↦ (n, none_pass xs (ground arith))
  ]

  All-weaken :
      (w : A) (xs : List A)
      → All (λ m. less m w ≡ false) xs
      → All (λ m. p m ≡ true → less m w ≡ false) xs
  All-weaken w [] h = tt
  All-weaken w (x ∷ xs) h = (λ _. h.0, All-weaken w xs h.1)

  pub IsFirst-passes :
      (order : IsStrictOrder less) (w : A) (rest xs : List A)
      → IsOrdered less xs
      → filter p xs ≡ w ∷ rest
      → IsFirst w xs
  IsFirst-passes order w rest [] h e = cc
  IsFirst-passes order w rest (x ∷ xs) h e = elim (Bool-cases (p x)) [
    | inl y ↦
        subst (λ v. IsFirst v (x ∷ xs)) (head_eq y)
          (record {
            member = Memᴰ.head refl;
            passes = y;
            least = (λ _. order.irrefl x, All-weaken x xs h.0);
          })
    | inr n ↦
        let later = IsFirst-passes order w rest xs h.1 (tail_eq n) in
        record {
          member = Memᴰ.tail later.member;
          passes = later.passes;
          least = (λ y. cc (n, y), later.least);
        }
  ]
    where
      head_eq : p x ≡ true → x ≡ w
      head_eq y = ground arith

      tail_eq : p x ≡ false → filter p xs ≡ w ∷ rest
      tail_eq n = ground arith

-- the rule that an owned decision names, and what else it takes from it
pub record Wins (rx : Regexp) (sig : CertificateSignals) (cs : List CompiledRule)
    (d : OwnershipDecision) (w : CompiledRule) : Type 0 where
  pub first : IsFirst rule_less (λ cr. matches rx cr sig) w cs
  pub winning : d.winning_rule_id ≡ some w.rule.id
  pub service : d.service_id ≡ some w.rule.service_id
  pub confidence : d.confidence ≡ confidence_for_tier w.rule.precedence_tier
  pub owned : d.decision ≢ Decision.unowned
  pub not_pinned : d.override_id ≡ none

-- no rule matches, and nobody owns the certificate
pub record NobodyWins (rx : Regexp) (sig : CertificateSignals) (cs : List CompiledRule)
    (d : OwnershipDecision) : Type 0 where
  pub no_match : All (λ cr. matches rx cr sig ≡ false) cs
  pub unowned : d.decision ≡ Decision.unowned
  pub no_service : d.service_id ≡ none
  pub no_rule : d.winning_rule_id ≡ none

module _ (rx : Regexp) (sig : CertificateSignals) where
  decide_matched-winner :
      (cs ms : List CompiledRule)
      → filter (λ cr. matches rx cr sig) cs ≡ ms
      → IsOrdered rule_less cs
      → NobodyWins rx sig cs (decide_matched ms)
        ⊎ ((w : CompiledRule) × Wins rx sig cs (decide_matched ms) w)
  unfolding decide_matched
  decide_matched-winner cs [] e h = inl (record {
    no_match = none_pass rule_less _ cs e;
    unowned = refl;
    no_service = refl;
    no_rule = refl;
  })
  decide_matched-winner cs (w ∷ rest) e h = inr (
    w,
    record {
      first = IsFirst-passes rule_less _ rule_less-IsStrictOrder w rest cs h e;
      winning = refl;
      service = refl;
      confidence = refl;
      owned = ground arith;
      not_pinned = refl;
    },
  )

  pub decide_ownership-by_rules :
      (o : Option CertificateOwnershipOverride) (cs : List CompiledRule) (now : ℕ)
      → override_active o now ≡ false
      → decide_ownership rx sig o cs now ≡ decide_matched (filter (λ cr. matches rx cr sig) cs)
  unfolding decide_ownership
  decide_ownership-by_rules none cs now h = refl
  decide_ownership-by_rules (some o) cs now h = rw h

  -- With no override in force, the certificate is unowned and no compiled rule matches it, or the
  -- decision names a matching rule that no matching rule precedes in the walk order, and takes its
  -- service and the confidence of its tier.
  pub decide_ownership-winner :
      (rs : List OwnershipRule) (c : Compiled) (o : Option CertificateOwnershipOverride) (now : ℕ)
      → compile_rules rx rs ≡ ok c
      → override_active o now ≡ false
      → NobodyWins rx sig c.0 (decide_ownership rx sig o c.0 now)
        ⊎ ((w : CompiledRule) × Wins rx sig c.0 (decide_ownership rx sig o c.0 now) w)
  decide_ownership-winner rs c o now e h =
      rw (decide_ownership-by_rules o c.0 now h)
        (decide_matched-winner c.0 _ refl (compile_rules-IsOrdered rx rs e))
