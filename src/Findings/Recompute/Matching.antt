-- ===== src/Findings/Recompute/Matching.antt =====
-- findings/service.go: the match map of phase 1 holds, for each certificate and rule, what the
-- rule answers for the certificate.
use anchorix.Prelude.{
  ℕ, suc, ◌+◌, ◌<◌, ◌≡◌, refl, ap, ◌∙◌, Option, none, some, Bool, true, false, List, [], ◌∷◌,
  filter, if◌then◌else◌, Outcome, ok, All, arith, Bool-cases, Option-cases, inl, inr, length,
}
use anchorix.Prelude.Text.{Text, text_eq, text_eq_iff, text_lt}
use anchorix.Prelude.Sort.{insert_by, sort_stable, All-sort_stable, length-sort_stable}
use anchorix.Prelude.Paging.{each, rows_after, key_lt}
use anchorix.Prelude.Paging.Ascending.{
  Differ, IsAscending-Differ, Differ-IsAscending, length-rows_after,
}
use anchorix.Prelude.Paging.Walk.{walk_pages-walked}
use anchorix.Findings.{CertificateSummary, Rule}
use anchorix.Findings.Pairs.{MatchKey, key_eq, get}
use anchorix.Findings.Pairs.Laws.{UniqueKeys, get-put, put-UniqueKeys}
use anchorix.Findings.Table.{RecomputeError}
use anchorix.Findings.Recompute.{
  Inputs, MatchEntry, Matches, evaluate_rules_for_cert, collect_matches,
}
use anchorix.Findings.Recompute.Spec.{rule_match, pair_match}

abbrev pub UniqueRules : List Rule → Type 0
UniqueRules [] = Unit
UniqueRules (rule ∷ rules) = All (λ x. text_eq rule.id x.id ≡ false) rules × UniqueRules rules

rule_match-none :
    (rules : List Rule) (now : ℕ) (cert : CertificateSummary) (id : Text) (rule : Rule)
    → text_eq id rule.id ≡ true
    → All (λ x. text_eq rule.id x.id ≡ false) rules
    → rule_match rules now cert id ≡ none
unfolding rule_match
rule_match-none [] now cert id rule e d = refl
rule_match-none (x ∷ rules) now cert id rule e d =
    ground (arith, rule_match-none rules now cert id rule e d.1, text_eq_iff id rule.id)

abbrev or_else : Option MatchEntry → Option MatchEntry → Option MatchEntry
or_else none e = e
or_else (some m) e = some m

pub or_else-none : (e : Option MatchEntry) → or_else e none ≡ e
or_else-none none = refl
or_else-none (some m) = refl

get-evaluate_rules_for_cert :
    (rules : List Rule) (now : ℕ) (cert : CertificateSummary) (m : Matches) (k : MatchKey)
    → UniqueRules rules
    → get k (evaluate_rules_for_cert rules now cert m) ≡ (
        if text_eq k.cert_id cert.id
        then or_else (rule_match rules now cert k.rule_id) (get k m)
        else get k m)
unfolding evaluate_rules_for_cert rule_match key_eq
get-evaluate_rules_for_cert [] now cert m k u = ground arith
get-evaluate_rules_for_cert (rule ∷ rules) now cert m k u =
    elim (Option-cases (rule.evaluate cert now)) [
      | inl e ↦ rw e (
          get-evaluate_rules_for_cert rules now cert m k u.1
          ∙ ground (arith, rule_match-none rules now cert k.rule_id rule))
      | inr (ev, e) ↦ rw e (
          get-evaluate_rules_for_cert rules now cert _ k u.1
          ∙ ground (
            arith,
            rule_match-none rules now cert k.rule_id rule,
            get-put k (record { cert_id = cert.id; rule_id = rule.id })
                (record { rule = rule; evidence = ev }) m,
          ))
    ]

evaluate_rules_for_cert-UniqueKeys :
    (rules : List Rule) (now : ℕ) (cert : CertificateSummary) (m : Matches)
    → UniqueKeys m
    → UniqueKeys (evaluate_rules_for_cert rules now cert m)
unfolding evaluate_rules_for_cert
evaluate_rules_for_cert-UniqueKeys [] now cert m u = u
evaluate_rules_for_cert-UniqueKeys (rule ∷ rules) now cert m u =
    elim (Option-cases (rule.evaluate cert now)) [
      | inl e ↦ rw e (evaluate_rules_for_cert-UniqueKeys rules now cert m u)
      | inr (ev, e) ↦
          rw e (evaluate_rules_for_cert-UniqueKeys rules now cert _ (put-UniqueKeys _ _ m u))
    ]

abbrev cert_key : CertificateSummary → Text
cert_key c = c.id

pair_match-none :
    (certs : List CertificateSummary) (rules : List Rule) (now : ℕ) (k : MatchKey)
    (c : CertificateSummary)
    → text_eq k.cert_id c.id ≡ true
    → All (λ x. text_eq c.id x.id ≡ false) certs
    → pair_match certs rules now k ≡ none
unfolding pair_match
pair_match-none [] rules now k c e d = refl
pair_match-none (x ∷ certs) rules now k c e d =
    ground (arith, pair_match-none certs rules now k c e d.1, text_eq_iff k.cert_id c.id)

unfoldable pub evaluate_all : Inputs → CertificateSummary → Matches → Outcome RecomputeError Matches
evaluate_all inp cert m = ok (evaluate_rules_for_cert inp.rules inp.now cert m)

-- the matches of phase 1 over the certificates that it visits
pub each_evaluate :
    (inp : Inputs) (certs : List CertificateSummary) (m : Matches)
    → UniqueRules inp.rules
    → Differ cert_key certs
    → UniqueKeys m
    → (m' : Matches) × (each (evaluate_all inp) certs m ≡ ok m')
      × UniqueKeys m'
      × ((k : MatchKey) → get k m' ≡ or_else (pair_match certs inp.rules inp.now k) (get k m))
unfolding each evaluate_all pair_match
each_evaluate inp [] m u d uk = (m, refl, uk, λ k. refl)
each_evaluate inp (cert ∷ certs) m u d uk =
    let (m', went, uk', found) =
      each_evaluate inp certs (evaluate_rules_for_cert inp.rules inp.now cert m) u d.1
        (evaluate_rules_for_cert-UniqueKeys inp.rules inp.now cert m uk) in
    (
      m',
      went,
      uk',
      λ k.
          found k
          ∙ ground (
            arith,
            get-evaluate_rules_for_cert inp.rules inp.now cert m k u,
            pair_match-none certs inp.rules inp.now k cert,
          ),
    )

pair_match-insert_by :
    (less : CertificateSummary → CertificateSummary → Bool) (rules : List Rule) (now : ℕ)
    (k : MatchKey) (x : CertificateSummary) (ys : List CertificateSummary)
    → All (λ y. text_eq x.id y.id ≡ false) ys
    → pair_match (insert_by less x ys) rules now k ≡ pair_match (x ∷ ys) rules now k
unfolding pair_match insert_by
pair_match-insert_by less rules now k x [] d = refl
pair_match-insert_by less rules now k x (y ∷ ys) d = elim (Bool-cases (less y x)) [
  | inl lt ↦ rw lt (
      ground (
        arith,
        pair_match-insert_by less rules now k x ys d.1,
        text_eq_iff k.cert_id x.id,
        text_eq_iff k.cert_id y.id,
        text_eq_iff x.id y.id,
      ))
  | inr ge ↦ rw ge refl
]

pair_match-sort_stable :
    (less : CertificateSummary → CertificateSummary → Bool) (rules : List Rule) (now : ℕ)
    (k : MatchKey) (xs : List CertificateSummary)
    → Differ cert_key xs
    → pair_match (sort_stable less xs) rules now k ≡ pair_match xs rules now k
unfolding pair_match sort_stable
pair_match-sort_stable less rules now k [] d = refl
pair_match-sort_stable less rules now k (x ∷ xs) d =
    pair_match-insert_by less rules now k x (sort_stable less xs)
      (All-sort_stable (λ y. text_eq x.id y.id ≡ false) less xs d.0)
    ∙ ground (arith, pair_match-sort_stable less rules now k xs d.1)

cert_ids :
    (certs : List CertificateSummary)
    → All (λ c. text_lt [] c.id ≡ true) certs
    → filter (λ c. text_lt [] c.id) certs ≡ certs
cert_ids [] h = refl
cert_ids (c ∷ certs) h = ground (arith, cert_ids certs h.1)

all_certs :
    (certs : List CertificateSummary)
    → All (λ c. text_lt [] c.id ≡ true) certs
    → 0 + length (rows_after cert_key [] certs) ≡ length certs
unfolding rows_after
all_certs certs ids = omega (
  arith,
  length-sort_stable (key_lt cert_key) (filter (λ c. text_lt [] c.id) certs),
  ap (λ l. length l) (cert_ids certs ids),
)

pair_match-rows_after :
    (rules : List Rule) (now : ℕ) (k : MatchKey) (certs : List CertificateSummary)
    → Differ cert_key certs
    → All (λ c. text_lt [] c.id ≡ true) certs
    → pair_match (rows_after cert_key [] certs) rules now k ≡ pair_match certs rules now k
unfolding rows_after
pair_match-rows_after rules now k certs d ids =
    ap (λ l. pair_match (sort_stable (key_lt cert_key) l) rules now k) (cert_ids certs ids)
    ∙ pair_match-sort_stable (key_lt cert_key) rules now k certs d

-- With rules and certificates of different ids that are not empty and a page size above 0, phase 1 ends, has counted
-- every certificate, and its map holds one entry for each pair whose rule matches the certificate,
-- and none for the others.
pub collect_matches_lem :
    (inp : Inputs) (size : ℕ)
    → 0 < size
    → UniqueRules inp.rules
    → Differ cert_key inp.certs
    → All (λ c. text_lt [] c.id ≡ true) inp.certs
    → (m : Matches) × (collect_matches inp size ≡ some (ok (length inp.certs, m)))
      × UniqueKeys m
      × ((k : MatchKey) → get k m ≡ pair_match inp.certs inp.rules inp.now k)
unfolding collect_matches evaluate_all get pair_match
collect_matches_lem inp size pos u d ids =
    let up = Differ-IsAscending cert_key [] inp.certs d in
    let (m, went, unique, found) =
      each_evaluate inp (rows_after cert_key [] inp.certs) [] u
        (IsAscending-Differ cert_key [] _ up) tt in
    (
      m,
      walk_pages-walked cert_key (λ (_ : Matches). inp.certs) (evaluate_all inp)
            (λ c s s' cursor e lt. refl) (suc (length inp.certs)) size [] 0 [] pos up
            (omega (arith, length-rows_after cert_key [] inp.certs))
          ∙ ap some (rw went (rw (all_certs inp.certs ids) refl)),
      unique,
      λ k. found k ∙ or_else-none _ ∙ pair_match-rows_after inp.rules inp.now k inp.certs d ids,
    )
