-- ===== src/Findings/LoadAll/Existing.antt =====
-- What the two maps of the load-all recompute hold: the matches of the certificates, and the rows
-- of the organization.
use anchorix.Prelude.{
  ◌≡◌, refl, sym, ap, ◌∙◌, Option, none, some, true, List, [], ◌∷◌, ok, All, Bool-cases,
  Option-cases, inl, inr, ok-injective, length, subst,
}
use anchorix.Prelude.Text.{text_eq, text_eq_refl}
use anchorix.Prelude.Sort.{All-sort_stable, length-sort_stable}
use anchorix.Prelude.Paging.{each}
use anchorix.Prelude.Paging.Ascending.{Differ}
use anchorix.Findings.{Finding, CertificateSummary}
use anchorix.Findings.Pairs.{MatchKey, PairMap, get, put}
use anchorix.Findings.Pairs.Laws.{UniqueKeys, get-put, put-UniqueKeys}
use anchorix.Findings.Table.{Table, same_pair, find_row, rows_of}
use anchorix.Findings.Table.Laws.{IsTable, find_row-none}
use anchorix.Findings.Table.Listing.{
  IsTable-sort_stable, IsTable-filter, find_row-sort_stable, find_row-rows_of, org_of,
}
use anchorix.Findings.Recompute.{Inputs, Matches, key_of, evaluate_rules_for_cert}
use anchorix.Findings.Recompute.Spec.{pair_match}
use anchorix.Findings.Recompute.Matching.{UniqueRules, evaluate_all, each_evaluate, or_else-none}
use anchorix.Findings.Recompute.Visits.{key_eq_pair}
use anchorix.Findings.LoadAll.{list_all_for_org, match_all, by_key}

each-match_all :
    (inp : Inputs) (certs : List CertificateSummary) (m : Matches)
    → each (evaluate_all inp) certs m ≡ ok (match_all inp.rules inp.now certs m)
unfolding each evaluate_all match_all
each-match_all inp [] m = refl
each-match_all inp (cert ∷ certs) m =
    each-match_all inp certs (evaluate_rules_for_cert inp.rules inp.now cert m)

pub match_all_lem :
    (inp : Inputs)
    → UniqueRules inp.rules
    → Differ (λ c. c.id) inp.certs
    → UniqueKeys (match_all inp.rules inp.now inp.certs [])
      × ((k : MatchKey)
          → get k (match_all inp.rules inp.now inp.certs [])
            ≡ pair_match inp.certs inp.rules inp.now k)
unfolding get
match_all_lem inp u d =
    let (m, went, unique, found) = each_evaluate inp inp.certs [] u d tt in
    let same : match_all inp.rules inp.now inp.certs [] ≡ m =
      ok-injective (sym (each-match_all inp inp.certs []) ∙ went) in
    (subst UniqueKeys (sym same) unique, λ k. ap (get k) same ∙ found k ∙ or_else-none _)

module _ (inp : Inputs) where
  get-by_key :
      (k : MatchKey) (fs : List Finding) (m : PairMap Finding)
      → IsTable fs
      → All (λ f. text_eq inp.organization_id f.organization_id ≡ true) fs
      → get k (by_key fs m) ≡ (elim (find_row inp.organization_id k.cert_id k.rule_id fs) [
        | none ↦ get k m
        | some f ↦ some f
      ])
  unfolding by_key find_row
  get-by_key k [] m t own = refl
  get-by_key k (f ∷ fs) m t own =
      get-by_key k fs (put (key_of f) f m) t.1 own.1
      ∙ elim (Bool-cases (same_pair inp.organization_id k.cert_id k.rule_id f)) [
        | inl here ↦ rw here (
            rw (find_row-none inp.organization_id k.cert_id k.rule_id f fs here t.0)
              (get-put k (key_of f) f m ∙ rw (key_eq_pair inp k f own.0 ∙ here) refl))
        | inr later ↦
            rw later (elim (Option-cases (find_row inp.organization_id k.cert_id k.rule_id fs)) [
              | inl absent ↦
                  rw absent (get-put k (key_of f) f m ∙ rw (key_eq_pair inp k f own.0 ∙ later) refl)
              | inr (g, there) ↦ rw there refl
            ])
      ]

  by_key-UniqueKeys :
      (fs : List Finding) (m : PairMap Finding) → UniqueKeys m → UniqueKeys (by_key fs m)
  unfolding by_key
  by_key-UniqueKeys [] m u = u
  by_key-UniqueKeys (f ∷ fs) m u =
      by_key-UniqueKeys fs (put (key_of f) f m) (put-UniqueKeys (key_of f) f m u)

  abbrev pub existing : Table → PairMap Finding
  existing table = by_key (list_all_for_org inp.organization_id table) []

  pub existing-UniqueKeys : (table : Table) → UniqueKeys (existing table)
  existing-UniqueKeys table = by_key-UniqueKeys _ [] tt

  -- the map has the rows of the organization
  pub existing_rows :
      (k : MatchKey) (table : Table)
      → IsTable table
      → get k (existing table) ≡ find_row inp.organization_id k.cert_id k.rule_id table
  unfolding list_all_for_org rows_of get
  existing_rows k table t =
      let org = inp.organization_id in
      let kept = IsTable-filter (λ r. text_eq org r.organization_id) table t in
      get-by_key k (list_all_for_org org table) [] (IsTable-sort_stable _ _ kept)
        (All-sort_stable (λ f. text_eq org f.organization_id ≡ true) _ _ (org_of org table))
      ∙ same (find_row org k.cert_id k.rule_id (list_all_for_org org table))
      ∙ find_row-sort_stable _ org k.cert_id k.rule_id _ kept
      ∙ find_row-rows_of org org k.cert_id k.rule_id table
      ∙ rw (text_eq_refl org) refl
    where
      same : (o : Option Finding) → (elim o [ none ↦ none | some f ↦ some f ]) ≡ o
      same none = refl
      same (some f) = refl

  pub length-list_all_for_org :
      (table : Table)
      → length (list_all_for_org inp.organization_id table)
        ≡ length (rows_of inp.organization_id table)
  unfolding list_all_for_org
  length-list_all_for_org table = length-sort_stable _ _
