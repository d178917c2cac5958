-- ===== src/Ownership/Store/Clears.antt =====
-- What clearing an override leaves in its row.
use anchorix.Prelude.{
  ℕ, ◌≡◌, refl, ap, ◌∙◌, subst, Option, none, some, true, false, List, [], ◌∷◌, All, arith,
  Bool-cases, Option-cases, inl, inr,
}
use anchorix.Prelude.Text.{Text, text_eq, text_eq_iff}
use anchorix.Prelude.Paging.Ascending.{Differ}
use anchorix.Governance.{CertificateOwnershipOverride}
use anchorix.Ownership.Store.{
  Store, is_active_override, has_id, first_override, clear_rows, clear_ownership_override,
}

pub record IsCleared (o : CertificateOwnershipOverride) (by reason : Text) (at : ℕ) : Type 0 where
  pub at_time : o.cleared_at ≡ some at
  pub by_user : o.cleared_by ≡ some by
  pub with_reason : o.cleared_reason ≡ some reason

module _ (org id by reason : Text) (at : ℕ) where
  clear_rows-none :
      (x : CertificateOwnershipOverride) (os : List CertificateOwnershipOverride)
      → text_eq x.id id ≡ true
      → All (λ o. text_eq x.id o.id ≡ false) os
      → clear_rows org id by reason at os ≡ none
  unfolding clear_rows
  clear_rows-none x [] e d = refl
  clear_rows-none x (o ∷ os) e d = ground (
    arith,
    clear_rows-none x os e d.1,
    text_eq_iff x.id id,
    text_eq_iff o.id id,
    text_eq_iff x.id o.id,
  )

  first_override-clear_rows :
      (os os' : List CertificateOwnershipOverride) (got : CertificateOwnershipOverride)
      → Differ (λ o. o.id) os
      → clear_rows org id by reason at os ≡ some os'
      → first_override (has_id org id) os' ≡ some got
      → IsCleared got by reason at
  unfolding clear_rows first_override
  first_override-clear_rows [] os' got d e f = absurd (ground arith)
  first_override-clear_rows (o ∷ os) os' got d e f =
      elim (Bool-cases (is_active_override org id o)) [
        | inl active ↦
            let o' : CertificateOwnershipOverride = record o {
              cleared_at = some at;
              cleared_by = some by;
              cleared_reason = some reason;
            } in
            let e1 : ◌≡◌ {A = Option (List CertificateOwnershipOverride)} (some (o' ∷ os))
                (some os') =
              (rw active at e) in
            let made : (o' ∷ os) ≡ os' = cc in
            let first : first_override (has_id org id) (o' ∷ os) ≡ some got =
              ap (first_override (has_id org id)) made ∙ f in
            let named : has_id org id o ≡ true = ground arith in
            let same : o' ≡ got = (let there = (rw named at first) in cc) in
            subst (λ x. IsCleared x by reason at) same
              (record { at_time = refl; by_user = refl; with_reason = refl })
        | inr other ↦ elim (Option-cases (clear_rows org id by reason at os)) [
          | inl left ↦ absurd (ground arith)
          | inr (rest, cleared) ↦ elim (Bool-cases (has_id org id o)) [
            | inl same ↦ absurd (ground (arith, clear_rows-none o os))
            | inr apart ↦ first_override-clear_rows os rest got d.1 cleared (
                let made : (o ∷ rest) ≡ os' =
                  (let e1 = (rw other at e) in let e2 = (rw cleared at e1) in cc) in
                let first : first_override (has_id org id) (o ∷ rest) ≡ some got =
                  ap (first_override (has_id org id)) made ∙ f in
                (rw apart at first))
          ]
        ]
      ]

  -- The first override of the id is the one that was cleared, where ids differ.
  pub clear_ownership_override-IsCleared :
      (s s' : Store) (got : CertificateOwnershipOverride)
      → Differ (λ o. o.id) s.overrides
      → clear_ownership_override org id by reason at s ≡ some s'
      → first_override (has_id org id) s'.overrides ≡ some got
      → IsCleared got by reason at
  unfolding clear_ownership_override
  clear_ownership_override-IsCleared s s' got d e f =
      elim (Option-cases (clear_rows org id by reason at s.overrides)) [
        | inl missing ↦ absurd (ground arith)
        | inr (os, cleared) ↦
            let made : record s { overrides = os } ≡ s' =
              (let e1 = (rw (cleared, clear_ownership_override) at e) in cc) in
            first_override-clear_rows s.overrides os got d cleared
              (ap (λ (x : Store). first_override (has_id org id) x.overrides) made ∙ f)
      ]
