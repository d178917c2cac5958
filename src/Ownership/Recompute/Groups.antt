-- ===== src/Ownership/Recompute/Groups.antt =====
-- ownership/recompute.go: the audit groups of a pass, which roll up past a threshold.
use anchorix.Prelude.{
  ℕ, ◌+◌, ◌≡◌, Bool, true, false, ◌&&◌, List, [], ◌∷◌, ◌++◌, ltb, if◌then◌else◌, length, arith,
  length-append, All, min,
}
use anchorix.Prelude.Text.{Text, text_eq}
use anchorix.Governance.{Decision, decision_eq}

pub data AuditAction : Type 0 where
  assigned cleared flipped ambiguous_match : AuditAction

unfoldable pub action_eq : AuditAction → AuditAction → Bool
action_eq AuditAction.assigned AuditAction.assigned = true
action_eq AuditAction.cleared AuditAction.cleared = true
action_eq AuditAction.flipped AuditAction.flipped = true
action_eq AuditAction.ambiguous_match AuditAction.ambiguous_match = true
action_eq _ _ = false

abbrev pub audit_sample_cap : ℕ
audit_sample_cap = 100

pub record AuditGroupKey : Type 0 where
  pub action : AuditAction
  pub from : Decision
  pub to : Decision
  pub driver : Text

pub record AuditGroup : Type 0 where
  pub count : ℕ
  pub samples : List Text
  pub cert_ids : List Text
  pub rolled_up : Bool

unfoldable pub key_eq : AuditGroupKey → AuditGroupKey → Bool
unfolding action_eq decision_eq
key_eq a b =
    action_eq a.action b.action
    && decision_eq a.from b.from
    && decision_eq a.to b.to
    && text_eq a.driver b.driver

-- the map from keys to groups
abbrev pub AuditGroups : Type 0
AuditGroups = List (AuditGroupKey × AuditGroup)

abbrev pub empty_group : AuditGroup
empty_group = record { count = 0; samples = []; cert_ids = []; rolled_up = false }

-- what `addAudit` does to the group of its key
unfoldable pub add_to_group : Text → ℕ → AuditGroup → AuditGroup
add_to_group cert threshold g =
    let counted = record g {
      count = g.count + 1;
      samples =
          if ltb (length g.samples) audit_sample_cap then g.samples ++ cert ∷ [] else g.samples;
    } in
    if g.rolled_up
    then counted
    else if ltb threshold counted.count
    then record counted { rolled_up = true; cert_ids = [] }
    else record counted { cert_ids = g.cert_ids ++ cert ∷ [] }

add_at : AuditGroupKey → Text → ℕ → AuditGroups → AuditGroups
add_at k cert threshold [] = (k, add_to_group cert threshold empty_group) ∷ []
add_at k cert threshold ((j, g) ∷ gs) =
    let rest = add_at k cert threshold gs in
    if key_eq j k then (j, add_to_group cert threshold g) ∷ gs else (j, g) ∷ rest

unfoldable pub add_audit :
    AuditAction → Decision → Decision → Text → Text → ℕ → AuditGroups → AuditGroups
unfolding add_at
add_audit action from to driver cert threshold gs =
    add_at (record { action = action; from = from; to = to; driver = driver }) cert threshold gs

-- A group of at most `threshold` transitions lists each certificate; a larger one is rolled up.
-- Either way it keeps the first samples up to the cap.
pub record IsRolled (threshold : ℕ) (g : AuditGroup) : Type 0 where
  rolled : g.rolled_up ≡ ltb threshold g.count
  ids : length g.cert_ids ≡ (if g.rolled_up then 0 else g.count)
  sampled : length g.samples ≡ min g.count audit_sample_cap

empty_group-IsRolled : (threshold : ℕ) → IsRolled threshold empty_group
empty_group-IsRolled threshold = record {
  rolled = ground arith;
  ids = omega arith;
  sampled = omega arith;
}

add_to_group-IsRolled :
    (cert : Text) (threshold : ℕ) (g : AuditGroup)
    → IsRolled threshold g
    → IsRolled threshold (add_to_group cert threshold g)
unfolding add_to_group
add_to_group-IsRolled cert threshold g h = record {
  rolled = ground (arith, h.rolled);
  ids = ground (arith, h.rolled, h.ids, length-append g.cert_ids (cert ∷ []));
  sampled = ground (arith, h.sampled, length-append g.samples (cert ∷ []));
}

-- the transitions that the groups count
abbrev pub total : AuditGroups → ℕ
total [] = 0
total ((k, g) ∷ gs) = g.count + total gs

add_at-total :
    (k : AuditGroupKey) (cert : Text) (threshold : ℕ) (gs : AuditGroups)
    → total (add_at k cert threshold gs) ≡ total gs + 1
unfolding add_at add_to_group
add_at-total k cert threshold [] = ground arith
add_at-total k cert threshold ((j, g) ∷ gs) = ground (arith, add_at-total k cert threshold gs)

abbrev pub AllRolled : ℕ → AuditGroups → Type 0
AllRolled threshold = All (λ e. IsRolled threshold e.1)

add_at-AllRolled :
    (k : AuditGroupKey) (cert : Text) (threshold : ℕ) (gs : AuditGroups)
    → AllRolled threshold gs
    → AllRolled threshold (add_at k cert threshold gs)
unfolding add_at
add_at-AllRolled k cert threshold [] h =
    (add_to_group-IsRolled cert threshold empty_group (empty_group-IsRolled threshold), tt)
add_at-AllRolled k cert threshold ((j, g) ∷ gs) h =
    ground
      (arith, add_to_group-IsRolled cert threshold g h.0, add_at-AllRolled k cert threshold gs h.1)

-- If every audit group is in its bounds, then so it is after one more transition, and the
-- groups count one transition more: a group is rolled up exactly if it counts more than
-- `threshold` transitions, lists one certificate per transition until then and none
-- afterwards, and keeps one sample per transition up to the cap of 100.
pub add_audit-AllRolled :
    (action : AuditAction) (from to : Decision) (driver cert : Text) (threshold : ℕ)
    (gs : AuditGroups)
    → AllRolled threshold gs
    → AllRolled threshold (add_audit action from to driver cert threshold gs)
      × (total (add_audit action from to driver cert threshold gs) ≡ total gs + 1)
unfolding add_audit
add_audit-AllRolled action from to driver cert threshold gs h =
    (add_at-AllRolled _ cert threshold gs h, add_at-total _ cert threshold gs)
