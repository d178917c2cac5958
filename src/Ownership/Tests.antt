-- ===== src/Ownership/Tests.antt =====
-- The engine, the streaming pass and re-derivation on three rules and one certificate.
use anchorix.Prelude.Sort.{sort_stable}
use anchorix.Ownership.Precedence.{ordinal_of}
use anchorix.Prelude.{
  if◌then◌else◌, ℕ, ◌≡◌, ◌↔◌, ◌⊎◌, refl, Option, none, some, true, false, List, [], ◌∷◌, map, All,
  Outcome, ok, err, arith,
}
use anchorix.Prelude.Text.{
  Text, text_eq_iff, codes, text_eq, byte_len, is_empty, text_lt, trim_space,
}
use anchorix.Prelude.Int.{pos}
use mathlib.Core.List.{Memᴰ, Permᴰ, Nodup, Nodup-cons, Mem, Pairwise, not-mem-nil, mem-cons}
use mathlib.Core.HLevel.{⊥_prop}
use mathlib.Core.Logic.Or
use anchorix.Governance.{
  PrecedenceTier, MatchKind, Decision, OwnershipRule, CertificateOwnership, CertificateSignals,
  CertificateOwnershipOverride, tier_eq, decision_eq,
}
use anchorix.Ownership.Pattern.{Regexp}
use anchorix.Ownership.Engine.{
  CompiledRule, Compiled, EngineError, compile_rules, compile_rule, matches, compile_each,
  compile_kind, rule_less,
}
use anchorix.Ownership.Engine.Deterministic.{rule_id_of, compile_rules_any_order}
use anchorix.Ownership.Engine.Ranked.{IsRanked, compile_rules-IsRanked}
use anchorix.Ownership.Decision.{Reason, override_active, decide_ownership, ties}
use anchorix.Ownership.Decision.Winner.{Wins, NobodyWins, decide_ownership-winner}
use anchorix.Ownership.Decision.Losing.{first_reason, ambiguous-iff-tiebreaker}
use anchorix.Ownership.Validation.{validate_rule_kind_and_tier, validate_match_value, tier_for_kind}
use anchorix.Ownership.Validation.Compiles.{CompilesLive, validated-CompilesLive}
use anchorix.Ownership.Store.{
  Store, get_certificate_ownership, build_ownership, clear_ownership_override,
  upsert_certificate_ownership, write_explanation,
}
use anchorix.Ownership.Recompute.{
  Env, Pass, process_cert, process_decided, override_expired, owner_changed, write_decided,
}
use anchorix.Ownership.Recompute.Groups.{
  AuditAction, AuditGroups, add_audit, AllRolled, total, add_audit-AllRolled,
}
use anchorix.Ownership.Recompute.Counters.{IsBalanced, process_cert-IsBalanced}
use anchorix.Ownership.Recompute.Row.{Written, process_cert-Written}
use anchorix.Ownership.Retention.{
  RetentionPolicy, ExplanationRecord, newer, select_explanations_to_prune, prunable, pruned_from,
}
use anchorix.Ownership.Retention.Laws.{record_id, select_any_order}
use anchorix.Ownership.Retention.Selected.{Expired, select-Expired, select_all}
use anchorix.Prelude.Sort.{sort_stable}
use anchorix.Ownership.Mutations.{
  CreateOverrideInput, OverrideMutationError, new_override, create_override,
}
use anchorix.Ownership.Clearing.{
  ClearOverrideInput, clear_override, get_ownership_override, get_active_ownership_override,
}
use anchorix.Ownership.Clearing.Rules.{IsRuled, clear_override-IsRuled}
use anchorix.Ownership.Store.Clears.{IsCleared}
use anchorix.Ownership.Mutations.Pinned.{IsPinned, Answers, create_override-IsPinned}
use anchorix.Ownership.Rederive.{RederiveResult, rederive_certificate}
use anchorix.Ownership.Rederive.Agrees.{counted, process_cert-live, rederive-agrees}
use anchorix.Ownership.Rederive.Again.{OnlyEvaluated, process_cert_again}

-- a regular expression matches just its own text
abbrev rx : Regexp
rx = record { compile = λ p. none; match_string = text_eq }

abbrev rule : Text → Text → PrecedenceTier → MatchKind → Text → OwnershipRule
rule id service tier kind value = record {
  id = id;
  organization_id = codes "org";
  name = id;
  description = [];
  service_id = service;
  precedence_tier = tier;
  priority = pos 100;
  match_kind = kind;
  match_value = value;
  enabled = true;
  created_at = 7;
  updated_at = 7;
  created_by = codes "u";
  disabled_at = none;
}

abbrev by_group : OwnershipRule
by_group =
    rule (codes "r1") (codes "web") PrecedenceTier.agent_group MatchKind.agent_group (codes "g")

abbrev by_group_too : OwnershipRule
by_group_too =
    rule (codes "r2") (codes "mail") PrecedenceTier.agent_group MatchKind.agent_group (codes "g")

abbrev catch_all : OwnershipRule
catch_all = rule (codes "r3") (codes "ops") PrecedenceTier.fallback MatchKind.fallback []

abbrev rules : List OwnershipRule
rules = catch_all ∷ by_group_too ∷ by_group ∷ []

abbrev compiled_or_none : Outcome EngineError Compiled → Compiled
compiled_or_none (ok c) = c
compiled_or_none (err _) = ([], [])

abbrev compiled : Compiled
compiled = compiled_or_none (compile_rules rx rules)

compiles : compile_rules rx rules ≡ ok compiled
unfolding compile_rules compile_each compile_rule ordinal_of compile_kind
compiles = refl

abbrev signals : CertificateSignals
signals = record {
  certificate_id = codes "cert";
  subject = codes "O=x, CN=a";
  issuer = codes "CN=ca";
  sans = codes "a" ∷ [];
  store_locations = [];
  observing_agent_ids = codes "agent" ∷ [];
  observing_agent_group_ids = codes "g" ∷ [];
  cert_tags = [];
  agent_tags = [];
}

decide_ownership-winner_example :
    NobodyWins rx signals compiled.0 (decide_ownership rx signals none compiled.0 50)
    ⊎ ((w : CompiledRule) × Wins rx signals compiled.0
          (decide_ownership rx signals none compiled.0 50)
          w)
unfolding override_active
decide_ownership-winner_example =
    decide_ownership-winner rx signals rules compiled none 50 compiles refl

ambiguous-iff-tiebreaker_example :
    ((decide_ownership rx signals none compiled.0 50).decision ≡ Decision.ambiguous) ↔ (
      first_reason (decide_ownership rx signals none compiled.0 50).losing
      ≡ some Reason.tiebreaker_on_id)
unfolding override_active
ambiguous-iff-tiebreaker_example =
    ambiguous-iff-tiebreaker rx signals rules compiled none 50 compiles refl

compile_rules-IsRanked_example : All IsRanked compiled.0
compile_rules-IsRanked_example = compile_rules-IsRanked rx rules compiles

-- an id that is none of the two behind it
absent_of_two : {a b c : Text} → text_eq a b ≡ false → text_eq a c ≡ false → Mem a (b ∷ c ∷ []) → ⊥
absent_of_two {a} {b} {c} p q m =
    Or.elim ⊥_prop (mem-cons.0 m) (λ e. ground (arith, text_eq_iff a b))
      (λ m'. Or.elim ⊥_prop (mem-cons.0 m') (λ e. ground (arith, text_eq_iff a c)) not-mem-nil)

absent_of_one : {a b : Text} → text_eq a b ≡ false → Mem a (b ∷ []) → ⊥
absent_of_one {a} {b} p m =
    Or.elim ⊥_prop (mem-cons.0 m) (λ e. ground (arith, text_eq_iff a b)) not-mem-nil

distinct : Nodup (map rule_id_of rules)
unfolding text_eq
distinct = Nodup-cons.1 (
  absent_of_two refl refl,
  Nodup-cons.1 (absent_of_one refl, Nodup-cons.1 (not-mem-nil, Pairwise.nil)),
)

compile_rules_any_order_example :
    (c' : Compiled) × (compile_rules rx (by_group_too ∷ catch_all ∷ by_group ∷ []) ≡ ok c')
    × (compiled.0 ≡ c'.0)
compile_rules_any_order_example =
    compile_rules_any_order rx (Permᴰ.swap refl refl) distinct compiles

validated-CompilesLive_example : CompilesLive rx by_group
unfolding validate_rule_kind_and_tier validate_match_value tier_for_kind is_empty trim_space
    byte_len
validated-CompilesLive_example = validated-CompilesLive rx by_group none true refl refl

-- the group rules tie, and the fallback rule loses to their tier
decided : (decide_ownership rx signals none compiled.0 50).decision ≡ Decision.ambiguous
unfolding decide_ownership compile_rules compile_each compile_rule ordinal_of compile_kind
    sort_stable rule_less text_lt matches text_eq ties tier_eq
decided = refl

abbrev env : Env
env = record { rx = rx; new_id = λ n. n ∷ []; bulk_audit_threshold = 2 }

abbrev start : Pass
start = record {
  out = record {
    first_run = true;
    evaluated = 0;
    changed = 0;
    unchanged = 0;
    reclassified = 0;
    became_owned = 0;
    became_unowned = 0;
    flipped_owner = 0;
    created_unowned = 0;
    compile_failures = [];
    expired_overrides = [];
    audit_groups = [];
  };
  store = record { ownerships = []; overrides = []; explanations = []; next_id = 0 };
}

abbrev prior : Option CertificateOwnership
prior = get_certificate_ownership (codes "org") (codes "cert") start.store

abbrev passed : Pass
passed =
    process_decided env (codes "org") signals 50 prior
      (decide_ownership rx signals none compiled.0 50) (counted start)

passes : process_cert env (codes "org") signals 50 compiled.0 prior none start ≡ ok passed
unfolding override_expired
passes = process_cert-live env (codes "org") signals 50 compiled.0 prior none start refl

process_cert-IsBalanced_example : IsBalanced passed.out
process_cert-IsBalanced_example =
    process_cert-IsBalanced env (codes "org") signals 50 compiled.0 prior none start
      (record { total = refl; causes = omega arith; created = omega arith }) passes

process_cert-Written_example :
    Written env
      (codes "org")
      signals
      50
      prior
      (decide_ownership rx signals none compiled.0 50)
      passed
process_cert-Written_example =
    process_cert-Written env (codes "org") signals 50 compiled.0 none start passes

rederive-agrees_example :
    (res : RederiveResult) × (rederive_certificate env
        (codes "org")
        50
        (codes "cert")
        (some signals)
        rules
        none
        start.store
      ≡ ok (res, passed.store))
unfolding override_expired
rederive-agrees_example =
    rederive-agrees env (codes "org") signals 50 rules compiled none start compiles refl passes

process_cert_again_example :
    (p : Pass) × (process_cert env
        (codes "org")
        signals
        60
        compiled.0
        (get_certificate_ownership (codes "org") (codes "cert") passed.store)
        none
        passed
      ≡ ok p)
    × OnlyEvaluated passed p
unfolding override_expired
process_cert_again_example =
    process_cert_again env (codes "org") signals compiled.0 none 50 60 start refl refl passes

abbrev grouped : AuditGroups
grouped =
    add_audit AuditAction.assigned Decision.unowned Decision.matched (codes "r1") (codes "c1") 1 []

add_audit-AllRolled_example : AllRolled 1 grouped × (total grouped ≡ 1)
add_audit-AllRolled_example =
    add_audit-AllRolled AuditAction.assigned Decision.unowned Decision.matched (codes "r1")
      (codes "c1") 1 [] tt

abbrev explained : Text → ℕ → ExplanationRecord
explained id at = record { id = id; decided_at = at }

abbrev timeline : List ExplanationRecord
timeline = explained (codes "e1") 10 ∷ explained (codes "e2") 90 ∷ explained (codes "e3") 20 ∷ []

abbrev keep_one : RetentionPolicy
keep_one = record { keep_n = 1; max_age = 50 }

distinct_rows : Nodup (map record_id timeline)
unfolding text_eq
distinct_rows = Nodup-cons.1 (
  absent_of_two refl refl,
  Nodup-cons.1 (absent_of_one refl, Nodup-cons.1 (not-mem-nil, Pairwise.nil)),
)

select_any_order_example :
    select_explanations_to_prune timeline (codes "e3") keep_one 100
    ≡ select_explanations_to_prune
        (explained (codes "e2") 90 ∷ explained (codes "e1") 10 ∷ explained (codes "e3") 20 ∷ [])
        (codes "e3")
        keep_one
        100
select_any_order_example =
    select_any_order (codes "e3") keep_one 100 (Permᴰ.swap refl refl) distinct_rows

select-Expired_example :
    All
      (Expired (codes "e3") keep_one 100 timeline 1)
      (select_explanations_to_prune timeline (codes "e3") keep_one 100)
select-Expired_example = select-Expired (codes "e3") keep_one 100 timeline

select_all_example :
    Memᴰ (codes "e1") (select_explanations_to_prune timeline (codes "e3") keep_one 100)
unfolding text_eq text_lt
select_all_example =
    select_all (codes "e3") keep_one 100 timeline (explained (codes "e1") 10) (omega arith)
      (omega arith) (Memᴰ.head refl) (λ e. ground (arith, text_eq_iff (codes "e1") (codes "e3")))
      (omega arith) (omega arith)

-- the current row is spared, the old one goes
selected : select_explanations_to_prune timeline (codes "e3") keep_one 100 ≡ codes "e1" ∷ []
unfolding select_explanations_to_prune pruned_from sort_stable newer prunable text_eq
selected = refl

abbrev read : Text → Text → Option CertificateSignals
read org cert = if text_eq (codes "cert") cert then some signals else none

read-Answers : Answers read
read-Answers org cert sig e = ground (arith, text_eq_iff (codes "cert") cert)

abbrev create_input : CreateOverrideInput
create_input = record {
  organization_id = codes "org";
  actor_user_id = codes "u";
  certificate_id = codes " cert";
  service_id = codes "db";
  reason = codes "move";
  expires_at = some 70;
}

abbrev store_or_start : Outcome OverrideMutationError Store → Store
store_or_start (ok s) = s
store_or_start (err _) = start.store

abbrev created : Store
created =
    store_or_start
      (create_override env read (λ org svc. true) rules true create_input 50 start.store)

creates :
    create_override env read (λ org svc. true) rules true create_input 50 start.store ≡ ok created
unfolding create_override is_empty trim_space byte_len text_eq rederive_certificate compile_rules
    compile_each compile_rule ordinal_of compile_kind
creates = refl

create_override-IsPinned_example : IsPinned (new_override (env.new_id 0) create_input 50) created
create_override-IsPinned_example =
    create_override-IsPinned env read (λ org svc. true) rules true create_input 50 start.store
      created read-Answers creates

abbrev clear_input : ClearOverrideInput
clear_input = record {
  organization_id = codes "org";
  actor_user_id = codes "u";
  certificate_id = codes "cert ";
  reason = codes " done";
}

abbrev clearing : Outcome OverrideMutationError (CertificateOwnershipOverride × Store)
clearing = clear_override env read rules true clear_input 60 created created

abbrev answer_or_new :
    Outcome OverrideMutationError (CertificateOwnershipOverride × Store)
    → CertificateOwnershipOverride × Store
answer_or_new (ok x) = x
answer_or_new (err _) = (new_override (env.new_id 0) create_input 50, created)

abbrev cleared : CertificateOwnershipOverride × Store
cleared = answer_or_new clearing

clears : clearing ≡ ok (cleared.0, cleared.1)
unfolding clear_override create_override is_empty trim_space byte_len text_eq rederive_certificate
    compile_rules compile_each compile_rule ordinal_of compile_kind get_certificate_ownership
    write_decided upsert_certificate_ownership write_explanation clear_ownership_override
    build_ownership owner_changed decision_eq decide_ownership override_active sort_stable rule_less
    text_lt matches ties tier_eq
clears = refl

clear_override-IsRuled_example :
    IsRuled env (some signals) rules (codes "org") (codes "cert") 60 cleared.1
    × IsCleared cleared.0 (codes "u") (codes "done") 60
    × ((active : CertificateOwnershipOverride) × (get_active_ownership_override
            (codes "org")
            (codes "cert")
            created
          ≡ some active)
        × (get_ownership_override (codes "org") active.id cleared.1 ≡ some cleared.0))
unfolding trim_space create_override is_empty byte_len text_eq rederive_certificate compile_rules
    compile_each compile_rule ordinal_of compile_kind get_certificate_ownership write_decided
    upsert_certificate_ownership write_explanation
clear_override-IsRuled_example =
    clear_override-IsRuled env read rules true clear_input 60 created created cleared.1 cleared.0
      read-Answers (tt, tt) clears
