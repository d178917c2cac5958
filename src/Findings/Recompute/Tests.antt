-- ===== src/Findings/Recompute/Tests.antt =====
-- A recompute of an organization with one self-signed certificate, whose table holds a finding of a
-- certificate that is gone and a finding of another organization.
use anchorix.Prelude.Sort.{sort_stable}
use anchorix.Prelude.{
  suc, ◌≡◌, refl, ◌∙◌, Option, some, true, false, ◌&&◌, [], ◌∷◌, length, ok, err, Outcome, arith,
}
use anchorix.Prelude.Text.{Text, codes, text_eq, text_lt, trim_space, is_empty}
use anchorix.Prelude.Paging.{walk_pages, read_page}
use anchorix.Findings.{Severity, Evidence, Finding, CertificateSummary, Rule}
use anchorix.Findings.Rules.{evaluate_self_signed_leaf}
use anchorix.Findings.Diff.{new_finding, decide_match_transition, decide_no_match_transition}
use anchorix.Findings.Pairs.{MatchKey, key_eq, get}
use anchorix.Findings.Pairs.Laws.{UniqueKeys}
use anchorix.Findings.Table.{Table, RecomputeError, find_row, rows_of, clashes}
use anchorix.Findings.Table.Laws.{IsTable}
use anchorix.Findings.Recompute.{
  Inputs, Matches, DiffSummary, RecomputeResult, run_diff_streaming, collect_matches,
  effective_streaming_page_size,
}
use anchorix.Findings.Recompute.Spec.{recomputed, pair_match}
use anchorix.Findings.Recompute.Matching.{collect_matches_lem}
use anchorix.Findings.Recompute.Phases.{IsSetting}
use anchorix.Findings.Recompute.Refines.{run_diff_streaming-recomputed}
use anchorix.Findings.LoadAll.{run_diff_load_all}
use anchorix.Findings.LoadAll.Agrees.{run_diff_load_all-streaming}
use anchorix.Findings.Service.{Store, RecomputeInput, recompute, actor_of, actor_type_of}
use anchorix.Findings.Service.Atomic.{Recorded, recompute-Recorded, Together, recompute_atomic}

-- distinct ids for distinct pairs
abbrev joined : Text → Text → Text
joined [] r = 0 ∷ r
joined (c ∷ s) r = suc c ∷ joined s r

joined-eq : (a b c d : Text) → text_eq (joined a b) (joined c d) ≡ (text_eq a c && text_eq b d)
unfolding text_eq
joined-eq [] b [] d = refl
joined-eq [] b (y ∷ c) d = ground arith
joined-eq (x ∷ a) b [] d = ground arith
joined-eq (x ∷ a) b (y ∷ c) d = ground (arith, joined-eq a b c d)

abbrev self_signed : Rule
self_signed = record {
  id = codes "self_signed_leaf";
  version = 1;
  severity = Severity.medium;
  title = codes "Self-signed leaf certificate";
  evaluate = evaluate_self_signed_leaf;
}

abbrev cert : CertificateSummary
cert = record {
  id = codes "c1";
  subject = codes "CN=a";
  signature_alg = codes "SHA256-RSA";
  public_key_alg = codes "RSA";
  public_key_bits = 4096;
  not_before = 1000;
  not_after = 5000;
  is_self_signed = true;
  is_ca = false;
}

abbrev evidence : Evidence
evidence = Evidence.self_signed_leaf_evidence (codes "CN=a")

abbrev gone : Finding
gone = new_finding (codes "f1") (codes "org") (codes "c2") self_signed evidence 100

abbrev other : Finding
other = new_finding (codes "f2") (codes "elsewhere") (codes "c1") self_signed evidence 100

abbrev table : Table
table = gone ∷ other ∷ []

abbrev inputs : Inputs
inputs = record {
  rules = self_signed ∷ [];
  organization_id = codes "org";
  now = 200;
  certs = cert ∷ [];
  new_id = λ k. 0 ∷ joined k.cert_id k.rule_id;
  range = λ m. m;
}

setting : IsSetting inputs table
unfolding text_lt clashes text_eq key_eq
setting = record {
  rules = (tt, tt);
  certs = (tt, tt);
  cert_ids = (refl, tt);
  constraints = ((refl, tt), (tt, tt));
  row_ids = (refl, (refl, tt));
  supported = (refl, (refl, tt));
  range_once = λ m u. u;
  range_all = λ m k u. refl;
  fresh = λ k. (refl, (refl, tt));
  new_ids = λ j k apart. joined-eq j.cert_id j.rule_id k.cert_id k.rule_id ∙ apart;
}

-- one finding is inserted
abbrev left : Option (Outcome RecomputeError (Table × DiffSummary)) → Table
left (some (ok (t, d))) = t
left _ = []

run_diff_streaming_runs : length (left (run_diff_streaming inputs 1 table)) ≡ 3
unfolding run_diff_streaming walk_pages read_page sort_stable text_lt text_eq
    evaluate_self_signed_leaf decide_no_match_transition decide_match_transition
run_diff_streaming_runs = refl

collect_matches_lem_example :
    (m : Matches) × (collect_matches inputs 1 ≡ some (ok (1, m)))
    × UniqueKeys m
    × ((k : MatchKey) → get k m ≡ pair_match inputs.certs inputs.rules inputs.now k)
collect_matches_lem_example =
    collect_matches_lem inputs 1 (omega arith) setting.rules setting.certs setting.cert_ids

run_diff_streaming-recomputed_example :
    (table' : Table) × (d : DiffSummary) × (run_diff_streaming inputs 1 table
      ≡ some (ok (table', d)))
    × IsTable table'
    × ((o c r : Text) → find_row o c r table' ≡ recomputed inputs table o c r)
    × (d.loaded_certificates ≡ 1)
    × (d.loaded_findings ≡ length (rows_of (codes "org") table))
run_diff_streaming-recomputed_example =
    run_diff_streaming-recomputed inputs 1 table (omega arith) setting

run_diff_load_all-streaming_example :
    (a b : Table) × (d e : DiffSummary) × (run_diff_load_all inputs (λ m. m) table ≡ ok (a, d))
    × (run_diff_streaming inputs 1 table ≡ some (ok (b, e)))
    × ((o c r : Text) → find_row o c r a ≡ find_row o c r b)
    × (d.loaded_certificates ≡ e.loaded_certificates)
    × (d.loaded_findings ≡ e.loaded_findings)
run_diff_load_all-streaming_example =
    run_diff_load_all-streaming inputs 1 (λ m. m) table (omega arith)
      (record { once = λ m u. u; all = λ m k u. refl }) setting

abbrev store : Store
store = record { table = table; audit = [] }

abbrev request : RecomputeInput
request = record { organization_id = codes "org"; actor_user_id = codes "u1" }

recompute-Recorded_example :
    ((result : RecomputeResult) × (store' : Store) × (recompute (λ _. inputs) 0 true request store
        ≡ some (ok result, store'))
      × Recorded inputs (actor_of request) (actor_type_of request) store result store')
    × (recompute (λ _. inputs) 0 false request store
        ≡ some (err RecomputeError.internal_audit, store))
unfolding is_empty trim_space
recompute-Recorded_example = recompute-Recorded (λ _. inputs) 0 request store refl setting

abbrev refused : Outcome RecomputeError RecomputeResult
refused = err RecomputeError.internal_audit

recompute_atomic_example :
    Together inputs 500 false (actor_of request) (actor_type_of request) store refused store
unfolding effective_streaming_page_size is_empty trim_space
recompute_atomic_example =
    recompute_atomic (λ _. inputs) 0 false request store refused store
      ((recompute-Recorded (λ _. inputs) 0 request store refl setting).1)
