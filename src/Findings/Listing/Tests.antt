-- ===== src/Findings/Listing/Tests.antt =====
-- A list of two findings, read one by one.
use anchorix.Prelude.Sort.{sort_stable}
use anchorix.Prelude.{ℕ, ◌+◌, ◌-◌, ◌≡◌, refl, Option, none, some, false, List, [], ◌∷◌, ok, arith}
use anchorix.Prelude.Int.{pos}
use anchorix.Prelude.Text.{Text, codes, is_empty, text_eq, text_lt, trim_space}
use anchorix.Findings.{Severity, Evidence, Finding, Rule}
use anchorix.Findings.Diff.{new_finding}
use anchorix.Findings.Listing.{
  Codec, ListQuery, RowQuery, encode_finding_cursor, decode_finding_cursor, normalize_list_query,
  newest_first, passes,
}
use anchorix.Findings.Listing.Cursor.{decode-encode_finding_cursor}
use anchorix.Findings.Listing.Pages.{follow, matching}
use anchorix.Findings.Listing.Complete.{follow-matching}

abbrev unwrap : Text → Option Text
unwrap [] = none
unwrap (c ∷ s) = some s

abbrev instant : Text → Option ℕ
instant (c ∷ []) = some (c - 200)
instant _ = none

plain_instant : (t : ℕ) → (t + 200) - 200 ≡ t
plain_instant t = omega arith

codec : Codec
codec = record {
  encode = λ s. 1 ∷ s;
  decode = unwrap;
  format = λ t. (t + 200) ∷ [];
  parse = instant;
  decode-encode = λ s. refl;
  encode_empty = λ s h. h_lem s;
  parse-format = λ t. rw (plain_instant t) refl;
  format_plain = λ t. (ground arith, tt);
  format_empty = λ t. t_lem t;
}
  where
    h_lem : (s : Text) → is_empty (1 ∷ s) ≡ false
    h_lem s = unfold is_empty in refl

    t_lem : (t : ℕ) → is_empty ((t + 200) ∷ []) ≡ false
    t_lem t = unfold is_empty in refl

abbrev self_signed : Rule
self_signed = record {
  id = codes "self_signed_leaf";
  version = 1;
  severity = Severity.medium;
  title = codes "Self-signed leaf certificate";
  evaluate = λ cert now. none;
}

abbrev finding : Text → ℕ → Finding
finding id now =
    new_finding id (codes "org") (codes "c") self_signed
      (Evidence.self_signed_leaf_evidence (codes "CN=a")) now

abbrev table : List Finding
table = finding (codes "a|b") 5 ∷ finding (codes "b") 7 ∷ []

abbrev query : ListQuery
query = record {
  organization_id = codes "org";
  status = [];
  severity = [];
  rule_id = [];
  certificate_id = [];
  limit = pos 1;
  cursor = [];
}

abbrev row_query : RowQuery
row_query = record {
  organization_id = codes "org";
  status = codes "open";
  severity = [];
  rule_id = [];
  certificate_id = [];
  limit = 2;
  cursor_last_seen_at = 0;
  cursor_id = [];
}

decode-encode_finding_cursor_example :
    decode_finding_cursor codec (encode_finding_cursor codec 5 (codes "a|b")) ≡ ok (5, codes "a|b")
unfolding is_empty
decode-encode_finding_cursor_example = decode-encode_finding_cursor codec 5 (codes "a|b") refl

follow-matching_example : follow codec table query 3 [] ≡ some (ok (matching row_query table))
unfolding normalize_list_query is_empty trim_space text_eq sort_stable passes newest_first
follow-matching_example =
    follow-matching codec table query row_query refl ((refl, tt), (tt, tt))
      ((omega arith, refl), ((omega arith, refl), tt)) 3 (omega arith)

follow_runs :
    follow codec table query 2 [] ≡ some (ok (finding (codes "b") 7 ∷ finding (codes "a|b") 5 ∷ []))
unfolding follow is_empty trim_space text_eq sort_stable codec text_lt
follow_runs = refl
