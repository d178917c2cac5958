-- ===== src/Findings/Listing.antt =====
-- findings/service.go, ListFindings with its cursor, and the query behind it in
-- storage/postgres/findings_repository.go. base64.RawURLEncoding and the RFC 3339 format of times
-- are parameters. The instant 0 is Go's zero time.
pub mod Cursor
pub mod Pages
pub mod Follows
pub mod Complete
mod Tests
use anchorix.Prelude.{
  ℕ, ◌+◌, ◌-◌, ◌≡◌, ◌≢◌, Option, none, some, Bool, true, false, not, ◌&&◌, ◌||◌, List, [], ◌∷◌,
  ◌++◌, length, take, filter, ltb, ◌==◌, if◌then◌else◌, Outcome, ok, err, ◌>>=◌, ◌>>◌, refuse_if,
  All,
}
use anchorix.Prelude.Int.{ℤ, pos, negsuc}
use anchorix.Prelude.Sort.{sort_stable}
use anchorix.Prelude.Text.{Text, codes, text_eq, text_lt, trim_space, is_empty}
use anchorix.Findings.{Severity, Status, Finding}

pub data ListError : Type 0 where
  organization_id_required finding_id_required invalid_status_filter invalid_severity_filter :
      ListError
  limit_not_positive limit_exceeds malformed_cursor : ListError

-- `|`
abbrev pub separator : ℕ
separator = 0x7c

-- what the code relies on of encoding/base64 and time
pub record Codec : Type 0 where
  pub encode : Text → Text
  pub decode : Text → Option Text
  pub format : ℕ → Text
  pub parse : Text → Option ℕ
  pub decode-encode : (s : Text) → decode (encode s) ≡ some s
  pub encode_empty : (s : Text) → is_empty s ≡ false → is_empty (encode s) ≡ false
  pub parse-format : (t : ℕ) → parse (format t) ≡ some t
  pub format_plain : (t : ℕ) → All (λ c. (c == separator) ≡ false) (format t)
  pub format_empty : (t : ℕ) → is_empty (format t) ≡ false

-- `strings.SplitN(s, "|", 2)`, where it has two parts
unfoldable pub split_pair : Text → Option (Text × Text)
split_pair [] = none
split_pair (c ∷ s) =
    if c == separator
    then some ([], s)
    else elim (split_pair s) [ none ↦ none | some (a, b) ↦ some (c ∷ a, b) ]

module _ (codec : Codec) where
  unfoldable pub encode_finding_cursor : ℕ → Text → Text
  encode_finding_cursor last_seen_at id = codec.encode (codec.format last_seen_at ++ separator ∷ id)

  -- the parts of a decoded cursor
  unfoldable pub decode_parts : Option (Text × Text) → Outcome ListError (ℕ × Text)
  decode_parts none = err ListError.malformed_cursor
  decode_parts (some (at, id)) =
      if is_empty at || is_empty id
      then err ListError.malformed_cursor
      else elim (codec.parse at) [ none ↦ err ListError.malformed_cursor | some t ↦ ok (t, id) ]

  unfoldable pub decode_finding_cursor : Text → Outcome ListError (ℕ × Text)
  unfolding split_pair decode_parts
  decode_finding_cursor raw = if is_empty raw then ok (0, []) else elim (codec.decode raw) [
    | none ↦ err ListError.malformed_cursor
    | some s ↦ decode_parts (split_pair s)
  ]

abbrev pub default_list_limit : ℕ
default_list_limit = 50

abbrev pub max_list_limit : ℕ
max_list_limit = 200

unfoldable pub normalize_limit : ℤ → Outcome ListError ℕ
normalize_limit (negsuc n) = err ListError.limit_not_positive
normalize_limit (pos n) =
    if n == 0
    then ok default_list_limit
    else if ltb max_list_limit n
    then err ListError.limit_exceeds
    else ok n

-- the filters are the strings of the request
pub record ListQuery : Type 0 where
  pub organization_id : Text
  pub status : Text
  pub severity : Text
  pub rule_id : Text
  pub certificate_id : Text
  pub limit : ℤ
  pub cursor : Text

-- what the repository gets: the limit has the sentinel row, the cursor is decoded
pub record RowQuery : Type 0 where
  pub organization_id : Text
  pub status : Text
  pub severity : Text
  pub rule_id : Text
  pub certificate_id : Text
  pub limit : ℕ
  pub cursor_last_seen_at : ℕ
  pub cursor_id : Text

abbrev pub one_of : Text → List Text → Bool
one_of s [] = false
one_of s (t ∷ ts) = text_eq s t || one_of s ts

abbrev pub status_filters : List Text
status_filters =
    codes ""
    ∷ codes "open"
    ∷ codes "resolved"
    ∷ codes "acknowledged"
    ∷ codes "suppressed"
    ∷ codes "all"
    ∷ []

abbrev pub severity_filters : List Text
severity_filters =
    codes "info" ∷ codes "low" ∷ codes "medium" ∷ codes "high" ∷ codes "critical" ∷ []

-- the checks of the query, and its limit
unfoldable pub list_limit : (organization status severity : Text) → ℤ → Outcome ListError ℕ
unfolding normalize_limit
list_limit organization status severity limit =
    refuse_if (is_empty (trim_space organization)) ListError.organization_id_required
    >> refuse_if (not (one_of status status_filters)) ListError.invalid_status_filter
    >> refuse_if (not (is_empty severity) && not (one_of severity severity_filters))
        ListError.invalid_severity_filter
    >> normalize_limit limit

unfoldable pub normalize_list_query : Codec → ListQuery → Outcome ListError RowQuery
unfolding list_limit decode_finding_cursor
normalize_list_query codec q = list_limit q.organization_id q.status q.severity q.limit >>= λ limit.
    decode_finding_cursor codec q.cursor >>= λ cursor. ok (record {
      organization_id = q.organization_id;
      status = if is_empty q.status then codes "open" else q.status;
      severity = q.severity;
      rule_id = q.rule_id;
      certificate_id = q.certificate_id;
      limit = limit + 1;
      cursor_last_seen_at = cursor.0;
      cursor_id = cursor.1;
    })

abbrev pub severity_text : Severity → Text
severity_text Severity.info = codes "info"
severity_text Severity.low = codes "low"
severity_text Severity.medium = codes "medium"
severity_text Severity.high = codes "high"
severity_text Severity.critical = codes "critical"

abbrev pub status_text : Status → Text
status_text Status.«open» = codes "open"
status_text Status.resolved = codes "resolved"
status_text Status.acknowledged = codes "acknowledged"
status_text Status.suppressed = codes "suppressed"
status_text (Status.other s) = s

-- a filter that is left out accepts all
abbrev pub accepts : Text → Text → Bool
accepts wanted value = is_empty wanted || text_eq value wanted

-- `f.last_seen_at < $at OR (f.last_seen_at = $at AND f.id > $id)`
unfoldable pub comes_after : ℕ → Text → Finding → Bool
comes_after at id f = ltb f.last_seen_at at || ((f.last_seen_at == at) && text_lt id f.id)

-- the conditions of the query but for the cursor
unfoldable pub passes : RowQuery → Finding → Bool
passes q f =
    text_eq f.organization_id q.organization_id
    && ((text_eq q.status (codes "all") || text_eq (status_text f.status) q.status)
        && (accepts q.severity (severity_text f.severity)
            && (accepts q.rule_id f.rule_id && accepts q.certificate_id f.certificate_id)))

unfoldable pub behind_cursor : RowQuery → Finding → Bool
unfolding comes_after
behind_cursor q f = (q.cursor_last_seen_at == 0) || comes_after q.cursor_last_seen_at q.cursor_id f

-- `ORDER BY f.last_seen_at DESC, f.id ASC`
unfoldable pub newest_first : Finding → Finding → Bool
unfolding comes_after
newest_first f g = comes_after f.last_seen_at f.id g

-- the repository's ListFindings
unfoldable pub list_rows : RowQuery → List Finding → List Finding
unfolding passes behind_cursor newest_first
list_rows q table =
    take q.limit (sort_stable newest_first (filter (λ f. passes q f && behind_cursor q f) table))

pub record ListResult : Type 0 where
  pub items : List Finding
  pub next_cursor : Text

abbrev pub last_cursor : Codec → List Finding → Text
last_cursor codec [] = []
last_cursor codec (f ∷ []) = encode_finding_cursor codec f.last_seen_at f.id
last_cursor codec (f ∷ g ∷ fs) = last_cursor codec (g ∷ fs)

-- the page, and the cursor behind its last row if the sentinel row is there
unfoldable pub page_of : Codec → ℕ → List Finding → ListResult
unfolding encode_finding_cursor
page_of codec want rows =
    if ltb want (length rows)
    then record { items = take want rows; next_cursor = last_cursor codec (take want rows) }
    else record { items = rows; next_cursor = [] }

unfoldable pub list_findings : Codec → List Finding → ListQuery → Outcome ListError ListResult
unfolding normalize_list_query list_rows page_of
list_findings codec table q =
    normalize_list_query codec q >>= λ row. ok (page_of codec (row.limit - 1) (list_rows row table))
