-- ===== src/Findings/Table.antt =====
-- storage/postgres/findings_repository.go: the rows of the `findings` table, in the order of their
-- insertion, and the statements of a recompute. A row that breaks the primary key or the unique
-- (organization_id, certificate_id, rule_id) of migrations/0001 is refused. A page size below 1,
-- which `ListAllFindingsForOrgPaged` refuses, does not occur (Recompute's page size is positive).
pub mod Laws
pub mod Writes
pub mod Listing
use anchorix.Prelude.{
  ℕ, Option, none, some, Bool, ◌&&◌, ◌||◌, List, [], ◌∷◌, ◌++◌, map, any, filter, if◌then◌else◌,
  Outcome, ok, err,
}
use anchorix.Prelude.Text.{Text, text_eq}
use anchorix.Findings.{Finding}
use anchorix.Findings.Diff.{DiffOp, FindingsError, Transition}

pub data RecomputeError : Type 0 where
  invalid_recompute_input internal_audit : RecomputeError
  nil_finding unique_violation finding_not_found : RecomputeError
  diff : FindingsError → RecomputeError

abbrev pub Table : Type 0
Table = List Finding

unfoldable pub same_pair : Text → Text → Text → Finding → Bool
same_pair organization certificate rule f =
    text_eq organization f.organization_id
    && (text_eq certificate f.certificate_id && text_eq rule f.rule_id)

-- the two rows cannot stand in the table together
unfoldable pub clashes : Finding → Finding → Bool
unfolding same_pair
clashes f g = text_eq f.id g.id || same_pair f.organization_id f.certificate_id f.rule_id g

-- `INSERT INTO findings`
unfoldable pub insert_finding : Option Finding → Table → Outcome RecomputeError Table
unfolding clashes
insert_finding none table = err RecomputeError.nil_finding
insert_finding (some f) table =
    if any (clashes f) table then err RecomputeError.unique_violation else ok (table ++ f ∷ [])

-- `WHERE id = $1 AND organization_id = $2`
unfoldable pub is_row_of : Finding → Finding → Bool
is_row_of f r = text_eq f.id r.id && text_eq f.organization_id r.organization_id

-- the columns of the `SET` list
abbrev pub set_columns : Finding → Finding → Finding
set_columns f r = record r {
  rule_version = f.rule_version;
  severity = f.severity;
  status = f.status;
  title = f.title;
  evidence = f.evidence;
  last_seen_at = f.last_seen_at;
  resolved_at = f.resolved_at;
  updated_at = f.updated_at;
  status_reason = f.status_reason;
  status_actor = f.status_actor;
  status_changed_at = f.status_changed_at;
  suppress_expires_at = f.suppress_expires_at;
}

unfoldable pub write_rows : Finding → Table → Table
unfolding is_row_of
write_rows f [] = []
write_rows f (r ∷ rows) = (if is_row_of f r then set_columns f r else r) ∷ write_rows f rows

-- `UPDATE findings … WHERE id = $1 AND organization_id = $2`
unfoldable pub update_finding : Option Finding → Table → Outcome RecomputeError Table
unfolding is_row_of write_rows
update_finding none table = err RecomputeError.nil_finding
update_finding (some f) table =
    if any (is_row_of f) table
    then ok (write_rows f table)
    else err RecomputeError.finding_not_found

-- findings/service_diff.go
unfoldable pub apply_decision : Option Finding → DiffOp → Table → Outcome RecomputeError Table
unfolding insert_finding update_finding
apply_decision next DiffOp.no_change table = ok table
apply_decision next DiffOp.insert table = insert_finding next table
apply_decision next DiffOp.update table = update_finding next table

-- `WHERE organization_id = $1`
unfoldable pub rows_of : Text → Table → Table
rows_of organization table = filter (λ r. text_eq organization r.organization_id) table

-- the row of a certificate and a rule
unfoldable pub find_row : Text → Text → Text → Table → Option Finding
unfolding same_pair
find_row organization certificate rule [] = none
find_row organization certificate rule (r ∷ rows) =
    if same_pair organization certificate rule r
    then some r
    else find_row organization certificate rule rows
