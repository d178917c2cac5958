-- ===== src/Lib.antt =====
-- Anchorix, the backend's governance and findings core.
--
-- The backend keeps an inventory of the certificates that agents observe. Two engines work on it.
-- The ownership engine (backend/internal/governance/ownership) decides which service owns a
-- certificate, by operator rules and overrides; the findings engine (backend/internal/findings)
-- evaluates rules on certificates and keeps one finding per certificate and rule through its life
-- cycle. The maintenance runner (backend/internal/governance/maintenance) runs paged jobs over the
-- scheduler rows of an organization.
--
-- Governance      backend/internal/governance/types.go: rules, ownership rows, overrides, signals.
-- Ownership       The ownership engine. Precedence (precedence.go), Pattern and Engine (engine.go:
--                 compileRules, matches), Decision (decision.go: decideOwnership), Validation
--                 (rule_validation.go), Store (explanation.go and the statements of
--                 backend/internal/storage/postgres/governance_ownership_repository.go), Recompute
--                 (recompute.go: processCert, accumAudit, addAudit), Rederive (rederive.go),
--                 Mutations (override_mutations.go: CreateOverride), Clearing (ClearOverride of
--                 the same file) and Retention (retention.go). The `Store` record holds the rows
--                 of the transaction; a `Pass` adds the counters of a recompute.
-- Maintenance     State (governance/scheduler.go and
--                 backend/internal/storage/postgres/governance_scheduler_repository.go), Registry
--                 (job.go, registry.go), Backoff and Runner (runner.go: RunDueJob, runPages). A
--                 `World` holds the scheduler rows, the advisory locks that are held, and how often
--                 clock, context and job were asked.
-- Findings        Rules (rules_certificate.go), Diff (service_diff.go), Override (service.go:
--                 AcknowledgeFinding, SuppressFinding), Pairs (the map of the matches by
--                 certificate and rule), Table (the statements of
--                 backend/internal/storage/postgres/findings_repository.go), Recompute
--                 (service.go: runDiffStreaming), Service (service.go: Recompute,
--                 RecomputeScheduled, the transaction and its audit row), LoadAll (service.go:
--                 runDiffLoadAll), Listing (service.go: ListFindings with its cursors, and the
--                 query of the repository).
-- Prelude         Shared: Boolean tests on the native numbers, lists, results, signed integers,
--                 strings as lists of code points, stable sorting, and Paging: the loop over the
--                 pages of a table in the order of a key.
--
-- Rules decide in the order that Engine.rule_less gives: Validation admits a rule, Engine compiles
-- it, Decision picks the first that matches, Recompute and Rederive write the rows. A recompute of
-- the findings collects the matches of the rules page by page, streams the findings of the
-- organization through Diff, inserts what is left, and commits the table with the audit row.
--
-- Parameters: Go's regexp (`Regexp`), fresh identifiers (`Env.new_id`), reads of tables outside
-- the model (`Mutations`: signals, services), the clock, the context's cancellation, the jobs and
-- the hash of a lock key (`Runner`, `Job`), the order of a `range` over a map (`Inputs.range`),
-- base64 and the format of times in a cursor (`Codec`), and whether the audit log takes a row
-- (`audited`). A string is valid UTF-8. Times are nanoseconds on the native numbers; where the
-- code compares or adds only, nothing is lost. The backoff is in 64-bit arithmetic with its
-- wrap-around. The page loop is recursion on the pages that are left of MaxPagesPerRun, which the
-- source counts up to the same bound. The loops over the pages of a table (`Paging.walk_pages`)
-- get one round more than the table has rows: a round that is not the last reads a row or more.
--
-- Not modelled: failures of the database other than a missing row and a clash of a unique key,
-- logging, JSON encoding, the streaming pass over the certificates in the ownership recompute, the
-- mutations of rules, HTTP, authentication, the inventory and its agents.
pub mod Findings
pub mod Governance
pub mod Maintenance
pub mod Ownership
pub mod Prelude
