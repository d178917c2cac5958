-- ===== src/Maintenance/Registry.antt =====
-- maintenance/job.go and maintenance/registry.go: jobs, and the immutable set of registered ones.
pub mod Laws
use anchorix.Prelude.{
  ℕ, zero, suc, ◌+◌, Option, none, some, Bool, true, false, List, [], ◌∷◌, if◌then◌else◌, Outcome,
  ok, err, ◌>>=◌, map, is_some,
}
use anchorix.Prelude.Text.{Text, text_eq, text_lt, is_empty}
use anchorix.Prelude.Sort.{sort_stable}

pub record PageLimits : Type 0 where
  pub page_size : ℕ

pub record PageResult : Type 0 where
  pub next_cursor : Text
  pub done : Bool
  pub items_scanned : ℕ
  pub items_changed : ℕ

-- `run_page k` is what the job's k-th page call answers: a page reads and writes the database,
-- which changes from call to call. An error is its text.
pub record Job : Type 0 where
  pub name : Text
  pub run_page : ℕ → Text → Text → PageLimits → Outcome Text PageResult

pub data RegistryError : Type 0 where
  job_is_nil : ℕ → RegistryError
  job_has_empty_name : ℕ → RegistryError
  duplicate_job_name : Text → RegistryError

-- the map from names to jobs, latest entry first
pub record JobRegistry : Type 0 where
  pub jobs : List (Text × Job)

unfoldable pub find_in : Text → List (Text × Job) → Option Job
find_in name [] = none
find_in name ((n, j) ∷ m) = let rest = find_in name m in if text_eq n name then some j else rest

-- the loop of `NewJobRegistry` from index `i`; a nil job is `none`
unfoldable pub register :
    ℕ → List (Option Job) → List (Text × Job) → Outcome RegistryError (List (Text × Job))
register i [] m = ok m
register i (none ∷ js) m = err (RegistryError.job_is_nil i)
register i (some j ∷ js) m =
    let rest = register (i + 1) js ((j.name, j) ∷ m) in
    if is_empty j.name
    then err (RegistryError.job_has_empty_name i)
    else if is_some (find_in j.name m)
    then err (RegistryError.duplicate_job_name j.name)
    else rest

unfoldable pub new_job_registry : List (Option Job) → Outcome RegistryError JobRegistry
unfolding register
new_job_registry jobs = do m ← register 0 jobs []; ok (record { jobs = m })

-- `none` is `ErrUnknownJob`
unfoldable pub lookup_job : JobRegistry → Text → Option Job
unfolding find_in
lookup_job r name = find_in name r.jobs

unfoldable pub names : JobRegistry → List Text
names r = sort_stable text_lt (map (λ (e : Text × Job). e.0) r.jobs)
