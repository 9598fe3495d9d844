-- ===== src/Master/Terminal.antt =====
-- crates/cvd-master/src/aggregate.rs, and what every path to a terminal status does after it: the
-- workers that still point at the job in `worker_active_jobs` are let go.
use cvdbench.Base.{ℕ, List, [], ◌∷◌, Option, none, some, Text, text_eq, ite}
use cvdbench.Base.Map.{Map, lookup, remove, values}
use cvdbench.Proto.Reports.{JobStatus}
use cvdbench.Metrics.{Platform}
use cvdbench.Metrics.Aggregate.{aggregate}
use cvdbench.Master.State.{JobRecord, JobError}
use cvdbench.Master.Job.{cleanup_on_terminal}

module _ ⦃pf : Platform⦄ where
  unfoldable pub aggregate_into_record : ℕ → JobRecord → JobRecord
  aggregate_into_record now_ms r =
      let summary = aggregate (values r.worker_results) in
      record r {
        aggregated = some summary.aggregated;
        window_misaligned = summary.window_misaligned;
        missing_histogram_count = summary.missing_histogram_count;
        success_worker_count = summary.success_worker_count;
        terminal_at_ms = elim r.terminal_at_ms [ none ↦ some now_ms | some t ↦ some t ];
      }

  -- The steps that every transition to a terminal status makes: status, error, result, cleanup.
  unfoldable pub finish : JobStatus → Option JobError → ℕ → JobRecord → JobRecord
  unfolding aggregate_into_record cleanup_on_terminal
  finish status error now_ms r =
      cleanup_on_terminal
        (aggregate_into_record now_ms (record r { status = status; error = error }))

-- `if active.get(w) == Some(job_id) { active.remove(w) }`.
unfoldable pub release_worker : Text → Text → Map Text → Map Text
release_worker job_id w active = elim (lookup w active) [
  | none ↦ active
  | some j ↦ ite (text_eq j job_id) (remove w active) active
]

unfoldable pub release_workers : Text → List Text → Map Text → Map Text
unfolding release_worker
release_workers job_id [] active = active
release_workers job_id (w ∷ ws) active = release_workers job_id ws (release_worker job_id w active)
