-- ===== src/Master/Delete.antt =====
-- `delete_job` of crates/cvd-master/src/service/cli_rpc.rs: a client cancels a job.
use cvdbench.Base.{none, some, Text, if◌then◌else◌}
use cvdbench.Base.Map.{lookup, insert, keys}
use cvdbench.Proto.Reports.{JobStatus, cancelled, status_change}
use cvdbench.Metrics.{Platform}
use cvdbench.Master.State.{JobRecord, MasterState, Now}
use cvdbench.Master.Job.{is_terminal, is_pending}
use cvdbench.Master.Pending
use cvdbench.Master.Events.{emit_for_job, finalize_stream}
use cvdbench.Master.Terminal.{finish, release_workers}
use cvdbench.Master.Replies.{Reply, ok, refused, not_found}

-- A job that was still waiting leaves the queue.
unfoldable pub leave_queue : JobStatus → Text → MasterState → MasterState
leave_queue prev_status job_id s =
    if is_pending prev_status
    then record s { pending_queue = (Pending.remove s.pending_queue job_id).0 }
    else s

module _ ⦃pf : Platform⦄ where
  unfoldable pub cancel_job : Text → Now → JobRecord → MasterState → MasterState
  unfolding finish finalize_stream leave_queue
  cancel_job job_id now r s =
      let r' = finish cancelled r.error now.unix_ms r in
      let s₁ = emit_for_job (record s { jobs = insert job_id r' s.jobs }) r' status_change now in
      let s₂ = leave_queue r.status job_id (finalize_stream s₁ job_id) in
      record s₂ {
        worker_active_jobs =
            release_workers job_id (keys r.worker_assignments) s₂.worker_active_jobs;
      }

  unfoldable pub delete_job : Text → Now → MasterState → Reply (Unit {0}) × MasterState
  unfolding cancel_job
  delete_job job_id now s = elim (lookup job_id s.jobs) [
    | none ↦ (refused (not_found job_id), s)
    | some r ↦ (ok tt, if is_terminal r then s else cancel_job job_id now r s)
  ]
