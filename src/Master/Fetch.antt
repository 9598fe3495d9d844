-- ===== src/Master/Fetch.antt =====
-- crates/cvd-master/src/scheduler/fetch_job.rs: a worker asks for a job.
use cvdbench.Base.{
  ℕ, ◌^◌, true, false, List, [], ◌∷◌, Option, none, some, Text, if◌then◌else◌, ltb, ◌==◌,
}
use cvdbench.Base.Map.{Map, lookup, insert, remove}
use cvdbench.Proto.Reports.{status_change}
use cvdbench.WorkerId.{validate, valid, invalid}
use cvdbench.Master.State.{JobRecord, WorkerAssignment, MasterState, Now}
use cvdbench.Master.Job.{
  try_assign, touch, enter_preparing, slots_remaining, is_terminal, is_pending,
}
use cvdbench.Master.Pending.{pop_if_front}
use cvdbench.Master.Events.{emit_for_job}
use cvdbench.Master.Manifest.{start_for_file_queue_job}
use cvdbench.Master.Replies.{Reply, ok, refused, bad_worker_id, FetchJobResponse, no_job}

-- `i32::try_from(index).unwrap_or(0)`.
abbrev pub index_to_i32 : ℕ → ℕ
index_to_i32 i = if ltb i (2 ^ 31) then i else 0

unfoldable pub assigned_response : Text → JobRecord → WorkerAssignment → Now → FetchJobResponse
assigned_response job_id r a now = record {
  job_id = some job_id;
  spec = some r.spec_redacted;
  mount_point = some r.mount_point;
  worker_index = some (index_to_i32 a.worker_index);
  s3_credentials = r.credentials;
  master_now_ms = now.unix_ms;
}

-- The job that the worker is bound to, if it still runs and has the worker.
unfoldable pub bound_job : Text → Text → Map JobRecord → Option (JobRecord × WorkerAssignment)
bound_job worker_id job_id jobs = elim (lookup job_id jobs) [
  | none ↦ none
  | some r ↦
      if is_terminal r
      then none
      else elim (lookup worker_id r.worker_assignments) [ none ↦ none | some a ↦ some (r, a) ]
]

-- The last slot is filled: the job starts its preparation and leaves the queue.
unfoldable pub start_front : Now → Text → JobRecord → MasterState → MasterState
unfolding pop_if_front enter_preparing start_for_file_queue_job
start_front now top_id r s =
    let r' = start_for_file_queue_job s.config (enter_preparing now.instant r) in
    let s' = emit_for_job (record s { jobs = insert top_id r' s.jobs }) r' status_change now in
    record s' { pending_queue = (pop_if_front s'.pending_queue top_id).0 }

-- The front job gets the worker.
unfoldable pub assign_front :
    Text
    → Now
    → Text
    → List Text
    → WorkerAssignment
    → JobRecord
    → MasterState
    → FetchJobResponse × MasterState
unfolding start_front assigned_response slots_remaining
assign_front worker_id now top_id rest a r s =
    let s' = record s {
      jobs = insert top_id r s.jobs;
      pending_queue = top_id ∷ rest;
      worker_active_jobs = insert worker_id top_id s.worker_active_jobs;
    } in
    (
      assigned_response top_id r a now,
      if slots_remaining r == 0 then start_front now top_id r s' else s',
    )

-- The loop over the queue: entries whose job is gone or no longer PENDING are popped.
unfoldable pub schedule : Text → Now → List Text → MasterState → FetchJobResponse × MasterState
unfolding assign_front
schedule worker_id now [] s = (no_job now, record s { pending_queue = [] })
schedule worker_id now (top_id ∷ rest) s = elim (lookup top_id s.jobs) [
  | none ↦ schedule worker_id now rest s
  | some r ↦ elim (is_pending r.status) [
    | false ↦ schedule worker_id now rest s
    | true ↦ elim (try_assign worker_id now.instant r) [
      | none ↦
          schedule worker_id now rest
            (record s { jobs = insert top_id (enter_preparing now.instant r) s.jobs })
      | some (a, r') ↦ assign_front worker_id now top_id rest a r' s
    ]
  ]
]

unfoldable pub fetch_bound : Text → Now → MasterState → FetchJobResponse × MasterState
unfolding bound_job assigned_response schedule
fetch_bound worker_id now s = elim (lookup worker_id s.worker_active_jobs) [
  | none ↦ schedule worker_id now s.pending_queue s
  | some job_id ↦ elim (bound_job worker_id job_id s.jobs) [
    | some (r, a) ↦
        let r' = touch worker_id now.instant r in
        (assigned_response job_id r' a now, record s { jobs = insert job_id r' s.jobs })
    | none ↦
        schedule worker_id now s.pending_queue
          (record s { worker_active_jobs = remove worker_id s.worker_active_jobs })
  ]
]

unfoldable pub fetch_job : Text → Now → MasterState → Reply FetchJobResponse × MasterState
unfolding fetch_bound
fetch_job worker_id now s = elim (validate worker_id) [
  | invalid e ↦ (refused (bad_worker_id e), s)
  | valid ↦ let (response, s') = fetch_bound worker_id now s in (ok response, s')
]
