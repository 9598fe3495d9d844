-- ===== src/Master/Batch.antt =====
-- `fetch_file_batch` of crates/cvd-master/src/service/worker_rpc.rs: a worker takes files.
use cvdbench.Base.{
  ℕ, Bool, true, false, ◌&&◌, not, List, [], none, some, Text, if◌then◌else◌, ltb, length,
}
use cvdbench.Base.Int.{ℤ, pos, negsuc}
use cvdbench.Base.Map.{lookup, insert}
use cvdbench.Base.Sets.{contains}
use cvdbench.Proto.Reports.{
  FileEntry, JobStatus, unspecified, pending, preparing, running, completed, failed, cancelled,
}
use cvdbench.Queues.Bounded.{BoundedQueue, drained, drain_up_to, is_empty}
use cvdbench.WorkerId.{validate, valid, invalid}
use cvdbench.Master.State.{JobRecord, MasterState, Now}
use cvdbench.Master.Job.{touch}
use cvdbench.Master.Replies.{
  Reply, ok, refused, bad_worker_id, FetchFileBatchResponse, unknown_batch,
}

abbrev pub default_batch : ℕ
default_batch = 1000

abbrev pub max_batch : ℕ
max_batch = 10_000

unfoldable pub batch_limit : ℤ → ℕ
batch_limit (negsuc n) = default_batch
batch_limit (pos n) = if ltb 0 n then (if ltb max_batch n then max_batch else n) else default_batch

-- More files may come, unless nothing was there and the manifest is read to its end.
unfoldable pub has_more_after : List FileEntry → Bool → BoundedQueue FileEntry → Bool
has_more_after files manifest_done q =
    if ltb 0 (length files) then true else not (manifest_done && is_empty q)

unfoldable pub take_batch :
    Text
    → ℕ
    → BoundedQueue FileEntry
    → JobRecord
    → MasterState
    → FetchFileBatchResponse × MasterState
unfolding drained drain_up_to has_more_after is_empty
take_batch job_id n q r s =
    let files = drained n q in
    let q' = drain_up_to n q in
    (
      record {
        files = files;
        has_more = has_more_after files r.manifest_done q';
        cancelled = false;
        unknown_job = false;
      },
      record s { jobs = insert job_id (record r { file_queue = some q' }) s.jobs },
    )

-- A RUNNING job serves; a CANCELLED one says so, and both count as a sign of life.
unfoldable pub batch_by_status :
    JobStatus
    → Text
    → Text
    → ℕ
    → Now
    → JobRecord
    → MasterState
    → FetchFileBatchResponse × MasterState
unfolding unknown_batch take_batch touch
batch_by_status cancelled job_id worker_id n now r s = (
  record { files = []; has_more = false; cancelled = true; unknown_job = false },
  record s { jobs = insert job_id (touch worker_id now.instant r) s.jobs },
)
batch_by_status running job_id worker_id n now r s = elim r.file_queue [
  | none ↦ (unknown_batch, s)
  | some q ↦ take_batch job_id n q (touch worker_id now.instant r) s
]
batch_by_status unspecified job_id worker_id n now r s = (unknown_batch, s)
batch_by_status pending job_id worker_id n now r s = (unknown_batch, s)
batch_by_status preparing job_id worker_id n now r s = (unknown_batch, s)
batch_by_status completed job_id worker_id n now r s = (unknown_batch, s)
batch_by_status failed job_id worker_id n now r s = (unknown_batch, s)

unfoldable pub batch_known :
    Text → Text → ℕ → Now → JobRecord → MasterState → FetchFileBatchResponse × MasterState
unfolding batch_by_status unknown_batch
batch_known job_id worker_id n now r s =
    if contains worker_id r.run_workers
    then batch_by_status r.status job_id worker_id n now r s
    else (unknown_batch, s)

unfoldable pub fetch_file_batch :
    Text → Text → ℤ → Now → MasterState → Reply FetchFileBatchResponse × MasterState
unfolding batch_limit batch_known
fetch_file_batch job_id worker_id batch_size now s = elim (validate worker_id) [
  | invalid e ↦ (refused (bad_worker_id e), s)
  | valid ↦ elim (lookup job_id s.jobs) [
    | none ↦ (ok unknown_batch, s)
    | some r ↦
        let (response, s') = batch_known job_id worker_id (batch_limit batch_size) now r s in
        (ok response, s')
  ]
]
