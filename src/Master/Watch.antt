-- ===== src/Master/Watch.antt =====
-- `watch_job`, `query_job` and `list_jobs` of crates/cvd-master/src/service/cli_rpc.rs: what clients
-- see. `watch_job` answers with the first messages of the new stream.
use cvdbench.Base.{
  ℕ, ◌-◌, ◌^◌, Bool, true, false, List, [], ◌∷◌, Option, none, some, Text, if◌then◌else◌, ltb, take,
  ◌==◌,
}
use cvdbench.Base.Int.{ℤ, pos, negsuc}
use cvdbench.Base.Map.{lookup, values}
use cvdbench.Proto.Specs.{BenchSpec}
use cvdbench.Proto.Reports.{
  JobStatus, unspecified, pending, preparing, running, completed, failed, cancelled, WorkerResult,
  AggregatedMetrics, status_change,
}
use cvdbench.Master.State.{JobRecord, JobError, Message, event, MasterState, Now}
use cvdbench.Master.Job.{is_terminal, run_worker_count}
use cvdbench.Master.Events.{build_event, subscribe_with_snapshot}
use cvdbench.Master.Replies.{Reply, ok, refused, not_found}

pub record Job : Type 0 where
  pub job_id : Text
  pub spec : BenchSpec
  pub status : JobStatus
  pub created_at : ℕ

pub record QueryJobResponse : Type 0 where
  pub job : Job
  pub worker_results : List WorkerResult
  pub aggregated : Option AggregatedMetrics
  pub error : Option JobError
  pub run_workers : ℕ
  pub dirs_scanned : ℤ
  pub files_scanned : ℤ
  pub scan_duration_ms : ℤ

unfoldable pub to_pb_job : JobRecord → Job
to_pb_job r = record {
  job_id = r.job_id;
  spec = r.spec_redacted;
  status = r.status;
  created_at = r.created_at_ms;
}

-- The stream of a finished job has the snapshot alone; any other goes on.
unfoldable pub watch_job : Text → Now → MasterState → Reply (List Message) × MasterState
unfolding build_event subscribe_with_snapshot
watch_job job_id now s = elim (lookup job_id s.jobs) [
  | none ↦ (refused (not_found job_id), s)
  | some r ↦
      let (snapshot, s') = build_event s r status_change now in
      (
        ok (event snapshot ∷ []),
        if is_terminal r
            then s'
            else record s' { subscribers = subscribe_with_snapshot job_id snapshot s'.subscribers },
      )
]

-- `i32::try_from(n).unwrap_or(i32::MAX)`.
abbrev pub count_to_i32 : ℕ → ℕ
count_to_i32 n = if ltb n (2 ^ 31) then n else 2 ^ 31 - 1

unfoldable pub query_job : Text → MasterState → Reply QueryJobResponse
unfolding to_pb_job run_worker_count
query_job job_id s = elim (lookup job_id s.jobs) [
  | none ↦ refused (not_found job_id)
  | some r ↦ ok (record {
    job = to_pb_job r;
    worker_results = values r.worker_results;
    aggregated = r.aggregated;
    error = r.error;
    run_workers = count_to_i32 (run_worker_count r);
    dirs_scanned = r.manifest_scan_stats.dirs_scanned;
    files_scanned = r.manifest_scan_stats.files_scanned;
    scan_duration_ms = r.manifest_scan_stats.scan_duration_ms;
  })
]

abbrev pub status_code : JobStatus → ℕ
status_code unspecified = 0
status_code pending = 1
status_code preparing = 2
status_code running = 3
status_code completed = 4
status_code failed = 5
status_code cancelled = 6

abbrev pub passes : Option ℤ → JobStatus → Bool
passes none st = true
passes (some (pos f)) st = f == status_code st
passes (some (negsuc f)) st = false

unfoldable pub list_limit : ℤ → ℕ
list_limit (negsuc n) = 100
list_limit (pos n) = if ltb 0 n then (if ltb 1_000 n then 1_000 else n) else 100

-- `filter(…).map(to_pb_job)`.
unfoldable pub matching : Option ℤ → List JobRecord → List Job
unfolding to_pb_job
matching filter [] = []
matching filter (r ∷ rs) =
    let rest = matching filter rs in if passes filter r.status then to_pb_job r ∷ rest else rest

-- The stable sort by falling creation time.
unfoldable pub place : Job → List Job → List Job
place j [] = j ∷ []
place j (k ∷ ks) = if ltb j.created_at k.created_at then k ∷ place j ks else j ∷ k ∷ ks

unfoldable pub sort_newest : List Job → List Job
unfolding place
sort_newest [] = []
sort_newest (j ∷ js) = place j (sort_newest js)

unfoldable pub list_jobs : Option ℤ → ℤ → MasterState → List Job
unfolding list_limit matching sort_newest
list_jobs filter limit s = take (list_limit limit) (sort_newest (matching filter (values s.jobs)))
