-- ===== src/Master/Validity.antt =====
-- When the record of a job is well formed, by the parts of it that say how far the job is. Operations
-- on the other parts, such as the signs of life, change nothing here.
pub mod Slots
pub mod Barrier
pub mod Results
pub mod Ends
pub mod Ops
use cvdbench.Base.{
  ℕ, ◌≤◌, ◌≡◌, Bool, true, false, List, [], Option, none, some, Text, min, length, All,
}
use cvdbench.Base.Map.{Map, keys, is_some}
use cvdbench.Base.Sets.{IsNodup, IsSubset}
use cvdbench.Proto.Specs.{BenchSpec, ReadConfig, ConsistencyConfig}
use cvdbench.Proto.Reports.{
  JobStatus, unspecified, pending, preparing, running, completed, failed, cancelled, WorkerResult,
  AggregatedMetrics, FileEntry,
}
use cvdbench.Spec.Redact.{redacted_mark}
use cvdbench.Queues.Bounded.{BoundedQueue}
use cvdbench.Master.State.{JobRecord, WorkerAssignment, ManifestTask}
use cvdbench.Master.Job.{max_u32, is_terminal_status}

-- The parts of a record that the validity speaks of.
pub record Core : Type 0 where
  pub status : JobStatus
  pub spec : BenchSpec
  pub target_workers : ℕ
  pub worker_assignments : Map WorkerAssignment
  pub run_workers : List Text
  pub ready_workers : List Text
  pub worker_results : Map WorkerResult
  pub aggregated : Option AggregatedMetrics
  pub terminal_at_ms : Option ℕ
  pub file_queue : Option (BoundedQueue FileEntry)
  pub cancel_flag : Bool
  pub manifest_handle : Option ManifestTask

abbrev pub core : JobRecord → Core
core r = record {
  status = r.status;
  spec = r.spec_redacted;
  target_workers = r.target_workers;
  worker_assignments = r.worker_assignments;
  run_workers = r.run_workers;
  ready_workers = r.ready_workers;
  worker_results = r.worker_results;
  aggregated = r.aggregated;
  terminal_at_ms = r.terminal_at_ms;
  file_queue = r.file_queue;
  cancel_flag = r.cancel_flag;
  manifest_handle = r.manifest_handle;
}

-- No key of the check is left in the clear.
abbrev pub HidesKeys : ConsistencyConfig → Type 0
HidesKeys c =
    (c.access_key ≡ redacted_mark)
    × (c.secret_key ≡ redacted_mark)
    × (c.session_token ≡ redacted_mark)

abbrev pub HidesCheck : Option ConsistencyConfig → Type 0
HidesCheck none = Unit
HidesCheck (some c) = HidesKeys c

abbrev pub HidesRead : Option ReadConfig → Type 0
HidesRead none = Unit
HidesRead (some r) = HidesCheck r.s3_consistency_check

abbrev pub IsRedacted : BenchSpec → Type 0
IsRedacted spec = HidesRead spec.read

-- The workers of the run are those with a slot.
abbrev pub HasRun : Core → Type 0
HasRun c = c.run_workers ≡ keys c.worker_assignments

abbrev pub AllReady : Core → Type 0
AllReady c = IsSubset c.run_workers c.ready_workers

abbrev pub AllSucceeded : Core → Type 0
AllSucceeded c = All (λ e. e.1.success ≡ true) c.worker_results

-- What each status means.
abbrev pub Stands : JobStatus → Core → Type 0
Stands unspecified c = ⊥
Stands pending c = (c.run_workers ≡ []) × (c.worker_results ≡ [])
Stands preparing c = HasRun c × (c.worker_results ≡ [])
Stands running c = HasRun c × AllReady c × AllSucceeded c
Stands completed c =
    HasRun c × AllReady c × AllSucceeded c × IsSubset c.run_workers (keys c.worker_results)
Stands failed c = Unit
Stands cancelled c = Unit

abbrev pub IsClosed : Option (BoundedQueue FileEntry) → Type 0
IsClosed none = Unit
IsClosed (some q) = q.closed ≡ true

-- A finished job has its result and its time, and nothing runs for it.
abbrev pub IsSettled : Core → Type 0
IsSettled c =
    (is_some c.aggregated ≡ true)
    × (is_some c.terminal_at_ms ≡ true)
    × (c.cancel_flag ≡ true)
    × IsClosed c.file_queue
    × (c.manifest_handle ≡ none)

abbrev pub IsSettledIf : Bool → Core → Type 0
IsSettledIf true c = IsSettled c
IsSettledIf false c = Unit

pub record IsValidCore (c : Core) : Type 0 where
  pub within : min (length c.worker_assignments) max_u32 ≤ c.target_workers
  pub distinct : IsNodup (keys c.worker_assignments)
  pub ready_distinct : IsNodup c.ready_workers
  pub ready_assigned : IsSubset c.ready_workers (keys c.worker_assignments)
  pub results_distinct : IsNodup (keys c.worker_results)
  pub results_run : IsSubset (keys c.worker_results) c.run_workers
  pub stands : Stands c.status c
  pub settled : IsSettledIf (is_terminal_status c.status) c
  pub redacted : IsRedacted c.spec

abbrev pub IsValid : JobRecord → Type 0
IsValid r = IsValidCore (core r)

-- The status says nothing of the queue and the reader.
pub requeue-Stands :
    (st : JobStatus) (c : Core) (q : Option (BoundedQueue FileEntry)) (h : Option ManifestTask)
    → Stands st c
    → Stands st (record c { file_queue = q; manifest_handle = h })
requeue-Stands unspecified c q h s = s
requeue-Stands pending c q h s = s
requeue-Stands preparing c q h s = s
requeue-Stands running c q h s = s
requeue-Stands completed c q h s = s
requeue-Stands failed c q h s = s
requeue-Stands cancelled c q h s = s
