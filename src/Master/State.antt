-- ===== src/Master/State.antt =====
-- crates/cvd-master/src/state.rs, state/job.rs and the scheduler's part of config.rs: what the master
-- keeps in memory. The locks and the `Arc`s are gone: the manifest queue, the flags and the scan
-- counters, which the manifest tasks share with a record, are fields of the record.
use cvdbench.Base.{ℕ, ◌/◌, Bool, List, Option, Text}
use cvdbench.Base.Int.{ℤ}
use cvdbench.Base.Map.{Map}
use cvdbench.Proto.Specs.{BenchSpec, S3CredentialMaterial}
use cvdbench.Proto.Reports.{
  JobStatus, EventKind, WorkerProgress, WorkerResult, AggregatedMetrics, FileEntry,
}
use cvdbench.Queues.Bounded.{BoundedQueue}

-- Durations and instants are counted in nanoseconds, Unix times in milliseconds.
pub record SchedulerConfig : Type 0 where
  pub worker_staleness : ℕ
  pub job_retention : ℕ
  pub prepare_timeout : ℕ
  pub start_delay : ℕ
  pub file_queue_capacity : ℕ
  pub dir_queue_capacity : ℕ
  pub dir_scan_concurrency : ℕ

abbrev pub as_millis : ℕ → ℕ
as_millis d = d / 1_000_000

pub record MasterConfig : Type 0 where
  pub scheduler : SchedulerConfig
  pub filesystems : Map Text

-- One reading of both clocks: `Instant::now()` and `now_ms()`.
pub record Now : Type 0 where
  pub instant : ℕ
  pub unix_ms : ℕ

pub record WorkerAssignment : Type 0 where
  pub worker_index : ℕ

pub record ManifestScanStats : Type 0 where
  pub dirs_scanned : ℤ
  pub files_scanned : ℤ
  pub scan_duration_ms : ℤ

-- The reason that a record keeps as text, by the format string that makes it.
pub data JobError : Type 0 where
  ready_failure : Text → Text → JobError
  reported : Text → JobError
  reported_failure : Text → JobError
  stale_worker : Text → ℕ → ℕ → JobError
  prepare_timeout : ℕ → JobError
  manifest_reader : Text → JobError

-- The task behind `manifest_handle`: a CSV reader, or a directory scan with its width.
pub data ManifestTask : Type 0 where
  file_csv : Text → Bool → ManifestTask
  dir_scan : Text → Text → ℕ → Bool → ManifestTask

pub record JobRecord : Type 0 where
  pub job_id : Text
  pub spec_redacted : BenchSpec
  pub credentials : Option S3CredentialMaterial
  pub status : JobStatus
  pub created_at_ms : ℕ
  pub error : Option JobError
  pub mount_point : Text
  pub target_workers : ℕ
  pub worker_assignments : Map WorkerAssignment
  pub run_workers : List Text
  pub ready_workers : List Text
  pub start_at_ms : ℤ
  pub worker_results : Map WorkerResult
  pub worker_last_seen : Map ℕ
  pub preparing_since : Option ℕ
  pub latest_progress : Map WorkerProgress
  pub aggregated : Option AggregatedMetrics
  pub window_misaligned : Bool
  pub missing_histogram_count : ℕ
  pub success_worker_count : ℕ
  pub terminal_at_ms : Option ℕ
  pub file_queue : Option (BoundedQueue FileEntry)
  pub cancel_flag : Bool
  pub manifest_done : Bool
  pub manifest_handle : Option ManifestTask
  pub manifest_scan_stats : ManifestScanStats

pub record JobEvent : Type 0 where
  pub job_id : Text
  pub status : JobStatus
  pub worker_progress : List WorkerProgress
  pub aggregated : Option AggregatedMetrics
  pub error : Option JobError
  pub timestamp : ℕ
  pub seq : ℕ
  pub kind : EventKind
  pub dirs_scanned : ℤ
  pub files_scanned : ℤ
  pub scan_duration_ms : ℤ

-- What a watcher's stream carries: an event, or the last word to a slow watcher.
pub data Message : Type 0 where
  event : JobEvent → Message
  resource_exhausted : Message

-- The sending half of a watcher's channel: what waits in it, and whether the receiver is gone.
pub record EventSender : Type 0 where
  pub queued : List Message
  pub receiver_closed : Bool

-- `event_seq` is an i64 that wraps; it is kept as its bits.
pub record MasterState : Type 0 where
  pub config : MasterConfig
  pub jobs : Map JobRecord
  pub pending_queue : List Text
  pub worker_active_jobs : Map Text
  pub subscribers : Map (List EventSender)
  pub event_seq : ℕ
