-- ===== src/Proto/Reports.antt =====
-- proto/master.proto: job status, metrics, worker results, events and files.
use cvdbench.Base.{ℕ, Bool, List, Option, Text}
use cvdbench.Base.Int.{ℤ}
use cvdbench.Base.Map.{Map}

pub data JobStatus : Type 0 where
  unspecified pending preparing running completed failed cancelled : JobStatus

pub data EventKind : Type 0 where
  unspecified status_change progress result error : EventKind

pub data WorkerPhase : Type 0 where
  unspecified preparing waiting_start warmup measuring cleanup finished : WorkerPhase

-- A double, by its bits.
abbrev pub F64 : Type 0
F64 = ℕ

abbrev pub Bytes : Type 0
Bytes = List ℕ

pub record LatencyStats : Type 0 where
  pub p50 : F64
  pub p95 : F64
  pub p99 : F64
  pub p999 : F64
  pub max : F64
  pub avg : F64

pub record PerformanceMetrics : Type 0 where
  pub throughput_mbps : F64
  pub iops : F64
  pub latency_us : Option LatencyStats
  pub error_count : ℤ
  pub error_rate : F64
  pub total_ops : ℤ
  pub total_bytes : ℤ
  pub latency_histogram_hdr : Bytes

pub record ConsistencyError : Type 0 where
  pub worker_id : Text
  pub fs_path : Text
  pub s3_key : Text
  pub type : ℤ
  pub message : Text

pub record WorkerResult : Type 0 where
  pub worker_id : Text
  pub per_op : Map PerformanceMetrics
  pub consistency_errors : List ConsistencyError
  pub success : Bool
  pub error : Option Text
  pub effective_duration_ms : ℤ
  pub measure_start_ms : ℤ
  pub measure_end_ms : ℤ

pub record WorkerProgress : Type 0 where
  pub worker_id : Text
  pub elapsed_ms : ℤ
  pub per_op : Map PerformanceMetrics
  pub phase : WorkerPhase

pub record AggregatedMetrics : Type 0 where
  pub total : Option PerformanceMetrics
  pub total_per_op : Map PerformanceMetrics
  pub per_worker : List WorkerResult

pub record FileEntry : Type 0 where
  pub fs_path : Text
  pub s3_key : Text
