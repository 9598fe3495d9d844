-- ===== src/Master/Replies.antt =====
-- The answers of the RPC handlers, from proto/master.proto, and the errors by which they refuse.
use cvdbench.Base.{ℕ, Bool, true, false, List, [], Option, none, Text}
use cvdbench.Base.Int.{ℤ, pos}
use cvdbench.Proto.Specs.{BenchSpec, S3CredentialMaterial}
use cvdbench.Proto.Reports.{FileEntry}
use cvdbench.WorkerId.{WorkerIdError}
use cvdbench.Master.State.{Now}

-- A gRPC status, by the format string of its message.
pub data Status : Type 0 where
  bad_worker_id : WorkerIdError → Status
  progress_required result_required : Status
  not_found : Text → Status

pub data Reply {ℓ} (A : Type ℓ) : Type ℓ where
  ok : A → Reply A
  refused : Status → Reply A

pub record FetchJobResponse : Type 0 where
  pub job_id : Option Text
  pub spec : Option BenchSpec
  pub mount_point : Option Text
  pub worker_index : Option ℕ
  pub s3_credentials : Option S3CredentialMaterial
  pub master_now_ms : ℕ

pub record ReportReadyResponse : Type 0 where
  pub cancelled : Bool
  pub unknown_job : Bool
  pub start_at_ms : ℤ
  pub master_now_ms : ℕ

pub record FetchFileBatchResponse : Type 0 where
  pub files : List FileEntry
  pub has_more : Bool
  pub cancelled : Bool
  pub unknown_job : Bool

pub record ReportProgressResponse : Type 0 where
  pub cancelled : Bool
  pub unknown_job : Bool

pub record ReportResultResponse : Type 0 where
  pub unknown_job : Bool

unfoldable pub no_job : Now → FetchJobResponse
no_job now = record {
  job_id = none;
  spec = none;
  mount_point = none;
  worker_index = none;
  s3_credentials = none;
  master_now_ms = now.unix_ms;
}

-- `unknown()` of scheduler/ready.rs.
unfoldable pub unknown_ready : Now → ReportReadyResponse
unknown_ready now = record {
  cancelled = false;
  unknown_job = true;
  start_at_ms = pos 0;
  master_now_ms = now.unix_ms;
}

-- The answer with no start time, to a cancelled job or to a failure that was taken down.
unfoldable pub closed_ready : Bool → Now → ReportReadyResponse
closed_ready cancelled now = record {
  cancelled = cancelled;
  unknown_job = false;
  start_at_ms = pos 0;
  master_now_ms = now.unix_ms;
}

unfoldable pub unknown_batch : FetchFileBatchResponse
unknown_batch = record { files = []; has_more = false; cancelled = false; unknown_job = true }
