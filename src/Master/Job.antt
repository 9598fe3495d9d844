-- ===== src/Master/Job.antt =====
-- The methods of `JobRecord`, crates/cvd-master/src/state/job.rs.
use cvdbench.Base.{
  ℕ, ◌-◌, ◌^◌, Bool, true, false, [], Option, none, some, Text, if◌then◌else◌, length, min, ◌==◌,
}
use cvdbench.Base.Int.{pos}
use cvdbench.Base.Map.{insert, keys}
use cvdbench.Proto.Specs.{BenchSpec, S3CredentialMaterial}
use cvdbench.Proto.Reports.{
  JobStatus, unspecified, pending, preparing, running, completed, failed, cancelled,
}
use cvdbench.Queues.Bounded.{close}
use cvdbench.Master.State.{JobRecord, WorkerAssignment}

abbrev pub max_u32 : ℕ
max_u32 = 2 ^ 32 - 1

unfoldable pub new : Text → BenchSpec → Option S3CredentialMaterial → Text → ℕ → ℕ → JobRecord
new job_id spec_redacted credentials mount_point target_workers created_at_ms = record {
  job_id = job_id;
  spec_redacted = spec_redacted;
  credentials = credentials;
  status = pending;
  created_at_ms = created_at_ms;
  error = none;
  mount_point = mount_point;
  target_workers = target_workers;
  worker_assignments = [];
  run_workers = [];
  ready_workers = [];
  start_at_ms = pos 0;
  worker_results = [];
  worker_last_seen = [];
  preparing_since = none;
  latest_progress = [];
  aggregated = none;
  window_misaligned = false;
  missing_histogram_count = 0;
  success_worker_count = 0;
  terminal_at_ms = none;
  file_queue = none;
  cancel_flag = false;
  manifest_done = false;
  manifest_handle = none;
  manifest_scan_stats = record {
    dirs_scanned = pos 0;
    files_scanned = pos 0;
    scan_duration_ms = pos 0;
  };
}

abbrev pub is_terminal_status : JobStatus → Bool
is_terminal_status completed = true
is_terminal_status failed = true
is_terminal_status cancelled = true
is_terminal_status unspecified = false
is_terminal_status pending = false
is_terminal_status preparing = false
is_terminal_status running = false

abbrev pub is_terminal : JobRecord → Bool
is_terminal r = is_terminal_status r.status

unfoldable pub slots_filled : JobRecord → ℕ
slots_filled r = min (length r.worker_assignments) max_u32

unfoldable pub slots_remaining : JobRecord → ℕ
unfolding slots_filled
slots_remaining r = r.target_workers - slots_filled r

unfoldable pub run_worker_count : JobRecord → ℕ
run_worker_count r =
    if length r.run_workers == 0 then length r.worker_assignments else length r.run_workers

unfoldable pub touch : Text → ℕ → JobRecord → JobRecord
touch worker_id now r = record r { worker_last_seen = insert worker_id now r.worker_last_seen }

-- The record with one more slot taken.
unfoldable pub give_slot : Text → ℕ → JobRecord → JobRecord
unfolding slots_filled touch
give_slot worker_id now r = touch worker_id now (record r {
  worker_assignments =
      insert worker_id (record { worker_index = slots_filled r }) r.worker_assignments;
})

-- `none` where the slots are full.
unfoldable pub try_assign : Text → ℕ → JobRecord → Option (WorkerAssignment × JobRecord)
unfolding slots_remaining slots_filled give_slot
try_assign worker_id now r =
    if slots_remaining r == 0
    then none
    else some (record { worker_index = slots_filled r }, give_slot worker_id now r)

unfoldable pub enter_preparing_from : JobStatus → ℕ → JobRecord → JobRecord
enter_preparing_from pending now r = record r {
  run_workers = keys r.worker_assignments;
  preparing_since = some now;
  status = preparing;
}
enter_preparing_from unspecified now r = r
enter_preparing_from preparing now r = r
enter_preparing_from running now r = r
enter_preparing_from completed now r = r
enter_preparing_from failed now r = r
enter_preparing_from cancelled now r = r

unfoldable pub enter_preparing : ℕ → JobRecord → JobRecord
unfolding enter_preparing_from
enter_preparing now r = enter_preparing_from r.status now r

unfoldable pub cleanup_on_terminal : JobRecord → JobRecord
unfolding close
cleanup_on_terminal r = record r {
  cancel_flag = true;
  file_queue = elim r.file_queue [ none ↦ none | some q ↦ some (close q) ];
  manifest_handle = none;
}

-- `record.status == JobStatus::…`.
abbrev pub is_pending : JobStatus → Bool
is_pending s = elim s [ pending ↦ true | _ ↦ false ]

abbrev pub is_preparing : JobStatus → Bool
is_preparing s = elim s [ preparing ↦ true | _ ↦ false ]

abbrev pub is_cancelled : JobStatus → Bool
is_cancelled s = elim s [ cancelled ↦ true | _ ↦ false ]
