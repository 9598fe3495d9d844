-- ===== src/Tests/Fixtures.antt =====
-- A histogram library and floating-point arithmetic that count, a master with one new job for two
-- workers, and the calls that take the job to its end.
use cvdbench.Base.{ℕ, true, false, List, [], ◌∷◌, none, some, Text, codes, ◌+◌, ◌++◌}
use cvdbench.Base.Int.{pos}
use cvdbench.Proto.Specs.{BenchSpec}
use cvdbench.Proto.Reports.{WorkerResult}
use cvdbench.Metrics.{Platform}
use cvdbench.Master.State.{JobRecord, MasterState, SchedulerConfig, Now}
use cvdbench.Master.Job.{new}
use cvdbench.Master.Calls.{Call, fetches, readies, tells_result}

abbrev pub toy : Platform
toy = record {
  Histogram = ℕ;
  decode = λ b. some 1;
  encode_v2_compressed = λ h. some (h ∷ []);
  merge = λ a b. a + b;
  has_samples = λ h. true;
  value_at_quantile = λ h q. h;
  greatest = λ h. h;
  mean = λ h. h;
  of_int = λ i. 0;
  quotient = λ a b. a;
  is_above_zero = λ a. true;
  is_finite = λ a. true;
}

abbrev pub job : Text
job = codes "job"

abbrev pub ann : Text
ann = codes "ann"

abbrev pub bob : Text
bob = codes "bob"

abbrev pub spec : BenchSpec
spec = record {
  fs_name = codes "fs";
  io_mode = codes "sync";
  io_aligned = false;
  direct_io = false;
  block_size = codes "4KiB";
  duration = codes "60s";
  warmup = [];
  read = none;
  write = none;
  metadata = none;
  target_workers = pos 2;
}

abbrev pub scheduler : SchedulerConfig
scheduler = record {
  worker_staleness = 60_000_000_000;
  job_retention = 259_200_000_000_000;
  prepare_timeout = 600_000_000_000;
  start_delay = 5_000_000_000;
  file_queue_capacity = 100_000;
  dir_queue_capacity = 50_000;
  dir_scan_concurrency = 8;
}

abbrev pub fresh : JobRecord
fresh = new job spec none (codes "/mnt/fs") 2 1_000

abbrev pub start : MasterState
start = record {
  config = record { scheduler = scheduler; filesystems = (codes "fs", codes "/mnt/fs") ∷ [] };
  jobs = (job, fresh) ∷ [];
  pending_queue = job ∷ [];
  worker_active_jobs = [];
  subscribers = [];
  event_seq = 1;
}

abbrev pub at : ℕ → Now
at n = record { instant = n; unix_ms = 1_000 + n }

abbrev pub success_of : Text → WorkerResult
success_of w = record {
  worker_id = w;
  per_op = [];
  consistency_errors = [];
  success = true;
  error = none;
  effective_duration_ms = pos 10;
  measure_start_ms = pos 20;
  measure_end_ms = pos 30;
}

-- Both workers fetch the job and are ready: it runs.
abbrev pub to_running : List (Now × Call)
to_running =
    (at 1, fetches ann)
    ∷ (at 2, fetches bob)
    ∷ (at 3, readies job ann none)
    ∷ (at 4, readies job bob none)
    ∷ []

-- And both report success: it is completed.
abbrev pub finishing : List (Now × Call)
finishing =
    (at 5, tells_result job (some (success_of ann)))
    ∷ (at 6, tells_result job (some (success_of bob)))
    ∷ []

abbrev pub to_completed : List (Now × Call)
to_completed = to_running ++ finishing
