-- ===== src/Tests/Worker.antt =====
-- The parts of the worker at concrete inputs.
use cvdbench.Base.{
  ℕ, ◌+◌, ◌*◌, ◌≡◌, refl, true, false, List, [], ◌∷◌, Option, none, some, length, max, Text, codes,
  is_empty, same, ltb, if◌then◌else◌, ◌++◌, has_char, starts_with_char,
}
use cvdbench.Base.Int.{pos, ◌≤ℤ◌}
use cvdbench.Base.Results.{ok}
use cvdbench.Proto.Specs
use cvdbench.Spec.{BenchSpec, MetadataConfig, seq, stat, file_manifest}
use cvdbench.Parse.Size.{parse_size}
use cvdbench.Parse.Duration.{parse_duration}
use cvdbench.Parse.Rate.{parse_rate_limit}
use cvdbench.Spec.Convert.{try_from_proto}
use cvdbench.Spec.Validate.{default_context, validate}
use cvdbench.Spec.Validate.Layout.{dirs_below}
use cvdbench.Master.Create.{spec_for_storage}
use cvdbench.PathSafe.{validate_relative}
use cvdbench.Master.Replies.{FetchJobResponse, ReportResultResponse}
use cvdbench.Proto.Reports.{WorkerResult}
use cvdbench.Worker.Clock.Estimate.{aligned}
use cvdbench.Worker.Prebuild.{Pieces, build}
use cvdbench.Worker.Prebuild.Counts.{length-build}
use cvdbench.Worker.Lifecycle.{parse_and_validate, Round}
use cvdbench.Worker.Lifecycle.Assigned.{
  Run, final_result, run_assigned_job, sat_add, millis, build_result_no_metrics,
}
use cvdbench.Worker.Lifecycle.Assigned.Window.{final_result-window}
use cvdbench.Worker.Lifecycle.Assigned.Sent.{Earned, run_assigned_job-Earned}
use cvdbench.Worker.Lifecycle.Redacted.{parse_and_validate-stored}
use cvdbench.Worker.Lifecycle.Redacted.Stored.{masked}

-- A request with credentials and a layout of one layer.
abbrev request : Specs.BenchSpec
request = record {
  fs_name = codes "fs";
  io_mode = codes "seq";
  io_aligned = true;
  direct_io = false;
  block_size = codes "4096B";
  duration = codes "60s";
  warmup = [];
  read = some (record {
    concurrency = pos 1;
    file_manifest = codes "/m";
    dir_manifest = [];
    think_time = [];
    rate_limit = [];
    s3_consistency_check = some (record {
      bucket_name = codes "b";
      bucket_url = codes "u";
      access_key = codes "key";
      secret_key = codes "secret";
      region = codes "r";
      prefix = [];
      session_token = [];
    });
    loop_files = false;
  });
  write = none;
  metadata = some (record {
    concurrency = pos 2;
    dir = codes "d";
    ops = codes "stat" ∷ [];
    depth = pos 1;
    width = pos 2;
    files_per_dir = pos 3;
    think_time = [];
    rate_limit = [];
    layout_concurrency = pos 1;
    read_only = false;
    read_only_scan_limit = pos 0;
    dir_manifest = [];
  });
  target_workers = pos 0;
}

abbrev config : MetadataConfig
config = record {
  concurrency = 2;
  dir = codes "d";
  dir_manifest = none;
  ops = stat ∷ [];
  read_only = false;
  read_only_scan_limit = 0;
  depth = 1;
  width = 2;
  files_per_dir = 3;
  layout_concurrency = 1;
  think_time = none;
  rate_limit = none;
}

abbrev converted : BenchSpec
converted = record {
  fs_name = codes "fs";
  io_mode = seq;
  io_aligned = true;
  direct_io = false;
  block_size = 4_096;
  duration = 60_000_000_000;
  warmup = 0;
  target_workers = 1;
  read = some (record {
    concurrency = 1;
    source = file_manifest (codes "/m");
    think_time = none;
    rate_limit = none;
    s3_consistency_check = some (record {
      bucket_name = codes "b";
      bucket_url = codes "u";
      access_key = codes "key";
      secret_key = codes "secret";
      region = codes "r";
      prefix = [];
      session_token = [];
    });
    loop_files = false;
  });
  write = none;
  metadata = some config;
}

request-converted : try_from_proto request ≡ ok converted
unfolding try_from_proto same parse_size is_empty parse_duration parse_rate_limit
request-converted = refl

request-valid : validate converted default_context ≡ ok tt
unfolding validate is_empty validate_relative has_char starts_with_char same
request-valid = refl

parse_and_validate-stored_example :
    parse_and_validate (some (spec_for_storage request)) ≡ ok (masked converted)
parse_and_validate-stored_example =
    parse_and_validate-stored request converted request-converted request-valid

-- A doubling on numbers, with a factor of at least 1.
abbrev at_least_one : ℕ → ℕ
at_least_one f = max f 1

abbrev scale : ℕ → ℕ → ℕ
scale f n = n * f

-- Four digits of a number below ten.
abbrev show4 : ℕ → Text
show4 n = codes "000" ++ (48 + n) ∷ []

length-build_example :
    let l = build show4 (codes "mnt" ∷ []) config (codes "w") (codes "j") in
    (length l.directories ≡ dirs_below 1 2 1)
    × (length l.files ≡ dirs_below 1 2 1 * 3)
    × (length l.task_roots ≡ 2)
length-build_example = length-build show4 (codes "mnt" ∷ []) config (codes "w") (codes "j")

-- The barrier: an RPC that fails, one that leaves it closed, one that opens it.
abbrev rounds : List Round
rounds =
    record { cancelled = false; send_at = 1; recv_at = 2; answer = none }
    ∷ record {
      cancelled = false;
      send_at = 3;
      recv_at = 4;
      answer = some (record {
        cancelled = false;
        unknown_job = false;
        start_at_ms = pos 0;
        master_now_ms = 9;
      });
    }
    ∷ record {
      cancelled = false;
      send_at = 5;
      recv_at = 6;
      answer = some (record {
        cancelled = false;
        unknown_job = false;
        start_at_ms = pos 77;
        master_now_ms = 10;
      });
    }
    ∷ []

-- The third attempt is answered.
abbrev third : ℕ → Option ReportResultResponse
third n = if ltb n 2 then none else some (record { unknown_job = false })

-- A job that is started.
abbrev started_run : Run Pieces
started_run = record {
  received = 0;
  preflight = ok none;
  rounds = rounds;
  now_at_barrier = 7;
  ends = some (none ∷ []);
  cancelled = false;
  unknown = false;
  now_at_end = 60_000_000_100;
  per_op = [];
  consistency_errors = [];
}

final_result-window_example :
    let r = final_result (codes "w") converted (pos 77) (aligned 0 10) started_run in
    (r.measure_start_ms ≡ sat_add (pos 77) (millis 0))
    × (pos 0 ≤ℤ r.effective_duration_ms)
    × (r.effective_duration_ms ≤ℤ millis 60_000_000_000)
    × (r.measure_end_ms ≤ℤ sat_add r.measure_start_ms (millis 60_000_000_000))
final_result-window_example = final_result-window (codes "w") converted 77 10 0 started_run

-- A job that is cancelled at the barrier.
abbrev assigned : FetchJobResponse
assigned = record {
  job_id = some (codes "j");
  spec = some (spec_for_storage request);
  mount_point = some (codes "/mnt");
  worker_index = some 0;
  s3_credentials = none;
  master_now_ms = 9;
}

abbrev cancelled_run : Run Pieces
cancelled_run = record started_run {
  rounds = record { cancelled = true; send_at = 1; recv_at = 2; answer = none } ∷ [];
}

abbrev cancelled_result : WorkerResult
cancelled_result =
    build_result_no_metrics (codes "w") true (some (codes "cancelled")) (pos 0) (pos 9) (pos 9)

cancelled-sent :
    (run_assigned_job at_least_one scale 2 (codes "w") assigned cancelled_run).result
    ≡ some cancelled_result
unfolding run_assigned_job is_empty same spec_for_storage parse_size parse_duration parse_rate_limit
    validate_relative has_char starts_with_char
cancelled-sent = refl

run_assigned_job-Earned_example :
    Earned at_least_one scale 2 (codes "w") assigned cancelled_run cancelled_result
run_assigned_job-Earned_example =
    run_assigned_job-Earned at_least_one scale 2 (codes "w") assigned cancelled_run cancelled_result
      cancelled-sent
