-- ===== src/Worker/Lifecycle/Assigned.antt =====
-- `run_assigned_job` and the wait of `run_workload` for its runners, of
-- crates/cvd-worker/src/lifecycle.rs. What the surroundings do while a job runs is a `Run`; the model
-- gives what the worker sends to the master and what it removes.
pub mod Window
pub mod Sent
use cvdbench.Base.{
  ℕ, ◌/◌, ◌^◌, Bool, true, false, ◌&&◌, not, List, [], ◌∷◌, Option, none, some, Text, codes,
  is_empty, if◌then◌else◌,
}
use cvdbench.Base.Int.{ℤ, pos, ◌+ℤ◌, ◌-ℤ◌, saturate_i64, wrap_i64, max_ℤ, min_ℤ}
use cvdbench.Base.Map.{Map}
use cvdbench.Base.Results.{Result, ok, err}
use cvdbench.Master.Replies.{FetchJobResponse}
use cvdbench.Proto.Reports.{PerformanceMetrics, ConsistencyError, WorkerResult}
use cvdbench.Spec.{BenchSpec}
use cvdbench.Worker.Clock.{
  Instant, MasterClockOffset, from_response, clock_now_master, i64_or, ns_per_ms,
}
use cvdbench.Worker.Lifecycle.{
  Refusal, parse_and_validate, BarrierOutcome, start, barrier_cancelled, barrier_unknown, Round,
  wait_for_start_barrier,
}

pub data RunnerOutcome : Type 0 where
  runner_ok : RunnerOutcome
  failed : Text → RunnerOutcome
  runner_cancelled : RunnerOutcome
  not_implemented : RunnerOutcome

-- The runners in the order in which they end, each with its error if it has one. The first error wins;
-- the second part is the flag that stops the others.
unfoldable pub join_runners : Option Text → Bool → List (Option Text) → Option Text × Bool
join_runners first abort [] = (first, abort)
join_runners first abort (none ∷ rest) = join_runners first abort rest
join_runners none abort (some e ∷ rest) = join_runners (some e) true rest
join_runners (some f) abort (some e ∷ rest) = join_runners (some f) true rest

unfoldable pub runners_outcome : List (Option Text) → RunnerOutcome
unfolding join_runners
runners_outcome ends = elim (join_runners none false ends).0 [
  | none ↦ runner_ok
  | some e ↦ failed e
]

-- What happens around a job: the preflight and its layout's root, the turns at the barrier, the ends of
-- the runners (`none` where the specification has no workload) and the readings after them.
pub record Run (P : Type 0) : Type 0 where
  pub received : Instant
  pub preflight : Result Text (Option P)
  pub rounds : List Round
  pub now_at_barrier : Instant
  pub ends : Option (List (Option Text))
  pub cancelled : Bool
  pub unknown : Bool
  pub now_at_end : Instant
  pub per_op : Map PerformanceMetrics
  pub consistency_errors : List ConsistencyError

-- Why a job is refused before it is ready.
pub data ReadyError : Type 0 where
  missing_mount_point : ReadyError
  refused : Refusal → ReadyError
  preflight_failed : Text → ReadyError

-- What the worker has sent and removed. It still waits at the barrier where it is `waiting`.
pub record Handled (P : Type 0) : Type 0 where
  pub ready_error : Option ReadyError
  pub result : Option WorkerResult
  pub cleaned : Option P
  pub waiting : Bool

abbrev pub nothing_sent : {P : Type 0} → Handled P
nothing_sent = record { ready_error = none; result = none; cleaned = none; waiting = false }

unfoldable pub build_result_no_metrics : Text → Bool → Option Text → ℤ → ℤ → ℤ → WorkerResult
build_result_no_metrics worker_id success error duration measure_start measure_end = record {
  worker_id = worker_id;
  per_op = [];
  consistency_errors = [];
  success = success;
  error = error;
  effective_duration_ms = duration;
  measure_start_ms = measure_start;
  measure_end_ms = measure_end;
}

abbrev pub sat_add : ℤ → ℤ → ℤ
sat_add a b = saturate_i64 (a +ℤ b)

-- A duration in nanoseconds as milliseconds that fit an i64.
abbrev pub millis : ℕ → ℤ
millis d = i64_or (pos 0) (d / ns_per_ms)

abbrev pub success_of : RunnerOutcome → Bool
success_of (failed e) = false
success_of runner_ok = true
success_of runner_cancelled = true
success_of not_implemented = true

unfoldable pub error_of : Bool → RunnerOutcome → Option Text
error_of was_cancelled (failed e) = some e
error_of was_cancelled runner_cancelled = some (codes "cancelled")
error_of was_cancelled runner_ok = if was_cancelled then some (codes "cancelled") else none
error_of was_cancelled not_implemented = if was_cancelled then some (codes "cancelled") else none

unfoldable pub measure_start_of : BenchSpec → ℤ → ℤ
unfolding i64_or saturate_i64 ◌+ℤ◌
measure_start_of spec start_at_ms = sat_add start_at_ms (millis spec.warmup)

module _ {P : Type 0} where
  unfoldable pub run_workload : Run P → RunnerOutcome
  unfolding runners_outcome
  run_workload run = elim run.ends [
    | none ↦ if run.cancelled then runner_cancelled else not_implemented
    | some ends ↦ runners_outcome ends
  ]

  -- The layout's root is removed only where this worker built it.
  unfoldable pub root_to_clean : BenchSpec → Option P → Option P
  root_to_clean spec layout = elim spec.metadata [
    | none ↦ none
    | some meta ↦
        if not meta.read_only && (elim meta.dir_manifest [ none ↦ true | some path ↦ false ])
        then layout
        else none
  ]

  -- The result after the runners.
  unfoldable pub final_result : Text → BenchSpec → ℤ → MasterClockOffset → Run P → WorkerResult
  unfolding measure_start_of clock_now_master run_workload error_of i64_or saturate_i64 wrap_i64
      ◌+ℤ◌ ◌-ℤ◌
  final_result worker_id spec start_at_ms clock run =
      let measure_start_ms = measure_start_of spec start_at_ms in
      let planned_end_ms = sat_add measure_start_ms (millis spec.duration) in
      let measure_end_ms = min_ℤ (clock_now_master clock run.now_at_end) planned_end_ms in
      record {
        worker_id = worker_id;
        per_op = run.per_op;
        consistency_errors = run.consistency_errors;
        success = success_of (run_workload run);
        error = error_of run.cancelled (run_workload run);
        effective_duration_ms = max_ℤ (wrap_i64 (measure_end_ms -ℤ measure_start_ms)) (pos 0);
        measure_start_ms = measure_start_ms;
        measure_end_ms = measure_end_ms;
      }

  -- The rest of the job after the wait at the barrier, with the clock that the wait has left.
  unfoldable pub after_barrier :
      Text → BenchSpec → Option P → Run P → MasterClockOffset → Option BarrierOutcome → Handled P
  unfolding build_result_no_metrics clock_now_master root_to_clean final_result
  after_barrier worker_id spec layout run clock none = record nothing_sent { waiting = true }
  after_barrier worker_id spec layout run clock (some barrier_unknown) = nothing_sent
  after_barrier worker_id spec layout run clock (some barrier_cancelled) =
      let now = clock_now_master clock run.now_at_barrier in
      record nothing_sent {
        result =
            some
              (build_result_no_metrics worker_id true (some (codes "cancelled")) (pos 0) now now);
      }
  after_barrier worker_id spec layout run clock (some (start start_at_ms)) = record {
    ready_error = none;
    result = if run.unknown then none else some (final_result worker_id spec start_at_ms clock run);
    cleaned = root_to_clean spec layout;
    waiting = false;
  }

module _ {P : Type 0} {F : Type 0} (at_least_one : F → F) (scale : F → ℕ → ℕ) (two : F) where
  unfoldable pub after_preflight :
      Text → MasterClockOffset → Run P → BenchSpec → Result Text (Option P) → Handled P
  unfolding after_barrier wait_for_start_barrier
  after_preflight worker_id clock run spec (err reason) = record nothing_sent {
    ready_error = some (preflight_failed reason);
  }
  after_preflight worker_id clock run spec (ok layout) =
      let w = wait_for_start_barrier at_least_one scale two clock run.rounds in
      after_barrier worker_id spec layout run w.clock w.outcome

  unfoldable pub after_validation :
      Text → MasterClockOffset → Run P → Result Refusal BenchSpec → Handled P
  unfolding after_preflight
  after_validation worker_id clock run (err reason) = record nothing_sent {
    ready_error = some (refused reason);
  }
  after_validation worker_id clock run (ok spec) =
      after_preflight worker_id clock run spec run.preflight

  unfoldable pub after_mount : Text → FetchJobResponse → Run P → Option Text → Handled P
  unfolding after_validation parse_and_validate from_response
  after_mount worker_id resp run none = record nothing_sent {
    ready_error = some missing_mount_point;
  }
  after_mount worker_id resp run (some mount) =
      if is_empty mount
      then record nothing_sent { ready_error = some missing_mount_point }
      else after_validation worker_id (from_response (pos resp.master_now_ms) run.received) run
          (parse_and_validate resp.spec)

  unfoldable pub run_assigned_job : Text → FetchJobResponse → Run P → Handled P
  unfolding after_mount
  run_assigned_job worker_id resp run = elim resp.job_id [
    | none ↦ nothing_sent
    | some id ↦ after_mount worker_id resp run resp.mount_point
  ]
