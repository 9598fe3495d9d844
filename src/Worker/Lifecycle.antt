-- ===== src/Worker/Lifecycle.antt =====
-- The loops of crates/cvd-worker/src/lifecycle.rs that call the master until it answers. What the
-- surroundings do is given: the answers (`none` for an RPC that fails), the readings of the flags and
-- of the clock. `at_least_one`, `scale` and `two` are those of the backoff.
pub mod Waits
pub mod Retries
pub mod Assigned
pub mod Redacted
use cvdbench.Base.{
  ℕ, zero, suc, ◌+◌, Bool, true, false, List, [], ◌∷◌, Option, none, some, Text, ltb, leb,
  if◌then◌else◌,
}
use cvdbench.Base.Int.{ℤ, pos, is_positive}
use cvdbench.Base.Results.{Result, ok, err, ◌>>=◌, map_err, ok_or}
use cvdbench.Master.Replies.{FetchJobResponse, ReportReadyResponse, ReportResultResponse}
use cvdbench.Proto.Specs
use cvdbench.Spec.{BenchSpec, SpecConvertError}
use cvdbench.Spec.Convert.{try_from_proto}
use cvdbench.Spec.Validate.{Violation, ValidationContext, default_context, validate}
use cvdbench.Worker.Clock.{Instant, MasterClockOffset, refine_with}
use cvdbench.Worker.Backoff.{ms, ExponentialBackoff, default_backoff, next_delay, reset}

pub data FetchOutcome : Type 0 where
  no_job : FetchOutcome
  job_assigned : FetchJobResponse → FetchOutcome

unfoldable pub try_fetch_once : Option FetchJobResponse → Option FetchOutcome
try_fetch_once none = none
try_fetch_once (some resp) = elim resp.job_id [
  | none ↦ some no_job
  | some id ↦ some (job_assigned resp)
]

-- Why a specification is refused: it is missing, not parsed, or not valid.
pub data Refusal : Type 0 where
  missing_spec : Refusal
  spec_parse : SpecConvertError → Refusal
  spec_validate : List Violation → Refusal

abbrev pub worker_context : ValidationContext
worker_context = record default_context { allow_redacted_consistency_credentials = true }

unfoldable pub parse_and_validate : Option Specs.BenchSpec → Result Refusal BenchSpec
unfolding try_from_proto validate
parse_and_validate proto_spec = do
  p ← ok_or proto_spec missing_spec
  spec ← map_err spec_parse (try_from_proto p)
  valid ← map_err spec_validate (validate spec worker_context)
  ok spec

pub data BarrierOutcome : Type 0 where
  start : ℤ → BarrierOutcome
  barrier_cancelled : BarrierOutcome
  barrier_unknown : BarrierOutcome

-- One turn of the loop at the barrier.
pub record Round : Type 0 where
  pub cancelled : Bool
  pub send_at : Instant
  pub recv_at : Instant
  pub answer : Option ReportReadyResponse

-- How far the wait at the barrier has come: no outcome yet, or one; the clock; the sleeps asked for.
pub record Waited : Type 0 where
  pub outcome : Option BarrierOutcome
  pub clock : MasterClockOffset
  pub slept : List ℕ

abbrev pub ready_poll_interval : ℕ
ready_poll_interval = ms 500

abbrev pub ready_error_max_retries : ℕ
ready_error_max_retries = 5

abbrev pub report_result_max_retries : ℕ
report_result_max_retries = 8

abbrev pub slept_first : ℕ → Waited → Waited
slept_first d w = record w { slept = d ∷ w.slept }

abbrev pub decided : BarrierOutcome → MasterClockOffset → Waited
decided o clock = record { outcome = some o; clock = clock; slept = [] }

pub data ReportOutcome : Type 0 where
  acked unknown_job exhausted : ReportOutcome

-- The outcome of a loop with a bound, the RPCs that it made, and the sleeps that it asked for.
pub record Tried (A : Type 0) : Type 0 where
  pub outcome : A
  pub calls : ℕ
  pub slept : List ℕ

abbrev pub stopped : {A : Type 0} → A → ℕ → Tried A
stopped a n = record { outcome = a; calls = n; slept = [] }

abbrev pub tried_again : {A : Type 0} → ℕ → Tried A → Tried A
tried_again d t = record t { calls = t.calls + 1; slept = d ∷ t.slept }

-- An answer that decides, or `none` where the barrier is still closed.
unfoldable pub answer_outcome : ReportReadyResponse → Option BarrierOutcome
answer_outcome r =
    if r.cancelled
    then some barrier_cancelled
    else if r.unknown_job
    then some barrier_unknown
    else if is_positive r.start_at_ms
    then some (start r.start_at_ms)
    else none

module _ {F : Type 0} (at_least_one : F → F) (scale : F → ℕ → ℕ) (two : F) where
  unfoldable pub wait_rounds : ExponentialBackoff F → MasterClockOffset → List Round → Waited
  unfolding answer_outcome next_delay reset refine_with
  wait_rounds b clock [] = record { outcome = none; clock = clock; slept = [] }
  wait_rounds b clock (r ∷ rs) =
      let (d, after) = next_delay at_least_one scale b in
      let failed = slept_first d (wait_rounds after clock rs) in
      let refined = λ (now : ℕ). refine_with (pos now) r.send_at r.recv_at clock in
      let closed =
        λ (now : ℕ). slept_first ready_poll_interval (wait_rounds (reset b) (refined now) rs) in
      if r.cancelled then decided barrier_cancelled clock else elim r.answer [
        | none ↦ failed
        | some a ↦ elim (answer_outcome a) [
          | some o ↦ decided o (refined a.master_now_ms)
          | none ↦ closed a.master_now_ms
        ]
      ]

  unfoldable pub wait_for_start_barrier : MasterClockOffset → List Round → Waited
  unfolding wait_rounds default_backoff
  wait_for_start_barrier clock rounds =
      wait_rounds (default_backoff at_least_one scale two) clock rounds

  -- `fuel` is the number of attempts left.
  unfoldable pub report_attempts :
      (ℕ → Bool)
      → (ℕ → Option ReportResultResponse)
      → ExponentialBackoff F
      → ℕ
      → ℕ
      → Tried ReportOutcome
  unfolding next_delay
  report_attempts unknown answer b zero attempt = stopped exhausted 0
  report_attempts unknown answer b (suc fuel) attempt =
      let (d, after) = next_delay at_least_one scale b in
      let again = tried_again d (report_attempts unknown answer after fuel (suc attempt)) in
      if unknown attempt then stopped unknown_job 0 else elim (answer attempt) [
        | some r ↦ stopped (if r.unknown_job then unknown_job else acked) 1
        | none ↦ if leb report_result_max_retries (suc attempt) then stopped exhausted 1 else again
      ]

  unfoldable pub report_result_with_retry :
      (ℕ → Bool) → (ℕ → Option ReportResultResponse) → Tried ReportOutcome
  unfolding report_attempts default_backoff
  report_result_with_retry unknown answer =
      report_attempts unknown answer (default_backoff at_least_one scale two)
        report_result_max_retries 0

  -- Whether the reason came to the master.
  unfoldable pub error_attempts :
      (ℕ → Option ReportReadyResponse) → ExponentialBackoff F → ℕ → ℕ → Tried Bool
  unfolding next_delay
  error_attempts answer b zero attempt = stopped false 0
  error_attempts answer b (suc fuel) attempt =
      let (d, after) = next_delay at_least_one scale b in
      let again = tried_again d (error_attempts answer after fuel (suc attempt)) in
      elim (answer attempt) [
        | some r ↦ stopped true 1
        | none ↦ if ltb (suc attempt) ready_error_max_retries then again else stopped false 1
      ]

  unfoldable pub send_ready_error : (ℕ → Option ReportReadyResponse) → Tried Bool
  unfolding error_attempts default_backoff
  send_ready_error answer =
      error_attempts answer (default_backoff at_least_one scale two) ready_error_max_retries 0
