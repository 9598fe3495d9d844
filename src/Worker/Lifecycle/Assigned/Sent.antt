-- ===== src/Worker/Lifecycle/Assigned/Sent.antt =====
-- Which jobs of a worker come to a result, and which to an error before they are ready:
-- crates/cvd-worker/src/lifecycle.rs.
use cvdbench.Base.{
  ap, codes, length, ℕ, ◌≡◌, refl, sym, Bool, true, false, Option, none, some, Text, is_empty,
  if◌then◌else◌, inl, inr, ◌⊎◌,
}
use cvdbench.Base.Int.{ℤ, pos}
use cvdbench.Base.Results.{Result, ok, err}
use cvdbench.Master.Replies.{FetchJobResponse}
use cvdbench.Proto.Reports.{WorkerResult}
use cvdbench.Spec.{BenchSpec}
use cvdbench.Worker.Clock.{MasterClockOffset, from_response}
use cvdbench.Worker.Lifecycle.{
  Refusal, parse_and_validate, BarrierOutcome, start, barrier_cancelled, barrier_unknown,
  wait_for_start_barrier,
}
use cvdbench.Worker.Lifecycle.Waits.{Ends, wait_for_start_barrier-Ends}
use cvdbench.Worker.Lifecycle.Assigned.{
  Run, Handled, nothing_sent, missing_mount_point, build_result_no_metrics, final_result,
  after_barrier, after_preflight, after_validation, after_mount, run_assigned_job,
}

-- How a result came about, by the outcome of the wait at the barrier: the job was cancelled there, and
-- the result says so and reports success; or it was started, the master still knew of it at the end,
-- and the result is the one after the runners.
abbrev pub Passed :
    {P : Type 0} → Text → BenchSpec → Run P → Option BarrierOutcome → WorkerResult → Type 0
Passed worker_id spec run o r =
    ((o ≡ some barrier_cancelled) × (r.success ≡ true) × (r.error ≡ some (codes "cancelled")))
    ⊎ ((t : ℤ) × (clock : MasterClockOffset) × (o ≡ some (start t))
        × (run.unknown ≡ false)
        × (r ≡ final_result worker_id spec t clock run))

same_result : {a b : WorkerResult} → some a ≡ some b → a ≡ b
same_result e = cc

module _ {P : Type 0} {F : Type 0} (at_least_one : F → F) (scale : F → ℕ → ℕ) (two : F) where
  -- The grounds of a result.
  pub record Earned (worker_id : Text) (resp : FetchJobResponse) (run : Run P) (r : WorkerResult)
      : Type 0 where
    pub spec : BenchSpec
    pub accepted : parse_and_validate resp.spec ≡ ok spec
    pub layout : Option P
    pub prepared : run.preflight ≡ ok layout
    pub outcome : Option BarrierOutcome
    pub turns : ℕ
    pub ended : Ends run.rounds outcome turns
    pub passed : Passed worker_id spec run outcome r

  barrier-Passed :
      (worker_id : Text) (spec : BenchSpec) (layout : Option P) (run : Run P)
      (clock : MasterClockOffset) (o : Option BarrierOutcome) (r : WorkerResult)
      → (after_barrier worker_id spec layout run clock o).result ≡ some r
      → Passed worker_id spec run o r
  unfolding after_barrier build_result_no_metrics
  barrier-Passed worker_id spec layout run clock none r e = cc
  barrier-Passed worker_id spec layout run clock (some barrier_unknown) r e = cc
  barrier-Passed worker_id spec layout run clock (some barrier_cancelled) r e =
      let same = same_result e in
      inl (refl, ap (λ x. x.success) (sym same), ap (λ x. x.error) (sym same))
  barrier-Passed worker_id spec layout run clock (some (start t)) r e = started run.unknown refl e
    where
      started :
          (b : Bool)
          → run.unknown ≡ b
          → (if b then none else some (final_result worker_id spec t clock run)) ≡ some r
          → Passed worker_id spec run (some (start t)) r
      started true u h = cc
      started false u h = inr (t, clock, refl, u, sym (same_result h))

  prepared-Earned :
      (worker_id : Text) (resp : FetchJobResponse) (clock : MasterClockOffset) (run : Run P)
      (r : WorkerResult) (spec : BenchSpec) (p : Result Text (Option P))
      → parse_and_validate resp.spec ≡ ok spec
      → run.preflight ≡ p
      → (after_preflight at_least_one scale two worker_id clock run spec p).result ≡ some r
      → Earned worker_id resp run r
  unfolding after_preflight
  prepared-Earned worker_id resp clock run r spec (err reason) e f h = cc
  prepared-Earned worker_id resp clock run r spec (ok layout) e f h =
      let w = wait_for_start_barrier at_least_one scale two clock run.rounds in
      record {
        spec = spec;
        accepted = e;
        layout = layout;
        prepared = f;
        outcome = w.outcome;
        turns = length w.slept;
        ended = (wait_for_start_barrier-Ends at_least_one scale two clock run.rounds).0;
        passed = barrier-Passed worker_id spec layout run w.clock w.outcome r h;
      }

  validated-Earned :
      (worker_id : Text) (resp : FetchJobResponse) (clock : MasterClockOffset) (run : Run P)
      (r : WorkerResult) (v : Result Refusal BenchSpec)
      → parse_and_validate resp.spec ≡ v
      → (after_validation at_least_one scale two worker_id clock run v).result ≡ some r
      → Earned worker_id resp run r
  unfolding after_validation
  validated-Earned worker_id resp clock run r (err reason) e h = cc
  validated-Earned worker_id resp clock run r (ok spec) e h =
      prepared-Earned worker_id resp clock run r spec run.preflight e refl h

  mount-Earned :
      (worker_id : Text) (resp : FetchJobResponse) (run : Run P) (r : WorkerResult)
      (mount : Option Text)
      → (after_mount at_least_one scale two worker_id resp run mount).result ≡ some r
      → Earned worker_id resp run r
  unfolding after_mount
  mount-Earned worker_id resp run r none h = cc
  mount-Earned worker_id resp run r (some mount) h = by_mount (is_empty mount) h
    where
      by_mount :
          (b : Bool)
          → (if b
              then record nothing_sent { ready_error = some missing_mount_point }
              else after_validation at_least_one scale two worker_id
                  (from_response (pos resp.master_now_ms) run.received)
                  run
                  (parse_and_validate resp.spec)).result
            ≡ some r
          → Earned worker_id resp run r
      by_mount true g = cc
      by_mount false g =
          validated-Earned worker_id resp (from_response (pos resp.master_now_ms) run.received) run
            r (parse_and_validate resp.spec) refl g

  -- A result is sent for a job only if its specification parses and is valid and the preflight went
  -- well; and only if the first turn at the barrier that decided anything was a cancellation, which the
  -- result names as its error while it reports success, or a start, and the master still knew of the
  -- job after the runners, whose result it is.
  pub run_assigned_job-Earned :
      (worker_id : Text) (resp : FetchJobResponse) (run : Run P) (r : WorkerResult)
      → (run_assigned_job at_least_one scale two worker_id resp run).result ≡ some r
      → Earned worker_id resp run r
  unfolding run_assigned_job
  run_assigned_job-Earned worker_id resp run r h = by_job resp.job_id h
    where
      by_job :
          (id : Option Text)
          → (elim id as (λ x. Handled P) [
            | none ↦ nothing_sent
            | some i ↦ after_mount at_least_one scale two worker_id resp run resp.mount_point
          ]).result
            ≡ some r
          → Earned worker_id resp run r
      by_job none g = cc
      by_job (some i) g = mount-Earned worker_id resp run r resp.mount_point g
