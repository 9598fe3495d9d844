-- ===== src/Master/Staleness.antt =====
-- crates/cvd-master/src/scheduler/staleness.rs: the watcher that fails jobs whose workers are silent.
-- Three passes for one: the records, the events in the order of the records, the workers let go.
use cvdbench.Base.{
  ℕ, ◌-◌, ◌/◌, Bool, true, false, ◌&&◌, List, [], ◌∷◌, Option, none, some, Text, if◌then◌else◌, ltb,
  min, max,
}
use cvdbench.Base.Map.{Map, lookup, keys}
use cvdbench.Proto.Reports.{JobStatus, preparing, running, failed, status_change}
use cvdbench.Metrics.{Platform}
use cvdbench.Master.State.{
  JobRecord, JobError, MasterState, SchedulerConfig, Now, as_millis, stale_worker, prepare_timeout,
}
use cvdbench.Master.Job.{is_preparing}
use cvdbench.Master.Events.{emit_for_job, finalize_stream}
use cvdbench.Master.Terminal.{finish, release_workers}

-- 100 ms and 5 s, in nanoseconds.
unfoldable pub tick_interval : SchedulerConfig → ℕ
tick_interval c = min (max (c.worker_staleness / 3) 100_000_000) 5_000_000_000

abbrev pub or_else {ℓ} : {A : Type ℓ} → Option A → Option A → Option A
or_else none b = b
or_else (some a) b = some a

abbrev pub get_or {ℓ} : {A : Type ℓ} → Option A → A → A
get_or none d = d
get_or (some a) d = a

unfoldable pub age_of : JobRecord → ℕ → Text → ℕ
age_of r now w = now - get_or (or_else (lookup w r.worker_last_seen) r.preparing_since) now

unfoldable pub find_stale : JobRecord → ℕ → ℕ → List Text → Option (Text × ℕ)
unfolding age_of
find_stale r now threshold [] = none
find_stale r now threshold (w ∷ ws) =
    let rest = find_stale r now threshold ws in
    if ltb threshold (age_of r now w) then some (w, age_of r now w) else rest

unfoldable pub find_stale_worker : JobRecord → ℕ → ℕ → Option (Text × ℕ)
unfolding find_stale
find_stale_worker r now threshold = find_stale r now threshold r.run_workers

unfoldable pub prepare_overdue : SchedulerConfig → ℕ → JobRecord → Bool
prepare_overdue c now r =
    is_preparing r.status
    && (elim r.preparing_since [ none ↦ false | some t ↦ ltb c.prepare_timeout (now - t) ])

abbrev pub is_watched : JobStatus → Bool
is_watched s = elim s [ preparing ↦ true | running ↦ true | _ ↦ false ]

-- Why the job is given up, if it is.
unfoldable pub overdue_reason : SchedulerConfig → ℕ → JobRecord → Option JobError
unfolding find_stale_worker prepare_overdue
overdue_reason c now r =
    if is_watched r.status
    then (elim (find_stale_worker r now c.worker_staleness) [
      | some (w, age) ↦ some (stale_worker w (as_millis age) (as_millis c.worker_staleness))
      | none ↦
          if prepare_overdue c now r
          then some (prepare_timeout (as_millis c.prepare_timeout))
          else none
    ])
    else none

module _ ⦃pf : Platform⦄ where
  unfoldable pub sweep_record : SchedulerConfig → Now → JobRecord → JobRecord
  unfolding overdue_reason finish
  sweep_record c now r = elim (overdue_reason c now.instant r) [
    | none ↦ r
    | some reason ↦ finish failed (some reason) now.unix_ms r
  ]

  unfoldable pub sweep_jobs : SchedulerConfig → Now → Map JobRecord → Map JobRecord
  unfolding sweep_record
  sweep_jobs c now [] = []
  sweep_jobs c now ((id, r) ∷ jobs) = (id, sweep_record c now r) ∷ sweep_jobs c now jobs

  -- The jobs that are given up, as they were.
  unfoldable pub overdue : SchedulerConfig → Now → Map JobRecord → Map JobRecord
  overdue c now [] = []
  overdue c now ((id, r) ∷ jobs) =
      let rest = overdue c now jobs in
      elim (overdue_reason c now.instant r) [ none ↦ rest | some reason ↦ (id, r) ∷ rest ]

  unfoldable pub emit_overdue : SchedulerConfig → Now → Map JobRecord → MasterState → MasterState
  unfolding sweep_record
  emit_overdue c now [] s = s
  emit_overdue c now ((id, r) ∷ jobs) s =
      emit_overdue c now jobs (emit_for_job s (sweep_record c now r) status_change now)

unfoldable pub release_overdue : Map JobRecord → MasterState → MasterState
release_overdue [] s = s
release_overdue ((id, r) ∷ jobs) s = release_overdue jobs (record s {
  worker_active_jobs = release_workers id (keys r.worker_assignments) s.worker_active_jobs;
})

unfoldable pub finalize_overdue : Map JobRecord → MasterState → MasterState
finalize_overdue [] s = s
finalize_overdue ((id, r) ∷ jobs) s = finalize_overdue jobs (finalize_stream s id)

module _ ⦃pf : Platform⦄ where
  unfoldable pub tick_once : Now → MasterState → MasterState
  unfolding sweep_jobs overdue emit_overdue release_overdue finalize_overdue
  tick_once now s =
      let c = s.config.scheduler in
      let gone = overdue c now s.jobs in
      let swept = record s { jobs = sweep_jobs c now s.jobs } in
      finalize_overdue gone (release_overdue gone (emit_overdue c now gone swept))
