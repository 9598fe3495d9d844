-- ===== src/Tests/Jobs.antt =====
-- The theorems on the jobs of the master, at the run of one job.
use cvdbench.Base.{codes, ◌≡◌, refl, true, none, All, arith, text_eq}
use cvdbench.Base.Map.{values, lookup, insert, contains_key}
use cvdbench.Base.Sets.{contains, add}
use cvdbench.WorkerId.{validate}
use cvdbench.Master.State.{JobRecord}
use cvdbench.Master.Job.{new, try_assign}
use cvdbench.Master.Calls.{run}
use cvdbench.Master.Events.{emit_for_job}
use cvdbench.Master.Fetch.{fetch_job}
use cvdbench.Master.Ready.{report_ready}
use cvdbench.Master.Result.{report_result}
use cvdbench.Master.Staleness
use cvdbench.Master.Staleness.{get_or}
use cvdbench.Master.Validity.Slots.{new-IsValid}
use cvdbench.Master.Validity.Ops.{AllValid}
use cvdbench.Master.Runs.{run-AllValid, run-completed, run-running}
use cvdbench.Master.History.{Later}
use cvdbench.Master.Timeline.{run-Later}
use cvdbench.Master.Gc
use cvdbench.Master.Retention.{gc_tick-lookup}
use cvdbench.Master.Silence.{IsSwept, stale_tick-IsSwept}
use cvdbench.Base.Sets.{delete}
use cvdbench.Base.{ℕ, List, [], some, take}
use mathlib.Core.List.{Permᴰ}
use cvdbench.Base.Int.{pos}
use cvdbench.Master.Replies.{ok}
use cvdbench.Master.Fetch.{assigned_response}
use cvdbench.Master.Delete.{delete_job}
use cvdbench.Master.Watch.{Job, list_jobs}
use cvdbench.Master.Replay.{fetch_job-again}
use cvdbench.Master.Cancel.{IsCancelled, delete_job-IsCancelled}
use cvdbench.Base.{false, ◌∷◌}
use cvdbench.Proto.Reports.{status_change}
use cvdbench.Master.State.{JobEvent, event}
use cvdbench.Master.Events.{build_event, broadcast}
use cvdbench.Master.Watchers.{HasReceived, broadcast-received}
use cvdbench.Master.Listing.{IsNewestFirst, IsLimit, Picks, list_jobs-Picks}
use cvdbench.Tests.Fixtures.{
  at, scheduler, toy, start, to_running, finishing, to_completed, job, ann, fresh, spec,
}

-- The job's record when both workers are ready, and in the end.
abbrev started : JobRecord
unfolding run
started = get_or (lookup job (run ⦃pf = toy⦄ start to_running).jobs) fresh

abbrev done : JobRecord
unfolding run
done = get_or (lookup job (run ⦃pf = toy⦄ start to_completed).jobs) fresh

start-AllValid : AllValid start.jobs
unfolding new
start-AllValid = (new-IsValid job spec none (codes "/mnt/fs") 2 1_000 tt, tt)

run-AllValid_example : AllValid (run ⦃pf = toy⦄ start to_completed).jobs
run-AllValid_example = run-AllValid ⦃pf = toy⦄ to_completed start start-AllValid

run-completed_example :
    (contains_key ann done.worker_results ≡ true)
    × All (λ e. e.1.success ≡ true) done.worker_results
unfolding run new lookup report_result validate report_ready fetch_job text_eq try_assign insert
    emit_for_job add contains
run-completed_example =
    run-completed ⦃pf = toy⦄ to_completed start job ann done start-AllValid refl refl refl

run-running_example :
    (contains ann started.run_workers ≡ true) × (contains ann started.ready_workers ≡ true)
unfolding run new lookup report_result validate report_ready fetch_job text_eq try_assign insert
    emit_for_job add contains
run-running_example =
    run-running ⦃pf = toy⦄ to_running start job ann started start-AllValid refl refl refl

run-Later_example : Later started done
unfolding run new lookup report_result validate report_ready fetch_job text_eq try_assign insert
    emit_for_job add contains
run-Later_example =
    run-Later ⦃pf = toy⦄ finishing (run ⦃pf = toy⦄ start to_running) job started done tt refl refl

-- The job is dropped once it is kept for its 72 hours.
gc_tick-lookup_example :
    lookup job (Gc.tick_once (at 259_200_006) (run ⦃pf = toy⦄ start to_completed)).jobs ≡ none
unfolding run new lookup report_result validate report_ready fetch_job text_eq try_assign insert
    emit_for_job add contains
gc_tick-lookup_example =
    gc_tick-lookup (at 259_200_006) (run ⦃pf = toy⦄ start to_completed) job (omega arith) (refl, tt)

-- Both workers were heard of in time.
stale_tick-IsSwept_example :
    (r : JobRecord) × (lookup job
        (Staleness.tick_once ⦃pf = toy⦄ (at 5) (run ⦃pf = toy⦄ start to_running)).jobs
      ≡ some r)
    × IsSwept scheduler 5 started r
unfolding run new lookup report_result validate report_ready fetch_job text_eq try_assign insert
    emit_for_job add contains
stale_tick-IsSwept_example =
    stale_tick-IsSwept ⦃pf = toy⦄ (at 5) (run ⦃pf = toy⦄ start to_running) job started refl

-- Ann fetches the job twice.
fetch_job-again_example :
    (fetch_job ann (at 2) (fetch_job ann (at 1) start).1).0
    ≡ ok (record (assigned_response job fresh (record { worker_index = 0 }) (at 1)) {
      master_now_ms = 1_002;
    })
unfolding run new lookup report_result validate report_ready fetch_job text_eq try_assign insert
    emit_for_job add contains assigned_response
fetch_job-again_example =
    fetch_job-again ann (at 1) (at 2) start
      (assigned_response job fresh (record { worker_index = 0 }) (at 1)) refl refl

-- A pending job is cancelled.
delete_job-IsCancelled_example :
    ((delete_job ⦃pf = toy⦄ job (at 1) start).0 ≡ ok tt)
    × IsCancelled job fresh (delete_job ⦃pf = toy⦄ job (at 1) start).1
    × ((delete_job ⦃pf = toy⦄ job (at 1) start).1.pending_queue ≡ [])
unfolding run new lookup report_result validate report_ready fetch_job text_eq try_assign insert
    emit_for_job add contains delete
delete_job-IsCancelled_example = delete_job-IsCancelled ⦃pf = toy⦄ job (at 1) fresh start refl refl

-- A request for completed jobs, with a limit above the greatest.
list_jobs-Picks_example :
    let s = run ⦃pf = toy⦄ start to_completed in
    (shown : List Job) × (sorted : List Job) × (n : ℕ) × Picks (some (pos 4)) (values s.jobs) shown
    × Permᴰ sorted shown
    × IsNewestFirst sorted
    × IsLimit (pos 5_000) n
    × (list_jobs (some (pos 4)) (pos 5_000) s ≡ take n sorted)
list_jobs-Picks_example =
    list_jobs-Picks (some (pos 4)) (pos 5_000) (run ⦃pf = toy⦄ start to_completed)

-- One watcher, and one that is gone.
abbrev first_event : JobEvent
unfolding build_event
first_event = (build_event start fresh status_change (at 1)).0

broadcast-received_example :
    All
      (HasReceived (event first_event))
      (record { queued = event first_event ∷ []; receiver_closed = false } ∷ [])
unfolding lookup text_eq broadcast insert
broadcast-received_example =
    broadcast-received job first_event
      ((
        job,
        record { queued = []; receiver_closed = false }
            ∷ record { queued = []; receiver_closed = true }
            ∷ [],
      )
        ∷ [])
      (record { queued = event first_event ∷ []; receiver_closed = false } ∷ []) refl
