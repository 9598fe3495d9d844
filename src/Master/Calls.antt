-- ===== src/Master/Calls.antt =====
-- What can happen to the master: each RPC, each tick of a watcher, the moves of the manifest tasks on
-- their shared parts of a record, and `interferes`, by which the critical sections of other threads
-- set the queue, the table of active workers and the watchers in between, as they like.
use cvdbench.Base.{Bool, List, [], ◌∷◌, Option, none, some, Text}
use cvdbench.Base.Int.{ℤ}
use cvdbench.Base.Map.{Map, lookup, insert}
use cvdbench.Proto.Specs.{BenchSpec}
use cvdbench.Proto.Reports.{WorkerProgress, WorkerResult, FileEntry}
use cvdbench.Queues.Bounded.{BoundedQueue, Pushed, waits, queue_closed, pushed, push}
use cvdbench.Metrics.{Platform}
use cvdbench.Master.State.{JobRecord, ManifestScanStats, EventSender, MasterState, Now}
use cvdbench.Master.Create.{Files, create_job}
use cvdbench.Master.Fetch.{fetch_job}
use cvdbench.Master.Ready.{report_ready}
use cvdbench.Master.Batch.{fetch_file_batch}
use cvdbench.Master.Progress.{report_progress}
use cvdbench.Master.Result.{report_result}
use cvdbench.Master.Delete.{delete_job}
use cvdbench.Master.Watch.{watch_job}
use cvdbench.Master.Manifest.{fail_job_due_to_manifest}
use cvdbench.Master.Staleness
use cvdbench.Master.Gc

pub data Call : Type 0 where
  creates : Files → Text → Option BenchSpec → Call
  fetches : Text → Call
  readies : Text → Text → Option Text → Call
  takes_files : Text → Text → ℤ → Call
  tells_progress : Text → Option WorkerProgress → Call
  tells_result : Text → Option WorkerResult → Call
  deletes : Text → Call
  watches : Text → Call
  manifest_fails : Text → Text → Call
  manifest_push : Text → FileEntry → Call
  manifest_ends : Text → Bool → Call
  manifest_scans : Text → ManifestScanStats → Call
  stale_tick : Call
  gc_tick : Call
  interferes : List Text → Map Text → Map (List EventSender) → Call

-- A change of the one record, if the job is there.
unfoldable pub adjust : Text → (JobRecord → JobRecord) → MasterState → MasterState
adjust job_id f s = elim (lookup job_id s.jobs) [
  | none ↦ s
  | some r ↦ record s { jobs = insert job_id (f r) s.jobs }
]

abbrev pub after_push : BoundedQueue FileEntry → Pushed FileEntry → BoundedQueue FileEntry
after_push q waits = q
after_push q queue_closed = q
after_push q (pushed q') = q'

unfoldable pub push_entry : FileEntry → JobRecord → JobRecord
unfolding push
push_entry e r = record r {
  file_queue = elim r.file_queue [ none ↦ none | some q ↦ some (after_push q (push e q)) ];
}

module _ ⦃pf : Platform⦄ where
  unfoldable pub step : MasterState → Now × Call → MasterState
  unfolding adjust
  step s (now, creates files id request) = (create_job files id now request s).1
  step s (now, fetches w) = (fetch_job w now s).1
  step s (now, readies j w error) = (report_ready j w error now s).1
  step s (now, takes_files j w n) = (fetch_file_batch j w n now s).1
  step s (now, tells_progress j p) = (report_progress j p now s).1
  step s (now, tells_result j x) = (report_result j x now s).1
  step s (now, deletes j) = (delete_job j now s).1
  step s (now, watches j) = (watch_job j now s).1
  step s (now, manifest_fails j reason) = fail_job_due_to_manifest j reason now s
  step s (now, manifest_push j e) = adjust j (push_entry e) s
  step s (now, manifest_ends j b) = adjust j (λ r. record r { manifest_done = b }) s
  step s (now, manifest_scans j stats) = adjust j (λ r. record r { manifest_scan_stats = stats }) s
  step s (now, stale_tick) = Staleness.tick_once now s
  step s (now, gc_tick) = Gc.tick_once now s
  step s (now, interferes queue active watchers) = record s {
    pending_queue = queue;
    worker_active_jobs = active;
    subscribers = watchers;
  }

  unfoldable pub run : MasterState → List (Now × Call) → MasterState
  unfolding step
  run s [] = s
  run s (c ∷ cs) = run (step s c) cs
