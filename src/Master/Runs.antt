-- ===== src/Master/Runs.antt =====
-- What holds of the master in every run: any calls, in any order, at any times.
use cvdbench.Base.{◌≡◌, sym, ◌∙◌, subst, true, List, [], ◌∷◌, some, Text, All}
use cvdbench.Base.Map.{lookup, contains_key, All-lookup}
use cvdbench.Base.Sets.{contains, contains-keys}
use cvdbench.Proto.Reports.{running, completed}
use cvdbench.Metrics.{Platform}
use cvdbench.Master.State.{JobRecord, MasterState, Now}
use cvdbench.Master.Calls.{
  Call, creates, fetches, readies, takes_files, tells_progress, tells_result, deletes, watches,
  manifest_fails, manifest_push, manifest_ends, manifest_scans, stale_tick, gc_tick, interferes,
  step, run, push_entry,
}
use cvdbench.Master.Validity.{IsValid, core, Stands}
use cvdbench.Master.Validity.Ops.{AllValid, Changes-AllValid}
use cvdbench.Master.Changes.Rounds.{fetch_job-Changes}
use cvdbench.Master.Changes.Barrier.{report_ready-Changes}
use cvdbench.Master.Changes.Reports.{
  fetch_file_batch-Changes, report_progress-Changes, report_result-Changes,
}
use cvdbench.Master.Changes.Clients.{
  delete_job-Changes, watch_job-jobs, fail_job-Changes, adjust-Changes, push_entry-Ops, counted-Ops,
}
use cvdbench.Master.Invariant.{
  create_job-AllValid, remove_all-AllValid, sweep_jobs-AllValid, stale_tick-jobs,
}
use cvdbench.Master.Gc

module _ ⦃pf : Platform⦄ where
  step-AllValid :
      (s : MasterState) (now : Now) (c : Call) → AllValid s.jobs → AllValid (step s (now, c)).jobs
  unfolding step Gc.tick_once
  step-AllValid s now (creates files id request) v = create_job-AllValid files id now request s v
  step-AllValid s now (fetches w) v = Changes-AllValid _ _ (fetch_job-Changes w now s) v
  step-AllValid s now (readies j w e) v = Changes-AllValid _ _ (report_ready-Changes j w e now s) v
  step-AllValid s now (takes_files j w n) v =
      Changes-AllValid _ _ (fetch_file_batch-Changes j w n now s) v
  step-AllValid s now (tells_progress j p) v =
      Changes-AllValid _ _ (report_progress-Changes j p now s) v
  step-AllValid s now (tells_result j x) v =
      Changes-AllValid _ _ (report_result-Changes j x now s) v
  step-AllValid s now (deletes j) v = Changes-AllValid _ _ (delete_job-Changes j now s) v
  step-AllValid s now (watches j) v = subst AllValid (sym (watch_job-jobs j now s)) v
  step-AllValid s now (manifest_fails j reason) v =
      Changes-AllValid _ _ (fail_job-Changes j reason now s) v
  step-AllValid s now (manifest_push j e) v =
      Changes-AllValid _ _ (adjust-Changes j (push_entry e) s (push_entry-Ops e)) v
  step-AllValid s now (manifest_ends j b) v =
      Changes-AllValid _ _
        (adjust-Changes j (λ r. record r { manifest_done = b }) s
          (λ r. counted-Ops b r.manifest_scan_stats r))
        v
  step-AllValid s now (manifest_scans j stats) v =
      Changes-AllValid _ _
        (adjust-Changes j (λ r. record r { manifest_scan_stats = stats }) s
          (λ r. counted-Ops r.manifest_done stats r))
        v
  step-AllValid s now stale_tick v =
      subst AllValid (sym (stale_tick-jobs now s))
        (sweep_jobs-AllValid s.config.scheduler now s.jobs v)
  step-AllValid s now gc_tick v =
      remove_all-AllValid (Gc.to_remove s.config.scheduler now s.jobs) s.jobs v
  step-AllValid s now (interferes queue active watchers) v = v

  -- If every record of the master is valid, every record is still valid after any list of calls.
  -- A valid record has no more assignments than target workers, has each worker once, has a ready
  -- set among the assigned workers and results only from workers of the run, has the facts that its
  -- status stands for, is settled if the status is terminal, and shows no key in its specification.
  pub run-AllValid :
      (cs : List (Now × Call)) (s : MasterState) → AllValid s.jobs → AllValid (run s cs).jobs
  unfolding run
  run-AllValid [] s v = v
  run-AllValid ((now, c) ∷ cs) s v = run-AllValid cs (step s (now, c)) (step-AllValid s now c v)

  -- After any list of calls on a master with valid records, if a job is completed, each worker of
  -- its run has reported a result, and every result that is stored says success.
  pub run-completed :
      (cs : List (Now × Call)) (s : MasterState) (j w : Text) (r : JobRecord)
      → AllValid s.jobs
      → lookup j (run s cs).jobs ≡ some r
      → r.status ≡ completed
      → contains w r.run_workers ≡ true
      → (contains_key w r.worker_results ≡ true) × All (λ e. e.1.success ≡ true) r.worker_results
  run-completed cs s j w r v here done member =
      let valid = All-lookup IsValid j _ r (run-AllValid cs s v) here in
      let facts = subst (λ st. Stands st (core r)) done valid.stands in
      (sym (contains-keys w r.worker_results) ∙ facts.3 w member, facts.2)

  -- After any list of calls on a master with valid records, if a job is running, each worker that
  -- has a slot of the job is a worker of the run and is ready.
  pub run-running :
      (cs : List (Now × Call)) (s : MasterState) (j w : Text) (r : JobRecord)
      → AllValid s.jobs
      → lookup j (run s cs).jobs ≡ some r
      → r.status ≡ running
      → contains_key w r.worker_assignments ≡ true
      → (contains w r.run_workers ≡ true) × (contains w r.ready_workers ≡ true)
  run-running cs s j w r v here started member =
      let valid = All-lookup IsValid j _ r (run-AllValid cs s v) here in
      let facts = subst (λ st. Stands st (core r)) started valid.stands in
      let in_run : contains w r.run_workers ≡ true =
        subst (λ ws. contains w ws ≡ true) (sym facts.0)
          (contains-keys w r.worker_assignments ∙ member) in
      (in_run, facts.1 w in_run)
