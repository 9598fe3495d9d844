-- ===== src/Master/Validity/Results.antt =====
-- `store_result` and the outcome to which it takes the job.
use cvdbench.Base.{
  ℕ, ◌≤◌, ◌≡◌, refl, sym, ap, subst, true, false, Option, some, arith, length, Bool-cases, inl, inr,
  ◌==◌, length-map,
}
use cvdbench.Base.Map.{keys, insert, All-insert}
use cvdbench.Base.Sets.{
  IsNodup, IsSubset, contains, contains-add, add-IsNodup, keys-insert, IsSubset-full,
}
use cvdbench.Metrics.{Platform}
use cvdbench.Proto.Reports.{running, completed, failed, WorkerResult}
use cvdbench.Master.State.{JobRecord, JobError}
use cvdbench.Master.Job.{is_cancelled, is_terminal_status}
use cvdbench.Master.Result.{takes_result, conclude, failure_reason}
use cvdbench.Master.Terminal.{finish}
use cvdbench.Master.Validity.{
  core, IsValid, IsValidCore, Stands, IsSettledIf, HasRun, AllReady, AllSucceeded,
}
use cvdbench.Master.Validity.Ends.{finish-IsValid, finish-IsSettledIf}

-- The record of a running job with one more result.
abbrev with_result : WorkerResult → JobRecord → JobRecord
with_result x r = record r { worker_results = insert x.worker_id x r.worker_results }

module _ (x : WorkerResult) (r : JobRecord) where
  results_run-insert :
      IsSubset (keys r.worker_results) r.run_workers
      → contains x.worker_id r.run_workers ≡ true
      → IsSubset (keys (insert x.worker_id x r.worker_results)) r.run_workers
  results_run-insert sub here k e = ground (
    arith,
    contains-add k x.worker_id (keys r.worker_results),
    sub k,
    ap (contains k) (keys-insert x.worker_id x r.worker_results),
  )

  -- A success keeps a running job valid.
  succeeded-IsValid :
      IsValid r
      → r.status ≡ running
      → contains x.worker_id r.run_workers ≡ true
      → x.success ≡ true
      → IsValid (with_result x r)
  succeeded-IsValid v p here good = record {
    within = v.within;
    distinct = v.distinct;
    ready_distinct = v.ready_distinct;
    ready_assigned = v.ready_assigned;
    results_distinct = rw keys-insert (add-IsNodup x.worker_id _ v.results_distinct);
    results_run = results_run-insert v.results_run here;
    stands =
        subst (λ st. Stands st (core (with_result x r))) (sym p)
          (
            runs.0,
            runs.1,
            All-insert (λ y. y.success ≡ true) x.worker_id x r.worker_results good runs.2,
          );
    settled = subst (λ st. IsSettledIf (is_terminal_status st) (core (with_result x r))) (sym p) tt;
    redacted = v.redacted;
  }
    where
      runs : HasRun (core r) × AllReady (core r) × AllSucceeded (core r)
      runs = subst (λ st. Stands st (core r)) p v.stands

-- As many results as workers run: every worker of the run has one, and they all succeeded.
complete-Stands :
    (r : JobRecord)
    → IsValid r
    → r.status ≡ running
    → length r.worker_results ≡ length r.run_workers
    → Stands completed (core r)
complete-Stands r v p full = (
  runs.0,
  runs.1,
  runs.2,
  IsSubset-full (keys r.worker_results) r.run_workers v.results_distinct run_distinct v.results_run
      enough,
)
  where
    runs : HasRun (core r) × AllReady (core r) × AllSucceeded (core r)
    runs = subst (λ st. Stands st (core r)) p v.stands

    run_distinct : IsNodup r.run_workers
    run_distinct = subst IsNodup (sym runs.0) v.distinct

    enough : length r.run_workers ≤ length (keys r.worker_results)
    enough = omega (arith, length-map (λ e. e.0) r.worker_results)

module _ ⦃pf : Platform⦄ (x : WorkerResult) (now : ℕ) (r : JobRecord) where
  -- A failure ends the job, and its result is kept with the others.
  failed_result-IsValid :
      (error : Option JobError)
      → IsValid r
      → contains x.worker_id r.run_workers ≡ true
      → IsValid (finish failed error now (with_result x r))
  unfolding finish
  failed_result-IsValid error v here = record {
    within = v.within;
    distinct = v.distinct;
    ready_distinct = v.ready_distinct;
    ready_assigned = v.ready_assigned;
    results_distinct = rw keys-insert (add-IsNodup x.worker_id _ v.results_distinct);
    results_run = results_run-insert x r v.results_run here;
    stands = tt;
    settled = finish-IsSettledIf error now (with_result x r) failed;
    redacted = v.redacted;
  }

  -- The three ways of a result, by the core of the record that comes out.
  pub conclude_over : is_cancelled r.status ≡ true → core (conclude x now r).0 ≡ core r
  unfolding conclude
  conclude_over over = ground arith

  conclude_failed :
      is_cancelled r.status ≡ false
      → x.success ≡ false
      → core (conclude x now r).0
        ≡ core (finish failed (some (failure_reason x)) now (with_result x r))
  unfolding conclude
  conclude_failed going bad = ground arith

  conclude_waiting :
      is_cancelled r.status ≡ false
      → x.success ≡ true
      → (length (insert x.worker_id x r.worker_results) == length r.run_workers) ≡ false
      → core (conclude x now r).0 ≡ core (with_result x r)
  unfolding conclude
  conclude_waiting going good fewer = ground arith

  conclude_full :
      is_cancelled r.status ≡ false
      → x.success ≡ true
      → (length (insert x.worker_id x r.worker_results) == length r.run_workers) ≡ true
      → core (conclude x now r).0 ≡ core (finish completed r.error now (with_result x r))
  unfolding conclude
  conclude_full going good full = ground arith

  running_result-IsValid :
      IsValid r
      → r.status ≡ running
      → contains x.worker_id r.run_workers ≡ true
      → IsValid (conclude x now r).0
  running_result-IsValid v p here = elim (Bool-cases x.success) [
    | inr bad ↦ subst IsValidCore (sym (conclude_failed going bad)) (failed_result-IsValid _ v here)
    | inl good ↦
        let stored : IsValid (with_result x r) = succeeded-IsValid x r v p here good in
        elim (Bool-cases (length (insert x.worker_id x r.worker_results) == length r.run_workers)) [
          | inr fewer ↦ subst IsValidCore (sym (conclude_waiting going good fewer)) stored
          | inl full ↦ subst IsValidCore (sym (conclude_full going good full)) (
              finish-IsValid r.error now (with_result x r) completed refl
                (complete-Stands (with_result x r) stored p (ground arith)) stored)
        ]
  ]
    where
      going : is_cancelled r.status ≡ false
      going = ground arith

  pub conclude-IsValid :
      IsValid r
      → takes_result r.status ≡ true
      → contains x.worker_id r.run_workers ≡ true
      → IsValid (conclude x now r).0
  conclude-IsValid v open_job here = elim (Bool-cases (is_cancelled r.status)) [
    | inl over ↦ subst IsValidCore (sym (conclude_over over)) v
    | inr going ↦ running_result-IsValid v (ground arith) here
  ]
