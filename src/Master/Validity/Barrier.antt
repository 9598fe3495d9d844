-- ===== src/Master/Validity/Barrier.antt =====
-- `mark_ready`: the barrier opens only when every worker of the run is ready.
use cvdbench.Base.{
  ◌≡◌, sym, subst, Bool, true, false, ◌||◌, [], Text, arith, length, Bool-cases, inl, inr, All,
}
use cvdbench.Base.Map.{contains_key}
use cvdbench.Base.Sets.{
  IsNodup, IsSubset, add, contains-add, add-IsNodup, contains-keys, IsSubset-full,
}
use cvdbench.Proto.Reports.{
  JobStatus, unspecified, pending, preparing, running, completed, failed, cancelled,
}
use cvdbench.Master.State.{JobRecord, SchedulerConfig, Now}
use cvdbench.Master.Job.{is_pending, is_preparing, is_terminal_status}
use cvdbench.Master.Ready.{mark_ready, barrier_opens, open_barrier}
use cvdbench.Master.Validity.{core, IsValid, Stands, IsSettledIf, HasRun, AllReady}

-- The record in which one more worker is ready.
abbrev pub more_ready : Text → JobRecord → JobRecord
more_ready w r = record r { ready_workers = add w r.ready_workers }

module _ (w : Text) (r : JobRecord) where
  -- More workers are ready, and nothing else changes.
  ready-Stands : (st : JobStatus) → Stands st (core r) → Stands st (core (more_ready w r))
  ready-Stands unspecified s = s
  ready-Stands pending s = s
  ready-Stands preparing s = s
  ready-Stands running s =
      (s.0, (λ k e. ground (arith, contains-add k w r.ready_workers, s.1 k e)), s.2)
  ready-Stands completed s =
      (s.0, (λ k e. ground (arith, contains-add k w r.ready_workers, s.1 k e)), s.2, s.3)
  ready-Stands failed s = s
  ready-Stands cancelled s = s

  ready-IsSettled : (b : Bool) → IsSettledIf b (core r) → IsSettledIf b (core (more_ready w r))
  ready-IsSettled true s = s
  ready-IsSettled false s = s

  more_ready-IsValid :
      IsValid r → contains_key w r.worker_assignments ≡ true → IsValid (more_ready w r)
  more_ready-IsValid v known = record {
    within = v.within;
    distinct = v.distinct;
    ready_distinct = add-IsNodup w r.ready_workers v.ready_distinct;
    ready_assigned = λ k e. ground (
      arith,
      contains-add k w r.ready_workers,
      v.ready_assigned k,
      contains-keys k r.worker_assignments,
    );
    results_distinct = v.results_distinct;
    results_run = v.results_run;
    stands = ready-Stands r.status v.stands;
    settled = ready-IsSettled (is_terminal_status r.status) v.settled;
    redacted = v.redacted;
  }

-- As many workers are ready as run: so all are.
all_ready :
    (r : JobRecord)
    → IsValid r
    → HasRun (core r)
    → length r.ready_workers ≡ length r.run_workers
    → AllReady (core r)
all_ready r v run full =
    IsSubset-full r.ready_workers r.run_workers v.ready_distinct
      (subst IsNodup (sym run) v.distinct)
      (subst (IsSubset r.ready_workers) (sym run) v.ready_assigned) (omega arith)

open_barrier-IsValid :
    (c : SchedulerConfig) (now : Now) (r : JobRecord)
    → IsValid r
    → barrier_opens r ≡ true
    → IsValid (open_barrier c now r)
unfolding open_barrier barrier_opens
open_barrier-IsValid c now r v opens = record {
  within = v.within;
  distinct = v.distinct;
  ready_distinct = v.ready_distinct;
  ready_assigned = v.ready_assigned;
  results_distinct = v.results_distinct;
  results_run = v.results_run;
  stands = (
    prepared.0,
    all_ready r v prepared.0 full,
    subst (All (λ e. e.1.success ≡ true)) (sym prepared.1) tt,
  );
  settled = tt;
  redacted = v.redacted;
}
  where
    is_prepared : r.status ≡ preparing
    is_prepared = ground arith

    full : length r.ready_workers ≡ length r.run_workers
    full = ground arith

    prepared : HasRun (core r) × (r.worker_results ≡ [])
    prepared = subst (λ st. Stands st (core r)) is_prepared v.stands

pub mark_ready-IsValid :
    (c : SchedulerConfig) (w : Text) (now : Now) (r : JobRecord)
    → IsValid r
    → contains_key w r.worker_assignments ≡ true
    → IsValid (mark_ready c w now r).0
unfolding mark_ready
mark_ready-IsValid c w now r v known =
    elim (Bool-cases (is_preparing r.status || is_pending r.status)) [
      | inr shut ↦ rw shut v
      | inl waits ↦ elim (Bool-cases (barrier_opens (more_ready w r))) [
        | inl opens ↦
            rw (waits, opens)
              (open_barrier-IsValid c now (more_ready w r) (more_ready-IsValid w r v known) opens)
        | inr shut ↦ rw (waits, shut) (more_ready-IsValid w r v known)
      ]
    ]
