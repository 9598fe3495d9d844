-- ===== src/Master/History.antt =====
-- How a record may change over time: its status only moves forward, and a finished job is history.
use cvdbench.Base.{
  ℕ, ◌≤◌, ◌≡◌, refl, sym, ap, ◌∙◌, subst, true, false, Bool-cases, Option-cases, ◌⊎◌, inl, inr,
  Option, Text, arith,
}
use cvdbench.Proto.Reports.{
  JobStatus, unspecified, pending, preparing, running, completed, failed, cancelled, WorkerResult,
}
use cvdbench.Metrics.{Platform}
use cvdbench.Master.State.{JobRecord, JobError, MasterConfig, SchedulerConfig, Now}
use cvdbench.Master.Job.{
  is_terminal, is_terminal_status, is_cancelled, touch, give_slot, enter_preparing,
  enter_preparing_from,
}
use cvdbench.Master.Manifest.{start_for_file_queue_job, source_of}
use cvdbench.Master.Ready.{mark_ready, barrier_opens, open_barrier}
use cvdbench.Master.Result.{conclude, takes_result}
use cvdbench.Master.Terminal.{finish}
use cvdbench.Master.Validity.Results.{conclude_over}
use cvdbench.Master.Changes.{
  SameJob, Op, quiet, slot, prepared, reads, marked, ended, concluded, queued, Ops, stop, chain,
}

-- PENDING, PREPARING, RUNNING, and then an end.
abbrev pub rank : JobStatus → ℕ
rank unspecified = 0
rank pending = 1
rank preparing = 2
rank running = 3
rank completed = 4
rank failed = 4
rank cancelled = 4

-- What is final once a job is finished.
pub record SameEnd (r r' : JobRecord) : Type 0 where
  pub status : r'.status ≡ r.status
  pub error : r'.error ≡ r.error
  pub worker_results : r'.worker_results ≡ r.worker_results
  pub aggregated : r'.aggregated ≡ r.aggregated
  pub terminal_at_ms : r'.terminal_at_ms ≡ r.terminal_at_ms

pub record Later (r r' : JobRecord) : Type 0 where
  pub same : SameJob r r'
  pub forward : rank r.status ≤ rank r'.status
  pub final : is_terminal r ≡ true → SameEnd r r'

-- Nothing that counts has changed.
kept-Later : (r r' : JobRecord) → SameJob r r' → SameEnd r r' → Later r r'
kept-Later r r' j e = record {
  same = j;
  forward = subst (λ st. rank r.status ≤ rank st) (sym e.status) (omega arith);
  final = λ t. e;
}

-- A job that is not finished moves forward.
moved-Later :
    (r r' : JobRecord)
    → SameJob r r'
    → is_terminal r ≡ false
    → rank r.status ≤ rank r'.status
    → Later r r'
moved-Later r r' j t f = record { same = j; forward = f; final = λ t'. cc }

pub Later-refl : (r : JobRecord) → Later r r
Later-refl r =
    kept-Later r _
      (record { job_id = refl; created_at_ms = refl; credentials = refl; mount_point = refl })
      (record {
        status = refl;
        error = refl;
        worker_results = refl;
        aggregated = refl;
        terminal_at_ms = refl;
      })

pub Later-trans : (r r' r'' : JobRecord) → Later r r' → Later r' r'' → Later r r''
Later-trans r r' r'' a b = record {
  same = record {
    job_id = b.same.job_id ∙ a.same.job_id;
    created_at_ms = b.same.created_at_ms ∙ a.same.created_at_ms;
    credentials = b.same.credentials ∙ a.same.credentials;
    mount_point = b.same.mount_point ∙ a.same.mount_point;
  };
  forward = omega (arith, a.forward, b.forward);
  final = λ t.
      let e = a.final t in
      let d = b.final (ap is_terminal_status e.status ∙ t) in
      record {
        status = d.status ∙ e.status;
        error = d.error ∙ e.error;
        worker_results = d.worker_results ∙ e.worker_results;
        aggregated = d.aggregated ∙ e.aggregated;
        terminal_at_ms = d.terminal_at_ms ∙ e.terminal_at_ms;
      };
}

enter_preparing_from-Later :
    (st : JobStatus) (now : ℕ) (r : JobRecord)
    → r.status ≡ st
    → Later r (enter_preparing_from st now r)
unfolding enter_preparing_from
enter_preparing_from-Later pending now r e =
    moved-Later r _
      (record { job_id = refl; created_at_ms = refl; credentials = refl; mount_point = refl })
      (rw e refl) (rw e (omega arith))
enter_preparing_from-Later unspecified now r e = Later-refl r
enter_preparing_from-Later preparing now r e = Later-refl r
enter_preparing_from-Later running now r e = Later-refl r
enter_preparing_from-Later completed now r e = Later-refl r
enter_preparing_from-Later failed now r e = Later-refl r
enter_preparing_from-Later cancelled now r e = Later-refl r

reads-Later : (c : MasterConfig) (r : JobRecord) → Later r (start_for_file_queue_job c r)
unfolding start_for_file_queue_job
reads-Later c r = elim (Option-cases (source_of r.spec_redacted)) [
  | inl e ↦ rw (e, start_for_file_queue_job) (Later-refl r)
  | inr (s, e) ↦
      rw (e, start_for_file_queue_job)
        (kept-Later r _
          (record { job_id = refl; created_at_ms = refl; credentials = refl; mount_point = refl })
          (record {
            status = refl;
            error = refl;
            worker_results = refl;
            aggregated = refl;
            terminal_at_ms = refl;
          }))
]

marked-Later :
    (c : SchedulerConfig) (w : Text) (now : Now) (r : JobRecord)
    → is_terminal r ≡ false
    → Later r (mark_ready c w now r).0
unfolding mark_ready barrier_opens open_barrier
marked-Later c w now r t =
    moved-Later r _
      (record {
        job_id = ground arith;
        created_at_ms = ground arith;
        credentials = ground arith;
        mount_point = ground arith;
      })
      t (ground arith)

rank-top : (st st' : JobStatus) → is_terminal_status st' ≡ true → rank st ≤ rank st'
rank-top st st' t = ground arith

module _ ⦃pf : Platform⦄ where
  pub finish-Later :
      (st : JobStatus) (error : Option JobError) (now : ℕ) (r : JobRecord)
      → is_terminal r ≡ false
      → is_terminal_status st ≡ true
      → Later r (finish st error now r)
  unfolding finish
  finish-Later st error now r t e =
      moved-Later r _
        (record { job_id = refl; created_at_ms = refl; credentials = refl; mount_point = refl }) t
        (rank-top r.status st e)

  pub lost-is_terminal :
      (st : JobStatus) → (st ≡ failed) ⊎ (st ≡ cancelled) → is_terminal_status st ≡ true
  lost-is_terminal st (inl e) = ap is_terminal_status e
  lost-is_terminal st (inr e) = ap is_terminal_status e

  concluded-Later :
      (x : WorkerResult) (now : ℕ) (r : JobRecord)
      → takes_result r.status ≡ true
      → Later r (conclude x now r).0
  unfolding conclude
  concluded-Later x now r takes =
      let same : SameJob r (conclude x now r).0 = record {
        job_id = ground arith;
        created_at_ms = ground arith;
        credentials = ground arith;
        mount_point = ground arith;
      } in
      elim (Bool-cases (is_cancelled r.status)) [
        | inl over ↦
            let e = conclude_over x now r over in
            kept-Later r _ same (record {
              status = ap (λ c. c.status) e;
              error = ground arith;
              worker_results = ap (λ c. c.worker_results) e;
              aggregated = ap (λ c. c.aggregated) e;
              terminal_at_ms = ap (λ c. c.terminal_at_ms) e;
            })
        | inr going ↦ moved-Later r _ same (ground arith) (ground arith)
      ]

  -- Any change of a record by the operations of the master keeps its job id, time of creation,
  -- credentials and mount point, never moves its status back along pending, preparing, running and
  -- terminal, and, if the job is terminal, keeps its status, error, results, aggregate and time of end.
  pub Op-Later : (r r' : JobRecord) → Op r r' → Later r r'
  unfolding give_slot touch enter_preparing
  Op-Later r r' (quiet e x j) = kept-Later r r' j (record {
    status = ap (λ c. c.status) e;
    error = x;
    worker_results = ap (λ c. c.worker_results) e;
    aggregated = ap (λ c. c.aggregated) e;
    terminal_at_ms = ap (λ c. c.terminal_at_ms) e;
  })
  Op-Later r r' (slot w now p f e) = subst (Later r) (sym e) (
      kept-Later r _
        (record { job_id = refl; created_at_ms = refl; credentials = refl; mount_point = refl })
        (record {
          status = refl;
          error = refl;
          worker_results = refl;
          aggregated = refl;
          terminal_at_ms = refl;
        }))
  Op-Later r r' (prepared now e) =
      subst (Later r) (sym e) (enter_preparing_from-Later r.status now r refl)
  Op-Later r r' (reads c t e) = subst (Later r) (sym e) (reads-Later c r)
  Op-Later r r' (marked c w now k t e) = subst (Later r) (sym e) (marked-Later c w now r t)
  Op-Later r r' (ended st error now t s e) =
      subst (Later r) (sym e) (finish-Later st error now r t (lost-is_terminal st s))
  Op-Later r r' (concluded x now t k e) = subst (Later r) (sym e) (concluded-Later x now r t)
  Op-Later r r' (queued q q' p c e) = subst (Later r) (sym e) (
      kept-Later r _
        (record { job_id = refl; created_at_ms = refl; credentials = refl; mount_point = refl })
        (record {
          status = refl;
          error = refl;
          worker_results = refl;
          aggregated = refl;
          terminal_at_ms = refl;
        }))

  pub Ops-Later : (r r' : JobRecord) → Ops r r' → Later r r'
  Ops-Later r r' stop = Later-refl r
  Ops-Later r r' (chain {r' = r₁} ops op) =
      Later-trans r r₁ r' (Ops-Later r r₁ ops) (Op-Later r₁ r' op)
