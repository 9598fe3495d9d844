-- ===== src/Master/Validity/Slots.antt =====
-- Taking slots: `new`, `touch`, `try_assign`, `enter_preparing` and the start of the manifest reader.
use cvdbench.Base.{
  ℕ, ◌-◌, ◌≤◌, ◌≡◌, refl, true, false, [], Option, Text, arith, min, length, ap, Option-cases,
  subst, sym, inl, inr, ◌≢◌,
}
use cvdbench.Base.Map.{Map, keys, insert, length-insert}
use cvdbench.Base.Sets.{contains, contains-add, add-IsNodup, keys-insert}
use cvdbench.Proto.Reports.{
  JobStatus, unspecified, pending, preparing, running, completed, failed, cancelled,
}
use cvdbench.Proto.Specs.{BenchSpec, S3CredentialMaterial}
use cvdbench.Master.State.{JobRecord, WorkerAssignment, MasterConfig}
use cvdbench.Master.Job.{
  new, touch, give_slot, is_terminal, is_terminal_status, enter_preparing_from, enter_preparing,
  slots_remaining, max_u32,
}
use cvdbench.Master.Manifest.{start_for_file_queue_job, source_of}
use cvdbench.Master.Validity.{core, IsValid, Stands, IsSettledIf, requeue-Stands, IsRedacted}

pub new-IsValid :
    (id : Text) (spec : BenchSpec) (cred : Option S3CredentialMaterial) (mount : Text)
    (target now : ℕ)
    → IsRedacted spec
    → IsValid (new id spec cred mount target now)
unfolding new contains
new-IsValid id spec cred mount target now h = record {
  within = omega arith;
  distinct = tt;
  ready_distinct = tt;
  ready_assigned = λ k e. e;
  results_distinct = tt;
  results_run = λ k e. e;
  stands = (refl, refl);
  settled = tt;
  redacted = h;
}

pub touch-IsValid : (w : Text) (now : ℕ) (r : JobRecord) → IsValid r → IsValid (touch w now r)
unfolding touch
touch-IsValid w now r v = v

-- One more worker takes at most one more slot.
assign-within :
    (w : Text) (a : WorkerAssignment) (m : Map WorkerAssignment) (target : ℕ)
    → (target - min (length m) max_u32) ≢ 0
    → min (length (insert w a m)) max_u32 ≤ target
assign-within w a m target h = ground (arith, length-insert w a m)

pub give_slot-IsValid :
    (w : Text) (now : ℕ) (r : JobRecord)
    → IsValid r
    → r.status ≡ pending
    → slots_remaining r ≢ 0
    → IsValid (give_slot w now r)
unfolding give_slot slots_remaining
give_slot-IsValid w now r v p free = record {
  within = assign-within w _ r.worker_assignments r.target_workers free;
  distinct = rw keys-insert (add-IsNodup w _ v.distinct);
  ready_distinct = v.ready_distinct;
  ready_assigned = λ k e.
      rw keys-insert
        (ground (arith, contains-add k w (keys r.worker_assignments), v.ready_assigned k e));
  results_distinct = v.results_distinct;
  results_run = v.results_run;
  stands = subst (λ st. Stands st (core (give_slot w now r))) (sym p) pending_stands;
  settled = subst (λ st. IsSettledIf (is_terminal_status st) (core (give_slot w now r))) (sym p) tt;
  redacted = v.redacted;
}
  where
    pending_stands : (r.run_workers ≡ []) × (r.worker_results ≡ [])
    pending_stands = subst (λ st. Stands st (core r)) p v.stands

enter_preparing_from-IsValid :
    (st : JobStatus) (now : ℕ) (r : JobRecord)
    → r.status ≡ st
    → IsValid r
    → IsValid (enter_preparing_from st now r)
unfolding enter_preparing_from contains
enter_preparing_from-IsValid pending now r p v = record {
  within = v.within;
  distinct = v.distinct;
  ready_distinct = v.ready_distinct;
  ready_assigned = v.ready_assigned;
  results_distinct = v.results_distinct;
  results_run = λ k e. absurd (no_result k e);
  stands = (refl, waiting.1);
  settled = tt;
  redacted = v.redacted;
}
  where
    waiting : (r.run_workers ≡ []) × (r.worker_results ≡ [])
    waiting = subst (λ st. Stands st (core r)) p v.stands

    no_result : (k : Text) → contains k (keys r.worker_results) ≡ true → ⊥
    no_result k e = cc (ap (λ m. contains k (keys m)) waiting.1)
enter_preparing_from-IsValid unspecified now r p v = v
enter_preparing_from-IsValid preparing now r p v = v
enter_preparing_from-IsValid running now r p v = v
enter_preparing_from-IsValid completed now r p v = v
enter_preparing_from-IsValid failed now r p v = v
enter_preparing_from-IsValid cancelled now r p v = v

pub enter_preparing-IsValid :
    (now : ℕ) (r : JobRecord) → IsValid r → IsValid (enter_preparing now r)
unfolding enter_preparing
enter_preparing-IsValid now r v = enter_preparing_from-IsValid r.status now r refl v

-- The reader is started for a job that is not finished.
pub start_for_file_queue_job-IsValid :
    (c : MasterConfig) (r : JobRecord)
    → IsValid r
    → is_terminal r ≡ false
    → IsValid (start_for_file_queue_job c r)
unfolding start_for_file_queue_job
start_for_file_queue_job-IsValid c r v open_job = elim (Option-cases (source_of r.spec_redacted)) [
  | inl e ↦ rw (e, start_for_file_queue_job) v
  | inr (s, e) ↦
      rw (e, start_for_file_queue_job)
        (record {
          within = v.within;
          distinct = v.distinct;
          ready_distinct = v.ready_distinct;
          ready_assigned = v.ready_assigned;
          results_distinct = v.results_distinct;
          results_run = v.results_run;
          stands = requeue-Stands r.status (core r) _ _ v.stands;
          settled = rw open_job tt;
          redacted = v.redacted;
        })
]
