-- ===== src/Master/Changes/Barrier.antt =====
-- The records that `report_ready` changes.
use cvdbench.Base.{
  ◌≡◌, refl, Option, none, some, Text, true, false, Bool-cases, Option-cases, inl, inr,
}
use cvdbench.Base.Map.{lookup, insert, contains_key}
use cvdbench.Proto.Reports.{failed}
use cvdbench.WorkerId.{validate, Checked-cases}
use cvdbench.Metrics.{Platform}
use cvdbench.Master.State.{JobRecord, MasterState, Now, ready_failure}
use cvdbench.Master.Job.{is_preparing, is_cancelled, is_terminal, touch}
use cvdbench.Master.Events.{emit_for_job, finalize_stream}
use cvdbench.Master.Terminal.{finish}
use cvdbench.Master.Ready.{
  report_ready, ready_known, ready_assigned, ready_ok, fail_ready, mark_ready,
}
use cvdbench.Master.Changes.{marked, ended, Ops, stop, chain, Changes, unchanged, only, touch-Op}

-- The start of the barrier may be told, or not: the jobs are the same.
module _ ⦃pf : Platform⦄ (j w : Text) (now : Now) (r : JobRecord) (s : MasterState) where
  ready_ok-jobs :
      (ready_ok j w now r s).1.jobs ≡ insert j (mark_ready s.config.scheduler w now r).0 s.jobs
  unfolding ready_ok emit_for_job
  ready_ok-jobs = elim (Bool-cases (mark_ready s.config.scheduler w now r).1) [
    | inl e ↦ rw e
    | inr e ↦ rw e
  ]

  fail_ready-jobs :
      (reason : Text)
      → (fail_ready j w reason now r s).jobs
        ≡ insert j (finish failed (some (ready_failure w reason)) now.unix_ms r) s.jobs
  unfolding fail_ready finalize_stream emit_for_job
  fail_ready-jobs reason = refl

  ready_assigned-Changes :
      (error : Option Text) (r₀ : JobRecord)
      → lookup j s.jobs ≡ some r₀
      → Ops r₀ r
      → is_terminal r ≡ false
      → contains_key w r.worker_assignments ≡ true
      → Changes s.jobs (ready_assigned j w error now r s).1.jobs
  unfolding ready_assigned
  ready_assigned-Changes none r₀ e ops going known =
      rw ready_ok-jobs
        (only j r₀ _ e (chain ops (marked s.config.scheduler w now known going refl)))
  ready_assigned-Changes (some reason) r₀ e ops going known =
      elim (Bool-cases (is_preparing r.status)) [
        | inl p ↦ rw p (
            rw (fail_ready-jobs reason)
              (only j r₀ _ e (chain ops (ended failed _ now.unix_ms going (inl refl) refl))))
        | inr p ↦ rw p (only j r₀ r e ops)
      ]

module _ ⦃pf : Platform⦄ where
  ready_known-Changes :
      (j w : Text) (error : Option Text) (now : Now) (r : JobRecord) (s : MasterState)
      → lookup j s.jobs ≡ some r
      → Changes s.jobs (ready_known j w error now r s).1.jobs
  unfolding ready_known
  ready_known-Changes j w error now r s e = elim (Bool-cases (is_cancelled r.status)) [
    | inl c ↦ rw c unchanged
    | inr c ↦ elim (Bool-cases (is_terminal r)) [
      | inl t ↦ rw (c, t) unchanged
      | inr t ↦ elim (Bool-cases (contains_key w r.worker_assignments)) [
        | inr k ↦ rw (c, t, k) unchanged
        | inl k ↦
            rw (c, t, k)
              (ready_assigned-Changes j w now (touch w now.instant r) s error r e
                (chain stop (touch-Op w now.instant r)) t k)
      ]
    ]
  ]

  pub report_ready-Changes :
      (j w : Text) (error : Option Text) (now : Now) (s : MasterState)
      → Changes s.jobs (report_ready j w error now s).1.jobs
  unfolding report_ready
  report_ready-Changes j w error now s = elim (Checked-cases (validate w)) [
    | inr (x, e) ↦ rw (e, report_ready) unchanged
    | inl e ↦ elim (Option-cases (lookup j s.jobs)) [
      | inl l ↦ rw (e, report_ready) (rw (l, report_ready) unchanged)
      | inr (r, l) ↦
          rw (e, report_ready) (rw (l, report_ready) (ready_known-Changes j w error now r s l))
    ]
  ]
