-- ===== src/Master/Timeline.antt =====
-- One job through a run of the master: it is later and later the same job, until it is dropped.
use mathlib.Core.Option.{some-injective}
use cvdbench.Base.{
  ℕ, ◌≡◌, ◌≢◌, refl, sym, ◌∙◌, subst, if_pos, if_neg, false, Option-cases, ◌⊎◌, inl, inr, List, [],
  ◌∷◌, Option, none, some, Text, text_eq, arith,
}
use cvdbench.Base.Map.{
  Map, lookup, insert, remove, lookup-insert_self, lookup-insert_ne, lookup-remove,
}
use cvdbench.Base.Results.{Result-cases}
use cvdbench.Proto.Specs
use cvdbench.Proto.Reports.{failed}
use cvdbench.Metrics.{Platform}
use cvdbench.Master.State.{JobRecord, JobError, MasterState, SchedulerConfig, Now}
use cvdbench.Master.Job.{is_terminal}
use cvdbench.Master.Events.{emit_for_job}
use cvdbench.Master.Create.{Files, new_record, create_job, store_job, enqueue}
use cvdbench.Master.Gc
use cvdbench.Master.Staleness
use cvdbench.Master.Calls.{
  Call, creates, fetches, readies, takes_files, tells_progress, tells_result, deletes, watches,
  manifest_fails, manifest_push, manifest_ends, manifest_scans, stale_tick, gc_tick, interferes,
  step, run, push_entry,
}
use cvdbench.Master.Changes.{Changes, unchanged, changed}
use cvdbench.Master.Changes.Rounds.{fetch_job-Changes}
use cvdbench.Master.Changes.Barrier.{report_ready-Changes}
use cvdbench.Master.Changes.Reports.{
  fetch_file_batch-Changes, report_progress-Changes, report_result-Changes,
}
use cvdbench.Master.Changes.Clients.{
  delete_job-Changes, watch_job-jobs, fail_job-Changes, adjust-Changes, push_entry-Ops, counted-Ops,
}
use cvdbench.Master.Invariant.{stale_tick-jobs}
use cvdbench.Master.History.{Later, Later-refl, Later-trans, Ops-Later, finish-Later}

-- The job is gone, or its record is a later one.
abbrev pub Seen : Text → JobRecord → Map JobRecord → Type 0
Seen j r jobs = (lookup j jobs ≡ none) ⊎ ((r' : JobRecord) × (lookup j jobs ≡ some r') × Later r r')

-- No job is created under the id.
abbrev pub Avoids : Text → List (Now × Call) → Type 0
Avoids j [] = Unit
Avoids j ((now, creates files id request) ∷ cs) = (id ≢ j) × Avoids j cs
Avoids j ((now, fetches w) ∷ cs) = Avoids j cs
Avoids j ((now, readies k w e) ∷ cs) = Avoids j cs
Avoids j ((now, takes_files k w n) ∷ cs) = Avoids j cs
Avoids j ((now, tells_progress k p) ∷ cs) = Avoids j cs
Avoids j ((now, tells_result k x) ∷ cs) = Avoids j cs
Avoids j ((now, deletes k) ∷ cs) = Avoids j cs
Avoids j ((now, watches k) ∷ cs) = Avoids j cs
Avoids j ((now, manifest_fails k e) ∷ cs) = Avoids j cs
Avoids j ((now, manifest_push k e) ∷ cs) = Avoids j cs
Avoids j ((now, manifest_ends k b) ∷ cs) = Avoids j cs
Avoids j ((now, manifest_scans k x) ∷ cs) = Avoids j cs
Avoids j ((now, stale_tick) ∷ cs) = Avoids j cs
Avoids j ((now, gc_tick) ∷ cs) = Avoids j cs
Avoids j ((now, interferes q a w) ∷ cs) = Avoids j cs

module _ ⦃pf : Platform⦄ where
  changed-Seen :
      (j k : Text) (r₀ r r' : JobRecord) (jobs : Map JobRecord)
      → lookup k jobs ≡ some r
      → Later r r'
      → Seen j r₀ jobs
      → Seen j r₀ (insert k r' jobs)
  changed-Seen j k r₀ r r' jobs e l seen = elim (text_eq k j) [
    | no n ↦
        subst (λ o. (o ≡ none) ⊎ ((r₂ : JobRecord) × (o ≡ some r₂) × Later r₀ r₂))
          (sym (lookup-insert_ne j k r' jobs n)) seen
    | yes p ↦ elim seen [
      | inl gone ↦ cc
      | inr (r₁, here, l₁) ↦
          let same : r₁ ≡ r =
            some-injective _ _ (sym here ∙ subst (λ x. lookup x jobs ≡ some r) p e) in
          inr (
            r',
            subst (λ x. lookup x (insert k r' jobs) ≡ some r') p (lookup-insert_self k r' jobs),
            Later-trans r₀ r r' (subst (Later r₀) same l₁) l,
          )
    ]
  ]

  Changes-Seen :
      (j : Text) (r : JobRecord) (jobs jobs' : Map JobRecord)
      → Changes jobs jobs'
      → Seen j r jobs
      → Seen j r jobs'
  Changes-Seen j r jobs jobs' unchanged seen = seen
  Changes-Seen j r jobs jobs' (changed {jobs' = jobs₁} k r₁ r₂ c e ops p) seen =
      subst (Seen j r) (sym p) (
        changed-Seen j k r r₁ r₂ jobs₁ e (Ops-Later r₁ r₂ ops) (Changes-Seen j r jobs jobs₁ c seen))

  create_job-Seen :
      (files : Files) (id : Text) (now : Now) (request : Option Specs.BenchSpec) (s : MasterState)
      (j : Text) (r : JobRecord)
      → id ≢ j
      → Seen j r s.jobs
      → Seen j r (create_job files id now request s).1.jobs
  unfolding create_job enqueue store_job emit_for_job
  create_job-Seen files id now request s j r n seen =
      elim (Result-cases (new_record files s.config id now request)) [
        | inl (r', e) ↦
            rw (e, create_job)
              (subst (λ o. (o ≡ none) ⊎ ((r₂ : JobRecord) × (o ≡ some r₂) × Later r r₂))
                (sym (lookup-insert_ne j id r' s.jobs n)) seen)
        | inr (x, e) ↦ rw (e, create_job) seen
      ]

  overdue-is_open :
      (c : SchedulerConfig) (now : ℕ) (r : JobRecord) (x : JobError)
      → Staleness.overdue_reason c now r ≡ some x
      → is_terminal r ≡ false
  unfolding Staleness.overdue_reason
  overdue-is_open c now r x e = ground arith

  sweep_record-Later :
      (c : SchedulerConfig) (now : Now) (r : JobRecord) → Later r (Staleness.sweep_record c now r)
  unfolding Staleness.sweep_record
  sweep_record-Later c now r = elim (Option-cases (Staleness.overdue_reason c now.instant r)) [
    | inl e ↦ rw (e, Staleness.sweep_record) (Later-refl r)
    | inr (x, e) ↦
        rw (e, Staleness.sweep_record)
          (finish-Later failed (some x) now.unix_ms r (overdue-is_open c now.instant r x e) refl)
  ]

  pub lookup-sweep_jobs :
      (j : Text) (c : SchedulerConfig) (now : Now) (jobs : Map JobRecord)
      → lookup j (Staleness.sweep_jobs c now jobs)
        ≡ (elim (lookup j jobs) [ none ↦ none | some r ↦ some (Staleness.sweep_record c now r) ])
  unfolding lookup Staleness.sweep_jobs
  lookup-sweep_jobs j c now [] = refl
  lookup-sweep_jobs j c now ((id, r) ∷ jobs) = ground (arith, lookup-sweep_jobs j c now jobs)

  sweep_jobs-Seen :
      (j : Text) (r : JobRecord) (c : SchedulerConfig) (now : Now) (jobs : Map JobRecord)
      → Seen j r jobs
      → Seen j r (Staleness.sweep_jobs c now jobs)
  sweep_jobs-Seen j r c now jobs (inl gone) = inl (lookup-sweep_jobs j c now jobs ∙ rw gone refl)
  sweep_jobs-Seen j r c now jobs (inr (r₁, here, l)) = inr (
    Staleness.sweep_record c now r₁,
    lookup-sweep_jobs j c now jobs ∙ rw here refl,
    Later-trans r r₁ _ l (sweep_record-Later c now r₁),
  )

  remove-Seen :
      (j k : Text) (r : JobRecord) (jobs : Map JobRecord) → Seen j r jobs → Seen j r (remove k jobs)
  remove-Seen j k r jobs seen = elim (text_eq k j) [
    | yes p ↦ inl (lookup-remove j k jobs ∙ if_pos (text_eq k j) p _ _)
    | no n ↦
        subst (λ o. (o ≡ none) ⊎ ((r₂ : JobRecord) × (o ≡ some r₂) × Later r r₂))
          (sym (lookup-remove j k jobs ∙ if_neg (text_eq k j) n _ _)) seen
  ]

  remove_all-Seen :
      (j : Text) (r : JobRecord) (ids : List Text) (jobs : Map JobRecord)
      → Seen j r jobs
      → Seen j r (Gc.remove_all ids jobs)
  unfolding Gc.remove_all
  remove_all-Seen j r [] jobs seen = seen
  remove_all-Seen j r (id ∷ ids) jobs seen =
      remove_all-Seen j r ids (remove id jobs) (remove-Seen j id r jobs seen)

  run-Seen :
      (cs : List (Now × Call)) (s : MasterState) (j : Text) (r : JobRecord)
      → Avoids j cs
      → Seen j r s.jobs
      → Seen j r (run s cs).jobs
  unfolding run step Gc.tick_once
  run-Seen [] s j r a seen = seen
  run-Seen ((now, creates files id request) ∷ cs) s j r a seen =
      run-Seen cs (step s (now, creates files id request)) j r a.1
        (create_job-Seen files id now request s j r a.0 seen)
  run-Seen ((now, fetches w) ∷ cs) s j r a seen =
      run-Seen cs (step s (now, fetches w)) j r a
        (Changes-Seen j r _ _ (fetch_job-Changes w now s) seen)
  run-Seen ((now, readies k w e) ∷ cs) s j r a seen =
      run-Seen cs (step s (now, readies k w e)) j r a
        (Changes-Seen j r _ _ (report_ready-Changes k w e now s) seen)
  run-Seen ((now, takes_files k w n) ∷ cs) s j r a seen =
      run-Seen cs (step s (now, takes_files k w n)) j r a
        (Changes-Seen j r _ _ (fetch_file_batch-Changes k w n now s) seen)
  run-Seen ((now, tells_progress k p) ∷ cs) s j r a seen =
      run-Seen cs (step s (now, tells_progress k p)) j r a
        (Changes-Seen j r _ _ (report_progress-Changes k p now s) seen)
  run-Seen ((now, tells_result k x) ∷ cs) s j r a seen =
      run-Seen cs (step s (now, tells_result k x)) j r a
        (Changes-Seen j r _ _ (report_result-Changes k x now s) seen)
  run-Seen ((now, deletes k) ∷ cs) s j r a seen =
      run-Seen cs (step s (now, deletes k)) j r a
        (Changes-Seen j r _ _ (delete_job-Changes k now s) seen)
  run-Seen ((now, watches k) ∷ cs) s j r a seen =
      run-Seen cs (step s (now, watches k)) j r a
        (subst (Seen j r) (sym (watch_job-jobs k now s)) seen)
  run-Seen ((now, manifest_fails k e) ∷ cs) s j r a seen =
      run-Seen cs (step s (now, manifest_fails k e)) j r a
        (Changes-Seen j r _ _ (fail_job-Changes k e now s) seen)
  run-Seen ((now, manifest_push k e) ∷ cs) s j r a seen =
      run-Seen cs (step s (now, manifest_push k e)) j r a
        (Changes-Seen j r _ _ (adjust-Changes k (push_entry e) s (push_entry-Ops e)) seen)
  run-Seen ((now, manifest_ends k b) ∷ cs) s j r a seen =
      run-Seen cs (step s (now, manifest_ends k b)) j r a (
        Changes-Seen j r _ _
          (adjust-Changes k (λ x. record x { manifest_done = b }) s
            (λ x. counted-Ops b x.manifest_scan_stats x))
          seen)
  run-Seen ((now, manifest_scans k x) ∷ cs) s j r a seen =
      run-Seen cs (step s (now, manifest_scans k x)) j r a (
        Changes-Seen j r _ _
          (adjust-Changes k (λ y. record y { manifest_scan_stats = x }) s
            (λ y. counted-Ops y.manifest_done x y))
          seen)
  run-Seen ((now, stale_tick) ∷ cs) s j r a seen = run-Seen cs (step s (now, stale_tick)) j r a (
      subst (Seen j r) (sym (stale_tick-jobs now s))
        (sweep_jobs-Seen j r s.config.scheduler now s.jobs seen))
  run-Seen ((now, gc_tick) ∷ cs) s j r a seen =
      run-Seen cs (step s (now, gc_tick)) j r a
        (remove_all-Seen j r (Gc.to_remove s.config.scheduler now s.jobs) s.jobs seen)
  run-Seen ((now, interferes q act w) ∷ cs) s j r a seen =
      run-Seen cs (step s (now, interferes q act w)) j r a seen

  -- If a job has a record and no later call creates a job under the same id, the job's record after
  -- any list of calls, as long as there is one, is a later one of the same job: same id, time of
  -- creation, credentials and mount point, a status that is not further back among pending,
  -- preparing, running and terminal, and, if the job was terminal, the same status, error, results,
  -- aggregate and time of end.
  pub run-Later :
      (cs : List (Now × Call)) (s : MasterState) (j : Text) (r r' : JobRecord)
      → Avoids j cs
      → lookup j s.jobs ≡ some r
      → lookup j (run s cs).jobs ≡ some r'
      → Later r r'
  run-Later cs s j r r' a here there = elim (run-Seen cs s j r a (inr (r, here, Later-refl r))) [
    | inl gone ↦ cc
    | inr (r₁, found, l) ↦ subst (Later r) (some-injective _ _ (sym found ∙ there)) l
  ]
