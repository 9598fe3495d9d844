-- ===== src/Master/Silence.antt =====
-- What a tick of the staleness watcher makes of each job.
use cvdbench.Base.{
  All, ℕ, ◌+◌, ◌-◌, ◌≤◌, ◌<◌, ◌≡◌, ◌≢◌, refl, sym, ◌∙◌, subst, true, false, inl, inr, ◌⊎◌, List, [],
  ◌∷◌, none, some, Text, arith, Option-cases, Bool-cases,
}
use cvdbench.Base.Map.{lookup}
use cvdbench.Base.Sets.{contains, All-contains}
use cvdbench.Proto.Reports.{
  JobStatus, failed, unspecified, pending, preparing, running, completed, cancelled,
}
use cvdbench.Metrics.{Platform}
use cvdbench.Master.State.{
  JobRecord, JobError, stale_worker, prepare_timeout, MasterState, SchedulerConfig, Now, as_millis,
}
use cvdbench.Master.Job.{is_preparing}
use cvdbench.Master.Terminal.{finish}
use cvdbench.Master.Staleness.{
  age_of, find_stale, find_stale_worker, prepare_overdue, is_watched, overdue_reason, sweep_record,
  tick_once,
}
use cvdbench.Master.Invariant.{stale_tick-jobs}
use cvdbench.Master.Timeline.{lookup-sweep_jobs}

-- The time from which the silence of a worker counts: it was last heard of then, or it was never
-- heard of and the preparation of the job began then.
abbrev pub IsSilentSince : JobRecord → Text → ℕ → Type 0
IsSilentSince r w t =
    (lookup w r.worker_last_seen ≡ some t)
    ⊎ ((lookup w r.worker_last_seen ≡ none) × (r.preparing_since ≡ some t))

-- A worker that has not been silent for longer than the limit, or of which the record has no time at
-- all.
abbrev pub IsHeard : SchedulerConfig → ℕ → JobRecord → Text → Type 0
IsHeard c now r w =
    ((t : ℕ) × IsSilentSince r w t × (now ≤ t + c.worker_staleness))
    ⊎ ((lookup w r.worker_last_seen ≡ none) × (r.preparing_since ≡ none))

-- A job that is not preparing, or not for longer than the limit.
abbrev pub IsPrepared : SchedulerConfig → ℕ → JobRecord → Type 0
IsPrepared c now r =
    (r.status ≢ preparing)
    ⊎ (r.preparing_since ≡ none)
    ⊎ ((t : ℕ) × (r.preparing_since ≡ some t) × (now ≤ t + c.prepare_timeout))

-- No reason to give the job up: it is not preparing or running, or it is in time.
abbrev pub IsInTime : SchedulerConfig → ℕ → JobRecord → Type 0
IsInTime c now r =
    ((r.status ≢ preparing) × (r.status ≢ running))
    ⊎ (All (IsHeard c now r) r.run_workers × IsPrepared c now r)

-- The reason is true: the worker that it names is one of the run, and silent for longer than the
-- limit, for as long as it says; or the job is preparing for longer than its limit.
abbrev pub IsLate : SchedulerConfig → ℕ → JobRecord → JobError → Type 0
IsLate c now r e =
    ((w : Text) × (t : ℕ) × (contains w r.run_workers ≡ true)
      × IsSilentSince r w t
      × (t + c.worker_staleness < now)
      × (e ≡ stale_worker w (as_millis (now - t)) (as_millis c.worker_staleness)))
    ⊎ ((t : ℕ) × (r.status ≡ preparing)
        × (r.preparing_since ≡ some t)
        × (t + c.prepare_timeout < now)
        × (e ≡ prepare_timeout (as_millis c.prepare_timeout)))

heard :
    (c : SchedulerConfig) (now : ℕ) (r : JobRecord) (w : Text)
    → age_of r now w ≤ c.worker_staleness
    → IsHeard c now r w
unfolding age_of
heard c now r w h = elim (Option-cases (lookup w r.worker_last_seen)) [
  | inr (t, e) ↦ inl (t, inl e, ground arith)
  | inl e ↦ elim (Option-cases r.preparing_since) [
    | inl f ↦ inr (e, f)
    | inr (t, f) ↦ inl (t, inr (e, f), ground arith)
  ]
]

silent :
    (c : SchedulerConfig) (now : ℕ) (r : JobRecord) (w : Text)
    → c.worker_staleness < age_of r now w
    → (t : ℕ) × IsSilentSince r w t × (t + c.worker_staleness < now) × (age_of r now w ≡ now - t)
unfolding age_of
silent c now r w h = elim (Option-cases (lookup w r.worker_last_seen)) [
  | inr (t, e) ↦ (t, inl e, ground arith, ground arith)
  | inl e ↦ elim (Option-cases r.preparing_since) [
    | inl f ↦ absurd (ground arith)
    | inr (t, f) ↦ (t, inr (e, f), ground arith, ground arith)
  ]
]

find_stale-none :
    (r : JobRecord) (now threshold : ℕ) (ws : List Text) (w : Text)
    → find_stale r now threshold ws ≡ none
    → contains w ws ≡ true
    → age_of r now w ≤ threshold
unfolding find_stale contains
find_stale-none r now threshold [] w e h = cc
find_stale-none r now threshold (v ∷ ws) w e h =
    ground (arith, find_stale-none r now threshold ws w)

find_stale-some :
    (r : JobRecord) (now threshold : ℕ) (ws : List Text) (w : Text) (age : ℕ)
    → find_stale r now threshold ws ≡ some (w, age)
    → (contains w ws ≡ true) × (threshold < age) × (age ≡ age_of r now w)
unfolding find_stale contains
find_stale-some r now threshold [] w age e = cc
find_stale-some r now threshold (v ∷ ws) w age e =
    ground (arith, find_stale-some r now threshold ws w age)

is_preparing-eq : (s : JobStatus) → is_preparing s ≡ true → s ≡ preparing
is_preparing-eq s h = ground arith

is_preparing-ne : (s : JobStatus) → is_preparing s ≡ false → s ≢ preparing
is_preparing-ne s h = λ e. ground arith

is_watched-ne : (s : JobStatus) → is_watched s ≡ false → (s ≢ preparing) × (s ≢ running)
is_watched-ne s h = (λ e. ground arith, λ e. ground arith)

is_watched-or : (s : JobStatus) → is_watched s ≡ true → (s ≡ preparing) ⊎ (s ≡ running)
is_watched-or preparing h = inl refl
is_watched-or running h = inr refl
is_watched-or unspecified h = cc
is_watched-or pending h = cc
is_watched-or completed h = cc
is_watched-or failed h = cc
is_watched-or cancelled h = cc

prepared :
    (c : SchedulerConfig) (now : ℕ) (r : JobRecord)
    → prepare_overdue c now r ≡ false
    → IsPrepared c now r
unfolding prepare_overdue
prepared c now r h = elim (Bool-cases (is_preparing r.status)) [
  | inr n ↦ inl (is_preparing-ne r.status n)
  | inl y ↦ elim (Option-cases r.preparing_since) [
    | inl e ↦ inr (inl e)
    | inr (t, e) ↦ inr (inr (t, e, ground arith))
  ]
]

overdue_prepared :
    (c : SchedulerConfig) (now : ℕ) (r : JobRecord)
    → prepare_overdue c now r ≡ true
    → (t : ℕ) × (r.status ≡ preparing)
      × (r.preparing_since ≡ some t)
      × (t + c.prepare_timeout < now)
unfolding prepare_overdue
overdue_prepared c now r h = elim (Option-cases r.preparing_since) [
  | inl e ↦ absurd (ground arith)
  | inr (t, e) ↦ (t, is_preparing-eq r.status (ground arith), e, ground arith)
]

in_time :
    (c : SchedulerConfig) (now : ℕ) (r : JobRecord)
    → overdue_reason c now r ≡ none
    → IsInTime c now r
unfolding overdue_reason find_stale_worker
in_time c now r e = elim (Bool-cases (is_watched r.status)) [
  | inr n ↦ inl (is_watched-ne r.status n)
  | inl y ↦ inr (
    All-contains (IsHeard c now r) r.run_workers (λ v h.
        heard c now r v
          (find_stale-none r now c.worker_staleness r.run_workers v (ground arith) h)),
    prepared c now r (ground arith),
  )
]

late :
    (c : SchedulerConfig) (now : ℕ) (r : JobRecord) (e : JobError)
    → overdue_reason c now r ≡ some e
    → IsLate c now r e
unfolding overdue_reason find_stale_worker
late c now r e h = elim (Option-cases (find_stale r now c.worker_staleness r.run_workers)) [
  | inr ((w, age), f) ↦
      let (inside, over, same) = find_stale-some r now c.worker_staleness r.run_workers w age f in
      let (t, since, past, old) = silent c now r w (omega (arith, over, same)) in
      inl (w, t, inside, since, past, ground arith)
  | inl f ↦
      let (t, status, since, past) = overdue_prepared c now r (ground arith) in
      inr (t, status, since, past, ground arith)
]

watched :
    (c : SchedulerConfig) (now : ℕ) (r : JobRecord) (e : JobError)
    → overdue_reason c now r ≡ some e
    → (r.status ≡ preparing) ⊎ (r.status ≡ running)
unfolding overdue_reason
watched c now r e h = is_watched-or r.status (ground arith)

-- What the tick makes of a record: it stays as it is, in time, or it was preparing or running and has
-- failed for a reason that is true.
abbrev pub IsSwept : SchedulerConfig → ℕ → JobRecord → JobRecord → Type 0
IsSwept c now before after =
    (IsInTime c now before × (after ≡ before))
    ⊎ ((e : JobError) × ((before.status ≡ preparing) ⊎ (before.status ≡ running))
        × IsLate c now before e
        × (after.status ≡ failed)
        × (after.error ≡ some e))

module _ ⦃pf : Platform⦄ where
  sweep_record-IsSwept :
      (c : SchedulerConfig) (now : Now) (r : JobRecord)
      → IsSwept c now.instant r (sweep_record c now r)
  unfolding sweep_record finish
  sweep_record-IsSwept c now r = elim (Option-cases (overdue_reason c now.instant r)) [
    | inl e ↦ inl (in_time c now.instant r e, rw (e, sweep_record) refl)
    | inr (x, e) ↦ inr (
      x,
      watched c now.instant r x e,
      late c now.instant r x e,
      rw (e, sweep_record) refl,
      rw (e, sweep_record) refl,
    )
  ]

  -- A tick of the staleness watcher keeps each job and fails exactly those that are late. Either the
  -- record stays as it is, and the job is not preparing or running, or no worker of its run has been
  -- silent for longer than the staleness limit (from when it was last heard of, or from the start of
  -- the preparation if it never was; a worker with neither time passes) and it is not preparing for
  -- longer than its limit. Or the job was preparing or running and is failed now, with an error that
  -- names a worker of the run that has been silent for longer than the limit, and for how long, or
  -- with the error of a preparation that is over its limit.
  pub stale_tick-IsSwept :
      (now : Now) (s : MasterState) (j : Text) (r : JobRecord)
      → lookup j s.jobs ≡ some r
      → (r' : JobRecord) × (lookup j (tick_once now s).jobs ≡ some r')
        × IsSwept s.config.scheduler now.instant r r'
  stale_tick-IsSwept now s j r here =
      let c = s.config.scheduler in
      (
        sweep_record c now r,
        subst (λ m. lookup j m ≡ some (sweep_record c now r)) (sym (stale_tick-jobs now s))
            (lookup-sweep_jobs j c now s.jobs ∙ rw here refl),
        sweep_record-IsSwept c now r,
      )
