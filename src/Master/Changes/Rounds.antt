-- ===== src/Master/Changes/Rounds.antt =====
-- `fetch_job`: the rounds of the loop over the queue, and the records that it changes.
use cvdbench.Base.{
  ℕ, ◌≡◌, ◌≢◌, refl, sym, subst, List, [], ◌∷◌, none, some, Text, true, false, Bool-cases,
  Option-cases, inl, inr, arith, ◌==◌, ◌⊎◌,
}
use cvdbench.Base.Map.{Map, lookup, insert, lookup-insert_self}
use cvdbench.Proto.Reports.{pending}
use cvdbench.WorkerId.{validate, Checked-cases}
use cvdbench.Metrics.{Platform}
use cvdbench.Master.State.{JobRecord, MasterState, Now, WorkerAssignment}
use cvdbench.Master.Job.{
  is_pending, is_terminal, slots_filled, slots_remaining, try_assign, give_slot, enter_preparing,
}
use cvdbench.Master.Events.{emit_for_job}
use cvdbench.Master.Replies.{FetchJobResponse}
use cvdbench.Master.Fetch.{fetch_job, fetch_bound, schedule, assign_front, start_front, bound_job}
use cvdbench.Master.Changes.{
  slot, prepared, reads, stop, chain, Changes, unchanged, only, trans, touch-Op,
}

-- What became of `try_assign`: the slots are full, or the worker has one.
pub try_assign-cases :
    (w : Text) (now : ℕ) (r : JobRecord)
    → (try_assign w now r ≡ none)
      ⊎ ((a : WorkerAssignment) × (try_assign w now r ≡ some (a, give_slot w now r))
          × (slots_remaining r ≢ 0)
          × (a ≡ record { worker_index = slots_filled r }))
unfolding try_assign
try_assign-cases w now r = elim (Bool-cases (slots_remaining r == 0)) [
  | inl full ↦ inl (rw full)
  | inr free ↦ inr (record { worker_index = slots_filled r }, rw free, ground arith, refl)
]

-- The rounds of the loop over the queue.
module _ (w : Text) (now : Now) (top : Text) (rest : List Text) (s : MasterState) where
  pub schedule_gone :
      lookup top s.jobs ≡ none → schedule w now (top ∷ rest) s ≡ schedule w now rest s
  unfolding schedule
  schedule_gone e = rw (e, schedule)

  pub schedule_closed :
      (r : JobRecord)
      → lookup top s.jobs ≡ some r
      → is_pending r.status ≡ false
      → schedule w now (top ∷ rest) s ≡ schedule w now rest s
  unfolding schedule
  schedule_closed r e p = ground arith

  pub schedule_full :
      (r : JobRecord)
      → lookup top s.jobs ≡ some r
      → is_pending r.status ≡ true
      → try_assign w now.instant r ≡ none
      → schedule w now (top ∷ rest) s
        ≡ schedule w now rest
            (record s { jobs = insert top (enter_preparing now.instant r) s.jobs })
  unfolding schedule
  schedule_full r e p t = ground arith

  pub schedule_assigned :
      (r r' : JobRecord) (a : WorkerAssignment)
      → lookup top s.jobs ≡ some r
      → is_pending r.status ≡ true
      → try_assign w now.instant r ≡ some (a, r')
      → schedule w now (top ∷ rest) s ≡ assign_front w now top rest a r' s
  unfolding schedule
  schedule_assigned r r' a e p t = ground arith

  -- A property of the loop's result, by the four ways of a round.
  pub schedule_round {ℓ} :
      (P : FetchJobResponse × MasterState → Type ℓ)
      → P (schedule w now rest s)
      → ((r : JobRecord)
          → lookup top s.jobs ≡ some r
          → r.status ≡ pending
          → P (
              schedule w now rest
                (record s { jobs = insert top (enter_preparing now.instant r) s.jobs })))
      → ((r : JobRecord) (a : WorkerAssignment)
          → lookup top s.jobs ≡ some r
          → r.status ≡ pending
          → slots_remaining r ≢ 0
          → a ≡ record { worker_index = slots_filled r }
          → P (assign_front w now top rest a (give_slot w now.instant r) s))
      → P (schedule w now (top ∷ rest) s)
  schedule_round P skip full assign = elim (Option-cases (lookup top s.jobs)) [
    | inl e ↦ subst P (sym (schedule_gone e)) skip
    | inr (r, e) ↦ elim (Bool-cases (is_pending r.status)) [
      | inr p ↦ subst P (sym (schedule_closed r e p)) skip
      | inl p ↦ elim (try_assign-cases w now.instant r) [
        | inl t ↦ subst P (sym (schedule_full r e p t)) (full r e (ground arith))
        | inr (a, t, free, next) ↦
            subst P (sym (schedule_assigned r _ a e p t)) (assign r a e (ground arith) free next)
      ]
    ]
  ]

-- The worker has a slot of a job that is not finished.
pub bound_job_lem :
    (w j : Text) (jobs : Map JobRecord) (r : JobRecord) (a : WorkerAssignment)
    → bound_job w j jobs ≡ some (r, a)
    → (lookup j jobs ≡ some r) × (is_terminal r ≡ false) × (lookup w r.worker_assignments ≡ some a)
unfolding bound_job
bound_job_lem w j jobs r a e = ground arith

module _ ⦃pf : Platform⦄ where
  pub prepared_is_open :
      (now : ℕ) (r : JobRecord) → r.status ≡ pending → is_terminal (enter_preparing now r) ≡ false
  unfolding enter_preparing
  prepared_is_open now r p = ground arith

  start_front-Changes :
      (now : Now) (top : Text) (r : JobRecord) (s : MasterState)
      → lookup top s.jobs ≡ some r
      → r.status ≡ pending
      → Changes s.jobs (start_front now top r s).jobs
  unfolding start_front emit_for_job
  start_front-Changes now top r s e p = only top r _ e (
      chain (chain stop (prepared now.instant refl))
        (reads s.config (prepared_is_open now.instant r p) refl))

  assign_front-Changes :
      (w : Text) (now : Now) (top : Text) (rest : List Text) (a : WorkerAssignment) (r : JobRecord)
      (s : MasterState)
      → lookup top s.jobs ≡ some r
      → r.status ≡ pending
      → slots_remaining r ≢ 0
      → Changes s.jobs (assign_front w now top rest a (give_slot w now.instant r) s).1.jobs
  unfolding assign_front
  assign_front-Changes w now top rest a r s e p free =
      elim (Bool-cases (slots_remaining (give_slot w now.instant r) == 0)) [
        | inl full ↦ rw full (
            trans taken (
              start_front-Changes now top (give_slot w now.instant r) _
                (lookup-insert_self top (give_slot w now.instant r) s.jobs)
                (unfold give_slot in p)))
        | inr more ↦ rw more taken
      ]
    where
      taken : Changes s.jobs (insert top (give_slot w now.instant r) s.jobs)
      taken = only top r _ e (chain stop (slot w now.instant p free refl))

  schedule-Changes :
      (w : Text) (now : Now) (queue : List Text) (s : MasterState)
      → Changes s.jobs (schedule w now queue s).1.jobs
  schedule-Changes w now [] s = unfold schedule in unchanged
  schedule-Changes w now (top ∷ rest) s =
      schedule_round w now top rest s (λ x. Changes s.jobs x.1.jobs) (schedule-Changes w now rest s)
        (λ r e p.
          trans (only top r _ e (chain stop (prepared now.instant refl)))
            (schedule-Changes w now rest _))
        (λ r a e p free next. assign_front-Changes w now top rest a r s e p free)

  fetch_bound-Changes :
      (w : Text) (now : Now) (s : MasterState) → Changes s.jobs (fetch_bound w now s).1.jobs
  unfolding fetch_bound
  fetch_bound-Changes w now s = elim (Option-cases (lookup w s.worker_active_jobs)) [
    | inl e ↦ rw (e, fetch_bound) (schedule-Changes w now s.pending_queue s)
    | inr (j, e) ↦ elim (Option-cases (bound_job w j s.jobs)) [
      | inl b ↦ rw (e, fetch_bound) (rw (b, fetch_bound) (schedule-Changes w now s.pending_queue _))
      | inr ((r, a), b) ↦
          rw (e, fetch_bound)
            (rw (b, fetch_bound)
              (only j r _ (bound_job_lem w j s.jobs r a b).0
                (chain stop (touch-Op w now.instant r))))
    ]
  ]

  pub fetch_job-Changes :
      (w : Text) (now : Now) (s : MasterState) → Changes s.jobs (fetch_job w now s).1.jobs
  unfolding fetch_job
  fetch_job-Changes w now s = elim (Checked-cases (validate w)) [
    | inl e ↦ rw (e, fetch_job) (fetch_bound-Changes w now s)
    | inr (x, e) ↦ rw (e, fetch_job) unchanged
  ]
