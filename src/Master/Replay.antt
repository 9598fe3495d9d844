-- ===== src/Master/Replay.antt =====
-- `fetch_job` again: a worker that asks twice gets the same job and the same index.
use cvdbench.Base.{
  ℕ, ◌≡◌, refl, sym, ap, ◌∙◌, subst, true, false, Bool-cases, Option-cases, ◌⊎◌, inl, inr, List, [],
  ◌∷◌, none, some, Text, arith, ◌==◌,
}
use cvdbench.Base.Map.{Map, lookup, insert, lookup-insert_self, is_some}
use cvdbench.Proto.Reports.{pending}
use cvdbench.Master.State.{JobRecord, MasterState, MasterConfig, Now, WorkerAssignment}
use cvdbench.Master.Job.{
  is_terminal, is_terminal_status, slots_filled, slots_remaining, give_slot, touch, enter_preparing,
}
use cvdbench.Master.Events.{emit_for_job}
use cvdbench.Master.Replies.{ok, refused, bad_worker_id, FetchJobResponse, no_job}
use cvdbench.WorkerId.{WorkerIdError, validate, valid, invalid, Checked-cases}
use cvdbench.Master.Fetch.{
  fetch_job, fetch_bound, schedule, assign_front, start_front, bound_job, assigned_response,
}
use cvdbench.Master.Manifest.{start_for_file_queue_job, source_of}
use cvdbench.Master.Changes.Rounds.{schedule_round, bound_job_lem}

bound_job-intro :
    (w j : Text) (jobs : Map JobRecord) (r : JobRecord) (a : WorkerAssignment)
    → lookup j jobs ≡ some r
    → is_terminal r ≡ false
    → lookup w r.worker_assignments ≡ some a
    → bound_job w j jobs ≡ some (r, a)
unfolding bound_job
bound_job-intro w j jobs r a l t k = rw (l, bound_job) (rw (t, k) refl)

-- What the answer to a worker is made of stays when its job starts to prepare.
record SameOffer (r r' : JobRecord) : Type 0 where
  pub spec : r'.spec_redacted ≡ r.spec_redacted
  pub mount_point : r'.mount_point ≡ r.mount_point
  pub credentials : r'.credentials ≡ r.credentials
  pub assignments : r'.worker_assignments ≡ r.worker_assignments

same_answer :
    (r r' : JobRecord) (j : Text) (a : WorkerAssignment) (now : Now)
    → SameOffer r r'
    → assigned_response j r' a now ≡ assigned_response j r a now
unfolding assigned_response
same_answer r r' j a now o = rw (o.spec, o.mount_point, o.credentials) refl

prepared-SameOffer : (now : ℕ) (r : JobRecord) → SameOffer r (enter_preparing now r)
unfolding enter_preparing
prepared-SameOffer now r = record {
  spec = ground arith;
  mount_point = ground arith;
  credentials = ground arith;
  assignments = ground arith;
}

reads-SameOffer : (c : MasterConfig) (r : JobRecord) → SameOffer r (start_for_file_queue_job c r)
unfolding start_for_file_queue_job
reads-SameOffer c r = elim (Option-cases (source_of r.spec_redacted)) [
  | inl e ↦
      rw (e, start_for_file_queue_job)
        (record { spec = refl; mount_point = refl; credentials = refl; assignments = refl })
  | inr (s, e) ↦
      rw (e, start_for_file_queue_job)
        (record { spec = refl; mount_point = refl; credentials = refl; assignments = refl })
]

reads-status : (c : MasterConfig) (r : JobRecord) → (start_for_file_queue_job c r).status ≡ r.status
unfolding start_for_file_queue_job
reads-status c r = elim (Option-cases (source_of r.spec_redacted)) [
  | inl e ↦ rw (e, start_for_file_queue_job) refl
  | inr (s, e) ↦ rw (e, start_for_file_queue_job) refl
]

-- No job was given, or the worker is bound to the job that the answer names.
abbrev pub IsBound : Text → Now → FetchJobResponse × MasterState → Type 0
IsBound w now x =
    (x.0.job_id ≡ none)
    ⊎ ((j : Text) × (r : JobRecord) × (a : WorkerAssignment) × (lookup w x.1.worker_active_jobs
          ≡ some j)
        × (bound_job w j x.1.jobs ≡ some (r, a))
        × (x.0 ≡ assigned_response j r a now))

preparing_is_open :
    (now : ℕ) (r : JobRecord) → r.status ≡ pending → is_terminal (enter_preparing now r) ≡ false
unfolding enter_preparing
preparing_is_open now r p = ground arith

module _ (w : Text) (now : Now) where
  assign_front-IsBound :
      (top : Text) (rest : List Text) (r : JobRecord) (s : MasterState)
      → r.status ≡ pending
      → IsBound w now (
          assign_front w now top rest
            (record { worker_index = slots_filled r })
            (give_slot w now.instant r)
            s)
  unfolding assign_front start_front give_slot touch emit_for_job
  assign_front-IsBound top rest r s p =
      let a : WorkerAssignment = record { worker_index = slots_filled r } in
      let r₁ = give_slot w now.instant r in
      let r₂ = start_for_file_queue_job s.config (enter_preparing now.instant r₁) in
      let slot : lookup w r₁.worker_assignments ≡ some a =
        lookup-insert_self w a r.worker_assignments in
      let e₁ = prepared-SameOffer now.instant r₁ in
      let e₂ = reads-SameOffer s.config (enter_preparing now.instant r₁) in
      elim (Bool-cases (slots_remaining r₁ == 0)) [
        | inr more ↦ rw more (
            inr (
              top,
              r₁,
              a,
              lookup-insert_self w top s.worker_active_jobs,
              bound_job-intro w top _ r₁ a (lookup-insert_self top r₁ s.jobs)
                  (ap is_terminal_status p) slot,
              refl,
            ))
        | inl full ↦ rw full (
            inr (
              top,
              r₂,
              a,
              lookup-insert_self w top s.worker_active_jobs,
              bound_job-intro w top _ r₂ a (lookup-insert_self top r₂ (insert top r₁ s.jobs))
                  (ap is_terminal_status (reads-status s.config (enter_preparing now.instant r₁))
                    ∙ preparing_is_open now.instant r₁ p)
                  (ap (lookup w) (e₂.assignments ∙ e₁.assignments) ∙ slot),
              sym (
                  same_answer (enter_preparing now.instant r₁) r₂ top a now e₂
                  ∙ same_answer r₁ (enter_preparing now.instant r₁) top a now e₁),
            ))
      ]

  schedule-IsBound : (queue : List Text) (s : MasterState) → IsBound w now (schedule w now queue s)
  schedule-IsBound [] s = unfold schedule no_job in inl refl
  schedule-IsBound (top ∷ rest) s =
      schedule_round w now top rest s (IsBound w now) (schedule-IsBound rest s)
        (λ r e p. schedule-IsBound rest _)
        (λ r a e p free next.
          subst (λ b. IsBound w now (assign_front w now top rest b (give_slot w now.instant r) s))
            (sym next) (assign_front-IsBound top rest r s p))

  touch-SameOffer : (r : JobRecord) → SameOffer r (touch w now.instant r)
  unfolding touch
  touch-SameOffer r = record {
    spec = refl;
    mount_point = refl;
    credentials = refl;
    assignments = refl;
  }

  fetch_bound-IsBound : (s : MasterState) → IsBound w now (fetch_bound w now s)
  unfolding fetch_bound touch
  fetch_bound-IsBound s = elim (Option-cases (lookup w s.worker_active_jobs)) [
    | inl e ↦ rw (e, fetch_bound) (schedule-IsBound s.pending_queue s)
    | inr (j, e) ↦ elim (Option-cases (bound_job w j s.jobs)) [
      | inl b ↦ rw (e, fetch_bound) (rw (b, fetch_bound) (schedule-IsBound s.pending_queue _))
      | inr ((r, a), b) ↦
          let (l, t, k) = bound_job_lem w j s.jobs r a b in
          rw (e, fetch_bound)
            (rw (b, fetch_bound)
              (inr (
                j,
                touch w now.instant r,
                a,
                e,
                bound_job-intro w j _ (touch w now.instant r) a
                    (lookup-insert_self j (touch w now.instant r) s.jobs) t k,
                refl,
              )))
    ]
  ]

-- Who is bound gets the answer that binds.
bound-answer :
    (w j : Text) (now : Now) (s : MasterState) (r : JobRecord) (a : WorkerAssignment)
    → lookup w s.worker_active_jobs ≡ some j
    → bound_job w j s.jobs ≡ some (r, a)
    → (fetch_bound w now s).0 ≡ assigned_response j r a now
unfolding fetch_bound
bound-answer w j now s r a e b =
    rw (e, fetch_bound)
      (rw (b, fetch_bound)
        (same_answer r (touch w now.instant r) j a now (touch-SameOffer w now r)))

later_answer :
    (j : Text) (r : JobRecord) (a : WorkerAssignment) (now now' : Now)
    → assigned_response j r a now'
      ≡ record (assigned_response j r a now) { master_now_ms = now'.unix_ms }
unfolding assigned_response
later_answer j r a now now' = refl

fetch_job-valid :
    (w : Text) (now : Now) (s : MasterState)
    → validate w ≡ valid
    → fetch_job w now s ≡ (ok (fetch_bound w now s).0, (fetch_bound w now s).1)
unfolding fetch_job
fetch_job-valid w now s v = rw (v, fetch_job) refl

fetch_job-invalid :
    (w : Text) (now : Now) (s : MasterState) (x : WorkerIdError)
    → validate w ≡ invalid x
    → (fetch_job w now s).0 ≡ refused (bad_worker_id x)
unfolding fetch_job
fetch_job-invalid w now s x v = rw (v, fetch_job) refl

bound-again :
    (w : Text) (now now' : Now) (s : MasterState)
    → IsBound w now (fetch_bound w now s)
    → is_some (fetch_bound w now s).0.job_id ≡ true
    → (fetch_bound w now' (fetch_bound w now s).1).0
      ≡ record (fetch_bound w now s).0 { master_now_ms = now'.unix_ms }
bound-again w now now' s (inl none_given) given = cc (ap is_some none_given, given)
bound-again w now now' s (inr (j, r, a, e, b, answer)) given =
    bound-answer w j now' (fetch_bound w now s).1 r a e b
    ∙ later_answer j r a now now'
    ∙ ap {A = FetchJobResponse} {B = FetchJobResponse}
        (λ x. record x { master_now_ms = now'.unix_ms }) (sym answer)

ok-injective : {A : Type 0} {a b : A} → ok a ≡ ok b → a ≡ b
ok-injective e = cc e

-- If `fetch_job` gives a worker a job, then the same worker, asking again, gets the same answer but
-- for the master's clock: the same job, specification, mount point, index and credentials.
pub fetch_job-again :
    (w : Text) (now now' : Now) (s : MasterState) (response : FetchJobResponse)
    → (fetch_job w now s).0 ≡ ok response
    → is_some response.job_id ≡ true
    → (fetch_job w now' (fetch_job w now s).1).0
      ≡ ok (record response { master_now_ms = now'.unix_ms })
fetch_job-again w now now' s response e given = elim (Checked-cases (validate w)) [
  | inr (x, v) ↦ cc (e, fetch_job-invalid w now s x v)
  | inl v ↦
      let first = fetch_job-valid w now s v in
      let same : (fetch_bound w now s).0 ≡ response =
        ok-injective (sym (ap (λ x. x.0) first) ∙ e) in
      ap (λ x. (fetch_job w now' x.1).0) first
      ∙ ap (λ x. x.0) (fetch_job-valid w now' (fetch_bound w now s).1 v)
      ∙ ap ok (
          bound-again w now now' s (fetch_bound-IsBound w now s)
            (ap (λ x. is_some x.job_id) same ∙ given)
          ∙ ap {A = FetchJobResponse} {B = FetchJobResponse}
              (λ x. record x { master_now_ms = now'.unix_ms }) same)
]
