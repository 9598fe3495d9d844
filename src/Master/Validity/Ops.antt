-- ===== src/Master/Validity/Ops.antt =====
-- Each operation on a record keeps it well formed, and so does each table of jobs.
use cvdbench.Base.{
  ℕ, ◌≡◌, refl, sym, ◌∙◌, subst, Bool, true, false, ◌⊎◌, inl, inr, Option, some, All,
}
use cvdbench.Base.Map.{Map, All-insert, All-lookup}
use cvdbench.Proto.Reports.{JobStatus, failed, cancelled, FileEntry}
use cvdbench.Queues.Bounded.{BoundedQueue}
use cvdbench.Metrics.{Platform}
use cvdbench.Master.State.{JobRecord, JobError}
use cvdbench.Master.Job.{is_terminal_status}
use cvdbench.Master.Terminal.{finish}
use cvdbench.Master.Validity.{core, IsValid, IsValidCore, IsClosed, IsSettledIf, requeue-Stands}
use cvdbench.Master.Validity.Slots.{
  give_slot-IsValid, enter_preparing-IsValid, start_for_file_queue_job-IsValid,
}
use cvdbench.Master.Validity.Barrier.{mark_ready-IsValid}
use cvdbench.Master.Validity.Ends.{finish-IsValid}
use cvdbench.Master.Validity.Results.{conclude-IsValid}
use cvdbench.Master.Changes.{
  Op, quiet, slot, prepared, reads, marked, ended, concluded, queued, Ops, stop, chain, Changes,
  unchanged, changed,
}

abbrev pub AllValid : Map JobRecord → Type 0
AllValid jobs = All (λ e. IsValid e.1) jobs

module _ (q q' : BoundedQueue FileEntry) (r : JobRecord) where
  requeue-IsSettledIf :
      (b : Bool)
      → r.file_queue ≡ some q
      → q'.closed ≡ q.closed
      → IsSettledIf b (core r)
      → IsSettledIf b (core (record r { file_queue = some q' }))
  requeue-IsSettledIf false p e s = tt
  requeue-IsSettledIf true p e (a, t, c, closed, h) = (a, t, c, e ∙ subst IsClosed p closed, h)

  requeue-IsValid :
      r.file_queue ≡ some q
      → q'.closed ≡ q.closed
      → IsValid r
      → IsValid (record r { file_queue = some q' })
  requeue-IsValid p e v = record {
    within = v.within;
    distinct = v.distinct;
    ready_distinct = v.ready_distinct;
    ready_assigned = v.ready_assigned;
    results_distinct = v.results_distinct;
    results_run = v.results_run;
    stands = requeue-Stands r.status (core r) (some q') r.manifest_handle v.stands;
    settled = requeue-IsSettledIf (is_terminal_status r.status) p e v.settled;
    redacted = v.redacted;
  }

module _ ⦃pf : Platform⦄ where
  pub lost-IsValid :
      (st : JobStatus) (error : Option JobError) (now : ℕ) (r : JobRecord)
      → (st ≡ failed) ⊎ (st ≡ cancelled)
      → IsValid r
      → IsValid (finish st error now r)
  lost-IsValid st error now r (inl f) v =
      subst (λ x. IsValid (finish x error now r)) (sym f)
        (finish-IsValid error now r failed refl tt v)
  lost-IsValid st error now r (inr c) v =
      subst (λ x. IsValid (finish x error now r)) (sym c)
        (finish-IsValid error now r cancelled refl tt v)

  Op-IsValid : (r r' : JobRecord) → Op r r' → IsValid r → IsValid r'
  Op-IsValid r r' (quiet e x y) v = subst IsValidCore (sym e) v
  Op-IsValid r r' (slot w now p f e) v = subst IsValid (sym e) (give_slot-IsValid w now r v p f)
  Op-IsValid r r' (prepared now e) v = subst IsValid (sym e) (enter_preparing-IsValid now r v)
  Op-IsValid r r' (reads c t e) v = subst IsValid (sym e) (start_for_file_queue_job-IsValid c r v t)
  Op-IsValid r r' (marked c w now k t e) v =
      subst IsValid (sym e) (mark_ready-IsValid c w now r v k)
  Op-IsValid r r' (ended st error now t s e) v =
      subst IsValid (sym e) (lost-IsValid st error now r s v)
  Op-IsValid r r' (concluded x now t k e) v = subst IsValid (sym e) (conclude-IsValid x now r v t k)
  Op-IsValid r r' (queued q q' p c e) v = subst IsValid (sym e) (requeue-IsValid q q' r p c v)

  Ops-IsValid : (r r' : JobRecord) → Ops r r' → IsValid r → IsValid r'
  Ops-IsValid r r' stop v = v
  Ops-IsValid r r' (chain {r' = r₁} ops op) v = Op-IsValid r₁ r' op (Ops-IsValid r r₁ ops v)

  pub Changes-AllValid :
      (jobs jobs' : Map JobRecord) → Changes jobs jobs' → AllValid jobs → AllValid jobs'
  Changes-AllValid jobs jobs' unchanged v = v
  Changes-AllValid jobs jobs' (changed {jobs' = jobs₁} k r r' c e ops p) v =
      let v₁ = Changes-AllValid jobs jobs₁ c v in
      subst AllValid (sym p) (
        All-insert IsValid k r' jobs₁ (Ops-IsValid r r' ops (All-lookup IsValid k jobs₁ r v₁ e)) v₁)
