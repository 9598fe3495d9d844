-- ===== src/Master/Invariant.antt =====
-- Every record of the master is well formed, whatever the calls and their order.
use cvdbench.Base.{
  ◌≡◌, refl, subst, inl, inr, List, [], ◌∷◌, Option, none, some, Text, Option-cases, Bool-cases,
  ◌∙◌,
}
use cvdbench.Base.Int.{is_positive}
use cvdbench.Base.Map.{Map, lookup, remove, All-insert, All-remove}
use cvdbench.Base.Results.{Result, ok, err, ◌>>=◌, map_err, ok_or, Result-cases}
use cvdbench.Proto.Specs
use cvdbench.Proto.Reports.{failed}
use cvdbench.Spec.Redact.{extract_credentials, redacted, redact_read, redact_check}
use cvdbench.Spec.Convert.{try_from_proto}
use cvdbench.Spec.Validate.{validate, default_context}
use cvdbench.Metrics.{Platform}
use cvdbench.Master.State.{JobRecord, MasterConfig, MasterState, SchedulerConfig, Now}
use cvdbench.Master.Events.{emit_for_job, finalize_stream}
use cvdbench.Master.Create.{
  Files, spec_required, spec_parse, spec_validate, ensure_read, ensure_metadata, spec_for_storage,
  new_record, create_job, store_job, enqueue,
}
use cvdbench.Master.Gc
use cvdbench.Master.Staleness
use cvdbench.Master.Validity.{IsValid, IsRedacted, HidesCheck, HidesRead}
use cvdbench.Master.Validity.Slots.{new-IsValid}
use cvdbench.Master.Validity.Ops.{AllValid, lost-IsValid}

-- What holds of every result that is no error.
abbrev pub Holds {ℓ κ μ} : {E : Type ℓ} {A : Type κ} → (A → Type μ) → Result E A → Type μ
Holds P (ok a) = P a
Holds P (err e) = Unit

bind-Holds {ℓ κ μ ν} :
    {E : Type ℓ} {A : Type κ} {B : Type μ} (P : B → Type ν) (m : Result E A) (f : A → Result E B)
    → ((a : A) → Holds P (f a))
    → Holds P (m >>= f)
bind-Holds P (ok a) f h = h a
bind-Holds P (err e) f h = tt

redact_check-HidesCheck :
    (o : Option Specs.ConsistencyConfig)
    → HidesCheck (elim o [ none ↦ none | some c ↦ some (redact_check c) ])
unfolding redact_check
redact_check-HidesCheck none = tt
redact_check-HidesCheck (some c) = (refl, refl, refl)

redact_read-HidesRead :
    (o : Option Specs.ReadConfig)
    → HidesRead (elim o [ none ↦ none | some r ↦ some (redact_read r) ])
unfolding redact_read
redact_read-HidesRead none = tt
redact_read-HidesRead (some r) = redact_check-HidesCheck r.s3_consistency_check

spec_for_storage-IsRedacted : (p : Specs.BenchSpec) → IsRedacted (spec_for_storage p)
unfolding spec_for_storage redacted
spec_for_storage-IsRedacted p = elim (Bool-cases (is_positive p.target_workers)) [
  | inl e ↦ rw (e, spec_for_storage) (redact_read-HidesRead p.read)
  | inr e ↦ rw (e, spec_for_storage) (redact_read-HidesRead p.read)
]

module _ (files : Files) (c : MasterConfig) (id : Text) (now : Now) where
  new_record-IsValid :
      (request : Option Specs.BenchSpec) → Holds IsValid (new_record files c id now request)
  unfolding new_record
  new_record-IsValid request = bind-Holds IsValid (ok_or request spec_required) _ (λ p.
      bind-Holds IsValid (map_err spec_parse (try_from_proto p)) _ (λ spec.
        bind-Holds IsValid (map_err spec_validate (validate spec default_context)) _ (λ u.
          bind-Holds IsValid (ok_or (lookup spec.fs_name c.filesystems) _) _ (λ mount.
            bind-Holds IsValid (ensure_read files spec) _ (λ v.
              bind-Holds IsValid (ensure_metadata files spec) _ (λ w.
                new-IsValid id (spec_for_storage p) (extract_credentials p) mount
                  spec.target_workers now.unix_ms (spec_for_storage-IsRedacted p)))))))

pub create_job-AllValid :
    (files : Files) (id : Text) (now : Now) (request : Option Specs.BenchSpec) (s : MasterState)
    → AllValid s.jobs
    → AllValid (create_job files id now request s).1.jobs
unfolding create_job enqueue store_job emit_for_job
create_job-AllValid files id now request s v =
    elim (Result-cases (new_record files s.config id now request)) [
      | inl (r, e) ↦
          rw (e, create_job)
            (All-insert IsValid id r s.jobs
              (subst (Holds IsValid) e (new_record-IsValid files s.config id now request)) v)
      | inr (x, e) ↦ rw (e, create_job) v
    ]

pub remove_all-AllValid :
    (ids : List Text) (jobs : Map JobRecord) → AllValid jobs → AllValid (Gc.remove_all ids jobs)
unfolding Gc.remove_all
remove_all-AllValid [] jobs v = v
remove_all-AllValid (id ∷ ids) jobs v =
    remove_all-AllValid ids (remove id jobs) (All-remove IsValid id jobs v)

module _ ⦃pf : Platform⦄ (c : SchedulerConfig) (now : Now) where
  sweep_record-IsValid : (r : JobRecord) → IsValid r → IsValid (Staleness.sweep_record c now r)
  unfolding Staleness.sweep_record
  sweep_record-IsValid r v = elim (Option-cases (Staleness.overdue_reason c now.instant r)) [
    | inl e ↦ rw (e, Staleness.sweep_record) v
    | inr (x, e) ↦
        rw (e, Staleness.sweep_record) (lost-IsValid failed (some x) now.unix_ms r (inl refl) v)
  ]

  pub sweep_jobs-AllValid :
      (jobs : Map JobRecord) → AllValid jobs → AllValid (Staleness.sweep_jobs c now jobs)
  unfolding Staleness.sweep_jobs
  sweep_jobs-AllValid [] v = tt
  sweep_jobs-AllValid ((id, r) ∷ jobs) v =
      (sweep_record-IsValid r v.0, sweep_jobs-AllValid jobs v.1)

  emit_overdue-jobs :
      (gone : Map JobRecord) (s : MasterState) → (Staleness.emit_overdue c now gone s).jobs ≡ s.jobs
  unfolding Staleness.emit_overdue emit_for_job
  emit_overdue-jobs [] s = refl
  emit_overdue-jobs ((id, r) ∷ gone) s = emit_overdue-jobs gone _

release_overdue-jobs :
    (gone : Map JobRecord) (s : MasterState) → (Staleness.release_overdue gone s).jobs ≡ s.jobs
unfolding Staleness.release_overdue
release_overdue-jobs [] s = refl
release_overdue-jobs ((id, r) ∷ gone) s = release_overdue-jobs gone _

finalize_overdue-jobs :
    (gone : Map JobRecord) (s : MasterState) → (Staleness.finalize_overdue gone s).jobs ≡ s.jobs
unfolding Staleness.finalize_overdue finalize_stream
finalize_overdue-jobs [] s = refl
finalize_overdue-jobs ((id, r) ∷ gone) s = finalize_overdue-jobs gone _

pub stale_tick-jobs :
    ⦃pf : Platform⦄
    → (now : Now) (s : MasterState)
    → (Staleness.tick_once now s).jobs ≡ Staleness.sweep_jobs s.config.scheduler now s.jobs
unfolding Staleness.tick_once
stale_tick-jobs now s =
    let c = s.config.scheduler in
    let gone = Staleness.overdue c now s.jobs in
    let swept : MasterState = record s { jobs = Staleness.sweep_jobs c now s.jobs } in
    let told = Staleness.emit_overdue c now gone swept in
    finalize_overdue-jobs gone (Staleness.release_overdue gone told)
    ∙ release_overdue-jobs gone told
    ∙ emit_overdue-jobs c now gone swept
