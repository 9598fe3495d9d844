-- ===== src/Master/Listing.antt =====
-- What a client sees of all jobs.
use mathlib.Core.List.{Permᴰ}
use mathlib.Core.List.Permᴰ
use cvdbench.Base.{
  ℕ, ◌≤◌, ◌<◌, ◌≡◌, refl, true, false, Bool-cases, inl, inr, ◌⊎◌, List, [], ◌∷◌, Option, none, some,
  take, All, arith, ltb,
}
use cvdbench.Base.Int.{ℤ, pos, negsuc}
use cvdbench.Base.Map.{values}
use cvdbench.Master.State.{JobRecord, MasterState}
use cvdbench.Master.Watch.{
  Job, to_pb_job, status_code, passes, list_limit, matching, place, sort_newest, list_jobs,
}

-- The newest first.
abbrev pub IsNewestFirst : List Job → Type 0
IsNewestFirst [] = Unit
IsNewestFirst (j ∷ js) = All (λ k. k.created_at ≤ j.created_at) js × IsNewestFirst js

All-place :
    (n : ℕ) (j : Job) (js : List Job)
    → j.created_at ≤ n
    → All (λ k. k.created_at ≤ n) js
    → All (λ k. k.created_at ≤ n) (place j js)
unfolding place
All-place n j [] h a = (h, tt)
All-place n j (k ∷ ks) h a = elim (Bool-cases (ltb j.created_at k.created_at)) [
  | inl e ↦ rw e (a.0, All-place n j ks h a.1)
  | inr e ↦ rw e (h, a)
]

All-later :
    (m n : ℕ) (js : List Job)
    → m ≤ n
    → All (λ k. k.created_at ≤ m) js
    → All (λ k. k.created_at ≤ n) js
All-later m n [] h a = tt
All-later m n (j ∷ js) h a = (omega (arith, a.0), All-later m n js h a.1)

place-IsNewestFirst : (j : Job) (js : List Job) → IsNewestFirst js → IsNewestFirst (place j js)
unfolding place
place-IsNewestFirst j [] s = (tt, tt)
place-IsNewestFirst j (k ∷ ks) s = elim (Bool-cases (ltb j.created_at k.created_at)) [
  | inl e ↦ rw e (All-place k.created_at j ks (ground arith) s.0, place-IsNewestFirst j ks s.1)
  | inr e ↦
      let older : k.created_at ≤ j.created_at = ground arith in
      rw e ((older, All-later k.created_at j.created_at ks older s.0), s)
]

sort_newest-IsNewestFirst : (js : List Job) → IsNewestFirst (sort_newest js)
unfolding sort_newest
sort_newest-IsNewestFirst [] = tt
sort_newest-IsNewestFirst (j ∷ js) = place-IsNewestFirst j _ (sort_newest-IsNewestFirst js)

place-perm : (j : Job) (js : List Job) → Permᴰ (place j js) (j ∷ js)
unfolding place
place-perm j [] = Permᴰ.refl _
place-perm j (k ∷ ks) = elim (Bool-cases (ltb j.created_at k.created_at)) [
  | inl e ↦ rw e (Permᴰ.trans (Permᴰ.cons refl (place-perm j ks)) (Permᴰ.swap refl refl))
  | inr e ↦ rw e (Permᴰ.refl _)
]

sort_newest-perm : (js : List Job) → Permᴰ (sort_newest js) js
unfolding sort_newest
sort_newest-perm [] = Permᴰ.refl _
sort_newest-perm (j ∷ js) =
    Permᴰ.trans (place-perm j (sort_newest js)) (Permᴰ.cons refl (sort_newest-perm js))

-- The request asks for a record: it names no status, or the number of the record's.
abbrev pub IsWanted : Option ℤ → JobRecord → Type 0
IsWanted none r = Unit
IsWanted (some n) r = n ≡ pos (status_code r.status)

-- What a client sees of a record.
pub record Shows (r : JobRecord) (j : Job) : Type 0 where
  pub job_id : j.job_id ≡ r.job_id
  pub spec : j.spec ≡ r.spec_redacted
  pub status : j.status ≡ r.status
  pub created_at : j.created_at ≡ r.created_at_ms

-- Of some records, exactly those that are wanted, in their order.
pub data Picks (filter : Option ℤ) : List JobRecord → List Job → Type 0 where
  nothing : Picks filter [] []
  picked :
      {r : JobRecord} {j : Job} {rs : List JobRecord} {js : List Job}
      → IsWanted filter r
      → Shows r j
      → Picks filter rs js
      → Picks filter (r ∷ rs) (j ∷ js)
  left_out :
      {r : JobRecord} {rs : List JobRecord} {js : List Job}
      → ¬ IsWanted filter r
      → Picks filter rs js
      → Picks filter (r ∷ rs) js

passes-IsWanted :
    (filter : Option ℤ) (r : JobRecord) → passes filter r.status ≡ true → IsWanted filter r
passes-IsWanted none r h = tt
passes-IsWanted (some (pos n)) r h = ground arith
passes-IsWanted (some (negsuc n)) r h = cc

passes-IsWanted_not :
    (filter : Option ℤ) (r : JobRecord) → passes filter r.status ≡ false → ¬ IsWanted filter r
passes-IsWanted_not none r h = cc
passes-IsWanted_not (some (pos n)) r h = λ e. ground arith
passes-IsWanted_not (some (negsuc n)) r h = λ e. cc

matching-Picks : (filter : Option ℤ) (rs : List JobRecord) → Picks filter rs (matching filter rs)
unfolding matching to_pb_job
matching-Picks filter [] = nothing
matching-Picks filter (r ∷ rs) = elim (Bool-cases (passes filter r.status)) [
  | inl e ↦ rw e (
      picked (passes-IsWanted filter r e)
        (record { job_id = refl; spec = refl; status = refl; created_at = refl })
        (matching-Picks filter rs))
  | inr e ↦ rw e (left_out (passes-IsWanted_not filter r e) (matching-Picks filter rs))
]

-- The number of jobs that a request with this limit may have: 100 where it sets none above zero, and
-- 1000 at most.
abbrev pub IsLimit : ℤ → ℕ → Type 0
IsLimit (negsuc k) n = n ≡ 100
IsLimit (pos k) n =
    ((k ≡ 0) × (n ≡ 100)) ⊎ ((0 < k) × (k ≤ 1_000) × (n ≡ k)) ⊎ ((1_000 < k) × (n ≡ 1_000))

list_limit-IsLimit : (limit : ℤ) → IsLimit limit (list_limit limit)
unfolding list_limit
list_limit-IsLimit (negsuc k) = refl
list_limit-IsLimit (pos k) = ground arith

-- The answer has the first jobs, as many as the limit of the request allows (100 where it sets none
-- above zero, 1000 at most), of a list that stands in falling order of creation time and is a
-- permutation of the jobs that show, one for one, the records of the master that the request asks for:
-- all of them, or those whose status has the number that it names.
pub list_jobs-Picks :
    (filter : Option ℤ) (limit : ℤ) (s : MasterState)
    → (shown : List Job) × (sorted : List Job) × (n : ℕ) × Picks filter (values s.jobs) shown
      × Permᴰ sorted shown
      × IsNewestFirst sorted
      × IsLimit limit n
      × (list_jobs filter limit s ≡ take n sorted)
unfolding list_jobs
list_jobs-Picks filter limit s =
    let found = matching filter (values s.jobs) in
    (
      found,
      sort_newest found,
      list_limit limit,
      matching-Picks filter (values s.jobs),
      sort_newest-perm found,
      sort_newest-IsNewestFirst found,
      list_limit-IsLimit limit,
      refl,
    )
