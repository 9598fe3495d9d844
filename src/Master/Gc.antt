-- ===== src/Master/Gc.antt =====
-- crates/cvd-master/src/gc.rs: terminal jobs are dropped once they are kept long enough.
use cvdbench.Base.{
  ℕ, ◌-◌, ◌/◌, ◌^◌, Bool, ◌&&◌, List, [], ◌∷◌, none, some, Text, if◌then◌else◌, ltb, not, min, max,
}
use cvdbench.Base.Int.{ℤ, pos, ◌-ℤ◌, saturate_i64, ltb_ℤ}
use cvdbench.Base.Map.{Map, remove}
use cvdbench.Master.State.{JobRecord, MasterState, SchedulerConfig, Now, as_millis}
use cvdbench.Master.Job.{is_terminal}

-- 500 ms and 60 s, in nanoseconds.
unfoldable pub tick_interval : SchedulerConfig → ℕ
tick_interval c = min (max (c.job_retention / 10) 500_000_000) 60_000_000_000

-- `i64::try_from(job_retention.as_millis()).unwrap_or(i64::MAX)`.
abbrev pub retention_ms : SchedulerConfig → ℕ
retention_ms c =
    if ltb (as_millis c.job_retention) (2 ^ 63) then as_millis c.job_retention else 2 ^ 63 - 1

unfoldable pub cutoff_ms : SchedulerConfig → Now → ℤ
unfolding saturate_i64 ◌-ℤ◌
cutoff_ms c now = saturate_i64 (pos now.unix_ms -ℤ pos (retention_ms c))

abbrev pub baseline : JobRecord → ℕ
baseline r = elim r.terminal_at_ms [ none ↦ r.created_at_ms | some t ↦ t ]

unfoldable pub is_expired : SchedulerConfig → Now → JobRecord → Bool
unfolding cutoff_ms
is_expired c now r = is_terminal r && not (ltb_ℤ (cutoff_ms c now) (pos (baseline r)))

unfoldable pub to_remove : SchedulerConfig → Now → Map JobRecord → List Text
unfolding is_expired
to_remove c now [] = []
to_remove c now ((id, r) ∷ jobs) =
    let rest = to_remove c now jobs in if is_expired c now r then id ∷ rest else rest

unfoldable pub remove_all : List Text → Map JobRecord → Map JobRecord
remove_all [] jobs = jobs
remove_all (id ∷ ids) jobs = remove_all ids (remove id jobs)

unfoldable pub tick_once : Now → MasterState → MasterState
unfolding to_remove remove_all
tick_once now s = record s { jobs = remove_all (to_remove s.config.scheduler now s.jobs) s.jobs }
