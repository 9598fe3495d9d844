-- ===== src/Master/Retention.antt =====
-- What a tick of the garbage collector drops, and what it keeps.
use cvdbench.Base.{
  ◌+◌, ◌^◌, ◌<◌, ◌≡◌, refl, sym, ◌∙◌, subst, Bool, false, ◌&&◌, List, [], ◌∷◌, Option, none, some,
  Text, if◌then◌else◌, leb, arith,
}
use cvdbench.Base.Int.{◌-ℤ◌, saturate_i64}
use cvdbench.Base.Map.{Map, lookup, remove, keys, lookup-remove}
use cvdbench.Base.Sets.{contains, IsNodup, contains-keys}
use cvdbench.Master.State.{JobRecord, MasterState, SchedulerConfig, Now}
use cvdbench.Master.Job.{is_terminal}
use cvdbench.Master.Gc.{
  retention_ms, cutoff_ms, baseline, is_expired, to_remove, remove_all, tick_once,
}

lookup-remove_all :
    (j : Text) (ids : List Text) (jobs : Map JobRecord)
    → lookup j (remove_all ids jobs) ≡ (if contains j ids then none else lookup j jobs)
unfolding remove_all contains
lookup-remove_all j [] jobs = refl
lookup-remove_all j (id ∷ ids) jobs =
    ground (arith, lookup-remove_all j ids (remove id jobs), lookup-remove j id jobs)

-- By the record that stands under the id.
abbrev expires : SchedulerConfig → Now → Option JobRecord → Bool
expires c now none = false
expires c now (some r) = is_expired c now r

contains-to_remove :
    (c : SchedulerConfig) (now : Now) (j : Text) (jobs : Map JobRecord)
    → IsNodup (keys jobs)
    → contains j (to_remove c now jobs) ≡ expires c now (lookup j jobs)
unfolding to_remove contains lookup
contains-to_remove c now j [] d = refl
contains-to_remove c now j ((id, r) ∷ jobs) d =
    ground (arith, contains-to_remove c now j jobs d.1, contains-keys id jobs)

is_expired-time :
    (c : SchedulerConfig) (now : Now) (r : JobRecord)
    → now.unix_ms < 2 ^ 63
    → is_expired c now r ≡ (is_terminal r && leb (baseline r + retention_ms c) now.unix_ms)
unfolding is_expired cutoff_ms saturate_i64 ◌-ℤ◌
is_expired-time c now r h = ground arith

abbrev pub kept : SchedulerConfig → Now → Option JobRecord → Option JobRecord
kept c now none = none
kept c now (some r) =
    if is_terminal r && leb (baseline r + retention_ms c) now.unix_ms then none else some r

-- If the clock is below 2^63 ms and no id stands twice in the table of jobs, a tick of the garbage
-- collector drops a job exactly if it is terminal and its time of end, or of creation where that is
-- missing, is at least the retention time ago; every other record is there as it was.
pub gc_tick-lookup :
    (now : Now) (s : MasterState) (j : Text)
    → now.unix_ms < 2 ^ 63
    → IsNodup (keys s.jobs)
    → lookup j (tick_once now s).jobs ≡ kept s.config.scheduler now (lookup j s.jobs)
unfolding tick_once
gc_tick-lookup now s j h d =
    let c = s.config.scheduler in
    lookup-remove_all j (to_remove c now s.jobs) s.jobs
    ∙ subst (λ b. (if b then none else lookup j s.jobs) ≡ kept c now (lookup j s.jobs))
        (sym (contains-to_remove c now j s.jobs d)) (by_record c (lookup j s.jobs))
  where
    by_record :
        (c : SchedulerConfig) (o : Option JobRecord)
        → (if expires c now o then none else o) ≡ kept c now o
    by_record c none = refl
    by_record c (some r) = rw (is_expired-time c now r h) refl
