-- ===== src/Worker/Clock.antt =====
-- The master's clock as a worker sees it: crates/cvd-worker/src/clock.rs and `clock_now_master` of
-- src/lifecycle.rs. An `Instant` is its distance in nanoseconds from the earliest instant that the
-- platform has; `latest` is the last one that it has, and a sum beyond it panics (`none`).
pub mod Estimate
use cvdbench.Base.{
  ℕ, ◌+◌, ◌-◌, ◌*◌, ◌/◌, ◌^◌, ◌≤◌, ◌<◌, ◌≡◌, refl, Bool, true, false, Option, none, some, arith,
  ltb, leb, if◌then◌else◌, Bool-cases, inl, inr,
}
use cvdbench.Base.Int.{ℤ, pos, negsuc, ◌+ℤ◌, ◌-ℤ◌, ltb_ℤ, saturate_i64, wrap_i64}

abbrev pub Instant : Type 0
Instant = ℕ

abbrev pub ns_per_ms : ℕ
ns_per_ms = 1_000_000

pub record MasterClockOffset : Type 0 where
  pub local_anchor : Instant
  pub master_anchor_ms : ℤ

unfoldable pub from_response : ℤ → Instant → MasterClockOffset
from_response master_now_ms local_recv = record {
  local_anchor = local_recv;
  master_anchor_ms = master_now_ms;
}

-- `saturating_duration_since` and `as_millis`.
abbrev pub since : Instant → Instant → ℕ
since later earlier = later - earlier

unfoldable pub i64_or : ℤ → ℕ → ℤ
i64_or default n = if ltb n (2 ^ 63) then pos n else default

unfoldable pub refine_with : ℤ → Instant → Instant → MasterClockOffset → MasterClockOffset
unfolding i64_or
refine_with master_now_ms local_send local_recv o =
    let rtt = since local_recv local_send in
    let half_rtt_ms = i64_or (pos 0) (rtt / ns_per_ms / 2) in
    if ltb 5_000_000_000 rtt then o else record {
      local_anchor = local_recv;
      master_anchor_ms = saturate_i64 (master_now_ms +ℤ half_rtt_ms);
    }

-- `u64::try_from(a - b).unwrap_or(0)`, the difference in a release build.
unfoldable pub distance : ℤ → ℤ → ℕ
unfolding wrap_i64 ◌-ℤ◌
distance a b = elim (wrap_i64 (a -ℤ b)) [ pos n ↦ n | negsuc n ↦ 0 ]

unfoldable pub add_duration : Instant → Instant → ℕ → Option Instant
add_duration latest i d = if leb (i + d) latest then some (i + d) else none

-- `checked_sub(..).unwrap_or(self)`.
unfoldable pub sub_or_same : Instant → ℕ → Instant
sub_or_same i d = if leb d i then i - d else i

unfoldable pub master_to_local : Instant → MasterClockOffset → ℤ → Option Instant
unfolding distance add_duration sub_or_same
master_to_local latest o target =
    if ltb_ℤ target o.master_anchor_ms
    then some (sub_or_same o.local_anchor (distance o.master_anchor_ms target * ns_per_ms))
    else add_duration latest o.local_anchor (distance target o.master_anchor_ms * ns_per_ms)

unfoldable pub anchor_age : MasterClockOffset → Instant → ℕ
anchor_age o now = since now o.local_anchor

unfoldable pub clock_now_master : MasterClockOffset → Instant → ℤ
unfolding i64_or
clock_now_master o now =
    let elapsed_ms = i64_or (pos (2 ^ 63 - 1)) (since now o.local_anchor / ns_per_ms) in
    saturate_i64 (o.master_anchor_ms +ℤ elapsed_ms)
