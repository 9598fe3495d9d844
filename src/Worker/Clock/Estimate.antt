-- ===== src/Worker/Clock/Estimate.antt =====
-- How well the clock of crates/cvd-worker/src/clock.rs follows the master's.
use cvdbench.Base.{ℕ, ◌+◌, ◌-◌, ◌*◌, ◌/◌, ◌^◌, ◌≤◌, ◌<◌, ◌≡◌, ap, false, some, arith, ltb}
use cvdbench.Base.Int.{ℤ, pos, ◌+ℤ◌, ◌-ℤ◌, saturate_i64, wrap_i64}
use cvdbench.Worker.Clock.{
  Instant, ns_per_ms, MasterClockOffset, since, i64_or, refine_with, distance, add_duration,
  master_to_local, clock_now_master,
}

small-i64 : (d : ℤ) (n : ℕ) → n < 2 ^ 63 → i64_or d n ≡ pos n
unfolding i64_or
small-i64 d n h = ground arith

sum_fits : (a b : ℕ) → a + b < 2 ^ 63 → saturate_i64 (pos a +ℤ pos b) ≡ pos (a + b)
unfolding saturate_i64 ◌+ℤ◌
sum_fits a b h = ground arith

distance_fits : (a t : ℕ) → a ≤ t → t < 2 ^ 63 → distance (pos t) (pos a) ≡ t - a
unfolding distance wrap_i64 ◌-ℤ◌
distance_fits a t h k = ground arith

clock_fits :
    (i a now : ℕ)
    → a + since now i / ns_per_ms < 2 ^ 63
    → clock_now_master (record { local_anchor = i; master_anchor_ms = pos a }) now
      ≡ pos (a + since now i / ns_per_ms)
unfolding clock_now_master
clock_fits i a now h =
    rw (small-i64 (pos (2 ^ 63 - 1)) (since now i / ns_per_ms) (omega arith))
      (sum_fits a (since now i / ns_per_ms) h)

in_range : (latest i d : ℕ) → i + d ≤ latest → add_duration latest i d ≡ some (i + d)
unfolding add_duration
in_range latest i d h = ground arith

leb_quick : (rtt : ℕ) → rtt ≤ 5_000_000_000 → ltb 5_000_000_000 rtt ≡ false
leb_quick rtt h = ground arith

-- The offset that aligns the instant `i` with the master's millisecond `a`.
abbrev pub aligned : Instant → ℕ → MasterClockOffset
aligned i a = record { local_anchor = i; master_anchor_ms = pos a }

-- The local instant of a time of the master that is not before the anchor exists, if the platform
-- has it, and at this instant, and until a millisecond is over, the clock shows that time.
pub clock_now_master-master_to_local :
    (latest i a target ns : ℕ)
    → a ≤ target
    → target < 2 ^ 63
    → i + (target - a) * ns_per_ms ≤ latest
    → ns < ns_per_ms
    → (at : Instant) × (master_to_local latest (aligned i a) (pos target) ≡ some at)
      × (clock_now_master (aligned i a) (at + ns) ≡ pos target)
unfolding master_to_local
clock_now_master-master_to_local latest i a target ns h fits room late = (
  i + (target - a) * ns_per_ms,
  ground (arith, distance_fits a target h fits, in_range latest i ((target - a) * ns_per_ms) room),
  rw (clock_fits i a (i + (target - a) * ns_per_ms + ns) (omega arith)) (ap pos (omega arith)),
)

-- A master whose clock runs as fast as the worker's and is `ahead` nanoseconds before it answers a
-- call at some moment between `sent` and `received`, with the time in milliseconds. If the call takes
-- at most five seconds, the clock of the worker is from then on at most half the time of the call
-- fast, and at most that and three milliseconds slow.
pub refine_with-close :
    (o : MasterClockOffset) (ahead sent answered received now : ℕ)
    → sent ≤ answered
    → answered ≤ received
    → received ≤ now
    → received - sent ≤ 5_000_000_000
    → (now + ahead) / ns_per_ms + 5_000 < 2 ^ 63
    → let half = (received - sent) / ns_per_ms / 2 in
      let truth = (now + ahead) / ns_per_ms in
      let refined = refine_with (pos ((answered + ahead) / ns_per_ms)) sent received o in
      (shown : ℕ) × (clock_now_master refined now ≡ pos shown)
      × (shown ≤ truth + half)
      × (truth ≤ shown + half + 3)
unfolding refine_with
refine_with-close o ahead sent answered received now h k l quick fits =
    let half = (received - sent) / ns_per_ms / 2 in
    let stamp = (answered + ahead) / ns_per_ms in
    (
      stamp + half + since now received / ns_per_ms,
      rw
          (
            leb_quick (received - sent) quick,
            small-i64 (pos 0) half (omega arith),
            sum_fits stamp half (omega arith),
          )
          (clock_fits received (stamp + half) now (omega arith)),
      omega arith,
      omega arith,
    )
