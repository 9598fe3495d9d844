-- ===== src/Tests/Clock.antt =====
-- The clock and the waits of the workers at concrete inputs.
use cvdbench.Base.{ℕ, ◌+◌, ◌-◌, ◌*◌, ◌/◌, ◌^◌, ◌≤◌, ◌≡◌, [], ◌∷◌, some, max, All, arith}
use cvdbench.Base.Int.{pos}
use cvdbench.Worker.Clock.{Instant, ns_per_ms, master_to_local, clock_now_master, refine_with}
use cvdbench.Worker.Clock.Estimate.{aligned, clock_now_master-master_to_local, refine_with-close}
use cvdbench.Worker.Backoff.{
  new, default_backoff, delays, reset, connect_with_backoff, default_initial,
}
use cvdbench.Worker.Backoff.Sequence.{
  power_delays, failures, after, connect_with_backoff-delays, delays-IsBounded,
}

-- A doubling on numbers, with a factor of at least 1.
abbrev at_least_one : ℕ → ℕ
at_least_one f = max f 1

abbrev scale : ℕ → ℕ → ℕ
scale f n = n * f

-- Anchored at 5 ms and the master's 1000 ms; the target is 20 ms later.
clock_now_master-master_to_local_example :
    (at : Instant) × (master_to_local (2 ^ 64) (aligned 5_000_000 1_000) (pos 1_020) ≡ some at)
    × (clock_now_master (aligned 5_000_000 1_000) (at + 999) ≡ pos 1_020)
clock_now_master-master_to_local_example =
    clock_now_master-master_to_local (2 ^ 64) 5_000_000 1_000 1_020 999 (omega arith) (omega arith)
      (omega arith) (omega arith)

-- A call of 8 ms that the master answers after 2 ms, being 7 s ahead.
refine_with-close_example :
    let half = (9_000_000 - 1_000_000) / ns_per_ms / 2 in
    let truth = (20_000_000 + 7_000_000_000) / ns_per_ms in
    let refined =
      refine_with
        (pos ((3_000_000 + 7_000_000_000) / ns_per_ms))
        1_000_000
        9_000_000
        (aligned 0 0) in
    (shown : ℕ) × (clock_now_master refined 20_000_000 ≡ pos shown)
    × (shown ≤ truth + half)
    × (truth ≤ shown + half + 3)
refine_with-close_example =
    refine_with-close (aligned 0 0) 7_000_000_000 1_000_000 3_000_000 9_000_000 20_000_000
      (omega arith) (omega arith) (omega arith) (omega arith) (omega arith)

connect_with_backoff-delays_example :
    (connect_with_backoff {C = ℕ} (failures 9 (some 1 ∷ []))
      ≡ (delays at_least_one scale 9 (default_backoff at_least_one scale 2), some 1))
    × (delays at_least_one scale 9 (default_backoff at_least_one scale 2) ≡ power_delays 0 9)
connect_with_backoff-delays_example =
    connect_with_backoff-delays at_least_one scale 2 (λ n h. omega arith) 9 1 []

delays-IsBounded_example :
    let b = new at_least_one scale 0 1_000 3 in
    All (λ d. d ≤ max 1_000 default_initial) (delays at_least_one scale 5 b)
    × (delays at_least_one scale 5 (reset (after at_least_one scale 4 b))
        ≡ delays at_least_one scale 5 b)
delays-IsBounded_example = delays-IsBounded at_least_one scale 0 1_000 3 4 5
