-- ===== src/Worker/Lifecycle/Assigned/Window.antt =====
-- The window that a result reports, and which jobs get one, in crates/cvd-worker/src/lifecycle.rs.
use cvdbench.Base.{
  ℕ, ◌+◌, ◌-◌, ◌/◌, ◌^◌, ◌<◌, ◌≡◌, refl, sym, subst, min, Text, arith, ltb, if◌then◌else◌,
}
use cvdbench.Base.Int.{ℤ, pos, ◌+ℤ◌, ◌-ℤ◌, ◌≤ℤ◌, saturate_i64, wrap_i64, max_ℤ, min_ℤ}
use cvdbench.Spec.{BenchSpec}
use cvdbench.Worker.Clock.{Instant, MasterClockOffset, clock_now_master, i64_or, ns_per_ms}
use cvdbench.Worker.Lifecycle.Assigned.{Run, measure_start_of, final_result, millis, sat_add}

window_bounds :
    (now start_ms duration : ℕ)
    → start_ms < 2 ^ 63
    → duration < 2 ^ 63
    → let planned = sat_add (pos start_ms) (pos duration) in
      let end_ms = min_ℤ (pos now) planned in
      let effective = max_ℤ (wrap_i64 (end_ms -ℤ pos start_ms)) (pos 0) in
      (pos 0 ≤ℤ effective) × (effective ≤ℤ pos duration) × (end_ms ≤ℤ planned)
unfolding saturate_i64 wrap_i64 ◌+ℤ◌ ◌-ℤ◌
window_bounds now start_ms duration h k = (ground arith, ground arith, ground arith)

-- A value that is a number and fits 63 bits.
abbrev Fits : ℤ → Type 0
Fits x = (n : ℕ) × (x ≡ pos n) × (n < 2 ^ 63)

sat_add-Fits : (a b : ℕ) → Fits (sat_add (pos a) (pos b))
unfolding saturate_i64 ◌+ℤ◌
sat_add-Fits a b = (min (a + b) (2 ^ 63 - 1), ground arith, omega arith)

i64_or-Fits : (d n : ℕ) → d < 2 ^ 63 → Fits (i64_or (pos d) n)
unfolding i64_or
i64_or-Fits d n h = (if ltb n (2 ^ 63) then n else d, ground arith, ground arith)

clock-Fits :
    (i : Instant) (a : ℕ) (now : Instant)
    → Fits (clock_now_master (record { local_anchor = i; master_anchor_ms = pos a }) now)
unfolding clock_now_master
clock-Fits i a now =
    let (n, e, h) = i64_or-Fits (2 ^ 63 - 1) ((now - i) / ns_per_ms) (omega arith) in
    subst (λ x. Fits (sat_add (pos a) x)) (sym e) (sat_add-Fits a n)

-- The values of the window, given as numbers.
window_of :
    {start_ms end_now duration : ℤ}
    → Fits start_ms
    → Fits end_now
    → Fits duration
    → let planned = sat_add start_ms duration in
      let end_ms = min_ℤ end_now planned in
      let effective = max_ℤ (wrap_i64 (end_ms -ℤ start_ms)) (pos 0) in
      (pos 0 ≤ℤ effective) × (effective ≤ℤ duration) × (end_ms ≤ℤ planned)
window_of (s, e, h) (n, f, k) (d, g, l) = rw (e, f, g) (window_bounds n s d h l)

module _ {P : Type 0} where
  -- The window of a result, for any start time, clock and end of the runners: it starts a warm-up after
  -- the start time, and ends at the planned end at the latest; the duration that it reports is not
  -- negative and not longer than the duration of the specification.
  pub final_result-window :
      (worker_id : Text) (spec : BenchSpec) (start_ms a : ℕ) (i : Instant) (run : Run P)
      → let clock : MasterClockOffset = record { local_anchor = i; master_anchor_ms = pos a } in
        let r = final_result worker_id spec (pos start_ms) clock run in
        (r.measure_start_ms ≡ sat_add (pos start_ms) (millis spec.warmup))
        × (pos 0 ≤ℤ r.effective_duration_ms)
        × (r.effective_duration_ms ≤ℤ millis spec.duration)
        × (r.measure_end_ms ≤ℤ sat_add r.measure_start_ms (millis spec.duration))
  unfolding final_result measure_start_of
  final_result-window worker_id spec start_ms a i run =
      let (w, e, h) = i64_or-Fits 0 (spec.warmup / ns_per_ms) (omega arith) in
      let started : Fits (sat_add (pos start_ms) (millis spec.warmup)) =
        subst (λ x. Fits (sat_add (pos start_ms) x)) (sym e) (sat_add-Fits start_ms w) in
      let (low, high, last) =
        window_of started (clock-Fits i a run.now_at_end)
          (i64_or-Fits 0 (spec.duration / ns_per_ms) (omega arith)) in
      (refl, low, high, last)
