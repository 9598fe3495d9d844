-- ===== src/Worker/Backoff/Sequence.antt =====
-- The sequence of waits of crates/cvd-worker/src/backoff.rs and src/client.rs.
use cvdbench.Base.{
  ℕ, zero, suc, ◌*◌, ◌/◌, ◌^◌, ◌≤◌, ◌<◌, ◌≡◌, refl, List, [], ◌∷◌, Option, none, some, min, max,
  arith, ltb, ◌==◌, if◌then◌else◌, All, ap, ◌∙◌, sym,
}
use cvdbench.Worker.Backoff.{
  ms, default_initial, default_max, ExponentialBackoff, new, default_backoff, next_delay, delays,
  reset, connect_loop, connect_with_backoff,
}

-- 200 ms times 2 to the `k`, and at most 30 s.
abbrev pub power_delay : ℕ → ℕ
power_delay k = ms (min (200 * 2 ^ k) 30_000)

-- `n` of them, from the `k`-th on.
abbrev pub power_delays : ℕ → ℕ → List ℕ
power_delays k zero = []
power_delays k (suc n) = power_delay k ∷ power_delays (suc k) n

double_power : (k : ℕ) → min (power_delay k * 2) default_max ≡ power_delay (suc k)
double_power k = omega arith

power_positive : (k : ℕ) → 0 < 2 ^ k
power_positive zero = omega arith
power_positive (suc k) = omega (arith, power_positive k)

module _ {ℓ} {C : Type ℓ} where
  -- `n` attempts that fail, then the others.
  abbrev pub failures : ℕ → List (Option C) → List (Option C)
  failures zero rest = rest
  failures (suc n) rest = none ∷ failures n rest

  connect_loop-slept :
      (n k : ℕ) (client : C) (rest : List (Option C))
      → connect_loop (power_delay k) (failures n (some client ∷ rest))
        ≡ (power_delays k n, some client)
  unfolding connect_loop
  connect_loop-slept zero k client rest = refl
  connect_loop-slept (suc n) k client rest =
      rw (double_power k, connect_loop-slept n (suc k) client rest)

module _ {F : Type 0} (at_least_one : F → F) (scale : F → ℕ → ℕ) where
  -- The calls made so far.
  unfoldable pub after : ℕ → ExponentialBackoff F → ExponentialBackoff F
  after zero b = b
  after (suc k) b = after k (next_delay at_least_one scale b).1

  next-power :
      (p q n : ℕ)
      → q ≡ 2 * p
      → 0 < p
      → n ≡ min (200 * p) 30_000 * 2
      → (if ltb default_max (ms (max n 1)) then default_max else ms (max n 1))
        ≡ ms (min (200 * q) 30_000)
  next-power p q n e h g = ground arith

  delays-power :
      (f : F)
      → ((n : ℕ) → n ≤ 30_000 → scale f n ≡ n * 2)
      → (n k : ℕ)
      → delays at_least_one scale n (record {
        initial = default_initial;
        maximum = default_max;
        factor = f;
        current = power_delay k;
      })
        ≡ power_delays k n
  unfolding delays next_delay
  delays-power f exact zero k = refl
  delays-power f exact (suc n) k =
      rw
        (next-power (2 ^ k) (2 ^ suc k) (scale f (power_delay k / 1_000_000)) (omega arith)
          (power_positive k) (exact_at (power_delay k / 1_000_000) (omega arith) (omega arith)))
        (ap (λ l. power_delay k ∷ l) (delays-power f exact n (suc k)))
    where
      exact_at :
          (m : ℕ)
          → m ≤ 30_000
          → m ≡ min (200 * 2 ^ k) 30_000
          → scale f m ≡ min (200 * 2 ^ k) 30_000 * 2
      exact_at m h e = exact m h ∙ ap (λ x. x * 2) e

  -- The waits between the attempts to connect are those of the default backoff, if the product with
  -- 2.0 is exact up to 30,000: after `n` failures the loop has slept `n` times, the `k`-th time 200 ms
  -- times 2 to the `k` and at most 30 s, and the first client that it gets is the result.
  pub connect_with_backoff-delays {ℓ} :
      {C : Type ℓ} (two : F)
      → ((n : ℕ) → n ≤ 30_000 → scale (at_least_one two) n ≡ n * 2)
      → (n : ℕ) (client : C) (rest : List (Option C))
      → (connect_with_backoff (failures n (some client ∷ rest))
          ≡ (delays at_least_one scale n (default_backoff at_least_one scale two), some client))
        × (delays at_least_one scale n (default_backoff at_least_one scale two) ≡ power_delays 0 n)
  unfolding connect_with_backoff default_backoff new
  connect_with_backoff-delays two exact n client rest =
      let same = delays-power (at_least_one two) exact n 0 in
      (connect_loop-slept n 0 client rest ∙ ap (λ l. (l, some client)) (sym same), same)

  next-bounded :
      (b : ExponentialBackoff F)
      → b.current ≤ b.maximum
      → (next_delay at_least_one scale b).1.current ≤ b.maximum
  unfolding next_delay
  next-bounded b h = ground arith

  -- What calls leave alone.
  after-initial : (k : ℕ) (b : ExponentialBackoff F) → reset (after k b) ≡ reset b
  unfolding after next_delay reset
  after-initial zero b = refl
  after-initial (suc k) b = after-initial k (next_delay at_least_one scale b).1

  delays-bounded :
      (n m : ℕ) (b : ExponentialBackoff F)
      → b.current ≤ b.maximum
      → b.maximum ≡ m
      → All (λ d. d ≤ m) (delays at_least_one scale n b)
  unfolding delays next_delay
  delays-bounded zero m b h e = tt
  delays-bounded (suc n) m b h e =
      (omega arith, delays-bounded n m (next_delay at_least_one scale b).1 (next-bounded b h) e)

  -- Whatever the factor and the f64 product: no wait is longer than the larger of the maximum and the
  -- initial wait, which is 200 ms if it is given as zero, and after any number of calls a reset gives
  -- the waits from the start again.
  pub delays-IsBounded :
      (initial maximum : ℕ) (f : F) (k n : ℕ)
      → let b = new at_least_one scale initial maximum f in
        let first = if initial == 0 then default_initial else initial in
        All (λ d. d ≤ max maximum first) (delays at_least_one scale n b)
        × (delays at_least_one scale n (reset (after k b)) ≡ delays at_least_one scale n b)
  unfolding new reset
  delays-IsBounded initial maximum f k n =
      let b = new at_least_one scale initial maximum f in
      (
        delays-bounded n (max maximum (if initial == 0 then default_initial else initial)) b
            (ground arith) (ground arith),
        ap (delays at_least_one scale n) (after-initial k b),
      )
