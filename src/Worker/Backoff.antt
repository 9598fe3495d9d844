-- ===== src/Worker/Backoff.antt =====
-- Waits between attempts that double: crates/cvd-worker/src/backoff.rs and `connect_with_backoff` of
-- src/client.rs. A `Duration` is a number of nanoseconds. The factor is an f64, which is a parameter:
-- `at_least_one f` is `f.max(1.0)`, `scale f n` is `(n as f64 * f) as u64`.
pub mod Sequence
use cvdbench.Base.{
  ℕ, zero, suc, ◌+◌, ◌*◌, ◌/◌, ◌^◌, ◌≤◌, ◌<◌, ◌≡◌, refl, Bool, true, false, List, [], ◌∷◌, Option,
  none, some, min, max, arith, ltb, ◌==◌, if◌then◌else◌, ◌++◌,
}

abbrev pub ms : ℕ → ℕ
ms n = n * 1_000_000

abbrev pub default_initial : ℕ
default_initial = ms 200

abbrev pub default_max : ℕ
default_max = ms 30_000

pub record ExponentialBackoff (F : Type 0) : Type 0 where
  pub initial : ℕ
  pub maximum : ℕ
  pub factor : F
  pub current : ℕ

module _ {F : Type 0} (at_least_one : F → F) (scale : F → ℕ → ℕ) where
  unfoldable pub new : ℕ → ℕ → F → ExponentialBackoff F
  new initial maximum factor =
      let first = if initial == 0 then default_initial else initial in
      record {
        initial = first;
        maximum = if ltb maximum first then first else maximum;
        factor = at_least_one factor;
        current = first;
      }

  -- `Default`, with `two` for the constant 2.0.
  unfoldable pub default_backoff : F → ExponentialBackoff F
  unfolding new
  default_backoff two = new default_initial default_max two

  -- The delay, and the state after.
  unfoldable pub next_delay : ExponentialBackoff F → ℕ × ExponentialBackoff F
  next_delay b =
      let next = ms (max (scale b.factor (b.current / 1_000_000)) 1) in
      (b.current, record b { current = if ltb b.maximum next then b.maximum else next })

  -- What `n` calls in a row give.
  unfoldable pub delays : ℕ → ExponentialBackoff F → List ℕ
  unfolding next_delay
  delays zero b = []
  delays (suc n) b = let (d, after) = next_delay b in d ∷ delays n after

module _ {F : Type 0} where
  unfoldable pub reset : ExponentialBackoff F → ExponentialBackoff F
  reset b = record b { current = b.initial }

  unfoldable pub peek : ExponentialBackoff F → ℕ
  peek b = b.current

-- `connect_with_backoff`, by what the attempts come to: a client (`some`) or an error. It gives the
-- sleeps and the client, or none while the attempts still fail.
module _ {ℓ} {C : Type ℓ} where
  unfoldable pub connect_loop : ℕ → List (Option C) → List ℕ × Option C
  connect_loop delay [] = ([], none)
  connect_loop delay (some client ∷ rest) = ([], some client)
  connect_loop delay (none ∷ rest) =
      let (slept, client) = connect_loop (min (delay * 2) default_max) rest in
      (delay ∷ slept, client)

  unfoldable pub connect_with_backoff : List (Option C) → List ℕ × Option C
  unfolding connect_loop
  connect_with_backoff attempts = connect_loop default_initial attempts
