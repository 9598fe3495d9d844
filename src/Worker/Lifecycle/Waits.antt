-- ===== src/Worker/Lifecycle/Waits.antt =====
-- What the loops of crates/cvd-worker/src/lifecycle.rs come to, and how long they take.
use cvdbench.Base.{
  ℕ, zero, suc, ◌≤◌, ◌≡◌, refl, Bool, true, false, inl, inr, ◌⊎◌, List, [], ◌∷◌, Option, none, some,
  arith, if◌then◌else◌, All, Option-cases, Bool-cases, length,
}
use cvdbench.Base.Int.{ℤ, pos, negsuc, ◌≤ℤ◌}
use cvdbench.Master.Replies.{ReportReadyResponse}
use cvdbench.Worker.Clock.{MasterClockOffset, refine_with}
use cvdbench.Worker.Backoff.{
  default_max, ExponentialBackoff, new, default_backoff, next_delay, reset,
}
use cvdbench.Worker.Lifecycle.{
  BarrierOutcome, start, barrier_cancelled, barrier_unknown, is_positive, Round, Waited,
  answer_outcome, wait_rounds, wait_for_start_barrier,
}

-- How a turn at the barrier decides: the flag is set; or the answer says that the job is cancelled; or,
-- if not, that the master does not know it; or, if neither, it has a start time above zero.
pub data Decides (r : Round) : BarrierOutcome → Type 0 where
  flag_set : r.cancelled ≡ true → Decides r barrier_cancelled
  told_cancelled :
      (a : ReportReadyResponse)
      → r.cancelled ≡ false
      → r.answer ≡ some a
      → a.cancelled ≡ true
      → Decides r barrier_cancelled
  told_unknown :
      (a : ReportReadyResponse)
      → r.cancelled ≡ false
      → r.answer ≡ some a
      → a.cancelled ≡ false
      → a.unknown_job ≡ true
      → Decides r barrier_unknown
  told_start :
      (a : ReportReadyResponse) (n : ℕ)
      → r.cancelled ≡ false
      → r.answer ≡ some a
      → a.cancelled ≡ false
      → a.unknown_job ≡ false
      → a.start_at_ms ≡ pos (suc n)
      → Decides r (start (pos (suc n)))

-- A turn that decides nothing: the flag is not set, and the RPC failed or the answer says nothing of
-- the above.
abbrev pub IsOpen : Round → Type 0
IsOpen r =
    (r.cancelled ≡ false)
    × ((r.answer ≡ none)
        ⊎ ((a : ReportReadyResponse) × (r.answer ≡ some a)
            × (a.cancelled ≡ false)
            × (a.unknown_job ≡ false)
            × (a.start_at_ms ≤ℤ pos 0)))

-- Why the wait ends as it does, after that many sleeps.
pub data Ends : List Round → Option BarrierOutcome → ℕ → Type 0 where
  goes_on : Ends [] none 0
  decides :
      {r : Round} {rs : List Round} {o : BarrierOutcome} → Decides r o → Ends (r ∷ rs) (some o) 0
  sleeps :
      {r : Round} {rs : List Round} {o : Option BarrierOutcome} {n : ℕ}
      → IsOpen r
      → Ends rs o n
      → Ends (r ∷ rs) o (suc n)

-- What an answer that decides says, and one that does not.
answered :
    (r : Round) (a : ReportReadyResponse) (o : BarrierOutcome)
    → r.cancelled ≡ false
    → r.answer ≡ some a
    → answer_outcome a ≡ some o
    → Decides r o
unfolding answer_outcome
answered r a o e f g = elim (Bool-cases a.cancelled) [
  | inl c ↦ let same : o ≡ barrier_cancelled = ground arith in rw same (told_cancelled a e f c)
  | inr c ↦ elim (Bool-cases a.unknown_job) [
    | inl u ↦ let same : o ≡ barrier_unknown = ground arith in rw same (told_unknown a e f c u)
    | inr u ↦
        let (n, same, t) = started a.start_at_ms o (ground arith) in
        rw same (told_start a n e f c u t)
  ]
]
  where
    started :
        (t : ℤ) (o' : BarrierOutcome)
        → (if is_positive t then some (start t) else none) ≡ some o'
        → (n : ℕ) × (o' ≡ start (pos (suc n))) × (t ≡ pos (suc n))
    started (pos (suc n)) o' h = (n, ground arith, refl)
    started (pos zero) o' h = cc
    started (negsuc n) o' h = cc

undecided :
    (r : Round) (a : ReportReadyResponse)
    → r.cancelled ≡ false
    → r.answer ≡ some a
    → answer_outcome a ≡ none
    → IsOpen r
unfolding answer_outcome
undecided r a e f g =
    (e, inr (a, f, ground arith, ground arith, not_positive a.start_at_ms (ground arith)))
  where
    not_positive : (t : ℤ) → is_positive t ≡ false → t ≤ℤ pos 0
    not_positive t h = ground arith

module _ {F : Type 0} (at_least_one : F → F) (scale : F → ℕ → ℕ) (two : F) where
  -- A backoff whose delays are at most 30 s.
  abbrev Capped : ExponentialBackoff F → Type 0
  Capped b = (b.current ≤ default_max) × (b.initial ≤ default_max) × (b.maximum ≤ default_max)

  default-Capped : Capped (default_backoff at_least_one scale two)
  unfolding default_backoff new
  default-Capped = (omega arith, omega arith, omega arith)

  next-Capped : (b : ExponentialBackoff F) → Capped b → Capped (next_delay at_least_one scale b).1
  unfolding next_delay
  next-Capped b (h, k, l) = (ground arith, k, l)

  reset-Capped : (b : ExponentialBackoff F) → Capped b → Capped (reset b)
  unfolding reset
  reset-Capped b (h, k, l) = (k, k, l)

  abbrev Right : List Round → Waited → Type 0
  Right rs w = Ends rs w.outcome (length w.slept) × All (λ d. d ≤ default_max) w.slept

  -- One turn, with what holds of the later ones.
  turn-Right :
      (rs : List Round)
      → ((b : ExponentialBackoff F) (clock : MasterClockOffset)
          → Capped b
          → Right rs (wait_rounds at_least_one scale two b clock rs))
      → (b : ExponentialBackoff F) (clock : MasterClockOffset) (r : Round) → Capped b
      → (cancelled : Bool) (answer : Option ReportReadyResponse) → r.cancelled ≡ cancelled
      → r.answer ≡ answer
      → Right (r ∷ rs) (wait_rounds at_least_one scale two b clock (r ∷ rs))
  unfolding wait_rounds next_delay
  turn-Right rs later b clock r c true answer e f =
      rw (e, wait_rounds) (decides (flag_set refl), tt)
  turn-Right rs later b clock r c false none e f =
      rw (e, f, wait_rounds)
        (let (o, s) = later (next_delay at_least_one scale b).1 clock (next-Capped b c) in
          (sleeps {r = record r { cancelled = false; answer = none }} (refl, inl refl) o, (c.0, s)))
  turn-Right rs later b clock r c false (some a) e f = elim (Option-cases (answer_outcome a)) [
    | inl g ↦
        rw (e, f, g, wait_rounds)
          (let (o, s) =
              later (reset b) (refine_with (pos a.master_now_ms) r.send_at r.recv_at clock)
                (reset-Capped b c) in
            (
              sleeps (undecided (record r { cancelled = false; answer = some a }) a refl refl g) o,
              (omega arith, s),
            ))
    | inr (o, g) ↦
        rw (e, f, g, wait_rounds)
          (decides (answered (record r { cancelled = false; answer = some a }) a o refl refl g), tt)
  ]

  wait_rounds-Right :
      (b : ExponentialBackoff F) (clock : MasterClockOffset) (rs : List Round)
      → Capped b
      → Right rs (wait_rounds at_least_one scale two b clock rs)
  unfolding wait_rounds
  wait_rounds-Right b clock [] c = (goes_on, tt)
  wait_rounds-Right b clock (r ∷ rs) c =
      turn-Right rs (λ b' clock' c'. wait_rounds-Right b' clock' rs c') b clock r c r.cancelled
        r.answer refl refl

  pub wait_for_start_barrier-Ends :
      (clock : MasterClockOffset) (rounds : List Round)
      → let w = wait_for_start_barrier at_least_one scale two clock rounds in
        Ends rounds w.outcome (length w.slept) × All (λ d. d ≤ 30_000_000_000) w.slept
  unfolding wait_for_start_barrier
  wait_for_start_barrier-Ends clock rounds =
      wait_rounds-Right (default_backoff at_least_one scale two) clock rounds default-Capped
