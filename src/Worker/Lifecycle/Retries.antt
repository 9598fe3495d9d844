-- ===== src/Worker/Lifecycle/Retries.antt =====
-- The loops of crates/cvd-worker/src/lifecycle.rs that give up: `report_result_with_retry` and
-- `send_ready_error`.
use cvdbench.Base.{
  ℕ, zero, suc, ◌+◌, ◌-◌, ◌≤◌, ◌<◌, ◌≡◌, Bool, true, false, ◌⊎◌, Option, none, some,
}
use cvdbench.Master.Replies.{ReportResultResponse}
use cvdbench.Worker.Lifecycle.{ReportOutcome, acked, unknown_job, exhausted, Tried}

-- The `n` attempts from the `k`-th on had no answer, and the flag was not set before them.
abbrev pub AllFail : (ℕ → Bool) → (ℕ → Option ReportResultResponse) → ℕ → ℕ → Type 0
AllFail unknown answer k zero = Unit
AllFail unknown answer k (suc n) =
    (unknown k ≡ false) × (answer k ≡ none) × AllFail unknown answer (suc k) n

-- Why the report of a result, with `n` attempts from the `k`-th on, comes to its outcome: an attempt
-- that was answered, or that the flag or an answer stopped, or that all attempts failed.
abbrev pub Explains :
    (ℕ → Bool) → (ℕ → Option ReportResultResponse) → ℕ → ℕ → Tried ReportOutcome → Type 0
Explains unknown answer k n t = elim t.outcome [
  | acked ↦
      (j : ℕ) × (k ≤ j)
      × (j < k + n)
      × (r : ReportResultResponse) × (answer j ≡ some r)
      × (r.unknown_job ≡ false)
      × (t.calls ≡ j - k + 1)
  | unknown_job ↦
      (j : ℕ) × (k ≤ j)
      × (j < k + n)
      × ((unknown j ≡ true)
          ⊎ ((r : ReportResultResponse) × (answer j ≡ some r) × (r.unknown_job ≡ true)))
  | exhausted ↦ AllFail unknown answer k n × (t.calls ≡ n)
]
