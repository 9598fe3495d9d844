-- ===== src/Metrics/Aggregate.antt =====
-- crates/cvd-common/src/metrics/aggregate.rs: the results of several workers merged into one view.
use cvdbench.Base.{
  ℕ, ◌+◌, Bool, true, false, ◌||◌, List, [], ◌∷◌, map, Option, none, some, if◌then◌else◌, length,
}
use cvdbench.Base.Int.{ℤ, pos, ◌+ℤ◌, ◌-ℤ◌, wrap_i64, saturate_i64, max_ℤ, min_ℤ, ltb_ℤ, is_positive}
use cvdbench.Base.Map.{Map, lookup, insert, values}
use cvdbench.Proto.Reports.{F64, LatencyStats, PerformanceMetrics, WorkerResult, AggregatedMetrics}
use cvdbench.Metrics.{Platform}

pub record AggregatedSummary : Type 0 where
  pub aggregated : AggregatedMetrics
  pub effective_window_ms : ℤ
  pub window_misaligned : Bool
  pub success_worker_count : ℕ
  pub missing_histogram_count : ℕ

unfoldable pub saturating_add : ℤ → ℤ → ℤ
unfolding saturate_i64 ◌+ℤ◌
saturating_add a b = saturate_i64 (a +ℤ b)

-- The counters are positive in one of the fields.
unfoldable pub counts : PerformanceMetrics → Bool
counts m = is_positive m.total_ops || is_positive m.total_bytes || is_positive m.error_count

unfoldable pub any_metric : (PerformanceMetrics → Bool) → Map PerformanceMetrics → Bool
any_metric p [] = false
any_metric p ((op, m) ∷ ms) = p m || any_metric p ms

unfoldable pub has_counters : WorkerResult → Bool
unfolding any_metric counts
has_counters w = any_metric counts w.per_op

unfoldable pub select : (WorkerResult → Bool) → List WorkerResult → List WorkerResult
select p [] = []
select p (w ∷ ws) = let rest = select p ws in if p w then w ∷ rest else rest

unfoldable pub largest : (WorkerResult → ℤ) → ℤ → List WorkerResult → ℤ
largest f a [] = a
largest f a (w ∷ ws) = largest f (max_ℤ a (f w)) ws

unfoldable pub least : (WorkerResult → ℤ) → ℤ → List WorkerResult → ℤ
least f a [] = a
least f a (w ∷ ws) = least f (min_ℤ a (f w)) ws

-- One worker: its own span, or the duration that it reports.
unfoldable pub single_window : WorkerResult → ℤ × Bool
unfolding wrap_i64 ◌-ℤ◌
single_window w =
    let span = max_ℤ (wrap_i64 (w.measure_end_ms -ℤ w.measure_start_ms)) (pos 0) in
    (if is_positive span then span else max_ℤ w.effective_duration_ms (pos 0), false)

unfoldable pub compute_effective_window_ms : List WorkerResult → ℤ × Bool
unfolding single_window largest least wrap_i64 ◌-ℤ◌
compute_effective_window_ms [] = (pos 0, false)
compute_effective_window_ms (w ∷ []) = single_window w
compute_effective_window_ms (w ∷ v ∷ ws) =
    let max_start = largest (λ x. x.measure_start_ms) w.measure_start_ms (v ∷ ws) in
    let min_end = least (λ x. x.measure_end_ms) w.measure_end_ms (v ∷ ws) in
    if ltb_ℤ max_start min_end
    then (wrap_i64 (min_end -ℤ max_start), false)
    else (least (λ x. x.effective_duration_ms) w.effective_duration_ms (v ∷ ws), true)

unfoldable pub lacks_histogram : PerformanceMetrics → Bool
lacks_histogram m = elim m.latency_histogram_hdr [ [] ↦ is_positive m.total_ops | b ∷ bs ↦ false ]

-- A worker counts once.
unfoldable pub count_missing : List WorkerResult → ℕ
unfolding any_metric lacks_histogram
count_missing [] = 0
count_missing (w ∷ ws) = (if any_metric lacks_histogram w.per_op then 1 else 0) + count_missing ws

-- The state of one operation as it is merged over the workers.
pub record MergedOp {ℓ} (H : Type ℓ) : Type ℓ where
  pub total_ops : ℤ
  pub total_bytes : ℤ
  pub error_count : ℤ
  pub histogram : Option H

module _ ⦃pf : Platform⦄ where
  open pf use {
    Histogram, decode, encode_v2_compressed, merge, has_samples, value_at_quantile, greatest, mean,
    of_int, quotient, is_above_zero, is_finite,
  }

  unfoldable pub empty_op : MergedOp Histogram
  empty_op = record {
    total_ops = pos 0;
    total_bytes = pos 0;
    error_count = pos 0;
    histogram = none;
  }

  unfoldable pub merge_counters : PerformanceMetrics → MergedOp Histogram → MergedOp Histogram
  merge_counters m e = record e {
    total_ops = saturating_add e.total_ops m.total_ops;
    total_bytes = saturating_add e.total_bytes m.total_bytes;
    error_count = saturating_add e.error_count m.error_count;
  }

  unfoldable pub add_histogram : Histogram → MergedOp Histogram → MergedOp Histogram
  add_histogram h e = record e {
    histogram = elim e.histogram [ none ↦ some h | some existing ↦ some (merge existing h) ];
  }

  unfoldable pub merge_histogram : PerformanceMetrics → MergedOp Histogram → MergedOp Histogram
  unfolding add_histogram
  merge_histogram m e = elim m.latency_histogram_hdr [
    | [] ↦ e
    | b ∷ bs ↦ elim (decode (b ∷ bs)) [ none ↦ e | some h ↦ add_histogram h e ]
  ]

  unfoldable pub merge_other : MergedOp Histogram → MergedOp Histogram → MergedOp Histogram
  unfolding add_histogram
  merge_other other e =
      let e' = record e {
        total_ops = saturating_add e.total_ops other.total_ops;
        total_bytes = saturating_add e.total_bytes other.total_bytes;
        error_count = saturating_add e.error_count other.error_count;
      } in
      elim other.histogram [ none ↦ e' | some h ↦ add_histogram h e' ]

  -- What one entry of a worker's `per_op` does to the merged operation.
  unfoldable pub merge_entry :
      Bool → PerformanceMetrics → Option (MergedOp Histogram) → MergedOp Histogram
  unfolding merge_counters merge_histogram empty_op
  merge_entry include_hist m old =
      let e = merge_counters m (elim old [ none ↦ empty_op | some x ↦ x ]) in
      if include_hist then merge_histogram m e else e

  unfoldable pub merge_worker :
      Bool → Map PerformanceMetrics → Map (MergedOp Histogram) → Map (MergedOp Histogram)
  unfolding merge_entry
  merge_worker include_hist [] acc = acc
  merge_worker include_hist ((op, m) ∷ ms) acc =
      merge_worker include_hist ms (insert op (merge_entry include_hist m (lookup op acc)) acc)

  unfoldable pub merge_workers :
      List WorkerResult → Map (MergedOp Histogram) → Map (MergedOp Histogram)
  unfolding merge_worker
  merge_workers [] acc = acc
  merge_workers (w ∷ ws) acc = merge_workers ws (merge_worker w.success w.per_op acc)

  unfoldable pub merge_ops : List (MergedOp Histogram) → MergedOp Histogram → MergedOp Histogram
  unfolding merge_other
  merge_ops [] total = total
  merge_ops (v ∷ vs) total = merge_ops vs (merge_other v total)

  unfoldable pub default_stats : LatencyStats
  default_stats =
      let z = of_int (pos 0) in record { p50 = z; p95 = z; p99 = z; p999 = z; max = z; avg = z }

  unfoldable pub stats_of : Histogram → LatencyStats
  stats_of h =
      let at = λ (num den : ℕ).
        of_int (pos (value_at_quantile h (quotient (of_int (pos num)) (of_int (pos den))))) in
      record {
        p50 = at 50 100;
        p95 = at 95 100;
        p99 = at 99 100;
        p999 = at 999 1000;
        max = of_int (pos (greatest h));
        avg = if is_finite (mean h) then mean h else of_int (pos 0);
      }

  unfoldable pub to_pb : F64 → MergedOp Histogram → PerformanceMetrics
  unfolding default_stats stats_of
  to_pb effective_secs e = record {
    throughput_mbps =
        if is_above_zero effective_secs
        then quotient (quotient (of_int e.total_bytes) (of_int (pos 1_000_000))) effective_secs
        else of_int (pos 0);
    iops =
        if is_above_zero effective_secs
        then quotient (of_int e.total_ops) effective_secs
        else of_int (pos 0);
    latency_us = some (elim e.histogram [
      | none ↦ default_stats
      | some h ↦ if has_samples h then stats_of h else default_stats
    ]);
    error_count = e.error_count;
    error_rate =
        if is_positive e.total_ops
        then quotient (of_int e.error_count) (of_int e.total_ops)
        else of_int (pos 0);
    total_ops = e.total_ops;
    total_bytes = e.total_bytes;
    latency_histogram_hdr = elim e.histogram [
      | none ↦ []
      | some h ↦ elim (encode_v2_compressed h) [ none ↦ [] | some bytes ↦ bytes ]
    ];
  }

  unfoldable pub aggregate : List WorkerResult → AggregatedSummary
  unfolding merge_workers merge_ops to_pb
  aggregate workers =
      let successful = select (λ w. w.success) workers in
      let window = compute_effective_window_ms (select has_counters workers) in
      let effective_secs = quotient (of_int (max_ℤ window.0 (pos 1))) (of_int (pos 1000)) in
      let merged_per_op = merge_workers workers [] in
      let total = merge_ops (values merged_per_op) empty_op in
      record {
        aggregated = record {
          total = some (to_pb effective_secs total);
          total_per_op = map (λ e. (e.0, to_pb effective_secs e.1)) merged_per_op;
          per_worker = workers;
        };
        effective_window_ms = window.0;
        window_misaligned = window.1;
        success_worker_count = length successful;
        missing_histogram_count = count_missing successful;
      }
