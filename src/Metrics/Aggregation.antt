-- ===== src/Metrics/Aggregation.antt =====
-- The sums and the average of `getAggregatedMetrics`, src/Server.cpp.
use eventhub.Prelude.{
  ℕ, suc, ◌+◌, ◌*◌, ◌%◌, ◌^◌, ◌<◌, ◌≤◌, ◌≡◌, refl, List, [], ◌∷◌, ltb, if_true, length, arith,
}
use native.Mathlib.Nat.{div-le_of_le-mul}
use eventhub.Metrics.{
  WorkerMetrics, ServerMetrics, AggregatedMetrics, new_worker_metrics, count_connect,
  count_disconnect, add_worker_metrics, sum_metrics, average, get_aggregated_metrics,
}

-- Every connection that was counted in is still there or was counted out, on the 64 bits of the
-- counters.
abbrev pub IsBalanced : WorkerMetrics → Type 0
IsBalanced m =
    (m.current_connections_count + m.total_disconnect_count) % 2 ^ 64
    ≡ m.total_connect_count % 2 ^ 64

pub count_connect-IsBalanced : (m : WorkerMetrics) → IsBalanced m → IsBalanced (count_connect m)
unfolding count_connect
count_connect-IsBalanced m h = omega arith

pub count_disconnect-IsBalanced :
    (m : WorkerMetrics) → IsBalanced m → IsBalanced (count_disconnect m)
unfolding count_disconnect
count_disconnect-IsBalanced m h = omega arith

abbrev pub AreAll : (WorkerMetrics → Type 0) → List WorkerMetrics → Type 0
AreAll P [] = Unit {0}
AreAll P (wrk ∷ wrks) = P wrk × AreAll P wrks

sum_metrics-IsBalanced :
    (m : WorkerMetrics) (wrks : List WorkerMetrics)
    → IsBalanced m
    → AreAll IsBalanced wrks
    → IsBalanced (sum_metrics m wrks)
unfolding sum_metrics
sum_metrics-IsBalanced m [] h k = h
sum_metrics-IsBalanced m (wrk ∷ wrks) h (k, ks) =
    sum_metrics-IsBalanced (add_worker_metrics m wrk) wrks (omega arith) ks

average-le : (n sum b : ℕ) → sum ≤ suc n * b → average (suc n) sum ≤ b
unfolding average
average-le n sum b h =
    if_true (λ z. z ≤ b) (ltb 0 (suc n)) _ _ (ground arith) (div-le_of_le-mul (suc n) h)

sum_metrics-delay :
    (m : WorkerMetrics) (wrks : List WorkerMetrics) (b : ℕ)
    → AreAll (λ wrk. wrk.eventloop_delay_ms ≤ b) wrks
    → m.eventloop_delay_ms + length wrks * b < 2 ^ 64
    → (sum_metrics m wrks).eventloop_delay_ms ≤ m.eventloop_delay_ms + length wrks * b
unfolding sum_metrics
sum_metrics-delay m [] b k h = omega arith
sum_metrics-delay m (wrk ∷ wrks) b (k, ks) h =
    let small : (m.eventloop_delay_ms + wrk.eventloop_delay_ms) % 2 ^ 64 + length wrks * b
        < 2 ^ 64 =
      grind (arith, k, h) in
    let rest = sum_metrics-delay (add_worker_metrics m wrk) wrks b ks small in
    grind (arith, rest, k)

-- The counts that the metrics show agree: the connections there are, and those that went, are those
-- that came, on the 64 bits of the counters, if each worker's agree.
pub get_aggregated_metrics-IsBalanced :
    (server : ServerMetrics) (wrks : List WorkerMetrics)
    → AreAll IsBalanced wrks
    → IsBalanced (AggregatedMetrics.workers (get_aggregated_metrics server wrks))
unfolding get_aggregated_metrics
get_aggregated_metrics-IsBalanced server wrks h =
    sum_metrics-IsBalanced new_worker_metrics wrks refl h

-- The delay that the metrics show is no larger than the largest of the workers', also where there
-- are no workers, if the sum fits the counter.
pub get_aggregated_metrics_delay :
    (server : ServerMetrics) (wrks : List WorkerMetrics) (b : ℕ)
    → AreAll (λ wrk. wrk.eventloop_delay_ms ≤ b) wrks
    → length wrks * b < 2 ^ 64
    → (AggregatedMetrics.workers (get_aggregated_metrics server wrks)).eventloop_delay_ms ≤ b
unfolding get_aggregated_metrics average
get_aggregated_metrics_delay server [] b h k = omega arith
get_aggregated_metrics_delay server (wrk ∷ wrks) b h k =
    average-le (length wrks) _ b
      (omega (arith, sum_metrics-delay new_worker_metrics (wrk ∷ wrks) b h (omega (arith, k))))
