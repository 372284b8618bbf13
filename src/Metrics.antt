-- ===== src/Metrics.antt =====
-- The counters of the server and of its workers, and the metrics made of them: include/metrics/Types.hpp,
-- `getAggregatedMetrics` of src/Server.cpp, the counting of src/ConnectionWorker.cpp and the
-- renderers of src/metrics/. Counters have 64 bits; reading one is one step.
pub mod Aggregation
use eventhub.Prelude.{
  ℕ, ◌+◌, ◌-◌, ◌/◌, ◌%◌, ◌^◌, Bool, true, false, List, [], ◌∷◌, ◌++◌, ltb, ◌==◌, if◌then◌else◌,
  length, Bytes, codes, decimal,
}

pub record WorkerMetrics : Type 0 where
  pub current_connections_count : ℕ
  pub total_connect_count : ℕ
  pub total_disconnect_count : ℕ
  pub eventloop_delay_ms : ℕ

pub record ServerMetrics : Type 0 where
  pub server_start_unixtime : ℕ
  pub worker_count : ℕ
  pub publish_count : ℕ
  pub redis_connection_fail_count : ℕ
  pub redis_publish_delay_ms : ℕ

-- `AggregatedMetrics`: the server's, and the sums over the workers.
pub record AggregatedMetrics : Type 0 where
  pub server : ServerMetrics
  pub workers : WorkerMetrics

abbrev pub new_worker_metrics : WorkerMetrics
new_worker_metrics = record {
  current_connections_count = 0;
  total_connect_count = 0;
  total_disconnect_count = 0;
  eventloop_delay_ms = 0;
}

-- The end of `_addConnection`, and that of `_removeConnection`.
unfoldable pub count_connect : WorkerMetrics → WorkerMetrics
count_connect m = record m {
  current_connections_count = (m.current_connections_count + 1) % 2 ^ 64;
  total_connect_count = (m.total_connect_count + 1) % 2 ^ 64;
}

unfoldable pub count_disconnect : WorkerMetrics → WorkerMetrics
count_disconnect m = record m {
  current_connections_count = (m.current_connections_count + (2 ^ 64 - 1)) % 2 ^ 64;
  total_disconnect_count = (m.total_disconnect_count + 1) % 2 ^ 64;
}

-- `METRIC_DELAY_SAMPLE_RATE_MS`
abbrev pub metric_delay_sample_rate_ms : ℕ
metric_delay_sample_rate_ms = 5000

-- The timer of `_workerMain`: how much later than asked for it is called; no delay is below 0.
unfoldable pub sample_delay : ℕ → ℕ → WorkerMetrics → WorkerMetrics
sample_delay epoch sample_start m = record m {
  eventloop_delay_ms = epoch - sample_start - metric_delay_sample_rate_ms;
}

-- One pass of the loop over the workers.
unfoldable pub add_worker_metrics : WorkerMetrics → WorkerMetrics → WorkerMetrics
add_worker_metrics m wrk = record {
  current_connections_count =
      (m.current_connections_count + wrk.current_connections_count) % 2 ^ 64;
  total_connect_count = (m.total_connect_count + wrk.total_connect_count) % 2 ^ 64;
  total_disconnect_count = (m.total_disconnect_count + wrk.total_disconnect_count) % 2 ^ 64;
  eventloop_delay_ms = (m.eventloop_delay_ms + wrk.eventloop_delay_ms) % 2 ^ 64;
}

unfoldable pub sum_metrics : WorkerMetrics → List WorkerMetrics → WorkerMetrics
unfolding add_worker_metrics
sum_metrics m [] = m
sum_metrics m (wrk ∷ wrks) = sum_metrics (add_worker_metrics m wrk) wrks

-- The average of the delays.
unfoldable pub average : ℕ → ℕ → ℕ
average worker_count sum = if ltb 0 worker_count then sum / worker_count else 0

unfoldable pub get_aggregated_metrics : ServerMetrics → List WorkerMetrics → AggregatedMetrics
unfolding sum_metrics average
get_aggregated_metrics server wrks =
    let m = sum_metrics new_worker_metrics wrks in
    record {
      server = server;
      workers = record m { eventloop_delay_ms = average (length wrks) m.eventloop_delay_ms };
    }

-- `<<` of a `long long`, from the 64 bits of the counter.
abbrev signed_decimal : ℕ → Bytes
signed_decimal n = if ltb n (2 ^ 63) then decimal n else codes "-" ++ decimal (2 ^ 64 - n)

-- `metricList`: name, type and value.
unfoldable pub metric_list : AggregatedMetrics → List (Bytes × Bytes × ℕ)
metric_list m =
    (codes "worker_count", codes "gauge", m.server.worker_count)
    ∷ (codes "publish_count", codes "counter", m.server.publish_count)
    ∷ (codes "redis_connection_fail_count", codes "counter", m.server.redis_connection_fail_count)
    ∷ (codes "redis_publish_delay_ms", codes "gauge", m.server.redis_publish_delay_ms)
    ∷ (codes "current_connections_count", codes "gauge", m.workers.current_connections_count)
    ∷ (codes "total_connect_count", codes "counter", m.workers.total_connect_count)
    ∷ (codes "total_disconnect_count", codes "counter", m.workers.total_disconnect_count)
    ∷ (codes "eventloop_delay_ms", codes "gauge", m.workers.eventloop_delay_ms)
    ∷ []

-- The loop of `PrometheusRenderer::RenderMetrics`, with the prefix, the host's name and the port.
unfoldable pub render_metric_list : Bytes → Bytes → ℕ → List (Bytes × Bytes × ℕ) → Bytes
render_metric_list prefix host port [] = []
render_metric_list prefix host port ((name, type, value) ∷ metrics) =
    let metric_name = prefix ++ codes "_" ++ name in
    codes "# TYPE "
    ++ metric_name
    ++ codes " "
    ++ type
    ++ codes "\n"
    ++ metric_name
    ++ codes "{instance=\""
    ++ host
    ++ codes ":"
    ++ decimal port
    ++ codes "\""
    ++ codes "} "
    ++ signed_decimal value
    ++ codes "\n"
    ++ render_metric_list prefix host port metrics

unfoldable pub render_prometheus : Bytes → Bytes → ℕ → AggregatedMetrics → Bytes
unfolding render_metric_list metric_list
render_prometheus prefix host port m = render_metric_list prefix host port (metric_list m)

-- The fields of the object of `JsonRenderer::RenderMetrics`; printing it is the JSON library's.
unfoldable pub json_metrics : AggregatedMetrics → List (Bytes × ℕ)
json_metrics m =
    (codes "worker_count", m.server.worker_count)
    ∷ (codes "publish_count", m.server.publish_count)
    ∷ (codes "redis_connection_fail_count", m.server.redis_connection_fail_count)
    ∷ (codes "redis_publish_delay_ms", m.server.redis_publish_delay_ms)
    ∷ (codes "current_connections_count", m.workers.current_connections_count)
    ∷ (codes "total_connect_count", m.workers.total_connect_count)
    ∷ (codes "total_disconnect_count", m.workers.total_disconnect_count)
    ∷ (codes "eventloop_delay_ms", m.workers.eventloop_delay_ms)
    ∷ []

unfoldable pub render_json : (List (Bytes × ℕ) → Bytes) → AggregatedMetrics → Bytes
unfolding json_metrics
render_json dump m = dump (json_metrics m) ++ codes "\r\n"
