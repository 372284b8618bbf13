-- ===== src/Server.antt =====
-- How the server of src/Server.cpp passes on the messages of redis: the callback of `start`, and
-- `publish` with `Worker::publish` of src/ConnectionWorker.cpp, which hand a message to the queue of
-- every worker. A queue holds the topic and the data of each job; reading the text of a message is
-- the JSON library's.
pub mod Relay
use eventhub.Prelude.{
  ℕ, ◌+◌, ◌-◌, ◌^◌, ◌%◌, List, [], ◌∷◌, ◌++◌, map, Option, none, some, ltb, ◌==◌, if◌then◌else◌,
  Bytes, bytes_eq, codes, stol,
}
use eventhub.Metrics.{ServerMetrics}

pub record Server : Type 0 where
  pub queues : List (List (Bytes × Bytes))
  pub metrics : ServerMetrics

-- The number of workers that `start` makes.
unfoldable pub num_worker_threads : ℕ → ℕ → ℕ
num_worker_threads hardware_concurrency worker_threads =
    if worker_threads == 0 then hardware_concurrency else worker_threads

-- `Server::publish`
unfoldable pub publish_to_workers :
    Bytes → Bytes → List (List (Bytes × Bytes)) → List (List (Bytes × Bytes))
publish_to_workers topic_name data' queues = map (λ q. q ++ (topic_name, data') ∷ []) queues

abbrev pub system_unixtime : Bytes
system_unixtime = codes "$metrics$/system_unixtime"

-- The time since `ts`, on 64 bits with a sign; no delay is below 0.
unfoldable pub publish_delay : ℕ → ℕ → ℕ
publish_delay now ts = if ltb ts (2 ^ 63) then now - ts else (now + (2 ^ 64 - ts)) % 2 ^ 64

-- The callback `cb`. `message_of` is the field "message" of the parsed text, none where that throws.
unfoldable pub on_redis_message : (Bytes → Option Bytes) → ℕ → Bytes → Bytes → Server → Server
unfolding publish_to_workers publish_delay stol
on_redis_message message_of now topic msg s =
    if bytes_eq topic system_unixtime
    then elim (message_of msg) [
      | none ↦ s
      | some text ↦ elim (stol text) [
        | none ↦ s
        | some ts ↦ record s {
          metrics = record (Server.metrics s) { redis_publish_delay_ms = publish_delay now ts };
        }
      ]
    ]
    else record s {
      queues = publish_to_workers topic msg s.queues;
      metrics = record (Server.metrics s) {
        publish_count = (ServerMetrics.publish_count (Server.metrics s) + 1) % 2 ^ 64;
      };
    }

-- The messages of redis, each with the clock at its arrival.
unfoldable pub on_redis_messages :
    (Bytes → Option Bytes) → List (ℕ × Bytes × Bytes) → Server → Server
unfolding on_redis_message
on_redis_messages message_of [] s = s
on_redis_messages message_of ((now, topic, msg) ∷ messages) s =
    on_redis_messages message_of messages (on_redis_message message_of now topic msg s)
