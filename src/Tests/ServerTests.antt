-- ===== src/Tests/ServerTests.antt =====
-- Configuration, workers and metrics at inputs.
use eventhub.Prelude.{
  Bytes, ℕ, List, some, bytes_eq, ◌≡◌, refl, true, false, [], ◌∷◌, ◌++◌, none, map, codes, arith,
}
use eventhub.Config.{Options, int_value, string_value, load}
use eventhub.Config.Lines.{setting, parse_line}
use eventhub.Config.Settings.{parse_line-setting}
use eventhub.Config.Loading.{signature, load-signature}
use eventhub.Worker.{accepted, interrupted, accept_connections, arm_timer_fd}
use eventhub.Server.{Server, on_redis_messages}
use eventhub.Server.Relay.{Relays, relayed, on_redis_messages-Relays}
use eventhub.Worker.Balancing.{Among, accept_connections_reach}
use eventhub.Worker.Bookkeeping.{Wakes, arm_timer_fd-Wakes}

parse_line-setting_example :
    parse_line (codes "port" ++ (codes " = " ++ codes "80")) ≡ setting (codes "port") (codes "80")
parse_line-setting_example = parse_line-setting (codes "port") (codes "80") refl refl

abbrev options : Options
options =
    (codes "port", record { is_required = true; value = int_value 0; has_value = false })
    ∷ (codes "host", record { is_required = false; value = string_value []; has_value = false })
    ∷ []

load-signature_example :
    signature (load (codes "port = 80\n") (codes "host = \"h\"\nbad\n") none options).1
    ≡ signature options
load-signature_example =
    load-signature (codes "port = 80\n") (codes "host = \"h\"\nbad\n") none options

-- A quoted value of a line that ends in CR LF keeps its last quote.
carriage_return_test :
    parse_line (codes "host = \"h\"" ++ 13 ∷ []) ≡ setting (codes "host") (codes "h\"")
unfolding parse_line
carriage_return_test = refl

accept_connections_reach_example :
    Among 0 (map (λ g. g.0) (accept_connections 2 1 (accepted 5 ∷ interrupted ∷ accepted 6 ∷ [])).0)
accept_connections_reach_example =
    accept_connections_reach 2 1 0 (accepted 5 ∷ interrupted ∷ accepted 6 ∷ []) (omega arith)
      (omega arith) (omega arith)

arm_timer_fd-Wakes_example : Wakes 1000 1000 (arm_timer_fd 1000 1000)
arm_timer_fd-Wakes_example = arm_timer_fd-Wakes 1000 1000 (omega arith)

-- A server with two workers, a message, and a sample of the delay.
abbrev server : Server
server = record {
  queues = [] ∷ [] ∷ [];
  metrics = record {
    server_start_unixtime = 0;
    worker_count = 2;
    publish_count = 0;
    redis_connection_fail_count = 0;
    redis_publish_delay_ms = 0;
  };
}

abbrev from_redis : List (ℕ × Bytes × Bytes)
from_redis =
    (1000, codes "a/b", codes "x") ∷ (1001, codes "$metrics$/system_unixtime", codes "990") ∷ []

on_redis_messages-Relays_example :
    Relays (relayed from_redis) server (on_redis_messages (λ text. some text) from_redis server)
on_redis_messages-Relays_example = on_redis_messages-Relays (λ text. some text) from_redis server

on_redis_messages_test :
    ((on_redis_messages (λ text. some text) from_redis server).metrics.redis_publish_delay_ms ≡ 11)
    × ((on_redis_messages (λ text. some text) from_redis server).queues
        ≡ ((codes "a/b", codes "x") ∷ []) ∷ ((codes "a/b", codes "x") ∷ []) ∷ [])
unfolding on_redis_messages bytes_eq
on_redis_messages_test = (refl, refl)
