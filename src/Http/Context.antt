-- ===== src/Http/Context.antt =====
-- What the handlers of src/http/Handler.cpp and src/sse/Handler.cpp work on: include/HandlerContext.hpp
-- with the connection. The libraries' parts are fields: `decode` reads a token, `sha1_base64` is the
-- digest of OpenSSL in its base64 form, `dump_error` the JSON object with a field "error", and
-- `dump_metrics` the printing of an object. `kernel` is what each call of `::write` returns, by its
-- number.
use eventhub.Prelude.{ℕ, ◌+◌, ◌≡◌, ◌≢◌, Bool, true, ◌||◌, List, Option, some, Bytes}
use eventhub.AccessController.{AccessController, Payload}
use eventhub.Connection.{Connection, ConnectionState, IoResult, write, shutdown_after_flush}
use eventhub.Subscriptions.{World}
use eventhub.Redis.{RedisConfig}
use eventhub.Redis.Server.{RedisServer}
use eventhub.Metrics.{AggregatedMetrics}
use eventhub.Http.Response.{Response, get}

pub record HttpContext (S : Type 0) : Type 0 where
  pub server : RedisServer S
  pub redis_config : RedisConfig
  pub disable_auth : Bool
  pub enable_sse : Bool
  pub max_cache_request_limit : ℕ
  pub jwt_secret : Bytes
  pub prometheus_metric_prefix : Bytes
  pub listen_port : ℕ
  pub hostname : Bytes
  pub metrics : AggregatedMetrics
  pub connection : ℕ
  pub now : ℕ
  pub kernel : ℕ → Bytes → IoResult
  pub decode : Bytes → Bytes → Option Payload
  pub sha1_base64 : Bytes → Bytes
  pub dump_error : Bytes → Bytes
  pub dump_metrics : List (Bytes × ℕ) → Bytes

-- The connection with its access controller, the subscriptions of its worker and the redis server;
-- `writes` counts the calls of `write`.
pub record Session (S : Type 0) : Type 0 where
  pub connection : Connection
  pub access_controller : AccessController
  pub world : World
  pub redis_state : S
  pub writes : ℕ

module _ {S : Type 0} where
  abbrev pub on_connection : (Connection → Connection) → Session S → Session S
  on_connection f s = record s { connection = f s.connection }

  unfoldable pub send_text : HttpContext S → Bytes → Session S → Session S
  unfolding write
  send_text ctx text s = record s {
    connection = write (ctx.kernel s.writes) text s.connection;
    writes = s.writes + 1;
  }

  -- A response after which the connection is closed.
  unfoldable pub answer : HttpContext S → Response → Session S → Session S
  unfolding send_text shutdown_after_flush get
  answer ctx resp s = on_connection shutdown_after_flush (send_text ctx (get resp) s)

-- A request is over: the connection is closed, or will be when what waits is sent, or it has become
-- a websocket or an event stream.
pub data IsSettled {S : Type 0} (s : Session S) : Type 0 where
  closing : (s.connection.is_shutdown || s.connection.is_shutdown_after_flush) ≡ true → IsSettled s
  upgraded : s.connection.state ≢ ConnectionState.http → IsSettled s

-- Nothing but the connection's buffers, flags and access controller has changed.
pub record IsUntouched {S : Type 0} (s : Session S) (r : Option (Unit {0}) × Session S)
    : Type 0 where
  pub returned : r.0 ≡ some tt
  pub state : r.1.connection.state ≡ s.connection.state
  pub world : r.1.world ≡ s.world
  pub redis_state : r.1.redis_state ≡ s.redis_state
