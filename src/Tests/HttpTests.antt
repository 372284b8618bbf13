-- ===== src/Tests/HttpTests.antt =====
-- The HTTP side and event streams at inputs.
use eventhub.Prelude.{
  ◌≡◌, ℕ, ◌==◌, refl, Bool, true, false, List, [], ◌∷◌, ◌++◌, none, if◌then◌else◌, length, Bytes,
  bytes_eq, codes, arith,
}
use eventhub.Connection.{ConnectionState}
use eventhub.AccessController.{new_access_controller, authenticate}
use eventhub.Subscriptions.{new_world}
use eventhub.Subscriptions.Spec.{view, enact, subscribing}
use eventhub.Metrics.{new_worker_metrics}
use eventhub.Util.{uri_decode}
use eventhub.Util.UriDecoding.{Encodes, uri_decode_iff}
use eventhub.Http.Parser.{
  Parser, PhrResult, parsed, incomplete, RequestState, reset_state, parse, set_path, get_header,
  get_query_string,
}
use eventhub.Http.Parser.Bounds.{IsBounded, reset_state-IsBounded, parse-IsBounded}
use eventhub.Http.Parser.Chunks.{shown, parse-append}
use eventhub.Http.Parser.QueryString.{query_string}
use eventhub.Http.Parser.Parameters.{last_value, get_query_string-set_path}
use eventhub.Http.Context.{HttpContext, Session, IsUntouched}
use eventhub.Http.Handler.{handle_request}
use eventhub.Http.Handler.Authentication.{refused-IsUntouched}
use eventhub.Http.Handler.Settling.{IsDone, handle_request-IsDone}
use eventhub.Http.Handler.Upgrade.{asks_for_websocket}
use eventhub.Sse as Sse
use eventhub.Sse.Authorization.{is_granted, handle_request-view}
use eventhub.Tests.RpcTests.{counter}

-- A library for which a request is any four bytes.
abbrev four : Bytes → ℕ → PhrResult
four buf last_len = elim (length buf == 4) [
  | true ↦ parsed (codes "GET") (codes "/a?x=1") []
  | false ↦ incomplete
]

parse-IsBounded_example : IsBounded (parse four (codes "ab") reset_state).1
parse-IsBounded_example = parse-IsBounded four (codes "ab") reset_state reset_state-IsBounded

parse-append_example :
    shown (parse four (codes "cd") (parse four (codes "ab") reset_state).1)
    ≡ shown (parse four (codes "abcd") reset_state)
parse-append_example =
    parse-append four (λ front back n method path headers e k. k) reset_state (codes "ab")
      (codes "cd") (codes "GET") (codes "/a?x=1") [] refl refl (omega arith) refl refl

abbrev two_parameters : List (Bytes × Bytes)
two_parameters = (codes "a", codes "1") ∷ (codes "B", codes "2") ∷ []

get_query_string-set_path_example :
    ((set_path (codes "/a" ++ b'?' ∷ query_string two_parameters) reset_state).path ≡ codes "/a")
    × (get_query_string
          (codes "b")
          (set_path (codes "/a" ++ b'?' ∷ query_string two_parameters) reset_state)
        ≡ last_value (codes "b") two_parameters (get_query_string (codes "b") reset_state))
get_query_string-set_path_example =
    get_query_string-set_path (codes "/a") (codes "b") two_parameters reset_state refl
      (refl, (refl, (refl, (refl, tt))))

uri_decode_iff_example :
    ((t : Bytes) → Encodes (codes "a%40") t → uri_decode (codes "a%40") ≡ t)
    × (((t : Bytes) → ¬ Encodes (codes "a%40") t) → uri_decode (codes "a%40") ≡ [])
uri_decode_iff_example = uri_decode_iff (codes "a%40")

-- An escape is decoded, also at the end; a broken one gives nothing.
uri_decode_test :
    (uri_decode (codes "/a%2fB%40") ≡ codes "/a/B@")
    × (uri_decode (codes "/%") ≡ [])
    × (uri_decode (codes "a b") ≡ [])
unfolding uri_decode
uri_decode_test = (refl, refl, refl)

-- A context without a token that is accepted.
abbrev context : Bool → HttpContext ℕ
context disable_auth = record {
  server = counter;
  redis_config = record { prefix = []; enable_cache = true; default_cache_ttl = 60 };
  disable_auth = disable_auth;
  enable_sse = true;
  max_cache_request_limit = 100;
  jwt_secret = codes "secret";
  prometheus_metric_prefix = codes "eventhub";
  listen_port = 8080;
  hostname = codes "host";
  metrics = record {
    server = record {
      server_start_unixtime = 0;
      worker_count = 1;
      publish_count = 0;
      redis_connection_fail_count = 0;
      redis_publish_delay_ms = 0;
    };
    workers = new_worker_metrics;
  };
  connection = 1;
  now = 1000;
  kernel = λ n bytes. record { count = length bytes; again = false };
  decode = λ token secret. none;
  sha1_base64 = λ text. text;
  dump_error = λ message. message;
  dump_metrics = λ fields. [];
}

abbrev session : Session ℕ
session = record {
  connection = record {
    write_buffer = [];
    is_shutdown = false;
    is_shutdown_after_flush = false;
    epoll_out = false;
    has_epoll = true;
    state = ConnectionState.http;
    has_http_parser = true;
    sent = [];
    closed = 0;
  };
  access_controller = new_access_controller;
  world = new_world;
  redis_state = 0;
  writes = 0;
}

-- A request for a websocket, with a token, and one for an event stream.
abbrev upgrade_request : Parser
upgrade_request = record reset_state {
  method = codes "GET";
  path = codes "/";
  headers =
      (codes "authorization", codes "token")
      ∷ (codes "sec-websocket-key", codes "key")
      ∷ (codes "upgrade", codes "websocket")
      ∷ [];
}

abbrev stream_request : Bytes → Parser
stream_request path = record reset_state {
  method = codes "GET";
  path = path;
  headers = (codes "accept", codes "text/event-stream") ∷ [];
}

refused-IsUntouched_example :
    IsUntouched session (handle_request (context false) upgrade_request RequestState.req_ok session)
unfolding authenticate
refused-IsUntouched_example =
    refused-IsUntouched (context false) upgrade_request session RequestState.req_ok
      (λ token e. refl)

handle_request-IsDone_example :
    IsDone
      (context true)
      upgrade_request
      (handle_request (context true) upgrade_request RequestState.req_ok session)
handle_request-IsDone_example =
    handle_request-IsDone (context true) upgrade_request RequestState.req_ok session
      (λ e. absurd cc)

handle_request-view_example :
    view
      (Session.world (Sse.handle_request (context true) (stream_request (codes "/a/b")) session).1)
    ≡ (if is_granted (context true) session (codes "a/b")
        then enact (subscribing 1 (codes "a/b") (codes "0")) (view new_world)
        else view new_world)
unfolding Sse.strip_slash uri_decode
handle_request-view_example =
    handle_request-view (context true) (stream_request (codes "/a/b")) (codes "a/b") session refl

-- The exception for a path that decodes to nothing.
empty_path_test : (Sse.handle_request (context true) (stream_request (codes "/%")) session).0 ≡ none
unfolding Sse.handle_request uri_decode
empty_path_test = refl

-- The request asks for a websocket.
asks_test : asks_for_websocket (context true) upgrade_request ≡ true
unfolding bytes_eq get_header
asks_test = refl
