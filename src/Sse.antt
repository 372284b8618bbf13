-- ===== src/Sse.antt =====
-- Server-sent events: src/sse/Response.cpp and src/sse/Handler.cpp. An exception that leaves the
-- handler is none of its result.
pub mod Authorization
use eventhub.Prelude.{
  ℕ, ◌+◌, ◌^◌, ◌%◌, Bool, true, false, not, ◌&&◌, ◌||◌, List, [], ◌∷◌, ◌++◌, Option, none, some,
  ltb, ◌==◌, if◌then◌else◌, is_empty, Bytes, codes, stoull,
}
use eventhub.Topics.{is_valid_topic_filter, is_valid_topic_or_filter}
use eventhub.Util.{uri_decode}
use eventhub.AccessController.{allow_subscribe}
use eventhub.Connection.{ConnectionState, set_state}
use eventhub.Subscriptions.{subscribe}
use eventhub.Redis.{RedisConfig, CacheItem, topic_cache, get_topics_seen, get_cache_since_id}
use eventhub.Redis.Server.{Run}
use eventhub.Http.Parser.{Parser, get_header, get_query_string}
use eventhub.Http.Response.{Response, new_response, set_header, get}
use eventhub.Http.Context.{HttpContext, Session, on_connection, send_text, answer}

-- The text of an event.
unfoldable pub event_text : Bytes → Bytes → Bytes → Bytes
event_text id message event =
    if is_empty event
    then codes "id: " ++ id ++ codes "\ndata: " ++ message ++ codes "\n\n"
    else codes "id: "
      ++ id
      ++ codes "\nevent: "
      ++ event
      ++ codes "\ndata: "
      ++ message
      ++ codes "\n\n"

unfoldable pub last_event_id_of : Parser → Bytes
unfolding get_header get_query_string
last_event_id_of req =
    let given = get_query_string (codes "lastEventId") req in
    if not (is_empty given) then given else get_header (codes "Last-Event-ID") req

-- `path.at(0)` and the slash in front; none is the exception of `at` on an empty path.
unfoldable pub strip_slash : Bytes → Option Bytes
strip_slash [] = none
strip_slash (c ∷ s) = some (if c == b'/' then s else c ∷ s)

module _ {S : Type 0} where
  unfoldable pub ok : HttpContext S → Session S → Session S
  unfolding new_response set_header send_text get
  ok ctx = send_text ctx (
      get (
        set_header (codes "Content-Type") (codes "text/event-stream") (
          set_header (codes "Connection") (codes "close") (
            set_header (codes "Cache-Control") (codes "no-cache") (
              set_header (codes "Access-Control-Allow-Origin") (codes "*") (
                set_header (codes "Access-Control-Allow-Headers")
                  (codes "Accept, Cache-Control, X-Requested-With, Last-Event-ID")
                  (new_response 200 (codes ":ok\n\n"))))))))

  unfoldable pub send_ping : HttpContext S → Session S → Session S
  unfolding send_text
  send_ping ctx = send_text ctx (codes ":\n\n")

  unfoldable pub send_event : HttpContext S → Bytes → Bytes → Bytes → Session S → Session S
  unfolding event_text send_text
  send_event ctx id message event = send_text ctx (event_text id message event)

  unfoldable pub error_response : HttpContext S → Bytes → ℕ → Response
  unfolding new_response
  error_response ctx message status_code =
      new_response status_code (HttpContext.dump_error ctx message ++ codes "\n")

  unfoldable pub error : HttpContext S → Bytes → ℕ → Session S → Session S
  unfolding answer error_response
  error ctx message status_code = answer ctx (error_response ctx message status_code)

  -- The limit of the request, if it is a number below the configuration's, which is the option as it
  -- is converted to `unsigned long long`.
  unfoldable pub limit_of : HttpContext S → Parser → ℕ
  unfolding get_query_string
  limit_of ctx req = elim (stoull (get_query_string (codes "limit") req)) [
    | none ↦ ctx.max_cache_request_limit
    | some limit_param ↦
        if ltb limit_param ctx.max_cache_request_limit
        then limit_param
        else ctx.max_cache_request_limit
  ]

  -- `getCacheSince` with the result that it has built where a command throws.
  unfoldable pub collect_cache : HttpContext S → ℕ → ℕ → List Bytes → S → List CacheItem × S
  unfolding topic_cache
  collect_cache ctx since limit [] s = ([], s)
  collect_cache ctx since limit (topic ∷ topics) s =
      let (o, s') = topic_cache ctx.server ctx.redis_config ctx.now since limit topic s in
      elim o [
        | none ↦ ([], s')
        | some items ↦
            (let (rest, s'') = collect_cache ctx since limit topics s' in (items ++ rest, s''))
      ]

  unfoldable pub collect_cache_since : HttpContext S → Bytes → ℕ → ℕ → S → List CacheItem × S
  unfolding collect_cache get_topics_seen
  collect_cache_since ctx topic since limit s =
      if not (RedisConfig.enable_cache ctx.redis_config)
      then ([], s)
      else if is_valid_topic_filter topic
      then (let (o, s') = get_topics_seen ctx.server ctx.redis_config topic s in
          elim o [ none ↦ ([], s') | some topics ↦ collect_cache ctx since limit topics s' ])
      else collect_cache ctx since limit (topic ∷ []) s

  abbrev items_of : Option (List CacheItem) × S → List CacheItem × S
  items_of (none, s) = ([], s)
  items_of (some items, s) = (items, s)

  -- The cached events that the request asks for.
  unfoldable pub requested_cache : HttpContext S → Parser → Bytes → Bytes → S → List CacheItem × S
  unfolding collect_cache_since limit_of get_query_string get_cache_since_id
  requested_cache ctx req path last_event_id s =
      if not (is_empty last_event_id)
      then items_of (
          get_cache_since_id ctx.server ctx.redis_config ctx.now path last_event_id
            (limit_of ctx req) (is_valid_topic_filter path) s)
      else elim (stoull (get_query_string (codes "since") req)) [
        | none ↦ ([], s)
        | some since ↦ collect_cache_since ctx path since (limit_of ctx req) s
      ]

  unfoldable pub send_events : HttpContext S → List CacheItem → Session S → Session S
  unfolding send_event
  send_events ctx [] s = s
  send_events ctx (item ∷ items) s =
      send_events ctx items (send_event ctx item.id item.message [] s)

  -- The part of the handler behind the checks.
  unfoldable pub start_stream : HttpContext S → Parser → Bytes → Session S → Session S
  unfolding ok set_state subscribe requested_cache send_events last_event_id_of
  start_stream ctx req path s =
      let s' = on_connection (set_state ConnectionState.sse) (ok ctx s) in
      let (items, r) = requested_cache ctx req path (last_event_id_of req) s'.redis_state in
      send_events ctx items
        (record s' { redis_state = r; world = subscribe ctx.connection path (codes "0") s'.world })

  unfoldable pub check_path : HttpContext S → Parser → Bytes → Session S → Session S
  unfolding error start_stream
  check_path ctx req path s =
      if is_empty path || not (is_valid_topic_or_filter path)
      then error ctx (codes "Invalid topic requested.") 404 s
      else if not (allow_subscribe ctx.disable_auth s.access_controller path)
      then error ctx (codes "Insufficient access.") 401 s
      else start_stream ctx req path s

  unfoldable pub handle_request : HttpContext S → Parser → Run (Session S) (Unit {0})
  unfolding strip_slash check_path uri_decode
  handle_request ctx req s = elim (strip_slash (uri_decode req.path)) [
    | none ↦ (none, s)
    | some path ↦ (some tt, check_path ctx req path s)
  ]
