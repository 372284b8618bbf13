-- ===== src/Rpc.antt =====
-- The handlers of the JSON-RPC methods, src/RPCHandler.cpp: what each reads, does to the server and
-- the subscriptions, and answers. Parsing a request and printing an answer are the JSON libraries':
-- a request's parameters are looked up by functions, where none is the exception that they throw, and
-- an answer is kept as data.
pub mod Handlers
pub mod Dispatch
use eventhub.Prelude.{
  ℕ, ◌+◌, ◌^◌, ◌%◌, Bool, true, false, not, ◌&&◌, ◌||◌, List, [], ◌∷◌, ◌++◌, Option, none, some,
  ltb, leb, ◌==◌, if◌then◌else◌, is_empty, Bytes, bytes_eq, codes, str_to_lower,
}
use eventhub.Topics.{is_valid_topic, is_valid_topic_filter, is_valid_topic_or_filter}
use eventhub.AccessController.{
  AccessController, RlimitConfig, allow_publish, allow_subscribe, get_rate_limit_for_topic,
}
use eventhub.Subscriptions.{World, subscribe, unsubscribe, unsubscribe_all, list_subscriptions}
use eventhub.Redis.Server.{Run, RedisServer, pure, throw, try_catch, ◌>>=◌, ◌>>◌}
use eventhub.Redis.{
  RedisConfig, CacheItem, cache_message, publish_message, get_cache_since, get_cache_since_id,
  is_rate_limited, increment_limit_count,
}

-- The results that the handlers build, by the fields of their JSON objects.
pub data RpcResult : Type 0 where
  subscribed : Bytes → RpcResult
  unsubscribe_count : ℕ → RpcResult
  published : Bytes → Bytes → RpcResult
  rate_limit_exceeded : Bytes → RpcResult
  topics : List Bytes → RpcResult
  event : CacheItem → RpcResult
  eventlog : Bytes → List CacheItem → RpcResult
  key_value : Bytes → Bytes → RpcResult
  key_set : Bytes → Bool → RpcResult
  key_deleted : Bytes → Bool → RpcResult
  pong : ℕ → RpcResult

-- What is sent to the client.
pub data Reply : Type 0 where
  invalid_params : Bytes → Reply
  success : RpcResult → Reply
  close_frame invalid_request method_not_found : Reply
  pong_frame : Bytes → Reply

-- `params.get(name).get<T>()` for a text and for a number of 64 bits; `elements` is the array of
-- `unsubscribe`, if the parameters are one, and an element that is no text is none.
pub record Request : Type 0 where
  pub request_id : Bytes
  pub text : Bytes → Option Bytes
  pub number : Bytes → Option ℕ
  pub elements : Option (List (Option Bytes))

-- The context of a call. `now` is the clock, `what` the text of the exception that a library throws
-- and `dump` the printing of a message.
pub record HandlerContext (S : Type 0) : Type 0 where
  pub server : RedisServer S
  pub redis_config : RedisConfig
  pub disable_auth : Bool
  pub enable_kvstore : Bool
  pub max_cache_request_limit : ℕ
  pub connection : ℕ
  pub access_controller : AccessController
  pub now : ℕ
  pub what : Bytes
  pub dump : Bytes → Bytes → Bytes → Bytes → Bytes

pub record RpcState (S : Type 0) : Type 0 where
  pub world : World
  pub redis_state : S
  pub sent : List Reply
  pub is_shutdown : Bool

abbrev pub or_empty : Option Bytes → Bytes
or_empty none = []
or_empty (some s) = s

abbrev pub or_else : ℕ → Option ℕ → ℕ
or_else n none = n
or_else n (some m) = m

abbrev pub is_some : {A : Type 0} → Option A → Bool
is_some none = false
is_some (some a) = true

abbrev pub Handler : Type 0 → Type 0
Handler S = HandlerContext S → Request → Run (RpcState S) (Unit {0})

-- `RPCHandler::getHandler`, by the handler's name; none is `std::bad_function_call`.
pub data RpcMethod : Type 0 where
  subscribe_method unsubscribe_method unsubscribe_all_method publish_method list_method
        eventlog_method get_method set_method delete_method ping_method disconnect_method :
      RpcMethod

abbrev pub handlers : List (Bytes × RpcMethod)
handlers =
    (codes "subscribe", RpcMethod.subscribe_method)
    ∷ (codes "unsubscribe", RpcMethod.unsubscribe_method)
    ∷ (codes "unsubscribeall", RpcMethod.unsubscribe_all_method)
    ∷ (codes "publish", RpcMethod.publish_method)
    ∷ (codes "list", RpcMethod.list_method)
    ∷ (codes "eventlog", RpcMethod.eventlog_method)
    ∷ (codes "get", RpcMethod.get_method)
    ∷ (codes "set", RpcMethod.set_method)
    ∷ (codes "del", RpcMethod.delete_method)
    ∷ (codes "ping", RpcMethod.ping_method)
    ∷ (codes "disconnect", RpcMethod.disconnect_method)
    ∷ []

unfoldable pub find_handler : Bytes → List (Bytes × RpcMethod) → Option RpcMethod
find_handler name [] = none
find_handler name ((key, method) ∷ rest) =
    let found = find_handler name rest in if bytes_eq name key then some method else found

unfoldable pub get_handler : Bytes → Option RpcMethod
unfolding str_to_lower find_handler
get_handler method_name = find_handler (str_to_lower method_name) handlers

module _ {S : Type 0} where
  -- `_sendSuccessResponse` and the like. The printing of a reply is not modelled: where the JSON
  -- library throws because a text is not UTF-8, the source's callers catch it.
  abbrev pub send : Reply → Run (RpcState S) (Unit {0})
  send reply s = (some tt, record s { sent = s.sent ++ reply ∷ [] })

  abbrev pub send_invalid_params_error : Bytes → Run (RpcState S) (Unit {0})
  send_invalid_params_error message = send (invalid_params message)

  abbrev pub send_success_response : RpcResult → Run (RpcState S) (Unit {0})
  send_success_response result = send (success result)

  abbrev pub send_events : List CacheItem → Run (RpcState S) (Unit {0})
  send_events [] = pure tt
  send_events (item ∷ items) = send_success_response (event item) >> send_events items

  -- A command of the redis server, within the state of a handler.
  abbrev pub with_redis : {A : Type 0} → Run S A → Run (RpcState S) A
  with_redis m s = let r = m s.redis_state in (r.0, record s { redis_state = r.1 })

  -- A negative number of milliseconds, on its 64 bits, is taken from the clock.
  unfoldable pub calculate_relative_since : HandlerContext S → ℕ → ℕ
  calculate_relative_since ctx since =
      if ltb since (2 ^ 63) then since else (ctx.now + since) % 2 ^ 64

  unfoldable pub since_of : HandlerContext S → Request → ℕ
  unfolding calculate_relative_since
  since_of ctx req = elim (req.number (codes "since")) [
    | none ↦ 0
    | some n ↦ calculate_relative_since ctx n
  ]

  -- The option and the number of the request, each as it is converted to `unsigned long long`.
  unfoldable pub limit_of : HandlerContext S → Request → ℕ
  limit_of ctx req =
      let limit = or_else ctx.max_cache_request_limit (req.number (codes "limit")) in
      if ltb ctx.max_cache_request_limit limit then ctx.max_cache_request_limit else limit

  -- The cached events that both `_sendCacheToClient` and `_handleEventlog` ask for.
  unfoldable pub look_up_cache :
      HandlerContext S → Bytes → Bytes → ℕ → ℕ → Run (RpcState S) (List CacheItem)
  look_up_cache ctx topic since_event_id since limit =
      if not (is_empty since_event_id)
      then with_redis (
          get_cache_since_id ctx.server ctx.redis_config ctx.now topic since_event_id limit
            (is_valid_topic_filter topic))
      else with_redis (
          get_cache_since ctx.server ctx.redis_config ctx.now topic since limit
            (is_valid_topic_filter topic))

  unfoldable pub send_cache_to_client :
      HandlerContext S → Request → Bytes → Run (RpcState S) (Unit {0})
  unfolding since_of limit_of look_up_cache
  send_cache_to_client ctx req topic =
      let since_event_id = or_empty (req.text (codes "sinceEventId")) in
      if not (RedisConfig.enable_cache ctx.redis_config)
      then pure tt
      else if is_empty since_event_id && since_of ctx req == 0
      then pure tt
      else try_catch
          (look_up_cache ctx topic since_event_id (since_of ctx req) (limit_of ctx req)
            >>= send_events)
          (pure tt)
