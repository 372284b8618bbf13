-- ===== src/Rpc/Handlers.antt =====
-- The bodies of the JSON-RPC methods, src/RPCHandler.cpp.
pub mod Unauthenticated
use eventhub.Prelude.{
  ℕ, ◌+◌, Bool, true, false, not, ◌&&◌, ◌||◌, List, [], ◌∷◌, ◌++◌, Option, none, some, ltb, ◌==◌,
  if◌then◌else◌, is_empty, length, Bytes, codes,
}
use eventhub.Topics.{is_valid_topic, is_valid_topic_or_filter}
use eventhub.AccessController.{
  AccessController, RlimitConfig, allow_publish, allow_subscribe, get_rate_limit_for_topic,
}
use eventhub.Subscriptions.{subscribe, unsubscribe, unsubscribe_all, list_subscriptions}
use eventhub.Redis.Server.{Run, pure, throw, try_catch, ◌>>=◌, ◌>>◌}
use eventhub.Redis.{
  RedisConfig, cache_message, publish_message, is_rate_limited, increment_limit_count,
}
use eventhub.KvStore.{get, set, del}
use eventhub.Rpc.{
  RpcResult, Reply, Request, HandlerContext, RpcState, Handler, RpcMethod, or_empty, or_else, send,
  send_invalid_params_error, send_success_response, with_redis, since_of, limit_of, look_up_cache,
  send_cache_to_client, get_handler,
}

-- What the access controller of the connection answers.
abbrev pub may_subscribe : {S : Type 0} → HandlerContext S → Bytes → Bool
may_subscribe ctx topic = allow_subscribe ctx.disable_auth ctx.access_controller topic

abbrev pub may_publish : {S : Type 0} → HandlerContext S → Bytes → Bool
may_publish ctx topic = allow_publish ctx.disable_auth ctx.access_controller topic

-- `sinceEventId` is read behind `topic`, in one try block.
unfoldable pub since_event_id_of : Request → Bytes
since_event_id_of req = elim (req.text (codes "topic")) [
  | none ↦ []
  | some topic ↦ or_empty (req.text (codes "sinceEventId"))
]

module _ {S : Type 0} where
  unfoldable pub handle_subscribe : Handler S
  unfolding send_cache_to_client
  handle_subscribe ctx req =
      let topic_name = or_empty (req.text (codes "topic")) in
      if is_empty topic_name
      then send_invalid_params_error (codes "You must specify 'topic' to subscribe to.")
      else if not (is_valid_topic_or_filter topic_name)
      then send_invalid_params_error (codes "Invalid topic in request: " ++ topic_name)
      else if not (may_subscribe ctx topic_name)
      then send_invalid_params_error
          (codes "You are not allowed to subscribe to topic: " ++ topic_name)
      else do
        (λ s. (
          some tt,
          record s { world = subscribe ctx.connection topic_name req.request_id s.world },
        ))
        send_success_response (RpcResult.subscribed topic_name)
        send_cache_to_client ctx req topic_name

  -- The loop over the array; an element that is no text throws.
  unfoldable pub unsubscribe_each : HandlerContext S → List (Option Bytes) → ℕ → Run (RpcState S) ℕ
  unsubscribe_each ctx [] count s = (some count, s)
  unsubscribe_each ctx (none ∷ topics) count s = (none, s)
  unsubscribe_each ctx (some topic ∷ topics) count s =
      let r = unsubscribe ctx.connection topic s.world in
      let skipped = unsubscribe_each ctx topics count s in
      let done =
        unsubscribe_each ctx topics (if r.0 then count + 1 else count) (record s { world = r.1 }) in
      if not (is_valid_topic_or_filter topic) || not (may_subscribe ctx topic)
      then skipped
      else done

  unfoldable pub handle_unsubscribe : Handler S
  unfolding unsubscribe_each
  handle_unsubscribe ctx req = elim req.elements [
    | none ↦
        send_invalid_params_error (codes "Parameter is not array of topics to unsubscribe from.")
    | some topics ↦ do
      count ← unsubscribe_each ctx topics 0
      send_success_response (RpcResult.unsubscribe_count count)
  ]

  unfoldable pub handle_unsubscribe_all : Handler S
  handle_unsubscribe_all ctx req s =
      let r = unsubscribe_all ctx.connection s.world in
      send_success_response (RpcResult.unsubscribe_count r.0) (record s { world = r.1 })

  -- The message is cached and published, and its id answered.
  unfoldable pub store_and_publish :
      HandlerContext S → Bytes → Bytes → ℕ → ℕ → Run (RpcState S) (Unit {0})
  store_and_publish ctx topic_name message timestamp ttl = do
    let subject = AccessController.subject ctx.access_controller
    id ←
        with_redis (
          cache_message ctx.server ctx.redis_config ctx.now topic_name message subject timestamp
            ttl)
    if length id == 0
        then send_invalid_params_error (codes "Failed to cache message in Redis, discarding.")
        else do
          with_redis
              (publish_message ctx.server ctx.redis_config ctx.dump topic_name id message subject)
          send_success_response (RpcResult.published topic_name id)

  -- The rate limit of the subject, and then `go`.
  unfoldable pub rate_limited :
      HandlerContext S → Bytes → Run (RpcState S) (Unit {0}) → Run (RpcState S) (Unit {0})
  rate_limited ctx topic_name go =
      let subject = AccessController.subject ctx.access_controller in
      let limit =
        get_rate_limit_for_topic (AccessController.limit_configs ctx.access_controller)
          topic_name in
      if is_empty subject then go else elim limit [
        | none ↦ go
        | some l ↦ do
          limited ← with_redis (
              is_rate_limited ctx.server ctx.redis_config (RlimitConfig.topic l) subject
                (RlimitConfig.max l))
          if limited
              then send_success_response (RpcResult.rate_limit_exceeded topic_name)
              else with_redis (
                  increment_limit_count ctx.server ctx.redis_config (RlimitConfig.topic l) subject
                    (RlimitConfig.interval l))
                >> go
      ]

  unfoldable pub handle_publish : Handler S
  unfolding store_and_publish rate_limited
  handle_publish ctx req =
      let topic_name = or_empty (req.text (codes "topic")) in
      let message = or_empty (req.text (codes "message")) in
      if is_empty topic_name || is_empty message
      then send_invalid_params_error (codes "You need to specify topic and message to publish to.")
      else if not (may_publish ctx topic_name)
      then send_invalid_params_error (codes "Insufficient access to topic: " ++ topic_name)
      else if not (is_valid_topic topic_name)
      then send_invalid_params_error (topic_name ++ codes " is not a valid topic.")
      else try_catch
          (rate_limited ctx topic_name (
            store_and_publish ctx topic_name message (or_else 0 (req.number (codes "timestamp")))
              (or_else 0 (req.number (codes "ttl")))))
          (send_invalid_params_error (codes "Error while publishing message: " ++ ctx.what))

  unfoldable pub handle_list : Handler S
  handle_list ctx req s =
      send_success_response (RpcResult.topics (list_subscriptions ctx.connection s.world)) s

  unfoldable pub handle_eventlog : Handler S
  unfolding since_of limit_of look_up_cache since_event_id_of
  handle_eventlog ctx req =
      let topic_name = or_empty (req.text (codes "topic")) in
      let since_event_id = since_event_id_of req in
      if not (RedisConfig.enable_cache ctx.redis_config)
      then send_invalid_params_error (codes "Cache is not enabled in server config")
      else if is_empty since_event_id && since_of ctx req == 0
      then send_invalid_params_error (codes "You must specify either 'since' or 'sinceEventId'.")
      else if is_empty topic_name
      then send_invalid_params_error (codes "You must specify topic.")
      else if not (is_valid_topic_or_filter topic_name)
      then send_invalid_params_error (codes "Invalid topic in request: " ++ topic_name)
      else if not (may_subscribe ctx topic_name)
      then send_invalid_params_error
          (codes "You are not allowed to read from topic: " ++ topic_name)
      else try_catch
          (look_up_cache ctx topic_name since_event_id (since_of ctx req) (limit_of ctx req)
            >>= λ items. send_success_response (RpcResult.eventlog topic_name items))
          (send_invalid_params_error (codes "Error while looking up cache: " ++ ctx.what))

  unfoldable pub handle_get : Handler S
  handle_get ctx req =
      if not ctx.enable_kvstore
      then send_invalid_params_error (codes "KVStore is not enabled.")
      else elim (req.text (codes "key")) [
        | none ↦ send_invalid_params_error ctx.what
        | some key ↦
            if not (may_subscribe ctx key)
            then send_invalid_params_error (codes "You are not allowed to read key " ++ key)
            else try_catch
                (with_redis (get ctx.server (RedisConfig.prefix ctx.redis_config) key) >>= λ value.
                  send_success_response (RpcResult.key_value key value))
                (send_invalid_params_error ctx.what)
      ]

  unfoldable pub handle_set : Handler S
  handle_set ctx req =
      if not ctx.enable_kvstore
      then send_invalid_params_error (codes "KVStore is not enabled.")
      else elim (req.text (codes "key")) [
        | none ↦ send_invalid_params_error ctx.what
        | some key ↦ elim (req.text (codes "value")) [
          | none ↦ send_invalid_params_error ctx.what
          | some value ↦
              if not (may_publish ctx key)
              then send_invalid_params_error (codes "You are not allowed to write key " ++ key)
              else try_catch
                  (with_redis (
                      set ctx.server (RedisConfig.prefix ctx.redis_config) key value
                        (or_else 0 (req.number (codes "ttl"))))
                    >>= λ ret. send_success_response (RpcResult.key_set key ret))
                  (send_invalid_params_error ctx.what)
        ]
      ]

  unfoldable pub handle_delete : Handler S
  handle_delete ctx req =
      if not ctx.enable_kvstore
      then send_invalid_params_error (codes "KVStore is not enabled.")
      else elim (req.text (codes "key")) [
        | none ↦ send_invalid_params_error ctx.what
        | some key ↦
            if not (may_publish ctx key)
            then send_invalid_params_error (codes "You are not allowed to delete key " ++ key)
            else try_catch
                (with_redis (del ctx.server (RedisConfig.prefix ctx.redis_config) key) >>= λ ret.
                  send_success_response (RpcResult.key_deleted key (ltb 0 ret)))
                (send_invalid_params_error ctx.what)
      ]

  unfoldable pub handle_ping : Handler S
  handle_ping ctx req = send_success_response (RpcResult.pong ctx.now)

  unfoldable pub handle_disconnect : Handler S
  handle_disconnect ctx req = do
    send Reply.close_frame
    (λ s. (some tt, record s { is_shutdown = true }))

  unfoldable pub handle : RpcMethod → Handler S
  handle RpcMethod.subscribe_method = handle_subscribe
  handle RpcMethod.unsubscribe_method = handle_unsubscribe
  handle RpcMethod.unsubscribe_all_method = handle_unsubscribe_all
  handle RpcMethod.publish_method = handle_publish
  handle RpcMethod.list_method = handle_list
  handle RpcMethod.eventlog_method = handle_eventlog
  handle RpcMethod.get_method = handle_get
  handle RpcMethod.set_method = handle_set
  handle RpcMethod.delete_method = handle_delete
  handle RpcMethod.ping_method = handle_ping
  handle RpcMethod.disconnect_method = handle_disconnect
