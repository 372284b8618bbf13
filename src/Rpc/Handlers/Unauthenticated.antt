-- ===== src/Rpc/Handlers/Unauthenticated.antt =====
-- What a client without a token can do, after src/RPCHandler.cpp and src/AccessController.cpp.
use eventhub.Prelude.{
  ℕ, ◌≡◌, refl, ap, false, not, List, [], ◌∷◌, Option, none, some, arith, if◌then◌else◌, if_true,
  codes, Bytes, Option-cases, inl, inr,
}
use eventhub.AccessController.{AccessController, allow_publish, allow_subscribe}
use eventhub.Subscriptions.{World, unsubscribe_all}
use eventhub.Redis.Server.{Run}
use eventhub.Rpc.{Request, HandlerContext, RpcState, RpcMethod, or_empty, send_invalid_params_error}
use eventhub.Rpc.Handlers.{
  handle_subscribe, unsubscribe_each, handle_unsubscribe, handle_unsubscribe_all, handle_publish,
  handle_list, handle_eventlog, handle_get, handle_set, handle_delete, handle_ping,
  handle_disconnect, handle,
}

-- The controller has loaded no token, and authentication is enabled.
pub record IsAnonymous {S : Type 0} (ctx : HandlerContext S) : Type 0 where
  pub enabled : ctx.disable_auth ≡ false
  pub no_token : AccessController.token_loaded ctx.access_controller ≡ false

-- Running m leaves the redis server and the subscriptions as they were.
record IsHarmless {S : Type 0} (s : RpcState S) (m : Run (RpcState S) (Unit {0})) : Type 0 where
  redis_kept : (m s).1.redis_state ≡ s.redis_state
  world_kept : (m s).1.world ≡ s.world

module _ {S : Type 0} (ctx : HandlerContext S) (anonymous : IsAnonymous ctx) where
  no_publish : (topic : Bytes) → allow_publish ctx.disable_auth ctx.access_controller topic ≡ false
  unfolding allow_publish
  no_publish topic =
      let e = IsAnonymous.enabled anonymous in
      let n = IsAnonymous.no_token anonymous in ground arith

  no_subscribe :
      (topic : Bytes) → allow_subscribe ctx.disable_auth ctx.access_controller topic ≡ false
  unfolding allow_subscribe
  no_subscribe topic =
      let e = IsAnonymous.enabled anonymous in
      let n = IsAnonymous.no_token anonymous in ground arith

  refused : (s : RpcState S) (message : Bytes) → IsHarmless s (send_invalid_params_error message)
  refused s message = record { redis_kept = refl; world_kept = refl }

  guard_subscribe :
      (s : RpcState S) (topic : Bytes) (x y : Run (RpcState S) (Unit {0}))
      → IsHarmless s x
      → IsHarmless s
          (if not (allow_subscribe ctx.disable_auth ctx.access_controller topic) then x else y)
  guard_subscribe s topic x y h = if_true (IsHarmless s) _ x y (ap not (no_subscribe topic)) h

  guard_publish :
      (s : RpcState S) (topic : Bytes) (x y : Run (RpcState S) (Unit {0}))
      → IsHarmless s x
      → IsHarmless s
          (if not (allow_publish ctx.disable_auth ctx.access_controller topic) then x else y)
  guard_publish s topic x y h = if_true (IsHarmless s) _ x y (ap not (no_publish topic)) h

  subscribe-IsHarmless : (req : Request) (s : RpcState S) → IsHarmless s (handle_subscribe ctx req)
  unfolding handle_subscribe
  subscribe-IsHarmless req s =
      let n = no_subscribe (or_empty (req.text (codes "topic"))) in
      record { redis_kept = ground (arith, n); world_kept = ground (arith, n) }

  publish-IsHarmless : (req : Request) (s : RpcState S) → IsHarmless s (handle_publish ctx req)
  unfolding handle_publish
  publish-IsHarmless req s =
      let n = no_publish (or_empty (req.text (codes "topic"))) in
      record { redis_kept = ground (arith, n); world_kept = ground (arith, n) }

  eventlog-IsHarmless : (req : Request) (s : RpcState S) → IsHarmless s (handle_eventlog ctx req)
  unfolding handle_eventlog
  eventlog-IsHarmless req s =
      let n = no_subscribe (or_empty (req.text (codes "topic"))) in
      record { redis_kept = ground (arith, n); world_kept = ground (arith, n) }

  get-IsHarmless : (req : Request) (s : RpcState S) → IsHarmless s (handle_get ctx req)
  unfolding handle_get
  get-IsHarmless req s = elim (Option-cases (req.text (codes "key"))) [
    | inl e ↦ record { redis_kept = ground (arith, e); world_kept = ground (arith, e) }
    | inr (key, e) ↦
        (let n = no_subscribe key in
          record { redis_kept = ground (arith, e, n); world_kept = ground (arith, e, n) })
  ]

  delete-IsHarmless : (req : Request) (s : RpcState S) → IsHarmless s (handle_delete ctx req)
  unfolding handle_delete
  delete-IsHarmless req s = elim (Option-cases (req.text (codes "key"))) [
    | inl e ↦ record { redis_kept = ground (arith, e); world_kept = ground (arith, e) }
    | inr (key, e) ↦
        (let n = no_publish key in
          record { redis_kept = ground (arith, e, n); world_kept = ground (arith, e, n) })
  ]

  set-IsHarmless : (req : Request) (s : RpcState S) → IsHarmless s (handle_set ctx req)
  unfolding handle_set
  set-IsHarmless req s = elim (Option-cases (req.text (codes "key"))) [
    | inl e ↦ record { redis_kept = ground (arith, e); world_kept = ground (arith, e) }
    | inr (key, e) ↦ elim (Option-cases (req.text (codes "value"))) [
      | inl e' ↦ record { redis_kept = ground (arith, e, e'); world_kept = ground (arith, e, e') }
      | inr (value, e') ↦
          (let n = no_publish key in
            record { redis_kept = ground (arith, e, e', n); world_kept = ground (arith, e, e', n) })
    ]
  ]

  -- No topic of the array is unsubscribed from.
  unsubscribe_each_harmless :
      (topics : List (Option Bytes)) (count : ℕ) (s : RpcState S)
      → (unsubscribe_each ctx topics count s).1 ≡ s
  unfolding unsubscribe_each
  unsubscribe_each_harmless [] count s = refl
  unsubscribe_each_harmless (none ∷ topics) count s = refl
  unsubscribe_each_harmless (some topic ∷ topics) count s =
      ground (arith, no_subscribe topic, unsubscribe_each_harmless topics count s)

  unsubscribe-IsHarmless :
      (req : Request) (s : RpcState S) → IsHarmless s (handle_unsubscribe ctx req)
  unfolding handle_unsubscribe
  unsubscribe-IsHarmless req s = elim (Option-cases req.elements) [
    | inl e ↦ record { redis_kept = ground (arith, e); world_kept = ground (arith, e) }
    | inr (topics, e) ↦
        (let n = unsubscribe_each_harmless topics 0 s in
          elim (Option-cases (unsubscribe_each ctx topics 0 s).0) [
            | inl f ↦ record {
              redis_kept = ground (arith, e, n, f);
              world_kept = ground (arith, e, n, f);
            }
            | inr (c, f) ↦ record {
              redis_kept = ground (arith, e, n, f);
              world_kept = ground (arith, e, n, f);
            }
          ])
  ]

list-IsHarmless :
    {S : Type 0} (ctx : HandlerContext S) (req : Request) (s : RpcState S)
    → IsHarmless s (handle_list ctx req)
unfolding handle_list
list-IsHarmless ctx req s = record { redis_kept = refl; world_kept = refl }

ping-IsHarmless :
    {S : Type 0} (ctx : HandlerContext S) (req : Request) (s : RpcState S)
    → IsHarmless s (handle_ping ctx req)
unfolding handle_ping
ping-IsHarmless ctx req s = record { redis_kept = refl; world_kept = refl }

disconnect-IsHarmless :
    {S : Type 0} (ctx : HandlerContext S) (req : Request) (s : RpcState S)
    → IsHarmless s (handle_disconnect ctx req)
unfolding handle_disconnect
disconnect-IsHarmless ctx req s = record { redis_kept = refl; world_kept = refl }

unsubscribe_all-redis :
    {S : Type 0} (ctx : HandlerContext S) (req : Request) (s : RpcState S)
    → ((handle_unsubscribe_all ctx req s).1.redis_state ≡ s.redis_state)
      × ((handle_unsubscribe_all ctx req s).1.world ≡ (unsubscribe_all ctx.connection s.world).1)
unfolding handle_unsubscribe_all
unsubscribe_all-redis ctx req s = (refl, refl)

-- The subscriptions that a method leaves behind for a client without a token.
abbrev pub world_left : {S : Type 0} → RpcMethod → HandlerContext S → RpcState S → World
world_left RpcMethod.unsubscribe_all_method ctx s = (unsubscribe_all ctx.connection s.world).1
world_left method ctx s = s.world

-- The redis server is as it was, and the subscriptions are as `world_left` says.
abbrev pub LeavesAsItWas :
    {S : Type 0} → RpcMethod → HandlerContext S → Request → RpcState S → Type 0
LeavesAsItWas method ctx req s =
    ((handle method ctx req s).1.redis_state ≡ s.redis_state)
    × ((handle method ctx req s).1.world ≡ world_left method ctx s)

both :
    {S : Type 0} {s : RpcState S} {m : Run (RpcState S) (Unit {0})}
    → IsHarmless s m
    → ((m s).1.redis_state ≡ s.redis_state) × ((m s).1.world ≡ s.world)
both h = (IsHarmless.redis_kept h, IsHarmless.world_kept h)

-- While no token is loaded and authentication is enabled, no method of any request changes the redis
-- server, "unsubscribeall" ends the subscriptions of its own connection, and no other method changes
-- a subscription.
pub anonymous-IsHarmless :
    {S : Type 0} (ctx : HandlerContext S) (method : RpcMethod) (req : Request) (s : RpcState S)
    → IsAnonymous ctx
    → LeavesAsItWas method ctx req s
unfolding handle
anonymous-IsHarmless ctx RpcMethod.subscribe_method req s a =
    both (subscribe-IsHarmless ctx a req s)
anonymous-IsHarmless ctx RpcMethod.unsubscribe_method req s a =
    both (unsubscribe-IsHarmless ctx a req s)
anonymous-IsHarmless ctx RpcMethod.unsubscribe_all_method req s a = unsubscribe_all-redis ctx req s
anonymous-IsHarmless ctx RpcMethod.publish_method req s a = both (publish-IsHarmless ctx a req s)
anonymous-IsHarmless ctx RpcMethod.list_method req s a = both (list-IsHarmless ctx req s)
anonymous-IsHarmless ctx RpcMethod.eventlog_method req s a = both (eventlog-IsHarmless ctx a req s)
anonymous-IsHarmless ctx RpcMethod.get_method req s a = both (get-IsHarmless ctx a req s)
anonymous-IsHarmless ctx RpcMethod.set_method req s a = both (set-IsHarmless ctx a req s)
anonymous-IsHarmless ctx RpcMethod.delete_method req s a = both (delete-IsHarmless ctx a req s)
anonymous-IsHarmless ctx RpcMethod.ping_method req s a = both (ping-IsHarmless ctx req s)
anonymous-IsHarmless ctx RpcMethod.disconnect_method req s a =
    both (disconnect-IsHarmless ctx req s)
