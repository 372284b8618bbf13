-- ===== src/Rpc/Dispatch.antt =====
-- The websocket requests of a client, src/websocket/Handler.cpp. The JSON-RPC library's parser is a
-- parameter.
use eventhub.Prelude.{◌≡◌, refl, true, Option, none, some, Bytes}
use eventhub.WebSocket.Types.{
  FrameType, continuation_frame, text_frame, binary_frame, close_frame, ping_frame, pong_frame,
  unnamed, ParserStatus, parser_ok, max_data_frame_size_exceeded, max_control_frame_size_exceeded,
}
use eventhub.Redis.Server.{Run, pure, rescue, try_catch, ◌>>◌}
use eventhub.Rpc.{Reply, Request, HandlerContext, RpcState, RpcMethod, send, get_handler}
use eventhub.Rpc.Handlers.{handle}

-- What the parser makes of a text: an exception, an entity that is no request (or none at all), or
-- a request with its method's name.
pub data Entity : Type 0 where
  unparsed no_request : Entity
  request : Bytes → Request → Entity

module _ {S : Type 0} where
  abbrev pub shut : Run (RpcState S) (Unit {0})
  shut s = (some tt, record s { is_shutdown = true })

  -- A request is handled; an unknown method, and what a handler throws, are answered alike.
  unfoldable pub handle_entity : HandlerContext S → Entity → Run (RpcState S) (Unit {0})
  handle_entity ctx Entity.unparsed = send Reply.invalid_request
  handle_entity ctx Entity.no_request = send Reply.invalid_request
  handle_entity ctx (Entity.request name req) = elim (get_handler name) [
    | none ↦ send Reply.method_not_found
    | some method ↦ try_catch (handle method ctx req) (send Reply.method_not_found)
  ]

  unfoldable pub handle_text_frame :
      HandlerContext S → (Bytes → Entity) → Bytes → Run (RpcState S) (Unit {0})
  unfolding handle_entity
  handle_text_frame ctx parser data' = handle_entity ctx (parser data')

  unfoldable pub handle_frame :
      HandlerContext S → (Bytes → Entity) → FrameType → Bytes → Run (RpcState S) (Unit {0})
  unfolding handle_text_frame
  handle_frame ctx parser text_frame data' = handle_text_frame ctx parser data'
  handle_frame ctx parser binary_frame data' = pure tt
  handle_frame ctx parser ping_frame data' = send (Reply.pong_frame data')
  handle_frame ctx parser pong_frame data' = pure tt
  handle_frame ctx parser close_frame data' = shut
  handle_frame ctx parser continuation_frame data' = pure tt
  handle_frame ctx parser (unnamed n) data' = pure tt

  unfoldable pub handle_request :
      HandlerContext S
      → (Bytes → Entity)
      → ParserStatus
      → FrameType
      → Bytes
      → Run (RpcState S) (Unit {0})
  unfolding handle_frame
  handle_request ctx parser parser_ok frame_type data' = handle_frame ctx parser frame_type data'
  handle_request ctx parser max_data_frame_size_exceeded frame_type data' =
      send Reply.close_frame >> shut
  handle_request ctx parser max_control_frame_size_exceeded frame_type data' =
      send Reply.close_frame >> shut

-- The pair is a result and not an exception.
abbrev pub Returns : {S : Type 0} → Option (Unit {0}) × RpcState S → Type 0
Returns r = r.0 ≡ some tt

rescue-Returns :
    {S : Type 0} (reply : Reply) (r : Option (Unit {0}) × RpcState S)
    → Returns (rescue (send reply) r)
rescue-Returns reply (none, s) = refl
rescue-Returns reply (some tt, s) = refl

handle_entity-Returns :
    {S : Type 0} (ctx : HandlerContext S) (entity : Entity) (s : RpcState S)
    → Returns (handle_entity ctx entity s)
unfolding handle_entity
handle_entity-Returns ctx Entity.unparsed s = refl
handle_entity-Returns ctx Entity.no_request s = refl
handle_entity-Returns ctx (Entity.request name req) s = go (get_handler name)
  where
    go :
        (o : Option RpcMethod)
        → Returns (
            (elim o as (λ x. Run (RpcState _) (Unit {0})) [
              | none ↦ send Reply.method_not_found
              | some method ↦ try_catch (handle method ctx req) (send Reply.method_not_found)
            ])
              s)
    go none = refl
    go (some method) = rescue-Returns Reply.method_not_found (handle method ctx req s)

handle_frame-Returns :
    {S : Type 0} (ctx : HandlerContext S) (parser : Bytes → Entity) (t : FrameType) (data' : Bytes)
    (s : RpcState S)
    → Returns (handle_frame ctx parser t data' s)
unfolding handle_frame
handle_frame-Returns ctx parser text_frame data' s = handle_entity-Returns ctx (parser data') s
handle_frame-Returns ctx parser binary_frame data' s = refl
handle_frame-Returns ctx parser ping_frame data' s = refl
handle_frame-Returns ctx parser pong_frame data' s = refl
handle_frame-Returns ctx parser close_frame data' s = refl
handle_frame-Returns ctx parser continuation_frame data' s = refl
handle_frame-Returns ctx parser (unnamed n) data' s = refl

-- Whatever a client sends, and whatever the redis server and the libraries throw, no exception
-- leaves the handling of its request.
pub handle_request-Returns :
    {S : Type 0} (ctx : HandlerContext S) (parser : Bytes → Entity) (status : ParserStatus)
    (frame_type : FrameType) (data' : Bytes) (s : RpcState S)
    → Returns (handle_request ctx parser status frame_type data' s)
unfolding handle_request
handle_request-Returns ctx parser parser_ok frame_type data' s =
    handle_frame-Returns ctx parser frame_type data' s
handle_request-Returns ctx parser max_data_frame_size_exceeded frame_type data' s = refl
handle_request-Returns ctx parser max_control_frame_size_exceeded frame_type data' s = refl
