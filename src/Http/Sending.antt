-- ===== src/Http/Sending.antt =====
-- What writing to a client leaves alone, for the handlers of src/http/Handler.cpp and
-- src/sse/Handler.cpp.
use eventhub.Prelude.{◌≡◌, refl, ◌∙◌, true, ◌||◌, List, [], ◌∷◌, some, Bytes, arith}
use eventhub.Connection.{
  Connection, IoResult, write, shutdown, shutdown_after_flush, flush_send_buffer, after_write,
  close_if_flushed, disable_epoll_out, enable_epoll_out, prune_write_buffer,
}
use eventhub.Redis.{CacheItem}
use eventhub.Http.Response.{Response, get}
use eventhub.Http.Context.{
  HttpContext, Session, IsSettled, closing, IsUntouched, send_text, answer, on_connection,
}
use eventhub.Sse as Sse

-- Writing leaves the state of a connection alone.
pub write_state :
    (kernel : Bytes → IoResult) (text : Bytes) (c : Connection)
    → (write kernel text c).state ≡ c.state
unfolding write flush_send_buffer after_write close_if_flushed disable_epoll_out enable_epoll_out
    prune_write_buffer shutdown
write_state kernel text c = ground arith

shutdown_after_flush_state : (c : Connection) → (shutdown_after_flush c).state ≡ c.state
unfolding shutdown_after_flush shutdown
shutdown_after_flush_state c = ground arith

shutdown_state : (c : Connection) → (shutdown c).state ≡ c.state
unfolding shutdown
shutdown_state c = ground arith

module _ {S : Type 0} (ctx : HttpContext S) where
  pub shutdown-IsSettled : (s : Session S) → IsSettled (on_connection shutdown s)
  unfolding shutdown
  shutdown-IsSettled s = closing (ground arith)

  pub answer-IsSettled : (resp : Response) (s : Session S) → IsSettled (answer ctx resp s)
  unfolding answer shutdown_after_flush shutdown
  answer-IsSettled resp s = closing (closed (send_text ctx (get resp) s).connection)
    where
      closed :
          (c : Connection)
          → ((shutdown_after_flush c).is_shutdown
              || (shutdown_after_flush c).is_shutdown_after_flush)
            ≡ true
      closed c = ground arith

  pub send_text_state :
      (text : Bytes) (s : Session S) → (send_text ctx text s).connection.state ≡ s.connection.state
  unfolding send_text
  send_text_state text s = write_state (ctx.kernel s.writes) text s.connection

  pub send_events_state :
      (items : List CacheItem) (s : Session S)
      → (Sse.send_events ctx items s).connection.state ≡ s.connection.state
  unfolding Sse.send_events Sse.send_event
  send_events_state [] s = refl
  send_events_state (item ∷ items) s =
      send_events_state items (send_text ctx (Sse.event_text item.id item.message []) s)
      ∙ send_text_state (Sse.event_text item.id item.message []) s

  pub send_events_world :
      (items : List CacheItem) (s : Session S) → (Sse.send_events ctx items s).world ≡ s.world
  unfolding Sse.send_events Sse.send_event send_text
  send_events_world [] s = refl
  send_events_world (item ∷ items) s =
      send_events_world items (send_text ctx (Sse.event_text item.id item.message []) s)

  pub answer-IsUntouched :
      (resp : Response) (s : Session S) → IsUntouched s (some tt, answer ctx resp s)
  unfolding answer send_text
  answer-IsUntouched resp s = record {
    returned = refl;
    state =
        shutdown_after_flush_state (send_text ctx (get resp) s).connection
        ∙ send_text_state (get resp) s;
    world = refl;
    redis_state = refl;
  }

  pub shutdown-IsUntouched : (s : Session S) → IsUntouched s (some tt, on_connection shutdown s)
  shutdown-IsUntouched s = record {
    returned = refl;
    state = shutdown_state s.connection;
    world = refl;
    redis_state = refl;
  }
