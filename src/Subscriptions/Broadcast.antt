-- ===== src/Subscriptions/Broadcast.antt =====
-- What a publish writes to the connections: `Topic::publish` of src/Topic.cpp, for the topics that
-- `TopicManager::publish` goes through. The JSON library's parts are fields of a record: `parse`,
-- where none is the exception that it throws, `field`, the conversion of a field to a string, and
-- `dump`, the text of a JSON-RPC response with the data as its result. A weak pointer that has
-- expired is none.
pub mod Isolation
pub mod Messages
use eventhub.Prelude.{
  ℕ, ◌==◌, Bool, List, [], ◌∷◌, ◌++◌, Option, none, some, if◌then◌else◌, Bytes, codes,
}
use eventhub.Topics.{is_filter_matched}
use eventhub.Connection.{Connection, ConnectionState, IoResult, write}
use eventhub.WebSocket.Types.{text_frame}
use eventhub.WebSocket.Response.{send_data}
use eventhub.Sse.{event_text}
use eventhub.Subscriptions.{Subscriber, update}

pub record Json (J : Type 0) : Type 0 where
  pub parse : Bytes → Option J
  pub field : J → Bytes → Option Bytes
  pub dump : Bytes → J → Bytes

abbrev pub Connections : Type 0
Connections = ℕ → Option Connection

-- `kernel` is what `::write` returns for a connection, and `junk` as in `send_data`.
module _ {J : Type 0} (json : Json J) (kernel : Connection → Bytes → IoResult) (junk : Bytes) where
  unfoldable pub write_all : List Bytes → Connection → Connection
  unfolding write
  write_all [] c = c
  write_all (text ∷ texts) c = write_all texts (write (kernel c) text c)

  -- What a connection is sent, in its state; none is the exception of a missing field.
  unfoldable pub texts_for : J → Bytes → ConnectionState → Option (List Bytes)
  unfolding send_data event_text
  texts_for data' request_id ConnectionState.websocket =
      some (send_data junk (json.dump request_id data') text_frame)
  texts_for data' request_id ConnectionState.sse = elim (json.field data' (codes "id")) [
    | none ↦ none
    | some id ↦ elim (json.field data' (codes "message")) [
      | none ↦ none
      | some message ↦ some (event_text id message [] ∷ [])
    ]
  ]
  texts_for data' request_id ConnectionState.http = some []

  -- One pass of the loop, for the connection.
  unfoldable pub receive : J → Bytes → Option Connection → Option (Option Connection)
  unfolding write_all texts_for
  receive data' request_id none = some none
  receive data' request_id (some c) =
      if c.is_shutdown then some (some c) else elim (texts_for data' request_id c.state) [
        | none ↦ none
        | some texts ↦ some (some (write_all texts c))
      ]

  -- The loop, which an exception ends.
  unfoldable pub go_through : J → List Subscriber → Connections → Connections
  unfolding receive
  go_through data' [] connections = connections
  go_through data' (s ∷ subscribers) connections =
      elim (receive data' s.request_id (connections s.connection)) [
        | none ↦ connections
        | some c ↦ go_through data' subscribers (update s.connection c connections)
      ]

  unfoldable pub publish_to : Bytes → List Subscriber → Connections → Connections
  unfolding go_through
  publish_to data' subscribers connections = elim (json.parse data') [
    | none ↦ connections
    | some json_data ↦ go_through json_data subscribers connections
  ]

  -- `TopicManager::publish`
  unfoldable pub broadcast :
      Bytes → Bytes → List (Bytes × ℕ) → (ℕ → List Subscriber) → Connections → Connections
  unfolding publish_to
  broadcast topic_name data' [] store connections = connections
  broadcast topic_name data' ((topic_filter, topic) ∷ topics) store connections =
      broadcast topic_name data' topics store (
        if is_filter_matched topic_filter topic_name
        then publish_to data' (store topic) connections
        else connections)
