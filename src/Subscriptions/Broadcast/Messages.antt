-- ===== src/Subscriptions/Broadcast/Messages.antt =====
-- What a publish of a well-formed message writes to a connection.
use eventhub.Prelude.{
  ℕ, ◌≡◌, refl, sym, ap, ◌∙◌, ◌==◌, Bool, true, false, inl, inr, List, [], ◌∷◌, ◌++◌, Option, none,
  some, if◌then◌else◌, if_true, if_false, Bytes, codes, arith,
}
use eventhub.Topics.{is_filter_matched}
use eventhub.Connection.{Connection, ConnectionState, IoResult, write}
use eventhub.WebSocket.Frames.{text_message, send_data-text_message}
use eventhub.Sse.{event_text}
use eventhub.Subscriptions.{Subscriber, update, publish}
use eventhub.Subscriptions.Maps.{update_self, update_other, nat-cases}
use eventhub.Subscriptions.Broadcast.{
  Json, Connections, write_all, texts_for, receive, go_through, publish_to, broadcast,
}

module _ {J : Type 0} (json : Json J) (kernel : Connection → Bytes → IoResult) (junk : Bytes)
    (j : J) (id message : Bytes) where
  -- The message for a subscription, in the form that the client reads: a text message of the websocket
  -- protocol, or an event of an event stream.
  abbrev pub message_for : Bytes → ConnectionState → List Bytes
  message_for request_id ConnectionState.websocket = text_message junk (Json.dump json request_id j)
  message_for request_id ConnectionState.sse =
      (codes "id: " ++ id ++ codes "\ndata: " ++ message ++ codes "\n\n") ∷ []
  message_for request_id ConnectionState.http = []

  -- Every text is written, in order.
  abbrev pub after_writes : List Bytes → Connection → Connection
  after_writes [] c = c
  after_writes (text ∷ texts) c = after_writes texts (write (kernel c) text c)

  write_all-after_writes :
      (texts : List Bytes) (c : Connection)
      → write_all json kernel junk texts c ≡ after_writes texts c
  unfolding write_all
  write_all-after_writes [] c = refl
  write_all-after_writes (text ∷ texts) c = write_all-after_writes texts (write (kernel c) text c)

  -- The connection behind the message for one of its subscriptions, if it is still open.
  abbrev pub with_message : Bytes → Option Connection → Option Connection
  with_message request_id none = none
  with_message request_id (some c) =
      if c.is_shutdown then some c else some (after_writes (message_for request_id c.state) c)

  -- The messages for those of the subscriptions that are the connection's, in order.
  abbrev pub with_messages : ℕ → List Subscriber → Option Connection → Option Connection
  with_messages d [] c = c
  with_messages d (s ∷ subscribers) c =
      with_messages d subscribers (if d == s.connection then with_message s.request_id c else c)

  with_messages-append :
      (d : ℕ) (xs ys : List Subscriber) (c : Option Connection)
      → with_messages d (xs ++ ys) c ≡ with_messages d ys (with_messages d xs c)
  with_messages-append d [] ys c = refl
  with_messages-append d (s ∷ xs) ys c =
      with_messages-append d xs ys (if d == s.connection then with_message s.request_id c else c)

  module _ (has_id : Json.field json j (codes "id") ≡ some id)
      (has_message : Json.field json j (codes "message") ≡ some message) where
    texts_for-message_for :
        (request_id : Bytes) (state : ConnectionState)
        → texts_for json kernel junk j request_id state ≡ some (message_for request_id state)
    unfolding texts_for event_text
    texts_for-message_for request_id ConnectionState.websocket =
        ap some (send_data-text_message junk (Json.dump json request_id j))
    texts_for-message_for request_id ConnectionState.http = refl
    texts_for-message_for request_id ConnectionState.sse = rw (has_id, has_message, texts_for) refl

    receive-with_message :
        (request_id : Bytes) (c : Option Connection)
        → receive json kernel junk j request_id c ≡ some (with_message request_id c)
    unfolding receive
    receive-with_message request_id none = refl
    receive-with_message request_id (some c) = go c.is_shutdown
      where
        go :
            (b : Bool)
            → (if b
                then some (some c)
                else elim (texts_for json kernel junk j request_id c.state)
                    as (λ _. Option (Option Connection)) [
                      | none ↦ none
                      | some texts ↦ some (some (write_all json kernel junk texts c))
                    ])
              ≡ some (if b then some c else some (after_writes (message_for request_id c.state) c))
        go true = refl
        go false =
            ap
              (λ z. elim z as (λ _. Option (Option Connection)) [
                | none ↦ none
                | some texts ↦ some (some (write_all json kernel junk texts c))
              ])
              (texts_for-message_for request_id c.state)
            ∙ ap (λ z. some (some z)) (write_all-after_writes (message_for request_id c.state) c)

    go_through-with_messages :
        (d : ℕ) (subscribers : List Subscriber) (connections : Connections)
        → go_through json kernel junk j subscribers connections d
          ≡ with_messages d subscribers (connections d)
    unfolding go_through
    go_through-with_messages d [] connections = refl
    go_through-with_messages d (s ∷ subscribers) connections =
        ap
          (λ z.
            elim z as (λ _. Connections) [
              | none ↦ connections
              | some c ↦
                  go_through json kernel junk j subscribers (update s.connection c connections)
            ]
              d)
          (receive-with_message s.request_id (connections s.connection))
        ∙ go_through-with_messages d subscribers
            (update s.connection (with_message s.request_id (connections s.connection)) connections)
        ∙ ap (with_messages d subscribers) (elim (nat-cases d s.connection) [
          | inl e ↦
              ap
                (update s.connection (with_message s.request_id (connections s.connection))
                  connections)
                e
              ∙ update_self s.connection (with_message s.request_id (connections s.connection))
                  connections
              ∙ ap (λ z. with_message s.request_id (connections z)) (sym e)
              ∙ sym (
                  if_true (λ z. z ≡ with_message s.request_id (connections d)) (d == s.connection) _
                    _ (ground (arith, e)) refl)
          | inr e ↦
              update_other s.connection d (with_message s.request_id (connections s.connection))
                connections e
              ∙ sym (if_false (λ z. z ≡ connections d) (d == s.connection) _ _ e refl)
        ])

    -- If the data is a message with an id and a text, a publish leaves each connection as it is
    -- behind the messages for its own subscriptions with a matching filter, in their order: a
    -- response with the id of the request in the frames of a websocket message, an event with the id
    -- and the text on an event stream, nothing to a connection that is neither or is shut down.
    pub broadcast-with_messages :
        (t data' : Bytes) (d : ℕ) (topics : List (Bytes × ℕ)) (store : ℕ → List Subscriber)
        (connections : Connections)
        → Json.parse json data' ≡ some j
        → broadcast json kernel junk t data' topics store connections d
          ≡ with_messages d (publish t topics store) (connections d)
    unfolding broadcast publish publish_to
    broadcast-with_messages t data' d [] store connections p = refl
    broadcast-with_messages t data' d ((f, a) ∷ topics) store connections p =
        broadcast-with_messages t data' d topics store _ p ∙ go (is_filter_matched f t)
      where
        whole :
            publish_to json kernel junk data' (store a) connections
            ≡ go_through json kernel junk j (store a) connections
        whole =
            ap
              (λ z. elim z as (λ _. Connections) [
                | none ↦ connections
                | some k ↦ go_through json kernel junk k (store a) connections
              ])
              p

        go :
            (b : Bool)
            → with_messages d (publish t topics store) (
                (if b then publish_to json kernel junk data' (store a) connections else connections)
                  d)
              ≡ with_messages d
                  (if b then store a ++ publish t topics store else publish t topics store)
                  (connections d)
        go true =
            ap (λ (z : Connections). with_messages d (publish t topics store) (z d)) whole
            ∙ ap (with_messages d (publish t topics store))
                (go_through-with_messages d (store a) connections)
            ∙ sym (with_messages-append d (store a) (publish t topics store) (connections d))
        go false = refl
