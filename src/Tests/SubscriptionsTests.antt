-- ===== src/Tests/SubscriptionsTests.antt =====
-- Subscriptions at inputs.
use eventhub.Prelude.{
  false, ◌==◌, if◌then◌else◌, List, some, ◌++◌, arith, Bytes, ◌≡◌, bytes_eq, refl, codes, ◌∷◌, [],
  length, true,
}
use eventhub.Subscriptions.{
  World, new_world, subscribe, unsubscribe, unsubscribe_all, list_subscriptions, publish,
}
use eventhub.Subscriptions.Spec.{
  Command, subscribing, unsubscribing_all, enact, enact_all, run_all, view, Keeps, publish-Keeps,
}
use eventhub.StringMap.{find}
use eventhub.Connection.{Connection, ConnectionState, IoResult}
use eventhub.Subscriptions.Broadcast.{Json, Connections, broadcast}
use eventhub.Subscriptions.Broadcast.Isolation.{broadcast-isolation}
use eventhub.Subscriptions.Broadcast.Messages.{with_messages, broadcast-with_messages}

abbrev one : World
one = subscribe 7 (codes "a/#") (codes "1") new_world

abbrev two : World
two = subscribe 8 (codes "a/b") (codes "2") one

-- Two subscribe, and one of them goes.
abbrev commands : List Command
commands =
    subscribing 7 (codes "a/#") (codes "1")
    ∷ subscribing 9 (codes "a/b") (codes "2")
    ∷ unsubscribing_all 9
    ∷ []

publish-Keeps_example : Keeps (enact_all commands (view new_world)) (codes "a/b") (
    publish
      (codes "a/b")
      (World.topic_list (run_all commands new_world))
      (World.store (run_all commands new_world)))
publish-Keeps_example = publish-Keeps commands (codes "a/b")

-- Data that is its own id and text.
abbrev plain_json : Json Bytes
plain_json = record {
  parse = λ text. some text;
  field = λ j name. some j;
  dump = λ request_id j. request_id ++ j;
}

abbrev all_taken : Connection → Bytes → IoResult
all_taken c bytes = record { count = length bytes; again = false }

-- Connections 7 and 8 are websockets, and 9 an event stream.
abbrev clients : Connections
clients d = some (record {
  write_buffer = [];
  is_shutdown = false;
  is_shutdown_after_flush = false;
  epoll_out = false;
  has_epoll = true;
  state = if d == 9 then ConnectionState.sse else ConnectionState.websocket;
  has_http_parser = false;
  sent = [];
  closed = 0;
})

broadcast-isolation_example :
    broadcast plain_json all_taken []
      (codes "a/b")
      (codes "x")
      (World.topic_list (run_all commands new_world))
      (World.store (run_all commands new_world))
      clients
      9
    ≡ clients 9
unfolding enact enact_all find
broadcast-isolation_example =
    broadcast-isolation plain_json all_taken [] commands (codes "a/b") (codes "x") 9 clients
      (λ f id e. absurd (ground arith))

broadcast-with_messages_example :
    broadcast plain_json all_taken []
      (codes "a/b")
      (codes "x")
      (World.topic_list two)
      (World.store two)
      clients
      8
    ≡ with_messages plain_json all_taken []
        (codes "x")
        (codes "x")
        (codes "x")
        8
        (publish (codes "a/b") (World.topic_list two) (World.store two))
        (clients 8)
broadcast-with_messages_example =
    broadcast-with_messages plain_json all_taken [] (codes "x") (codes "x") (codes "x") refl refl
      (codes "a/b") (codes "x") 8 (World.topic_list two) (World.store two) clients refl

-- The last subscriber takes the topic with it.
unsubscribe_test :
    ((unsubscribe 7 (codes "a/#") one).0 ≡ true)
    × (World.topic_list (unsubscribe 7 (codes "a/#") one).1 ≡ [])
    × ((unsubscribe_all 8 two).0 ≡ 1)
    × (length (World.topic_list (unsubscribe_all 8 two).1) ≡ 1)
    × (list_subscriptions 8 two ≡ codes "a/b" ∷ [])
unfolding subscribe unsubscribe unsubscribe_all list_subscriptions bytes_eq
unsubscribe_test = (refl, refl, refl, refl, refl)
