-- ===== src/Subscriptions.antt =====
-- Who is subscribed to what, on one worker: src/Topic.cpp, the subscriber lists of
-- src/TopicManager.cpp and the subscriptions of src/Connection.cpp. A `std::shared_ptr<Topic>` is an
-- address, an iterator into a subscriber list is the number of its node, and the store holds the
-- lists, so that the aliasing of the topic manager's topics and a connection's is kept. A connection
-- is known by a number; a lock makes each operation one step.
pub mod Maps
pub mod Consistency
pub mod Removal
pub mod WellFormed
pub mod Subscribing
pub mod Unsubscribing
pub mod Delivery
pub mod Views
pub mod Spec
pub mod Broadcast
use eventhub.Prelude.{
  ℕ, ◌+◌, Bool, true, false, not, List, [], ◌∷◌, ◌++◌, map, filter, Option, none, some, ◌==◌,
  if◌then◌else◌, length, Bytes, bytes_eq,
}
use eventhub.Topics.{is_filter_matched}
use eventhub.StringMap.{find, erase}

-- An element of a `TopicSubscriberList`.
pub record Subscriber : Type 0 where
  pub node : ℕ
  pub connection : ℕ
  pub request_id : Bytes

-- `TopicSubscription`
pub record TopicSubscription : Type 0 where
  pub topic : ℕ
  pub topic_list_iterator : ℕ
  pub rpc_subscription_request_id : Bytes

-- `topic_list` is the topic manager's map, `subscribed_topics` each connection's, and `next` the
-- first number not yet given to a topic or a node.
pub record World : Type 0 where
  pub store : ℕ → List Subscriber
  pub topic_list : List (Bytes × ℕ)
  pub subscribed_topics : ℕ → List (Bytes × TopicSubscription)
  pub next : ℕ

abbrev pub new_world : World
new_world = record { store = λ a. []; topic_list = []; subscribed_topics = λ c. []; next = 0 }

abbrev pub update : {A : Type 0} → ℕ → A → (ℕ → A) → ℕ → A
update a v f b = if b == a then v else f b

-- `Topic::addSubscriber`
unfoldable pub add_subscriber : ℕ → ℕ → Bytes → World → ℕ × World
add_subscriber topic conn request_id w = (
  w.next,
  record w {
    store =
        update topic
          (record { node = w.next; connection = conn; request_id = request_id } ∷ w.store topic)
          w.store;
    next = w.next + 1;
  },
)

-- `Topic::deleteSubscriberByIterator`
unfoldable pub delete_subscriber_by_iterator : ℕ → ℕ → World → World
delete_subscriber_by_iterator topic it w = record w {
  store = update topic (filter (λ s. not (s.node == it)) (w.store topic)) w.store;
}

unfoldable pub get_subscriber_count : ℕ → World → ℕ
get_subscriber_count topic w = length (w.store topic)

-- The topic of a filter, made where the manager has none.
unfoldable pub get_topic : Bytes → World → ℕ × World
unfolding find
get_topic topic_filter w = elim (find topic_filter w.topic_list) [
  | some topic ↦ (topic, w)
  | none ↦ (
    w.next,
    record w {
      store = update w.next [] w.store;
      topic_list = (topic_filter, w.next) ∷ w.topic_list;
      next = w.next + 1;
    },
  )
]

-- `TopicManager::subscribeConnection`
unfoldable pub subscribe_connection : ℕ → Bytes → Bytes → World → (ℕ × ℕ) × World
unfolding get_topic add_subscriber
subscribe_connection conn topic_filter request_id w =
    let (topic, w') = get_topic topic_filter w in
    let (node, w'') = add_subscriber topic conn request_id w' in ((topic, node), w'')

-- `TopicManager::deleteTopic`
unfoldable pub delete_topic : Bytes → World → World
unfolding find erase
delete_topic topic_filter w = elim (find topic_filter w.topic_list) [
  | none ↦ w
  | some topic ↦ record w { topic_list = erase topic_filter w.topic_list }
]

-- `Connection::subscribe`
unfoldable pub subscribe : ℕ → Bytes → Bytes → World → World
unfolding find subscribe_connection
subscribe conn topic_pattern request_id w = elim (find topic_pattern (w.subscribed_topics conn)) [
  | some subscription ↦ w
  | none ↦
      (let ((topic, node), w') = subscribe_connection conn topic_pattern request_id w in
        record w' {
          subscribed_topics =
              update conn
                ((
                  topic_pattern,
                  record {
                    topic = topic;
                    topic_list_iterator = node;
                    rpc_subscription_request_id = request_id;
                  },
                )
                  ∷ w'.subscribed_topics conn)
                w'.subscribed_topics;
        })
]

-- The end of a subscription in the topic's list, and of the topic if it was the last.
unfoldable pub drop_subscription : Bytes → TopicSubscription → World → World
unfolding delete_subscriber_by_iterator get_subscriber_count delete_topic
drop_subscription topic_pattern subscription w =
    let w' = delete_subscriber_by_iterator subscription.topic subscription.topic_list_iterator w in
    if get_subscriber_count subscription.topic w' == 0 then delete_topic topic_pattern w' else w'

-- `Connection::unsubscribe`
unfoldable pub unsubscribe : ℕ → Bytes → World → Bool × World
unfolding find erase drop_subscription
unsubscribe conn topic_pattern w = elim (find topic_pattern (w.subscribed_topics conn)) [
  | none ↦ (false, w)
  | some subscription ↦
      (let w' = drop_subscription topic_pattern subscription w in
        (
          true,
          record w' {
            subscribed_topics =
                update conn (erase topic_pattern (w'.subscribed_topics conn)) w'.subscribed_topics;
          },
        ))
]

-- The loop of `unsubscribeAll`; `erase` leaves the connection the entries behind the one dropped.
unfoldable pub drop_subscriptions : ℕ → List (Bytes × TopicSubscription) → World → World
unfolding drop_subscription
drop_subscriptions conn [] w = w
drop_subscriptions conn ((topic_pattern, subscription) ∷ subscriptions) w =
    let w' = drop_subscription topic_pattern subscription w in
    drop_subscriptions conn subscriptions
      (record w' { subscribed_topics = update conn subscriptions w'.subscribed_topics })

-- `Connection::unsubscribeAll`
unfoldable pub unsubscribe_all : ℕ → World → ℕ × World
unfolding drop_subscriptions
unsubscribe_all conn w =
    (length (w.subscribed_topics conn), drop_subscriptions conn (w.subscribed_topics conn) w)

-- `Connection::listSubscriptions`
unfoldable pub list_subscriptions : ℕ → World → List Bytes
list_subscriptions conn w = map (λ s. s.0) (w.subscribed_topics conn)

-- `TopicManager::publish`: the subscribers that `Topic::publish` goes through, of every topic whose
-- filter matches.
unfoldable pub publish : Bytes → List (Bytes × ℕ) → (ℕ → List Subscriber) → List Subscriber
publish topic_name [] store = []
publish topic_name ((topic_filter, topic) ∷ topics) store =
    let rest = publish topic_name topics store in
    if is_filter_matched topic_filter topic_name then store topic ++ rest else rest
