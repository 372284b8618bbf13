-- ===== src/Subscriptions/Subscribing.antt =====
-- Subscribing keeps the world well-formed, after `subscribe` of src/Connection.cpp.
use eventhub.Prelude.{
  ℕ, ◌+◌, ◌≡◌, refl, sym, ap, ◌∙◌, subst, false, inl, inr, List, [], ◌∷◌, Option, none, some,
  some-eq, Bytes, bytes_eq, is_empty, arith,
}
use eventhub.Subscriptions.{
  TopicSubscription, World, update, get_topic, subscribe_connection, add_subscriber, subscribe,
}
use eventhub.StringMap.{find}
use eventhub.Subscriptions.Maps.{
  bytes-cases, nat-cases, update_self, update_other, find_head, find_tail, HasDistinctKeys,
}
use eventhub.Subscriptions.Consistency.{
  IsConsistent, entry, make_topic-IsConsistent, enter-IsConsistent,
}
use eventhub.Subscriptions.WellFormed.{
  topic_of, subscription_of, IsWorldConsistent, IsWellFormed, replaced_self, replaced_other,
  replaced-HasDistinctKeys,
}

-- What `get_topic` gives: the topic of the filter, which may still be empty.
record IsReady (f : Bytes) (w : World) (r : ℕ × World) : Type 0 where
  consistent : IsWorldConsistent r.1
  topics_once : HasDistinctKeys r.1.topic_list
  found : topic_of r.1 f ≡ some r.0
  same : r.1.subscribed_topics ≡ w.subscribed_topics
  busy :
      (g : Bytes) (a : ℕ)
      → bytes_eq f g ≡ false
      → topic_of r.1 g ≡ some a
      → is_empty (r.1.store a) ≡ false

get_topic-IsReady : (f : Bytes) (w : World) → IsWellFormed w → IsReady f w (get_topic f w)
unfolding get_topic
get_topic-IsReady f w v = go (topic_of w f) refl
  where
    go :
        (o : Option ℕ)
        → topic_of w f ≡ o
        → IsReady f w (elim o [
          | some topic ↦ (topic, w)
          | none ↦ (
            w.next,
            record w {
              store = update w.next [] w.store;
              topic_list = (f, w.next) ∷ w.topic_list;
              next = w.next + 1;
            },
          )
        ])
    go (some topic) e = record {
      consistent = IsWellFormed.consistent v;
      topics_once = IsWellFormed.topics_once v;
      found = e;
      same = refl;
      busy = λ g a k. IsWellFormed.busy v g a;
    }
    go none e = record {
      consistent =
          make_topic-IsConsistent (topic_of w) (λ g. find g ((f, w.next) ∷ w.topic_list))
            (subscription_of w) w.store w.next f e (find_head f w.next w.topic_list)
            (λ g k. find_tail f g w.next w.topic_list k) (IsWellFormed.consistent v);
      topics_once = (e, IsWellFormed.topics_once v);
      found = find_head f w.next w.topic_list;
      same = refl;
      busy = λ g a k h.
          (let old = sym (find_tail f g w.next w.topic_list k) ∙ h in
            let lt = IsConsistent.made (IsWellFormed.consistent v) g a old in
            ap is_empty (update_other w.next a [] w.store (ground arith))
            ∙ IsWellFormed.busy v g a old);
    }

abbrev pub new_entry : Bytes → Bytes → ℕ × World → TopicSubscription
new_entry f id (topic, w) = record {
  topic = topic;
  topic_list_iterator = w.next;
  rpc_subscription_request_id = id;
}

abbrev pub new_map : ℕ → Bytes → Bytes → ℕ × World → List (Bytes × TopicSubscription)
new_map conn f id r = (f, new_entry f id r) ∷ r.1.subscribed_topics conn

-- The world behind `get_topic` and `add_subscriber`, with the connection's new entry.
abbrev pub entered : ℕ → Bytes → Bytes → ℕ × World → World
entered conn f id (topic, w) = record w {
  store =
      update topic (record { node = w.next; connection = conn; request_id = id } ∷ w.store topic)
        w.store;
  next = w.next + 1;
  subscribed_topics =
      update conn
        ((
          f,
          record { topic = topic; topic_list_iterator = w.next; rpc_subscription_request_id = id },
        )
          ∷ w.subscribed_topics conn)
        w.subscribed_topics;
}

entered-IsWellFormed :
    (conn : ℕ) (f id : Bytes) (w : World) (r : ℕ × World)
    → IsWellFormed w
    → find f (w.subscribed_topics conn) ≡ none
    → IsReady f w r
    → IsWellFormed (entered conn f id r)
entered-IsWellFormed conn f id w r v n p = record {
  consistent =
      enter-IsConsistent (topic_of r.1) (subscription_of r.1)
        (subscription_of (entered conn f id r)) r.1.store r.1.next conn f (new_entry f id r)
        (IsReady.found p) refl absent
        (replaced_self r.1.subscribed_topics conn (new_map conn f id r) f
          ∙ find_head f (new_entry f id r) (r.1.subscribed_topics conn))
        (replaced_other r.1.subscribed_topics conn (new_map conn f id r) f
          (λ g k. find_tail f g (new_entry f id r) (r.1.subscribed_topics conn) k))
        (IsReady.consistent p);
  topics_once = IsReady.topics_once p;
  subscriptions_once =
      replaced-HasDistinctKeys r.1.subscribed_topics conn (new_map conn f id r) (absent, maps conn)
        maps;
  busy = λ g a h. (elim (nat-cases a r.0) [
    | inl e ↦ ap is_empty (
        ap ((entered conn f id r).store) e
        ∙ update_self r.0 (entry conn (new_entry f id r) ∷ r.1.store r.0) r.1.store)
    | inr k ↦
        ap is_empty (update_other r.0 a (entry conn (new_entry f id r) ∷ r.1.store r.0) r.1.store k)
        ∙ (elim (bytes-cases f g) [
          | inl e ↦ absurd (
              let same : a ≡ r.0 = some-eq (sym h ∙ ap (topic_of r.1) (sym e) ∙ IsReady.found p) in
              ground arith)
          | inr e ↦ IsReady.busy p g a e h
        ])
  ]);
}
  where
    absent : find f (r.1.subscribed_topics conn) ≡ none
    absent = ap (λ z. find f (z conn)) (IsReady.same p) ∙ n

    maps : (d : ℕ) → HasDistinctKeys (r.1.subscribed_topics d)
    maps d =
        subst (λ z. HasDistinctKeys (z d)) (sym (IsReady.same p))
          (IsWellFormed.subscriptions_once v d)

-- `Connection::subscribe` keeps the world well-formed.
pub subscribe-IsWellFormed :
    (conn : ℕ) (topic_pattern request_id : Bytes) (w : World)
    → IsWellFormed w
    → IsWellFormed (subscribe conn topic_pattern request_id w)
unfolding subscribe subscribe_connection add_subscriber
subscribe-IsWellFormed conn f id w v = go (find f (w.subscribed_topics conn)) refl
  where
    go :
        (o : Option TopicSubscription)
        → find f (w.subscribed_topics conn) ≡ o
        → IsWellFormed (elim o [ some subscription ↦ w | none ↦ entered conn f id (get_topic f w) ])
    go (some subscription) e = v
    go none e = entered-IsWellFormed conn f id w (get_topic f w) v e (get_topic-IsReady f w v)
