-- ===== src/Subscriptions/Unsubscribing.antt =====
-- Unsubscribing keeps the world well-formed, after `unsubscribe` and `unsubscribeAll` of
-- src/Connection.cpp.
use eventhub.Prelude.{
  ℕ, ◌≡◌, refl, sym, ap, ◌∙◌, subst, Bool, true, false, inl, inr, List, [], ◌∷◌, Option, none, some,
  ◌==◌, filter, if◌then◌else◌, Bool-cases, Bytes, bytes_eq, bytes_eq_refl, is_empty, length, arith,
}
use eventhub.Subscriptions.{
  Subscriber, TopicSubscription, World, update, drop_subscription, delete_topic, unsubscribe,
  drop_subscriptions, unsubscribe_all,
}
use eventhub.StringMap.{find, erase}
use eventhub.Subscriptions.Maps.{
  bytes-cases, nat-cases, update_self, update_other, find_head, find_tail, HasDistinctKeys,
  find-erase_self, find-erase_other, erase-HasDistinctKeys,
}
use eventhub.Subscriptions.Consistency.{IsConsistent, none-some}
use eventhub.Subscriptions.Removal.{
  is_other, without_node, leave-IsConsistent, drop_topic-IsConsistent,
}
use eventhub.Subscriptions.WellFormed.{
  topic_of, subscription_of, IsWellFormed, replaced_self, replaced_other, replaced-HasDistinctKeys,
}

-- The world with the subscription's element taken from its list.
abbrev left : TopicSubscription → World → World
left sub w = record w { store = without_node w.store sub.topic sub.topic_list_iterator }

drop_subscription_busy :
    (f : Bytes) (sub : TopicSubscription) (w : World)
    → is_empty ((left sub w).store sub.topic) ≡ false
    → drop_subscription f sub w ≡ left sub w
unfolding drop_subscription
drop_subscription_busy f sub w h = go ((left sub w).store sub.topic) h
  where
    go :
        (xs : List Subscriber)
        → is_empty xs ≡ false
        → (if length xs == 0 then delete_topic f (left sub w) else left sub w) ≡ left sub w
    go [] e = absurd (ground arith)
    go (x ∷ xs) e = ground arith

drop_subscription_last :
    (f : Bytes) (sub : TopicSubscription) (w : World) {a : ℕ}
    → is_empty ((left sub w).store sub.topic) ≡ true
    → topic_of w f ≡ some a
    → drop_subscription f sub w ≡ record (left sub w) { topic_list = erase f w.topic_list }
unfolding drop_subscription delete_topic
drop_subscription_last f sub w {a} h t = go ((left sub w).store sub.topic) (topic_of w f) h t
  where
    go :
        (xs : List Subscriber) (o : Option ℕ)
        → is_empty xs ≡ true
        → o ≡ some a
        → (if length xs == 0
            then elim o [
              | none ↦ left sub w
              | some topic ↦ record (left sub w) { topic_list = erase f w.topic_list }
            ]
            else left sub w)
          ≡ record (left sub w) { topic_list = erase f w.topic_list }
    go [] (some b) e k = refl
    go [] none e k = none-some refl k
    go (x ∷ xs) o e k = absurd (ground arith)

-- The connections' maps are left alone.
pub drop_subscription_keeps :
    (f : Bytes) (sub : TopicSubscription) (w : World)
    → (drop_subscription f sub w).subscribed_topics ≡ w.subscribed_topics
unfolding drop_subscription delete_topic
drop_subscription_keeps f sub w = go (length ((left sub w).store sub.topic) == 0) (topic_of w f)
  where
    go :
        (b : Bool) (o : Option ℕ)
        → World.subscribed_topics (
            if b
            then elim o [
              | none ↦ left sub w
              | some topic ↦ record (left sub w) { topic_list = erase f w.topic_list }
            ]
            else left sub w)
          ≡ w.subscribed_topics
    go true none = refl
    go true (some a) = refl
    go false o = refl

is_empty-eq : {A : Type 0} (xs : List A) → is_empty xs ≡ true → xs ≡ []
is_empty-eq [] h = refl
is_empty-eq (x ∷ xs) h = absurd (ground arith)

-- The world behind the end of a subscription, with the connection's map replaced.
abbrev dropped : ℕ → Bytes → TopicSubscription → List (Bytes × TopicSubscription) → World → World
dropped c f sub m w =
    let w' = drop_subscription f sub w in
    record w' { subscribed_topics = update c m w'.subscribed_topics }

dropped-IsWellFormed :
    (c : ℕ) (f : Bytes) (sub : TopicSubscription) (m : List (Bytes × TopicSubscription)) (w : World)
    → IsWellFormed w
    → find f (w.subscribed_topics c) ≡ some sub
    → find f m ≡ none
    → ((g : Bytes) → bytes_eq f g ≡ false → find g m ≡ find g (w.subscribed_topics c))
    → HasDistinctKeys m
    → IsWellFormed (dropped c f sub m w)
dropped-IsWellFormed c f sub m w v at gone rest keys =
    elim (Bool-cases (is_empty ((left sub w).store sub.topic))) [
      | inr e ↦
          subst
            (λ z.
              IsWellFormed
                (record z { subscribed_topics = update c m (World.subscribed_topics z) }))
            (sym (drop_subscription_busy f sub w e))
            (record {
              consistent = consistent';
              topics_once = IsWellFormed.topics_once v;
              subscriptions_once = keys';
              busy = λ g a h. (elim (nat-cases a sub.topic) [
                | inl k ↦ ap (λ z. is_empty ((left sub w).store z)) k ∙ e
                | inr k ↦ other g a k h
              ]);
            })
      | inl e ↦
          subst
            (λ z.
              IsWellFormed
                (record z { subscribed_topics = update c m (World.subscribed_topics z) }))
            (sym (drop_subscription_last f sub w e linked))
            (record {
              consistent =
                  drop_topic-IsConsistent (topic_of w) (λ g. find g (erase f w.topic_list))
                    (λ d g. find g (update c m w.subscribed_topics d)) (left sub w).store w.next f
                    sub.topic linked (is_empty-eq ((left sub w).store sub.topic) e)
                    (find-erase_self f w.topic_list) (λ g k. find-erase_other f g w.topic_list k)
                    consistent';
              topics_once = erase-HasDistinctKeys f w.topic_list (IsWellFormed.topics_once v);
              subscriptions_once = keys';
              busy = λ g a h. (elim (bytes-cases f g) [
                | inl k ↦
                    none-some (find-erase_self f w.topic_list)
                      (ap (λ z. find z (erase f w.topic_list)) k ∙ h)
                | inr k ↦
                    (let t = sym (find-erase_other f g w.topic_list k) ∙ h in
                      elim (nat-cases a sub.topic) [
                        | inr k' ↦ other g a k' t
                        | inl k' ↦ absurd (
                            let fg =
                              IsConsistent.apart (IsWellFormed.consistent v) f g sub.topic linked
                                (t ∙ ap some k') in
                            let b : bytes_eq f g ≡ true =
                              ap (bytes_eq f) (sym fg) ∙ bytes_eq_refl f in
                            ground arith)
                      ])
              ]);
            })
    ]
  where
    linked : topic_of w f ≡ some sub.topic
    linked = (IsConsistent.linked (IsWellFormed.consistent v) c f sub at).0

    consistent' :
        IsConsistent
          (topic_of w)
          (λ d g. find g (update c m w.subscribed_topics d))
          (left sub w).store
          w.next
    consistent' =
        leave-IsConsistent (topic_of w) (subscription_of w)
          (λ d g. find g (update c m w.subscribed_topics d)) w.store w.next c f sub at
          (replaced_self w.subscribed_topics c m f ∙ gone)
          (replaced_other w.subscribed_topics c m f rest) (IsWellFormed.consistent v)

    keys' : (d : ℕ) → HasDistinctKeys (update c m w.subscribed_topics d)
    keys' =
        replaced-HasDistinctKeys w.subscribed_topics c m keys (IsWellFormed.subscriptions_once v)

    other :
        (g : Bytes) (a : ℕ)
        → (a == sub.topic) ≡ false
        → topic_of w g ≡ some a
        → is_empty ((left sub w).store a) ≡ false
    other g a k h =
        ap is_empty (
          update_other sub.topic a (filter (is_other sub.topic_list_iterator) (w.store sub.topic))
            w.store k)
        ∙ IsWellFormed.busy v g a h

-- `Connection::unsubscribe` keeps the world well-formed.
pub unsubscribe-IsWellFormed :
    (conn : ℕ) (topic_pattern : Bytes) (w : World)
    → IsWellFormed w
    → IsWellFormed (unsubscribe conn topic_pattern w).1
unfolding unsubscribe
unsubscribe-IsWellFormed conn f w v = go (find f (w.subscribed_topics conn)) refl
  where
    go :
        (o : Option TopicSubscription)
        → find f (w.subscribed_topics conn) ≡ o
        → IsWellFormed
            (elim o as (λ _. Bool × World) [
              | none ↦ (false, w)
              | some sub ↦
                  (let w' = drop_subscription f sub w in
                    (
                      true,
                      record w' {
                        subscribed_topics =
                            update conn (erase f (w'.subscribed_topics conn)) w'.subscribed_topics;
                      },
                    ))
            ]).1
    go none e = v
    go (some sub) e =
        subst
          (λ z. IsWellFormed (record (drop_subscription f sub w) {
            subscribed_topics =
                update conn (erase f (z conn)) (drop_subscription f sub w).subscribed_topics;
          }))
          (sym (drop_subscription_keeps f sub w))
          (dropped-IsWellFormed conn f sub (erase f (w.subscribed_topics conn)) w v e
            (find-erase_self f (w.subscribed_topics conn))
            (λ g k. find-erase_other f g (w.subscribed_topics conn) k)
            (erase-HasDistinctKeys f (w.subscribed_topics conn)
              (IsWellFormed.subscriptions_once v conn)))

drop_subscriptions-IsWellFormed :
    (conn : ℕ) (subs : List (Bytes × TopicSubscription)) (w : World)
    → w.subscribed_topics conn ≡ subs
    → IsWellFormed w
    → IsWellFormed (drop_subscriptions conn subs w)
unfolding drop_subscriptions
drop_subscriptions-IsWellFormed conn [] w e v = v
drop_subscriptions-IsWellFormed conn ((f, sub) ∷ subs) w e v =
    let keys = subst HasDistinctKeys e (IsWellFormed.subscriptions_once v conn) in
    drop_subscriptions-IsWellFormed conn subs (dropped conn f sub subs w)
      (update_self conn subs (drop_subscription f sub w).subscribed_topics)
      (dropped-IsWellFormed conn f sub subs w v (ap (find f) e ∙ find_head f sub subs) keys.0
        (λ g k. sym (find_tail f g sub subs k) ∙ ap (find g) (sym e)) keys.1)

-- `Connection::unsubscribeAll` keeps the world well-formed.
pub unsubscribe_all-IsWellFormed :
    (conn : ℕ) (w : World) → IsWellFormed w → IsWellFormed (unsubscribe_all conn w).1
unfolding unsubscribe_all
unsubscribe_all-IsWellFormed conn w v =
    drop_subscriptions-IsWellFormed conn (w.subscribed_topics conn) w refl v
