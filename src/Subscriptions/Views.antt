-- ===== src/Subscriptions/Views.antt =====
-- What the operations of src/Connection.cpp do to the answers of the connections' maps.
use eventhub.Prelude.{
  ℕ, ◌+◌, ◌≡◌, refl, sym, ap, ◌∙◌, subst, Bool, true, false, ◌&&◌, inl, inr, List, [], ◌∷◌, Option,
  none, some, if◌then◌else◌, if_false, ◌==◌, Bytes, bytes_eq, bytes_eq_refl, arith,
}
use eventhub.Subscriptions.{
  TopicSubscription, World, update, get_topic, subscribe_connection, add_subscriber, subscribe,
  drop_subscription, unsubscribe, drop_subscriptions, unsubscribe_all,
}
use eventhub.StringMap.{find, erase}
use eventhub.Subscriptions.Maps.{
  bytes-cases, nat-cases, update_self, update_other, find_head, find_tail, find-erase_self,
  find-erase_other,
}
use eventhub.Subscriptions.WellFormed.{subscription_of}
use eventhub.Subscriptions.Subscribing.{new_entry, entered}
use eventhub.Subscriptions.Unsubscribing.{drop_subscription_keeps}

get_topic_keeps :
    (f : Bytes) (w : World) → (get_topic f w).1.subscribed_topics ≡ w.subscribed_topics
unfolding get_topic
get_topic_keeps f w = go (find f w.topic_list)
  where
    go :
        (o : Option ℕ)
        → World.subscribed_topics
            (elim o as (λ _. ℕ × World) [
              | some topic ↦ (topic, w)
              | none ↦ (
                w.next,
                record w {
                  store = update w.next [] w.store;
                  topic_list = (f, w.next) ∷ w.topic_list;
                  next = w.next + 1;
                },
              )
            ]).1
          ≡ w.subscribed_topics
    go none = refl
    go (some a) = refl

-- The maps with one connection's replaced, at a connection and a filter.
module _ (S : ℕ → List (Bytes × TopicSubscription)) (c d : ℕ) (f g : Bytes) where
  find-replaced :
      (m : List (Bytes × TopicSubscription)) (o : Option TopicSubscription)
      → find f m ≡ o
      → (bytes_eq f g ≡ false → find g m ≡ find g (S c))
      → find g (update c m S d) ≡ (if d == c && bytes_eq f g then o else find g (S d))
  find-replaced m o at rest = elim (nat-cases d c) [
    | inr k ↦ ap (find g) (update_other c d m S k) ∙ ground (arith, k)
    | inl e ↦
        ap (λ z. find g (update c m S z)) e
        ∙ ap (find g) (update_self c m S)
        ∙ (elim (bytes-cases f g) [
          | inl fg ↦
              ap (λ z. find z m) (sym fg)
              ∙ at
              ∙ (let b : bytes_eq f g ≡ true = ap (bytes_eq f) (sym fg) ∙ bytes_eq_refl f in
                  ground arith)
          | inr k ↦ rest k ∙ ap (λ z. find g (S z)) (sym e) ∙ ground arith
        ])
  ]

-- What `subscribe` leaves behind where there was no such subscription.
pub subscribe_new :
    (c d : ℕ) (f g id : Bytes) (w : World)
    → subscription_of w c f ≡ none
    → subscription_of (subscribe c f id w) d g ≡ (
        if d == c && bytes_eq f g
        then some (new_entry f id (get_topic f w))
        else subscription_of w d g)
unfolding subscribe subscribe_connection add_subscriber
subscribe_new c d f g id w n = go (subscription_of w c f) n
  where
    go :
        (o : Option TopicSubscription)
        → o ≡ none
        → subscription_of (elim o [ some sub ↦ w | none ↦ entered c f id (get_topic f w) ]) d g ≡ (
            if d == c && bytes_eq f g
            then some (new_entry f id (get_topic f w))
            else subscription_of w d g)
    go (some sub) e = absurd (ground arith)
    go none e =
        subst
          (λ z. find g (update c ((f, new_entry f id (get_topic f w)) ∷ z c) z d) ≡ (
            if d == c && bytes_eq f g
            then some (new_entry f id (get_topic f w))
            else subscription_of w d g))
          (sym (get_topic_keeps f w))
          (find-replaced w.subscribed_topics c d f g
            ((f, new_entry f id (get_topic f w)) ∷ w.subscribed_topics c)
            (some (new_entry f id (get_topic f w)))
            (find_head f (new_entry f id (get_topic f w)) (w.subscribed_topics c))
            (λ k. find_tail f g (new_entry f id (get_topic f w)) (w.subscribed_topics c) k))

pub subscribe_old :
    (c : ℕ) (f id : Bytes) (w : World) {sub : TopicSubscription}
    → subscription_of w c f ≡ some sub
    → subscribe c f id w ≡ w
unfolding subscribe
subscribe_old c f id w e = rw (e, subscribe) refl

pub unsubscribe_find :
    (c d : ℕ) (f g : Bytes) (w : World)
    → subscription_of (unsubscribe c f w).1 d g
      ≡ (if d == c && bytes_eq f g then none else subscription_of w d g)
unfolding unsubscribe
unsubscribe_find c d f g w = go (subscription_of w c f) refl
  where
    go :
        (o : Option TopicSubscription)
        → subscription_of w c f ≡ o
        → subscription_of
            (elim o as (λ _. Bool × World) [
              | none ↦ (false, w)
              | some sub ↦ (
                true,
                record (drop_subscription f sub w) {
                  subscribed_topics =
                      update c
                        (erase f ((drop_subscription f sub w).subscribed_topics c))
                        (drop_subscription f sub w).subscribed_topics;
                },
              )
            ]).1
            d
            g
          ≡ (if d == c && bytes_eq f g then none else subscription_of w d g)
    go (some sub) e =
        subst
          (λ z.
            find g (update c (erase f (z c)) z d)
            ≡ (if d == c && bytes_eq f g then none else subscription_of w d g))
          (sym (drop_subscription_keeps f sub w))
          (find-replaced w.subscribed_topics c d f g (erase f (w.subscribed_topics c)) none
            (find-erase_self f (w.subscribed_topics c))
            (λ k. find-erase_other f g (w.subscribed_topics c) k))
    go none e = elim (nat-cases d c) [
      | inr k ↦ ground (arith, k)
      | inl dc ↦ elim (bytes-cases f g) [
        | inr k ↦ ground (arith, k)
        | inl fg ↦
            ap (λ z. find g (w.subscribed_topics z)) dc
            ∙ ap (λ z. find z (w.subscribed_topics c)) (sym fg)
            ∙ e
            ∙ (let b : bytes_eq f g ≡ true = ap (bytes_eq f) (sym fg) ∙ bytes_eq_refl f in
                ground (arith, dc))
      ]
    ]

drop_subscriptions_self :
    (c : ℕ) (subs : List (Bytes × TopicSubscription)) (w : World)
    → w.subscribed_topics c ≡ subs
    → (drop_subscriptions c subs w).subscribed_topics c ≡ []
unfolding drop_subscriptions
drop_subscriptions_self c [] w e = e
drop_subscriptions_self c ((f, sub) ∷ subs) w e =
    drop_subscriptions_self c subs
      (record (drop_subscription f sub w) {
        subscribed_topics = update c subs (drop_subscription f sub w).subscribed_topics;
      })
      (update_self c subs (drop_subscription f sub w).subscribed_topics)

drop_subscriptions_other :
    (c d : ℕ) (subs : List (Bytes × TopicSubscription)) (w : World)
    → (d == c) ≡ false
    → (drop_subscriptions c subs w).subscribed_topics d ≡ w.subscribed_topics d
unfolding drop_subscriptions
drop_subscriptions_other c d [] w k = refl
drop_subscriptions_other c d ((f, sub) ∷ subs) w k =
    drop_subscriptions_other c d subs
      (record (drop_subscription f sub w) {
        subscribed_topics = update c subs (drop_subscription f sub w).subscribed_topics;
      })
      k
    ∙ update_other c d subs (drop_subscription f sub w).subscribed_topics k
    ∙ ap (λ z. z d) (drop_subscription_keeps f sub w)

pub unsubscribe_all_find :
    (c d : ℕ) (g : Bytes) (w : World)
    → subscription_of (unsubscribe_all c w).1 d g ≡ (if d == c then none else subscription_of w d g)
unfolding unsubscribe_all find
unsubscribe_all_find c d g w = elim (nat-cases d c) [
  | inl e ↦
      ap (λ z. find g ((drop_subscriptions c (w.subscribed_topics c) w).subscribed_topics z)) e
      ∙ ap (find g) (drop_subscriptions_self c (w.subscribed_topics c) w refl)
      ∙ ground (arith, e)
  | inr k ↦
      ap (find g) (drop_subscriptions_other c d (w.subscribed_topics c) w k)
      ∙ if_false (λ z. find g (w.subscribed_topics d) ≡ z) (d == c) _ _ k refl
]
