-- ===== src/Subscriptions/Broadcast/Isolation.antt =====
-- Which connections a publish writes to.
use eventhub.Prelude.{
  ℕ, ◌≡◌, refl, sym, ap, ◌∙◌, ◌==◌, false, inl, inr, List, [], ◌∷◌, ◌++◌, Option, none, some,
  Bool-cases, if◌then◌else◌, if_true, if_false, Bytes, arith,
}
use eventhub.Topics.{is_filter_matched}
use eventhub.Connection.{Connection, IoResult}
use eventhub.Subscriptions.{Subscriber, World, new_world, update, publish}
use eventhub.Subscriptions.Maps.{In, In-append_left, In-append_right, update_other}
use eventhub.Subscriptions.Spec.{Command, Keeps, publish-Keeps, run_all, enact_all, view}
use eventhub.Subscriptions.Broadcast.{Json, Connections, receive, go_through, publish_to, broadcast}

module _ {J : Type 0} (json : Json J) (kernel : Connection → Bytes → IoResult) (junk : Bytes) where
  go_through_other :
      (j : J) (d : ℕ) (subscribers : List Subscriber) (connections : Connections)
      → ((s : Subscriber) → In s subscribers → (d == s.connection) ≡ false)
      → go_through json kernel junk j subscribers connections d ≡ connections d
  unfolding go_through
  go_through_other j d [] connections h = refl
  go_through_other j d (s ∷ subscribers) connections h =
      go (receive json kernel junk j s.request_id (connections s.connection)) (λ c.
        go_through_other j d subscribers (update s.connection c connections) (λ x m. h x (inr m)))
    where
      go :
          (o : Option (Option Connection))
          → ((c : Option Connection)
              → go_through json kernel junk j subscribers (update s.connection c connections) d
                ≡ update s.connection c connections d)
          → (elim o as (λ _. Connections) [
            | none ↦ connections
            | some c ↦ go_through json kernel junk j subscribers (update s.connection c connections)
          ])
              d
            ≡ connections d
      go none r = refl
      go (some c) r = r c ∙ update_other s.connection d c connections (h s (inl refl))

  publish_to_other :
      (data' : Bytes) (d : ℕ) (subscribers : List Subscriber) (connections : Connections)
      → ((s : Subscriber) → In s subscribers → (d == s.connection) ≡ false)
      → publish_to json kernel junk data' subscribers connections d ≡ connections d
  unfolding publish_to
  publish_to_other data' d subscribers connections h = go (json.parse data')
    where
      go :
          (o : Option J)
          → (elim o as (λ _. Connections) [
            | none ↦ connections
            | some j ↦ go_through json kernel junk j subscribers connections
          ])
              d
            ≡ connections d
      go none = refl
      go (some j) = go_through_other j d subscribers connections h

  broadcast_other :
      (t data' : Bytes) (d : ℕ) (topics : List (Bytes × ℕ)) (store : ℕ → List Subscriber)
      (connections : Connections)
      → ((s : Subscriber) → In s (publish t topics store) → (d == s.connection) ≡ false)
      → broadcast json kernel junk t data' topics store connections d ≡ connections d
  unfolding broadcast publish
  broadcast_other t data' d [] store connections h = refl
  broadcast_other t data' d ((f, a) ∷ topics) store connections h =
      broadcast_other t data' d topics store _ (λ s m. h s (later s m))
      ∙ (elim (Bool-cases (is_filter_matched f t)) [
        | inl e ↦
            if_true (λ (z : Connections). z d ≡ connections d) (is_filter_matched f t) _ _ e
              (publish_to_other data' d (store a) connections (λ s m. h s (
                if_true (In s) (is_filter_matched f t) _ _ e
                  (In-append_left s (store a) (publish t topics store) m))))
        | inr e ↦
            if_false (λ (z : Connections). z d ≡ connections d) (is_filter_matched f t) _ _ e refl
      ])
    where
      later :
          (s : Subscriber)
          → In s (publish t topics store)
          → In s (
              if is_filter_matched f t
              then store a ++ publish t topics store
              else publish t topics store)
      later s m = elim (Bool-cases (is_filter_matched f t)) [
        | inl e ↦
            if_true (In s) (is_filter_matched f t) _ _ e
              (In-append_right s (store a) (publish t topics store) m)
        | inr e ↦ if_false (In s) (is_filter_matched f t) _ _ e m
      ]

  -- Whatever the connections of a worker have asked for, and whatever is published, a connection
  -- that is subscribed to no filter that matches the topic is left as it was.
  pub broadcast-isolation :
      (xs : List Command) (t data' : Bytes) (d : ℕ) (connections : Connections)
      → ((f id : Bytes)
          → enact_all xs (view new_world) d f ≡ some id
          → is_filter_matched f t ≡ false)
      → broadcast json kernel junk t data'
          (World.topic_list (run_all xs new_world))
          (World.store (run_all xs new_world))
          connections
          d
        ≡ connections d
  broadcast-isolation xs t data' d connections h =
      broadcast_other t data' d (World.topic_list (run_all xs new_world))
        (World.store (run_all xs new_world)) connections
        (λ s m. (elim (Bool-cases (d == s.connection)) [
          | inr e ↦ e
          | inl e ↦
              (let (f, r) = Keeps.asked_for (publish-Keeps xs t) s m in
                let same : s.connection ≡ d = ground (arith, e) in
                let k =
                  h f s.request_id (ap (λ z. enact_all xs (view new_world) z f) (sym same) ∙ r.0) in
                absurd (ground (arith, k, r.1)))
        ]))
