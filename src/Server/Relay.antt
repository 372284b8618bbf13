-- ===== src/Server/Relay.antt =====
-- What becomes of the messages of redis, src/Server.cpp.
use eventhub.Prelude.{
  ℕ, ◌+◌, ◌%◌, ◌^◌, ◌≡◌, refl, sym, ap, ap₂, ◌∙◌, true, false, List, [], ◌∷◌, ◌++◌, append-nil,
  append_assoc, map, Option, none, some, length, length-append, if◌then◌else◌, if_true, if_false,
  Bool-cases, inl, inr, Bytes, bytes_eq, arith, stol,
}
use eventhub.Server.{
  Server, publish_to_workers, system_unixtime, on_redis_message, on_redis_messages, publish_delay,
}

-- The messages for the clients, in order: all but the samples of the delay.
abbrev pub relayed : List (ℕ × Bytes × Bytes) → List (Bytes × Bytes)
relayed [] = []
relayed ((now, topic, msg) ∷ messages) =
    let rest = relayed messages in
    if bytes_eq topic system_unixtime then rest else (topic, msg) ∷ rest

-- Every queue has the messages behind what it had, and they are counted.
pub record Relays (messages : List (Bytes × Bytes)) (s r : Server) : Type 0 where
  pub queues : r.queues ≡ map (λ q. q ++ messages) s.queues
  pub counted :
      r.metrics.publish_count % 2 ^ 64 ≡ (s.metrics.publish_count + length messages) % 2 ^ 64

nothing_more : (qs : List (List (Bytes × Bytes))) → qs ≡ map (λ q. q ++ []) qs
nothing_more [] = refl
nothing_more (q ∷ qs) = ap₂ (λ x xs. x ∷ xs) (sym (append-nil q)) (nothing_more qs)

one_more :
    (x y : List (Bytes × Bytes)) (qs : List (List (Bytes × Bytes)))
    → map (λ q. q ++ y) (map (λ q. q ++ x) qs) ≡ map (λ q. q ++ (x ++ y)) qs
one_more x y [] = refl
one_more x y (q ∷ qs) = ap₂ (λ z zs. z ∷ zs) (append_assoc q x y) (one_more x y qs)

-- A sample of the delay touches neither the queues nor the count.
sample-Relays :
    (message_of : Bytes → Option Bytes) (now : ℕ) (topic msg : Bytes) (s : Server)
    → bytes_eq topic system_unixtime ≡ true
    → Relays [] s (on_redis_message message_of now topic msg s)
unfolding on_redis_message
sample-Relays message_of now topic msg s e =
    if_true (Relays [] s) (bytes_eq topic system_unixtime) _ _ e (go (message_of msg))
  where
    read_time : Option ℕ → Server
    read_time o = elim o [
      | none ↦ s
      | some ts ↦ record s {
        metrics = record (Server.metrics s) { redis_publish_delay_ms = publish_delay now ts };
      }
    ]

    read_time-Relays : (o : Option ℕ) → Relays [] s (read_time o)
    read_time-Relays none = record { queues = nothing_more s.queues; counted = omega arith }
    read_time-Relays (some ts) = record { queues = nothing_more s.queues; counted = omega arith }

    go : (o : Option Bytes) → Relays [] s (elim o [ none ↦ s | some text ↦ read_time (stol text) ])
    go none = record { queues = nothing_more s.queues; counted = omega arith }
    go (some text) = read_time-Relays (stol text)

message-Relays :
    (message_of : Bytes → Option Bytes) (now : ℕ) (topic msg : Bytes) (s : Server)
    → bytes_eq topic system_unixtime ≡ false
    → Relays ((topic, msg) ∷ []) s (on_redis_message message_of now topic msg s)
unfolding on_redis_message publish_to_workers
message-Relays message_of now topic msg s e =
    if_false (Relays ((topic, msg) ∷ []) s) (bytes_eq topic system_unixtime) _ _ e
      (record { queues = refl; counted = omega arith })

Relays-append :
    (x y : List (Bytes × Bytes)) (s r t : Server)
    → Relays x s r
    → Relays y r t
    → Relays (x ++ y) s t
Relays-append x y s r t h k = record {
  queues = Relays.queues k ∙ ap (map (λ q. q ++ y)) (Relays.queues h) ∙ one_more x y s.queues;
  counted = omega (arith, Relays.counted h, Relays.counted k, length-append x y);
}

-- Whatever arrives from redis, every worker's queue gets each message but the samples of the delay,
-- once and in the order of arrival, behind what it held, and each is counted.
pub on_redis_messages-Relays :
    (message_of : Bytes → Option Bytes) (messages : List (ℕ × Bytes × Bytes)) (s : Server)
    → Relays (relayed messages) s (on_redis_messages message_of messages s)
unfolding on_redis_messages
on_redis_messages-Relays message_of [] s = record {
  queues = nothing_more s.queues;
  counted = omega arith;
}
on_redis_messages-Relays message_of ((now, topic, msg) ∷ messages) s =
    let s' = on_redis_message message_of now topic msg s in
    let rest = on_redis_messages-Relays message_of messages s' in
    elim (Bool-cases (bytes_eq topic system_unixtime)) [
      | inl e ↦
          if_true (λ z. Relays z s (on_redis_messages message_of messages s'))
            (bytes_eq topic system_unixtime) _ _ e
            (Relays-append [] (relayed messages) s s' (on_redis_messages message_of messages s')
              (sample-Relays message_of now topic msg s e) rest)
      | inr e ↦
          if_false (λ z. Relays z s (on_redis_messages message_of messages s'))
            (bytes_eq topic system_unixtime) _ _ e
            (Relays-append ((topic, msg) ∷ []) (relayed messages) s s'
              (on_redis_messages message_of messages s')
              (message-Relays message_of now topic msg s e) rest)
    ]
