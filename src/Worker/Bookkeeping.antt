-- ===== src/Worker/Bookkeeping.antt =====
-- The list of connections of a worker and its counters, its timer descriptor and the removal of
-- connections, src/ConnectionWorker.cpp.
use eventhub.Prelude.{
  ℕ, suc, ◌+◌, ◌-◌, ◌*◌, ◌%◌, ◌^◌, ◌≤◌, ◌<◌, ◌≡◌, refl, Bool, true, false, ◌||◌, ◌⊎◌, inl, inr,
  List, [], ◌∷◌, ◌++◌, ◌==◌, Bool-cases, length, length-append, Bytes, arith,
}
use eventhub.Connection.{Connection, IoResult, shutdown}
use eventhub.Metrics.{count_connect, count_disconnect}
use eventhub.Metrics.Aggregation.{IsBalanced, count_connect-IsBalanced, count_disconnect-IsBalanced}
use eventhub.Worker.{
  Worker, erase_connection, add_connection, remove_connection, arm_timer_fd, Events, ClientEvent,
  removed, flushed, was_read, left_alone, on_client_event,
}

-- The counter of the connections is the length of the list, on its 64 bits, and the counters agree.
pub record IsCounted (w : Worker) : Type 0 where
  pub current : w.metrics.current_connections_count % 2 ^ 64 ≡ length w.connection_list % 2 ^ 64
  pub balanced : IsBalanced w.metrics

abbrev pub Lists : ℕ → List ℕ → Type 0
Lists conn [] = ⊥
Lists conn (c ∷ cs) = (c ≡ conn) ⊎ Lists conn cs

length-erase_connection :
    (conn : ℕ) (cs : List ℕ) → Lists conn cs → suc (length (erase_connection conn cs)) ≡ length cs
unfolding erase_connection
length-erase_connection conn [] h = elim h [ ]
length-erase_connection conn (c ∷ cs) h = elim (Bool-cases (c == conn)) [
  | inl e ↦ ground (arith, e)
  | inr e ↦ elim h [
    | inl k ↦ absurd (ground (arith, k, e))
    | inr k ↦ ground (arith, e, length-erase_connection conn cs k)
  ]
]

Lists-append : (conn : ℕ) (cs : List ℕ) → Lists conn (cs ++ conn ∷ [])
Lists-append conn [] = inl refl
Lists-append conn (c ∷ cs) = inr (Lists-append conn cs)

-- `_addConnection` keeps the counters in step with the list, whether the connection could be added
-- to epoll or not.
pub add_connection-IsCounted :
    (in_epoll : Bool) (conn : ℕ) (w : Worker)
    → IsCounted w
    → IsCounted (add_connection in_epoll conn w)
unfolding add_connection count_connect
add_connection-IsCounted true conn w h = record {
  current = omega (arith, IsCounted.current h, length-append w.connection_list (conn ∷ []));
  balanced = count_connect-IsBalanced w.metrics (IsCounted.balanced h);
}
add_connection-IsCounted false conn w h = record {
  current = omega (
    arith,
    IsCounted.current h,
    length-erase_connection conn (w.connection_list ++ conn ∷ [])
        (Lists-append conn w.connection_list),
    length-append w.connection_list (conn ∷ []),
  );
  balanced = IsCounted.balanced h;
}

-- So does `_removeConnection`, for a connection of the list.
pub remove_connection-IsCounted :
    (conn : ℕ) (w : Worker)
    → Lists conn w.connection_list
    → IsCounted w
    → IsCounted (remove_connection conn w)
unfolding remove_connection count_disconnect
remove_connection-IsCounted conn w m h = record {
  current = omega (arith, IsCounted.current h, length-erase_connection conn w.connection_list m);
  balanced = count_disconnect-IsBalanced w.metrics (IsCounted.balanced h);
}

-- A setting of the descriptor that wakes the worker up, and not before the timer is due.
pub record Wakes (next_fire now : ℕ) (spec : ℕ × ℕ) : Type 0 where
  pub armed : 0 < spec.0 + spec.1
  pub in_range : spec.1 < 1000000000
  pub due : (next_fire - now) * 1000000 ≤ spec.0 * 1000000000 + spec.1
  pub in_time : spec.0 * 1000000000 + spec.1 ≤ (next_fire - now) * 1000000 + 1

-- While there is a timer `_armTimerFd` arms the descriptor, also where the timer is due already,
-- with less than a second of nanoseconds, for the time that the timer is due or a nanosecond
-- later.
pub arm_timer_fd-Wakes :
    (next_fire now : ℕ) → 0 < next_fire → Wakes next_fire now (arm_timer_fd next_fire now)
unfolding arm_timer_fd
arm_timer_fd-Wakes next_fire now h = record {
  armed = ground (arith, h);
  in_range = ground (arith, h);
  due = ground (arith, h);
  in_time = ground (arith, h);
}

abbrev pub is_removed : ClientEvent → Bool
is_removed (removed c) = true
is_removed (flushed c) = false
is_removed (was_read r) = false
is_removed (left_alone c) = false

-- An event removes a connection exactly where the connection is shut down or the event tells of an
-- error or that the peer is gone.
pub on_client_event_removed :
    (kernel : Bytes → IoResult) (result : IoResult) (events : Events) (client : Connection)
    → is_removed (on_client_event kernel result events client)
      ≡ (client.is_shutdown || events.epollerr || events.epollhup || events.epollrdhup)
unfolding on_client_event shutdown
on_client_event_removed kernel result events client = ground arith
