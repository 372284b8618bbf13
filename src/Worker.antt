-- ===== src/Worker.antt =====
-- A worker, src/ConnectionWorker.cpp, and how the server of src/Server.cpp chooses one: accepting
-- connections, the list of them with its counters, the timers of a connection, the timer descriptor
-- and what an event of epoll does. The kernel's answers are arguments, and a connection in the list
-- is known by a number. Workers are numbered from 0 in the list of the server.
pub mod Balancing
pub mod Bookkeeping
use eventhub.Prelude.{
  ℕ, ◌+◌, ◌-◌, ◌*◌, ◌/◌, ◌%◌, Bool, true, false, not, ◌&&◌, ◌||◌, List, [], ◌∷◌, ◌++◌, Option, none,
  some, leb, ◌==◌, if◌then◌else◌, Bytes, codes,
}
use eventhub.Connection.{
  Connection, ConnectionState, IoResult, Dispatch, write, shutdown, flush_send_buffer, read,
}
use eventhub.Metrics.{WorkerMetrics, count_connect, count_disconnect}
use eventhub.WebSocket.Types.{ping_frame}
use eventhub.WebSocket.Response.{send_data}

-- `Server::getWorker`, with the number of workers and the position of `_cur_worker`: the worker, and
-- the position behind it.
unfoldable pub get_worker : ℕ → ℕ → ℕ × ℕ
get_worker workers cur_worker =
    let cur = if cur_worker == workers then 0 else cur_worker in (cur, cur + 1)

-- What `accept` returns: a descriptor, or -1 with `errno` `EINTR`, `EAGAIN`, or another.
pub data AcceptResult : Type 0 where
  accepted : ℕ → AcceptResult
  interrupted drained failed : AcceptResult

-- The loop of `_acceptConnection` on what the calls return: which worker each connection is given
-- to.
unfoldable pub accept_connections : ℕ → ℕ → List AcceptResult → List (ℕ × ℕ) × ℕ
unfolding get_worker
accept_connections workers cur [] = ([], cur)
accept_connections workers cur (accepted fd ∷ results) =
    let (worker, cur') = get_worker workers cur in
    let (given, cur'') = accept_connections workers cur' results in ((worker, fd) ∷ given, cur'')
accept_connections workers cur (interrupted ∷ results) = accept_connections workers cur results
accept_connections workers cur (drained ∷ results) = ([], cur)
accept_connections workers cur (failed ∷ results) = ([], cur)

pub record Worker : Type 0 where
  pub connection_list : List ℕ
  pub metrics : WorkerMetrics

-- `erase` of an element of the list.
unfoldable pub erase_connection : ℕ → List ℕ → List ℕ
erase_connection conn [] = []
erase_connection conn (c ∷ cs) =
    let rest = erase_connection conn cs in if c == conn then cs else c ∷ rest

-- `_addConnection`: where `addToEpoll` fails the connection is taken from the list again, and nothing
-- is counted.
unfoldable pub add_connection : Bool → ℕ → Worker → Worker
unfolding erase_connection count_connect
add_connection in_epoll conn w =
    let inserted = w.connection_list ++ conn ∷ [] in
    if not in_epoll
    then record w { connection_list = erase_connection conn inserted }
    else record w { connection_list = inserted; metrics = count_connect w.metrics }

-- `_removeConnection`
unfoldable pub remove_connection : ℕ → Worker → Worker
unfolding erase_connection count_disconnect
remove_connection conn w = record w {
  connection_list = erase_connection conn w.connection_list;
  metrics = count_disconnect w.metrics;
}

abbrev is_upgraded : ConnectionState → Bool
is_upgraded ConnectionState.http = false
is_upgraded ConnectionState.websocket = true
is_upgraded ConnectionState.sse = true

-- The timer of the handshake, for a connection that is still there.
unfoldable pub on_handshake_timeout : Connection → Connection
unfolding shutdown
on_handshake_timeout c = if not (is_upgraded c.state) then shutdown c else c

unfoldable pub write_texts : (Bytes → IoResult) → List Bytes → Connection → Connection
unfolding write
write_texts kernel [] c = c
write_texts kernel (text ∷ texts) c = write_texts kernel texts (write kernel text c)

-- The repeated timer, for a connection that is still there: whether it goes on, and the connection
-- with the ping of its protocol.
unfoldable pub on_ping_timer : (Bytes → IoResult) → Bytes → Connection → Bool × Connection
unfolding write_texts send_data
on_ping_timer kernel junk c = if c.is_shutdown then (false, c) else elim c.state [
  | ConnectionState.websocket ↦ (true, write_texts kernel (send_data junk [] ping_frame) c)
  | ConnectionState.sse ↦ (true, write kernel (codes ":\n\n") c)
  | ConnectionState.http ↦ (true, c)
]

-- The seconds and nanoseconds that `_armTimerFd` sets the descriptor to, from the time of the next
-- timer, 0 if there is none, and the clock, both in milliseconds; (0, 0) disarms it.
unfoldable pub arm_timer_fd : ℕ → ℕ → ℕ × ℕ
arm_timer_fd next_fire now =
    let delay_ns = (next_fire - now) * 1000000 in
    let secs = delay_ns / 1000000000 in
    let nsecs = delay_ns % 1000000000 in
    if next_fire == 0 then (0, 0) else (secs, if secs == 0 && nsecs == 0 then 1 else nsecs)

-- The flags of an event.
pub record Events : Type 0 where
  pub epollerr : Bool
  pub epollhup : Bool
  pub epollrdhup : Bool
  pub epollout : Bool
  pub epollin : Bool

-- What is done with a client: it is removed, its buffer was flushed, or it was read from.
pub data ClientEvent : Type 0 where
  removed : Connection → ClientEvent
  flushed : Connection → ClientEvent
  was_read : Dispatch × Connection → ClientEvent
  left_alone : Connection → ClientEvent

-- The part of the loop of `_workerMain` for an event of a client, with what `::write` and `::read`
-- return.
unfoldable pub on_client_event : (Bytes → IoResult) → IoResult → Events → Connection → ClientEvent
unfolding shutdown flush_send_buffer read
on_client_event kernel result events client =
    let client' =
      if events.epollerr || events.epollhup || events.epollrdhup then shutdown client else client in
    if client'.is_shutdown
    then removed client'
    else if events.epollout
    then flushed (flush_send_buffer kernel client')
    else if events.epollin
    then was_read (read result client')
    else left_alone client'
