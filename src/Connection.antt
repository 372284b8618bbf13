-- ===== src/Connection.antt =====
-- A client's connection, src/Connection.cpp and include/Connection.hpp: its write buffer, the
-- shutdown flags, the interest in EPOLLOUT and the dispatch of what is read. The socket is the
-- kernel's: `write` and `read` take the result of the system call as an argument, and the record
-- keeps the bytes that the kernel has accepted and how often it was told to shut down. Locks are not
-- modelled: each operation is one step.
pub mod Sending
use eventhub.Prelude.{
  ℕ, ◌+◌, ◌*◌, Bool, true, false, not, ◌&&◌, ◌||◌, List, [], ◌++◌, if◌then◌else◌, ltb, leb, ◌==◌,
  Bytes, length, take, drop, is_empty,
}

pub data ConnectionState : Type 0 where
  http websocket sse : ConnectionState

-- `NET_WRITE_BUFFER_MAX` and `NET_READ_BUFFER_SIZE` of include/Common.hpp
abbrev pub net_write_buffer_max : ℕ
net_write_buffer_max = 1024 * 1000 * 8

abbrev pub net_read_buffer_size : ℕ
net_read_buffer_size = 512

-- What `::write` and `::read` return: the number of bytes, where -1 counts as 0 since the code treats
-- them alike, and whether `errno` then is `EAGAIN` (or `EWOULDBLOCK`).
pub record IoResult : Type 0 where
  pub count : ℕ
  pub again : Bool

-- The connection, with what the kernel knows of it: `sent` are the bytes accepted from it, in order,
-- and `closed` whether `::shutdown` was called. `has_epoll` is whether the worker's epoll file
-- descriptor is not -1.
pub record Connection : Type 0 where
  pub write_buffer : Bytes
  pub is_shutdown : Bool
  pub is_shutdown_after_flush : Bool
  pub epoll_out : Bool
  pub has_epoll : Bool
  pub state : ConnectionState
  pub has_http_parser : Bool
  pub sent : Bytes
  pub closed : ℕ

unfoldable pub enable_epoll_out : Connection → Connection
enable_epoll_out c = if c.has_epoll && not c.epoll_out then record c { epoll_out = true } else c

unfoldable pub disable_epoll_out : Connection → Connection
disable_epoll_out c = if c.has_epoll && c.epoll_out then record c { epoll_out = false } else c

unfoldable pub prune_write_buffer : ℕ → Connection → Connection
prune_write_buffer bytes c =
    if ltb (length c.write_buffer) 1
    then c
    else if leb (length c.write_buffer) bytes
    then record c { write_buffer = [] }
    else record c { write_buffer = drop bytes c.write_buffer }

unfoldable pub shutdown : Connection → Connection
shutdown c = if not c.is_shutdown then record c { closed = c.closed + 1; is_shutdown = true } else c

unfoldable pub shutdown_after_flush : Connection → Connection
unfolding shutdown
shutdown_after_flush c =
    if is_empty c.write_buffer then shutdown c else record c { is_shutdown_after_flush = true }

-- The three outcomes of `::write` in `flushSendBuffer`.
unfoldable pub after_write : IoResult → Connection → Connection
unfolding enable_epoll_out disable_epoll_out prune_write_buffer shutdown
after_write r c =
    let c' = record c { sent = c.sent ++ take r.count c.write_buffer } in
    if r.count == 0
    then if not r.again then shutdown c else enable_epoll_out c
    else if ltb r.count (length c.write_buffer)
    then enable_epoll_out (prune_write_buffer r.count c')
    else record (disable_epoll_out c') { write_buffer = [] }

unfoldable pub close_if_flushed : Connection → Connection
unfolding shutdown
close_if_flushed c = if is_empty c.write_buffer && c.is_shutdown_after_flush then shutdown c else c

-- `kernel` is what `::write` returns for the bytes that it is given.
unfoldable pub flush_send_buffer : (Bytes → IoResult) → Connection → Connection
unfolding after_write close_if_flushed disable_epoll_out
flush_send_buffer kernel c =
    if is_empty c.write_buffer || c.is_shutdown
    then disable_epoll_out c
    else close_if_flushed (after_write (kernel c.write_buffer) c)

unfoldable pub write : (Bytes → IoResult) → Bytes → Connection → Connection
unfolding flush_send_buffer shutdown
write kernel data' c =
    let c' = record c { write_buffer = c.write_buffer ++ data' } in
    if c.is_shutdown
    then c
    else if ltb net_write_buffer_max (length c.write_buffer + length data')
    then shutdown (record c { write_buffer = [] })
    else if not (is_empty c'.write_buffer)
    then flush_send_buffer kernel c'
    else c'

unfoldable pub set_state : ConnectionState → Connection → Connection
set_state ConnectionState.websocket c = record c {
  has_http_parser = false;
  state = ConnectionState.websocket;
}
set_state s c = record c { state = s }

-- Which parser `_parseRequest` hands the bytes to.
pub data Dispatch : Type 0 where
  to_http_parser to_websocket_parser nowhere : Dispatch

unfoldable pub parse_request : Connection → Dispatch × Connection
unfolding shutdown
parse_request c = elim c.state [
  | ConnectionState.http ↦ (Dispatch.to_http_parser, c)
  | ConnectionState.websocket ↦ (Dispatch.to_websocket_parser, c)
  | ConnectionState.sse ↦ (Dispatch.nowhere, shutdown c)
]

-- `read`, with the result of `::read`.
unfoldable pub read : IoResult → Connection → Dispatch × Connection
unfolding parse_request shutdown
read result c =
    if c.is_shutdown
    then (Dispatch.nowhere, c)
    else if result.count == 0
    then if not result.again then (Dispatch.nowhere, shutdown c) else (Dispatch.nowhere, c)
    else parse_request c
