-- ===== src/Tests/ConnectionTests.antt =====
-- A connection's write buffer at inputs.
use eventhub.Prelude.{◌+◌, ◌≡◌, ◌⊎◌, ◌<◌, refl, true, false, codes, ◌++◌, [], Bytes, length, arith}
use eventhub.Connection.{
  Connection, ConnectionState, IoResult, net_write_buffer_max, write, flush_send_buffer, shutdown,
  shutdown_after_flush,
}
use eventhub.Connection.Sending.{
  output, IsPending, write-output, sending-IsPending, flush_send_buffer-output,
}

abbrev waiting : Connection
waiting = record {
  write_buffer = codes "ab";
  is_shutdown = false;
  is_shutdown_after_flush = true;
  epoll_out = true;
  has_epoll = true;
  state = ConnectionState.websocket;
  has_http_parser = false;
  sent = [];
  closed = 0;
}

-- A kernel that takes three bytes at a time.
abbrev three : Bytes → IoResult
three bytes = record { count = 3; again = false }

write-output_example :
    (output (write three (codes "cd") waiting) ≡ output waiting ++ codes "cd")
    ⊎ ((net_write_buffer_max < length (codes "ab") + length (codes "cd"))
        × (((write three (codes "cd") waiting).is_shutdown ≡ true)
            × ((write three (codes "cd") waiting).sent ≡ [])))
write-output_example = write-output three (codes "cd") waiting refl

write_test :
    ((write three (codes "cd") waiting).sent ≡ codes "abc")
    × ((write three (codes "cd") waiting).write_buffer ≡ codes "d")
unfolding write
write_test = (refl, refl)

flush_send_buffer-output_example : output (flush_send_buffer three waiting) ≡ output waiting
flush_send_buffer-output_example = flush_send_buffer-output three waiting

waiting-IsPending : IsPending waiting
waiting-IsPending = record {
  monitored = refl;
  woken = refl;
  bounded = omega arith;
  closed_once = refl;
}

sending-IsPending_example :
    IsPending (write three (codes "cd") waiting)
    × IsPending (flush_send_buffer three waiting)
    × IsPending (shutdown waiting)
    × IsPending (shutdown_after_flush waiting)
sending-IsPending_example = sending-IsPending three (codes "cd") waiting waiting-IsPending
