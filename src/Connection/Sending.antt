-- ===== src/Connection/Sending.antt =====
-- Nothing that was written is lost or reordered, after src/Connection.cpp.
use eventhub.Prelude.{
  ℕ, ◌+◌, ◌≤◌, ◌<◌, ◌≡◌, refl, sym, ap, ◌∙◌, true, false, not, ◌&&◌, ◌||◌, ◌⊎◌, inl, inr, ◌++◌,
  if◌then◌else◌, ltb, Bytes, length, take, drop, is_empty, arith, Bool-cases, append_assoc,
  append-nil, take-append-drop, length-append, take_all, length-drop, if_both, if_true, if_false,
  ◌==◌,
}
use eventhub.Connection.{
  Connection, IoResult, net_write_buffer_max, enable_epoll_out, disable_epoll_out,
  prune_write_buffer, shutdown, after_write, close_if_flushed, flush_send_buffer, write,
  shutdown_after_flush,
}

-- The bytes accepted by the kernel, and then those that wait.
abbrev pub output : Connection → Bytes
output c = c.sent ++ c.write_buffer

-- Some bytes wait only while the connection is shut down or EPOLLOUT is monitored, so that the
-- event loop calls `flushSendBuffer` again; and the buffer respects its limit.
pub record IsPending (c : Connection) : Type 0 where
  pub monitored : c.has_epoll ≡ true
  pub woken : is_empty c.write_buffer || c.is_shutdown || c.epoll_out ≡ true
  pub bounded : length c.write_buffer ≤ net_write_buffer_max
  pub closed_once : c.closed ≡ (if c.is_shutdown then 1 else 0)

enable_epoll_out-output : (c : Connection) → output (enable_epoll_out c) ≡ output c
unfolding enable_epoll_out
enable_epoll_out-output c =
    if_both (λ d. output d ≡ output c) (c.has_epoll && not c.epoll_out) _ _ refl refl

disable_epoll_out-output : (c : Connection) → output (disable_epoll_out c) ≡ output c
unfolding disable_epoll_out
disable_epoll_out-output c =
    if_both (λ d. output d ≡ output c) (c.has_epoll && c.epoll_out) _ _ refl refl

shutdown-output : (c : Connection) → output (shutdown c) ≡ output c
unfolding shutdown
shutdown-output c = if_both (λ d. output d ≡ output c) (not c.is_shutdown) _ _ refl refl

prune_write_buffer-drop :
    (n : ℕ) (c : Connection)
    → n < length c.write_buffer
    → prune_write_buffer n c ≡ record c { write_buffer = drop n c.write_buffer }
unfolding prune_write_buffer
prune_write_buffer-drop n c h = ground arith

disable_epoll_out-sent : (c : Connection) → (disable_epoll_out c).sent ≡ c.sent
unfolding disable_epoll_out
disable_epoll_out-sent c =
    if_both (λ (d : Connection). d.sent ≡ c.sent) (c.has_epoll && c.epoll_out) _ _ refl refl

after_write-output : (r : IoResult) (c : Connection) → output (after_write r c) ≡ output c
unfolding after_write
after_write-output r c =
    let c' = record c { sent = c.sent ++ take r.count c.write_buffer } in
    if_both (λ d. output d ≡ output c) (r.count == 0) _ _
      (if_both (λ d. output d ≡ output c) (not r.again) _ _ (shutdown-output c)
        (enable_epoll_out-output c))
      (elim (Bool-cases (ltb r.count (length c.write_buffer))) [
        | inl e ↦ rw e (
            enable_epoll_out-output (prune_write_buffer r.count c')
            ∙ ap output (prune_write_buffer-drop r.count c' (ground arith))
            ∙ append_assoc c.sent (take r.count c.write_buffer) (drop r.count c.write_buffer)
            ∙ ap (◌++◌ c.sent) (take-append-drop r.count c.write_buffer))
        | inr e ↦ rw e (
            append-nil (disable_epoll_out c').sent
            ∙ disable_epoll_out-sent c'
            ∙ ap (◌++◌ c.sent) (take_all r.count c.write_buffer (ground arith)))
      ])

close_if_flushed-output : (c : Connection) → output (close_if_flushed c) ≡ output c
unfolding close_if_flushed
close_if_flushed-output c =
    if_both (λ d. output d ≡ output c) (is_empty c.write_buffer && c.is_shutdown_after_flush) _ _
      (shutdown-output c) refl

-- Flushing moves bytes from the front of the write buffer to the kernel, and drops none.
pub flush_send_buffer-output :
    (kernel : Bytes → IoResult) (c : Connection) → output (flush_send_buffer kernel c) ≡ output c
unfolding flush_send_buffer
flush_send_buffer-output kernel c =
    if_both (λ d. output d ≡ output c) (is_empty c.write_buffer || c.is_shutdown) _ _
      (disable_epoll_out-output c)
      (close_if_flushed-output (after_write (kernel c.write_buffer) c)
        ∙ after_write-output (kernel c.write_buffer) c)

-- What is written to an open connection is accepted or waits, behind all that was written before,
-- unless the limit of the buffer is exceeded: then the connection is shut down.
pub write-output :
    (kernel : Bytes → IoResult) (data' : Bytes) (c : Connection)
    → c.is_shutdown ≡ false
    → (output (write kernel data' c) ≡ output c ++ data')
      ⊎ ((net_write_buffer_max < length c.write_buffer + length data')
          × (((write kernel data' c).is_shutdown ≡ true) × ((write kernel data' c).sent ≡ c.sent)))
unfolding write shutdown
write-output kernel data' c h =
    let P : Connection → Type 0 = λ d.
      (output d ≡ output c ++ data')
      ⊎ ((net_write_buffer_max < length c.write_buffer + length data')
          × ((d.is_shutdown ≡ true) × (d.sent ≡ c.sent))) in
    if_false P c.is_shutdown _ _ h
      (elim (Bool-cases (ltb net_write_buffer_max (length c.write_buffer + length data'))) [
        | inl e ↦ if_true P _ _ _ e (inr (ground arith, ground arith))
        | inr e ↦ if_false P _ _ _ e (
            inl (
              if_both (λ d. output d ≡ output c ++ data') (not (is_empty (c.write_buffer ++ data')))
                _ _
                (flush_send_buffer-output kernel
                    (record c { write_buffer = c.write_buffer ++ data' })
                  ∙ sym (append_assoc c.sent c.write_buffer data'))
                (sym (append_assoc c.sent c.write_buffer data'))))
      ])

after_write-IsPending :
    (r : IoResult) (c : Connection)
    → c.has_epoll ≡ true
    → length c.write_buffer ≤ net_write_buffer_max
    → c.closed ≡ (if c.is_shutdown then 1 else 0)
    → IsPending (after_write r c)
unfolding after_write enable_epoll_out disable_epoll_out prune_write_buffer shutdown
after_write-IsPending r c m b k = record {
  monitored = ground arith;
  woken = ground arith;
  bounded = ground (arith, length-drop r.count c.write_buffer);
  closed_once = ground arith;
}

close_if_flushed-IsPending : (c : Connection) → IsPending c → IsPending (close_if_flushed c)
unfolding close_if_flushed shutdown
close_if_flushed-IsPending c p =
    let m = IsPending.monitored p in
    let w = IsPending.woken p in
    let b = IsPending.bounded p in
    let k = IsPending.closed_once p in
    record {
      monitored = ground arith;
      woken = ground arith;
      bounded = ground arith;
      closed_once = ground arith;
    }

-- After `flushSendBuffer` nothing waits in a connection that the event loop would not flush again.
flush_send_buffer-IsPending :
    (kernel : Bytes → IoResult) (c : Connection)
    → c.has_epoll ≡ true
    → length c.write_buffer ≤ net_write_buffer_max
    → c.closed ≡ (if c.is_shutdown then 1 else 0)
    → IsPending (flush_send_buffer kernel c)
unfolding flush_send_buffer disable_epoll_out
flush_send_buffer-IsPending kernel c m b k =
    elim (Bool-cases (is_empty c.write_buffer || c.is_shutdown)) [
      | inl e ↦ if_true IsPending _ _ _ e (record {
        monitored = ground arith;
        woken = ground arith;
        bounded = ground arith;
        closed_once = ground arith;
      })
      | inr e ↦
          if_false IsPending _ _ _ e
            (close_if_flushed-IsPending _ (after_write-IsPending (kernel c.write_buffer) c m b k))
    ]

-- On a worker whose epoll descriptor is open, the operations on the write buffer keep the
-- invariant, whatever the kernel accepts: bytes wait only
-- where the connection is shut down or EPOLLOUT is monitored, the buffer is within its limit, and
-- the socket has been shut down once if the connection is shut down and never before.
pub sending-IsPending :
    (kernel : Bytes → IoResult) (data' : Bytes) (c : Connection)
    → IsPending c
    → IsPending (write kernel data' c)
      × IsPending (flush_send_buffer kernel c)
      × IsPending (shutdown c)
      × IsPending (shutdown_after_flush c)
unfolding write shutdown shutdown_after_flush
sending-IsPending kernel data' c p =
    let m = IsPending.monitored p in
    let w = IsPending.woken p in
    let b = IsPending.bounded p in
    let k = IsPending.closed_once p in
    (
      if_both IsPending c.is_shutdown _ _ p
          (elim (Bool-cases (ltb net_write_buffer_max (length c.write_buffer + length data'))) [
            | inl e ↦ if_true IsPending _ _ _ e (record {
              monitored = ground arith;
              woken = ground arith;
              bounded = ground arith;
              closed_once = ground arith;
            })
            | inr e ↦
                if_false IsPending _ _ _ e
                  (elim (Bool-cases (not (is_empty (c.write_buffer ++ data')))) [
                    | inl ne ↦ if_true IsPending _ _ _ ne (
                        flush_send_buffer-IsPending kernel
                          (record c { write_buffer = c.write_buffer ++ data' }) m
                          (ground (arith, length-append c.write_buffer data')) k)
                    | inr ne ↦ if_false IsPending _ _ _ ne (record {
                      monitored = m;
                      woken = ground arith;
                      bounded = ground (arith, length-append c.write_buffer data');
                      closed_once = k;
                    })
                  ])
          ]),
      flush_send_buffer-IsPending kernel c m b k,
      record {
        monitored = ground arith;
        woken = ground arith;
        bounded = ground arith;
        closed_once = ground arith;
      },
      record {
        monitored = ground arith;
        woken = ground arith;
        bounded = ground arith;
        closed_once = ground arith;
      },
    )
