-- ===== src/WebSocket/Response.antt =====
-- `websocket::Response`, src/websocket/Response.cpp: a message becomes frames, each given to
-- `Connection::write` by itself. A function here returns the texts of these writes in order.
use eventhub.Prelude.{
  ℕ, zero, suc, ◌+◌, ◌*◌, ◌/◌, ◌%◌, List, [], ◌∷◌, ◌++◌, Bool, true, ◌==◌, if◌then◌else◌, ltb,
  Bytes, length, take, drop,
}
use eventhub.WebSocket.Types.{FrameType, continuation_frame, frame_code, ws_max_chunk_size}

-- `_sendFragment`. In the last branch `htonl` of a 16-bit size is cut to its low 16 bits, which are
-- 0 on a little-endian machine, and the four bytes behind them, `junk`, were never written.
unfoldable pub send_fragment : Bytes → Bytes → ℕ → Bool → Bytes
send_fragment junk fragment frame_type fin =
    let size = length fragment in
    let first = (if fin then 128 else 0) + frame_type % 16 in
    if ltb size 126
    then first ∷ size ∷ fragment
    else if ltb size 0xFFFF
    then first ∷ 0x7E ∷ (size / 256) ∷ (size % 256) ∷ fragment
    else first ∷ 0x7F ∷ 0 ∷ 0 ∷ (junk ++ fragment)

-- The loop of `sendData` from chunk `i`, with `left` chunks to go.
unfoldable pub send_chunks : Bytes → Bytes → FrameType → ℕ → ℕ → List Bytes
send_chunks junk text frame_type i zero = []
send_chunks junk text frame_type i (suc left) =
    let chunk_frame_type = frame_code (if i == 0 then frame_type else continuation_frame) in
    let last = left == 0 in
    let from = drop (i * ws_max_chunk_size) text in
    let chunk = if last then from else take ws_max_chunk_size from in
    send_fragment junk chunk chunk_frame_type last ∷ send_chunks junk text frame_type (i + 1) left

unfoldable pub send_data : Bytes → Bytes → FrameType → List Bytes
unfolding send_fragment send_chunks frame_code
send_data junk text frame_type =
    let size = length text in
    if ltb size ws_max_chunk_size
    then send_fragment junk text (frame_code frame_type) true ∷ []
    else send_chunks junk text frame_type 0 (size / ws_max_chunk_size)
