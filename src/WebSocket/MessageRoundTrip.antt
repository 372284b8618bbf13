-- ===== src/WebSocket/MessageRoundTrip.antt =====
-- What a client with this parser gets of `sendData`, src/websocket/Response.cpp: the message, once.
use eventhub.Prelude.{
  ℕ, zero, suc, ◌+◌, ◌-◌, ◌*◌, ◌/◌, ◌%◌, ◌≤◌, ◌<◌, ◌≡◌, ◌≢◌, some, refl, sym, ap, ◌∙◌, subst, [],
  ◌∷◌, ◌++◌, true, false, ltb, Bytes, length, take, arith, append-nil, length-take, concat, ◌⊎◌,
  inl, inr, Bool-cases, ltb→lt,
}
use eventhub.WebSocket.Types.{
  FrameType, text_frame, binary_frame, frame_code, to_frame_type, parser_ok, max_data_frame_size,
  ws_max_chunk_size,
}
use eventhub.WebSocket.FrameParser.{WsParser, ws_ok, s_opcode, ws_parser_execute}
use eventhub.WebSocket.MessageParser.{Parser, callback, parse, after_execute}
use eventhub.WebSocket.Response.{send_fragment, send_chunks, send_data}
use eventhub.WebSocket.FrameRoundTrip.{run, between, begun, received, read_first}
use eventhub.WebSocket.ChunkRoundTrip.{
  message, Reads, Reads-then, Reads-last, completed, read_chunks, send_chunks-more,
}

-- The message types that are not control frames.
abbrev pub IsDataType : FrameType → Type 0
IsDataType t = (t ≡ text_frame) ⊎ (t ≡ binary_frame)

data_code : (t : FrameType) → IsDataType t → (frame_code t ≡ 1) ⊎ (frame_code t ≡ 2)
unfolding frame_code
data_code t (inl e) = inl (ap frame_code e)
data_code t (inr e) = inr (ap frame_code e)

to_frame_type-frame_code : (t : FrameType) → IsDataType t → to_frame_type (frame_code t) ≡ t
unfolding frame_code to_frame_type
to_frame_type-frame_code t (inl e) = rw e
to_frame_type-frame_code t (inr e) = rw e

-- The receiver's object when the message is complete.
arrived : Parser → FrameType → Bytes → Parser
arrived d t text = record d {
  data_payload_buf = text;
  data_frame_type = t;
  delivered = d.delivered ++ message t text ∷ [];
}

received-begun :
    (d : Parser) (t : FrameType) (text : Bytes)
    → IsDataType t
    → received true (begun d (frame_code t)) text ≡ arrived d t text
unfolding received begun arrived callback
received-begun d t text h =
    ap
      (λ u. record d {
        data_payload_buf = text;
        data_frame_type = u;
        delivered = d.delivered ++ message u text ∷ [];
      })
      (to_frame_type-frame_code t h)

read_whole :
    (p : WsParser) (d : Parser) (junk text : Bytes) (t : FrameType)
    → p.state ≡ s_opcode
    → IsDataType t
    → length text < 0xFFFF
    → Reads p d (concat (send_fragment junk text (frame_code t) true ∷ [])) (arrived d t text)
read_whole p d junk text t e h small =
    Reads-last p (between p true false) d (arrived d t text)
      (send_fragment junk text (frame_code t) true) refl
      λ rest.
        read_first p d junk text rest (frame_code t) true e (data_code t h) small (omega arith)
        ∙ ap (λ x. run (between p true false) x rest) (received-begun d t text h)

send_chunks-one :
    (junk text : Bytes) (t : FrameType)
    → send_chunks junk text t 0 1 ≡ send_fragment junk text (frame_code t) true ∷ []
unfolding send_chunks
send_chunks-one junk text t = refl

completed-begun :
    (d : Parser) (t : FrameType) (chunk text : Bytes)
    → IsDataType t
    → completed (received false (begun d (frame_code t)) chunk) text ≡ arrived d t text
unfolding completed received begun arrived
completed-begun d t chunk text h =
    ap
      (λ u. record d {
        data_payload_buf = text;
        data_frame_type = u;
        delivered = d.delivered ++ message u text ∷ [];
      })
      (to_frame_type-frame_code t h)

buffer-begun :
    (d : Parser) (op : ℕ) (chunk : Bytes)
    → (received false (begun d op) chunk).data_payload_buf ≡ chunk
unfolding received begun
buffer-begun d op chunk = refl

read_split :
    (left : ℕ) (p : WsParser) (d : Parser) (junk text : Bytes) (t : FrameType)
    → p.state ≡ s_opcode
    → IsDataType t
    → suc left * ws_max_chunk_size ≤ length text
    → length text < suc left * ws_max_chunk_size + 32767
    → length text ≤ max_data_frame_size
    → Reads p d (concat (send_chunks junk text t 0 (suc left))) (arrived d t text)
read_split zero p d junk text t e h lo hi k =
    subst (λ l. Reads p d (concat l) (arrived d t text)) (sym (send_chunks-one junk text t))
      (read_whole p d junk text t e h (omega arith))
read_split (suc left) p d junk text t e h lo hi k =
    let chunk = take ws_max_chunk_size text in
    let d' = received false (begun d (frame_code t)) chunk in
    let q = between p false true in
    let rest_read =
      read_chunks left 0 q d' junk text t refl refl (buffer-begun d (frame_code t) chunk)
        (omega arith) (omega arith) k in
    subst (λ l. Reads p d (concat l) (arrived d t text)) (sym (send_chunks-more junk text t 0 left))
      (Reads-then p q d d' (arrived d t text) (send_fragment junk chunk (frame_code t) false) _
        (λ rest.
          read_first p d junk chunk rest (frame_code t) false e (data_code t h)
            (omega (arith, length-take ws_max_chunk_size text))
            (omega (arith, length-take ws_max_chunk_size text)))
        (subst (Reads q d' _) (completed-begun d t chunk text h) rest_read))

-- No chunk of the message has 65535 bytes, the size for which `_sendFragment` writes a broken header.
abbrev pub HasNoBrokenChunk : Bytes → Type 0
HasNoBrokenChunk text =
    (length text < ws_max_chunk_size) ⊎ (length text % ws_max_chunk_size ≢ 32767)

read_data :
    (p : WsParser) (d : Parser) (junk text : Bytes) (t : FrameType)
    → p.state ≡ s_opcode
    → IsDataType t
    → length text ≤ max_data_frame_size
    → HasNoBrokenChunk text
    → Reads p d (concat (send_data junk text t)) (arrived d t text)
unfolding send_data
read_data p d junk text t e h k whole = elim (Bool-cases (ltb (length text) ws_max_chunk_size)) [
  | inl small ↦
      rw (small, send_data)
        (read_whole p d junk text t e h
          (omega (arith, ltb→lt (length text) ws_max_chunk_size small)))
  | inr large ↦
      let n = length text / ws_max_chunk_size in
      let many : n ≡ suc (n - 1) = ground arith in
      rw (large, send_data)
        (subst (λ m. Reads p d (concat (send_chunks junk text t 0 m)) (arrived d t text)) (sym many)
          (read_split (n - 1) p d junk text t e h (ground arith) (ground arith) k))
]

run-nil : (p : WsParser) (d : Parser) → run p d [] ≡ some (ws_ok, p, d)
unfolding ws_parser_execute
run-nil p d = refl

-- A message of type text or binary, of at most `MAX_DATA_FRAME_SIZE` bytes, sent by `sendData`, in
-- one frame or in chunks, and read by `websocket::Parser` from a state between two frames, is
-- handed to the callback once, whole and with its type, and nothing else is; the parser is between
-- two frames again. Messages with a chunk of 65535 bytes are excepted.
pub parse-send_data :
    (ws : WsParser) (obj : Parser) (junk text : Bytes) (t : FrameType)
    → ws.state ≡ s_opcode
    → IsDataType t
    → length text ≤ max_data_frame_size
    → HasNoBrokenChunk text
    → (ws' : WsParser) × (obj' : Parser) × (parse (ws, obj) (concat (send_data junk text t))
        ≡ some (ws', obj'))
      × (ws'.state ≡ s_opcode)
      × (obj'.delivered
          ≡ obj.delivered ++ record { status = parser_ok; frame_type = t; payload = text } ∷ [])
unfolding parse
parse-send_data ws obj junk text t e h k whole =
    let (ws', s, g) = read_data ws obj junk text t e h k whole in
    (
      ws',
      arrived obj t text,
      ap after_execute
          (ap (run ws obj) (sym (append-nil _)) ∙ g [] ∙ run-nil ws' (arrived obj t text)),
      s,
      unfold arrived in refl,
    )
