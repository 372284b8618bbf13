-- ===== src/WebSocket/FrameRoundTrip.antt =====
-- What src/websocket/Response.cpp sends, read by src/websocket/ws_parser.cpp and Parser.cpp.
use eventhub.Prelude.{
  ℕ, ◌+◌, ◌*◌, ◌/◌, ◌%◌, ◌≤◌, ◌<◌, ◌≡◌, Option, refl, sym, ap, ap₂, ◌∙◌, subst, [], ◌∷◌, ◌++◌, Bool,
  true, false, not, if◌then◌else◌, ltb, Bytes, length, take, drop, arith, append-nil, append_assoc,
  Bool-cases, ltb→lt, ◌^◌, take-length-append, drop-length-append, length-append, ◌⊎◌, inl, inr,
}
use eventhub.WebSocket.Types.{to_frame_type, parser_ok, max_data_frame_size}
use eventhub.WebSocket.FrameParser.{
  WsParser, Status, s_opcode, s_length, s_length_16_0, s_length_16_1, s_payload, next, on_opcode,
  on_length, on_length_16_0, on_length_16_1, on_chunk, on_payload, on_state, ws_parser_execute,
}
use eventhub.WebSocket.FrameParser.Feeding.{Ready, IsReady}
use eventhub.WebSocket.FrameParser.Loop.{ws_parser_execute-next}
use eventhub.WebSocket.MessageParser.{
  Parser, callback, append_data_payload, parser_callbacks, parser_on_data_begin,
  parser_on_data_payload, parser_on_data_end,
}
use eventhub.WebSocket.Response.{send_fragment}

abbrev pub run : WsParser → Parser → Bytes → Option (Status × WsParser × Parser)
run = ws_parser_execute parser_callbacks

-- The bytes of a frame's header.
abbrev first_byte : ℕ → Bool → ℕ
first_byte op fin = (if fin then 128 else 0) + op % 16

unfoldable pub begun : Parser → ℕ → Parser
begun d op = record d { data_payload_buf = []; data_frame_type = to_frame_type op }

opcode_data :
    (p : WsParser) (d : Parser) (op : ℕ) (fin : Bool) (rest : Bytes)
    → (op ≡ 1) ⊎ (op ≡ 2)
    → on_opcode parser_callbacks p d (first_byte op fin) rest
      ≡ next
          (record p { fin = fin; control = false; fragment = not fin; state = s_length })
          (begun d op)
          rest
unfolding on_opcode parser_on_data_begin begun
opcode_data p d op true rest h = ground arith
opcode_data p d op false rest h = ground arith

opcode_continuation :
    (p : WsParser) (d : Parser) (fin : Bool) (rest : Bytes)
    → p.fragment ≡ true
    → on_opcode parser_callbacks p d (first_byte 0 fin) rest
      ≡ next (record p { fin = fin; control = false; state = s_length }) d rest
unfolding on_opcode
opcode_continuation p d true rest h = ground arith
opcode_continuation p d false rest h = ground arith

-- A frame's payload has been added, and the message is handed over if this was the last frame.
unfoldable pub received : Bool → Parser → Bytes → Parser
received fin d text =
    let d' = record d { data_payload_buf = d.data_payload_buf ++ text } in
    if fin then callback d' parser_ok d'.data_frame_type d'.data_payload_buf else d'

abbrev ended : WsParser → WsParser
ended p = record p { bytes_remaining = 0; state = s_opcode }

on_payload-chunk :
    (p : WsParser) (d : Parser) (chunk rest : Bytes)
    → p.bytes_remaining ≡ length chunk
    → on_payload parser_callbacks p d (chunk ++ rest) ≡ on_chunk parser_callbacks p d chunk rest
unfolding on_payload
on_payload-chunk p d chunk rest n =
    ap (λ k. on_chunk parser_callbacks p d (take k (chunk ++ rest)) (drop k (chunk ++ rest))) size
    ∙ ap₂ (on_chunk parser_callbacks p d) (take-length-append chunk rest)
        (drop-length-append chunk rest)
  where
    size :
        (if ltb p.bytes_remaining (length (chunk ++ rest))
          then p.bytes_remaining
          else length (chunk ++ rest))
        ≡ length chunk
    size = ground (arith, length-append chunk rest)

on_chunk-run :
    (p : WsParser) (d : Parser) (chunk rest : Bytes)
    → p.bytes_remaining ≡ length chunk
    → p.mask_flag ≡ false
    → p.control ≡ false
    → length (d.data_payload_buf ++ chunk) ≤ max_data_frame_size
    → on_chunk parser_callbacks p d chunk rest ≡ next (ended p) (received p.fin d chunk) rest
unfolding on_chunk received parser_on_data_payload append_data_payload parser_on_data_end
on_chunk-run p d chunk rest n m c h = ground arith

-- The parser that waits for the length byte of a data frame, and for `n` bytes of its payload.
abbrev awaiting : WsParser → WsParser
awaiting p = record p { control = false; state = s_length }

abbrev ready : WsParser → ℕ → WsParser
ready p n = record p {
  control = false;
  mask_flag = false;
  mask_pos = 0;
  bytes_remaining = n;
  state = s_payload;
}

size_bytes : ℕ → Bytes
size_bytes n = if ltb n 126 then n ∷ [] else 0x7E ∷ (n / 256) ∷ (n % 256) ∷ []

length_short :
    (p : WsParser) (d : Parser) (n : ℕ) (rest : Bytes)
    → 0 < n
    → n < 126
    → on_length parser_callbacks (awaiting p) d n rest ≡ next (ready p n) d rest
unfolding on_length
length_short p d n rest h k = ground arith

length_16 :
    (p : WsParser) (d : Parser) (rest : Bytes)
    → on_length parser_callbacks (awaiting p) d 0x7E rest
      ≡ next
          (record p { control = false; mask_flag = false; mask_pos = 0; state = s_length_16_0 })
          d
          rest
unfolding on_length
length_16 p d rest = refl

length_16_last :
    (p : WsParser) (d : Parser) (n : ℕ) (rest : Bytes)
    → p.mask_flag ≡ false
    → 126 ≤ n
    → on_length_16_1 parser_callbacks
        (record p { bytes_remaining = (n / 256) * 2 ^ 8; state = s_length_16_1 })
        d
        (n % 256)
        rest
      ≡ next (record p { bytes_remaining = n; state = s_payload }) d rest
unfolding on_length_16_1
length_16_last p d n rest m h = ground arith

read_length :
    (p : WsParser) (d : Parser) (n : ℕ) (rest : Bytes)
    → 0 < n
    → run (awaiting p) d (size_bytes n ++ rest) ≡ run (ready p n) d rest
unfolding size_bytes on_state on_length_16_0
read_length p d n rest h = elim (Bool-cases (ltb n 126)) [
  | inl e ↦
      rw (e, size_bytes)
        (ws_parser_execute-next parser_callbacks (awaiting p) (ready p n) d d n rest rest tt
          (length_short p d n rest h (ltb→lt n 126 e)))
  | inr e ↦
      let q = record p {
        control = false;
        mask_flag = false;
        mask_pos = 0;
        state = s_length_16_0;
      } in
      let q' = record q { bytes_remaining = (n / 256) * 2 ^ 8; state = s_length_16_1 } in
      rw (e, size_bytes)
        (ws_parser_execute-next parser_callbacks (awaiting p) q d d 0x7E _ _ tt (length_16 p d _)
          ∙ ws_parser_execute-next parser_callbacks q q' d d (n / 256) _ _ tt refl
          ∙ ws_parser_execute-next parser_callbacks q' (ready p n) d d (n % 256) rest rest tt
              (length_16_last q d n rest refl (ground arith)))
]

length_empty :
    (p : WsParser) (d : Parser) (rest : Bytes)
    → on_length parser_callbacks (awaiting p) d 0 rest
      ≡ next (ended (ready p 0)) (received p.fin d []) rest
unfolding on_length received parser_on_data_end
length_empty p d rest = ground (arith, append-nil d.data_payload_buf)

-- The rest of a data frame behind its first byte.
read_payload :
    (p : WsParser) (d : Parser) (text rest : Bytes)
    → length (d.data_payload_buf ++ text) ≤ max_data_frame_size
    → run (awaiting p) d (size_bytes (length text) ++ (text ++ rest))
      ≡ run (ended (ready p 0)) (received p.fin d text) rest
unfolding on_state
read_payload p d [] rest h =
    unfold size_bytes in
    ws_parser_execute-next parser_callbacks (awaiting p) (ended (ready p 0)) d (received p.fin d [])
      0 rest rest tt (length_empty p d rest)
read_payload p d (x ∷ xs) rest h =
    read_length p d (length (x ∷ xs)) (x ∷ (xs ++ rest)) (omega arith)
    ∙ ws_parser_execute-next parser_callbacks (ready p (length (x ∷ xs))) (ended (ready p 0)) d
        (received p.fin d (x ∷ xs)) x (xs ++ rest) rest (omega arith)
        (on_payload-chunk (ready p (length (x ∷ xs))) d (x ∷ xs) rest refl
          ∙ on_chunk-run (ready p (length (x ∷ xs))) d (x ∷ xs) rest refl refl refl h)

send_fragment-small :
    (junk text : Bytes) (op : ℕ) (fin : Bool)
    → length text < 0xFFFF
    → send_fragment junk text op fin ≡ first_byte op fin ∷ (size_bytes (length text) ++ text)
unfolding send_fragment size_bytes
send_fragment-small junk text op fin h = ground arith

-- The parser between two frames.
abbrev pub between : WsParser → Bool → Bool → WsParser
between p fin fragment = record p {
  fin = fin;
  fragment = fragment;
  control = false;
  mask_flag = false;
  mask_pos = 0;
  bytes_remaining = 0;
  state = s_opcode;
}

on_state-opcode :
    (p : WsParser) (d : Parser) (c : ℕ) (rest : Bytes)
    → p.state ≡ s_opcode
    → on_state parser_callbacks p.state p d c rest ≡ on_opcode parser_callbacks p d c rest
unfolding on_state
on_state-opcode p d c rest e = ap (λ s. on_state parser_callbacks s p d c rest) e

IsReady-opcode : (p : WsParser) → p.state ≡ s_opcode → IsReady p
IsReady-opcode p e = subst (λ s. Ready s p.bytes_remaining) (sym e) tt

-- One frame of `_sendFragment` that begins a message.
pub read_first :
    (p : WsParser) (d : Parser) (junk text rest : Bytes) (op : ℕ) (fin : Bool)
    → p.state ≡ s_opcode
    → (op ≡ 1) ⊎ (op ≡ 2)
    → length text < 0xFFFF
    → length text ≤ max_data_frame_size
    → run p d (send_fragment junk text op fin ++ rest)
      ≡ run (between p fin (not fin)) (received fin (begun d op) text) rest
unfolding begun
read_first p d junk text rest op fin e o h k =
    let p' = record p { fin = fin; fragment = not fin } in
    ap (λ b. run p d (b ++ rest)) (send_fragment-small junk text op fin h)
    ∙ ap (λ b. run p d (first_byte op fin ∷ b)) (append_assoc (size_bytes (length text)) text rest)
    ∙ ws_parser_execute-next parser_callbacks p (awaiting p') d (begun d op) (first_byte op fin) _ _
        (IsReady-opcode p e) (on_state-opcode p d _ _ e ∙ opcode_data p d op fin _ o)
    ∙ read_payload p' (begun d op) text rest k

-- One frame that goes on with a message.
pub read_more :
    (p : WsParser) (d : Parser) (junk text rest : Bytes) (fin : Bool)
    → p.state ≡ s_opcode
    → p.fragment ≡ true
    → length text < 0xFFFF
    → length (d.data_payload_buf ++ text) ≤ max_data_frame_size
    → run p d (send_fragment junk text 0 fin ++ rest)
      ≡ run (between p fin p.fragment) (received fin d text) rest
read_more p d junk text rest fin e f h k =
    let p' = record p { fin = fin } in
    ap (λ b. run p d (b ++ rest)) (send_fragment-small junk text 0 fin h)
    ∙ ap (λ b. run p d (first_byte 0 fin ∷ b)) (append_assoc (size_bytes (length text)) text rest)
    ∙ ws_parser_execute-next parser_callbacks p (awaiting p') d d (first_byte 0 fin) _ _
        (IsReady-opcode p e) (on_state-opcode p d _ _ e ∙ opcode_continuation p d fin _ f)
    ∙ read_payload p' d text rest k
