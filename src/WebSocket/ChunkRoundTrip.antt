-- ===== src/WebSocket/ChunkRoundTrip.antt =====
-- A message that src/websocket/Response.cpp sends, in one frame or in several, as
-- src/websocket/Parser.cpp reads it.
use eventhub.Prelude.{
  ℕ, zero, suc, ◌+◌, ◌*◌, ◌≤◌, ◌<◌, ◌≡◌, refl, sym, ap, ap₂, ◌∙◌, subst, List, [], ◌∷◌, ◌++◌, Bool,
  true, false, ◌==◌, if◌then◌else◌, Bytes, length, take, drop, arith, append-nil, append_assoc,
  length-take, length-drop, take-append-drop, take_add, concat,
}
use eventhub.WebSocket.Types.{
  FrameType, continuation_frame, frame_code, parser_ok, Delivery, max_data_frame_size,
  ws_max_chunk_size,
}
use eventhub.WebSocket.FrameParser.{WsParser, s_opcode}
use eventhub.WebSocket.MessageParser.{Parser, callback}
use eventhub.WebSocket.Response.{send_fragment, send_chunks}
use eventhub.WebSocket.FrameRoundTrip.{run, between, received, read_more}

abbrev pub message : FrameType → Bytes → Delivery
message t text = record { status = parser_ok; frame_type = t; payload = text }

-- Reading `bytes` in state `p` goes on, whatever follows, between two frames, with the data `d'`.
abbrev pub Reads : WsParser → Parser → Bytes → Parser → Type 0
Reads p d bytes d' =
    (p' : WsParser) × (p'.state ≡ s_opcode)
    × ((rest : Bytes) → run p d (bytes ++ rest) ≡ run p' d' rest)

unfoldable pub completed : Parser → Bytes → Parser
completed d text = record d {
  data_payload_buf = text;
  delivered = d.delivered ++ message d.data_frame_type text ∷ [];
}

received-last :
    (d : Parser) (a b text : Bytes)
    → d.data_payload_buf ≡ a
    → a ++ b ≡ text
    → received true d b ≡ completed d text
unfolding received completed callback
received-last d a b text e f = ap (λ t. completed d t) (ap (λ s. s ++ b) e ∙ f)

abbrev pub from_chunk : ℕ → Bytes → Bytes
from_chunk i text = drop (i * ws_max_chunk_size) text

-- A round of the loop, with the results of its tests and the next index.
abbrev pub chunk_round : Bytes → Bytes → FrameType → ℕ → ℕ → Bool → Bool → ℕ → List Bytes
chunk_round junk text t i left first last next =
    send_fragment junk
      (if last then from_chunk i text else take ws_max_chunk_size (from_chunk i text))
      (frame_code (if first then t else continuation_frame)) last
    ∷ send_chunks junk text t next left

send_chunks-round :
    (junk text : Bytes) (t : FrameType) (i left : ℕ)
    → send_chunks junk text t i (suc left)
      ≡ chunk_round junk text t i left (i == 0) (left == 0) (i + 1)
unfolding send_chunks
send_chunks-round junk text t i left = refl

not_zero : (n : ℕ) → (suc n == 0) ≡ false
not_zero n = ground arith

plus_one : (n : ℕ) → n + 1 ≡ suc n
plus_one n = omega arith

pub no_chunks : (junk text : Bytes) (t : FrameType) (i : ℕ) → send_chunks junk text t i 0 ≡ []
unfolding send_chunks
no_chunks junk text t i = refl

send_chunks-last :
    (junk text : Bytes) (t : FrameType) (i : ℕ)
    → send_chunks junk text t (suc i) 1
      ≡ send_fragment junk (from_chunk (suc i) text) (frame_code continuation_frame) true ∷ []
send_chunks-last junk text t i =
    send_chunks-round junk text t (suc i) 0
    ∙ ap (λ b. chunk_round junk text t (suc i) 0 b true (suc i + 1)) (not_zero i)
    ∙ ap (◌∷◌ (send_fragment junk (from_chunk (suc i) text) (frame_code continuation_frame) true))
        (no_chunks junk text t (suc i + 1))

pub send_chunks-more :
    (junk text : Bytes) (t : FrameType) (i left : ℕ)
    → send_chunks junk text t i (suc (suc left))
      ≡ chunk_round junk text t i (suc left) (i == 0) false (suc i)
send_chunks-more junk text t i left =
    send_chunks-round junk text t i (suc left)
    ∙ ap₂ (λ b k. chunk_round junk text t i (suc left) (i == 0) b k) (not_zero left) (plus_one i)

pub Reads-then :
    (p q : WsParser) (d e d' : Parser) (a b : Bytes)
    → ((rest : Bytes) → run p d (a ++ rest) ≡ run q e rest)
    → Reads q e b d'
    → Reads p d (a ++ b) d'
Reads-then p q d e d' a b step (p', s, g) =
    (p', s, λ rest. ap (run p d) (append_assoc a b rest) ∙ step (b ++ rest) ∙ g rest)

pub Reads-last :
    (p q : WsParser) (d d' : Parser) (a : Bytes)
    → q.state ≡ s_opcode
    → ((rest : Bytes) → run p d (a ++ rest) ≡ run q d' rest)
    → Reads p d (concat (a ∷ [])) d'
Reads-last p q d d' a s step =
    (q, s, λ rest. ap (λ l. run p d (l ++ rest)) (append-nil a) ∙ step rest)

completed-record :
    (d : Parser) (buf text : Bytes)
    → completed (record d { data_payload_buf = buf }) text ≡ completed d text
unfolding completed
completed-record d buf text = refl

received-more :
    (d : Parser) (text : Bytes)
    → received false d text ≡ record d { data_payload_buf = d.data_payload_buf ++ text }
unfolding received
received-more d text = refl

-- The chunks behind the first, when the first `i` have been received.
pub read_chunks :
    (left i : ℕ) (p : WsParser) (d : Parser) (junk text : Bytes) (t : FrameType)
    → p.state ≡ s_opcode
    → p.fragment ≡ true
    → d.data_payload_buf ≡ take (suc i * ws_max_chunk_size) text
    → (suc i + suc left) * ws_max_chunk_size ≤ length text
    → length text < (suc i + suc left) * ws_max_chunk_size + 32767
    → length text ≤ max_data_frame_size
    → Reads p d (concat (send_chunks junk text t (suc i) (suc left))) (completed d text)
unfolding frame_code
read_chunks zero i p d junk text t e f b lo hi k =
    let n = suc i * ws_max_chunk_size in
    let chunk = drop n text in
    let whole : d.data_payload_buf ++ chunk ≡ text =
      ap (λ s. s ++ chunk) b ∙ take-append-drop n text in
    subst (λ l. Reads p d (concat l) (completed d text)) (sym (send_chunks-last junk text t i))
      (Reads-last p (between p true p.fragment) d (completed d text)
        (send_fragment junk chunk (frame_code continuation_frame) true) refl
        λ rest.
          read_more p d junk chunk rest true e f (omega (arith, length-drop n text))
            (omega (arith, ap length whole))
          ∙ ap (λ x. run (between p true p.fragment) x rest)
              (received-last d (take n text) chunk text b (take-append-drop n text)))
read_chunks (suc left) i p d junk text t e f b lo hi k =
    let n = suc i * ws_max_chunk_size in
    let chunk = take ws_max_chunk_size (drop n text) in
    let d' = record d { data_payload_buf = d.data_payload_buf ++ chunk } in
    let grown : d.data_payload_buf ++ chunk ≡ take (n + ws_max_chunk_size) text =
      ap (λ s. s ++ chunk) b ∙ sym (take_add n ws_max_chunk_size text) in
    let step : n + ws_max_chunk_size ≡ suc (suc i) * ws_max_chunk_size = omega arith in
    let rest_read =
      read_chunks left (suc i) (between p false p.fragment) d' junk text t refl f
        (grown ∙ ap (λ m. take m text) step) (omega arith) (omega arith) k in
    subst (λ l. Reads p d (concat l) (completed d text))
      (sym (
        send_chunks-more junk text t (suc i) left
        ∙ ap (λ b. chunk_round junk text t (suc i) (suc left) b false (suc (suc i))) (not_zero i)))
      (Reads-then p (between p false p.fragment) d d' (completed d text)
        (send_fragment junk chunk (frame_code continuation_frame) false) _
        (λ rest.
          read_more p d junk chunk rest false e f
            (omega (arith, length-take ws_max_chunk_size (drop n text)))
            (omega (arith, ap length grown, length-take (n + ws_max_chunk_size) text))
          ∙ ap (λ x. run (between p false p.fragment) x rest) (received-more d chunk))
        (subst (Reads (between p false p.fragment) d' _)
          (completed-record d (d.data_payload_buf ++ chunk) text) rest_read))
