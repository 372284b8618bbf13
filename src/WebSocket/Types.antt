-- ===== src/WebSocket/Types.antt =====
-- include/websocket/Types.hpp and the limits of include/Common.hpp.
use eventhub.Prelude.{ℕ, ◌*◌, ◌^◌, ◌==◌, if◌then◌else◌, Bytes}

-- `enum class FrameType : uint8_t`; a value that no enumerator names is `unnamed`.
pub data FrameType : Type 0 where
  continuation_frame text_frame binary_frame close_frame ping_frame pong_frame : FrameType
  unnamed : ℕ → FrameType

-- `(FrameType)opcode`
unfoldable pub to_frame_type : ℕ → FrameType
to_frame_type n =
    if n == 0x0
    then continuation_frame
    else if n == 0x1
    then text_frame
    else if n == 0x2
    then binary_frame
    else if n == 0x8
    then close_frame
    else if n == 0x9
    then ping_frame
    else if n == 0xA
    then pong_frame
    else unnamed n

-- `(uint8_t)frameType`
unfoldable pub frame_code : FrameType → ℕ
frame_code continuation_frame = 0x0
frame_code text_frame = 0x1
frame_code binary_frame = 0x2
frame_code close_frame = 0x8
frame_code ping_frame = 0x9
frame_code pong_frame = 0xA
frame_code (unnamed n) = n

pub data ParserStatus : Type 0 where
  parser_ok max_data_frame_size_exceeded max_control_frame_size_exceeded : ParserStatus

-- One call of a `ParserCallback`.
pub record Delivery : Type 0 where
  pub status : ParserStatus
  pub frame_type : FrameType
  pub payload : Bytes

abbrev pub max_data_frame_size : ℕ
max_data_frame_size = (1024 * 1000) * 8

abbrev pub ws_max_control_frame_size : ℕ
ws_max_control_frame_size = 1024

abbrev pub ws_max_chunk_size : ℕ
ws_max_chunk_size = 2 ^ 15
