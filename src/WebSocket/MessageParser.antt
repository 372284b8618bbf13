-- ===== src/WebSocket/MessageParser.antt =====
-- `websocket::Parser`, src/websocket/Parser.cpp and include/websocket/Parser.hpp: it collects the
-- payloads of the frame parser and calls `_callback` with whole messages. What it hands to the
-- callback is recorded in `delivered`, the oldest first. The frame parser's callbacks see all of the
-- object but `_ws_parser`, which is passed beside it.
use eventhub.Prelude.{ℕ, [], ◌∷◌, ◌++◌, List, if◌then◌else◌, ltb, Bytes, Option, none, some, length}
use eventhub.WebSocket.Types.{
  FrameType, to_frame_type, ParserStatus, parser_ok, max_data_frame_size_exceeded,
  max_control_frame_size_exceeded, Delivery, max_data_frame_size, ws_max_control_frame_size,
}
use eventhub.WebSocket.FrameParser.{WsParser, Status, Callbacks, ws_parser_execute}

pub record Parser : Type 0 where
  pub data_payload_buf : Bytes
  pub control_payload_buf : Bytes
  pub data_frame_type : FrameType
  pub control_frame_type : FrameType
  pub delivered : List Delivery

-- `callback`
unfoldable pub callback : Parser → ParserStatus → FrameType → Bytes → Parser
callback obj s t payload = record obj {
  delivered = obj.delivered ++ record { status = s; frame_type = t; payload = payload } ∷ [];
}

unfoldable pub append_data_payload : Parser → Bytes → Parser
unfolding callback
append_data_payload obj text =
    let obj' = record obj { data_payload_buf = obj.data_payload_buf ++ text } in
    if ltb max_data_frame_size (length obj'.data_payload_buf)
    then callback obj' max_data_frame_size_exceeded obj'.data_frame_type obj'.data_payload_buf
    else obj'

-- The callback is handed the data buffer, not the control buffer.
unfoldable pub append_control_payload : Parser → Bytes → Parser
unfolding callback
append_control_payload obj text =
    let obj' = record obj { control_payload_buf = obj.control_payload_buf ++ text } in
    if ltb ws_max_control_frame_size (length obj'.control_payload_buf)
    then callback obj' max_control_frame_size_exceeded obj'.control_frame_type obj'.data_payload_buf
    else obj'

unfoldable pub parser_on_data_begin : Parser → ℕ → Parser × ℕ
parser_on_data_begin obj frame_type =
    (record obj { data_payload_buf = []; data_frame_type = to_frame_type frame_type }, 0)

unfoldable pub parser_on_data_payload : Parser → Bytes → Parser × ℕ
unfolding append_data_payload
parser_on_data_payload obj buff = (append_data_payload obj buff, 0)

unfoldable pub parser_on_data_end : Parser → Parser × ℕ
unfolding callback
parser_on_data_end obj = (callback obj parser_ok obj.data_frame_type obj.data_payload_buf, 0)

unfoldable pub parser_on_control_begin : Parser → ℕ → Parser × ℕ
parser_on_control_begin obj frame_type =
    (record obj { control_payload_buf = []; control_frame_type = to_frame_type frame_type }, 0)

unfoldable pub parser_on_control_payload : Parser → Bytes → Parser × ℕ
unfolding append_control_payload
parser_on_control_payload obj buff = (append_control_payload obj buff, 0)

unfoldable pub parser_on_control_end : Parser → Parser × ℕ
unfolding callback
parser_on_control_end obj =
    (callback obj parser_ok obj.control_frame_type obj.control_payload_buf, 0)

-- `_ws_parser_callbacks`
abbrev pub parser_callbacks : Callbacks Parser
parser_callbacks = record {
  on_data_begin = parser_on_data_begin;
  on_data_payload = parser_on_data_payload;
  on_data_end = parser_on_data_end;
  on_control_begin = parser_on_control_begin;
  on_control_payload = parser_on_control_payload;
  on_control_end = parser_on_control_end;
}

unfoldable pub after_execute : Option (Status × WsParser × Parser) → Option (WsParser × Parser)
after_execute none = none
after_execute (some (s, ws, obj)) = some (ws, obj)

-- `parse`: the return code of `ws_parser_execute` is dropped. (`none`: out of fuel.)
unfoldable pub parse : WsParser × Parser → Bytes → Option (WsParser × Parser)
unfolding after_execute
parse (ws, obj) buf = after_execute (ws_parser_execute parser_callbacks ws obj buf)
