-- ===== src/Tests/WebSocketTests.antt =====
-- The websocket codec at inputs.
use eventhub.Prelude.{◌≡◌, refl, true, false, codes, ◌∷◌, [], ◌++◌, some, concat, inl, arith}
use eventhub.WebSocket.Types.{text_frame, continuation_frame, parser_ok, to_frame_type}
use eventhub.WebSocket.FrameParser.{s_opcode, s_length, WsParser, ws_parser_execute}
use eventhub.WebSocket.Cuts.{EndAlike, parse-EndAlike}
use eventhub.WebSocket.MessageParser.{Parser, parser_on_data_begin, parse}
use eventhub.WebSocket.Response.{send_data}
use eventhub.WebSocket.MessageRoundTrip.{parse-send_data}

abbrev new_ws : WsParser
new_ws = record {
  bytes_remaining = 0;
  mask_0 = 0;
  mask_1 = 0;
  mask_2 = 0;
  mask_3 = 0;
  fragment = false;
  fin = false;
  control = false;
  mask_flag = false;
  mask_pos = 0;
  state = s_opcode;
}

abbrev new_parser : Parser
new_parser = record {
  data_payload_buf = [];
  control_payload_buf = [];
  data_frame_type = continuation_frame;
  control_frame_type = continuation_frame;
  delivered = [];
}

parse-send_data_example :
    (ws' : WsParser) × (obj' : Parser) × (parse
        (new_ws, new_parser)
        (concat (send_data [] (codes "hello") text_frame))
      ≡ some (ws', obj'))
    × (ws'.state ≡ s_opcode)
    × (obj'.delivered
        ≡ []
          ++ record { status = parser_ok; frame_type = text_frame; payload = codes "hello" } ∷ [])
parse-send_data_example =
    parse-send_data new_ws new_parser [] (codes "hello") text_frame refl (inl refl) (omega arith)
      (inl (omega arith))

-- The first byte of a message by itself.
parse-EndAlike_example :
    EndAlike (parse (new_ws, new_parser) ((129 ∷ []) ++ (2 ∷ 104 ∷ 105 ∷ []))) (
      parse
        (
          record new_ws { fin = true; state = s_length },
          record new_parser { data_frame_type = text_frame },
        )
        (2 ∷ 104 ∷ 105 ∷ []))
unfolding ws_parser_execute parser_on_data_begin to_frame_type
parse-EndAlike_example =
    parse-EndAlike new_ws (record new_ws { fin = true; state = s_length }) new_parser
      (record new_parser { data_frame_type = text_frame }) (129 ∷ []) (2 ∷ 104 ∷ 105 ∷ []) tt refl
