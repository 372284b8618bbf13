-- ===== src/WebSocket/Cuts.antt =====
-- `websocket::Parser` of src/websocket/Parser.cpp, and where the reads from a socket cut the stream.
use eventhub.Prelude.{
  ℕ, ◌≡◌, refl, sym, ap, ◌∙◌, Bool, true, false, List, [], ◌∷◌, ◌++◌, append_assoc, append-nil,
  Option, none, some, some-eq, if◌then◌else◌, if_false, ltb, length, Bytes, arith, Bool-cases, inl,
  inr,
}
use eventhub.WebSocket.Types.{
  ParserStatus, parser_ok, max_data_frame_size_exceeded, max_control_frame_size_exceeded, Delivery,
  max_data_frame_size, ws_max_control_frame_size,
}
use eventhub.WebSocket.FrameParser.{WsParser, Status, ws_ok, Callbacks, ws_parser_execute}
use eventhub.WebSocket.FrameParser.Feeding.{IsReady, IsChunked, feed}
use eventhub.WebSocket.FrameParser.Loop.{ws_parser_execute-feed, ws_parser_execute-append}
use eventhub.WebSocket.Simulation.{Simulates, view_option, ws_parser_execute-view}
use eventhub.WebSocket.MessageParser.{
  Parser, append_data_payload, append_control_payload, parser_on_data_begin, parser_on_data_payload,
  parser_on_data_end, parser_on_control_begin, parser_on_control_payload, parser_on_control_end,
  parser_callbacks, callback, after_execute, parse,
}

-- A message, and not the report of one that is too large.
abbrev pub is_message : ParserStatus → Bool
is_message parser_ok = true
is_message max_data_frame_size_exceeded = false
is_message max_control_frame_size_exceeded = false

abbrev pub messages : List Delivery → List Delivery
messages [] = []
messages (d ∷ deliveries) =
    if is_message d.status then d ∷ messages deliveries else messages deliveries

-- The parser without the reports that it has made.
abbrev pub without_reports : Parser → Parser
without_reports obj = record obj { delivered = messages obj.delivered }

-- The callbacks that report nothing.
abbrev silent : Callbacks Parser
silent = record {
  on_data_begin = parser_on_data_begin;
  on_data_payload = λ obj xs. (record obj { data_payload_buf = obj.data_payload_buf ++ xs }, 0);
  on_data_end = parser_on_data_end;
  on_control_begin = parser_on_control_begin;
  on_control_payload =
      λ obj xs. (record obj { control_payload_buf = obj.control_payload_buf ++ xs }, 0);
  on_control_end = parser_on_control_end;
}

silent-IsChunked : IsChunked silent
silent-IsChunked = record {
  data_rc = λ d xs. refl;
  control_rc = λ d xs. refl;
  data_append = λ obj xs ys.
      ap (λ b. record obj { data_payload_buf = b }) (sym (append_assoc obj.data_payload_buf xs ys));
  control_append = λ obj xs ys.
      ap (λ b. record obj { control_payload_buf = b })
        (sym (append_assoc obj.control_payload_buf xs ys));
}

messages-append : (xs ys : List Delivery) → messages (xs ++ ys) ≡ messages xs ++ messages ys
messages-append [] ys = refl
messages-append (d ∷ xs) ys = elim (Bool-cases (is_message d.status)) [
  | inl e ↦ rw e (ap (◌∷◌ d) (messages-append xs ys))
  | inr e ↦ rw e (messages-append xs ys)
]

-- A report, made or not, is not seen.
unreported :
    (b : Bool) (obj : Parser) (d : Delivery)
    → is_message d.status ≡ false
    → ◌≡◌ {A = Parser × ℕ}
        (without_reports obj, 0)
        (without_reports (if b then record obj { delivered = obj.delivered ++ d ∷ [] } else obj), 0)
unreported false obj d h = refl
unreported true obj d h =
    ap (λ ds. (record obj { delivered = ds }, 0))
      (sym (append-nil (messages obj.delivered))
        ∙ ap (λ ds. messages obj.delivered ++ ds)
            (sym (if_false (λ z. z ≡ []) (is_message d.status) (d ∷ []) [] h refl))
        ∙ sym (messages-append obj.delivered (d ∷ [])))

data_payload-silent :
    (obj : Parser) (xs : Bytes)
    → silent.on_data_payload (without_reports obj) xs
      ≡ (without_reports (parser_on_data_payload obj xs).0, (parser_on_data_payload obj xs).1)
unfolding parser_on_data_payload append_data_payload callback
data_payload-silent obj xs =
    unreported (ltb max_data_frame_size (length (obj.data_payload_buf ++ xs)))
      (record obj { data_payload_buf = obj.data_payload_buf ++ xs })
      (record {
        status = max_data_frame_size_exceeded;
        frame_type = obj.data_frame_type;
        payload = obj.data_payload_buf ++ xs;
      })
      refl

control_payload-silent :
    (obj : Parser) (xs : Bytes)
    → silent.on_control_payload (without_reports obj) xs
      ≡ (without_reports (parser_on_control_payload obj xs).0, (parser_on_control_payload obj xs).1)
unfolding parser_on_control_payload append_control_payload callback
control_payload-silent obj xs =
    unreported (ltb ws_max_control_frame_size (length (obj.control_payload_buf ++ xs)))
      (record obj { control_payload_buf = obj.control_payload_buf ++ xs })
      (record {
        status = max_control_frame_size_exceeded;
        frame_type = obj.control_frame_type;
        payload = obj.data_payload_buf;
      })
      refl

silent-Simulates : Simulates parser_callbacks silent without_reports
unfolding parser_on_data_begin parser_on_data_end parser_on_control_begin parser_on_control_end
    callback
silent-Simulates = record {
  data_begin = λ obj t. refl;
  data_payload = data_payload-silent;
  data_end =
      λ obj. ap (λ ds. (record obj { delivered = ds }, 0)) (sym (messages-append obj.delivered _));
  control_begin = λ obj t. refl;
  control_payload = control_payload-silent;
  control_end =
      λ obj. ap (λ ds. (record obj { delivered = ds }, 0)) (sym (messages-append obj.delivered _));
}

-- Both end, and agree but for the reports of `websocket::Parser`.
abbrev pub EndAlike : Option (WsParser × Parser) → Option (WsParser × Parser) → Type 0
EndAlike x y =
    (a : WsParser × Parser) × (b : WsParser × Parser) × (x ≡ some a)
    × (y ≡ some b)
    × (a.0 ≡ b.0)
    × (without_reports a.1 ≡ without_reports b.1)

abbrev view : Option (Status × WsParser × Parser) → Option (Status × WsParser × Parser)
view = view_option parser_callbacks silent without_reports silent-Simulates

after_execute-EndAlike :
    (x y : Option (Status × WsParser × Parser)) (r : Status × WsParser × Parser)
    → view x ≡ view y
    → view y ≡ some r
    → EndAlike (after_execute x) (after_execute y)
unfolding after_execute
after_execute-EndAlike none none r e f = absurd (ground arith)
after_execute-EndAlike none (some b) r e f = absurd (ground arith)
after_execute-EndAlike (some a) none r e f = absurd (ground arith)
after_execute-EndAlike (some a) (some b) r e f =
    ((a.1, a.2), (b.1, b.2), refl, refl, ap (λ z. z.1) (some-eq e), ap (λ z. z.2) (some-eq e))

-- Where the reads from the socket cut the stream makes no difference to the messages, as long as what
-- was read holds no error: reading `xs` and then `ys` ends, as reading them at once does, with the
-- same state of the frame parser and of `websocket::Parser`, less the calls of the callback that
-- report a message or a control frame that is too large.
pub parse-EndAlike :
    (ws ws' : WsParser) (obj obj' : Parser) (xs ys : Bytes)
    → IsReady ws
    → ws_parser_execute parser_callbacks ws obj xs ≡ some (ws_ok, ws', obj')
    → EndAlike (parse (ws, obj) (xs ++ ys)) (parse (ws', obj') ys)
unfolding parse
parse-EndAlike ws ws' obj obj' xs ys r e =
    let seen = λ (p : WsParser) (o : Parser) (s : Bytes).
      ws_parser_execute-view parser_callbacks silent without_reports silent-Simulates p o s in
    let (r', k) =
      ws_parser_execute-append silent silent-IsChunked ws ws' (without_reports obj)
        (without_reports obj') xs ys r (seen ws obj xs ∙ ap view e) in
    after_execute-EndAlike (ws_parser_execute parser_callbacks ws obj (xs ++ ys))
      (ws_parser_execute parser_callbacks ws' obj' ys) (feed silent ws' (without_reports obj') ys)
      (sym (seen ws obj (xs ++ ys)) ∙ k ∙ seen ws' obj' ys)
      (sym (seen ws' obj' ys)
        ∙ ws_parser_execute-feed silent silent-IsChunked ws' (without_reports obj') ys r')
