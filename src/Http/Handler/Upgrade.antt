-- ===== src/Http/Handler/Upgrade.antt =====
-- The handshake of a websocket, `_websocketHandshake` of src/http/Handler.cpp.
use eventhub.Prelude.{
  ◌+◌, Bool, false, not, ◌&&◌, [], ◌++◌, if◌then◌else◌, is_empty, Bytes, bytes_eq, codes,
}
use eventhub.Connection.{Connection, ConnectionState, write}
use eventhub.Http.Parser.{Parser, get_header}
use eventhub.Http.Context.{HttpContext, Session}

-- The answer to a request that becomes a websocket, with the accept value and what it says of a
-- protocol.
abbrev pub switching_protocols : Bytes → Bytes → Bytes
switching_protocols protocol_line accept_value =
    codes "HTTP/1.1 101 Switching Protocols\r\n"
    ++ protocol_line
    ++ codes "connection: upgrade\r\nsec-websocket-accept: "
    ++ accept_value
    ++ codes "\r\nupgrade: websocket\r\n\r\n"

abbrev pub protocol_line : Bytes → Bytes
protocol_line protocol =
    if is_empty protocol then [] else codes "Sec-WebSocket-Protocol: " ++ protocol ++ codes "\r\n"

-- The answer to a request that does not.
abbrev pub invalid_request : Bytes
invalid_request =
    codes
      "HTTP/1.1 400 Bad Request\r\nconnection: close\r\n\r\n<h1>400 Bad Request</h1>\nInvalid websocket request.\r\n"

module _ {S : Type 0} (ctx : HttpContext S) (req : Parser) where
  abbrev pub asks_for_websocket : Bool
  asks_for_websocket =
      bytes_eq (get_header (codes "upgrade") req) (codes "websocket")
      && not (is_empty (get_header (codes "sec-websocket-key") req))

  -- The value that the client expects for the key of its request.
  abbrev pub accept_value : Bytes
  accept_value =
      HttpContext.sha1_base64 ctx
        (get_header (codes "sec-websocket-key") req ++ codes "258EAFA5-E914-47DA-95CA-C5AB0DC85B11")

  -- The session after a text was written to the connection, and what else was done to that.
  abbrev pub after_text : Bytes → (Connection → Connection) → Session S → Session S
  after_text text f s = record s {
    connection = f (write (HttpContext.kernel ctx s.writes) text s.connection);
    writes = s.writes + 1;
  }

  -- The connection is a websocket's, and its parser of requests is gone.
  abbrev pub upgraded : Connection → Connection
  upgraded c = record c { has_http_parser = false; state = ConnectionState.websocket }
