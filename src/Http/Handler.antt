-- ===== src/Http/Handler.antt =====
-- The handler of a request, src/http/Handler.cpp.
pub mod Authentication
pub mod Settling
pub mod Upgrade
use eventhub.Prelude.{
  ℕ, Bool, true, false, not, ◌&&◌, ◌||◌, List, [], ◌∷◌, ◌++◌, Option, none, some, ◌==◌,
  if◌then◌else◌, is_empty, Bytes, bytes_eq, codes, decimal, str_to_lower,
}
use eventhub.Util.{uri_decode}
use eventhub.AccessController.{AccessController, authenticate}
use eventhub.Connection.{ConnectionState, shutdown, set_state}
use eventhub.Metrics.{render_json, render_prometheus}
use eventhub.Redis.Server.{Run}
use eventhub.Http.Parser.{Parser, RequestState, get_header, get_query_string}
use eventhub.Http.Response.{
  Response, new_response, get_status_msg, set_status, set_header, set_body, get,
}
use eventhub.Http.Context.{HttpContext, Session, on_connection, send_text, answer}
use eventhub.Sse as Sse

unfoldable pub set_cors_headers : Parser → Response → Response
unfolding get_header set_header
set_cors_headers req resp =
    let origin = get_header (codes "Origin") req in
    set_header (codes "Access-Control-Allow-Origin") (if is_empty origin then codes "*" else origin)
      resp

-- `WS_MAGIC_STRING` of include/Common.hpp
abbrev pub ws_magic_string : Bytes
ws_magic_string = codes "258EAFA5-E914-47DA-95CA-C5AB0DC85B11"

-- The token of the request; none is the answer that there is none.
unfoldable pub auth_token : Bool → Parser → Option Bytes
unfolding get_header get_query_string uri_decode
auth_token disable_auth req =
    if not (is_empty (get_header (codes "authorization") req))
    then some (get_header (codes "authorization") req)
    else if not (is_empty (get_query_string (codes "auth") req))
    then some (uri_decode (get_query_string (codes "auth") req))
    else if not disable_auth
    then none
    else some []

unfoldable pub options_response : Parser → Response
unfolding set_cors_headers set_header new_response
options_response req = set_header (codes "Connection") (codes "close") (
    set_header (codes "Access-Control-Allow-Methods") (codes "GET, OPTIONS")
      (set_cors_headers req (new_response 204 [])))

unfoldable pub not_allowed_response : Response
unfolding set_header new_response
not_allowed_response =
    set_header (codes "Connection") (codes "close")
      (new_response 405 (codes "<h1>405 Method not allowed</h1>\r\n"))

unfoldable pub health_response : Parser → Response
unfolding set_body set_header set_cors_headers new_response
health_response req = set_body (codes "{ \"status\": \"ok\" }\r\n") (
    set_header (codes "Connection") (codes "close") (
      set_header (codes "Content-Type") (codes "application/json")
        (set_cors_headers req (new_response 200 []))))

-- The response of `_badRequest`.
unfoldable pub bad_response : Bytes → ℕ → Response
unfolding set_body set_header set_status get_status_msg new_response
bad_response reason status_code =
    set_body
      (codes "<h1>"
        ++ decimal status_code
        ++ codes " "
        ++ get_status_msg status_code
        ++ codes "</h1>\n"
        ++ reason
        ++ codes "\r\n")
      (set_header (codes "connection") (codes "close")
        (set_status status_code (new_response 200 [])))

module _ {S : Type 0} where
  unfoldable pub bad_request : HttpContext S → Bytes → ℕ → Session S → Session S
  unfolding answer bad_response
  bad_request ctx reason status_code = answer ctx (bad_response reason status_code)

  unfoldable pub metrics_response : HttpContext S → Parser → Response
  unfolding get_query_string set_body set_header set_cors_headers new_response render_json
      render_prometheus
  metrics_response ctx req =
      let resp =
        set_header (codes "Connection") (codes "close")
          (set_cors_headers req (new_response 200 [])) in
      if bytes_eq (get_query_string (codes "format") req) (codes "json")
      then set_body (render_json ctx.dump_metrics ctx.metrics)
          (set_header (codes "Content-Type") (codes "application/json") resp)
      else set_body
          (render_prometheus ctx.prometheus_metric_prefix ctx.hostname ctx.listen_port ctx.metrics)
          (set_header (codes "Content-Type") (codes "text/plain") resp)

  -- `Response resp` of the handshake, and with the protocol.
  unfoldable pub upgrade_response : HttpContext S → Parser → Response
  unfolding get_header set_header set_status new_response
  upgrade_response ctx req =
      set_header (codes "sec-websocket-accept")
        (ctx.sha1_base64 (get_header (codes "sec-websocket-key") req ++ ws_magic_string))
        (set_header (codes "connection") (codes "upgrade")
          (set_header (codes "upgrade") (codes "websocket") (set_status 101 (new_response 200 []))))

  unfoldable pub handshake_response : HttpContext S → Parser → Response
  unfolding get_header set_header upgrade_response
  handshake_response ctx req =
      let protocol = get_header (codes "Sec-WebSocket-Protocol") req in
      if not (is_empty protocol)
      then set_header (codes "Sec-WebSocket-Protocol") protocol (upgrade_response ctx req)
      else upgrade_response ctx req

  unfoldable pub websocket_handshake : HttpContext S → Parser → Session S → Session S
  unfolding bad_request handshake_response send_text set_state get_header get
  websocket_handshake ctx req s =
      if not (bytes_eq (get_header (codes "upgrade") req) (codes "websocket"))
        || is_empty (get_header (codes "sec-websocket-key") req)
      then bad_request ctx (codes "Invalid websocket request.") 400 s
      else on_connection (set_state ConnectionState.websocket)
          (send_text ctx (get (handshake_response ctx req)) s)

  -- What an authenticated request asks for.
  unfoldable pub serve : HttpContext S → Parser → Run (Session S) (Unit {0})
  unfolding get_header bad_request websocket_handshake Sse.handle_request
  serve ctx req s =
      if bytes_eq (get_header (codes "accept") req) (codes "text/event-stream")
      then if not ctx.enable_sse
        then (some tt, bad_request ctx (codes "SSE is not enabled in this setup.") 501 s)
        else Sse.handle_request ctx req s
      else if bytes_eq (get_header (codes "upgrade") req) (codes "websocket")
      then (some tt, websocket_handshake ctx req s)
      else (some tt, bad_request ctx (codes "Invalid request.") 400 s)

  unfoldable pub authorize : HttpContext S → Parser → Run (Session S) (Unit {0})
  unfolding auth_token authenticate bad_request serve
  authorize ctx req s = elim (auth_token ctx.disable_auth req) [
    | none ↦ (some tt, bad_request ctx (codes "No authentication token was given.") 401 s)
    | some token ↦
        (let (ok, ac) =
            authenticate ctx.disable_auth ctx.decode s.access_controller token ctx.jwt_secret in
          let s' = record s { access_controller = ac } in
          if not ok
          then (some tt, bad_request ctx (codes "Authentication failed.") 401 s')
          else serve ctx req s')
  ]

  unfoldable pub handle_path : HttpContext S → Parser → Run (Session S) (Unit {0})
  unfolding str_to_lower answer options_response not_allowed_response health_response
      metrics_response authorize
  handle_path ctx req s =
      let method = str_to_lower req.method in
      if bytes_eq method (codes "options")
      then (some tt, answer ctx (options_response req) s)
      else if not (bytes_eq method (codes "get"))
      then (some tt, answer ctx not_allowed_response s)
      else if bytes_eq req.path (codes "/healthz")
      then (some tt, answer ctx (health_response req) s)
      else if bytes_eq req.path (codes "/metrics") || bytes_eq req.path (codes "/metrics/")
      then (some tt, answer ctx (metrics_response ctx req) s)
      else authorize ctx req s

  unfoldable pub handle_request : HttpContext S → Parser → RequestState → Run (Session S) (Unit {0})
  unfolding handle_path shutdown
  handle_request ctx req RequestState.req_incomplete s = (some tt, s)
  handle_request ctx req RequestState.req_to_big s = (some tt, on_connection shutdown s)
  handle_request ctx req RequestState.req_ok s = handle_path ctx req s
  handle_request ctx req RequestState.req_failed s = (some tt, on_connection shutdown s)
