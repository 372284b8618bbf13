-- ===== src/Http/Handler/Settling.antt =====
-- No request of src/http/Handler.cpp is left without an end.
use eventhub.Prelude.{
  ℕ, ◌≡◌, ◌≢◌, refl, sym, ◌∙◌, subst, Bool, not, ◌||◌, [], ◌∷◌, Option, none, some, if◌then◌else◌,
  if_both, is_empty, Bytes, bytes_eq, codes, str_to_lower,
}
use eventhub.Connection.{ConnectionState, set_state}
use eventhub.AccessController.{AccessController, authenticate, allow_subscribe}
use eventhub.Topics.{is_valid_topic_or_filter}
use eventhub.Util.{uri_decode}
use eventhub.Http.Parser.{Parser, RequestState, get_header}
use eventhub.Http.Response.{get}
use eventhub.Http.Context.{HttpContext, Session, IsSettled, upgraded, send_text, on_connection}
use eventhub.Http.Handler.{
  auth_token, bad_response, bad_request, options_response, not_allowed_response, health_response,
  metrics_response, handshake_response, websocket_handshake, serve, authorize, handle_path,
  handle_request,
}
use eventhub.Http.Sending.{shutdown-IsSettled, answer-IsSettled, send_events_state}
use eventhub.Sse as Sse

IsUpgraded : ConnectionState → Type 0
IsUpgraded ConnectionState.http = ⊥
IsUpgraded ConnectionState.websocket = Unit {0}
IsUpgraded ConnectionState.sse = Unit {0}

upgraded_state : (state : ConnectionState) → IsUpgraded state → state ≢ ConnectionState.http
unfolding IsUpgraded
upgraded_state state u e = subst IsUpgraded e u

module _ {S : Type 0} (ctx : HttpContext S) where
  bad_request-IsSettled :
      (reason : Bytes) (code : ℕ) (s : Session S) → IsSettled (bad_request ctx reason code s)
  unfolding bad_request
  bad_request-IsSettled reason code s = answer-IsSettled ctx (bad_response reason code) s

  error-IsSettled :
      (message : Bytes) (code : ℕ) (s : Session S) → IsSettled (Sse.error ctx message code s)
  unfolding Sse.error
  error-IsSettled message code s = answer-IsSettled ctx (Sse.error_response ctx message code) s

  module _ (req : Parser) where
    -- The handler comes to an end with the request settled, or with the exception for an empty path.
    pub data IsDone (r : Option (Unit {0}) × Session S) : Type 0 where
      ended : r.0 ≡ some tt → IsSettled r.1 → IsDone r
      thrown : r.0 ≡ none → uri_decode req.path ≡ [] → IsDone r

    start_stream-IsSettled :
        (path : Bytes) (s : Session S) → IsSettled (Sse.start_stream ctx req path s)
    unfolding Sse.start_stream set_state IsUpgraded
    start_stream-IsSettled path s = upgraded (λ e. upgraded_state ConnectionState.sse tt (
        sym (
          send_events_state ctx
            (Sse.requested_cache ctx req path (Sse.last_event_id_of req)
              (Sse.ok ctx s).redis_state).0
            _)
        ∙ e))

    check_path-IsSettled :
        (path : Bytes) (s : Session S) → IsSettled (Sse.check_path ctx req path s)
    unfolding Sse.check_path
    check_path-IsSettled path s =
        if_both IsSettled (is_empty path || not (is_valid_topic_or_filter path))
          (Sse.error ctx (codes "Invalid topic requested.") 404 s)
          (if not (allow_subscribe ctx.disable_auth s.access_controller path)
            then Sse.error ctx (codes "Insufficient access.") 401 s
            else Sse.start_stream ctx req path s)
          (error-IsSettled (codes "Invalid topic requested.") 404 s)
          (if_both IsSettled (not (allow_subscribe ctx.disable_auth s.access_controller path))
            (Sse.error ctx (codes "Insufficient access.") 401 s) (Sse.start_stream ctx req path s)
            (error-IsSettled (codes "Insufficient access.") 401 s) (start_stream-IsSettled path s))

    sse-IsDone : (s : Session S) → IsDone (Sse.handle_request ctx req s)
    unfolding Sse.handle_request Sse.strip_slash
    sse-IsDone s = go (uri_decode req.path) refl
      where
        go :
            (path : Bytes)
            → uri_decode req.path ≡ path
            → IsDone (elim (Sse.strip_slash path) [
              | none ↦ (none, s)
              | some path ↦ (some tt, Sse.check_path ctx req path s)
            ])
        go [] e = thrown refl e
        go (c ∷ path) e = ended refl (check_path-IsSettled _ s)

    handshake-IsSettled : (s : Session S) → IsSettled (websocket_handshake ctx req s)
    unfolding websocket_handshake set_state IsUpgraded
    handshake-IsSettled s =
        if_both IsSettled
          (not (bytes_eq (get_header (codes "upgrade") req) (codes "websocket"))
            || is_empty (get_header (codes "sec-websocket-key") req))
          (bad_request ctx (codes "Invalid websocket request.") 400 s)
          (on_connection (set_state ConnectionState.websocket)
            (send_text ctx (get (handshake_response ctx req)) s))
          (bad_request-IsSettled (codes "Invalid websocket request.") 400 s)
          (upgraded (upgraded_state ConnectionState.websocket tt))

    serve-IsDone : (s : Session S) → IsDone (serve ctx req s)
    unfolding serve
    serve-IsDone s =
        if_both (IsDone) _ _ _
          (if_both (IsDone) _ _ _ (ended refl (bad_request-IsSettled _ 501 s)) (sse-IsDone s))
          (if_both (IsDone) _ _ _ (ended refl (handshake-IsSettled s))
            (ended refl (bad_request-IsSettled _ 400 s)))

    authorize-IsDone : (s : Session S) → IsDone (authorize ctx req s)
    unfolding authorize
    authorize-IsDone s = go (auth_token ctx.disable_auth req)
      where
        accepted : Bool × AccessController → Option (Unit {0}) × Session S
        accepted (ok, ac) =
            if not ok
            then (
              some tt,
              bad_request ctx (codes "Authentication failed.") 401
                  (record s { access_controller = ac }),
            )
            else serve ctx req (record s { access_controller = ac })

        accepted-IsDone : (r : Bool × AccessController) → IsDone (accepted r)
        accepted-IsDone (ok, ac) =
            if_both IsDone _ _ _
              (ended refl (
                bad_request-IsSettled (codes "Authentication failed.") 401
                  (record s { access_controller = ac })))
              (serve-IsDone (record s { access_controller = ac }))

        go :
            (o : Option Bytes)
            → IsDone (elim o [
              | none ↦ (some tt, bad_request ctx (codes "No authentication token was given.") 401 s)
              | some token ↦ accepted (
                  authenticate ctx.disable_auth ctx.decode s.access_controller token ctx.jwt_secret)
            ])
        go none =
            ended refl (bad_request-IsSettled (codes "No authentication token was given.") 401 s)
        go (some token) =
            accepted-IsDone
              (authenticate ctx.disable_auth ctx.decode s.access_controller token ctx.jwt_secret)

    handle_path-IsDone : (s : Session S) → IsDone (handle_path ctx req s)
    unfolding handle_path
    handle_path-IsDone s =
        let method = str_to_lower req.method in
        if_both IsDone (bytes_eq method (codes "options")) _ _
          (ended refl (answer-IsSettled ctx (options_response req) s))
          (if_both IsDone (not (bytes_eq method (codes "get"))) _ _
            (ended refl (answer-IsSettled ctx not_allowed_response s))
            (if_both IsDone (bytes_eq req.path (codes "/healthz")) _ _
              (ended refl (answer-IsSettled ctx (health_response req) s))
              (if_both IsDone
                (bytes_eq req.path (codes "/metrics") || bytes_eq req.path (codes "/metrics/")) _ _
                (ended refl (answer-IsSettled ctx (metrics_response ctx req) s))
                (authorize-IsDone s))))

    -- Whatever the parser says of a request but that it is incomplete, the handler ends with the
    -- connection closed, to be closed when what waits is sent, or upgraded to a websocket or an
    -- event stream; or an exception leaves it, which takes a path that decodes to nothing.
    pub handle_request-IsDone :
        (state : RequestState) (s : Session S)
        → state ≢ RequestState.req_incomplete
        → IsDone (handle_request ctx req state s)
    unfolding handle_request
    handle_request-IsDone RequestState.req_incomplete s n = absurd (n refl)
    handle_request-IsDone RequestState.req_to_big s n = ended refl (shutdown-IsSettled ctx s)
    handle_request-IsDone RequestState.req_ok s n = handle_path-IsDone s
    handle_request-IsDone RequestState.req_failed s n = ended refl (shutdown-IsSettled ctx s)
