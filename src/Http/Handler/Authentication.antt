-- ===== src/Http/Handler/Authentication.antt =====
-- What a request to src/http/Handler.cpp can do without a token that is accepted.
use eventhub.Prelude.{
  ◌≡◌, refl, ap, Bool, false, not, ◌||◌, Option, none, some, if◌then◌else◌, if_both, if_true, Bytes,
  bytes_eq, codes, str_to_lower,
}
use eventhub.AccessController.{AccessController, authenticate}
use eventhub.Http.Parser.{Parser, RequestState}
use eventhub.Http.Context.{HttpContext, Session, IsUntouched}
use eventhub.Http.Sending.{answer-IsUntouched, shutdown-IsUntouched}
use eventhub.Http.Handler.{
  auth_token, bad_response, bad_request, options_response, not_allowed_response, health_response,
  metrics_response, serve, authorize, handle_path, handle_request,
}

module _ {S : Type 0} (ctx : HttpContext S) (req : Parser) (s : Session S) where
  -- No token of the request is accepted.
  abbrev pub IsRefused : Type 0
  IsRefused =
      (token : Bytes)
      → auth_token ctx.disable_auth req ≡ some token
      → (authenticate ctx.disable_auth ctx.decode s.access_controller token ctx.jwt_secret).0
        ≡ false

  authorize-IsUntouched : IsRefused → IsUntouched s (authorize ctx req s)
  unfolding authorize bad_request
  authorize-IsUntouched refused = go (auth_token ctx.disable_auth req) refl
    where
      denied : AccessController → Session S
      denied ac =
          bad_request ctx (codes "Authentication failed.") 401 (record s { access_controller = ac })

      accepted : Bool × AccessController → Option (Unit {0}) × Session S
      accepted (ok, ac) =
          if not ok
          then (some tt, denied ac)
          else serve ctx req (record s { access_controller = ac })

      denied-IsUntouched : (ac : AccessController) → IsUntouched s (some tt, denied ac)
      denied-IsUntouched ac =
          let u =
            answer-IsUntouched ctx (bad_response (codes "Authentication failed.") 401)
              (record s { access_controller = ac }) in
          record {
            returned = refl;
            state = IsUntouched.state u;
            world = IsUntouched.world u;
            redis_state = IsUntouched.redis_state u;
          }

      accepted-IsUntouched :
          (r : Bool × AccessController) → r.0 ≡ false → IsUntouched s (accepted r)
      accepted-IsUntouched (ok, ac) e =
          if_true (IsUntouched s) (not ok) (some tt, denied ac)
            (serve ctx req (record s { access_controller = ac })) (ap not e) (denied-IsUntouched ac)

      go :
          (o : Option Bytes)
          → auth_token ctx.disable_auth req ≡ o
          → IsUntouched s (elim o [
            | none ↦ (some tt, bad_request ctx (codes "No authentication token was given.") 401 s)
            | some token ↦
                accepted (
                  authenticate ctx.disable_auth ctx.decode s.access_controller token ctx.jwt_secret)
          ])
      go none e =
          answer-IsUntouched ctx (bad_response (codes "No authentication token was given.") 401) s
      go (some token) e =
          accepted-IsUntouched
            (authenticate ctx.disable_auth ctx.decode s.access_controller token ctx.jwt_secret)
            (refused token e)

  handle_path-IsUntouched : IsRefused → IsUntouched s (handle_path ctx req s)
  unfolding handle_path
  handle_path-IsUntouched refused =
      let method = str_to_lower req.method in
      if_both (IsUntouched s) (bytes_eq method (codes "options")) _ _
        (answer-IsUntouched ctx (options_response req) s)
        (if_both (IsUntouched s) (not (bytes_eq method (codes "get"))) _ _
          (answer-IsUntouched ctx not_allowed_response s)
          (if_both (IsUntouched s) (bytes_eq req.path (codes "/healthz")) _ _
            (answer-IsUntouched ctx (health_response req) s)
            (if_both (IsUntouched s)
              (bytes_eq req.path (codes "/metrics") || bytes_eq req.path (codes "/metrics/")) _ _
              (answer-IsUntouched ctx (metrics_response ctx req) s)
              (authorize-IsUntouched refused))))

  -- A request whose token is missing or is not accepted, whatever else it says, leaves the state
  -- of the connection, the subscriptions and redis as they were, and no exception leaves the
  -- handler.
  pub refused-IsUntouched :
      (state : RequestState) → IsRefused → IsUntouched s (handle_request ctx req state s)
  unfolding handle_request
  refused-IsUntouched RequestState.req_incomplete refused = record {
    returned = refl;
    state = refl;
    world = refl;
    redis_state = refl;
  }
  refused-IsUntouched RequestState.req_to_big refused = shutdown-IsUntouched ctx s
  refused-IsUntouched RequestState.req_ok refused = handle_path-IsUntouched refused
  refused-IsUntouched RequestState.req_failed refused = shutdown-IsUntouched ctx s
