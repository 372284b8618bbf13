-- ===== src/Sse/Authorization.antt =====
-- The subscriptions of event streams, src/sse/Handler.cpp.
use eventhub.Prelude.{
  ℕ, ◌≡◌, refl, ap, ◌∙◌, ◌||◌, ◌&&◌, Bool, true, false, not, some, if◌then◌else◌, is_empty, Bytes,
  codes,
}
use eventhub.Topics.{is_valid_topic_or_filter}
use eventhub.AccessController.{allow_subscribe}
use eventhub.Util.{uri_decode}
use eventhub.Subscriptions.Spec.{view, enact, subscribing, subscribe-view}
use eventhub.Http.Parser.{Parser}
use eventhub.Http.Context.{HttpContext, Session, IsUntouched}
use eventhub.Http.Sending.{answer-IsUntouched, send_events_world}
use eventhub.Sse.{
  error, error_response, start_stream, check_path, strip_slash, handle_request, ok, requested_cache,
  last_event_id_of,
}

-- The path is a topic or a filter, and the token of the connection lets it be subscribed to.
abbrev pub is_granted : {S : Type 0} → HttpContext S → Session S → Bytes → Bool
is_granted ctx s path =
    not (is_empty path || not (is_valid_topic_or_filter path))
    && allow_subscribe ctx.disable_auth s.access_controller path

-- What a function gives behind two guards.
ap_two_guards :
    {A B : Type 0} (a b : Bool) (f : A → B) (x y z : A) {u v : B}
    → f x ≡ v
    → f y ≡ v
    → f z ≡ u
    → f (if a then x else if not b then y else z) ≡ (if not a && b then u else v)
ap_two_guards true b f x y z p q r = p
ap_two_guards false true f x y z p q r = r
ap_two_guards false false f x y z p q r = q

module _ {S : Type 0} (ctx : HttpContext S) (req : Parser) (path : Bytes) (s : Session S) where
  error-IsUntouched :
      (message : Bytes) (code : ℕ) → IsUntouched s (some tt, error ctx message code s)
  unfolding error
  error-IsUntouched message code = answer-IsUntouched ctx (error_response ctx message code) s

  start_stream-view :
      view (start_stream ctx req path s).world
      ≡ enact (subscribing ctx.connection path (codes "0")) (view s.world)
  unfolding start_stream
  start_stream-view =
      ap view (
        send_events_world ctx
          (requested_cache ctx req path (last_event_id_of req) (ok ctx s).redis_state).0 _)
      ∙ subscribe-view ctx.connection path (codes "0") s.world

  check_path-view : view (check_path ctx req path s).world ≡ (
      if is_granted ctx s path
      then enact (subscribing ctx.connection path (codes "0")) (view s.world)
      else view s.world)
  unfolding check_path
  check_path-view =
      ap_two_guards (is_empty path || not (is_valid_topic_or_filter path))
        (allow_subscribe ctx.disable_auth s.access_controller path)
        (λ (z : Session S). view z.world) (error ctx (codes "Invalid topic requested.") 404 s)
        (error ctx (codes "Insufficient access.") 401 s) (start_stream ctx req path s)
        (ap view (IsUntouched.world (error-IsUntouched (codes "Invalid topic requested.") 404)))
        (ap view (IsUntouched.world (error-IsUntouched (codes "Insufficient access.") 401)))
        start_stream-view

  handle_request-check_path :
      strip_slash (uri_decode req.path) ≡ some path
      → handle_request ctx req s ≡ (some tt, check_path ctx req path s)
  unfolding handle_request
  handle_request-check_path e = rw (e, handle_request) refl

  -- What a request for an event stream does to the subscriptions, if its path does not decode to
  -- nothing: where the path, less a slash in front, is a topic or filter that the connection may
  -- subscribe to, the connection is subscribed to it, or stays so; else nothing is changed.
  pub handle_request-view :
      strip_slash (uri_decode req.path) ≡ some path
      → view (handle_request ctx req s).1.world ≡ (
          if is_granted ctx s path
          then enact (subscribing ctx.connection path (codes "0")) (view s.world)
          else view s.world)
  handle_request-view e = ap (λ z. view (z.1.world)) (handle_request-check_path e) ∙ check_path-view
