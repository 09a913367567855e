-- ===== src/Interleaving/Sequence.antt =====
-- All handlers call by call, with nothing between their calls.
use r2_notify_server.Prelude.{
  String, ◌≡◌, refl, ap, ◌||◌, Option, none, some, Result, ok, err, Error, ◌==◌,
}
use r2_notify_server.Text.{strip_prefix}
use r2_notify_server.Models
use r2_notify_server.Models.{Time, UserId, Conn, ObjectId, nil_object_id}
use r2_notify_server.Data.{CreateNotificationRequest, EventHubNotificationPayload}
use r2_notify_server.Json.{Bytes, empty, malformed, json}
use r2_notify_server.Json.Decode.{unmarshal_event, unmarshal_event_hub_payload}
use r2_notify_server.World.{Backend, World}
use r2_notify_server.Service.Notification.{NotificationService}
use r2_notify_server.Service.Configuration.{ConfigurationService}
use r2_notify_server.Utils.{Jwt, validate_token}
use r2_notify_server.Controller.{
  Binding, Request, Response, bearer_prefix, respond, create_valid, create_bound, create_as,
  create_with, create_notification,
}
use r2_notify_server.Consumer.{model_of, announce, receive_payload, receive}
use r2_notify_server.WebSocket.Events.{
  Frame, failed, text, binary, control, handle_parsed, handle_message, on_frame, after_ping,
  on_tick,
}
use r2_notify_server.WebSocket.Connect.{Connected, Handshake, connect}
use r2_notify_server.Interleaving.Program.{Program, run}
use r2_notify_server.Interleaving.Frames.{
  handle_parsed_calls, handle_message_calls, on_frame_calls, ping, after_ping_calls, on_tick_calls,
}
use r2_notify_server.Interleaving.Handlers.{
  connect_calls, respond_calls, create_valid_calls, create_bound_calls, create_as_calls,
  create_with_calls, create_notification_calls, announce_calls, receive_payload_calls,
  receive_calls,
}
use r2_notify_server.Interleaving.Agreement.{after, event_same}
use r2_notify_server.Interleaving.Connections.{if_same, connect_same}

module _ (b : Backend) (notifications : NotificationService (World b))
    (configurations : ConfigurationService (World b)) where
  -- What makes a goroutine run a handler, with what the handler is given.
  pub data Handler : Type 0 where
    frame : Time → Frame → UserId → Conn → Handler
    tick : UserId → Conn → Handler
    handshake : Jwt → String → String → Time → Handshake → Conn → Handler
    request : Binding → Jwt → String → Time → Time → Request → Handler
    event : Time → Time → Bytes → Handler

  abbrev pub Answer : Handler → Type 0
  Answer (handshake jwt secret allowed now r conn) = Connected
  Answer (request binding jwt secret made changed r) = Response
  Answer _ = Unit {0}

  -- The handler as one step.
  abbrev pub handle : (h : Handler) → World b → Answer h × World b
  handle (frame now f user conn) w = (tt, on_frame b notifications configurations now f user conn w)
  handle (tick user conn) w = (tt, on_tick b notifications configurations user conn w)
  handle (handshake jwt secret allowed now r conn) w =
      connect b notifications configurations jwt secret allowed now r conn w
  handle (request binding jwt secret made changed r) w =
      create_notification b notifications binding jwt secret made changed r w
  handle (event made changed body) w = (tt, receive b notifications made changed body w)

  -- The handler call by call.
  abbrev pub program : (h : Handler) → Program (World b) (Answer h)
  program (frame now f user conn) = on_frame_calls b notifications configurations now f user conn
  program (tick user conn) = on_tick_calls b notifications configurations user conn
  program (handshake jwt secret allowed now r conn) =
      connect_calls b notifications configurations jwt secret allowed now r conn
  program (request binding jwt secret made changed r) =
      create_notification_calls b notifications configurations binding jwt secret made changed r
  program (event made changed body) = receive_calls b notifications configurations made changed body

  parsed_same :
      (now : Time) (r : Result String) (message : Bytes) (client : UserId) (w : World b)
      → after b notifications configurations
          (handle_parsed_calls b notifications configurations now r message client)
          w
        ≡ handle_parsed b notifications configurations now r message client w
  unfolding handle_parsed_calls handle_parsed
  parsed_same now (err e) message client w = refl
  parsed_same now (ok name) message client w =
      event_same b notifications configurations now name message client w

  message_same :
      (now : Time) (message : Bytes) (client : UserId) (w : World b)
      → after b notifications configurations
          (handle_message_calls b notifications configurations now message client)
          w
        ≡ handle_message b notifications configurations now message client w
  unfolding handle_message_calls handle_message
  message_same now empty client w = refl
  message_same now malformed client w =
      parsed_same now (unmarshal_event malformed) malformed client w
  message_same now (json j) client w = parsed_same now (unmarshal_event (json j)) (json j) client w

  frame_same :
      (now : Time) (f : Frame) (client : UserId) (conn : Conn) (w : World b)
      → after b notifications configurations
          (on_frame_calls b notifications configurations now f client conn)
          w
        ≡ on_frame b notifications configurations now f client conn w
  unfolding on_frame_calls on_frame
  frame_same now failed client conn w = refl
  frame_same now (text message) client conn w = message_same now message client w
  frame_same now (binary message) client conn w = message_same now message client w
  frame_same now (control message) client conn w = refl

  ping_same :
      (client : UserId) (conn : Conn) (e : Option Error) (w : World b)
      → after b notifications configurations
          (after_ping_calls b notifications configurations client conn e)
          w
        ≡ after_ping b notifications configurations client conn e w
  unfolding after_ping_calls after_ping
  ping_same client conn none w = refl
  ping_same client conn (some e) w = refl

  tick_same :
      (client : UserId) (conn : Conn) (w : World b)
      → after b notifications configurations
          (on_tick_calls b notifications configurations client conn)
          w
        ≡ on_tick b notifications configurations client conn w
  unfolding on_tick_calls on_tick
  tick_same client conn w =
      let (e, v) = ping b notifications configurations conn w in ping_same client conn e v

  responded_same :
      (binding : Binding) (m : Models.Notification) (r : Result ObjectId) (w : World b)
      → run (respond_calls b notifications configurations m r) w
        ≡ respond b notifications binding m (r, w)
  unfolding respond_calls respond
  responded_same binding m (err e) w = refl
  responded_same binding m (ok id) w = refl

  module _ (binding : Binding) (made changed : Time) where
    valid_same :
        (user : UserId) (app : String) (p : CreateNotificationRequest) (e : Option Error)
        (w : World b)
        → run (create_valid_calls b notifications configurations made changed user app p e) w
          ≡ create_valid b notifications binding made changed user app p e w
    unfolding create_valid_calls create_valid
    valid_same user app p (some e) w = refl
    valid_same user app p none w = responded_same binding _ _ _

    bound_same :
        (user : UserId) (app : String) (r : Result CreateNotificationRequest) (w : World b)
        → run (create_bound_calls b notifications configurations binding made changed user app r) w
          ≡ create_bound b notifications binding made changed user app r w
    unfolding create_bound_calls create_bound
    bound_same user app (err e) w = refl
    bound_same user app (ok p) w = valid_same user app p (binding.validate p) w

    as_same :
        (r : Result UserId) (q : Request) (w : World b)
        → run (create_as_calls b notifications configurations binding made changed r q) w
          ≡ create_as b notifications binding made changed r q w
    unfolding create_as_calls create_as
    as_same (err e) q w = refl
    as_same (ok user) q w =
        if_same b notifications configurations (user == "" || q.app_id == "") _ _ w _ _ refl
          (bound_same user q.app_id (binding.bind_json q.body) w)

    with_same :
        (jwt : Jwt) (secret : String) (t : Option String) (q : Request) (w : World b)
        → run
            (create_with_calls b notifications configurations binding jwt secret made changed t q)
            w
          ≡ create_with b notifications binding jwt secret made changed t q w
    unfolding create_with_calls create_with
    with_same jwt secret none q w = refl
    with_same jwt secret (some token) q w = as_same (validate_token jwt token secret) q w

    created_same :
        (jwt : Jwt) (secret : String) (q : Request) (w : World b)
        → run
            (create_notification_calls b notifications configurations binding jwt secret made
              changed q)
            w
          ≡ create_notification b notifications binding jwt secret made changed q w
    unfolding create_notification_calls create_notification
    created_same jwt secret q w =
        with_same jwt secret (strip_prefix bearer_prefix q.authorization) q w

  announced_same :
      (p : EventHubNotificationPayload) (made changed : Time) (r : Result ObjectId) (w : World b)
      → after b notifications configurations
          (announce_calls b notifications configurations p made changed r)
          w
        ≡ announce b notifications p made changed (r, w)
  unfolding announce_calls announce
  announced_same p made changed (err e) w = refl
  announced_same p made changed (ok id) w = refl

  payload_same :
      (made changed : Time) (r : Result EventHubNotificationPayload) (w : World b)
      → after b notifications configurations
          (receive_payload_calls b notifications configurations made changed r)
          w
        ≡ receive_payload b notifications made changed r w
  unfolding receive_payload_calls receive_payload
  payload_same made changed (err e) w = refl
  payload_same made changed (ok p) w =
      let (id, v) = notifications.create (model_of p made changed) w in
      announced_same p made changed id v

  -- The calls of a handler, made one after another with nothing between them, give the answer and
  -- the state of the handler as one step, for every handler.
  pub run-program : (h : Handler) (w : World b) → run (program h) w ≡ handle h w
  unfolding receive_calls receive
  run-program (frame now f user conn) w = ap (λ v. (tt, v)) (frame_same now f user conn w)
  run-program (tick user conn) w = ap (λ v. (tt, v)) (tick_same user conn w)
  run-program (handshake jwt secret allowed now r conn) w =
      connect_same b notifications configurations jwt secret allowed now r conn w
  run-program (request binding jwt secret made changed r) w =
      created_same binding made changed jwt secret r w
  run-program (event made changed body) w =
      ap (λ v. (tt, v)) (payload_same made changed (unmarshal_event_hub_payload body) w)
