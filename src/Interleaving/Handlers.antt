-- ===== src/Interleaving/Handlers.antt =====
-- handlers/websocket.go for a new connection, controller/notification_controller.go and
-- event-hub/consumer/consumer.go call by call, and all handlers together.
use r2_notify_server.Prelude.{
  String, Bool, true, false, ◌||◌, ◌&&◌, Option, none, some, List, [], ◌∷◌, ◌++◌, Result, ok, err,
  Error, ◌==◌, if◌then◌else◌,
}
use r2_notify_server.Prelude
use r2_notify_server.Text.{strip_prefix}
use r2_notify_server.Models
use r2_notify_server.Models.{Time, UserId, Conn, ObjectId, ClientInfo, nil_object_id}
use r2_notify_server.Data
use r2_notify_server.Data.{CreateNotificationRequest, EventHubNotificationPayload}
use r2_notify_server.Json.{Bytes}
use r2_notify_server.Json.Decode.{unmarshal_event_hub_payload}
use r2_notify_server.World.{Backend, World, conns_of, put}
use r2_notify_server.ClientStore.{save_info, send_notification_to_user}
use r2_notify_server.Service.Notification.{NotificationService}
use r2_notify_server.Service.Configuration.{ConfigurationService}
use r2_notify_server.Utils.{Jwt, validate_token}
use r2_notify_server.Controller.{
  Binding, Request, Response, unauthorized, bad_request, internal_error, created, bearer_prefix,
  new_model, announcement,
}
use r2_notify_server.Consumer.{model_of, payload_of}
use r2_notify_server.WebSocket.Connect
use r2_notify_server.WebSocket.Connect.{
  Connected, connected, store_failed, configuration_failed, upgrade_failed, Handshake, check_origin,
  connect,
}
use r2_notify_server.Interleaving.Program.{
  Program, returns, call, call_void, call_only, ◌>>=◌, ◌>>◌,
}
use r2_notify_server.Interleaving.Frames.{
  send_all_notifications_to_client_calls, send_configurations_to_client_calls,
}

module _ (b : Backend) (notifications : NotificationService (World b))
    (configurations : ConfigurationService (World b)) where
  unfoldable pub configured_calls :
      UserId → Result Data.Configuration → Program (World b) (Result Bool)
  configured_calls user (ok c) = returns (ok c.content.enable_notification)
  configured_calls user (err e) = do
    made ← call (
        configurations.create
          (record { id = nil_object_id; user_id = user; enable_notifications = true }))
    returns (Prelude.◌>>=◌ made (λ _. ok true))

  abbrev pub close_call : Conn → Program (World b) (Unit {0})
  close_call conn = call_void (λ w. record w { sockets = b.sockets.close conn w.sockets })

  unfoldable pub welcome_calls : UserId → Conn → Result (Unit {0}) → Program (World b) Connected
  welcome_calls user conn (err e) = do close_call conn; returns store_failed
  welcome_calls user conn (ok _) = do
    send_all_notifications_to_client_calls b notifications configurations user false
    send_configurations_to_client_calls b notifications configurations user
    returns (connected user)

  -- The part of StoreClient under the lock.
  abbrev pub append_connection : UserId → Conn → World b → World b
  append_connection user conn w = record w {
    clients = put user (conns_of w.clients user ++ conn ∷ []) w.clients;
  }

  unfoldable pub store_client_calls : ClientInfo → Conn → Program (World b) (Result (Unit {0}))
  store_client_calls info conn = do
    call_void (append_connection info.id conn)
    call (save_info b info)

  unfoldable pub register_calls : Time → UserId → Conn → Result Bool → Program (World b) Connected
  unfolding store_client_calls welcome_calls
  register_calls now user conn (err e) = do close_call conn; returns configuration_failed
  register_calls now user conn (ok enable) = do
    stored ←
        store_client_calls (record { id = user; connected_at = now; enable_notification = enable })
          conn
    welcome_calls user conn stored

  unfoldable pub configure_calls : Time → Conn → Result UserId → Program (World b) Connected
  unfolding configured_calls register_calls
  configure_calls now conn (err e) = do close_call conn; returns Connect.unauthorized
  configure_calls now conn (ok user) = do
    found ← call (configurations.find_by_app_and_user user)
    enable ← configured_calls user found
    register_calls now user conn enable

  unfoldable pub connect_calls :
      Jwt → String → String → Time → Handshake → Conn → Program (World b) Connected
  unfolding configure_calls check_origin
  connect_calls jwt secret allowed now request conn =
      if request.proper && check_origin allowed request.origin
      then configure_calls now conn (validate_token jwt request.token secret)
      else returns upgrade_failed

  -- CreateNotification behind its call of Create.
  unfoldable pub respond_calls : Models.Notification → Result ObjectId → Program (World b) Response
  respond_calls m (err e) = returns (internal_error e)
  respond_calls m (ok id) = do
    call_only (send_notification_to_user b (announcement b.ids id m) false)
    returns (created (record m { id = id }))

  unfoldable pub create_valid_calls :
      Time
      → Time
      → UserId
      → String
      → CreateNotificationRequest
      → Option Error
      → Program (World b) Response
  unfolding respond_calls
  create_valid_calls made changed user app p (some e) = returns bad_request
  create_valid_calls made changed user app p none = do
    let m = new_model user app p made changed
    id ← call (notifications.create m)
    respond_calls m id

  module _ (binding : Binding) where
    unfoldable pub create_bound_calls :
        Time
        → Time
        → UserId
        → String
        → Result CreateNotificationRequest
        → Program (World b) Response
    unfolding create_valid_calls
    create_bound_calls made changed user app (err e) = returns bad_request
    create_bound_calls made changed user app (ok p) =
        create_valid_calls made changed user app p (binding.validate p)

    unfoldable pub create_as_calls :
        Time → Time → Result UserId → Request → Program (World b) Response
    unfolding create_bound_calls
    create_as_calls made changed (err e) request = returns unauthorized
    create_as_calls made changed (ok user) request =
        if user == "" || request.app_id == ""
        then returns bad_request
        else create_bound_calls made changed user request.app_id (binding.bind_json request.body)

    unfoldable pub create_with_calls :
        Jwt → String → Time → Time → Option String → Request → Program (World b) Response
    unfolding create_as_calls
    create_with_calls jwt secret made changed none request = returns unauthorized
    create_with_calls jwt secret made changed (some token) request =
        create_as_calls made changed (validate_token jwt token secret) request

    unfoldable pub create_notification_calls :
        Jwt → String → Time → Time → Request → Program (World b) Response
    unfolding create_with_calls
    create_notification_calls jwt secret made changed request =
        create_with_calls jwt secret made changed (strip_prefix bearer_prefix request.authorization)
          request

  -- The consumer's callback behind its call of Create.
  unfoldable pub announce_calls :
      EventHubNotificationPayload → Time → Time → Result ObjectId → Program (World b) (Unit {0})
  announce_calls p made changed (err e) = returns tt
  announce_calls p made changed (ok id) =
      call_only (send_notification_to_user b (payload_of b.ids id p made changed) false)

  unfoldable pub receive_payload_calls :
      Time → Time → Result EventHubNotificationPayload → Program (World b) (Unit {0})
  unfolding announce_calls
  receive_payload_calls made changed (err e) = returns tt
  receive_payload_calls made changed (ok p) = do
    id ← call (notifications.create (model_of p made changed))
    announce_calls p made changed id

  unfoldable pub receive_calls : Time → Time → Bytes → Program (World b) (Unit {0})
  unfolding receive_payload_calls
  receive_calls made changed body =
      receive_payload_calls made changed (unmarshal_event_hub_payload body)
