-- ===== src/WebSocket/Connect.antt =====
-- handlers/websocket.go: a new connection.
use r2_notify_server.Prelude.{
  String, Bool, true, false, any, Result, ok, err, Exec, ◌>>=◌, ◌&&◌, ◌==◌, if◌then◌else◌,
}
use r2_notify_server.Models.{Time, UserId, Conn, nil_object_id}
use r2_notify_server.Data
use r2_notify_server.World.{Backend, World}
use r2_notify_server.ClientStore.{store_client}
use r2_notify_server.Service.Notification.{NotificationService}
use r2_notify_server.Service.Configuration.{ConfigurationService}
use r2_notify_server.Utils.{Jwt, validate_token, process_allowed_origins}
use r2_notify_server.WebSocket.Actions.{
  send_all_notifications_to_client, send_configurations_to_client,
}

-- upgrader.CheckOrigin, on the value of ALLOWED_ORIGINS and the request's Origin header.
unfoldable pub check_origin : String → String → Bool
check_origin allowed origin = any (λ o. o == origin) (process_allowed_origins allowed)

-- How the handler ends.
pub data Connected : Type 0 where
  upgrade_failed : Connected
  unauthorized : Connected
  configuration_failed : Connected
  store_failed : Connected
  connected : UserId → Connected

-- A request: its Origin header, its `token` parameter, and whether it is otherwise a proper
-- websocket handshake.
pub record Handshake : Type 0 where
  pub origin : String
  pub token : String
  pub proper : Bool

module _ (b : Backend) (notifications : NotificationService (World b))
    (configurations : ConfigurationService (World b)) where
  -- The user's setting, which is created enabled where there is none.
  unfoldable pub configured : UserId → Result Data.Configuration → Exec (World b) Bool
  configured user (ok c) w = (ok c.content.enable_notification, w)
  configured user (err e) w =
      let (r, w') =
        configurations.create
          (record { id = nil_object_id; user_id = user; enable_notifications = true }) w in
      (r >>= λ _. ok true, w')

  abbrev pub close : Conn → World b → World b
  close conn w = record w { sockets = b.sockets.close conn w.sockets }

  -- The handler behind its call of StoreClient.
  unfoldable pub welcome : UserId → Conn → Result (Unit {0}) × World b → Connected × World b
  welcome user conn (err e, w) = (store_failed, close conn w)
  welcome user conn (ok _, w) = (
    connected user,
    send_configurations_to_client b notifications configurations user
        (send_all_notifications_to_client b notifications configurations user false w),
  )

  -- The handler behind the setting.
  unfoldable pub register : Time → UserId → Conn → Result Bool × World b → Connected × World b
  unfolding welcome
  register now user conn (err e, w) = (configuration_failed, close conn w)
  register now user conn (ok enable, w) = welcome user conn (
      store_client b (record { id = user; connected_at = now; enable_notification = enable }) conn
        w)

  -- The handler behind the validation of the token.
  unfoldable pub configure : Time → Conn → Result UserId → World b → Connected × World b
  unfolding configured register
  configure now conn (err e) w = (unauthorized, close conn w)
  configure now conn (ok user) w =
      let (found, w') = configurations.find_by_app_and_user user w in
      register now user conn (configured user found w')

  -- The handler, given the connection that a successful upgrade makes.
  unfoldable pub connect :
      Jwt → String → String → Time → Handshake → Conn → World b → Connected × World b
  unfolding configure check_origin
  connect jwt secret allowed now request conn w =
      if request.proper && check_origin allowed request.origin
      then configure now conn (validate_token jwt request.token secret) w
      else (upgrade_failed, w)
