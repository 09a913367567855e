-- ===== src/Interleaving/Connections.antt =====
-- handlers/websocket.go, WebSocketHandler call by call, with nothing between its calls.
use r2_notify_server.Prelude.{
  String, ◌≡◌, refl, sym, ◌∙◌, ap, Bool, true, false, ◌||◌, ◌&&◌, Option, none, some, List, Result,
  ok, err, Error, ◌==◌, if◌then◌else◌,
}
use r2_notify_server.Prelude
use r2_notify_server.Models.{Time, UserId, Conn, nil_object_id}
use r2_notify_server.Data
use r2_notify_server.Data.{CreateNotificationRequest, EventHubNotificationPayload}
use r2_notify_server.World.{Backend, World}
use r2_notify_server.ClientStore.{store_client}
use r2_notify_server.Service.Notification.{NotificationService}
use r2_notify_server.Service.Configuration.{ConfigurationService}
use r2_notify_server.Utils.{Jwt, validate_token}
use r2_notify_server.WebSocket.Actions.{send_configurations_to_client}
use r2_notify_server.WebSocket.Connect.{
  connected, Handshake, check_origin, connect, configure, configured, register, welcome,
}
use r2_notify_server.Interleaving.Program.{Program, returns, run, run->>=, ◌>>=◌, ◌>>◌}
use r2_notify_server.Interleaving.Frames.{
  send_all_notifications_to_client_calls, send_configurations_to_client_calls,
}
use r2_notify_server.Interleaving.Handlers.{
  configured_calls, welcome_calls, store_client_calls, register_calls, configure_calls,
  connect_calls,
}
use r2_notify_server.Interleaving.Agreement.{all_same, configurations_same}

module _ (b : Backend) (notifications : NotificationService (World b))
    (configurations : ConfigurationService (World b)) where
  welcome_same :
      (user : UserId) (conn : Conn) (r : Result (Unit {0})) (w : World b)
      → run (welcome_calls b notifications configurations user conn r) w
        ≡ welcome b notifications configurations user conn (r, w)
  unfolding welcome_calls welcome
  welcome_same user conn (err e) w = refl
  welcome_same user conn (ok u) w =
      let lists =
        send_all_notifications_to_client_calls b notifications configurations user false in
      let settings = send_configurations_to_client_calls b notifications configurations user in
      run->>= lists (λ _. settings >> returns (connected user)) w
      ∙ run->>= settings (λ _. returns (connected user)) _
      ∙ ap (λ v. (connected user, v))
          (configurations_same b notifications configurations user _
            ∙ ap (send_configurations_to_client b notifications configurations user)
                (all_same b notifications configurations user false w))

  register_same :
      (now : Time) (user : UserId) (conn : Conn) (r : Result Bool) (w : World b)
      → run (register_calls b notifications configurations now user conn r) w
        ≡ register b notifications configurations now user conn (r, w)
  unfolding register_calls register store_client_calls store_client
  register_same now user conn (err e) w = refl
  register_same now user conn (ok enable) w = welcome_same user conn _ _

  configured_same :
      (now : Time) (user : UserId) (conn : Conn) (r : Result Data.Configuration) (w : World b)
      → run
          (configured_calls b notifications configurations user r >>= λ enable.
            register_calls b notifications configurations now user conn enable)
          w
        ≡ register b notifications configurations now user conn
            (configured b notifications configurations user r w)
  unfolding configured_calls configured
  configured_same now user conn (ok c) w = register_same now user conn _ w
  configured_same now user conn (err e) w =
      let (made, w') =
        configurations.create
          (record { id = nil_object_id; user_id = user; enable_notifications = true }) w in
      register_same now user conn (Prelude.◌>>=◌ made (λ _. ok true)) w'

  configure_same :
      (now : Time) (conn : Conn) (r : Result UserId) (w : World b)
      → run (configure_calls b notifications configurations now conn r) w
        ≡ configure b notifications configurations now conn r w
  unfolding configure_calls configure
  configure_same now conn (err e) w = refl
  configure_same now conn (ok user) w =
      let (found, w') = configurations.find_by_app_and_user user w in
      configured_same now user conn found w'

  pub if_same :
      {A : Type 0} (t : Bool) (p q : Program (World b) A) (w : World b) (x y : A × World b)
      → run p w ≡ x
      → run q w ≡ y
      → run (if t then p else q) w ≡ (if t then x else y)
  if_same true p q w x y e f = e
  if_same false p q w x y e f = f

  pub connect_same :
      (jwt : Jwt) (secret allowed : String) (now : Time) (r : Handshake) (conn : Conn) (w : World b)
      → run (connect_calls b notifications configurations jwt secret allowed now r conn) w
        ≡ connect b notifications configurations jwt secret allowed now r conn w
  unfolding connect_calls connect
  connect_same jwt secret allowed now r conn w =
      if_same (r.proper && check_origin allowed r.origin) _ _ w _ _
        (configure_same now conn (validate_token jwt r.token secret) w) refl
