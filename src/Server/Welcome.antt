-- ===== src/Server/Welcome.antt =====
-- What the server knows of a client once its connection is let in.
use r2_notify_server.Prelude.{
  String, ◌≡◌, refl, sym, ◌∙◌, ap, Bool, true, false, ◌&&◌, List, Result, ok, err, ◌>>=◌, >>=-ok,
  eq_of_ok,
}
use r2_notify_server.Models.{Time, UserId, Conn, ClientInfo, Configuration}
use r2_notify_server.Data
use r2_notify_server.World.{Backend, World, LawfulRedis}
use r2_notify_server.ClientStore.{
  client_key, store_client, get_client_info, update_client_info, send_notification_list_to_user,
}
use r2_notify_server.ClientStore.Keeping.{send_to_user-redis}
use r2_notify_server.ClientStore.Registry.{stored_info}
use r2_notify_server.Repository.Configuration.{find_by_app_and_user}
use r2_notify_server.Service
use r2_notify_server.Utils.{Jwt, validate_token}
use r2_notify_server.WebSocket.Actions.{send_list, send_all_notifications_to_client}
use r2_notify_server.WebSocket.Connect.{
  connected, Handshake, check_origin, connect, configure, register, welcome, configured,
}
use r2_notify_server.Server.{notifications, configurations}
use r2_notify_server.Server.Handshakes.{connect-connected}
use r2_notify_server.Server.Status.{sent_configurations}

-- The setting that a new connection is stored with: what was read, and enabled after any error.
abbrev pub setting : Result Configuration → Bool
setting (ok c) = c.enable_notifications
setting (err e) = true

module _ (b : Backend) (law : LawfulRedis b.redis) where
  sent_list :
      (client : UserId) (r : Result (List Data.Notification)) (k : String) (w : World b)
      → b.redis.view (send_list b (notifications b) (configurations b) client false r w).redis k
        ≡ b.redis.view w.redis k
  unfolding send_list send_notification_list_to_user
  sent_list client (err e) k w = refl
  sent_list client (ok ns) k w = send_to_user-redis b client law _ false k w

  pub sent_all :
      (client : UserId) (k : String) (w : World b)
      → b.redis.view
          (send_all_notifications_to_client b
            (notifications b)
            (configurations b)
            client
            false
            w).redis
          k
        ≡ b.redis.view w.redis k
  unfolding send_all_notifications_to_client Service.Notification.find_all
  sent_all client k w = let (r, w') = (notifications b).find_all client w in sent_list client r k w'

  let_in :
      (now : Time) (conn : Conn) (jwt : Jwt) (secret allowed : String) (request : Handshake)
      (w : World b) (user : UserId)
      → (request.proper && check_origin allowed request.origin) ≡ true
      → validate_token jwt request.token secret ≡ ok user
      → connect b (notifications b) (configurations b) jwt secret allowed now request conn w
        ≡ configure b (notifications b) (configurations b) now conn (ok user) w
  unfolding connect
  let_in now conn jwt secret allowed request w user good valid = rw (good, valid) refl

  module _ (now : Time) (conn : Conn) (user : UserId) where
    welcomed :
        (p : Result (Unit {0}) × World b)
        → (welcome b (notifications b) (configurations b) user conn p).0 ≡ connected user
        → (p.0 ≡ ok tt)
          × (b.redis.view
                (welcome b (notifications b) (configurations b) user conn p).1.redis
                (client_key user)
              ≡ b.redis.view p.1.redis (client_key user))
    unfolding welcome
    welcomed (err e, w) h = cc
    welcomed (ok _, w) h = (
      refl,
      sent_configurations b law user (client_key user) _ ∙ sent_all user (client_key user) w,
    )

    -- What StoreClient is given.
    abbrev pub info_of : Bool → ClientInfo
    info_of enable = record { id = user; connected_at = now; enable_notification = enable }

    module _ (found : ClientInfo) (text : String) (written : b.times.format now ≡ ok text)
        (read : b.times.parse text ≡ ok now) where
      stored_known :
          (enable : Bool) (w : World b)
          → let p = store_client b (info_of enable) conn w in
            (welcome b (notifications b) (configurations b) user conn p).0 ≡ connected user
            → (get_client_info b user
                (welcome b (notifications b) (configurations b) user conn p).1).0
              ≡ ok found
            → found ≡ info_of enable
      unfolding store_client update_client_info
      stored_known enable w h g =
          let (saved, kept) = welcomed (store_client b (info_of enable) conn w) h in
          stored_info b law (info_of enable) found text w _ written read saved kept g

      registered_known :
          (p : Result Bool × World b)
          → (register b (notifications b) (configurations b) now user conn p).0 ≡ connected user
          → (get_client_info b user
              (register b (notifications b) (configurations b) now user conn p).1).0
            ≡ ok found
          → (enable : Bool) × (p.0 ≡ ok enable) × (found ≡ info_of enable)
      unfolding register
      registered_known (err e, w) h g = cc
      registered_known (ok enable, w) h g = (enable, refl, stored_known enable w h g)

      configured-setting :
          (r : Result Configuration) (enable : Bool) (w : World b)
          → (configured b
              (notifications b)
              (configurations b)
              user
              (r >>= λ c. ok (Service.Configuration.listed b.ids c))
              w).0
            ≡ ok enable
          → enable ≡ setting r
      unfolding configured Service.Configuration.listed
      configured-setting (ok c) enable w h = sym (eq_of_ok h)
      configured-setting (err e) enable w h =
          let (i, _, g) = >>=-ok _ (λ _. ok true) h in sym (eq_of_ok g)

      configure_known :
          (w : World b)
          → (configure b (notifications b) (configurations b) now conn (ok user) w).0
            ≡ connected user
          → (get_client_info b user
              (configure b (notifications b) (configurations b) now conn (ok user) w).1).0
            ≡ ok found
          → found
            ≡ info_of (setting (find_by_app_and_user b.configurations user w.configurations).0)
      unfolding configure Service.Configuration.find_by_app_and_user
      configure_known w h g =
          let (enable, e, same) = registered_known _ h g in
          same ∙ ap info_of (configured-setting _ enable _ e)

      -- When a connection has been let in for a user, at a time whose text reads back, what
      -- GetClientInfo finds of the user is the time of the connection and the setting in the
      -- database; notifications count as enabled after any error of reading that setting.
      pub connect-get_client_info :
          (jwt : Jwt) (secret allowed : String) (request : Handshake) (w : World b)
          → let r =
              connect b
                (notifications b)
                (configurations b)
                jwt
                secret
                allowed
                now
                request
                conn
                w in
            r.0 ≡ connected user
            → (get_client_info b user r.1).0 ≡ ok found
            → found
              ≡ info_of (setting (find_by_app_and_user b.configurations user w.configurations).0)
      connect-get_client_info jwt secret allowed request w h g =
          let (good, valid) = connect-connected b conn now jwt secret allowed request w user h in
          let same = let_in now conn jwt secret allowed request w user good valid in
          configure_known w (ap (λ r. r.0) (sym same) ∙ h)
            (ap (λ r. (get_client_info b user r.1).0) (sym same) ∙ g)
