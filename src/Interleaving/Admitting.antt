-- ===== src/Interleaving/Admitting.antt =====
-- The calls of a new connection, of a request and of an event, and whom they are for.
use mathlib.Core.Path.{subst}
use r2_notify_server.Prelude.{
  String, ◌≡◌, refl, sym, Bool, true, false, ◌||◌, ◌&&◌, Option, none, some, [], ◌∷◌, ◌++◌, Result,
  ok, err, Error, ◌⊎◌, inl, inr, ◌==◌, eqb, eqb_iff, eqb_refl, eq_iff, Bool-cases, arith,
}
use r2_notify_server.Text.{strip_prefix}
use r2_notify_server.Models
use r2_notify_server.Models.{Time, UserId, Conn, ObjectId}
use r2_notify_server.Data
use r2_notify_server.Data.{CreateNotificationRequest, EventHubNotificationPayload}
use r2_notify_server.Json.Decode.{unmarshal_event_hub_payload}
use r2_notify_server.World.{Backend, LawfulSockets, Clients, conns_of, put}
use r2_notify_server.ClientStore.{send_notification_to_user}
use r2_notify_server.ClientStore.Writing.{has}
use r2_notify_server.Locking.Exclusive.{has-append}
use r2_notify_server.Service.Notification
use r2_notify_server.Service.Configuration
use r2_notify_server.Utils.{Jwt, validate_token}
use r2_notify_server.Controller.{Binding, Request, bearer_prefix, announcement}
use r2_notify_server.Consumer.{payload_of}
use r2_notify_server.WebSocket.Connect.{
  Connected, store_failed, configuration_failed, unauthorized, Handshake, check_origin,
}
use r2_notify_server.Server.{notifications, configurations}
use r2_notify_server.Server.Reach.{send_to_user-Serves}
use r2_notify_server.Interleaving.Program.{returns, ◌>>=◌, ◌>>◌}
use r2_notify_server.Interleaving.Handlers.{
  configured_calls, close_call, welcome_calls, store_client_calls, register_calls, configure_calls,
  connect_calls, respond_calls, create_valid_calls, create_bound_calls, create_as_calls,
  create_with_calls, create_notification_calls, announce_calls, receive_payload_calls,
  receive_calls,
}
use r2_notify_server.Interleaving.Sequence.{frame, tick, handshake, request, event, program}
use r2_notify_server.Interleaving.Threads.{
  ServerHandler, user_of_result, user_of_token, user_of_payload, user_of, MayStart, users_with,
}
use r2_notify_server.Interleaving.Safe.{serves, silent, admits, IsSafe, >>=-IsSafe, if-IsSafe}
use r2_notify_server.Interleaving.Serving.{all_safe, configurations_safe, frame_safe, tick_safe}

-- Only the new connection is added, to its user.
appended :
    (user u : UserId) (conn c : Conn) (m : Clients)
    → has c (conns_of (put user (conns_of m user ++ conn ∷ []) m) u) ≡ true
    → (has c (conns_of m u) ≡ true) ⊎ ((c ≡ conn) × (u ≡ user))
appended user u conn c m h = elim (Bool-cases (user == u)) [
  | inr other ↦ inl (rw other at h)
  | inl yours ↦
      let same = (eq_iff user u).0 yours in
      elim (Bool-cases (eqb conn c)) [
        | inl is_conn ↦ inr (sym ((eqb_iff conn c).0 is_conn), sym same)
        | inr elsewhere ↦
            let there : has c (conns_of m user ++ conn ∷ []) ≡ true = rw yours at h in
            inl (
              subst (λ v. has c (conns_of m v) ≡ true) same
                (ground (arith, has-append c (conns_of m user) (conn ∷ []))))
      ]
]

module _ (b : Backend) (law : LawfulSockets b.sockets) (users : Conn → Option UserId) where
  close-IsSafe :
      (who : Option UserId) (conn : Conn) (a : Connected)
      → IsSafe b law users who (close_call b (notifications b) (configurations b) conn >> returns a)
  close-IsSafe who conn a =
      (silent (λ w. refl) (λ w d. law.close_sends_nothing conn d w.sockets), λ r. tt)

  module _ (now : Time) (user : UserId) (conn : Conn) where
    welcome-IsSafe :
        (r : Result (Unit {0}))
        → IsSafe b law users
            (some user)
            (welcome_calls b (notifications b) (configurations b) user conn r)
    unfolding welcome_calls
    welcome-IsSafe (err e) = close-IsSafe (some user) conn store_failed
    welcome-IsSafe (ok u) =
        >>=-IsSafe b law users (some user) _ _ (all_safe b law users user false) λ r.
          >>=-IsSafe b law users (some user) _ _ (configurations_safe b law users user) (λ r'. tt)

    register-IsSafe :
        users conn ≡ some user
        → (r : Result Bool)
        → IsSafe b law users
            (some user)
            (register_calls b (notifications b) (configurations b) now user conn r)
    unfolding register_calls store_client_calls
    register-IsSafe mine (err e) = close-IsSafe (some user) conn configuration_failed
    register-IsSafe mine (ok enable) = (
      admits user conn mine (λ w u c h. appended user u conn c w.clients h) (λ w d. refl),
      λ r. (silent (λ w. refl) (λ w d. refl), λ stored. welcome-IsSafe stored),
    )

    configured-IsSafe :
        users conn ≡ some user
        → (r : Result Data.Configuration)
        → IsSafe b law users (some user) (
            configured_calls b (notifications b) (configurations b) user r
            >>= register_calls b (notifications b) (configurations b) now user conn)
    unfolding configured_calls Configuration.create
    configured-IsSafe mine (ok c) = register-IsSafe mine _
    configured-IsSafe mine (err e) =
        (silent (λ w. refl) (λ w d. refl), λ made. register-IsSafe mine _)

  configure-IsSafe :
      (now : Time) (conn : Conn) (r : Result UserId)
      → users conn ≡ user_of_result r
      → IsSafe b law users
          (user_of_result r)
          (configure_calls b (notifications b) (configurations b) now conn r)
  unfolding configure_calls Configuration.find_by_app_and_user
  configure-IsSafe now conn (err e) mine = close-IsSafe none conn unauthorized
  configure-IsSafe now conn (ok user) mine =
      (silent (λ w. refl) (λ w d. refl), λ found. configured-IsSafe now user conn mine found)

  connect-IsSafe :
      (jwt : Jwt) (secret allowed : String) (now : Time) (r : Handshake) (conn : Conn)
      → users conn ≡ user_of_result (validate_token jwt r.token secret)
      → IsSafe b law users
          (user_of_result (validate_token jwt r.token secret))
          (connect_calls b (notifications b) (configurations b) jwt secret allowed now r conn)
  unfolding connect_calls
  connect-IsSafe jwt secret allowed now r conn mine =
      if-IsSafe b law users _ (r.proper && check_origin allowed r.origin) _ _
        (configure-IsSafe now conn (validate_token jwt r.token secret) mine) tt

  respond-IsSafe :
      (m : Models.Notification) (r : Result ObjectId)
      → IsSafe b law users
          (some m.user_id)
          (respond_calls b (notifications b) (configurations b) m r)
  unfolding respond_calls send_notification_to_user announcement
  respond-IsSafe m (err e) = tt
  respond-IsSafe m (ok id) =
      (serves m.user_id refl (λ w. send_to_user-Serves b law m.user_id _ false w), λ r. tt)

  module _ (binding : Binding) (made changed : Time) where
    valid-IsSafe :
        (user : UserId) (app : String) (p : CreateNotificationRequest) (e : Option Error)
        → IsSafe b law users
            (some user)
            (create_valid_calls b (notifications b) (configurations b) made changed user app p e)
    unfolding create_valid_calls Notification.create
    valid-IsSafe user app p (some e) = tt
    valid-IsSafe user app p none = (silent (λ w. refl) (λ w d. refl), λ id. respond-IsSafe _ id)

    bound-IsSafe :
        (user : UserId) (app : String) (r : Result CreateNotificationRequest)
        → IsSafe b law users (some user) (
            create_bound_calls b
              (notifications b)
              (configurations b)
              binding
              made
              changed
              user
              app
              r)
    unfolding create_bound_calls
    bound-IsSafe user app (err e) = tt
    bound-IsSafe user app (ok p) = valid-IsSafe user app p (binding.validate p)

    as-IsSafe :
        (r : Result UserId) (q : Request)
        → IsSafe b law users
            (user_of_result r)
            (create_as_calls b (notifications b) (configurations b) binding made changed r q)
    unfolding create_as_calls
    as-IsSafe (err e) q = tt
    as-IsSafe (ok user) q =
        if-IsSafe b law users (some user) (user == "" || q.app_id == "") _ _ tt
          (bound-IsSafe user q.app_id (binding.bind_json q.body))

    with-IsSafe :
        (jwt : Jwt) (secret : String) (t : Option String) (q : Request)
        → IsSafe b law users (user_of_token jwt secret t) (
            create_with_calls b
              (notifications b)
              (configurations b)
              binding
              jwt
              secret
              made
              changed
              t
              q)
    unfolding create_with_calls
    with-IsSafe jwt secret none q = tt
    with-IsSafe jwt secret (some token) q = as-IsSafe (validate_token jwt token secret) q

  announce-IsSafe :
      (p : EventHubNotificationPayload) (made changed : Time) (r : Result ObjectId)
      → IsSafe b law users
          (some p.user_id)
          (announce_calls b (notifications b) (configurations b) p made changed r)
  unfolding announce_calls send_notification_to_user payload_of
  announce-IsSafe p made changed (err e) = tt
  announce-IsSafe p made changed (ok id) =
      (serves p.user_id refl (λ w. send_to_user-Serves b law p.user_id _ false w), λ r. tt)

  payload-IsSafe :
      (made changed : Time) (r : Result EventHubNotificationPayload)
      → IsSafe b law users
          (user_of_payload r)
          (receive_payload_calls b (notifications b) (configurations b) made changed r)
  unfolding receive_payload_calls Notification.create
  payload-IsSafe made changed (err e) = tt
  payload-IsSafe made changed (ok p) =
      (silent (λ w. refl) (λ w d. refl), λ id. announce-IsSafe p made changed id)

-- Every call of a handler that may start is allowed.
pub program-IsSafe :
    (b : Backend) (law : LawfulSockets b.sockets) (users : Conn → Option UserId)
    (h : ServerHandler b)
    → MayStart b users h
    → IsSafe b law
        (users_with b h users)
        (user_of b h)
        (program b (notifications b) (configurations b) h)
unfolding create_notification_calls receive_calls
program-IsSafe b law users (frame now f user conn) may = frame_safe b law users user now f conn
program-IsSafe b law users (tick user conn) may = tick_safe b law users user conn
program-IsSafe b law users (handshake jwt secret allowed now r conn) may =
    connect-IsSafe b law (users_with b (handshake jwt secret allowed now r conn) users) jwt secret
      allowed now r conn (rw eqb_refl refl)
program-IsSafe b law users (request binding jwt secret made changed r) may =
    with-IsSafe b law users binding made changed jwt secret
      (strip_prefix bearer_prefix r.authorization) r
program-IsSafe b law users (event made changed body) may =
    payload-IsSafe b law users made changed (unmarshal_event_hub_payload body)
