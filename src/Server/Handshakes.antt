-- ===== src/Server/Handshakes.antt =====
-- How the handler of a new connection ends: handlers/websocket.go.
use r2_notify_server.Prelude.{
  String, ◌≡◌, refl, Bool, true, ◌&&◌, List, [], ◌∷◌, ◌++◌, Result, ok, err, inl, inr, Bool-cases,
  eqb_refl, eq_refl, arith,
}
use r2_notify_server.Models.{Time, UserId, Conn, ClientInfo}
use r2_notify_server.World.{Backend, World, conns_of}
use r2_notify_server.ClientStore.{store_client}
use r2_notify_server.ClientStore.Writing.{has}
use r2_notify_server.Utils.{Jwt, validate_token}
use r2_notify_server.WebSocket.Connect.{
  Connected, connected, store_failed, configuration_failed, unauthorized, Handshake, check_origin,
  connect, configure, register, welcome,
}
use r2_notify_server.Server.{notifications, configurations}

has-last : (conn : Conn) (cs : List Conn) → has conn (cs ++ conn ∷ []) ≡ true
has-last conn [] = ground (arith, eqb_refl conn)
has-last conn (c ∷ cs) = ground (arith, has-last conn cs)

module _ (b : Backend) (conn : Conn) (now : Time) where
  -- What the ways to end have in common with the arguments.
  data IsEnded (subject : Result UserId) : Connected × World b → Type 0 where
    refused_token : (w : World b) → IsEnded subject (unauthorized, w)
    no_configuration : (w : World b) → IsEnded subject (configuration_failed, w)
    not_stored :
        (user : UserId) (w : World b)
        → subject ≡ ok user
        → has conn (conns_of w.clients user) ≡ true
        → IsEnded subject (store_failed, w)
    let_in : (user : UserId) (w : World b) → subject ≡ ok user → IsEnded subject (connected user, w)

  welcome-IsEnded :
      (subject : Result UserId) (user : UserId) (p : Result (Unit {0}) × World b)
      → subject ≡ ok user
      → has conn (conns_of p.1.clients user) ≡ true
      → IsEnded subject (welcome b (notifications b) (configurations b) user conn p)
  unfolding welcome
  welcome-IsEnded subject user (err e, w) whose there = not_stored user _ whose there
  welcome-IsEnded subject user (ok u, w) whose there = let_in user _ whose

  stored_there :
      (info : ClientInfo) (w : World b)
      → has conn (conns_of (store_client b info conn w).1.clients info.id) ≡ true
  unfolding store_client
  stored_there info w = rw (eq_refl info.id) (has-last conn (conns_of w.clients info.id))

  register-IsEnded :
      (subject : Result UserId) (user : UserId) (p : Result Bool × World b)
      → subject ≡ ok user
      → IsEnded subject (register b (notifications b) (configurations b) now user conn p)
  unfolding register
  register-IsEnded subject user (err e, w) whose = no_configuration _
  register-IsEnded subject user (ok enable, w) whose =
      let info : ClientInfo = record {
        id = user;
        connected_at = now;
        enable_notification = enable;
      } in
      welcome-IsEnded subject user (store_client b info conn w) whose (stored_there info w)

  configure-IsEnded :
      (subject : Result UserId) (w : World b)
      → IsEnded subject (configure b (notifications b) (configurations b) now conn subject w)
  unfolding configure
  configure-IsEnded (err e) w = refused_token _
  configure-IsEnded (ok user) w = register-IsEnded (ok user) user _ refl

  ended-connected :
      (subject : Result UserId) (user : UserId) (p : Connected × World b)
      → IsEnded subject p
      → p.0 ≡ connected user
      → subject ≡ ok user
  ended-connected subject user p (refused_token w) h = cc
  ended-connected subject user p (no_configuration w) h = cc
  ended-connected subject user p (not_stored u w whose there) h = cc
  ended-connected subject user p (let_in u w whose) h = cc

  ended-store_failed :
      (subject : Result UserId) (p : Connected × World b)
      → IsEnded subject p
      → p.0 ≡ store_failed
      → (user : UserId) × (subject ≡ ok user) × (has conn (conns_of p.1.clients user) ≡ true)
  ended-store_failed subject p (refused_token w) h = cc
  ended-store_failed subject p (no_configuration w) h = cc
  ended-store_failed subject p (not_stored u w whose there) h = (u, whose, there)
  ended-store_failed subject p (let_in u w whose) h = cc

  module _ (jwt : Jwt) (secret allowed : String) (request : Handshake) (w : World b) where
    abbrev ends : Connected × World b
    ends = connect b (notifications b) (configurations b) jwt secret allowed now request conn w

    -- A websocket is let in for a user only on a proper handshake from an accepted origin, with a
    -- token that is valid for that user.
    pub connect-connected :
        (user : UserId)
        → ends.0 ≡ connected user
        → ((request.proper && check_origin allowed request.origin) ≡ true)
          × (validate_token jwt request.token secret ≡ ok user)
    unfolding connect
    connect-connected user h =
        elim (Bool-cases (request.proper && check_origin allowed request.origin)) [
          | inl good ↦ (
            good,
            ended-connected _ user _ (configure-IsEnded (validate_token jwt request.token secret) w)
                (rw good at h),
          )
          | inr bad ↦ cc (rw bad at h)
        ]

    -- A connection that is closed since the store reports an error stays in the map under its
    -- user.
    connect-store_failed :
        ends.0 ≡ store_failed
        → (user : UserId) × (validate_token jwt request.token secret ≡ ok user)
          × (has conn (conns_of ends.1.clients user) ≡ true)
    unfolding connect
    connect-store_failed h =
        elim (Bool-cases (request.proper && check_origin allowed request.origin)) [
          | inl good ↦ rw good (
              ended-store_failed _ _ (configure-IsEnded (validate_token jwt request.token secret) w)
                (rw good at h))
          | inr bad ↦ cc (rw bad at h)
        ]
