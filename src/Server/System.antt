-- ===== src/Server/System.antt =====
-- The running server: connections that come and go, messages and pings on them, requests to create
-- notifications and events of the event hub, in any order. A step is a whole handler.
pub mod Admission
pub mod Ownership
use r2_notify_server.Prelude.{
  String, ◌≡◌, Bool, true, false, Option, none, some, Result, ok, err, Error, eqb, if◌then◌else◌,
}
use r2_notify_server.Models.{Time, UserId, Conn}
use r2_notify_server.Json.{Bytes}
use r2_notify_server.World.{Backend, World, conns_of}
use r2_notify_server.Utils.{Jwt, validate_token}
use r2_notify_server.Controller.{Binding, Request, create_notification}
use r2_notify_server.Consumer.{receive}
use r2_notify_server.WebSocket.Events.{Frame, failed, on_frame, on_tick}
use r2_notify_server.WebSocket.Connect.{
  Connected, connected, store_failed, configuration_failed, unauthorized, upgrade_failed, Handshake,
  connect,
}
use r2_notify_server.Server.{notifications, configurations}

-- A connection for a user whose pinging goroutine was started, and whether it is read too.
pub record Session : Type 0 where
  pub user : UserId
  pub reading : Bool

pub record System (b : Backend) : Type 0 where
  pub world : World b
  pub sessions : Conn → Option Session

-- What becomes of a new connection, by how the handler ended.
abbrev pub session_of : Connected → Result UserId → Option Session
session_of (connected user) subject = some (record { user = user; reading = true })
session_of store_failed (ok user) = some (record { user = user; reading = false })
session_of configuration_failed (ok user) = some (record { user = user; reading = false })
session_of store_failed (err e) = none
session_of configuration_failed (err e) = none
session_of unauthorized subject = none
session_of upgrade_failed subject = none

abbrev pub open_session : Conn → Option Session → (Conn → Option Session) → Conn → Option Session
open_session conn session sessions c = if eqb c conn then session else sessions c

-- A read that fails ends the reading.
abbrev pub after_frame : Frame → Conn → Session → (Conn → Option Session) → Conn → Option Session
after_frame failed conn session sessions =
    open_session conn (some (record session { reading = false })) sessions
after_frame _ conn session sessions = sessions

-- What stays the same while the server runs.
pub record Setup : Type 0 where
  pub jwt : Jwt
  pub secret : String
  pub allowed_origins : String
  pub binding : Binding

module _ (b : Backend) (setup : Setup) where
  abbrev pub connecting : Time → Handshake → Conn → World b → Connected × World b
  connecting now request conn w =
      connect b (notifications b) (configurations b) setup.jwt setup.secret setup.allowed_origins
        now request conn w

  abbrev pub subject : Handshake → Result UserId
  subject request = validate_token setup.jwt request.token setup.secret

  pub data Step (s t : System b) : Type 0 where
    -- A request for a websocket, on a connection that was not there before.
    connects :
        (now : Time) (request : Handshake) (conn : Conn)
        → s.sessions conn ≡ none
        → t ≡ record {
          world = (connecting now request conn s.world).1;
          sessions =
              open_session conn
                (session_of (connecting now request conn s.world).0 (subject request))
                s.sessions;
        }
        → Step s t
    -- A message, or a failed read, on a connection that is read.
    reads :
        (now : Time) (frame : Frame) (conn : Conn) (session : Session)
        → s.sessions conn ≡ some session
        → session.reading ≡ true
        → t ≡ record {
          world =
              on_frame b (notifications b) (configurations b) now frame session.user conn s.world;
          sessions = after_frame frame conn session s.sessions;
        }
        → Step s t
    pings :
        (conn : Conn) (session : Session)
        → s.sessions conn ≡ some session
        → t ≡ record s {
          world = on_tick b (notifications b) (configurations b) session.user conn s.world;
        }
        → Step s t
    creates :
        (made changed : Time) (request : Request)
        → t ≡ record s {
          world =
              (create_notification b
                (notifications b)
                setup.binding
                setup.jwt
                setup.secret
                made
                changed
                request
                s.world).1;
        }
        → Step s t
    receives :
        (made changed : Time) (body : Bytes)
        → t ≡ record s { world = receive b (notifications b) made changed body s.world }
        → Step s t

  pub data Reach (s : System b) : System b → Type 0 where
    here : Reach s s
    later : {t u : System b} → Reach s t → Step t u → Reach s u
