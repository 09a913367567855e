-- ===== src/Server/System/Ownership.antt =====
-- Under whom the connections of the map stand, in the states that the server reaches.
use mathlib.Core.Path.{subst}
use r2_notify_server.Prelude.{
  ◌≡◌, ◌≢◌, refl, sym, ◌∙◌, ap, true, false, Option, none, some, inl, inr, eqb, eqb_iff, eqb_refl,
  eq_of_some, Bool-cases,
}
use r2_notify_server.Models.{Time, UserId, Conn}
use r2_notify_server.World.{Backend, World, LawfulSockets, conns_of}
use r2_notify_server.ClientStore.Writing.{has, AreDistinct}
use r2_notify_server.WebSocket.Events.{Frame, failed, on_frame}
use r2_notify_server.WebSocket.Connect.{Handshake}
use r2_notify_server.Server.{notifications, configurations}
use r2_notify_server.Server.Reach.{Narrows}
use r2_notify_server.Server.Frames.{on_frame-Serves, on_tick-Serves}
use r2_notify_server.Server.Requests.{create_notification-Narrows}
use r2_notify_server.Server.Events.{receive-Narrows}
use r2_notify_server.Server.System.{
  Session, System, session_of, open_session, after_frame, Setup, connecting, subject, Step,
  connects, reads, pings, creates, receives, Reach, here, later,
}
use r2_notify_server.Server.System.Admission.{
  user_at, Admits, Changes, narrowed, admitted, connect-Changes,
}

pub record IsOwned {b : Backend} (s : System b) : Type 0 where
  pub owned :
      (u : UserId) (c : Conn)
      → has c (conns_of s.world.clients u) ≡ true
      → user_at (s.sessions c) ≡ some u
  pub distinct : (u : UserId) → AreDistinct (conns_of s.world.clients u)

module _ (b : Backend) (law : LawfulSockets b.sockets) (setup : Setup) where
  -- A map that has narrowed, beside sessions of the same users.
  narrowed_IsOwned :
      (s : System b) (w : World b) (sessions : Conn → Option Session)
      → IsOwned s
      → Narrows s.world.clients w.clients
      → ((c : Conn) → user_at (s.sessions c) ≢ none → user_at (sessions c) ≡ user_at (s.sessions c))
      → IsOwned (record { world = w; sessions = sessions })
  narrowed_IsOwned s w sessions inv n same = record {
    owned = λ u c h. let was = inv.owned u c (n.fewer u c h) in same c (λ e. cc) ∙ was;
    distinct = λ u. n.distinct u (inv.distinct u);
  }

  opened_elsewhere :
      (s : System b) (conn c : Conn) (session : Option Session)
      → s.sessions conn ≡ none
      → user_at (s.sessions c) ≢ none
      → user_at (open_session conn session s.sessions c) ≡ user_at (s.sessions c)
  opened_elsewhere s conn c session fresh there = elim (Bool-cases (eqb c conn)) [
    | inl same ↦
        absurd
          (there (ap (λ x. user_at (s.sessions x)) ((eqb_iff c conn).0 same) ∙ ap user_at fresh))
    | inr elsewhere ↦ rw elsewhere
  ]

  fresh_absent :
      (s : System b) (conn : Conn) (u : UserId)
      → IsOwned s
      → s.sessions conn ≡ none
      → has conn (conns_of s.world.clients u) ≡ false
  fresh_absent s conn u inv fresh = elim (Bool-cases (has conn (conns_of s.world.clients u))) [
    | inl there ↦ cc (inv.owned u conn there, ap user_at fresh)
    | inr absent ↦ absent
  ]

  admitted_IsOwned :
      (s : System b) (w : World b) (conn : Conn) (session : Option Session) (user : UserId)
      → IsOwned s
      → s.sessions conn ≡ none
      → user_at session ≡ some user
      → Admits user conn s.world.clients w.clients
      → IsOwned (record { world = w; sessions = open_session conn session s.sessions })
  admitted_IsOwned s w conn session user inv fresh whose a = record {
    owned = λ u c h. elim (a.fewer u c h) [
      | inl old ↦
          let was = inv.owned u c old in opened_elsewhere s conn c session fresh (λ e. cc) ∙ was
      | inr (is_conn, is_user) ↦ rw (is_conn, is_user, eqb_refl conn) whose
    ];
    distinct = λ u. a.distinct (fresh_absent s conn user inv fresh) u (inv.distinct u);
  }

  connected_IsOwned :
      (s : System b) (now : Time) (request : Handshake) (conn : Conn)
      → IsOwned s
      → s.sessions conn ≡ none
      → Changes b law conn s.world
          (subject b setup request)
          (connecting b setup now request conn s.world)
      → let r = connecting b setup now request conn s.world in
        IsOwned (record {
          world = r.1;
          sessions = open_session conn (session_of r.0 (subject b setup request)) s.sessions;
        })
  connected_IsOwned s now request conn inv fresh (narrowed n) =
      narrowed_IsOwned s _ _ inv n (λ c there. opened_elsewhere s conn c _ fresh there)
  connected_IsOwned s now request conn inv fresh (admitted user whose a) =
      admitted_IsOwned s _ conn _ user inv fresh whose a

  framed_sessions :
      (s : System b) (frame : Frame) (conn c : Conn) (session : Session)
      → s.sessions conn ≡ some session
      → user_at (after_frame frame conn session s.sessions c) ≡ user_at (s.sessions c)
  framed_sessions s failed conn c session e = elim (Bool-cases (eqb c conn)) [
    | inl same ↦
        rw same
          (sym (ap user_at e) ∙ ap (λ x. user_at (s.sessions x)) (sym ((eqb_iff c conn).0 same)))
    | inr elsewhere ↦ rw elsewhere
  ]
  framed_sessions s _ conn c session e = refl

  -- Every step keeps the ownership of connections.
  pub Step-IsOwned : (s t : System b) → IsOwned s → Step b setup s t → IsOwned t
  Step-IsOwned s t inv (connects now request conn fresh e) = subst IsOwned (sym e) (
      connected_IsOwned s now request conn inv fresh (
        connect-Changes b law conn s.world setup.jwt setup.secret setup.allowed_origins now
          request))
  Step-IsOwned s t inv (reads now frame conn session open_now reading e) = subst IsOwned (sym e) (
      narrowed_IsOwned s _ _ inv (on_frame-Serves b law session.user now frame conn s.world).narrows
        (λ c there. framed_sessions s frame conn c session open_now))
  Step-IsOwned s t inv (pings conn session open_now e) = subst IsOwned (sym e) (
      narrowed_IsOwned s _ s.sessions inv (on_tick-Serves b law session.user conn s.world).narrows
        (λ c there. refl))
  Step-IsOwned s t inv (creates made changed request e) = subst IsOwned (sym e) (
      narrowed_IsOwned s _ s.sessions inv
        (create_notification-Narrows b law setup.binding made changed setup.jwt setup.secret request
          s.world)
        (λ c there. refl))
  Step-IsOwned s t inv (receives made changed body e) = subst IsOwned (sym e) (
      narrowed_IsOwned s _ s.sessions inv (receive-Narrows b law made changed body s.world)
        (λ c there. refl))

  -- From a state in which every connection in the map stands under the user of its session and at
  -- most once in that user's list, only such states are reached, by any sequence of new
  -- connections, messages, pings, requests and events.
  pub Reach-IsOwned : (s t : System b) → IsOwned s → Reach b setup s t → IsOwned t
  Reach-IsOwned s t inv here = inv
  Reach-IsOwned s t inv (later {t = u} r st) = Step-IsOwned u t (Reach-IsOwned s u inv r) st

  -- In a state reached from one with owned connections, whatever a client sends, the server writes
  -- nothing to a connection whose session is of another user.
  pub Reach-frame_private :
      (s t : System b) (now : Time) (frame : Frame) (conn d : Conn) (client other : UserId)
      → IsOwned s
      → Reach b setup s t
      → user_at (t.sessions d) ≡ some other
      → other ≢ client
      → b.sockets.sent
          (on_frame b (notifications b) (configurations b) now frame client conn t.world).sockets
          d
        ≡ b.sockets.sent t.world.sockets d
  Reach-frame_private s t now frame conn d client other inv r whose apart =
      (on_frame-Serves b law client now frame conn t.world).quiet d
        (elim (Bool-cases (has d (conns_of t.world.clients client))) [
          | inl there ↦
              absurd
                (apart (eq_of_some (sym whose ∙ (Reach-IsOwned s t inv r).owned client d there)))
          | inr absent ↦ absent
        ])
