-- ===== src/Server/System/Admission.antt =====
-- What a new connection does to the map.
use mathlib.Core.Path.{subst}
use r2_notify_server.Prelude.{
  ◌≡◌, refl, sym, Bool, true, false, Option, none, some, List, [], ◌∷◌, ◌++◌, ◌⊎◌, inl, inr, Result,
  ok, err, ◌==◌, eq_iff, eqb, Bool-cases, arith, String, ◌&&◌,
}
use r2_notify_server.Models.{Time, UserId, Conn}
use r2_notify_server.Data
use r2_notify_server.World.{Backend, World, LawfulSockets, Clients, conns_of, put}
use r2_notify_server.ClientStore.{store_client}
use r2_notify_server.ClientStore.Writing.{has, AreDistinct}
use r2_notify_server.Utils.{Jwt, validate_token}
use r2_notify_server.WebSocket.Connect.{
  Connected, Handshake, connect, configured, configure, register, welcome, check_origin,
}
use r2_notify_server.Service.Configuration
use r2_notify_server.Server.{notifications, configurations}
use r2_notify_server.Server.Reach.{Narrows, Narrows-refl, Serves-silent}
use r2_notify_server.Server.Frames.{send_all-Serves, send_configurations-Serves}
use r2_notify_server.Server.System.{Session, session_of}

abbrev pub user_at : Option Session → Option UserId
user_at none = none
user_at (some session) = some session.user

-- A connection that is not in the map may come under the user; nobody gains any other.
pub record Admits (user : UserId) (conn : Conn) (m m' : Clients) : Type 0 where
  pub fewer :
      (u : UserId) (c : Conn)
      → has c (conns_of m' u) ≡ true
      → (has c (conns_of m u) ≡ true) ⊎ ((c ≡ conn) × (u ≡ user))
  pub distinct :
      has conn (conns_of m user) ≡ false
      → (u : UserId) → AreDistinct (conns_of m u)
      → AreDistinct (conns_of m' u)

Admits-Narrows :
    (user : UserId) (conn : Conn) (m n o : Clients)
    → Admits user conn m n
    → Narrows n o
    → Admits user conn m o
Admits-Narrows user conn m n o p q = record {
  fewer = λ u c h. p.fewer u c (q.fewer u c h);
  distinct = λ h u g. q.distinct u (p.distinct h u g);
}

Narrows-Admits : (user : UserId) (conn : Conn) (m n : Clients) → Narrows m n → Admits user conn m n
Narrows-Admits user conn m n p = record {
  fewer = λ u c h. inl (p.fewer u c h);
  distinct = λ h u g. p.distinct u g;
}

has-snoc :
    (c conn : Conn) (cs : List Conn)
    → has c (cs ++ conn ∷ []) ≡ true
    → (has c cs ≡ true) ⊎ (c ≡ conn)
has-snoc c conn [] h = inr (ground arith)
has-snoc c conn (x ∷ xs) h = ground (arith, has-snoc c conn xs)

not-has-snoc :
    (c conn : Conn) (cs : List Conn)
    → has c cs ≡ false
    → eqb conn c ≡ false
    → has c (cs ++ conn ∷ []) ≡ false
not-has-snoc c conn [] h e = ground arith
not-has-snoc c conn (x ∷ xs) h e = ground (arith, not-has-snoc c conn xs)

snoc-AreDistinct :
    (conn : Conn) (cs : List Conn)
    → has conn cs ≡ false
    → AreDistinct cs
    → AreDistinct (cs ++ conn ∷ [])
snoc-AreDistinct conn [] h d = (refl, tt)
snoc-AreDistinct conn (x ∷ xs) h d =
    ground (arith, not-has-snoc x conn xs d.0, snoc-AreDistinct conn xs)

put-Admits :
    (user : UserId) (conn : Conn) (m : Clients)
    → Admits user conn m (put user (conns_of m user ++ conn ∷ []) m)
put-Admits user conn m = record {
  fewer = λ u c h. elim (Bool-cases (user == u)) [
    | inl same ↦
        let u_is : user ≡ u = (eq_iff user u).0 same in
        let here : has c (conns_of m user ++ conn ∷ []) ≡ true = rw same at h in
        elim (has-snoc c conn (conns_of m user) here) [
          | inl old ↦ inl (subst (λ v. has c (conns_of m v) ≡ true) u_is old)
          | inr new ↦ inr (new, sym u_is)
        ]
    | inr other_user ↦ inl (rw other_user at h)
  ];
  distinct = λ h u g. elim (Bool-cases (user == u)) [
    | inl same ↦ rw same (
        snoc-AreDistinct conn (conns_of m user) h
          (subst (λ v. AreDistinct (conns_of m v)) (sym ((eq_iff user u).0 same)) g))
    | inr other_user ↦ rw other_user g
  ];
}

module _ (b : Backend) (law : LawfulSockets b.sockets) (conn : Conn) (w : World b) where
  -- How a new connection has changed the map: not at all, or under the user of its session.
  pub data Changes (subject : Result UserId) (p : Connected × World b) : Type 0 where
    narrowed : Narrows w.clients p.1.clients → Changes subject p
    admitted :
        (user : UserId)
        → user_at (session_of p.0 subject) ≡ some user
        → Admits user conn w.clients p.1.clients
        → Changes subject p

  welcome-Changes :
      (user : UserId) (p : Result (Unit {0}) × World b)
      → Admits user conn w.clients p.1.clients
      → Changes (ok user) (welcome b (notifications b) (configurations b) user conn p)
  unfolding welcome
  welcome-Changes user (err e, v) h = admitted user refl h
  welcome-Changes user (ok u, v) h = admitted user refl (
      Admits-Narrows user conn w.clients v.clients _ h
        (send_configurations-Serves b law user v _
          (send_all-Serves b law user false v v (Serves-silent b law user v v refl refl))).narrows)

  register-Changes :
      (now : Time) (user : UserId) (p : Result Bool × World b)
      → p.1.clients ≡ w.clients
      → Changes (ok user) (register b (notifications b) (configurations b) now user conn p)
  unfolding register store_client
  register-Changes now user (err e, v) same =
      narrowed (subst (Narrows w.clients) (sym same) (Narrows-refl w.clients))
  register-Changes now user (ok enable, v) same = welcome-Changes user _ (
      subst (λ m. Admits user conn w.clients (put user (conns_of m user ++ conn ∷ []) m)) (sym same)
        (put-Admits user conn w.clients))

  configured_clients :
      (user : UserId) (found : Result Data.Configuration) (v : World b)
      → (configured b (notifications b) (configurations b) user found v).1.clients ≡ v.clients
  unfolding configured Configuration.create
  configured_clients user (ok c) v = refl
  configured_clients user (err e) v = refl

  configure-Changes :
      (now : Time) (subject : Result UserId)
      → Changes subject (configure b (notifications b) (configurations b) now conn subject w)
  unfolding configure Configuration.find_by_app_and_user
  configure-Changes now (err e) = narrowed (Narrows-refl w.clients)
  configure-Changes now (ok user) =
      let (found, v) = (configurations b).find_by_app_and_user user w in
      register-Changes now user _ (configured_clients user found v)

  pub connect-Changes :
      (jwt : Jwt) (secret allowed : String) (now : Time) (request : Handshake)
      → Changes
          (validate_token jwt request.token secret)
          (connect b (notifications b) (configurations b) jwt secret allowed now request conn w)
  unfolding connect
  connect-Changes jwt secret allowed now request =
      elim (Bool-cases (request.proper && check_origin allowed request.origin)) [
        | inl accepted ↦
            rw accepted (configure-Changes now (validate_token jwt request.token secret))
        | inr turned_away ↦ rw turned_away (narrowed (Narrows-refl w.clients))
      ]
