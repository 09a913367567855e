-- ===== src/Interleaving/Safe.antt =====
-- What a call of a handler may do to the map and to the connections.
use r2_notify_server.Prelude.{
  ◌≡◌, ◌≢◌, sym, ◌∙◌, ap, Bool, true, false, Option, some, ◌⊎◌, inl, inr, Bool-cases, if◌then◌else◌,
}
use r2_notify_server.Models.{UserId, Conn}
use r2_notify_server.World.{Backend, World, LawfulSockets, Clients, conns_of}
use r2_notify_server.ClientStore.Writing.{has}
use r2_notify_server.Server.Reach.{Serves}
use r2_notify_server.Interleaving.Program.{Program, returns, calls, ◌>>=◌}

-- Every connection of the map stands under the user it was let in for.
abbrev pub IsOwned : (Conn → Option UserId) → Clients → Type 0
IsOwned users m = (u : UserId) (c : Conn) → has c (conns_of m u) ≡ true → users c ≡ some u

module _ (b : Backend) (law : LawfulSockets b.sockets) where
  pub data Allowed (users : Conn → Option UserId) (who : Option UserId) {B : Type 0}
      (op : World b → B × World b) : Type 0 where
    -- It serves the handler's user.
    serves :
        (user : UserId)
        → who ≡ some user
        → ((w : World b) → Serves b law user w (op w).1)
        → Allowed users who op
    -- It touches neither the map nor what was sent.
    silent :
        ((w : World b) → (op w).1.clients ≡ w.clients)
        → ((w : World b) (d : Conn)
            → b.sockets.sent (op w).1.sockets d ≡ b.sockets.sent w.sockets d)
        → Allowed users who op
    -- It adds a connection to the user it was let in for.
    admits :
        (user : UserId) (conn : Conn)
        → users conn ≡ some user
        → ((w : World b) (u : UserId) (c : Conn)
            → has c (conns_of (op w).1.clients u) ≡ true
            → (has c (conns_of w.clients u) ≡ true) ⊎ ((c ≡ conn) × (u ≡ user)))
        → ((w : World b) (d : Conn)
            → b.sockets.sent (op w).1.sockets d ≡ b.sockets.sent w.sockets d)
        → Allowed users who op

  module _ (users : Conn → Option UserId) (who : Option UserId) where
    pub Allowed-IsOwned :
        {B : Type 0} (op : World b → B × World b) (w : World b)
        → Allowed users who op
        → IsOwned users w.clients
        → IsOwned users (op w).1.clients
    Allowed-IsOwned op w (serves user e s) own u c h = own u c ((s w).narrows.fewer u c h)
    Allowed-IsOwned op w (silent same quiet) own u c h =
        own u c (ap (λ m. has c (conns_of m u)) (sym (same w)) ∙ h)
    Allowed-IsOwned op w (admits user conn e adds quiet) own u c h = elim (adds w u c h) [
      | inl old ↦ own u c old
      | inr (is_conn, is_user) ↦ rw (is_conn, is_user) e
    ]

    pub Allowed-private :
        {B : Type 0} (op : World b → B × World b) (w : World b) (d : Conn) (other : UserId)
        → Allowed users who op
        → IsOwned users w.clients
        → users d ≡ some other
        → who ≢ some other
        → b.sockets.sent (op w).1.sockets d ≡ b.sockets.sent w.sockets d
    Allowed-private op w d other (serves user e s) own whose apart =
        (s w).quiet d (elim (Bool-cases (has d (conns_of w.clients user))) [
          | inl there ↦ absurd (apart (e ∙ sym (own user d there) ∙ whose))
          | inr absent ↦ absent
        ])
    Allowed-private op w d other (silent same quiet) own whose apart = quiet w d
    Allowed-private op w d other (admits user conn e adds quiet) own whose apart = quiet w d

    -- All calls that a program can come to are allowed.
    abbrev pub IsSafe : {A : Type 0} → Program (World b) A → Type 0
    IsSafe (returns a) = Unit
    IsSafe (calls {B = B} op next) = Allowed users who op × ((r : B) → IsSafe (next r))

    pub >>=-IsSafe :
        {A B : Type 0} (p : Program (World b) A) (f : A → Program (World b) B)
        → IsSafe p
        → ((a : A) → IsSafe (f a))
        → IsSafe (p >>= f)
    >>=-IsSafe (returns a) f h g = g a
    >>=-IsSafe (calls op next) f h g = (h.0, λ r. >>=-IsSafe (next r) f (h.1 r) g)

    pub if-IsSafe :
        {A : Type 0} (t : Bool) (p q : Program (World b) A)
        → IsSafe p
        → IsSafe q
        → IsSafe (if t then p else q)
    if-IsSafe true p q h g = h
    if-IsSafe false p q h g = g

  -- More connections let in.
  Allowed-more :
      (users users' : Conn → Option UserId) (who : Option UserId) {B : Type 0}
      (op : World b → B × World b)
      → ((c : Conn) (u : UserId) → users c ≡ some u → users' c ≡ some u)
      → Allowed users who op
      → Allowed users' who op
  Allowed-more users users' who op more (serves user e s) = serves user e s
  Allowed-more users users' who op more (silent same quiet) = silent same quiet
  Allowed-more users users' who op more (admits user conn e adds quiet) =
      admits user conn (more conn user e) adds quiet

  pub IsSafe-more :
      (users users' : Conn → Option UserId) (who : Option UserId) {A : Type 0}
      (p : Program (World b) A)
      → ((c : Conn) (u : UserId) → users c ≡ some u → users' c ≡ some u)
      → IsSafe users who p
      → IsSafe users' who p
  IsSafe-more users users' who (returns a) more h = tt
  IsSafe-more users users' who (calls op next) more h = (
    Allowed-more users users' who op more h.0,
    λ r. IsSafe-more users users' who (next r) more (h.1 r),
  )
