-- ===== src/Server/Reach.antt =====
-- Which connections an operation for a user can write to: those that the map has under the user.
use mathlib.Core.Path.{subst}
use r2_notify_server.Prelude.{
  ◌≡◌, sym, ◌∙◌, ap, Bool, true, false, List, [], ◌∷◌, Result, ◌==◌, eq_iff, Bool-cases, inl, inr,
  arith, if◌then◌else◌,
}
use r2_notify_server.Models.{UserId, Conn}
use r2_notify_server.Json.{Json}
use r2_notify_server.World.{Backend, World, LawfulSockets, Clients, conns_of, put}
use r2_notify_server.ClientStore.{send_to_user, get_client_info, without, remove_connection}
use r2_notify_server.ClientStore.Writing.{has, AreDistinct, has-write_all, write_all-AreDistinct}
use r2_notify_server.ClientStore.Delivery.{
  Outcome, refused, carried_out, send_to_user-Outcome, send_to_user-sent_other,
}
use r2_notify_server.ClientStore.Registry.{conns_of-remove_connection, sockets-remove_connection}

-- No user gains a connection, and no list gets a repetition.
pub record Narrows (m m' : Clients) : Type 0 where
  pub fewer : (u : UserId) (c : Conn) → has c (conns_of m' u) ≡ true → has c (conns_of m u) ≡ true
  pub distinct : (u : UserId) → AreDistinct (conns_of m u) → AreDistinct (conns_of m' u)

pub Narrows-refl : (m : Clients) → Narrows m m
Narrows-refl m = record { fewer = λ u c h. h; distinct = λ u h. h }

pub Narrows-trans : (m n o : Clients) → Narrows m n → Narrows n o → Narrows m o
Narrows-trans m n o p q = record {
  fewer = λ u c h. p.fewer u c (q.fewer u c h);
  distinct = λ u h. q.distinct u (p.distinct u h);
}

has-without : (c conn : Conn) (cs : List Conn) → has c (without conn cs) ≡ true → has c cs ≡ true
has-without c conn [] h = h
has-without c conn (x ∷ xs) h = ground (arith, has-without c conn xs)

not-has-without :
    (c conn : Conn) (cs : List Conn) → has c cs ≡ false → has c (without conn cs) ≡ false
not-has-without c conn [] h = h
not-has-without c conn (x ∷ xs) h = ground (arith, not-has-without c conn xs)

without-AreDistinct :
    (conn : Conn) (cs : List Conn) → AreDistinct cs → AreDistinct (without conn cs)
without-AreDistinct conn [] h = tt
without-AreDistinct conn (x ∷ xs) h =
    ground (arith, not-has-without x conn xs h.0, without-AreDistinct conn xs h.1)

-- A list of the user's own connections in the place of the user's list.
pub Narrows-put :
    (m : Clients) (user : UserId) (cs : List Conn)
    → ((c : Conn) → has c cs ≡ true → has c (conns_of m user) ≡ true)
    → (AreDistinct (conns_of m user) → AreDistinct cs)
    → Narrows m (put user cs m)
Narrows-put m user cs sub dist = record {
  fewer = λ u c h. ground (arith, eq_iff user u, sub c);
  distinct = λ u h. elim (Bool-cases (user == u)) [
    | inl same ↦
        rw same (dist (subst (λ v. AreDistinct (conns_of m v)) (sym ((eq_iff user u).0 same)) h))
    | inr other_user ↦ rw other_user h
  ];
}

module _ (b : Backend) (law : LawfulSockets b.sockets) (user : UserId) where
  -- What happens for a user: nobody gains a connection, and a connection that the map does not have
  -- under the user gets nothing.
  pub record Serves (w w' : World b) : Type 0 where
    pub narrows : Narrows w.clients w'.clients
    pub quiet :
        (d : Conn)
        → has d (conns_of w.clients user) ≡ false
        → b.sockets.sent w'.sockets d ≡ b.sockets.sent w.sockets d

  -- Only the collections or Redis have changed.
  pub Serves-silent :
      (w w' : World b) → w'.clients ≡ w.clients → w'.sockets ≡ w.sockets → Serves w w'
  Serves-silent w w' e f = record {
    narrows = subst (Narrows w.clients) (sym e) (Narrows-refl w.clients);
    quiet = λ d h. ap (λ k. b.sockets.sent k d) f;
  }

  pub Serves-trans : (v w x : World b) → Serves v w → Serves w x → Serves v x
  Serves-trans v w x p q = record {
    narrows = Narrows-trans v.clients w.clients x.clients p.narrows q.narrows;
    quiet = λ d h. q.quiet d (still_absent d h) ∙ p.quiet d h;
  }
    where
      still_absent :
          (d : Conn)
          → has d (conns_of v.clients user) ≡ false
          → has d (conns_of w.clients user) ≡ false
      still_absent d h = ground (arith, p.narrows.fewer user d)

  pub Serves-if :
      (t : Bool) (w x y : World b) → Serves w x → Serves w y → Serves w (if t then x else y)
  Serves-if true w x y p q = p
  Serves-if false w x y p q = q

  delivered-Narrows :
      (payload : Result Json) (bypass : Bool) (w : World b) (p : Result (Unit {0}) × World b)
      → Outcome b user payload bypass w p
      → Narrows w.clients p.1.clients
  unfolding get_client_info
  delivered-Narrows payload bypass w p (refused e q _ same) =
      subst (Narrows w.clients) (sym same) (Narrows-refl w.clients)
  delivered-Narrows payload bypass w p (carried_out conns info j q here _ _ _ end) = rw end (
      Narrows-put w.clients user _ (λ c h. rw here (has-write_all b j c conns w.sockets h))
        (λ h. write_all-AreDistinct b j conns w.sockets (rw here at h)))

  pub send_to_user-Serves :
      (payload : Result Json) (bypass : Bool) (w : World b)
      → Serves w (send_to_user b user payload bypass w).1
  send_to_user-Serves payload bypass w = record {
    narrows = delivered-Narrows payload bypass w _ (send_to_user-Outcome b user w payload bypass);
    quiet = λ d h. send_to_user-sent_other b law user w d payload bypass h;
  }

  removed_list :
      (conn : Conn) (w : World b) (u : UserId)
      → conns_of (remove_connection b user conn w).clients u
        ≡ (if user == u then without conn (conns_of w.clients u) else conns_of w.clients u)
  removed_list conn w u = conns_of-remove_connection b user conn w u

  removed_fewer :
      (t : Bool) (conn c : Conn) (cs : List Conn)
      → has c (if t then without conn cs else cs) ≡ true
      → has c cs ≡ true
  removed_fewer true conn c cs h = has-without c conn cs h
  removed_fewer false conn c cs h = h

  removed_distinct :
      (t : Bool) (conn : Conn) (cs : List Conn)
      → AreDistinct cs
      → AreDistinct (if t then without conn cs else cs)
  removed_distinct true conn cs h = without-AreDistinct conn cs h
  removed_distinct false conn cs h = h

  pub remove_connection-Serves :
      (conn : Conn) (w : World b) → Serves w (remove_connection b user conn w)
  remove_connection-Serves conn w = record {
    narrows = record {
      fewer = λ u c h.
          removed_fewer (user == u) conn c _
            (subst (λ l. has c l ≡ true) (removed_list conn w u) h);
      distinct = λ u h.
          subst AreDistinct (sym (removed_list conn w u)) (removed_distinct (user == u) conn _ h);
    };
    quiet = λ d h. ap (λ k. b.sockets.sent k d) (sockets-remove_connection b user conn w);
  }
