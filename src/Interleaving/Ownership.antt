-- ===== src/Interleaving/Ownership.antt =====
-- Goroutines that run handlers at the same time: the states that they reach.
use r2_notify_server.Prelude.{
  ℕ, ◌≡◌, ◌≢◌, sym, ap, Option, some, inl, inr, eqb, eqb_iff, Bool-cases,
}
use mathlib.Core.Path.{subst}
use r2_notify_server.Models.{UserId, Conn}
use r2_notify_server.World.{Backend, World, LawfulSockets}
use r2_notify_server.Interleaving.Program.{Program, calls}
use r2_notify_server.Interleaving.Sequence.{frame, tick, handshake, request, event}
use r2_notify_server.Interleaving.Threads.{
  ServerHandler, Thread, idle, runs, State, at_thread, MayStart, users_with, Step, starts, does,
  ends, Reach, here, later,
}
use r2_notify_server.Interleaving.Safe.{
  IsOwned, Allowed-IsOwned, Allowed-private, IsSafe, IsSafe-more,
}
use r2_notify_server.Interleaving.Admitting.{program-IsSafe}

module _ (b : Backend) (law : LawfulSockets b.sockets) where
  abbrev pub IsThreadSafe : (Conn → Option UserId) → Thread b → Type 0
  IsThreadSafe users idle = Unit
  IsThreadSafe users (runs who p) = IsSafe b law users who p

  pub record IsSound (s : State b) : Type 0 where
    pub owned : IsOwned s.users s.world.clients
    pub safe : (i : ℕ) → IsThreadSafe s.users (s.threads i)

  -- A connection that was let in stays its user's.
  users_more :
      (h : ServerHandler b) (users : Conn → Option UserId)
      → MayStart b users h
      → (c : Conn) (u : UserId) → users c ≡ some u
      → users_with b h users c ≡ some u
  users_more (frame now f user conn) users may c u e = e
  users_more (tick user conn) users may c u e = e
  users_more (request binding jwt secret made changed r) users may c u e = e
  users_more (event made changed body) users may c u e = e
  users_more (handshake jwt secret allowed now r conn) users may c u e =
      elim (Bool-cases (eqb c conn)) [
        | inl same ↦ cc (ap users ((eqb_iff c conn).0 same), may, e)
        | inr elsewhere ↦ rw elsewhere e
      ]

  thread_more :
      (users users' : Conn → Option UserId) (t : Thread b)
      → ((c : Conn) (u : UserId) → users c ≡ some u → users' c ≡ some u)
      → IsThreadSafe users t
      → IsThreadSafe users' t
  thread_more users users' idle more h = tt
  thread_more users users' (runs who p) more h = IsSafe-more b law users users' who p more h

  at_thread_safe :
      (users : Conn → Option UserId) (threads : ℕ → Thread b) (i : ℕ) (t : Thread b)
      → ((j : ℕ) → IsThreadSafe users (threads j))
      → IsThreadSafe users t
      → (j : ℕ) → IsThreadSafe users (at_thread b threads i t j)
  at_thread_safe users threads i t all h j = elim (Bool-cases (eqb j i)) [
    | inl same ↦ rw same h
    | inr other ↦ rw other (all j)
  ]

  Step-IsSound : (s t : State b) → Step b s t → IsSound s → IsSound t
  Step-IsSound s _ (starts i h free may) sound = record {
    owned = λ u c there. users_more h s.users may c u (sound.owned u c there);
    safe =
        at_thread_safe (users_with b h s.users) s.threads i _
          (λ j.
            thread_more s.users (users_with b h s.users) (s.threads j) (users_more h s.users may)
              (sound.safe j))
          (program-IsSafe b law s.users h may);
  }
  Step-IsSound s _ (does i who op next e) sound =
      let safe = subst (IsThreadSafe s.users) e (sound.safe i) in
      record {
        owned = Allowed-IsOwned b law s.users who op s.world safe.0 sound.owned;
        safe = at_thread_safe s.users s.threads i _ sound.safe (safe.1 (op s.world).0);
      }
  Step-IsSound s _ (ends i who a e) sound = record {
    owned = sound.owned;
    safe = at_thread_safe s.users s.threads i idle sound.safe tt;
  }

  Reach-IsSound : (s t : State b) → Reach b s t → IsSound s → IsSound t
  Reach-IsSound s _ here sound = sound
  Reach-IsSound s _ (later {t = u} r st) sound = Step-IsSound u _ st (Reach-IsSound s u r sound)

  module _ (s t : State b) (quiet : (i : ℕ) → s.threads i ≡ idle)
      (own : IsOwned s.users s.world.clients) (r : Reach b s t) where
    reached : IsSound t
    reached =
        Reach-IsSound s t r
          (record { owned = own; safe = λ i. subst (IsThreadSafe s.users) (sym (quiet i)) tt })

    -- When goroutines run the handlers of connections, messages, pings, requests and events at the
    -- same time, one call of a service or of the store at a time in any order, from a state in
    -- which no handler runs and every connection in the map stands under the user it was let in
    -- for, only such maps are reached; a sendToUser counts as one call.
    pub Reach-threads-IsOwned : IsOwned t.users t.world.clients
    Reach-threads-IsOwned = reached.owned

    -- In a state that goroutines reach in this way, the next call of a handler that works for one
    -- user, or for none, writes nothing to a connection that was let in for another user.
    pub does_private :
        (i : ℕ) (who : Option UserId) {A B : Type 0} (op : World b → B × World b)
        (next : B → Program (World b) A) (d : Conn) (other : UserId)
        → t.threads i ≡ runs who (calls op next)
        → t.users d ≡ some other
        → who ≢ some other
        → b.sockets.sent (op t.world).1.sockets d ≡ b.sockets.sent t.world.sockets d
    does_private i who op next d other e whose apart =
        let safe = subst (IsThreadSafe t.users) e (reached.safe i) in
        Allowed-private b law t.users who op t.world d other safe.0 reached.owned whose apart
