-- ===== src/WebSocket/Loops.antt =====
-- handlers/websocket.go: the loops of the goroutines that read and that ping a connection. Round
-- `n` of reading has the clock reading and the frame `input n`, and `others n` is what the rest of
-- the server has done before a round.
use mathlib.Core.Path.{subst}
use r2_notify_server.Prelude.{
  Error, eq_of_some, ℕ, ◌≡◌, refl, ◌∙◌, ap, zero, suc, ◌+◌, false, Option, none, some, eq_refl,
  arith,
}
use r2_notify_server.Models.{Time, UserId, Conn}
use r2_notify_server.World.{Backend, World, conns_of}
use r2_notify_server.ClientStore.Writing.{has, has-without}
use r2_notify_server.ClientStore.Registry.{conns_of-remove_connection}
use r2_notify_server.Service.Notification.{NotificationService}
use r2_notify_server.Service.Configuration.{ConfigurationService}
use r2_notify_server.WebSocket.Events.{
  Frame, failed, text, binary, control, on_frame, on_tick, after_ping,
}

abbrev pub Input : Type 0
Input = ℕ → Time × Frame

module _ (b : Backend) (notifications : NotificationService (World b))
    (configurations : ConfigurationService (World b)) (client : UserId) (conn : Conn) where
  abbrev pub Others : Type 0
  Others = ℕ → World b → World b

  -- A round, given the rest of the loop.
  abbrev pub round : Time → Frame → (World b → Option (World b)) → World b → Option (World b)
  round now failed rest w = some (on_frame b notifications configurations now failed client conn w)
  round now frame rest w = rest (on_frame b notifications configurations now frame client conn w)

  -- The loop from round `i` on, for at most so many rounds: `none` if it has not ended by then.
  unfoldable pub read_loop : ℕ → ℕ → Input → Others → World b → Option (World b)
  read_loop zero i input others w = none
  read_loop (suc rounds) i input others w =
      round (input i).0 (input i).1 (λ v. read_loop rounds (suc i) input others v) (others i w)

  -- A failed read takes the connection out of the map.
  failed_gone :
      (now : Time) (w : World b)
      → has conn (
          conns_of
            (on_frame b notifications configurations now failed client conn w).clients
            client)
        ≡ false
  unfolding on_frame
  failed_gone now w =
      ap (has conn) (conns_of-remove_connection b client conn w client)
      ∙ rw (eq_refl client) (has-without conn (conns_of w.clients client))

  -- How a loop has ended: by a failed read, and with the connection out of the map.
  abbrev pub HasEnded : Option (World b) → Type 0
  HasEnded r = (w : World b) × (r ≡ some w) × (has conn (conns_of w.clients client) ≡ false)

  ended_round :
      (now : Time) (frame : Frame) (rest : World b → Option (World b)) (w : World b)
      → ((v : World b) → HasEnded (rest v))
      → HasEnded (round now frame rest w)
  ended_round now failed rest w h = (_, refl, failed_gone now w)
  ended_round now (text m) rest w h = h _
  ended_round now (binary m) rest w h = h _
  ended_round now (control m) rest w h = h _

  -- The loop that reads a connection has ended by the round in which a read fails, whatever was
  -- read and whatever the rest of the server did before, and then the connection is not in the map
  -- under its user.
  pub read_loop-ends :
      (rounds i : ℕ) (now : Time) (input : Input) (others : Others) (w : World b)
      → input (i + rounds) ≡ (now, failed)
      → HasEnded (read_loop (suc rounds) i input others w)
  unfolding read_loop
  read_loop-ends zero i now input others w e =
      let failing : input i ≡ (now, failed) = ap input (omega arith) ∙ e in
      rw failing (_, refl, failed_gone now (others i w))
  read_loop-ends (suc rounds) i now input others w e =
      ended_round _ _ _ _
        λ v. read_loop-ends rounds (suc i) now input others v (ap input (omega arith) ∙ e)

  -- A round of the pinging goroutine, given the ping's error, the rest of the loop and the state.
  abbrev pub ping_round : Option Error → (World b → Option (World b)) → World b → Option (World b)
  ping_round none rest w = rest w
  ping_round (some e) rest w = some w

  unfoldable pub ping_loop : ℕ → ℕ → Others → World b → Option (World b)
  ping_loop zero i others w = none
  ping_loop (suc rounds) i others w =
      ping_round (b.sockets.ping conn (others i w).sockets).0
        (λ v. ping_loop rounds (suc i) others v)
        (on_tick b notifications configurations client conn (others i w))

  tick_gone :
      (e : Option Error) (k : b.sockets.State) (w v : World b)
      → ping_round e
          (λ u. none)
          (after_ping b notifications configurations client conn e (record w { sockets = k }))
        ≡ some v
      → has conn (conns_of v.clients client) ≡ false
  unfolding after_ping
  tick_gone none k w v h = cc
  tick_gone (some e) k w v h =
      subst (λ u. has conn (conns_of u.clients client) ≡ false) (eq_of_some h)
        (ap (has conn) (conns_of-remove_connection b client conn (record w { sockets = k }) client)
          ∙ rw (eq_refl client) (has-without conn (conns_of w.clients client)))

  ping_round-gone :
      (e : Option Error) (k : b.sockets.State) (rest : World b → Option (World b)) (w v : World b)
      → ((u : World b) → rest u ≡ some v → has conn (conns_of v.clients client) ≡ false)
      → ping_round e rest
          (after_ping b notifications configurations client conn e (record w { sockets = k }))
        ≡ some v
      → has conn (conns_of v.clients client) ≡ false
  ping_round-gone none k rest w v ih h = ih _ h
  ping_round-gone (some e) k rest w v ih h = tick_gone (some e) k w v h

  -- When the goroutine that pings has ended, the connection is not in the map under its user.
  ping_loop-gone :
      (rounds i : ℕ) (others : Others) (w v : World b)
      → ping_loop rounds i others w ≡ some v
      → has conn (conns_of v.clients client) ≡ false
  unfolding ping_loop on_tick
  ping_loop-gone zero i others w v h = cc
  ping_loop-gone (suc rounds) i others w v h =
      ping_round-gone (b.sockets.ping conn (others i w).sockets).0
        (b.sockets.ping conn (others i w).sockets).1 _ (others i w) v
        (λ u. ping_loop-gone rounds (suc i) others u v) h
