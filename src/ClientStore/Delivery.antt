-- ===== src/ClientStore/Delivery.antt =====
-- What sendToUser writes, to which connections, and what it leaves in the map.
use mathlib.Core.Path.{subst}
use r2_notify_server.Prelude.{
  ◌≡◌, refl, sym, ◌∙◌, ap, Bool, true, false, not, ◌&&◌, ◌||◌, Option, none, some, List, [], ◌∷◌,
  ◌++◌, Result, ok, err, Error, notifications_disabled, user_not_connected, inl, inr, Bool-cases,
  eq_refl, eq_of_ok, arith, if◌then◌else◌,
}
use r2_notify_server.Models.{UserId, Conn, ClientInfo}
use r2_notify_server.Json.{Json}
use r2_notify_server.World.{Backend, World, LawfulSockets, conns_of, connections}
use r2_notify_server.ClientStore.{
  send_to_user, send_checked, send_marshalled, send_found, get_client_info, deliver, write_all,
}
use r2_notify_server.ClientStore.Writing.{
  has, AreDistinct, write_all-sent_other, write_all-sent, write_all-sent_failed,
}

-- How a call of sendToUser went: refused with nothing written, or carried out.
pub data Outcome (b : Backend) (user : UserId) (payload : Result Json) (bypass : Bool) (w : World b)
    (p : Result (Unit {0}) × World b) : Type 0 where
  refused :
      (e : Error)
      → p.0 ≡ err e
      → p.1.sockets ≡ w.sockets
      → p.1.clients ≡ w.clients
      → Outcome b user payload bypass w p
  carried_out :
      (conns : List Conn) (info : ClientInfo) (j : Json)
      → p.0 ≡ ok tt
      → w.clients user ≡ some conns
      → (get_client_info b user w).0 ≡ ok info
      → (bypass || info.enable_notification) ≡ true
      → payload ≡ ok j
      → p.1 ≡ deliver b user conns j (get_client_info b user w).1
      → Outcome b user payload bypass w p

module _ (b : Backend) (user : UserId) (w : World b) where
  marshalled_Outcome :
      (payload : Result Json) (bypass : Bool) (conns : List Conn) (info : ClientInfo)
      → w.clients user ≡ some conns
      → (get_client_info b user w).0 ≡ ok info
      → (bypass || info.enable_notification) ≡ true
      → Outcome b user payload bypass w
          (send_marshalled b user conns payload (get_client_info b user w).1)
  unfolding send_marshalled get_client_info
  marshalled_Outcome (err e) bypass conns info here read may = refused e refl refl refl
  marshalled_Outcome (ok j) bypass conns info here read may =
      carried_out conns info j refl here read may refl refl

  checked_Outcome :
      (payload : Result Json) (bypass : Bool) (conns : List Conn) (info : Result ClientInfo)
      → w.clients user ≡ some conns
      → (get_client_info b user w).0 ≡ info
      → Outcome b user payload bypass w
          (send_checked b user conns info payload bypass (get_client_info b user w).1)
  unfolding send_checked get_client_info
  checked_Outcome payload bypass conns (err e) here read = refused e refl refl refl
  checked_Outcome payload bypass conns (ok info) here read =
      elim (Bool-cases (not bypass && not info.enable_notification)) [
        | inl stop ↦ rw stop (refused notifications_disabled refl refl refl)
        | inr go ↦ rw go (marshalled_Outcome payload bypass conns info here read (ground arith))
      ]

  found_Outcome :
      (payload : Result Json) (bypass : Bool) (found : Option (List Conn))
      → w.clients user ≡ found
      → Outcome b user payload bypass w (send_found b user found payload bypass w)
  unfolding send_found
  found_Outcome payload bypass none here = refused user_not_connected refl refl refl
  found_Outcome payload bypass (some conns) here =
      checked_Outcome payload bypass conns (get_client_info b user w).0 here refl

  pub send_to_user-Outcome :
      (payload : Result Json) (bypass : Bool)
      → Outcome b user payload bypass w (send_to_user b user payload bypass w)
  unfolding send_to_user
  send_to_user-Outcome payload bypass = found_Outcome payload bypass (w.clients user) refl

  -- A call that reports an error has written to no connection and left the map as it was.
  send_to_user-refused :
      (payload : Result Json) (bypass : Bool) (e : Error)
      → (send_to_user b user payload bypass w).0 ≡ err e
      → ((send_to_user b user payload bypass w).1.sockets ≡ w.sockets)
        × ((send_to_user b user payload bypass w).1.clients ≡ w.clients)
  send_to_user-refused payload bypass e h = of_outcome (send_to_user-Outcome payload bypass)
    where
      of_outcome :
          Outcome b user payload bypass w (send_to_user b user payload bypass w)
          → ((send_to_user b user payload bypass w).1.sockets ≡ w.sockets)
            × ((send_to_user b user payload bypass w).1.clients ≡ w.clients)
      of_outcome (refused x q same_sockets same_clients) = (same_sockets, same_clients)
      of_outcome (carried_out conns info j q here read may written end) = cc

  -- A call without the bypass that reports no error has found a connected user whose stored
  -- information enables notifications.
  pub send_to_user-permitted :
      (payload : Result Json)
      → (send_to_user b user payload false w).0 ≡ ok tt
      → (conns : List Conn) × (info : ClientInfo) × (w.clients user ≡ some conns)
        × ((get_client_info b user w).0 ≡ ok info)
        × (info.enable_notification ≡ true)
  send_to_user-permitted payload h = of_outcome (send_to_user-Outcome payload false)
    where
      of_outcome :
          Outcome b user payload false w (send_to_user b user payload false w)
          → (conns : List Conn) × (info : ClientInfo) × (w.clients user ≡ some conns)
            × ((get_client_info b user w).0 ≡ ok info)
            × (info.enable_notification ≡ true)
      of_outcome (refused x q same_sockets same_clients) = cc
      of_outcome (carried_out conns info j q here read may written end) =
          (conns, info, here, read, may)

module _ (b : Backend) (law : LawfulSockets b.sockets) (user : UserId) (w : World b)
    (d : Conn) where
  deliver_sent :
      (conns : List Conn) (j : Json) (v : World b)
      → AreDistinct conns
      → b.sockets.sent (deliver b user conns j v).sockets d ≡ (
          if has d (conns_of (deliver b user conns j v).clients user)
          then b.sockets.sent v.sockets d ++ j ∷ []
          else b.sockets.sent v.sockets d)
  deliver_sent conns j v distinct =
      rw eq_refl (elim (Bool-cases (has d (write_all b conns j v.sockets).0)) [
        | inl got ↦ rw got (write_all-sent b law j d conns v.sockets distinct got)
        | inr not_got ↦
            rw not_got (write_all-sent_failed b law j d conns v.sockets distinct not_got)
      ])

  Outcome-sent :
      (payload : Result Json) (bypass : Bool) (j : Json) (p : Result (Unit {0}) × World b)
      → Outcome b user payload bypass w p
      → AreDistinct (conns_of w.clients user)
      → payload ≡ ok j
      → p.0 ≡ ok tt
      → b.sockets.sent p.1.sockets d ≡ (
          if has d (conns_of p.1.clients user)
          then b.sockets.sent w.sockets d ++ j ∷ []
          else b.sockets.sent w.sockets d)
  unfolding get_client_info
  Outcome-sent payload bypass j p (refused e q _ _) distinct written h = cc
  Outcome-sent payload bypass j p (carried_out conns info i q here read may encoded end) distinct
        written h =
      let same : i ≡ j = eq_of_ok (sym encoded ∙ written) in
      let spread = subst AreDistinct (ap (connections) here) distinct in
      rw (end, ← same) (deliver_sent conns i (get_client_info b user w).1 spread)

  -- After a send without an error to a user whose connections are distinct, each of them that is
  -- still in the map has got the message once, behind what it had got before, and no other
  -- connection has got anything.
  pub send_to_user-sent :
      (payload : Result Json) (bypass : Bool) (j : Json)
      → AreDistinct (conns_of w.clients user)
      → payload ≡ ok j
      → (send_to_user b user payload bypass w).0 ≡ ok tt
      → let w' = (send_to_user b user payload bypass w).1 in
        b.sockets.sent w'.sockets d ≡ (
          if has d (conns_of w'.clients user)
          then b.sockets.sent w.sockets d ++ j ∷ []
          else b.sockets.sent w.sockets d)
  send_to_user-sent payload bypass j distinct written h =
      Outcome-sent payload bypass j _ (send_to_user-Outcome b user w payload bypass) distinct
        written h

  -- Whatever its outcome, a call for a user writes nothing to a connection that the map does not
  -- have under that user.
  pub send_to_user-sent_other :
      (payload : Result Json) (bypass : Bool)
      → has d (conns_of w.clients user) ≡ false
      → b.sockets.sent (send_to_user b user payload bypass w).1.sockets d
        ≡ b.sockets.sent w.sockets d
  unfolding get_client_info
  send_to_user-sent_other payload bypass absent =
      of_outcome _ (send_to_user-Outcome b user w payload bypass)
    where
      of_outcome :
          (p : Result (Unit {0}) × World b)
          → Outcome b user payload bypass w p
          → b.sockets.sent p.1.sockets d ≡ b.sockets.sent w.sockets d
      of_outcome p (refused e q same_sockets _) = ap (λ k. b.sockets.sent k d) same_sockets
      of_outcome p (carried_out conns info j q here read may written end) = rw end (
          write_all-sent_other b law j d conns w.sockets
            (subst (λ o. has d (connections o) ≡ false) here absent))

-- Sending changes neither collection.
module _ (b : Backend) (user : UserId) where
  marshalled_collections :
      (conns : List Conn) (payload : Result Json) (w : World b)
      → ((send_marshalled b user conns payload w).1.notifications ≡ w.notifications)
        × ((send_marshalled b user conns payload w).1.configurations ≡ w.configurations)
  unfolding send_marshalled
  marshalled_collections conns (err e) w = (refl, refl)
  marshalled_collections conns (ok j) w = (refl, refl)

  checked_collections :
      (conns : List Conn) (info : Result ClientInfo) (payload : Result Json) (bypass : Bool)
      (w : World b)
      → ((send_checked b user conns info payload bypass w).1.notifications ≡ w.notifications)
        × ((send_checked b user conns info payload bypass w).1.configurations ≡ w.configurations)
  unfolding send_checked
  checked_collections conns (err e) payload bypass w = (refl, refl)
  checked_collections conns (ok info) payload bypass w =
      elim (Bool-cases (not bypass && not info.enable_notification)) [
        | inl stop ↦ rw stop (refl, refl)
        | inr go ↦ rw go (marshalled_collections conns payload w)
      ]

  found_collections :
      (found : Option (List Conn)) (payload : Result Json) (bypass : Bool) (w : World b)
      → ((send_found b user found payload bypass w).1.notifications ≡ w.notifications)
        × ((send_found b user found payload bypass w).1.configurations ≡ w.configurations)
  unfolding send_found get_client_info
  found_collections none payload bypass w = (refl, refl)
  found_collections (some conns) payload bypass w =
      let (info, w') = get_client_info b user w in checked_collections conns info payload bypass w'

  pub send_to_user-collections :
      (payload : Result Json) (bypass : Bool) (w : World b)
      → ((send_to_user b user payload bypass w).1.notifications ≡ w.notifications)
        × ((send_to_user b user payload bypass w).1.configurations ≡ w.configurations)
  unfolding send_to_user
  send_to_user-collections payload bypass w = found_collections (w.clients user) payload bypass w
