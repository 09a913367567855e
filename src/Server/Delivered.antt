-- ===== src/Server/Delivered.antt =====
-- What a client's command delivers: to each of the user's connections, what is left unread.
use mathlib.Core.Path.{subst}
use r2_notify_server.Prelude.{
  ◌≡◌, sym, ◌∙◌, ap, true, false, not, some, List, [], ◌∷◌, ◌++◌, map, Result, ok, err, ◌>>=◌,
  select, if◌then◌else◌,
}
use r2_notify_server.Models.{Time, UserId, Conn, ClientInfo, Notification}
use r2_notify_server.Data
use r2_notify_server.Data.{EventNotification, list_notifications}
use r2_notify_server.Json.{Bytes, Json}
use r2_notify_server.Json.Encode.{encode_notification_list}
use r2_notify_server.Json.Decode.{unmarshal_event_notification}
use r2_notify_server.Mongo.{Lawful}
use r2_notify_server.World.{Backend, World, LawfulSockets, conns_of}
use r2_notify_server.ClientStore.{send_notification_list_to_user, get_client_info}
use r2_notify_server.ClientStore.Writing.{has, AreDistinct}
use r2_notify_server.ClientStore.Delivery.{send_to_user-sent}
use r2_notify_server.ClientStore.Completion.{send_to_user-ok}
use r2_notify_server.Repository.Notification.{find_all}
use r2_notify_server.Repository.Notification.Scope.{Scope, is_unread}
use r2_notify_server.Repository.Notification.Reads.{find_all-mark, find_all-delete}
use r2_notify_server.Service.Notification
use r2_notify_server.WebSocket.Actions.{send_list, send_all_notifications_to_client}
use r2_notify_server.WebSocket.Events.{handle_event}
use r2_notify_server.Server.{notifications, configurations}
use r2_notify_server.Server.Inbox.{
  Act, marking, deleting, Width, event_name, scope_of, takes, left_unread, carry_out, perform,
  handle_event-perform,
}

-- The user is connected, each connection once, and notifications are enabled in what Redis has.
pub record IsListening (b : Backend) (client : UserId) (w : World b) : Type 0 where
  pub conns : List Conn
  pub info : ClientInfo
  pub connected : w.clients client ≡ some conns
  pub distinct : AreDistinct (conns_of w.clients client)
  pub known : (get_client_info b client w).0 ≡ ok info
  pub enabled : info.enable_notification ≡ true

module _ (b : Backend) (law : LawfulSockets b.sockets) (client : UserId) (d : Conn) where
  -- A connection has got a message if it is still in the map under the client, and else nothing.
  abbrev pub Receives : Json → World b → World b → Type 0
  Receives j w w' = b.sockets.sent w'.sockets d ≡ (
      if has d (conns_of w'.clients client)
      then b.sockets.sent w.sockets d ++ j ∷ []
      else b.sockets.sent w.sockets d)

  list_sent :
      (r : Result (List Data.Notification)) (ns : List Data.Notification) (j : Json) (w : World b)
      → IsListening b client w
      → r ≡ ok ns
      → encode_notification_list b.times (record { event = list_notifications; content = ns })
        ≡ ok j
      → Receives j w (send_list b (notifications b) (configurations b) client false r w)
  unfolding send_list send_notification_list_to_user
  list_sent (err e) ns j w listens found written = cc
  list_sent (ok ms) ns j w listens found written =
      let same : encode_notification_list b.times
            (record { event = list_notifications; content = ms })
          ≡ ok j =
        cc in
      send_to_user-sent b law client w d _ false j listens.distinct same (
        send_to_user-ok b client w _ false listens.conns listens.info j listens.connected
          listens.known listens.enabled same)

  pub all_sent :
      (ds : List Notification) (j : Json) (w : World b)
      → IsListening b client w
      → (find_all b.notifications b.ids client w.notifications).0 ≡ ok ds
      → encode_notification_list b.times
          (record { event = list_notifications; content = map (Notification.listed b.ids) ds })
        ≡ ok j
      → Receives j w
          (send_all_notifications_to_client b (notifications b) (configurations b) client false w)
  unfolding send_all_notifications_to_client Notification.find_all get_client_info
  all_sent ds j w listens found written =
      list_sent _ (map (Notification.listed b.ids) ds) j
        (record w { notifications = (find_all b.notifications b.ids client w.notifications).1 })
        (record {
          conns = listens.conns;
          info = listens.info;
          connected = listens.connected;
          distinct = listens.distinct;
          known = listens.known;
          enabled = listens.enabled;
        })
        (ap (λ r. r >>= λ values. ok (map (Notification.listed b.ids) values)) found) written

  read_after :
      (lawful : Lawful b.notifications) (act : Act) (scope : Scope) (now : Time)
      (s : b.notifications.State) (ds : List Notification)
      → (carry_out b act scope now client s).0 ≡ ok tt
      → (find_all b.notifications b.ids client (carry_out b act scope now client s).1).0 ≡ ok ds
      → ds
        ≡ select
            (λ n. not (takes b.ids act scope client n))
            (select (is_unread client) (b.notifications.view s))
  read_after lawful marking scope now s ds done read =
      find_all-mark b.notifications b.ids lawful scope now client s ds done read
  read_after lawful deleting scope now s ds done read =
      find_all-delete b.notifications b.ids lawful scope client s ds done read

  -- When a client whose user is listening sends the event of a command, the command reports no
  -- error and the list can be read and written, each of the user's connections that is still in
  -- the map has got one message: the list of what was unread and is outside what the command
  -- takes. Nothing else is written.
  pub handle_event-Receives :
      (lawful : Lawful b.notifications) (act : Act) (width : Width) (now : Time) (message : Bytes)
      (e : EventNotification) (ds : List Notification) (j : Json) (w : World b)
      → IsListening b client w
      → unmarshal_event_notification b.times message ≡ ok e
      → (carry_out b act (scope_of width e) now client w.notifications).0 ≡ ok tt
      → (find_all b.notifications b.ids client
          (carry_out b act (scope_of width e) now client w.notifications).1).0
        ≡ ok ds
      → encode_notification_list b.times
          (left_unread b.ids act (scope_of width e) client (b.notifications.view w.notifications))
        ≡ ok j
      → Receives j w (
          handle_event b
            (notifications b)
            (configurations b)
            now
            (event_name act width)
            message
            client
            w)
  unfolding get_client_info
  handle_event-Receives lawful act width now message e ds j w listens parsed done read written =
      let scope = scope_of width e in
      let left = read_after lawful act scope now w.notifications ds done read in
      subst (Receives j w) (sym (handle_event-perform b act width now message e client w parsed)) (
        all_sent ds j (perform b act scope now client w).1
          (record {
            conns = listens.conns;
            info = listens.info;
            connected = listens.connected;
            distinct = listens.distinct;
            known = listens.known;
            enabled = listens.enabled;
          })
          read
          (ap
              (λ ns. encode_notification_list b.times (record {
                event = list_notifications;
                content = map (Notification.listed b.ids) ns;
              }))
              left
            ∙ written))
