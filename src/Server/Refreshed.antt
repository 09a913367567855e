-- ===== src/Server/Refreshed.antt =====
-- What a client's command delivers when it may have reported an error: the list as it then is.
use mathlib.Core.Path.{subst}
use r2_notify_server.Prelude.{◌≡◌, refl, sym, ◌∙◌, ap, false, List, map, Result, ok, err, select}
use r2_notify_server.Models.{Time, UserId, Conn, Notification}
use r2_notify_server.Data
use r2_notify_server.Data.{EventNotification, list_notifications}
use r2_notify_server.Json.{Bytes, Json}
use r2_notify_server.Json.Encode.{encode_notification_list}
use r2_notify_server.Json.Decode.{unmarshal_event_notification}
use r2_notify_server.Mongo.{Lawful}
use r2_notify_server.World.{Backend, World, LawfulSockets}
use r2_notify_server.ClientStore.{send_notification_list_to_user, get_client_info}
use r2_notify_server.ClientStore.Delivery.{send_to_user-collections}
use r2_notify_server.Repository.Notification.{find_all}
use r2_notify_server.Repository.Notification.Scope.{is_unread}
use r2_notify_server.Repository.Notification.Reads.{find_all-view}
use r2_notify_server.Service.Notification
use r2_notify_server.WebSocket.Actions.{send_list, send_all_notifications_to_client}
use r2_notify_server.WebSocket.Events.{handle_event}
use r2_notify_server.Server.{notifications, configurations}
use r2_notify_server.Server.Inbox.{
  Act, Width, event_name, scope_of, carry_out, perform, handle_event-perform,
}
use r2_notify_server.Server.Delivered.{IsListening, Receives, all_sent}

module _ (b : Backend) (law : LawfulSockets b.sockets) (client : UserId) (d : Conn) where
  list_stored :
      (r : Result (List Data.Notification)) (w : World b)
      → (send_list b (notifications b) (configurations b) client false r w).notifications
        ≡ w.notifications
  unfolding send_list send_notification_list_to_user
  list_stored (err e) w = refl
  list_stored (ok ns) w = (send_to_user-collections b client _ false w).0

  all_stored :
      (w : World b)
      → (send_all_notifications_to_client b
          (notifications b)
          (configurations b)
          client
          false
          w).notifications
        ≡ (find_all b.notifications b.ids client w.notifications).1
  unfolding send_all_notifications_to_client Notification.find_all
  all_stored w = let (r, w') = (notifications b).find_all client w in list_stored r w'

  -- The list of the notifications that a collection has unread.
  abbrev pub unread_list : List Notification → Data.NotificationList
  unread_list ns = record {
    event = list_notifications;
    content = map (Notification.listed b.ids) (select (is_unread client) ns);
  }

  -- When a client whose user is listening sends the event of a command, and the list can then be
  -- read and written, each of the user's connections that is still in the map has got one message,
  -- the list of what the collection has unread for the user when the handler is done, whether the
  -- command has reported an error or not. Nothing else is written.
  pub handle_event-Receives_unread :
      (lawful : Lawful b.notifications) (act : Act) (width : Width) (now : Time) (message : Bytes)
      (e : EventNotification) (ds : List Notification) (j : Json) (w : World b)
      → IsListening b client w
      → unmarshal_event_notification b.times message ≡ ok e
      → (find_all b.notifications b.ids client
          (carry_out b act (scope_of width e) now client w.notifications).1).0
        ≡ ok ds
      → let v =
          handle_event b
            (notifications b)
            (configurations b)
            now
            (event_name act width)
            message
            client
            w in
        encode_notification_list b.times (unread_list (b.notifications.view v.notifications)) ≡ ok j
        → Receives b law client d j w v
  unfolding get_client_info
  handle_event-Receives_unread lawful act width now message e ds j w listens parsed read written =
      let same = handle_event-perform b act width now message e client w parsed in
      let done = (perform b act (scope_of width e) now client w).1 in
      let (found, kept) =
        find_all-view b.notifications b.ids lawful client done.notifications ds read in
      let shown : b.notifications.view
            (handle_event b (notifications b) (configurations b) now (event_name act width) message
              client w).notifications
          ≡ b.notifications.view done.notifications =
        ap (λ (v : World b). b.notifications.view v.notifications) same
        ∙ ap b.notifications.view (all_stored done)
        ∙ kept in
      subst (Receives b law client d j w) (sym same) (
        all_sent b law client d ds j done
          (record {
            conns = listens.conns;
            info = listens.info;
            connected = listens.connected;
            distinct = listens.distinct;
            known = listens.known;
            enabled = listens.enabled;
          })
          read
          (ap
              (λ ns. encode_notification_list b.times (record {
                event = list_notifications;
                content = map (Notification.listed b.ids) ns;
              }))
              (found ∙ ap (select (is_unread client)) (sym shown))
            ∙ written))
