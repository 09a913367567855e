-- ===== src/Server/Events.antt =====
-- Events of the event hub.
use r2_notify_server.Prelude.{◌≡◌, refl, ◌∙◌, ap, false, [], ◌∷◌, ◌++◌, Result, ok, err}
use r2_notify_server.Models
use r2_notify_server.Models.{Time, ObjectId, nil_object_id}
use r2_notify_server.Data.{EventHubNotificationPayload}
use r2_notify_server.Json.{Bytes}
use r2_notify_server.Json.Decode.{unmarshal_event_hub_payload}
use r2_notify_server.Mongo.{Lawful}
use r2_notify_server.World.{Backend, World, LawfulSockets}
use r2_notify_server.ClientStore.{send_notification_to_user}
use r2_notify_server.ClientStore.Delivery.{send_to_user-collections}
use r2_notify_server.Repository.Notification.Schema.{stored}
use r2_notify_server.Consumer.{model_of, payload_of, announce, receive_payload, receive}
use r2_notify_server.Server.{notifications}
use r2_notify_server.Server.Reach.{Narrows, Narrows-refl, Serves, Serves-trans, send_to_user-Serves}
use r2_notify_server.Server.Stored.{silent_create, created_view}

module _ (b : Backend) (law : LawfulSockets b.sockets) where
  announced_Serves :
      (p : EventHubNotificationPayload) (made changed : Time) (r : Result ObjectId × World b)
      (w : World b)
      → Serves b law p.user_id w r.1
      → Serves b law p.user_id w (announce b (notifications b) p made changed r)
  unfolding announce send_notification_to_user payload_of
  announced_Serves p made changed (err e, v) w h = h
  announced_Serves p made changed (ok id, v) w h =
      Serves-trans b law p.user_id w v _ h (send_to_user-Serves b law p.user_id _ false v)

  -- An event of the event hub is only for the user that it names.
  pub receive-Serves :
      (made changed : Time) (p : EventHubNotificationPayload) (w : World b)
      → Serves b law p.user_id w (receive_payload b (notifications b) made changed (ok p) w)
  unfolding receive_payload
  receive-Serves made changed p w =
      announced_Serves p made changed _ w
        (silent_create b law p.user_id (model_of p made changed) w)

  announced_notifications :
      (p : EventHubNotificationPayload) (made changed : Time) (r : Result ObjectId × World b)
      → (announce b (notifications b) p made changed r).notifications ≡ r.1.notifications
  unfolding announce send_notification_to_user payload_of
  announced_notifications p made changed (err e, v) = refl
  announced_notifications p made changed (ok id, v) =
      (send_to_user-collections b p.user_id _ false v).0

  -- An event that parses, and whose creation gives an id, leaves at the end of the collection a
  -- notification with that id, unread, with the user, the app, the group, the message and the
  -- status of the event and the times of the callback, whatever is empty in it.
  pub receive-view :
      (made changed : Time) (body : Bytes) (p : EventHubNotificationPayload) (id : ObjectId)
      (w : World b)
      → Lawful b.notifications
      → unmarshal_event_hub_payload body ≡ ok p
      → let n : Models.Notification = record {
        id = nil_object_id;
        app_id = p.app_id;
        user_id = p.user_id;
        group_key = p.group_key;
        message = p.message;
        status = p.status;
        read_status = false;
        created_at = made;
        updated_at = changed;
      } in
        ((notifications b).create n w).0 ≡ ok id
        → b.notifications.view (receive b (notifications b) made changed body w).notifications
          ≡ b.notifications.view w.notifications ++ stored id n ∷ []
  unfolding receive receive_payload
  receive-view made changed body p id w lawful e h =
      ap
        (λ r.
          b.notifications.view (receive_payload b (notifications b) made changed r w).notifications)
        e
      ∙ ap b.notifications.view (announced_notifications p made changed _)
      ∙ created_view b lawful (model_of p made changed) id w h

module _ (b : Backend) (law : LawfulSockets b.sockets) (made changed : Time) where
  payload_Narrows :
      (r : Result EventHubNotificationPayload) (w : World b)
      → Narrows w.clients (receive_payload b (notifications b) made changed r w).clients
  unfolding receive_payload
  payload_Narrows (err e) w = Narrows-refl w.clients
  payload_Narrows (ok p) w = (receive-Serves b law made changed p w).narrows

  pub receive-Narrows :
      (body : Bytes) (w : World b)
      → Narrows w.clients (receive b (notifications b) made changed body w).clients
  unfolding receive
  receive-Narrows body w = payload_Narrows (unmarshal_event_hub_payload body) w
