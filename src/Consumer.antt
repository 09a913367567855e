-- ===== src/Consumer.antt =====
-- event-hub/consumer/consumer.go: what the consumer does with an event of a partition.
use r2_notify_server.Prelude.{false, Result, ok, err}
use r2_notify_server.Models
use r2_notify_server.Models.{Time, ObjectId, nil_object_id}
use r2_notify_server.Data.{EventHubNotificationPayload, EventNotification, new_notification}
use r2_notify_server.Mongo.{ObjectIds}
use r2_notify_server.Json.{Bytes}
use r2_notify_server.Json.Decode.{unmarshal_event_hub_payload}
use r2_notify_server.World.{Backend, World}
use r2_notify_server.ClientStore.{send_notification_to_user}
use r2_notify_server.Service.Notification.{NotificationService}

abbrev pub model_of : EventHubNotificationPayload → Time → Time → Models.Notification
model_of p made changed = record {
  id = nil_object_id;
  app_id = p.app_id;
  user_id = p.user_id;
  group_key = p.group_key;
  message = p.message;
  status = p.status;
  read_status = false;
  created_at = made;
  updated_at = changed;
}

unfoldable pub payload_of :
    ObjectIds → ObjectId → EventHubNotificationPayload → Time → Time → EventNotification
payload_of ids id p made changed = record {
  event = new_notification;
  content = record {
    id = ids.hex id;
    app_id = p.app_id;
    user_id = p.user_id;
    group_key = p.group_key;
    message = p.message;
    read_status = false;
    status = p.status;
    created_at = made;
    updated_at = changed;
  };
}

module _ (b : Backend) (notifications : NotificationService (World b)) where
  -- The callback behind its call of Create.
  unfoldable pub announce :
      EventHubNotificationPayload → Time → Time → Result ObjectId × World b → World b
  announce p made changed (err e, w) = w
  announce p made changed (ok id, w) =
      (send_notification_to_user b (payload_of b.ids id p made changed) false w).1

  -- The callback behind its call of json.Unmarshal.
  unfoldable pub receive_payload :
      Time → Time → Result EventHubNotificationPayload → World b → World b
  unfolding announce
  receive_payload made changed (err e) w = w
  receive_payload made changed (ok p) w =
      announce p made changed (notifications.create (model_of p made changed) w)

  unfoldable pub receive : Time → Time → Bytes → World b → World b
  unfolding receive_payload
  receive made changed body w = receive_payload made changed (unmarshal_event_hub_payload body) w
