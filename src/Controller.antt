-- ===== src/Controller.antt =====
-- controller/notification_controller.go. The binding of gin and the validator are parameters. The
-- clock readings are arguments: `created` and `updated` are what `time.Now()` gives for the fields.
use r2_notify_server.Prelude.{
  String, ◌≡◌, ◌≢◌, ◌↔◌, false, ◌||◌, Option, none, some, Result, ok, err, Error, ◌==◌,
  if◌then◌else◌,
}
use r2_notify_server.Text.{strip_prefix}
use r2_notify_server.Models
use r2_notify_server.Models.{Time, UserId, ObjectId, nil_object_id}
use r2_notify_server.Data.{CreateNotificationRequest, EventNotification}
use r2_notify_server.Mongo.{ObjectIds}
use r2_notify_server.Json.{Bytes}
use r2_notify_server.World.{Backend, World}
use r2_notify_server.ClientStore.{send_notification_to_user}
use r2_notify_server.Service.Notification.{NotificationService}
use r2_notify_server.Utils.{Jwt, validate_token}

-- ctx.ShouldBindJSON and validator.New().Struct.
pub record Binding : Type 0 where
  pub bind_json : Bytes → Result CreateNotificationRequest
  pub validate : CreateNotificationRequest → Option Error

-- The validator accepts what has a value in each field with the tag `required`.
pub record LawfulBinding (binding : Binding) : Type 0 where
  pub required :
      (p : CreateNotificationRequest)
      → (binding.validate p ≡ none) ↔ ((p.group_key ≢ "") × (p.message ≢ "") × (p.status ≢ ""))

pub record Request : Type 0 where
  pub authorization : String
  pub app_id : String
  pub body : Bytes

pub data Response : Type 0 where
  unauthorized : Response
  bad_request : Response
  internal_error : Error → Response
  created : Models.Notification → Response

abbrev pub bearer_prefix : String
bearer_prefix = "Bearer "

-- The model that the controller and the consumer make of what they are sent.
abbrev pub new_model :
    UserId → String → CreateNotificationRequest → Time → Time → Models.Notification
new_model user app p made changed = record {
  id = nil_object_id;
  app_id = app;
  user_id = user;
  group_key = p.group_key;
  message = p.message;
  status = p.status;
  read_status = false;
  created_at = made;
  updated_at = changed;
}

-- The payload of a new notification.
unfoldable pub announcement : ObjectIds → ObjectId → Models.Notification → EventNotification
announcement ids id m = record {
  event = "newNotification";
  content = record {
    id = ids.hex id;
    app_id = m.app_id;
    user_id = m.user_id;
    group_key = m.group_key;
    message = m.message;
    read_status = false;
    status = m.status;
    created_at = m.created_at;
    updated_at = m.updated_at;
  };
}

module _ (b : Backend) (notifications : NotificationService (World b)) (binding : Binding) where
  -- CreateNotification behind its call of Create.
  unfoldable pub respond : Models.Notification → Result ObjectId × World b → Response × World b
  respond m (err e, w) = (internal_error e, w)
  respond m (ok id, w) = (
    created (record m { id = id }),
    (send_notification_to_user b (announcement b.ids id m) false w).1,
  )

  -- CreateNotification behind its call of the validator.
  unfoldable pub create_valid :
      Time
      → Time
      → UserId
      → String
      → CreateNotificationRequest
      → Option Error
      → World b
      → Response × World b
  unfolding respond
  create_valid made changed user app p (some e) w = (bad_request, w)
  create_valid made changed user app p none w =
      let m = new_model user app p made changed in respond m (notifications.create m w)

  -- CreateNotification behind its call of ShouldBindJSON.
  unfoldable pub create_bound :
      Time
      → Time
      → UserId
      → String
      → Result CreateNotificationRequest
      → World b
      → Response × World b
  unfolding create_valid
  create_bound made changed user app (err e) w = (bad_request, w)
  create_bound made changed user app (ok p) w =
      create_valid made changed user app p (binding.validate p) w

  -- CreateNotification behind the validation of the token.
  unfoldable pub create_as : Time → Time → Result UserId → Request → World b → Response × World b
  unfolding create_bound
  create_as made changed (err e) request w = (unauthorized, w)
  create_as made changed (ok user) request w =
      if user == "" || request.app_id == ""
      then (bad_request, w)
      else create_bound made changed user request.app_id (binding.bind_json request.body) w

  -- CreateNotification behind the test of the Bearer prefix.
  unfoldable pub create_with :
      Jwt → String → Time → Time → Option String → Request → World b → Response × World b
  unfolding create_as
  create_with jwt secret made changed none request w = (unauthorized, w)
  create_with jwt secret made changed (some token) request w =
      create_as made changed (validate_token jwt token secret) request w

  unfoldable pub create_notification :
      Jwt → String → Time → Time → Request → World b → Response × World b
  unfolding create_with
  create_notification jwt secret made changed request w =
      create_with jwt secret made changed (strip_prefix bearer_prefix request.authorization) request
        w
