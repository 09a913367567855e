-- ===== src/Samples/Requests.antt =====
-- The theorems on the running server, on the server in memory.
use r2_notify_server.Prelude.{
  String, ◌≡◌, ◌≢◌, refl, ap, ◌==◌, true, false, ◌||◌, none, some, [], ◌∷◌, ◌++◌, ok,
}
use r2_notify_server.Text.{strip_prefix}
use r2_notify_server.Models.{Notification}
use r2_notify_server.Data.{EventHubNotificationPayload, CreateNotificationRequest}
use r2_notify_server.Json.{Bytes, json, str, obj, field, end}
use r2_notify_server.Json.Decode.{unmarshal_event_hub_payload}
use r2_notify_server.Controller.{
  Request, Response, unauthorized, bad_request, created, bearer_prefix, create_notification,
  create_with, create_as, create_bound, create_valid, respond, new_model,
}
use r2_notify_server.Consumer.{receive}
use r2_notify_server.Repository.Notification.Schema.{notification_schema, stored}
use r2_notify_server.Repository
use r2_notify_server.Service
use r2_notify_server.Utils.{Jwt, validate_token}
use r2_notify_server.WebSocket.Events.{Frame, text, on_frame}
use r2_notify_server.Server.{notifications, configurations}
use r2_notify_server.Server.Creation.{create_notification-created}
use r2_notify_server.Server.Requests.{create_notification-rejected}
use r2_notify_server.Server.Events.{receive-view}
use r2_notify_server.Server.Agreement.{Agrees, receive-create_notification}
use r2_notify_server.Server.System.{
  System, Setup, Step, here, later, connects, connecting, session_of, subject, open_session,
}
use r2_notify_server.Server.System.Admission.{user_at}
use r2_notify_server.Server.System.Ownership.{IsOwned, Reach-IsOwned, Reach-frame_private}
use r2_notify_server.WebSocket.Connect
use r2_notify_server.WebSocket.Connect.{Handshake}
use r2_notify_server.Samples.Memory.{memory-Lawful}
use r2_notify_server.Samples.Parts.{logs-Lawful, one_token, one_body, one_body-Lawful}
use r2_notify_server.Samples.Start.{backend, two_users, nobody, two_docs}

abbrev reload : Frame
reload = text (json (obj (field "event" (str "reloadNotifications") end)))

-- A request of ann.
abbrev request_of : String → Request
request_of authorization = record {
  authorization = authorization;
  app_id = "ci";
  body = json (str "");
}

abbrev made : Notification
made =
    record (new_model "ann" "ci"
      (record { group_key = "builds"; message = "done"; status = "success" }) 0 0) { id = 3 }

create_notification-rejected_example :
    (create_notification backend
      (notifications backend)
      one_body
      one_token
      "secret"
      0
      0
      (request_of "Bearer bad")
      two_users).1
    ≡ two_users
unfolding create_notification create_with create_as strip_prefix validate_token
create_notification-rejected_example =
    create_notification-rejected backend one_body 0 0 one_token "secret" (request_of "Bearer bad")
      two_users refl

abbrev event_body : Bytes
event_body = json (
    obj
      (field "appId" (str "ci") (field "userId" (str "bob") (field "groupKey" (str "builds") end))))

abbrev event_payload : EventHubNotificationPayload
event_payload = record {
  app_id = "ci";
  user_id = "bob";
  group_key = "builds";
  message = "";
  status = "";
}

receive-view_example :
    backend.notifications.view
      (receive backend (notifications backend) 0 0 event_body two_users).notifications
    ≡ two_docs.docs
      ++ stored 3 (record {
        id = 0;
        app_id = event_payload.app_id;
        user_id = event_payload.user_id;
        group_key = event_payload.group_key;
        message = event_payload.message;
        status = event_payload.status;
        read_status = false;
        created_at = 0;
        updated_at = 0;
      })
        ∷ []
unfolding unmarshal_event_hub_payload Repository.Notification.create Service.Notification.create
receive-view_example =
    receive-view backend logs-Lawful 0 0 event_body event_payload 3 two_users
      (memory-Lawful notification_schema) refl refl

abbrev setup : Setup
setup = record {
  jwt = one_token;
  secret = "secret";
  allowed_origins = "https://a.example";
  binding = one_body;
}

abbrev empty_system : System backend
empty_system = record { world = nobody; sessions = λ c. none }

empty_system-IsOwned : IsOwned empty_system
empty_system-IsOwned = record { owned = λ u c h. cc; distinct = λ u. tt }

abbrev ann_arrives : Handshake
ann_arrives = record { origin = "https://a.example"; token = "good"; proper = true }

abbrev after_ann : System backend
after_ann = record {
  world = (connecting backend setup 0 ann_arrives 3 nobody).1;
  sessions =
      open_session 3
        (session_of (connecting backend setup 0 ann_arrives 3 nobody).0
          (subject backend setup ann_arrives))
        (λ c. none);
}

ann_connects : Step backend setup empty_system after_ann
ann_connects = connects 0 ann_arrives 3 refl refl

Reach-IsOwned_example : IsOwned after_ann
Reach-IsOwned_example =
    Reach-IsOwned backend logs-Lawful setup empty_system after_ann empty_system-IsOwned
      (later here ann_connects)

create_notification-created_example :
    (token : String) × (strip_prefix bearer_prefix "Bearer good" ≡ some token)
    × (validate_token one_token token "secret" ≡ ok made.user_id)
    × (p : CreateNotificationRequest) × (one_body.bind_json (request_of "Bearer good").body ≡ ok p)
    × (one_body.validate p ≡ none)
    × (made ≡ record {
      id = made.id;
      app_id = "ci";
      user_id = made.user_id;
      group_key = p.group_key;
      message = p.message;
      status = p.status;
      read_status = false;
      created_at = 0;
      updated_at = 0;
    })
    × ((made.user_id == "" || made.app_id == "") ≡ false)
    × (made.group_key ≢ "")
    × (made.message ≢ "")
    × (made.status ≢ "")
    × (backend.notifications.view
          (create_notification backend
            (notifications backend)
            one_body
            one_token
            "secret"
            0
            0
            (request_of "Bearer good")
            two_users).1.notifications
        ≡ two_docs.docs ++ stored 3 made ∷ [])
unfolding create_notification create_with create_as create_bound create_valid respond strip_prefix
    validate_token Repository.Notification.create Service.Notification.create
create_notification-created_example =
    create_notification-created backend one_body one_token "secret" 0 0 (request_of "Bearer good")
      two_users (memory-Lawful notification_schema) one_body-Lawful made refl

is_created :
    (create_notification backend
      (notifications backend)
      one_body
      one_token
      "secret"
      0
      0
      (request_of "Bearer good")
      two_users).0
    ≡ created made
unfolding create_notification create_with create_as create_bound create_valid respond strip_prefix
    validate_token Repository.Notification.create Service.Notification.create
is_created = refl

created_apart : (r : Response) → r ≡ created made → (r ≢ unauthorized) × (r ≢ bad_request)
created_apart r h = ((λ e. cc (h, e)), λ e. cc (h, e))

receive-create_notification_example :
    (token user : String) × (strip_prefix bearer_prefix "Bearer good" ≡ some token)
    × (validate_token one_token token "secret" ≡ ok user)
    × Agrees backend
        (notifications backend)
        one_body
        0
        0
        user
        (request_of "Bearer good")
        two_users
        (create_notification backend
          (notifications backend)
          one_body
          one_token
          "secret"
          0
          0
          (request_of "Bearer good")
          two_users).1
receive-create_notification_example =
    receive-create_notification backend (notifications backend) one_body 0 0 one_token "secret"
      (request_of "Bearer good") two_users (created_apart _ is_created)

ann_is_not_bob : ◌≢◌ {A = String} "ann" "bob"
ann_is_not_bob e = let differ : true ≡ false = ap (λ (s : String). s == "ann") e in cc

ann_is_there : user_at (after_ann.sessions 3) ≡ some "ann"
unfolding Connect.connect r2_notify_server.Utils.process_allowed_origins
    r2_notify_server.Text.split_comma r2_notify_server.Text.trim_space validate_token
    Service.Configuration.find_by_app_and_user Repository.Configuration.find_by_app_and_user
    Service.Configuration.create Repository.Configuration.create
    r2_notify_server.ClientStore.store_client
ann_is_there = refl

Reach-frame_private_example :
    backend.sockets.sent
      (on_frame backend
        (notifications backend)
        (configurations backend)
        5
        reload
        "bob"
        4
        after_ann.world).sockets
      3
    ≡ backend.sockets.sent after_ann.world.sockets 3
Reach-frame_private_example =
    Reach-frame_private backend logs-Lawful setup empty_system after_ann 5 reload 4 3 "bob" "ann"
      empty_system-IsOwned (later here ann_connects) ann_is_there ann_is_not_bob
