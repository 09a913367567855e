-- ===== src/Samples/Start.antt =====
-- The server in memory with two users: ann, with two connections, one of them broken, and bob.
use r2_notify_server.Prelude.{refl, Bool, true, false, none, some, [], ◌∷◌, ◌==◌, if◌then◌else◌}
use r2_notify_server.Models.{ObjectId, UserId, Notification, Configuration}
use r2_notify_server.Json.{Json, json, bool, str, obj, field, end}
use r2_notify_server.World.{Backend, World, Clients}
use r2_notify_server.Repository.Notification.Schema.{notification_schema}
use r2_notify_server.Repository.Configuration.Schema.{configuration_schema}
use r2_notify_server.Samples.Memory.{memory, Stored}
use r2_notify_server.Samples.Parts.{Cells, redis_cells, logs, id_texts, time_texts}

abbrev pub sample : ObjectId → UserId → Bool → Notification
sample i user is_read = record {
  id = i;
  app_id = "ci";
  user_id = user;
  group_key = "builds";
  message = "done";
  status = "success";
  read_status = is_read;
  created_at = 0;
  updated_at = 0;
}

-- An unread notification of ann and one of bob.
abbrev pub two_docs : Stored notification_schema
two_docs = record { docs = sample 1 "ann" false ∷ sample 2 "bob" false ∷ []; distinct = refl }

abbrev pub no_docs : Stored notification_schema
no_docs = record { docs = []; distinct = refl }

abbrev pub ann_settings : Configuration
ann_settings = record { id = 1; user_id = "ann"; enable_notifications = true }

abbrev pub one_setting : Stored configuration_schema
one_setting = record { docs = ann_settings ∷ []; distinct = refl }

abbrev pub no_settings : Stored configuration_schema
no_settings = record { docs = []; distinct = refl }

abbrev pub backend : Backend
backend = record {
  notifications = memory notification_schema;
  configurations = memory configuration_schema;
  redis = redis_cells;
  sockets = logs;
  ids = id_texts;
  times = time_texts;
}

abbrev info_json : UserId → Bool → Json
info_json user enable = obj (
    field "id" (str user) (
      field "connectedAt" (str "0001-01-01T00:00:00Z")
        (field "enableNotification" (bool enable) end)))

abbrev cells : Cells
cells k =
    if k == "client:ann"
    then some (json (info_json "ann" true))
    else if k == "client:bob"
    then some (json (info_json "bob" false))
    else none

abbrev map_of_two : Clients
map_of_two user =
    if user == "ann" then some (3 ∷ 9 ∷ []) else if user == "bob" then some (4 ∷ []) else none

abbrev pub two_users : World backend
two_users = record {
  notifications = two_docs;
  configurations = one_setting;
  redis = cells;
  sockets = λ c. [];
  clients = map_of_two;
}

abbrev pub nobody : World backend
nobody = record {
  notifications = no_docs;
  configurations = no_settings;
  redis = λ k. none;
  sockets = λ c. [];
  clients = λ user. none;
}
