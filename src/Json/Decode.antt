-- ===== src/Json/Decode.antt =====
-- json.Unmarshal into the structs of data/types.go and models/client.go.
use Prim.Native.Char.{code}
use Prim.Native.String.{[], ◌∷◌}
use r2_notify_server.Prelude.{
  ℕ, String, Bool, true, false, ◌&&◌, ◌-◌, Result, ok, err, json_syntax, json_type, ◌>>=◌, leb, eqb,
  if◌then◌else◌,
}
use r2_notify_server.Models.{Time, ClientInfo}
use r2_notify_server.Data.{
  Notification, EventNotification, NotificationConfig, Configuration, EventHubNotificationPayload,
}
use r2_notify_server.Json.{
  Json, null, bool, str, obj, Fields, end, field, Bytes, empty, malformed, json, TimeText,
}

-- A key names a field whose tag has the same letters in either case. U+017F and U+212A fold to S and K.
abbrev fold_code : ℕ → ℕ
fold_code c =
    if leb 97 c && leb c 122
    then c - 32
    else if eqb c 0x17F
    then 83
    else if eqb c 0x212A
    then 75
    else c

unfoldable pub names : String → String → Bool
names [] [] = true
names (a ∷ s) (b ∷ t) = if eqb (fold_code (code a)) (fold_code (code b)) then names s t else false
names [] (b ∷ t) = false
names (a ∷ s) [] = false

-- A value of the wrong type is an error, and null leaves what is there.
abbrev pub set_text : Json → String → Result String
set_text null old = ok old
set_text (str s) old = ok s
set_text _ old = err json_type

abbrev pub set_bool : Json → Bool → Result Bool
set_bool null old = ok old
set_bool (bool b) old = ok b
set_bool _ old = err json_type

abbrev pub set_time : TimeText → Json → Time → Result Time
set_time times null old = ok old
set_time times (str s) old = times.parse s
set_time times _ old = err json_type

module _ {A : Type 0} (set : String → Json → A → Result A) where
  -- The fields in the order of the text; a later one overwrites an earlier one.
  unfoldable pub set_fields : Fields → A → Result A
  set_fields end a = ok a
  set_fields (field key value rest) a = do a' ← set key value a; set_fields rest a'

  abbrev pub set_struct : Json → A → Result A
  set_struct null a = ok a
  set_struct (obj fields) a = set_fields fields a
  set_struct _ a = err json_type

  -- json.Unmarshal(bytes, &value) where `value` starts at its zero value.
  abbrev pub unmarshal : A → Bytes → Result A
  unmarshal zero empty = err json_syntax
  unmarshal zero malformed = err json_syntax
  unmarshal zero (json j) = set_struct j zero

unfoldable pub set_client_info : TimeText → String → Json → ClientInfo → Result ClientInfo
unfolding names
set_client_info times key v c =
    if names key "id"
    then (do s ← set_text v c.id; ok (record c { id = s }))
    else if names key "connectedAt"
    then (do t ← set_time times v c.connected_at; ok (record c { connected_at = t }))
    else if names key "enableNotification"
    then (do b ← set_bool v c.enable_notification; ok (record c { enable_notification = b }))
    else ok c

abbrev pub zero_client_info : ClientInfo
zero_client_info = record { id = ""; connected_at = 0; enable_notification = false }

unfoldable pub unmarshal_client_info : TimeText → Bytes → Result ClientInfo
unfolding set_client_info set_fields
unmarshal_client_info times = unmarshal (set_client_info times) zero_client_info

-- data.Event, and the embedded field of the payloads
unfoldable pub set_event : String → Json → String → Result String
unfolding names
set_event key v event = if names key "event" then set_text v event else ok event

unfoldable pub unmarshal_event : Bytes → Result String
unfolding set_event set_fields
unmarshal_event = unmarshal set_event ""

unfoldable pub set_notification : TimeText → String → Json → Notification → Result Notification
unfolding names
set_notification times key v n =
    if names key "id"
    then (do s ← set_text v n.id; ok (record n { id = s }))
    else if names key "appId"
    then (do s ← set_text v n.app_id; ok (record n { app_id = s }))
    else if names key "userId"
    then (do s ← set_text v n.user_id; ok (record n { user_id = s }))
    else if names key "groupKey"
    then (do s ← set_text v n.group_key; ok (record n { group_key = s }))
    else if names key "message"
    then (do s ← set_text v n.message; ok (record n { message = s }))
    else if names key "readStatus"
    then (do b ← set_bool v n.read_status; ok (record n { read_status = b }))
    else if names key "status"
    then (do s ← set_text v n.status; ok (record n { status = s }))
    else if names key "createdAt"
    then (do t ← set_time times v n.created_at; ok (record n { created_at = t }))
    else if names key "updatedAt"
    then (do t ← set_time times v n.updated_at; ok (record n { updated_at = t }))
    else ok n

abbrev pub zero_notification : Notification
zero_notification = record {
  id = "";
  app_id = "";
  user_id = "";
  group_key = "";
  message = "";
  read_status = false;
  status = "";
  created_at = 0;
  updated_at = 0;
}

unfoldable pub set_event_notification :
    TimeText → String → Json → EventNotification → Result EventNotification
unfolding names set_fields set_notification
set_event_notification times key v e =
    if names key "event"
    then (do s ← set_text v e.event; ok (record e { event = s }))
    else if names key "data"
    then (do n ← set_struct (set_notification times) v e.content; ok (record e { content = n }))
    else ok e

unfoldable pub unmarshal_event_notification : TimeText → Bytes → Result EventNotification
unfolding set_event_notification set_fields
unmarshal_event_notification times =
    unmarshal (set_event_notification times) (record { event = ""; content = zero_notification })

unfoldable pub set_notification_config :
    String → Json → NotificationConfig → Result NotificationConfig
unfolding names
set_notification_config key v c =
    if names key "id"
    then (do s ← set_text v c.id; ok (record c { id = s }))
    else if names key "userId"
    then (do s ← set_text v c.user_id; ok (record c { user_id = s }))
    else if names key "enableNotification"
    then (do b ← set_bool v c.enable_notification; ok (record c { enable_notification = b }))
    else ok c

unfoldable pub set_configuration : String → Json → Configuration → Result Configuration
unfolding names set_fields set_notification_config
set_configuration key v e =
    if names key "event"
    then (do s ← set_text v e.event; ok (record e { event = s }))
    else if names key "data"
    then (do c ← set_struct set_notification_config v e.content; ok (record e { content = c }))
    else ok e

unfoldable pub unmarshal_configuration : Bytes → Result Configuration
unfolding set_configuration set_fields
unmarshal_configuration =
    unmarshal set_configuration (record {
      event = "";
      content = record { id = ""; user_id = ""; enable_notification = false };
    })

unfoldable pub set_event_hub_payload :
    String → Json → EventHubNotificationPayload → Result EventHubNotificationPayload
unfolding names
set_event_hub_payload key v p =
    if names key "appId"
    then (do s ← set_text v p.app_id; ok (record p { app_id = s }))
    else if names key "userId"
    then (do s ← set_text v p.user_id; ok (record p { user_id = s }))
    else if names key "groupKey"
    then (do s ← set_text v p.group_key; ok (record p { group_key = s }))
    else if names key "message"
    then (do s ← set_text v p.message; ok (record p { message = s }))
    else if names key "status"
    then (do s ← set_text v p.status; ok (record p { status = s }))
    else ok p

unfoldable pub unmarshal_event_hub_payload : Bytes → Result EventHubNotificationPayload
unfolding set_event_hub_payload set_fields
unmarshal_event_hub_payload =
    unmarshal set_event_hub_payload
      (record { app_id = ""; user_id = ""; group_key = ""; message = ""; status = "" })
