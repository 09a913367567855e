-- ===== src/Json/Encode.antt =====
-- json.Marshal of the structs of data/types.go and models/client.go.
use r2_notify_server.Prelude.{List, [], ◌∷◌, Result, ok, err, ◌>>=◌}
use r2_notify_server.Models.{ClientInfo}
use r2_notify_server.Data.{Notification, EventNotification, NotificationList, Configuration}
use r2_notify_server.Json.{
  Json, bool, str, arr, obj, Items, nil, cons, end, field, Bytes, empty, json, TimeText,
}

unfoldable pub encode_configuration : Configuration → Json
encode_configuration c = obj (
    field "event" (str c.event) (
      field "data"
        (obj (
          field "id" (str c.content.id) (
            field "userId" (str c.content.user_id)
              (field "enableNotification" (bool c.content.enable_notification) end))))
        end))

-- `data, _ := json.Marshal(…)`: a value that cannot be written gives no bytes.
abbrev pub bytes_of : Result Json → Bytes
bytes_of (ok j) = json j
bytes_of (err e) = empty

module _ (times : TimeText) where
  unfoldable pub encode_notification : Notification → Result Json
  encode_notification n = do
    created ← times.format n.created_at
    updated ← times.format n.updated_at
    ok (
        obj (
          field "id" (str n.id) (
            field "appId" (str n.app_id) (
              field "userId" (str n.user_id) (
                field "groupKey" (str n.group_key) (
                  field "message" (str n.message) (
                    field "readStatus" (bool n.read_status) (
                      field "status" (str n.status) (
                        field "createdAt" (str created)
                          (field "updatedAt" (str updated) end))))))))))

  unfoldable pub encode_all : List Notification → Result Items
  encode_all [] = ok nil
  encode_all (n ∷ ns) = do first ← encode_notification n; rest ← encode_all ns; ok (cons first rest)

  unfoldable pub encode_event_notification : EventNotification → Result Json
  encode_event_notification e = do
    content ← encode_notification e.content
    ok (obj (field "event" (str e.event) (field "data" content end)))

  unfoldable pub encode_notification_list : NotificationList → Result Json
  encode_notification_list l = do
    content ← encode_all l.content
    ok (obj (field "event" (str l.event) (field "data" (arr content) end)))

  unfoldable pub encode_client_info : ClientInfo → Result Json
  encode_client_info info = do
    connected ← times.format info.connected_at
    ok (
        obj (
          field "id" (str info.id) (
            field "connectedAt" (str connected)
              (field "enableNotification" (bool info.enable_notification) end))))
