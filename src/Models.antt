-- ===== src/Models.antt =====
-- models/*.go: what the server stores. An ObjectID, twelve bytes in Go, is the number that the bytes
-- write in base 256, so that NilObjectID is 0; a time.Time is the number of nanoseconds of its
-- instant, 0 for the zero Time, without its location and its monotonic reading.
use r2_notify_server.Prelude.{ℕ, String, Bool}

abbrev pub ObjectId : Type 0
ObjectId = ℕ

abbrev pub nil_object_id : ObjectId
nil_object_id = 0

abbrev pub Time : Type 0
Time = ℕ

abbrev pub UserId : Type 0
UserId = String

-- A websocket connection, `*websocket.Conn`: pointers are compared by identity only.
abbrev pub Conn : Type 0
Conn = ℕ

-- models/notification.go
pub record Notification : Type 0 where
  pub id : ObjectId
  pub app_id : String
  pub user_id : UserId
  pub group_key : String
  pub message : String
  pub status : String
  pub read_status : Bool
  pub created_at : Time
  pub updated_at : Time

-- models/configurations.go
pub record Configuration : Type 0 where
  pub id : ObjectId
  pub user_id : UserId
  pub enable_notifications : Bool

-- models/client.go
pub record ClientInfo : Type 0 where
  pub id : UserId
  pub connected_at : Time
  pub enable_notification : Bool
