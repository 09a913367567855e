-- ===== src/Repository/Notification/Schema.antt =====
-- The bson tags of models/notification.go, as the filters and the updates of the repository use them.
use Prim.Native.Nat.{◌*◌, ◌/◌}
use r2_notify_server.Prelude.{String, Bool, true, false, ◌==◌, eqb, if◌then◌else◌}
use r2_notify_server.Models.{ObjectId, Time, UserId, Notification}
use r2_notify_server.Mongo.{Schema}

-- The conditions `field: value` of a bson.M filter.
pub data Cond : Type 0 where
  user_is : UserId → Cond
  app_is : String → Cond
  group_is : String → Cond
  read_is : Bool → Cond
  id_is : ObjectId → Cond

-- The assignments of a `$set`.
pub data Assign : Type 0 where
  set_read_status : Bool → Assign
  set_updated_at : Time → Assign

-- primitive.NewDateTimeFromTime: BSON keeps milliseconds.
abbrev pub date_time : Time → Time
date_time t = t / 1000000 * 1000000

abbrev pub same_bool : Bool → Bool → Bool
same_bool true b = b
same_bool false b = if b then false else true

abbrev pub meets : Cond → Notification → Bool
meets (user_is user) n = n.user_id == user
meets (app_is app) n = n.app_id == app
meets (group_is group) n = n.group_key == group
meets (read_is b) n = same_bool b n.read_status
meets (id_is i) n = eqb n.id i

abbrev pub assign : Assign → Notification → Notification
assign (set_read_status b) n = record n { read_status = b }
assign (set_updated_at t) n = record n { updated_at = t }

-- The tag `_id,omitempty` leaves a new document's key to the driver.
abbrev pub stored : ObjectId → Notification → Notification
stored i n = record n {
  id = i;
  created_at = date_time n.created_at;
  updated_at = date_time n.updated_at;
}

abbrev pub notification_schema : Schema Notification
notification_schema = record {
  Cond = Cond;
  Assign = Assign;
  meets = meets;
  assign = assign;
  key = λ n. n.id;
  stored = stored;
}
