-- ===== src/Repository/Configuration/Schema.antt =====
-- The bson tags of models/configurations.go.
use r2_notify_server.Prelude.{Bool, ◌==◌}
use r2_notify_server.Models.{ObjectId, UserId, Configuration}
use r2_notify_server.Mongo.{Schema}

pub data Cond : Type 0 where
  user_is : UserId → Cond

pub data Assign : Type 0 where
  set_id : ObjectId → Assign
  set_user_id : UserId → Assign
  set_enable_notifications : Bool → Assign

abbrev pub meets : Cond → Configuration → Bool
meets (user_is user) c = c.user_id == user

abbrev pub assign : Assign → Configuration → Configuration
assign (set_id i) c = record c { id = i }
assign (set_user_id user) c = record c { user_id = user }
assign (set_enable_notifications b) c = record c { enable_notifications = b }

abbrev pub stored : ObjectId → Configuration → Configuration
stored i c = record c { id = i }

abbrev pub configuration_schema : Schema Configuration
configuration_schema = record {
  Cond = Cond;
  Assign = Assign;
  meets = meets;
  assign = assign;
  key = λ c. c.id;
  stored = stored;
}
