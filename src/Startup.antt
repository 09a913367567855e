-- ===== src/Startup.antt =====
-- main.go and router/*.go: how the process starts. An error here ends the process.
pub mod Conditions
use Prim.Native.String.{◌++◌}
use r2_notify_server.Prelude.{
  ℕ, Option, none, some, String, Bool, true, false, List, [], ◌∷◌, Result, ok, err, other, Error,
  ◌>>=◌, ◌==◌, if◌then◌else◌,
}
use r2_notify_server.Config.{Environment, load_config}
use r2_notify_server.Config.Connections.{MongoDriver, RedisDriver, mongo_connection, init_redis}
use r2_notify_server.Models.{Time}
use r2_notify_server.Logger.{
  Zap, Logger, LogPayload, Sink, Output, new_logger, log_info, log_error, flush,
}
use r2_notify_server.Mongo.{ObjectIds}
use r2_notify_server.Repository.Notification.{NotificationRepository}
use r2_notify_server.Repository.Configuration.{ConfigurationRepository}
use r2_notify_server.Service.Notification.{NotificationService, new_notification_service}
use r2_notify_server.Service.Configuration.{ConfigurationService, new_configuration_service}
use r2_notify_server.Utils.{process_allowed_origins}

-- The handlers that requests go to.
pub data Handler : Type 0 where
  create_notification : Handler
  google_auth : Handler
  health : Handler
  websocket : Handler

pub record Route : Type 0 where
  pub method : String
  pub group : String
  pub path : String
  pub handler : Handler

-- RegisterNotificationRoutes and RegisterAuthenticationRoutes
abbrev pub notification_routes : List Route
notification_routes =
    record { method = "POST"; group = "/notification"; path = ""; handler = create_notification }
    ∷ []

abbrev pub authentication_routes : List Route
authentication_routes =
    record { method = "POST"; group = "/auth"; path = "google"; handler = google_auth } ∷ []

abbrev pub main_routes : List Route
main_routes =
    record { method = "GET"; group = ""; path = "/health"; handler = health }
    ∷ record { method = "GET"; group = ""; path = "/ws"; handler = websocket }
    ∷ []

-- The answer of the health check: the status, and the fields of the JSON object.
abbrev pub health_answer : ℕ × List (String × String)
health_answer = (200, ("status", "ok") ∷ ("service", "r2-notify-server") ∷ [])

-- cors.Options, and the address of the server.
pub record Serving : Type 0 where
  pub address : String
  pub allowed_origins : List String
  pub allowed_methods : List String
  pub allowed_headers : List String
  pub allow_credentials : Bool
  pub debug : Bool

unfoldable pub serving : Environment → Serving
serving env = record {
  address = ":" ++ (load_config env).port;
  allowed_origins = process_allowed_origins (load_config env).allowed_origins;
  allowed_methods = "POST" ∷ "OPTIONS" ∷ [];
  allowed_headers = "Content-Type" ∷ "X-App-ID" ∷ "X-Correlation-ID" ∷ "Authorization" ∷ [];
  allow_credentials = true;
  debug = true;
}

-- godotenv.Load: the environment with the variables of the file that it did not have.
pub record DotEnv : Type 0 where
  pub load : Environment → Result Environment

-- How the repositories are made of a database.
pub record Repositories (Database S : Type 0) : Type 0 where
  pub notifications : Database → NotificationRepository S
  pub configurations : Database → ConfigurationRepository S

-- What main has made when it begins to serve.
pub record Started (S : Type 0) : Type 0 where
  pub environment : Environment
  pub release_mode : Bool
  pub logger : Logger
  pub notifications : NotificationService S
  pub configurations : ConfigurationService S
  pub serves : Serving

abbrev pub is_production : Environment → Bool
is_production env = env "ENV" == "production"

module _ {S : Type 0} (dot_env : DotEnv) (mongo : MongoDriver) (redis : RedisDriver)
    (repositories : Repositories mongo.Database S) (ids : ObjectIds) where
  -- Only outside production the file .env is loaded.
  abbrev pub loaded : Environment → Result Environment
  loaded env = if is_production env then ok env else dot_env.load env

  unfoldable pub start : Environment → Result (Started S)
  unfolding mongo_connection init_redis
  start system = do
    env ← loaded system
    database ← mongo_connection mongo env
    _ ← init_redis redis env
    notifications ← new_notification_service (repositories.notifications database) ids true
    configurations ← new_configuration_service (repositories.configurations database) ids true
    ok (record {
      environment = env;
      release_mode = is_production env;
      logger = new_logger env;
      notifications = notifications;
      configurations = configurations;
      serves = serving env;
    })
