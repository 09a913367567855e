-- ===== src/Config.antt =====
-- config/config.go: the configuration, read from the environment each time it is asked for. The
-- environment is what os.Getenv gives: the empty text for a variable that is not set.
pub mod Values
pub mod Connections
use r2_notify_server.Prelude.{ℕ, String, Bool, true, false, Option, none, some, ◌==◌, if◌then◌else◌}
use r2_notify_server.Strconv.{ℤ, pos, negsuc, atoi, parse_bool}

abbrev pub Environment : Type 0
Environment = String → String

pub record Config : Type 0 where
  pub environment : String
  pub port : String
  pub jwt_secret : String
  pub mongo_schema : String
  pub mongo_host : String
  pub mongo_port : ℤ
  pub mongo_db_name : String
  pub mongo_user_name : String
  pub mongo_password : String
  pub mongo_retry_writes : Bool
  pub mongo_ssl : Bool
  pub redis_host : String
  pub redis_port : ℤ
  pub redis_username : String
  pub redis_password : String
  pub redis_tls_enabled : Bool
  pub enable_event_hub : Bool
  pub event_hub_namespace_con_string : String
  pub event_hub_notification_event_name : String
  pub allowed_origins : String
  pub log_level : String
  pub log_method : String
  pub log_file_path : String
  pub max_log_file_size : ℤ
  pub app_insights_instrumentation_key : String
  pub google_client_id : String

abbrev pub or_else {ℓ} : {A : Type ℓ} → Option A → A → A
or_else none fallback = fallback
or_else (some a) fallback = a

unfoldable pub get_env : Environment → String → String → String
get_env env key fallback = if env key == "" then fallback else env key

unfoldable pub get_env_int : Environment → String → ℤ → ℤ
get_env_int env key fallback = if env key == "" then fallback else or_else (atoi (env key)) fallback

unfoldable pub get_env_bool : Environment → String → Bool → Bool
get_env_bool env key fallback =
    if env key == "" then fallback else or_else (parse_bool (env key)) fallback

unfoldable pub load_config : Environment → Config
load_config env = record {
  environment = get_env env "ENV" "development";
  port = get_env env "PORT" "8081";
  jwt_secret = get_env env "JWT_SECRET" "8081";
  mongo_schema = get_env env "MONGO_SCHEMA" "mongodb";
  mongo_host = get_env env "MONGO_HOST" "localhost";
  mongo_port = get_env_int env "MONGO_PORT" (pos 27017);
  mongo_db_name = get_env env "MONGO_DB_NAME" "";
  mongo_user_name = get_env env "MONGO_USERNAME" "";
  mongo_password = get_env env "MONGO_PASSWORD" "";
  mongo_retry_writes = get_env_bool env "MONGO_RETRY_WRITES" true;
  mongo_ssl = get_env_bool env "MONGO_SSL" false;
  redis_host = get_env env "REDIS_HOST" "localhost";
  redis_port = get_env_int env "REDIS_PORT" (pos 6379);
  redis_username = get_env env "REDIS_USERNAME" "";
  redis_password = get_env env "REDIS_PASSWORD" "";
  redis_tls_enabled = get_env_bool env "REDIS_TLS_ENABLED" false;
  enable_event_hub = get_env_bool env "ENABLE_EVENT_HUB" false;
  event_hub_namespace_con_string = get_env env "EVENT_HUB_NAMESPACE_CON_STRING" "";
  event_hub_notification_event_name = get_env env "EVENT_HUB_NOTIFICATION_EVENT_NAME" "";
  allowed_origins = get_env env "ALLOWED_ORIGINS" "*";
  log_level = get_env env "LOG_LEVEL" "";
  log_method = get_env env "LOG_METHOD" "file";
  log_file_path = get_env env "LOG_FILE_PATH" "./logs/app.log";
  max_log_file_size = get_env_int env "MAX_LOG_FILE_SIZE" (pos 10485760);
  app_insights_instrumentation_key = get_env env "APP_INSIGHTS_INSTRUMENTATION_KEY" "";
  google_client_id = get_env env "GOOGLE_CLIENT_ID" "";
}
