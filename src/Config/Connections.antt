-- ===== src/Config/Connections.antt =====
-- config/mongo.go and config/redis.go: how the server connects when it starts. The two clients are
-- parameters; an error is one that the program ends on, after it has logged it.
use Prim.Native.String.{◌++◌}
use r2_notify_server.Prelude.{
  ℕ, String, Bool, true, false, Option, none, some, Result, ok, ◌>>=◌, ◌==◌, if◌then◌else◌,
}
use r2_notify_server.Strconv.{itoa, format_bool}
use r2_notify_server.Config.{Environment, Config, load_config}

-- mongo.Connect with a URI and whether the connection is direct, `Ping`, and `Database`.
pub record MongoDriver : Type 1 where
  pub Client : Type 0
  pub Database : Type 0
  pub connect : String → Bool → Result Client
  pub ping : Client → Result (Unit {0})
  pub database : Client → String → Database

abbrev pub is_srv : Config → Bool
is_srv c = c.mongo_schema == "mongodb+srv"

-- The user's name and password stand in the URI as they are.
unfoldable pub mongo_uri : Config → String
mongo_uri c =
    c.mongo_schema
    ++ "://"
    ++ c.mongo_user_name
    ++ ":"
    ++ c.mongo_password
    ++ "@"
    ++ c.mongo_host
    ++ (if is_srv c then "" else ":" ++ itoa c.mongo_port)
    ++ "/?ssl="
    ++ format_bool c.mongo_ssl
    ++ "&retrywrites="
    ++ format_bool c.mongo_retry_writes

unfoldable pub mongo_connection : (driver : MongoDriver) → Environment → Result driver.Database
unfolding mongo_uri
mongo_connection driver env = do
  let c = load_config env
  client ← driver.connect (mongo_uri c) (if is_srv c then false else true)
  _ ← driver.ping client
  ok (driver.database client c.mongo_db_name)

-- redis.Options: the times are in seconds, and `tls` is the name of the server where TLS is used.
pub record RedisOptions : Type 0 where
  pub addr : String
  pub username : String
  pub password : String
  pub db : ℕ
  pub dial_timeout : ℕ
  pub read_timeout : ℕ
  pub write_timeout : ℕ
  pub pool_size : ℕ
  pub min_idle_conns : ℕ
  pub tls : Option String

pub record RedisDriver : Type 1 where
  pub Client : Type 0
  pub new_client : RedisOptions → Client
  pub ping : Client → Result (Unit {0})

unfoldable pub redis_options : Config → RedisOptions
redis_options c = record {
  addr = c.redis_host ++ ":" ++ itoa c.redis_port;
  username = c.redis_username;
  password = c.redis_password;
  db = 0;
  dial_timeout = 10;
  read_timeout = 3;
  write_timeout = 3;
  pool_size = 20;
  min_idle_conns = 5;
  tls = if c.redis_tls_enabled then some c.redis_host else none;
}

unfoldable pub init_redis : (driver : RedisDriver) → Environment → Result driver.Client
unfolding redis_options
init_redis driver env =
    let client = driver.new_client (redis_options (load_config env)) in
    do _ ← driver.ping client; ok client
