-- ===== src/Startup/Conditions.antt =====
-- When the server starts.
use Prim.Native.String.{◌++◌}
use r2_notify_server.Prelude.{
  String, Bool, sym, ◌∙◌, some, none, not, ap, ◌≢◌, ◌⊎◌, inl, inr, Bool-cases, eq_iff, eq_of_ok,
  ◌==◌, ◌≡◌, ◌↔◌, refl, true, false, ok, >>=-ok, if◌then◌else◌,
}
use r2_notify_server.Config.{Environment, load_config, get_env, get_env_int, get_env_bool, or_else}
use r2_notify_server.Config.Connections.{
  MongoDriver, RedisDriver, RedisOptions, is_srv, mongo_uri, redis_options, mongo_connection,
  init_redis,
}
use r2_notify_server.Logger.{new_logger}
use r2_notify_server.Strconv.{ℤ, pos, atoi, itoa, parse_bool, format_bool}
use r2_notify_server.Mongo.{ObjectIds}
use r2_notify_server.Service.Notification.{new_notification_service, notification_service}
use r2_notify_server.Service.Configuration.{new_configuration_service, configuration_service}
use r2_notify_server.Startup.{DotEnv, Repositories, Started, is_production, serving, loaded, start}

-- What the environment says: a variable that is empty has its default, and so has a number or a
-- truth value that cannot be read.
abbrev pub setting : Environment → String → String → String
setting env key fallback = if env key == "" then fallback else env key

abbrev pub number : Environment → String → ℤ → ℤ
number env key fallback = if env key == "" then fallback else or_else (atoi (env key)) fallback

abbrev pub flag : Environment → String → Bool → Bool
flag env key fallback = if env key == "" then fallback else or_else (parse_bool (env key)) fallback

abbrev pub has_srv : Environment → Bool
has_srv env = setting env "MONGO_SCHEMA" "mongodb" == "mongodb+srv"

-- The URI has a port unless its schema is that of SRV.
abbrev pub uri_of : Environment → String
uri_of env =
    setting env "MONGO_SCHEMA" "mongodb"
    ++ "://"
    ++ setting env "MONGO_USERNAME" ""
    ++ ":"
    ++ setting env "MONGO_PASSWORD" ""
    ++ "@"
    ++ setting env "MONGO_HOST" "localhost"
    ++ (if has_srv env then "" else ":" ++ itoa (number env "MONGO_PORT" (pos 27017)))
    ++ "/?ssl="
    ++ format_bool (flag env "MONGO_SSL" false)
    ++ "&retrywrites="
    ++ format_bool (flag env "MONGO_RETRY_WRITES" true)

abbrev pub redis_of : Environment → RedisOptions
redis_of env = record {
  addr = setting env "REDIS_HOST" "localhost" ++ ":" ++ itoa (number env "REDIS_PORT" (pos 6379));
  username = setting env "REDIS_USERNAME" "";
  password = setting env "REDIS_PASSWORD" "";
  db = 0;
  dial_timeout = 10;
  read_timeout = 3;
  write_timeout = 3;
  pool_size = 20;
  min_idle_conns = 5;
  tls =
      if flag env "REDIS_TLS_ENABLED" false
      then some (setting env "REDIS_HOST" "localhost")
      else none;
}

negated : (t : Bool) → (if t then false else true) ≡ not t
negated true = refl
negated false = refl

module _ {S : Type 0} (dot_env : DotEnv) (mongo : MongoDriver) (redis : RedisDriver)
    (repositories : Repositories mongo.Database S) (ids : ObjectIds) where
  -- In production the process' environment is taken, and else it is loaded from the file too.
  abbrev pub HasEnvironment : Environment → Environment → Type 0
  HasEnvironment system env =
      ((system "ENV" ≡ "production") × (system ≡ env))
      ⊎ ((system "ENV" ≢ "production") × (dot_env.load system ≡ ok env))

  loaded_iff :
      (system env : Environment)
      → (loaded dot_env mongo redis repositories ids system ≡ ok env) ↔ HasEnvironment system env
  loaded_iff system env = elim (Bool-cases (system "ENV" == "production")) [
    | inl production ↦
        let there = (eq_iff (system "ENV") "production").0 production in
        (
          (λ h. inl (there, eq_of_ok (rw production at h))),
          (λ h. elim h [ inl p ↦ rw production (ap ok p.1) | inr p ↦ absurd (p.0 there) ]),
        )
    | inr development ↦
        let apart : system "ENV" ≢ "production" =
          λ e. let same = (eq_iff (system "ENV") "production").1 e in cc in
        (
          (λ h. inr (apart, rw development at h)),
          (λ h. elim h [ inl p ↦ absurd (apart p.0) | inr p ↦ rw development p.1 ]),
        )
  ]

  -- The environment can be loaded, and MongoDB and Redis answer a ping.
  pub record IsReady (system : Environment) : Type 0 where
    pub env : Environment
    pub client : mongo.Client
    pub has_env : HasEnvironment system env
    pub connects : mongo.connect (uri_of env) (not (has_srv env)) ≡ ok client
    pub mongo_answers : mongo.ping client ≡ ok tt
    pub redis_answers : redis.ping (redis.new_client (redis_of env)) ≡ ok tt

  connects_as :
      (env : Environment)
      → mongo.connect
          (mongo_uri (load_config env))
          (if is_srv (load_config env) then false else true)
        ≡ mongo.connect (uri_of env) (not (has_srv env))
  unfolding load_config get_env get_env_int get_env_bool mongo_uri
  connects_as env = ap (mongo.connect (uri_of env)) (negated (has_srv env))

  answers_as :
      (env : Environment)
      → redis.ping (redis.new_client (redis_options (load_config env)))
        ≡ redis.ping (redis.new_client (redis_of env))
  unfolding load_config get_env get_env_int get_env_bool redis_options
  answers_as env = refl

  -- The start succeeds exactly when the environment can be loaded, from the process alone in
  -- production and with the file .env otherwise, MongoDB takes the connection with the URI that
  -- the variables and their defaults spell, direct unless the schema is that of SRV, and answers a
  -- ping, and so does Redis with the options that the variables and their defaults give.
  pub start_iff :
      (system : Environment)
      → ((started : Started S) × (start dot_env mongo redis repositories ids system ≡ ok started))
        ↔ IsReady system
  unfolding start mongo_connection init_redis new_notification_service new_configuration_service
  start_iff system = (
    (λ p.
        let (env, has_env, h1) =
          >>=-ok (loaded dot_env mongo redis repositories ids system) _ p.1 in
        let (database, opened, h2) = >>=-ok (mongo_connection mongo env) _ h1 in
        let (client, connects, h3) = >>=-ok (mongo.connect _ _) _ opened in
        let (u, answered, _) = >>=-ok (mongo.ping client) _ h3 in
        let (rdb, made, _) = >>=-ok (init_redis redis env) _ h2 in
        let (v, answers, _) = >>=-ok (redis.ping _) _ made in
        record {
          env = env;
          client = client;
          has_env = (loaded_iff system env).0 has_env;
          connects = sym (connects_as env) ∙ connects;
          mongo_answers = answered;
          redis_answers = sym (answers_as env) ∙ answers;
        }),
    (λ r. (
      record {
        environment = r.env;
        release_mode = is_production r.env;
        logger = new_logger r.env;
        notifications =
            notification_service
              (repositories.notifications
                (mongo.database r.client (load_config r.env).mongo_db_name))
              ids;
        configurations =
            configuration_service
              (repositories.configurations
                (mongo.database r.client (load_config r.env).mongo_db_name))
              ids;
        serves = serving r.env;
      },
      rw
          (
            (loaded_iff system r.env).1 r.has_env,
            connects_as r.env ∙ r.connects,
            r.mongo_answers,
            answers_as r.env ∙ r.redis_answers,
          )
          refl,
    )),
  )
