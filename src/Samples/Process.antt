-- ===== src/Samples/Process.antt =====
-- The theorems on the environment, the log, the login and the start, with small parameters.
use Prim.Native.Nat.{◌*◌}
use r2_notify_server.Prelude.{
  ◌∷◌, String, ◌≡◌, ◌≢◌, ◌↔◌, refl, ◌+◌, ◌≤◌, true, false, ◌&&◌, none, some, [], Result, ok, err,
  other, ◌>>=◌, ◌==◌, eq_iff, eqb, eqb_iff, leb, if◌then◌else◌, arith, Bool-cases, inl, inr,
}
use r2_notify_server.Models.{Time}
use r2_notify_server.Data.{GoogleAuthRequest, UserInfo}
use r2_notify_server.Json.{Bytes, json, str}
use r2_notify_server.Strconv.{atoi, itoa}
use r2_notify_server.Config.{Environment, load_config, get_env, get_env_int, get_env_bool}
use r2_notify_server.Config.Connections.{MongoDriver, RedisDriver, redis_options}
use r2_notify_server.Logger.{error, console, rank, Zap, LawfulZap, LogPayload, new_logger}
use r2_notify_server.Logger.Written.{log, log-new_logger, lines, log_file}
use r2_notify_server.Utils.{Jwt, hmac, Token, validate_token}
use r2_notify_server.Authentication.{
  Claim, text, no_text, GooglePayload, Google, MapClaims, Signer, LawfulSigner, epoch, second,
  google_auth_handler, handle_bound, google_authenticate, authenticate_payload, issue, claims_for,
  panicking,
}
use r2_notify_server.Authentication.Tokens.{
  Describes, google_auth_handler-logged_in, google_auth_handler-panicking, LacksText,
}
use r2_notify_server.Startup.{DotEnv, Repositories, Started, start}
use r2_notify_server.Startup.Conditions.{IsReady, start_iff}
use r2_notify_server.World.{World}
use r2_notify_server.Repository.Notification.{notification_repository}
use r2_notify_server.Repository.Configuration.{configuration_repository}
use r2_notify_server.Server.{notifications_of, configurations_of}
use r2_notify_server.Samples.Parts.{id_texts}
use r2_notify_server.Samples.Start.{backend}

abbrev small_env : Environment
small_env key =
    if key == "MONGO_PORT"
    then "-27"
    else if key == "REDIS_PORT"
    then "99999999999999999999"
    else if key == "LOG_LEVEL"
    then "debug"
    else if key == "ENV"
    then "production"
    else ""

abbrev pub cores : Zap
cores = record { enabled = λ core level. leb (rank core) (rank level) }

cores-Lawful : LawfulZap cores
cores-Lawful = record { from_level_on = λ core level. refl }

abbrev note : LogPayload
note = record {
  component = "Main";
  operation = "main";
  message = "begun";
  correlation_id = "";
  user_id = "";
  app_id = "";
  error = none;
}

-- LOG_LEVEL is "debug", so errors go to the file and to the console.
log-new_logger_example :
    log cores error (new_logger small_env) 0 note []
    ≡ lines error 0 note (log_file small_env ∷ console ∷ [])
unfolding load_config get_env
log-new_logger_example = log-new_logger cores cores-Lawful small_env error 0 note []

abbrev login_time : Time
login_time = epoch * second + 5 * second

abbrev ann : UserInfo
ann = record { id = "ann"; name = "Ann"; email = "ann@a.example"; avatar = "a.png" }

abbrev ann_claims : MapClaims
ann_claims = claims_for ann login_time

-- It signs for the one login, with any secret.
abbrev one_signer : Signer
one_signer = record {
  signed_string = λ method claims secret.
      if claims.sub == "ann" && eqb claims.exp 86405 then ok "signed" else err (other "no key");
}

abbrev signed_token : Token
signed_token = record { method = hmac; valid = true; subject = some "ann" }

abbrev parser_at : Time → Jwt
parser_at now = record {
  parse_with_claims = λ signed key.
      if signed == "signed"
      then key hmac >>= (λ _.
        if leb ((epoch + 86405) * second) now
        then err (other "token has invalid claims: token is expired")
        else ok signed_token)
      else err (other "malformed");
}

signs_for_one :
    (claims : MapClaims) (secret signed : String)
    → one_signer.signed_string hmac claims secret ≡ ok signed
    → (claims.sub ≡ "ann") × (claims.exp ≡ 86405) × (signed ≡ "signed")
signs_for_one claims secret signed h =
    elim (Bool-cases (claims.sub == "ann" && eqb claims.exp 86405)) [
      | inl known ↦ (
        ground (arith, eq_iff claims.sub "ann"),
        ground (arith, eqb_iff claims.exp 86405),
        cc (known, h),
      )
      | inr unknown ↦ cc (unknown, h)
    ]

one_signer-Lawful : LawfulSigner one_signer parser_at
one_signer-Lawful = record {
  accepts = λ claims secret signed key now h k soon.
      let (sub, exp, same) = signs_for_one claims secret signed h in
      let early : leb ((epoch + 86405) * second) now ≡ false = ground (arith, exp) in
      rw (same, k, early, sub) refl;
  expires = λ claims secret signed key now h k late.
      let (sub, exp, same) = signs_for_one claims secret signed h in
      let over : leb ((epoch + 86405) * second) now ≡ true = ground (arith, exp) in
      rw (same, k, over) refl;
}

abbrev google_payload : Claim → GooglePayload
google_payload mail = record {
  subject = "ann";
  claims = λ key.
      if key == "name"
      then text "Ann"
      else if key == "email"
      then mail
      else if key == "picture"
      then text "a.png"
      else no_text;
}

abbrev google : Google
google = record {
  validate = λ token audience.
      if token == "full"
      then ok (google_payload (text "ann@a.example"))
      else if token == "scarce"
      then ok (google_payload no_text)
      else err (other "invalid");
}

abbrev login : Bytes → Result GoogleAuthRequest
login (json (str token)) = ok (record { token = token })
login _ = err (other "EOF")

google_auth_handler-logged_in_example :
    (request : GoogleAuthRequest) × (payload : GooglePayload) × (login (json (str "full"))
      ≡ ok request)
    × (google.validate request.token (load_config small_env).google_client_id ≡ ok payload)
    × Describes payload ann
    × ((later : Time)
        → later + second ≤ login_time + 24 * 60 * 60 * second
        → validate_token (parser_at later) "signed" (load_config small_env).jwt_secret ≡ ok "ann")
    × ((later : Time)
        → login_time + 24 * 60 * 60 * second ≤ later
        → (id : String)
        → validate_token (parser_at later) "signed" (load_config small_env).jwt_secret ≢ ok id)
unfolding google_auth_handler handle_bound google_authenticate authenticate_payload issue claims_for
google_auth_handler-logged_in_example =
    google_auth_handler-logged_in google one_signer small_env login_time parser_at one_signer-Lawful
      login (json (str "full")) "signed" ann (omega arith) refl

google_auth_handler-panicking_example :
    (google_auth_handler google one_signer small_env login (json (str "scarce")) login_time
      ≡ panicking)
    ↔ ((request : GoogleAuthRequest) × (payload : GooglePayload) × (login (json (str "scarce"))
          ≡ ok request)
        × (google.validate request.token (load_config small_env).google_client_id ≡ ok payload)
        × LacksText google one_signer small_env login_time payload)
google_auth_handler-panicking_example =
    google_auth_handler-panicking google one_signer small_env login_time login (json (str "scarce"))

-- MongoDB and Redis at their default addresses.
abbrev mongo_here : MongoDriver
mongo_here = record {
  Client = Unit {0};
  Database = String;
  connect = λ uri direct. if direct then ok tt else err (other "no server");
  ping = λ client. ok tt;
  database = λ client name. name;
}

abbrev redis_here : RedisDriver
redis_here = record {
  Client = String;
  new_client = λ options. options.addr;
  ping = λ address. if address == "localhost:6379" then ok tt else err (other "refused");
}

abbrev no_file : DotEnv
no_file = record { load = λ env. err (other "no .env") }

abbrev in_memory : Repositories String (World backend)
in_memory = record {
  notifications =
      λ name. notifications_of backend (notification_repository backend.notifications backend.ids);
  configurations =
      λ name. configurations_of backend (configuration_repository backend.configurations);
}

start_iff_example :
    ((started : Started (World backend)) × (start no_file mongo_here redis_here in_memory id_texts
          small_env
        ≡ ok started))
    ↔ IsReady no_file mongo_here redis_here in_memory id_texts small_env
start_iff_example = start_iff no_file mongo_here redis_here in_memory id_texts small_env

-- In production no file is needed, and a Redis port out of range is the default one.
ready : IsReady no_file mongo_here redis_here in_memory id_texts small_env
unfolding load_config get_env get_env_int get_env_bool atoi itoa redis_options
ready = record {
  env = small_env;
  client = tt;
  has_env = inl (refl, refl);
  connects = refl;
  mongo_answers = refl;
  redis_answers = refl;
}
