-- ===== src/Logger.antt =====
-- logger/logger.go: which lines are written, and where. zap is a parameter, by whether a core takes
-- a level, and so is the telemetry client, by the list of what it is given to track.
pub mod Written
use r2_notify_server.Prelude.{
  ℕ, String, ◌≡◌, Bool, true, false, not, ◌&&◌, Option, none, some, List, [], ◌∷◌, ◌++◌, map, ◌==◌,
  leb, if◌then◌else◌,
}
use r2_notify_server.Models.{Time}
use r2_notify_server.Strconv.{ℤ}
use r2_notify_server.Config.{Environment, load_config}

pub data Level : Type 0 where
  debug : Level
  info : Level
  warn : Level
  error : Level

-- zapcore's number of a level, plus one.
abbrev pub rank : Level → ℕ
rank debug = 0
rank info = 1
rank warn = 2
rank error = 3

-- `core.Enabled(level)` of a core that was made for a level.
pub record Zap : Type 0 where
  pub enabled : Level → Level → Bool

-- A core takes its own level and the levels above it.
pub record LawfulZap (zap : Zap) : Type 0 where
  pub from_level_on : (core level : Level) → zap.enabled core level ≡ leb (rank core) (rank level)

pub record LogPayload : Type 0 where
  pub component : String
  pub operation : String
  pub message : String
  pub correlation_id : String
  pub user_id : String
  pub app_id : String
  pub error : Option String

-- lumberjack.Logger: the file, and when it is rotated.
pub record Rotation : Type 0 where
  pub filename : String
  pub max_size : ℤ
  pub max_backups : ℕ
  pub max_age : ℕ
  pub compress : Bool

pub data Sink : Type 0 where
  insights : Sink
  file : Rotation → Sink
  console : Sink
  buffer : Sink

-- Where the lines go: to Application Insights, or to zap cores of one level.
pub data Destination : Type 0 where
  azure : (instrumentation_key : String) → Destination
  zap_cores : Level → List Sink → Destination

pub record Logger : Type 0 where
  pub destination : Destination
  pub min_level : Level

-- What a sink is given: the severity or level, and the fields. Telemetry has a time of its own.
pub record Line : Type 0 where
  pub level : Level
  pub message : String
  pub service : String
  pub component : String
  pub operation : String
  pub correlation_id : String
  pub user_id : String
  pub app_id : String
  pub timestamp : Option Time
  pub error : Option String

abbrev pub Output : Type 0
Output = List (Sink × Line)

unfoldable pub get_log_level : String → Level
get_log_level level =
    if level == "debug"
    then debug
    else if level == "info"
    then info
    else if level == "warn"
    then warn
    else if level == "error"
    then error
    else info

unfoldable pub rotation : Environment → Rotation
rotation env = record {
  filename = (load_config env).log_file_path;
  max_size = (load_config env).max_log_file_size;
  max_backups = 5;
  max_age = 30;
  compress = true;
}

-- The zero value of `minLevel` is zap's InfoLevel.
unfoldable pub new_logger : Environment → Logger
unfolding get_log_level
new_logger env =
    let c = load_config env in
    let level = get_log_level c.log_level in
    if c.log_method == "azure" && not (c.app_insights_instrumentation_key == "")
    then record { destination = azure c.app_insights_instrumentation_key; min_level = info }
    else record {
      destination = zap_cores level (file (rotation env) ∷ console ∷ []);
      min_level = info;
    }

-- NewTestSink: the logger writes to the sink's buffer.
abbrev pub new_test_sink : Level → Logger
new_test_sink level = record { destination = zap_cores level (buffer ∷ []); min_level = info }

unfoldable pub should_log : Logger → Level → Bool
should_log logger level = leb (rank logger.min_level) (rank level)

abbrev pub line_of : Level → Option Time → Option String → LogPayload → Line
line_of level timestamp problem p = record {
  level = level;
  message = p.message;
  service = "r2-notify-server";
  component = p.component;
  operation = p.operation;
  correlation_id = p.correlation_id;
  user_id = p.user_id;
  app_id = p.app_id;
  timestamp = timestamp;
  error = problem;
}

module _ (zap : Zap) where
  -- A method behind its call of shouldLog.
  abbrev pub write : Destination → Level → Time → Option String → LogPayload → Output → Output
  write (azure key) level now problem p out = out ++ (insights, line_of level none problem p) ∷ []
  write (zap_cores core sinks) level now problem p out =
      let line = line_of level (some now) problem p in
      if zap.enabled core level then out ++ map (λ (sink : Sink). (sink, line)) sinks else out

  unfoldable pub log_info : Logger → Time → LogPayload → Output → Output
  unfolding should_log
  log_info logger now p out =
      if not (should_log logger info) then out else write logger.destination info now none p out

  unfoldable pub log_debug : Logger → Time → LogPayload → Output → Output
  unfolding should_log
  log_debug logger now p out =
      if not (should_log logger debug) then out else write logger.destination debug now none p out

  unfoldable pub log_warn : Logger → Time → LogPayload → Output → Output
  unfolding should_log
  log_warn logger now p out =
      if not (should_log logger warn) then out else write logger.destination warn now none p out

  -- Only this method writes the payload's error.
  unfoldable pub log_error : Logger → Time → LogPayload → Output → Output
  unfolding should_log
  log_error logger now p out =
      if not (should_log logger error)
      then out
      else write logger.destination error now p.error p out

-- Flush: the sinks that are made to write what they have kept back.
abbrev pub flush : Destination → List Sink
flush (azure key) = insights ∷ []
flush (zap_cores core sinks) = sinks
