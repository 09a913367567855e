-- ===== src/Logger/Written.antt =====
-- Which lines the server's logger writes.
use r2_notify_server.Prelude.{
  ℕ, String, ◌≡◌, arith, true, Bool, not, ◌&&◌, Option, none, some, List, [], ◌∷◌, ◌++◌, map, ◌==◌,
  leb, if◌then◌else◌, Bool-cases, inl, inr,
}
use mathlib.Core.List.{append-nil}
use r2_notify_server.Models.{Time}
use r2_notify_server.Config.{Environment, load_config}
use r2_notify_server.Logger.{
  Level, debug, info, warn, error, rank, Zap, LawfulZap, LogPayload, Rotation, zap_cores, Logger,
  Sink, insights, file, console, rotation, Output, get_log_level, new_logger, should_log, line_of,
  Line, write, log_info, log_debug, log_warn, log_error,
}

-- The method of a level.
abbrev pub log : Zap → Level → Logger → Time → LogPayload → Output → Output
log zap debug = log_debug zap
log zap info = log_info zap
log zap warn = log_warn zap
log zap error = log_error zap

abbrev pub to_azure : Environment → Bool
to_azure env =
    let c = load_config env in
    c.log_method == "azure" && not (c.app_insights_instrumentation_key == "")

-- From which levels on the values of LOG_LEVEL let lines through: 0 for all of them, 3 for errors.
abbrev pub threshold : String → ℕ
threshold value =
    if value == "debug"
    then 0
    else if value == "info"
    then 1
    else if value == "warn"
    then 2
    else if value == "error"
    then 3
    else 1

abbrev pub severity : Level → ℕ
severity debug = 0
severity info = 1
severity warn = 2
severity error = 3

-- The file with its rotation, in megabytes and days.
abbrev pub log_file : Environment → Sink
log_file env = file (record {
  filename = (load_config env).log_file_path;
  max_size = (load_config env).max_log_file_size;
  max_backups = 5;
  max_age = 30;
  compress = true;
})

-- Where a line of a level goes, said by the configuration.
abbrev pub sinks : Environment → Level → List Sink
sinks env debug = []
sinks env level =
    if to_azure env
    then insights ∷ []
    else if leb (threshold (load_config env).log_level) (severity level)
    then log_file env ∷ console ∷ []
    else []

abbrev stamped : Sink → Time → Option Time
stamped insights now = none
stamped _ now = some now

-- The error is written at the level of errors only.
abbrev error_at : Level → LogPayload → Option String
error_at error p = p.error
error_at _ p = none

-- A line has the fields of the payload.
abbrev pub entry : Level → Time → LogPayload → Sink → Sink × Line
entry level now p sink = (
  sink,
  record {
    level = level;
    message = p.message;
    service = "r2-notify-server";
    component = p.component;
    operation = p.operation;
    correlation_id = p.correlation_id;
    user_id = p.user_id;
    app_id = p.app_id;
    timestamp = stamped sink now;
    error = error_at level p;
  },
)

abbrev pub lines : Level → Time → LogPayload → List Sink → Output
lines level now p = map (entry level now p)

-- getLogLevel reads the values of LOG_LEVEL as that table says.
rank-get_log_level : (value : String) → rank (get_log_level value) ≡ threshold value
unfolding get_log_level
rank-get_log_level value = ground arith

-- A method that is let through writes to the sinks, at any level but debug.
written_locally :
    (zap : Zap) (law : LawfulZap zap) (core level : Level) (now : Time) (problem : Option String)
    (p : LogPayload) (r : Rotation) (out : Output) (n : ℕ)
    → rank core ≡ n
    → write zap (zap_cores core (file r ∷ console ∷ [])) level now problem p out ≡ (
        out
        ++ map
            (λ (sink : Sink). (sink, line_of level (stamped sink now) problem p))
            (if leb n (rank level) then file r ∷ console ∷ [] else []))
written_locally zap law core level now problem p r out n from =
    elim (Bool-cases (leb n (rank level))) [
      | inl taken ↦ rw (law.from_level_on core level, from, taken)
      | inr dropped ↦ rw (law.from_level_on core level, from, dropped, append-nil)
    ]

-- Each method of the server's logger appends one line, with the fields of the payload, stamped
-- unless it is telemetry, and with the error only at the level of errors, to each sink that the
-- configuration gives for its level: telemetry for info and above when the method is `azure` and
-- there is a key, and else the file and the console from the level that LOG_LEVEL names on, which
-- is info when it names none; at the level of debugging nothing is ever written.
pub log-new_logger :
    (zap : Zap) (law : LawfulZap zap) (env : Environment) (level : Level) (now : Time)
    (p : LogPayload) (out : Output)
    → log zap level (new_logger env) now p out ≡ out ++ lines level now p (sinks env level)
unfolding new_logger log_debug log_info log_warn log_error should_log rotation
log-new_logger zap law env debug now p out = elim (Bool-cases (to_azure env)) [
  | inl cloud ↦ rw (cloud, append-nil)
  | inr local ↦ rw (local, append-nil)
]
log-new_logger zap law env info now p out = elim (Bool-cases (to_azure env)) [
  | inl cloud ↦ rw cloud
  | inr local ↦ rw local (
      written_locally zap law _ info now none p _ out _
        (rank-get_log_level (load_config env).log_level))
]
log-new_logger zap law env warn now p out = elim (Bool-cases (to_azure env)) [
  | inl cloud ↦ rw cloud
  | inr local ↦ rw local (
      written_locally zap law _ warn now none p _ out _
        (rank-get_log_level (load_config env).log_level))
]
log-new_logger zap law env error now p out = elim (Bool-cases (to_azure env)) [
  | inl cloud ↦ rw cloud
  | inr local ↦ rw local (
      written_locally zap law _ error now p.error p _ out _
        (rank-get_log_level (load_config env).log_level))
]
