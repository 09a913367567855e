-- ===== src/Config/Values.antt =====
-- The numbers that the environment gives.
use r2_notify_server.Prelude.{
  String, ◌≡◌, sym, ◌∙◌, ◌==◌, eq_iff, arith, inl, inr, Bool-cases, Option-cases,
}
use r2_notify_server.Strconv.{ℤ, pos, IsInt64, atoi, itoa}
use r2_notify_server.Strconv.Decimal.{atoi-IsInt64, atoi-itoa, itoa-ne-empty}
use r2_notify_server.Config.{Environment, or_else, get_env_int, load_config}

or_else-IsInt64 :
    (s : String) (fallback : ℤ) → IsInt64 fallback → IsInt64 (or_else (atoi s) fallback)
or_else-IsInt64 s fallback h = elim (Option-cases (atoi s)) [
  | inl missing ↦ rw missing h
  | inr (i, e) ↦ rw e (atoi-IsInt64 s i e)
]

get_env_int-IsInt64 :
    (env : Environment) (key : String) (fallback : ℤ)
    → IsInt64 fallback
    → IsInt64 (get_env_int env key fallback)
unfolding get_env_int
get_env_int-IsInt64 env key fallback h = elim (Bool-cases (env key == "")) [
  | inl unset ↦ rw unset h
  | inr given ↦ rw given (or_else-IsInt64 (env key) fallback h)
]

-- Whatever the environment holds, the ports and the size of the log file are in the range of a
-- 64-bit integer.
load_config-IsInt64 :
    (env : Environment)
    → IsInt64 (load_config env).mongo_port
      × IsInt64 (load_config env).redis_port
      × IsInt64 (load_config env).max_log_file_size
unfolding load_config
load_config-IsInt64 env = (
  get_env_int-IsInt64 env "MONGO_PORT" (pos 27017) (omega arith),
  get_env_int-IsInt64 env "REDIS_PORT" (pos 6379) (omega arith),
  get_env_int-IsInt64 env "MAX_LOG_FILE_SIZE" (pos 10485760) (omega arith),
)

-- A 64-bit integer that a variable holds as its decimal text is what GetEnvInt reads from it.
get_env_int-itoa :
    (env : Environment) (key : String) (fallback i : ℤ)
    → IsInt64 i
    → env key ≡ itoa i
    → get_env_int env key fallback ≡ i
unfolding get_env_int
get_env_int-itoa env key fallback i fits e = elim (Bool-cases (env key == "")) [
  | inl unset ↦ absurd (itoa-ne-empty i (sym e ∙ (eq_iff (env key) "").0 unset))
  | inr given ↦ rw (given, e, atoi-itoa i fits)
]
