-- ===== src/Telemetry/Sink.antt =====
-- `sanitize_url`, and the record that `RedactingFormatter.format` hands on.
use hermes_auto.Config.Yaml.{SplitUrl, UrlError}
use hermes_auto.Dict.{elem}
use hermes_auto.Json.{Value}
use hermes_auto.Prelude.Result.{Result, ok, raise}
use hermes_auto.Prelude.{
  ℕ, String, Bool, true, false, ◌&&◌, Option, none, some, List, [], ◌∷◌, map, if◌then◌else◌,
}
use hermes_auto.Telemetry.Events.{Event, Entries}
use hermes_auto.Telemetry.Redaction.{banned_keys, redact}
use hermes_auto.Telemetry.Salt.{SaltError}
use hermes_auto.Text.{concat, show}

abbrev is_absent : Option String → Bool
is_absent none = true
is_absent (some s) = false

abbrev host_of : Option String → String
host_of none = ""
host_of (some host) = host

abbrev with_port : String → Option ℕ → String
with_port host none = host
with_port host (some port) = concat (host ∷ ":" ∷ show port ∷ [])

module _ (urlsplit : String → Result UrlError SplitUrl)
    (urlunsplit : SplitUrl → String → String) where
  -- `sanitize_url`, of the split URL and its port; `urlunsplit parts host` puts the parts together with
  -- another network location
  unfoldable pub sanitize_split : String → SplitUrl → Option ℕ → String
  unfolding concat show
  sanitize_split url parts port =
      if is_absent parts.username && is_absent parts.password
      then url
      else urlunsplit parts (with_port (host_of parts.hostname) port)

  unfoldable pub sanitize_url : String → String
  unfolding sanitize_split
  sanitize_url url = elim (urlsplit url) [
    | raise e ↦ "<unparseable>"
    | ok parts ↦ elim parts.port [
      | raise e ↦ "<unparseable>"
      | ok port ↦ sanitize_split url parts port
    ]
  ]

-- `record.args`: a dict, a tuple, or another value, which is left as it is
pub data Args : Type 0 where
  by_name : Entries → Args
  positional : List Event → Args
  unchanged : Args

-- a `LogRecord`: its `msg`, its `args`, and the attributes that are not standard, which came in `extra`
pub record LogRecord : Type 0 where
  pub msg : Event
  pub args : Args
  pub extra : List (String × Event)

pub data SafeArgs : Type 0 where
  safe_by_name : Value → SafeArgs
  safe_positional : List Value → SafeArgs
  safe_unchanged : SafeArgs

-- the copy that is formatted
pub record SafeRecord : Type 0 where
  pub msg : Value
  pub args : SafeArgs
  pub extra : List (String × Value)

module _ (casefold : String → String) (hmac : String → String → String)
    (salt : Result SaltError String) where
  -- the `args` of the copy
  unfoldable pub safe_args : Args → SafeArgs
  unfolding redact
  safe_args (by_name es) = safe_by_name (redact casefold hmac salt (Event.dict es))
  safe_args (positional es) = safe_positional (map (redact casefold hmac salt) es)
  safe_args unchanged = safe_unchanged

  -- an iteration over the attributes that are not standard
  unfoldable pub safe_extra : String × Event → String × Value
  unfolding redact
  safe_extra (key, value) =
      if elem (casefold key) banned_keys
      then (key, Value.str "<redacted>")
      else (key, redact casefold hmac salt value)

  -- `RedactingFormatter.format`, up to the formatting of the copy
  unfoldable pub safe_record : LogRecord → SafeRecord
  unfolding redact safe_args safe_extra
  safe_record r = record {
    msg = redact casefold hmac salt r.msg;
    args = safe_args r.args;
    extra = map safe_extra r.extra;
  }

-- A logger: whether it propagates, its level, and the directory of each redacting handler.
pub record Logger : Type 0 where
  pub propagate : Bool
  pub level : ℕ
  pub handlers : List (Option String)

-- the handlers of `get_logger`: one where there is none, else with the directory that is given
unfoldable pub configured_handlers : Option String → List (Option String) → List (Option String)
configured_handlers directory [] = directory ∷ []
configured_handlers none (h ∷ handlers) = h ∷ handlers
configured_handlers (some directory) (h ∷ handlers) = map (λ _. some directory) (h ∷ handlers)

-- `_apply_level`: `level_of` is `logging.getLevelName`, where `none` is a name that is no level
unfoldable pub apply_level : (String → Option ℕ) → String → ℕ
apply_level level_of configured = elim (level_of configured) [ none ↦ 20 | some level ↦ level ]

-- `get_logger`, of the handlers that redact; `configured` is the level's name, stripped and in capitals
unfoldable pub get_logger : (String → Option ℕ) → String → Option String → Logger → Logger
unfolding configured_handlers apply_level
get_logger level_of configured directory logger = record {
  propagate = false;
  level = apply_level level_of configured;
  handlers = configured_handlers directory logger.handlers;
}
