-- ===== src/Config/Checks.antt =====
-- src/hermes_auto/config.py: the checks of single values.
use Prim.Native.Char.{Char, code}
use hermes_auto.Config.Yaml.{
  Entries, Key, Loader, Yaml, bool, end, entry, int, map, null, odd, str, text, type_name, UrlError,
  SplitUrl,
}
use hermes_auto.Dict.{elem}
use hermes_auto.Json.Dumps.{show_int}
use hermes_auto.Json.{ℤ, pos, negsuc}
use hermes_auto.Prelude.Result.{Result, ok, raise}
use hermes_auto.Prelude.{
  ℕ, String, Bool, true, false, not, ◌&&◌, ◌||◌, Option, none, some, List, [], ◌∷◌, ◌==◌, ◌=ℕ◌, leb,
  if◌then◌else◌,
}
use hermes_auto.Text.{concat, join, partition, show}

-- What the loader raises: a `ConfigError`, or the `TypeError` of keys that cannot be sorted.
pub data LoadError : Type 0 where
  config_error : String → LoadError
  type_error : LoadError

abbrev pub Checked : Type 0 → Type 0
Checked A = Result LoadError A

-- `where` of `_fail`
abbrev origin : Option String → String
origin none = "<built-in defaults>"
origin (some source) = source

-- `_fail`
unfoldable pub fail : Option String → String → String → LoadError
unfolding concat
fail source key detail = config_error (concat (origin source ∷ ": " ∷ key ∷ ": " ∷ detail ∷ []))

-- the keys of `set(block) - allowed`
unfoldable pub unknown_keys : List String → Entries → List Key
unknown_keys allowed end = []
unknown_keys allowed (entry (odd k) v es) = odd k ∷ unknown_keys allowed es
unknown_keys allowed (entry (text k) v es) =
    if elem k allowed then unknown_keys allowed es else text k ∷ unknown_keys allowed es

abbrev key_text : Key → String
key_text (text k) = k
key_text (odd k) = k

abbrev is_ref_char : Char → Bool
is_ref_char c =
    (leb 65 (code c) && leb (code c) 90) || (leb 48 (code c) && leb (code c) 57) || code c =ℕ 95

unfoldable pub all_ref_chars : String → Bool
all_ref_chars String.[] = true
all_ref_chars (String.◌∷◌ c s) = is_ref_char c && all_ref_chars s

-- `env:[A-Z0-9_]+` or `none`
unfoldable pub is_credential_ref : String → Bool
unfolding partition all_ref_chars
is_credential_ref ref =
    ref == "none"
    || ((partition 58 ref).0 == "env"
        && not ((partition 58 ref).1 == "")
        && all_ref_chars (partition 58 ref).1)

-- The text before one newline at the end: `$` matches there as well as at the end.
unfoldable pub before_newline : String → String
before_newline String.[] = String.[]
before_newline (String.◌∷◌ c String.[]) = if code c =ℕ 10 then String.[] else String.◌∷◌ c String.[]
before_newline (String.◌∷◌ c (String.◌∷◌ d s)) = String.◌∷◌ c (before_newline (String.◌∷◌ d s))

-- `_CREDENTIAL_REF_RE.match(value)`
unfoldable pub matches_credential_ref : String → Bool
unfolding is_credential_ref before_newline
matches_credential_ref value = is_credential_ref value || is_credential_ref (before_newline value)

module _ (py : Loader) (source : Option String) where
  -- `_as_mapping`, of a value that may be absent
  unfoldable pub as_mapping : Option Yaml → String → Checked Entries
  unfolding fail concat type_name
  as_mapping none key = ok end
  as_mapping (some null) key = ok end
  as_mapping (some (map block)) key = ok block
  as_mapping (some v) key =
      raise (fail source key (concat ("expected a mapping, got " ∷ type_name v ∷ [])))

  abbrev wrong_type : String → Yaml → String → LoadError
  wrong_type expected v key =
      fail source key (concat (expected ∷ ", got " ∷ type_name v ∷ " (" ∷ py.repr v ∷ ")" ∷ []))

  -- `_as_bool`
  unfoldable pub as_bool : Yaml → String → Checked Bool
  unfolding fail concat type_name
  as_bool (bool b) key = ok b
  as_bool v key = raise (wrong_type "expected a boolean" v key)

  -- `_as_int`
  unfoldable pub as_int : Yaml → String → Checked ℤ
  unfolding fail concat type_name
  as_int (int n) key = ok n
  as_int v key = raise (wrong_type "expected an integer" v key)

  -- `_as_str`
  unfoldable pub as_str : Yaml → String → Checked String
  unfolding fail concat type_name
  as_str (str s) key = ok s
  as_str v key = raise (wrong_type "expected a string" v key)

  abbrev unknown_key : String → String → Option Key → LoadError
  unknown_key expected prefix none = type_error
  unknown_key expected prefix (some k) =
      fail source (concat (prefix ∷ "." ∷ key_text k ∷ []))
        (concat ("unknown key; expected one of " ∷ expected ∷ []))

  -- `_reject_unknown`; `allowed` is sorted
  unfoldable pub reject_unknown : Entries → List String → String → Checked (Unit {0})
  unfolding fail concat join unknown_keys
  reject_unknown block allowed prefix = elim (unknown_keys allowed block) [
    | [] ↦ ok tt
    | k ∷ ks ↦ raise (unknown_key (join ", " allowed) prefix (py.least_key (k ∷ ks)))
  ]

  abbrev ephemeral_port : String → LoadError
  ephemeral_port key =
      fail source key
        "port 0 requests an ephemeral port, which Hermes's static model.base_url cannot follow; set HERMES_AUTO_TEST_EPHEMERAL=1 to allow it in tests"

  -- `os.environ.get(EPHEMERAL_PORT_ENV_VAR) == "1"`
  abbrev pub allows_ephemeral : Bool
  allows_ephemeral = elim (py.environ "HERMES_AUTO_TEST_EPHEMERAL") [
    | none ↦ false
    | some v ↦ v == "1"
  ]

  -- `_check_port`
  unfoldable pub check_port : ℤ → String → Checked ℕ
  unfolding fail concat show show_int
  check_port (negsuc n) key =
      raise (fail source key (concat ("port out of range 1-65535: " ∷ show_int (negsuc n) ∷ [])))
  check_port (pos n) key =
      if n =ℕ 0
      then (if allows_ephemeral then ok 0 else raise (ephemeral_port key))
      else (if leb n 65535
          then ok n
          else raise (fail source key (concat ("port out of range 1-65535: " ∷ show n ∷ []))))

  abbrev default_port : String → ℕ
  default_port scheme = if scheme == "https" then 443 else if scheme == "http" then 80 else 8787

  abbrev unparseable_url : String → UrlError → LoadError
  unparseable_url url e =
      fail source "gateway.url"
        (concat ("unparseable URL " ∷ py.repr (str url) ∷ ": " ∷ e.message ∷ []))

  -- `_port_from_url`, of the split URL
  unfoldable pub port_of_split : String → SplitUrl → Checked ℕ
  unfolding fail concat
  port_of_split url parsed = elim parsed.port [
    | raise e ↦ raise (unparseable_url url e)
    | ok none ↦ ok (default_port parsed.scheme)
    | ok (some port) ↦ ok port
  ]

  -- `_port_from_url`
  unfoldable pub port_from_url : String → Checked ℕ
  unfolding port_of_split fail concat
  port_from_url url = elim (py.urlsplit url) [
    | raise e ↦ raise (unparseable_url url e)
    | ok parsed ↦ port_of_split url parsed
  ]

  abbrev is_present : Option String → Bool
  is_present none = false
  is_present (some s) = true

  abbrev is_named : Option String → Bool
  is_named none = false
  is_named (some s) = not (s == "")

  abbrev bad_url : String → UrlError → LoadError
  bad_url key e = fail source key (concat ("must be an absolute HTTP(S) URL (" ∷ e.name ∷ ")" ∷ []))

  abbrev embedded_credential : String → LoadError
  embedded_credential key =
      fail source key
        "contains an embedded credential (a 'user:password@' section). Credentials never belong in config.yaml -- remove the userinfo from the URL and put the secret in an environment variable named by 'credential_ref' instead."

  -- `_check_base_url`, from the split URL on
  unfoldable pub check_split : String → String → SplitUrl → Checked String
  unfolding fail concat
  check_split value key parts =
      if is_present parts.username || is_present parts.password
      then raise (embedded_credential key)
      else elim parts.port [
        | raise e ↦ raise (bad_url key e)
        | ok port ↦
            if elem (py.lower parts.scheme) ("http" ∷ "https" ∷ []) && is_named parts.hostname
            then ok value
            else raise (fail source key "must be an absolute HTTP(S) URL with a host")
      ]

  -- `_check_base_url`
  unfoldable pub check_base_url : String → String → Checked String
  unfolding check_split fail concat
  check_base_url value key = elim (py.urlsplit value) [
    | raise e ↦ raise (bad_url key e)
    | ok parts ↦ check_split value key parts
  ]

  abbrev not_a_reference : String → String → LoadError
  not_a_reference value key = fail source key (
      concat (
        py.repr (str value)
        ∷ " is not a credential reference. Credentials never belong in config.yaml -- put the secret in an environment variable and write 'env:VAR_NAME' here (or 'none' for an unauthenticated local endpoint). Accepted pattern: ^(env:[A-Z0-9_]+|none)$"
        ∷ []))

  -- `_check_credential_ref`
  unfoldable pub check_credential_ref : String → String → Checked String
  unfolding matches_credential_ref fail concat
  check_credential_ref value key =
      if matches_credential_ref value then ok value else raise (not_a_reference value key)
