-- ===== src/Config/Yaml.antt =====
-- The values of `yaml.safe_load`, and what the loader uses of its surroundings.
use hermes_auto.Json.{ℤ}
use hermes_auto.Prelude.Result.{Result}
use hermes_auto.Prelude.{
  ℕ, String, Bool, true, false, Option, none, some, List, ◌==◌, if◌then◌else◌,
}

-- A key of a mapping: a text, or another value with its `str`.
pub data Key : Type 0 where
  text : String → Key
  odd : String → Key

mutual
  -- `other` is a date, a set or binary data, with the name of its type and its `repr`.
  pub data Yaml : Type 0 where
    null : Yaml
    bool : Bool → Yaml
    int : ℤ → Yaml
    float : String → Yaml
    str : String → Yaml
    other : String → String → Yaml
    seq : Elements → Yaml
    map : Entries → Yaml

  pub data Elements : Type 0 where
    nil : Elements
    cons : Yaml → Elements → Elements

  pub data Entries : Type 0 where
    end : Entries
    entry : Key → Yaml → Entries → Entries

-- `block.get(key)`, of a text key
unfoldable pub get : String → Entries → Option Yaml
get k end = none
get k (entry (text j) v es) = if j == k then some v else get k es
get k (entry (odd j) v es) = get k es

-- `block.get(key, default)`
unfoldable pub get_or : String → Yaml → Entries → Yaml
unfolding get
get_or k default es = elim (get k es) [ none ↦ default | some v ↦ v ]

-- `key in block`
unfoldable pub has_key : String → Entries → Bool
unfolding get
has_key k es = elim (get k es) [ none ↦ false | some v ↦ true ]

-- `type(value).__name__`
unfoldable pub type_name : Yaml → String
type_name null = "NoneType"
type_name (bool b) = "bool"
type_name (int n) = "int"
type_name (float s) = "float"
type_name (str s) = "str"
type_name (other name repr) = name
type_name (seq vs) = "list"
type_name (map es) = "dict"

-- A `ValueError` of `urllib.parse`: the name of its type, and its text.
pub record UrlError : Type 0 where
  pub name : String
  pub message : String

-- The result of `urlsplit`. The port is read lazily, and may raise.
pub record SplitUrl : Type 0 where
  pub scheme : String
  pub username : Option String
  pub password : Option String
  pub hostname : Option String
  pub port : Result UrlError (Option ℕ)
  pub path : String
  pub query : String
  pub fragment : String

-- the outcome of `read_text`; `not_utf8` is its `UnicodeDecodeError`
pub data FileText : Type 0 where
  unreadable : String → FileText
  not_utf8 : String → FileText
  contents : String → FileText

-- Python's own functions, PyYAML, the environment and the files. Nothing is assumed of them.
pub record Loader : Type 0 where
  -- `sorted(keys)[0]`; `none` is the `TypeError` of keys that cannot be compared
  pub least_key : List Key → Option Key
  pub repr : Yaml → String
  pub urlsplit : String → Result UrlError SplitUrl
  pub lower : String → String
  -- `os.environ.get`
  pub environ : String → Option String
  -- `str(pathlib.Path(path).expanduser())`
  pub expanduser : String → String
  pub expandvars : String → String
  -- `path / name`
  pub child_of : String → String → String
  pub is_file : String → Bool
  pub read_text : String → FileText
  -- `yaml.safe_load`, with the text of the `YAMLError`
  pub safe_load : String → Result String Yaml
