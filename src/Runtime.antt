-- ===== src/Runtime.antt =====
-- state/runtime.py: the runtime file, its fields and its validation.
pub mod Reading
use hermes_auto.Json.{Value, Fields, ℤ, pos, negsuc, get, int, str, obj, field, end, type_name}
use hermes_auto.Prelude.Result.{Result, ok, raise, ◌>>=◌, ◌>>◌, raise_if}
use hermes_auto.Prelude.{ℕ, ◌+◌, String, Bool, Option, none, some, List, [], ◌∷◌, ◌==◌}
use hermes_auto.Text.{concat, show, strip}

pub record RuntimeFile : Type 0 where
  pub pid : ℤ
  pub port : ℤ
  pub admin_port : ℤ
  pub instance_id : String
  pub started_at : String
  pub exe : String

-- What `target.read_bytes()` finds; `unreadable` holds the text of the `OSError`.
pub data Contents : Type 0 where
  absent : Contents
  unreadable : String → Contents
  bytes : List ℕ → Contents

-- `str(number)`
unfoldable pub show_int : ℤ → String
unfolding show concat
show_int (pos n) = show n
show_int (negsuc n) = concat ("-" ∷ show (n + 1) ∷ [])

-- the object that `to_json` dumps, its keys sorted
unfoldable pub to_fields : RuntimeFile → Fields
to_fields rf = field "admin_port" (int rf.admin_port) (
    field "exe" (str rf.exe) (
      field "instance_id" (str rf.instance_id) (
        field "pid" (int rf.pid)
          (field "port" (int rf.port) (field "started_at" (str rf.started_at) end)))))

module _ (target : String) where
  -- an iteration of the loop over `_REQUIRED_INT_FIELDS`
  unfoldable pub required_int : String → Fields → Result String ℤ
  unfolding get concat type_name
  required_int name document = elim (get name document) [
    | none ↦ raise (concat (target ∷ ": missing required field '" ∷ name ∷ "'" ∷ []))
    | some (int n) ↦ ok n
    | some v ↦
        raise
          (concat (target ∷ ": field '" ∷ name ∷ "' must be an integer, got " ∷ type_name v ∷ []))
  ]

  -- an iteration of the loop over `_REQUIRED_STR_FIELDS`
  unfoldable pub required_str : String → Fields → Result String String
  unfolding get concat type_name
  required_str name document = elim (get name document) [
    | none ↦ raise (concat (target ∷ ": missing required field '" ∷ name ∷ "'" ∷ []))
    | some (str s) ↦ ok s
    | some v ↦
        raise (concat (target ∷ ": field '" ∷ name ∷ "' must be a string, got " ∷ type_name v ∷ []))
  ]

  abbrev empty_instance_id : String
  empty_instance_id = concat (
      target
      ∷ ": 'instance_id' is empty. It is the identity supervision compares against /healthz, so an empty value would make every running gateway look like a stale one."
      ∷ [])

  -- the checks of `read_runtime` on the parsed object
  unfoldable pub runtime_of_fields : Fields → Result String RuntimeFile
  unfolding required_int required_str strip
  runtime_of_fields document = do
    pid ← required_int "pid" document
    port ← required_int "port" document
    admin_port ← required_int "admin_port" document
    instance_id ← required_str "instance_id" document
    started_at ← required_str "started_at" document
    exe ← required_str "exe" document
    raise_if (strip instance_id == "") empty_instance_id
    ok (record {
      pid = pid;
      port = port;
      admin_port = admin_port;
      instance_id = instance_id;
      started_at = started_at;
      exe = exe;
    })

  unfoldable pub runtime_of_value : Value → Result String RuntimeFile
  unfolding runtime_of_fields concat type_name
  runtime_of_value (obj document) = runtime_of_fields document
  runtime_of_value v = raise (concat (target ∷ ": expected a JSON object, got " ∷ type_name v ∷ []))

  -- `read_runtime`; `loads` is `json.loads(raw.decode("utf-8"))`, its error the text of the exception
  unfoldable pub read_runtime :
      (List ℕ → Result String Value) → Contents → Result String (Option RuntimeFile)
  unfolding runtime_of_value concat
  read_runtime loads absent = ok none
  read_runtime loads (unreadable e) =
      raise (concat (target ∷ ": exists but cannot be read: " ∷ e ∷ []))
  read_runtime loads (bytes raw) = elim (loads raw) [
    | raise e ↦ raise (
        concat (
          target ∷ ": is not valid JSON (" ∷ e
          ∷ "). The gateway may have been interrupted mid-start; remove the file to clear it."
          ∷ []))
    | ok document ↦ elim (runtime_of_value document) [ raise e ↦ raise e | ok rf ↦ ok (some rf) ]
  ]
