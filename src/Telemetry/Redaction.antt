-- ===== src/Telemetry/Redaction.antt =====
-- `redact`: the copy of a value that may be logged.
use hermes_auto.Dict.{elem}
use hermes_auto.Json.{Value, Fields, Items, put}
use hermes_auto.Prelude.Result.{Result, ok, raise, ◌>>=◌}
use hermes_auto.Prelude.{
  ℕ, zero, suc, String, Option, none, some, List, [], ◌∷◌, ◌++◌, if◌then◌else◌,
}
use hermes_auto.Telemetry.Events.{
  Event, Events, Entries, Key, text, odd, get, null, bool, int, float, str, opaque, again, list,
  tuple, dict, nil, cons, end, entry,
}
use hermes_auto.Telemetry.Salt.{SaltError, session_digest, redaction_error, escaped}
use hermes_auto.Text.{concat}

abbrev pub banned_keys : List String
banned_keys =
    "messages" ∷ "content" ∷ "prompt" ∷ "tool_calls" ∷ "tool_result" ∷ "tool_output" ∷ "arguments"
    ∷ "authorization" ∷ "api_key" ∷ "token" ∷ "secret" ∷ []

abbrev pub session_id_keys : List String
session_id_keys = "root_session_id" ∷ "session_id" ∷ []

-- `text[:n]`
unfoldable pub prefix : ℕ → String → String
prefix zero s = ""
prefix (suc n) String.[] = ""
prefix (suc n) (String.◌∷◌ c s) = String.◌∷◌ c (prefix n s)

-- `key if isinstance(key, str) else repr(key)[:_REPR_LIMIT]`; the error is the type of the exception
unfoldable pub name_of : Key → Result String String
unfolding prefix
name_of (text k) = ok k
name_of (odd (ok repr)) = ok (prefix 64 repr)
name_of (odd (raise e)) = raise e

-- `repr(node)[:_REPR_LIMIT]`
unfoldable pub rendered : String → Option String → String
unfolding prefix concat
rendered type_name none = concat ("<unreprable " ∷ type_name ∷ ">" ∷ [])
rendered type_name (some repr) = prefix 64 repr

-- the texts of a list
unfoldable pub texts_of : Events → List String
texts_of nil = []
texts_of (cons (str s) es) = s ∷ texts_of es
texts_of (cons e es) = texts_of es

-- `prior`, of the value that `_redacted` had
unfoldable pub prior_of : Option Event → List String
unfolding texts_of
prior_of (some (list es)) = texts_of es
prior_of (some (again texts)) = texts
prior_of existing = []

-- the loop over `[*prior, *dropped]`, after `merged`
unfoldable pub merge : List String → List String → List String
merge merged [] = merged
merge merged (s ∷ l) = merge (if elem s merged then merged else merged ++ s ∷ []) l

unfoldable pub value_list : List String → Items
value_list [] = Items.nil
value_list (s ∷ l) = Items.cons (Value.str s) (value_list l)

-- `if dropped`, at the end of `_redact_mapping`
unfoldable pub note_dropped : Option Event → Fields → List String → Fields
unfolding prior_of merge value_list put
note_dropped existing result [] = result
note_dropped existing result (s ∷ dropped) =
    put "_redacted" (Value.arr (value_list (merge [] (prior_of existing ++ s ∷ dropped)))) result

-- the keys and values collected by `_redact_mapping`: `result` and `dropped`
abbrev pub Collected : Type 0
Collected = Fields × List String

-- a session id, with its digest
unfoldable pub take_digest : String → Collected → Option String → Collected
unfolding put
take_digest name (result, dropped) none = (result, dropped ++ name ∷ [])
take_digest name (result, dropped) (some digest) =
    (put "root_session_hash" (Value.str digest) result, dropped)

-- what stands for an event whose redaction raised
unfoldable pub failed_event : String → Value
failed_event name = Value.obj (
    Fields.field "_redacted" (Value.arr (Items.cons (Value.str "<event>") Items.nil))
      (Fields.field "_redaction_error" (Value.str name) Fields.end))

-- the `try` of `redact`
unfoldable pub logged : Result String Value → Value
unfolding failed_event
logged (ok v) = v
logged (raise name) = failed_event name

-- `casefold` is `str.casefold`, `hmac` the hexadecimal HMAC-SHA256, and `salt` what `_salt_for` gives
-- while a value is redacted.
module _ (casefold : String → String) (hmac : String → String → String)
    (salt : Result SaltError String) where
  -- `_safe_digest`; the error is the type of an exception that it does not catch
  unfoldable pub safe_digest : Event → Result String (Option String)
  unfolding session_digest
  safe_digest (str s) = elim (session_digest hmac salt s) [
    | ok digest ↦ ok (some digest)
    | raise (redaction_error detail) ↦ ok none
    | raise (escaped name) ↦ raise name
  ]
  safe_digest e = ok none

  -- one iteration of `_redact_mapping`, with the digest and the copy of the value, which it asks for
  unfoldable pub take_entry :
      String
      → Result String (Option String)
      → Result String Value
      → Collected
      → Result String Collected
  unfolding take_digest put
  take_entry name digest copy collected =
      if elem (casefold name) banned_keys
      then ok (collected.0, collected.1 ++ name ∷ [])
      else if elem (casefold name) session_id_keys
      then (digest >>= λ d. ok (take_digest name collected d))
      else (copy >>= λ v. ok (put name v collected.0, collected.1))

  unfoldable mutual
    unfolding rendered note_dropped name_of safe_digest take_entry

    -- `_redact_node`, at the depth that leaves `levels` of the 13
    pub redact_node : ℕ → Event → Result String Value
    redact_node zero e = ok (Value.str "<truncated: depth > 12>")
    redact_node (suc levels) (dict es) = redact_entries levels es (Fields.end, []) >>= λ collected.
        ok (Value.obj (note_dropped (get "_redacted" es) collected.0 collected.1))
    redact_node (suc levels) (list es) = redact_items levels es >>= λ vs. ok (Value.arr vs)
    redact_node (suc levels) (tuple es) = redact_items levels es >>= λ vs. ok (Value.arr vs)
    redact_node (suc levels) (again texts) = ok (Value.str "<cycle>")
    redact_node (suc levels) null = ok Value.null
    redact_node (suc levels) (bool b) = ok (Value.bool b)
    redact_node (suc levels) (int n) = ok (Value.int n)
    redact_node (suc levels) (float x) = ok (Value.float x)
    redact_node (suc levels) (str s) = ok (Value.str s)
    redact_node (suc levels) (opaque type_name repr) = ok (Value.str (rendered type_name repr))

    pub redact_items : ℕ → Events → Result String Items
    redact_items levels nil = ok Items.nil
    redact_items levels (cons e es) =
        redact_node levels e >>= λ v. redact_items levels es >>= λ vs. ok (Items.cons v vs)

    -- the loop of `_redact_mapping`
    pub redact_entries : ℕ → Entries → Collected → Result String Collected
    redact_entries levels end collected = ok collected
    redact_entries levels (entry k v es) collected = name_of k >>= λ name.
        take_entry name (safe_digest v) (redact_node levels v) collected >>= λ next.
        redact_entries levels es next

  -- `redact`
  unfoldable pub redact : Event → Value
  unfolding redact_node logged
  redact event = logged (redact_node 13 event)
