-- ===== src/Gateway/Ingress.antt =====
-- gateway/ingress.py: authentication, limits, the opaque body and the private envelope.
pub mod Admission
pub mod Envelope
use Prim.Native.Char.{Char}
use Prim.Native.String
use hermes_auto.Gateway.Errors.{GatewayError}
use hermes_auto.Json.{
  ℤ, pos, negsuc, Value, null, bool, int, float, str, arr, obj, Fields, end, field, get, pop,
  no_fields, type_name,
}
use hermes_auto.Json.Dumps.{dumps_compact}
use hermes_auto.Prelude.Result.{Result, ok, raise, ◌>>=◌}
use hermes_auto.Prelude.{
  ℕ, ◌+◌, String, Bool, true, false, not, Option, none, some, List, [], ◌∷◌, ◌++◌, length, ◌==◌,
  ltb, if◌then◌else◌,
}
use hermes_auto.Python.{Python}
use hermes_auto.Text.{concat, lower, partition, show, strip, len}

-- `_bearer`: the credential of the header, and "" for anything unusable
unfoldable pub bearer : Option String → String
unfolding lower partition strip
bearer none = ""
bearer (some header) =
    let (scheme, credential) = partition 32 header in
    if header == "" then "" else if lower scheme == "bearer" then strip credential else ""

-- `compare_token` of gateway/auth.py: `hmac.compare_digest` of the encoded texts
abbrev pub compare_token : String → String → Bool
compare_token supplied expected = supplied == expected

unfoldable pub invalid_api_key : GatewayError
invalid_api_key = record {
  status = 401;
  message =
      "Incorrect API key provided. The hermes-auto-router gateway requires the bearer token from its state directory.";
  type_ = "invalid_request_error";
  param = none;
  code = some "invalid_api_key";
}

-- `authenticate`; the expected token is that of the app's state, `none` before it is minted
unfoldable pub authenticate : Option String → Option String → Result GatewayError (Unit {0})
authenticate header none = raise invalid_api_key
authenticate header (some expected) =
    if expected == ""
    then raise invalid_api_key
    else if compare_token (bearer header) expected
    then ok tt
    else raise invalid_api_key

abbrev pub Bytes : Type 0
Bytes = List ℕ

-- what `request.stream()` yields: a chunk, or the exception of a client that went away
pub data StreamEvent : Type 0 where
  chunk : Bytes → StreamEvent
  disconnect : StreamEvent

-- what `enforce_limits` reads of a request
pub record Inbound : Type 0 where
  pub authorization : Option String
  pub content_type : Option String
  pub content_length : Option String
  pub events : List StreamEvent
  pub headers : List (String × String)

unfoldable pub too_large : ℕ → GatewayError
unfolding concat show
too_large max_bytes = record {
  status = 413;
  message = concat ("Request body exceeds the " ∷ show max_bytes ∷ " byte limit." ∷ []);
  type_ = "invalid_request_error";
  param = none;
  code = some "request_too_large";
}

unfoldable pub incomplete_request : GatewayError
incomplete_request = record {
  status = 400;
  message = "Client disconnected before the request body was complete.";
  type_ = "invalid_request_error";
  param = none;
  code = some "incomplete_request";
}

-- the loop of `enforce_limits`, from the bytes counted and the chunks kept so far
unfoldable pub read_body : ℕ → ℕ → Bytes → List StreamEvent → Result GatewayError Bytes
read_body max_bytes total kept [] = ok kept
read_body max_bytes total kept (disconnect ∷ events) = raise incomplete_request
read_body max_bytes total kept (chunk c ∷ events) =
    let rest = read_body max_bytes (total + length c) (kept ++ c) events in
    if ltb max_bytes (total + length c) then raise (too_large max_bytes) else rest

-- `content_type.split(";", 1)[0].strip().lower()`
unfoldable pub media_type : Option String → String
unfolding lower partition strip
media_type none = ""
media_type (some content_type) = lower (strip (partition 59 content_type).0)

abbrev pub above : ℕ → ℤ → Bool
above max_bytes (pos n) = ltb max_bytes n
above max_bytes (negsuc n) = false

unfoldable pub take_chars : ℕ → String → String
take_chars ℕ.zero s = ""
take_chars (ℕ.suc n) String.[] = ""
take_chars (ℕ.suc n) (String.◌∷◌ c s) = String.◌∷◌ c (take_chars n s)

unfoldable pub filter_chars : (Char → Bool) → String → String
filter_chars p String.[] = ""
filter_chars p (String.◌∷◌ c s) = if p c then String.◌∷◌ c (filter_chars p s) else filter_chars p s

-- `_PROTOCOL_VERSION`: 1, and Python has `True == 1 == 1.0`
unfoldable pub is_version_one : Option Value → Bool
is_version_one (some (int (pos (ℕ.suc ℕ.zero)))) = true
is_version_one (some (bool true)) = true
is_version_one (some (float s)) = s == "1.0"
is_version_one _ = false

abbrev pub envelope_key : String
envelope_key = "_hermes_auto"

abbrev pub invalid_metadata : String → String → GatewayError
invalid_metadata message param = record {
  status = 400;
  message = message;
  type_ = "invalid_request_error";
  param = some param;
  code = some "invalid_routing_metadata";
}

-- `strip_envelope`: the body that goes upstream, and the envelope
unfoldable pub strip_envelope : Fields → Result GatewayError (Fields × Fields)
unfolding get pop concat type_name
strip_envelope body = elim (get envelope_key body) [
  | none ↦ ok (pop envelope_key body, end)
  | some null ↦ ok (pop envelope_key body, end)
  | some (obj envelope) ↦ ok (pop envelope_key body, envelope)
  | some v ↦ raise (
      invalid_metadata (concat ("_hermes_auto must be an object, got " ∷ type_name v ∷ "." ∷ []))
        envelope_key)
]

-- a failing JSON-Schema constraint: the dotted path and the keyword
pub record Violation : Type 0 where
  pub path : String
  pub keyword : String

abbrev or_root : String → String
or_root path = if path == "" then "<root>" else path

module _ (python : Python) where
  -- `_safe_echo`
  unfoldable pub safe_echo : String → String
  unfolding filter_chars take_chars len concat
  safe_echo value =
      let cleaned = filter_chars python.is_printable value in
      if ltb 64 (len cleaned) then concat (take_chars 64 cleaned ∷ "..." ∷ []) else cleaned

  unfoldable pub unsupported_media_type : String → GatewayError
  unfolding safe_echo
  unsupported_media_type media =
      let shown = safe_echo media in
      record {
        status = 415;
        message = concat (
            "Unsupported content type "
            ∷ python.repr_text (if shown == "" then "<missing>" else shown)
            ∷ "; expected application/json."
            ∷ []);
        type_ = "invalid_request_error";
        param = some "content-type";
        code = some "unsupported_media_type";
      }

  -- the test of the declared length; a malformed one is passed over
  unfoldable pub declared_too_large : ℕ → Option String → Bool
  declared_too_large max_bytes none = false
  declared_too_large max_bytes (some declared) = elim (python.int_of declared) [
    | none ↦ false
    | some n ↦ above max_bytes n
  ]

  unfoldable pub enforce_limits : ℕ → Inbound → Result GatewayError Bytes
  enforce_limits max_bytes request =
      if not (media_type request.content_type == "application/json")
      then raise (unsupported_media_type (media_type request.content_type))
      else if declared_too_large max_bytes request.content_length
      then raise (too_large max_bytes)
      else read_body max_bytes 0 [] request.events

  abbrev bad_body : String → String → GatewayError
  bad_body message code = record {
    status = 400;
    message = message;
    type_ = "invalid_request_error";
    param = none;
    code = some code;
  }

  -- `parse_body`, from what `json.loads` returned
  unfoldable pub object_of : Result String Value → Result GatewayError Fields
  object_of (raise name) =
      raise
        (bad_body (concat ("Request body is not valid JSON (" ∷ name ∷ ")." ∷ [])) "invalid_json")
  object_of (ok (obj body)) = ok body
  object_of (ok v) = raise (
      bad_body (concat ("Request body must be a JSON object, got " ∷ type_name v ∷ "." ∷ []))
        "invalid_request_body")

  unfoldable pub parse_body : Bytes → Result GatewayError Fields
  parse_body raw = object_of (python.loads raw)

  unfoldable pub version_mismatch : Option Value → GatewayError
  unfolding concat
  version_mismatch version = record {
    status = 400;
    message = concat (
        "_hermes_auto.protocol_version is "
        ∷ python.repr_of version
        ∷ "; this gateway speaks version 1. Upgrade the hermes-auto provider plugin and the gateway together."
        ∷ []);
    type_ = "invalid_request_error";
    param = some "_hermes_auto.protocol_version";
    code = some "protocol_version_mismatch";
  }

  -- `envelope_violation` is the schema validator of the envelope, `none` where it accepts
  unfoldable pub validate_envelope :
      (Fields → Option Violation) → Fields → Result GatewayError (Unit {0})
  validate_envelope envelope_violation envelope =
      if no_fields envelope
      then ok tt
      else if not (is_version_one (get "protocol_version" envelope))
      then raise (version_mismatch (get "protocol_version" envelope))
      else elim (envelope_violation envelope) [
        | none ↦ ok tt
        | some v ↦ raise (
            invalid_metadata
              (concat (
                "_hermes_auto failed validation at "
                ∷ or_root v.path
                ∷ " (constraint: "
                ∷ v.keyword
                ∷ ")."
                ∷ []))
              (if v.path == "" then envelope_key else concat (envelope_key ∷ "." ∷ v.path ∷ [])))
      ]

  -- `validate_request`; `request_violation` is the schema validator of the request
  unfoldable pub validate_request :
      (Fields → Option Violation) → Fields → Bool → Result GatewayError (Unit {0})
  validate_request request_violation body false = ok tt
  validate_request request_violation body true = elim (request_violation body) [
    | none ↦ ok tt
    | some v ↦ raise (record {
      status = 400;
      message = concat (
          "Request failed validation at "
          ∷ or_root v.path
          ∷ " (constraint: "
          ∷ v.keyword
          ∷ ")."
          ∷ []);
      type_ = "invalid_request_error";
      param = if v.path == "" then none else some v.path;
      code = some "invalid_request_body";
    })
  ]

-- `encode_body`, before the text is encoded as UTF-8
unfoldable pub encode_body : Fields → String
unfolding dumps_compact
encode_body body = dumps_compact (obj body)
