-- ===== src/Gateway/Errors.antt =====
-- gateway/errors.py: the error that the gateway itself raises, and its wire form.
use hermes_auto.Json.{Value, null, str, end, field, obj}
use hermes_auto.Prelude.{ℕ, String, Option, none, some}

pub record GatewayError : Type 0 where
  pub status : ℕ
  pub message : String
  pub type_ : String
  pub param : Option String
  pub code : Option String

abbrev pub or_null : Option String → Value
or_null none = null
or_null (some s) = str s

-- `error_body`: `param` and `code` are always there
unfoldable pub error_body : String → String → Option String → Option String → Value
error_body message type_ param code = obj (
    field "error"
      (obj (
        field "message" (str message) (
          field "type" (str type_)
            (field "param" (or_null param) (field "code" (or_null code) end)))))
      end)

-- `to_response`: the status and the body
unfoldable pub to_response : GatewayError → ℕ × Value
unfolding error_body
to_response e = (e.status, error_body e.message e.type_ e.param e.code)
