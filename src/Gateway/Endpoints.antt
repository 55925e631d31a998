-- ===== src/Gateway/Endpoints.antt =====
-- The other endpoints of gateway/app.py, and the exception handlers of gateway/errors.py.
use hermes_auto.Gateway.Errors.{GatewayError, error_body, to_response}
use hermes_auto.Gateway.Ingress.{authenticate}
use hermes_auto.Gateway.Upstream.{ProbeResult}
use hermes_auto.Json.{Value, Items, str, int, arr, obj, field, end, nil, cons, pos}
use hermes_auto.Prelude.Result.{Result, ok, ◌>>=◌}
use hermes_auto.Prelude.{ℕ, String, Option, none, some, List, [], ◌∷◌, ◌==◌, if◌then◌else◌}
use hermes_auto.Text.{concat}

abbrev pub virtual_models : List String
virtual_models = "auto" ∷ "auto:balanced" ∷ "auto:quality" ∷ "auto:economy" ∷ "auto:session" ∷ []

unfoldable pub listed_models : List String → Items
listed_models [] = nil
listed_models (model_id ∷ model_ids) =
    cons
      (obj (
        field "id" (str model_id) (
          field "object" (str "model") (
            field "created" (int (pos 1735689600))
              (field "owned_by" (str "hermes-auto-router") end)))))
      (listed_models model_ids)

-- `list_models`, of the header and the token of the app's state
unfoldable pub list_models : Option String → Option String → Result GatewayError (ℕ × Value)
unfolding authenticate listed_models
list_models header token = authenticate header token >>= λ _.
    ok (
      200,
      obj (field "object" (str "list") (field "data" (arr (listed_models virtual_models)) end)),
    )

unfoldable pub healthz : String → ℕ × Value
healthz instance_id =
    (200, obj (field "status" (str "ok") (field "instance_id" (str instance_id) end)))

-- `readyz`, of the result of `client_pool.reachable()`; `none` is an app without a pool
unfoldable pub readyz : String → Option ProbeResult → ℕ × Value
readyz instance_id none = (
  503,
  obj (
      field "status" (str "not_ready")
        (field "reason" (str "upstream client is not initialised") end)),
)
readyz instance_id (some result) =
    if result.ready
    then (
      200,
      obj (
          field "status" (str "ready")
            (field "instance_id" (str instance_id) (field "upstream" (str result.reason) end))),
    )
    else (
      503,
      obj (
          field "status" (str "not_ready")
            (field "instance_id" (str instance_id) (field "reason" (str result.reason) end))),
    )

-- `error_response`
unfoldable pub error_response : ℕ → String → String → Option String → Option String → ℕ × Value
unfolding error_body
error_response status message type_ param code = (status, error_body message type_ param code)

-- `gateway_error_handler`
unfoldable pub gateway_error_handler : GatewayError → ℕ × Value
unfolding to_response
gateway_error_handler e = to_response e

abbrev detail_or_default : Option String → String
detail_or_default none = "request could not be handled"
detail_or_default (some detail) = if detail == "" then "request could not be handled" else detail

abbrev status_or_default : Option ℕ → ℕ
status_or_default none = 500
status_or_default (some status) = status

-- `http_exception_handler`, of the status and the detail of the exception, where it has them
unfoldable pub http_exception_handler : Option ℕ → Option String → ℕ × Value
unfolding error_response
http_exception_handler status detail =
    error_response (status_or_default status) (detail_or_default detail) "invalid_request_error"
      none none

-- `unhandled_exception_handler`, of the name of the exception's type
unfoldable pub unhandled_exception_handler : String → ℕ × Value
unfolding error_response concat
unhandled_exception_handler name =
    error_response 500 (concat ("internal gateway error (" ∷ name ∷ ")" ∷ [])) "internal_error" none
      (some "internal_error")
