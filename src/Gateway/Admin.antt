-- ===== src/Gateway/Admin.antt =====
-- gateway/admin.py: the scope check of the admin API, and its decision and shutdown handlers.
pub mod Scope
use hermes_auto.Gateway.Auth.{read_token}
use hermes_auto.Gateway.Errors.{GatewayError, to_response, or_null}
use hermes_auto.Gateway.Ingress.{compare_token}
use hermes_auto.Json.{Value, Fields, Items, int, str, bool, arr, obj, field, end, nil, cons, pos}
use hermes_auto.Prelude.Result.{Result, ok, raise, Result-cases, ok-injective}
use hermes_auto.Prelude.{
  ℕ, ◌+◌, String, Bool, true, false, Option, none, some, List, [], ◌∷◌, map, length, ◌==◌, ◌≡◌, ◌≢◌,
  ◌↔◌, refl, sym, subst, ap, Bool-cases, Option-cases, inl, inr, arith, eq_iff, eq_refl,
  if◌then◌else◌,
}
use hermes_auto.Routing.Router.{
  Attempt, DecisionRouter, RouteDecision, decision_for, latest_decision,
}
use hermes_auto.Runtime.{Contents}
use hermes_auto.Text.{lower, partition, strip}

-- `_bearer`
unfoldable pub bearer : Option String → String
unfolding lower partition strip
bearer none = ""
bearer (some header) =
    let (scheme, credential) = partition 32 header in
    if header == "" then "" else if lower scheme == "bearer" then strip credential else ""

-- `_denied`
unfoldable pub denied : GatewayError
denied = record {
  status = 401;
  message =
      "Admin authentication failed. The admin API is a separate authentication scope from the inference API: present the bearer token from <state_dir>/admin-token, not the inference token.";
  type_ = "invalid_request_error";
  param = none;
  code = some "invalid_admin_token";
}

-- `_expected_admin_token`
unfoldable pub expected_admin_token : String → Contents → Option String
unfolding read_token
expected_admin_token path contents = elim (read_token path contents) [
  | ok token ↦ token
  | raise e ↦ none
]

-- the tests of `require_admin`, with the expected token; the comparison with the decoy has no effect
unfoldable pub require_token : String → Option String → Option GatewayError
unfolding denied
require_token supplied none = some denied
require_token supplied (some expected) =
    if expected == ""
    then some denied
    else if compare_token supplied expected
    then none
    else some denied

-- `require_admin`, of the header and the token file as they are now
unfoldable pub require_admin : Option String → String → Contents → Option GatewayError
unfolding bearer expected_admin_token require_token
require_admin header path contents =
    require_token (bearer header) (expected_admin_token path contents)

-- what `AdminAuthMiddleware` does: it hands the request on, or answers it and logs path and method
pub data Outcome (A : Type 0) : Type 0 where
  passed : A → Outcome A
  rejected : ℕ × Value → String × String → Outcome A

-- `AdminAuthMiddleware.__call__`, of an app that answers with `answer`
unfoldable pub admin_middleware :
    {A : Type 0} → Bool → Option String → String → Contents → String × String → A → Outcome A
unfolding require_admin to_response
admin_middleware is_http header path contents asked answer =
    if is_http
    then elim (require_admin header path contents) [
      | none ↦ passed answer
      | some e ↦ rejected (to_response e) asked
    ]
    else passed answer

texts : List String → Items
texts [] = nil
texts (s ∷ l) = cons (str s) (texts l)

filters : List (String × List String) → Items
unfolding texts
filters [] = nil
filters ((candidate_id, reasons) ∷ l) =
    cons (obj (field "candidate" (str candidate_id) (field "reasons" (arr (texts reasons)) end)))
      (filters l)

fallback_attempts : List Attempt → Items
fallback_attempts [] = nil
fallback_attempts (a ∷ l) =
    cons (obj (field "candidate" (str a.candidate) (field "reason" (str a.reason) end)))
      (fallback_attempts l)

-- `RouteDecision.public`
unfoldable pub public : RouteDecision → Value
unfolding filters fallback_attempts texts
public d = obj (
    field "selected_candidate" (str d.selected.id) (
      field "selected_tier" (str d.selected.tier) (
        field "detected_tier" (str d.detected_tier) (
          field "requested_tier" (str d.requested_tier) (
            field "complexity_score" (int (pos d.score)) (
              field "estimated_input_tokens" (int (pos d.estimated_tokens)) (
                field "filters" (arr (filters d.filtered)) (
                  field "fallback_attempts" (arr (fallback_attempts d.attempts))
                    (field "pinned" (or_null d.pinned) end)))))))))

unfoldable pub decision_not_found : GatewayError
decision_not_found = record {
  status = 404;
  message = "No in-memory routing decision is available for that session.";
  type_ = "invalid_request_error";
  param = none;
  code = some "decision_not_found";
}

-- the answer of `decision`
unfoldable pub decision_response : Option RouteDecision → ℕ × Value
unfolding public decision_not_found to_response
decision_response none = to_response decision_not_found
decision_response (some found) = (200, public found)

-- `decision`; the two functions are the digests of the router
unfoldable pub decision :
    (String → String → String) → (Option Fields → String) → DecisionRouter → String → ℕ × Value
unfolding decision_response decision_for latest_decision
decision keyed_digest message_digest router session_id = decision_response (
    if session_id == "latest"
    then latest_decision router
    else decision_for keyed_digest message_digest router session_id)

-- The app's state that `shutdown` changes: its flag, the `should_exit` of each server that runs, and
-- the calls of the hook, if there is one.
pub record AdminState : Type 0 where
  pub shutdown_requested : Bool
  pub servers : List Bool
  pub request_exit : Option ℕ

abbrev requested : Option ℕ → Option ℕ
requested none = none
requested (some calls) = some (calls + 1)

-- `shutdown`: the answer and the new state
unfoldable pub shutdown : AdminState → (ℕ × Value) × AdminState
shutdown state = (
  (
    202,
    obj (
        field "status" (str "accepted") (
          field "detail"
            (str
              "graceful drain started: the gateway has stopped accepting new connections and will exit once in-flight requests, including streaming completions, have finished")
            (field "servers_signalled" (int (pos (length state.servers))) end))),
  ),
  record {
    shutdown_requested = true;
    servers = map (λ _. true) state.servers;
    request_exit = requested state.request_exit;
  },
)
