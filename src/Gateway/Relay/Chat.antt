-- ===== src/Gateway/Relay/Chat.antt =====
-- `chat_completions` of gateway/app.py: authenticate, select, rewrite the model, relay or fall back.
pub mod Requests
pub mod Serving
use hermes_auto.Config.{CandidateConfig}
use hermes_auto.Gateway.Errors.{GatewayError}
use hermes_auto.Gateway.Ingress.{
  Inbound, Violation, authenticate, enforce_limits, parse_body, strip_envelope, validate_envelope,
  validate_request,
}
use hermes_auto.Gateway.Relay.{
  Outcome, Response, StreamReply, CompleteReply, all_failed, candidate_payload, committed, aborted,
  complete_round, exhausted, fall_back, stream_round,
}
use hermes_auto.Json.{Value, Fields, bool, int, float, str, arr, obj, null, nil, end, get, pos}
use hermes_auto.Prelude.Result.{Result, ok, raise, ◌>>=◌, ◌>>◌}
use hermes_auto.Prelude.{
  ℕ, String, Bool, true, false, not, ◌&&◌, Option, none, some, List, [], ◌∷◌, ◌==◌, get_elem?, set,
  if◌then◌else◌,
}
use hermes_auto.Python.{Python}
use hermes_auto.Text.{concat}
use hermes_auto.Routing.Router.{
  Attempt, DecisionRouter, Ref, RouteDecision, RoutingError, routing_error, index_error, finalize,
  route,
}

-- `bool(value)`
unfoldable pub is_truthy : Value → Bool
is_truthy null = false
is_truthy (bool b) = b
is_truthy (int (pos ℕ.zero)) = false
is_truthy (float s) = not (s == "0.0") && not (s == "-0.0")
is_truthy (str s) = not (s == "")
is_truthy (arr nil) = false
is_truthy (obj end) = false
is_truthy v = true

-- The state of the app, and its surroundings: the schema validators, and what an upstream answers to
-- a candidate's payload.
pub record App : Type 0 where
  pub token : Option String
  pub max_body_bytes : ℕ
  pub strict_validation : Bool
  pub router : DecisionRouter

pub record Surroundings : Type 0 where
  pub python : Python
  pub keyed_digest : String → String → String
  pub message_digest : Option Fields → String
  pub envelope_violation : Fields → Option Violation
  pub request_violation : Fields → Option Violation
  pub stream : CandidateConfig → String → List (String × String) → StreamReply
  pub complete : CandidateConfig → String → List (String × String) → CompleteReply

-- `value or default`, for a value that may be absent
unfoldable pub or_else : Option Value → Option Value → Option Value
unfolding is_truthy
or_else none other = other
or_else (some v) other = if is_truthy v then some v else other

abbrev text_or : Python → Option Value → String → String
text_or python none default = default
text_or python (some v) default = if is_truthy v then python.str_of v else default

unfoldable pub root_session_of : Python → Fields → String
unfolding get is_truthy
root_session_of python envelope = text_or python (get "root_session_id" envelope) ""

unfoldable pub virtual_model_of : Python → Fields → Fields → String
unfolding get is_truthy or_else
virtual_model_of python envelope forwarded =
    text_or python (or_else (get "virtual_model" envelope) (get "model" forwarded)) "auto"

-- the last-resort handler for an exception of this class
unfoldable pub internal_error : String → GatewayError
unfolding concat
internal_error name = record {
  status = 500;
  message = concat ("internal gateway error (" ∷ name ∷ ")" ∷ []);
  type_ = "internal_error";
  param = none;
  code = some "internal_error";
}

-- the `except RoutingError`, and the last-resort handler for the `IndexError`
unfoldable pub of_routing_error : RoutingError → GatewayError
unfolding internal_error
of_routing_error (routing_error m) = record {
  status = 400;
  message = m;
  type_ = "invalid_request_error";
  param = none;
  code = some "no_eligible_candidate";
}
of_routing_error index_error = internal_error "IndexError"

unfoldable pub wants_stream : Fields → Bool
unfolding get
wants_stream forwarded = elim (get "stream" forwarded) [ some (bool true) ↦ true | _ ↦ false ]

-- the admitted request: the body that goes upstream, and the envelope
unfoldable pub admit : Surroundings → App → Inbound → Result GatewayError (Fields × Fields)
admit env app request = do
  authenticate request.authorization app.token
  raw ← enforce_limits env.python app.max_body_bytes request
  body ← parse_body env.python raw
  stripped ← strip_envelope body
  validate_envelope env.python env.envelope_violation stripped.1
  validate_request env.python env.request_violation stripped.0 app.strict_validation
  ok stripped

-- both loops, over the candidates of the decision
unfoldable pub relay : Surroundings → Inbound → Fields → List CandidateConfig → Outcome
relay env request forwarded candidates =
    if wants_stream forwarded
    then fall_back env.python
        (λ c. stream_round (env.stream c (candidate_payload forwarded c) request.headers)) []
        candidates
    else fall_back env.python
        (λ c. complete_round (env.complete c (candidate_payload forwarded c) request.headers)) []
        candidates

-- `decision.attempts = attempts`
unfoldable pub note_attempts : Ref → List Attempt → List RouteDecision → List RouteDecision
note_attempts d attempts heap = elim (get_elem? heap d) [
  | none ↦ heap
  | some decision ↦ set heap d (record decision { attempts = attempts })
]

-- the end of the handler: `finalize`, `_all_failed`, or an exception that leaves it
unfoldable pub settle :
    DecisionRouter → Ref → Outcome → Result GatewayError Response × DecisionRouter
settle r d (committed c attempts response) = (ok response, finalize r d c attempts)
settle r d (exhausted attempts) =
    (raise (all_failed attempts), record r { heap = note_attempts d attempts r.heap })
settle r d (aborted name) = (raise (internal_error name), r)

unfoldable pub candidates_of : DecisionRouter → Ref → List CandidateConfig
candidates_of r d = elim (get_elem? r.heap d) [ none ↦ [] | some decision ↦ decision.candidates ]

-- the handler from the routed request on
unfoldable pub dispatch :
    Surroundings
    → Inbound
    → Fields
    → DecisionRouter
    → Result RoutingError (DecisionRouter × Ref)
    → Result GatewayError Response × DecisionRouter
dispatch env request forwarded r (raise e) = (raise (of_routing_error e), r)
dispatch env request forwarded r (ok (r', d)) =
    settle r' d (relay env request forwarded (candidates_of r' d))

unfoldable pub route_request :
    Surroundings → App → Fields → Fields → Result RoutingError (DecisionRouter × Ref)
route_request env app forwarded envelope =
    route env.keyed_digest env.message_digest app.router forwarded
      (root_session_of env.python envelope) (virtual_model_of env.python envelope forwarded)

unfoldable pub serve :
    Surroundings
    → App
    → Inbound
    → Result GatewayError (Fields × Fields)
    → Result GatewayError Response × DecisionRouter
serve env app request (raise e) = (raise e, app.router)
serve env app request (ok (forwarded, envelope)) =
    dispatch env request forwarded app.router (route_request env app forwarded envelope)

-- the response or the error, and the router after the request, where no other request runs between
-- `route` and `finalize`; Serving has those that do
unfoldable pub chat_completions :
    Surroundings → App → Inbound → Result GatewayError Response × DecisionRouter
chat_completions env app request = serve env app request (admit env app request)
