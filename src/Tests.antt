-- ===== src/Tests.antt =====
-- Test data, and the theorems at concrete inputs.
mod Routing
mod Configuration
mod Gateway
mod Access
mod Supervision
mod Telemetry
use hermes_auto.Config.{CandidateConfig}
use hermes_auto.Json.{Fields, Value, Items, str, arr, obj, field, end, cons, nil, bool}
use hermes_auto.Prelude.{◌≡◌, refl, String, Bool, true, false, Option, none, List, [], ◌∷◌}
use hermes_auto.Prelude.Result.{ok}
use hermes_auto.Routing.Candidates.{
  eligible_candidates, sift, sort_one, reasons_against, ordered_candidates, by_tiers,
  tier_fallback_order, detected_tier, compatibility_tier, mode_of,
}
use hermes_auto.Routing.Request.{complexity_score, score_of}
use hermes_auto.Routing.Router.{
  DecisionRouter, RouteDecision, init, route, route_from, decide, pin_of, pinned_candidate,
  pin_order, pin_reason, explain, commit, remember, move_to_end, evict, append_bounded, session_key,
  fingerprint_of,
}

abbrev pub candidate : String → String → Bool → CandidateConfig
candidate id tier supports_vision = record {
  id = id;
  provider = "openai-compatible";
  model = id;
  base_url = "http://127.0.0.1:11434/v1";
  credential_ref = "none";
  tier = tier;
  context_window = 8000;
  supports_tools = true;
  supports_vision = supports_vision;
}

abbrev pub small : CandidateConfig
small = candidate "small" "fast" false

abbrev pub large : CandidateConfig
large = candidate "large" "strong" true

abbrev pub both : List CandidateConfig
both = small ∷ large ∷ []

abbrev message : String → String → Value
message role content = obj (field "role" (str role) (field "content" (str content) end))

abbrev request : Items → Fields
request messages = field "model" (str "auto") (field "messages" (arr messages) end)

abbrev pub hello : Fields
hello = request (cons (message "user" "hi") nil)

abbrev pub tool_result : Fields
tool_result = request (cons (message "user" "hi") (cons (message "tool" "done") nil))

-- a candidate without tools, and a request that declares some
abbrev pub blind : CandidateConfig
blind = record (candidate "blind" "fast" false) { supports_tools = false }

abbrev pub with_tools : Fields
with_tools = field "tools" (arr (cons (str "a") nil)) hello

abbrev pub streaming : Fields
streaming = field "stream" (bool true) hello

abbrev pub keyed_digest : String → String → String
keyed_digest salt text = text

abbrev pub message_digest : Option Fields → String
message_digest message = "digest"

abbrev pub router : DecisionRouter
router = record {
  candidates = both;
  max_sessions = 4;
  max_decisions = 2;
  sessions = [];
  decisions = [];
  heap = [];
  session_salt = "salt";
}

-- The decision on `hello`, and the router after it.
abbrev pub first_decision : RouteDecision
first_decision = record {
  selected = small;
  candidates = both;
  detected_tier = "fast";
  requested_tier = "fast";
  score = 0;
  estimated_tokens = 9;
  filtered = [];
  fingerprint = "1:digest";
  pinned = none;
  attempts = [];
}

abbrev pub routed_router : DecisionRouter
routed_router = record router {
  sessions = ("session", record { candidate_id = "small"; decision = 0 }) ∷ [];
  decisions = 0 ∷ [];
  heap = first_decision ∷ [];
}

pub hello_routed :
    route keyed_digest message_digest router hello "session" "auto" ≡ ok (routed_router, 0)
unfolding route route_from eligible_candidates sift sort_one reasons_against decide pin_of
    pinned_candidate pin_order pin_reason explain ordered_candidates by_tiers tier_fallback_order
    commit remember move_to_end evict append_bounded session_key fingerprint_of detected_tier
    compatibility_tier mode_of complexity_score score_of
hello_routed = refl

pub router_built : init both 4 2 "salt" ≡ ok router
unfolding init
router_built = refl

-- The router after a request that names no session.
abbrev pub anonymous_router : DecisionRouter
anonymous_router = record routed_router {
  sessions = ("no-session", record { candidate_id = "small"; decision = 0 }) ∷ [];
}

pub hello_anonymous :
    route keyed_digest message_digest router hello "" "auto" ≡ ok (anonymous_router, 0)
unfolding route route_from eligible_candidates sift sort_one reasons_against decide pin_of
    pinned_candidate pin_order pin_reason explain ordered_candidates by_tiers tier_fallback_order
    commit remember move_to_end evict append_bounded session_key fingerprint_of detected_tier
    compatibility_tier mode_of complexity_score score_of
hello_anonymous = refl

pub streaming_anonymous :
    route keyed_digest message_digest router streaming "" "auto" ≡ ok (anonymous_router, 0)
unfolding route route_from eligible_candidates sift sort_one reasons_against decide pin_of
    pinned_candidate pin_order pin_reason explain ordered_candidates by_tiers tier_fallback_order
    commit remember move_to_end evict append_bounded session_key fingerprint_of detected_tier
    compatibility_tier mode_of complexity_score score_of
streaming_anonymous = refl
