-- ===== src/Tests/Gateway.antt =====
-- The theorems on the gateway at concrete inputs.
use hermes_auto.Config.{CandidateConfig, credential_env_var}
use hermes_auto.Dict.{lookup}
use hermes_auto.Gateway.Ingress.Admission.{
  authenticate_iff, joined, read_body_beyond, read_body_within,
}
use hermes_auto.Gateway.Ingress.{
  Bytes, Inbound, chunk, disconnect, authenticate, enforce_limits, envelope_key, read_body,
  media_type, parse_body, object_of, strip_envelope, too_large, validate_envelope, validate_request,
  bearer, declared_too_large, encode_body,
}
use hermes_auto.Gateway.Relay.Chat.Requests.{
  Effective, chat_completions-Authenticated, chat_completions-settle,
}
use hermes_auto.Gateway.Relay.Chat.Serving.{Serves, Serves-IsValid, started, begun, settled}
use hermes_auto.Gateway.Relay.Chat.{
  App, Surroundings, admit, route_request, chat_completions, root_session_of, virtual_model_of,
  wants_stream, candidates_of, note_attempts, or_else, internal_error, relay, settle,
}
use hermes_auto.Gateway.Relay.Exchange.{candidate_payload_fields, received, relayed_values, written}
use hermes_auto.Gateway.Relay.Rounds.{Declines}
use hermes_auto.Gateway.Relay.Fallback.{Refused, attempt_of}
use hermes_auto.Gateway.Relay.{
  StreamReply, CompleteReply, candidate_payload, opened, answered, done, relayed, retryable_status,
  Round, stream_round, complete_round, Response, with_length, all_failed, crashed, is_success,
  fall_back,
}
use hermes_auto.Gateway.Upstream.Headers.{build_headers-values, sent, values}
use hermes_auto.Gateway.Upstream.Pool.{get_client-again}
use hermes_auto.Gateway.Upstream.{
  Header, UpstreamClient, build_headers, filter_headers, filter_response_headers, get_client,
  new_client, resolve_credential,
}
use hermes_auto.Json.{Fields, field, obj, str, pos, end, get, no_fields, pop}
use hermes_auto.Prelude.Result.{ok, raise}
use hermes_auto.Prelude.{
  ℕ, ◌≡◌, ◌≢◌, ◌↔◌, ◌∙◌, ap, inl, is_empty, length, refl, arith, All, map, ◌++◌, true, false, some,
  none, List, [], ◌∷◌, String, ◌==◌, if◌then◌else◌,
}
use hermes_auto.Python.{Python}
use hermes_auto.Routing.Router.Invariant.{IsValid, Reach-IsValid, start}
use hermes_auto.Routing.Router.{finalize}
use hermes_auto.Text.{show}
use hermes_auto.Tests.{
  anonymous_router, both, first_decision, hello, hello_anonymous, keyed_digest, message_digest,
  router, router_built, small, streaming,
}

abbrev python : Fields → Python
python body = record {
  int_of = λ text. some (pos 1);
  repr_of = λ value. "value";
  str_of = λ value. "auto";
  repr_text = λ text. text;
  is_printable = λ c. true;
  is_alnum = λ c. true;
  loads = λ raw. ok (obj body);
}

-- The first candidate is overloaded and the second answers.
abbrev env : Fields → Surroundings
env body = record {
  python = python body;
  keyed_digest = keyed_digest;
  message_digest = message_digest;
  envelope_violation = λ envelope. none;
  request_violation = λ request. none;
  stream = λ c payload headers.
      if c.id == "small"
      then opened 503 [] (record { chunks = []; ending = done })
      else opened 200 [] (record { chunks = (1 ∷ []) ∷ []; ending = done });
  complete = λ c payload headers.
      if c.id == "small" then answered 503 [] [] else answered 200 [] (1 ∷ 2 ∷ []);
}

abbrev app : App
app = record { token = some "t"; max_body_bytes = 100; strict_validation = true; router = router }

abbrev request : Inbound
request = record {
  authorization = some "Bearer t";
  content_type = some "application/json";
  content_length = none;
  events = chunk (1 ∷ 2 ∷ []) ∷ [];
  headers = [];
}

hello_admitted : admit (env hello) app request ≡ ok (hello, end)
unfolding admit authenticate bearer enforce_limits media_type declared_too_large read_body
    parse_body object_of strip_envelope pop get validate_envelope validate_request no_fields
hello_admitted = refl

hello_on_route : route_request (env hello) app hello end ≡ ok (anonymous_router, 0)
unfolding route_request root_session_of virtual_model_of or_else
hello_on_route = hello_anonymous

abbrev stream_of : CandidateConfig → StreamReply
stream_of c = (env streaming).stream c (candidate_payload streaming c) []

abbrev streamed : CandidateConfig → Round
streamed c = stream_round (stream_of c)

abbrev complete_of : CandidateConfig → CompleteReply
complete_of c = (env hello).complete c (candidate_payload hello c) []

abbrev completed : CandidateConfig → Round
completed c = complete_round (complete_of c)

-- what a request comes to where every candidate is refused
abbrev AllRefused : Fields → (CandidateConfig → Round) → Type 0
AllRefused body round =
    All (Refused round) (candidates_of anonymous_router 0)
    × (chat_completions (env body) app request ≡ (
      raise (all_failed (map (attempt_of (python body) round) (candidates_of anonymous_router 0))),
      record anonymous_router {
        heap =
            note_attempts 0
              (map (attempt_of (python body) round) (candidates_of anonymous_router 0))
              (first_decision ∷ []);
      },
    ))

abbrev StreamCommits : Type 0
StreamCommits =
    (pre post : List CandidateConfig) × (c : CandidateConfig) × (response : Response)
    × (headers : List Header) × (candidates_of anonymous_router 0 ≡ pre ++ c ∷ post)
    × All (λ c. Declines (stream_of c)) pre
    × ¬ (Declines (stream_of c))
    × (stream_of c ≡ opened response.status headers response.body)
    × (response.headers ≡ relayed headers)
    × (retryable_status response.status ≡ false)
    × (chat_completions (env streaming) app request ≡ (
      ok response,
      finalize anonymous_router 0 c (map (attempt_of (python streaming) streamed) pre),
    ))

abbrev StreamAborts : Type 0
StreamAborts =
    (pre post : List CandidateConfig) × (c : CandidateConfig) × (name : String) × (status : ℕ)
    × (headers : List Header) × (candidates_of anonymous_router 0 ≡ pre ++ c ∷ post)
    × All (λ c. Declines (stream_of c)) pre
    × (stream_of c ≡ opened status headers (record { chunks = []; ending = crashed name }))
    × (is_success status ≡ true)
    × (chat_completions (env streaming) app request
        ≡ (raise (internal_error name), anonymous_router))

-- The request is routed, and waits, and is settled.
hello_served : Serves router (record {
  router =
      (settle anonymous_router 0
        (relay (env hello) request hello (candidates_of anonymous_router 0))).1;
  waiting = [];
})
hello_served =
    settled 0 (relay (env hello) request hello (candidates_of anonymous_router 0)) [] []
      (begun (env hello) app request started refl hello_admitted hello_on_route) refl

Serves-IsValid_example :
    IsValid
      (settle anonymous_router 0
        (relay (env hello) request hello (candidates_of anonymous_router 0))).1
Serves-IsValid_example =
    Serves-IsValid router
      (Reach-IsValid keyed_digest message_digest (start both 4 2 "salt" router_built)) hello_served

abbrev answered_hello : Response
answered_hello = record {
  status = 200;
  headers = ("content-length", "2") ∷ [];
  body = record { chunks = (1 ∷ 2 ∷ []) ∷ []; ending = done };
}

hello_settled :
    (settle anonymous_router 0
      (relay (env hello) request hello (candidates_of anonymous_router 0))).0
    ≡ ok answered_hello
unfolding settle relay wants_stream get fall_back complete_round retryable_status with_length
    relayed filter_response_headers filter_headers candidates_of show
hello_settled = refl

hello_effective : Effective (env hello) app request
hello_effective = inl (
  answered_hello,
  ap (λ x. x.0) (chat_completions-settle (env hello) app request hello_admitted hello_on_route)
      ∙ hello_settled,
)

chat_completions-Authenticated_example :
    (t : String) × (some "t" ≡ some t) × (t ≢ "") × (bearer (some "Bearer t") ≡ t)
chat_completions-Authenticated_example =
    chat_completions-Authenticated (env hello) app request hello_effective

authenticate_iff_example :
    (authenticate (some "Bearer t") (some "t") ≡ ok tt)
    ↔ ((t : String) × (some "t" ≡ some t) × (t ≢ "") × (bearer (some "Bearer t") ≡ t))
authenticate_iff_example = authenticate_iff (some "Bearer t") (some "t")

abbrev chunks : List Bytes
chunks = (1 ∷ 2 ∷ []) ∷ (3 ∷ []) ∷ []

read_body_within_example : read_body 3 0 [] (map chunk chunks) ≡ ok (joined chunks)
read_body_within_example = read_body_within 3 chunks (omega arith)

read_body_beyond_example :
    read_body 2 0 [] (map chunk chunks ++ disconnect ∷ []) ≡ raise (too_large 2)
read_body_beyond_example = read_body_beyond 2 chunks (disconnect ∷ []) (omega arith)

abbrev wrapped : Fields
wrapped = field "_hermes_auto" (obj end) hello

wrapped_stripped : strip_envelope wrapped ≡ ok (hello, end)
unfolding strip_envelope pop get
wrapped_stripped = refl

candidate_payload_fields_example :
    (sent : Fields) × (candidate_payload hello small ≡ encode_body sent)
    × ((key : String)
        → get key sent ≡ (
            if "model" == key
            then some (str small.model)
            else if envelope_key == key
            then none
            else get key wrapped))
candidate_payload_fields_example = candidate_payload_fields wrapped hello end small wrapped_stripped

abbrev client_headers : List Header
client_headers =
    ("Authorization", "Bearer client") ∷ ("X-Trace", "1") ∷ ("Content-Type", "text/plain") ∷ []

build_headers-values_example :
    values "authorization" (build_headers (some "key") client_headers)
    ≡ sent (some "key") client_headers "authorization"
build_headers-values_example = build_headers-values (some "key") client_headers "authorization"

relayed_values_example :
    (written "content-length" (relayed client_headers) ≡ received "content-length" client_headers)
    × (written "content-length" (with_length (1 ∷ []) (relayed client_headers)) ≡ (
        if is_empty (received "content-length" client_headers)
        then received "content-length" client_headers
          ++ (if "content-length" == "content-length"
              then show (length {A = ℕ} (1 ∷ [])) ∷ []
              else [])
        else received "content-length" client_headers))
relayed_values_example = relayed_values (1 ∷ []) client_headers "content-length"

abbrev small_client : UpstreamClient
small_client = record { config = small; credential = none }

new_small : get_client (λ name. none) [] small ≡ ok (small_client, ("small", small_client) ∷ [])
unfolding get_client new_client resolve_credential credential_env_var
new_small = refl

get_client-again_example :
    (lookup "small" (("small", small_client) ∷ []) ≡ some small_client)
    × (get_client (λ name. none) (("small", small_client) ∷ []) small
        ≡ ok (small_client, ("small", small_client) ∷ []))
get_client-again_example =
    get_client-again (λ name. none) [] (("small", small_client) ∷ []) small small_client new_small
