-- ===== src/Gateway/Relay.antt =====
-- gateway/app.py and gateway/relay.py: the fallback over the candidates and the relayed response.
pub mod Fallback
pub mod Rounds
pub mod Exchange
pub mod Chat
use Prim.Native.Char.{Char, code}
use Prim.Native.String
use hermes_auto.Config.{CandidateConfig}
use hermes_auto.Gateway.Errors.{GatewayError}
use hermes_auto.Gateway.Ingress.{encode_body, take_chars, Bytes}
use hermes_auto.Gateway.Upstream.{
  Failure, gateway_error, upstream_config_error, Header, filter_response_headers,
}
use hermes_auto.Json.{Fields, put, str}
use hermes_auto.Prelude.Result.{Result, ok, raise}
use hermes_auto.Prelude.{
  ℕ, String, Bool, true, false, not, ◌||◌, ◌&&◌, Option, none, some, List, [], ◌∷◌, ◌++◌, ◌==◌,
  ◌=ℕ◌, leb, ltb, any, map, length, if◌then◌else◌,
}
use hermes_auto.Python.{Python}
use hermes_auto.Routing.Router.{Attempt}
use hermes_auto.Text.{concat, join, lower, show}

unfoldable pub retryable_status : ℕ → Bool
retryable_status status = status =ℕ 401 || status =ℕ 403 || status =ℕ 429 || leb 500 status

-- `_candidate_id`
unfoldable pub safe_chars : Python → String → String
safe_chars python String.[] = ""
safe_chars python (String.◌∷◌ c s) =
    String.◌∷◌
      (if python.is_alnum c || code c =ℕ 46 || code c =ℕ 95 || code c =ℕ 45 then c else "?")
      (safe_chars python s)

unfoldable pub candidate_id : Python → CandidateConfig → String
unfolding safe_chars take_chars
candidate_id python candidate =
    let safe = safe_chars python candidate.id in
    take_chars 64 (if safe == "" then "unnamed" else safe)

-- `_failure_reason`
unfoldable pub failure_reason : Failure → String
failure_reason (upstream_config_error m) = "credential_unavailable"
failure_reason (gateway_error e) = elim e.code [
  | none ↦ "transport_error"
  | some c ↦ if c == "" then "transport_error" else c
]

-- `f"http_{status}"`
unfoldable pub http_reason : ℕ → String
unfolding concat show
http_reason status = concat ("http_" ∷ show status ∷ [])

-- `_candidate_payload`
unfoldable pub candidate_payload : Fields → CandidateConfig → String
unfolding put encode_body
candidate_payload forwarded candidate = encode_body (put "model" (str candidate.model) forwarded)

-- the detail of `_all_failed`
unfoldable pub attempt_note : Attempt → String
unfolding concat
attempt_note a = concat (a.candidate ∷ ": " ∷ a.reason ∷ [])

unfoldable pub all_failed : List Attempt → GatewayError
unfolding concat join attempt_note
all_failed attempts = record {
  status = 502;
  message =
      concat (
        "All eligible Auto candidates failed ("
        ∷ join "; " (map attempt_note attempts)
        ∷ ")."
        ∷ []);
  type_ = "api_error";
  param = none;
  code = some "all_candidates_failed";
}

-- `_relayed`: filtered, with lower-case names, in order
unfoldable pub relayed : List Header → List Header
unfolding lower
relayed headers = map (λ h. (lower h.0, h.1)) (filter_response_headers headers)

-- How an upstream body ends: at its end, by an exception that the handler names, or by any other,
-- of this class. `_iterate` of gateway/upstream.py lets the errors of httpx through as they are.
pub data Ending : Type 0 where
  done : Ending
  broken : Failure → Ending
  crashed : String → Ending

-- The chunks of an upstream body and how it ends.
pub record Chunks : Type 0 where
  pub chunks : List Bytes
  pub ending : Ending

-- What `client_pool.stream` and `client_pool.complete` return or raise.
pub data StreamReply : Type 0 where
  failed : Failure → StreamReply
  opened : ℕ → List Header → Chunks → StreamReply

pub data CompleteReply : Type 0 where
  failed : Failure → CompleteReply
  answered : ℕ → List Header → Bytes → CompleteReply

-- The response to the client; for a stream `body` is what `relay_stream` yields of it.
pub record Response : Type 0 where
  pub status : ℕ
  pub headers : List Header
  pub body : Chunks

-- What a loop over the candidates comes to.
pub data Outcome : Type 0 where
  committed : CandidateConfig → List Attempt → Response → Outcome
  exhausted : List Attempt → Outcome
  aborted : String → Outcome

-- What one round of a loop comes to: a reason to go on, a response, or an exception of this class
-- that leaves the handler.
pub data Round : Type 0 where
  go_on : String → Round
  commit : Response → Round
  abort : String → Round

-- `relay_stream`: every chunk, unchanged
unfoldable pub relay_stream : Chunks → Chunks
relay_stream c = c

-- `_with_first`
unfoldable pub with_first : Bytes → Chunks → Chunks
with_first first rest = record rest { chunks = first ∷ rest.chunks }

abbrev pub is_success : ℕ → Bool
is_success status = leb 200 status && ltb status 300

-- the part of a streaming round for a success: `anext(chunks)`, and what it may raise
unfoldable pub first_chunk : ℕ → List Header → List Bytes → Ending → Round
unfolding relay_stream with_first failure_reason
first_chunk status headers [] done = commit (record {
  status = status;
  headers = relayed headers;
  body = record { chunks = []; ending = done };
})
first_chunk status headers [] (broken e) = go_on (failure_reason e)
first_chunk status headers [] (crashed name) = abort name
first_chunk status headers (c ∷ cs) ending = commit (record {
  status = status;
  headers = relayed headers;
  body = relay_stream (with_first c (record { chunks = cs; ending = ending }));
})

-- one round of the streaming loop
unfoldable pub stream_round : StreamReply → Round
unfolding first_chunk retryable_status http_reason
stream_round (failed e) = go_on (failure_reason e)
stream_round (opened status headers c) =
    if retryable_status status
    then go_on (http_reason status)
    else if is_success status
    then first_chunk status headers c.chunks c.ending
    else commit (record { status = status; headers = relayed headers; body = relay_stream c })

-- `relayed` with the length of the content, if the upstream named none
unfoldable pub with_length : Bytes → List Header → List Header
unfolding show
with_length content headers =
    if any (λ h. h.0 == "content-length") headers
    then headers
    else headers ++ ("content-length", show (length content)) ∷ []

-- one round of the other loop
unfoldable pub complete_round : CompleteReply → Round
unfolding with_length retryable_status http_reason failure_reason
complete_round (failed e) = go_on (failure_reason e)
complete_round (answered status headers content) =
    if retryable_status status
    then go_on (http_reason status)
    else commit (record {
      status = status;
      headers = with_length content (relayed headers);
      body = record { chunks = content ∷ []; ending = done };
    })

-- both loops over the candidates, from the attempts so far
unfoldable pub fall_back :
    Python → (CandidateConfig → Round) → List Attempt → List CandidateConfig → Outcome
fall_back python round attempts [] = exhausted attempts
fall_back python round attempts (c ∷ cs) = elim (round c) [
  | go_on reason ↦
      fall_back python round
        (attempts ++ record { candidate = candidate_id python c; reason = reason } ∷ []) cs
  | commit response ↦ committed c attempts response
  | abort name ↦ aborted name
]
