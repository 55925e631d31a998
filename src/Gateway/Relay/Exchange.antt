-- ===== src/Gateway/Relay/Exchange.antt =====
-- What `chat_completions` sends to a candidate, and the headers that it answers with.
use hermes_auto.Config.{CandidateConfig}
use hermes_auto.Dict.{elem}
use hermes_auto.Gateway.Ingress.{Bytes, encode_body, envelope_key, strip_envelope}
use hermes_auto.Gateway.Ingress.Envelope.{forwarded_fields}
use hermes_auto.Gateway.Relay.{candidate_payload, relayed, with_length}
use hermes_auto.Gateway.Upstream.{Header, filter_response_headers, hop_by_hop_headers}
use hermes_auto.Gateway.Upstream.Headers.{filter_response_headers-values, values}
use hermes_auto.Json.{Fields, get, put, str}
use hermes_auto.Prelude.Result.{ok}
use hermes_auto.Prelude.{
  String, ◌≡◌, refl, ◌∙◌, not, List, [], ◌∷◌, ◌++◌, ◌==◌, any, map, is_empty, length, if◌then◌else◌,
  none, some, Bool-cases, inl, inr, arith,
}
use hermes_auto.Text.{lower, show}

-- For a body whose envelope was stripped, the payload of a candidate is the text of an object that
-- holds the candidate's model under "model", no envelope, and what the client sent under every other
-- key.
pub candidate_payload_fields :
    (body forwarded envelope : Fields) (candidate : CandidateConfig)
    → strip_envelope body ≡ ok (forwarded, envelope)
    → (sent : Fields) × (candidate_payload forwarded candidate ≡ encode_body sent)
      × ((key : String)
          → get key sent ≡ (
              if "model" == key
              then some (str candidate.model)
              else if envelope_key == key
              then none
              else get key body))
unfolding candidate_payload
candidate_payload_fields body forwarded envelope candidate h = (
  put "model" (str candidate.model) forwarded,
  refl,
  λ key. forwarded_fields body forwarded envelope candidate.model key h,
)

-- The values that stand under this name as it is written.
pub written : String → List Header → List String
written name [] = []
written name ((key, value) ∷ headers) =
    if key == name then value ∷ written name headers else written name headers

written-lower :
    (name : String) (headers : List Header)
    → written name (map (λ h. (lower h.0, h.1)) headers) ≡ values name headers
unfolding written values
written-lower name [] = refl
written-lower name ((key, value) ∷ headers) = rw (written-lower name headers) refl

written-append :
    (name : String) (xs ys : List Header)
    → written name (xs ++ ys) ≡ written name xs ++ written name ys
unfolding written
written-append name [] ys = refl
written-append name ((key, value) ∷ xs) ys = ground (arith, written-append name xs ys)

any-written :
    (name : String) (headers : List Header)
    → any (λ h. h.0 == name) headers ≡ not (is_empty (written name headers))
unfolding written
any-written name [] = refl
any-written name ((key, value) ∷ headers) = ground (arith, any-written name headers)

-- the values of the upstream that the client receives
abbrev pub received : String → List Header → List String
received name headers = if elem name hop_by_hop_headers then [] else values name headers

relayed-written :
    (headers : List Header) (name : String) → written name (relayed headers) ≡ received name headers
unfolding relayed
relayed-written headers name =
    written-lower name (filter_response_headers headers)
    ∙ filter_response_headers-values headers name

with_length-written :
    (content : Bytes) (headers : List Header) (name : String)
    → written name (with_length content headers) ≡ (
        if is_empty (written "content-length" headers)
        then written name headers
          ++ (if "content-length" == name then show (length content) ∷ [] else [])
        else written name headers)
unfolding with_length written
with_length-written content headers name =
    elim (Bool-cases (is_empty (written "content-length" headers))) [
      | inl e ↦
          rw (any-written "content-length" headers, e)
            (written-append name headers (("content-length", show (length content)) ∷ []))
      | inr e ↦ rw (any-written "content-length" headers, e) refl
    ]

-- Under each name the client receives the values of the upstream in their order, and none under a
-- hop-by-hop name, which is so of a stream; of a complete response with the length of its content under
-- "content-length" if it would have none there.
pub relayed_values :
    (content : Bytes) (headers : List Header) (name : String)
    → (written name (relayed headers) ≡ received name headers)
      × (written name (with_length content (relayed headers)) ≡ (
          if is_empty (received "content-length" headers)
          then received name headers
            ++ (if "content-length" == name then show (length content) ∷ [] else [])
          else received name headers))
relayed_values content headers name = (
  relayed-written headers name,
  with_length-written content (relayed headers) name
      ∙ rw (relayed-written headers name, relayed-written headers "content-length") refl,
)
