-- ===== src/Gateway/Relay/Chat/Requests.antt =====
-- Where the response of `chat_completions` comes from.
use hermes_auto.Config.{CandidateConfig}
use hermes_auto.Gateway.Errors.{GatewayError}
use hermes_auto.Gateway.Ingress.Admission.{authenticate_iff}
use hermes_auto.Gateway.Ingress.{Inbound, authenticate, bearer}
use hermes_auto.Gateway.Relay.{
  Response, Round, all_failed, candidate_payload, complete_round, stream_round, relayed,
  retryable_status, opened, StreamReply, CompleteReply, crashed, is_success,
}
use hermes_auto.Gateway.Relay.Chat.{
  App, Surroundings, admit, candidates_of, chat_completions, dispatch, internal_error,
  note_attempts, relay, route_request, serve, settle,
}
use hermes_auto.Gateway.Relay.Fallback.{Refused, attempt_of}
use hermes_auto.Gateway.Relay.Rounds.{Declines}
use hermes_auto.Gateway.Upstream.{Header}
use hermes_auto.Json.{Fields}
use hermes_auto.Prelude.Result.{Result, Result-cases, ok, raise}
use hermes_auto.Prelude.{
  ℕ, String, ◌≡◌, ◌≢◌, ◌⊎◌, refl, sym, ap, ◌∙◌, true, false, some, List, [], ◌∷◌, ◌++◌, map, All,
  inl, inr,
}
use hermes_auto.Routing.Router.{Attempt, DecisionRouter, Ref, finalize}

ok≢raise :
    {response : Response} {e : GatewayError}
    → ◌≢◌ {A = Result GatewayError Response} (ok response) (raise e)
ok≢raise h = cc

module _ (env : Surroundings) (app : App) (request : Inbound) where
  chat_completions_denied :
      {e : GatewayError}
      → authenticate request.authorization app.token ≡ raise e
      → chat_completions env app request ≡ (raise e, app.router)
  unfolding chat_completions admit serve
  chat_completions_denied h = rw h refl

  -- The request was answered by a response, or changed the router.
  abbrev pub Effective : Type 0
  Effective =
      ((response : Response) × ((chat_completions env app request).0 ≡ ok response))
      ⊎ ((chat_completions env app request).1 ≢ app.router)

  -- A request that is answered by a response, or that changes the router in any way, carries in its
  -- bearer header the token that was minted, which is not empty.
  pub chat_completions-Authenticated :
      Effective
      → (t : String) × (app.token ≡ some t) × (t ≢ "") × (bearer request.authorization ≡ t)
  chat_completions-Authenticated h =
      elim (Result-cases (authenticate request.authorization app.token)) [
        | inl (e, k) ↦ absurd (denied e (chat_completions_denied k) h)
        | inr (u, e) ↦ (authenticate_iff request.authorization app.token).0 e
      ]
    where
      denied :
          (e : GatewayError)
          → chat_completions env app request ≡ (raise e, app.router)
          → Effective
          → ⊥
      denied e p (inl (response, q)) = ok≢raise (sym q ∙ ap (λ x. x.0) p)
      denied e p (inr changed) = changed (ap (λ x. x.1) p)

  module _ {forwarded envelope : Fields} {r : DecisionRouter} {d : Ref}
      (admitted : admit env app request ≡ ok (forwarded, envelope))
      (routed : route_request env app forwarded envelope ≡ ok (r, d)) where
    pub chat_completions-settle :
        chat_completions env app request
        ≡ settle r d (relay env request forwarded (candidates_of r d))
    unfolding chat_completions serve dispatch
    chat_completions-settle = rw (admitted, routed) refl

    abbrev cands : List CandidateConfig
    cands = candidates_of r d

    -- what a candidate answers, and the round that this makes
    abbrev stream_of : CandidateConfig → StreamReply
    stream_of c = env.stream c (candidate_payload forwarded c) request.headers

    abbrev complete_of : CandidateConfig → CompleteReply
    complete_of c = env.complete c (candidate_payload forwarded c) request.headers

    abbrev streamed : CandidateConfig → Round
    streamed c = stream_round (stream_of c)

    abbrev completed : CandidateConfig → Round
    completed c = complete_round (complete_of c)

    abbrev attempts_on : (CandidateConfig → Round) → List CandidateConfig → List Attempt
    attempts_on round = map (attempt_of env.python round)

    -- What is noted, and answered, where every candidate is refused.
    abbrev AllRefused : (CandidateConfig → Round) → Type 0
    AllRefused round =
        All (Refused round) cands
        × (chat_completions env app request ≡ (
          raise (all_failed (attempts_on round cands)),
          record r { heap = note_attempts d (attempts_on round cands) r.heap },
        ))

    -- The upstreams of these candidates declined.
    abbrev Declined : List CandidateConfig → Type 0
    Declined = All (λ c. Declines (stream_of c))

    -- What is answered where the first candidate that does not decline commits: its status, which permits no
    -- fallback, its filtered headers, its chunks and their ending.
    abbrev StreamCommits : Type 0
    StreamCommits =
        (pre post : List CandidateConfig) × (c : CandidateConfig) × (response : Response)
        × (headers : List Header) × (cands ≡ pre ++ c ∷ post)
        × Declined pre
        × ¬ (Declines (stream_of c))
        × (stream_of c ≡ opened response.status headers response.body)
        × (response.headers ≡ relayed headers)
        × (retryable_status response.status ≡ false)
        × (chat_completions env app request
            ≡ (ok response, finalize r d c (attempts_on streamed pre)))

    -- What is answered where those before a candidate decline and its body crashes before its first chunk.
    abbrev StreamAborts : Type 0
    StreamAborts =
        (pre post : List CandidateConfig) × (c : CandidateConfig) × (name : String) × (status : ℕ)
        × (headers : List Header) × (cands ≡ pre ++ c ∷ post)
        × Declined pre
        × (stream_of c ≡ opened status headers (record { chunks = []; ending = crashed name }))
        × (is_success status ≡ true)
        × (chat_completions env app request ≡ (raise (internal_error name), r))
